-- ===== src/Context/Axes.antt =====
-- The types of src/o3ds/context.h, and `Context`.
use open3dstream.Base.{◌+◌, ℕ, Bool, true, false, ◌&&◌, ◌||◌, ◌==◌, if◌then◌else◌}

-- `enum class Direction`, with the values of its enumerators.
pub data Direction : Type 0 where
  unknown left right forward back up down last : Direction

abbrev pub direction_value : Direction → ℕ
direction_value unknown = 0
direction_value left = 1
direction_value right = 2
direction_value forward = 3
direction_value back = 4
direction_value up = 5
direction_value down = 6
direction_value last = 7

-- `==` on directions.
abbrev pub same_direction : Direction → Direction → Bool
same_direction d e = direction_value d == direction_value e

-- The enumerators, and the values of the type that none of them has, from 10 on.
pub data DistanceUnit : Type 0 where
  unknown millimeter centimeter meter kilometer inch foot mile light_year parsec : DistanceUnit
  other_unit : ℕ → DistanceUnit

abbrev pub unit_value : DistanceUnit → ℕ
unit_value DistanceUnit.unknown = 0
unit_value millimeter = 1
unit_value centimeter = 2
unit_value meter = 3
unit_value kilometer = 4
unit_value inch = 5
unit_value foot = 6
unit_value mile = 7
unit_value light_year = 8
unit_value parsec = 9
unit_value (other_unit n) = 10 + n

-- Whether a unit is an enumerator.
abbrev pub is_named : DistanceUnit → Bool
is_named (other_unit n) = false
is_named _ = true

abbrev pub same_unit : DistanceUnit → DistanceUnit → Bool
same_unit d e = unit_value d == unit_value e

pub record Context : Type 0 where
  pub x : Direction
  pub y : Direction
  pub z : Direction
  pub distance : DistanceUnit

-- The constructor without arguments.
unfoldable pub no_context : Context
no_context = record {
  x = Direction.unknown;
  y = Direction.unknown;
  z = Direction.unknown;
  distance = DistanceUnit.unknown;
}

-- Left and right are 1, up and down 2, forward and back 3.
unfoldable pub axis_id : Direction → ℕ
axis_id d =
    if same_direction d left || same_direction d right
    then 1
    else if same_direction d up || same_direction d down
    then 2
    else if same_direction d forward || same_direction d back
    then 3
    else 0

unfoldable pub valid : Context → Bool
valid c =
    let a = axis_id c.x in
    let b = axis_id c.y in
    let d = axis_id c.z in
    if same_direction c.x Direction.unknown
      || (same_direction c.y Direction.unknown
          || (same_direction c.z Direction.unknown || same_unit c.distance DistanceUnit.unknown))
    then false
    else if a == 0 || (b == 0 || d == 0)
    then false
    else if a == b || (a == d || b == d)
    then false
    else true

-- `operator==`.
unfoldable pub same_context : Context → Context → Bool
same_context c d =
    same_direction c.x d.x
    && (same_direction c.y d.y && (same_direction c.z d.z && same_unit c.distance d.distance))

unfoldable pub mobu : Context
mobu = record { x = right; y = up; z = back; distance = centimeter }

unfoldable pub unreal : Context
unreal = record { x = forward; y = right; z = up; distance = centimeter }
