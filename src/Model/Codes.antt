-- ===== src/Model/Codes.antt =====
-- Directions and units in packets: the functions `dir` and `distUnit` of src/o3ds/model.cpp, the
-- numbers of the enumerations of src/o3ds.fbs, and the context that a packet carries. A packet can
-- hold any byte for an enumeration.
use open3dstream.Base.{ℕ, ◌<◌, arith, true, ◌-◌, ap, ◌∙◌, if◌then◌else◌, ◌==◌, leb, ◌≡◌, refl}
use open3dstream.Context.Totality.{valid-Orthogonal}
use open3dstream.Context.Axes.{
  Direction, left, right, forward, back, up, down, last, DistanceUnit, millimeter, centimeter,
  meter, kilometer, inch, foot, mile, light_year, parsec, other_unit, is_named, Context, axis_id,
  valid,
}

-- `dir` of a direction, as the number of `Data::Direction`.
unfoldable pub direction_code : Direction → ℕ
direction_code up = 5
direction_code down = 6
direction_code left = 1
direction_code right = 2
direction_code forward = 3
direction_code back = 4
direction_code Direction.unknown = 0
direction_code last = 0

-- `dir` of a number.
unfoldable pub direction_of : ℕ → Direction
direction_of n =
    if n == 5
    then up
    else if n == 6
    then down
    else if n == 1
    then left
    else if n == 2
    then right
    else if n == 3
    then forward
    else if n == 4
    then back
    else Direction.unknown

-- `distUnit` of a unit, as the number of `Data::DistanceUnit`.
unfoldable pub unit_code : DistanceUnit → ℕ
unit_code millimeter = 1
unit_code centimeter = 2
unit_code meter = 3
unit_code kilometer = 4
unit_code inch = 5
unit_code foot = 6
unit_code mile = 7
unit_code light_year = 8
unit_code parsec = 9
unit_code DistanceUnit.unknown = 0
unit_code (other_unit n) = 0

-- `distUnit` of a number.
unfoldable pub unit_of : ℕ → DistanceUnit
unit_of n =
    if n == 1
    then millimeter
    else if n == 2
    then centimeter
    else if n == 3
    then meter
    else if n == 4
    then kilometer
    else if n == 5
    then inch
    else if n == 6
    then foot
    else if n == 7
    then mile
    else if n == 8
    then light_year
    else if n == 9
    then parsec
    else DistanceUnit.unknown

-- The cast of a number to `O3DS::DistanceUnit`.
unfoldable pub cast_unit : ℕ → DistanceUnit
unfolding unit_of
cast_unit n = if leb n 9 then unit_of n else other_unit (n - 10)

-- The fields of `table SubjectList` for a context.
pub record WireContext : Type 0 where
  pub x_axis : ℕ
  pub y_axis : ℕ
  pub z_axis : ℕ
  pub distance_unit : ℕ

-- The part of `createRoot` that adds them, and of `SubjectList::parse` that reads them.
unfoldable pub add_context : Context → WireContext
unfolding direction_code unit_code
add_context c = record {
  x_axis = direction_code c.x;
  y_axis = direction_code c.y;
  z_axis = direction_code c.z;
  distance_unit = unit_code c.distance;
}

unfoldable pub read_context : WireContext → Context
unfolding direction_of cast_unit
read_context w = record {
  x = direction_of w.x_axis;
  y = direction_of w.y_axis;
  z = direction_of w.z_axis;
  distance = cast_unit w.distance_unit;
}

-- What becomes of a unit in a packet.
abbrev pub sent_unit : DistanceUnit → DistanceUnit
sent_unit u = if is_named u then u else DistanceUnit.unknown

cast_unit-unit_code : (u : DistanceUnit) → cast_unit (unit_code u) ≡ sent_unit u
unfolding cast_unit unit_code unit_of
cast_unit-unit_code DistanceUnit.unknown = refl
cast_unit-unit_code millimeter = refl
cast_unit-unit_code centimeter = refl
cast_unit-unit_code meter = refl
cast_unit-unit_code kilometer = refl
cast_unit-unit_code inch = refl
cast_unit-unit_code foot = refl
cast_unit-unit_code mile = refl
cast_unit-unit_code light_year = refl
cast_unit-unit_code parsec = refl
cast_unit-unit_code (other_unit n) = refl

axis-direction : (d : Direction) → 0 < axis_id d → direction_of (direction_code d) ≡ d
unfolding axis_id direction_of direction_code
axis-direction Direction.unknown h = absurd (omega arith)
axis-direction left h = refl
axis-direction right h = refl
axis-direction forward h = refl
axis-direction back h = refl
axis-direction up h = refl
axis-direction down h = refl
axis-direction last h = absurd (omega arith)

-- A valid context that is put into a packet is read from it as it was, but for a unit that is not an
-- enumerator, which is read as `Unknown`.
pub context_roundtrip :
    (c : Context)
    → valid c ≡ true
    → read_context (add_context c) ≡ record c { distance = sent_unit c.distance }
unfolding read_context add_context
context_roundtrip c h =
    let a = valid-Orthogonal c h in
    rw
      (
        cast_unit-unit_code c.distance,
        axis-direction c.x a.x_pos,
        axis-direction c.y a.y_pos,
        axis-direction c.z a.z_pos,
      )
      refl

pub context_named :
    (c : Context) → valid c ≡ true → is_named c.distance ≡ true → read_context (add_context c) ≡ c
context_named c h n =
    context_roundtrip c h
    ∙ ap (λ b. record c { distance = if b then c.distance else DistanceUnit.unknown }) n
