-- ===== src/Context/Conversion.antt =====
-- src/o3ds/context.cpp: `computeConversion` and `ConversionContext`. The numbers of the axes in
-- `axisRemap` are 0, 1 and 2 wherever the code writes them: the type `Slot`.
use open3dstream.Base.{
  ℕ, ◌+◌, ◌%◌, Bool, true, false, not, ◌&&◌, ◌||◌, Option, some, none, ltb, ◌==◌, if◌then◌else◌,
}
use open3dstream.Numerics.{Triple, Quad, Matrix, Numerics}
use open3dstream.Context.Axes.{
  Direction, DistanceUnit, millimeter, centimeter, meter, kilometer, inch, foot, mile, light_year,
  other_unit, parsec, Context, axis_id, valid, same_direction,
}

pub data Slot : Type 0 where
  first second third : Slot

-- The axis as an `int`.
abbrev pub slot_index : Slot → ℕ
slot_index first = 0
slot_index second = 1
slot_index third = 2

abbrev pub pick {ℓ} : {A : Type ℓ} → Triple A → Slot → A
pick t first = t.x
pick t second = t.y
pick t third = t.z

abbrev pub axes : Context → Triple Direction
axes c = record { x = c.x; y = c.y; z = c.z }

abbrev pub identity_remap : Triple Slot
identity_remap = record { x = first; y = second; z = third }

-- `r[0] > r[1]` and so on: the inversions of the permutation.
unfoldable pub inversions : Triple Slot → ℕ
inversions r =
    (if ltb (slot_index r.y) (slot_index r.x) then 1 else 0)
    + (if ltb (slot_index r.z) (slot_index r.x) then 1 else 0)
    + (if ltb (slot_index r.z) (slot_index r.y) then 1 else 0)

module _ (N : Numerics) where
  open N use {F, null, one, neg, mul, div_single, equal, less, literal, product}

  -- Metres for each unit.
  unfoldable pub unit_to_metres : DistanceUnit → F
  unit_to_metres DistanceUnit.unknown = literal 1 0 0
  unit_to_metres millimeter = literal 1 0 3
  unit_to_metres centimeter = literal 1 0 2
  unit_to_metres meter = literal 1 0 0
  unit_to_metres kilometer = literal 1 3 0
  unit_to_metres inch = literal 254 0 4
  unit_to_metres foot = literal 3048 0 4
  unit_to_metres mile = literal 1609344 0 3
  unit_to_metres light_year = literal 9461 12 0
  unit_to_metres parsec = literal 3086 13 0
  unit_to_metres (other_unit n) = literal 1 0 0

  -- What `computeConversion` writes through its references.
  pub record Outputs : Type 0 where
    pub remap : Triple Slot
    pub sign : Triple F
    pub scale : F

  -- The inner loop: the first axis of the source that carries the direction, and its sign.
  unfoldable pub find_source : Context → Direction → Option (Slot × F)
  find_source from d =
      let sign_of = λ (s : Direction). if same_direction s d then one else neg one in
      if axis_id from.x == axis_id d
      then some (first, sign_of from.x)
      else if axis_id from.y == axis_id d
      then some (second, sign_of from.y)
      else if axis_id from.z == axis_id d
      then some (third, sign_of from.z)
      else none

  -- What the outer loop stores for an axis of the destination.
  abbrev pub store_x : Slot × F → Outputs → Outputs
  store_x p o = record o {
    remap = record (o.remap) { x = p.0 };
    sign = record (o.sign) { x = p.1 };
  }

  abbrev pub store_y : Slot × F → Outputs → Outputs
  store_y p o = record o {
    remap = record (o.remap) { y = p.0 };
    sign = record (o.sign) { y = p.1 };
  }

  abbrev pub store_z : Slot × F → Outputs → Outputs
  store_z p o = record o {
    remap = record (o.remap) { z = p.0 };
    sign = record (o.sign) { z = p.1 };
  }

  -- The outer loop stops at an axis that is not found, with what it has stored so far.
  unfoldable pub compute_conversion : Context → Context → Outputs → Bool × Outputs
  compute_conversion to from o =
      if not (valid to) || not (valid from) then (false, o) else elim (find_source from to.x) [
        | none ↦ (false, o)
        | some px ↦ elim (find_source from to.y) [
          | none ↦ (false, store_x px o)
          | some py ↦ elim (find_source from to.z) [
            | none ↦ (false, store_y py (store_x px o))
            | some pz ↦ (
              true,
              record (store_z pz (store_y py (store_x px o))) {
                scale = div_single (unit_to_metres from.distance) (unit_to_metres to.distance);
              },
            )
          ]
        ]
      ]

  pub record ConversionContext : Type 0 where
    pub remap : Triple Slot
    pub sign : Triple F
    pub scale : F
    pub basis : Matrix F
    pub basis_inv : Matrix F
    pub is_valid : Bool

  abbrev pub no_outputs : Outputs
  no_outputs = record {
    remap = identity_remap;
    sign = record { x = one; y = one; z = one };
    scale = one;
  }

  -- A row of the basis: the sign in the column of the source axis.
  abbrev pub basis_row : Slot → F → Quad F
  basis_row first s = record { x = s; y = null; z = null; w = null }
  basis_row second s = record { x = null; y = s; z = null; w = null }
  basis_row third s = record { x = null; y = null; z = s; w = null }

  abbrev pub transpose : Matrix F → Matrix F
  transpose m = record {
    x = record { x = m.x.x; y = m.y.x; z = m.z.x; w = m.w.x };
    y = record { x = m.x.y; y = m.y.y; z = m.z.y; w = m.w.y };
    z = record { x = m.x.z; y = m.y.z; z = m.z.z; w = m.w.z };
    w = record { x = m.x.w; y = m.y.w; z = m.z.w; w = m.w.w };
  }

  abbrev pub build_basis : Triple Slot → Triple F → Matrix F
  build_basis r s = record {
    x = basis_row r.x s.x;
    y = basis_row r.y s.y;
    z = basis_row r.z s.z;
    w = record { x = null; y = null; z = null; w = one };
  }

  -- `Initialize`.
  unfoldable pub initialize : ConversionContext → ConversionContext
  initialize c = record c {
    basis = build_basis c.remap c.sign;
    basis_inv = transpose (build_basis c.remap c.sign);
  }

  -- The constructor from two contexts. `Initialize` sets the matrices of the result.
  unfoldable pub convert : Context → Context → ConversionContext
  unfolding initialize
  convert from to =
      let (done, o) = compute_conversion to from no_outputs in
      let kept = if done then o else no_outputs in
      initialize (record {
        remap = kept.remap;
        sign = kept.sign;
        scale = kept.scale;
        basis = build_basis kept.remap kept.sign;
        basis_inv = build_basis kept.remap kept.sign;
        is_valid = done;
      })

  unfoldable pub is_identity : ConversionContext → Bool
  is_identity c =
      slot_index c.remap.x == 0
      && (slot_index c.remap.y == 1
          && (slot_index c.remap.z == 2
              && (equal c.sign.x one
                  && (equal c.sign.y one && (equal c.sign.z one && equal c.scale one)))))

  unfoldable pub convert_translation : ConversionContext → Triple F → Triple F
  convert_translation c t = record {
    x = mul (mul (pick t c.remap.x) c.sign.x) c.scale;
    y = mul (mul (pick t c.remap.y) c.sign.y) c.scale;
    z = mul (mul (pick t c.remap.z) c.sign.z) c.scale;
  }

  -- Whether the signed permutation changes handedness: `signProduct * permSign < 0`.
  unfoldable pub flips : Triple Slot → Triple F → Bool
  unfolding inversions
  flips r s =
      less (mul (mul (mul s.x s.y) s.z) (if (inversions r % 2) == 0 then one else neg one)) null

  unfoldable pub convert_rotation : ConversionContext → Quad F → Quad F
  convert_rotation c q =
      let v : Triple F = record { x = q.x; y = q.y; z = q.z } in
      record {
        x = mul (pick v c.remap.x) c.sign.x;
        y = mul (pick v c.remap.y) c.sign.y;
        z = mul (pick v c.remap.z) c.sign.z;
        w = if flips c.remap c.sign then neg q.w else q.w;
      }

  unfoldable pub convert_scale : ConversionContext → Triple F → Triple F
  convert_scale c s = record { x = pick s c.remap.x; y = pick s c.remap.y; z = pick s c.remap.z }

  -- The unit goes to the translation column, then the basis changes.
  unfoldable pub convert_matrix : ConversionContext → Matrix F → Matrix F
  convert_matrix c m =
      let scaled : Matrix F = record m {
        x = record (m.x) { w = mul m.x.w c.scale };
        y = record (m.y) { w = mul m.y.w c.scale };
        z = record (m.z) { w = mul m.z.w c.scale };
      } in
      product (product c.basis scaled) c.basis_inv
