-- ===== src/Context/Totality.antt =====
-- When `Context::computeConversion` of src/o3ds/context.cpp succeeds, and what it finds.
use open3dstream.Base.{
  ℕ, ◌≤◌, ◌<◌, ◌≡◌, ◌≢◌, refl, Bool, true, false, ◌&&◌, ◌||◌, some, ◌==◌, arith, Bool-cases, inl,
  inr, if◌then◌else◌,
}
use open3dstream.Numerics.{Numerics}
use open3dstream.Context.Axes.{Direction, unknown, Context, axis_id, valid, same_direction}
use open3dstream.Context.Conversion.{
  Slot, first, second, third, pick, axes, find_source, compute_conversion, Outputs,
  ConversionContext, convert, no_outputs, unit_to_metres,
}

axis_id-le : (d : Direction) → axis_id d ≤ 3
unfolding axis_id
axis_id-le unknown = omega arith
axis_id-le _ = omega arith

-- The axes of a valid context: each is one of the three, and no two are the same.
pub record Orthogonal (c : Context) : Type 0 where
  pub x_pos : 0 < axis_id c.x
  pub y_pos : 0 < axis_id c.y
  pub z_pos : 0 < axis_id c.z
  pub x_ne_y : axis_id c.x ≢ axis_id c.y
  pub x_ne_z : axis_id c.x ≢ axis_id c.z
  pub y_ne_z : axis_id c.y ≢ axis_id c.z

distinct_axes :
    (u : Bool) (a b d : ℕ)
    → (if u
        then false
        else if a == 0 || (b == 0 || d == 0)
        then false
        else if a == b || (a == d || b == d)
        then false
        else true)
      ≡ true
    → (0 < a) × (0 < b) × (0 < d) × (a ≢ b) × (a ≢ d) × (b ≢ d)
distinct_axes u a b d h = ground arith

pub valid-Orthogonal : (c : Context) → valid c ≡ true → Orthogonal c
unfolding valid
valid-Orthogonal c h =
    let p = distinct_axes _ (axis_id c.x) (axis_id c.y) (axis_id c.z) h in
    record { x_pos = p.0; y_pos = p.1; z_pos = p.2; x_ne_y = p.3; x_ne_z = p.4; y_ne_z = p.5 }

module _ (N : Numerics) where
  open N use {F, one, neg, div_single}

  -- The sign of an axis relative to a direction on it.
  abbrev pub sign_of : Direction → Direction → F
  sign_of s d = if same_direction s d then one else neg one

  -- The axis of the source that a direction lies on, with its sign.
  pub record Carries (from : Context) (d : Direction) (i : Slot) (s : F) : Type 0 where
    pub on_axis : axis_id (pick (axes from) i) ≡ axis_id d
    pub signed : s ≡ sign_of (pick (axes from) i) d

  find_source_lem :
      (from : Context) (d : Direction)
      → Orthogonal from
      → 0 < axis_id d
      → (i : Slot) × (s : F) × (find_source N from d ≡ some (i, s)) × Carries from d i s
  unfolding find_source
  find_source_lem from d v h = elim (Bool-cases (axis_id from.x == axis_id d)) [
    | inl a ↦ (first, sign_of from.x d, rw a, record { on_axis = ground arith; signed = refl })
    | inr a ↦ elim (Bool-cases (axis_id from.y == axis_id d)) [
      | inl b ↦
          (second, sign_of from.y d, rw (a, b), record { on_axis = ground arith; signed = refl })
      | inr b ↦ elim (Bool-cases (axis_id from.z == axis_id d)) [
        | inl c ↦ (
          third,
          sign_of from.z d,
          rw (a, b, c),
          record { on_axis = ground arith; signed = refl },
        )
        | inr c ↦ absurd (
            ground
              (arith, v, axis_id-le from.x, axis_id-le from.y, axis_id-le from.z, axis_id-le d))
      ]
    ]
  ]

  -- What a conversion between valid contexts consists of.
  pub record Converts (from to : Context) (c : ConversionContext N) : Type 0 where
    pub found : c.is_valid ≡ true
    pub carries : (j : Slot) → Carries from (pick (axes to) j) (pick c.remap j) (pick c.sign j)
    pub scaled :
        c.scale ≡ div_single (unit_to_metres N from.distance) (unit_to_metres N to.distance)

  compute_conversion_lem :
      (from to : Context) (o : Outputs N) (i j k : Slot) (a b c : F)
      → valid from ≡ true
      → valid to ≡ true
      → find_source N from to.x ≡ some (i, a)
      → find_source N from to.y ≡ some (j, b)
      → find_source N from to.z ≡ some (k, c)
      → compute_conversion N to from o ≡ (
        true,
        record {
          remap = record { x = i; y = j; z = k };
          sign = record { x = a; y = b; z = c };
          scale = div_single (unit_to_metres N from.distance) (unit_to_metres N to.distance);
        },
      )
  unfolding compute_conversion
  compute_conversion_lem from to o i j k a b c f t x y z =
      rw (f, t)
        (rw (x, compute_conversion) (rw (y, compute_conversion) (rw (z, compute_conversion))))

  -- Between valid contexts the conversion exists, and each axis of the destination is taken from
  -- the axis of the source that lies along it, with a minus if that points the other way.
  pub convert-Converts :
      (from to : Context)
      → valid from ≡ true
      → valid to ≡ true
      → Converts from to (convert N from to)
  unfolding convert
  convert-Converts from to f t =
      let v = valid-Orthogonal from f in
      let w = valid-Orthogonal to t in
      let (i, a, x, cx) = find_source_lem from to.x v w.x_pos in
      let (j, b, y, cy) = find_source_lem from to.y v w.y_pos in
      let (k, c, z, cz) = find_source_lem from to.z v w.z_pos in
      rw (compute_conversion_lem from to (no_outputs N) i j k a b c f t x y z) (record {
        found = refl;
        carries = elim [ first ↦ cx | second ↦ cy | third ↦ cz ];
        scaled = refl;
      })

  refused :
      (from to : Context)
      → (valid to && valid from) ≡ false
      → compute_conversion N to from (no_outputs N) ≡ (false, no_outputs N)
  unfolding compute_conversion
  refused from to h = ground arith

  -- A conversion is marked valid exactly if both contexts are: the search for an axis never fails.
  pub convert-is_valid : (from to : Context) → (convert N from to).is_valid ≡ valid to && valid from
  unfolding convert
  convert-is_valid from to = elim (Bool-cases (valid to && valid from)) [
    | inl h ↦ rw h (convert-Converts from to (ground arith) (ground arith)).found
    | inr h ↦ rw h (rw (refused from to h))
  ]
