-- ===== src/Context/Inverse.antt =====
-- Converting there and back, with `ConversionContext` of src/o3ds/context.cpp.
use open3dstream.Base.{◌≡◌, refl, sym, ap, ◌∙◌, Bool, true, false, arith, if◌then◌else◌}
use open3dstream.Numerics.{Triple, Numerics, IsExact}
use open3dstream.Context.Axes.{
  Direction, DistanceUnit, unknown, Context, axis_id, valid, same_direction,
}
use open3dstream.Context.Conversion.{
  Slot, first, second, third, pick, axes, ConversionContext, convert, unit_to_metres,
  convert_translation, convert_scale,
}
use open3dstream.Context.Totality.{Orthogonal, valid-Orthogonal, Converts, convert-Converts}

-- Two axes of a valid context that lie along each other are one.
pub slot_unique :
    {c : Context} (i j : Slot)
    → Orthogonal c
    → axis_id (pick (axes c) i) ≡ axis_id (pick (axes c) j)
    → i ≡ j
slot_unique first first v h = refl
slot_unique first second v h = absurd (v.x_ne_y h)
slot_unique first third v h = absurd (v.x_ne_z h)
slot_unique second first v h = absurd (v.x_ne_y (sym h))
slot_unique second second v h = refl
slot_unique second third v h = absurd (v.y_ne_z h)
slot_unique third first v h = absurd (v.x_ne_z (sym h))
slot_unique third second v h = absurd (v.y_ne_z (sym h))
slot_unique third third v h = refl

pub Triple_eq {ℓ} : {A : Type ℓ} (s t : Triple A) → ((i : Slot) → pick s i ≡ pick t i) → s ≡ t
Triple_eq s t h = λ k. record { x = h first k; y = h second k; z = h third k }

pub same_direction_comm : (d e : Direction) → same_direction d e ≡ same_direction e d
same_direction_comm d e = ground arith

module _ (N : Numerics) (exact : IsExact N) where
  open N use {F, null, one, neg, mul, div_single, less}

  -- A sign, from whether it is a plus.
  abbrev pub sign : Bool → F
  sign b = if b then one else neg one

  mul_sign : (v : F) (b : Bool) → mul (mul v (sign b)) (sign b) ≡ v
  mul_sign v true = simp exact.mul_one
  mul_sign v false = simp (exact.mul_minus_one, exact.neg_neg)

  pub unit_ratio : (u : DistanceUnit) → div_single (unit_to_metres N u) (unit_to_metres N u) ≡ one
  unfolding unit_to_metres
  unit_ratio unknown = exact.div_self _ _ _ (omega arith) (omega arith) (omega arith) (omega arith)
  unit_ratio _ = exact.div_self _ _ _ (omega arith) (omega arith) (omega arith) (omega arith)

  module _ {a b : Context} {there back : ConversionContext N} (v : Orthogonal a)
      (out : Converts N a b there) (home : Converts N b a back) where
    -- Each axis comes back to its place, with the same sign both ways.
    pub back_to_slot : (i : Slot) → pick there.remap (pick back.remap i) ≡ i
    back_to_slot i =
        slot_unique _ i v ((out.carries (pick back.remap i)).on_axis ∙ (home.carries i).on_axis)

    pub same_sign : (i : Slot) → pick there.sign (pick back.remap i) ≡ pick back.sign i
    same_sign i =
        (out.carries (pick back.remap i)).signed
        ∙ ap (λ (t : Bool). sign t)
            (ap (λ j. same_direction (pick (axes a) j) (pick (axes b) (pick back.remap i)))
              (back_to_slot i))
        ∙ ap (λ (t : Bool). sign t) (same_direction_comm (pick (axes a) i) _)
        ∙ sym (home.carries i).signed

    -- `sign` of a Boolean, for each axis.
    pub signs : (i : Slot) → (s : Bool) × (pick back.sign i ≡ sign s)
    signs i = (
      same_direction (pick (axes b) (pick back.remap i)) (pick (axes a) i),
      (home.carries i).signed,
    )

    pub pick_home :
        (i : Slot) (t : Triple F) → pick t (pick there.remap (pick back.remap i)) ≡ pick t i
    pick_home i t = ap (pick t) (back_to_slot i)

    pub cancel :
        (i : Slot) (e : F)
        → mul (mul e (pick there.sign (pick back.remap i))) (pick back.sign i) ≡ e
    cancel i e = let (s, p) = signs i in rw (same_sign i, p) (mul_sign e s)

    translation_home :
        there.scale ≡ one
        → back.scale ≡ one
        → (t : Triple F) → convert_translation N back (convert_translation N there t) ≡ t
    unfolding convert_translation
    translation_home p q t = Triple_eq _ t at_slot
      where
        moved : Triple F
        moved = convert_translation N there t

        pick_moved :
            (j : Slot)
            → pick moved j ≡ mul (mul (pick t (pick there.remap j)) (pick there.sign j)) there.scale
        pick_moved first = refl
        pick_moved second = refl
        pick_moved third = refl

        step :
            (i : Slot)
            → mul (mul (pick moved (pick back.remap i)) (pick back.sign i)) back.scale ≡ pick t i
        step i =
            rw (q, exact.mul_one, pick_moved (pick back.remap i), p, exact.mul_one, pick_home i t)
              (cancel i (pick t i))

        at_slot : (i : Slot) → pick (convert_translation N back moved) i ≡ pick t i
        at_slot first = step first
        at_slot second = step second
        at_slot third = step third

    scale_home : (s : Triple F) → convert_scale N back (convert_scale N there s) ≡ s
    unfolding convert_scale
    scale_home s = Triple_eq _ s at_slot
      where
        pick_moved : (j : Slot) → pick (convert_scale N there s) j ≡ pick s (pick there.remap j)
        pick_moved first = refl
        pick_moved second = refl
        pick_moved third = refl

        at_slot : (i : Slot) → pick (convert_scale N back (convert_scale N there s)) i ≡ pick s i
        at_slot first = pick_moved _ ∙ pick_home first s
        at_slot second = pick_moved _ ∙ pick_home second s
        at_slot third = pick_moved _ ∙ pick_home third s

  -- Given the facts of IEEE arithmetic in `IsExact` (products with 1 and -1, double negation, how 1, -1
  -- and 0 compare, and that the literal of a unit divided by itself is 1): between valid contexts with
  -- the same unit, a translation that is converted there and back is as it was; so is a scale,
  -- whatever the units.
  pub convert_roundtrip :
      (a b : Context)
      → valid a ≡ true
      → valid b ≡ true
      → (a.distance ≡ b.distance
          → (t : Triple F)
          → convert_translation N (convert N b a) (convert_translation N (convert N a b) t) ≡ t)
        × ((s : Triple F) → convert_scale N (convert N b a) (convert_scale N (convert N a b) s) ≡ s)
  convert_roundtrip a b p q =
      let v = valid-Orthogonal a p in
      let out = convert-Converts N a b p q in
      let home = convert-Converts N b a q p in
      (
        (λ u.
            translation_home v out home (out.scaled ∙ rw u (unit_ratio b.distance))
              (home.scaled ∙ rw u (unit_ratio b.distance))),
        scale_home v out home,
      )
