-- ===== src/Context/Same.antt =====
-- A stream whose context is the receiver's own: `ConversionContext` of src/o3ds/context.cpp.
use open3dstream.Base.{◌≡◌, ◌∙◌, ap, true, arith}
use open3dstream.Numerics.{Numerics, IsExact}
use open3dstream.Context.Axes.{Context, valid, same_direction}
use open3dstream.Context.Conversion.{Slot, first, second, third, pick, axes, convert, is_identity}
use open3dstream.Context.Totality.{Orthogonal, valid-Orthogonal, Converts, convert-Converts}
use open3dstream.Context.Inverse.{slot_unique, unit_ratio, sign}

module _ (N : Numerics) (exact : IsExact N) where
  open N use {F, one, equal}

  same_slot :
      {c : Context} {k : _} (v : Orthogonal c) → Converts N c c k → (i : Slot) → pick k.remap i ≡ i
  same_slot {k = k} v w i = slot_unique (pick k.remap i) i v (w.carries i).on_axis

  same_axis_sign :
      {c : Context} {k : _} (v : Orthogonal c) → Converts N c c k → (i : Slot) → pick k.sign i ≡ one
  same_axis_sign {c} {k = k} v w i =
      (w.carries i).signed
      ∙ ap (λ j. sign N exact (same_direction (pick (axes c) j) (pick (axes c) i)))
          (same_slot v w i)
      ∙ (ground arith)

  -- Given the facts of IEEE arithmetic in `IsExact` (products with 1 and -1, double negation, how 1, -1
  -- and 0 compare, and that the literal of a unit divided by itself is 1): the conversion from a valid
  -- context to itself is marked as the identity.
  pub convert_self-is_identity :
      (c : Context) → valid c ≡ true → is_identity N (convert N c c) ≡ true
  unfolding is_identity
  convert_self-is_identity c h =
      let v = valid-Orthogonal c h in
      let w = convert-Converts N c c h h in
      rw (
        same_slot v w first,
        same_slot v w second,
        same_slot v w third,
        same_axis_sign v w first,
        same_axis_sign v w second,
        same_axis_sign v w third,
        w.scaled,
        unit_ratio N exact c.distance,
        exact.equal_self,
      )
