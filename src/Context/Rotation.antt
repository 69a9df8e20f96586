-- ===== src/Context/Rotation.antt =====
-- Rotations under `ConversionContext` of src/o3ds/context.cpp: the sign of `w`, and the way back.
use open3dstream.Base.{
  ◌%◌, ◌≡◌, refl, sym, ap, ◌∙◌, Bool, true, false, not, ◌==◌, arith, if◌then◌else◌,
}
use open3dstream.Numerics.{Triple, Quad, Numerics, IsExact}
use open3dstream.Context.Axes.{Context, valid, same_direction}
use open3dstream.Context.Conversion.{
  Slot, first, second, third, pick, axes, ConversionContext, convert, inversions, convert_rotation,
  flips,
}
use open3dstream.Context.Totality.{Orthogonal, valid-Orthogonal, Converts, convert-Converts}
use open3dstream.Context.Inverse.{
  Triple_eq, back_to_slot, cancel, same_direction_comm, pick_home, sign,
}

-- Whether two Booleans are the same.
abbrev alike : Bool → Bool → Bool
alike true b = b
alike false b = not b

-- An even number of inversions.
abbrev is_even : Triple Slot → Bool
is_even r = (inversions r % 2) == 0

parity_core :
    (i j k : Slot) (r : Triple Slot) (s : Triple Bool)
    → pick r i ≡ first
    → pick r j ≡ second
    → pick r k ≡ third
    → alike (alike (alike s.x s.y) s.z) (is_even r)
      ≡ alike
          (alike (alike (pick s i) (pick s j)) (pick s k))
          (is_even (record { x = i; y = j; z = k }))
unfolding inversions
parity_core first first k r s a b c = absurd (ground arith)
parity_core first second first r s a b c = absurd (ground arith)
parity_core first second second r s a b c = absurd (ground arith)
parity_core first second third r s a b c = ground arith
parity_core first third first r s a b c = absurd (ground arith)
parity_core first third second r s a b c = ground arith
parity_core first third third r s a b c = absurd (ground arith)
parity_core second first first r s a b c = absurd (ground arith)
parity_core second first second r s a b c = absurd (ground arith)
parity_core second first third r s a b c = ground arith
parity_core second second k r s a b c = absurd (ground arith)
parity_core second third first r s a b c = ground arith
parity_core second third second r s a b c = absurd (ground arith)
parity_core second third third r s a b c = absurd (ground arith)
parity_core third first first r s a b c = absurd (ground arith)
parity_core third first second r s a b c = ground arith
parity_core third first third r s a b c = absurd (ground arith)
parity_core third second first r s a b c = ground arith
parity_core third second second r s a b c = absurd (ground arith)
parity_core third second third r s a b c = absurd (ground arith)
parity_core third third k r s a b c = absurd (ground arith)

-- The parity of a permutation and of its inverse, with signs that follow the slots.
parity_inverse :
    (r q : Triple Slot) (s t : Triple Bool)
    → ((i : Slot) → pick r (pick q i) ≡ i)
    → ((i : Slot) → pick s (pick q i) ≡ pick t i)
    → alike (alike (alike s.x s.y) s.z) (is_even r) ≡ alike (alike (alike t.x t.y) t.z) (is_even q)
parity_inverse r q s t inv follow =
    parity_core q.x q.y q.z r s (inv first) (inv second) (inv third)
    ∙ ap (λ (u : Triple Bool). alike (alike (alike u.x u.y) u.z) (is_even q))
        (Triple_eq (record { x = pick s q.x; y = pick s q.y; z = pick s q.z }) t
          (elim [ first ↦ follow first | second ↦ follow second | third ↦ follow third ]))

-- Whether each axis points the same way in both contexts.
abbrev agrees : Context → Context → Triple Slot → Triple Bool
agrees from to r = record {
  x = same_direction (pick (axes from) r.x) to.x;
  y = same_direction (pick (axes from) r.y) to.y;
  z = same_direction (pick (axes from) r.z) to.z;
}

pick-agrees :
    (from to : Context) (r : Triple Slot) (i : Slot)
    → pick (agrees from to r) i ≡ same_direction (pick (axes from) (pick r i)) (pick (axes to) i)
pick-agrees from to r first = refl
pick-agrees from to r second = refl
pick-agrees from to r third = refl

module _ (N : Numerics) (exact : IsExact N) where
  open N use {F, null, one, neg, mul, less}

  mul_signs : (b c : Bool) → mul (sign N exact b) (sign N exact c) ≡ sign N exact (alike b c)
  mul_signs true true = exact.mul_one one
  mul_signs true false = exact.mul_minus_one one
  mul_signs false true = exact.mul_one (neg one)
  mul_signs false false = exact.mul_minus_one (neg one) ∙ exact.neg_neg one

  less_sign : (b : Bool) → less (sign N exact b) null ≡ not b
  less_sign true = exact.one_not_less
  less_sign false = exact.minus_one_less

  -- The handedness test counts the signs and the inversions.
  flips-signs :
      (r : Triple Slot) (s : Triple Bool)
      → flips N r (record { x = sign N exact s.x; y = sign N exact s.y; z = sign N exact s.z })
        ≡ not (alike (alike (alike s.x s.y) s.z) (is_even r))
  unfolding flips
  flips-signs r s =
      ap (λ (u : F). less (mul (mul u (sign N exact s.z)) (sign N exact (is_even r))) null)
        (mul_signs s.x s.y)
      ∙ ap (λ (u : F). less (mul u (sign N exact (is_even r))) null) (mul_signs (alike s.x s.y) s.z)
      ∙ ap (λ (u : F). less u null) (mul_signs (alike (alike s.x s.y) s.z) (is_even r))
      ∙ less_sign _

  signs-agrees :
      {from to : Context} {c : ConversionContext N}
      → Converts N from to c
      → let s = agrees from to c.remap in
        c.sign ≡ record { x = sign N exact s.x; y = sign N exact s.y; z = sign N exact s.z }
  signs-agrees v = Triple_eq _ _ (elim [
    | first ↦ (v.carries first).signed
    | second ↦ (v.carries second).signed
    | third ↦ (v.carries third).signed
  ])

  module _ {a b : Context} {there back : ConversionContext N} (v : Orthogonal a)
      (out : Converts N a b there) (home : Converts N b a back) where
    follow :
        (i : Slot)
        → pick (agrees a b there.remap) (pick back.remap i) ≡ pick (agrees b a back.remap) i
    follow i =
        pick-agrees a b there.remap (pick back.remap i)
        ∙ ap (λ j. same_direction (pick (axes a) j) (pick (axes b) (pick back.remap i)))
            (back_to_slot N exact v out home i)
        ∙ same_direction_comm (pick (axes a) i) _
        ∙ sym (pick-agrees b a back.remap i)

    flips_both : flips N there.remap there.sign ≡ flips N back.remap back.sign
    flips_both =
        ap (flips N there.remap) (signs-agrees out)
        ∙ flips-signs there.remap _
        ∙ ap not (
            parity_inverse there.remap back.remap (agrees a b there.remap) (agrees b a back.remap)
              (back_to_slot N exact v out home) follow)
        ∙ sym (flips-signs back.remap _)
        ∙ ap (flips N back.remap) (sym (signs-agrees home))

    rotation_home : (q : Quad F) → convert_rotation N back (convert_rotation N there q) ≡ q
    unfolding convert_rotation
    rotation_home q = λ k. record { x = at first k; y = at second k; z = at third k; w = w_home k }
      where
        vec : Triple F
        vec = record { x = q.x; y = q.y; z = q.z }

        moved : Triple F
        moved = let p = convert_rotation N there q in record { x = p.x; y = p.y; z = p.z }

        pick_moved :
            (j : Slot) → pick moved j ≡ mul (pick vec (pick there.remap j)) (pick there.sign j)
        pick_moved first = refl
        pick_moved second = refl
        pick_moved third = refl

        at : (i : Slot) → mul (pick moved (pick back.remap i)) (pick back.sign i) ≡ pick vec i
        at i =
            rw (pick_moved (pick back.remap i), pick_home N exact v out home i vec)
              (cancel N exact v out home i (pick vec i))

        w_home :
            (if flips N back.remap back.sign
              then neg (if flips N there.remap there.sign then neg q.w else q.w)
              else (if flips N there.remap there.sign then neg q.w else q.w))
            ≡ q.w
        w_home = rw flips_both (ground (arith, exact.neg_neg q.w))

  -- Given the facts of IEEE arithmetic in `IsExact` (products with 1 and -1, double negation, how 1, -1
  -- and 0 compare, and that the literal of a unit divided by itself is 1): between valid contexts a
  -- rotation that is converted there and back is as it was: the axes return to their places, and `w`
  -- changes its sign on both ways or on neither.
  pub rotation_roundtrip :
      (a b : Context) (q : Quad F)
      → valid a ≡ true
      → valid b ≡ true
      → convert_rotation N (convert N b a) (convert_rotation N (convert N a b) q) ≡ q
  rotation_roundtrip a b q p r =
      rotation_home (valid-Orthogonal a p) (convert-Converts N a b p r) (convert-Converts N b a r p)
        q
