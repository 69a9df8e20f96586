-- ===== src/Base/Cuts.antt =====
-- Lists and blocks that are cut in two.
use Prim.Native.Nat.{ℕ, zero, suc, ◌+◌, ◌-◌, ◌≤◌}
use mathlib.Core.Path.{◌≡◌, refl, sym, ap, ◌∙◌}
use mathlib.Core.List.{List, [], ◌∷◌, ◌++◌, map, append-nil}
use mathlib.Core.Option.{Option, some}
use native.Mathlib.Omega.{arith}
use open3dstream.Base.Lists.{length, take, drop}
use open3dstream.Base.Buffers.{write_at}

module _ {ℓ} {A : Type ℓ} where
  -- A write at the end of what was written.
  pub take-write_at :
      (n count : ℕ) (bs : List A) (block : List (Option A))
      → n ≡ count + length bs
      → n ≤ length block
      → take n (write_at count bs block) ≡ take count block ++ map some bs
  take-write_at n count [] block e h =
      ap (λ k. take k block) (omega (arith, e)) ∙ sym (append-nil (take count block))
  take-write_at n count (b ∷ bs) [] e h = absurd (omega (arith, e, h))
  take-write_at zero count (b ∷ bs) (c ∷ block) e h = absurd (omega (arith, e))
  take-write_at (suc n) zero (b ∷ bs) (c ∷ block) e h =
      ap (λ xs. some b ∷ xs) (take-write_at n zero bs block (omega (arith, e)) (omega (arith, h)))
  take-write_at (suc n) (suc o) (b ∷ bs) (c ∷ block) e h =
      ap (λ xs. c ∷ xs) (take-write_at n o (b ∷ bs) block (omega (arith, e)) (omega (arith, h)))

  pub map-append : (xs ys : List A) → map some (xs ++ ys) ≡ map some xs ++ map some ys
  map-append [] ys = refl
  map-append (x ∷ xs) ys = ap (λ zs. some x ∷ zs) (map-append xs ys)

  pub take-past :
      (n : ℕ) (xs ys : List A) → length xs ≤ n → take n (xs ++ ys) ≡ xs ++ take (n - length xs) ys
  take-past n [] ys h = ap (λ k. take k ys) (omega arith)
  take-past zero (x ∷ xs) ys h = absurd (omega (arith, h))
  take-past (suc n) (x ∷ xs) ys h =
      ap (λ zs. x ∷ zs)
        (take-past n xs ys (omega (arith, h)) ∙ ap (λ k. xs ++ take k ys) (omega arith))

  pub drop-past :
      (n : ℕ) (xs ys : List A) → length xs ≤ n → drop n (xs ++ ys) ≡ drop (n - length xs) ys
  drop-past n [] ys h = ap (λ k. drop k ys) (omega arith)
  drop-past zero (x ∷ xs) ys h = absurd (omega (arith, h))
  drop-past (suc n) (x ∷ xs) ys h =
      drop-past n xs ys (omega (arith, h)) ∙ ap (λ k. drop k ys) (omega arith)

  pub take-within : (n : ℕ) (xs ys : List A) → n ≤ length xs → take n (xs ++ ys) ≡ take n xs
  take-within zero xs ys h = refl
  take-within (suc n) [] ys h = absurd (omega (arith, h))
  take-within (suc n) (x ∷ xs) ys h = ap (λ zs. x ∷ zs) (take-within n xs ys (omega (arith, h)))

  pub drop-within : (n : ℕ) (xs ys : List A) → n ≤ length xs → drop n xs ++ ys ≡ drop n (xs ++ ys)
  drop-within zero xs ys h = refl
  drop-within (suc n) [] ys h = absurd (omega (arith, h))
  drop-within (suc n) (x ∷ xs) ys h = drop-within n xs ys (omega (arith, h))
