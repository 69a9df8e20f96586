-- ===== src/Model/Hierarchy/Counting.antt =====
-- How many elements of a list have not passed a test yet: the measure of the loop of
-- `Subject::calcMatrices` (src/o3ds/model.cpp).
use open3dstream.Base.{
  ℕ, zero, suc, ◌+◌, List, [], ◌∷◌, Bool, true, false, some, get_elem?, set, if◌then◌else◌, ◌≡◌,
  arith, some_eq,
}

-- How many elements do not pass the test.
abbrev pub unset {ℓ} : {A : Type ℓ} → (A → Bool) → List A → ℕ
unset f [] = 0
unset f (x ∷ xs) = (if f x then 0 else 1) + unset f xs

pub unset-set {ℓ} :
    {A : Type ℓ} (f : A → Bool) (xs : List A) (i : ℕ) (x y : A)
    → get_elem? xs i ≡ some x
    → f x ≡ false
    → f y ≡ true
    → suc (unset f (set xs i y)) ≡ unset f xs
unset-set f [] i x y e p q = absurd cc
unset-set f (a ∷ xs) zero x y e p q = ground (arith, some_eq e)
unset-set f (a ∷ xs) (suc i) x y e p q = omega (arith, unset-set f xs i x y e p q)
