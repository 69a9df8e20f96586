-- ===== src/Base/Buffers.antt =====
-- Blocks of memory: a cell is `none` until a byte is written to it.
use Prim.Native.Nat.{ℕ, zero, suc, ◌+◌, ◌≤◌, ◌<◌}
use Prim.Native.Nat.add
use mathlib.Core.Path.{◌≡◌, refl, ap, ◌∙◌}
use mathlib.Core.List.{List, [], ◌∷◌, map}
use mathlib.Core.Option
use mathlib.Core.Option.{Option, none, some}
use native.Mathlib.Omega.{arith}
use open3dstream.Base.Lists.{length, get_elem?, take, drop, length-take, length-drop, replicate}

module _ {ℓ} {A : Type ℓ} where
  -- `memcpy` to the offset `o` of a block that has room for the bytes.
  abbrev pub write_at : ℕ → List A → List (Option A) → List (Option A)
  write_at o [] buf = buf
  write_at o (b ∷ bs) [] = []
  write_at zero (b ∷ bs) (c ∷ buf) = some b ∷ write_at zero bs buf
  write_at (suc o) (b ∷ bs) (c ∷ buf) = c ∷ write_at o (b ∷ bs) buf

  pub length-write_at :
      (o : ℕ) (bs : List A) (buf : List (Option A)) → length (write_at o bs buf) ≡ length buf
  length-write_at o [] buf = refl
  length-write_at o (b ∷ bs) [] = refl
  length-write_at zero (b ∷ bs) (c ∷ buf) = ap suc (length-write_at zero bs buf)
  length-write_at (suc o) (b ∷ bs) (c ∷ buf) = ap suc (length-write_at o (b ∷ bs) buf)

  -- A cell below the offset, or past the bytes, keeps its value.
  pub get_elem?-write_at_below :
      (o p : ℕ) (bs : List A) (buf : List (Option A))
      → p < o
      → get_elem? (write_at o bs buf) p ≡ get_elem? buf p
  get_elem?-write_at_below o p [] buf h = refl
  get_elem?-write_at_below o p (b ∷ bs) [] h = refl
  get_elem?-write_at_below zero p (b ∷ bs) (c ∷ buf) h = elim h [ ]
  get_elem?-write_at_below (suc o) zero (b ∷ bs) (c ∷ buf) h = refl
  get_elem?-write_at_below (suc o) (suc p) (b ∷ bs) (c ∷ buf) h =
      get_elem?-write_at_below o p (b ∷ bs) buf (omega arith)

  pub get_elem?-write_at_above :
      (o p : ℕ) (bs : List A) (buf : List (Option A))
      → o + length bs ≤ p
      → get_elem? (write_at o bs buf) p ≡ get_elem? buf p
  get_elem?-write_at_above o p [] buf h = refl
  get_elem?-write_at_above o p (b ∷ bs) [] h = refl
  get_elem?-write_at_above zero zero (b ∷ bs) (c ∷ buf) h = absurd (omega arith)
  get_elem?-write_at_above zero (suc p) (b ∷ bs) (c ∷ buf) h =
      get_elem?-write_at_above zero p bs buf (omega arith)
  get_elem?-write_at_above (suc o) zero (b ∷ bs) (c ∷ buf) h = absurd (omega arith)
  get_elem?-write_at_above (suc o) (suc p) (b ∷ bs) (c ∷ buf) h =
      get_elem?-write_at_above o p (b ∷ bs) buf (omega arith)

  -- A cell that the write reaches holds the byte that was written.
  pub get_elem?-write_at_inside :
      (o j : ℕ) (bs : List A) (buf : List (Option A))
      → j < length bs
      → o + length bs ≤ length buf
      → get_elem? (write_at o bs buf) (o + j) ≡ some (get_elem? bs j)
  get_elem?-write_at_inside o j [] buf h k = elim h [ ]
  get_elem?-write_at_inside o j (b ∷ bs) [] h k = absurd (omega arith)
  get_elem?-write_at_inside zero zero (b ∷ bs) (c ∷ buf) h k = refl
  get_elem?-write_at_inside zero (suc j) (b ∷ bs) (c ∷ buf) h k =
      rw (add.zero (suc j))
        (rw (add.zero j) at (get_elem?-write_at_inside zero j bs buf (omega arith) (omega arith)))
  get_elem?-write_at_inside (suc o) j (b ∷ bs) (c ∷ buf) h k =
      rw (add.suc o j) (get_elem?-write_at_inside o j (b ∷ bs) buf h (omega arith))

  -- `n` elements from the offset `o` on.
  abbrev pub slice : ℕ → ℕ → List A → List A
  slice o n xs = take n (drop o xs)

  pub length-slice : (o n : ℕ) (xs : List A) → o + n ≤ length xs → length (slice o n xs) ≡ n
  length-slice o n xs h = omega (arith, length-take n (drop o xs), length-drop o xs)

  get_elem?-take : (n j : ℕ) (xs : List A) → j < n → get_elem? (take n xs) j ≡ get_elem? xs j
  get_elem?-take zero j xs h = elim h [ ]
  get_elem?-take (suc n) j [] h = refl
  get_elem?-take (suc n) zero (x ∷ xs) h = refl
  get_elem?-take (suc n) (suc j) (x ∷ xs) h = get_elem?-take n j xs (omega arith)

  get_elem?-drop : (o j : ℕ) (xs : List A) → get_elem? (drop o xs) j ≡ get_elem? xs (o + j)
  get_elem?-drop zero j xs = rw (add.zero j)
  get_elem?-drop (suc o) j [] = refl
  get_elem?-drop (suc o) j (x ∷ xs) = rw (add.suc o j) (get_elem?-drop o j xs)

  pub get_elem?-slice :
      (o n j : ℕ) (xs : List A) → j < n → get_elem? (slice o n xs) j ≡ get_elem? xs (o + j)
  get_elem?-slice o n j xs h = get_elem?-take n j (drop o xs) h ∙ get_elem?-drop o j xs

  -- Inside a list there is an element.
  pub get_elem?-IsSome : (xs : List A) (i : ℕ) → i < length xs → (a : A) × (get_elem? xs i ≡ some a)
  get_elem?-IsSome [] i h = elim h [ ]
  get_elem?-IsSome (x ∷ xs) zero h = (x, refl)
  get_elem?-IsSome (x ∷ xs) (suc i) h = get_elem?-IsSome xs i (omega arith)

  -- The bytes of a block, each of which must have been written.
  abbrev pub read_all : List (Option A) → Option (List A)
  read_all [] = some []
  read_all (c ∷ cs) = elim c [ none ↦ none | some b ↦ Option.map (λ bs. b ∷ bs) (read_all cs) ]

  -- A block that agrees with a list at every place reads as that list.
  pub read_all-eq :
      (buf : List (Option A)) (xs : List A)
      → length buf ≡ length xs
      → ((p : ℕ) → p < length xs → get_elem? buf p ≡ some (get_elem? xs p))
      → read_all buf ≡ some xs
  read_all-eq [] [] e h = refl
  read_all-eq [] (x ∷ xs) e h = absurd (omega arith)
  read_all-eq (c ∷ buf) [] e h = absurd (omega arith)
  read_all-eq (none ∷ buf) (x ∷ xs) e h = cc (h 0 (omega arith))
  read_all-eq (some b ∷ buf) (x ∷ xs) e h =
      ground (arith, h 0, read_all-eq buf xs (omega arith) (λ p k. h (suc p) (omega arith)))

-- The block that `malloc` returns.
abbrev pub malloc {ℓ} : {A : Type ℓ} → ℕ → List (Option A)
malloc n = replicate n none

module _ {ℓ} {A : Type ℓ} where
  -- A block that reads as a list consists of its written cells.
  pub eq-map_of_read_all :
      (buf : List (Option A)) (xs : List A) → read_all buf ≡ some xs → buf ≡ map some xs
  eq-map_of_read_all [] [] e = refl
  eq-map_of_read_all [] (x ∷ xs) e = cc
  eq-map_of_read_all (none ∷ buf) xs e = cc
  eq-map_of_read_all (some b ∷ buf) [] e = ground arith
  eq-map_of_read_all (some b ∷ buf) (x ∷ xs) e = ground (arith, eq-map_of_read_all buf xs)

  pub take_all : (n : ℕ) (xs : List A) → n ≡ length xs → take n xs ≡ xs
  take_all zero [] e = refl
  take_all zero (x ∷ xs) e = absurd (omega arith)
  take_all (suc n) [] e = refl
  take_all (suc n) (x ∷ xs) e = ap (λ (ys : List A). x ∷ ys) (take_all n xs (omega arith))
