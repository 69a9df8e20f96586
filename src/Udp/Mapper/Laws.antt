-- ===== src/Udp/Mapper/Laws.antt =====
-- The entries of `UdpMapper::items` after each operation (src/o3ds/udp_fragment.cpp).
use mathlib.Core.Path.{subst}
use open3dstream.Base.{
  ℕ, suc, ◌≤◌, ◌<◌, ◌≡◌, ◌≢◌, refl, List, [], ◌∷◌, ◌++◌, arith, Option, some, none, Bool, true,
  false, take, leb, ◌==◌, ltb, Bool-cases, Option-cases, some_eq, inl, inr, ◌⊎◌, if◌then◌else◌,
}
use open3dstream.Udp.Combiner.{Combiner, is_complete}
use open3dstream.Udp.Wire.{Result, ok, fault, use_after_free}
use open3dstream.Udp.Mapper.{Items, find, insert, first_complete, erase_upto, get_frame}

pub find-insert :
    (k j : ℕ) (c : Combiner) (m : Items)
    → find j (insert k c m) ≡ (if k == j then some c else find j m)
unfolding find insert
find-insert k j c [] = refl
find-insert k j c ((i, d) ∷ m) = ground (arith, find-insert k j c m)

-- The keys rise, from a bound on.
abbrev pub From : ℕ → Items → Type 0
From n [] = Unit {0}
From n ((k, c) ∷ m) = (n ≤ k) × From (suc k) m

abbrev pub IsSorted : Items → Type 0
IsSorted = From 0

pub insert-From : (n k : ℕ) (c : Combiner) (m : Items) → n ≤ k → From n m → From n (insert k c m)
unfolding insert
insert-From n k c [] h f = (h, tt)
insert-From n k c ((j, d) ∷ m) h f = ground (arith, insert-From (suc j) k c m)

find_below : (k n : ℕ) (m : Items) → From n m → k < n → find k m ≡ none
unfolding find
find_below k n [] f h = refl
find_below k n ((j, c) ∷ m) f h = ground (arith, find_below k (suc j) m f.1)

-- What `getFrame` chooses: a complete entry, none before it being complete.
pub record Chosen (items : Items) (k : ℕ) (c : Combiner) : Type 0 where
  pub present : find k items ≡ some c
  pub complete : is_complete c ≡ true
  pub least : (j : ℕ) (d : Combiner) → j < k → find j items ≡ some d → is_complete d ≡ false

Chosen-head :
    (k : ℕ) (c : Combiner) (m : Items)
    → is_complete c ≡ true
    → From (suc k) m
    → Chosen ((k, c) ∷ m) k c
unfolding find
Chosen-head k c m y f = record {
  present = ground arith;
  complete = y;
  least = λ j d h e. absurd (ground (arith, find_below j (suc k) m f));
}

Chosen-tail :
    (i k : ℕ) (d c : Combiner) (m : Items)
    → is_complete d ≡ false
    → i < k
    → Chosen m k c
    → Chosen ((i, d) ∷ m) k c
unfolding find
Chosen-tail i k d c m z h v = record {
  present = ground (arith, v.present);
  complete = v.complete;
  least = λ j b l e. ground (arith, v.least j b l);
}

first_complete-some :
    (n : ℕ) (m : Items) (k : ℕ) (c : Combiner)
    → From n m
    → first_complete m ≡ some (k, c)
    → Chosen m k c × (n ≤ k)
unfolding first_complete
first_complete-some n [] k c f e = cc
first_complete-some n ((i, d) ∷ m) k c f e = elim (Bool-cases (is_complete d)) [
  | inl y ↦
      subst (λ p. Chosen ((i, d) ∷ m) p.0 p.1 × (n ≤ p.0)) (some_eq (rw (y, first_complete) at e))
        (Chosen-head i d m y f.1, f.0)
  | inr z ↦
      let (v, l) = first_complete-some (suc i) m k c f.1 (ground arith) in
      (Chosen-tail i k d c m z l v, omega (arith, l, f.0))
]

first_complete-none :
    (m : Items) (k : ℕ) (c : Combiner)
    → first_complete m ≡ none
    → find k m ≡ some c
    → is_complete c ≡ false
unfolding first_complete find
first_complete-none [] k c e h = cc
first_complete-none ((i, d) ∷ m) k c e h = ground (arith, first_complete-none m k c)

-- No entry after a key, or one.
abbrev pub NoLater : ℕ → Items → Type 0
NoLater k m = (j : ℕ) → k < j → find j m ≡ none

abbrev Later : ℕ → Items → Type 0
Later k m = (j : ℕ) × (d : Combiner) × (k < j) × (find j m ≡ some d)

Later-cases : (k : ℕ) (m : Items) → NoLater k m ⊎ Later k m
unfolding find
Later-cases k [] = inl (λ j h. refl)
Later-cases k ((i, d) ∷ m) = elim (Bool-cases (ltb k i)) [
  | inl y ↦ inr (i, d, ground (arith, y), ground arith)
  | inr n ↦ elim (Later-cases k m) [
    | inl f ↦ inl (λ j h. ground (arith, n, f j h))
    | inr (j, e, h, p) ↦ inr (j, e, h, ground (arith, n, h, p))
  ]
]

-- A key that is in the tail of a map comes after the first one.
tail_key :
    (n i k : ℕ) (d c : Combiner) (m : Items)
    → From n ((i, d) ∷ m)
    → (i == k) ≡ false
    → find k ((i, d) ∷ m) ≡ some c
    → (i < k) × (find k m ≡ some c)
unfolding find
tail_key n i k d c m f z e =
    let p : find k m ≡ some c = ground (arith, z, e) in
    elim (Bool-cases (ltb i k)) [
      | inl y ↦ (ground (arith, y), p)
      | inr x ↦ absurd (ground (arith, z, x, find_below k (suc i) m f.1, p))
    ]

NoLater-tail : (i k : ℕ) (d : Combiner) (m : Items) → i < k → NoLater k ((i, d) ∷ m) → NoLater k m
unfolding find
NoLater-tail i k d m h f j l = ground (arith, h, l, f j l)

NoLater-end :
    (n i : ℕ) (d : Combiner) (m : Items) → From n ((i, d) ∷ m) → NoLater i ((i, d) ∷ m) → m ≡ []
unfolding find
NoLater-end n i d [] f g = refl
NoLater-end n i d ((j, b) ∷ m) f g = absurd (ground (arith, f.1.0, g j f.1.0))

leb-lt : (i k : ℕ) → i < k → leb i k ≡ true
leb-lt i k h = ground (arith, h)

leb_self : (i : ℕ) → leb i i ≡ true
leb_self i = ground arith

eq_self : (i : ℕ) → (i == i) ≡ true
eq_self i = ground arith

eq-key : (i k : ℕ) → (i == k) ≡ true → i ≡ k
eq-key i k e = ground (arith, e)

erase_upto-last :
    (n k : ℕ) (c : Combiner) (m : Items)
    → From n m
    → find k m ≡ some c
    → NoLater k m
    → erase_upto false k m ≡ ok []
unfolding erase_upto
erase_upto-last n k c [] f e none_later = refl
erase_upto-last n k c ((i, d) ∷ m) f e none_later = elim (Bool-cases (i == k)) [
  | inl y ↦
      let p = eq-key i k y in
      rw (y, p, leb_self k, NoLater-end n k d m (rw (p) at f) (rw (p) at none_later)) refl
  | inr z ↦
      let (h, e') = tail_key n i k d c m f z e in
      rw (z, leb-lt i k h)
        (erase_upto-last (suc i) k c m f.1 e' (NoLater-tail i k d m h none_later))
]

leb-key : (i k : ℕ) → (i == k) ≡ true → leb i k ≡ true
leb-key i k e = ground (arith, e)

find-nothing : (k : ℕ) (c : Combiner) → find k [] ≢ some c
unfolding find
find-nothing k c e = cc

gone_freed :
    (k j : ℕ) (d : Combiner) (m : Items)
    → find j m ≡ some d
    → erase_upto true k m ≡ fault use_after_free
unfolding erase_upto
gone_freed k j d [] e = absurd (find-nothing j d e)
gone_freed k j d (_ ∷ m) e = refl

erase_upto-freed :
    (n k j : ℕ) (c d : Combiner) (m : Items)
    → From n m
    → find k m ≡ some c
    → k < j
    → find j m ≡ some d
    → erase_upto false k m ≡ fault use_after_free
unfolding erase_upto
erase_upto-freed n k j c d [] f e h p = absurd (find-nothing k c e)
erase_upto-freed n k j c d ((i, b) ∷ m) f e h p = elim (Bool-cases (i == k)) [
  | inl y ↦
      let l : i < j = omega (arith, eq-key i k y, h) in
      rw (y, leb-key i k y) (gone_freed k j d m (tail_key n i j b d m f (ground (arith, l)) p).1)
  | inr z ↦
      let (l, e') = tail_key n i k b c m f z e in
      rw (z, leb-lt i k l)
        (erase_upto-freed (suc i) k j c d m f.1 e' h
          (tail_key n i j b d m f (ground (arith, h, l)) p).1)
]

-- What `getFrame` does to a map.
pub data Delivers (items : Items) (out : List (Option ℕ))
    (r : Result (Bool × List (Option ℕ) × Items)) : Type 0 where
  nothing :
      ((k : ℕ) (c : Combiner) → find k items ≡ some c → is_complete c ≡ false)
      → r ≡ ok (false, out, items)
      → Delivers items out r
  last_one :
      (k : ℕ) (c : Combiner)
      → Chosen items k c
      → NoLater k items
      → r ≡ ok (true, out ++ take c.buffer_size c.buffer, [])
      → Delivers items out r
  freed :
      (k : ℕ) (c : Combiner)
      → Chosen items k c
      → Later k items
      → r ≡ fault use_after_free
      → Delivers items out r

-- What `getFrame` does to a map in the order of its keys. Either no entry is complete: it answers no
-- and changes nothing. Or the complete entry with the least id has the greatest id of all: its block
-- is appended, and the map is empty. Or that entry has one after it: the loop that erases entries
-- reads the key of the erased entry, which is a use after free.
pub get_frame-Delivers :
    (items : Items) (out : List (Option ℕ))
    → IsSorted items
    → Delivers items out (get_frame items out)
unfolding get_frame
get_frame-Delivers items out f = elim (Option-cases (first_complete items)) [
  | inl e ↦ nothing (λ k c h. first_complete-none items k c e h) (rw (e, get_frame) refl)
  | inr ((k, c), e) ↦
      let v = (first_complete-some 0 items k c f e).0 in
      elim (Later-cases k items) [
        | inl x ↦
            last_one k c v x (rw (e, get_frame, erase_upto-last 0 k c items f v.present x) refl)
        | inr (j, d, h, p) ↦
            freed k c v (j, d, h, p)
              (rw (e, get_frame, erase_upto-freed 0 k j c d items f v.present h p) refl)
      ]
]
