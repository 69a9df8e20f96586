-- ===== src/LiveLink/Live.antt =====
-- Which subjects the client of plugins/unreal/.../Open3DStreamSource.cpp has been told of.
use open3dstream.Base.{
  ℕ, ◌≤◌, ◌<◌, ◌≡◌, refl, sym, ap, ◌∙◌, List, [], ◌∷◌, Bool, true, false, if◌then◌else◌, inl, inr,
  Bool-cases, arith,
}
use open3dstream.Numerics.{Numerics}
use open3dstream.LiveLink.{Engine, Event, removed, announced, pushed, Source, contains, without}

module _ (N : Numerics) (E : Engine N) where
  open N use {F}
  open E use {Name, Time, same, now, is_inactive}

  -- The comparison of names is equality.
  pub record Compares : Type 0 where
    pub same_refl : (n : Name) → same n n ≡ true
    pub same_eq : (m n : Name) → same m n ≡ true → m ≡ n

  -- A subject was announced, and not removed since.
  abbrev pub live : Name → List (Event N E) → Bool
  live n [] = false
  live n (removed m ∷ l) = if same n m then false else live n l
  live n (announced m names parents ∷ l) = if same n m then true else live n l
  live n (pushed m i poses ∷ l) = live n l

  -- Each frame is of a subject that is live, and its number is below that of the next.
  abbrev pub IsOrderly : ℕ → List (Event N E) → Type 0
  IsOrderly k [] = Unit {0}
  IsOrderly k (removed m ∷ l) = IsOrderly k l
  IsOrderly k (announced m names parents ∷ l) = IsOrderly k l
  IsOrderly k (pushed n i poses ∷ l) = (i < k) × (live n l ≡ true) × IsOrderly i l

  abbrev pub AllLive : List Name → List (Event N E) → Type 0
  AllLive [] l = Unit {0}
  AllLive (n ∷ ns) l = (live n l ≡ true) × AllLive ns l

  pub record IsKept (s : Source N E) : Type 0 where
    pub orderly : IsOrderly s.frame s.log
    pub all_live : AllLive s.initialized s.log

  pub IsOrderly-weaken : (k m : ℕ) (l : List (Event N E)) → k ≤ m → IsOrderly k l → IsOrderly m l
  IsOrderly-weaken k m [] h x = tt
  IsOrderly-weaken k m (removed n ∷ l) h x = IsOrderly-weaken k m l h x
  IsOrderly-weaken k m (announced n names parents ∷ l) h x = IsOrderly-weaken k m l h x
  IsOrderly-weaken k m (pushed n i poses ∷ l) h x = (omega (arith, x.0, h), x.1, x.2)

  -- A frame changes nothing for the subjects.
  pub AllLive-pushed :
      (ns : List Name) (n : Name) (i : ℕ) (poses : _) (l : List (Event N E))
      → AllLive ns l
      → AllLive ns (pushed n i poses ∷ l)
  AllLive-pushed [] n i poses l x = tt
  AllLive-pushed (m ∷ ns) n i poses l x = (x.0, AllLive-pushed ns n i poses l x.1)

  pub AllLive-removed :
      (ns : List Name) (n : Name) (l : List (Event N E))
      → AllLive ns l
      → AllLive (without N E n ns) (removed n ∷ l)
  AllLive-removed [] n l x = tt
  AllLive-removed (m ∷ ns) n l x = elim (Bool-cases (same m n)) [
    | inl y ↦ rw (y) (AllLive-removed ns n l x.1)
    | inr z ↦ rw (z) (rw (z) (x.0), AllLive-removed ns n l x.1)
  ]

  pub AllLive-announced :
      (ns : List Name) (n : Name) (names : List Name) (parents : _) (l : List (Event N E))
      → AllLive ns l
      → AllLive ns (announced n names parents ∷ removed n ∷ l)
  AllLive-announced [] n names parents l x = tt
  AllLive-announced (m ∷ ns) n names parents l x = (
    elim (Bool-cases (same m n)) [ inl y ↦ rw (y) refl | inr z ↦ rw (z) (x.0) ],
    AllLive-announced ns n names parents l x.1,
  )

  pub contains-live :
      Compares
      → (n : Name) (ns : List Name) (l : List (Event N E)) → contains N E n ns ≡ true
      → AllLive ns l
      → live n l ≡ true
  contains-live c n [] l h x = absurd cc
  contains-live c n (m ∷ ns) l h x = elim (Bool-cases (same m n)) [
    | inl y ↦ ap (λ k. live k l) (sym (c.same_eq m n y)) ∙ x.0
    | inr z ↦ contains-live c n ns l (rw (z, contains) at h) x.1
  ]
