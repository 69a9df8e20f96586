-- ===== src/Model/Hierarchy/OnePass.antt =====
-- What one pass of the loop of `Subject::calcMatrices` (src/o3ds/model.cpp) keeps and changes.
use mathlib.Core.Path.{subst}
use open3dstream.Base.Buffers.{get_elem?-IsSome}
use open3dstream.Model.Hierarchy.Counting.{unset, unset-set}
use open3dstream.Base.{
  map-set, get_elem?-length, ℕ, zero, suc, ◌+◌, ◌<◌, ◌≤◌, List, some, Bool, true, false, length,
  get_elem?, set, ◌==◌, ==_iff, map, ◌≡◌, ◌≢◌, refl, sym, ap, ◌∙◌, ◌⊎◌, inl, inr, arith, Bool-cases,
  Option-cases, some_eq, get_elem?-set_self, get_elem?-set_ne, length-set,
}
use open3dstream.Base.Int.{ℤ, pos, negsuc}
use open3dstream.Numerics.{Matrix, Numerics}
use open3dstream.Model.Types.{Transform, Message, cycle_detected}
use open3dstream.Model.Transform.{identity_matrix, finite_matrix}
use open3dstream.Model.Hierarchy.{
  Visit, skip, refuse, place, visit, visit_parent, Sweep, swept, stopped, placed, sweep,
}

false-true : false ≢ true
false-true e = cc

module _ (N : Numerics) where
  open N use {F, product}

  abbrev pub known : Transform F → Bool
  known t = t.has_world

  -- A transform less what the loop writes.
  abbrev pub frame : Transform F → Transform F
  frame t = record t { world_matrix = identity_matrix N; has_world = false }

  -- The world matrix is the transform's own, for a root, or its parent's times its own.
  abbrev pub IsWorld : List (Transform F) → Transform F → Type 0
  IsWorld ts t =
      ((t.parent ≡ negsuc 0) × (t.world_matrix ≡ t.matrix))
      ⊎ ((j : ℕ) × (p : Transform F) × (t.parent ≡ pos j)
          × (get_elem? ts j ≡ some p)
          × (p.has_world ≡ true)
          × (t.world_matrix ≡ product p.world_matrix t.matrix))

  abbrev pub Sound : List (Transform F) → Type 0
  Sound ts = (i : ℕ) (t : Transform F) → get_elem? ts i ≡ some t → t.has_world ≡ true → IsWorld ts t

  -- A transform waits for its parent, another one, which has no world matrix either.
  abbrev pub Waits : List (Transform F) → ℕ → Transform F → Type 0
  Waits ts i t =
      (j : ℕ) × (p : Transform F) × (t.parent ≡ pos j)
      × (i ≢ j)
      × (get_elem? ts j ≡ some p)
      × (p.has_world ≡ false)

  abbrev pub Stuck : List (Transform F) → ℕ → Type 0
  Stuck ts n =
      (i : ℕ) (t : Transform F)
      → n ≤ i
      → get_elem? ts i ≡ some t
      → t.has_world ≡ false
      → Waits ts i t

  -- What the visit of a transform without a world matrix says of its parent.
  abbrev pub Tells : List (Transform F) → ℕ → Transform F → Visit N → Type 0
  Tells ts i t skip = Waits ts i t
  Tells ts i t (refuse e) = e ≢ cycle_detected
  Tells ts i t (place m) =
      (j : ℕ) × (p : Transform F) × (t.parent ≡ pos j)
      × (i ≢ j)
      × (get_elem? ts j ≡ some p)
      × (p.has_world ≡ true)
      × (m ≡ product p.world_matrix t.matrix)

  parent-Tells :
      (ts : List (Transform F)) (i : ℕ) (t : Transform F) (z : ℤ)
      → t.parent ≡ z
      → Tells ts i t (visit_parent N ts i t z)
  unfolding visit_parent
  parent-Tells ts i t (negsuc n) e = λ q. cc
  parent-Tells ts i t (pos j) e = elim (Bool-cases (i == j)) [
    | inl y ↦ rw (y) (λ q. cc)
    | inr n ↦ elim (Option-cases (get_elem? ts j)) [
      | inl g ↦ rw (n, g) (λ q. cc)
      | inr (p, g) ↦ elim (Bool-cases (p.has_world)) [
        | inl w ↦ rw (n, g, w) (j, p, e, ground arith, g, w, refl)
        | inr w ↦ rw (n, g, w) (j, p, e, ground arith, g, w)
      ]
    ]
  ]

  visit-known :
      (ts : List (Transform F)) (i : ℕ) (t : Transform F)
      → t.has_world ≡ true
      → visit N ts i t ≡ skip
  unfolding visit
  visit-known ts i t w = rw (w)

  visit-Tells :
      (ts : List (Transform F)) (i : ℕ) (t : Transform F)
      → t.has_world ≡ false
      → Tells ts i t (visit N ts i t)
  unfolding visit
  visit-Tells ts i t w = rw (w) (parent-Tells ts i t t.parent refl)

  Visit-cases :
      (v : Visit N)
      → (v ≡ skip) ⊎ (((e : Message) × (v ≡ refuse e)) ⊎ ((m : Matrix F) × (v ≡ place m)))
  Visit-cases skip = inl refl
  Visit-cases (refuse e) = inr (inl (e, refl))
  Visit-cases (place m) = inr (inr (m, refl))

  -- The transforms after a pass from `i` on, which met `flag`. If it changed nothing, every
  -- transform from `i` on has a world matrix or waits.
  abbrev pub Keeps : List (Transform F) → ℕ → Bool → Sweep N → Type 0
  Keeps ts i flag (swept true us) = (flag ≡ true) × (us ≡ ts) × Stuck ts i
  Keeps ts i flag (swept false us) =
      Sound us
      × (map frame us ≡ map frame ts)
      × (unset known us ≤ unset known ts)
      × (flag ≡ true → unset known us < unset known ts)
  Keeps ts i flag (stopped e us) = e ≢ cycle_detected

  same_index :
      (ts : List (Transform F)) (i j : ℕ) (t u : Transform F)
      → i ≡ j
      → get_elem? ts i ≡ some t
      → get_elem? ts j ≡ some u
      → (t.has_world ≡ false → Waits ts i t)
      → u.has_world ≡ false
      → Waits ts j u
  same_index ts i j t u q g e =
      subst
        (λ (k : ℕ).
          get_elem? ts k ≡ some u
          → (t.has_world ≡ false → Waits ts i t)
          → u.has_world ≡ false
          → Waits ts k u)
        q
        (λ f.
          subst
            (λ (a : Transform F).
              (t.has_world ≡ false → Waits ts i t) → a.has_world ≡ false → Waits ts i a)
            (some_eq (sym g ∙ f)) (λ w. w))
        e

  idle-Keeps :
      (ts : List (Transform F)) (i : ℕ) (flag : Bool) (t : Transform F) (r : Sweep N)
      → get_elem? ts i ≡ some t
      → (t.has_world ≡ false → Waits ts i t)
      → Keeps ts (suc i) flag r
      → Keeps ts i flag r
  idle-Keeps ts i flag t (swept true us) g w k = (
    k.0,
    k.1,
    λ j x l e z. elim (Bool-cases (i == j)) [
      | inl y ↦ same_index ts i j t x ((==_iff i j).0 y) g e w z
      | inr n ↦ k.2 j x (ground arith) e z
    ],
  )
  idle-Keeps ts i flag t (swept false us) g w k = k
  idle-Keeps ts i flag t (stopped e us) g w k = k

  known_apart :
      (ts : List (Transform F)) (i j : ℕ) (t p : Transform F)
      → get_elem? ts i ≡ some t
      → get_elem? ts j ≡ some p
      → t.has_world ≡ false
      → p.has_world ≡ true
      → i ≢ j
  known_apart ts i j t p g h z w q =
      absurd (false-true (sym z ∙ ap known (some_eq (sym g ∙ ap (λ k. get_elem? ts k) q ∙ h)) ∙ w))

  placed_at :
      (ts : List (Transform F)) (i k : ℕ) (t : Transform F) (m : Matrix F) (u : Transform F)
      → i ≡ k
      → get_elem? ts i ≡ some t
      → get_elem? (set ts i (placed N t m)) k ≡ some u
      → placed N t m ≡ u
  placed_at ts i k t m u q g x = some_eq (
      sym (get_elem?-set_self ts i (placed N t m) (get_elem?-length ts i t g))
      ∙ ap (λ k. get_elem? (set ts i (placed N t m)) k) q
      ∙ x)

  set-IsWorld :
      (ts : List (Transform F)) (i : ℕ) (t u : Transform F) (m : Matrix F)
      → get_elem? ts i ≡ some t
      → t.has_world ≡ false
      → IsWorld ts u
      → IsWorld (set ts i (placed N t m)) u
  set-IsWorld ts i t u m g z (inl d) = inl d
  set-IsWorld ts i t u m g z (inr (j, p, e, h, w, c)) = inr (
    j,
    p,
    e,
    get_elem?-set_ne ts (placed N t m) (λ q. known_apart ts i j t p g h z w q) ∙ h,
    w,
    c,
  )

  set-Sound :
      (ts : List (Transform F)) (i : ℕ) (t : Transform F) (m : Matrix F)
      → get_elem? ts i ≡ some t
      → t.has_world ≡ false
      → Tells ts i t (place m)
      → Sound ts
      → Sound (set ts i (placed N t m))
  set-Sound ts i t m g z (j, p, e, n, h, w, c) s k u x y = elim (Bool-cases (i == k)) [
    | inl q ↦
        subst (IsWorld (set ts i (placed N t m))) (placed_at ts i k t m u ((==_iff i k).0 q) g x)
          (inr (j, p, e, get_elem?-set_ne ts (placed N t m) n ∙ h, w, c))
    | inr q ↦
        set-IsWorld ts i t u m g z
          (s k u (sym (get_elem?-set_ne ts (placed N t m) (ground arith)) ∙ x) y)
  ]

  place-Keeps :
      (ts : List (Transform F)) (i : ℕ) (flag : Bool) (t : Transform F) (m : Matrix F) (r : Sweep N)
      → get_elem? ts i ≡ some t
      → t.has_world ≡ false
      → Keeps (set ts i (placed N t m)) (suc i) false r
      → Keeps ts i flag r
  place-Keeps ts i flag t m (swept true us) g z k = absurd cc
  place-Keeps ts i flag t m (swept false us) g z k = (
    k.0,
    k.1 ∙ map-set frame ts i t (placed N t m) g refl,
    omega (arith, k.2, unset-set known ts i t (placed N t m) g z refl),
    λ _. omega (arith, k.2, unset-set known ts i t (placed N t m) g z refl),
  )
  place-Keeps ts i flag t m (stopped e us) g z k = k

  -- One pass over the transforms from `i` on.
  pub sweep-Keeps :
      (n i : ℕ) (flag : Bool) (ts : List (Transform F))
      → i + n ≡ length ts
      → Sound ts
      → Keeps ts i flag (sweep N n i flag ts)
  unfolding sweep
  sweep-Keeps zero i true ts l s =
      (refl, refl, λ j t h e w. absurd (omega (arith, get_elem?-length ts j t e)))
  sweep-Keeps zero i false ts l s = (s, refl, omega arith, λ e. cc)
  sweep-Keeps (suc n) i flag ts l s =
      let (t, g) = get_elem?-IsSome ts i (omega arith) in
      elim (Bool-cases (t.has_world)) [
        | inl w ↦
            rw (g, visit-known ts i t w, sweep)
              (idle-Keeps ts i flag t (sweep N n (suc i) flag ts) g (λ z. absurd cc)
                (sweep-Keeps n (suc i) flag ts (omega arith) s))
        | inr w ↦ elim (Visit-cases (visit N ts i t)) [
          | inl v ↦
              rw (g, v, sweep)
                (idle-Keeps ts i flag t (sweep N n (suc i) flag ts) g
                  (λ z. subst (Tells ts i t) v (visit-Tells ts i t w))
                  (sweep-Keeps n (suc i) flag ts (omega arith) s))
          | inr (inl (e, v)) ↦ rw (g, v, sweep) (subst (Tells ts i t) v (visit-Tells ts i t w))
          | inr (inr (m, v)) ↦ elim (Bool-cases (finite_matrix N m)) [
            | inl f ↦
                rw (g, v, f, sweep)
                  (place-Keeps ts i flag t m (sweep N n (suc i) false (set ts i (placed N t m))) g w
                    (sweep-Keeps n (suc i) false (set ts i (placed N t m))
                      (omega (arith, length-set ts i (placed N t m)))
                      (set-Sound ts i t m g w (subst (Tells ts i t) v (visit-Tells ts i t w)) s)))
            | inr f ↦ rw (g, v, f, sweep) (λ q. cc)
          ]
        ]
      ]
