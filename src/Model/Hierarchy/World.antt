-- ===== src/Model/Hierarchy/World.antt =====
-- What `Subject::calcMatrices` (src/o3ds/model.cpp) answers: its errors and its world matrices.
use mathlib.Core.Path.{subst}
use mathlib.Core.Option
use open3dstream.Model.Hierarchy.Counting.{unset}
use open3dstream.Base.{
  get_elem?-unmap, ℕ, zero, suc, ◌+◌, ◌<◌, List, [], ◌∷◌, Option, some, none, Bool, true, false,
  length, get_elem?, ltb, ◌==◌, ==_iff, map, ◌≡◌, ◌≢◌, refl, sym, ap, ◌∙◌, ◌⊎◌, inl, inr, arith,
  Bool-cases, Option-cases, some_eq, length-map,
}
use open3dstream.Base.Int.{ℤ, pos, negsuc}
use open3dstream.Numerics.{Numerics}
use open3dstream.Context.Conversion.{ConversionContext}
use open3dstream.Model.Types.{Transform, Message, cycle_detected}
use open3dstream.Model.Transform.{update, compose, identity_matrix, all_finite}
use open3dstream.Model.Hierarchy.{
  Outcome, done, failed, fault, cons_outcome, prepare, is_root, mark_root, count_roots, Sweep,
  swept, stopped, sweep, passes, convert_all, finish, hierarchy, calc_matrices,
}
use open3dstream.Model.Hierarchy.OnePass.{known, frame, IsWorld, Sound, Stuck, Keeps, sweep-Keeps}

no_value {ℓ} : {A : Type ℓ} {a : A} → some a ≢ none
no_value e = cc

root_id : (z : ℤ) → (elim z [ pos n ↦ false | negsuc n ↦ n == 0 ]) ≡ true → z ≡ negsuc 0
root_id (pos n) e = absurd cc
root_id (negsuc n) e = ap negsuc ((==_iff n 0).0 e)

module _ (N : Numerics) where
  open N use {F}

  -- How the outer loop ends, from transforms that are right so far.
  abbrev pub Ends : List (Transform F) → Outcome F → Type 0
  Ends ts (done us) = Sound N us × (map (frame N) us ≡ map (frame N) ts) × Stuck N us 0
  Ends ts (failed e us) = e ≢ cycle_detected
  Ends ts fault = ⊥

  Sweep-cases :
      (r : Sweep N)
      → ((b : Bool) × (us : List (Transform F)) × (r ≡ swept b us))
        ⊎ ((e : Message) × (us : List (Transform F)) × (r ≡ stopped e us))
  Sweep-cases (swept b us) = inl (b, us, refl)
  Sweep-cases (stopped e us) = inr (e, us, refl)

  Ends-frame :
      (ts us : List (Transform F)) (r : Outcome F)
      → map (frame N) us ≡ map (frame N) ts
      → Ends us r
      → Ends ts r
  Ends-frame ts us (done vs) e k = (k.0, k.1 ∙ e, k.2)
  Ends-frame ts us (failed m vs) e k = k
  Ends-frame ts us fault e k = k

  -- Each call of the inner loop that is not the last one places a transform.
  passes-Ends :
      (k : ℕ) (ts : List (Transform F))
      → unset (known N) ts < k
      → Sound N ts
      → Ends ts (passes N k ts)
  unfolding passes
  passes-Ends zero ts h s = absurd (omega arith)
  passes-Ends (suc k) ts h s =
      let kept = sweep-Keeps N (length ts) 0 true ts (omega arith) s in
      elim (Sweep-cases (sweep N (length ts) 0 true ts)) [
        | inl (true, us, e) ↦
            let (a, b, c) = subst (Keeps N ts 0 true) e kept in
            rw (e, passes)
              (subst (Sound N) (sym b) s, ap (map (frame N)) b, subst (λ v. Stuck N v 0) (sym b) c)
        | inl (false, us, e) ↦
            let (a, b, c, d) = subst (Keeps N ts 0 true) e kept in
            rw (e, passes)
              (Ends-frame ts us (passes N k us) b (passes-Ends k us (omega (arith, d refl)) a))
        | inr (m, us, e) ↦ rw (e, passes) (subst (Keeps N ts 0 true) e kept)
      ]

  abbrev pub Fresh : List (Transform F) → Type 0
  Fresh [] = Unit {0}
  Fresh (t ∷ ts) = (t.has_world ≡ false) × Fresh ts

  -- The first loop: all the transforms are updated, or an error that is not about cycles, or the
  -- update of one of them reads outside of its matrices.
  abbrev pub Prepares : List (Transform F) → Outcome F → Type 0
  Prepares ts (done us) = Fresh us × (map some us ≡ map (update N) ts)
  Prepares ts (failed e us) = e ≢ cycle_detected
  Prepares ts fault = (i : ℕ) × (t : Transform F) × (get_elem? ts i ≡ some t) × (update N t ≡ none)

  cons-Prepares :
      (t u : Transform F) (ts : List (Transform F)) (r : Outcome F)
      → u.has_world ≡ false
      → update N t ≡ some u
      → Prepares ts r
      → Prepares (t ∷ ts) (cons_outcome N u r)
  cons-Prepares t u ts (done us) w e p = ((w, p.0), rw (e, p.1) refl)
  cons-Prepares t u ts (failed m us) w e p = p
  cons-Prepares t u ts fault w e (i, v, g, x) = (suc i, v, g, x)

  update-fresh : (t u : Transform F) → update N t ≡ some u → u.has_world ≡ false
  unfolding update
  update-fresh t u e = elim (Option-cases (compose N t (identity_matrix N) t.order t.matrices)) [
    | inl c ↦ absurd (no_value (sym (rw (c, update) at e)))
    | inr (m, c) ↦ ap (known N) (sym (some_eq (rw (c, update) at e)))
  ]

  prepare-Prepares : (ts : List (Transform F)) → Prepares ts (prepare N ts)
  unfolding prepare
  prepare-Prepares [] = (tt, refl)
  prepare-Prepares (t ∷ ts) = elim (Bool-cases (all_finite N t)) [
    | inr z ↦ rw (z, prepare) (λ q. cc)
    | inl y ↦ elim (Option-cases (update N t)) [
      | inl e ↦ rw (y, e, prepare) (0, t, refl, e)
      | inr (u, e) ↦ elim (Bool-cases (all_finite N u)) [
        | inr z ↦ rw (y, e, z, prepare) (λ q. cc)
        | inl x ↦
            rw (y, e, x, prepare)
              (cons-Prepares t u ts (prepare N ts) (update-fresh t u e) e (prepare-Prepares ts))
      ]
    ]
  ]

  Fresh-at :
      (ts : List (Transform F)) (i : ℕ) (t : Transform F)
      → Fresh ts
      → get_elem? ts i ≡ some t
      → t.has_world ≡ false
  Fresh-at [] i t f e = absurd cc
  Fresh-at (a ∷ ts) zero t f e = sym (ap (known N) (some_eq e)) ∙ f.0
  Fresh-at (a ∷ ts) (suc i) t f e = Fresh-at ts i t f.1 e

  mark-IsWorld :
      (ts : List (Transform F)) (t : Transform F)
      → t.has_world ≡ false
      → (mark_root N t).has_world ≡ true
      → IsWorld N ts (mark_root N t)
  mark-IsWorld ts t w e = elim (Bool-cases (is_root N t)) [
    | inl y ↦ rw (y) (inl (root_id t.parent y, refl))
    | inr z ↦ absurd (cc (w, rw (z) at e))
  ]

  mark-Sound : (ts : List (Transform F)) → Fresh ts → Sound N (map (mark_root N) ts)
  mark-Sound ts f i t e w =
      let (x, g, h) = get_elem?-unmap (mark_root N) ts i t e in
      subst (λ (u : Transform F). u.has_world ≡ true → IsWorld N (map (mark_root N) ts) u) h
        (mark-IsWorld (map (mark_root N) ts) x (Fresh-at ts i x f g)) w

  mark-frame : (ts : List (Transform F)) → map (frame N) (map (mark_root N) ts) ≡ map (frame N) ts
  mark-frame [] = refl
  mark-frame (t ∷ ts) = elim (Bool-cases (is_root N t)) [
    | inl y ↦ rw (y, mark-frame ts) refl
    | inr z ↦ rw (z, mark-frame ts) refl
  ]

  mark-count :
      (ts : List (Transform F))
      → Fresh ts
      → unset (known N) (map (mark_root N) ts) + count_roots N ts ≡ length ts
  mark-count [] f = refl
  mark-count (t ∷ ts) f = elim (Bool-cases (is_root N t)) [
    | inl y ↦ rw (y) (omega (arith, mark-count ts f.1))
    | inr z ↦ rw (z, f.0) (omega (arith, mark-count ts f.1))
  ]

  -- How `calcMatrices` ends. It gives world matrices to transforms that are otherwise as `update`
  -- left them: each of them is a root's own matrix, or the product of the parent's world matrix and
  -- the transform's own; and a transform without one waits for a parent without one. The world
  -- matrices are converted last. Or it fails, but not because it saw a cycle. Or the update of a
  -- transform reads outside of its matrices.
  abbrev pub Calculates : Option (ConversionContext N) → List (Transform F) → Outcome F → Type 0
  Calculates conv ts (done us) =
      (vs : List (Transform F)) × (us ≡ convert_all N conv vs)
      × (map some (map (frame N) vs) ≡ map (Option.map (frame N)) (map (update N) ts))
      × Sound N vs
      × Stuck N vs 0
  Calculates conv ts (failed e us) = e ≢ cycle_detected
  Calculates conv ts fault =
      (i : ℕ) × (t : Transform F) × (get_elem? ts i ≡ some t) × (update N t ≡ none)

  some-map :
      (us : List (Transform F))
      → map some (map (frame N) us) ≡ map (Option.map (frame N)) (map some us)
  some-map [] = refl
  some-map (u ∷ us) = ap (λ vs. some (frame N u) ∷ vs) (some-map us)

  finish-Calculates :
      (conv : Option (ConversionContext N)) (ts us : List (Transform F)) (r : Outcome F)
      → map some us ≡ map (update N) ts
      → Ends (map (mark_root N) us) r
      → Calculates conv ts (finish N conv r)
  finish-Calculates conv ts us (done vs) p (s, f, k) = (
    vs,
    refl,
    ap (λ xs. map some xs) (f ∙ mark-frame us)
        ∙ some-map us
        ∙ ap (λ xs. map (Option.map (frame N)) xs) p,
    s,
    k,
  )
  finish-Calculates conv ts us (failed e vs) p k = k
  finish-Calculates conv ts us fault p k = absurd k

  hierarchy-Calculates :
      (conv : Option (ConversionContext N)) (ts : List (Transform F)) (r : Outcome F)
      → Prepares ts r
      → Calculates conv ts (hierarchy N conv r)
  hierarchy-Calculates conv ts (failed e us) p = p
  hierarchy-Calculates conv ts fault p = p
  hierarchy-Calculates conv ts (done us) (f, p) = elim (Bool-cases (count_roots N us == 0)) [
    | inl y ↦ rw (y) (λ q. cc)
    | inr z ↦ elim (Bool-cases (ltb 1 (count_roots N us))) [
      | inl y ↦ rw (z, y) (λ q. cc)
      | inr x ↦
          let vs = map (mark_root N) us in
          rw (z, x)
            (finish-Calculates conv ts us (passes N (length vs) vs) p (
              passes-Ends (length vs) vs
                (ground (arith, mark-count us f, length-map us (mark_root N))) (mark-Sound us f)))
    ]
  ]

  -- `calcMatrices` never reports a cycle. If it succeeds, the transforms are as `update` leaves them
  -- but for their world matrices, which the conversion is applied to last: each that was calculated
  -- is the transform's own matrix, for a root, or the parent's world matrix times its own, and a
  -- transform without one has another transform without one as its parent. It reads outside of a
  -- list of matrices only if the update of one of the transforms does.
  pub calc_matrices-Calculates :
      (conv : Option (ConversionContext N)) (ts : List (Transform F))
      → Calculates conv ts (calc_matrices N conv ts)
  unfolding calc_matrices
  calc_matrices-Calculates conv ts =
      hierarchy-Calculates conv ts (prepare N ts) (prepare-Prepares ts)
