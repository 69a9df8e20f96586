-- ===== src/Model/Hierarchy/Tree.antt =====
-- `Subject::calcMatrices` (src/o3ds/model.cpp) on transforms whose parents form a tree.
use mathlib.Core.Path.{subst}
use mathlib.Core.Option
use open3dstream.Base.{
  get_elem?-unmap, ℕ, zero, suc, ◌<◌, List, Option, some, none, true, get_elem?, map, ◌≡◌, refl,
  sym, ap, ◌∙◌, inl, inr, arith, Bool-cases,
}
use open3dstream.Base.Int.{ℤ, pos}
use open3dstream.Numerics.{Numerics}
use open3dstream.Context.Conversion.{ConversionContext, is_identity}
use open3dstream.Model.Types.{Transform}
use open3dstream.Model.Transform.{update}
use open3dstream.Model.Hierarchy.{done, convert_world, convert_all, calc_matrices}
use open3dstream.Model.Hierarchy.OnePass.{known, frame, Stuck}
use open3dstream.Model.Hierarchy.Kept.{IsKept, kept-field}
use open3dstream.Model.Hierarchy.World.{calc_matrices-Calculates, Calculates}

module _ (N : Numerics) where
  open N use {F}

  abbrev pub parent_of : Transform F → ℤ
  parent_of t = t.parent

  pub parent-IsKept : IsKept N parent_of
  parent-IsKept = record { by_update = λ t m. refl; by_frame = λ t. refl; by_convert = λ c t. refl }

  pub converted-known :
      (conv : Option (ConversionContext N)) (vs : List (Transform F)) (i : ℕ) (u : Transform F)
      → get_elem? (convert_all N conv vs) i ≡ some u
      → (v : Transform F) × (get_elem? vs i ≡ some v) × (v.has_world ≡ u.has_world)
  unfolding convert_all
  converted-known none vs i u g = (u, g, refl)
  converted-known (some c) vs i u g = elim (Bool-cases (is_identity N c)) [
    | inl y ↦ (u, (rw (y, convert_all) at g), refl)
    | inr z ↦
        let (v, h, e) = get_elem?-unmap (convert_world N c) vs i u (rw (z, convert_all) at g) in
        (v, h, ap (known N) e)
  ]

  -- Every parent is of a lower rank: there is no cycle.
  abbrev pub Ranked : (ℕ → ℕ) → List (Transform F) → Type 0
  Ranked rank ts =
      (i j : ℕ) (t : Transform F) → get_elem? ts i ≡ some t → t.parent ≡ pos j → rank j < rank i

  pub Ranked-known :
      (rank : ℕ → ℕ) (ts vs : List (Transform F))
      → Ranked rank ts
      → map some (map (frame N) vs) ≡ map (Option.map (frame N)) (map (update N) ts)
      → Stuck N vs 0
      → (n i : ℕ) (v : Transform F) → rank i < n
      → get_elem? vs i ≡ some v
      → v.has_world ≡ true
  Ranked-known rank ts vs r f k zero i v l g = absurd (omega arith)
  Ranked-known rank ts vs r f k (suc n) i v l g = elim (Bool-cases (v.has_world)) [
    | inl y ↦ y
    | inr z ↦
        let (j, p, e, d, h, w) = k i v (omega arith) g z in
        let (t, a, b) = kept-field N parent_of parent-IsKept ts vs i v f g in
        absurd (cc (w, Ranked-known rank ts vs r f k n j p (omega (arith, r i j t a (b ∙ e), l)) h))
  ]

  -- If the transforms can be ranked so that each parent has a lower rank than its child, and
  -- `calcMatrices` succeeds, then every transform has its world matrix.
  pub calc_matrices-Ranked :
      (conv : Option (ConversionContext N)) (ts us : List (Transform F)) (rank : ℕ → ℕ)
      → Ranked rank ts
      → calc_matrices N conv ts ≡ done us
      → (i : ℕ) (u : Transform F) → get_elem? us i ≡ some u
      → u.has_world ≡ true
  calc_matrices-Ranked conv ts us rank r e i u g =
      let (vs, c, f, s, k) = subst (Calculates N conv ts) e (calc_matrices-Calculates N conv ts) in
      let (v, h, w) = converted-known conv vs i u (sym (ap (λ xs. get_elem? xs i) c) ∙ g) in
      sym w ∙ Ranked-known rank ts vs r f k (suc (rank i)) i v (omega arith) h
