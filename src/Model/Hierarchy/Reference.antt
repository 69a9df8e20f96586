-- ===== src/Model/Hierarchy/Reference.antt =====
-- `Subject::calcMatrices` (src/o3ds/model.cpp) against the recursive definition of a world matrix.
use mathlib.Core.Path.{subst}
use mathlib.Core.Option
use open3dstream.Base.Options.{◌>>=◌}
use open3dstream.Base.{
  get_elem?-map, get_elem?-unmap, ℕ, zero, suc, ◌<◌, List, Option, some, none, get_elem?, map, ◌≡◌,
  refl, sym, ap, ◌∙◌, inl, inr, arith, Bool-cases, some_eq, if◌then◌else◌,
}
use open3dstream.Base.Int.{ℤ, pos, negsuc}
use open3dstream.Numerics.{Matrix, Numerics}
use open3dstream.Context.Conversion.{ConversionContext, is_identity, convert_matrix}
use open3dstream.Model.Types.{Transform}
use open3dstream.Model.Transform.{update}
use open3dstream.Model.Hierarchy.{done, convert_world, convert_all, calc_matrices}
use open3dstream.Model.Hierarchy.OnePass.{frame, Sound, Stuck}
use open3dstream.Model.Hierarchy.World.{calc_matrices-Calculates, Calculates}
use open3dstream.Model.Hierarchy.Tree.{Ranked, Ranked-known, parent_of, parent-IsKept}
use open3dstream.Model.Hierarchy.Kept.{kept-field}

module _ (N : Numerics) where
  open N use {F, product}

  -- The world matrix of a transform that has the parent `z` and its own matrix `m`.
  abbrev pub above : (ℕ → Option (Matrix F)) → Matrix F → ℤ → Option (Matrix F)
  above world m (negsuc n) = some m
  above world m (pos j) = world j >>= λ p. some (product p m)

  -- The definition: the own matrix of a root, and for any other transform the parent's world matrix
  -- times its own. It goes up to `n` transforms up.
  unfoldable pub world_of : ℕ → List (Transform F) → ℕ → Option (Matrix F)
  unfolding update
  world_of zero ts i = none
  world_of (suc n) ts i = do
    t ← get_elem? ts i
    u ← update N t
    above (world_of n ts) u.matrix u.parent

  -- What the receiver's context makes of a world matrix.
  abbrev pub converted : Option (ConversionContext N) → Matrix F → Matrix F
  converted none m = m
  converted (some c) m = if is_identity N c then m else convert_matrix N c m

  some-frame :
      (o : Option (Transform F)) (v : Transform F)
      → Option.map (frame N) o ≡ some (frame N v)
      → (u : Transform F) × (o ≡ some u) × (frame N u ≡ frame N v)
  some-frame none v e = absurd cc
  some-frame (some u) v e = (u, refl, some_eq e)

  framed-update :
      (ts vs : List (Transform F)) (i : ℕ) (v : Transform F)
      → map some (map (frame N) vs) ≡ map (Option.map (frame N)) (map (update N) ts)
      → get_elem? vs i ≡ some v
      → (t : Transform F) × (u : Transform F) × (get_elem? ts i ≡ some t)
        × (update N t ≡ some u)
        × (frame N u ≡ frame N v)
  framed-update ts vs i v f g =
      let x =
        get_elem?-map some (map (frame N) vs) i (frame N v) (get_elem?-map (frame N) vs i v g) in
      let (o, p, q) =
        get_elem?-unmap (Option.map (frame N)) (map (update N) ts) i (some (frame N v))
          (sym (ap (λ xs. get_elem? xs i) f) ∙ x) in
      let (t, r, w) = get_elem?-unmap (update N) ts i o p in
      let (u, a, b) = some-frame o v q in (t, u, r, w ∙ a, b)

  module _ (rank : ℕ → ℕ) (ts vs : List (Transform F)) (r : Ranked N rank ts)
      (f : map some (map (frame N) vs) ≡ map (Option.map (frame N)) (map (update N) ts))
      (s : Sound N vs) (k : Stuck N vs 0) where
    world_of-Sound :
        (n i : ℕ) (v : Transform F)
        → rank i < n
        → get_elem? vs i ≡ some v
        → world_of n ts i ≡ some v.world_matrix
    unfolding world_of
    world_of-Sound zero i v l g = absurd (omega arith)
    world_of-Sound (suc n) i v l g =
        let (t, u, a, b, c) = framed-update ts vs i v f g in
        let m : u.matrix ≡ v.matrix = ap (λ (x : Transform F). x.matrix) c in
        let q : u.parent ≡ v.parent = ap (λ (x : Transform F). x.parent) c in
        let here : world_of (suc n) ts i ≡ above (world_of n ts) v.matrix v.parent =
          rw (a, b, world_of)
            (ap (λ x. above (world_of n ts) x u.parent) m
              ∙ ap (λ z. above (world_of n ts) v.matrix z) q) in
        elim (s i v g (Ranked-known N rank ts vs r f k (suc (rank i)) i v (omega arith) g)) [
          | inl (p, w) ↦ here ∙ ap (λ z. above (world_of n ts) v.matrix z) p ∙ ap some (sym w)
          | inr (j, p, e, h, x, w) ↦
              let (t', a', b') = kept-field N (parent_of N) (parent-IsKept N) ts vs i v f g in
              let y = world_of-Sound n j p (omega (arith, r i j t' a' (b' ∙ e))) h in
              here
              ∙ ap (λ z. above (world_of n ts) v.matrix z) e
              ∙ ap (λ o. o >>= λ z. some (product z v.matrix)) y
              ∙ ap some (sym w)
        ]

  converted-world :
      (conv : Option (ConversionContext N)) (vs : List (Transform F)) (i : ℕ) (u : Transform F)
      → get_elem? (convert_all N conv vs) i ≡ some u
      → (v : Transform F) × (get_elem? vs i ≡ some v)
        × (u.world_matrix ≡ converted conv v.world_matrix)
  unfolding convert_all
  converted-world none vs i u g = (u, g, refl)
  converted-world (some c) vs i u g = elim (Bool-cases (is_identity N c)) [
    | inl y ↦ (u, (rw (y, convert_all) at g), rw (y) refl)
    | inr z ↦
        let (v, h, e) = get_elem?-unmap (convert_world N c) vs i u (rw (z, convert_all) at g) in
        (v, h, rw (z) (ap (λ (x : Transform F). x.world_matrix) (sym e)))
  ]

  -- If the transforms can be ranked so that each parent has a lower rank than its child, and
  -- `calcMatrices` succeeds, then the world matrix of each transform is that of the recursive
  -- definition, in the receiver's context: the passes over the list, in the order of the list, come
  -- to the same as going up from each transform to the root.
  pub calc_matrices-world_of :
      (conv : Option (ConversionContext N)) (ts us : List (Transform F)) (rank : ℕ → ℕ)
      → Ranked N rank ts
      → calc_matrices N conv ts ≡ done us
      → (n i : ℕ) (u : Transform F) → rank i < n
      → get_elem? us i ≡ some u
      → (m : Matrix F) × (world_of n ts i ≡ some m) × (u.world_matrix ≡ converted conv m)
  calc_matrices-world_of conv ts us rank r e n i u l g =
      let (vs, c, f, s, k) = subst (Calculates N conv ts) e (calc_matrices-Calculates N conv ts) in
      let (v, h, w) = converted-world conv vs i u (sym (ap (λ xs. get_elem? xs i) c) ∙ g) in
      (v.world_matrix, world_of-Sound rank ts vs r f s k n i v l h, w)
