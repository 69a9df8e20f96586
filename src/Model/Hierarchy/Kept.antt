-- ===== src/Model/Hierarchy/Kept.antt =====
-- What `Subject::calcMatrices` (src/o3ds/model.cpp) leaves of each transform, when it succeeds: every
-- field but the matrices.
use mathlib.Core.Path.{subst}
use mathlib.Core.Option
use open3dstream.Base.{
  ℕ, List, Option, some, none, get_elem?, get_elem?-map, get_elem?-unmap, length, length-map, map,
  ◌≡◌, refl, sym, ap, ◌∙◌, inl, inr, false, Bool-cases, Option-cases, some_eq,
}
use open3dstream.Numerics.{Matrix, Numerics}
use open3dstream.Context.Conversion.{ConversionContext, is_identity}
use open3dstream.Model.Types.{Transform}
use open3dstream.Model.Transform.{update, compose, identity_matrix}
use open3dstream.Model.Hierarchy.{done, convert_world, convert_all, calc_matrices}
use open3dstream.Model.Hierarchy.OnePass.{frame}
use open3dstream.Model.Hierarchy.World.{calc_matrices-Calculates, Calculates}

module _ (N : Numerics) where
  open N use {F}

  -- A part of a transform that is not one of the matrices.
  pub record IsKept {B : Type 0} (field : Transform F → B) : Type 0 where
    pub by_update :
        (t : Transform F) (m : Matrix F)
        → field (record t { has_world = false; matrix = m }) ≡ field t
    pub by_frame : (t : Transform F) → field (frame N t) ≡ field t
    pub by_convert :
        (c : ConversionContext N) (t : Transform F) → field (convert_world N c t) ≡ field t

  module _ {B : Type 0} (field : Transform F → B) (h : IsKept field) where
    update-field : (t u : Transform F) → update N t ≡ some u → field t ≡ field u
    unfolding update
    update-field t u e = elim (Option-cases (compose N t (identity_matrix N) t.order t.matrices)) [
      | inl c ↦ absurd cc (rw (c, update) at e)
      | inr (m, c) ↦ sym (h.by_update t m) ∙ ap field (some_eq (rw (c, update) at e))
    ]

    framed-field :
        (t v : Transform F) (o : Option (Transform F))
        → update N t ≡ o
        → Option.map (frame N) o ≡ some (frame N v)
        → field t ≡ field v
    framed-field t v none e g = absurd cc
    framed-field t v (some u) e g =
        update-field t u e ∙ sym (h.by_frame u) ∙ ap field (some_eq g) ∙ h.by_frame v

    -- Before the conversion.
    pub kept-field :
        (ts vs : List (Transform F)) (i : ℕ) (v : Transform F)
        → map some (map (frame N) vs) ≡ map (Option.map (frame N)) (map (update N) ts)
        → get_elem? vs i ≡ some v
        → (t : Transform F) × (get_elem? ts i ≡ some t) × (field t ≡ field v)
    kept-field ts vs i v f g =
        let x =
          get_elem?-map some (map (frame N) vs) i (frame N v) (get_elem?-map (frame N) vs i v g) in
        let (o, p, q) =
          get_elem?-unmap (Option.map (frame N)) (map (update N) ts) i (some (frame N v))
            (sym (ap (λ xs. get_elem? xs i) f) ∙ x) in
        let (t, r, s) = get_elem?-unmap (update N) ts i o p in (t, r, framed-field t v o s q)

    converted-field :
        (conv : Option (ConversionContext N)) (vs : List (Transform F)) (i : ℕ) (u : Transform F)
        → get_elem? (convert_all N conv vs) i ≡ some u
        → (v : Transform F) × (get_elem? vs i ≡ some v) × (field v ≡ field u)
    unfolding convert_all
    converted-field none vs i u g = (u, g, refl)
    converted-field (some c) vs i u g = elim (Bool-cases (is_identity N c)) [
      | inl y ↦ (u, (rw (y, convert_all) at g), refl)
      | inr z ↦
          let (v, e, f) = get_elem?-unmap (convert_world N c) vs i u (rw (z, convert_all) at g) in
          (v, e, sym (h.by_convert c v) ∙ ap field f)
    ]

    pub calculated-field :
        (conv : Option (ConversionContext N)) (ts us : List (Transform F)) (i : ℕ) (u : Transform F)
        → calc_matrices N conv ts ≡ done us
        → get_elem? us i ≡ some u
        → (t : Transform F) × (get_elem? ts i ≡ some t) × (field t ≡ field u)
    calculated-field conv ts us i u e g =
        let (vs, c, f, _, _) =
          subst (Calculates N conv ts) e (calc_matrices-Calculates N conv ts) in
        let (v, a, b) = converted-field conv vs i u (sym (ap (λ xs. get_elem? xs i) c) ∙ g) in
        let (t, p, q) = kept-field ts vs i v f a in (t, p, q ∙ b)

  length-converted :
      (conv : Option (ConversionContext N)) (vs : List (Transform F))
      → length (convert_all N conv vs) ≡ length vs
  unfolding convert_all
  length-converted none vs = refl
  length-converted (some c) vs = elim (Bool-cases (is_identity N c)) [
    | inl y ↦ rw (y, convert_all) refl
    | inr z ↦ rw (z, convert_all) (length-map vs (convert_world N c))
  ]

  pub calculated-length :
      (conv : Option (ConversionContext N)) (ts us : List (Transform F))
      → calc_matrices N conv ts ≡ done us
      → length us ≡ length ts
  calculated-length conv ts us e =
      let (vs, c, f, _, _) = subst (Calculates N conv ts) e (calc_matrices-Calculates N conv ts) in
      ap (λ xs. length xs) c
      ∙ length-converted conv vs
      ∙ sym (length-map vs (frame N))
      ∙ sym (length-map (map (frame N) vs) some)
      ∙ ap (λ xs. length xs) f
      ∙ length-map (map (update N) ts) (Option.map (frame N))
      ∙ length-map ts (update N)
