-- ===== src/Model/SubjectList/Stages.antt =====
-- A loop of `SubjectList::parse` (src/o3ds/model.cpp) over what the subjects of a sender put into one
-- vector of the root: how far each subject has come at the receiver before and after it.
use Prim.Native.String.{String}
use mathlib.Core.Path.{subst}
use open3dstream.Base.Options.{◌>>=◌}
use open3dstream.Base.{
  List, [], ◌∷◌, Option, some, none, ◌≡◌, ◌≢◌, refl, sym, ap, ◌∙◌, inl, inr, Option-cases,
}
use open3dstream.Numerics.{Numerics}
use open3dstream.Model.Types.{Subject}
use open3dstream.Model.Subject.{consider}
use open3dstream.Model.SubjectList.{each}
use open3dstream.Model.SubjectList.Lookup.{lookup, Sets}

abbrev pub All {ℓ κ} : {A : Type ℓ} → (A → Type κ) → List A → Type κ
All P [] = Unit
All P (x ∷ xs) = P x × All P xs

pub All-map {ℓ κ μ} :
    {A : Type ℓ} (P : A → Type κ) (Q : A → Type μ) (xs : List A)
    → ((x : A) → P x → Q x)
    → All P xs
    → All Q xs
All-map P Q [] f h = tt
All-map P Q (x ∷ xs) f h = (f x h.0, All-map P Q xs f h.1)

abbrev pub picks {ℓ κ} : {A : Type ℓ} {B : Type κ} → (A → Option B) → List A → List B
picks g [] = []
picks g (x ∷ xs) = consider (g x) (picks g xs)

module _ (N : Numerics) where
  open N use {F}

  -- No two subjects have the same id.
  abbrev pub Distinct : List (Subject F) → Type 0
  Distinct [] = Unit {0}
  Distinct (s ∷ ss) = All (λ (t : Subject F). s.uuid ≢ t.uuid) ss × Distinct ss

  -- How far a subject of the sender has come, by the subject that the receiver has for its id.
  abbrev pub Stage : Type 1
  Stage = Subject F → Option (Subject F) → Type 0

  abbrev pub AllAt : Stage → List (Subject F) → List (Subject F) → Type 0
  AllAt P ss rs = All (λ (s : Subject F). P s (lookup N s.uuid rs)) ss

  -- What a loop does for a subject of the sender: nothing, or one turn.
  abbrev pub Advance :
      {W : Type 0}
      → (W → List (Subject F) → Option (List (Subject F)))
      → String
      → (Option (Subject F) → Type 0)
      → (Option (Subject F) → Type 0)
      → Option W
      → Type 0
  Advance body u P Q none = (o : Option (Subject F)) → P o → Q o
  Advance body u P Q (some w) =
      (rs : List (Subject F))
      → P (lookup N u rs)
      → (t : Subject F) × (us : List (Subject F)) × (body w rs ≡ some us)
        × Sets N u t rs us
        × Q (some t)

  module _ {W : Type 0} (body : W → List (Subject F) → Option (List (Subject F)))
      (P Q : Stage) where
    -- The whole loop, and what it leaves as it was.
    abbrev pub Arrives : List (Subject F) → List (Subject F) → Option (List (Subject F)) → Type 0
    Arrives ss rs r =
        (us : List (Subject F)) × (r ≡ some us)
        × AllAt Q ss us
        × ((v : String) → All (λ (s : Subject F). v ≢ s.uuid) ss → lookup N v us ≡ lookup N v rs)

    untouched :
        (u : String) (t : Subject F) (ss rs us : List (Subject F))
        → Sets N u t rs us
        → All (λ (s : Subject F). u ≢ s.uuid) ss
        → AllAt P ss rs
        → AllAt P ss us
    untouched u t [] rs us h d p = tt
    untouched u t (s ∷ ss) rs us h d p = (
      subst (P s) (sym (h.others s.uuid (λ e. d.0 (sym e)))) p.0,
      untouched u t ss rs us h d.1 p.1,
    )

    pub each-Arrives :
        (g : Subject F → Option W) (ss rs : List (Subject F))
        → ((s : Subject F) → Advance body s.uuid (P s) (Q s) (g s))
        → Distinct ss
        → AllAt P ss rs
        → Arrives ss rs (each N body (picks g ss) rs)
    unfolding each
    each-Arrives g [] rs a d p = (rs, refl, tt, λ v h. refl)
    each-Arrives g (s ∷ ss) rs a d p = elim (Option-cases (g s)) [
      | inl e ↦
          let (us, r, q, f) = each-Arrives g ss rs a d.1 p.1 in
          (
            us,
            ap (λ o. each N body (consider o (picks g ss)) rs) e ∙ r,
            (
              subst (Q s) (sym (f s.uuid d.0))
                  (subst (Advance body s.uuid (P s) (Q s)) e (a s) (lookup N s.uuid rs) p.0),
              q,
            ),
            λ v h. f v h.1,
          )
      | inr (w, e) ↦
          let (t, ts, b, c, k) = subst (Advance body s.uuid (P s) (Q s)) e (a s) rs p.0 in
          let (us, r, q, f) = each-Arrives g ss ts a d.1 (untouched s.uuid t ss rs ts c d.0 p.1) in
          (
            us,
            ap (λ o. each N body (consider o (picks g ss)) rs) e
                ∙ ap (λ o. o >>= each N body (picks g ss)) b
                ∙ r,
            (subst (Q s) (sym (f s.uuid d.0 ∙ c.found)) k, q),
            λ v h. f v h.1 ∙ c.others v h.0,
          )
    ]
