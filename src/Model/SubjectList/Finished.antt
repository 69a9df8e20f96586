-- ===== src/Model/SubjectList/Finished.antt =====
-- The last checks of `SubjectList::parse` (src/o3ds/model.cpp) leave a receiver what it has read.
use Prim.Native.String.{String}
use mathlib.Core.Path.{subst}
use open3dstream.Base.Strings.{same_text}
use open3dstream.Base.{
  List, [], ◌∷◌, Option, some, Bool, true, false, ◌≡◌, refl, sym, ap, ◌∙◌, inl, inr, Bool-cases,
  some_eq,
}
use open3dstream.Numerics.{Numerics}
use open3dstream.Context.Conversion.{ConversionContext}
use open3dstream.Model.Types.{
  Vector, Rotation, Transform, Message, Kind, plain, performer, rigidbody, camera, Subject,
}
use open3dstream.Model.Hierarchy.{Outcome, done, failed, fault, calc_matrices}
use open3dstream.Model.Hierarchy.Kept.{IsKept, calculated-field, calculated-length}
use open3dstream.Model.Camera.{bind-some}
use open3dstream.Model.Items.{with_matrices, list_finite, subject_matrices, list_matrices}
use open3dstream.Model.Tracking.{Tracks}
use open3dstream.Model.SubjectList.{SubjectList}
use open3dstream.Model.SubjectList.Lookup.{lookup}
use open3dstream.Model.SubjectList.Receive.{finish_parse}
use open3dstream.Model.SubjectList.Follow.{When, Mirrored, Mirrors}
use open3dstream.Model.SubjectList.Packets.{list_finite-kept}
use open3dstream.Model.SubjectList.Turns.{Mirror}

module _ (N : Numerics) where
  open N use {F}

  abbrev pub sent_values : Transform F → Vector F × Rotation F
  sent_values t = (t.translation, t.rotation)

  values-IsKept : IsKept N sent_values
  values-IsKept = record { by_update = λ t m. refl; by_frame = λ t. refl; by_convert = λ c t. refl }

  -- The matrices are calculated, and the values are as they were.
  calculated-Tracks :
      (conv : Option (ConversionContext N)) (ss ts us : List (Transform F))
      → calc_matrices N conv ts ≡ done us
      → Tracks N ss ts
      → Tracks N ss us
  calculated-Tracks conv ss ts us e h = (
    calculated-length N conv ts us e ∙ h.0,
    λ k s u g x.
        let (t, a, b) = calculated-field N sent_values values-IsKept conv ts us k u e x in
        let (c, d) = h.1 k s t g a in
        (
          sym (ap (λ (p : Vector F × Rotation F). p.0.value) b) ∙ c,
          sym (ap (λ (p : Vector F × Rotation F). p.1.value) b) ∙ d,
        ),
  )

  -- A subject with its matrices calculated.
  abbrev Redone : Subject F → Subject F → Type 0
  Redone s u =
      (u.uuid ≡ s.uuid)
      × (u.kind ≡ s.kind)
      × (u.name ≡ s.name)
      × ((ts : List (Transform F)) → Tracks N ts s.transforms → Tracks N ts u.transforms)

  outcome-Redone :
      (conv : Option (ConversionContext N)) (s u : Subject F) (r : Outcome F)
      → calc_matrices N conv s.transforms ≡ r
      → with_matrices N s r ≡ some (true, u)
      → Redone s u
  outcome-Redone conv s u (done ts) e h =
      subst (Redone s) (ap (λ (p : Bool × Subject F). p.1) (some_eq h))
        (refl, refl, refl, λ ss t. calculated-Tracks conv ss s.transforms ts e t)
  outcome-Redone conv s u (failed m ts) e h =
      absurd cc (ap (λ (p : Bool × Subject F). p.0) (some_eq h))
  outcome-Redone conv s u fault e h = absurd cc

  subject-Redone :
      (conv : Option (ConversionContext N)) (s u : Subject F)
      → subject_matrices N conv s ≡ some (true, u)
      → Redone s u
  unfolding subject_matrices
  subject-Redone conv s u e = outcome-Redone conv s u (calc_matrices N conv s.transforms) refl e

  abbrev AllRedone : List (Subject F) → List (Subject F) → Type 0
  AllRedone [] [] = Unit {0}
  AllRedone [] (u ∷ us) = ⊥
  AllRedone (s ∷ ss) [] = ⊥
  AllRedone (s ∷ ss) (u ∷ us) = Redone s u × AllRedone ss us

  abbrev Listed : Type 0
  Listed = Bool × Message × List (Subject F)

  list-Redone :
      (conv : Option (ConversionContext N)) (ss us : List (Subject F)) (e : Message)
      → list_matrices N conv ss ≡ some (true, e, us)
      → AllRedone ss us
  unfolding list_matrices
  list-Redone conv [] us e h = subst (AllRedone []) (ap (λ (p : Listed). p.2) (some_eq h)) tt
  list-Redone conv (s ∷ ss) us e h =
      let ((b, u), g, i) = bind-some (subject_matrices N conv s) _ (true, e, us) h in
      elim (Bool-cases b) [
        | inr z ↦ absurd cc (rw (z) at i)
        | inl y ↦
            let ((c, m, vs), j, k) =
              bind-some (list_matrices N conv ss) _ (true, e, us) (rw (y) at i) in
            let d : c ≡ true = ap (λ (p : Listed). p.0) (some_eq k) in
            subst (AllRedone (s ∷ ss)) (ap (λ (p : Listed). p.2) (some_eq k)) (
              subject-Redone conv s u (g ∙ ap (λ x. some (x, u)) y),
              list-Redone conv ss vs m (j ∙ ap (λ x. some (x, m, vs)) d),
            )
      ]

  lookup-Redone :
      (v : String) (ss us : List (Subject F)) (t : Subject F)
      → AllRedone ss us
      → lookup N v ss ≡ some t
      → (u : Subject F) × (lookup N v us ≡ some u) × Redone t u
  unfolding lookup
  lookup-Redone v [] us t h e = absurd cc
  lookup-Redone v (s ∷ ss) [] t h e = absurd h
  lookup-Redone v (s ∷ ss) (u ∷ us) t h e = elim (Bool-cases (same_text s.uuid v)) [
    | inl y ↦
        let b : same_text u.uuid v ≡ true = ap (λ x. same_text x v) h.0.0 ∙ y in
        (u, rw (b, lookup) refl, subst (λ x. Redone x u) (some_eq (rw (y, lookup) at e)) h.0)
    | inr z ↦
        let b : same_text u.uuid v ≡ false = ap (λ x. same_text x v) h.0.0 ∙ z in
        let (w, g, r) = lookup-Redone v ss us t h.1 (rw (z, lookup) at e) in
        (w, rw (b, lookup) g, r)
  ]

  redone-Mirror :
      (ts : List (Transform F)) (s : Subject F) (rs us : List (Subject F))
      → AllRedone rs us
      → Mirror N ts s (lookup N s.uuid rs)
      → Mirror N ts s (lookup N s.uuid us)
  redone-Mirror ts s rs us h (t, l, a, b, c) =
      let (u, g, (d, e, f, k)) = lookup-Redone s.uuid rs us t h l in (u, g, e ∙ a, f ∙ b, k ts c)

  redone-Mirrored :
      (b : Bool) (k : Kind) (s : Subject F) (rs us : List (Subject F))
      → AllRedone rs us
      → When b (Mirrored N k s (lookup N s.uuid rs))
      → When b (Mirrored N k s (lookup N s.uuid us))
  redone-Mirrored false k s rs us h m = m
  redone-Mirrored true plain s rs us h m = m
  redone-Mirrored true performer s rs us h m = redone-Mirror s.transforms s rs us h m
  redone-Mirrored true rigidbody s rs us h m = redone-Mirror s.transforms s rs us h m
  redone-Mirrored true camera s rs us h m = redone-Mirror s.transforms s rs us h m

  redone-Mirrors :
      (ss rs us : List (Subject F)) → AllRedone rs us → Mirrors N ss rs → Mirrors N ss us
  redone-Mirrors [] rs us h m = tt
  redone-Mirrors (s ∷ ss) rs us h m =
      (redone-Mirrored s.enabled s.kind s rs us h m.0, redone-Mirrors ss rs us h m.1)

  -- If the last step of `parse`, the check for finite numbers and the matrices, answers yes, then
  -- whatever subjects the receiver had as a sender noted them to be sent, it still has so.
  pub finish_parse-Mirrors :
      (ss : List (Subject F)) (l r : SubjectList N)
      → finish_parse N l ≡ some (true, r)
      → Mirrors N ss l.items
      → Mirrors N ss r.items
  unfolding finish_parse
  finish_parse-Mirrors ss l r e m = elim (Bool-cases (list_finite N l.items).0) [
    | inr z ↦ absurd cc (rw (z, finish_parse) at e)
    | inl y ↦
        let ((b, x, us), g, i) =
          bind-some (list_matrices N l.conversion (list_finite N l.items).2) _ (true, r)
            (rw (y, finish_parse) at e) in
        let c : b ≡ true = ap (λ (p : Bool × SubjectList N). p.0) (some_eq i) in
        let d : us ≡ r.items = ap (λ (p : Bool × SubjectList N). p.1.items) (some_eq i) in
        subst (Mirrors N ss) d (
          redone-Mirrors ss l.items us
            (list-Redone l.conversion l.items us x (
              ap (λ ts. list_matrices N l.conversion ts) (sym (list_finite-kept N l.items y))
              ∙ g
              ∙ ap (λ z. some (z, x, us)) c))
            m)
  ]
