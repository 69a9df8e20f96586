-- ===== src/Model/SubjectList/Clash.antt =====
-- A unique id that the list of src/o3ds/model.h already has, of a subject of another class.
use Prim.Native.String.{String}
use open3dstream.Base.Options.{◌>>=◌}
use open3dstream.Base.Strings.{same_text}
use open3dstream.Base.{
  List, [], ◌∷◌, ◌++◌, Option, some, none, false, ◌≡◌, refl, ap, ◌∙◌, inl, inr, Bool-cases, some_eq,
}
use open3dstream.Numerics.{Numerics}
use open3dstream.Model.Types.{Kind, Subject}
use open3dstream.Model.SubjectList.{same_kind, added_subject, change_subject, change_or_add}
use open3dstream.Model.SubjectList.Lookup.{lookup}

module _ (N : Numerics) (k : Kind) (u : String) where
  open N use {F}

  some_then :
      {A B C : Type 0} (o : Option A) (f : A → B) (g : B → C)
      → ((o >>= λ a. some (f a)) >>= λ b. some (g b)) ≡ (o >>= λ a. some (g (f a)))
  some_then none f g = refl
  some_then (some a) f g = refl

  -- Where the first subject with an id is of another class than the one that is asked for, which is not
  -- the base class of all, `findOrAddSubject` adds one more
  -- subject with that id, at the end of the list, whatever is added behind it; and however the list
  -- goes on, an update for the class and the id changes nothing.
  pub find_or_add-Clash :
      (f g : Subject F → Option (Subject F)) (ss : List (Subject F)) (s : Subject F)
      → lookup N u ss ≡ some s
      → same_kind s.kind k ≡ false
      → (change_or_add N k u f ss ≡ (f (added_subject N k u) >>= λ t. some (ss ++ (t ∷ []))))
        × ((ts : List (Subject F)) → change_subject N k u g (ss ++ ts) ≡ some (ss ++ ts))
  unfolding lookup change_or_add change_subject
  find_or_add-Clash f g [] s e h = absurd cc
  find_or_add-Clash f g (a ∷ ss) s e h = elim (Bool-cases (same_text a.uuid u)) [
    | inl y ↦
        let b : same_kind a.kind k ≡ false =
          ap (λ (x : Subject F). same_kind x.kind k) (some_eq (rw (y, lookup) at e)) ∙ h in
        (rw (y, b, change_or_add) refl, λ ts. rw (y, b, change_subject) refl)
    | inr z ↦
        let (p, q) = find_or_add-Clash f g ss s (rw (z, lookup) at e) h in
        (
          rw (z, p, change_or_add)
              (some_then (f (added_subject N k u)) (λ t. ss ++ (t ∷ [])) (λ us. a ∷ us)),
          λ ts. rw (z, q ts, change_subject) refl,
        )
  ]
