-- ===== src/Model/SubjectList/Lookup.antt =====
-- What the changes of `SubjectList::parse` (src/o3ds/model.cpp) do to the subject with a unique id, and
-- to the others.
use Prim.Native.String.{String}
use open3dstream.Base.Options.{◌>>=◌}
use open3dstream.Base.Strings.{same_text, same_text_refl, Text-cases}
use open3dstream.Base.{
  List, [], ◌∷◌, Option, some, none, true, if◌then◌else◌, ◌≡◌, ◌≢◌, refl, sym, ap, ◌∙◌, inl, inr,
  some_eq,
}
use open3dstream.Numerics.{Numerics}
use open3dstream.Model.Types.{Kind, plain, performer, rigidbody, camera, Subject}
use open3dstream.Model.SubjectList.{same_kind, added_subject, change_subject, change_or_add}

same_kind_refl : (k : Kind) → same_kind k k ≡ true
same_kind_refl plain = refl
same_kind_refl performer = refl
same_kind_refl rigidbody = refl
same_kind_refl camera = refl

module _ (N : Numerics) where
  open N use {F}

  -- The subject that a search by the id meets first.
  unfoldable pub lookup : String → List (Subject F) → Option (Subject F)
  unfolding same_text
  lookup u [] = none
  lookup u (s ∷ ss) = if same_text s.uuid u then some s else lookup u ss

  lookup_here :
      (u : String) (s : Subject F) (ss : List (Subject F)) → s.uuid ≡ u → lookup u (s ∷ ss) ≡ some s
  unfolding lookup
  lookup_here u s ss e = rw (e, same_text_refl u, lookup) refl

  pub lookup-uuid :
      (u : String) (ss : List (Subject F)) (t : Subject F) → lookup u ss ≡ some t → t.uuid ≡ u
  unfolding lookup
  lookup-uuid u [] t e = absurd cc
  lookup-uuid u (s ∷ ss) t e = elim (Text-cases s.uuid u) [
    | inl (y, g) ↦ ap (λ (x : Subject F). x.uuid) (sym (some_eq (rw (y, lookup) at e))) ∙ g
    | inr (z, _) ↦ lookup-uuid u ss t (rw (z, lookup) at e)
  ]

  lookup_there :
      (u : String) (s : Subject F) (ss : List (Subject F))
      → s.uuid ≢ u
      → lookup u (s ∷ ss) ≡ lookup u ss
  unfolding lookup
  lookup_there u s ss n = elim (Text-cases s.uuid u) [
    | inl (y, e) ↦ absurd (n e)
    | inr (z, _) ↦ rw (z, lookup) refl
  ]

  lookup_same :
      (u v : String) (s t : Subject F) (ss : List (Subject F))
      → s.uuid ≡ u
      → t.uuid ≡ u
      → v ≢ u
      → lookup v (t ∷ ss) ≡ lookup v (s ∷ ss)
  lookup_same u v s t ss e f n =
      lookup_there v t ss (λ g. n (sym g ∙ f)) ∙ sym (lookup_there v s ss (λ g. n (sym g ∙ e)))

  -- A list in which the subject with the id `u` is `t`, and that is otherwise as the first.
  pub record Sets (u : String) (t : Subject F) (ss us : List (Subject F)) : Type 0 where
    pub found : lookup u us ≡ some t
    pub others : (v : String) → v ≢ u → lookup v us ≡ lookup v ss

  Sets-head :
      (u : String) (s t : Subject F) (ss : List (Subject F))
      → s.uuid ≡ u
      → t.uuid ≡ u
      → Sets u t (s ∷ ss) (t ∷ ss)
  Sets-head u s t ss e f = record {
    found = lookup_here u t ss f;
    others = λ v n. lookup_same u v s t ss e f n;
  }

  Sets-tail :
      (u : String) (s t : Subject F) (ss us : List (Subject F))
      → s.uuid ≢ u
      → Sets u t ss us
      → Sets u t (s ∷ ss) (s ∷ us)
  unfolding lookup
  Sets-tail u s t ss us n h = record {
    found = lookup_there u s us n ∙ h.found;
    others = λ v m. ap (λ o. if same_text s.uuid v then some s else o) (h.others v m);
  }

  -- A change of the subject that is found.
  pub change_subject-Sets :
      (k : Kind) (u : String) (f : Subject F → Option (Subject F)) (ss : List (Subject F))
      (s t : Subject F)
      → lookup u ss ≡ some s
      → s.kind ≡ k
      → f s ≡ some t
      → t.uuid ≡ u
      → (us : List (Subject F)) × (change_subject N k u f ss ≡ some us) × Sets u t ss us
  unfolding change_subject lookup
  change_subject-Sets k u f [] s t l e g h = absurd cc
  change_subject-Sets k u f (a ∷ ss) s t l e g h = elim (Text-cases a.uuid u) [
    | inl (y, p) ↦
        let b : a ≡ s = some_eq (sym (lookup_here u a ss p) ∙ l) in
        let c : same_kind a.kind k ≡ true =
          ap (λ x. same_kind x k) (ap (λ (x : Subject F). x.kind) b ∙ e) ∙ same_kind_refl k in
        (t ∷ ss, rw (y, c, b, g, change_subject) refl, Sets-head u a t ss p h)
    | inr (z, n) ↦
        let (us, q, r) = change_subject-Sets k u f ss s t (sym (lookup_there u a ss n) ∙ l) e g h in
        (a ∷ us, rw (z, q, change_subject) refl, Sets-tail u a t ss us n r)
  ]

  Sets-nil : (u : String) (t : Subject F) → t.uuid ≡ u → Sets u t [] (t ∷ [])
  Sets-nil u t e = record {
    found = lookup_here u t [] e;
    others = λ v n. lookup_there v t [] (λ g. n (sym g ∙ e));
  }

  -- A subject with the id `u`, if there is one, is of the class `k`.
  abbrev pub Fits : Kind → String → List (Subject F) → Type 0
  Fits k u ss = (s : Subject F) → lookup u ss ≡ some s → s.kind ≡ k

  -- A change that works for every subject of a class, and what it makes.
  abbrev pub Makes :
      Kind → String → (Subject F → Option (Subject F)) → (Subject F → Type 0) → Type 0
  Makes k u f P =
      (s : Subject F) → s.kind ≡ k → (t : Subject F) × (f s ≡ some t) × (t.uuid ≡ u) × P t

  -- A change of the subject that is found, or of a new one.
  pub change_or_add-Sets :
      (k : Kind) (u : String) (f : Subject F → Option (Subject F)) (P : Subject F → Type 0)
      (ss : List (Subject F))
      → Fits k u ss
      → Makes k u f P
      → (t : Subject F) × (us : List (Subject F)) × (change_or_add N k u f ss ≡ some us)
        × Sets u t ss us
        × P t
  unfolding change_or_add lookup
  change_or_add-Sets k u f P [] c m =
      let (t, e, g, p) = m (added_subject N k u) added_kind in
      (t, t ∷ [], ap (λ (o : Option (Subject F)). o >>= λ x. some (x ∷ [])) e, Sets-nil u t g, p)
    where
      added_kind : (added_subject N k u).kind ≡ k
      added_kind = refl
  change_or_add-Sets k u f P (a ∷ ss) c m = elim (Text-cases a.uuid u) [
    | inl (y, e) ↦
        let h = c a (lookup_here u a ss e) in
        let (t, g, i, p) = m a h in
        let b : same_kind a.kind k ≡ true = ap (λ x. same_kind x k) h ∙ same_kind_refl k in
        (t, t ∷ ss, rw (y, b, g, change_or_add) refl, Sets-head u a t ss e i, p)
    | inr (z, n) ↦
        let (t, us, q, r, p) =
          change_or_add-Sets k u f P ss (λ s l. c s (lookup_there u a ss n ∙ l)) m in
        (t, a ∷ us, rw (z, q, change_or_add) refl, Sets-tail u a t ss us n r, p)
  ]
