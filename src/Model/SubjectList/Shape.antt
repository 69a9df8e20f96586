-- ===== src/Model/SubjectList/Shape.antt =====
-- What a packet with updates only cannot change at a receiver (src/o3ds/model.cpp).
use Prim.Native.String.{String}
use open3dstream.Base.Strings.{same_text}
use open3dstream.Base.{
  List, [], ◌∷◌, Option, some, none, Bool, get_elem?, map, map-set, ◌≡◌, refl, sym, ap, ◌∙◌, inl,
  inr, Bool-cases, Option-cases, some_eq,
}
use open3dstream.Base.Int.{ℤ, pos, negsuc}
use open3dstream.Numerics.{Matrix, Numerics}
use open3dstream.Model.Types.{Component, Transform, Kind, performer, rigidbody, camera, Subject}
use open3dstream.Model.Wire.{WireUpdate, Changed}
use open3dstream.Model.Update.{
  modify, apply, put_translation, put_rotation, put_scale, parse_update,
}
use open3dstream.Model.Bodies.{
  WirePerformerUpdate, WireRigidbodyUpdate, parse_performer_update, parse_rigidbody_update,
}
use open3dstream.Model.Camera.{bind-some, WireCameraUpdate, parse_camera_update}
use open3dstream.Model.SubjectList.{Root, same_kind, change_subject, each, each_of}
use open3dstream.Model.SubjectList.Receive.{
  read_performer, read_rigidbody, read_camera, read_performer_update, read_rigidbody_update,
  read_camera_update, read_subjects,
}

module _ (N : Numerics) where
  open N use {F}

  -- What a transform is, and what a subject is, whatever its values.
  abbrev pub Node : Type 0
  Node = String × ℤ × List Component × List (Matrix F)

  abbrev pub node : Transform F → Node
  node t = (t.name, t.parent, t.order, t.matrices)

  pub record Form : Type 0 where
    pub kind : Kind
    pub uuid : String
    pub name : String
    pub enabled : Bool
    pub nodes : List Node

  abbrev pub form : Subject F → Form
  form s = record {
    kind = s.kind;
    uuid = s.uuid;
    name = s.name;
    enabled = s.enabled;
    nodes = map node s.transforms;
  }

  node-modify :
      (f : Transform F → Transform F) (z : ℤ) (ts : List (Transform F))
      → ((t : Transform F) → node (f t) ≡ node t)
      → map node (modify N f z ts) ≡ map node ts
  unfolding modify
  node-modify f (negsuc n) ts h = refl
  node-modify f (pos n) ts h = elim (Option-cases (get_elem? ts n)) [
    | inl e ↦ rw (e, modify) refl
    | inr (t, e) ↦ rw (e, modify) (map-set node ts n t (f t) e (h t))
  ]

  node-apply :
      {A : Type 0} (f : A → Transform F → Transform F) (us : List (Changed A))
      (ts : List (Transform F))
      → ((a : A) (t : Transform F) → node (f a t) ≡ node t)
      → map node (apply N f us ts) ≡ map node ts
  unfolding apply
  node-apply f [] ts h = refl
  node-apply f (u ∷ us) ts h =
      node-apply f us (modify N (f u.value) u.i ts) h ∙ node-modify (f u.value) u.i ts (h u.value)

  update-form : (w : WireUpdate F) (s u : Subject F) → parse_update N w s ≡ some u → form u ≡ form s
  unfolding parse_update
  update-form w s u e =
      let (a, _, f) = bind-some w.uuid _ u e in
      let (b, _, g) = bind-some w.translation _ u f in
      let (c, _, h) = bind-some w.rotation _ u g in
      let (d, _, i) = bind-some w.scale _ u h in
      let ts = apply N (put_translation N) b s.transforms in
      sym (ap form (some_eq i))
      ∙ ap (λ xs. record (form s) { nodes = xs })
          (node-apply (put_scale N) d (apply N (put_rotation N) c ts) (λ v t. refl)
            ∙ node-apply (put_rotation N) c ts (λ v t. refl)
            ∙ node-apply (put_translation N) b s.transforms (λ v t. refl))

  change_subject-form :
      (k : Kind) (uuid : String) (f : Subject F → Option (Subject F)) (ss us : List (Subject F))
      → ((s u : Subject F) → f s ≡ some u → form u ≡ form s)
      → change_subject N k uuid f ss ≡ some us
      → map form us ≡ map form ss
  unfolding change_subject
  change_subject-form k uuid f [] us h e = ap (λ xs. map form xs) (sym (some_eq e))
  change_subject-form k uuid f (s ∷ ss) us h e = elim (Bool-cases (same_text s.uuid uuid)) [
    | inl y ↦ elim (Bool-cases (same_kind s.kind k)) [
      | inl x ↦
          let (t, a, b) = bind-some (f s) _ us (rw (y, x, change_subject) at e) in
          ap (λ xs. map form xs) (sym (some_eq b)) ∙ ap (λ x. x ∷ map form ss) (h s t a)
      | inr z ↦ ap (λ xs. map form xs) (sym (some_eq (rw (y, z, change_subject) at e)))
    ]
    | inr z ↦
        let (vs, a, b) =
          bind-some (change_subject N k uuid f ss) _ us (rw (z, change_subject) at e) in
        ap (λ xs. map form xs) (sym (some_eq b))
        ∙ ap (λ xs. form s ∷ xs) (change_subject-form k uuid f ss vs h a)
  ]

  each_of-form :
      {W : Type 0} (f : W → List (Subject F) → Option (List (Subject F))) (o : Option (List W))
      (ss us : List (Subject F))
      → ((w : W) (xs ys : List (Subject F)) → f w xs ≡ some ys → map form ys ≡ map form xs)
      → each_of N f o ss ≡ some us
      → map form us ≡ map form ss
  unfolding each_of each
  each_of-form f none ss us h e = ap (λ xs. map form xs) (sym (some_eq e))
  each_of-form f (some []) ss us h e = ap (λ xs. map form xs) (sym (some_eq e))
  each_of-form f (some (w ∷ ws)) ss us h e =
      let (vs, a, b) = bind-some (f w ss) _ us e in each_of-form f (some ws) vs us h b ∙ h w ss vs a

  performer-form :
      (w : WirePerformerUpdate F) (ss us : List (Subject F))
      → read_performer_update N w ss ≡ some us
      → map form us ≡ map form ss
  unfolding read_performer_update parse_performer_update
  performer-form w ss us e =
      let (d, _, f) = bind-some w.data_of _ us e in
      let (uuid, _, g) = bind-some d.uuid _ us f in
      change_subject-form performer uuid (parse_performer_update N w) ss us (kept w) g
    where
      kept :
          (w : WirePerformerUpdate F) (s u : Subject F)
          → parse_performer_update N w s ≡ some u
          → form u ≡ form s
      kept w s u e = let (d, _, f) = bind-some w.data_of _ u e in update-form d s u f

  rigidbody-form :
      (w : WireRigidbodyUpdate F) (ss us : List (Subject F))
      → read_rigidbody_update N w ss ≡ some us
      → map form us ≡ map form ss
  unfolding read_rigidbody_update parse_rigidbody_update
  rigidbody-form w ss us e =
      let (d, _, f) = bind-some w.data_of _ us e in
      let (uuid, _, g) = bind-some d.uuid _ us f in
      change_subject-form rigidbody uuid (parse_rigidbody_update N w) ss us (kept w) g
    where
      kept :
          (w : WireRigidbodyUpdate F) (s u : Subject F)
          → parse_rigidbody_update N w s ≡ some u
          → form u ≡ form s
      kept w s u e = let (d, _, f) = bind-some w.data_of _ u e in update-form d s u f

  camera-form :
      (w : WireCameraUpdate F) (ss us : List (Subject F))
      → read_camera_update N w ss ≡ some us
      → map form us ≡ map form ss
  unfolding read_camera_update parse_camera_update
  camera-form w ss us e =
      let (d, _, f) = bind-some w.data_of _ us e in
      let (uuid, _, g) = bind-some d.uuid _ us f in
      change_subject-form camera uuid (parse_camera_update N w) ss us (kept w) g
    where
      kept :
          (w : WireCameraUpdate F) (s u : Subject F)
          → parse_camera_update N w s ≡ some u
          → form u ≡ form s
      kept w s u e =
          let (d, _, f) = bind-some w.data_of _ u e in
          let (v, a, g) = bind-some (parse_update N d s) _ u f in
          sym (ap form (some_eq g)) ∙ update-form d s v a

  each_of-absent :
      {W : Type 0} (f : W → List (Subject F) → Option (List (Subject F))) (o : Option (List W))
      (ss us : List (Subject F))
      → o ≡ none
      → each_of N f o ss ≡ some us
      → map form us ≡ map form ss
  unfolding each_of
  each_of-absent f none ss us p e = ap (λ xs. map form xs) (sym (some_eq e))
  each_of-absent f (some ws) ss us p e = absurd cc

  -- A root without the three vectors of full subjects, whatever else is in it: if the loops of
  -- `parse` go through it, the receiver has as many subjects as before, in the same order, each of
  -- the same class, with the same id and name, enabled as before, and with the same transforms, by
  -- their names, parents, components, and matrices that were given.
  pub read_subjects-form :
      (fresh : Kind → Transform F) (root : Root F) (ss us : List (Subject F))
      → root.performers ≡ none
      → root.rigidbodies ≡ none
      → root.cameras ≡ none
      → read_subjects N fresh root ss ≡ some us
      → map form us ≡ map form ss
  unfolding read_subjects
  read_subjects-form fresh root ss us p q r e =
      let (s1, a, f1) = bind-some (each_of N (read_performer N fresh) root.performers ss) _ us e in
      let (s2, b, f2) =
        bind-some (each_of N (read_performer_update N) root.performer_updates s1) _ us f1 in
      let (s3, c, f3) =
        bind-some (each_of N (read_rigidbody N fresh) root.rigidbodies s2) _ us f2 in
      let (s4, d, f4) =
        bind-some (each_of N (read_rigidbody_update N) root.rigidbody_updates s3) _ us f3 in
      let (s5, g, f5) = bind-some (each_of N (read_camera N fresh) root.cameras s4) _ us f4 in
      each_of-form (read_camera_update N) root.camera_updates s5 us camera-form f5
      ∙ each_of-absent (read_camera N fresh) root.cameras s4 s5 r g
      ∙ each_of-form (read_rigidbody_update N) root.rigidbody_updates s3 s4 rigidbody-form d
      ∙ each_of-absent (read_rigidbody N fresh) root.rigidbodies s2 s3 q c
      ∙ each_of-form (read_performer_update N) root.performer_updates s1 s2 performer-form b
      ∙ each_of-absent (read_performer N fresh) root.performers ss s1 p a
