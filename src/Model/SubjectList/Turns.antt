-- ===== src/Model/SubjectList/Turns.antt =====
-- What one turn of the loops of `SubjectList::parse` (src/o3ds/model.cpp) does for a subject of each
-- class.
use open3dstream.Base.Options.{◌>>=◌}
use open3dstream.Base.{ℕ, List, Option, some, ◌≡◌, refl, sym, ap, ◌∙◌, some_eq}
use open3dstream.Numerics.{Numerics}
use open3dstream.Model.Types.{Transform, Kind, performer, rigidbody, camera, Subject}
use open3dstream.Model.Wire.{WireSubject, WireUpdate}
use open3dstream.Model.Subject.{serialize, parse, parse_nodes}
use open3dstream.Model.Update.{serialize_update, parse_update}
use open3dstream.Model.Tracking.{Tracks, update-Tracks}
use open3dstream.Model.RoundTrip.{subject-copy}
use open3dstream.Model.Bodies.{
  serialize_performer, serialize_performer_update, parse_performer, parse_performer_update,
  serialize_rigidbody, serialize_rigidbody_update, parse_rigidbody, parse_rigidbody_update,
}
use open3dstream.Model.Camera.{
  bind-some, with_film_back, with_focus, serialize_camera, serialize_camera_update, parse_camera,
  parse_camera_update,
}
use open3dstream.Model.SubjectList.{change_subject, change_or_add}
use open3dstream.Model.SubjectList.Lookup.{
  lookup, lookup-uuid, Sets, change_subject-Sets, change_or_add-Sets,
}
use open3dstream.Model.SubjectList.Receive.{
  read_performer, read_performer_update, read_rigidbody, read_rigidbody_update, read_camera,
  read_camera_update,
}
use open3dstream.Model.SubjectList.Stages.{Advance}

module _ (N : Numerics) where
  open N use {F}

  parse_kind :
      (fresh : Transform F) (w : WireSubject F) (s u : Subject F)
      → parse N fresh w s ≡ some u
      → u.kind ≡ s.kind
  unfolding parse
  parse_kind fresh w s u e =
      let (a, _, f) = bind-some w.name _ u e in
      let (b, _, g) = bind-some w.uuid _ u f in
      let (c, _, h) = bind-some w.nodes _ u g in
      let (d, _, i) = bind-some (parse_nodes N fresh c) _ u h in
      ap (λ (x : Subject F). x.kind) (sym (some_eq i))

  -- What an update leaves as it was.
  abbrev Alike : Subject F → Subject F → Type 0
  Alike s u = (u.kind ≡ s.kind) × (u.uuid ≡ s.uuid) × (u.name ≡ s.name)

  update-Alike : (w : WireUpdate F) (s u : Subject F) → parse_update N w s ≡ some u → Alike s u
  unfolding parse_update
  update-Alike w s u e =
      let (a, _, f) = bind-some w.uuid _ u e in
      let (b, _, g) = bind-some w.translation _ u f in
      let (c, _, h) = bind-some w.rotation _ u g in
      let (d, _, i) = bind-some w.scale _ u h in
      (
        ap (λ (x : Subject F). x.kind) (sym (some_eq i)),
        ap (λ (x : Subject F). x.uuid) (sym (some_eq i)),
        ap (λ (x : Subject F). x.name) (sym (some_eq i)),
      )

  -- A subject that the receiver has for the sender's `s`, with the transforms `ts` noted as sent.
  abbrev pub Mirror : List (Transform F) → Subject F → Option (Subject F) → Type 0
  Mirror ts s o =
      (t : Subject F) × (o ≡ some t)
      × (t.kind ≡ s.kind)
      × (t.name ≡ s.name)
      × Tracks N ts t.transforms

  -- The receiver may have a subject for `s`, but not of another class.
  abbrev pub Waiting : Subject F → Option (Subject F) → Type 0
  Waiting s o = (t : Subject F) → o ≡ some t → t.kind ≡ s.kind

  abbrev Parses : Subject F → (Subject F → Option (Subject F)) → Type 0
  Parses s f =
      (r : Subject F)
      → (u : Subject F) × (f r ≡ some u)
        × (u.kind ≡ r.kind)
        × (u.uuid ≡ s.uuid)
        × (u.name ≡ s.name)
        × Tracks N (serialize N s).1.transforms u.transforms

  abbrev Updates :
      List (Transform F) → List (Transform F) → (Subject F → Option (Subject F)) → Type 0
  Updates ts us f =
      (r : Subject F)
      → Tracks N ts r.transforms
      → (v : Subject F) × (f r ≡ some v) × Alike r v × Tracks N us v.transforms

  subject-Parses :
      (fresh : Transform F) (s : Subject F) → Parses s (parse N fresh (serialize N s).0)
  subject-Parses fresh s r =
      let (u, p, a, b, _, t) = subject-copy N fresh s r in
      (u, p, parse_kind fresh (serialize N s).0 r u p, b, a, t)

  subject-Updates :
      (threshold : F) (n : ℕ) (s : Subject F)
      → Updates s.transforms
          (serialize_update N threshold n s).2.transforms
          (parse_update N (serialize_update N threshold n s).0)
  subject-Updates threshold n s r h =
      let (v, q, t, _) = update-Tracks N threshold n s r h in
      (v, q, update-Alike (serialize_update N threshold n s).0 r v q, t)

  -- A turn of a loop over full subjects, and of one over updates.
  fills :
      (k : Kind) (s : Subject F) (f : Subject F → Option (Subject F)) (rs : List (Subject F))
      → s.kind ≡ k
      → Parses s f
      → Waiting s (lookup N s.uuid rs)
      → (t : Subject F) × (us : List (Subject F)) × (change_or_add N k s.uuid f rs ≡ some us)
        × Sets N s.uuid t rs us
        × Mirror (serialize N s).1.transforms s (some t)
  fills k s f rs e p w =
      let (t, us, q, h, (a, b, c)) =
        change_or_add-Sets N k s.uuid f
          (λ (t : Subject F).
            (t.kind ≡ s.kind)
            × (t.name ≡ s.name)
            × Tracks N (serialize N s).1.transforms t.transforms)
          rs (λ t l. w t l ∙ e)
          (λ r d. let (u, g, i, j, l, m) = p r in (u, g, j, (i ∙ d ∙ sym e, l, m))) in
      (t, us, q, h, (t, refl, a, b, c))

  changes :
      (k : Kind) (s : Subject F) (ts vs : List (Transform F)) (f : Subject F → Option (Subject F))
      (rs : List (Subject F))
      → s.kind ≡ k
      → Updates ts vs f
      → Mirror ts s (lookup N s.uuid rs)
      → (t : Subject F) × (us : List (Subject F)) × (change_subject N k s.uuid f rs ≡ some us)
        × Sets N s.uuid t rs us
        × Mirror vs s (some t)
  changes k s ts vs f rs e p (r, l, a, b, c) =
      let (v, g, (i, j, m), n) = p r c in
      let (us, q, h) =
        change_subject-Sets N k s.uuid f rs r v l (a ∙ e) g (j ∙ lookup-uuid N s.uuid rs r l) in
      (v, us, q, h, (v, refl, i ∙ a, m ∙ b, n))

  camera-Parses :
      (fresh : Transform F) (s : Subject F)
      → Parses s (parse_camera N fresh (serialize_camera N s).0)
  unfolding parse_camera serialize_camera
  camera-Parses fresh s r =
      let (u, p, a, b, c, t) = subject-Parses fresh s r in
      (
        record u {
          lens = record u.lens {
            film_back_width = s.lens.film_back_width;
            film_back_height = s.lens.film_back_height;
          };
        },
        ap (λ o. o >>= with_film_back N s.lens) p,
        a,
        b,
        c,
        t,
      )

  camera-Updates :
      (threshold : F) (n : ℕ) (s : Subject F)
      → Updates s.transforms
          (serialize_update N threshold n s).2.transforms
          (parse_camera_update N (serialize_camera_update N threshold n s).0)
  unfolding parse_camera_update serialize_camera_update
  camera-Updates threshold n s r h =
      let (v, q, a, t) = subject-Updates threshold n s r h in
      (
        record v {
          lens = record v.lens {
            focal_length = s.lens.focal_length;
            focus_distance = s.lens.focus_distance;
            aperture = s.lens.aperture;
          };
        },
        ap (λ o. o >>= with_focus N s.lens) q,
        a,
        t,
      )

  pub performer_turn :
      (fresh : Kind → Transform F) (s : Subject F)
      → s.kind ≡ performer
      → Advance N
          (read_performer N fresh)
          s.uuid
          (Waiting s)
          (Mirror (serialize N s).1.transforms s)
          (some (serialize_performer N s).0)
  unfolding read_performer serialize_performer parse_performer serialize
  performer_turn fresh s e rs w =
      fills performer s (parse_performer N (fresh performer) (serialize_performer N s).0) rs e
        (subject-Parses (fresh performer) s) w

  pub performer_update_turn :
      (threshold : F) (n : ℕ) (s : Subject F)
      → s.kind ≡ performer
      → Advance N
          (read_performer_update N)
          s.uuid
          (Mirror s.transforms s)
          (Mirror (serialize_update N threshold n s).2.transforms s)
          (some (serialize_performer_update N threshold n s).0)
  unfolding read_performer_update serialize_performer_update parse_performer_update serialize_update
  performer_update_turn threshold n s e rs m =
      changes performer s s.transforms (serialize_update N threshold n s).2.transforms
        (parse_performer_update N (serialize_performer_update N threshold n s).0) rs e
        (subject-Updates threshold n s) m

  pub rigidbody_turn :
      (fresh : Kind → Transform F) (s : Subject F)
      → s.kind ≡ rigidbody
      → Advance N
          (read_rigidbody N fresh)
          s.uuid
          (Waiting s)
          (Mirror (serialize N s).1.transforms s)
          (some (serialize_rigidbody N s).0)
  unfolding read_rigidbody serialize_rigidbody parse_rigidbody serialize
  rigidbody_turn fresh s e rs w =
      fills rigidbody s (parse_rigidbody N (fresh rigidbody) (serialize_rigidbody N s).0) rs e
        (subject-Parses (fresh rigidbody) s) w

  pub rigidbody_update_turn :
      (threshold : F) (n : ℕ) (s : Subject F)
      → s.kind ≡ rigidbody
      → Advance N
          (read_rigidbody_update N)
          s.uuid
          (Mirror s.transforms s)
          (Mirror (serialize_update N threshold n s).2.transforms s)
          (some (serialize_rigidbody_update N threshold n s).0)
  unfolding read_rigidbody_update serialize_rigidbody_update parse_rigidbody_update serialize_update
  rigidbody_update_turn threshold n s e rs m =
      changes rigidbody s s.transforms (serialize_update N threshold n s).2.transforms
        (parse_rigidbody_update N (serialize_rigidbody_update N threshold n s).0) rs e
        (subject-Updates threshold n s) m

  pub camera_turn :
      (fresh : Kind → Transform F) (s : Subject F)
      → s.kind ≡ camera
      → Advance N
          (read_camera N fresh)
          s.uuid
          (Waiting s)
          (Mirror (serialize N s).1.transforms s)
          (some (serialize_camera N s).0)
  unfolding read_camera serialize_camera parse_camera serialize
  camera_turn fresh s e rs w =
      fills camera s (parse_camera N (fresh camera) (serialize_camera N s).0) rs e
        (camera-Parses (fresh camera) s) w

  pub camera_update_turn :
      (threshold : F) (n : ℕ) (s : Subject F)
      → s.kind ≡ camera
      → Advance N
          (read_camera_update N)
          s.uuid
          (Mirror s.transforms s)
          (Mirror (serialize_update N threshold n s).2.transforms s)
          (some (serialize_camera_update N threshold n s).0)
  unfolding read_camera_update serialize_camera_update parse_camera_update serialize_update
  camera_update_turn threshold n s e rs m =
      changes camera s s.transforms (serialize_update N threshold n s).2.transforms
        (parse_camera_update N (serialize_camera_update N threshold n s).0) rs e
        (camera-Updates threshold n s) m
