-- ===== src/Model/SubjectList/Changes.antt =====
-- An update through `SubjectList::serializeUpdate` and the loops of `SubjectList::parse` of
-- src/o3ds/model.cpp, loop by loop.
use open3dstream.Base.Options.{◌>>=◌}
use open3dstream.Base.{ℕ, List, Option, some, Bool, true, false, if◌then◌else◌, ◌≡◌, refl}
use open3dstream.Numerics.{Numerics}
use open3dstream.Model.Types.{Kind, plain, performer, rigidbody, camera, Subject}
use open3dstream.Model.Update.{serialize_update}
use open3dstream.Model.SubjectList.Lookup.{lookup}
use open3dstream.Model.SubjectList.Collected.{after}
use open3dstream.Model.SubjectList.Follow.{Mirrored, MirrorsOne, Mirrors}
use mathlib.Core.Path.{subst}
use open3dstream.Base.{map, sym, [], ◌∷◌}
use open3dstream.Model.Bodies.{serialize_performer_update, serialize_rigidbody_update}
use open3dstream.Model.Camera.{serialize_camera_update}
use open3dstream.Model.SubjectList.{each}
use open3dstream.Model.SubjectList.Send.{Parts, no_parts, update_parts_of}
use open3dstream.Model.SubjectList.Receive.{
  read_performer_update, read_rigidbody_update, read_camera_update,
}
use open3dstream.Model.SubjectList.Stages.{picks, Distinct, Stage, AllAt, Advance, each-Arrives}
use open3dstream.Model.SubjectList.Collected.{part}
use open3dstream.Model.SubjectList.Turns.{
  Mirror, performer_update_turn, rigidbody_update_turn, camera_update_turn,
}
use open3dstream.Model.SubjectList.Follow.{When}
use open3dstream.Model.SubjectList.Full.{bind_then}

module _ (N : Numerics) (threshold : N.F) where
  open N use {F}

  -- Whether the update of a subject has been read.
  abbrev Keeps : Bool → Subject F → Option (Subject F) → Type 0
  Keeps false s o = Mirror N s.transforms s o
  Keeps true s o = Mirror N (serialize_update N threshold 0 s).2.transforms s o

  abbrev ByKind : Bool → Bool → Bool → Kind → Subject F → Option (Subject F) → Type 0
  ByKind p r c plain s o = Unit {0}
  ByKind p r c performer s o = Keeps p s o
  ByKind p r c rigidbody s o = Keeps r s o
  ByKind p r c camera s o = Keeps c s o

  abbrev pub Staged : Bool → Bool → Bool → Stage N
  Staged p r c s o = When s.enabled (ByKind p r c s.kind s o)

  abbrev update_turn : Bool → Kind → Subject F → Parts F × ℕ × Subject F
  update_turn b k s = if b then update_parts_of N k threshold 0 s else (no_parts, 0, s)

  performer_moves :
      (r c : Bool) (b : Bool) (k : Kind) (s : Subject F)
      → s.kind ≡ k
      → Advance N
          (read_performer_update N)
          s.uuid
          (λ o. When b (ByKind false r c k s o))
          (λ o. When b (ByKind true r c k s o))
          (update_turn b k s).0.performer_update
  unfolding update_parts_of serialize_performer_update
  performer_moves r c false k s e = λ o h. h
  performer_moves r c true plain s e = λ o h. h
  performer_moves r c true performer s e = performer_update_turn N threshold 0 s e
  performer_moves r c true rigidbody s e = λ o h. h
  performer_moves r c true camera s e = λ o h. h

  rigidbody_moves :
      (p c : Bool) (b : Bool) (k : Kind) (s : Subject F)
      → s.kind ≡ k
      → Advance N
          (read_rigidbody_update N)
          s.uuid
          (λ o. When b (ByKind p false c k s o))
          (λ o. When b (ByKind p true c k s o))
          (update_turn b k s).0.rigidbody_update
  unfolding update_parts_of serialize_rigidbody_update
  rigidbody_moves p c false k s e = λ o h. h
  rigidbody_moves p c true plain s e = λ o h. h
  rigidbody_moves p c true performer s e = λ o h. h
  rigidbody_moves p c true rigidbody s e = rigidbody_update_turn N threshold 0 s e
  rigidbody_moves p c true camera s e = λ o h. h

  camera_moves :
      (p r : Bool) (b : Bool) (k : Kind) (s : Subject F)
      → s.kind ≡ k
      → Advance N
          (read_camera_update N)
          s.uuid
          (λ o. When b (ByKind p r false k s o))
          (λ o. When b (ByKind p r true k s o))
          (update_turn b k s).0.camera_update
  unfolding update_parts_of serialize_camera_update
  camera_moves p r false k s e = λ o h. h
  camera_moves p r true plain s e = λ o h. h
  camera_moves p r true performer s e = λ o h. h
  camera_moves p r true rigidbody s e = λ o h. h
  camera_moves p r true camera s e = camera_update_turn N threshold 0 s e

  abbrev pub picked {ℓ} : {B : Type ℓ} → (Parts F → Option B) → List (Subject F) → List B
  picked g ss = picks (λ (s : Subject F). g (part N (update_parts_of N) threshold s)) ss

  -- The three loops over updates.
  pub update_loops :
      (ss rs : List (Subject F))
      → Distinct N ss
      → AllAt N (Staged false false false) ss rs
      → (us : List (Subject F)) × ((each N
              (read_performer_update N)
              (picked (λ p. p.performer_update) ss)
              rs
            >>= λ s1.
                each N (read_rigidbody_update N) (picked (λ p. p.rigidbody_update) ss) s1 >>= λ s2.
                each N (read_camera_update N) (picked (λ p. p.camera_update) ss) s2)
          ≡ some us)
        × AllAt N (Staged true true true) ss us
  update_loops ss rs d h =
      let (u1, e1, h1, _) =
        each-Arrives N (read_performer_update N) (Staged false false false)
          (Staged true false false)
          (λ (s : Subject F). (part N (update_parts_of N) threshold s).performer_update) ss rs
          (λ s. performer_moves false false s.enabled s.kind s refl) d h in
      let (u2, e2, h2, _) =
        each-Arrives N (read_rigidbody_update N) (Staged true false false) (Staged true true false)
          (λ (s : Subject F). (part N (update_parts_of N) threshold s).rigidbody_update) ss u1
          (λ s. rigidbody_moves true false s.enabled s.kind s refl) d h1 in
      let (u3, e3, h3, _) =
        each-Arrives N (read_camera_update N) (Staged true true false) (Staged true true true)
          (λ (s : Subject F). (part N (update_parts_of N) threshold s).camera_update) ss u2
          (λ s. camera_moves true true s.enabled s.kind s refl) d h2 in
      (u3, bind_then _ _ u1 _ e1 (bind_then _ _ u2 _ e2 e3), h3)

  -- A subject after its turn is mirrored once its part is read.
  after-Mirrors :
      (b : Bool) (k : Kind) (s : Subject F) (rs : List (Subject F))
      → s.enabled ≡ b
      → s.kind ≡ k
      → When b (ByKind true true true k s (lookup N s.uuid rs))
      → MirrorsOne N (update_turn b k s).2 (lookup N (update_turn b k s).2.uuid rs)
  unfolding update_parts_of serialize_performer_update serialize_rigidbody_update
      serialize_camera_update serialize_update
  after-Mirrors false k s rs e f h =
      subst (λ c. When c (Mirrored N s.kind s (lookup N s.uuid rs))) (sym e) tt
  after-Mirrors true plain s rs e f h =
      subst (λ c. When c (Mirrored N s.kind s (lookup N s.uuid rs))) (sym e)
        (subst (λ j. Mirrored N j s (lookup N s.uuid rs)) (sym f) h)
  after-Mirrors true performer s rs e f h =
      subst
        (λ c. When c (Mirrored N s.kind (serialize_update N threshold 0 s).2 (lookup N s.uuid rs)))
        (sym e)
        (subst (λ j. Mirrored N j (serialize_update N threshold 0 s).2 (lookup N s.uuid rs)) (sym f)
          h)
  after-Mirrors true rigidbody s rs e f h =
      subst
        (λ c. When c (Mirrored N s.kind (serialize_update N threshold 0 s).2 (lookup N s.uuid rs)))
        (sym e)
        (subst (λ j. Mirrored N j (serialize_update N threshold 0 s).2 (lookup N s.uuid rs)) (sym f)
          h)
  after-Mirrors true camera s rs e f h =
      subst
        (λ c. When c (Mirrored N s.kind (serialize_update N threshold 0 s).2 (lookup N s.uuid rs)))
        (sym e)
        (subst (λ j. Mirrored N j (serialize_update N threshold 0 s).2 (lookup N s.uuid rs)) (sym f)
          h)

  pub all-Mirrors :
      (ss rs : List (Subject F))
      → AllAt N (Staged true true true) ss rs
      → Mirrors N (map (after N (update_parts_of N) threshold) ss) rs
  all-Mirrors [] rs h = tt
  all-Mirrors (s ∷ ss) rs h =
      (after-Mirrors s.enabled s.kind s rs refl refl h.0, all-Mirrors ss rs h.1)

  mirrors_one :
      (b : Bool) (k : Kind) (s : Subject F) (o : Option (Subject F))
      → When b (Mirrored N k s o)
      → When b (ByKind false false false k s o)
  mirrors_one false k s o h = h
  mirrors_one true plain s o h = h
  mirrors_one true performer s o h = h
  mirrors_one true rigidbody s o h = h
  mirrors_one true camera s o h = h

  pub Mirrors-Staged :
      (ss rs : List (Subject F)) → Mirrors N ss rs → AllAt N (Staged false false false) ss rs
  Mirrors-Staged [] rs h = tt
  Mirrors-Staged (s ∷ ss) rs h =
      (mirrors_one s.enabled s.kind s (lookup N s.uuid rs) h.0, Mirrors-Staged ss rs h.1)
