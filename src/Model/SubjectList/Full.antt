-- ===== src/Model/SubjectList/Full.antt =====
-- A full packet through `SubjectList::serialize` and the loops of `SubjectList::parse` of
-- src/o3ds/model.cpp, loop by loop.
use open3dstream.Base.Options.{◌>>=◌}
use open3dstream.Base.{ℕ, List, Option, some, Bool, true, false, if◌then◌else◌, ◌≡◌, refl, ap, ◌∙◌}
use open3dstream.Numerics.{Numerics}
use open3dstream.Model.Types.{Transform, Kind, plain, performer, rigidbody, camera, Subject}
use open3dstream.Model.Subject.{serialize}
use open3dstream.Model.Update.{serialize_update}
use open3dstream.Model.SubjectList.Lookup.{lookup}
use open3dstream.Model.SubjectList.Collected.{after}
use open3dstream.Model.SubjectList.Follow.{Mirrored, MirrorsOne, Mirrors, FitsKind, Fit}
use mathlib.Core.Path.{subst}
use open3dstream.Base.{map, sym, [], ◌∷◌}
use open3dstream.Model.Bodies.{
  serialize_performer, serialize_performer_update, serialize_rigidbody, serialize_rigidbody_update,
}
use open3dstream.Model.Camera.{serialize_camera, serialize_camera_update}
use open3dstream.Model.SubjectList.{each}
use open3dstream.Model.SubjectList.Send.{no_parts, full_parts_of, update_parts_of, Parts}
use open3dstream.Model.SubjectList.Receive.{
  read_performer, read_performer_update, read_rigidbody, read_rigidbody_update, read_camera,
  read_camera_update,
}
use open3dstream.Model.SubjectList.Stages.{picks, Distinct, Stage, AllAt, Advance, each-Arrives}
use open3dstream.Model.SubjectList.Collected.{part}
use open3dstream.Model.SubjectList.Turns.{
  Mirror, Waiting, performer_turn, performer_update_turn, rigidbody_turn, rigidbody_update_turn,
  camera_turn, camera_update_turn,
}
use open3dstream.Model.SubjectList.Follow.{When}

-- How far the subjects of a class have come while a full packet is read.
pub data Level : Type 0 where
  waiting filled updated : Level

pub bind_then {ℓ κ} :
    {A : Type ℓ} {B : Type κ} (o : Option A) (f : A → Option B) (a : A) (r : Option B)
    → o ≡ some a
    → f a ≡ r
    → (o >>= f) ≡ r
bind_then o f a r e h = ap (λ x. x >>= f) e ∙ h

module _ (N : Numerics) where
  open N use {F}

  module _ (threshold : F) where
    abbrev Reaches : Level → Subject F → Option (Subject F) → Type 0
    Reaches waiting s o = Waiting N s o
    Reaches filled s o = Mirror N (serialize N s).1.transforms s o
    Reaches updated s o =
        Mirror N (serialize_update N threshold 0 (serialize N s).1).2.transforms s o

    abbrev ByKind : Level → Level → Level → Kind → Subject F → Option (Subject F) → Type 0
    ByKind p r c plain s o = Unit {0}
    ByKind p r c performer s o = Reaches p s o
    ByKind p r c rigidbody s o = Reaches r s o
    ByKind p r c camera s o = Reaches c s o

    abbrev pub Staged : Level → Level → Level → Stage N
    Staged p r c s o = When s.enabled (ByKind p r c s.kind s o)

    abbrev full_turn : Bool → Kind → Subject F → Parts F × ℕ × Subject F
    full_turn b k s = if b then full_parts_of N k threshold 0 s else (no_parts, 0, s)

    abbrev update_turn : Bool → Kind → Subject F → Parts F × ℕ × Subject F
    update_turn b k s = if b then update_parts_of N k threshold 0 s else (no_parts, 0, s)

    performer_full :
        (fresh : Kind → Transform F) (r c : Level) (b : Bool) (k : Kind) (s : Subject F)
        → s.kind ≡ k
        → Advance N
            (read_performer N fresh)
            s.uuid
            (λ o. When b (ByKind waiting r c k s o))
            (λ o. When b (ByKind filled r c k s o))
            (full_turn b k s).0.performer
    unfolding full_parts_of serialize serialize_performer serialize_performer_update
    performer_full fresh r c false k s e = λ o h. h
    performer_full fresh r c true plain s e = λ o h. h
    performer_full fresh r c true performer s e = performer_turn N fresh s e
    performer_full fresh r c true rigidbody s e = λ o h. h
    performer_full fresh r c true camera s e = λ o h. h

    performer_again :
        (r c : Level) (b : Bool) (k : Kind) (s : Subject F)
        → s.kind ≡ k
        → Advance N
            (read_performer_update N)
            s.uuid
            (λ o. When b (ByKind filled r c k s o))
            (λ o. When b (ByKind updated r c k s o))
            (full_turn b k s).0.performer_update
    unfolding full_parts_of serialize serialize_performer serialize_performer_update
    performer_again r c false k s e = λ o h. h
    performer_again r c true plain s e = λ o h. h
    performer_again r c true performer s e = performer_update_turn N threshold 0 (serialize N s).1 e
    performer_again r c true rigidbody s e = λ o h. h
    performer_again r c true camera s e = λ o h. h

    rigidbody_full :
        (fresh : Kind → Transform F) (p c : Level) (b : Bool) (k : Kind) (s : Subject F)
        → s.kind ≡ k
        → Advance N
            (read_rigidbody N fresh)
            s.uuid
            (λ o. When b (ByKind p waiting c k s o))
            (λ o. When b (ByKind p filled c k s o))
            (full_turn b k s).0.rigidbody
    unfolding full_parts_of serialize serialize_rigidbody serialize_rigidbody_update
    rigidbody_full fresh p c false k s e = λ o h. h
    rigidbody_full fresh p c true plain s e = λ o h. h
    rigidbody_full fresh p c true performer s e = λ o h. h
    rigidbody_full fresh p c true rigidbody s e = rigidbody_turn N fresh s e
    rigidbody_full fresh p c true camera s e = λ o h. h

    rigidbody_again :
        (p c : Level) (b : Bool) (k : Kind) (s : Subject F)
        → s.kind ≡ k
        → Advance N
            (read_rigidbody_update N)
            s.uuid
            (λ o. When b (ByKind p filled c k s o))
            (λ o. When b (ByKind p updated c k s o))
            (full_turn b k s).0.rigidbody_update
    unfolding full_parts_of serialize serialize_rigidbody serialize_rigidbody_update
    rigidbody_again p c false k s e = λ o h. h
    rigidbody_again p c true plain s e = λ o h. h
    rigidbody_again p c true performer s e = λ o h. h
    rigidbody_again p c true rigidbody s e = rigidbody_update_turn N threshold 0 (serialize N s).1 e
    rigidbody_again p c true camera s e = λ o h. h

    camera_full :
        (fresh : Kind → Transform F) (p r : Level) (b : Bool) (k : Kind) (s : Subject F)
        → s.kind ≡ k
        → Advance N
            (read_camera N fresh)
            s.uuid
            (λ o. When b (ByKind p r waiting k s o))
            (λ o. When b (ByKind p r filled k s o))
            (full_turn b k s).0.camera
    unfolding full_parts_of serialize serialize_camera serialize_camera_update
    camera_full fresh p r false k s e = λ o h. h
    camera_full fresh p r true plain s e = λ o h. h
    camera_full fresh p r true performer s e = λ o h. h
    camera_full fresh p r true rigidbody s e = λ o h. h
    camera_full fresh p r true camera s e = camera_turn N fresh s e

    camera_again :
        (p r : Level) (b : Bool) (k : Kind) (s : Subject F)
        → s.kind ≡ k
        → Advance N
            (read_camera_update N)
            s.uuid
            (λ o. When b (ByKind p r filled k s o))
            (λ o. When b (ByKind p r updated k s o))
            (full_turn b k s).0.camera_update
    unfolding full_parts_of serialize serialize_camera serialize_camera_update
    camera_again p r false k s e = λ o h. h
    camera_again p r true plain s e = λ o h. h
    camera_again p r true performer s e = λ o h. h
    camera_again p r true rigidbody s e = λ o h. h
    camera_again p r true camera s e = camera_update_turn N threshold 0 (serialize N s).1 e

    abbrev picked {ℓ} : {B : Type ℓ} → (Parts F → Option B) → List (Subject F) → List B
    picked g ss = picks (λ (s : Subject F). g (part N (full_parts_of N) threshold s)) ss

    -- The six loops.
    pub full_loops :
        (fresh : Kind → Transform F) (ss rs : List (Subject F))
        → Distinct N ss
        → AllAt N (Staged waiting waiting waiting) ss rs
        → (us : List (Subject F)) × ((each N
                (read_performer N fresh)
                (picked (λ p. p.performer) ss)
                rs
              >>= λ s1.
                  each N (read_performer_update N) (picked (λ p. p.performer_update) ss) s1
                  >>= λ s2.
                      each N (read_rigidbody N fresh) (picked (λ p. p.rigidbody) ss) s2 >>= λ s3.
                      each N (read_rigidbody_update N) (picked (λ p. p.rigidbody_update) ss) s3
                      >>= λ s4.
                          each N (read_camera N fresh) (picked (λ p. p.camera) ss) s4 >>= λ s5.
                          each N (read_camera_update N) (picked (λ p. p.camera_update) ss) s5)
            ≡ some us)
          × AllAt N (Staged updated updated updated) ss us
    full_loops fresh ss rs d h =
        let (u1, e1, h1, _) =
          each-Arrives N (read_performer N fresh) (Staged waiting waiting waiting)
            (Staged filled waiting waiting)
            (λ (s : Subject F). (part N (full_parts_of N) threshold s).performer) ss rs
            (λ s. performer_full fresh waiting waiting s.enabled s.kind s refl) d h in
        let (u2, e2, h2, _) =
          each-Arrives N (read_performer_update N) (Staged filled waiting waiting)
            (Staged updated waiting waiting)
            (λ (s : Subject F). (part N (full_parts_of N) threshold s).performer_update) ss u1
            (λ s. performer_again waiting waiting s.enabled s.kind s refl) d h1 in
        let (u3, e3, h3, _) =
          each-Arrives N (read_rigidbody N fresh) (Staged updated waiting waiting)
            (Staged updated filled waiting)
            (λ (s : Subject F). (part N (full_parts_of N) threshold s).rigidbody) ss u2
            (λ s. rigidbody_full fresh updated waiting s.enabled s.kind s refl) d h2 in
        let (u4, e4, h4, _) =
          each-Arrives N (read_rigidbody_update N) (Staged updated filled waiting)
            (Staged updated updated waiting)
            (λ (s : Subject F). (part N (full_parts_of N) threshold s).rigidbody_update) ss u3
            (λ s. rigidbody_again updated waiting s.enabled s.kind s refl) d h3 in
        let (u5, e5, h5, _) =
          each-Arrives N (read_camera N fresh) (Staged updated updated waiting)
            (Staged updated updated filled)
            (λ (s : Subject F). (part N (full_parts_of N) threshold s).camera) ss u4
            (λ s. camera_full fresh updated updated s.enabled s.kind s refl) d h4 in
        let (u6, e6, h6, _) =
          each-Arrives N (read_camera_update N) (Staged updated updated filled)
            (Staged updated updated updated)
            (λ (s : Subject F). (part N (full_parts_of N) threshold s).camera_update) ss u5
            (λ s. camera_again updated updated s.enabled s.kind s refl) d h5 in
        (
          u6,
          bind_then _ _ u1 _ e1 (
              bind_then _ _ u2 _ e2
                (bind_then _ _ u3 _ e3 (bind_then _ _ u4 _ e4 (bind_then _ _ u5 _ e5 e6)))),
          h6,
        )

    -- A subject after its turn is mirrored once its parts are read.
    after-Mirrors :
        (b : Bool) (k : Kind) (s : Subject F) (rs : List (Subject F))
        → s.enabled ≡ b
        → s.kind ≡ k
        → When b (ByKind updated updated updated k s (lookup N s.uuid rs))
        → MirrorsOne N (full_turn b k s).2 (lookup N (full_turn b k s).2.uuid rs)
    unfolding full_parts_of serialize serialize_performer serialize_performer_update
        serialize_rigidbody serialize_rigidbody_update serialize_camera serialize_camera_update
        serialize_update
    after-Mirrors false k s rs e f h =
        subst (λ c. When c (Mirrored N s.kind s (lookup N s.uuid rs))) (sym e) tt
    after-Mirrors true plain s rs e f h =
        subst (λ c. When c (Mirrored N s.kind s (lookup N s.uuid rs))) (sym e)
          (subst (λ j. Mirrored N j s (lookup N s.uuid rs)) (sym f) h)
    after-Mirrors true performer s rs e f h =
        subst
          (λ c. When c (
            Mirrored N s.kind (serialize_update N threshold 0 (serialize N s).1).2
              (lookup N s.uuid rs)))
          (sym e)
          (subst
            (λ j.
              Mirrored N j (serialize_update N threshold 0 (serialize N s).1).2
                (lookup N s.uuid rs))
            (sym f) h)
    after-Mirrors true rigidbody s rs e f h =
        subst
          (λ c. When c (
            Mirrored N s.kind (serialize_update N threshold 0 (serialize N s).1).2
              (lookup N s.uuid rs)))
          (sym e)
          (subst
            (λ j.
              Mirrored N j (serialize_update N threshold 0 (serialize N s).1).2
                (lookup N s.uuid rs))
            (sym f) h)
    after-Mirrors true camera s rs e f h =
        subst
          (λ c. When c (
            Mirrored N s.kind (serialize_update N threshold 0 (serialize N s).1).2
              (lookup N s.uuid rs)))
          (sym e)
          (subst
            (λ j.
              Mirrored N j (serialize_update N threshold 0 (serialize N s).1).2
                (lookup N s.uuid rs))
            (sym f) h)

    pub all-Mirrors :
        (ss rs : List (Subject F))
        → AllAt N (Staged updated updated updated) ss rs
        → Mirrors N (map (after N (full_parts_of N) threshold) ss) rs
    all-Mirrors [] rs h = tt
    all-Mirrors (s ∷ ss) rs h =
        (after-Mirrors s.enabled s.kind s rs refl refl h.0, all-Mirrors ss rs h.1)

    fits_one :
        (b : Bool) (k : Kind) (s : Subject F) (o : Option (Subject F))
        → When b (FitsKind N k s o)
        → When b (ByKind waiting waiting waiting k s o)
    fits_one false k s o h = h
    fits_one true plain s o h = h
    fits_one true performer s o h = h
    fits_one true rigidbody s o h = h
    fits_one true camera s o h = h

    pub Fit-Staged :
        (ss rs : List (Subject F)) → Fit N ss rs → AllAt N (Staged waiting waiting waiting) ss rs
    Fit-Staged [] rs h = tt
    Fit-Staged (s ∷ ss) rs h =
        (fits_one s.enabled s.kind s (lookup N s.uuid rs) h.0, Fit-Staged ss rs h.1)
