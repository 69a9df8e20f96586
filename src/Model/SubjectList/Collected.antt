-- ===== src/Model/SubjectList/Collected.antt =====
-- The vectors that the loops of `SubjectList::serialize` and `serializeUpdate` (src/o3ds/model.cpp)
-- collect: each subject adds its part, whatever was counted before it.
use open3dstream.Base.{ℕ, List, [], ◌∷◌, map, Bool, true, false, if◌then◌else◌, ◌≡◌, refl, ap, ◌∙◌}
use open3dstream.Numerics.{Numerics}
use open3dstream.Model.Types.{Kind, plain, performer, rigidbody, camera, Subject}
use open3dstream.Model.Update.{serialize_update}
use open3dstream.Model.Subject.{consider}
use open3dstream.Model.SubjectList.Send.{
  Parts, full_parts_of, update_parts_of, no_parts, turn, collect,
}
use open3dstream.Model.SubjectList.Stages.{picks}

module _ (N : Numerics) where
  open N use {F}

  abbrev pub Turns : Type 0
  Turns = Kind → F → ℕ → Subject F → Parts F × ℕ × Subject F

  abbrev pub part : Turns → F → Subject F → Parts F
  part f threshold s = (turn N f threshold 0 s).0

  -- The subject after its turn.
  abbrev pub after : Turns → F → Subject F → Subject F
  after f threshold s = (turn N f threshold 0 s).2

  -- The count is only added to.
  pub record IsCounting (f : Turns) (threshold : F) : Type 0 where
    pub same_part : (n : ℕ) (s : Subject F) → (turn N f threshold n s).0 ≡ part f threshold s
    pub same_after : (n : ℕ) (s : Subject F) → (turn N f threshold n s).2 ≡ after f threshold s

  full_same :
      (b : Bool) (k : Kind) (threshold : F) (n : ℕ) (s : Subject F)
      → ((if b then full_parts_of N k threshold n s else (no_parts, n, s)).0
          ≡ (if b then full_parts_of N k threshold 0 s else (no_parts, 0, s)).0)
        × ((if b then full_parts_of N k threshold n s else (no_parts, n, s)).2
            ≡ (if b then full_parts_of N k threshold 0 s else (no_parts, 0, s)).2)
  unfolding full_parts_of serialize_update
  full_same false k threshold n s = (refl, refl)
  full_same true plain threshold n s = (refl, refl)
  full_same true performer threshold n s = (refl, refl)
  full_same true rigidbody threshold n s = (refl, refl)
  full_same true camera threshold n s = (refl, refl)

  pub full-IsCounting : (threshold : F) → IsCounting (full_parts_of N) threshold
  full-IsCounting threshold = record {
    same_part = λ n s. (full_same s.enabled s.kind threshold n s).0;
    same_after = λ n s. (full_same s.enabled s.kind threshold n s).1;
  }

  update_same :
      (b : Bool) (k : Kind) (threshold : F) (n : ℕ) (s : Subject F)
      → ((if b then update_parts_of N k threshold n s else (no_parts, n, s)).0
          ≡ (if b then update_parts_of N k threshold 0 s else (no_parts, 0, s)).0)
        × ((if b then update_parts_of N k threshold n s else (no_parts, n, s)).2
            ≡ (if b then update_parts_of N k threshold 0 s else (no_parts, 0, s)).2)
  unfolding update_parts_of serialize_update
  update_same false k threshold n s = (refl, refl)
  update_same true plain threshold n s = (refl, refl)
  update_same true performer threshold n s = (refl, refl)
  update_same true rigidbody threshold n s = (refl, refl)
  update_same true camera threshold n s = (refl, refl)

  pub update-IsCounting : (threshold : F) → IsCounting (update_parts_of N) threshold
  update-IsCounting threshold = record {
    same_part = λ n s. (update_same s.enabled s.kind threshold n s).0;
    same_after = λ n s. (update_same s.enabled s.kind threshold n s).1;
  }

  module _ (f : Turns) (threshold : F) (h : IsCounting f threshold) where
    pub performer-picks :
        (n : ℕ) (ss : List (Subject F))
        → (collect N f threshold n ss).performers ≡ picks (λ s. (part f threshold s).performer) ss
    unfolding collect
    performer-picks n [] = refl
    performer-picks n (s ∷ ss) =
        let (p, m, u) = turn N f threshold n s in
        ap (λ (x : Parts F). consider x.performer (collect N f threshold m ss).performers)
          (h.same_part n s)
        ∙ ap (consider (part f threshold s).performer) (performer-picks m ss)

    pub performer_update-picks :
        (n : ℕ) (ss : List (Subject F))
        → (collect N f threshold n ss).performer_updates
          ≡ picks (λ s. (part f threshold s).performer_update) ss
    unfolding collect
    performer_update-picks n [] = refl
    performer_update-picks n (s ∷ ss) =
        let (p, m, u) = turn N f threshold n s in
        ap
          (λ (x : Parts F).
            consider x.performer_update (collect N f threshold m ss).performer_updates)
          (h.same_part n s)
        ∙ ap (consider (part f threshold s).performer_update) (performer_update-picks m ss)

    pub rigidbody-picks :
        (n : ℕ) (ss : List (Subject F))
        → (collect N f threshold n ss).rigidbodies ≡ picks (λ s. (part f threshold s).rigidbody) ss
    unfolding collect
    rigidbody-picks n [] = refl
    rigidbody-picks n (s ∷ ss) =
        let (p, m, u) = turn N f threshold n s in
        ap (λ (x : Parts F). consider x.rigidbody (collect N f threshold m ss).rigidbodies)
          (h.same_part n s)
        ∙ ap (consider (part f threshold s).rigidbody) (rigidbody-picks m ss)

    pub rigidbody_update-picks :
        (n : ℕ) (ss : List (Subject F))
        → (collect N f threshold n ss).rigidbody_updates
          ≡ picks (λ s. (part f threshold s).rigidbody_update) ss
    unfolding collect
    rigidbody_update-picks n [] = refl
    rigidbody_update-picks n (s ∷ ss) =
        let (p, m, u) = turn N f threshold n s in
        ap
          (λ (x : Parts F).
            consider x.rigidbody_update (collect N f threshold m ss).rigidbody_updates)
          (h.same_part n s)
        ∙ ap (consider (part f threshold s).rigidbody_update) (rigidbody_update-picks m ss)

    pub camera-picks :
        (n : ℕ) (ss : List (Subject F))
        → (collect N f threshold n ss).cameras ≡ picks (λ s. (part f threshold s).camera) ss
    unfolding collect
    camera-picks n [] = refl
    camera-picks n (s ∷ ss) =
        let (p, m, u) = turn N f threshold n s in
        ap (λ (x : Parts F). consider x.camera (collect N f threshold m ss).cameras)
          (h.same_part n s)
        ∙ ap (consider (part f threshold s).camera) (camera-picks m ss)

    pub camera_update-picks :
        (n : ℕ) (ss : List (Subject F))
        → (collect N f threshold n ss).camera_updates
          ≡ picks (λ s. (part f threshold s).camera_update) ss
    unfolding collect
    camera_update-picks n [] = refl
    camera_update-picks n (s ∷ ss) =
        let (p, m, u) = turn N f threshold n s in
        ap (λ (x : Parts F). consider x.camera_update (collect N f threshold m ss).camera_updates)
          (h.same_part n s)
        ∙ ap (consider (part f threshold s).camera_update) (camera_update-picks m ss)

    pub items-after :
        (n : ℕ) (ss : List (Subject F))
        → (collect N f threshold n ss).items ≡ map (after f threshold) ss
    unfolding collect
    items-after n [] = refl
    items-after n (s ∷ ss) =
        let (p, m, u) = turn N f threshold n s in
        ap (λ x. x ∷ (collect N f threshold m ss).items) (h.same_after n s)
        ∙ ap (λ us. after f threshold s ∷ us) (items-after m ss)
