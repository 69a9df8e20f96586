-- ===== src/Model/SubjectList/Session.antt =====
-- A sender and a receiver of src/o3ds/model.cpp over time: the sender changes its transforms and sends
-- full packets and updates, which the receiver accepts.
use Prim.Native.String.{String}
use open3dstream.Base.{
  ℕ, List, [], ◌∷◌, map, Option, some, Bool, true, false, get_elem?, get_elem?-map, get_elem?-unmap,
  length, length-map, ◌≡◌, sym, ap, ◌∙◌,
}
use mathlib.Core.Path.{subst}
use open3dstream.Numerics.{Triple, Quad, Numerics}
use open3dstream.Context.Axes.{is_named, valid}
use open3dstream.Model.Types.{Transform, Kind, plain, performer, rigidbody, camera, Subject}
use open3dstream.Model.Items.{list_finite}
use open3dstream.Model.Tracking.{Tracks, float_triple, float_quad}
use open3dstream.Model.SubjectList.{Root, SubjectList}
use open3dstream.Model.SubjectList.Lookup.{lookup}
use open3dstream.Model.SubjectList.Send.{serialize_list, serialize_list_update}
use open3dstream.Model.SubjectList.Receive.{parse_list}
use open3dstream.Model.SubjectList.Stages.{Distinct}
use open3dstream.Model.SubjectList.Follow.{When, Mirrored, Mirrors, Fit}
use open3dstream.Model.SubjectList.Turns.{Mirror}
use open3dstream.Model.SubjectList.Packets.{
  full_root_of, update_root_of, IsRead, kept_items, full_roundtrip, update_roundtrip,
}
use open3dstream.Model.SubjectList.Finished.{finish_parse-Mirrors}

module _ (N : Numerics) where
  open N use {F}

  -- What a transform notes as sent.
  abbrev pub noted : Transform F → Triple F × Quad F
  noted t = (t.translation.last_sent, t.rotation.last_sent)

  -- The subjects after the program has moved their transforms: anything but the ids, the classes, the
  -- names, and what is noted as sent.
  pub record IsPosed (s t : Subject F) : Type 0 where
    pub same_uuid : t.uuid ≡ s.uuid
    pub same_class : t.kind ≡ s.kind
    pub same_name : t.name ≡ s.name
    pub same_enabled : t.enabled ≡ s.enabled
    pub same_noted : map noted t.transforms ≡ map noted s.transforms

  abbrev pub Posed : List (Subject F) → List (Subject F) → Type 0
  Posed [] [] = Unit {0}
  Posed [] (t ∷ ts) = ⊥
  Posed (s ∷ ss) [] = ⊥
  Posed (s ∷ ss) (t ∷ ts) = IsPosed s t × Posed ss ts

  noted-Tracks :
      (ts us rs : List (Transform F))
      → map noted us ≡ map noted ts
      → Tracks N ts rs
      → Tracks N us rs
  noted-Tracks ts us rs e h = (
    h.0 ∙ sym (length-map ts noted) ∙ sym (ap (λ xs. length xs) e) ∙ length-map us noted,
    λ k u r g x.
        let (t, a, b) =
          get_elem?-unmap noted ts k (noted u)
            (sym (ap (λ xs. get_elem? xs k) e) ∙ get_elem?-map noted us k u g) in
        let (c, d) = h.1 k t r a x in
        (
          c ∙ ap (λ (p : Triple F × Quad F). float_triple N p.0) b,
          d ∙ ap (λ (p : Triple F × Quad F). float_quad N p.1) b,
        ),
  )

  posed-Mirror :
      (s t : Subject F) (o : Option (Subject F))
      → IsPosed s t
      → Mirror N s.transforms s o
      → Mirror N t.transforms t o
  posed-Mirror s t o p (r, e, a, b, c) = (
    r,
    e,
    a ∙ sym p.same_class,
    b ∙ sym p.same_name,
    noted-Tracks s.transforms t.transforms r.transforms p.same_noted c,
  )

  posed-Mirrored :
      (b : Bool) (k : Kind) (s t : Subject F) (o : Option (Subject F))
      → IsPosed s t
      → When b (Mirrored N k s o)
      → When b (Mirrored N k t o)
  posed-Mirrored false k s t o p m = m
  posed-Mirrored true plain s t o p m = m
  posed-Mirrored true performer s t o p m = posed-Mirror s t o p m
  posed-Mirrored true rigidbody s t o p m = posed-Mirror s t o p m
  posed-Mirrored true camera s t o p m = posed-Mirror s t o p m

  Posed-Mirrors : (ss ts rs : List (Subject F)) → Posed ss ts → Mirrors N ss rs → Mirrors N ts rs
  Posed-Mirrors [] [] rs p m = tt
  Posed-Mirrors [] (t ∷ ts) rs p m = absurd p
  Posed-Mirrors (s ∷ ss) [] rs p m = absurd p
  Posed-Mirrors (s ∷ ss) (t ∷ ts) rs (p, ps) (m, ms) = (
    subst (λ u. When t.enabled (Mirrored N t.kind t (lookup N u rs))) (sym p.same_uuid)
        (subst (λ b. When b (Mirrored N t.kind t (lookup N s.uuid rs))) (sym p.same_enabled)
          (subst (λ k. When s.enabled (Mirrored N k t (lookup N s.uuid rs))) (sym p.same_class)
            (posed-Mirrored s.enabled s.kind s t (lookup N s.uuid rs) p m))),
    Posed-Mirrors ss ts rs ps ms,
  )

  module _ (encode : Root F → List ℕ) (decode : List ℕ → Option (Root F)) (crc : List ℕ → ℕ)
      (now : F) where
    -- A list that can be sent: its context is valid and in a unit that is an enumerator, it is finite,
    -- and no two ids are the same.
    pub record IsSendable (s : SubjectList N) : Type 0 where
      pub valid_context : valid s.context ≡ true
      pub named_unit : is_named s.context.distance ≡ true
      pub finite_items : (list_finite N s.items).0 ≡ true
      pub distinct_ids : Distinct N s.items

    -- A full packet of the sender `s` that the receiver `r` accepts, and both lists after it.
    pub record IsFull (s r t q : SubjectList N) : Type 0 where
      pub fresh : Kind → Transform F
      pub timestamp : F
      pub timecode : String
      pub out : List ℕ
      pub clear : Bool
      pub sendable : IsSendable s
      pub readable :
          IsRead N encode decode crc now (full_root_of N encode decode crc now timestamp timecode s)
      pub fits : Fit N s.items (kept_items N clear r)
      pub accepted :
          parse_list N decode crc fresh clear
            (some (serialize_list N encode crc now timestamp timecode out s).1)
            r
          ≡ some (true, q)
      pub sender : (serialize_list N encode crc now timestamp timecode out s).2 ≡ t

    -- An update of the sender `s` that the receiver `r` accepts, and both lists after it.
    pub record IsUpdate (s r t q : SubjectList N) : Type 0 where
      pub fresh : Kind → Transform F
      pub timestamp : F
      pub timecode : String
      pub out : List ℕ
      pub sendable : IsSendable s
      pub readable :
          IsRead N encode decode crc now
            (update_root_of N encode decode crc now timestamp timecode s)
      pub accepted :
          parse_list N decode crc fresh false
            (some (serialize_list_update N encode crc now timestamp timecode out s).1)
            r
          ≡ some (true, q)
      pub sender : (serialize_list_update N encode crc now timestamp timecode out s).3 ≡ t

    -- What happens between two moments; the lists before it and after it.
    pub data Step (s r t q : SubjectList N) : Type 0 where
      pose : Posed s.items t.items → q ≡ r → Step s r t q
      full : IsFull s r t q → Step s r t q
      update : IsUpdate s r t q → Step s r t q

    pub data Run (s r : SubjectList N) : SubjectList N → SubjectList N → Type 0 where
      start : Run s r s r
      next : {t q u p : SubjectList N} → Run s r t q → Step t q u p → Run s r u p

    full-Mirrors : (s r t q : SubjectList N) → IsFull s r t q → Mirrors N t.items q.items
    full-Mirrors s r t q h =
        let (us, a, b, m) =
          full_roundtrip N encode decode crc now h.fresh h.timestamp h.timecode h.out h.clear s r
            h.readable h.sendable.valid_context h.sendable.named_unit h.sendable.finite_items
            h.sendable.distinct_ids h.fits in
        subst (λ (l : SubjectList N). Mirrors N l.items q.items) h.sender
          (finish_parse-Mirrors N _ _ q (sym b ∙ h.accepted) m)

    update-Mirrors :
        (s r t q : SubjectList N)
        → Mirrors N s.items r.items
        → IsUpdate s r t q
        → Mirrors N t.items q.items
    update-Mirrors s r t q m h =
        let (us, a, b, n) =
          update_roundtrip N encode decode crc now h.fresh h.timestamp h.timecode h.out s r
            h.readable h.sendable.valid_context h.sendable.named_unit h.sendable.finite_items
            h.sendable.distinct_ids m in
        subst (λ (l : SubjectList N). Mirrors N l.items q.items) h.sender
          (finish_parse-Mirrors N _ _ q (sym b ∙ h.accepted) n)

    step-Mirrors :
        (s r t q : SubjectList N)
        → Mirrors N s.items r.items
        → Step s r t q
        → Mirrors N t.items q.items
    step-Mirrors s r t q m (pose p e) =
        subst (λ (l : SubjectList N). Mirrors N t.items l.items) (sym e)
          (Posed-Mirrors s.items t.items r.items p m)
    step-Mirrors s r t q m (full h) = full-Mirrors s r t q h
    step-Mirrors s r t q m (update h) = update-Mirrors s r t q m h

    run-Mirrors :
        (s r t q : SubjectList N)
        → Mirrors N s.items r.items
        → Run s r t q
        → Mirrors N t.items q.items
    run-Mirrors s r t q m start = m
    run-Mirrors s r u p m (next {t = t} {q = q} run step) =
        step-Mirrors t q u p (run-Mirrors s r t q m run) step

    -- A sender starts with a full packet that the receiver accepts. Then, in any order and any
    -- number of times, the program moves the transforms, a full packet is sent and accepted, or an
    -- update is, which is parsed without clearing the subjects (`clearInactive` is false). What is
    -- sent has a valid context in a unit that is an enumerator, finite transforms and distinct ids,
    -- FlatBuffers reads the root that it wrote, the checksum has 32 bits, and at a full packet no
    -- id belongs to a subject of another class at the receiver. At each moment the receiver then
    -- has every enabled performer, rigid body and camera of the sender, with its id, class, name
    -- and transforms, as the sender noted them to be sent.
    pub session-Mirrors :
        (s0 r0 s1 r1 s r : SubjectList N)
        → IsFull s0 r0 s1 r1
        → Run s1 r1 s r
        → Mirrors N s.items r.items
    session-Mirrors s0 r0 s1 r1 s r h run = run-Mirrors s1 r1 s r (full-Mirrors s0 r0 s1 r1 h) run
