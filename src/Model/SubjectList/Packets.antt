-- ===== src/Model/SubjectList/Packets.antt =====
-- Whole packets: `SubjectList::serialize` and `serializeUpdate`, then `SubjectList::parse` of
-- src/o3ds/model.cpp.
use Prim.Native.String.{String}
use open3dstream.Base.Words.{u32_mod}
use open3dstream.Base.{
  ℕ, ◌<◌, List, [], ◌∷◌, Option, some, none, Bool, true, false, if◌then◌else◌, ◌≡◌, refl, ap, ◌∙◌,
  inl, inr, Bool-cases, Option-cases,
}
use open3dstream.Numerics.{Numerics}
use open3dstream.Context.Axes.{Context, is_named, valid}
use open3dstream.Context.Conversion.{convert}
use open3dstream.Context.Totality.{convert-is_valid}
use open3dstream.Model.Types.{Transform, nothing, Kind, Subject}
use open3dstream.Model.Envelope.{TimeEnvelope, is_valid, no_envelope, read_time, time_roundtrip}
use open3dstream.Model.Codes.{read_context, context_named}
use open3dstream.Model.Packet.{finalize, full_packet, update_packet, IsFlags, open-finalize}
use open3dstream.Model.Items.{first_invalid, subject_finite, list_finite}
use open3dstream.Model.SubjectList.{Root, SubjectList, each_of}
use open3dstream.Model.SubjectList.Send.{
  full_parts_of, update_parts_of, collect, full_root, update_root, serialize_list,
  serialize_list_update,
}
use open3dstream.Model.SubjectList.Receive.{
  read_subjects, finish_parse, take_stamps, take_context, receive_root, receive_body, parse_list,
}
use open3dstream.Model.SubjectList.Stages.{Distinct}
use open3dstream.Model.SubjectList.Collected.{
  full-IsCounting, update-IsCounting, performer-picks, performer_update-picks, rigidbody-picks,
  rigidbody_update-picks, camera-picks, camera_update-picks, items-after,
}
use open3dstream.Model.SubjectList.Follow.{Mirrors, Fit}
use open3dstream.Model.SubjectList.Full
use open3dstream.Model.SubjectList.Changes

module _ (N : Numerics) where
  open N use {F}

  finite_kept : (s : Subject F) → (subject_finite N s).0 ≡ true → (subject_finite N s).1 ≡ s
  unfolding subject_finite
  finite_kept s e = elim (Option-cases (first_invalid N s.transforms)) [
    | inl g ↦ rw (g, subject_finite) refl
    | inr (t, g) ↦ absurd cc (rw (g, subject_finite) at e)
  ]

  -- The check leaves finite subjects as they were.
  pub list_finite-kept :
      (ss : List (Subject F)) → (list_finite N ss).0 ≡ true → (list_finite N ss).2 ≡ ss
  unfolding list_finite
  list_finite-kept [] e = refl
  list_finite-kept (s ∷ ss) e = elim (Bool-cases (subject_finite N s).0) [
    | inl y ↦
        rw (y, finite_kept s y, list_finite)
          (ap (λ us. s ∷ us) (list_finite-kept ss (rw (y, list_finite) at e)))
    | inr z ↦ absurd cc (rw (z, list_finite) at e)
  ]

  -- What the receiver holds before the last checks of `parse`: the root's stamps, and the context
  -- and the conversion that it has from then on.
  abbrev pub joined : Context → Root F → List (Subject F) → SubjectList N → SubjectList N
  joined c root us l = record l {
    items = us;
    time = root.time;
    timecode = elim (root.timecode) [ none ↦ "" | some t ↦ t ];
    envelope = read_time root.envelope;
    context = if valid l.context then l.context else c;
    conversion = if valid l.context then some (convert N c l.context) else none;
  }

  receive_root-finish :
      (fresh : Kind → Transform F) (clear : Bool) (root : Root F) (l : SubjectList N) (c : Context)
      (us : List (Subject F))
      → valid c ≡ true
      → read_context root.context ≡ c
      → read_subjects N fresh root (if clear then [] else l.items) ≡ some us
      → receive_root N fresh clear root l ≡ finish_parse N (joined c root us l)
  unfolding receive_root take_stamps take_context
  receive_root-finish fresh clear root l c us v e r = elim (Bool-cases (valid l.context)) [
    | inl y ↦
        let ok : (convert N c l.context).is_valid ≡ true =
          convert-is_valid N c l.context ∙ rw (y, v) refl in
        rw (e, y, ok, r, receive_root, take_context) refl
    | inr z ↦ rw (e, z, r, receive_root, take_context) refl
  ]

  -- The loops of `parse` over a full root.
  full_read :
      (fresh : Kind → Transform F) (threshold time : F) (timecode : String) (c : Context)
      (e : TimeEnvelope) (ss rs : List (Subject F))
      → Distinct N ss
      → Fit N ss rs
      → (us : List (Subject F)) × (read_subjects N fresh
            (full_root N (collect N (full_parts_of N) threshold 0 ss) time timecode c e)
            rs
          ≡ some us)
        × Mirrors N (collect N (full_parts_of N) threshold 0 ss).items us
  unfolding read_subjects full_root each_of
  full_read fresh threshold time timecode c e ss rs d f =
      let h = full-IsCounting N threshold in
      let (us, p, m) =
        Full.full_loops N threshold fresh ss rs d (Full.Fit-Staged N threshold ss rs f) in
      (
        us,
        rw
            (
              performer-picks N (full_parts_of N) threshold h 0 ss,
              performer_update-picks N (full_parts_of N) threshold h 0 ss,
              rigidbody-picks N (full_parts_of N) threshold h 0 ss,
              rigidbody_update-picks N (full_parts_of N) threshold h 0 ss,
              camera-picks N (full_parts_of N) threshold h 0 ss,
              camera_update-picks N (full_parts_of N) threshold h 0 ss,
            )
            p,
        rw (items-after N (full_parts_of N) threshold h 0 ss)
            (Full.all-Mirrors N threshold ss us m),
      )

  -- The loops of `parse` over a root with updates only.
  update_read :
      (fresh : Kind → Transform F) (threshold time : F) (timecode : String) (c : Context)
      (e : TimeEnvelope) (ss rs : List (Subject F))
      → Distinct N ss
      → Mirrors N ss rs
      → (us : List (Subject F)) × (read_subjects N fresh
            (update_root N (collect N (update_parts_of N) threshold 0 ss) time timecode c e)
            rs
          ≡ some us)
        × Mirrors N (collect N (update_parts_of N) threshold 0 ss).items us
  unfolding read_subjects update_root each_of
  update_read fresh threshold time timecode c e ss rs d f =
      let h = update-IsCounting N threshold in
      let (us, p, m) =
        Changes.update_loops N threshold ss rs d (Changes.Mirrors-Staged N threshold ss rs f) in
      (
        us,
        rw
            (
              performer_update-picks N (update_parts_of N) threshold h 0 ss,
              rigidbody_update-picks N (update_parts_of N) threshold h 0 ss,
              camera_update-picks N (update_parts_of N) threshold h 0 ss,
            )
            p,
        rw (items-after N (update_parts_of N) threshold h 0 ss)
            (Changes.all-Mirrors N threshold ss us m),
      )

  -- What the receiver has of the sender's stamps and context before the last checks.
  abbrev pub receiver_of :
      SubjectList N → F → String → List (Subject F) → SubjectList N → SubjectList N
  receiver_of sender time timecode us l = record l {
    items = us;
    time = time;
    timecode = timecode;
    envelope = if is_valid sender.envelope then sender.envelope else no_envelope;
    error = nothing;
    context = if valid l.context then l.context else sender.context;
    conversion = if valid l.context then some (convert N sender.context l.context) else none;
  }

  abbrev pub kept_items : Bool → SubjectList N → List (Subject F)
  kept_items clear l = if clear then [] else l.items

  module _ (encode : Root F → List ℕ) (decode : List ℕ → Option (Root F)) (crc : List ℕ → ℕ)
      (now : F) where
    abbrev pub stamp_of : F → F
    stamp_of timestamp = if N.equal timestamp N.null then now else timestamp

    -- The roots of a full packet and of an update.
    abbrev pub full_root_of : F → String → SubjectList N → Root F
    full_root_of timestamp timecode s =
        full_root N (collect N (full_parts_of N) s.threshold 0 s.items) (stamp_of timestamp)
          timecode s.context s.envelope

    abbrev pub update_root_of : F → String → SubjectList N → Root F
    update_root_of timestamp timecode s =
        update_root N (collect N (update_parts_of N) s.threshold 0 s.items) (stamp_of timestamp)
          timecode s.context s.envelope

    -- FlatBuffers reads back the root that it wrote, and the checksum has 32 bits.
    pub record IsRead (root : Root F) : Type 0 where
      pub decode-encode : decode (encode root) ≡ some root
      pub crc_fits : crc (encode root) < u32_mod

    parse-finalize :
        (fresh : Kind → Transform F) (clear : Bool) (flags : ℕ) (root : Root F) (l : SubjectList N)
        → IsRead root
        → IsFlags flags
        → parse_list N decode crc fresh clear (some (finalize crc flags (encode root))) l
          ≡ receive_root N fresh clear root (record l { error = nothing })
    unfolding parse_list
    parse-finalize fresh clear flags root l h f =
        ap (receive_body N decode crc fresh clear l)
          (open-finalize crc flags (encode root) f h.crc_fits)
        ∙ rw (h.decode-encode, receive_body) refl

    serialize_list-finite :
        (timestamp : F) (timecode : String) (out : List ℕ) (s : SubjectList N)
        → (list_finite N s.items).0 ≡ true
        → serialize_list N encode crc now timestamp timecode out s ≡ (
          true,
          finalize crc full_packet (
              encode (
                full_root N
                  (collect N (full_parts_of N) s.threshold 0 s.items)
                  (stamp_of timestamp)
                  timecode
                  s.context
                  s.envelope)),
          record s { items = (collect N (full_parts_of N) s.threshold 0 s.items).items },
        )
    unfolding serialize_list
    serialize_list-finite timestamp timecode out s f =
        rw (f, list_finite-kept s.items f, serialize_list) refl

    -- A list with a valid context in a unit that is an enumerator, finite transforms and distinct
    -- ids is serialized, and the receiver parses the bytes. If FlatBuffers reads the root that it
    -- wrote, the checksum has 32 bits, and no id of an enabled performer, rigid body or camera of
    -- the sender belongs to a subject of another class at the receiver (if it keeps its subjects),
    -- then every check and every loop is passed: what is left is the last step of `parse`, on a
    -- list that has the sender's stamps, the sender's context or a conversion from it, and for each
    -- enabled subject of those classes a subject with its id, class, name and transforms, as the
    -- sender noted them to be sent.
    pub full_roundtrip :
        (fresh : Kind → Transform F) (timestamp : F) (timecode : String) (out : List ℕ)
        (clear : Bool) (s r : SubjectList N)
        → IsRead (full_root_of timestamp timecode s)
        → valid s.context ≡ true
        → is_named s.context.distance ≡ true
        → (list_finite N s.items).0 ≡ true
        → Distinct N s.items
        → Fit N s.items (kept_items clear r)
        → (us : List (Subject F)) × ((serialize_list N encode crc now timestamp timecode out s).0
            ≡ true)
          × (parse_list N decode crc fresh clear
                (some (serialize_list N encode crc now timestamp timecode out s).1)
                r
              ≡ finish_parse N (receiver_of s (stamp_of timestamp) timecode us r))
          × Mirrors N (serialize_list N encode crc now timestamp timecode out s).2.items us
    unfolding full_root
    full_roundtrip fresh timestamp timecode out clear s r h v n f d p =
        let (us, e, m) =
          full_read fresh s.threshold (stamp_of timestamp) timecode s.context s.envelope s.items
            (kept_items clear r) d p in
        let root =
          full_root N (collect N (full_parts_of N) s.threshold 0 s.items) (stamp_of timestamp)
            timecode s.context s.envelope in
        rw (serialize_list-finite timestamp timecode out s f) (
          us,
          refl,
          parse-finalize fresh clear full_packet root r h (inl refl)
              ∙ receive_root-finish fresh clear root (record r { error = nothing }) s.context us v
                  (context_named s.context v n) e
              ∙ ap
                  (λ x.
                    finish_parse N
                      (record (receiver_of s (stamp_of timestamp) timecode us r) { envelope = x }))
                  (time_roundtrip s.envelope),
          m,
        )

    serialize_list_update-finite :
        (timestamp : F) (timecode : String) (out : List ℕ) (s : SubjectList N)
        → (list_finite N s.items).0 ≡ true
        → serialize_list_update N encode crc now timestamp timecode out s ≡ (
          true,
          finalize crc update_packet (
              encode (
                update_root N
                  (collect N (update_parts_of N) s.threshold 0 s.items)
                  (stamp_of timestamp)
                  timecode
                  s.context
                  s.envelope)),
          (collect N (update_parts_of N) s.threshold 0 s.items).count,
          record s { items = (collect N (update_parts_of N) s.threshold 0 s.items).items },
        )
    unfolding serialize_list_update
    serialize_list_update-finite timestamp timecode out s f =
        rw (f, list_finite-kept s.items f, serialize_list_update) refl

    -- A list with a valid context in a unit that is an enumerator, finite transforms and distinct
    -- ids is written as an update, whatever the threshold, and a receiver that does not clear its
    -- subjects (`clearInactive` is false) parses the bytes. If FlatBuffers reads the root that it
    -- wrote, the checksum has 32 bits, and the receiver has each enabled performer, rigid body and
    -- camera of the sender, with its id, class, name and transforms, as the sender noted them to be
    -- sent, then every check and every loop is passed: what is left is the last step of `parse`, on
    -- a list that has the sender's stamps, the sender's context or a conversion from it, and each
    -- of those subjects as the sender notes it to be sent now.
    pub update_roundtrip :
        (fresh : Kind → Transform F) (timestamp : F) (timecode : String) (out : List ℕ)
        (s r : SubjectList N)
        → IsRead (update_root_of timestamp timecode s)
        → valid s.context ≡ true
        → is_named s.context.distance ≡ true
        → (list_finite N s.items).0 ≡ true
        → Distinct N s.items
        → Mirrors N s.items r.items
        → (us : List (Subject F)) × ((serialize_list_update N encode crc now timestamp timecode out
              s).0
            ≡ true)
          × (parse_list N decode crc fresh false
                (some (serialize_list_update N encode crc now timestamp timecode out s).1)
                r
              ≡ finish_parse N (receiver_of s (stamp_of timestamp) timecode us r))
          × Mirrors N (serialize_list_update N encode crc now timestamp timecode out s).3.items us
    unfolding update_root
    update_roundtrip fresh timestamp timecode out s r h v n f d p =
        let (us, e, m) =
          update_read fresh s.threshold (stamp_of timestamp) timecode s.context s.envelope s.items
            r.items d p in
        let root =
          update_root N (collect N (update_parts_of N) s.threshold 0 s.items) (stamp_of timestamp)
            timecode s.context s.envelope in
        rw (serialize_list_update-finite timestamp timecode out s f) (
          us,
          refl,
          parse-finalize fresh false update_packet root r h (inr refl)
              ∙ receive_root-finish fresh false root (record r { error = nothing }) s.context us v
                  (context_named s.context v n) e
              ∙ ap
                  (λ x.
                    finish_parse N
                      (record (receiver_of s (stamp_of timestamp) timecode us r) { envelope = x }))
                  (time_roundtrip s.envelope),
          m,
        )
