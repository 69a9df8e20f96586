-- ===== src/Model/SubjectList/Receive.antt =====
-- `SubjectList::parse` of src/o3ds/model.cpp. What FlatBuffers reads from the bytes, if it verifies
-- them, is a parameter, with the CRC-32 and the transforms that the builders make. `none` is the use
-- of a null pointer, a read outside of a list of matrices, or a unit that the enumeration has not.
use open3dstream.Base.Options.{◌>>=◌}
use open3dstream.Base.{ℕ, List, [], Option, some, none, Bool, true, false, not, if◌then◌else◌}
use open3dstream.Numerics.{Numerics}
use open3dstream.Context.Axes.{Context, valid}
use open3dstream.Context.Conversion.{convert}
use open3dstream.Model.Types.{
  Transform, nothing, unverified, invalid_conversion, Kind, performer, rigidbody, camera, Subject,
}
use open3dstream.Model.Bodies.{
  WirePerformer, WirePerformerUpdate, WireRigidbody, WireRigidbodyUpdate, parse_performer,
  parse_performer_update, parse_rigidbody, parse_rigidbody_update,
}
use open3dstream.Model.Camera.{WireCamera, WireCameraUpdate, parse_camera, parse_camera_update}
use open3dstream.Model.Envelope.{read_time}
use open3dstream.Model.Codes.{read_context}
use open3dstream.Model.Packet.{Opened, refused, accepted, open_packet}
use open3dstream.Model.Items.{list_finite, list_matrices}
use open3dstream.Model.SubjectList.{Root, SubjectList, change_subject, change_or_add, each_of}

module _ (N : Numerics) where
  open N use {F}

  module _ (fresh : Kind → Transform F) where
    -- The bodies of the six loops.
    unfoldable pub read_performer : WirePerformer F → List (Subject F) → Option (List (Subject F))
    unfolding change_or_add parse_performer
    read_performer w ss = do
      d ← w.data_of
      uuid ← d.uuid
      change_or_add N performer uuid (parse_performer N (fresh performer) w) ss

    unfoldable pub read_rigidbody : WireRigidbody F → List (Subject F) → Option (List (Subject F))
    unfolding change_or_add parse_rigidbody
    read_rigidbody w ss = do
      d ← w.data_of
      uuid ← d.uuid
      change_or_add N rigidbody uuid (parse_rigidbody N (fresh rigidbody) w) ss

    unfoldable pub read_camera : WireCamera F → List (Subject F) → Option (List (Subject F))
    unfolding change_or_add parse_camera
    read_camera w ss = do
      d ← w.data_of
      uuid ← d.uuid
      change_or_add N camera uuid (parse_camera N (fresh camera) w) ss

  unfoldable pub read_performer_update :
      WirePerformerUpdate F → List (Subject F) → Option (List (Subject F))
  unfolding change_subject parse_performer_update
  read_performer_update w ss = do
    d ← w.data_of
    uuid ← d.uuid
    change_subject N performer uuid (parse_performer_update N w) ss

  unfoldable pub read_rigidbody_update :
      WireRigidbodyUpdate F → List (Subject F) → Option (List (Subject F))
  unfolding change_subject parse_rigidbody_update
  read_rigidbody_update w ss = do
    d ← w.data_of
    uuid ← d.uuid
    change_subject N rigidbody uuid (parse_rigidbody_update N w) ss

  unfoldable pub read_camera_update :
      WireCameraUpdate F → List (Subject F) → Option (List (Subject F))
  unfolding change_subject parse_camera_update
  read_camera_update w ss = do
    d ← w.data_of
    uuid ← d.uuid
    change_subject N camera uuid (parse_camera_update N w) ss

  -- The six loops.
  unfoldable pub read_subjects :
      (Kind → Transform F) → Root F → List (Subject F) → Option (List (Subject F))
  unfolding each_of read_performer read_performer_update read_rigidbody read_rigidbody_update
      read_camera read_camera_update
  read_subjects fresh root ss = do
    s1 ← each_of N (read_performer fresh) root.performers ss
    s2 ← each_of N (read_performer_update) root.performer_updates s1
    s3 ← each_of N (read_rigidbody fresh) root.rigidbodies s2
    s4 ← each_of N (read_rigidbody_update) root.rigidbody_updates s3
    s5 ← each_of N (read_camera fresh) root.cameras s4
    each_of N (read_camera_update) root.camera_updates s5

  -- The last two checks.
  unfoldable pub finish_parse : SubjectList N → Option (Bool × SubjectList N)
  unfolding list_finite list_matrices
  finish_parse l =
      let (b, e, ss) = list_finite N l.items in
      if not b
      then some (false, record l { items = ss; error = e })
      else (list_matrices N l.conversion ss >>= λ r.
          some (r.0, record l { items = r.2; error = if r.0 then l.error else r.1 }))

  -- From the time on: what is read before the context, and the conversion.
  unfoldable pub take_stamps : Root F → SubjectList N → SubjectList N
  unfolding read_time
  take_stamps root l = record l {
    time = root.time;
    timecode = elim (root.timecode) [ none ↦ "" | some t ↦ t ];
    envelope = read_time root.envelope;
  }

  -- The answer is `false` if there is no conversion between two contexts.
  unfoldable pub take_context : Context → SubjectList N → Bool × SubjectList N
  unfolding valid convert
  take_context sender l =
      let c = convert N sender l.context in
      if not (valid l.context)
      then (true, record l { context = sender; conversion = none })
      else if not c.is_valid
      then (false, record l { conversion = some c; error = invalid_conversion })
      else (true, record l { conversion = some c })

  unfoldable pub receive_root :
      (Kind → Transform F) → Bool → Root F → SubjectList N → Option (Bool × SubjectList N)
  unfolding read_subjects finish_parse take_stamps take_context read_context
  receive_root fresh clear_inactive root l =
      let sender = read_context root.context in
      let r = take_context sender (take_stamps root l) in
      let kept = if clear_inactive then [] else r.1.items in
      let rest =
        (read_subjects fresh root kept >>= λ ss. finish_parse (record r.1 { items = ss })) in
      if r.0 then rest else some (false, r.1)

  module _ (decode : List ℕ → Option (Root F)) (crc : List ℕ → ℕ) (fresh : Kind → Transform F) where
    abbrev pub receive_body : Bool → SubjectList N → Opened → Option (Bool × SubjectList N)
    receive_body clear_inactive l (refused e) = some (false, record l { error = e })
    receive_body clear_inactive l (accepted body) = elim (decode body) [
      | none ↦ some (false, record l { error = unverified })
      | some root ↦ receive_root fresh clear_inactive root (record l { error = nothing })
    ]

    -- `parse`: the answer and the list.
    unfoldable pub parse_list :
        Bool → Option (List ℕ) → SubjectList N → Option (Bool × SubjectList N)
    unfolding receive_root open_packet
    parse_list clear_inactive bytes l = receive_body clear_inactive l (open_packet crc bytes)
