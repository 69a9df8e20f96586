-- ===== src/Model/SubjectList/Send.antt =====
-- `createRoot`, `SubjectList::serialize` and `SubjectList::serializeUpdate` of src/o3ds/model.cpp.
-- The bytes that FlatBuffers makes of a root, the CRC-32 and the clock are parameters.
use Prim.Native.String.{String}
use open3dstream.Base.{ℕ, List, [], ◌∷◌, Option, some, none, Bool, true, false, not, if◌then◌else◌}
use open3dstream.Numerics.{Numerics}
use open3dstream.Context.Axes.{Context}
use open3dstream.Model.Types.{Kind, plain, performer, rigidbody, camera, Subject}
use open3dstream.Model.Bodies.{
  WirePerformer, WirePerformerUpdate, WireRigidbody, WireRigidbodyUpdate, serialize_performer,
  serialize_performer_update, serialize_rigidbody, serialize_rigidbody_update,
}
use open3dstream.Model.Camera.{
  WireCamera, WireCameraUpdate, serialize_camera, serialize_camera_update,
}
use open3dstream.Model.Subject.{consider}
use open3dstream.Model.Envelope.{TimeEnvelope, add_time}
use open3dstream.Model.Codes.{add_context}
use open3dstream.Model.Packet.{finalize, full_packet, update_packet}
use open3dstream.Model.Items.{list_finite}
use open3dstream.Model.SubjectList.{Root, SubjectList}

-- What one subject adds to the vectors of the root.
pub record Parts (A : Type 0) : Type 0 where
  pub performer : Option (WirePerformer A)
  pub performer_update : Option (WirePerformerUpdate A)
  pub rigidbody : Option (WireRigidbody A)
  pub rigidbody_update : Option (WireRigidbodyUpdate A)
  pub camera : Option (WireCamera A)
  pub camera_update : Option (WireCameraUpdate A)

abbrev pub no_parts : {A : Type 0} → Parts A
no_parts = record {
  performer = none;
  performer_update = none;
  rigidbody = none;
  rigidbody_update = none;
  camera = none;
  camera_update = none;
}

-- The vectors after the loop, with the count of changes and the subjects as they are then.
pub record Vectors (A : Type 0) : Type 0 where
  pub performers : List (WirePerformer A)
  pub performer_updates : List (WirePerformerUpdate A)
  pub rigidbodies : List (WireRigidbody A)
  pub rigidbody_updates : List (WireRigidbodyUpdate A)
  pub cameras : List (WireCamera A)
  pub camera_updates : List (WireCameraUpdate A)
  pub count : ℕ
  pub items : List (Subject A)

module _ (N : Numerics) where
  open N use {F, equal, null}

  -- One turn of the loop of `serialize`, for a subject that is enabled.
  unfoldable pub full_parts_of : Kind → F → ℕ → Subject F → Parts F × ℕ × Subject F
  unfolding serialize_performer serialize_performer_update serialize_rigidbody
      serialize_rigidbody_update serialize_camera serialize_camera_update
  full_parts_of plain threshold n s = (no_parts, n, s)
  full_parts_of performer threshold n s =
      let (w, t) = serialize_performer N s in
      let (x, m, u) = serialize_performer_update N threshold n t in
      (record no_parts { performer = some w; performer_update = some x }, m, u)
  full_parts_of rigidbody threshold n s =
      let (w, t) = serialize_rigidbody N s in
      let (x, m, u) = serialize_rigidbody_update N threshold n t in
      (record no_parts { rigidbody = some w; rigidbody_update = some x }, m, u)
  full_parts_of camera threshold n s =
      let (w, t) = serialize_camera N s in
      let (x, m, u) = serialize_camera_update N threshold n t in
      (record no_parts { camera = some w; camera_update = some x }, m, u)

  -- One turn of the loop of `serializeUpdate`, for a subject that is enabled.
  unfoldable pub update_parts_of : Kind → F → ℕ → Subject F → Parts F × ℕ × Subject F
  unfolding serialize_performer_update serialize_rigidbody_update serialize_camera_update
  update_parts_of plain threshold n s = (no_parts, n, s)
  update_parts_of performer threshold n s =
      let (x, m, u) = serialize_performer_update N threshold n s in
      (record no_parts { performer_update = some x }, m, u)
  update_parts_of rigidbody threshold n s =
      let (x, m, u) = serialize_rigidbody_update N threshold n s in
      (record no_parts { rigidbody_update = some x }, m, u)
  update_parts_of camera threshold n s =
      let (x, m, u) = serialize_camera_update N threshold n s in
      (record no_parts { camera_update = some x }, m, u)

  -- A turn is passed over for a subject that is not enabled.
  abbrev pub turn :
      (Kind → F → ℕ → Subject F → Parts F × ℕ × Subject F)
      → F
      → ℕ
      → Subject F
      → Parts F × ℕ × Subject F
  turn f threshold n s = if s.enabled then f s.kind threshold n s else (no_parts, n, s)

  unfoldable pub collect :
      (Kind → F → ℕ → Subject F → Parts F × ℕ × Subject F) → F → ℕ → List (Subject F) → Vectors F
  collect f threshold n [] = record {
    performers = [];
    performer_updates = [];
    rigidbodies = [];
    rigidbody_updates = [];
    cameras = [];
    camera_updates = [];
    count = n;
    items = [];
  }
  collect f threshold n (s ∷ ss) =
      let (p, m, u) = turn f threshold n s in
      let rest = collect f threshold m ss in
      record {
        performers = consider p.performer rest.performers;
        performer_updates = consider p.performer_update rest.performer_updates;
        rigidbodies = consider p.rigidbody rest.rigidbodies;
        rigidbody_updates = consider p.rigidbody_update rest.rigidbody_updates;
        cameras = consider p.camera rest.cameras;
        camera_updates = consider p.camera_update rest.camera_updates;
        count = rest.count;
        items = u ∷ rest.items;
      }

  -- `createRoot` with all of the vectors, and with those of the updates only.
  unfoldable pub full_root : Vectors F → F → String → Context → TimeEnvelope → Root F
  unfolding add_context add_time
  full_root v time timecode context envelope = record {
    performers = some v.performers;
    performer_updates = some v.performer_updates;
    rigidbodies = some v.rigidbodies;
    rigidbody_updates = some v.rigidbody_updates;
    cameras = some v.cameras;
    camera_updates = some v.camera_updates;
    time = time;
    timecode = some timecode;
    context = add_context context;
    envelope = add_time envelope;
  }

  unfoldable pub update_root : Vectors F → F → String → Context → TimeEnvelope → Root F
  unfolding add_context add_time
  update_root v time timecode context envelope = record {
    performers = none;
    performer_updates = some v.performer_updates;
    rigidbodies = none;
    rigidbody_updates = some v.rigidbody_updates;
    cameras = none;
    camera_updates = some v.camera_updates;
    time = time;
    timecode = some timecode;
    context = add_context context;
    envelope = add_time envelope;
  }

  module _ (encode : Root F → List ℕ) (crc : List ℕ → ℕ) (now : F) where
    abbrev stamp : F → F
    stamp timestamp = if equal timestamp null then now else timestamp

    -- `serialize`: the answer, the buffer, and the list.
    unfoldable pub serialize_list :
        F → String → List ℕ → SubjectList N → Bool × List ℕ × SubjectList N
    unfolding collect full_root finalize list_finite full_parts_of
    serialize_list timestamp timecode out l =
        let (b, e, ss) = list_finite N l.items in
        if not b
        then (false, out, record l { items = ss; error = e })
        else let v = collect (full_parts_of) l.threshold 0 ss in
          (
            true,
            finalize crc full_packet
                (encode (full_root v (stamp timestamp) timecode l.context l.envelope)),
            record l { items = v.items },
          )

    -- `serializeUpdate`: the answer, the buffer, the count, and the list.
    unfoldable pub serialize_list_update :
        F → String → List ℕ → SubjectList N → Bool × List ℕ × ℕ × SubjectList N
    unfolding collect update_root finalize list_finite update_parts_of
    serialize_list_update timestamp timecode out l =
        let (b, e, ss) = list_finite N l.items in
        if not b
        then (false, out, 0, record l { items = ss; error = e })
        else let v = collect (update_parts_of) l.threshold 0 ss in
          (
            true,
            finalize crc update_packet
                (encode (update_root v (stamp timestamp) timecode l.context l.envelope)),
            v.count,
            record l { items = v.items },
          )
