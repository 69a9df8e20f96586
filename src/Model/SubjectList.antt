-- ===== src/Model/SubjectList.antt =====
-- `SubjectList` of src/o3ds/model.h and the root table of src/o3ds.fbs: the list of subjects, the
-- search for one by its unique id, and what is done to the one that is found.
pub mod Send
pub mod Receive
pub mod Lookup
pub mod Stages
pub mod Collected
pub mod Turns
pub mod Follow
pub mod Full
pub mod Changes
pub mod Packets
pub mod Finished
pub mod Session
pub mod Clash
pub mod Shape
mod Tests
use Prim.Native.String.{String}
use open3dstream.Base.Options.{◌>>=◌}
use open3dstream.Base.Strings.{same_text}
use open3dstream.Base.{ℕ, List, [], ◌∷◌, ◌++◌, Option, some, none, Bool, ◌==◌, ◌||◌, if◌then◌else◌}
use open3dstream.Numerics.{Numerics}
use open3dstream.Context.Axes.{Context}
use open3dstream.Context.Conversion.{ConversionContext}
use open3dstream.Model.Types.{
  Message, nothing, Kind, plain, performer, rigidbody, camera, Lens, Subject,
}
use open3dstream.Model.Bodies.{
  WirePerformer, WirePerformerUpdate, WireRigidbody, WireRigidbodyUpdate,
}
use open3dstream.Model.Camera.{WireCamera, WireCameraUpdate}
use open3dstream.Model.Envelope.{TimeEnvelope, WireTime}
use open3dstream.Model.Codes.{WireContext}
use open3dstream.Model.Items.{new_subject}

abbrev kind_number : Kind → ℕ
kind_number plain = 0
kind_number performer = 1
kind_number rigidbody = 2
kind_number camera = 3

abbrev is_base : Kind → Bool
is_base k = kind_number k == 0

-- `dynamic_cast` finds a subject of the class `k` to be of the class `j`: each is of the base class.
abbrev pub same_kind : Kind → Kind → Bool
same_kind k j = is_base j || kind_number k == kind_number j

-- `table SubjectList`.
pub record Root (A : Type 0) : Type 0 where
  pub performers : Option (List (WirePerformer A))
  pub performer_updates : Option (List (WirePerformerUpdate A))
  pub rigidbodies : Option (List (WireRigidbody A))
  pub rigidbody_updates : Option (List (WireRigidbodyUpdate A))
  pub cameras : Option (List (WireCamera A))
  pub camera_updates : Option (List (WireCameraUpdate A))
  pub time : A
  pub timecode : Option String
  pub context : WireContext
  pub envelope : WireTime

module _ (N : Numerics) where
  open N use {F, null}

  pub record SubjectList : Type 0 where
    pub items : List (Subject F)
    pub time : F
    pub timecode : String
    pub envelope : TimeEnvelope
    pub threshold : F
    pub error : Message
    pub context : Context
    pub conversion : Option (ConversionContext N)

  -- The fields that the constructor of `CameraSubject` clears.
  abbrev pub no_lens : Lens F
  no_lens = record {
    film_back_width = null;
    film_back_height = null;
    focal_length = null;
    aspect = null;
    focus_distance = null;
    aperture = null;
  }

  -- The subject that `findOrAddSubject` makes.
  unfoldable pub added_subject : Kind → String → Subject F
  unfolding new_subject
  added_subject kind uuid = new_subject N kind no_lens "" uuid

  -- `findSubjectByUuid`, and the change that `parse` makes to the subject, if there is one. The
  -- first subject with the id is the one that is found, and then it has to be of the class.
  unfoldable pub change_subject :
      Kind
      → String
      → (Subject F → Option (Subject F))
      → List (Subject F)
      → Option (List (Subject F))
  unfolding same_text
  change_subject k uuid f [] = some []
  change_subject k uuid f (s ∷ ss) =
      let rest = change_subject k uuid f ss in
      if same_text s.uuid uuid
      then (if same_kind s.kind k then (f s >>= λ t. some (t ∷ ss)) else some (s ∷ ss))
      else (rest >>= λ us. some (s ∷ us))

  -- `findOrAddSubject`, and the change that `parse` makes to the subject.
  unfoldable pub change_or_add :
      Kind
      → String
      → (Subject F → Option (Subject F))
      → List (Subject F)
      → Option (List (Subject F))
  unfolding same_text added_subject
  change_or_add k uuid f [] = f (added_subject k uuid) >>= λ t. some (t ∷ [])
  change_or_add k uuid f (s ∷ ss) =
      let rest = change_or_add k uuid f ss in
      if same_text s.uuid uuid
      then (if same_kind s.kind k
          then (f s >>= λ t. some (t ∷ ss))
          else (f (added_subject k uuid) >>= λ t. some (s ∷ (ss ++ (t ∷ [])))))
      else (rest >>= λ us. some (s ∷ us))

  -- `findSubjectByName`: the first subject with the name, if it is of the class.
  abbrev cast : Kind → Subject F → Option (Subject F)
  cast k s = if same_kind s.kind k then some s else none

  unfoldable pub find_by_name : Kind → String → List (Subject F) → Option (Subject F)
  unfolding same_text
  find_by_name k name [] = none
  find_by_name k name (s ∷ ss) =
      let rest = find_by_name k name ss in if same_text s.name name then cast k s else rest

  -- `setDeltaThreshold`.
  abbrev pub set_threshold : F → SubjectList → SubjectList
  set_threshold threshold l = record l { threshold = threshold }

  -- A loop over a vector of the root.
  unfoldable pub each :
      {W : Type 0}
      → (W → List (Subject F) → Option (List (Subject F)))
      → List W
      → List (Subject F)
      → Option (List (Subject F))
  each f [] ss = some ss
  each f (w ∷ ws) ss = f w ss >>= each f ws

  -- A vector that the root does not have is passed over.
  unfoldable pub each_of :
      {W : Type 0}
      → (W → List (Subject F) → Option (List (Subject F)))
      → Option (List W)
      → List (Subject F)
      → Option (List (Subject F))
  unfolding each
  each_of f none ss = some ss
  each_of f (some ws) ss = each f ws ss
