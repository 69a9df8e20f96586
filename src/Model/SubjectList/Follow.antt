-- ===== src/Model/SubjectList/Follow.antt =====
-- A receiver of the packets of src/o3ds/model.cpp has a subject for each subject that the sender sends.
use open3dstream.Base.{List, Option, Bool, true, false}
use open3dstream.Numerics.{Numerics}
use open3dstream.Model.Types.{Kind, plain, performer, rigidbody, camera, Subject}
use open3dstream.Model.SubjectList.Stages.{Stage, AllAt}
use open3dstream.Model.SubjectList.Turns.{Mirror, Waiting}

abbrev pub When : Bool → Type 0 → Type 0
When true A = A
When false A = Unit {0}

module _ (N : Numerics) where
  open N use {F}

  -- The receiver has the subject as the sender has it, if it is one of the classes that are sent.
  abbrev pub Mirrored : Kind → Subject F → Option (Subject F) → Type 0
  Mirrored plain s o = Unit {0}
  Mirrored performer s o = Mirror N s.transforms s o
  Mirrored rigidbody s o = Mirror N s.transforms s o
  Mirrored camera s o = Mirror N s.transforms s o

  abbrev pub MirrorsOne : Stage N
  MirrorsOne s o = When s.enabled (Mirrored s.kind s o)

  -- The receiver has every subject that the sender sends.
  abbrev pub Mirrors : List (Subject F) → List (Subject F) → Type 0
  Mirrors ss rs = AllAt N MirrorsOne ss rs

  abbrev pub FitsKind : Kind → Subject F → Option (Subject F) → Type 0
  FitsKind plain s o = Unit {0}
  FitsKind performer s o = Waiting N s o
  FitsKind rigidbody s o = Waiting N s o
  FitsKind camera s o = Waiting N s o

  -- No id of a subject that is sent belongs to a subject of another class at the receiver.
  abbrev pub Fit : List (Subject F) → List (Subject F) → Type 0
  Fit ss rs = AllAt N (λ s o. When s.enabled (FitsKind s.kind s o)) ss rs
