-- ===== src/Model/Types.antt =====
-- The data of src/o3ds/model.h and transform_component.h. User pointers (`mReference`) and the list
-- of joints, which nothing here reads, are left out.
use Prim.Native.String.{String}
use open3dstream.Base.{ℕ, Bool, List}
use open3dstream.Base.Int.{ℤ}
use open3dstream.Numerics.{Triple, Quad, Matrix}

-- `enum ComponentType`.
pub data Component : Type 0 where
  translation rotation orientation scale matrix : Component

-- `TransformTranslation` and `TransformScale`.
pub record Vector (A : Type 0) : Type 0 where
  pub value : Triple A
  pub last_sent : Triple A

-- `TransformRotation`.
pub record Rotation (A : Type 0) : Type 0 where
  pub value : Quad A
  pub last_sent : Quad A

pub record Transform (A : Type 0) : Type 0 where
  pub translation : Vector A
  pub rotation : Rotation A
  pub scale : Vector A
  pub matrix : Matrix A
  pub world_matrix : Matrix A
  pub has_world : Bool
  pub matrices : List (Matrix A)
  pub order : List Component
  pub name : String
  pub parent : ℤ

-- The texts that `mError` is given, with the names that are put into them.
pub data Message : Type 0 where
  nothing : Message
  invalid_transform invalid_xform bad_calc world_error non_finite : String → Message
  no_root many_roots cycle_detected invalid_parent : Message
  self_parent : String → ℕ → Message
  null_data too_small invalid_structure crc_failed unverified invalid_conversion : Message

-- The class of a subject.
pub data Kind : Type 0 where
  plain performer rigidbody camera : Kind

-- The fields of `CameraSubject`; subjects of other classes do not use them.
pub record Lens (A : Type 0) : Type 0 where
  pub film_back_width : A
  pub film_back_height : A
  pub focal_length : A
  pub aspect : A
  pub focus_distance : A
  pub aperture : A

pub record Subject (A : Type 0) : Type 0 where
  pub kind : Kind
  pub name : String
  pub uuid : String
  pub transforms : List (Transform A)
  pub error : Message
  pub enabled : Bool
  pub lens : Lens A
