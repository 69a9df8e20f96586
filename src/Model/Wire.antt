-- ===== src/Model/Wire.antt =====
-- The tables of src/o3ds.fbs that carry subjects, and the operators of src/o3ds/model.cpp that
-- fill and read their structs. A string or a vector that a table does not have is `none`; its
-- use in the source dereferences a null pointer.
use Prim.Native.String.{String}
use open3dstream.Base.{List, Option}
use open3dstream.Base.Int.{ℤ, pos}
use open3dstream.Numerics.{Triple, Quad, Matrix, Numerics}
use open3dstream.Model.Types.{Component, Vector, Rotation}
use open3dstream.Model.Transform.{vector_of, rotation_of}

-- `table Transform`.
pub record WireTransform (A : Type 0) : Type 0 where
  pub parent : ℤ
  pub name : Option String
  pub translation : Option (Triple A)
  pub rotation : Option (Quad A)
  pub scale : Option (Triple A)
  pub matrix : Option (List (Matrix A))
  pub components : Option (List ℤ)

-- `table SubjectData`.
pub record WireSubject (A : Type 0) : Type 0 where
  pub nodes : Option (List (WireTransform A))
  pub name : Option String
  pub uuid : Option String

-- `struct TranslationUpdate`, `struct RotationUpdate` and `struct ScaleUpdate`: a value and the
-- index of its transform.
pub record Changed (A : Type 0) : Type 0 where
  pub value : A
  pub i : ℤ

-- `table SubjectUpdate`.
pub record WireUpdate (A : Type 0) : Type 0 where
  pub translation : Option (List (Changed (Triple A)))
  pub rotation : Option (List (Changed (Quad A)))
  pub scale : Option (List (Changed (Triple A)))
  pub uuid : Option String

-- `enum Component : byte`.
abbrev pub component_code : Component → Option ℤ
component_code Component.translation = Option.some (pos 0)
component_code Component.rotation = Option.some (pos 1)
component_code Component.scale = Option.some (pos 2)
component_code Component.matrix = Option.some (pos 3)
component_code Component.orientation = Option.none

module _ (N : Numerics) where
  open N use {F, single}

  -- The operators `>>` to a struct: each coordinate is narrowed to `float`.
  unfoldable pub narrow_vector : Vector F → Triple F
  narrow_vector v = record { x = single v.value.x; y = single v.value.y; z = single v.value.z }

  unfoldable pub narrow_rotation : Rotation F → Quad F
  narrow_rotation r = record {
    x = single r.value.x;
    y = single r.value.y;
    z = single r.value.z;
    w = single r.value.w;
  }

  abbrev pub narrow_row : Quad F → Quad F
  narrow_row q = record { x = single q.x; y = single q.y; z = single q.z; w = single q.w }

  unfoldable pub narrow_matrix : Matrix F → Matrix F
  narrow_matrix m = record {
    x = narrow_row m.x;
    y = narrow_row m.y;
    z = narrow_row m.z;
    w = narrow_row m.w;
  }

  -- The operators `>>` from a struct: a new component, of which nothing was sent. Model/Assertions has
  -- the assertions of its constructor.
  unfoldable pub read_vector : Triple F → Vector F
  unfolding vector_of
  read_vector v = vector_of N v

  unfoldable pub read_rotation : Quad F → Rotation F
  unfolding rotation_of
  read_rotation q = rotation_of N q

  unfoldable pub read_matrix : Matrix F → Matrix F
  read_matrix m = record {
    x = record { x = m.x.x; y = m.x.y; z = m.x.z; w = m.x.w };
    y = record { x = m.y.x; y = m.y.y; z = m.y.z; w = m.y.w };
    z = record { x = m.z.x; y = m.z.y; z = m.z.z; w = m.z.w };
    w = record { x = m.w.x; y = m.w.y; z = m.w.z; w = m.w.w };
  }
