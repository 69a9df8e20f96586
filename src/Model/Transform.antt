-- ===== src/Model/Transform.antt =====
-- `Transform` of src/o3ds/model.cpp, its components (transform_component.h) and the matrices of
-- math.cpp. A read past the end of `mMatrices` is `none`.
use Prim.Native.String.{String}
use open3dstream.Base.{List, [], ◌∷◌, Option, some, none, Bool, true, false, ◌&&◌}
use open3dstream.Base.Int.{ℤ, negsuc}
use open3dstream.Numerics.{Triple, Quad, Matrix, Numerics}
use open3dstream.Model.Types.{Component, Vector, Rotation, Transform}

module _ (N : Numerics) where
  open N use {F, null, one, is_finite, product, distance, angular_distance, rotation_matrix, abs}

  abbrev pub zero_vector : Triple F
  zero_vector = record { x = null; y = null; z = null }

  abbrev pub identity_quaternion : Quad F
  identity_quaternion = record { x = null; y = null; z = null; w = one }

  abbrev pub zero_quaternion : Quad F
  zero_quaternion = record { x = null; y = null; z = null; w = null }

  -- `translate`, `scale` and `fromQuaternion` of math.cpp.
  abbrev pub identity_matrix : Matrix F
  identity_matrix = record {
    x = record { x = one; y = null; z = null; w = null };
    y = record { x = null; y = one; z = null; w = null };
    z = record { x = null; y = null; z = one; w = null };
    w = record { x = null; y = null; z = null; w = one };
  }

  unfoldable pub translate : Triple F → Matrix F
  translate v = record {
    x = record { x = one; y = null; z = null; w = v.x };
    y = record { x = null; y = one; z = null; w = v.y };
    z = record { x = null; y = null; z = one; w = v.z };
    w = record { x = null; y = null; z = null; w = one };
  }

  unfoldable pub scale_matrix : Triple F → Matrix F
  scale_matrix v = record {
    x = record { x = v.x; y = null; z = null; w = null };
    y = record { x = null; y = v.y; z = null; w = null };
    z = record { x = null; y = null; z = v.z; w = null };
    w = record { x = null; y = null; z = null; w = one };
  }

  unfoldable pub from_quaternion : Quad F → Matrix F
  from_quaternion q =
      let r = rotation_matrix q in
      record {
        x = record { x = r.x.x; y = r.x.y; z = r.x.z; w = null };
        y = record { x = r.y.x; y = r.y.y; z = r.y.z; w = null };
        z = record { x = r.z.x; y = r.z.y; z = r.z.z; w = null };
        w = record { x = null; y = null; z = null; w = one };
      }

  -- The constructors of the components from values, and `sent` and `delta`; Model/Assertions has the
  -- assertions in those of a translation.
  unfoldable pub vector_of : Triple F → Vector F
  vector_of v = record { value = v; last_sent = zero_vector }

  unfoldable pub rotation_of : Quad F → Rotation F
  rotation_of q = record { value = q; last_sent = zero_quaternion }

  unfoldable pub vector_sent : Vector F → Vector F
  vector_sent v = record v { last_sent = v.value }

  unfoldable pub rotation_sent : Rotation F → Rotation F
  rotation_sent r = record r { last_sent = r.value }

  unfoldable pub vector_delta : Vector F → F
  vector_delta v = distance v.value v.last_sent

  unfoldable pub rotation_delta : Rotation F → F
  rotation_delta r = abs (angular_distance r.last_sent r.value)

  -- The constructor with a name and a parent. That of the rotation from a quaternion leaves
  -- `lastSentValue` without a value, which is a parameter here.
  unfoldable pub named_transform : Quad F → String → ℤ → Transform F
  named_transform unset name parent = record {
    translation = vector_of zero_vector;
    rotation = record { value = identity_quaternion; last_sent = unset };
    scale = vector_of (record { x = one; y = one; z = one });
    matrix = identity_matrix;
    world_matrix = identity_matrix;
    has_world = false;
    matrices = [];
    order = [];
    name = name;
    parent = parent;
  }

  -- The constructor without arguments.
  unfoldable pub new_transform : Quad F → Transform F
  unfolding named_transform vector_of
  new_transform unset = named_transform unset "" (negsuc 0)

  -- The loop of `update` over the components; matrices are taken in turn.
  unfoldable pub compose :
      Transform F → Matrix F → List Component → List (Matrix F) → Option (Matrix F)
  compose t m [] ms = some m
  compose t m (Component.translation ∷ ops) ms =
      compose t (product m (translate t.translation.value)) ops ms
  compose t m (Component.rotation ∷ ops) ms =
      compose t (product m (from_quaternion t.rotation.value)) ops ms
  compose t m (Component.scale ∷ ops) ms = compose t (product m (scale_matrix t.scale.value)) ops ms
  compose t m (Component.orientation ∷ ops) ms = compose t m ops ms
  compose t m (Component.matrix ∷ ops) [] = none
  compose t m (Component.matrix ∷ ops) (n ∷ ms) = compose t (product m n) ops ms

  -- `update`: the local matrix from the components, in their order.
  unfoldable pub update : Transform F → Option (Transform F)
  update t = elim (compose t identity_matrix t.order t.matrices) [
    | none ↦ none
    | some m ↦ some (record t { has_world = false; matrix = m })
  ]

  abbrev pub finite_triple : Triple F → Bool
  finite_triple v = is_finite v.x && (is_finite v.y && is_finite v.z)

  abbrev pub finite_quad : Quad F → Bool
  finite_quad v = is_finite v.x && (is_finite v.y && (is_finite v.z && is_finite v.w))

  abbrev pub finite_matrix : Matrix F → Bool
  finite_matrix m = finite_quad m.x && (finite_quad m.y && (finite_quad m.z && finite_quad m.w))

  unfoldable pub finite_matrices : List (Matrix F) → Bool
  finite_matrices [] = true
  finite_matrices (m ∷ ms) = finite_matrix m && finite_matrices ms

  -- `allFinite`.
  unfoldable pub all_finite : Transform F → Bool
  unfolding finite_matrices
  all_finite t =
      finite_matrix t.matrix
      && (finite_matrix t.world_matrix
          && (finite_triple t.translation.value
              && (finite_triple t.scale.value
                  && (finite_quad t.rotation.value && finite_matrices t.matrices))))

  -- `setOrderTRS`.
  unfoldable pub set_order_trs : Transform F → Transform F
  set_order_trs t = record t {
    order = Component.translation ∷ Component.rotation ∷ Component.scale ∷ [];
  }
