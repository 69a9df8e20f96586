-- ===== src/Model/Subject.antt =====
-- `Transform::serialize` and `parse`, and `Subject::serialize` and `parse` of src/o3ds/model.cpp. An
-- operation that changes the object answers with the new one beside its result; `none` is the use
-- of a null pointer.
use open3dstream.Base.Options.{◌>>=◌}
use open3dstream.Base.{List, [], ◌∷◌, ◌++◌, map, Option, some, none, if◌then◌else◌, ◌==◌}
use open3dstream.Base.Int.{ℤ, pos, negsuc}
use open3dstream.Numerics.{Triple, Quad, Numerics}
use open3dstream.Model.Types.{Component, Vector, Rotation, Transform, Subject}
use open3dstream.Model.Transform.{vector_sent, rotation_sent}
use open3dstream.Model.Wire.{
  WireTransform, WireSubject, component_code, narrow_vector, narrow_rotation, narrow_matrix,
  read_vector, read_rotation, read_matrix,
}

abbrev pub consider {ℓ} : {A : Type ℓ} → Option A → List A → List A
consider none xs = xs
consider (some x) xs = x ∷ xs

-- The components that are sent, and what a received code adds to the order.
unfoldable pub component_codes : List Component → List ℤ
component_codes [] = []
component_codes (c ∷ cs) = consider (component_code c) (component_codes cs)

abbrev pub component_of : ℤ → Option Component
component_of (pos n) =
    if n == 0
    then some Component.translation
    else if n == 1
    then some Component.rotation
    else if n == 2
    then some Component.scale
    else if n == 3
    then some Component.matrix
    else none
component_of (negsuc n) = none

unfoldable pub components_of : List ℤ → List Component
components_of [] = []
components_of (z ∷ zs) = consider (component_of z) (components_of zs)

module _ (N : Numerics) where
  open N use {F}

  -- `Transform::serialize`: the translation and the rotation count as sent.
  unfoldable pub serialize_transform : Transform F → WireTransform F × Transform F
  unfolding component_codes narrow_vector narrow_rotation narrow_matrix vector_sent rotation_sent
  serialize_transform t = (
    record {
      parent = t.parent;
      name = some t.name;
      translation = some (narrow_vector N t.translation);
      rotation = some (narrow_rotation N t.rotation);
      scale = some (narrow_vector N t.scale);
      matrix = some (map (narrow_matrix N) t.matrices);
      components = some (component_codes t.order);
    },
    record t { translation = vector_sent N t.translation; rotation = rotation_sent N t.rotation },
  )

  abbrev pub given_vector : Option (Triple F) → Vector F → Vector F
  given_vector none v = v
  given_vector (some w) v = read_vector N w

  abbrev pub given_rotation : Option (Quad F) → Rotation F → Rotation F
  given_rotation none r = r
  given_rotation (some q) r = read_rotation N q

  -- `Transform::parse` into the transform `t`.
  unfoldable pub parse_transform : Transform F → WireTransform F → Option (Transform F)
  unfolding components_of read_vector read_rotation read_matrix
  parse_transform t w = do
    name ← w.name
    components ← w.components
    matrices ← w.matrix
    some (record t {
      name = name;
      parent = w.parent;
      translation = given_vector w.translation t.translation;
      rotation = given_rotation w.rotation t.rotation;
      scale = given_vector w.scale t.scale;
      order = t.order ++ components_of components;
      matrices = t.matrices ++ map (read_matrix N) matrices;
    })

  -- `Subject::serialize`.
  unfoldable pub serialize_nodes : List (Transform F) → List (WireTransform F) × List (Transform F)
  unfolding serialize_transform
  serialize_nodes [] = ([], [])
  serialize_nodes (t ∷ ts) =
      let (ws, us) = serialize_nodes ts in let (w, u) = serialize_transform t in (w ∷ ws, u ∷ us)

  unfoldable pub serialize : Subject F → WireSubject F × Subject F
  unfolding serialize_nodes
  serialize s =
      let (ws, us) = serialize_nodes s.transforms in
      (
        record { nodes = some ws; name = some s.name; uuid = some s.uuid },
        record s { transforms = us },
      )

  -- `Subject::parse`; `fresh` is the transform that `addTransform` makes.
  unfoldable pub parse_nodes : Transform F → List (WireTransform F) → Option (List (Transform F))
  unfolding parse_transform
  parse_nodes fresh [] = some []
  parse_nodes fresh (w ∷ ws) = do
    t ← parse_transform fresh w
    ts ← parse_nodes fresh ws
    some (t ∷ ts)

  unfoldable pub parse : Transform F → WireSubject F → Subject F → Option (Subject F)
  unfolding parse_nodes
  parse fresh w s = do
    name ← w.name
    uuid ← w.uuid
    nodes ← w.nodes
    ts ← parse_nodes fresh nodes
    some (record s { name = name; uuid = uuid; transforms = ts })
