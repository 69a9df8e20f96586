-- ===== src/Model/RoundTrip.antt =====
-- A subject through `serialize` and `parse` of src/o3ds/model.cpp.
use open3dstream.Base.{
  get_elem?-map, get_elem?-unmap, ℕ, List, [], ◌∷◌, ◌++◌, map, Option, some, true, get_elem?, ◌≡◌,
  refl, sym, ap, ◌∙◌, length-map, some_eq,
}
use mathlib.Core.Path.{subst}
use open3dstream.Base.Options.{◌>>=◌}
use open3dstream.Numerics.{Matrix, Numerics}
use open3dstream.Model.Types.{Component, Transform, Subject}
use open3dstream.Model.Transform.{vector_of, rotation_of, vector_sent, rotation_sent}
use open3dstream.Model.Wire.{
  narrow_vector, narrow_rotation, narrow_matrix, read_vector, read_rotation, read_matrix,
}
use open3dstream.Model.Subject.{
  component_codes, components_of, serialize_transform, parse_transform, serialize_nodes, serialize,
  parse_nodes, parse,
}
use open3dstream.Model.Assertions.{
  NarrowsToNumber, serialize_assert, parse_assert, parse_assert-serialize,
}
use open3dstream.Model.Tracking.{float_triple, float_quad, Follows, Tracks}

-- The components that the schema knows.
abbrev pub known_components : List Component → List Component
known_components [] = []
known_components (Component.orientation ∷ cs) = known_components cs
known_components (c ∷ cs) = c ∷ known_components cs

components_of-component_codes :
    (cs : List Component) → components_of (component_codes cs) ≡ known_components cs
unfolding component_codes components_of
components_of-component_codes [] = refl
components_of-component_codes (Component.translation ∷ cs) =
    ap (λ xs. Component.translation ∷ xs) (components_of-component_codes cs)
components_of-component_codes (Component.rotation ∷ cs) =
    ap (λ xs. Component.rotation ∷ xs) (components_of-component_codes cs)
components_of-component_codes (Component.orientation ∷ cs) = components_of-component_codes cs
components_of-component_codes (Component.scale ∷ cs) =
    ap (λ xs. Component.scale ∷ xs) (components_of-component_codes cs)
components_of-component_codes (Component.matrix ∷ cs) =
    ap (λ xs. Component.matrix ∷ xs) (components_of-component_codes cs)

module _ (N : Numerics) (fresh : Transform (N.F)) where
  open N use {F}

  -- The transform that the receiver makes of `t`: its values narrowed to `float`, its name, parent
  -- and order, and its matrices.
  abbrev pub copy : Transform F → Transform F
  copy t = record fresh {
    name = t.name;
    parent = t.parent;
    translation = vector_of N (float_triple N t.translation.value);
    rotation = rotation_of N (float_quad N t.rotation.value);
    scale = vector_of N (float_triple N t.scale.value);
    order = fresh.order ++ known_components t.order;
    matrices = fresh.matrices ++ map (narrow_matrix N) t.matrices;
  }

  read-narrow :
      (ms : List (Matrix F))
      → map (read_matrix N) (map (narrow_matrix N) ms) ≡ map (narrow_matrix N) ms
  unfolding read_matrix narrow_matrix
  read-narrow [] = refl
  read-narrow (m ∷ ms) = ap (λ xs. narrow_matrix N m ∷ xs) (read-narrow ms)

  transform-copy :
      (t : Transform F) → parse_transform N fresh (serialize_transform N t).0 ≡ some (copy t)
  unfolding serialize_transform parse_transform read_vector read_rotation narrow_vector
      narrow_rotation
  transform-copy t = rw (components_of-component_codes t.order, read-narrow t.matrices) refl

  nodes-copy :
      (ts : List (Transform F)) → parse_nodes N fresh (serialize_nodes N ts).0 ≡ some (map copy ts)
  unfolding serialize_nodes parse_nodes
  nodes-copy [] = refl
  nodes-copy (t ∷ ts) =
      ap
        (λ (o : Option (Transform F)).
          o >>= λ u. parse_nodes N fresh (serialize_nodes N ts).0 >>= λ us. some (u ∷ us))
        (transform-copy t)
      ∙ ap (λ (o : Option (List (Transform F))). o >>= λ us. some (copy t ∷ us)) (nodes-copy ts)

  nodes-sent :
      (ts : List (Transform F))
      → (serialize_nodes N ts).1 ≡ map (λ t. (serialize_transform N t).1) ts
  unfolding serialize_nodes
  nodes-sent [] = refl
  nodes-sent (t ∷ ts) = ap (λ us. (serialize_transform N t).1 ∷ us) (nodes-sent ts)

  copy-Follows : (t : Transform F) → Follows N (serialize_transform N t).1 (copy t)
  unfolding serialize_transform vector_of rotation_of vector_sent rotation_sent
  copy-Follows t = (refl, refl)

  track_at :
      (ts : List (Transform F)) (k : ℕ) (t v : Transform F)
      → get_elem? (map (λ x. (serialize_transform N x).1) ts) k ≡ some t
      → get_elem? (map copy ts) k ≡ some v
      → Follows N t v
  track_at ts k t v g e =
      let (x, a, b) = get_elem?-unmap (λ u. (serialize_transform N u).1) ts k t g in
      subst (λ u. Follows N u v) b
        (subst (Follows N (serialize_transform N x).1)
          (some_eq (sym (get_elem?-map copy ts k x a) ∙ e)) (copy-Follows x))

  -- Without the assertions.
  pub subject-copy :
      (s r : Subject F)
      → (u : Subject F) × (parse N fresh (serialize N s).0 r ≡ some u)
        × (u.name ≡ s.name)
        × (u.uuid ≡ s.uuid)
        × (u.transforms ≡ map copy s.transforms)
        × Tracks N (serialize N s).1.transforms u.transforms
  unfolding serialize parse
  subject-copy s r = (
    record r { name = s.name; uuid = s.uuid; transforms = map copy s.transforms },
    rw (nodes-copy s.transforms) refl,
    refl,
    refl,
    refl,
    rw (nodes-sent s.transforms) (
      length-map s.transforms copy
          ∙ sym (length-map s.transforms (λ t. (serialize_transform N t).1)),
      track_at s.transforms,
    ),
  )

  -- A subject with finite translations, so that no assertion of `serialize` fails, is parsed, into any
  -- subject, and no assertion of `parse` fails, given the IEEE fact that the `float` next to a finite
  -- number is not a NaN. The name and the unique id are the sender's, and each transform is the
  -- sender's with its values narrowed to `float`, in the order of the sender's and in place of those
  -- that were there, less the components that the schema does not have. The receiver then has every
  -- transform as the sender noted it to be sent.
  pub subject_roundtrip :
      (s r : Subject F)
      → NarrowsToNumber N
      → serialize_assert N s ≡ true
      → (u : Subject F) × (parse N fresh (serialize N s).0 r ≡ some u)
        × (u.name ≡ s.name)
        × (u.uuid ≡ s.uuid)
        × (u.transforms ≡ map copy s.transforms)
        × Tracks N (serialize N s).1.transforms u.transforms
        × (parse_assert N (serialize N s).0 ≡ true)
  subject_roundtrip s r law finite =
      let (u, p, a, b, c, t) = subject-copy s r in
      (u, p, a, b, c, t, parse_assert-serialize N s law finite)
