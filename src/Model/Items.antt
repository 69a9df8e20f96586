-- ===== src/Model/Items.antt =====
-- The lists of transforms and of subjects in src/o3ds/model.cpp: copies, comparisons, searches,
-- checks. What can fail with an error answers with the subject that holds it.
use Prim.Native.String.{String}
use open3dstream.Base.Options.{◌>>=◌}
use open3dstream.Base.{
  ℕ, suc, List, [], ◌∷◌, ◌++◌, Option, none, some, Bool, true, false, not, ◌&&◌, if◌then◌else◌,
  get_elem?, ◌==◌,
}
use open3dstream.Base.Int.{ℤ, eqb_ℤ}
use open3dstream.Numerics.{Triple, Quad, Matrix, Numerics}
use open3dstream.Context.Conversion.{ConversionContext}
use open3dstream.Model.Types.{
  Component, Transform, Message, nothing, invalid_transform, Kind, Lens, Subject,
}
use open3dstream.Model.Transform.{zero_vector, identity_quaternion, update, all_finite}
use open3dstream.Model.Hierarchy.{Outcome, done, failed, fault, calc_matrices}

abbrev component_number : Component → ℕ
component_number Component.translation = 0
component_number Component.rotation = 1
component_number Component.orientation = 2
component_number Component.scale = 3
component_number Component.matrix = 4

-- `==` of two vectors, given that of their elements.
pub same_lists : {A : Type 0} → (A → A → Bool) → List A → List A → Bool
same_lists f [] [] = true
same_lists f [] (y ∷ ys) = false
same_lists f (x ∷ xs) [] = false
same_lists f (x ∷ xs) (y ∷ ys) = f x y && same_lists f xs ys

-- `same_name` is `==` of `std::string`, and `tolerance` the `double` 1e-6.
module _ (N : Numerics) (same_name : String → String → Bool) (tolerance : N.F) where
  open N use {F, equal, less, literal, normalized, angular_distance}

  -- The copy constructor: the world matrix becomes the local one.
  unfoldable pub copy_transform : Transform F → Transform F
  copy_transform t = record t {
    translation = record { value = t.translation.value; last_sent = zero_vector N };
    rotation = record { value = t.rotation.value; last_sent = identity_quaternion N };
    scale = record { value = t.scale.value; last_sent = zero_vector N };
    world_matrix = t.matrix;
  }

  abbrev same_triple : Triple F → Triple F → Bool
  same_triple a b = equal a.x b.x && (equal a.y b.y && equal a.z b.z)

  abbrev same_quad : Quad F → Quad F → Bool
  same_quad a b = equal a.x b.x && (equal a.y b.y && (equal a.z b.z && equal a.w b.w))

  abbrev same_matrix : Matrix F → Matrix F → Bool
  same_matrix a b =
      same_quad a.x b.x && (same_quad a.y b.y && (same_quad a.z b.z && same_quad a.w b.w))

  -- `Transform::operator==`.
  unfoldable pub same_transform : Transform F → Transform F → Bool
  unfolding same_lists
  same_transform a b =
      same_name a.name b.name
      && (eqb_ℤ a.parent b.parent
          && (same_triple a.translation.value b.translation.value
              && (not (
                    less tolerance (
                      angular_distance (normalized a.rotation.value) (normalized b.rotation.value)))
                  && (same_triple a.scale.value b.scale.value
                      && (same_lists (λ c d. component_number c == component_number d) a.order
                            b.order
                          && same_lists same_matrix a.matrices b.matrices)))))

  -- `TransformList::at`, `find` and `operator==`.
  unfoldable pub at : List (Transform F) → ℕ → Option (Transform F)
  at ts i = get_elem? ts i

  unfoldable pub find : List (Transform F) → String → Option (Transform F)
  find [] name = none
  find (t ∷ ts) name = if same_name t.name name then some t else find ts name

  unfoldable pub same_transforms : List (Transform F) → List (Transform F) → Bool
  unfolding same_transform same_lists
  same_transforms ts us = same_lists same_transform ts us

module _ (N : Numerics) where
  open N use {F}

  -- `TransformList::update`.
  unfoldable pub update_all : List (Transform F) → Option (List (Transform F))
  unfolding update
  update_all [] = some []
  update_all (t ∷ ts) = do u ← update N t; us ← update_all ts; some (u ∷ us)

  -- `SubjectList::update`, with `Subject::update` of each.
  unfoldable pub update_subjects : List (Subject F) → Option (List (Subject F))
  unfolding update_all
  update_subjects [] = some []
  update_subjects (s ∷ ss) = do
    ts ← update_all s.transforms
    us ← update_subjects ss
    some (record s { transforms = ts } ∷ us)

  -- The constructor of `Subject`.
  unfoldable pub new_subject : Kind → Lens F → String → String → Subject F
  new_subject kind lens name uuid = record {
    kind = kind;
    name = name;
    uuid = uuid;
    transforms = [];
    error = nothing;
    enabled = true;
    lens = lens;
  }

  -- The first transform that is not finite.
  unfoldable pub first_invalid : List (Transform F) → Option (Transform F)
  unfolding all_finite
  first_invalid [] = none
  first_invalid (t ∷ ts) = if all_finite N t then first_invalid ts else some t

  -- `Subject::allFinite`.
  unfoldable pub subject_finite : Subject F → Bool × Subject F
  unfolding first_invalid
  subject_finite s = elim (first_invalid s.transforms) [
    | none ↦ (true, s)
    | some t ↦ (false, record s { error = invalid_transform t.name })
  ]

  -- `addTransform` with a transform, which is the builder's or a new one.
  unfoldable pub add_transform : Transform F → Subject F → Subject F
  add_transform t s = record s { transforms = s.transforms ++ (t ∷ []) }

  -- `addTransform` with a name and a parent.
  unfoldable pub add_named : Transform F → String → ℤ → Subject F → Subject F
  unfolding add_transform
  add_named t name parent s = add_transform (record t { name = name; parent = parent }) s

  unfoldable pub clear_transforms : Subject F → Subject F
  clear_transforms s = record s { transforms = [] }

  unfoldable pub clear_all : Subject F → Subject F
  clear_all s = record s { transforms = []; name = ""; uuid = ""; error = nothing }

  -- `SubjectList::activeCount`.
  unfoldable pub active_count : List (Subject F) → ℕ
  active_count [] = 0
  active_count (s ∷ ss) = let n = active_count ss in if s.enabled then suc n else n

  -- `SubjectList::allFinite`: the answer, the error if it is no, and the subjects.
  unfoldable pub list_finite : List (Subject F) → Bool × Message × List (Subject F)
  unfolding subject_finite
  list_finite [] = (true, nothing, [])
  list_finite (s ∷ ss) =
      let (b, u) = subject_finite s in
      let (c, e, us) = list_finite ss in if b then (c, e, u ∷ us) else (false, u.error, u ∷ ss)

  -- What `Subject::calcMatrices` leaves in the subject.
  abbrev pub with_matrices : Subject F → Outcome F → Option (Bool × Subject F)
  with_matrices s (done ts) = some (true, record s { transforms = ts })
  with_matrices s (failed e ts) = some (false, record s { transforms = ts; error = e })
  with_matrices s fault = none

  unfoldable pub subject_matrices :
      Option (ConversionContext N) → Subject F → Option (Bool × Subject F)
  unfolding calc_matrices
  subject_matrices conv s = with_matrices s (calc_matrices N conv s.transforms)

  -- `SubjectList::calcMatrices`: the answer, the error if it is no, and the subjects.
  unfoldable pub list_matrices :
      Option (ConversionContext N) → List (Subject F) → Option (Bool × Message × List (Subject F))
  unfolding subject_matrices
  list_matrices conv [] = some (true, nothing, [])
  list_matrices conv (s ∷ ss) =
      let rest = list_matrices conv ss in
      subject_matrices conv s >>= λ r.
      if r.0 then (rest >>= λ q. some (q.0, q.1, r.1 ∷ q.2)) else some (false, r.1.error, r.1 ∷ ss)
