-- ===== src/Model/Hierarchy.antt =====
-- `Subject::calcMatrices` of src/o3ds/model.cpp: the world matrices of a hierarchy.
pub mod Counting
pub mod OnePass
pub mod World
pub mod Kept
pub mod Tree
pub mod Reference
use open3dstream.Base.{
  ℕ, zero, suc, ◌+◌, List, [], ◌∷◌, Option, some, none, Bool, true, false, not, ◌&&◌, ◌||◌, length,
  get_elem?, set, ltb, leb, ◌==◌, if◌then◌else◌, map,
}
use open3dstream.Base.Int.{ℤ, pos, negsuc}
use open3dstream.Numerics.{Matrix, Numerics}
use open3dstream.Context.Conversion.{ConversionContext, is_identity, convert_matrix}
use open3dstream.Model.Types.{
  Transform, Message, invalid_xform, bad_calc, no_root, many_roots, cycle_detected, self_parent,
  invalid_parent, world_error,
}
use open3dstream.Model.Transform.{update, all_finite, finite_matrix}

-- How a step ends: with the transforms as they are then; with `false`, an error and the transforms
-- as they are then; or with a read outside of `mMatrices`.
pub data Outcome (A : Type 0) : Type 0 where
  done : List (Transform A) → Outcome A
  failed : Message → List (Transform A) → Outcome A
  fault : Outcome A

module _ (N : Numerics) where
  open N use {F, product}

  abbrev pub cons_outcome : Transform F → Outcome F → Outcome F
  cons_outcome t (done ts) = done (t ∷ ts)
  cons_outcome t (failed e ts) = failed e (t ∷ ts)
  cons_outcome t fault = fault

  -- The first loop: every transform is checked, updated and checked again.
  unfoldable pub prepare : List (Transform F) → Outcome F
  prepare [] = done []
  prepare (t ∷ ts) =
      let rest = prepare ts in
      if not (all_finite N t) then failed (invalid_xform t.name) (t ∷ ts) else elim (update N t) [
        | none ↦ fault
        | some u ↦
            if not (all_finite N u) then failed (bad_calc u.name) (u ∷ ts) else cons_outcome u rest
      ]

  abbrev pub is_root : Transform F → Bool
  is_root t = elim (t.parent) [ pos n ↦ false | negsuc n ↦ n == 0 ]

  -- The second loop: the world matrix of a root is its own matrix.
  abbrev pub mark_root : Transform F → Transform F
  mark_root t = if is_root t then record t { world_matrix = t.matrix; has_world = true } else t

  abbrev pub count_roots : List (Transform F) → ℕ
  count_roots [] = 0
  count_roots (t ∷ ts) = (if is_root t then 1 else 0) + count_roots ts

  -- What one transform does in the inner loop.
  pub data Visit : Type 0 where
    skip : Visit
    refuse : Message → Visit
    place : Matrix F → Visit

  unfoldable pub visit_parent : List (Transform F) → ℕ → Transform F → ℤ → Visit
  visit_parent ts i t (negsuc n) = refuse invalid_parent
  visit_parent ts i t (pos j) =
      if i == j then refuse (self_parent t.name i) else elim (get_elem? ts j) [
        | none ↦ refuse invalid_parent
        | some p ↦ if p.has_world then place (product p.world_matrix t.matrix) else skip
      ]

  unfoldable pub visit : List (Transform F) → ℕ → Transform F → Visit
  unfolding visit_parent
  visit ts i t = if t.has_world then skip else visit_parent ts i t t.parent

  pub data Sweep : Type 0 where
    swept : Bool → List (Transform F) → Sweep
    stopped : Message → List (Transform F) → Sweep

  -- The transform with its world matrix.
  abbrev pub placed : Transform F → Matrix F → Transform F
  placed t m = record t { world_matrix = m; has_world = true }

  -- The inner loop over the transforms `i` to `i + n - 1`; the flag is `done`.
  unfoldable pub sweep : ℕ → ℕ → Bool → List (Transform F) → Sweep
  unfolding visit
  sweep zero i flag ts = swept flag ts
  sweep (suc n) i flag ts = elim (get_elem? ts i) [
    | none ↦ swept flag ts
    | some t ↦ elim (visit ts i t) [
      | skip ↦ sweep n (suc i) flag ts
      | refuse e ↦ stopped e ts
      | place m ↦
          let ts' = set ts i (placed t m) in
          elim (finite_matrix N m) [
            | true ↦ sweep n (suc i) false ts'
            | false ↦ stopped (world_error t.name) ts'
          ]
    ]
  ]

  -- The outer loop: one call for each value of `iterations` up to the number of transforms.
  unfoldable pub passes : ℕ → List (Transform F) → Outcome F
  passes zero ts = failed cycle_detected ts
  passes (suc k) ts = elim (sweep (length ts) 0 true ts) [
    | swept true us ↦ done us
    | swept false us ↦ passes k us
    | stopped e us ↦ failed e us
  ]

  abbrev pub convert_world : ConversionContext N → Transform F → Transform F
  convert_world c t = record t { world_matrix = convert_matrix N c t.world_matrix }

  -- The end: a conversion that changes something is applied to every world matrix.
  unfoldable pub convert_all :
      Option (ConversionContext N) → List (Transform F) → List (Transform F)
  convert_all none ts = ts
  convert_all (some c) ts = if is_identity N c then ts else map (convert_world c) ts

  abbrev pub finish : Option (ConversionContext N) → Outcome F → Outcome F
  finish conv (done ts) = done (convert_all conv ts)
  finish conv (failed e ts) = failed e ts
  finish conv fault = fault

  abbrev pub hierarchy : Option (ConversionContext N) → Outcome F → Outcome F
  hierarchy conv (failed e ts) = failed e ts
  hierarchy conv fault = fault
  hierarchy conv (done ts) =
      let us = map mark_root ts in
      if count_roots ts == 0
      then failed no_root us
      else if ltb 1 (count_roots ts)
      then failed many_roots us
      else finish conv (passes (length us) us)

  unfoldable pub calc_matrices : Option (ConversionContext N) → List (Transform F) → Outcome F
  unfolding prepare passes sweep convert_all
  calc_matrices conv ts = hierarchy conv (prepare ts)
