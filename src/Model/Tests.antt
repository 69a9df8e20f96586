-- ===== src/Model/Tests.antt =====
-- Runs of the models of src/o3ds/model.cpp, and their theorems at concrete subjects.
use mathlib.Core.Path.{subst}
use open3dstream.Model.Wire.{narrow_vector, narrow_rotation}
use open3dstream.Base.{
  ◌↔◌, ℕ, zero, suc, ◌<◌, List, [], ◌∷◌, map, Option, some, none, Bool, true, false, get_elem?,
  get_or, ◌≡◌, refl, arith, some_eq, ap, ◌∙◌, ◌≢◌, ◌+◌, if◌then◌else◌,
}
use open3dstream.Base.Int.{ℤ, pos, negsuc, ◌*ℤ◌, ◌+ℤ◌}
use open3dstream.Numerics.{Matrix}
use open3dstream.Numerics.Integers.{integers}
use open3dstream.Context.Axes.{unreal, valid, axis_id}
use open3dstream.Model.Types.{Kind, Message, Transform, Subject}
use open3dstream.Model.Transform.{
  zero_quaternion, named_transform, new_transform, set_order_trs, vector_of, update, compose,
  translate, from_quaternion, scale_matrix, all_finite, finite_matrices,
}
use open3dstream.Model.Hierarchy.{Outcome, done, failed, calc_matrices}
use open3dstream.Model.Hierarchy.World.{Calculates, calc_matrices-Calculates}
use open3dstream.Model.Hierarchy.Reference.{world_of, converted, calc_matrices-world_of}
use open3dstream.Model.Hierarchy.Tree.{calc_matrices-Ranked}
use open3dstream.Model.Subject.{serialize, parse}
use open3dstream.Model.Update.{serialize_update, parse_update}
use open3dstream.Model.Tracking.{Follows, Tracks, IsClose, update-Tracks}
use open3dstream.Model.Assertions.{NarrowsToNumber, serialize_assert, parse_assert}
use open3dstream.Model.RoundTrip.{copy, subject_roundtrip}
use open3dstream.Model.Camera.{
  serialize_camera, parse_camera, serialize_camera_update, parse_camera_update, lens_sent, Asserted,
  camera_roundtrip,
}
use open3dstream.Model.Envelope.{
  TimeEnvelope, no_envelope, is_valid, add_time, read_time, time_roundtrip,
}
use open3dstream.Model.Packet.{finalize, open_packet, accepted, IsFlags, open_packet-accepts}
use open3dstream.Model.Codes.{add_context, read_context, context_roundtrip}

-- A transform one unit along x from its parent.
abbrev joint : ℤ → Transform ℤ
joint parent =
    record (set_order_trs integers
      (named_transform integers (zero_quaternion integers) "joint" parent)) {
        translation = vector_of integers (record { x = pos 1; y = pos 0; z = pos 0 });
      }

abbrev chain : List (Transform ℤ)
chain = joint (pos 1) ∷ joint (negsuc 0) ∷ joint (pos 0) ∷ []

abbrev ring : List (Transform ℤ)
ring = joint (negsuc 0) ∷ joint (pos 2) ∷ joint (pos 1) ∷ []

abbrev known_of : Outcome ℤ → Option (List Bool)
known_of (done ts) = some (map (λ t. t.has_world) ts)
known_of (failed e ts) = none
known_of Outcome.fault = none

chain_known : known_of (calc_matrices integers none chain) ≡ some (true ∷ true ∷ true ∷ [])
unfolding calc_matrices update compose translate from_quaternion scale_matrix all_finite
    finite_matrices set_order_trs named_transform vector_of ◌*ℤ◌ ◌+ℤ◌
chain_known = refl

-- Two transforms that are each other's parents are passed over, with success.
ring_known : known_of (calc_matrices integers none ring) ≡ some (true ∷ false ∷ false ∷ [])
unfolding calc_matrices update compose translate from_quaternion scale_matrix all_finite
    finite_matrices set_order_trs named_transform vector_of ◌*ℤ◌ ◌+ℤ◌
ring_known = refl

calc_matrices-Calculates_example : Calculates integers none ring (calc_matrices integers none ring)
calc_matrices-Calculates_example = calc_matrices-Calculates integers none ring

abbrev result_of : Outcome ℤ → List (Transform ℤ)
result_of (done ts) = ts
result_of (failed e ts) = ts
result_of Outcome.fault = []

abbrev chain_rank : ℕ → ℕ
chain_rank zero = 1
chain_rank (suc zero) = 0
chain_rank (suc (suc n)) = 2

abbrev parent_of : Transform ℤ → ℤ
parent_of t = t.parent

pos_eq : {m n : ℕ} → pos m ≡ pos n → m ≡ n
pos_eq e = cc

root_has_none : {m n : ℕ} → negsuc m ≢ pos n
root_has_none e = cc

parent_at : {u t : Transform ℤ} → some u ≡ some t → parent_of u ≡ t.parent
parent_at e = ap parent_of (some_eq e)

chain-Ranked :
    (i j : ℕ) (t : Transform ℤ)
    → get_elem? chain i ≡ some t
    → t.parent ≡ pos j
    → chain_rank j < chain_rank i
unfolding set_order_trs named_transform vector_of
chain-Ranked zero j t e p = subst (λ n. chain_rank n < 1) (pos_eq (parent_at e ∙ p)) (omega arith)
chain-Ranked (suc zero) j t e p = absurd (root_has_none (parent_at e ∙ p))
chain-Ranked (suc (suc zero)) j t e p =
    subst (λ n. chain_rank n < 2) (pos_eq (parent_at e ∙ p)) (omega arith)
chain-Ranked (suc (suc (suc i))) j t e p = absurd cc

chain_done :
    calc_matrices integers none chain ≡ done (result_of (calc_matrices integers none chain))
unfolding calc_matrices update compose translate from_quaternion scale_matrix all_finite
    finite_matrices set_order_trs named_transform vector_of ◌*ℤ◌ ◌+ℤ◌
chain_done = refl

abbrev leaf : Transform ℤ
leaf = get_or (result_of (calc_matrices integers none chain)) 2 (joint (negsuc 0))

leaf_at : get_elem? (result_of (calc_matrices integers none chain)) 2 ≡ some leaf
unfolding calc_matrices update compose translate from_quaternion scale_matrix all_finite
    finite_matrices set_order_trs named_transform vector_of ◌*ℤ◌ ◌+ℤ◌
leaf_at = refl

calc_matrices-Ranked_example : leaf.has_world ≡ true
calc_matrices-Ranked_example =
    calc_matrices-Ranked integers none chain (result_of (calc_matrices integers none chain))
      chain_rank chain-Ranked chain_done 2 leaf leaf_at

calc_matrices-world_of_example :
    (m : Matrix ℤ) × (world_of integers 3 chain 2 ≡ some m)
    × (leaf.world_matrix ≡ converted integers none m)
calc_matrices-world_of_example =
    calc_matrices-world_of integers none chain (result_of (calc_matrices integers none chain))
      chain_rank chain-Ranked chain_done 3 2 leaf (omega arith) leaf_at

abbrev subject_of : List (Transform ℤ) → Subject ℤ
subject_of ts = record {
  kind = Kind.performer;
  name = "actor";
  uuid = "1";
  transforms = ts;
  error = Message.nothing;
  enabled = true;
  lens = record {
    film_back_width = pos 0;
    film_back_height = pos 0;
    focal_length = pos 0;
    aspect = pos 0;
    focus_distance = pos 0;
    aperture = pos 0;
  };
}

abbrev fresh : Transform ℤ
fresh = new_transform integers (zero_quaternion integers)

abbrev nobody : Subject ℤ
nobody = subject_of []

integers-NarrowsToNumber : NarrowsToNumber integers
integers-NarrowsToNumber a h = ground arith

subject-IsFinite : serialize_assert integers (subject_of chain) ≡ true
unfolding serialize_assert set_order_trs named_transform vector_of
subject-IsFinite = refl

subject_roundtrip_example :
    (u : Subject ℤ) × (parse integers fresh (serialize integers (subject_of chain)).0 nobody
      ≡ some u)
    × (u.name ≡ "actor")
    × (u.uuid ≡ "1")
    × (u.transforms ≡ map (copy integers fresh) chain)
    × Tracks integers (serialize integers (subject_of chain)).1.transforms u.transforms
    × (parse_assert integers (serialize integers (subject_of chain)).0 ≡ true)
subject_roundtrip_example =
    subject_roundtrip integers fresh (subject_of chain) nobody integers-NarrowsToNumber
      subject-IsFinite

abbrev rest : Transform ℤ
rest = record (named_transform integers (zero_quaternion integers) "joint" (negsuc 0)) {
  rotation = record { value = zero_quaternion integers; last_sent = zero_quaternion integers };
}

abbrev moved : Subject ℤ
moved = subject_of (joint (negsuc 0) ∷ [])

abbrev held : Subject ℤ
held = subject_of (rest ∷ [])

moved-Follows :
    (k : ℕ) (t r : Transform ℤ)
    → get_elem? moved.transforms k ≡ some t
    → get_elem? held.transforms k ≡ some r
    → Follows integers t r
unfolding set_order_trs named_transform vector_of narrow_vector narrow_rotation
moved-Follows zero t r g e =
    subst (λ u. Follows integers u r) (some_eq g)
      (subst (λ u. Follows integers (joint (negsuc 0)) u) (some_eq e) (refl, refl))
moved-Follows (suc k) t r g e = absurd cc

moved-Tracks : Tracks integers moved.transforms held.transforms
unfolding set_order_trs named_transform vector_of narrow_vector narrow_rotation
moved-Tracks = (refl, moved-Follows)

update-Tracks_example :
    (u : Subject ℤ) × (parse_update integers (serialize_update integers (pos 0) 0 moved).0 held
      ≡ some u)
    × Tracks integers (serialize_update integers (pos 0) 0 moved).2.transforms u.transforms
    × ((k : ℕ) (t v : Transform ℤ)
        → get_elem? moved.transforms k ≡ some t
        → get_elem? u.transforms k ≡ some v
        → IsClose integers (pos 0) t v)
update-Tracks_example = update-Tracks integers (pos 0) 0 moved held moved-Tracks

abbrev stamped : TimeEnvelope
stamped = record no_envelope {
  version = 1;
  ns = 1_000_000_007;
  has_smpte = true;
  hours = 10;
  rate_num = pos 24;
  rate_den = pos 1;
}

time_roundtrip_example :
    read_time (add_time stamped) ≡ (if is_valid stamped then stamped else no_envelope)
time_roundtrip_example = time_roundtrip stamped

-- A checksum to run the frames with.
abbrev total : List ℕ → ℕ
total [] = 0
total (b ∷ bs) = b + total bs

open_packet-accepts_example :
    (open_packet total (some (1 ∷ 0 ∷ 0 ∷ 0 ∷ 9 ∷ 0 ∷ 0 ∷ 0 ∷ 9 ∷ [])) ≡ accepted (9 ∷ [])) ↔ (
      (flags : ℕ) × IsFlags flags
      × (1 ∷ 0 ∷ 0 ∷ 0 ∷ 9 ∷ 0 ∷ 0 ∷ 0 ∷ 9 ∷ [] ≡ finalize total flags (9 ∷ [])))
open_packet-accepts_example =
    open_packet-accepts total (1 ∷ 0 ∷ 0 ∷ 0 ∷ 9 ∷ 0 ∷ 0 ∷ 0 ∷ 9 ∷ []) (9 ∷ [])
      (
        omega arith,
        (
          omega arith,
          (
            omega arith,
            (
              omega arith,
              (omega arith, (omega arith, (omega arith, (omega arith, (omega arith, tt))))),
            ),
          ),
        ),
      )
      (omega arith)

context_roundtrip_example : read_context (add_context unreal) ≡ unreal
unfolding valid axis_id unreal
context_roundtrip_example = context_roundtrip unreal refl

abbrev camera : Subject ℤ
camera = record (subject_of (joint (negsuc 0) ∷ [])) {
  kind = Kind.camera;
  lens = record {
    film_back_width = pos 36;
    film_back_height = pos 24;
    focal_length = pos 50;
    aspect = pos 2;
    focus_distance = pos 4;
    aperture = pos 8;
  };
}

camera-IsFinite : serialize_assert integers camera ≡ true
unfolding serialize_assert set_order_trs named_transform vector_of
camera-IsFinite = refl

camera_roundtrip_example :
    (u v : Subject ℤ) × (parse_camera integers fresh (serialize_camera integers camera).0 nobody
      ≡ some u)
    × (parse_camera_update integers
          (serialize_camera_update integers (pos 0) 0 (serialize_camera integers camera).1).0
          u
        ≡ some v)
    × (v.lens ≡ lens_sent integers camera.lens nobody.lens)
    × Tracks integers
        (serialize_camera_update integers
          (pos 0)
          0
          (serialize_camera integers camera).1).2.transforms
        v.transforms
    × Asserted integers (pos 0) 0 camera u
camera_roundtrip_example =
    camera_roundtrip integers fresh (pos 0) 0 camera nobody integers-NarrowsToNumber camera-IsFinite
