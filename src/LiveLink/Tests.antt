-- ===== src/LiveLink/Tests.antt =====
-- A run of the source of live data (plugins/unreal/.../Open3DStreamSource.cpp).
use Prim.Native.String.{String}
use open3dstream.Base.{
  ℕ, ◌+◌, List, [], ◌∷◌, Option, some, none, true, false, ◌≡◌, refl, leb, ltb, map,
}
use open3dstream.Base.Int.{ℤ, pos, negsuc, ◌+ℤ◌, ◌*ℤ◌}
use open3dstream.Base.Strings.{same_text, same_text_refl, Text-cases}
use open3dstream.Base.{inl, inr}
use open3dstream.Numerics.{Matrix}
use open3dstream.Numerics.Integers.{integers}
use open3dstream.Context.Axes.{unreal, axis_id}
use open3dstream.Context.Conversion.{compute_conversion, find_source, is_identity, unit_to_metres}
use open3dstream.Model.Types.{Transform, Message, Kind, performer, Subject}
use open3dstream.Model.Transform.{
  zero_quaternion, named_transform, new_transform, set_order_trs, update, compose, translate,
  from_quaternion, scale_matrix,
}
use open3dstream.Model.Envelope.{no_envelope}
use open3dstream.Model.SubjectList.{Root, SubjectList, no_lens}
use open3dstream.Model.SubjectList.Send.{serialize_list}
use open3dstream.Model.SubjectList.Receive.{parse_list}
use open3dstream.Model.SubjectList.Packets.{full_root_of}
use open3dstream.LiveLink.{
  Engine, Event, removed, announced, pushed, Source, Input, arrived, ticked, run, receive_client,
  new_source, on_package, tick, bones_of, push_subjects,
}
use open3dstream.LiveLink.Names.{after_colon}
use open3dstream.LiveLink.Live.{Compares, IsOrderly}
use open3dstream.LiveLink.Announced.{run-IsOrderly}

abbrev hip : Transform ℤ
hip =
    set_order_trs integers
      (named_transform integers (zero_quaternion integers) "actor:hip" (negsuc 0))

abbrev actor : Subject ℤ
actor = record {
  kind = performer;
  name = "actor";
  uuid = "actor";
  transforms = hip ∷ [];
  error = Message.nothing;
  enabled = true;
  lens = no_lens integers;
}

abbrev list_of : List (Subject ℤ) → SubjectList integers
list_of items = record {
  items = items;
  time = pos 0;
  timecode = "";
  envelope = no_envelope;
  threshold = pos 0;
  error = Message.nothing;
  context = unreal;
  conversion = none;
}

abbrev fresh : Kind → Transform ℤ
fresh k = new_transform integers (zero_quaternion integers)

abbrev encode : Root ℤ → List ℕ
encode root = 1 ∷ []

abbrev checksum : List ℕ → ℕ
checksum bytes = 5

abbrev root_of_list : Root ℤ
root_of_list =
    full_root_of integers encode (λ b. none) checksum (pos 9) (pos 0) "01:00" (list_of (actor ∷ []))

abbrev decode : List ℕ → Option (Root ℤ)
decode bytes = some root_of_list

abbrev bytes_of_list : List ℕ
bytes_of_list =
    (serialize_list integers encode checksum (pos 9) (pos 0) "01:00" [] (list_of (actor ∷ []))).1

-- Names are texts, a pose is a matrix, and the clock counts its calls.
abbrev engine : Engine integers
engine = record {
  Name = String;
  Pose = Matrix ℤ;
  Time = ℕ;
  fname = λ s. s;
  same = same_text;
  local = λ m p. m;
  has_nan = λ q. false;
  is_nan = λ t. false;
  now = λ n. n;
  add_time = λ t u. t + u;
  zero_time = 0;
  is_due = λ t. leb 5 t;
  is_inactive = λ t u. ltb u t;
}

engine-Compares : Compares integers engine
engine-Compares = record {
  same_refl = same_text_refl;
  same_eq = λ m n h. elim (Text-cases m n) [ inl (_, e) ↦ e | inr (z, _) ↦ absurd cc (h, z) ];
}

-- A package, a package, nothing for a while, and a package again.
abbrev inputs : List (Input integers engine)
inputs =
    arrived bytes_of_list ∷ arrived bytes_of_list ∷ ticked 3 ∷ ticked 3 ∷ arrived bytes_of_list ∷ []

abbrev begun : Source integers engine
begun = receive_client integers engine true (new_source integers engine (list_of []))

abbrev ended : Source integers engine
ended = elim (run integers engine decode checksum fresh inputs begun) [ none ↦ begun | some s ↦ s ]

inputs-run : run integers engine decode checksum fresh inputs begun ≡ some ended
unfolding run parse_list serialize_list set_order_trs named_transform unreal ◌+ℤ◌ new_transform
    update compose ◌*ℤ◌ translate from_quaternion scale_matrix on_package tick bones_of
    push_subjects after_colon same_text axis_id compute_conversion find_source is_identity
    unit_to_metres
inputs-run = refl

run-IsOrderly_example : IsOrderly integers engine ended.frame ended.log
run-IsOrderly_example =
    run-IsOrderly integers engine decode checksum fresh engine-Compares (list_of []) true inputs
      ended inputs-run

abbrev kind_of : Event integers engine → ℕ
kind_of (removed n) = 1
kind_of (announced n names parents) = 2
kind_of (pushed n i poses) = 3

-- The calls of the client, the last first.
ended-log : map kind_of ended.log ≡ 3 ∷ 2 ∷ 1 ∷ 1 ∷ 3 ∷ 3 ∷ 2 ∷ 1 ∷ []
unfolding run parse_list serialize_list set_order_trs named_transform unreal ◌+ℤ◌ new_transform
    update compose ◌*ℤ◌ translate from_quaternion scale_matrix on_package tick bones_of
    push_subjects after_colon same_text axis_id compute_conversion find_source is_identity
    unit_to_metres
ended-log = refl
