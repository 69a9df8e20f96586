-- ===== src/Model/SubjectList/Tests.antt =====
-- A sender and a receiver of src/o3ds/model.cpp for the theorems about `SubjectList`.
use Prim.Native.String.{String}
use open3dstream.Base.{
  ℕ, List, [], ◌∷◌, ◌++◌, Option, some, none, true, false, ◌≡◌, refl, arith, ◌==◌, if◌then◌else◌,
  map,
}
use open3dstream.Base.Int.{ℤ, pos, negsuc, ◌+ℤ◌, ◌*ℤ◌}
use open3dstream.Base.Strings.{same_text, same_text_differs}
use open3dstream.Numerics.Integers.{integers}
use open3dstream.Context.Axes.{Context, is_named, unreal, no_context, valid, axis_id}
use open3dstream.Model.Types.{Transform, Message, Kind, performer, rigidbody, camera, Subject}
use open3dstream.Model.Transform.{
  zero_quaternion, named_transform, new_transform, set_order_trs, vector_of, update, compose,
  translate, from_quaternion, scale_matrix, all_finite, finite_matrices,
}
use open3dstream.Model.Envelope.{no_envelope}
use open3dstream.Model.Items.{list_finite}
use open3dstream.Model.SubjectList.{
  Root, SubjectList, no_lens, added_subject, change_subject, change_or_add,
}
use open3dstream.Model.SubjectList.Clash.{find_or_add-Clash}
use open3dstream.Model.SubjectList.Send.{
  serialize_list, serialize_list_update, full_root, update_root, update_parts_of,
}
use open3dstream.Model.SubjectList.Receive.{parse_list, finish_parse, read_subjects}
use open3dstream.Model.SubjectList.Lookup.{lookup}
use open3dstream.Model.SubjectList.Stages.{Distinct}
use open3dstream.Model.SubjectList.Finished.{finish_parse-Mirrors}
use open3dstream.Model.SubjectList.Follow.{Mirrors, Fit}
use open3dstream.Model.SubjectList.Packets.{
  full_root_of, update_root_of, IsRead, receiver_of, stamp_of, full_roundtrip, update_roundtrip,
}
use open3dstream.Model.SubjectList.Shape.{read_subjects-form, form}
use open3dstream.Model.SubjectList.Session.{Posed, IsFull, pose, start, next, session-Mirrors}

abbrev joint : ℤ → ℤ → Transform ℤ
joint parent along =
    record (set_order_trs integers
      (named_transform integers (zero_quaternion integers) "joint" parent)) {
        translation = vector_of integers (record { x = along; y = pos 0; z = pos 0 });
      }

abbrev subject_of : Kind → String → ℤ → Subject ℤ
subject_of kind uuid along = record {
  kind = kind;
  name = uuid;
  uuid = uuid;
  transforms = joint (negsuc 0) along ∷ [];
  error = Message.nothing;
  enabled = true;
  lens = no_lens integers;
}

abbrev list_of : Context → List (Subject ℤ) → SubjectList integers
list_of context items = record {
  items = items;
  time = pos 0;
  timecode = "";
  envelope = no_envelope;
  threshold = pos 0;
  error = Message.nothing;
  context = context;
  conversion = none;
}

abbrev sender : SubjectList integers
sender =
    list_of unreal (subject_of performer "actor" (pos 1) ∷ subject_of rigidbody "prop" (pos 2) ∷ [])

abbrev receiver : SubjectList integers
receiver = list_of no_context []

abbrev fresh : Kind → Transform ℤ
fresh k = new_transform integers (zero_quaternion integers)

-- The bytes say which of the two roots was written.
abbrev encode : Root ℤ → List ℕ
encode root = elim (root.performers) [ none ↦ 2 ∷ [] | some ps ↦ 1 ∷ [] ]

abbrev checksum : List ℕ → ℕ
checksum bytes = 5

abbrev first_root : Root ℤ
first_root = full_root_of integers encode (λ b. none) checksum (pos 9) (pos 0) "01:00" sender

sender-Distinct : Distinct integers sender.items
unfolding same_text
sender-Distinct = ((same_text_differs refl, tt), (tt, tt))

sender-IsFinite : (list_finite integers sender.items).0 ≡ true
unfolding list_finite all_finite finite_matrices set_order_trs named_transform vector_of
sender-IsFinite = refl

unreal-is_named : is_named unreal.distance ≡ true
unfolding unreal
unreal-is_named = refl

unreal-IsValid : valid unreal ≡ true
unfolding valid axis_id unreal
unreal-IsValid = refl

-- A receiver that has no subjects.
sender-Fit : Fit integers sender.items []
unfolding lookup
sender-Fit = (λ t e. absurd cc, (λ t e. absurd cc, tt))

-- Bytes that were not written here are not verified.
abbrev decode : Root ℤ → Root ℤ → List ℕ → Option (Root ℤ)
decode a b [] = none
decode a b (x ∷ xs) = if x == 1 then some a else some b

abbrev sent : SubjectList integers
sent = (serialize_list integers encode checksum (pos 9) (pos 0) "01:00" [] sender).2

abbrev reading : List ℕ → Option (Root ℤ)
reading = decode first_root first_root

first-IsRead : IsRead integers encode reading checksum (pos 9) first_root
unfolding full_root
first-IsRead = record { decode-encode = refl; crc_fits = omega arith }

full_roundtrip_example :
    (us : List (Subject ℤ)) × ((serialize_list integers encode checksum
        (pos 9)
        (pos 0)
        "01:00"
        []
        sender).0
      ≡ true)
    × (parse_list integers reading checksum fresh false
          (some (serialize_list integers encode checksum (pos 9) (pos 0) "01:00" [] sender).1)
          receiver
        ≡ finish_parse integers (
            receiver_of integers sender
              (stamp_of integers encode reading checksum (pos 9) (pos 0))
              "01:00"
              us
              receiver))
    × Mirrors integers sent.items us
full_roundtrip_example =
    full_roundtrip integers encode reading checksum (pos 9) fresh (pos 0) "01:00" [] false sender
      receiver first-IsRead unreal-IsValid unreal-is_named sender-IsFinite sender-Distinct
      sender-Fit

abbrev first_packet : List ℕ
first_packet = (serialize_list integers encode checksum (pos 9) (pos 0) "01:00" [] sender).1

abbrev held : SubjectList integers
held = elim (parse_list integers reading checksum fresh false (some first_packet) receiver) [
  | none ↦ receiver
  | some r ↦ r.1
]

held-accepted :
    parse_list integers reading checksum fresh false (some first_packet) receiver
    ≡ some (true, held)
unfolding parse_list serialize_list set_order_trs named_transform unreal no_context ◌+ℤ◌
    new_transform update compose ◌*ℤ◌ translate from_quaternion scale_matrix
held-accepted = refl

-- The sender moves its first subject.
abbrev moved : Transform ℤ → Transform ℤ
moved t = record t {
  translation = record t.translation { value = record { x = pos 7; y = pos 8; z = pos 9 } };
}

abbrev move_first : List (Subject ℤ) → List (Subject ℤ)
move_first [] = []
move_first (s ∷ ss) = record s { transforms = map moved s.transforms } ∷ ss

abbrev moved_list : SubjectList integers
moved_list = record sent { items = move_first sent.items }

moved_list-Posed : Posed integers sent.items moved_list.items
unfolding serialize_list set_order_trs named_transform vector_of
moved_list-Posed = (
  record {
    same_uuid = refl;
    same_class = refl;
    same_name = refl;
    same_enabled = refl;
    same_noted = refl;
  },
  (
    record {
      same_uuid = refl;
      same_class = refl;
      same_name = refl;
      same_enabled = refl;
      same_noted = refl;
    },
    tt,
  ),
)

first-IsFull : IsFull integers encode reading checksum (pos 9) sender receiver sent held
first-IsFull = record {
  fresh = fresh;
  timestamp = pos 0;
  timecode = "01:00";
  out = [];
  clear = false;
  sendable = record {
    valid_context = unreal-IsValid;
    named_unit = unreal-is_named;
    finite_items = sender-IsFinite;
    distinct_ids = sender-Distinct;
  };
  readable = first-IsRead;
  fits = sender-Fit;
  accepted = held-accepted;
  sender = refl;
}

session-Mirrors_example : Mirrors integers moved_list.items held.items
session-Mirrors_example =
    session-Mirrors integers encode reading checksum (pos 9) sender receiver sent held moved_list
      held first-IsFull (next start (pose moved_list-Posed refl))

moved_list-Mirrors : Mirrors integers moved_list.items held.items
moved_list-Mirrors =
    session-Mirrors integers encode reading checksum (pos 9) sender receiver sent held moved_list
      held first-IsFull (next start (pose moved_list-Posed refl))

-- The update that is sent then.
abbrev second_root : Root ℤ
second_root = update_root_of integers encode (λ b. none) checksum (pos 9) (pos 0) "02:00" moved_list

second-IsRead : IsRead integers encode (decode second_root second_root) checksum (pos 9) second_root
unfolding update_root
second-IsRead = record { decode-encode = refl; crc_fits = omega arith }

moved_list-IsValid : valid moved_list.context ≡ true
unfolding serialize_list valid axis_id unreal set_order_trs named_transform vector_of
moved_list-IsValid = refl

moved_list-is_named : is_named moved_list.context.distance ≡ true
unfolding serialize_list unreal set_order_trs named_transform vector_of
moved_list-is_named = refl

moved_list-IsFinite : (list_finite integers moved_list.items).0 ≡ true
unfolding serialize_list list_finite all_finite finite_matrices set_order_trs named_transform
    vector_of ◌+ℤ◌
moved_list-IsFinite = refl

moved_list-Distinct : Distinct integers moved_list.items
unfolding serialize_list same_text set_order_trs named_transform vector_of
moved_list-Distinct = ((same_text_differs refl, tt), (tt, tt))

update_roundtrip_example :
    (us : List (Subject ℤ)) × ((serialize_list_update integers encode checksum
        (pos 9)
        (pos 0)
        "02:00"
        []
        moved_list).0
      ≡ true)
    × (parse_list integers
          (decode second_root second_root)
          checksum
          fresh
          false
          (some
            (serialize_list_update integers encode checksum
              (pos 9)
              (pos 0)
              "02:00"
              []
              moved_list).1)
          held
        ≡ finish_parse integers (
            receiver_of integers moved_list
              (stamp_of integers encode (decode second_root second_root) checksum (pos 9) (pos 0))
              "02:00"
              us
              held))
    × Mirrors integers
        (serialize_list_update integers encode checksum
          (pos 9)
          (pos 0)
          "02:00"
          []
          moved_list).3.items
        us
update_roundtrip_example =
    update_roundtrip integers encode (decode second_root second_root) checksum (pos 9) fresh (pos 0)
      "02:00" [] moved_list held second-IsRead moved_list-IsValid moved_list-is_named
      moved_list-IsFinite moved_list-Distinct moved_list-Mirrors

-- The last step of `parse` at the receiver.
abbrev joined : SubjectList integers
joined = receiver_of integers sender (pos 9) "01:00" held.items receiver

joined-finished : finish_parse integers joined ≡ some (true, record joined { items = held.items })
unfolding parse_list serialize_list finish_parse set_order_trs named_transform unreal no_context
    ◌+ℤ◌ new_transform update compose ◌*ℤ◌ translate from_quaternion scale_matrix vector_of
joined-finished = refl

held-Mirrors : Mirrors integers sent.items joined.items
held-Mirrors =
    session-Mirrors integers encode reading checksum (pos 9) sender receiver sent held sent held
      first-IsFull start

finish_parse-Mirrors_example : Mirrors integers sent.items held.items
finish_parse-Mirrors_example =
    finish_parse-Mirrors integers sent.items joined (record joined { items = held.items })
      joined-finished held-Mirrors

-- A camera with the id of a performer.
abbrev keep : Subject ℤ → Option (Subject ℤ)
keep s = some s

actor-lookup : lookup integers "actor" sender.items ≡ some (subject_of performer "actor" (pos 1))
unfolding lookup same_text
actor-lookup = refl

find_or_add-Clash_example :
    (change_or_add integers camera "actor" keep sender.items
      ≡ some (sender.items ++ (added_subject integers camera "actor" ∷ [])))
    × ((ts : List (Subject ℤ))
        → change_subject integers camera "actor" keep (sender.items ++ ts)
          ≡ some (sender.items ++ ts))
find_or_add-Clash_example =
    find_or_add-Clash integers camera "actor" keep keep sender.items
      (subject_of performer "actor" (pos 1)) actor-lookup refl

-- What the receiver has after the loops over the second root.
abbrev moved_items : List (Subject ℤ)
moved_items = elim (read_subjects integers fresh second_root sender.items) [
  | none ↦ []
  | some us ↦ us
]

second_root-read : read_subjects integers fresh second_root sender.items ≡ some moved_items
unfolding read_subjects serialize_list update_root set_order_trs named_transform vector_of
    update_parts_of
second_root-read = refl

second_root-absent :
    (second_root.performers ≡ none)
    × (second_root.rigidbodies ≡ none)
    × (second_root.cameras ≡ none)
unfolding update_root
second_root-absent = (refl, refl, refl)

read_subjects-form_example : map (form integers) moved_items ≡ map (form integers) sender.items
read_subjects-form_example =
    read_subjects-form integers fresh second_root sender.items moved_items second_root-absent.0
      second_root-absent.1 second_root-absent.2 second_root-read
