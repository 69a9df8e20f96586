-- ===== src/LiveLink.antt =====
-- The source of live data in the Unreal plugin (plugins/unreal/.../Open3DStreamSource.cpp and its
-- header). The engine's names, poses and clock, and its client, are parameters. `none` is the use of a
-- null pointer, or a parent outside of the list. Texts that are only shown or logged are left out.
pub mod Names
pub mod Live
pub mod Announced
mod Tests
use Prim.Native.String.{String}
use open3dstream.Base.Options.{◌>>=◌}
use open3dstream.Base.{
  ℕ, zero, suc, ◌+◌, ◌==◌, ◌≡◌, List, [], ◌∷◌, Option, ◌&&◌, some, none, Bool, true, false, not,
  if◌then◌else◌, get_elem?,
}
use open3dstream.Base.Int.{ℤ, pos, negsuc}
use open3dstream.Numerics.{Matrix, Numerics}
use open3dstream.Model.Types.{Kind, Transform, Subject}
use open3dstream.Model.SubjectList.{Root, SubjectList}
use open3dstream.Model.SubjectList.Receive.{parse_list}
use open3dstream.LiveLink.Names.{after_colon}

-- What the source uses of the engine: `FName` and its comparison, `FTransform` from a world matrix and
-- the parent's, `FPlatformTime::Seconds` at each call, and sums and comparisons of times. The test of
-- a transform for numbers that are none is not in src/o3ds.
pub record Engine (N : Numerics) : Type 1 where
  pub Name : Type 0
  pub Pose : Type 0
  pub Time : Type 0
  pub fname : String → Name
  pub same : Name → Name → Bool
  pub local : Matrix (Numerics.F N) → Option (Matrix (Numerics.F N)) → Pose
  pub has_nan : Pose → Bool
  pub is_nan : Transform (Numerics.F N) → Bool
  pub now : ℕ → Time
  pub add_time : Time → Time → Time
  pub zero_time : Time
  pub is_due : Time → Bool
  pub is_inactive : Time → Time → Bool

module _ (N : Numerics) (E : Engine N) where
  open N use {F}
  open E use {
    Name, Pose, Time, fname, same, local, has_nan, is_nan, now, add_time, zero_time, is_due,
    is_inactive,
  }

  -- What the client is called with: a subject is removed, its bones with their parents are announced,
  -- a frame of it is pushed.
  pub data Event : Type 0 where
    removed : Name → Event
    announced : Name → List Name → List ℤ → Event
    pushed : Name → ℕ → List Pose → Event

  pub data Status : Type 0 where
    inactive : Status
    receiving : Status
    data_error : Status

  -- The members that decide what is done; `calls` counts those of the clock, and `log` has the calls
  -- of the client, the last first.
  pub record Source : Type 0 where
    pub valid : Bool
    pub client : Bool
    pub log_flag : Bool
    pub status : Status
    pub subjects : SubjectList N
    pub initialized : List Name
    pub updated : List (Name × Time)
    pub since : Time
    pub frame : ℕ
    pub calls : ℕ
    pub log : List Event

  abbrev pub contains : Name → List Name → Bool
  contains n [] = false
  contains n (m ∷ ms) = if same m n then true else contains n ms

  -- `TArray::Remove`, `TMap::Remove` and `TMap::FindOrAdd`.
  abbrev pub without : Name → List Name → List Name
  without n [] = []
  without n (m ∷ ms) = if same m n then without n ms else m ∷ without n ms

  abbrev pub forget : Name → List (Name × Time) → List (Name × Time)
  forget n [] = []
  forget n ((m, t) ∷ us) = if same m n then forget n us else (m, t) ∷ forget n us

  abbrev pub note_time : Name → Time → List (Name × Time) → List (Name × Time)
  note_time n t [] = (n, t) ∷ []
  note_time n t ((m, u) ∷ us) = if same m n then (m, t) ∷ us else (m, u) ∷ note_time n t us

  -- A call of the client.
  abbrev pub emit : Event → Source → Option Source
  emit e s = if s.client then some (record s { log = e ∷ s.log }) else none

  pub record Bones : Type 0 where
    pub names : List Name
    pub parents : List ℤ
    pub poses : List Pose

  -- The loop over the transforms of a subject; `some none` is a number that is none.
  abbrev parent_world : List (Transform F) → ℤ → Option (Option (Matrix F))
  parent_world all (pos i) = get_elem? all i >>= λ p. some (some p.world_matrix)
  parent_world all (negsuc zero) = some none
  parent_world all (negsuc (suc n)) = none

  abbrev add_bone : Transform F → Pose → Option Bones → Option Bones
  add_bone t q none = none
  add_bone t q (some b) = some (record {
    names = fname (after_colon t.name) ∷ b.names;
    parents = t.parent ∷ b.parents;
    poses = q ∷ b.poses;
  })

  unfoldable pub bones_of : List (Transform F) → List (Transform F) → Option (Option Bones)
  unfolding after_colon
  bones_of all [] = some (some (record { names = []; parents = []; poses = [] }))
  bones_of all (t ∷ ts) =
      let rest = bones_of all ts in
      if is_nan t
      then some none
      else (parent_world all t.parent >>= λ p.
          let q = local t.world_matrix p in
          if has_nan q then some none else (rest >>= λ o. some (add_bone t q o)))

  -- A subject that was not announced is, unless it has no bones. `initialized` has the last first.
  abbrev pub announce : Name → Bones → Source → Option Source
  announce n b s = do
    u ← emit (removed n) s
    v ← emit (announced n b.names b.parents) u
    some (record v { initialized = n ∷ v.initialized })

  abbrev pub push : Name → ℕ → Bones → Source → Option Source
  push n i b s = do
    u ← emit (pushed n i b.poses) s
    some (record u { updated = note_time n (now u.calls) u.updated; calls = u.calls + 1 })

  abbrev pub is_nil : List Name → Bool
  is_nil [] = true
  is_nil (n ∷ ns) = false

  unfoldable pub push_bones : Name → ℕ → Option Bones → Source → Option Source
  push_bones n i none s = some s
  push_bones n i (some b) s =
      if contains n s.initialized
      then push n i b s
      else if is_nil b.names
      then some s
      else (announce n b s >>= λ u. push n i b u)

  -- The loop over the subjects.
  unfoldable pub push_subject : Subject F → Source → Option Source
  unfolding bones_of push_bones
  push_subject x s = do
    o ← bones_of x.transforms x.transforms
    push_bones (fname x.name) s.frame o (record s { frame = s.frame + 1; calls = s.calls + 1 })

  unfoldable pub push_subjects : List (Subject F) → Source → Option Source
  unfolding push_subject
  push_subjects [] s = some s
  push_subjects (x ∷ xs) s = push_subject x s >>= push_subjects xs

  -- `OnStatus`, and the text at the first package.
  abbrev pub on_status : Status → Source → Source
  on_status t s = record s { status = t; log_flag = false }

  abbrev pub first_package : Source → Source
  first_package s = record s {
    status = if s.log_flag then s.status else receiving;
    log_flag = true;
  }

  module _ (decode : List ℕ → Option (Root F)) (crc : List ℕ → ℕ) (fresh : Kind → Transform F) where
    -- `OnPackage`.
    unfoldable pub on_package : List ℕ → Source → Option Source
    unfolding push_subjects parse_list
    on_package bytes s =
        if not s.valid
        then some s
        else (parse_list N decode crc fresh false (some bytes) s.subjects >>= λ r.
            let t = record (first_package s) { subjects = r.1 } in
            if r.0 then push_subjects r.1.items t else some (on_status data_error t))

  -- `RemoveInactiveSubjects`, over the entries that there were; `Tick`, but for the server's own.
  unfoldable pub remove_inactive : Time → List (Name × Time) → Source → Option Source
  remove_inactive t [] s = some s
  remove_inactive t ((n, u) ∷ us) s =
      if is_inactive t u
      then (emit (removed n) (record s { updated = forget n s.updated }) >>= λ v.
          remove_inactive t us (record v { initialized = without n v.initialized }))
      else remove_inactive t us s

  unfoldable pub tick : Time → Source → Option Source
  unfolding remove_inactive
  tick delta s =
      let t = record s { since = add_time s.since delta } in
      if is_due t.since
      then (remove_inactive (now t.calls) t.updated (record t { calls = t.calls + 1 }) >>= λ u.
          some (record u { since = zero_time }))
      else some t

  -- `ReceiveClient`, with what starting the server answers, and `RequestSourceShutdown`.
  abbrev pub receive_client : Bool → Source → Source
  receive_client started s = record s { client = true; valid = started }

  abbrev pub shutdown : Source → Source
  shutdown s = record s { client = false; valid = false }

  -- The constructor.
  abbrev pub new_source : SubjectList N → Source
  new_source l = record {
    valid = true;
    client = false;
    log_flag = false;
    status = inactive;
    subjects = l;
    initialized = [];
    updated = [];
    since = zero_time;
    frame = 0;
    calls = 0;
    log = [];
  }

  -- What happens to a source that has a client.
  pub data Input : Type 0 where
    arrived : List ℕ → Input
    ticked : Time → Input
    stopped : Input

  module _ (decode : List ℕ → Option (Root F)) (crc : List ℕ → ℕ) (fresh : Kind → Transform F) where
    unfoldable pub react : Input → Source → Option Source
    unfolding on_package tick
    react (arrived bytes) s = on_package decode crc fresh bytes s
    react (ticked delta) s = tick delta s
    react stopped s = some (shutdown s)

    unfoldable pub run : List Input → Source → Option Source
    unfolding react
    run [] s = some s
    run (i ∷ is) s = react i s >>= run is
