-- ===== src/Model/Update.antt =====
-- `Subject::serializeUpdate` and `parseUpdate` of src/o3ds/model.cpp. An operation that changes the
-- object answers with the new one beside its result; `none` is the use of a null pointer.
use open3dstream.Base.Options.{◌>>=◌}
use open3dstream.Base.{
  ℕ, suc, ◌+◌, List, [], ◌∷◌, Option, some, none, Bool, not, if◌then◌else◌, get_elem?, set,
}
use open3dstream.Base.Int.{ℤ, pos, negsuc}
use open3dstream.Numerics.{Triple, Quad, Numerics}
use open3dstream.Model.Types.{Transform, Message, non_finite, Subject}
use open3dstream.Model.Transform.{
  vector_sent, rotation_sent, vector_delta, rotation_delta, all_finite,
}
use open3dstream.Model.Wire.{
  Changed, WireUpdate, narrow_vector, narrow_rotation, read_vector, read_rotation,
}

module _ (N : Numerics) where
  open N use {F, less}

  -- One turn of the loop of `serializeUpdate`.
  abbrev pub translation_moved : F → Transform F → Bool
  translation_moved threshold t = less threshold (vector_delta N t.translation)

  abbrev pub rotation_moved : F → Transform F → Bool
  rotation_moved threshold t = less threshold (rotation_delta N t.rotation)

  unfoldable pub send_translation : F → Transform F → Option (Triple F)
  unfolding vector_delta all_finite narrow_vector
  send_translation threshold t =
      if not (all_finite N t)
      then none
      else if translation_moved threshold t
      then some (narrow_vector N t.translation)
      else none

  unfoldable pub send_rotation : F → Transform F → Option (Quad F)
  unfolding rotation_delta all_finite narrow_rotation
  send_rotation threshold t =
      if not (all_finite N t)
      then none
      else if rotation_moved threshold t
      then some (narrow_rotation N t.rotation)
      else none

  abbrev pub sent_if {ℓ} : {A : Type 0} {B : Type ℓ} → Option A → (B → B) → B → B
  sent_if none f b = b
  sent_if (some a) f b = f b

  unfoldable pub send : F → Transform F → Transform F
  unfolding send_translation send_rotation vector_sent rotation_sent
  send threshold t = record t {
    translation = sent_if (send_translation threshold t) (vector_sent N) t.translation;
    rotation = sent_if (send_rotation threshold t) (rotation_sent N) t.rotation;
  }

  -- What the loop has pushed, counted and changed.
  pub record Pending : Type 0 where
    pub translations : List (Changed (Triple F))
    pub rotations : List (Changed (Quad F))
    pub transforms : List (Transform F)
    pub count : ℕ
    pub error : Message

  abbrev pub changed {ℓ} : {A : Type ℓ} → Option (A) → ℕ → ℕ
  changed none n = n
  changed (some a) n = suc n

  abbrev pub at_index : {A : Type 0} → ℕ → Option A → List (Changed A) → List (Changed A)
  at_index i none us = us
  at_index i (some v) us = record { value = v; i = pos i } ∷ us

  -- The loop of `serializeUpdate` from the transform `i` on.
  unfoldable pub send_all : F → ℕ → Message → List (Transform F) → Pending
  unfolding send_translation send_rotation send all_finite
  send_all threshold i e [] = record {
    translations = [];
    rotations = [];
    transforms = [];
    count = 0;
    error = e;
  }
  send_all threshold i e (t ∷ ts) =
      let e' = (if all_finite N t then e else non_finite t.name) in
      let rest = send_all threshold (suc i) e' ts in
      let v = send_translation threshold t in
      let q = send_rotation threshold t in
      record {
        translations = at_index i v rest.translations;
        rotations = at_index i q rest.rotations;
        transforms = send threshold t ∷ rest.transforms;
        count = changed v (changed q rest.count);
        error = rest.error;
      }

  -- `Subject::serializeUpdate` with the count so far.
  unfoldable pub serialize_update : F → ℕ → Subject F → WireUpdate F × ℕ × Subject F
  unfolding send_all
  serialize_update threshold count s =
      let p = send_all threshold 0 s.error s.transforms in
      (
        record {
          translation = some p.translations;
          rotation = some p.rotations;
          scale = some [];
          uuid = some s.uuid;
        },
        count + p.count,
        record s { transforms = p.transforms; error = p.error },
      )

  -- The loops of `parseUpdate`; an index outside of the transforms is passed over.
  unfoldable pub modify : (Transform F → Transform F) → ℤ → List (Transform F) → List (Transform F)
  modify f (pos n) ts = elim (get_elem? ts n) [ none ↦ ts | some t ↦ set ts n (f t) ]
  modify f (negsuc n) ts = ts

  unfoldable pub apply :
      {A : Type 0}
      → (A → Transform F → Transform F)
      → List (Changed A)
      → List (Transform F)
      → List (Transform F)
  unfolding modify
  apply f [] ts = ts
  apply f (u ∷ us) ts = apply f us (modify (f u.value) u.i ts)

  abbrev pub put_translation : Triple F → Transform F → Transform F
  put_translation v t = record t { translation = read_vector N v }

  abbrev pub put_rotation : Quad F → Transform F → Transform F
  put_rotation q t = record t { rotation = read_rotation N q }

  abbrev pub put_scale : Triple F → Transform F → Transform F
  put_scale v t = record t { scale = read_vector N v }

  -- `Subject::parseUpdate`.
  unfoldable pub parse_update : WireUpdate F → Subject F → Option (Subject F)
  unfolding apply read_vector read_rotation
  parse_update w s = do
    uuid ← w.uuid
    translations ← w.translation
    rotations ← w.rotation
    scales ← w.scale
    some (record s {
      transforms =
          apply put_scale scales
            (apply put_rotation rotations (apply put_translation translations s.transforms));
    })
