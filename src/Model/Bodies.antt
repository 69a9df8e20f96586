-- ===== src/Model/Bodies.antt =====
-- `PerformerSubject` and `RigidbodySubject` of src/o3ds/model.cpp: subjects in tables of their own.
-- `none` is the use of a null pointer.
use open3dstream.Base.Options.{◌>>=◌}
use open3dstream.Base.{ℕ, Option, some}
use open3dstream.Numerics.{Numerics}
use open3dstream.Model.Types.{Transform, Subject}
use open3dstream.Model.Wire.{WireSubject, WireUpdate}
use open3dstream.Model.Subject.{serialize, parse}
use open3dstream.Model.Update.{serialize_update, parse_update}

-- `table Performer` and `table PerformerUpdate`.
pub record WirePerformer (A : Type 0) : Type 0 where
  pub data_of : Option (WireSubject A)

pub record WirePerformerUpdate (A : Type 0) : Type 0 where
  pub data_of : Option (WireUpdate A)

-- `table Rigidbody` and `table RigidbodyUpdate`.
pub record WireRigidbody (A : Type 0) : Type 0 where
  pub data_of : Option (WireSubject A)

pub record WireRigidbodyUpdate (A : Type 0) : Type 0 where
  pub data_of : Option (WireUpdate A)

module _ (N : Numerics) where
  open N use {F}

  -- `PerformerSubject`: `serialize`, `parse`, `serializeUpdate` and `parseUpdate`.
  unfoldable pub serialize_performer : Subject F → WirePerformer F × Subject F
  unfolding serialize
  serialize_performer s = let (w, u) = serialize N s in (record { data_of = some w }, u)

  unfoldable pub parse_performer : Transform F → WirePerformer F → Subject F → Option (Subject F)
  unfolding parse
  parse_performer fresh w s = w.data_of >>= λ d. parse N fresh d s

  unfoldable pub serialize_performer_update :
      F → ℕ → Subject F → WirePerformerUpdate F × ℕ × Subject F
  unfolding serialize_update
  serialize_performer_update threshold count s =
      let (w, n, u) = serialize_update N threshold count s in (record { data_of = some w }, n, u)

  unfoldable pub parse_performer_update : WirePerformerUpdate F → Subject F → Option (Subject F)
  unfolding parse_update
  parse_performer_update w s = w.data_of >>= λ d. parse_update N d s

  -- `RigidbodySubject`: `serialize`, `parse`, `serializeUpdate` and `parseUpdate`.
  unfoldable pub serialize_rigidbody : Subject F → WireRigidbody F × Subject F
  unfolding serialize
  serialize_rigidbody s = let (w, u) = serialize N s in (record { data_of = some w }, u)

  unfoldable pub parse_rigidbody : Transform F → WireRigidbody F → Subject F → Option (Subject F)
  unfolding parse
  parse_rigidbody fresh w s = w.data_of >>= λ d. parse N fresh d s

  unfoldable pub serialize_rigidbody_update :
      F → ℕ → Subject F → WireRigidbodyUpdate F × ℕ × Subject F
  unfolding serialize_update
  serialize_rigidbody_update threshold count s =
      let (w, n, u) = serialize_update N threshold count s in (record { data_of = some w }, n, u)

  unfoldable pub parse_rigidbody_update : WireRigidbodyUpdate F → Subject F → Option (Subject F)
  unfolding parse_update
  parse_rigidbody_update w s = w.data_of >>= λ d. parse_update N d s
