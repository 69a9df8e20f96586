-- ===== src/Connector.antt =====
-- The connectors over the nng library (src/o3ds/base_connector.h, nng_connector.h). What nng answers
-- is a parameter: a value for each call. `nng_strerror` is a parameter too. The connector's mutex and
-- the addresses are left out.
pub mod Write
pub mod Accounts
pub mod Read
pub mod Grown
pub mod Delivered
pub mod Listen
pub mod Heard
pub mod Endpoint
pub mod Start
pub mod Dialer
pub mod Released
mod Tests
use Prim.Native.String.{String}
use Prim.Native.String
use open3dstream.Base.{ℕ, ◌+◌, ◌-◌, List, [], ◌∷◌, ◌++◌, Option, some, none, length}

-- What a call of nng answers: 0, `NNG_EAGAIN`, or another error.
pub data Code : Type 0 where
  fine : Code
  again : Code
  error_code : ℕ → Code

-- `eState`.
pub data State : Type 0 where
  not_started : State
  started : State
  reading : State
  state_error : State
  closed : State

-- `held` counts the messages that nng made for the connector and that it has neither freed nor handed
-- over to be sent; `accepted` are those handed over. The connector itself has neither.
pub record Connector : Type 0 where
  pub state : State
  pub error : String
  pub dropped : ℕ
  pub held : ℕ
  pub accepted : List (List ℕ)

abbrev pub new_connector : Connector
new_connector = record { state = not_started; error = ""; dropped = 0; held = 0; accepted = [] }

-- `Connector::setError`.
unfoldable pub set_error : String → Connector → Connector
set_error text c = record c { error = text; state = state_error }

-- A message of nng: `nng_msg_body` may answer a null pointer.
pub data Message : Type 0 where
  body : List ℕ → Message
  no_body : ℕ → Message

abbrev pub msg_len : Message → ℕ
msg_len (body bytes) = length bytes
msg_len (no_body n) = n

-- Makes a message; `nng_msg_free`.
abbrev pub take_message : Connector → Connector
take_message c = record c { held = c.held + 1 }

abbrev pub free_message : Connector → Connector
free_message c = record c { held = c.held - 1 }

module _ (strerror : Code → String) where
  -- `setError` of a connector of nng.
  unfoldable pub set_failure : String → Code → Connector → Connector
  set_failure text code c = record c {
    error = String.◌++◌ (String.◌++◌ text ": ") (strerror code);
    state = state_error;
  }

  -- `NNG_ERROR`: the rest of the function runs only if the call succeeded.
  unfoldable pub checked {ℓ} :
      {A : Type ℓ} → A → String → Code → Connector → A × Connector → A × Connector
  unfolding set_failure
  checked a text fine c rest = rest
  checked a text again c rest = (a, set_failure text again c)
  checked a text (error_code n) c rest = (a, set_failure text (error_code n) c)
