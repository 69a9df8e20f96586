-- ===== src/Connector/Endpoint.antt =====
-- The sockets of the connectors over nng: opening, stopping, and the destructors
-- (src/o3ds/nng_connector.h, nng_connector.cpp). What nng answers is a parameter.
use Prim.Native.String.{String}
use open3dstream.Base.{ℕ, ◌+◌, ◌-◌, Option, some, none, Bool, true, false, if◌then◌else◌}
use open3dstream.Connector.{
  Code, fine, again, error_code, started, Connector, new_connector, set_failure,
}

-- The protocols of nng that are used.
pub data Protocol : Type 0 where
  pair1 : Protocol
  push0 : Protocol
  pull0 : Protocol
  req0 : Protocol
  rep0 : Protocol
  sub0 : Protocol
  pub0 : Protocol

-- `mSocket`, `mDialer` and `aio`: whether they are set. The numbers are those of the sockets, the
-- asynchronous operations and the TLS configurations that exist in nng. `armed` is as for a listener.
pub record Endpoint : Type 0 where
  pub base : Connector
  pub socket : Option Protocol
  pub dialer : Bool
  pub aio : Bool
  pub armed : Bool
  pub sockets : ℕ
  pub aios : ℕ
  pub configs : ℕ

abbrev pub new_endpoint : Endpoint
new_endpoint = record {
  base = new_connector;
  socket = none;
  dialer = false;
  aio = false;
  armed = false;
  sockets = 0;
  aios = 0;
  configs = 0;
}

-- What the calls do if they succeed.
abbrev pub open_socket : Protocol → Endpoint → Endpoint
open_socket p e = record e { socket = some p; sockets = e.sockets + 1 }

abbrev pub alloc_aio : Endpoint → Endpoint
alloc_aio e = record e { aio = true; aios = e.aios + 1 }

abbrev pub create_dialer : Endpoint → Endpoint
create_dialer e = record e { dialer = true }

abbrev pub same_endpoint : Endpoint → Endpoint
same_endpoint e = e

-- `nng_close`, `nng_aio_free`.
abbrev pub close_socket : Endpoint → Endpoint
close_socket e = record e { socket = none; sockets = e.sockets - 1; armed = false }

abbrev pub free_aio : Endpoint → Endpoint
free_aio e = record e { aio = false; aios = e.aios - 1 }

-- The last steps of `start`.
abbrev pub wait_started : Endpoint → Bool × Endpoint
wait_started e = (true, record e { base = record e.base { state = started }; armed = true })

abbrev pub only_started : Endpoint → Bool × Endpoint
only_started e = (true, record e { base = record e.base { state = started } })

abbrev pub only_wait : Endpoint → Bool × Endpoint
only_wait e = (true, record e { armed = true })

abbrev pub answer_true : Endpoint → Bool × Endpoint
answer_true e = (true, e)

-- A call that is checked, and what follows it; without a text, a failure notes no error.
unfoldable pub step :
    Code → (Endpoint → Endpoint) → (Endpoint → Bool × Endpoint) → Endpoint → Bool × Endpoint
step fine did next e = next (did e)
step again did next e = (false, e)
step (error_code n) did next e = (false, e)

module _ (strerror : Code → String) where
  abbrev pub note : String → Code → Endpoint → Endpoint
  note text code e = record e { base = set_failure strerror text code e.base }

  unfoldable pub noted_step :
      String
      → Code
      → (Endpoint → Endpoint)
      → (Endpoint → Bool × Endpoint)
      → Endpoint
      → Bool × Endpoint
  unfolding set_failure
  noted_step text fine did next e = next (did e)
  noted_step text again did next e = (false, note text again e)
  noted_step text (error_code n) did next e = (false, note text (error_code n) e)

-- `AsyncNngConnector::stop`, and the destructor.
unfoldable pub stop : Endpoint → Endpoint
stop e = elim (e.socket) [
  | none ↦ e
  | some p ↦ record (close_socket e) { dialer = false; aio = false }
]

unfoldable pub destroy : Endpoint → Endpoint
unfolding stop
destroy e = let f = stop e in if f.aio then free_aio f else f

-- `~BlockingNngConnector`.
abbrev pub blocking_destroy : Endpoint → Endpoint
blocking_destroy e = elim (e.socket) [ none ↦ e | some p ↦ close_socket e ]
