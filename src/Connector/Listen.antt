-- ===== src/Connector/Listen.antt =====
-- The callbacks of the asynchronous connectors: `AsyncNngConnector::asyncReadMsg`,
-- `AsyncPipeline::Callback_`, `AsyncRequestReply::Callback_`, and `AsyncSubscriber::pipeEvent_`
-- (src/o3ds/nng_connector.cpp, async_pipeline.cpp, async_request.cpp, async_subscriber.cpp). What nng
-- answers is a parameter; it calls back once for each `nng_recv_aio`.
use Prim.Native.String.{String}
use open3dstream.Base.{ℕ, List, [], ◌∷◌, ◌++◌, Option, some, none, Bool, true, false, if◌then◌else◌}
use open3dstream.Connector.{
  Code, fine, again, error_code, reading, Connector, Message, body, no_body, take_message,
  free_message, set_error, set_failure,
}
use open3dstream.Connector.Read.{Reply}

-- `armed` says that `nng_recv_aio` was called and its callback is still to come, `has_func` that there
-- is a function to take data, and `delivered` is what it has been given.
pub record Listener : Type 0 where
  pub base : Connector
  pub armed : Bool
  pub has_func : Bool
  pub delivered : List (List ℕ)

-- `AsyncConnector::setFunc`, with a function.
abbrev pub set_func : Listener → Listener
set_func l = record l { has_func = true }

abbrev deliver : List ℕ → Listener → Listener
deliver bytes l = record l {
  delivered = if l.has_func then l.delivered ++ (bytes ∷ []) else l.delivered;
}

-- The message of the operation belongs to the connector; the operation is over.
abbrev arrived : Listener → Listener
arrived l = record l { base = take_message l.base; armed = false }

abbrev done_with : Listener → Listener
done_with l = record l { base = record (free_message l.base) { state = reading } }

module _ (strerror : Code → String) where
  abbrev fail : String → Code → Listener → Listener
  fail text code l = record l { base = set_failure strerror text code l.base; armed = false }

  -- `asyncReadMsg`, with the message.
  unfoldable pub take_msg : Message → Listener → Bool × Listener
  take_msg (body []) l = (true, done_with (record l { armed = true }))
  take_msg (body (b ∷ bs)) l = (true, done_with (deliver (b ∷ bs) (record l { armed = true })))
  take_msg (no_body n) l = (true, done_with (record l { armed = true }))

  -- The result of the operation, and its message.
  unfoldable pub async_read_msg : Reply → Listener → Bool × Listener
  unfolding take_msg set_error set_failure
  async_read_msg r l = elim (r.code) [
    | fine ↦ elim (r.message) [
      | none ↦ (
        false,
        record l { base = set_error "No message wile doing an async read" l.base; armed = true },
      )
      | some m ↦ take_msg m (arrived l)
    ]
    | again ↦ (false, fail "Async read" again l)
    | error_code n ↦ (false, fail "Async read" (error_code n) l)
  ]

-- What `nng_recv` does: it answers with an error or bytes, or waits for a message that does not come.
pub data Received : Type 0 where
  answered : Code → List ℕ → Received
  waiting : Received

abbrev take_in : Option Message → Listener → Listener
take_in none l = record l { armed = false }
take_in (some m) l = arrived l

-- The last part of a callback that receives a message of its own.
abbrev hand_on : List ℕ → Listener → Listener
hand_on bytes l = record (deliver bytes l) { armed = true }

-- `AsyncPipeline::Callback_`. Where `nng_recv` waits, it stays there.
unfoldable pub pipeline_callback : Reply → Received → Listener → Listener
pipeline_callback r q l = elim (r.code) [
  | fine ↦ elim q [
    | answered fine bytes ↦ hand_on bytes (take_in r.message l)
    | _ ↦ take_in r.message l
  ]
  | _ ↦ record l { armed = false }
]

module _ (strerror : Code → String) where
  -- `AsyncRequestReply::Callback_`, which also stays where `nng_recv` waits.
  unfoldable pub request_callback : Reply → Received → Listener → Listener
  unfolding set_failure
  request_callback r q l = elim (r.code) [
    | fine ↦ elim q [
      | waiting ↦ take_in r.message l
      | answered fine bytes ↦ hand_on bytes (take_in r.message l)
      | answered again bytes ↦ fail strerror "Async receive request" again (take_in r.message l)
      | answered (error_code n) bytes ↦
          fail strerror "Async receive request" (error_code n) (take_in r.message l)
    ]
    | again ↦ fail strerror "Aio result on async request reply" again l
    | error_code n ↦ fail strerror "Aio result on async request reply" (error_code n) l
  ]

-- `pipeEvent_`, and its flag `connected`.
pub data PipeEvent : Type 0 where
  add_post : PipeEvent
  rem_post : PipeEvent
  other_event : PipeEvent

abbrev pub pipe_event : PipeEvent → Bool → Bool
pipe_event add_post connected = true
pipe_event rem_post connected = false
pipe_event other_event connected = connected

-- One callback after the other, as long as nng has one to make.
unfoldable pub listen : {A : Type 0} → (A → Listener → Listener) → List A → Listener → Listener
listen f [] l = l
listen f (a ∷ as_) l = let rest = listen f as_ (f a l) in if l.armed then rest else l
