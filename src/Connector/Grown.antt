-- ===== src/Connector/Grown.antt =====
-- `read` of the connectors over nng that makes the caller's memory longer (src/o3ds/nng_connector.cpp).
use Prim.Native.String.{String}
use open3dstream.Base.Options.{◌>>=◌}
use open3dstream.Base.{
  ◌∷◌, ◌||◌, ℕ, ◌-◌, List, [], ◌++◌, Option, some, none, Bool, true, false, if◌then◌else◌, length,
  take, replicate, ltb,
}
use open3dstream.Connector.{
  Code, fine, again, error_code, Connector, Message, body, no_body, msg_len, take_message,
  free_message, set_error, set_failure,
}
use open3dstream.Connector.Read.{Reply, Block, copy}

-- A caller's pointer, and the size that the caller has for it.
pub data Pointer : Type 0 where
  null : Pointer
  dangling : Pointer
  points_to : Block → Pointer

pub record Buffer : Type 0 where
  pub place : Pointer
  pub size : ℕ

-- What `malloc` or `realloc` does.
pub data Allocation : Type 0 where
  no_memory : Allocation
  in_place : Allocation
  elsewhere : Allocation

-- The block with `n` cells, of which the new ones are not written yet.
abbrev pub resized : ℕ → Block → Block
resized n block = take n block ++ replicate (n - length block) none

-- `memcpy` of all of the bytes to where the pointer points to.
unfoldable pub copy_to : List ℕ → Pointer → Option Pointer
unfolding copy
copy_to [] p = some p
copy_to (b ∷ bs) null = none
copy_to (b ∷ bs) dangling = none
copy_to (b ∷ bs) (points_to block) =
    copy (length (b ∷ bs)) (b ∷ bs) block >>= λ c. some (points_to c)

-- The end of both functions, from `nng_msg_body` on.
unfoldable pub take_body : Message → Buffer → Connector → Option (ℕ × Buffer × Connector)
unfolding copy_to set_error
take_body (body bytes) b c =
    copy_to bytes b.place >>= λ p. some (length bytes, record b { place = p }, free_message c)
take_body (no_body n) b c = some (0, b, free_message (set_error "Invalid Message" c))

-- The pointer that `malloc` or `realloc` answers, and what the one that was given is then.
abbrev pub new_block : ℕ → Pointer → Option Pointer
new_block n null = some (points_to (replicate n none))
new_block n dangling = none
new_block n (points_to block) = some (points_to (resized n block))

abbrev pub old_block : Allocation → ℕ → Pointer → Option Pointer
old_block a n null = some null
old_block a n dangling = none
old_block no_memory n (points_to block) = some (points_to block)
old_block in_place n (points_to block) = some (points_to (resized n block))
old_block elsewhere n (points_to block) = some dangling

abbrev is_null : Pointer → Bool
is_null null = true
is_null dangling = false
is_null (points_to block) = false

-- After the allocation, with what the caller's pointer is then.
unfoldable pub after_allocation :
    Allocation → Option Pointer → Message → Buffer → Connector → Option (ℕ × Buffer × Connector)
unfolding take_body
after_allocation no_memory o m b c = some (0, b, c)
after_allocation in_place o m b c =
    o >>= λ p. take_body m (record { place = p; size = msg_len m }) c
after_allocation elsewhere o m b c =
    o >>= λ p. take_body m (record { place = p; size = msg_len m }) c

-- `BlockingNngConnector::read(char**, size_t*)`, with a message.
unfoldable pub blocking_grow :
    Allocation → Message → Buffer → Connector → Option (ℕ × Buffer × Connector)
unfolding after_allocation take_body
blocking_grow a m b c =
    if is_null b.place || ltb b.size (msg_len m)
    then after_allocation a (new_block (msg_len m) b.place) m b c
    else take_body m (record b { size = msg_len m }) c

-- `AsyncNngConnector::read(char**, size_t*)`, with a message.
unfoldable pub async_grow :
    Allocation → Message → Buffer → Connector → Option (ℕ × Buffer × Connector)
unfolding after_allocation take_body
async_grow a m b c =
    if ltb b.size (msg_len m)
    then after_allocation a (old_block a (msg_len m) b.place) m b c
    else take_body m b c

module _ (strerror : Code → String) where
  -- The two functions; `none` in place of the buffer is a null pointer for one of the parameters.
  unfoldable pub blocking_read_grown :
      Reply → Allocation → Option Buffer → Connector → Option (ℕ × Option Buffer × Connector)
  unfolding blocking_grow set_error set_failure
  blocking_read_grown r a none c = some (0, none, set_error "Invalid parameter" c)
  blocking_read_grown r a (some b) c = elim (r.code) [
    | fine ↦
        r.message >>= λ m. blocking_grow a m b (take_message c) >>= λ q. some (q.0, some q.1, q.2)
    | again ↦ some (0, some b, set_failure strerror "Receiving message" again c)
    | error_code n ↦ some (0, some b, set_failure strerror "Receiving message" (error_code n) c)
  ]

  unfoldable pub async_read_grown :
      Reply → Allocation → Option Buffer → Connector → Option (ℕ × Option Buffer × Connector)
  unfolding async_grow set_error set_failure
  async_read_grown r a none c = some (0, none, set_error "Invalid parameter" c)
  async_read_grown r a (some b) c = elim (r.code) [
    | fine ↦ elim (r.message) [
      | none ↦ some (0, some b, c)
      | some m ↦ async_grow a m b (take_message c) >>= λ q. some (q.0, some q.1, q.2)
    ]
    | again ↦ some (0, some b, c)
    | error_code n ↦ some (0, some b, set_failure strerror "Receiving message" (error_code n) c)
  ]
