-- ===== src/Tcp/Receive.antt =====
-- `TcpSocket::Receive` and `ReceiveToToken` of src/o3ds/tcp.cpp. What the system's `recv` answers is a
-- parameter, a list; when it is at its end, the call waits.
use open3dstream.Base.{
  ℕ, ◌+◌, ◌-◌, List, [], ◌∷◌, ◌++◌, Option, some, none, Bool, true, false, not, if◌then◌else◌,
  length, take, drop, ltb, leb, ◌==◌,
}
use open3dstream.Base.Buffers.{write_at}

-- Bytes that have come, the end of the connection, that the call would have to wait, an error. No
-- bytes are the answer 0, as at the end of the connection.
pub data Read : Type 0 where
  got : List ℕ → Read
  closed : Read
  would_block : Read
  failed : Read

-- How a function ends: it returns, it throws, it waits. With the caller's memory, and the answers that
-- are left.
pub data End : Type 0 where
  returned : End
  thrown : End
  waits : End

pub record Ended : Type 0 where
  pub how : End
  pub block : List (Option ℕ)
  pub rest : List Read

abbrev pub ended : End → List (Option ℕ) → List Read → Ended
ended how block rest = record { how = how; block = block; rest = rest }

-- `Receive(buf, len)`, with its `count` and `recd`, which `Receive(buf, len, recd)` leaves as it was
-- when it would have to wait. `recv` takes no more bytes than there is room for; the others come next.
unfoldable pub receive_loop : ℕ → ℕ → ℕ → List (Option ℕ) → List Read → Ended
receive_loop len count recd block [] =
    if ltb count len then ended waits block [] else ended returned block []
receive_loop len count recd block (closed ∷ rs) =
    if ltb count len then ended thrown block rs else ended returned block (closed ∷ rs)
receive_loop len count recd block (failed ∷ rs) =
    if ltb count len then ended thrown block rs else ended returned block (failed ∷ rs)
receive_loop len count recd block (would_block ∷ rs) =
    let again = receive_loop len (count + recd) recd block rs in
    if ltb count len then again else ended returned block (would_block ∷ rs)
receive_loop len count recd block (got [] ∷ rs) =
    if ltb count len then ended thrown block rs else ended returned block (got [] ∷ rs)
receive_loop len count recd block (got (b ∷ cs) ∷ rs) =
    let bs = b ∷ cs in
    let room = len - count in
    let again = receive_loop len (count + length bs) (length bs) (write_at count bs block) rs in
    if ltb count len
    then (if leb (length bs) room
        then again
        else ended returned (write_at count (take room bs) block) (got (drop room bs) ∷ rs))
    else ended returned block (got bs ∷ rs)

unfoldable pub receive : ℕ → List (Option ℕ) → List Read → Ended
unfolding receive_loop
receive len block rs = receive_loop len 0 0 block rs

-- What `recv` answers for one byte.
pub data OneByte : Type 0 where
  byte : ℕ → OneByte
  no_byte : OneByte
  no_more : OneByte

pub record TokenEnd : Type 0 where
  pub how : End
  pub bytes_read : ℕ
  pub block : List (Option ℕ)
  pub rest : List OneByte

abbrev token_end : End → ℕ → List (Option ℕ) → List OneByte → TokenEnd
token_end how n block rest = record { how = how; bytes_read = n; block = block; rest = rest }

-- `ReceiveToToken`: `last` is the byte in `c`, once there is one; it is stored again when the call
-- would have to wait.
unfoldable pub token_loop : ℕ → ℕ → ℕ → Option ℕ → List (Option ℕ) → List OneByte → TokenEnd
token_loop len token count last block [] = token_end waits 0 block []
token_loop len token count last block (no_more ∷ rs) = token_end thrown 0 block rs
token_loop len token count none block (no_byte ∷ rs) = token_loop len token count none block rs
token_loop len token count (some c) block (no_byte ∷ rs) =
    let next = write_at count (c ∷ []) block in
    let again = token_loop len token (count + 1) (some c) next rs in
    if count + 1 == len
    then token_end thrown 0 next rs
    else if c == token
    then token_end returned (count + 1) next rs
    else again
token_loop len token count last block (byte c ∷ rs) =
    let next = write_at count (c ∷ []) block in
    let again = token_loop len token (count + 1) (some c) next rs in
    if count + 1 == len
    then token_end thrown 0 next rs
    else if c == token
    then token_end returned (count + 1) next rs
    else again

unfoldable pub receive_to_token : ℕ → ℕ → List (Option ℕ) → List OneByte → TokenEnd
unfolding token_loop
receive_to_token len token block rs =
    if len == 0 then token_end thrown 0 block rs else token_loop len token 0 none block rs

-- How `Receive(std::vector<char>&)` ends; `past_end` is a copy past the end of the vector.
pub data VectorEnd : Type 0 where
  vector_answered : Bool → List ℕ → VectorEnd
  vector_thrown : VectorEnd
  vector_waits : VectorEnd
  past_end : VectorEnd

abbrev is_empty : List ℕ → Bool
is_empty [] = true
is_empty (b ∷ bs) = false

-- Each answer comes with whether there is time left before the call. `last` are the bytes in `c`,
-- which are copied again when the call would have to wait; a chunk is at most 10239 bytes.
unfoldable pub vector_loop : List ℕ → List ℕ → List (Bool × Read) → VectorEnd
vector_loop last bytes [] = vector_waits
vector_loop last bytes ((false, r) ∷ rs) = vector_answered (not (is_empty bytes)) bytes
vector_loop last bytes ((true, closed) ∷ rs) = vector_thrown
vector_loop last bytes ((true, failed) ∷ rs) = vector_thrown
vector_loop last bytes ((true, would_block) ∷ rs) =
    let rest = vector_loop last (last ++ drop (length last) bytes) rs in
    if leb (length last) (length bytes) then rest else past_end
vector_loop last bytes ((true, got []) ∷ rs) = vector_thrown
vector_loop last bytes ((true, got (b ∷ bs)) ∷ rs) =
    let cs = take 10239 (b ∷ bs) in
    let rest = vector_loop cs (cs ++ drop (length cs) bytes) rs in
    if leb (length cs) (length bytes) then rest else past_end

unfoldable pub receive_vector : List ℕ → List (Bool × Read) → VectorEnd
unfolding vector_loop
receive_vector bytes rs = vector_loop [] bytes rs
