-- ===== src/Connector/Read.antt =====
-- `read` of the connectors over nng (src/o3ds/nng_connector.cpp). The caller's memory is a block of
-- cells; `none` is a read or a write outside of the memory that there is. What nng and the allocator
-- answer are parameters.
use Prim.Native.String.{String}
use open3dstream.Base.Options.{◌>>=◌}
use open3dstream.Base.Buffers.{write_at, take_all}
use open3dstream.Base.{
  ℕ, List, Option, some, none, true, false, if◌then◌else◌, ◌&&◌, length, take, ltb, leb, ◌≤◌, ◌<◌,
  ◌≡◌, refl, ap, inl, inr, Bool-cases, arith,
}
use open3dstream.Connector.{
  Code, fine, again, error_code, reading, Connector, Message, body, no_body, take_message,
  free_message, set_error, set_failure,
}

-- What `nng_recvmsg` answers, and the message, if it is not a null pointer.
pub record Reply : Type 0 where
  pub code : Code
  pub message : Option Message

abbrev pub Block : Type 0
Block = List (Option ℕ)

-- `memcpy` of the first `n` of the bytes.
unfoldable pub copy : ℕ → List ℕ → Block → Option Block
copy n bytes block =
    if leb n (length bytes) && leb n (length block)
    then some (write_at 0 (take n bytes) block)
    else none

module _ (strerror : Code → String) where
  -- `BlockingNngConnector::read(char*, size_t)`, with a message.
  unfoldable pub blocking_take : Message → ℕ → Block → Connector → Option (ℕ × Block × Connector)
  unfolding set_error copy
  blocking_take (body bytes) len block c =
      if ltb len (length bytes)
      then some (0, block, set_error "Message too large" (free_message c))
      else (copy (length bytes) bytes block >>= λ b. some (length bytes, b, free_message c))
  blocking_take (no_body n) len block c =
      if ltb len n
      then some (0, block, set_error "Message too large" (free_message c))
      else some (0, block, free_message (set_error "Invalid Message" c))

  unfoldable pub blocking_read : Reply → ℕ → Block → Connector → Option (ℕ × Block × Connector)
  unfolding blocking_take set_failure
  blocking_read r len block c = elim (r.code) [
    | fine ↦ r.message >>= λ m. blocking_take m len block (take_message c)
    | again ↦ some (0, block, set_failure strerror "Receiving message" again c)
    | error_code n ↦ some (0, block, set_failure strerror "Receiving message" (error_code n) c)
  ]

  -- `AsyncNngConnector::read(char*, size_t)`, with a message.
  unfoldable pub async_take : Message → ℕ → Block → Connector → Option (ℕ × Block × Connector)
  unfolding set_error copy
  async_take (body bytes) len block c =
      if ltb len (length bytes)
      then some (0, block, set_error "Message too large" c)
      else (copy len bytes block >>= λ b.
          some (length bytes, b, record (free_message c) { state = reading }))
  async_take (no_body n) len block c =
      if ltb len n
      then some (0, block, set_error "Message too large" c)
      else some (0, block, free_message (set_error "Invalid Message" c))

  unfoldable pub async_read : Reply → ℕ → Block → Connector → Option (ℕ × Block × Connector)
  unfolding async_take set_failure
  async_read r len block c = elim (r.code) [
    | fine ↦ elim (r.message) [
      | none ↦ some (0, block, c)
      | some m ↦ async_take m len block (take_message c)
    ]
    | again ↦ some (0, block, c)
    | error_code n ↦ some (0, block, set_failure strerror "Receiving message" (error_code n) c)
  ]

pub copy-all :
    (n : ℕ) (bytes : List ℕ) (block : Block)
    → n ≡ length bytes
    → n ≤ length block
    → copy n bytes block ≡ some (write_at 0 bytes block)
unfolding copy
copy-all n bytes block e h = rw (within e, below h, copy, take_all n bytes e) refl
  where
    within : {m n : ℕ} → m ≡ n → leb m n ≡ true
    within e = ground arith

    below : {m n : ℕ} → m ≤ n → leb m n ≡ true
    below h = ground arith

pub free-take : (c : Connector) → free_message (take_message c) ≡ c
free-take c = ap (λ n. record c { held = n }) (omega arith)

copy-past : (n : ℕ) (bytes : List ℕ) (block : Block) → length bytes < n → copy n bytes block ≡ none
unfolding copy
copy-past n bytes block h = rw (lt-leb h, copy) refl
  where
    lt-leb : {m n : ℕ} → m < n → leb n m ≡ false
    lt-leb h = ground arith

abbrev pub reply_of : List ℕ → Reply
reply_of bytes = record { code = fine; message = some (body bytes) }

-- What a read into the caller's block of `len` cells comes to, by how long the message is.
abbrev pub by_length : {A : Type 0} → ℕ → ℕ → A → A → A → A
by_length n len shorter equal longer =
    if ltb len n then longer else if ltb n len then shorter else equal

-- Reads of a message of nng into the caller's block. Where the message is not longer than the block,
-- the blocking connector answers its length, puts it at the start of the block and frees it. The
-- asynchronous connector does the same if the message fills the block; if it is shorter, it reads past
-- the end of the message. Where the message is longer, both answer 0 with an error and leave the block
-- as it was; the blocking connector frees the message, the asynchronous does not.
pub reads-compared :
    (strerror : Code → String) (bytes : List ℕ) (block : Block) (c : Connector)
    → let r = reply_of bytes in
      let n = length bytes in
      let len = length block in
      let filled = write_at 0 bytes block in
      let too_large = set_error "Message too large" in
      (blocking_read strerror r len block c
        ≡ by_length n len
            (some (n, filled, c))
            (some (n, filled, c))
            (some (0, block, too_large c)))
      × (async_read strerror r len block c
          ≡ by_length n len none
              (some (n, filled, record c { state = reading }))
              (some (0, block, too_large (take_message c))))
unfolding blocking_read blocking_take async_read async_take
reads-compared strerror bytes block c =
    let n = length bytes in
    let len = length block in
    elim (Bool-cases (ltb len n)) [
      | inl y ↦
          rw (y) (ap (λ d. some (0, block, set_error "Message too large" d)) (free-take c), refl)
      | inr z ↦
          let filled = write_at 0 bytes block in
          elim (Bool-cases (ltb n len)) [
            | inl y ↦
                rw
                  (
                    z,
                    y,
                    copy-all n bytes block refl (ground (arith, z)),
                    copy-past len bytes block (ground (arith, y)),
                  )
                  (ap (λ d. some (n, filled, d)) (free-take c), refl)
            | inr w ↦
                rw
                  (
                    z,
                    w,
                    copy-all n bytes block refl (ground (arith, z)),
                    copy-all len bytes block (ground (arith, z, w)) (omega arith),
                  )
                  (
                    ap (λ d. some (n, filled, d)) (free-take c),
                    ap (λ (d : Connector). some (n, filled, record d { state = reading }))
                        (free-take c),
                  )
          ]
    ]
