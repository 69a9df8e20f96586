-- ===== src/Connector/Write.antt =====
-- `write` of the connectors over nng (src/o3ds/nng_connector.cpp).
use Prim.Native.String.{String}
use open3dstream.Base.{ℕ, ◌+◌, ◌%◌, List, [], ◌∷◌, ◌++◌, Bool, true, false}
use open3dstream.Base.Words.{u64_mod}
use open3dstream.Connector.{
  Code, fine, again, error_code, Connector, take_message, free_message, set_failure, checked,
}

-- What nng answers to `nng_msg_alloc`, `nng_msg_append` and `nng_sendmsg`.
pub record Answers : Type 0 where
  pub alloc : Code
  pub append : Code
  pub send : Code

-- nng has the message now.
abbrev hand_over : List ℕ → Connector → Connector
hand_over bytes c = record (free_message c) { accepted = c.accepted ++ (bytes ∷ []) }

module _ (strerror : Code → String) where
  -- `BlockingNngConnector::write`.
  unfoldable pub blocking_write : Answers → List ℕ → Connector → Bool × Connector
  unfolding checked
  blocking_write a bytes c =
      let made = take_message c in
      checked strerror false "Creating message" a.alloc c (
        checked strerror false "Appending message" a.append made
          (checked strerror false "Sending message" a.send made (true, hand_over bytes made)))

  -- The end of `AsyncNngConnector::write`.
  unfoldable pub after_send : Code → List ℕ → Connector → Bool × Connector
  unfolding set_failure
  after_send fine bytes c = (true, hand_over bytes c)
  after_send again bytes c = (true, record (free_message c) { dropped = (c.dropped + 1) % u64_mod })
  after_send (error_code n) bytes c =
      (false, set_failure strerror "Sending message" (error_code n) (free_message c))

  -- `AsyncNngConnector::write`.
  unfoldable pub async_write : Answers → List ℕ → Connector → Bool × Connector
  unfolding checked after_send
  async_write a bytes c =
      let made = take_message c in
      checked strerror false "Message alloc" a.alloc c (
        checked strerror false "Creating message" a.append (free_message made)
          (after_send a.send bytes made))

-- One write after the other, with what nng answers to each: the answers, and the connector.
unfoldable pub write_all :
    (Answers → List ℕ → Connector → Bool × Connector)
    → List (Answers × List ℕ)
    → Connector
    → List Bool × Connector
write_all write [] c = ([], c)
write_all write ((a, bytes) ∷ ws) c =
    let r = write a bytes c in let rest = write_all write ws r.1 in (r.0 ∷ rest.0, rest.1)
