-- ===== src/Connector/Tests.antt =====
-- Runs of the connectors over nng (src/o3ds/nng_connector.cpp, async_pipeline.cpp).
use Prim.Native.String.{String}
use open3dstream.Base.{ℕ, List, [], ◌∷◌, some, none, true, false, ◌≡◌, refl, arith}
use open3dstream.Connector.{Code, fine, again, error_code, new_connector}
use open3dstream.Connector.Write.{Answers, async_write, blocking_write, write_all}
use open3dstream.Connector.Accounts.{
  is_fine, is_put_off, is_taken, is_left, Account, write_all-accounts,
}
use open3dstream.Connector.Read.{Reply, Block, reads-compared, blocking_read, async_read, reply_of}
use open3dstream.Connector.Grown.{elsewhere, points_to, null}
use open3dstream.Connector.Delivered.{Delivered, blocking, polled, grown-Delivered}
use open3dstream.Connector.Listen.{
  Listener, async_read_msg, pipeline_callback, request_callback, listen,
}
use open3dstream.Connector.Heard.{Moves, listen-compared, in_turn}
use open3dstream.Connector.Endpoint.{Endpoint, new_endpoint, destroy}
use open3dstream.Connector.Dialer.{PushCalls, retry}
use open3dstream.Connector.Released.{retry-lost}

abbrev text_of : Code → String
text_of fine = "No error"
text_of again = "Try again"
text_of (error_code n) = "Error"

-- Three messages: nng takes the first, cannot send the next one now, and refuses the last.
abbrev writes : List (Answers × List ℕ)
writes =
    (record { alloc = fine; append = fine; send = fine }, 1 ∷ 2 ∷ [])
    ∷ (record { alloc = fine; append = fine; send = again }, 3 ∷ [])
    ∷ (record { alloc = fine; append = fine; send = error_code 7 }, 4 ∷ [])
    ∷ []

write_all-accounts_example :
    Account is_fine
      (λ f. 0)
      is_put_off
      writes
      (write_all (async_write text_of) writes new_connector).0
      new_connector
      (write_all (async_write text_of) writes new_connector).1
    × Account is_taken is_left
        (λ f. 0)
        writes
        (write_all (blocking_write text_of) writes new_connector).0
        new_connector
        (write_all (blocking_write text_of) writes new_connector).1
write_all-accounts_example = write_all-accounts text_of writes new_connector

abbrev room : Block
room = some 9 ∷ some 9 ∷ some 9 ∷ []

reads-compared_example :
    (blocking_read text_of (reply_of (1 ∷ 2 ∷ [])) 3 room new_connector
      ≡ some (2, some 1 ∷ some 2 ∷ some 9 ∷ [], new_connector))
    × (async_read text_of (reply_of (1 ∷ 2 ∷ [])) 3 room new_connector ≡ none)
reads-compared_example = reads-compared text_of (1 ∷ 2 ∷ []) room new_connector

grown-Delivered_example :
    Delivered (1 ∷ 2 ∷ 3 ∷ 4 ∷ []) 4 new_connector (
      blocking text_of
        (1 ∷ 2 ∷ 3 ∷ 4 ∷ [])
        new_connector
        elsewhere
        (record { place = points_to room; size = 3 }))
    × Delivered (1 ∷ 2 ∷ 3 ∷ 4 ∷ []) 4 new_connector (
        blocking text_of
          (1 ∷ 2 ∷ 3 ∷ 4 ∷ [])
          new_connector
          elsewhere
          (record { place = null; size = 0 }))
    × (polled text_of
          (1 ∷ 2 ∷ 3 ∷ 4 ∷ [])
          new_connector
          elsewhere
          (record { place = points_to room; size = 3 })
        ≡ none)
grown-Delivered_example =
    grown-Delivered text_of (1 ∷ 2 ∷ 3 ∷ 4 ∷ []) new_connector elsewhere room 3 (omega arith)

abbrev ready : Listener
ready = record { base = new_connector; armed = true; has_func = true; delivered = [] }

abbrev operations : List Reply
operations =
    reply_of (1 ∷ [])
    ∷ record { code = fine; message = none }
    ∷ reply_of (2 ∷ [])
    ∷ record { code = error_code 7; message = none }
    ∷ []

abbrev queue : List (List ℕ)
queue = (1 ∷ []) ∷ (2 ∷ []) ∷ (3 ∷ []) ∷ (4 ∷ []) ∷ (5 ∷ []) ∷ []

listen-compared_example :
    Moves
      ((1 ∷ []) ∷ (2 ∷ []) ∷ [])
      0
      false
      ready
      (listen (λ r m. (async_read_msg text_of r m).1) operations ready)
    × Moves
        ((2 ∷ []) ∷ (4 ∷ []) ∷ [])
        3
        false
        ready
        (listen (λ p. pipeline_callback p.0 p.1) (in_turn queue) ready)
    × Moves
        ((2 ∷ []) ∷ (4 ∷ []) ∷ [])
        3
        false
        ready
        (listen (λ p. request_callback text_of p.0 p.1) (in_turn queue) ready)
listen-compared_example =
    listen-compared text_of operations queue ready (record { waits = refl; takes = refl })

abbrev attempt : Code → Code → PushCalls
attempt created dialled = record {
  opened = fine;
  allocated = fine;
  created = created;
  psk = record {
    identity = 104 ∷ [];
    key = 1 ∷ 2 ∷ [];
    allocated = fine;
    keyed = fine;
    attached = fine;
  };
  dialled = dialled;
}

-- The dialer cannot be made, then it cannot dial, then it starts.
abbrev attempts : List PushCalls
attempts = attempt (error_code 3) fine ∷ attempt fine (error_code 6) ∷ attempt fine fine ∷ []

abbrev connected : Endpoint
connected = (retry text_of attempts new_endpoint).1

retry-lost_example :
    ((retry text_of attempts new_endpoint).0 ≡ true)
    × (connected.sockets ≡ 2)
    × (connected.aios ≡ 2)
    × (connected.configs ≡ 0)
    × ((destroy connected).sockets ≡ 1)
    × ((destroy connected).aios ≡ 2)
    × ((destroy connected).aio ≡ false)
retry-lost_example = retry-lost text_of attempts new_endpoint refl
