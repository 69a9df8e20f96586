-- ===== src/Tcp/Tests.antt =====
-- A device and a server for the theorems about packets over TCP.
use open3dstream.Base.{
  ℕ, zero, suc, ◌+◌, ◌%◌, List, [], ◌∷◌, ◌++◌, some, none, true, false, length, ◌≡◌, ◌≢◌, refl,
  arith,
}
use open3dstream.Base.Words.{u32_mod, to_bytes}
use open3dstream.Tcp.Frame.{frame, stream}
use open3dstream.Tcp.Sender.{sent, Socket, write_tcp, NoWait, write_tcp-Frame}
use open3dstream.Base.{Option}
use open3dstream.Base.Buffers.{write_at}
use open3dstream.Tcp.Receive.{Read, got, would_block, returned, ended, receive}
use open3dstream.Tcp.Whole.{IsWhole, chunks, receive-IsWhole}
use open3dstream.Tcp.Transfer.{write_all, waits_once, transfer-Arrives, write_tcp-loses_mark}
use open3dstream.Tcp.Server.{Phase, sync, header, Grant, granted, payloads, Clock, Server, tick}
use open3dstream.Tcp.Server.Reads.{AllGive, Ready}
use open3dstream.Tcp.Server.Ends.{IsSound, tick-IsSound}
use open3dstream.Tcp.Server.Delivery.{IsMid, Follows, tick-Follows}
use open3dstream.Tcp.Server.Arrival.{tick-Arrives}
use open3dstream.Tcp.Server.Connected.{connected-Arrives}

-- Seconds, and no rounding.
abbrev seconds : Clock
seconds = record { Time = ℕ; narrow = λ t. t; late = λ a b. false }

abbrev line : Socket
line = record { open_ = true; closes = true; answers = sent 14 ∷ sent 4 ∷ []; written = [] }

abbrev small : List ℕ
small = 7 ∷ 8 ∷ []

line_answer : (write_tcp small line).0 ≡ 20
unfolding write_tcp to_bytes
line_answer = refl

line_writes : (write_tcp small line).0 ≢ 0
line_writes e = absurd (omega (arith, e, line_answer))

write_tcp-Frame_example :
    ((write_tcp small line).1.written ≡ [] ++ frame small)
    × ((write_tcp small line).0 ≡ length (frame small))
    × NoWait (write_tcp small line).1.answers
write_tcp-Frame_example = write_tcp-Frame small line tt (omega arith) line_writes

write_tcp-loses_mark_example :
    ((write_tcp small (waits_once true [])).0 ≡ (length small + 18) % u32_mod)
    × ((write_tcp small (waits_once true [])).1.written
        ≡ [] ++ (to_bytes 4 (length small) ++ small))
write_tcp-loses_mark_example = write_tcp-loses_mark small [] true

-- A server to which the bytes come one by one.
abbrev calls : ℕ → List Grant
calls zero = []
calls (suc n) = granted 3 ∷ calls n

abbrev server : Phase → List ℕ → ℕ → Server seconds
server phase bytes n = record {
  phase = phase;
  size = none;
  got = [];
  good_time = 0;
  no_data = false;
  wire = record { pending = bytes; grants = calls n };
  events = [];
}

calls-AllGive : (n : ℕ) → AllGive (calls n)
calls-AllGive zero = tt
calls-AllGive (suc n) = (omega arith, calls-AllGive n)

-- In the middle of a stream.
abbrev middle : Server seconds
middle = server header (frame small) 20

middle-IsMid : IsMid seconds middle (small ∷ [])
unfolding to_bytes
middle-IsMid = record { along = refl; roomy = refl; place = omega arith }

middle-IsSound : IsSound seconds middle
middle-IsSound = record { roomy = refl; waits = omega arith }

middle-Ready : Ready middle.wire
unfolding to_bytes
middle-Ready = (calls-AllGive 20, omega arith)

tick-IsSound_example : (t : Server seconds) × (tick seconds 5 middle ≡ some t) × IsSound seconds t
tick-IsSound_example = tick-IsSound seconds 5 middle middle-IsSound

middle_after : (t : Server seconds) × (tick seconds 5 middle ≡ some t) × IsSound seconds t
middle_after = tick-IsSound seconds 5 middle middle-IsSound

tick-Follows_example : Follows seconds 5 middle middle_after.0 (small ∷ [])
tick-Follows_example =
    tick-Follows seconds 5 middle middle_after.0 (small ∷ []) middle-IsMid (omega arith, tt)
      middle_after.1

tick-Arrives_example :
    (t : Server seconds) × (tick seconds 5 middle ≡ some t)
    × (payloads t.events ≡ payloads middle.events ++ (small ∷ []))
tick-Arrives_example =
    tick-Arrives seconds 5 middle (small ∷ []) middle-IsMid (omega arith, tt) middle-Ready

-- Just connected, with what the line has taken on its way.
abbrev connected : Server seconds
connected = server sync (write_all (small ∷ []) line).1.written 20

line_all : (write_all (small ∷ []) line).0 ≡ true
unfolding write_all write_tcp to_bytes
line_all = refl

connected-Ready : Ready connected.wire
unfolding write_all write_tcp to_bytes
connected-Ready = (calls-AllGive 20, omega arith)

transfer-Arrives_example :
    (t : Server seconds) × (tick seconds 5 connected ≡ some t)
    × (payloads t.events ≡ payloads connected.events ++ (small ∷ []))
transfer-Arrives_example =
    transfer-Arrives seconds 5 line connected small [] refl tt (omega arith, tt) line_all refl refl
      connected-Ready refl

-- As the middle of the stream, but before the mark has been found.
abbrev fresh : Server seconds
fresh = server sync (frame small) 20

fresh-Ready : Ready fresh.wire
unfolding to_bytes
fresh-Ready = (calls-AllGive 20, omega arith)

fresh_stream : fresh.wire.pending ≡ stream (small ∷ [])
unfolding to_bytes
fresh_stream = refl

connected-Arrives_example :
    (t : Server seconds) × (tick seconds 5 fresh ≡ some t)
    × (payloads t.events ≡ payloads fresh.events ++ (small ∷ []))
connected-Arrives_example =
    connected-Arrives seconds 5 fresh small [] refl refl fresh-Ready (omega arith, tt) fresh_stream

-- Five bytes in three chunks, into a block for four.
abbrev bytes_in_chunks : List (List ℕ)
bytes_in_chunks = (1 ∷ 2 ∷ []) ∷ (3 ∷ []) ∷ (4 ∷ 5 ∷ []) ∷ []

abbrev cells : List (Option ℕ)
cells = none ∷ none ∷ none ∷ none ∷ []

receive-IsWhole_example :
    IsWhole 4 [] (1 ∷ 2 ∷ 3 ∷ 4 ∷ 5 ∷ []) (receive 4 cells (chunks bytes_in_chunks))
    × ((b : ℕ) (bs : List ℕ) (rs : List Read)
        → receive (length (b ∷ bs) + length (b ∷ bs)) cells (got (b ∷ bs) ∷ would_block ∷ rs)
          ≡ ended returned (write_at 0 (b ∷ bs) cells) rs)
receive-IsWhole_example = receive-IsWhole 4 bytes_in_chunks cells tt (omega arith) (omega arith)
