-- ===== src/Tcp/Transfer.antt =====
-- Packets that `WriteTcp` (plugins/mobu/device.cpp) writes, at `O3DSServer::tick`
-- (UOpen3DServer.cpp).
use mathlib.Core.List.{append_assoc, append-nil}
use open3dstream.Base.{
  ℕ, ◌+◌, ◌%◌, List, [], ◌∷◌, ◌++◌, some, Bool, true, false, ◌==◌, if◌then◌else◌, length, ◌≡◌, refl,
  sym, ap, ◌∙◌, inl, inr, Bool-cases, arith,
}
use open3dstream.Base.Words.{u32_mod, to_bytes}
use open3dstream.Tcp.Frame.{frame, stream, AllShort}
use open3dstream.Tcp.Sender.{
  would_block, Socket, answered, send, write_tcp, NoWait, write_tcp-Frame,
}
use open3dstream.Tcp.Server.{sync, payloads, Clock, Server, tick}
use open3dstream.Tcp.Server.Reads.{Roomy, Ready}
use open3dstream.Tcp.Server.Connected.{connected-Arrives}

-- One call after the other, until one answers 0.
unfoldable pub write_all : List (List ℕ) → Socket → Bool × Socket
unfolding write_tcp
write_all [] s = (true, s)
write_all (p ∷ ps) s =
    let r = write_tcp p s in let rest = write_all ps r.1 in if r.0 == 0 then (false, r.1) else rest

write_all-stream :
    (ps : List (List ℕ)) (s : Socket)
    → NoWait s.answers
    → AllShort ps
    → (write_all ps s).0 ≡ true
    → (write_all ps s).1.written ≡ s.written ++ stream ps
unfolding write_all
write_all-stream [] s n h e = sym (append-nil s.written)
write_all-stream (p ∷ ps) s n (a, h) e = elim (Bool-cases ((write_tcp p s).0 == 0)) [
  | inl y ↦ absurd cc (rw (y, write_all) at e)
  | inr z ↦
      let (f, g, k) = write_tcp-Frame p s n (omega arith) (λ q. absurd cc (rw (q) at z)) in
      rw (z, write_all)
        (write_all-stream ps (write_tcp p s).1 k h (rw (z, write_all) at e)
          ∙ ap (λ xs. xs ++ stream ps) f
          ∙ append_assoc s.written (frame p) (stream ps))
]

-- Short packets, at least one, are written one after the other to a new connection, no call of the
-- system's `send` would have to wait, and `WriteTcp` never answers 0. At a server that has just been
-- connected, `Recv` gives the bytes that were written, never fails, and is called as often as there
-- are bytes. Then one tick of the server ends and hands over exactly these packets, in their order.
pub transfer-Arrives :
    (C : Clock) (now : C.Time) (s : Socket) (r : Server C) (p : List ℕ) (ps : List (List ℕ))
    → s.written ≡ []
    → NoWait s.answers
    → AllShort (p ∷ ps)
    → (write_all (p ∷ ps) s).0 ≡ true
    → r.phase ≡ sync
    → Roomy r.size r.got
    → Ready r.wire
    → r.wire.pending ≡ (write_all (p ∷ ps) s).1.written
    → (t : Server C) × (tick C now r ≡ some t) × (payloads t.events ≡ payloads r.events ++ (p ∷ ps))
transfer-Arrives C now s r p ps w n h e f k g d =
    connected-Arrives C now r p ps f k g h
      (d ∙ write_all-stream (p ∷ ps) s n h e ∙ ap (λ xs. xs ++ stream (p ∷ ps)) w)

-- A connection on which the next call of `send` would have to wait and all else is taken.
abbrev pub waits_once : Bool → List ℕ → Socket
waits_once closes written = record {
  open_ = true;
  closes = closes;
  answers = would_block ∷ [];
  written = written;
}

-- On such a connection `WriteTcp` answers as if the whole frame were sent, and what it has written is
-- the length and the packet, with no mark before them.
pub write_tcp-loses_mark :
    (p w : List ℕ) (c : Bool)
    → ((write_tcp p (waits_once c w)).0 ≡ (length p + 18) % u32_mod)
      × ((write_tcp p (waits_once c w)).1.written ≡ w ++ (to_bytes 4 (length p) ++ p))
unfolding write_tcp send answered
write_tcp-loses_mark p w c = (refl, append_assoc w (to_bytes 4 (length p)) p)
