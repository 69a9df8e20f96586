-- ===== src/Tcp/Sender.antt =====
-- `TcpSocket::Send` of src/o3ds/tcp.cpp and `WriteTcp` of plugins/mobu/device.cpp. What the system's
-- `send` answers is a parameter, a list with an answer for each call; when it is at its end, all of
-- the bytes are sent. The lengths are numbers; they stand for an `int` where they are below 2 ^ 31.
use mathlib.Core.List.{append_assoc}
use open3dstream.Base.{
  ℕ, zero, suc, ◌+◌, ◌%◌, ◌<◌, ◌≤◌, List, [], ◌∷◌, ◌++◌, Bool, true, false, not, ◌&&◌,
  if◌then◌else◌, length, take, leb, ◌≡◌, ◌≢◌, refl, ap, ◌∙◌, inl, inr, Bool-cases, arith,
}
use open3dstream.Base.Words.{u32_mod, to_bytes}
use open3dstream.Tcp.Frame.{start_mark, frame, length-frame}

-- The answers of `send`: a number of bytes that were sent, that it would have to wait, an error.
pub data Answer : Type 0 where
  sent : ℕ → Answer
  would_block : Answer
  failed : Answer

-- `open` says that `m_socket` is not `SOCKET_NULL`, `closes` that the system can close it.
pub record Socket : Type 0 where
  pub open_ : Bool
  pub closes : Bool
  pub answers : List Answer
  pub written : List ℕ

-- `Send`: `false` is a `SocketException`.
unfoldable pub answered : List Answer → List ℕ → Socket → Bool × Socket
answered [] bytes s = (true, record s { written = s.written ++ bytes })
answered (would_block ∷ gs) bytes s = (true, record s { answers = gs })
answered (failed ∷ gs) bytes s = (false, record s { answers = gs })
answered (sent k ∷ gs) bytes s =
    (leb (length bytes) k, record s { answers = gs; written = s.written ++ take k bytes })

unfoldable pub send : List ℕ → Socket → Bool × Socket
unfolding answered
send bytes s = if not s.open_ then (false, s) else answered s.answers bytes s

-- `Socket::DestroySocket`, with its exception caught.
unfoldable pub destroy_socket : Socket → Socket
destroy_socket s = if s.open_ && s.closes then record s { open_ = false } else s

-- `WriteTcp`: the number of bytes, or 0 after an exception.
unfoldable pub write_tcp : List ℕ → Socket → ℕ × Socket
unfolding send destroy_socket
write_tcp p s =
    let a = send start_mark s in
    let b = send (to_bytes 4 (length p)) a.1 in
    let c = send p b.1 in
    if not a.0
    then (0, destroy_socket a.1)
    else if not b.0
    then (0, destroy_socket b.1)
    else if not c.0
    then (0, destroy_socket c.1)
    else ((length p + 18) % u32_mod, c.1)

-- No call of `send` that is still to come would have to wait.
abbrev pub NoWait : List Answer → Type 0
NoWait [] = Unit {0}
NoWait (sent k ∷ gs) = NoWait gs
NoWait (would_block ∷ gs) = ⊥
NoWait (failed ∷ gs) = NoWait gs

take_all : (n : ℕ) (xs : List ℕ) → length xs ≤ n → take n xs ≡ xs
take_all zero [] h = refl
take_all zero (x ∷ xs) h = absurd (omega arith)
take_all (suc n) [] h = refl
take_all (suc n) (x ∷ xs) h = ap (λ ys. x ∷ ys) (take_all n xs (omega arith))

-- A call without an exception.
record Sends (bytes : List ℕ) (s t : Socket) : Type 0 where
  whole : t.written ≡ s.written ++ bytes
  no_wait : NoWait t.answers

answered-Sends :
    (gs : List Answer) (bytes : List ℕ) (s : Socket)
    → NoWait gs
    → s.answers ≡ gs
    → (answered gs bytes s).0 ≡ true
    → Sends bytes s (answered gs bytes s).1
unfolding answered
answered-Sends [] bytes s n a e = record { whole = refl; no_wait = rw (a) tt }
answered-Sends (would_block ∷ gs) bytes s n a e = absurd n
answered-Sends (failed ∷ gs) bytes s n a e = absurd cc
answered-Sends (sent k ∷ gs) bytes s n a e = record {
  whole = ap (λ xs. s.written ++ xs) (take_all k bytes (ground (arith, e)));
  no_wait = n;
}

if_open :
    (o : Bool) (bytes : List ℕ) (s : Socket)
    → NoWait s.answers
    → (if not o then (false, s) else answered s.answers bytes s).0 ≡ true
    → Sends bytes s (if not o then (false, s) else answered s.answers bytes s).1
if_open true bytes s n e = answered-Sends s.answers bytes s n refl e
if_open false bytes s n e = absurd cc

send-Sends :
    (bytes : List ℕ) (s : Socket)
    → NoWait s.answers
    → (send bytes s).0 ≡ true
    → Sends bytes s (send bytes s).1
unfolding send
send-Sends bytes s n e = if_open s.open_ bytes s n e

-- If no call of `send` would have to wait and the packet and its frame are short enough for a word,
-- then `WriteTcp` answers other than 0 only after it has written the whole frame of the packet, and
-- its answer is the length of that.
pub write_tcp-Frame :
    (p : List ℕ) (s : Socket)
    → NoWait s.answers
    → length p + 18 < u32_mod
    → (write_tcp p s).0 ≢ 0
    → ((write_tcp p s).1.written ≡ s.written ++ frame p)
      × ((write_tcp p s).0 ≡ length (frame p))
      × NoWait (write_tcp p s).1.answers
unfolding write_tcp
write_tcp-Frame p s n h e =
    let a = send start_mark s in
    let b = send (to_bytes 4 (length p)) a.1 in
    let c = send p b.1 in
    elim (Bool-cases a.0) [
      | inr z ↦ absurd (e (rw (z, write_tcp) refl))
      | inl x ↦ elim (Bool-cases b.0) [
        | inr z ↦ absurd (e (rw (x, z, write_tcp) refl))
        | inl y ↦ elim (Bool-cases c.0) [
          | inr z ↦ absurd (e (rw (x, y, z, write_tcp) refl))
          | inl z ↦
              let i = send-Sends start_mark s n x in
              let j = send-Sends (to_bytes 4 (length p)) a.1 i.no_wait y in
              let k = send-Sends p b.1 j.no_wait z in
              rw (x, y, z, write_tcp)
                (
                  k.whole
                      ∙ ap (λ xs. xs ++ p)
                          (j.whole ∙ ap (λ xs. xs ++ to_bytes 4 (length p)) i.whole)
                      ∙ append_assoc (s.written ++ start_mark) (to_bytes 4 (length p)) p
                      ∙ append_assoc s.written start_mark (to_bytes 4 (length p) ++ p),
                  omega (arith, length-frame p, h),
                  k.no_wait,
                )
        ]
      ]
    ]
