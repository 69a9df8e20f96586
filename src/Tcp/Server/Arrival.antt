-- ===== src/Tcp/Server/Arrival.antt =====
-- Every packet of a stream arrives at `O3DSServer::tick` (UOpen3DServer.cpp).
use open3dstream.Base.{
  ℕ, List, [], ◌∷◌, ◌++◌, some, length, length-append, ◌≡◌, refl, sym, ap, ◌∙◌, arith,
}
use mathlib.Core.List.{append-nil}
use open3dstream.Base.Words.{word32_at}
use open3dstream.Tcp.Frame.{frame, stream, AllShort, length-frame}
use open3dstream.Tcp.Server.{Phase, sync, header, payload, payloads, Clock, Server, tick}
use open3dstream.Tcp.Server.Reads.{Ready}
use open3dstream.Tcp.Server.Ends.{IsSound, Waits, word32_at-append, tick-IsSound}
use open3dstream.Tcp.Server.Delivery.{frame_announces, Place, IsMid, Follows, tick-Follows}

module _ (C : Clock) where
  Place-Waits :
      (q : Phase) (s : Server C) (ps : List (List ℕ))
      → s.got ++ s.wire.pending ≡ stream ps
      → AllShort ps
      → Place q s.got ps
      → Waits q s.got
  Place-Waits sync s ps e h p = tt
  Place-Waits header s ps e h p = p
  Place-Waits payload s [] e h p = absurd p
  Place-Waits payload s (p ∷ ps) e h (a, b) =
      let n : word32_at s.got 14 ≡ length p =
        sym (word32_at-append s.got s.wire.pending a)
        ∙ ap (λ xs. word32_at xs 14) e
        ∙ frame_announces p (stream ps) h.0 in
      (a, omega (arith, n))

  middle-IsSound : (s : Server C) (ps : List (List ℕ)) → IsMid C s ps → AllShort ps → IsSound C s
  middle-IsSound s ps m h = record {
    roomy = m.roomy;
    waits = Place-Waits s.phase s ps m.along h m.place;
  }

  -- With nothing on its way no packet is still to come.
  nothing_left :
      (q : Phase) (s : Server C) (ps : List (List ℕ))
      → s.got ≡ stream ps
      → Place q s.got ps
      → ps ≡ []
  nothing_left q s [] e p = refl
  nothing_left sync s (p ∷ ps) e h = absurd h
  nothing_left header s (p ∷ ps) e h =
      absurd
        (omega (arith, ap (λ xs. length xs) e, length-append (frame p) (stream ps), length-frame p))
  nothing_left payload s (p ∷ ps) e (a, b) =
      absurd
        (omega (arith, ap (λ xs. length xs) e, length-append (frame p) (stream ps), length-frame p))

  module _ (now : C.Time) where
    pub all_arrive :
        (s t : Server C) (ps : List (List ℕ))
        → Ready s.wire
        → Follows C now s t ps
        → payloads t.events ≡ payloads s.events ++ ps
    all_arrive s t ps w f =
        let e : t.got ≡ stream f.left =
          sym (append-nil t.got) ∙ ap (λ xs. t.got ++ xs) (sym (f.drained w).1) ∙ f.middle.along in
        let n = nothing_left t.phase t f.left e f.middle.place in
        f.handed
        ∙ ap (λ xs. payloads s.events ++ xs)
            (sym (f.split ∙ ap (λ xs. f.gone ++ xs) n ∙ append-nil f.gone))

    -- In the middle of a stream of short packets, if `Recv` never fails and is called as often as
    -- there are bytes on their way, one tick ends and has handed over every packet.
    pub tick-Arrives :
        (s : Server C) (ps : List (List ℕ))
        → IsMid C s ps
        → AllShort ps
        → Ready s.wire
        → (t : Server C) × (tick C now s ≡ some t) × (payloads t.events ≡ payloads s.events ++ ps)
    tick-Arrives s ps m h w =
        let (t, e, k) = tick-IsSound C now s (middle-IsSound s ps m h) in
        (t, e, all_arrive s t ps w (tick-Follows C now s t ps m h e))
