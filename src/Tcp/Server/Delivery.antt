-- ===== src/Tcp/Server/Delivery.antt =====
-- A stream of frames at `O3DSServer::tick` (UOpen3DServer.cpp), however `Recv` cuts it.
use open3dstream.Base.{
  ℕ, zero, suc, ◌+◌, ◌*◌, ◌≤◌, ◌<◌, List, [], ◌∷◌, ◌++◌, some, true, false, length, length-append,
  take, ltb, not, ◌&&◌, ◌≡◌, refl, sym, ap, ◌∙◌, inl, inr, Bool-cases, some_eq, arith,
}
use mathlib.Core.Path.{subst}
use mathlib.Core.List.{append_assoc, append-nil}
use open3dstream.Base.Buffers.{slice}
use open3dstream.Base.Words.{to_bytes, word32_at, length-to_bytes}
use open3dstream.Tcp.Frame.{start_mark, frame, stream, AllShort, length-frame}
use open3dstream.Tcp.Server.{
  Phase, sync, header, payload, Event, payloads, Clock, Next, stop, again, onward, same_string,
  Server, chain, fill, on_sync, on_header, on_payload, turn, run, warn, tick,
}
use open3dstream.Tcp.Server.Reads.{Ready, Roomy, payloads-append}
use open3dstream.Tcp.Server.Fills.{Fills, fill-Fills}
use open3dstream.Tcp.Server.Ends.{word32_at-append, Roomy-nil}

pub append_split {ℓ} :
    {A : Type ℓ} (xs zs ys ws : List A)
    → length xs ≡ length zs
    → xs ++ ys ≡ zs ++ ws
    → (xs ≡ zs) × (ys ≡ ws)
append_split [] [] ys ws l e = (refl, e)
append_split [] (z ∷ zs) ys ws l e = absurd (omega arith)
append_split (x ∷ xs) [] ys ws l e = absurd (omega arith)
append_split (x ∷ xs) (z ∷ zs) ys ws l e =
    let (a, b) = append_split xs zs ys ws (omega arith) cc in (cc, b)

pub frame_announces : (p zs : List ℕ) → length p ≤ 51200 → word32_at (frame p ++ zs) 14 ≡ length p
unfolding word32_at to_bytes
frame_announces p zs h = omega arith

slice-frame : (p : List ℕ) → slice 18 (length p) (frame p) ≡ p
unfolding to_bytes
slice-frame p = take_all p
  where
    take_all : (xs : List ℕ) → take (length xs) xs ≡ xs
    take_all [] = refl
    take_all (x ∷ xs) = ap (λ ys. x ∷ ys) (take_all xs)

-- A heading that begins with the mark.
mark_matches : (xs : List ℕ) → same_string 14 (start_mark ++ xs) start_mark ≡ true
unfolding same_string
mark_matches xs = refl

payloads-received :
    (es : List Event) (p : List ℕ)
    → payloads (es ++ (Event.received p ∷ [])) ≡ payloads es ++ (p ∷ [])
payloads-received [] p = refl
payloads-received (Event.received q ∷ es) p = ap (λ ps. q ∷ ps) (payloads-received es p)
payloads-received (Event.receiving ∷ es) p = payloads-received es p
payloads-received (Event.malformed ∷ es) p = payloads-received es p
payloads-received (Event.tcp_error ∷ es) p = payloads-received es p
payloads-received (Event.silent ∷ es) p = payloads-received es p

-- Where a server may be in a stream: before the end of the heading, or in the first payload.
abbrev pub Place : Phase → List ℕ → List (List ℕ) → Type 0
Place sync got ps = ⊥
Place header got ps = length got < 18
Place payload got [] = ⊥
Place payload got (p ∷ ps) = (18 ≤ length got) × (length got < length p + 18)

module _ (C : Clock) where
  -- What it has and what is on its way are the frames of the packets.
  pub record IsMid (s : Server C) (ps : List (List ℕ)) : Type 0 where
    pub along : s.got ++ s.wire.pending ≡ stream ps
    pub roomy : Roomy s.size s.got
    pub place : Place s.phase s.got ps

  pub data Outcome (s t : Server C) (ps : List (List ℕ)) : Next → Type 0 where
    rests : IsMid t ps → payloads t.events ≡ payloads s.events → Outcome s t ps stop
    hands :
        (p : List ℕ) (qs : List (List ℕ))
        → ps ≡ p ∷ qs
        → IsMid t qs
        → payloads t.events ≡ payloads s.events ++ (p ∷ [])
        → Outcome s t ps again

  pub record Delivers (ps : List (List ℕ)) (x : Next) (s t : Server C) : Type 0 where
    pub outcome : Outcome s t ps x
    pub ready : Ready s.wire → Ready t.wire × (x ≡ stop → t.wire.pending ≡ [])

  module _ (now : C.Time) where
    on_payload-Delivers :
        (s : Server C) (p : List ℕ) (qs : List (List ℕ))
        → s.got ++ s.wire.pending ≡ stream (p ∷ qs)
        → Roomy s.size s.got
        → s.phase ≡ payload
        → 18 ≤ length s.got
        → length s.got ≤ length p + 18
        → length p ≤ 51200
        → Delivers (p ∷ qs) (on_payload C now payload s).0 s (on_payload C now payload s).1
    unfolding on_payload
    on_payload-Delivers s p qs e r f a b h =
        let n : word32_at s.got 14 ≡ length p =
          sym (word32_at-append s.got s.wire.pending a)
          ∙ ap (λ xs. word32_at xs 14) e
          ∙ frame_announces p (stream qs) h in
        let small : ltb 51200 (length p) ≡ false = ground arith in
        let t = (fill C now (length p + 18) (length p + 18) s).1 in
        let g = fill-Fills C now (length p + 18) (length p + 18) s r b (omega arith) in
        elim (Bool-cases (fill C now (length p + 18) (length p + 18) s).0) [
          | inr z ↦
              rw (n, small, z, on_payload)
                (record {
                  outcome =
                      rests
                        (record {
                          along = g.kept ∙ e;
                          roomy = g.roomy;
                          place =
                              subst (λ q. Place q t.got (p ∷ qs)) (sym (g.same_phase ∙ f))
                                (omega (arith, g.grows), g.short z);
                        })
                        g.same_payloads;
                  ready = λ w. ((g.ready w).0, λ q. (g.ready w).1 z);
                })
          | inl y ↦
              let (u, v) =
                append_split t.got (frame p) t.wire.pending (stream qs)
                  (g.all y ∙ sym (length-frame p)) (g.kept ∙ e) in
              let w : slice 18 (length p) t.got ≡ p =
                ap (λ xs. slice 18 (length p) xs) u ∙ slice-frame p in
              rw (n, small, y, on_payload)
                (record {
                  outcome =
                      hands p qs refl
                        (record { along = v; roomy = Roomy-nil _ _ g.roomy; place = omega arith })
                        (payloads-append
                            (t.events ++ (Event.received (slice 18 (length p) t.got) ∷ []))
                            (Event.receiving ∷ []) refl
                          ∙ payloads-received t.events (slice 18 (length p) t.got)
                          ∙ ap (λ xs. payloads t.events ++ (xs ∷ [])) w
                          ∙ ap (λ xs. xs ++ (p ∷ [])) g.same_payloads);
                  ready = λ w. ((g.ready w).0, λ q. absurd cc);
                })
        ]

    -- What has been read before counts too.
    pub before :
        (s t u : Server C) (ps : List (List ℕ)) (x : Next)
        → payloads t.events ≡ payloads s.events
        → Outcome t u ps x
        → Outcome s u ps x
    before s t u ps x e (rests m f) = rests m (f ∙ e)
    before s t u ps x e (hands p qs f m g) = hands p qs f m (g ∙ ap (λ xs. xs ++ (p ∷ [])) e)

    -- A whole heading.
    heading-Delivers :
        (s t : Server C) (ps : List (List ℕ))
        → t.got ++ t.wire.pending ≡ stream ps
        → AllShort ps
        → Fills C 18 true s t
        → (same_string 14 t.got start_mark ≡ true)
          × (let r = on_payload C now payload (record t { phase = payload }) in
              Delivers ps r.0 s r.1)
    heading-Delivers s t [] e h f =
        absurd
          (omega (arith, f.all refl, length-append t.got t.wire.pending, ap (λ xs. length xs) e))
    heading-Delivers s t (p ∷ qs) e (a, h) f =
        let mark = start_mark ++ to_bytes 4 (length p) in
        let (u, v) =
          append_split t.got mark t.wire.pending (p ++ stream qs)
            (f.all refl ∙ omega (arith, length-to_bytes 4 (length p)))
            (e
              ∙ ap (λ xs. start_mark ++ xs) (append_assoc (to_bytes 4 (length p)) p (stream qs))) in
        let d =
          on_payload-Delivers (record t { phase = payload }) p qs e f.roomy refl
            (omega (arith, f.all refl)) (omega (arith, f.all refl)) a in
        (
          ap (λ xs. same_string 14 xs start_mark) u ∙ mark_matches (to_bytes 4 (length p)),
          record {
            outcome =
                before s (record t { phase = payload }) _ (p ∷ qs) _ f.same_payloads d.outcome;
            ready = λ w. d.ready (f.ready w).0;
          },
        )

    pub header-Delivers :
        (s : Server C) (ps : List (List ℕ))
        → s.got ++ s.wire.pending ≡ stream ps
        → AllShort ps
        → Roomy s.size s.got
        → s.phase ≡ header
        → length s.got < 18
        → let r = chain C now (on_header C now header s) (λ t. on_payload C now t.phase t) in
          Delivers ps r.0 s r.1
    unfolding on_header
    header-Delivers s ps e h r f l =
        let t = (fill C now 18 18 s).1 in
        let g = fill-Fills C now 18 18 s r (omega arith) (omega arith) in
        elim (Bool-cases (fill C now 18 18 s).0) [
          | inr z ↦
              rw (z, on_header)
                (record {
                  outcome =
                      rests
                        (record {
                          along = g.kept ∙ e;
                          roomy = g.roomy;
                          place =
                              subst (λ q. Place q t.got ps) (sym (g.same_phase ∙ f)) (g.short z);
                        })
                        g.same_payloads;
                  ready = λ w. ((g.ready w).0, λ q. (g.ready w).1 z);
                })
          | inl y ↦
              let (z, d) =
                heading-Delivers s t ps (g.kept ∙ e) h (subst (λ b. Fills C 18 b s t) y g) in
              rw (y, z, on_header) d
        ]

    -- One turn in a stream.
    phase-Delivers :
        (q : Phase) (s : Server C) (ps : List (List ℕ))
        → IsMid s ps
        → AllShort ps
        → s.phase ≡ q
        → let r =
            chain C now
              (chain C now (on_sync C now q s) (λ t. on_header C now t.phase t))
              (λ t. on_payload C now t.phase t) in
          Delivers ps r.0 s r.1
    unfolding on_sync on_header
    phase-Delivers sync s ps m h e = absurd (subst (λ q. Place q s.got ps) e m.place)
    phase-Delivers header s ps m h e =
        subst
          (λ q.
            let r = chain C now (on_header C now q s) (λ v. on_payload C now v.phase v) in
            Delivers ps r.0 s r.1)
          (sym e)
          (header-Delivers s ps m.along h m.roomy e (subst (λ q. Place q s.got ps) e m.place))
    phase-Delivers payload s [] m h e = absurd (subst (λ q. Place q s.got []) e m.place)
    phase-Delivers payload s (p ∷ ps) m h e =
        let (a, b) : Place payload s.got (p ∷ ps) = subst (λ q. Place q s.got (p ∷ ps)) e m.place in
        subst
          (λ q.
            let r = chain C now (on_header C now q s) (λ v. on_payload C now v.phase v) in
            Delivers (p ∷ ps) r.0 s r.1)
          (sym e)
          (subst (λ q. Delivers (p ∷ ps) (on_payload C now q s).0 s (on_payload C now q s).1)
            (sym e) (on_payload-Delivers s p ps m.along m.roomy e a (omega arith) h.0))

    -- What the loop has handed over, and what is still to come.
    pub record Follows (s t : Server C) (ps : List (List ℕ)) : Type 0 where
      pub gone : List (List ℕ)
      pub left : List (List ℕ)
      pub split : ps ≡ gone ++ left
      pub handed : payloads t.events ≡ payloads s.events ++ gone
      pub middle : IsMid t left
      pub drained : Ready s.wire → Ready t.wire × (t.wire.pending ≡ [])

    turn-Delivers :
        (s : Server C) (ps : List (List ℕ))
        → IsMid s ps
        → AllShort ps
        → Delivers ps (turn C now s).0 s (turn C now s).1
    unfolding turn
    turn-Delivers s ps m h = phase-Delivers s.phase s ps m h refl

    stopped :
        (s t : Server C) (ps : List (List ℕ))
        → Outcome s t ps stop
        → IsMid t ps × (payloads t.events ≡ payloads s.events)
    stopped s t ps (rests m f) = (m, f)

    going :
        (s t : Server C) (ps : List (List ℕ))
        → Outcome s t ps again
        → (p : List ℕ) × (qs : List (List ℕ)) × (ps ≡ p ∷ qs)
          × IsMid t qs
          × (payloads t.events ≡ payloads s.events ++ (p ∷ []))
    going s t ps (hands p qs e m f) = (p, qs, e, m, f)

    never : (s t : Server C) (ps : List (List ℕ)) → Outcome s t ps onward → ⊥
    never s t ps o = elim o [ ]

    -- The first turn, and what the turns after it do.
    pub turn_then :
        (n : ℕ) (s t : Server C) (ps : List (List ℕ)) (x : Next)
        → ((u : Server C) (qs : List (List ℕ))
            → IsMid u qs
            → AllShort qs
            → run C now n u ≡ some t
            → Follows u t qs)
        → AllShort ps
        → (turn C now s).0 ≡ x
        → Delivers ps x s (turn C now s).1
        → run C now (suc n) s ≡ some t
        → Follows s t ps
    unfolding run
    turn_then n s t ps stop rest h p d e =
        let (k, f) = stopped s (turn C now s).1 ps d.outcome in
        subst (λ v. Follows s v ps) (some_eq (rw (p, run) at e))
          (record {
            gone = [];
            left = ps;
            split = refl;
            handed = f ∙ sym (append-nil (payloads s.events));
            middle = k;
            drained = λ w. ((d.ready w).0, (d.ready w).1 refl);
          })
    turn_then n s t ps again rest h p d e =
        let (a, qs, f, k, g) = going s (turn C now s).1 ps d.outcome in
        let r = rest (turn C now s).1 qs k (subst AllShort f h).1 (rw (p, run) at e) in
        record {
          gone = a ∷ r.gone;
          left = r.left;
          split = f ∙ ap (λ xs. a ∷ xs) r.split;
          handed =
              r.handed
              ∙ ap (λ xs. xs ++ r.gone) g
              ∙ append_assoc (payloads s.events) (a ∷ []) r.gone;
          middle = r.middle;
          drained = λ w. r.drained (d.ready w).0;
        }
    turn_then n s t ps onward rest h p d e = absurd (never s (turn C now s).1 ps d.outcome)

    pub run-Follows :
        (n : ℕ) (s t : Server C) (ps : List (List ℕ))
        → IsMid s ps
        → AllShort ps
        → run C now n s ≡ some t
        → Follows s t ps
    unfolding run
    run-Follows zero s t ps m h e = absurd cc
    run-Follows (suc n) s t ps m h e =
        turn_then n s t ps (turn C now s).0 (λ u qs. run-Follows n u t qs) h refl
          (turn-Delivers s ps m h) e

    warn-IsMid :
        (s : Server C) (ps : List (List ℕ))
        → IsMid s ps
        → IsMid (warn C now s) ps
          × (payloads (warn C now s).events ≡ payloads s.events)
          × ((warn C now s).wire ≡ s.wire)
    unfolding warn
    warn-IsMid s ps h = elim (Bool-cases (not s.no_data && C.late now s.good_time)) [
      | inl y ↦
          rw (y, warn)
            (
              record { along = h.along; roomy = h.roomy; place = h.place },
              payloads-append s.events (Event.silent ∷ []) refl,
              refl,
            )
      | inr z ↦ rw (z, warn) (h, refl, refl)
    ]

    -- A server in the middle of a stream of short packets, at a frame's heading or payload: a tick
    -- that ends hands over the next packets of the stream, each whole, in their order and once, and
    -- leaves a server in the middle of what is left of the stream, however `Recv` cut it. If `Recv`
    -- never fails and is called as often as there are bytes on their way, none is left on its way.
    pub tick-Follows :
        (s t : Server C) (ps : List (List ℕ))
        → IsMid s ps
        → AllShort ps
        → tick C now s ≡ some t
        → Follows s t ps
    unfolding tick
    tick-Follows s t ps m h e =
        let (k, f, g) = warn-IsMid s ps m in
        let r = run-Follows (2 * length s.wire.grants + 3) (warn C now s) t ps k h e in
        record {
          gone = r.gone;
          left = r.left;
          split = r.split;
          handed = r.handed ∙ ap (λ xs. xs ++ r.gone) f;
          middle = r.middle;
          drained = λ w. r.drained (subst Ready (sym g) w);
        }
