-- ===== src/Tcp/Server/Connected.antt =====
-- A server that has just been connected (UOpen3DServer.cpp) finds the first mark.
use open3dstream.Base.{
  ℕ, zero, suc, ◌+◌, ◌*◌, List, [], ◌∷◌, ◌++◌, some, true, length, length-append, get_or, drop,
  ◌==◌, ◌≡◌, refl, sym, ap, ◌∙◌, inl, inr, Bool-cases, arith, not, ◌&&◌,
}
use mathlib.Core.Path.{subst}
use mathlib.Core.List.{append_assoc, append-nil}
use open3dstream.Base.Words.{to_bytes}
use open3dstream.Tcp.Frame.{start_mark, stream, AllShort}
use open3dstream.Tcp.Server.{
  Event, Wire, sync, header, payloads, Clock, Next, stop, again, onward, Server, chain, read_tcp,
  match_mark, on_sync, on_header, on_payload, turn, run, warn, tick,
}
use open3dstream.Tcp.Server.Reads.{Ready, Roomy, read_tcp-Reads, payloads-append}
use open3dstream.Tcp.Server.Ends.{Waits, tick-IsSound, Roomy-nil}
use open3dstream.Tcp.Server.Delivery.{
  append_split, Delivers, before, header-Delivers, turn_then, run-Follows,
}
use open3dstream.Tcp.Server.Arrival.{all_arrive}

module _ (C : Clock) where
  -- A read that has found the byte that comes next.
  record Byte (b : ℕ) (rest : List ℕ) (s t : Server C) : Type 0 where
    same_phase : t.phase ≡ s.phase
    same_payloads : payloads t.events ≡ payloads s.events
    roomy : Roomy t.size t.got
    one_more : t.got ≡ s.got ++ (b ∷ [])
    left : t.wire.pending ≡ rest
    ready : Ready t.wire

  get_or-last : (xs : List ℕ) (b : ℕ) → get_or (xs ++ (b ∷ [])) (length xs) 0 ≡ b
  get_or-last [] b = refl
  get_or-last (x ∷ xs) b = get_or-last xs b

  module _ (now : C.Time) where
    read_tcp-Byte :
        (s : Server C) (b : ℕ) (rest : List ℕ)
        → Roomy s.size s.got
        → Ready s.wire
        → s.wire.pending ≡ b ∷ rest
        → ((read_tcp C now (suc (length s.got)) s).0 ≡ true)
          × Byte b rest s (read_tcp C now (suc (length s.got)) s).1
    read_tcp-Byte s b rest r w e =
        let p = read_tcp-Reads C now (suc (length s.got)) s r (omega arith) in
        let t = (read_tcp C now (suc (length s.got)) s).1 in
        elim (Bool-cases (read_tcp C now (suc (length s.got)) s).0) [
          | inr z ↦
              let n = (p.ready w).1 z in
              absurd (
                omega (
                  arith,
                  p.short z,
                  ap (λ xs. length xs) p.kept,
                  ap (λ xs. length xs) e,
                  ap (λ xs. length xs) n,
                  length-append t.got t.wire.pending,
                  length-append s.got s.wire.pending,
                ))
          | inl y ↦
              let (u, v) =
                append_split t.got (s.got ++ (b ∷ [])) t.wire.pending rest
                  (omega (arith, p.more y, p.below, length-append s.got (b ∷ [])))
                  (p.kept ∙ ap (λ xs. s.got ++ xs) e ∙ sym (append_assoc s.got (b ∷ []) rest)) in
              (
                y,
                record {
                  same_phase = p.same_phase;
                  same_payloads = p.same_payloads;
                  roomy = p.roomy;
                  one_more = u;
                  left = v;
                  ready = (p.ready w).0;
                },
              )
        ]

    -- The rest of the mark is found.
    record Found (hs rest : List ℕ) (s : Server C) (x : Next) (t : Server C) : Type 0 where
      goes_on : x ≡ onward
      in_header : t.phase ≡ header
      same_payloads : payloads t.events ≡ payloads s.events
      roomy : Roomy t.size t.got
      whole : t.got ≡ s.got ++ hs
      left : t.wire.pending ≡ rest
      ready : Ready t.wire

    match_mark-Found :
        (hs rest : List ℕ) (s : Server C)
        → Roomy s.size s.got
        → Ready s.wire
        → s.wire.pending ≡ hs ++ rest
        → Found hs rest s
            (match_mark C now hs (length s.got) s).0
            (match_mark C now hs (length s.got) s).1
    unfolding match_mark
    match_mark-Found [] rest s r w e = record {
      goes_on = refl;
      in_header = refl;
      same_payloads = refl;
      roomy = r;
      whole = sym (append-nil s.got);
      left = e;
      ready = w;
    }
    match_mark-Found (h ∷ hs) rest s r w e =
        let (y, b) = read_tcp-Byte s h (hs ++ rest) r w e in
        let t = (read_tcp C now (suc (length s.got)) s).1 in
        let found : get_or t.got (length s.got) 0 ≡ h =
          ap (λ xs. get_or xs (length s.got) 0) b.one_more ∙ get_or-last s.got h in
        let same : (get_or t.got (length s.got) 0 == h) ≡ true = rw (found) (ground arith) in
        let size : length t.got ≡ suc (length s.got) =
          ap (λ xs. length xs) b.one_more ∙ omega (arith, length-append s.got (h ∷ [])) in
        let m = match_mark-Found hs rest t b.roomy b.ready b.left in
        let n =
          subst (λ i. Found hs rest t (match_mark C now hs i t).0 (match_mark C now hs i t).1) size
            m in
        rw (y, same, match_mark)
          (record {
            goes_on = n.goes_on;
            in_header = n.in_header;
            same_payloads = n.same_payloads ∙ b.same_payloads;
            roomy = n.roomy;
            whole = n.whole ∙ ap (λ xs. xs ++ hs) b.one_more ∙ append_assoc s.got (h ∷ []) hs;
            left = n.left;
            ready = n.ready;
          })

    -- After the mark.
    marked :
        (p : List ℕ) (qs : List (List ℕ)) (s t : Server C) (x : Next) (u : Server C)
        → AllShort (p ∷ qs)
        → payloads t.events ≡ payloads s.events
        → t.got ≡ 0 ∷ []
        → Found (drop 1 start_mark) (to_bytes 4 (length p) ++ p ++ stream qs) t x u
        → let r =
            chain C now
              (chain C now (x, u) (λ v. on_header C now v.phase v))
              (λ v. on_payload C now v.phase v) in
          Delivers C (p ∷ qs) r.0 s r.1
    marked p qs s t stop u h e g f = absurd cc
    marked p qs s t again u h e g f = absurd cc
    marked p qs s t onward u h e g f =
        let whole : u.got ≡ start_mark = f.whole ∙ ap (λ xs. xs ++ drop 1 start_mark) g in
        let d =
          header-Delivers C now u (p ∷ qs)
            (ap (λ xs. xs ++ u.wire.pending) whole ∙ ap (λ xs. start_mark ++ xs) f.left) h f.roomy
            f.in_header (omega (arith, ap (λ xs. length xs) whole)) in
        let c : Delivers C (p ∷ qs)
            (chain C now (on_header C now header u) (λ v. on_payload C now v.phase v)).0 s
            (chain C now (on_header C now header u) (λ v. on_payload C now v.phase v)).1 =
          record {
            outcome = before C now s u _ (p ∷ qs) _ (f.same_payloads ∙ e) d.outcome;
            ready = λ w. d.ready f.ready;
          } in
        subst
          (λ q.
            let r = chain C now (on_header C now q u) (λ v. on_payload C now v.phase v) in
            Delivers C (p ∷ qs) r.0 s r.1)
          (sym f.in_header) c

    sync-Delivers :
        (s : Server C) (p : List ℕ) (qs : List (List ℕ))
        → Roomy s.size s.got
        → Ready s.wire
        → AllShort (p ∷ qs)
        → s.wire.pending ≡ stream (p ∷ qs)
        → let r =
            chain C now
              (chain C now (on_sync C now sync s) (λ v. on_header C now v.phase v))
              (λ v. on_payload C now v.phase v) in
          Delivers C (p ∷ qs) r.0 s r.1
    unfolding on_sync
    sync-Delivers s p qs r w h e =
        let s0 = record s { got = [] } in
        let t = (read_tcp C now 1 s0).1 in
        let (y, b) =
          read_tcp-Byte s0 0 (drop 1 start_mark ++ (to_bytes 4 (length p) ++ p ++ stream qs))
            (Roomy-nil s.size s.got r) w e in
        let z : (get_or t.got 0 0 == 0) ≡ true = rw (ap (λ xs. get_or xs 0 0) b.one_more) refl in
        let f =
          match_mark-Found (drop 1 start_mark) (to_bytes 4 (length p) ++ p ++ stream qs) t b.roomy
            b.ready b.left in
        rw (y, z, on_sync)
          (marked p qs s t (match_mark C now (drop 1 start_mark) 1 t).0
            (match_mark C now (drop 1 start_mark) 1 t).1 h b.same_payloads b.one_more
            (subst
              (λ i.
                Found (drop 1 start_mark) (to_bytes 4 (length p) ++ p ++ stream qs) t
                  (match_mark C now (drop 1 start_mark) i t).0
                  (match_mark C now (drop 1 start_mark) i t).1)
              (ap (λ xs. length xs) b.one_more) f))

    turn-Delivers :
        (s : Server C) (p : List ℕ) (qs : List (List ℕ))
        → s.phase ≡ sync
        → Roomy s.size s.got
        → Ready s.wire
        → AllShort (p ∷ qs)
        → s.wire.pending ≡ stream (p ∷ qs)
        → Delivers C (p ∷ qs) (turn C now s).0 s (turn C now s).1
    unfolding turn
    turn-Delivers s p qs f r w h e =
        subst
          (λ q.
            let r =
              chain C now (chain C now (on_sync C now q s) (λ v. on_header C now v.phase v))
                (λ v. on_payload C now v.phase v) in
            Delivers C (p ∷ qs) r.0 s r.1)
          (sym f) (sync-Delivers s p qs r w h e)

    run_all :
        (n : ℕ) (s t : Server C) (p : List ℕ) (qs : List (List ℕ))
        → s.phase ≡ sync
        → Roomy s.size s.got
        → Ready s.wire
        → AllShort (p ∷ qs)
        → s.wire.pending ≡ stream (p ∷ qs)
        → run C now n s ≡ some t
        → payloads t.events ≡ payloads s.events ++ (p ∷ qs)
    unfolding run
    run_all zero s t p qs f r w h e g = absurd cc
    run_all (suc n) s t p qs f r w h e g = all_arrive C now s t (p ∷ qs) w (
        turn_then C now n s t (p ∷ qs) (turn C now s).0 (λ u rs. run-Follows C now n u t rs) h refl
          (turn-Delivers s p qs f r w h e) g)

    warn_same :
        (s : Server C)
        → ((warn C now s).phase ≡ s.phase)
          × ((warn C now s).wire ≡ s.wire)
          × (payloads (warn C now s).events ≡ payloads s.events)
          × ((warn C now s).size ≡ s.size)
          × ((warn C now s).got ≡ s.got)
    unfolding warn
    warn_same s = elim (Bool-cases (not s.no_data && C.late now s.good_time)) [
      | inl y ↦
          rw (y, warn) (refl, refl, payloads-append s.events (Event.silent ∷ []) refl, refl, refl)
      | inr z ↦ rw (z, warn) (refl, refl, refl, refl, refl)
    ]

    -- A server that looks for the mark, at the start of a stream of at least one packet, all of them
    -- short: if `Recv` never fails and is called as often as there are bytes on their way, one tick
    -- ends and has handed over every packet, whole, in their order and once.
    pub connected-Arrives :
        (s : Server C) (p : List ℕ) (qs : List (List ℕ))
        → s.phase ≡ sync
        → Roomy s.size s.got
        → Ready s.wire
        → AllShort (p ∷ qs)
        → s.wire.pending ≡ stream (p ∷ qs)
        → (t : Server C) × (tick C now s ≡ some t)
          × (payloads t.events ≡ payloads s.events ++ (p ∷ qs))
    unfolding tick
    connected-Arrives s p qs f r w h e =
        let (t, g, k) =
          tick-IsSound C now s
            (record { roomy = r; waits = subst (λ q. Waits q s.got) (sym f) tt }) in
        let (a, b, c, d, m) = warn_same s in
        (
          t,
          g,
          run_all (2 * length s.wire.grants + 3) (warn C now s) t p qs (a ∙ f)
                (subst (λ o. Roomy o (warn C now s).got) (sym d)
                  (subst (λ xs. Roomy s.size xs) (sym m) r))
                (subst Ready (sym b) w) h (ap (λ (v : Wire). v.pending) b ∙ e) g
              ∙ ap (λ xs. xs ++ (p ∷ qs)) c,
        )
