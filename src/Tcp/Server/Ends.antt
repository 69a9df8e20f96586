-- ===== src/Tcp/Server/Ends.antt =====
-- `O3DSServer::tick` (UOpen3DServer.cpp) ends, and leaves a server whose buffer is in order.
use open3dstream.Base.{
  ℕ, zero, suc, ◌+◌, ◌*◌, ◌≤◌, ◌<◌, List, [], ◌∷◌, ◌++◌, Option, some, none, length, get_or, drop,
  not, ◌&&◌, ltb, ◌==◌, ◌≡◌, refl, sym, ap, ◌∙◌, inl, inr, ◌⊎◌, Bool-cases, arith,
}
use mathlib.Core.Path.{subst}
use open3dstream.Tcp.Frame.{start_mark}
use open3dstream.Base.Words.{word32_at}
use open3dstream.Tcp.Server.{
  chain, Phase, sync, header, payload, Clock, Next, stop, again, onward, same_string, Server,
  read_tcp, fill, match_mark, on_sync, on_header, on_payload, turn, run, warn, tick,
}
use open3dstream.Tcp.Server.Reads.{Roomy, read_tcp-Reads}
use open3dstream.Tcp.Server.Fills.{fill-Fills}

pub get_or-append :
    (xs ys : List ℕ) (i d : ℕ) → i < length xs → get_or (xs ++ ys) i d ≡ get_or xs i d
get_or-append [] ys i d h = absurd (omega arith)
get_or-append (x ∷ xs) ys zero d h = refl
get_or-append (x ∷ xs) ys (suc i) d h = get_or-append xs ys i d (omega arith)

-- The length that the buffer holds does not depend on what follows it.
pub word32_at-append : (xs ys : List ℕ) → 18 ≤ length xs → word32_at (xs ++ ys) 14 ≡ word32_at xs 14
unfolding word32_at
word32_at-append xs ys h =
    rw
      (
        get_or-append xs ys 14 0 (omega arith),
        get_or-append xs ys 15 0 (omega arith),
        get_or-append xs ys 16 0 (omega arith),
        get_or-append xs ys 17 0 (omega arith),
      )
      refl

-- Where a server may be between two turns: what it still has to read is not there yet.
abbrev pub Waits : Phase → List ℕ → Type 0
Waits sync got = Unit {0}
Waits header got = length got < 18
Waits payload got = (18 ≤ length got) × (length got < word32_at got 14 + 18)

-- How far the loop can still go without a byte.
abbrev slack : Phase → ℕ
slack sync = 0
slack header = 1
slack payload = 1

pub Next-cases : (x : Next) → (x ≡ stop) ⊎ ((x ≡ again) ⊎ (x ≡ onward))
Next-cases stop = inl refl
Next-cases again = inr (inl refl)
Next-cases onward = inr (inr refl)

pub Roomy-nil : (o : Option ℕ) (got : List ℕ) → Roomy o got → Roomy o []
Roomy-nil none got h = refl
Roomy-nil (some n) got h = omega arith

module _ (C : Clock) where
  pub record IsSound (s : Server C) : Type 0 where
    pub roomy : Roomy s.size s.got
    pub waits : Waits s.phase s.got

  abbrev weight : Server C → ℕ
  weight s = 2 * length s.wire.grants + slack s.phase

  -- One turn of the loop.
  record Turns (x : Next) (s t : Server C) : Type 0 where
    sound : IsSound t
    less : x ≡ again → weight t < weight s
    done : x ≡ onward → ⊥

  module _ (now : C.Time) where
    fill_kept_length :
        (s t : Server C)
        → 18 ≤ length s.got
        → length s.got ≤ length t.got
        → t.got ++ t.wire.pending ≡ s.got ++ s.wire.pending
        → word32_at t.got 14 ≡ word32_at s.got 14
    fill_kept_length s t h g e =
        sym (word32_at-append t.got t.wire.pending (omega arith))
        ∙ ap (λ xs. word32_at xs 14) e
        ∙ word32_at-append s.got s.wire.pending h

    -- The payload, in a turn that began with the weight `w`.
    on_payload-Turns :
        (s u : Server C)
        → Roomy s.size s.got
        → s.phase ≡ payload
        → 18 ≤ length s.got
        → length s.got ≤ word32_at s.got 14 + 18
        → 2 * length s.wire.grants < weight u
        → (length s.got < word32_at s.got 14 + 18) ⊎ (2 * length s.wire.grants + 1 < weight u)
        → Turns (on_payload C now payload s).0 u (on_payload C now payload s).1
    unfolding on_payload
    on_payload-Turns s u r p a b w v =
        let n = word32_at s.got 14 in
        let t = (fill C now (n + 18) (n + 18) s).1 in
        let f = fill-Fills C now (n + 18) (n + 18) s r b (omega arith) in
        elim (Bool-cases (ltb 51200 n)) [
          | inl y ↦
              rw (y, on_payload)
                (record {
                  sound = record { roomy = r; waits = tt };
                  less = λ e. omega arith;
                  done = λ e. absurd cc;
                })
          | inr z ↦ elim (Bool-cases (fill C now (n + 18) (n + 18) s).0) [
            | inl y ↦
                rw (z, y, on_payload)
                  (record {
                    sound = record { roomy = Roomy-nil _ _ f.roomy; waits = omega arith };
                    less = λ e. shrinks (f.used y) f.fewer v;
                    done = λ e. absurd cc;
                  })
            | inr x ↦
                rw (z, x, on_payload)
                  (record {
                    sound = record {
                      roomy = f.roomy;
                      waits =
                          subst (λ q. Waits q t.got) (sym (f.same_phase ∙ p))
                            (
                              omega (arith, f.grows),
                              omega (arith, f.short x, fill_kept_length s t a f.grows f.kept),
                            );
                    };
                    less = λ e. absurd cc;
                    done = λ e. absurd cc;
                  })
          ]
        ]
      where
        shrinks :
            {g : ℕ}
            → (length s.got < word32_at s.got 14 + 18 → g < length s.wire.grants)
            → g ≤ length s.wire.grants
            → (length s.got < word32_at s.got 14 + 18) ⊎ (2 * length s.wire.grants + 1 < weight u)
            → 2 * g + 1 < weight u
        shrinks h k (inl l) = omega (arith, h l, w)
        shrinks h k (inr l) = omega arith

    -- A payload that the server waits for.
    payload-Turns :
        (s : Server C)
        → IsSound s
        → s.phase ≡ payload
        → Turns (on_payload C now payload s).0 s (on_payload C now payload s).1
    payload-Turns s h p =
        let (a, b) : Waits payload s.got = rw (p) at h.waits in
        on_payload-Turns s s h.roomy p a (omega arith) (rw (p) (omega arith)) (inl b)

    -- The heading and then the payload.
    header-Turns :
        (s u : Server C)
        → Roomy s.size s.got
        → s.phase ≡ header
        → length s.got < 18
        → 2 * length s.wire.grants < weight u
        → let r = chain C now (on_header C now header s) (λ t. on_payload C now t.phase t) in
          Turns r.0 u r.1
    unfolding on_header
    header-Turns s u r p l w =
        let t = (fill C now 18 18 s).1 in
        let f = fill-Fills C now 18 18 s r (omega arith) (omega arith) in
        elim (Bool-cases (fill C now 18 18 s).0) [
          | inr z ↦
              rw (z, on_header)
                (record {
                  sound = record {
                    roomy = f.roomy;
                    waits = subst (λ q. Waits q t.got) (sym (f.same_phase ∙ p)) (f.short z);
                  };
                  less = λ e. absurd cc;
                  done = λ e. absurd cc;
                })
          | inl y ↦ elim (Bool-cases (same_string 14 t.got start_mark)) [
            | inr z ↦
                rw (y, z, on_header)
                  (record {
                    sound = record { roomy = f.roomy; waits = tt };
                    less = λ e. omega (arith, f.fewer);
                    done = λ e. absurd cc;
                  })
            | inl z ↦
                let v = f.used y l in
                rw (y, z, on_header)
                  (on_payload-Turns (record t { phase = payload }) u f.roomy refl
                    (omega (arith, f.all y)) (omega (arith, f.all y)) (omega arith)
                    (inr (omega arith)))
          ]
        ]

    -- The rest of the mark.
    record Marks (n : ℕ) (x : Next) (s t : Server C) : Type 0 where
      roomy : Roomy t.size t.got
      fewer : length t.wire.grants ≤ length s.wire.grants
      found : x ≡ onward → (t.phase ≡ header) × (length t.got ≡ n)
      lost : x ≡ stop → t.phase ≡ s.phase
      ends : x ≡ again → ⊥

    match_mark-Marks :
        (hs : List ℕ) (i : ℕ) (s : Server C)
        → Roomy s.size s.got
        → length s.got ≡ i
        → Marks (i + length hs) (match_mark C now hs i s).0 s (match_mark C now hs i s).1
    unfolding match_mark
    match_mark-Marks [] i s r e = record {
      roomy = r;
      fewer = omega arith;
      found = λ p. (refl, omega arith);
      lost = λ p. absurd cc;
      ends = λ p. absurd cc;
    }
    match_mark-Marks (h ∷ hs) i s r e =
        let p = read_tcp-Reads C now (suc i) s r (omega arith) in
        let t = (read_tcp C now (suc i) s).1 in
        let halt : Marks (i + suc (length hs)) stop s t = record {
          roomy = p.roomy;
          fewer = p.fewer;
          found = λ q. absurd cc;
          lost = λ q. p.same_phase;
          ends = λ q. absurd cc;
        } in
        elim (Bool-cases (read_tcp C now (suc i) s).0) [
          | inr z ↦ rw (z, match_mark) halt
          | inl y ↦ elim (Bool-cases (get_or t.got i 0 == h)) [
            | inr z ↦ rw (y, z, match_mark) halt
            | inl z ↦
                let m = match_mark-Marks hs (suc i) t p.roomy (omega (arith, p.more y, p.below)) in
                rw (y, z, match_mark)
                  (record {
                    roomy = m.roomy;
                    fewer = omega (arith, m.fewer, p.fewer);
                    found = λ q. ((m.found q).0, omega (arith, (m.found q).1));
                    lost = λ q. m.lost q ∙ p.same_phase;
                    ends = m.ends;
                  })
          ]
        ]

    -- After the search for the mark.
    marked-Turns :
        (x : Next) (s t u : Server C)
        → Marks 14 x t u
        → t.phase ≡ sync
        → length t.wire.grants < length s.wire.grants
        → let r =
            chain C now
              (chain C now (x, u) (λ v. on_header C now v.phase v))
              (λ v. on_payload C now v.phase v) in
          Turns r.0 s r.1
    unfolding on_header
    marked-Turns stop s t u m p l = record {
      sound = record {
        roomy = m.roomy;
        waits = subst (λ q. Waits q u.got) (sym (m.lost refl ∙ p)) tt;
      };
      less = λ e. absurd cc;
      done = λ e. absurd cc;
    }
    marked-Turns again s t u m p l = absurd (m.ends refl)
    marked-Turns onward s t u m p l =
        let (f, e) = m.found refl in
        subst
          (λ q.
            let r = chain C now (on_header C now q u) (λ v. on_payload C now v.phase v) in
            Turns r.0 s r.1)
          (sym f) (header-Turns u s m.roomy f (omega arith) (omega (arith, m.fewer)))

    sync-Turns :
        (s : Server C)
        → IsSound s
        → s.phase ≡ sync
        → let r =
            chain C now
              (chain C now (on_sync C now sync s) (λ t. on_header C now t.phase t))
              (λ t. on_payload C now t.phase t) in
          Turns r.0 s r.1
    unfolding on_sync on_header
    sync-Turns s h p =
        let s0 = record s { got = [] } in
        let a = read_tcp-Reads C now 1 s0 (Roomy-nil s.size s.got h.roomy) (omega arith) in
        let t = (read_tcp C now 1 s0).1 in
        elim (Bool-cases (read_tcp C now 1 s0).0) [
          | inr z ↦
              rw (z, on_sync)
                (record {
                  sound = record {
                    roomy = a.roomy;
                    waits = subst (λ q. Waits q t.got) (sym (a.same_phase ∙ p)) tt;
                  };
                  less = λ e. absurd cc;
                  done = λ e. absurd cc;
                })
          | inl y ↦ elim (Bool-cases (get_or t.got 0 0 == 0)) [
            | inr z ↦
                rw (y, z, on_sync)
                  (record {
                    sound = record {
                      roomy = a.roomy;
                      waits = subst (λ q. Waits q t.got) (sym (a.same_phase ∙ p)) tt;
                    };
                    less = λ e. omega (arith, a.used y, ap slack (a.same_phase ∙ p));
                    done = λ e. absurd cc;
                  })
            | inl z ↦
                let m =
                  match_mark-Marks (drop 1 start_mark) 1 t a.roomy
                    (omega (arith, a.more y, a.below)) in
                rw (y, z, on_sync)
                  (marked-Turns (match_mark C now (drop 1 start_mark) 1 t).0 s t
                    (match_mark C now (drop 1 start_mark) 1 t).1 m (a.same_phase ∙ p)
                    (omega (arith, a.used y)))
          ]
        ]

    phase-Turns :
        (q : Phase) (s : Server C)
        → IsSound s
        → s.phase ≡ q
        → let r =
            chain C now
              (chain C now (on_sync C now q s) (λ t. on_header C now t.phase t))
              (λ t. on_payload C now t.phase t) in
          Turns r.0 s r.1
    unfolding on_sync on_header
    phase-Turns sync s h p = sync-Turns s h p
    phase-Turns header s h p =
        subst
          (λ q.
            let r = chain C now (on_header C now q s) (λ v. on_payload C now v.phase v) in
            Turns r.0 s r.1)
          (sym p)
          (header-Turns s s h.roomy p (subst (λ q. Waits q s.got) p h.waits) (
            subst (λ q. 2 * length s.wire.grants < 2 * length s.wire.grants + slack q) (sym p)
              (omega arith)))
    phase-Turns payload s h p =
        subst
          (λ q.
            let r = chain C now (on_header C now q s) (λ v. on_payload C now v.phase v) in
            Turns r.0 s r.1)
          (sym p)
          (subst (λ q. Turns (on_payload C now q s).0 s (on_payload C now q s).1) (sym p)
            (payload-Turns s h p))

    turn-Turns : (s : Server C) → IsSound s → Turns (turn C now s).0 s (turn C now s).1
    unfolding turn
    turn-Turns s h = phase-Turns s.phase s h refl

    run-IsSound :
        (n : ℕ) (s : Server C)
        → IsSound s
        → weight s < n
        → (t : Server C) × (run C now n s ≡ some t) × IsSound t
    unfolding run
    run-IsSound zero s h l = absurd (omega arith)
    run-IsSound (suc n) s h l =
        let r = turn-Turns s h in
        let t = (turn C now s).1 in
        elim (Next-cases (turn C now s).0) [
          | inl x ↦ (t, rw (x, run) refl, r.sound)
          | inr (inl x) ↦
              let (u, e, k) = run-IsSound n t r.sound (omega (arith, r.less x)) in
              (u, rw (x, run) e, k)
          | inr (inr x) ↦ absurd (r.done x)
        ]

    warn-IsSound :
        (s : Server C) → IsSound s → IsSound (warn C now s) × (weight (warn C now s) ≡ weight s)
    unfolding warn
    warn-IsSound s h = elim (Bool-cases (not s.no_data && C.late now s.good_time)) [
      | inl y ↦ rw (y, warn) (record { roomy = h.roomy; waits = h.waits }, refl)
      | inr z ↦ rw (z, warn) (h, refl)
    ]

    slack-le : (q : Phase) → slack q ≤ 1
    slack-le sync = omega arith
    slack-le header = omega arith
    slack-le payload = omega arith

    -- From a server whose buffer is in order, and with a `Recv` that finds something or fails any number
    -- of times, whatever it answers, but finds nothing any more after a finite number of calls: a tick
    -- comes to its end, and leaves one whose buffer is in order: no more bytes than it has room for, fewer than a heading
    -- where a heading is read, and where a payload is read a whole heading but less than the payload
    -- that it announces.
    pub tick-IsSound :
        (s : Server C) → IsSound s → (t : Server C) × (tick C now s ≡ some t) × IsSound t
    unfolding tick
    tick-IsSound s h =
        let (k, e) = warn-IsSound s h in
        run-IsSound (2 * length s.wire.grants + 3) (warn C now s) k
          (omega (arith, e, slack-le s.phase))
