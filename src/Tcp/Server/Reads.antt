-- ===== src/Tcp/Server/Reads.antt =====
-- What one call of `ReadTcp` does (UOpen3DServer.cpp), and the loops that call it.
use mathlib.Core.List.{append_assoc}
use mathlib.Core.Path.{subst}
use open3dstream.Base.{
  ℕ, ◌+◌, ◌-◌, ◌≤◌, ◌<◌, List, [], ◌∷◌, ◌++◌, Option, some, none, Bool, true, false, length,
  length-append, length-take, length-drop, take, drop, take-append-drop, min, ltb, leb, ◌≡◌, refl,
  sym, ap, ◌∙◌, inl, inr, ◌⊎◌, Bool-cases, Option-cases, arith,
}
use open3dstream.Tcp.Server.{
  Grant, granted, refused, Wire, recv_from, Event, payloads, Clock, Server, make_room, take_answer,
  read_tcp,
}

-- No call of `Recv` fails or has room for nothing.
abbrev pub AllGive : List Grant → Type 0
AllGive [] = Unit {0}
AllGive (granted k ∷ gs) = (0 < k) × AllGive gs
AllGive (refused ∷ gs) = ⊥

-- There are calls enough for every byte that is on its way.
abbrev pub Ready : Wire → Type 0
Ready w = AllGive w.grants × (length w.pending ≤ length w.grants)

-- The bytes that the buffer holds lie inside of it.
abbrev pub Roomy : Option ℕ → List ℕ → Type 0
Roomy none got = got ≡ []
Roomy (some n) got = length got ≤ n

pub List-cases {ℓ} :
    {A : Type ℓ} (xs : List A) → (xs ≡ []) ⊎ ((y : A) × (ys : List A) × (xs ≡ y ∷ ys))
List-cases [] = inl refl
List-cases (x ∷ xs) = inr (x, xs, refl)

pub length_nil {ℓ} : {A : Type ℓ} (xs : List A) → length xs ≡ 0 → xs ≡ []
length_nil [] e = refl
length_nil (x ∷ xs) e = absurd (omega arith)

pub payloads-append : (es fs : List Event) → payloads fs ≡ [] → payloads (es ++ fs) ≡ payloads es
payloads-append [] fs e = e
payloads-append (Event.received p ∷ es) fs e = ap (λ ps. p ∷ ps) (payloads-append es fs e)
payloads-append (Event.receiving ∷ es) fs e = payloads-append es fs e
payloads-append (Event.malformed ∷ es) fs e = payloads-append es fs e
payloads-append (Event.tcp_error ∷ es) fs e = payloads-append es fs e
payloads-append (Event.silent ∷ es) fs e = payloads-append es fs e

module _ (C : Clock) where
  -- A buffer that has room for `len` bytes, with all else as it was.
  record RoomFor (len : ℕ) (s t : Server C) : Type 0 where
    same_got : t.got ≡ s.got
    same_wire : t.wire ≡ s.wire
    same_phase : t.phase ≡ s.phase
    same_events : t.events ≡ s.events
    room : (m : ℕ) × (t.size ≡ some m) × (len ≤ m)

  make_room-RoomFor :
      (len : ℕ) (s : Server C) → Roomy s.size s.got → RoomFor len s (make_room C len s)
  unfolding make_room
  make_room-RoomFor len s h = elim (Option-cases s.size) [
    | inl e ↦
        rw (e, make_room)
          (record {
            same_got = sym (rw (e) at h);
            same_wire = refl;
            same_phase = refl;
            same_events = refl;
            room = (_, refl, ground arith);
          })
    | inr (n, e) ↦ elim (Bool-cases (ltb n (len + length s.got))) [
      | inl y ↦
          rw (e, y, make_room)
            (record {
              same_got = refl;
              same_wire = refl;
              same_phase = refl;
              same_events = refl;
              room = (_, refl, omega arith);
            })
      | inr z ↦
          rw (e, z, make_room)
            (record {
              same_got = refl;
              same_wire = refl;
              same_phase = refl;
              same_events = refl;
              room = (n, e, ground (arith, z));
            })
    ]
  ]

  -- The server before a read for `len` bytes, its answer, and the server after it.
  pub record Reads (len : ℕ) (b : Bool) (s t : Server C) : Type 0 where
    pub kept : t.got ++ t.wire.pending ≡ s.got ++ s.wire.pending
    pub same_phase : t.phase ≡ s.phase
    pub same_payloads : payloads t.events ≡ payloads s.events
    pub roomy : Roomy t.size t.got
    pub grows : length s.got ≤ length t.got
    pub below : length t.got ≤ len
    pub more : b ≡ true → length s.got < length t.got
    pub short : b ≡ false → length t.got < len
    pub fewer : length t.wire.grants ≤ length s.wire.grants
    pub used : b ≡ true → length t.wire.grants < length s.wire.grants
    pub ready : Ready s.wire → Ready t.wire × (b ≡ false → t.wire.pending ≡ [])

  RoomFor-Roomy :
      (len : ℕ) (s t : Server C) (got : List ℕ)
      → RoomFor len s t
      → length got ≤ len
      → Roomy t.size got
  RoomFor-Roomy len s t got h l =
      let (m, a, b) = h.room in subst (λ o. Roomy o got) (sym a) (omega arith)

  -- No byte has come.
  idle-Reads :
      (len : ℕ) (s t : Server C) (w : Wire) (es : List Event)
      → RoomFor len s t
      → length s.got < len
      → payloads es ≡ payloads s.events
      → w.pending ≡ s.wire.pending
      → length w.grants ≤ length s.wire.grants
      → (Ready s.wire → Ready w × (w.pending ≡ []))
      → Reads len false s (record t { wire = w; events = es })
  idle-Reads len s t w es h l p e g r =
      let k : length t.got < len = rw (h.same_got) l in
      record {
        kept = ap (λ xs. xs ++ w.pending) h.same_got ∙ ap (λ xs. s.got ++ xs) e;
        same_phase = h.same_phase;
        same_payloads = p;
        roomy = RoomFor-Roomy len s t t.got h (omega arith);
        grows = rw (h.same_got) (omega arith);
        below = omega arith;
        more = λ q. absurd cc;
        short = λ q. k;
        fewer = g;
        used = λ q. absurd cc;
        ready = λ a. ((r a).0, λ q. (r a).1);
      }

  module _ (now : C.Time) where
    -- The bytes that have come.
    some-Reads :
        (len : ℕ) (s t : Server C) (w : Wire) (b : ℕ) (bs : List ℕ)
        → RoomFor len s t
        → length s.got + length (b ∷ bs) ≤ len
        → (b ∷ bs) ++ w.pending ≡ s.wire.pending
        → length w.grants < length s.wire.grants
        → (Ready s.wire → Ready w)
        → Reads len true s (take_answer C now (some (b ∷ bs)) w t).1
    unfolding take_answer
    some-Reads len s t w b bs h l e g r =
        let k : length (t.got ++ (b ∷ bs)) ≡ length s.got + length (b ∷ bs) =
          length-append t.got (b ∷ bs) ∙ ap (λ xs. length xs + length (b ∷ bs)) h.same_got in
        record {
          kept =
              append_assoc t.got (b ∷ bs) w.pending
              ∙ ap (λ xs. xs ++ ((b ∷ bs) ++ w.pending)) h.same_got
              ∙ ap (λ xs. s.got ++ xs) e;
          same_phase = h.same_phase;
          same_payloads = ap payloads h.same_events;
          roomy = RoomFor-Roomy len s t (t.got ++ (b ∷ bs)) h (omega (arith, k));
          grows = omega (arith, k);
          below = omega (arith, k);
          more = λ q. omega (arith, k);
          short = λ q. absurd cc;
          fewer = omega arith;
          used = λ q. g;
          ready = λ a. (r a, λ q. absurd cc);
        }

    granted-Reads :
        (len n k : ℕ) (s t : Server C) (gs : List Grant)
        → RoomFor len s t
        → length s.got + n ≡ len
        → 0 < n
        → s.wire.grants ≡ granted k ∷ gs
        → let r = recv_from (granted k ∷ gs) n s.wire.pending in
          Reads len (take_answer C now r.0 r.1 t).0 s (take_answer C now r.0 r.1 t).1
    unfolding take_answer recv_from
    granted-Reads len n k s t gs h e l g =
        let bytes = s.wire.pending in
        let c = take-append-drop (min k n) bytes in
        let m = length-take (min k n) bytes in
        let d = length-drop (min k n) bytes in
        elim (List-cases (take (min k n) bytes)) [
          | inl y ↦
              let kept : drop (min k n) bytes ≡ bytes =
                ap (λ xs. xs ++ drop (min k n) bytes) (sym y) ∙ c in
              subst
                (λ xs.
                  Reads len
                    (take_answer C now (some xs)
                      (record { pending = drop (min k n) bytes; grants = gs }) t).0
                    s
                    (take_answer C now (some xs)
                      (record { pending = drop (min k n) bytes; grants = gs }) t).1)
                (sym y)
                (idle-Reads len s t (record { pending = drop (min k n) bytes; grants = gs })
                  t.events h (omega arith) (ap payloads h.same_events) kept (rw (g) (omega arith))
                  (λ (a, q).
                    let (i, f) : AllGive (granted k ∷ gs) = rw (g) at a in
                    let z : length bytes ≡ 0 = omega (arith, m, ap (λ xs. length xs) y) in
                    let w : drop (min k n) bytes ≡ [] = kept ∙ length_nil bytes z in
                    ((f, rw (w) (omega arith)), w)))
          | inr (b, bs, y) ↦
              let z = ap (λ xs. length xs) y in
              subst
                (λ xs.
                  Reads len
                    (take_answer C now (some xs)
                      (record { pending = drop (min k n) bytes; grants = gs }) t).0
                    s
                    (take_answer C now (some xs)
                      (record { pending = drop (min k n) bytes; grants = gs }) t).1)
                (sym y)
                (some-Reads len s t (record { pending = drop (min k n) bytes; grants = gs }) b bs h
                  (omega (arith, m, z)) (ap (λ xs. xs ++ drop (min k n) bytes) (sym y) ∙ c)
                  (rw (g) (omega arith))
                  (λ (a, q).
                    let (i, f) : AllGive (granted k ∷ gs) = rw (g) at a in
                    (f, omega (arith, d, m, z, (rw (g) at q)))))
        ]

    answer-Reads :
        (len n : ℕ) (s t : Server C) (gs : List Grant)
        → RoomFor len s t
        → length s.got + n ≡ len
        → 0 < n
        → s.wire.grants ≡ gs
        → let r = recv_from gs n s.wire.pending in
          Reads len (take_answer C now r.0 r.1 t).0 s (take_answer C now r.0 r.1 t).1
    unfolding take_answer recv_from
    answer-Reads len n s t [] h e l g =
        idle-Reads len s t (record { pending = s.wire.pending; grants = [] }) t.events h
          (omega arith) (ap payloads h.same_events) refl (omega arith)
          (λ (a, q).
            let z : s.wire.pending ≡ [] =
              length_nil s.wire.pending (omega (arith, (rw (g) at q))) in
            ((tt, rw (g) at q), z))
    answer-Reads len n s t (refused ∷ gs) h e l g =
        idle-Reads len s t (record { pending = s.wire.pending; grants = gs }) _ h (omega arith)
          (payloads-append t.events (Event.tcp_error ∷ []) refl ∙ ap payloads h.same_events) refl
          (rw (g) (omega arith)) (λ (a, q). absurd (rw (g) at a))
    answer-Reads len n s t (granted k ∷ gs) h e l g = granted-Reads len n k s t gs h e l g

    -- One call that has something to read for.
    pub read_tcp-Reads :
        (len : ℕ) (s : Server C)
        → Roomy s.size s.got
        → length s.got < len
        → Reads len (read_tcp C now len s).0 s (read_tcp C now len s).1
    unfolding read_tcp
    read_tcp-Reads len s h l =
        let r = make_room-RoomFor len s h in
        let e : leb len (length s.got) ≡ false = ground arith in
        rw (e, r.same_wire, r.same_got, read_tcp)
          (answer-Reads len (len - length s.got) s (make_room C len s) s.wire.grants r (omega arith)
            (omega arith) refl)
