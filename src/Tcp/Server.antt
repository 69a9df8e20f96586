-- ===== src/Tcp/Server.antt =====
-- `O3DSServer` of plugins/unreal/Open3DStream/Source/Open3DStream/Private/UOpen3DServer.cpp: `tick`
-- and `ReadTcp`, for a server that is connected over TCP. `FSocket::Recv` and the clock are
-- parameters: a list says what each call of `Recv` grants, and `now` is the time of the tick.
pub mod Reads
pub mod Fills
pub mod Ends
pub mod Delivery
pub mod Arrival
pub mod Connected
use open3dstream.Base.{
  ℕ, zero, suc, ◌+◌, ◌-◌, ◌*◌, ◌≤◌, List, [], ◌∷◌, ◌++◌, Option, some, none, Bool, true, false, not,
  ◌&&◌, if◌then◌else◌, length, get_or, take, drop, min, ltb, leb, ◌==◌, ◌≡◌,
}
use open3dstream.Base.Buffers.{slice}
use open3dstream.Base.Words.{word32_at}
use open3dstream.Tcp.Frame.{start_mark}

-- What `Recv` may answer: some bytes, as many as it has and are asked for, or a failure.
pub data Grant : Type 0 where
  granted : ℕ → Grant
  refused : Grant

-- The bytes that are on their way, and the calls of `Recv` that find something or fail. They are finitely
-- many: when the list is at its end nothing comes any more. A `Recv` that always finds something, which
-- keeps the loop of the source going, has no such list.
pub record Wire : Type 0 where
  pub pending : List ℕ
  pub grants : List Grant

-- `none` is the answer `false`.
unfoldable pub recv_from : List Grant → ℕ → List ℕ → Option (List ℕ) × Wire
recv_from [] n bytes = (some [], record { pending = bytes; grants = [] })
recv_from (refused ∷ gs) n bytes = (none, record { pending = bytes; grants = gs })
recv_from (granted k ∷ gs) n bytes =
    (some (take (min k n) bytes), record { pending = drop (min k n) bytes; grants = gs })

-- `eState`.
pub data Phase : Type 0 where
  sync : Phase
  header : Phase
  payload : Phase

-- What the server tells its owner: `OnData` and `OnState`.
pub data Event : Type 0 where
  received : List ℕ → Event
  receiving : Event
  malformed : Event
  tcp_error : Event
  silent : Event

-- The payloads among the events.
abbrev pub payloads : List Event → List (List ℕ)
payloads [] = []
payloads (received p ∷ es) = p ∷ payloads es
payloads (receiving ∷ es) = payloads es
payloads (malformed ∷ es) = payloads es
payloads (tcp_error ∷ es) = payloads es
payloads (silent ∷ es) = payloads es

-- Times, what is left of one in a `float`, and whether more than a second lies between two.
pub record Clock : Type 1 where
  pub Time : Type 0
  pub narrow : Time → Time
  pub late : Time → Time → Bool

-- `return` or `break`, `continue`, or what follows.
pub data Next : Type 0 where
  stop : Next
  again : Next
  onward : Next

-- `strncmp` answers 0: no difference up to the first NUL or the end.
unfoldable pub same_string : ℕ → List ℕ → List ℕ → Bool
same_string zero xs ys = true
same_string (suc n) [] ys = false
same_string (suc n) (x ∷ xs) [] = false
same_string (suc n) (x ∷ xs) (y ∷ ys) =
    let rest = same_string n xs ys in if x == y then (if x == 0 then true else rest) else false

module _ (C : Clock) where
  -- `size` is that of `mBuffer`, if it is allocated; `got` is its first `mPtr` bytes.
  pub record Server : Type 0 where
    pub phase : Phase
    pub size : Option ℕ
    pub got : List ℕ
    pub good_time : C.Time
    pub no_data : Bool
    pub wire : Wire
    pub events : List Event

  abbrev pub tell : Event → Server → Server
  tell e s = record s { events = s.events ++ (e ∷ []) }

  -- The buffer has room for `len` bytes: `malloc` and `realloc`.
  unfoldable pub make_room : ℕ → Server → Server
  make_room len s = elim (s.size) [
    | none ↦ record s { size = some (if ltb len 4096 then 4096 else len); got = [] }
    | some n ↦
        if ltb n (len + length s.got) then record s { size = some (len + length s.got) } else s
  ]

  module _ (now : C.Time) where
    -- What `Recv` has answered.
    unfoldable pub take_answer : Option (List ℕ) → Wire → Server → Bool × Server
    take_answer none w s = (false, tell tcp_error (record s { wire = w }))
    take_answer (some []) w s = (false, record s { wire = w })
    take_answer (some (b ∷ bs)) w s = (
      true,
      record s { wire = w; got = s.got ++ (b ∷ bs); good_time = C.narrow now; no_data = false },
    )

    unfoldable pub read_tcp : ℕ → Server → Bool × Server
    unfolding make_room take_answer recv_from
    read_tcp len s =
        let t = make_room len s in
        let r = recv_from t.wire.grants (len - length t.got) t.wire.pending in
        if leb len (length s.got) then (true, s) else take_answer r.0 r.1 t

    -- `while (mPtr < len) if (!ReadTcp(len)) return`. A call that answers yes has read a byte, so
    -- `len` turns are enough.
    unfoldable pub fill : ℕ → ℕ → Server → Bool × Server
    unfolding read_tcp
    fill zero len s = (leb len (length s.got), s)
    fill (suc n) len s =
        let r = read_tcp len s in
        let rest = fill n len r.1 in
        if ltb (length s.got) len then (if r.0 then rest else (false, r.1)) else (true, s)

    -- The rest of the mark, byte by byte.
    unfoldable pub match_mark : List ℕ → ℕ → Server → Next × Server
    unfolding read_tcp
    match_mark [] i s = (onward, record s { phase = header })
    match_mark (h ∷ hs) i s =
        let r = read_tcp (suc i) s in
        let rest = match_mark hs (suc i) r.1 in
        if not r.0 then (stop, r.1) else if get_or r.1.got i 0 == h then rest else (stop, r.1)

    -- The part of the loop for each state.
    unfoldable pub on_sync : Phase → Server → Next × Server
    unfolding read_tcp match_mark
    on_sync header s = (onward, s)
    on_sync payload s = (onward, s)
    on_sync sync s =
        let r = read_tcp 1 (record s { got = [] }) in
        let rest = match_mark (drop 1 start_mark) 1 r.1 in
        if not r.0 then (stop, r.1) else if get_or r.1.got 0 0 == 0 then rest else (again, r.1)

    unfoldable pub on_header : Phase → Server → Next × Server
    unfolding fill same_string
    on_header sync s = (onward, s)
    on_header payload s = (onward, s)
    on_header header s =
        let r = fill 18 18 s in
        if not r.0
        then (stop, r.1)
        else if same_string 14 r.1.got start_mark
        then (onward, record r.1 { phase = payload })
        else (again, record (tell malformed r.1) { phase = sync })

    -- `OnData` with the payload, and `OnState`.
    abbrev pub hand_over : ℕ → Server → Server
    hand_over n s = record (tell receiving (tell (received (slice 18 n s.got)) s)) {
      phase = header;
      got = [];
    }

    unfoldable pub on_payload : Phase → Server → Next × Server
    unfolding fill word32_at
    on_payload sync s = (again, s)
    on_payload header s = (again, s)
    on_payload payload s =
        let n = word32_at s.got 14 in
        let r = fill (n + 18) (n + 18) s in
        if ltb 51200 n
        then (again, record (tell malformed s) { phase = sync })
        else if r.0
        then (again, hand_over n r.1)
        else (stop, r.1)

    abbrev pub chain : Next × Server → (Server → Next × Server) → Next × Server
    chain (stop, s) f = (stop, s)
    chain (again, s) f = (again, s)
    chain (onward, s) f = f s

    -- One turn of the loop.
    unfoldable pub turn : Server → Next × Server
    unfolding on_sync on_header on_payload
    turn s =
        chain (chain (on_sync s.phase s) (λ t. on_header t.phase t)) (λ t. on_payload t.phase t)

    -- `none` if the turns are used up.
    unfoldable pub run : ℕ → Server → Option Server
    unfolding turn
    run zero s = none
    run (suc n) s =
        let r = turn s in
        let rest = run n r.1 in elim (r.0) [ stop ↦ some r.1 | again ↦ rest | onward ↦ rest ]

    -- `tick`: the warning, and the loop.
    unfoldable pub warn : Server → Server
    warn s =
        if not s.no_data && C.late now s.good_time
        then record (tell silent s) { no_data = true }
        else s

    unfoldable pub tick : Server → Option Server
    unfolding warn run
    tick s = run (2 * length s.wire.grants + 3) (warn s)
