-- ===== src/Udp/Mapper/Flaws.antt =====
-- Datagrams that `UdpCombiner` and `UdpMapper` of src/o3ds/udp_fragment.cpp do not withstand.
use open3dstream.Base.{
  ℕ, ◌+◌, ◌-◌, ◌*◌, ◌%◌, ◌^◌, ◌≤◌, ◌<◌, ◌≡◌, ◌≢◌, refl, ap, ◌∙◌, List, [], ◌++◌, arith, length,
  ◌==◌, Bool, true, false, ◌||◌, some, none, Option, take, ltb, if◌then◌else◌, some_eq,
  length-replicate,
}
use mathlib.Core.List.{append-nil}
use open3dstream.Udp.RoundTrip.Receiver.{add_fragment_fresh}
use native.Mathlib.Decide.{ℕ_discrete}
use open3dstream.Base.Words.{u32_mod}
use open3dstream.Udp.Wire.{
  Result, ok, fault, buffer_overrun, Heading, heading, header_size, max_datagram,
}
use open3dstream.Udp.Combiner
use open3dstream.Udp.Combiner.{
  Combiner, allocate, is_complete, all_true, frames_of, room_test, receive,
}
use open3dstream.Udp.Mapper.{Items, find, insert, get_combiner, add_fragment, get_frame}
use open3dstream.Udp.Mapper.Laws.{
  find-insert, IsSorted, insert-From, get_frame-Delivers, Delivers, nothing, last_one, freed,
  Chosen, NoLater,
}

-- The size of a datagram that is looked at, and a fragment size other than 0.
pub record IsRead (bytes : List ℕ) : Type 0 where
  pub long : header_size ≤ length bytes
  pub short : length bytes ≤ max_datagram
  pub divisible : (heading bytes).frag_size ≢ 0

receive_overrun :
    (c : Combiner) (h : Heading) (bytes : List ℕ)
    → h.seq < length c.found
    → h.seq + 1 ≡ frames_of h
    → length c.buffer < (h.seq * h.frag_size) % u32_mod + (length bytes - header_size)
    → receive c h bytes ≡ fault buffer_overrun
unfolding receive
receive_overrun c h bytes slot last over = ground arith

-- The last fragment of a packet, whose payload is longer than what is left of the packet, is
-- written past the end of the buffer that a new combiner has made: a datagram of an admitted
-- length whose heading passes all tests of `addFragment` is enough.
pub last_fragment_overrun :
    (bytes : List ℕ)
    → IsRead bytes
    → frames_of (heading bytes) < 2 ^ 31
    → (heading bytes).seq + 1 ≡ frames_of (heading bytes)
    → room_test (heading bytes) ≤ (heading bytes).buf_sz
    → (heading bytes).buf_sz
      < ((heading bytes).seq * (heading bytes).frag_size) % u32_mod + (length bytes - header_size)
    → Combiner.add_fragment Combiner.init bytes ≡ fault buffer_overrun
unfolding Combiner.init
last_fragment_overrun bytes r few last room over =
    let h = heading bytes in
    add_fragment_fresh Combiner.init h bytes refl
      (record {
        lengths = ground (arith, r.long, r.short);
        nonzero = ground (arith, r.divisible);
        in_frames = ground arith;
        in_room = ground arith;
      })
      refl (ground arith)
    ∙ receive_overrun (allocate Combiner.init h) h bytes
        (omega (arith, length-replicate (frames_of h) false)) last
        (rw (length-replicate {A = Option ℕ} h.buf_sz none) over)

-- A number that the packet does not have: the combiner refuses the fragment.
refused :
    (c : Combiner) (bytes : List ℕ)
    → IsRead bytes
    → frames_of (heading bytes) ≤ (heading bytes).seq
    → Combiner.add_fragment c bytes ≡ ok (false, c)
unfolding Combiner.add_fragment
refused c bytes r h = ground (arith, r.long, r.short, r.divisible)

-- A new combiner counts as complete.
pub is_complete-init : is_complete Combiner.init ≡ true
unfolding is_complete Combiner.init
is_complete-init = refl

refused_at :
    (items : Items) (bytes : List ℕ)
    → IsRead bytes
    → frames_of (heading bytes) ≤ (heading bytes).seq
    → find (heading bytes).id items ≡ none
    → IsSorted items
    → (m : Items) × (add_fragment items bytes ≡ ok (true, m))
      × IsSorted m
      × ((j : ℕ)
          → find j m ≡ (if (heading bytes).id == j then some Combiner.init else find j items))
unfolding add_fragment get_combiner
refused_at items bytes r h new sorted =
    let id = (heading bytes).id in
    let g : (ltb (length bytes) header_size || ltb max_datagram (length bytes)) ≡ false =
      ground (arith, r.long, r.short) in
    (
      insert id Combiner.init (insert id Combiner.init items),
      rw (new, get_combiner, g) (rw (refused Combiner.init bytes r h)),
      insert-From 0 id Combiner.init _ (omega arith)
          (insert-From 0 id Combiner.init items (omega arith) sorted),
      (λ j. ground (
        arith,
        find-insert id j Combiner.init (insert id Combiner.init items),
        find-insert id j Combiner.init items,
      )),
    )

Chosen-new :
    (items m : Items) (id k : ℕ) (c : Combiner)
    → ((j : ℕ) → find j m ≡ (if id == j then some Combiner.init else find j items))
    → ((j : ℕ) (d : Combiner) → find j items ≡ some d → is_complete d ≡ false)
    → Chosen m k c
    → (id ≡ k) × (c ≡ Combiner.init)
Chosen-new items m id k c law unfinished v = elim (ℕ_discrete id k) [
  | yes p ↦ (p, some_eq (ground (arith, law k, v.present)))
  | no n ↦ absurd (ground (arith, unfinished k c (ground (arith, law k, v.present)), v.complete))
]

delivered_empty :
    (items m : Items) (id : ℕ) (out : List (Option ℕ)) (r : Result (Bool × List (Option ℕ) × Items))
    → ((j : ℕ) → find j m ≡ (if id == j then some Combiner.init else find j items))
    → ((j : ℕ) (d : Combiner) → find j items ≡ some d → is_complete d ≡ false)
    → NoLater id items
    → Delivers m out r
    → r ≡ ok (true, out, [])
unfolding Combiner.init
delivered_empty items m id out r law unfinished greatest (nothing f e) =
    absurd (ground (arith, f id Combiner.init (ground (arith, law id)), is_complete-init))
delivered_empty items m id out r law unfinished greatest (last_one k c v f e) =
    let (p, n) = Chosen-new items m id k c law unfinished v in
    e
    ∙ ap (λ (b : Combiner). ok (true, out ++ take b.buffer_size b.buffer, [])) n
    ∙ ap (λ xs. ok (true, xs, [])) (append-nil out)
delivered_empty items m id out r law unfinished greatest (freed k c v (j, d, h, q) e) =
    let (p, n) = Chosen-new items m id k c law unfinished v in
    absurd (ground (arith, greatest j (omega (arith, p, h)), law j, q, p, h))

-- A fragment with a number that its packet does not have, under a new id, which is above all ids in
-- the map: the mapper says that it took it. If no packet was complete, `getFrame` then says that it
-- has a frame, and gives an empty one; the entries of all packets are lost.
pub refused_fragment_delivers :
    (items : Items) (bytes : List ℕ) (out : List (Option ℕ))
    → IsRead bytes
    → frames_of (heading bytes) ≤ (heading bytes).seq
    → find (heading bytes).id items ≡ none
    → NoLater (heading bytes).id items
    → IsSorted items
    → ((k : ℕ) (c : Combiner) → find k items ≡ some c → is_complete c ≡ false)
    → (m : Items) × (add_fragment items bytes ≡ ok (true, m))
      × (get_frame m out ≡ ok (true, out, []))
refused_fragment_delivers items bytes out r h new greatest sorted unfinished =
    let (m, a, sorted', law) = refused_at items bytes r h new sorted in
    let d = get_frame-Delivers m out sorted' in
    (m, a, delivered_empty items m (heading bytes).id out _ law unfinished greatest d)
