-- ===== src/Udp/Mapper/Interleaved.antt =====
-- The fragments of several packets, mixed, through `UdpMapper` of src/o3ds/udp_fragment.cpp.
use mathlib.Core.Path.{subst}
use native.Mathlib.Decide.{ℕ_discrete}
use open3dstream.Base.{
  ℕ, ◌<◌, ◌≡◌, ◌≢◌, refl, ap, ◌∙◌, ◌↔◌, ◌⊎◌, inl, inr, List, [], ◌∷◌, arith, length, ◌==◌, Bool,
  true, false, ◌||◌, some, none, take, map, if◌then◌else◌,
}
use open3dstream.Base.Buffers.{eq-map_of_read_all, take_all}
use open3dstream.Base.Words.{u32_mod}
use open3dstream.Udp.Wire.{Result, ok, ◌>>=◌}
use open3dstream.Udp.Chunks.{Fits, count, chunk-le}
use open3dstream.Udp.Fragmenter
use open3dstream.Udp.Fragmenter.{make_fragment}
use open3dstream.Udp.Combiner
use open3dstream.Udp.Combiner.{Combiner, is_complete, allocate}
use open3dstream.Udp.Mapper.{Items, find, add_fragment}
use open3dstream.Udp.Mapper.Laws.{IsSorted}
use open3dstream.Udp.RoundTrip.Sender.{
  init-sender, make_fragment-datagram, datagram, label, length-datagram, heading-datagram,
}
use open3dstream.Udp.RoundTrip.Receiver.{
  occurs, Holds, next, next-Holds, allocate-Holds, add_fragment-next, add_fragment-first,
}
use open3dstream.Udp.RoundTrip.Transfer.{Covers, complete_iff, Holds-bytes}
use open3dstream.Udp.Mapper.Step.{current, add_fragment_at}

-- Fragments are named by the id of their packet and their number in it.
unfoldable pub numbers_of : ℕ → List (ℕ × ℕ) → List ℕ
numbers_of k [] = []
numbers_of k ((id, q) ∷ es) = if id == k then q ∷ numbers_of k es else numbers_of k es

unfoldable pub mentions : ℕ → List (ℕ × ℕ) → Bool
mentions k [] = false
mentions k ((id, q) ∷ es) = id == k || mentions k es

numbers_of-nil : (k : ℕ) (es : List (ℕ × ℕ)) → mentions k es ≡ false → numbers_of k es ≡ []
unfolding numbers_of mentions
numbers_of-nil k [] h = refl
numbers_of-nil k ((id, q) ∷ es) h = ground (arith, numbers_of-nil k es)

abbrev push_all : List (ℕ × ℕ) → List (ℕ × ℕ) → List (ℕ × ℕ)
push_all [] done = done
push_all (e ∷ es) done = push_all es (e ∷ done)

mentions-push_all :
    (k : ℕ) (es done : List (ℕ × ℕ))
    → mentions k (push_all es done) ≡ mentions k es || mentions k done
unfolding mentions
mentions-push_all k [] done = refl
mentions-push_all k ((id, q) ∷ es) done = ground (arith, mentions-push_all k es ((id, q) ∷ done))

occurs-push_all :
    (s k : ℕ) (es done : List (ℕ × ℕ))
    → occurs s (numbers_of k (push_all es done))
      ≡ occurs s (numbers_of k es) || occurs s (numbers_of k done)
unfolding numbers_of occurs
occurs-push_all s k [] done = refl
occurs-push_all s k ((id, q) ∷ es) done = ground (arith, occurs-push_all s k es ((id, q) ∷ done))

-- The packet of each id, and the fragment size.
module _ (packet : ℕ → List ℕ) (size : ℕ) where
  -- Make the fragments in the given order and hand each to the mapper.
  unfoldable pub feed : Items → List (ℕ × ℕ) → Result Items
  feed items [] = ok items
  feed items ((id, q) ∷ es) = do
    s ← Fragmenter.init (packet id) size
    bytes ← make_fragment s id q
    r ← add_fragment items bytes
    feed r.1 es

  -- Ids and numbers that exist, of packets that fit the wire format.
  abbrev pub AllSent : List (ℕ × ℕ) → Type 0
  AllSent [] = Unit {0}
  AllSent ((id, q) ∷ es) =
      (id < u32_mod)
      × Fits (length (packet id)) size
      × (q < count (length (packet id)) size)
      × AllSent es

  abbrev Tracks : List (ℕ × ℕ) → Items → ℕ → Type 0
  Tracks done items k =
      ((mentions k done ≡ false) × (find k items ≡ none))
      ⊎ ((mentions k done ≡ true)
          × Fits (length (packet k)) size
          × (c : Combiner) × (find k items ≡ some c)
          × Holds (packet k) size (numbers_of k done) c)

  -- Whatever is there for the id of a fragment that was sent, the fragment is taken.
  take_fragment :
      (done : List (ℕ × ℕ)) (items : Items) (id q : ℕ)
      → id < u32_mod
      → Fits (length (packet id)) size
      → q < count (length (packet id)) size
      → Tracks done items id
      → (c : Combiner) × (Combiner.add_fragment (current items id) (datagram (packet id) size id q)
          ≡ ok (true, c))
        × Holds (packet id) size (q ∷ numbers_of id done) c
  take_fragment done items id q small fits h (inl (u, n)) = (
    next (packet id) size (allocate Combiner.init (label (packet id) size id q)) q,
    rw (n, current) (add_fragment-first (packet id) size fits id q small h),
    rw (numbers_of-nil id done u)
        (next-Holds (packet id) size fits [] _ q h (allocate-Holds (packet id) size fits id q)),
  )
  take_fragment done items id q small fits h (inr (u, _, c, s, v)) = (
    next (packet id) size c q,
    rw (s, current) (add_fragment-next (packet id) size fits (numbers_of id done) c id q small h v),
    next-Holds (packet id) size fits (numbers_of id done) c q h v,
  )

  Tracks-own :
      (done : List (ℕ × ℕ)) (m : Items) (id q : ℕ) (c : Combiner)
      → Fits (length (packet id)) size
      → find id m ≡ some c
      → Holds (packet id) size (q ∷ numbers_of id done) c
      → Tracks ((id, q) ∷ done) m id
  unfolding numbers_of mentions
  Tracks-own done m id q c fits e v =
      let own : numbers_of id ((id, q) ∷ done) ≡ q ∷ numbers_of id done = ground arith in
      inr (ground arith, fits, c, e, rw own v)

  Tracks-other :
      (done : List (ℕ × ℕ)) (items m : Items) (id q k : ℕ)
      → id ≢ k
      → find k m ≡ find k items
      → Tracks done items k
      → Tracks ((id, q) ∷ done) m k
  unfolding numbers_of mentions
  Tracks-other done items m id q k ne e (inl (u, n)) = inl (ground arith, e ∙ n)
  Tracks-other done items m id q k ne e (inr (u, fits, c, s, v)) =
      let same : numbers_of k ((id, q) ∷ done) ≡ numbers_of k done = ground arith in
      inr (ground arith, fits, c, e ∙ s, rw same v)

  Tracks-step :
      (done : List (ℕ × ℕ)) (items m : Items) (id q : ℕ) (c : Combiner)
      → Fits (length (packet id)) size
      → Holds (packet id) size (q ∷ numbers_of id done) c
      → ((j : ℕ) → find j m ≡ (if id == j then some c else find j items))
      → ((k : ℕ) → Tracks done items k)
      → (k : ℕ) → Tracks ((id, q) ∷ done) m k
  Tracks-step done items m id q c fits v law t k = elim (ℕ_discrete id k) [
    | yes p ↦
        subst (Tracks ((id, q) ∷ done) m) p
          (Tracks-own done m id q c fits (ground (arith, law id)) v)
    | no ne ↦ Tracks-other done items m id q k ne (ground (arith, law k)) (t k)
  ]

  -- One fragment advances its own packet, and leaves the others alone.
  feed_one :
      (done : List (ℕ × ℕ)) (items : Items) (id q : ℕ)
      → id < u32_mod
      → Fits (length (packet id)) size
      → q < count (length (packet id)) size
      → IsSorted items
      → ((k : ℕ) → Tracks done items k)
      → (m : Items) × (add_fragment items (datagram (packet id) size id q) ≡ ok (true, m))
        × IsSorted m
        × ((k : ℕ) → Tracks ((id, q) ∷ done) m k)
  feed_one done items id q small fits h sorted t =
      let (c, e, v) = take_fragment done items id q small fits h (t id) in
      let (m, a, sorted', law) =
        add_fragment_at items id (datagram (packet id) size id q) c
          (ap (λ r. r.id) (heading-datagram (packet id) size fits id q small h))
          (rw (length-datagram (packet id) size fits id q h)
            (ground (arith, chunk-le fits q h, fits.datagram)))
          e sorted in
      (m, a, sorted', Tracks-step done items m id q c fits v law t)

  feed-Tracks :
      (es done : List (ℕ × ℕ)) (items : Items)
      → AllSent es
      → IsSorted items
      → ((k : ℕ) → Tracks done items k)
      → (m : Items) × (feed items es ≡ ok m)
        × IsSorted m
        × ((k : ℕ) → Tracks (push_all es done) m k)
  unfolding feed
  feed-Tracks [] done items b sorted t = (items, refl, sorted, t)
  feed-Tracks ((id, q) ∷ es) done items b sorted t =
      let (m, a, sorted', t') = feed_one done items id q b.0 b.1 b.2 sorted t in
      let (r, e, sorted'', last) = feed-Tracks es ((id, q) ∷ done) m b.3 sorted' t' in
      (
        r,
        rw
            (
              init-sender (packet id) size b.1,
              make_fragment-datagram (packet id) size b.1 id q b.2,
              a,
            )
            e,
        sorted'',
        last,
      )

  -- What the mapper has for one packet after some fragments were handed to it.
  pub record Received (es : List (ℕ × ℕ)) (m : Items) (k : ℕ) : Type 0 where
    pub unknown : mentions k es ≡ false → find k m ≡ none
    pub known :
        mentions k es ≡ true
        → (c : Combiner) × (find k m ≡ some c)
          × ((is_complete c ≡ true) ↔ Covers (count (length (packet k)) size) (numbers_of k es))
          × (Covers (count (length (packet k)) size) (numbers_of k es)
              → take c.buffer_size c.buffer ≡ map some (packet k))

  Covers-push_all :
      (n k : ℕ) (es : List (ℕ × ℕ))
      → Covers n (numbers_of k (push_all es [])) ↔ Covers n (numbers_of k es)
  unfolding numbers_of occurs
  Covers-push_all n k es = (
    (λ all s h. ground (arith, all s h, occurs-push_all s k es [])),
    (λ all s h. ground (arith, all s h, occurs-push_all s k es [])),
  )

  Received-of_Tracks :
      (es : List (ℕ × ℕ)) (m : Items) (k : ℕ)
      → k < u32_mod
      → Tracks (push_all es []) m k
      → Received es m k
  unfolding mentions
  Received-of_Tracks es m k small (inl (u, n)) = record {
    unknown = λ _. n;
    known = λ e. ground (arith, mentions-push_all k es []);
  }
  Received-of_Tracks es m k small (inr (u, fits, c, s, v)) =
      let order = Covers-push_all (count (length (packet k)) size) k es in
      let done = numbers_of k (push_all es []) in
      let iff = complete_iff (packet k) size k fits small done c v in
      record {
        unknown = λ e. ground (arith, mentions-push_all k es []);
        known = λ _. (
          c,
          s,
          ((λ t. order.0 (iff.0 t)), (λ all. iff.1 (order.1 all))),
          (λ all.
              take_all c.buffer_size c.buffer (omega (arith, v.sized, v.room))
              ∙ eq-map_of_read_all c.buffer (packet k)
                  (Holds-bytes (packet k) size k fits small done c v (order.1 all))),
        );
      }

  -- Fragments of several packets, in any order, mixed and repeated at will, are made by
  -- `UdpFragmenter` and handed to a new `UdpMapper`, where every packet fits the wire format:
  -- nothing goes wrong, the map is in the order of its ids, and for every id: if none of its
  -- fragments was sent it has no entry, and else it has a combiner, which is complete exactly when
  -- all of the packet's fragments were sent, and then holds the bytes of that packet.
  pub interleaved_roundtrip :
      (es : List (ℕ × ℕ))
      → AllSent es
      → (m : Items) × (feed [] es ≡ ok m) × IsSorted m × ((k : ℕ) → k < u32_mod → Received es m k)
  unfolding find mentions
  interleaved_roundtrip es b =
      let (m, e, sorted, t) = feed-Tracks es [] [] b tt (λ k. inl (refl, refl)) in
      (m, e, sorted, (λ k small. Received-of_Tracks es m k small (t k)))
