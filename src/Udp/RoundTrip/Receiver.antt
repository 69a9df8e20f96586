-- ===== src/Udp/RoundTrip/Receiver.antt =====
-- What `UdpCombiner` of src/o3ds/udp_fragment.cpp holds after some fragments of one packet.
use native.Mathlib.Decide.{dec_lt, ℕ_discrete}
use open3dstream.Base.{
  ℕ, zero, suc, ◌+◌, ◌-◌, ◌*◌, ◌/◌, ◌%◌, ◌^◌, ◌≤◌, ◌<◌, ◌≡◌, refl, sym, ap, ◌∙◌, List, [], ◌∷◌,
  ◌++◌, arith, length, ◌==◌, leb, ltb, Bool, true, false, ◌||◌, some, Option, none, get_elem?, set,
  replicate, drop, length-set, length-replicate, get_elem?-set_self, get_elem?-set_ne, ◌⊎◌, inl,
  inr, ◌≢◌,
}
use open3dstream.Base.Buffers.{
  write_at, length-write_at, get_elem?-write_at_below, get_elem?-write_at_above,
  get_elem?-write_at_inside, get_elem?-slice,
}
use open3dstream.Base.Words.{u32_mod}
use open3dstream.Udp.Wire.{Heading, heading, write_heading, length-write_heading, ok}
use open3dstream.Udp.Chunks.{
  Fits, count, start_inside, chunk_inside, chunk-le, chunk_covers, count-le,
}
use open3dstream.Udp.Combiner.{
  Combiner, init, frames_of, room_test, allocate, receive, add_fragment,
}
use open3dstream.Udp.RoundTrip.Sender.{
  piece, label, datagram, length-piece, length-datagram, heading-datagram,
}

-- Whether a fragment is among those that were sent.
unfoldable pub occurs : ℕ → List ℕ → Bool
occurs s [] = false
occurs s (q ∷ qs) = s == q || occurs s qs

occurs_other : {s q : ℕ} (done : List ℕ) → occurs s (q ∷ done) ≡ true → s ≢ q → occurs s done ≡ true
unfolding occurs
occurs_other done o ne = ground arith

-- The fragments of `done` have arrived.
pub record Holds (bytes : List ℕ) (f : ℕ) (done : List ℕ) (c : Combiner) : Type 0 where
  pub sized : c.buffer_size ≡ length bytes
  pub room : length c.buffer ≡ length bytes
  pub slots : length c.found ≡ count (length bytes) f
  pub marked : (s : ℕ) → s < count (length bytes) f → get_elem? c.found s ≡ some (occurs s done)
  pub filled :
      (s j : ℕ)
      → occurs s done ≡ true
      → s < count (length bytes) f
      → j < f
      → s * f + j < length bytes
      → get_elem? c.buffer (s * f + j) ≡ some (get_elem? bytes (s * f + j))

-- The combiner after the fragment `q`.
abbrev pub next : List ℕ → ℕ → Combiner → ℕ → Combiner
next bytes f c q = record c {
  found = set c.found q true;
  buffer = write_at (q * f) (piece bytes f q) c.buffer;
}

drop_exact {ℓ} : {A : Type ℓ} (xs ys : List A) → drop (length xs) (xs ++ ys) ≡ ys
drop_exact [] ys = refl
drop_exact (x ∷ xs) ys = drop_exact xs ys

get_elem?-replicate {ℓ} :
    {A : Type ℓ} (n i : ℕ) (a : A) → i < n → get_elem? (replicate n a) i ≡ some a
get_elem?-replicate zero i a h = elim h [ ]
get_elem?-replicate (suc n) zero a h = refl
get_elem?-replicate (suc n) (suc i) a h = get_elem?-replicate n i a (omega arith)

-- A slot after another one is marked.
mark_slot :
    (xs : List Bool) (q s : ℕ) (b : Bool)
    → q < length xs
    → get_elem? xs s ≡ some b
    → get_elem? (set xs q true) s ≡ some (s == q || b)
mark_slot xs q s b h e = elim (ℕ_discrete q s) [
  | yes p ↦ rw (← p) (ground (arith, get_elem?-set_self xs q true h))
  | no p ↦ ground (arith, get_elem?-set_ne xs {i = q} {j = s} true p)
]

-- A cell after the write of a block: inside of it, or outside.
write_cases :
    (o p : ℕ) (bs : List ℕ) (buf : List (Option ℕ)) (v : Option ℕ)
    → o + length bs ≤ length buf
    → ((j : ℕ) → j < length bs → p ≡ o + j → get_elem? bs j ≡ v)
    → ((p < o) ⊎ (o + length bs ≤ p) → get_elem? buf p ≡ some v)
    → get_elem? (write_at o bs buf) p ≡ some v
write_cases o p bs buf v h inside outside = elim (dec_lt p o) [
  | yes k ↦ get_elem?-write_at_below o p bs buf k ∙ outside (inl k)
  | no k ↦ elim (dec_lt p (o + length bs)) [
    | yes l ↦
        let e : p ≡ o + (p - o) = omega arith in
        rw e (
          get_elem?-write_at_inside o (p - o) bs buf (omega arith) h
          ∙ ap some (inside (p - o) (omega arith) e))
    | no l ↦ get_elem?-write_at_above o p bs buf (omega arith) ∙ outside (inr (omega arith))
  ]
]

drop_heading : (h : Heading) (xs : List ℕ) → drop 16 (write_heading h ++ xs) ≡ xs
drop_heading h xs =
    ap (λ n. drop n (write_heading h ++ xs)) (sym (length-write_heading h))
    ∙ drop_exact (write_heading h) xs

-- The tests of `add_fragment` that do not look at the combiner.
pub record Passes (h : Heading) (bytes : List ℕ) : Type 0 where
  pub lengths : (ltb (length bytes) 16 || ltb 65511 (length bytes)) ≡ false
  pub nonzero : (h.frag_size == 0) ≡ false
  pub in_frames : leb (frames_of h) h.seq ≡ false
  pub in_room : ltb h.buf_sz (room_test h) ≡ false

add_fragment_later :
    (c : Combiner) (h : Heading) (bytes : List ℕ)
    → heading bytes ≡ h
    → Passes h bytes
    → (c.buffer_size == 0) ≡ false
    → (c.buffer_size == h.buf_sz) ≡ true
    → add_fragment c bytes ≡ receive c h bytes
unfolding add_fragment
add_fragment_later c h bytes e p new same =
    rw (e, p.lengths, p.nonzero, p.in_frames, p.in_room, new, same)

pub add_fragment_fresh :
    (c : Combiner) (h : Heading) (bytes : List ℕ)
    → heading bytes ≡ h
    → Passes h bytes
    → (c.buffer_size == 0) ≡ true
    → leb (2 ^ 31) (frames_of h) ≡ false
    → add_fragment c bytes ≡ receive (allocate c h) h bytes
unfolding add_fragment
add_fragment_fresh c h bytes e p new few =
    rw (e, p.lengths, p.nonzero, p.in_frames, p.in_room, new, few)

-- The last branch of `receive`.
receive_ok :
    (c : Combiner) (h : Heading) (bytes payload : List ℕ) (offset : ℕ)
    → h.seq < length c.found
    → (h.seq == (frames_of h - 1)) || (length bytes == ((h.frag_size + 16) % u32_mod)) ≡ true
    → (h.seq * h.frag_size) % u32_mod ≡ offset
    → drop 16 bytes ≡ payload
    → offset + (length bytes - 16) ≤ length c.buffer
    → receive c h bytes
      ≡ ok (
        true,
        record c { found = set c.found h.seq true; buffer = write_at offset payload c.buffer },
      )
unfolding receive
receive_ok c h bytes payload offset slot whole place rest room = rw (place, rest) (ground arith)

module _ (bytes : List ℕ) (f : ℕ) (fits : Fits (length bytes) f) where
  frames_of-label : (id q : ℕ) → frames_of (label bytes f id q) ≡ count (length bytes) f
  frames_of-label id q = ap (λ (t : ℕ). t / f) (omega (arith, fits.positive, fits.small))

  pub allocate-Holds : (id q : ℕ) → Holds bytes f [] (allocate init (label bytes f id q))
  unfolding init occurs
  allocate-Holds id q = record {
    sized = refl;
    room = length-replicate (length bytes) none;
    slots = length-replicate _ false ∙ frames_of-label id q;
    marked = λ s h. get_elem?-replicate _ s false (rw (frames_of-label id q) h);
    filled = λ s j o _ _ _. cc;
  }

  elsewhere :
      (q s j : ℕ)
      → q < count (length bytes) f
      → j < f
      → s * f + j < length bytes
      → (s * f + j < q * f) ⊎ (q * f + length (piece bytes f q) ≤ s * f + j)
      → s ≢ q
  elsewhere q s j h k l out e =
      let same = ap (λ (t : ℕ). t * f) e in
      omega (
        arith,
        same,
        out,
        length-piece bytes f fits q h,
        chunk_covers fits q j h k (omega (arith, same)),
      )

  pub next-Holds :
      (done : List ℕ) (c : Combiner) (q : ℕ)
      → q < count (length bytes) f
      → Holds bytes f done c
      → Holds bytes f (q ∷ done) (next bytes f c q)
  unfolding occurs
  next-Holds done c q h v = record {
    sized = v.sized;
    room = length-write_at (q * f) (piece bytes f q) c.buffer ∙ v.room;
    slots = length-set c.found q true ∙ v.slots;
    marked = λ s k. mark_slot c.found q s (occurs s done) (omega (arith, v.slots)) (v.marked s k);
    filled = λ s j o k l m.
        write_cases (q * f) (s * f + j) (piece bytes f q) c.buffer _
          (omega (arith, length-piece bytes f fits q h, chunk_inside fits q h, v.room))
          (λ i lt e.
            get_elem?-slice (q * f) _ i bytes (omega (arith, length-piece bytes f fits q h))
            ∙ ap (get_elem? bytes) (sym e))
          (λ out. v.filled s j (occurs_other done o (elsewhere q s j h l m out)) k l m);
  }

  length_ok :
      (id q : ℕ)
      → q < count (length bytes) f
      → (q == (frames_of (label bytes f id q) - 1))
          || (length (datagram bytes f id q) == ((f + 16) % u32_mod))
        ≡ true
  length_ok id q h =
      rw (frames_of-label id q, length-datagram bytes f fits id q h) (ground (arith, fits.datagram))

  receive-next :
      (done : List ℕ) (c : Combiner) (id q : ℕ)
      → q < count (length bytes) f
      → Holds bytes f done c
      → receive c (label bytes f id q) (datagram bytes f id q) ≡ ok (true, next bytes f c q)
  receive-next done c id q h v =
      receive_ok c (label bytes f id q) (datagram bytes f id q) (piece bytes f q) (q * f)
        (omega (arith, v.slots)) (length_ok id q h)
        (omega (arith, start_inside fits q h, fits.small))
        (drop_heading (label bytes f id q) (piece bytes f q))
        (omega (arith, length-datagram bytes f fits id q h, chunk_inside fits q h, v.room))

  room_test-lt :
      (id q : ℕ) → q < count (length bytes) f → room_test (label bytes f id q) < length bytes
  room_test-lt id q h =
      let e : (f + u32_mod - 1) % u32_mod ≡ f - 1 = omega (arith, fits.positive, fits.small) in
      rw e (omega (arith, ap (λ (t : ℕ). q * t) less, start_inside fits q h))
    where
      less : f - 1 + 1 ≡ f
      less = omega (arith, fits.positive)

  -- The guards of `add_fragment` let a fragment of the packet pass.
  guards :
      (id q : ℕ) → q < count (length bytes) f → Passes (label bytes f id q) (datagram bytes f id q)
  guards id q h = record {
    lengths =
        rw (length-datagram bytes f fits id q h) (ground (arith, chunk-le fits q h, fits.datagram));
    nonzero = ground (arith, fits.positive);
    in_frames = rw (frames_of-label id q) (ground arith);
    in_room = ground (arith, room_test-lt id q h);
  }

  -- A further fragment is taken.
  pub add_fragment-next :
      (done : List ℕ) (c : Combiner) (id q : ℕ)
      → id < u32_mod
      → q < count (length bytes) f
      → Holds bytes f done c
      → add_fragment c (datagram bytes f id q) ≡ ok (true, next bytes f c q)
  add_fragment-next done c id q small h v =
      add_fragment_later c (label bytes f id q) (datagram bytes f id q)
        (heading-datagram bytes f fits id q small h) (guards id q h)
        (ground (arith, v.sized, start_inside fits q h)) (ground (arith, v.sized))
      ∙ receive-next done c id q h v

  -- The first fragment is taken.
  pub add_fragment-first :
      (id q : ℕ)
      → id < u32_mod
      → q < count (length bytes) f
      → add_fragment init (datagram bytes f id q)
        ≡ ok (true, next bytes f (allocate init (label bytes f id q)) q)
  unfolding init
  add_fragment-first id q small h =
      add_fragment_fresh init (label bytes f id q) (datagram bytes f id q)
        (heading-datagram bytes f fits id q small h) (guards id q h) refl
        (rw (frames_of-label id q) (ground (arith, count-le fits, fits.small)))
      ∙ receive-next [] (allocate init (label bytes f id q)) id q h (allocate-Holds id q)
