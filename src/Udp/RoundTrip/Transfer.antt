-- ===== src/Udp/RoundTrip/Transfer.antt =====
-- A whole packet through `UdpFragmenter` and `UdpCombiner` of src/o3ds/udp_fragment.cpp.
use native.Mathlib.Nat.{div-add-mod', mod-lt}
use open3dstream.Base.{
  ℕ, zero, suc, ◌+◌, ◌*◌, ◌/◌, ◌%◌, ◌<◌, ◌≡◌, refl, ◌∙◌, ◌↔◌, List, [], ◌∷◌, arith, length, Bool,
  true, ◌||◌, some, get_elem?, ap,
}
use open3dstream.Base.Buffers.{read_all, read_all-eq}
use open3dstream.Base.Words.{u32_mod}
use open3dstream.Udp.Wire.{Result, ok, ◌>>=◌}
use open3dstream.Udp.Chunks.{Fits, count, owner-lt}
use open3dstream.Udp.Fragmenter
use open3dstream.Udp.Fragmenter.{Fragmenter, make_fragment}
use open3dstream.Udp.Combiner
use open3dstream.Udp.Combiner.{Combiner, allocate, all_true, is_complete, add_fragment}
use open3dstream.Udp.RoundTrip.Sender.{init-sender, make_fragment-datagram, sender, label}
use open3dstream.Udp.RoundTrip.Receiver.{
  occurs, Holds, next, next-Holds, allocate-Holds, add_fragment-next, add_fragment-first,
}

-- Send the fragments with these numbers, in this order, and hand each to the combiner.
unfoldable pub deliver : Fragmenter → ℕ → List ℕ → Combiner → Result Combiner
deliver f id [] c = ok c
deliver f id (q ∷ qs) c = do
  bytes ← make_fragment f id q
  r ← add_fragment c bytes
  deliver f id qs r.1

unfoldable pub transfer : List ℕ → ℕ → ℕ → List ℕ → Result Combiner
unfolding deliver
transfer bytes size id order = do f ← Fragmenter.init bytes size; deliver f id order Combiner.init

-- Every number of the list is below the bound.
abbrev pub AllBelow : ℕ → List ℕ → Type 0
AllBelow n [] = Unit {0}
AllBelow n (q ∷ qs) = (q < n) × AllBelow n qs

-- Each of the first `n` fragments is sent at least once.
abbrev pub Covers : ℕ → List ℕ → Type 0
Covers n order = (s : ℕ) → s < n → occurs s order ≡ true

all_true_iff :
    (bs : List Bool) → (all_true bs ≡ true) ↔ ((i : ℕ) → i < length bs → get_elem? bs i ≡ some true)
unfolding all_true
all_true_iff bs = (to bs, from bs)
  where
    to :
        (xs : List Bool) → all_true xs ≡ true → (i : ℕ) → i < length xs → get_elem? xs i ≡ some true
    to [] e i h = elim h [ ]
    to (x ∷ xs) e zero h = ground arith
    to (x ∷ xs) e (suc i) h = to xs (ground arith) i (omega arith)

    from :
        (xs : List Bool)
        → ((i : ℕ) → i < length xs → get_elem? xs i ≡ some true)
        → all_true xs ≡ true
    from [] h = refl
    from (x ∷ xs) h = ground (arith, h 0 (omega arith), from xs (λ i k. h (suc i) (omega arith)))

abbrev push_all : List ℕ → List ℕ → List ℕ
push_all [] done = done
push_all (q ∷ qs) done = push_all qs (q ∷ done)

occurs-push_all :
    (s : ℕ) (qs done : List ℕ) → occurs s (push_all qs done) ≡ occurs s qs || occurs s done
unfolding occurs
occurs-push_all s [] done = refl
occurs-push_all s (q ∷ qs) done = ground (arith, occurs-push_all s qs (q ∷ done))

-- The order in which the numbers are recorded does not matter.
Covers-push_all : (n q : ℕ) (qs : List ℕ) → Covers n (push_all qs (q ∷ [])) ↔ Covers n (q ∷ qs)
unfolding occurs
Covers-push_all n q qs = (
  (λ all s h. ground (arith, all s h, occurs-push_all s qs (q ∷ []))),
  (λ all s h. ground (arith, all s h, occurs-push_all s qs (q ∷ []))),
)

module _ (bytes : List ℕ) (f id : ℕ) (fits : Fits (length bytes) f) (small : id < u32_mod) where
  deliver-Holds :
      (qs done : List ℕ) (c : Combiner)
      → AllBelow (count (length bytes) f) qs
      → Holds bytes f done c
      → (d : Combiner) × (deliver (sender bytes f) id qs c ≡ ok d)
        × Holds bytes f (push_all qs done) d
  unfolding deliver
  deliver-Holds [] done c b v = (c, refl, v)
  deliver-Holds (q ∷ qs) done c b v =
      let (d, e, w) =
        deliver-Holds qs (q ∷ done) (next bytes f c q) b.1
          (next-Holds bytes f fits done c q b.0 v) in
      (
        d,
        rw
            (
              make_fragment-datagram bytes f fits id q b.0,
              add_fragment-next bytes f fits done c id q small b.0 v,
            )
            e,
        w,
      )

  -- A combiner that holds some fragments is complete if these are all.
  pub complete_iff :
      (done : List ℕ) (c : Combiner)
      → Holds bytes f done c
      → (is_complete c ≡ true) ↔ Covers (count (length bytes) f) done
  unfolding is_complete
  complete_iff done c v =
      let iff = all_true_iff c.found in
      (
        (λ e s h.
            let k : s < length c.found = omega (arith, v.slots) in cc (v.marked s h, iff.0 e s k)),
        (λ all. iff.1 (λ i h.
            let k : i < count (length bytes) f = omega (arith, v.slots) in
            v.marked i k ∙ ap some (all i k))),
      )

  -- Then it has the packet's bytes.
  pub Holds-bytes :
      (done : List ℕ) (c : Combiner)
      → Holds bytes f done c
      → Covers (count (length bytes) f) done
      → read_all c.buffer ≡ some bytes
  Holds-bytes done c v all = read_all-eq c.buffer bytes v.room (λ p h. cell p h)
    where
      cell : (p : ℕ) → p < length bytes → get_elem? c.buffer p ≡ some (get_elem? bytes p)
      cell p h =
          let e : p / f * f + p % f ≡ p = div-add-mod' p f in
          rw e at (
            v.filled (p / f) (p % f) (all (p / f) (owner-lt fits p h)) (owner-lt fits p h)
              (mod-lt p fits.positive) (omega (arith, e)))

-- Any packet whose sizes fit the wire format, cut into fragments by `UdpFragmenter`, of which any
-- non-empty selection is handed to a new `UdpCombiner`, in any order and as often as one likes:
-- nothing goes wrong, the combiner says that it is complete exactly when every fragment was among
-- them, and then its buffer holds the bytes of the packet.
pub transfer_roundtrip :
    (bytes : List ℕ) (f id q : ℕ) (qs : List ℕ)
    → Fits (length bytes) f
    → id < u32_mod
    → AllBelow (count (length bytes) f) (q ∷ qs)
    → (c : Combiner) × (transfer bytes f id (q ∷ qs) ≡ ok c)
      × ((is_complete c ≡ true) ↔ Covers (count (length bytes) f) (q ∷ qs))
      × (Covers (count (length bytes) f) (q ∷ qs) → read_all c.buffer ≡ some bytes)
unfolding transfer
transfer_roundtrip bytes f id q qs fits small b =
    let c = allocate Combiner.init (label bytes f id q) in
    let v = next-Holds bytes f fits [] c q b.0 (allocate-Holds bytes f fits id q) in
    let (d, e, w) = deliver-Holds bytes f id fits small qs (q ∷ []) (next bytes f c q) b.1 v in
    let order = Covers-push_all (count (length bytes) f) q qs in
    (
      d,
      rw
          (
            init-sender bytes f fits,
            make_fragment-datagram bytes f fits id q b.0,
            add_fragment-first bytes f fits id q small b.0,
          )
          e,
      (
        (λ t. order.0 ((complete_iff bytes f id fits small _ d w).0 t)),
        (λ all. (complete_iff bytes f id fits small _ d w).1 (order.1 all)),
      ),
      (λ all. Holds-bytes bytes f id fits small _ d w (order.1 all)),
    )
