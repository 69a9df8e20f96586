-- ===== src/Connector/Delivered.antt =====
-- What the reads that make the caller's memory longer leave (src/o3ds/nng_connector.cpp).
use Prim.Native.String.{String}
use open3dstream.Base.Options.{◌>>=◌}
use open3dstream.Base.Buffers.{write_at}
use open3dstream.Base.{
  ℕ, ◌-◌, List, [], ◌∷◌, Option, some, none, Bool, true, false, length, take, map, replicate, ltb,
  ◌≤◌, ◌<◌, ◌≡◌, refl, ap, arith, ltb→lt, length-take, length-append, length-replicate, inl, inr,
  Bool-cases,
}
use open3dstream.Connector.{Code, Connector, body, take_message}
use open3dstream.Connector.Read.{Block, copy-all, free-take, reply_of}
use open3dstream.Connector.Grown.{
  null, dangling, points_to, Buffer, Allocation, no_memory, in_place, elsewhere, resized, copy_to,
  take_body, after_allocation, blocking_grow, async_grow, blocking_read_grown, async_read_grown,
}

-- The message is at the start of a block that the caller's pointer points to, nothing else of the
-- connector is changed, and the message is freed.
pub record Delivered (bytes : List ℕ) (size : ℕ) (c : Connector)
    (o : Option (ℕ × Option Buffer × Connector)) : Type 0 where
  pub block : Block
  pub answered : o ≡ some (length bytes, some (record { place = points_to block; size = size }), c)
  pub starts : take (length bytes) block ≡ map some bytes

take-write_at :
    (bytes : List ℕ) (block : Block)
    → length bytes ≤ length block
    → take (length bytes) (write_at 0 bytes block) ≡ map some bytes
take-write_at [] block h = refl
take-write_at (b ∷ bs) [] h = absurd (omega arith)
take-write_at (b ∷ bs) (c ∷ block) h = ap (λ xs. some b ∷ xs) (take-write_at bs block (omega arith))

copy_to-points_to :
    (bytes : List ℕ) (block : Block)
    → length bytes ≤ length block
    → copy_to bytes (points_to block) ≡ some (points_to (write_at 0 bytes block))
unfolding copy_to
copy_to-points_to [] block h = refl
copy_to-points_to (b ∷ bs) block h = rw (copy-all (length (b ∷ bs)) (b ∷ bs) block refl h) refl

abbrev blank : Option ℕ
blank = none

length-resized : (n : ℕ) (block : Block) → n ≤ length (resized n block)
length-resized n block = omega (
  arith,
  length-append (take n block) (replicate (n - length block) none),
  length-take n block,
  length-replicate (n - length block) blank,
)

take_body-Delivered :
    (bytes : List ℕ) (block : Block) (n : ℕ) (c : Connector)
    → length bytes ≤ length block
    → take_body (body bytes) (record { place = points_to block; size = n }) (take_message c)
      ≡ some (length bytes, record { place = points_to (write_at 0 bytes block); size = n }, c)
unfolding take_body
take_body-Delivered bytes block n c h = rw (copy_to-points_to bytes block h) (
    ap
      (λ (d : Connector).
        some (length bytes, record { place = points_to (write_at 0 bytes block); size = n }, d))
      (free-take c))

-- A copy to where there is no memory.
copy_to-nowhere :
    (bytes : List ℕ)
    → 0 < length bytes
    → (copy_to bytes null ≡ none) × (copy_to bytes dangling ≡ none)
unfolding copy_to
copy_to-nowhere [] h = absurd (omega arith)
copy_to-nowhere (b ∷ bs) h = (refl, refl)

-- Memory that was just allocated has room.
fresh-room : (n : ℕ) → n ≤ length (replicate n blank)
fresh-room n = omega (arith, length-replicate n blank)

-- Nothing is delivered, nothing noted, and the message is not freed.
abbrev Kept : Buffer → Connector → Option (ℕ × Option Buffer × Connector) → Type 0
Kept b c o = o ≡ some (0, some b, take_message c)

-- What is left where the memory must be longer: with the blocking connector, and the asynchronous.
abbrev pub Grows :
    Allocation → List ℕ → Buffer → Connector → Option (ℕ × Option Buffer × Connector) → Type 0
Grows no_memory bytes b c o = Kept b c o
Grows in_place bytes b c o = Delivered bytes (length bytes) c o
Grows elsewhere bytes b c o = Delivered bytes (length bytes) c o

abbrev pub MayGrow :
    Allocation → List ℕ → Buffer → Connector → Option (ℕ × Option Buffer × Connector) → Type 0
MayGrow no_memory bytes b c o = Kept b c o
MayGrow in_place bytes b c o = Delivered bytes (length bytes) c o
MayGrow elsewhere bytes b c o = o ≡ none

abbrev ByLength : Bool → Type 0 → Type 0 → Type 0
ByLength true longer fits = longer
ByLength false longer fits = fits

abbrev pointing : Block → ℕ → Buffer
pointing block len = record { place = points_to block; size = len }

abbrev unset : Buffer
unset = record { place = null; size = 0 }

not-ltb : {m n : ℕ} → ltb n m ≡ false → m ≤ n
not-ltb h = ground (arith, h)

module _ (strerror : Code → String) (bytes : List ℕ) (c : Connector) where
  abbrev pub blocking : Allocation → Buffer → Option (ℕ × Option Buffer × Connector)
  blocking a b = blocking_read_grown strerror (reply_of bytes) a (some b) c

  abbrev pub polled : Allocation → Buffer → Option (ℕ × Option Buffer × Connector)
  polled a b = async_read_grown strerror (reply_of bytes) a (some b) c

  in_block :
      (block : Block) (n : ℕ)
      → length bytes ≤ length block
      → Delivered bytes n c (
          some (
            length bytes,
            some (record { place = points_to (write_at 0 bytes block); size = n }),
            c,
          ))
  in_block block n h = record {
    block = write_at 0 bytes block;
    answered = refl;
    starts = take-write_at bytes block h;
  }

  fits-Delivered :
      (a : Allocation) (block : Block) (len : ℕ)
      → len ≤ length block
      → ltb len (length bytes) ≡ false
      → Delivered bytes (length bytes) c (blocking a (pointing block len))
        × Delivered bytes len c (polled a (pointing block len))
  unfolding blocking_read_grown async_read_grown blocking_grow async_grow
  fits-Delivered a block len h z =
      let m : length bytes ≤ length block = omega (arith, not-ltb z, h) in
      rw
        (
          z,
          take_body-Delivered bytes block (length bytes) c m,
          take_body-Delivered bytes block len c m,
        )
        (in_block block (length bytes) m, in_block block len m)

  longer-Grows :
      (a : Allocation) (block : Block) (len : ℕ)
      → ltb len (length bytes) ≡ true
      → Grows a bytes (pointing block len) c (blocking a (pointing block len))
        × MayGrow a bytes (pointing block len) c (polled a (pointing block len))
  unfolding blocking_read_grown async_read_grown blocking_grow async_grow after_allocation
  longer-Grows no_memory block len y = rw (y) (refl, refl)
  longer-Grows in_place block len y =
      let m = length-resized (length bytes) block in
      rw (y, take_body-Delivered bytes (resized (length bytes) block) (length bytes) c m)
        (
          in_block (resized (length bytes) block) (length bytes) m,
          in_block (resized (length bytes) block) (length bytes) m,
        )
  longer-Grows elsewhere block len y =
      let m = length-resized (length bytes) block in
      rw (y, take_body-Delivered bytes (resized (length bytes) block) (length bytes) c m)
        (
          in_block (resized (length bytes) block) (length bytes) m,
          rw ((copy_to-nowhere bytes (omega (arith, ltb→lt len (length bytes) y))).1) refl,
        )

  in_fresh : Delivered bytes (length bytes) c (
      take_body
        (body bytes)
        (pointing (replicate (length bytes) blank) (length bytes))
        (take_message c)
      >>= λ q. some (q.0, some q.1, q.2))
  in_fresh =
      let m = fresh-room (length bytes) in
      rw (take_body-Delivered bytes (replicate (length bytes) blank) (length bytes) c m)
        (in_block (replicate (length bytes) blank) (length bytes) m)

  unset-Grows : (a : Allocation) → Grows a bytes unset c (blocking a unset)
  unfolding blocking_read_grown blocking_grow after_allocation
  unset-Grows no_memory = refl
  unset-Grows in_place = in_fresh
  unset-Grows elsewhere = in_fresh

  -- The caller has a block of `len` cells or more. The blocking connector delivers a message of any
  -- length, at the start of the block or of one that takes its place, and gives back the length of the
  -- message as the size; so it does to a caller without a block. The asynchronous connector delivers a
  -- message that is not longer than `len`, and leaves the size as it was; if a longer one makes the
  -- block move, it writes to the block that was freed. If there is no memory, both answer 0 with no
  -- error and do not free the message.
  pub grown-Delivered :
      (a : Allocation) (block : Block) (len : ℕ)
      → len ≤ length block
      → let b = pointing block len in
        let longer = ltb len (length bytes) in
        ByLength longer
          (Grows a bytes b c (blocking a b))
          (Delivered bytes (length bytes) c (blocking a b))
        × Grows a bytes unset c (blocking a unset)
        × ByLength longer (MayGrow a bytes b c (polled a b)) (Delivered bytes len c (polled a b))
  grown-Delivered a block len h = elim (Bool-cases (ltb len (length bytes))) [
    | inl y ↦ let (g, k) = longer-Grows a block len y in rw (y) (g, unset-Grows a, k)
    | inr z ↦ let (g, k) = fits-Delivered a block len h z in rw (z) (g, unset-Grows a, k)
  ]
