-- ===== src/Tcp/Whole.antt =====
-- What `TcpSocket::Receive` of src/o3ds/tcp.cpp puts into the caller's memory.
use mathlib.Core.List.{append_assoc, append-nil}
use open3dstream.Base.{
  ℕ, ◌+◌, ◌-◌, ◌≤◌, List, [], ◌∷◌, ◌++◌, Option, some, true, false, length, take, drop, map, ltb,
  leb, lt→ltb, ◌≡◌, refl, sym, ap, ◌∙◌, inl, inr, Bool-cases, arith, length-append, length-take,
}
use open3dstream.Base.Buffers.{write_at, length-write_at}
use open3dstream.Base.Cuts.{
  take-write_at, map-append, take-past, drop-past, take-within, drop-within,
}
use open3dstream.Tcp.Receive.{
  Read, got, closed, would_block, failed, returned, Ended, ended, receive_loop, receive,
}

-- The bytes of the chunks, and the chunks as answers.
abbrev pub joined : List (List ℕ) → List ℕ
joined [] = []
joined (bs ∷ bss) = bs ++ joined bss

abbrev pub chunks : List (List ℕ) → List Read
chunks [] = []
chunks (bs ∷ bss) = got bs ∷ chunks bss

abbrev pub NonEmpty : List (List ℕ) → Type 0
NonEmpty [] = Unit {0}
NonEmpty ([] ∷ bss) = ⊥
NonEmpty ((b ∷ bs) ∷ bss) = NonEmpty bss

-- The first `len` cells hold what was there before and the next bytes; the answers that are left have
-- the bytes after those.
pub record IsWhole (len : ℕ) (before bytes : List ℕ) (e : Ended) : Type 0 where
  pub ends : e.how ≡ returned
  pub filled : take len e.block ≡ map some (before ++ take (len - length before) bytes)
  pub remains :
      (bss : List (List ℕ)) × (e.rest ≡ chunks bss)
      × (joined bss ≡ drop (len - length before) bytes)

-- Where the loop stands.
record Stands (len count : ℕ) (before bytes : List ℕ) (block : List (Option ℕ)) : Type 0 where
  so_far : take count block ≡ map some before
  counted : length before ≡ count
  in_range : count ≤ len
  room : len ≤ length block
  enough : len - count ≤ length bytes

full_loop :
    (len count : ℕ) (before : List ℕ) (bss : List (List ℕ)) (block : List (Option ℕ))
    → Stands len count before (joined bss) block
    → len ≤ count
    → IsWhole len before (joined bss) (ended returned block (chunks bss))
full_loop len count before bss block s h =
    let z : len - length before ≡ 0 = omega (arith, h, s.counted) in
    record {
      ends = refl;
      filled =
          ap (λ k. take k block) (omega (arith, h, s.in_range))
          ∙ s.so_far
          ∙ ap (λ xs. map some xs)
              (sym (append-nil before) ∙ ap (λ k. before ++ take k (joined bss)) (sym z));
      remains = (bss, refl, ap (λ k. drop k (joined bss)) (sym z));
    }

-- A chunk that there is room for.
next-Stands :
    (len count : ℕ) (before bs : List ℕ) (bss : List (List ℕ)) (block : List (Option ℕ))
    → Stands len count before (joined (bs ∷ bss)) block
    → count + length bs ≤ len
    → Stands len (count + length bs) (before ++ bs) (joined bss) (write_at count bs block)
next-Stands len count before bs bss block s k = record {
  so_far =
      take-write_at (count + length bs) count bs block refl (omega (arith, k, s.room))
      ∙ ap (λ xs. xs ++ map some bs) s.so_far
      ∙ sym (map-append before bs);
  counted = omega (arith, length-append before bs, s.counted);
  in_range = k;
  room = omega (arith, length-write_at count bs block, s.room);
  enough = omega (arith, length-append bs (joined bss), s.enough);
}

next-IsWhole :
    (len : ℕ) (before bs ys : List ℕ) (e : Ended)
    → length before + length bs ≤ len
    → IsWhole len (before ++ bs) ys e
    → IsWhole len before (bs ++ ys) e
next-IsWhole len before bs ys e h r =
    let n = len - length before in
    let same : len - length (before ++ bs) ≡ n - length bs =
      omega (arith, length-append before bs, h) in
    let (bss, p, q) = r.remains in
    record {
      ends = r.ends;
      filled =
          r.filled
          ∙ ap (λ xs. map some xs)
              (append_assoc before bs (take (len - length (before ++ bs)) ys)
                ∙ ap (λ k. before ++ (bs ++ take k ys)) same
                ∙ ap (λ xs. before ++ xs) (sym (take-past n bs ys (omega (arith, h)))));
      remains = (bss, p, q ∙ ap (λ k. drop k ys) same ∙ sym (drop-past n bs ys (omega (arith, h))));
    }

-- A chunk that is cut.
cut-IsWhole :
    (len count : ℕ) (before bs : List ℕ) (bss : List (List ℕ)) (block : List (Option ℕ))
    → Stands len count before (joined (bs ∷ bss)) block
    → len - count ≤ length bs
    → let n = len - count in
      IsWhole len before
        (joined (bs ∷ bss))
        (ended returned (write_at count (take n bs) block) (chunks (drop n bs ∷ bss)))
cut-IsWhole len count before bs bss block s h =
    let n = len - count in
    let same : len - length before ≡ n = omega (arith, s.counted) in
    record {
      ends = refl;
      filled =
          take-write_at len count (take n bs) block (omega (arith, length-take n bs, h, s.in_range))
            s.room
          ∙ ap (λ xs. xs ++ map some (take n bs)) s.so_far
          ∙ sym (map-append before (take n bs))
          ∙ ap (λ xs. map some (before ++ xs))
              (sym (take-within n bs (joined bss) h)
                ∙ ap (λ k. take k (bs ++ joined bss)) (sym same));
      remains = (
        drop n bs ∷ bss,
        refl,
        drop-within n bs (joined bss) h ∙ ap (λ k. drop k (bs ++ joined bss)) (sym same),
      );
    }

receive_loop-IsWhole :
    (len count recd : ℕ) (before : List ℕ) (bss : List (List ℕ)) (block : List (Option ℕ))
    → NonEmpty bss
    → Stands len count before (joined bss) block
    → IsWhole len before (joined bss) (receive_loop len count recd block (chunks bss))
unfolding receive_loop
receive_loop-IsWhole len count recd before [] block f s =
    let n : ltb count len ≡ false = ground (arith, s.enough) in
    rw (n) (full_loop len count before [] block s (omega (arith, s.enough)))
receive_loop-IsWhole len count recd before ([] ∷ bss) block f s = absurd f
receive_loop-IsWhole len count recd before ((b ∷ cs) ∷ bss) block f s =
    let bs = b ∷ cs in
    elim (Bool-cases (ltb count len)) [
      | inr n ↦ rw (n) (full_loop len count before (bs ∷ bss) block s (ground (arith, n)))
      | inl y ↦ elim (Bool-cases (leb (length bs) (len - count))) [
        | inl w ↦
            rw (y, w)
              (let k : count + length bs ≤ len = ground (arith, w, y) in
                next-IsWhole len before bs (joined bss) _ (omega (arith, k, s.counted)) (
                  receive_loop-IsWhole len (count + length bs) (length bs) (before ++ bs) bss
                    (write_at count bs block) f (next-Stands len count before bs bss block s k)))
        | inr w ↦ rw (y, w) (cut-IsWhole len count before bs bss block s (ground (arith, w)))
      ]
    ]

full :
    (len count recd : ℕ) (block : List (Option ℕ)) (rs : List Read)
    → len ≤ count
    → receive_loop len count recd block rs ≡ ended returned block rs
unfolding receive_loop
full len count recd block rs h = by_answer rs
  where
    n : ltb count len ≡ false
    n = ground (arith, h)

    by_answer : (rs : List Read) → receive_loop len count recd block rs ≡ ended returned block rs
    by_answer [] = rw (n) refl
    by_answer (got [] ∷ rs) = rw (n) refl
    by_answer (got (b ∷ bs) ∷ rs) = rw (n) refl
    by_answer (closed ∷ rs) = rw (n) refl
    by_answer (would_block ∷ rs) = rw (n) refl
    by_answer (failed ∷ rs) = rw (n) refl

-- A call that would have to wait after the first chunk.
receive-counts_twice :
    (a : ℕ) (as_ : List ℕ) (block : List (Option ℕ)) (rs : List Read)
    → let bs = a ∷ as_ in
      receive (length bs + length bs) block (got bs ∷ would_block ∷ rs)
      ≡ ended returned (write_at 0 bs block) rs
unfolding receive receive_loop
receive-counts_twice a as_ block rs =
    let bs = a ∷ as_ in
    let n = length bs in
    let a : ltb 0 (n + n) ≡ true = lt→ltb 0 (n + n) (omega arith) in
    let b : leb n (n + n - 0) ≡ true = le→leb n (n + n - 0) (omega arith) in
    let c : ltb (0 + n) (n + n) ≡ true = lt→ltb (0 + n) (n + n) (omega arith) in
    rw (a, b, c) (full (n + n) (0 + n + n) n (write_at 0 bs block) rs (omega arith))
  where
    le→leb : (a b : ℕ) → a ≤ b → leb a b ≡ true
    le→leb a b h = ground arith

-- Into a block of `len` cells or more, from a `recv` that answers with the chunks one after the other,
-- none of which is empty and which have as many bytes: `Receive` returns, the first `len` cells hold
-- the first `len` bytes of the chunks, however these cut them, and the rest of the bytes comes next.
-- But where the call would have to wait after a first chunk of half the bytes, `Receive` counts that
-- chunk a second time: it returns with the other half of the block as it was.
pub receive-IsWhole :
    (len : ℕ) (bss : List (List ℕ)) (block : List (Option ℕ))
    → NonEmpty bss
    → len ≤ length block
    → len ≤ length (joined bss)
    → IsWhole len [] (joined bss) (receive len block (chunks bss))
      × ((b : ℕ) (bs : List ℕ) (rs : List Read)
          → let half = length (b ∷ bs) in
            receive (half + half) block (got (b ∷ bs) ∷ would_block ∷ rs)
            ≡ ended returned (write_at 0 (b ∷ bs) block) rs)
unfolding receive
receive-IsWhole len bss block f h k = (
  receive_loop-IsWhole len 0 0 [] bss block f (record {
    so_far = refl;
    counted = refl;
    in_range = omega arith;
    room = h;
    enough = omega (arith, k);
  }),
  λ b bs rs. receive-counts_twice b bs block rs,
)
