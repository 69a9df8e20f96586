-- ===== src/Stream/RoundTrip.antt =====
-- What is put into a `BinaryStream` (src/o3ds/binary_stream.cpp) is taken from it.
use Prim.Native.Nat.add
use native.Mathlib.Nat.{mod-eq_of_lt}
use mathlib.Core.List.{append_assoc, append-nil}
use mathlib.Core.Path.{subst}
use open3dstream.Base.{
  ℕ, zero, suc, ◌+◌, ◌%◌, ◌/◌, ◌≤◌, ◌<◌, List, [], ◌∷◌, ◌++◌, map, some, false, length,
  length-append, length-drop, get_or, take, drop, ltb, leb, ◌≡◌, refl, sym, ap, ◌∙◌, arith,
}
use open3dstream.Base.Buffers.{slice}
use open3dstream.Base.Words.{u16_mod, to_bytes, of_bytes, length-to_bytes}
use open3dstream.Stream.{
  Stream, value, get_raw, push_raw, get_word, push_word, get_byte, get_vector, push_vector,
  get_text, push_text,
}
use open3dstream.Stream.Items.{
  Item, byte, u16, u32, u64, float, double, vector, text, shape_of, push, push_all, get, get_all,
  Fits, AllFit,
}

-- A word of `n` bytes.
abbrev IsWord : ℕ → ℕ → Type 0
IsWord zero x = x ≡ 0
IsWord (suc n) x = IsWord n (x / 256)

of_bytes-to_bytes : (n x : ℕ) → IsWord n x → of_bytes (to_bytes n x) ≡ x
unfolding of_bytes to_bytes
of_bytes-to_bytes zero x h = sym h
of_bytes-to_bytes (suc n) x h = omega (arith, of_bytes-to_bytes n (x / 256) h)

take-length : {A : Type 0} (xs ys : List A) → take (length xs) (xs ++ ys) ≡ xs
take-length [] ys = refl
take-length (x ∷ xs) ys = ap (λ zs. x ∷ zs) (take-length xs ys)

drop-length : {A : Type 0} (xs ys : List A) → drop (length xs) (xs ++ ys) ≡ ys
drop-length [] ys = refl
drop-length (x ∷ xs) ys = drop-length xs ys

drop_nil : {A : Type 0} (n : ℕ) → drop {A = A} n [] ≡ []
drop_nil zero = refl
drop_nil (suc n) = refl

drop-drop : {A : Type 0} (m n : ℕ) (xs : List A) → drop n (drop m xs) ≡ drop (m + n) xs
drop-drop zero n xs = rw (add.zero n) refl
drop-drop (suc m) n [] = rw (add.suc m n) (drop_nil n)
drop-drop (suc m) n (x ∷ xs) = rw (add.suc m n) (drop-drop m n xs)

get_or-drop : (m : ℕ) (xs : List ℕ) (d : ℕ) → get_or (drop m xs) 0 d ≡ get_or xs m d
get_or-drop zero xs d = refl
get_or-drop (suc m) [] d = refl
get_or-drop (suc m) (x ∷ xs) d = get_or-drop m xs d

-- What comes next in a stream.
pub record Ahead (bs rest : List ℕ) (s : Stream) : Type 0 where
  pub inside : s.ptr ≤ length s.bytes
  pub next : drop s.ptr s.bytes ≡ bs ++ rest
  pub plain : s.swaporder ≡ false

abbrev pub skip : ℕ → Stream → Stream
skip n s = record s { ptr = s.ptr + n }

pub size-Ahead :
    (bs rest : List ℕ) (s : Stream)
    → Ahead bs rest s
    → length s.bytes ≡ s.ptr + (length bs + length rest)
size-Ahead bs rest s h =
    omega (
      arith,
      h.inside,
      length-drop s.ptr s.bytes,
      ap (λ xs. length xs) h.next,
      length-append bs rest,
    )

pub slice-Ahead :
    (bs rest : List ℕ) (s : Stream) → Ahead bs rest s → slice s.ptr (length bs) s.bytes ≡ bs
slice-Ahead bs rest s h = ap (λ xs. take (length bs) xs) h.next ∙ take-length bs rest

skip-Ahead :
    (gs bs rest : List ℕ) (s : Stream)
    → Ahead (gs ++ bs) rest s
    → Ahead bs rest (skip (length gs) s)
skip-Ahead gs bs rest s h = record {
  inside = omega (arith, size-Ahead (gs ++ bs) rest s h, length-append gs bs);
  next =
      sym (drop-drop s.ptr (length gs) s.bytes)
      ∙ ap (λ xs. drop (length gs) xs) (h.next ∙ append_assoc gs bs rest)
      ∙ drop-length gs (bs ++ rest);
  plain = h.plain;
}

first-Ahead : (gs bs rest : List ℕ) (s : Stream) → Ahead (gs ++ bs) rest s → Ahead gs (bs ++ rest) s
first-Ahead gs bs rest s h = record {
  inside = h.inside;
  next = h.next ∙ append_assoc gs bs rest;
  plain = h.plain;
}

get_word-Ahead :
    (n x : ℕ) (rest : List ℕ) (s : Stream)
    → 0 < n
    → IsWord n x
    → Ahead (to_bytes n x) rest s
    → get_word n s ≡ value x (skip n s)
unfolding get_word get_raw
get_word-Ahead n x rest s l w h =
    let z = size-Ahead (to_bytes n x) rest s h in
    let k = length-to_bytes n x in
    let a : ltb (length s.bytes) (s.ptr + n) ≡ false = ground (arith, z, k) in
    let b : leb (length s.bytes) s.ptr ≡ false = ground (arith, z, k) in
    let c : slice s.ptr n s.bytes ≡ to_bytes n x =
      ap (λ i. slice s.ptr i s.bytes) (sym k) ∙ slice-Ahead (to_bytes n x) rest s h in
    rw (a, b, c, h.plain, of_bytes-to_bytes n x w, get_word, get_raw) refl

first_byte :
    (b : ℕ) (rest : List ℕ) (s : Stream) → Ahead (b ∷ []) rest s → get_or s.bytes s.ptr 0 ≡ b
first_byte b rest s h = sym (get_or-drop s.ptr s.bytes 0) ∙ ap (λ xs. get_or xs 0 0) h.next

get_byte-Ahead :
    (b : ℕ) (rest : List ℕ) (s : Stream) → Ahead (b ∷ []) rest s → get_byte s ≡ value b (skip 1 s)
unfolding get_byte
get_byte-Ahead b rest s h =
    let a : leb (length s.bytes) s.ptr ≡ false = ground (arith, size-Ahead (b ∷ []) rest s h) in
    rw (a, first_byte b rest s h, get_byte) refl

get_text-Ahead :
    (cs rest : List ℕ) (s : Stream)
    → Ahead ((length cs) ∷ cs) rest s
    → get_text s ≡ value cs (record s { ptr = s.ptr + 1 + length cs })
unfolding get_text
get_text-Ahead cs rest s h =
    let z = size-Ahead ((length cs) ∷ cs) rest s h in
    let e = first_byte (length cs) (cs ++ rest) s (first-Ahead (length cs ∷ []) cs rest s h) in
    let a : leb (length s.bytes) s.ptr ≡ false = ground (arith, z) in
    let b : ltb (length s.bytes) (length cs + (s.ptr + 1)) ≡ false = ground (arith, z) in
    let c = slice-Ahead cs rest (skip 1 s) (skip-Ahead (length cs ∷ []) cs rest s h) in
    rw (e, a, b, c, get_text) refl

get_vector-Ahead :
    (bs rest : List ℕ) (s : Stream)
    → length bs < u16_mod
    → Ahead (to_bytes 2 (length bs) ++ bs) rest s
    → get_vector [] s ≡ value bs (skip (length bs) (skip 2 s))
unfolding get_vector
get_vector-Ahead bs rest s l h =
    let e =
      get_word-Ahead 2 (length bs) (bs ++ rest) s (omega arith) (omega arith)
        (first-Ahead (to_bytes 2 (length bs)) bs rest s h) in
    let k : Ahead bs rest (skip 2 s) =
      subst (λ i. Ahead bs rest (skip i s)) (length-to_bytes 2 (length bs))
        (skip-Ahead (to_bytes 2 (length bs)) bs rest s h) in
    let a : ltb (length s.bytes) (s.ptr + 2 + length bs) ≡ false =
      ground (arith, size-Ahead bs rest (skip 2 s) k) in
    rw (e, a, slice-Ahead bs rest (skip 2 s) k, get_vector) refl

mod_small : (x n : ℕ) → x < n → x % n ≡ x
mod_small x n h = mod-eq_of_lt h

-- What a value is in the stream.
abbrev bytes_of : Item → List ℕ
bytes_of (byte b) = b ∷ []
bytes_of (u16 x) = to_bytes 2 x
bytes_of (u32 x) = to_bytes 4 x
bytes_of (u64 x) = to_bytes 8 x
bytes_of (float x) = to_bytes 4 x
bytes_of (double x) = to_bytes 8 x
bytes_of (vector bs) = to_bytes 2 (length bs) ++ bs
bytes_of (text cs) = length cs ∷ cs

push-bytes_of : (i : Item) (s : Stream) → Fits i → push i s ≡ push_raw (bytes_of i) s
unfolding push push_word push_vector push_text
push-bytes_of (byte b) s h = ap (λ x. push_raw (x ∷ []) s) (mod_small b 256 h)
push-bytes_of (u16 x) s h = refl
push-bytes_of (u32 x) s h = refl
push-bytes_of (u64 x) s h = refl
push-bytes_of (float x) s h = refl
push-bytes_of (double x) s h = refl
push-bytes_of (vector bs) s h =
    ap (λ x. push_raw bs (push_raw (to_bytes 2 x) s)) (mod_small (length bs) u16_mod h)
    ∙ ap (λ xs. record s { bytes = xs }) (append_assoc s.bytes (to_bytes 2 (length bs)) bs)
push-bytes_of (text cs) s h =
    ap (λ x. push_raw cs (push_raw (x ∷ []) s)) (mod_small (length cs) 256 h)
    ∙ ap (λ xs. record s { bytes = xs }) (append_assoc s.bytes (length cs ∷ []) cs)

get-Ahead :
    (i : Item) (rest : List ℕ) (s : Stream)
    → Fits i
    → Ahead (bytes_of i) rest s
    → get (shape_of i) s ≡ value i (skip (length (bytes_of i)) s)
unfolding get
get-Ahead (byte b) rest s f h = rw (get_byte-Ahead b rest s h, get) refl
get-Ahead (u16 x) rest s f h =
    rw (get_word-Ahead 2 x rest s (omega arith) (omega arith) h, length-to_bytes 2 x, get) refl
get-Ahead (u32 x) rest s f h =
    rw (get_word-Ahead 4 x rest s (omega arith) (omega arith) h, length-to_bytes 4 x, get) refl
get-Ahead (u64 x) rest s f h =
    rw (get_word-Ahead 8 x rest s (omega arith) (omega arith) h, length-to_bytes 8 x, get) refl
get-Ahead (float x) rest s f h =
    rw (get_word-Ahead 4 x rest s (omega arith) (omega arith) h, length-to_bytes 4 x, get) refl
get-Ahead (double x) rest s f h = absurd f
get-Ahead (vector bs) rest s f h =
    rw (get_vector-Ahead bs rest s f h, get)
      (ap (λ n. value (vector bs) (record s { ptr = n }))
        (omega (arith, length-append (to_bytes 2 (length bs)) bs, length-to_bytes 2 (length bs))))
get-Ahead (text cs) rest s f h =
    rw (get_text-Ahead cs rest s h, get)
      (ap (λ n. value (text cs) (record s { ptr = n })) (omega arith))

abbrev bytes_of_all : List Item → List ℕ
bytes_of_all [] = []
bytes_of_all (i ∷ is) = bytes_of i ++ bytes_of_all is

push_all-bytes_of_all :
    (is : List Item) (s : Stream) → AllFit is → push_all is s ≡ push_raw (bytes_of_all is) s
unfolding push_all
push_all-bytes_of_all [] s h = ap (λ xs. record s { bytes = xs }) (sym (append-nil s.bytes))
push_all-bytes_of_all (i ∷ is) s (f, h) =
    ap (λ t. push_all is t) (push-bytes_of i s f)
    ∙ push_all-bytes_of_all is (push_raw (bytes_of i) s) h
    ∙ ap (λ xs. record s { bytes = xs }) (append_assoc s.bytes (bytes_of i) (bytes_of_all is))

get_all-Ahead :
    (is : List Item) (s : Stream)
    → AllFit is
    → Ahead (bytes_of_all is) [] s
    → get_all (map shape_of is) s ≡ some (is, skip (length (bytes_of_all is)) s)
unfolding get_all
get_all-Ahead [] s h k = ap (λ n. some ([], record s { ptr = n })) (omega arith)
get_all-Ahead (i ∷ is) s (f, h) k =
    let a =
      get-Ahead i (bytes_of_all is ++ []) s f (first-Ahead (bytes_of i) (bytes_of_all is) [] s k) in
    let b =
      get_all-Ahead is (skip (length (bytes_of i)) s) h
        (skip-Ahead (bytes_of i) (bytes_of_all is) [] s k) in
    rw (a, b, get_all)
      (ap (λ n. some (i ∷ is, record s { ptr = n }))
        (omega (arith, length-append (bytes_of i) (bytes_of_all is))))

-- A stream in the order of the host, whose place is at its end. Values that fit, bytes, words,
-- floats, vectors and strings in any row, are put into it; then as many values of the same kinds are taken
-- from it. They are the same values, in the same order, no exception is thrown, the bytes stay, and
-- the place is at the end again.
pub stream_roundtrip :
    (is : List Item) (s : Stream)
    → s.swaporder ≡ false
    → s.ptr ≡ length s.bytes
    → AllFit is
    → get_all (map shape_of is) (push_all is s)
      ≡ some (is, record (push_all is s) { ptr = length (push_all is s).bytes })
stream_roundtrip is s o p h =
    let t = push_raw (bytes_of_all is) s in
    let e = push_all-bytes_of_all is s h in
    let k : Ahead (bytes_of_all is) [] t = record {
      inside = omega (arith, p, length-append s.bytes (bytes_of_all is));
      next =
          ap (λ n. drop n (s.bytes ++ bytes_of_all is)) p
          ∙ drop-length s.bytes (bytes_of_all is)
          ∙ sym (append-nil (bytes_of_all is));
      plain = o;
    } in
    subst (λ u. get_all (map shape_of is) u ≡ some (is, record u { ptr = length u.bytes })) (sym e)
      (get_all-Ahead is t h k
        ∙ ap (λ n. some (is, record t { ptr = n }))
            (omega (arith, p, length-append s.bytes (bytes_of_all is))))

-- What is put at the end of a stream whose place is there comes next.
pub end-Ahead :
    (bs rest : List ℕ) (s : Stream)
    → s.swaporder ≡ false
    → s.ptr ≡ length s.bytes
    → Ahead bs rest (push_raw (bs ++ rest) s)
end-Ahead bs rest s o p = record {
  inside = omega (arith, p, length-append s.bytes (bs ++ rest));
  next = ap (λ n. drop n (s.bytes ++ (bs ++ rest))) p ∙ drop-length s.bytes (bs ++ rest);
  plain = o;
}
