-- ===== src/Stream/Bounds.antt =====
-- No `get` of a `BinaryStream` (src/o3ds/binary_stream.cpp) leaves the bytes.
use open3dstream.Base.{
  ℕ, ◌+◌, ◌≤◌, ◌<◌, List, [], Bool, false, length, get_or, ltb, leb, ◌≡◌, refl, ap, inl, inr,
  Bool-cases, arith,
}
use open3dstream.Stream.{
  Stream, Got, value, thrown, out_of_range, get_raw, word_of, get_word, get_byte, get_vector,
  vector_of, fill_vector, get_text, double_of, get_double,
}
use open3dstream.Stream.Items.{
  byte, u16, u32, u64, float, double, vector, text, Shape, a_byte, a_u16, a_u32, a_u64, a_float,
  a_double, a_vector, a_text, got_map, get,
}

-- After a value the place is further on, after an exception not further back; it stays among the
-- bytes or at their end, the bytes stay, and `std::vector::at` does not throw.
abbrev pub Within : {A : Type 0} → Stream → Got A → Type 0
Within s (value a t) = (t.bytes ≡ s.bytes) × (s.ptr < t.ptr) × (t.ptr ≤ length s.bytes)
Within s (thrown a t) = (t.bytes ≡ s.bytes) × (s.ptr ≤ t.ptr) × (t.ptr ≤ length s.bytes)
Within s out_of_range = ⊥

map-Within :
    {A B : Type 0} (f : A → B) (s : Stream) (r : Got A) → Within s r → Within s (got_map f r)
map-Within f s (value a t) h = h
map-Within f s (thrown a t) h = h
map-Within f s out_of_range h = h

word-Within :
    (n : ℕ) (b : Bool) (s : Stream) (r : Got (List ℕ)) → Within s r → Within s (word_of n b r)
word-Within n b s (value a t) h = h
word-Within n b s (thrown a t) h = h
word-Within n b s out_of_range h = h

get_raw-Within : (n : ℕ) (s : Stream) → 0 < n → s.ptr ≤ length s.bytes → Within s (get_raw n s)
unfolding get_raw
get_raw-Within n s l h = elim (Bool-cases (ltb (length s.bytes) (s.ptr + n))) [
  | inl y ↦ rw (y, get_raw) (refl, h, omega arith)
  | inr z ↦
      let a : s.ptr + n ≤ length s.bytes = ground (arith, z) in
      let b : leb (length s.bytes) s.ptr ≡ false = ground arith in
      rw (z, b, get_raw) (refl, omega arith, a)
]

get_word-Within : (n : ℕ) (s : Stream) → 0 < n → s.ptr ≤ length s.bytes → Within s (get_word n s)
unfolding get_word
get_word-Within n s l h = word-Within n s.swaporder s (get_raw n s) (get_raw-Within n s l h)

double-Within :
    (old : ℕ) (b : Bool) (s : Stream) (r : Got (List ℕ)) → Within s r → Within s (double_of old b r)
double-Within old b s (value a t) h = h
double-Within old b s (thrown a t) h = h
double-Within old b s out_of_range h = h

get_double-Within : (old : ℕ) (s : Stream) → s.ptr ≤ length s.bytes → Within s (get_double old s)
unfolding get_double
get_double-Within old s h =
    double-Within old s.swaporder s (get_raw 4 s) (get_raw-Within 4 s (omega arith) h)

get_byte-Within : (s : Stream) → s.ptr ≤ length s.bytes → Within s (get_byte s)
unfolding get_byte
get_byte-Within s h = elim (Bool-cases (leb (length s.bytes) s.ptr)) [
  | inl y ↦ rw (y, get_byte) (refl, omega arith, h)
  | inr z ↦
      let a : s.ptr < length s.bytes = ground (arith, z) in
      rw (z, get_byte) (refl, omega arith, omega arith)
]

fill_vector-Within :
    (old : List ℕ) (n : ℕ) (s t : Stream)
    → (t.bytes ≡ s.bytes) × (s.ptr < t.ptr) × (t.ptr ≤ length s.bytes)
    → Within s (fill_vector old n t)
fill_vector-Within old n s t (e, l, h) =
    let k = ap (λ xs. length xs) e in
    elim (Bool-cases (ltb (length t.bytes) (t.ptr + n))) [
      | inl y ↦ rw (y) (e, omega (arith, k), omega (arith, k))
      | inr z ↦
          let a : t.ptr + n ≤ length t.bytes = ground (arith, z) in
          rw (z) (e, omega arith, omega (arith, k))
    ]

vector-Within : (old : List ℕ) (s : Stream) (r : Got ℕ) → Within s r → Within s (vector_of old r)
vector-Within old s (value n t) h = fill_vector-Within old n s t h
vector-Within old s (thrown n t) h = h
vector-Within old s out_of_range h = h

get_vector-Within :
    (old : List ℕ) (s : Stream) → s.ptr ≤ length s.bytes → Within s (get_vector old s)
unfolding get_vector
get_vector-Within old s h = vector-Within old s (get_word 2 s) (get_word-Within 2 s (omega arith) h)

get_text-Within : (s : Stream) → s.ptr ≤ length s.bytes → Within s (get_text s)
unfolding get_text
get_text-Within s h = elim (Bool-cases (leb (length s.bytes) s.ptr)) [
  | inl y ↦ rw (y, get_text) (refl, omega arith, h)
  | inr z ↦
      let a : s.ptr < length s.bytes = ground (arith, z) in
      elim (Bool-cases (ltb (length s.bytes) (get_or s.bytes s.ptr 0 + (s.ptr + 1)))) [
        | inl y ↦ rw (z, y, get_text) (refl, omega arith, omega arith)
        | inr w ↦
            let b : get_or s.bytes s.ptr 0 + (s.ptr + 1) ≤ length s.bytes = ground (arith, w) in
            rw (z, w, get_text) (refl, omega arith, omega arith)
      ]
]

-- From a place among the bytes, or at their end, whatever the bytes are and whatever kind of value
-- is asked for, a `double` included: the bytes stay, the place stays among them or at their end, it is further on after a
-- value and not further back after a `StreamException`, and no other exception is thrown.
pub get-Within : (k : Shape) (s : Stream) → s.ptr ≤ length s.bytes → Within s (get k s)
unfolding get
get-Within a_byte s h = map-Within byte s (get_byte s) (get_byte-Within s h)
get-Within a_u16 s h = map-Within u16 s (get_word 2 s) (get_word-Within 2 s (omega arith) h)
get-Within a_u32 s h = map-Within u32 s (get_word 4 s) (get_word-Within 4 s (omega arith) h)
get-Within a_u64 s h = map-Within u64 s (get_word 8 s) (get_word-Within 8 s (omega arith) h)
get-Within a_float s h = map-Within float s (get_word 4 s) (get_word-Within 4 s (omega arith) h)
get-Within (a_double old) s h = map-Within double s (get_double old s) (get_double-Within old s h)
get-Within a_vector s h = map-Within vector s (get_vector [] s) (get_vector-Within [] s h)
get-Within a_text s h = map-Within text s (get_text s) (get_text-Within s h)
