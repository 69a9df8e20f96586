-- ===== src/Stream/Doubles.antt =====
-- A `double` in a `BinaryStream` (src/o3ds/binary_stream.cpp).
use open3dstream.Base.{
  ℕ, ◌+◌, ◌*◌, ◌%◌, ◌/◌, ◌<◌, false, length, ltb, leb, ◌≡◌, refl, ap, ◌∙◌, arith,
}
use open3dstream.Base.Words.{u32_mod, u64_mod, to_bytes, of_bytes}
use open3dstream.Stream.{Stream, value, get_raw, push_word, low_half, double_of, get_double}
use open3dstream.Stream.RoundTrip.{skip, size-Ahead, slice-Ahead, end-Ahead}

-- The low half of one word and the high half of another.
halves :
    (x old : ℕ)
    → x < u64_mod
    → old < u64_mod
    → low_half old (to_bytes 4 x) ≡ x % u32_mod + u32_mod * (old / u32_mod)
unfolding of_bytes to_bytes
halves x old h k = omega arith

-- A stream in the order of the host, whose place is at its end. A `double`, the word `x` of its bits,
-- is put into it, and a `double` is taken from it into a variable with the bits `old`: that gets the
-- low half of `x` and keeps its own high half, and the place is only past the first four of the
-- eight bytes.
pub get_double-push_word :
    (x old : ℕ) (s : Stream)
    → s.swaporder ≡ false
    → s.ptr ≡ length s.bytes
    → x < u64_mod
    → old < u64_mod
    → get_double old (push_word 8 x s)
      ≡ value
          (x % u32_mod + u32_mod * (old / u32_mod))
          (record (push_word 8 x s) { ptr = s.ptr + 4 })
unfolding get_double get_raw push_word to_bytes
get_double-push_word x old s o p h k =
    let t = push_word 8 x s in
    let f = end-Ahead (to_bytes 4 x) (to_bytes 4 (x / 256 / 256 / 256 / 256)) s o p in
    let z = size-Ahead (to_bytes 4 x) (to_bytes 4 (x / 256 / 256 / 256 / 256)) t f in
    let a : ltb (length t.bytes) (s.ptr + 4) ≡ false = ground (arith, z) in
    let b : leb (length t.bytes) s.ptr ≡ false = ground (arith, z) in
    let c = slice-Ahead (to_bytes 4 x) (to_bytes 4 (x / 256 / 256 / 256 / 256)) t f in
    let r : get_raw 4 t ≡ value (to_bytes 4 x) (skip 4 t) = rw (a, b, c, get_raw) refl in
    ap (λ g. double_of old t.swaporder g) r
    ∙ ap (λ w. double_of old w (value (to_bytes 4 x) (skip 4 t))) o
    ∙ ap (λ n. value n (skip 4 t)) (halves x old h k)
