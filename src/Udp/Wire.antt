-- ===== src/Udp/Wire.antt =====
-- The heading of a datagram of src/o3ds/udp_fragment.cpp, and what can go wrong in that file.
use open3dstream.Base.{ℕ, ◌+◌, ◌*◌, ◌/◌, ◌%◌, ◌<◌, ◌≡◌, refl, List, ◌++◌, arith, length}
use open3dstream.Base.Words.{u32_mod, to_bytes, word32_at}

-- `HEADERSIZE`.
abbrev pub header_size : ℕ
header_size = 16

-- The largest datagram that a receiver looks at.
abbrev pub max_datagram : ℕ
max_datagram = 65511

-- The four words of `heading`.
pub record Heading : Type 0 where
  pub id : ℕ
  pub seq : ℕ
  pub buf_sz : ℕ
  pub frag_size : ℕ

pub write_heading : Heading → List ℕ
write_heading h =
    to_bytes 4 h.id ++ (to_bytes 4 h.seq ++ (to_bytes 4 h.buf_sz ++ to_bytes 4 h.frag_size))

unfoldable pub heading : List ℕ → Heading
heading bytes = record {
  id = word32_at bytes 0;
  seq = word32_at bytes 4;
  buf_sz = word32_at bytes 8;
  frag_size = word32_at bytes 12;
}

-- A division by zero, an exception of the standard library, or an access outside of a block, after
-- which C++ promises nothing.
pub data Fault : Type 0 where
  divide_by_zero length_error found_overrun buffer_overrun buffer_overread use_after_free : Fault

pub data Result {ℓ} (A : Type ℓ) : Type ℓ where
  ok : A → Result A
  fault : Fault → Result A

infixl 5 ◌>>=◌
abbrev pub ◌>>=◌ {ℓ κ} : {A : Type ℓ} {B : Type κ} → Result A → (A → Result B) → Result B
ok a >>= f = f a
fault e >>= f = fault e

pub length-write_heading : (h : Heading) → length (write_heading h) ≡ header_size
unfolding write_heading to_bytes
length-write_heading h = refl

word_eq :
    (x : ℕ)
    → x < u32_mod
    → x % 256
        + 256 * (x / 256 % 256 + 256 * (x / 256 / 256 % 256 + 256 * (x / 256 / 256 / 256 % 256)))
      ≡ x
word_eq x h = omega arith

-- The words are read back as they were written, whatever follows them.
pub heading-write_heading :
    (h : Heading) (rest : List ℕ)
    → h.id < u32_mod
    → h.seq < u32_mod
    → h.buf_sz < u32_mod
    → h.frag_size < u32_mod
    → heading (write_heading h ++ rest) ≡ h
unfolding heading write_heading to_bytes word32_at
heading-write_heading h rest a b c d =
    ground (arith, word_eq h.id a, word_eq h.seq b, word_eq h.buf_sz c, word_eq h.frag_size d)
