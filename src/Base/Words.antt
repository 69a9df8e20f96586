-- ===== src/Base/Words.antt =====
-- Unsigned words in memory, low byte first, as the supported hosts store them.
use Prim.Native.Nat.{ℕ, zero, suc, ◌+◌, ◌*◌, ◌/◌, ◌%◌, ◌^◌, ◌<◌}
use mathlib.Core.Path.{◌≡◌, refl, ap}
use mathlib.Core.List.{List, [], ◌∷◌}
use native.Mathlib.Omega.{arith}
use open3dstream.Base.Lists.{length, get_or}

-- The moduli of `uint16_t`, `uint32_t`, `uint64_t` (and the 64-bit `size_t`).
abbrev pub u16_mod : ℕ
u16_mod = 2 ^ 16

abbrev pub u32_mod : ℕ
u32_mod = 2 ^ 32

abbrev pub u64_mod : ℕ
u64_mod = 2 ^ 64

-- The low `n` bytes of a number.
unfoldable pub to_bytes : ℕ → ℕ → List ℕ
to_bytes zero x = []
to_bytes (suc n) x = (x % 256) ∷ to_bytes n (x / 256)

-- The number that the bytes make.
unfoldable pub of_bytes : List ℕ → ℕ
of_bytes [] = 0
of_bytes (b ∷ bs) = b + 256 * of_bytes bs

pub length-to_bytes : (n x : ℕ) → length (to_bytes n x) ≡ n
unfolding to_bytes
length-to_bytes zero x = refl
length-to_bytes (suc n) x = ap suc (length-to_bytes n (x / 256))

-- Storing a number that fits and reading it back gives the number.
pub of_bytes-to_bytes4 : (x : ℕ) → x < u32_mod → of_bytes (to_bytes 4 x) ≡ x
unfolding of_bytes to_bytes
of_bytes-to_bytes4 x h = omega arith

-- The 32-bit word at a byte offset.
unfoldable pub word32_at : List ℕ → ℕ → ℕ
word32_at bs o =
    get_or bs o 0
    + 256 * (get_or bs (o + 1) 0 + 256 * (get_or bs (o + 2) 0 + 256 * get_or bs (o + 3) 0))
