-- ===== src/Udp/Chunks.antt =====
-- How the fragments divide a packet: the arithmetic that sender and receiver share.
use native.Mathlib.Nat.{div-add-mod', mod-lt}
use native.Mathlib.Decide.{dec_lt}
use open3dstream.Base.{
  ℕ, suc, ◌+◌, ◌-◌, ◌*◌, ◌/◌, ◌%◌, ◌^◌, ◌≤◌, ◌<◌, ◌≡◌, ap, arith, ◌==◌, if◌then◌else◌,
}

-- The number of fragments of a packet of `n` bytes, `f` to a fragment, rounded up.
abbrev pub count : ℕ → ℕ → ℕ
count n f = (n + f - 1) / f

-- The bytes in the fragment `q`.
abbrev pub chunk : ℕ → ℕ → ℕ → ℕ
chunk n f q = if q == (count n f - 1) then n - (count n f - 1) * f else f

-- The packets that fit the words of a heading and the datagrams that receivers look at.
pub record Fits (n f : ℕ) : Type 0 where
  pub positive : 0 < f
  pub datagram : f + 16 ≤ 65511
  pub small : n + f < 2 ^ 31

le_mul : (a b f : ℕ) → a ≤ b → a * f ≤ b * f
le_mul a b f h = grind arith

module _ {n f : ℕ} (fits : Fits n f) where
  count_eq : count n f * f + (n + f - 1) % f ≡ n + f - 1
  count_eq = div-add-mod' (n + f - 1) f

  rest_lt : (n + f - 1) % f < f
  rest_lt = mod-lt (n + f - 1) fits.positive

  -- Every fragment starts inside the packet.
  pub start_inside : (q : ℕ) → q < count n f → q * f < n
  start_inside q h = omega (arith, count_eq, rest_lt, le_mul (suc q) (count n f) f h, fits.positive)

  -- Every fragment but the last is whole.
  pub whole_inside : (q : ℕ) → suc q < count n f → q * f + f < n
  whole_inside q h = omega (arith, start_inside (suc q) h)

  last_eq : 0 < count n f → (count n f - 1) * f + f ≡ count n f * f
  last_eq h = omega (arith, ap (λ (t : ℕ). t * f) (pred_suc h))
    where
      pred_suc : 0 < count n f → count n f - 1 + 1 ≡ count n f
      pred_suc k = omega arith

  pub chunk_inside : (q : ℕ) → q < count n f → q * f + chunk n f q ≤ n
  chunk_inside q h = ground (arith, start_inside q h, whole_inside q)

  pub chunk-le : (q : ℕ) → q < count n f → chunk n f q ≤ f
  chunk-le q h = ground (arith, count_eq, rest_lt, last_eq)

  -- A byte of the fragment's range lies in the fragment.
  pub chunk_covers : (q j : ℕ) → q < count n f → j < f → q * f + j < n → j < chunk n f q
  chunk_covers q j h k l = ground arith

  -- Every byte lies in a fragment.
  pub owner-lt : (p : ℕ) → p < n → p / f < count n f
  owner-lt p h = elim (dec_lt (p / f) (count n f)) [
    | yes k ↦ k
    | no k ↦ absurd (
        omega
          (arith, count_eq, rest_lt, le_mul (count n f) (p / f) f (omega arith), div-add-mod' p f))
  ]

  pub count-le : count n f ≤ n
  count-le = elim (dec_lt n (count n f)) [
    | no k ↦ omega arith
    | yes k ↦ absurd (omega (arith, start_inside n k, le_mul 1 f n (fits.positive)))
  ]
