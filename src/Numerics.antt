-- ===== src/Numerics.antt =====
-- Floating point numbers and what src/o3ds takes from Eigen: parameters of the model. `float` and
-- `double` values share one type, since the widening is exact; a narrowing is an operation.
pub mod Integers
use open3dstream.Base.{ℕ, ◌<◌, ◌≤◌, ◌≡◌, Bool, true, false}

-- Three values: `Eigen::Vector3d`, `std::array<_, 3>`.
pub record Triple {ℓ} (A : Type ℓ) : Type ℓ where
  pub x : A
  pub y : A
  pub z : A

-- `Eigen::Quaterniond`, with `w` last; and a row of a matrix.
pub record Quad {ℓ} (A : Type ℓ) : Type ℓ where
  pub x : A
  pub y : A
  pub z : A
  pub w : A

-- `O3DS::Matrix` of src/o3ds/math.h: four rows.
abbrev pub Matrix {ℓ} : Type ℓ → Type ℓ
Matrix A = Quad (Quad A)

pub record Numerics : Type 1 where
  pub F : Type 0
  pub null : F
  pub one : F
  pub neg : F → F
  pub mul : F → F → F
  -- Division of two `float`s.
  pub div_single : F → F → F
  pub equal : F → F → Bool
  pub less : F → F → Bool
  pub is_finite : F → Bool
  -- `(float)x`.
  pub single : F → F
  -- The `float` nearest to m * 10 ^ p / 10 ^ n, as the literal of that value.
  pub literal : ℕ → ℕ → ℕ → F
  -- Eigen: a product of matrices, `(a - b).norm()`, `a.angularDistance(b)`, `q.normalized()`,
  -- `q.toRotationMatrix()`, and `std::abs`.
  pub product : Matrix F → Matrix F → Matrix F
  pub distance : Triple F → Triple F → F
  pub angular_distance : Quad F → Quad F → F
  pub normalized : Quad F → Quad F
  pub rotation_matrix : Quad F → Triple (Triple F)
  pub abs : F → F

module _ (N : Numerics) where
  open N use {F, null, one, neg, mul, div_single, equal, less, literal}

  -- Exact facts of IEEE arithmetic that the conversions rely on. Those on values hold for every
  -- number that is not a NaN, and for a NaN up to its bits.
  pub record IsExact : Type 0 where
    pub mul_one : (a : F) → mul a one ≡ a
    pub mul_minus_one : (a : F) → mul a (neg one) ≡ neg a
    pub neg_neg : (a : F) → neg (neg a) ≡ a
    pub equal_self : equal one one ≡ true
    pub equal_minus_one : equal (neg one) one ≡ false
    pub minus_one_less : less (neg one) null ≡ true
    pub one_not_less : less one null ≡ false
    -- A literal from 1 / 10 ^ 4 to 10 ^ 20 is a normal number, and its quotient by itself is one.
    pub div_self :
        (m p n : ℕ)
        → 0 < m
        → m < 10000000
        → p ≤ 13
        → n ≤ 4
        → div_single (literal m p n) (literal m p n) ≡ one
