-- ===== src/Prelude/Bits.antt =====
-- Exclusive or of numbers: what the operation on bytes and words satisfies.
use Prim.Native.Nat.{
  ℕ, zero, suc, ◌+◌, ◌*◌, ◌/◌, ◌%◌, ◌^◌, ◌≤◌, ◌<◌, differ, digits, bit_xor, bit_xor-bitwise,
}
use mathlib.Core.Path.{◌≡◌, refl, ap}
use native.Mathlib.Nat.{pow-suc}
use native.Mathlib.Omega.{arith}

abbrev xor_digits : ℕ → ℕ → ℕ → ℕ
xor_digits n a b = digits (λ b. b) differ n a b

xor_digits_fuel : (n m a b : ℕ) → a ≤ n → a ≤ m → xor_digits n a b ≡ xor_digits m a b
xor_digits_fuel zero zero a b p q = refl
xor_digits_fuel zero (suc m) zero b p q = refl
xor_digits_fuel zero (suc m) (suc a) b p q = absurd (omega arith)
xor_digits_fuel (suc n) zero zero b p q = refl
xor_digits_fuel (suc n) zero (suc a) b p q = absurd (omega arith)
xor_digits_fuel (suc n) (suc m) zero b p q = refl
xor_digits_fuel (suc n) (suc m) (suc a) b p q =
    rw (xor_digits_fuel n m (suc a / 2) (b / 2) (omega arith) (omega arith))

zero-bit_xor : (b : ℕ) → bit_xor 0 b ≡ b
zero-bit_xor b = bit_xor-bitwise 0 b

-- Two digits differ where their sum is odd.
differ_bits : (x y : ℕ) → x < 2 → y < 2 → differ x y ≡ (x + y) % 2
differ_bits zero y h k = omega arith
differ_bits (suc zero) zero h k = refl
differ_bits (suc zero) (suc zero) h k = refl
differ_bits (suc zero) (suc (suc y)) h k = absurd (omega arith)
differ_bits (suc (suc x)) y h k = absurd (omega arith)

pub bit_xor_step : (a b : ℕ) → bit_xor a b ≡ bit_xor (a / 2) (b / 2) * 2 + (a + b) % 2
bit_xor_step zero b = omega (arith, zero-bit_xor b, zero-bit_xor (b / 2))
bit_xor_step (suc a) b = omega (
  arith,
  bit_xor-bitwise (suc a) b,
  bit_xor-bitwise (suc a / 2) (b / 2),
  differ_bits (suc a % 2) (b % 2) (omega arith) (omega arith),
  xor_digits_fuel a (suc a / 2) (suc a / 2) (b / 2) (omega arith) (omega arith),
)

-- Half of an exclusive or, and its lowest digit.
bit_xor_half : (a b : ℕ) → bit_xor a b / 2 ≡ bit_xor (a / 2) (b / 2)
bit_xor_half a b = omega (arith, bit_xor_step a b)

bit_xor_parity : (a b : ℕ) → bit_xor a b % 2 ≡ (a + b) % 2
bit_xor_parity a b = omega (arith, bit_xor_step a b)

assoc_fuel : (n a b c : ℕ) → a ≤ n → bit_xor (bit_xor a b) c ≡ bit_xor a (bit_xor b c)
assoc_fuel n zero b c h = rw (zero-bit_xor b, zero-bit_xor (bit_xor b c)) refl
assoc_fuel zero (suc a) b c h = absurd (omega arith)
assoc_fuel (suc n) (suc a) b c h = omega (
  arith,
  bit_xor_step (bit_xor (suc a) b) c,
  ap (λ t. bit_xor t (c / 2)) (bit_xor_half (suc a) b),
  bit_xor_parity (suc a) b,
  bit_xor_step (suc a) (bit_xor b c),
  ap (bit_xor (suc a / 2)) (bit_xor_half b c),
  bit_xor_parity b c,
  assoc_fuel n (suc a / 2) (b / 2) (c / 2) (omega arith),
)

pub bit_xor_assoc : (a b c : ℕ) → bit_xor (bit_xor a b) c ≡ bit_xor a (bit_xor b c)
bit_xor_assoc a b c = assoc_fuel a a b c (omega arith)

self_fuel : (n a : ℕ) → a ≤ n → bit_xor a a ≡ 0
self_fuel n zero h = zero-bit_xor 0
self_fuel zero (suc a) h = absurd (omega arith)
self_fuel (suc n) (suc a) h =
    omega (arith, bit_xor_step (suc a) (suc a), self_fuel n (suc a / 2) (omega arith))

pub bit_xor_self : (a : ℕ) → bit_xor a a ≡ 0
bit_xor_self a = self_fuel a a (omega arith)

-- No digit above the k lowest comes out of two numbers that have none.
pub bit_xor_lt : (k a b : ℕ) → a < 2 ^ k → b < 2 ^ k → bit_xor a b < 2 ^ k
bit_xor_lt zero a b h g =
    omega (arith, zero-bit_xor 0, ap (λ t. bit_xor t b) (zero_of a h), zero-bit_xor b)
  where
    zero_of : (t : ℕ) → t < 1 → t ≡ 0
    zero_of t q = omega arith
bit_xor_lt (suc k) a b h g = omega (
  arith,
  pow-suc 2 k,
  bit_xor_step a b,
  bit_xor_lt k (a / 2) (b / 2) (omega (arith, pow-suc 2 k)) (omega (arith, pow-suc 2 k)),
)

bit_xor-zero_fuel : (n a : ℕ) → a ≤ n → bit_xor a 0 ≡ a
bit_xor-zero_fuel n zero h = zero-bit_xor 0
bit_xor-zero_fuel zero (suc a) h = absurd (omega arith)
bit_xor-zero_fuel (suc n) (suc a) h =
    omega (arith, bit_xor_step (suc a) 0, bit_xor-zero_fuel n (suc a / 2) (omega arith))

pub bit_xor-zero : (a : ℕ) → bit_xor a 0 ≡ a
bit_xor-zero a = bit_xor-zero_fuel a a (omega arith)

comm_fuel : (n a b : ℕ) → a ≤ n → bit_xor a b ≡ bit_xor b a
comm_fuel n zero b h = omega (arith, zero-bit_xor b, bit_xor-zero b)
comm_fuel zero (suc a) b h = absurd (omega arith)
comm_fuel (suc n) (suc a) b h = omega (
  arith,
  bit_xor_step (suc a) b,
  bit_xor_step b (suc a),
  comm_fuel n (suc a / 2) (b / 2) (omega arith),
)

pub bit_xor_comm : (a b : ℕ) → bit_xor a b ≡ bit_xor b a
bit_xor_comm a b = comm_fuel a a b (omega arith)

double_power : (h k : ℕ) → h * 2 ^ suc k ≡ 2 * (h * 2 ^ k)
double_power h k = omega (arith, ap (λ (t : ℕ). h * t) (pow-suc 2 k))

low_zero : (h l q : ℕ) → l ≡ 0 → q ≡ 0 → bit_xor (h * 1 + l) q ≡ h * 1 + bit_xor l q
low_zero h l q e f = rw (e, f, bit_xor-zero (h * 1 + 0), bit_xor-zero 0) refl

-- The digits above the k lowest stay, where one of the numbers has none there.
pub bit_xor_low :
    (k h l q : ℕ) → l < 2 ^ k → q < 2 ^ k → bit_xor (h * 2 ^ k + l) q ≡ h * 2 ^ k + bit_xor l q
bit_xor_low zero h l q hl hq = low_zero h l q (omega arith) (omega arith)
bit_xor_low (suc k) h l q hl hq =
    let small : (t : ℕ) → t < 2 ^ suc k → t / 2 < 2 ^ k = λ t lt. omega (arith, pow-suc 2 k) in
    let half : (h * 2 ^ suc k + l) / 2 ≡ h * 2 ^ k + l / 2 = omega (arith, double_power h k) in
    omega (
      arith,
      double_power h k,
      bit_xor_step (h * 2 ^ suc k + l) q,
      bit_xor_step l q,
      ap (λ t. bit_xor t (q / 2)) half,
      bit_xor_low k h (l / 2) (q / 2) (small l hl) (small q hq),
    )

-- Numbers that share no digit.
pub bit_xor_fields : (k h q : ℕ) → q < 2 ^ k → 0 < 2 ^ k → bit_xor (h * 2 ^ k) q ≡ h * 2 ^ k + q
bit_xor_fields k h q hq pos =
    let whole : h * 2 ^ k ≡ h * 2 ^ k + 0 = omega arith in
    omega (arith, ap (λ t. bit_xor t q) whole, bit_xor_low k h 0 q pos hq, zero-bit_xor q)

-- A shift of both.
pub bit_xor_double : (a b : ℕ) → bit_xor (2 * a) (2 * b) ≡ 2 * bit_xor a b
bit_xor_double a b =
    let half : (t : ℕ) → 2 * t / 2 ≡ t = λ t. omega arith in
    rw (bit_xor_step (2 * a) (2 * b), half a, half b) (omega arith)
