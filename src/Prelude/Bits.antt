-- ===== src/Prelude/Bits.antt =====
-- Masks and disjoint unions of bits as arithmetic, for every width.
use Prim.Native.Nat.{ℕ, zero, suc, min, max, bit_and, bit_or, ◌^◌, ◌≤◌, ◌<◌, ◌+◌, ◌*◌, ◌/◌, ◌%◌}
use Prim.Native.Nat.{digits, bit_and-bitwise, bit_or-bitwise}
use mathlib.Core.Path.{◌≡◌, refl, ◌∙◌}
use native.Mathlib.Omega.{arith}
use native.Mathlib.Nat.{pow-suc}

abbrev and_digits : ℕ → ℕ → ℕ → ℕ
and_digits = digits (λ b. zero) min

abbrev or_digits : ℕ → ℕ → ℕ → ℕ
or_digits = digits (λ b. b) max

-- More fuel than the first number does not change the digits.
and_digits_enough : (n m a b : ℕ) → a ≤ n → a ≤ m → and_digits n a b ≡ and_digits m a b
and_digits_enough zero zero a b p q = refl
and_digits_enough zero (suc m) zero b p q = refl
and_digits_enough zero (suc m) (suc a) b p q = absurd (omega arith)
and_digits_enough (suc n) zero zero b p q = refl
and_digits_enough (suc n) zero (suc a) b p q = absurd (omega arith)
and_digits_enough (suc n) (suc m) zero b p q = refl
and_digits_enough (suc n) (suc m) (suc a) b p q =
    omega (arith, and_digits_enough n m (suc a / 2) (b / 2) (omega arith) (omega arith))

or_digits_enough : (n m a b : ℕ) → a ≤ n → a ≤ m → or_digits n a b ≡ or_digits m a b
or_digits_enough zero zero a b p q = refl
or_digits_enough zero (suc m) zero b p q = refl
or_digits_enough zero (suc m) (suc a) b p q = absurd (omega arith)
or_digits_enough (suc n) zero zero b p q = refl
or_digits_enough (suc n) zero (suc a) b p q = absurd (omega arith)
or_digits_enough (suc n) (suc m) zero b p q = refl
or_digits_enough (suc n) (suc m) (suc a) b p q =
    omega (arith, or_digits_enough n m (suc a / 2) (b / 2) (omega arith) (omega arith))

half : (x : ℕ) → 2 * x / 2 ≡ x
half x = omega arith

zero-bit_and : (b : ℕ) → bit_and 0 b ≡ 0
zero-bit_and b = bit_and-bitwise 0 b

pub zero-bit_or : (b : ℕ) → bit_or 0 b ≡ b
zero-bit_or b = bit_or-bitwise 0 b

-- The lowest binary digit of a conjunction and of a disjunction.
bit_and_digit : (a b : ℕ) → bit_and a b ≡ min (a % 2) (b % 2) + 2 * bit_and (a / 2) (b / 2)
bit_and_digit zero b = omega (arith, zero-bit_and b, zero-bit_and (b / 2))
bit_and_digit (suc a) b = omega (
  arith,
  bit_and-bitwise (suc a / 2) (b / 2),
  bit_and-bitwise (suc a) b,
  and_digits_enough a (suc a / 2) (suc a / 2) (b / 2) (omega arith) (omega arith),
)

bit_or_digit : (a b : ℕ) → bit_or a b ≡ max (a % 2) (b % 2) + 2 * bit_or (a / 2) (b / 2)
bit_or_digit zero b = omega (arith, zero-bit_or b, zero-bit_or (b / 2))
bit_or_digit (suc a) b = omega (
  arith,
  bit_or-bitwise (suc a / 2) (b / 2),
  bit_or-bitwise (suc a) b,
  or_digits_enough a (suc a / 2) (suc a / 2) (b / 2) (omega arith) (omega arith),
)

pow_double : (k : ℕ) → 2 ^ suc k ≡ 2 * 2 ^ k
pow_double k = omega (arith, pow-suc 2 k)

shift_double : (k b : ℕ) → b * 2 ^ suc k ≡ 2 * (b * 2 ^ k)
shift_double k b = rw pow_double (omega arith)

-- A number below 2 ^ k and one shifted past it share no bit: their disjunction is their sum.
pub bit_or-shift : (k a b : ℕ) → a < 2 ^ k → bit_or a (b * 2 ^ k) ≡ a + b * 2 ^ k
bit_or-shift zero zero b h = omega (arith, zero-bit_or (b * 1))
bit_or-shift zero (suc a) b h = absurd (omega arith)
bit_or-shift (suc k) a b h = rw shift_double (
    bit_or_digit a (2 * (b * 2 ^ k))
    ∙ rw (half (b * 2 ^ k), bit_or-shift k (a / 2) b (omega (arith, pow_double k))) (omega arith))

bit_and-zero : (fuel a : ℕ) → a ≤ fuel → bit_and a 0 ≡ 0
bit_and-zero fuel zero h = zero-bit_and 0
bit_and-zero zero (suc a) h = absurd (omega arith)
bit_and-zero (suc fuel) (suc a) h =
    omega (arith, bit_and_digit (suc a) 0, bit_and-zero fuel (suc a / 2) (omega arith))

mask_three : (a : ℕ) → bit_and a 7 ≡ a % 8
mask_three a = omega (
  arith,
  bit_and_digit a 7,
  bit_and_digit (a / 2) 3,
  bit_and_digit (a / 2 / 2) 1,
  bit_and-zero (a / 2 / 2 / 2) (a / 2 / 2 / 2) (omega arith),
)

mask_five : (a : ℕ) → bit_and a 31 ≡ a % 32
mask_five a = omega (arith, bit_and_digit a 31, bit_and_digit (a / 2) 15, mask_three (a / 2 / 2))

-- `x & 0xff` is the lowest byte.
pub mask_byte : (a : ℕ) → bit_and a 255 ≡ a % 256
mask_byte a = omega (
  arith,
  bit_and_digit a 255,
  bit_and_digit (a / 2) 127,
  bit_and_digit (a / 2 / 2) 63,
  mask_five (a / 2 / 2 / 2),
)
