-- ===== src/Prelude/Bits.antt =====
-- `&` with a mask, as arithmetic, at every width, and the digits of `|`.
use Prim.Native.Nat.{
  ℕ, zero, suc, ◌+◌, ◌-◌, ◌*◌, ◌/◌, ◌%◌, ◌^◌, ◌≤◌, ◌<◌, min, max, bit_and, bit_or, digits,
  bit_and-bitwise, bit_or-bitwise,
}
use mathlib.Core.Path.{◌≡◌, refl, ap}
use native.Mathlib.Omega.{arith}
use native.Mathlib.Nat.{pow-suc, one-le-pow}

abbrev min_digits : ℕ → ℕ → ℕ → ℕ
min_digits fuel a b = digits (λ _. zero) min fuel a b

-- Any fuel that reaches the last digit of `a` gives the same digits.
min_digits_fuel : (f g a b : ℕ) → a ≤ f → a ≤ g → min_digits f a b ≡ min_digits g a b
min_digits_fuel zero zero a b p q = refl
min_digits_fuel zero (suc g) zero b p q = refl
min_digits_fuel zero (suc g) (suc a) b p q = absurd (omega arith)
min_digits_fuel (suc f) zero zero b p q = refl
min_digits_fuel (suc f) zero (suc a) b p q = absurd (omega arith)
min_digits_fuel (suc f) (suc g) zero b p q = refl
min_digits_fuel (suc f) (suc g) (suc a) b p q =
    omega (arith, min_digits_fuel f g (suc a / 2) (b / 2) (omega arith) (omega arith))

bit_and-zero_left : (b : ℕ) → bit_and 0 b ≡ 0
bit_and-zero_left b = bit_and-bitwise 0 b

-- The lowest binary digit of `a & b`, and the rest.
bit_and_digit : (a b : ℕ) → bit_and a b ≡ 2 * bit_and (a / 2) (b / 2) + min (a % 2) (b % 2)
bit_and_digit zero b = omega (arith, bit_and-zero_left b, bit_and-zero_left (b / 2))
bit_and_digit (suc a) b = omega (
  arith,
  bit_and-bitwise (suc a) b,
  bit_and-bitwise (suc a / 2) (b / 2),
  min_digits_fuel a (suc a / 2) (suc a / 2) (b / 2) (omega arith) (omega arith),
)

bit_and-zero_within : (n a : ℕ) → a ≤ n → bit_and a 0 ≡ 0
bit_and-zero_within zero zero h = refl
bit_and-zero_within zero (suc a) h = absurd (omega arith)
bit_and-zero_within (suc n) zero h = refl
bit_and-zero_within (suc n) (suc a) h =
    omega (arith, bit_and_digit (suc a) 0, bit_and-zero_within n (suc a / 2) (omega arith))

-- A quotient and a remainder with `n = q * m + r` and `r < m` are those of the division.
pub mod_of_parts : (m q r : ℕ) → r < m → (q * m + r) % m ≡ r
mod_of_parts m q r h = grind arith

pub div_of_parts : (m q r : ℕ) → r < m → (q * m + r) / m ≡ q
div_of_parts m q r h = grind arith

-- `a & (2^k - 1)` keeps the `k` low digits.
bit_and-fields : (k q r : ℕ) → r < 2 ^ k → bit_and (q * 2 ^ k + r) (2 ^ k - 1) ≡ r
bit_and-fields zero q r h = omega (arith, bit_and-zero_within (q * 1 + r) (q * 1 + r) (omega arith))
bit_and-fields (suc k) q r h = ground (
  arith,
  bit_and_digit (q * 2 ^ suc k + r) (2 ^ suc k - 1),
  pow-suc 2 k,
  one-le-pow k 2,
  ap (λ (t : ℕ). q * t) (pow-suc 2 k),
  bit_and-fields k q (r / 2) (omega (arith, pow-suc 2 k)),
)

-- `a & (2^k - 1)` is the remainder by `2^k`.
pub bit_and-low_mask : (k a : ℕ) → bit_and a (2 ^ k - 1) ≡ a % 2 ^ k
bit_and-low_mask k a = ground (arith, one-le-pow k 2, bit_and-fields k (a / 2 ^ k) (a % 2 ^ k))

-- `a & (m * 2^k)` drops the `k` low digits of `a`.
pub bit_and-shifted :
    (k q r m : ℕ) → r < 2 ^ k → bit_and (q * 2 ^ k + r) (m * 2 ^ k) ≡ bit_and q m * 2 ^ k
bit_and-shifted zero q r m h = ground arith
bit_and-shifted (suc k) q r m h = ground (
  arith,
  bit_and_digit (q * 2 ^ suc k + r) (m * 2 ^ suc k),
  pow-suc 2 k,
  ap (λ (t : ℕ). q * t) (pow-suc 2 k),
  ap (λ (t : ℕ). m * t) (pow-suc 2 k),
  ap (λ (t : ℕ). bit_and q m * t) (pow-suc 2 k),
  bit_and-shifted k q (r / 2) m (omega (arith, pow-suc 2 k)),
)

abbrev max_digits : ℕ → ℕ → ℕ → ℕ
max_digits fuel a b = digits (λ b. b) max fuel a b

max_digits_fuel : (f g a b : ℕ) → a ≤ f → a ≤ g → max_digits f a b ≡ max_digits g a b
max_digits_fuel zero zero a b p q = refl
max_digits_fuel zero (suc g) zero b p q = refl
max_digits_fuel zero (suc g) (suc a) b p q = absurd (omega arith)
max_digits_fuel (suc f) zero zero b p q = refl
max_digits_fuel (suc f) zero (suc a) b p q = absurd (omega arith)
max_digits_fuel (suc f) (suc g) zero b p q = refl
max_digits_fuel (suc f) (suc g) (suc a) b p q =
    omega (arith, max_digits_fuel f g (suc a / 2) (b / 2) (omega arith) (omega arith))

pub bit_or-zero_left : (b : ℕ) → bit_or 0 b ≡ b
bit_or-zero_left b = bit_or-bitwise 0 b

-- The lowest binary digit of `a | b`, and the rest.
pub bit_or_digit : (a b : ℕ) → bit_or a b ≡ 2 * bit_or (a / 2) (b / 2) + max (a % 2) (b % 2)
bit_or_digit zero b = omega (arith, bit_or-zero_left b, bit_or-zero_left (b / 2))
bit_or_digit (suc a) b = omega (
  arith,
  bit_or-bitwise (suc a) b,
  bit_or-bitwise (suc a / 2) (b / 2),
  max_digits_fuel a (suc a / 2) (suc a / 2) (b / 2) (omega arith) (omega arith),
)

bit_or-zero_within : (n a : ℕ) → a ≤ n → bit_or a 0 ≡ a
bit_or-zero_within zero zero h = refl
bit_or-zero_within zero (suc a) h = absurd (omega arith)
bit_or-zero_within (suc n) zero h = refl
bit_or-zero_within (suc n) (suc a) h =
    omega (arith, bit_or_digit (suc a) 0, bit_or-zero_within n (suc a / 2) (omega arith))

pub bit_or-zero_right : (a : ℕ) → bit_or a 0 ≡ a
bit_or-zero_right a = bit_or-zero_within a a (omega arith)

pub bit_or-lt : (n a b : ℕ) → a < 2 ^ n → b < 2 ^ n → bit_or a b < 2 ^ n
bit_or-lt zero zero zero h g = omega (arith, bit_or-zero_left 0)
bit_or-lt zero zero (suc b) h g = absurd (omega arith)
bit_or-lt zero (suc a) b h g = absurd (omega arith)
bit_or-lt (suc n) a b h g =
    let p = pow-suc 2 n in
    omega (
      arith,
      p,
      bit_or_digit a b,
      bit_or-lt n (a / 2) (b / 2) (omega (arith, p)) (omega (arith, p)),
    )
