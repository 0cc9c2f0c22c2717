-- ===== src/Common/Bits.antt =====
-- Facts about the bit operations at variables, each by the recursion on binary digits.
use Prim.Native.Nat.{
  ℕ, zero, suc, ◌+◌, ◌-◌, ◌*◌, ◌/◌, ◌%◌, ◌^◌, ◌≤◌, ◌<◌, min, max, differ, bit_and, bit_or, bit_xor,
  digits, bit_and-bitwise, bit_or-bitwise, bit_xor-bitwise,
}
use mathlib.Core.Path.{◌≡◌, refl, ap}
use native.Mathlib.Nat.{pow-suc}
use native.Mathlib.Omega.{arith}

-- The digit recursion does not depend on its count of rounds, once that covers the first number.
module _ (z : ℕ → ℕ) (f : ℕ → ℕ → ℕ) where
  rounds_free : (n m a b : ℕ) → a ≤ n → a ≤ m → digits z f n a b ≡ digits z f m a b
  rounds_free zero zero zero b p q = refl
  rounds_free zero (suc m) zero b p q = refl
  rounds_free (suc n) zero zero b p q = refl
  rounds_free (suc n) (suc m) zero b p q = refl
  rounds_free zero m (suc a) b p q = absurd (omega arith)
  rounds_free (suc n) zero (suc a) b p q = absurd (omega arith)
  rounds_free (suc n) (suc m) (suc a) b p q =
      ap (λ (t : ℕ). t * 2 + f (suc a % 2) (b % 2))
        (rounds_free n m (suc a / 2) (b / 2) (omega arith) (omega arith))

  lowest_digit :
      (a b : ℕ)
      → digits z f (suc a) (suc a) b
        ≡ digits z f (suc a / 2) (suc a / 2) (b / 2) * 2 + f (suc a % 2) (b % 2)
  lowest_digit a b =
      ap (λ (t : ℕ). t * 2 + f (suc a % 2) (b % 2))
        (rounds_free a (suc a / 2) (suc a / 2) (b / 2) (omega arith) (omega arith))

pub and_digit : (a b : ℕ) → bit_and a b ≡ bit_and (a / 2) (b / 2) * 2 + min (a % 2) (b % 2)
and_digit zero b = simp bit_and-bitwise (omega arith)
and_digit (suc a) b = simp bit_and-bitwise (lowest_digit (λ y. 0) min a b)

pub or_digit : (a b : ℕ) → bit_or a b ≡ bit_or (a / 2) (b / 2) * 2 + max (a % 2) (b % 2)
or_digit zero b = simp bit_or-bitwise (omega arith)
or_digit (suc a) b = simp bit_or-bitwise (lowest_digit (λ y. y) max a b)

digit_differ : (b : ℕ) → b ≡ b / 2 * 2 + differ 0 (b % 2)
digit_differ b = omega arith

xor_digit : (a b : ℕ) → bit_xor a b ≡ bit_xor (a / 2) (b / 2) * 2 + differ (a % 2) (b % 2)
xor_digit zero b = simp bit_xor-bitwise (digit_differ b)
xor_digit (suc a) b = simp bit_xor-bitwise (lowest_digit (λ y. y) differ a b)

pub double_shift : (q k : ℕ) → q * 2 ^ suc k ≡ 2 * (q * 2 ^ k)
double_shift q k = omega (arith, ap (λ (t : ℕ). q * t) (pow-suc 2 k))

zero-bit_or : (b : ℕ) → bit_or 0 b ≡ b
zero-bit_or b = bit_or-bitwise 0 b

-- `r | (q << k)` is a sum when `r` fits `k` bits.
pub bit_or_shifted : (k r q : ℕ) → r < 2 ^ k → bit_or r (q * 2 ^ k) ≡ r + q * 2 ^ k
bit_or_shifted zero zero q h = omega (arith, zero-bit_or (q * 2 ^ 0))
bit_or_shifted zero (suc r) q h = absurd (omega arith)
bit_or_shifted (suc k) r q h =
    ground
      (arith, or_digit r (q * 2 ^ suc k), double_shift q k, pow-suc 2 k, bit_or_shifted k (r / 2) q)

pub zero-bit_and : (b : ℕ) → bit_and 0 b ≡ 0
zero-bit_and b = bit_and-bitwise 0 b

bit_and-zero_below : (n a : ℕ) → a ≤ n → bit_and a 0 ≡ 0
bit_and-zero_below n zero h = zero-bit_and 0
bit_and-zero_below zero (suc a) h = absurd (omega arith)
bit_and-zero_below (suc n) (suc a) h =
    omega (arith, and_digit (suc a) 0, bit_and-zero_below n (suc a / 2) (omega arith))

-- `a & (2^k - 1)` is the remainder by `2 ^ k`, for the mask of a varint group.
pub bit_and-zero : (a : ℕ) → bit_and a 0 ≡ 0
bit_and-zero a = bit_and-zero_below a a (omega arith)

pub bit_and-one : (a : ℕ) → bit_and a 1 ≡ a % 2
bit_and-one a = omega (arith, and_digit a 1, bit_and-zero (a / 2))

and_3 : (a : ℕ) → bit_and a 3 ≡ a % 4
and_3 a = omega (arith, and_digit a 3, bit_and-one (a / 2))

and_15 : (a : ℕ) → bit_and a 15 ≡ a % 16
and_15 a = omega (arith, and_digit a 15, and_digit (a / 2) 7, and_3 (a / 2 / 2))

pub bit_and-0x7f : (a : ℕ) → bit_and a 0x7f ≡ a % 128
bit_and-0x7f a =
    omega (
      arith,
      and_digit a 127,
      and_digit (a / 2) 63,
      and_digit (a / 2 / 2) 31,
      and_15 (a / 2 / 2 / 2),
    )

-- `r | 0x80` on seven bits.
pub bit_or-0x80 : (r : ℕ) → r < 128 → bit_or r 0x80 ≡ r + 128
bit_or-0x80 r h = bit_or_shifted 7 r 1 h

differ-zero : (a : ℕ) → differ a 0 ≡ a
differ-zero zero = refl
differ-zero (suc a) = refl

bit_xor-zero_below : (n a : ℕ) → a ≤ n → bit_xor a 0 ≡ a
bit_xor-zero_below n zero h = bit_xor-bitwise 0 0
bit_xor-zero_below zero (suc a) h = absurd (omega arith)
bit_xor-zero_below (suc n) (suc a) h =
    ground (arith, xor_digit (suc a) 0, differ-zero (suc a % 2), bit_xor-zero_below n (suc a / 2))

pub bit_xor-zero : (a : ℕ) → bit_xor a 0 ≡ a
bit_xor-zero a = bit_xor-zero_below a a (omega arith)

differ-one : (a : ℕ) → a < 2 → differ a 1 ≡ 1 - a
differ-one zero h = refl
differ-one (suc zero) h = refl
differ-one (suc (suc a)) h = absurd (omega arith)

-- `a ^ (2^k - 1)` complements the low k bits.
pub bit_xor_ones : (k a : ℕ) → a < 2 ^ k → bit_xor a (2 ^ k - 1) ≡ 2 ^ k - 1 - a
bit_xor_ones zero zero h = bit_xor-zero 0
bit_xor_ones zero (suc a) h = absurd (omega arith)
bit_xor_ones (suc k) a h =
    ground
      (arith, xor_digit a (2 ^ suc k - 1), pow-suc 2 k, differ-one (a % 2), bit_xor_ones k (a / 2))
