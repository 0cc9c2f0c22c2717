-- ===== src/Endian/Laws.antt =====
-- Swapping twice, what a swap does to the bytes in memory, and words through memory.
use sylar.Common.{ℕ, zero, suc, ◌+◌, ◌*◌, ◌/◌, ◌%◌, ◌^◌, ◌<◌, ◌≡◌, refl, ap, arith, length}
use sylar.Endian.{bswap_16, bswap_32, bswap_64, to_memory, of_memory}
use native.Mathlib.Nat.{pow-suc}
use mathlib.Core.List.{reverse}

pub bswap_16-lt : (v : ℕ) → bswap_16 v < 2 ^ 16
unfolding bswap_16
bswap_16-lt v = omega arith

pub bswap_32-lt : (v : ℕ) → bswap_32 v < 2 ^ 32
unfolding bswap_32
bswap_32-lt v = omega (arith, bswap_16-lt (v / 2 ^ 16 % 2 ^ 16), bswap_16-lt (v % 2 ^ 16))

pub bswap_64-lt : (v : ℕ) → bswap_64 v < 2 ^ 64
unfolding bswap_64
bswap_64-lt v = omega (arith, bswap_32-lt (v / 2 ^ 32 % 2 ^ 32), bswap_32-lt (v % 2 ^ 32))

-- Swapping a 16-bit word twice gives it back.
pub bswap_16-bswap_16 : (v : ℕ) → v < 2 ^ 16 → bswap_16 (bswap_16 v) ≡ v
unfolding bswap_16
bswap_16-bswap_16 v h = omega arith

high_half_32 : (v : ℕ) → bswap_32 v / 2 ^ 16 % 2 ^ 16 ≡ bswap_16 (v % 2 ^ 16)
unfolding bswap_32
high_half_32 v = omega (arith, bswap_16-lt (v / 2 ^ 16 % 2 ^ 16), bswap_16-lt (v % 2 ^ 16))

low_half_32 : (v : ℕ) → bswap_32 v % 2 ^ 16 ≡ bswap_16 (v / 2 ^ 16 % 2 ^ 16)
unfolding bswap_32
low_half_32 v = omega (arith, bswap_16-lt (v / 2 ^ 16 % 2 ^ 16), bswap_16-lt (v % 2 ^ 16))

halves_32 : (v : ℕ) → bswap_32 v ≡ bswap_16 (v / 2 ^ 16 % 2 ^ 16) + bswap_16 (v % 2 ^ 16) * 2 ^ 16
unfolding bswap_32
halves_32 v = refl

-- Swapping a 32-bit word twice gives it back.
pub bswap_32-bswap_32 : (v : ℕ) → v < 2 ^ 32 → bswap_32 (bswap_32 v) ≡ v
bswap_32-bswap_32 v h =
    rw (halves_32 (bswap_32 v), high_half_32 v, low_half_32 v)
      (omega (
        arith,
        bswap_16-bswap_16 (v / 2 ^ 16 % 2 ^ 16) (omega arith),
        bswap_16-bswap_16 (v % 2 ^ 16) (omega arith),
      ))

high_half_64 : (v : ℕ) → bswap_64 v / 2 ^ 32 % 2 ^ 32 ≡ bswap_32 (v % 2 ^ 32)
unfolding bswap_64
high_half_64 v = omega (arith, bswap_32-lt (v / 2 ^ 32 % 2 ^ 32), bswap_32-lt (v % 2 ^ 32))

low_half_64 : (v : ℕ) → bswap_64 v % 2 ^ 32 ≡ bswap_32 (v / 2 ^ 32 % 2 ^ 32)
unfolding bswap_64
low_half_64 v = omega (arith, bswap_32-lt (v / 2 ^ 32 % 2 ^ 32), bswap_32-lt (v % 2 ^ 32))

halves_64 : (v : ℕ) → bswap_64 v ≡ bswap_32 (v / 2 ^ 32 % 2 ^ 32) + bswap_32 (v % 2 ^ 32) * 2 ^ 32
unfolding bswap_64
halves_64 v = refl

-- Swapping a 64-bit word twice gives it back.
pub bswap_64-bswap_64 : (v : ℕ) → v < 2 ^ 64 → bswap_64 (bswap_64 v) ≡ v
bswap_64-bswap_64 v h =
    rw (halves_64 (bswap_64 v), high_half_64 v, low_half_64 v)
      (omega (
        arith,
        bswap_32-bswap_32 (v / 2 ^ 32 % 2 ^ 32) (omega arith),
        bswap_32-bswap_32 (v % 2 ^ 32) (omega arith),
      ))

-- The bytes of a swapped 32-bit word lie in memory in the reverse order.
pub to_memory-bswap_32 : (v : ℕ) → v < 2 ^ 32 → to_memory 4 (bswap_32 v) ≡ reverse (to_memory 4 v)
unfolding to_memory bswap_32 bswap_16
to_memory-bswap_32 v h = ground arith

pub length-to_memory : (k v : ℕ) → length (to_memory k v) ≡ k
unfolding to_memory
length-to_memory zero v = refl
length-to_memory (suc k) v = ap suc (length-to_memory k (v / 256))

-- A word that fits its width is what its memory holds.
pub of_memory-to_memory : (k v : ℕ) → v < 256 ^ k → of_memory (to_memory k v) ≡ v
unfolding to_memory of_memory
of_memory-to_memory zero v h = omega arith
of_memory-to_memory (suc k) v h =
    omega (arith, pow-suc 256 k, of_memory-to_memory k (v / 256) (omega (arith, pow-suc 256 k)))
