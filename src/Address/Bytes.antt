-- ===== src/Address/Bytes.antt =====
-- Masks on swapped words: bswap_32 passes through `|` and `&`, which go byte by byte.
use sylar.Common.{
  ℕ, zero, suc, ◌+◌, ◌-◌, ◌*◌, ◌/◌, ◌%◌, ◌^◌, ◌≤◌, ◌<◌, min, max, ◌≡◌, refl, ap, ◌∙◌, arith,
  bit_and, bit_or,
}
use sylar.Common.Bits.{and_digit, or_digit, bit_and-zero, double_shift}
use sylar.Endian.{bswap_16, bswap_32}
use sylar.Endian.Laws.{bswap_16-lt}
use native.Mathlib.Nat.{pow-suc}

-- An operation on binary digits.
module _ (op : ℕ → ℕ → ℕ) (digit : ℕ → ℕ → ℕ)
    (digit_op : (a b : ℕ) → op a b ≡ op (a / 2) (b / 2) * 2 + digit (a % 2) (b % 2))
    (digit-lt : (x y : ℕ) → x < 2 → y < 2 → digit x y < 2) (op-zero : op 0 0 ≡ 0) where
  op-half : (a b : ℕ) → op a b / 2 ≡ op (a / 2) (b / 2)
  op-half a b = omega (arith, digit_op a b, digit-lt (a % 2) (b % 2) (omega arith) (omega arith))

  pub op-lt : (k a b : ℕ) → a < 2 ^ k → b < 2 ^ k → op a b < 2 ^ k
  op-lt zero zero zero h i = omega (arith, op-zero)
  op-lt zero (suc a) b h i = absurd (omega arith)
  op-lt zero zero (suc b) h i = absurd (omega arith)
  op-lt (suc k) a b h i = omega (
    arith,
    pow-suc 2 k,
    op-half a b,
    op-lt k (a / 2) (b / 2) (omega (arith, pow-suc 2 k)) (omega (arith, pow-suc 2 k)),
  )

  -- The low digits apart from the rest.
  pub op_low :
      (k x y u v : ℕ)
      → x < 2 ^ k
      → u < 2 ^ k
      → op (x + y * 2 ^ k) (u + v * 2 ^ k) ≡ op x u + op y v * 2 ^ k
  op_low zero zero y zero v h i =
      let left : 0 + y * 2 ^ 0 ≡ y = omega arith in
      let right : 0 + v * 2 ^ 0 ≡ v = omega arith in rw (left, right) (omega (arith, op-zero))
  op_low zero (suc x) y u v h i = absurd (omega arith)
  op_low zero zero y (suc u) v h i = absurd (omega arith)
  op_low (suc k) x y u v h i =
      let a = x + y * 2 ^ suc k in
      let b = u + v * 2 ^ suc k in
      let half_a : a / 2 ≡ x / 2 + y * 2 ^ k = omega (arith, double_shift y k) in
      let half_b : b / 2 ≡ u / 2 + v * 2 ^ k = omega (arith, double_shift v k) in
      let low_a : a % 2 ≡ x % 2 = omega (arith, double_shift y k) in
      let low_b : b % 2 ≡ u % 2 = omega (arith, double_shift v k) in
      let rec =
        op_low k (x / 2) y (u / 2) v (omega (arith, pow-suc 2 k)) (omega (arith, pow-suc 2 k)) in
      let halves : op (a / 2) (b / 2) ≡ op (x / 2) (u / 2) + op y v * 2 ^ k =
        rw (half_a, half_b) rec in
      let digits : digit (a % 2) (b % 2) ≡ digit (x % 2) (u % 2) = rw (low_a, low_b) refl in
      omega (arith, digit_op a b, digit_op x u, halves, digits, double_shift (op y v) k)

  op-bswap_16 :
      (a b : ℕ) → a < 2 ^ 16 → b < 2 ^ 16 → op (bswap_16 a) (bswap_16 b) ≡ bswap_16 (op a b)
  unfolding bswap_16
  op-bswap_16 a b h i =
      let parts_a : a ≡ a % 256 + a / 256 * 2 ^ 8 = omega arith in
      let parts_b : b ≡ b % 256 + b / 256 * 2 ^ 8 = omega arith in
      let whole : op a b ≡ op (a % 256) (b % 256) + op (a / 256) (b / 256) * 2 ^ 8 =
        ap (λ (x : ℕ). op x b) parts_a
        ∙ ap (λ (y : ℕ). op (a % 256 + a / 256 * 2 ^ 8) y) parts_b
        ∙ op_low 8 (a % 256) (a / 256) (b % 256) (b / 256) (omega arith) (omega arith) in
      let low = op-lt 8 (a % 256) (b % 256) (omega arith) (omega arith) in
      let high = op-lt 8 (a / 256) (b / 256) (omega arith) (omega arith) in
      let top_a : a / 256 % 256 ≡ a / 256 = omega arith in
      let top_b : b / 256 % 256 ≡ b / 256 = omega arith in
      let swapped = op_low 8 (a / 256) (a % 256) (b / 256) (b % 256) (omega arith) (omega arith) in
      rw (top_a, top_b) (omega (arith, whole, low, high, swapped))

  -- The operation commutes with the swap of four bytes.
  pub op-bswap_32 :
      (a b : ℕ) → a < 2 ^ 32 → b < 2 ^ 32 → op (bswap_32 a) (bswap_32 b) ≡ bswap_32 (op a b)
  unfolding bswap_32
  op-bswap_32 a b h i =
      let al = a % 2 ^ 16 in
      let ah = a / 2 ^ 16 in
      let bl = b % 2 ^ 16 in
      let bh = b / 2 ^ 16 in
      let whole : op a b ≡ op al bl + op ah bh * 2 ^ 16 =
        ap (λ (x : ℕ). op x b) (let p : a ≡ al + ah * 2 ^ 16 = omega arith in p)
        ∙ ap (λ (y : ℕ). op (al + ah * 2 ^ 16) y) (let p : b ≡ bl + bh * 2 ^ 16 = omega arith in p)
        ∙ op_low 16 al ah bl bh (omega arith) (omega arith) in
      let low = op-lt 16 al bl (omega arith) (omega arith) in
      let high = op-lt 16 ah bh (omega arith) (omega arith) in
      let top_a : ah % 2 ^ 16 ≡ ah = omega arith in
      let top_b : bh % 2 ^ 16 ≡ bh = omega arith in
      let top : op a b / 2 ^ 16 % 2 ^ 16 ≡ op ah bh = omega (arith, whole, low, high) in
      let bottom : op a b % 2 ^ 16 ≡ op al bl = omega (arith, whole, low) in
      rw (top_a, top_b, top, bottom)
        (op_low 16 (bswap_16 ah) (bswap_16 al) (bswap_16 bh) (bswap_16 bl) (bswap_16-lt ah)
            (bswap_16-lt bh)
          ∙ (rw
              (
                op-bswap_16 ah bh (omega arith) (omega arith),
                op-bswap_16 al bl (omega arith) (omega arith),
              )
              refl))

digit_min : (x y : ℕ) → x < 2 → y < 2 → min x y < 2
digit_min x y h i = omega arith

digit_max : (x y : ℕ) → x < 2 → y < 2 → max x y < 2
digit_max x y h i = omega arith

pub bit_and-bswap_32 :
    (a b : ℕ) → a < 2 ^ 32 → b < 2 ^ 32 → bit_and (bswap_32 a) (bswap_32 b) ≡ bswap_32 (bit_and a b)
bit_and-bswap_32 = op-bswap_32 bit_and min and_digit digit_min refl

pub bit_or-bswap_32 :
    (a b : ℕ) → a < 2 ^ 32 → b < 2 ^ 32 → bit_or (bswap_32 a) (bswap_32 b) ≡ bswap_32 (bit_or a b)
bit_or-bswap_32 = op-bswap_32 bit_or max or_digit digit_max refl

and_ones : (k x : ℕ) → x < 2 ^ k → bit_and x (2 ^ k - 1) ≡ x
and_ones zero zero h = bit_and-zero 0
and_ones zero (suc x) h = absurd (omega arith)
and_ones (suc k) x h = ground (arith, and_digit x (2 ^ suc k - 1), pow-suc 2 k, and_ones k (x / 2))

or_ones : (k x : ℕ) → x < 2 ^ k → bit_or x (2 ^ k - 1) ≡ 2 ^ k - 1
or_ones zero zero h = refl
or_ones zero (suc x) h = absurd (omega arith)
or_ones (suc k) x h = ground (arith, or_digit x (2 ^ suc k - 1), pow-suc 2 k, or_ones k (x / 2))

or-zero : (n a : ℕ) → a ≤ n → bit_or a 0 ≡ a
or-zero n zero h = refl
or-zero zero (suc a) h = absurd (omega arith)
or-zero (suc n) (suc a) h = omega (arith, or_digit (suc a) 0, or-zero n (suc a / 2) (omega arith))

-- With a mask of the low k bits, `&` keeps just them and `|` sets them.
pub and_mask : (k host net : ℕ) → host < 2 ^ k → bit_and (host + net * 2 ^ k) (2 ^ k - 1) ≡ host
and_mask k host net h =
    let mask : 2 ^ k - 1 ≡ 2 ^ k - 1 + 0 * 2 ^ k = omega arith in
    ap (λ (m : ℕ). bit_and (host + net * 2 ^ k) m) mask
    ∙ op_low bit_and min and_digit digit_min refl k host net (2 ^ k - 1) 0 h (omega arith)
    ∙ ap (λ (x : ℕ). bit_and host (2 ^ k - 1) + x * 2 ^ k) (bit_and-zero net)
    ∙ omega (arith, and_ones k host h)

pub or_mask :
    (k host net : ℕ)
    → host < 2 ^ k
    → bit_or (host + net * 2 ^ k) (2 ^ k - 1) ≡ 2 ^ k - 1 + net * 2 ^ k
or_mask k host net h =
    let mask : 2 ^ k - 1 ≡ 2 ^ k - 1 + 0 * 2 ^ k = omega arith in
    ap (λ (m : ℕ). bit_or (host + net * 2 ^ k) m) mask
    ∙ op_low bit_or max or_digit digit_max refl k host net (2 ^ k - 1) 0 h (omega arith)
    ∙ ap (λ (x : ℕ). x + bit_or net 0 * 2 ^ k) (or_ones k host h)
    ∙ ap (λ (x : ℕ). 2 ^ k - 1 + x * 2 ^ k) (or-zero net net (omega arith))

-- The complement of a swapped word is the swapped complement.
complement_16 : (a : ℕ) → a < 2 ^ 16 → bswap_16 (2 ^ 16 - 1 - a) ≡ 2 ^ 16 - 1 - bswap_16 a
unfolding bswap_16
complement_16 a h = omega arith

pub complement-bswap_32 : (a : ℕ) → a < 2 ^ 32 → 2 ^ 32 - 1 - bswap_32 a ≡ bswap_32 (2 ^ 32 - 1 - a)
unfolding bswap_32
complement-bswap_32 a h =
    let high : (2 ^ 32 - 1 - a) / 2 ^ 16 % 2 ^ 16 ≡ 2 ^ 16 - 1 - a / 2 ^ 16 = omega arith in
    let low : (2 ^ 32 - 1 - a) % 2 ^ 16 ≡ 2 ^ 16 - 1 - a % 2 ^ 16 = omega arith in
    let top : a / 2 ^ 16 % 2 ^ 16 ≡ a / 2 ^ 16 = omega arith in
    let first = complement_16 (a / 2 ^ 16) (omega arith) in
    let second = complement_16 (a % 2 ^ 16) (omega arith) in
    rw (high, low, top, first, second)
      (omega (arith, bswap_16-lt (a / 2 ^ 16), bswap_16-lt (a % 2 ^ 16)))
