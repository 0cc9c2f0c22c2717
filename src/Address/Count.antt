-- ===== src/Address/Count.antt =====
-- CountBytes ends and counts the ones of a word.
use sylar.Common.{
  ℕ, zero, suc, ◌+◌, ◌/◌, ◌%◌, ◌^◌, ◌≤◌, ◌<◌, ◌≡◌, refl, ap, ◌∙◌, arith, inl, inr, bit_and, ◌==◌,
  Bool-cases,
}
use sylar.Common.Bits.{and_digit, bit_and-zero, zero-bit_and}
use sylar.Common.Outcome.{ok}
use sylar.Address.{count_loop, count_bytes}
use native.Mathlib.Nat.{pow-suc}

-- The ones among the lowest `width` binary digits.
abbrev pub ones : (width value : ℕ) → ℕ
ones zero value = 0
ones (suc width) value = value % 2 + ones width (value / 2)

ones-zero : (width : ℕ) → ones width 0 ≡ 0
ones-zero zero = refl
ones-zero (suc width) = omega (arith, ones-zero width)

and_self : (width a : ℕ) → a < 2 ^ width → bit_and a a ≡ a
and_self zero a h = let none : a ≡ 0 = omega arith in rw none (bit_and-zero 0)
and_self (suc width) a h = ground (arith, and_digit a a, pow-suc 2 width, and_self width (a / 2))

-- `value &= value - 1` takes away the lowest one.
ones-and :
    (width v : ℕ) → suc v < 2 ^ width → ones width (bit_and (suc v) v) + 1 ≡ ones width (suc v)
ones-and zero v h = absurd (omega arith)
ones-and (suc width) v h = elim (Bool-cases (v % 2 == 0)) [
  | inl e ↦
      let even : v % 2 ≡ 0 = ground (arith, e) in
      let same : suc v / 2 ≡ v / 2 = omega arith in
      let half : bit_and (suc v) v / 2 ≡ v / 2 = omega (
        arith,
        and_digit (suc v) v,
        ap (λ (q : ℕ). bit_and q (v / 2)) same,
        and_self width (v / 2) (omega (arith, pow-suc 2 width)),
      ) in
      let low : bit_and (suc v) v % 2 ≡ 0 = omega (arith, and_digit (suc v) v) in
      rw (half, low, same) (omega arith)
  | inr e ↦
      let odd : v % 2 ≡ 1 = ground (arith, e) in
      let next : suc v / 2 ≡ suc (v / 2) = omega arith in
      let half : bit_and (suc v) v / 2 ≡ bit_and (suc (v / 2)) (v / 2) =
        omega (arith, and_digit (suc v) v, ap (λ (q : ℕ). bit_and q (v / 2)) next) in
      let low : bit_and (suc v) v % 2 ≡ 0 = omega (arith, and_digit (suc v) v) in
      let rec = ones-and width (v / 2) (omega (arith, pow-suc 2 width)) in
      rw (half, low, next) (omega (arith, rec))
]

and-le : (n a b : ℕ) → a ≤ n → bit_and a b ≤ a
and-le n zero b h = omega (arith, zero-bit_and b)
and-le zero (suc a) b h = absurd (omega arith)
and-le (suc n) (suc a) b h =
    omega (arith, and_digit (suc a) b, and-le n (suc a / 2) (b / 2) (omega arith))

count_loop-ones :
    (fuel width value result : ℕ)
    → value < 2 ^ width
    → ones width value < fuel
    → count_loop fuel value result ≡ ok (result + ones width value)
unfolding count_loop
count_loop-ones zero width value result small enough = absurd (omega arith)
count_loop-ones (suc fuel) width zero result small enough =
    let none = ones-zero width in
    let sum : result ≡ result + ones width 0 = omega (arith, none) in ap ok sum
count_loop-ones (suc fuel) width (suc v) result small enough =
    let less = ones-and width v small in
    let next = bit_and (suc v) v in
    let sum : result + 1 + ones width next ≡ result + ones width (suc v) = omega (arith, less) in
    count_loop-ones fuel width next (result + 1)
      (omega (arith, and-le (suc v) (suc v) v (omega arith))) (omega (arith, less))
    ∙ ap ok sum

ones-le : (width value : ℕ) → ones width value ≤ width
ones-le zero value = omega arith
ones-le (suc width) value = omega (arith, ones-le width (value / 2))

-- CountBytes ends on every word of up to 64 bits, after as many rounds as the word has ones, and returns
-- their number.
pub count_bytes-ones :
    (width value : ℕ) → width ≤ 64 → value < 2 ^ width → count_bytes value ≡ ok (ones width value)
unfolding count_bytes
count_bytes-ones width value narrow small =
    count_loop-ones 65 width value 0 small (omega (arith, ones-le width value))
    ∙ ap ok (omega arith)
