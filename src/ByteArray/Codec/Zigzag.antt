-- ===== src/ByteArray/Codec/Zigzag.antt =====
-- The zigzag code is a bijection between the signed words and the unsigned words of a width.
use sylar.Common.{ℕ, ◌-◌, ◌/◌, ◌%◌, ◌^◌, ◌<◌, ◌≡◌, ◌⊎◌, inl, inr, ◌∙◌, arith, ltb, if◌then◌else◌}
use sylar.Common.Int.{ℤ, pos, negsuc}
use sylar.Common.Bits.{bit_and-one, bit_xor-zero, bit_xor_ones}
use sylar.ByteArray.Codec.{encode_zigzag32, encode_zigzag64, decode_zigzag32, decode_zigzag64}

-- The values of a signed word of k bits.
abbrev pub IsSigned : ℕ → ℤ → Type 0
IsSigned k (pos n) = n < 2 ^ (k - 1)
IsSigned k (negsuc n) = n < 2 ^ (k - 1)

-- Even codes are the numbers from 0 up, odd codes those from -1 down.
even_or_odd : (v : ℕ) → (v % 2 ≡ 0) ⊎ (v % 2 ≡ 1)
even_or_odd v = ground arith

unzigzag : ℕ → ℤ
unzigzag v = if ltb (v % 2) 1 then pos (v / 2) else negsuc (v / 2)

decode_zigzag32-unzigzag : (v : ℕ) → v < 2 ^ 32 → decode_zigzag32 v ≡ unzigzag v
unfolding decode_zigzag32 unzigzag
decode_zigzag32-unzigzag v h = elim (even_or_odd v) [
  | inl e ↦ ground (arith, bit_and-one v, bit_xor-zero (v / 2))
  | inr e ↦ ground (arith, bit_and-one v, bit_xor_ones 32 (v / 2))
]

decode_zigzag64-unzigzag : (v : ℕ) → v < 2 ^ 64 → decode_zigzag64 v ≡ unzigzag v
unfolding decode_zigzag64 unzigzag
decode_zigzag64-unzigzag v h = elim (even_or_odd v) [
  | inl e ↦ ground (arith, bit_and-one v, bit_xor-zero (v / 2))
  | inr e ↦ ground (arith, bit_and-one v, bit_xor_ones 64 (v / 2))
]

pub encode_zigzag32-lt : (v : ℤ) → encode_zigzag32 v < 2 ^ 32
unfolding encode_zigzag32
encode_zigzag32-lt (pos n) = omega arith
encode_zigzag32-lt (negsuc n) = omega arith

pub encode_zigzag64-lt : (v : ℤ) → encode_zigzag64 v < 2 ^ 64
unfolding encode_zigzag64
encode_zigzag64-lt (pos n) = omega arith
encode_zigzag64-lt (negsuc n) = omega arith

unzigzag-encode_zigzag32 : (v : ℤ) → IsSigned 32 v → unzigzag (encode_zigzag32 v) ≡ v
unfolding unzigzag encode_zigzag32
unzigzag-encode_zigzag32 (pos n) h = ground arith
unzigzag-encode_zigzag32 (negsuc n) h = ground arith

-- Decoding the code of any int32_t gives it back.
pub decode_zigzag32-encode_zigzag32 :
    (v : ℤ) → IsSigned 32 v → decode_zigzag32 (encode_zigzag32 v) ≡ v
decode_zigzag32-encode_zigzag32 v h =
    decode_zigzag32-unzigzag (encode_zigzag32 v) (encode_zigzag32-lt v)
    ∙ unzigzag-encode_zigzag32 v h

unzigzag-IsSigned32 : (v : ℕ) → v < 2 ^ 32 → IsSigned 32 (unzigzag v)
unfolding unzigzag
unzigzag-IsSigned32 v h = elim (even_or_odd v) [
  | inl e ↦ rw e (omega arith)
  | inr e ↦ rw e (omega arith)
]

encode_zigzag32-unzigzag : (v : ℕ) → v < 2 ^ 32 → encode_zigzag32 (unzigzag v) ≡ v
unfolding unzigzag encode_zigzag32
encode_zigzag32-unzigzag v h = ground arith

-- Every uint32_t is the code of the int32_t that it decodes to.
encode_zigzag32-decode_zigzag32 :
    (v : ℕ)
    → v < 2 ^ 32
    → IsSigned 32 (decode_zigzag32 v) × (encode_zigzag32 (decode_zigzag32 v) ≡ v)
encode_zigzag32-decode_zigzag32 v h =
    rw (decode_zigzag32-unzigzag v h) (unzigzag-IsSigned32 v h, encode_zigzag32-unzigzag v h)

unzigzag-encode_zigzag64 : (v : ℤ) → IsSigned 64 v → unzigzag (encode_zigzag64 v) ≡ v
unfolding unzigzag encode_zigzag64
unzigzag-encode_zigzag64 (pos n) h = ground arith
unzigzag-encode_zigzag64 (negsuc n) h = ground arith

-- Decoding the code of any int64_t gives it back.
pub decode_zigzag64-encode_zigzag64 :
    (v : ℤ) → IsSigned 64 v → decode_zigzag64 (encode_zigzag64 v) ≡ v
decode_zigzag64-encode_zigzag64 v h =
    decode_zigzag64-unzigzag (encode_zigzag64 v) (encode_zigzag64-lt v)
    ∙ unzigzag-encode_zigzag64 v h

unzigzag-IsSigned64 : (v : ℕ) → v < 2 ^ 64 → IsSigned 64 (unzigzag v)
unfolding unzigzag
unzigzag-IsSigned64 v h = elim (even_or_odd v) [
  | inl e ↦ rw e (omega arith)
  | inr e ↦ rw e (omega arith)
]

encode_zigzag64-unzigzag : (v : ℕ) → v < 2 ^ 64 → encode_zigzag64 (unzigzag v) ≡ v
unfolding unzigzag encode_zigzag64
encode_zigzag64-unzigzag v h = ground arith

-- Every uint64_t is the code of the int64_t that it decodes to.
pub encode_zigzag64-decode_zigzag64 :
    (v : ℕ)
    → v < 2 ^ 64
    → IsSigned 64 (decode_zigzag64 v) × (encode_zigzag64 (decode_zigzag64 v) ≡ v)
encode_zigzag64-decode_zigzag64 v h =
    rw (decode_zigzag64-unzigzag v h) (unzigzag-IsSigned64 v h, encode_zigzag64-unzigzag v h)
