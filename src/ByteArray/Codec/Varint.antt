-- ===== src/ByteArray/Codec/Varint.antt =====
-- The variable-length code: seven bits to a byte, lowest first, the top bit set on all but the last.
use sylar.Common.{
  ℕ, zero, suc, ◌+◌, ◌*◌, ◌/◌, ◌%◌, ◌^◌, ◌≤◌, ◌<◌, ◌≡◌, refl, sym, ap, ◌∙◌, subst, arith, List, [],
  ◌∷◌, length, if◌then◌else◌, true, false, ltb, bit_and, bit_or,
}
use sylar.Common.Int.{ℤ}
use sylar.Common.Bits.{bit_or_shifted, bit_and-0x7f, bit_or-0x80}
use sylar.Common.Memory.{slice}
use sylar.Common.Outcome.{ok, through_ok}
use sylar.Endian.{to_memory}
use sylar.ByteArray.{ByteArray, Cell, write, set_position}
use sylar.ByteArray.Seated.{IsValid, content}
use sylar.ByteArray.Read.{moved_to}
use sylar.ByteArray.Codec.{
  varint_bytes, write_uint32, write_uint64, write_int32, write_int64, read_varint_loop, read_fuint8,
  read_uint32, read_uint64, read_int32, read_int64, encode_zigzag32, encode_zigzag64,
}
use sylar.ByteArray.Codec.Holds.{Holds, Decodes, RoundTrip, round_trip}
use sylar.ByteArray.Codec.Fixed.{read_fuint8-Decodes}
use sylar.ByteArray.Codec.Zigzag.{
  IsSigned, encode_zigzag32-lt, encode_zigzag64-lt, decode_zigzag32-encode_zigzag32,
  decode_zigzag64-encode_zigzag64,
}
use native.Mathlib.Nat.{pow-suc, div-add-mod, mod-eq_of_lt}
use native.Mathlib.Decide.{dec_lt}
use native.Mathlib.Numerals.{towards_suc}

-- The code of a value below 128 ^ (k + 1), in plain arithmetic.
unfoldable pub groups : ℕ → ℕ → List ℕ
groups zero v = v ∷ []
groups (suc k) v =
    let rest = groups k (v / 128) in if ltb v 128 then v ∷ [] else (v % 128 + 128) ∷ rest

group_byte : (v : ℕ) → bit_or (bit_and v 0x7f) 0x80 ≡ v % 128 + 128
group_byte v = rw (bit_and-0x7f v) (bit_or-0x80 (v % 128) (omega arith))

-- The store into `tmp` stays inside k + 1 slots for values below 128 ^ (k + 1).
pub varint_bytes-groups : (k v : ℕ) → v < 128 ^ suc k → varint_bytes (suc k) v ≡ ok (groups k v)
unfolding varint_bytes groups
varint_bytes-groups zero v h = ground arith
varint_bytes-groups (suc k) v h =
    ground (arith, group_byte v, pow-suc 128 (suc k), varint_bytes-groups k (v / 128))

pub length-groups : (k v : ℕ) → (1 ≤ length (groups k v)) × (length (groups k v) ≤ suc k)
unfolding groups
length-groups zero v = omega arith
length-groups (suc k) v = ground (arith, length-groups k (v / 128))

-- The first byte of what is held, and the rest.
slice-cons :
    (xs : List Cell) (p q n : ℕ) {c : Cell} {cs : List Cell}
    → q ≡ p + 1
    → slice xs p (suc n) ≡ c ∷ cs
    → (slice xs p 1 ≡ c ∷ []) × (slice xs q n ≡ cs)
slice-cons [] zero q n e h = cc
slice-cons [] (suc p) q n e h = cc
slice-cons (x ∷ xs) zero zero n e h = absurd (omega arith)
slice-cons (x ∷ xs) zero (suc zero) n e h = (cc, cc)
slice-cons (x ∷ xs) zero (suc (suc q)) n e h = absurd (omega arith)
slice-cons (x ∷ xs) (suc p) zero n e h = absurd (omega arith)
slice-cons (x ∷ xs) (suc p) (suc q) n e h = slice-cons xs p q n (omega arith) h

Holds-cons :
    (s : ByteArray) (p b : ℕ) (bs : List ℕ)
    → Holds s p (b ∷ bs)
    → Holds s p (b ∷ []) × Holds s (p + 1) bs
Holds-cons s p b bs h =
    let (first, rest) = slice-cons (content s) p (p + 1) (length bs) refl h.there in
    (
      record { there = first; within = omega (arith, h.within) },
      record { there = rest; within = omega (arith, h.within) },
    )

shift_seven : (i : ℕ) → 2 ^ (i + 7) ≡ 128 * 2 ^ i
shift_seven i = simp towards_suc (omega arith)

split_group : (w i : ℕ) → w * 2 ^ i ≡ w % 128 * 2 ^ i + w / 128 * 2 ^ (i + 7)
split_group w i = omega (
  arith,
  ap (λ (t : ℕ). t * 2 ^ i) (div-add-mod w 128),
  ap (λ (t : ℕ). w / 128 * t) (shift_seven i),
)

-- One group added above the bits that are there.
add_group :
    (width i result g : ℕ)
    → result < 2 ^ i
    → g * 2 ^ i < 2 ^ width
    → bit_or result (g * 2 ^ i % 2 ^ width) ≡ result + g * 2 ^ i
add_group width i result g h fits = rw (mod-eq_of_lt fits) (bit_or_shifted i result g h)

last_byte :
    (width fuel i result b : ℕ) (s t : ByteArray)
    → i < width
    → read_fuint8 s ≡ ok (b, t)
    → b < 0x80
    → read_varint_loop width (suc fuel) i result s ≡ ok (bit_or result (b * 2 ^ i % 2 ^ width), t)
unfolding read_varint_loop
last_byte width fuel i result b s t h r low =
    let inside : ltb i width ≡ true = ground arith in
    let last : ltb b 0x80 ≡ true = ground arith in rw (inside, read_varint_loop) (rw r (rw last))

inner_byte :
    (width fuel i result b : ℕ) (s t : ByteArray)
    → i < width
    → read_fuint8 s ≡ ok (b, t)
    → 0x80 ≤ b
    → read_varint_loop width (suc fuel) i result s
      ≡ read_varint_loop width fuel (i + 7) (bit_or result (bit_and b 0x7f * 2 ^ i % 2 ^ width)) t
unfolding read_varint_loop
inner_byte width fuel i result b s t h r high =
    let inside : ltb i width ≡ true = ground arith in
    let more : ltb b 0x80 ≡ false = ground arith in rw (inside, read_varint_loop) (rw r (rw more))

byte_read :
    (b : ℕ) (s : ByteArray)
    → IsValid s
    → b < 256
    → Holds s s.position (b ∷ [])
    → Decodes read_fuint8 (b ∷ []) b s
unfolding to_memory
byte_read b s v h held =
    let same : b % 256 ≡ b = omega arith in
    subst (λ (x : ℕ). Decodes read_fuint8 (x ∷ []) b s) same
      (read_fuint8-Decodes b s v h (subst (λ (x : ℕ). Holds s s.position (x ∷ [])) (sym same) held))

last_round :
    (w i result fuel width : ℕ) (s : ByteArray)
    → IsValid s
    → Holds s s.position (w ∷ [])
    → w < 128
    → result < 2 ^ i
    → w * 2 ^ i < 2 ^ width
    → i < width
    → Decodes (read_varint_loop width (suc fuel) i result) (w ∷ []) (result + w * 2 ^ i) s
last_round w i result fuel width s v held low above fits inside =
    let (c, done, later) = byte_read w s v (omega arith) held in
    (
      c,
      last_byte width fuel i result w s _ inside done low
          ∙ ap (λ (r : ℕ). ok (r, moved_to s (s.position + 1) c))
              (add_group width i result w above fits),
      later,
    )

-- After a byte with the top bit set the loop goes on at the next byte, seven bits further up.
inner_round :
    (w i result fuel width v : ℕ) (rest : List ℕ) (s : ByteArray)
    → IsValid s
    → Holds s s.position ((w % 128 + 128) ∷ rest)
    → result < 2 ^ i
    → w % 128 * 2 ^ i < 2 ^ width
    → i < width
    → ((t : ByteArray)
        → IsValid t
        → Holds t t.position rest
        → Decodes (read_varint_loop width fuel (i + 7) (result + w % 128 * 2 ^ i)) rest v t)
    → Decodes (read_varint_loop width (suc fuel) i result) ((w % 128 + 128) ∷ rest) v s
inner_round w i result fuel width v rest s valid held above fits inside further =
    let (first, others) = Holds-cons s s.position (w % 128 + 128) rest held in
    let (c, done, later) = byte_read (w % 128 + 128) s valid (omega arith) first in
    let (d, got, last) =
      further (moved_to s (s.position + 1) c) later
        (record { there = others.there; within = others.within }) in
    let low : bit_and (w % 128 + 128) 0x7f ≡ w % 128 =
      omega (arith, bit_and-0x7f (w % 128 + 128)) in
    let end : s.position + 1 + length rest ≡ s.position + suc (length rest) = omega arith in
    (
      d,
      inner_byte width fuel i result (w % 128 + 128) s _ inside done (omega arith)
          ∙ rw (low, add_group width i result (w % 128) above fits, ← end) got,
      rw end at last,
    )

groups_last : (k w : ℕ) → w < 128 → groups k w ≡ w ∷ []
unfolding groups
groups_last zero w h = refl
groups_last (suc k) w h = let low : ltb w 128 ≡ true = ground arith in rw low

groups_inner : (k w : ℕ) → 128 ≤ w → groups (suc k) w ≡ (w % 128 + 128) ∷ groups k (w / 128)
unfolding groups
groups_inner k w h = let high : ltb w 128 ≡ false = ground arith in rw high

-- The loop collects the value of the code that stands at the position, above the bits it has.
read_varint-groups :
    (k w i result rounds width : ℕ) (s : ByteArray)
    → IsValid s
    → Holds s s.position (groups k w)
    → w < 128 ^ suc k
    → result < 2 ^ i
    → result + w * 2 ^ i < 2 ^ width
    → i + 7 * k < width
    → k < rounds
    → Decodes (read_varint_loop width rounds i result) (groups k w) (result + w * 2 ^ i) s
read_varint-groups k w i result zero width s v held small above fits inside r = elim r [ ]
read_varint-groups zero w i result (suc rounds) width s v held small above fits inside r =
    rw (groups_last 0 w (omega arith)) (
      last_round w i result rounds width s v
        (subst (Holds s s.position) (groups_last 0 w (omega arith)) held) (omega arith) above
        (omega arith) (omega arith))
read_varint-groups (suc k) w i result (suc rounds) width s v held small above fits inside r =
    elim (dec_lt w 128) [
      | yes low ↦ rw (groups_last (suc k) w low) (
          last_round w i result rounds width s v
            (subst (Holds s s.position) (groups_last (suc k) w low) held) low above (omega arith)
            (omega arith))
      | no high ↦
          let e = groups_inner k w (omega arith) in
          let split = split_group w i in
          let room : (w % 128 + 1) * 2 ^ i ≤ 128 * 2 ^ i = grind arith in
          let total : result + w % 128 * 2 ^ i + w / 128 * 2 ^ (i + 7) ≡ result + w * 2 ^ i =
            omega (arith, split) in
          rw e (
            inner_round w i result rounds width _ (groups k (w / 128)) s v
              (subst (Holds s s.position) e held) above (omega (arith, split)) (omega arith)
              (λ t tv theld. rw (← total) (
                read_varint-groups k (w / 128) (i + 7) (result + w % 128 * 2 ^ i) rounds width t tv
                  theld (omega (arith, pow-suc 128 (suc k))) (omega (arith, shift_seven i))
                  (omega (arith, split)) (omega arith) (omega arith))))
    ]

pub read_uint32-Decodes :
    (v : ℕ) (s : ByteArray)
    → IsValid s
    → v < 2 ^ 32
    → Holds s s.position (groups 4 v)
    → Decodes read_uint32 (groups 4 v) v s
unfolding read_uint32
read_uint32-Decodes v s valid h held =
    let (c, done, later) =
      read_varint-groups 4 v 0 0 6 32 s valid held (omega arith) (omega arith) (omega arith)
        (omega arith) (omega arith) in
    (
      c,
      done ∙ ap (λ (n : ℕ). ok (n, moved_to s (s.position + length (groups 4 v)) c)) (omega arith),
      later,
    )

pub write_uint32-groups :
    (v : ℕ) (s : ByteArray) → v < 2 ^ 32 → write_uint32 v s ≡ write (groups 4 v) s
unfolding write_uint32
write_uint32-groups v s h = rw (varint_bytes-groups 4 v (omega arith))

-- Any uint32_t is written as 1 to 5 bytes, inside `tmp`, and is read back.
pub uint32-RoundTrip :
    (v : ℕ) (s : ByteArray) → IsValid s → v < 2 ^ 32 → RoundTrip s (write_uint32 v s) read_uint32 v
uint32-RoundTrip v s valid h = rw (write_uint32-groups v s h) (
    round_trip (groups 4 v) s read_uint32 v valid
      (λ u uv order held. read_uint32-Decodes v u uv h held))

-- Any int32_t that is written in the zigzag code is read back.
pub int32-RoundTrip :
    (v : ℤ) (s : ByteArray) → IsValid s → IsSigned 32 v → RoundTrip s (write_int32 v s) read_int32 v
unfolding write_int32 read_int32
int32-RoundTrip v s valid h =
    let (t, u, written, got, uv, at, same) =
      uint32-RoundTrip (encode_zigzag32 v) s valid (encode_zigzag32-lt v) in
    let (x, back, rd) = through_ok read_uint32 (set_position s.position t) got in
    (t, u, written, rw back (rw rd (rw (decode_zigzag32-encode_zigzag32 v h))), uv, at, same)

pub read_uint64-Decodes :
    (v : ℕ) (s : ByteArray)
    → IsValid s
    → v < 2 ^ 64
    → Holds s s.position (groups 9 v)
    → Decodes read_uint64 (groups 9 v) v s
unfolding read_uint64
read_uint64-Decodes v s valid h held =
    let (c, done, later) =
      read_varint-groups 9 v 0 0 11 64 s valid held (omega arith) (omega arith) (omega arith)
        (omega arith) (omega arith) in
    (
      c,
      done ∙ ap (λ (n : ℕ). ok (n, moved_to s (s.position + length (groups 9 v)) c)) (omega arith),
      later,
    )

pub write_uint64-groups :
    (v : ℕ) (s : ByteArray) → v < 2 ^ 64 → write_uint64 v s ≡ write (groups 9 v) s
unfolding write_uint64
write_uint64-groups v s h = rw (varint_bytes-groups 9 v (omega arith))

-- Any uint64_t is written as 1 to 10 bytes, inside `tmp`, and is read back.
pub uint64-RoundTrip :
    (v : ℕ) (s : ByteArray) → IsValid s → v < 2 ^ 64 → RoundTrip s (write_uint64 v s) read_uint64 v
uint64-RoundTrip v s valid h = rw (write_uint64-groups v s h) (
    round_trip (groups 9 v) s read_uint64 v valid
      (λ u uv order held. read_uint64-Decodes v u uv h held))

-- Any int64_t that is written in the zigzag code is read back.
int64-RoundTrip :
    (v : ℤ) (s : ByteArray) → IsValid s → IsSigned 64 v → RoundTrip s (write_int64 v s) read_int64 v
unfolding write_int64 read_int64
int64-RoundTrip v s valid h =
    let (t, u, written, got, uv, at, same) =
      uint64-RoundTrip (encode_zigzag64 v) s valid (encode_zigzag64-lt v) in
    let (x, back, rd) = through_ok read_uint64 (set_position s.position t) got in
    (t, u, written, rw back (rw rd (rw (decode_zigzag64-encode_zigzag64 v h))), uv, at, same)
