-- ===== src/ByteArray/Codec/Fixed.antt =====
-- The accessors of fixed width: what is written is read back, in either byte order.
use sylar.Common.{ℕ, ◌%◌, ◌^◌, ◌<◌, ◌≡◌, refl, sym, subst, arith}
use sylar.Endian.{ByteOrder, little_endian, big_endian, to_memory}
use sylar.Endian.Laws.{
  bswap_16-bswap_16, bswap_32-bswap_32, bswap_64-bswap_64, bswap_16-lt, bswap_32-lt, bswap_64-lt,
  length-to_memory, of_memory-to_memory,
}
use sylar.ByteArray.{ByteArray}
use sylar.ByteArray.Seated.{IsValid}
use sylar.ByteArray.Codec.{
  swap_16, swap_32, swap_64, read_bytes, write_fint8, write_fuint8, write_fint16, write_fuint16,
  write_fint32, write_fuint32, write_fint64, write_fuint64, read_fint8, read_fuint8, read_fint16,
  read_fuint16, read_fint32, read_fuint32, read_fint64, read_fuint64,
}
use sylar.ByteArray.Codec.Holds.{Holds, Decodes, RoundTrip, read_bytes-Decodes, round_trip}

-- A word of k bytes in memory is read back as that word.
word-Decodes :
    (k v : ℕ) (s : ByteArray)
    → IsValid s
    → 0 < k
    → Holds s s.position (to_memory k v)
    → Decodes (read_bytes k) (to_memory k v) (to_memory k v) s
word-Decodes k v s valid h held =
    subst (λ (n : ℕ). Decodes (read_bytes n) (to_memory k v) (to_memory k v) s)
      (length-to_memory k v)
      (read_bytes-Decodes (to_memory k v) s valid (omega (arith, length-to_memory k v)) held)

swap_16-lt : (order : ByteOrder) (v : ℕ) → v < 2 ^ 16 → swap_16 order v < 2 ^ 16
swap_16-lt little_endian v h = h
swap_16-lt big_endian v h = bswap_16-lt v

swap_16-swap_16 : (order : ByteOrder) (v : ℕ) → v < 2 ^ 16 → swap_16 order (swap_16 order v) ≡ v
swap_16-swap_16 little_endian v h = refl
swap_16-swap_16 big_endian v h = bswap_16-bswap_16 v h

swap_32-lt : (order : ByteOrder) (v : ℕ) → v < 2 ^ 32 → swap_32 order v < 2 ^ 32
swap_32-lt little_endian v h = h
swap_32-lt big_endian v h = bswap_32-lt v

swap_32-swap_32 : (order : ByteOrder) (v : ℕ) → v < 2 ^ 32 → swap_32 order (swap_32 order v) ≡ v
swap_32-swap_32 little_endian v h = refl
swap_32-swap_32 big_endian v h = bswap_32-bswap_32 v h

swap_64-lt : (order : ByteOrder) (v : ℕ) → v < 2 ^ 64 → swap_64 order v < 2 ^ 64
swap_64-lt little_endian v h = h
swap_64-lt big_endian v h = bswap_64-lt v

swap_64-swap_64 : (order : ByteOrder) (v : ℕ) → v < 2 ^ 64 → swap_64 order (swap_64 order v) ≡ v
swap_64-swap_64 little_endian v h = refl
swap_64-swap_64 big_endian v h = bswap_64-bswap_64 v h

pub read_fuint8-Decodes :
    (v : ℕ) (s : ByteArray)
    → IsValid s
    → v < 2 ^ 8
    → Holds s s.position (to_memory 1 v)
    → Decodes read_fuint8 (to_memory 1 v) v s
unfolding read_fuint8
read_fuint8-Decodes v s valid h held =
    let (c, done, later) = word-Decodes 1 v s valid (omega arith) held in
    (c, rw done (rw (of_memory-to_memory 1 v (omega arith))), later)

-- A uint8_t that is written is read back.
pub fuint8-RoundTrip :
    (v : ℕ) (s : ByteArray) → IsValid s → v < 2 ^ 8 → RoundTrip s (write_fuint8 v s) read_fuint8 v
unfolding write_fuint8
fuint8-RoundTrip v s valid h =
    round_trip (to_memory 1 v) s read_fuint8 v valid
      (λ u uv order held. read_fuint8-Decodes v u uv h held)

pub read_fuint16-Decodes :
    (v : ℕ) (s : ByteArray)
    → IsValid s
    → v < 2 ^ 16
    → Holds s s.position (to_memory 2 (swap_16 s.endian v))
    → Decodes read_fuint16 (to_memory 2 (swap_16 s.endian v)) v s
unfolding read_fuint16
read_fuint16-Decodes v s valid h held =
    let (c, done, later) = word-Decodes 2 (swap_16 s.endian v) s valid (omega arith) held in
    let whole = of_memory-to_memory 2 (swap_16 s.endian v) (swap_16-lt s.endian v h) in
    (c, rw done (rw whole (rw (swap_16-swap_16 s.endian v h))), later)

-- A uint16_t that is written is read back, in either byte order.
pub fuint16-RoundTrip :
    (v : ℕ) (s : ByteArray)
    → IsValid s
    → v < 2 ^ 16
    → RoundTrip s (write_fuint16 v s) read_fuint16 v
unfolding write_fuint16
fuint16-RoundTrip v s valid h =
    round_trip (to_memory 2 (swap_16 s.endian v)) s read_fuint16 v valid (λ u uv order held.
      rw (← order) (
        read_fuint16-Decodes v u uv h (
          subst (λ (o : ByteOrder). Holds u u.position (to_memory 2 (swap_16 o v))) (sym order)
            held)))

pub read_fuint32-Decodes :
    (v : ℕ) (s : ByteArray)
    → IsValid s
    → v < 2 ^ 32
    → Holds s s.position (to_memory 4 (swap_32 s.endian v))
    → Decodes read_fuint32 (to_memory 4 (swap_32 s.endian v)) v s
unfolding read_fuint32
read_fuint32-Decodes v s valid h held =
    let (c, done, later) = word-Decodes 4 (swap_32 s.endian v) s valid (omega arith) held in
    let whole = of_memory-to_memory 4 (swap_32 s.endian v) (swap_32-lt s.endian v h) in
    (c, rw done (rw whole (rw (swap_32-swap_32 s.endian v h))), later)

-- A uint32_t that is written is read back, in either byte order.
pub fuint32-RoundTrip :
    (v : ℕ) (s : ByteArray)
    → IsValid s
    → v < 2 ^ 32
    → RoundTrip s (write_fuint32 v s) read_fuint32 v
unfolding write_fuint32
fuint32-RoundTrip v s valid h =
    round_trip (to_memory 4 (swap_32 s.endian v)) s read_fuint32 v valid (λ u uv order held.
      rw (← order) (
        read_fuint32-Decodes v u uv h (
          subst (λ (o : ByteOrder). Holds u u.position (to_memory 4 (swap_32 o v))) (sym order)
            held)))

pub read_fuint64-Decodes :
    (v : ℕ) (s : ByteArray)
    → IsValid s
    → v < 2 ^ 64
    → Holds s s.position (to_memory 8 (swap_64 s.endian v))
    → Decodes read_fuint64 (to_memory 8 (swap_64 s.endian v)) v s
unfolding read_fuint64
read_fuint64-Decodes v s valid h held =
    let (c, done, later) = word-Decodes 8 (swap_64 s.endian v) s valid (omega arith) held in
    let whole = of_memory-to_memory 8 (swap_64 s.endian v) (swap_64-lt s.endian v h) in
    (c, rw done (rw whole (rw (swap_64-swap_64 s.endian v h))), later)

-- A uint64_t that is written is read back, in either byte order.
pub fuint64-RoundTrip :
    (v : ℕ) (s : ByteArray)
    → IsValid s
    → v < 2 ^ 64
    → RoundTrip s (write_fuint64 v s) read_fuint64 v
unfolding write_fuint64
fuint64-RoundTrip v s valid h =
    round_trip (to_memory 8 (swap_64 s.endian v)) s read_fuint64 v valid (λ u uv order held.
      rw (← order) (
        read_fuint64-Decodes v u uv h (
          subst (λ (o : ByteOrder). Holds u u.position (to_memory 8 (swap_64 o v))) (sym order)
            held)))

-- What is said of the eight accessors at the low bits of a number.
abbrev pub FixedRoundTrips : ℕ → ByteArray → Type 0
FixedRoundTrips v s =
    RoundTrip s (write_fint8 (v % 2 ^ 8) s) read_fint8 (v % 2 ^ 8)
    × RoundTrip s (write_fuint8 (v % 2 ^ 8) s) read_fuint8 (v % 2 ^ 8)
    × RoundTrip s (write_fint16 (v % 2 ^ 16) s) read_fint16 (v % 2 ^ 16)
    × RoundTrip s (write_fuint16 (v % 2 ^ 16) s) read_fuint16 (v % 2 ^ 16)
    × RoundTrip s (write_fint32 (v % 2 ^ 32) s) read_fint32 (v % 2 ^ 32)
    × RoundTrip s (write_fuint32 (v % 2 ^ 32) s) read_fuint32 (v % 2 ^ 32)
    × RoundTrip s (write_fint64 (v % 2 ^ 64) s) read_fint64 (v % 2 ^ 64)
    × RoundTrip s (write_fuint64 (v % 2 ^ 64) s) read_fuint64 (v % 2 ^ 64)

-- Each of the eight accessors of fixed width reads back, from where the writing began, what its
-- counterpart has written, at the low bits of any number, in either byte order.
pub fixed_round_trip : (v : ℕ) (s : ByteArray) → IsValid s → FixedRoundTrips v s
unfolding write_fint8 write_fuint8 write_fint16 write_fuint16 write_fint32 write_fuint32
    write_fint64 write_fuint64 read_fint8 read_fuint8 read_fint16 read_fuint16 read_fint32
    read_fuint32 read_fint64 read_fuint64
fixed_round_trip v s valid =
    let byte = fuint8-RoundTrip (v % 2 ^ 8) s valid (omega arith) in
    let half = fuint16-RoundTrip (v % 2 ^ 16) s valid (omega arith) in
    let word = fuint32-RoundTrip (v % 2 ^ 32) s valid (omega arith) in
    let long = fuint64-RoundTrip (v % 2 ^ 64) s valid (omega arith) in
    (byte, byte, half, half, word, word, long, long)
