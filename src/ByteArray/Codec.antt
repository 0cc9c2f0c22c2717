-- ===== src/ByteArray/Codec.antt =====
-- The typed accessors of sylar/bytearray.cpp. A word is its bit pattern, a number below 2 ^ width;
-- the values that go through the zigzag code are integers. int32_t and int64_t arithmetic wraps, as
-- in the -O0 build of CMakeLists.txt.
pub mod Holds
pub mod Fixed
pub mod Zigzag
pub mod Varint
pub mod Strings
use sylar.Common.{
  ℕ, zero, suc, ◌+◌, ◌-◌, ◌*◌, ◌/◌, ◌%◌, ◌^◌, Bool, true, false, Option, none, some, List, [], ◌∷◌,
  ◌++◌, length, ltb, if◌then◌else◌, bit_and, bit_or, bit_xor,
}
use sylar.Common.Int.{ℤ, pos, negsuc}
use sylar.Common.Outcome.{Outcome, ok, fault, stuck, ◌>>=◌}
use sylar.Endian.{ByteOrder, differs_from_host, bswap_16, bswap_32, bswap_64, to_memory, of_memory}
use sylar.ByteArray.{ByteArray, Cell, write, read}

-- A value that is made of indeterminate bytes is not determined either.
unfoldable pub determined : List Cell → Outcome (List ℕ)
determined [] = ok []
determined (none ∷ cs) = fault
determined (some b ∷ cs) = do bs ← determined cs; ok (b ∷ bs)

unfoldable pub read_bytes : ℕ → ByteArray → Outcome (List ℕ × ByteArray)
unfolding determined
read_bytes n s = do (cells, t) ← read n s; bytes ← determined cells; ok (bytes, t)

unfoldable pub write_fint8 : ℕ → ByteArray → Outcome ByteArray
unfolding to_memory
write_fint8 value s = write (to_memory 1 value) s

unfoldable pub write_fuint8 : ℕ → ByteArray → Outcome ByteArray
unfolding to_memory
write_fuint8 value s = write (to_memory 1 value) s

-- `if (m_endian != SYLAR_BYTE_ORDER) value = byteswap(value)`, at each width.
abbrev pub swap_16 : ByteOrder → ℕ → ℕ
swap_16 order value = if differs_from_host order then bswap_16 value else value

abbrev pub swap_32 : ByteOrder → ℕ → ℕ
swap_32 order value = if differs_from_host order then bswap_32 value else value

abbrev pub swap_64 : ByteOrder → ℕ → ℕ
swap_64 order value = if differs_from_host order then bswap_64 value else value

unfoldable pub write_fint16 : ℕ → ByteArray → Outcome ByteArray
write_fint16 value s = write (to_memory 2 (swap_16 s.endian value)) s

unfoldable pub write_fuint16 : ℕ → ByteArray → Outcome ByteArray
write_fuint16 value s = write (to_memory 2 (swap_16 s.endian value)) s

unfoldable pub write_fint32 : ℕ → ByteArray → Outcome ByteArray
write_fint32 value s = write (to_memory 4 (swap_32 s.endian value)) s

unfoldable pub write_fuint32 : ℕ → ByteArray → Outcome ByteArray
write_fuint32 value s = write (to_memory 4 (swap_32 s.endian value)) s

unfoldable pub write_fint64 : ℕ → ByteArray → Outcome ByteArray
write_fint64 value s = write (to_memory 8 (swap_64 s.endian value)) s

unfoldable pub write_fuint64 : ℕ → ByteArray → Outcome ByteArray
write_fuint64 value s = write (to_memory 8 (swap_64 s.endian value)) s

unfoldable pub read_fint8 : ByteArray → Outcome (ℕ × ByteArray)
read_fint8 s = do (bytes, t) ← read_bytes 1 s; ok (of_memory bytes, t)

unfoldable pub read_fuint8 : ByteArray → Outcome (ℕ × ByteArray)
read_fuint8 s = do (bytes, t) ← read_bytes 1 s; ok (of_memory bytes, t)

-- The macro XX at each width: read, and swap unless the order is the host's.
unfoldable pub read_fint16 : ByteArray → Outcome (ℕ × ByteArray)
read_fint16 s = do (bytes, t) ← read_bytes 2 s; ok (swap_16 t.endian (of_memory bytes), t)

unfoldable pub read_fuint16 : ByteArray → Outcome (ℕ × ByteArray)
read_fuint16 s = do (bytes, t) ← read_bytes 2 s; ok (swap_16 t.endian (of_memory bytes), t)

unfoldable pub read_fint32 : ByteArray → Outcome (ℕ × ByteArray)
read_fint32 s = do (bytes, t) ← read_bytes 4 s; ok (swap_32 t.endian (of_memory bytes), t)

unfoldable pub read_fuint32 : ByteArray → Outcome (ℕ × ByteArray)
read_fuint32 s = do (bytes, t) ← read_bytes 4 s; ok (swap_32 t.endian (of_memory bytes), t)

unfoldable pub read_fint64 : ByteArray → Outcome (ℕ × ByteArray)
read_fint64 s = do (bytes, t) ← read_bytes 8 s; ok (swap_64 t.endian (of_memory bytes), t)

unfoldable pub read_fuint64 : ByteArray → Outcome (ℕ × ByteArray)
read_fuint64 s = do (bytes, t) ← read_bytes 8 s; ok (swap_64 t.endian (of_memory bytes), t)

-- The number that a word of `2 ^ k` patterns stands for, as a signed one.
abbrev pub signed : ℕ → ℕ → ℤ
signed k w = if ltb w (2 ^ (k - 1)) then pos w else negsuc (2 ^ k - 1 - w)

-- EncodeZigzag32 and 64: `(uint)(-v) * 2 - 1` below 0, `v * 2` otherwise.
unfoldable pub encode_zigzag32 : ℤ → ℕ
encode_zigzag32 (negsuc n) = (suc n % 2 ^ 32 * 2 % 2 ^ 32 + 2 ^ 32 - 1) % 2 ^ 32
encode_zigzag32 (pos n) = n * 2 % 2 ^ 32

unfoldable pub encode_zigzag64 : ℤ → ℕ
encode_zigzag64 (negsuc n) = (suc n % 2 ^ 64 * 2 % 2 ^ 64 + 2 ^ 64 - 1) % 2 ^ 64
encode_zigzag64 (pos n) = n * 2 % 2 ^ 64

-- DecodeZigzag32 and 64: `(v >> 1) ^ -(v & 1)`.
unfoldable pub decode_zigzag32 : ℕ → ℤ
decode_zigzag32 v = signed 32 (bit_xor (v / 2) ((2 ^ 32 - bit_and v 1) % 2 ^ 32))

unfoldable pub decode_zigzag64 : ℕ → ℤ
decode_zigzag64 v = signed 64 (bit_xor (v / 2) ((2 ^ 64 - bit_and v 1) % 2 ^ 64))

-- The loop of writeUint32 and writeUint64 that fills `tmp`: `slots` is what is left of the array,
-- and a store behind its end is undefined.
unfoldable pub varint_bytes : ℕ → ℕ → Outcome (List ℕ)
varint_bytes zero value = fault
varint_bytes (suc slots) value =
    let rest =
      varint_bytes slots (value / 2 ^ 7) >>= λ more. ok (bit_or (bit_and value 0x7f) 0x80 ∷ more) in
    if ltb value 0x80 then ok (value % 256 ∷ []) else rest

unfoldable pub write_uint32 : ℕ → ByteArray → Outcome ByteArray
unfolding varint_bytes
write_uint32 value s = do tmp ← varint_bytes 5 value; write tmp s

unfoldable pub write_uint64 : ℕ → ByteArray → Outcome ByteArray
unfolding varint_bytes
write_uint64 value s = do tmp ← varint_bytes 10 value; write tmp s

unfoldable pub write_int32 : ℤ → ByteArray → Outcome ByteArray
write_int32 value s = write_uint32 (encode_zigzag32 value) s

unfoldable pub write_int64 : ℤ → ByteArray → Outcome ByteArray
write_int64 value s = write_uint64 (encode_zigzag64 value) s

-- The loop of readUint32 and readUint64, at the width of the result.
unfoldable pub read_varint_loop : ℕ → ℕ → ℕ → ℕ → ByteArray → Outcome (ℕ × ByteArray)
read_varint_loop width zero i result s = stuck
read_varint_loop width (suc fuel) i result s = elim (ltb i width) [
  | false ↦ ok (result, s)
  | true ↦ do
    (b, t) ← read_fuint8 s
    let later =
        read_varint_loop width fuel (i + 7) (bit_or result (bit_and b 0x7f * 2 ^ i % 2 ^ width)) t
    if ltb b 0x80 then ok (bit_or result (b * 2 ^ i % 2 ^ width), t) else later
]

unfoldable pub read_uint32 : ByteArray → Outcome (ℕ × ByteArray)
unfolding read_varint_loop
read_uint32 s = read_varint_loop 32 6 0 0 s

unfoldable pub read_uint64 : ByteArray → Outcome (ℕ × ByteArray)
unfolding read_varint_loop
read_uint64 s = read_varint_loop 64 11 0 0 s

unfoldable pub read_int32 : ByteArray → Outcome (ℤ × ByteArray)
read_int32 s = do (v, t) ← read_uint32 s; ok (decode_zigzag32 v, t)

unfoldable pub read_int64 : ByteArray → Outcome (ℤ × ByteArray)
read_int64 s = do (v, t) ← read_uint64 s; ok (decode_zigzag64 v, t)

-- The strings: a length, converted to the width of its prefix, and the bytes.
unfoldable pub write_string_f16 : List ℕ → ByteArray → Outcome ByteArray
write_string_f16 value s = do t ← write_fuint16 (length value % 2 ^ 16) s; write value t

unfoldable pub write_string_f32 : List ℕ → ByteArray → Outcome ByteArray
write_string_f32 value s = do t ← write_fuint32 (length value % 2 ^ 32) s; write value t

unfoldable pub write_string_f64 : List ℕ → ByteArray → Outcome ByteArray
write_string_f64 value s = do t ← write_fuint64 (length value) s; write value t

-- writeStringVint writes a fixed length of 64 bits, as writeStringF64 does.
unfoldable pub write_string_vint : List ℕ → ByteArray → Outcome ByteArray
write_string_vint value s = do t ← write_fuint64 (length value) s; write value t

unfoldable pub write_string_without_length : List ℕ → ByteArray → Outcome ByteArray
write_string_without_length value s = write value s

unfoldable pub read_string_f16 : ByteArray → Outcome (List ℕ × ByteArray)
read_string_f16 s = do (len, t) ← read_fuint16 s; read_bytes len t

unfoldable pub read_string_f32 : ByteArray → Outcome (List ℕ × ByteArray)
read_string_f32 s = do (len, t) ← read_fuint32 s; read_bytes len t

unfoldable pub read_string_f64 : ByteArray → Outcome (List ℕ × ByteArray)
read_string_f64 s = do (len, t) ← read_fuint64 s; read_bytes len t

unfoldable pub read_string_vint : ByteArray → Outcome (List ℕ × ByteArray)
read_string_vint s = do (len, t) ← read_fuint64 s; read_bytes len t
