-- ===== src/Endian.antt =====
-- sylar/endian1.h: byte orders and byteswap. The host is taken to be little-endian, so that
-- SYLAR_BYTE_ORDER is SYLAR_LITTLE_ENDIAN. A word is a number; its bytes in memory are a list.
pub mod Laws
use sylar.Common.{ℕ, zero, suc, ◌+◌, ◌*◌, ◌/◌, ◌%◌, ◌^◌, List, [], ◌∷◌, Bool, true, false}

-- SYLAR_LITTLE_ENDIAN and SYLAR_BIG_ENDIAN.
pub data ByteOrder : Type 0 where
  little_endian : ByteOrder
  big_endian : ByteOrder

-- SYLAR_BYTE_ORDER.
abbrev pub host_order : ByteOrder
host_order = little_endian

-- `m_endian != SYLAR_BYTE_ORDER`.
abbrev pub differs_from_host : ByteOrder → Bool
differs_from_host little_endian = false
differs_from_host big_endian = true

-- bswap_16, bswap_32 and bswap_64.
unfoldable pub bswap_16 : ℕ → ℕ
bswap_16 v = v / 256 % 256 + v % 256 * 256

unfoldable pub bswap_32 : ℕ → ℕ
bswap_32 v = bswap_16 (v / 2 ^ 16 % 2 ^ 16) + bswap_16 (v % 2 ^ 16) * 2 ^ 16

unfoldable pub bswap_64 : ℕ → ℕ
bswap_64 v = bswap_32 (v / 2 ^ 32 % 2 ^ 32) + bswap_32 (v % 2 ^ 32) * 2 ^ 32

-- byteswapOnLittleEndian and byteswapOnBigEndian at two widths, on a little-endian host.
unfoldable pub byteswap_on_little_endian_16 : ℕ → ℕ
byteswap_on_little_endian_16 t = bswap_16 t

unfoldable pub byteswap_on_little_endian_32 : ℕ → ℕ
byteswap_on_little_endian_32 t = bswap_32 t

unfoldable pub byteswap_on_big_endian_32 : ℕ → ℕ
byteswap_on_big_endian_32 t = t

-- The memory of a word of `k` bytes on the host, and the word that such memory holds.
unfoldable pub to_memory : ℕ → ℕ → List ℕ
to_memory zero v = []
to_memory (suc k) v = v % 256 ∷ to_memory k (v / 256)

unfoldable pub of_memory : List ℕ → ℕ
of_memory [] = 0
of_memory (b ∷ bs) = b + of_memory bs * 256
