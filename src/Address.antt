-- ===== src/Address.antt =====
-- sylar/address.cpp: addresses of sockets. A word in network order is the number that its bytes in memory are on
-- the little-endian host, as the code sees it.
pub mod Bytes
pub mod Count
pub mod Masks
pub mod Six
pub mod Prefixes
pub mod Unix
pub mod Lookup
pub mod Splitting
pub mod Order
mod Examples
use sylar.Common.{
  ℕ, zero, suc, ◌+◌, ◌-◌, ◌*◌, ◌/◌, ◌%◌, ◌^◌, Bool, true, false, ◌&&◌, Option, none, some, List, [],
  ◌∷◌, ◌++◌, bit_and, bit_or, ltb, leb, ◌==◌, if◌then◌else◌,
}
use sylar.Common.Text.{Text, codes, decimal}
use sylar.Common.Outcome.{Outcome, ok, fault, stuck, ◌>>=◌}
use sylar.Endian.{byteswap_on_little_endian_16, byteswap_on_little_endian_32}

-- `(1 << (32 - bits)) - 1` on int: the shift is by a full width for 0 and more than that beyond 32, and for 1 the
-- subtraction overflows; all three are undefined.
unfoldable pub create_mask_32 : ℕ → Outcome ℕ
create_mask_32 bits = if leb 2 bits && leb bits 32 then ok (2 ^ (32 - bits) - 1) else fault

-- CreateMask<uint8_t>, for up to 8 bits: the shift is on int and the result keeps 8 bits.
unfoldable pub create_mask_8 : ℕ → ℕ
create_mask_8 bits = (2 ^ (8 - bits) - 1) % 2 ^ 8

-- The loop of CountBytes.
unfoldable pub count_loop : (fuel value result : ℕ) → Outcome ℕ
count_loop zero value result = stuck
count_loop (suc fuel) zero result = ok result
count_loop (suc fuel) (suc v) result = count_loop fuel (bit_and (suc v) v) (result + 1)

-- CountBytes, with fuel for words of up to 64 bits.
unfoldable pub count_bytes : ℕ → Outcome ℕ
unfolding count_loop
count_bytes value = count_loop 65 value 0

-- sin_port and sin_addr.s_addr.
pub record Ipv4Address : Type 0 where
  pub sin_port : ℕ
  pub s_addr : ℕ

unfoldable pub new_ipv4 : (address port : ℕ) → Ipv4Address
new_ipv4 address port = record {
  sin_port = byteswap_on_little_endian_16 port;
  s_addr = byteswap_on_little_endian_32 address;
}

unfoldable pub get_port : Ipv4Address → ℕ
get_port a = byteswap_on_little_endian_16 a.sin_port

unfoldable pub set_port : ℕ → Ipv4Address → Ipv4Address
set_port v a = record a { sin_port = byteswap_on_little_endian_16 v }

-- The number of an address, in host order.
abbrev pub address_of : Ipv4Address → ℕ
address_of a = byteswap_on_little_endian_32 a.s_addr

-- Null beyond 32 bits.
unfoldable pub broadcast_address : ℕ → Ipv4Address → Outcome (Option Ipv4Address)
unfolding create_mask_32
broadcast_address prefix_len a =
    if ltb 32 prefix_len
    then ok none
    else (create_mask_32 prefix_len >>= λ mask.
        ok (some (record a { s_addr = bit_or a.s_addr (byteswap_on_little_endian_32 mask) })))

unfoldable pub network_address : ℕ → Ipv4Address → Outcome (Option Ipv4Address)
unfolding create_mask_32
network_address prefix_len a =
    if ltb 32 prefix_len
    then ok none
    else (create_mask_32 prefix_len >>= λ mask.
        ok (some (record a { s_addr = bit_and a.s_addr (byteswap_on_little_endian_32 mask) })))

-- `~` of 32 bits.
unfoldable pub subnet_mask : ℕ → Outcome Ipv4Address
unfolding create_mask_32
subnet_mask prefix_len = create_mask_32 prefix_len >>= λ mask.
    ok (record { sin_port = 0; s_addr = 2 ^ 32 - 1 - byteswap_on_little_endian_32 mask })

-- Four numerals and the port.
unfoldable pub insert : Ipv4Address → Text
unfolding get_port
insert a =
    let addr = address_of a in
    decimal 3 (addr / 2 ^ 24 % 256)
    ++ (codes "."
        ++ (decimal 3 (addr / 2 ^ 16 % 256)
            ++ (codes "."
                ++ (decimal 3 (addr / 2 ^ 8 % 256)
                    ++ (codes "."
                        ++ (decimal 3 (addr % 256) ++ (codes ":" ++ decimal 5 (get_port a))))))))
