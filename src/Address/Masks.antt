-- ===== src/Address/Masks.antt =====
-- What IPv4Address makes of a prefix length.
use sylar.Common.{
  ℕ, ◌+◌, ◌-◌, ◌*◌, ◌^◌, ◌≤◌, ◌<◌, ◌≡◌, refl, ap, ◌∙◌, arith, true, false, ◌&&◌, some, ltb, leb,
  bit_and, bit_or,
}
use sylar.Common.Outcome.{ok}
use sylar.Endian.{bswap_16, bswap_32, byteswap_on_little_endian_16, byteswap_on_little_endian_32}
use sylar.Endian.Laws.{bswap_16-bswap_16}
use sylar.Address.{
  Ipv4Address, new_ipv4, get_port, set_port, create_mask_32, broadcast_address, network_address,
  subnet_mask,
}
use sylar.Address.Bytes.{bit_and-bswap_32, bit_or-bswap_32, and_mask, or_mask, complement-bswap_32}
use native.Mathlib.Nat.{pow-le-pow_right}

create_mask_lem : (k p : ℕ) → 2 ≤ p → p + k ≡ 32 → create_mask_32 p ≡ ok (2 ^ k - 1)
unfolding create_mask_32
create_mask_lem k p h e =
    let inside : leb 2 p && leb p 32 ≡ true = ground (arith, h, e) in
    let width : 32 - p ≡ k = omega arith in rw (inside, width) refl

pow-le : (k p : ℕ) → p + k ≡ 32 → 2 ^ k ≤ 2 ^ 32
pow-le k p e = pow-le-pow_right (omega arith) {i = k} {j = 32} (omega arith)

-- For a prefix of 2 to 32 bits and an address of that many bits of network and the rest of host, broadcastAddress
-- sets every bit of the host and keeps the network and the port, subnetMask has just the bits of the network
-- and no port; networdAddress clears the network and keeps the host.
pub prefix_addresses :
    (k p net host port : ℕ)
    → 2 ≤ p
    → p + k ≡ 32
    → host < 2 ^ k
    → host + net * 2 ^ k < 2 ^ 32
    → (broadcast_address p (new_ipv4 (host + net * 2 ^ k) port)
        ≡ ok (some (new_ipv4 (2 ^ k - 1 + net * 2 ^ k) port)))
      × (network_address p (new_ipv4 (host + net * 2 ^ k) port) ≡ ok (some (new_ipv4 host port)))
      × (subnet_mask p ≡ ok (new_ipv4 (2 ^ 32 - 2 ^ k) 0))
unfolding broadcast_address network_address subnet_mask new_ipv4 byteswap_on_little_endian_32
    byteswap_on_little_endian_16 bswap_16
prefix_addresses k p net host port h e small whole =
    let short : ltb 32 p ≡ false = ground (arith, e) in
    let mask = create_mask_lem k p h e in
    let bound : 2 ^ k - 1 < 2 ^ 32 = omega (arith, pow-le k p e) in
    let all = host + net * 2 ^ k in
    let set_bits : bit_or (bswap_32 all) (bswap_32 (2 ^ k - 1))
        ≡ bswap_32 (2 ^ k - 1 + net * 2 ^ k) =
      bit_or-bswap_32 all (2 ^ k - 1) whole bound ∙ ap bswap_32 (or_mask k host net small) in
    let kept : bit_and (bswap_32 all) (bswap_32 (2 ^ k - 1)) ≡ bswap_32 host =
      bit_and-bswap_32 all (2 ^ k - 1) whole bound ∙ ap bswap_32 (and_mask k host net small) in
    let others : 2 ^ 32 - 1 - (2 ^ k - 1) ≡ 2 ^ 32 - 2 ^ k = omega (arith, pow-le k p e) in
    (
      rw (short, mask, set_bits) refl,
      rw (short, mask, kept) refl,
      rw (mask, complement-bswap_32 (2 ^ k - 1) bound, others) refl,
    )

-- The port that a constructor or setPort was given is the one that getPort returns, whatever the byte order.
get_port-set_port :
    (address port : ℕ) (a : Ipv4Address)
    → port < 2 ^ 16
    → (get_port (new_ipv4 address port) ≡ port) × (get_port (set_port port a) ≡ port)
unfolding get_port set_port new_ipv4 byteswap_on_little_endian_16
get_port-set_port address port a h = (bswap_16-bswap_16 port h, bswap_16-bswap_16 port h)
