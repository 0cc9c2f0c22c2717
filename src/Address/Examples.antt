-- ===== src/Address/Examples.antt =====
-- Addresses and their parts.
use sylar.Common.{
  ◌≡◌, refl, arith, not, ◌&&◌, some, none, [], ◌∷◌, ◌++◌, ◌+◌, ◌*◌, ◌^◌, ◌-◌, replicate,
}
use sylar.Common.Text.{codes, text_eq}
use sylar.Common.Outcome.{ok, fault, ◌>>=◌}
use sylar.Endian.{byteswap_on_little_endian_16, byteswap_on_little_endian_32, bswap_32, bswap_16}
use sylar.Address.{new_ipv4, insert, broadcast_address, network_address, subnet_mask, count_bytes}
use sylar.Address.Count.{ones, count_bytes-ones}
use sylar.Address.Masks.{prefix_addresses}
use sylar.Address.Six.{new_ipv6, insert6, broadcast_address6}
use sylar.Address.Prefixes.{ipv4_prefix, ipv6_prefix, prefix_len_of-subnet_mask}
use sylar.Address.Unix.{unix_of_path, insert_unix, insert_unix-unix_of_path}
use sylar.Address.Lookup.{split_host}
use sylar.Address.Splitting.{split_host-parts}
use sylar.Address.Order.{address_less, address_eq, address_ne, before, address_less-before}

prints : insert (new_ipv4 0x7f000001 8020) ≡ codes "127.0.0.1:8020"
unfolding insert new_ipv4 byteswap_on_little_endian_16 byteswap_on_little_endian_32 bswap_32
    bswap_16
prints = refl

-- The groups come out in decimal.
prints6 : insert6 (new_ipv6 (replicate 14 0 ++ (1 ∷ 255 ∷ [])) 80) ≡ codes "[::511]:80"
unfolding insert6 new_ipv6 byteswap_on_little_endian_16 bswap_16
prints6 = refl

-- A prefix as long as the address is beyond its bytes.
whole_prefix : broadcast_address6 128 (new_ipv6 (replicate 16 0) 0) ≡ fault
unfolding broadcast_address6 new_ipv6
whole_prefix = refl

no_prefix : subnet_mask 0 ≡ fault
unfolding subnet_mask
no_prefix = refl

count_bytes-ones_example : count_bytes 0b1011 ≡ ok (ones 32 0b1011)
count_bytes-ones_example = count_bytes-ones 32 0b1011 (omega arith) (omega arith)

prefix_addresses_example :
    (broadcast_address 24 (new_ipv4 (5 + 0xc0a801 * 2 ^ 8) 80)
      ≡ ok (some (new_ipv4 (2 ^ 8 - 1 + 0xc0a801 * 2 ^ 8) 80)))
    × (network_address 24 (new_ipv4 (5 + 0xc0a801 * 2 ^ 8) 80) ≡ ok (some (new_ipv4 5 80)))
    × (subnet_mask 24 ≡ ok (new_ipv4 (2 ^ 32 - 2 ^ 8) 0))
prefix_addresses_example =
    prefix_addresses 8 24 0xc0a801 5 80 (omega arith) refl (omega arith) (omega arith)

prefix_len_of-subnet_mask_example : (ipv4_prefix 24 ≡ ok 24) × (ipv6_prefix 65 ≡ ok 65)
prefix_len_of-subnet_mask_example =
    prefix_len_of-subnet_mask 24 65 (omega arith) (omega arith) (omega arith)

insert_unix-unix_of_path_example :
    ((unix_of_path (codes "/tmp/a") >>= λ a. ok (insert_unix a)) ≡ ok (codes "/tmp/a"))
    × ((unix_of_path (0 ∷ codes "x") >>= λ a. ok (insert_unix a)) ≡ ok (codes "\\0x"))
insert_unix-unix_of_path_example =
    insert_unix-unix_of_path 47 (codes "tmp/a") (codes "x") (omega arith)
      (omega arith, (omega arith, (omega arith, (omega arith, (omega arith, tt)))))

split_host-parts_example :
    (split_host (codes "[h]:80") ≡ (codes "h", some (codes "80")))
    × (split_host (codes "[h]") ≡ (codes "h", none))
    × (split_host (codes "h:80") ≡ (codes "h", some (codes "80")))
    × (split_host (codes "h") ≡ (codes "h", none))
    × (split_host (codes "::1") ≡ (codes "::1", some (codes "::1")))
split_host-parts_example =
    split_host-parts 104 [] (codes "80") [] [] (codes "1") refl refl refl refl refl refl refl

address_less-before_example :
    (address_less (1 ∷ []) (1 ∷ 2 ∷ []) ≡ before (1 ∷ []) (1 ∷ 2 ∷ []))
    × (address_eq (1 ∷ []) (1 ∷ 2 ∷ [])
        ≡ (not (address_less (1 ∷ []) (1 ∷ 2 ∷ [])) && not (address_less (1 ∷ 2 ∷ []) (1 ∷ []))))
    × (address_eq (1 ∷ []) (1 ∷ 2 ∷ []) ≡ text_eq (1 ∷ []) (1 ∷ 2 ∷ []))
    × (address_ne (1 ∷ []) (1 ∷ 2 ∷ []) ≡ not (text_eq (1 ∷ []) (1 ∷ 2 ∷ [])))
address_less-before_example = address_less-before (1 ∷ []) (1 ∷ 2 ∷ [])
