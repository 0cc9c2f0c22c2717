-- ===== src/Address/Six.antt =====
-- IPv6Address of sylar/address.cpp: a port in network order and sixteen bytes.
use sylar.Common.{
  ℕ, zero, suc, ◌+◌, ◌-◌, ◌*◌, ◌/◌, ◌%◌, ◌^◌, Bool, true, false, not, ◌&&◌, List, [], ◌∷◌, ◌++◌,
  bit_and, bit_or, get_elem?, get_or, set, take, replicate, ◌==◌, if◌then◌else◌,
}
use sylar.Common.Text.{Text, codes, decimal}
use sylar.Common.Outcome.{Outcome, ok, ◌>>=◌, deref}
use sylar.Endian.{byteswap_on_little_endian_16}
use sylar.Address.{create_mask_8, count_bytes}

pub record Ipv6Address : Type 0 where
  pub sin6_port : ℕ
  pub s6_addr : List ℕ

unfoldable pub new_ipv6 : List ℕ → (port : ℕ) → Ipv6Address
new_ipv6 address port = record {
  sin6_port = byteswap_on_little_endian_16 port;
  s6_addr = take 16 address;
}

unfoldable pub get_port6 : Ipv6Address → ℕ
get_port6 a = byteswap_on_little_endian_16 a.sin6_port

unfoldable pub set_port6 : ℕ → Ipv6Address → Ipv6Address
set_port6 v a = record a { sin6_port = byteswap_on_little_endian_16 v }

-- A change of s6_addr[i], which must be one of its bytes.
unfoldable pub change_byte : (ℕ → ℕ) → ℕ → List ℕ → Outcome (List ℕ)
change_byte f i bytes = deref (get_elem? bytes i) >>= λ b. ok (set bytes i (f b))

-- for (i = from; i < 16; i++) s6_addr[i] = 0xff
abbrev pub fill_from : ℕ → List ℕ → List ℕ
fill_from from [] = []
fill_from zero (b ∷ bs) = 0xff ∷ fill_from zero bs
fill_from (suc from) (b ∷ bs) = b ∷ fill_from from bs

unfoldable pub broadcast_address6 : ℕ → Ipv6Address → Outcome Ipv6Address
unfolding change_byte create_mask_8
broadcast_address6 prefix_len a =
    change_byte (λ b. bit_or b (create_mask_8 (prefix_len % 8))) (prefix_len / 8) a.s6_addr
    >>= λ bytes. ok (record a { s6_addr = fill_from (prefix_len / 8 + 1) bytes })

unfoldable pub network_address6 : ℕ → Ipv6Address → Outcome Ipv6Address
unfolding change_byte create_mask_8
network_address6 prefix_len a =
    change_byte (λ b. bit_and b (create_mask_8 (prefix_len % 8))) (prefix_len / 8) a.s6_addr
    >>= λ bytes. ok (record a { s6_addr = bytes })

-- for (i = 0; i < count; i++) s6_addr[i] = 0xFF
abbrev pub fill_front : ℕ → List ℕ → List ℕ
fill_front zero bytes = bytes
fill_front (suc count) [] = []
fill_front (suc count) (b ∷ bs) = 0xff ∷ fill_front count bs

unfoldable pub subnet_mask6 : ℕ → Outcome Ipv6Address
unfolding change_byte create_mask_8
subnet_mask6 prefix_len =
    change_byte (λ b. 255 - create_mask_8 (prefix_len % 8)) (prefix_len / 8) (replicate 16 0)
    >>= λ bytes. ok (record { sin6_port = 0; s6_addr = fill_front (prefix_len / 8) bytes })

-- The bytes as eight words, in the order of the host.
abbrev pub words : List ℕ → List ℕ
words [] = []
words (a ∷ []) = []
words (a ∷ b ∷ rest) = (a + b * 256) ∷ words rest

-- The loop of insert: `i` is the index, `previous` is addr[i - 1], `used_zeros` as in the source.
unfoldable pub insert_loop : (i previous : ℕ) (used_zeros : Bool) → List ℕ → Text × Bool
insert_loop i previous used_zeros [] = ([], used_zeros)
insert_loop i previous used_zeros (w ∷ ws) =
    let skipped = insert_loop (i + 1) w used_zeros ws in
    let gap : Bool = not (i == 0) && (previous == 0) && not used_zeros in
    let after_gap = insert_loop (i + 1) w true ws in
    let after_word = insert_loop (i + 1) w used_zeros ws in
    let word = (if i == 0 then [] else codes ":") ++ decimal 5 (byteswap_on_little_endian_16 w) in
    if (w == 0) && not used_zeros
    then skipped
    else (if gap
        then (codes ":" ++ (word ++ after_gap.0), after_gap.1)
        else (word ++ after_word.0, after_word.1))

unfoldable pub insert6 : Ipv6Address → Text
unfolding insert_loop
insert6 a =
    let addr = words a.s6_addr in
    let (text, used_zeros) = insert_loop 0 0 false addr in
    let tail = if not used_zeros && (get_or addr 7 0 == 0) then codes "::" else [] in
    codes "["
    ++ (text ++ (tail ++ (codes "]:" ++ decimal 5 (byteswap_on_little_endian_16 a.sin6_port))))

-- The netmask of an interface, and the prefix length that GetInterfaceAddresses counts for it; ~0 for other families.
pub data Netmask : Type 0 where
  ipv4_mask : (s_addr : ℕ) → Netmask
  ipv6_mask : (s6_addr : List ℕ) → Netmask
  other_mask : Netmask

unfoldable pub count_all : (prefix_len : ℕ) → List ℕ → Outcome ℕ
unfolding count_bytes
count_all prefix_len [] = ok prefix_len
count_all prefix_len (b ∷ bs) = count_bytes b >>= λ n. count_all (prefix_len + n) bs

unfoldable pub prefix_len_of : Netmask → Outcome ℕ
unfolding count_all
prefix_len_of (ipv4_mask s_addr) = count_bytes s_addr
prefix_len_of (ipv6_mask s6_addr) = count_all 0 s6_addr
prefix_len_of other_mask = ok (2 ^ 32 - 1)
