-- ===== src/Address/Prefixes.antt =====
-- The prefix length counted from a subnet mask is the one that the mask was made of.
use sylar.Common.{
  ℕ, zero, suc, ◌≤◌, ◌<◌, ◌≡◌, refl, ap, arith, inl, inr, Bool, true, false, ◌&&◌, ltb, ◌==◌,
  if◌then◌else◌, Bool-cases,
}
use sylar.Common.Outcome.{Outcome, ok, thrown, aborted, fault, stuck, ◌>>=◌}
use sylar.Endian.{byteswap_on_little_endian_32, bswap_32, bswap_16}
use sylar.Address.{subnet_mask}
use sylar.Address.Six.{subnet_mask6, ipv4_mask, ipv6_mask, prefix_len_of}

-- A test of every number below a bound.
abbrev all_below : ℕ → (ℕ → Bool) → Bool
all_below zero test = true
all_below (suc n) test = test n && all_below n test

all_below_lem : (n : ℕ) (test : ℕ → Bool) (i : ℕ) → all_below n test ≡ true → i < n → test i ≡ true
all_below_lem zero test i all h = absurd (omega arith)
all_below_lem (suc n) test i all h = elim (Bool-cases (test n)) [
  | inl e ↦
      let rest : all_below n test ≡ true = rw e at all in
      elim (Bool-cases (i == n)) [
        | inl f ↦ let same : i ≡ n = ground (arith, f) in rw same e
        | inr f ↦ all_below_lem n test i rest (ground (arith, h, f))
      ]
  | inr e ↦ absurd (let bad : false ≡ true = rw e at all in cc)
]

abbrev returns : ℕ → Outcome ℕ → Bool
returns n (ok m) = m == n
returns n thrown = false
returns n aborted = false
returns n fault = false
returns n stuck = false

returns_lem : (n : ℕ) (o : Outcome ℕ) → returns n o ≡ true → o ≡ ok n
returns_lem n (ok m) e = let same : m ≡ n = ground (arith, e) in ap ok same
returns_lem n thrown e = cc
returns_lem n aborted e = cc
returns_lem n fault e = cc
returns_lem n stuck e = cc

abbrev pub ipv4_prefix : ℕ → Outcome ℕ
ipv4_prefix p = subnet_mask p >>= λ a. prefix_len_of (ipv4_mask a.s_addr)

abbrev pub ipv6_prefix : ℕ → Outcome ℕ
ipv6_prefix p = subnet_mask6 p >>= λ a. prefix_len_of (ipv6_mask a.s6_addr)

test4 : all_below 33 (λ p. if ltb p 2 then true else returns p (ipv4_prefix p)) ≡ true
unfolding subnet_mask prefix_len_of byteswap_on_little_endian_32 bswap_32 bswap_16
test4 = refl

test6 : all_below 128 (λ p. returns p (ipv6_prefix p)) ≡ true
unfolding subnet_mask6 prefix_len_of
test6 = refl

-- The number that CountBytes finds in the subnet mask of a prefix length is that length: for 2 to 32 bits of IPv4,
-- and, summed over the bytes, for 0 to 127 bits of IPv6.
pub prefix_len_of-subnet_mask :
    (p q : ℕ) → 2 ≤ p → p ≤ 32 → q < 128 → (ipv4_prefix p ≡ ok p) × (ipv6_prefix q ≡ ok q)
prefix_len_of-subnet_mask p q low high below =
    let known =
      all_below_lem 33 (λ n. if ltb n 2 then true else returns n (ipv4_prefix n)) p test4
        (omega arith) in
    let long : ltb p 2 ≡ false = ground (arith, low) in
    (
      returns_lem p (ipv4_prefix p) (rw long at known),
      returns_lem q (ipv6_prefix q)
          (all_below_lem 128 (λ n. returns n (ipv6_prefix n)) q test6 below),
    )
