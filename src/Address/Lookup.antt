-- ===== src/Address/Lookup.antt =====
-- Address::Lookup of sylar/address.cpp and what builds on it. getaddrinfo is an argument: from a node and a
-- service to nothing, when it fails, or the addresses in their order.
use sylar.Common.{
  ℕ, Bool, true, false, Option, none, some, List, [], ◌∷◌, ◌++◌, map, replicate, ◌==◌,
  if◌then◌else◌,
}
use sylar.Common.Text.{Text, text_eq, codes}
use sylar.Common.Outcome.{Outcome, ok, fault}
use sylar.Address.{Ipv4Address, new_ipv4, set_port}
use sylar.Address.Six.{Ipv6Address, new_ipv6, set_port6}

-- memchr: what stands before and behind the first place of a character.
unfoldable pub break_at : ℕ → Text → Option (Text × Text)
break_at c [] = none
break_at c (d ∷ t) =
    let rest = break_at c t in
    if d == c then some ([], t) else elim rest [ none ↦ none | some p ↦ some (d ∷ p.0, p.1) ]

-- The service behind `]:`.
abbrev pub service_behind : Text → Option Text
service_behind [] = none
service_behind (c ∷ t) = if c == 58 then some t else none

-- The first test: `[node]` with a service or none.
unfoldable pub split_brackets : Text → Text × Option Text
unfolding break_at
split_brackets [] = ([], none)
split_brackets (c ∷ t) =
    if c == 91
    then elim (break_at 93 t) [ none ↦ ([], none) | some p ↦ (p.0, service_behind p.1) ]
    else ([], none)

-- The second test: `node:service`, when there is one colon. With a second one the service is left pointing at the
-- first.
unfoldable pub split_colon : Text → Text × Option Text
unfolding break_at
split_colon host = elim (break_at 58 host) [
  | none ↦ ([], none)
  | some p ↦ elim (break_at 58 p.1) [ none ↦ (p.0, some p.1) | some q ↦ ([], some (58 ∷ p.1)) ]
]

abbrev pub node_or : Text → Text × Option Text → Text × Option Text
node_or host ([], service) = (host, service)
node_or host (c ∷ t, service) = (c ∷ t, service)

abbrev pub after_brackets : Text → Text × Option Text → Text × Option Text
after_brackets host ([], service) = node_or host (split_colon host)
after_brackets host (c ∷ t, service) = (c ∷ t, service)

-- The node and the service that getaddrinfo gets.
unfoldable pub split_host : Text → Text × Option Text
unfolding split_brackets split_colon
split_host host = after_brackets host (split_brackets host)

-- What getaddrinfo gives: an address of one of the families.
pub data SockAddr : Type 0 where
  inet : Ipv4Address → SockAddr
  inet6 : Ipv6Address → SockAddr
  other_family : ℕ → SockAddr

-- The classes under Address.
pub data Address : Type 0 where
  ipv4 : Ipv4Address → Address
  ipv6 : Ipv6Address → Address
  unknown : ℕ → Address

-- Address::Create on a pointer that is not null.
abbrev pub create : SockAddr → Address
create (inet a) = ipv4 a
create (inet6 a) = ipv6 a
create (other_family family) = unknown family

module _ (getaddrinfo : Text → Option Text → Option (List SockAddr)) where
  -- The result list, none when the call returns false.
  unfoldable pub lookup : Text → Option (List Address)
  unfolding split_host
  lookup host = elim (getaddrinfo (split_host host).0 (split_host host).1) [
    | none ↦ none
    | some results ↦ some (map create results)
  ]

  -- LookupAny takes result[0], which there must be.
  unfoldable pub lookup_any : Text → Outcome (Option Address)
  unfolding lookup
  lookup_any host = elim (lookup host) [
    | none ↦ ok none
    | some result ↦ elim result [ [] ↦ fault | ◌∷◌ a rest ↦ ok (some a) ]
  ]

  abbrev first_ip : List Address → Option Address
  first_ip [] = none
  first_ip (ipv4 a ∷ rest) = some (ipv4 a)
  first_ip (ipv6 a ∷ rest) = some (ipv6 a)
  first_ip (unknown family ∷ rest) = first_ip rest

  unfoldable pub lookup_any_ip_address : Text → Option Address
  unfolding lookup
  lookup_any_ip_address host = elim (lookup host) [ none ↦ none | some result ↦ first_ip result ]

  abbrev with_port : ℕ → SockAddr → Option Address
  with_port port (inet a) = some (ipv4 (set_port port a))
  with_port port (inet6 a) = some (ipv6 (set_port6 port a))
  with_port port (other_family family) = none

  -- IPAddress::Create: the first result, if it is an IP address, with the port.
  unfoldable pub ip_create : Text → ℕ → Outcome (Option Address)
  unfolding set_port set_port6
  ip_create address port = elim (getaddrinfo address none) [
    | none ↦ ok none
    | some results ↦ elim results [ [] ↦ fault | ◌∷◌ a rest ↦ ok (with_port port a) ]
  ]

-- An interface: its name, its address and the prefix length of its mask.
pub record Interface : Type 0 where
  pub name : Text
  pub address : Address
  pub prefix_len : ℕ

abbrev of_interface : Text → List Interface → List (Address × ℕ)
of_interface iface [] = []
of_interface iface (i ∷ rest) =
    let later = of_interface iface rest in
    if text_eq i.name iface then (i.address, i.prefix_len) ∷ later else later

-- GetInterfaceAddresses of one interface, or of any: `wants4` and `wants6` say that the family is that one or
-- AF_UNSPEC, and the interfaces are the answer of the call for all of them. The result and the return value.
unfoldable pub get_interface_addresses :
    (wants4 wants6 : Bool) → Text → Option (List Interface) → List (Address × ℕ) × Bool
unfolding new_ipv4 new_ipv6
get_interface_addresses wants4 wants6 iface all =
    if any iface
    then (
      (if wants4 then (ipv4 (new_ipv4 0 0), 0) ∷ [] else [])
          ++ (if wants6 then (ipv6 (new_ipv6 (replicate 16 0) 0), 0) ∷ [] else []),
      true,
    )
    else elim all [
      | none ↦ ([], false)
      | some interfaces ↦
          (of_interface iface interfaces, is_some_found (of_interface iface interfaces))
    ]
  where
    any : Text → Bool
    any [] = true
    any (c ∷ t) = text_eq (c ∷ t) (codes "*")

    is_some_found : List (Address × ℕ) → Bool
    is_some_found [] = false
    is_some_found (a ∷ rest) = true
