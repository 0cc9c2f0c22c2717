-- ===== src/Config/Names.antt =====
-- What the lower-casing in LoadFromYaml does to the names.
use sylar.Common.{
  ℕ, ◌≡◌, refl, ap, inl, inr, Bool, true, List, [], ◌∷◌, ◌++◌, map, Bool-cases, arith,
}
use sylar.Common.Text.{Text}
use sylar.Http.Headers.{to_lower}
use sylar.Config.{
  YamlNode, scalar, sequence, mapping, YamlMembers, no_more, member, is_name_char, is_valid_name,
  joined, listed, list_all_member, list_members, deliver, deliver_all, load_from_yaml,
}

to_lower-name_char : (c : ℕ) → is_name_char c ≡ true → to_lower c ≡ c
to_lower-name_char c e = ground arith

map_lower : (name : Text) → is_valid_name name ≡ true → map to_lower name ≡ name
map_lower [] e = refl
map_lower (c ∷ name) e = elim (Bool-cases (is_name_char c)) [
  | inl ok ↦ rw (to_lower-name_char c ok) (ap (λ t. c ∷ t) (map_lower name (rw ok at e)))
  | inr bad ↦ cc (rw bad at e)
]

-- Names that lower-casing leaves alone.
abbrev AreLower : List (Text × YamlNode) → Type 0
AreLower [] = Unit
AreLower ((key, node) ∷ nodes) = (map to_lower key ≡ key) × AreLower nodes

AreLower-append : (xs ys : List (Text × YamlNode)) → AreLower xs → AreLower ys → AreLower (xs ++ ys)
AreLower-append [] ys xs_lower ys_lower = ys_lower
AreLower-append (x ∷ xs) ys xs_lower ys_lower =
    (xs_lower.0, AreLower-append xs ys xs_lower.1 ys_lower)

listed-AreLower :
    (prefix : Text) (node : YamlNode) (below : List (Text × YamlNode))
    → AreLower below
    → AreLower (listed prefix node below)
listed-AreLower prefix node below lower = elim (Bool-cases (is_valid_name prefix)) [
  | inl e ↦ rw e (map_lower prefix e, lower)
  | inr e ↦ rw e tt
]

mutual
  unfolding list_all_member list_members

  all-AreLower : (prefix : Text) (node : YamlNode) → AreLower (list_all_member prefix node)
  all-AreLower prefix (scalar text) = listed-AreLower prefix (scalar text) [] tt
  all-AreLower prefix (sequence texts) = listed-AreLower prefix (sequence texts) [] tt
  all-AreLower prefix (mapping members) =
      listed-AreLower prefix (mapping members) (list_members prefix members)
        (members-AreLower prefix members)

  members-AreLower :
      (prefix : Text) (members : YamlMembers) → AreLower (list_members prefix members)
  members-AreLower prefix no_more = tt
  members-AreLower prefix (member key node members) =
      AreLower-append (list_all_member (joined prefix key) node) (list_members prefix members)
        (all-AreLower (joined prefix key) node) (members-AreLower prefix members)

module _ (printed : YamlNode → Text) (is_known : Text → Bool) where
  -- The loop without the lower-casing.
  abbrev pub deliver_as_written : List (Text × YamlNode) → List (Text × Text)
  deliver_as_written [] = []
  deliver_as_written ((key, node) ∷ nodes) =
      deliver printed is_known key node ++ deliver_as_written nodes

  deliver_all-AreLower :
      (nodes : List (Text × YamlNode))
      → AreLower nodes
      → deliver_all printed is_known nodes ≡ deliver_as_written nodes
  unfolding deliver_all
  deliver_all-AreLower [] lower = refl
  deliver_all-AreLower ((key, node) ∷ nodes) lower =
      rw lower.0
        (ap (λ l. deliver printed is_known key node ++ l) (deliver_all-AreLower nodes lower.1))

  -- LoadFromYaml gives the variables, on every tree, what it would give them without turning the names into lower
  -- case.
  pub load_from_yaml-as_written :
      (root : YamlNode)
      → load_from_yaml printed is_known root ≡ deliver_as_written (list_all_member [] root)
  unfolding load_from_yaml
  load_from_yaml-as_written root =
      deliver_all-AreLower (list_all_member [] root) (all-AreLower [] root)
