-- ===== src/Config.antt =====
-- sylar/config.cpp: how a YAML tree reaches the variables. `printed` is what YAML's output operator prints of a node
-- that is not a scalar; `is_known` says which names LookupBase finds.
pub mod Names
mod Examples
use sylar.Common.{
  ℕ, Bool, true, false, ◌&&◌, ◌||◌, List, [], ◌∷◌, ◌++◌, map, leb, ◌==◌, if◌then◌else◌,
}
use sylar.Common.Text.{Text}
use sylar.Http.Headers.{to_lower}

-- A document as yaml-cpp gives it: what is neither a scalar nor a map is a sequence here.
mutual
  pub data YamlNode : Type 0 where
    scalar : Text → YamlNode
    sequence : List Text → YamlNode
    mapping : YamlMembers → YamlNode

  pub data YamlMembers : Type 0 where
    no_more : YamlMembers
    member : Text → YamlNode → YamlMembers → YamlMembers

-- The characters that a name may have.
abbrev pub is_name_char : ℕ → Bool
is_name_char c = (leb 97 c && leb c 122) || ((c == 46) || ((c == 95) || (leb 48 c && leb c 57)))

abbrev pub is_valid_name : Text → Bool
is_valid_name [] = true
is_valid_name (c ∷ name) = is_name_char c && is_valid_name name

abbrev pub joined : (prefix key : Text) → Text
joined [] key = key
joined (c ∷ prefix) key = (c ∷ prefix) ++ (46 ∷ key)

-- The node itself and what is below it, unless its name is not valid.
abbrev pub listed : Text → YamlNode → List (Text × YamlNode) → List (Text × YamlNode)
listed prefix node below = if is_valid_name prefix then (prefix, node) ∷ below else []

unfoldable mutual
  pub list_all_member : (prefix : Text) → YamlNode → List (Text × YamlNode)
  list_all_member prefix (scalar text) = listed prefix (scalar text) []
  list_all_member prefix (sequence texts) = listed prefix (sequence texts) []
  list_all_member prefix (mapping members) =
      listed prefix (mapping members) (list_members prefix members)

  pub list_members : (prefix : Text) → YamlMembers → List (Text × YamlNode)
  list_members prefix no_more = []
  list_members prefix (member key node members) =
      list_all_member (joined prefix key) node ++ list_members prefix members

module _ (printed : YamlNode → Text) (is_known : Text → Bool) where
  abbrev pub text_of : YamlNode → Text
  text_of (scalar text) = text
  text_of (sequence texts) = printed (sequence texts)
  text_of (mapping members) = printed (mapping members)

  -- fromString of the variable with that name, if there is one.
  abbrev pub deliver : Text → YamlNode → List (Text × Text)
  deliver [] node = []
  deliver (c ∷ key) node = if is_known (c ∷ key) then (c ∷ key, text_of node) ∷ [] else []

  -- The loop of LoadFromYaml.
  unfoldable pub deliver_all : List (Text × YamlNode) → List (Text × Text)
  deliver_all [] = []
  deliver_all ((key, node) ∷ nodes) = deliver (map to_lower key) node ++ deliver_all nodes

  -- The names and texts of the calls of fromString, in order.
  unfoldable pub load_from_yaml : YamlNode → List (Text × Text)
  unfolding list_all_member deliver_all
  load_from_yaml root = deliver_all (list_all_member [] root)
