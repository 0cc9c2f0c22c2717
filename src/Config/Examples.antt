-- ===== src/Config/Examples.antt =====
-- A tree with a port under two spellings.
use sylar.Common.{◌≡◌, refl, Bool, [], ◌∷◌}
use sylar.Common.Text.{Text, codes, text_eq}
use sylar.Config.{YamlNode, scalar, mapping, no_more, member, list_all_member, load_from_yaml}
use sylar.Config.Names.{deliver_as_written, load_from_yaml-as_written}

abbrev tree : YamlNode
tree = mapping (
    member (codes "system")
      (mapping (
        member (codes "port") (scalar (codes "80"))
          (member (codes "Port") (scalar (codes "81")) no_more)))
      no_more)

abbrev not_printed : YamlNode → Text
not_printed node = []

abbrev knows_port : Text → Bool
knows_port name = text_eq name (codes "system.port")

port_only : load_from_yaml not_printed knows_port tree ≡ (codes "system.port", codes "80") ∷ []
unfolding load_from_yaml list_all_member
port_only = refl

load_from_yaml-as_written_example :
    load_from_yaml not_printed knows_port tree
    ≡ deliver_as_written not_printed knows_port (list_all_member [] tree)
load_from_yaml-as_written_example = load_from_yaml-as_written not_printed knows_port tree
