-- ===== src/Ast.antt =====
-- src/parse_tree.hpp and src/config_grammar.hpp: the nodes of the abstract syntax tree of a
-- configuration file. The names that the program tests are constructors; `other` is any other rule.
use mavtables.Prelude.{Bool, true, false, Option, none, some, Bytes}
use mavtables.Prelude.Exception.{Result, ok, err, undefined_behaviour}

-- "config::chain" and so on.
pub data Name : Type 0 where
  chain default_action accept reject call goto_ priority condition packet_type source dest : Name
  udp port address max_bitrate serial device baudrate flow_control preload : Name
  other : Bytes → Name

-- The children of a node, in order, are a list of nodes.
mutual
  pub data Node : Type 0 where
    node : Name → Option Bytes → Nodes → Node

  pub data Nodes : Type 0 where
    none_left : Nodes
    and : Node → Nodes → Nodes

unfoldable pub name : Node → Name
name (node n s nodes) = n

unfoldable pub children : Node → Nodes
children (node n s nodes) = nodes

abbrev given : Option Bytes → Bool
given none = false
given (some s) = true

unfoldable pub has_content : Node → Bool
has_content (node n s nodes) = given s

abbrev asserted : Option Bytes → Result Bytes
asserted none = err undefined_behaviour
asserted (some s) = ok s

-- `content` asserts that there is one.
unfoldable pub content : Node → Result Bytes
content (node n s nodes) = asserted s
