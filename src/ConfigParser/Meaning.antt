-- ===== src/ConfigParser/Meaning.antt =====
-- What a configuration file says about the chains and the default action, read off the syntax tree
-- with no map of chains and no errors: what is refused says nothing.
use mavtables.Prelude.{
  ℕ, suc, Bool, true, false, Option, none, some, List, [], ◌∷◌, ◌++◌, map, Bytes, codes, ◌==◌,
  if◌then◌else◌,
}
use mavtables.Prelude.Int.{ℤ}
use mavtables.Prelude.Exception.{Result, ok, err}
use mavtables.Mavlink.{Library, MessageInfo}
use mavtables.MavSubnet
use mavtables.MavSubnet.{MavSubnet}
use mavtables.If.{If}
use mavtables.Rule.{Rule}
use mavtables.Chain.{Heap}
use mavtables.Ast.{
  Node, Nodes, node, none_left, and, chain, default_action, accept, reject, call, goto_, priority,
  condition, packet_type, source, dest,
}
use mavtables.ConfigParser.{same_text, stoi}

abbrev pub names_of : Heap → List Bytes
names_of = map (λ c. c.name)

-- The names of the blocks of chains, without the default chain.
unfoldable pub block_names : Nodes → List Bytes
block_names none_left = []
block_names (and (node chain (some name) rules) nodes) =
    let rest = block_names nodes in if same_text name (codes "default") then rest else name ∷ rest
block_names (and n nodes) = block_names nodes

-- Where a name stands last.
abbrev pub behind : Bool → Option ℕ → Option ℕ
behind here (some i) = some (suc i)
behind true none = some 0
behind false none = none

unfoldable pub last_index : Bytes → List Bytes → Option ℕ
last_index name [] = none
last_index name (n ∷ names) = behind (same_text n name) (last_index name names)

abbrev pub is_place : Option ℕ → ℕ → Bool
is_place none i = false
is_place (some j) i = j == i

-- `accept` as the first of the children.
unfoldable pub accepts : Nodes → Bool
accepts (and (node accept s c) nodes) = true
accepts _ = false

-- The last `default_action` counts.
unfoldable pub last_action : Bool → Nodes → Bool
last_action action none_left = action
last_action action (and (node default_action s c) nodes) = last_action (accepts c) nodes
last_action action (and n nodes) = last_action action nodes

abbrev pub int_or : Option ℤ → Result ℤ → Option ℤ
int_or p (ok n) = some n
int_or p (err e) = p

abbrev pub with_id : If → Option MessageInfo → If
with_id f none = f
with_id f (some info) = record f { id = some info.msgid }

abbrev pub with_source : If → Result MavSubnet → If
with_source f (ok subnet) = record f { source = some subnet }
with_source f (err e) = f

abbrev pub with_dest : If → Result MavSubnet → If
with_dest f (ok subnet) = record f { dest = some subnet }
with_dest f (err e) = f

module _ (lib : Library) (tokens : Bytes → List Bytes) where
  -- The last packet type, the last source and the last destination of a condition.
  abbrev pub read_part : If → Node → If
  read_part f (node packet_type (some name) c) = with_id f (lib.message_info_by_name name)
  read_part f (node source (some text) c) = with_source f (MavSubnet.parse tokens text)
  read_part f (node dest (some text) c) = with_dest f (MavSubnet.parse tokens text)
  read_part f n = f

  unfoldable pub read_condition : If → Nodes → If
  read_condition f none_left = f
  read_condition f (and n nodes) = read_condition (read_part f n) nodes

  -- The last priority and the last condition of a rule.
  abbrev pub next_priority : Option ℤ → Node → Option ℤ
  next_priority p (node priority (some text) c) = int_or p (stoi 32 text)
  next_priority p n = p

  unfoldable pub priority_of : Option ℤ → Nodes → Option ℤ
  priority_of p none_left = p
  priority_of p (and n nodes) = priority_of (next_priority p n) nodes

  abbrev pub next_condition : Option If → Node → Option If
  next_condition f (node condition s c) =
      some (read_condition (record { id = none; source = none; dest = none }) c)
  next_condition f n = f

  unfoldable pub condition_of : Option If → Nodes → Option If
  unfolding read_condition
  condition_of f none_left = f
  condition_of f (and n nodes) = condition_of (next_condition f n) nodes

  abbrev pub to_chain : Option ℕ → (ℕ → Rule) → List Rule
  to_chain none rule = []
  to_chain (some i) rule = rule i ∷ []

  -- The rule of a node, where the chains have these names.
  unfoldable pub read_rule : List Bytes → Node → List Rule
  unfolding last_index priority_of condition_of
  read_rule names (node accept s c) = Rule.accept (priority_of none c) (condition_of none c) ∷ []
  read_rule names (node reject s c) = Rule.reject (condition_of none c) ∷ []
  read_rule names (node call (some name) c) =
      to_chain (last_index name names) (λ i. Rule.call i (priority_of none c) (condition_of none c))
  read_rule names (node goto_ (some name) c) =
      to_chain (last_index name names) (λ i. Rule.goto i (priority_of none c) (condition_of none c))
  read_rule names n = []

  unfoldable pub read_rules : List Bytes → Nodes → List Rule
  unfolding read_rule
  read_rules names none_left = []
  read_rules names (and n nodes) = read_rule names n ++ read_rules names nodes

  -- The rules of the blocks of the chain `i`, one block after another: of the chains with one name,
  -- the last has them.
  unfoldable pub blocks_of : List Bytes → ℕ → Nodes → List Rule
  unfolding read_rules
  blocks_of names i none_left = []
  blocks_of names i (and (node chain (some name) rules) nodes) =
      (if is_place (last_index name names) i then read_rules names rules else [])
      ++ blocks_of names i nodes
  blocks_of names i (and n nodes) = blocks_of names i nodes
