-- ===== src/ConfigParser.antt =====
-- src/ConfigParser.cpp: from the syntax tree of a configuration file to the filter. A chain is its
-- index on the heap of chains; the default chain, which the filter owns, has index 0.
pub mod Interfaces
pub mod WellFormed
pub mod Started
pub mod Blocks
pub mod Ready
pub mod Bare
pub mod Meaning
pub mod Read
pub mod Named
use mavtables.Prelude.{
  ℕ, zero, suc, ◌-◌, ◌%◌, ◌^◌, Bool, true, false, not, ◌&&◌, Option, none, some, List, [], ◌∷◌,
  ◌++◌, Bytes, codes, list_eq, ltb, ◌==◌, if◌then◌else◌, length, get_elem?, set,
}
use mavtables.Prelude.Int.{ℤ, pos, negsuc}
use mavtables.Prelude.Exception.{
  Result, ok, err, invalid_argument, out_of_range, runtime_error, undefined_behaviour, ◌>>=◌,
}
use mavtables.Text.{Scanned, blank, malformed, number, scan}
use mavtables.Mavlink.{Library}
use mavtables.If
use mavtables.If.{If}
use mavtables.Rule
use mavtables.Rule.{Rule}
use mavtables.Chain
use mavtables.Chain.{Chain, Heap}
use mavtables.Filter
use mavtables.Filter.{Filter}
use mavtables.Ast
use mavtables.Ast.{
  Name, Node, Nodes, node, none_left, and, children, content, has_content, chain, default_action,
  accept, reject, call, goto_, priority, condition, packet_type, source, dest,
}

abbrev pub same_text : Bytes → Bytes → Bool
same_text = list_eq ◌==◌

-- `std::stoi`, `std::stol` and `std::stoll`, for `w` bits.
abbrev pub in_range : ℕ → Bool → ℕ → Result ℤ
in_range w false n = if ltb n (2 ^ (w - 1)) then ok (pos n) else err out_of_range
in_range w true zero = ok (pos 0)
in_range w true (suc n) = if ltb n (2 ^ (w - 1)) then ok (negsuc n) else err out_of_range

abbrev pub to_integer : ℕ → Scanned → Result ℤ
to_integer w blank = err invalid_argument
to_integer w (malformed rest) = err invalid_argument
to_integer w (number minus n rest) = in_range w minus n

unfoldable pub stoi : ℕ → Bytes → Result ℤ
unfolding scan
stoi w s = to_integer w (scan s)

-- `std::map` from the names of chains to chains, the newest first.
abbrev pub Chains : Type 0
Chains = List (Bytes × ℕ)

-- `chains.at(name)`
unfoldable pub at : Bytes → Chains → Result ℕ
at name [] = err out_of_range
at name ((n, i) ∷ chains) = let rest = at name chains in if same_text n name then ok i else rest

abbrev pub is_chain : Name → Bool
is_chain chain = true
is_chain _ = false

-- A new chain on the heap, which the map now has under its name.
abbrev pub with_chain : Bytes → Heap → Chains → Result Chain → Result (Heap × Chains)
with_chain name heap chains (err e) = err e
with_chain name heap chains (ok c) = ok (heap ++ c ∷ [], (name, length heap) ∷ chains)

unfoldable pub init_chain : Node → Heap → Chains → Result (Heap × Chains)
init_chain (node chain (some name) rules) heap chains =
    if same_text name (codes "default")
    then ok (heap, chains)
    else with_chain name heap chains (Chain.make name [])
init_chain root heap chains = ok (heap, chains)

unfoldable pub init_chains : Nodes → Heap → Chains → Result (Heap × Chains)
unfolding init_chain
init_chains none_left heap chains = ok (heap, chains)
init_chains (and n nodes) heap chains = do r ← init_chain n heap chains; init_chains nodes r.0 r.1

module _ (lib : Library) (tokens : Bytes → List Bytes) where
  unfoldable pub condition_option : Node → If → Result If
  condition_option (node packet_type s c) f = do
    name ← content (node packet_type s c)
    If.type_name lib f name
  condition_option (node source s c) f = do
    subnet ← content (node source s c)
    If.from_string tokens f subnet
  condition_option (node dest s c) f = do
    subnet ← content (node dest s c)
    If.to_string tokens f subnet
  condition_option n f = ok f

  unfoldable pub parse_condition : Nodes → If → Result If
  unfolding condition_option
  parse_condition none_left f = ok f
  parse_condition (and n nodes) f = do g ← condition_option n f; parse_condition nodes g

  -- The target of a call or a goto.
  unfoldable pub target : Option Bytes → Chains → Result (Option ℕ)
  unfolding at
  target none chains = err undefined_behaviour
  target (some name) chains =
      if same_text name (codes "default")
      then err invalid_argument
      else (do i ← at name chains; ok (some i))

  unfoldable pub parse_action : Node → Option ℤ → Option If → Chains → Result Rule
  unfolding target
  parse_action (node accept s c) p f chains = ok (Rule.accept p f)
  parse_action (node reject s c) p f chains = ok (Rule.reject f)
  parse_action (node call s c) p f chains = do i ← target s chains; Rule.make_call i p f
  parse_action (node goto_ s c) p f chains = do i ← target s chains; Rule.make_goto i p f
  parse_action n p f chains = err runtime_error

  -- The options of a rule: the last of each kind counts.
  abbrev pub Options : Type 0
  Options = Option ℤ × Option If

  unfoldable pub rule_option : Node → Options → Result Options
  unfolding parse_condition
  rule_option (node priority s c) o = do
    text ← content (node priority s c)
    n ← stoi 32 text
    ok (some n, o.1)
  rule_option (node condition s c) o = do
    f ← parse_condition c (record { id = none; source = none; dest = none })
    ok (o.0, some f)
  rule_option n o = ok o

  unfoldable pub rule_options : Nodes → Options → Result Options
  unfolding rule_option
  rule_options none_left o = ok o
  rule_options (and n nodes) o = do o' ← rule_option n o; rule_options nodes o'

  unfoldable pub parse_rule : Node → Chains → Result Rule
  unfolding rule_options parse_action
  parse_rule n chains = do o ← rule_options (children n) (none, none); parse_action n o.0 o.1 chains

  unfoldable pub parse_chain : Chain → Nodes → Chains → Result Chain
  unfolding parse_rule
  parse_chain c none_left chains = ok c
  parse_chain c (and n nodes) chains = do
    rule ← parse_rule n chains
    parse_chain (Chain.append c rule) nodes chains

  -- `*chains.at(name)`, or the default chain.
  unfoldable pub chain_of : Bytes → Chains → Result ℕ
  chain_of name chains = if same_text name (codes "default") then ok 0 else at name chains

  abbrev pub pointed : Option Chain → Result Chain
  pointed none = err undefined_behaviour
  pointed (some c) = ok c

  unfoldable pub fill_chain : Nodes → ℕ → Chains → Heap → Result Heap
  unfolding parse_chain
  fill_chain rules i chains heap = do
    c ← pointed (get_elem? heap i)
    c' ← parse_chain c rules chains
    ok (set heap i c')

  abbrev is_accept : Name → Bool
  is_accept accept = true
  is_accept _ = false

  -- `node->children[0]->name() == "config::accept"`
  abbrev pub first_is_accept : Nodes → Result Bool
  first_is_accept none_left = err undefined_behaviour
  first_is_accept (and (node n s c) nodes) = ok (is_accept n)

  unfoldable pub filter_node : Node → Chains → Heap → Bool → Result (Heap × Bool)
  unfolding chain_of fill_chain
  filter_node (node chain s rules) chains heap action = do
    name ← content (node chain s rules)
    i ← chain_of name chains
    heap' ← fill_chain rules i chains heap
    ok (heap', action)
  filter_node (node default_action s c) chains heap action = do a ← first_is_accept c; ok (heap, a)
  filter_node n chains heap action = ok (heap, action)

  unfoldable pub filter_nodes : Nodes → Chains → Heap → Bool → Result (Heap × Bool)
  unfolding filter_node
  filter_nodes none_left chains heap action = ok (heap, action)
  filter_nodes (and n nodes) chains heap action = do
    r ← filter_node n chains heap action
    filter_nodes nodes chains r.0 r.1

  -- The filter, and the heap with its chains.
  unfoldable pub parse_filter : Node → Result (Heap × Filter)
  unfolding init_chains filter_nodes
  parse_filter root = do
    default_chain ← Chain.make (codes "default") []
    r ← init_chains (children root) (default_chain ∷ []) []
    filled ← filter_nodes (children root) r.1 r.0 false
    ok (filled.0, Filter.make 0 filled.1)
