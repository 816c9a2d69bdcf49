-- ===== src/ParseTree.antt =====
-- src/parse_tree.hpp, src/config_grammar.hpp and src/config_grammar.cpp: how the tree is built while
-- the grammar is matched. The matching is PEGTL's: what it calls, in order, is a parameter. For a rule
-- that is stored it calls `start` when it begins with the rule, and `success` or `failure` when it
-- leaves it; for the other rules nothing is called that has an effect. A rule is a number, a position
-- a number of bytes from the start of the text.
pub mod Builds
use mavtables.Prelude.{
  ℕ, suc, ◌-◌, Bool, true, false, Option, none, some, List, [], ◌∷◌, ◌++◌, Bytes, codes, ltb,
  if◌then◌else◌, take, drop, length, ◌==◌,
}
use mavtables.Prelude.Exception.{Result, ok, err, undefined_behaviour, ◌>>=◌}
use mavtables.Text.{decimal}

-- `id_` is none for the root; `finish` is none while there is no content.
mutual
  pub data Tree : Type 0 where
    tree : Option ℕ → ℕ → Option ℕ → Trees → Tree

  pub data Trees : Type 0 where
    leaf : Trees
    and : Tree → Trees → Trees

-- `children.emplace_back`
unfoldable pub snoc : Trees → Tree → Trees
snoc leaf t = and t leaf
snoc (and x trees) t = and x (snoc trees t)

unfoldable pub emplace_back : Tree → Tree → Tree
unfolding snoc
emplace_back (tree id start finish children) child = tree id start finish (snoc children child)

-- The mixins of the stored rules.
pub data Mixin : Type 0 where
  yes_content yes_without_content replace_with_first_child : Mixin

-- `end_ = in.iterator()`
unfoldable pub succeed : ℕ → Tree → Tree
succeed position (tree id start finish children) = tree id start (some position) children

unfoldable pub remove_content : Tree → Tree
remove_content (tree id start finish children) = tree id start none children

-- `children.front()`, whose own children are replaced by the children behind it.
unfoldable pub first_child : Tree → Result Tree
first_child (tree id start finish leaf) = err undefined_behaviour
first_child (tree id start finish (and (tree i s f c) children)) = ok (tree i s f children)

unfoldable pub transform : Mixin → Tree → Result Tree
unfolding remove_content first_child
transform Mixin.yes_content t = ok t
transform Mixin.yes_without_content t = ok (remove_content t)
transform Mixin.replace_with_first_child t = first_child t

-- What PEGTL calls.
pub data Event : Type 0 where
  started : ℕ → ℕ → Event
  succeeded : Mixin → ℕ → Event
  failed : Event

-- `state`, the node that is built last first.
abbrev pub Stack : Type 0
Stack = List Tree

unfoldable pub start : ℕ → ℕ → Stack → Stack
start rule position stack = tree (some rule) position none leaf ∷ stack

abbrev pub into_parent : Stack → Tree → Result Stack
into_parent [] t = err undefined_behaviour
into_parent (parent ∷ stack) t = ok (emplace_back parent t ∷ stack)

unfoldable pub success : Mixin → ℕ → Stack → Result Stack
unfolding succeed transform emplace_back
success mixin position [] = err undefined_behaviour
success mixin position (n ∷ stack) = do
  t ← transform mixin (succeed position n)
  into_parent stack t

unfoldable pub failure : Stack → Result Stack
failure [] = err undefined_behaviour
failure (n ∷ stack) = ok stack

unfoldable pub step : Event → Stack → Result Stack
unfolding start success failure
step (started rule position) stack = ok (start rule position stack)
step (succeeded mixin position) stack = success mixin position stack
step failed stack = failure stack

unfoldable pub run : List Event → Stack → Result Stack
unfolding step
run [] stack = ok stack
run (e ∷ events) stack = do stack' ← step e stack; run events stack'

abbrev pub root : Tree
root = tree none 0 none leaf

-- `assert(state.stack.size() == 1)`
abbrev pub only : Stack → Result Tree
only (t ∷ []) = ok t
only _ = err undefined_behaviour

-- `parse`: null where the grammar does not match.
unfoldable pub parse : Bool → List Event → Result (Option Tree)
unfolding run
parse matched events = do
  stack ← run events (root ∷ [])
  if matched then (do t ← only stack; ok (some t)) else ok none

-- `find_first_not_of("_")` and `find_last_not_of("_")`
unfoldable pub trim_left : Bytes → Bytes
trim_left [] = []
trim_left (c ∷ s) = let rest = trim_left s in if c == b'_' then rest else c ∷ s

unfoldable pub trim_right : Bytes → Bytes
trim_right [] = []
trim_right (c ∷ s) = shortened c (trim_right s)
  where
    shortened : ℕ → Bytes → Bytes
    shortened c [] = if c == b'_' then [] else c ∷ []
    shortened c (d ∷ s) = c ∷ d ∷ s

-- Three digits at least.
unfoldable pub padded : Bytes → Bytes
padded s = if ltb (length s) 2 then b'0' ∷ b'0' ∷ s else if ltb (length s) 3 then b'0' ∷ s else s

-- The text is what was parsed, `line` the line of a position, and `demangle` the name of a rule.
module _ (text : Bytes) (line : ℕ → ℕ) (demangle : ℕ → Bytes) where
  unfoldable pub node_name : ℕ → Bytes
  unfolding trim_left trim_right
  node_name rule = trim_right (trim_left (drop 8 (demangle rule)))

  abbrev print_content : ℕ → Option ℕ → Bytes
  print_content start none = []
  print_content start (some finish) = codes " " ++ take (finish - start) (drop start text)

  abbrev print_location : Bool → ℕ → Bytes
  print_location false start = []
  print_location true start = codes ":" ++ (padded (decimal (line start)) ++ codes ":  ")

  unfoldable mutual
    unfolding padded node_name

    pub print_node : Bool → Bytes → Tree → Bytes
    print_node location prefix (tree none start finish children) =
        print_nodes location prefix children
    print_node location prefix (tree (some rule) start finish children) =
        print_location location start
        ++ (prefix
            ++ (node_name rule
                ++ (print_content start finish
                    ++ (codes "\n" ++ print_nodes location (prefix ++ codes "|  ") children))))

    pub print_nodes : Bool → Bytes → Trees → Bytes
    print_nodes location prefix leaf = []
    print_nodes location prefix (and t trees) =
        print_node location prefix t ++ print_nodes location prefix trees
