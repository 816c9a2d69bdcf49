-- ===== src/ConfigParser/Blocks.antt =====
-- `parse_filter` makes the chains and gives them the rules that the file says.
use mavtables.Prelude.{
  ℕ, zero, suc, ◌≡◌, refl, sym, ap, ◌∙◌, subst, Bool, false, Option, none, some, List, [], ◌∷◌,
  ◌++◌, append_assoc, append-nil, Bytes, codes, All, get_elem?, set, get_elem?-set_self, ◌==◌,
  ==_iff, arith, Bool-cases, inl, inr, if◌then◌else◌,
}
use mavtables.Prelude.Exception.{Result, ok, err, ◌>>=◌, Gives, >>=-Gives, Gives-ok, Gives-map}
use mavtables.Mavlink.{Library}
use mavtables.Rule.{Rule}
use mavtables.Chain
use mavtables.Chain.{Chain, Heap}
use mavtables.Filter
use mavtables.Filter.{Filter}
use mavtables.Ast
use mavtables.Ast.{Node, Nodes, node, none_left, and}
use mavtables.ConfigParser.{
  Chains, init_chains, parse_rule, parse_chain, chain_of, pointed, fill_chain, first_is_accept,
  filter_node, filter_nodes, parse_filter,
}
use mavtables.ConfigParser.Meaning.{
  names_of, block_names, last_index, is_place, accepts, last_action, read_rule, read_rules,
  blocks_of,
}
use mavtables.ConfigParser.Read.{parse_rule-read}
use mavtables.ConfigParser.Named.{Finds, IsNamed, make-name, default-Finds, init_chains-IsNamed}
use mavtables.ConfigParser.Bare.{IsBare, make-IsBare, IsMade, init_chains-IsMade}

abbrev pub rules_of : Option Chain → List Rule
rules_of none = []
rules_of (some c) = c.rules

Gives-both :
    {A : Type 0} (P Q : A → Type 0) (r : Result A)
    → Gives P r
    → Gives Q r
    → Gives (λ a. P a × Q a) r
Gives-both P Q (ok a) p q = (p, q)
Gives-both P Q (err e) p q = tt

module _ {ℓ} {A : Type ℓ} where
  get_elem?-set_other :
      (xs : List A) (i j : ℕ) (v : A) → (i == j) ≡ false → get_elem? (set xs i v) j ≡ get_elem? xs j
  get_elem?-set_other [] i j v h = refl
  get_elem?-set_other (x ∷ xs) zero zero v h = absurd (ground arith)
  get_elem?-set_other (x ∷ xs) zero (suc j) v h = refl
  get_elem?-set_other (x ∷ xs) (suc i) zero v h = refl
  get_elem?-set_other (x ∷ xs) (suc i) (suc j) v h = get_elem?-set_other xs i j v (ground arith)

bare-rules_of : (heap : Heap) (i : ℕ) → All IsBare heap → rules_of (get_elem? heap i) ≡ []
bare-rules_of [] i all = refl
bare-rules_of (c ∷ heap) zero ((calm, bare), all) = bare
bare-rules_of (c ∷ heap) (suc i) (first, all) = bare-rules_of heap i all

set-names_of :
    (heap : Heap) (j : ℕ) (c c' : Chain)
    → get_elem? heap j ≡ some c
    → c'.name ≡ c.name
    → names_of (set heap j c') ≡ names_of heap
set-names_of [] j c c' there same = refl
set-names_of (x ∷ heap) zero c c' there same =
    ap (λ n. n ∷ names_of heap) (same ∙ ap (λ o. name_or x.name o) (sym there))
  where
    name_or : Bytes → Option Chain → Bytes
    name_or n none = n
    name_or n (some y) = y.name
set-names_of (x ∷ heap) (suc j) c c' there same =
    ap (λ l. x.name ∷ l) (set-names_of heap j c c' there same)

module _ (lib : Library) (tokens : Bytes → List Bytes) (names : List Bytes) (chains : Chains)
    (finds : Finds lib tokens names chains) where
  abbrev read : Nodes → List Rule
  read = read_rules lib tokens names

  abbrev blocks : ℕ → Nodes → List Rule
  blocks = blocks_of lib tokens names

  abbrev Appended : Chain → List Rule → Chain → Type 0
  Appended c rules c' = (c'.name ≡ c.name) × (c'.rules ≡ c.rules ++ rules)

  parse_chain-Appended :
      (rules : Nodes) (c : Chain)
      → Gives (Appended c (read rules)) (parse_chain lib tokens c rules chains)
  unfolding parse_chain read_rules Chain.append
  parse_chain-Appended none_left c = (refl, sym (append-nil c.rules))
  parse_chain-Appended (and n rules) c =
      >>=-Gives (λ rule. read_rule lib tokens names n ≡ rule ∷ [])
        (Appended c (read_rule lib tokens names n ++ read rules)) (parse_rule lib tokens n chains) _
        (parse_rule-read lib tokens names chains finds n)
        (λ rule e.
          Gives-map (Appended (Chain.append c rule) (read rules)) _ _
            (parse_chain-Appended rules (Chain.append c rule))
            (λ c' h. (
              h.0,
              h.1
                  ∙ append_assoc c.rules (rule ∷ []) (read rules)
                  ∙ ap (λ l. c.rules ++ (l ++ read rules)) (sym e),
            )))

  -- The chains have more rules, and their names.
  abbrev Grown : Heap → (ℕ → List Rule) → Heap → Type 0
  Grown heap more heap' =
      (names_of heap' ≡ names_of heap)
      × ((i : ℕ) → rules_of (get_elem? heap' i) ≡ rules_of (get_elem? heap i) ++ more i)

  pointed_self : (o : Option Chain) → Gives (λ c. o ≡ some c) (pointed lib tokens o)
  pointed_self none = tt
  pointed_self (some c) = refl

  set-Grown :
      (heap : Heap) (j : ℕ) (c c' : Chain) (rules : List Rule)
      → get_elem? heap j ≡ some c
      → Appended c rules c'
      → Grown heap (λ i. if j == i then rules else []) (set heap j c')
  set-Grown heap j c c' rules there (same_name, appended) =
      (set-names_of heap j c c' there same_name, at_index)
    where
      at_index :
          (i : ℕ)
          → rules_of (get_elem? (set heap j c') i)
            ≡ rules_of (get_elem? heap i) ++ (if j == i then rules else [])
      at_index i = elim (Bool-cases (j == i)) [
        | inl same ↦ rw same (
            subst
              (λ k. rules_of (get_elem? (set heap j c') k) ≡ rules_of (get_elem? heap k) ++ rules)
              ((==_iff j i).0 same)
              (ap rules_of (get_elem?-set_self heap j c' there)
                ∙ appended
                ∙ ap (λ o. rules_of o ++ rules) (sym there)))
        | inr other ↦ rw other (
            ap rules_of (get_elem?-set_other heap j i c' other)
            ∙ sym (append-nil (rules_of (get_elem? heap i))))
      ]

  fill_chain-Grown :
      (rules : Nodes) (j : ℕ) (heap : Heap)
      → Gives
          (Grown heap (λ i. if j == i then read rules else []))
          (fill_chain lib tokens rules j chains heap)
  unfolding fill_chain
  fill_chain-Grown rules j heap =
      >>=-Gives (λ c. get_elem? heap j ≡ some c)
        (Grown heap (λ i. if j == i then read rules else []))
        (pointed lib tokens (get_elem? heap j)) _ (pointed_self (get_elem? heap j))
        (λ c there.
          >>=-Gives (Appended c (read rules)) (Grown heap (λ i. if j == i then read rules else []))
            (parse_chain lib tokens c rules chains) _ (parse_chain-Appended rules c)
            (λ c' appended. set-Grown heap j c c' (read rules) there appended))

  -- The rules of every chain, and the default action.
  abbrev Configured : Heap → (ℕ → List Rule) → Bool → Heap × Bool → Type 0
  Configured heap more action (heap', action') = Grown heap more heap' × (action' ≡ action)

  nothing-Grown : (heap : Heap) → Grown heap (λ i. []) heap
  nothing-Grown heap = (refl, λ i. sym (append-nil (rules_of (get_elem? heap i))))

  -- The rules that a block of the name adds to the chain `i`.
  abbrev block : Option ℕ → Nodes → ℕ → List Rule
  block place rules i = if is_place place i then read rules else []

  filter_chain-Configured :
      (name : Bytes) (rules : Nodes) (heap : Heap) (action : Bool)
      → Gives (Configured heap (block (last_index name names) rules) action) (
          chain_of lib tokens name chains >>= λ j.
          fill_chain lib tokens rules j chains heap >>= λ heap'. ok (heap', action))
  filter_chain-Configured name rules heap action =
      of_index (chain_of lib tokens name chains) (finds name)
    where
      of_index :
          (r : Result ℕ)
          → Gives (λ j. last_index name names ≡ some j) r
          → Gives
              (Configured heap (block (last_index name names) rules) action)
              (r >>= λ j. fill_chain lib tokens rules j chains heap >>= λ heap'. ok (heap', action))
      of_index (err e) found = tt
      of_index (ok j) found =
          subst
            (λ o.
              Gives (Configured heap (block o rules) action)
                (fill_chain lib tokens rules j chains heap >>= λ heap'. ok (heap', action)))
            (sym found)
            (>>=-Gives (Grown heap (block (some j) rules))
              (Configured heap (block (some j) rules) action)
              (fill_chain lib tokens rules j chains heap) _ (fill_chain-Grown rules j heap)
              (λ heap' h. (h, refl)))

  then-Configured :
      (nodes : Nodes) (heap : Heap) (action : Bool) (now : ℕ → List Rule) (action' : Bool)
      (r : Result (Heap × Bool))
      → Gives (Configured heap now action') r
      → ((heap' : Heap) (a : Bool)
          → Gives
              (Configured heap' (λ i. blocks i nodes) (last_action a nodes))
              (filter_nodes lib tokens nodes chains heap' a))
      → Gives
          (Configured heap (λ i. now i ++ blocks i nodes) (last_action action' nodes))
          (r >>= λ x. filter_nodes lib tokens nodes chains x.0 x.1)
  then-Configured nodes heap action now action' (err e) first rest = tt
  then-Configured nodes heap action now action' (ok (heap', a)) ((kept, grown), same) rest =
      Gives-map (Configured heap' (λ i. blocks i nodes) (last_action a nodes)) _ _ (rest heap' a)
        (λ x h. (
          (
            (h.0).0 ∙ kept,
            λ i.
                (h.0).1 i
                ∙ ap (λ l. l ++ blocks i nodes) (grown i)
                ∙ append_assoc (rules_of (get_elem? heap i)) (now i) (blocks i nodes),
          ),
          h.1 ∙ ap (λ b. last_action b nodes) same,
        ))

  first_is_accept-accepts : (c : Nodes) → Gives (λ a. a ≡ accepts c) (first_is_accept lib tokens c)
  unfolding accepts
  first_is_accept-accepts none_left = tt
  first_is_accept-accepts (and (node Ast.accept s c) nodes) = refl
  first_is_accept-accepts (and (node n s c) nodes) = refl

  filter_nodes-Configured :
      (nodes : Nodes) (heap : Heap) (action : Bool)
      → Gives
          (Configured heap (λ i. blocks i nodes) (last_action action nodes))
          (filter_nodes lib tokens nodes chains heap action)
  unfolding filter_nodes filter_node blocks_of last_action Ast.content
  filter_nodes-Configured none_left heap action = (nothing-Grown heap, refl)
  filter_nodes-Configured (and (node Ast.chain none rules) nodes) heap action = tt
  filter_nodes-Configured (and (node Ast.chain (some name) rules) nodes) heap action =
      then-Configured nodes heap action (block (last_index name names) rules) action _
        (filter_chain-Configured name rules heap action)
        (λ heap' a. filter_nodes-Configured nodes heap' a)
  filter_nodes-Configured (and (node Ast.default_action s c) nodes) heap action =
      then-Configured nodes heap action (λ i. []) (accepts c) _
        (>>=-Gives (λ a. a ≡ accepts c) (Configured heap (λ i. []) (accepts c))
          (first_is_accept lib tokens c) _ (first_is_accept-accepts c)
          (λ a same. (nothing-Grown heap, same)))
        (λ heap' a. filter_nodes-Configured nodes heap' a)
  filter_nodes-Configured (and n nodes) heap action = filter_nodes-Configured nodes heap action

module _ (lib : Library) (tokens : Bytes → List Bytes) where
  -- The chains that the file names, with the rules that it gives them, and the default action.
  abbrev pub IsConfigured : Nodes → Heap × Filter → Type 0
  IsConfigured nodes (heap, f) =
      (names_of heap ≡ codes "default" ∷ block_names nodes)
      × ((i : ℕ) → rules_of (get_elem? heap i) ≡ blocks_of lib tokens (names_of heap) i nodes)
      × (f.default_chain ≡ 0)
      × (f.accept_by_default ≡ last_action false nodes)

  filled-IsConfigured :
      (nodes : Nodes) (made : Heap × Chains)
      → All IsBare made.0
      → IsNamed lib tokens (codes "default" ∷ block_names nodes) made
      → Gives
          (IsConfigured nodes)
          (filter_nodes lib tokens nodes made.1 made.0 false >>= λ x. ok (x.0, Filter.make 0 x.1))
  unfolding Filter.make
  filled-IsConfigured nodes (heap, chains) bare (finds, named) =
      >>=-Gives
        (Configured lib tokens (names_of heap) chains finds heap
          (λ i. blocks_of lib tokens (names_of heap) i nodes) (last_action false nodes))
        (IsConfigured nodes) (filter_nodes lib tokens nodes chains heap false) _
        (filter_nodes-Configured lib tokens (names_of heap) chains finds nodes heap false)
        (λ x h. (
          (h.0).0 ∙ named,
          λ i.
              (h.0).1 i
              ∙ ap (λ l. l ++ blocks_of lib tokens (names_of heap) i nodes)
                  (bare-rules_of heap i bare)
              ∙ ap (λ l. blocks_of lib tokens l i nodes) (sym ((h.0).0)),
          refl,
          h.1,
        ))

  parse_filter-IsConfigured :
      (root : Node) → Gives (IsConfigured (Ast.children root)) (parse_filter lib tokens root)
  unfolding parse_filter
  parse_filter-IsConfigured root =
      >>=-Gives (λ c. IsBare c × (c.name ≡ codes "default")) (IsConfigured (Ast.children root))
        (Chain.make (codes "default") []) _
        (Gives-both IsBare (λ c. c.name ≡ codes "default") (Chain.make (codes "default") [])
          (make-IsBare (codes "default")) (make-name (codes "default")))
        (λ c h.
          >>=-Gives
            (λ made.
              IsMade made
              × IsNamed lib tokens (codes "default" ∷ block_names (Ast.children root)) made)
            (IsConfigured (Ast.children root)) (init_chains (Ast.children root) (c ∷ []) []) _
            (Gives-both IsMade
              (IsNamed lib tokens (codes "default" ∷ block_names (Ast.children root)))
              (init_chains (Ast.children root) (c ∷ []) [])
              (init_chains-IsMade (Ast.children root) (c ∷ []) [] (omega arith, (h.0, tt), tt))
              (subst
                (λ n.
                  Gives (IsNamed lib tokens (n ∷ block_names (Ast.children root)))
                    (init_chains (Ast.children root) (c ∷ []) []))
                h.1
                (init_chains-IsNamed lib tokens (Ast.children root) (c ∷ []) [] (
                  subst (λ n. Finds lib tokens (n ∷ []) []) (sym h.1) (default-Finds lib tokens)))))
            (λ made k. filled-IsConfigured (Ast.children root) made (k.0).1 k.1))

  -- In the filter of a configuration that is accepted: the chains are the default chain and one for
  -- each block of another name, in the order of the file; the rules of every chain are those that
  -- the file gives in the blocks for which it is the last chain with their name, block after block,
  -- each with its last priority and its last condition, a call or goto to the last chain with its
  -- target's name, and no other rules; the default chain is the filter's; and the action for packets that no
  -- rule decides is that of the last `default_action`, or to reject if there is none.
  pub parse_filter-blocks_of :
      (root : Node) (heap : Heap) (f : Filter)
      → parse_filter lib tokens root ≡ ok (heap, f)
      → (names_of heap ≡ codes "default" ∷ block_names (Ast.children root))
        × ((i : ℕ)
            → rules_of (get_elem? heap i)
              ≡ blocks_of lib tokens (names_of heap) i (Ast.children root))
        × (f.default_chain ≡ 0)
        × (f.accept_by_default ≡ last_action false (Ast.children root))
  parse_filter-blocks_of root heap f e =
      Gives-ok (IsConfigured (Ast.children root)) (parse_filter lib tokens root) (heap, f)
        (parse_filter-IsConfigured root) e
