-- ===== src/ConfigParser/WellFormed.antt =====
-- The filter of a configuration: every rule points to a chain that exists and is not the default.
use mavtables.Prelude.{
  ℕ, zero, suc, ◌<◌, ◌≡◌, refl, sym, ◌∙◌, subst, Bool, false, Option, none, some, List, [], ◌∷◌,
  Bytes, codes, All, All-append, All-set, All-get_elem?, length, get_elem?, length-set, arith,
  Bool-cases, inl, inr,
}
use mavtables.Prelude.Int.{ℤ}
use mavtables.Prelude.Exception.{Result, ok, err, ◌>>=◌, Gives, >>=-Gives, Gives-ok, Gives-Unit}
use mavtables.Mavlink.{Library}
use mavtables.If.{If}
use mavtables.Rule
use mavtables.Rule.{Rule, accept, reject, call, goto}
use mavtables.Chain
use mavtables.Chain.{Chain, Heap, has_blank, contains_thread}
use mavtables.Chain.Gives.{is_held}
use mavtables.Filter
use mavtables.Filter.{Filter}
use mavtables.Ast
use mavtables.Ast.{Node, Nodes, node, none_left, and}
use mavtables.ConfigParser.{
  Chains, same_text, at, init_chains, target, parse_action, rule_options, parse_rule, parse_chain,
  chain_of, pointed, fill_chain, first_is_accept, filter_node, filter_nodes, parse_filter,
}
use mavtables.ConfigParser.Bare.{
  RuleOf, ChainOf, WellFormed, EntryOf, IsIndex, at-IsIndex, IsBare, IsMade, make-IsBare,
  init_chains-IsMade, bare-ChainOf,
}

module _ (lib : Library) (tokens : Bytes → List Bytes) (n : ℕ) where
  abbrev TargetOf : Option ℕ → Type 0
  TargetOf none = Unit
  TargetOf (some i) = IsIndex n i

  target-TargetOf :
      (s : Option Bytes) (chains : Chains)
      → All (EntryOf n) chains
      → Gives TargetOf (target lib tokens s chains)
  unfolding target
  target-TargetOf none chains all = tt
  target-TargetOf (some name) chains all = elim (Bool-cases (same_text name (codes "default"))) [
    | inl default ↦ rw default tt
    | inr other ↦ rw other (
        >>=-Gives (IsIndex n) TargetOf (at name chains) _ (at-IsIndex n name chains all) (λ i h. h))
  ]

  make_call-RuleOf :
      (i : Option ℕ) (p : Option ℤ) (f : Option If)
      → TargetOf i
      → Gives (RuleOf n) (Rule.make_call i p f)
  unfolding Rule.make_call
  make_call-RuleOf none p f h = tt
  make_call-RuleOf (some i) p f h = h

  make_goto-RuleOf :
      (i : Option ℕ) (p : Option ℤ) (f : Option If)
      → TargetOf i
      → Gives (RuleOf n) (Rule.make_goto i p f)
  unfolding Rule.make_goto
  make_goto-RuleOf none p f h = tt
  make_goto-RuleOf (some i) p f h = h

  module _ (chains : Chains) (entries : All (EntryOf n) chains) where
    parse_action-RuleOf :
        (root : Node) (p : Option ℤ) (f : Option If)
        → Gives (RuleOf n) (parse_action lib tokens root p f chains)
    unfolding parse_action
    parse_action-RuleOf (node Ast.call s c) p f =
        >>=-Gives TargetOf (RuleOf n) (target lib tokens s chains) _
          (target-TargetOf s chains entries) (λ i h. make_call-RuleOf i p f h)
    parse_action-RuleOf (node Ast.goto_ s c) p f =
        >>=-Gives TargetOf (RuleOf n) (target lib tokens s chains) _
          (target-TargetOf s chains entries) (λ i h. make_goto-RuleOf i p f h)
    parse_action-RuleOf _ p f = tt

    parse_rule-RuleOf : (root : Node) → Gives (RuleOf n) (parse_rule lib tokens root chains)
    unfolding parse_rule
    parse_rule-RuleOf root =
        >>=-Gives (λ o. Unit) (RuleOf n) (rule_options lib tokens (Ast.children root) (none, none))
          _ (Gives-Unit (rule_options lib tokens (Ast.children root) (none, none)))
          (λ o h. parse_action-RuleOf root o.0 o.1)

    parse_chain-ChainOf :
        (rules : Nodes) (c : Chain)
        → ChainOf n c
        → Gives (ChainOf n) (parse_chain lib tokens c rules chains)
    unfolding parse_chain Chain.append
    parse_chain-ChainOf none_left c h = h
    parse_chain-ChainOf (and root rules) c (calm, all) =
        >>=-Gives (RuleOf n) (ChainOf n) (parse_rule lib tokens root chains) _
          (parse_rule-RuleOf root)
          (λ rule h.
            parse_chain-ChainOf rules (Chain.append c rule)
              (calm, All-append (RuleOf n) c.rules (rule ∷ []) all (h, tt)))

    -- The heap while the chains are filled.
    abbrev IsFilled : Heap → Type 0
    IsFilled heap = (length heap ≡ n) × All (ChainOf n) heap

    pointed-ChainOf :
        (heap : Heap) (i : ℕ) (o : Option Chain)
        → get_elem? heap i ≡ o
        → All (ChainOf n) heap
        → Gives (ChainOf n) (pointed lib tokens o)
    pointed-ChainOf heap i none e all = tt
    pointed-ChainOf heap i (some c) e all = All-get_elem? (ChainOf n) heap i c all e

    fill_chain-IsFilled :
        (rules : Nodes) (i : ℕ) (heap : Heap)
        → IsFilled heap
        → Gives IsFilled (fill_chain lib tokens rules i chains heap)
    unfolding fill_chain
    fill_chain-IsFilled rules i heap (size, all) =
        >>=-Gives (ChainOf n) IsFilled (pointed lib tokens (get_elem? heap i)) _
          (pointed-ChainOf heap i _ refl all)
          (λ c h.
            >>=-Gives (ChainOf n) IsFilled (parse_chain lib tokens c rules chains) _
              (parse_chain-ChainOf rules c h)
              (λ c' h'. (length-set heap i c' ∙ size, All-set (ChainOf n) heap i c' all h')))

    abbrev PairFilled : Heap × Bool → Type 0
    PairFilled (heap, action) = IsFilled heap

    filter_node-PairFilled :
        (root : Node) (heap : Heap) (action : Bool)
        → IsFilled heap
        → Gives PairFilled (filter_node lib tokens root chains heap action)
    unfolding filter_node Ast.content chain_of
    filter_node-PairFilled (node Ast.chain none rules) heap action h = tt
    filter_node-PairFilled (node Ast.chain (some name) rules) heap action h =
        of_index (chain_of lib tokens name chains)
      where
        of_index :
            (r : Result ℕ)
            → Gives PairFilled (
                r >>= λ i.
                fill_chain lib tokens rules i chains heap >>= λ heap'. ok (heap', action))
        of_index (err e) = tt
        of_index (ok i) =
            >>=-Gives IsFilled PairFilled (fill_chain lib tokens rules i chains heap) _
              (fill_chain-IsFilled rules i heap h) (λ heap' h'. h')
    filter_node-PairFilled (node Ast.default_action s c) heap action h =
        of_first (first_is_accept lib tokens c)
      where
        of_first : (r : Result Bool) → Gives PairFilled (r >>= λ a. ok (heap, a))
        of_first (err e) = tt
        of_first (ok a) = h
    filter_node-PairFilled root heap action h = h

    filter_nodes-PairFilled :
        (nodes : Nodes) (heap : Heap) (action : Bool)
        → IsFilled heap
        → Gives PairFilled (filter_nodes lib tokens nodes chains heap action)
    unfolding filter_nodes
    filter_nodes-PairFilled none_left heap action h = h
    filter_nodes-PairFilled (and root nodes) heap action h =
        >>=-Gives PairFilled PairFilled (filter_node lib tokens root chains heap action) _
          (filter_node-PairFilled root heap action h)
          (λ r h'. filter_nodes-PairFilled nodes r.0 r.1 h')

abbrev pub IsConfigured : Heap × Filter → Type 0
IsConfigured (heap, f) =
    WellFormed heap × (f.default_chain < length heap) × ((t d : ℕ) → is_held t heap d ≡ false)

empty-is_held : (n t d : ℕ) (heap : Heap) → All (ChainOf n) heap → is_held t heap d ≡ false
unfolding is_held contains_thread
empty-is_held n t d [] all = refl
empty-is_held n t zero (c ∷ heap) ((calm, rules), all) = rw calm refl
empty-is_held n t (suc d) (c ∷ heap) (first, all) = empty-is_held n t d heap all

module _ (lib : Library) (tokens : Bytes → List Bytes) where
  parse_filter-IsConfigured : (root : Node) → Gives IsConfigured (parse_filter lib tokens root)
  unfolding parse_filter Filter.make
  parse_filter-IsConfigured root =
      >>=-Gives IsBare IsConfigured (Chain.make (codes "default") []) _
        (make-IsBare (codes "default"))
        (λ c bare.
          >>=-Gives IsMade IsConfigured (init_chains (Ast.children root) (c ∷ []) []) _
            (init_chains-IsMade (Ast.children root) (c ∷ []) [] (omega arith, (bare, tt), tt))
            (λ r made.
              let (some_chain, all, entries) = made in
              >>=-Gives (PairFilled lib tokens (length r.0) r.1 entries) IsConfigured
                (filter_nodes lib tokens (Ast.children root) r.1 r.0 false) _
                (filter_nodes-PairFilled lib tokens (length r.0) r.1 entries (Ast.children root) r.0
                  false (refl, bare-ChainOf (length r.0) r.0 all))
                (λ filled h.
                  let (size, chains) = h in
                  (
                    subst (λ n. All (ChainOf n) filled.0) (sym size) chains,
                    omega arith,
                    λ t d. empty-is_held (length r.0) t d filled.0 chains,
                  ))))

  -- The filter of a configuration that is accepted: its default chain exists, every `call` and `goto`
  -- of a rule points to a chain that exists and is not the default chain, and no thread is in a chain,
  -- as the verdict of the filter needs.
  pub parse_filter-WellFormed :
      (root : Node) (heap : Heap) (f : Filter)
      → parse_filter lib tokens root ≡ ok (heap, f)
      → WellFormed heap × (f.default_chain < length heap) × ((t d : ℕ) → is_held t heap d ≡ false)
  parse_filter-WellFormed root heap f e =
      Gives-ok IsConfigured (parse_filter lib tokens root) (heap, f)
        (parse_filter-IsConfigured root) e
