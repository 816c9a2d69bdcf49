-- ===== src/ConfigParser/Bare.antt =====
-- The chains of a configuration while they are made: they have no rules yet.
use mavtables.Prelude.{
  ℕ, ◌+◌, ◌≤◌, ◌<◌, ◌≡◌, refl, sym, subst, some, [], ◌∷◌, ◌++◌, Bytes, codes, All, All-append,
  length, length-append, arith, Bool-cases, inl, inr,
}
use mavtables.Prelude.Exception.{Result, ok, err, Gives, >>=-Gives}
use mavtables.Rule.{Rule, accept, reject, call, goto}
use mavtables.Chain
use mavtables.Chain.{Chain, Heap, has_blank, contains_thread}
use mavtables.Ast
use mavtables.Ast.{Node, Nodes, node, none_left, and}
use mavtables.ConfigParser.{Chains, same_text, at, with_chain, init_chain, init_chains}

abbrev pub RuleOf : ℕ → Rule → Type 0
RuleOf n (accept p f) = Unit
RuleOf n (reject f) = Unit
RuleOf n (call i p f) = (0 < i) × (i < n)
RuleOf n (goto i p f) = (0 < i) × (i < n)

-- No thread is in the chain, and its rules point to chains below `n` that are not the default.
abbrev pub ChainOf : ℕ → Chain → Type 0
ChainOf n c = (c.calling_threads ≡ []) × All (RuleOf n) c.rules

abbrev pub WellFormed : Heap → Type 0
WellFormed h = All (ChainOf (length h)) h

abbrev pub EntryOf : ℕ → Bytes × ℕ → Type 0
EntryOf n (name, i) = (0 < i) × (i < n)

abbrev pub IsIndex : ℕ → ℕ → Type 0
IsIndex n i = (0 < i) × (i < n)

pub at-IsIndex :
    (n : ℕ) (name : Bytes) (chains : Chains)
    → All (EntryOf n) chains
    → Gives (IsIndex n) (at name chains)
unfolding at
at-IsIndex n name [] all = tt
at-IsIndex n name ((m, i) ∷ chains) (first, all) = elim (Bool-cases (same_text m name)) [
  | inl same ↦ rw same first
  | inr other ↦ rw other (at-IsIndex n name chains all)
]

-- While the chains are made, they have no rules.
abbrev pub IsBare : Chain → Type 0
IsBare c = (c.calling_threads ≡ []) × (c.rules ≡ [])

abbrev pub IsMade : Heap × Chains → Type 0
IsMade (heap, chains) = (0 < length heap) × All IsBare heap × All (EntryOf (length heap)) chains

pub make-IsBare : (name : Bytes) → Gives IsBare (Chain.make name [])
unfolding Chain.make
make-IsBare name = elim (Bool-cases (has_blank name)) [
  | inl blank ↦ rw blank tt
  | inr solid ↦ rw solid (refl, refl)
]

more-entries : (n m : ℕ) (chains : Chains) → n ≤ m → All (EntryOf n) chains → All (EntryOf m) chains
more-entries n m [] le all = tt
more-entries n m ((name, i) ∷ chains) le ((above, below), all) =
    ((above, omega arith), more-entries n m chains le all)

with_chain-IsMade :
    (name : Bytes) (heap : Heap) (chains : Chains) (r : Result Chain)
    → Gives IsBare r
    → IsMade (heap, chains)
    → Gives IsMade (with_chain name heap chains r)
with_chain-IsMade name heap chains (err e) bare made = tt
with_chain-IsMade name heap chains (ok c) bare (some_chain, all, entries) =
    let n : length (heap ++ c ∷ []) ≡ length heap + 1 = length-append heap (c ∷ []) in
    (
      omega arith,
      All-append IsBare heap (c ∷ []) all (bare, tt),
      ((omega arith, omega arith), more-entries (length heap) _ chains (omega arith) entries),
    )

init_chain-IsMade :
    (n : Node) (heap : Heap) (chains : Chains)
    → IsMade (heap, chains)
    → Gives IsMade (init_chain n heap chains)
unfolding init_chain
init_chain-IsMade (node Ast.chain (some name) rules) heap chains made =
    elim (Bool-cases (same_text name (codes "default"))) [
      | inl default ↦ rw default made
      | inr other ↦
          rw other (with_chain-IsMade name heap chains (Chain.make name []) (make-IsBare name) made)
    ]
init_chain-IsMade n heap chains made = made

pub init_chains-IsMade :
    (nodes : Nodes) (heap : Heap) (chains : Chains)
    → IsMade (heap, chains)
    → Gives IsMade (init_chains nodes heap chains)
unfolding init_chains
init_chains-IsMade none_left heap chains made = made
init_chains-IsMade (and n nodes) heap chains made =
    >>=-Gives IsMade IsMade (init_chain n heap chains) _ (init_chain-IsMade n heap chains made)
      (λ r made'. init_chains-IsMade nodes r.0 r.1 made')

pub bare-ChainOf : (n : ℕ) (heap : Heap) → All IsBare heap → All (ChainOf n) heap
bare-ChainOf n [] all = tt
bare-ChainOf n (c ∷ heap) ((calm, bare), all) =
    ((calm, subst (All (RuleOf n)) (sym bare) tt), bare-ChainOf n heap all)
