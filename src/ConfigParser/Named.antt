-- ===== src/ConfigParser/Named.antt =====
-- `init_chains`: the map of the chains leads from a name to the last chain that was made with it.
use mavtables.Prelude.{
  ℕ, suc, ◌≡◌, refl, sym, ap, ◌∙◌, subst, Bool, true, false, none, some, List, [], ◌∷◌, ◌++◌,
  append_assoc, append-nil, Bytes, codes, length, list_eq, arith, Bool-cases, inl, inr,
  if◌then◌else◌,
}
use mavtables.Prelude.Exception.{Result, ok, err, Gives, >>=-Gives}
use mavtables.Mavlink.{Library}
use mavtables.Chain
use mavtables.Chain.{Chain, Heap, has_blank}
use mavtables.Ast.{Node, Nodes, node, none_left, and, chain}
use mavtables.ConfigParser.{Chains, same_text, at, chain_of, with_chain, init_chain, init_chains}
use mavtables.ConfigParser.Meaning.{block_names, last_index, behind, names_of}

same_text_sound : (a b : Bytes) → same_text a b ≡ true → a ≡ b
unfolding list_eq
same_text_sound [] [] h = refl
same_text_sound [] (y ∷ b) h = absurd (cc)
same_text_sound (x ∷ a) [] h = absurd (cc)
same_text_sound (x ∷ a) (y ∷ b) h =
    let first : x ≡ y = ground arith in let rest = same_text_sound a b (ground arith) in cc

same_text_self : (a : Bytes) → same_text a a ≡ true
unfolding list_eq
same_text_self [] = refl
same_text_self (x ∷ a) = let rest = same_text_self a in ground arith

last_index-append :
    (name : Bytes) (names : List Bytes) (m : Bytes)
    → last_index name (names ++ m ∷ [])
      ≡ (if same_text m name then some (length names) else last_index name names)
unfolding last_index
last_index-append name [] m = elim (Bool-cases (same_text m name)) [
  | inl same ↦ rw same refl
  | inr other ↦ rw other refl
]
last_index-append name (n ∷ names) m =
    let rest = last_index-append name names m in
    elim (Bool-cases (same_text m name)) [
      | inl same ↦
          ap (behind (same_text n name))
            (rest ∙ ap (λ b. if b then some (length names) else last_index name names) same)
          ∙ sym (
              ap
                (λ b.
                  if b
                  then some (suc (length names))
                  else behind (same_text n name) (last_index name names))
                same)
      | inr other ↦
          ap (behind (same_text n name))
            (rest ∙ ap (λ b. if b then some (length names) else last_index name names) other)
          ∙ sym (
              ap
                (λ b.
                  if b
                  then some (suc (length names))
                  else behind (same_text n name) (last_index name names))
                other)
    ]

length-names_of : (heap : Heap) → length (names_of heap) ≡ length heap
length-names_of [] = refl
length-names_of (c ∷ heap) = ap suc (length-names_of heap)

names_of-append :
    (heap : Heap) (c : Chain) → names_of (heap ++ c ∷ []) ≡ names_of heap ++ c.name ∷ []
names_of-append [] c = refl
names_of-append (x ∷ heap) c = ap (λ l. x.name ∷ l) (names_of-append heap c)

pub make-name : (name : Bytes) → Gives (λ c. c.name ≡ name) (Chain.make name [])
unfolding Chain.make
make-name name = elim (Bool-cases (has_blank name)) [
  | inl blank ↦ rw blank tt
  | inr solid ↦ rw solid refl
]

module _ (lib : Library) (tokens : Bytes → List Bytes) where
  abbrev pub Finds : List Bytes → Chains → Type 0
  Finds names chains =
      (name : Bytes) → Gives (λ i. last_index name names ≡ some i) (chain_of lib tokens name chains)

  -- The default chain alone.
  pub default-Finds : Finds (codes "default" ∷ []) []
  unfolding chain_of at last_index
  default-Finds name = elim (Bool-cases (same_text name (codes "default"))) [
    | inl default ↦ rw default (
        ap (λ b. behind b none)
          (subst (λ n. same_text (codes "default") n ≡ true)
            (sym (same_text_sound name (codes "default") default))
            (same_text_self (codes "default"))))
    | inr other ↦ rw other tt
  ]

  -- One more chain, which is not the default.
  more-Finds :
      (names : List Bytes) (chains : Chains) (m : Bytes)
      → same_text m (codes "default") ≡ false
      → Finds names chains
      → Finds (names ++ m ∷ []) ((m, length names) ∷ chains)
  unfolding chain_of at
  more-Finds names chains m own finds name = elim (Bool-cases (same_text name (codes "default"))) [
    | inl default ↦
        let apart : same_text m name ≡ false =
          subst (λ n. same_text m n ≡ false) (sym (same_text_sound name (codes "default") default))
            own in
        let old =
          subst
            (λ b. Gives (λ i. last_index name names ≡ some i) (if b then ok 0 else at name chains))
            default (finds name) in
        rw default (
          last_index-append name names m
          ∙ ap (λ b. if b then some (length names) else last_index name names) apart
          ∙ old)
    | inr other ↦
        let old =
          subst
            (λ b. Gives (λ i. last_index name names ≡ some i) (if b then ok 0 else at name chains))
            other (finds name) in
        rw other (either (same_text m name) (last_index-append name names m) (at name chains) old)
  ]
    where
      either :
          (b : Bool)
          → last_index name (names ++ m ∷ [])
            ≡ (if b then some (length names) else last_index name names)
          → (r : Result ℕ) → Gives (λ i. last_index name names ≡ some i) r
          → Gives
              (λ i. last_index name (names ++ m ∷ []) ≡ some i)
              (if b then ok (length names) else r)
      either true e r old = e
      either false e (ok i) old = e ∙ old
      either false e (err x) old = tt

  -- What the node `n` adds to the names.
  abbrev Adds : Node → List Bytes → Heap × Chains → Type 0
  Adds n names (heap, chains) =
      Finds (names_of heap) chains
      × ((nodes : Nodes) → names_of heap ++ block_names nodes ≡ names ++ block_names (and n nodes))

  same-Adds :
      (n : Node) (heap : Heap) (chains : Chains)
      → ((nodes : Nodes) → block_names (and n nodes) ≡ block_names nodes)
      → Finds (names_of heap) chains
      → Adds n (names_of heap) (heap, chains)
  same-Adds n heap chains none_more finds =
      (finds, λ nodes. ap (λ l. names_of heap ++ l) (sym (none_more nodes)))

  with_chain-Adds :
      (name : Bytes) (rules : Nodes) (heap : Heap) (chains : Chains) (r : Result Chain)
      → same_text name (codes "default") ≡ false
      → Gives (λ c. c.name ≡ name) r
      → Finds (names_of heap) chains
      → Gives (Adds (node chain (some name) rules) (names_of heap)) (with_chain name heap chains r)
  unfolding block_names
  with_chain-Adds name rules heap chains (err e) own named finds = tt
  with_chain-Adds name rules heap chains (ok c) own named finds =
      let e : names_of (heap ++ c ∷ []) ≡ names_of heap ++ name ∷ [] =
        names_of-append heap c ∙ ap (λ n. names_of heap ++ n ∷ []) named in
      (
        subst (λ l. Finds l ((name, length heap) ∷ chains)) (sym e)
            (subst (λ k. Finds (names_of heap ++ name ∷ []) ((name, k) ∷ chains))
              (length-names_of heap) (more-Finds (names_of heap) chains name own finds)),
        λ nodes.
            ap (λ l. l ++ block_names nodes) e
            ∙ append_assoc (names_of heap) (name ∷ []) (block_names nodes)
            ∙ ap (λ b. names_of heap ++ (if b then block_names nodes else name ∷ block_names nodes))
                (sym own),
      )

  init_chain-Adds :
      (n : Node) (heap : Heap) (chains : Chains)
      → Finds (names_of heap) chains
      → Gives (Adds n (names_of heap)) (init_chain n heap chains)
  unfolding init_chain block_names
  init_chain-Adds (node chain none rules) heap chains finds =
      same-Adds (node chain none rules) heap chains (λ nodes. refl) finds
  init_chain-Adds (node chain (some name) rules) heap chains finds =
      elim (Bool-cases (same_text name (codes "default"))) [
        | inl default ↦ rw default (
            same-Adds (node chain (some name) rules) heap chains
              (λ nodes. ap (λ b. if b then block_names nodes else name ∷ block_names nodes) default)
              finds)
        | inr own ↦
            subst
              (λ b.
                Gives (Adds (node chain (some name) rules) (names_of heap)) (
                  if b
                  then ok (heap, chains)
                  else with_chain name heap chains (Chain.make name [])))
              (sym own)
              (with_chain-Adds name rules heap chains (Chain.make name []) own (make-name name)
                finds)
      ]
  init_chain-Adds n heap chains finds = same-Adds n heap chains (λ nodes. refl) finds

  -- The names of all blocks.
  abbrev pub IsNamed : List Bytes → Heap × Chains → Type 0
  IsNamed names (heap, chains) = Finds (names_of heap) chains × (names_of heap ≡ names)

  pub init_chains-IsNamed :
      (nodes : Nodes) (heap : Heap) (chains : Chains)
      → Finds (names_of heap) chains
      → Gives (IsNamed (names_of heap ++ block_names nodes)) (init_chains nodes heap chains)
  unfolding init_chains block_names
  init_chains-IsNamed none_left heap chains finds = (finds, sym (append-nil (names_of heap)))
  init_chains-IsNamed (and n nodes) heap chains finds =
      >>=-Gives (Adds n (names_of heap)) (IsNamed (names_of heap ++ block_names (and n nodes)))
        (init_chain n heap chains) _ (init_chain-Adds n heap chains finds)
        (λ r adds.
          subst (λ l. Gives (IsNamed l) (init_chains nodes r.0 r.1)) (adds.1 nodes)
            (init_chains-IsNamed nodes r.0 r.1 adds.0))
