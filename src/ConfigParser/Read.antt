-- ===== src/ConfigParser/Read.antt =====
-- `parse_rule` reads of a node the rule that the node says.
use mavtables.Prelude.{
  ℕ, ◌≡◌, refl, sym, ap, ◌∙◌, subst, false, Option, none, some, List, [], ◌∷◌, Bytes, codes,
  Bool-cases, inl, inr, if◌then◌else◌,
}
use mavtables.Prelude.Int.{ℤ}
use mavtables.Prelude.Exception.{
  Result, ok, err, invalid_argument, ◌>>=◌, Gives, >>=-Gives, Gives-map,
}
use mavtables.Mavlink
use mavtables.Mavlink.{Library, MessageInfo}
use mavtables.MavSubnet
use mavtables.MavSubnet.{MavSubnet}
use mavtables.If
use mavtables.If.{If}
use mavtables.Rule
use mavtables.Rule.{Rule}
use mavtables.Ast
use mavtables.Ast.{
  Name, Node, Nodes, node, none_left, and, children, chain, default_action, accept, reject, call,
  goto_, priority, condition, packet_type, source, dest,
}
use mavtables.ConfigParser.{
  Chains, same_text, stoi, at, chain_of, target, condition_option, parse_condition, rule_option,
  rule_options, Options, parse_action, parse_rule,
}
use mavtables.ConfigParser.Meaning.{
  int_or, with_id, with_source, with_dest, read_part, read_condition, next_priority, priority_of,
  next_condition, condition_of, to_chain, last_index, read_rule,
}

module _ (lib : Library) (tokens : Bytes → List Bytes) where
  found-with_id :
      (f : If) (o : Option MessageInfo)
      → Gives
          (λ g. g ≡ with_id f o)
          ((elim o [ some info ↦ ok info.msgid | none ↦ err invalid_argument ]) >>= λ i.
            ok (record f { id = some i }))
  found-with_id f none = tt
  found-with_id f (some info) = refl

  parsed-with_source :
      (f : If) (r : Result MavSubnet)
      → Gives (λ g. g ≡ with_source f r) (r >>= λ s. ok (If.from f s))
  unfolding If.from
  parsed-with_source f (ok s) = refl
  parsed-with_source f (err e) = tt

  parsed-with_dest :
      (f : If) (r : Result MavSubnet) → Gives (λ g. g ≡ with_dest f r) (r >>= λ s. ok (If.to f s))
  unfolding If.to
  parsed-with_dest f (ok s) = refl
  parsed-with_dest f (err e) = tt

  condition_option-read_part :
      (n : Node) (f : If)
      → Gives (λ g. g ≡ read_part lib tokens f n) (condition_option lib tokens n f)
  unfolding condition_option Ast.content If.type_name Mavlink.id If.from_string If.to_string
  condition_option-read_part (node packet_type none c) f = tt
  condition_option-read_part (node packet_type (some name) c) f =
      found-with_id f (lib.message_info_by_name name)
  condition_option-read_part (node source none c) f = tt
  condition_option-read_part (node source (some text) c) f =
      parsed-with_source f (MavSubnet.parse tokens text)
  condition_option-read_part (node dest none c) f = tt
  condition_option-read_part (node dest (some text) c) f =
      parsed-with_dest f (MavSubnet.parse tokens text)
  condition_option-read_part n f = refl

  parse_condition-read :
      (nodes : Nodes) (f : If)
      → Gives (λ g. g ≡ read_condition lib tokens f nodes) (parse_condition lib tokens nodes f)
  unfolding parse_condition read_condition
  parse_condition-read none_left f = refl
  parse_condition-read (and n nodes) f =
      >>=-Gives (λ g. g ≡ read_part lib tokens f n)
        (λ g. g ≡ read_condition lib tokens (read_part lib tokens f n) nodes)
        (condition_option lib tokens n f) _ (condition_option-read_part n f)
        (λ g same.
          subst
            (λ h.
              Gives (λ k. k ≡ read_condition lib tokens h nodes)
                (parse_condition lib tokens nodes g))
            same (parse_condition-read nodes g))

  -- The options so far, and those of one more node.
  abbrev AreOptions : Option ℤ → Option If → Options lib tokens → Type 0
  AreOptions p f o = (o.0 ≡ p) × (o.1 ≡ f)

  read-priority :
      (p : Option ℤ) (f : Option If) (r : Result ℤ)
      → Gives (AreOptions (int_or p r) f) (r >>= λ n. ok (some n, f))
  read-priority p f (ok n) = (refl, refl)
  read-priority p f (err e) = tt

  rule_option-next :
      (n : Node) (o : Options lib tokens)
      → Gives
          (AreOptions (next_priority lib tokens o.0 n) (next_condition lib tokens o.1 n))
          (rule_option lib tokens n o)
  unfolding rule_option Ast.content
  rule_option-next (node priority none c) o = tt
  rule_option-next (node priority (some text) c) o = read-priority o.0 o.1 (stoi 32 text)
  rule_option-next (node condition s c) o =
      let start : If = record { id = none; source = none; dest = none } in
      >>=-Gives (λ g. g ≡ read_condition lib tokens start c)
        (AreOptions o.0 (some (read_condition lib tokens start c)))
        (parse_condition lib tokens c start) _ (parse_condition-read c start)
        (λ g same. (refl, ap some same))
  rule_option-next n o = (refl, refl)

  rule_options-last :
      (nodes : Nodes) (o : Options lib tokens)
      → Gives
          (AreOptions (priority_of lib tokens o.0 nodes) (condition_of lib tokens o.1 nodes))
          (rule_options lib tokens nodes o)
  unfolding rule_options priority_of condition_of
  rule_options-last none_left o = (refl, refl)
  rule_options-last (and n nodes) o =
      let p = next_priority lib tokens o.0 n in
      let f = next_condition lib tokens o.1 n in
      >>=-Gives (AreOptions p f)
        (AreOptions (priority_of lib tokens p nodes) (condition_of lib tokens f nodes))
        (rule_option lib tokens n o) _ (rule_option-next n o)
        (λ o' same.
          Gives-map _
            (AreOptions (priority_of lib tokens p nodes) (condition_of lib tokens f nodes))
            (rule_options lib tokens nodes o') (rule_options-last nodes o')
            (λ o'' h. (
              h.0 ∙ ap (λ q. priority_of lib tokens q nodes) same.0,
              h.1 ∙ ap (λ g. condition_of lib tokens g nodes) same.1,
            )))

  -- The map of the chains finds a name where it stands last.
  module _ (names : List Bytes) (chains : Chains)
      (agrees : (name : Bytes)
        → Gives (λ i. last_index name names ≡ some i) (chain_of lib tokens name chains)) where
    at-last_index :
        (name : Bytes)
        → same_text name (codes "default") ≡ false
        → Gives (λ i. last_index name names ≡ some i) (at name chains)
    unfolding chain_of
    at-last_index name other =
        subst
          (λ b. Gives (λ i. last_index name names ≡ some i) (if b then ok 0 else at name chains))
          other (agrees name)

    aim :
        (name : Bytes) (make : Option ℕ → Result Rule) (rule : ℕ → Rule)
        → ((i : ℕ) → make (some i) ≡ ok (rule i))
        → Gives
            (λ r. to_chain lib tokens (last_index name names) rule ≡ r ∷ [])
            (target lib tokens (some name) chains >>= make)
    unfolding target
    aim name make rule makes = elim (Bool-cases (same_text name (codes "default"))) [
      | inl default ↦ rw default tt
      | inr other ↦ rw other (found (at name chains) (at-last_index name other))
    ]
      where
        found :
            (r : Result ℕ)
            → Gives (λ i. last_index name names ≡ some i) r
            → Gives
                (λ x. to_chain lib tokens (last_index name names) rule ≡ x ∷ [])
                ((r >>= λ i. ok (some i)) >>= make)
        found (err e) h = tt
        found (ok i) h =
            subst (Gives (λ x. to_chain lib tokens (last_index name names) rule ≡ x ∷ []))
              (sym (makes i)) (ap (λ o. to_chain lib tokens o rule) h)

    parse_action-read :
        (n : Node)
        → Gives
            (λ rule. read_rule lib tokens names n ≡ rule ∷ [])
            (parse_action lib tokens n
              (priority_of lib tokens none (children n))
              (condition_of lib tokens none (children n))
              chains)
    unfolding parse_action read_rule children Rule.make_call Rule.make_goto target
    parse_action-read (node accept s c) = refl
    parse_action-read (node reject s c) = refl
    parse_action-read (node call none c) = tt
    parse_action-read (node call (some name) c) =
        aim name _
          (λ i. Rule.call i (priority_of lib tokens none c) (condition_of lib tokens none c))
          (λ i. refl)
    parse_action-read (node goto_ none c) = tt
    parse_action-read (node goto_ (some name) c) =
        aim name _
          (λ i. Rule.goto i (priority_of lib tokens none c) (condition_of lib tokens none c))
          (λ i. refl)
    parse_action-read n = tt

    pub parse_rule-read :
        (n : Node)
        → Gives (λ rule. read_rule lib tokens names n ≡ rule ∷ []) (parse_rule lib tokens n chains)
    unfolding parse_rule
    parse_rule-read n =
        >>=-Gives
          (AreOptions (priority_of lib tokens none (children n))
            (condition_of lib tokens none (children n)))
          (λ rule. read_rule lib tokens names n ≡ rule ∷ [])
          (rule_options lib tokens (children n) (none, none)) _
          (rule_options-last (children n) (none, none))
          (λ o same.
            subst
              (λ p.
                Gives (λ rule. read_rule lib tokens names n ≡ rule ∷ [])
                  (parse_action lib tokens n p o.1 chains))
              (sym same.0)
              (subst
                (λ f.
                  Gives (λ rule. read_rule lib tokens names n ≡ rule ∷ [])
                    (parse_action lib tokens n (priority_of lib tokens none (children n)) f chains))
                (sym same.1) (parse_action-read n)))
