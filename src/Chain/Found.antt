-- ===== src/Chain/Found.antt =====
-- The converse: what an evaluation that trips no recursion guard decides is the ideal outcome.
use mavtables.Prelude.{
  ℕ, zero, suc, ◌≡◌, ◌≢◌, refl, sym, ◌∙◌, true, false, Option, none, some, List, [], ◌∷◌, arith,
  Bool-cases, Option-cases, inl, inr, get_elem?, length, subst,
}
use mavtables.Prelude.Exception.{Result, ok, err, recursion_error, fuel_exhausted, Result-cases}
use mavtables.MavAddress.{MavAddress}
use mavtables.Packet.{Packet}
use mavtables.If
use mavtables.If.{If}
use mavtables.Action.{Action, Choice}
use mavtables.Rule
use mavtables.Rule.{Rule, Run, when_matches, map_action, prioritise}
use mavtables.Chain
use mavtables.Chain.{Chain, Heap, contains_thread, enter, first_decision, rules_action, action}
use mavtables.Chain.Restored.{rule-restored, action-restored}
use mavtables.Chain.Terminates.{action-terminates}
use mavtables.Chain.Ideal.{
  Outcome, with_priority, never_continue, map_outcome, holds, if_holds, rule_outcome, after_rule,
  unless_continue, rules_outcome, chain_outcome,
}
use mavtables.Chain.Gives.{
  rules_at, rules_at-some, rules_at-none, rules_at-enter, prioritise-with_priority,
  goto-never_continue,
}

abbrev Found : Result Action → Outcome → Type 0
Found r o = r ≢ err recursion_error → r ≢ err fuel_exhausted → o ≡ some r

map_action-Found :
    (f g : Action → Action) (q : Result Action × Heap) (o : Outcome)
    → ((a : Action) → f a ≡ g a)
    → Found q.0 o
    → Found (map_action f q).0 (map_outcome g o)
map_action-Found f g (ok a, h) o same e = λ x y. rw (e (λ k. cc) (λ k. cc)) (ground (arith, same a))
map_action-Found f g (err x, h) o same e = λ x y. rw (e x y)

unless_continue-Found :
    (c : Choice) (a : Action) (h : Heap) (rest : Run Heap) (o : Outcome)
    → Found (rest h).0 o
    → Found (Chain.stop_unless_continue c a h rest).0 (unless_continue c a o)
unless_continue-Found Choice.continue a h rest o e = e
unless_continue-Found Choice.accept a h rest o e = λ x y. refl
unless_continue-Found Choice.reject a h rest o e = λ x y. refl
unless_continue-Found Choice.default a h rest o e = λ x y. refl

first_decision-Found :
    (q : Result Action × Heap) (rest : Run Heap) (o o' : Outcome)
    → Found q.0 o
    → Found (rest q.1).0 o'
    → Found (first_decision q rest).0 (after_rule o o')
unfolding first_decision
first_decision-Found (err x, h) rest o o' e k = λ x y. rw (e x y)
first_decision-Found (ok a, h) rest o o' e k =
    rw (e (λ k. cc) (λ k. cc)) (unless_continue-Found a.choice a h rest o' k)

module _ (packet : Packet) (address : MavAddress) where
  when_matches-Found :
      (c : Option If) (body : Run Heap) (h : Heap) (o : Outcome)
      → Found (body h).0 o
      → Found (when_matches c packet address body h).0 (if_holds (holds packet address c) o)
  unfolding when_matches
  when_matches-Found none body h o e = e
  when_matches-Found (some f) body h o e = elim (Result-cases (If.check f packet address)) [
    | inl (true, k) ↦ rw k e
    | inl (false, k) ↦ rw k (λ x y. refl)
    | inr (x, k) ↦ rw k (λ x y. refl)
  ]

  rule-Found :
      (run : ℕ → Run Heap) (f : ℕ → Outcome) (rule : Rule) (h : Heap)
      → ((c : ℕ) → Found (run c h).0 (f c))
      → Found (Rule.action run packet address rule h).0 (rule_outcome packet address f rule)
  unfolding Rule.action rule_outcome
  rule-Found run f (Rule.accept p c) h e = when_matches-Found c _ h _ (λ x y. refl)
  rule-Found run f (Rule.reject c) h e = when_matches-Found c _ h _ (λ x y. refl)
  rule-Found run f (Rule.call x p c) h e = when_matches-Found c _ h _ (
      map_action-Found (prioritise p) (with_priority p) (run x h) (f x) (prioritise-with_priority p)
        (e x))
  rule-Found run f (Rule.goto x p c) h e = when_matches-Found c _ h _ (
      map_action-Found _ (λ a. never_continue (with_priority p a)) (run x h) (f x)
        (goto-never_continue p) (e x))

  module _ (t : ℕ) where
    rules_action-Found :
        (run : ℕ → Run Heap) (f : ℕ → Outcome) (rules : List Rule) (h : Heap)
        → ((c : ℕ) → (run c h).1 ≡ h)
        → ((c : ℕ) → Found (run c h).0 (f c))
        → Found (rules_action t packet address run rules h).0 (rules_outcome packet address f rules)
    unfolding rules_action rules_outcome
    rules_action-Found run f [] h same e = λ x y. refl
    rules_action-Found run f (rule ∷ rules) h same e =
        first_decision-Found (Rule.action run packet address rule h)
          (rules_action t packet address run rules) (rule_outcome packet address f rule)
          (rules_outcome packet address f rules) (rule-Found run f rule h e)
          (subst
            (λ h'.
              Found (rules_action t packet address run rules h').0
                (rules_outcome packet address f rules))
            (sym (rule-restored packet address run rule h same))
            (rules_action-Found run f rules h same e))

    action-Found :
        (look : ℕ → Option (List Rule)) (fuel c : ℕ) (h : Heap)
        → ((d : ℕ) → rules_at h d ≡ look d)
        → Found (action t packet address fuel c h).0 (chain_outcome packet address look fuel c)
    unfolding action chain_outcome
    action-Found look zero c h same = λ x y. absurd (y refl)
    action-Found look (suc fuel) c h same = elim (Option-cases (get_elem? h c)) [
      | inl dangling ↦
          rw (dangling, action, sym (same c) ∙ rules_at-none h c dangling, chain_outcome)
            (λ x y. refl)
      | inr (chain, at) ↦ elim (Bool-cases (contains_thread t chain.calling_threads)) [
        | inl inside ↦ rw (at, action, inside) (λ x y. absurd (x refl))
        | inr outside ↦
            rw (at, action, outside, sym (same c) ∙ rules_at-some h c chain at, chain_outcome)
              (rules_action-Found (action t packet address fuel)
                (chain_outcome packet address look fuel) chain.rules (enter t h c chain)
                (λ d. action-restored packet address t fuel d (enter t h c chain))
                (λ d.
                  action-Found look fuel d (enter t h c chain)
                    (λ x. rules_at-enter t h c chain x at ∙ same x)))
      ]
    ]

    -- Every evaluation that does not end in a recursion error decides what the rules, read with no
    -- recursion guard, come to at a depth of one more than the number of chains.
    pub action-finds_outcome :
        (c : ℕ) (h : Heap)
        → (action t packet address (suc (length h)) c h).0 ≢ err recursion_error
        → chain_outcome packet address (rules_at h) (suc (length h)) c
          ≡ some (action t packet address (suc (length h)) c h).0
    action-finds_outcome c h no_recursion =
        action-Found (rules_at h) (suc (length h)) c h (λ d. refl) no_recursion
          (action-terminates packet address t c h)
