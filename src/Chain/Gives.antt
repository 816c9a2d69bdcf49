-- ===== src/Chain/Gives.antt =====
-- Each step of the evaluation with a heap and a recursion guard gives what its part of the ideal
-- evaluation has for an outcome.
use mavtables.Prelude.{
  ℕ, zero, suc, ◌≡◌, refl, ap, ◌∙◌, Bool, true, false, Option, none, some, List, [], ◌∷◌, arith,
  inl, inr, get_elem?, ◌⊎◌,
}
use mavtables.Prelude.Int.{ℤ}
use mavtables.Prelude.Exception.{Result, ok, err, Result-cases}
use mavtables.MavAddress.{MavAddress}
use mavtables.Packet.{Packet}
use mavtables.If
use mavtables.If.{If}
use mavtables.Action.{Action, Choice, make_accept, make_reject, make_continue, set_priority}
use mavtables.Rule
use mavtables.Rule.{Rule, Run, when_matches, map_action, prioritise, continue_to_default}
use mavtables.Chain
use mavtables.Chain.{
  Chain, Heap, contains_thread, enter, leave, first_decision, rules_action, action,
}
use mavtables.Chain.Ideal.{
  Outcome, with_priority, never_continue, map_outcome, holds, if_holds, rule_outcome, after_rule,
  unless_continue, rules_outcome,
}

unfoldable pub rules_at : Heap → ℕ → Option (List Rule)
rules_at [] c = none
rules_at (chain ∷ h) zero = some chain.rules
rules_at (chain ∷ h) (suc c) = rules_at h c

pub rules_at-some :
    (h : Heap) (c : ℕ) (chain : Chain)
    → get_elem? h c ≡ some chain
    → rules_at h c ≡ some chain.rules
unfolding rules_at
rules_at-some [] c chain at = cc
rules_at-some (x ∷ h) zero chain at = ground arith
rules_at-some (x ∷ h) (suc c) chain at = rules_at-some h c chain at

pub rules_at-none : (h : Heap) (c : ℕ) → get_elem? h c ≡ none → rules_at h c ≡ none
unfolding rules_at
rules_at-none [] c at = refl
rules_at-none (x ∷ h) zero at = cc
rules_at-none (x ∷ h) (suc c) at = rules_at-none h c at

pub rules_at-enter :
    (t : ℕ) (h : Heap) (c : ℕ) (chain : Chain) (d : ℕ)
    → get_elem? h c ≡ some chain
    → rules_at (enter t h c chain) d ≡ rules_at h d
unfolding rules_at enter
rules_at-enter t [] c chain d at = cc
rules_at-enter t (x ∷ h) zero chain zero at = ground arith
rules_at-enter t (x ∷ h) zero chain (suc d) at = refl
rules_at-enter t (x ∷ h) (suc c) chain zero at = refl
rules_at-enter t (x ∷ h) (suc c) chain (suc d) at = rules_at-enter t h c chain d at

-- The thread is evaluating the chain.
unfoldable pub is_held : ℕ → Heap → ℕ → Bool
unfolding contains_thread
is_held t [] d = false
is_held t (chain ∷ h) zero = contains_thread t chain.calling_threads
is_held t (chain ∷ h) (suc d) = is_held t h d

pub is_held-enter :
    (t : ℕ) (h : Heap) (c : ℕ) (chain : Chain) (d : ℕ)
    → get_elem? h c ≡ some chain
    → is_held t (enter t h c chain) d ≡ true
    → (d ≡ c) ⊎ (is_held t h d ≡ true)
unfolding is_held enter
is_held-enter t [] c chain d at held = cc
is_held-enter t (x ∷ h) zero chain zero at held = inl refl
is_held-enter t (x ∷ h) zero chain (suc d) at held = inr held
is_held-enter t (x ∷ h) (suc c) chain zero at held = inr held
is_held-enter t (x ∷ h) (suc c) chain (suc d) at held = elim (is_held-enter t h c chain d at held) [
  | inl e ↦ inl (ap suc e)
  | inr e ↦ inr e
]

pub is_held-contains :
    (t : ℕ) (h : Heap) (c : ℕ) (chain : Chain)
    → get_elem? h c ≡ some chain
    → contains_thread t chain.calling_threads ≡ is_held t h c
unfolding is_held
is_held-contains t [] c chain at = cc
is_held-contains t (x ∷ h) zero chain at = ground arith
is_held-contains t (x ∷ h) (suc c) chain at = is_held-contains t h c chain at

-- What is left behind by a run is the outcome and an unchanged heap, where there is an outcome.
abbrev pub Gives : Heap → Result Action × Heap → Outcome → Type 0
Gives h q o = (r : Result Action) → o ≡ some r → q ≡ (r, h)

ok-Gives : (a : Action) (h : Heap) → Gives h (ok a, h) (some (ok a))
ok-Gives a h r e = ground arith

fields-with_priority :
    (p : Option ℤ) (c : Choice) (q : Option ℤ)
    → prioritise p (record { choice = c; optional_priority = q })
      ≡ with_priority p (record { choice = c; optional_priority = q })
unfolding prioritise set_priority
fields-with_priority none Choice.accept none = refl
fields-with_priority none Choice.accept (some q) = refl
fields-with_priority none Choice.reject q = refl
fields-with_priority none Choice.continue q = refl
fields-with_priority none Choice.default q = refl
fields-with_priority (some p) Choice.accept none = refl
fields-with_priority (some p) Choice.accept (some q) = refl
fields-with_priority (some p) Choice.reject q = refl
fields-with_priority (some p) Choice.continue q = refl
fields-with_priority (some p) Choice.default q = refl

pub prioritise-with_priority : (p : Option ℤ) (a : Action) → prioritise p a ≡ with_priority p a
prioritise-with_priority p a = fields-with_priority p a.choice a.optional_priority

choice-never_continue :
    (c : Choice) (q : Option ℤ)
    → continue_to_default (record { choice = c; optional_priority = q })
      ≡ never_continue (record { choice = c; optional_priority = q })
unfolding continue_to_default
choice-never_continue Choice.accept q = refl
choice-never_continue Choice.reject q = refl
choice-never_continue Choice.continue q = refl
choice-never_continue Choice.default q = refl

pub goto-never_continue :
    (p : Option ℤ) (a : Action)
    → continue_to_default (prioritise p a) ≡ never_continue (with_priority p a)
goto-never_continue p a =
    ap continue_to_default (prioritise-with_priority p a)
    ∙ choice-never_continue (with_priority p a).choice (with_priority p a).optional_priority

map_action-Gives :
    (f g : Action → Action) (h : Heap) (q : Result Action × Heap) (o : Outcome)
    → ((a : Action) → f a ≡ g a)
    → Gives h q o
    → Gives h (map_action f q) (map_outcome g o)
map_action-Gives f g h q none same e = λ r k. absurd (cc)
map_action-Gives f g h q (some (ok a)) same e = λ r k. rw (e (ok a) refl) (ground (arith, same a))
map_action-Gives f g h q (some (err x)) same e = λ r k. rw (e (err x) refl) (ground arith)

module _ (packet : Packet) (address : MavAddress) where
  when_matches-Gives :
      (c : Option If) (body : Run Heap) (h : Heap) (o : Outcome)
      → Gives h (body h) o
      → Gives h (when_matches c packet address body h) (if_holds (holds packet address c) o)
  unfolding when_matches
  when_matches-Gives none body h o e = e
  when_matches-Gives (some f) body h o e = elim (Result-cases (If.check f packet address)) [
    | inl (true, k) ↦ rw k e
    | inl (false, k) ↦ rw k (ok-Gives make_continue h)
    | inr (x, k) ↦ rw k (λ r q. ground arith)
  ]

  rule-Gives :
      (run : ℕ → Run Heap) (f : ℕ → Outcome) (rule : Rule) (h : Heap)
      → ((c : ℕ) → Gives h (run c h) (f c))
      → Gives h (Rule.action run packet address rule h) (rule_outcome packet address f rule)
  unfolding Rule.action rule_outcome
  rule-Gives run f (Rule.accept p c) h e =
      when_matches-Gives c _ h (some (ok (make_accept p))) (ok-Gives (make_accept p) h)
  rule-Gives run f (Rule.reject c) h e =
      when_matches-Gives c _ h (some (ok make_reject)) (ok-Gives make_reject h)
  rule-Gives run f (Rule.call x p c) h e = when_matches-Gives c _ h _ (
      map_action-Gives (prioritise p) (with_priority p) h (run x h) (f x)
        (prioritise-with_priority p) (e x))
  rule-Gives run f (Rule.goto x p c) h e = when_matches-Gives c _ h _ (
      map_action-Gives _ (λ a. never_continue (with_priority p a)) h (run x h) (f x)
        (goto-never_continue p) (e x))

unless_continue-Gives :
    (c : Choice) (a : Action) (h : Heap) (rest : Run Heap) (o : Outcome)
    → Gives h (rest h) o
    → Gives h (Chain.stop_unless_continue c a h rest) (unless_continue c a o)
unless_continue-Gives Choice.continue a h rest o e = e
unless_continue-Gives Choice.accept a h rest o e = ok-Gives a h
unless_continue-Gives Choice.reject a h rest o e = ok-Gives a h
unless_continue-Gives Choice.default a h rest o e = ok-Gives a h

first_decision-Gives :
    (h : Heap) (q : Result Action × Heap) (rest : Run Heap) (o o' : Outcome)
    → Gives h q o
    → Gives h (rest h) o'
    → Gives h (first_decision q rest) (after_rule o o')
unfolding first_decision
first_decision-Gives h q rest none o' e k = λ r x. absurd (cc)
first_decision-Gives h q rest (some (err x)) o' e k = rw (e (err x) refl) (λ r x. ground arith)
first_decision-Gives h q rest (some (ok a)) o' e k =
    rw (e (ok a) refl) (unless_continue-Gives a.choice a h rest o' k)

module _ (packet : Packet) (address : MavAddress) (t : ℕ) where
  pub rules_action-Gives :
      (run : ℕ → Run Heap) (f : ℕ → Outcome) (rules : List Rule) (h : Heap)
      → ((c : ℕ) → Gives h (run c h) (f c))
      → Gives h (rules_action t packet address run rules h) (rules_outcome packet address f rules)
  unfolding rules_action rules_outcome
  rules_action-Gives run f [] h e = ok-Gives make_continue h
  rules_action-Gives run f (rule ∷ rules) h e =
      first_decision-Gives h (Rule.action run packet address rule h)
        (rules_action t packet address run rules) (rule_outcome packet address f rule)
        (rules_outcome packet address f rules) (rule-Gives packet address run f rule h e)
        (rules_action-Gives run f rules h e)
