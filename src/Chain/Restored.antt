-- ===== src/Chain/Restored.antt =====
-- Evaluating a chain leaves the heap as it was, also when an exception is thrown.
use mavtables.Prelude.{
  ℕ, zero, suc, ◌≡◌, ◌≢◌, refl, ◌∙◌, true, false, Option, none, some, List, [], ◌∷◌, Bool-cases,
  Option-cases, inl, inr, get_elem?,
}
use mavtables.Prelude.Exception.{Exception, Result, ok, err, Result-cases}
use mavtables.MavAddress.{MavAddress}
use mavtables.Packet.{Packet}
use mavtables.If
use mavtables.If.{If}
use mavtables.Action.{Action, Choice, make_continue}
use mavtables.Rule
use mavtables.Rule.{Rule, Run, when_checked, when_matches, map_action}
use mavtables.Chain.{
  Heap, contains_thread, enter, first_decision, stop_unless_continue, rules_action, action,
}
use mavtables.Chain.Heap.{leave-enter}

-- The three ways that a condition goes.
pub when_matches-cases {ℓ} :
    {S : Type 0} (P : Result Action × S → Type ℓ) (c : Option If) (packet : Packet)
    (address : MavAddress) (body : Run S) (h : S)
    → P (body h)
    → P (ok make_continue, h)
    → ((f : If) (e : Exception) → If.check f packet address ≡ err e → P (err e, h))
    → P (when_matches c packet address body h)
unfolding when_matches
when_matches-cases P none packet address body h holds skips throws = holds
when_matches-cases P (some f) packet address body h holds skips throws =
    elim (Result-cases (If.check f packet address)) [
      | inl (true, e) ↦ rw e holds
      | inl (false, e) ↦ rw e skips
      | inr (x, e) ↦ rw e (throws f x e)
    ]

pub stop_unless_continue-cases {ℓ} :
    (P : Result Action × Heap → Type ℓ) (c : Choice) (a : Action) (h : Heap) (rest : Run Heap)
    → (c ≡ Choice.continue → P (rest h))
    → (c ≢ Choice.continue → P (ok a, h))
    → P (stop_unless_continue c a h rest)
stop_unless_continue-cases P Choice.continue a h rest goes stops = goes refl
stop_unless_continue-cases P Choice.accept a h rest goes stops = stops (λ e. cc)
stop_unless_continue-cases P Choice.reject a h rest goes stops = stops (λ e. cc)
stop_unless_continue-cases P Choice.default a h rest goes stops = stops (λ e. cc)

-- The three ways that a round of the loop goes.
pub first_decision-cases {ℓ} :
    (P : Result Action × Heap → Type ℓ) (r : Result Action × Heap) (rest : Run Heap)
    → ((e : Exception) → r.0 ≡ err e → P (err e, r.1))
    → ((a : Action) → r.0 ≡ ok a → a.choice ≡ Choice.continue → P (rest r.1))
    → ((a : Action) → r.0 ≡ ok a → a.choice ≢ Choice.continue → P (ok a, r.1))
    → P (first_decision r rest)
unfolding first_decision
first_decision-cases P (err e, h) rest throws goes stops = throws e refl
first_decision-cases P (ok a, h) rest throws goes stops =
    stop_unless_continue-cases P a.choice a h rest (goes a refl) (stops a refl)

pub map_action-restored :
    {S : Type 0} (f : Action → Action) (r : Result Action × S) → (map_action f r).1 ≡ r.1
map_action-restored f (ok a, h) = refl
map_action-restored f (err e, h) = refl

module _ (packet : Packet) (address : MavAddress) where
  pub rule-restored :
      {S : Type 0} (run : ℕ → Run S) (rule : Rule) (h : S)
      → ((c : ℕ) → (run c h).1 ≡ h)
      → (Rule.action run packet address rule h).1 ≡ h
  unfolding Rule.action
  rule-restored run (Rule.accept p c) h same =
      when_matches-cases (λ r. r.1 ≡ h) c packet address _ h refl refl (λ f e q. refl)
  rule-restored run (Rule.reject c) h same =
      when_matches-cases (λ r. r.1 ≡ h) c packet address _ h refl refl (λ f e q. refl)
  rule-restored run (Rule.call chain p c) h same =
      when_matches-cases (λ r. r.1 ≡ h) c packet address _ h
        (map_action-restored _ (run chain h) ∙ same chain) refl (λ f e q. refl)
  rule-restored run (Rule.goto chain p c) h same =
      when_matches-cases (λ r. r.1 ≡ h) c packet address _ h
        (map_action-restored _ (run chain h) ∙ same chain) refl (λ f e q. refl)

  module _ (t : ℕ) where
    pub rules_action-restored :
        (run : ℕ → Run Heap) (rules : List Rule) (h : Heap)
        → ((c : ℕ) (h' : Heap) → (run c h').1 ≡ h')
        → (rules_action t packet address run rules h).1 ≡ h
    unfolding rules_action
    rules_action-restored run [] h same = refl
    rules_action-restored run (rule ∷ rules) h same =
        let first = rule-restored run rule h (λ c. same c h) in
        first_decision-cases (λ r. r.1 ≡ h) (Rule.action run packet address rule h)
          (rules_action t packet address run rules) (λ e q. first)
          (λ a q c. rules_action-restored run rules _ same ∙ first) (λ a q c. first)

    -- Whatever a chain decides, and if it throws, every chain has the recursion data afterwards
    -- that it had before.
    pub action-restored : (fuel c : ℕ) (h : Heap) → (action t packet address fuel c h).1 ≡ h
    unfolding action
    action-restored zero c h = refl
    action-restored (suc fuel) c h = elim (Option-cases (get_elem? h c)) [
      | inl dangling ↦ rw (dangling, action)
      | inr (chain, at) ↦ elim (Bool-cases (contains_thread t chain.calling_threads)) [
        | inl inside ↦ rw (at, action, inside)
        | inr outside ↦
            rw
              (
                at,
                action,
                outside,
                rules_action-restored (action t packet address fuel) chain.rules (enter t h c chain)
                    (action-restored fuel),
              )
              (leave-enter t h c chain at outside)
      ]
    ]
