-- ===== src/Chain/Terminates.antt =====
-- The recursion guard bounds the evaluation: it ends, whatever loops the chains form.
use mavtables.Prelude.{
  ℕ, zero, suc, ◌<◌, ◌≡◌, List, [], ◌∷◌, arith, Bool-cases, Option-cases, inl, inr, length,
  get_elem?, subst, sym, ◌∙◌,
}
use mavtables.Prelude.Exception.{Result, ok, err, IsReal}
use mavtables.MavAddress.{MavAddress}
use mavtables.Packet.{Packet}
use mavtables.If.Check.{check-IsReal}
use mavtables.Action.{Action}
use mavtables.Rule
use mavtables.Rule.{Rule, Run, map_action}
use mavtables.Chain.{Heap, contains_thread, enter, rules_action, action}
use mavtables.Chain.Heap.{free, free-enter, free-le-length}
use mavtables.Chain.Restored.{
  when_matches-cases, first_decision-cases, rule-restored, action-restored,
}

map_action-IsReal :
    {S : Type 0} (f : Action → Action) (r : Result Action × S)
    → IsReal r.0
    → IsReal (map_action f r).0
map_action-IsReal f (ok a, h) real = λ e. cc
map_action-IsReal f (err e, h) real = real

module _ (packet : Packet) (address : MavAddress) where
  rule-IsReal :
      {S : Type 0} (run : ℕ → Run S) (rule : Rule) (h : S)
      → ((c : ℕ) → IsReal (run c h).0)
      → IsReal (Rule.action run packet address rule h).0
  unfolding Rule.action
  rule-IsReal run (Rule.accept p c) h real =
      when_matches-cases (λ r. IsReal r.0) c packet address _ h (λ e. cc) (λ e. cc)
        (λ f e q k. check-IsReal f packet address (cc))
  rule-IsReal run (Rule.reject c) h real =
      when_matches-cases (λ r. IsReal r.0) c packet address _ h (λ e. cc) (λ e. cc)
        (λ f e q k. check-IsReal f packet address (cc))
  rule-IsReal run (Rule.call chain p c) h real =
      when_matches-cases (λ r. IsReal r.0) c packet address _ h
        (map_action-IsReal _ (run chain h) (real chain)) (λ e. cc)
        (λ f e q k. check-IsReal f packet address (cc))
  rule-IsReal run (Rule.goto chain p c) h real =
      when_matches-cases (λ r. IsReal r.0) c packet address _ h
        (map_action-IsReal _ (run chain h) (real chain)) (λ e. cc)
        (λ f e q k. check-IsReal f packet address (cc))

  module _ (t : ℕ) where
    rules_action-IsReal :
        (run : ℕ → Run Heap) (rules : List Rule) (h : Heap)
        → ((c : ℕ) → (run c h).1 ≡ h)
        → ((c : ℕ) → IsReal (run c h).0)
        → IsReal (rules_action t packet address run rules h).0
    unfolding rules_action
    rules_action-IsReal run [] h same real = λ e. cc
    rules_action-IsReal run (rule ∷ rules) h same real =
        let first = rule-IsReal run rule h real in
        first_decision-cases (λ r. IsReal r.0) (Rule.action run packet address rule h)
          (rules_action t packet address run rules) (λ e q k. first (q ∙ k))
          (λ a q c.
            subst (λ h'. IsReal (rules_action t packet address run rules h').0)
              (sym (rule-restored packet address run rule h same))
              (rules_action-IsReal run rules h same real))
          (λ a q c k. cc)

    -- With more fuel than there are chains outside of the thread's evaluation, the fuel never runs
    -- out.
    pub action-IsReal :
        (fuel c : ℕ) (h : Heap) → free t h < fuel → IsReal (action t packet address fuel c h).0
    unfolding action
    action-IsReal zero c h enough = absurd (omega arith)
    action-IsReal (suc fuel) c h enough = elim (Option-cases (get_elem? h c)) [
      | inl dangling ↦ rw (dangling, action) (λ e. cc)
      | inr (chain, at) ↦ elim (Bool-cases (contains_thread t chain.calling_threads)) [
        | inl inside ↦ rw (at, action, inside) (λ e. cc)
        | inr outside ↦
            rw (at, action, outside)
              (rules_action-IsReal (action t packet address fuel) chain.rules (enter t h c chain)
                (λ d. action-restored packet address t fuel d (enter t h c chain))
                (λ d.
                  action-IsReal fuel d (enter t h c chain)
                    (omega (arith, free-enter t h c chain at outside))))
      ]
    ]

    -- The evaluation of a chain ends, with an action or an exception of the code, for any rules and
    -- whichever chains the thread is in: fuel above the number of chains is enough.
    pub action-terminates :
        (c : ℕ) (h : Heap) → IsReal (action t packet address (suc (length h)) c h).0
    action-terminates c h = action-IsReal (suc (length h)) c h (omega (arith, free-le-length t h))
