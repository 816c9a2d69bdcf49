-- ===== src/Chain/Agrees.antt =====
-- The evaluation with a heap and a recursion guard implements the evaluation without them.
use mavtables.Prelude.{
  ℕ, zero, suc, ◌<◌, ◌≡◌, refl, sym, ap, ◌∙◌, true, false, Option, none, some, List, arith,
  Bool-cases, Option-cases, inl, inr, get_elem?, length,
}
use mavtables.Prelude.Exception.{Result}
use mavtables.MavAddress.{MavAddress}
use mavtables.Packet.{Packet}
use mavtables.Action.{Action}
use mavtables.Rule.{Rule}
use mavtables.Chain.{Chain, Heap, contains_thread, enter, leave, rules_action, action}
use mavtables.Chain.Heap.{leave-enter, free, free-enter, free-le-length}
use mavtables.Chain.Ideal.{Outcome, Extends, chain_outcome, chain_outcome-Extends}
use mavtables.Chain.Gives.{
  Gives, rules_at, rules_at-some, rules_at-none, rules_at-enter, is_held, is_held-enter,
  is_held-contains, rules_action-Gives,
}

none-Extends : (o o' : Outcome) → Extends o o' → o' ≡ none → o ≡ none
none-Extends none o' e h = refl
none-Extends (some r) o' e h = absurd (ground (arith, e r refl))

leave-Gives :
    (t : ℕ) (h : Heap) (c : ℕ) (chain : Chain) (q : Result Action × Heap) (o : Outcome)
    → get_elem? h c ≡ some chain
    → contains_thread t chain.calling_threads ≡ false
    → Gives (enter t h c chain) q o
    → Gives h (q.0, leave t q.1 c) o
leave-Gives t h c chain q o at absent e r k =
    ap (λ q'. (q'.0, leave t q'.1 c)) (e r k)
    ∙ ap (λ h'. (r, h')) (leave-enter t h c chain at absent)

shallower-Gives :
    (h : Heap) (q : Result Action × Heap) (o o' : Outcome) {r : Result Action}
    → o ≡ some r
    → Extends o o'
    → Gives h q o
    → Gives h q o'
shallower-Gives h q o o' {r} at e g = λ r' k. ground (arith, e r at, g r at)

module _ (packet : Packet) (address : MavAddress) (t : ℕ) where
  shallower :
      (look : ℕ → Option (List Rule)) (n : ℕ) (h : Heap)
      → ((d : ℕ) → is_held t h d ≡ true → chain_outcome packet address look (suc n) d ≡ none)
      → (d : ℕ) → is_held t h d ≡ true
      → chain_outcome packet address look n d ≡ none
  shallower look n h held d k =
      none-Extends (chain_outcome packet address look n d)
        (chain_outcome packet address look (suc n) d)
        (chain_outcome-Extends packet address look n d) (held d k)

  action-Gives :
      (look : ℕ → Option (List Rule)) (n fuel c : ℕ) (h : Heap)
      → ((d : ℕ) → rules_at h d ≡ look d)
      → free t h < fuel
      → ((d : ℕ) → is_held t h d ≡ true → chain_outcome packet address look n d ≡ none)
      → Gives h (action t packet address fuel c h) (chain_outcome packet address look n c)
  unfolding action chain_outcome
  action-Gives look zero fuel c h same enough held = λ r x. absurd (cc)
  action-Gives look (suc n) zero c h same enough held = absurd (omega arith)
  action-Gives look (suc n) (suc fuel) c h same enough held = elim (Option-cases (get_elem? h c)) [
    | inl dangling ↦
        rw (dangling, action, sym (same c) ∙ rules_at-none h c dangling, chain_outcome)
          (λ r x. ground arith)
    | inr (chain, at) ↦ elim (Bool-cases (contains_thread t chain.calling_threads)) [
      | inl inside ↦
          λ r x. absurd (ground (arith, held c (sym (is_held-contains t h c chain at) ∙ inside)))
      | inr outside ↦ elim (Option-cases (chain_outcome packet address look n c)) [
        | inr (r, there) ↦
            shallower-Gives h _ (chain_outcome packet address look n c)
              (chain_outcome packet address look (suc n) c) there
              (chain_outcome-Extends packet address look n c)
              (action-Gives look n (suc fuel) c h same enough (shallower look n h held))
        | inl nothing ↦
            rw (at, action, outside, sym (same c) ∙ rules_at-some h c chain at, chain_outcome)
              (leave-Gives t h c chain
                (rules_action t packet address (action t packet address fuel) chain.rules
                  (enter t h c chain))
                _ at outside
                (rules_action-Gives packet address t (action t packet address fuel)
                  (chain_outcome packet address look n) chain.rules (enter t h c chain)
                  (λ d.
                    action-Gives look n fuel d (enter t h c chain)
                      (λ x. rules_at-enter t h c chain x at ∙ same x)
                      (omega (arith, free-enter t h c chain at outside))
                      (λ x k. elim (is_held-enter t h c chain x at k) [
                        | inl e ↦ ap (chain_outcome packet address look n) e ∙ nothing
                        | inr k ↦ shallower look n h held x k
                      ]))))
      ]
    ]
  ]

  -- Where the rules, read with no recursion guard, come to an outcome at some depth, a thread that
  -- is in no chain gets that outcome, an action or an exception, and leaves the heap as it was.
  pub action-chain_outcome :
      (depth c : ℕ) (h : Heap) (r : Result Action)
      → ((d : ℕ) → is_held t h d ≡ false)
      → chain_outcome packet address (rules_at h) depth c ≡ some r
      → action t packet address (suc (length h)) c h ≡ (r, h)
  action-chain_outcome depth c h r outside there =
      action-Gives (rules_at h) depth (suc (length h)) c h (λ d. refl)
        (omega (arith, free-le-length t h)) (λ d k. absurd (ground (arith, outside d))) r there
