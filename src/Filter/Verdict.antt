-- ===== src/Filter/Verdict.antt =====
-- The verdict that a filter reaches.
use mavtables.Prelude.{
  ℕ, suc, ◌≡◌, ◌≢◌, refl, ap, ◌∙◌, Bool, true, false, Option, some, arith, inl, inr, length, ◌⊎◌,
}
use mavtables.Prelude.Int.{ℤ, pos}
use mavtables.Prelude.Exception.{Result, ok, err, IsReal}
use mavtables.MavAddress.{MavAddress}
use mavtables.Packet.{Packet}
use mavtables.Action.{Action, Choice, value_or_zero}
use mavtables.Chain
use mavtables.Chain.{Heap}
use mavtables.Chain.Restored.{action-restored}
use mavtables.Chain.Terminates.{action-terminates}
use mavtables.Chain.Ideal.{chain_outcome}
use mavtables.Chain.Gives.{rules_at, is_held}
use mavtables.Chain.Agrees.{action-chain_outcome}
use mavtables.Filter.{Filter, verdict, map_result, will_accept}

map_result-IsReal :
    (f : Action → Bool × ℤ) (q : Result Action × Heap)
    → IsReal q.0
    → IsReal (map_result (Bool × ℤ) f q).0
map_result-IsReal f (ok a, h) real = λ e. cc
map_result-IsReal f (err x, h) real = λ e. absurd (real (ground arith))

map_result-heap :
    (f : Action → Bool × ℤ) (q : Result Action × Heap) → (map_result (Bool × ℤ) f q).1 ≡ q.1
map_result-heap f (ok a, h) = refl
map_result-heap f (err x, h) = refl

-- `will_accept` ends for every packet, address and set of chains, with a verdict or with an exception
-- of the code, and leaves the recursion data of every chain as they were.
pub will_accept-terminates :
    (t : ℕ) (f : Filter) (packet : Packet) (address : MavAddress) (h : Heap)
    → IsReal (will_accept t f packet address h).0 × ((will_accept t f packet address h).1 ≡ h)
unfolding will_accept
will_accept-terminates t f packet address h = (
  map_result-IsReal _ _ (action-terminates packet address t f.default_chain h),
  map_result-heap _ (Chain.action t packet address (suc (length h)) f.default_chain h)
      ∙ action-restored packet address t (suc (length h)) f.default_chain h,
)

-- The verdict on what the chain decides, said once more without the code's switch: an accepted
-- packet has its priority, or zero if no rule gave it one, and a packet that no rule decides has
-- the default verdict.
abbrev pub Verdict : Bool → Action → Bool × ℤ → Type 0
Verdict accept_by_default a v =
    ((a.choice ≡ Choice.accept) × (v ≡ (true, value_or_zero a.optional_priority)))
    ⊎ (((a.choice ≡ Choice.reject) × (v ≡ (false, pos 0)))
        ⊎ ((a.choice ≢ Choice.accept)
            × (a.choice ≢ Choice.reject)
            × (v ≡ (accept_by_default, pos 0))))

verdict-Verdict :
    (d : Bool) (c : Choice) (p : Option ℤ)
    → Verdict d
        (record { choice = c; optional_priority = p })
        (verdict d c (record { choice = c; optional_priority = p }))
unfolding verdict
verdict-Verdict d Choice.accept p = inl (refl, refl)
verdict-Verdict d Choice.reject p = inr (inl (refl, refl))
verdict-Verdict d Choice.continue p = inr (inr (λ e. cc, λ e. cc, refl))
verdict-Verdict d Choice.default p = inr (inr (λ e. cc, λ e. cc, refl))

-- For a thread that is in no chain, where the rules of the default chain, read with no recursion
-- guard, come to an action at some depth, `will_accept` returns a verdict: accepted with the action's
-- priority, rejected with priority zero, or else the default with priority zero. The heap is as before.
pub will_accept-Verdict :
    (t : ℕ) (f : Filter) (packet : Packet) (address : MavAddress) (h : Heap) (depth : ℕ)
    (a : Action)
    → ((d : ℕ) → is_held t h d ≡ false)
    → chain_outcome packet address (rules_at h) depth f.default_chain ≡ some (ok a)
    → ((v : Bool × ℤ) × (will_accept t f packet address h ≡ (ok v, h))
        × Verdict f.accept_by_default a v)
unfolding will_accept
will_accept-Verdict t f packet address h depth a outside there = (
  verdict f.accept_by_default a.choice a,
  ap (map_result (Bool × ℤ) (λ b. verdict f.accept_by_default b.choice b))
      (action-chain_outcome packet address t depth f.default_chain h (ok a) outside there),
  verdict-Verdict f.accept_by_default a.choice a.optional_priority,
)
