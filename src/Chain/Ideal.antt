-- ===== src/Chain/Ideal.antt =====
-- What the rules of chains mean, written down with no heap, no threads and no recursion guard: an
-- evaluation to a given depth, `none` where the depth is not enough. It specifies `Chain.action`.
use mavtables.Prelude.{
  ℕ, zero, suc, ◌≡◌, refl, Bool, true, false, Option, none, some, List, [], ◌∷◌, Option-cases, inl,
  inr,
}
use mavtables.Prelude.Int.{ℤ}
use mavtables.Prelude.Exception.{Result, ok, err, undefined_behaviour}
use mavtables.MavAddress.{MavAddress}
use mavtables.Packet.{Packet}
use mavtables.If
use mavtables.If.{If}
use mavtables.Action.{Action, Choice, make_accept, make_reject, make_continue, make_default}
use mavtables.Rule.{Rule}

abbrev pub Outcome : Type 0
Outcome = Option (Result Action)

-- The first priority that is set along a path of calls, from the innermost rule outwards, counts;
-- only an accepted packet has one.
abbrev pub accepted_with : Option ℤ → Option ℤ → Action
accepted_with p none = make_accept p
accepted_with p (some q) = make_accept (some q)

abbrev pub priority_for : Choice → Option ℤ → Action → Action
priority_for Choice.accept p a = accepted_with p a.optional_priority
priority_for Choice.reject p a = a
priority_for Choice.continue p a = a
priority_for Choice.default p a = a

abbrev pub with_priority : Option ℤ → Action → Action
with_priority p a = priority_for a.choice p a

abbrev pub instead_of_continue : Choice → Action → Action
instead_of_continue Choice.continue a = make_default
instead_of_continue Choice.accept a = a
instead_of_continue Choice.reject a = a
instead_of_continue Choice.default a = a

abbrev pub never_continue : Action → Action
never_continue a = instead_of_continue a.choice a

abbrev pub map_outcome : (Action → Action) → Outcome → Outcome
map_outcome f none = none
map_outcome f (some (ok a)) = some (ok (f a))
map_outcome f (some (err e)) = some (err e)

abbrev pub holds : Packet → MavAddress → Option If → Result Bool
holds packet address none = ok true
holds packet address (some f) = If.check f packet address

abbrev pub if_holds : Result Bool → Outcome → Outcome
if_holds (ok true) outcome = outcome
if_holds (ok false) outcome = some (ok make_continue)
if_holds (err e) outcome = some (err e)

abbrev pub unless_continue : Choice → Action → Outcome → Outcome
unless_continue Choice.continue a rest = rest
unless_continue Choice.accept a rest = some (ok a)
unless_continue Choice.reject a rest = some (ok a)
unless_continue Choice.default a rest = some (ok a)

abbrev pub after_rule : Outcome → Outcome → Outcome
after_rule none rest = none
after_rule (some (err e)) rest = some (err e)
after_rule (some (ok a)) rest = unless_continue a.choice a rest

-- The second outcome is the first, where there is a first.
abbrev pub Extends : Outcome → Outcome → Type 0
Extends o o' = (r : Result Action) → o ≡ some r → o' ≡ some r

map_outcome-Extends :
    (f : Action → Action) (o o' : Outcome)
    → Extends o o'
    → Extends (map_outcome f o) (map_outcome f o')
map_outcome-Extends f none o' e r h = cc
map_outcome-Extends f (some (ok a)) o' e r h = rw (e (ok a) refl) h
map_outcome-Extends f (some (err x)) o' e r h = rw (e (err x) refl) h

if_holds-Extends :
    (b : Result Bool) (o o' : Outcome) → Extends o o' → Extends (if_holds b o) (if_holds b o')
if_holds-Extends (ok true) o o' e = e
if_holds-Extends (ok false) o o' e = λ r h. h
if_holds-Extends (err x) o o' e = λ r h. h

unless_continue-Extends :
    (c : Choice) (a : Action) (o o' : Outcome)
    → Extends o o'
    → Extends (unless_continue c a o) (unless_continue c a o')
unless_continue-Extends Choice.continue a o o' e = e
unless_continue-Extends Choice.accept a o o' e = λ r h. h
unless_continue-Extends Choice.reject a o o' e = λ r h. h
unless_continue-Extends Choice.default a o o' e = λ r h. h

after_rule-Extends :
    (o o' rest rest' : Outcome)
    → Extends o o'
    → Extends rest rest'
    → Extends (after_rule o rest) (after_rule o' rest')
after_rule-Extends none o' rest rest' e f r h = cc
after_rule-Extends (some (err x)) o' rest rest' e f r h = rw (e (err x) refl) h
after_rule-Extends (some (ok a)) o' rest rest' e f r h =
    rw (e (ok a) refl) (unless_continue-Extends a.choice a rest rest' f r h)

-- `look` finds the rules of a chain.
module _ (packet : Packet) (address : MavAddress) where
  unfoldable pub rule_outcome : (ℕ → Outcome) → Rule → Outcome
  rule_outcome chain (Rule.accept p c) =
      if_holds (holds packet address c) (some (ok (make_accept p)))
  rule_outcome chain (Rule.reject c) = if_holds (holds packet address c) (some (ok make_reject))
  rule_outcome chain (Rule.call x p c) =
      if_holds (holds packet address c) (map_outcome (with_priority p) (chain x))
  rule_outcome chain (Rule.goto x p c) =
      if_holds (holds packet address c)
        (map_outcome (λ a. never_continue (with_priority p a)) (chain x))

  -- The first rule that does not continue decides.
  unfoldable pub rules_outcome : (ℕ → Outcome) → List Rule → Outcome
  rules_outcome chain [] = some (ok make_continue)
  rules_outcome chain (rule ∷ rules) =
      after_rule (rule_outcome chain rule) (rules_outcome chain rules)

  unfoldable pub chain_outcome : (ℕ → Option (List Rule)) → ℕ → ℕ → Outcome
  chain_outcome look zero c = none
  chain_outcome look (suc depth) c = elim (look c) [
    | none ↦ some (err undefined_behaviour)
    | some rules ↦ rules_outcome (chain_outcome look depth) rules
  ]

  rule_outcome-Extends :
      (f g : ℕ → Outcome) (rule : Rule)
      → ((c : ℕ) → Extends (f c) (g c))
      → Extends (rule_outcome f rule) (rule_outcome g rule)
  unfolding rule_outcome
  rule_outcome-Extends f g (Rule.accept p c) below = λ r h. h
  rule_outcome-Extends f g (Rule.reject c) below = λ r h. h
  rule_outcome-Extends f g (Rule.call x p c) below =
      if_holds-Extends (holds packet address c) _ _ (map_outcome-Extends _ (f x) (g x) (below x))
  rule_outcome-Extends f g (Rule.goto x p c) below =
      if_holds-Extends (holds packet address c) _ _ (map_outcome-Extends _ (f x) (g x) (below x))

  pub rules_outcome-Extends :
      (f g : ℕ → Outcome) (rules : List Rule)
      → ((c : ℕ) → Extends (f c) (g c))
      → Extends (rules_outcome f rules) (rules_outcome g rules)
  unfolding rules_outcome
  rules_outcome-Extends f g [] below = λ r h. h
  rules_outcome-Extends f g (rule ∷ rules) below =
      after_rule-Extends (rule_outcome f rule) (rule_outcome g rule) (rules_outcome f rules)
        (rules_outcome g rules) (rule_outcome-Extends f g rule below)
        (rules_outcome-Extends f g rules below)

  -- An outcome does not change with more depth.
  pub chain_outcome-Extends :
      (look : ℕ → Option (List Rule)) (depth c : ℕ)
      → Extends (chain_outcome look depth c) (chain_outcome look (suc depth) c)
  unfolding chain_outcome
  chain_outcome-Extends look zero c = λ r h. absurd (cc)
  chain_outcome-Extends look (suc depth) c = elim (Option-cases (look c)) [
    | inl absent ↦ rw (absent, chain_outcome) (λ r h. h)
    | inr (rules, at) ↦
        rw (at, chain_outcome)
          (rules_outcome-Extends (chain_outcome look depth) (chain_outcome look (suc depth)) rules
            (chain_outcome-Extends look depth))
  ]
