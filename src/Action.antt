-- ===== src/Action.antt =====
-- src/Action.hpp and src/Action.cpp: what a rule or a chain decides.
use mavtables.Prelude.{
  Bool, true, false, not, ◌&&◌, ◌||◌, Option, none, some, ◌++◌, Bytes, codes, if◌then◌else◌,
}
use mavtables.Prelude.Int.{ℤ, pos, eq_ℤ}
use mavtables.Text.{print_int}

-- `Action::Option`
pub data Choice : Type 0 where
  accept reject continue default : Choice

-- A priority that is not set is not the priority zero: a caller may still set it.
pub record Action : Type 0 where
  pub choice : Choice
  pub optional_priority : Option ℤ

abbrev pub make_accept : Option ℤ → Action
make_accept priority = record { choice = accept; optional_priority = priority }

abbrev pub make_reject : Action
make_reject = record { choice = reject; optional_priority = none }

abbrev pub make_continue : Action
make_continue = record { choice = continue; optional_priority = none }

abbrev pub make_default : Action
make_default = record { choice = default; optional_priority = none }

-- `action_ == Action::ACCEPT` and `!priority_`
abbrev pub priority_after : Choice → Option ℤ → ℤ → Option ℤ
priority_after accept none p = some p
priority_after accept (some q) p = some q
priority_after reject q p = q
priority_after continue q p = q
priority_after default q p = q

-- `void Action::priority(int)`
unfoldable pub set_priority : Action → ℤ → Action
set_priority a p = record a { optional_priority = priority_after a.choice a.optional_priority p }

abbrev pub value_or_zero : Option ℤ → ℤ
value_or_zero none = pos 0
value_or_zero (some p) = p

-- `int Action::priority() const`
abbrev pub priority : Action → ℤ
priority a = value_or_zero a.optional_priority

unfoldable pub choice_eq : Choice → Choice → Bool
choice_eq accept accept = true
choice_eq reject reject = true
choice_eq continue continue = true
choice_eq default default = true
choice_eq _ _ = false

unfoldable pub eq : Action → Action → Bool
unfolding choice_eq
eq lhs rhs = choice_eq lhs.choice rhs.choice && eq_ℤ (priority lhs) (priority rhs)

unfoldable pub ne : Action → Action → Bool
unfolding choice_eq
ne lhs rhs = not (choice_eq lhs.choice rhs.choice) || not (eq_ℤ (priority lhs) (priority rhs))

unfoldable pub print_choice : Choice → ℤ → Bytes
print_choice accept p =
    codes "accept" ++ (if eq_ℤ p (pos 0) then codes "" else codes " with priority " ++ print_int p)
print_choice reject p = codes "reject"
print_choice continue p = codes "continue"
print_choice default p = codes "default"

unfoldable pub print : Action → Bytes
unfolding print_choice
print a = print_choice a.choice (priority a)
