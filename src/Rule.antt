-- ===== src/Rule.antt =====
-- src/Rule.hpp, src/Rule.cpp and its subclasses: src/Accept.cpp, src/Reject.cpp, src/Call.cpp and
-- src/GoTo.cpp. A constructor stands for each subclass. A chain is named by its address on the
-- heap of src/Chain.cpp's objects, and the body of a rule that runs a chain is given the run.
use mavtables.Prelude.{
  ℕ, ◌==◌, Bool, true, false, not, ◌&&◌, ◌||◌, Option, none, some, ◌++◌, Bytes, codes, option_eq,
}
use mavtables.Prelude.Int.{ℤ, eq_ℤ}
use mavtables.Prelude.Exception.{Result, ok, err, invalid_argument, ◌>>=◌}
use mavtables.Text.{print_int}
use mavtables.Mavlink.{Library}
use mavtables.MavAddress.{MavAddress}
use mavtables.Packet.{Packet}
use mavtables.If
use mavtables.If.{If}
use mavtables.Action.{
  Action, Choice, make_accept, make_reject, make_continue, make_default, set_priority,
}

pub data Rule : Type 0 where
  accept : Option ℤ → Option If → Rule
  reject : Option If → Rule
  call : ℕ → Option ℤ → Option If → Rule
  goto : ℕ → Option ℤ → Option If → Rule

-- The constructors of `Call` and `GoTo` refuse a null pointer.
unfoldable pub make_call : Option ℕ → Option ℤ → Option If → Result Rule
make_call none priority condition = err invalid_argument
make_call (some chain) priority condition = ok (call chain priority condition)

unfoldable pub make_goto : Option ℕ → Option ℤ → Option If → Result Rule
make_goto none priority condition = err invalid_argument
make_goto (some chain) priority condition = ok (goto chain priority condition)

-- The constructors keep what they are given, so a clone is built from the same parts.
abbrev pub accept_clone : Option ℤ → Option If → Rule
accept_clone (some p) c = accept (some p) c
accept_clone none c = accept none c

abbrev pub reject_clone : Option If → Rule
reject_clone c = reject c

abbrev pub call_clone : ℕ → Option ℤ → Option If → Rule
call_clone chain (some p) c = call chain (some p) c
call_clone chain none c = call chain none c

abbrev pub goto_clone : ℕ → Option ℤ → Option If → Rule
goto_clone chain (some p) c = goto chain (some p) c
goto_clone chain none c = goto chain none c

unfoldable pub clone : Rule → Rule
clone (accept p c) = accept_clone p c
clone (reject c) = reject_clone c
clone (call chain p c) = call_clone chain p c
clone (goto chain p c) = goto_clone chain p c

-- `condition_ == other.condition_` and `priority_ == other.priority_`
abbrev same_condition : Option If → Option If → Bool
same_condition = option_eq If.eq

abbrev same_priority : Option ℤ → Option ℤ → Bool
same_priority = option_eq eq_ℤ

-- The types of the two objects are compared first.
abbrev pub accept_eq : Option ℤ → Option If → Rule → Bool
accept_eq p c (accept q d) = same_priority p q && same_condition c d
accept_eq p c _ = false

abbrev pub accept_ne : Option ℤ → Option If → Rule → Bool
accept_ne p c (accept q d) = not (same_priority p q) || not (same_condition c d)
accept_ne p c _ = true

abbrev pub reject_eq : Option If → Rule → Bool
reject_eq c (reject d) = same_condition c d
reject_eq c _ = false

abbrev pub reject_ne : Option If → Rule → Bool
reject_ne c (reject d) = not (same_condition c d)
reject_ne c _ = true

abbrev pub call_eq : ℕ → Option ℤ → Option If → Rule → Bool
call_eq x p c (call y q d) = x == y && same_priority p q && same_condition c d
call_eq x p c _ = false

abbrev pub call_ne : ℕ → Option ℤ → Option If → Rule → Bool
call_ne x p c (call y q d) = not (x == y) || not (same_priority p q) || not (same_condition c d)
call_ne x p c _ = true

abbrev pub goto_eq : ℕ → Option ℤ → Option If → Rule → Bool
goto_eq x p c (goto y q d) = x == y && same_priority p q && same_condition c d
goto_eq x p c _ = false

abbrev pub goto_ne : ℕ → Option ℤ → Option If → Rule → Bool
goto_ne x p c (goto y q d) = not (x == y) || not (same_priority p q) || not (same_condition c d)
goto_ne x p c _ = true

-- `operator==` and `operator!=` of the left rule's class.
unfoldable pub eq : Rule → Rule → Bool
eq (accept p c) other = accept_eq p c other
eq (reject c) other = reject_eq c other
eq (call x p c) other = call_eq x p c other
eq (goto x p c) other = goto_eq x p c other

unfoldable pub ne : Rule → Rule → Bool
ne (accept p c) other = accept_ne p c other
ne (reject c) other = reject_ne c other
ne (call x p c) other = call_ne x p c other
ne (goto x p c) other = goto_ne x p c other

unfoldable pub prioritise : Option ℤ → Action → Action
prioritise none a = a
prioritise (some p) a = set_priority a p

abbrev pub default_for : Choice → Action → Action
default_for Choice.continue a = make_default
default_for Choice.accept a = a
default_for Choice.reject a = a
default_for Choice.default a = a

-- "Rewrite continue actions into default actions."
unfoldable pub continue_to_default : Action → Action
continue_to_default a = default_for a.choice a

-- What an evaluation of a chain leaves: a result or an exception, and the heap.
abbrev pub Run : Type 0 → Type 0
Run S = S → Result Action × S

module _ {S : Type 0} where
  -- `if (!condition_ || condition_->check(packet, address))`, and `make_continue` otherwise.
  unfoldable pub when_checked : Result Bool → Run S → Run S
  when_checked (ok true) body h = body h
  when_checked (ok false) body h = (ok make_continue, h)
  when_checked (err e) body h = (err e, h)

  unfoldable pub when_matches : Option If → Packet → MavAddress → Run S → Run S
  unfolding when_checked
  when_matches none packet address body h = body h
  when_matches (some condition) packet address body h =
      when_checked (If.check condition packet address) body h

  abbrev pub map_action : (Action → Action) → Result Action × S → Result Action × S
  map_action f (ok a, h) = (ok (f a), h)
  map_action f (err e, h) = (err e, h)

  -- `action` of the four classes. `run` is `Chain::action`.
  abbrev pub accept_action : Option ℤ → Option If → Packet → MavAddress → Run S
  accept_action p c packet address = when_matches c packet address (λ h. (ok (make_accept p), h))

  abbrev pub reject_action : Option If → Packet → MavAddress → Run S
  reject_action c packet address = when_matches c packet address (λ h. (ok make_reject, h))

  abbrev pub call_action : (ℕ → Run S) → ℕ → Option ℤ → Option If → Packet → MavAddress → Run S
  call_action run chain p c packet address =
      when_matches c packet address (λ h. map_action (prioritise p) (run chain h))

  abbrev pub goto_action : (ℕ → Run S) → ℕ → Option ℤ → Option If → Packet → MavAddress → Run S
  goto_action run chain p c packet address =
      when_matches c packet address
        (λ h. map_action (λ a. continue_to_default (prioritise p a)) (run chain h))

  unfoldable pub action : (ℕ → Run S) → Packet → MavAddress → Rule → Run S
  unfolding when_matches prioritise continue_to_default
  action run packet address (accept p c) = accept_action p c packet address
  action run packet address (reject c) = reject_action c packet address
  action run packet address (call chain p c) = call_action run chain p c packet address
  action run packet address (goto chain p c) = goto_action run chain p c packet address

unfoldable pub print_priority : Option ℤ → Bytes
print_priority none = codes ""
print_priority (some p) = codes " with priority " ++ print_int p

unfoldable pub print_condition : Library → Option If → Result Bytes
print_condition lib none = ok (codes "")
print_condition lib (some c) = do text ← If.print lib c; ok (codes " " ++ text)

-- `chain_name` gives the name of the chain at an address.
module _ (lib : Library) (chain_name : ℕ → Bytes) where
  abbrev pub accept_print : Option ℤ → Option If → Result Bytes
  accept_print p c = do
    text ← print_condition lib c
    ok (codes "accept" ++ (print_priority p ++ text))

  abbrev pub reject_print : Option If → Result Bytes
  reject_print c = do text ← print_condition lib c; ok (codes "reject" ++ text)

  abbrev pub call_print : ℕ → Option ℤ → Option If → Result Bytes
  call_print chain p c = do
    text ← print_condition lib c
    ok (codes "call " ++ (chain_name chain ++ (print_priority p ++ text)))

  abbrev pub goto_print : ℕ → Option ℤ → Option If → Result Bytes
  goto_print chain p c = do
    text ← print_condition lib c
    ok (codes "goto " ++ (chain_name chain ++ (print_priority p ++ text)))

  unfoldable pub print : Rule → Result Bytes
  unfolding print_priority print_condition
  print (accept p c) = accept_print p c
  print (reject c) = reject_print c
  print (call chain p c) = call_print chain p c
  print (goto chain p c) = goto_print chain p c
