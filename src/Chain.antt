-- ===== src/Chain.antt =====
-- src/Chain.hpp and src/Chain.cpp, with src/RecursionGuard.cpp and src/RecursionData.hpp. Chains
-- are objects on a heap, and rules point to them. Evaluating a chain changes the heap: the chain's
-- recursion data hold the identity of the evaluating thread for as long as the guard lives.
pub mod Heap
pub mod Restored
pub mod Terminates
pub mod Ideal
pub mod Gives
pub mod Agrees
pub mod Found
use mavtables.Prelude.{
  ℕ, zero, suc, ◌==◌, Bool, true, false, not, ◌&&◌, ◌||◌, Option, none, some, List, [], ◌∷◌, ◌++◌,
  map, Bytes, codes, list_eq, get_elem?, set, length, if◌then◌else◌,
}
use mavtables.Prelude.Exception.{
  Result, ok, err, invalid_argument, recursion_error, undefined_behaviour, fuel_exhausted, ◌>>=◌,
}
use mavtables.Mavlink.{Library}
use mavtables.MavAddress.{MavAddress}
use mavtables.Packet.{Packet}
use mavtables.Action.{Action, Choice, make_continue}
use mavtables.Rule
use mavtables.Rule.{Rule, Run}

pub record Chain : Type 0 where
  pub name : Bytes
  pub rules : List Rule
  -- `RecursionData::calling_threads_`, a set.
  pub calling_threads : List ℕ

abbrev pub Heap : Type 0
Heap = List Chain

-- "\t\n "
unfoldable pub has_blank : Bytes → Bool
has_blank [] = false
has_blank (c ∷ s) = (c == 9 || (c == 10 || c == 32)) || has_blank s

unfoldable pub make : Bytes → List Rule → Result Chain
unfolding has_blank
make name rules =
    if has_blank name
    then err invalid_argument
    else ok (record { name = name; rules = rules; calling_threads = [] })

-- The copy constructor, with the rules cloned and recursion data of its own.
unfoldable pub copy : Chain → Chain
copy other = record { name = other.name; rules = map Rule.clone other.rules; calling_threads = [] }

-- `operator=`: the assignment of the recursion data clears them.
unfoldable pub assign : Chain → Chain → Chain
assign chain other = record chain {
  name = other.name;
  rules = map Rule.clone other.rules;
  calling_threads = [];
}

unfoldable pub append : Chain → Rule → Chain
append chain rule = record chain { rules = chain.rules ++ rule ∷ [] }

unfoldable pub eq : Chain → Chain → Bool
eq lhs rhs = list_eq ◌==◌ lhs.name rhs.name && list_eq Rule.eq lhs.rules rhs.rules

unfoldable pub ne : Chain → Chain → Bool
unfolding eq
ne lhs rhs = not (eq lhs rhs)

unfoldable pub contains_thread : ℕ → List ℕ → Bool
contains_thread t [] = false
contains_thread t (u ∷ us) = u == t || contains_thread t us

unfoldable pub erase_thread : ℕ → List ℕ → List ℕ
erase_thread t [] = []
erase_thread t (u ∷ us) = if u == t then erase_thread t us else u ∷ erase_thread t us

-- The constructor of the guard, past its test, and the destructor.
unfoldable pub enter : ℕ → Heap → ℕ → Chain → Heap
enter t h c chain = set h c (record chain { calling_threads = t ∷ chain.calling_threads })

unfoldable pub leave : ℕ → Heap → ℕ → Heap
unfolding erase_thread
leave t h c = elim (get_elem? h c) [
  | some chain ↦ set h c (record chain { calling_threads = erase_thread t chain.calling_threads })
  | none ↦ h
]

-- "Return rule result if not CONTINUE."
abbrev pub stop_unless_continue : Choice → Action → Heap → Run Heap → Result Action × Heap
stop_unless_continue Choice.continue a h rest = rest h
stop_unless_continue Choice.accept a h rest = (ok a, h)
stop_unless_continue Choice.reject a h rest = (ok a, h)
stop_unless_continue Choice.default a h rest = (ok a, h)

unfoldable pub first_decision : Result Action × Heap → Run Heap → Result Action × Heap
first_decision (err e, h) rest = (err e, h)
first_decision (ok a, h) rest = stop_unless_continue a.choice a h rest

module _ (t : ℕ) (packet : Packet) (address : MavAddress) where
  -- The loop over the rules; `run` evaluates the chain of a `Call` or a `GoTo`.
  unfoldable pub rules_action : (ℕ → Run Heap) → List Rule → Run Heap
  unfolding first_decision
  rules_action run [] h = (ok make_continue, h)
  rules_action run (rule ∷ rules) h =
      first_decision (Rule.action run packet address rule h) (rules_action run rules)

  -- `Chain::action` of the chain at an address. The recursion guard bounds the depth of the calls,
  -- so that fuel above the number of chains is enough.
  unfoldable pub action : ℕ → ℕ → Run Heap
  unfolding rules_action enter leave contains_thread
  action zero c h = (err fuel_exhausted, h)
  action (suc fuel) c h = elim (get_elem? h c) [
    | none ↦ (err undefined_behaviour, h)
    | some chain ↦ elim (contains_thread t chain.calling_threads) [
      | true ↦ (err recursion_error, h)
      | false ↦
          let (result, h') = rules_action (action fuel) chain.rules (enter t h c chain) in
          (result, leave t h' c)
    ]
  ]

-- The lines between the braces of a printed chain.
module _ (lib : Library) (chain_name : ℕ → Bytes) where
  unfoldable pub print_rules : List Rule → Result Bytes
  print_rules [] = ok (codes "")
  print_rules (rule ∷ rules) = do
    first ← Rule.print lib chain_name rule
    rest ← print_rules rules
    ok (codes "    " ++ (first ++ (codes ";\n" ++ rest)))

  unfoldable pub print : Chain → Result Bytes
  unfolding print_rules
  print chain = do
    body ← print_rules chain.rules
    ok (codes "chain " ++ (chain.name ++ (codes " {\n" ++ (body ++ codes "}"))))
