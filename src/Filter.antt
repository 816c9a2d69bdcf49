-- ===== src/Filter.antt =====
-- src/Filter.hpp and src/Filter.cpp: the firewall's verdict on a packet and an address.
pub mod Verdict
use mavtables.Prelude.{
  ℕ, suc, Bool, true, false, not, ◌&&◌, ◌||◌, Option, none, some, length, get_elem?,
}
use mavtables.Prelude.Int.{ℤ, pos}
use mavtables.Prelude.Exception.{Result, ok, err}
use mavtables.MavAddress.{MavAddress}
use mavtables.Packet.{Packet}
use mavtables.Action.{Action, Choice, priority}
use mavtables.Chain
use mavtables.Chain.{Chain, Heap}

-- `default_chain` is the address of the member `default_chain_`.
pub record Filter : Type 0 where
  pub default_chain : ℕ
  pub accept_by_default : Bool

unfoldable pub make : ℕ → Bool → Filter
make default_chain accept_by_default = record {
  default_chain = default_chain;
  accept_by_default = accept_by_default;
}

-- `switch (result.action())`, and the return behind it.
unfoldable pub verdict : Bool → Choice → Action → Bool × ℤ
verdict accept_by_default Choice.accept a = (true, priority a)
verdict accept_by_default Choice.reject a = (false, pos 0)
verdict accept_by_default Choice.continue a = (accept_by_default, pos 0)
verdict accept_by_default Choice.default a = (accept_by_default, pos 0)

abbrev pub map_result {ℓ} :
    {S : Type ℓ} (A : Type 0) → (Action → A) → Result Action × S → Result A × S
map_result A f (ok a, h) = (ok (f a), h)
map_result A f (err e, h) = (err e, h)

-- `t` is the calling thread; the fuel is above the number of chains.
unfoldable pub will_accept : ℕ → Filter → Packet → MavAddress → Heap → Result (Bool × ℤ) × Heap
unfolding verdict
will_accept t f packet address h =
    map_result (Bool × ℤ) (λ a. verdict f.accept_by_default a.choice a)
      (Chain.action t packet address (suc (length h)) f.default_chain h)

abbrev same_flag : Bool → Bool → Bool
same_flag true b = b
same_flag false b = not b

-- The chains are compared, not their addresses.
abbrev same_chain : Option Chain → Option Chain → Bool
same_chain (some x) (some y) = Chain.eq x y
same_chain _ _ = false

unfoldable pub eq : Heap → Filter → Filter → Bool
eq h lhs rhs =
    same_chain (get_elem? h lhs.default_chain) (get_elem? h rhs.default_chain)
    && same_flag lhs.accept_by_default rhs.accept_by_default

abbrev other_chain : Option Chain → Option Chain → Bool
other_chain (some x) (some y) = Chain.ne x y
other_chain _ _ = true

unfoldable pub ne : Heap → Filter → Filter → Bool
ne h lhs rhs =
    other_chain (get_elem? h lhs.default_chain) (get_elem? h rhs.default_chain)
    || not (same_flag lhs.accept_by_default rhs.accept_by_default)
