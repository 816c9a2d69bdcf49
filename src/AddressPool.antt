-- ===== src/AddressPool.antt =====
-- src/AddressPool.hpp: the addresses that a connection reaches, each with the time at which it was
-- seen last. The clock is steady, so times are numbers; every operation is given the time it reads.
pub mod Members
use mavtables.Prelude.{
  ℕ, suc, ◌+◌, Bool, true, false, not, ◌&&◌, Option, none, some, List, [], ◌∷◌, ltb, ◌==◌,
  if◌then◌else◌,
}
use mavtables.MavAddress
use mavtables.MavAddress.{MavAddress, lt}

abbrev pub Entry : Type 0
Entry = MavAddress × ℕ

-- `addresses_`, a map, in the order of its keys.
pub record AddressPool : Type 0 where
  pub entries : List Entry
  pub timeout : ℕ

unfoldable pub make : ℕ → AddressPool
make timeout = record { entries = []; timeout = timeout }

-- `insert_or_assign`
unfoldable pub insert : MavAddress → ℕ → List Entry → List Entry
insert address time [] = (address, time) ∷ []
insert address time ((a, t) ∷ entries) =
    let rest = insert address time entries in
    if lt address a
    then (address, time) ∷ (a, t) ∷ entries
    else if lt a address
    then (a, t) ∷ rest
    else (address, time) ∷ entries

unfoldable pub add : ℕ → MavAddress → AddressPool → AddressPool
unfolding insert
add now address pool = record pool { entries = insert address now pool.entries }

-- `(current_time - it->second) > timeout_`
unfoldable pub expired : ℕ → ℕ → ℕ → Bool
expired timeout now time = ltb (time + timeout) now

-- The loop of `addresses`: the entries that are not erased.
unfoldable pub erase_expired : ℕ → ℕ → List Entry → List Entry
unfolding expired
erase_expired timeout now [] = []
erase_expired timeout now ((a, t) ∷ entries) =
    let rest = erase_expired timeout now entries in
    if expired timeout now t then rest else (a, t) ∷ rest

unfoldable pub keys : List Entry → List MavAddress
keys [] = []
keys ((a, t) ∷ entries) = a ∷ keys entries

unfoldable pub addresses : ℕ → AddressPool → List MavAddress × AddressPool
unfolding erase_expired keys
addresses now pool =
    let kept = erase_expired pool.timeout now pool.entries in
    (keys kept, record pool { entries = kept })

-- `find` and `erase` of the map.
unfoldable pub find : MavAddress → List Entry → Option ℕ
find address [] = none
find address ((a, t) ∷ entries) =
    let rest = find address entries in if MavAddress.eq a address then some t else rest

unfoldable pub erase : MavAddress → List Entry → List Entry
erase address [] = []
erase address ((a, t) ∷ entries) =
    let rest = erase address entries in if MavAddress.eq a address then entries else (a, t) ∷ rest

unfoldable pub contains : ℕ → MavAddress → AddressPool → Bool × AddressPool
unfolding find erase expired
contains now address pool = elim (find address pool.entries) [
  | none ↦ (false, pool)
  | some time ↦
      if expired pool.timeout now time
      then (false, record pool { entries = erase address pool.entries })
      else (true, pool)
]
