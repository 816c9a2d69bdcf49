-- ===== src/Semaphore.antt =====
-- src/semaphore.hpp and src/semaphore.cpp: a counting semaphore. Each operation runs under its mutex,
-- so it is one step on the value; `none` stands for a thread that still waits.
use mavtables.Prelude.{
  ℕ, ◌+◌, ◌-◌, ◌%◌, ◌^◌, Bool, true, false, Option, none, some, ltb, if◌then◌else◌,
}

pub record Semaphore : Type 0 where
  pub value : ℕ

unfoldable pub make : ℕ → Semaphore
make initial_value = record { value = initial_value }

-- `++value_` of a `size_t`
unfoldable pub notify : Semaphore → Semaphore
notify s = record { value = (s.value + 1) % 2 ^ 64 }

unfoldable pub wait : Semaphore → Option Semaphore
wait s = if ltb 0 s.value then some (record { value = s.value - 1 }) else none

-- The two waits that give up, with whether the time is over yet.
unfoldable pub wait_for : Bool → Semaphore → Option (Bool × Semaphore)
wait_for expired s =
    if ltb 0 s.value
    then some (true, record { value = s.value - 1 })
    else if expired
    then some (false, s)
    else none

unfoldable pub wait_until : Bool → Semaphore → Option (Bool × Semaphore)
wait_until expired s =
    if ltb 0 s.value
    then some (true, record { value = s.value - 1 })
    else if expired
    then some (false, s)
    else none
