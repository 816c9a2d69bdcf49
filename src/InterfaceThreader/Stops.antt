-- ===== src/InterfaceThreader/Stops.antt =====
-- `InterfaceThreader::shutdown` ends.
use mavtables.Prelude.{
  ℕ, ◌+◌, ◌<◌, ◌≤◌, ◌≡◌, ◌≢◌, refl, sym, ap, subst, Bool, true, false, ◌⊎◌, inl, inr, arith,
}
use mavtables.InterfaceThreader.{
  Place, not_started, testing, calling, finished, died, Owner, stopped, active, joining_tx,
  joining_rx, Threader, Outcome, returned, partial_send_error, other_exception, loop_test, tx_after,
  rx_after, Step, starts, shuts_down, joins_tx, joins_rx, tx_tests, rx_tests, tx_calls, rx_calls,
  Reach,
}
use mavtables.InterfaceThreader.Places.{IsStarted, OwnerOf, IsValid, OwnerAt, Reach-IsValid}

abbrev pub IsJoining : Owner → Type 0
IsJoining o = (o ≡ joining_tx) ⊎ (o ≡ joining_rx)

abbrev pub place_left : Place → ℕ
place_left testing = 1
place_left calling = 2
place_left _ = 0

abbrev pub owner_left : Owner → ℕ
owner_left joining_tx = 2
owner_left joining_rx = 1
owner_left _ = 0

-- The steps that `shutdown` can still take.
abbrev pub left : Threader → ℕ
left s = place_left s.tx + place_left s.rx + owner_left s.owner

joining-off :
    (owner : Owner) (running : Bool) (tx rx : Place)
    → IsJoining owner
    → OwnerOf owner running tx rx
    → running ≡ false
joining-off stopped running tx rx h (off, tx_state, rx_state) = off
joining-off active running tx rx (inl e) valid = absurd (cc)
joining-off active running tx rx (inr e) valid = absurd (cc)
joining-off joining_tx running tx rx h (off, tx_state, rx_state) = off
joining-off joining_rx running tx rx h (off, tx_state, rx_state) = off

test_left : (running : Bool) → running ≡ false → place_left (loop_test running) ≡ 0
unfolding loop_test
test_left true e = absurd (cc)
test_left false e = refl

call_left : (o : Outcome) (running : Bool) → place_left (tx_after o running) ≤ 1
unfolding tx_after
call_left returned running = omega arith
call_left partial_send_error true = omega arith
call_left partial_send_error false = omega arith
call_left other_exception running = omega arith

rx_call_left : (o : Outcome) → place_left (rx_after o) ≤ 1
unfolding rx_after
rx_call_left returned = omega arith
rx_call_left partial_send_error = omega arith
rx_call_left other_exception = omega arith

not-joining : (o : Owner) → IsJoining o → (o ≡ stopped) ⊎ (o ≡ active) → ◌≡◌ {A = Bool} true false
not-joining o (inl j) (inl e) = absurd (cc)
not-joining o (inl j) (inr e) = absurd (cc)
not-joining o (inr j) (inl e) = absurd (cc)
not-joining o (inr j) (inr e) = absurd (cc)

Step-left : (s t : Threader) → Step s t → IsValid s → IsJoining s.owner → left t < left s
Step-left s t (starts o e) valid j = absurd (let x = not-joining s.owner j (inl o) in cc)
Step-left s t (shuts_down o e) valid j = absurd (let x = not-joining s.owner j (inr o) in cc)
Step-left s t (joins_tx o over e) valid j =
    let l = ap owner_left o in subst (λ w. left w < left s) (sym e) (omega arith)
Step-left s t (joins_rx o over e) valid j =
    let l = ap owner_left o in subst (λ w. left w < left s) (sym e) (omega arith)
Step-left s t (tx_tests h e) valid j =
    let l = ap place_left h in
    let n = test_left s.running (joining-off s.owner s.running s.tx s.rx j valid) in
    subst (λ w. left w < left s) (sym e) (omega arith)
Step-left s t (rx_tests h e) valid j =
    let l = ap place_left h in
    let n = test_left s.running (joining-off s.owner s.running s.tx s.rx j valid) in
    subst (λ w. left w < left s) (sym e) (omega arith)
Step-left s t (tx_calls o h e) valid j =
    let l = ap place_left h in
    let n = call_left o s.running in subst (λ w. left w < left s) (sym e) (omega arith)
Step-left s t (rx_calls o h e) valid j =
    let l = ap place_left h in
    let n = rx_call_left o in subst (λ w. left w < left s) (sym e) (omega arith)

place-cases :
    (p : Place) → IsStarted p → p ≢ died → (p ≡ testing) ⊎ ((p ≡ calling) ⊎ (p ≡ finished))
place-cases not_started h alive = absurd (cc)
place-cases testing h alive = inl refl
place-cases calling h alive = inr (inl refl)
place-cases finished h alive = inr (inr refl)
place-cases died h alive = absurd (alive refl)

joining-moves :
    (s : Threader)
    → IsValid s
    → IsJoining s.owner
    → s.tx ≢ died
    → s.rx ≢ died
    → (t : Threader) × Step s t
joining-moves s valid (inl o) tx_alive rx_alive =
    let (off, tx_started, rx_started) = subst (λ w. OwnerAt w s) o valid in
    elim (place-cases s.tx tx_started tx_alive) [
      | inl h ↦ (_, tx_tests h refl)
      | inr (inl h) ↦ (_, tx_calls returned h refl)
      | inr (inr h) ↦ (_, joins_tx o h refl)
    ]
joining-moves s valid (inr o) tx_alive rx_alive =
    let (off, tx_over, rx_started) = subst (λ w. OwnerAt w s) o valid in
    elim (place-cases s.rx rx_started rx_alive) [
      | inl h ↦ (_, rx_tests h refl)
      | inr (inl h) ↦ (_, rx_calls returned h refl)
      | inr (inr h) ↦ (_, joins_rx o h refl)
    ]

-- `shutdown` comes to its end if the calls on the interface do: while it waits, every step of the
-- threads or of their owner brings it nearer to its end, of which it is at most six steps away, and
-- unless an exception has left a thread there is such a step.
pub shutdown-ends :
    {s : Threader}
    → Reach s
    → IsJoining s.owner
    → ((t : Threader) → Step s t → left t < left s)
      × (left s ≤ 6)
      × (s.tx ≢ died → s.rx ≢ died → (t : Threader) × Step s t)
shutdown-ends {s} r j = (
  λ t st. Step-left s t st (Reach-IsValid r) j,
  (let a = place_bound s.tx in
      let b = place_bound s.rx in let c = owner_bound s.owner in omega arith),
  λ tx_alive rx_alive. joining-moves s (Reach-IsValid r) j tx_alive rx_alive,
)
  where
    place_bound : (p : Place) → place_left p ≤ 2
    place_bound not_started = omega arith
    place_bound testing = omega arith
    place_bound calling = omega arith
    place_bound finished = omega arith
    place_bound died = omega arith

    owner_bound : (o : Owner) → owner_left o ≤ 2
    owner_bound stopped = omega arith
    owner_bound active = omega arith
    owner_bound joining_tx = omega arith
    owner_bound joining_rx = omega arith
