-- ===== src/InterfaceThreader/Places.antt =====
-- Where the two threads of an interface can be, and when they are over.
use mavtables.Prelude.{◌≡◌, ◌≢◌, refl, sym, ap, ◌∙◌, subst, Bool, true, false, if◌then◌else◌}
use mavtables.InterfaceThreader.{
  Place, not_started, testing, calling, finished, died, Owner, stopped, active, joining_tx,
  joining_rx, Threader, Outcome, returned, partial_send_error, other_exception, loop_test, tx_after,
  rx_after, make, start, shutdown, Step, starts, shuts_down, joins_tx, joins_rx, tx_tests, rx_tests,
  tx_calls, rx_calls, Reach, begin, later,
}

-- A thread that has been started.
abbrev pub IsStarted : Place → Type 0
IsStarted not_started = ◌≡◌ {A = Bool} true false
IsStarted testing = Unit
IsStarted calling = Unit
IsStarted finished = Unit
IsStarted died = Unit

-- A thread that is not, and will not be, in a call on the interface.
abbrev pub IsOver : Place → Type 0
IsOver not_started = Unit
IsOver testing = ◌≡◌ {A = Bool} true false
IsOver calling = ◌≡◌ {A = Bool} true false
IsOver finished = Unit
IsOver died = ◌≡◌ {A = Bool} true false

abbrev pub OwnerOf : Owner → Bool → Place → Place → Type 0
OwnerOf stopped running tx rx = (running ≡ false) × IsOver tx × IsOver rx
OwnerOf active running tx rx = (running ≡ true) × IsStarted tx × IsStarted rx
OwnerOf joining_tx running tx rx = (running ≡ false) × IsStarted tx × IsStarted rx
OwnerOf joining_rx running tx rx = (running ≡ false) × (tx ≡ finished) × IsStarted rx

abbrev pub IsValid : Threader → Type 0
IsValid s = OwnerOf s.owner s.running s.tx s.rx

loop_test-IsStarted : (running : Bool) → IsStarted (loop_test running)
unfolding loop_test
loop_test-IsStarted true = tt
loop_test-IsStarted false = tt

tx_after-IsStarted : (o : Outcome) (running : Bool) → IsStarted (tx_after o running)
unfolding tx_after
tx_after-IsStarted returned running = tt
tx_after-IsStarted partial_send_error true = tt
tx_after-IsStarted partial_send_error false = tt
tx_after-IsStarted other_exception running = tt

rx_after-IsStarted : (o : Outcome) → IsStarted (rx_after o)
unfolding rx_after
rx_after-IsStarted returned = tt
rx_after-IsStarted partial_send_error = tt
rx_after-IsStarted other_exception = tt

-- A thread that is in its loop.
abbrev IsBusy : Place → Type 0
IsBusy p = (IsOver p → ◌≡◌ {A = Bool} true false) × (p ≢ finished)

testing-IsBusy : (p : Place) → p ≡ testing → IsBusy p
testing-IsBusy p e = (subst (λ q. IsOver q → ◌≡◌ {A = Bool} true false) (sym e) (λ h. h), λ f. cc)

calling-IsBusy : (p : Place) → p ≡ calling → IsBusy p
calling-IsBusy p e = (subst (λ q. IsOver q → ◌≡◌ {A = Bool} true false) (sym e) (λ h. h), λ f. cc)

tx_moves :
    (owner : Owner) (running : Bool) (tx rx p : Place)
    → OwnerOf owner running tx rx
    → IsBusy tx
    → IsStarted p
    → OwnerOf owner running p rx
tx_moves stopped running tx rx p (off, over_tx, over_rx) (not_over, busy) h =
    absurd (let e = not_over over_tx in cc)
tx_moves active running tx rx p (on, tx_started, rx_started) busy h = (on, h, rx_started)
tx_moves joining_tx running tx rx p (off, tx_started, rx_started) busy h = (off, h, rx_started)
tx_moves joining_rx running tx rx p (off, over_tx, rx_started) (not_over, busy) h =
    absurd (busy over_tx)

rx_moves :
    (owner : Owner) (running : Bool) (tx rx p : Place)
    → OwnerOf owner running tx rx
    → IsBusy rx
    → IsStarted p
    → OwnerOf owner running tx p
rx_moves stopped running tx rx p (off, over_tx, over_rx) (not_over, busy) h =
    absurd (let e = not_over over_rx in cc)
rx_moves active running tx rx p (on, tx_started, rx_started) busy h = (on, tx_started, h)
rx_moves joining_tx running tx rx p (off, tx_started, rx_started) busy h = (off, tx_started, h)
rx_moves joining_rx running tx rx p (off, over_tx, rx_started) busy h = (off, over_tx, h)

abbrev pub OwnerAt : Owner → Threader → Type 0
OwnerAt owner s = OwnerOf owner s.running s.tx s.rx

Step-IsValid : (s t : Threader) → Step s t → IsValid s → IsValid t
unfolding start shutdown
Step-IsValid s t (starts o e) valid = subst IsValid (sym e) (refl, tt, tt)
Step-IsValid s t (shuts_down o e) valid =
    let (on, tx_started, rx_started) = subst (λ w. OwnerAt w s) o valid in
    subst IsValid
      (sym (e ∙ ap (λ b. if b then record s { running = false; owner = joining_tx } else s) on))
      (refl, tx_started, rx_started)
Step-IsValid s t (joins_tx o over e) valid =
    let (off, tx_started, rx_started) = subst (λ w. OwnerAt w s) o valid in
    subst IsValid (sym e) (off, over, rx_started)
Step-IsValid s t (joins_rx o over e) valid =
    let (off, tx_over, rx_started) = subst (λ w. OwnerAt w s) o valid in
    subst IsValid (sym e) (off, subst IsOver (sym tx_over) tt, subst IsOver (sym over) tt)
Step-IsValid s t (tx_tests h e) valid = subst IsValid (sym e) (
    tx_moves s.owner s.running s.tx s.rx (loop_test s.running) valid (testing-IsBusy s.tx h)
      (loop_test-IsStarted s.running))
Step-IsValid s t (rx_tests h e) valid = subst IsValid (sym e) (
    rx_moves s.owner s.running s.tx s.rx (loop_test s.running) valid (testing-IsBusy s.rx h)
      (loop_test-IsStarted s.running))
Step-IsValid s t (tx_calls o h e) valid = subst IsValid (sym e) (
    tx_moves s.owner s.running s.tx s.rx (tx_after o s.running) valid (calling-IsBusy s.tx h)
      (tx_after-IsStarted o s.running))
Step-IsValid s t (rx_calls o h e) valid = subst IsValid (sym e) (
    rx_moves s.owner s.running s.tx s.rx (rx_after o) valid (calling-IsBusy s.rx h)
      (rx_after-IsStarted o))

pub Reach-IsValid : {s : Threader} → Reach s → IsValid s
unfolding make
Reach-IsValid begin = (refl, tt, tt)
Reach-IsValid (later {s} {t} r st) = Step-IsValid s t st (Reach-IsValid r)

-- However the threads and their owner take turns and whatever the calls on the interface do: when
-- `shutdown` has returned, and before the first start, no thread is in a call on the interface or in
-- its loop, so that the interface may be destroyed.
pub stopped-IsOver : {s : Threader} → Reach s → s.owner ≡ stopped → IsOver s.tx × IsOver s.rx
stopped-IsOver {s} r o =
    let (off, tx_over, rx_over) = subst (λ w. OwnerAt w s) o (Reach-IsValid r) in (tx_over, rx_over)
