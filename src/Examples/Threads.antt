-- ===== src/Examples/Threads.antt =====
-- A thread pair that is started and shut down while both are in a call.
use mavtables.Prelude.{◌<◌, ◌≤◌, ◌≢◌, refl, true, false, inl}
use mavtables.InterfaceThreader
use mavtables.InterfaceThreader.{
  Threader, Place, calling, testing, finished, died, Owner, joining_tx, stopped, returned, Step,
  Reach, begin, later, starts, tx_tests, rx_tests, tx_calls, rx_calls, shuts_down, joins_tx,
  joins_rx,
}
use mavtables.InterfaceThreader.Places.{IsOver, stopped-IsOver}
use mavtables.InterfaceThreader.Stops.{left, shutdown-ends}

abbrev both_call : Threader
both_call = record { running = true; owner = Owner.active; tx = calling; rx = calling }

both_call-Reach : Reach both_call
unfolding InterfaceThreader.make InterfaceThreader.start InterfaceThreader.loop_test
both_call-Reach =
    later (later (later begin (starts refl refl)) (tx_tests refl refl)) (rx_tests refl refl)

abbrev waiting : Threader
waiting = record { running = false; owner = joining_tx; tx = calling; rx = calling }

waiting-Reach : Reach waiting
unfolding InterfaceThreader.shutdown
waiting-Reach = later both_call-Reach (shuts_down refl refl)

shutdown-ends_example :
    ((t : Threader) → Step waiting t → left t < 6)
    × (6 ≤ 6)
    × (calling ≢ died → calling ≢ died → (t : Threader) × Step waiting t)
shutdown-ends_example = shutdown-ends waiting-Reach (inl refl)

abbrev over : Threader
over = record { running = false; owner = stopped; tx = finished; rx = finished }

over-Reach : Reach over
unfolding InterfaceThreader.tx_after InterfaceThreader.rx_after InterfaceThreader.loop_test
over-Reach =
    later
      (later
        (later
          (later
            (later (later waiting-Reach (tx_calls returned refl refl))
              (rx_calls returned refl refl))
            (tx_tests refl refl))
          (rx_tests refl refl))
        (joins_tx refl refl refl))
      (joins_rx refl refl refl)

stopped-IsOver_example : IsOver finished × IsOver finished
stopped-IsOver_example = stopped-IsOver over-Reach refl
