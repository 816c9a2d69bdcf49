-- ===== src/InterfaceThreader.antt =====
-- src/InterfaceThreader.hpp, src/InterfaceThreader.cpp and src/App.cpp: the two threads of an interface
-- and the thread that starts and stops them, as steps on a shared state. What a call on the interface
-- does is the environment's: it returns or throws.
pub mod Stops
pub mod Places
use mavtables.Prelude.{◌≡◌, Bool, true, false, List, map, if◌then◌else◌}

-- Where a thread is: not started, before the test of its loop, in the call, or at its end. `died` is an
-- exception that leaves the thread, which terminates the program.
pub data Place : Type 0 where
  not_started testing calling finished died : Place

-- Where the owner is: behind the constructor or a shutdown, behind a start, or in `shutdown`, before
-- each join.
pub data Owner : Type 0 where
  stopped active joining_tx joining_rx : Owner

pub record Threader : Type 0 where
  pub running : Bool
  pub owner : Owner
  pub tx : Place
  pub rx : Place

-- What a call of `send_packet` or `receive_packet` does.
pub data Outcome : Type 0 where
  returned partial_send_error other_exception : Outcome

unfoldable pub loop_test : Bool → Place
loop_test running = if running then calling else finished

-- A partial write is ignored "on shutdown".
unfoldable pub tx_after : Outcome → Bool → Place
tx_after returned running = testing
tx_after partial_send_error running = if running then died else testing
tx_after other_exception running = died

unfoldable pub rx_after : Outcome → Place
rx_after returned = testing
rx_after partial_send_error = died
rx_after other_exception = died

unfoldable pub make : Threader
make = record { running = false; owner = stopped; tx = not_started; rx = not_started }

unfoldable pub start : Threader → Threader
start s = record s { running = true; owner = active; tx = testing; rx = testing }

-- The first half of `shutdown`, which does nothing unless the threads run.
unfoldable pub shutdown : Threader → Threader
shutdown s = if s.running then record s { running = false; owner = joining_tx } else s

-- `App::run`, before and behind the wait for the signal.
unfoldable pub start_all : List Threader → List Threader
unfolding start
start_all = map start

unfoldable pub shutdown_all : List Threader → List Threader
unfolding shutdown
shutdown_all = map shutdown

pub data Step (s t : Threader) : Type 0 where
  starts : s.owner ≡ stopped → t ≡ start s → Step s t
  shuts_down : s.owner ≡ active → t ≡ shutdown s → Step s t
  joins_tx : s.owner ≡ joining_tx → s.tx ≡ finished → t ≡ record s { owner = joining_rx } → Step s t
  joins_rx : s.owner ≡ joining_rx → s.rx ≡ finished → t ≡ record s { owner = stopped } → Step s t
  tx_tests : s.tx ≡ testing → t ≡ record s { tx = loop_test s.running } → Step s t
  rx_tests : s.rx ≡ testing → t ≡ record s { rx = loop_test s.running } → Step s t
  tx_calls : (o : Outcome) → s.tx ≡ calling → t ≡ record s { tx = tx_after o s.running } → Step s t
  rx_calls : (o : Outcome) → s.rx ≡ calling → t ≡ record s { rx = rx_after o } → Step s t

pub data Reach : Threader → Type 0 where
  begin : Reach make
  later : {s t : Threader} → Reach s → Step s t → Reach t
