-- ===== src/Connection.antt =====
-- src/Connection.hpp and src/Connection.cpp: what a connection does with a packet that is to be sent.
-- The filter is a parameter: `judge` is what `filter_->will_accept` returns or throws, as
-- src/Filter.cpp does without a change to its chains. `clock` gives the times that the calls of the
-- address pool read, in their order. Writing the log is left out.
pub mod Once
pub mod Best
pub mod Targets
use mavtables.Prelude.{
  ℕ, Bool, true, false, not, ◌&&◌, ◌||◌, Option, none, some, List, [], ◌∷◌, Bytes, ◌==◌,
  if◌then◌else◌,
}
use mavtables.Prelude.Int.{ℤ, int_min, max_ℤ}
use mavtables.Prelude.Exception.{Exception, Result, ok, err, invalid_argument, ◌>>=◌}
use mavtables.Mavlink.{Library}
use mavtables.MavAddress
use mavtables.MavAddress.{MavAddress, system, component}
use mavtables.Packet
use mavtables.Packet.{Packet}
use mavtables.PacketQueue
use mavtables.PacketQueue.{PacketQueue, Signal}
use mavtables.AddressPool
use mavtables.AddressPool.{AddressPool, contains, addresses}

pub record Connection : Type 0 where
  pub name : Bytes
  pub mirror : Bool
  pub pool : AddressPool
  pub queue : PacketQueue

-- The constructor refuses null pointers to the filter, the pool and the queue.
unfoldable pub make :
    Bytes → Bool → Bool → Option AddressPool → Option PacketQueue → Result Connection
make name filter_given mirror none queue = err invalid_argument
make name filter_given mirror (some pool) none = err invalid_argument
make name filter_given mirror (some pool) (some queue) =
    if filter_given
    then ok (record { name = name; mirror = mirror; pool = pool; queue = queue })
    else err invalid_argument

unfoldable pub add_address : ℕ → MavAddress → Connection → Connection
add_address now address c = record c { pool = AddressPool.add now address c.pool }

abbrev pub after_pop :
    Connection → Option (Option Packet × PacketQueue) → Option (Option Packet × Connection)
after_pop c none = none
after_pop c (some (packet, queue)) = some (packet, record c { queue = queue })

unfoldable pub next_packet : ℤ → Bool → Connection → Option (Option Packet × Connection)
next_packet timeout expired c = after_pop c (PacketQueue.pop_timeout timeout expired c.queue)

-- The signals of the queue or an exception, and the connection.
abbrev pub Sent : Type 0
Sent = Result (List Signal) × Connection

abbrev pub after_push : Connection → Result (PacketQueue × List Signal) → Sent
after_push c (ok (queue, signals)) = (ok signals, record c { queue = queue })
after_push c (err e) = (err e, c)

abbrev pub push : Packet → ℤ → Connection → Sent
push packet priority c = after_push c (PacketQueue.push (some packet) priority c.queue)

-- "Add packet to the queue", if it is accepted.
abbrev pub push_if : Packet → Result (Bool × ℤ) → Connection → Sent
push_if packet (ok (true, priority)) c = push packet priority c
push_if packet (ok (false, priority)) c = (ok [], c)
push_if packet (err e) c = (err e, c)

module _ (judge : Packet → MavAddress → Result (Bool × ℤ)) where
  -- The loop over the addresses of the system in `send_to_address_`.
  abbrev pub push_or : Packet → Result (Bool × ℤ) → Connection → Sent → Sent
  push_or packet (ok (true, priority)) c rest = push packet priority c
  push_or packet (ok (false, priority)) c rest = rest
  push_or packet (err e) c rest = (err e, c)

  unfoldable pub try_components : Packet → MavAddress → List MavAddress → Connection → Sent
  try_components packet dest [] c = (ok [], c)
  try_components packet dest (a ∷ rest) c =
      let later = try_components packet dest rest c in
      if system a == system dest then push_or packet (judge packet dest) c later else later

  unfoldable pub send_to_address : ℕ → ℕ → Packet → MavAddress → Connection → Sent
  unfolding try_components
  send_to_address now later packet dest c =
      let (found, pool) = contains now dest c.pool in
      if found
      then push_if packet (judge packet dest) (record c { pool = pool })
      else (let (all, pool') = addresses later pool in
          try_components packet dest all (record c { pool = pool' }))

  -- The loops of the other two functions, with `accept` and `priority` as they are so far.
  unfoldable pub gather : Packet → List MavAddress → Bool → ℤ → Result (Bool × ℤ)
  gather packet [] accept priority = ok (accept, priority)
  gather packet (a ∷ rest) accept priority = do
    v ← judge packet a
    gather packet rest (v.0 || accept) (if v.0 then max_ℤ priority v.1 else priority)

  unfoldable pub send_to_all : ℕ → Packet → Connection → Sent
  unfolding gather
  send_to_all now packet c =
      let (all, pool) = addresses now c.pool in
      push_if packet (gather packet all false int_min) (record c { pool = pool })

  unfoldable pub gather_system :
      Packet → ℕ → List MavAddress → Bool → Bool → ℤ → Result (Bool × Bool × ℤ)
  gather_system packet sys [] found accept priority = ok (found, accept, priority)
  gather_system packet sys (a ∷ rest) found accept priority =
      if sys == system a
      then (do
        v ← judge packet a
        gather_system packet sys rest true (v.0 || accept)
            (if v.0 then max_ℤ priority v.1 else priority))
      else gather_system packet sys rest found accept priority

  abbrev pub push_if_found : Packet → Result (Bool × Bool × ℤ) → Connection → Sent
  push_if_found packet (ok (true, accept, priority)) c = push_if packet (ok (accept, priority)) c
  push_if_found packet (ok (false, accept, priority)) c = (ok [], c)
  push_if_found packet (err e) c = (err e, c)

  unfoldable pub send_to_system : ℕ → Packet → ℕ → Connection → Sent
  unfolding gather_system
  send_to_system now packet sys c =
      let (all, pool) = addresses now c.pool in
      push_if_found packet (gather_system packet sys all false false int_min)
        (record c { pool = pool })

  module _ (lib : Library) (clock : ℕ → ℕ) where
    -- The three ways to send, by the destination of the packet.
    unfoldable pub send_to : Packet → Option MavAddress → Connection → Sent
    unfolding send_to_all send_to_system send_to_address
    send_to packet none c = send_to_all (clock 1) packet c
    send_to packet (some dest) c =
        if dest.address == 0 || c.mirror
        then send_to_all (clock 1) packet c
        else if component dest == 0
        then send_to_system (clock 1) packet (system dest) c
        else send_to_address (clock 1) (clock 2) packet dest c

    abbrev pub send_dest : Result (Option MavAddress) → Packet → Connection → Sent
    send_dest (ok dest) packet c = send_to packet dest c
    send_dest (err e) packet c = (err e, c)

    abbrev pub send_unless : Bool → Packet → Connection → Sent
    send_unless true packet c = (ok [], c)
    send_unless false packet c = send_dest (Packet.dest lib packet) packet c

    abbrev pub send_from : Result MavAddress → Packet → Connection → Sent
    send_from (err e) packet c = (err e, c)
    send_from (ok source) packet c =
        let (found, pool) = contains (clock 0) source c.pool in
        send_unless found packet (record c { pool = pool })

    unfoldable pub send : Option Packet → Connection → Sent
    unfolding send_to
    send none c = (err invalid_argument, c)
    send (some packet) c = send_from (Packet.source packet) packet c
