-- ===== src/SerialInterface.antt =====
-- src/SerialInterface.hpp and src/SerialInterface.cpp: an interface with one connection. The port is a
-- parameter: what it read is an argument of `receive_packet`, and `write` is what its `write` returns
-- or throws. `send_on` is `Connection::send`, and `now n` the time at which `n` bytes are left.
pub mod Deliver
use mavtables.Prelude.{
  ℕ, Bool, true, false, Option, none, some, List, [], ◌∷◌, ◌++◌, Bytes, if◌then◌else◌, length, set,
}
use mavtables.Prelude.Int.{ℤ}
use mavtables.Prelude.Exception.{Result, ok, err, invalid_argument}
use mavtables.Mavlink.{Library}
use mavtables.MavAddress.{MavAddress}
use mavtables.Packet
use mavtables.Packet.{Packet}
use mavtables.PacketParser.{PacketParser, fresh, parse_byte}
use mavtables.Connection.{Connection, Sent, next_packet}
use mavtables.ConnectionPool
use mavtables.ConnectionPool.{ConnectionPool, Store, Heard, lock}
use mavtables.UdpInterface.{Network, see}

pub record SerialInterface : Type 0 where
  pub connection : ℕ
  pub parser : PacketParser

-- The constructor refuses null pointers, and registers the connection with the pool.
unfoldable pub make : Bool → Bool → Option ℕ → Network → Result (SerialInterface × Network)
make port_given pool_given none net = err invalid_argument
make port_given pool_given (some connection) net =
    if port_given
    then (if pool_given
        then ok (
          record { connection = connection; parser = fresh },
          record net { pool = ConnectionPool.add connection net.pool },
        )
        else err invalid_argument)
    else err invalid_argument

-- What the call returns or throws, what has been written, and the store.
abbrev pub Written : Type 0
Written = Result (Unit {0}) × List Bytes × Store

module _ (write : Bytes → Result (Unit {0})) where
  abbrev pub after_write : Result (Unit {0}) → Bytes → Store → Written
  after_write (ok v) bytes store = (ok tt, bytes ∷ [], store)
  after_write (err e) bytes store = (err e, [], store)

  abbrev pub write_next : ℕ → Store → Option (Option Packet × Connection) → Option Written
  write_next i store none = none
  write_next i store (some (none, c)) = some (ok tt, [], set store i (some c))
  write_next i store (some (some packet, c)) =
      some (after_write (write packet.bytes) packet.bytes (set store i (some c)))

  abbrev pub write_from : ℕ → Store → ℤ → Bool → Option Connection → Option Written
  write_from i store timeout expired none = some (ok tt, [], store)
  write_from i store timeout expired (some c) = write_next i store (next_packet timeout expired c)

  -- `none` while it waits for a packet.
  unfoldable pub send_packet : ℤ → Bool → SerialInterface → Store → Option Written
  send_packet timeout expired s store =
      write_from s.connection store timeout expired (lock store s.connection)

-- The signals of the queues, and the state.
abbrev pub Received : Type 0
Received = Result (Unit {0}) × List Heard × PacketParser × Network

abbrev pub hear_too : List Heard → Received → Received
hear_too heard (r, later, p, net) = (r, heard ++ later, p, net)

module _ (lib : Library) (send_on : Packet → Connection → Sent) (connection : ℕ) where
  abbrev pub after_pool :
      PacketParser
      → Result (Unit {0}) × List Heard × ConnectionPool × Store
      → (PacketParser → Network → Received)
      → Received
  after_pool p (ok v, heard, pool, store) rest =
      hear_too heard (rest p (record { pool = pool; store = store }))
  after_pool p (err e, heard, pool, store) rest =
      (err e, heard, p, record { pool = pool; store = store })

  -- The packet is given the connection, which sees its source, and it is sent.
  abbrev pub from_source :
      ℕ
      → Packet
      → Result MavAddress
      → PacketParser
      → Network
      → (PacketParser → Network → Received)
      → Received
  from_source now packet (err e) p net rest = (err e, [], p, net)
  from_source now packet (ok source) p net rest =
      let seen = see now source connection net in
      after_pool p
        (ConnectionPool.send send_on (some (Packet.set_connection packet (some connection)))
          seen.pool seen.store)
        rest

  abbrev pub after_byte :
      ℕ
      → Result (Option Packet) × PacketParser
      → Network
      → (PacketParser → Network → Received)
      → Received
  after_byte now (ok none, p) net rest = rest p net
  after_byte now (ok (some packet), p) net rest =
      from_source now packet (Packet.source packet) p net rest
  after_byte now (err e, p) net rest = (err e, [], p, net)

  module _ (now : ℕ → ℕ) where
    unfoldable pub parse_bytes : Bytes → PacketParser → Network → Received
    parse_bytes [] p net = (ok tt, [], p, net)
    parse_bytes (byte ∷ bytes) p net =
        after_byte (now (length bytes)) (parse_byte lib p byte) net (parse_bytes bytes)

module _ (lib : Library) (send_on : Packet → Connection → Sent) (now : ℕ → ℕ) where
  abbrev pub received :
      SerialInterface → Received → Result (Unit {0}) × List Heard × SerialInterface × Network
  received s (r, heard, p, net) = (r, heard, record s { parser = p }, net)

  unfoldable pub receive_packet :
      Bytes → SerialInterface → Network → Result (Unit {0}) × List Heard × SerialInterface × Network
  unfolding parse_bytes
  receive_packet buffer s net =
      received s (parse_bytes lib send_on s.connection now buffer s.parser net)
