-- ===== src/UdpInterface.antt =====
-- src/UDPInterface.hpp and src/UDPInterface.cpp: an interface with one connection for each IP address
-- that it has received a packet from. The socket is a parameter: a datagram that it received is an
-- argument of `receive_packet`, and `transmit` is what its `send` returns or throws. `send_on` is
-- `Connection::send`, and `now n` the time at which `n` bytes of the datagram are left.
pub mod Queued
pub mod Drain
pub mod Permits
pub mod Notified
pub mod Fresh
pub mod Receive
pub mod Updates
pub mod Fronts
use mavtables.Prelude.{
  ℕ, zero, suc, ◌+◌, Bool, true, false, ◌||◌, Option, none, some, List, [], ◌∷◌, ◌++◌, Bytes, ◌==◌,
  if◌then◌else◌, length, set,
}
use mavtables.Prelude.Int.{pos}
use mavtables.Prelude.Exception.{Result, ok, err, invalid_argument, ◌>>=◌}
use mavtables.Mavlink.{Library}
use mavtables.MavAddress.{MavAddress}
use mavtables.IpAddress
use mavtables.IpAddress.{IpAddress, lt, ne}
use mavtables.Packet
use mavtables.Packet.{Packet}
use mavtables.PacketParser
use mavtables.PacketParser.{PacketParser, fresh, parse_byte}
use mavtables.PacketQueue.{Signal, callback}
use mavtables.Semaphore
use mavtables.Semaphore.{Semaphore}
use mavtables.Connection
use mavtables.Connection.{Connection, Sent, next_packet, add_address}
use mavtables.ConnectionPool
use mavtables.ConnectionPool.{ConnectionPool, Store, Heard, lock}
use mavtables.ConnectionFactory
use mavtables.ConnectionFactory.{ConnectionFactory, wait_for_packet, get}

-- What the interfaces share.
pub record Network : Type 0 where
  pub pool : ConnectionPool
  pub store : Store

abbrev pub Table : Type 0
Table = List (IpAddress × ℕ)

-- `connections_`, a map, in the order of its keys.
pub record UdpInterface : Type 0 where
  pub connections : Table
  pub parser : PacketParser
  pub last_ip_address : IpAddress
  pub factory : ConnectionFactory

-- The constructor refuses null pointers to the socket, the pool and the factory.
unfoldable pub make : Bool → Bool → Option ConnectionFactory → Result UdpInterface
make socket_given pool_given none = err invalid_argument
make socket_given pool_given (some factory) =
    if socket_given
    then (if pool_given
        then ok (record {
          connections = [];
          parser = fresh;
          last_ip_address = record { address = 0; port = 0 };
          factory = factory;
        })
        else err invalid_argument)
    else err invalid_argument

-- `find` and `insert` of the map.
unfoldable pub find : IpAddress → Table → Option ℕ
find ip [] = none
find ip ((a, i) ∷ table) = let rest = find ip table in if lt ip a || lt a ip then rest else some i

unfoldable pub insert : IpAddress → ℕ → Table → Table
insert ip i [] = (ip, i) ∷ []
insert ip i ((a, j) ∷ table) =
    let rest = insert ip i table in
    if lt ip a then (ip, i) ∷ (a, j) ∷ table else if lt a ip then (a, j) ∷ rest else (a, j) ∷ table

abbrev pub seen : ℕ → MavAddress → ℕ → Option Connection → Store → Store
seen now address i none store = store
seen now address i (some c) store = set store i (some (add_address now address c))

-- `it->second->add_address`
abbrev pub see : ℕ → MavAddress → ℕ → Network → Network
see now address i net = record net { store = seen now address i (lock net.store i) net.store }

module _ (timeout : ℕ) where
  -- A connection that does not exist is made, inserted into the map, and registered with the pool.
  unfoldable pub connection_for :
      Option ℕ → IpAddress → UdpInterface → Network → Result (ℕ × UdpInterface × Network)
  unfolding insert get
  connection_for (some i) ip u net = ok (i, u, net)
  connection_for none ip u net = do
    c ← get timeout (IpAddress.print ip) u.factory
    ok (
      length net.store,
      record u { connections = insert ip (length net.store) u.connections },
      record {
        pool = ConnectionPool.add (length net.store) net.pool;
        store = net.store ++ some c ∷ [];
      },
    )

  unfoldable pub update_connections :
      ℕ → MavAddress → IpAddress → UdpInterface → Network → Result (UdpInterface × Network)
  unfolding find connection_for
  update_connections now address ip u net = do
    r ← connection_for (find ip u.connections) ip u net
    ok (r.1, see now address r.0 r.2)

-- The signals of the queues, and the state.
abbrev pub Received : Type 0
Received = Result (Unit {0}) × List Heard × UdpInterface × Network

abbrev pub hear_too : List Heard → Received → Received
hear_too heard (r, later, u, net) = (r, heard ++ later, u, net)

module _ (timeout : ℕ) (lib : Library) (send_on : Packet → Connection → Sent) where
  abbrev pub after_pool :
      UdpInterface
      → Result (Unit {0}) × List Heard × ConnectionPool × Store
      → (UdpInterface → Network → Received)
      → Received
  after_pool u (ok v, heard, pool, store) rest =
      hear_too heard (rest u (record { pool = pool; store = store }))
  after_pool u (err e, heard, pool, store) rest =
      (err e, heard, u, record { pool = pool; store = store })

  -- The packet is given the connection of its IP address, and sent.
  abbrev pub forward :
      Packet → IpAddress → UdpInterface → Network → (UdpInterface → Network → Received) → Received
  forward packet ip u net rest =
      after_pool u
        (ConnectionPool.send send_on (some (Packet.set_connection packet (find ip u.connections)))
          net.pool net.store)
        rest

  abbrev pub after_update :
      Packet
      → IpAddress
      → Result (UdpInterface × Network)
      → UdpInterface
      → Network
      → (UdpInterface → Network → Received)
      → Received
  after_update packet ip (ok (u', net')) u net rest = forward packet ip u' net' rest
  after_update packet ip (err e) u net rest = (err e, [], u, net)

  abbrev pub from_source :
      ℕ
      → Packet
      → IpAddress
      → Result MavAddress
      → UdpInterface
      → Network
      → (UdpInterface → Network → Received)
      → Received
  from_source now packet ip (ok source) u net rest =
      after_update packet ip (update_connections timeout now source ip u net) u net rest
  from_source now packet ip (err e) u net rest = (err e, [], u, net)

  abbrev pub after_byte :
      ℕ
      → IpAddress
      → Result (Option Packet) × PacketParser
      → UdpInterface
      → Network
      → (UdpInterface → Network → Received)
      → Received
  after_byte now ip (ok none, parser) u net rest = rest (record u { parser = parser }) net
  after_byte now ip (ok (some packet), parser) u net rest =
      from_source now packet ip (Packet.source packet) (record u { parser = parser }) net rest
  after_byte now ip (err e, parser) u net rest = (err e, [], record u { parser = parser }, net)

  module _ (now : ℕ → ℕ) where
    unfoldable pub parse_bytes : IpAddress → Bytes → UdpInterface → Network → Received
    unfolding update_connections
    parse_bytes ip [] u net = (ok tt, [], u, net)
    parse_bytes ip (byte ∷ bytes) u net =
        after_byte (now (length bytes)) ip (parse_byte lib u.parser byte) u net
          (parse_bytes ip bytes)

    -- "Clear the parser if the IP address is different from the last UDP packet received"
    unfoldable pub turn_to : IpAddress → UdpInterface → UdpInterface
    turn_to ip u =
        if ne ip u.last_ip_address
        then record u { parser = PacketParser.clear u.parser; last_ip_address = ip }
        else u

    unfoldable pub receive_packet : Bytes × IpAddress → UdpInterface → Network → Received
    unfolding parse_bytes turn_to
    receive_packet ([], ip) u net = (ok tt, [], u, net)
    receive_packet (byte ∷ bytes, ip) u net = parse_bytes ip (byte ∷ bytes) (turn_to ip u) net

abbrev pub Datagram : Type 0
Datagram = Bytes × IpAddress

-- What has been given to the socket, and the state.
abbrev pub Drained : Type 0
Drained = Result (Unit {0}) × List Datagram × Store × ConnectionFactory

abbrev pub also : Datagram → Drained → Drained
also d (r, out, store, f) = (r, d ∷ out, store, f)

-- `wait_for_packet(0s)`, which does not block.
abbrev pub after_wait : ConnectionFactory → Option (Bool × ConnectionFactory) → ConnectionFactory
after_wait f none = f
after_wait f (some (r, f')) = f'

abbrev pub decrement_if : Bool → ConnectionFactory → ConnectionFactory
decrement_if false f = f
decrement_if true f = after_wait f (wait_for_packet true f)

-- `next_packet()` of the connection.
abbrev pub popped : ℕ → Store → Option (Option Packet × Connection) → Option Packet × Store
popped i store none = (none, store)
popped i store (some (packet, c)) = (packet, set store i (some c))

abbrev pub next_from : ℕ → Store → Option Connection → Option Packet × Store
next_from i store none = (none, store)
next_from i store (some c) = popped i store (next_packet (pos 0) true c)

module _ (transmit : Bytes → IpAddress → Result (Unit {0})) where
  abbrev pub after_transmit :
      Result (Unit {0})
      → Datagram
      → Bool
      → Store
      → ConnectionFactory
      → (Bool → Store → ConnectionFactory → Drained)
      → Drained
  after_transmit (ok v) d not_first store f rest =
      also d (rest true store (decrement_if not_first f))
  after_transmit (err e) d not_first store f rest = (err e, [], store, f)

  abbrev pub after_pop :
      IpAddress
      → Bool
      → Option Packet × Store
      → ConnectionFactory
      → (Bool → Store → ConnectionFactory → Drained)
      → Drained
  after_pop ip not_first (none, store) f rest = rest not_first store f
  after_pop ip not_first (some packet, store) f rest =
      after_transmit (transmit packet.bytes ip) (packet.bytes, ip) not_first store f rest

  -- The loop over the connections.
  unfoldable pub drain : Table → Bool → Store → ConnectionFactory → Drained
  drain [] not_first store f = (ok tt, [], store, f)
  drain ((ip, i) ∷ table) not_first store f =
      after_pop ip not_first (next_from i store (lock store i)) f (drain table)

  abbrev pub Delivered : Type 0
  Delivered = Result (Unit {0}) × List Datagram × UdpInterface × Network

  abbrev pub delivered : UdpInterface → Network → Drained → Delivered
  delivered u net (r, out, store, f) =
      (r, out, record u { factory = f }, record net { store = store })

  abbrev pub woken : UdpInterface → Network → Option (Bool × ConnectionFactory) → Option Delivered
  woken u net none = none
  woken u net (some (false, f)) = some (ok tt, [], record u { factory = f }, net)
  woken u net (some (true, f)) = some (delivered u net (drain u.connections false net.store f))

  -- `none` while it waits for a packet.
  unfoldable pub send_packet : Bool → UdpInterface → Network → Option Delivered
  unfolding drain
  send_packet expired u net = woken u net (wait_for_packet expired u.factory)

-- The callbacks of the connections that the factory has made.
unfoldable pub callbacks : List Signal → ℕ
callbacks [] = 0
callbacks (callback ∷ signals) = suc (callbacks signals)
callbacks (signal ∷ signals) = callbacks signals

unfoldable pub owns : Table → ℕ → Bool
owns [] i = false
owns ((a, j) ∷ table) i = let rest = owns table i in j == i || rest

abbrev pub repeat_notify : ℕ → Semaphore → Semaphore
repeat_notify zero s = s
repeat_notify (suc n) s = repeat_notify n (Semaphore.notify s)

unfoldable pub hear_all : Table → List Heard → Semaphore → Semaphore
unfolding owns callbacks
hear_all table [] s = s
hear_all table ((i, signals) ∷ heard) s =
    let s' = repeat_notify (if owns table i then callbacks signals else 0) s in
    hear_all table heard s'

unfoldable pub hear : List Heard → UdpInterface → UdpInterface
unfolding hear_all
hear heard u = record u {
  factory = record u.factory { semaphore = hear_all u.connections heard u.factory.semaphore };
}
