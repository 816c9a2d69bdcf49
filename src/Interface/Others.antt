-- ===== src/Interface/Others.antt =====
-- `receive_packet` and `send_packet` of src/Interface.hpp, and the permits of the other interfaces.
use mavtables.Prelude.{
  ℕ, ◌+◌, ◌^◌, ◌<◌, ◌≡◌, refl, subst, Bool, true, false, Option, none, some, Bytes, arith,
}
use mavtables.Prelude.Exception.{Result}
use mavtables.Prelude.Int.{ℤ}
use mavtables.Mavlink.{Library}
use mavtables.MavAddress.{MavAddress}
use mavtables.IpAddress.{IpAddress}
use mavtables.Packet.{Packet}
use mavtables.Connection.Once.{send-IsOnce}
use mavtables.Connection
use mavtables.Connection.{Connection, add_address}
use mavtables.ConnectionFactory.{ConnectionFactory}
use mavtables.UdpInterface
use mavtables.UdpInterface.{
  Network, UdpInterface, Table, insert, find, owns, connection_for, update_connections, seen, see,
  hear, woken,
}
use mavtables.UdpInterface.Queued.{Distinct, AllOpen, Keeps-AllOpen}
use mavtables.UdpInterface.Notified.{
  IsAccounted, IsNotified, heard_callbacks, hear_all-value, IsOnce-IsAccounted,
}
use mavtables.UdpInterface.Permits.{IsValid}
use mavtables.SerialInterface
use mavtables.ConfigParser.Interfaces.{Interface, udp, serial}
use mavtables.Interface.{Received, Sent, receive_packet, send_packet, sent_udp, sent_serial}
use mavtables.Interface.Shrinks.{
  Shrinks, same-Shrinks, Shrinks-queued, drain-Shrinks, send_packet-Shrinks,
}
use mavtables.SerialInterface.{SerialInterface}
use mavtables.Interface.Datagram.{udp-Told}
use mavtables.Interface.Buffer.{serial-Heeded}

module _ (timeout : ℕ) (lib : Library) (judge : Packet → MavAddress → Result (Bool × ℤ))
    (clock now : ℕ → ℕ) where
  abbrev pub send_on : Packet → Connection → Connection.Sent
  send_on packet c = Connection.send judge lib clock (some packet) c

  law : (packet : Packet) (c : Connection) → IsAccounted c.queue (send_on packet c)
  law packet c =
      IsOnce-IsAccounted packet c.queue (send_on packet c) (send-IsOnce judge lib clock packet c)

  abbrev Told : Table → Network → Received → Type 0
  Told table net (r, heard, i', net') = IsNotified table net.store heard net'.store

  receive_packet-Told :
      (table : Table) (d : Bytes × IpAddress) (i : Interface) (net : Network)
      → Distinct table
      → AllOpen table net.store
      → Told table net (receive_packet timeout lib send_on now d i net)
  unfolding receive_packet SerialInterface.receive_packet
  receive_packet-Told table d (udp u) net distinct all =
      udp-Told table distinct timeout lib send_on law now d u net all
  receive_packet-Told table d (serial s) net distinct all =
      serial-Heeded table distinct lib send_on s.connection law now d.0 s.parser net all

  -- While an interface receives, of either kind and whatever it reads, the other UDP interfaces keep
  -- their permits: when the semaphore of one has heard of the packets that were queued on its
  -- connections, its connections are different and open, and it has a permit for each packet that is
  -- queued on them, also if an exception is thrown. This needs that the semaphore does not wrap around
  -- at 64 bits.
  pub receive_packet-others :
      (d : Bytes × IpAddress) (i : Interface) (v : UdpInterface) (net : Network)
      → IsValid v net
      → let (r, heard, i', net') = receive_packet timeout lib send_on now d i net in
        v.factory.semaphore.value + heard_callbacks v.connections heard < 2 ^ 64
        → IsValid (hear heard v) net'
  unfolding hear
  receive_packet-others d i v net (distinct, all, permits) small =
      let (r, heard, i', net') = receive_packet timeout lib send_on now d i net in
      let (keeps, n) = receive_packet-Told v.connections d i net distinct all in
      let e = hear_all-value v.connections heard v.factory.semaphore small in
      (distinct, Keeps-AllOpen v.connections net.store net'.store keeps all, omega arith)

module _ (transmit : Bytes → IpAddress → Result (Unit {0}))
    (write : Bytes → Result (Unit {0})) where
  -- The store after a call of `send_packet`.
  abbrev Lessened : Network → Option Sent → Type 0
  Lessened net none = Unit
  Lessened net (some s) = Shrinks net.store s.2.store

  drained-Lessened :
      (u : UdpInterface) (net : Network) (w : Option (Bool × ConnectionFactory))
      → Lessened net (sent_udp transmit write (woken transmit u net w))
  drained-Lessened u net none = tt
  drained-Lessened u net (some (false, f)) = same-Shrinks net.store
  drained-Lessened u net (some (true, f)) = drain-Shrinks transmit u.connections false net.store f

  written-Lessened :
      (s : SerialInterface) (net : Network) (o : Option SerialInterface.Written)
      → ((w : SerialInterface.Written) → o ≡ some w → Shrinks net.store w.2)
      → Lessened net (sent_serial transmit write s net o)
  written-Lessened s net none h = tt
  written-Lessened s net (some (r, out, store)) h = h (r, out, store) refl

  send_packet-Lessened :
      (timeout : ℤ) (expired : Bool) (i : Interface) (net : Network)
      → Lessened net (send_packet transmit write timeout expired i net)
  unfolding send_packet UdpInterface.send_packet
  send_packet-Lessened timeout expired (udp u) net = drained-Lessened u net _
  send_packet-Lessened timeout expired (serial s) net =
      written-Lessened s net _ (send_packet-Shrinks write timeout expired s net.store)

  -- While an interface sends, of either kind and also if the socket or the port throws, the other UDP
  -- interfaces keep their permits: the connections of each are different and open, and its semaphore
  -- has a permit for each packet that is queued on them.
  pub send_packet-others :
      (timeout : ℤ) (expired : Bool) (i : Interface) (v : UdpInterface) (net : Network) (s : Sent)
      → IsValid v net
      → send_packet transmit write timeout expired i net ≡ some s
      → IsValid v s.2
  send_packet-others timeout expired i v net s (distinct, all, permits) e =
      let shrinks : Shrinks net.store s.2.store =
        subst (Lessened net) e (send_packet-Lessened timeout expired i net) in
      let fewer = Shrinks-queued v.connections net.store s.2.store shrinks in
      (distinct, Keeps-AllOpen v.connections net.store s.2.store shrinks.0 all, omega arith)
