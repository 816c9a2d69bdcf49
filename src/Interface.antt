-- ===== src/Interface.antt =====
-- src/Interface.hpp: `receive_packet` and `send_packet`, of a UDP interface or of a serial interface.
-- The input is what the socket or the port has read; of a serial port only the bytes count.
pub mod Updates
pub mod Datagram
pub mod Buffer
pub mod Shrinks
pub mod Others
use mavtables.Prelude.{ℕ, Bool, Option, none, some, List, ◌++◌, Bytes}
use mavtables.Prelude.Exception.{Result}
use mavtables.Prelude.Int.{ℤ}
use mavtables.Mavlink.{Library}
use mavtables.IpAddress.{IpAddress}
use mavtables.Packet.{Packet}
use mavtables.Connection
use mavtables.Connection.{Connection}
use mavtables.ConnectionPool.{Heard}
use mavtables.UdpInterface
use mavtables.UdpInterface.{UdpInterface, Network}
use mavtables.SerialInterface
use mavtables.SerialInterface.{SerialInterface}
use mavtables.ConfigParser.Interfaces.{Interface, udp, serial}

-- The signals of the queues of all connections, and the state.
abbrev pub Received : Type 0
Received = Result (Unit {0}) × List Heard × Interface × Network

abbrev pub of_udp : UdpInterface.Received → Received
of_udp (r, heard, u, net) = (r, heard, udp u, net)

abbrev pub of_serial : Result (Unit {0}) × List Heard × SerialInterface × Network → Received
of_serial (r, heard, s, net) = (r, heard, serial s, net)

module _ (timeout : ℕ) (lib : Library) (send_on : Packet → Connection → Connection.Sent)
    (now : ℕ → ℕ) where
  unfoldable pub receive_packet : Bytes × IpAddress → Interface → Network → Received
  receive_packet d (udp u) net =
      of_udp (UdpInterface.receive_packet timeout lib send_on now d u net)
  receive_packet d (serial s) net =
      of_serial (SerialInterface.receive_packet lib send_on now d.0 s net)

-- What a call of `send_packet` returns or throws, and the state.
abbrev pub Sent : Type 0
Sent = Result (Unit {0}) × Interface × Network

module _ (transmit : Bytes → IpAddress → Result (Unit {0}))
    (write : Bytes → Result (Unit {0})) where
  abbrev pub sent_udp : Option (UdpInterface.Delivered transmit) → Option Sent
  sent_udp none = none
  sent_udp (some (r, out, u, net)) = some (r, udp u, net)

  abbrev pub sent_serial : SerialInterface → Network → Option SerialInterface.Written → Option Sent
  sent_serial s net none = none
  sent_serial s net (some (r, out, store)) = some (r, serial s, record net { store = store })

  -- `send_packet`, and `none` while it waits for a packet.
  unfoldable pub send_packet : ℤ → Bool → Interface → Network → Option Sent
  send_packet timeout expired (udp u) net =
      sent_udp (UdpInterface.send_packet transmit expired u net)
  send_packet timeout expired (serial s) net =
      sent_serial s net (SerialInterface.send_packet write timeout expired s net.store)
