-- ===== src/Examples/Udp.antt =====
-- A UDP interface with one connection, on which two packets wait, and a datagram of another host.
use mavtables.Prelude.{◌+◌, ◌*◌, ◌^◌, ◌<◌, ◌≡◌, refl, true, false, some, [], ◌∷◌, Bytes, arith}
use mavtables.Prelude.Exception.{Result, ok}
use mavtables.MavAddress
use mavtables.IpAddress
use mavtables.IpAddress.{IpAddress}
use mavtables.Packet
use mavtables.Packet.{Packet}
use mavtables.PacketV1
use mavtables.PacketParser
use mavtables.PacketQueue
use mavtables.QueuedPacket
use mavtables.AddressPool
use mavtables.Connection
use mavtables.ConnectionPool
use mavtables.ConnectionFactory
use mavtables.ConnectionFactory.{ConnectionFactory}
use mavtables.Semaphore
use mavtables.UdpInterface
use mavtables.UdpInterface.{
  Network, UdpInterface, Delivered, delivered, drain, send_packet, receive_packet, hear, owns,
}
use mavtables.UdpInterface.Queued.{queued}
use mavtables.UdpInterface.Fronts.{fronts}
use mavtables.UdpInterface.Notified.{heard_callbacks}
use mavtables.UdpInterface.Permits.{
  IsValid, IsSent, backlog, send_packet-IsSent, send_packet-fronts, rounds, rounds-empty,
}
use mavtables.UdpInterface.Receive.{send_on, receive_packet-IsValid}
use mavtables.Examples.Packets.{messages, heartbeat_bytes}
use mavtables.Examples.Routing.{connection, judge}

abbrev pub here : IpAddress
here = record { address = 127 * 2 ^ 24 + 1; port = 14500 }

abbrev there : IpAddress
there = record { address = 127 * 2 ^ 24 + 1; port = 14501 }

abbrev pub interface : UdpInterface
interface = record {
  connections = (here, 0) ∷ [];
  parser = PacketParser.fresh;
  last_ip_address = here;
  factory = record { filter_given = true; mirror = false; semaphore = record { value = 2 } };
}

abbrev network : Network
network = record { pool = record { connections = 0 ∷ [] }; store = some connection ∷ [] }

interface-IsValid : IsValid interface network
unfolding owns queued ConnectionPool.lock
interface-IsValid = ((refl, tt), ((connection, refl, refl, refl), tt), omega arith)

-- A socket that sends everything.
abbrev transmit : Bytes → IpAddress → Result (Unit {0})
transmit bytes ip = ok tt

abbrev woken_factory : ConnectionFactory
woken_factory = record { filter_given = true; mirror = false; semaphore = record { value = 1 } }

abbrev sent : Delivered transmit
sent =
    delivered transmit interface network
      (drain transmit ((here, 0) ∷ []) false (some connection ∷ []) woken_factory)

wakes_up : send_packet transmit false interface network ≡ some sent
unfolding send_packet ConnectionFactory.wait_for_packet Semaphore.wait_for
wakes_up = refl

send_packet-IsSent_example : IsSent transmit interface network sent
send_packet-IsSent_example =
    send_packet-IsSent transmit false interface network sent interface-IsValid wakes_up

send_packet-fronts_example :
    (d : Delivered transmit) × (send_packet transmit false interface network ≡ some d)
    × (d.0 ≡ ok tt)
    × (d.1 ≡ fronts ((here, 0) ∷ []) (some connection ∷ []))
send_packet-fronts_example =
    send_packet-fronts transmit false interface network (λ bytes ip. refl) interface-IsValid
      (unfold queued ConnectionPool.lock in omega arith)

rounds-empty_example :
    IsValid (rounds transmit 2 (interface, network)).0 (rounds transmit 2 (interface, network)).1
    × (backlog (rounds transmit 2 (interface, network)).0 (rounds transmit 2 (interface, network)).1
        ≡ 0)
rounds-empty_example =
    rounds-empty transmit 2 interface network interface-IsValid
      (unfold queued ConnectionPool.lock in omega arith)

heard :
    let (r, signals, u', net') =
      receive_packet 5 messages
        (send_on 5 messages judge (λ i. 7 + i) (λ n. 9))
        (λ n. 9)
        (heartbeat_bytes, there)
        interface
        network in
    2 + heard_callbacks u'.connections signals < 2 ^ 64
unfolding PacketParser.clear PacketParser.start_byte PacketParser.decrement
    PacketParser.header_complete PacketParser.remaining PacketParser.header_byte
    PacketParser.construct PacketParser.packet_byte PacketParser.parse_byte Packet.source_of
    Packet.source Packet.dest_of Packet.dest Packet.set_connection PacketV1.starts
    PacketV1.header_complete PacketV1.cast_header PacketV1.header PacketV1.the_header
    PacketV1.packet_complete PacketV1.check_start PacketV1.check_id PacketV1.construct_packet
    PacketV1.source PacketV1.dest_system PacketV1.dest_component PacketV1.to_dest PacketV1.dest
    PacketQueue.make PacketQueue.push QueuedPacket.make AddressPool.make AddressPool.insert
    AddressPool.add AddressPool.expired AddressPool.erase_expired AddressPool.keys
    AddressPool.addresses AddressPool.find AddressPool.erase AddressPool.contains Connection.make
    Connection.add_address Connection.next_packet Connection.try_components
    Connection.send_to_address Connection.gather Connection.send_to_all Connection.gather_system
    Connection.send_to_system Connection.send_to Connection.send ConnectionPool.insert
    ConnectionPool.add ConnectionPool.lock ConnectionPool.sweep ConnectionPool.send
    ConnectionFactory.make ConnectionFactory.get ConnectionFactory.wait_for_packet UdpInterface.find
    UdpInterface.insert UdpInterface.connection_for UdpInterface.update_connections
    UdpInterface.parse_bytes UdpInterface.turn_to UdpInterface.receive_packet UdpInterface.callbacks
    UdpInterface.owns IpAddress.ne IpAddress.lt MavAddress.construct MavAddress.system
    MavAddress.component MavAddress.eq MavAddress.lt heard_callbacks
heard = omega arith

receive_packet-IsValid_example :
    let (r, signals, u', net') =
      receive_packet 5 messages
        (send_on 5 messages judge (λ i. 7 + i) (λ n. 9))
        (λ n. 9)
        (heartbeat_bytes, there)
        interface
        network in
    IsValid (hear signals u') net'
receive_packet-IsValid_example =
    receive_packet-IsValid 5 messages judge (λ i. 7 + i) (λ n. 9) (heartbeat_bytes, there) interface
      network interface-IsValid heard
