-- ===== src/Examples/Shared.antt =====
-- A serial port that reads a heartbeat, beside a UDP interface on whose connection it is sent.
use mavtables.Prelude.{◌+◌, ◌^◌, ◌<◌, ◌≡◌, refl, false, some, Bytes, arith, set}
use mavtables.Prelude.Exception.{Result, ok}
use mavtables.MavAddress
use mavtables.IpAddress.{IpAddress}
use mavtables.Packet
use mavtables.Packet.{Packet}
use mavtables.PacketV1
use mavtables.PacketParser
use mavtables.PacketQueue
use mavtables.QueuedPacket
use mavtables.AddressPool
use mavtables.Connection
use mavtables.ConnectionPool
use mavtables.UdpInterface
use mavtables.UdpInterface.{Network, UdpInterface, Delivered, delivered, drain, hear, owns}
use mavtables.UdpInterface.Queued.{queued}
use mavtables.UdpInterface.Notified.{heard_callbacks}
use mavtables.UdpInterface.Permits.{IsValid}
use mavtables.Examples.Packets.{messages, heartbeat_bytes}
use mavtables.Examples.Routing.{connection, judge}
use mavtables.SerialInterface
use mavtables.SerialInterface.{SerialInterface}
use mavtables.Prelude.Int.{pos}
use mavtables.ConfigParser.Interfaces.{serial}
use mavtables.Interface
use mavtables.Interface.{Sent}
use mavtables.ConnectionPool.{Store}
use mavtables.Interface.Others.{send_on, receive_packet-others, send_packet-others}
use mavtables.Examples.Udp.{here, interface}
use mavtables.Examples.Serial.{port, wired}

wired-IsValid : IsValid interface wired
unfolding owns queued ConnectionPool.lock
wired-IsValid = ((refl, tt), ((connection, refl, refl, refl), tt), omega arith)

heard_of_port :
    let (r, signals, i, net) =
      Interface.receive_packet 5 messages
        (send_on 5 messages judge (λ i. 7 + i) (λ n. 9))
        (λ n. 9)
        (heartbeat_bytes, here)
        (serial port)
        wired in
    2 + heard_callbacks interface.connections signals < 2 ^ 64
unfolding PacketParser.start_byte PacketParser.decrement PacketParser.header_complete
    PacketParser.remaining PacketParser.header_byte PacketParser.construct PacketParser.packet_byte
    PacketParser.parse_byte Packet.source_of Packet.source Packet.dest_of Packet.dest
    Packet.set_connection PacketV1.starts PacketV1.header_complete PacketV1.cast_header
    PacketV1.header PacketV1.the_header PacketV1.packet_complete PacketV1.check_start
    PacketV1.check_id PacketV1.construct_packet PacketV1.source PacketV1.dest_system
    PacketV1.dest_component PacketV1.to_dest PacketV1.dest PacketQueue.make PacketQueue.push
    QueuedPacket.make AddressPool.make AddressPool.insert AddressPool.add AddressPool.expired
    AddressPool.erase_expired AddressPool.keys AddressPool.addresses AddressPool.find
    AddressPool.erase AddressPool.contains Connection.make Connection.add_address
    Connection.next_packet Connection.try_components Connection.send_to_address Connection.gather
    Connection.send_to_all Connection.gather_system Connection.send_to_system Connection.send_to
    Connection.send ConnectionPool.insert ConnectionPool.add ConnectionPool.lock
    ConnectionPool.sweep ConnectionPool.send UdpInterface.callbacks UdpInterface.owns
    MavAddress.construct MavAddress.system MavAddress.component MavAddress.eq MavAddress.lt
    heard_callbacks SerialInterface.parse_bytes SerialInterface.receive_packet
    Interface.receive_packet
heard_of_port = omega arith

receive_packet-others_example :
    let (r, signals, i, net) =
      Interface.receive_packet 5 messages
        (send_on 5 messages judge (λ i. 7 + i) (λ n. 9))
        (λ n. 9)
        (heartbeat_bytes, here)
        (serial port)
        wired in
    IsValid (hear signals interface) net
receive_packet-others_example =
    receive_packet-others 5 messages judge (λ i. 7 + i) (λ n. 9) (heartbeat_bytes, here)
      (serial port) interface wired wired-IsValid heard_of_port

-- A port that writes everything.
abbrev write : Bytes → Result (Unit {0})
write bytes = ok tt

abbrev refuse : Bytes → IpAddress → Result (Unit {0})
refuse bytes ip = ok tt

abbrev written : Store
written =
    set wired.store 1
      (some (record connection { queue = (PacketQueue.get_packet connection.queue).1 }))

abbrev after : Sent
after = (ok tt, serial port, record wired { store = written })

writes : Interface.send_packet refuse write (pos 0) false (serial port) wired ≡ some after
unfolding Interface.send_packet SerialInterface.send_packet ConnectionPool.lock
    Connection.next_packet PacketQueue.pop_timeout PacketQueue.get_packet PacketQueue.take_top
    QueuedPacket.lt
writes = refl

send_packet-others_example : IsValid interface after.2
send_packet-others_example =
    send_packet-others refuse write (pos 0) false (serial port) interface wired after wired-IsValid
      writes
