-- ===== src/Examples/Serial.antt =====
-- A serial port that reads a heartbeat.
use mavtables.Prelude.{◌+◌, ◌≡◌, refl, some, [], ◌∷◌}
use mavtables.Prelude.Exception.{ok}
use mavtables.Packet.{v1}
use mavtables.Packet
use mavtables.PacketV1
use mavtables.PacketParser
use mavtables.PacketParser.{feed, fresh}
use mavtables.Connection
use mavtables.Connection.{Connection, Sent}
use mavtables.UdpInterface.{Network}
use mavtables.SerialInterface.{SerialInterface, receive_packet}
use mavtables.SerialInterface.Deliver.{deliver, receive_packet-deliver}
use mavtables.Examples.Packets.{messages, heartbeat, heartbeat_bytes}
use mavtables.Examples.Routing.{connection, judge}

abbrev pub port : SerialInterface
port = record { connection = 1; parser = fresh }

abbrev pub wired : Network
wired = record {
  pool = record { connections = 0 ∷ 1 ∷ [] };
  store = some connection ∷ some connection ∷ [];
}

abbrev send_on : Packet.Packet → Connection → Sent
send_on packet c = Connection.send judge messages (λ i. 7 + i) (some packet) c

parsed : (feed messages fresh heartbeat_bytes).0 ≡ ok (heartbeat ∷ [])
unfolding PacketParser.start_byte PacketParser.decrement PacketParser.header_complete
    PacketParser.remaining PacketParser.header_byte PacketParser.construct PacketParser.packet_byte
    PacketParser.parse_byte PacketParser.feed PacketV1.starts PacketV1.header_complete
    PacketV1.cast_header PacketV1.header PacketV1.the_header PacketV1.packet_complete
    PacketV1.check_start PacketV1.check_id PacketV1.construct_packet
parsed = refl

receive_packet-deliver_example :
    let (r, heard, s', net') =
      receive_packet messages send_on (λ n. 7) heartbeat_bytes port wired in
    (r, heard, net') ≡ deliver send_on 1 7 (heartbeat ∷ []) wired
receive_packet-deliver_example =
    receive_packet-deliver send_on 7 messages heartbeat_bytes port wired (heartbeat ∷ []) parsed
