-- ===== src/Examples/Parsing.antt =====
-- A stream of two packets.
use mavtables.Prelude.{◌≡◌, refl, Option, [], ◌∷◌}
use mavtables.Prelude.Exception.{ok}
use mavtables.Packet.{Packet, v1, v2}
use mavtables.PacketV1
use mavtables.PacketV2
use mavtables.PacketParser.{PacketParser, fresh, feed, parse_byte, construct, waiting_for_header}
use mavtables.PacketParser.Stream.{Frame, stream, feed-stream, packet_of}
use mavtables.PacketParser.Valid.{IsValid, parse_byte-IsValid, starts}
use mavtables.PacketParser
use mavtables.Examples.Packets.{messages, heartbeat_bytes, request_bytes}

-- A byte of a packet whose beginning was lost, and a heartbeat.
abbrev heartbeat_frame : Frame messages
heartbeat_frame = record {
  junk = 9 ∷ [];
  version = v1;
  bytes = heartbeat_bytes;
  junk-IsJunk = ((refl, refl), tt);
  accepted =
      unfold construct PacketV1.construct_packet PacketV1.check_start PacketV1.check_id
        PacketV1.packet_complete PacketV1.the_header PacketV1.header PacketV1.cast_header
        PacketV1.header_complete PacketV1.starts in
      refl;
}

abbrev request_frame : Frame messages
request_frame = record {
  junk = [];
  version = v2;
  bytes = request_bytes;
  junk-IsJunk = tt;
  accepted =
      unfold construct PacketV2.construct_packet PacketV2.check_start PacketV2.check_id
        PacketV2.packet_complete PacketV2.expected_length PacketV2.the_header PacketV2.header
        PacketV2.cast_header PacketV2.header_complete PacketV2.starts in
      refl;
}

feed-stream_example :
    feed messages fresh (stream messages (heartbeat_frame ∷ request_frame ∷ []) (1 ∷ []))
    ≡ (ok (packet_of v1 heartbeat_bytes ∷ packet_of v2 request_bytes ∷ []), fresh)
feed-stream_example =
    feed-stream messages (heartbeat_frame ∷ request_frame ∷ []) (1 ∷ []) ((refl, refl), tt)

-- A parser that has read a start byte.
abbrev started : PacketParser
started = record {
  buffer = 0xfe ∷ [];
  state = waiting_for_header;
  version = v1;
  bytes_remaining = 0;
}

started-IsValid : IsValid messages started
unfolding starts PacketV1.starts PacketParser.header_complete PacketV1.header_complete
started-IsValid = ((λ e. cc), refl, refl, refl)

parse_byte-IsValid_example :
    ((packet : Option Packet) × ((parse_byte messages started 3).0 ≡ ok packet))
    × IsValid messages (parse_byte messages started 3).1
parse_byte-IsValid_example = parse_byte-IsValid messages started 3 started-IsValid
