-- ===== src/Examples/Packets.antt =====
-- Packets of a small message library.
use mavtables.Prelude.{
  ℕ, ◌≡◌, ◌%◌, refl, Bool, true, false, Option, none, some, [], ◌∷◌, Bytes, codes, ◌==◌,
  if◌then◌else◌, All, IsByte, arith, ltb, ◌&&◌,
}
use mavtables.Prelude.Exception.{err, undefined_behaviour}
use mavtables.Mavlink.{Library, MessageInfo, MessageEntry}
use mavtables.Packet.{Packet, v1}
use mavtables.PacketV1
use mavtables.PacketV1.Dest.{dest-undefined}
use mavtables.PacketV2
use mavtables.PacketV2.Outcome as V2Outcome
use mavtables.PacketV2.Outcome.{construct_packet_v2-Outcome}
use mavtables.PacketV2.Dest.{dest-target, IsDest}

-- Message 0 has no target; message 11 has a target system behind the four bytes of its mode, and
-- message 20 has a target component too.
abbrev info : ℕ → Option MessageInfo
info id =
    if id == 0
    then some (record { name = codes "HEARTBEAT"; msgid = 0 })
    else if id == 11
    then some (record { name = codes "SET_MODE"; msgid = 11 })
    else if id == 20
    then some (record { name = codes "PARAM_REQUEST_READ"; msgid = 20 })
    else none

abbrev entry : ℕ → Option MessageEntry
entry id =
    if id == 0
    then some (record {
      have_target_system = false;
      target_system_ofs = 0;
      have_target_component = false;
      target_component_ofs = 0;
    })
    else if id == 11
    then some (record {
      have_target_system = true;
      target_system_ofs = 4;
      have_target_component = false;
      target_component_ofs = 0;
    })
    else if id == 20
    then some (record {
      have_target_system = true;
      target_system_ofs = 2;
      have_target_component = true;
      target_component_ofs = 3;
    })
    else none

abbrev pub messages : Library
messages = record {
  message_info_by_id = info;
  message_info_by_name = λ name. none;
  msg_entry = entry;
  has_signature = λ flags. flags % 2 == 1;
}

unfoldable pub all_bytes : Bytes → Bool
all_bytes [] = true
all_bytes (b ∷ s) = ltb b 256 && all_bytes s

pub all_bytes-IsByte : (s : Bytes) → all_bytes s ≡ true → All IsByte s
unfolding all_bytes
all_bytes-IsByte [] h = tt
all_bytes-IsByte (b ∷ s) h = ground (arith, all_bytes-IsByte s)

-- A heartbeat from 127.1, with a payload of three bytes.
abbrev pub heartbeat_bytes : Bytes
heartbeat_bytes = 0xfe ∷ 3 ∷ 7 ∷ 127 ∷ 1 ∷ 0 ∷ 4 ∷ 5 ∷ 6 ∷ 170 ∷ 187 ∷ []

abbrev pub heartbeat : Packet
heartbeat = record { version = v1; bytes = heartbeat_bytes; connection = none }

-- A request to system 9, whose component is cut off the end of the payload.
abbrev pub request_bytes : Bytes
request_bytes = 0xfd ∷ 3 ∷ 0 ∷ 0 ∷ 7 ∷ 192 ∷ 168 ∷ 20 ∷ 0 ∷ 0 ∷ 1 ∷ 2 ∷ 9 ∷ 170 ∷ 187 ∷ []

abbrev pub request_header : PacketV2.Header
request_header = record {
  magic = 0xfd;
  len = 3;
  incompat_flags = 0;
  compat_flags = 0;
  seq = 7;
  sysid = 192;
  compid = 168;
  msgid = 20;
}

abbrev request_entry : MessageEntry
request_entry = record {
  have_target_system = true;
  target_system_ofs = 2;
  have_target_component = true;
  target_component_ofs = 3;
}

construct_packet_v2-Outcome_example :
    V2Outcome.Outcome messages request_bytes (PacketV2.construct_packet messages request_bytes)
construct_packet_v2-Outcome_example = construct_packet_v2-Outcome messages request_bytes

dest-target_example :
    IsDest messages request_bytes request_header request_entry
      (PacketV2.dest messages request_bytes)
unfolding PacketV2.expected_length
dest-target_example =
    dest-target messages request_bytes request_header request_entry request_IsByte read refl refl
  where
    request_IsByte : All IsByte request_bytes
    request_IsByte = all_bytes-IsByte request_bytes (unfold all_bytes in refl)

    read : PacketV2.header request_bytes ≡ some request_header
    read =
        unfold PacketV2.header PacketV2.cast_header PacketV2.header_complete PacketV2.starts in refl

-- A version 1 message with too short a payload for its target.
abbrev short_bytes : Bytes
short_bytes = 0xfe ∷ 1 ∷ 7 ∷ 127 ∷ 1 ∷ 11 ∷ 4 ∷ 170 ∷ 187 ∷ []

dest-undefined_example : PacketV1.dest messages short_bytes ≡ err undefined_behaviour
dest-undefined_example =
    dest-undefined messages short_bytes
      (record { magic = 0xfe; len = 1; seq = 7; sysid = 127; compid = 1; msgid = 11 })
      (record {
        have_target_system = true;
        target_system_ofs = 4;
        have_target_component = false;
        target_component_ofs = 0;
      })
      (unfold PacketV1.header PacketV1.cast_header PacketV1.header_complete PacketV1.starts in refl)
      refl refl refl (omega arith)
