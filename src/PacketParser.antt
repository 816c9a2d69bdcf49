-- ===== src/PacketParser.antt =====
-- src/PacketParser.hpp and src/PacketParser.cpp: packets from a stream of bytes. A step takes the
-- parser and a byte, and gives what `parse_byte` returns or throws and the parser afterwards.
pub mod Wire
pub mod Stream
pub mod Expected
pub mod Valid
use mavtables.Prelude.{
  ℕ, zero, suc, ◌+◌, ◌-◌, ◌^◌, Bool, true, false, Option, none, some, List, [], ◌∷◌, ◌++◌, Bytes,
  length, ◌==◌, if◌then◌else◌,
}
use mavtables.Prelude.Exception.{Exception, Result, ok, err, invalid_packet_id_error, ◌>>=◌}
use mavtables.Mavlink.{Library}
use mavtables.Packet.{Packet, Version, v1, v2}
use mavtables.PacketV1
use mavtables.PacketV2

pub data State : Type 0 where
  waiting_for_start_byte waiting_for_header waiting_for_packet : State

pub record PacketParser : Type 0 where
  pub buffer : Bytes
  pub state : State
  pub version : Version
  pub bytes_remaining : ℕ

abbrev pub Step : Type 0
Step = Result (Option Packet) × PacketParser

-- The constructor and `clear` leave the same parser.
abbrev pub fresh : PacketParser
fresh = record { buffer = []; state = waiting_for_start_byte; version = v2; bytes_remaining = 0 }

unfoldable pub clear : PacketParser → PacketParser
clear p = fresh

unfoldable pub bytes_parsed : PacketParser → ℕ
bytes_parsed p = length p.buffer

abbrev pub push : PacketParser → ℕ → PacketParser
push p byte = record p { buffer = p.buffer ++ byte ∷ [] }

unfoldable pub start_byte : PacketParser → ℕ → PacketParser
start_byte p byte =
    if byte == PacketV1.start_byte
    then record (push p byte) { state = waiting_for_header; version = v1 }
    else if byte == PacketV2.start_byte
    then record (push p byte) { state = waiting_for_header; version = v2 }
    else p

-- `--bytes_remaining_` of a `size_t`.
unfoldable pub decrement : ℕ → ℕ
decrement zero = 2 ^ 64 - 1
decrement (suc n) = n

unfoldable pub header_complete : Version → Bytes → Bool
header_complete v1 = PacketV1.header_complete
header_complete v2 = PacketV2.header_complete

module _ (lib : Library) where
  -- "Set number of expected bytes."
  unfoldable pub remaining : Version → Bytes → Result ℕ
  remaining v1 buffer = do h ← PacketV1.the_header buffer; ok (h.len + PacketV1.checksum_length)
  remaining v2 buffer = do
    h ← PacketV2.the_header buffer
    signed ← PacketV2.is_signed lib buffer
    let count = h.len + PacketV2.checksum_length
    ok (if signed then count + PacketV2.signature_length else count)

  abbrev pub await_packet : Result ℕ → PacketParser → Step
  await_packet (ok n) p = (ok none, record p { bytes_remaining = n; state = waiting_for_packet })
  await_packet (err e) p = (err e, p)

  unfoldable pub header_byte : PacketParser → ℕ → Step
  unfolding header_complete remaining
  header_byte p byte =
      let pushed = push p byte in
      if header_complete p.version pushed.buffer
      then await_packet (remaining p.version pushed.buffer) pushed
      else (ok none, pushed)

  unfoldable pub construct : Version → Bytes → Result Bytes
  construct v1 = PacketV1.construct_packet lib
  construct v2 = PacketV2.construct_packet lib

  -- The handler for an unknown message ID prints it; another exception would leave the parser with
  -- the buffer moved out.
  abbrev pub deliver : Version → Result Bytes → PacketParser → Step
  deliver v (ok bytes) p =
      (ok (some (record { version = v; bytes = bytes; connection = none })), fresh)
  deliver v (err (invalid_packet_id_error id)) p = (ok none, fresh)
  deliver v (err e) p = (err e, record p { buffer = [] })

  unfoldable pub packet_byte : PacketParser → ℕ → Step
  unfolding decrement construct
  packet_byte p byte =
      let pushed = record (push p byte) { bytes_remaining = decrement p.bytes_remaining } in
      if pushed.bytes_remaining == 0
      then deliver p.version (construct p.version pushed.buffer) pushed
      else (ok none, pushed)

  abbrev pub dispatch : State → PacketParser → ℕ → Step
  dispatch waiting_for_start_byte p byte = (ok none, start_byte p byte)
  dispatch waiting_for_header p byte = header_byte p byte
  dispatch waiting_for_packet p byte = packet_byte p byte

  unfoldable pub parse_byte : PacketParser → ℕ → Step
  unfolding start_byte header_byte packet_byte
  parse_byte p byte = dispatch p.state p byte

  -- The packets that a stream of bytes gives, in order.
  abbrev pub keep :
      Option Packet → Result (List Packet) × PacketParser → Result (List Packet) × PacketParser
  keep none rest = rest
  keep (some packet) (ok packets, p) = (ok (packet ∷ packets), p)
  keep (some packet) (err e, p) = (err e, p)

  abbrev pub continue_with :
      Step
      → (PacketParser → Result (List Packet) × PacketParser)
      → Result (List Packet) × PacketParser
  continue_with (ok packet, p) rest = keep packet (rest p)
  continue_with (err e, p) rest = (err e, p)

  unfoldable pub feed : PacketParser → Bytes → Result (List Packet) × PacketParser
  unfolding parse_byte
  feed p [] = (ok [], p)
  feed p (byte ∷ bytes) = continue_with (parse_byte p byte) (λ q. feed q bytes)
