-- ===== src/PacketV1.antt =====
-- src/PacketVersion1.hpp and src/PacketVersion1.cpp: packets of the MAVLink 1.0 wire protocol. The
-- values of the constants are those that the header's comments give.
pub mod Construct
pub mod Dest
use mavtables.Prelude.{
  ℕ, ◌+◌, Bool, true, false, not, Option, none, some, List, [], ◌∷◌, Bytes, length, get_elem?, ltb,
  leb, ◌==◌, ◌&&◌, if◌then◌else◌,
}
use mavtables.Prelude.Exception.{
  Result, ok, err, invalid_argument, length_error, invalid_packet_id_error, undefined_behaviour,
  ◌>>=◌, ◌>>◌, byte_at,
}
use mavtables.Mavlink.{Library, MessageEntry}
use mavtables.MavAddress.{MavAddress, construct}

abbrev pub start_byte : ℕ
start_byte = 0xfe

abbrev pub header_length : ℕ
header_length = 6

abbrev pub checksum_length : ℕ
checksum_length = 2

-- `mavlink::v1_header`
pub record Header : Type 0 where
  pub magic : ℕ
  pub len : ℕ
  pub seq : ℕ
  pub sysid : ℕ
  pub compid : ℕ
  pub msgid : ℕ

-- `data.front()` is read only of a vector that is not empty.
unfoldable pub starts : Bytes → Bool
starts [] = false
starts (b ∷ bytes) = b == start_byte

unfoldable pub header_complete : Bytes → Bool
unfolding starts
header_complete bytes = leb header_length (length bytes) && starts bytes

-- The cast of `&data[0]` to a pointer to the packed structure.
unfoldable pub cast_header : Bytes → Option Header
cast_header (magic ∷ len ∷ seq ∷ sysid ∷ compid ∷ msgid ∷ rest) =
    some (record {
      magic = magic;
      len = len;
      seq = seq;
      sysid = sysid;
      compid = compid;
      msgid = msgid;
    })
cast_header _ = none

unfoldable pub header : Bytes → Option Header
unfolding cast_header header_complete
header bytes = if header_complete bytes then cast_header bytes else none

-- `header(data)->…`
unfoldable pub the_header : Bytes → Result Header
unfolding header
the_header bytes = elim (header bytes) [ some h ↦ ok h | none ↦ err undefined_behaviour ]

unfoldable pub packet_complete : Bytes → Bool
unfolding header
packet_complete bytes = elim (header bytes) [
  | some h ↦ length bytes == header_length + h.len + checksum_length
  | none ↦ false
]

unfoldable pub check_start : Bytes → Result (Unit {0})
unfolding header_complete
check_start [] = err length_error
check_start (b ∷ bytes) =
    if header_complete (b ∷ bytes)
    then ok tt
    else if not (b == start_byte)
    then err invalid_argument
    else err length_error

module _ (lib : Library) where
  unfoldable pub check_id : ℕ → Result (Unit {0})
  check_id msgid = elim (lib.message_info_by_id msgid) [
    | some info ↦ ok tt
    | none ↦ err (invalid_packet_id_error msgid)
  ]

  -- The constructor: the bytes are kept if the checks pass.
  unfoldable pub construct_packet : Bytes → Result Bytes
  unfolding check_start check_id packet_complete the_header
  construct_packet bytes = do
    check_start bytes
    h ← the_header bytes
    check_id h.msgid
    if packet_complete bytes then ok bytes else err length_error

  unfoldable pub name : Bytes → Result Bytes
  unfolding the_header
  name bytes = do
    h ← the_header bytes
    elim (lib.message_info_by_id h.msgid) [
      | some info ↦ ok info.name
      | none ↦ err (invalid_packet_id_error h.msgid)
    ]

unfoldable pub id : Bytes → Result ℕ
unfolding the_header
id bytes = do h ← the_header bytes; ok h.msgid

unfoldable pub source : Bytes → Result MavAddress
unfolding the_header
source bytes = do h ← the_header bytes; construct h.sysid h.compid

-- `none` is the -1 with which `dest_system` begins.
unfoldable pub dest_system : Bytes → MessageEntry → Result (Option ℕ)
unfolding byte_at
dest_system bytes e =
    if e.have_target_system
    then (do b ← byte_at bytes (e.target_system_ofs + header_length); ok (some b))
    else ok none

unfoldable pub dest_component : Bytes → MessageEntry → Result ℕ
unfolding byte_at
dest_component bytes e =
    if e.have_target_component then byte_at bytes (e.target_component_ofs + header_length) else ok 0

unfoldable pub to_dest : Option ℕ → ℕ → Result (Option MavAddress)
to_dest none component = ok none
to_dest (some system) component = do a ← construct system component; ok (some a)

module _ (lib : Library) where
  unfoldable pub dest : Bytes → Result (Option MavAddress)
  unfolding the_header dest_system dest_component to_dest
  dest bytes = do
    h ← the_header bytes
    elim (lib.msg_entry h.msgid) [
      | some e ↦ (do
        system ← dest_system bytes e
        component ← dest_component bytes e
        to_dest system component)
      | none ↦ err (invalid_packet_id_error h.msgid)
    ]
