-- ===== src/PacketV2.antt =====
-- src/PacketVersion2.hpp and src/PacketVersion2.cpp: packets of the MAVLink 2.0 wire protocol. The
-- values of the constants are those that the header's comments give.
pub mod Construct
pub mod Outcome
pub mod Dest
use mavtables.Prelude.{
  ℕ, ◌+◌, ◌*◌, ◌^◌, ◌<◌, Bool, true, false, not, Option, none, some, List, [], ◌∷◌, Bytes, length,
  get_elem?, ltb, leb, ◌==◌, ◌&&◌, if◌then◌else◌,
}
use mavtables.Prelude.Exception.{
  Result, ok, err, invalid_argument, length_error, invalid_packet_id_error, undefined_behaviour,
  ◌>>=◌, ◌>>◌, byte_at,
}
use mavtables.Mavlink.{Library, MessageEntry}
use mavtables.MavAddress.{MavAddress, construct}

abbrev pub start_byte : ℕ
start_byte = 0xfd

abbrev pub header_length : ℕ
header_length = 10

abbrev pub checksum_length : ℕ
checksum_length = 2

abbrev pub signature_length : ℕ
signature_length = 13

-- `mavlink::v2_header`
pub record Header : Type 0 where
  pub magic : ℕ
  pub len : ℕ
  pub incompat_flags : ℕ
  pub compat_flags : ℕ
  pub seq : ℕ
  pub sysid : ℕ
  pub compid : ℕ
  pub msgid : ℕ

-- `data.front()` is read only of a vector that is not empty.
unfoldable pub starts : Bytes → Bool
starts [] = false
starts (b ∷ bytes) = b == start_byte

unfoldable pub header_complete : Bytes → Bool
unfolding starts
header_complete bytes = leb header_length (length bytes) && starts bytes

-- The cast of `&data[0]` to a pointer to the packed structure; `msgid` is a field of 24 bits, the
-- lowest byte first.
unfoldable pub cast_header : Bytes → Option Header
cast_header
      (magic ∷ len ∷ incompat ∷ compat ∷ seq ∷ sysid ∷ compid ∷ id_low ∷ id_mid ∷ id_high ∷ rest) =
    some (record {
      magic = magic;
      len = len;
      incompat_flags = incompat;
      compat_flags = compat;
      seq = seq;
      sysid = sysid;
      compid = compid;
      msgid = id_low + id_mid * 2 ^ 8 + id_high * 2 ^ 16;
    })
cast_header _ = none

unfoldable pub header : Bytes → Option Header
unfolding cast_header header_complete
header bytes = if header_complete bytes then cast_header bytes else none

-- `header(data)->…`
unfoldable pub the_header : Bytes → Result Header
unfolding header
the_header bytes = elim (header bytes) [ some h ↦ ok h | none ↦ err undefined_behaviour ]

unfoldable pub check_start : Bytes → Result (Unit {0})
unfolding header_complete
check_start [] = err length_error
check_start (b ∷ bytes) =
    if header_complete (b ∷ bytes)
    then ok tt
    else if not (b == start_byte)
    then err invalid_argument
    else err length_error

module _ (lib : Library) where
  unfoldable pub is_signed : Bytes → Result Bool
  unfolding the_header header_complete
  is_signed bytes =
      if not (header_complete bytes)
      then err invalid_argument
      else (do h ← the_header bytes; ok (lib.has_signature h.incompat_flags))

  unfoldable pub expected_length : Header → ℕ
  expected_length h =
      let unsigned = header_length + h.len + checksum_length in
      if lib.has_signature h.incompat_flags then unsigned + signature_length else unsigned

  unfoldable pub packet_complete : Bytes → Bool
  unfolding header expected_length
  packet_complete bytes = elim (header bytes) [
    | some h ↦ length bytes == expected_length h
    | none ↦ false
  ]

  unfoldable pub check_id : ℕ → Result (Unit {0})
  check_id msgid = elim (lib.message_info_by_id msgid) [
    | some info ↦ ok tt
    | none ↦ err (invalid_packet_id_error msgid)
  ]

  -- The constructor: the bytes are kept if the checks pass.
  unfoldable pub construct_packet : Bytes → Result Bytes
  unfolding check_start check_id packet_complete the_header
  construct_packet bytes = do
    check_start bytes
    h ← the_header bytes
    check_id h.msgid
    if packet_complete bytes then ok bytes else err length_error

  unfoldable pub name : Bytes → Result Bytes
  unfolding the_header
  name bytes = do
    h ← the_header bytes
    elim (lib.message_info_by_id h.msgid) [
      | some info ↦ ok info.name
      | none ↦ err (invalid_packet_id_error h.msgid)
    ]

unfoldable pub id : Bytes → Result ℕ
unfolding the_header
id bytes = do h ← the_header bytes; ok h.msgid

unfoldable pub source : Bytes → Result MavAddress
unfolding the_header
source bytes = do h ← the_header bytes; construct h.sysid h.compid

-- `none` is the -1 with which `dest_system` begins.
unfoldable pub dest_system : Bytes → Header → MessageEntry → Result (Option ℕ)
dest_system bytes h e =
    if e.have_target_system
    then (if ltb e.target_system_ofs h.len
        then (do b ← byte_at bytes (e.target_system_ofs + header_length); ok (some b))
        else ok (some 0))
    else ok none

unfoldable pub dest_component : Bytes → Header → MessageEntry → Result ℕ
dest_component bytes h e =
    if e.have_target_component
    then (if ltb e.target_component_ofs h.len
        then byte_at bytes (e.target_component_ofs + header_length)
        else ok 0)
    else ok 0

unfoldable pub to_dest : Option ℕ → ℕ → Result (Option MavAddress)
to_dest none component = ok none
to_dest (some system) component = do a ← construct system component; ok (some a)

module _ (lib : Library) where
  unfoldable pub dest : Bytes → Result (Option MavAddress)
  unfolding the_header dest_system dest_component to_dest
  dest bytes = do
    h ← the_header bytes
    elim (lib.msg_entry h.msgid) [
      | some e ↦ (do
        system ← dest_system bytes h e
        component ← dest_component bytes h e
        to_dest system component)
      | none ↦ err (invalid_packet_id_error h.msgid)
    ]
