-- ===== src/PacketV1/Dest.antt =====
-- The source and the destination of a version 1 packet.
use mavtables.Prelude.{◌+◌, ◌≤◌, ◌≡◌, true, some, [], ◌∷◌, arith, Bytes, All, IsByte, length}
use mavtables.Prelude.Exception.{ok, err, undefined_behaviour, byte_at-outside}
use mavtables.Mavlink.{Library, MessageEntry}
use mavtables.MavAddress.{MavAddress, system, component}
use mavtables.MavAddress.Fields.{construct-bytes}
use mavtables.PacketV1.Construct.{the_header-ok}
use mavtables.PacketV1.{
  Header, header_length, header, header_complete, cast_header, source, dest, dest_system,
}

-- The fields of a header are bytes of the packet.
header-IsByte :
    (bytes : Bytes) (h : Header)
    → All IsByte bytes
    → header bytes ≡ some h
    → IsByte h.sysid × IsByte h.compid × IsByte h.len
unfolding header header_complete cast_header
header-IsByte [] h b e = ground arith
header-IsByte (a ∷ []) h b e = ground arith
header-IsByte (a ∷ b' ∷ []) h b e = ground arith
header-IsByte (a ∷ b' ∷ d ∷ []) h b e = ground arith
header-IsByte (a ∷ b' ∷ d ∷ f ∷ []) h b e = ground arith
header-IsByte (a ∷ b' ∷ d ∷ f ∷ g ∷ []) h b e = ground arith
header-IsByte (a ∷ b' ∷ d ∷ f ∷ g ∷ i ∷ rest) h b e = ground arith

-- The source of a packet of bytes is the address of its two ID bytes; no exception is thrown.
pub source_v1-fields :
    (bytes : Bytes) (h : Header)
    → All IsByte bytes
    → header bytes ≡ some h
    → (a : MavAddress) × (source bytes ≡ ok a) × (system a ≡ h.sysid) × (component a ≡ h.compid)
unfolding source
source_v1-fields bytes h b e =
    let (sys, comp, _) = header-IsByte bytes h b e in
    rw (the_header-ok bytes h e) (construct-bytes h.sysid h.compid sys comp)

-- The payload length that a version 1 packet gives is not compared with the place of the target:
-- if the message has its target system two bytes or more behind the payload, the destination is
-- read outside of the packet.
pub dest-undefined :
    (lib : Library) (bytes : Bytes) (h : Header) (e : MessageEntry)
    → header bytes ≡ some h
    → length bytes ≡ header_length + h.len + 2
    → lib.msg_entry h.msgid ≡ some e
    → e.have_target_system ≡ true
    → h.len + 2 ≤ e.target_system_ofs
    → dest lib bytes ≡ err undefined_behaviour
unfolding dest
dest-undefined lib bytes h e complete len entry target behind =
    rw (the_header-ok bytes h complete, entry, outside)
  where
    outside : dest_system bytes e ≡ err undefined_behaviour
    outside = rw (
      dest_system,
      target,
      byte_at-outside bytes (e.target_system_ofs + header_length) (omega arith),
    )
