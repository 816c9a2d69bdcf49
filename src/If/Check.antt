-- ===== src/If/Check.antt =====
-- Which packets a condition matches.
use mavtables.Prelude.{
  ℕ, ◌≡◌, refl, ◌↔◌, Bool, true, ◌&&◌, Option, none, some, arith, Bytes, ◌==◌, ==_iff,
}
use mavtables.Prelude.Exception.{ok, IsReal, >>=-IsReal}
use mavtables.MavAddress.{MavAddress, construct}
use mavtables.MavSubnet
use mavtables.MavSubnet.{MavSubnet}
use mavtables.Packet
use mavtables.Packet.{Packet, Version, v1, v2}
use mavtables.PacketV1
use mavtables.PacketV2
use mavtables.If.{If, check, check_id, check_source, check_dest}

construct-IsReal : (s c : ℕ) → IsReal (construct s c)
unfolding construct
construct-IsReal s c h = ground arith

id-IsReal : (p : Packet) → IsReal (Packet.id p)
unfolding Packet.id PacketV1.id PacketV2.id
id-IsReal p h = ground arith

source_of-IsReal : (v : Version) (bytes : Bytes) → IsReal (Packet.source_of v bytes)
unfolding Packet.source_of PacketV1.source PacketV2.source
source_of-IsReal v1 bytes =
    >>=-IsReal (PacketV1.the_header bytes) _ (λ h. ground arith)
      (λ h. construct-IsReal h.sysid h.compid)
source_of-IsReal v2 bytes =
    >>=-IsReal (PacketV2.the_header bytes) _ (λ h. ground arith)
      (λ h. construct-IsReal h.sysid h.compid)

check_id-IsReal : (id : Option ℕ) (p : Packet) → IsReal (check_id id p)
unfolding check_id
check_id-IsReal none p = λ h. cc
check_id-IsReal (some id) p = >>=-IsReal (Packet.id p) _ (id-IsReal p) (λ i h. cc)

check_source-IsReal : (s : Option MavSubnet) (p : Packet) → IsReal (check_source s p)
unfolding check_source Packet.source
check_source-IsReal none p = λ h. cc
check_source-IsReal (some subnet) p =
    >>=-IsReal (Packet.source p) _ (source_of-IsReal p.version p.bytes) (λ i h. cc)

-- `check` throws no exception of the model.
pub check-IsReal : (f : If) (p : Packet) (a : MavAddress) → IsReal (check f p a)
unfolding check
check-IsReal f p a =
    >>=-IsReal (check_id f.id p) _ (check_id-IsReal f.id p)
      (λ i. >>=-IsReal (check_source f.source p) _ (check_source-IsReal f.source p) (λ s h. cc))

-- A part of a condition that is not set matches; one that is set compares the packet's message ID,
-- or asks its subnet for the packet's source or for the address the packet is sent to.
abbrev pub MatchesId : Option ℕ → ℕ → Type 0
MatchesId none i = Unit
MatchesId (some id) i = i ≡ id

abbrev pub MatchesSubnet : Option MavSubnet → MavAddress → Type 0
MatchesSubnet none a = Unit
MatchesSubnet (some subnet) a = MavSubnet.contains subnet a ≡ true

id_part : Option ℕ → ℕ → Bool
id_part none i = true
id_part (some id) i = i == id

check_id-part :
    (id : Option ℕ) (p : Packet) {i : ℕ} → Packet.id p ≡ ok i → check_id id p ≡ ok (id_part id i)
unfolding check_id id_part
check_id-part none p h = refl
check_id-part (some id) p h = rw h

check_source-part :
    (s : Option MavSubnet) (p : Packet) {a : MavAddress}
    → Packet.source p ≡ ok a
    → check_source s p ≡ ok (check_dest s a)
unfolding check_source check_dest
check_source-part none p h = refl
check_source-part (some subnet) p h = rw h

id_part_iff : (id : Option ℕ) (i : ℕ) → (id_part id i ≡ true) ↔ MatchesId id i
unfolding id_part
id_part_iff none i = (λ h. tt, λ h. refl)
id_part_iff (some id) i = ==_iff i id

check_dest_iff :
    (s : Option MavSubnet) (a : MavAddress) → (check_dest s a ≡ true) ↔ MatchesSubnet s a
unfolding check_dest
check_dest_iff none a = (λ h. tt, λ h. refl)
check_dest_iff (some subnet) a = (λ h. h, λ h. h)

-- For a packet that has a message ID and a source, `check` returns normally, and returns true
-- exactly when all three parts of the condition match.
pub check-Matches :
    (f : If) (p : Packet) (a : MavAddress) {i : ℕ} {s : MavAddress}
    → Packet.id p ≡ ok i
    → Packet.source p ≡ ok s
    → ((b : Bool) × (check f p a ≡ ok b)
        × ((b ≡ true) ↔ (MatchesId f.id i × MatchesSubnet f.source s × MatchesSubnet f.dest a)))
unfolding check
check-Matches f p a {i} {s} hi hs = (
  id_part f.id i && check_dest f.source s && check_dest f.dest a,
  rw (check_id-part f.id p hi, check_source-part f.source p hs),
  (
    λ h. (
      (id_part_iff f.id i).0 (ground arith),
      (check_dest_iff f.source s).0 (ground arith),
      (check_dest_iff f.dest a).0 (ground arith),
    ),
    λ h. ground (
      arith,
      (id_part_iff f.id i).1 h.0,
      (check_dest_iff f.source s).1 h.1,
      (check_dest_iff f.dest a).1 h.2,
    ),
  ),
)
