-- ===== src/Packet.antt =====
-- src/Packet.hpp and src/Packet.cpp: the base class of the two packet classes. The version stands
-- for the class of the object, and picks the method that a virtual call runs.
use mavtables.Prelude.{
  ℕ, ◌/◌, ◌^◌, Bool, not, Option, none, some, ◌++◌, Bytes, codes, list_eq, ◌==◌,
}
use Prim.Native.Nat.{bit_and}
use mavtables.Prelude.Exception.{Result, ok, ◌>>=◌}
use mavtables.Text.{decimal}
use mavtables.Mavlink.{Library}
use mavtables.MavAddress
use mavtables.MavAddress.{MavAddress}
use mavtables.PacketV1
use mavtables.PacketV2

pub data Version : Type 0 where
  v1 v2 : Version

unfoldable pub version_number : Version → ℕ
version_number v1 = 0x0100
version_number v2 = 0x0200

-- `connection` is the identity of the source connection, if there is one and it still exists.
pub record Packet : Type 0 where
  pub version : Version
  pub bytes : Bytes
  pub connection : Option ℕ

unfoldable pub id_of : Version → Bytes → Result ℕ
id_of v1 = PacketV1.id
id_of v2 = PacketV2.id

unfoldable pub id : Packet → Result ℕ
unfolding id_of
id p = id_of p.version p.bytes

unfoldable pub source_of : Version → Bytes → Result MavAddress
source_of v1 = PacketV1.source
source_of v2 = PacketV2.source

unfoldable pub source : Packet → Result MavAddress
unfolding source_of
source p = source_of p.version p.bytes

module _ (lib : Library) where
  unfoldable pub name_of : Version → Bytes → Result Bytes
  name_of v1 = PacketV1.name lib
  name_of v2 = PacketV2.name lib

  unfoldable pub name : Packet → Result Bytes
  unfolding name_of
  name p = name_of p.version p.bytes

  unfoldable pub dest_of : Version → Bytes → Result (Option MavAddress)
  dest_of v1 = PacketV1.dest lib
  dest_of v2 = PacketV2.dest lib

  unfoldable pub dest : Packet → Result (Option MavAddress)
  unfolding dest_of
  dest p = dest_of p.version p.bytes

unfoldable pub set_connection : Packet → Option ℕ → Packet
set_connection p connection = record p { connection = connection }

unfoldable pub eq : Packet → Packet → Bool
eq lhs rhs = list_eq ◌==◌ lhs.bytes rhs.bytes

unfoldable pub ne : Packet → Packet → Bool
ne lhs rhs = not (list_eq ◌==◌ lhs.bytes rhs.bytes)

unfoldable pub print_dest : Option MavAddress → Bytes
print_dest none = codes ""
print_dest (some a) = codes " to " ++ MavAddress.print a

unfoldable pub print_version : Version → Bytes
unfolding version_number
print_version v =
    let n = version_number v in
    codes " (v"
    ++ (decimal (bit_and n 0xff00 / 2 ^ 8)
        ++ (codes "." ++ (decimal (bit_and n 0x00ff) ++ codes ")")))

unfoldable pub print : Library → Packet → Result Bytes
unfolding print_dest print_version
print lib p = do
  n ← name lib p
  i ← id p
  s ← source p
  d ← dest lib p
  ok (
      n
      ++ (codes " (#"
          ++ (decimal i
              ++ (codes ")"
                  ++ (codes " from "
                      ++ (MavAddress.print s ++ (print_dest d ++ print_version p.version)))))))
