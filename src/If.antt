-- ===== src/If.antt =====
-- src/If.hpp and src/If.cpp: the condition of a rule.
pub mod Check
use mavtables.Prelude.{
  ℕ, ◌==◌, Bool, true, not, ◌&&◌, ◌||◌, Option, none, some, List, ◌++◌, Bytes, codes, option_eq,
}
use mavtables.Prelude.Exception.{Result, ok, ◌>>=◌}
use mavtables.Mavlink
use mavtables.Mavlink.{Library}
use mavtables.MavAddress.{MavAddress}
use mavtables.MavSubnet
use mavtables.MavSubnet.{MavSubnet}
use mavtables.Packet
use mavtables.Packet.{Packet}

pub record If : Type 0 where
  pub id : Option ℕ
  pub source : Option MavSubnet
  pub dest : Option MavSubnet

module _ (lib : Library) where
  -- `If &If::type(unsigned long)`: the name is looked up for its exception only.
  unfoldable pub type_id : If → ℕ → Result If
  type_id f id = do name ← Mavlink.name lib id; ok (record f { id = some id })

  -- `If &If::type(const std::string &)`
  unfoldable pub type_name : If → Bytes → Result If
  type_name f name = do id ← Mavlink.id lib name; ok (record f { id = some id })

  unfoldable pub make : Option ℕ → Option MavSubnet → Option MavSubnet → Result If
  unfolding type_id
  make none source dest = ok (record { id = none; source = source; dest = dest })
  make (some id) source dest = type_id (record { id = none; source = source; dest = dest }) id

unfoldable pub from : If → MavSubnet → If
from f subnet = record f { source = some subnet }

unfoldable pub to : If → MavSubnet → If
to f subnet = record f { dest = some subnet }

module _ (tokens : Bytes → List Bytes) where
  unfoldable pub from_string : If → Bytes → Result If
  unfolding from
  from_string f subnet = do s ← MavSubnet.parse tokens subnet; ok (from f s)

  unfoldable pub to_string : If → Bytes → Result If
  unfolding to
  to_string f subnet = do s ← MavSubnet.parse tokens subnet; ok (to f s)

-- The three parts of `check`. Each part that is set makes its virtual call, whatever the parts
-- before it have found.
unfoldable pub check_id : Option ℕ → Packet → Result Bool
check_id none p = ok true
check_id (some id) p = do i ← Packet.id p; ok (i == id)

unfoldable pub check_source : Option MavSubnet → Packet → Result Bool
check_source none p = ok true
check_source (some subnet) p = do a ← Packet.source p; ok (MavSubnet.contains subnet a)

unfoldable pub check_dest : Option MavSubnet → MavAddress → Bool
check_dest none a = true
check_dest (some subnet) a = MavSubnet.contains subnet a

unfoldable pub check : If → Packet → MavAddress → Result Bool
unfolding check_id check_source check_dest
check f p address = do
  i ← check_id f.id p
  s ← check_source f.source p
  ok (i && s && check_dest f.dest address)

unfoldable pub eq : If → If → Bool
eq lhs rhs =
    option_eq ◌==◌ lhs.id rhs.id
    && option_eq MavSubnet.eq lhs.source rhs.source
    && option_eq MavSubnet.eq lhs.dest rhs.dest

unfoldable pub ne : If → If → Bool
ne lhs rhs =
    not (option_eq ◌==◌ lhs.id rhs.id)
    || not (option_eq MavSubnet.eq lhs.source rhs.source)
    || not (option_eq MavSubnet.eq lhs.dest rhs.dest)

unfoldable pub print_id : Library → Option ℕ → Result Bytes
print_id lib none = ok (codes "")
print_id lib (some id) = do n ← Mavlink.name lib id; ok (codes " " ++ n)

unfoldable pub print_subnet : Bytes → Option MavSubnet → Bytes
print_subnet word none = codes ""
print_subnet word (some subnet) = word ++ MavSubnet.print subnet

unfoldable pub print_parts : Library → Option ℕ → Option MavSubnet → Option MavSubnet → Result Bytes
unfolding print_id print_subnet
print_parts lib none none none = ok (codes "if any")
print_parts lib id source dest = do
  n ← print_id lib id
  ok (
      codes "if"
      ++ (n ++ (print_subnet (codes " from ") source ++ print_subnet (codes " to ") dest)))

unfoldable pub print : Library → If → Result Bytes
unfolding print_parts
print lib f = print_parts lib f.id f.source f.dest
