-- ===== src/IpAddress.antt =====
-- src/IPAddress.hpp and src/IPAddress.cpp: an IP address of 32 bits and a port. The parts that
-- `boost::split` makes of a string at every ':' are a parameter of `parse`.
pub mod Octets
pub mod Parse
pub mod Order
pub mod Lookup
use mavtables.Prelude.{
  ℕ, suc, ◌+◌, ◌*◌, ◌/◌, ◌%◌, ◌^◌, ◌<◌, Bool, true, false, not, ◌&&◌, ◌||◌, Option, none, some,
  List, [], ◌∷◌, ◌++◌, Bytes, codes, ltb, ◌==◌, if◌then◌else◌, length, get_last?,
}
use Prim.Native.Nat.{bit_or}
use mavtables.Prelude.Exception.{Result, ok, err, invalid_argument, out_of_range, ◌>>=◌, ◌>>◌}
use mavtables.Text.{Extracted, stored, failed, extract_unsigned, extract_all, decimal}
use mavtables.MavAddress.{digit_at, first?, all_address_chars, replace_dots}

pub record IpAddress : Type 0 where
  pub address : ℕ
  pub port : ℕ

-- What every constructor establishes.
abbrev pub IsValid : IpAddress → Type 0
IsValid a = (a.address < 2 ^ 32) × (a.port < 65536)

unfoldable pub construct : ℕ → ℕ → Result IpAddress
construct address port =
    if ltb 0xffffffff address
    then err out_of_range
    else if ltb 65535 port
    then err out_of_range
    else ok (record { address = address; port = port })

unfoldable pub with_port : IpAddress → ℕ → Result IpAddress
unfolding construct
with_port other port = construct other.address port

-- `port` after `istringstream(parts.back()) >> port`, which begins at zero.
unfoldable pub port_of : Extracted ℕ → ℕ
port_of (stored n rest) = n
port_of (failed (some n) rest) = n
port_of (failed none rest) = 0

unfoldable pub check_octets : List ℕ → Result (Unit {0})
check_octets [] = ok tt
check_octets (octet ∷ octets) =
    let rest = check_octets octets in if ltb 255 octet then err out_of_range else rest

unfoldable pub from_octets : List ℕ → ℕ → Result IpAddress
unfolding check_octets construct
from_octets (a ∷ b ∷ c ∷ d ∷ []) port = do
  check_octets (a ∷ b ∷ c ∷ d ∷ [])
  construct (bit_or (bit_or (bit_or (a * 2 ^ 24) (b * 2 ^ 16)) (c * 2 ^ 8)) d) port
from_octets _ port = err invalid_argument

-- The address without its port.
unfoldable pub parse_octets : Bytes → ℕ → Result IpAddress
unfolding from_octets
parse_octets s port =
    if ltb (length s) 7 || not (digit_at (first? s)) || not (digit_at (get_last? s))
    then err invalid_argument
    else if not (all_address_chars s)
    then err invalid_argument
    else from_octets (extract_all 64 (suc (length s)) (replace_dots s)).0 port

unfoldable pub parse_parts : List Bytes → Result IpAddress
unfolding port_of parse_octets
parse_parts (address ∷ []) = parse_octets address 0
parse_parts (address ∷ port ∷ []) = parse_octets address (port_of (extract_unsigned 32 port))
parse_parts _ = err invalid_argument

unfoldable pub parse : (Bytes → List Bytes) → Bytes → Result IpAddress
unfolding parse_parts
parse parts s = parse_parts (parts s)

unfoldable pub eq : IpAddress → IpAddress → Bool
eq lhs rhs = (lhs.address == rhs.address) && (lhs.port == rhs.port)

unfoldable pub ne : IpAddress → IpAddress → Bool
ne lhs rhs = not (lhs.address == rhs.address) || not (lhs.port == rhs.port)

unfoldable pub lt : IpAddress → IpAddress → Bool
lt lhs rhs = ltb lhs.address rhs.address || ((lhs.address == rhs.address) && ltb lhs.port rhs.port)

unfoldable pub gt : IpAddress → IpAddress → Bool
gt lhs rhs = ltb rhs.address lhs.address || ((lhs.address == rhs.address) && ltb rhs.port lhs.port)

unfoldable pub le : IpAddress → IpAddress → Bool
unfolding lt eq
le lhs rhs = lt lhs rhs || eq lhs rhs

unfoldable pub ge : IpAddress → IpAddress → Bool
unfolding gt eq
ge lhs rhs = gt lhs rhs || eq lhs rhs

-- `to_bytes(address_)[i]`
unfoldable pub octet : ℕ → IpAddress → ℕ
octet i a = a.address / 2 ^ (8 * i) % 256

unfoldable pub print_port : ℕ → Bytes
print_port port = if port == 0 then codes "" else b':' ∷ decimal port

unfoldable pub print : IpAddress → Bytes
unfolding octet print_port
print a =
    decimal (octet 3 a)
    ++ (b'.'
        ∷ (decimal (octet 2 a)
            ++ (b'.'
                ∷ (decimal (octet 1 a) ++ (b'.' ∷ (decimal (octet 0 a) ++ print_port a.port))))))
