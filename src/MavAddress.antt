-- ===== src/MavAddress.antt =====
-- src/MAVAddress.hpp and src/MAVAddress.cpp: a MAVLink address, the system ID in the high byte of
-- a 16 bit number and the component ID in the low one.
pub mod Fields
pub mod Parse
use Prim.Native.Nat.{bit_and, bit_or}
use mavtables.Prelude.{
  ℕ, suc, ◌*◌, ◌/◌, ◌^◌, ◌<◌, Bool, true, false, not, ◌||◌, ◌&&◌, Option, none, some, List, [], ◌∷◌,
  ◌++◌, map, Bytes, length, get_last?, ltb, leb, ◌==◌, if◌then◌else◌,
}
use mavtables.Prelude.Exception.{Result, ok, err, invalid_argument, out_of_range}
use mavtables.Text.{is_digit, extract_all, decimal}

pub record MavAddress : Type 0 where
  pub address : ℕ

-- What every constructor establishes.
abbrev pub IsValid : MavAddress → Type 0
IsValid a = a.address < 65536

unfoldable pub of_address : ℕ → Result MavAddress
of_address address =
    if ltb 65535 address then err out_of_range else ok (record { address = address })

unfoldable pub construct : ℕ → ℕ → Result MavAddress
construct system component =
    if ltb 255 system
    then err out_of_range
    else if ltb 255 component
    then err out_of_range
    else ok (record { address = bit_or (bit_and (system * 2 ^ 8) 0xff00) (bit_and component 0xff) })

unfoldable pub system : MavAddress → ℕ
system a = bit_and (a.address / 2 ^ 8) 0xff

unfoldable pub component : MavAddress → ℕ
component a = bit_and a.address 0xff

-- `isdigit(address.front())` and `isdigit(address.back())` of a string that is not empty.
unfoldable pub digit_at : Option ℕ → Bool
digit_at none = false
digit_at (some c) = is_digit c

unfoldable pub first? : Bytes → Option ℕ
first? [] = none
first? (c ∷ s) = some c

unfoldable pub all_address_chars : Bytes → Bool
all_address_chars [] = true
all_address_chars (c ∷ s) = (c == b'.' || is_digit c) && all_address_chars s

pub replace_dots : Bytes → Bytes
replace_dots = map (λ c. if c == b'.' then b' ' else c)

-- `octets.size() != 2 || !ss.eof()`
from_octets : List ℕ → Bool → Result MavAddress
from_octets (s ∷ c ∷ []) true = construct s c
from_octets _ _ = err invalid_argument

pub parse : Bytes → Result MavAddress
parse s =
    if ltb (length s) 3 || not (digit_at (first? s)) || not (digit_at (get_last? s))
    then err invalid_argument
    else if not (all_address_chars s)
    then err invalid_argument
    else (let (octets, eof) = extract_all 32 (suc (length s)) (replace_dots s) in
        from_octets octets eof)

unfoldable pub eq : MavAddress → MavAddress → Bool
eq lhs rhs = lhs.address == rhs.address

pub ne : MavAddress → MavAddress → Bool
ne lhs rhs = not (lhs.address == rhs.address)

unfoldable pub lt : MavAddress → MavAddress → Bool
lt lhs rhs = ltb lhs.address rhs.address

pub gt : MavAddress → MavAddress → Bool
gt lhs rhs = ltb rhs.address lhs.address

pub le : MavAddress → MavAddress → Bool
le lhs rhs = leb lhs.address rhs.address

pub ge : MavAddress → MavAddress → Bool
ge lhs rhs = leb rhs.address lhs.address

unfoldable pub print : MavAddress → Bytes
print a = decimal (system a) ++ b'.' ∷ decimal (component a)
