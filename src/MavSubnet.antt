-- ===== src/MavSubnet.antt =====
-- src/MAVSubnet.hpp and src/MAVSubnet.cpp: a MAVLink subnet, an address and a 16 bit mask.
-- The tokens that `boost::tokenizer` with `char_separator("", ":/\\")` makes of a string are a
-- parameter of `parse`.
pub mod Contains
pub mod Parse
pub mod Malformed
use Prim.Native.Nat.{bit_and, bit_or}
use mavtables.Prelude.{
  ℕ, ◌-◌, ◌*◌, ◌^◌, ◌<◌, Bool, true, false, not, ◌||◌, ◌&&◌, Option, none, some, List, [], ◌∷◌,
  ◌++◌, Bytes, codes, ltb, ◌==◌, if◌then◌else◌,
}
use mavtables.Prelude.Int.{ℤ, pos, negsuc}
use mavtables.Prelude.Exception.{
  Result, ok, err, invalid_argument, out_of_range, undefined_behaviour, ◌>>=◌,
}
use mavtables.Text.{Extracted, stored, failed, extract_int}
use mavtables.MavAddress
use mavtables.MavAddress.{MavAddress}

pub record MavSubnet : Type 0 where
  pub address : MavAddress
  pub mask : ℕ

abbrev pub IsValid : MavSubnet → Type 0
IsValid s = MavAddress.IsValid s.address × (s.mask < 65536)

pub of_mask : MavAddress → ℕ → Result MavSubnet
of_mask address mask =
    if ltb 0xffff mask then err out_of_range else ok (record { address = address; mask = mask })

pub of_masks : MavAddress → ℕ → ℕ → Result MavSubnet
of_masks address system_mask component_mask =
    if ltb 0xff system_mask
    then err out_of_range
    else if ltb 0xff component_mask
    then err out_of_range
    else ok (record {
      address = address;
      mask = bit_or (bit_and (system_mask * 2 ^ 8) 0xff00) (bit_and component_mask 0x00ff);
    })

-- `(0xFFFF << (16 - slashmask)) & 0xFFFF`
unfoldable pub slash_mask : ℕ → ℕ
slash_mask bits = bit_and (0xffff * 2 ^ (16 - bits)) 0xffff

-- `(0xFFFF << (8 - slashmask)) & 0x00FF`
unfoldable pub backslash_mask : ℕ → ℕ
backslash_mask bits = bit_and (0xffff * 2 ^ (8 - bits)) 0x00ff

-- `slashmask` after `istringstream(parts.at(2)) >> slashmask`. It has no initial value, so where
-- the extraction stores nothing the code goes on with an indeterminate one.
pub slash_bits : Extracted ℤ → Result ℤ
slash_bits (stored n rest) = ok n
slash_bits (failed (some n) rest) = ok n
slash_bits (failed none rest) = err undefined_behaviour

-- `slashmask < 0 || slashmask > limit`
pub mask_of_bits : ℕ → (ℕ → ℕ) → ℤ → Result ℕ
mask_of_bits limit mask (negsuc n) = err out_of_range
mask_of_bits limit mask (pos n) = if ltb limit n then err out_of_range else ok (mask n)

-- The handler of the ':' case turns one `invalid_argument` into another.
pub colon_mask : Result MavAddress → Result ℕ
colon_mask (ok a) = ok a.address
colon_mask (err invalid_argument) = err invalid_argument
colon_mask (err e) = err e

-- `switch (parts[1].at(0))`; a byte that no case names would leave the mask without a value.
pub parse_mask : Option ℕ → Bytes → Result ℕ
unfolding slash_mask backslash_mask slash_bits mask_of_bits colon_mask
parse_mask none part = err out_of_range
parse_mask (some c) part =
    if c == b':'
    then colon_mask (MavAddress.parse part)
    else if c == b'/'
    then (do bits ← slash_bits (extract_int part); mask_of_bits 16 slash_mask bits)
    else if c == b'\\'
    then (do bits ← slash_bits (extract_int part); mask_of_bits 8 backslash_mask bits)
    else err undefined_behaviour

pub parse_parts : List Bytes → Result MavSubnet
parse_parts (first ∷ separator ∷ last ∷ []) = do
  address ← MavAddress.parse first
  mask ← parse_mask (MavAddress.first? separator) last
  ok (record { address = address; mask = mask })
parse_parts _ = err invalid_argument

-- An address alone is an exact match; any exception of that attempt is caught.
pub parse : (Bytes → List Bytes) → Bytes → Result MavSubnet
parse tokens s = elim (MavAddress.parse s) [
  | ok address ↦ ok (record { address = address; mask = 0xffff })
  | err e ↦ parse_parts (tokens s)
]

unfoldable pub contains : MavSubnet → MavAddress → Bool
contains s a = bit_and a.address s.mask == bit_and s.address.address s.mask

pub eq : MavSubnet → MavSubnet → Bool
eq lhs rhs = MavAddress.eq lhs.address rhs.address && (lhs.mask == rhs.mask)

pub ne : MavSubnet → MavSubnet → Bool
ne lhs rhs = MavAddress.ne lhs.address rhs.address || not (lhs.mask == rhs.mask)

-- The cases of the `switch` in `operator<<`.
abbrev pub suffixes : List (ℕ × Bytes)
suffixes =
    (0b1111111111111111, codes "")
    ∷ (0b1111111111111110, codes "/15")
    ∷ (0b1111111111111100, codes "/14")
    ∷ (0b1111111111111000, codes "/13")
    ∷ (0b1111111111110000, codes "/12")
    ∷ (0b1111111111100000, codes "/11")
    ∷ (0b1111111111000000, codes "/10")
    ∷ (0b1111111110000000, codes "/9")
    ∷ (0b1111111100000000, codes "/8")
    ∷ (0b1111111000000000, codes "/7")
    ∷ (0b1111110000000000, codes "/6")
    ∷ (0b1111100000000000, codes "/5")
    ∷ (0b1111000000000000, codes "/4")
    ∷ (0b1110000000000000, codes "/3")
    ∷ (0b1100000000000000, codes "/2")
    ∷ (0b1000000000000000, codes "/1")
    ∷ (0b0000000000000000, codes "/0")
    ∷ (0b0000000011111111, codes "\\8")
    ∷ (0b0000000011111110, codes "\\7")
    ∷ (0b0000000011111100, codes "\\6")
    ∷ (0b0000000011111000, codes "\\5")
    ∷ (0b0000000011110000, codes "\\4")
    ∷ (0b0000000011100000, codes "\\3")
    ∷ (0b0000000011000000, codes "\\2")
    ∷ (0b0000000010000000, codes "\\1")
    ∷ []

-- The suffix of the case that the mask selects, or the default: ':' and the mask as an address.
pub suffix : ℕ → List (ℕ × Bytes) → Bytes
suffix mask [] = b':' ∷ MavAddress.print (record { address = mask })
suffix mask ((m, text) ∷ cases) = if mask == m then text else suffix mask cases

pub print : MavSubnet → Bytes
unfolding suffix
print s = MavAddress.print s.address ++ suffix s.mask suffixes
