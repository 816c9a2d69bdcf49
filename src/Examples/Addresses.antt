-- ===== src/Examples/Addresses.antt =====
-- Addresses and subnets.
use mavtables.Prelude.{◌+◌, ◌*◌, ◌/◌, ◌^◌, ◌≡◌, ◌↔◌, inl, refl, true, [], ◌∷◌, ◌++◌, arith}
use mavtables.Prelude.Exception.{ok}
use mavtables.Text.{is_digit, is_space}
use mavtables.MavAddress.{MavAddress, print}
use mavtables.MavSubnet
use mavtables.MavSubnet.{MavSubnet, contains}
use mavtables.MavSubnet.Contains.{contains-slash}
use mavtables.MavSubnet.Parse.{parse_subnet-print, is_delimiter}
use mavtables.MavSubnet.Malformed.{parse_accepts_junk}
use mavtables.Examples.Tokens.{split, split-Splits}

-- 192.168 and 192.4
abbrev first : MavAddress
first = record { address = 192 * 256 + 168 }

abbrev second : MavAddress
second = record { address = 192 * 256 + 4 }

-- 192.168/14 and 192.168\4
abbrev wide : MavSubnet
wide = record { address = first; mask = 0xfffc }

abbrev components : MavSubnet
components = record { address = first; mask = 0x00f0 }

contains-slash_example :
    (contains wide second ≡ true) ↔ (second.address / 2 ^ 2 ≡ first.address / 2 ^ 2)
contains-slash_example =
    contains-slash wide second 14 (omega arith) (unfold MavSubnet.slash_mask in refl) (omega arith)
      (omega arith)

parse_subnet-print_example : MavSubnet.parse split (MavSubnet.print components) ≡ ok components
parse_subnet-print_example = parse_subnet-print split-Splits components (omega arith, omega arith)

-- "192.168/x"
parse_accepts_junk_example :
    (s : MavSubnet) × (MavSubnet.parse split (print first ++ b'/' ∷ b'x' ∷ []) ≡ ok s)
    × (contains s second ≡ true)
unfolding is_digit is_space is_delimiter
parse_accepts_junk_example =
    parse_accepts_junk split-Splits first b'/' b'x' [] second (omega arith) (inl refl)
      (refl, refl, omega arith, omega arith) (refl, tt)

-- "192.168\ "
