-- ===== src/Examples/Hosts.antt =====
-- An IP address, and a splitting of texts at ':'.
use mavtables.Prelude.{
  ℕ, ◌+◌, ◌*◌, ◌^◌, ◌≡◌, refl, List, [], ◌∷◌, ◌++◌, Bytes, All, arith, ◌==◌, if◌then◌else◌,
}
use mavtables.Prelude.Exception.{ok}
use mavtables.Text.{decimal}
use mavtables.IpAddress
use mavtables.IpAddress.{IpAddress, parse, eq, ne, lt, gt, le, ge}
use mavtables.IpAddress.Parse.{Splits, IsPlain, text_of, parse_ip-print, parse_ip_ignores_overflow}

abbrev attach : ℕ → List Bytes → List Bytes
attach c [] = (c ∷ []) ∷ []
attach c (p ∷ ps) = (c ∷ p) ∷ ps

unfoldable split : Bytes → List Bytes
split [] = [] ∷ []
split (c ∷ s) = let rest = split s in if c == b':' then [] ∷ rest else attach c rest

split-whole : (p : Bytes) → All IsPlain p → split p ≡ p ∷ []
unfolding split
split-whole [] plain = refl
split-whole (c ∷ p) plain = rw (split-whole p plain.1, plain.0)

split-pair : (p q : Bytes) → All IsPlain p → All IsPlain q → split (p ++ b':' ∷ q) ≡ p ∷ q ∷ []
unfolding split
split-pair [] q plain_p plain_q = rw (split-whole q plain_q)
split-pair (c ∷ p) q plain_p plain_q = rw (split-pair p q plain_p.1 plain_q, plain_p.0)

split-Splits : Splits split
split-Splits = record { whole = split-whole; pair = split-pair }

-- 127.0.0.1:14500
abbrev localhost : IpAddress
localhost = record { address = 127 * 2 ^ 24 + 1; port = 14500 }

abbrev any_port : IpAddress
any_port = record { address = 127 * 2 ^ 24 + 1; port = 0 }

parse_ip-print_example : parse split (IpAddress.print localhost) ≡ ok localhost
parse_ip-print_example = parse_ip-print split-Splits localhost (omega arith, omega arith)

parse_ip_ignores_overflow_example :
    parse split (text_of any_port ++ b'.' ∷ decimal 18446744073709551616) ≡ ok any_port
parse_ip_ignores_overflow_example =
    parse_ip_ignores_overflow split-Splits any_port 18446744073709551616 (omega arith, omega arith)
      refl (omega arith)
