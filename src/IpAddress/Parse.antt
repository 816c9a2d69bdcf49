-- ===== src/IpAddress/Parse.antt =====
-- Parsing an IP address from a string, and printing it.
use mavtables.Prelude.{
  ℕ, ◌+◌, ◌*◌, ◌^◌, ◌≤◌, ◌<◌, ◌≡◌, refl, sym, ap, subst, ◌∙◌, true, false, List, [], ◌∷◌, ◌++◌,
  Bytes, All, arith, append-nil, append_assoc, ◌==◌, Bool-cases, inl, inr, ==_iff,
}
use mavtables.Prelude.Exception.{ok}
use mavtables.Text.{decimal, is_digit, extract_unsigned, stored}
use mavtables.Text.Decimal.{IsDigit, decimal-IsDigit}
use mavtables.Text.Octets.{Ends, Ends-nil, Ends-overflow, extract_unsigned-decimal}
use mavtables.MavAddress.{all_address_chars}
use mavtables.MavAddress.Parse.{dotted, all_address_chars-append, all_address_chars-dotted}
use mavtables.IpAddress.{
  IpAddress, IsValid, from_octets, parse_octets, parse_parts, port_of, parse, octet, print_port,
  print,
}
use mavtables.IpAddress.Octets.{parse_octets-dotted, from_octets-bytes}

abbrev pub IsPlain : ℕ → Type 0
IsPlain c = (c == b':') ≡ false

-- What `parse` relies on of `boost::split` at ':': a text without it is one part, and a ':' between
-- two such texts makes two parts.
pub record Splits (parts : Bytes → List Bytes) : Type 0 where
  pub whole : (p : Bytes) → All IsPlain p → parts p ≡ p ∷ []
  pub pair : (p q : Bytes) → All IsPlain p → All IsPlain q → parts (p ++ b':' ∷ q) ≡ p ∷ q ∷ []

address-IsPlain : (s : Bytes) → all_address_chars s ≡ true → All IsPlain s
unfolding all_address_chars is_digit
address-IsPlain [] h = tt
address-IsPlain (c ∷ s) h = ground (arith, address-IsPlain s)

digits-IsPlain : (s : Bytes) → All IsDigit s → All IsPlain s
unfolding is_digit
digits-IsPlain [] h = tt
digits-IsPlain (c ∷ s) h = ground (arith, digits-IsPlain s)

octets-eq :
    (a : IpAddress)
    → a.address < 2 ^ 32
    → octet 3 a * 2 ^ 24 + octet 2 a * 2 ^ 16 + octet 1 a * 2 ^ 8 + octet 0 a ≡ a.address
unfolding octet
octets-eq a small = omega arith

octet-lt : (i : ℕ) (a : IpAddress) → octet i a < 256
unfolding octet
octet-lt i a = omega arith

from_octets-print :
    (a : IpAddress)
    → IsValid a
    → from_octets (octet 3 a ∷ octet 2 a ∷ octet 1 a ∷ octet 0 a ∷ []) a.port ≡ ok a
from_octets-print a (small, port) =
    from_octets-bytes (octet 3 a) (octet 2 a) (octet 1 a) (octet 0 a) a.port (octet-lt 3 a)
      (octet-lt 2 a) (octet-lt 1 a) (octet-lt 0 a) port
    ∙ ap (λ (n : ℕ). ok (record { address = n; port = a.port })) (octets-eq a small)

dotted-append : (ns : List ℕ) (rest : Bytes) → dotted ns rest ≡ dotted ns [] ++ rest
dotted-append [] rest = refl
dotted-append (n ∷ ns) rest =
    ap (λ s. b'.' ∷ (decimal n ++ s)) (dotted-append ns rest)
    ∙ ap (λ s. b'.' ∷ s) (sym (append_assoc (decimal n) (dotted ns []) rest))

-- The text of the four octets alone.
abbrev pub text_of : IpAddress → Bytes
text_of a = decimal (octet 3 a) ++ dotted (octet 2 a ∷ octet 1 a ∷ octet 0 a ∷ []) []

print-text_of : (a : IpAddress) → print a ≡ text_of a ++ print_port a.port
unfolding print
print-text_of a =
    ap (λ s. decimal (octet 3 a) ++ s)
      (dotted-append (octet 2 a ∷ octet 1 a ∷ octet 0 a ∷ []) (print_port a.port))
    ∙ sym (
        append_assoc (decimal (octet 3 a)) (dotted (octet 2 a ∷ octet 1 a ∷ octet 0 a ∷ []) [])
          (print_port a.port))

parse_octets-text_of : (a : IpAddress) → IsValid a → parse_octets (text_of a) a.port ≡ ok a
parse_octets-text_of a valid =
    parse_octets-dotted (octet 3 a) (octet 2 a ∷ octet 1 a ∷ octet 0 a ∷ []) [] a.port (omega arith)
      (wide (octet-lt 3 a), (wide (octet-lt 2 a), (wide (octet-lt 1 a), (wide (octet-lt 0 a), tt))))
      (Ends-nil 64)
    ∙ from_octets-print a valid
  where
    wide : {n : ℕ} → n < 256 → n < 2 ^ 64
    wide h = omega arith

text_of-IsPlain : (a : IpAddress) → All IsPlain (text_of a)
text_of-IsPlain a = address-IsPlain (text_of a) (
    all_address_chars-append (decimal (octet 3 a))
      (dotted (octet 2 a ∷ octet 1 a ∷ octet 0 a ∷ []) []) (decimal-IsDigit (octet 3 a))
      (all_address_chars-dotted (octet 2 a ∷ octet 1 a ∷ octet 0 a ∷ [])))

module _ {parts : Bytes → List Bytes} (splits : Splits parts) where
  parse-without_port :
      (a : IpAddress) → IsValid a → a.port ≡ 0 → parse parts (text_of a ++ []) ≡ ok a
  unfolding parse parse_parts
  parse-without_port a valid e =
      rw (append-nil (text_of a), splits.whole (text_of a) (text_of-IsPlain a))
        (ap (parse_octets (text_of a)) (sym e) ∙ parse_octets-text_of a valid)

  parse-with_port :
      (a : IpAddress) → IsValid a → parse parts (text_of a ++ b':' ∷ decimal a.port) ≡ ok a
  unfolding parse parse_parts port_of
  parse-with_port a valid =
      rw
        (
          splits.pair (text_of a) (decimal a.port) (text_of-IsPlain a)
              (digits-IsPlain (decimal a.port) (decimal-IsDigit a.port)),
          read,
        )
        (parse_octets-text_of a valid)
    where
      read : extract_unsigned 32 (decimal a.port) ≡ stored a.port []
      read =
          subst (λ s. extract_unsigned 32 s ≡ stored a.port []) (append-nil (decimal a.port))
            (extract_unsigned-decimal 32 a.port [] (omega (arith, valid.1)) tt)

  -- The string constructor reads back what `<<` prints, for every address and port, also where the
  -- port is zero and is not printed.
  pub parse_ip-print : (a : IpAddress) → IsValid a → parse parts (print a) ≡ ok a
  unfolding print_port
  parse_ip-print a valid = ap (parse parts) (print-text_of a) ∙ elim (Bool-cases (a.port == 0)) [
    | inl zero_port ↦ rw zero_port (parse-without_port a valid ((==_iff a.port 0).0 zero_port))
    | inr other ↦ rw other (parse-with_port a valid)
  ]

  -- A fifth number that does not fit in 64 bits is not noticed: the four octets before it are
  -- accepted as the address.
  pub parse_ip_ignores_overflow :
      (a : IpAddress) (n : ℕ)
      → IsValid a
      → a.port ≡ 0
      → 2 ^ 64 ≤ n
      → parse parts (text_of a ++ b'.' ∷ decimal n) ≡ ok a
  unfolding parse parse_parts
  parse_ip_ignores_overflow a n valid e large =
      rw
        (
          five,
          splits.whole (decimal (octet 3 a) ++ dotted (octets ++ n ∷ []) []) (
              address-IsPlain _ (
                all_address_chars-append (decimal (octet 3 a)) (dotted (octets ++ n ∷ []) [])
                  (decimal-IsDigit (octet 3 a)) (all_address_chars-dotted (octets ++ n ∷ [])))),
        )
        (parse_octets-dotted (octet 3 a) octets (n ∷ []) 0 (omega arith)
            (
              wide (octet-lt 3 a),
              (wide (octet-lt 2 a), (wide (octet-lt 1 a), (wide (octet-lt 0 a), tt))),
            )
            (subst (λ s. Ends 64 (b' ' ∷ s)) (sym (append-nil (decimal n)))
              (Ends-overflow 64 n large))
          ∙ ap (from_octets (octet 3 a ∷ octets)) (sym e)
          ∙ from_octets-print a valid)
    where
      octets : List ℕ
      octets = octet 2 a ∷ octet 1 a ∷ octet 0 a ∷ []

      wide : {m : ℕ} → m < 256 → m < 2 ^ 64
      wide h = omega arith

      five : text_of a ++ b'.' ∷ decimal n ≡ decimal (octet 3 a) ++ dotted (octets ++ n ∷ []) []
      five =
          ap (λ s. text_of a ++ b'.' ∷ s) (sym (append-nil (decimal n)))
          ∙ append_assoc (decimal (octet 3 a)) (dotted octets []) (dotted (n ∷ []) [])
          ∙ ap (λ s. decimal (octet 3 a) ++ s) (sym (dotted-append octets (dotted (n ∷ []) [])))
