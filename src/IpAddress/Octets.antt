-- ===== src/IpAddress/Octets.antt =====
-- The four octets of an IP address, as they are read and put together.
use mavtables.Prelude.{
  ℕ, suc, ◌+◌, ◌*◌, ◌^◌, ◌≤◌, ◌<◌, ◌≡◌, ap, ◌∙◌, true, false, List, [], ◌∷◌, ◌++◌, Bytes, All,
  arith, length, length-append, get_last?, ltb,
}
use Prim.Native.Nat.{bit_or}
use mavtables.Prelude.Bits.{bit_or-fields}
use mavtables.Prelude.Exception.{ok}
use mavtables.Text.{decimal, extract_all}
use mavtables.Text.Decimal.{decimal-IsDigit}
use mavtables.Text.Octets.{
  spaced, spaced-append, Ends, extract_all-spaced, extract_all-space, NoDigit-spaced,
}
use mavtables.MavAddress.{digit_at, first?, all_address_chars, replace_dots}
use mavtables.MavAddress.Parse.{
  dotted, all_address_chars-append, all_address_chars-dotted, replace_dots-append,
  replace_dots-dotted, get_last?-dotted, first?-decimal, length-dotted, length-decimal,
}
use mavtables.IpAddress.{construct, check_octets, from_octets, parse_octets}

parse_octets-checked :
    (s : Bytes) (port : ℕ)
    → 7 ≤ length s
    → digit_at (first? s) ≡ true
    → digit_at (get_last? s) ≡ true
    → all_address_chars s ≡ true
    → {octets : List ℕ} → extract_all 64 (suc (length s)) (replace_dots s) ≡ (octets, true)
    → parse_octets s port ≡ from_octets octets port
unfolding parse_octets
parse_octets-checked s port long front back chars e = rw (short, front, back, chars, e)
  where
    short : ltb (length s) 7 ≡ false
    short = ground arith

-- The numbers of a dotted text, as far as they fit in 64 bits.
pub parse_octets-dotted :
    (n : ℕ) (ns more : List ℕ) (port : ℕ)
    → 3 ≤ length ns
    → All (λ m. m < 2 ^ 64) (n ∷ ns)
    → Ends 64 (spaced more [])
    → parse_octets (decimal n ++ dotted (ns ++ more) []) port ≡ from_octets (n ∷ ns) port
unfolding digit_at
parse_octets-dotted n ns more port three fit ends =
    let (d, last, digit) = get_last?-dotted n (ns ++ more) in
    parse_octets-checked text port (omega (arith, measure, length-append ns more))
      (first?-decimal n (dotted (ns ++ more) [])) (rw last digit)
      (all_address_chars-append (decimal n) (dotted (ns ++ more) []) (decimal-IsDigit n)
        (all_address_chars-dotted (ns ++ more)))
      (rw
        (replaced, ← extract_all-space 64 (suc (length text)) (decimal n ++ spaced (ns ++ more) []))
        (rw (spaced-append ns more []) (
          extract_all-spaced 64 (suc (length text)) (n ∷ ns) (spaced more []) fit
            (omega (arith, measure, length-append ns more)) (NoDigit-spaced more [] tt) ends)))
  where
    text : Bytes
    text = decimal n ++ dotted (ns ++ more) []

    measure : 1 + 2 * length (ns ++ more) ≤ length text
    measure = omega (
      arith,
      length-append (decimal n) (dotted (ns ++ more) []),
      length-decimal n,
      length-dotted (ns ++ more),
    )

    replaced : replace_dots text ≡ decimal n ++ spaced (ns ++ more) []
    replaced =
        replace_dots-append (decimal n) (dotted (ns ++ more) []) (decimal-IsDigit n)
        ∙ ap (◌++◌ (decimal n)) (replace_dots-dotted (ns ++ more))

joined-eq :
    (a b c d : ℕ)
    → b < 256
    → c < 256
    → d < 256
    → bit_or (bit_or (bit_or (a * 2 ^ 24) (b * 2 ^ 16)) (c * 2 ^ 8)) d
      ≡ a * 2 ^ 24 + b * 2 ^ 16 + c * 2 ^ 8 + d
joined-eq a b c d hb hc hd = rw (bit_or-fields 24 a (b * 2 ^ 16) (omega arith)) (
    ap (λ (x : ℕ). bit_or (bit_or x (c * 2 ^ 8)) d) two
    ∙ ap (λ (x : ℕ). bit_or x d) (bit_or-fields 16 (a * 256 + b) (c * 2 ^ 8) (omega arith) ∙ three)
    ∙ bit_or-fields 8 (a * 65536 + b * 256 + c) d (omega arith)
    ∙ omega arith)
  where
    two : a * 2 ^ 24 + b * 2 ^ 16 ≡ (a * 256 + b) * 2 ^ 16
    two = omega arith

    three : (a * 256 + b) * 2 ^ 16 + c * 2 ^ 8 ≡ (a * 65536 + b * 256 + c) * 2 ^ 8
    three = omega arith

-- Four bytes are the octets of an address.
pub from_octets-bytes :
    (a b c d port : ℕ)
    → a < 256
    → b < 256
    → c < 256
    → d < 256
    → port < 65536
    → from_octets (a ∷ b ∷ c ∷ d ∷ []) port
      ≡ ok (record { address = a * 2 ^ 24 + b * 2 ^ 16 + c * 2 ^ 8 + d; port = port })
unfolding from_octets check_octets construct
from_octets-bytes a b c d port ha hb hc hd hp =
    rw (inside a ha, inside b hb, inside c hc, inside d hd, joined-eq a b c d hb hc hd, below, fits)
  where
    inside : (n : ℕ) → n < 256 → ltb 255 n ≡ false
    inside n h = ground arith

    below : ltb 0xffffffff (a * 2 ^ 24 + b * 2 ^ 16 + c * 2 ^ 8 + d) ≡ false
    below = ground arith

    fits : ltb 65535 port ≡ false
    fits = ground arith
