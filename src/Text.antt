-- ===== src/Text.antt =====
-- What the sources use of the C++ text library: `isdigit`, `std::to_string` and `<<` of unsigned
-- numbers, and `>>` of an `std::istringstream` into an `unsigned` of `w` bits or an `int`, as
-- num_get reads them in base ten: blanks are skipped, a sign is optional, a value out of range
-- stores the limit and fails, and no digit at all stores zero and fails.
pub mod Decimal
pub mod Octets
use mavtables.Prelude.{
  ℕ, zero, suc, ◌+◌, ◌-◌, ◌*◌, ◌/◌, ◌%◌, ◌^◌, Bool, true, false, ◌&&◌, ◌||◌, Option, none, some,
  List, [], ◌∷◌, ◌++◌, Bytes, ltb, leb, ◌==◌, if◌then◌else◌,
}
use mavtables.Prelude.Int.{ℤ, pos, negsuc, int_min, int_max}

unfoldable pub is_digit : ℕ → Bool
is_digit c = leb b'0' c && leb c b'9'

unfoldable pub is_space : ℕ → Bool
is_space c = c == b' ' || (leb 9 c && leb c 13)

unfoldable pub skip_space : Bytes → Bytes
skip_space [] = []
skip_space (c ∷ s) = let rest = skip_space s in if is_space c then rest else c ∷ s

-- The number that the leading digits spell behind `n`, and the text after them.
unfoldable pub scan_digits : ℕ → Bytes → ℕ × Bytes
scan_digits n [] = (n, [])
scan_digits n (c ∷ s) =
    let more = scan_digits (n * 10 + (c - b'0')) s in if is_digit c then more else (n, c ∷ s)

-- A field of the input before its range is checked; the last part is the text that follows.
pub data Scanned : Type 0 where
  blank : Scanned
  malformed : Bytes → Scanned
  number : Bool → ℕ → Bytes → Scanned

unfoldable pub scan_number : Bool → Bytes → Scanned
scan_number minus [] = malformed []
scan_number minus (c ∷ s) =
    if is_digit c
    then (let (n, rest) = scan_digits 0 (c ∷ s) in number minus n rest)
    else malformed (c ∷ s)

unfoldable pub scan_sign : Bytes → Scanned
unfolding scan_number
scan_sign [] = blank
scan_sign (c ∷ s) =
    if c == b'-'
    then scan_number true s
    else if c == b'+'
    then scan_number false s
    else scan_number false (c ∷ s)

unfoldable pub scan : Bytes → Scanned
unfolding scan_sign skip_space
scan s = scan_sign (skip_space s)

-- The outcome of `stream >> x`: `x` is stored, or the stream fails, and then `x` either is
-- overwritten too or keeps what it held. The stream is at its end when no text follows.
pub data Extracted {ℓ} (A : Type ℓ) : Type ℓ where
  stored : A → Bytes → Extracted A
  failed : Option A → Bytes → Extracted A

unfoldable pub to_unsigned : ℕ → Scanned → Extracted ℕ
to_unsigned w blank = failed none []
to_unsigned w (malformed rest) = failed (some 0) rest
to_unsigned w (number minus n rest) =
    if ltb (2 ^ w - 1) n
    then failed (some (2 ^ w - 1)) rest
    else stored (if minus then (2 ^ w - n) % 2 ^ w else n) rest

unfoldable pub extract_unsigned : ℕ → Bytes → Extracted ℕ
unfolding scan to_unsigned
extract_unsigned w s = to_unsigned w (scan s)

abbrev pub negated : ℕ → ℤ
negated zero = pos 0
negated (suc n) = negsuc n

unfoldable pub to_int : Scanned → Extracted ℤ
to_int blank = failed none []
to_int (malformed rest) = failed (some (pos 0)) rest
to_int (number true n rest) =
    if ltb 2147483648 n then failed (some int_min) rest else stored (negated n) rest
to_int (number false n rest) =
    if ltb 2147483647 n then failed (some int_max) rest else stored (pos n) rest

unfoldable pub extract_int : Bytes → Extracted ℤ
unfolding scan to_int
extract_int s = to_int (scan s)

-- `while (stream >> x) values.push_back(x);` on fuel, with `stream.eof()` after the loop.
-- Each round reads at least one byte, so fuel above the length of the text is enough.
unfoldable pub extract_all : ℕ → ℕ → Bytes → List ℕ × Bool
extract_all w zero s = ([], false)
extract_all w (suc fuel) s = elim (extract_unsigned w s) [
  | stored x rest ↦ (x ∷ (extract_all w fuel rest).0, (extract_all w fuel rest).1)
  | failed kept [] ↦ ([], true)
  | failed kept (c ∷ rest) ↦ ([], false)
]

-- Decimal digits, the most significant first.
unfoldable pub decimal_digits : ℕ → ℕ → Bytes
decimal_digits zero n = []
decimal_digits (suc fuel) n =
    let front = decimal_digits fuel (n / 10) in
    if ltb n 10 then (b'0' + n) ∷ [] else front ++ (b'0' + n % 10) ∷ []

unfoldable pub decimal : ℕ → Bytes
unfolding decimal_digits
decimal n = decimal_digits (suc n) n

unfoldable pub print_int : ℤ → Bytes
unfolding decimal
print_int (pos n) = decimal n
print_int (negsuc n) = b'-' ∷ decimal (n + 1)
