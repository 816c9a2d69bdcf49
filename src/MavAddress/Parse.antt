-- ===== src/MavAddress/Parse.antt =====
-- Parsing an address from a string, and printing it.
use mavtables.Prelude.{
  ℕ, suc, ◌+◌, ◌*◌, ◌^◌, ◌≤◌, ◌<◌, ◌≡◌, ◌≢◌, refl, sym, ap, subst, ◌∙◌, true, false, some, List, [],
  ◌∷◌, ◌++◌, append_assoc, append-nil, arith, Bytes, All, length, length-append, get_last?,
  get_last?-append, ltb, false, ◌==◌, Bool, Bool-cases, inl, inr,
}
use mavtables.Prelude.Exception.{ok, err, invalid_argument}
use mavtables.Text.{is_digit, extract_all, decimal}
use mavtables.Text.Decimal.{IsDigit, decimal-IsDigit, decimal-cons, decimal-snoc}
use mavtables.Text.Octets.{
  spaced, spaced-append, NoDigit-spaced, extract_all-space, extract_all-spaced, Ends, Ends-nil,
  Ends-overflow,
}
use mavtables.MavAddress.{
  MavAddress, IsValid, construct, system, component, digit_at, first?, all_address_chars,
  replace_dots, from_octets, parse, print,
}
use mavtables.MavAddress.Fields.{
  construct-fields, construct-system-component, system-eq-div, component-eq-mod,
}

-- Each number behind a dot, and then the rest of the text.
abbrev pub dotted : List ℕ → Bytes → Bytes
dotted [] rest = rest
dotted (n ∷ ns) rest = b'.' ∷ (decimal n ++ dotted ns rest)

-- A text whose characters pass the check, and what `std::replace` makes of it.
pub all_address_chars-append :
    (s t : Bytes) → All IsDigit s → all_address_chars t ≡ true → all_address_chars (s ++ t) ≡ true
unfolding all_address_chars
all_address_chars-append [] t h k = k
all_address_chars-append (c ∷ s) t h k = ground (arith, all_address_chars-append s t h.1 k)

pub replace_dots-append :
    (s t : Bytes) → All IsDigit s → replace_dots (s ++ t) ≡ s ++ replace_dots t
unfolding replace_dots is_digit
replace_dots-append [] t h = refl
replace_dots-append (c ∷ s) t h = ground (arith, replace_dots-append s t h.1)

pub all_address_chars-dotted : (ns : List ℕ) → all_address_chars (dotted ns []) ≡ true
unfolding all_address_chars
all_address_chars-dotted [] = refl
all_address_chars-dotted (n ∷ ns) =
    all_address_chars-append (decimal n) (dotted ns []) (decimal-IsDigit n)
      (all_address_chars-dotted ns)

pub replace_dots-dotted : (ns : List ℕ) → replace_dots (dotted ns []) ≡ spaced ns []
unfolding replace_dots
replace_dots-dotted [] = refl
replace_dots-dotted (n ∷ ns) = ap (◌∷◌ b' ') (
    replace_dots-append (decimal n) (dotted ns []) (decimal-IsDigit n)
    ∙ ap (◌++◌ (decimal n)) (replace_dots-dotted ns))

-- The last byte is a digit.
pub get_last?-dotted :
    (n : ℕ) (ns : List ℕ) → (d : ℕ) × (get_last? (decimal n ++ dotted ns []) ≡ some d) × IsDigit d
get_last?-dotted n [] =
    let (xs, d, e, h) = decimal-snoc n in
    (d, rw (append-nil (decimal n), e) (get_last?-append xs d []), h)
get_last?-dotted n (m ∷ ms) =
    let (d, e, h) = get_last?-dotted m ms in
    let (c, s, e', h') = decimal-cons m in
    let skip : get_last? (b'.' ∷ (decimal m ++ dotted ms []))
        ≡ get_last? (decimal m ++ dotted ms []) =
      rw e' (get_last?-append (b'.' ∷ []) c (s ++ dotted ms [])) in
    (d, get_last?-append (decimal n) b'.' (decimal m ++ dotted ms []) ∙ skip ∙ e, h)

pub first?-decimal : (n : ℕ) (rest : Bytes) → digit_at (first? (decimal n ++ rest)) ≡ true
unfolding digit_at first?
first?-decimal n rest = let (c, s, e, h) = decimal-cons n in rw e h

pub length-decimal : (n : ℕ) → 1 ≤ length (decimal n)
length-decimal n = let (c, s, e, h) = decimal-cons n in rw e (omega arith)

length-ne-nil : (ns : List ℕ) → ns ≢ [] → 1 ≤ length ns
length-ne-nil [] h = absurd (h refl)
length-ne-nil (n ∷ ns) h = omega arith

pub length-dotted : (ns : List ℕ) → 2 * length ns ≤ length (dotted ns [])
length-dotted [] = omega arith
length-dotted (n ∷ ns) =
    omega (arith, length-append (decimal n) (dotted ns []), length-decimal n, length-dotted ns)

-- Past its checks `parse` returns what the reading loop finds.
parse-checked :
    (s : Bytes)
    → 3 ≤ length s
    → digit_at (first? s) ≡ true
    → digit_at (get_last? s) ≡ true
    → all_address_chars s ≡ true
    → {octets : List ℕ} → extract_all 32 (suc (length s)) (replace_dots s) ≡ (octets, true)
    → parse s ≡ from_octets octets true
unfolding parse
parse-checked s long front back chars e = rw (short, front, back, chars, e)
  where
    short : ltb (length s) 3 ≡ false
    short = ground arith

-- Numbers that are joined by dots are read one by one, as far as they fit in 32 bits.
parse-dotted :
    (n : ℕ) (ns more : List ℕ)
    → ns ++ more ≢ []
    → All (λ m. m < 2 ^ 32) (n ∷ ns)
    → Ends 32 (spaced more [])
    → parse (decimal n ++ dotted (ns ++ more) []) ≡ from_octets (n ∷ ns) true
unfolding digit_at
parse-dotted n ns more some_dot fit ends =
    let (d, last, digit) = get_last?-dotted n (ns ++ more) in
    parse-checked text (omega (arith, measure, length-ne-nil (ns ++ more) some_dot))
      (first?-decimal n (dotted (ns ++ more) [])) (rw last digit)
      (all_address_chars-append (decimal n) (dotted (ns ++ more) []) (decimal-IsDigit n)
        (all_address_chars-dotted (ns ++ more)))
      (rw
        (replaced, ← extract_all-space 32 (suc (length text)) (decimal n ++ spaced (ns ++ more) []))
        (rw (spaced-append ns more []) (
          extract_all-spaced 32 (suc (length text)) (n ∷ ns) (spaced more []) fit
            (omega (arith, measure, length-append ns more)) (NoDigit-spaced more [] tt) ends)))
  where
    text : Bytes
    text = decimal n ++ dotted (ns ++ more) []

    measure : 1 + 2 * length (ns ++ more) ≤ length text
    measure = omega (
      arith,
      length-append (decimal n) (dotted (ns ++ more) []),
      length-decimal n,
      length-dotted (ns ++ more),
    )

    replaced : replace_dots text ≡ decimal n ++ spaced (ns ++ more) []
    replaced =
        replace_dots-append (decimal n) (dotted (ns ++ more) []) (decimal-IsDigit n)
        ∙ ap (◌++◌ (decimal n)) (replace_dots-dotted (ns ++ more))

-- Two numbers joined by a dot are given to the constructor, which checks their range.
pub parse-construct :
    (s c : ℕ) → s < 2 ^ 32 → c < 2 ^ 32 → parse (decimal s ++ b'.' ∷ decimal c) ≡ construct s c
unfolding from_octets
parse-construct s c hs hc =
    subst (λ t. parse (decimal s ++ b'.' ∷ t) ≡ construct s c) (append-nil (decimal c))
      (parse-dotted s (c ∷ []) [] (cc) (hs, (hc, tt)) (Ends-nil 32))

-- The string constructor reads back what `<<` prints, for every address.
pub parse-print : (a : MavAddress) → IsValid a → parse (print a) ≡ ok a
unfolding print
parse-print a h =
    parse-construct (system a) (component a) (omega (arith, system-eq-div a h))
      (omega (arith, component-eq-mod a))
    ∙ construct-system-component a h

overflow-Ends : (n : ℕ) → 2 ^ 32 ≤ n → Ends 32 (spaced (n ∷ []) [])
overflow-Ends n h =
    subst (λ t. Ends 32 (b' ' ∷ t)) (sym (append-nil (decimal n))) (Ends-overflow 32 n h)

-- A third number that does not fit in 32 bits is not noticed: the address before it is accepted.
pub parse_ignores_overflow :
    (a : MavAddress) (n : ℕ) → IsValid a → 2 ^ 32 ≤ n → parse (print a ++ b'.' ∷ decimal n) ≡ ok a
unfolding print from_octets
parse_ignores_overflow a n h large =
    rw (append_assoc (decimal (system a)) (b'.' ∷ decimal (component a)) (b'.' ∷ decimal n)) (
      subst (λ t. parse (decimal (system a) ++ b'.' ∷ (decimal (component a) ++ b'.' ∷ t)) ≡ ok a)
        (append-nil (decimal n))
        (parse-dotted (system a) (component a ∷ []) (n ∷ []) (cc)
            (omega (arith, system-eq-div a h), (omega (arith, component-eq-mod a), tt))
            (overflow-Ends n large)
          ∙ construct-system-component a h))

-- A component ID that does not fit in 32 bits is an invalid string, not out of range.
pub parse-overflow :
    (s c : ℕ)
    → s < 2 ^ 32
    → 2 ^ 32 ≤ c
    → parse (decimal s ++ b'.' ∷ decimal c) ≡ err invalid_argument
unfolding from_octets
parse-overflow s c hs hc =
    subst (λ t. parse (decimal s ++ b'.' ∷ t) ≡ err invalid_argument) (append-nil (decimal c))
      (parse-dotted s [] (c ∷ []) (cc) (hs, tt) (overflow-Ends c hc))

construct-IsValid : (m n : ℕ) (a : MavAddress) → construct m n ≡ ok a → IsValid a
construct-IsValid m n a h = elim (construct-fields m n) [
  | inl (_, _, made) ↦ ground (arith, made)
  | inr (_, refused) ↦ ground (arith, refused)
]

from_octets-IsValid :
    (octets : List ℕ) (eof : Bool) (a : MavAddress) → from_octets octets eof ≡ ok a → IsValid a
unfolding from_octets
from_octets-IsValid [] eof a h = cc
from_octets-IsValid (m ∷ []) eof a h = cc
from_octets-IsValid (m ∷ n ∷ []) true a h = construct-IsValid m n a h
from_octets-IsValid (m ∷ n ∷ []) false a h = cc
from_octets-IsValid (m ∷ n ∷ k ∷ octets) eof a h = cc

-- Whatever string is accepted, the address is within 16 bits and the string holds digits and dots.
pub parse-IsValid :
    (s : Bytes) {a : MavAddress} → parse s ≡ ok a → IsValid a × (all_address_chars s ≡ true)
unfolding parse
parse-IsValid s {a} h = elim (Bool-cases (all_address_chars s)) [
  | inl good ↦ (
    from_octets-IsValid (extract_all 32 (suc (length s)) (replace_dots s)).0
        (extract_all 32 (suc (length s)) (replace_dots s)).1 a (ground arith),
    good,
  )
  | inr bad ↦ absurd (ground arith)
]

-- A string with any other character is an `invalid_argument`.
pub parse-rejects : (s : Bytes) → all_address_chars s ≡ false → parse s ≡ err invalid_argument
unfolding parse
parse-rejects s h = ground arith

pub all_address_chars-bad :
    (s : Bytes) (c : ℕ) (t : Bytes)
    → (c == b'.') ≡ false
    → is_digit c ≡ false
    → all_address_chars (s ++ c ∷ t) ≡ false
unfolding all_address_chars
all_address_chars-bad [] c t h k = rw (h, k)
all_address_chars-bad (x ∷ s) c t h k = ground (arith, all_address_chars-bad s c t h k)
