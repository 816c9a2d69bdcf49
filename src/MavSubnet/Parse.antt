-- ===== src/MavSubnet/Parse.antt =====
-- Parsing a subnet from a string, and printing it.
use mavtables.Prelude.{
  ℕ, ◌<◌, ◌≡◌, ◌≢◌, refl, ap, subst, sym, ◌∙◌, ◌⊎◌, inl, inr, Bool, true, false, not, ◌||◌, ◌&&◌,
  Bool-cases, some, List, [], ◌∷◌, ◌++◌, arith, Bytes, All, All-append, ◌==◌, ==_iff, append-nil,
}
use mavtables.Prelude.Exception.{Result, ok, err, ◌>>=◌}
use mavtables.Text.{is_digit, is_space, decimal, extract_int, scan_digits}
use mavtables.Text.Decimal.{IsDigit, decimal-IsDigit, decimal-cons}
use mavtables.MavAddress
use mavtables.MavAddress.{MavAddress, all_address_chars}
use mavtables.MavAddress.Parse.{
  parse-print as address-parse-print, parse-rejects, all_address_chars-bad,
}
use mavtables.MavSubnet.{
  MavSubnet, IsValid, parse_mask, parse_parts, parse, suffixes, suffix, print,
}

-- The delimiters, which `boost::tokenizer` keeps as tokens of their own.
unfoldable pub is_delimiter : ℕ → Bool
is_delimiter c = c == b':' || (c == b'/' || c == b'\\')

abbrev pub IsPlain : ℕ → Type 0
IsPlain c = is_delimiter c ≡ false

-- What `parse` relies on: a text with no delimiter is one token, and a single delimiter that
-- stands between two texts is a token between them.
pub record Splits (tokens : Bytes → List Bytes) : Type 0 where
  pub whole : (p : Bytes) → p ≢ [] → All IsPlain p → tokens p ≡ p ∷ []
  pub pair :
      (p : Bytes) (k : ℕ) (q : Bytes)
      → p ≢ []
      → q ≢ []
      → is_delimiter k ≡ true
      → All IsPlain p
      → All IsPlain q
      → tokens (p ++ k ∷ q) ≡ p ∷ (k ∷ []) ∷ q ∷ []

digits-IsPlain : (s : Bytes) → All IsDigit s → All IsPlain s
unfolding is_delimiter is_digit
digits-IsPlain [] h = tt
digits-IsPlain (c ∷ s) h = (ground arith, digits-IsPlain s h.1)

pub dotted-IsPlain : (m n : ℕ) → All IsPlain (decimal m ++ b'.' ∷ decimal n)
unfolding is_delimiter
dotted-IsPlain m n =
    All-append IsPlain (decimal m) (b'.' ∷ decimal n) (digits-IsPlain _ (decimal-IsDigit m))
      (refl, digits-IsPlain _ (decimal-IsDigit n))

pub dotted-ne-nil : (m n : ℕ) → decimal m ++ b'.' ∷ decimal n ≢ []
dotted-ne-nil m n = let (c, s, e, h) = decimal-cons m in rw e (λ p. cc)

print-IsPlain : (a : MavAddress) → All IsPlain (MavAddress.print a)
unfolding MavAddress.print
print-IsPlain a = dotted-IsPlain (MavAddress.system a) (MavAddress.component a)

print-ne-nil : (a : MavAddress) → MavAddress.print a ≢ []
unfolding MavAddress.print
print-ne-nil a = dotted-ne-nil (MavAddress.system a) (MavAddress.component a)

not-address-char : (k : ℕ) → is_delimiter k ≡ true → ((k == b'.') ≡ false) × (is_digit k ≡ false)
unfolding is_delimiter is_digit
not-address-char k h = ground arith

-- What the constructor makes of a mask's suffix.
abbrev Readable : ℕ → Bytes → Type 0
Readable mask text =
    ((text ≡ []) × (mask ≡ 0xffff))
    ⊎ ((k : ℕ) × (q : Bytes) × (text ≡ k ∷ q)
        × (is_delimiter k ≡ true)
        × (q ≢ [])
        × All IsPlain q
        × (parse_mask (some k) q ≡ ok mask))

-- The same as a test, which is run on every case of the `switch`.
all_plain : Bytes → Bool
all_plain [] = true
all_plain (c ∷ s) = not (is_delimiter c) && all_plain s

all_plain-All : (s : Bytes) → all_plain s ≡ true → All IsPlain s
unfolding all_plain
all_plain-All [] h = tt
all_plain-All (c ∷ s) h = ground (arith, all_plain-All s)

reads : Result ℕ → ℕ → Bool
reads (ok n) mask = n == mask
reads (err e) mask = false

reads-eq : (r : Result ℕ) (mask : ℕ) → reads r mask ≡ true → r ≡ ok mask
unfolding reads
reads-eq (ok n) mask h = ap ok ((==_iff n mask).0 h)
reads-eq (err e) mask h = cc

readable : ℕ → Bytes → Bool
readable mask [] = mask == 0xffff
readable mask (k ∷ []) = false
readable mask (k ∷ c ∷ q) =
    is_delimiter k && (all_plain (c ∷ q) && reads (parse_mask (some k) (c ∷ q)) mask)

readable-Readable : (mask : ℕ) (text : Bytes) → readable mask text ≡ true → Readable mask text
unfolding readable
readable-Readable mask [] h = inl (refl, (==_iff mask 0xffff).0 h)
readable-Readable mask (k ∷ []) h = cc
readable-Readable mask (k ∷ c ∷ q) h = inr (
  k,
  c ∷ q,
  refl,
  ground arith,
  λ e. cc,
  all_plain-All (c ∷ q) (ground arith),
  reads-eq (parse_mask (some k) (c ∷ q)) mask (ground arith),
)

all_readable : List (ℕ × Bytes) → Bool
all_readable [] = true
all_readable ((mask, text) ∷ cases) = readable mask text && all_readable cases

suffixes_readable : all_readable suffixes ≡ true
unfolding all_readable readable all_plain reads parse_mask extract_int is_delimiter is_digit
    is_space scan_digits
suffixes_readable = refl

suffix-Readable :
    (mask : ℕ) (cases : List (ℕ × Bytes))
    → mask < 65536
    → all_readable cases ≡ true
    → Readable mask (suffix mask cases)
unfolding suffix parse_mask all_readable is_delimiter
suffix-Readable mask [] fits h = inr (
  b':',
  MavAddress.print (record { address = mask }),
  refl,
  refl,
  print-ne-nil (record { address = mask }),
  print-IsPlain (record { address = mask }),
  rw (address-parse-print (record { address = mask }) fits),
)
suffix-Readable mask ((m, text) ∷ cases) fits h = elim (Bool-cases (mask == m)) [
  | inl same ↦ rw same (
      subst (λ (n : ℕ). Readable n text) (sym ((==_iff mask m).0 same))
        (readable-Readable m text (ground arith)))
  | inr other ↦ rw other (suffix-Readable mask cases fits (ground arith))
]

whole-address :
    (tokens : Bytes → List Bytes) (a : MavAddress)
    → MavAddress.IsValid a
    → parse tokens (MavAddress.print a) ≡ ok (record { address = a; mask = 0xffff })
unfolding parse
whole-address tokens a valid = rw (address-parse-print a valid, parse)

module _ {tokens : Bytes → List Bytes} (splits : Splits tokens) where
  -- An address, a delimiter and a mask: the mask decides.
  pub parse-separated :
      (a : MavAddress) (k : ℕ) (q : Bytes)
      → MavAddress.IsValid a
      → is_delimiter k ≡ true
      → q ≢ []
      → All IsPlain q
      → parse tokens (MavAddress.print a ++ k ∷ q)
        ≡ (do mask ← parse_mask (some k) q; ok (record { address = a; mask = mask }))
  unfolding parse parse_parts MavAddress.first?
  parse-separated a k q valid delimiter some_mask plain = rw (
    parse-rejects (MavAddress.print a ++ k ∷ q) (
        all_address_chars-bad (MavAddress.print a) k q (not-address-char k delimiter).0
          (not-address-char k delimiter).1),
    splits.pair (MavAddress.print a) k q (print-ne-nil a) some_mask delimiter (print-IsPlain a)
        plain,
    address-parse-print a valid,
    parse,
  )

  -- The string constructor reads back what `<<` prints, for every subnet with a 16 bit mask.
  pub parse_subnet-print : (s : MavSubnet) → IsValid s → parse tokens (print s) ≡ ok s
  unfolding print
  parse_subnet-print s (valid, fits) =
      elim (suffix-Readable s.mask suffixes fits suffixes_readable) [
        | inl (e, full) ↦
            rw (e, append-nil (MavAddress.print s.address), full)
              (whole-address tokens s.address valid)
        | inr (k, q, e, delimiter, some_mask, plain, read) ↦
            rw e (parse-separated s.address k q valid delimiter some_mask plain ∙ rw read)
      ]
