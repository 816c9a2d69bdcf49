-- ===== src/MavSubnet/Malformed.antt =====
-- Strings that are no subnet, and what the string constructor makes of them.
use mavtables.Prelude.{
  ℕ, ◌^◌, ◌<◌, ◌≡◌, ◌≢◌, ◌∙◌, ◌⊎◌, inl, inr, true, false, some, none, List, [], ◌∷◌, ◌++◌, arith,
  Bytes, All,
}
use mavtables.Prelude.Bits.{bit_and-zero}
use mavtables.Prelude.Int.{pos}
use mavtables.Prelude.Exception.{ok, err, invalid_argument, out_of_range, undefined_behaviour}
use mavtables.Text.{
  is_digit, is_space, decimal, extract_int, scan_sign, scan_number, skip_space, to_int, failed,
}
use mavtables.MavAddress
use mavtables.MavAddress.{MavAddress, construct}
use mavtables.MavAddress.Fields.{construct-fields}
use mavtables.MavAddress.Parse.{parse-construct}
use mavtables.MavSubnet.{MavSubnet, contains, parse, parse_mask, parse_parts}
use mavtables.MavSubnet.Parse.{
  Splits, IsPlain, is_delimiter, parse-separated, dotted-IsPlain, dotted-ne-nil,
}

-- The separators of the two forms that give a number of bits.
abbrev pub IsSlash : ℕ → Type 0
IsSlash k = (k ≡ b'/') ⊎ (k ≡ b'\\')

-- A byte at which no number begins: no digit, sign or blank.
abbrev pub IsJunk : ℕ → Type 0
IsJunk c = (is_digit c ≡ false) × (is_space c ≡ false) × (c ≢ b'-') × (c ≢ b'+')

slash-is_delimiter : (k : ℕ) → IsSlash k → is_delimiter k ≡ true
unfolding is_delimiter
slash-is_delimiter k h = ground arith

extract_int-junk :
    (c : ℕ) (q : Bytes) → IsJunk c → extract_int (c ∷ q) ≡ failed (some (pos 0)) (c ∷ q)
unfolding extract_int scan_sign scan_number skip_space to_int
extract_int-junk c q h = ground arith

extract_int-blank :
    (c : ℕ) (q : Bytes)
    → All (λ d. is_space d ≡ true) (c ∷ q)
    → extract_int (c ∷ q) ≡ failed none []
unfolding extract_int to_int
extract_int-blank c q h = rw (skip c q h.0 h.1)
  where
    skip :
        (d : ℕ) (s : Bytes)
        → is_space d ≡ true
        → All (λ d. is_space d ≡ true) s
        → skip_space (d ∷ s) ≡ []
    skip d [] h k = rw h
    skip d (e ∷ s) h k = rw h (skip e s k.0 k.1)

parse_mask-junk : (k c : ℕ) (q : Bytes) → IsSlash k → IsJunk c → parse_mask (some k) (c ∷ q) ≡ ok 0
unfolding parse_mask
parse_mask-junk k c q (inl e) h = rw (e, extract_int-junk c q h)
parse_mask-junk k c q (inr e) h = rw (e, extract_int-junk c q h)

parse_mask-blank :
    (k c : ℕ) (q : Bytes)
    → IsSlash k
    → All (λ d. is_space d ≡ true) (c ∷ q)
    → parse_mask (some k) (c ∷ q) ≡ err undefined_behaviour
unfolding parse_mask
parse_mask-blank k c q (inl e) h = rw (e, extract_int-blank c q h)
parse_mask-blank k c q (inr e) h = rw (e, extract_int-blank c q h)

spaces-IsPlain : (s : Bytes) → All (λ d. is_space d ≡ true) s → All IsPlain s
unfolding is_space is_delimiter
spaces-IsPlain [] h = tt
spaces-IsPlain (c ∷ s) h = (ground arith, spaces-IsPlain s h.1)

module _ {tokens : Bytes → List Bytes} (splits : Splits tokens) where
  -- A text in place of the number of bits is not refused: behind a valid address and '/' or '\', where
  -- the text has none of ':', '/' and '\' and its first byte is no digit, sign or blank, the subnet is
  -- accepted and contains every address.
  pub parse_accepts_junk :
      (a : MavAddress) (k c : ℕ) (q : Bytes) (b : MavAddress)
      → MavAddress.IsValid a
      → IsSlash k
      → IsJunk c
      → All IsPlain (c ∷ q)
      → (s : MavSubnet) × (parse tokens (MavAddress.print a ++ k ∷ c ∷ q) ≡ ok s)
        × (contains s b ≡ true)
  unfolding contains
  parse_accepts_junk a k c q b valid slash junk plain = (
    record { address = a; mask = 0 },
    parse-separated splits a k (c ∷ q) valid (slash-is_delimiter k slash) (λ e. cc) plain
        ∙ rw (parse_mask-junk k c q slash junk),
    rw (bit_and-zero b.address, bit_and-zero a.address),
  )

  -- Blanks in place of the number of bits leave the variable for it without a value, which the
  -- constructor then reads.
  pub parse-undefined :
      (a : MavAddress) (k c : ℕ) (q : Bytes)
      → MavAddress.IsValid a
      → IsSlash k
      → All (λ d. is_space d ≡ true) (c ∷ q)
      → parse tokens (MavAddress.print a ++ k ∷ c ∷ q) ≡ err undefined_behaviour
  parse-undefined a k c q valid slash blanks =
      parse-separated splits a k (c ∷ q) valid (slash-is_delimiter k slash) (λ e. cc)
        (spaces-IsPlain (c ∷ q) blanks)
      ∙ rw (parse_mask-blank k c q slash blanks)

  -- An ID above 255 in a plain address is reported as `out_of_range` by the address, but as
  -- `invalid_argument` by the subnet.
  pub parse-large_id :
      (m n : ℕ)
      → m < 2 ^ 32
      → n < 2 ^ 32
      → (255 < m) ⊎ (255 < n)
      → (MavAddress.parse (decimal m ++ b'.' ∷ decimal n) ≡ err out_of_range)
        × (parse tokens (decimal m ++ b'.' ∷ decimal n) ≡ err invalid_argument)
  unfolding parse parse_parts
  parse-large_id m n hm hn large =
      let refused : MavAddress.parse (decimal m ++ b'.' ∷ decimal n) ≡ err out_of_range =
        parse-construct m n hm hn ∙ construct-large m n large in
      (refused, rw (refused, splits.whole _ (dotted-ne-nil m n) (dotted-IsPlain m n), parse))
    where
      construct-large : (m n : ℕ) → (255 < m) ⊎ (255 < n) → construct m n ≡ err out_of_range
      construct-large m n h = ground (arith, construct-fields m n)
