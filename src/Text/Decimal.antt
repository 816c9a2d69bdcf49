-- ===== src/Text/Decimal.antt =====
-- Reading back what `decimal` prints.
use mavtables.Prelude.{
  ℕ, zero, suc, ◌+◌, ◌/◌, ◌%◌, ◌*◌, ◌-◌, ◌<◌, ◌≤◌, ◌≡◌, refl, ap, subst, ◌∙◌, true, false, [], ◌∷◌,
  ◌++◌, append_assoc, arith, Bytes, All, All-append, ltb, Bool-cases, inl, inr,
}
use mavtables.Text.{
  is_digit, is_space, scan_digits, scan_sign, scan_number, scan, skip_space, number, decimal,
  decimal_digits,
}

abbrev pub IsDigit : ℕ → Type 0
IsDigit c = is_digit c ≡ true

IsDigit-of_lt : (d : ℕ) → d < 10 → IsDigit (b'0' + d)
unfolding is_digit
IsDigit-of_lt d h = ground arith

decimal_digits-IsDigit : (f n : ℕ) → All IsDigit (decimal_digits f n)
unfolding decimal_digits
decimal_digits-IsDigit zero n = tt
decimal_digits-IsDigit (suc f) n = elim (Bool-cases (ltb n 10)) [
  | inl small ↦ rw small (IsDigit-of_lt n (ground arith), tt)
  | inr large ↦ rw large (
      All-append IsDigit (decimal_digits f (n / 10)) ((b'0' + n % 10) ∷ [])
        (decimal_digits-IsDigit f (n / 10)) (IsDigit-of_lt (n % 10) (omega arith), tt))
]

pub decimal-IsDigit : (n : ℕ) → All IsDigit (decimal n)
unfolding decimal
decimal-IsDigit n = decimal_digits-IsDigit (suc n) n

pub scan_digits_step :
    (n c : ℕ) (s : Bytes) → IsDigit c → scan_digits n (c ∷ s) ≡ scan_digits (n * 10 + (c - b'0')) s
unfolding scan_digits
scan_digits_step n c s h = rw h

-- The digits of `n` are read as `n`, and reading goes on behind them.
scan_digits-decimal_digits :
    (f n : ℕ) (rest : Bytes)
    → n < f
    → scan_digits 0 (decimal_digits f n ++ rest) ≡ scan_digits n rest
unfolding decimal_digits
scan_digits-decimal_digits zero n rest h = absurd (omega arith)
scan_digits-decimal_digits (suc f) n rest h = elim (Bool-cases (ltb n 10)) [
  | inl small ↦
      rw (small, scan_digits_step 0 (b'0' + n) rest (IsDigit-of_lt n (ground arith)))
        (ap (λ (m : ℕ). scan_digits m rest) (omega arith))
  | inr large ↦
      rw
        (
          large,
          append_assoc,
          scan_digits-decimal_digits f (n / 10) ((b'0' + n % 10) ∷ rest) (ground arith),
          scan_digits_step (n / 10) (b'0' + n % 10) rest (IsDigit-of_lt (n % 10) (omega arith)),
        )
        (ap (λ (m : ℕ). scan_digits m rest) (omega arith))
]

-- A text that does not begin with a digit.
abbrev pub NoDigit : Bytes → Type 0
NoDigit [] = Unit
NoDigit (c ∷ s) = is_digit c ≡ false

digit_bounds : (c : ℕ) → IsDigit c → (b'0' ≤ c) × (c ≤ b'9')
unfolding is_digit
digit_bounds c h = ground arith

scan_digits-NoDigit : (n : ℕ) (s : Bytes) → NoDigit s → scan_digits n s ≡ (n, s)
unfolding scan_digits
scan_digits-NoDigit n [] h = refl
scan_digits-NoDigit n (c ∷ s) h = rw h

pub scan_digits-decimal :
    (n : ℕ) (rest : Bytes) → NoDigit rest → scan_digits 0 (decimal n ++ rest) ≡ (n, rest)
unfolding decimal
scan_digits-decimal n rest h =
    rw (scan_digits-decimal_digits (suc n) n rest (omega arith)) (scan_digits-NoDigit n rest h)

decimal_digits-snoc :
    (f n : ℕ) → n < f → (xs : Bytes) × (d : ℕ) × (decimal_digits f n ≡ xs ++ d ∷ []) × IsDigit d
unfolding decimal_digits
decimal_digits-snoc zero n h = absurd (omega arith)
decimal_digits-snoc (suc f) n h = elim (Bool-cases (ltb n 10)) [
  | inl small ↦ ([], b'0' + n, rw small, IsDigit-of_lt n (ground arith))
  | inr large ↦
      (decimal_digits f (n / 10), b'0' + n % 10, rw large, IsDigit-of_lt (n % 10) (omega arith))
]

-- A printed number ends with a digit.
pub decimal-snoc : (n : ℕ) → (xs : Bytes) × (d : ℕ) × (decimal n ≡ xs ++ d ∷ []) × IsDigit d
unfolding decimal
decimal-snoc n = decimal_digits-snoc (suc n) n (omega arith)

snoc-cons :
    (xs : Bytes) (d : ℕ)
    → All IsDigit (xs ++ d ∷ [])
    → (c : ℕ) × (s : Bytes) × (xs ++ d ∷ [] ≡ c ∷ s) × IsDigit c
snoc-cons [] d h = (d, [], refl, h.0)
snoc-cons (x ∷ xs) d h = (x, xs ++ d ∷ [], refl, h.0)

-- And it begins with one.
pub decimal-cons : (n : ℕ) → (c : ℕ) × (s : Bytes) × (decimal n ≡ c ∷ s) × IsDigit c
decimal-cons n =
    let (xs, d, e, h) = decimal-snoc n in
    let (c, s, e', h') = snoc-cons xs d (subst (All IsDigit) e (decimal-IsDigit n)) in
    (c, s, e ∙ e', h')

-- A printed number is a field of the input that does not hold a sign.
pub scan-decimal :
    (n : ℕ) (rest : Bytes) → NoDigit rest → scan (decimal n ++ rest) ≡ number false n rest
unfolding scan skip_space scan_sign scan_number is_space
scan-decimal n rest h =
    let (c, s, e, d) = decimal-cons n in
    let plain : scan (c ∷ (s ++ rest)) ≡ scan_number false (c ∷ (s ++ rest)) =
      ground (arith, digit_bounds c d) in
    let digits : scan_digits 0 (c ∷ (s ++ rest)) ≡ (n, rest) =
      rw e at (scan_digits-decimal n rest h) in
    rw (e, plain, d, digits)
