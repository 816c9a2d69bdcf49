-- ===== src/Text/Octets.antt =====
-- What `extract_all` reads from numbers that blanks set apart.
use native.Mathlib.Nat.{one-le-pow}
use mavtables.Prelude.{
  ℕ, zero, suc, ◌-◌, ◌^◌, ◌<◌, ◌≤◌, ◌≡◌, refl, ap, subst, ◌∙◌, Bool, true, Option, some, List, [],
  ◌∷◌, ◌++◌, arith, Bytes, All, length, append-nil,
}
use mavtables.Text.{
  is_digit, is_space, stored, failed, to_unsigned, extract_unsigned, extract_all, decimal,
}
use mavtables.Text.Decimal.{NoDigit, scan-decimal}

-- Each number behind a blank, and then the rest of the text.
abbrev pub spaced : List ℕ → Bytes → Bytes
spaced [] rest = rest
spaced (n ∷ ns) rest = b' ' ∷ (decimal n ++ spaced ns rest)

pub spaced-append :
    (ns ms : List ℕ) (rest : Bytes) → spaced (ns ++ ms) rest ≡ spaced ns (spaced ms rest)
spaced-append [] ms rest = refl
spaced-append (n ∷ ns) ms rest = ap (λ s. b' ' ∷ (decimal n ++ s)) (spaced-append ns ms rest)

pub extract_unsigned-space :
    (w : ℕ) (s : Bytes) → extract_unsigned w (b' ' ∷ s) ≡ extract_unsigned w s
unfolding extract_unsigned is_space
extract_unsigned-space w s = refl

pub extract_all-space : (w f : ℕ) (s : Bytes) → extract_all w f (b' ' ∷ s) ≡ extract_all w f s
unfolding extract_all
extract_all-space w zero s = refl
extract_all-space w (suc f) s = rw (extract_unsigned-space w s, extract_all)

-- A number that fits is stored, and a larger one fails.
pub extract_unsigned-decimal :
    (w n : ℕ) (rest : Bytes)
    → n < 2 ^ w
    → NoDigit rest
    → extract_unsigned w (decimal n ++ rest) ≡ stored n rest
unfolding extract_unsigned
extract_unsigned-decimal w n rest fits h =
    rw (scan-decimal n rest h) (unfold to_unsigned in ground arith)

pub extract_unsigned-decimal_overflow :
    (w n : ℕ) (rest : Bytes)
    → 2 ^ w ≤ n
    → NoDigit rest
    → extract_unsigned w (decimal n ++ rest) ≡ failed (some (2 ^ w - 1)) rest
unfolding extract_unsigned
extract_unsigned-decimal_overflow w n rest over h =
    rw (scan-decimal n rest h) (unfold to_unsigned in ground (arith, one-le-pow w 2))

pub NoDigit-spaced : (ns : List ℕ) (rest : Bytes) → NoDigit rest → NoDigit (spaced ns rest)
unfolding is_digit
NoDigit-spaced [] rest h = h
NoDigit-spaced (n ∷ ns) rest h = refl

extract_all-stored :
    (w f x : ℕ) (s rest : Bytes)
    → extract_unsigned w s ≡ stored x rest
    → extract_all w (suc f) s ≡ (x ∷ (extract_all w f rest).0, (extract_all w f rest).1)
unfolding extract_all
extract_all-stored w f x s rest h = rw (h, extract_all)

extract_all-failed :
    (w f : ℕ) (s : Bytes) (kept : Option ℕ)
    → extract_unsigned w s ≡ failed kept []
    → extract_all w (suc f) s ≡ ([], true)
unfolding extract_all
extract_all-failed w f s kept h = rw (h, extract_all)

-- Where the loop stops without a number, at the end of the text.
abbrev pub Ends : ℕ → Bytes → Type 0
Ends w rest = (f : ℕ) → extract_all w (suc f) rest ≡ ([], true)

pub Ends-nil : (w : ℕ) → Ends w []
unfolding extract_all extract_unsigned
Ends-nil w f = refl

-- A last number that does not fit also ends the loop, with no error left to see.
pub Ends-overflow : (w n : ℕ) → 2 ^ w ≤ n → Ends w (b' ' ∷ decimal n)
unfolding extract_all
Ends-overflow w n h f = extract_all-failed w f (b' ' ∷ decimal n) (some (2 ^ w - 1)) (
    rw (extract_unsigned-space w (decimal n)) (
      subst (λ s. extract_unsigned w s ≡ failed (some (2 ^ w - 1)) []) (append-nil (decimal n))
        (extract_unsigned-decimal_overflow w n [] h tt)))

pub extract_all-spaced :
    (w f : ℕ) (ns : List ℕ) (rest : Bytes)
    → All (λ n. n < 2 ^ w) ns
    → length ns < f
    → NoDigit rest
    → Ends w rest
    → extract_all w f (spaced ns rest) ≡ (ns, true)
unfolding extract_all
extract_all-spaced w zero ns rest fit enough edge ends = absurd (omega arith)
extract_all-spaced w (suc f) [] rest fit enough edge ends = ends f
extract_all-spaced w (suc f) (n ∷ ns) rest fit enough edge ends =
    extract_all-stored w f n (b' ' ∷ (decimal n ++ spaced ns rest)) (spaced ns rest) first
    ∙ ap (λ (r : List ℕ × Bool). (n ∷ r.0, r.1))
        (extract_all-spaced w f ns rest fit.1 (omega arith) edge ends)
  where
    first : extract_unsigned w (b' ' ∷ (decimal n ++ spaced ns rest)) ≡ stored n (spaced ns rest)
    first =
        rw (extract_unsigned-space w (decimal n ++ spaced ns rest))
          (extract_unsigned-decimal w n (spaced ns rest) fit.0 (NoDigit-spaced ns rest edge))
