-- ===== src/Examples/Tokens.antt =====
-- A tokenizer that keeps its delimiters, as `boost::tokenizer` does for src/MAVSubnet.cpp.
use mavtables.Prelude.{ℕ, ◌≡◌, ◌≢◌, refl, true, List, [], ◌∷◌, ◌++◌, Bytes, All, if◌then◌else◌}
use mavtables.MavSubnet.Parse.{Splits, IsPlain, is_delimiter}

unfoldable attach : ℕ → List Bytes → List Bytes
attach c [] = (c ∷ []) ∷ []
attach c ([] ∷ ts) = (c ∷ []) ∷ ts
attach c ((d ∷ t) ∷ ts) = if is_delimiter d then (c ∷ []) ∷ (d ∷ t) ∷ ts else (c ∷ d ∷ t) ∷ ts

unfoldable pub split : Bytes → List Bytes
unfolding attach
split [] = []
split (c ∷ s) = let rest = split s in if is_delimiter c then (c ∷ []) ∷ rest else attach c rest

split-whole : (p : Bytes) → p ≢ [] → All IsPlain p → split p ≡ p ∷ []
unfolding split attach
split-whole [] some_text plain = absurd (some_text refl)
split-whole (c ∷ []) some_text plain = rw (plain.0)
split-whole (c ∷ d ∷ p) some_text plain =
    rw (split-whole (d ∷ p) (λ e. cc) plain.1, plain.0) (rw (plain.1.0))

split-pair :
    (p : Bytes) (k : ℕ) (q : Bytes)
    → p ≢ []
    → q ≢ []
    → is_delimiter k ≡ true
    → All IsPlain p
    → All IsPlain q
    → split (p ++ k ∷ q) ≡ p ∷ (k ∷ []) ∷ q ∷ []
unfolding split attach
split-pair [] k q some_p some_q delimiter plain_p plain_q = absurd (some_p refl)
split-pair (c ∷ []) k q some_p some_q delimiter plain_p plain_q =
    rw (split-whole q some_q plain_q, delimiter, plain_p.0) (rw delimiter)
split-pair (c ∷ d ∷ p) k q some_p some_q delimiter plain_p plain_q =
    rw (split-pair (d ∷ p) k q (λ e. cc) some_q delimiter plain_p.1 plain_q, plain_p.0)
      (rw (plain_p.1.0))

pub split-Splits : Splits split
split-Splits = record { whole = split-whole; pair = split-pair }
