-- ===== src/Prelude/Bits.antt =====
-- `&` with a contiguous mask and `|` of disjoint fields, as arithmetic. The libraries have no laws
-- of the native bit operations at variables.
use Prim.Native.Nat.{
  ℕ, zero, suc, ◌+◌, ◌-◌, ◌*◌, ◌/◌, ◌%◌, ◌^◌, ◌≤◌, ◌<◌, min, max, bit_and, bit_or, digits,
  bit_and-bitwise, bit_or-bitwise,
}
use mathlib.Core.Path.{◌≡◌, refl, ap, ◌∙◌, ◌≡⟨◌⟩◌, ◌∎}
use native.Mathlib.Nat.{
  pow-suc, one-le-pow, mod-lt, mod-eq_of_lt, div-add-mod, mul-add-mod_self_left, div-div-eq-div-mul,
  mul-one, div-one,
}
use native.Mathlib.Omega.{arith}
use mathlib.Core.Bool.{Bool, true, ◌&&◌}

-- The count of digits makes no difference once it is large enough, whichever the operation is.
digits-enough :
    (rest : ℕ → ℕ) (pick : ℕ → ℕ → ℕ) (count more a b : ℕ)
    → a ≤ count
    → count ≤ more
    → digits rest pick more a b ≡ digits rest pick count a b
digits-enough rest pick zero zero zero b small large = refl
digits-enough rest pick zero (suc more) zero b small large = refl
digits-enough rest pick (suc count) zero a b small large = absurd (omega arith)
digits-enough rest pick zero more (suc a) b small large = absurd (omega arith)
digits-enough rest pick (suc count) (suc more) zero b small large = refl
digits-enough rest pick (suc count) (suc more) (suc a) b small large =
    ap (λ (t : ℕ). t * 2 + pick (suc a % 2) (b % 2))
      (digits-enough rest pick count more (suc a / 2) (b / 2) (omega arith) (omega arith))

-- Both operations split into the lowest digit and the rest of the digits.
bit_and_step : (a b : ℕ) → bit_and a b ≡ bit_and (a / 2) (b / 2) * 2 + min (a % 2) (b % 2)
bit_and_step a b = rw (bit_and-bitwise a b, bit_and-bitwise (a / 2) (b / 2)) (lowest a)
  where
    lowest :
        (a : ℕ)
        → digits (λ _. zero) min a a b
          ≡ digits (λ _. zero) min (a / 2) (a / 2) (b / 2) * 2 + min (a % 2) (b % 2)
    lowest zero = omega arith
    lowest (suc a) =
        ap (λ (t : ℕ). t * 2 + min (suc a % 2) (b % 2))
          (digits-enough (λ _. zero) min (suc a / 2) a (suc a / 2) (b / 2) (omega arith)
            (omega arith))

bit_or_step : (a b : ℕ) → bit_or a b ≡ bit_or (a / 2) (b / 2) * 2 + max (a % 2) (b % 2)
bit_or_step a b = rw (bit_or-bitwise a b, bit_or-bitwise (a / 2) (b / 2)) (lowest a)
  where
    lowest :
        (a : ℕ)
        → digits (λ c. c) max a a b
          ≡ digits (λ c. c) max (a / 2) (a / 2) (b / 2) * 2 + max (a % 2) (b % 2)
    lowest zero = omega arith
    lowest (suc a) =
        ap (λ (t : ℕ). t * 2 + max (suc a % 2) (b % 2))
          (digits-enough (λ c. c) max (suc a / 2) a (suc a / 2) (b / 2) (omega arith) (omega arith))

pub bit_and-zero : (a : ℕ) → bit_and a 0 ≡ 0
bit_and-zero a = bit_and-bitwise a 0 ∙ nothing a a
  where
    nothing : (count a : ℕ) → digits (λ _. zero) min count a 0 ≡ 0
    nothing zero a = refl
    nothing (suc count) zero = refl
    nothing (suc count) (suc a) = omega (arith, nothing count (suc a / 2))

bit_or-zero : (a : ℕ) → bit_or a 0 ≡ a
bit_or-zero a = bit_or-bitwise a 0 ∙ everything a a (omega arith)
  where
    everything : (count a : ℕ) → a ≤ count → digits (λ c. c) max count a 0 ≡ a
    everything zero zero small = refl
    everything zero (suc a) small = absurd (omega arith)
    everything (suc count) zero small = refl
    everything (suc count) (suc a) small = omega (arith, everything count (suc a / 2) (omega arith))

times_two_pow-suc : (m k : ℕ) → m * 2 ^ suc k ≡ 2 * (m * 2 ^ k)
times_two_pow-suc m k = omega (arith, ap (λ (t : ℕ). m * t) (pow-suc 2 k))

mod-two_pow-suc : (n a : ℕ) → a % 2 ^ suc n ≡ a / 2 % 2 ^ n * 2 + a % 2
mod-two_pow-suc n a =
    a % 2 ^ suc n
    ≡⟨ ap (λ (t : ℕ). t % 2 ^ suc n) parts ⟩ (2 ^ suc n * q + low) % 2 ^ suc n
    ≡⟨ mul-add-mod_self_left (2 ^ suc n) q low ⟩ low % 2 ^ suc n
    ≡⟨ mod-eq_of_lt fits ⟩ low ∎
  where
    q : ℕ
    q = a / 2 / 2 ^ n

    low : ℕ
    low = a / 2 % 2 ^ n * 2 + a % 2

    parts : a ≡ 2 ^ suc n * q + low
    parts =
        omega
          (arith, div-add-mod (a / 2) (2 ^ n), ap (λ (t : ℕ). t * (a / 2 / 2 ^ n)) (pow-suc 2 n))

    fits : low < 2 ^ suc n
    fits = omega (arith, mod-lt (a / 2) (one-le-pow n 2 (omega arith)), pow-suc 2 n)

-- `n` ones select the lowest `n` bits.
pub bit_and-ones : (n a : ℕ) → bit_and a (2 ^ n - 1) ≡ a % 2 ^ n
bit_and-ones zero a = omega (arith, bit_and-zero a)
bit_and-ones (suc n) a =
    rw (bit_and_step a (2 ^ suc n - 1), halves, bit_and-ones n (a / 2), mod-two_pow-suc n a)
      (omega (arith, pow-suc 2 n, one-le-pow n 2 (omega arith)))
  where
    halves : (2 ^ suc n - 1) / 2 ≡ 2 ^ n - 1
    halves = omega (arith, pow-suc 2 n, one-le-pow n 2 (omega arith))

-- `n` ones above `k` zeros select the `n` bits above the lowest `k`.
pub bit_and-mask : (n k a : ℕ) → bit_and a ((2 ^ n - 1) * 2 ^ k) ≡ a / 2 ^ k % 2 ^ n * 2 ^ k
bit_and-mask n zero a = rw (mul-one, div-one, mul-one) (bit_and-ones n a)
bit_and-mask n (suc k) a =
    rw (bit_and_step a ((2 ^ n - 1) * 2 ^ suc k), halves, bit_and-mask n k (a / 2), quotient)
      (omega (arith, times_two_pow-suc (2 ^ n - 1) k, times_two_pow-suc (a / 2 / 2 ^ k % 2 ^ n) k))
  where
    halves : (2 ^ n - 1) * 2 ^ suc k / 2 ≡ (2 ^ n - 1) * 2 ^ k
    halves = omega (arith, times_two_pow-suc (2 ^ n - 1) k)

    quotient : a / 2 ^ suc k ≡ a / 2 / 2 ^ k
    quotient =
        rw (div-div-eq-div-mul a 2 (2 ^ k)) (ap (λ (t : ℕ). a / t) (omega (arith, pow-suc 2 k)))

-- `(q << k) | r` is a sum when `r` fits in `k` bits.
pub bit_or-fields : (k q r : ℕ) → r < 2 ^ k → bit_or (q * 2 ^ k) r ≡ q * 2 ^ k + r
bit_or-fields zero q r h = omega (arith, bit_or-zero (q * 1), r-zero)
  where
    r-zero : bit_or (q * 1) r ≡ bit_or (q * 1) 0
    r-zero = ap (bit_or (q * 1)) (omega arith)
bit_or-fields (suc k) q r h =
    rw (bit_or_step (q * 2 ^ suc k) r, halves, bit_or-fields k q (r / 2) fits)
      (omega (arith, times_two_pow-suc q k))
  where
    halves : q * 2 ^ suc k / 2 ≡ q * 2 ^ k
    halves = omega (arith, times_two_pow-suc q k)

    fits : r / 2 < 2 ^ k
    fits = omega (arith, pow-suc 2 k)

-- A test of every number below a bound, which evaluation runs.
unfoldable pub all_below : ℕ → (ℕ → Bool) → Bool
all_below zero test = true
all_below (suc bound) test = test 0 && all_below bound (λ n. test (suc n))

pub all_below_sound :
    (bound : ℕ) (test : ℕ → Bool) (n : ℕ) → all_below bound test ≡ true → n < bound → test n ≡ true
unfolding all_below
all_below_sound zero test n all inside = absurd (omega arith)
all_below_sound (suc bound) test zero all inside = ground arith
all_below_sound (suc bound) test (suc n) all inside =
    all_below_sound bound (λ m. test (suc m)) n (ground arith) (omega arith)
