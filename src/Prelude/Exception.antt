-- ===== src/Prelude/Exception.antt =====
-- C++ exceptions as values, and code that may throw. The texts of the messages are left out.
use Prim.Native.Nat.{ℕ, zero, suc, ◌≤◌, ◌<◌}
use native.Mathlib.Omega.{arith}
use mathlib.Core.List.{[], ◌∷◌}
use mathlib.Core.Path.{◌≡◌, refl, subst}
use mathlib.Core.Option.{none, some}
use mavtables.Prelude.Lists.{Bytes, IsByte, All, length, get_elem?, get_or}
use mathlib.Core.Logic.{◌≢◌, ◌⊎◌, inl, inr}

pub data Exception : Type 0 where
  invalid_argument : Exception
  out_of_range : Exception
  length_error : Exception
  runtime_error : Exception
  invalid_packet_id_error : ℕ → Exception
  recursion_error : Exception
  -- Not exceptions: the code has undefined behaviour, or the fuel of the model ran out.
  undefined_behaviour : Exception
  fuel_exhausted : Exception

pub data Result {ℓ} (A : Type ℓ) : Type ℓ where
  ok : A → Result A
  err : Exception → Result A

-- An exception skips what comes behind it.
infixl 5 ◌>>=◌ ◌>>◌
abbrev pub ◌>>=◌ {ℓ κ} : {A : Type ℓ} {B : Type κ} → Result A → (A → Result B) → Result B
err thrown >>= next = err thrown
ok value >>= next = next value

abbrev pub ◌>>◌ {κ} : {B : Type κ} → Result (Unit {0}) → Result B → Result B
err thrown >> next = err thrown
ok _ >> next = next

pub Result-cases {ℓ} :
    {A : Type ℓ} (r : Result A) → ((a : A) × (r ≡ ok a)) ⊎ ((e : Exception) × (r ≡ err e))
Result-cases (ok a) = inl (a, refl)
Result-cases (err e) = inr (e, refl)

-- A result of the code, not of the fuel that the model runs on.
abbrev pub IsReal {ℓ} : {A : Type ℓ} → Result A → Type ℓ
IsReal r = r ≢ err fuel_exhausted

pub >>=-IsReal {ℓ κ} :
    {A : Type ℓ} {B : Type κ} (m : Result A) (f : A → Result B)
    → IsReal m
    → ((a : A) → IsReal (f a))
    → IsReal (m >>= f)
>>=-IsReal (ok a) f h k = k a
>>=-IsReal (err e) f h k = λ q. h (cc)

-- `data[offset]`, with no check of the bounds.
unfoldable pub byte_at : Bytes → ℕ → Result ℕ
byte_at bytes offset = elim (get_elem? bytes offset) [
  | some b ↦ ok b
  | none ↦ err undefined_behaviour
]

pub byte_at-outside :
    (bytes : Bytes) (i : ℕ) → length bytes ≤ i → byte_at bytes i ≡ err undefined_behaviour
unfolding byte_at
byte_at-outside [] i h = refl
byte_at-outside (b ∷ bytes) zero h = absurd (omega arith)
byte_at-outside (b ∷ bytes) (suc i) h = byte_at-outside bytes i (omega arith)

pub byte_at-inside :
    (bytes : Bytes) (i : ℕ)
    → i < length bytes
    → All IsByte bytes
    → (byte_at bytes i ≡ ok (get_or bytes i 0)) × IsByte (get_or bytes i 0)
unfolding byte_at
byte_at-inside [] i h all = absurd (omega arith)
byte_at-inside (b ∷ bytes) zero h all = (refl, all.0)
byte_at-inside (b ∷ bytes) (suc i) h all = byte_at-inside bytes i (omega arith) all.1

-- What holds of a result, if there is one.
abbrev pub Gives {ℓ κ} : {A : Type ℓ} → (A → Type κ) → Result A → Type κ
Gives P (ok a) = P a
Gives P (err e) = Unit

pub >>=-Gives {ℓ κ ι} :
    {A : Type ℓ} {B : Type κ} (P : A → Type ι) (Q : B → Type ι) (m : Result A) (f : A → Result B)
    → Gives P m
    → ((a : A) → P a → Gives Q (f a))
    → Gives Q (m >>= f)
>>=-Gives P Q (ok a) f h k = k a h
>>=-Gives P Q (err e) f h k = tt

pub Gives-ok {ℓ κ} :
    {A : Type ℓ} (P : A → Type κ) (r : Result A) (a : A) → Gives P r → r ≡ ok a → P a
Gives-ok P r a h e = subst (Gives P) e h

pub Gives-Unit {ℓ} : {A : Type ℓ} (r : Result A) → Gives (λ a. Unit {0}) r
Gives-Unit (ok a) = tt
Gives-Unit (err e) = tt

pub Gives-map {ℓ κ} :
    {A : Type ℓ} (P Q : A → Type κ) (r : Result A) → Gives P r → ((a : A) → P a → Q a) → Gives Q r
Gives-map P Q (ok a) h f = f a h
Gives-map P Q (err e) h f = tt
