-- ===== src/MavAddress/Fields.antt =====
-- The two IDs of an address, and the order of addresses.
use Prim.Native.Nat.{bit_and, bit_or}
use mavtables.Prelude.{
  ℕ, ◌+◌, ◌*◌, ◌/◌, ◌%◌, ◌^◌, ◌≤◌, ◌<◌, ◌≡◌, ap, ◌↔◌, ◌⊎◌, inl, inr, true, not, ◌&&◌, ◌||◌, ◌∙◌,
  Bool-cases, arith, ltb,
}
use mavtables.Prelude.Bits.{bit_and-ones, bit_and-mask, bit_or-fields}
use mavtables.Prelude.Exception.{Result, ok, err, out_of_range}
use mavtables.MavAddress.{MavAddress, IsValid, construct, system, component, eq, ne, lt, gt, le, ge}

pub system-eq-div : (a : MavAddress) → IsValid a → system a ≡ a.address / 256
unfolding system
system-eq-div a h = omega (arith, bit_and-ones 8 (a.address / 2 ^ 8))

pub component-eq-mod : (a : MavAddress) → component a ≡ a.address % 256
unfolding component
component-eq-mod a = bit_and-ones 8 a.address

-- The bit operations of `construct` put the two bytes side by side.
pub packed-eq :
    (s c : ℕ)
    → s ≤ 255
    → c ≤ 255
    → bit_or (bit_and (s * 2 ^ 8) 0xff00) (bit_and c 0xff) ≡ s * 256 + c
packed-eq s c hs hc =
    rw (high, bit_and-ones 8 c) (omega (arith, bit_or-fields 8 s (c % 256) (omega arith)))
  where
    high : bit_and (s * 2 ^ 8) 0xff00 ≡ s * 2 ^ 8
    high = omega (arith, bit_and-mask 8 8 (s * 2 ^ 8))

pub construct-eq :
    (s c : ℕ) → s ≤ 255 → c ≤ 255 → construct s c ≡ ok (record { address = s * 256 + c })
unfolding construct
construct-eq s c hs hc = ground (arith, packed-eq s c hs hc)

-- Both IDs fit in a byte, and the address is within 16 bits and gives them back; or one does not
-- fit, and the exception is `out_of_range`.
abbrev pub Constructs : ℕ → ℕ → Result MavAddress → Type 0
Constructs s c r =
    ((s ≤ 255)
      × (c ≤ 255)
      × ((a : MavAddress) × (r ≡ ok a) × IsValid a × (system a ≡ s) × (component a ≡ c)))
    ⊎ (((255 < s) ⊎ (255 < c)) × (r ≡ err out_of_range))

-- The constructor from two IDs accepts them exactly when both fit in a byte; the address that it
-- makes is within 16 bits and gives the two IDs back, and every other pair is `out_of_range`.
pub construct-fields : (s c : ℕ) → Constructs s c (construct s c)
construct-fields s c = elim (Bool-cases (ltb 255 s || ltb 255 c)) [
  | inl large ↦ inr (ground arith, unfold construct in ground arith)
  | inr small ↦
      let hs : s ≤ 255 = ground arith in
      let hc : c ≤ 255 = ground arith in
      let made : MavAddress = record { address = s * 256 + c } in
      inl (
        hs,
        hc,
        (
          made,
          construct-eq s c hs hc,
          omega arith,
          omega (arith, system-eq-div made (omega arith)),
          omega (arith, component-eq-mod made),
        ),
      )
]

-- An address is the one that its two IDs construct.
pub construct-system-component :
    (a : MavAddress) → IsValid a → construct (system a) (component a) ≡ ok a
construct-system-component a h =
    rw (system-eq-div a h, component-eq-mod a)
      (construct-eq (a.address / 256) (a.address % 256) (omega arith) (omega arith)
        ∙ ap (λ (n : ℕ). ok (record { address = n })) (omega arith))

-- Addresses are ordered by the system ID first and the component ID second.
pub lt-lexicographic :
    (a b : MavAddress)
    → IsValid a
    → IsValid b
    → (lt a b ≡ true)
      ↔ ((system a < system b) ⊎ ((system a ≡ system b) × (component a < component b)))
unfolding lt
lt-lexicographic a b ha hb = (
  λ h.
      ground
        (arith, system-eq-div a ha, system-eq-div b hb, component-eq-mod a, component-eq-mod b),
  λ h.
      ground
        (arith, system-eq-div a ha, system-eq-div b hb, component-eq-mod a, component-eq-mod b),
)

-- The six comparisons agree: exactly one of `<`, `==` and `>` holds, and the others follow.
pub comparisons-agree :
    (a b : MavAddress)
    → (ne a b ≡ not (eq a b))
      × (gt a b ≡ lt b a)
      × (le a b ≡ not (lt b a))
      × (ge a b ≡ not (lt a b))
      × (eq a b ≡ (not (lt a b) && not (lt b a)))
unfolding eq ne lt gt le ge
comparisons-agree a b = ground arith

pub construct-bytes :
    (s c : ℕ)
    → s < 256
    → c < 256
    → (a : MavAddress) × (construct s c ≡ ok a) × (system a ≡ s) × (component a ≡ c)
construct-bytes s c hs hc = elim (construct-fields s c) [
  | inl (_, _, (a, made, _, sys, comp)) ↦ (a, made, sys, comp)
  | inr (large, _) ↦ absurd (omega arith)
]
