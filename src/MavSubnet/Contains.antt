-- ===== src/MavSubnet/Contains.antt =====
-- Which addresses a subnet contains.
use native.Mathlib.Nat.{one-le-pow, eq_of_mul-eq-mul_right, mod-eq_of_lt, div-lt_iff_lt-mul}
use mavtables.Prelude.{
  ℕ, suc, zero, ◌-◌, ◌*◌, ◌/◌, ◌%◌, ◌^◌, ◌≤◌, ◌<◌, ◌≡◌, refl, ap, ◌↔◌, true, arith, ◌==◌, ==_iff,
  ◌∙◌, subst, sym,
}
use mavtables.Prelude.Bits.{bit_and-mask, all_below, all_below_sound}
use mavtables.MavAddress.{MavAddress, component}
use mavtables.MavAddress
use mavtables.MavAddress.Fields.{component-eq-mod}
use mavtables.MavSubnet.{MavSubnet, slash_mask, backslash_mask, contains}

slash_mask_table : all_below 17 (λ n. slash_mask n == (2 ^ n - 1) * 2 ^ (16 - n)) ≡ true
unfolding all_below slash_mask
slash_mask_table = refl

pub slash_mask-eq : (n : ℕ) → n ≤ 16 → slash_mask n ≡ (2 ^ n - 1) * 2 ^ (16 - n)
slash_mask-eq n h =
    ground (
      arith,
      all_below_sound 17 (λ n. slash_mask n == (2 ^ n - 1) * 2 ^ (16 - n)) n slash_mask_table,
    )

backslash_mask_table : all_below 9 (λ n. backslash_mask n == (2 ^ n - 1) * 2 ^ (8 - n)) ≡ true
unfolding all_below backslash_mask
backslash_mask_table = refl

pub backslash_mask-eq : (n : ℕ) → n ≤ 8 → backslash_mask n ≡ (2 ^ n - 1) * 2 ^ (8 - n)
backslash_mask-eq n h = ground (
  arith,
  all_below_sound 9 (λ n. backslash_mask n == (2 ^ n - 1) * 2 ^ (8 - n)) n backslash_mask_table,
)

-- A mask of `n` ones above `k` zeros compares those `n` bits of the two addresses.
contains-mask :
    (s : MavSubnet) (a : MavAddress) (n k : ℕ)
    → s.mask ≡ (2 ^ n - 1) * 2 ^ k
    → (contains s a ≡ true) ↔ (a.address / 2 ^ k % 2 ^ n ≡ s.address.address / 2 ^ k % 2 ^ n)
unfolding contains
contains-mask s a n k e =
    rw (e, bit_and-mask n k a.address, bit_and-mask n k s.address.address)
      (
        λ h.
            eq_of_mul-eq-mul_right (2 ^ k) (one-le-pow k 2 (omega arith))
              (a.address / 2 ^ k % 2 ^ n) (s.address.address / 2 ^ k % 2 ^ n)
              ((==_iff (a.address / 2 ^ k % 2 ^ n * 2 ^ k)
                  (s.address.address / 2 ^ k % 2 ^ n * 2 ^ k)).0
                h),
        λ h.
            (==_iff (a.address / 2 ^ k % 2 ^ n * 2 ^ k)
                (s.address.address / 2 ^ k % 2 ^ n * 2 ^ k)).1
              (ap (λ (t : ℕ). t * 2 ^ k) h),
      )

two_pow_table : all_below 17 (λ n. 2 ^ n * 2 ^ (16 - n) == 65536) ≡ true
unfolding all_below
two_pow_table = refl

high_bits_fit : (n x : ℕ) → n ≤ 16 → x < 65536 → x / 2 ^ (16 - n) < 2 ^ n
high_bits_fit n x h hx = (div-lt_iff_lt-mul (one-le-pow (16 - n) 2 (omega arith))).1 (
    subst (λ (t : ℕ). x < t)
      (sym (
        (==_iff (2 ^ n * 2 ^ (16 - n)) 65536).0
          (all_below_sound 17 (λ m. 2 ^ m * 2 ^ (16 - m) == 65536) n two_pow_table (omega arith))))
      hx)

-- A subnet with the mask of "/n" contains an address exactly when the highest `n` of its 16 bits
-- are those of the subnet's address.
pub contains-slash :
    (s : MavSubnet) (a : MavAddress) (n : ℕ)
    → n ≤ 16
    → s.mask ≡ slash_mask n
    → MavAddress.IsValid s.address
    → MavAddress.IsValid a
    → (contains s a ≡ true) ↔ (a.address / 2 ^ (16 - n) ≡ s.address.address / 2 ^ (16 - n))
contains-slash s a n h e hs ha =
    rw
      (
        ← mod-eq_of_lt (high_bits_fit n a.address h ha),
        ← mod-eq_of_lt (high_bits_fit n s.address.address h hs),
      )
      (contains-mask s a n (16 - n) (e ∙ slash_mask-eq n h))

low_byte_bits : (n x : ℕ) → n ≤ 8 → x / 2 ^ (8 - n) % 2 ^ n ≡ x % 256 / 2 ^ (8 - n)
low_byte_bits zero x h = omega arith
low_byte_bits (suc zero) x h = omega arith
low_byte_bits (suc (suc zero)) x h = omega arith
low_byte_bits (suc (suc (suc zero))) x h = omega arith
low_byte_bits (suc (suc (suc (suc zero)))) x h = omega arith
low_byte_bits (suc (suc (suc (suc (suc zero))))) x h = omega arith
low_byte_bits (suc (suc (suc (suc (suc (suc zero)))))) x h = omega arith
low_byte_bits (suc (suc (suc (suc (suc (suc (suc zero))))))) x h = omega arith
low_byte_bits (suc (suc (suc (suc (suc (suc (suc (suc zero)))))))) x h = omega arith
low_byte_bits (suc (suc (suc (suc (suc (suc (suc (suc (suc n))))))))) x h = absurd (omega arith)

-- A subnet with the mask of "\n" contains an address exactly when the highest `n` bits of its
-- component ID are those of the subnet's, whatever the two system IDs are.
pub contains-backslash :
    (s : MavSubnet) (a : MavAddress) (n : ℕ)
    → n ≤ 8
    → s.mask ≡ backslash_mask n
    → (contains s a ≡ true) ↔ (component a / 2 ^ (8 - n) ≡ component s.address / 2 ^ (8 - n))
contains-backslash s a n h e =
    rw
      (
        component-eq-mod a,
        component-eq-mod s.address,
        ← low_byte_bits n a.address h,
        ← low_byte_bits n s.address.address h,
      )
      (contains-mask s a n (8 - n) (e ∙ backslash_mask-eq n h))
