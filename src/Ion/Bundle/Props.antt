-- ===== src/Ion/Bundle/Props.antt =====
-- What the packed word of a bundle reads as.
use regalloc.Prelude.{
  ℕ, ◌-◌, ◌%◌, ◌^◌, ◌≤◌, ◌<◌, ◌≡◌, ◌≢◌, refl, ap, ◌∙◌, max, bit_and, bit_or, Bool, true, false,
  ◌==◌, some, ==_iff, leb, arith,
}
use native.Mathlib.Nat.{zero-div, pow-le-pow_right, div-eq_of_lt, lt_of_lt_of_le}
use regalloc.Prelude.Bits.{
  bit_at, bit_at-bit_or, bit_at-pow_ne, bit_at-pow_self, bit_and-low_mask, low_bits_ext,
}
use regalloc.Prelude.Masks.{masked_bit}
use regalloc.Ion.Bundle.{
  LiveBundle, bundle_max_spill_weight, flag, set_cached_spill_weight_and_props, cached_minimal,
  cached_fixed, cached_fixed_def, cached_stack, cached_spill_weight,
}

abbrev packed : ℕ → Bool → Bool → Bool → ℕ
packed w m f d = bit_or (bit_or (bit_or w (flag m 31)) (flag f 30)) (flag d 29)

bit_at-packed :
    (w : ℕ) (m f d : Bool) (i : ℕ)
    → bit_at (packed w m f d) i
      ≡ max
          (max (max (bit_at w i) (bit_at (flag m 31) i)) (bit_at (flag f 30) i))
          (bit_at (flag d 29) i)
bit_at-packed w m f d i =
    rw
      (
        bit_at-bit_or (bit_or (bit_or w (flag m 31)) (flag f 30)) (flag d 29) i,
        bit_at-bit_or (bit_or w (flag m 31)) (flag f 30) i,
        bit_at-bit_or w (flag m 31) i,
      )
      refl

-- A flag is its bit, and no other.
flag_self : (b : Bool) (k : ℕ) → (bit_at (flag b k) k == 1) ≡ b
flag_self true k = (==_iff (bit_at (2 ^ k) k) 1).1 (bit_at-pow_self k)
flag_self false k = rw (zero-div (2 ^ k)) refl

flag_other : (b : Bool) (k i : ℕ) → k ≢ i → bit_at (flag b k) i ≡ 0
flag_other true k i ne = bit_at-pow_ne k i ne
flag_other false k i ne = rw (zero-div (2 ^ i)) refl

none_above : (w k i : ℕ) → w < 2 ^ k → k ≤ i → bit_at w i ≡ 0
none_above w k i h le =
    rw (div-eq_of_lt (lt_of_lt_of_le h (pow-le-pow_right {n = 2} (omega arith) le))) refl

-- For a weight within BUNDLE_MAX_SPILL_WEIGHT, the flags that are set read back as they were set, but
-- the flag for the stack reads as bit 28 of the weight, and the weight reads back without that bit.
pub set_cached-cached :
    (b : LiveBundle) (w : ℕ) (m f d : Bool)
    → w ≤ bundle_max_spill_weight
    → (b' : LiveBundle) × (set_cached_spill_weight_and_props b w m f d ≡ some b')
      × (cached_minimal b' ≡ m)
      × (cached_fixed b' ≡ f)
      × (cached_fixed_def b' ≡ d)
      × (cached_stack b' ≡ leb (2 ^ 28) w)
      × (cached_spill_weight b' ≡ w % 2 ^ 28)
unfolding set_cached_spill_weight_and_props cached_minimal cached_fixed cached_fixed_def
    cached_stack cached_spill_weight
set_cached-cached b w m f d h = (
  record b { spill_weight_and_props = packed w m f d },
  rw (leb_true) refl,
  masked_bit (packed w m f d) 31
      ∙ ap (λ z. z == 1)
          (bit_at-packed w m f d 31
            ∙ rw
                (
                  none_above w 29 31 small (omega arith),
                  flag_other f 30 31 (omega arith),
                  flag_other d 29 31 (omega arith),
                )
                (omega arith))
      ∙ flag_self m 31,
  masked_bit (packed w m f d) 30
      ∙ ap (λ z. z == 1)
          (bit_at-packed w m f d 30
            ∙ rw
                (
                  none_above w 29 30 small (omega arith),
                  flag_other m 31 30 (omega arith),
                  flag_other d 29 30 (omega arith),
                )
                (omega arith))
      ∙ flag_self f 30,
  masked_bit (packed w m f d) 29
      ∙ ap (λ z. z == 1)
          (bit_at-packed w m f d 29
            ∙ rw
                (
                  none_above w 29 29 small (omega arith),
                  flag_other m 31 29 (omega arith),
                  flag_other f 30 29 (omega arith),
                )
                (omega arith))
      ∙ flag_self d 29,
  masked_bit (packed w m f d) 28 ∙ ap (λ z. z == 1) (low 28 (omega arith)) ∙ ground (arith, small),
  weight,
)
  where
    small : w < 2 ^ 29
    small = omega (arith, h)

    leb_true : leb w bundle_max_spill_weight ≡ true
    leb_true = ground (arith, h)

    low : (i : ℕ) → i < 29 → bit_at (packed w m f d) i ≡ bit_at w i
    low i lt =
        bit_at-packed w m f d i
        ∙ rw
            (
              flag_other m 31 i (omega (arith, lt)),
              flag_other f 30 i (omega (arith, lt)),
              flag_other d 29 i (omega (arith, lt)),
            )
            (omega arith)

    weight : bit_and (packed w m f d) (2 ^ 28 - 1) ≡ w % 2 ^ 28
    weight =
        bit_and-low_mask 28 (packed w m f d)
        ∙ low_bits_ext 28 (packed w m f d) w (λ i lt. low i (omega (arith, lt)))
