-- ===== src/Prelude/Masks.antt =====
-- A bit that a mask tests, sets or clears in a word of 64 bits.
use native.Mathlib.Nat.{pow-suc, one-le-pow}
use Prim.Native.Nat.{ℕ, zero, suc, ◌*◌, ◌^◌, ◌≤◌, ◌<◌, bit_and, bit_or}
use mathlib.Core.Path.{◌≡◌, refl}
use mathlib.Core.Logic.{◌≢◌, ◌⊎◌, inl, inr}
use mathlib.Core.Bool.{true, false}
use native.Mathlib.Omega.{arith}
use regalloc.Prelude.Tests.{◌==◌, ◌!=◌}
use regalloc.Prelude.Bits.{
  shl, bit_not, bit_at, bit_and-pow, bit_at-bit_or, bit_at-bit_and, bit_at-pow_self, bit_at-pow_ne,
  bit_at-bit_not, bit_at_le,
}

pub pow_lt : (k w : ℕ) → k < w → 2 ^ k < 2 ^ w
pow_lt zero (suc w) h = omega (arith, pow-suc 2 w, one-le-pow w 2)
pow_lt (suc k) (suc w) h = omega (arith, pow-suc 2 w, pow-suc 2 k, pow_lt k w (omega arith))
pow_lt zero zero h = absurd (omega arith)
pow_lt (suc k) zero h = absurd (omega arith)

pub one_shifted : (k : ℕ) → k < 64 → shl 64 1 k ≡ 2 ^ k
one_shifted k h = omega (arith, pow_lt k 64 h)

pub masked_bit : (w k : ℕ) → (bit_and w (2 ^ k) != 0) ≡ (bit_at w k == 1)
masked_bit w k =
    ground
      (arith, bit_and-pow k w, bit_at_le w k, cases (bit_at w k) (bit_at_le w k), one-le-pow k 2)
  where
    cases : (b : ℕ) → b ≤ 1 → ((b ≡ 0) × (b * 2 ^ k ≡ 0)) ⊎ ((b ≡ 1) × (b * 2 ^ k ≡ 2 ^ k))
    cases zero h = inl (refl, omega arith)
    cases (suc zero) h = inr (refl, omega arith)
    cases (suc (suc b)) h = absurd (omega arith)

pub added : (w b : ℕ) → (bit_at (bit_or w (2 ^ b)) b == 1) ≡ true
added w b = ground (arith, bit_at-bit_or w (2 ^ b) b, bit_at-pow_self b, bit_at_le w b)

pub kept_by_add : (w b k : ℕ) → k < 64 → b ≢ k → bit_at (bit_or w (2 ^ b)) k ≡ bit_at w k
kept_by_add w b k h ne = omega (arith, bit_at-bit_or w (2 ^ b) k, bit_at-pow_ne b k ne)

pub removed :
    (w b : ℕ) → b < 64 → 2 ^ b < 2 ^ 64 → (bit_at (bit_and w (bit_not 64 (2 ^ b))) b == 1) ≡ false
removed w b lt small = ground (
  arith,
  bit_at-bit_and w (bit_not 64 (2 ^ b)) b,
  bit_at-pow_self b,
  bit_at-bit_not 64 (2 ^ b) b small lt,
)

pub kept_by_remove :
    (w b : ℕ)
    → 2 ^ b < 2 ^ 64
    → (k : ℕ) → k < 64
    → b ≢ k
    → bit_at (bit_and w (bit_not 64 (2 ^ b))) k ≡ bit_at w k
kept_by_remove w b small k lt ne = omega (
  arith,
  bit_at-bit_and w (bit_not 64 (2 ^ b)) k,
  bit_at-pow_ne b k ne,
  bit_at-bit_not 64 (2 ^ b) k small lt,
  bit_at_le w k,
)
