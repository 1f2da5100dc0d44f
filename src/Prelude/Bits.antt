-- ===== src/Prelude/Bits.antt =====
-- Machine words over the native numbers: shifts and masks, and what `|`, `&` and `!` do to the
-- fields and to the single bits of a word.
use Prim.Native.Nat.{
  ℕ, zero, suc, ◌+◌, ◌-◌, ◌*◌, ◌/◌, ◌%◌, ◌^◌, ◌≤◌, ◌<◌, min, max, bit_and, bit_or, digits, bitwise,
  bit_and-bitwise, bit_or-bitwise,
}
use mathlib.Core.Path.{◌≡◌, refl, sym, ap}
use mathlib.Core.Logic.{◌≢◌}
use native.Mathlib.Nat.{
  pow-suc, pow-succ', one-le-pow, div-div-eq-div-mul, div-add-mod', zero-div, pow-le-pow_right,
  mod-eq_of_lt,
}
use native.Mathlib.Omega.{arith}

-- `x << k` in a word of `w` bits.
abbrev pub shl : ℕ → ℕ → ℕ → ℕ
shl w x k = x * 2 ^ k % 2 ^ w

-- `x >> k`, unsigned.
abbrev pub shr : ℕ → ℕ → ℕ
shr x k = x / 2 ^ k

-- `(1 << k) - 1`.
abbrev pub low_mask : ℕ → ℕ
low_mask k = 2 ^ k - 1

-- `!x` in a word of `w` bits.
abbrev pub bit_not : ℕ → ℕ → ℕ
bit_not w x = 2 ^ w - 1 - x

-- Bit `i` of `x`, as 0 or 1.
abbrev pub bit_at : ℕ → ℕ → ℕ
bit_at x i = x / 2 ^ i % 2

-- Enough fuel is as good as any.
digits_enough :
    (z : ℕ → ℕ) (f : ℕ → ℕ → ℕ) (a b m n : ℕ) → a ≤ m → a ≤ n → digits z f m a b ≡ digits z f n a b
digits_enough z f zero b zero zero h k = refl
digits_enough z f zero b zero (suc n) h k = refl
digits_enough z f zero b (suc m) zero h k = refl
digits_enough z f zero b (suc m) (suc n) h k = refl
digits_enough z f (suc a) b m zero h k = absurd (omega arith)
digits_enough z f (suc a) b zero (suc n) h k = absurd (omega arith)
digits_enough z f (suc a) b (suc m) (suc n) h k =
    rw (digits_enough z f (suc a / 2) (b / 2) m n (omega arith) (omega arith))

bitwise_step :
    (z : ℕ → ℕ) (f : ℕ → ℕ → ℕ) (a b : ℕ)
    → bitwise z f (suc a) b ≡ bitwise z f (suc a / 2) (b / 2) * 2 + f (suc a % 2) (b % 2)
bitwise_step z f a b =
    omega (arith, digits_enough z f (suc a / 2) (b / 2) a (suc a / 2) (omega arith) (omega arith))

-- `|` and `&` from the lowest bit up.
pub bit_or-low : (a b : ℕ) → bit_or a b ≡ bit_or (a / 2) (b / 2) * 2 + max (a % 2) (b % 2)
bit_or-low zero b = simp bit_or-bitwise (omega arith)
bit_or-low (suc a) b = simp bit_or-bitwise (bitwise_step (λ y. y) max a b)

pub bit_and-low : (a b : ℕ) → bit_and a b ≡ bit_and (a / 2) (b / 2) * 2 + min (a % 2) (b % 2)
bit_and-low zero b = simp bit_and-bitwise (omega arith)
bit_and-low (suc a) b = simp bit_and-bitwise (bitwise_step (λ y. 0) min a b)

pub div-pow-suc : (x k : ℕ) → x / 2 ^ suc k ≡ x / 2 / 2 ^ k
div-pow-suc x k = rw (pow-succ' 2 k) (sym (div-div-eq-div-mul x 2 (2 ^ k)))

halve_or : (a b : ℕ) → bit_or a b / 2 ≡ bit_or (a / 2) (b / 2)
halve_or a b = omega (arith, bit_or-low a b)

halve_and : (a b : ℕ) → bit_and a b / 2 ≡ bit_and (a / 2) (b / 2)
halve_and a b = omega (arith, bit_and-low a b)

-- `|` and `&` bit by bit.
pub bit_at-bit_or : (a b i : ℕ) → bit_at (bit_or a b) i ≡ max (bit_at a i) (bit_at b i)
bit_at-bit_or a b zero = omega (arith, bit_or-low a b)
bit_at-bit_or a b (suc i) =
    rw (div-pow-suc a i, div-pow-suc b i, div-pow-suc (bit_or a b) i, halve_or a b)
      (bit_at-bit_or (a / 2) (b / 2) i)

pub bit_at-bit_and : (a b i : ℕ) → bit_at (bit_and a b) i ≡ min (bit_at a i) (bit_at b i)
bit_at-bit_and a b zero = omega (arith, bit_and-low a b)
bit_at-bit_and a b (suc i) =
    rw (div-pow-suc a i, div-pow-suc b i, div-pow-suc (bit_and a b) i, halve_and a b)
      (bit_at-bit_and (a / 2) (b / 2) i)

bit_or-zero_below : (n a : ℕ) → a ≤ n → bit_or a 0 ≡ a
bit_or-zero_below n zero h = refl
bit_or-zero_below zero (suc a) h = absurd (omega arith)
bit_or-zero_below (suc n) (suc a) h =
    omega (arith, bit_or-low (suc a) 0, bit_or-zero_below n (suc a / 2) (omega arith))

pub bit_or_zero : (a : ℕ) → bit_or a 0 ≡ a
bit_or_zero a = bit_or-zero_below a a (omega arith)

pub zero-bit_or : (a : ℕ) → bit_or 0 a ≡ a
zero-bit_or a = bit_or-bitwise 0 a

pub zero-bit_and : (a : ℕ) → bit_and 0 a ≡ 0
zero-bit_and a = bit_and-bitwise 0 a

bit_and-zero_below : (n a : ℕ) → a ≤ n → bit_and a 0 ≡ 0
bit_and-zero_below n zero h = refl
bit_and-zero_below zero (suc a) h = absurd (omega arith)
bit_and-zero_below (suc n) (suc a) h =
    omega (arith, bit_and-low (suc a) 0, bit_and-zero_below n (suc a / 2) (omega arith))

pub bit_and_zero : (a : ℕ) → bit_and a 0 ≡ 0
bit_and_zero a = bit_and-zero_below a a (omega arith)

scale-suc : (q k : ℕ) → q * 2 ^ suc k ≡ 2 * (q * 2 ^ k)
scale-suc q k = omega (arith, ap (λ (t : ℕ). q * t) (pow-suc 2 k))

-- A field below bit `k` and one from bit `k` up do not meet, so that `|` adds them.
pub bit_or-fields : (k r q : ℕ) → r < 2 ^ k → bit_or r (q * 2 ^ k) ≡ r + q * 2 ^ k
bit_or-fields zero r q h = ground (arith, zero-bit_or q)
bit_or-fields (suc k) r q h =
    let fits : r / 2 < 2 ^ k = omega (arith, pow-suc 2 k) in
    rw (bit_or-low r (q * 2 ^ suc k), scale-suc q k)
      (rw (halves) (omega (arith, bit_or-fields k (r / 2) q fits)))
  where
    halves : 2 * (q * 2 ^ k) / 2 ≡ q * 2 ^ k
    halves = omega arith

-- The same fields, the upper one first.
pub bit_or-fields' : (k r q : ℕ) → r < 2 ^ k → bit_or (q * 2 ^ k) r ≡ r + q * 2 ^ k
bit_or-fields' zero r q h = ground (arith, bit_or_zero q)
bit_or-fields' (suc k) r q h =
    let fits : r / 2 < 2 ^ k = omega (arith, pow-suc 2 k) in
    rw (bit_or-low (q * 2 ^ suc k) r, scale-suc q k)
      (rw (halves) (omega (arith, bit_or-fields' k (r / 2) q fits)))
  where
    halves : 2 * (q * 2 ^ k) / 2 ≡ q * 2 ^ k
    halves = omega arith

pub mod-pow-suc : (x k : ℕ) → x % 2 ^ suc k ≡ x / 2 % 2 ^ k * 2 + x % 2
mod-pow-suc x k = omega (
  arith,
  div-add-mod' x (2 ^ suc k),
  div-add-mod' (x / 2) (2 ^ k),
  scale-suc (x / 2 / 2 ^ k) k,
  ap (λ (t : ℕ). t * 2 ^ suc k) (div-pow-suc x k),
)

-- A mask of the low `k` bits is the remainder by `2 ^ k`.
pub bit_and-low_mask : (k x : ℕ) → bit_and x (low_mask k) ≡ x % 2 ^ k
bit_and-low_mask zero x = rw (bit_and_zero x) (omega arith)
bit_and-low_mask (suc k) x =
    rw (bit_and-low x (low_mask (suc k)), half_mask, bit_and-low_mask k (x / 2), mod-pow-suc x k)
      (omega (arith, pow-suc 2 k, one-le-pow k 2))
  where
    half_mask : low_mask (suc k) / 2 ≡ low_mask k
    half_mask = omega (arith, pow-suc 2 k, one-le-pow k 2)

-- A mask of one bit.
pub bit_and-pow : (k x : ℕ) → bit_and x (2 ^ k) ≡ bit_at x k * 2 ^ k
bit_and-pow zero x = omega (arith, bit_and-low x 1, bit_and_zero (x / 2))
bit_and-pow (suc k) x = omega (
  arith,
  bit_and-low x (2 ^ suc k),
  ap (bit_and (x / 2)) halved,
  bit_and-pow k (x / 2),
  pow-suc 2 k,
  ap (λ (t : ℕ). t % 2 * 2 ^ suc k) (div-pow-suc x k),
  scale-suc (bit_at (x / 2) k) k,
)
  where
    halved : 2 ^ suc k / 2 ≡ 2 ^ k
    halved = omega (arith, pow-suc 2 k)

-- One bit set.
pub bit_at-pow_self : (k : ℕ) → bit_at (2 ^ k) k ≡ 1
bit_at-pow_self zero = refl
bit_at-pow_self (suc k) = rw (div-pow-suc (2 ^ suc k) k, halved) (bit_at-pow_self k)
  where
    halved : 2 ^ suc k / 2 ≡ 2 ^ k
    halved = omega (arith, pow-suc 2 k)

pub bit_at-pow_ne : (k i : ℕ) → k ≢ i → bit_at (2 ^ k) i ≡ 0
bit_at-pow_ne zero zero h = absurd (h refl)
bit_at-pow_ne zero (suc i) h = rw (div-pow-suc 1 i) (omega (arith, zero-div (2 ^ i)))
bit_at-pow_ne (suc k) zero h = omega (arith, pow-suc 2 k)
bit_at-pow_ne (suc k) (suc i) h =
    rw (div-pow-suc (2 ^ suc k) i, halved) (bit_at-pow_ne k i (λ e. h (ap suc e)))
  where
    halved : 2 ^ suc k / 2 ≡ 2 ^ k
    halved = omega (arith, pow-suc 2 k)

-- `!x` turns every bit of the word over.
pub bit_at-bit_not : (w x i : ℕ) → x < 2 ^ w → i < w → bit_at (bit_not w x) i + bit_at x i ≡ 1
bit_at-bit_not zero x i h k = absurd (omega arith)
bit_at-bit_not (suc w) x zero h k = omega (arith, pow-suc 2 w)
bit_at-bit_not (suc w) x (suc i) h k =
    rw (div-pow-suc x i, div-pow-suc (bit_not (suc w) x) i, halved)
      (bit_at-bit_not w (x / 2) i (omega (arith, pow-suc 2 w)) (omega arith))
  where
    halved : bit_not (suc w) x / 2 ≡ bit_not w (x / 2)
    halved = omega (arith, pow-suc 2 w)

pub bit_at_le : (x i : ℕ) → bit_at x i ≤ 1
bit_at_le x i = omega arith

-- Two words with the same bits are equal.
pub bits_ext :
    (w x y : ℕ) → x < 2 ^ w → y < 2 ^ w → ((i : ℕ) → i < w → bit_at x i ≡ bit_at y i) → x ≡ y
bits_ext zero x y h k e = omega arith
bits_ext (suc w) x y h k e = omega (
  arith,
  e 0 (omega arith),
  bits_ext w (x / 2) (y / 2) (omega (arith, pow-suc 2 w)) (omega (arith, pow-suc 2 w))
      (λ i l. rw (← div-pow-suc x i, ← div-pow-suc y i) (e (suc i) (omega arith))),
)

pub low_bits_ext : (k x y : ℕ) → ((i : ℕ) → i < k → bit_at x i ≡ bit_at y i) → x % 2 ^ k ≡ y % 2 ^ k
low_bits_ext zero x y e = omega arith
low_bits_ext (suc k) x y e = omega (
  arith,
  e 0 (omega arith),
  mod-pow-suc x k,
  mod-pow-suc y k,
  low_bits_ext k (x / 2) (y / 2)
      (λ i l. rw (← div-pow-suc x i, ← div-pow-suc y i) (e (suc i) (omega arith))),
)

pub bit_or-lt : (w a b : ℕ) → a < 2 ^ w → b < 2 ^ w → bit_or a b < 2 ^ w
bit_or-lt zero zero b h k = omega (arith, zero-bit_or b)
bit_or-lt zero (suc a) b h k = absurd (omega arith)
bit_or-lt (suc w) a b h k = omega (
  arith,
  pow-suc 2 w,
  bit_or-low a b,
  bit_or-lt w (a / 2) (b / 2) (omega (arith, pow-suc 2 w)) (omega (arith, pow-suc 2 w)),
)

pub bit_and-le : (w a b : ℕ) → a < 2 ^ w → bit_and a b ≤ a
bit_and-le zero zero b h = omega (arith, zero-bit_and b)
bit_and-le zero (suc a) b h = absurd (omega arith)
bit_and-le (suc w) a b h =
    omega (arith, bit_and-low a b, bit_and-le w (a / 2) (b / 2) (omega (arith, pow-suc 2 w)))

-- A mask of the bits from `k` up rounds down to a multiple of `2 ^ k`.
pub bit_and-high_mask :
    (w k x : ℕ) → k ≤ w → x < 2 ^ w → bit_and x (bit_not w (low_mask k)) ≡ x / 2 ^ k * 2 ^ k
bit_and-high_mask w zero x h lt =
    omega (arith, bit_and-low_mask w x, ap (λ (t : ℕ). bit_and x t) whole, mod-eq_of_lt lt, rounded)
  where
    rounded : x / 2 ^ 0 * 2 ^ 0 ≡ x
    rounded = omega arith

    whole : bit_not w (low_mask 0) ≡ low_mask w
    whole = omega arith
bit_and-high_mask zero (suc k) x h lt = absurd (omega arith)
bit_and-high_mask (suc w) (suc k) x h lt = omega (
  arith,
  bit_and-low x (bit_not (suc w) (low_mask (suc k))),
  ap (λ (t : ℕ). bit_and (x / 2) t) halved,
  even,
  bit_and-high_mask w k (x / 2) (omega arith) (omega (arith, pow-suc 2 w)),
  ap (λ (t : ℕ). t * 2 ^ suc k) (div-pow-suc x k),
  scale-suc (x / 2 / 2 ^ k) k,
)
  where
    halved : bit_not (suc w) (low_mask (suc k)) / 2 ≡ bit_not w (low_mask k)
    halved = omega (arith, pow-suc 2 k, pow-suc 2 w, one-le-pow k 2)

    above : 2 ^ k ≤ 2 ^ w
    above = pow-le-pow_right {n = 2} (omega arith) (omega arith)

    even : bit_not (suc w) (low_mask (suc k)) % 2 ≡ 0
    even = omega (arith, pow-suc 2 k, pow-suc 2 w, one-le-pow k 2, above)
