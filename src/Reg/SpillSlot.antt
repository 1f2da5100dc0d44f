-- ===== src/Reg/SpillSlot.antt =====
-- Spill slots: an index below 2^24, or all ones for "invalid" (`SpillSlot` in src/lib.rs).
use regalloc.Prelude.{ℕ, ◌+◌, ◌%◌, ◌^◌, ◌≤◌, bit_and, ◌≡◌, Bool, true, false, ◌==◌, ◌!=◌, arith}
use native.Mathlib.Nat.{add_assoc}
use regalloc.Prelude.Bits.{bit_and-low_mask}

pub record SpillSlot : Type 0 where
  pub bits : ℕ

abbrev pub max : ℕ
max = 16_777_215

unfoldable pub new : ℕ → SpillSlot
new slot = record { bits = slot % 2 ^ 32 }

unfoldable pub index : SpillSlot → ℕ
index s = bit_and s.bits 0x00ff_ffff

unfoldable pub plus : SpillSlot → ℕ → SpillSlot
unfolding new index
plus s offset = new (index s + offset)

abbrev pub invalid : SpillSlot
invalid = record { bits = 0xffff_ffff }

unfoldable pub is_invalid : SpillSlot → Bool
is_invalid s = s.bits == invalid.bits

unfoldable pub is_valid : SpillSlot → Bool
is_valid s = s.bits != invalid.bits

index-mod : (s : SpillSlot) → index s ≡ s.bits % 2 ^ 24
unfolding index
index-mod s = bit_and-low_mask 24 s.bits

pub new-bits : (n : ℕ) → n ≤ max → (new n).bits ≡ n
unfolding new
new-bits n h = omega arith

pub index-new : (n : ℕ) → n ≤ max → index (new n) ≡ n
index-new n h = omega (arith, index-mod (new n), new-bits n h)

-- Slots that stay within `SpillSlot::MAX` count as numbers do: the slot `k` places after slot `n`
-- has index `n + k`, two steps are one, and no such slot is the invalid one.
pub index-plus :
    (n j k : ℕ)
    → n + j + k ≤ max
    → (index (plus (new n) j) ≡ n + j)
      × (plus (plus (new n) j) k ≡ plus (new n) (j + k))
      × (is_valid (plus (new n) j) ≡ true)
      × (is_invalid (plus (new n) j) ≡ false)
unfolding plus is_valid is_invalid
index-plus n j k h =
    let first = index-new n (omega arith) in
    let second = index-new (n + j) (omega arith) in
    (
      rw first second,
      rw (first, second) (rw add_assoc),
      rw first (ground (arith, new-bits (n + j) (omega arith))),
      rw first (ground (arith, new-bits (n + j) (omega arith))),
    )
