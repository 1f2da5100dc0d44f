-- ===== src/Ion/Bundle.antt =====
-- Live bundles and their packed weight and properties (src/ion/data_structures.rs).
pub mod Props
use regalloc.Prelude.{
  ℕ, ◌+◌, ◌-◌, ◌*◌, ◌^◌, ◌≤◌, bit_and, bit_or, List, [], Bool, true, false, leb, ◌!=◌, Option, none,
  some, if◌then◌else◌,
}
use regalloc.Index.{Index}
use regalloc.Allocation.{Allocation}
use regalloc.Ion.Ranges.{LiveRangeListEntry}

pub record LiveBundle : Type 0 where
  pub ranges : List LiveRangeListEntry
  pub spillset : Index
  pub allocation : Allocation
  pub prio : ℕ
  pub spill_weight_and_props : ℕ

abbrev pub bundle_max_spill_weight : ℕ
bundle_max_spill_weight = 536_870_911

abbrev pub minimal_fixed_bundle_spill_weight : ℕ
minimal_fixed_bundle_spill_weight = bundle_max_spill_weight

abbrev pub minimal_bundle_spill_weight : ℕ
minimal_bundle_spill_weight = bundle_max_spill_weight - 1

abbrev pub bundle_max_normal_spill_weight : ℕ
bundle_max_normal_spill_weight = bundle_max_spill_weight - 2

-- `if b { 1 << k } else { 0 }`
abbrev pub flag : Bool → ℕ → ℕ
flag b k = if b then 2 ^ k else 0

module _ (b : LiveBundle) where
  abbrev word : ℕ
  word = b.spill_weight_and_props

  abbrev with_bit : ℕ → LiveBundle
  with_bit k = record b { spill_weight_and_props = bit_or word (2 ^ k) }

  -- `none` is the failing debug_assert.
  unfoldable pub set_cached_spill_weight_and_props : ℕ → Bool → Bool → Bool → Option LiveBundle
  set_cached_spill_weight_and_props spill_weight minimal fixed fixed_def =
      if leb spill_weight bundle_max_spill_weight
      then some (record b {
        spill_weight_and_props =
            bit_or (bit_or (bit_or spill_weight (flag minimal 31)) (flag fixed 30))
              (flag fixed_def 29);
      })
      else none

  unfoldable pub cached_minimal : Bool
  cached_minimal = bit_and word (2 ^ 31) != 0

  unfoldable pub cached_fixed : Bool
  cached_fixed = bit_and word (2 ^ 30) != 0

  unfoldable pub cached_fixed_def : Bool
  cached_fixed_def = bit_and word (2 ^ 29) != 0

  unfoldable pub cached_stack : Bool
  cached_stack = bit_and word (2 ^ 28) != 0

  unfoldable pub set_cached_fixed : LiveBundle
  set_cached_fixed = with_bit 30

  unfoldable pub set_cached_fixed_def : LiveBundle
  set_cached_fixed_def = with_bit 29

  unfoldable pub set_cached_stack : LiveBundle
  set_cached_stack = with_bit 28

  unfoldable pub cached_spill_weight : ℕ
  cached_spill_weight = bit_and word (2 ^ 28 - 1)
