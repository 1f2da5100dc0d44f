-- ===== src/Ion/Ranges.antt =====
-- Ranges of program points, live ranges with their packed weights, and sorting keys
-- (src/ion/data_structures.rs). A 32-bit float is its bits.
pub mod Order
use regalloc.Prelude.{
  ℕ, ◌+◌, ◌-◌, ◌*◌, ◌/◌, ◌%◌, ◌^◌, min, max, bit_and, bit_or, List, [], Bool, true, false, ◌&&◌,
  leb, ltb, ◌==◌, ◌!=◌, if◌then◌else◌,
}
use regalloc.Prelude.Bits.{shl, shr, bit_not}
use regalloc.Index
use regalloc.Index.{Index, Block}
use regalloc.ProgPoint
use regalloc.ProgPoint.{ProgPoint}
use regalloc.Ion.Requirement.{Use}

-- From a point on, up to but without another.
pub record CodeRange : Type 0 where
  pub from : ProgPoint
  pub to : ProgPoint

-- The result of a comparison.
pub data Ordering : Type 0 where
  less equal greater : Ordering

unfoldable pub is_empty : CodeRange → Bool
is_empty r = leb r.to.bits r.from.bits

unfoldable pub contains : CodeRange → CodeRange → Bool
contains r other = leb r.from.bits other.from.bits && leb other.to.bits r.to.bits

unfoldable pub contains_point : CodeRange → ProgPoint → Bool
contains_point r p = leb r.from.bits p.bits && ltb p.bits r.to.bits

unfoldable pub overlaps : CodeRange → CodeRange → Bool
overlaps r other = ltb r.from.bits other.to.bits && ltb other.from.bits r.to.bits

-- Subtraction of indices, which wraps around in a release build only; a range is in order.
unfoldable pub len : CodeRange → ℕ
unfolding ProgPoint.inst Index.index
len r = Index.index (ProgPoint.inst r.to) - Index.index (ProgPoint.inst r.from)

unfoldable pub singleton : ProgPoint → CodeRange
unfolding ProgPoint.next
singleton p = record { from = p; to = ProgPoint.next p }

unfoldable pub join : CodeRange → CodeRange → CodeRange
join r other = record {
  from = record { bits = min r.from.bits other.from.bits };
  to = record { bits = max r.to.bits other.to.bits };
}

unfoldable pub cmp : CodeRange → CodeRange → Ordering
cmp r other =
    if leb r.to.bits other.from.bits
    then less
    else if leb other.to.bits r.from.bits
    then greater
    else equal

pub record LiveRangeKey : Type 0 where
  pub from : ℕ
  pub to : ℕ

unfoldable pub from_range : CodeRange → LiveRangeKey
unfolding ProgPoint.to_index
from_range r = record { from = ProgPoint.to_index r.from; to = ProgPoint.to_index r.to }

unfoldable pub to_range : LiveRangeKey → CodeRange
unfolding ProgPoint.from_index
to_range k = record { from = ProgPoint.from_index k.from; to = ProgPoint.from_index k.to }

unfoldable pub key_eq : LiveRangeKey → LiveRangeKey → Bool
key_eq k other = ltb other.from k.to && ltb k.from other.to

unfoldable pub key_cmp : LiveRangeKey → LiveRangeKey → Ordering
key_cmp k other =
    if leb k.to other.from then less else if leb other.to k.from then greater else equal

pub record LiveRangeListEntry : Type 0 where
  pub range : CodeRange
  pub index : Index

pub record LiveRange : Type 0 where
  pub range : CodeRange
  pub vreg : Index
  pub bundle : Index
  pub uses_spill_weight_and_flags : ℕ
  pub uses : List Use

-- `StartsAtDef`, the one flag, shifted into place.
abbrev pub starts_at_def : ℕ
starts_at_def = 0x2000_0000

module _ (r : LiveRange) where
  abbrev word : ℕ
  word = r.uses_spill_weight_and_flags

  unfoldable pub set_flag : LiveRange
  set_flag = record r { uses_spill_weight_and_flags = bit_or word starts_at_def }

  unfoldable pub clear_flag : LiveRange
  clear_flag = record r { uses_spill_weight_and_flags = bit_and word (bit_not 32 starts_at_def) }

  unfoldable pub assign_flag : Bool → LiveRange
  assign_flag val = record r {
    uses_spill_weight_and_flags =
        bit_or (bit_and word 0xe000_0000) (if val then starts_at_def else 0);
  }

  unfoldable pub has_flag : Bool
  has_flag = bit_and word starts_at_def != 0

  unfoldable pub flag_word : ℕ
  flag_word = bit_and word 0xe000_0000

  unfoldable pub merge_flags : ℕ → LiveRange
  merge_flags flags = record r { uses_spill_weight_and_flags = bit_or word flags }

  -- The bits of the float.
  unfoldable pub uses_spill_weight : ℕ
  uses_spill_weight = shl 32 (bit_and word 0x1fff_ffff) 2

  unfoldable pub set_uses_spill_weight : ℕ → LiveRange
  set_uses_spill_weight weight = record r {
    uses_spill_weight_and_flags =
        bit_or (bit_and word 0xe000_0000) (bit_and (shr weight 2) 0x1fff_ffff);
  }

-- The fields of a key from the lowest one up.
unfoldable pub u64_key : ℕ → ℕ → ℕ
u64_key b a = bit_or a (shl 64 b 32)

unfoldable pub u128_key : ℕ → ℕ → ℕ → ℕ → ℕ
u128_key d c b a = bit_or (bit_or (bit_or a (shl 128 b 32)) (shl 128 c 64)) (shl 128 d 96)

pub record BlockparamOut : Type 0 where
  pub to_vreg : Index
  pub to_block : Block
  pub from_block : Block
  pub from_vreg : Index

unfoldable pub out_key : BlockparamOut → ℕ
unfolding u128_key
out_key p = u128_key p.from_vreg.raw p.from_block.raw p.to_block.raw p.to_vreg.raw

pub record BlockparamIn : Type 0 where
  pub from_block : Block
  pub to_block : Block
  pub to_vreg : Index

unfoldable pub in_key : BlockparamIn → ℕ
unfolding u128_key
in_key p = u128_key p.to_vreg.raw p.to_block.raw p.from_block.raw 0

pub record PosWithPrio : Type 0 where
  pub prio : ℕ
  pub pos : ProgPoint

unfoldable pub pos_key : PosWithPrio → ℕ
unfolding u64_key ProgPoint.to_index
pos_key p = u64_key (ProgPoint.to_index p.pos) p.prio
