-- ===== src/Allocation.antt =====
-- Allocations: where an operand lives, in three bits of kind above 28 of index
-- (`Allocation` in src/lib.rs). `none` is the panic of `unreachable!`, or the source's `None`.
use regalloc.Prelude.{
  ℕ, ◌+◌, ◌*◌, ◌/◌, ◌%◌, ◌^◌, ◌≤◌, ◌<◌, ◌≡◌, refl, ap, bit_and, bit_or, Option, none, some, ◌>>=◌,
  Bool, true, false, ◌==◌, leb, if◌then◌else◌, arith,
}
pub mod Views
use regalloc.Prelude.Bits.{shl, shr, bit_or-fields', bit_and-low_mask}
use regalloc.Reg.{RegClass, int, float}
use regalloc.Reg.PReg
use regalloc.Reg.PReg.{PReg}
use regalloc.Reg.SpillSlot
use regalloc.Reg.SpillSlot.{SpillSlot}

pub data AllocationKind : Type 0 where
  none_kind reg_kind stack_kind : AllocationKind

pub record Allocation : Type 0 where
  pub bits : ℕ

abbrev pub kind_code : AllocationKind → ℕ
kind_code none_kind = 0
kind_code reg_kind = 1
kind_code stack_kind = 2

abbrev pub kind_eq : AllocationKind → AllocationKind → Bool
kind_eq a b = kind_code a == kind_code b

-- `==` of the derived `PartialEq`.
abbrev pub alloc_eq : Allocation → Allocation → Bool
alloc_eq a b = a.bits == b.bits

unfoldable pub new : AllocationKind → ℕ → Allocation
new kind index = record { bits = bit_or (shl 32 (kind_code kind) 29) (index % 2 ^ 32) }

unfoldable pub no_alloc : Allocation
unfolding new
no_alloc = new none_kind 0

unfoldable pub reg : PReg → Allocation
unfolding new PReg.index
reg preg = new reg_kind (PReg.index preg)

unfoldable pub stack : SpillSlot → Allocation
unfolding new
stack slot = new stack_kind slot.bits

unfoldable pub kind : Allocation → Option AllocationKind
kind a =
    let k = bit_and (shr a.bits 29) 7 in
    if k == 0
    then some none_kind
    else if k == 1
    then some reg_kind
    else if k == 2
    then some stack_kind
    else none

unfoldable pub has_kind : AllocationKind → Allocation → Option Bool
has_kind k a = kind a >>= λ k'. some (kind_eq k' k)

unfoldable pub is_none : Allocation → Option Bool
unfolding has_kind
is_none = has_kind none_kind

unfoldable pub is_some : Allocation → Option Bool
is_some a = kind a >>= λ k. some (if kind_eq k none_kind then false else true)

unfoldable pub is_reg : Allocation → Option Bool
unfolding has_kind
is_reg = has_kind reg_kind

unfoldable pub is_stack : Allocation → Option Bool
unfolding has_kind
is_stack = has_kind stack_kind

unfoldable pub index : Allocation → ℕ
index a = bit_and a.bits 0x0fff_ffff

-- `Some` inside a result that is `none` where `kind` panics.
unfoldable pub as_reg : Allocation → Option (Option PReg)
unfolding index
as_reg a = do
  k ← kind a
  some (if kind_eq k reg_kind then some (PReg.from_index (index a)) else none)

unfoldable pub as_stack : Allocation → Option (Option SpillSlot)
unfolding index
as_stack a = do
  k ← kind a
  some (if kind_eq k stack_kind then some (record { bits = index a % 2 ^ 32 }) else none)

unfoldable pub from_bits : ℕ → Allocation
from_bits bits = record { bits = bits }

unfoldable pub from_bits_assert : ℕ → Bool
from_bits_assert bits = leb 5 (shr bits 29)

unfoldable pub from_bits_debug : ℕ → Option Allocation
unfolding from_bits from_bits_assert
from_bits_debug bits = if from_bits_assert bits then some (from_bits bits) else none
