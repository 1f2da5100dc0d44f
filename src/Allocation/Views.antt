-- ===== src/Allocation/Views.antt =====
-- An allocation is nothing, a physical register or a spill slot, and says which.
use regalloc.Prelude.{ℕ, ◌+◌, ◌*◌, ◌%◌, ◌^◌, ◌≤◌, ◌<◌, ◌≡◌, ap, none, some, true, arith}
use regalloc.Prelude.Bits.{shl, shr, bit_or-fields', bit_and-low_mask}
use regalloc.Reg.PReg
use regalloc.Reg.PReg.{PReg}
use regalloc.Reg.SpillSlot
use regalloc.Reg.SpillSlot.{SpillSlot}
use regalloc.Allocation.{
  AllocationKind, none_kind, reg_kind, stack_kind, Allocation, kind_code, new, no_alloc, reg, stack,
  kind, is_none, is_some, is_reg, is_stack, index, as_reg, as_stack, from_bits_debug,
}

kind_code-le : (k : AllocationKind) → kind_code k ≤ 2
kind_code-le k = ground arith

pub new-bits : (k : AllocationKind) (i : ℕ) → i < 2 ^ 28 → (new k i).bits ≡ i + kind_code k * 2 ^ 29
unfolding new
new-bits k i h = rw (upper, lower) (bit_or-fields' 29 i (kind_code k) (omega arith))
  where
    upper : shl 32 (kind_code k) 29 ≡ kind_code k * 2 ^ 29
    upper = omega (arith, kind_code-le k)

    lower : i % 2 ^ 32 ≡ i
    lower = omega arith

pub kind-new : (k : AllocationKind) (i : ℕ) → i < 2 ^ 28 → kind (new k i) ≡ some k
unfolding kind
kind-new k i h = ground (arith, bit_and-low_mask 3 (shr (new k i).bits 29), new-bits k i h)

pub index-new : (k : AllocationKind) (i : ℕ) → i < 2 ^ 28 → index (new k i) ≡ i
unfolding index
index-new k i h = omega (arith, bit_and-low_mask 28 (new k i).bits, new-bits k i h, kind_code-le k)

none_views :
    (as_reg no_alloc ≡ some none) × (as_stack no_alloc ≡ some none) × (is_none no_alloc ≡ some true)
unfolding as_reg as_stack is_none no_alloc
none_views = let k = kind-new none_kind 0 (omega arith) in (rw k, rw k, rw k)

reg_views :
    (p : PReg)
    → p.bits < 256
    → (as_reg (reg p) ≡ some (some p))
      × (as_stack (reg p) ≡ some none)
      × (is_some (reg p) ≡ some true)
      × (is_reg (reg p) ≡ some true)
unfolding as_reg as_stack is_some is_reg reg PReg.index
reg_views p h =
    let k = kind-new reg_kind p.bits (omega arith) in
    let i = index-new reg_kind p.bits (omega arith) in
    (rw k (rw i (ap (λ q. some (some q)) (PReg.from_index-index p h))), rw k, rw k, rw k)

stack_views :
    (s : SpillSlot)
    → s.bits ≤ SpillSlot.max
    → (as_stack (stack s) ≡ some (some s))
      × (as_reg (stack s) ≡ some none)
      × (is_some (stack s) ≡ some true)
      × (is_stack (stack s) ≡ some true)
unfolding as_reg as_stack is_some is_stack stack
stack_views s h =
    let k = kind-new stack_kind s.bits (omega arith) in
    let i = index-new stack_kind s.bits (omega arith) in
    let low : index (new stack_kind s.bits) % 2 ^ 32 ≡ s.bits = omega (arith, i) in
    (rw k (rw low), rw k, rw k, rw k)

-- The three sorts of allocation are told apart and read back: `none()` is neither a register nor a
-- slot; the allocation of a register byte is a register and yields it; that of a slot in range is
-- on the stack and yields it.
pub as_reg-as_stack :
    (p : PReg)
    → p.bits < 256
    → (s : SpillSlot) → s.bits ≤ SpillSlot.max
    → ((as_reg no_alloc ≡ some none)
        × (as_stack no_alloc ≡ some none)
        × (is_none no_alloc ≡ some true))
      × ((as_reg (reg p) ≡ some (some p))
          × (as_stack (reg p) ≡ some none)
          × (is_some (reg p) ≡ some true)
          × (is_reg (reg p) ≡ some true))
      × ((as_stack (stack s) ≡ some (some s))
          × (as_reg (stack s) ≡ some none)
          × (is_some (stack s) ≡ some true)
          × (is_stack (stack s) ≡ some true))
as_reg-as_stack p hp s hs = (none_views, reg_views p hp, stack_views s hs)

-- In a debug build `from_bits` refuses every allocation there is: for a 32-bit word whose `kind`
-- is nothing, register or stack the assertion fails.
pub from_bits_debug-refuses :
    (a : Allocation) (k : AllocationKind)
    → a.bits < 2 ^ 32
    → kind a ≡ some k
    → from_bits_debug a.bits ≡ none
unfolding from_bits_debug kind
from_bits_debug-refuses a k lt h = ground (arith, bit_and-low_mask 3 (shr a.bits 29))
