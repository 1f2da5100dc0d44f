-- ===== src/Checker/Errors.antt =====
-- What the checker reports (`check`, `check_val` and `check_constraint` in src/checker.rs). `none` is
-- a panic.
use regalloc.Prelude.{
  Option, none, some, ◌>>=◌, List, [], ◌∷◌, Bool, true, false, not, ◌&&◌, get_elem?, is_some,
  if◌then◌else◌,
}
use regalloc.Prelude.Sets.{contains}
use regalloc.Reg.PReg.{PReg, preg_eq}
use regalloc.Reg.PRegSet
use regalloc.Reg.PRegSet.{PRegSet}
use regalloc.Reg.VReg.{VReg, vreg_eq}
use regalloc.Operand
use regalloc.Operand.{
  Operand, OperandConstraint, any, fixed_reg, reuse, OperandKind, def, use_of, OperandPos, early,
  late,
}
use regalloc.Allocation
use regalloc.Allocation.{Allocation, alloc_eq, no_alloc, reg_kind, kind_eq}
use regalloc.Index.{Inst}
use regalloc.ProgPoint.{InstPosition, before_inst, after_inst}
use regalloc.Checker.{
  CheckerValue, vregs, CheckerState, CheckerInst, move, parallel_move, op, get_value, zip,
}

-- The code reports seven of these.
pub data CheckerError : Type 0 where
  missing_allocation : Inst → Operand → CheckerError
  unknown_value_in_allocation : Inst → Operand → Allocation → CheckerError
  conflicted_value_in_allocation : Inst → Operand → Allocation → CheckerError
  incorrect_values_in_allocation : Inst → Operand → Allocation → List VReg → CheckerError
  constraint_violated : Inst → Operand → Allocation → CheckerError
  allocation_is_not_reg : Inst → Operand → Allocation → CheckerError
  allocation_is_not_fixed_reg : Inst → Operand → Allocation → CheckerError
  allocation_is_not_reuse : Inst → Operand → Allocation → Allocation → CheckerError
  allocation_is_not_stack : Inst → Operand → Allocation → CheckerError
  conflicted_value_in_stackmap : Inst → Allocation → CheckerError
  non_ref_values_in_stackmap : Inst → Allocation → List VReg → CheckerError
  stack_to_stack_move : Allocation → Allocation → CheckerError

-- `Result<(), CheckerError>`
pub data Verdict : Type 0 where
  fine : Verdict
  wrong : CheckerError → Verdict

-- What a check reads of the checker: the fixed stack slots of the machine, and the set of them.
pub record StackRegs : Type 0 where
  pub fixed_stack_slots : List PReg
  pub stack_pregs : PRegSet

module _ (machine : StackRegs) where
  -- Pregs that represent a fixed stack slot are rejected.
  unfoldable pub check_reg : Inst → Operand → Allocation → Option PReg → Verdict
  unfolding contains
  check_reg inst o alloc (some preg) =
      if contains preg_eq machine.fixed_stack_slots preg
      then wrong (allocation_is_not_reg inst o alloc)
      else fine
  check_reg inst o alloc none = wrong (allocation_is_not_reg inst o alloc)

  unfoldable pub check_reuse : Inst → Operand → Allocation → Allocation → Verdict
  check_reuse inst o alloc expected =
      if alloc_eq alloc expected
      then fine
      else wrong (allocation_is_not_reuse inst o alloc expected)

  unfoldable pub check_by :
      Inst → Operand → Allocation → List Allocation → OperandConstraint → Option Verdict
  unfolding check_reg check_reuse
  check_by inst o alloc allocs any = some fine
  check_by inst o alloc allocs OperandConstraint.reg =
      Allocation.as_reg alloc >>= λ r. some (check_reg inst o alloc r)
  check_by inst o alloc allocs (fixed_reg preg) =
      if alloc_eq alloc (Allocation.reg preg)
      then some fine
      else some (wrong (allocation_is_not_fixed_reg inst o alloc))
  check_by inst o alloc allocs (reuse idx) = Allocation.kind alloc >>= λ k.
      if kind_eq k reg_kind
      then (get_elem? allocs idx >>= λ expected. some (check_reuse inst o alloc expected))
      else some (wrong (allocation_is_not_reg inst o alloc))

  unfoldable pub check_constraint : Inst → Operand → Allocation → List Allocation → Option Verdict
  unfolding check_by
  check_constraint inst o alloc allocs = Operand.constraint o >>= check_by inst o alloc allocs

  -- The value in the allocation of a use.
  unfoldable pub check_use : Inst → Operand → Allocation → Option CheckerValue → Option Verdict
  unfolding contains
  check_use inst o alloc (some (vregs s)) = Operand.vreg o >>= λ v.
      if contains vreg_eq s v
      then some fine
      else some (wrong (incorrect_values_in_allocation inst o alloc s))
  check_use inst o alloc _ = some (wrong (unknown_value_in_allocation inst o alloc))

  unfoldable pub and_then : Option Verdict → Option Verdict → Option Verdict
  and_then none next = none
  and_then (some fine) next = next
  and_then (some (wrong e)) next = some (wrong e)

  -- Whether the value is checked: `op.kind() == Use && op.as_fixed_nonallocatable().is_none()`.
  unfoldable pub reads : Operand → Option Bool
  reads o = elim (Operand.kind o) [
    | def ↦ some false
    | use_of ↦ Operand.as_fixed_nonallocatable o >>= λ f. some (not (is_some f))
  ]

  unfoldable pub check_val :
      Inst → Operand → Allocation → Option CheckerValue → List Allocation → Option Verdict
  unfolding check_constraint check_use and_then reads
  check_val inst o alloc val allocs =
      if alloc_eq alloc no_alloc
      then some (wrong (missing_allocation inst o))
      else (reads o >>= λ r.
          and_then (if r then check_use inst o alloc val else some fine)
            (check_constraint inst o alloc allocs))

  unfoldable pub is_here : OperandPos → InstPosition → Bool
  is_here early before_inst = true
  is_here late after_inst = true
  is_here _ _ = false

  unfoldable pub check_operands :
      CheckerState
      → InstPosition
      → Inst
      → List (Operand × Allocation)
      → List Allocation
      → Option Verdict
  unfolding check_val is_here and_then get_value
  check_operands st pos inst [] allocs = some fine
  check_operands st pos inst ((o, a) ∷ rest) allocs =
      and_then
        (if is_here (Operand.pos o) pos
          then check_val inst o a (get_value st a) allocs
          else some fine)
        (check_operands st pos inst rest allocs)

  unfoldable pub is_reuse : OperandConstraint → Bool
  is_reuse (reuse _) = true
  is_reuse _ = false

  unfoldable pub has_reused_input : List Operand → Option Bool
  unfolding is_reuse
  has_reused_input [] = some false
  has_reused_input (o ∷ os) = Operand.constraint o >>= λ c. elim (is_reuse c) [
    | true ↦ some true
    | false ↦ has_reused_input os
  ]

  unfoldable pub is_stack : Allocation → Option Bool
  is_stack alloc = Allocation.as_reg alloc >>= λ r. elim r [
    | some preg ↦ PRegSet.contains machine.stack_pregs preg
    | none ↦ Allocation.is_stack alloc
  ]

  unfoldable pub is_after : InstPosition → Bool
  is_after before_inst = false
  is_after after_inst = true

  unfoldable pub check : CheckerState → InstPosition → CheckerInst → Option Verdict
  unfolding check_operands has_reused_input is_stack is_after zip
  check st pos (op inst operands allocs clobbers) = has_reused_input operands >>= λ reused.
      if reused && is_after pos
      then some fine
      else check_operands st pos inst (zip operands allocs) allocs
  check st pos (move into from) = is_stack into >>= λ a. elim a [
    | true ↦
        is_stack from >>= λ b. if b then some (wrong (stack_to_stack_move into from)) else some fine
    | false ↦ some fine
  ]
  check st pos (parallel_move moves) = some fine
