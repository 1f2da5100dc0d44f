-- ===== src/Ssa.antt =====
-- The validation of SSA form (src/ssa.rs) and the errors of the allocator (src/lib.rs). `none` is a
-- panic: an index out of range or an operand that cannot be read; or a walk up the dominator tree
-- that runs out of fuel.
pub mod Ends
use regalloc.Prelude.{
  ℕ, zero, suc, ◌+◌, Option, none, some, ◌>>=◌, List, [], ◌∷◌, Bool, true, false, ◌||◌, ◌==◌, ltb,
  length, get_elem?, set, replicate, if◌then◌else◌,
}
use regalloc.Reg.VReg
use regalloc.Reg.VReg.{VReg}
use regalloc.Operand
use regalloc.Operand.{Operand, OperandKind, def, use_of, as_fixed_nonallocatable}
use regalloc.Index
use regalloc.Index.{Index, Inst, Block, InstRange, index_eq, is_invalid}
use regalloc.Function.{Function}
use regalloc.Domtree.{dominates}

pub data RegAllocError : Type 0 where
  crit_edge : Block → Block → RegAllocError
  ssa : VReg → Inst → RegAllocError
  bb : Block → RegAllocError
  branch : Inst → RegAllocError
  entry_livein : RegAllocError
  disallowed_branch_arg : Inst → RegAllocError
  too_many_live_regs : RegAllocError

pub data Result (A : Type 0) : Type 0 where
  ok : A → Result A
  err : RegAllocError → Result A

-- `?`
abbrev pub and_then :
    {A B : Type 0} → Option (Result A) → (A → Option (Result B)) → Option (Result B)
and_then r f = r >>= λ r. elim r [ ok a ↦ f a | err e ↦ some (err e) ]

abbrev pub is_def : OperandKind → Bool
is_def def = true
is_def use_of = false

abbrev pub same_vreg : VReg → VReg → Bool
same_vreg a b = a.bits == b.bits

abbrev pub has_vreg : VReg → List VReg → Bool
has_vreg v [] = false
has_vreg v (w ∷ ws) = let later = has_vreg v ws in if same_vreg v w then true else later

-- The closure `def`.
unfoldable pub define : Block → VReg → Inst → List Block → Option (Result (List Block))
unfolding VReg.vreg
define block vreg inst defined_in = get_elem? defined_in (VReg.vreg vreg) >>= λ b.
    some (if is_invalid b then ok (set defined_in (VReg.vreg vreg) block) else err (ssa vreg inst))

unfoldable pub define_params : Block → List VReg → List Block → Option (Result (List Block))
unfolding define
define_params block [] defined_in = some (ok defined_in)
define_params block (p ∷ ps) defined_in =
    and_then (define block p Index.invalid defined_in) (define_params block ps)

unfoldable pub define_operands :
    Block → Inst → List Operand → List Block → Option (Result (List Block))
unfolding define Operand.kind Operand.vreg
define_operands block inst [] defined_in = some (ok defined_in)
define_operands block inst (o ∷ os) defined_in =
    and_then
      (if is_def (Operand.kind o)
        then (Operand.vreg o >>= λ v. define block v inst defined_in)
        else some (ok defined_in))
      (define_operands block inst os)

-- `local.insert` for the definitions of an instruction.
unfoldable pub insert_defs : List Operand → List VReg → Option (List VReg)
unfolding Operand.kind Operand.vreg
insert_defs [] known = some known
insert_defs (o ∷ os) known = elim (is_def (Operand.kind o)) [
  | true ↦ Operand.vreg o >>= λ v. insert_defs os (v ∷ known)
  | false ↦ insert_defs os known
]

-- The use of a register in a block, where `known` are the registers of the block so far.
unfoldable pub use_okay : ℕ → List Block → List Block → Block → List VReg → VReg → Option Bool
unfolding VReg.vreg dominates
use_okay fuel idom defined_in block known v = get_elem? defined_in (VReg.vreg v) >>= λ def_block.
    if is_invalid def_block
    then some false
    else if index_eq def_block block
    then some (has_vreg v known)
    else dominates fuel idom def_block block

unfoldable pub check_operands :
    ℕ → List Block → List Block → Block → Inst → List VReg → List Operand → Option (Result Unit)
unfolding use_okay as_fixed_nonallocatable Operand.kind Operand.vreg
check_operands fuel idom defined_in block inst known [] = some (ok tt)
check_operands fuel idom defined_in block inst known (o ∷ os) =
    let later = check_operands fuel idom defined_in block inst known os in
    as_fixed_nonallocatable o >>= λ fixed. elim fixed [
      | some preg ↦ later
      | none ↦
          if is_def (Operand.kind o)
          then later
          else (Operand.vreg o >>= λ v. use_okay fuel idom defined_in block known v >>= λ okay.
              if okay then later else some (err (ssa v inst)))
    ]

module _ (f : Function) where
  unfoldable pub define_insts : Block → List Inst → List Block → Option (Result (List Block))
  unfolding define_operands
  define_insts block [] defined_in = some (ok defined_in)
  define_insts block (i ∷ is) defined_in =
      and_then (define_operands block i (f.inst_operands i) defined_in) (define_insts block is)

  -- The first loop over the blocks from one on.
  unfoldable pub define_blocks : ℕ → ℕ → List Block → Option (Result (List Block))
  unfolding define_params define_insts Index.new Index.iter
  define_blocks zero i defined_in = some (ok defined_in)
  define_blocks (suc n) i defined_in =
      let block = Index.new i in
      and_then
        (and_then (define_params block (f.block_params block) defined_in)
          (define_insts block (Index.iter (f.block_insns block))))
        (define_blocks n (i + 1))

  module _ (fuel : ℕ) (idom : List Block) (defined_in : List Block) where
    unfoldable pub check_insts : Block → List Inst → List VReg → Option (Result Unit)
    unfolding check_operands insert_defs
    check_insts block [] known = some (ok tt)
    check_insts block (i ∷ is) known =
        and_then (check_operands fuel idom defined_in block i known (f.inst_operands i))
          (λ u. insert_defs (f.inst_operands i) known >>= check_insts block is)

    unfoldable pub check_blocks : ℕ → ℕ → Option (Result Unit)
    unfolding check_insts Index.new Index.iter
    check_blocks zero i = some (ok tt)
    check_blocks (suc n) i =
        let block = Index.new i in
        and_then (check_insts block (Index.iter (f.block_insns block)) (f.block_params block))
          (λ u. check_blocks n (i + 1))

  -- The arguments of a branch against the parameters of the successors, from one on.
  unfoldable pub check_branch_args : Block → Inst → ℕ → List Block → Result Unit
  check_branch_args block insn i [] = ok tt
  check_branch_args block insn i (succ ∷ succs) =
      let later = check_branch_args block insn (i + 1) succs in
      if length (f.block_params succ) == length (f.branch_blockparams block insn i)
      then later
      else err (branch insn)

  unfoldable pub check_terminator : Block → Inst → Result Unit
  unfolding check_branch_args Index.last
  check_terminator block insn =
      if index_eq insn (Index.last (f.block_insns block))
      then (if f.is_branch insn || f.is_ret insn
          then (if f.is_branch insn
              then check_branch_args block insn 0 (f.block_succs block)
              else ok tt)
          else err (bb block))
      else if f.is_branch insn || f.is_ret insn
      then err (bb block)
      else ok tt

  unfoldable pub check_terminators : Block → List Inst → Option (Result Unit)
  unfolding check_terminator
  check_terminators block [] = some (ok tt)
  check_terminators block (i ∷ is) =
      and_then (some (check_terminator block i)) (λ u. check_terminators block is)

  unfoldable pub check_ends : ℕ → ℕ → Option (Result Unit)
  unfolding check_terminators Index.new Index.iter
  check_ends zero i = some (ok tt)
  check_ends (suc n) i =
      let block = Index.new i in
      and_then (check_terminators block (Index.iter (f.block_insns block)))
        (λ u. check_ends n (i + 1))

  unfoldable pub check_entry : Result Unit
  check_entry =
      if ltb 0 (length (f.block_params f.entry_block)) then err (bb f.entry_block) else ok tt

  -- `fuel` bounds each walk up the tree of the control-flow information.
  unfoldable pub validate_ssa : ℕ → List Block → Option (Result Unit)
  unfolding define_blocks check_blocks check_ends check_entry
  validate_ssa fuel domtree =
      and_then (define_blocks f.num_blocks 0 (replicate f.num_vregs Index.invalid)) (λ defined_in.
        and_then (check_blocks fuel domtree defined_in f.num_blocks 0)
          (λ u. and_then (check_ends f.num_blocks 0) (λ u. some check_entry)))
