-- ===== src/Examples/Inputs.antt =====
-- The control-flow information and the validation of a small input, and of one with a critical edge.
use regalloc.Prelude.{
  ◌<◌, ◌⊎◌, inl, inr, All, In, Bool-cases, arith, ℕ, ◌≡◌, refl, Option, some, ◌>>=◌, List, [], ◌∷◌,
  false, ◌==◌, if◌then◌else◌,
}
use regalloc.Reg.VReg
use regalloc.Reg.VReg.{VReg}
use regalloc.Reg.PRegSet
use regalloc.Operand.{Operand, constraint}
use regalloc.Index
use regalloc.Index.{Index, Block, Inst, IsRange}
use regalloc.Function.{Function}
use regalloc.Ssa.{RegAllocError, Result, ok, err, crit_edge, ssa, check_ends, validate_ssa}
use regalloc.Ssa.Ends.{IsPlacedRight, Blames, check_ends-IsPlacedRight}
use regalloc.Cfg.{CfgInfo, rest_of_new}
use regalloc.Cfg.Checked.{IsAllowed}
use regalloc.Cfg.Whole.{IsInRange, Explains, rest_of_new-Explains}

abbrev index_of : ℕ → Index
index_of i = record { raw = i }

abbrev define_5 : Operand
define_5 = record { bits = 0x0280_0005 }

abbrev use_5 : Operand
use_5 = record { bits = 0x0300_0005 }

-- Block 0 defines a register and goes on to block 1, which uses it.
abbrev defined_before : Function
defined_before = record {
  num_insts = 3;
  num_blocks = 2;
  entry_block = index_of 0;
  block_insns = λ b.
      if b.raw == 0
      then record { from = index_of 0; to = index_of 2 }
      else record { from = index_of 2; to = index_of 3 };
  block_succs = λ b. if b.raw == 0 then index_of 1 ∷ [] else [];
  block_preds = λ b. if b.raw == 1 then index_of 0 ∷ [] else [];
  block_params = λ b. [];
  is_ret = λ i. i.raw == 2;
  is_branch = λ i. i.raw == 1;
  branch_blockparams = λ b i n. [];
  inst_operands = λ i. if i.raw == 0 then define_5 ∷ [] else if i.raw == 2 then use_5 ∷ [] else [];
  inst_clobbers = λ i. PRegSet.empty;
  num_vregs = 6;
  debug_value_labels = [];
  spillslot_size = λ c. 1;
  multi_spillslot_named_by_last_slot = false;
  allow_multiple_vreg_defs = false;
}

-- The same, but nothing is defined, and block 0 goes to itself as well.
abbrev used_only : Function
used_only = record defined_before {
  inst_operands = λ i. if i.raw == 2 then use_5 ∷ [] else [];
  block_succs = λ b. if b.raw == 0 then index_of 0 ∷ index_of 1 ∷ [] else [];
  block_preds = λ b. index_of 0 ∷ [];
}

abbrev tree : List Block
tree = Index.invalid ∷ index_of 0 ∷ []

validate_ssa_run : validate_ssa defined_before 3 tree ≡ some (ok tt)
unfolding validate_ssa constraint VReg.new
validate_ssa_run = refl

validate_ssa_undefined :
    validate_ssa used_only 3 tree ≡ some (err (ssa (record { bits = 20 }) (index_of 2)))
unfolding validate_ssa constraint VReg.new
validate_ssa_undefined = refl

abbrev depths : Option (Result CfgInfo) → Option (Result (List ℕ))
depths r = r >>= λ r. elim r [ ok info ↦ some (ok info.approx_loop_depth) | err e ↦ some (err e) ]

rest_of_new_run : depths (rest_of_new defined_before [] tree) ≡ some (ok (0 ∷ 0 ∷ []))
unfolding rest_of_new
rest_of_new_run = refl

rest_of_new_crit_edge :
    depths (rest_of_new used_only [] tree) ≡ some (err (crit_edge (index_of 0) (index_of 0)))
unfolding rest_of_new
rest_of_new_crit_edge = refl

defined_before-IsInRange : IsInRange defined_before
unfolding Index.iter Index.len
defined_before-IsInRange = record {
  entry_in = omega arith;
  nonempty = nonempty;
  insns_in = insns_in;
  succs_in = succs_in;
  preds_in = preds_in;
  few = omega arith;
}
  where
    nonempty :
        (b : Block)
        → b.raw < 2
        → IsRange (defined_before.block_insns b) × (0 < Index.len (defined_before.block_insns b))
    nonempty b lt = elim (Bool-cases (b.raw == 0)) [
      | inl y ↦ rw y (record { ordered = omega arith; valid = omega arith }, omega arith)
      | inr n ↦ rw n (record { ordered = omega arith; valid = omega arith }, omega arith)
    ]

    preds_in : (b : Block) → b.raw < 2 → All (λ p. Index.raw p < 2) (defined_before.block_preds b)
    preds_in b lt = elim (Bool-cases (b.raw == 1)) [
      | inl y ↦ rw y (omega arith, tt)
      | inr n ↦ rw n tt
    ]

    insns_in :
        (b : Block)
        → b.raw < 2
        → All (λ i. Index.raw i < 3) (Index.iter (defined_before.block_insns b))
    insns_in b lt = elim (Bool-cases (b.raw == 0)) [
      | inl y ↦ rw y (omega arith, (omega arith, tt))
      | inr n ↦ rw n (omega arith, tt)
    ]

    succs_in : (b : Block) → b.raw < 2 → All (λ s. Index.raw s < 2) (defined_before.block_succs b)
    succs_in b lt = elim (Bool-cases (b.raw == 0)) [
      | inl y ↦ rw y (omega arith, tt)
      | inr n ↦ rw n tt
    ]

rest_of_new-Explains_example :
    ((info : CfgInfo) × (rest_of_new defined_before (index_of 1 ∷ index_of 0 ∷ []) tree
        ≡ some (ok info))
      × ((b : Block) → b.raw < 2 → IsAllowed defined_before b))
    ⊎ ((e : RegAllocError) × (rest_of_new defined_before (index_of 1 ∷ index_of 0 ∷ []) tree
          ≡ some (err e))
        × Explains defined_before e)
rest_of_new-Explains_example =
    rest_of_new-Explains defined_before (index_of 1 ∷ index_of 0 ∷ []) tree defined_before-IsInRange

check_ends-IsPlacedRight_example :
    ((check_ends defined_before 2 0 ≡ some (ok tt))
      × ((b : Block)
          → b.raw < 2
          → All (IsPlacedRight defined_before b) (Index.iter (defined_before.block_insns b))))
    ⊎ ((e : RegAllocError) × (b : Block) × (insn : Inst) × (check_ends defined_before 2 0
          ≡ some (err e))
        × (b.raw < 2)
        × In insn (Index.iter (defined_before.block_insns b))
        × Blames defined_before b insn e)
check_ends-IsPlacedRight_example = check_ends-IsPlacedRight defined_before (omega arith)
