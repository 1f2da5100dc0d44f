-- ===== src/Function.antt =====
-- What the allocator is given: the program's instructions and control flow (the trait `Function` of
-- src/lib.rs, whose implementations are the client's).
use regalloc.Prelude.{ℕ, List, Bool}
use regalloc.Reg.{RegClass}
use regalloc.Reg.PRegSet.{PRegSet}
use regalloc.Reg.VReg.{VReg}
use regalloc.Operand.{Operand}
use regalloc.Index.{Inst, Block, InstRange}

pub record Function : Type 0 where
  pub num_insts : ℕ
  pub num_blocks : ℕ
  pub entry_block : Block
  pub block_insns : Block → InstRange
  pub block_succs : Block → List Block
  pub block_preds : Block → List Block
  pub block_params : Block → List VReg
  pub is_ret : Inst → Bool
  pub is_branch : Inst → Bool
  pub branch_blockparams : Block → Inst → ℕ → List VReg
  pub inst_operands : Inst → List Operand
  pub inst_clobbers : Inst → PRegSet
  pub num_vregs : ℕ
  pub debug_value_labels : List (VReg × Inst × Inst × ℕ)
  pub spillslot_size : RegClass → ℕ
  pub multi_spillslot_named_by_last_slot : Bool
  pub allow_multiple_vreg_defs : Bool
