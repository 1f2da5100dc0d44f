-- ===== src/Examples/Output.antt =====
-- A block of two instructions with an edit before each, and its allocations.
use regalloc.Prelude.{◌≡◌, refl, some, List, [], ◌∷◌, false, arith}
use regalloc.Reg.PRegSet
use regalloc.Allocation.{Allocation}
use regalloc.Index.{InstRange, first, iter}
use regalloc.ProgPoint
use regalloc.Function.{Function}
use regalloc.Output.{move, inst, edit, Output, block_items, inst_allocs}
use regalloc.Output.Merge.{place, block_items-place}
use regalloc.Output.Allocs.{IsLaidOut, inst_allocs-IsLaidOut}

abbrev r1 : Allocation
r1 = record { bits = 0x2000_0001 }

abbrev r2 : Allocation
r2 = record { bits = 0x2000_0002 }

abbrev two_insts : InstRange
two_insts = record { from = record { raw = 3 }; to = record { raw = 5 } }

abbrev one_block : Function
one_block = record {
  num_insts = 5;
  num_blocks = 1;
  entry_block = record { raw = 0 };
  block_insns = λ b. two_insts;
  block_succs = λ b. [];
  block_preds = λ b. [];
  block_params = λ b. [];
  is_ret = λ i. false;
  is_branch = λ i. false;
  branch_blockparams = λ b i n. [];
  inst_operands = λ i. [];
  inst_clobbers = λ i. PRegSet.empty;
  num_vregs = 0;
  debug_value_labels = [];
  spillslot_size = λ c. 1;
  multi_spillslot_named_by_last_slot = false;
  allow_multiple_vreg_defs = false;
}

-- Edits in the block before, before instruction 3, after it, and before instruction 4.
abbrev four_edits : Output
four_edits = record {
  num_spillslots = 0;
  edits =
      (record { bits = 2 }, move r1 r2)
      ∷ (record { bits = 6 }, move r2 r1)
      ∷ (record { bits = 7 }, move r1 r2)
      ∷ (record { bits = 8 }, move r1 r1)
      ∷ [];
  allocs = r1 ∷ r2 ∷ r1 ∷ [];
  inst_alloc_offsets = 0 ∷ 2 ∷ 2 ∷ [];
}

block_items_run :
    block_items one_block four_edits (record { raw = 0 })
    ≡ edit (move r2 r1)
      ∷ inst (record { raw = 3 })
      ∷ edit (move r1 r2)
      ∷ edit (move r1 r1)
      ∷ inst (record { raw = 4 })
      ∷ []
unfolding block_items
block_items_run = refl

block_items-place_example :
    block_items one_block four_edits (record { raw = 0 })
    ≡ place (ProgPoint.before (first two_insts)).bits four_edits.edits (iter two_insts)
block_items-place_example =
    block_items-place one_block four_edits (record { raw = 0 })
      (record { ordered = omega arith; valid = omega arith }) (omega arith)
      (
        (omega arith, (omega arith, (omega arith, tt))),
        ((omega arith, (omega arith, tt)), ((omega arith, tt), (tt, tt))),
      )

abbrev three_lists : List (List Allocation)
three_lists = (r1 ∷ r2 ∷ []) ∷ [] ∷ (r1 ∷ []) ∷ []

four_edits-IsLaidOut : IsLaidOut three_lists four_edits
four_edits-IsLaidOut = record { all_allocs = refl; all_offsets = refl }

inst_allocs-IsLaidOut_example : inst_allocs four_edits (record { raw = 2 }) ≡ some (r1 ∷ [])
inst_allocs-IsLaidOut_example =
    inst_allocs-IsLaidOut three_lists four_edits (record { raw = 2 }) (r1 ∷ []) four_edits-IsLaidOut
      refl
