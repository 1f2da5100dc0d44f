-- ===== src/Checker/Prepare.antt =====
-- The instructions that the checker runs, from the allocator's result (`Checker::prepare`,
-- `handle_inst` and `handle_edit` in src/checker.rs).
use regalloc.Prelude.{
  ℕ, ◌+◌, Option, none, some, ◌>>=◌, List, [], ◌∷◌, ◌++◌, ◌==◌, length, if◌then◌else◌,
}
use regalloc.Prelude.Sets.{get, put}
use regalloc.Reg.PRegSet.Iter.{into_iter}
use regalloc.Index.{Inst, Block, index_eq}
use regalloc.Function.{Function}
use regalloc.Output
use regalloc.Output.{Edit, InstOrEdit, inst, edit, Output, inst_allocs, block_items}
use regalloc.Checker.{CheckerInst, move, parallel_move, op, zip}
use regalloc.Checker.Analysis.{Checker, Edge, edge_eq, blocks}

unfoldable pub push_inst : Checker → Block → CheckerInst → Option Checker
unfolding get put
push_inst k block i = get index_eq k.bb_insts block >>= λ is.
    some (record k { bb_insts = put index_eq block (is ++ i ∷ []) k.bb_insts })

unfoldable pub push_edge_inst : Checker → Edge → CheckerInst → Option Checker
unfolding get put
push_edge_inst k e i = get edge_eq k.edge_insts e >>= λ is.
    some (record k { edge_insts = put edge_eq e (is ++ i ∷ []) k.edge_insts })

module _ (f : Function) where
  -- The block parameters of a successor, with the assertion on their number.
  unfoldable pub handle_succ : Checker → Block → Inst → ℕ → Block → Option Checker
  unfolding push_edge_inst zip
  handle_succ k block insn i succ =
      let args = f.branch_blockparams block insn i in
      let params = f.block_params succ in
      if length args == length params
      then if length args == 0
        then some k
        else push_edge_inst k (block, succ) (parallel_move (zip params args))
      else none

  -- `i` counts the successors.
  unfoldable pub handle_succs : Block → Inst → ℕ → List Block → Checker → Option Checker
  unfolding handle_succ
  handle_succs block insn i [] k = some k
  handle_succs block insn i (succ ∷ succs) k =
      handle_succ k block insn i succ >>= handle_succs block insn (i + 1) succs

  unfoldable pub handle_inst : Output → Block → Inst → Checker → Option Checker
  unfolding handle_succs inst_allocs push_inst into_iter
  handle_inst out block insn k =
      if f.is_branch insn
      then handle_succs block insn 0 (f.block_succs block) k
      else (inst_allocs out insn >>= λ allocs.
          push_inst k block
            (op insn (f.inst_operands insn) allocs (into_iter (f.inst_clobbers insn))))

  unfoldable pub handle_edit : Block → Edit → Checker → Option Checker
  unfolding push_inst
  handle_edit block (Output.move from to) k = push_inst k block (move to from)

  unfoldable pub handle_item : Output → Block → InstOrEdit → Checker → Option Checker
  unfolding handle_inst handle_edit
  handle_item out block (inst i) k = handle_inst out block i k
  handle_item out block (edit e) k = handle_edit block e k

  unfoldable pub handle_items : Output → Block → List InstOrEdit → Checker → Option Checker
  unfolding handle_item
  handle_items out block [] k = some k
  handle_items out block (item ∷ items) k =
      handle_item out block item k >>= handle_items out block items

  unfoldable pub prepare_blocks : Output → List Block → Checker → Option Checker
  unfolding handle_items block_items
  prepare_blocks out [] k = some k
  prepare_blocks out (block ∷ rest) k =
      handle_items out block (block_items f out block) k >>= prepare_blocks out rest

  unfoldable pub prepare : Output → Checker → Option Checker
  unfolding prepare_blocks
  prepare out k = prepare_blocks out (blocks f) k
