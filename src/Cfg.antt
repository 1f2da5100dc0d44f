-- ===== src/Cfg.antt =====
-- Control-flow information (`CFGInfo` of src/cfg.rs): what `CFGInfo::new` does behind its calls of
-- `postorder::calculate` and `domtree::calculate`, whose results it keeps. `none` is an index out of
-- range.
pub mod Checked
pub mod Whole
use regalloc.Prelude.{
  ℕ, zero, suc, ◌+◌, ◌-◌, Option, none, some, ◌>>=◌, List, [], ◌∷◌, Bool, true, false, leb, ltb,
  ◌==◌, length, get_elem?, set, replicate, if◌then◌else◌,
}
use regalloc.Index
use regalloc.Index.{Inst, Block, InstRange, index_eq}
use regalloc.ProgPoint
use regalloc.ProgPoint.{ProgPoint}
use regalloc.Function.{Function}
use regalloc.Ssa.{crit_edge, disallowed_branch_arg, Result, ok, err, and_then}

-- The tables that the loop over the blocks fills in.
pub record CfgTables : Type 0 where
  pub insn_block : List Block
  pub block_entry : List ProgPoint
  pub block_exit : List ProgPoint
  pub backedge_in : List ℕ
  pub backedge_out : List ℕ

-- A write, which panics out of range.
abbrev pub put_at : {A : Type 0} → List A → ℕ → A → Option (List A)
put_at xs i v = get_elem? xs i >>= λ old. some (set xs i v)

abbrev pub increment : List ℕ → ℕ → Option (List ℕ)
increment xs i = get_elem? xs i >>= λ n. some (set xs i (n + 1))

unfoldable pub set_insns : Block → List Inst → List Block → Option (List Block)
set_insns block [] insn_block = some insn_block
set_insns block (i ∷ is) insn_block = put_at insn_block i.raw block >>= set_insns block is

module _ (f : Function) where
  -- The predecessors of a block, and one more for the entry.
  unfoldable pub count_preds : Block → ℕ
  count_preds block = length (f.block_preds block) + (if index_eq block f.entry_block then 1 else 0)

  -- The first predecessor with several successors.
  unfoldable pub check_edges : Block → List Block → Result Unit
  check_edges block [] = ok tt
  check_edges block (pred ∷ preds) =
      let later = check_edges block preds in
      if ltb 1 (length (f.block_succs pred)) then err (crit_edge pred block) else later

  unfoldable pub check_crit_edges : Block → Result Unit
  unfolding count_preds check_edges
  check_crit_edges block =
      if ltb 1 (count_preds block) then check_edges block (f.block_preds block) else ok tt

  unfoldable pub require_no_branch_args : List Block → Bool
  unfolding count_preds
  require_no_branch_args [] = false
  require_no_branch_args (succ ∷ succs) =
      let later = require_no_branch_args succs in if ltb 1 (count_preds succ) then true else later

  abbrev pub is_nil : {A : Type 0} → List A → Bool
  is_nil [] = true
  is_nil (x ∷ xs) = false

  unfoldable pub check_branch_args : Block → Result Unit
  unfolding require_no_branch_args Index.last
  check_branch_args block =
      let last = Index.last (f.block_insns block) in
      if require_no_branch_args (f.block_succs block)
      then (if is_nil (f.inst_operands last) then ok tt else err (disallowed_branch_arg last))
      else ok tt

  unfoldable pub count_backedges : Block → List Block → CfgTables → Option CfgTables
  count_backedges block [] t = some t
  count_backedges block (succ ∷ succs) t = elim (leb succ.raw block.raw) [
    | true ↦ increment t.backedge_in succ.raw >>= λ into.
        increment t.backedge_out block.raw >>= λ out_of.
        count_backedges block succs (record t { backedge_in = into; backedge_out = out_of })
    | false ↦ count_backedges block succs t
  ]

  -- The body of the first loop.
  unfoldable pub visit_block : Block → CfgTables → Option (Result CfgTables)
  unfolding set_insns check_crit_edges check_branch_args count_backedges Index.iter Index.first
      Index.last ProgPoint.before ProgPoint.after
  visit_block block t =
      let insns = f.block_insns block in
      set_insns block (Index.iter insns) t.insn_block >>= λ insn_block.
      put_at t.block_entry block.raw (ProgPoint.before (Index.first insns)) >>= λ block_entry.
      put_at t.block_exit block.raw (ProgPoint.after (Index.last insns)) >>= λ block_exit.
      and_then (some (check_crit_edges block)) (λ u. and_then (some (check_branch_args block)) (λ u.
        count_backedges block (f.block_succs block)
          (record t { insn_block = insn_block; block_entry = block_entry; block_exit = block_exit })
        >>= λ t'. some (ok t')))

  unfoldable pub visit_blocks : ℕ → ℕ → CfgTables → Option (Result CfgTables)
  unfolding visit_block Index.new
  visit_blocks zero i t = some (ok t)
  visit_blocks (suc n) i t = and_then (visit_block (Index.new i) t) (visit_blocks n (i + 1))

-- The loops that are open, the innermost first: for each, its back edges that have not come yet.
pub record Depth : Type 0 where
  pub backedge_stack : List ℕ
  pub cur_depth : ℕ

-- The inner loop, for the back edges out of one block.
unfoldable pub close_loops : ℕ → Depth → Depth
close_loops zero d = d
close_loops (suc out_of) d = elim d.backedge_stack [
  | [] ↦ d
  | n ∷ below ↦
      if n == 1
      then close_loops out_of (record { backedge_stack = below; cur_depth = d.cur_depth - 1 })
      else close_loops out_of (record d { backedge_stack = (n - 1) ∷ below })
]

unfoldable pub loop_depths : List ℕ → List ℕ → Depth → Option (List ℕ)
unfolding close_loops
loop_depths [] outs d = some []
loop_depths (n ∷ ins) [] d = none
loop_depths (n ∷ ins) (out_of ∷ outs) d =
    let entered : Depth =
      if ltb 0 n
      then record { backedge_stack = n ∷ d.backedge_stack; cur_depth = d.cur_depth + 1 }
      else d in
    loop_depths ins outs (close_loops out_of entered) >>= λ rest. some (entered.cur_depth ∷ rest)

pub record CfgInfo : Type 0 where
  pub postorder : List Block
  pub domtree : List Block
  pub insn_block : List Block
  pub block_entry : List ProgPoint
  pub block_exit : List ProgPoint
  pub approx_loop_depth : List ℕ

-- `CFGInfo::new` behind its first two statements, which are not part of this: they compute the
-- variables `postorder` and `domtree`, or panic.
unfoldable pub rest_of_new : Function → List Block → List Block → Option (Result CfgInfo)
unfolding visit_blocks loop_depths ProgPoint.before
rest_of_new f postorder domtree =
    let no_points = replicate f.num_blocks (ProgPoint.before Index.invalid) in
    let none_yet = replicate f.num_blocks 0 in
    and_then
      (visit_blocks f f.num_blocks 0 (record {
        insn_block = replicate f.num_insts Index.invalid;
        block_entry = no_points;
        block_exit = no_points;
        backedge_in = none_yet;
        backedge_out = none_yet;
      }))
      (λ t.
        loop_depths t.backedge_in t.backedge_out (record { backedge_stack = []; cur_depth = 0 })
        >>= λ depths. some (
            ok (record {
              postorder = postorder;
              domtree = domtree;
              insn_block = t.insn_block;
              block_entry = t.block_entry;
              block_exit = t.block_exit;
              approx_loop_depth = depths;
            })))
