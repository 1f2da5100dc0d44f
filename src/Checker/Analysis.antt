-- ===== src/Checker/Analysis.antt =====
-- The data flow of the checker over the blocks (`Checker::new`, `analyze`, `find_errors` in
-- src/checker.rs). A missing key and a panic of a step are `none`.
use regalloc.Prelude.{
  ℕ, zero, suc, ◌+◌, Option, none, some, ◌>>=◌, List, [], ◌∷◌, ◌++◌, Bool, ◌&&◌, if◌then◌else◌,
}
use regalloc.Prelude.Sets.{contains, remove, get, put}
use regalloc.Reg.PReg.{PReg}
use regalloc.Reg.PRegSet
use regalloc.Reg.PRegSet.{PRegSet}
use regalloc.Index
use regalloc.Index.{Inst, Block, index_eq}
use regalloc.ProgPoint.{before_inst, after_inst}
use regalloc.Function.{Function}
use regalloc.Checker.{CheckerState, top, CheckerInst, update, update_all, meet_with, state_eq}
use regalloc.Checker.Errors.{CheckerError, Verdict, fine, wrong, StackRegs, check}

abbrev pub Edge : Type 0
Edge = Block × Block

abbrev pub edge_eq : Edge → Edge → Bool
edge_eq a b = index_eq a.0 b.0 && index_eq a.1 b.1

abbrev pub BlockStates : Type 0
BlockStates = List (Block × CheckerState)

pub record Checker : Type 0 where
  pub bb_in : BlockStates
  pub bb_insts : List (Block × List CheckerInst)
  pub edge_insts : List (Edge × List CheckerInst)
  pub machine : StackRegs

unfoldable pub blocks_from : ℕ → ℕ → List Block
unfolding Index.new
blocks_from zero i = []
blocks_from (suc n) i = Index.new i ∷ blocks_from n (i + 1)

-- The blocks in order.
abbrev pub blocks : Function → List Block
blocks f = blocks_from f.num_blocks 0

unfoldable pub empty_edges :
    Block → List Block → List (Edge × List CheckerInst) → List (Edge × List CheckerInst)
unfolding put
empty_edges block [] m = m
empty_edges block (succ ∷ succs) m = empty_edges block succs (put edge_eq (block, succ) [] m)

unfoldable pub new_blocks : Function → List Block → Checker → Checker
unfolding put empty_edges
new_blocks f [] k = k
new_blocks f (block ∷ rest) k = new_blocks f rest (record k {
  bb_in = put index_eq block top k.bb_in;
  bb_insts = put index_eq block [] k.bb_insts;
  edge_insts = empty_edges block (f.block_succs block) k.edge_insts;
})

unfoldable pub add_all : List PReg → PRegSet → Option PRegSet
unfolding PRegSet.add
add_all [] s = some s
add_all (p ∷ ps) s = PRegSet.add s p >>= add_all ps

unfoldable pub new : Function → List PReg → Option Checker
unfolding new_blocks put add_all
new f slots = add_all slots PRegSet.empty >>= λ s.
    let k = new_blocks f (blocks f) (record {
      bb_in = [];
      bb_insts = [];
      edge_insts = [];
      machine = record { fixed_stack_slots = slots; stack_pregs = s };
    }) in
    some (record k { bb_in = put index_eq f.entry_block top k.bb_in })

-- What `analyze` changes: `bb_in`, the queue (the next block first) and the set of its members.
pub record Work : Type 0 where
  pub bb_in : BlockStates
  pub queue : List Block
  pub queue_set : List Block

module _ (f : Function) (k : Checker) where
  unfoldable pub block_out : Block → CheckerState → Option CheckerState
  unfolding get update_all
  block_out block st = get index_eq k.bb_insts block >>= λ is. update_all is st

  unfoldable pub edge_out : Block → Block → CheckerState → Option CheckerState
  unfolding get update_all
  edge_out block succ st = get edge_eq k.edge_insts (block, succ) >>= λ is. update_all is st

  -- A successor whose state changes is put on the queue unless it is there.
  unfoldable pub changed_succ : Block → CheckerState → Work → Work
  unfolding put contains
  changed_succ succ st w =
      if contains index_eq w.queue_set succ
      then record w { bb_in = put index_eq succ st w.bb_in }
      else record {
        bb_in = put index_eq succ st w.bb_in;
        queue = succ ∷ w.queue;
        queue_set = succ ∷ w.queue_set;
      }

  unfoldable pub flow : Block → CheckerState → Block → Work → Option Work
  unfolding edge_out get meet_with state_eq changed_succ
  flow block state succ w = edge_out block succ state >>= λ new_state.
      get index_eq w.bb_in succ >>= λ cur.
      let met = meet_with new_state cur in
      if state_eq met cur then some w else some (changed_succ succ met w)

  unfoldable pub flow_all : Block → CheckerState → List Block → Work → Option Work
  unfolding flow
  flow_all block state [] w = some w
  flow_all block state (succ ∷ succs) w = flow block state succ w >>= flow_all block state succs

  -- One turn of the loop, for the block taken off the queue.
  unfoldable pub visit : Block → Work → Option Work
  unfolding get block_out flow_all remove
  visit block w = get index_eq w.bb_in block >>= λ st. block_out block st >>= λ state.
      flow_all block state (f.block_succs block)
        (record w { queue_set = remove index_eq block w.queue_set })

  unfoldable pub turn : Work → Option Work
  unfolding visit
  turn w = elim w.queue [ [] ↦ some w | block ∷ rest ↦ visit block (record w { queue = rest }) ]

  -- Every block is in the queue to start with.
  abbrev pub start : Work
  start = record { bb_in = k.bb_in; queue = blocks f; queue_set = blocks f }

  -- The loop, cut off after a number of turns.
  unfoldable pub analyze_from : ℕ → Work → Option Work
  unfolding turn
  analyze_from zero w = elim w.queue [ [] ↦ some w | _ ∷ _ ↦ none ]
  analyze_from (suc n) w = elim w.queue [ [] ↦ some w | _ ∷ _ ↦ turn w >>= analyze_from n ]

  unfoldable pub analyze : ℕ → Option Checker
  unfolding analyze_from
  analyze fuel = analyze_from fuel start >>= λ w. some (record k { bb_in = w.bb_in })

unfoldable pub report : Verdict → List CheckerError → List CheckerError
report fine errors = errors
report (wrong e) errors = e ∷ errors

-- The errors of a block.
unfoldable pub check_block :
    StackRegs → CheckerState → List CheckerInst → Option (List CheckerError)
unfolding check update report
check_block machine st [] = some []
check_block machine st (i ∷ is) = check machine st before_inst i >>= λ e. update i st >>= λ st'.
    check machine st' after_inst i >>= λ e'.
    check_block machine st' is >>= λ errors. some (report e (report e' errors))

unfoldable pub check_blocks : Checker → BlockStates → Option (List CheckerError)
unfolding get check_block
check_blocks k [] = some []
check_blocks k ((block, input) ∷ rest) = get index_eq k.bb_insts block >>= λ is.
    check_block k.machine input is >>= λ errors.
    check_blocks k rest >>= λ more. some (errors ++ more)

-- The list of errors found: `Ok(())` where it is empty.
unfoldable pub find_errors : Checker → Option (List CheckerError)
unfolding check_blocks
find_errors k = check_blocks k k.bb_in

-- `analyze` and then `find_errors`, the part of `run` that decides.
unfoldable pub run : ℕ → Function → Checker → Option (List CheckerError)
unfolding analyze find_errors
run fuel f k = analyze f k fuel >>= find_errors
