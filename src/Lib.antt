-- ===== src/Lib.antt =====
-- A model of regalloc2, a register allocator, with proofs about its data encodings, the parts that
-- order and rewrite moves, and the checker of its results.
--
-- The allocator is given a function in SSA form with operands that say where a virtual register may
-- live, and returns an allocation for each operand and moves between allocations. src/lib.rs and
-- src/index.rs define the values that all passes exchange, packed into machine words;
-- src/ion/data_structures.rs those of the passes alone; the passes are under src/ion; src/moves.rs
-- turns each group of parallel moves that they produce into a sequence. src/checker.rs follows values
-- through the result, by data flow, and reports where an operand would not find its value.
--
-- Files and the code that they model:
-- - Reg, Reg/PReg, Reg/VReg, Reg/SpillSlot: `RegClass`, `PReg`, `VReg` and `SpillSlot` of
--   src/lib.rs. A record keeps the word `bits`; constructors and getters keep their names.
-- - Reg/PRegSet, Reg/PRegSet/Members: `PRegSet` of src/lib.rs as a list of words, and its members;
--   Reg/PRegSet/Iter is its iterator, Reg/PRegSet/Union is about unions.
-- - Operand, Operand/Fields, Operand/Kinds: `Operand` of src/lib.rs, its getters, its constructors
--   for each sort of operand, and the raw encoding.
-- - Allocation, Allocation/Views: `Allocation` of src/lib.rs and how it is read.
-- - Index: the index types of `define_index!` and `InstRange` of src/index.rs.
-- - ProgPoint: `ProgPoint` of src/lib.rs.
-- - Moves: `ParallelMoves` and `MoveVecWithScratch` of src/moves.rs. `resolve` sorts (`sort`),
--   removes duplicates (`dedup`) and moves that stay (`drop_self_moves`), and then runs the search:
--   `run_all` is the loop over moves to do, `run_stack` the loop over the stack, `visit` its body,
--   `emit_stack` and `emit_cycle` what it emits. Its children prove the search right: Moves/Store
--   says what moves do to values, Emitted and Stack are the invariant of the search, Until, Cycle,
--   Visit and Round keep it, Run counts the rounds, Prepare is about the sort, Places, Fill and
--   Effect about the scratch space, Sequence about the search from its start, Resolve about the
--   whole.
-- - Moves/Scratch: `MoveAndScratchResolver` of src/moves.rs; `compute` fills in the scratch space of
--   cycles, chooses a register and expands stack-to-stack moves one by one (`one_move`). Borrowed
--   has the invariant of the loop, Loop the loop, Compute the whole.
-- - Ion/Requirement, Ion/Requirement/Places: src/ion/requirement.rs. A bundle is the list of its
--   ranges, each the list of its uses.
-- - Ion/RedundantMoves: `RedundantMoveEliminator` of src/ion/redundant_moves.rs, and as `Event` what
--   `resolve_inserted_moves` of src/ion/moves.rs passes to it. Ion/RedundantMoves/Copies has its
--   invariant, Sound what one move does, Trace the whole sequence.
-- - Ion/Ranges, Ion/Ranges/Order: `CodeRange`, `LiveRange`, `LiveRangeKey` and the sorting keys of
--   src/ion/data_structures.rs, and their order.
-- - Ion/Bundle, Ion/Bundle/Props: `LiveBundle` of src/ion/data_structures.rs and its packed word.
-- - Ion/Merge: `merge_bundles` of src/ion/merge.rs; `no_overlap` is the scan over both lists,
--   `commit_lists` what is written. Clear is about ranges that do not overlap, Links about the links
--   from ranges to bundles, Fits about the tests before a merge, Rewritten
--   about what is written, Kept about the whole.
-- - Ion/Spill: `allocate_spillslots` of src/ion/spill.rs; `probe` tries slots that exist,
--   `add_spillslot` adds one, `number_slots` is the last loop. Slots and Kept are the invariant,
--   Probing keeps it, Whole is about all spill sets, Offsets about the numbers.
-- - Ion/RegTraversal: `RegTraversalIter` of src/ion/reg_traversal.rs. Order reads a loop over a class
--   as one over a list that is turned round, Loops is about both loops, Whole about the traversal.
-- - Postorder: src/postorder.rs; `action` is the body of the loop. Reached is the invariant of the
--   walk, Fuel what is left to do.
-- - Cfg: `CFGInfo::new` of src/cfg.rs behind its calls of `postorder::calculate` and
--   `domtree::calculate`, as `rest_of_new`; `visit_block` is the body of its first loop,
--   `loop_depths` its second loop. Checked says what its checks find, Whole what it returns.
-- - Ssa: `validate_ssa` of src/ssa.rs and `RegAllocError` of src/lib.rs; `define_blocks`,
--   `check_blocks` and `check_ends` are its loops over the blocks. Ends is about the last.
-- - Function: the trait `Function` of src/lib.rs as a record; the client implements it.
-- - IndexSet, IndexSet/Words, IndexSet/Members: src/indexset.rs; Words is about one word, Members
--   about one index.
-- - Domtree: `dominates` of src/domtree.rs.
-- - Output, Output/Merge, Output/Allocs: `Edit`, `Output` and `OutputIter` of src/lib.rs; Merge says
--   where the edits of a block stand, Allocs where the allocations of an instruction lie.
-- - Checker, Checker/Errors, Checker/Analysis, Checker/Prepare: src/checker.rs. Checker has the
--   abstract state and its `update`, Errors has `check`, Analysis the work list of `analyze`
--   (`turn` is one round of its loop) and `find_errors`, Prepare makes the lists of instructions.
--   Meaning says what the checked instructions do to values: the allocations beside the virtual
--   registers. Registers and Update are about the steps, Uses about the checks, Meet about joining
--   blocks, Consistent, Turn and Entry about the loop, Filling and Prepared about what it starts
--   with, Runs and Sound about blocks and functions without errors, Stale about moves from
--   allocations of which nothing is known.
-- - Prelude: Boolean tests, lists and bit operations over the native numbers.
-- - Examples: runs on concrete inputs, and the theorems applied to some.
--
-- Conventions. Words are native numbers, and each operation that can leave the word takes the
-- remainder. A panic of `unreachable!` is `none`. What a debug assertion demands is a hypothesis of
-- the theorems that need it; those of `from_bits`, which do not hold, and of `with_scratch` are
-- modelled. A vector that is pushed and popped at its back is a list with the back as its head.
-- `sort_by_key` is a stable insertion sort and `binary_search_by_key` a linear search: on the
-- vectors that the code searches, sorted by destinations that differ, both find the one match.
--
-- Fuel. The outer loop of the search has n + 1 rounds for n moves, since each round finishes the
-- move that it starts with; the loop over the stack has 2 n + 2, since each of its rounds pushes a
-- move that was to do or empties part of the stack, and no move is pushed twice. That this is
-- enough is part of the theorem on `resolve`. The items of a block are collected with fuel for each
-- edit and instruction left, which the theorem on them shows to be enough. `analyze` of the checker
-- takes its number of turns as an argument and returns nothing where they do not suffice. The walk
-- of `dominates` needs fuel for the rank of its block. The postorder walk has one round for each block
-- and each successor, which is what its theorem asks for.
--
-- Not modelled: of the passes under src/ion, the construction of live ranges (src/ion/liveranges.rs),
-- the initial bundles of src/ion/merge.rs, the probing of registers and splitting of bundles
-- (src/ion/process.rs), and the insertion of moves (src/ion/moves.rs); the computation of the tree in
-- src/domtree.rs and the iterators of src/indexset.rs; the traits that a client implements; printing,
-- serialisation (src/serialize.rs), fuzzing (src/fuzzing, fuzz) and the command-line tool
-- (regalloc2-tool).
pub mod Allocation
pub mod Cfg
pub mod Checker
pub mod Domtree
pub mod Examples
pub mod Function
pub mod Index
pub mod IndexSet
pub mod Ion
pub mod Moves
pub mod Operand
pub mod Output
pub mod Postorder
pub mod Prelude
pub mod ProgPoint
pub mod Reg
pub mod Ssa
