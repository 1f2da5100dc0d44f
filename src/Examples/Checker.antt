-- ===== src/Examples/Checker.antt =====
-- The checker on a function of two blocks: the first defines virtual register 5 and gives it to the
-- block parameter 6 of the second, which uses it in the same register.
use regalloc.Prelude.{
  ℕ, ◌≡◌, ◌⊎◌, ◌↔◌, inl, inr, refl, sym, ap, subst, some, List, [], ◌∷◌, false, Bool-cases,
  some_inj, if◌then◌else◌, arith, ◌==◌,
}
use regalloc.Prelude.Sets.{contains, get}
use regalloc.Reg.PRegSet
use regalloc.Reg.VReg
use regalloc.Reg.VReg.{VReg, vreg_eq}
use regalloc.Operand
use regalloc.Operand.{Operand}
use regalloc.Allocation
use regalloc.Allocation.{Allocation, alloc_eq}
use regalloc.Moves.Store.{alloc_eq_iff}
use regalloc.Index.{Block, index_eq}
use regalloc.Function.{Function}
use regalloc.Checker.{
  CheckerState, CheckerValue, top, allocations, Allocs, CheckerInst, move, parallel_move, op,
  update, defined, meet_with, vregs, from_reg,
}
use regalloc.ProgPoint.{before_inst}
use regalloc.Checker.Errors.{StackRegs, check, fine}
use regalloc.Checker.Analysis
use regalloc.Output.{Output}
use regalloc.Checker.Prepare.{prepare}
use regalloc.Checker.Prepared.{Distinct, prepare-IsPrepared}
use regalloc.Checker.Analysis.{
  Checker, edge_eq, analyze, find_errors, blocks_from, blocks, Work, start, turn,
}
use regalloc.Checker.Meaning.{Config, InstEffect, step, Means, HoldsAllocs, Holds}
use regalloc.Checker.Consistent.{IsConsistent}
use regalloc.Checker.Turn.{turn-IsConsistent}
use regalloc.Checker.Update.{update-Holds}
use regalloc.Checker.Uses.{InstRight, check-InstRight}
use regalloc.Checker.Meet.{meet_with-Holds}
use regalloc.Checker.Runs.{TrackedAll, EachRight, go, stop}
use regalloc.Checker.Sound.{
  start-IsConsistent, IsPrepared, IsTrackedIn, Arrives, enter, follow, find_errors-EachRight,
}
use regalloc.Checker.Stale.{update-stale}

abbrev r1 : Allocation
r1 = record { bits = 0x2000_0001 }

abbrev r2 : Allocation
r2 = record { bits = 0x2000_0002 }

abbrev v5 : VReg
v5 = record { bits = 20 }

abbrev v6 : VReg
v6 = record { bits = 24 }

abbrev block_0 : Block
block_0 = record { raw = 0 }

abbrev block_1 : Block
block_1 = record { raw = 1 }

-- A definition of v5 in a register, and a use of v6 in any place.
abbrev def_5 : Operand
def_5 = record { bits = 0x0280_0005 }

abbrev use_6 : Operand
use_6 = record { bits = 0x0100_0006 }

abbrev define_5 : CheckerInst
define_5 = op (record { raw = 0 }) (def_5 ∷ []) (r1 ∷ []) []

abbrev use_in_r1 : CheckerInst
use_in_r1 = op (record { raw = 2 }) (use_6 ∷ []) (r1 ∷ []) []

abbrev give_5_to_6 : CheckerInst
give_5_to_6 = parallel_move ((v6, v5) ∷ [])

abbrev succs_of : Block → List Block
succs_of b = if index_eq block_0 b then block_1 ∷ [] else []

-- Instructions 0 and 1, a branch, are the first block, instruction 2 the second.
abbrev two_blocks : Function
two_blocks = record {
  num_insts = 3;
  num_blocks = 2;
  entry_block = block_0;
  block_insns = λ b.
      if index_eq block_0 b
      then record { from = record { raw = 0 }; to = record { raw = 2 } }
      else record { from = record { raw = 2 }; to = record { raw = 3 } };
  block_succs = succs_of;
  block_preds = λ b. if index_eq block_1 b then block_0 ∷ [] else [];
  block_params = λ b. if index_eq block_1 b then v6 ∷ [] else [];
  is_ret = λ i. i.raw == 2;
  is_branch = λ i. i.raw == 1;
  branch_blockparams = λ b i n. v5 ∷ [];
  inst_operands = λ i. if i.raw == 0 then def_5 ∷ [] else if i.raw == 2 then use_6 ∷ [] else [];
  inst_clobbers = λ i. PRegSet.empty;
  num_vregs = 7;
  debug_value_labels = [];
  spillslot_size = λ c. 1;
  multi_spillslot_named_by_last_slot = false;
  allow_multiple_vreg_defs = false;
}

abbrev allocated : Output
allocated = record {
  num_spillslots = 0;
  edits = [];
  allocs = r1 ∷ r1 ∷ [];
  inst_alloc_offsets = 0 ∷ 1 ∷ 1 ∷ [];
}

abbrev machine : StackRegs
machine = record { fixed_stack_slots = []; stack_pregs = PRegSet.empty }

abbrev created : Checker
created = record {
  bb_in = (block_0, top) ∷ (block_1, top) ∷ [];
  bb_insts = (block_1, []) ∷ (block_0, []) ∷ [];
  edge_insts = ((block_0, block_1), []) ∷ [];
  machine = machine;
}

abbrev prepared : Checker
prepared = record created {
  bb_insts = (block_1, use_in_r1 ∷ []) ∷ (block_0, define_5 ∷ []) ∷ [];
  edge_insts = ((block_0, block_1), give_5_to_6 ∷ []) ∷ [];
}

new_run : Analysis.new two_blocks [] ≡ some created
unfolding Analysis.new blocks_from
new_run = refl

prepare_run : prepare two_blocks allocated created ≡ some prepared
unfolding prepare blocks_from
prepare_run = refl

abbrev analyzed : Checker
analyzed = record prepared {
  bb_in = (block_1, allocations ((r1, vregs (v6 ∷ v5 ∷ [])) ∷ [])) ∷ (block_0, top) ∷ [];
}

analyze_run : analyze two_blocks prepared 3 ≡ some analyzed
unfolding analyze blocks_from Operand.kind Operand.vreg VReg.new
analyze_run = refl

find_errors_run : find_errors analyzed ≡ some []
unfolding find_errors Operand.constraint Operand.pos Allocation.no_alloc Operand.kind
    Operand.as_fixed_nonallocatable VReg.new Allocation.as_reg Allocation.kind
find_errors_run = refl

-- A map with two keys.
get_two :
    {A : Type 0} (x y : A) (b : Block) (v : A)
    → get index_eq ((block_1, x) ∷ (block_0, y) ∷ []) b ≡ some v
    → (x ≡ v) ⊎ (y ≡ v)
unfolding get
get_two x y b v h = elim (Bool-cases (index_eq block_1 b)) [
  | inl e ↦ inl (some_inj x v (rw e at h))
  | inr n ↦ elim (Bool-cases (index_eq block_0 b)) [
    | inl e ↦ inr (some_inj y v (rw (n, e) at h))
    | inr n' ↦ cc (rw (n, n') at h)
  ]
]

no_way_back : (b : Block) → contains index_eq (succs_of b) block_0 ≡ false
unfolding contains
no_way_back b = elim (Bool-cases (index_eq block_0 b)) [ inl e ↦ rw e refl | inr n ↦ rw n refl ]

params-Distinct : (b : Block) → Distinct (two_blocks.block_params b)
unfolding contains
params-Distinct b = elim (Bool-cases (index_eq block_1 b)) [
  | inl e ↦ rw e (refl, tt)
  | inr n ↦ rw n tt
]

prepare-IsPrepared_example :
    IsPrepared two_blocks prepared
    × ((b succ : Block) (st : CheckerState) (es : List CheckerInst)
        → get edge_eq prepared.edge_insts (b, succ) ≡ some es
        → TrackedAll es st)
unfolding contains blocks_from get
prepare-IsPrepared_example =
    prepare-IsPrepared two_blocks [] allocated created prepared define_5 [] new_run prepare_run refl
      no_way_back params-Distinct refl

prepared-IsPrepared : IsPrepared two_blocks prepared
unfolding contains blocks_from get
prepared-IsPrepared =
    (prepare-IsPrepared two_blocks [] allocated created prepared define_5 [] new_run prepare_run
      refl no_way_back params-Distinct refl).0

define_5-TrackedAll : (st : CheckerState) → TrackedAll (define_5 ∷ []) st
define_5-TrackedAll st = (tt, λ st' h. tt)

use_in_r1-TrackedAll : (st : CheckerState) → TrackedAll (use_in_r1 ∷ []) st
use_in_r1-TrackedAll st = (tt, λ st' h. tt)

give_5_to_6-TrackedAll : (st : CheckerState) → TrackedAll (give_5_to_6 ∷ []) st
unfolding contains
give_5_to_6-TrackedAll st = ((refl, tt), λ st' h. tt)

analyzed-IsTrackedIn : IsTrackedIn two_blocks analyzed
unfolding get
analyzed-IsTrackedIn = record {
  in_blocks = λ b st is g h. elim (get_two (use_in_r1 ∷ []) (define_5 ∷ []) b is h) [
    | inl e ↦ subst (λ z. TrackedAll z st) e (use_in_r1-TrackedAll st)
    | inr e ↦ subst (λ z. TrackedAll z st) e (define_5-TrackedAll st)
  ];
  on_edges = λ b succ st is h. elim (Bool-cases (edge_eq (block_0, block_1) (b, succ))) [
    | inl e ↦
        subst (λ z. TrackedAll z st) (some_inj (give_5_to_6 ∷ []) is (rw e at h))
          (give_5_to_6-TrackedAll st)
    | inr n ↦ cc (rw n at h)
  ];
}

-- Numbers as values; each definition computes 7.
abbrev before_0 : Config ℕ
before_0 = record { store = λ a. 0; values = λ v. 1 }

abbrev seven : InstEffect ℕ
seven = record { defines = λ o. 7; leaves = λ p. 0 }

abbrev after_0 : Config ℕ
after_0 = step seven define_5 before_0

abbrev before_1 : Config ℕ
before_1 = step seven give_5_to_6 after_0

comes_to_1 : Arrives ℕ two_blocks prepared block_1 before_1
unfolding get contains
comes_to_1 =
    follow block_0 block_1 before_0 after_0 before_1 (define_5 ∷ []) (give_5_to_6 ∷ [])
      (enter before_0) refl refl (go seven stop) refl (go seven stop)

find_errors-EachRight_example : EachRight machine (use_in_r1 ∷ []) before_1
unfolding get
find_errors-EachRight_example =
    find_errors-EachRight ℕ two_blocks prepared 3 analyzed analyze_run prepared-IsPrepared
      analyzed-IsTrackedIn block_1 before_1 (use_in_r1 ∷ []) find_errors_run comes_to_1 refl

abbrev visited_0 : Work
visited_0 = record { bb_in = analyzed.bb_in; queue = block_1 ∷ []; queue_set = block_1 ∷ [] }

turn_run : turn two_blocks prepared (start two_blocks prepared) ≡ some visited_0
unfolding turn blocks_from Operand.kind Operand.vreg VReg.new
turn_run = refl

turn-IsConsistent_example : IsConsistent ℕ two_blocks prepared visited_0
turn-IsConsistent_example =
    turn-IsConsistent ℕ two_blocks prepared (start two_blocks prepared) visited_0 turn_run
      (start-IsConsistent ℕ two_blocks prepared prepared-IsPrepared)

-- v5 is in r1, and a move takes it to r2.
abbrev v5_in_r1 : Allocs
v5_in_r1 = (r1, from_reg v5) ∷ []

abbrev all_ones : Config ℕ
all_ones = record { store = λ a. 1; values = λ v. 1 }

v5_in_r1-HoldsAllocs : HoldsAllocs v5_in_r1 all_ones
unfolding get
v5_in_r1-HoldsAllocs a val h = elim (Bool-cases (alloc_eq r1 a)) [
  | inl e ↦
      subst (λ z. Means z 1 all_ones.values) (some_inj (from_reg v5) val (rw e at h)) (λ v k. refl)
  | inr n ↦ cc (rw n at h)
]

move_run :
    update (move r2 r1) (allocations v5_in_r1)
    ≡ some (allocations ((r2, from_reg v5) ∷ (r1, from_reg v5) ∷ []))
unfolding update
move_run = refl

update-Holds_example :
    Holds
      (allocations ((r2, from_reg v5) ∷ (r1, from_reg v5) ∷ []))
      (step seven (move r2 r1) all_ones)
unfolding defined get
update-Holds_example =
    update-Holds (move r2 r1) seven (allocations v5_in_r1)
      (allocations ((r2, from_reg v5) ∷ (r1, from_reg v5) ∷ [])) all_ones move_run (λ e. cc)
      v5_in_r1-HoldsAllocs

abbrev use_5_in_r1 : CheckerInst
use_5_in_r1 = op (record { raw = 2 }) (record { bits = 0x0100_0005 } ∷ []) (r1 ∷ []) []

check_run : check machine (allocations v5_in_r1) before_inst use_5_in_r1 ≡ some fine
unfolding check Operand.constraint Operand.pos Allocation.no_alloc Operand.kind Operand.vreg
    Operand.as_fixed_nonallocatable VReg.new Allocation.as_reg Allocation.kind
check_run = refl

check-InstRight_example : InstRight machine all_ones before_inst use_5_in_r1
unfolding defined
check-InstRight_example =
    check-InstRight machine all_ones (allocations v5_in_r1) v5_in_r1-HoldsAllocs before_inst
      use_5_in_r1 check_run

meet_with-Holds_example :
    Holds (meet_with (allocations v5_in_r1) (allocations ((r1, from_reg v6) ∷ []))) all_ones
meet_with-Holds_example =
    meet_with-Holds all_ones (allocations v5_in_r1) (allocations ((r1, from_reg v6) ∷ []))
      (inl v5_in_r1-HoldsAllocs)

-- r2 holds 3, and 1 is the value of v5.
abbrev three_in_r2 : Config ℕ
three_in_r2 = record { store = λ a. if alloc_eq r2 a then 3 else 1; values = λ v. 1 }

three_in_r2-HoldsAllocs : HoldsAllocs v5_in_r1 three_in_r2
unfolding get
three_in_r2-HoldsAllocs a val h = elim (Bool-cases (alloc_eq r1 a)) [
  | inl e ↦
      subst (λ z. Means z (three_in_r2.store a) three_in_r2.values)
        (some_inj (from_reg v5) val (rw e at h))
        (λ v k. ap three_in_r2.store (sym (alloc_eq_iff r1 a e)))
  | inr n ↦ cc (rw n at h)
]

update-stale_example :
    (update (move r1 r2) (allocations v5_in_r1) ≡ some (allocations v5_in_r1))
    × (Holds (allocations v5_in_r1) (step seven (move r1 r2) three_in_r2) ↔ (
        (val : CheckerValue)
        → get alloc_eq v5_in_r1 r1 ≡ some val
        → Means val (three_in_r2.store r2) three_in_r2.values))
unfolding get defined
update-stale_example =
    update-stale r1 r2 (allocations v5_in_r1) seven three_in_r2 refl three_in_r2-HoldsAllocs

-- r1 is recorded to hold v5, which is 1, and the move brings 3 into it.
stale_after_move : ¬ HoldsAllocs v5_in_r1 (step seven (move r1 r2) three_in_r2)
unfolding get contains defined
stale_after_move holds =
    let (runs, fits_iff) =
      update-stale r1 r2 (allocations v5_in_r1) seven three_in_r2 refl three_in_r2-HoldsAllocs in
    omega (arith, fits_iff.0 holds (from_reg v5) refl v5 refl)
