-- ===== src/Checker/Uses.antt =====
-- What it means that the checker finds no error in an instruction.
use regalloc.Prelude.{
  ◌≡◌, ◌≢◌, inl, inr, refl, sym, ap, ◌∙◌, Option, none, some, List, [], ◌∷◌, Bool, true, false,
  ◌&&◌, get_elem?, if◌then◌else◌, Bool-cases, some_inj, >>=-eq-some,
}
use regalloc.Prelude.Sets.{contains, get}
use regalloc.Reg.PReg.{PReg, preg_eq}
use regalloc.Reg.VReg.{VReg, vreg_eq}
use regalloc.Operand
use regalloc.Operand.{
  Operand, OperandConstraint, any, fixed_reg, reuse, def, use_of, OperandPos, early, late,
}
use regalloc.Allocation
use regalloc.Allocation.{
  Allocation, AllocationKind, alloc_eq, no_alloc, reg_kind, none_kind, stack_kind, kind_eq,
}
use regalloc.Moves.Store.{alloc_cases}
use regalloc.Index.{Inst}
use regalloc.ProgPoint.{InstPosition, before_inst, after_inst}
use regalloc.Checker.{
  CheckerValue, universe, vregs, CheckerState, top, allocations, CheckerInst, move, parallel_move,
  op, get_value, defined, zip,
}
use regalloc.Checker.Errors.{
  StackRegs, Verdict, fine, wrong, check_reg, check_reuse, check_by, check_constraint, check_use,
  and_then, reads, check_val, is_here, check_operands, has_reused_input, is_after, is_stack, check,
}
use regalloc.Checker.Meaning.{Config, Means, HoldsAllocs}

module _ (machine : StackRegs) where
  -- An allocation that a constraint allows, beside the allocations of all operands.
  abbrev pub Satisfies : OperandConstraint → Allocation → List Allocation → Type 0
  Satisfies any a allocs = Unit {0}
  Satisfies OperandConstraint.reg a allocs =
      (p : PReg) × (Allocation.as_reg a ≡ some (some p))
      × (contains preg_eq machine.fixed_stack_slots p ≡ false)
  Satisfies (fixed_reg p) a allocs = a ≡ Allocation.reg p
  Satisfies (reuse idx) a allocs =
      (Allocation.kind a ≡ some reg_kind) × (get_elem? allocs idx ≡ some a)

  -- A use reads the value of its register, and the allocation satisfies the constraint.
  pub record IsRight {V : Type 0} (c : Config V) (allocs : List Allocation) (o : Operand)
      (a : Allocation) : Type 0 where
    pub allocated : a ≢ no_alloc
    pub reads_value :
        reads machine o ≡ some true
        → (v : VReg) × (Operand.vreg o ≡ some v) × (c.store a ≡ c.values v)
    pub placed : (k : OperandConstraint) × (Operand.constraint o ≡ some k) × Satisfies k a allocs

  abbrev pub AllRight :
      {V : Type 0}
      → Config V
      → InstPosition
      → List Allocation
      → List (Operand × Allocation)
      → Type 0
  AllRight c pos allocs [] = Unit {0}
  AllRight c pos allocs ((o, a) ∷ rest) =
      (is_here machine (Operand.pos o) pos ≡ true → IsRight c allocs o a)
      × AllRight c pos allocs rest

  -- At a position of an instruction, `late` operands count behind it only where none is reused.
  abbrev pub InstRight : {V : Type 0} → Config V → InstPosition → CheckerInst → Type 0
  InstRight c before_inst (op inst operands allocs clobbers) =
      AllRight c before_inst allocs (zip operands allocs)
  InstRight c after_inst (op inst operands allocs clobbers) =
      has_reused_input machine operands ≡ some false
      → AllRight c after_inst allocs (zip operands allocs)
  InstRight c pos (move into from) =
      is_stack machine into ≡ some true → is_stack machine from ≡ some false
  InstRight c pos (parallel_move moves) = Unit {0}

  and_then-fine :
      (a b : Option Verdict) → and_then machine a b ≡ some fine → (a ≡ some fine) × (b ≡ some fine)
  unfolding and_then
  and_then-fine none b h = cc
  and_then-fine (some fine) b h = (refl, h)
  and_then-fine (some (wrong e)) b h = cc

  get_value-defined :
      (st : CheckerState) (a : Allocation) → get_value st a ≡ get alloc_eq (defined st) a
  unfolding get_value defined get
  get_value-defined top a = refl
  get_value-defined (allocations m) a = refl

  check_reg-fine :
      (inst : Inst) (o : Operand) (a : Allocation) (r : Option PReg)
      → check_reg machine inst o a r ≡ fine
      → (p : PReg) × (r ≡ some p) × (contains preg_eq machine.fixed_stack_slots p ≡ false)
  unfolding check_reg
  check_reg-fine inst o a none h = cc
  check_reg-fine inst o a (some p) h =
      elim (Bool-cases (contains preg_eq machine.fixed_stack_slots p)) [
        | inl y ↦ cc (rw y at h)
        | inr n ↦ (p, refl, n)
      ]

  check_by-Satisfies :
      (inst : Inst) (o : Operand) (a : Allocation) (allocs : List Allocation)
      (k : OperandConstraint)
      → check_by machine inst o a allocs k ≡ some fine
      → Satisfies k a allocs
  unfolding check_by check_reuse
  check_by-Satisfies inst o a allocs any h = tt
  check_by-Satisfies inst o a allocs OperandConstraint.reg h =
      let (r, e, h1) = >>=-eq-some (Allocation.as_reg a) _ h in
      let (p, q, n) = check_reg-fine inst o a r (some_inj _ fine h1) in (p, e ∙ ap some q, n)
  check_by-Satisfies inst o a allocs (fixed_reg p) h = elim (alloc_cases a (Allocation.reg p)) [
    | inl (e, _) ↦ e
    | inr (_, n) ↦ cc (rw n at h)
  ]
  check_by-Satisfies inst o a allocs (reuse idx) h =
      let (k, e, h1) = >>=-eq-some (Allocation.kind a) _ h in
      elim (Bool-cases (kind_eq k reg_kind)) [
        | inr n ↦ cc (rw n at h1)
        | inl y ↦
            let (expected, e2, h2) = >>=-eq-some (get_elem? allocs idx) _ (rw y at h1) in
            elim (alloc_cases a expected) [
              | inl (q, _) ↦ (e ∙ ap some (is_reg_kind k y), e2 ∙ ap some (sym q))
              | inr (_, n) ↦ cc (rw n at h2)
            ]
      ]
    where
      is_reg_kind : (k : AllocationKind) → kind_eq k reg_kind ≡ true → k ≡ reg_kind
      is_reg_kind reg_kind h = refl
      is_reg_kind none_kind h = cc
      is_reg_kind stack_kind h = cc

  module _ {V : Type 0} (c : Config V) (inst : Inst) (o : Operand) (a : Allocation) where
    check_use-value :
        (val : Option CheckerValue)
        → check_use machine inst o a val ≡ some fine
        → ((w : CheckerValue) → val ≡ some w → Means w (c.store a) c.values)
        → (v : VReg) × (Operand.vreg o ≡ some v) × (c.store a ≡ c.values v)
    unfolding check_use
    check_use-value none h means = cc h
    check_use-value (some universe) h means = cc h
    check_use-value (some (vregs s)) h means =
        let (v, e, h1) = >>=-eq-some (Operand.vreg o) _ h in
        elim (Bool-cases (contains vreg_eq s v)) [
          | inl y ↦ (v, e, means (vregs s) refl v y)
          | inr n ↦ cc (rw n at h1)
        ]

    check_val-IsRight :
        (st : CheckerState) (allocs : List Allocation)
        → check_val machine inst o a (get_value st a) allocs ≡ some fine
        → HoldsAllocs (defined st) c
        → IsRight c allocs o a
    unfolding check_val check_constraint
    check_val-IsRight st allocs h holds = elim (alloc_cases a no_alloc) [
      | inl (_, y) ↦ cc (rw y at h)
      | inr (ne, n) ↦
          let (r, e, h1) = >>=-eq-some (reads machine o) _ (rw n at h) in
          let (used, constrained) =
            and_then-fine (if r then check_use machine inst o a (get_value st a) else some fine)
              (check_constraint machine inst o a allocs) h1 in
          let (k, ek, h2) = >>=-eq-some (Operand.constraint o) _ constrained in
          record {
            allocated = ne;
            reads_value = λ reading.
                check_use-value (get_value st a)
                  (if_read r (some_inj r true (sym e ∙ reading)) used)
                  (λ w q. holds a w (sym (get_value-defined st a) ∙ q));
            placed = (k, ek, check_by-Satisfies inst o a allocs k h2);
          }
    ]
      where
        if_read :
            (r : Bool)
            → r ≡ true
            → (if r then check_use machine inst o a (get_value st a) else some fine) ≡ some fine
            → check_use machine inst o a (get_value st a) ≡ some fine
        if_read true e h = h
        if_read false e h = cc

  apart :
      (st : CheckerState) (pos : InstPosition) (into from : Allocation)
      → check machine st pos (move into from) ≡ some fine
      → is_stack machine into ≡ some true
      → is_stack machine from ≡ some false
  unfolding check
  apart st pos into from h on_stack =
      let (b, e, h1) = >>=-eq-some (is_stack machine from) _ (rw on_stack at h) in
      elim (Bool-cases b) [ inl y ↦ cc (rw y at h1) | inr n ↦ e ∙ ap some n ]

  module _ {V : Type 0} (c : Config V) (st : CheckerState)
      (holds : HoldsAllocs (defined st) c) where
    check_operands-AllRight :
        (pos : InstPosition) (inst : Inst) (l : List (Operand × Allocation))
        (allocs : List Allocation)
        → check_operands machine st pos inst l allocs ≡ some fine
        → AllRight c pos allocs l
    unfolding check_operands
    check_operands-AllRight pos inst [] allocs h = tt
    check_operands-AllRight pos inst ((o, a) ∷ rest) allocs h =
        let (this_one, others) =
          and_then-fine
            (if is_here machine (Operand.pos o) pos
              then check_val machine inst o a (get_value st a) allocs
              else some fine)
            (check_operands machine st pos inst rest allocs) h in
        (
          λ here. check_val-IsRight c inst o a st allocs (rw here at this_one) holds,
          check_operands-AllRight pos inst rest allocs others,
        )

    -- Where the state describes the values and the check of an instruction at a position finds
    -- nothing wrong: every operand of that position has an allocation that satisfies its
    -- constraint, and every use among them reads there the value of its virtual register; a move is
    -- not from stack to stack. Excepted are, for the position after the instruction, all operands of
    -- one that has an operand with a `Reuse` constraint (that operand among them), and for the
    -- values, fixed registers that are not allocatable; of a parallel move nothing is said.
    pub check-InstRight :
        (pos : InstPosition) (i : CheckerInst)
        → check machine st pos i ≡ some fine
        → InstRight c pos i
    unfolding check is_after
    check-InstRight before_inst (op inst operands allocs clobbers) h =
        let (r, e, h1) = >>=-eq-some (has_reused_input machine operands) _ h in
        check_operands-AllRight before_inst inst (zip operands allocs) allocs (before r h1)
      where
        before :
            (r : Bool)
            → (if r && false
                then some fine
                else check_operands machine st before_inst inst (zip operands allocs) allocs)
              ≡ some fine
            → check_operands machine st before_inst inst (zip operands allocs) allocs ≡ some fine
        before true h = h
        before false h = h
    check-InstRight after_inst (op inst operands allocs clobbers) h = λ none_reused.
        check_operands-AllRight after_inst inst (zip operands allocs) allocs (rw none_reused at h)
    check-InstRight before_inst (move into from) h = apart st before_inst into from h
    check-InstRight after_inst (move into from) h = apart st after_inst into from h
    check-InstRight pos (parallel_move moves) h = tt
