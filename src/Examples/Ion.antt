-- ===== src/Examples/Ion.antt =====
-- The passes of src/ion on concrete inputs.
use regalloc.Prelude.{ℕ, ◌+◌, ◌≡◌, refl, Option, some, none, List, [], ◌∷◌, Bool, true, false, All}
use regalloc.Reg.PReg
use regalloc.Reg.PReg.{PReg}
use regalloc.Operand.{constraint}
use regalloc.Allocation.{Allocation, is_reg, kind}
use regalloc.Ion.Requirement.{
  Requirement, fixed_register, fixed_stack, register, Use, Outcome, compute_requirement,
  requirement_from_operand, uses_of, merge, merge_bundle_requirements, conflict, reg_to_stack,
}
use regalloc.Ion.Requirement.Places.{
  Allows, Meets, merge-Meets, UseAllows, merge_bundle_requirements-Meets, IsReadable, Answers,
  compute_requirement-Answers,
}
use regalloc.Ion.RedundantMoves.{
  RedundantMoveEliminator, Event, moved, written, crossed, process_all, empty, tracked,
}
use regalloc.Ion.RedundantMoves.Trace.{run_events, run_staying, process_all-run_events}

abbrev f20 : PReg
f20 = record { bits = 84 }

merge-Meets_example :
    Meets (Allows register) (Allows (fixed_register f20)) (merge register (fixed_register f20))
merge-Meets_example = merge-Meets register (fixed_register f20)

-- A use of virtual register 7 in any register, and one in f20.
abbrev reg_use_7 : Use
reg_use_7 = record {
  operand = record { bits = 0x0320_0007 };
  pos = record { bits = 8 };
  slot = 0;
  weight = 0;
}

abbrev f20_use_7 : Use
f20_use_7 = record {
  operand = record { bits = 0xa920_0007 };
  pos = record { bits = 10 };
  slot = 1;
  weight = 0;
}

abbrev f20_on_stack : ℕ → Bool
f20_on_stack n = true

reg_use_7-IsReadable : IsReadable f20_on_stack reg_use_7
unfolding requirement_from_operand constraint
reg_use_7-IsReadable = (register, refl)

f20_use_7-IsReadable : IsReadable f20_on_stack f20_use_7
unfolding requirement_from_operand constraint PReg.new
f20_use_7-IsReadable = (fixed_stack f20, refl)

abbrev two_ranges : List (List Use)
two_ranges = (reg_use_7 ∷ []) ∷ (f20_use_7 ∷ []) ∷ []

compute_requirement_run :
    compute_requirement f20_on_stack two_ranges
    ≡ some (conflict (reg_to_stack (record { bits = 8 })))
unfolding compute_requirement requirement_from_operand constraint PReg.new
compute_requirement_run = refl

two_ranges-IsReadable : All (IsReadable f20_on_stack) (uses_of f20_on_stack two_ranges)
unfolding uses_of
two_ranges-IsReadable = (reg_use_7-IsReadable, (f20_use_7-IsReadable, tt))

one_range-IsReadable : All (IsReadable f20_on_stack) (uses_of f20_on_stack ((reg_use_7 ∷ []) ∷ []))
unfolding uses_of
one_range-IsReadable = (reg_use_7-IsReadable, tt)

compute_requirement-Answers_example :
    (o : Outcome) × (compute_requirement f20_on_stack two_ranges ≡ some o)
    × Answers f20_on_stack (λ p. Unit {0}) (uses_of f20_on_stack two_ranges) o
compute_requirement-Answers_example =
    compute_requirement-Answers f20_on_stack two_ranges two_ranges-IsReadable

merge_bundle_requirements-Meets_example :
    (o : Option Requirement) × (merge_bundle_requirements f20_on_stack
        ((reg_use_7 ∷ []) ∷ [])
        two_ranges
      ≡ some o)
    × Meets
        (λ p. All (UseAllows f20_on_stack p) (uses_of f20_on_stack ((reg_use_7 ∷ []) ∷ [])))
        (λ p. All (UseAllows f20_on_stack p) (uses_of f20_on_stack two_ranges))
        o
merge_bundle_requirements-Meets_example =
    merge_bundle_requirements-Meets f20_on_stack ((reg_use_7 ∷ []) ∷ []) two_ranges
      one_range-IsReadable two_ranges-IsReadable

-- The allocation of register `n`.
abbrev r : ℕ → Allocation
r n = record { bits = 0x2000_0000 + n }

-- The move back to r1 is redundant until r2 is written.
abbrev there_and_back : List Event
there_and_back =
    moved (r 1) (r 2) none
    ∷ moved (r 2) (r 1) none
    ∷ written (r 2)
    ∷ moved (r 2) (r 1) none
    ∷ crossed
    ∷ []

abbrev stays : Option (List Bool × RedundantMoveEliminator) → List Bool
stays none = []
stays (some (stay, r')) = stay

there_and_back_run :
    stays (process_all empty there_and_back) ≡ true ∷ false ∷ true ∷ true ∷ true ∷ []
unfolding process_all tracked is_reg kind
there_and_back_run = refl

both_registers : (a b : Allocation) → is_reg a ≡ some true → tracked a b ≡ some true
unfolding tracked
both_registers a b e = rw e refl

r1-is_reg : is_reg (r 1) ≡ some true
unfolding is_reg kind
r1-is_reg = refl

r2-is_reg : is_reg (r 2) ≡ some true
unfolding is_reg kind
r2-is_reg = refl

process_all-run_events_example :
    (stay : List Bool) × (r' : RedundantMoveEliminator) × (process_all empty there_and_back
      ≡ some (stay, r'))
    × (run_staying (λ es a s. 7) (λ es s. s) stay there_and_back (λ a. a.bits)
        ≡ run_events (λ es a s. 7) (λ es s. s) there_and_back (λ a. a.bits))
process_all-run_events_example =
    process_all-run_events (λ es a s. 7) (λ es s. s) there_and_back (λ a. a.bits)
      (
        (true, both_registers (r 1) (r 2) r1-is_reg),
        (
          (true, both_registers (r 2) (r 1) r2-is_reg),
          (tt, ((true, both_registers (r 2) (r 1) r2-is_reg), (tt, tt))),
        ),
      )
