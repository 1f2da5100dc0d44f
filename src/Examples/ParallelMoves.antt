-- ===== src/Examples/ParallelMoves.antt =====
-- Parallel moves with a cycle.
use regalloc.Prelude.{
  ℕ, ◌+◌, suc, ◌<◌, ◌≡◌, ◌≢◌, refl, sym, ap, subst, some, none, List, [], ◌∷◌, arith, ◌==◌, leb,
  ==_iff, get_elem?, All,
}
use regalloc.Allocation.{Allocation, no_alloc, is_none, kind, reg}
use regalloc.Moves.{Move, MoveVecWithScratch, scratch, no_scratch, resolve}
use regalloc.Moves.Store.{exec}
use regalloc.Moves.Scratch.{MoveAndScratchResolver, choose_scratch, fill_cycle_scratch, compute}
use regalloc.Moves.Scratch.Loop.{IsPossible}
use regalloc.Moves.Scratch.Compute.{Fits, spent, compute-exec}
use regalloc.Moves.Prepare.{Strict, Strict-OneWriter, Agrees, MemIn-At}
use regalloc.Moves.Fill.{IsFull}
use regalloc.Moves.Sequence.{Does}
use regalloc.Moves.Resolve.{IsMove, resolve_correct}

-- The allocation of register `n`.
abbrev r : ℕ → Allocation
r n = record { bits = 0x2000_0000 + n }

abbrev move : ℕ → ℕ → Move ℕ
move a b = record { src = r a; dst = r b; info = b }

-- r1 and r2 are swapped, r3 is given what r1 held, and r5 stays.
abbrev swap : List (Move ℕ)
swap = move 2 1 ∷ move 1 2 ∷ move 1 3 ∷ move 5 5 ∷ []

swap_run :
    resolve ◌==◌ 0 swap
    ≡ some (
        scratch (
          move 1 3
          ∷ record { src = r 1; dst = no_alloc; info = 0 }
          ∷ move 2 1
          ∷ record { src = no_alloc; dst = r 2; info = 2 }
          ∷ []))
unfolding resolve no_alloc
swap_run = refl

differ : (a b : Allocation) → a.bits ≢ b.bits → a ≢ b
differ a b ne e = ne (ap (λ (x : Allocation). x.bits) e)

-- The kinds of the registers of the example.
r-IsFull : All (λ n. IsFull (r n)) (1 ∷ 2 ∷ 3 ∷ 5 ∷ 9 ∷ [])
unfolding is_none kind
r-IsFull = (refl, (refl, (refl, (refl, (refl, tt)))))

-- A move among the first nine registers.
move-IsMove : (a b : ℕ) → a < 9 → b < 9 → IsFull (r a) → IsFull (r b) → IsMove (r 9) (move a b)
move-IsMove a b ha hb full_a full_b = (
  (omega arith, omega arith),
  (full_a, full_b),
  differ (r a) (r 9) (λ e. absurd (omega (arith, e))),
  differ (r b) (r 9) (λ e. absurd (omega (arith, e))),
)

Strict-Agrees : (ms : List (Move ℕ)) → Strict ms → Agrees ms
Strict-Agrees ms h a b k l e =
    let (i, at) = MemIn-At ms a k in
    let (j, at') = MemIn-At ms b l in
    cc (ap (get_elem? ms) (Strict-OneWriter ms h i j a b at at' e))

swap-Agrees : Agrees swap
swap-Agrees = Strict-Agrees swap (
  (omega arith, (omega arith, (omega arith, tt))),
  ((omega arith, (omega arith, tt)), ((omega arith, tt), (tt, tt))),
)

resolve_correct_example :
    (r' : MoveVecWithScratch ℕ) × (resolve ◌==◌ 0 swap ≡ some r') × Does ℕ swap (r 9) r'
resolve_correct_example =
    resolve_correct ◌==◌ ==_iff 0 ℕ (r 9) r-IsFull.1.1.1.1.0 swap
      (
        move-IsMove 2 1 (omega arith) (omega arith) r-IsFull.1.0 r-IsFull.0,
        (
          move-IsMove 1 2 (omega arith) (omega arith) r-IsFull.0 r-IsFull.1.0,
          (
            move-IsMove 1 3 (omega arith) (omega arith) r-IsFull.0 r-IsFull.1.1.0,
            (move-IsMove 5 5 (omega arith) (omega arith) r-IsFull.1.1.1.0 r-IsFull.1.1.1.0, tt),
          ),
        ),
      )
      swap-Agrees

-- The allocation of stack slot `n`.
abbrev slot : ℕ → Allocation
slot n = record { bits = 0x4000_0000 + n }

-- No register is free, r4 may be borrowed, and the caller counts up the slots that it hands out.
abbrev caller : MoveAndScratchResolver ℕ
caller = record {
  find_free_reg = λ n. (none, n);
  get_stackslot = λ n. (slot n, suc n);
  is_stack_alloc = λ a. leb 0x4000_0000 a.bits;
  borrowed_scratch_reg = record { bits = 4 };
}

abbrev stack_move : ℕ → ℕ → Move ℕ
stack_move a b = record { src = slot a; dst = slot b; info = b }

-- A move between slots, and r-IsFull.0 out of the borrowed register.
abbrev through_r4 : List (Move ℕ)
through_r4 = stack_move 1 2 ∷ move 4 6 ∷ []

compute_run :
    compute caller 0 (no_scratch through_r4) 9
    ≡ some (
        record { src = r 4; dst = slot 9; info = 0 }
        ∷ record { src = slot 1; dst = r 4; info = 2 }
        ∷ record { src = r 4; dst = slot 2; info = 2 }
        ∷ record { src = slot 9; dst = r 4; info = 0 }
        ∷ move 4 6
        ∷ [])
unfolding compute reg
compute_run = refl

choice : (choose_scratch {T = ℕ} caller 0 9).0 ≡ (r 4, some (slot 9))
unfolding choose_scratch reg
choice = refl

filled : fill_cycle_scratch caller 0 (no_scratch through_r4) 9 ≡ (some through_r4, 9)
unfolding fill_cycle_scratch
filled = refl

through_r4-Fits : Fits caller through_r4 (choose_scratch {T = ℕ} caller 0 9).0
through_r4-Fits = subst (Fits caller through_r4) (sym choice) (
  refl,
  differ (r 4) (slot 9) (λ e. absurd (omega (arith, e))),
  (
    (
      differ (slot 1) (slot 9) (λ e. absurd (omega (arith, e))),
      differ (slot 2) (slot 9) (λ e. absurd (omega (arith, e))),
    ),
    (
      (
        differ (r 4) (slot 9) (λ e. absurd (omega (arith, e))),
        differ (r 6) (slot 9) (λ e. absurd (omega (arith, e))),
      ),
      tt,
    ),
  ),
)

compute-exec_example :
    (out : List (Move ℕ)) × (compute caller 0 (no_scratch through_r4) 9 ≡ some out)
    × ((a : Allocation)
        → a ≢ spent (choose_scratch {T = ℕ} caller 0 9).0
        → exec out (λ b. b.bits) a ≡ exec through_r4 (λ b. b.bits) a)
    × All (IsPossible caller) out
compute-exec_example =
    compute-exec caller 0 (no_scratch through_r4) through_r4 9 9 (λ b. b.bits) filled
      through_r4-Fits
