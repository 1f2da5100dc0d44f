-- ===== src/Examples/Orders.antt =====
-- Orders of blocks and of registers on concrete inputs.
use regalloc.Prelude.{
  ℕ, ◌<◌, ◌≡◌, ◌↔◌, inl, inr, refl, ap, none, some, List, [], ◌∷◌, ◌==◌, In, Bool-cases,
  if◌then◌else◌, arith,
}
use regalloc.Reg.{int}
use regalloc.Reg.PReg
use regalloc.Reg.PReg.{PReg}
use regalloc.Index.{Block}
use regalloc.Postorder.{calculate}
use regalloc.Postorder.Reached.{Reach}
use regalloc.Postorder.Fuel.{calculate-Reach}
use regalloc.Ion.RegTraversal.{MachineEnv, new}
use regalloc.Ion.RegTraversal.Loops.{Yields}
use regalloc.Ion.RegTraversal.Whole.{order, new-Yields}

abbrev bb : ℕ → Block
bb i = record { raw = i }

-- Block 0 goes to 2 and 1, block 2 back to 0; block 3 is not reached.
abbrev branching : Block → List Block
branching b = if b.raw == 0 then bb 2 ∷ bb 1 ∷ [] else if b.raw == 2 then bb 0 ∷ [] else []

calculate_run : calculate branching 11 4 (bb 0) ≡ some (bb 2 ∷ bb 1 ∷ bb 0 ∷ [])
unfolding calculate
calculate_run = refl

branching_closed : (b c : Block) → Reach branching (bb 0) b → In c (branching b) → c.raw < 4
branching_closed b c r m = elim (Bool-cases (b.raw == 0)) [
  | inl y ↦ from_0 (rw y at m)
  | inr n ↦ elim (Bool-cases (b.raw == 2)) [
    | inl y ↦ from_2 (rw (n, y) at m)
    | inr n' ↦ absurd (rw (n, n') at m)
  ]
]
  where
    from_0 : In c (bb 2 ∷ bb 1 ∷ []) → c.raw < 4
    from_0 (inl e) = omega (arith, ap (λ (z : Block). z.raw) e)
    from_0 (inr (inl e)) = omega (arith, ap (λ (z : Block). z.raw) e)
    from_0 (inr (inr k)) = absurd k

    from_2 : In c (bb 0 ∷ []) → c.raw < 4
    from_2 (inl e) = omega (arith, ap (λ (z : Block). z.raw) e)
    from_2 (inr k) = absurd k

calculate-Reach_example :
    (ret : List Block) × (calculate branching 11 4 (bb 0) ≡ some ret)
    × ((b : Block) → In b ret ↔ Reach branching (bb 0) b)
calculate-Reach_example =
    calculate-Reach branching 4 (bb 0) branching_closed 11 (omega arith) (omega arith)

abbrev pr : ℕ → PReg
pr i = record { bits = i }

abbrev three_and_two : MachineEnv
three_and_two = record {
  preferred_regs_by_class = λ c. pr 0 ∷ pr 1 ∷ pr 2 ∷ [];
  non_preferred_regs_by_class = λ c. pr 8 ∷ pr 9 ∷ [];
}

order_run : order three_and_two int (pr 2) (pr 8) 4 none ≡ pr 2 ∷ pr 8 ∷ pr 1 ∷ pr 0 ∷ pr 9 ∷ []
unfolding PReg.invalid
order_run = refl

new-Yields_example :
    Yields three_and_two
      (new three_and_two int (pr 2) (pr 8) 4 none)
      (order three_and_two int (pr 2) (pr 8) 4 none)
new-Yields_example = new-Yields three_and_two int (pr 2) (pr 8) 4 none
