-- ===== src/Checker/Stale.antt =====
-- When a move from an allocation of which nothing is known is described by the checker's step.
use regalloc.Prelude.{◌≡◌, ◌↔◌, inl, inr, refl, sym, ap, ◌∙◌, subst, none, some}
use regalloc.Prelude.Sets.{get}
use regalloc.Allocation.{Allocation, alloc_eq}
use regalloc.Moves.Store.{write, write_self, write_ne, alloc_cases}
use regalloc.Checker.{CheckerValue, CheckerState, allocations, defined, move, update, update_allocs}
use regalloc.Checker.Meaning.{Config, InstEffect, Means, HoldsAllocs, Holds, step}

-- For a move from an allocation of which the state records nothing, in a state whose record
-- describes the values before the move (where the state is still unknown, the record is empty): the
-- step succeeds and keeps the record as it is, and the state that it gives describes the values
-- after the move exactly if what the source holds fits what is recorded of the destination. If the
-- destination is recorded to hold a virtual register that has another value, the state does not
-- describe the values.
pub update-stale :
    {V : Type 0} (into from : Allocation) (st : CheckerState) (x : InstEffect V) (c : Config V)
    → get alloc_eq (defined st) from ≡ none
    → HoldsAllocs (defined st) c
    → (update (move into from) st ≡ some (allocations (defined st)))
      × (Holds (allocations (defined st)) (step x (move into from) c) ↔ (
          (val : CheckerValue)
          → get alloc_eq (defined st) into ≡ some val
          → Means val (c.store from) c.values))
unfolding update update_allocs step
update-stale {V} into from st x c unknown holds =
    (simp (unknown, update_allocs) refl, (fits, described))
  where
    after : Allocation → V
    after = write c.store into (c.store from)

    fits :
        HoldsAllocs (defined st) (step x (move into from) c)
        → (val : CheckerValue) → get alloc_eq (defined st) into ≡ some val
        → Means val (c.store from) c.values
    fits later val known =
        subst (λ y. Means val y c.values) (write_self c.store into (c.store from))
          (later into val known)

    described :
        ((val : CheckerValue)
          → get alloc_eq (defined st) into ≡ some val
          → Means val (c.store from) c.values)
        → HoldsAllocs (defined st) (step x (move into from) c)
    described fit a val known = elim (alloc_cases into a) [
      | inl (same, _) ↦
          subst (λ y. Means val y c.values)
            (sym (ap after (sym same) ∙ write_self c.store into (c.store from)))
            (fit val (ap (get alloc_eq (defined st)) same ∙ known))
      | inr (ne, _) ↦
          subst (λ y. Means val y c.values) (sym (write_ne c.store into a (c.store from) ne))
            (holds a val known)
    ]
