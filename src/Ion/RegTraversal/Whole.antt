-- ===== src/Ion/RegTraversal/Whole.antt =====
-- The whole traversal.
use regalloc.Prelude.{
  ℕ, ◌≡◌, inl, inr, refl, ap, subst, Option, none, some, List, [], ◌∷◌, ◌++◌, false, Bool-cases,
  if◌then◌else◌,
}
use regalloc.Reg.{RegClass}
use regalloc.Reg.PReg.{PReg, preg_eq}
use regalloc.Ion.RegTraversal.{
  MachineEnv, RegTraversalIter, valid_hint, is_some_reg, start_at, new, current_hint, next,
}
use regalloc.Ion.RegTraversal.Order.{rotate, without, whole-IsRest}
use regalloc.Ion.RegTraversal.Loops.{Yields, preferred-Yields}

abbrev pub listed : Option PReg → List PReg
listed none = []
listed (some r) = r ∷ []

without_swap : (h : Option PReg) (ys : List PReg) → without h none ys ≡ without none h ys
without_swap h [] = refl
without_swap none (y ∷ ys) = refl
without_swap (some p) (y ∷ ys) = elim (Bool-cases (preg_eq y p)) [
  | inl k ↦ rw k (without_swap (some p) ys)
  | inr n ↦ rw n (ap (λ z. y ∷ z) (without_swap (some p) ys))
]

-- The registers of a class that are no hints, from an offset on and round.
abbrev pub from_offset : Option PReg → Option PReg → ℕ → List PReg → List PReg
from_offset hint hint2 offset regs = without hint hint2 (rotate (start_at offset regs) regs)

-- The order of the traversal.
abbrev pub order : MachineEnv → RegClass → PReg → PReg → ℕ → Option PReg → List PReg
order env class hint hint2 offset (some preg) = preg ∷ []
order env class hint hint2 offset none =
    let h = valid_hint hint in
    let h2 = valid_hint hint2 in
    listed h
    ++ listed h2
    ++ (from_offset h h2 offset (env.preferred_regs_by_class class)
        ++ from_offset h h2 offset (env.non_preferred_regs_by_class class))

module _ (env : MachineEnv) (class : RegClass) (offset : ℕ) where
  abbrev started : Option PReg → Option PReg → ℕ → RegTraversalIter
  started h h2 idx = record {
    class = class;
    hint = h;
    hint2 = h2;
    hint_idx = idx;
    pref_idx = 0;
    non_pref_idx = 0;
    offset_pref = start_at offset (env.preferred_regs_by_class class);
    offset_non_pref = start_at offset (env.non_preferred_regs_by_class class);
    is_fixed = false;
    fixed = none;
  }

  abbrev unhinted : Option PReg → Option PReg → List PReg
  unhinted h h2 =
      from_offset h h2 offset (env.preferred_regs_by_class class)
      ++ from_offset h h2 offset (env.non_preferred_regs_by_class class)

  started-Yields :
      (h h2 : Option PReg) (idx : ℕ)
      → current_hint env (started h h2 idx) ≡ none
      → Yields env (started h h2 idx) (unhinted h h2)
  started-Yields h h2 idx no_hint =
      preferred-Yields env (from_offset h h2 offset (env.preferred_regs_by_class class))
        (started h h2 idx)
        (rotate (start_at offset (env.preferred_regs_by_class class))
          (env.preferred_regs_by_class class))
        offset refl refl no_hint refl refl (whole-IsRest offset (env.preferred_regs_by_class class))

  hints-Yields :
      (o o2 : Option PReg)
      → Yields env
          (started (if is_some_reg o then o else o2) (if is_some_reg o then o2 else none) 0)
          (listed o ++ listed o2 ++ unhinted o o2)
  unfolding next
  hints-Yields none none = started-Yields none none 0 refl
  hints-Yields none (some b) = (
    started (some b) none 1,
    refl,
    subst (Yields env (started (some b) none 1)) swapped (started-Yields (some b) none 1 refl),
  )
    where
      swapped : unhinted (some b) none ≡ unhinted none (some b)
      swapped =
          rw
            (
              without_swap (some b) (
                  rotate (start_at offset (env.preferred_regs_by_class class))
                    (env.preferred_regs_by_class class)),
              without_swap (some b) (
                  rotate (start_at offset (env.non_preferred_regs_by_class class))
                    (env.non_preferred_regs_by_class class)),
            )
            refl
  hints-Yields (some a) none = (started (some a) none 1, refl, started-Yields (some a) none 1 refl)
  hints-Yields (some a) (some b) = (
    started (some a) (some b) 1,
    refl,
    (started (some a) (some b) 2, refl, started-Yields (some a) (some b) 2 refl),
  )

-- A traversal yields the fixed register alone, where one is given. Otherwise it yields the hints that
-- are valid, then the preferred registers of the class from the offset on and round, and then the
-- other ones so, both without the hints, and ends.
pub new-Yields :
    (env : MachineEnv) (class : RegClass) (hint hint2 : PReg) (offset : ℕ) (fixed : Option PReg)
    → Yields env (new env class hint hint2 offset fixed) (order env class hint hint2 offset fixed)
unfolding new next
new-Yields env class hint hint2 offset (some preg) = (_, refl, (_, refl))
new-Yields env class hint hint2 offset none =
    hints-Yields env class offset (valid_hint hint) (valid_hint hint2)
