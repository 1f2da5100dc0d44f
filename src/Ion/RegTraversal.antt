-- ===== src/Ion/RegTraversal.antt =====
-- The order in which registers are tried (src/ion/reg_traversal.rs). `none` is an index out of range.
pub mod Order
pub mod Loops
pub mod Whole
use regalloc.Prelude.{
  ℕ, zero, suc, ◌+◌, ◌-◌, ◌%◌, Option, none, some, ◌>>=◌, List, [], ◌∷◌, Bool, true, false, ◌||◌,
  leb, ltb, ◌==◌, length, get_elem?, if◌then◌else◌,
}
use regalloc.Reg.{RegClass}
use regalloc.Reg.PReg
use regalloc.Reg.PReg.{PReg, preg_eq}

-- What the traversal reads of `MachineEnv`: two arrays that a class indexes.
pub record MachineEnv : Type 0 where
  pub preferred_regs_by_class : RegClass → List PReg
  pub non_preferred_regs_by_class : RegClass → List PReg

pub record RegTraversalIter : Type 0 where
  pub class : RegClass
  pub hint : Option PReg
  pub hint2 : Option PReg
  pub hint_idx : ℕ
  pub pref_idx : ℕ
  pub non_pref_idx : ℕ
  pub offset_pref : ℕ
  pub offset_non_pref : ℕ
  pub is_fixed : Bool
  pub fixed : Option PReg

abbrev pub is_some_reg : Option PReg → Bool
is_some_reg none = false
is_some_reg (some r) = true

-- `Some(r) == hint`
abbrev pub is_hint : PReg → Option PReg → Bool
is_hint r none = false
is_hint r (some h) = preg_eq r h

abbrev pub valid_hint : PReg → Option PReg
valid_hint r = if preg_eq r PReg.invalid then none else some r

abbrev pub start_at : ℕ → List PReg → ℕ
start_at offset regs = if ltb 0 (length regs) then offset % length regs else 0

unfoldable pub wrap : ℕ → ℕ → ℕ
wrap idx limit = if leb limit idx then idx - limit else idx

-- One of the two loops, with the registers left to try: the next register that is no hint, and the
-- index behind it.
unfoldable pub next_of :
    ℕ → List PReg → ℕ → ℕ → Option PReg → Option PReg → Option (Option PReg × ℕ)
unfolding wrap
next_of zero regs offset idx hint hint2 = some (none, idx)
next_of (suc left) regs offset idx hint hint2 =
    get_elem? regs (wrap (idx + offset) (length regs)) >>= λ r.
    elim (is_hint r hint || is_hint r hint2) [
      | true ↦ next_of left regs offset (suc idx) hint hint2
      | false ↦ some (some r, suc idx)
    ]

module _ (env : MachineEnv) where
  unfoldable pub new : RegClass → PReg → PReg → ℕ → Option PReg → RegTraversalIter
  new class hint_reg hint2_reg offset fixed =
      let h = valid_hint hint_reg in
      let h2 = valid_hint hint2_reg in
      record {
        class = class;
        hint = if is_some_reg h then h else h2;
        hint2 = if is_some_reg h then h2 else none;
        hint_idx = 0;
        pref_idx = 0;
        non_pref_idx = 0;
        offset_pref = start_at offset (env.preferred_regs_by_class class);
        offset_non_pref = start_at offset (env.non_preferred_regs_by_class class);
        is_fixed = is_some_reg fixed;
        fixed = fixed;
      }

  -- `hints[hint_idx]`, which is read for an index below 2 only.
  abbrev pub current_hint : RegTraversalIter → Option PReg
  current_hint it =
      if it.hint_idx == 0 then it.hint else if it.hint_idx == 1 then it.hint2 else none

  unfoldable pub next_non_preferred : RegTraversalIter → Option (Option PReg × RegTraversalIter)
  unfolding next_of
  next_non_preferred it =
      let regs = env.non_preferred_regs_by_class it.class in
      next_of (length regs - it.non_pref_idx) regs it.offset_non_pref it.non_pref_idx it.hint
        it.hint2
      >>= λ r. some (r.0, record it { non_pref_idx = r.1 })

  unfoldable pub next_preferred : RegTraversalIter → Option (Option PReg × RegTraversalIter)
  unfolding next_of next_non_preferred
  next_preferred it =
      let regs = env.preferred_regs_by_class it.class in
      next_of (length regs - it.pref_idx) regs it.offset_pref it.pref_idx it.hint it.hint2 >>= λ r.
      elim r.0 [
        | none ↦ next_non_preferred (record it { pref_idx = r.1 })
        | some preg ↦ some (some preg, record it { pref_idx = r.1 })
      ]

  unfoldable pub next : RegTraversalIter → Option (Option PReg × RegTraversalIter)
  unfolding next_preferred
  next it =
      if it.is_fixed then some (it.fixed, record it { fixed = none }) else elim (current_hint it) [
        | some h ↦ some (some h, record it { hint_idx = it.hint_idx + 1 })
        | none ↦ next_preferred it
      ]
