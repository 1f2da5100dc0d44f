-- ===== src/Ion/Merge/Fits.antt =====
-- The state that merging keeps in order, and the tests that come before a merge.
use regalloc.Prelude.{
  ℕ, ◌<◌, ◌≡◌, inl, inr, refl, some, List, [], ◌∷◌, Bool, true, false, ◌||◌, ◌==◌, length,
  get_elem?, All, All-append, get_of_lt, Bool-cases, Option-cases,
}
use regalloc.Reg.{class_code}
use regalloc.Allocation.{is_some}
use regalloc.Ion.Requirement.{Use, uses_of}
use regalloc.Ion.Requirement.Places.{IsReadable, merge_bundle_requirements-Meets}
use regalloc.Ion.Ranges.{LiveRange}
use regalloc.Ion.Bundle.{LiveBundle, cached_stack, cached_fixed}
use regalloc.Ion.Merge.{
  MergeEnv, LiveRangeList, max_range_count, no_overlap, bundle_uses, requirements_fit, can_merge,
}
use regalloc.Ion.Merge.Clear.{IsChain}
use regalloc.Ion.Merge.Links.{Linked}

-- A bundle's ranges are in order, do not overlap and name it, and its spill set exists.
pub record IsBundle (env : MergeEnv) (j : ℕ) (b : LiveBundle) : Type 0 where
  pub chain : IsChain b.ranges
  pub linked : All (Linked env.ranges j) b.ranges
  pub has_spillset : b.spillset.raw < length env.spillsets
  pub assigned : (x : Bool) × (is_some b.allocation ≡ some x)

pub record IsWell (is_stack_preg : ℕ → Bool) (env : MergeEnv) : Type 0 where
  pub every : (j : ℕ) (b : LiveBundle) → get_elem? env.bundles j ≡ some b → IsBundle env j b
  pub readable :
      (i : ℕ) (r : LiveRange)
      → get_elem? env.ranges i ≡ some r
      → All (IsReadable is_stack_preg) r.uses

module _ (is_stack_preg : ℕ → Bool) (env : MergeEnv) (well : IsWell is_stack_preg env) where
  bundle_uses_lem :
      (j : ℕ) (es : LiveRangeList)
      → All (Linked env.ranges j) es
      → (us : List (List Use)) × (bundle_uses env.ranges es ≡ some us)
        × All (IsReadable is_stack_preg) (uses_of is_stack_preg us)
  unfolding bundle_uses uses_of
  bundle_uses_lem j [] h = ([], refl, tt)
  bundle_uses_lem j (e ∷ es) h =
      let (r, g, at_j) = h.0 in
      let (us, run, ok) = bundle_uses_lem j es h.1 in
      (
        r.uses ∷ us,
        rw (g, run) refl,
        All-append (IsReadable is_stack_preg) r.uses (uses_of is_stack_preg us)
            (well.readable e.index.raw r g) ok,
      )

  module _ (i j : ℕ) (from to : LiveBundle) (is_from : IsBundle env i from)
      (is_to : IsBundle env j to) where
    requirements_fit_lem : (b : Bool) × (requirements_fit is_stack_preg env from to ≡ some b)
    unfolding requirements_fit
    requirements_fit_lem =
        elim (Bool-cases
          (cached_stack from || cached_fixed from || cached_stack to || cached_fixed to)) [
            | inl y ↦
                let (a, run_a, ok_a) = bundle_uses_lem i from.ranges is_from.linked in
                let (b, run_b, ok_b) = bundle_uses_lem j to.ranges is_to.linked in
                let (o, run, meets) = merge_bundle_requirements-Meets is_stack_preg a b ok_a ok_b in
                elim (Option-cases o) [
                  | inl n ↦ (false, rw (y, run_a, run_b, run, n) refl)
                  | inr (req, q) ↦ (true, rw (y, run_a, run_b, run, q) refl)
                ]
            | inr n ↦ (true, rw n refl)
          ]

    -- The tests of a merge return, and pass only if the scan does.
    pub can_merge_lem :
        (b : Bool) × (can_merge is_stack_preg env from to ≡ some b)
        × (b ≡ true → no_overlap max_range_count from to from.ranges to.ranges ≡ true)
    unfolding can_merge
    can_merge_lem =
        let (a, at_a) = get_of_lt env.spillsets from.spillset.raw is_from.has_spillset in
        let (c, at_c) = get_of_lt env.spillsets to.spillset.raw is_to.has_spillset in
        let (x, is_x) = is_from.assigned in
        let (y, is_y) = is_to.assigned in
        elim (Bool-cases (class_code a.class == class_code c.class)) [
          | inr n ↦ (false, rw (at_a, at_c, n) refl, λ h. cc h)
          | inl same ↦ elim (Bool-cases x) [
            | inl q ↦ (false, simp (at_a, at_c, same, is_x, q) refl, λ h. cc h)
            | inr q ↦ elim (Bool-cases y) [
              | inl q' ↦ (false, simp (at_a, at_c, same, is_x, q, is_y, q') refl, λ h. cc h)
              | inr q' ↦
                  elim (Bool-cases (no_overlap max_range_count from to from.ranges to.ranges)) [
                    | inr n ↦ (false, simp (at_a, at_c, same, is_x, q, is_y, q', n) refl, λ h. cc h)
                    | inl clear ↦
                        let (b, run) = requirements_fit_lem in
                        (b, simp (at_a, at_c, same, is_x, q, is_y, q', clear) run, λ h. clear)
                  ]
            ]
          ]
        ]
