-- ===== src/Ion/Merge.antt =====
-- Merging of bundles (src/ion/merge.rs). `none` is a panic: an index out of range or an operand whose
-- constraint cannot be read. The sanity check of a debug build and annotations are left out.
pub mod Clear
pub mod Links
pub mod Fits
pub mod Rewritten
pub mod Kept
use regalloc.Prelude.{
  ℕ, zero, suc, ◌+◌, ◌*◌, ◌%◌, ◌^◌, Option, none, some, ◌>>=◌, List, [], ◌∷◌, ◌++◌, Bool, true,
  false, ◌&&◌, ◌||◌, leb, ◌==◌, length, get_elem?, set, if◌then◌else◌,
}
use regalloc.Reg.{RegClass, class_code}
use regalloc.Reg.PReg
use regalloc.Reg.VReg
use regalloc.Reg.VReg.{VReg}
use regalloc.Operand
use regalloc.Operand.{Operand, OperandConstraint, fixed_reg, reuse}
use regalloc.Allocation.{is_some, no_alloc}
use regalloc.Index
use regalloc.Index.{Index}
use regalloc.ProgPoint
use regalloc.ProgPoint.{ProgPoint}
use regalloc.Function.{Function}
use regalloc.Ion.Requirement.{Use, Requirement, merge_bundle_requirements}
use regalloc.Ion.Ranges
use regalloc.Ion.Ranges.{CodeRange, LiveRange, LiveRangeListEntry, BlockparamOut}
use regalloc.Ion.Spill.{SpillSet}
use regalloc.Ion.Bundle.{
  LiveBundle, cached_fixed_def, cached_fixed, cached_stack, set_cached_fixed, set_cached_fixed_def,
  set_cached_stack,
}

abbrev pub LiveRangeList : Type 0
LiveRangeList = List LiveRangeListEntry

pub record VRegData : Type 0 where
  pub ranges : LiveRangeList
  pub blockparam : Index
  pub class : Option RegClass

-- The part of the allocator's state that merging reads and changes.
pub record MergeEnv : Type 0 where
  pub ranges : List LiveRange
  pub bundles : List LiveBundle
  pub spillsets : List SpillSet
  pub vregs : List VRegData
  pub blockparam_outs : List BlockparamOut

abbrev pub max_range_count : ℕ
max_range_count = 200

unfoldable pub adjust_range_start : LiveBundle → CodeRange → ProgPoint
unfolding cached_fixed_def ProgPoint.before ProgPoint.inst
adjust_range_start b range =
    if cached_fixed_def b then ProgPoint.before (ProgPoint.inst range.from) else range.from

-- The loop over both lists, with what is left of the limit; whether it ends without overlap.
unfoldable pub no_overlap : ℕ → LiveBundle → LiveBundle → LiveRangeList → LiveRangeList → Bool
unfolding adjust_range_start
no_overlap left from to [] ts = true
no_overlap left from to (f ∷ fs) [] = true
no_overlap zero from to (f ∷ fs) (t ∷ ts) = false
no_overlap (suc left) from to (f ∷ fs) (t ∷ ts) =
    elim (leb t.range.to.bits (adjust_range_start from f.range).bits) [
      | true ↦ no_overlap left from to (f ∷ fs) ts
      | false ↦ elim (leb f.range.to.bits (adjust_range_start to t.range).bits) [
        | true ↦ no_overlap left from to fs (t ∷ ts)
        | false ↦ false
      ]
    ]

-- `sort_unstable_by_key` by the start of the range; ranges that do not overlap have different starts.
unfoldable pub insert_entry : LiveRangeListEntry → LiveRangeList → LiveRangeList
insert_entry e [] = e ∷ []
insert_entry e (x ∷ xs) =
    let later = insert_entry e xs in
    if leb e.range.from.bits x.range.from.bits then e ∷ x ∷ xs else x ∷ later

unfoldable pub sort_entries : LiveRangeList → LiveRangeList
unfolding insert_entry
sort_entries [] = []
sort_entries (e ∷ es) = insert_entry e (sort_entries es)

-- The up-link of every range of a list.
unfoldable pub set_bundles : Index → LiveRangeList → List LiveRange → Option (List LiveRange)
set_bundles to [] ranges = some ranges
set_bundles to (e ∷ es) ranges = get_elem? ranges e.index.raw >>= λ r.
    set_bundles to es (set ranges e.index.raw (record r { bundle = to }))

-- The uses of the ranges of a bundle.
unfoldable pub bundle_uses : List LiveRange → LiveRangeList → Option (List (List Use))
bundle_uses ranges [] = some []
bundle_uses ranges (e ∷ es) =
    get_elem? ranges e.index.raw >>= λ r. bundle_uses ranges es >>= λ rest. some (r.uses ∷ rest)

unfoldable pub merge_flags : LiveBundle → LiveBundle → LiveBundle
unfolding cached_stack cached_fixed cached_fixed_def set_cached_stack set_cached_fixed
    set_cached_fixed_def
merge_flags from to =
    let to1 = if cached_stack from then set_cached_stack to else to in
    let to2 = if cached_fixed from then set_cached_fixed to1 else to1 in
    if cached_fixed_def from then set_cached_fixed_def to2 else to2

-- The range of the target's spill set is widened where the spill sets differ.
unfoldable pub widen : Index → Index → List SpillSet → Option (List SpillSet)
unfolding Ranges.join
widen from to spillsets =
    if from.raw == to.raw
    then some spillsets
    else (get_elem? spillsets from.raw >>= λ a. get_elem? spillsets to.raw >>= λ b.
        some (set spillsets to.raw (record b { range = Ranges.join b.range a.range })))

-- What the merge of two different bundles with these lists writes.
unfoldable pub commit_lists :
    MergeEnv
    → Index
    → Index
    → LiveBundle
    → LiveBundle
    → LiveRangeList
    → LiveRangeList
    → Option MergeEnv
unfolding set_bundles sort_entries merge_flags widen
commit_lists env from_index to_index from to [] ts = some env
commit_lists env from_index to_index from to (e ∷ es) [] =
    set_bundles to_index (e ∷ es) env.ranges >>= λ ranges. some (record env {
      ranges = ranges;
      bundles =
          set (set env.bundles from_index.raw (record from { ranges = [] })) to_index.raw
            (merge_flags from (record to { ranges = e ∷ es }));
    })
commit_lists env from_index to_index from to (e ∷ es) (t ∷ ts) =
    set_bundles to_index (e ∷ es) env.ranges >>= λ ranges.
    widen from.spillset to.spillset env.spillsets >>= λ spillsets. some (record env {
      ranges = ranges;
      spillsets = spillsets;
      bundles =
          set (set env.bundles from_index.raw (record from { ranges = [] })) to_index.raw
            (merge_flags from (record to { ranges = sort_entries ((t ∷ ts) ++ e ∷ es) }));
    })

unfoldable pub commit : MergeEnv → Index → Index → LiveBundle → LiveBundle → Option MergeEnv
unfolding commit_lists
commit env from_index to_index from to =
    commit_lists env from_index to_index from to from.ranges to.ranges

-- `is_stack_preg` is `self.pregs[..].is_stack`.
module _ (is_stack_preg : ℕ → Bool) where
  -- The tests of two different bundles, before anything is changed.
  unfoldable pub requirements_fit : MergeEnv → LiveBundle → LiveBundle → Option Bool
  unfolding cached_stack cached_fixed bundle_uses merge_bundle_requirements
  requirements_fit env from to =
      if cached_stack from || cached_fixed from || cached_stack to || cached_fixed to
      then (bundle_uses env.ranges from.ranges >>= λ a. bundle_uses env.ranges to.ranges >>= λ b.
          merge_bundle_requirements is_stack_preg a b >>= λ r. elim r [
            | some req ↦ some true
            | none ↦ some false
          ])
      else some true

  unfoldable pub can_merge : MergeEnv → LiveBundle → LiveBundle → Option Bool
  unfolding is_some no_overlap requirements_fit
  can_merge env from to = get_elem? env.spillsets from.spillset.raw >>= λ from_set.
      get_elem? env.spillsets to.spillset.raw >>= λ to_set.
      if class_code from_set.class == class_code to_set.class
      then (is_some from.allocation >>= λ from_assigned.
          (if from_assigned then some true else is_some to.allocation) >>= λ assigned.
          if assigned
          then some false
          else if no_overlap max_range_count from to from.ranges to.ranges
          then requirements_fit env from to
          else some false)
      else some false

  unfoldable pub merge_bundles : Index → Index → MergeEnv → Option (MergeEnv × Bool)
  unfolding can_merge commit
  merge_bundles from_index to_index env =
      if from_index.raw == to_index.raw
      then some (env, true)
      else (get_elem? env.bundles from_index.raw >>= λ from.
          get_elem? env.bundles to_index.raw >>= λ to. can_merge env from to >>= λ fits.
          if fits
          then (commit env from_index to_index from to >>= λ env'. some (env', true))
          else some (env, false))
