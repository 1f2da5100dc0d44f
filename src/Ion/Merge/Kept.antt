-- ===== src/Ion/Merge/Kept.antt =====
-- What a merge of bundles does to the state.
use regalloc.Prelude.{
  ℕ, ◌<◌, ◌≡◌, ◌≢◌, ◌↔◌, ◌⊎◌, inl, inr, refl, sym, ap, ◌∙◌, subst, some, [], ◌∷◌, ◌++◌, Bool, true,
  false, ==_iff, ==_ne, length, get_elem?, set, All, All-append, In, In-append_left,
  In-append_right, In-append_cases, get_of_lt, lt_of_get, get_elem?-set_self, get_elem?-set_ne,
  some_inj, ℕ_discrete, Bool-cases,
}
use regalloc.Index.{Index}
use regalloc.Ion.Ranges.{LiveRangeListEntry}
use regalloc.Ion.Bundle.{LiveBundle}
use regalloc.Ion.Merge.{
  MergeEnv, LiveRangeList, max_range_count, no_overlap, sort_entries, commit, commit_lists,
  merge_bundles,
}
use regalloc.Ion.Merge.Clear.{IsChain, sort_entries-append, sort_entries-All, sort_entries-In}
use regalloc.Ion.Merge.Links.{Linked, EitherLinked, set_bundles-Linked}
use regalloc.Ion.Merge.Rewritten.{merge_flags-word, widen_lem, emptied, still, rewritten}
use regalloc.Ion.Merge.Fits.{IsWell, can_merge_lem}

-- The entries of the target are those of both.
abbrev pub IsMerged : MergeEnv → MergeEnv → Index → Index → Type 0
IsMerged env env' from_index to_index =
    (from to : LiveBundle)
    → get_elem? env.bundles from_index.raw ≡ some from
    → get_elem? env.bundles to_index.raw ≡ some to
    → (to' : LiveBundle) × (get_elem? env'.bundles to_index.raw ≡ some to')
      × ((e : LiveRangeListEntry) → In e to'.ranges ↔ (In e to.ranges ⊎ In e from.ranges))

module _ (is_stack_preg : ℕ → Bool) (env : MergeEnv) (well : IsWell is_stack_preg env)
    (from_index to_index : Index) (differ : from_index.raw ≢ to_index.raw) (from to : LiveBundle)
    (at_from : get_elem? env.bundles from_index.raw ≡ some from)
    (at_to : get_elem? env.bundles to_index.raw ≡ some to) where
  abbrev Committed : LiveRangeList → LiveRangeList → Type 0
  Committed fs ts =
      (env' : MergeEnv) × (commit_lists env from_index to_index from to fs ts ≡ some env')
      × IsWell is_stack_preg env'
      × (to' : LiveBundle) × (get_elem? env'.bundles to_index.raw ≡ some to')
      × ((e : LiveRangeListEntry) → In e to'.ranges ↔ (In e to.ranges ⊎ In e from.ranges))

  new_here :
      (to' : LiveBundle)
      → get_elem?
          (set
            (set env.bundles from_index.raw
              (emptied is_stack_preg env well from_index to_index differ from to at_from at_to))
            to_index.raw
            to')
          to_index.raw
        ≡ some to'
  new_here to' =
      get_elem?-set_self
        (set env.bundles from_index.raw
          (emptied is_stack_preg env well from_index to_index differ from to at_from at_to))
        to_index.raw to'
        (lt_of_get
          (set env.bundles from_index.raw
            (emptied is_stack_preg env well from_index to_index differ from to at_from at_to))
          to_index.raw to
          (get_elem?-set_ne env.bundles from_index.raw to_index.raw
              (emptied is_stack_preg env well from_index to_index differ from to at_from at_to)
              differ
            ∙ at_to))

  to_either :
      (es : LiveRangeList)
      → All (Linked env.ranges from_index.raw) es
      → All (EitherLinked from_index.raw to_index env.ranges) es
  to_either [] h = tt
  to_either (e ∷ es) h = (inl h.0, to_either es h.1)

  commit_by :
      (fs ts : LiveRangeList)
      → from.ranges ≡ fs
      → to.ranges ≡ ts
      → no_overlap max_range_count from to fs ts ≡ true
      → Committed fs ts
  unfolding commit_lists
  commit_by [] ts q q' clear = (
    env,
    refl,
    well,
    to,
    at_to,
    λ e. ((λ h. inl h), λ h. elim h [ inl l ↦ l | inr r ↦ absurd (subst (In e) q r) ]),
  )
  commit_by (f ∷ fs) [] q q' clear =
      let is_from = well.every from_index.raw from at_from in
      let linked = subst (All (Linked env.ranges from_index.raw)) q is_from.linked in
      let (ranges', run, rel, len, linked') =
        set_bundles-Linked from_index.raw to_index (f ∷ fs) env.ranges
          (to_either (f ∷ fs) linked) in
      let (w, word) = merge_flags-word from (record to { ranges = f ∷ fs }) in
      (
        record env {
          ranges = ranges';
          bundles =
              set
                (set env.bundles from_index.raw
                  (emptied is_stack_preg env well from_index to_index differ from to at_from at_to))
                to_index.raw (record to { ranges = f ∷ fs; spill_weight_and_props = w });
        },
        rw (run, word) refl,
        rewritten is_stack_preg env well from_index to_index differ from to at_from at_to ranges'
            env.spillsets (f ∷ fs) w rel len refl (subst IsChain q is_from.chain) linked',
        record to { ranges = f ∷ fs; spill_weight_and_props = w },
        new_here (record to { ranges = f ∷ fs; spill_weight_and_props = w }),
        λ e. (
          (λ h. inr (subst (In e) (sym q) h)),
          λ h. elim h [ inl l ↦ absurd (subst (In e) q' l) | inr r ↦ subst (In e) q r ],
        ),
      )
  commit_by (f ∷ fs) (t ∷ ts) q q' clear =
      let is_from = well.every from_index.raw from at_from in
      let is_to = well.every to_index.raw to at_to in
      let (ranges', run, rel, len, linked') =
        set_bundles-Linked from_index.raw to_index (f ∷ fs) env.ranges
          (to_either (f ∷ fs) (subst (All (Linked env.ranges from_index.raw)) q is_from.linked)) in
      let (spillsets', wide, len') =
        widen_lem from.spillset to.spillset env.spillsets is_from.has_spillset is_to.has_spillset in
      let list = sort_entries ((t ∷ ts) ++ f ∷ fs) in
      let (w, word) = merge_flags-word from (record to { ranges = list }) in
      (
        record env {
          ranges = ranges';
          spillsets = spillsets';
          bundles =
              set
                (set env.bundles from_index.raw
                  (emptied is_stack_preg env well from_index to_index differ from to at_from at_to))
                to_index.raw (record to { ranges = list; spill_weight_and_props = w });
        },
        rw (run, wide, word) refl,
        rewritten is_stack_preg env well from_index to_index differ from to at_from at_to ranges'
            spillsets' list w rel len len'
            (sort_entries-append max_range_count from to (f ∷ fs) (t ∷ ts)
              (subst IsChain q is_from.chain) (subst IsChain q' is_to.chain) clear)
            (sort_entries-All (Linked ranges' to_index.raw) ((t ∷ ts) ++ f ∷ fs) (
              All-append (Linked ranges' to_index.raw) (t ∷ ts) (f ∷ fs)
                (still is_stack_preg env well from_index to_index differ from to at_from at_to
                  ranges' rel to_index.raw (λ p. differ (sym p)) (t ∷ ts)
                  (subst (All (Linked env.ranges to_index.raw)) q' is_to.linked))
                linked')),
        record to { ranges = list; spill_weight_and_props = w },
        new_here (record to { ranges = list; spill_weight_and_props = w }),
        members list (λ e. sort_entries-In e ((t ∷ ts) ++ f ∷ fs)),
      )
    where
      members :
          (list : LiveRangeList)
          → ((e : LiveRangeListEntry) → In e list ↔ In e ((t ∷ ts) ++ f ∷ fs))
          → (e : LiveRangeListEntry) → In e list ↔ (In e to.ranges ⊎ In e from.ranges)
      members list same e = (
        (λ h. elim (In-append_cases e (t ∷ ts) (f ∷ fs) ((same e).0 h)) [
          | inl l ↦ inl (subst (In e) (sym q') l)
          | inr r ↦ inr (subst (In e) (sym q) r)
        ]),
        λ h. elim h [
          | inl l ↦ (same e).1 (In-append_left e (t ∷ ts) (f ∷ fs) (subst (In e) q' l))
          | inr r ↦ (same e).1 (In-append_right e (t ∷ ts) (f ∷ fs) (subst (In e) q r))
        ],
      )

-- On a state in order, a merge of two bundles returns. It either refuses and changes nothing, or
-- leaves a state in order, in which the target has the entries of both bundles and no others.
pub merge_bundles-IsWell :
    (is_stack_preg : ℕ → Bool) (from_index to_index : Index) (env : MergeEnv)
    → IsWell is_stack_preg env
    → from_index.raw < length env.bundles
    → to_index.raw < length env.bundles
    → (merge_bundles is_stack_preg from_index to_index env ≡ some (env, false))
      ⊎ ((env' : MergeEnv) × (merge_bundles is_stack_preg from_index to_index env
            ≡ some (env', true))
          × IsWell is_stack_preg env'
          × IsMerged env env' from_index to_index)
unfolding merge_bundles commit
merge_bundles-IsWell is_stack_preg from_index to_index env well h k =
    elim (ℕ_discrete from_index.raw to_index.raw) [
      | yes same ↦ inr (
        env,
        rw ((==_iff from_index.raw to_index.raw).1 same) refl,
        well,
        λ from to g g'.
            let q = some_inj from to (sym g ∙ ap (get_elem? env.bundles) same ∙ g') in
            (
              to,
              g',
              λ e. (
                (λ m. inl m),
                λ m. elim m [ inl l ↦ l | inr r ↦ subst (λ z. In e (LiveBundle.ranges z)) q r ],
              ),
            ),
      )
      | no differ ↦
          let (from, at_from) = get_of_lt env.bundles from_index.raw h in
          let (to, at_to) = get_of_lt env.bundles to_index.raw k in
          let (b, fits, clear) =
            can_merge_lem is_stack_preg env well from_index.raw to_index.raw from to
              (well.every from_index.raw from at_from) (well.every to_index.raw to at_to) in
          elim (Bool-cases b) [
            | inr n ↦
                inl (simp (==_ne from_index.raw to_index.raw differ, at_from, at_to, fits, n) refl)
            | inl y ↦
                let (env', run, well', to', at_to', members) =
                  commit_by is_stack_preg env well from_index to_index differ from to at_from at_to
                    from.ranges to.ranges refl refl (clear y) in
                inr (
                  env',
                  simp (==_ne from_index.raw to_index.raw differ, at_from, at_to, fits, y, run)
                      refl,
                  well',
                  λ f t g g'. (
                    to',
                    at_to',
                    λ e.
                        subst (λ z. In e to'.ranges ↔ (In e t.ranges ⊎ In e (LiveBundle.ranges z)))
                          (some_inj from f (sym at_from ∙ g))
                          (subst
                            (λ z. In e to'.ranges ↔ (In e (LiveBundle.ranges z) ⊎ In e from.ranges))
                            (some_inj to t (sym at_to ∙ g')) (members e)),
                  ),
                )
          ]
    ]
