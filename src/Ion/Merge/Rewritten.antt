-- ===== src/Ion/Merge/Rewritten.antt =====
-- The state with a new list and new links for one bundle.
use regalloc.Prelude.{
  ℕ, ◌<◌, ◌≡◌, ◌≢◌, inl, inr, refl, sym, ap, ◌∙◌, subst, some, List, [], ◌∷◌, Bool, true, false,
  ◌==◌, length, get_elem?, set, All, length-set, get_of_lt, lt_of_get, get_elem?-set_self,
  get_elem?-set_ne, some_inj, ℕ_discrete, Bool-cases, if◌then◌else◌,
}
use regalloc.Index.{Index}
use regalloc.Ion.Ranges.{LiveRange, join}
use regalloc.Ion.Spill.{SpillSet}
use regalloc.Ion.Bundle.{
  LiveBundle, cached_fixed_def, cached_fixed, cached_stack, set_cached_fixed, set_cached_fixed_def,
  set_cached_stack,
}
use regalloc.Ion.Requirement.Places.{IsReadable}
use regalloc.Ion.Merge.{MergeEnv, LiveRangeList, merge_flags, widen}
use regalloc.Ion.Merge.Clear.{IsChain}
use regalloc.Ion.Merge.Links.{Linked, Relinked, AllRelinked, Linked-Relinked}
use regalloc.Ion.Merge.Fits.{IsBundle, IsWell}

-- Flags are all that `merge_flags` changes.
pub merge_flags-word :
    (from to : LiveBundle)
    → (w : ℕ) × (merge_flags from to ≡ record to { spill_weight_and_props = w })
unfolding merge_flags set_cached_stack set_cached_fixed set_cached_fixed_def
merge_flags-word from to = by_flags (cached_stack from) (cached_fixed from) (cached_fixed_def from)
  where
    by_flags :
        (s f d : Bool)
        → (w : ℕ) × ((let to1 = if s then set_cached_stack to else to in
              let to2 = if f then set_cached_fixed to1 else to1 in
              if d then set_cached_fixed_def to2 else to2)
            ≡ record to { spill_weight_and_props = w })
    by_flags true true true = (_, refl)
    by_flags true true false = (_, refl)
    by_flags true false true = (_, refl)
    by_flags true false false = (_, refl)
    by_flags false true true = (_, refl)
    by_flags false true false = (_, refl)
    by_flags false false true = (_, refl)
    by_flags false false false = (_, refl)

pub widen_lem :
    (from to : Index) (spillsets : List SpillSet)
    → from.raw < length spillsets
    → to.raw < length spillsets
    → (spillsets' : List SpillSet) × (widen from to spillsets ≡ some spillsets')
      × (length spillsets' ≡ length spillsets)
unfolding widen
widen_lem from to spillsets h k = elim (Bool-cases (from.raw == to.raw)) [
  | inl y ↦ (spillsets, rw y refl, refl)
  | inr n ↦
      let (a, g) = get_of_lt spillsets from.raw h in
      let (b, g') = get_of_lt spillsets to.raw k in
      (
        set spillsets to.raw (record b { range = join b.range a.range }),
        rw (n, g, g') refl,
        length-set spillsets to.raw _,
      )
]

module _ (is_stack_preg : ℕ → Bool) (env : MergeEnv) (well : IsWell is_stack_preg env)
    (from_index to_index : Index) (differ : from_index.raw ≢ to_index.raw) (from to : LiveBundle)
    (at_from : get_elem? env.bundles from_index.raw ≡ some from)
    (at_to : get_elem? env.bundles to_index.raw ≡ some to) where
  abbrev pub emptied : LiveBundle
  emptied = record from { ranges = [] }

  pub still :
      (ranges' : List LiveRange)
      → AllRelinked from_index.raw to_index env.ranges ranges'
      → (j : ℕ) → j ≢ from_index.raw
      → (es : LiveRangeList) → All (Linked env.ranges j) es
      → All (Linked ranges' j) es
  still ranges' rel j ne [] h = tt
  still ranges' rel j ne (e ∷ es) h = (
    Linked-Relinked from_index.raw to_index env.ranges ranges' rel j e h.0 ne,
    still ranges' rel j ne es h.1,
  )

  -- The state with new lists and links.
  pub rewritten :
      (ranges' : List LiveRange) (spillsets' : List SpillSet) (list : LiveRangeList) (w : ℕ)
      → AllRelinked from_index.raw to_index env.ranges ranges'
      → length ranges' ≡ length env.ranges
      → length spillsets' ≡ length env.spillsets
      → IsChain list
      → All (Linked ranges' to_index.raw) list
      → IsWell is_stack_preg (record env {
        ranges = ranges';
        spillsets = spillsets';
        bundles =
            set
              (set env.bundles from_index.raw emptied)
              to_index.raw
              (record to { ranges = list; spill_weight_and_props = w });
      })
  rewritten ranges' spillsets' list w rel len len' chain linked = record {
    every = λ j b e. elim (ℕ_discrete to_index.raw j) [
      | yes q ↦
          let is_to = well.every to_index.raw to at_to in
          let same = some_inj to' b (sym here ∙ ap (get_elem? bundles') q ∙ e) in
          subst (IsBundle env' j) same (record {
            chain = chain;
            linked = subst (λ z. All (Linked ranges' z) list) q linked;
            has_spillset = subst (λ z. to.spillset.raw < z) (sym len') is_to.has_spillset;
            assigned = is_to.assigned;
          })
      | no ne ↦
          let e' = sym (get_elem?-set_ne bundles1 to_index.raw j to' ne) ∙ e in
          elim (ℕ_discrete from_index.raw j) [
            | yes q ↦
                let is_from = well.every from_index.raw from at_from in
                let same = some_inj emptied b (sym gone ∙ ap (get_elem? bundles1) q ∙ e') in
                subst (IsBundle env' j) same (record {
                  chain = tt;
                  linked = tt;
                  has_spillset = subst (λ z. from.spillset.raw < z) (sym len') is_from.has_spillset;
                  assigned = is_from.assigned;
                })
            | no ne' ↦
                let old =
                  well.every j b
                    (sym (get_elem?-set_ne env.bundles from_index.raw j emptied ne') ∙ e') in
                record {
                  chain = old.chain;
                  linked = still ranges' rel j (λ q. ne' (sym q)) b.ranges old.linked;
                  has_spillset = subst (λ z. b.spillset.raw < z) (sym len') old.has_spillset;
                  assigned = old.assigned;
                }
          ]
    ];
    readable = λ i r' g'.
        let (r, g) = get_of_lt env.ranges i (subst (λ z. i < z) len (lt_of_get ranges' i r' g')) in
        let (r'', g'', was) = rel i r g in
        subst (λ z. All (IsReadable is_stack_preg) (LiveRange.uses z))
          (some_inj r'' r' (sym g'' ∙ g'))
          (subst (All (IsReadable is_stack_preg)) (sym (same_uses r r'' was))
            (well.readable i r g));
  }
    where
      to' : LiveBundle
      to' = record to { ranges = list; spill_weight_and_props = w }

      bundles1 : List LiveBundle
      bundles1 = set env.bundles from_index.raw emptied

      bundles' : List LiveBundle
      bundles' = set bundles1 to_index.raw to'

      env' : MergeEnv
      env' = record env { ranges = ranges'; spillsets = spillsets'; bundles = bundles' }

      gone : get_elem? bundles1 from_index.raw ≡ some emptied
      gone =
          get_elem?-set_self env.bundles from_index.raw emptied
            (lt_of_get env.bundles from_index.raw from at_from)

      here : get_elem? bundles' to_index.raw ≡ some to'
      here = get_elem?-set_self bundles1 to_index.raw to' (
          lt_of_get bundles1 to_index.raw to
            (get_elem?-set_ne env.bundles from_index.raw to_index.raw emptied differ ∙ at_to))

      same_uses : (r r' : LiveRange) → Relinked from_index.raw to_index r r' → r'.uses ≡ r.uses
      same_uses r r' (inl q) = ap (λ (z : LiveRange). z.uses) q
      same_uses r r' (inr (q, h)) = ap (λ (z : LiveRange). z.uses) q
