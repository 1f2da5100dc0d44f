-- ===== src/Examples/Bundles.antt =====
-- Keys, packed words and merges of bundles on concrete inputs.
use regalloc.Prelude.{
  ℕ, zero, suc, ◌%◌, ◌^◌, ◌≡◌, ◌↔◌, ◌⊎◌, refl, subst, some_inj, Option, some, ◌>>=◌, List, [], ◌∷◌,
  Bool, true, false, ltb, leb, get_elem?, All, arith,
}
use regalloc.Reg.{int}
use regalloc.Allocation.{is_some, kind}
use regalloc.Index.{Index}
use regalloc.Ion.Requirement.Places.{IsReadable}
use regalloc.Ion.Ranges.{
  LiveRangeKey, LiveRange, LiveRangeListEntry, less, equal, key_cmp, key_eq, BlockparamOut,
  BlockparamIn, PosWithPrio, out_key, in_key, pos_key,
}
use regalloc.Ion.Ranges.Order.{
  flip, key_cmp-order, comes_first, out_fields, in_fields, pos_fields, keys-comes_first,
}
use regalloc.Ion.Bundle.{
  LiveBundle, set_cached_spill_weight_and_props, cached_minimal, cached_fixed, cached_fixed_def,
  cached_stack, cached_spill_weight, minimal_fixed_bundle_spill_weight,
}
use regalloc.Ion.Bundle.Props.{set_cached-cached}
use regalloc.Ion.Merge.{MergeEnv, merge_bundles}
use regalloc.Ion.Merge.Fits.{IsWell, IsBundle}
use regalloc.Ion.Merge.Kept.{IsMerged, merge_bundles-IsWell}

abbrev key : ℕ → ℕ → LiveRangeKey
key from to = record { from = from; to = to }

key_cmp-order_example :
    (key_cmp (key 4 6) (key 1 4) ≡ flip (key_cmp (key 1 4) (key 4 6)))
    × ((key_cmp (key 1 4) (key 4 6) ≡ equal) ↔ (key_eq (key 1 4) (key 4 6) ≡ true))
    × (key_cmp (key 1 4) (key 4 6) ≡ less
        → key_cmp (key 4 6) (key 9 12) ≡ less
        → key_cmp (key 1 4) (key 9 12) ≡ less)
key_cmp-order_example = key_cmp-order (key 1 4) (key 4 6) (key 9 12) (omega arith) (omega arith)

abbrev ix : ℕ → Index
ix i = record { raw = i }

abbrev out_of : ℕ → ℕ → BlockparamOut
out_of from_vreg to_vreg = record {
  to_vreg = ix to_vreg;
  to_block = ix 2;
  from_block = ix 1;
  from_vreg = ix from_vreg;
}

abbrev into : ℕ → BlockparamIn
into from_block = record { from_block = ix from_block; to_block = ix 2; to_vreg = ix 5 }

abbrev at_pos : ℕ → ℕ → PosWithPrio
at_pos bits prio = record { prio = prio; pos = record { bits = bits } }

keys-comes_first_example :
    (ltb (out_key (out_of 3 9)) (out_key (out_of 4 0))
      ≡ comes_first (out_fields (out_of 3 9)) (out_fields (out_of 4 0)))
    × (ltb (in_key (into 1)) (in_key (into 0))
        ≡ comes_first (in_fields (into 1)) (in_fields (into 0)))
    × (ltb (pos_key (at_pos 7 1)) (pos_key (at_pos 8 0))
        ≡ comes_first (pos_fields (at_pos 7 1)) (pos_fields (at_pos 8 0)))
keys-comes_first_example =
    keys-comes_first (out_of 3 9) (out_of 4 0) (into 1) (into 0) (at_pos 7 1) (at_pos 8 0)
      (omega arith, (omega arith, (omega arith, (omega arith, tt))))
      (omega arith, (omega arith, (omega arith, (omega arith, tt))))
      (omega arith, (omega arith, (omega arith, (omega arith, tt))))
      (omega arith, (omega arith, (omega arith, (omega arith, tt))))
      (omega arith, (omega arith, tt)) (omega arith, (omega arith, tt))

abbrev entry : ℕ → ℕ → ℕ → LiveRangeListEntry
entry from to index = record {
  range = record { from = record { bits = from }; to = record { bits = to } };
  index = ix index;
}

abbrev bundle_of : List LiveRangeListEntry → LiveBundle
bundle_of ranges = record {
  ranges = ranges;
  spillset = ix 0;
  allocation = record { bits = 0 };
  prio = 0;
  spill_weight_and_props = 0;
}

-- The weight of a minimal bundle with a fixed register sets the flag for the stack.
set_cached-cached_example :
    (b' : LiveBundle) × (set_cached_spill_weight_and_props
        (bundle_of [])
        minimal_fixed_bundle_spill_weight
        true
        true
        false
      ≡ some b')
    × (cached_minimal b' ≡ true)
    × (cached_fixed b' ≡ true)
    × (cached_fixed_def b' ≡ false)
    × (cached_stack b' ≡ leb (2 ^ 28) minimal_fixed_bundle_spill_weight)
    × (cached_spill_weight b' ≡ minimal_fixed_bundle_spill_weight % 2 ^ 28)
set_cached-cached_example =
    set_cached-cached (bundle_of []) minimal_fixed_bundle_spill_weight true true false (omega arith)

abbrev range_in : ℕ → ℕ → ℕ → LiveRange
range_in from to bundle = record {
  range = record { from = record { bits = from }; to = record { bits = to } };
  vreg = ix bundle;
  bundle = ix bundle;
  uses_spill_weight_and_flags = 0;
  uses = [];
}

-- Bundle 0 has 2 to 6 and 10 to 12, bundle 1 has 6 to 9.
abbrev two_bundles : MergeEnv
two_bundles = record {
  ranges = range_in 2 6 0 ∷ range_in 10 12 0 ∷ range_in 6 9 1 ∷ [];
  bundles = bundle_of (entry 2 6 0 ∷ entry 10 12 1 ∷ []) ∷ bundle_of (entry 6 9 2 ∷ []) ∷ [];
  spillsets =
      record {
        slot = ix 0;
        reg_hint = record { bits = 0 };
        class = int;
        spill_bundle = ix 0;
        required = false;
        splits = 0;
        range = record { from = record { bits = 2 }; to = record { bits = 12 } };
      }
      ∷ [];
  vregs = [];
  blockparam_outs = [];
}

abbrev no_stack : ℕ → Bool
no_stack n = false

two_bundles-IsBundle_0 : IsBundle two_bundles 0 (bundle_of (entry 2 6 0 ∷ entry 10 12 1 ∷ []))
unfolding is_some kind
two_bundles-IsBundle_0 = record {
  chain = (omega arith, (omega arith, tt), (omega arith, tt, tt));
  linked = ((range_in 2 6 0, refl, refl), ((range_in 10 12 0, refl, refl), tt));
  has_spillset = omega arith;
  assigned = (false, refl);
}

two_bundles-IsBundle_1 : IsBundle two_bundles 1 (bundle_of (entry 6 9 2 ∷ []))
unfolding is_some kind
two_bundles-IsBundle_1 = record {
  chain = (omega arith, tt, tt);
  linked = ((range_in 6 9 1, refl, refl), tt);
  has_spillset = omega arith;
  assigned = (false, refl);
}

two_bundles-IsWell : IsWell no_stack two_bundles
two_bundles-IsWell = record { every = every; readable = readable }
  where
    every :
        (j : ℕ) (b : LiveBundle)
        → get_elem? two_bundles.bundles j ≡ some b
        → IsBundle two_bundles j b
    every zero b e = subst (IsBundle two_bundles 0) (some_inj _ b e) two_bundles-IsBundle_0
    every (suc zero) b e = subst (IsBundle two_bundles 1) (some_inj _ b e) two_bundles-IsBundle_1
    every (suc (suc j)) b e = cc e

    readable :
        (i : ℕ) (r : LiveRange)
        → get_elem? two_bundles.ranges i ≡ some r
        → All (IsReadable no_stack) r.uses
    readable zero r e =
        subst (λ z. All (IsReadable no_stack) (LiveRange.uses z)) (some_inj _ r e) tt
    readable (suc zero) r e =
        subst (λ z. All (IsReadable no_stack) (LiveRange.uses z)) (some_inj _ r e) tt
    readable (suc (suc zero)) r e =
        subst (λ z. All (IsReadable no_stack) (LiveRange.uses z)) (some_inj _ r e) tt
    readable (suc (suc (suc i))) r e = cc e

abbrev merged_entries : Option (MergeEnv × Bool) → Option (List LiveRangeListEntry)
merged_entries r = r >>= λ r. get_elem? (r.0).bundles 0 >>= λ b. some b.ranges

merge_bundles_run :
    merged_entries (merge_bundles no_stack (ix 1) (ix 0) two_bundles)
    ≡ some (entry 2 6 0 ∷ entry 6 9 2 ∷ entry 10 12 1 ∷ [])
unfolding merge_bundles kind
merge_bundles_run = refl

merge_bundles-IsWell_example :
    (merge_bundles no_stack (ix 1) (ix 0) two_bundles ≡ some (two_bundles, false))
    ⊎ ((env' : MergeEnv) × (merge_bundles no_stack (ix 1) (ix 0) two_bundles ≡ some (env', true))
        × IsWell no_stack env'
        × IsMerged two_bundles env' (ix 1) (ix 0))
merge_bundles-IsWell_example =
    merge_bundles-IsWell no_stack (ix 1) (ix 0) two_bundles two_bundles-IsWell (omega arith)
      (omega arith)
