-- ===== src/Ion/Spill/Whole.antt =====
-- The allocation of all spill slots.
use regalloc.Prelude.{
  ℕ, zero, suc, ◌+◌, ◌^◌, ◌<◌, ◌≡◌, ◌≢◌, inl, refl, sym, ap, ◌∙◌, subst, some, List, [], ◌∷◌, true,
  false, length, get_elem?, In, get_of_lt, lt_of_get, some_inj, ◌>>=◌, arith,
}
use regalloc.Index
use regalloc.Index.{Index}
use regalloc.Allocation.{Allocation}
use regalloc.Function.{Function}
use regalloc.Ion.Ranges.{CodeRange, from_range, key_cmp, overlaps}
use regalloc.Ion.Spill.{
  SpillSet, SpillSlotData, SpillSlotList, SpillEnv, is_same, no_slots, allocate_for, allocate_sets,
  allocate_spillslot, number_slots, allocate_spillslots,
}
use regalloc.Ion.Spill.Slots.{Apart-In, Differs, at, IsPlaced}
use regalloc.Ion.Spill.Kept.{IsList, OnlySlots, IsAllocated}
use regalloc.Ion.Spill.Probing.{allocate_for_lem}

abbrev with_alloc : Allocation → SpillSlotData → SpillSlotData
with_alloc a d = record d { alloc = a }

module _ (f : Function) where
  allocate_sets-IsAllocated :
      {old : List SpillSet} (n i : ℕ) (env : SpillEnv)
      → i + n ≡ length old
      → i + n < 2 ^ 32
      → IsAllocated old i i env
      → (env1 : SpillEnv) × (allocate_sets f n i env ≡ some env1)
        × IsAllocated old (length old) (length old) env1
  unfolding allocate_sets Index.new
  allocate_sets-IsAllocated {old} zero i env e small h =
      (env, refl, subst (λ z. IsAllocated old z z env) (omega (arith, e)) h)
  allocate_sets-IsAllocated {old} (suc n) i env e small h =
      let (s, g) = get_of_lt old i (omega (arith, e)) in
      let (slot, g') = h.kept i s g in
      let (env1, run, h') =
        allocate_for_lem f h (record s { slot = slot }) g' (omega (arith, small)) in
      let (env2, run', h'') =
        allocate_sets-IsAllocated n (suc i) env1 (omega (arith, e)) (omega (arith, small)) h' in
      (
        env2,
        ap (λ z. allocate_for f (at z) env >>= allocate_sets f n (i + 1)) (omega (arith, small))
            ∙ ap (λ o. o >>= allocate_sets f n (i + 1)) run
            ∙ ap (λ z. allocate_sets f n z env1) (omega arith)
            ∙ run',
        h'',
      )

  number_slots-kept :
      (ds : List SpillSlotData) (env : SpillEnv)
      → ((number_slots f ds env).1.spillsets ≡ env.spillsets)
        × ((i : ℕ) (d : SpillSlotData)
            → get_elem? ds i ≡ some d
            → (a : Allocation) × (get_elem? (number_slots f ds env).0 i
                ≡ some (record d { alloc = a })))
  unfolding number_slots allocate_spillslot
  number_slots-kept [] env = (refl, λ i d e. cc e)
  number_slots-kept (d ∷ ds) env =
      let (sets, slots) = number_slots-kept ds (allocate_spillslot f d.slots env).1 in
      (sets, at_index slots)
    where
      env1 : SpillEnv
      env1 = (allocate_spillslot f d.slots env).1

      at_index :
          ((i : ℕ) (e : SpillSlotData)
            → get_elem? ds i ≡ some e
            → (a : Allocation) × (get_elem? (number_slots f ds env1).0 i
                ≡ some (record e { alloc = a })))
          → (i : ℕ) (e : SpillSlotData) → get_elem? (d ∷ ds) i ≡ some e
          → (a : Allocation) × (get_elem? (number_slots f (d ∷ ds) env).0 i
              ≡ some (record e { alloc = a }))
      at_index slots zero e g = (
        _,
        ap (λ (z : SpillSlotData). some (with_alloc (allocate_spillslot f d.slots env).0 z))
            (some_inj d e g),
      )
      at_index slots (suc i) e g = slots i e g

-- Every spill set that needs a slot has its range in one, and spill sets of one slot do not overlap.
pub record IsSafe (env : SpillEnv) : Type 0 where
  pub placed :
      (i : ℕ) (s : SpillSet)
      → get_elem? env.spillsets i ≡ some s
      → s.required ≡ true
      → IsPlaced env i s
  pub apart :
      (i j : ℕ) (s t : SpillSet)
      → get_elem? env.spillsets i ≡ some s
      → get_elem? env.spillsets j ≡ some t
      → s.required ≡ true
      → t.required ≡ true
      → i ≢ j
      → s.slot.raw ≡ t.slot.raw
      → overlaps s.range t.range ≡ false

pub Differs-overlaps :
    (r r' : CodeRange) → Differs (from_range r) (from_range r') → overlaps r r' ≡ false
unfolding is_same key_cmp from_range overlaps
Differs-overlaps r r' h = ground (arith, h)

module _ {old : List SpillSet} {env : SpillEnv} (h : IsAllocated old (length old) (length old) env)
    (env' : SpillEnv) (sets : env'.spillsets ≡ env.spillsets)
    (slots : (i : ℕ) (d : SpillSlotData)
      → get_elem? env.spillslots i ≡ some d
      → (a : Allocation) × (get_elem? env'.spillslots i ≡ some (record d { alloc = a }))) where
  before :
      (i : ℕ) (s : SpillSet)
      → get_elem? env'.spillsets i ≡ some s
      → s.required ≡ true
      → IsPlaced env i s
  before i s e req =
      let e' = sym (ap (λ z. get_elem? z i) sets) ∙ e in
      h.placement.placed i s (omega (arith, lt_of_get env.spillsets i s e', h.as_many)) e' req

  IsAllocated-IsSafe : IsSafe env'
  IsAllocated-IsSafe = record {
    placed = λ i s e req.
        let (d, g, member) = before i s e req in
        let (a, g') = slots s.slot.raw d g in (record d { alloc = a }, g', member);
    apart = λ i j s t e e' req req' ne q.
        let (d, g, member) = before i s e req in
        let (d', g', member') = before j t e' req' in
        let same = some_inj d' d (sym g' ∙ ap (get_elem? env.spillslots) (sym q) ∙ g) in
        Differs-overlaps s.range t.range (
          Apart-In d.ranges (from_range s.range) (from_range t.range) (at i) (at j)
            (h.placement.apart s.slot.raw d g) member
            (subst (λ z. In (from_range t.range, at j) (SpillSlotData.ranges z)) same member')
            (λ p. ne (ap Index.raw p)));
  }

abbrev pub three_lists : List SpillSlotList
three_lists = no_slots ∷ no_slots ∷ no_slots ∷ []

module _ (f : Function) (env : SpillEnv) (none_yet : env.spillslots ≡ [])
    (lists : env.slots_by_class ≡ three_lists) where
  at_start : IsAllocated env.spillsets 0 0 env
  at_start = record {
    placement = record {
      apart = λ j d e. cc (none_yet, e);
      placed = λ i s lt e req. absurd (omega (arith, lt));
    };
    kept = λ i s e. (s.slot, e);
    as_many = refl;
    few = rw none_yet (omega arith);
    classes = rw lists refl;
    lists = λ c l e.
        subst (IsList (length env.spillslots))
          (empty_list c l (sym (ap (λ z. get_elem? z c) lists) ∙ e)) (tt, inl refl);
  }
    where
      empty_list : (c : ℕ) (l : SpillSlotList) → get_elem? three_lists c ≡ some l → no_slots ≡ l
      empty_list zero l e = some_inj no_slots l e
      empty_list (suc zero) l e = some_inj no_slots l e
      empty_list (suc (suc zero)) l e = some_inj no_slots l e
      empty_list (suc (suc (suc c))) l e = cc e

  -- Where no slot exists yet and there are fewer than 2^32 spill sets, the allocation of spill slots
  -- returns and changes nothing in a spill set but its slot. Every spill set that needs a slot has an
  -- existing one that records its range, and the ranges of two that share a slot do not overlap.
  pub allocate_spillslots-IsSafe :
      length env.spillsets < 2 ^ 32
      → (env' : SpillEnv) × (allocate_spillslots f env ≡ some env')
        × OnlySlots env.spillsets env'.spillsets
        × IsSafe env'
  unfolding allocate_spillslots
  allocate_spillslots-IsSafe small =
      let n = length env.spillsets in
      let (env1, run, h) =
        allocate_sets-IsAllocated f n 0 env (omega arith) (omega (arith, small)) at_start in
      (
        numbered env1,
        ap (λ o. o >>= λ env1. some (numbered env1)) run,
        (λ i s e.
            let (slot, g) = h.kept i s e in (slot, ap (λ z. get_elem? z i) (same_sets env1) ∙ g)),
        numbered-IsSafe h,
      )
    where
      numbered : SpillEnv → SpillEnv
      numbered env1 =
          let (slots, env2) = number_slots f env1.spillslots env1 in
          record env2 { spillslots = slots }

      same_sets : (env1 : SpillEnv) → (numbered env1).spillsets ≡ env1.spillsets
      same_sets env1 = (number_slots-kept f env1.spillslots env1).0

      numbered-IsSafe :
          {env1 : SpillEnv}
          → IsAllocated env.spillsets (length env.spillsets) (length env.spillsets) env1
          → IsSafe (numbered env1)
      numbered-IsSafe {env1} h =
          IsAllocated-IsSafe h (numbered env1) (same_sets env1)
            (number_slots-kept f env1.spillslots env1).1
