-- ===== src/Ion/Spill/Probing.antt =====
-- The probes of the slots that exist, and the slot that is added where none fits.
use regalloc.Prelude.{
  ℕ, zero, suc, ◌-◌, ◌^◌, ◌%◌, ◌≤◌, ◌<◌, ◌≡◌, ◌⊎◌, inl, inr, refl, sym, ap, ◌∙◌, subst, Option,
  some, List, [], ◌∷◌, ◌++◌, Bool, true, false, min, length, get_elem?, All, length-set,
  length-append, lt_of_get, get_of_lt, get_elem?-snoc, All-append, All-get, Bool-cases, ℕ_discrete,
  some_inj, ◌>>=◌, if◌then◌else◌, arith,
}
use regalloc.Index
use regalloc.Index.{Index}
use regalloc.Reg.{class_code, class_code-lt}
use regalloc.Allocation.{no_alloc}
use regalloc.Function.{Function}
use regalloc.Ion.Ranges.{from_range}
use regalloc.Ion.Spill.{
  SpillSet, SpillSlotData, SpillSlotList, SpillEnv, contains_key, next_index, with_list,
  max_attempts, spillslot_can_fit_spillset, allocate_spillset_to_spillslot, probe, add_spillslot,
  allocate_for,
}
use regalloc.Ion.Spill.Slots.{at, env', allocate_spillset_to_spillslot_lem}
use regalloc.Ion.Spill.Kept.{
  IsList, IsAllocated, next_index-lt, with_list-IsAllocated, env'-IsAllocated,
  with_slot-IsAllocated,
}

-- A spill set has been placed, or nothing is changed.
abbrev Probed : List SpillSet → ℕ → ℕ → SpillEnv → Option (SpillEnv × Bool) → Type 0
Probed old n most env r =
    ((env1 : SpillEnv) × (r ≡ some (env1, true)) × IsAllocated old (suc n) most env1)
    ⊎ (r ≡ some (env, false))

module _ {old : List SpillSet} {n most : ℕ} {env : SpillEnv} (h : IsAllocated old n most env)
    (s : SpillSet) (e : get_elem? env.spillsets n ≡ some s) where
  -- Into a slot that fits.
  placed_in :
      (slot : Index) (d : SpillSlotData)
      → get_elem? env.spillslots slot.raw ≡ some d
      → contains_key d.ranges (from_range s.range) ≡ false
      → (env1 : SpillEnv) × (allocate_spillset_to_spillslot (at n) slot env ≡ some env1)
        × IsAllocated old (suc n) most env1
        × (length env1.spillslots ≡ length env.spillslots)
  placed_in slot d e' free = (
    env' n env s slot d e e' free,
    allocate_spillset_to_spillslot_lem n env s slot d e e' free,
    env'-IsAllocated h s slot d e e' free,
    length-set env.spillslots slot.raw _,
  )

  probe-Probed :
      (attempts c : ℕ) (l : SpillSlotList) (i : ℕ)
      → get_elem? env.slots_by_class c ≡ some l
      → (attempts ≡ 0) ⊎ (i < length l.slots)
      → Probed old n most env (probe attempts c (at n) i env)
  unfolding probe spillslot_can_fit_spillset placed_in
  probe-Probed zero c l i g lt = inr refl
  probe-Probed (suc a) c l i g lt =
      let here : i < length l.slots = omega (arith, lt) in
      let (slot, at_i) = get_of_lt l.slots i here in
      let (names, start) = h.lists c l g in
      let (d, at_slot) =
        get_of_lt env.spillslots slot.raw
          (All-get (λ s. Index.raw s < length env.spillslots) l.slots i slot names at_i) in
      elim (Bool-cases (contains_key d.ranges (from_range s.range))) [
        | inl y ↦ elim (probe-Probed a c l (next_index l i) g (inr (next_index-lt l i here))) [
          | inl (env1, run, ok) ↦ inl (env1, simp (g, at_i, at_slot, e, y) run, ok)
          | inr run ↦ inr (simp (g, at_i, at_slot, e, y) run)
        ]
        | inr free ↦
            let (env1, run, ok, same) = placed_in slot d at_slot free in
            inl (
              with_list env1 c (record l { probe_start = i }),
              simp (g, at_i, at_slot, e, free, run) refl,
              with_list-IsAllocated ok c (record l { probe_start = i })
                  (subst (λ z. All (λ s. Index.raw s < z) l.slots) (sym same) names, inr here)
                  (omega (arith, lt_of_get env.slots_by_class c l g, h.classes)),
            )
      ]

module _ (f : Function) {old : List SpillSet} {n : ℕ} {env : SpillEnv} (h : IsAllocated old n n env)
    (s : SpillSet) (e : get_elem? env.spillsets n ≡ some s) (small : n < 2 ^ 32) where
  -- Into a slot that is added.
  add_spillslot_lem :
      (env1 : SpillEnv) × (add_spillslot f (class_code s.class) (at n) s env ≡ some env1)
      × IsAllocated old (suc n) (suc n) env1
  unfolding add_spillslot Index.new contains_key
  add_spillslot_lem =
      let d : SpillSlotData = record {
        ranges = [];
        slots = f.spillslot_size s.class % 2 ^ 32;
        alloc = no_alloc;
      } in
      let slot = Index.new (length env.spillslots) in
      let same : slot.raw ≡ length env.spillslots = omega (arith, h.few, small) in
      let c = class_code s.class in
      let (l, g) =
        get_of_lt env.slots_by_class c (omega (arith, class_code-lt s.class, h.classes)) in
      let (names, start) = h.lists c l g in
      let slots = l.slots ++ slot ∷ [] in
      let l' : SpillSlotList = record { slots = slots; probe_start = length slots - 1 } in
      let longer = length-append env.spillslots (d ∷ []) in
      let names' : IsList (length (env.spillslots ++ d ∷ [])) l' = (
        All-append (λ s. Index.raw s < length (env.spillslots ++ d ∷ [])) l.slots (slot ∷ [])
            (later (length env.spillslots) (length (env.spillslots ++ d ∷ [])) l.slots
              (omega (arith, longer)) names)
            (omega (arith, same, longer), tt),
        inr (omega (arith, length-append l.slots (slot ∷ []))),
      ) in
      let (env1, run, ok, same_length) =
        placed_in
          (with_list-IsAllocated (with_slot-IsAllocated h d refl) c l' names'
            (class_code-lt s.class))
          s e slot d
          (subst (λ z. get_elem? (env.spillslots ++ d ∷ []) z ≡ some d) (sym same)
            (get_elem?-snoc env.spillslots d))
          refl in
      (env1, simp (g, run) refl, ok)
    where
      later :
          (j k : ℕ) (ss : List Index)
          → j ≤ k
          → All (λ s. Index.raw s < j) ss
          → All (λ s. Index.raw s < k) ss
      later j k [] le a = tt
      later j k (x ∷ ss) le a = (omega (arith, a.0, le), later j k ss le a.1)

  pub allocate_for_lem :
      (env1 : SpillEnv) × (allocate_for f (at n) env ≡ some env1)
      × IsAllocated old (suc n) (suc n) env1
  unfolding allocate_for
  allocate_for_lem = elim (Bool-cases s.required) [
    | inl required ↦
        let (l, g) =
          get_of_lt env.slots_by_class (class_code s.class)
            (omega (arith, class_code-lt s.class, h.classes)) in
        let (names, start) = h.lists (class_code s.class) l g in
        elim (probe-Probed h s e (min (length l.slots) max_attempts) (class_code s.class) l
          l.probe_start g (first_probe l start)) [
            | inl (env1, run, ok) ↦ (env1, after l required g ∙ ap continue run, more ok)
            | inr run ↦
                let (env1, run', ok) = add_spillslot_lem in
                (env1, after l required g ∙ ap continue run ∙ run', ok)
          ]
    | inr free ↦ (
      env,
      simp (e, free) refl,
      record {
        placement = record {
          apart = h.placement.apart;
          placed = λ i s' lt e' req. elim (ℕ_discrete i n) [
            | yes q ↦ cc (
              free,
              req,
              ap SpillSet.required
                  (some_inj s s' (sym e ∙ ap (get_elem? env.spillsets) (sym q) ∙ e')),
            )
            | no ne ↦ h.placement.placed i s' (omega (arith, lt, ne)) e' req
          ];
        };
        kept = h.kept;
        as_many = h.as_many;
        few = omega (arith, h.few);
        classes = h.classes;
        lists = h.lists;
      },
    )
  ]
    where
      continue : Option (SpillEnv × Bool) → Option SpillEnv
      continue o =
          o >>= λ r. if r.1 then some r.0 else add_spillslot f (class_code s.class) (at n) s r.0

      after :
          (l : SpillSlotList)
          → s.required ≡ true
          → get_elem? env.slots_by_class (class_code s.class) ≡ some l
          → allocate_for f (at n) env
            ≡ continue (
                probe
                  (min (length l.slots) max_attempts)
                  (class_code s.class)
                  (at n)
                  l.probe_start
                  env)
      after l required g = simp (e, required, g) refl

      first_probe :
          (l : SpillSlotList)
          → (l.slots ≡ []) ⊎ (l.probe_start < length l.slots)
          → (min (length l.slots) max_attempts ≡ 0) ⊎ (l.probe_start < length l.slots)
      first_probe l (inl q) = inl (simp q refl)
      first_probe l (inr lt) = inr lt

      more :
          {env1 : SpillEnv} → IsAllocated old (suc n) n env1 → IsAllocated old (suc n) (suc n) env1
      more ok = record {
        placement = ok.placement;
        kept = ok.kept;
        as_many = ok.as_many;
        few = omega (arith, ok.few);
        classes = ok.classes;
        lists = ok.lists;
      }
