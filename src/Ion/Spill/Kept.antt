-- ===== src/Ion/Spill/Kept.antt =====
-- What the allocation of slots keeps from spill set to spill set.
use regalloc.Prelude.{
  ℕ, suc, ◌+◌, ◌≤◌, ◌<◌, ◌≡◌, ◌⊎◌, inl, inr, sym, ap, ◌∙◌, subst, some, List, [], ◌∷◌, ◌++◌, false,
  length, get_elem?, set, All, length-set, length-append, lt_of_get, get_elem?-set_self,
  get_elem?-set_ne, get_elem?-append, get_elem?-snoc_cases, ℕ_discrete, some_inj, arith,
}
use regalloc.Index.{Index}
use regalloc.Ion.Ranges.{from_range}
use regalloc.Ion.Spill.{
  SpillSet, SpillSlotData, SpillSlotList, SpillEnv, contains_key, next_index, with_list,
}
use regalloc.Ion.Spill.Slots.{Apart, IsPlacement, env', slot', env'-IsPlacement}

-- A list names slots that exist, and probes start within it.
abbrev pub IsList : ℕ → SpillSlotList → Type 0
IsList n l =
    All (λ s. Index.raw s < n) l.slots × ((l.slots ≡ []) ⊎ (l.probe_start < length l.slots))

-- The spill sets are what they were, but for their slots.
abbrev pub OnlySlots : List SpillSet → List SpillSet → Type 0
OnlySlots old new =
    (i : ℕ) (s : SpillSet)
    → get_elem? old i ≡ some s
    → (slot : Index) × (get_elem? new i ≡ some (record s { slot = slot }))

-- What the loop keeps when it has come to a spill set, with at most so many slots.
pub record IsAllocated (old : List SpillSet) (n most : ℕ) (env : SpillEnv) : Type 0 where
  pub placement : IsPlacement n env
  pub kept : OnlySlots old env.spillsets
  pub as_many : length env.spillsets ≡ length old
  pub few : length env.spillslots ≤ most
  pub classes : length env.slots_by_class ≡ 3
  pub lists :
      (c : ℕ) (l : SpillSlotList)
      → get_elem? env.slots_by_class c ≡ some l
      → IsList (length env.spillslots) l

pub next_index-lt :
    (l : SpillSlotList) (i : ℕ) → i < length l.slots → next_index l i < length l.slots
unfolding next_index
next_index-lt l i h = ground arith

abbrev pub in_slot : Index → SpillSet → SpillSet
in_slot slot s = record s { slot = slot }

module _ {old : List SpillSet} {n most : ℕ} {env : SpillEnv} (h : IsAllocated old n most env) where
  set-kept :
      (s : SpillSet) (slot : Index)
      → get_elem? env.spillsets n ≡ some s
      → OnlySlots old (set env.spillsets n (in_slot slot s))
  set-kept s slot e i s0 g =
      let (slot0, k) = h.kept i s0 g in
      elim (ℕ_discrete n i) [
        | no ne ↦ (slot0, get_elem?-set_ne env.spillsets n i (in_slot slot s) ne ∙ k)
        | yes q ↦ (
          slot,
          subst (λ z. get_elem? (set env.spillsets n (in_slot slot s)) z ≡ some (in_slot slot s0)) q
              (get_elem?-set_self env.spillsets n (in_slot slot s) (lt_of_get env.spillsets n s e)
                ∙ ap (λ z. some (in_slot slot z))
                    (some_inj s (in_slot slot0 s0) (sym e ∙ ap (get_elem? env.spillsets) q ∙ k))),
        )
      ]

  pub with_list-IsAllocated :
      (c : ℕ) (l : SpillSlotList)
      → IsList (length env.spillslots) l
      → c < 3
      → IsAllocated old n most (with_list env c l)
  with_list-IsAllocated c l ok lt = record {
    placement = record { apart = h.placement.apart; placed = h.placement.placed };
    kept = h.kept;
    as_many = h.as_many;
    few = h.few;
    classes = length-set env.slots_by_class c l ∙ h.classes;
    lists = λ c' l' e. elim (ℕ_discrete c c') [
      | yes q ↦
          subst (IsList (length env.spillslots))
            (some_inj l l' (
              sym (get_elem?-set_self env.slots_by_class c l (omega (arith, lt, h.classes)))
              ∙ ap (get_elem? (set env.slots_by_class c l)) q
              ∙ e))
            ok
      | no ne ↦ h.lists c' l' (sym (get_elem?-set_ne env.slots_by_class c c' l ne) ∙ e)
    ];
  }

  pub env'-IsAllocated :
      (s : SpillSet) (slot : Index) (d : SpillSlotData) (at_n : get_elem? env.spillsets n ≡ some s)
      (at_slot : get_elem? env.spillslots slot.raw ≡ some d)
      (free : contains_key d.ranges (from_range s.range) ≡ false)
      → IsAllocated old (suc n) most (env' n env s slot d at_n at_slot free)
  env'-IsAllocated s slot d at_n at_slot free =
      let same = length-set env.spillslots slot.raw (slot' n env s slot d at_n at_slot free) in
      record {
        placement = env'-IsPlacement n env s slot d at_n at_slot free h.placement;
        kept = set-kept s slot at_n;
        as_many = length-set env.spillsets n (in_slot slot s) ∙ h.as_many;
        few = omega (arith, same, h.few);
        classes = h.classes;
        lists = λ c l e. subst (λ z. IsList z l) (sym same) (h.lists c l e);
      }

  -- One more slot, which is empty.
  pub with_slot-IsAllocated :
      (d : SpillSlotData)
      → d.ranges ≡ []
      → IsAllocated old n (suc most) (record env { spillslots = env.spillslots ++ d ∷ [] })
  with_slot-IsAllocated d empty =
      let longer = length-append env.spillslots (d ∷ []) in
      record {
        placement = record {
          apart = λ j d' e. elim (get_elem?-snoc_cases env.spillslots d j d' e) [
            | inl e' ↦ h.placement.apart j d' e'
            | inr (q, same) ↦
                subst (λ z. Apart (SpillSlotData.ranges z)) same (subst Apart (sym empty) tt)
          ];
          placed = λ i s lt e req.
              let (d', g, member) = h.placement.placed i s lt e req in
              (d', get_elem?-append env.spillslots (d ∷ []) s.slot.raw d' g, member);
        };
        kept = h.kept;
        as_many = h.as_many;
        few = omega (arith, longer, h.few);
        classes = h.classes;
        lists = λ c l e.
            let (names, start) = h.lists c l e in
            (
              subst (λ z. All (λ s. Index.raw s < z) l.slots) (sym longer)
                  (All-later l.slots names),
              start,
            );
      }
    where
      All-later :
          (ss : List Index)
          → All (λ s. Index.raw s < length env.spillslots) ss
          → All (λ s. Index.raw s < length env.spillslots + 1) ss
      All-later [] a = tt
      All-later (x ∷ ss) a = (omega (arith, a.0), All-later ss a.1)
