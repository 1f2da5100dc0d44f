-- ===== src/Ion/Spill/Slots.antt =====
-- The spill sets in their slots, and what one more does to them.
use regalloc.Prelude.{
  ℕ, suc, ◌<◌, ◌≡◌, ◌≢◌, inl, inr, refl, sym, ap, ◌∙◌, subst, some, [], ◌∷◌, ◌++◌, true, false, leb,
  get_elem?, set, All, In, lt_of_get, get_elem?-set_self, get_elem?-set_ne, All-append,
  In-append_left, In-snoc, Bool-cases, ℕ_discrete, some_inj, arith,
}
use regalloc.Index.{Index}
use regalloc.Ion.Ranges.{LiveRangeKey, key_cmp, from_range}
use regalloc.Ion.Spill.{
  SpillSet, SpillSetRanges, SpillSlotData, SpillEnv, is_same, contains_key, insert_key,
  allocate_spillset_to_spillslot,
}

abbrev pub Differs : LiveRangeKey → LiveRangeKey → Type 0
Differs k k' = is_same (key_cmp k k') ≡ false

-- No two entries of a slot overlap.
abbrev pub Apart : SpillSetRanges → Type 0
Apart [] = Unit {0}
Apart ((k, s) ∷ m) = All (λ e. Differs k e.0) m × Apart m

Differs-sym : (a b : LiveRangeKey) → Differs a b → Differs b a
unfolding is_same key_cmp
Differs-sym a b h = elim (Bool-cases (leb b.to a.from)) [
  | inl y ↦ rw y refl
  | inr n ↦ elim (Bool-cases (leb a.to b.from)) [
    | inl y ↦ rw (n, y) refl
    | inr n' ↦ cc (rw (n', n) at h)
  ]
]

contains_key-Differs :
    (m : SpillSetRanges) (key : LiveRangeKey)
    → contains_key m key ≡ false
    → All (λ e. Differs key e.0) m
unfolding contains_key
contains_key-Differs [] key h = tt
contains_key-Differs ((k, s) ∷ m) key h = elim (Bool-cases (is_same (key_cmp key k))) [
  | inl y ↦ cc (rw y at h)
  | inr n ↦ (n, contains_key-Differs m key (rw n at h))
]

insert_key-snoc :
    (m : SpillSetRanges) (key : LiveRangeKey) (s : Index)
    → contains_key m key ≡ false
    → insert_key key s m ≡ m ++ (key, s) ∷ []
unfolding contains_key insert_key
insert_key-snoc [] key s h = refl
insert_key-snoc ((k, old) ∷ m) key s h = elim (Bool-cases (is_same (key_cmp key k))) [
  | inl y ↦ cc (rw y at h)
  | inr n ↦ rw n (ap (λ l. (k, old) ∷ l) (insert_key-snoc m key s (rw n at h)))
]

Apart-snoc :
    (m : SpillSetRanges) (key : LiveRangeKey) (s : Index)
    → All (λ e. Differs key e.0) m
    → Apart m
    → Apart (m ++ (key, s) ∷ [])
Apart-snoc [] key s d a = (tt, tt)
Apart-snoc ((k, old) ∷ m) key s d a = (
  All-append (λ e. Differs k e.0) m ((key, s) ∷ []) a.0 (Differs-sym key k d.0, tt),
  Apart-snoc m key s d.1 a.1,
)

-- Two entries for different spill sets do not overlap.
pub Apart-In :
    (m : SpillSetRanges) (k k' : LiveRangeKey) (s s' : Index)
    → Apart m
    → In (k, s) m
    → In (k', s') m
    → s ≢ s'
    → Differs k k'
Apart-In [] k k' s s' a h h' ne = absurd h
Apart-In ((k0, s0) ∷ m) k k' s s' a (inl e) (inl e') ne =
    absurd (ne (ap (λ p. p.1) e ∙ sym (ap (λ p. p.1) e')))
Apart-In ((k0, s0) ∷ m) k k' s s' a (inl e) (inr h') ne =
    subst (λ z. Differs z k') (sym (ap (λ p. p.0) e)) (entry_of m a.0 h')
  where
    entry_of : (m : SpillSetRanges) → All (λ e. Differs k0 e.0) m → In (k', s') m → Differs k0 k'
    entry_of [] d h = absurd h
    entry_of (p ∷ m) d (inl e) = subst (λ z. Differs k0 z) (sym (ap (λ p. p.0) e)) d.0
    entry_of (p ∷ m) d (inr h) = entry_of m d.1 h
Apart-In ((k0, s0) ∷ m) k k' s s' a (inr h) (inl e') ne =
    Differs-sym k' k (subst (λ z. Differs z k) (sym (ap (λ p. p.0) e')) (entry_of m a.0 h))
  where
    entry_of : (m : SpillSetRanges) → All (λ e. Differs k0 e.0) m → In (k, s) m → Differs k0 k
    entry_of [] d h = absurd h
    entry_of (p ∷ m) d (inl e) = subst (λ z. Differs k0 z) (sym (ap (λ p. p.0) e)) d.0
    entry_of (p ∷ m) d (inr h) = entry_of m d.1 h
Apart-In ((k0, s0) ∷ m) k k' s s' a (inr h) (inr h') ne = Apart-In m k k' s s' a.1 h h' ne

abbrev pub at : ℕ → Index
at i = record { raw = i }

-- A spill set has a slot that has its range.
abbrev pub IsPlaced : SpillEnv → ℕ → SpillSet → Type 0
IsPlaced env i s =
    (d : SpillSlotData) × (get_elem? env.spillslots s.slot.raw ≡ some d)
    × In (from_range s.range, at i) d.ranges

-- The first spill sets that need a slot have one, and no slot has ranges that overlap.
pub record IsPlacement (n : ℕ) (env : SpillEnv) : Type 0 where
  pub apart : (j : ℕ) (d : SpillSlotData) → get_elem? env.spillslots j ≡ some d → Apart d.ranges
  pub placed :
      (i : ℕ) (s : SpillSet)
      → i < n
      → get_elem? env.spillsets i ≡ some s
      → s.required ≡ true
      → IsPlaced env i s

module _ (n : ℕ) (env : SpillEnv) (s : SpillSet) (slot : Index) (d : SpillSlotData)
    (at_n : get_elem? env.spillsets n ≡ some s)
    (at_slot : get_elem? env.spillslots slot.raw ≡ some d)
    (free : contains_key d.ranges (from_range s.range) ≡ false) where
  abbrev pub slot' : SpillSlotData
  slot' = record d { ranges = insert_key (from_range s.range) (at n) d.ranges }

  abbrev pub env' : SpillEnv
  env' = record env {
    spillsets = set env.spillsets n (record s { slot = slot });
    spillslots = set env.spillslots slot.raw slot';
  }

  pub allocate_spillset_to_spillslot_lem :
      allocate_spillset_to_spillslot (at n) slot env ≡ some env'
  unfolding allocate_spillset_to_spillslot
  allocate_spillset_to_spillslot_lem = rw (at_n, at_slot) refl

  here' : get_elem? env'.spillslots slot.raw ≡ some slot'
  here' =
      get_elem?-set_self env.spillslots slot.raw slot' (lt_of_get env.spillslots slot.raw d at_slot)

  appended : slot'.ranges ≡ d.ranges ++ (from_range s.range, at n) ∷ []
  appended = insert_key-snoc d.ranges (from_range s.range) (at n) free

  pub env'-IsPlacement : IsPlacement n env → IsPlacement (suc n) env'
  env'-IsPlacement h = record {
    apart = λ j d' e. elim (ℕ_discrete slot.raw j) [
      | yes q ↦
          subst (λ z. Apart (SpillSlotData.ranges z))
            (some_inj slot' d' (sym here' ∙ ap (get_elem? env'.spillslots) q ∙ e))
            (subst Apart (sym appended) (
              Apart-snoc d.ranges (from_range s.range) (at n)
                (contains_key-Differs d.ranges (from_range s.range) free)
                (h.apart slot.raw d at_slot)))
      | no ne ↦ h.apart j d' (sym (get_elem?-set_ne env.spillslots slot.raw j slot' ne) ∙ e)
    ];
    placed = λ i s' lt e req. elim (ℕ_discrete n i) [
      | yes q ↦
          let same : record s { slot = slot } ≡ s' = some_inj _ s' (
            sym (
              get_elem?-set_self env.spillsets n (record s { slot = slot })
                (lt_of_get env.spillsets n s at_n))
            ∙ ap (get_elem? env'.spillsets) q
            ∙ e) in
          subst (IsPlaced env' i) same (
            slot',
            here',
            subst (In (from_range s.range, at i)) (sym appended) (
                subst
                  (λ z. In (from_range s.range, at i) (d.ranges ++ (from_range s.range, at z) ∷ []))
                  (sym q) (In-snoc (from_range s.range, at i) d.ranges)),
          )
      | no ne ↦
          let (d0, g, member) =
            h.placed i s' (omega (arith, lt, ne))
              (sym (get_elem?-set_ne env.spillsets n i _ ne) ∙ e) req in
          elim (ℕ_discrete slot.raw s'.slot.raw) [
            | no other ↦
                (d0, get_elem?-set_ne env.spillslots slot.raw s'.slot.raw slot' other ∙ g, member)
            | yes q ↦
                let same : d0 ≡ d =
                  some_inj d0 d (sym g ∙ ap (get_elem? env.spillslots) (sym q) ∙ at_slot) in
                (
                  slot',
                  ap (get_elem? env'.spillslots) (sym q) ∙ here',
                  subst (In (from_range s'.range, at i)) (sym appended) (
                      In-append_left (from_range s'.range, at i) d.ranges
                        ((from_range s.range, at n) ∷ [])
                        (subst (λ z. In (from_range s'.range, at i) (SpillSlotData.ranges z)) same
                          member)),
                )
          ]
    ];
  }
