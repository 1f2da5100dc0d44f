-- ===== src/Checker/Meet.antt =====
-- The meet of the checker's states, and the test that tells whether a state has changed.
use regalloc.Prelude.{
  ◌≡◌, ◌⊎◌, inl, inr, refl, sym, ap, ◌∙◌, subst, some, [], ◌∷◌, Bool, true, false, ◌&&◌, Bool-cases,
  Option-cases, some_inj,
}
use regalloc.Prelude.Sets.{contains, get, contains-filter, subset_lem, eq_cases}
use regalloc.Reg.VReg.{vreg_eq}
use regalloc.Allocation.{Allocation, alloc_eq}
use regalloc.Checker.{
  CheckerValue, universe, vregs, Allocs, CheckerState, top, allocations, meet_value, value_eq,
  within, state_eq, merge_map, meet_with,
}
use regalloc.Checker.Meaning.{Values, Config, Means, HoldsAllocs, Holds}
use regalloc.Checker.Registers.{vreg_eq_iff, alloc_iff}

and_both : (a b : Bool) → (a && b) ≡ true → (a ≡ true) × (b ≡ true)
and_both true b h = (refl, h)
and_both false b h = cc

get-merge_map :
    (m from : Allocs) (a : Allocation) (val : CheckerValue)
    → get alloc_eq (merge_map m from) a ≡ some val
    → (v w : CheckerValue) × (get alloc_eq m a ≡ some v)
      × (get alloc_eq from a ≡ some w)
      × (meet_value v w ≡ val)
unfolding get merge_map
get-merge_map [] from a val h = cc
get-merge_map ((k, x) ∷ m) from a val h = elim (Option-cases (get alloc_eq from k)) [
  | inl e ↦
      let (v, w, g, f, q) = get-merge_map m from a val (rw (e, merge_map) at h) in
      elim (eq_cases alloc_eq alloc_iff k a) [
        | inl (same, _) ↦ cc (e, f, ap (get alloc_eq from) same)
        | inr (_, n) ↦ (v, w, rw n g, f, q)
      ]
  | inr (y, e) ↦ elim (eq_cases alloc_eq alloc_iff k a) [
    | inl (same, t) ↦ (
      x,
      y,
      rw t refl,
      ap (get alloc_eq from) (sym same) ∙ e,
      some_inj (meet_value x y) val (rw (e, merge_map, t) at h),
    )
    | inr (_, n) ↦
        let (v, w, g, f, q) = get-merge_map m from a val (rw (e, merge_map, n) at h) in
        (v, w, rw n g, f, q)
  ]
]

get-within :
    (m other : Allocs) (a : Allocation) (v : CheckerValue)
    → within m other ≡ true
    → get alloc_eq m a ≡ some v
    → (w : CheckerValue) × (get alloc_eq other a ≡ some w) × (value_eq v w ≡ true)
unfolding get within
get-within [] other a v h g = cc
get-within ((k, x) ∷ m) other a v h g = elim (Option-cases (get alloc_eq other k)) [
  | inl e ↦ cc (rw (e, within) at h)
  | inr (y, e) ↦ elim (Bool-cases (value_eq x y)) [
    | inr n ↦ cc (rw (e, within, n) at h)
    | inl t ↦ elim (eq_cases alloc_eq alloc_iff k a) [
      | inl (same, s) ↦ (
        y,
        ap (get alloc_eq other) (sym same) ∙ e,
        subst (λ z. value_eq z y ≡ true) (some_inj x v (rw s at g)) t,
      )
      | inr (_, n) ↦ get-within m other a v (rw (e, within, t) at h) (rw n at g)
    ]
  ]
]

module _ {V : Type 0} (e : Values V) (x : V) where
  meet_value-Means : (v w : CheckerValue) → Means v x e ⊎ Means w x e → Means (meet_value v w) x e
  unfolding meet_value
  meet_value-Means universe universe (inl h) = h
  meet_value-Means universe universe (inr h) = h
  meet_value-Means (vregs s) universe (inl h) = h
  meet_value-Means (vregs s) universe (inr h) = λ u k. h u
  meet_value-Means universe (vregs t) (inl h) = λ u k. h u
  meet_value-Means universe (vregs t) (inr h) = h
  meet_value-Means (vregs s) (vregs t) (inl h) =
      λ u k. h u (contains-filter vreg_eq vreg_eq_iff (contains vreg_eq t) s u k).0
  meet_value-Means (vregs s) (vregs t) (inr h) =
      λ u k. h u (contains-filter vreg_eq vreg_eq_iff (contains vreg_eq t) s u k).1

  value_eq-Means : (v w : CheckerValue) → value_eq v w ≡ true → Means w x e → Means v x e
  unfolding value_eq
  value_eq-Means universe universe h means = means
  value_eq-Means universe (vregs t) h means = cc h
  value_eq-Means (vregs s) universe h means = cc h
  value_eq-Means (vregs s) (vregs t) h means =
      λ u k. means u (subset_lem vreg_eq vreg_eq_iff s t (and_both _ _ h).0 u k)

module _ {V : Type 0} (c : Config V) where
  merge_map-HoldsAllocs :
      (m from : Allocs) → HoldsAllocs m c ⊎ HoldsAllocs from c → HoldsAllocs (merge_map m from) c
  merge_map-HoldsAllocs m from h a val g =
      let (v, w, gm, gf, q) = get-merge_map m from a val g in
      subst (λ z. Means z (c.store a) c.values) q
        (meet_value-Means c.values (c.store a) v w
          (elim h [ inl mine ↦ inl (mine a v gm) | inr other ↦ inr (other a w gf) ]))

  -- What either of two states describes, their meet describes too.
  pub meet_with-Holds : (a b : CheckerState) → Holds a c ⊎ Holds b c → Holds (meet_with a b) c
  unfolding meet_with
  meet_with-Holds top top h = elim h [ inl l ↦ l | inr r ↦ r ]
  meet_with-Holds (allocations m) top (inl h) = h
  meet_with-Holds (allocations m) top (inr h) = absurd h
  meet_with-Holds top (allocations n) (inl h) = absurd h
  meet_with-Holds top (allocations n) (inr h) = h
  meet_with-Holds (allocations m) (allocations n) h = merge_map-HoldsAllocs m n h

  -- States that the test takes for equal describe the same.
  pub state_eq-Holds : (a b : CheckerState) → state_eq a b ≡ true → Holds a c → Holds b c
  unfolding state_eq
  state_eq-Holds top top h holds = holds
  state_eq-Holds top (allocations n) h holds = absurd holds
  state_eq-Holds (allocations m) top h holds = cc h
  state_eq-Holds (allocations m) (allocations n) h holds = λ a val g.
      let (w, f, q) = get-within n m a val (and_both (within m n) (within n m) h).1 g in
      value_eq-Means c.values (c.store a) val w q (holds a w f)
