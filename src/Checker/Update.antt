-- ===== src/Checker/Update.antt =====
-- Each step of the checker describes what the instruction does.
use regalloc.Prelude.{
  ◌≡◌, inl, inr, refl, sym, ap, ◌∙◌, subst, none, some, List, [], ◌∷◌, Bool-cases, Option-cases,
  some_inj, >>=-eq-some,
}
use regalloc.Prelude.Sets.{get, erase, put, eq_cases, get-erase, get-put}
use regalloc.Reg.PReg.{PReg}
use regalloc.Reg.VReg.{VReg}
use regalloc.Operand
use regalloc.Operand.{Operand}
use regalloc.Allocation.{Allocation, alloc_eq, reg}
use regalloc.Moves.Store.{Store, write, write_self, write_ne}
use regalloc.Checker.{
  CheckerValue, Allocs, CheckerState, allocations, CheckerInst, move, parallel_move, op, zip,
  is_def, remove_from_value, remove_vreg, move_vregs, move_all, define_all, clobber_all,
  update_allocs, update, defined, from_reg,
}
use regalloc.Checker.Meaning.{
  Values, bind, assign, Config, InstEffect, define_values, clobber_store, step, Means, HoldsAllocs,
  Holds,
}
use regalloc.Checker.Registers.{alloc_iff, OneDest, move_vregs-Means, remove-Means, from_reg-Means}

-- What a step needs to be right: a value that is not known is not moved over one that is, and a
-- parallel move writes no register twice.
abbrev pub IsTracked : CheckerInst → Allocs → Type 0
IsTracked (move into from) m = get alloc_eq m from ≡ none → get alloc_eq m into ≡ none
IsTracked (parallel_move moves) m = OneDest moves
IsTracked (op inst operands allocs clobbers) m = Unit {0}

get-move_all :
    (moves : List (VReg × VReg)) (m : Allocs) (a : Allocation) (val : CheckerValue)
    → get alloc_eq (move_all moves m) a ≡ some val
    → (old : CheckerValue) × (get alloc_eq m a ≡ some old) × (move_vregs moves old ≡ val)
unfolding get move_all
get-move_all moves [] a val h = cc
get-move_all moves ((k, x) ∷ m) a val h = elim (Bool-cases (alloc_eq k a)) [
  | inl y ↦ (x, rw y refl, some_inj (move_vregs moves x) val (rw y at h))
  | inr n ↦ let (old, e, q) = get-move_all moves m a val (rw n at h) in (old, rw n e, q)
]

get-remove_vreg :
    (v : VReg) (m m' : Allocs) (a : Allocation) (val : CheckerValue)
    → remove_vreg v m ≡ some m'
    → get alloc_eq m' a ≡ some val
    → (old : CheckerValue) × (get alloc_eq m a ≡ some old) × (remove_from_value v old ≡ some val)
unfolding get remove_vreg
get-remove_vreg v [] m' a val r h =
    cc (subst (λ z. get alloc_eq z a ≡ some val) (sym (some_inj [] m' r)) h)
get-remove_vreg v ((k, x) ∷ m) m' a val r h =
    let (x', e1, r1) = >>=-eq-some (remove_from_value v x) _ r in
    let (rest, e2, r2) = >>=-eq-some (remove_vreg v m) _ r1 in
    let h' : get alloc_eq ((k, x') ∷ rest) a ≡ some val =
      subst (λ z. get alloc_eq z a ≡ some val) (sym (some_inj ((k, x') ∷ rest) m' r2)) h in
    elim (Bool-cases (alloc_eq k a)) [
      | inl y ↦ (x, rw y refl, e1 ∙ ap some (some_inj x' val (rw y at h')))
      | inr n ↦ let (old, e, q) = get-remove_vreg v m rest a val e2 (rw n at h') in (old, rw n e, q)
    ]

module _ {V : Type 0} where
  move-Holds :
      (into from : Allocation) (m : Allocs) (val : CheckerValue) (c : Config V)
      → get alloc_eq m from ≡ some val
      → HoldsAllocs m c
      → HoldsAllocs
          (put alloc_eq into val m)
          (record c { store = write c.store into (c.store from) })
  move-Holds into from m val c known h b new g =
      elim (get-put alloc_eq alloc_iff into b val m new g) [
        | inl (e, same) ↦
            subst (λ z. Means z (write c.store into (c.store from) b) c.values) same
              (subst (λ x. Means val x c.values)
                (sym (
                  ap (write c.store into (c.store from)) (sym e)
                  ∙ write_self c.store into (c.store from)))
                (h from val known))
        | inr (g', ne) ↦
            subst (λ x. Means new x c.values) (sym (write_ne c.store into b (c.store from) ne))
              (h b new g')
      ]

  unknown_move-Holds :
      (into from : Allocation) (m : Allocs) (c : Config V)
      → get alloc_eq m into ≡ none
      → HoldsAllocs m c
      → HoldsAllocs m (record c { store = write c.store into (c.store from) })
  unknown_move-Holds into from m c unknown h b new g = elim (eq_cases alloc_eq alloc_iff into b) [
    | inl (e, _) ↦ cc (unknown, ap (get alloc_eq m) e, g)
    | inr (ne, _) ↦
        subst (λ x. Means new x c.values) (sym (write_ne c.store into b (c.store from) ne))
          (h b new g)
  ]

  define-Holds :
      (v : VReg) (a : Allocation) (x : V) (m m' : Allocs) (c : Config V)
      → remove_vreg v m ≡ some m'
      → HoldsAllocs m c
      → HoldsAllocs
          (put alloc_eq a (from_reg v) m')
          (record { store = write c.store a x; values = bind c.values v x })
  define-Holds v a x m m' c r h b new g =
      elim (get-put alloc_eq alloc_iff a b (from_reg v) m' new g) [
        | inl (e, same) ↦
            subst (λ z. Means z (write c.store a x b) (bind c.values v x)) same
              (subst (λ y. Means (from_reg v) y (bind c.values v x))
                (sym (ap (write c.store a x) (sym e) ∙ write_self c.store a x))
                (from_reg-Means c.values v x))
        | inr (g', ne) ↦
            let (old, e, q) = get-remove_vreg v m m' b new r g' in
            subst (λ y. Means new y (bind c.values v x)) (sym (write_ne c.store a b x ne))
              (remove-Means c.values v x (c.store b) old new q (h b old e))
      ]

  define_all-Holds :
      (l : List (Operand × Allocation)) (x : InstEffect V) (m m' : Allocs) (c : Config V)
      → define_all l m ≡ some m'
      → HoldsAllocs m c
      → HoldsAllocs m' (define_values x l c)
  unfolding define_all define_values
  define_all-Holds [] x m m' c r h = subst (λ z. HoldsAllocs z c) (some_inj m m' r) h
  define_all-Holds ((o, a) ∷ l) x m m' c r h = elim (Bool-cases (is_def (Operand.kind o))) [
    | inr n ↦ simp (n, define_values) (define_all-Holds l x m m' c (simp (n, define_all) at r) h)
    | inl y ↦
        let (v, e1, r1) = >>=-eq-some (Operand.vreg o) _ (simp (y, define_all) at r) in
        let (m1, e2, r2) = >>=-eq-some (remove_vreg v m) _ r1 in
        simp (y, e1, define_values)
          (define_all-Holds l x (put alloc_eq a (from_reg v) m1) m'
            (record {
              store = write c.store a (x.defines o);
              values = bind c.values v (x.defines o);
            })
            r2 (define-Holds v a (x.defines o) m m1 c e2 h))
  ]

  clobber_all-Holds :
      (ps : List PReg) (x : InstEffect V) (m : Allocs) (s : Store V) (e : Values V)
      → HoldsAllocs m (record { store = s; values = e })
      → HoldsAllocs (clobber_all ps m) (record { store = clobber_store x ps s; values = e })
  unfolding clobber_all clobber_store
  clobber_all-Holds [] x m s e h = h
  clobber_all-Holds (p ∷ ps) x m s e h =
      clobber_all-Holds ps x (erase alloc_eq (reg p) m) (write s (reg p) (x.leaves p)) e (λ b new g.
        let (g', ne) = get-erase alloc_eq alloc_iff (reg p) b m new g in
        subst (λ y. Means new y e) (sym (write_ne s (reg p) b (x.leaves p) ne)) (h b new g'))

  update_allocs-Holds :
      (i : CheckerInst) (x : InstEffect V) (m m' : Allocs) (c : Config V)
      → update_allocs i m ≡ some m'
      → IsTracked i m
      → HoldsAllocs m c
      → HoldsAllocs m' (step x i c)
  unfolding update_allocs step
  update_allocs-Holds (move into from) x m m' c r ok h = elim (Option-cases (get alloc_eq m from)) [
    | inl e ↦
        subst (λ z. HoldsAllocs z (step x (move into from) c))
          (some_inj m m' (rw (e, update_allocs) at r)) (unknown_move-Holds into from m c (ok e) h)
    | inr (val, e) ↦
        subst (λ z. HoldsAllocs z (step x (move into from) c))
          (some_inj (put alloc_eq into val m) m' (rw (e, update_allocs) at r))
          (move-Holds into from m val c e h)
  ]
  update_allocs-Holds (parallel_move moves) x m m' c r one h =
      subst (λ z. HoldsAllocs z (step x (parallel_move moves) c)) (some_inj (move_all moves m) m' r)
        (λ b new g.
          let (old, e, q) = get-move_all moves m b new g in
          subst (λ z. Means z (c.store b) (assign moves c.values)) q
            (move_vregs-Means c.values moves old (c.store b) one (h b old e)))
  update_allocs-Holds (op inst operands allocs clobbers) x m m' c r ok h =
      let (m1, e, r1) = >>=-eq-some (define_all (zip operands allocs) m) _ r in
      let c1 = define_values x (zip operands allocs) c in
      subst (λ z. HoldsAllocs z (step x (op inst operands allocs clobbers) c))
        (some_inj (clobber_all clobbers m1) m' r1)
        (clobber_all-Holds clobbers x m1 c1.store c1.values
          (define_all-Holds (zip operands allocs) x m m1 c e h))

  -- For every instruction of the checker, whatever it computes: from a state that describes the
  -- values before it, the step of the checker, where it does not panic, leads to a state that
  -- describes the values after it; a move must not bring a value that is not known over one that
  -- is, and a parallel move must not write a register twice.
  pub update-Holds :
      (i : CheckerInst) (x : InstEffect V) (st st' : CheckerState) (c : Config V)
      → update i st ≡ some st'
      → IsTracked i (defined st)
      → HoldsAllocs (defined st) c
      → Holds st' (step x i c)
  unfolding update
  update-Holds i x st st' c r ok h =
      let (m', e, q) = >>=-eq-some (update_allocs i (defined st)) _ r in
      subst (λ z. Holds z (step x i c)) (some_inj (allocations m') st' q)
        (update_allocs-Holds i x (defined st) m' c e ok h)
