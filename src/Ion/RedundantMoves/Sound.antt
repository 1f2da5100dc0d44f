-- ===== src/Ion/RedundantMoves/Sound.antt =====
-- Moves that the eliminator drops would change nothing.
use regalloc.Prelude.{
  ◌≡◌, ◌⊎◌, inl, inr, refl, sym, ap, ◌∙◌, subst, Option, none, some, List, [], ◌∷◌, ◌++◌, Bool,
  true, false, Bool-cases, Option-cases, if◌then◌else◌,
}
use regalloc.Reg.VReg.{VReg}
use regalloc.Allocation.{Allocation, alloc_eq}
use regalloc.Moves.Store.{Store, write, write_self, write_ne, alloc_cases, alloc_eq_iff}
use regalloc.Ion.RedundantMoves.{
  copy, orig, untracked, RedundantMoveEliminator, insert, state_of, clear_alloc, is_copy_of,
  push_copy, tracked, record_copy, elides, process_copy, process_move, or_else, vreg_of,
}
use regalloc.Ion.RedundantMoves.Copies.{
  insert_self, insert_ne, AmongCopies-last, AmongCopies-before, IsListed, IsSound,
  clear_alloc-IsSound,
}

push_copy_self :
    (rev : Allocation → Option (List Allocation)) (from to : Allocation)
    → IsListed (push_copy rev from to) from to
unfolding push_copy
push_copy_self rev from to = elim (Option-cases (rev from)) [
  | inl e ↦ (to ∷ [], rw (e, push_copy) (insert_self rev from (to ∷ [])), inl refl)
  | inr (l, e) ↦
      (l ++ to ∷ [], rw (e, push_copy) (insert_self rev from (l ++ to ∷ [])), AmongCopies-last to l)
]

push_copy-other :
    (rev : Allocation → Option (List Allocation)) (from to y x : Allocation)
    → IsListed rev y x
    → IsListed (push_copy rev from to) y x
unfolding push_copy
push_copy-other rev from to y x (m, at, among) = elim (alloc_cases from y) [
  | inl (same, _) ↦
      let here : rev from ≡ some m = ap rev same ∙ at in
      (
        m ++ to ∷ [],
        rw (here, push_copy)
            (subst (λ z. insert rev from (m ++ to ∷ []) z ≡ some (m ++ to ∷ [])) same
              (insert_self rev from (m ++ to ∷ []))),
        AmongCopies-before x m (to ∷ []) among,
      )
  | inr (ne, _) ↦ elim (Option-cases (rev from)) [
    | inl e ↦ (m, rw (e, push_copy) (insert_ne rev from y (to ∷ []) ne ∙ at), among)
    | inr (l, e) ↦ (m, rw (e, push_copy) (insert_ne rev from y (l ++ to ∷ []) ne ∙ at), among)
  ]
]

module _ {V : Type 0} where
  record_copy-IsSound :
      (r : RedundantMoveEliminator) (s : Store V) (from to : Allocation) (v : Option VReg)
      → IsSound r s
      → s to ≡ s from
      → IsSound (record_copy r from to v) s
  unfolding record_copy
  record_copy-IsSound r s from to v h same = record { known = known'; listed = listed' }
    where
      origin :
          (x y : Allocation) (o : Option VReg)
          → insert r.allocs to (copy from v) x ≡ some (copy y o)
          → ((to ≡ x) × (from ≡ y)) ⊎ (r.allocs x ≡ some (copy y o))
      origin x y o k = elim (alloc_cases to x) [
        | inl (e, _) ↦ inl (
          e,
          cc (ap (insert r.allocs to (copy from v)) e, insert_self r.allocs to (copy from v), k),
        )
        | inr (ne, _) ↦ inr (sym (insert_ne r.allocs to x (copy from v) ne) ∙ k)
      ]

      known' :
          (x y : Allocation) (o : Option VReg)
          → insert r.allocs to (copy from v) x ≡ some (copy y o)
          → s x ≡ s y
      known' x y o k = elim (origin x y o k) [
        | inl (e, f) ↦ ap s (sym e) ∙ same ∙ ap s f
        | inr old ↦ h.known x y o old
      ]

      listed' :
          (x y : Allocation) (o : Option VReg)
          → insert r.allocs to (copy from v) x ≡ some (copy y o)
          → IsListed (push_copy r.reverse_allocs from to) y x
      listed' x y o k = elim (origin x y o k) [
        | inl (e, f) ↦
            subst (λ z. IsListed (push_copy r.reverse_allocs from to) z x) f
              (subst (λ z. IsListed (push_copy r.reverse_allocs from to) from z) e
                (push_copy_self r.reverse_allocs from to))
        | inr old ↦ push_copy-other r.reverse_allocs from to y x (h.listed x y o old)
      ]

  insert_orig-IsSound :
      (r : RedundantMoveEliminator) (s : Store V) (a : Allocation) (v : VReg)
      → IsSound r s
      → IsSound (record r { allocs = insert r.allocs a (orig v) }) s
  insert_orig-IsSound r s a v h = record {
    known = λ x y o k. h.known x y o (old x y o k);
    listed = λ x y o k. h.listed x y o (old x y o k);
  }
    where
      old :
          (x y : Allocation) (o : Option VReg)
          → insert r.allocs a (orig v) x ≡ some (copy y o)
          → r.allocs x ≡ some (copy y o)
      old x y o k = elim (alloc_cases a x) [
        | inl (e, _) ↦ cc (ap (insert r.allocs a (orig v)) e, insert_self r.allocs a (orig v), k)
        | inr (ne, _) ↦ sym (insert_ne r.allocs a x (orig v) ne) ∙ k
      ]

  -- A state that reads as a copy of `b` says that the places hold the same.
  copy_known :
      (r : RedundantMoveEliminator) (s : Store V) (a b : Allocation)
      → IsSound r s
      → is_copy_of (state_of (r.allocs a)) b ≡ true
      → s a ≡ s b
  unfolding is_copy_of state_of
  copy_known r s a b h e = elim (Option-cases (r.allocs a)) [
    | inl n ↦ cc (rw n at e)
    | inr (copy y o, k) ↦ h.known a y o k ∙ ap s (alloc_eq_iff y b (rw k at e))
    | inr (orig v, k) ↦ cc (rw k at e)
    | inr (untracked, k) ↦ cc (rw k at e)
  ]

  elides-same :
      (r : RedundantMoveEliminator) (s : Store V) (from to : Allocation)
      → IsSound r s
      → elides (state_of (r.allocs from)) (state_of (r.allocs to)) from to ≡ true
      → s to ≡ s from
  unfolding elides
  elides-same r s from to h e = elim (Bool-cases (is_copy_of (state_of (r.allocs to)) from)) [
    | inl t ↦ copy_known r s to from h t
    | inr f ↦ sym (copy_known r s from to h (rw f at e))
  ]

  write_same : (s : Store V) (to : Allocation) (v : V) → s to ≡ v → write s to v ≡ s
  write_same s to v e = λ i a. same a i
    where
      same : (a : Allocation) → write s to v a ≡ s a
      same a = elim (alloc_cases to a) [
        | inl (q, _) ↦ subst (λ x. write s to v x ≡ s x) q (write_self s to v ∙ sym e)
        | inr (ne, _) ↦ write_ne s to a v ne
      ]

  -- One move has been processed: if it is elided it would change nothing, and the next state is
  -- sound for the store that it leaves.
  pub record Processed (r : RedundantMoveEliminator) (s : Store V) (from to : Allocation)
      (elide : Bool) (r' : RedundantMoveEliminator) : Type 0 where
    pub harmless : elide ≡ true → write s to (s from) ≡ s
    pub sound : IsSound r' (write s to (s from))

  after_copy :
      (r : RedundantMoveEliminator) (s : Store V) (from to : Allocation) (v : Option VReg)
      (t : Bool)
      → IsSound r (write s to (s from))
      → IsSound (if t then record_copy r from to v else r) (write s to (s from))
  after_copy r s from to v true h =
      record_copy-IsSound r (write s to (s from)) from to v h
        (write_self s to (s from) ∙ sym (source_kept))
    where
      source_kept : write s to (s from) from ≡ s from
      source_kept = elim (alloc_cases to from) [
        | inl (e, _) ↦ subst (λ x. write s to (s from) x ≡ s from) e (write_self s to (s from))
        | inr (ne, _) ↦ write_ne s to from (s from) ne
      ]
  after_copy r s from to v false h = h

  process_copy-Processed :
      (r : RedundantMoveEliminator) (s : Store V) (from to : Allocation) (v : Option VReg)
      (t : Bool)
      → IsSound r s
      → tracked from to ≡ some t
      → (elide : Bool) × (r' : RedundantMoveEliminator) × (process_copy r from to v
            (state_of (r.allocs from))
            (state_of (r.allocs to))
          ≡ some (elide, r'))
        × Processed r s from to elide r'
  unfolding process_copy
  process_copy-Processed r s from to v t h tr =
      let dst = or_else v (vreg_of (state_of (r.allocs from))) in
      elim (Bool-cases (elides (state_of (r.allocs from)) (state_of (r.allocs to)) from to)) [
        | inl e ↦
            let same = write_same s to (s from) (elides-same r s from to h e) in
            (
              true,
              if t then record_copy r from to dst else r,
              rw tr (rw e refl),
              record {
                harmless = λ q. same;
                sound = after_copy r s from to dst t (subst (IsSound r) (sym same) h);
              },
            )
        | inr e ↦ (
          false,
          if t then record_copy (clear_alloc r to) from to dst else clear_alloc r to,
          rw tr (rw e refl),
          record {
            harmless = λ q. cc q;
            sound = after_copy (clear_alloc r to) s from to dst t (
                clear_alloc-IsSound r s h to (write s to (s from))
                  (λ a ne. write_ne s to a (s from) (λ q. ne (sym q))));
          },
        )
      ]

  pub process_move-Processed :
      (r : RedundantMoveEliminator) (s : Store V) (from to : Allocation) (v : Option VReg)
      (t : Bool)
      → IsSound r s
      → tracked from to ≡ some t
      → (elide : Bool) × (r' : RedundantMoveEliminator) × (process_move r from to v
          ≡ some (elide, r'))
        × Processed r s from to elide r'
  unfolding process_move
  process_move-Processed r s from to none t h tr =
      let (elide, r', runs, p) = process_copy-Processed r s from to none t h tr in
      elim (Bool-cases (alloc_eq from to)) [
        | inl e ↦ (elide, r', rw e runs, p)
        | inr e ↦ (elide, r', rw e runs, p)
      ]
  process_move-Processed r s from to (some v) t h tr = elim (alloc_cases from to) [
    | inl (same, e) ↦
        let stays = write_same s to (s from) (ap s (sym same)) in
        let cleared = clear_alloc r to in
        (
          true,
          record cleared { allocs = insert cleared.allocs to (orig v) },
          rw e refl,
          record {
            harmless = λ q. stays;
            sound = insert_orig-IsSound cleared (write s to (s from)) to v (
                clear_alloc-IsSound r s h to (write s to (s from))
                  (λ a ne. write_ne s to a (s from) (λ q. ne (sym q))));
          },
        )
    | inr (ne, e) ↦
        let (elide, r', runs, p) = process_copy-Processed r s from to (some v) t h tr in
        (elide, r', rw e runs, p)
  ]
