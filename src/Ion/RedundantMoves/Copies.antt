-- ===== src/Ion/RedundantMoves/Copies.antt =====
-- The invariant of redundant-move elimination: a place that is recorded as a copy holds what its
-- original holds, and is on the original's list.
use regalloc.Prelude.{
  ◌≡◌, ◌≢◌, ◌⊎◌, inl, inr, refl, sym, ap, ◌∙◌, subst, Option, none, some, List, [], ◌∷◌, ◌++◌,
  Option-cases,
}
use regalloc.Reg.VReg.{VReg}
use regalloc.Allocation.{Allocation}
use regalloc.Moves.Store.{Store, alloc_cases}
use regalloc.Ion.RedundantMoves.{
  RedundantMoveState, copy, RedundantMoveEliminator, insert, remove, demote, invalidate, drain,
  clear_alloc,
}

module _ {A : Type 0} (map : Allocation → Option A) where
  pub insert_self : (k : Allocation) (v : A) → insert map k v k ≡ some v
  unfolding insert
  insert_self k v = elim (alloc_cases k k) [
    | inl (_, t) ↦ rw t refl
    | inr (ne, _) ↦ absurd (ne refl)
  ]

  pub insert_ne : (k x : Allocation) (v : A) → k ≢ x → insert map k v x ≡ map x
  unfolding insert
  insert_ne k x v ne = elim (alloc_cases k x) [
    | inl (e, _) ↦ absurd (ne e)
    | inr (_, t) ↦ rw t refl
  ]

  pub remove_self : (k : Allocation) → remove map k k ≡ none
  unfolding remove
  remove_self k = elim (alloc_cases k k) [ inl (_, t) ↦ rw t refl | inr (ne, _) ↦ absurd (ne refl) ]

  pub remove_ne : (k x : Allocation) → k ≢ x → remove map k x ≡ map x
  unfolding remove
  remove_ne k x ne = elim (alloc_cases k x) [ inl (e, _) ↦ absurd (ne e) | inr (_, t) ↦ rw t refl ]

abbrev pub States : Type 0
States = Allocation → Option RedundantMoveState

-- What `f` records, `g` records too.
abbrev pub Within : States → States → Type 0
Within f g = (x : Allocation) (st : RedundantMoveState) → f x ≡ some st → g x ≡ some st

remove-Within : (f : States) (k : Allocation) → Within (remove f k) f
remove-Within f k x st h = elim (alloc_cases k x) [
  | inl (e, _) ↦ cc (subst (λ y. remove f k y ≡ none) e (remove_self f k), h)
  | inr (ne, _) ↦ sym (remove_ne f k x ne) ∙ h
]

invalidate-gone : (t : Allocation) (f : States) → invalidate t f t ≡ none
unfolding invalidate
invalidate-gone t f = elim (Option-cases (f t)) [
  | inl e ↦ rw (e, invalidate) (remove_self f t)
  | inr (v, e) ↦ rw (e, invalidate) (remove_self (insert f t (demote v)) t)
]

invalidate-else : (t : Allocation) (f : States) (x : Allocation) → t ≢ x → invalidate t f x ≡ f x
unfolding invalidate
invalidate-else t f x ne = elim (Option-cases (f t)) [
  | inl e ↦ rw (e, invalidate) (remove_ne f t x ne)
  | inr (v, e) ↦
      rw (e, invalidate) (remove_ne (insert f t (demote v)) t x ne ∙ insert_ne f t x (demote v) ne)
]

invalidate-Within : (t : Allocation) (f : States) → Within (invalidate t f) f
invalidate-Within t f x st h = elim (alloc_cases t x) [
  | inl (e, _) ↦ cc (subst (λ y. invalidate t f y ≡ none) e (invalidate-gone t f), h)
  | inr (ne, _) ↦ sym (invalidate-else t f x ne) ∙ h
]

drain-Within : (l : List Allocation) (f : States) → Within (drain l f) f
unfolding drain
drain-Within [] f x st h = h
drain-Within (t ∷ l) f x st h = invalidate-Within t f x st (drain-Within l (invalidate t f) x st h)

abbrev pub AmongCopies : Allocation → List Allocation → Type 0
AmongCopies x [] = ⊥
AmongCopies x (a ∷ l) = (x ≡ a) ⊎ AmongCopies x l

drain-gone :
    (l : List Allocation) (f : States) (x : Allocation) (st : RedundantMoveState)
    → AmongCopies x l
    → drain l f x ≢ some st
unfolding drain
drain-gone [] f x st k h = k
drain-gone (t ∷ l) f x st (inl e) h =
    cc (ap (invalidate t f) e ∙ invalidate-gone t f, drain-Within l (invalidate t f) x st h)
drain-gone (t ∷ l) f x st (inr k) h = drain-gone l (invalidate t f) x st k h

pub AmongCopies-last : (x : Allocation) (l : List Allocation) → AmongCopies x (l ++ x ∷ [])
AmongCopies-last x [] = inl refl
AmongCopies-last x (a ∷ l) = inr (AmongCopies-last x l)

pub AmongCopies-before :
    (x : Allocation) (l m : List Allocation) → AmongCopies x l → AmongCopies x (l ++ m)
AmongCopies-before x [] m k = absurd k
AmongCopies-before x (a ∷ l) m (inl e) = inl e
AmongCopies-before x (a ∷ l) m (inr k) = inr (AmongCopies-before x l m k)

abbrev pub IsListed : (Allocation → Option (List Allocation)) → Allocation → Allocation → Type 0
IsListed rev y x = (l : List Allocation) × (rev y ≡ some l) × AmongCopies x l

pub record IsSound {V : Type 0} (r : RedundantMoveEliminator) (s : Store V) : Type 0 where
  pub known : (x y : Allocation) (o : Option VReg) → r.allocs x ≡ some (copy y o) → s x ≡ s y
  pub listed :
      (x y : Allocation) (o : Option VReg)
      → r.allocs x ≡ some (copy y o)
      → IsListed r.reverse_allocs y x

module _ {V : Type 0} (r : RedundantMoveEliminator) (s : Store V) (h : IsSound r s)
    (to : Allocation) where
  cleared-Within : Within (clear_alloc r to).allocs r.allocs
  unfolding clear_alloc
  cleared-Within x st k = elim (Option-cases (r.reverse_allocs to)) [
    | inl e ↦ remove-Within r.allocs to x st (rw (e, clear_alloc) at k)
    | inr (l, e) ↦
        drain-Within l r.allocs x st
          (remove-Within (drain l r.allocs) to x st (rw (e, clear_alloc) at k))
  ]

  pub cleared_self : (clear_alloc r to).allocs to ≡ none
  unfolding clear_alloc
  cleared_self = elim (Option-cases (r.reverse_allocs to)) [
    | inl e ↦ rw (e, clear_alloc) (remove_self r.allocs to)
    | inr (l, e) ↦ rw (e, clear_alloc) (remove_self (drain l r.allocs) to)
  ]

  -- No copy of the cleared place is left.
  no_copy : (x : Allocation) (o : Option VReg) → (clear_alloc r to).allocs x ≢ some (copy to o)
  unfolding clear_alloc
  no_copy x o k =
      let (l, e, among) = h.listed x to o (cleared-Within x (copy to o) k) in
      drain-gone l r.allocs x (copy to o) among
        (remove-Within (drain l r.allocs) to x (copy to o) (rw (e, clear_alloc) at k))

  reverse_kept :
      (y : Allocation) → to ≢ y → (clear_alloc r to).reverse_allocs y ≡ r.reverse_allocs y
  unfolding clear_alloc
  reverse_kept y ne = elim (Option-cases (r.reverse_allocs to)) [
    | inl e ↦ rw (e, clear_alloc) refl
    | inr (l, e) ↦ rw (e, clear_alloc) (insert_ne r.reverse_allocs to y [] ne)
  ]

  -- Clearing a place makes room for any change of it.
  pub clear_alloc-IsSound :
      (s' : Store V) → ((a : Allocation) → a ≢ to → s' a ≡ s a) → IsSound (clear_alloc r to) s'
  clear_alloc-IsSound s' same = record {
    known = λ x y o k.
        same x (not_to x y o k)
        ∙ h.known x y o (cleared-Within x (copy y o) k)
        ∙ sym (same y (not_from x y o k));
    listed = λ x y o k.
        let (l, e, among) = h.listed x y o (cleared-Within x (copy y o) k) in
        (l, reverse_kept y (λ q. not_from x y o k (sym q)) ∙ e, among);
  }
    where
      not_to :
          (x y : Allocation) (o : Option VReg)
          → (clear_alloc r to).allocs x ≡ some (copy y o)
          → x ≢ to
      not_to x y o k e = cc (ap ((clear_alloc r to).allocs) e, cleared_self)

      not_from :
          (x y : Allocation) (o : Option VReg)
          → (clear_alloc r to).allocs x ≡ some (copy y o)
          → y ≢ to
      not_from x y o k e =
          no_copy x o (subst (λ z. (clear_alloc r to).allocs x ≡ some (copy z o)) e k)
