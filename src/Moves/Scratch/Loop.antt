-- ===== src/Moves/Scratch/Loop.antt =====
-- The loop of `compute`: no stack-to-stack move is left, and the moves do what they did.
use regalloc.Prelude.{
  ◌≡◌, ◌≢◌, inl, inr, refl, sym, ap, ◌∙◌, subst, some, List, [], ◌∷◌, ◌++◌, Bool, true, false, ◌&&◌,
  Bool-cases, All, All-append,
}
use regalloc.Allocation.{Allocation, alloc_eq}
use regalloc.Moves.{Move}
use regalloc.Moves.Store.{Store, write, exec, alloc_cases}
use regalloc.Moves.Scratch.{
  MoveAndScratchResolver, Dirty, is_stack_to_stack_move, copy_move, expand, overwrite, restore,
  one_move, last_restore, expand_all,
}
use regalloc.Moves.Scratch.Borrowed.{
  exec-append, Tracks, Leaves, stack_ne, expand-Tracks, restored, plain-Tracks,
}

pub and-left : (a b : Bool) → (a && b) ≡ true → a ≡ true
and-left true b h = refl
and-left false b h = cc

pub and-right : (a b : Bool) → (a && b) ≡ true → b ≡ true
and-right true b h = h
and-right false b h = cc

pub left_false : (a b : Bool) → a ≡ false → (a && b) ≡ false
left_false a b e = rw e refl

pub right_false : (a b : Bool) → b ≡ false → (a && b) ≡ false
right_false true b e = e
right_false false b e = refl

-- At most one end of the move is on the stack.
abbrev pub IsPossible : {S T : Type 0} → MoveAndScratchResolver S → Move T → Type 0
IsPossible res m = (res.is_stack_alloc m.src && res.is_stack_alloc m.dst) ≡ false

module _ {S T : Type 0} (res : MoveAndScratchResolver S) (default : T) (r q : Allocation)
    (apart : r ≢ q) (not_stack : res.is_stack_alloc r ≡ false) where
  expand-IsPossible :
      (m : Move T) (d : Dirty) → All (IsPossible res) (expand res default r (some q) m d).0
  unfolding expand
  expand-IsPossible m d =
      let a = right_false (res.is_stack_alloc m.src) (res.is_stack_alloc r) not_stack in
      let b = left_false (res.is_stack_alloc r) (res.is_stack_alloc m.dst) not_stack in
      let c = left_false (res.is_stack_alloc r) (res.is_stack_alloc q) not_stack in
      elim (Bool-cases d.save_dirty) [ inl e ↦ rw e (c, (a, (b, tt))) | inr e ↦ rw e (a, (b, tt)) ]

  back-IsPossible : (res.is_stack_alloc q && res.is_stack_alloc r) ≡ false
  back-IsPossible = right_false (res.is_stack_alloc q) (res.is_stack_alloc r) not_stack

  one_move-Tracks :
      {V : Type 0} (m : Move T) (s t : Store V) (d : Dirty)
      → Tracks {T = T} res default r q apart not_stack s t d
      → Leaves q m
      → (out : List (Move T)) × (d' : Dirty) × (one_move res default r (some q) m d
          ≡ some (out, d'))
        × Tracks {T = T} res default r q apart not_stack (write s m.dst (s m.src)) (exec out t) d'
        × All (IsPossible res) out
  unfolding one_move is_stack_to_stack_move restore exec
  one_move-Tracks m s t d h ok =
      elim (Bool-cases (res.is_stack_alloc m.src && res.is_stack_alloc m.dst)) [
        | inl e ↦
            let ns = stack_ne res r m.src not_stack (and-left _ (res.is_stack_alloc m.dst) e) in
            let nd = stack_ne res r m.dst not_stack (and-right (res.is_stack_alloc m.src) _ e) in
            (
              (expand res default r (some q) m d).0,
              (expand res default r (some q) m d).1,
              rw e refl,
              expand-Tracks res default r q apart not_stack m s t d h ok ns nd,
              expand-IsPossible m d,
            )
        | inr possible ↦ elim (Bool-cases (alloc_eq m.src r && d.scratch_dirty)) [
          | inl e ↦
              let d1 : Dirty = record d { scratch_dirty = false } in
              let h1 =
                restored res default r q apart not_stack s t d h
                  (and-right (alloc_eq m.src r) d.scratch_dirty e) in
              (
                copy_move res default r (some q) q r ∷ m ∷ [],
                overwrite res default r (some q) m d1,
                rw possible (rw e refl),
                plain-Tracks res default r q apart not_stack m s (write t r (t q)) d1 h1 ok
                    (λ z. refl),
                (back-IsPossible, (possible, tt)),
              )
          | inr e ↦ (
            m ∷ [],
            overwrite res default r (some q) m d,
            rw possible (rw e refl),
            plain-Tracks res default r q apart not_stack m s t d h ok (clean e),
            (possible, tt),
          )
        ]
      ]
    where
      clean : (alloc_eq m.src r && d.scratch_dirty) ≡ false → m.src ≡ r → d.scratch_dirty ≡ false
      clean e same = elim (alloc_cases m.src r) [
        | inl (_, y) ↦ rw y at e
        | inr (ne, _) ↦ absurd (ne same)
      ]

  -- The expanded moves leave in every place but the slot what the moves leave.
  pub expand_all-Tracks :
      {V : Type 0} (ms : List (Move T)) (s t : Store V) (d : Dirty)
      → Tracks {T = T} res default r q apart not_stack s t d
      → All (Leaves q) ms
      → (out : List (Move T)) × (expand_all res default r (some q) ms d ≡ some out)
        × ((a : Allocation) → a ≢ q → exec out t a ≡ exec ms s a)
        × All (IsPossible res) out
  unfolding expand_all last_restore exec
  expand_all-Tracks [] s t d h ok = elim (Bool-cases d.scratch_dirty) [
    | inl e ↦ (
      copy_move res default r (some q) q r ∷ [],
      rw e refl,
      λ a ne. put_back (restored res default r q apart not_stack s t d h e) a ne,
      (back-IsPossible, tt),
    )
    | inr e ↦ ([], rw e refl, λ a ne. at_rest e a ne, tt)
  ]
    where
      at_rest : d.scratch_dirty ≡ false → (a : Allocation) → a ≢ q → t a ≡ s a
      at_rest e a ne = elim (alloc_cases r a) [
        | inl (same, _) ↦ subst (λ x. t x ≡ s x) same (h.scratch e)
        | inr (nr, _) ↦ h.elsewhere a (λ x. nr (sym x)) ne
      ]

      put_back :
          Tracks {T = T} res default r q apart not_stack s
            (write t r (t q))
            (record d { scratch_dirty = false })
          → (a : Allocation) → a ≢ q
          → write t r (t q) a ≡ s a
      put_back k a ne = elim (alloc_cases r a) [
        | inl (same, _) ↦ subst (λ x. write t r (t q) x ≡ s x) same (k.scratch refl)
        | inr (nr, _) ↦ k.elsewhere a (λ x. nr (sym x)) ne
      ]
  expand_all-Tracks (m ∷ ms) s t d h ok =
      let (out, d', e, h', possible) = one_move-Tracks m s t d h ok.0 in
      let (rest, e', same, possible') =
        expand_all-Tracks ms (write s m.dst (s m.src)) (exec out t) d' h' ok.1 in
      (
        out ++ rest,
        rw e (rw e' refl),
        λ a ne. ap (λ k. k a) (exec-append out rest t) ∙ same a ne,
        All-append (IsPossible res) out rest possible possible',
      )
