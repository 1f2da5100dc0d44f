-- ===== src/Moves/Scratch/Compute.antt =====
-- `compute` as a whole.
use regalloc.Prelude.{
  ◌≡◌, ◌≢◌, inl, inr, refl, sym, ap, ◌∙◌, subst, Option, none, some, List, [], ◌∷◌, ◌++◌, true,
  false, ◌&&◌, Bool-cases, All, All-append,
}
use regalloc.Allocation.{Allocation, alloc_eq}
use regalloc.Moves.{Move, MoveVecWithScratch}
use regalloc.Moves.Store.{Store, write, write_self, write_ne, exec, alloc_cases}
use regalloc.Moves.Scratch.{
  MoveAndScratchResolver, Dirty, is_stack_to_stack_move, any_stack_to_stack, through, expand,
  overwrite, restore, one_move, last_restore, expand_all, choose_scratch, compute_moves,
  fill_cycle_scratch, compute,
}
use regalloc.Moves.Scratch.Borrowed.{exec-append, Leaves}
use regalloc.Moves.Scratch.Loop.{IsPossible, left_false, right_false, expand_all-Tracks}

-- With a free register, which no move mentions, nothing needs to be saved.
module _ {S T : Type 0} (res : MoveAndScratchResolver S) (default : T) (r : Allocation)
    (not_stack : res.is_stack_alloc r ≡ false) where
  one_free :
      {V : Type 0} (m : Move T) (s t : Store V) (d : Dirty)
      → ((a : Allocation) → a ≢ r → t a ≡ s a)
      → Leaves r m
      → (out : List (Move T)) × (d' : Dirty) × (one_move res default r none m d ≡ some (out, d'))
        × ((a : Allocation) → a ≢ r → exec out t a ≡ write s m.dst (s m.src) a)
        × All (IsPossible res) out
  unfolding one_move is_stack_to_stack_move restore expand exec
  one_free m s t d h ok = elim (Bool-cases (res.is_stack_alloc m.src && res.is_stack_alloc m.dst)) [
    | inl e ↦ (
      through res default r none m,
      record d { scratch_dirty = true },
      rw e refl,
      λ a ne.
          moved_value (write t r (t m.src)) (write t r (t m.src) r)
            (write_self t r (t m.src) ∙ h m.src ok.0)
            (λ b nb. write_ne t r b (t m.src) (λ q. nb (sym q)) ∙ h b nb) a ne,
      (
        right_false (res.is_stack_alloc m.src) (res.is_stack_alloc r) not_stack,
        (left_false (res.is_stack_alloc r) (res.is_stack_alloc m.dst) not_stack, tt),
      ),
    )
    | inr possible ↦ (
      m ∷ [],
      overwrite res default r none m d,
      rw possible (rw unread refl),
      λ a ne. moved_value t (t m.src) (h m.src ok.0) h a ne,
      (possible, tt),
    )
  ]
    where
      unread : alloc_eq m.src r ≡ false
      unread = elim (alloc_cases m.src r) [ inl (e, _) ↦ absurd (ok.0 e) | inr (_, e) ↦ e ]

      moved_value :
          (u : Store _) (v : _)
          → v ≡ s m.src
          → ((b : Allocation) → b ≢ r → u b ≡ s b)
          → (a : Allocation) → a ≢ r
          → write u m.dst v a ≡ write s m.dst (s m.src) a
      moved_value u v e k a ne = elim (alloc_cases m.dst a) [
        | inl (same, _) ↦
            subst (λ x. write u m.dst v x ≡ write s m.dst (s m.src) x) same
              (write_self u m.dst v ∙ e ∙ sym (write_self s m.dst (s m.src)))
        | inr (n, _) ↦ write_ne u m.dst a v n ∙ k a ne ∙ sym (write_ne s m.dst a (s m.src) n)
      ]

  expand_all-free :
      {V : Type 0} (ms : List (Move T)) (s t : Store V) (d : Dirty)
      → ((a : Allocation) → a ≢ r → t a ≡ s a)
      → All (Leaves r) ms
      → (out : List (Move T)) × (expand_all res default r none ms d ≡ some out)
        × ((a : Allocation) → a ≢ r → exec out t a ≡ exec ms s a)
        × All (IsPossible res) out
  unfolding expand_all last_restore exec
  expand_all-free [] s t d h ok = ([], refl, h, tt)
  expand_all-free (m ∷ ms) s t d h ok =
      let (out, d', e, h', possible) = one_free m s t d h ok.0 in
      let (rest, e', same, possible') =
        expand_all-free ms (write s m.dst (s m.src)) (exec out t) d' h' ok.1 in
      (
        out ++ rest,
        rw e (rw e' refl),
        λ a ne. ap (λ k. k a) (exec-append out rest t) ∙ same a ne,
        All-append (IsPossible res) out rest possible possible',
      )

-- The scratch register and the save slot that the caller's state yields.
abbrev pub Choice : Type 0
Choice = Allocation × Option Allocation

-- A free register is not mentioned by the moves; a borrowed one has a save slot that is not. Neither
-- is on the stack.
abbrev pub Fits : {S T : Type 0} → MoveAndScratchResolver S → List (Move T) → Choice → Type 0
Fits res ms (r, none) = (res.is_stack_alloc r ≡ false) × All (Leaves r) ms
Fits res ms (r, some q) = (res.is_stack_alloc r ≡ false) × (r ≢ q) × All (Leaves q) ms

-- The place that the expansion may change: the free register, or the save slot.
abbrev pub spent : Choice → Allocation
spent (r, none) = r
spent (r, some q) = q

module _ {S T : Type 0} (res : MoveAndScratchResolver S) (default : T) where
  chosen :
      {V : Type 0} (c : Choice) (ms : List (Move T)) (st : Store V)
      → Fits res ms c
      → (out : List (Move T)) × (expand_all res default c.0 c.1 ms
            (record { scratch_dirty = false; save_dirty = true })
          ≡ some out)
        × ((a : Allocation) → a ≢ spent c → exec out st a ≡ exec ms st a)
        × All (IsPossible res) out
  chosen (r, none) ms st (not_stack, ok) =
      expand_all-free res default r not_stack ms st st
        (record { scratch_dirty = false; save_dirty = true }) (λ a ne. refl) ok
  chosen (r, some q) ms st (not_stack, apart, ok) =
      expand_all-Tracks res default r q apart not_stack ms st st
        (record { scratch_dirty = false; save_dirty = true })
        (record {
          elsewhere = λ a nr nq. refl;
          scratch = λ e. refl;
          saved = λ e. cc e;
          flags = λ e. cc e;
        })
        ok

  none-IsPossible :
      (ms : List (Move T)) → any_stack_to_stack res default ms ≡ false → All (IsPossible res) ms
  unfolding any_stack_to_stack is_stack_to_stack_move
  none-IsPossible [] h = tt
  none-IsPossible (m ∷ ms) h =
      elim (Bool-cases (res.is_stack_alloc m.src && res.is_stack_alloc m.dst)) [
        | inl e ↦ cc (rw e at h)
        | inr e ↦ (e, none-IsPossible ms (rw e at h))
      ]

  -- For every resolved list of moves, filled in by the caller's closures to `ms`, such that the
  -- scratch register and save slot that they yield next fit `ms`: `compute` returns, no move of its
  -- result is from stack to stack, and run from any store the result leaves in every place what
  -- `ms` leaves there, but for the free register or else the save slot; so a borrowed register has
  -- its value at the end.
  pub compute-exec :
      {V : Type 0} (moves : MoveVecWithScratch T) (ms : List (Move T)) (s s' : S) (st : Store V)
      → fill_cycle_scratch res default moves s ≡ (some ms, s')
      → Fits res ms (choose_scratch res default s').0
      → (out : List (Move T)) × (compute res default moves s ≡ some out)
        × ((a : Allocation)
            → a ≢ spent (choose_scratch res default s').0
            → exec out st a ≡ exec ms st a)
        × All (IsPossible res) out
  unfolding compute compute_moves
  compute-exec moves ms s s' st e fits = elim (Bool-cases (any_stack_to_stack res default ms)) [
    | inl some_left ↦
        let (out, runs, same, possible) = chosen (choose_scratch res default s').0 ms st fits in
        (out, rw e (rw some_left runs), same, possible)
    | inr none_left ↦ (ms, rw e (rw none_left refl), λ a ne. refl, none-IsPossible ms none_left)
  ]
