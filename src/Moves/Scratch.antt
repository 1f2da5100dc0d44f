-- ===== src/Moves/Scratch.antt =====
-- Moves between stack slots through a register (`MoveAndScratchResolver` in src/moves.rs). The
-- closures are functions that pass the caller's state on; `none` is a panic.
use regalloc.Prelude.{
  Option, none, some, ◌>>=◌, List, [], ◌∷◌, ◌++◌, Bool, true, false, not, ◌&&◌, ◌||◌, if◌then◌else◌,
}
pub mod Borrowed
pub mod Loop
pub mod Compute
use regalloc.Reg.PReg.{PReg}
use regalloc.Allocation.{Allocation, alloc_eq, reg}
use regalloc.Moves.{Move, MoveVecWithScratch, with_scratch, without_scratch, needs_scratch}

pub record MoveAndScratchResolver (S : Type 0) : Type 0 where
  pub find_free_reg : S → Option Allocation × S
  pub get_stackslot : S → Allocation × S
  pub is_stack_alloc : Allocation → Bool
  pub borrowed_scratch_reg : PReg

-- The two flags of the loop.
pub record Dirty : Type 0 where
  pub scratch_dirty : Bool
  pub save_dirty : Bool

module _ {S T : Type 0} (res : MoveAndScratchResolver S) (default : T) where
  unfoldable pub is_stack_to_stack_move : Allocation → Allocation → Bool
  is_stack_to_stack_move src dst = res.is_stack_alloc src && res.is_stack_alloc dst

  unfoldable pub any_stack_to_stack : List (Move T) → Bool
  unfolding is_stack_to_stack_move
  any_stack_to_stack [] = false
  any_stack_to_stack (m ∷ ms) = is_stack_to_stack_move m.src m.dst || any_stack_to_stack ms

  -- What is pushed for one move, and the flags behind it, with a register to go through and the
  -- slot that its value is saved in, if it was borrowed.
  module _ (scratch_reg : Allocation) (save_slot : Option Allocation) where
    abbrev pub through : Move T → List (Move T)
    through m = record m { dst = scratch_reg } ∷ record m { src = scratch_reg } ∷ []

    abbrev pub copy_move : Allocation → Allocation → Move T
    copy_move a b = record { src = a; dst = b; info = default }

    unfoldable pub expand : Move T → Dirty → List (Move T) × Dirty
    expand m d = elim save_slot [
      | some slot ↦
          if d.save_dirty
          then (
            copy_move scratch_reg slot ∷ through m,
            record { scratch_dirty = true; save_dirty = false },
          )
          else (through m, record d { scratch_dirty = true })
      | none ↦ (through m, record d { scratch_dirty = true })
    ]

    -- The flags once a move has written its destination.
    unfoldable pub overwrite : Move T → Dirty → Dirty
    overwrite m d =
        if alloc_eq m.dst scratch_reg
        then record { scratch_dirty = false; save_dirty = true }
        else d

    unfoldable pub restore : Move T → Dirty → Option (List (Move T) × Dirty)
    restore m d =
        if alloc_eq m.src scratch_reg && d.scratch_dirty
        then (save_slot >>= λ slot.
            some (copy_move slot scratch_reg ∷ [], record d { scratch_dirty = false }))
        else some ([], d)

    unfoldable pub one_move : Move T → Dirty → Option (List (Move T) × Dirty)
    unfolding is_stack_to_stack_move expand restore overwrite
    one_move m d =
        if is_stack_to_stack_move m.src m.dst
        then some (expand m d)
        else (restore m d >>= λ (before, d'). some (before ++ m ∷ [], overwrite m d'))

    -- The restoration behind the last move.
    unfoldable pub last_restore : Dirty → List (Move T)
    last_restore d = elim save_slot [
      | some slot ↦ if d.scratch_dirty then copy_move slot scratch_reg ∷ [] else []
      | none ↦ []
    ]

    unfoldable pub expand_all : List (Move T) → Dirty → Option (List (Move T))
    unfolding one_move last_restore
    expand_all [] d = some (last_restore d)
    expand_all (m ∷ ms) d =
        one_move m d >>= λ (out, d'). expand_all ms d' >>= λ rest. some (out ++ rest)

  -- The moves with the scratch space of a cycle filled in, and the caller's state.
  unfoldable pub fill_cycle_scratch : MoveVecWithScratch T → S → Option (List (Move T)) × S
  unfolding with_scratch without_scratch needs_scratch
  fill_cycle_scratch moves s =
      if needs_scratch moves
      then (let (free, s1) = res.find_free_reg s in
          elim free [
            | some a ↦ (with_scratch moves a, s1)
            | none ↦ let (slot, s2) = res.get_stackslot s1 in (with_scratch moves slot, s2)
          ])
      else (without_scratch moves, s)

  unfoldable pub choose_scratch : S → (Allocation × Option Allocation) × S
  choose_scratch s =
      let (free, s1) = res.find_free_reg s in
      elim free [
        | some a ↦ ((a, none), s1)
        | none ↦
            let (slot, s2) = res.get_stackslot s1 in ((reg res.borrowed_scratch_reg, some slot), s2)
      ]

  unfoldable pub compute_moves : List (Move T) → S → Option (List (Move T))
  unfolding any_stack_to_stack choose_scratch expand_all
  compute_moves moves s =
      if any_stack_to_stack moves
      then (let ((scratch_reg, save_slot), s') = choose_scratch s in
          expand_all scratch_reg save_slot moves
            (record { scratch_dirty = false; save_dirty = true }))
      else some moves

  unfoldable pub compute : MoveVecWithScratch T → S → Option (List (Move T))
  unfolding fill_cycle_scratch compute_moves
  compute moves s =
      let (filled, s') = fill_cycle_scratch moves s in filled >>= λ ms. compute_moves ms s'
