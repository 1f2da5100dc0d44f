-- ===== src/Ion/RedundantMoves.antt =====
-- Redundant-move elimination (`RedundantMoveEliminator` in src/ion/redundant_moves.rs). A hash map is
-- a function to options. `none` is a panic.
use regalloc.Prelude.{
  ℕ, Option, none, some, ◌>>=◌, List, [], ◌∷◌, ◌++◌, Bool, true, false, not, ◌||◌, if◌then◌else◌,
}
pub mod Copies
pub mod Sound
pub mod Trace
use regalloc.Reg.VReg.{VReg}
use regalloc.Allocation.{Allocation, alloc_eq, is_reg}

pub data RedundantMoveState : Type 0 where
  copy : Allocation → Option VReg → RedundantMoveState
  orig : VReg → RedundantMoveState
  untracked : RedundantMoveState

pub record RedundantMoveEliminator : Type 0 where
  pub allocs : Allocation → Option RedundantMoveState
  pub reverse_allocs : Allocation → Option (List Allocation)

unfoldable pub insert :
    {A : Type 0} → (Allocation → Option A) → Allocation → A → Allocation → Option A
insert map key value k = if alloc_eq key k then some value else map k

unfoldable pub remove : {A : Type 0} → (Allocation → Option A) → Allocation → Allocation → Option A
remove map key k = if alloc_eq key k then none else map k

abbrev pub empty : RedundantMoveEliminator
empty = record { allocs = λ k. none; reverse_allocs = λ k. none }

-- `allocs.get(&alloc).unwrap_or(RedundantMoveState::None)`
unfoldable pub state_of : Option RedundantMoveState → RedundantMoveState
state_of (some s) = s
state_of none = untracked

unfoldable pub vreg_of : RedundantMoveState → Option VReg
vreg_of (copy _ opt_r) = opt_r
vreg_of (orig r) = some r
vreg_of untracked = none

unfoldable pub or_else : {A : Type 0} → Option A → Option A → Option A
or_else (some a) b = some a
or_else none b = b

-- One entry on the list of copies: it is first demoted where it stands, and then removed.
unfoldable pub demote : RedundantMoveState → RedundantMoveState
demote (copy _ (some vreg)) = orig vreg
demote _ = untracked

unfoldable pub invalidate :
    Allocation → (Allocation → Option RedundantMoveState) → Allocation → Option RedundantMoveState
unfolding insert remove demote
invalidate to_inval allocs = elim (allocs to_inval) [
  | some val ↦ remove (insert allocs to_inval (demote val)) to_inval
  | none ↦ remove allocs to_inval
]

unfoldable pub drain :
    List Allocation
    → (Allocation → Option RedundantMoveState)
    → Allocation
    → Option RedundantMoveState
unfolding invalidate
drain [] allocs = allocs
drain (to_inval ∷ rest) allocs = drain rest (invalidate to_inval allocs)

unfoldable pub clear_alloc : RedundantMoveEliminator → Allocation → RedundantMoveEliminator
unfolding drain remove insert
clear_alloc r alloc = elim (r.reverse_allocs alloc) [
  | some existing_copies ↦ record {
    allocs = remove (drain existing_copies r.allocs) alloc;
    reverse_allocs = insert r.reverse_allocs alloc [];
  }
  | none ↦ record r { allocs = remove r.allocs alloc }
]

unfoldable pub clear : RedundantMoveEliminator → RedundantMoveEliminator
clear r = empty

unfoldable pub is_copy_of : RedundantMoveState → Allocation → Bool
is_copy_of (copy orig_alloc _) a = alloc_eq orig_alloc a
is_copy_of _ a = false

-- `entry(from).or_insert_with(|| smallvec![]).push(to)`
unfoldable pub push_copy :
    (Allocation → Option (List Allocation))
    → Allocation
    → Allocation
    → Allocation
    → Option (List Allocation)
unfolding insert
push_copy map from to = elim (map from) [
  | some copies ↦ insert map from (copies ++ to ∷ [])
  | none ↦ insert map from (to ∷ [])
]

-- `from.is_reg() || to.is_reg()`
unfoldable pub tracked : Allocation → Allocation → Option Bool
tracked from to = do a ← is_reg from; if a then some true else is_reg to

unfoldable pub record_copy :
    RedundantMoveEliminator → Allocation → Allocation → Option VReg → RedundantMoveEliminator
unfolding insert push_copy
record_copy r from to dst_vreg = record {
  allocs = insert r.allocs to (copy from dst_vreg);
  reverse_allocs = push_copy r.reverse_allocs from to;
}

unfoldable pub elides : RedundantMoveState → RedundantMoveState → Allocation → Allocation → Bool
unfolding is_copy_of
elides from_state to_state from to = is_copy_of to_state from || is_copy_of from_state to

-- The move past the early return, by the states of its two ends.
unfoldable pub process_copy :
    RedundantMoveEliminator
    → Allocation
    → Allocation
    → Option VReg
    → RedundantMoveState
    → RedundantMoveState
    → Option (Bool × RedundantMoveEliminator)
unfolding clear_alloc elides tracked record_copy vreg_of or_else
process_copy r from to to_vreg from_state to_state =
    let elide = elides from_state to_state from to in
    let r' = if elide then r else clear_alloc r to in
    let dst_vreg = or_else to_vreg (vreg_of from_state) in
    tracked from to >>= λ t. some (elide, if t then record_copy r' from to dst_vreg else r')

-- `process_move`: whether the move is elided, and the next state.
unfoldable pub process_move :
    RedundantMoveEliminator
    → Allocation
    → Allocation
    → Option VReg
    → Option (Bool × RedundantMoveEliminator)
unfolding clear_alloc insert state_of process_copy
process_move r from to to_vreg =
    let past = process_copy r from to to_vreg (state_of (r.allocs from)) (state_of (r.allocs to)) in
    if alloc_eq from to
    then elim to_vreg [
      | some v ↦
          let cleared = clear_alloc r to in
          some (true, record cleared { allocs = insert cleared.allocs to (orig v) })
      | none ↦ past
    ]
    else past

-- What `insert_moves` meets in order: a move to place, an allocation that an instruction writes,
-- defines or clobbers, or the boundary of a block.
pub data Event : Type 0 where
  moved : Allocation → Allocation → Option VReg → Event
  written : Allocation → Event
  crossed : Event

-- The eliminator run over them: for each event whether it stays in the program.
unfoldable pub process_all :
    RedundantMoveEliminator → List Event → Option (List Bool × RedundantMoveEliminator)
unfolding process_move clear_alloc clear
process_all r [] = some ([], r)
process_all r (moved from to to_vreg ∷ es) = process_move r from to to_vreg >>= λ (elide, r').
    process_all r' es >>= λ (stay, r''). some (not elide ∷ stay, r'')
process_all r (written a ∷ es) =
    process_all (clear_alloc r a) es >>= λ (stay, r''). some (true ∷ stay, r'')
process_all r (crossed ∷ es) = process_all (clear r) es >>= λ (stay, r''). some (true ∷ stay, r'')
