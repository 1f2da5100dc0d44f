-- ===== src/Moves.antt =====
-- Parallel moves in sequence (`ParallelMoves` and `MoveVecWithScratch` in src/moves.rs). The
-- vectors `ret` and `stack` are lists whose head is the back of the vector, so that `ret.reverse()`
-- reads the list from its head. `none` is a panic, or a loop that has run out of its fuel.
use regalloc.Prelude.{
  ℕ, zero, suc, ◌+◌, ◌*◌, ◌≤◌, ◌<◌, bit_or, ◌≡◌, refl, Option, none, some, ◌>>=◌, is_some, List, [],
  ◌∷◌, ◌++◌, map, Bool, true, false, not, ◌&&◌, ◌||◌, ◌==◌, leb, if◌then◌else◌, length, get_elem?,
  set, replicate,
}
pub mod Store
pub mod Emitted
pub mod Stack
pub mod Until
pub mod Cycle
pub mod Visit
pub mod Round
pub mod Run
pub mod Prepare
pub mod Places
pub mod Effect
pub mod Fill
pub mod Sequence
pub mod Resolve
pub mod Scratch
use mathlib.Core.Option
use regalloc.Prelude.Bits.{shl}
use regalloc.Allocation.{Allocation, alloc_eq, no_alloc, is_none}

-- One move with auxiliary data, an entry of a `MoveVec`.
pub record Move (T : Type 0) : Type 0 where
  pub src : Allocation
  pub dst : Allocation
  pub info : T

pub data MoveVecWithScratch (T : Type 0) : Type 0 where
  no_scratch scratch : List (Move T) → MoveVecWithScratch T

-- `u64_key` of src/ion/data_structures.rs, the more significant half first.
unfoldable pub u64_key : ℕ → ℕ → ℕ
u64_key b a = bit_or a (shl 64 b 32)

pub data Phase : Type 0 where
  todo pending done : Phase

-- The variables of the search in `resolve`.
pub record Search (T : Type 0) : Type 0 where
  pub ret : List (Move T)
  pub stack : List ℕ
  pub state : List Phase
  pub scratch_used : Bool

-- The first move that is still to do.
unfoldable pub first_todo : List Phase → Option ℕ
first_todo [] = none
first_todo (todo ∷ ps) = some 0
first_todo (_ ∷ ps) = Option.map suc (first_todo ps)

-- `if place.is_none() { *place = scratch; }`, which panics if the kind of the place cannot be read.
unfoldable pub fill : Allocation → Allocation → Option Allocation
unfolding is_none
fill s a = is_none a >>= λ empty. some (if empty then s else a)

module _ {T : Type 0} where
  unfoldable pub add : List (Move T) → Allocation → Allocation → T → List (Move T)
  add moves from to t = moves ++ record { src = from; dst = to; info = t } ∷ []

  unfoldable pub sort_key : Move T → ℕ
  unfolding u64_key
  sort_key m = u64_key m.dst.bits m.src.bits

  -- `sort_by_key`, which is stable.
  unfoldable pub insert_sorted : Move T → List (Move T) → List (Move T)
  unfolding sort_key
  insert_sorted m [] = m ∷ []
  insert_sorted m (x ∷ xs) =
      if leb (sort_key m) (sort_key x) then m ∷ x ∷ xs else x ∷ insert_sorted m xs

  unfoldable pub sort : List (Move T) → List (Move T)
  unfolding insert_sorted
  sort [] = []
  sort (m ∷ ms) = insert_sorted m (sort ms)

  -- `dedup` by the derived equality of triples: of equal neighbours the first stays.
  unfoldable pub move_eq : (T → T → Bool) → Move T → Move T → Bool
  move_eq same a b = alloc_eq a.src b.src && alloc_eq a.dst b.dst && same a.info b.info

  unfoldable pub dedup_from : (T → T → Bool) → Move T → List (Move T) → List (Move T)
  unfolding move_eq
  dedup_from same m [] = m ∷ []
  dedup_from same m (x ∷ xs) =
      let rest = dedup_from same x xs in
      let skip = dedup_from same m xs in if move_eq same x m then skip else m ∷ rest

  unfoldable pub dedup : (T → T → Bool) → List (Move T) → List (Move T)
  unfolding dedup_from
  dedup same [] = []
  dedup same (m ∷ ms) = dedup_from same m ms

  -- `retain(|(src, dst, _)| src != dst)`
  unfoldable pub drop_self_moves : List (Move T) → List (Move T)
  drop_self_moves [] = []
  drop_self_moves (m ∷ ms) =
      let rest = drop_self_moves ms in if alloc_eq m.src m.dst then rest else m ∷ rest

  -- `binary_search_by_key(&a, |(_, dst, _)| dst)` on moves sorted by destinations that differ: the
  -- one place where `a` is written.
  unfoldable pub find_dst : List (Move T) → Allocation → Option ℕ
  find_dst [] a = none
  find_dst (m ∷ ms) a = if alloc_eq m.dst a then some 0 else Option.map suc (find_dst ms a)

  unfoldable pub any_src_in : List (Move T) → List (Move T) → Bool
  unfolding find_dst
  any_src_in all [] = false
  any_src_in all (m ∷ ms) = is_some (find_dst all m.src) || any_src_in all ms

  unfoldable pub sources_overlap_dests : List (Move T) → Bool
  unfolding any_src_in
  sources_overlap_dests ms = any_src_in ms ms

  unfoldable pub must_come_before : List (Move T) → List (Option ℕ)
  unfolding find_dst
  must_come_before ms = map (λ m. find_dst ms m.src) ms

  -- `ret.push(self.parallel_moves[i]); state[i] = State::Done`
  unfoldable pub emit : List (Move T) → ℕ → Search T → Option (Search T)
  emit ms i d =
      get_elem? ms i >>= λ m. some (record d { ret = m ∷ d.ret; state = set d.state i done })

  -- `while let Some(top) = stack.pop()`
  unfoldable pub emit_stack : List (Move T) → List ℕ → Search T → Option (Search T)
  unfolding emit
  emit_stack ms [] d = some (record d { stack = [] })
  emit_stack ms (i ∷ rest) d = emit ms i d >>= emit_stack ms rest

  -- The same loop with `if move_idx == next { break; }`.
  unfoldable pub emit_until : List (Move T) → ℕ → List ℕ → Search T → Option (Search T)
  unfolding emit
  emit_until ms next [] d = some (record d { stack = [] })
  emit_until ms next (i ∷ rest) d = emit ms i d >>= λ d'.
      if i == next then some (record d' { stack = rest }) else emit_until ms next rest d'

  -- A cycle from `next` up to the top of the stack, through the scratch space.
  unfoldable pub emit_cycle : T → List (Move T) → ℕ → ℕ → List ℕ → Search T → Option (Search T)
  unfolding emit_until
  emit_cycle default ms top next rest d = get_elem? ms top >>= λ m.
      emit_until ms next rest (record d {
        ret = record m { src = no_alloc } ∷ d.ret;
        state = set d.state top done;
        scratch_used = true;
      })
      >>= λ d'.
          some (record d' { ret = record { src = m.src; dst = no_alloc; info = default } ∷ d'.ret })

  -- What is done with a move on the stack, by the state of the move that it must come before.
  unfoldable pub visit_next :
      T → List (Move T) → ℕ → List ℕ → Search T → ℕ → Phase → Option (Search T)
  unfolding emit_stack emit_cycle
  visit_next default ms top rest d next done = emit_stack ms (top ∷ rest) d
  visit_next default ms top rest d next todo =
      some (record d { stack = next ∷ top ∷ rest; state = set d.state next pending })
  visit_next default ms top rest d next pending = emit_cycle default ms top next rest d

  unfoldable pub visit : T → List (Move T) → ℕ → List ℕ → Search T → Option ℕ → Option (Search T)
  unfolding visit_next emit_stack
  visit default ms top rest d none = emit_stack ms (top ∷ rest) d
  visit default ms top rest d (some next) =
      get_elem? d.state next >>= visit_next default ms top rest d next

  -- `while let Some(&top) = stack.last()`
  unfoldable pub run_stack : ℕ → T → List (Move T) → Search T → Option (Search T)
  unfolding visit must_come_before
  run_stack zero default ms d = none
  run_stack (suc fuel) default ms d = elim d.stack [
    | [] ↦ some d
    | top ∷ rest ↦
        get_elem? (must_come_before ms) top
        >>= visit default ms top rest d
        >>= run_stack fuel default ms
  ]

  unfoldable pub stack_fuel : List (Move T) → ℕ
  stack_fuel ms = suc (suc (2 * length ms))

  -- `while let Some(next) = state.iter().position(|&state| state == State::ToDo)`
  unfoldable pub run_all : ℕ → T → List (Move T) → Search T → Option (Search T)
  unfolding run_stack first_todo stack_fuel
  run_all zero default ms d = none
  run_all (suc fuel) default ms d = elim (first_todo d.state) [
    | none ↦ some d
    | some next ↦
        run_stack (stack_fuel ms) default ms
          (record d { stack = next ∷ d.stack; state = set d.state next pending })
        >>= run_all fuel default ms
  ]

  abbrev pub start : List (Move T) → Search T
  start ms = record {
    ret = [];
    stack = [];
    state = replicate (length ms) todo;
    scratch_used = false;
  }

  abbrev pub finish : Search T → MoveVecWithScratch T
  finish d = if d.scratch_used then scratch d.ret else no_scratch d.ret

  -- `resolve` behind the sort, on moves that differ and move something.
  unfoldable pub sequentialize : T → List (Move T) → Option (MoveVecWithScratch T)
  unfolding sources_overlap_dests run_all
  sequentialize default ms =
      if sources_overlap_dests ms
      then (run_all (suc (length ms)) default ms (start ms) >>= λ d. some (finish d))
      else some (no_scratch ms)

  unfoldable pub resolve : (T → T → Bool) → T → List (Move T) → Option (MoveVecWithScratch T)
  unfolding sort dedup drop_self_moves sequentialize
  resolve same default ms =
      if leb (length ms) 1
      then some (no_scratch ms)
      else sequentialize default (drop_self_moves (dedup same (sort ms)))

  unfoldable pub fill_move : Allocation → Move T → Option (Move T)
  unfolding fill
  fill_move s m =
      fill s m.src >>= λ src. fill s m.dst >>= λ dst. some (record m { src = src; dst = dst })

  unfoldable pub fill_moves : Allocation → List (Move T) → Option (List (Move T))
  unfolding fill_move
  fill_moves s [] = some []
  fill_moves s (m ∷ ms) = fill_move s m >>= λ m'. fill_moves s ms >>= λ rest. some (m' ∷ rest)

  unfoldable pub with_scratch : MoveVecWithScratch T → Allocation → Option (List (Move T))
  unfolding fill_moves
  with_scratch (no_scratch ms) s = some ms
  with_scratch (scratch ms) s = fill_moves s ms

  -- The two debug assertions of `with_scratch` about one move.
  unfoldable pub asserted : Allocation → Move T → Option Bool
  unfolding is_none
  asserted s m = is_none m.src >>= λ from_scratch. is_none m.dst >>= λ to_scratch.
      some (not (alloc_eq m.src s) && not (alloc_eq m.dst s) && not (from_scratch && to_scratch))

  unfoldable pub all_asserted : Allocation → List (Move T) → Option Bool
  unfolding asserted
  all_asserted s [] = some true
  all_asserted s (m ∷ ms) = asserted s m >>= λ b. all_asserted s ms >>= λ rest. some (b && rest)

  unfoldable pub with_scratch_assert : MoveVecWithScratch T → Allocation → Option Bool
  unfolding all_asserted
  with_scratch_assert (no_scratch ms) s = some true
  with_scratch_assert (scratch ms) s = all_asserted s ms

  unfoldable pub without_scratch : MoveVecWithScratch T → Option (List (Move T))
  without_scratch (no_scratch ms) = some ms
  without_scratch (scratch ms) = none

  unfoldable pub needs_scratch : MoveVecWithScratch T → Bool
  needs_scratch (no_scratch ms) = false
  needs_scratch (scratch ms) = true
