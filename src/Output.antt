-- ===== src/Output.antt =====
-- The result of the allocator and its iteration, block by block (`Output`, `OutputIter` and `Edit` of
-- src/lib.rs).
pub mod Merge
pub mod Allocs
use regalloc.Prelude.{
  ℕ, zero, suc, ◌+◌, ◌≤◌, ◌<◌, Option, none, some, ◌>>=◌, List, [], ◌∷◌, Bool, true, false, leb,
  ltb, length, get_elem?, ◌-◌, if◌then◌else◌, ◌==◌,
}
use regalloc.Allocation.{Allocation}
use regalloc.Index
use regalloc.Index.{Inst, Block, InstRange, first, rest, len}
use regalloc.ProgPoint
use regalloc.ProgPoint.{ProgPoint}
use regalloc.Function.{Function}

pub data Edit : Type 0 where
  move : (from to : Allocation) → Edit

pub data InstOrEdit : Type 0 where
  inst : Inst → InstOrEdit
  edit : Edit → InstOrEdit

abbrev pub Edits : Type 0
Edits = List (ProgPoint × Edit)

pub record OutputIter : Type 0 where
  pub edits : Edits
  pub inst_range : InstRange

pub record Output : Type 0 where
  pub num_spillslots : ℕ
  pub edits : Edits
  pub allocs : List Allocation
  pub inst_alloc_offsets : List ℕ

-- Whether an edit comes before an instruction.
unfoldable pub comes_before : ProgPoint → Inst → Bool
unfolding ProgPoint.before
comes_before p i = leb p.bits (ProgPoint.before i).bits

unfoldable pub next : OutputIter → Option (InstOrEdit × OutputIter)
unfolding first rest len comes_before
next it =
    let next_inst = first it.inst_range in
    let step = some (inst next_inst, record it { inst_range = rest it.inst_range }) in
    if len it.inst_range == 0 then none else elim it.edits [
      | [] ↦ step
      | e ∷ remaining_edits ↦
          if comes_before e.0 next_inst
          then some (edit e.1, record it { edits = remaining_edits })
          else step
    ]

-- The items of an iterator, at most as many as the fuel.
unfoldable pub collect : ℕ → OutputIter → List InstOrEdit
unfolding next
collect zero it = []
collect (suc n) it = elim (next it) [ none ↦ [] | some r ↦ r.0 ∷ collect n r.1 ]

-- `binary_search_by` for a point just before the first instruction, on edits sorted by their points:
-- the edits from there on.
unfoldable pub edits_from : ℕ → Edits → Edits
edits_from lo [] = []
edits_from lo (e ∷ es) = let later = edits_from lo es in if ltb e.0.bits lo then later else e ∷ es

unfoldable pub block_insts_and_edits : Function → Output → Block → OutputIter
unfolding edits_from first ProgPoint.before
block_insts_and_edits f out block =
    let inst_range = f.block_insns block in
    record {
      edits = edits_from (ProgPoint.before (first inst_range)).bits out.edits;
      inst_range = inst_range;
    }

-- All items of a block: each takes an edit or an instruction away.
unfoldable pub block_items : Function → Output → Block → List InstOrEdit
unfolding collect block_insts_and_edits len
block_items f out block =
    let it = block_insts_and_edits f out block in collect (length it.edits + len it.inst_range) it

-- `&xs[start..end]`
unfoldable pub drop : {A : Type 0} → ℕ → List A → List A
drop zero xs = xs
drop (suc n) [] = []
drop (suc n) (x ∷ xs) = drop n xs

unfoldable pub take : {A : Type 0} → ℕ → List A → List A
take zero xs = []
take (suc n) [] = []
take (suc n) (x ∷ xs) = x ∷ take n xs

unfoldable pub slice : {A : Type 0} → ℕ → ℕ → List A → Option (List A)
unfolding drop take
slice start end xs =
    if ltb end start
    then none
    else if ltb (length xs) end
    then none
    else some (take (end - start) (drop start xs))

unfoldable pub inst_allocs : Output → Inst → Option (List Allocation)
unfolding slice Index.index
inst_allocs out i = get_elem? out.inst_alloc_offsets (Index.index i) >>= λ start.
    if Index.index i + 1 == length out.inst_alloc_offsets
    then slice start (length out.allocs) out.allocs
    else (get_elem? out.inst_alloc_offsets (Index.index i + 1) >>= λ end.
        slice start end out.allocs)
