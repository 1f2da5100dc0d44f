-- ===== src/Checker.antt =====
-- The abstract state of the allocation checker and its steps (src/checker.rs). Hash sets and hash
-- maps are lists; `none` is a panic.
pub mod Errors
pub mod Analysis
pub mod Meaning
pub mod Registers
pub mod Update
pub mod Uses
pub mod Meet
pub mod Consistent
pub mod Turn
pub mod Runs
pub mod Entry
pub mod Stale
pub mod Prepare
pub mod Filling
pub mod Prepared
pub mod Sound
use regalloc.Prelude.{
  Option, none, some, ◌>>=◌, List, [], ◌∷◌, ◌++◌, map, Bool, true, false, ◌&&◌, ◌==◌, is_some,
  if◌then◌else◌,
}
use regalloc.Prelude.Sets.{
  filter, contains, extend, insert, remove, remove_all, subset, get, erase, put,
}
use regalloc.Reg.PReg.{PReg}
use regalloc.Reg.VReg.{VReg, vreg_eq}
use regalloc.Operand
use regalloc.Operand.{Operand, OperandKind, def, use_of}
use regalloc.Allocation
use regalloc.Allocation.{Allocation, alloc_eq, reg}
use regalloc.Index.{Inst}

-- The registers that a value is equal to; `universe` is all of them.
pub data CheckerValue : Type 0 where
  universe : CheckerValue
  vregs : List VReg → CheckerValue

abbrev pub Allocs : Type 0
Allocs = List (Allocation × CheckerValue)

pub data CheckerState : Type 0 where
  top : CheckerState
  allocations : Allocs → CheckerState

pub data CheckerInst : Type 0 where
  move : (into from : Allocation) → CheckerInst
  parallel_move : (moves : List (VReg × VReg)) → CheckerInst
  op :
      (inst : Inst) (operands : List Operand) (allocs : List Allocation) (clobbers : List PReg)
      → CheckerInst

abbrev pub from_reg : VReg → CheckerValue
from_reg v = vregs (v ∷ [])

unfoldable pub meet_value : CheckerValue → CheckerValue → CheckerValue
unfolding filter contains
meet_value a universe = a
meet_value universe (vregs other) = vregs other
meet_value (vregs mine) (vregs other) = vregs (filter (contains vreg_eq other) mine)

unfoldable pub remove_from_value : VReg → CheckerValue → Option CheckerValue
unfolding remove
remove_from_value v universe = none
remove_from_value v (vregs s) = some (vregs (remove vreg_eq v s))

-- Equality of sets and maps: each has what the other has.
unfoldable pub value_eq : CheckerValue → CheckerValue → Bool
unfolding subset
value_eq universe universe = true
value_eq (vregs a) (vregs b) = subset vreg_eq a b && subset vreg_eq b a
value_eq _ _ = false

unfoldable pub within : Allocs → Allocs → Bool
unfolding get value_eq
within [] other = true
within ((k, v) ∷ m) other =
    let rest = within m other in
    elim (get alloc_eq other k) [ none ↦ false | some w ↦ if value_eq v w then rest else false ]

unfoldable pub state_eq : CheckerState → CheckerState → Bool
unfolding within
state_eq top top = true
state_eq (allocations a) (allocations b) = within a b && within b a
state_eq _ _ = false

unfoldable pub get_value : CheckerState → Allocation → Option CheckerValue
unfolding get
get_value top a = none
get_value (allocations m) a = get alloc_eq m a

-- `become_defined`: the map that the state has, or has then.
unfoldable pub defined : CheckerState → Allocs
defined top = []
defined (allocations m) = m

-- `merge_map`
unfoldable pub merge_map : Allocs → Allocs → Allocs
unfolding get meet_value
merge_map [] from = []
merge_map ((k, v) ∷ m) from =
    let rest = merge_map m from in
    elim (get alloc_eq from k) [ none ↦ rest | some w ↦ (k, meet_value v w) ∷ rest ]

unfoldable pub meet_with : CheckerState → CheckerState → CheckerState
unfolding merge_map
meet_with a top = a
meet_with top (allocations other) = allocations other
meet_with (allocations mine) (allocations other) = allocations (merge_map mine other)

-- `remove_vreg` of the state.
unfoldable pub remove_vreg : VReg → Allocs → Option Allocs
unfolding remove_from_value
remove_vreg v [] = some []
remove_vreg v ((k, x) ∷ m) =
    remove_from_value v x >>= λ x'. remove_vreg v m >>= λ m'. some ((k, x') ∷ m')

-- The destinations to add for a register, of `(dest, src)` moves.
unfoldable pub additions : List (VReg × VReg) → VReg → List VReg
additions [] v = []
additions ((dest, src) ∷ moves) v =
    let rest = additions moves v in if vreg_eq src v then dest ∷ rest else rest

unfoldable pub insertions : List (VReg × VReg) → List VReg → List VReg
unfolding additions
insertions moves [] = []
insertions moves (v ∷ s) = additions moves v ++ insertions moves s

abbrev pub dests : List (VReg × VReg) → List VReg
dests moves = map (λ m. m.0) moves

unfoldable pub move_vregs : List (VReg × VReg) → CheckerValue → CheckerValue
unfolding insertions extend remove_all
move_vregs moves universe = universe
move_vregs moves (vregs s) =
    vregs (extend vreg_eq (insertions moves s) (remove_all vreg_eq (dests moves) s))

unfoldable pub move_all : List (VReg × VReg) → Allocs → Allocs
unfolding move_vregs
move_all moves [] = []
move_all moves ((k, x) ∷ m) = (k, move_vregs moves x) ∷ move_all moves m

unfoldable pub zip : {A B : Type 0} → List A → List B → List (A × B)
zip [] bs = []
zip (a ∷ as') [] = []
zip (a ∷ as') (b ∷ bs) = (a, b) ∷ zip as' bs

unfoldable pub is_def : OperandKind → Bool
is_def def = true
is_def use_of = false

unfoldable pub define_all : List (Operand × Allocation) → Allocs → Option Allocs
unfolding remove_vreg is_def put
define_all [] m = some m
define_all ((o, a) ∷ rest) m = elim (is_def (Operand.kind o)) [
  | true ↦ Operand.vreg o >>= λ v.
      remove_vreg v m >>= λ m'. define_all rest (put alloc_eq a (from_reg v) m')
  | false ↦ define_all rest m
]

unfoldable pub clobber_all : List PReg → Allocs → Allocs
unfolding erase
clobber_all [] m = m
clobber_all (p ∷ ps) m = clobber_all ps (erase alloc_eq (reg p) m)

unfoldable pub update_allocs : CheckerInst → Allocs → Option Allocs
unfolding get put move_all zip define_all clobber_all
update_allocs (move into from) m = elim (get alloc_eq m from) [
  | none ↦ some m
  | some val ↦ some (put alloc_eq into val m)
]
update_allocs (parallel_move moves) m = some (move_all moves m)
update_allocs (op inst operands allocs clobbers) m =
    define_all (zip operands allocs) m >>= λ m'. some (clobber_all clobbers m')

unfoldable pub update : CheckerInst → CheckerState → Option CheckerState
unfolding defined update_allocs
update i st = update_allocs i (defined st) >>= λ m. some (allocations m)

unfoldable pub update_all : List CheckerInst → CheckerState → Option CheckerState
unfolding update
update_all [] st = some st
update_all (i ∷ is) st = update i st >>= update_all is
