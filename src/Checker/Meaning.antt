-- ===== src/Checker/Meaning.antt =====
-- What the instructions of the checker do to values: the allocations of the compiled program beside
-- the virtual registers of the original one.
use regalloc.Prelude.{◌≡◌, none, some, List, [], ◌∷◌, true, false, if◌then◌else◌}
use regalloc.Prelude.Sets.{contains, get}
use regalloc.Reg.PReg.{PReg}
use regalloc.Reg.VReg.{VReg, vreg_eq}
use regalloc.Operand
use regalloc.Operand.{Operand}
use regalloc.Allocation.{Allocation, alloc_eq, reg}
use regalloc.Moves.Store.{Store, write}
use regalloc.Checker.{
  CheckerValue, universe, vregs, Allocs, CheckerState, top, allocations, CheckerInst, move,
  parallel_move, op, zip, is_def,
}

abbrev pub Values : Type 0 → Type 0
Values V = VReg → V

unfoldable pub bind : {V : Type 0} → Values V → VReg → V → Values V
bind e v x w = if vreg_eq v w then x else e w

-- A parallel move reads before it writes.
unfoldable pub assign : {V : Type 0} → List (VReg × VReg) → Values V → Values V
assign [] e w = e w
assign ((dest, src) ∷ moves) e w = if vreg_eq dest w then e src else assign moves e w

pub record Config (V : Type 0) : Type 0 where
  pub store : Store V
  pub values : Values V

-- What an instruction computes: the value of each definition, and what is left in a clobbered
-- register.
pub record InstEffect (V : Type 0) : Type 0 where
  pub defines : Operand → V
  pub leaves : PReg → V

unfoldable pub define_values :
    {V : Type 0} → InstEffect V → List (Operand × Allocation) → Config V → Config V
unfolding is_def bind write
define_values x [] c = c
define_values x ((o, a) ∷ rest) c = elim (is_def (Operand.kind o)) [
  | true ↦ elim (Operand.vreg o) [
    | some v ↦
        define_values x rest
          (record { store = write c.store a (x.defines o); values = bind c.values v (x.defines o) })
    | none ↦ define_values x rest c
  ]
  | false ↦ define_values x rest c
]

unfoldable pub clobber_store : {V : Type 0} → InstEffect V → List PReg → Store V → Store V
unfolding write
clobber_store x [] s = s
clobber_store x (p ∷ ps) s = clobber_store x ps (write s (reg p) (x.leaves p))

unfoldable pub step : {V : Type 0} → InstEffect V → CheckerInst → Config V → Config V
unfolding write assign define_values clobber_store zip
step x (move into from) c = record c { store = write c.store into (c.store from) }
step x (parallel_move moves) c = record c { values = assign moves c.values }
step x (op inst operands allocs clobbers) c =
    let c' = define_values x (zip operands allocs) c in
    record c' { store = clobber_store x clobbers c'.store }

-- The value `x` of an allocation is that of each register that it is recorded to be equal to.
abbrev pub Means : {V : Type 0} → CheckerValue → V → Values V → Type 0
Means universe x e = (v : VReg) → x ≡ e v
Means (vregs s) x e = (v : VReg) → contains vreg_eq s v ≡ true → x ≡ e v

abbrev pub HoldsAllocs : {V : Type 0} → Allocs → Config V → Type 0
HoldsAllocs m c =
    (a : Allocation) (val : CheckerValue)
    → get alloc_eq m a ≡ some val
    → Means val (c.store a) c.values

-- The state describes the configuration; no configuration arrives where the state is still `top`.
abbrev pub Holds : {V : Type 0} → CheckerState → Config V → Type 0
Holds top c = ⊥
Holds (allocations m) c = HoldsAllocs m c
