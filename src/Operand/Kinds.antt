-- ===== src/Operand/Kinds.antt =====
-- The constructors for each sort of operand (`reg_use` to `fixed_nonallocatable` in src/lib.rs),
-- and the raw encoding.
use mathlib.Core.Path.{ap₂}
use regalloc.Prelude.{
  ℕ, ◌/◌, ◌^◌, ◌≤◌, ◌<◌, ◌≡◌, refl, ◌∙◌, Option, none, some, ◌>>=◌, arith, ltb, if◌then◌else◌,
}
use regalloc.Reg.{RegClass, class_code-lt}
use regalloc.Reg.PReg
use regalloc.Reg.PReg.{PReg}
use regalloc.Reg.VReg
use regalloc.Reg.VReg.{VReg}
use regalloc.Operand.{
  Operand, OperandConstraint, any, reg, fixed_reg, reuse, OperandKind, def, use_of, OperandPos,
  early, late, constraint_field, kind_code, pos_code, new, from_bits_debug, as_fixed,
  as_fixed_nonallocatable,
}
use regalloc.Operand.Fields.{
  IsStorable, packed, new-packed, vreg-packed, constraint-packed, constraint_field-lt,
}

unfoldable pub reg_use : VReg → Option Operand
reg_use v = new v reg use_of early

unfoldable pub reg_use_at_end : VReg → Option Operand
reg_use_at_end v = new v reg use_of late

unfoldable pub reg_def : VReg → Option Operand
reg_def v = new v reg def late

unfoldable pub reg_def_at_start : VReg → Option Operand
reg_def_at_start v = new v reg def early

unfoldable pub reg_temp : VReg → Option Operand
reg_temp v = new v reg def early

unfoldable pub reg_reuse_def : VReg → ℕ → Option Operand
reg_reuse_def v idx = new v (reuse idx) def late

unfoldable pub reg_fixed_use : VReg → PReg → Option Operand
reg_fixed_use v preg = new v (fixed_reg preg) use_of early

unfoldable pub reg_fixed_def : VReg → PReg → Option Operand
reg_fixed_def v preg = new v (fixed_reg preg) def late

unfoldable pub reg_fixed_use_at_end : VReg → PReg → Option Operand
reg_fixed_use_at_end v preg = new v (fixed_reg preg) use_of late

unfoldable pub reg_fixed_def_at_start : VReg → PReg → Option Operand
reg_fixed_def_at_start v preg = new v (fixed_reg preg) def early

unfoldable pub any_use : VReg → Option Operand
any_use v = new v any use_of early

unfoldable pub any_def : VReg → Option Operand
any_def v = new v any def late

unfoldable pub fixed_nonallocatable : PReg → Option Operand
fixed_nonallocatable preg =
    PReg.class preg >>= λ c. new (VReg.new VReg.max c) (fixed_reg preg) use_of early

not_fixed :
    (k : OperandConstraint) (v : VReg)
    → VReg.vreg v < VReg.max
    → as_fixed (some k) (some v) ≡ some none
unfolding as_fixed
not_fixed any v h = refl
not_fixed reg v h = refl
not_fixed (fixed_reg p) v h = ground arith
not_fixed (reuse i) v h = refl

nonallocatable_case :
    (p : PReg) (c : RegClass)
    → PReg.class p ≡ some c
    → p.bits < 256
    → (fixed_nonallocatable p >>= as_fixed_nonallocatable) ≡ some (some p)
unfolding fixed_nonallocatable as_fixed_nonallocatable as_fixed
nonallocatable_case p c hp lt =
    let v = VReg.new VReg.max c in
    let num = VReg.vreg-new VReg.max c (omega arith) in
    let cls = VReg.class-new VReg.max c (omega arith) in
    let le : VReg.vreg v ≤ VReg.max = omega (arith, num) in
    rw (hp, new-packed v c (fixed_reg p) use_of early cls le (hp, lt))
      (rw
        (
          constraint-packed v c (fixed_reg p) use_of early cls le (hp, lt),
          vreg-packed v c (fixed_reg p) use_of early cls le (hp, lt),
        )
        (rw num))

allocatable_case :
    (v : VReg) (c : RegClass) (k : OperandConstraint) (kd : OperandKind) (ps : OperandPos)
    → VReg.class v ≡ some c
    → VReg.vreg v < VReg.max
    → IsStorable c k
    → (new v k kd ps >>= as_fixed_nonallocatable) ≡ some none
unfolding as_fixed_nonallocatable
allocatable_case v c k kd ps hc lt hk =
    let le : VReg.vreg v ≤ VReg.max = omega arith in
    rw (new-packed v c k kd ps hc le hk) (
      ap₂ as_fixed (constraint-packed v c k kd ps hc le hk) (vreg-packed v c k kd ps hc le hk)
      ∙ not_fixed k v lt)

-- A fixed register that is not allocatable is recognised: for a register byte with a class in
-- range, the operand made for it is read as that register, and an operand that `new` makes for a
-- virtual register with a number below `VReg::MAX` is never read as one.
pub as_fixed_nonallocatable_iff :
    (p : PReg) (d : RegClass)
    → PReg.class p ≡ some d
    → p.bits < 256
    → (v : VReg) (c : RegClass) (k : OperandConstraint) (kd : OperandKind) (ps : OperandPos)
    → VReg.class v ≡ some c
    → VReg.vreg v < VReg.max
    → IsStorable c k
    → ((fixed_nonallocatable p >>= as_fixed_nonallocatable) ≡ some (some p))
      × ((new v k kd ps >>= as_fixed_nonallocatable) ≡ some none)
as_fixed_nonallocatable_iff p d hp lt v c k kd ps hc hv hk =
    (nonallocatable_case p d hp lt, allocatable_case v c k kd ps hc hv hk)

shifted_packed :
    (v : VReg) (c : RegClass) (k : OperandConstraint) (kd : OperandKind) (ps : OperandPos)
    → VReg.vreg v ≤ VReg.max
    → (packed v c k kd ps).bits / 2 ^ 29 ≡ constraint_field k / 16
shifted_packed v c k kd ps h = omega (arith, class_code-lt c, kind_code-lt kd, pos_code-lt ps)
  where
    kind_code-lt : (kd : OperandKind) → kind_code kd < 2
    kind_code-lt kd = ground arith

    pos_code-lt : (ps : OperandPos) → pos_code ps < 2
    pos_code-lt ps = ground arith

-- Which operands survive `from_bits` in a debug build: for an operand that `new` makes, the
-- assertion passes exactly if the constraint field is below 80, and then the operand comes back.
pub from_bits_debug-bits :
    (v : VReg) (c : RegClass) (k : OperandConstraint) (kd : OperandKind) (ps : OperandPos)
    (o : Operand)
    → VReg.class v ≡ some c
    → VReg.vreg v ≤ VReg.max
    → IsStorable c k
    → new v k kd ps ≡ some o
    → from_bits_debug o.bits ≡ (if ltb (constraint_field k) 80 then some o else none)
unfolding from_bits_debug
from_bits_debug-bits v c k kd ps o hc hv hk e =
    let same : packed v c k kd ps ≡ o = cc (new-packed v c k kd ps hc hv hk) in
    let top : o.bits / 2 ^ 29 ≡ constraint_field k / 16 =
      rw (← same) (shifted_packed v c k kd ps hv) in
    ground (arith, constraint_field-lt c k hk)
