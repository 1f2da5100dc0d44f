-- ===== src/Operand.antt =====
-- Operands: a virtual register, a constraint, a kind and a position in 32 bits
-- (`Operand` in src/lib.rs). `none` is the panic of `unreachable!`.
pub mod Fields
pub mod Kinds
use regalloc.Prelude.{
  ℕ, ◌+◌, ◌≤◌, ◌%◌, ◌^◌, bit_and, bit_or, ◌≡◌, Option, none, some, ◌>>=◌, Bool, true, false, ◌==◌,
  leb, if◌then◌else◌,
}
use regalloc.Prelude.Bits.{shl, shr}
use regalloc.Reg.{RegClass, class_code, class_of_code}
use regalloc.Reg.PReg
use regalloc.Reg.PReg.{PReg}
use regalloc.Reg.VReg
use regalloc.Reg.VReg.{VReg}

pub data OperandConstraint : Type 0 where
  any reg : OperandConstraint
  fixed_reg : PReg → OperandConstraint
  reuse : ℕ → OperandConstraint

pub data OperandKind : Type 0 where
  def use_of : OperandKind

pub data OperandPos : Type 0 where
  early late : OperandPos

pub record Operand : Type 0 where
  pub bits : ℕ

abbrev pub kind_code : OperandKind → ℕ
kind_code def = 0
kind_code use_of = 1

abbrev pub pos_code : OperandPos → ℕ
pos_code early = 0
pos_code late = 1

unfoldable pub constraint_field : OperandConstraint → ℕ
constraint_field any = 0
constraint_field reg = 1
constraint_field (fixed_reg preg) = bit_or 0x40 (PReg.hw_enc preg % 2 ^ 32)
constraint_field (reuse which) = bit_or 0x20 (which % 2 ^ 32)

-- The fields shifted into place and joined, lowest first.
unfoldable pub pack : ℕ → ℕ → ℕ → ℕ → ℕ → ℕ
pack vreg class pos kind constraint =
    bit_or (bit_or (bit_or (bit_or vreg (shl 32 class 21)) (shl 32 pos 23)) (shl 32 kind 24))
      (shl 32 constraint 25)

unfoldable pub new : VReg → OperandConstraint → OperandKind → OperandPos → Option Operand
unfolding pack constraint_field
new v constraint kind pos = do
  class ← VReg.class v
  some (record {
    bits =
        pack (VReg.vreg v % 2 ^ 32) (class_code class) (pos_code pos) (kind_code kind)
          (constraint_field constraint);
  })

unfoldable pub class : Operand → Option RegClass
class o = class_of_code (bit_and (shr o.bits 21) 3)

unfoldable pub vreg : Operand → Option VReg
unfolding class
vreg o = do c ← class o; some (VReg.new (bit_and o.bits VReg.max) c)

unfoldable pub kind : Operand → OperandKind
kind o = if bit_and (shr o.bits 24) 1 == 0 then def else use_of

unfoldable pub pos : Operand → OperandPos
pos o = if bit_and (shr o.bits 23) 1 == 0 then early else late

-- The seven bits of the constraint decoded: a fixed register, a reused operand, or one of two
-- codes.
unfoldable pub constraint_of_field : Option RegClass → ℕ → Option OperandConstraint
constraint_of_field class field =
    if bit_and field 0x40 == 0
    then (if bit_and field 0x20 == 0
        then (if field == 0 then some any else if field == 1 then some reg else none)
        else some (reuse (bit_and field 0x1f)))
    else (class >>= λ c. some (fixed_reg (PReg.new (bit_and field 0x3f) c)))

unfoldable pub constraint : Operand → Option OperandConstraint
unfolding class constraint_of_field
constraint o = constraint_of_field (class o) (bit_and (shr o.bits 25) 127)

-- `bits`, and `from_bits` with the assertion of its debug build.
unfoldable pub from_bits : ℕ → Operand
from_bits bits = record { bits = bits }

unfoldable pub from_bits_assert : ℕ → Bool
from_bits_assert bits = leb (shr bits 29) 4

unfoldable pub from_bits_debug : ℕ → Option Operand
unfolding from_bits from_bits_assert
from_bits_debug bits = if from_bits_assert bits then some (from_bits bits) else none

unfoldable pub as_fixed : Option OperandConstraint → Option VReg → Option (Option PReg)
as_fixed c v = do
  c' ← c
  elim c' [
    | fixed_reg preg ↦ v >>= λ v'. some (if VReg.vreg v' == VReg.max then some preg else none)
    | _ ↦ some none
  ]

-- `Some(preg)` inside a result that is `none` where a getter panics.
unfoldable pub as_fixed_nonallocatable : Operand → Option (Option PReg)
unfolding as_fixed constraint vreg
as_fixed_nonallocatable o = as_fixed (constraint o) (vreg o)
