-- ===== src/Examples/Encodings.antt =====
-- Encodings of src/lib.rs and src/index.rs on concrete values.
use regalloc.Prelude.{
  ℕ, zero, suc, ◌^◌, subst, get_elem?, ◌≡◌, ◌⊎◌, inl, refl, some, none, ◌>>=◌, true, false, List,
  [], ◌∷◌, arith, length, ◌++◌, ◌<◌, ◌↔◌, ltb, if◌then◌else◌,
}
use regalloc.Reg.{int, float, vector}
use regalloc.Reg.PReg
use regalloc.Reg.PReg.{PReg, preg_eq}
use regalloc.Reg.PRegSet.{PRegSet, contains, add, remove}
use regalloc.Reg.PRegSet.{union_from}
use regalloc.Reg.PRegSet.Union.{contains-union_from}
use regalloc.Prelude.{◌||◌}
use regalloc.Reg.PRegSet.Members.{IsPRegSet, contains-add-remove}
use regalloc.Reg.VReg
use regalloc.Reg.VReg.{VReg}
use regalloc.Reg.SpillSlot.{SpillSlot}
use regalloc.Operand
use regalloc.Operand.{Operand, fixed_reg, reuse, def, use_of, early, late}
use regalloc.Operand.Fields.{new-getters}
use regalloc.Operand.Kinds.{as_fixed_nonallocatable_iff, from_bits_debug-bits, fixed_nonallocatable}
use regalloc.Allocation
use regalloc.Allocation.{Allocation, reg_kind}
use regalloc.Allocation.Views.{as_reg-as_stack, from_bits_debug-refuses}
use regalloc.Index
use regalloc.Index.{Inst, InstRange, IsRange, iter-rest}
use regalloc.ProgPoint
use regalloc.ProgPoint.{ProgPoint, before_inst, after_inst, new-inst-pos, lt-new, next-prev}

-- Float register 20: class 1 above encoding 20.
abbrev f20 : PReg
f20 = record { bits = 84 }

f20-class : PReg.class f20 ≡ some float
unfolding PReg.class
f20-class = refl

-- Virtual register 7 of the float class.
abbrev v7 : VReg
v7 = record { bits = 29 }

v7-class : VReg.class v7 ≡ some float
unfolding VReg.class
v7-class = refl

v7-vreg : VReg.vreg v7 ≡ 7
unfolding VReg.vreg
v7-vreg = refl

new-hw_enc-class_example :
    (PReg.hw_enc (PReg.new 5 vector) ≡ 5)
    × (PReg.class (PReg.new 5 vector) ≡ some vector)
    × (PReg.new (PReg.hw_enc f20) float ≡ f20)
    × (PReg.from_index (PReg.index f20) ≡ f20)
new-hw_enc-class_example =
    PReg.new-hw_enc-class 5 vector (omega arith) f20 float (omega arith) f20-class

new-vreg-class_example :
    (VReg.vreg (VReg.new 100 int) ≡ 100)
    × (VReg.class (VReg.new 100 int) ≡ some int)
    × (VReg.new (VReg.vreg v7) float ≡ v7)
new-vreg-class_example =
    VReg.new-vreg-class 100 int (omega arith) v7 float v7-class (omega (arith, v7-vreg))

-- A late def of v7 in f20.
def_f20-new : Operand.new v7 (fixed_reg f20) def late ≡ some (record { bits = 0xa8a0_0007 })
unfolding Operand.new VReg.class VReg.vreg PReg.hw_enc
def_f20-new = refl

new-getters_example :
    (o : Operand) × (Operand.new v7 (reuse 3) def late ≡ some o)
    × (Operand.vreg o ≡ some v7)
    × (Operand.class o ≡ some float)
    × (Operand.kind o ≡ def)
    × (Operand.pos o ≡ late)
    × (Operand.constraint o ≡ some (reuse 3))
new-getters_example =
    new-getters v7 float (reuse 3) def late v7-class (omega (arith, v7-vreg)) (omega arith)

as_fixed_nonallocatable_iff_example :
    ((fixed_nonallocatable f20 >>= Operand.as_fixed_nonallocatable) ≡ some (some f20))
    × ((Operand.new v7 (fixed_reg f20) use_of early >>= Operand.as_fixed_nonallocatable)
        ≡ some none)
as_fixed_nonallocatable_iff_example =
    as_fixed_nonallocatable_iff f20 float f20-class (omega arith) v7 float (fixed_reg f20) use_of
      early v7-class (omega (arith, v7-vreg)) (f20-class, omega arith)

from_bits_debug-bits_example : Operand.from_bits_debug 0xa8a0_0007 ≡ (
    if ltb (Operand.constraint_field (fixed_reg f20)) 80
    then some (record { bits = 0xa8a0_0007 })
    else none)
from_bits_debug-bits_example =
    from_bits_debug-bits v7 float (fixed_reg f20) def late (record { bits = 0xa8a0_0007 }) v7-class
      (omega (arith, v7-vreg)) (f20-class, omega arith) def_f20-new

abbrev slot9 : SpillSlot
slot9 = record { bits = 9 }

as_reg-as_stack_example :
    ((Allocation.as_reg Allocation.no_alloc ≡ some none)
      × (Allocation.as_stack Allocation.no_alloc ≡ some none)
      × (Allocation.is_none Allocation.no_alloc ≡ some true))
    × ((Allocation.as_reg (Allocation.reg f20) ≡ some (some f20))
        × (Allocation.as_stack (Allocation.reg f20) ≡ some none)
        × (Allocation.is_some (Allocation.reg f20) ≡ some true)
        × (Allocation.is_reg (Allocation.reg f20) ≡ some true))
    × ((Allocation.as_stack (Allocation.stack slot9) ≡ some (some slot9))
        × (Allocation.as_reg (Allocation.stack slot9) ≡ some none)
        × (Allocation.is_some (Allocation.stack slot9) ≡ some true)
        × (Allocation.is_stack (Allocation.stack slot9) ≡ some true))
as_reg-as_stack_example = as_reg-as_stack f20 (omega arith) slot9 (omega arith)

abbrev reg_84 : Allocation
reg_84 = record { bits = 0x2000_0054 }

reg_84-kind : Allocation.kind reg_84 ≡ some reg_kind
unfolding Allocation.kind
reg_84-kind = refl

from_bits_debug-refuses_example : Allocation.from_bits_debug 0x2000_0054 ≡ none
from_bits_debug-refuses_example = from_bits_debug-refuses reg_84 reg_kind (omega arith) reg_84-kind

abbrev three : InstRange
three = record { from = record { raw = 4 }; to = record { raw = 7 } }

three-IsRange : IsRange three
three-IsRange = record { ordered = omega arith; valid = omega arith }

three-len : Index.len three ≡ 3
unfolding Index.len
three-len = refl

iter-rest_example :
    (Index.iter three ≡ Index.first three ∷ Index.iter (Index.rest three))
    × ((body : List Inst) × (Index.iter three ≡ body ++ Index.last three ∷ []))
    × (length (Index.iter three) ≡ Index.len three)
    × IsRange (Index.rest three)
iter-rest_example = iter-rest three three-IsRange (omega (arith, three-len))

abbrev i4 : Inst
i4 = record { raw = 4 }

abbrev i5 : Inst
i5 = record { raw = 5 }

new-inst-pos_example :
    (ProgPoint.inst (ProgPoint.new i4 after_inst) ≡ i4)
    × (ProgPoint.pos (ProgPoint.new i4 after_inst) ≡ after_inst)
new-inst-pos_example = new-inst-pos i4 after_inst (inl (omega arith))

lt-new_example :
    ((ProgPoint.new i4 after_inst).bits < (ProgPoint.new i5 before_inst).bits)
    ↔ ((i4.raw < i5.raw) ⊎ ((i4.raw ≡ i5.raw) × (1 < 0)))
lt-new_example = lt-new i4 i5 after_inst before_inst (omega arith) (omega arith)

abbrev last_point : ProgPoint
last_point = record { bits = 0xffff_ffff }

next-prev_example :
    (ProgPoint.next (ProgPoint.before i4) ≡ ProgPoint.after i4)
    × (ProgPoint.next (ProgPoint.after i4) ≡ ProgPoint.before (Index.next i4))
    × (ProgPoint.prev (ProgPoint.next last_point) ≡ last_point)
    × (ProgPoint.next (ProgPoint.prev last_point) ≡ last_point)
next-prev_example = next-prev i4 (omega arith) last_point (omega arith)

-- The set of f20 alone, in its second word.
abbrev just_f20 : PRegSet
just_f20 = record { bits = 0 ∷ 0x10_0000 ∷ 0 ∷ 0 ∷ [] }

some_value : {a b : ℕ} → some a ≡ some b → a ≡ b
some_value e = cc e

just_f20-words : (i w : ℕ) → get_elem? just_f20.bits i ≡ some w → w < 2 ^ 64
just_f20-words zero w e = subst (λ x. x < 2 ^ 64) (some_value e) (omega arith)
just_f20-words (suc zero) w e = subst (λ x. x < 2 ^ 64) (some_value e) (omega arith)
just_f20-words (suc (suc zero)) w e = subst (λ x. x < 2 ^ 64) (some_value e) (omega arith)
just_f20-words (suc (suc (suc zero))) w e = subst (λ x. x < 2 ^ 64) (some_value e) (omega arith)
just_f20-words (suc (suc (suc (suc i)))) w e = cc

just_f20-IsPRegSet : IsPRegSet just_f20
just_f20-IsPRegSet = record { four = refl; words = just_f20-words }

just_f20-contains : contains just_f20 f20 ≡ some true
unfolding contains PReg.index
just_f20-contains = refl

contains-add-remove_example :
    ((s' : PRegSet) × (add just_f20 (record { bits = 3 }) ≡ some s')
      × IsPRegSet s'
      × (contains s' f20 ≡ (
          contains just_f20 f20 >>= λ b.
          some (if preg_eq (record { bits = 3 }) f20 then true else b))))
    × ((s' : PRegSet) × (remove just_f20 (record { bits = 3 }) ≡ some s')
        × IsPRegSet s'
        × (contains s' f20 ≡ (
            contains just_f20 f20 >>= λ b.
            some (if preg_eq (record { bits = 3 }) f20 then false else b))))
contains-add-remove_example =
    contains-add-remove just_f20 just_f20-IsPRegSet (record { bits = 3 }) f20 (omega arith)
      (omega arith)

contains-union_from_example :
    contains (union_from just_f20 just_f20) f20
    ≡ (contains just_f20 f20 >>= λ a. contains just_f20 f20 >>= λ b. some (a || b))
contains-union_from_example =
    contains-union_from just_f20 just_f20 f20 just_f20-IsPRegSet just_f20-IsPRegSet (omega arith)
