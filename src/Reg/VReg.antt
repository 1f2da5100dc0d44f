-- ===== src/Reg/VReg.antt =====
-- Virtual registers: a number above two bits of class (`VReg` in src/lib.rs).
use regalloc.Prelude.{
  ℕ, ◌+◌, ◌*◌, ◌/◌, ◌%◌, ◌^◌, ◌≤◌, bit_and, bit_or, ◌≡◌, Option, some, Bool, ◌==◌, arith,
}
use regalloc.Prelude.Bits.{shl, shr, bit_or-fields', bit_and-low_mask}
use regalloc.Reg.{
  RegClass, int, class_code, class_of_code, class_code-lt, class_of_code-class_code,
  class_of_code_inverse,
}

pub record VReg : Type 0 where
  pub bits : ℕ

abbrev pub max : ℕ
max = 2_097_151

unfoldable pub new : ℕ → RegClass → VReg
new virt_reg class = record { bits = bit_or (shl 32 (virt_reg % 2 ^ 32) 2) (class_code class) }

unfoldable pub vreg : VReg → ℕ
vreg v = shr v.bits 2

unfoldable pub class : VReg → Option RegClass
class v = class_of_code (bit_and v.bits 3)

unfoldable pub invalid : VReg
unfolding new
invalid = new max int

abbrev pub vreg_eq : VReg → VReg → Bool
vreg_eq a b = a.bits == b.bits

pub new-bits : (n : ℕ) (c : RegClass) → n ≤ max → (new n c).bits ≡ n * 4 + class_code c
unfolding new
new-bits n c h =
    rw upper (omega (arith, bit_or-fields' 2 (class_code c) n (omega (arith, class_code-lt c))))
  where
    upper : shl 32 (n % 2 ^ 32) 2 ≡ n * 2 ^ 2
    upper = omega arith

pub vreg-new : (n : ℕ) (c : RegClass) → n ≤ max → vreg (new n c) ≡ n
unfolding vreg
vreg-new n c h = omega (arith, new-bits n c h, class_code-lt c)

pub class_bits : (n : ℕ) (c : RegClass) → n ≤ max → bit_and (new n c).bits 3 ≡ class_code c
class_bits n c h = omega (arith, bit_and-low_mask 2 (new n c).bits, new-bits n c h, class_code-lt c)

pub class-new : (n : ℕ) (c : RegClass) → n ≤ max → class (new n c) ≡ some c
unfolding class
class-new n c h = rw (class_bits n c h) (class_of_code-class_code c)

pub class_code-class : (v : VReg) (c : RegClass) → class v ≡ some c → v.bits % 4 ≡ class_code c
unfolding class
class_code-class v c h =
    omega (arith, bit_and-low_mask 2 v.bits, class_of_code_inverse (bit_and v.bits 3) c h)

pub vreg_ext : {v w : VReg} → v.bits ≡ w.bits → v ≡ w
vreg_ext e = λ i. record { bits = e i }

pub new-of_class : (v : VReg) (c : RegClass) → class v ≡ some c → vreg v ≤ max → new (vreg v) c ≡ v
unfolding vreg
new-of_class v c h k = vreg_ext (omega (arith, new-bits (v.bits / 4) c k, class_code-class v c h))

-- A virtual register is its number and its class: both are read back from a register packed from a
-- number that is at most `VReg::MAX`, and a register with such a number and a class in range is the
-- packing of what is read from it.
pub new-vreg-class :
    (n : ℕ) (c : RegClass)
    → n ≤ max
    → (v : VReg) (d : RegClass) → class v ≡ some d
    → vreg v ≤ max
    → (vreg (new n c) ≡ n) × (class (new n c) ≡ some c) × (new (vreg v) d ≡ v)
new-vreg-class n c h v d k le = (vreg-new n c h, class-new n c h, new-of_class v d k le)
