-- ===== src/Reg/PReg.antt =====
-- Physical registers: six bits of encoding below two bits of class (`PReg` in src/lib.rs).
use regalloc.Prelude.{
  ℕ, ◌+◌, ◌-◌, ◌*◌, ◌/◌, ◌%◌, ◌^◌, ◌≤◌, ◌<◌, bit_and, bit_or, ◌≡◌, Option, some, Bool, ◌==◌, arith,
}
use regalloc.Prelude.Bits.{shl, shr, bit_or-fields', bit_and-low_mask}
use regalloc.Reg.{
  RegClass, int, class_code, class_of_code, class_code-lt, class_of_code_inverse,
  class_of_code-class_code,
}

pub record PReg : Type 0 where
  pub bits : ℕ

abbrev pub max : ℕ
max = 63

abbrev pub num_index : ℕ
num_index = 256

unfoldable pub new : ℕ → RegClass → PReg
new hw_enc class = record { bits = bit_or (shl 8 (class_code class) 6) (hw_enc % 2 ^ 8) }

unfoldable pub hw_enc : PReg → ℕ
hw_enc p = bit_and p.bits max

unfoldable pub class : PReg → Option RegClass
class p = class_of_code (bit_and (shr p.bits 6) 3)

unfoldable pub index : PReg → ℕ
index p = p.bits

unfoldable pub from_index : ℕ → PReg
from_index i = record { bits = bit_and i (num_index - 1) % 2 ^ 8 }

unfoldable pub invalid : PReg
unfolding new
invalid = new max int

-- `==` of the derived `PartialEq`.
abbrev pub preg_eq : PReg → PReg → Bool
preg_eq a b = a.bits == b.bits

pub new-bits : (n : ℕ) (c : RegClass) → n ≤ max → (new n c).bits ≡ n + class_code c * 64
unfolding new
new-bits n c h = rw (upper, lower) (omega (arith, bit_or-fields' 6 n (class_code c) (omega arith)))
  where
    upper : shl 8 (class_code c) 6 ≡ class_code c * 2 ^ 6
    upper = omega (arith, class_code-lt c)

    lower : n % 2 ^ 8 ≡ n
    lower = omega arith

pub bits-lt : (n : ℕ) (c : RegClass) → n ≤ max → (new n c).bits < 192
bits-lt n c h = omega (arith, new-bits n c h, class_code-lt c)

pub hw_enc-mod : (p : PReg) → hw_enc p ≡ p.bits % 64
unfolding hw_enc
hw_enc-mod p = bit_and-low_mask 6 p.bits

class_bits : (p : PReg) → bit_and (shr p.bits 6) 3 ≡ p.bits / 64 % 4
class_bits p = bit_and-low_mask 2 (p.bits / 64)

pub hw_enc-new : (n : ℕ) (c : RegClass) → n ≤ max → hw_enc (new n c) ≡ n
hw_enc-new n c h = omega (arith, hw_enc-mod (new n c), new-bits n c h)

pub class-new : (n : ℕ) (c : RegClass) → n ≤ max → class (new n c) ≡ some c
unfolding class
class-new n c h = rw (code) (class_of_code-class_code c)
  where
    code : bit_and (shr (new n c).bits 6) 3 ≡ class_code c
    code = omega (arith, class_bits (new n c), new-bits n c h, class_code-lt c)

pub class_code-class : (p : PReg) (c : RegClass) → class p ≡ some c → p.bits / 64 % 4 ≡ class_code c
unfolding class
class_code-class p c h =
    omega (arith, class_bits p, class_of_code_inverse (bit_and (shr p.bits 6) 3) c h)

pub preg_ext : {p q : PReg} → p.bits ≡ q.bits → p ≡ q
preg_ext e = λ i. record { bits = e i }

pub from_index-index : (p : PReg) → p.bits < 256 → from_index (index p) ≡ p
unfolding from_index index
from_index-index p h = preg_ext (omega (arith, bit_and-low_mask 8 p.bits))

pub new-of_class :
    (p : PReg) (c : RegClass) → p.bits < num_index → class p ≡ some c → new (hw_enc p) c ≡ p
new-of_class p c h k = preg_ext (
    omega (
      arith,
      new-bits (hw_enc p) c (omega (arith, hw_enc-mod p)),
      hw_enc-mod p,
      class_code-class p c k,
    ))

-- A physical register is its encoding and its class: both are read back from a register packed from
-- an encoding that is at most `PReg::MAX`; and a byte with a class in range is the packing of what
-- is read from it, and the register of its own index.
pub new-hw_enc-class :
    (n : ℕ) (c : RegClass)
    → n ≤ max
    → (p : PReg) (d : RegClass) → p.bits < num_index
    → class p ≡ some d
    → (hw_enc (new n c) ≡ n)
      × (class (new n c) ≡ some c)
      × (new (hw_enc p) d ≡ p)
      × (from_index (index p) ≡ p)
new-hw_enc-class n c h p d lt k =
    (hw_enc-new n c h, class-new n c h, new-of_class p d lt k, from_index-index p lt)
