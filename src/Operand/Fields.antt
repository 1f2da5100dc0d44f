-- ===== src/Operand/Fields.antt =====
-- What is packed into an operand is what its getters return.
use regalloc.Prelude.{
  ℕ, ◌+◌, ◌*◌, ◌%◌, ◌^◌, ◌≤◌, ◌<◌, bit_and, ◌≡◌, refl, ap, ◌∙◌, Option, some, ◌>>=◌, arith,
}
use regalloc.Prelude.Bits.{shl, shr, bit_or-fields, bit_or-fields', bit_and-low_mask, bit_and-pow}
use regalloc.Reg.{RegClass, class_code, class_of_code, class_code-lt, class_of_code-class_code}
use regalloc.Reg.PReg
use regalloc.Reg.PReg.{PReg}
use regalloc.Reg.VReg
use regalloc.Reg.VReg.{VReg}
use regalloc.Operand.{
  Operand, OperandConstraint, any, reg, fixed_reg, reuse, OperandKind, OperandPos, kind_code,
  pos_code, constraint_field, pack, new, class, vreg, kind, pos, constraint_of_field, constraint,
}

-- The constraints that `Operand::new` asserts to be storable beside a class.
abbrev pub IsStorable : RegClass → OperandConstraint → Type 0
IsStorable c any = Unit {0}
IsStorable c reg = Unit {0}
IsStorable c (fixed_reg p) = (PReg.class p ≡ some c) × (p.bits < 256)
IsStorable c (reuse i) = i ≤ 31

pub pack-sum :
    (v c p k f : ℕ)
    → v < 2 ^ 21
    → c < 4
    → p < 2
    → k < 2
    → f < 128
    → pack v c p k f ≡ v + c * 2 ^ 21 + p * 2 ^ 23 + k * 2 ^ 24 + f * 2 ^ 25
unfolding pack
pack-sum v c p k f hv hc hp hk hf =
    rw
      (
        shifted c 21 (omega arith),
        shifted p 23 (omega arith),
        shifted k 24 (omega arith),
        shifted f 25 (omega arith),
      )
      (rw (
        bit_or-fields 21 v c hv,
        bit_or-fields 23 (v + c * 2 ^ 21) p (omega arith),
        bit_or-fields 24 (v + c * 2 ^ 21 + p * 2 ^ 23) k (omega arith),
        bit_or-fields 25 (v + c * 2 ^ 21 + p * 2 ^ 23 + k * 2 ^ 24) f (omega arith),
      ))
  where
    shifted : (x n : ℕ) → x * 2 ^ n < 2 ^ 32 → shl 32 x n ≡ x * 2 ^ n
    shifted x n h = omega arith

pub field_fixed : (p : PReg) → constraint_field (fixed_reg p) ≡ 64 + PReg.hw_enc p
unfolding constraint_field
field_fixed p =
    let lt : PReg.hw_enc p < 64 = omega (arith, PReg.hw_enc-mod p) in
    rw low (omega (arith, bit_or-fields' 6 (PReg.hw_enc p) 1 lt))
  where
    low : PReg.hw_enc p % 2 ^ 32 ≡ PReg.hw_enc p
    low = omega (arith, PReg.hw_enc-mod p)

field_reuse : (i : ℕ) → i ≤ 31 → constraint_field (reuse i) ≡ 32 + i
unfolding constraint_field
field_reuse i h = rw low (omega (arith, bit_or-fields' 5 i 1 (omega arith)))
  where
    low : i % 2 ^ 32 ≡ i
    low = omega arith

pub constraint_field-lt :
    (c : RegClass) (k : OperandConstraint) → IsStorable c k → constraint_field k < 128
unfolding constraint_field
constraint_field-lt c any h = omega arith
constraint_field-lt c reg h = omega arith
constraint_field-lt c (fixed_reg p) h = omega (arith, field_fixed p, PReg.hw_enc-mod p)
constraint_field-lt c (reuse i) h = omega (arith, field_reuse i h)

decode_fixed :
    (c : Option RegClass) (n : ℕ)
    → n < 64
    → constraint_of_field c (64 + n) ≡ (c >>= λ c'. some (fixed_reg (PReg.new n c')))
unfolding constraint_of_field
decode_fixed c n h =
    let low : bit_and (64 + n) 0x3f ≡ n = omega (arith, bit_and-low_mask 6 (64 + n)) in
    rw low (ground (arith, bit_and-pow 6 (64 + n)))

decode_reuse :
    (c : Option RegClass) (n : ℕ) → n < 32 → constraint_of_field c (32 + n) ≡ some (reuse n)
unfolding constraint_of_field
decode_reuse c n h =
    let low : bit_and (32 + n) 0x1f ≡ n = omega (arith, bit_and-low_mask 5 (32 + n)) in
    rw low (ground (arith, bit_and-pow 6 (32 + n), bit_and-pow 5 (32 + n)))

pub constraint_round_trip :
    (c : RegClass) (k : OperandConstraint)
    → IsStorable c k
    → constraint_of_field (some c) (constraint_field k) ≡ some k
unfolding constraint_of_field constraint_field
constraint_round_trip c any h = refl
constraint_round_trip c reg h = refl
constraint_round_trip c (fixed_reg p) h =
    rw (field_fixed p, decode_fixed (some c) (PReg.hw_enc p) (omega (arith, PReg.hw_enc-mod p)))
      (ap (λ q. some (fixed_reg q)) (PReg.new-of_class p c h.1 h.0))
constraint_round_trip c (reuse i) h = rw (field_reuse i h, decode_reuse (some c) i (omega arith))

-- An operand as the sum of its fields, and its getters.
abbrev sum : ℕ → ℕ → ℕ → ℕ → ℕ → Operand
sum v c p k f = record { bits = v + c * 2 ^ 21 + p * 2 ^ 23 + k * 2 ^ 24 + f * 2 ^ 25 }

module _ (v c p k f : ℕ) (hv : v < 2 ^ 21) (hc : c < 4) (hp : p < 2) (hk : k < 2)
    (hf : f < 128) where
  class_field_sum : bit_and (shr (sum v c p k f).bits 21) 3 ≡ c
  class_field_sum = omega (arith, bit_and-low_mask 2 (shr (sum v c p k f).bits 21))

  class-sum : class (sum v c p k f) ≡ class_of_code c
  unfolding class
  class-sum = rw class_field_sum

  field_sum : bit_and (shr (sum v c p k f).bits 25) 127 ≡ f
  field_sum = omega (arith, bit_and-low_mask 7 (shr (sum v c p k f).bits 25))

  vreg_sum : bit_and (sum v c p k f).bits VReg.max ≡ v
  vreg_sum = omega (arith, bit_and-low_mask 21 (sum v c p k f).bits)

  kind_sum : bit_and (shr (sum v c p k f).bits 24) 1 ≡ k
  kind_sum = omega (arith, bit_and-low_mask 1 (shr (sum v c p k f).bits 24))

  pos_sum : bit_and (shr (sum v c p k f).bits 23) 1 ≡ p
  pos_sum = omega (arith, bit_and-low_mask 1 (shr (sum v c p k f).bits 23))

-- The sum of the fields that `new` packs.
abbrev pub packed : VReg → RegClass → OperandConstraint → OperandKind → OperandPos → Operand
packed v c k kd ps = record {
  bits =
      VReg.vreg v
      + class_code c * 2 ^ 21
      + pos_code ps * 2 ^ 23
      + kind_code kd * 2 ^ 24
      + constraint_field k * 2 ^ 25;
}

module _ (v : VReg) (c : RegClass) (k : OperandConstraint) (kd : OperandKind) (ps : OperandPos)
    (hc : VReg.class v ≡ some c) (hv : VReg.vreg v ≤ VReg.max) (hk : IsStorable c k) where
  at_packed :
      (P : (v c p k f : ℕ) → Type 0)
      → ((v c p k f : ℕ) → v < 2 ^ 21 → c < 4 → p < 2 → k < 2 → f < 128 → P v c p k f)
      → P (VReg.vreg v) (class_code c) (pos_code ps) (kind_code kd) (constraint_field k)
  at_packed P all =
      all (VReg.vreg v) (class_code c) (pos_code ps) (kind_code kd) (constraint_field k)
        (omega arith) (omega (arith, class_code-lt c)) (ground arith) (ground arith)
        (constraint_field-lt c k hk)

  pub new-packed : new v k kd ps ≡ some (packed v c k kd ps)
  unfolding new
  new-packed = rw (
    hc,
    low,
    at_packed (λ v c p k f. pack v c p k f ≡ v + c * 2 ^ 21 + p * 2 ^ 23 + k * 2 ^ 24 + f * 2 ^ 25)
        pack-sum,
  )
    where
      low : VReg.vreg v % 2 ^ 32 ≡ VReg.vreg v
      low = omega arith

  class-packed : class (packed v c k kd ps) ≡ some c
  class-packed =
      at_packed (λ v c p k f. class (sum v c p k f) ≡ class_of_code c) class-sum
      ∙ class_of_code-class_code c

  pub vreg-packed : vreg (packed v c k kd ps) ≡ some v
  unfolding vreg
  vreg-packed =
      rw (class-packed, at_packed (λ v c p k f. bit_and (sum v c p k f).bits VReg.max ≡ v) vreg_sum)
        (ap some (VReg.new-of_class v c hc hv))

  kind-packed : kind (packed v c k kd ps) ≡ kd
  unfolding kind
  kind-packed =
      rw (at_packed (λ v c p k f. bit_and (shr (sum v c p k f).bits 24) 1 ≡ k) kind_sum)
        (ground arith)

  pos-packed : pos (packed v c k kd ps) ≡ ps
  unfolding pos
  pos-packed =
      rw (at_packed (λ v c p k f. bit_and (shr (sum v c p k f).bits 23) 1 ≡ p) pos_sum)
        (ground arith)

  pub constraint-packed : constraint (packed v c k kd ps) ≡ some k
  unfolding constraint
  constraint-packed =
      rw
        (
          class-packed,
          at_packed (λ v c p k f. bit_and (shr (sum v c p k f).bits 25) 127 ≡ f) field_sum,
        )
        (constraint_round_trip c k hk)

  -- Whatever the debug assertions of `Operand::new` allow is stored without loss: for a virtual
  -- register with class `c` and number at most `VReg::MAX`, a constraint that is a fixed register
  -- of the same class or reuses an operand up to 31, any kind and any position, `new` returns an
  -- operand whose `vreg`, `class`, `kind`, `pos` and `constraint` are those that were given.
  pub new-getters :
      (o : Operand) × (new v k kd ps ≡ some o)
      × (vreg o ≡ some v)
      × (class o ≡ some c)
      × (kind o ≡ kd)
      × (pos o ≡ ps)
      × (constraint o ≡ some k)
  new-getters = (
    packed v c k kd ps,
    new-packed,
    vreg-packed,
    class-packed,
    kind-packed,
    pos-packed,
    constraint-packed,
  )
