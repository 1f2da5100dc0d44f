-- ===== src/ProgPoint.antt =====
-- Program points: an instruction's number above one bit for "before" or "after"
-- (`ProgPoint` in src/lib.rs).
use regalloc.Prelude.{
  ℕ, ◌↔◌, ◌+◌, ◌-◌, ◌*◌, ◌/◌, ◌%◌, ◌^◌, ◌<◌, ◌≤◌, ◌≡◌, ◌⊎◌, inl, inr, refl, bit_and, bit_or, ◌==◌,
  ltb, Bool-cases, if◌then◌else◌, arith,
}
use regalloc.Prelude.Bits.{shl, bit_or-fields', bit_or_zero, bit_and-low_mask}
use regalloc.Index
use regalloc.Index.{Inst}

pub data InstPosition : Type 0 where
  before_inst after_inst : InstPosition

abbrev pub position_code : InstPosition → ℕ
position_code before_inst = 0
position_code after_inst = 1

pub record ProgPoint : Type 0 where
  pub bits : ℕ

unfoldable pub new : Inst → InstPosition → ProgPoint
new inst pos = record { bits = bit_or (shl 32 inst.raw 1) (position_code pos) }

unfoldable pub before : Inst → ProgPoint
unfolding new
before inst = new inst before_inst

unfoldable pub after : Inst → ProgPoint
unfolding new
after inst = new inst after_inst

-- `(bits as i32) >> 1` as a 64-bit pattern: the top bit is copied into the bits above it.
unfoldable pub half_signed : ℕ → ℕ
half_signed bits = if ltb bits (2 ^ 31) then bits / 2 else bits / 2 + (2 ^ 64 - 2 ^ 31)

unfoldable pub inst : ProgPoint → Inst
unfolding half_signed Index.new
inst p = Index.new (half_signed p.bits)

unfoldable pub pos : ProgPoint → InstPosition
pos p = if bit_and p.bits 1 == 0 then before_inst else after_inst

unfoldable pub next : ProgPoint → ProgPoint
next p = record { bits = (p.bits + 1) % 2 ^ 32 }

unfoldable pub prev : ProgPoint → ProgPoint
prev p = record { bits = (p.bits + 2 ^ 32 - 1) % 2 ^ 32 }

unfoldable pub to_index : ProgPoint → ℕ
to_index p = p.bits

unfoldable pub from_index : ℕ → ProgPoint
from_index i = record { bits = i }

pub new-bits :
    (i : Inst) (p : InstPosition) → i.raw < 2 ^ 31 → (new i p).bits ≡ i.raw * 2 + position_code p
unfolding new
new-bits i p h = rw shifted (omega (arith, bit_or-fields' 1 (position_code p) i.raw (ground arith)))
  where
    shifted : shl 32 i.raw 1 ≡ i.raw * 2 ^ 1
    shifted = omega arith

pub before-inst_le : (p : ProgPoint) → (before (inst p)).bits ≤ p.bits
unfolding before inst
before-inst_le p =
    rw (bit_or_zero (shl 32 (half_signed p.bits % 2 ^ 32) 1))
      (elim (Bool-cases (ltb p.bits (2 ^ 31))) [
        | inl y ↦ rw y (omega arith)
        | inr n ↦ rw n (omega arith)
      ])

position_code-lt : (p : InstPosition) → position_code p < 2
position_code-lt p = ground arith

pos-new : (i : Inst) (p : InstPosition) → i.raw < 2 ^ 31 → pos (new i p) ≡ p
unfolding pos
pos-new i p h = ground (arith, bit_and-low_mask 1 (new i p).bits, new-bits i p h)

inst-new : (i : Inst) (p : InstPosition) → i.raw < 2 ^ 30 → (inst (new i p)).raw ≡ i.raw
unfolding inst
inst-new i p h = ground (arith, new-bits i p (omega arith))

point_ext : {p q : ProgPoint} → p.bits ≡ q.bits → p ≡ q
point_ext e = λ i. record { bits = e i }

invalid_round_trip :
    (p : InstPosition)
    → (inst (new Index.invalid p) ≡ Index.invalid) × (pos (new Index.invalid p) ≡ p)
unfolding new inst pos
invalid_round_trip before_inst = (refl, refl)
invalid_round_trip after_inst = (refl, refl)

-- A program point is its instruction and its side: both are read back for every instruction below
-- 2^30, and for the invalid instruction, which the signed shift preserves.
pub new-inst-pos :
    (i : Inst) (p : InstPosition)
    → (i.raw < 2 ^ 30) ⊎ (i ≡ Index.invalid)
    → (inst (new i p) ≡ i) × (pos (new i p) ≡ p)
new-inst-pos i p (inl h) = (Index.index_ext (inst-new i p h), pos-new i p (omega arith))
new-inst-pos i p (inr e) = rw e (invalid_round_trip p)

-- For instructions with numbers below 2^31, points are ordered as the program runs: first by
-- instruction, then "before" and "after". (From 2^31 on the number loses its top bit.)
pub lt-new :
    (i j : Inst) (p q : InstPosition)
    → i.raw < 2 ^ 31
    → j.raw < 2 ^ 31
    → ((new i p).bits < (new j q).bits)
      ↔ ((i.raw < j.raw) ⊎ ((i.raw ≡ j.raw) × (position_code p < position_code q)))
lt-new i j p q h k =
    ground (arith, new-bits i p h, new-bits j q k, position_code-lt p, position_code-lt q)

-- `next` goes from before an instruction to after it and from there to before the next one, for an
-- instruction with a successor below 2^31; and on every 32-bit point `prev` and `next` undo each
-- other, also where a point wraps around.
pub next-prev :
    (i : Inst)
    → i.raw + 1 < 2 ^ 31
    → (p : ProgPoint) → p.bits < 2 ^ 32
    → (next (before i) ≡ after i)
      × (next (after i) ≡ before (Index.next i))
      × (prev (next p) ≡ p)
      × (next (prev p) ≡ p)
unfolding next prev before after
next-prev i h p lt =
    let b = new-bits i before_inst (omega arith) in
    let a = new-bits i after_inst (omega arith) in
    let step : (Index.next i).raw ≡ i.raw + 1 = Index.next-raw i (omega arith) in
    let b' = new-bits (Index.next i) before_inst (omega (arith, step)) in
    (
      point_ext (omega (arith, b, a)),
      point_ext (omega (arith, a, b', step)),
      point_ext (omega arith),
      point_ext (omega arith),
    )
