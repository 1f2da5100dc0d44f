-- ===== src/Ion/Ranges/Order.antt =====
-- How ranges and keys are ordered.
use regalloc.Prelude.{
  ℕ, ◌+◌, ◌*◌, ◌^◌, ◌<◌, ◌≡◌, ◌↔◌, refl, List, [], ◌∷◌, Bool, true, false, ltb, ◌==◌, if◌then◌else◌,
  All, arith,
}
use native.Mathlib.Nat.{mod-eq_of_lt}
use regalloc.Prelude.Bits.{shl, bit_or-fields}
use regalloc.Ion.Ranges.{
  Ordering, less, equal, greater, LiveRangeKey, key_eq, key_cmp, u64_key, u128_key, BlockparamOut,
  out_key, BlockparamIn, in_key, PosWithPrio, pos_key,
}

abbrev pub flip : Ordering → Ordering
flip less = greater
flip equal = equal
flip greater = less

-- The order of keys of two ranges that are not empty: a comparison the other way round is the
-- reverse; keys are equal exactly if `==` says so, which is if they overlap; and `less` is transitive.
pub key_cmp-order :
    (a b c : LiveRangeKey)
    → b.from < b.to
    → a.from < a.to
    → (key_cmp b a ≡ flip (key_cmp a b))
      × ((key_cmp a b ≡ equal) ↔ (key_eq a b ≡ true))
      × (key_cmp a b ≡ less → key_cmp b c ≡ less → key_cmp a c ≡ less)
unfolding key_cmp key_eq
key_cmp-order a b c h ha = (ground arith, ground arith, ground arith)

-- The order of the fields, the first one first.
abbrev pub comes_first : List ℕ → List ℕ → Bool
comes_first (a ∷ as') (b ∷ bs) = if a == b then comes_first as' bs else ltb a b
comes_first [] (b ∷ bs) = true
comes_first as' [] = false

abbrev pub AreWords : List ℕ → Type 0
AreWords = All (λ n. n < 2 ^ 32)

shl_word : (w b k : ℕ) → b * 2 ^ k < 2 ^ w → shl w b k ≡ b * 2 ^ k
shl_word w b k h = mod-eq_of_lt h

u128_key-sum :
    (d c b a : ℕ)
    → AreWords (d ∷ c ∷ b ∷ a ∷ [])
    → u128_key d c b a ≡ a + b * 2 ^ 32 + c * 2 ^ 64 + d * 2 ^ 96
unfolding u128_key
u128_key-sum d c b a (h, (k, (l, (m, _)))) =
    rw
      (
        shl_word 128 b 32 (omega arith),
        shl_word 128 c 64 (omega arith),
        shl_word 128 d 96 (omega arith),
        bit_or-fields 32 a b (omega arith),
        bit_or-fields 64 (a + b * 2 ^ 32) c (omega arith),
        bit_or-fields 96 (a + b * 2 ^ 32 + c * 2 ^ 64) d (omega arith),
      )
      refl

u64_key-sum : (b a : ℕ) → AreWords (b ∷ a ∷ []) → u64_key b a ≡ a + b * 2 ^ 32
unfolding u64_key
u64_key-sum b a (h, (k, _)) = rw (shl_word 64 b 32 (omega (arith, h))) (bit_or-fields 32 a b k)

u128_key-order :
    (d c b a d' c' b' a' : ℕ)
    → AreWords (d ∷ c ∷ b ∷ a ∷ [])
    → AreWords (d' ∷ c' ∷ b' ∷ a' ∷ [])
    → ltb (u128_key d c b a) (u128_key d' c' b' a')
      ≡ comes_first (d ∷ c ∷ b ∷ a ∷ []) (d' ∷ c' ∷ b' ∷ a' ∷ [])
u128_key-order d c b a d' c' b' a' h h' =
    rw (u128_key-sum d c b a h, u128_key-sum d' c' b' a' h') (ground arith)

abbrev pub out_fields : BlockparamOut → List ℕ
out_fields p = p.from_vreg.raw ∷ p.from_block.raw ∷ p.to_block.raw ∷ p.to_vreg.raw ∷ []

abbrev pub in_fields : BlockparamIn → List ℕ
in_fields p = p.to_vreg.raw ∷ p.to_block.raw ∷ p.from_block.raw ∷ 0 ∷ []

abbrev pub pos_fields : PosWithPrio → List ℕ
pos_fields p = p.pos.bits ∷ p.prio ∷ []

-- Where all fields are of 32 bits, the keys of block parameters on both sides of an edge, and those
-- of positions with a priority, are ordered as their fields are, the first field that differs
-- deciding: from_vreg, from_block, to_block, to_vreg; to_vreg, to_block, from_block; pos, prio.
pub keys-comes_first :
    (p p' : BlockparamOut) (q q' : BlockparamIn) (r r' : PosWithPrio)
    → AreWords (out_fields p)
    → AreWords (out_fields p')
    → AreWords (in_fields q)
    → AreWords (in_fields q')
    → AreWords (pos_fields r)
    → AreWords (pos_fields r')
    → (ltb (out_key p) (out_key p') ≡ comes_first (out_fields p) (out_fields p'))
      × (ltb (in_key q) (in_key q') ≡ comes_first (in_fields q) (in_fields q'))
      × (ltb (pos_key r) (pos_key r') ≡ comes_first (pos_fields r) (pos_fields r'))
unfolding out_key in_key pos_key
keys-comes_first p p' q q' r r' a a' b b' c c' = (
  u128_key-order p.from_vreg.raw p.from_block.raw p.to_block.raw p.to_vreg.raw p'.from_vreg.raw
      p'.from_block.raw p'.to_block.raw p'.to_vreg.raw a a',
  u128_key-order q.to_vreg.raw q.to_block.raw q.from_block.raw 0 q'.to_vreg.raw q'.to_block.raw
      q'.from_block.raw 0 b b',
  rw (u64_key-sum r.pos.bits r.prio c, u64_key-sum r'.pos.bits r'.prio c') (ground (arith, c, c')),
)
