-- ===== src/Reg/PRegSet/Union.antt =====
-- The members of a union.
use regalloc.Prelude.{
  ℕ, zero, suc, ◌<◌, bit_or, ◌≡◌, refl, ap, ◌∙◌, max, some, ◌>>=◌, List, [], ◌∷◌, ◌||◌, ◌==◌,
  get_elem?, arith,
}
use regalloc.Prelude.Bits.{bit_at, bit_at-bit_or}
use regalloc.Reg.PReg.{PReg}
use regalloc.Reg.PRegSet.{PRegSet, contains, union_words, union_from}
use regalloc.Reg.PRegSet.Members.{word_of, bit_of, contains_at, word_at, IsPRegSet}

get_elem?-union_words :
    (xs ys : List ℕ) (i a b : ℕ)
    → get_elem? xs i ≡ some a
    → get_elem? ys i ≡ some b
    → get_elem? (union_words xs ys) i ≡ some (bit_or a b)
unfolding union_words
get_elem?-union_words [] ys i a b h k = cc h
get_elem?-union_words (x ∷ xs) [] i a b h k = cc k
get_elem?-union_words (x ∷ xs) (y ∷ ys) zero a b h k = cc (h, k)
get_elem?-union_words (x ∷ xs) (y ∷ ys) (suc i) a b h k = get_elem?-union_words xs ys i a b h k

either_bit : (a b : ℕ) → a < 2 → b < 2 → (max a b == 1) ≡ ((a == 1) || (b == 1))
either_bit zero zero h k = refl
either_bit zero (suc zero) h k = refl
either_bit (suc zero) zero h k = refl
either_bit (suc zero) (suc zero) h k = refl
either_bit zero (suc (suc b)) h k = absurd (omega (arith, k))
either_bit (suc zero) (suc (suc b)) h k = absurd (omega (arith, k))
either_bit (suc (suc a)) b h k = absurd (omega (arith, h))

-- For sets of four 64-bit words and a register that is a byte: the union has the register exactly
-- if one of the two sets has it.
pub contains-union_from :
    (s other : PRegSet) (p : PReg)
    → IsPRegSet s
    → IsPRegSet other
    → p.bits < 256
    → contains (union_from s other) p
      ≡ (contains s p >>= λ a. contains other p >>= λ b. some (a || b))
unfolding union_from
contains-union_from s other p h k lt =
    let (v, at) = word_at s.bits (word_of p) (omega (arith, h.four)) in
    let (w, at') = word_at other.bits (word_of p) (omega (arith, k.four)) in
    rw
      (
        contains_at p s v at,
        contains_at p other w at',
        contains_at p (record { bits = union_words s.bits other.bits }) (bit_or v w)
            (get_elem?-union_words s.bits other.bits (word_of p) v w at at'),
      )
      (ap some (
        ap (λ z. z == 1) (bit_at-bit_or v w (bit_of p))
        ∙ either_bit (bit_at v (bit_of p)) (bit_at w (bit_of p)) (omega arith) (omega arith)))
