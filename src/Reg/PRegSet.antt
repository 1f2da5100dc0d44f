-- ===== src/Reg/PRegSet.antt =====
-- Sets of physical registers: four words of 64 bits (`PRegSet` in src/lib.rs). `none` is an index
-- out of range.
pub mod Members
pub mod Iter
pub mod Union
use regalloc.Prelude.{
  ℕ, ◌+◌, ◌*◌, ◌/◌, ◌%◌, ◌^◌, ◌≤◌, ◌<◌, max, bit_and, bit_or, ◌≡◌, ◌⊎◌, inl, inr, refl, sym, ap,
  ◌∙◌, subst, Option, none, some, ◌>>=◌, List, [], ◌∷◌, Bool, true, false, ◌||◌, ◌==◌, ◌!=◌,
  if◌then◌else◌, arith, length, get_elem?, set, length-set, get_elem?-set_self, get_elem?-set_ne,
  ℕ_discrete,
}
use regalloc.Prelude.Bits.{
  shl, shr, bit_not, bit_at, bit_and-low_mask, bit_and-pow, bit_at-bit_or, bit_at-bit_and,
  bit_at-pow_self, bit_at-pow_ne, bit_at-bit_not, bit_at_le,
}
use regalloc.Reg.PReg
use regalloc.Reg.PReg.{PReg, preg_eq}

pub record PRegSet : Type 0 where
  pub bits : List ℕ

abbrev pub empty : PRegSet
empty = record { bits = 0 ∷ 0 ∷ 0 ∷ 0 ∷ [] }

-- The word and the bit of a register.
unfoldable pub split_index : PReg → ℕ × ℕ
unfolding PReg.index
split_index reg = (shr (PReg.index reg) 6, bit_and (PReg.index reg) 63)

unfoldable pub contains : PRegSet → PReg → Option Bool
unfolding split_index
contains s reg =
    let (index, bit) = split_index reg in
    get_elem? s.bits index >>= λ w. some (bit_and w (shl 64 1 bit) != 0)

unfoldable pub add : PRegSet → PReg → Option PRegSet
unfolding split_index
add s reg =
    let (index, bit) = split_index reg in
    get_elem? s.bits index >>= λ w.
    some (record { bits = set s.bits index (bit_or w (shl 64 1 bit)) })

unfoldable pub remove : PRegSet → PReg → Option PRegSet
unfolding split_index
remove s reg =
    let (index, bit) = split_index reg in
    get_elem? s.bits index >>= λ w.
    some (record { bits = set s.bits index (bit_and w (bit_not 64 (shl 64 1 bit))) })

unfoldable pub union_words : List ℕ → List ℕ → List ℕ
union_words (a ∷ xs) (b ∷ ys) = bit_or a b ∷ union_words xs ys
union_words xs _ = xs

unfoldable pub union_from : PRegSet → PRegSet → PRegSet
unfolding union_words
union_from s other = record { bits = union_words s.bits other.bits }
