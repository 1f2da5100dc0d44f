-- ===== src/Reg/PRegSet/Iter.antt =====
-- Iteration over a set (`PRegSetIter` in src/lib.rs).
use regalloc.Prelude.{
  ℕ, zero, suc, ◌+◌, ◌*◌, ◌/◌, ◌%◌, bit_and, Option, none, some, List, [], ◌∷◌, ◌==◌, ◌!=◌, length,
  get_elem?, set, if◌then◌else◌,
}
use regalloc.Prelude.Bits.{shl, bit_not}
use regalloc.Reg.PReg
use regalloc.Reg.PReg.{PReg}
use regalloc.Reg.PRegSet.{PRegSet}

pub record PRegSetIter : Type 0 where
  pub bits : List ℕ
  pub cur : ℕ

-- The place of the lowest bit that is set, of a word with a number of bits.
unfoldable pub trailing_zeros : ℕ → ℕ → ℕ
trailing_zeros zero w = 0
trailing_zeros (suc n) w = let more = trailing_zeros n (w / 2) in if w % 2 == 0 then more + 1 else 0

-- The loop of `next`, at most as often as the fuel; `none` is the end.
unfoldable pub next_from : ℕ → PRegSetIter → Option (PReg × PRegSetIter)
unfolding trailing_zeros PReg.from_index
next_from zero it = none
next_from (suc n) it = elim (get_elem? it.bits it.cur) [
  | none ↦ none
  | some bits ↦
      let bit = trailing_zeros 64 bits in
      let skipped = next_from n (record it { cur = it.cur + 1 }) in
      if bits != 0
      then some (
        PReg.from_index (bit + it.cur * 64),
        record it { bits = set it.bits it.cur (bit_and bits (bit_not 64 (shl 64 1 bit))) },
      )
      else skipped
]

unfoldable pub next : PRegSetIter → Option (PReg × PRegSetIter)
unfolding next_from
next it = next_from (length it.bits + 1) it

unfoldable pub collect : ℕ → PRegSetIter → List PReg
unfolding next
collect zero it = []
collect (suc n) it = elim (next it) [ none ↦ [] | some r ↦ r.0 ∷ collect n r.1 ]

-- All items of a set: at most one for each bit.
unfoldable pub into_iter : PRegSet → List PReg
unfolding collect
into_iter s = collect (length s.bits * 64) (record { bits = s.bits; cur = 0 })
