-- ===== src/Examples/IndexSets.antt =====
-- Sets of indices, in slots and in the hash map.
use regalloc.Prelude.{
  ℕ, zero, suc, ◌*◌, ◌≡◌, refl, [], ◌∷◌, true, false, ◌==◌, if◌then◌else◌, arith,
}
use regalloc.IndexSet.{IndexSet, small, new, set, get}
use regalloc.Prelude.Sets
use regalloc.IndexSet.Members.{IsIndexSet, get-set}

new-IsIndexSet : IsIndexSet new
unfolding Sets.get
new-IsIndexSet = record { no_cache = refl; slots = tt; words = λ k. omega arith }

-- Twelve words, one of them emptied, and a thirteenth.
abbrev with_all : ℕ → IndexSet → IndexSet
with_all zero s = s
with_all (suc n) s = set (n * 64) true (with_all n s)

reuse_run :
    (set 6400 true (set 320 false (with_all 12 new))).elems
    ≡ small (
        (0, 1)
        ∷ (1, 1)
        ∷ (2, 1)
        ∷ (3, 1)
        ∷ (4, 1)
        ∷ (100, 1)
        ∷ (6, 1)
        ∷ (7, 1)
        ∷ (8, 1)
        ∷ (9, 1)
        ∷ (10, 1)
        ∷ (11, 1)
        ∷ [])
unfolding set
reuse_run = refl

get-set_example :
    IsIndexSet (set 70 true new)
    × (get (set 70 true new) 71 ≡ (if 70 == 71 then true else get new 71))
get-set_example = get-set new new-IsIndexSet 70 71 (omega arith) (omega arith) true
