-- ===== src/IndexSet.antt =====
-- Sparse sets of indices (src/indexset.rs): words of 64 bits by their index, in up to twelve slots or
-- in a hash map. The slots are those in use; a reference that is returned to be written through is
-- the function that the caller writes with.
pub mod Words
pub mod Members
use regalloc.Prelude.{
  ℕ, zero, suc, ◌+◌, ◌*◌, ◌/◌, ◌%◌, ◌^◌, bit_and, bit_or, Option, none, some, List, [], ◌∷◌, ◌++◌,
  Bool, true, false, not, ◌&&◌, ◌==◌, ◌!=◌, length, if◌then◌else◌, is_some,
}
use regalloc.Prelude.Bits.{shl, bit_not}
use regalloc.Prelude.Sets

abbrev pub Entries : Type 0
Entries = List (ℕ × ℕ)

abbrev pub small_elems : ℕ
small_elems = 12

pub data AdaptiveMap : Type 0 where
  small : (entries : Entries) → AdaptiveMap
  large : (entries : Entries) → AdaptiveMap

abbrev pub invalid : ℕ
invalid = 0xffff_ffff

abbrev pub new_map : AdaptiveMap
new_map = small []

abbrev pub find : Entries → ℕ → Option ℕ
find m key = Sets.get (λ a b. a == b) m key

unfoldable pub modify : ℕ → (ℕ → ℕ) → Entries → Entries
modify key write [] = []
modify key write ((k, w) ∷ m) =
    let rest = modify key write m in if k == key then (k, write w) ∷ m else (k, w) ∷ rest

-- The first slot with an empty word is given to the key.
unfoldable pub reuse : ℕ → (ℕ → ℕ) → Entries → Option Entries
reuse key write [] = none
reuse key write ((k, w) ∷ m) =
    let rest = reuse key write m in
    if w == 0
    then some ((key, write w) ∷ m)
    else elim rest [ none ↦ none | some m' ↦ some ((k, w) ∷ m') ]

-- `*map.get_or_insert(key) = write(..)`
unfoldable pub get_or_insert : ℕ → (ℕ → ℕ) → AdaptiveMap → AdaptiveMap
unfolding modify reuse Sets.get Sets.put
get_or_insert key write (small m) =
    if is_some (find m key)
    then small (modify key write m)
    else if length m != small_elems
    then small (m ++ (key, write 0) ∷ [])
    else elim (reuse key write m) [
      | some m' ↦ small m'
      | none ↦ large (Sets.put (λ a b. a == b) key (write 0) m)
    ]
get_or_insert key write (large m) = elim (find m key) [
  | some w ↦ large (modify key write m)
  | none ↦ large (Sets.put (λ a b. a == b) key (write 0) m)
]

abbrev pub entries : AdaptiveMap → Entries
entries (small m) = m
entries (large m) = m

-- `if let Some(word) = map.get_mut(key) { *word = write(*word) }`
unfoldable pub get_mut : ℕ → (ℕ → ℕ) → AdaptiveMap → AdaptiveMap
unfolding modify
get_mut key write (small m) = small (modify key write m)
get_mut key write (large m) = large (modify key write m)

unfoldable pub get_word : AdaptiveMap → ℕ → Option ℕ
unfolding Sets.get
get_word m key = find (entries m) key

unfoldable pub all_zero : Entries → Bool
all_zero [] = true
all_zero ((k, w) ∷ m) = w == 0 && all_zero m

pub record IndexSet : Type 0 where
  pub elems : AdaptiveMap
  pub cache : ℕ × ℕ

abbrev pub new : IndexSet
new = record { elems = new_map; cache = (invalid, 0) }

-- The index of a word, as 32 bits.
abbrev pub word_index : ℕ → ℕ
word_index bit_index = bit_index / 64 % 2 ^ 32

abbrev pub drop_cached : IndexSet → ℕ → ℕ × ℕ
drop_cached s word = if s.cache.0 == word then (invalid, 0) else s.cache

unfoldable pub elem : ℕ → (ℕ → ℕ) → IndexSet → IndexSet
unfolding get_or_insert
elem bit_index write s = record {
  elems = get_or_insert (word_index bit_index) write s.elems;
  cache = drop_cached s (word_index bit_index);
}

unfoldable pub maybe_elem_mut : ℕ → (ℕ → ℕ) → IndexSet → IndexSet
unfolding get_mut
maybe_elem_mut bit_index write s = record {
  elems = get_mut (word_index bit_index) write s.elems;
  cache = drop_cached s (word_index bit_index);
}

unfoldable pub maybe_elem : IndexSet → ℕ → Option ℕ
unfolding get_word
maybe_elem s bit_index =
    if s.cache.0 == word_index bit_index
    then some s.cache.1
    else get_word s.elems (word_index bit_index)

unfoldable pub set : ℕ → Bool → IndexSet → IndexSet
unfolding elem maybe_elem_mut
set idx true s = elem idx (λ w. bit_or w (shl 64 1 (idx % 64))) s
set idx false s = maybe_elem_mut idx (λ w. bit_and w (bit_not 64 (shl 64 1 (idx % 64)))) s

unfoldable pub get : IndexSet → ℕ → Bool
unfolding maybe_elem
get s idx = elim (maybe_elem s idx) [
  | some word ↦ bit_and word (shl 64 1 (idx % 64)) != 0
  | none ↦ false
]

-- The loop of `union_with`: the set, and the bits that were not in it before.
unfoldable pub union_entries : Entries → IndexSet → ℕ → IndexSet × ℕ
unfolding elem maybe_elem
union_entries [] s changed = (s, changed)
union_entries ((word_idx, bits) ∷ m) s changed =
    let s' = elem (word_idx * 64) (λ w. bit_or w bits) s in
    let before : ℕ = elim (get_word s.elems (word_index (word_idx * 64))) [
      | some w ↦ w
      | none ↦ 0
    ] in
    let added = union_entries m s' (bit_or changed (bit_and bits (bit_not 64 before))) in
    let skipped = union_entries m s changed in if bits == 0 then skipped else added

unfoldable pub union_with : IndexSet → IndexSet → IndexSet × Bool
unfolding union_entries
union_with s other =
    let (s', changed) = union_entries (entries other.elems) s 0 in (s', changed != 0)

unfoldable pub is_empty : IndexSet → Bool
unfolding all_zero
is_empty s = all_zero (entries s.elems)
