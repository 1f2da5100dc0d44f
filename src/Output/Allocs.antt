-- ===== src/Output/Allocs.antt =====
-- Where the allocations of an instruction lie in the vector of all allocations.
use regalloc.Prelude.{
  ℕ, zero, suc, ◌+◌, ◌-◌, ◌≡◌, refl, sym, ap, ◌∙◌, subst, Option, some, ◌>>=◌, List, [], ◌∷◌, ◌++◌,
  false, ltb, ◌==◌, length, get_elem?, length-append, if◌then◌else◌, arith,
}
use regalloc.Allocation.{Allocation}
use regalloc.Index
use regalloc.Index.{Inst}
use regalloc.Output.{Output, drop, take, slice, inst_allocs}

abbrev pub concat : {A : Type 0} → List (List A) → List A
concat [] = []
concat (l ∷ ls) = l ++ concat ls

-- The offset of each list when they are laid one behind the other.
abbrev pub offsets : {A : Type 0} → ℕ → List (List A) → List ℕ
offsets n [] = []
offsets n (l ∷ ls) = n ∷ offsets (n + length l) ls

-- The output has these allocations for the instructions, one behind the other.
pub record IsLaidOut (ls : List (List Allocation)) (out : Output) : Type 0 where
  pub all_allocs : out.allocs ≡ concat ls
  pub all_offsets : out.inst_alloc_offsets ≡ offsets 0 ls

append_assoc : {A : Type 0} (xs ys zs : List A) → (xs ++ ys) ++ zs ≡ xs ++ (ys ++ zs)
append_assoc [] ys zs = refl
append_assoc (x ∷ xs) ys zs = ap (λ l. x ∷ l) (append_assoc xs ys zs)

take-length : {A : Type 0} (l rest : List A) → take (length l) (l ++ rest) ≡ l
unfolding take
take-length [] rest = refl
take-length (x ∷ l) rest = ap (λ z. x ∷ z) (take-length l rest)

drop-length : {A : Type 0} (xs ys : List A) → drop (length xs) (xs ++ ys) ≡ ys
unfolding drop
drop-length [] ys = refl
drop-length (x ∷ xs) ys = drop-length xs ys

slice_middle :
    {A : Type 0} (xs l rest : List A)
    → slice (length xs) (length xs + length l) (xs ++ (l ++ rest)) ≡ some l
unfolding slice
slice_middle xs l rest =
    let ordered : ltb (length xs + length l) (length xs) ≡ false = ground arith in
    let inside : ltb (length (xs ++ (l ++ rest))) (length xs + length l) ≡ false =
      ground (arith, length-append xs (l ++ rest), length-append l rest) in
    let size : length xs + length l - length xs ≡ length l = omega arith in
    rw (ordered, inside, size, drop-length xs (l ++ rest), take-length l rest) refl

-- What `inst_allocs` reads, by the number of the instruction.
abbrev read : {A : Type 0} → List ℕ → List A → ℕ → Option (List A)
read offs xs j = get_elem? offs j >>= λ start.
    if j + 1 == length offs
    then slice start (length xs) xs
    else (get_elem? offs (j + 1) >>= λ end. slice start end xs)

read_next :
    {A : Type 0} (n : ℕ) (offs : List ℕ) (xs : List A) (j : ℕ)
    → read (n ∷ offs) xs (suc j) ≡ read offs xs j
read_next n offs xs j =
    let up : suc j + 1 ≡ suc (j + 1) = omega arith in
    let same : (suc (j + 1) == suc (length offs)) ≡ (j + 1 == length offs) = ground arith in
    rw (up, same) refl

read_layout :
    {A : Type 0} (xs : List A) (ls : List (List A)) (j : ℕ) (l : List A)
    → get_elem? ls j ≡ some l
    → read (offsets (length xs) ls) (xs ++ concat ls) j ≡ some l
read_layout xs [] j l h = cc h
read_layout xs (l1 ∷ []) zero l h =
    subst (λ n. slice (length xs) n (xs ++ (l1 ++ [])) ≡ some l1) (sym total)
      (slice_middle xs l1 [])
    ∙ h
  where
    total : length (xs ++ (l1 ++ [])) ≡ length xs + length l1
    total = omega (arith, length-append xs (l1 ++ []), length-append l1 [])
read_layout xs (l1 ∷ l2 ∷ ls) zero l h =
    let more : (1 == suc (suc (length (offsets (length xs + length l1 + length l2) ls)))) ≡ false =
      ground arith in
    rw more (slice_middle xs l1 (concat (l2 ∷ ls)) ∙ h)
read_layout xs (l1 ∷ ls) (suc j) l h =
    read_next (length xs) (offsets (length xs + length l1) ls) (xs ++ (l1 ++ concat ls)) j
    ∙ ap (λ n. read (offsets n ls) (xs ++ (l1 ++ concat ls)) j) (sym (length-append xs l1))
    ∙ ap (λ z. read (offsets (length (xs ++ l1)) ls) z j) (sym (append_assoc xs l1 (concat ls)))
    ∙ read_layout (xs ++ l1) ls j l h

-- Where the allocations of the instructions lie one behind the other and the offsets say where each
-- begins, `inst_allocs` returns those of each instruction, the last included.
pub inst_allocs-IsLaidOut :
    (ls : List (List Allocation)) (out : Output) (i : Inst) (l : List Allocation)
    → IsLaidOut ls out
    → get_elem? ls i.raw ≡ some l
    → inst_allocs out i ≡ some l
unfolding inst_allocs Index.index
inst_allocs-IsLaidOut ls out i l h e =
    ap (λ o. read o out.allocs i.raw) h.all_offsets
    ∙ ap (λ xs. read (offsets 0 ls) xs i.raw) h.all_allocs
    ∙ read_layout [] ls i.raw l e
