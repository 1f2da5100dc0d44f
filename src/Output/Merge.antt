-- ===== src/Output/Merge.antt =====
-- Where the edits of a block stand among its instructions.
use regalloc.Prelude.{
  ℕ, zero, suc, ◌+◌, ◌*◌, ◌^◌, ◌≤◌, ◌<◌, ◌≡◌, inl, inr, refl, sym, ap, ◌∙◌, none, some, List, [],
  ◌∷◌, ◌++◌, map, Bool, true, false, ◌&&◌, leb, ltb, length, if◌then◌else◌, Bool-cases, All, arith,
  ◌==◌,
}
use regalloc.Prelude.Sets.{filter}
use regalloc.Index
use regalloc.Index.{Inst, Block, InstRange, IsRange, first, rest, len, iter, insts_from, iter-rest}
use regalloc.ProgPoint
use regalloc.ProgPoint.{ProgPoint}
use regalloc.Function.{Function}
use regalloc.Output.{
  Edit, InstOrEdit, inst, edit, Edits, Output, comes_before, next, collect, edits_from,
  block_insts_and_edits, block_items,
}

abbrev pub From : ℕ → Edits → Type 0
From lo es = All (λ e. lo ≤ e.0.bits) es

-- In the order of their points.
abbrev pub Sorted : Edits → Type 0
Sorted [] = Unit {0}
Sorted (e ∷ es) = From e.0.bits es × Sorted es

-- The edits at points from one to another.
abbrev pub within : ℕ → ℕ → Edits → Edits
within lo hi es = filter (λ e. leb lo e.0.bits && leb e.0.bits hi) es

-- The reference: before each instruction the edits at the points behind the instruction before it
-- up to the one before itself, before the first those from a point on.
unfoldable pub place : ℕ → Edits → List Inst → List InstOrEdit
unfolding filter ProgPoint.before
place lo es [] = []
place lo es (i ∷ is) =
    let hi = (ProgPoint.before i).bits in
    map (λ e. edit e.1) (within lo hi es) ++ inst i ∷ place (hi + 1) es is

-- The iterator's own order: edits are taken while they come before the next instruction.
unfoldable taken : ℕ → Edits → Edits
taken hi [] = []
taken hi (e ∷ es) = let more = taken hi es in if leb e.0.bits hi then e ∷ more else []

unfoldable merge : Edits → List Inst → List InstOrEdit
unfolding taken edits_from ProgPoint.before
merge es [] = []
merge es (i ∷ is) =
    let hi = (ProgPoint.before i).bits in
    map (λ e. edit e.1) (taken hi es) ++ inst i ∷ merge (edits_from (hi + 1) es) is

From-le : (lo lo' : ℕ) (es : Edits) → lo ≤ lo' → From lo' es → From lo es
From-le lo lo' [] h f = tt
From-le lo lo' (e ∷ es) h f = (omega (arith, f.0), From-le lo lo' es h f.1)

within_none : (lo hi : ℕ) (es : Edits) → From (hi + 1) es → within lo hi es ≡ []
unfolding filter
within_none lo hi [] f = refl
within_none lo hi (e ∷ es) f =
    rw (later) (rw (and_false (leb lo e.0.bits)) (within_none lo hi es f.1))
  where
    later : leb e.0.bits hi ≡ false
    later = ground (arith, f.0)

    and_false : (b : Bool) → (b && false) ≡ false
    and_false true = refl
    and_false false = refl

taken-within : (lo hi : ℕ) (es : Edits) → From lo es → Sorted es → taken hi es ≡ within lo hi es
unfolding taken filter
taken-within lo hi [] f s = refl
taken-within lo hi (e ∷ es) f s = elim (Bool-cases (leb e.0.bits hi)) [
  | inl y ↦ rw (lower, y) (ap (λ l. e ∷ l) (taken-within lo hi es f.1 s.1))
  | inr n ↦
      rw (lower, n)
        (sym (within_none lo hi es (From-le (hi + 1) e.0.bits es (ground (arith, n)) s.0)))
]
  where
    lower : leb lo e.0.bits ≡ true
    lower = ground (arith, f.0)

From-edits_from : (lo : ℕ) (es : Edits) → Sorted es → From lo (edits_from lo es)
unfolding edits_from
From-edits_from lo [] s = tt
From-edits_from lo (e ∷ es) s = elim (Bool-cases (ltb e.0.bits lo)) [
  | inl y ↦ rw y (From-edits_from lo es s.1)
  | inr n ↦
      let above : lo ≤ e.0.bits = ground (arith, n) in
      rw n (above, From-le lo e.0.bits es above s.0)
]

Sorted-edits_from : (lo : ℕ) (es : Edits) → Sorted es → Sorted (edits_from lo es)
unfolding edits_from
Sorted-edits_from lo [] s = tt
Sorted-edits_from lo (e ∷ es) s = elim (Bool-cases (ltb e.0.bits lo)) [
  | inl y ↦ rw y (Sorted-edits_from lo es s.1)
  | inr n ↦ rw n s
]

within-edits_from : (lo hi : ℕ) (es : Edits) → within lo hi (edits_from lo es) ≡ within lo hi es
unfolding edits_from filter
within-edits_from lo hi [] = refl
within-edits_from lo hi (e ∷ es) = elim (Bool-cases (ltb e.0.bits lo)) [
  | inl y ↦
      let below : leb lo e.0.bits ≡ false = ground (arith, y) in
      rw (y, below) (within-edits_from lo hi es)
  | inr n ↦ rw n refl
]

edits_from_twice :
    (lo lo' : ℕ) (es : Edits) → lo ≤ lo' → edits_from lo' (edits_from lo es) ≡ edits_from lo' es
unfolding edits_from
edits_from_twice lo lo' [] h = refl
edits_from_twice lo lo' (e ∷ es) h = elim (Bool-cases (ltb e.0.bits lo)) [
  | inl y ↦
      let below : ltb e.0.bits lo' ≡ true = ground (arith, y, h) in
      rw (y, below) (edits_from_twice lo lo' es h)
  | inr n ↦ rw n refl
]

-- The points before the instructions go up from a point.
abbrev Rises : ℕ → List Inst → Type 0
Rises lo [] = Unit {0}
Rises lo (i ∷ is) = (lo ≤ (ProgPoint.before i).bits + 1) × Rises ((ProgPoint.before i).bits + 1) is

merge-place :
    (is : List Inst) (lo : ℕ) (es : Edits)
    → Sorted es
    → Rises lo is
    → merge (edits_from lo es) is ≡ place lo es is
unfolding merge place
merge-place [] lo es s r = refl
merge-place (i ∷ is) lo es s r =
    let hi = (ProgPoint.before i).bits in
    let front : taken hi (edits_from lo es) ≡ within lo hi es =
      taken-within lo hi (edits_from lo es) (From-edits_from lo es s) (Sorted-edits_from lo es s)
      ∙ within-edits_from lo hi es in
    let back : merge (edits_from (hi + 1) (edits_from lo es)) is ≡ place (hi + 1) es is =
      ap (λ l. merge l is) (edits_from_twice lo (hi + 1) es r.0)
      ∙ merge-place is (hi + 1) es s r.1 in
    ap (λ l. map (λ e. edit e.1) l ++ inst i ∷ merge (edits_from (hi + 1) (edits_from lo es)) is)
      front
    ∙ ap (λ l. map (λ e. edit e.1) (within lo hi es) ++ inst i ∷ l) back

len-rest : (r : InstRange) → IsRange r → 0 < len r → len (rest r) + 1 ≡ len r
unfolding len rest
len-rest r h lt = omega (arith, h.valid, h.ordered)

iter_empty : (r : InstRange) → len r ≡ 0 → iter r ≡ []
unfolding iter insts_from
iter_empty r e = rw e refl

-- With fuel for every edit and instruction left, the iterator ends with the merge.
abbrev Collects : ℕ → Type 0
Collects n =
    (es : Edits) (r : InstRange)
    → IsRange r
    → length es + len r ≤ n
    → collect n (record { edits = es; inst_range = r }) ≡ merge es (iter r)

module _ (r : InstRange) where
  next_done :
      (es : Edits) → (len r == 0) ≡ true → next (record { edits = es; inst_range = r }) ≡ none
  unfolding next
  next_done es k = rw k refl

  next_alone :
      (len r == 0) ≡ false
      → next (record { edits = []; inst_range = r })
        ≡ some (inst (first r), record { edits = []; inst_range = rest r })
  unfolding next
  next_alone k = rw k refl

  next_edit :
      (e : ProgPoint × Edit) (es : Edits)
      → (len r == 0) ≡ false
      → comes_before e.0 (first r) ≡ true
      → next (record { edits = e ∷ es; inst_range = r })
        ≡ some (edit e.1, record { edits = es; inst_range = r })
  unfolding next
  next_edit e es k y = rw (k, y) refl

  next-inst :
      (e : ProgPoint × Edit) (es : Edits)
      → (len r == 0) ≡ false
      → comes_before e.0 (first r) ≡ false
      → next (record { edits = e ∷ es; inst_range = r })
        ≡ some (inst (first r), record { edits = e ∷ es; inst_range = rest r })
  unfolding next
  next-inst e es k n = rw (k, n) refl

collect-merge_step :
    (n : ℕ)
    → Collects n
    → (es : Edits) (r : InstRange) → IsRange r
    → length es + len r ≤ suc n
    → 0 < len r
    → (len r == 0) ≡ false
    → iter r ≡ first r ∷ iter (rest r)
    → IsRange (rest r)
    → collect (suc n) (record { edits = es; inst_range = r }) ≡ merge es (iter r)
unfolding collect merge comes_before taken edits_from
collect-merge_step n ih [] r h enough lt k e h' =
    rw (next_alone r k, collect, e)
      (ap (λ l. inst (first r) ∷ l) (ih [] (rest r) h' (omega (arith, len-rest r h lt))))
collect-merge_step n ih (e1 ∷ es) r h enough lt k e h' = elim (Bool-cases (leb e1.0.bits hi)) [
  | inl y ↦
      let below : ltb e1.0.bits (hi + 1) ≡ true = ground (arith, y) in
      rw (next_edit r e1 es k y, collect, e, y, below)
        (ap (λ l. edit e1.1 ∷ l) (ih es r h (omega arith) ∙ ap (merge es) e))
  | inr m ↦
      let above : ltb e1.0.bits (hi + 1) ≡ false = ground (arith, m) in
      rw (next-inst r e1 es k m, collect, e, m, above)
        (ap (λ l. inst (first r) ∷ l) (ih (e1 ∷ es) (rest r) h' (omega (arith, len-rest r h lt))))
]
  where
    hi : ℕ
    hi = (ProgPoint.before (first r)).bits

collect-merge : (n : ℕ) → Collects n
unfolding collect merge
collect-merge zero es r h enough = rw (iter_empty r (omega arith)) refl
collect-merge (suc n) es r h enough = elim (Bool-cases (len r == 0)) [
  | inl y ↦ rw (next_done r es y, collect, iter_empty r (ground (arith, y))) refl
  | inr k ↦
      let lt : 0 < len r = ground (arith, k) in
      let front = iter-rest r h lt in
      collect-merge_step n (collect-merge n) es r h enough lt k front.0 front.3
]

before-bits : (i : ℕ) → i < 2 ^ 31 → (ProgPoint.before (Index.new i)).bits ≡ i * 2
unfolding ProgPoint.before Index.new
before-bits i h =
    omega (arith, ProgPoint.new-bits (Index.new i) ProgPoint.before_inst (omega arith))

Rises-insts_from : (n i lo : ℕ) → lo ≤ i * 2 + 1 → i + n < 2 ^ 31 → Rises lo (insts_from n i)
unfolding insts_from
Rises-insts_from zero i lo h k = tt
Rises-insts_from (suc n) i lo h k =
    let e = before-bits i (omega arith) in
    (
      omega (arith, e),
      Rises-insts_from n (i + 1) ((ProgPoint.before (Index.new i)).bits + 1) (omega (arith, e))
          (omega arith),
    )

-- For edits sorted by their points and a block whose instructions have numbers below 2^31: the
-- iteration of the block ends, meets each of its instructions once and in order, and before each
-- instruction the edits at the points behind the instruction before it up to the one before itself;
-- before the first instruction of the block, those at the point before it.
pub block_items-place :
    (f : Function) (out : Output) (block : Block)
    → IsRange (f.block_insns block)
    → (f.block_insns block).to.raw < 2 ^ 31
    → Sorted out.edits
    → block_items f out block
      ≡ place
          (ProgPoint.before (first (f.block_insns block))).bits
          out.edits
          (iter (f.block_insns block))
unfolding block_items block_insts_and_edits iter len first Index.index ProgPoint.before
block_items-place f out block h small s =
    let r = f.block_insns block in
    let lo = (ProgPoint.before (first r)).bits in
    collect-merge (length (edits_from lo out.edits) + len r) (edits_from lo out.edits) r h
      (omega arith)
    ∙ merge-place (iter r) lo out.edits s (
        Rises-insts_from (len r) r.from.raw lo
          (omega
            (arith, ProgPoint.new-bits r.from ProgPoint.before_inst (omega (arith, h.ordered))))
          (omega (arith, h.ordered)))
