-- ===== src/Ion/Merge/Clear.antt =====
-- Lists of ranges that are in order and do not overlap, and what the scan and the sort make of them.
use regalloc.Prelude.{
  ℕ, zero, suc, ◌≤◌, ◌<◌, ◌≡◌, ◌↔◌, ◌⊎◌, inl, inr, [], ◌∷◌, ◌++◌, true, false, leb, All, In,
  All-append, Bool-cases, arith,
}
use regalloc.ProgPoint
use regalloc.ProgPoint.{ProgPoint, before_inst}
use regalloc.Ion.Ranges.{CodeRange, LiveRangeListEntry}
use regalloc.Ion.Bundle.{LiveBundle, cached_fixed_def}
use regalloc.Ion.Merge.{LiveRangeList, adjust_range_start, no_overlap, insert_entry, sort_entries}

abbrev pub IsNonempty : LiveRangeListEntry → Type 0
IsNonempty e = e.range.from.bits < e.range.to.bits

-- One of two ranges ends before the other starts.
abbrev pub Clear : LiveRangeListEntry → LiveRangeListEntry → Type 0
Clear e e' = (e.range.to.bits ≤ e'.range.from.bits) ⊎ (e'.range.to.bits ≤ e.range.from.bits)

-- Ranges in order that do not overlap.
abbrev pub IsChain : LiveRangeList → Type 0
IsChain [] = Unit {0}
IsChain (e ∷ es) = IsNonempty e × All (λ e'. e.range.to.bits ≤ e'.range.from.bits) es × IsChain es

-- Ranges in any order that do not overlap.
abbrev IsApart : LiveRangeList → Type 0
IsApart [] = Unit {0}
IsApart (e ∷ es) = IsNonempty e × All (Clear e) es × IsApart es

adjust-le : (b : LiveBundle) (r : CodeRange) → (adjust_range_start b r).bits ≤ r.from.bits
unfolding adjust_range_start
adjust-le b r = elim (Bool-cases (cached_fixed_def b)) [
  | inl y ↦ rw y (ProgPoint.before-inst_le r.from)
  | inr n ↦ rw n (omega arith)
]

All-map {κ μ} :
    {P : LiveRangeListEntry → Type κ} {Q : LiveRangeListEntry → Type μ}
    → ((e : LiveRangeListEntry) → P e → Q e)
    → (es : LiveRangeList) → All P es
    → All Q es
All-map f [] h = tt
All-map f (e ∷ es) h = (f e h.0, All-map f es h.1)

All-of {κ} :
    {P : LiveRangeListEntry → Type κ}
    → ((e : LiveRangeListEntry) → P e)
    → (es : LiveRangeList) → All P es
All-of f [] = tt
All-of f (e ∷ es) = (f e, All-of f es)

All-zip :
    (f : LiveRangeListEntry) (fs ts : LiveRangeList)
    → All (λ t. Clear t f) ts
    → All (λ t. All (Clear t) fs) ts
    → All (λ t. All (Clear t) (f ∷ fs)) ts
All-zip f fs [] a b = tt
All-zip f fs (t ∷ ts) a b = ((a.0, b.0), All-zip f fs ts a.1 b.1)

no_overlap-Clear :
    (left : ℕ) (from to : LiveBundle) (fs ts : LiveRangeList)
    → IsChain fs
    → IsChain ts
    → no_overlap left from to fs ts ≡ true
    → All (λ t. All (Clear t) fs) ts
unfolding no_overlap
no_overlap-Clear left from to [] ts cf ct h = All-of (λ t. tt) ts
no_overlap-Clear left from to (f ∷ fs) [] cf ct h = tt
no_overlap-Clear zero from to (f ∷ fs) (t ∷ ts) cf ct h = cc h
no_overlap-Clear (suc left) from to (f ∷ fs) (t ∷ ts) cf ct h =
    elim (Bool-cases (leb t.range.to.bits (adjust_range_start from f.range).bits)) [
      | inl y ↦
          let first : t.range.to.bits ≤ f.range.from.bits =
            ground (arith, y, adjust-le from f.range) in
          (
            (inl first, All-map (λ z le. inl (omega (arith, le, first, cf.0))) fs cf.1),
            no_overlap-Clear left from to (f ∷ fs) ts cf ct.2 (rw (y, no_overlap) at h),
          )
      | inr n ↦ elim (Bool-cases (leb f.range.to.bits (adjust_range_start to t.range).bits)) [
        | inl y ↦
            let first : f.range.to.bits ≤ t.range.from.bits =
              ground (arith, y, adjust-le to t.range) in
            All-zip f fs (t ∷ ts)
              (inr first, All-map (λ z le. inr (omega (arith, le, first, ct.0))) ts ct.1)
              (no_overlap-Clear left from to fs (t ∷ ts) cf.2 ct (rw (n, y, no_overlap) at h))
        | inr n' ↦ cc (rw (n, n', no_overlap) at h)
      ]
    ]

insert_entry-All {κ} :
    (P : LiveRangeListEntry → Type κ) (e : LiveRangeListEntry) (es : LiveRangeList)
    → P e
    → All P es
    → All P (insert_entry e es)
unfolding insert_entry
insert_entry-All P e [] p h = (p, tt)
insert_entry-All P e (x ∷ xs) p h = elim (Bool-cases (leb e.range.from.bits x.range.from.bits)) [
  | inl y ↦ rw y (p, h)
  | inr n ↦ rw n (h.0, insert_entry-All P e xs p h.1)
]

insert_entry-IsChain :
    (e : LiveRangeListEntry) (es : LiveRangeList)
    → IsNonempty e
    → All (Clear e) es
    → IsChain es
    → IsChain (insert_entry e es)
unfolding insert_entry
insert_entry-IsChain e [] ne a c = (ne, tt, tt)
insert_entry-IsChain e (x ∷ xs) ne a c =
    elim (Bool-cases (leb e.range.from.bits x.range.from.bits)) [
      | inl y ↦
          let first : e.range.to.bits ≤ x.range.from.bits = omega (arith, le_of_leb y, a.0, c.0) in
          rw y (ne, (first, All-map (λ z le. omega (arith, le, first, c.0)) xs c.1), c)
      | inr n ↦
          let first : x.range.to.bits ≤ e.range.from.bits = omega (arith, lt_of_leb n, a.0, ne) in
          rw n (
            c.0,
            insert_entry-All (λ z. x.range.to.bits ≤ z.range.from.bits) e xs first c.1,
            insert_entry-IsChain e xs ne a.1 c.2,
          )
    ]
  where
    le_of_leb :
        leb e.range.from.bits x.range.from.bits ≡ true → e.range.from.bits ≤ x.range.from.bits
    le_of_leb h = ground arith

    lt_of_leb :
        leb e.range.from.bits x.range.from.bits ≡ false → x.range.from.bits < e.range.from.bits
    lt_of_leb h = ground arith

pub sort_entries-All {κ} :
    (P : LiveRangeListEntry → Type κ) (es : LiveRangeList) → All P es → All P (sort_entries es)
unfolding sort_entries
sort_entries-All P [] h = tt
sort_entries-All P (e ∷ es) h =
    insert_entry-All P e (sort_entries es) h.0 (sort_entries-All P es h.1)

sort_entries-IsChain : (es : LiveRangeList) → IsApart es → IsChain (sort_entries es)
unfolding sort_entries
sort_entries-IsChain [] h = tt
sort_entries-IsChain (e ∷ es) h =
    insert_entry-IsChain e (sort_entries es) h.0 (sort_entries-All (Clear e) es h.1)
      (sort_entries-IsChain es h.2)

IsChain-IsApart : (es : LiveRangeList) → IsChain es → IsApart es
IsChain-IsApart [] h = tt
IsChain-IsApart (e ∷ es) h = (h.0, All-map (λ z le. inl le) es h.1, IsChain-IsApart es h.2)

IsApart-append :
    (ts fs : LiveRangeList)
    → IsApart ts
    → IsApart fs
    → All (λ t. All (Clear t) fs) ts
    → IsApart (ts ++ fs)
IsApart-append [] fs a b c = b
IsApart-append (t ∷ ts) fs a b c =
    (a.0, All-append (Clear t) ts fs a.1 c.0, IsApart-append ts fs a.2 b c.1)

-- The sorted list of two lists that the scan lets pass is in order and does not overlap.
pub sort_entries-append :
    (left : ℕ) (from to : LiveBundle) (fs ts : LiveRangeList)
    → IsChain fs
    → IsChain ts
    → no_overlap left from to fs ts ≡ true
    → IsChain (sort_entries (ts ++ fs))
sort_entries-append left from to fs ts cf ct h = sort_entries-IsChain (ts ++ fs) (
    IsApart-append ts fs (IsChain-IsApart ts ct) (IsChain-IsApart fs cf)
      (no_overlap-Clear left from to fs ts cf ct h))

insert_entry-In :
    (e x : LiveRangeListEntry) (es : LiveRangeList) → In x (insert_entry e es) ↔ ((x ≡ e) ⊎ In x es)
unfolding insert_entry
insert_entry-In e x [] = ((λ h. h), λ h. h)
insert_entry-In e x (y ∷ es) = elim (Bool-cases (leb e.range.from.bits y.range.from.bits)) [
  | inl h ↦ rw h ((λ h. h), λ h. h)
  | inr h ↦
      let (there, back) = insert_entry-In e x es in
      rw h (
        (λ m. elim m [
          | inl q ↦ inr (inl q)
          | inr m' ↦ elim (there m') [ inl q ↦ inl q | inr k ↦ inr (inr k) ]
        ]),
        λ m. elim m [
          | inl q ↦ inr (back (inl q))
          | inr m' ↦ elim m' [ inl q ↦ inl q | inr k ↦ inr (back (inr k)) ]
        ],
      )
]

pub sort_entries-In :
    (x : LiveRangeListEntry) (es : LiveRangeList) → In x (sort_entries es) ↔ In x es
unfolding sort_entries
sort_entries-In x [] = ((λ h. h), λ h. h)
sort_entries-In x (e ∷ es) =
    let (there, back) = sort_entries-In x es in
    let (out, into) = insert_entry-In e x (sort_entries es) in
    (
      (λ h. elim (out h) [ inl q ↦ inl q | inr k ↦ inr (there k) ]),
      λ h. elim h [ inl q ↦ into (inl q) | inr k ↦ into (inr (back k)) ],
    )
