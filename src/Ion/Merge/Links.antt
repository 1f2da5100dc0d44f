-- ===== src/Ion/Merge/Links.antt =====
-- The up-links from ranges to their bundle.
use regalloc.Prelude.{
  ℕ, ◌≡◌, ◌≢◌, ◌⊎◌, inl, inr, refl, sym, ap, ◌∙◌, subst, some, List, [], ◌∷◌, length, get_elem?,
  set, All, length-set, lt_of_get, get_elem?-set_self, get_elem?-set_ne, some_inj, ℕ_discrete,
}
use regalloc.Index.{Index}
use regalloc.Ion.Ranges.{LiveRange, LiveRangeListEntry}
use regalloc.Ion.Merge.{LiveRangeList, set_bundles}

-- An entry names a range that names its bundle.
abbrev pub Linked : List LiveRange → ℕ → LiveRangeListEntry → Type 0
Linked ranges j e =
    (r : LiveRange) × (get_elem? ranges e.index.raw ≡ some r) × (Index.raw r.bundle ≡ j)

-- A range is as before, or its link goes to one bundle now and went there or to another one.
abbrev pub Relinked : ℕ → Index → LiveRange → LiveRange → Type 0
Relinked from to r r' =
    (r' ≡ r)
    ⊎ ((r' ≡ record r { bundle = to })
        × ((Index.raw r.bundle ≡ from) ⊎ (Index.raw r.bundle ≡ to.raw)))

abbrev pub AllRelinked : ℕ → Index → List LiveRange → List LiveRange → Type 0
AllRelinked from to ranges ranges' =
    (i : ℕ) (r : LiveRange)
    → get_elem? ranges i ≡ some r
    → (r' : LiveRange) × (get_elem? ranges' i ≡ some r') × Relinked from to r r'

Relinked-trans :
    {from : ℕ} {to : Index} {r r' r'' : LiveRange}
    → Relinked from to r r'
    → Relinked from to r' r''
    → Relinked from to r r''
Relinked-trans {from} {to} {r} {r'} {r''} (inl e) h = subst (λ z. Relinked from to z r'') e h
Relinked-trans {from} {to} {r} {r'} {r''} (inr (e, was)) (inl e') = inr (e' ∙ e, was)
Relinked-trans {from} {to} {r} {r'} {r''} (inr (e, was)) (inr (e', was')) =
    inr (e' ∙ ap (λ (z : LiveRange). record z { bundle = to }) e, was)

abbrev pub EitherLinked : ℕ → Index → List LiveRange → LiveRangeListEntry → Type 0
EitherLinked from to ranges e = Linked ranges from e ⊎ Linked ranges to.raw e

module _ (from : ℕ) (to : Index) (ranges ranges' : List LiveRange)
    (rel : AllRelinked from to ranges ranges') where
  pub Linked-Relinked :
      (k : ℕ) (e : LiveRangeListEntry) → Linked ranges k e → k ≢ from → Linked ranges' k e
  Linked-Relinked k e (r, g, at_k) ne =
      let (r', g', was) = rel e.index.raw r g in (r', g', still r' was)
    where
      still : (r' : LiveRange) → Relinked from to r r' → Index.raw r'.bundle ≡ k
      still r' (inl q) = ap (λ (z : LiveRange). Index.raw z.bundle) q ∙ at_k
      still r' (inr (q, inl was)) = absurd (ne (sym at_k ∙ was))
      still r' (inr (q, inr was)) = ap (λ (z : LiveRange). Index.raw z.bundle) q ∙ sym was ∙ at_k

  Linked-after :
      (k : ℕ) (e : LiveRangeListEntry)
      → Linked ranges k e
      → Linked ranges' k e ⊎ Linked ranges' to.raw e
  Linked-after k e (r, g, at_k) =
      let (r', g', was) = rel e.index.raw r g in
      elim was [
        | inl q ↦ inl (r', g', ap (λ (z : LiveRange). Index.raw z.bundle) q ∙ at_k)
        | inr (q, h) ↦ inr (r', g', ap (λ (z : LiveRange). Index.raw z.bundle) q)
      ]

  keeps_link : (e : LiveRangeListEntry) → Linked ranges to.raw e → Linked ranges' to.raw e
  keeps_link e l = elim (Linked-after to.raw e l) [ inl l' ↦ l' | inr l' ↦ l' ]

  either-Relinked :
      (es : LiveRangeList)
      → All (EitherLinked from to ranges) es
      → All (EitherLinked from to ranges') es
  either-Relinked [] h = tt
  either-Relinked (e ∷ es) (inl l, rest) = (Linked-after from e l, either-Relinked es rest)
  either-Relinked (e ∷ es) (inr l, rest) = (inr (keeps_link e l), either-Relinked es rest)

module _ (from : ℕ) (to : Index) where
  set-AllRelinked :
      (ranges : List LiveRange) (i : ℕ) (r : LiveRange)
      → get_elem? ranges i ≡ some r
      → (Index.raw r.bundle ≡ from) ⊎ (Index.raw r.bundle ≡ to.raw)
      → AllRelinked from to ranges (set ranges i (record r { bundle = to }))
  set-AllRelinked ranges i r g was j s g' = elim (ℕ_discrete i j) [
    | yes q ↦
        let same = some_inj r s (sym g ∙ ap (get_elem? ranges) q ∙ g') in
        (
          record r { bundle = to },
          subst
              (λ z.
                get_elem? (set ranges i (record r { bundle = to })) z
                ≡ some (record r { bundle = to }))
              q (get_elem?-set_self ranges i (record r { bundle = to }) (lt_of_get ranges i r g)),
          inr (
            ap (λ (z : LiveRange). record z { bundle = to }) same,
            subst
                (λ z.
                  (Index.raw (LiveRange.bundle z) ≡ from)
                  ⊎ (Index.raw (LiveRange.bundle z) ≡ to.raw))
                same was,
          ),
        )
    | no ne ↦ (s, get_elem?-set_ne ranges i j (record r { bundle = to }) ne ∙ g', inl refl)
  ]

  pub set_bundles-Linked :
      (es : LiveRangeList) (ranges : List LiveRange)
      → All (EitherLinked from to ranges) es
      → (ranges' : List LiveRange) × (set_bundles to es ranges ≡ some ranges')
        × AllRelinked from to ranges ranges'
        × (length ranges' ≡ length ranges)
        × All (Linked ranges' to.raw) es
  unfolding set_bundles
  set_bundles-Linked [] ranges h = (ranges, refl, (λ i r g. (r, g, inl refl)), refl, tt)
  set_bundles-Linked (e ∷ es) ranges h =
      let (r, g, was) = one_of (h.0) in
      let rel = set-AllRelinked ranges e.index.raw r g was in
      let (ranges', run, rel', len, linked) =
        set_bundles-Linked es (set ranges e.index.raw (record r { bundle = to }))
          (either-Relinked from to ranges _ rel es h.1) in
      let here : Linked (set ranges e.index.raw (record r { bundle = to })) to.raw e = (
        record r { bundle = to },
        get_elem?-set_self ranges e.index.raw _ (lt_of_get ranges e.index.raw r g),
        refl,
      ) in
      (
        ranges',
        rw g run,
        (λ i s q.
            let (s', q', one) = rel i s q in
            let (s'', q'', two) = rel' i s' q' in (s'', q'', Relinked-trans one two)),
        len ∙ length-set ranges e.index.raw _,
        (keeps_link from to _ ranges' rel' e here, linked),
      )
    where
      one_of :
          EitherLinked from to ranges e
          → (r : LiveRange) × (get_elem? ranges e.index.raw ≡ some r)
            × ((Index.raw r.bundle ≡ from) ⊎ (Index.raw r.bundle ≡ to.raw))
      one_of (inl (r, g, q)) = (r, g, inl q)
      one_of (inr (r, g, q)) = (r, g, inr q)
