-- ===== src/IndexSet/Words.antt =====
-- What is written to one word of a set of indices, and what stays.
use regalloc.Prelude.{
  ℕ, ◌≡◌, ◌≢◌, ◌⊎◌, inl, inr, refl, sym, ap, ◌∙◌, subst, Option, none, some, [], ◌∷◌, ◌++◌, true,
  false, ◌==◌, ◌!=◌, length, Bool-cases, Option-cases, ==_iff, ==_refl, ==_ne, some_inj,
}
use regalloc.Prelude.Sets
use regalloc.Prelude.Sets.{eq_cases, get-put_self, get-put_ne}
use regalloc.IndexSet.{
  Entries, small_elems, AdaptiveMap, small, large, find, modify, reuse, get_or_insert, entries,
  get_mut,
}

abbrev or_zero : Option ℕ → ℕ
or_zero none = 0
or_zero (some w) = w

-- A word that is not there is empty.
abbrev pub word : Entries → ℕ → ℕ
word m k = or_zero (find m k)

cases : (a b : ℕ) → ((a ≡ b) × ((a == b) ≡ true)) ⊎ ((a ≢ b) × ((a == b) ≡ false))
cases = eq_cases (λ a b. a == b) ==_iff

-- No key has two slots.
abbrev pub Distinct : Entries → Type 0
Distinct [] = Unit {0}
Distinct ((k, w) ∷ m) = (find m k ≡ none) × Distinct m

abbrev pub IsSlots : AdaptiveMap → Type 0
IsSlots (small m) = Distinct m
IsSlots (large m) = Unit {0}

-- One word is written and the others stay.
abbrev pub Writes : ℕ → (ℕ → ℕ) → Entries → Entries → Type 0
Writes key write m m' =
    (word m' key ≡ write (word m key)) × ((k : ℕ) → key ≢ k → word m' k ≡ word m k)

module _ (key : ℕ) (write : ℕ → ℕ) where
  find-modify_ne : (m : Entries) (k : ℕ) → key ≢ k → find (modify key write m) k ≡ find m k
  unfolding modify Sets.get
  find-modify_ne [] k ne = refl
  find-modify_ne ((k0, w) ∷ m) k ne = elim (cases k0 key) [
    | inl (q, y) ↦
        let other : (k0 == k) ≡ false = ==_ne k0 k (λ e. ne (sym q ∙ e)) in rw (y, other) refl
    | inr (_, n) ↦ elim (Bool-cases (k0 == k)) [
      | inl y ↦ rw (n, y) refl
      | inr n' ↦ rw (n, n') (find-modify_ne m k ne)
    ]
  ]

  find-modify_self :
      (m : Entries) (w : ℕ) → find m key ≡ some w → find (modify key write m) key ≡ some (write w)
  unfolding modify Sets.get
  find-modify_self [] w h = cc h
  find-modify_self ((k0, w0) ∷ m) w h = elim (Bool-cases (k0 == key)) [
    | inl y ↦ rw (y, y) (ap (λ z. some (write z)) (some_inj w0 w (rw y at h)))
    | inr n ↦ rw (n, n) (find-modify_self m w (rw n at h))
  ]

  find-modify-none : (m : Entries) (k : ℕ) → find m k ≡ none → find (modify key write m) k ≡ none
  unfolding modify Sets.get
  find-modify-none [] k h = h
  find-modify-none ((k0, w0) ∷ m) k h = elim (Bool-cases (k0 == k)) [
    | inl y ↦ cc (rw y at h)
    | inr n ↦ elim (Bool-cases (k0 == key)) [
      | inl t ↦ rw (t, n) (rw n at h)
      | inr t ↦ rw (t, n) (find-modify-none m k (rw n at h))
    ]
  ]

  pub Distinct-modify : (m : Entries) → Distinct m → Distinct (modify key write m)
  unfolding modify
  Distinct-modify [] d = tt
  Distinct-modify ((k0, w0) ∷ m) d = elim (Bool-cases (k0 == key)) [
    | inl y ↦ rw y d
    | inr n ↦ rw n (find-modify-none m k0 d.0, Distinct-modify m d.1)
  ]

  pub modify-Writes :
      (m : Entries) (w : ℕ) → find m key ≡ some w → Writes key write m (modify key write m)
  modify-Writes m w h = (
    ap or_zero (find-modify_self m w h ∙ ap (λ z. some (write z)) (ap or_zero (sym h))),
    λ k ne. ap or_zero (find-modify_ne m k ne),
  )

  find-snoc_self :
      (m : Entries) (w : ℕ) → find m key ≡ none → find (m ++ (key, w) ∷ []) key ≡ some w
  unfolding Sets.get
  find-snoc_self [] w h = rw (==_refl key) refl
  find-snoc_self ((k0, w0) ∷ m) w h = elim (Bool-cases (k0 == key)) [
    | inl y ↦ cc (rw y at h)
    | inr n ↦ rw n (find-snoc_self m w (rw n at h))
  ]

  find-snoc_ne : (m : Entries) (w k : ℕ) → key ≢ k → find (m ++ (key, w) ∷ []) k ≡ find m k
  unfolding Sets.get
  find-snoc_ne [] w k ne = rw (==_ne key k ne) refl
  find-snoc_ne ((k0, w0) ∷ m) w k ne = elim (Bool-cases (k0 == k)) [
    | inl y ↦ rw y refl
    | inr n ↦ rw n (find-snoc_ne m w k ne)
  ]

  Distinct-snoc :
      (m : Entries) (w : ℕ) → find m key ≡ none → Distinct m → Distinct (m ++ (key, w) ∷ [])
  unfolding Sets.get
  Distinct-snoc [] w h d = (refl, tt)
  Distinct-snoc ((k0, w0) ∷ m) w h d = elim (cases k0 key) [
    | inl (_, y) ↦ cc (rw y at h)
    | inr (ne, n) ↦ (find-snoc_ne m w k0 (λ e. ne (sym e)) ∙ d.0, Distinct-snoc m w (rw n at h) d.1)
  ]

  find-reuse_ne :
      (m m' : Entries) (k : ℕ)
      → reuse key write m ≡ some m'
      → find m k ≡ none
      → key ≢ k
      → find m' k ≡ none
  unfolding reuse Sets.get
  find-reuse_ne [] m' k r h ne = cc r
  find-reuse_ne ((k0, w0) ∷ m) m' k r h ne = elim (Bool-cases (k0 == k)) [
    | inl y ↦ cc (rw y at h)
    | inr n ↦ elim (Bool-cases (w0 == 0)) [
      | inl z ↦
          subst (λ q. find q k ≡ none) (some_inj ((key, write w0) ∷ m) m' (rw z at r))
            (rw (==_ne key k ne) (rw n at h))
      | inr z ↦ elim (Option-cases (reuse key write m)) [
        | inl e ↦ cc (rw (z, e, reuse) at r)
        | inr (m1, e) ↦
            subst (λ q. find q k ≡ none) (some_inj ((k0, w0) ∷ m1) m' (rw (z, e, reuse) at r))
              (rw n (find-reuse_ne m m1 k e (rw n at h) ne))
      ]
    ]
  ]

  -- A slot with an empty word changes hands.
  reuse-Writes :
      (m m' : Entries)
      → reuse key write m ≡ some m'
      → find m key ≡ none
      → Distinct m
      → Writes key write m m' × Distinct m'
  unfolding reuse Sets.get
  reuse-Writes [] m' r h d = cc r
  reuse-Writes ((k0, w0) ∷ m) m' r h d = elim (cases k0 key) [
    | inl (_, y) ↦ cc (rw y at h)
    | inr (ne, n) ↦ elim (Bool-cases (w0 == 0)) [
      | inl z ↦
          let zero_word : w0 ≡ 0 = (==_iff w0 0).0 z in
          subst (λ q. Writes key write ((k0, w0) ∷ m) q × Distinct q)
            (some_inj ((key, write w0) ∷ m) m' (rw z at r))
            (
              (
                rw (==_refl key, h) (ap write zero_word),
                λ k other. elim (cases k0 k) [
                  | inl (e, y) ↦
                      rw (==_ne key k other, y)
                        (ap or_zero (ap (find m) (sym e) ∙ d.0) ∙ sym zero_word)
                  | inr (_, t) ↦ rw (==_ne key k other, t) refl
                ],
              ),
              (rw n at h, d.1),
            )
      | inr z ↦ elim (Option-cases (reuse key write m)) [
        | inl e ↦ cc (rw (z, e, reuse) at r)
        | inr (m1, e) ↦
            let ((here, others), d1) = reuse-Writes m m1 e (rw n at h) d.1 in
            subst (λ q. Writes key write ((k0, w0) ∷ m) q × Distinct q)
              (some_inj ((k0, w0) ∷ m1) m' (rw (z, e, reuse) at r))
              (
                (
                  rw n here,
                  λ k other. elim (Bool-cases (k0 == k)) [
                    | inl y ↦ rw y refl
                    | inr t ↦ rw t (others k other)
                  ],
                ),
                (find-reuse_ne m m1 k0 e d.0 (λ q. ne (sym q)), d1),
              )
      ]
    ]
  ]

  put-Writes :
      (m : Entries)
      → find m key ≡ none
      → Writes key write m (Sets.put (λ a b. a == b) key (write 0) m)
  put-Writes m h = (
    ap or_zero (get-put_self (λ a b. a == b) ==_iff key (write 0) m)
        ∙ ap (λ z. write (or_zero z)) (sym h),
    λ k ne. ap or_zero (get-put_ne (λ a b. a == b) ==_iff key k (write 0) m ne),
  )

  abbrev Result : Entries → AdaptiveMap → Type 0
  Result m m' = Writes key write m (entries m') × IsSlots m'

  becomes :
      (m m' : AdaptiveMap)
      → get_or_insert key write m ≡ m'
      → Result (entries m) m'
      → Result (entries m) (get_or_insert key write m)
  becomes m m' q r = subst (Result (entries m)) (sym q) r

  pub get_or_insert-Writes :
      (m : AdaptiveMap)
      → IsSlots m
      → Writes key write (entries m) (entries (get_or_insert key write m))
        × IsSlots (get_or_insert key write m)
  unfolding get_or_insert
  get_or_insert-Writes (large m) d = elim (Option-cases (find m key)) [
    | inl e ↦
        becomes (large m) (large (Sets.put (λ a b. a == b) key (write 0) m))
          (simp (e, get_or_insert) refl) (put-Writes m e, tt)
    | inr (w, e) ↦
        becomes (large m) (large (modify key write m)) (simp (e, get_or_insert) refl)
          (modify-Writes m w e, tt)
  ]
  get_or_insert-Writes (small m) d = elim (Option-cases (find m key)) [
    | inr (w, e) ↦
        becomes (small m) (small (modify key write m)) (simp (e, get_or_insert) refl)
          (modify-Writes m w e, Distinct-modify m d)
    | inl e ↦ elim (Bool-cases (length m != small_elems)) [
      | inl y ↦
          becomes (small m) (small (m ++ (key, write 0) ∷ [])) (simp (e, get_or_insert, y) refl) (
            (
              ap or_zero (find-snoc_self m (write 0) e) ∙ ap (λ z. write (or_zero z)) (sym e),
              λ k ne. ap or_zero (find-snoc_ne m (write 0) k ne),
            ),
            Distinct-snoc m (write 0) e d,
          )
      | inr n ↦ elim (Option-cases (reuse key write m)) [
        | inl none_empty ↦
            becomes (small m) (large (Sets.put (λ a b. a == b) key (write 0) m))
              (simp (e, get_or_insert, n, none_empty) refl) (put-Writes m e, tt)
        | inr (m', r) ↦
            becomes (small m) (small m') (simp (e, get_or_insert, n, r) refl)
              (reuse-Writes m m' r e d)
      ]
    ]
  ]

  -- Where the key is missing nothing is written, and its word stays empty.
  absent : (m : Entries) → write 0 ≡ 0 → Writes key write m (modify key write m)
  absent m z = elim (Option-cases (find m key)) [
    | inr (w, e) ↦ modify-Writes m w e
    | inl e ↦ (
      ap or_zero (find-modify-none m key e) ∙ sym z ∙ ap (λ o. write (or_zero o)) (sym e),
      λ k ne. ap or_zero (find-modify_ne m k ne),
    )
  ]

  pub get_mut-Writes :
      (m : AdaptiveMap)
      → IsSlots m
      → write 0 ≡ 0
      → Writes key write (entries m) (entries (get_mut key write m)) × IsSlots (get_mut key write m)
  unfolding get_mut
  get_mut-Writes (small m) d z = (absent m z, Distinct-modify m d)
  get_mut-Writes (large m) d z = (absent m z, tt)
