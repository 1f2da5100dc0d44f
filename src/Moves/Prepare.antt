-- ===== src/Moves/Prepare.antt =====
-- What `resolve` does before its search: the moves sorted by destination, without duplicates and
-- without moves that stay where they are.
use regalloc.Prelude.{
  ℕ, zero, suc, ◌+◌, ◌*◌, ◌^◌, ◌≤◌, ◌<◌, ◌≡◌, ◌≢◌, ◌⊎◌, ◌↔◌, inl, inr, refl, sym, ap, ◌∙◌, subst,
  List, [], ◌∷◌, some, Bool, true, false, leb, arith, All, Bool-cases, ℕ_discrete, ==_refl, leb→le,
}
use mathlib.Core.Logic.{⊎_elim}
use regalloc.Prelude.Bits.{shl, bit_or-fields}
use regalloc.Allocation.{Allocation}
use regalloc.Moves.{Move, sort_key, insert_sorted, sort, move_eq, dedup_from, drop_self_moves}
use regalloc.Moves.Store.{alloc_ext, alloc_cases}
use regalloc.Moves.Emitted.{At, OneWriter}

leb-false : (a b : ℕ) → leb a b ≡ false → b ≤ a
leb-false a b h = ground arith

swap_front : {C D : Type 0} (A B : Type 0) → (C ↔ (A ⊎ D)) → (B ⊎ C) ↔ (A ⊎ (B ⊎ D))
swap_front A B e = (
  ⊎_elim (λ b. inr (inl b)) (λ c. ⊎_elim inl (λ d. inr (inr d)) (e.0 c)),
  ⊎_elim (λ a. inr (e.1 (inl a))) (⊎_elim inl (λ d. inr (e.1 (inr d)))),
)

module _ {T : Type 0} where
  abbrev pub MemIn : Move T → List (Move T) → Type 0
  MemIn m [] = ⊥
  MemIn m (x ∷ xs) = (m ≡ x) ⊎ MemIn m xs

  pub All-MemIn :
      (P : Move T → Type 0) (xs : List (Move T)) → All P xs → (m : Move T) → MemIn m xs → P m
  All-MemIn P [] a m h = absurd h
  All-MemIn P (x ∷ xs) a m (inl e) = subst P (sym e) a.0
  All-MemIn P (x ∷ xs) a m (inr h) = All-MemIn P xs a.1 m h

  pub All-of_MemIn :
      (P : Move T → Type 0) (xs : List (Move T)) → ((m : Move T) → MemIn m xs → P m) → All P xs
  All-of_MemIn P [] h = tt
  All-of_MemIn P (x ∷ xs) h = (h x (inl refl), All-of_MemIn P xs (λ m k. h m (inr k)))

  pub MemIn-At : (xs : List (Move T)) (m : Move T) → MemIn m xs → (i : ℕ) × At xs i m
  MemIn-At [] m h = absurd h
  MemIn-At (x ∷ xs) m (inl e) = (0, ap some (sym e))
  MemIn-At (x ∷ xs) m (inr h) = let (i, at) = MemIn-At xs m h in (suc i, at)

  pub At-MemIn : (xs : List (Move T)) (i : ℕ) (m : Move T) → At xs i m → MemIn m xs
  At-MemIn [] i m h = cc
  At-MemIn (x ∷ xs) zero m h = inl (cc)
  At-MemIn (x ∷ xs) (suc i) m h = inr (At-MemIn xs i m h)

  -- Both places are 32-bit words.
  abbrev pub IsWords : Move T → Type 0
  IsWords m = (m.src.bits < 2 ^ 32) × (m.dst.bits < 2 ^ 32)

  key-sum : (m : Move T) → IsWords m → sort_key m ≡ m.src.bits + m.dst.bits * 2 ^ 32
  unfolding sort_key
  key-sum m h = rw shifted (bit_or-fields 32 m.src.bits m.dst.bits h.0)
    where
      shifted : shl 64 m.dst.bits 32 ≡ m.dst.bits * 2 ^ 32
      shifted = omega arith

  abbrev pub Sorted : List (Move T) → Type 0
  Sorted [] = Unit {0}
  Sorted (x ∷ xs) = All (λ y. x.dst.bits ≤ y.dst.bits) xs × Sorted xs

  abbrev pub Strict : List (Move T) → Type 0
  Strict [] = Unit {0}
  Strict (x ∷ xs) = All (λ y. x.dst.bits < y.dst.bits) xs × Strict xs

  insert-mem :
      (m : Move T) (xs : List (Move T)) (a : Move T)
      → MemIn a (insert_sorted m xs) ↔ MemIn a (m ∷ xs)
  unfolding insert_sorted
  insert-mem m [] a = (λ h. h, λ h. h)
  insert-mem m (x ∷ xs) a = elim (Bool-cases (leb (sort_key m) (sort_key x))) [
    | inl e ↦ rw e (λ h. h, λ h. h)
    | inr e ↦ rw e (swap_front (a ≡ m) (a ≡ x) (insert-mem m xs a))
  ]

  pub sort-mem : (xs : List (Move T)) (a : Move T) → MemIn a (sort xs) ↔ MemIn a xs
  unfolding sort
  sort-mem [] a = (λ h. h, λ h. h)
  sort-mem (x ∷ xs) a =
      let i = insert-mem x (sort xs) a in
      let r = sort-mem xs a in
      (λ h. ⊎_elim inl (λ k. inr (r.0 k)) (i.0 h), λ h. i.1 (⊎_elim inl (λ k. inr (r.1 k)) h))

  insert-Sorted :
      (m : Move T) (xs : List (Move T))
      → IsWords m
      → All IsWords xs
      → Sorted xs
      → Sorted (insert_sorted m xs)
  unfolding insert_sorted
  insert-Sorted m [] wm w h = (tt, tt)
  insert-Sorted m (x ∷ xs) wm w h =
      let km = key-sum m wm in
      let kx = key-sum x w.0 in
      elim (Bool-cases (leb (sort_key m) (sort_key x))) [
        | inl e ↦
            let le : m.dst.bits ≤ x.dst.bits =
              omega (arith, km, kx, leb→le (sort_key m) (sort_key x) e) in
            rw e ((le, All-of_MemIn _ xs (λ y k. let q = All-MemIn _ xs h.0 y k in omega arith)), h)
        | inr e ↦
            let le : x.dst.bits ≤ m.dst.bits =
              omega (arith, km, kx, leb-false (sort_key m) (sort_key x) e) in
            rw e (
              All-of_MemIn _ (insert_sorted m xs) (λ y k.
                  ⊎_elim (λ (q : y ≡ m). subst (λ (z : Move T). x.dst.bits ≤ z.dst.bits) (sym q) le)
                    (All-MemIn _ xs h.0 y) ((insert-mem m xs y).0 k)),
              insert-Sorted m xs wm w.1 h.1,
            )
      ]

  pub sort-Sorted : (xs : List (Move T)) → All IsWords xs → Sorted (sort xs)
  unfolding sort
  sort-Sorted [] w = tt
  sort-Sorted (x ∷ xs) w =
      insert-Sorted x (sort xs) w.0
        (All-of_MemIn IsWords (sort xs) (λ m k. All-MemIn IsWords xs w.1 m ((sort-mem xs m).0 k)))
        (sort-Sorted xs w.1)

  pub drop-mem :
      (xs : List (Move T)) (a : Move T)
      → MemIn a (drop_self_moves xs) ↔ (MemIn a xs × (a.src ≢ a.dst))
  unfolding drop_self_moves
  drop-mem [] a = (λ h. absurd h, λ h. h.0)
  drop-mem (x ∷ xs) a = elim (alloc_cases x.src x.dst) [
    | inl (e, t) ↦ rw t (
      λ h. let (k, ne) = (drop-mem xs a).0 h in (inr k, ne),
      λ (h, ne). (drop-mem xs a).1 (
        ⊎_elim (λ (q : a ≡ x). absurd (ne (subst stays (sym q) e))) (λ (k : MemIn a xs). k) h,
        ne,
      ),
    )
    | inr (ne, t) ↦ rw t (
      ⊎_elim (λ (q : a ≡ x). (inl q, λ e. ne (subst stays q e)))
          (λ k. let (k', ne') = (drop-mem xs a).0 k in (inr k', ne')),
      λ (h, ne').
          ⊎_elim (λ (q : a ≡ x). inl q) (λ (k : MemIn a xs). inr ((drop-mem xs a).1 (k, ne'))) h,
    )
  ]
    where
      stays : Move T → Type 0
      stays m = m.src ≡ m.dst

  pub drop-Strict : (xs : List (Move T)) → Strict xs → Strict (drop_self_moves xs)
  unfolding drop_self_moves
  drop-Strict [] h = tt
  drop-Strict (x ∷ xs) h = elim (alloc_cases x.src x.dst) [
    | inl (e, t) ↦ rw t (drop-Strict xs h.1)
    | inr (ne, t) ↦ rw t (
      All-of_MemIn _ (drop_self_moves xs) (λ y k. All-MemIn _ xs h.0 y ((drop-mem xs y).0 k).0),
      drop-Strict xs h.1,
    )
  ]

  above :
      (x m : Move T) (xs : List (Move T)) → Strict (x ∷ xs) → (i : ℕ) → At xs i m → x.dst ≢ m.dst
  above x m xs h i at e =
      let lt = All-MemIn (λ y. x.dst.bits < y.dst.bits) xs h.0 m (At-MemIn xs i m at) in
      absurd (omega (arith, lt, ap (λ (a : Allocation). a.bits) e))

  pub Strict-OneWriter : (xs : List (Move T)) → Strict xs → OneWriter xs
  Strict-OneWriter [] h i j m n at at' e = cc
  Strict-OneWriter (x ∷ xs) h zero zero m n at at' e = refl
  Strict-OneWriter (x ∷ xs) h zero (suc j) m n at at' e = absurd (above x n xs h j at' (cc))
  Strict-OneWriter (x ∷ xs) h (suc i) zero m n at at' e = absurd (above x m xs h i at (cc))
  Strict-OneWriter (x ∷ xs) h (suc i) (suc j) m n at at' e =
      ap suc (Strict-OneWriter xs h.1 i j m n at at' e)

  -- Moves with one destination are one move.
  abbrev pub Agrees : List (Move T) → Type 0
  Agrees xs = (a b : Move T) → MemIn a xs → MemIn b xs → a.dst ≡ b.dst → a ≡ b

  module _ (same : T → T → Bool) (same_iff : (a b : T) → (same a b ≡ true) ↔ (a ≡ b)) where
    move_eq-true : (a b : Move T) → move_eq same a b ≡ true → a ≡ b
    unfolding move_eq
    move_eq-true a b h = ground (arith, same_iff a.info b.info)

    move_eq_refl : (a b : Move T) → a ≡ b → move_eq same a b ≡ true
    unfolding move_eq
    move_eq_refl a b h =
        rw h (rw (==_refl b.src.bits, ==_refl b.dst.bits) ((same_iff b.info b.info).1 refl))

    pub dedup_from-mem :
        (m : Move T) (xs : List (Move T)) (a : Move T)
        → MemIn a (dedup_from same m xs) ↔ MemIn a (m ∷ xs)
    unfolding dedup_from
    dedup_from-mem m [] a = (λ h. h, λ h. h)
    dedup_from-mem m (x ∷ xs) a = elim (Bool-cases (move_eq same x m)) [
      | inl t ↦
          let e = move_eq-true x m t in
          let ih = dedup_from-mem m xs a in
          rw t (
            λ h. ⊎_elim inl (λ k. inr (inr k)) (ih.0 h),
            λ h. ih.1 (⊎_elim inl (⊎_elim (λ (q : a ≡ x). inl (q ∙ e)) inr) h),
          )
      | inr t ↦
          let ih = dedup_from-mem x xs a in
          rw t (⊎_elim inl (λ k. inr (ih.0 k)), ⊎_elim inl (λ k. inr (ih.1 k)))
    ]

    pub dedup_from-Strict :
        (m : Move T) (xs : List (Move T))
        → Sorted (m ∷ xs)
        → Agrees (m ∷ xs)
        → Strict (dedup_from same m xs)
    unfolding dedup_from
    dedup_from-Strict m [] h ag = (tt, tt)
    dedup_from-Strict m (x ∷ xs) h ag = elim (Bool-cases (move_eq same x m)) [
      | inl t ↦
          rw t (dedup_from-Strict m xs (h.0.1, h.1.1) (λ a b k l. ag a b (skip_one k) (skip_one l)))
      | inr t ↦ rw t (
        All-of_MemIn _ (dedup_from same x xs) (λ y k. strictly y ((dedup_from-mem x xs y).0 k) t),
        dedup_from-Strict x xs h.1 (λ a b k l. ag a b (inr k) (inr l)),
      )
    ]
      where
        skip_one : {a : Move T} → MemIn a (m ∷ xs) → MemIn a (m ∷ x ∷ xs)
        skip_one = ⊎_elim inl (λ k. inr (inr k))

        strictly :
            (y : Move T) → MemIn y (x ∷ xs) → move_eq same x m ≡ false → m.dst.bits < y.dst.bits
        strictly y k t = elim (ℕ_discrete m.dst.bits x.dst.bits) [
          | yes e ↦
              cc (t, move_eq_refl x m (ag x m (inr (inl refl)) (inl refl) (alloc_ext (sym e))))
          | no ne ↦
              ⊎_elim
                (λ (q : y ≡ x).
                  subst (λ (z : Move T). m.dst.bits < z.dst.bits) (sym q) (omega (arith, h.0.0)))
                (λ l. let le = All-MemIn _ xs h.1.0 y l in omega (arith, h.0.0)) k
        ]
