-- ===== src/Checker/Registers.antt =====
-- What definitions and parallel moves do to the sets of registers, and to the registers.
use regalloc.Prelude.{
  ◌≡◌, ◌≢◌, ◌↔◌, ◌⊎◌, inl, inr, refl, sym, ap, ◌∙◌, subst, some, List, [], ◌∷◌, ◌++◌, true, false,
  Bool-cases, ==_iff, some_inj,
}
use regalloc.Prelude.Sets.{
  contains, remove, remove_all, eq_refl, eq_cases, contains-extend, contains-remove,
  contains-remove_all, or-cases, or-left, or-right,
}
use regalloc.Reg.VReg.{VReg, vreg_eq, vreg_ext}
use regalloc.Allocation.{Allocation, alloc_eq}
use regalloc.Moves.Store.{alloc_eq_iff}
use regalloc.Checker.{
  CheckerValue, universe, vregs, remove_from_value, additions, insertions, dests, move_vregs,
  from_reg,
}
use regalloc.Checker.Meaning.{Values, bind, assign, Means}

pub vreg_eq_iff : (v w : VReg) → (vreg_eq v w ≡ true) ↔ (v ≡ w)
vreg_eq_iff v w =
    let e = ==_iff v.bits w.bits in (λ h. vreg_ext (e.0 h), λ q. e.1 (ap (λ (u : VReg). u.bits) q))

pub alloc_iff : (a b : Allocation) → (alloc_eq a b ≡ true) ↔ (a ≡ b)
alloc_iff a b =
    (alloc_eq_iff a b, λ q. (==_iff a.bits b.bits).1 (ap (λ (x : Allocation). x.bits) q))

-- `dest` is given the value of `src`.
abbrev pub Gives : List (VReg × VReg) → VReg → VReg → Type 0
Gives [] dest src = ⊥
Gives ((d, s) ∷ moves) dest src = ((d ≡ dest) × (s ≡ src)) ⊎ Gives moves dest src

-- No register is written twice.
abbrev pub OneDest : List (VReg × VReg) → Type 0
OneDest [] = Unit {0}
OneDest ((d, s) ∷ moves) = (contains vreg_eq (dests moves) d ≡ false) × OneDest moves

Gives-dest :
    (moves : List (VReg × VReg)) (dest src : VReg)
    → Gives moves dest src
    → contains vreg_eq (dests moves) dest ≡ true
unfolding contains
Gives-dest [] dest src g = absurd g
Gives-dest ((d, s) ∷ moves) dest src (inl (e, _)) =
    or-left (vreg_eq d dest) (contains vreg_eq (dests moves) dest) ((vreg_eq_iff d dest).1 e)
Gives-dest ((d, s) ∷ moves) dest src (inr g) =
    or-right (vreg_eq d dest) (contains vreg_eq (dests moves) dest) (Gives-dest moves dest src g)

contains-additions :
    (moves : List (VReg × VReg)) (v w : VReg)
    → contains vreg_eq (additions moves v) w ≡ true
    → Gives moves w v
unfolding contains additions
contains-additions [] v w h = cc
contains-additions ((d, s) ∷ moves) v w h = elim (eq_cases vreg_eq vreg_eq_iff s v) [
  | inr (_, n) ↦ inr (contains-additions moves v w (rw n at h))
  | inl (e, y) ↦
      elim (or-cases (vreg_eq d w) (contains vreg_eq (additions moves v) w) (rw y at h)) [
        | inl q ↦ inl ((vreg_eq_iff d w).0 q, e)
        | inr r ↦ inr (contains-additions moves v w r)
      ]
]

contains-append :
    (xs ys : List VReg) (w : VReg)
    → contains vreg_eq (xs ++ ys) w ≡ true
    → (contains vreg_eq xs w ≡ true) ⊎ (contains vreg_eq ys w ≡ true)
unfolding contains
contains-append [] ys w h = inr h
contains-append (x ∷ xs) ys w h = elim (or-cases (vreg_eq x w) (contains vreg_eq (xs ++ ys) w) h) [
  | inl q ↦ inl (or-left (vreg_eq x w) (contains vreg_eq xs w) q)
  | inr r ↦ elim (contains-append xs ys w r) [
    | inl k ↦ inl (or-right (vreg_eq x w) (contains vreg_eq xs w) k)
    | inr k ↦ inr k
  ]
]

contains-insertions :
    (moves : List (VReg × VReg)) (s : List VReg) (w : VReg)
    → contains vreg_eq (insertions moves s) w ≡ true
    → (v : VReg) × (contains vreg_eq s v ≡ true) × Gives moves w v
unfolding contains insertions
contains-insertions moves [] w h = cc
contains-insertions moves (v ∷ s) w h =
    elim (contains-append (additions moves v) (insertions moves s) w h) [
      | inl k ↦ (
        v,
        or-left (vreg_eq v v) (contains vreg_eq s v) (eq_refl vreg_eq vreg_eq_iff v),
        contains-additions moves v w k,
      )
      | inr k ↦
          let (u, l, g) = contains-insertions moves s w k in
          (u, or-right (vreg_eq v u) (contains vreg_eq s u) l, g)
    ]

module _ {V : Type 0} (e : Values V) where
  pub assign-Gives :
      (moves : List (VReg × VReg)) (w src : VReg)
      → OneDest moves
      → Gives moves w src
      → assign moves e w ≡ e src
  unfolding assign
  assign-Gives [] w src one g = absurd g
  assign-Gives ((d, s) ∷ moves) w src one g = elim (eq_cases vreg_eq vreg_eq_iff d w) [
    | inl (q, y) ↦ elim g [
      | inl (_, r) ↦ rw y (ap e r)
      | inr later ↦ cc (
        one.0,
        subst (λ z. contains vreg_eq (dests moves) z ≡ true) (sym q) (Gives-dest moves w src later),
      )
    ]
    | inr (ne, n) ↦ elim g [
      | inl (q, _) ↦ absurd (ne q)
      | inr later ↦ rw n (assign-Gives moves w src one.1 later)
    ]
  ]

  assign-other :
      (moves : List (VReg × VReg)) (w : VReg)
      → ((d : VReg) → contains vreg_eq (dests moves) d ≡ true → d ≢ w)
      → assign moves e w ≡ e w
  unfolding assign contains
  assign-other [] w h = refl
  assign-other ((d, s) ∷ moves) w h = elim (eq_cases vreg_eq vreg_eq_iff d w) [
    | inl (q, _) ↦ absurd (
        h d
          (or-left (vreg_eq d d) (contains vreg_eq (dests moves) d) (eq_refl vreg_eq vreg_eq_iff d))
          q)
    | inr (_, n) ↦ rw n (
        assign-other moves w
          (λ u k. h u (or-right (vreg_eq d u) (contains vreg_eq (dests moves) u) k)))
  ]

  bind_self : (v : VReg) (x : V) → bind e v x v ≡ x
  unfolding bind
  bind_self v x = rw (eq_refl vreg_eq vreg_eq_iff v) refl

  bind_ne : (v w : VReg) (x : V) → v ≢ w → bind e v x w ≡ e w
  unfolding bind
  bind_ne v w x ne = elim (eq_cases vreg_eq vreg_eq_iff v w) [
    | inl (q, _) ↦ absurd (ne q)
    | inr (_, n) ↦ rw n refl
  ]

  assign-some : (moves : List (VReg × VReg)) (w : VReg) → (u : VReg) × (assign moves e w ≡ e u)
  unfolding assign
  assign-some [] w = (w, refl)
  assign-some ((d, s) ∷ moves) w = elim (Bool-cases (vreg_eq d w)) [
    | inl y ↦ (s, rw y refl)
    | inr n ↦ let (u, q) = assign-some moves w in (u, rw n q)
  ]

  pub move_vregs-Means :
      (moves : List (VReg × VReg)) (val : CheckerValue) (x : V)
      → OneDest moves
      → Means val x e
      → Means (move_vregs moves val) x (assign moves e)
  unfolding move_vregs
  move_vregs-Means moves universe x one h = λ w. let (u, q) = assign-some moves w in h u ∙ sym q
  move_vregs-Means moves (vregs s) x one h = λ w k.
      elim (contains-extend vreg_eq vreg_eq_iff (insertions moves s)
        (remove_all vreg_eq (dests moves) s) w k) [
          | inl new ↦
              let (src, l, g) = contains-insertions moves s w new in
              h src l ∙ sym (assign-Gives moves w src one g)
          | inr old ↦
              let (l, ne) = contains-remove_all vreg_eq vreg_eq_iff (dests moves) s w old in
              h w l ∙ sym (assign-other moves w ne)
        ]

  -- A register that is defined anew is taken off the sets.
  pub remove-Means :
      (v : VReg) (x y : V) (val val' : CheckerValue)
      → remove_from_value v val ≡ some val'
      → Means val y e
      → Means val' y (bind e v x)
  unfolding remove_from_value
  remove-Means v x y universe val' r h = cc
  remove-Means v x y (vregs s) val' r h =
      subst (λ z. Means z y (bind e v x)) (some_inj (vregs (remove vreg_eq v s)) val' r)
        (λ w k.
          let (l, ne) = contains-remove vreg_eq vreg_eq_iff v w s k in
          h w l ∙ sym (bind_ne v w x ne))

  pub from_reg-Means : (v : VReg) (x : V) → Means (from_reg v) x (bind e v x)
  unfolding contains
  from_reg-Means v x w k = elim (or-cases (vreg_eq v w) false k) [
    | inl q ↦ sym (ap (bind e v x) (sym ((vreg_eq_iff v w).0 q)) ∙ bind_self v x)
    | inr r ↦ cc r
  ]
