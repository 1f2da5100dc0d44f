-- ===== src/Domtree.antt =====
-- Walks up a tree of immediate dominators (`dominates` in src/domtree.rs).
use regalloc.Prelude.{
  ℕ, zero, suc, ◌+◌, ◌≤◌, ◌<◌, ◌≡◌, ◌≢◌, ◌↔◌, ◌⊎◌, inl, inr, refl, sym, ◌∙◌, subst, Option, none,
  some, ◌>>=◌, List, Bool, true, false, length, get_elem?, some_inj, if◌then◌else◌, arith,
}
use regalloc.Prelude.Sets.{eq_cases}
use regalloc.Index.{index_iff, Block, index_eq, is_invalid}

-- The loop, at most as often as the fuel; an index out of range panics, which is `none` too.
unfoldable pub dominates : ℕ → List Block → Block → Block → Option Bool
dominates zero idom a b = none
dominates (suc n) idom a b =
    let up = (get_elem? idom b.raw >>= dominates n idom a) in
    if index_eq a b then some true else if is_invalid b then some false else up

-- A block is above itself and above every block whose parent it is above.
pub data Above (idom : List Block) (a : Block) : Block → Type 0 where
  itself : (b : Block) → a ≡ b → Above idom a b
  parent :
      (b p : Block)
      → is_invalid b ≡ false
      → get_elem? idom b.raw ≡ some p
      → Above idom a p
      → Above idom a b

-- Every block has a parent, which is invalid or nearer to the root.
abbrev pub IsTree : (Block → ℕ) → List Block → Type 0
IsTree rank idom =
    (b : Block)
    → b.raw < length idom
    → (p : Block) × (get_elem? idom b.raw ≡ some p)
      × ((is_invalid p ≡ true)
          ⊎ ((is_invalid p ≡ false) × (p.raw < length idom) × (rank p < rank b)))

module _ (rank : Block → ℕ) (idom : List Block) (tree : IsTree rank idom) (a : Block) where
  abbrev Answers : ℕ → Block → Type 0
  Answers n b = (r : Bool) × (dominates n idom a b ≡ some r) × ((r ≡ true) ↔ Above idom a b)

  only_itself : (b : Block) → a ≢ b → is_invalid b ≡ true → Above idom a b → ⊥
  only_itself b ne i (itself _ e) = ne e
  only_itself b ne i (parent _ p v g above) = cc (i, v)

  to_parent :
      (b p : Block) → a ≢ b → get_elem? idom b.raw ≡ some p → Above idom a b → Above idom a p
  to_parent b p ne g (itself _ e) = absurd (ne e)
  to_parent b p ne g (parent _ q v g' above) =
      subst (Above idom a) (some_inj q p (sym g' ∙ g)) above

  above_invalid : (n : ℕ) (b : Block) → is_invalid b ≡ true → Answers (suc n) b
  unfolding dominates
  above_invalid n b i = elim (eq_cases index_eq index_iff a b) [
    | inl (e, y) ↦ (true, rw y refl, (λ h. itself b e, λ above. refl))
    | inr (ne, k) ↦ (false, rw (k, i) refl, (λ h. cc h, λ above. absurd (only_itself b ne i above)))
  ]

  -- For a tree of immediate dominators, a block in it and fuel for its distance from the root: the
  -- walk ends, and answers true exactly if the first block is the second or above it.
  pub dominates-Above :
      (n : ℕ) (b : Block)
      → b.raw < length idom
      → is_invalid b ≡ false
      → rank b + 2 ≤ n
      → (r : Bool) × (dominates n idom a b ≡ some r) × ((r ≡ true) ↔ Above idom a b)
  unfolding dominates
  dominates-Above zero b inside v enough = absurd (omega (arith, enough))
  dominates-Above (suc zero) b inside v enough = absurd (omega (arith, enough))
  dominates-Above (suc (suc n)) b inside v enough = elim (eq_cases index_eq index_iff a b) [
    | inl (e, y) ↦ (true, rw y refl, (λ h. itself b e, λ above. refl))
    | inr (ne, k) ↦
        let (p, g, next) = tree b inside in
        let (r, q, iff) : Answers (suc n) p = elim next [
          | inl i ↦ above_invalid n p i
          | inr (v', inside', lower) ↦ dominates-Above (suc n) p inside' v' (omega arith)
        ] in
        (
          r,
          rw (k, v, g) q,
          (λ h. parent b p v g (iff.0 h), λ above. iff.1 (to_parent b p ne g above)),
        )
  ]
