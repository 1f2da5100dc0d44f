-- ===== src/Examples/Trees.antt =====
-- Three blocks, each the immediate dominator of the next.
use regalloc.Prelude.{
  ℕ, zero, suc, ◌<◌, ◌≡◌, ◌↔◌, ◌⊎◌, inl, inr, refl, some, List, [], ◌∷◌, Bool, true, false,
  get_elem?, arith,
}
use regalloc.Index.{Block, invalid, is_invalid}
use regalloc.Domtree.{dominates, Above, IsTree, dominates-Above}

abbrev chain : List Block
chain = invalid ∷ record { raw = 0 } ∷ record { raw = 1 } ∷ []

chain-parent :
    (n : ℕ)
    → n < 3
    → (p : Block) × (get_elem? chain n ≡ some p)
      × ((is_invalid p ≡ true) ⊎ ((is_invalid p ≡ false) × (p.raw < 3) × (p.raw < n)))
chain-parent zero h = (invalid, refl, inl refl)
chain-parent (suc zero) h = (record { raw = 0 }, refl, inr (refl, omega arith, omega arith))
chain-parent (suc (suc zero)) h = (record { raw = 1 }, refl, inr (refl, omega arith, omega arith))
chain-parent (suc (suc (suc n))) h = absurd (omega (arith, h))

chain-IsTree : IsTree (λ b. b.raw) chain
chain-IsTree b h = chain-parent b.raw h

dominates_run : dominates 4 chain (record { raw = 0 }) (record { raw = 2 }) ≡ some true
unfolding dominates
dominates_run = refl

dominates-Above_example :
    (r : Bool) × (dominates 4 chain (record { raw = 0 }) (record { raw = 2 }) ≡ some r)
    × ((r ≡ true) ↔ Above chain (record { raw = 0 }) (record { raw = 2 }))
dominates-Above_example =
    dominates-Above (λ b. b.raw) chain chain-IsTree (record { raw = 0 }) 4 (record { raw = 2 })
      (omega arith) refl (omega arith)
