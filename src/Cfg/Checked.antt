-- ===== src/Cfg/Checked.antt =====
-- Which inputs the construction of the control-flow information refuses.
use regalloc.Prelude.{
  ℕ, ◌≤◌, ◌<◌, ◌≡◌, ◌⊎◌, inl, inr, refl, List, [], ◌∷◌, true, false, ltb, length, All, In, All-In,
  Bool-cases, arith,
}
use regalloc.Index
use regalloc.Index.{Inst, Block, InstRange}
use regalloc.Function.{Function}
use regalloc.Ssa.{crit_edge, disallowed_branch_arg, ok, err}
use regalloc.Cfg.{
  count_preds, check_edges, check_crit_edges, require_no_branch_args, is_nil, check_branch_args,
}

-- An edge from a block with several successors to one with several predecessors.
abbrev pub IsCritical : Function → Block → Block → Type 0
IsCritical f pred block =
    (1 < count_preds f block) × In pred (f.block_preds block) × (1 < length (f.block_succs pred))

-- A branch with operands to a block with several predecessors.
abbrev pub HasBranchArg : Function → Block → Type 0
HasBranchArg f block =
    ((succ : Block) × In succ (f.block_succs block) × (1 < count_preds f succ))
    × (is_nil f (f.inst_operands (Index.last (f.block_insns block))) ≡ false)

abbrev pub IsAllowed : Function → Block → Type 0
IsAllowed f block = ((pred : Block) → IsCritical f pred block → ⊥) × (HasBranchArg f block → ⊥)

module _ (f : Function) where
  check_edges_lem :
      (block : Block) (preds : List Block)
      → ((check_edges f block preds ≡ ok tt) × All (λ p. length (f.block_succs p) ≤ 1) preds)
        ⊎ ((pred : Block) × (check_edges f block preds ≡ err (crit_edge pred block))
            × In pred preds
            × (1 < length (f.block_succs pred)))
  unfolding check_edges
  check_edges_lem block [] = inl (refl, tt)
  check_edges_lem block (p ∷ ps) = elim (Bool-cases (ltb 1 (length (f.block_succs p)))) [
    | inl y ↦ inr (p, rw y refl, inl refl, ground (arith, y))
    | inr n ↦ elim (check_edges_lem block ps) [
      | inl (e, all) ↦ inl (rw n e, (ground (arith, n), all))
      | inr (pred, e, m, lt) ↦ inr (pred, rw n e, inr m, lt)
    ]
  ]

  pub check_crit_edges_lem :
      (block : Block)
      → ((check_crit_edges f block ≡ ok tt) × ((pred : Block) → IsCritical f pred block → ⊥))
        ⊎ ((pred : Block) × (check_crit_edges f block ≡ err (crit_edge pred block))
            × IsCritical f pred block)
  unfolding check_crit_edges
  check_crit_edges_lem block = elim (Bool-cases (ltb 1 (count_preds f block))) [
    | inr n ↦ inl (rw n refl, λ pred c. few (count_preds f block) n c.0)
    | inl y ↦ elim (check_edges_lem block (f.block_preds block)) [
      | inl (e, all) ↦ inl (
        rw y e,
        λ pred c. omega (
          arith,
          c.2,
          All-In (λ p. length (f.block_succs p) ≤ 1) (f.block_preds block) pred all c.1,
        ),
      )
      | inr (pred, e, m, lt) ↦ inr (pred, rw y e, (many (count_preds f block) y, m, lt))
    ]
  ]
    where
      few : (n : ℕ) → ltb 1 n ≡ false → 1 < n → ⊥
      few n h k = ground arith

      many : (n : ℕ) → ltb 1 n ≡ true → 1 < n
      many n h = ground arith

  require_lem :
      (succs : List Block)
      → ((require_no_branch_args f succs ≡ true)
          × ((succ : Block) × In succ succs × (1 < count_preds f succ)))
        ⊎ ((require_no_branch_args f succs ≡ false) × All (λ s. count_preds f s ≤ 1) succs)
  unfolding require_no_branch_args
  require_lem [] = inr (refl, tt)
  require_lem (s ∷ ss) = elim (Bool-cases (ltb 1 (count_preds f s))) [
    | inl y ↦ inl (rw y refl, (s, inl refl, ground (arith, y)))
    | inr n ↦ elim (require_lem ss) [
      | inl (e, (succ, m, lt)) ↦ inl (rw n e, (succ, inr m, lt))
      | inr (e, all) ↦ inr (rw n e, (ground (arith, n), all))
    ]
  ]

  pub check_branch_args_lem :
      (block : Block)
      → ((check_branch_args f block ≡ ok tt) × (HasBranchArg f block → ⊥))
        ⊎ ((check_branch_args f block
              ≡ err (disallowed_branch_arg (Index.last (f.block_insns block))))
            × HasBranchArg f block)
  unfolding check_branch_args
  check_branch_args_lem block = elim (require_lem (f.block_succs block)) [
    | inr (e, all) ↦ inl (
      rw e refl,
      λ h.
          let (succ, m, lt) = h.0 in
          omega (arith, lt, All-In (λ s. count_preds f s ≤ 1) (f.block_succs block) succ all m),
    )
    | inl (e, several) ↦
        elim (Bool-cases (is_nil f (f.inst_operands (Index.last (f.block_insns block))))) [
          | inl y ↦ inl (rw e (rw y refl), λ h. cc (y, h.1))
          | inr n ↦ inr (rw e (rw n refl), (several, n))
        ]
  ]
