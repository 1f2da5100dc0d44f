-- ===== src/Ssa/Ends.antt =====
-- How blocks must end.
use regalloc.Prelude.{
  ℕ, zero, suc, ◌+◌, ◌^◌, ◌≤◌, ◌<◌, ◌≡◌, ◌≢◌, ◌⊎◌, inl, inr, refl, ap, ◌∙◌, subst, Option, some,
  List, [], ◌∷◌, Bool, true, ◌||◌, ==_iff, ==_ne, length, All, In, Bool-cases, ℕ_discrete, arith,
}
use regalloc.Index
use regalloc.Index.{Index, Inst, Block, index_eq}
use regalloc.Function.{Function}
use regalloc.Ssa.{
  RegAllocError, bb, branch, Result, ok, err, and_then, check_branch_args, check_terminator,
  check_terminators, check_ends,
}

module _ (f : Function) where
  -- From one successor on, as many arguments as parameters.
  abbrev pub ArgsMatch : Block → Inst → ℕ → List Block → Type 0
  ArgsMatch block insn i [] = Unit {0}
  ArgsMatch block insn i (s ∷ ss) =
      (length (f.block_params s) ≡ length (f.branch_blockparams block insn i))
      × ArgsMatch block insn (i + 1) ss

  abbrev pub is_last : Block → Inst → Bool
  is_last block insn = index_eq insn (Index.last (f.block_insns block))

  -- A branch or return exactly at the end, with arguments that match if it is a branch.
  abbrev pub IsPlacedRight : Block → Inst → Type 0
  IsPlacedRight block insn =
      ((f.is_branch insn || f.is_ret insn) ≡ is_last block insn)
      × (f.is_branch insn ≡ true → ArgsMatch block insn 0 (f.block_succs block))

  -- What is wrong where an error is returned.
  abbrev pub Blames : Block → Inst → RegAllocError → Type 0
  Blames block insn e =
      ((e ≡ bb block) × ((f.is_branch insn || f.is_ret insn) ≢ is_last block insn))
      ⊎ ((e ≡ branch insn)
          × (f.is_branch insn ≡ true)
          × (ArgsMatch block insn 0 (f.block_succs block) → ⊥))

  check_branch_args_lem :
      (block : Block) (insn : Inst) (i : ℕ) (succs : List Block)
      → ((check_branch_args f block insn i succs ≡ ok tt) × ArgsMatch block insn i succs)
        ⊎ ((check_branch_args f block insn i succs ≡ err (branch insn))
            × (ArgsMatch block insn i succs → ⊥))
  unfolding check_branch_args
  check_branch_args_lem block insn i [] = inl (refl, tt)
  check_branch_args_lem block insn i (s ∷ ss) =
      elim (ℕ_discrete (length (f.block_params s)) (length (f.branch_blockparams block insn i))) [
        | no ne ↦ inr (
          rw (==_ne (length (f.block_params s)) (length (f.branch_blockparams block insn i)) ne)
              refl,
          λ m. ne m.0,
        )
        | yes q ↦ elim (check_branch_args_lem block insn (i + 1) ss) [
          | inl (e, m) ↦ inl (
            rw
                ((==_iff (length (f.block_params s)) (length (f.branch_blockparams block insn i))).1
                  q)
                e,
            (q, m),
          )
          | inr (e, m) ↦ inr (
            rw
                ((==_iff (length (f.block_params s)) (length (f.branch_blockparams block insn i))).1
                  q)
                e,
            λ k. m k.1,
          )
        ]
      ]

  check_terminator_lem :
      (block : Block) (insn : Inst)
      → ((check_terminator f block insn ≡ ok tt) × IsPlacedRight block insn)
        ⊎ ((e : RegAllocError) × (check_terminator f block insn ≡ err e) × Blames block insn e)
  unfolding check_terminator
  check_terminator_lem block insn = elim (Bool-cases (is_last block insn)) [
    | inl last ↦ elim (Bool-cases (f.is_branch insn)) [
      | inl br ↦ elim (check_branch_args_lem block insn 0 (f.block_succs block)) [
        | inl (e, m) ↦ inl (rw (last, br) e, (rw (last, br) refl, λ k. m))
        | inr (e, m) ↦ inr (branch insn, rw (last, br) e, inr (refl, br, m))
      ]
      | inr nb ↦ elim (Bool-cases (f.is_ret insn)) [
        | inl r ↦ inl (rw (last, nb, r) refl, (rw (last, nb, r) refl, λ k. cc (nb, k)))
        | inr nr ↦ inr (bb block, rw (last, nb, nr) refl, inl (refl, λ q. cc (last, nb, nr, q)))
      ]
    ]
    | inr inner ↦ elim (Bool-cases (f.is_branch insn)) [
      | inl br ↦ inr (bb block, rw (inner, br) refl, inl (refl, λ q. cc (inner, br, q)))
      | inr nb ↦ elim (Bool-cases (f.is_ret insn)) [
        | inl r ↦ inr (bb block, rw (inner, nb, r) refl, inl (refl, λ q. cc (inner, nb, r, q)))
        | inr nr ↦ inl (rw (inner, nb, nr) refl, (rw (inner, nb, nr) refl, λ k. cc (nb, k)))
      ]
    ]
  ]

  check_terminators_lem :
      (block : Block) (is : List Inst)
      → ((check_terminators f block is ≡ some (ok tt)) × All (IsPlacedRight block) is)
        ⊎ ((e : RegAllocError) × (insn : Inst) × (check_terminators f block is ≡ some (err e))
            × In insn is
            × Blames block insn e)
  unfolding check_terminators
  check_terminators_lem block [] = inl (refl, tt)
  check_terminators_lem block (i ∷ is) = elim (check_terminator_lem block i) [
    | inr (e, run, why) ↦ inr (e, i, rw run refl, inl refl, why)
    | inl (run, right) ↦ elim (check_terminators_lem block is) [
      | inl (run', rights) ↦ inl (rw run run', (right, rights))
      | inr (e, insn, run', m, why) ↦ inr (e, insn, rw run run', inr m, why)
    ]
  ]

  check_ends_from :
      (n i : ℕ)
      → i + n ≡ f.num_blocks
      → f.num_blocks < 2 ^ 32
      → ((check_ends f n i ≡ some (ok tt))
          × ((b : Block)
              → i ≤ b.raw
              → b.raw < f.num_blocks
              → All (IsPlacedRight b) (Index.iter (f.block_insns b))))
        ⊎ ((e : RegAllocError) × (b : Block) × (insn : Inst) × (check_ends f n i ≡ some (err e))
            × (b.raw < f.num_blocks)
            × In insn (Index.iter (f.block_insns b))
            × Blames b insn e)
  unfolding check_ends Index.new
  check_ends_from zero i e few = inl (refl, λ b le lt. absurd (omega (arith, e, le, lt)))
  check_ends_from (suc n) i e few =
      let block = Index.new i in
      let same : block.raw ≡ i = omega (arith, e, few) in
      elim (check_terminators_lem block (Index.iter (f.block_insns block))) [
        | inr (er, insn, run, m, why) ↦
            inr (er, block, insn, ap continue run, omega (arith, same, e), m, why)
        | inl (run, rights) ↦ elim (check_ends_from n (i + 1) (omega (arith, e)) few) [
          | inr (er, b, insn, run', lt, m, why) ↦
              inr (er, b, insn, ap continue run ∙ run', lt, m, why)
          | inl (run', others) ↦ inl (
            ap continue run ∙ run',
            λ b le lt. elim (ℕ_discrete b.raw i) [
              | yes q ↦
                  subst (λ z. All (IsPlacedRight z) (Index.iter (f.block_insns z)))
                    (Index.index_ext (omega (arith, q, same))) rights
              | no ne ↦ others b (omega (arith, le, ne)) lt
            ],
          )
        ]
      ]
    where
      continue : Option (Result Unit) → Option (Result Unit)
      continue r = and_then r (λ u. check_ends f n (i + 1))

  -- For fewer than 2^32 blocks, the check of the ends of blocks returns. Without an error, branches
  -- and returns stand exactly at the ends of blocks, and every branch passes each successor as many
  -- arguments as it has parameters. An error blames an instruction that breaks this.
  pub check_ends-IsPlacedRight :
      f.num_blocks < 2 ^ 32
      → ((check_ends f f.num_blocks 0 ≡ some (ok tt))
          × ((b : Block)
              → b.raw < f.num_blocks
              → All (IsPlacedRight b) (Index.iter (f.block_insns b))))
        ⊎ ((e : RegAllocError) × (b : Block) × (insn : Inst) × (check_ends f f.num_blocks 0
              ≡ some (err e))
            × (b.raw < f.num_blocks)
            × In insn (Index.iter (f.block_insns b))
            × Blames b insn e)
  check_ends-IsPlacedRight few = elim (check_ends_from f.num_blocks 0 (omega arith) few) [
    | inl (run, rights) ↦ inl (run, λ b lt. rights b (omega arith) lt)
    | inr bad ↦ inr bad
  ]
