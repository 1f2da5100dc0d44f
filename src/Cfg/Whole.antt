-- ===== src/Cfg/Whole.antt =====
-- The loops over all blocks.
use regalloc.Prelude.{
  ℕ, zero, suc, ◌+◌, ◌^◌, ◌≤◌, ◌<◌, ◌≡◌, ◌⊎◌, inl, inr, refl, sym, ap, ◌∙◌, subst, Option, some,
  ◌>>=◌, List, [], ◌∷◌, Bool, true, false, leb, ltb, length, set, replicate, All, length-set,
  get_of_lt, Bool-cases, ℕ_discrete, if◌then◌else◌, arith,
}
use regalloc.Index
use regalloc.Index.{Index, Inst, Block, InstRange, IsRange}
use regalloc.ProgPoint
use regalloc.ProgPoint.{ProgPoint}
use regalloc.Function.{Function}
use regalloc.Ssa.{RegAllocError, crit_edge, disallowed_branch_arg, Result, ok, err, and_then}
use regalloc.Cfg.{
  CfgTables, CfgInfo, Depth, put_at, increment, set_insns, count_backedges, visit_block,
  visit_blocks, close_loops, loop_depths, rest_of_new,
}
use regalloc.Cfg.Checked.{
  IsCritical, HasBranchArg, IsAllowed, check_crit_edges_lem, check_branch_args_lem,
}

-- The tables have their sizes.
record IsSized (f : Function) (t : CfgTables) : Type 0 where
  insns : length t.insn_block ≡ f.num_insts
  entries : length t.block_entry ≡ f.num_blocks
  exits : length t.block_exit ≡ f.num_blocks
  ins : length t.backedge_in ≡ f.num_blocks
  outs : length t.backedge_out ≡ f.num_blocks

-- The entry, the instructions and the neighbours of the blocks are in range, and no block is empty,
-- as `first` and `last` of its instructions assert.
pub record IsInRange (f : Function) : Type 0 where
  pub entry_in : f.entry_block.raw < f.num_blocks
  pub nonempty :
      (b : Block)
      → b.raw < f.num_blocks
      → IsRange (f.block_insns b) × (0 < Index.len (f.block_insns b))
  pub insns_in :
      (b : Block)
      → b.raw < f.num_blocks
      → All (λ i. Index.raw i < f.num_insts) (Index.iter (f.block_insns b))
  pub succs_in :
      (b : Block) → b.raw < f.num_blocks → All (λ s. Index.raw s < f.num_blocks) (f.block_succs b)
  pub preds_in :
      (b : Block) → b.raw < f.num_blocks → All (λ p. Index.raw p < f.num_blocks) (f.block_preds b)
  pub few : f.num_blocks < 2 ^ 32

-- What an error says.
abbrev pub Explains : Function → RegAllocError → Type 0
Explains f e =
    (block : Block) × (block.raw < f.num_blocks)
    × (((pred : Block) × (e ≡ crit_edge pred block) × IsCritical f pred block)
        ⊎ ((e ≡ disallowed_branch_arg (Index.last (f.block_insns block))) × HasBranchArg f block))

put_at_lem :
    {A : Type 0} (xs : List A) (i : ℕ) (v : A) → i < length xs → put_at xs i v ≡ some (set xs i v)
put_at_lem xs i v h = let (old, g) = get_of_lt xs i h in rw g refl

increment_lem :
    (xs : List ℕ) (i : ℕ)
    → i < length xs
    → (ys : List ℕ) × (increment xs i ≡ some ys) × (length ys ≡ length xs)
increment_lem xs i h =
    let (n, g) = get_of_lt xs i h in (set xs i (n + 1), rw g refl, length-set xs i (n + 1))

set_insns_lem :
    (block : Block) (is : List Inst) (insn_block : List Block)
    → All (λ i. Index.raw i < length insn_block) is
    → (ys : List Block) × (set_insns block is insn_block ≡ some ys)
      × (length ys ≡ length insn_block)
unfolding set_insns
set_insns_lem block [] insn_block h = (insn_block, refl, refl)
set_insns_lem block (i ∷ is) insn_block h =
    let same = length-set insn_block i.raw block in
    let (ys, run, len) =
      set_insns_lem block is (set insn_block i.raw block)
        (subst (λ z. All (λ i. Index.raw i < z) is) (sym same) h.1) in
    (ys, rw (put_at_lem insn_block i.raw block h.0) run, len ∙ same)

module _ (f : Function) (range : IsInRange f) where
  count_backedges_lem :
      (block : Block) (succs : List Block) (t : CfgTables)
      → block.raw < f.num_blocks
      → All (λ s. Index.raw s < f.num_blocks) succs
      → IsSized f t
      → (t' : CfgTables) × (count_backedges f block succs t ≡ some t') × IsSized f t'
  unfolding count_backedges
  count_backedges_lem block [] t lt h sized = (t, refl, sized)
  count_backedges_lem block (s ∷ ss) t lt h sized = elim (Bool-cases (leb s.raw block.raw)) [
    | inr n ↦
        let (t', run, sized') = count_backedges_lem block ss t lt h.1 sized in
        (t', ap (step_to t block s ss) n ∙ run, sized')
    | inl y ↦
        let (into, run_in, len_in) =
          increment_lem t.backedge_in s.raw (omega (arith, h.0, sized.ins)) in
        let (out_of, run_out, len_out) =
          increment_lem t.backedge_out block.raw (omega (arith, lt, sized.outs)) in
        let (t', run, sized') =
          count_backedges_lem block ss (record t { backedge_in = into; backedge_out = out_of }) lt
            h.1
            (record {
              insns = sized.insns;
              entries = sized.entries;
              exits = sized.exits;
              ins = len_in ∙ sized.ins;
              outs = len_out ∙ sized.outs;
            }) in
        (t', ap (step_to t block s ss) y ∙ rw (run_in, run_out) run, sized')
  ]
    where
      step_to : CfgTables → Block → Block → List Block → Bool → Option CfgTables
      step_to t block s ss b = elim b [
        | true ↦ increment t.backedge_in s.raw >>= λ into.
            increment t.backedge_out block.raw >>= λ out_of.
            count_backedges f block ss (record t { backedge_in = into; backedge_out = out_of })
        | false ↦ count_backedges f block ss t
      ]

  abbrev Visited : Option (Result CfgTables) → (Block → Type 0) → Type 0
  Visited r P =
      ((t' : CfgTables) × (r ≡ some (ok t')) × IsSized f t' × ((b : Block) → P b → IsAllowed f b))
      ⊎ ((e : RegAllocError) × (r ≡ some (err e)) × Explains f e)

  visit_block_lem :
      (block : Block) (t : CfgTables)
      → block.raw < f.num_blocks
      → IsSized f t
      → Visited (visit_block f block t) (λ b. b ≡ block)
  unfolding visit_block
  visit_block_lem block t lt sized =
      let (insn_block, run_i, len_i) =
        set_insns_lem block (Index.iter (f.block_insns block)) t.insn_block (
          subst (λ z. All (λ i. Index.raw i < z) (Index.iter (f.block_insns block)))
            (sym sized.insns) (range.insns_in block lt)) in
      let entry = ProgPoint.before (Index.first (f.block_insns block)) in
      let run_e = put_at_lem t.block_entry block.raw entry (omega (arith, lt, sized.entries)) in
      let exit = ProgPoint.after (Index.last (f.block_insns block)) in
      let run_x = put_at_lem t.block_exit block.raw exit (omega (arith, lt, sized.exits)) in
      elim (check_crit_edges_lem f block) [
        | inr (pred, e, critical) ↦ inr (
          crit_edge pred block,
          simp (run_i, run_e, run_x, e) refl,
          (block, lt, inl (pred, refl, critical)),
        )
        | inl (e, fine) ↦ elim (check_branch_args_lem f block) [
          | inr (e', arg) ↦ inr (
            disallowed_branch_arg (Index.last (f.block_insns block)),
            simp (run_i, run_e, run_x, e, e') refl,
            (block, lt, inr (refl, arg)),
          )
          | inl (e', fine') ↦
              let (t', run, sized') =
                count_backedges_lem block (f.block_succs block)
                  (record t {
                    insn_block = insn_block;
                    block_entry = set t.block_entry block.raw entry;
                    block_exit = set t.block_exit block.raw exit;
                  })
                  lt (range.succs_in block lt)
                  (record {
                    insns = len_i ∙ sized.insns;
                    entries = length-set t.block_entry block.raw entry ∙ sized.entries;
                    exits = length-set t.block_exit block.raw exit ∙ sized.exits;
                    ins = sized.ins;
                    outs = sized.outs;
                  }) in
              inl (
                t',
                simp (run_i, run_e, run_x, e, e', run) refl,
                sized',
                λ b q. subst (IsAllowed f) (sym q) (fine, fine'),
              )
        ]
      ]

  visit_blocks_lem :
      (n i : ℕ) (t : CfgTables)
      → i + n ≡ f.num_blocks
      → IsSized f t
      → Visited (visit_blocks f n i t) (λ b. (i ≤ b.raw) × (b.raw < f.num_blocks))
  unfolding visit_blocks Index.new
  visit_blocks_lem zero i t e sized =
      inl (t, refl, sized, λ b h. absurd (omega (arith, e, h.0, h.1)))
  visit_blocks_lem (suc n) i t e sized =
      let block = Index.new i in
      let same : block.raw ≡ i = omega (arith, e, range.few) in
      elim (visit_block_lem block t (omega (arith, e, same)) sized) [
        | inr (er, run, why) ↦ inr (er, ap continue run, why)
        | inl (t', run, sized', here) ↦
            elim (visit_blocks_lem n (i + 1) t' (omega (arith, e)) sized') [
              | inr (er, run', why) ↦ inr (er, ap continue run ∙ run', why)
              | inl (t'', run', sized'', later) ↦ inl (
                t'',
                ap continue run ∙ run',
                sized'',
                λ b h. elim (ℕ_discrete b.raw i) [
                  | yes q ↦ here b (Index.index_ext (omega (arith, q, same)))
                  | no ne ↦ later b (omega (arith, h.0, ne), h.1)
                ],
              )
            ]
      ]
    where
      continue : Option (Result CfgTables) → Option (Result CfgTables)
      continue r = and_then r (visit_blocks f n (i + 1))

loop_depths_lem :
    (ins outs : List ℕ) (d : Depth)
    → length ins ≡ length outs
    → (depths : List ℕ) × (loop_depths ins outs d ≡ some depths)
unfolding loop_depths
loop_depths_lem [] outs d e = ([], refl)
loop_depths_lem (n ∷ ins) [] d e = absurd (omega (arith, e))
loop_depths_lem (n ∷ ins) (o ∷ outs) d e =
    let entered : Depth =
      if ltb 0 n
      then record { backedge_stack = n ∷ d.backedge_stack; cur_depth = d.cur_depth + 1 }
      else d in
    let (depths, run) = loop_depths_lem ins outs (close_loops o entered) (omega (arith, e)) in
    (entered.cur_depth ∷ depths, rw run refl)

length-replicate : {A : Type 0} (n : ℕ) (a : A) → length (replicate n a) ≡ n
length-replicate zero a = refl
length-replicate (suc n) a = ap suc (length-replicate n a)

-- About `CFGInfo::new` behind its calls of `postorder::calculate` and `domtree::calculate`, whatever
-- these have returned; that they return is not claimed. For an entry in range and nonempty blocks
-- whose instructions, successors and predecessors are in range, of which there are fewer than 2^32:
-- the rest of the function returns the control-flow information or an error. In the first case no
-- edge is critical and no branch to a block with several predecessors has operands. An error names
-- such an edge or such a branch.
pub rest_of_new-Explains :
    (f : Function) (postorder domtree : List Block)
    → IsInRange f
    → ((info : CfgInfo) × (rest_of_new f postorder domtree ≡ some (ok info))
        × ((b : Block) → b.raw < f.num_blocks → IsAllowed f b))
      ⊎ ((e : RegAllocError) × (rest_of_new f postorder domtree ≡ some (err e)) × Explains f e)
unfolding rest_of_new
rest_of_new-Explains f postorder domtree range =
    elim (visit_blocks_lem f range f.num_blocks 0 first (omega arith) first-IsSized) [
      | inr (e, run, why) ↦ inr (e, rw run refl, why)
      | inl (t, run, sized, fine) ↦
          let (depths, run') =
            loop_depths_lem t.backedge_in t.backedge_out
              (record { backedge_stack = []; cur_depth = 0 }) (sized.ins ∙ sym sized.outs) in
          inl (info t depths, ap finish run ∙ rw run' refl, λ b lt. fine b (omega arith, lt))
    ]
  where
    no_point : ProgPoint
    no_point = ProgPoint.before Index.invalid

    first : CfgTables
    first = record {
      insn_block = replicate f.num_insts Index.invalid;
      block_entry = replicate f.num_blocks no_point;
      block_exit = replicate f.num_blocks no_point;
      backedge_in = replicate f.num_blocks 0;
      backedge_out = replicate f.num_blocks 0;
    }

    first-IsSized : IsSized f first
    first-IsSized = record {
      insns = length-replicate f.num_insts Index.invalid;
      entries = length-replicate f.num_blocks no_point;
      exits = length-replicate f.num_blocks no_point;
      ins = length-replicate f.num_blocks 0;
      outs = length-replicate f.num_blocks 0;
    }

    info : CfgTables → List ℕ → CfgInfo
    info t depths = record {
      postorder = postorder;
      domtree = domtree;
      insn_block = t.insn_block;
      block_entry = t.block_entry;
      block_exit = t.block_exit;
      approx_loop_depth = depths;
    }

    finish : Option (Result CfgTables) → Option (Result CfgInfo)
    finish r = and_then r (λ t.
        loop_depths t.backedge_in t.backedge_out (record { backedge_stack = []; cur_depth = 0 })
        >>= λ depths. some (ok (info t depths)))
