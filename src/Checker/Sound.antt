-- ===== src/Checker/Sound.antt =====
-- What it means for the whole function that the checker finds no error (`Checker::run`).
use regalloc.Prelude.{
  ℕ, zero, suc, ◌≡◌, ◌⊎◌, inl, inr, refl, sym, ap, ◌∙◌, subst, some, List, [], ◌∷◌, ◌++◌, false,
  Bool-cases, List-cases, some_inj, >>=-eq-some,
}
use regalloc.Prelude.Sets.{contains, get, eq_cases}
use regalloc.Index.{index_iff, Block, index_eq}
use regalloc.Function.{Function}
use regalloc.Checker.{CheckerState, top, CheckerInst, update_all, defined}
use regalloc.Checker.Analysis.{
  BlockStates, Checker, Work, edge_eq, block_out, edge_out, turn, start, analyze_from, analyze,
  check_block, check_blocks, find_errors, blocks,
}
use regalloc.Checker.Meaning.{Config, HoldsAllocs, Holds}
use regalloc.Checker.Consistent.{Has, Flows, IsConsistent}
use regalloc.Checker.Turn.{turn-IsConsistent}
use regalloc.Checker.Entry.{analyze_from-Keeps}
use regalloc.Checker.Runs.{
  TrackedAll, Runs, EachRight, Holds-defined, update_all-Holds, update_all-Holds_first,
  check_block-EachRight,
}

-- What the analysis is given: states for the blocks of the function only, an entry that no block
-- goes to, of which nothing is known, and which has an instruction.
pub record IsPrepared (f : Function) (k : Checker) : Type 0 where
  pub only_blocks :
      (b : Block) (st : CheckerState) → get index_eq k.bb_in b ≡ some st → Has (blocks f) b
  pub entry_unknown : get index_eq k.bb_in f.entry_block ≡ some top
  pub entry_begins :
      (i : CheckerInst) × (is : List CheckerInst) × (get index_eq k.bb_insts f.entry_block
        ≡ some (i ∷ is))
  pub no_way_back : (b : Block) → contains index_eq (f.block_succs b) f.entry_block ≡ false

-- What the steps need to be right, in each block from its state and on each edge.
pub record IsTrackedIn (f : Function) (k : Checker) : Type 0 where
  pub in_blocks :
      (b : Block) (st : CheckerState) (is : List CheckerInst)
      → get index_eq k.bb_in b ≡ some st
      → get index_eq k.bb_insts b ≡ some is
      → TrackedAll is st
  pub on_edges :
      (b succ : Block) (st : CheckerState) (is : List CheckerInst)
      → get edge_eq k.edge_insts (b, succ) ≡ some is
      → TrackedAll is st

module _ (V : Type 0) (f : Function) (k : Checker) where
  -- The blocks that the compiled function comes to, and the values it comes with: any at the entry.
  pub data Arrives : Block → Config V → Type 0 where
    enter : (c : Config V) → Arrives f.entry_block c
    follow :
        (block succ : Block) (c c' c'' : Config V) (is es : List CheckerInst)
        → Arrives block c
        → Has (f.block_succs block) succ
        → get index_eq k.bb_insts block ≡ some is
        → Runs is c c'
        → get edge_eq k.edge_insts (block, succ) ≡ some es
        → Runs es c' c''
        → Arrives succ c''

append_nil : {A : Type 0} (xs ys : List A) → xs ++ ys ≡ [] → (xs ≡ []) × (ys ≡ [])
append_nil [] ys h = (refl, h)
append_nil (x ∷ xs) ys h = cc h

check_blocks-none :
    (k : Checker) (m : BlockStates) (b : Block) (st : CheckerState) (is : List CheckerInst)
    → check_blocks k m ≡ some []
    → get index_eq m b ≡ some st
    → get index_eq k.bb_insts b ≡ some is
    → check_block k.machine st is ≡ some []
unfolding check_blocks get
check_blocks-none k [] b st is h at insts = cc at
check_blocks-none k ((block, input) ∷ rest) b st is h at insts =
    let (is', e1, h1) = >>=-eq-some (get index_eq k.bb_insts block) _ h in
    let (errors, e2, h2) = >>=-eq-some (check_block k.machine input is') _ h1 in
    let (more, e3, h3) = >>=-eq-some (check_blocks k rest) _ h2 in
    let (no_errors, no_more) = append_nil errors more (some_inj (errors ++ more) [] h3) in
    elim (eq_cases index_eq index_iff block b) [
      | inr (_, n) ↦ check_blocks-none k rest b st is (e3 ∙ ap some no_more) (rw n at at) insts
      | inl (q, y) ↦
          let same_state : input ≡ st = some_inj input st (rw y at at) in
          let same_insts : is' ≡ is =
            some_inj is' is (sym e1 ∙ ap (get index_eq k.bb_insts) q ∙ insts) in
          ap (λ z. check_block k.machine z is) (sym same_state)
          ∙ ap (check_block k.machine input) (sym same_insts)
          ∙ e2
          ∙ ap some no_errors
    ]

module _ (V : Type 0) (f : Function) (k : Checker) where
  -- The loop starts with every block to be visited.
  pub start-IsConsistent : IsPrepared f k → IsConsistent V f k (start f k)
  start-IsConsistent h = record {
    in_queue = λ b l. l;
    flows = λ block succ away has st at. cc (away, h.only_blocks block st at);
  }

  analyze_from-IsConsistent :
      (fuel : ℕ) (w w' : Work)
      → analyze_from f k fuel w ≡ some w'
      → IsConsistent V f k w
      → IsConsistent V f k w' × (w'.queue ≡ [])
  unfolding analyze_from
  analyze_from-IsConsistent zero w w' h consistent = elim (List-cases w.queue) [
    | inl e ↦
        let q : w ≡ w' = some_inj w w' (rw (e, analyze_from) at h) in
        (subst (IsConsistent V f k) q consistent, subst (λ (z : Work). z.queue ≡ []) q e)
    | inr (b, rest, e) ↦ cc (rw (e, analyze_from) at h)
  ]
  analyze_from-IsConsistent (suc n) w w' h consistent = elim (List-cases w.queue) [
    | inl e ↦
        let q : w ≡ w' = some_inj w w' (rw (e, analyze_from) at h) in
        (subst (IsConsistent V f k) q consistent, subst (λ (z : Work). z.queue ≡ []) q e)
    | inr (b, rest, e) ↦
        let (w1, e1, h1) = >>=-eq-some (turn f k w) _ (rw (e, analyze_from) at h) in
        analyze_from-IsConsistent n w1 w' h1 (turn-IsConsistent V f k w w1 e1 consistent)
  ]

  module _ (fuel : ℕ) (k' : Checker) (found : analyze f k fuel ≡ some k')
      (prepared : IsPrepared f k) (tracked : IsTrackedIn f k') where
    -- What the analysis ends with.
    abbrev IsStable : Type 0
    IsStable =
        (get index_eq k'.bb_in f.entry_block ≡ some top)
        × (k' ≡ record k { bb_in = k'.bb_in })
        × ((b succ : Block) → Has (f.block_succs b) succ → Flows V f k k'.bb_in b succ)

    analyze-IsStable : IsStable
    unfolding analyze contains
    analyze-IsStable =
        let (w, e, q) = >>=-eq-some (analyze_from f k fuel (start f k)) _ found in
        let (consistent, ended) =
          analyze_from-IsConsistent fuel (start f k) w e (start-IsConsistent prepared) in
        subst
          (λ (z : Checker).
            (get index_eq z.bb_in f.entry_block ≡ some top)
            × (z ≡ record k { bb_in = z.bb_in })
            × ((b succ : Block) → Has (f.block_succs b) succ → Flows V f k z.bb_in b succ))
          (some_inj (record k { bb_in = w.bb_in }) k' q)
          (
            analyze_from-Keeps f k f.entry_block top fuel (start f k) w prepared.no_way_back e
                prepared.entry_unknown,
            refl,
            λ b succ has. elim (Bool-cases (contains index_eq w.queue_set b)) [
              | inr n ↦ consistent.flows b succ n has
              | inl y ↦ cc (subst (λ z. Has z b) ended (consistent.in_queue b y))
            ],
          )

    same_insts : k'.bb_insts ≡ k.bb_insts
    same_insts = ap (λ (z : Checker). z.bb_insts) analyze-IsStable.1

    same_edges : k'.edge_insts ≡ k.edge_insts
    same_edges = ap (λ (z : Checker). z.edge_insts) analyze-IsStable.1

    -- At the end of a block that is come to, the state is known.
    block_out-Holds :
        (b : Block) (st state : CheckerState) (is : List CheckerInst) (c c' : Config V)
        → get index_eq k'.bb_in b ≡ some st
        → get index_eq k.bb_insts b ≡ some is
        → update_all is st ≡ some state
        → HoldsAllocs (defined st) c
        → (b ≡ f.entry_block) ⊎ Holds st c
        → Runs is c c'
        → Holds state c'
    block_out-Holds b st state is c c' g insts h described (inr holds) r =
        update_all-Holds is st state c c' h
          (tracked.in_blocks b st is g (ap (λ z. get index_eq z b) same_insts ∙ insts)) holds r
    block_out-Holds b st state is c c' g insts h described (inl at_entry) r =
        let (i, rest, begins) = prepared.entry_begins in
        let q : i ∷ rest ≡ is =
          some_inj (i ∷ rest) is
            (sym begins ∙ ap (get index_eq k.bb_insts) (sym at_entry) ∙ insts) in
        update_all-Holds_first i rest st state c c' (ap (λ z. update_all z st) q ∙ h)
          (subst (λ z. TrackedAll z st) (sym q)
            (tracked.in_blocks b st is g (ap (λ z. get index_eq z b) same_insts ∙ insts)))
          described (subst (λ z. Runs z c c') (sym q) r)

    -- The values that a block is come to with, its state describes.
    Arrives-HoldsAllocs :
        (b : Block) (c : Config V)
        → Arrives V f k b c
        → (st : CheckerState) × (get index_eq k'.bb_in b ≡ some st)
          × HoldsAllocs (defined st) c
          × ((b ≡ f.entry_block) ⊎ Holds st c)
    unfolding defined get block_out edge_out
    Arrives-HoldsAllocs b c (enter c0) = (top, analyze-IsStable.0, λ a val g. cc g, inl refl)
    Arrives-HoldsAllocs b c (follow block succ c0 c1 c2 is es before has insts r edges r') =
        let (st, g, described, known) = Arrives-HoldsAllocs block c0 before in
        let (state, out, out_b, edge_b, (input, g', leq)) =
          analyze-IsStable.2 block succ has st g in
        let (is', e, h) = >>=-eq-some (get index_eq k.bb_insts block) _ out_b in
        let (es', e', h') = >>=-eq-some (get edge_eq k.edge_insts (block, succ)) _ edge_b in
        let leaves : update_all is st ≡ some state =
          ap (λ z. update_all z st) (some_inj is is' (sym insts ∙ e)) ∙ h in
        let enters : update_all es state ≡ some out =
          ap (λ z. update_all z state) (some_inj es es' (sym edges ∙ e')) ∙ h' in
        let holds : Holds input c2 = leq c2 (
          update_all-Holds es state out c1 c2 enters
            (tracked.on_edges block succ state es
              (ap (λ z. get edge_eq z (block, succ)) same_edges ∙ edges))
            (block_out-Holds block st state is c0 c1 g insts leaves described known r) r') in
        (input, g', Holds-defined input c2 holds, inr holds)

    -- Where the analysis of a prepared checker ends and no error is found: whatever the
    -- instructions compute, in every block that the compiled function comes to along its edges,
    -- each instruction has passed its check at its two positions. Before it runs its early
    -- operands, and after it has run its late operands, have allocations that satisfy their
    -- constraints, and uses among them read there the values of their virtual registers; a move is
    -- not from stack to stack. Nothing is said of the late operands of an instruction that has an
    -- operand with a `Reuse` constraint (that operand among them), which the code does not check;
    -- of what a fixed register outside the allocatable ones holds when it is used; or of the
    -- operands of a branch, of which the checker has only parallel moves on the edges. In no state
    -- that the analysis finds may a move bring a value that is not known over one that is, and no
    -- parallel move may write a register twice.
    pub find_errors-EachRight :
        (b : Block) (c : Config V) (is : List CheckerInst)
        → find_errors k' ≡ some []
        → Arrives V f k b c
        → get index_eq k.bb_insts b ≡ some is
        → EachRight k.machine is c
    unfolding find_errors
    find_errors-EachRight b c is none_found arrives insts =
        let (st, g, described, known) = Arrives-HoldsAllocs b c arrives in
        let insts' : get index_eq k'.bb_insts b ≡ some is =
          ap (λ z. get index_eq z b) same_insts ∙ insts in
        subst (λ z. EachRight z is c) (ap (λ (z : Checker). z.machine) analyze-IsStable.1)
          (check_block-EachRight k'.machine is st c
            (check_blocks-none k' k'.bb_in b st is none_found g insts')
            (tracked.in_blocks b st is g insts') described)
