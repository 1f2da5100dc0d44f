-- ===== src/Checker/Prepared.antt =====
-- What `Checker::new` and `prepare` set up for the analysis.
use regalloc.Prelude.{
  ◌≡◌, inl, inr, refl, sym, ap, ◌∙◌, subst, some, List, [], ◌∷◌, false, All, some_inj, >>=-eq-some,
}
use regalloc.Prelude.Sets.{contains, get, put, get-put, get-put_self, or-left, or-right}
use regalloc.Reg.PReg.{PReg}
use regalloc.Reg.PRegSet
use regalloc.Reg.VReg.{VReg, vreg_eq}
use regalloc.Index.{index_iff, Block, index_eq}
use regalloc.Function.{Function}
use regalloc.Output.{Output}
use regalloc.Checker.{CheckerState, top, CheckerInst, move, parallel_move, op, dests}
use regalloc.Checker.Analysis.{
  Checker, Edge, edge_eq, blocks, new, new_blocks, empty_edges, add_all,
}
use regalloc.Checker.Prepare.{prepare}
use regalloc.Checker.Filling.{edge_iff, IsParamMove, prepare_blocks-IsFilling}
use regalloc.Checker.Registers.{OneDest}
use regalloc.Checker.Runs.{TrackedAll}
use regalloc.Checker.Consistent.{Has}
use regalloc.Checker.Sound.{IsPrepared}

-- No block has a parameter twice.
abbrev pub Distinct : List VReg → Type 0
Distinct [] = Unit {0}
Distinct (v ∷ vs) = (contains vreg_eq vs v ≡ false) × Distinct vs

module _ (f : Function) where
  -- Every state is `top`, of a block of a list.
  abbrev Blank : List Block → Checker → Type 0
  Blank l k =
      ((b : Block) (st : CheckerState) → get index_eq k.bb_in b ≡ some st → (top ≡ st) × Has l b)
      × ((e : Edge) (es : List CheckerInst) → get edge_eq k.edge_insts e ≡ some es → [] ≡ es)

  empty_edges-none :
      (block : Block) (succs : List Block) (m : List (Edge × List CheckerInst))
      → ((e : Edge) (es : List CheckerInst) → get edge_eq m e ≡ some es → [] ≡ es)
      → (e : Edge) (es : List CheckerInst) → get edge_eq (empty_edges block succs m) e ≡ some es
      → [] ≡ es
  unfolding empty_edges
  empty_edges-none block [] m h = h
  empty_edges-none block (succ ∷ succs) m h =
      empty_edges-none block succs (put edge_eq (block, succ) [] m) (λ e es g.
        elim (get-put edge_eq edge_iff (block, succ) e [] m es g) [
          | inl (_, same) ↦ same
          | inr (g', _) ↦ h e es g'
        ])

  new_blocks-Blank :
      (l all : List Block) (k : Checker)
      → ((b : Block) → Has l b → Has all b)
      → Blank all k
      → Blank all (new_blocks f l k)
  unfolding new_blocks contains
  new_blocks-Blank [] all k sub blank = blank
  new_blocks-Blank (block ∷ rest) all k sub blank =
      new_blocks-Blank rest all
        (record k {
          bb_in = put index_eq block top k.bb_in;
          bb_insts = put index_eq block [] k.bb_insts;
          edge_insts = empty_edges block (f.block_succs block) k.edge_insts;
        })
        (λ b l. sub b (or-right (index_eq block b) (contains index_eq rest b) l))
        (
          λ b st g. elim (get-put index_eq index_iff block b top k.bb_in st g) [
            | inl (q, same) ↦ (
              same,
              sub b
                  (or-left (index_eq block b) (contains index_eq rest b) ((index_iff block b).1 q)),
            )
            | inr (g', _) ↦ blank.0 b st g'
          ],
          empty_edges-none block (f.block_succs block) k.edge_insts blank.1,
        )

  Distinct-OneDest : (moves : List (VReg × VReg)) → Distinct (dests moves) → OneDest moves
  Distinct-OneDest [] d = tt
  Distinct-OneDest ((d, s) ∷ moves) h = (h.0, Distinct-OneDest moves h.1)

  IsParamMove-TrackedAll :
      (succ : Block) (es : List CheckerInst) (st : CheckerState)
      → Distinct (f.block_params succ)
      → All (IsParamMove f succ) es
      → TrackedAll es st
  IsParamMove-TrackedAll succ [] st d ok = tt
  IsParamMove-TrackedAll succ (parallel_move moves ∷ es) st d ok = (
    Distinct-OneDest moves (subst Distinct (sym ok.0) d),
    λ st' h. IsParamMove-TrackedAll succ es st' d ok.1,
  )
  IsParamMove-TrackedAll succ (move into from ∷ es) st d ok = absurd ok.0
  IsParamMove-TrackedAll succ (op i operands allocs clobbers ∷ es) st d ok = absurd ok.0

  -- Where the entry is a block to which no block goes, the checker that `new` and `prepare` make
  -- has, for an entry that begins with an instruction or an edit, what the analysis needs: states
  -- for the function's blocks only, an entry of which nothing is known; and where no block has a
  -- parameter twice, no move on an edge writes a register twice.
  pub prepare-IsPrepared :
      (slots : List PReg) (out : Output) (k k' : Checker) (i : CheckerInst) (is : List CheckerInst)
      → new f slots ≡ some k
      → prepare f out k ≡ some k'
      → Has (blocks f) f.entry_block
      → ((b : Block) → contains index_eq (f.block_succs b) f.entry_block ≡ false)
      → ((b : Block) → Distinct (f.block_params b))
      → get index_eq k'.bb_insts f.entry_block ≡ some (i ∷ is)
      → IsPrepared f k'
        × ((b succ : Block) (st : CheckerState) (es : List CheckerInst)
            → get edge_eq k'.edge_insts (b, succ) ≡ some es
            → TrackedAll es st)
  unfolding new prepare get
  prepare-IsPrepared slots out k k' i is made filled entry away distinct begins =
      let (s, e, q) = >>=-eq-some (add_all slots PRegSet.empty) _ made in
      let k0 : Checker = record {
        bb_in = [];
        bb_insts = [];
        edge_insts = [];
        machine = record { fixed_stack_slots = slots; stack_pregs = s };
      } in
      let k1 = new_blocks f (blocks f) k0 in
      let same : record k1 { bb_in = put index_eq f.entry_block top k1.bb_in } ≡ k =
        some_inj _ k q in
      let blank : Blank (blocks f) k1 =
        new_blocks-Blank (blocks f) (blocks f) k0 (λ b l. l) ((λ b st g. cc g), λ b es g. cc g) in
      let at_k : k.bb_in ≡ put index_eq f.entry_block top k1.bb_in =
        ap (λ (z : Checker). z.bb_in) (sym same) in
      let (edges, states) = prepare_blocks-IsFilling f k.bb_in out (blocks f) k k' filled (
        λ b succ es g.
            subst (All (IsParamMove f succ))
              (blank.1 (b, succ) es
                (ap (λ (z : Checker). get edge_eq z.edge_insts (b, succ)) same ∙ g))
              tt,
        refl,
      ) in
      (
        record {
          only_blocks = λ b st g.
              elim (get-put index_eq index_iff f.entry_block b top k1.bb_in st
                (ap (λ z. get index_eq z b) (sym (states ∙ at_k)) ∙ g)) [
                  | inl (at_entry, _) ↦ subst (Has (blocks f)) at_entry entry
                  | inr (g', _) ↦ (blank.0 b st g').1
                ];
          entry_unknown =
              ap (λ z. get index_eq z f.entry_block) (states ∙ at_k)
              ∙ get-put_self index_eq index_iff f.entry_block top k1.bb_in;
          entry_begins = (i, is, begins);
          no_way_back = away;
        },
        λ b succ st es g. IsParamMove-TrackedAll succ es st (distinct succ) (edges b succ es g),
      )
