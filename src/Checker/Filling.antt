-- ===== src/Checker/Filling.antt =====
-- What `prepare` adds to the checker: parallel moves on the edges, and no state.
use regalloc.Prelude.{
  ℕ, ◌+◌, ◌≡◌, ◌↔◌, inl, inr, refl, ap, ◌∙◌, subst, some, List, [], ◌∷◌, ◌++◌, Bool, true, false,
  ◌&&◌, ◌==◌, length, All, All-append, Bool-cases, some_inj, >>=-eq-some, ==_iff, arith,
}
use regalloc.Prelude.Sets.{get, get-put}
use regalloc.Reg.VReg.{VReg}
use regalloc.Index.{index_iff, Inst, Block, index_eq}
use regalloc.Function.{Function}
use regalloc.Output.{Edit, InstOrEdit, inst, edit, Output, inst_allocs, block_items}
use regalloc.Output
use regalloc.Checker.{CheckerInst, move, parallel_move, zip, dests}
use regalloc.Checker.Analysis.{BlockStates, Checker, Edge, edge_eq}
use regalloc.Checker.Prepare.{
  push_inst, push_edge_inst, handle_succ, handle_succs, handle_inst, handle_edit, handle_item,
  handle_items, prepare_blocks,
}

pub edge_iff : (a b : Edge) → (edge_eq a b ≡ true) ↔ (a ≡ b)
edge_iff a b = (
  λ h.
      let (l, r) = both (index_eq a.0 b.0) (index_eq a.1 b.1) h in
      λ i. ((index_iff a.0 b.0).0 l i, (index_iff a.1 b.1).0 r i),
  λ q.
      rw ((index_iff a.0 b.0).1 (ap (λ (e : Edge). e.0) q))
        ((index_iff a.1 b.1).1 (ap (λ (e : Edge). e.1) q)),
)
  where
    both : (x y : Bool) → (x && y) ≡ true → (x ≡ true) × (y ≡ true)
    both true y h = (refl, h)
    both false y h = cc h

module _ (f : Function) where
  -- A parallel move to the parameters of a block.
  abbrev pub IsParamMove : Block → CheckerInst → Type 0
  IsParamMove succ (parallel_move moves) = dests moves ≡ f.block_params succ
  IsParamMove succ _ = ⊥

  abbrev pub EdgesMove : Checker → Type 0
  EdgesMove k =
      (b succ : Block) (es : List CheckerInst)
      → get edge_eq k.edge_insts (b, succ) ≡ some es
      → All (IsParamMove succ) es

  dests-zip :
      (params args : List VReg) → length args ≡ length params → dests (zip params args) ≡ params
  unfolding zip
  dests-zip [] args h = refl
  dests-zip (p ∷ params) [] h = absurd (omega (arith, h))
  dests-zip (p ∷ params) (a ∷ args) h = ap (λ l. p ∷ l) (dests-zip params args (omega (arith, h)))

  handle_succ-EdgesMove :
      (block : Block) (insn : Inst) (i : ℕ) (succ : Block) (k k' : Checker)
      → handle_succ f k block insn i succ ≡ some k'
      → EdgesMove k
      → EdgesMove k' × (k'.bb_in ≡ k.bb_in)
  unfolding handle_succ push_edge_inst
  handle_succ-EdgesMove block insn i succ k k' h ok =
      elim (Bool-cases (length args == length params)) [
        | inr n ↦ cc (rw n at h)
        | inl y ↦ elim (Bool-cases (length args == 0)) [
          | inl z ↦
              subst (λ q. EdgesMove q × (q.bb_in ≡ k.bb_in)) (some_inj k k' (rw (y, z) at h))
                (ok, refl)
          | inr z ↦
              let (is, e, h1) =
                >>=-eq-some (get edge_eq k.edge_insts (block, succ)) _ (rw (y, z) at h) in
              subst (λ q. EdgesMove q × (q.bb_in ≡ k.bb_in)) (some_inj _ k' h1)
                (
                  λ b s es g.
                      elim (get-put edge_eq edge_iff (block, succ) (b, s) _ k.edge_insts es g) [
                        | inr (g', _) ↦ ok b s es g'
                        | inl (q, same) ↦
                            let to_s : succ ≡ s = ap (λ (e : Edge). e.1) q in
                            subst (All (IsParamMove s)) same (
                              subst
                                (λ t.
                                  All (IsParamMove t) (is ++ parallel_move (zip params args) ∷ []))
                                to_s
                                (All-append (IsParamMove succ) is
                                  (parallel_move (zip params args) ∷ []) (ok block succ is e)
                                  (dests-zip params args ((==_iff _ _).0 y), tt)))
                      ],
                  refl,
                )
        ]
      ]
    where
      args : List VReg
      args = f.branch_blockparams block insn i

      params : List VReg
      params = f.block_params succ

  module _ (m : BlockStates) where
    -- The edges have parameter moves only, and the states are those that `new` made.
    abbrev pub IsFilling : Checker → Type 0
    IsFilling k = EdgesMove k × (k.bb_in ≡ m)

    handle_succs-IsFilling :
        (block : Block) (insn : Inst) (i : ℕ) (succs : List Block) (k k' : Checker)
        → handle_succs f block insn i succs k ≡ some k'
        → IsFilling k
        → IsFilling k'
    unfolding handle_succs
    handle_succs-IsFilling block insn i [] k k' h ok = subst IsFilling (some_inj k k' h) ok
    handle_succs-IsFilling block insn i (succ ∷ succs) k k' h ok =
        let (k1, e, h1) = >>=-eq-some (handle_succ f k block insn i succ) _ h in
        let (edges, same) = handle_succ-EdgesMove block insn i succ k k1 e ok.0 in
        handle_succs-IsFilling block insn (i + 1) succs k1 k' h1 (edges, same ∙ ok.1)

    push_inst-IsFilling :
        (block : Block) (i : CheckerInst) (k k' : Checker)
        → push_inst k block i ≡ some k'
        → IsFilling k
        → IsFilling k'
    unfolding push_inst
    push_inst-IsFilling block i k k' h ok =
        let (is, e, h1) = >>=-eq-some (get index_eq k.bb_insts block) _ h in
        subst IsFilling (some_inj _ k' h1) ok

    handle_item-IsFilling :
        (out : Output) (block : Block) (item : InstOrEdit) (k k' : Checker)
        → handle_item f out block item k ≡ some k'
        → IsFilling k
        → IsFilling k'
    unfolding handle_item handle_inst handle_edit
    handle_item-IsFilling out block (edit (Output.move from to)) k k' h ok =
        push_inst-IsFilling block (move to from) k k' h ok
    handle_item-IsFilling out block (inst insn) k k' h ok = elim (Bool-cases (f.is_branch insn)) [
      | inl y ↦ handle_succs-IsFilling block insn 0 (f.block_succs block) k k' (rw y at h) ok
      | inr n ↦
          let (allocs, e, h1) = >>=-eq-some (inst_allocs out insn) _ (rw n at h) in
          push_inst-IsFilling block _ k k' h1 ok
    ]

    handle_items-IsFilling :
        (out : Output) (block : Block) (items : List InstOrEdit) (k k' : Checker)
        → handle_items f out block items k ≡ some k'
        → IsFilling k
        → IsFilling k'
    unfolding handle_items
    handle_items-IsFilling out block [] k k' h ok = subst IsFilling (some_inj k k' h) ok
    handle_items-IsFilling out block (item ∷ items) k k' h ok =
        let (k1, e, h1) = >>=-eq-some (handle_item f out block item k) _ h in
        handle_items-IsFilling out block items k1 k' h1
          (handle_item-IsFilling out block item k k1 e ok)

    pub prepare_blocks-IsFilling :
        (out : Output) (l : List Block) (k k' : Checker)
        → prepare_blocks f out l k ≡ some k'
        → IsFilling k
        → IsFilling k'
    unfolding prepare_blocks
    prepare_blocks-IsFilling out [] k k' h ok = subst IsFilling (some_inj k k' h) ok
    prepare_blocks-IsFilling out (block ∷ rest) k k' h ok =
        let (k1, e, h1) = >>=-eq-some (handle_items f out block (block_items f out block) k) _ h in
        prepare_blocks-IsFilling out rest k1 k' h1
          (handle_items-IsFilling out block (block_items f out block) k k1 e ok)
