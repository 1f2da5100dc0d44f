-- ===== src/Checker/Consistent.antt =====
-- The data flow of the checker: what each turn of its loop keeps.
use regalloc.Prelude.{
  ◌≡◌, ◌≢◌, inl, inr, refl, sym, ap, ◌∙◌, subst, some, List, true, false, Bool-cases, some_inj,
}
use regalloc.Prelude.Sets.{contains, get, put, get-put_self, get-put_ne, eq_cases}
use regalloc.Index.{index_iff, Block, index_eq}
use regalloc.Function.{Function}
use regalloc.Checker.{CheckerState, meet_with}
use regalloc.Checker.Analysis.{
  BlockStates, Checker, Work, block_out, edge_out, changed_succ, blocks,
}
use regalloc.Checker.Meaning.{Config, Holds}
use regalloc.Checker.Meet.{meet_with-Holds}

abbrev pub Has : List Block → Block → Type 0
Has blocks b = contains index_eq blocks b ≡ true

module _ (V : Type 0) where
  -- All that the one state describes, the other describes.
  abbrev pub Leq : CheckerState → CheckerState → Type 0
  Leq a b = (c : Config V) → Holds a c → Holds b c

  module _ (f : Function) (k : Checker) where
    -- The entry of a block allows a state.
    abbrev pub Allows : BlockStates → Block → CheckerState → Type 0
    Allows m succ out = (input : CheckerState) × (get index_eq m succ ≡ some input) × Leq out input

    -- What leaves a block, the entry of its successor allows.
    abbrev pub Flows : BlockStates → Block → Block → Type 0
    Flows m block succ =
        (st : CheckerState)
        → get index_eq m block ≡ some st
        → (state out : CheckerState) × (block_out f k block st ≡ some state)
          × (edge_out f k block succ state ≡ some out)
          × Allows m succ out

    -- That of each block which is not to be visited, and the queue has all of its set.
    pub record IsConsistent (w : Work) : Type 0 where
      pub in_queue : (b : Block) → Has w.queue_set b → Has w.queue b
      pub flows :
          (block succ : Block)
          → contains index_eq w.queue_set block ≡ false
          → Has (f.block_succs block) succ
          → Flows w.bb_in block succ

    pub bb_in-changed_succ :
        (succ : Block) (met : CheckerState) (w : Work)
        → (changed_succ f k succ met w).bb_in ≡ put index_eq succ met w.bb_in
    unfolding changed_succ
    bb_in-changed_succ succ met w = elim (Bool-cases (contains index_eq w.queue_set succ)) [
      | inl y ↦ rw y refl
      | inr n ↦ rw n refl
    ]

    pub queue_set-changed_succ :
        (succ : Block) (met : CheckerState) (w : Work) (b : Block)
        → contains index_eq (changed_succ f k succ met w).queue_set b ≡ false
        → (contains index_eq w.queue_set b ≡ false) × (succ ≢ b)
    unfolding changed_succ contains
    queue_set-changed_succ succ met w b h = elim (eq_cases index_eq index_iff succ b) [
      | inl (q, t) ↦ elim (Bool-cases (contains index_eq w.queue_set succ)) [
        | inl y ↦ cc (rw y at h, y, q)
        | inr n ↦ cc (rw (n, t) at h)
      ]
      | inr (ne, t) ↦ elim (Bool-cases (contains index_eq w.queue_set succ)) [
        | inl y ↦ (rw y at h, ne)
        | inr n ↦ (rw (n, t) at h, ne)
      ]
    ]

    pub in_queue-changed_succ :
        (succ : Block) (met : CheckerState) (w : Work)
        → ((b : Block) → Has w.queue_set b → Has w.queue b)
        → (b : Block) → Has (changed_succ f k succ met w).queue_set b
        → Has (changed_succ f k succ met w).queue b
    unfolding changed_succ contains
    in_queue-changed_succ succ met w h b l =
        elim (Bool-cases (contains index_eq w.queue_set succ)) [
          | inl y ↦ simp (y, changed_succ) (h b (simp (y, changed_succ) at l))
          | inr n ↦ elim (eq_cases index_eq index_iff succ b) [
            | inl (q, t) ↦ rw (n, t) refl
            | inr (_, t) ↦ rw (n, t) (h b (rw (n, t) at l))
          ]
        ]

    -- What the entry of a block allows, its meet with another state allows too.
    pub Allows-put :
        (m : BlockStates) (succ s : Block) (out new_state cur : CheckerState)
        → get index_eq m succ ≡ some cur
        → Allows m s out
        → Allows (put index_eq succ (meet_with new_state cur) m) s out
    Allows-put m succ s out new_state cur e (input, g, leq) =
        elim (eq_cases index_eq index_iff succ s) [
          | inl (q, _) ↦ (
            meet_with new_state cur,
            ap (get index_eq (put index_eq succ (meet_with new_state cur) m)) (sym q)
                ∙ get-put_self index_eq index_iff succ (meet_with new_state cur) m,
            λ c holds.
                let same : input ≡ cur =
                  some_inj input cur (sym g ∙ ap (get index_eq m) (sym q) ∙ e) in
                meet_with-Holds c new_state cur (inr (subst (λ z. Holds z c) same (leq c holds))),
          )
          | inr (ne, _) ↦ (input, get-put_ne index_eq index_iff succ s _ m ne ∙ g, leq)
        ]

    -- And so it allows the other state.
    pub Allows-new :
        (m : BlockStates) (succ s : Block) (new_state cur : CheckerState)
        → succ ≡ s
        → Allows (put index_eq succ (meet_with new_state cur) m) s new_state
    Allows-new m succ s new_state cur q = (
      meet_with new_state cur,
      ap (get index_eq (put index_eq succ (meet_with new_state cur) m)) (sym q)
          ∙ get-put_self index_eq index_iff succ (meet_with new_state cur) m,
      λ c holds. meet_with-Holds c new_state cur (inl holds),
    )
