-- ===== src/Checker/Entry.antt =====
-- The state of a block that no block goes to, in the checker's loop: that of the entry.
use regalloc.Prelude.{
  ℕ, zero, suc, ◌≡◌, ◌≢◌, inl, inr, ap, ◌∙◌, subst, some, List, [], ◌∷◌, Bool, false, Bool-cases,
  List-cases, some_inj, >>=-eq-some,
}
use regalloc.Prelude.Sets.{contains, remove, get, get-put_ne, eq_cases}
use regalloc.Index.{index_iff, Block, index_eq}
use regalloc.Function.{Function}
use regalloc.Checker.{CheckerState, meet_with, state_eq}
use regalloc.Checker.Analysis.{
  Checker, Work, block_out, edge_out, changed_succ, flow, flow_all, visit, turn, analyze_from,
}
use regalloc.Checker.Consistent.{bb_in-changed_succ}

module _ (f : Function) (k : Checker) (b : Block) (st : CheckerState) where
  -- The state of a block that is no successor stays what it is.
  abbrev pub Keeps : Work → Type 0
  Keeps w = get index_eq w.bb_in b ≡ some st

  flow-Keeps :
      (block succ : Block) (state : CheckerState) (w w' : Work)
      → succ ≢ b
      → flow f k block state succ w ≡ some w'
      → Keeps w
      → Keeps w'
  unfolding flow
  flow-Keeps block succ state w w' ne h keeps =
      let (new_state, e, h1) = >>=-eq-some (edge_out f k block succ state) _ h in
      let (cur, g, h2) = >>=-eq-some (get index_eq w.bb_in succ) _ h1 in
      let met : CheckerState = meet_with new_state cur in
      elim (Bool-cases (state_eq met cur)) [
        | inl y ↦ subst Keeps (some_inj w w' (rw y at h2)) keeps
        | inr n ↦ subst Keeps (some_inj (changed_succ f k succ met w) w' (rw n at h2)) (
            ap (λ z. get index_eq z b) (bb_in-changed_succ Bool f k succ met w)
            ∙ get-put_ne index_eq index_iff succ b met w.bb_in ne
            ∙ keeps)
      ]

  flow_all-Keeps :
      (block : Block) (state : CheckerState) (succs : List Block) (w w' : Work)
      → contains index_eq succs b ≡ false
      → flow_all f k block state succs w ≡ some w'
      → Keeps w
      → Keeps w'
  unfolding flow_all contains
  flow_all-Keeps block state [] w w' away h keeps = subst Keeps (some_inj w w' h) keeps
  flow_all-Keeps block state (succ ∷ succs) w w' away h keeps =
      let (w1, e, h1) = >>=-eq-some (flow f k block state succ w) _ h in
      elim (eq_cases index_eq index_iff succ b) [
        | inl (_, y) ↦ cc (rw y at away)
        | inr (ne, n) ↦
            flow_all-Keeps block state succs w1 w' (rw n at away) h1
              (flow-Keeps block succ state w w1 ne e keeps)
      ]

  turn-Keeps :
      (w w' : Work)
      → ((block : Block) → contains index_eq (f.block_succs block) b ≡ false)
      → turn f k w ≡ some w'
      → Keeps w
      → Keeps w'
  unfolding turn visit
  turn-Keeps w w' away h keeps = elim (List-cases w.queue) [
    | inl e ↦ subst Keeps (some_inj w w' (rw (e, turn) at h)) keeps
    | inr (block, rest, e) ↦
        let (first, g, h1) = >>=-eq-some (get index_eq w.bb_in block) _ (rw (e, turn) at h) in
        let (state, leaves, h2) = >>=-eq-some (block_out f k block first) _ h1 in
        flow_all-Keeps block state (f.block_succs block)
          (record { bb_in = w.bb_in; queue = rest; queue_set = remove index_eq block w.queue_set })
          w' (away block) h2 keeps
  ]

  pub analyze_from-Keeps :
      (fuel : ℕ) (w w' : Work)
      → ((block : Block) → contains index_eq (f.block_succs block) b ≡ false)
      → analyze_from f k fuel w ≡ some w'
      → Keeps w
      → Keeps w'
  unfolding analyze_from
  analyze_from-Keeps zero w w' away h keeps = elim (List-cases w.queue) [
    | inl e ↦ subst Keeps (some_inj w w' (rw (e, analyze_from) at h)) keeps
    | inr (b', rest, e) ↦ cc (rw (e, analyze_from) at h)
  ]
  analyze_from-Keeps (suc n) w w' away h keeps = elim (List-cases w.queue) [
    | inl e ↦ subst Keeps (some_inj w w' (rw (e, analyze_from) at h)) keeps
    | inr (b', rest, e) ↦
        let (w1, e1, h1) = >>=-eq-some (turn f k w) _ (rw (e, analyze_from) at h) in
        analyze_from-Keeps n w1 w' away h1 (turn-Keeps w w1 away e1 keeps)
  ]
