-- ===== src/Checker/Turn.antt =====
-- One turn of the checker's loop: the states stay consistent while the successors of a block are
-- given what leaves it.
use regalloc.Prelude.{
  ◌≡◌, ◌≢◌, ◌⊎◌, inl, inr, sym, ap, ◌∙◌, subst, some, List, [], ◌∷◌, true, false, Bool-cases,
  List-cases, some_inj, >>=-eq-some,
}
use regalloc.Prelude.Sets.{
  contains, remove, get, get-put, contains-remove, remove-contains, eq_cases, or-cases,
}
use regalloc.Index.{index_iff, Block, index_eq}
use regalloc.Function.{Function}
use regalloc.Checker.{CheckerState, meet_with, state_eq}
use regalloc.Checker.Analysis.{
  Checker, Work, block_out, edge_out, changed_succ, flow, flow_all, visit, turn,
}
use regalloc.Checker.Meet.{meet_with-Holds, state_eq-Holds}
use regalloc.Checker.Consistent.{
  Has, Allows, Flows, IsConsistent, Allows-put, Allows-new, bb_in-changed_succ,
  queue_set-changed_succ, in_queue-changed_succ,
}

module _ (V : Type 0) (f : Function) (k : Checker) where
  module _ (block : Block) (first state : CheckerState)
      (leaves : block_out f k block first ≡ some state) where
    -- In the middle of a turn, with some successors of the block left.
    record IsBetween (left : List Block) (w : Work) : Type 0 where
      in_queue : (b : Block) → Has w.queue_set b → Has w.queue b
      others :
          (b succ : Block)
          → contains index_eq w.queue_set b ≡ false
          → block ≢ b
          → Has (f.block_succs b) succ
          → Flows V f k w.bb_in b succ
      unchanged :
          contains index_eq w.queue_set block ≡ false
          → (st : CheckerState) → get index_eq w.bb_in block ≡ some st
          → first ≡ st
      own :
          (succ : Block)
          → Has (f.block_succs block) succ
          → Has left succ
            ⊎ ((out : CheckerState) × (edge_out f k block succ state ≡ some out)
                × Allows V f k w.bb_in succ out)

    not_left : (succ s : Block) (rest : List Block) → Has (succ ∷ rest) s → (succ ≡ s) ⊎ Has rest s
    unfolding contains
    not_left succ s rest h = elim (or-cases (index_eq succ s) (contains index_eq rest s) h) [
      | inl q ↦ inl ((index_iff succ s).0 q)
      | inr r ↦ inr r
    ]

    changed_succ-IsBetween :
        (succ : Block) (rest : List Block) (w : Work) (new_state cur : CheckerState)
        → edge_out f k block succ state ≡ some new_state
        → get index_eq w.bb_in succ ≡ some cur
        → IsBetween (succ ∷ rest) w
        → IsBetween rest (changed_succ f k succ (meet_with new_state cur) w)
    changed_succ-IsBetween succ rest w new_state cur e g h = record {
      in_queue = in_queue-changed_succ V f k succ met w h.in_queue;
      others = λ b s away ne has st at_b.
          let (away', ns) = queue_set-changed_succ V f k succ met w b away in
          elim (before b st at_b) [
            | inl q ↦ absurd (ns q)
            | inr at ↦
                let (state', out, out_b, edge_b, allows) = h.others b s away' ne has st at in
                (state', out, out_b, edge_b, still s out allows)
          ];
      unchanged = λ away st at_b.
          let (away', ns) = queue_set-changed_succ V f k succ met w block away in
          elim (before block st at_b) [ inl q ↦ absurd (ns q) | inr at ↦ h.unchanged away' st at ];
      own = λ s has. elim (eq_cases index_eq index_iff succ s) [
        | inl (q, _) ↦ inr (
          new_state,
          ap (λ z. edge_out f k block z state) (sym q) ∙ e,
          rw (bb_in-changed_succ V f k succ met w)
              (Allows-new V f k w.bb_in succ s new_state cur q),
        )
        | inr (ne, _) ↦ elim (h.own s has) [
          | inl l ↦ elim (not_left succ s rest l) [ inl q ↦ absurd (ne q) | inr r ↦ inl r ]
          | inr (out, edge_s, allows) ↦ inr (out, edge_s, still s out allows)
        ]
      ];
    }
      where
        met : CheckerState
        met = meet_with new_state cur

        before :
            (b : Block) (st : CheckerState)
            → get index_eq (changed_succ f k succ met w).bb_in b ≡ some st
            → (succ ≡ b) ⊎ (get index_eq w.bb_in b ≡ some st)
        before b st at_b =
            elim (get-put index_eq index_iff succ b met w.bb_in st
              (rw (bb_in-changed_succ V f k succ met w) at at_b)) [
                | inl (q, _) ↦ inl q
                | inr (at, _) ↦ inr at
              ]

        still :
            (s : Block) (out : CheckerState)
            → Allows V f k w.bb_in s out
            → Allows V f k (changed_succ f k succ met w).bb_in s out
        still s out allows =
            rw (bb_in-changed_succ V f k succ met w)
              (Allows-put V f k w.bb_in succ s out new_state cur g allows)

    unchanged_succ-IsBetween :
        (succ : Block) (rest : List Block) (w : Work) (new_state cur : CheckerState)
        → edge_out f k block succ state ≡ some new_state
        → get index_eq w.bb_in succ ≡ some cur
        → state_eq (meet_with new_state cur) cur ≡ true
        → IsBetween (succ ∷ rest) w
        → IsBetween rest w
    unchanged_succ-IsBetween succ rest w new_state cur e g same h = record {
      in_queue = h.in_queue;
      others = h.others;
      unchanged = h.unchanged;
      own = λ s has. elim (h.own s has) [
        | inr done ↦ inr done
        | inl l ↦ elim (not_left succ s rest l) [
          | inr r ↦ inl r
          | inl q ↦ inr (
            new_state,
            ap (λ z. edge_out f k block z state) (sym q) ∙ e,
            (
              cur,
              ap (get index_eq w.bb_in) (sym q) ∙ g,
              λ c holds.
                  state_eq-Holds c (meet_with new_state cur) cur same
                    (meet_with-Holds c new_state cur (inl holds)),
            ),
          )
        ]
      ];
    }

    flow-IsBetween :
        (succ : Block) (rest : List Block) (w w' : Work)
        → flow f k block state succ w ≡ some w'
        → IsBetween (succ ∷ rest) w
        → IsBetween rest w'
    unfolding flow
    flow-IsBetween succ rest w w' h between =
        let (new_state, e, h1) = >>=-eq-some (edge_out f k block succ state) _ h in
        let (cur, g, h2) = >>=-eq-some (get index_eq w.bb_in succ) _ h1 in
        elim (Bool-cases (state_eq (meet_with new_state cur) cur)) [
          | inl y ↦
              subst (IsBetween rest) (some_inj w w' (rw y at h2))
                (unchanged_succ-IsBetween succ rest w new_state cur e g y between)
          | inr n ↦
              subst (IsBetween rest) (some_inj _ w' (rw n at h2))
                (changed_succ-IsBetween succ rest w new_state cur e g between)
        ]

    flow_all-IsBetween :
        (succs : List Block) (w w' : Work)
        → flow_all f k block state succs w ≡ some w'
        → IsBetween succs w
        → IsBetween [] w'
    unfolding flow_all
    flow_all-IsBetween [] w w' h between = subst (IsBetween []) (some_inj w w' h) between
    flow_all-IsBetween (succ ∷ succs) w w' h between =
        let (w1, e, h1) = >>=-eq-some (flow f k block state succ w) _ h in
        flow_all-IsBetween succs w1 w' h1 (flow-IsBetween succ succs w w1 e between)

    between_end : (w : Work) → IsBetween [] w → IsConsistent V f k w
    unfolding contains
    between_end w h = record {
      in_queue = h.in_queue;
      flows = λ b succ away has. elim (eq_cases index_eq index_iff block b) [
        | inr (ne, _) ↦ h.others b succ away ne has
        | inl (q, _) ↦ λ st at_b.
            let first_st : first ≡ st =
              h.unchanged (ap (contains index_eq w.queue_set) q ∙ away) st
                (ap (get index_eq w.bb_in) q ∙ at_b) in
            elim (h.own succ (ap (λ z. contains index_eq (f.block_succs z) succ) q ∙ has)) [
              | inl l ↦ cc l
              | inr (out, edge_b, allows) ↦ (
                state,
                out,
                ap (λ z. block_out f k z st) (sym q)
                    ∙ ap (block_out f k block) (sym first_st)
                    ∙ leaves,
                ap (λ z. edge_out f k z succ state) (sym q) ∙ edge_b,
                allows,
              )
            ]
      ];
    }

  -- The block at the front leaves the queue and its set.
  begin-IsBetween :
      (block : Block) (rest : List Block) (w : Work) (first state : CheckerState)
      (leaves : block_out f k block first ≡ some state)
      → w.queue ≡ block ∷ rest
      → get index_eq w.bb_in block ≡ some first
      → IsConsistent V f k w
      → IsBetween block first state leaves
          (f.block_succs block)
          (record { bb_in = w.bb_in; queue = rest; queue_set = remove index_eq block w.queue_set })
  unfolding contains
  begin-IsBetween block rest w first state leaves e g h = record {
    in_queue = λ b l.
        let (before, ne) = contains-remove index_eq index_iff block b w.queue_set l in
        let there : Has (block ∷ rest) b = subst (λ z. Has z b) e (h.in_queue b before) in
        elim (or-cases (index_eq block b) (contains index_eq rest b) there) [
          | inl q ↦ absurd (ne ((index_iff block b).0 q))
          | inr r ↦ r
        ];
    others = λ b succ away ne has. elim (Bool-cases (contains index_eq w.queue_set b)) [
      | inr n ↦ h.flows b succ n has
      | inl y ↦ cc (away, remove-contains index_eq index_iff block b w.queue_set ne y)
    ];
    unchanged = λ away st at_b. some_inj first st (sym g ∙ at_b);
    own = λ succ has. inl has;
  }

  pub turn-IsConsistent :
      (w w' : Work) → turn f k w ≡ some w' → IsConsistent V f k w → IsConsistent V f k w'
  unfolding turn visit
  turn-IsConsistent w w' h consistent = elim (List-cases w.queue) [
    | inl e ↦ subst (IsConsistent V f k) (some_inj w w' (rw (e, turn) at h)) consistent
    | inr (block, rest, e) ↦
        let (first, g, h1) = >>=-eq-some (get index_eq w.bb_in block) _ (rw (e, turn) at h) in
        let (state, leaves, h2) = >>=-eq-some (block_out f k block first) _ h1 in
        between_end block first state leaves w' (
          flow_all-IsBetween block first state leaves (f.block_succs block)
            (record {
              bb_in = w.bb_in;
              queue = rest;
              queue_set = remove index_eq block w.queue_set;
            })
            w' h2 (begin-IsBetween block rest w first state leaves e g consistent))
  ]
