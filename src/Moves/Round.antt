-- ===== src/Moves/Round.antt =====
-- One round of the search keeps it in order and brings it nearer to its end.
use mathlib.Core.Logic.{⊎_elim}
use regalloc.Prelude.{
  In, lt_of_get, get_of_lt, ℕ, ◌+◌, ◌*◌, ◌≤◌, ◌<◌, ◌≡◌, ◌≢◌, inl, inr, refl, sym, ap, ◌∙◌, subst,
  List, [], ◌∷◌, some, arith, length, get_elem?, set, length-set, get_elem?-set_self,
  get_elem?-set_ne, All, ℕ_discrete, Option-cases,
}
use regalloc.Moves.{
  Move, Phase, todo, pending, done, Search, emit_stack, find_dst, visit_next, visit,
}
use regalloc.Moves.Emitted.{At, OneWriter, IsDone, Emitted}
use regalloc.Moves.Stack.{
  In-cases, Fresh, Fresh-of_not-In, todos, todos-set_pending, Chain, Chain-set,
}
use regalloc.Moves.Until.{IsReal, until, Wf}
use regalloc.Moves.Cycle.{emit_cycle-Wf}
use regalloc.Moves.Visit.{find_dst-some, find_dst-none, emit_stack-eq, emit_stack-empty}

module _ {T : Type 0} (V : Type 0) where
  pub record Round (ms : List (Move T)) (d : Search T) (stack : List ℕ) (d' : Search T)
      : Type 0 where
    pub wf : Wf V ms d' d'.stack
    pub less : 2 * todos d'.state + length d'.stack < 2 * todos d.state + length stack
    pub todos_le : todos d'.state ≤ todos d.state

-- Putting a move on the stack leaves the done moves as they are.
module _ (st : List Phase) (next : ℕ) (is_todo : get_elem? st next ≡ some todo) where
  pub is_pending : get_elem? (set st next pending) next ≡ some pending
  is_pending = get_elem?-set_self st next pending (lt_of_get st next todo is_todo)

  IsDone-before : (j : ℕ) → IsDone (set st next pending) j → IsDone st j
  IsDone-before j d = elim (ℕ_discrete next j) [
    | yes e ↦ cc (ap (get_elem? (set st next pending)) e, is_pending)
    | no ne ↦ sym (get_elem?-set_ne st next j pending ne) ∙ d
  ]

  IsDone-after : (j : ℕ) → IsDone st j → IsDone (set st next pending) j
  IsDone-after j d = elim (ℕ_discrete next j) [
    | yes e ↦ cc (ap (get_elem? st) e)
    | no ne ↦ get_elem?-set_ne st next j pending ne ∙ d
  ]

  pub Emitted-pending :
      {T : Type 0} (V : Type 0) (ms ret : List (Move T))
      → Emitted V ms st ret
      → Emitted V ms (set st next pending) ret
  Emitted-pending V ms ret h = record {
    moved = λ s i m at d. h.moved s i m at (IsDone-before i d);
    kept = λ s x ne free. h.kept s x ne (λ i m at d. free i m at (IsDone-after i d));
    closed = λ i j m n at at' d e. IsDone-after j (h.closed i j m n at at' (IsDone-before i d) e);
  }

pub Chain-pending :
    {T : Type 0} (ms : List (Move T)) (st : List Phase) (l : List ℕ)
    → Chain ms st l
    → (j : ℕ) → In j l
    → get_elem? st j ≡ some pending
Chain-pending ms st [] c j k = absurd k
Chain-pending ms st (i ∷ l) c j (inl e) = ap (get_elem? st) e ∙ c.0
Chain-pending ms st (i ∷ l) c j (inr k) = Chain-pending ms st l c.3 j k

-- The problem that the search is given: no place is written twice, the scratch space is not
-- mentioned, and no move stays where it is.
pub record IsProblem {T : Type 0} (ms : List (Move T)) : Type 0 where
  pub one : OneWriter ms
  pub real : (i : ℕ) (m : Move T) → At ms i m → IsReal m
  pub moves : (i : ℕ) (m : Move T) → At ms i m → m.src ≢ m.dst

module _ {T : Type 0} (V : Type 0) (default : T) (ms : List (Move T)) (p : IsProblem ms) where
  open p use {one, real, moves}

  module _ (d : Search T) (top : ℕ) (rest : List ℕ) (wf : Wf V ms d (top ∷ rest)) (m : Move T)
      (at : At ms top m) where
    from_Chain : (l : List ℕ) → Chain ms d.state l → (j : ℕ) → In j l → j < length ms
    from_Chain [] c j k = absurd k
    from_Chain (i ∷ l) c j (inl e) = omega (arith, wf.size, lt_of_get d.state i pending c.0)
    from_Chain (i ∷ l) c j (inr k) = from_Chain l c.3 j k

    past_end : Fresh (length ms) (top ∷ rest)
    past_end =
        Fresh-of_not-In (length ms) (top ∷ rest)
          (λ k. absurd (let h = from_Chain (top ∷ rest) wf.chain (length ms) k in omega arith))

    agree_refl : (l : List ℕ) → All (λ i. get_elem? ms i ≡ get_elem? ms i) l
    agree_refl [] = tt
    agree_refl (i ∷ l) = (refl, agree_refl l)

    -- The stack is emitted to its end.
    emit_all :
        ((j : ℕ) (n : Move T) → At ms j n → m.src ≡ n.dst → IsDone d.state j)
        → (d' : Search T) × (emit_stack ms (top ∷ rest) d ≡ some d') × Round V ms d (top ∷ rest) d'
    emit_all ready =
        let (d', runs, u) =
          until V ms ms one (λ i n h. (real i n h).1) (length ms) (λ i n h. (n, h, refl))
            (top ∷ rest) d wf.size wf.emitted wf.chain (agree_refl (top ∷ rest))
            (λ n h. ready_at n h) in
        let runs' = emit_stack-eq ms (length ms) (top ∷ rest) d past_end ∙ runs in
        let empty = emit_stack-empty ms (top ∷ rest) d d' runs' in
        (
          d',
          runs',
          record {
            wf = record {
              size = u.size ∙ wf.size;
              chain = u.chain;
              on_stack = λ j w. elim (In-cases j (top ∷ rest)) [
                | inl k ↦ u.waiting j w k
                | inr n ↦ absurd (n (wf.on_stack j (sym (u.outside j n) ∙ w)))
              ];
              emitted = u.emitted;
              plain = λ e. u.real real (wf.plain (sym u.flag ∙ e));
            };
            less = omega (arith, ap length empty, u.same_todos);
            todos_le = omega (arith, u.same_todos);
          },
        )
      where
        ready_at :
            (n : Move T)
            → At ms top n
            → (j : ℕ) (o : Move T) → At ms j o
            → n.src ≡ o.dst
            → IsDone d.state j
        ready_at n h j o at_o e = ready j o at_o (cc (at, h, e))

    -- A move that nothing waits for goes on the stack.
    push_next :
        (next : ℕ) (n : Move T)
        → At ms next n
        → n.dst ≡ m.src
        → get_elem? d.state next ≡ some todo
        → Round V ms d
            (top ∷ rest)
            (record d { stack = next ∷ top ∷ rest; state = set d.state next pending })
    push_next next n at_n e is_todo =
        let fresh =
          Fresh-of_not-In next (top ∷ rest)
            (λ k. cc (Chain-pending ms d.state (top ∷ rest) wf.chain next k)) in
        record {
          wf = record {
            size = length-set d.state next pending ∙ wf.size;
            chain = (
              is_pending d.state next is_todo,
              fresh,
              λ o at_o. (n, at_n, cc (at, at_o)),
              Chain-set ms d.state next pending (top ∷ rest) fresh wf.chain,
            );
            on_stack = λ j w. elim (ℕ_discrete next j) [
              | yes eq ↦ inl (sym eq)
              | no ne ↦ inr (wf.on_stack j (sym (get_elem?-set_ne d.state next j pending ne) ∙ w))
            ];
            emitted = Emitted-pending d.state next is_todo V ms d.ret wf.emitted;
            plain = wf.plain;
          };
          less = omega (arith, todos-set_pending d.state next is_todo);
          todos_le = omega (arith, todos-set_pending d.state next is_todo);
        }

    by_phase :
        (next : ℕ) (n : Move T) (ph : Phase)
        → At ms next n
        → n.dst ≡ m.src
        → get_elem? d.state next ≡ some ph
        → (d' : Search T) × (visit_next default ms top rest d next ph ≡ some d')
          × Round V ms d (top ∷ rest) d'
    unfolding visit_next
    by_phase next n todo at_n e st = (
      record d { stack = next ∷ top ∷ rest; state = set d.state next pending },
      refl,
      push_next next n at_n e st,
    )
    by_phase next n pending at_n e st =
        let on : In next (top ∷ rest) = wf.on_stack next st in
        let ne : next ≢ top = λ eq. moves top m at (cc (at, at_n, ap (get_elem? ms) eq)) in
        let (d', runs, ok, same, short) =
          emit_cycle-Wf V default ms one real top m at d rest next wf
            (⊎_elim (λ (eq : next ≡ top). absurd (ne eq)) (λ (k : In next rest). k) on)
            (λ j o at_o eq. one j next o n at_o at_n (sym eq ∙ sym e)) in
        (d', runs, record { wf = ok; less = omega (arith, same); todos_le = omega (arith, same) })
    by_phase next n done at_n e st =
        emit_all (λ j o at_o eq. subst (IsDone d.state) (one next j n o at_n at_o (e ∙ eq)) st)

    -- Whatever the top of the stack must come before, the round goes well.
    pub visit-Round :
        (d' : Search T) × (visit default ms top rest d (find_dst ms m.src) ≡ some d')
        × Round V ms d (top ∷ rest) d'
    unfolding visit
    visit-Round = elim (Option-cases (find_dst ms m.src)) [
      | inl none_found ↦
          rw none_found
            (emit_all (λ j o at_o eq. absurd (find_dst-none ms m.src none_found j o at_o (sym eq))))
      | inr (next, found) ↦
          let (n, at_n, e) = find_dst-some ms m.src next found in
          let (ph, st) =
            get_of_lt d.state next (omega (arith, wf.size, lt_of_get ms next n at_n)) in
          rw (found) (rw st (by_phase next n ph at_n e st))
    ]
