-- ===== src/Moves/Run.antt =====
-- The loops of `resolve` end within their fuel, with every move emitted.
use regalloc.Prelude.{
  lt_of_get, get_of_lt, ℕ, zero, suc, ◌+◌, ◌*◌, ◌≤◌, ◌<◌, ◌≡◌, ◌≢◌, ◌⊎◌, inl, inr, refl, sym, ap,
  ◌∙◌, subst, List, [], ◌∷◌, some, none, arith, length, get_elem?, set, length-set,
  get_elem?-set_ne, ℕ_discrete, Option-cases, List-cases,
}
use regalloc.Moves.{
  Move, Phase, todo, pending, done, Search, first_todo, find_dst, visit, run_stack, stack_fuel,
  run_all,
}
use regalloc.Moves.Emitted.{At}
use regalloc.Moves.Stack.{todos, todos-le, todos-set_pending}
use regalloc.Moves.Until.{Wf}
use regalloc.Moves.Visit.{must_come_before-At}
use regalloc.Moves.Round.{IsProblem, is_pending, Emitted-pending, visit-Round}

first_todo-some : (st : List Phase) (i : ℕ) → first_todo st ≡ some i → get_elem? st i ≡ some todo
unfolding first_todo
first_todo-some [] i h = cc
first_todo-some (todo ∷ st) zero h = refl
first_todo-some (todo ∷ st) (suc i) h = ground arith
first_todo-some (pending ∷ st) i h = elim (Option-cases (first_todo st)) [
  | inl e ↦ cc (rw e at h)
  | inr (k, e) ↦
      let z : suc k ≡ i = cc (rw e at h) in
      subst (λ q. get_elem? (pending ∷ st) q ≡ some todo) z (first_todo-some st k e)
]
first_todo-some (done ∷ st) i h = elim (Option-cases (first_todo st)) [
  | inl e ↦ cc (rw e at h)
  | inr (k, e) ↦
      let z : suc k ≡ i = cc (rw e at h) in
      subst (λ q. get_elem? (done ∷ st) q ≡ some todo) z (first_todo-some st k e)
]

pub first_todo-none : (st : List Phase) (i : ℕ) → first_todo st ≡ none → get_elem? st i ≢ some todo
unfolding first_todo
first_todo-none [] i h e = cc
first_todo-none (todo ∷ st) i h e = cc
first_todo-none (pending ∷ st) zero h e = cc
first_todo-none (done ∷ st) zero h e = cc
first_todo-none (pending ∷ st) (suc i) h e = first_todo-none st i (ground arith) e
first_todo-none (done ∷ st) (suc i) h e = first_todo-none st i (ground arith) e

pub phase_cases : (p : Phase) → (p ≡ todo) ⊎ (p ≡ pending) ⊎ (p ≡ done)
phase_cases todo = inl refl
phase_cases pending = inr (inl refl)
phase_cases done = inr (inr refl)

module _ {T : Type 0} (V : Type 0) (default : T) (ms : List (Move T)) (p : IsProblem ms) where
  run_stack-cons :
      (fuel : ℕ) (d d1 : Search T) (top : ℕ) (rest : List ℕ) (m : Move T)
      → d.stack ≡ top ∷ rest
      → At ms top m
      → visit default ms top rest d (find_dst ms m.src) ≡ some d1
      → run_stack (suc fuel) default ms d ≡ run_stack fuel default ms d1
  unfolding run_stack
  run_stack-cons fuel d d1 top rest m e at runs =
      simp (e, run_stack) (rw (must_come_before-At ms top m at) (rw runs))

  run_stack-Wf :
      (fuel : ℕ) (d : Search T)
      → Wf V ms d d.stack
      → 2 * todos d.state + length d.stack < fuel
      → (d' : Search T) × (run_stack fuel default ms d ≡ some d')
        × Wf V ms d' d'.stack
        × (d'.stack ≡ [])
        × (todos d'.state ≤ todos d.state)
  unfolding run_stack
  run_stack-Wf zero d wf lt = absurd (omega arith)
  run_stack-Wf (suc fuel) d wf lt = elim (List-cases d.stack) [
    | inl e ↦ (d, simp (e, run_stack), wf, e, omega arith)
    | inr (top, rest, e) ↦
        let wf' : Wf V ms d (top ∷ rest) = subst (Wf V ms d) e wf in
        let (m, at) =
          get_of_lt ms top (omega (arith, wf'.size, lt_of_get d.state top pending wf'.chain.0)) in
        let (d1, runs, r) = visit-Round V default ms p d top rest wf' m at in
        let (d', runs', wf2, empty, le) =
          run_stack-Wf fuel d1 r.wf (omega (arith, r.less, ap length e)) in
        (
          d',
          run_stack-cons fuel d d1 top rest m e at runs ∙ runs',
          wf2,
          empty,
          omega (arith, r.todos_le),
        )
  ]

  -- One move that is to do, put on the empty stack.
  begin :
      (d : Search T) (next : ℕ)
      → Wf V ms d d.stack
      → d.stack ≡ []
      → get_elem? d.state next ≡ some todo
      → Wf V ms
          (record d { stack = next ∷ d.stack; state = set d.state next pending })
          (next ∷ d.stack)
  begin d next wf empty is_todo = record {
    size = length-set d.state next pending ∙ wf.size;
    chain = rw empty (is_pending d.state next is_todo, tt, tt, tt);
    on_stack = λ j w. elim (ℕ_discrete next j) [
      | yes eq ↦ inl (sym eq)
      | no ne ↦ inr (wf.on_stack j (sym (get_elem?-set_ne d.state next j pending ne) ∙ w))
    ];
    emitted = Emitted-pending d.state next is_todo V ms d.ret wf.emitted;
    plain = wf.plain;
  }

  pub run_all-Wf :
      (fuel : ℕ) (d : Search T)
      → Wf V ms d d.stack
      → d.stack ≡ []
      → todos d.state < fuel
      → (d' : Search T) × (run_all fuel default ms d ≡ some d')
        × Wf V ms d' d'.stack
        × (d'.stack ≡ [])
        × (first_todo d'.state ≡ none)
  unfolding run_all stack_fuel
  run_all-Wf zero d wf empty lt = absurd (omega arith)
  run_all-Wf (suc fuel) d wf empty lt = elim (Option-cases (first_todo d.state)) [
    | inl none_left ↦ (d, rw (none_left, run_all), wf, empty, none_left)
    | inr (next, found) ↦
        let is_todo = first_todo-some d.state next found in
        let d0 : Search T = record d { stack = next ∷ d.stack; state = set d.state next pending } in
        let (d1, runs, wf1, empty1, le) =
          run_stack-Wf (stack_fuel ms) d0 (begin d next wf empty is_todo) (
            omega (
              arith,
              todos-set_pending d.state next is_todo,
              todos-le d.state,
              wf.size,
              ap length empty,
            )) in
        let (d', runs', wf2, empty2, finished) =
          run_all-Wf fuel d1 wf1 empty1 (omega (arith, todos-set_pending d.state next is_todo)) in
        (d', rw (found, run_all) (rw runs runs'), wf2, empty2, finished)
  ]
