-- ===== src/Moves/Until.antt =====
-- Emitting the top of the stack, down to a given move or to the bottom.
use mathlib.Core.Logic.{⊎_elim}
use regalloc.Prelude.{
  In, lt_of_get, get_of_lt, ℕ, ◌≤◌, ◌<◌, ◌≡◌, ◌≢◌, inl, inr, refl, sym, ap, ◌∙◌, subst, List, [],
  ◌∷◌, some, false, arith, length, get_elem?, set, length-set, get_elem?-set_self, get_elem?-set_ne,
  All, ==_iff, ==_ne, ℕ_discrete,
}
use regalloc.Allocation.{no_alloc}
use regalloc.Moves.{Move, Phase, pending, done, Search, emit, emit_until}
use regalloc.Moves.Emitted.{At, OneWriter, WritesReal, IsDone, set-IsDone, Emitted, Emitted-cons}
use regalloc.Moves.Stack.{todos, todos-set, Above, Chain, Chain-set}

pub not_waiting :
    (st : List Phase) (j i : ℕ) → j ≡ i → get_elem? st j ≡ some pending → ¬ IsDone st i
not_waiting st j i e w d = cc (ap (get_elem? st) e)

-- A move that names no scratch space.
abbrev pub IsReal : {T : Type 0} → Move T → Type 0
IsReal m = (m.src ≢ no_alloc) × (m.dst ≢ no_alloc)

module _ {T : Type 0} (V : Type 0) where
  -- A search with this stack is in order.
  pub record Wf (ms : List (Move T)) (d : Search T) (stack : List ℕ) : Type 0 where
    pub size : length d.state ≡ length ms
    pub chain : Chain ms d.state stack
    pub on_stack : (j : ℕ) → get_elem? d.state j ≡ some pending → In j stack
    pub emitted : Emitted V ms d.state d.ret
    pub plain : d.scratch_used ≡ false → All IsReal d.ret

  -- From search `d` with `l` on the stack to search `d'`.
  pub record Until (ms ms' : List (Move T)) (next : ℕ) (l : List ℕ) (d d' : Search T) : Type 0 where
    pub emitted : Emitted V ms' d'.state d'.ret
    pub chain : Chain ms d'.state d'.stack
    pub size : length d'.state ≡ length d.state
    pub outside : (j : ℕ) → ¬ In j l → get_elem? d'.state j ≡ get_elem? d.state j
    pub waiting : (j : ℕ) → get_elem? d'.state j ≡ some pending → In j l → In j d'.stack
    pub stays : (j : ℕ) → IsDone d.state j → IsDone d'.state j
    pub hit : In next l → IsDone d'.state next
    pub same_todos : todos d'.state ≡ todos d.state
    pub shorter : length d'.stack ≤ length l
    pub flag : d'.scratch_used ≡ d.scratch_used
    pub real : ((i : ℕ) (m : Move T) → At ms i m → IsReal m) → All IsReal d.ret → All IsReal d'.ret

  -- The code emits from `ms`; the places are judged by `ms'`, which has the same destinations and
  -- the same moves wherever the stack points.
  module _ (ms ms' : List (Move T)) (one : OneWriter ms') (real : WritesReal ms') (next : ℕ)
      (same_dst : (i : ℕ) (m : Move T)
        → At ms i m
        → (m' : Move T) × At ms' i m' × (m'.dst ≡ m.dst)) where
    abbrev pub Ready : List Phase → List ℕ → Type 0
    Ready st [] = Unit {0}
    Ready st (i ∷ l) =
        (m : Move T) → At ms' i m → (j : ℕ) (n : Move T) → At ms' j n → m.src ≡ n.dst → IsDone st j

    abbrev pub Agree : List ℕ → Type 0
    Agree = All (λ i. get_elem? ms i ≡ get_elem? ms' i)

    -- Below a move that is done the next one is ready: only that move overwrites what it reads.
    pub Ready-below :
        (st : List Phase) (i : ℕ) (l : List ℕ) → IsDone st i → Above ms i l → Agree l → Ready st l
    Ready-below st i [] d above agree = tt
    Ready-below st i (j ∷ r) d above agree = λ n at_n k o at_o e.
        let (m0, at0, reads) = above n (agree.0 ∙ at_n) in
        let (m1, at1, same) = same_dst i m0 at0 in
        subst (IsDone st) (sym (one k i o m1 at_o at1 (sym e ∙ reads ∙ sym same))) d

    -- The search after one `emit`.
    abbrev pub emitted_one : ℕ → Move T → Search T → Search T
    emitted_one i m d = record d { ret = m ∷ d.ret; state = set d.state i done }

    module _ (i : ℕ) (l : List ℕ) (d : Search T) (size : length d.state ≡ length ms)
        (h : Emitted V ms' d.state d.ret) (c : Chain ms d.state (i ∷ l)) (ag : Agree (i ∷ l))
        (ready : Ready d.state (i ∷ l)) (m : Move T) (at : At ms i m) where
      lt : i < length d.state
      lt = lt_of_get d.state i pending c.0

      now_done : IsDone (set d.state i done) i
      now_done = get_elem?-set_self d.state i done lt

      pub one-Emitted : Emitted V ms' (set d.state i done) (m ∷ d.ret)
      one-Emitted =
          Emitted-cons V ms' d.state d.ret i m one real h (sym ag.0 ∙ at) lt (λ e. cc (c.0))
            (λ j n at_j e. set-IsDone d.state i j lt (ready m (sym ag.0 ∙ at) j n at_j e))

      pub one-Chain : Chain ms (set d.state i done) l
      one-Chain = Chain-set ms d.state i done l c.1 c.3

      pub one-Ready : Ready (set d.state i done) l
      one-Ready = Ready-below (set d.state i done) i l now_done c.2 ag.1

      -- What holds of the remaining loop holds of the loop that emits `i` first.
      pub Until-cons :
          (d' : Search T)
          → Until ms ms' next l (emitted_one i m d) d'
          → Until ms ms' next (i ∷ l) d d'
      Until-cons d' u = record {
        emitted = u.emitted;
        chain = u.chain;
        size = u.size ∙ length-set d.state i done;
        outside = λ j n.
            u.outside j (λ k. n (inr k)) ∙ get_elem?-set_ne d.state i j done (λ e. n (inl (sym e)));
        waiting = λ j w.
            ⊎_elim (λ e. absurd (not_waiting d'.state j i e w (u.stays i now_done)))
              (u.waiting j w);
        stays = λ j k. u.stays j (set-IsDone d.state i j lt k);
        hit =
            ⊎_elim (λ e. u.stays next (subst (IsDone (set d.state i done)) (sym e) now_done)) u.hit;
        same_todos = u.same_todos ∙ todos-set d.state i c.0;
        shorter = omega (arith, u.shorter);
        flag = u.flag;
        real = λ all r. u.real all (all i m at, r);
      }

      -- The loop stops at `next`.
      pub Until-stop :
          i ≡ next → Until ms ms' next (i ∷ l) d (record (emitted_one i m d) { stack = l })
      Until-stop e = record {
        emitted = one-Emitted;
        chain = one-Chain;
        size = length-set d.state i done;
        outside = λ j n. get_elem?-set_ne d.state i j done (λ e. n (inl (sym e)));
        waiting = λ j w.
            ⊎_elim (λ e. absurd (not_waiting (set d.state i done) j i e w now_done)) (λ k. k);
        stays = λ j. set-IsDone d.state i j lt;
        hit = λ _. subst (IsDone (set d.state i done)) e (get_elem?-set_self d.state i done lt);
        same_todos = todos-set d.state i c.0;
        shorter = omega arith;
        flag = refl;
        real = λ all r. (all i m at, r);
      }

    -- The loop comes to its end, and emits what it should.
    pub until :
        (l : List ℕ) (d : Search T)
        → length d.state ≡ length ms
        → Emitted V ms' d.state d.ret
        → Chain ms d.state l
        → Agree l
        → Ready d.state l
        → (d' : Search T) × (emit_until ms next l d ≡ some d') × Until ms ms' next l d d'
    unfolding emit_until
    until [] d size h c ag ready = (
      record d { stack = [] },
      refl,
      record {
        emitted = h;
        chain = tt;
        size = refl;
        outside = λ j n. refl;
        waiting = λ j w k. k;
        stays = λ j k. k;
        hit = λ k. absurd k;
        same_todos = refl;
        shorter = omega arith;
        flag = refl;
        real = λ all r. r;
      },
    )
    until (i ∷ l) d size h c ag ready =
        let (m, at) = get_of_lt ms i (omega (arith, size, lt_of_get d.state i pending c.0)) in
        elim (ℕ_discrete i next) [
          | yes e ↦ (
            record (emitted_one i m d) { stack = l },
            rw (at, emit) (rw ((==_iff i next).1 e)),
            Until-stop i l d size h c ag ready m at e,
          )
          | no ne ↦
              let (d', runs, u) =
                until l (emitted_one i m d) (length-set d.state i done ∙ size)
                  (one-Emitted i l d size h c ag ready m at)
                  (one-Chain i l d size h c ag ready m at) ag.1
                  (one-Ready i l d size h c ag ready m at) in
              (
                d',
                rw (at, emit) (rw (==_ne i next ne) runs),
                Until-cons i l d size h c ag ready m at d' u,
              )
        ]
