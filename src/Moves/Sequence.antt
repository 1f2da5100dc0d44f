-- ===== src/Moves/Sequence.antt =====
-- The search from its start: with the fuel that it is given it ends, and its moves do in sequence
-- what the problem does in parallel.
use regalloc.Prelude.{
  In, lt_of_get, get_of_lt, ℕ, zero, suc, ◌<◌, ◌≡◌, ◌≢◌, ◌⊎◌, inl, inr, refl, sym, ap, ◌∙◌, subst,
  List, [], some, none, true, false, arith, length, get_elem?, replicate, All, map, Bool-cases,
}
use regalloc.Allocation.{Allocation, no_alloc}
use regalloc.Moves.{
  Move, Phase, todo, pending, done, Search, run_all, first_todo, start, finish, MoveVecWithScratch,
  scratch, no_scratch, with_scratch, with_scratch_assert, needs_scratch, sequentialize,
  sources_overlap_dests,
}
use regalloc.Moves.Store.{Store, exec}
use regalloc.Moves.Emitted.{At, IsDone}
use regalloc.Moves.Stack.{todos, todos-le}
use regalloc.Moves.Until.{Wf}
use regalloc.Moves.Round.{IsProblem}
use regalloc.Moves.Run.{phase_cases, first_todo-none, run_all-Wf}
use regalloc.Moves.Prepare.{MemIn, MemIn-At, At-MemIn, All-of_MemIn}
use regalloc.Moves.Effect.{Parallel, apart-Parallel}
use regalloc.Moves.Fill.{
  filled, filled_move, IsFull, BothFull, Place, Fillable, full_real, exec-Filled, filled-real,
  fill_moves_lem, filled_move-IsFull, all_asserted_lem, All-BothFull, places_apart,
}
use regalloc.Moves.Places.{run_all-Places}

replicate-at : (n i : ℕ) (p : Phase) → get_elem? (replicate n todo) i ≡ some p → p ≡ todo
replicate-at zero i p h = cc
replicate-at (suc n) zero p h = cc
replicate-at (suc n) (suc i) p h = replicate-at n i p h

length-replicate : (n : ℕ) → length (replicate n todo) ≡ n
length-replicate zero = refl
length-replicate (suc n) = ap suc (length-replicate n)

module _ {T : Type 0} (V : Type 0) (ms : List (Move T)) where
  start-Wf : Wf V ms (start ms) []
  unfolding exec
  start-Wf = record {
    size = length-replicate (length ms);
    chain = tt;
    on_stack = λ j w. cc (replicate-at (length ms) j pending w);
    emitted = record {
      moved = λ s i m at d. cc (replicate-at (length ms) i done d);
      kept = λ s x ne free. refl;
      closed = λ i j m n at at' d e. cc (replicate-at (length ms) i done d);
    };
    plain = λ e. tt;
  }

  -- At the end every move is done.
  all-IsDone :
      (d : Search T)
      → Wf V ms d d.stack
      → d.stack ≡ []
      → first_todo d.state ≡ none
      → (i : ℕ) (m : Move T) → At ms i m
      → IsDone d.state i
  all-IsDone d wf empty finished i m at =
      let (p, e) = get_of_lt d.state i (omega (arith, wf.size, lt_of_get ms i m at)) in
      elim (phase_cases p) [
        | inl t ↦ absurd (first_todo-none d.state i finished (e ∙ ap some t))
        | inr (inl t) ↦ absurd (subst (In i) empty (wf.on_stack i (e ∙ ap some t)))
        | inr (inr t) ↦ e ∙ ap some t
      ]

  -- The places that a result leaves alone.
  abbrev pub Guarded : Allocation → MoveVecWithScratch T → Allocation → Type 0
  Guarded spare r x = (x ≢ no_alloc) × ((x ≢ spare) ⊎ (needs_scratch r ≡ false))

  -- The result `r` does the moves `ms`, with `spare` for its scratch space: it can be filled in, also
  -- where debug assertions are on.
  pub record Does (spare : Allocation) (r : MoveVecWithScratch T) : Type 0 where
    pub out : List (Move T)
    pub runs : with_scratch r spare ≡ some out
    pub asserts : with_scratch_assert r spare ≡ some true
    pub effect : Parallel V (Guarded spare r) ms out
    pub full : All BothFull out

  module _ (default : T) (spare : Allocation) (p : IsProblem ms) (spare_full : IsFull spare)
      (fine : (i : ℕ) (m : Move T)
        → At ms i m
        → BothFull m × (m.src ≢ spare) × (m.dst ≢ spare)) where
    spare_real : spare ≢ no_alloc
    spare_real = full_real spare spare_full

    unused : (i : ℕ) (m : Move T) → At ms i m → (m.src ≢ spare) × (m.dst ≢ spare)
    unused i m at = let h = fine i m at in (h.1, h.2)

    place : (a : Allocation) → IsFull a → a ≢ spare → Place spare a
    place a full ne = (ne, inr full)

    scratch_place : Place spare no_alloc
    scratch_place = ((λ e. spare_real (sym e)), inl refl)

    fillable : (i : ℕ) (m : Move T) → At ms i m → Fillable spare m
    fillable i m at =
        let h = fine i m at in (place m.src h.0.0 h.1, place m.dst h.0.1 h.2, inl (p.real i m at).0)

    read-Fillable : (i : ℕ) (m : Move T) → At ms i m → Fillable spare (record m { src = no_alloc })
    read-Fillable i m at =
        let h = fine i m at in (scratch_place, place m.dst h.0.1 h.2, inr (p.real i m at).1)

    saved-Fillable :
        (i : ℕ) (m : Move T)
        → At ms i m
        → Fillable spare (record { src = m.src; dst = no_alloc; info = default })
    saved-Fillable i m at =
        let h = fine i m at in (place m.src h.0.0 h.1, scratch_place, inl (p.real i m at).0)

    plain-Does :
        (d : Search T)
        → Wf V ms d d.stack
        → ((i : ℕ) (m : Move T) → At ms i m → IsDone d.state i)
        → All (Fillable spare) d.ret
        → d.scratch_used ≡ false
        → Does spare (no_scratch d.ret)
    unfolding with_scratch with_scratch_assert
    plain-Does d wf finished places flag = record {
      out = d.ret;
      runs = refl;
      asserts = refl;
      effect = record {
        moved =
            λ s m k. let (i, at) = MemIn-At ms m k in wf.emitted.moved s i m at (finished i m at);
        kept = λ s x g free. wf.emitted.kept s x g.0 (λ i m at e. free m (At-MemIn ms i m at));
      };
      full = All-BothFull spare d.ret (wf.plain flag) places;
    }

    filled-Does :
        (d : Search T)
        → Wf V ms d d.stack
        → ((i : ℕ) (m : Move T) → At ms i m → IsDone d.state i)
        → All (Fillable spare) d.ret
        → Does spare (scratch d.ret)
    unfolding with_scratch with_scratch_assert needs_scratch
    filled-Does d wf finished places = record {
      out = map (filled_move spare) d.ret;
      runs = fill_moves_lem spare d.ret places;
      asserts = all_asserted_lem spare d.ret places;
      effect = record { moved = moves_done; kept = others_kept };
      full = filled_move-IsFull spare d.ret spare_full places;
    }
      where
        under : Store V → Store V
        under t a = t (filled spare a)

        agrees :
            (t : Store V) (a : Allocation)
            → a ≢ spare
            → exec (map (filled_move spare) d.ret) t (filled spare a) ≡ exec d.ret (under t) a
        agrees t =
            exec-Filled spare d.ret (under t) t (places_apart spare d.ret places) (λ a ne. refl)

        at_real :
            (t : Store V) (a : Allocation)
            → a ≢ spare
            → a ≢ no_alloc
            → exec (map (filled_move spare) d.ret) t a ≡ exec d.ret (under t) a
        at_real t a ne real =
            ap (exec (map (filled_move spare) d.ret) t) (sym (filled-real spare a real))
            ∙ agrees t a ne

        moves_done :
            (s : Store V) (m : Move T)
            → MemIn m ms
            → exec (map (filled_move spare) d.ret) s m.dst ≡ s m.src
        moves_done s m k =
            let (i, at) = MemIn-At ms m k in
            at_real s m.dst (unused i m at).1 (p.real i m at).1
            ∙ wf.emitted.moved (under s) i m at (finished i m at)
            ∙ ap s (filled-real spare m.src (p.real i m at).0)

        others_kept :
            (s : Store V) (x : Allocation)
            → Guarded spare (scratch d.ret) x
            → ((m : Move T) → MemIn m ms → m.dst ≢ x)
            → exec (map (filled_move spare) d.ret) s x ≡ s x
        others_kept s x (real, inl ne) free =
            at_real s x ne real
            ∙ wf.emitted.kept (under s) x real (λ i m at e. free m (At-MemIn ms i m at))
            ∙ ap s (filled-real spare x real)
        others_kept s x (real, inr e) free = cc

    finish-Does :
        (d : Search T)
        → Wf V ms d d.stack
        → ((i : ℕ) (m : Move T) → At ms i m → IsDone d.state i)
        → All (Fillable spare) d.ret
        → Does spare (finish d)
    finish-Does d wf finished places = elim (Bool-cases d.scratch_used) [
      | inl e ↦ rw e (filled-Does d wf finished places)
      | inr e ↦ rw e (plain-Does d wf finished places e)
    ]

    search-Does :
        (d : Search T) × (run_all (suc (length ms)) default ms (start ms) ≡ some d)
        × Does spare (finish d)
    search-Does =
        let fuel : todos (replicate (length ms) todo) < suc (length ms) =
          omega (arith, todos-le (replicate (length ms) todo), length-replicate (length ms)) in
        let (d, runs, wf, empty, finished) =
          run_all-Wf V default ms p (suc (length ms)) (start ms) start-Wf refl fuel in
        let places =
          run_all-Places (Fillable spare) default ms fillable read-Fillable saved-Fillable
            (suc (length ms)) (start ms) d runs tt in
        (d, runs, finish-Does d wf (all-IsDone d wf empty finished) places)

    pub sequentialize-Does :
        (r : MoveVecWithScratch T) × (sequentialize default ms ≡ some r) × Does spare r
    unfolding sequentialize with_scratch with_scratch_assert
    sequentialize-Does = elim (Bool-cases (sources_overlap_dests ms)) [
      | inl e ↦ let (d, runs, does) = search-Does in (finish d, rw e (rw runs refl), does)
      | inr e ↦
          let both = apart-Parallel {V = V} ms p.one e in
          (
            no_scratch ms,
            rw e refl,
            record {
              out = ms;
              runs = refl;
              asserts = refl;
              effect = record { moved = both.moved; kept = λ s x g free. both.kept s x tt free };
              full =
                  All-of_MemIn BothFull ms
                    (λ m k. let (i, at) = MemIn-At ms m k in (fine i m at).0);
            },
          )
    ]
