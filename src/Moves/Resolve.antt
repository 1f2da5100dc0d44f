-- ===== src/Moves/Resolve.antt =====
-- `resolve` as a whole: the moves that it returns do in sequence what the given moves do in
-- parallel, and the search ends.
use regalloc.Prelude.{
  ℕ, suc, ◌≡◌, ◌≢◌, ◌↔◌, inl, inr, refl, sym, ap, ◌∙◌, subst, List, [], ◌∷◌, some, Bool, true,
  false, leb, All, length, get_elem?, arith,
}
use regalloc.Allocation.{Allocation}
use regalloc.Moves.{
  Move, MoveVecWithScratch, no_scratch, sort, dedup, drop_self_moves, resolve, with_scratch,
  with_scratch_assert,
}
use regalloc.Moves.Store.{exec, alloc_cases}
use regalloc.Moves.Round.{IsProblem}
use regalloc.Moves.Prepare.{
  MemIn, At-MemIn, All-MemIn, All-of_MemIn, IsWords, Sorted, Strict, sort-mem, sort-Sorted,
  drop-mem, drop-Strict, Strict-OneWriter, Agrees, dedup_from-mem, dedup_from-Strict,
}
use regalloc.Moves.Fill.{IsFull, BothFull, full_real}
use regalloc.Moves.Effect.{Parallel, one-Parallel}
use regalloc.Moves.Sequence.{Does, Guarded, sequentialize-Does}

many : (n : ℕ) → leb (suc (suc n)) 1 ≡ false
many n = ground (arith)

-- A move between two 32-bit places whose kinds can be read and are not "none", neither of them the
-- spare one.
abbrev pub IsMove : {T : Type 0} → Allocation → Move T → Type 0
IsMove spare m = IsWords m × BothFull m × (m.src ≢ spare) × (m.dst ≢ spare)

module _ {T : Type 0} (same : T → T → Bool) (same_iff : (a b : T) → (same a b ≡ true) ↔ (a ≡ b))
    (default : T) (V : Type 0) (spare : Allocation) (spare_full : IsFull spare) where
  abbrev prepare : List (Move T) → List (Move T)
  prepare ms = drop_self_moves (dedup same (sort ms))

  dedup-mem : (xs : List (Move T)) (m : Move T) → MemIn m (dedup same xs) ↔ MemIn m xs
  unfolding dedup
  dedup-mem [] m = (λ h. h, λ h. h)
  dedup-mem (x ∷ xs) m = dedup_from-mem same same_iff x xs m

  dedup-Strict : (xs : List (Move T)) → Sorted xs → Agrees xs → Strict (dedup same xs)
  unfolding dedup
  dedup-Strict [] h ag = tt
  dedup-Strict (x ∷ xs) h ag = dedup_from-Strict same same_iff x xs h ag

  module _ (ms : List (Move T)) (ok : All (IsMove spare) ms) (agree : Agrees ms) where
    prepare-mem : (m : Move T) → MemIn m (prepare ms) ↔ (MemIn m ms × (m.src ≢ m.dst))
    prepare-mem m =
        let d = drop-mem (dedup same (sort ms)) m in
        let e = dedup-mem (sort ms) m in
        let f = sort-mem ms m in
        (λ h. (f.0 (e.0 (d.0 h).0), (d.0 h).1), λ h. d.1 (e.1 (f.1 h.0), h.1))

    prepare-Strict : Strict (prepare ms)
    prepare-Strict = drop-Strict (dedup same (sort ms)) (
        dedup-Strict (sort ms)
          (sort-Sorted ms (All-of_MemIn IsWords ms (λ m k. (All-MemIn (IsMove spare) ms ok m k).0)))
          (λ a b k l. agree a b ((sort-mem ms a).0 k) ((sort-mem ms b).0 l)))

    prepared : (i : ℕ) (m : Move T) → get_elem? (prepare ms) i ≡ some m → IsMove spare m
    prepared i m at =
        All-MemIn (IsMove spare) ms ok m ((prepare-mem m).0 (At-MemIn (prepare ms) i m at)).0

    prepare-IsProblem : IsProblem (prepare ms)
    prepare-IsProblem = record {
      one = Strict-OneWriter (prepare ms) prepare-Strict;
      real = λ i m at. let w = (prepared i m at).1 in (full_real m.src w.0, full_real m.dst w.1);
      moves = λ i m at. ((prepare-mem m).0 (At-MemIn (prepare ms) i m at)).1;
    }

    -- Moves that stay where they are need not be done: no other move writes there.
    with_self_moves : (r : MoveVecWithScratch T) → Does V (prepare ms) spare r → Does V ms spare r
    with_self_moves r does = record {
      out = does.out;
      runs = does.runs;
      asserts = does.asserts;
      effect = record {
        moved = λ s m k. elim (alloc_cases m.src m.dst) [
          | inl (e, _) ↦
              does.effect.kept s m.dst (target m k) (λ n l eq.
                let (l', ne) = (prepare-mem n).0 l in
                ne (subst (λ (q : Move T). q.src ≡ q.dst) (sym (agree n m l' k eq)) e))
              ∙ ap s (sym e)
          | inr (ne, _) ↦ does.effect.moved s m ((prepare-mem m).1 (k, ne))
        ];
        kept = λ s x g free. does.effect.kept s x g (λ m k. free m ((prepare-mem m).0 k).0);
      };
      full = does.full;
    }
      where
        target : (m : Move T) → MemIn m ms → Guarded V ms spare r m.dst
        target m k = let w = All-MemIn (IsMove spare) ms ok m k in (full_real m.dst w.1.1, inl w.3)

    long :
        leb (length ms) 1 ≡ false
        → (r : MoveVecWithScratch T) × (resolve same default ms ≡ some r) × Does V ms spare r
    unfolding resolve
    long e =
        let (r, runs, does) =
          sequentialize-Does V (prepare ms) default spare prepare-IsProblem spare_full
            (λ i m at. let w = prepared i m at in (w.1, w.2, w.3)) in
        (r, rw e runs, with_self_moves r does)

  short_Does :
      (ms : List (Move T))
      → All BothFull ms
      → Parallel V (λ x. Unit {0}) ms ms
      → Does V ms spare (no_scratch ms)
  unfolding with_scratch with_scratch_assert
  short_Does ms full p = record {
    out = ms;
    runs = refl;
    asserts = refl;
    effect = record { moved = p.moved; kept = λ s x g free. p.kept s x tt free };
    full = full;
  }

  -- For every list of moves between 32-bit places whose kinds can be read and are not "none", in
  -- which moves with one destination are one move (duplicates and moves that stay where they are
  -- may occur), and for every spare place of such a kind that no move names: `resolve` returns, its
  -- search ends within its fuel, `with_scratch` returns on its result and the spare place, its
  -- debug assertions hold, and no place that it returns has the kind "none". Run in sequence from
  -- any store, the moves leave in every destination what the move's source held at first, and every
  -- place that is neither the empty one nor a destination keeps its value, the spare place too when
  -- the result needs no scratch space.
  pub resolve_correct :
      (ms : List (Move T))
      → All (IsMove spare) ms
      → Agrees ms
      → (r : MoveVecWithScratch T) × (resolve same default ms ≡ some r) × Does V ms spare r
  unfolding resolve exec
  resolve_correct [] ok agree = (
    no_scratch [],
    refl,
    short_Does [] tt (record { moved = λ s m k. absurd k; kept = λ s x g free. refl }),
  )
  resolve_correct (m ∷ []) ok agree =
      (no_scratch (m ∷ []), refl, short_Does (m ∷ []) (ok.0.1, tt) (one-Parallel m))
  resolve_correct (m ∷ n ∷ ms) ok agree = long (m ∷ n ∷ ms) ok agree (many (length ms))
