-- ===== src/Moves/Cycle.antt =====
-- A cycle goes through the scratch space: judged by a list in which the top of the stack reads the
-- scratch space, it is emitted like any other run of the stack.
use mathlib.Core.Logic.{⊎_elim}
use regalloc.Prelude.{
  In, lt_of_get, ℕ, ◌≤◌, ◌<◌, ◌≡◌, ◌≢◌, ◌⊎◌, inl, inr, refl, sym, ap, ◌∙◌, subst, List, [], ◌∷◌,
  some, true, arith, length, get_elem?, set, length-set, get_elem?-set_self, get_elem?-set_ne, All,
  ℕ_discrete,
}
use regalloc.Allocation.{no_alloc}
use regalloc.Moves.{Move, Phase, pending, done, Search, emit_until, emit_cycle}
use regalloc.Moves.Store.{Store, write, write_self, write_ne, exec}
use regalloc.Moves.Emitted.{At, OneWriter, WritesReal, IsDone, Emitted, Emitted-cons}
use regalloc.Moves.Stack.{In-cases, Fresh, todos, todos-set, Chain-set}
use regalloc.Moves.Until.{IsReal, Until, until, Ready-below, Wf, not_waiting}

module _ {T : Type 0} (V : Type 0) (default : T) (ms : List (Move T)) (one : OneWriter ms)
    (real : (i : ℕ) (m : Move T) → At ms i m → IsReal m) (top : ℕ) (m : Move T)
    (at : At ms top m) where
  -- The top of the stack with the scratch space for its source.
  abbrev pub through : Move T
  through = record m { src = no_alloc }

  abbrev pub broken : List (Move T)
  broken = set ms top through

  in_range : top < length ms
  in_range = lt_of_get ms top m at

  At-top : At broken top through
  At-top = get_elem?-set_self ms top through in_range

  pub at_other : (i : ℕ) → i ≢ top → get_elem? ms i ≡ get_elem? broken i
  at_other i ne = sym (get_elem?-set_ne ms top i through (λ e. ne (sym e)))

  -- A move of the broken list is one of the list, or the top.
  broken_cases :
      (i : ℕ) (n : Move T) → At broken i n → ((i ≡ top) × (n ≡ through)) ⊎ ((i ≢ top) × At ms i n)
  broken_cases i n h = elim (ℕ_discrete i top) [
    | yes e ↦ inl (e, cc (ap (get_elem? broken) e, At-top))
    | no ne ↦ inr (ne, at_other i ne ∙ h)
  ]

  same-At : (i : ℕ) (n : Move T) → At ms i n → i ≡ top → n ≡ m
  same-At i n h e = cc (ap (get_elem? ms) e)

  pub same_dst :
      (i : ℕ) (n : Move T) → At ms i n → (n' : Move T) × At broken i n' × (n'.dst ≡ n.dst)
  same_dst i n h = elim (ℕ_discrete i top) [
    | yes e ↦ (
      through,
      ap (get_elem? broken) e ∙ At-top,
      ap (λ (x : Move T). x.dst) (sym (same-At i n h e)),
    )
    | no ne ↦ (n, sym (at_other i ne) ∙ h, refl)
  ]

  -- And back.
  pub dst_back :
      (i : ℕ) (n : Move T) → At broken i n → (n' : Move T) × At ms i n' × (n'.dst ≡ n.dst)
  dst_back i n h = elim (broken_cases i n h) [
    | inl (e, same) ↦ (m, ap (get_elem? ms) e ∙ at, ap (λ (x : Move T). x.dst) (sym same))
    | inr (ne, h') ↦ (n, h', refl)
  ]

  pub one_broken : OneWriter broken
  one_broken i j n o h k e =
      let (n', hn, en) = dst_back i n h in
      let (o', ho, eo) = dst_back j o k in one i j n' o' hn ho (en ∙ e ∙ sym eo)

  pub writes_broken : WritesReal broken
  writes_broken i n h e = let (n', hn, en) = dst_back i n h in (real i n' hn).1 (en ∙ e)

  -- As long as the top is not done, the two lists mean the same.
  pub Emitted-broken :
      (st : List Phase) (ret : List (Move T))
      → ¬ IsDone st top
      → Emitted V ms st ret
      → Emitted V broken st ret
  Emitted-broken st ret fresh h = record {
    moved = λ s i n at_n d. h.moved s i n (settled i n at_n d) d;
    kept = λ s x ne free.
        h.kept s x ne (λ i n at_n d. free i n (sym (at_other i (apart i d)) ∙ at_n) d);
    closed = λ i j n o at_n at_o d e.
        let (o', at_o', same) = dst_back j o at_o in
        h.closed i j n o' (settled i n at_n d) at_o' d (e ∙ sym same);
  }
    where
      apart : (i : ℕ) → IsDone st i → i ≢ top
      apart i d e = fresh (subst (IsDone st) e d)

      settled : (i : ℕ) (n : Move T) → At broken i n → IsDone st i → At ms i n
      settled i n h d = at_other i (apart i d) ∙ h

  abbrev pub save : Move T
  save = record { src = m.src; dst = no_alloc; info = default }

  -- Saving the source of the top in the scratch space mends the list.
  module _ (st : List Phase) (ret : List (Move T)) (h : Emitted V broken st ret)
      (over : IsDone st top)
      (closes : (j : ℕ) (n : Move T) → At ms j n → m.src ≡ n.dst → IsDone st j) where
    mended_moved :
        (s : Store V) (i : ℕ) (n : Move T)
        → At ms i n
        → IsDone st i
        → exec (save ∷ ret) s n.dst ≡ s n.src
    unfolding exec
    mended_moved s i n at_n d = elim (ℕ_discrete i top) [
      | yes e ↦
          subst (λ o. exec (save ∷ ret) s o.dst ≡ s o.src) (sym (same-At i n at_n e))
            (h.moved (write s no_alloc (s m.src)) top through At-top over
              ∙ write_self s no_alloc (s m.src))
      | no ne ↦
          h.moved (write s no_alloc (s m.src)) i n (sym (at_other i ne) ∙ at_n) d
          ∙ write_ne s no_alloc n.src (s m.src) (λ e. (real i n at_n).0 (sym e))
    ]

    mended_closed :
        (i j : ℕ) (n o : Move T) → At ms i n → At ms j o → IsDone st i → n.src ≡ o.dst → IsDone st j
    mended_closed i j n o at_n at_o d e = elim (ℕ_discrete i top) [
      | yes eq ↦ closes j o at_o (ap (λ (x : Move T). x.src) (sym (same-At i n at_n eq)) ∙ e)
      | no ne ↦
          let (o', at_o', same) = same_dst j o at_o in
          h.closed i j n o' (sym (at_other i ne) ∙ at_n) at_o' d (e ∙ sym same)
    ]

    pub Emitted-mended : Emitted V ms st (save ∷ ret)
    unfolding exec
    Emitted-mended = record {
      moved = mended_moved;
      kept = λ s x ne free.
          h.kept (write s no_alloc (s m.src)) x ne (λ i n at_n d e.
            let (n', at_n', same) = dst_back i n at_n in free i n' at_n' d (same ∙ e))
          ∙ write_ne s no_alloc x (s m.src) (λ e. ne (sym e));
      closed = mended_closed;
    }

  -- The whole cycle, from a well-formed search with the top on the stack.
  module _ (d : Search T) (rest : List ℕ) (next : ℕ) (wf : Wf V ms d (top ∷ rest))
      (on : In next rest)
      (target : (j : ℕ) (n : Move T) → At ms j n → m.src ≡ n.dst → j ≡ next) where
    lt : top < length d.state
    lt = omega (arith, wf.size, in_range)

    not-IsDone : ¬ IsDone d.state top
    not-IsDone e = cc (wf.chain.0)

    first : Search T
    first = record d { ret = through ∷ d.ret; state = set d.state top done; scratch_used = true }

    first-Emitted : Emitted V broken (set d.state top done) (through ∷ d.ret)
    first-Emitted =
        Emitted-cons V broken d.state d.ret top through one_broken writes_broken
          (Emitted-broken d.state d.ret not-IsDone wf.emitted) At-top lt not-IsDone
          (λ j n at_n e. absurd (writes_broken j n at_n (sym e)))

    agrees : (l : List ℕ) → Fresh top l → All (λ i. get_elem? ms i ≡ get_elem? broken i) l
    agrees [] f = tt
    agrees (j ∷ l) f = (at_other j (λ e. f.0 (sym e)), agrees l f.1)

    top_done : IsDone (set d.state top done) top
    top_done = get_elem?-set_self d.state top done lt

    rest_emitted :
        (d' : Search T) × (emit_until ms next rest first ≡ some d')
        × Until V ms broken next rest first d'
    unfolding first
    rest_emitted =
        until V ms broken one_broken writes_broken next same_dst rest first
          (length-set d.state top done ∙ wf.size) first-Emitted
          (Chain-set ms d.state top done rest wf.chain.1 wf.chain.3) (agrees rest wf.chain.1)
          (Ready-below V ms broken one_broken writes_broken next same_dst (set d.state top done) top
            rest top_done wf.chain.2 (agrees rest wf.chain.1))

    finished : Search T → Search T
    finished d' = record d' { ret = save ∷ d'.ret }

    -- Whatever waits after the cycle is on what is left of the stack.
    on_rest :
        (d' : Search T) (u : Until V ms broken next rest first d') (j : ℕ)
        → get_elem? d'.state j ≡ some pending
        → In j d'.stack
    unfolding first
    on_rest d' u j w = elim (In-cases j rest) [
      | inl k ↦ u.waiting j w k
      | inr n ↦
          let before : get_elem? (set d.state top done) j ≡ some pending =
            sym (u.outside j n) ∙ w in
          absurd (
            n (elim (ℕ_discrete top j) [
              | yes e ↦ absurd (not_waiting (set d.state top done) j top (sym e) before top_done)
              | no ne ↦
                  ⊎_elim (λ (e : j ≡ top). absurd (ne (sym e))) (λ (k : In j rest). k)
                    (wf.on_stack j (sym (get_elem?-set_ne d.state top j done ne) ∙ before))
            ]))
    ]

    -- The cycle is emitted, and the search stays in order, with a shorter stack.
    pub emit_cycle-Wf :
        (d' : Search T) × (emit_cycle default ms top next rest d ≡ some d')
        × Wf V ms d' d'.stack
        × (todos d'.state ≡ todos d.state)
        × (length d'.stack ≤ length rest)
    unfolding emit_cycle first finished
    emit_cycle-Wf =
        let (d', runs, u) = rest_emitted in
        let done_next = u.hit on in
        (
          finished d',
          rw at (rw runs),
          record {
            size = u.size ∙ length-set d.state top done ∙ wf.size;
            chain = u.chain;
            on_stack = on_rest d' u;
            emitted =
                Emitted-mended d'.state d'.ret u.emitted (u.stays top top_done)
                  (λ j n at_n e. subst (IsDone d'.state) (sym (target j n at_n e)) done_next);
            plain = λ e. cc (u.flag);
          },
          u.same_todos ∙ todos-set d.state top wf.chain.0,
          u.shorter,
        )
