-- ===== src/Moves/Places.antt =====
-- The search invents no moves: each move that it emits is a move of the problem, or one that reads
-- or writes the scratch space in its place.
use regalloc.Prelude.{
  List-cases, some_inj, >>=-eq-some, ℕ, zero, suc, ◌≡◌, inl, inr, subst, List, [], ◌∷◌, Option,
  some, none, get_elem?, set, All, Bool-cases, Option-cases, ◌==◌,
}
use regalloc.Allocation.{no_alloc}
use regalloc.Moves.{
  Move, Phase, todo, pending, done, Search, emit, emit_until, emit_stack, emit_cycle, visit_next,
  visit, run_stack, stack_fuel, run_all, must_come_before, first_todo,
}
use regalloc.Moves.Emitted.{At}

module _ {T : Type 0} (P : Move T → Type 0) (default : T) (ms : List (Move T))
    (ok : (i : ℕ) (m : Move T) → At ms i m → P m)
    (read : (i : ℕ) (m : Move T) → At ms i m → P (record m { src = no_alloc }))
    (saved : (i : ℕ) (m : Move T)
      → At ms i m
      → P (record { src = m.src; dst = no_alloc; info = default })) where
  abbrev pub Places : List (Move T) → Type 0
  Places = All P

  emit-Places : (i : ℕ) (d d' : Search T) → emit ms i d ≡ some d' → Places d.ret → Places d'.ret
  unfolding emit
  emit-Places i d d' h p =
      let (m, at, e) = >>=-eq-some (get_elem? ms i) _ h in
      subst (λ (x : Search T). Places x.ret) (some_inj _ d' e) (ok i m at, p)

  until-Places :
      (n : ℕ) (l : List ℕ) (d d' : Search T)
      → emit_until ms n l d ≡ some d'
      → Places d.ret
      → Places d'.ret
  unfolding emit_until
  until-Places n [] d d' h p = subst (λ (x : Search T). Places x.ret) (some_inj _ d' h) p
  until-Places n (i ∷ l) d d' h p =
      let (d1, e1, e2) = >>=-eq-some (emit ms i d) _ h in
      let p1 = emit-Places i d d1 e1 p in
      elim (Bool-cases (i == n)) [
        | inl t ↦ subst (λ (x : Search T). Places x.ret) (some_inj _ d' (rw t at e2)) p1
        | inr t ↦ until-Places n l d1 d' (rw t at e2) p1
      ]

  stack-Places :
      (l : List ℕ) (d d' : Search T) → emit_stack ms l d ≡ some d' → Places d.ret → Places d'.ret
  unfolding emit_stack
  stack-Places [] d d' h p = subst (λ (x : Search T). Places x.ret) (some_inj _ d' h) p
  stack-Places (i ∷ l) d d' h p =
      let (d1, e1, e2) = >>=-eq-some (emit ms i d) _ h in
      stack-Places l d1 d' e2 (emit-Places i d d1 e1 p)

  cycle-Places :
      (top next : ℕ) (rest : List ℕ) (d d' : Search T)
      → emit_cycle default ms top next rest d ≡ some d'
      → Places d.ret
      → Places d'.ret
  unfolding emit_cycle
  cycle-Places top next rest d d' h p =
      let (m, at, e1) = >>=-eq-some (get_elem? ms top) _ h in
      let (d1, e2, e3) = >>=-eq-some (emit_until ms next rest _) _ e1 in
      let p1 = until-Places next rest _ d1 e2 (read top m at, p) in
      subst (λ (x : Search T). Places x.ret) (some_inj _ d' e3) (saved top m at, p1)

  next-Places :
      (top next : ℕ) (rest : List ℕ) (d d' : Search T) (ph : Phase)
      → visit_next default ms top rest d next ph ≡ some d'
      → Places d.ret
      → Places d'.ret
  unfolding visit_next
  next-Places top next rest d d' todo h p =
      subst (λ (x : Search T). Places x.ret) (some_inj _ d' h) p
  next-Places top next rest d d' pending h p = cycle-Places top next rest d d' h p
  next-Places top next rest d d' done h p = stack-Places (top ∷ rest) d d' h p

  visit-Places :
      (top : ℕ) (rest : List ℕ) (d d' : Search T) (o : Option ℕ)
      → visit default ms top rest d o ≡ some d'
      → Places d.ret
      → Places d'.ret
  unfolding visit
  visit-Places top rest d d' none h p = stack-Places (top ∷ rest) d d' h p
  visit-Places top rest d d' (some next) h p =
      let (ph, e1, e2) = >>=-eq-some (get_elem? d.state next) _ h in
      next-Places top next rest d d' ph e2 p

  run_stack-Places :
      (fuel : ℕ) (d d' : Search T)
      → run_stack fuel default ms d ≡ some d'
      → Places d.ret
      → Places d'.ret
  unfolding run_stack
  run_stack-Places zero d d' h p = cc
  run_stack-Places (suc fuel) d d' h p = elim (List-cases d.stack) [
    | inl e ↦ subst (λ (x : Search T). Places x.ret) (some_inj d d' (simp (e, run_stack) at h)) p
    | inr (top, rest, e) ↦
        let (d1, e1, e2) = >>=-eq-some _ _ (simp (e, run_stack) at h) in
        let (o, e3, e4) = >>=-eq-some (get_elem? (must_come_before ms) top) _ e1 in
        run_stack-Places fuel d1 d' e2 (visit-Places top rest d d1 o e4 p)
  ]

  pub run_all-Places :
      (fuel : ℕ) (d d' : Search T)
      → run_all fuel default ms d ≡ some d'
      → Places d.ret
      → Places d'.ret
  unfolding run_all
  run_all-Places zero d d' h p = cc
  run_all-Places (suc fuel) d d' h p = elim (Option-cases (first_todo d.state)) [
    | inl e ↦ subst (λ (x : Search T). Places x.ret) (some_inj d d' (rw (e, run_all) at h)) p
    | inr (next, e) ↦
        let d0 : Search T = record d { stack = next ∷ d.stack; state = set d.state next pending } in
        let (d1, e1, e2) =
          >>=-eq-some (run_stack (stack_fuel ms) default ms d0) (run_all fuel default ms)
            (rw (e, run_all) at h) in
        run_all-Places fuel d1 d' e2 (run_stack-Places (stack_fuel ms) d0 d1 e1 p)
  ]
