-- ===== src/Moves/Visit.antt =====
-- One round of the search keeps it in order and brings it nearer to its end.

use regalloc.Prelude.{
  some_inj, ℕ, zero, suc, ◌≡◌, ◌≢◌, inl, inr, refl, sym, ap, ◌∙◌, subst, List, [], ◌∷◌, map, Option,
  some, none, get_elem?, set, Option-cases, ==_ne,
}
use regalloc.Allocation.{Allocation}
use regalloc.Moves.{Move, done, Search, emit, emit_until, emit_stack, find_dst, must_come_before}
use regalloc.Moves.Store.{alloc_cases}
use regalloc.Moves.Emitted.{At}
use regalloc.Moves.Stack.{Fresh}

module _ {T : Type 0} where
  -- `find_dst` finds the move that writes a place, if there is one.
  pub find_dst-some :
      (ms : List (Move T)) (a : Allocation) (j : ℕ)
      → find_dst ms a ≡ some j
      → (m : Move T) × At ms j m × (m.dst ≡ a)
  unfolding find_dst
  find_dst-some [] a j h = cc
  find_dst-some (m ∷ ms) a j h = elim (alloc_cases m.dst a) [
    | inl (e, t) ↦
        let z : 0 ≡ j = cc (rw (t, find_dst) at h) in (m, subst (λ k. At (m ∷ ms) k m) z refl, e)
    | inr (ne, t) ↦ elim (Option-cases (find_dst ms a)) [
      | inl n ↦ cc (rw (t, n) at h)
      | inr (k, f) ↦
          let (m', at, e) = find_dst-some ms a k f in
          let z : suc k ≡ j = cc (rw (t, f) at h) in (m', subst (λ q. At (m ∷ ms) q m') z at, e)
    ]
  ]

  pub find_dst-none :
      (ms : List (Move T)) (a : Allocation)
      → find_dst ms a ≡ none
      → (j : ℕ) (m : Move T) → At ms j m
      → m.dst ≢ a
  unfolding find_dst
  find_dst-none [] a h j m at e = cc
  find_dst-none (x ∷ ms) a h zero m at e = elim (alloc_cases x.dst a) [
    | inl (_, t) ↦ cc (rw t at h)
    | inr (ne, t) ↦ ne (ap (λ (o : Move T). o.dst) (some_inj x m at) ∙ e)
  ]
  find_dst-none (x ∷ ms) a h (suc j) m at e = elim (alloc_cases x.dst a) [
    | inl (_, t) ↦ cc (rw t at h)
    | inr (ne, t) ↦ elim (Option-cases (find_dst ms a)) [
      | inl n ↦ find_dst-none ms a n j m at e
      | inr (k, f) ↦ cc (rw (t, f) at h)
    ]
  ]

  get_elem?-map :
      (f : Move T → Option ℕ) (ms : List (Move T)) (i : ℕ) (m : Move T)
      → At ms i m
      → get_elem? (map f ms) i ≡ some (f m)
  get_elem?-map f [] i m at = cc
  get_elem?-map f (x ∷ ms) zero m at = cc
  get_elem?-map f (x ∷ ms) (suc i) m at = get_elem?-map f ms i m at

  pub must_come_before-At :
      (ms : List (Move T)) (i : ℕ) (m : Move T)
      → At ms i m
      → get_elem? (must_come_before ms) i ≡ some (find_dst ms m.src)
  unfolding must_come_before
  must_come_before-At ms = get_elem?-map (λ m. find_dst ms m.src) ms

  -- Emitting the whole stack is emitting it down to a move that is not on it.
  pub emit_stack-eq :
      (ms : List (Move T)) (n : ℕ) (l : List ℕ) (d : Search T)
      → Fresh n l
      → emit_stack ms l d ≡ emit_until ms n l d
  unfolding emit_stack emit_until
  emit_stack-eq ms n [] d f = refl
  emit_stack-eq ms n (i ∷ l) d f = elim (Option-cases (get_elem? ms i)) [
    | inl e ↦ rw (e, emit)
    | inr (m, e) ↦
        rw (e, emit, ==_ne i n (λ eq. f.0 (sym eq)))
          (emit_stack-eq ms n l (record d { ret = m ∷ d.ret; state = set d.state i done }) f.1)
  ]

  pub emit_stack-empty :
      (ms : List (Move T)) (l : List ℕ) (d d' : Search T)
      → emit_stack ms l d ≡ some d'
      → d'.stack ≡ []
  unfolding emit_stack
  emit_stack-empty ms [] d d' h =
      sym (ap (λ (q : Search T). q.stack) (some_inj (record d { stack = [] }) d' h))
  emit_stack-empty ms (i ∷ l) d d' h = elim (Option-cases (get_elem? ms i)) [
    | inl e ↦ cc (rw (e, emit) at h)
    | inr (m, e) ↦ emit_stack-empty ms l _ d' (rw (e, emit) at h)
  ]
