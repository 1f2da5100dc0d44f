-- ===== src/Ion/RegTraversal/Loops.antt =====
-- What the iterator yields once its hints are done.
use regalloc.Prelude.{
  ℕ, ◌+◌, ◌-◌, ◌≡◌, inl, inr, refl, sym, ap, ◌∙◌, subst, Option, none, some, ◌>>=◌, List, [], ◌∷◌,
  ◌++◌, Bool, false, length, if◌then◌else◌, arith,
}
use regalloc.Reg.PReg.{PReg}
use regalloc.Ion.RegTraversal.{
  MachineEnv, RegTraversalIter, start_at, next_of, current_hint, next_non_preferred, next_preferred,
  next,
}
use regalloc.Ion.RegTraversal.Order.{rotate, without, IsRest, whole-IsRest, next_of-IsRest}

-- What an iterator yields until it ends.
abbrev pub Yields : MachineEnv → RegTraversalIter → List PReg → Type 0
Yields env it [] = (it' : RegTraversalIter) × (next env it ≡ some (none, it'))
Yields env it (x ∷ xs) =
    (it' : RegTraversalIter) × (next env it ≡ some (some x, it')) × Yields env it' xs

head_inj : (x y : PReg) (xs ys : List PReg) → (x ∷ xs) ≡ (y ∷ ys) → x ≡ y
head_inj x y xs ys e = cc e

tail_inj : (x y : PReg) (xs ys : List PReg) → (x ∷ xs) ≡ (y ∷ ys) → xs ≡ ys
tail_inj x y xs ys e = cc e

module _ (env : MachineEnv) where
  -- Iterators that step alike yield alike.
  same-Yields :
      (it it2 : RegTraversalIter) (xs : List PReg)
      → next env it ≡ next env it2
      → Yields env it2 xs
      → Yields env it xs
  same-Yields it it2 [] e (it', run) = (it', e ∙ run)
  same-Yields it it2 (x ∷ xs) e (it', run, rest) = (it', e ∙ run, rest)

  -- Where nothing is fixed and no hint is left, the loops come next.
  next-preferred :
      (it : RegTraversalIter)
      → it.is_fixed ≡ false
      → current_hint env it ≡ none
      → next env it ≡ next_preferred env it
  unfolding next
  next-preferred it unfixed no_hint =
      ap (λ b. by_tests b (current_hint env it)) unfixed ∙ ap (by_tests false) no_hint
    where
      by_tests : Bool → Option PReg → Option (Option PReg × RegTraversalIter)
      by_tests b h = if b then some (it.fixed, record it { fixed = none }) else elim h [
        | some h ↦ some (some h, record it { hint_idx = it.hint_idx + 1 })
        | none ↦ next_preferred env it
      ]

  preferred_done :
      (it : RegTraversalIter)
      → it.pref_idx ≡ length (env.preferred_regs_by_class it.class)
      → next_preferred env it ≡ next_non_preferred env it
  unfolding next_preferred next_of
  preferred_done it done =
      let none_left : length (env.preferred_regs_by_class it.class) - it.pref_idx ≡ 0 =
        omega (arith, done) in
      ap
        (λ (n : ℕ).
          next_of n (env.preferred_regs_by_class it.class) it.offset_pref it.pref_idx it.hint
            it.hint2
          >>= λ r. elim r.0 [
            | none ↦ next_non_preferred env (record it { pref_idx = r.1 })
            | some preg ↦ some (some preg, record it { pref_idx = r.1 })
          ])
        none_left

  continue : RegTraversalIter → Option (Option PReg × ℕ) → Option (Option PReg × RegTraversalIter)
  continue it o = o >>= λ r. elim r.0 [
    | none ↦ next_non_preferred env (record it { pref_idx = r.1 })
    | some preg ↦ some (some preg, record it { pref_idx = r.1 })
  ]

  whole_from :
      (idx k offset : ℕ) (regs : List PReg)
      → idx ≡ 0
      → k ≡ start_at offset regs
      → IsRest k regs idx (rotate k regs)
  whole_from idx k offset regs e off =
      subst (λ z. IsRest k regs z (rotate k regs)) (sym e)
        (subst (λ z. IsRest z regs 0 (rotate z regs)) (sym off) (whole-IsRest offset regs))

  non_preferred-Yields :
      (ks : List PReg) (it : RegTraversalIter) (ys : List PReg)
      → without it.hint it.hint2 ys ≡ ks
      → it.is_fixed ≡ false
      → current_hint env it ≡ none
      → it.pref_idx ≡ length (env.preferred_regs_by_class it.class)
      → IsRest it.offset_non_pref (env.non_preferred_regs_by_class it.class) it.non_pref_idx ys
      → Yields env it ks
  unfolding next_non_preferred
  non_preferred-Yields [] it ys e unfixed no_hint done rest =
      let regs = env.non_preferred_regs_by_class it.class in
      elim (next_of-IsRest it.offset_non_pref regs it.hint it.hint2 ys it.non_pref_idx
        (length regs - it.non_pref_idx) (omega (arith, rest.0)) rest) [
          | inl (kept, run) ↦ (
            record it { non_pref_idx = length regs },
            next-preferred it unfixed no_hint
                ∙ preferred_done it done
                ∙ ap (λ o. o >>= λ r. some (r.0, record it { non_pref_idx = r.1 })) run,
          )
          | inr (y, zs, idx', kept, run, rest') ↦ cc (e, kept)
        ]
  non_preferred-Yields (k ∷ ks) it ys e unfixed no_hint done rest =
      let regs = env.non_preferred_regs_by_class it.class in
      elim (next_of-IsRest it.offset_non_pref regs it.hint it.hint2 ys it.non_pref_idx
        (length regs - it.non_pref_idx) (omega (arith, rest.0)) rest) [
          | inl (kept, run) ↦ cc (e, kept)
          | inr (y, zs, idx', kept, run, rest') ↦
              let same = sym e ∙ kept in
              (
                record it { non_pref_idx = idx' },
                next-preferred it unfixed no_hint
                    ∙ preferred_done it done
                    ∙ ap (λ o. o >>= λ r. some (r.0, record it { non_pref_idx = r.1 })) run
                    ∙ ap (λ (z : PReg). some (some z, record it { non_pref_idx = idx' }))
                        (sym (head_inj k y ks (without it.hint it.hint2 zs) same)),
                non_preferred-Yields ks (record it { non_pref_idx = idx' }) zs
                    (sym (tail_inj k y ks (without it.hint it.hint2 zs) same)) unfixed no_hint done
                    rest',
              )
        ]

  -- The other registers, once the preferred ones are done.
  abbrev pub others : RegTraversalIter → List PReg
  others it =
      let regs = env.non_preferred_regs_by_class it.class in
      without it.hint it.hint2 (rotate it.offset_non_pref regs)

  pub preferred-Yields :
      (ks : List PReg) (it : RegTraversalIter) (ys : List PReg) (offset : ℕ)
      → without it.hint it.hint2 ys ≡ ks
      → it.is_fixed ≡ false
      → current_hint env it ≡ none
      → it.non_pref_idx ≡ 0
      → it.offset_non_pref ≡ start_at offset (env.non_preferred_regs_by_class it.class)
      → IsRest it.offset_pref (env.preferred_regs_by_class it.class) it.pref_idx ys
      → Yields env it (ks ++ others it)
  unfolding next_preferred continue
  preferred-Yields [] it ys offset e unfixed no_hint zero_ off rest =
      let regs = env.preferred_regs_by_class it.class in
      let it2 = record it { pref_idx = length regs } in
      elim (next_of-IsRest it.offset_pref regs it.hint it.hint2 ys it.pref_idx
        (length regs - it.pref_idx) (omega (arith, rest.0)) rest) [
          | inl (kept, run) ↦
              same-Yields it it2 (others it)
                (next-preferred it unfixed no_hint
                  ∙ ap (continue it) run
                  ∙ sym (next-preferred it2 unfixed no_hint ∙ preferred_done it2 refl))
                (non_preferred-Yields (others it) it2
                  (rotate it.offset_non_pref (env.non_preferred_regs_by_class it.class)) refl
                  unfixed no_hint refl
                  (whole_from it.non_pref_idx it.offset_non_pref offset
                    (env.non_preferred_regs_by_class it.class) zero_ off))
          | inr (y, zs, idx', kept, run, rest') ↦ cc (e, kept)
        ]
  preferred-Yields (k ∷ ks) it ys offset e unfixed no_hint zero_ off rest =
      let regs = env.preferred_regs_by_class it.class in
      elim (next_of-IsRest it.offset_pref regs it.hint it.hint2 ys it.pref_idx
        (length regs - it.pref_idx) (omega (arith, rest.0)) rest) [
          | inl (kept, run) ↦ cc (e, kept)
          | inr (y, zs, idx', kept, run, rest') ↦
              let same = sym e ∙ kept in
              (
                record it { pref_idx = idx' },
                next-preferred it unfixed no_hint
                    ∙ ap (continue it) run
                    ∙ ap (λ (z : PReg). some (some z, record it { pref_idx = idx' }))
                        (sym (head_inj k y ks (without it.hint it.hint2 zs) same)),
                preferred-Yields ks (record it { pref_idx = idx' }) zs offset
                    (sym (tail_inj k y ks (without it.hint it.hint2 zs) same)) unfixed no_hint zero_
                    off rest',
              )
        ]
