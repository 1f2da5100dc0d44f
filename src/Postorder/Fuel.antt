-- ===== src/Postorder/Fuel.antt =====
-- The walk ends, since each round does one action of those that are left to do.
use regalloc.Prelude.{
  ℕ, zero, suc, ◌+◌, ◌<◌, ◌≡◌, ◌≢◌, ◌↔◌, inl, inr, refl, sym, ap, ◌∙◌, subst, some, List, [], ◌∷◌,
  ◌++◌, Bool, true, false, length, get_elem?, set, replicate, All, In, length-set, get_of_lt,
  lt_of_get, get_elem?-set_self, get_elem?-set_ne, List-cases, Bool-cases, ℕ_discrete, arith,
}
use regalloc.Index
use regalloc.Index.{Block}
use regalloc.Postorder.{State, Walk, push, action, walk, calculate}
use regalloc.Postorder.Reached.{
  Reach, start, StateOk, IsWalk, Answer, pop-IsWalk, skip-IsWalk, push-IsWalk, ended,
}

-- What there is left to do: an action for each block and successor that is on the stack or will be.
abbrev pub stack_work : List State → ℕ
stack_work [] = 0
stack_work (s ∷ ss) = suc (length s.succs) + stack_work ss

module _ (succ_blocks : Block → List Block) where
  -- The work of the blocks from one on that are not visited.
  abbrev pub work_from : ℕ → List Bool → ℕ
  work_from i [] = 0
  work_from i (true ∷ vs) = work_from (suc i) vs
  work_from i (false ∷ vs) = suc (length (succ_blocks (record { raw = i }))) + work_from (suc i) vs

  work_from-set :
      (i j : ℕ) (vs : List Bool)
      → get_elem? vs j ≡ some false
      → work_from i vs
        ≡ suc (length (succ_blocks (record { raw = i + j }))) + work_from i (set vs j true)
  work_from-set i j [] h = cc h
  work_from-set i zero (true ∷ vs) h = cc h
  work_from-set i zero (false ∷ vs) h =
      ap (λ (z : ℕ). suc (length (succ_blocks (record { raw = z }))) + work_from (suc i) vs)
        (omega arith)
  work_from-set i (suc j) (true ∷ vs) h =
      work_from-set (suc i) j vs h
      ∙ ap
          (λ (z : ℕ).
            suc (length (succ_blocks (record { raw = z }))) + work_from (suc i) (set vs j true))
          (omega arith)
  work_from-set i (suc j) (false ∷ vs) h =
      let shifted : suc i + j ≡ i + suc j = omega arith in
      omega (
        arith,
        work_from-set (suc i) j vs h,
        ap (λ (z : ℕ). length (succ_blocks (record { raw = z }))) shifted,
      )

  visit-work :
      (b : Block) (vs : List Bool)
      → get_elem? vs b.raw ≡ some false
      → work_from 0 vs ≡ suc (length (succ_blocks b)) + work_from 0 (set vs b.raw true)
  visit-work b vs h =
      let same : 0 + b.raw ≡ b.raw = omega arith in
      work_from-set 0 b.raw vs h
      ∙ ap
          (λ (z : ℕ).
            suc (length (succ_blocks (record { raw = z }))) + work_from 0 (set vs b.raw true))
          same

  get_elem?-replicate : (n i : ℕ) → i < n → get_elem? (replicate n false) i ≡ some false
  get_elem?-replicate zero i h = absurd (omega (arith, h))
  get_elem?-replicate (suc n) zero h = refl
  get_elem?-replicate (suc n) (suc i) h = get_elem?-replicate n i (omega (arith, h))

  length-replicate : (n : ℕ) → length (replicate n false) ≡ n
  length-replicate zero = refl
  length-replicate (suc n) = ap suc (length-replicate n)

  none_seen : (n i : ℕ) → get_elem? (replicate n false) i ≢ some true
  none_seen zero i h = cc h
  none_seen (suc n) zero h = cc h
  none_seen (suc n) (suc i) h = none_seen n i h

  module _ (num_blocks : ℕ) (entry : Block)
      (closed : (b c : Block)
        → Reach succ_blocks entry b
        → In c (succ_blocks b)
        → c.raw < num_blocks) where
    walk-Answer :
        (fuel : ℕ) (w : Walk)
        → IsWalk succ_blocks num_blocks entry closed w
        → stack_work w.stack + work_from 0 w.visited < fuel
        → Answer succ_blocks num_blocks entry closed (walk succ_blocks fuel w)
    unfolding walk action push
    walk-Answer zero w h lt = absurd (omega (arith, lt))
    walk-Answer (suc fuel) w h lt = elim (List-cases w.stack) [
      | inl q ↦
          let (ret, run, ok) = ended succ_blocks num_blocks entry closed w h q in
          (ret, rw q run, ok)
      | inr (s, below, q) ↦ elim (List-cases s.succs) [
        | inl e ↦
            let (ret, run, ok) =
              walk-Answer fuel (record w { stack = below; ret = w.ret ++ s.block ∷ [] })
                (pop-IsWalk succ_blocks num_blocks entry closed w s below h q e)
                (omega (arith, lt, ap stack_work q)) in
            (ret, rw (q, e) run, ok)
        | inr (succ, later, e) ↦
            let (b, seen) = get_of_lt w.visited succ.raw (in_range s below succ later q e) in
            elim (Bool-cases b) [
              | inl y ↦
                  let (ret, run, ok) =
                    walk-Answer fuel (record w { stack = record s { succs = later } ∷ below })
                      (skip-IsWalk succ_blocks num_blocks entry closed w s below succ later h q e
                        (seen ∙ ap some y))
                      (omega (arith, lt, ap stack_work q, ap length e)) in
                  (ret, rw (q, e, seen, y) run, ok)
              | inr n ↦
                  let fresh = seen ∙ ap some n in
                  let (ret, run, ok) =
                    walk-Answer fuel
                      (push succ_blocks succ
                        (record w { stack = record s { succs = later } ∷ below }))
                      (push-IsWalk succ_blocks num_blocks entry closed w s below succ later h q e
                        fresh)
                      (omega (
                        arith,
                        lt,
                        ap stack_work q,
                        ap length e,
                        visit-work succ w.visited fresh,
                      )) in
                  (ret, rw (q, e, seen, n) run, ok)
            ]
      ]
    ]
      where
        in_range :
            (s : State) (below : List State) (succ : Block) (later : List Block)
            → w.stack ≡ s ∷ below
            → s.succs ≡ succ ∷ later
            → succ.raw < length w.visited
        in_range s below succ later q e =
            let (ok, rest) = subst (All (StateOk succ_blocks w)) q h.on_stack in
            let (seen, others, subset) = ok in
            let lt =
              closed s.block succ (h.reached s.block seen)
                (subset succ (subst (In succ) (sym e) (inl refl))) in
            omega (arith, lt, h.as_many)

    -- Where all reachable blocks are in range, the walk from the entry returns exactly the blocks that
    -- can be reached from it, with fuel for one action more than there are blocks and successors.
    pub calculate-Reach :
        (fuel : ℕ)
        → entry.raw < num_blocks
        → work_from 0 (replicate num_blocks false) < fuel
        → (ret : List Block) × (calculate succ_blocks fuel num_blocks entry ≡ some ret)
          × ((b : Block) → In b ret ↔ Reach succ_blocks entry b)
    unfolding calculate push
    calculate-Reach fuel lt enough =
        let fresh = get_elem?-replicate num_blocks entry.raw lt in
        let visited = set (replicate num_blocks false) entry.raw true in
        let first : Walk = record {
          visited = visited;
          stack = record { block = entry; succs = succ_blocks entry } ∷ [];
          ret = [];
        } in
        let seen =
          get_elem?-set_self (replicate num_blocks false) entry.raw true
            (lt_of_get (replicate num_blocks false) entry.raw false fresh) in
        let (ret, run, ok) =
          walk-Answer fuel first
            (record {
              as_many =
                  length-set (replicate num_blocks false) entry.raw true
                  ∙ length-replicate num_blocks;
              entry_seen = seen;
              reached = λ b y. start b (only_entry b y);
              on_stack = ((seen, (λ b m. inr m), λ b m. m), tt);
              returned = tt;
              accounted = λ b y. inr (inl (only_entry b y));
            })
            (omega (arith, enough, visit-work entry (replicate num_blocks false) fresh)) in
        (ret, rw fresh run, ok)
      where
        only_entry :
            (b : Block)
            → get_elem? (set (replicate num_blocks false) entry.raw true) b.raw ≡ some true
            → b ≡ entry
        only_entry b y = elim (ℕ_discrete entry.raw b.raw) [
          | yes r ↦ sym (Index.index_ext r)
          | no ne ↦ absurd (
              none_seen num_blocks b.raw
                (sym (get_elem?-set_ne (replicate num_blocks false) entry.raw b.raw true ne) ∙ y))
        ]
