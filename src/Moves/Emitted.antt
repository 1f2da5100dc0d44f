-- ===== src/Moves/Emitted.antt =====
-- The invariant of the search: the moves emitted so far, run in sequence, do what the moves that
-- are done do in parallel.
use regalloc.Prelude.{
  ℕ, ◌<◌, ◌≡◌, ◌≢◌, ◌⊎◌, inl, inr, sym, ap, ◌∙◌, subst, List, ◌∷◌, some, length, get_elem?, set,
  get_elem?-set_self, get_elem?-set_ne, ℕ_discrete,
}
use regalloc.Allocation.{Allocation, no_alloc}
use regalloc.Moves.{Move, Phase, done}
use regalloc.Moves.Store.{Store, write, write_self, write_ne, exec}

module _ {T : Type 0} where
  -- Move `i` of the list is `m`.
  abbrev pub At : List (Move T) → ℕ → Move T → Type 0
  At ms i m = get_elem? ms i ≡ some m

  -- No two moves write the same place.
  abbrev pub OneWriter : List (Move T) → Type 0
  OneWriter ms = (i j : ℕ) (m n : Move T) → At ms i m → At ms j n → m.dst ≡ n.dst → i ≡ j

  -- The scratch space is not written by a move of the problem.
  abbrev pub WritesReal : List (Move T) → Type 0
  WritesReal ms = (i : ℕ) (m : Move T) → At ms i m → m.dst ≢ no_alloc

abbrev pub IsDone : List Phase → ℕ → Type 0
IsDone st i = get_elem? st i ≡ some done

pub IsDone-set : (st : List Phase) (i j : ℕ) → IsDone (set st i done) j → (j ≡ i) ⊎ IsDone st j
IsDone-set st i j h = elim (ℕ_discrete i j) [
  | yes e ↦ inl (sym e)
  | no ne ↦ inr (sym (get_elem?-set_ne st i j done ne) ∙ h)
]

pub set-IsDone :
    (st : List Phase) (i j : ℕ) → i < length st → IsDone st j → IsDone (set st i done) j
set-IsDone st i j lt h = elim (ℕ_discrete i j) [
  | yes e ↦ subst (IsDone (set st i done)) e (get_elem?-set_self st i done lt)
  | no ne ↦ get_elem?-set_ne st i j done ne ∙ h
]

module _ {T : Type 0} (V : Type 0) where
  pub record Emitted (ms : List (Move T)) (st : List Phase) (ret : List (Move T)) : Type 0 where
    -- Every place that a done move writes holds what its source held at first.
    pub moved :
        (s : Store V) (i : ℕ) (m : Move T) → At ms i m → IsDone st i → exec ret s m.dst ≡ s m.src
    -- Every other place but the scratch space holds what it held at first.
    pub kept :
        (s : Store V) (x : Allocation)
        → x ≢ no_alloc
        → ((i : ℕ) (m : Move T) → At ms i m → IsDone st i → m.dst ≢ x)
        → exec ret s x ≡ s x
    -- A move that overwrites the source of a done move is done.
    pub closed :
        (i j : ℕ) (m n : Move T) → At ms i m → At ms j n → IsDone st i → m.src ≡ n.dst → IsDone st j

  -- Once whatever overwrites its source is done, a move may be put in front.
  module _ (ms : List (Move T)) (st : List Phase) (ret : List (Move T)) (i : ℕ) (m : Move T)
      (one : OneWriter ms) (real : WritesReal ms) (h : Emitted ms st ret) (at : At ms i m)
      (lt : i < length st) (fresh : ¬ IsDone st i)
      (ready : (j : ℕ) (n : Move T) → At ms j n → m.src ≡ n.dst → IsDone (set st i done) j) where
    same_move : (n : Move T) (j : ℕ) → At ms j n → j ≡ i → m ≡ n
    same_move n j at' e = cc (ap (get_elem? ms) e)

    -- A done move does not read what the new one writes.
    unread : (j : ℕ) (n : Move T) → At ms j n → IsDone st j → m.dst ≢ n.src
    unread j n at' d e = fresh (h.closed j i n m at' at d (sym e))

    -- What the new move writes stays until the end.
    first_moved : (s : Store V) → exec (m ∷ ret) s m.dst ≡ s m.src
    unfolding exec
    first_moved s =
        h.kept (write s m.dst (s m.src)) m.dst (real i m at)
          (λ k o at_k d e. fresh (subst (IsDone st) (one k i o m at_k at e) d))
        ∙ write_self s m.dst (s m.src)

    emit_moved :
        (s : Store V) (j : ℕ) (n : Move T)
        → At ms j n
        → IsDone (set st i done) j
        → exec (m ∷ ret) s n.dst ≡ s n.src
    unfolding exec
    emit_moved s j n at' d = elim (IsDone-set st i j d) [
      | inl e ↦ subst (λ o. exec (m ∷ ret) s o.dst ≡ s o.src) (same_move n j at' e) (first_moved s)
      | inr before ↦
          h.moved (write s m.dst (s m.src)) j n at' before
          ∙ write_ne s m.dst n.src (s m.src) (unread j n at' before)
    ]

    emit_kept :
        (s : Store V) (x : Allocation)
        → x ≢ no_alloc
        → ((j : ℕ) (n : Move T) → At ms j n → IsDone (set st i done) j → n.dst ≢ x)
        → exec (m ∷ ret) s x ≡ s x
    unfolding exec
    emit_kept s x real' free =
        h.kept (write s m.dst (s m.src)) x real'
          (λ j n at' d. free j n at' (set-IsDone st i j lt d))
        ∙ write_ne s m.dst x (s m.src) (free i m at (get_elem?-set_self st i done lt))

    emit_closed :
        (j k : ℕ) (n o : Move T)
        → At ms j n
        → At ms k o
        → IsDone (set st i done) j
        → n.src ≡ o.dst
        → IsDone (set st i done) k
    emit_closed j k n o at_j at_k d e = elim (IsDone-set st i j d) [
      | inl eq ↦ ready k o at_k (ap (λ (x : Move T). x.src) (same_move n j at_j eq) ∙ e)
      | inr before ↦ set-IsDone st i k lt (h.closed j k n o at_j at_k before e)
    ]

    pub Emitted-cons : Emitted ms (set st i done) (m ∷ ret)
    Emitted-cons = record { moved = emit_moved; kept = emit_kept; closed = emit_closed }
