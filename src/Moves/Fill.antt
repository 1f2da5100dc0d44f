-- ===== src/Moves/Fill.antt =====
-- Filling in the scratch space: the filled moves do with the spare place what the moves did with
-- the empty one.
use regalloc.Prelude.{
  ◌≡◌, ◌≢◌, ◌⊎◌, inl, inr, refl, sym, ap, ◌∙◌, subst, some, List, [], ◌∷◌, All, map, Bool, true,
  false, ◌&&◌, if◌then◌else◌,
}
use regalloc.Allocation.{Allocation, alloc_eq, no_alloc, is_none, kind}
use regalloc.Moves.{Move, fill, fill_move, fill_moves, asserted, all_asserted}
use regalloc.Moves.Until.{IsReal}
use regalloc.Moves.Store.{Store, write, write_self, write_ne, exec, alloc_cases}

-- The scratch space filled in, where the kinds of all places can be read.
unfoldable pub filled : Allocation → Allocation → Allocation
filled s a = if alloc_eq a no_alloc then s else a

abbrev pub filled_move : {T : Type 0} → Allocation → Move T → Move T
filled_move s m = record m { src = filled s m.src; dst = filled s m.dst }

-- A place whose kind can be read and is not "none".
abbrev pub IsFull : Allocation → Type 0
IsFull a = is_none a ≡ some false

abbrev pub BothFull : {T : Type 0} → Move T → Type 0
BothFull m = IsFull m.src × IsFull m.dst

none_empty : is_none no_alloc ≡ some true
unfolding is_none no_alloc kind
none_empty = refl

pub full_real : (a : Allocation) → IsFull a → a ≢ no_alloc
full_real a h e = cc (subst (λ x. is_none x ≡ some false) e h, none_empty)

and_false : (b : Bool) → (b && false) ≡ false
and_false true = refl
and_false false = refl

module _ (spare : Allocation) where
  -- A place of the search: the scratch space or a place that can be read, and not the spare one.
  abbrev pub Place : Allocation → Type 0
  Place a = (a ≢ spare) × ((a ≡ no_alloc) ⊎ IsFull a)

  pub filled-real : (a : Allocation) → a ≢ no_alloc → filled spare a ≡ a
  unfolding filled
  filled-real a ne = elim (alloc_cases a no_alloc) [
    | inl (e, t) ↦ absurd (ne e)
    | inr (n, t) ↦ rw t refl
  ]

  filled-empty : (a : Allocation) → a ≡ no_alloc → filled spare a ≡ spare
  unfolding filled
  filled-empty a e = elim (alloc_cases a no_alloc) [
    | inl (e', t) ↦ rw t refl
    | inr (n, t) ↦ absurd (n e)
  ]

  filled-inj : (a b : Allocation) → a ≢ spare → b ≢ spare → filled spare a ≡ filled spare b → a ≡ b
  filled-inj a b na nb e = elim (alloc_cases a no_alloc) [
    | inl (ea, t) ↦ elim (alloc_cases b no_alloc) [
      | inl (eb, t') ↦ ea ∙ sym eb
      | inr (n, t') ↦ absurd (nb (sym (sym (filled-empty a ea) ∙ e ∙ filled-real b n)))
    ]
    | inr (n, t) ↦ elim (alloc_cases b no_alloc) [
      | inl (eb, t') ↦ absurd (na (sym (filled-real a n) ∙ e ∙ filled-empty b eb))
      | inr (n', t') ↦ sym (filled-real a n) ∙ e ∙ filled-real b n'
    ]
  ]

  filled-IsFull : IsFull spare → (a : Allocation) → Place a → IsFull (filled spare a)
  filled-IsFull full a (ne, inl e) = subst IsFull (sym (filled-empty a e)) full
  filled-IsFull full a (ne, inr h) = subst IsFull (sym (filled-real a (full_real a h))) h

  -- On such places the code's test is the comparison with the empty place.
  is_none_lem : (a : Allocation) → Place a → is_none a ≡ some (alloc_eq a no_alloc)
  is_none_lem a (ne, inl e) = elim (alloc_cases a no_alloc) [
    | inl (e', t) ↦ subst (λ x. is_none x ≡ some true) (sym e) none_empty ∙ ap some (sym t)
    | inr (n, t) ↦ absurd (n e)
  ]
  is_none_lem a (ne, inr h) = elim (alloc_cases a no_alloc) [
    | inl (e, t) ↦ absurd (full_real a h e)
    | inr (n, t) ↦ h ∙ ap some (sym t)
  ]

  fill_lem : (a : Allocation) → Place a → fill spare a ≡ some (filled spare a)
  unfolding fill filled
  fill_lem a h = rw (is_none_lem a h) refl

  apart_lem : (a : Allocation) → a ≢ spare → alloc_eq a spare ≡ false
  apart_lem a n = elim (alloc_cases a spare) [ inl (e, t) ↦ absurd (n e) | inr (_, t) ↦ t ]

  place-IsFull : (a : Allocation) → a ≢ no_alloc → Place a → IsFull a
  place-IsFull a real (ne, inl e) = absurd (real e)
  place-IsFull a real (ne, inr h) = h

  module _ {T : Type 0} where
    -- A move that the scratch space can be filled in.
    abbrev pub Fillable : Move T → Type 0
    Fillable m = Place m.src × Place m.dst × ((m.src ≢ no_alloc) ⊎ (m.dst ≢ no_alloc))

    pub fill_moves_lem :
        (l : List (Move T)) → All Fillable l → fill_moves spare l ≡ some (map (filled_move spare) l)
    unfolding fill_moves fill_move
    fill_moves_lem [] h = refl
    fill_moves_lem (m ∷ l) (h, hs) =
        rw (fill_lem m.src h.0, fill_lem m.dst h.1, fill_moves_lem l hs) refl

    pub filled_move-IsFull :
        (l : List (Move T))
        → IsFull spare
        → All Fillable l
        → All BothFull (map (filled_move spare) l)
    filled_move-IsFull [] full h = tt
    filled_move-IsFull (m ∷ l) full (h, hs) =
        ((filled-IsFull full m.src h.0, filled-IsFull full m.dst h.1), filled_move-IsFull l full hs)

    pub All-BothFull : (l : List (Move T)) → All IsReal l → All Fillable l → All BothFull l
    All-BothFull [] real h = tt
    All-BothFull (m ∷ l) (real, reals) (h, hs) =
        ((place-IsFull m.src real.0 h.0, place-IsFull m.dst real.1 h.1), All-BothFull l reals hs)

    pub places_apart :
        (l : List (Move T)) → All Fillable l → All (λ m. (m.src ≢ spare) × (m.dst ≢ spare)) l
    places_apart [] h = tt
    places_apart (m ∷ l) (h, hs) = ((h.0.0, h.1.0), places_apart l hs)

    not_both :
        (m : Move T)
        → (m.src ≢ no_alloc) ⊎ (m.dst ≢ no_alloc)
        → (alloc_eq m.src no_alloc && alloc_eq m.dst no_alloc) ≡ false
    not_both m (inl n) = elim (alloc_cases m.src no_alloc) [
      | inl (e, t) ↦ absurd (n e)
      | inr (_, t) ↦ rw t refl
    ]
    not_both m (inr n) = elim (alloc_cases m.dst no_alloc) [
      | inl (e, t) ↦ absurd (n e)
      | inr (_, t) ↦ rw t (and_false (alloc_eq m.src no_alloc))
    ]

    pub all_asserted_lem : (l : List (Move T)) → All Fillable l → all_asserted spare l ≡ some true
    unfolding all_asserted asserted
    all_asserted_lem [] h = refl
    all_asserted_lem (m ∷ l) (h, hs) =
        rw
          (
            is_none_lem m.src h.0,
            is_none_lem m.dst h.1,
            apart_lem m.src h.0.0,
            apart_lem m.dst h.1.0,
            not_both m h.2,
            all_asserted_lem l hs,
          )
          refl

  module _ {V : Type 0} where
    -- The store `t` holds in the filled places what `s` holds.
    abbrev pub Filled : Store V → Store V → Type 0
    Filled s t = (a : Allocation) → a ≢ spare → t (filled spare a) ≡ s a

    write-Filled :
        (s t : Store V) (a : Allocation) (v w : V)
        → a ≢ spare
        → v ≡ w
        → Filled s t
        → Filled (write s a v) (write t (filled spare a) w)
    write-Filled s t a v w na e h b nb = elim (alloc_cases a b) [
      | inl (same, _) ↦
          subst (λ x. write t (filled spare a) w (filled spare x) ≡ write s a v x) same
            (write_self t (filled spare a) w ∙ sym e ∙ sym (write_self s a v))
      | inr (ne, _) ↦
          write_ne t (filled spare a) (filled spare b) w (λ q. ne (filled-inj a b na nb q))
          ∙ h b nb
          ∙ sym (write_ne s a b v ne)
    ]

    pub exec-Filled :
        {T : Type 0} (l : List (Move T)) (s t : Store V)
        → All (λ m. (m.src ≢ spare) × (m.dst ≢ spare)) l
        → Filled s t
        → Filled (exec l s) (exec (map (filled_move spare) l) t)
    unfolding exec
    exec-Filled [] s t p h = h
    exec-Filled (m ∷ l) s t p h =
        exec-Filled l (write s m.dst (s m.src))
          (write t (filled spare m.dst) (t (filled spare m.src))) p.1
          (write-Filled s t m.dst (s m.src) (t (filled spare m.src)) p.0.1 (sym (h m.src p.0.0)) h)
