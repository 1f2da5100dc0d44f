-- ===== src/Moves/Stack.antt =====
-- The stack of the search: each entry waits, and must come before the entry above it.
use mathlib.Core.Logic.{⊎_elim}
use regalloc.Prelude.{
  In, ℕ, zero, suc, ◌≤◌, ◌≡◌, ◌≢◌, ◌⊎◌, inl, inr, refl, ap, ◌∙◌, List, [], ◌∷◌, some, arith, length,
  get_elem?, set, get_elem?-set_ne, ℕ_discrete,
}
use regalloc.Moves.{Move, Phase, todo, pending, done}
use regalloc.Moves.Emitted.{At}

abbrev pub Fresh : ℕ → List ℕ → Type 0
Fresh i [] = Unit {0}
Fresh i (j ∷ l) = (i ≢ j) × Fresh i l

pub todos : List Phase → ℕ
todos [] = 0
todos (todo ∷ st) = suc (todos st)
todos (_ ∷ st) = todos st

pub todos-le : (st : List Phase) → todos st ≤ length st
unfolding todos
todos-le [] = omega arith
todos-le (todo ∷ st) = omega (arith, todos-le st)
todos-le (pending ∷ st) = omega (arith, todos-le st)
todos-le (done ∷ st) = omega (arith, todos-le st)

pub todos-set :
    (st : List Phase) (i : ℕ) → get_elem? st i ≡ some pending → todos (set st i done) ≡ todos st
unfolding todos
todos-set [] i h = refl
todos-set (todo ∷ st) zero h = cc
todos-set (pending ∷ st) zero h = refl
todos-set (done ∷ st) zero h = cc
todos-set (todo ∷ st) (suc i) h = ap suc (todos-set st i h)
todos-set (pending ∷ st) (suc i) h = todos-set st i h
todos-set (done ∷ st) (suc i) h = todos-set st i h

pub todos-set_pending :
    (st : List Phase) (i : ℕ)
    → get_elem? st i ≡ some todo
    → suc (todos (set st i pending)) ≡ todos st
unfolding todos
todos-set_pending [] i h = cc
todos-set_pending (todo ∷ st) zero h = refl
todos-set_pending (pending ∷ st) zero h = cc
todos-set_pending (done ∷ st) zero h = cc
todos-set_pending (todo ∷ st) (suc i) h = ap suc (todos-set_pending st i h)
todos-set_pending (pending ∷ st) (suc i) h = todos-set_pending st i h
todos-set_pending (done ∷ st) (suc i) h = todos-set_pending st i h

pub not-In : (i : ℕ) (l : List ℕ) → Fresh i l → ¬ In i l
not-In i [] f h = h
not-In i (j ∷ l) f (inl e) = f.0 e
not-In i (j ∷ l) f (inr h) = not-In i l f.1 h

pub In-cases : (i : ℕ) (l : List ℕ) → In i l ⊎ (¬ In i l)
In-cases i [] = inr (λ h. h)
In-cases i (j ∷ l) = elim (ℕ_discrete i j) [
  | yes e ↦ inl (inl e)
  | no ne ↦ elim (In-cases i l) [ inl h ↦ inl (inr h) | inr n ↦ inr (⊎_elim ne n) ]
]

pub Fresh-of_not-In : (i : ℕ) (l : List ℕ) → ¬ In i l → Fresh i l
Fresh-of_not-In i [] h = tt
Fresh-of_not-In i (j ∷ l) h = (λ e. h (inl e), Fresh-of_not-In i l (λ n. h (inr n)))

module _ {T : Type 0} where
  -- Move `j` reads what move `i` writes.
  abbrev pub Reads : List (Move T) → ℕ → ℕ → Type 0
  Reads ms j i = (n : Move T) → At ms j n → (m : Move T) × At ms i m × (n.src ≡ m.dst)

  abbrev pub Above : List (Move T) → ℕ → List ℕ → Type 0
  Above ms i [] = Unit {0}
  Above ms i (j ∷ l) = Reads ms j i

  abbrev pub Chain : List (Move T) → List Phase → List ℕ → Type 0
  Chain ms st [] = Unit {0}
  Chain ms st (i ∷ l) = (get_elem? st i ≡ some pending) × Fresh i l × Above ms i l × Chain ms st l

  -- A change of state elsewhere leaves the chain as it is.
  pub Chain-set :
      (ms : List (Move T)) (st : List Phase) (i : ℕ) (p : Phase) (l : List ℕ)
      → Fresh i l
      → Chain ms st l
      → Chain ms (set st i p) l
  Chain-set ms st i p [] f c = tt
  Chain-set ms st i p (j ∷ l) f c =
      (get_elem?-set_ne st i j p f.0 ∙ c.0, c.1, c.2, Chain-set ms st i p l f.1 c.3)
