-- ===== src/Moves/Effect.antt =====
-- What a result of `resolve` must do, and the lists of moves that do it as they stand.
use mathlib.Core.Logic.{⊎_elim}
use regalloc.Prelude.{
  ℕ, zero, suc, ◌≡◌, ◌≢◌, inl, inr, refl, sym, ap, ◌∙◌, subst, List, [], ◌∷◌, false, arith,
  Option-cases,
}
use regalloc.Allocation.{Allocation}
use regalloc.Moves.{Move, find_dst, any_src_in, sources_overlap_dests}
use regalloc.Moves.Store.{Store, write, write_self, write_ne, exec}
use regalloc.Moves.Emitted.{OneWriter}
use regalloc.Moves.Prepare.{MemIn, MemIn-At}
use regalloc.Moves.Visit.{find_dst-none}

-- The list `out`, run in sequence, does what `ms` does in parallel, and changes no other place of
-- those in `Guarded`.
pub record Parallel {T : Type 0} (V : Type 0) (Guarded : Allocation → Type 0)
    (ms out : List (Move T)) : Type 0 where
  pub moved : (s : Store V) (m : Move T) → MemIn m ms → exec out s m.dst ≡ s m.src
  pub kept :
      (s : Store V) (x : Allocation)
      → Guarded x
      → ((m : Move T) → MemIn m ms → m.dst ≢ x)
      → exec out s x ≡ s x

module _ {T : Type 0} where
  -- No move reads what a move writes.
  abbrev pub Apart : List (Move T) → Type 0
  Apart xs = (m n : Move T) → MemIn m xs → MemIn n xs → m.src ≢ n.dst

  tail-OneWriter : (x : Move T) (xs : List (Move T)) → OneWriter (x ∷ xs) → OneWriter xs
  tail-OneWriter x xs one i j m n at at' e = suc_inj (one (suc i) (suc j) m n at at' e)
    where
      suc_inj : {i j : ℕ} → suc i ≡ suc j → i ≡ j
      suc_inj e = omega (arith, e)

  any_src-Apart :
      (all xs : List (Move T))
      → any_src_in all xs ≡ false
      → (m n : Move T) → MemIn m xs
      → MemIn n all
      → m.src ≢ n.dst
  unfolding any_src_in
  any_src-Apart all [] h m n k l = absurd k
  any_src-Apart all (x ∷ xs) h m n (inl e) l =
      let (j, at) = MemIn-At all n l in
      elim (Option-cases (find_dst all x.src)) [
        | inl z ↦
            λ eq. find_dst-none all x.src z j n at (sym (ap (λ (y : Move T). y.src) (sym e) ∙ eq))
        | inr (i, z) ↦ cc (rw z at h)
      ]
  any_src-Apart all (x ∷ xs) h m n (inr k) l = any_src-Apart all xs (ground (arith, h)) m n k l

module _ {T : Type 0} {V : Type 0} where
  pub exec-kept :
      (xs : List (Move T)) (s : Store V) (x : Allocation)
      → ((m : Move T) → MemIn m xs → m.dst ≢ x)
      → exec xs s x ≡ s x
  unfolding exec
  exec-kept [] s x free = refl
  exec-kept (m ∷ xs) s x free =
      exec-kept xs (write s m.dst (s m.src)) x (λ n k. free n (inr k))
      ∙ write_ne s m.dst x (s m.src) (free m (inl refl))

  exec-moved :
      (xs : List (Move T)) (s : Store V) (m : Move T)
      → OneWriter xs
      → Apart xs
      → MemIn m xs
      → exec xs s m.dst ≡ s m.src
  unfolding exec
  exec-moved [] s m one apart h = absurd h
  exec-moved (x ∷ xs) s m one apart (inl e) =
      subst (λ (y : Move T). exec (x ∷ xs) s y.dst ≡ s y.src) (sym e)
        (exec-kept xs (write s x.dst (s x.src)) x.dst other ∙ write_self s x.dst (s x.src))
    where
      other : (n : Move T) → MemIn n xs → n.dst ≢ x.dst
      other n k eq =
          let (j, at) = MemIn-At xs n k in
          let z = one zero (suc j) x n refl at (sym eq) in absurd (omega (arith, z))
  exec-moved (x ∷ xs) s m one apart (inr h) =
      exec-moved xs (write s x.dst (s x.src)) m (tail-OneWriter x xs one)
        (λ a b k l. apart a b (inr k) (inr l)) h
      ∙ write_ne s x.dst m.src (s x.src) (λ e. apart m x (inr h) (inl refl) (sym e))

  -- Where no source is a destination, the moves may run as they are.
  pub apart-Parallel :
      (ms : List (Move T))
      → OneWriter ms
      → sources_overlap_dests ms ≡ false
      → Parallel V (λ x. Unit {0}) ms ms
  unfolding sources_overlap_dests
  apart-Parallel ms one h = record {
    moved = λ s m k. exec-moved ms s m one (any_src-Apart ms ms h) k;
    kept = λ s x g free. exec-kept ms s x free;
  }

  -- A list of at most one move may run as it is.
  pub one-Parallel : (m : Move T) → Parallel V (λ x. Unit {0}) (m ∷ []) (m ∷ [])
  unfolding exec
  one-Parallel m = record {
    moved = λ s n k.
        ⊎_elim
          (λ (e : n ≡ m).
            subst (λ (y : Move T). exec (m ∷ []) s y.dst ≡ s y.src) (sym e)
              (write_self s m.dst (s m.src)))
          (λ (z : ⊥). absurd z) k;
    kept = λ s x g free. exec-kept (m ∷ []) s x free;
  }
