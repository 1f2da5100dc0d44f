-- ===== src/Moves/Store.antt =====
-- What a list of moves does to the values of the allocations, one move after the other.
use regalloc.Prelude.{
  ◌≡◌, ◌≢◌, ◌⊎◌, inl, inr, ap, List, [], ◌∷◌, true, false, if◌then◌else◌, arith, Bool-cases,
  ==_refl, ==_ne, ==_iff,
}
use regalloc.Allocation.{Allocation, alloc_eq}
use regalloc.Moves.{Move}

pub alloc_ext : {a b : Allocation} → a.bits ≡ b.bits → a ≡ b
alloc_ext e = λ i. record { bits = e i }

pub alloc_eq_iff : (a b : Allocation) → alloc_eq a b ≡ true → a ≡ b
alloc_eq_iff a b h = alloc_ext ((==_iff a.bits b.bits).0 h)

pub alloc_cases :
    (a b : Allocation) → ((a ≡ b) × (alloc_eq a b ≡ true)) ⊎ ((a ≢ b) × (alloc_eq a b ≡ false))
alloc_cases a b = elim (Bool-cases (alloc_eq a b)) [
  | inl e ↦ inl (alloc_eq_iff a b e, e)
  | inr n ↦ inr (λ (e : a ≡ b). ground (arith, ap (λ (x : Allocation). x.bits) e), n)
]

-- The values held by the allocations.
abbrev pub Store : Type 0 → Type 0
Store V = Allocation → V

module _ {V : Type 0} where
  unfoldable pub write : Store V → Allocation → V → Store V
  write s a v b = if alloc_eq a b then v else s b

  pub write_self : (s : Store V) (a : Allocation) (v : V) → write s a v a ≡ v
  unfolding write
  write_self s a v = rw (==_refl a.bits)

  pub write_ne : (s : Store V) (a b : Allocation) (v : V) → a ≢ b → write s a v b ≡ s b
  unfolding write
  write_ne s a b v h = rw (==_ne a.bits b.bits (λ e. h (alloc_ext e)))

  module _ {T : Type 0} where
    unfoldable pub exec : List (Move T) → Store V → Store V
    exec [] s = s
    exec (m ∷ ms) s = exec ms (write s m.dst (s m.src))
