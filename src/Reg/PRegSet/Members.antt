-- ===== src/Reg/PRegSet/Members.antt =====
-- Which registers are in a set.
use regalloc.Prelude.{
  ℕ, zero, suc, ◌/◌, ◌%◌, ◌^◌, ◌<◌, bit_and, bit_or, ◌≡◌, ◌≢◌, refl, sym, ap, ◌∙◌, subst, some,
  ◌>>=◌, List, [], ◌∷◌, Bool, true, false, ◌==◌, if◌then◌else◌, arith, length, get_elem?, set,
  length-set, get_elem?-set_self, get_elem?-set_ne, ℕ_discrete, ==_iff, ==_ne,
}
use regalloc.Prelude.Bits.{bit_not, bit_at, bit_and-low_mask, bit_or-lt, bit_and-le}
use regalloc.Prelude.Masks.{
  pow_lt, one_shifted, masked_bit, added, removed, kept_by_add, kept_by_remove,
}
use regalloc.Reg.PReg
use regalloc.Reg.PReg.{PReg, preg_eq}
use regalloc.Reg.PRegSet.{PRegSet, split_index, contains, add, remove}

module _ (p : PReg) where
  abbrev pub word_of : ℕ
  word_of = p.bits / 64

  abbrev pub bit_of : ℕ
  bit_of = p.bits % 64

  low : bit_and p.bits 63 ≡ p.bits % 64
  low = bit_and-low_mask 6 p.bits

  pub contains_at :
      (s : PRegSet) (w : ℕ)
      → get_elem? s.bits word_of ≡ some w
      → contains s p ≡ some (bit_at w bit_of == 1)
  unfolding contains split_index PReg.index
  contains_at s w e =
      rw (low, e)
        (rw (one_shifted (p.bits % 64) (omega arith)) (ap some (masked_bit w (p.bits % 64))))

  add_at :
      (s : PRegSet) (w : ℕ)
      → get_elem? s.bits word_of ≡ some w
      → add s p ≡ some (record { bits = set s.bits word_of (bit_or w (2 ^ bit_of)) })
  unfolding add split_index PReg.index
  add_at s w e = rw (low, e) (rw (one_shifted (p.bits % 64) (omega arith)) refl)

  remove_at :
      (s : PRegSet) (w : ℕ)
      → get_elem? s.bits word_of ≡ some w
      → remove s p
        ≡ some (record { bits = set s.bits word_of (bit_and w (bit_not 64 (2 ^ bit_of))) })
  unfolding remove split_index PReg.index
  remove_at s w e = rw (low, e) (rw (one_shifted (p.bits % 64) (omega arith)) refl)

-- Two bytes are one if their words and their bits are.
same_preg : (p q : PReg) → word_of p ≡ word_of q → bit_of p ≡ bit_of q → p ≡ q
same_preg p q e f = PReg.preg_ext (omega (arith, e, f))

pub record IsPRegSet (s : PRegSet) : Type 0 where
  pub four : length s.bits ≡ 4
  pub words : (i w : ℕ) → get_elem? s.bits i ≡ some w → w < 2 ^ 64

pub word_at {ℓ} :
    {A : Type ℓ} (xs : List A) (i : ℕ) → i < length xs → (a : A) × (get_elem? xs i ≡ some a)
word_at [] i h = absurd (omega arith)
word_at (x ∷ xs) zero h = (x, refl)
word_at (x ∷ xs) (suc i) h = word_at xs i (omega arith)

module _ (s : PRegSet) (h : IsPRegSet s) (p q : PReg) (lt : p.bits < 256) (lt' : q.bits < 256) where
  -- Membership of `q` once the word of `p` is `v`, `b` being the bit that `p` is given.
  changed :
      (v w : ℕ) (f : Bool → Bool)
      → get_elem? s.bits (word_of p) ≡ some w
      → ((bit_at v (bit_of p) == 1) ≡ f (bit_at w (bit_of p) == 1))
      → ((k : ℕ) → k < 64 → bit_of p ≢ k → bit_at v k ≡ bit_at w k)
      → contains (record { bits = set s.bits (word_of p) v }) q
        ≡ (contains s q >>= λ b. some (if preg_eq p q then f b else b))
  changed v w f at here there = elim (ℕ_discrete p.bits q.bits) [
    | yes e ↦
        rw
          (
            (==_iff p.bits q.bits).1 e,
            contains_at q s w (subst (λ n. get_elem? s.bits (n / 64) ≡ some w) e at),
            contains_at q (record { bits = set s.bits (word_of p) v }) v
                (subst (λ n. get_elem? (set s.bits (word_of p) v) (n / 64) ≡ some v) e
                  (get_elem?-set_self s.bits (word_of p) v (omega (arith, h.four)))),
          )
          (ap some (subst (λ n. (bit_at v (n % 64) == 1) ≡ f (bit_at w (n % 64) == 1)) e here))
    | no ne ↦ elim (ℕ_discrete (word_of p) (word_of q)) [
      | yes e ↦
          rw
            (
              ==_ne p.bits q.bits ne,
              contains_at q s w (subst (λ n. get_elem? s.bits n ≡ some w) e at),
              contains_at q (record { bits = set s.bits (word_of p) v }) v
                  (subst (λ n. get_elem? (set s.bits (word_of p) v) n ≡ some v) e
                    (get_elem?-set_self s.bits (word_of p) v (omega (arith, h.four)))),
            )
            (ap (λ n. some (n == 1))
              (there (bit_of q) (omega arith) (λ f. ne (omega (arith, e, f)))))
      | no nw ↦
          let (u, at') = word_at s.bits (word_of q) (omega (arith, h.four)) in
          rw
            (
              ==_ne p.bits q.bits ne,
              contains_at q s u at',
              contains_at q (record { bits = set s.bits (word_of p) v }) u
                  (get_elem?-set_ne s.bits (word_of p) (word_of q) v nw ∙ at'),
            )
            refl
    ]
  ]

  set-IsPRegSet : (i v : ℕ) → v < 2 ^ 64 → IsPRegSet (record { bits = set s.bits i v })
  set-IsPRegSet i v small = record {
    four = length-set s.bits i v ∙ h.four;
    words = λ j w e. elim (ℕ_discrete i j) [
      | yes same ↦ set_value s.bits i j v w small same e (h.words j)
      | no ne ↦ h.words j w (sym (get_elem?-set_ne s.bits i j v ne) ∙ e)
    ];
  }
    where
      set_value :
          (xs : List ℕ) (i j v w : ℕ)
          → v < 2 ^ 64
          → i ≡ j
          → get_elem? (set xs i v) j ≡ some w
          → ((u : ℕ) → get_elem? xs j ≡ some u → u < 2 ^ 64)
          → w < 2 ^ 64
      set_value [] i j v w lt e k f = f w k
      set_value (x ∷ xs) zero zero v w lt e k f = subst (λ z. z < 2 ^ 64) (cc k) lt
      set_value (x ∷ xs) zero (suc j) v w lt e k f = absurd (omega (arith, e))
      set_value (x ∷ xs) (suc i) zero v w lt e k f = absurd (omega (arith, e))
      set_value (x ∷ xs) (suc i) (suc j) v w lt e k f =
          set_value xs i j v w lt (omega (arith, e)) k f

  spot-lt : 2 ^ bit_of p < 2 ^ 64
  spot-lt = pow_lt (bit_of p) 64 (omega arith)

  -- For sets of four 64-bit words and registers that are bytes: `add` and `remove` return sets of
  -- the same shape; behind `add` the register is a member, behind `remove` it is none, and every
  -- other register is a member as it was before.
  pub contains-add-remove :
      ((s' : PRegSet) × (add s p ≡ some s')
        × IsPRegSet s'
        × (contains s' q ≡ (contains s q >>= λ b. some (if preg_eq p q then true else b))))
      × ((s' : PRegSet) × (remove s p ≡ some s')
          × IsPRegSet s'
          × (contains s' q ≡ (contains s q >>= λ b. some (if preg_eq p q then false else b))))
  contains-add-remove =
      let (w, at) = word_at s.bits (word_of p) (omega (arith, h.four)) in
      let b = bit_of p in
      let small = h.words (word_of p) w at in
      (
        (
          record { bits = set s.bits (word_of p) (bit_or w (2 ^ b)) },
          add_at p s w at,
          set-IsPRegSet (word_of p) (bit_or w (2 ^ b)) (bit_or-lt 64 w (2 ^ b) small spot-lt),
          changed (bit_or w (2 ^ b)) w (λ x. true) at (added w b) (kept_by_add w b),
        ),
        (
          record { bits = set s.bits (word_of p) (bit_and w (bit_not 64 (2 ^ b))) },
          remove_at p s w at,
          set-IsPRegSet (word_of p) (bit_and w (bit_not 64 (2 ^ b)))
              (omega (arith, small, bit_and-le 64 w (bit_not 64 (2 ^ b)) small)),
          changed (bit_and w (bit_not 64 (2 ^ b))) w (λ x. false) at
              (removed w b (omega arith) spot-lt) (kept_by_remove w b spot-lt),
        ),
      )
