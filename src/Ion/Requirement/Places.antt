-- ===== src/Ion/Requirement/Places.antt =====
-- Requirements as sets of places: a merge allows what both allow, and the requirement of a bundle
-- allows what all its uses allow.
use regalloc.Prelude.{
  ℕ, ◌≡◌, ◌↔◌, ◌∙◌, inl, inr, refl, sym, ap, subst, Option, none, some, ◌>>=◌, List, [], ◌∷◌, Bool,
  true, false, All, Bool-cases, Option-cases, ==_iff,
}
use regalloc.Reg.PReg.{PReg, preg_eq, preg_ext}
use regalloc.Reg.SpillSlot.{SpillSlot}
use regalloc.Index
use regalloc.ProgPoint.{ProgPoint, before}
use regalloc.Ion.Requirement.{
  Requirement, fixed_register, fixed_stack, register, any_place, merge, Use, Outcome, ok, conflict,
  requirement_from_operand, conflict_at, requirement_loop, uses_of, compute_requirement,
  merge_bundle_requirements,
}

step {ℓ κ} :
    {A : Type ℓ} {B : Type κ} (o : Option A) (f : A → Option B) (a : A)
    → o ≡ some a
    → (o >>= f) ≡ f a
step o f a e = ap (λ x. x >>= f) e

-- Where a value can be: a register, the stack location of a fixed register, or a spill slot.
pub data Place : Type 0 where
  in_register in_stack_of : PReg → Place
  in_slot : SpillSlot → Place

abbrev pub Allows : Requirement → Place → Type 0
Allows any_place p = Unit {0}
Allows register (in_register preg) = Unit {0}
Allows (fixed_register a) (in_register preg) = a ≡ preg
Allows (fixed_stack a) (in_stack_of preg) = a ≡ preg
Allows _ _ = ⊥

-- What a merge, or its refusal, says of the places.
abbrev pub Meets : (Place → Type 0) → (Place → Type 0) → Option Requirement → Type 0
Meets A B none = (p : Place) → ¬ (A p × B p)
Meets A B (some r) = (p : Place) → Allows r p ↔ (A p × B p)

same_preg : (a b : PReg) → preg_eq a b ≡ true → a ≡ b
same_preg a b h = preg_ext ((==_iff a.bits b.bits).0 h)

preg_differ : (a b : PReg) → preg_eq a b ≡ false → ¬ (a ≡ b)
preg_differ a b h e = cc (h, (==_iff a.bits b.bits).1 (ap (λ (q : PReg). q.bits) e))

fixed_in_register : (a : PReg) (p : Place) → Allows (fixed_register a) p → Allows register p
fixed_in_register a (in_register q) h = tt
fixed_in_register a (in_stack_of q) h = absurd h
fixed_in_register a (in_slot q) h = absurd h

stack_not_register : (a : PReg) (p : Place) → Allows (fixed_stack a) p → ¬ Allows register p
stack_not_register a (in_register q) h k = h
stack_not_register a (in_stack_of q) h k = k
stack_not_register a (in_slot q) h k = h

same_register :
    (a b : PReg)
    → a ≡ b
    → Meets (Allows (fixed_register a)) (Allows (fixed_register b)) (some (fixed_register a))
same_register a b e (in_register q) = (λ h. (h, sym e ∙ h), λ h. h.0)
same_register a b e (in_stack_of q) = (λ h. absurd h, λ h. h.0)
same_register a b e (in_slot q) = (λ h. absurd h, λ h. h.0)

no_register :
    (a b : PReg) → ¬ (a ≡ b) → Meets (Allows (fixed_register a)) (Allows (fixed_register b)) none
no_register a b ne (in_register q) h = ne (h.0 ∙ sym h.1)
no_register a b ne (in_stack_of q) h = h.0
no_register a b ne (in_slot q) h = h.0

same_stack :
    (a b : PReg)
    → a ≡ b
    → Meets (Allows (fixed_stack a)) (Allows (fixed_stack b)) (some (fixed_stack a))
same_stack a b e (in_stack_of q) = (λ h. (h, sym e ∙ h), λ h. h.0)
same_stack a b e (in_register q) = (λ h. absurd h, λ h. h.0)
same_stack a b e (in_slot q) = (λ h. absurd h, λ h. h.0)

no_stack : (a b : PReg) → ¬ (a ≡ b) → Meets (Allows (fixed_stack a)) (Allows (fixed_stack b)) none
no_stack a b ne (in_stack_of q) h = ne (h.0 ∙ sym h.1)
no_stack a b ne (in_register q) h = h.0
no_stack a b ne (in_slot q) h = h.0

-- For any two requirements: if they merge, the result allows exactly the places that both allow; if
-- they conflict, there is no place that both allow.
pub merge-Meets : (a b : Requirement) → Meets (Allows a) (Allows b) (merge a b)
unfolding merge
merge-Meets a any_place = λ p. (λ h. (h, tt), λ h. h.0)
merge-Meets any_place register = λ p. (λ h. (tt, h), λ h. h.1)
merge-Meets any_place (fixed_register b) = λ p. (λ h. (tt, h), λ h. h.1)
merge-Meets any_place (fixed_stack b) = λ p. (λ h. (tt, h), λ h. h.1)
merge-Meets register register = λ p. (λ h. (h, h), λ h. h.0)
merge-Meets register (fixed_register b) = λ p. (λ h. (fixed_in_register b p h, h), λ h. h.1)
merge-Meets (fixed_register a) register = λ p. (λ h. (h, fixed_in_register a p h), λ h. h.0)
merge-Meets register (fixed_stack b) = λ p h. stack_not_register b p h.1 h.0
merge-Meets (fixed_stack a) register = λ p h. stack_not_register a p h.0 h.1
merge-Meets (fixed_register a) (fixed_stack b) =
    λ p h. stack_not_register b p h.1 (fixed_in_register a p h.0)
merge-Meets (fixed_stack a) (fixed_register b) =
    λ p h. stack_not_register a p h.0 (fixed_in_register b p h.1)
merge-Meets (fixed_register a) (fixed_register b) = elim (Bool-cases (preg_eq a b)) [
  | inl e ↦ rw e (same_register a b (same_preg a b e))
  | inr e ↦ rw e (no_register a b (preg_differ a b e))
]
merge-Meets (fixed_stack a) (fixed_stack b) = elim (Bool-cases (preg_eq a b)) [
  | inl e ↦ rw e (same_stack a b (same_preg a b e))
  | inr e ↦ rw e (no_stack a b (preg_differ a b e))
]

module _ (is_stack_preg : ℕ → Bool) where
  -- The operand's constraint can be read.
  abbrev pub IsReadable : Use → Type 0
  IsReadable u = (r : Requirement) × (requirement_from_operand is_stack_preg u.operand ≡ some r)

  abbrev pub UseAllows : Place → Use → Type 0
  UseAllows p u =
      (r : Requirement) → requirement_from_operand is_stack_preg u.operand ≡ some r → Allows r p

  -- What the outcome of a loop over uses says of the places, `A` being those allowed before.
  abbrev pub Answers : (Place → Type 0) → List Use → Outcome → Type 0
  Answers A us (ok r) = (p : Place) → Allows r p ↔ (A p × All (UseAllows p) us)
  Answers A us (conflict c) = (p : Place) → ¬ (A p × All (UseAllows p) us)

  use_Allows :
      (u : Use) (r : Requirement)
      → requirement_from_operand is_stack_preg u.operand ≡ some r
      → (p : Place) → UseAllows p u ↔ Allows r p
  use_Allows u r e p = (λ h. h r e, λ h r' e'. subst (λ q. Allows q p) (same r' e') h)
    where
      same :
          (r' : Requirement) → requirement_from_operand is_stack_preg u.operand ≡ some r' → r ≡ r'
      same r' e' = cc (e, e')

  Answers-cons :
      (req req' r : Requirement) (u : Use) (us : List Use) (o : Outcome)
      → requirement_from_operand is_stack_preg u.operand ≡ some r
      → Meets (Allows req) (Allows r) (some req')
      → Answers (Allows req') us o
      → Answers (Allows req) (u ∷ us) o
  Answers-cons req req' r u us (ok res) e m h = λ p. (
    λ k. let w = (h p).0 k in let v = (m p).0 w.0 in (v.0, ((use_Allows u r e p).1 v.1, w.1)),
    λ k. (h p).1 ((m p).1 (k.0, (use_Allows u r e p).0 k.1.0), k.1.1),
  )
  Answers-cons req req' r u us (conflict c) e m h =
      λ p k. h p ((m p).1 (k.0, (use_Allows u r e p).0 k.1.0), k.1.1)

  requirement_loop-Answers :
      (req : Requirement) (last_pos : ProgPoint) (us : List Use)
      → All IsReadable us
      → (o : Outcome) × (requirement_loop is_stack_preg req last_pos us ≡ some o)
        × Answers (Allows req) us o
  unfolding requirement_loop
  requirement_loop-Answers req last_pos [] h = (ok req, refl, λ p. (λ k. (k, tt), λ k. k.0))
  requirement_loop-Answers req last_pos (u ∷ us) h =
      let (r, e) = h.0 in
      let m = merge-Meets req r in
      elim (Option-cases (merge req r)) [
        | inl n ↦
            let m' : Meets (Allows req) (Allows r) none =
              subst (Meets (Allows req) (Allows r)) n m in
            (
              conflict (conflict_at is_stack_preg req r u.pos last_pos),
              step (requirement_from_operand is_stack_preg u.operand) _ r e ∙ rw n refl,
              λ p k. m' p (k.0, (use_Allows u r e p).0 k.1.0),
            )
        | inr (req', s) ↦
            let m' : Meets (Allows req) (Allows r) (some req') =
              subst (Meets (Allows req) (Allows r)) s m in
            let (o, runs, ans) = requirement_loop-Answers req' u.pos us h.1 in
            (
              o,
              step (requirement_from_operand is_stack_preg u.operand) _ r e ∙ rw s runs,
              Answers-cons req req' r u us o e m' ans,
            )
      ]

  -- For a bundle whose operands all have a readable constraint, the computation returns: either a
  -- requirement that allows exactly the places that all uses allow, or a conflict, and then no one
  -- place suits all uses.
  pub compute_requirement-Answers :
      (ranges : List (List Use))
      → All IsReadable (uses_of is_stack_preg ranges)
      → (o : Outcome) × (compute_requirement is_stack_preg ranges ≡ some o)
        × Answers (λ p. Unit {0}) (uses_of is_stack_preg ranges) o
  unfolding compute_requirement
  compute_requirement-Answers ranges h =
      requirement_loop-Answers any_place (before (Index.new 0)) (uses_of is_stack_preg ranges) h

  merged_Meets :
      (A B : Place → Type 0) (ra rb : Requirement) (o : Option Requirement)
      → ((p : Place) → Allows ra p ↔ A p)
      → ((p : Place) → Allows rb p ↔ B p)
      → Meets (Allows ra) (Allows rb) o
      → Meets A B o
  merged_Meets A B ra rb none a b h = λ p k. h p ((a p).1 k.0, (b p).1 k.1)
  merged_Meets A B ra rb (some r) a b h = λ p. (
    λ k. let w = (h p).0 k in ((a p).0 w.0, (b p).0 w.1),
    λ k. (h p).1 ((a p).1 k.0, (b p).1 k.1),
  )

  both_bundles :
      (a b : List (List Use)) (oa ob : Outcome)
      → compute_requirement is_stack_preg a ≡ some oa
      → compute_requirement is_stack_preg b ≡ some ob
      → Answers (λ p. Unit {0}) (uses_of is_stack_preg a) oa
      → Answers (λ p. Unit {0}) (uses_of is_stack_preg b) ob
      → (o : Option Requirement) × (merge_bundle_requirements is_stack_preg a b ≡ some o)
        × Meets
            (λ p. All (UseAllows p) (uses_of is_stack_preg a))
            (λ p. All (UseAllows p) (uses_of is_stack_preg b))
            o
  unfolding merge_bundle_requirements
  both_bundles a b (conflict c) ob ea eb no_a h = (none, rw ea refl, λ p k. no_a p (tt, k.0))
  both_bundles a b (ok ra) (conflict c) ea eb h no_b =
      (none, rw ea (rw eb refl), λ p k. no_b p (tt, k.1))
  both_bundles a b (ok ra) (ok rb) ea eb is_a is_b = (
    merge ra rb,
    rw ea (rw eb refl),
    merged_Meets (λ p. All (UseAllows p) (uses_of is_stack_preg a))
        (λ p. All (UseAllows p) (uses_of is_stack_preg b)) ra rb (merge ra rb)
        (λ p. (λ k. ((is_a p).0 k).1, λ k. (is_a p).1 (tt, k)))
        (λ p. (λ k. ((is_b p).0 k).1, λ k. (is_b p).1 (tt, k))) (merge-Meets ra rb),
  )

  -- Two bundles whose operands all have a readable constraint: merging their requirements returns,
  -- either with a requirement that allows exactly the places that all uses of both allow, or with a
  -- conflict, and then no one place suits all uses of both.
  pub merge_bundle_requirements-Meets :
      (a b : List (List Use))
      → All IsReadable (uses_of is_stack_preg a)
      → All IsReadable (uses_of is_stack_preg b)
      → (o : Option Requirement) × (merge_bundle_requirements is_stack_preg a b ≡ some o)
        × Meets
            (λ p. All (UseAllows p) (uses_of is_stack_preg a))
            (λ p. All (UseAllows p) (uses_of is_stack_preg b))
            o
  merge_bundle_requirements-Meets a b ha hb =
      let (oa, ea, is_a) = compute_requirement-Answers a ha in
      let (ob, eb, is_b) = compute_requirement-Answers b hb in
      both_bundles a b oa ob ea eb is_a is_b
