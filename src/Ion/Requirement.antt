-- ===== src/Ion/Requirement.antt =====
-- What the uses of a bundle require of its allocation (src/ion/requirement.rs).
use regalloc.Prelude.{
  ℕ, Option, none, some, ◌>>=◌, List, [], ◌∷◌, ◌++◌, Bool, true, false, ◌&&◌, ◌==◌, if◌then◌else◌,
}
pub mod Places
use regalloc.Reg.PReg
use regalloc.Reg.PReg.{PReg, preg_eq}
use regalloc.Operand
use regalloc.Operand.{Operand, OperandConstraint, any, reg, fixed_reg, reuse}
use regalloc.Index
use regalloc.ProgPoint.{ProgPoint, before}

pub data Requirement : Type 0 where
  fixed_register fixed_stack : PReg → Requirement
  register any_place : Requirement

-- `Result<Requirement, RequirementConflict>`: `none` is the conflict.
unfoldable pub merge : Requirement → Requirement → Option Requirement
merge r any_place = some r
merge any_place r = some r
merge register register = some register
merge register (fixed_register preg) = some (fixed_register preg)
merge (fixed_register preg) register = some (fixed_register preg)
merge (fixed_register a) (fixed_register b) = if preg_eq a b then some (fixed_register a) else none
merge (fixed_stack a) (fixed_stack b) = if preg_eq a b then some (fixed_stack a) else none
merge (fixed_register a) (fixed_stack b) = none
merge (fixed_stack a) (fixed_register b) = none
merge (fixed_stack a) register = none
merge register (fixed_stack b) = none

unfoldable pub is_stack : Requirement → Bool
is_stack (fixed_stack preg) = true
is_stack _ = false

unfoldable pub is_reg : Requirement → Bool
is_reg register = true
is_reg (fixed_register preg) = true
is_reg _ = false

pub data RequirementConflictAt : Type 0 where
  stack_to_reg reg_to_stack other : ProgPoint → RequirementConflictAt

unfoldable pub should_trim_edges_around_split : RequirementConflictAt → Bool
should_trim_edges_around_split (reg_to_stack p) = false
should_trim_edges_around_split (stack_to_reg p) = false
should_trim_edges_around_split (other p) = true

unfoldable pub suggested_split_point : RequirementConflictAt → ProgPoint
suggested_split_point (reg_to_stack p) = p
suggested_split_point (stack_to_reg p) = p
suggested_split_point (other p) = p

-- A use in a live range: where, by which operand, and as which of its instruction.
pub record Use : Type 0 where
  pub operand : Operand
  pub pos : ProgPoint
  pub slot : ℕ
  pub weight : ℕ

-- A requirement, or a conflict with the place to split.
pub data Outcome : Type 0 where
  ok : Requirement → Outcome
  conflict : RequirementConflictAt → Outcome

-- `is_stack_preg` is `self.pregs[..].is_stack`.
module _ (is_stack_preg : ℕ → Bool) where
  unfoldable pub requirement_of : OperandConstraint → Requirement
  requirement_of (fixed_reg preg) =
      if is_stack_preg (PReg.index preg) then fixed_stack preg else fixed_register preg
  requirement_of reg = register
  requirement_of (reuse _) = register
  requirement_of any = any_place

  -- `none` where `constraint` panics.
  unfoldable pub requirement_from_operand : Operand → Option Requirement
  unfolding requirement_of
  requirement_from_operand op = Operand.constraint op >>= λ c. some (requirement_of c)

  -- The closure of `map_err`.
  unfoldable pub conflict_at :
      Requirement → Requirement → ProgPoint → ProgPoint → RequirementConflictAt
  unfolding is_stack is_reg
  conflict_at req r pos last_pos =
      if is_stack req && is_reg r
      then stack_to_reg pos
      else if is_reg req && is_stack r
      then reg_to_stack last_pos
      else other pos

  -- The uses of all ranges of a bundle, in the order of the two loops.
  unfoldable pub requirement_loop : Requirement → ProgPoint → List Use → Option Outcome
  unfolding merge requirement_from_operand conflict_at
  requirement_loop req last_pos [] = some (ok req)
  requirement_loop req last_pos (u ∷ us) = requirement_from_operand u.operand >>= λ r.
      elim (merge req r) [
        | none ↦ some (conflict (conflict_at req r u.pos last_pos))
        | some req' ↦ requirement_loop req' u.pos us
      ]

  -- A bundle is the list of the lists of uses of its ranges.
  unfoldable pub uses_of : List (List Use) → List Use
  uses_of [] = []
  uses_of (us ∷ ranges) = us ++ uses_of ranges

  unfoldable pub compute_requirement : List (List Use) → Option Outcome
  unfolding requirement_loop uses_of
  compute_requirement ranges = requirement_loop any_place (before (Index.new 0)) (uses_of ranges)

  -- `none` for a panic, `some none` for the conflict.
  unfoldable pub merge_bundle_requirements :
      List (List Use) → List (List Use) → Option (Option Requirement)
  unfolding compute_requirement merge
  merge_bundle_requirements a b = compute_requirement a >>= λ ra. elim ra [
    | conflict _ ↦ some none
    | ok req_a ↦ compute_requirement b >>= λ rb. elim rb [
      | conflict _ ↦ some none
      | ok req_b ↦ some (merge req_a req_b)
    ]
  ]
