-- ===== src/Ion/Spill.antt =====
-- The allocation of spill slots (src/ion/spill.rs). `none` is an index out of range. A slot's map
-- from ranges to spill sets is a list of its entries: two keys are the same where their ranges
-- overlap.
pub mod Slots
pub mod Kept
pub mod Probing
pub mod Whole
pub mod Offsets
use regalloc.Prelude.{
  ℕ, zero, suc, ◌+◌, ◌-◌, ◌*◌, ◌%◌, ◌^◌, min, bit_and, Option, none, some, ◌>>=◌, List, [], ◌∷◌,
  ◌++◌, Bool, true, false, not, ◌==◌, length, get_elem?, set, if◌then◌else◌,
}
use regalloc.Prelude.Bits.{bit_not}
use regalloc.Reg.{RegClass, class_code}
use regalloc.Reg.PReg.{PReg}
use regalloc.Reg.SpillSlot
use regalloc.Allocation
use regalloc.Allocation.{Allocation, no_alloc}
use regalloc.Index
use regalloc.Index.{Index}
use regalloc.Function.{Function}
use regalloc.Ion.Ranges.{
  CodeRange, LiveRangeKey, Ordering, less, equal, greater, key_cmp, from_range,
}

pub record SpillSet : Type 0 where
  pub slot : Index
  pub reg_hint : PReg
  pub class : RegClass
  pub spill_bundle : Index
  pub required : Bool
  pub splits : ℕ
  pub range : CodeRange

abbrev pub SpillSetRanges : Type 0
SpillSetRanges = List (LiveRangeKey × Index)

pub record SpillSlotData : Type 0 where
  pub ranges : SpillSetRanges
  pub slots : ℕ
  pub alloc : Allocation

pub record SpillSlotList : Type 0 where
  pub slots : List Index
  pub probe_start : ℕ

abbrev pub no_slots : SpillSlotList
no_slots = record { slots = []; probe_start = 0 }

-- The part of the allocator's state that spilling reads and changes.
pub record SpillEnv : Type 0 where
  pub spillsets : List SpillSet
  pub spillslots : List SpillSlotData
  pub slots_by_class : List SpillSlotList
  pub num_spillslots : ℕ

unfoldable pub is_same : Ordering → Bool
is_same equal = true
is_same less = false
is_same greater = false

unfoldable pub contains_key : SpillSetRanges → LiveRangeKey → Bool
unfolding is_same key_cmp
contains_key [] key = false
contains_key ((k, s) ∷ m) key =
    let later = contains_key m key in if is_same (key_cmp key k) then true else later

-- The value of a key that is there is replaced.
unfoldable pub insert_key : LiveRangeKey → Index → SpillSetRanges → SpillSetRanges
unfolding is_same key_cmp
insert_key key s [] = (key, s) ∷ []
insert_key key s ((k, old) ∷ m) =
    let later = insert_key key s m in
    if is_same (key_cmp key k) then (k, s) ∷ m else (k, old) ∷ later

unfoldable pub next_index : SpillSlotList → ℕ → ℕ
next_index l index = if index == length l.slots - 1 then 0 else index + 1

abbrev pub max_attempts : ℕ
max_attempts = 10

unfoldable pub spillslot_can_fit_spillset : SpillEnv → Index → Index → Option Bool
unfolding contains_key from_range
spillslot_can_fit_spillset env spillslot spillset =
    get_elem? env.spillslots spillslot.raw >>= λ slot_data.
    get_elem? env.spillsets spillset.raw >>= λ s.
    some (not (contains_key slot_data.ranges (from_range s.range)))

unfoldable pub allocate_spillset_to_spillslot : Index → Index → SpillEnv → Option SpillEnv
unfolding insert_key from_range
allocate_spillset_to_spillslot spillset spillslot env =
    get_elem? env.spillsets spillset.raw >>= λ s.
    get_elem? env.spillslots spillslot.raw >>= λ slot_data. some (record env {
      spillsets = set env.spillsets spillset.raw (record s { slot = spillslot });
      spillslots =
          set env.spillslots spillslot.raw (record slot_data {
            ranges = insert_key (from_range s.range) spillset slot_data.ranges;
          });
    })

abbrev pub with_list : SpillEnv → ℕ → SpillSlotList → SpillEnv
with_list env class l = record env { slots_by_class = set env.slots_by_class class l }

-- The probes of the slots that exist, from an index of their list on; whether one fits.
unfoldable pub probe : ℕ → ℕ → Index → ℕ → SpillEnv → Option (SpillEnv × Bool)
unfolding spillslot_can_fit_spillset allocate_spillset_to_spillslot next_index
probe zero class spillset i env = some (env, false)
probe (suc attempts) class spillset i env = get_elem? env.slots_by_class class >>= λ l.
    get_elem? l.slots i >>= λ spillslot.
    spillslot_can_fit_spillset env spillslot spillset >>= λ fits. elim fits [
      | true ↦ allocate_spillset_to_spillslot spillset spillslot env >>= λ env'.
          some (with_list env' class (record l { probe_start = i }), true)
      | false ↦ probe attempts class spillset (next_index l i) env
    ]

-- `x - 1` of 32 bits.
unfoldable pub pred_u32 : ℕ → ℕ
pred_u32 x = (x + 2 ^ 32 - 1) % 2 ^ 32

module _ (f : Function) where
  -- A slot that is added for a spill set.
  unfoldable pub add_spillslot : ℕ → Index → SpillSet → SpillEnv → Option SpillEnv
  unfolding allocate_spillset_to_spillslot Index.new
  add_spillslot class spillset s env =
      let spillslot = Index.new (length env.spillslots) in
      get_elem? env.slots_by_class class >>= λ l.
      let slots = l.slots ++ spillslot ∷ [] in
      allocate_spillset_to_spillslot spillset spillslot (
        with_list
          (record env {
            spillslots =
                env.spillslots
                ++ record {
                  ranges = [];
                  slots = f.spillslot_size s.class % 2 ^ 32;
                  alloc = no_alloc;
                }
                  ∷ [];
          })
          class (record { slots = slots; probe_start = length slots - 1 }))

  -- The body of the first loop.
  unfoldable pub allocate_for : Index → SpillEnv → Option SpillEnv
  unfolding probe add_spillslot
  allocate_for spillset env = get_elem? env.spillsets spillset.raw >>= λ s.
      let class = class_code s.class in
      if s.required
      then (get_elem? env.slots_by_class class >>= λ l.
          probe (min (length l.slots) max_attempts) class spillset l.probe_start env >>= λ r.
          if r.1 then some r.0 else add_spillslot class spillset s r.0)
      else some env

  unfoldable pub allocate_sets : ℕ → ℕ → SpillEnv → Option SpillEnv
  unfolding allocate_for Index.new
  allocate_sets zero i env = some env
  allocate_sets (suc n) i env = allocate_for (Index.new i) env >>= allocate_sets n (i + 1)

  unfoldable pub allocate_spillslot : ℕ → SpillEnv → Allocation × SpillEnv
  unfolding Allocation.stack SpillSlot.new pred_u32
  allocate_spillslot size env =
      let offset =
        bit_and (pred_u32 ((env.num_spillslots + size) % 2 ^ 32)) (bit_not 32 (pred_u32 size)) in
      let end = (offset + size) % 2 ^ 32 in
      let slot = if f.multi_spillslot_named_by_last_slot then pred_u32 end else offset in
      (Allocation.stack (SpillSlot.new slot), record env { num_spillslots = end })

  unfoldable pub number_slots : List SpillSlotData → SpillEnv → List SpillSlotData × SpillEnv
  unfolding allocate_spillslot
  number_slots [] env = ([], env)
  number_slots (d ∷ ds) env =
      let (alloc, env1) = allocate_spillslot d.slots env in
      let (rest, env2) = number_slots ds env1 in (record d { alloc = alloc } ∷ rest, env2)

  unfoldable pub allocate_spillslots : SpillEnv → Option SpillEnv
  unfolding allocate_sets number_slots
  allocate_spillslots env = allocate_sets (length env.spillsets) 0 env >>= λ env1.
      let (numbered, env2) = number_slots env1.spillslots env1 in
      some (record env2 { spillslots = numbered })
