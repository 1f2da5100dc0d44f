-- ===== src/Examples/Spill.antt =====
-- Three spill sets in two slots.
use regalloc.Prelude.{ℕ, ◌≤◌, ◌≡◌, refl, some, ◌>>=◌, List, [], ◌∷◌, true, false, All, arith}
use regalloc.Reg.{int}
use regalloc.Reg.PRegSet
use regalloc.Allocation.{no_alloc}
use regalloc.Function.{Function}
use regalloc.Ion.Spill.{SpillSet, SpillSlotData, SpillEnv, allocate_spillslots, number_slots}
use regalloc.Ion.Spill.Kept.{OnlySlots}
use regalloc.Ion.Spill.Whole.{IsSafe, three_lists, allocate_spillslots-IsSafe}
use regalloc.Ion.Spill.Offsets.{IsLayout, IsSized, number_slots-IsLayout}

abbrev two_sizes : Function
two_sizes = record {
  num_insts = 8;
  num_blocks = 1;
  entry_block = record { raw = 0 };
  block_insns = λ b. record { from = record { raw = 0 }; to = record { raw = 8 } };
  block_succs = λ b. [];
  block_preds = λ b. [];
  block_params = λ b. [];
  is_ret = λ i. false;
  is_branch = λ i. false;
  branch_blockparams = λ b i n. [];
  inst_operands = λ i. [];
  inst_clobbers = λ i. PRegSet.empty;
  num_vregs = 3;
  debug_value_labels = [];
  spillslot_size = λ c. 2;
  multi_spillslot_named_by_last_slot = true;
  allow_multiple_vreg_defs = false;
}

abbrev spilled_over : ℕ → ℕ → SpillSet
spilled_over from to = record {
  slot = record { raw = 0 };
  reg_hint = record { bits = 0 };
  class = int;
  spill_bundle = record { raw = 0 };
  required = true;
  splits = 0;
  range = record { from = record { bits = from }; to = record { bits = to } };
}

abbrev three_spilled : SpillEnv
three_spilled = record {
  spillsets = spilled_over 0 4 ∷ spilled_over 2 6 ∷ spilled_over 4 8 ∷ [];
  spillslots = [];
  slots_by_class = three_lists;
  num_spillslots = 0;
}

abbrev slots_of : SpillEnv → List ℕ
slots_of env = slot_numbers env.spillsets
  where
    slot_numbers : List SpillSet → List ℕ
    slot_numbers [] = []
    slot_numbers (s ∷ ss) = s.slot.raw ∷ slot_numbers ss

allocate_spillslots_run :
    (allocate_spillslots two_sizes three_spilled >>= λ env. some (slots_of env))
    ≡ some (0 ∷ 1 ∷ 0 ∷ [])
unfolding allocate_spillslots
allocate_spillslots_run = refl

allocate_spillslots-IsSafe_example :
    (env' : SpillEnv) × (allocate_spillslots two_sizes three_spilled ≡ some env')
    × OnlySlots three_spilled.spillsets env'.spillsets
    × IsSafe env'
allocate_spillslots-IsSafe_example =
    allocate_spillslots-IsSafe two_sizes three_spilled refl refl (omega arith)

abbrev sized : ℕ → SpillSlotData
sized n = record { ranges = []; slots = n; alloc = no_alloc }

abbrev sizes_1_4_2 : List SpillSlotData
sizes_1_4_2 = sized 1 ∷ sized 4 ∷ sized 2 ∷ []

sizes-IsSized : All IsSized sizes_1_4_2
sizes-IsSized = ((0, omega arith, refl), ((2, omega arith, refl), ((1, omega arith, refl), tt)))

number_slots_run : (number_slots two_sizes sizes_1_4_2 three_spilled).1.num_spillslots ≡ 10
unfolding number_slots
number_slots_run = refl

number_slots-IsLayout_example :
    (numbered : List SpillSlotData) × (offset : ℕ → ℕ) × (end : ℕ) × (number_slots two_sizes
        sizes_1_4_2 three_spilled
      ≡ (numbered, record three_spilled { num_spillslots = end }))
    × IsLayout true 0 sizes_1_4_2 numbered offset end
    × (0 ≤ end)
number_slots-IsLayout_example =
    number_slots-IsLayout two_sizes sizes_1_4_2 three_spilled sizes-IsSized (omega arith)
