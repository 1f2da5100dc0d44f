-- ===== src/Ion/Spill/Offsets.antt =====
-- The offsets of the slots in the frame.
use regalloc.Prelude.{
  ℕ, zero, suc, ◌+◌, ◌-◌, ◌*◌, ◌/◌, ◌%◌, ◌^◌, ◌≤◌, ◌<◌, ◌≡◌, refl, sym, ap, ◌∙◌, subst, bit_and,
  some, List, [], ◌∷◌, Bool, get_elem?, All, some_inj, if◌then◌else◌, arith,
}
use regalloc.Prelude.Bits.{bit_not, bit_and-high_mask}
use native.Mathlib.Nat.{one-le-pow, div-add-mod'}
use regalloc.Reg.SpillSlot
use regalloc.Allocation
use regalloc.Allocation.{Allocation}
use regalloc.Function.{Function}
use regalloc.Ion.Spill.{SpillSlotData, SpillEnv, pred_u32, allocate_spillslot, number_slots}

-- The size of a slot is a power of two of 32 bits.
abbrev pub IsSized : SpillSlotData → Type 0
IsSized d = (k : ℕ) × (k < 32) × (d.slots ≡ 2 ^ k)

-- Room for the slots and what their alignment may add.
abbrev pub room : List SpillSlotData → ℕ
room [] = 0
room (d ∷ ds) = 2 * d.slots + room ds

-- The allocation at an offset: it is named by its first or by its last slot.
abbrev pub named : Bool → ℕ → ℕ → Allocation
named by_last offset size =
    Allocation.stack (SpillSlot.new (if by_last then offset + size - 1 else offset))

-- The least multiple of a size that is not below a number.
aligned : ℕ → ℕ → ℕ
aligned k n = (n + 2 ^ k - 1) / 2 ^ k * 2 ^ k

aligned-bounds : (k n : ℕ) → (n ≤ aligned k n) × (aligned k n + 1 ≤ n + 2 ^ k)
unfolding aligned
aligned-bounds k n =
    let size : 1 ≤ 2 ^ k = one-le-pow k 2 (omega arith) in
    let split = div-add-mod' (n + 2 ^ k - 1) (2 ^ k) in
    let rest : (n + 2 ^ k - 1) % 2 ^ k < 2 ^ k = omega (arith, size) in
    (omega (arith, size, split, rest), omega (arith, size, split))

pred_u32-pos : (x : ℕ) → 1 ≤ x → x < 2 ^ 32 → pred_u32 x ≡ x - 1
unfolding pred_u32
pred_u32-pos x h k = omega (arith, h, k)

module _ (f : Function) where
  abbrev placed_at : ℕ → ℕ → SpillEnv → Allocation × SpillEnv
  placed_at offset size env = (
    named f.multi_spillslot_named_by_last_slot offset size,
    record env { num_spillslots = offset + size },
  )

  allocate_spillslot_lem :
      (k : ℕ) (env : SpillEnv)
      → k < 32
      → env.num_spillslots + 2 * 2 ^ k < 2 ^ 32
      → allocate_spillslot f (2 ^ k) env ≡ placed_at (aligned k env.num_spillslots) (2 ^ k) env
  unfolding allocate_spillslot aligned
  allocate_spillslot_lem k env lt fits =
      let n = env.num_spillslots in
      let (low, high) = aligned-bounds k n in
      let size : 1 ≤ 2 ^ k = one-le-pow k 2 (omega arith) in
      let sum : (n + 2 ^ k) % 2 ^ 32 ≡ n + 2 ^ k = omega (arith, fits, size) in
      let end : (aligned k n + 2 ^ k) % 2 ^ 32 ≡ aligned k n + 2 ^ k = omega (arith, fits, high) in
      let offset : bit_and (pred_u32 ((n + 2 ^ k) % 2 ^ 32)) (bit_not 32 (pred_u32 (2 ^ k)))
          ≡ aligned k n =
        rw
          (
            sum,
            pred_u32-pos (n + 2 ^ k) (omega (arith, size)) (omega (arith, fits)),
            pred_u32-pos (2 ^ k) size (omega (arith, fits)),
          )
          (bit_and-high_mask 32 k (n + 2 ^ k - 1) (omega arith) (omega (arith, fits, size))) in
      rw
        (
          offset,
          end,
          pred_u32-pos (aligned k n + 2 ^ k) (omega (arith, size)) (omega (arith, fits, high)),
        )
        refl

-- Slots at these offsets, each a multiple of the slot's size, one behind the other.
abbrev pub IsLayout : Bool → ℕ → List SpillSlotData → List SpillSlotData → (ℕ → ℕ) → ℕ → Type 0
IsLayout by_last start ds numbered offset end =
    (i : ℕ) (d : SpillSlotData)
    → get_elem? ds i ≡ some d
    → (get_elem? numbered i ≡ some (record d { alloc = named by_last (offset i) d.slots }))
      × ((q : ℕ) × (offset i ≡ q * d.slots))
      × (start ≤ offset i)
      × (offset i + d.slots ≤ end)
      × ((j : ℕ) (e : SpillSlotData)
          → i < j
          → get_elem? ds j ≡ some e
          → offset i + d.slots ≤ offset j)

then_offsets : ℕ → (ℕ → ℕ) → ℕ → ℕ
then_offsets o rest zero = o
then_offsets o rest (suc i) = rest i

module _ (f : Function) where
  abbrev by_last : Bool
  by_last = f.multi_spillslot_named_by_last_slot

  first_slot :
      (d : SpillSlotData) (ds numbered : List SpillSlotData) (start k end : ℕ) (rest : ℕ → ℕ)
      → d.slots ≡ 2 ^ k
      → IsLayout by_last (aligned k start + d.slots) ds numbered rest end
      → aligned k start + d.slots ≤ end
      → IsLayout by_last start
          (d ∷ ds)
          (record d { alloc = named by_last (aligned k start) d.slots } ∷ numbered)
          (then_offsets (aligned k start) rest)
          end
  unfolding aligned then_offsets
  first_slot d ds numbered start k end rest size layout le zero d' e =
      let same = some_inj d d' e in
      let (low, high) = aligned-bounds k start in
      subst
        (λ d'.
          (some (record d { alloc = named by_last (aligned k start) d.slots })
            ≡ some (record d' { alloc = named by_last (aligned k start) d'.slots }))
          × ((q : ℕ) × (aligned k start ≡ q * SpillSlotData.slots d'))
          × (start ≤ aligned k start)
          × (aligned k start + SpillSlotData.slots d' ≤ end)
          × ((j : ℕ) (e : SpillSlotData)
              → 0 < j
              → get_elem? (d ∷ ds) j ≡ some e
              → aligned k start + SpillSlotData.slots d' ≤ then_offsets (aligned k start) rest j))
        same (refl, ((start + 2 ^ k - 1) / 2 ^ k, rw size refl), low, le, later)
    where
      later :
          (j : ℕ) (e : SpillSlotData)
          → 0 < j
          → get_elem? (d ∷ ds) j ≡ some e
          → aligned k start + d.slots ≤ then_offsets (aligned k start) rest j
      later zero e lt g = absurd (omega (arith, lt))
      later (suc j) e lt g = let (a, m, b, c, o) = layout j e g in b
  first_slot d ds numbered start k end rest size layout le (suc i) d' e =
      let (low, high) = aligned-bounds k start in
      let (a, m, b, c, l) = layout i d' e in (a, m, omega (arith, b, low), c, later l)
    where
      later :
          ((j : ℕ) (e : SpillSlotData)
            → i < j
            → get_elem? ds j ≡ some e
            → rest i + d'.slots ≤ rest j)
          → (j : ℕ) (e : SpillSlotData) → suc i < j
          → get_elem? (d ∷ ds) j ≡ some e
          → rest i + d'.slots ≤ then_offsets (aligned k start) rest j
      later l zero e lt g = absurd (omega (arith, lt))
      later l (suc j) e lt g = l j e (omega (arith, lt)) g

  -- Where every slot's size is a power of two below 2^32 and twice all sizes fit behind the slots in
  -- use, the numbering gives each slot an offset that is a multiple of its size; the slots lie one
  -- behind the other, from the slots in use up to the new number of slots, and the allocation of each
  -- is named by its offset, or by the last of its slots where the client wants that.
  pub number_slots-IsLayout :
      (ds : List SpillSlotData) (env : SpillEnv)
      → All IsSized ds
      → env.num_spillslots + room ds < 2 ^ 32
      → (numbered : List SpillSlotData) × (offset : ℕ → ℕ) × (end : ℕ) × (number_slots f ds env
          ≡ (numbered, record env { num_spillslots = end }))
        × IsLayout by_last env.num_spillslots ds numbered offset end
        × (env.num_spillslots ≤ end)
  unfolding number_slots
  number_slots-IsLayout [] env sized fits =
      ([], (λ i. 0), env.num_spillslots, refl, (λ i d e. cc e), omega arith)
  number_slots-IsLayout (d ∷ ds) env sized fits =
      let ((k, lt, size), others) = sized in
      let start = env.num_spillslots in
      let (low, high) = aligned-bounds k start in
      let first =
        ap (λ z. allocate_spillslot f z env) size
        ∙ allocate_spillslot_lem f k env lt (omega (arith, fits, size))
        ∙ ap (λ z. placed_at f (aligned k start) z env) (sym size) in
      let env1 : SpillEnv = record env { num_spillslots = aligned k start + d.slots } in
      let (numbered, rest, end, run, layout, le) =
        number_slots-IsLayout ds env1 others (omega (arith, fits, high, size)) in
      (
        record d { alloc = named by_last (aligned k start) d.slots } ∷ numbered,
        then_offsets (aligned k start) rest,
        end,
        ap (next d) first ∙ ap (both d (named by_last (aligned k start) d.slots)) run,
        first_slot d ds numbered start k end rest size layout le,
        omega (arith, low, le),
      )
    where
      both :
          SpillSlotData → Allocation → List SpillSlotData × SpillEnv → List SpillSlotData × SpillEnv
      both d a r = (record d { alloc = a } ∷ r.0, r.1)

      next : SpillSlotData → Allocation × SpillEnv → List SpillSlotData × SpillEnv
      next d r = both d r.0 (number_slots f ds r.1)
