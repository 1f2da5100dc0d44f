-- ===== src/IndexSet/Members.antt =====
-- Which indices are in a set.
use regalloc.Prelude.{
  ℕ, ◌*◌, ◌/◌, ◌%◌, ◌^◌, ◌<◌, ◌≡◌, ◌≢◌, inl, inr, refl, sym, ap, ◌∙◌, subst, bit_and, bit_or, Bool,
  true, false, ◌==◌, ◌!=◌, if◌then◌else◌, ==_iff, ==_ne, Option-cases, ℕ_discrete, arith,
}
use regalloc.Prelude.Bits.{shl, bit_not, bit_at, zero-bit_and, bit_or-lt, bit_and-le}
use regalloc.Prelude.Masks.{
  pow_lt, one_shifted, masked_bit, added, removed, kept_by_add, kept_by_remove,
}
use regalloc.IndexSet.{
  IndexSet, invalid, entries, find, word_index, elem, maybe_elem_mut, maybe_elem, get_word,
  get_or_insert, get_mut, set, get,
}
use regalloc.IndexSet.Words.{word, IsSlots, Writes, get_or_insert-Writes, get_mut-Writes}

-- Indices whose words have an index of 32 bits that is not the invalid one.
abbrev pub IsIndex : ℕ → Type 0
IsIndex idx = idx < 0xffff_ffff * 64

-- No word is cached, no key has two slots, and words have 64 bits.
pub record IsIndexSet (s : IndexSet) : Type 0 where
  pub no_cache : s.cache ≡ (invalid, 0)
  pub slots : IsSlots s.elems
  pub words : (k : ℕ) → word (entries s.elems) k < 2 ^ 64

word_of : (idx : ℕ) → IsIndex idx → word_index idx ≡ idx / 64
word_of idx h = omega arith

maybe_elem-find :
    (s : IndexSet) (idx : ℕ)
    → IsIndex idx
    → s.cache ≡ (invalid, 0)
    → maybe_elem s idx ≡ find (entries s.elems) (idx / 64)
unfolding maybe_elem get_word
maybe_elem-find s idx h c =
    let uncached : (s.cache.0 == word_index idx) ≡ false =
      ap (λ z. z == word_index idx) (ap (λ (p : ℕ × ℕ). p.0) c)
      ∙ ==_ne invalid (word_index idx) (λ e. omega (arith, e, h)) in
    rw (uncached, word_of idx h) refl

none_set : (m : ℕ) → (bit_and 0 m != 0) ≡ false
none_set m = rw (zero-bit_and m) refl

get-bit :
    (s : IndexSet) (idx : ℕ)
    → IsIndex idx
    → s.cache ≡ (invalid, 0)
    → get s idx ≡ (bit_at (word (entries s.elems) (idx / 64)) (idx % 64) == 1)
unfolding get
get-bit s idx h c =
    let spot = one_shifted (idx % 64) (omega arith) in
    let same = maybe_elem-find s idx h c in
    elim (Option-cases (find (entries s.elems) (idx / 64))) [
      | inl e ↦ simp (same ∙ e, get, e) (sym (none_set (2 ^ (idx % 64))) ∙ masked_bit 0 (idx % 64))
      | inr (w, e) ↦ simp (same ∙ e, get, spot, e) (masked_bit w (idx % 64))
    ]

module _ (s : IndexSet) (h : IsIndexSet s) (idx jdx : ℕ) (in_range : IsIndex idx)
    (in_range' : IsIndex jdx) where
  abbrev bit : ℕ
  bit = idx % 64

  -- A set in which the word of an index is written, and in it the bit of the index.
  written :
      (s' : IndexSet) (write : ℕ → ℕ) (v : Bool)
      → s'.cache ≡ (invalid, 0)
      → Writes (idx / 64) write (entries s.elems) (entries s'.elems) × IsSlots s'.elems
      → ((w : ℕ) → w < 2 ^ 64 → write w < 2 ^ 64)
      → ((w : ℕ) → (bit_at (write w) bit == 1) ≡ v)
      → ((w k : ℕ) → k < 64 → bit ≢ k → bit_at (write w) k ≡ bit_at w k)
      → IsIndexSet s' × (get s' jdx ≡ (if idx == jdx then v else get s jdx))
  written s' write v c ((here, others), slots) small at_bit kept =
      let old = word (entries s.elems) (idx / 64) in
      (
        record {
          no_cache = c;
          slots = slots;
          words = λ k. elim (ℕ_discrete (idx / 64) k) [
            | yes e ↦
                subst (λ z. word (entries s'.elems) z < 2 ^ 64) e
                  (subst (λ z. z < 2 ^ 64) (sym here) (small old (h.words (idx / 64))))
            | no ne ↦ subst (λ z. z < 2 ^ 64) (sym (others k ne)) (h.words k)
          ];
        },
        get-bit s' jdx in_range' c ∙ elim (ℕ_discrete idx jdx) [
          | yes e ↦ rw ((==_iff idx jdx).1 e) (
              ap (λ z. bit_at (word (entries s'.elems) (z / 64)) (z % 64) == 1) (sym e)
              ∙ ap (λ z. bit_at z bit == 1) here
              ∙ at_bit old)
          | no ne ↦ elim (ℕ_discrete (idx / 64) (jdx / 64)) [
            | yes same ↦ rw (==_ne idx jdx ne) (
                ap (λ z. bit_at (word (entries s'.elems) z) (jdx % 64) == 1) (sym same)
                ∙ ap (λ z. bit_at z (jdx % 64) == 1) here
                ∙ ap (λ z. z == 1)
                    (kept old (jdx % 64) (omega arith) (λ e. ne (omega (arith, e, same))))
                ∙ ap (λ z. bit_at (word (entries s.elems) z) (jdx % 64) == 1) same
                ∙ sym (get-bit s jdx in_range' h.no_cache))
            | no other ↦ rw (==_ne idx jdx ne) (
                ap (λ z. bit_at z (jdx % 64) == 1) (others (jdx / 64) other)
                ∙ sym (get-bit s jdx in_range' h.no_cache))
          ]
        ],
      )

  uncached : (if s.cache.0 == word_index idx then (invalid, 0) else s.cache) ≡ (invalid, 0)
  uncached =
      let no_word : (s.cache.0 == word_index idx) ≡ false =
        ap (λ z. z == word_index idx) (ap (λ (p : ℕ × ℕ). p.0) h.no_cache)
        ∙ ==_ne invalid (word_index idx) (λ e. omega (arith, e, in_range)) in
      rw no_word h.no_cache

  spot-lt : 2 ^ bit < 2 ^ 64
  spot-lt = pow_lt bit 64 (omega arith)

  -- For indices below 64 * (2^32 - 1) and a set without a cached word, in which no key has two slots
  -- and words have 64 bits: behind `set` the set is such a set, in slots or in the hash map; `get`
  -- finds the value that was set at the index, and at every other index what was there before.
  pub get-set :
      (v : Bool)
      → IsIndexSet (set idx v s) × (get (set idx v s) jdx ≡ (if idx == jdx then v else get s jdx))
  unfolding set elem maybe_elem_mut
  get-set true =
      let spot = one_shifted bit (omega arith) in
      written (set idx true s) (λ w. bit_or w (shl 64 1 bit)) true uncached
        (subst
          (λ z.
            Writes z (λ w. bit_or w (shl 64 1 bit)) (entries s.elems)
              (entries (get_or_insert (word_index idx) (λ w. bit_or w (shl 64 1 bit)) s.elems))
            × IsSlots (get_or_insert (word_index idx) (λ w. bit_or w (shl 64 1 bit)) s.elems))
          (word_of idx in_range)
          (get_or_insert-Writes (word_index idx) (λ w. bit_or w (shl 64 1 bit)) s.elems h.slots))
        (λ w lt. rw spot (bit_or-lt 64 w (2 ^ bit) lt spot-lt)) (λ w. rw spot (added w bit))
        (λ w k lt ne. rw spot (kept_by_add w bit k lt ne))
  get-set false =
      let spot = one_shifted bit (omega arith) in
      let clear : ℕ → ℕ = λ w. bit_and w (bit_not 64 (shl 64 1 bit)) in
      written (set idx false s) clear false uncached
        (subst
          (λ z.
            Writes z clear (entries s.elems) (entries (get_mut (word_index idx) clear s.elems))
            × IsSlots (get_mut (word_index idx) clear s.elems))
          (word_of idx in_range)
          (get_mut-Writes (word_index idx) clear s.elems h.slots
            (zero-bit_and (bit_not 64 (shl 64 1 bit)))))
        (λ w lt. omega (arith, bit_and-le 64 w (bit_not 64 (shl 64 1 bit)) lt))
        (λ w. rw spot (removed w bit (omega arith) spot-lt))
        (λ w k lt ne. rw spot (kept_by_remove w bit spot-lt k lt ne))
