-- ===== src/Ion/RegTraversal/Order.antt =====
-- The loops over the registers of a class, read as loops over a list that is turned round.
use regalloc.Prelude.{
  ℕ, zero, suc, ◌+◌, ◌-◌, ◌<◌, ◌≡◌, ◌⊎◌, inl, inr, refl, sym, ap, ◌∙◌, Option, none, some, ◌>>=◌,
  List, [], ◌∷◌, ◌++◌, Bool, true, false, ◌||◌, leb, length, length-append, get_elem?,
  get_elem?-append, get_elem?-snoc, get_of_lt, lt_of_get, Bool-cases, if◌then◌else◌, arith,
}
use regalloc.Reg.PReg.{PReg}
use regalloc.Ion.RegTraversal.{is_hint, start_at, wrap, next_of}

-- A list from an index on, and then from its start.
abbrev pub rotate : ℕ → List PReg → List PReg
rotate zero xs = xs
rotate (suc k) [] = []
rotate (suc k) (x ∷ xs) = rotate k (xs ++ x ∷ [])

-- The registers that are no hints.
abbrev pub without : Option PReg → Option PReg → List PReg → List PReg
without hint hint2 [] = []
without hint hint2 (x ∷ xs) =
    let rest = without hint hint2 xs in if is_hint x hint || is_hint x hint2 then rest else x ∷ rest

pub length-rotate : (k : ℕ) (xs : List PReg) → length (rotate k xs) ≡ length xs
length-rotate zero xs = refl
length-rotate (suc k) [] = refl
length-rotate (suc k) (x ∷ xs) =
    omega (arith, length-rotate k (xs ++ x ∷ []), length-append xs (x ∷ []))

get-snoc :
    (x : PReg) (xs : List PReg) (j : ℕ)
    → j < suc (length xs)
    → get_elem? (xs ++ x ∷ []) j ≡ get_elem? (x ∷ xs) (wrap (suc j) (suc (length xs)))
unfolding wrap
get-snoc x xs j h = elim (Bool-cases (leb (suc (length xs)) (suc j))) [
  | inl y ↦
      let last : j ≡ length xs = ground (arith, h, y) in
      let first : suc j - suc (length xs) ≡ 0 = omega (arith, last) in
      rw y (
        ap (get_elem? (xs ++ x ∷ [])) last
        ∙ get_elem?-snoc xs x
        ∙ sym (ap (get_elem? (x ∷ xs)) first))
  | inr n ↦
      let lt : j < length xs = ground (arith, n) in
      let (a, g) = get_of_lt xs j lt in rw n (get_elem?-append xs (x ∷ []) j a g ∙ sym g)
]

wrap-lt : (a l : ℕ) → a < l + l → wrap a l < l
unfolding wrap
wrap-lt a l h = ground (arith, h)

wrap-suc : (a l : ℕ) → suc a < l + l → wrap (suc (wrap a l)) l ≡ wrap (suc a) l
unfolding wrap
wrap-suc a l h = ground (arith, h)

get-rotate :
    (k : ℕ) (xs : List PReg) (i : ℕ)
    → k < length xs
    → i < length xs
    → get_elem? (rotate k xs) i ≡ get_elem? xs (wrap (i + k) (length xs))
unfolding wrap
get-rotate zero xs i h lt = ap (get_elem? xs) (sym (rw (below) (omega arith)))
  where
    below : leb (length xs) (i + 0) ≡ false
    below = ground (arith, lt)
get-rotate (suc k) [] i h lt = absurd (omega (arith, h))
get-rotate (suc k) (x ∷ xs) i h lt =
    let longer = length-append xs (x ∷ []) in
    get-rotate k (xs ++ x ∷ []) i (omega (arith, h, longer)) (omega (arith, lt, longer))
    ∙ ap (λ (z : ℕ). get_elem? (xs ++ x ∷ []) (wrap (i + k) z)) (omega (arith, longer))
    ∙ get-snoc x xs (wrap (i + k) (suc (length xs)))
        (wrap-lt (i + k) (suc (length xs)) (omega (arith, h, lt)))
    ∙ ap (get_elem? (x ∷ xs)) (
        wrap-suc (i + k) (suc (length xs)) (omega (arith, h, lt))
        ∙ ap (λ z. wrap z (suc (length xs))) (omega arith))

start_at-lt : (offset : ℕ) (regs : List PReg) → 0 < length regs → start_at offset regs < length regs
start_at-lt offset regs h = ground (arith, h)

-- What is left of the list that is turned round, from an index on.
abbrev pub IsRest : ℕ → List PReg → ℕ → List PReg → Type 0
IsRest offset regs idx ys =
    (length ys + idx ≡ length regs)
    × ((j : ℕ) (y : PReg)
        → get_elem? ys j ≡ some y
        → get_elem? regs (wrap (idx + j + offset) (length regs)) ≡ some y)

pub whole-IsRest :
    (offset : ℕ) (regs : List PReg)
    → IsRest (start_at offset regs) regs 0 (rotate (start_at offset regs) regs)
whole-IsRest offset regs =
    let k = start_at offset regs in
    (
      omega (arith, length-rotate k regs),
      λ j y g.
          let lt : j < length regs =
            omega (arith, lt_of_get (rotate k regs) j y g, length-rotate k regs) in
          ap (λ (i : ℕ). get_elem? regs (wrap (i + k) (length regs))) (omega arith)
          ∙ sym (get-rotate k regs j (start_at-lt offset regs (omega (arith, lt))) lt)
          ∙ g,
    )

tail-IsRest :
    (offset : ℕ) (regs : List PReg) (idx : ℕ) (y : PReg) (ys : List PReg)
    → IsRest offset regs idx (y ∷ ys)
    → IsRest offset regs (suc idx) ys
tail-IsRest offset regs idx y ys (len, at_) = (
  omega (arith, len),
  λ j z g.
      ap (λ (i : ℕ). get_elem? regs (wrap (i + offset) (length regs))) (omega arith)
      ∙ at_ (suc j) z g,
)

-- The loop stops at the next register that is no hint, or behind the list.
pub next_of-IsRest :
    (offset : ℕ) (regs : List PReg) (hint hint2 : Option PReg) (ys : List PReg) (idx left : ℕ)
    → left ≡ length ys
    → IsRest offset regs idx ys
    → ((without hint hint2 ys ≡ [])
        × (next_of left regs offset idx hint hint2 ≡ some (none, length regs)))
      ⊎ ((y : PReg) × (zs : List PReg) × (idx' : ℕ) × (without hint hint2 ys
            ≡ y ∷ without hint hint2 zs)
          × (next_of left regs offset idx hint hint2 ≡ some (some y, idx'))
          × IsRest offset regs idx' zs)
unfolding next_of
next_of-IsRest offset regs hint hint2 [] idx zero e h =
    inl (refl, ap (λ (z : ℕ). some (none, z)) (omega (arith, h.0)))
next_of-IsRest offset regs hint hint2 [] idx (suc left) e h = absurd (omega (arith, e))
next_of-IsRest offset regs hint hint2 (y ∷ ys) idx zero e h = absurd (omega (arith, e))
next_of-IsRest offset regs hint hint2 (y ∷ ys) idx (suc left) e h =
    let here : get_elem? regs (wrap (idx + offset) (length regs)) ≡ some y =
      ap (λ (i : ℕ). get_elem? regs (wrap (i + offset) (length regs))) (omega arith)
      ∙ h.1 0 y refl in
    let later = tail-IsRest offset regs idx y ys h in
    elim (Bool-cases (is_hint y hint || is_hint y hint2)) [
      | inr n ↦ inr (y, ys, suc idx, rw n refl, step_to false here n, later)
      | inl k ↦
          elim (next_of-IsRest offset regs hint hint2 ys (suc idx) left (omega (arith, e)) later) [
            | inl (none_left, run) ↦ inl (rw k none_left, step_to true here k ∙ run)
            | inr (z, zs, idx', kept, run, rest) ↦
                inr (z, zs, idx', rw k kept, step_to true here k ∙ run, rest)
          ]
    ]
  where
    after : Bool → Option (Option PReg × ℕ)
    after b = elim b [
      | true ↦ next_of left regs offset (suc idx) hint hint2
      | false ↦ some (some y, suc idx)
    ]

    step_to :
        (b : Bool)
        → get_elem? regs (wrap (idx + offset) (length regs)) ≡ some y
        → (is_hint y hint || is_hint y hint2) ≡ b
        → next_of (suc left) regs offset idx hint hint2 ≡ after b
    step_to b here k =
        ap
          (λ o. o >>= λ r. elim (is_hint r hint || is_hint r hint2) [
            | true ↦ next_of left regs offset (suc idx) hint hint2
            | false ↦ some (some r, suc idx)
          ])
          here
        ∙ ap after k
