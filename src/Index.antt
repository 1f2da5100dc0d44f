-- ===== src/Index.antt =====
-- Typed indices, and ranges of instructions (src/index.rs). `Inst` and `Block` are two copies of the
-- type that `define_index!` makes.
use regalloc.Prelude.{
  ◌↔◌, ==_iff, true, ℕ, zero, suc, ◌+◌, ◌-◌, ◌%◌, ◌^◌, ◌≤◌, ◌<◌, ◌≡◌, refl, ap, ◌∙◌, List, [], ◌∷◌,
  ◌++◌, Bool, ◌==◌, ◌!=◌, length, arith,
}

pub record Index : Type 0 where
  pub raw : ℕ

abbrev pub Inst : Type 0
Inst = Index

abbrev pub Block : Type 0
Block = Index

unfoldable pub new : ℕ → Index
new i = record { raw = i % 2 ^ 32 }

unfoldable pub index : Index → ℕ
index x = x.raw

abbrev pub invalid : Index
invalid = record { raw = 0xffff_ffff }

abbrev pub index_eq : Index → Index → Bool
index_eq a b = a.raw == b.raw

abbrev pub is_invalid : Index → Bool
is_invalid x = x.raw == 0xffff_ffff

abbrev pub is_valid : Index → Bool
is_valid x = x.raw != 0xffff_ffff

unfoldable pub next : Index → Index
next x = record { raw = (x.raw + 1) % 2 ^ 32 }

unfoldable pub prev : Index → Index
prev x = record { raw = (x.raw + 2 ^ 32 - 1) % 2 ^ 32 }

-- From the first instruction to just behind the last.
pub record InstRange : Type 0 where
  pub from : Inst
  pub to : Inst

unfoldable pub first : InstRange → Inst
first r = r.from

unfoldable pub last : InstRange → Inst
unfolding prev
last r = prev r.to

unfoldable pub rest : InstRange → InstRange
unfolding next
rest r = record { from = next r.from; to = r.to }

unfoldable pub len : InstRange → ℕ
unfolding index
len r = index r.to - index r.from

-- `(a..b).map(|i| Inst::new(i))`, by the number of instructions left.
unfoldable pub insts_from : ℕ → ℕ → List Inst
unfolding new
insts_from zero i = []
insts_from (suc n) i = new i ∷ insts_from n (i + 1)

unfoldable pub iter : InstRange → List Inst
unfolding insts_from index len
iter r = insts_from (len r) (index r.from)

-- What `InstRange::new` asserts, and that the indices are below the invalid one.
pub record IsRange (r : InstRange) : Type 0 where
  pub ordered : r.from.raw ≤ r.to.raw
  pub valid : r.to.raw < 0xffff_ffff

pub index_ext : {x y : Index} → x.raw ≡ y.raw → x ≡ y
index_ext e = λ i. record { raw = e i }

pub next-raw : (x : Index) → x.raw + 1 < 2 ^ 32 → (next x).raw ≡ x.raw + 1
unfolding next
next-raw x h = omega arith

length-insts_from : (n i : ℕ) → length (insts_from n i) ≡ n
unfolding insts_from
length-insts_from zero i = refl
length-insts_from (suc n) i = ap suc (length-insts_from n (i + 1))

insts_from-snoc : (n i : ℕ) → insts_from (suc n) i ≡ insts_from n i ++ new (i + n) ∷ []
unfolding insts_from
insts_from-snoc zero i = ap (λ j. new j ∷ []) (omega arith)
insts_from-snoc (suc n) i =
    ap (λ l. new i ∷ l)
      (insts_from-snoc n (i + 1) ∙ ap (λ j. insts_from n (i + 1) ++ new j ∷ []) (omega arith))

new-raw : (x : Index) → x.raw < 2 ^ 32 → new x.raw ≡ x
unfolding new
new-raw x h = index_ext (omega arith)

-- The same three facts, with the length of the range as a variable.
module _ (r : InstRange) (h : IsRange r) (n : ℕ) (e : r.to.raw ≡ r.from.raw + suc n) where
  step : (r.from.raw + 1) % 2 ^ 32 ≡ r.from.raw + 1
  step = omega (arith, h.valid)

  whole : len r ≡ suc n
  unfolding len
  whole = omega arith

  iter_front : iter r ≡ first r ∷ iter (rest r)
  unfolding iter first rest
  iter_front = rw (whole, insts_from) (rw (step, new-raw r.from (omega (arith, h.valid)), left))
    where
      left : r.to.raw - (r.from.raw + 1) ≡ n
      left = omega arith

  iter_back : iter r ≡ insts_from n r.from.raw ++ last r ∷ []
  unfolding iter last
  iter_back = rw whole (
      insts_from-snoc n r.from.raw
      ∙ ap (λ x. insts_from n r.from.raw ++ x ∷ []) (index_ext (omega (arith, h.valid))))

-- On a nonempty range iteration starts at `first`, goes on as iteration of `rest`, ends at `last`,
-- and meets `len` instructions.
pub iter-rest :
    (r : InstRange)
    → IsRange r
    → 0 < len r
    → (iter r ≡ first r ∷ iter (rest r))
      × ((body : List Inst) × (iter r ≡ body ++ last r ∷ []))
      × (length (iter r) ≡ len r)
      × IsRange (rest r)
unfolding iter len first last rest
iter-rest r h lt =
    let e : r.to.raw ≡ r.from.raw + suc (len r - 1) = omega arith in
    (
      iter_front r h (len r - 1) e,
      (insts_from (len r - 1) r.from.raw, iter_back r h (len r - 1) e),
      length-insts_from (len r) r.from.raw,
      record { ordered = omega (arith, step r h (len r - 1) e); valid = h.valid },
    )

pub index_iff : (a b : Index) → (index_eq a b ≡ true) ↔ (a ≡ b)
index_iff a b = (
  λ h. index_ext ((==_iff a.raw b.raw).0 h),
  λ q. (==_iff a.raw b.raw).1 (ap (λ (x : Index). x.raw) q),
)
