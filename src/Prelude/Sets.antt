-- ===== src/Prelude/Sets.antt =====
-- Finite sets and maps as lists, by a Boolean equality: hash sets and hash maps of the program,
-- whose order is not observed.
use mathlib.Core.Path.{◌≡◌, refl, sym, ◌∙◌, subst}
use mathlib.Core.Logic.{◌≢◌, ◌↔◌, ◌⊎◌, inl, inr}
use mathlib.Core.Bool.{Bool, true, false, ◌||◌}
use mathlib.Core.Option.{Option, none, some}
use mathlib.Core.List.{List, [], ◌∷◌}
use regalloc.Prelude.Tests.{if◌then◌else◌, Bool-cases}

unfoldable pub filter : {A : Type 0} → (A → Bool) → List A → List A
filter p [] = []
filter p (x ∷ xs) = let rest = filter p xs in if p x then x ∷ rest else rest

pub or-cases : (a b : Bool) → (a || b) ≡ true → (a ≡ true) ⊎ (b ≡ true)
or-cases true b h = inl refl
or-cases false b h = inr h

pub or-left : (a b : Bool) → a ≡ true → (a || b) ≡ true
or-left true b h = refl
or-left false b h = cc

pub or-right : (a b : Bool) → b ≡ true → (a || b) ≡ true
or-right true b h = refl
or-right false b h = h

module _ {A : Type 0} (eq : A → A → Bool) where
  unfoldable pub contains : List A → A → Bool
  contains [] a = false
  contains (x ∷ xs) a = eq x a || contains xs a

  unfoldable pub insert : A → List A → List A
  unfolding contains
  insert a xs = if contains xs a then xs else a ∷ xs

  unfoldable pub extend : List A → List A → List A
  unfolding insert
  extend [] xs = xs
  extend (a ∷ as') xs = insert a (extend as' xs)

  unfoldable pub remove : A → List A → List A
  remove a [] = []
  remove a (x ∷ xs) = let rest = remove a xs in if eq x a then rest else x ∷ rest

  unfoldable pub remove_all : List A → List A → List A
  unfolding remove
  remove_all [] xs = xs
  remove_all (a ∷ as') xs = remove a (remove_all as' xs)

  unfoldable pub subset : List A → List A → Bool
  unfolding contains
  subset [] ys = true
  subset (x ∷ xs) ys = let rest = subset xs ys in if contains ys x then rest else false

  module _ {B : Type 0} where
    unfoldable pub get : List (A × B) → A → Option B
    get [] a = none
    get ((k, v) ∷ m) a = if eq k a then some v else get m a

    unfoldable pub erase : A → List (A × B) → List (A × B)
    erase a [] = []
    erase a ((k, v) ∷ m) = let rest = erase a m in if eq k a then rest else (k, v) ∷ rest

    unfoldable pub put : A → B → List (A × B) → List (A × B)
    unfolding erase
    put a v m = (a, v) ∷ erase a m

  module _ (eq_iff : (a b : A) → (eq a b ≡ true) ↔ (a ≡ b)) where
    pub eq_refl : (a : A) → eq a a ≡ true
    eq_refl a = (eq_iff a a).1 refl

    pub eq_cases : (a b : A) → ((a ≡ b) × (eq a b ≡ true)) ⊎ ((a ≢ b) × (eq a b ≡ false))
    eq_cases a b = elim (Bool-cases (eq a b)) [
      | inl e ↦ inl ((eq_iff a b).0 e, e)
      | inr e ↦ inr (λ q. cc ((eq_iff a b).1 q, e), e)
    ]

    -- A member of the set with `a` put in is `a` or was a member.
    pub contains-insert :
        (a b : A) (xs : List A) → contains (insert a xs) b ≡ true → (a ≡ b) ⊎ (contains xs b ≡ true)
    unfolding insert contains
    contains-insert a b xs h = elim (Bool-cases (contains xs a)) [
      | inl e ↦ inr (rw e at h)
      | inr e ↦ elim (eq_cases a b) [ inl (q, _) ↦ inl q | inr (_, n) ↦ inr (rw (e, n) at h) ]
    ]

    pub contains-extend :
        (ins xs : List A) (b : A)
        → contains (extend ins xs) b ≡ true
        → (contains ins b ≡ true) ⊎ (contains xs b ≡ true)
    unfolding extend contains
    contains-extend [] xs b h = inr h
    contains-extend (a ∷ ins) xs b h = elim (contains-insert a b (extend ins xs) h) [
      | inl q ↦ inl (or-left (eq a b) (contains ins b) ((eq_iff a b).1 q))
      | inr k ↦ elim (contains-extend ins xs b k) [
        | inl l ↦ inl (or-right (eq a b) (contains ins b) l)
        | inr r ↦ inr r
      ]
    ]

    pub contains-remove :
        (a b : A) (xs : List A) → contains (remove a xs) b ≡ true → (contains xs b ≡ true) × (a ≢ b)
    unfolding remove contains
    contains-remove a b [] h = cc
    contains-remove a b (x ∷ xs) h = elim (eq_cases x a) [
      | inl (_, t) ↦
          let (k, ne) = contains-remove a b xs (rw t at h) in
          (or-right (eq x b) (contains xs b) k, ne)
      | inr (nx, t) ↦ elim (or-cases (eq x b) (contains (remove a xs) b) (rw t at h)) [
        | inl q ↦ (or-left (eq x b) (contains xs b) q, λ e. nx ((eq_iff x b).0 q ∙ sym e))
        | inr r ↦
            let (k, ne) = contains-remove a b xs r in (or-right (eq x b) (contains xs b) k, ne)
      ]
    ]

    pub remove-contains :
        (a b : A) (xs : List A) → a ≢ b → contains xs b ≡ true → contains (remove a xs) b ≡ true
    unfolding remove contains
    remove-contains a b [] ne h = cc h
    remove-contains a b (x ∷ xs) ne h = elim (or-cases (eq x b) (contains xs b) h) [
      | inl q ↦ elim (eq_cases x a) [
        | inl (r, _) ↦ absurd (ne (sym r ∙ (eq_iff x b).0 q))
        | inr (_, n) ↦ rw n (or-left (eq x b) (contains (remove a xs) b) q)
      ]
      | inr k ↦ elim (Bool-cases (eq x a)) [
        | inl y ↦ rw y (remove-contains a b xs ne k)
        | inr n ↦ rw n (or-right (eq x b) (contains (remove a xs) b) (remove-contains a b xs ne k))
      ]
    ]

    pub contains-remove_all :
        (dels xs : List A) (b : A)
        → contains (remove_all dels xs) b ≡ true
        → (contains xs b ≡ true) × ((d : A) → contains dels d ≡ true → d ≢ b)
    unfolding remove_all contains
    contains-remove_all [] xs b h = (h, λ d k. cc)
    contains-remove_all (a ∷ dels) xs b h =
        let (k, ne) = contains-remove a b (remove_all dels xs) h in
        let (l, others) = contains-remove_all dels xs b k in
        (
          l,
          λ d w e. elim (or-cases (eq a d) (contains dels d) w) [
            | inl q ↦ ne ((eq_iff a d).0 q ∙ e)
            | inr r ↦ others d r e
          ],
        )

    pub contains-filter :
        (p : A → Bool) (xs : List A) (b : A)
        → contains (filter p xs) b ≡ true
        → (contains xs b ≡ true) × (p b ≡ true)
    unfolding filter contains
    contains-filter p [] b h = cc
    contains-filter p (x ∷ xs) b h = elim (Bool-cases (p x)) [
      | inr n ↦
          let (k, l) = contains-filter p xs b (rw n at h) in
          (or-right (eq x b) (contains xs b) k, l)
      | inl y ↦ elim (or-cases (eq x b) (contains (filter p xs) b) (rw y at h)) [
        | inl q ↦ (or-left (eq x b) (contains xs b) q, subst (λ z. p z ≡ true) ((eq_iff x b).0 q) y)
        | inr r ↦ let (k, l) = contains-filter p xs b r in (or-right (eq x b) (contains xs b) k, l)
      ]
    ]

    pub subset_lem :
        (xs ys : List A)
        → subset xs ys ≡ true
        → (b : A) → contains xs b ≡ true
        → contains ys b ≡ true
    unfolding subset contains
    subset_lem [] ys h b k = cc
    subset_lem (x ∷ xs) ys h b k = elim (Bool-cases (contains ys x)) [
      | inr n ↦ cc (rw n at h)
      | inl y ↦ elim (or-cases (eq x b) (contains xs b) k) [
        | inl q ↦ subst (λ z. contains ys z ≡ true) ((eq_iff x b).0 q) y
        | inr r ↦ subset_lem xs ys (rw y at h) b r
      ]
    ]

    module _ {B : Type 0} where
      pub get-erase :
          (a b : A) (m : List (A × B)) (v : B)
          → get (erase a m) b ≡ some v
          → (get m b ≡ some v) × (a ≢ b)
      unfolding get erase
      get-erase a b [] v h = cc
      get-erase a b ((k, w) ∷ m) v h = elim (eq_cases k a) [
        | inl (q, t) ↦
            let (l, ne) = get-erase a b m v (rw t at h) in
            elim (eq_cases k b) [ inl (e, _) ↦ absurd (ne (sym q ∙ e)) | inr (_, n) ↦ (rw n l, ne) ]
        | inr (nk, t) ↦ elim (eq_cases k b) [
          | inl (e, y) ↦ (rw y (rw (t, y) at h), λ q. nk (e ∙ sym q))
          | inr (_, n) ↦ let (l, ne) = get-erase a b m v (rw (t, n) at h) in (rw n l, ne)
        ]
      ]

      pub get-put :
          (a b : A) (w : B) (m : List (A × B)) (v : B)
          → get (put a w m) b ≡ some v
          → ((a ≡ b) × (w ≡ v)) ⊎ ((get m b ≡ some v) × (a ≢ b))
      unfolding get put
      get-put a b w m v h = elim (eq_cases a b) [
        | inl (q, t) ↦ inl (q, cc (rw t at h))
        | inr (ne, t) ↦ inr (get-erase a b m v (rw t at h))
      ]

      pub get-put_self : (a : A) (w : B) (m : List (A × B)) → get (put a w m) a ≡ some w
      unfolding get put
      get-put_self a w m = rw (eq_refl a) refl

      get-erase_ne : (a b : A) (m : List (A × B)) → a ≢ b → get (erase a m) b ≡ get m b
      unfolding get erase
      get-erase_ne a b [] ne = refl
      get-erase_ne a b ((k, w) ∷ m) ne = elim (eq_cases k a) [
        | inl (q, t) ↦ elim (eq_cases k b) [
          | inl (e, _) ↦ absurd (ne (sym q ∙ e))
          | inr (_, n) ↦ rw (t, n) (get-erase_ne a b m ne)
        ]
        | inr (_, t) ↦ elim (Bool-cases (eq k b)) [
          | inl y ↦ rw (t, y) refl
          | inr n ↦ rw (t, n) (get-erase_ne a b m ne)
        ]
      ]

      pub get-put_ne : (a b : A) (w : B) (m : List (A × B)) → a ≢ b → get (put a w m) b ≡ get m b
      unfolding get put
      get-put_ne a b w m ne = elim (eq_cases a b) [
        | inl (q, _) ↦ absurd (ne q)
        | inr (_, n) ↦ rw n (get-erase_ne a b m ne)
      ]
