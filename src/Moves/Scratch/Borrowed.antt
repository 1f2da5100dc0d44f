-- ===== src/Moves/Scratch/Borrowed.antt =====
-- Stack-to-stack moves through a borrowed register: its value is saved before it is used and back
-- in place whenever it is read, and at the end.
use regalloc.Prelude.{
  ◌≡◌, ◌≢◌, inl, inr, refl, sym, ap, ◌∙◌, subst, some, List, [], ◌∷◌, ◌++◌, true, false, Bool-cases,
}
use regalloc.Allocation.{Allocation}
use regalloc.Moves.{Move}
use regalloc.Moves.Store.{Store, write, write_self, write_ne, exec, alloc_cases}
use regalloc.Moves.Scratch.{MoveAndScratchResolver, Dirty, through, expand, overwrite}

pub exec-append :
    {T V : Type 0} (xs ys : List (Move T)) (s : Store V) → exec (xs ++ ys) s ≡ exec ys (exec xs s)
unfolding exec
exec-append [] ys s = refl
exec-append (m ∷ xs) ys s = exec-append xs ys (write s m.dst (s m.src))

-- The move does not touch the slot `q`.
abbrev pub Leaves : {T : Type 0} → Allocation → Move T → Type 0
Leaves q m = (m.src ≢ q) × (m.dst ≢ q)

pub stack_ne :
    {S : Type 0} (res : MoveAndScratchResolver S) (r a : Allocation)
    → res.is_stack_alloc r ≡ false
    → res.is_stack_alloc a ≡ true
    → a ≢ r
stack_ne res r a not_stack h e = cc (h, ap res.is_stack_alloc e, not_stack)

module _ {S T V : Type 0} (res : MoveAndScratchResolver S) (default : T) (r q : Allocation)
    (apart : r ≢ q) (not_stack : res.is_stack_alloc r ≡ false) where
  -- The store `t` of the expanded moves beside the store `s` of the moves as they were.
  pub record Tracks (s t : Store V) (d : Dirty) : Type 0 where
    pub elsewhere : (a : Allocation) → a ≢ r → a ≢ q → t a ≡ s a
    pub scratch : d.scratch_dirty ≡ false → t r ≡ s r
    pub saved : d.save_dirty ≡ false → t q ≡ s r
    pub flags : d.scratch_dirty ≡ true → d.save_dirty ≡ false

  abbrev pub moved_store : Move T → Store V → Store V
  moved_store m s = write s m.dst (s m.src)

  -- Saving the register.
  save-Tracks :
      (s t : Store V) (d : Dirty)
      → Tracks s t d
      → d.save_dirty ≡ true
      → Tracks s (write t q (t r)) (record { scratch_dirty = false; save_dirty = false })
  save-Tracks s t d h e = record {
    elsewhere = λ a nr nq. write_ne t q a (t r) (λ x. nq (sym x)) ∙ h.elsewhere a nr nq;
    scratch = λ _. write_ne t q r (t r) (λ x. apart (sym x)) ∙ clean;
    saved = λ _. write_self t q (t r) ∙ clean;
    flags = λ z. refl;
  }
    where
      clean : t r ≡ s r
      clean = elim (Bool-cases d.scratch_dirty) [ inl y ↦ cc (e, h.flags y) | inr n ↦ h.scratch n ]

  -- A stack-to-stack move, once the register is saved.
  through-Tracks :
      (m : Move T) (s t : Store V) (d : Dirty)
      → Tracks s t d
      → d.save_dirty ≡ false
      → Leaves q m
      → m.src ≢ r
      → m.dst ≢ r
      → Tracks
          (moved_store m s)
          (exec (through res default r (some q) m) t)
          (record { scratch_dirty = true; save_dirty = false })
  unfolding exec
  through-Tracks m s t d h clean ok ns nd =
      let t1 = write t r (t m.src) in
      let held : t1 r ≡ s m.src = write_self t r (t m.src) ∙ h.elsewhere m.src ns ok.0 in
      record {
        elsewhere = λ a nr nq. elim (alloc_cases m.dst a) [
          | inl (e, _) ↦
              subst (λ x. write t1 m.dst (t1 r) x ≡ write s m.dst (s m.src) x) e
                (write_self t1 m.dst (t1 r) ∙ held ∙ sym (write_self s m.dst (s m.src)))
          | inr (ne, _) ↦
              write_ne t1 m.dst a (t1 r) ne
              ∙ write_ne t r a (t m.src) (λ x. nr (sym x))
              ∙ h.elsewhere a nr nq
              ∙ sym (write_ne s m.dst a (s m.src) ne)
        ];
        scratch = λ z. cc z;
        saved = λ z.
            write_ne t1 m.dst q (t1 r) ok.1
            ∙ write_ne t r q (t m.src) apart
            ∙ h.saved clean
            ∙ sym (write_ne s m.dst r (s m.src) nd);
        flags = λ z. refl;
      }

  pub expand-Tracks :
      (m : Move T) (s t : Store V) (d : Dirty)
      → Tracks s t d
      → Leaves q m
      → m.src ≢ r
      → m.dst ≢ r
      → Tracks
          (moved_store m s)
          (exec (expand res default r (some q) m d).0 t)
          (expand res default r (some q) m d).1
  unfolding expand exec
  expand-Tracks m s t d h ok ns nd = elim (Bool-cases d.save_dirty) [
    | inl e ↦ rw e (
        through-Tracks m s (write t q (t r)) (record { scratch_dirty = false; save_dirty = false })
          (save-Tracks s t d h e) refl ok ns nd)
    | inr e ↦ rw e (through-Tracks m s t d h e ok ns nd)
  ]

  -- Putting the saved value back.
  pub restored :
      (s t : Store V) (d : Dirty)
      → Tracks s t d
      → d.scratch_dirty ≡ true
      → Tracks s (write t r (t q)) (record d { scratch_dirty = false })
  restored s t d h e = record {
    elsewhere = λ a nr nq. write_ne t r a (t q) (λ x. nr (sym x)) ∙ h.elsewhere a nr nq;
    scratch = λ z. write_self t r (t q) ∙ h.saved (h.flags e);
    saved = λ z. write_ne t r q (t q) apart ∙ h.saved z;
    flags = λ z. cc z;
  }

  -- A move as it stands, with the register in place if it is read.
  pub plain-Tracks :
      (m : Move T) (s t : Store V) (d : Dirty)
      → Tracks s t d
      → Leaves q m
      → (m.src ≡ r → d.scratch_dirty ≡ false)
      → Tracks (moved_store m s) (write t m.dst (t m.src)) (overwrite res default r (some q) m d)
  unfolding overwrite
  plain-Tracks m s t d h ok clean = elim (alloc_cases m.dst r) [
    | inl (e, y) ↦ rw y (record {
      elsewhere = at_other;
      scratch = λ z. subst (λ x. write t m.dst (t m.src) x ≡ write s m.dst (s m.src) x) e written;
      saved = λ z. cc z;
      flags = λ z. cc z;
    })
    | inr (ne, n) ↦ rw n (record {
      elsewhere = at_other;
      scratch = λ z.
          write_ne t m.dst r (t m.src) ne ∙ h.scratch z ∙ sym (write_ne s m.dst r (s m.src) ne);
      saved = λ z.
          write_ne t m.dst q (t m.src) ok.1 ∙ h.saved z ∙ sym (write_ne s m.dst r (s m.src) ne);
      flags = h.flags;
    })
  ]
    where
      source : t m.src ≡ s m.src
      source = elim (alloc_cases m.src r) [
        | inl (e, _) ↦ ap t e ∙ h.scratch (clean e) ∙ ap s (sym e)
        | inr (ne, _) ↦ h.elsewhere m.src ne ok.0
      ]

      written : write t m.dst (t m.src) m.dst ≡ write s m.dst (s m.src) m.dst
      written = write_self t m.dst (t m.src) ∙ source ∙ sym (write_self s m.dst (s m.src))

      at_other :
          (a : Allocation) → a ≢ r → a ≢ q → write t m.dst (t m.src) a ≡ write s m.dst (s m.src) a
      at_other a nr nq = elim (alloc_cases m.dst a) [
        | inl (e, _) ↦ subst (λ x. write t m.dst (t m.src) x ≡ write s m.dst (s m.src) x) e written
        | inr (ne, _) ↦
            write_ne t m.dst a (t m.src) ne
            ∙ h.elsewhere a nr nq
            ∙ sym (write_ne s m.dst a (s m.src) ne)
      ]
