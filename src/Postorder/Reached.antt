-- ===== src/Postorder/Reached.antt =====
-- Which blocks the walk returns.
use regalloc.Prelude.{
  ℕ, ◌<◌, ◌≡◌, ◌↔◌, ◌⊎◌, inl, inr, refl, sym, ◌∙◌, subst, Option, some, List, [], ◌∷◌, ◌++◌, true,
  false, length, get_elem?, set, All, All-append, All-In, In, In-append_left, In-snoc, length-set,
  lt_of_get, get_elem?-set_self, get_elem?-set_ne, ℕ_discrete,
}
use regalloc.Index
use regalloc.Index.{Block}
use regalloc.Postorder.{State, Walk, push}

module _ (succ_blocks : Block → List Block) where
  -- Reachable along successors.
  pub data Reach (entry : Block) : Block → Type 0 where
    start : (b : Block) → b ≡ entry → Reach entry b
    along : (a b : Block) → Reach entry a → In b (succ_blocks a) → Reach entry b

  abbrev pub Seen : Walk → Block → Type 0
  Seen w b = get_elem? w.visited b.raw ≡ some true

  -- A state on the stack: its block is seen, and so are those of its successors that do not come later.
  abbrev pub StateOk : Walk → State → Type 0
  StateOk w s =
      Seen w s.block
      × ((b : Block) → In b (succ_blocks s.block) → Seen w b ⊎ In b s.succs)
      × ((b : Block) → In b s.succs → In b (succ_blocks s.block))

  abbrev pub Finished : Walk → Block → Type 0
  Finished w b = Seen w b × ((c : Block) → In c (succ_blocks b) → Seen w c)

  abbrev pub blocks_of : List State → List Block
  blocks_of [] = []
  blocks_of (s ∷ ss) = s.block ∷ blocks_of ss

  module _ (num_blocks : ℕ) (entry : Block)
      (closed : (b c : Block) → Reach entry b → In c (succ_blocks b) → c.raw < num_blocks) where
    pub record IsWalk (w : Walk) : Type 0 where
      pub as_many : length w.visited ≡ num_blocks
      pub entry_seen : Seen w entry
      pub reached : (b : Block) → Seen w b → Reach entry b
      pub on_stack : All (StateOk w) w.stack
      pub returned : All (Finished w) w.ret
      pub accounted : (b : Block) → Seen w b → In b w.ret ⊎ In b (blocks_of w.stack)

    pub pop-IsWalk :
        (w : Walk) (s : State) (below : List State)
        → IsWalk w
        → w.stack ≡ s ∷ below
        → s.succs ≡ []
        → IsWalk (record w { stack = below; ret = w.ret ++ s.block ∷ [] })
    pop-IsWalk w s below h q e =
        let (ok, rest) = subst (All (StateOk w)) q h.on_stack in
        let (seen, others, subset) = ok in
        record {
          as_many = h.as_many;
          entry_seen = h.entry_seen;
          reached = h.reached;
          on_stack = rest;
          returned = All-append (Finished w) w.ret (s.block ∷ []) h.returned (
            (seen, λ c m. elim (others c m) [ inl y ↦ y | inr l ↦ absurd (subst (In c) e l) ]),
            tt,
          );
          accounted = λ b y. elim (h.accounted b y) [
            | inl r ↦ inl (In-append_left b w.ret (s.block ∷ []) r)
            | inr r ↦ elim (subst (λ z. In b (blocks_of z)) q r) [
              | inl here ↦
                  inl (subst (λ z. In z (w.ret ++ s.block ∷ [])) (sym here) (In-snoc s.block w.ret))
              | inr later ↦ inr later
            ]
          ];
        }

    abbrev pub later_state : State → List Block → State
    later_state s later = record s { succs = later }

    skip-StateOk :
        (w : Walk) (s : State) (succ : Block) (later : List Block)
        → StateOk w s
        → s.succs ≡ succ ∷ later
        → Seen w succ
        → StateOk w (later_state s later)
    skip-StateOk w s succ later (seen, others, subset) e y = (
      seen,
      (λ b m. elim (others b m) [
        | inl k ↦ inl k
        | inr l ↦ elim (subst (In b) e l) [
          | inl here ↦ inl (subst (Seen w) (sym here) y)
          | inr l' ↦ inr l'
        ]
      ]),
      λ b m. subset b (subst (In b) (sym e) (inr m)),
    )

    pub skip-IsWalk :
        (w : Walk) (s : State) (below : List State) (succ : Block) (later : List Block)
        → IsWalk w
        → w.stack ≡ s ∷ below
        → s.succs ≡ succ ∷ later
        → Seen w succ
        → IsWalk (record w { stack = later_state s later ∷ below })
    skip-IsWalk w s below succ later h q e y =
        let (ok, rest) = subst (All (StateOk w)) q h.on_stack in
        record {
          as_many = h.as_many;
          entry_seen = h.entry_seen;
          reached = h.reached;
          on_stack = (skip-StateOk w s succ later ok e y, rest);
          returned = h.returned;
          accounted = λ b y'. elim (h.accounted b y') [
            | inl r ↦ inl r
            | inr r ↦ inr (subst (λ z. In b (blocks_of z)) q r)
          ];
        }

    module _ (w : Walk) (s : State) (below : List State) (succ : Block) (later : List Block)
        (h : IsWalk w) (q : w.stack ≡ s ∷ below) (e : s.succs ≡ succ ∷ later)
        (fresh : get_elem? w.visited succ.raw ≡ some false) where
      abbrev pub pushed : Walk
      pushed = push succ_blocks succ (record w { stack = later_state s later ∷ below })

      pushed-Seen : Seen pushed succ
      unfolding push
      pushed-Seen =
          get_elem?-set_self w.visited succ.raw true (lt_of_get w.visited succ.raw false fresh)

      Seen-pushed : (b : Block) → Seen w b → Seen pushed b
      unfolding push
      Seen-pushed b y = elim (ℕ_discrete succ.raw b.raw) [
        | yes r ↦ subst (λ z. get_elem? (set w.visited succ.raw true) z ≡ some true) r pushed-Seen
        | no ne ↦ get_elem?-set_ne w.visited succ.raw b.raw true ne ∙ y
      ]

      Seen-pushed_cases : (b : Block) → Seen pushed b → (succ ≡ b) ⊎ Seen w b
      unfolding push
      Seen-pushed_cases b y = elim (ℕ_discrete succ.raw b.raw) [
        | yes r ↦ inl (Index.index_ext r)
        | no ne ↦ inr (sym (get_elem?-set_ne w.visited succ.raw b.raw true ne) ∙ y)
      ]

      StateOk-pushed : (ss : List State) → All (StateOk w) ss → All (StateOk pushed) ss
      StateOk-pushed [] a = tt
      StateOk-pushed (t ∷ ts) ((seen, others, subset), rest) = (
        (
          Seen-pushed t.block seen,
          (λ b m. elim (others b m) [ inl k ↦ inl (Seen-pushed b k) | inr l ↦ inr l ]),
          subset,
        ),
        StateOk-pushed ts rest,
      )

      Finished-pushed : (bs : List Block) → All (Finished w) bs → All (Finished pushed) bs
      Finished-pushed [] a = tt
      Finished-pushed (b ∷ bs) ((seen, succs), rest) =
          ((Seen-pushed b seen, λ c m. Seen-pushed c (succs c m)), Finished-pushed bs rest)

      pub push-IsWalk : IsWalk pushed
      unfolding push
      push-IsWalk =
          let (ok, rest) = subst (All (StateOk w)) q h.on_stack in
          let (seen, others, subset) = ok in
          record {
            as_many = length-set w.visited succ.raw true ∙ h.as_many;
            entry_seen = Seen-pushed entry h.entry_seen;
            reached = λ b y. elim (Seen-pushed_cases b y) [
              | inl r ↦
                  along s.block b (h.reached s.block seen)
                    (subset b (subst (In b) (sym e) (inl (sym r))))
              | inr y' ↦ h.reached b y'
            ];
            on_stack = (
              (pushed-Seen, (λ b m. inr m), λ b m. m),
              (
                skip-StateOk pushed s succ later
                    (
                      Seen-pushed s.block seen,
                      (λ b m. elim (others b m) [ inl k ↦ inl (Seen-pushed b k) | inr l ↦ inr l ]),
                      subset,
                    )
                    e pushed-Seen,
                StateOk-pushed below rest,
              ),
            );
            returned = Finished-pushed w.ret h.returned;
            accounted = λ b y. elim (Seen-pushed_cases b y) [
              | inl r ↦ inr (inl (sym r))
              | inr y' ↦ elim (h.accounted b y') [
                | inl k ↦ inl k
                | inr k ↦ inr (inr (subst (λ z. In b (blocks_of z)) q k))
              ]
            ];
          }

    -- At the end, exactly the blocks that can be reached.
    abbrev pub Answer : Option (List Block) → Type 0
    Answer r = (ret : List Block) × (r ≡ some ret) × ((b : Block) → In b ret ↔ Reach entry b)

    pub ended : (w : Walk) → IsWalk w → w.stack ≡ [] → Answer (some w.ret)
    ended w h q = (w.ret, refl, λ b. (in_ret b, out b))
      where
        in_ret : (b : Block) → In b w.ret → Reach entry b
        in_ret b m = h.reached b (All-In (Finished w) w.ret b h.returned m).0

        sees : (b : Block) → Reach entry b → Seen w b
        sees b (start _ e) = subst (Seen w) (sym e) h.entry_seen
        sees b (along a _ r m) = elim (h.accounted a (sees a r)) [
          | inl k ↦ (All-In (Finished w) w.ret a h.returned k).1 b m
          | inr k ↦ absurd (subst (λ z. In a (blocks_of z)) q k)
        ]

        out : (b : Block) → Reach entry b → In b w.ret
        out b r = elim (h.accounted b (sees b r)) [
          | inl m ↦ m
          | inr m ↦ absurd (subst (λ z. In b (blocks_of z)) q m)
        ]
