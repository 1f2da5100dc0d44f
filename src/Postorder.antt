-- ===== src/Postorder.antt =====
-- The postorder walk over the blocks (src/postorder.rs). `none` is an index out of range or too little
-- fuel.
pub mod Fuel
pub mod Reached
use regalloc.Prelude.{
  ℕ, zero, suc, ◌+◌, Option, none, some, ◌>>=◌, List, [], ◌∷◌, ◌++◌, Bool, true, false, length,
  get_elem?, set, replicate,
}
use regalloc.Index.{Block}

-- A block on the stack, with its successors from `next_succ` on.
pub record State : Type 0 where
  pub block : Block
  pub succs : List Block

-- The stack's top is its head.
pub record Walk : Type 0 where
  pub visited : List Bool
  pub stack : List State
  pub ret : List Block

module _ (succ_blocks : Block → List Block) where
  unfoldable pub push : Block → Walk → Walk
  push block w = record w {
    visited = set w.visited block.raw true;
    stack = record { block = block; succs = succ_blocks block } ∷ w.stack;
  }

  -- The body of the loop, for the state at the top and those below it.
  unfoldable pub action : State → List State → Walk → Option Walk
  unfolding push
  action s below w = elim s.succs [
    | [] ↦ some (record w { stack = below; ret = w.ret ++ s.block ∷ [] })
    | succ ∷ later ↦
        let w' : Walk = record w { stack = record s { succs = later } ∷ below } in
        get_elem? w.visited succ.raw >>= λ seen. elim seen [
          | true ↦ some w'
          | false ↦ some (push succ w')
        ]
  ]

  unfoldable pub walk : ℕ → Walk → Option (List Block)
  unfolding action
  walk zero w = none
  walk (suc n) w = elim w.stack [ [] ↦ some w.ret | s ∷ below ↦ action s below w >>= walk n ]

  unfoldable pub calculate : ℕ → ℕ → Block → Option (List Block)
  unfolding walk push
  calculate fuel num_blocks entry =
      let start : Walk = record { visited = replicate num_blocks false; stack = []; ret = [] } in
      get_elem? start.visited entry.raw >>= λ seen. walk fuel (push entry start)
