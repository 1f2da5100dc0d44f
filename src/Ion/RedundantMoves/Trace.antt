-- ===== src/Ion/RedundantMoves/Trace.antt =====
-- Whole programs of moves and instructions with the redundant moves taken out.
use regalloc.Prelude.{
  ◌≡◌, refl, sym, ap, ◌∙◌, Option, some, List, [], ◌∷◌, Bool, true, false, not, All,
}
use regalloc.Reg.VReg.{VReg}
use regalloc.Allocation.{Allocation}
use regalloc.Moves.Store.{Store, write, write_ne}
use regalloc.Ion.RedundantMoves.{
  RedundantMoveEliminator, empty, tracked, clear_alloc, clear, Event, moved, written, crossed,
  process_all,
}
use regalloc.Ion.RedundantMoves.Copies.{IsSound, clear_alloc-IsSound}
use regalloc.Ion.RedundantMoves.Sound.{process_move-Processed}

-- The kinds of both ends of a move can be read.
abbrev pub IsTracked : Event → Type 0
IsTracked (moved from to v) = (t : Bool) × (tracked from to ≡ some t)
IsTracked _ = Unit {0}

-- What the program computes is a parameter: `value` is what an instruction writes, and `jump` what
-- another block leaves, by the events that are still to come.
module _ {V : Type 0} (value : List Event → Allocation → Store V → V)
    (jump : List Event → Store V → Store V) where
  unfoldable pub happen : Event → List Event → Store V → Store V
  happen (moved from to v) es s = write s to (s from)
  happen (written a) es s = write s a (value es a s)
  happen crossed es s = jump es s

  -- The whole program.
  unfoldable pub run_events : List Event → Store V → Store V
  unfolding happen
  run_events [] s = s
  run_events (e ∷ es) s = run_events es (happen e es s)

  -- The program without the events that do not stay.
  unfoldable pub run_staying : List Bool → List Event → Store V → Store V
  unfolding happen
  run_staying (true ∷ stay) (e ∷ es) s = run_staying stay es (happen e es s)
  run_staying (false ∷ stay) (e ∷ es) s = run_staying stay es s
  run_staying _ _ s = s

  empty-IsSound : (s : Store V) → IsSound empty s
  empty-IsSound s = record { known = λ x y o k. cc k; listed = λ x y o k. cc k }

  staying_move :
      (elide : Bool) (stay : List Bool) (from to : Allocation) (v : Option VReg) (es : List Event)
      (s : Store V)
      → (elide ≡ true → write s to (s from) ≡ s)
      → run_staying (not elide ∷ stay) (moved from to v ∷ es) s
        ≡ run_staying stay es (write s to (s from))
  unfolding run_staying happen
  staying_move true stay from to v es s h = ap (run_staying stay es) (sym (h refl))
  staying_move false stay from to v es s h = refl

  process_all-run :
      (es : List Event) (r : RedundantMoveEliminator) (s : Store V)
      → All IsTracked es
      → IsSound r s
      → (stay : List Bool) × (r' : RedundantMoveEliminator) × (process_all r es ≡ some (stay, r'))
        × (run_staying stay es s ≡ run_events es s)
        × IsSound r' (run_events es s)
  unfolding process_all run_events run_staying
  process_all-run [] r s ok h = ([], r, refl, refl, h)
  process_all-run (moved from to v ∷ es) r s ok h =
      let (t, tr) = ok.0 in
      let (elide, r1, runs, p) = process_move-Processed r s from to v t h tr in
      let (stay, r', rest, same, sound) =
        process_all-run es r1 (write s to (s from)) ok.1 p.sound in
      (
        not elide ∷ stay,
        r',
        rw runs (rw rest refl),
        staying_move elide stay from to v es s p.harmless ∙ same,
        sound,
      )
  process_all-run (written a ∷ es) r s ok h =
      let s1 = write s a (value es a s) in
      let h1 =
        clear_alloc-IsSound r s h a s1 (λ x ne. write_ne s a x (value es a s) (λ q. ne (sym q))) in
      let (stay, r', rest, same, sound) = process_all-run es (clear_alloc r a) s1 ok.1 h1 in
      (true ∷ stay, r', rw rest refl, same, sound)
  process_all-run (crossed ∷ es) r s ok h =
      let (stay, r', rest, same, sound) =
        process_all-run es (clear r) (jump es s) ok.1 (empty-IsSound (jump es s)) in
      (true ∷ stay, r', rw rest refl, same, sound)

  -- For every sequence of moves between allocations whose kinds can be read, of writes by
  -- instructions and of block boundaries, whatever the instructions compute: the eliminator, begun
  -- empty, returns, and without the moves that it elides the sequence leaves the same values in all
  -- places, from any store.
  pub process_all-run_events :
      (es : List Event) (s : Store V)
      → All IsTracked es
      → (stay : List Bool) × (r' : RedundantMoveEliminator) × (process_all empty es
          ≡ some (stay, r'))
        × (run_staying stay es s ≡ run_events es s)
  process_all-run_events es s ok =
      let (stay, r', runs, same, _) = process_all-run es empty s ok (empty-IsSound s) in
      (stay, r', runs, same)
