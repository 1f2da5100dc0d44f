-- ===== src/Checker/Runs.antt =====
-- A block that the checker accepts, run from a configuration that its state describes.
use regalloc.Prelude.{◌≡◌, refl, ap, ◌∙◌, subst, some, List, [], ◌∷◌, some_inj, >>=-eq-some}
use regalloc.ProgPoint.{before_inst, after_inst}
use regalloc.Checker.{CheckerState, top, allocations, CheckerInst, update, update_all, defined}
use regalloc.Checker.Errors.{CheckerError, Verdict, fine, wrong, StackRegs, check}
use regalloc.Checker.Analysis.{report, check_block}
use regalloc.Checker.Meaning.{Config, InstEffect, step, HoldsAllocs, Holds}
use regalloc.Checker.Update.{IsTracked, update-Holds}
use regalloc.Checker.Uses.{InstRight, check-InstRight}

-- What each step needs to be right, from a state on.
abbrev pub TrackedAll : List CheckerInst → CheckerState → Type 0
TrackedAll [] st = Unit {0}
TrackedAll (i ∷ is) st =
    IsTracked i (defined st) × ((st' : CheckerState) → update i st ≡ some st' → TrackedAll is st')

report-none :
    (e : Verdict) (errors : List CheckerError) → report e errors ≡ [] → (e ≡ fine) × (errors ≡ [])
unfolding report
report-none fine errors h = (refl, h)
report-none (wrong e) errors h = cc h

module _ {V : Type 0} where
  -- The instructions lead from a configuration to another, whatever each computes.
  pub data Runs : List CheckerInst → Config V → Config V → Type 0 where
    stop : {c : Config V} → Runs [] c c
    go :
        {i : CheckerInst} {is : List CheckerInst} {c c' : Config V} (x : InstEffect V)
        → Runs is (step x i c) c'
        → Runs (i ∷ is) c c'

  -- Every instruction is right when it is reached and when it is done, whatever each computes.
  abbrev pub EachRight : StackRegs → List CheckerInst → Config V → Type 0
  EachRight machine [] c = Unit {0}
  EachRight machine (i ∷ is) c =
      InstRight machine c before_inst i
      × ((x : InstEffect V)
          → InstRight machine (step x i c) after_inst i × EachRight machine is (step x i c))

  pub Holds-defined : (st : CheckerState) (c : Config V) → Holds st c → HoldsAllocs (defined st) c
  unfolding defined
  Holds-defined top c h = absurd h
  Holds-defined (allocations m) c h = h

  Runs-end : (c c' : Config V) → Runs [] c c' → c ≡ c'
  Runs-end c c' stop = refl

  -- Behind the first instruction no state is unknown.
  pub update_all-Holds_first :
      (i : CheckerInst) (is : List CheckerInst) (st st' : CheckerState) (c c' : Config V)
      → update_all (i ∷ is) st ≡ some st'
      → TrackedAll (i ∷ is) st
      → HoldsAllocs (defined st) c
      → Runs (i ∷ is) c c'
      → Holds st' c'
  unfolding update_all
  update_all-Holds_first i [] st st' c c' h tracked holds (go x r) =
      let (st1, e, h1) = >>=-eq-some (update i st) _ h in
      subst (λ z. Holds z c') (some_inj st1 st' h1)
        (subst (Holds st1) (Runs-end (step x i c) c' r)
          (update-Holds i x st st1 c e tracked.0 holds))
  update_all-Holds_first i (j ∷ is) st st' c c' h tracked holds (go x r) =
      let (st1, e, h1) = >>=-eq-some (update i st) _ h in
      update_all-Holds_first j is st1 st' (step x i c) c' h1 (tracked.1 st1 e)
        (Holds-defined st1 (step x i c) (update-Holds i x st st1 c e tracked.0 holds)) r

  pub update_all-Holds :
      (is : List CheckerInst) (st st' : CheckerState) (c c' : Config V)
      → update_all is st ≡ some st'
      → TrackedAll is st
      → Holds st c
      → Runs is c c'
      → Holds st' c'
  unfolding update_all
  update_all-Holds [] st st' c c' h tracked holds stop =
      subst (λ z. Holds z c) (some_inj st st' h) holds
  update_all-Holds (i ∷ is) st st' c c' h tracked holds r =
      update_all-Holds_first i is st st' c c' h tracked (Holds-defined st c holds) r

  -- A block in which the checker finds no error, from a state that describes the values at its
  -- start: whatever its instructions compute, each of them is right before and after it runs. No
  -- move must bring a value that is not known over one that is, and no parallel move write a
  -- register twice.
  pub check_block-EachRight :
      (machine : StackRegs) (is : List CheckerInst) (st : CheckerState) (c : Config V)
      → check_block machine st is ≡ some []
      → TrackedAll is st
      → HoldsAllocs (defined st) c
      → EachRight machine is c
  unfolding check_block
  check_block-EachRight machine [] st c h tracked holds = tt
  check_block-EachRight machine (i ∷ is) st c h tracked holds =
      let (e, at_i, h1) = >>=-eq-some (check machine st before_inst i) _ h in
      let (st', after_i, h2) = >>=-eq-some (update i st) _ h1 in
      let (e', at_i', h3) = >>=-eq-some (check machine st' after_inst i) _ h2 in
      let (errors, others, h4) = >>=-eq-some (check_block machine st' is) _ h3 in
      let (ok, h5) =
        report-none e (report e' errors) (some_inj (report e (report e' errors)) [] h4) in
      let (ok', none_left) = report-none e' errors h5 in
      (
        check-InstRight machine c st holds before_inst i (at_i ∙ ap some ok),
        λ x.
            let holds' : HoldsAllocs (defined st') (step x i c) =
              Holds-defined st' (step x i c) (update-Holds i x st st' c after_i tracked.0 holds) in
            (
              check-InstRight machine (step x i c) st' holds' after_inst i (at_i' ∙ ap some ok'),
              check_block-EachRight machine is st' (step x i c) (others ∙ ap some none_left)
                  (tracked.1 st' after_i) holds',
            ),
      )
