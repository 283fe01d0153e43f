-- ===== src/Executor/Stopped.antt =====
-- What fail-fast does to a run of python/conflictgraph/executor.py.
use conflict_graph.Prelude.{
  ◌≡◌, refl, Bool, true, false, not, ◌||◌, ◌++◌, some, List, [], ◌∷◌, replicate, sort_by, arith,
  Perm, >>=-eq-some,
}
use conflict_graph.Prelude.Text.{Text}
use conflict_graph.Prelude.Float.{Float}
use conflict_graph.Types.Plan.{Schedule}
use conflict_graph.Executor.{ExecutionResult, has_passed}
use conflict_graph.Executor.Outcome.{Strings, PytestConfig, run_one}
use conflict_graph.Executor.Workers.{
  Run, Step, Steps, take_test, find_none, see_cancelled, end_test, cancel, stay, later, start,
  put_all, before, run_of, finished,
}
use conflict_graph.Executor.Conserved.{begun, Steps-begun}

-- A result of the list is not a pass.
abbrev pub has_failure : {F : Type 0} → List (ExecutionResult F) → Bool
has_failure [] = false
has_failure (r ∷ results) = not (has_passed r.status) || has_failure results

has_failure-append :
    {F : Type 0} (results : List (ExecutionResult F)) (r : ExecutionResult F)
    → has_failure (results ++ r ∷ []) ≡ (has_failure results || not (has_passed r.status))
has_failure-append [] r = ground arith
has_failure-append (x ∷ results) r = ground (arith, has_failure-append results r)

module _ {F : Type 0} (str : Strings) (config : PytestConfig F) (run_id : Text) where
  Step-stopped :
      {r s : Run F}
      → Step str config run_id true r s
      → (has_failure r.results ≡ true → r.cancelled ≡ true)
      → has_failure s.results ≡ true
      → s.cancelled ≡ true
  unfolding finished
  Step-stopped (take_test i c h) k f = k f
  Step-stopped (find_none i c h) k f = k f
  Step-stopped (see_cancelled i c h) k f = k f
  Step-stopped {r} (end_test i {t} {q} o h) k f =
      ground (arith, k, has_failure-append r.results (run_one str config run_id t o))
  Step-stopped (cancel c) k f = refl

  Steps-stopped :
      {r s : Run F}
      → Steps str config run_id true r s
      → r.results ≡ []
      → has_failure s.results ≡ true
      → s.cancelled ≡ true
  Steps-stopped {r} stay e f = let n : has_failure r.results ≡ false = rw e refl in cc
  Steps-stopped (later rs st) e f = Step-stopped st (Steps-stopped rs e) f

start-results :
    {F : Type 0} ⦃fl : Float F⦄ (cancelled : Bool) (schedule : Schedule F) (begin : Run F)
    → start cancelled schedule ≡ some begin
    → begin.results ≡ []
unfolding start
start-results cancelled schedule begin h =
    let (queues, e, k) =
      >>=-eq-some (put_all (sort_by before schedule.tests) (replicate schedule.workers [])) _ h in
    let q : run_of cancelled queues ≡ begin = cc in rw (← q) refl

-- Under fail-fast, in any order of the workers: once the results of an execution have one that is not
-- a pass, the execution is cancelled and stays so, and no worker takes another test, so that the tests
-- with a result and those in hand stay the same.
pub failure-begun :
    {F : Type 0} ⦃fl : Float F⦄ (str : Strings) (config : PytestConfig F) (run_id : Text)
    (cancelled : Bool) (schedule : Schedule F) {begin r s : Run F}
    → start cancelled schedule ≡ some begin
    → Steps str config run_id true begin r
    → Steps str config run_id true r s
    → has_failure r.results ≡ true
    → (r.cancelled ≡ true) × (s.cancelled ≡ true) × Perm (begun s) (begun r)
failure-begun str config run_id cancelled schedule {begin} e run more f =
    let c = Steps-stopped str config run_id run (start-results cancelled schedule begin e) f in
    let (p, d) = Steps-begun str config run_id true more c in (c, d, p)
