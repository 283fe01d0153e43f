-- ===== src/Cli/Reported.antt =====
-- What the command `run` reports of a run: each collected test, once.
use mathlib.Core.List.Perm
use conflict_graph.Prelude.{
  ℕ, ◌+◌, ◌≤◌, ◌≡◌, ◌↔◌, refl, sym, subst, Bool, true, false, Bool-cases, inl, inr, Option, some,
  List, [], ◌∷◌, All, Perm, length, length-Perm, length-map, if◌then◌else◌, ◌==◌, arith, ◌∙◌,
}
use conflict_graph.Prelude.Int.{ℤ}
use conflict_graph.Prelude.Text.{Text}
use conflict_graph.Prelude.Dict.{Dict}
use conflict_graph.Prelude.Float.{Float, IsOrdered, nought}
use conflict_graph.Types.Enums.{RiskPolicy}
use conflict_graph.Types.Stats.{TestIdentity}
use conflict_graph.Types.Prediction.{PairPrediction}
use conflict_graph.Types.Plan.{Schedule}
use conflict_graph.Config.{Config}
use conflict_graph.Config.Valid.{Within}
use conflict_graph.Config.Mapping.{Values, from_mapping}
use conflict_graph.Scheduler.Correct.{distinct_ids}
use conflict_graph.Scheduler.Progress.{ids}
use conflict_graph.Scheduler.Static.{Surroundings}
use conflict_graph.Executor.{ExecutionResult, has_passed}
use conflict_graph.Executor.Outcome.{Strings, Observed}
use conflict_graph.Executor.Workers.{Run, Steps, start, answer}
use conflict_graph.Executor.Conserved.{reported}
use conflict_graph.Executor.Finishing.{HasEnded}
use conflict_graph.Executor.Returning.{finish}
use conflict_graph.Executor.Started.{IsAssigned, start-some, ended-reported}
use conflict_graph.Cli.{View, graph_predictions}
use conflict_graph.Cli.Planned.{Planned, planned_total}
use conflict_graph.Cli.Run.{
  RunArtifact, run_config, passed_count, run_planned, run_artifact, run_exit,
}

exit_zero : (n m : ℕ) → (◌≡◌ {A = ℕ} (if n == m then 0 else 1) 0) ↔ (n ≡ m)
exit_zero n m = ground arith

module _ {F : Type 0} ⦃fl : Float F⦄ where
  abbrev pub AllPassed : List (ExecutionResult F) → Type 0
  AllPassed = All (λ r. has_passed r.status ≡ true)

  passed_count-le : (rs : List (ExecutionResult F)) → passed_count rs ≤ length rs
  passed_count-le [] = omega arith
  passed_count-le (r ∷ rs) = ground (arith, passed_count-le rs)

  all_counted : (rs : List (ExecutionResult F)) → AllPassed rs → passed_count rs ≡ length rs
  all_counted [] a = refl
  all_counted (r ∷ rs) (e, a) = rw e (omega (arith, all_counted rs a))

  counted_all : (rs : List (ExecutionResult F)) → passed_count rs ≡ length rs → AllPassed rs
  counted_all [] h = tt
  counted_all (r ∷ rs) h = elim (Bool-cases (has_passed r.status)) [
    | inl e ↦ let h' = rw e at h in (e, counted_all rs (omega (arith, h')))
    | inr e ↦ let h' = rw e at h in absurd (omega (arith, h', passed_count-le rs))
  ]

  -- What the artifact says of the collected tests.
  pub record IsReport (tests : List TestIdentity) (artifact : RunArtifact F) : Type 0 where
    pub each_once : Perm (reported artifact.executions) (distinct_ids tests)
    pub all_tests : artifact.tests ≡ length (distinct_ids tests)
    pub divided : artifact.passed + artifact.failed ≡ artifact.tests
    pub succeeds : (run_exit artifact ≡ 0) ↔ AllPassed artifact.executions

  artifact-IsReport :
      (run_id : Text) (settings : Config F) (known : List (PairPrediction F)) (s : Schedule F)
      (tests : List TestIdentity) (results : List (ExecutionResult F))
      → Perm (reported results) (distinct_ids tests)
      → IsReport tests (run_artifact run_id settings known s results)
  unfolding run_artifact run_exit
  artifact-IsReport run_id settings known s tests results p = record {
    each_once = p;
    all_tests = sym (length-map (λ r. r.test_id) results) ∙ length-Perm p;
    divided = omega (arith, passed_count-le results);
    succeeds = (
      (λ h. counted_all results ((exit_zero (passed_count results) (length results)).0 h)),
      (λ a. (exit_zero (passed_count results) (length results)).1 (all_counted results a)),
    );
  }

module _ {F : Type 0} ⦃fl : Float F⦄ (o : IsOrdered F) {V : Type 0} (view : View F V)
    (values : Values F V) (on_linux : Bool) (getenv : Text → Option Text) (int : Text → Option ℤ)
    (mapping : Dict Text V) (settings : Config F)
    (loaded : from_mapping values on_linux getenv int mapping ≡ some settings) (now : ℕ)
    (around : Surroundings F) (requested : Option ℤ)
    (asked : (z : ℤ) → requested ≡ some z → Within 1 1024 z) (policy : Option RiskPolicy)
    (graph : Option (Dict Text V)) (predictions : List (PairPrediction F))
    (readable : graph_predictions view now graph ≡ some predictions) (tests : List TestIdentity)
    (run_id : Text) (timeout : F) (positive : fl.le timeout nought ≡ false) where
  abbrev made : Option (List (PairPrediction F) × Schedule F)
  made = run_planned view now around settings requested policy graph tests run_id timeout

  run_planned_lem : Planned o view requested settings tests made
  unfolding run_planned
  run_planned_lem = rw positive (
      planned_total o view values on_linux getenv int mapping now around settings requested policy
        graph tests predictions (some run_id) loaded asked readable)

  -- With a configuration that `from_mapping` returns, a requested number of workers from 1 to 1024 or
  -- none, a latest graph whose predictions can be read, and a positive time limit: when `run` has
  -- made its schedule and the workers have all returned without a cancellation, whatever the order
  -- of their steps, the artifact of the run has exactly one result of each collected test, its
  -- `passed` and `failed` add up to them, and the exit code is 0 exactly when every test has passed.
  pub run_artifact-IsReport :
      (str : Strings) (executable directory : Text) (fail_fast : Bool)
      (known : List (PairPrediction F)) (s : Schedule F) (begin e : Run F)
      → made ≡ some (known, s)
      → start false s ≡ some begin
      → Steps str (run_config executable directory timeout) run_id fail_fast begin e
      → All HasEnded e.workers
      → e.cancelled ≡ false
      → IsReport tests (run_artifact run_id settings known s (answer e))
  run_artifact-IsReport str executable directory fail_fast known s begin e h g rs all c =
      let p = run_planned_lem in
      let same_schedule : p.schedule ≡ s = let q = p.returned in cc in
      artifact-IsReport run_id settings known s tests (answer e) (
        Perm.trans
          (ended-reported str (run_config executable directory timeout) run_id s fail_fast begin e
            (subst (IsAssigned {F = F}) same_schedule p.assigned) g rs all c)
          (subst (λ x. Perm (ids x.tests) (distinct_ids tests)) same_schedule p.same_tests))

  -- Under the same conditions, without fail-fast: `run` makes its schedule, and whatever its tests
  -- do the workers can all return without a cancellation.
  pub run_planned_total :
      (str : Strings) (executable directory : Text) (seen : Observed F)
      → (known : List (PairPrediction F)) × (s : Schedule F) × (begin : Run F) × (e : Run F) × (made
          ≡ some (known, s))
        × (start false s ≡ some begin)
        × Steps str (run_config executable directory timeout) run_id false begin e
        × All HasEnded e.workers
        × (e.cancelled ≡ false)
  run_planned_total str executable directory seen =
      let p = run_planned_lem in
      let begun = start-some false p.schedule p.assigned in
      let (e, rs, all, kept) =
        finish str (run_config executable directory timeout) run_id false begun.run seen
          begun.sound in
      (p.known, p.schedule, begun.run, e, p.returned, begun.started, rs, all, kept refl begun.going)
