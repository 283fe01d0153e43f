-- ===== src/Cli/Run.antt =====
-- The command `run` of python/conflictgraph/cli.py: what it does before and after the execution.
use conflict_graph.Prelude.{
  ℕ, ◌-◌, Option, none, some, List, [], ◌∷◌, if◌then◌else◌, ◌==◌, length, foldl,
}
use conflict_graph.Prelude.Int.{ℤ}
use conflict_graph.Prelude.Text.{Text, text_eq, codes}
use conflict_graph.Prelude.Dict.{Dict}
use conflict_graph.Prelude.Sets.{add_new}
use conflict_graph.Prelude.Float.{Float, nought}
use conflict_graph.Types.Enums.{RiskPolicy}
use conflict_graph.Types.Stats.{TestIdentity}
use conflict_graph.Types.Prediction.{PairPrediction}
use conflict_graph.Types.Plan.{Schedule}
use conflict_graph.Config.{Config}
use conflict_graph.Executor.{ExecutionResult, has_passed}
use conflict_graph.Executor.Outcome.{PytestConfig}
use conflict_graph.Metrics.{count}
use conflict_graph.Scheduler.Static.{Surroundings}
use conflict_graph.Cli.{View, planned}

-- The version of a set of model versions.
abbrev pub version_label : List Text → Text
version_label [] = codes "duration-only"
version_label (version ∷ []) = version
version_label (version ∷ other ∷ versions) = codes "mixed"

-- policy.value
abbrev pub policy_value : RiskPolicy → Text
policy_value RiskPolicy.aggressive = codes "aggressive"
policy_value RiskPolicy.balanced = codes "balanced"
policy_value RiskPolicy.safe = codes "safe"

-- The artifact of a run.
pub record RunArtifact (F : Type 0) : Type 0 where
  pub id : Text
  pub status : Text
  pub scheduler_policy : Text
  pub worker_count : ℕ
  pub trace_mode : Text
  pub model_version : Text
  pub tests : ℕ
  pub passed : ℕ
  pub failed : ℕ
  pub test_seconds : F
  pub schedule : Schedule F
  pub executions : List (ExecutionResult F)
  pub predictions : List (PairPrediction F)

-- PytestConfig(timeout_seconds=timeout), with the interpreter and the working directory.
abbrev pub run_config : {F : Type 0} → Text → Text → F → PytestConfig F
run_config executable directory timeout = record {
  executable = executable;
  working_directory = directory;
  timeout_seconds = timeout;
  extra_args = [];
  environment = [];
  output_limit_bytes = 1_000_000;
}

module _ {F : Type 0} ⦃fl : Float F⦄ where
  -- {prediction.model_version for prediction in predictions}
  abbrev pub model_versions : List (PairPrediction F) → List Text
  model_versions = foldl (λ versions p. add_new p.model_version versions) []

  abbrev pub passed_count : List (ExecutionResult F) → ℕ
  passed_count = count (λ r. has_passed r.status)

  -- `run` up to the execution; `none` is the BadParameter of the time limit or an error of the plan.
  unfoldable pub run_planned :
      {V : Type 0}
      → View F V
      → ℕ
      → Surroundings F
      → Config F
      → Option ℤ
      → Option RiskPolicy
      → Option (Dict Text V)
      → List TestIdentity
      → Text
      → F
      → Option (List (PairPrediction F) × Schedule F)
  unfolding planned
  run_planned view now around settings workers policy graph tests run_id timeout =
      if fl.le timeout nought
      then none
      else planned view now around settings workers policy graph tests (some run_id)

  -- What `run` saves of the results that the execution returned.
  unfoldable pub run_artifact :
      Text
      → Config F
      → List (PairPrediction F)
      → Schedule F
      → List (ExecutionResult F)
      → RunArtifact F
  run_artifact run_id settings predictions schedule results =
      let passed = passed_count results in
      record {
        id = run_id;
        status = if passed == length results then codes "COMPLETED" else codes "FAILED";
        scheduler_policy = policy_value schedule.policy;
        worker_count = schedule.workers;
        trace_mode = settings.tracing.mode;
        model_version = version_label (model_versions predictions);
        tests = length results;
        passed = passed;
        failed = length results - passed;
        test_seconds = foldl (λ total r. fl.add total r.duration_seconds) nought results;
        schedule = schedule;
        executions = results;
        predictions = predictions;
      }

  -- The exit code of the command.
  unfoldable pub run_exit : RunArtifact F → ℕ
  run_exit artifact = if artifact.passed == artifact.tests then 0 else 1
