-- ===== src/Executor.antt =====
-- `update_duration_stats` of python/conflictgraph/executor.py.
pub mod Executions
pub mod Outcome
pub mod Collect
pub mod Workers
pub mod Conserved
pub mod Messages
pub mod Finishing
pub mod Returning
pub mod Ordered
pub mod Started
pub mod Stopped
pub mod InOrder
use conflict_graph.Prelude.{
  ℕ, ◌+◌, ◌-◌, Bool, true, false, Option, none, some, List, [], ◌∷◌, if◌then◌else◌, ◌>>=◌,
}
use conflict_graph.Prelude.Int.{ℤ}
use conflict_graph.Prelude.Text.{Text, text_eq}
use conflict_graph.Prelude.Dict.{Dict, get, put}
use conflict_graph.Prelude.Float.{Float, unit}
use conflict_graph.Types.Enums.{ExecutionStatus}
use conflict_graph.Types.Stats.{TestStats}
use conflict_graph.Types.Events.{of_ℕ}

-- status == ExecutionStatus.PASSED
abbrev pub has_passed : ExecutionStatus → Bool
has_passed ExecutionStatus.passed = true
has_passed _ = false

-- `ExecutionResult` of python/conflictgraph/types.py; times are in nanoseconds.
pub record ExecutionResult (F : Type 0) : Type 0 where
  pub execution_id : Text
  pub run_id : Text
  pub test_id : Text
  pub node_id : Text
  pub worker : ℕ
  pub status : ExecutionStatus
  pub started_at : ℕ
  pub ended_at : ℕ
  pub duration_seconds : F
  pub exit_code : ℤ
  pub stdout : Text
  pub stderr : Text
  pub failure_message : Text
  pub timed_out : Bool

module _ {F : Type 0} ⦃fl : Float F⦄ (alpha : F) where
  open fl use {add, sub, mul, div}

  -- The body of the loop, on the item of the test.
  unfoldable pub updated : ExecutionResult F → TestStats F → TestStats F
  updated result item =
      let executions = item.executions + 1 in
      let failed = if has_passed result.status then 0 else 1 in
      let failures = add (mul item.failure_rate (of_ℕ (executions - 1))) (of_ℕ failed) in
      record item {
        duration_ema =
            add (mul alpha result.duration_seconds) (mul (sub unit alpha) item.duration_ema);
        executions = executions;
        failure_rate = div failures (of_ℕ executions);
      }

  -- `none` is the KeyError of a test without an item.
  unfoldable pub update_duration_stats :
      Dict Text (TestStats F) → List (ExecutionResult F) → Option (Dict Text (TestStats F))
  unfolding updated
  update_duration_stats stats [] = some stats
  update_duration_stats stats (result ∷ results) = do
    item ← get result.test_id stats
    update_duration_stats (put result.test_id (updated result item) stats) results
