-- ===== src/Types/Plan.antt =====
-- `ScheduledTest` and `Schedule` of python/conflictgraph/types.py.
use conflict_graph.Prelude.{ℕ, List}
use conflict_graph.Prelude.Int.{ℤ}
use conflict_graph.Prelude.Text.{Text}
use conflict_graph.Types.Enums.{RiskPolicy}

pub record ScheduledTest (F : Type 0) : Type 0 where
  pub test_id : Text
  pub node_id : Text
  pub worker : ℕ
  pub estimated_start : F
  pub estimated_end : F
  pub estimated_duration : F
  pub risk_cost : F
  pub reasons : List Text

pub record Schedule (F : Type 0) : Type 0 where
  pub id : Text
  pub run_id : Text
  pub workers : ℕ
  pub policy : RiskPolicy
  pub tests : List (ScheduledTest F)
  pub scheduler_latency_ms : F
  pub expected_makespan : F
  pub expected_risk : F
  pub seed : ℤ
