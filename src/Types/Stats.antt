-- ===== src/Types/Stats.antt =====
-- `TestIdentity` and `TestStats` of python/conflictgraph/types.py.
use conflict_graph.Prelude.{ℕ}
use conflict_graph.Prelude.Text.{Text}
use conflict_graph.Prelude.Float.{Float, nought, unit}

pub record TestIdentity : Type 0 where
  pub id : Text
  pub node_id : Text
  pub repository : Text
  pub suite : Text
  pub framework : Text
  pub test_file : Text
  pub test_class : Text
  pub test_function : Text
  pub parameters : Text
  pub source_revision : Text

pub record TestStats (F : Type 0) : Type 0 where
  pub duration_ema : F
  pub duration_median : F
  pub failure_rate : F
  pub executions : ℕ
  pub process_count : ℕ
  pub resource_count : ℕ
  pub write_ratio : F

-- TestStats()
abbrev pub default_stats : {F : Type 0} ⦃fl : Float F⦄ → TestStats F
default_stats = record {
  duration_ema = unit;
  duration_median = unit;
  failure_rate = nought;
  executions = 0;
  process_count = 1;
  resource_count = 0;
  write_ratio = nought;
}
