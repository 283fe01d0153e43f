-- ===== src/Samples/World.antt =====
-- A small run: three tests on two workers, two of which conflict.
use conflict_graph.Prelude.{ℕ, ◌≡◌, refl, Option, none, some, List, [], ◌∷◌}
use conflict_graph.Prelude.Int.{ℤ, pos}
use conflict_graph.Prelude.Text.{Text, codes}
use conflict_graph.Prelude.Dict.{Dict}
use conflict_graph.Types.Enums.{RiskPolicy, ConflictCause}
use conflict_graph.Types.Stats.{TestIdentity, TestStats, default_stats}
use conflict_graph.Types.Prediction.{PairPrediction}
use conflict_graph.Types.Plan.{Schedule}
use conflict_graph.Scheduler.Risk.{ConflictScheduler, new_scheduler}
use conflict_graph.Scheduler.Static.{Surroundings, static_schedule}
use conflict_graph.Samples.Milli.{milli}

abbrev pub test : Text → TestIdentity
test name = record {
  id = name;
  node_id = name;
  repository = codes "local";
  suite = codes "pytest";
  framework = codes "pytest";
  test_file = [];
  test_class = [];
  test_function = [];
  parameters = [];
  source_revision = codes "unknown";
}

abbrev pub three : List TestIdentity
three = test (codes "a") ∷ test (codes "b") ∷ test (codes "c") ∷ []

abbrev pub lasting : ℕ → TestStats ℤ
lasting d = record default_stats { duration_ema = pos d }

abbrev pub stats : Dict Text (TestStats ℤ)
stats = (codes "a", lasting 3000) ∷ (codes "b", lasting 2000) ∷ (codes "c", lasting 1000) ∷ []

abbrev pub conflict : PairPrediction ℤ
conflict = record {
  test_a = codes "a";
  test_b = codes "b";
  probability = pos 950;
  cause = ConflictCause.port_collision;
  model_version = codes "heuristic-v1";
  shared_resources = [];
  explanation = codes "port";
  predicted_at = 0;
}

abbrev pub around : Surroundings ℤ
around = record {
  draw = λ n. pos n;
  schedule_id = codes "s";
  fresh_run_id = codes "r";
  elapsed_ms = pos 0;
}

abbrev pub scheduler : ConflictScheduler ℤ
scheduler = record {
  workers = 2;
  policy = RiskPolicy.balanced;
  seed = pos 42;
  params = record {
    risk_weight = pos 2000;
    hard_threshold = pos 900;
    utilization_bias = pos 1000;
    lookahead = 16;
  };
  refinement_rounds = 4;
}

pub built : new_scheduler 2 RiskPolicy.balanced (pos 42) none none 4 ≡ some scheduler
unfolding new_scheduler
built = refl

sample : Option (Schedule ℤ)
sample = static_schedule scheduler around three stats (conflict ∷ []) none
