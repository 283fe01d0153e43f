-- ===== src/Samples/Settings.antt =====
-- The default configuration, and the baseline schedules of the sample tests.
use conflict_graph.Prelude.{◌≡◌, ◌<◌, ◌↔◌, refl, false, none, some, [], ◌∷◌, map, All, arith}
use conflict_graph.Prelude.Int.{ℤ, pos}
use conflict_graph.Prelude.Text.{codes}
use conflict_graph.Types.Enums.{RiskPolicy}
use conflict_graph.Types.Plan.{Schedule}
use conflict_graph.Config.{Config, validate}
use conflict_graph.Config.Valid.{IsValid, validate_iff}
use conflict_graph.Scheduler.Progress.{ids}
use conflict_graph.Scheduler.Baselines.{random_schedule}
use conflict_graph.Scheduler.Baselines.Random.{IsApart, random_schedule-IsApart}
use conflict_graph.Samples.Milli.{milli, milli-IsOrdered}
use conflict_graph.Samples.World.{three, stats, around}

abbrev pub settings : Config ℤ
settings = record {
  version = pos 1;
  workers = pos 4;
  risk_policy = RiskPolicy.balanced;
  seed = pos 42;
  artifact_dir = codes "artifacts";
  database_url = codes "postgresql://localhost";
  api_address = codes "http://localhost:8080";
  tracing = record {
    mode = codes "replay";
    redact_paths = false;
    hash_salt = [];
    exclude_prefixes = codes "/proc" ∷ [];
    minimum_quality = pos 800;
    cgroup_root = codes "/sys/fs/cgroup/conflictgraph";
    control_socket = codes "/run/conflictgraph/tracer.sock";
  };
  scheduler = record {
    risk_weight = pos 2000;
    hard_threshold = pos 900;
    refinement_rounds = pos 4;
  };
  model = record { artifact = codes "artifacts/model"; default_no_edge_risk = pos 1 };
}

validate_iff_example : (validate false settings ≡ []) ↔ IsValid false settings
validate_iff_example = validate_iff false settings

-- The default settings pass.
settings_pass : validate false settings ≡ []
unfolding validate
settings_pass = refl

random_schedule-IsApart_example :
    (s : Schedule ℤ) × (random_schedule around three stats none 2 (pos 42) (λ tests. tests)
      ≡ some s)
    × (ids s.tests ≡ map (λ t. t.id) three)
    × All (λ x. x.worker < 2) s.tests
    × IsApart s.tests
random_schedule-IsApart_example =
    random_schedule-IsApart milli-IsOrdered around three stats none 2 (pos 42) (λ tests. tests)
      (omega arith)
