-- ===== src/Config.antt =====
-- `Config.validate` and `Config.apply_environment` of python/conflictgraph/config.py. The platform,
-- the environment and Python's `int` are parameters; floats that are NaN are left out.
pub mod Valid
pub mod Mapping
use conflict_graph.Prelude.{
  ℕ, ◌≡◌, refl, Bool, true, false, not, ◌&&◌, ◌||◌, Option, none, some, List, [], ◌∷◌, ◌++◌,
  if◌then◌else◌, is_empty, same, arith, ◌>>=◌, Bool-cases, inl, inr, ◌↔◌,
}
use conflict_graph.Prelude.Int.{ℤ, pos, leb_ℤ}
use conflict_graph.Prelude.Text.{Text, text_eq, codes}
use conflict_graph.Prelude.Float.{Float, nought, unit, lt}
use conflict_graph.Types.Enums.{RiskPolicy}

pub record TracingConfig (F : Type 0) : Type 0 where
  pub mode : Text
  pub redact_paths : Bool
  pub hash_salt : Text
  pub exclude_prefixes : List Text
  pub minimum_quality : F
  pub cgroup_root : Text
  pub control_socket : Text

pub record SchedulerConfig (F : Type 0) : Type 0 where
  pub risk_weight : F
  pub hard_threshold : F
  pub refinement_rounds : ℤ

pub record ModelConfig (F : Type 0) : Type 0 where
  pub artifact : Text
  pub default_no_edge_risk : F

pub record Config (F : Type 0) : Type 0 where
  pub version : ℤ
  pub workers : ℤ
  pub risk_policy : RiskPolicy
  pub seed : ℤ
  pub artifact_dir : Text
  pub database_url : Text
  pub api_address : Text
  pub tracing : TracingConfig F
  pub scheduler : SchedulerConfig F
  pub model : ModelConfig F

-- The problems that `validate` finds, by what their message is about.
pub data Problem : Type 0 where
  unsupported_version : Problem
  workers_range : Problem
  unknown_mode : Problem
  not_on_linux : Problem
  salt_missing : Problem
  quality_range : Problem
  weight_negative : Problem
  threshold_range : Problem
  rounds_negative : Problem
  risk_range : Problem
  artifact_dir_missing : Problem
  artifact_missing : Problem
  database_url_missing : Problem
  api_address_missing : Problem

-- if test: problems.append(problem)
abbrev pub unless : Bool → Problem → List Problem → List Problem
unless ok problem problems = if ok then problems else problem ∷ problems

abbrev pub known_mode : Text → Bool
known_mode mode =
    same mode (codes "ebpf") || (same mode (codes "replay") || same mode (codes "disabled"))

-- os.getenv(name), where an empty value is as good as none
abbrev pub override : Option Text → Text → Text
override none old = old
override (some value) old = if is_empty value then old else value

abbrev pub workers_from : (Text → Option ℤ) → Option Text → ℤ → Option ℤ
workers_from int none old = some old
workers_from int (some value) old = if is_empty value then some old else int value

module _ {F : Type 0} ⦃fl : Float F⦄ where
  -- 0 <= x <= 1
  abbrev pub fraction : F → Bool
  fraction x = fl.le nought x && fl.le x unit

  -- The messages in their order; an empty list is the return without a ConfigurationError.
  unfoldable pub validate : Bool → Config F → List Problem
  validate on_linux c =
      unless (leb_ℤ c.version (pos 1) && leb_ℤ (pos 1) c.version) unsupported_version (
        unless (leb_ℤ (pos 1) c.workers && leb_ℤ c.workers (pos 1024)) workers_range (
          unless (known_mode c.tracing.mode) unknown_mode (
            unless (not (same c.tracing.mode (codes "ebpf") && not on_linux)) not_on_linux (
              unless (not (c.tracing.redact_paths && is_empty c.tracing.hash_salt)) salt_missing (
                unless (fraction c.tracing.minimum_quality) quality_range (
                  unless (not (lt c.scheduler.risk_weight nought)) weight_negative (
                    unless (fraction c.scheduler.hard_threshold) threshold_range (
                      unless (leb_ℤ (pos 0) c.scheduler.refinement_rounds) rounds_negative (
                        unless (fraction c.model.default_no_edge_risk) risk_range (
                          unless (not (is_empty c.artifact_dir)) artifact_dir_missing (
                            unless (not (is_empty c.model.artifact)) artifact_missing (
                              unless (not (is_empty c.database_url)) database_url_missing (
                                unless (not (is_empty c.api_address)) api_address_missing
                                  [])))))))))))))

  -- `none` is the ConfigurationError of a number of workers that is not an integer.
  unfoldable pub apply_environment :
      (Text → Option Text) → (Text → Option ℤ) → Config F → Option (Config F)
  apply_environment getenv int c = do
    workers ← workers_from int (getenv (codes "CONFLICTGRAPH_WORKERS")) c.workers
    some (record c {
      workers = workers;
      database_url = override (getenv (codes "CONFLICTGRAPH_DATABASE_URL")) c.database_url;
      api_address = override (getenv (codes "CONFLICTGRAPH_API_ADDRESS")) c.api_address;
      tracing = record c.tracing {
        mode = override (getenv (codes "CONFLICTGRAPH_TRACING_MODE")) c.tracing.mode;
        hash_salt = override (getenv (codes "CONFLICTGRAPH_HASH_SALT")) c.tracing.hash_salt;
      };
      model = record c.model {
        artifact = override (getenv (codes "CONFLICTGRAPH_MODEL_ARTIFACT")) c.model.artifact;
      };
    })
