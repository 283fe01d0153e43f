-- ===== src/Cli.antt =====
-- The helpers of python/conflictgraph/cli.py and its command `plan`, up to the printing. The values
-- of `json` are seen through a `View`; None of an Optional argument is `none`.
pub mod Planned
pub mod Run
pub mod Reported
use conflict_graph.Prelude.{
  ℕ, Bool, true, false, not, ◌&&◌, Option, none, some, List, [], ◌∷◌, map, keep, same, any,
  if◌then◌else◌, ◌>>=◌,
}
use conflict_graph.Prelude.Int.{ℤ, pos, pos_part, leb_ℤ}
use conflict_graph.Prelude.Text.{Text, text_eq, codes}
use conflict_graph.Prelude.Dict.{Dict, get}
use conflict_graph.Prelude.Float.{Float}
use conflict_graph.Types.Enums.{RiskPolicy, ConflictCause}
use conflict_graph.Types.Stats.{TestIdentity, TestStats, default_stats}
use conflict_graph.Types.Prediction.{PairPrediction, post_init}
use conflict_graph.Types.Plan.{Schedule}
use conflict_graph.Dataset.Build.{cause_value}
use conflict_graph.Config.{Config}
use conflict_graph.Scheduler.Risk.{ConflictScheduler, new_scheduler}
use conflict_graph.Scheduler.Queue.{dict_of}
use conflict_graph.Scheduler.Static.{Surroundings, static_schedule}
use conflict_graph.Normalize.Path.{NormalizationPolicy}

-- What the code asks of a value that `json.loads` gave: isinstance, str and float, where `none` is a
-- TypeError or ValueError.
pub record View (F V : Type 0) : Type 0 where
  pub as_object : V → Option (Dict Text V)
  pub as_list : V → Option (List V)
  pub as_text : V → Option Text
  pub text_of : V → Text
  pub float_of : V → Option F

abbrev pub causes : List ConflictCause
causes =
    ConflictCause.file_collision ∷ ConflictCause.port_collision ∷ ConflictCause.file_lock
    ∷ ConflictCause.database_lock ∷ ConflictCause.unix_socket_collision ∷ ConflictCause.shared_state
    ∷ ConflictCause.resource_contention ∷ ConflictCause.unknown ∷ []

unfoldable pub cause_among : List ConflictCause → Text → Option ConflictCause
unfolding cause_value
cause_among [] text = none
cause_among (cause ∷ rest) text =
    let later = cause_among rest text in if same (cause_value cause) text then some cause else later

-- ConflictCause(text)
unfoldable pub cause_of : Text → Option ConflictCause
unfolding cause_among
cause_of text = cause_among causes text

-- All the answers, or the first error.
abbrev pub all_answers {ℓ κ} : {A : Type ℓ} {B : Type κ} → (A → Option B) → List A → Option (List B)
all_answers f [] = some []
all_answers f (x ∷ xs) = do y ← f x; ys ← all_answers f xs; some (y ∷ ys)

module _ {F V : Type 0} ⦃fl : Float F⦄ (view : View F V) where
  -- str(item.get(name, default))
  abbrev pub text_or : Text → Text → Dict Text V → Text
  text_or name default item = elim (get name item) [
    | none ↦ default
    | some value ↦ view.text_of value
  ]

  abbrev pub list_or_empty : Option V → Option (List V)
  list_or_empty none = some []
  list_or_empty (some value) = view.as_list value

  -- The body of the loop of `_graph_predictions`; `none` is the ArtifactError.
  unfoldable pub read_prediction : ℕ → V → Option (PairPrediction F)
  unfolding cause_of post_init
  read_prediction now value = do
    item ← view.as_object value
    listed ← list_or_empty (get (codes "shared_resources") item)
    resources ← all_answers view.as_text listed
    test_a ← get (codes "test_a") item
    test_b ← get (codes "test_b") item
    given ← get (codes "probability") item
    probability ← view.float_of given
    cause ← cause_of (text_or (codes "cause") (codes "UNKNOWN") item)
    some (
        post_init (record {
          test_a = view.text_of test_a;
          test_b = view.text_of test_b;
          probability = probability;
          cause = cause;
          model_version = text_or (codes "model_version") (codes "unknown") item;
          shared_resources = resources;
          explanation = text_or (codes "explanation") [] item;
          predicted_at = now;
        }))

  -- `_graph_predictions`, of what the store loads as the latest graph.
  unfoldable pub graph_predictions : ℕ → Option (Dict Text V) → Option (List (PairPrediction F))
  unfolding read_prediction
  graph_predictions now none = some []
  graph_predictions now (some graph) = do
    raw ← list_or_empty (get (codes "predictions") graph)
    all_answers (read_prediction now) raw

  abbrev pub is_known : List TestIdentity → PairPrediction F → Bool
  is_known tests p = any (λ t. same t.id p.test_a) tests && any (λ t. same t.id p.test_b) tests

  -- `_predictions_for_tests`
  unfoldable pub predictions_for_tests :
      ℕ → Option (Dict Text V) → List TestIdentity → Option (List (PairPrediction F))
  unfolding graph_predictions
  predictions_for_tests now graph tests = do
    predictions ← graph_predictions now graph
    some (keep (is_known tests) predictions)

abbrev pub or_configured {ℓ} : {A : Type ℓ} → Option A → A → A
or_configured none configured = configured
or_configured (some requested) configured = requested

-- `_worker_count`; `none` is the BadParameter.
unfoldable pub worker_count : Option ℤ → ℤ → Option ℤ
worker_count requested configured =
    let workers = or_configured requested configured in
    if leb_ℤ (pos 1) workers && leb_ℤ workers (pos 1024) then some workers else none

module _ {F : Type 0} ⦃fl : Float F⦄ where
  -- The policy of `_normalizer`, with the rest at its defaults.
  unfoldable pub normalization_policy : Config F → NormalizationPolicy
  normalization_policy settings = record {
    exclude_prefixes = settings.tracing.exclude_prefixes;
    redact_paths = settings.tracing.redact_paths;
    hash_salt = settings.tracing.hash_salt;
    repository_root = none;
    include_readonly_system = false;
    ignored_suffixes = codes ".pyc" ∷ codes ".so" ∷ codes ".dylib" ∷ [];
    loopback_alias = codes "127.0.0.1";
  }

  -- The ConflictScheduler that `plan` makes; the range of a negative number of rounds is empty.
  abbrev pub scheduler_of : Config F → Option RiskPolicy → ℤ → Option (ConflictScheduler F)
  scheduler_of settings policy workers =
      new_scheduler (pos_part workers) (or_configured policy settings.risk_policy) settings.seed
        (some settings.scheduler.risk_weight) (some settings.scheduler.hard_threshold)
        (pos_part settings.scheduler.refinement_rounds)

  -- {test.id: TestStats() for test in tests}
  abbrev pub default_statistics : List TestIdentity → Dict Text (TestStats F)
  default_statistics tests = dict_of (λ t. t.id) (λ t. default_stats) tests

  -- What `plan` and `run` do alike: the predictions for the collected tests and the schedule. `none`
  -- is any of the errors.
  unfoldable pub planned :
      {V : Type 0}
      → View F V
      → ℕ
      → Surroundings F
      → Config F
      → Option ℤ
      → Option RiskPolicy
      → Option (Dict Text V)
      → List TestIdentity
      → Option Text
      → Option (List (PairPrediction F) × Schedule F)
  unfolding predictions_for_tests worker_count static_schedule
  planned view now around settings workers policy graph tests run_id = do
    predictions ← predictions_for_tests view now graph tests
    count ← worker_count workers settings.workers
    scheduler ← scheduler_of settings policy count
    schedule ← static_schedule scheduler around tests (default_statistics tests) predictions run_id
    some (predictions, schedule)

  -- `plan` on the collected tests and the latest graph.
  unfoldable pub plan :
      {V : Type 0}
      → View F V
      → ℕ
      → Surroundings F
      → Config F
      → Option ℤ
      → Option RiskPolicy
      → Option (Dict Text V)
      → List TestIdentity
      → Option (Schedule F)
  unfolding planned
  plan view now around settings workers policy graph tests = do
    made ← planned view now around settings workers policy graph tests none
    some made.1
