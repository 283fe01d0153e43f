-- ===== src/Model/Artifact.antt =====
-- `ArtifactMetadata`, `GNNTrainer.save` and `predict_artifact` of python/conflictgraph/model.py. The
-- two files of an artifact are a value; sha256, json and what torch does with the weights are
-- parameters. `history.json` is left out, and the mean and the scale of a trainer are arguments of
-- `save_artifact`.
pub mod Checked
use conflict_graph.Prelude.{
  ℕ, Bool, not, Option, none, some, List, [], ◌∷◌, ◌++◌, map, take, same, if◌then◌else◌,
}
use conflict_graph.Prelude.Int.{ℤ}
use conflict_graph.Prelude.Text.{Text, text_beq, text_eq, codes}
use conflict_graph.Prelude.Dict.{Dict, get}
use conflict_graph.Prelude.Float.{Float}
use conflict_graph.Dataset.{PairExample, Dataset}
use conflict_graph.Graph.State.{TestResourceGraph}
use conflict_graph.Metrics.{ClassificationMetrics, zip}
use conflict_graph.Model.Temperature.{Numpy, new_temperature, transform}
use conflict_graph.Model.Batches.{predict_batches}
use conflict_graph.Model.Training.{TrainingConfig, Trained}
use conflict_graph.Model.Tensors.{GraphTensors, graph_tensors}

-- PairFeatures.FEATURE_NAMES
abbrev pub feature_names : List Text
feature_names =
    codes "shared_resources"
    ∷ codes "shared_files"
    ∷ codes "shared_writes"
    ∷ codes "read_write"
    ∷ codes "write_write"
    ∷ codes "create_create"
    ∷ codes "delete_read"
    ∷ codes "shared_bind"
    ∷ codes "shared_locks"
    ∷ codes "shared_redis_writes"
    ∷ codes "shared_unix_sockets"
    ∷ codes "shared_databases"
    ∷ codes "resource_jaccard"
    ∷ codes "minimum_rarity"
    ∷ codes "mean_rarity"
    ∷ codes "duration_a"
    ∷ codes "duration_b"
    ∷ codes "failure_rate_a"
    ∷ codes "failure_rate_b"
    ∷ codes "historical_concurrency"
    ∷ codes "historical_cofailures"
    ∷ codes "temporal_overlap"
    ∷ []

abbrev pub model_schema_version : Text
model_schema_version = codes "conflict-model-v1"

pub record ArtifactMetadata (F : Type 0) : Type 0 where
  pub schema_version : Text
  pub model_type : Text
  pub version : Text
  pub created_at : Text
  pub feature_schema : List Text
  pub dataset_hash : Text
  pub seed : ℤ
  pub code_revision : Text
  pub training_config : TrainingConfig F
  pub validation_metrics : ClassificationMetrics F
  pub test_metrics : ClassificationMetrics F
  pub temperature : F
  pub mean : List F
  pub scale : List F
  pub environment : List (Text × Text)
  pub checksum : Text

-- The text of metadata.json and the bytes of model.pt, where they can be read.
pub record ArtifactFiles : Type 0 where
  pub metadata : Option Text
  pub weights : Option (List ℕ)

-- The ArtifactErrors of `predict_artifact`, and the other errors that it may raise.
pub data ArtifactError : Type 0 where
  invalid_artifact unsupported_schema checksum_mismatch incompatible_features : ArtifactError
  unloadable_weights missing_node not_finite : ArtifactError

pub data Outcome {ℓ} (A : Type ℓ) : Type ℓ where
  refused : ArtifactError → Outcome A
  accepted : A → Outcome A

infixl 5 ◌>>=◌
abbrev pub ◌>>=◌ {ℓ κ} : {A : Type ℓ} {B : Type κ} → Outcome A → (A → Outcome B) → Outcome B
refused e >>= f = refused e
accepted a >>= f = f a

abbrev pub or_raise {ℓ} : {A : Type ℓ} → ArtifactError → Option A → Outcome A
or_raise error none = refused error
or_raise error (some a) = accepted a

abbrev pub demand : Bool → ArtifactError → Outcome (Unit {0})
demand test error = if test then accepted tt else refused error

-- left == right of two lists of texts
abbrev pub same_texts : List Text → List Text → Bool
same_texts [] [] = Bool.true
same_texts [] (y ∷ ys) = Bool.false
same_texts (x ∷ xs) [] = Bool.false
same_texts (x ∷ xs) (y ∷ ys) =
    let rest = same_texts xs ys in if text_beq x y then rest else Bool.false

-- What is done with the metadata: dump_json, and json.loads with ArtifactMetadata(**...), `none` on an
-- error of them. What is done with the weights: sha256, torch.load with load_state_dict, and the network on the rows
-- of a batch, after `sigmoid`. A row has the numbers of the two tests and the scaled features.
pub record Weights (S F : Type 0) : Type 0 where
  pub print_metadata : ArtifactMetadata F → Text
  pub parse_metadata : Text → Option (ArtifactMetadata F)
  pub sha256 : List ℕ → Text
  pub save_state : S → List ℕ
  pub load_state : TrainingConfig F → List ℕ → Option S
  pub score : S → GraphTensors F → List ((ℕ × ℕ) × List F) → List F

module _ {S F : Type 0} ⦃fl : Float F⦄ (np : Numpy F) (torch : Weights S F) where
  -- (features - mean) / scale
  abbrev pub scaled : List F → List F → List F → List F
  scaled mean scale features =
      map (λ p. fl.div (fl.sub p.0 p.1.0) p.1.1) (zip features (zip mean scale))

  -- The row of an example; `none` is the KeyError of a test that the graph does not have.
  unfoldable pub row_of : Dict Text ℕ → List F → List F → PairExample F → Outcome ((ℕ × ℕ) × List F)
  row_of test_index mean scale e = do
    left ← or_raise ArtifactError.missing_node (get e.test_a test_index)
    right ← or_raise ArtifactError.missing_node (get e.test_b test_index)
    accepted ((left, right), scaled mean scale e.features)

  unfoldable pub rows_of :
      Dict Text ℕ → List F → List F → List (PairExample F) → Outcome (List ((ℕ × ℕ) × List F))
  unfolding row_of
  rows_of test_index mean scale [] = accepted []
  rows_of test_index mean scale (e ∷ examples) = do
    row ← row_of test_index mean scale e
    rows ← rows_of test_index mean scale examples
    accepted (row ∷ rows)

  -- The three checks on an artifact that could be read.
  unfoldable pub checked : ArtifactMetadata F → List ℕ → Outcome (Unit {0})
  checked metadata weights = do
    schema ←
        demand (same metadata.schema_version model_schema_version) ArtifactError.unsupported_schema
    digest ← demand (same (torch.sha256 weights) metadata.checksum) ArtifactError.checksum_mismatch
    demand (same_texts metadata.feature_schema feature_names) ArtifactError.incompatible_features

  -- What is done with the weights once they are checked. The rows are made batch by batch in the
  -- source, which differs only in what is computed before an error.
  unfoldable pub predicted :
      ArtifactMetadata F → List ℕ → TestResourceGraph F → Dataset F → Outcome (List F)
  unfolding rows_of graph_tensors predict_batches transform
  predicted metadata weights graph dataset = do
    tensors ← or_raise ArtifactError.missing_node (graph_tensors np graph)
    state ←
        or_raise ArtifactError.unloadable_weights
          (torch.load_state metadata.training_config weights)
    rows ← rows_of tensors.test_index metadata.mean metadata.scale dataset.examples
    or_raise ArtifactError.not_finite (
        transform np (new_temperature metadata.temperature)
          (predict_batches (torch.score state tensors) metadata.training_config.batch_size rows))

  unfoldable pub predict_artifact :
      ArtifactFiles → TestResourceGraph F → Dataset F → Outcome (List F × ArtifactMetadata F)
  unfolding checked predicted
  predict_artifact files graph dataset = do
    text ← or_raise ArtifactError.invalid_artifact files.metadata
    metadata ← or_raise ArtifactError.invalid_artifact (torch.parse_metadata text)
    weights ← or_raise ArtifactError.invalid_artifact files.weights
    sound ← checked metadata weights
    probabilities ← predicted metadata weights graph dataset
    accepted (probabilities, metadata)

  -- What `save` takes from outside: two times, the revision and the environment.
  pub record Occasion : Type 0 where
    pub stamp : Text
    pub created_at : Text
    pub revision : Text
    pub environment : List (Text × Text)

  -- The metadata that `save` writes of a trained model.
  unfoldable pub saved_metadata :
      Occasion → TrainingConfig F → Dataset F → List F → List F → Trained S F → ArtifactMetadata F
  saved_metadata now config dataset mean scale trained =
      let digest = torch.sha256 (torch.save_state trained.model) in
      record {
        schema_version = model_schema_version;
        model_type = codes "hybrid-graphsage";
        version = now.stamp ++ codes "-" ++ take 8 digest;
        created_at = now.created_at;
        feature_schema = feature_names;
        dataset_hash = dataset.metadata.content_hash;
        seed = config.seed;
        code_revision = now.revision;
        training_config = config;
        validation_metrics = trained.validation;
        test_metrics = trained.test;
        temperature = trained.temperature;
        mean = mean;
        scale = scale;
        environment = now.environment;
        checksum = digest;
      }

  -- The files that `save` writes.
  unfoldable pub save_artifact :
      Occasion → TrainingConfig F → Dataset F → List F → List F → Trained S F → ArtifactFiles
  unfolding saved_metadata
  save_artifact now config dataset mean scale trained = record {
    weights = some (torch.save_state trained.model);
    metadata = some (torch.print_metadata (saved_metadata now config dataset mean scale trained));
  }
