-- ===== src/Samples/Models.antt =====
-- A network that counts its updates, trained for three epochs, saved, and loaded.
use conflict_graph.Prelude.{
  ℕ, take, All, ◌+◌, ◌<◌, ◌≡◌, refl, true, Option, none, some, List, [], ◌∷◌, ◌++◌, map, length,
  if◌then◌else◌, ◌==◌, arith,
}
use conflict_graph.Prelude.Int.{ℤ, pos, ◌-ℤ◌}
use conflict_graph.Prelude.Text.{Text, codes}
use conflict_graph.Prelude.Float.{◌≼◌}
use conflict_graph.Dataset.{DatasetSplit}
use conflict_graph.Metrics.{ClassificationMetrics}
use conflict_graph.Model.Temperature.{Numpy, loss_at, fit, smallest, largest}
use conflict_graph.Model.Temperature.Fitted.{IsBest, fit-IsBest}
use conflict_graph.Model.Batches.{predict_batches, predict_batches-eq-map}
use conflict_graph.Model.Training.{TrainingConfig, Torch, Trained, Epoch, train, evaluate}
use conflict_graph.Model.Training.Chosen.{IsChosen, train-IsChosen}
use conflict_graph.Graph.State.{TestResourceGraph, from_events}
use conflict_graph.Graph.Consistent.{from_events-IsConsistent}
use conflict_graph.Model.Tensors.{GraphTensors, graph_tensors}
use conflict_graph.Model.Tensors.Built.{IsTensors, graph_tensors_total}
use conflict_graph.Model.Artifact.{
  Weights, Occasion, ArtifactFiles, ArtifactMetadata, accepted, predict_artifact, save_artifact,
  model_schema_version, feature_names,
}
use conflict_graph.Model.Artifact.Checked.{IsChecked, predict_artifact-IsChecked}
use conflict_graph.Samples.Splitting.{dataset}
use conflict_graph.Samples.World.{test, three}
use conflict_graph.Samples.Sharing.{events, shared}
use conflict_graph.Samples.Milli.{milli, milli-IsOrdered}

abbrev numpy : Numpy ℤ
numpy = record {
  log = λ x. x;
  exp = λ x. x;
  log1p = λ x. x;
  neg = λ x. pos 0 -ℤ x;
  mean = λ xs. pos 0;
  is_finite = λ x. true;
  infinity = pos 1000000;
  temperatures = pos 500 ∷ pos 2000 ∷ [];
}

fit-IsBest_example :
    IsBest milli-IsOrdered
      (loss_at numpy (pos 900 ∷ pos 100 ∷ []) (pos 1000 ∷ pos 0 ∷ []))
      (pos 1000000)
      (pos 500 ∷ pos 2000 ∷ [])
      (pos 500)
unfolding fit loss_at
fit-IsBest_example =
    fit-IsBest milli-IsOrdered numpy (pos 900 ∷ pos 100 ∷ []) (pos 1000 ∷ pos 0 ∷ []) (pos 500) refl

predict_batches-eq-map_example :
    predict_batches (map (λ n. n + 1)) 2 (3 ∷ 5 ∷ 8 ∷ []) ≡ map (λ n. n + 1) (3 ∷ 5 ∷ 8 ∷ [])
predict_batches-eq-map_example =
    predict_batches-eq-map (map (λ n. n + 1)) (λ n. n + 1) 2 (3 ∷ 5 ∷ 8 ∷ []) (omega arith)
      (λ batch. refl)

abbrev split : DatasetSplit
split = record {
  train = 0 ∷ 1 ∷ 2 ∷ [];
  validation = 0 ∷ 1 ∷ [];
  test = 2 ∷ [];
  strategy = codes "pair-disjoint";
}

abbrev config : TrainingConfig ℤ
config = record {
  seed = pos 42;
  hidden_dim = 64;
  embedding_dim = 48;
  gnn_layers = 2;
  learning_rate = pos 10;
  weight_decay = pos 0;
  dropout = pos 200;
  epochs = 3;
  patience = 15;
  batch_size = 2;
  class_weight = none;
  calibration = codes "temperature";
}

-- Each batch adds 1; the scores are best after four.
abbrev quality : ℕ → ℤ
quality n = if n == 4 then pos 900 else pos 500

abbrev network : Torch ℕ ℤ
network = record {
  initial = 0;
  warm_round = λ weight s. s;
  freeze = λ s. s;
  train_batch = λ weight indices s. (s + 1, pos 500);
  predict = λ s indices. map (λ i. quality s) indices;
}

abbrev single : List ℕ → Option ℕ
single (s ∷ []) = some s
single bytes = none

abbrev first : List ℤ → ℤ
first [] = pos 0
first (p ∷ ps) = p

abbrev metrics_of : ℤ → ClassificationMetrics ℤ
metrics_of p = record {
  pr_auc = p;
  roc_auc = p;
  precision = p;
  recall = p;
  f1 = p;
  brier_score = pos 0;
  expected_calibration_error = pos 0;
  threshold = pos 500;
  confusion_matrix = [];
}

abbrev measured : List ℕ → List ℤ → Option (ClassificationMetrics ℤ)
measured labels ps = some (metrics_of (first ps))

abbrev epoch : ℕ → ℤ → Epoch ℤ
epoch n score = record { epoch = n; loss = pos 0; pr_auc = score; brier = pos 0 }

abbrev trained : Trained ℕ ℤ
trained = record {
  model = 4;
  temperature = pos 1000;
  history = epoch 0 (pos 500) ∷ epoch 1 (pos 900) ∷ epoch 2 (pos 500) ∷ [];
  validation = metrics_of (pos 125);
  test = metrics_of (pos 125);
}

train-runs : train numpy network config measured dataset split (λ l. l) 1 ≡ some trained
unfolding train
train-runs = refl

-- The model is the one after the second epoch.
train-IsChosen_example :
    IsChosen (evaluate numpy network config measured dataset split) 3 15 trained
train-IsChosen_example =
    train-IsChosen milli-IsOrdered numpy network config measured dataset split (λ l. l) 1 trained
      train-runs

graph_tensors_total_example :
    (tensors : GraphTensors ℤ) × (graph_tensors numpy shared ≡ some tensors)
    × IsTensors numpy shared tensors
graph_tensors_total_example =
    graph_tensors_total numpy shared (from_events-IsConsistent (λ t. t) events three)

-- The metadata of a digest.
abbrev with_digest : Text → ArtifactMetadata ℤ
with_digest digest = record {
  schema_version = model_schema_version;
  model_type = codes "hybrid-graphsage";
  version = codes "t" ++ codes "-" ++ take 8 digest;
  created_at = codes "t";
  feature_schema = feature_names;
  dataset_hash = dataset.metadata.content_hash;
  seed = config.seed;
  code_revision = codes "r";
  training_config = config;
  validation_metrics = trained.validation;
  test_metrics = trained.test;
  temperature = trained.temperature;
  mean = [];
  scale = [];
  environment = [];
  checksum = digest;
}

-- The weights of the model `s` are the one number, and metadata are printed as their digest.
abbrev weights : Weights ℕ ℤ
weights = record {
  print_metadata = λ m. m.checksum;
  parse_metadata = λ text. some (with_digest text);
  sha256 = λ bytes. codes "sha" ++ bytes;
  save_state = λ s. s ∷ [];
  load_state = λ config bytes. single bytes;
  score = λ s tensors batch. map (λ row. quality s) batch;
}

abbrev now : Occasion numpy weights
now = record { stamp = codes "t"; created_at = codes "t"; revision = codes "r"; environment = [] }

-- The four tests, with no event yet.
abbrev fresh : TestResourceGraph ℤ
fresh = from_events (λ t. t) [] (test (codes "d") ∷ three)

abbrev files : ArtifactFiles
files = save_artifact numpy weights now config dataset [] [] trained

abbrev metadata : ArtifactMetadata ℤ
metadata = with_digest (codes "sha" ++ 4 ∷ [])

saved_runs :
    predict_artifact numpy weights files fresh dataset
    ≡ accepted (pos 125 ∷ pos 125 ∷ pos 125 ∷ [], metadata)
unfolding predict_artifact save_artifact from_events
saved_runs = refl

positive : 0 < metadata.training_config.batch_size
positive = omega arith

predict_artifact-IsChecked_example :
    (bytes : List ℕ) × (text : Text) × (files.metadata ≡ some text)
    × (weights.parse_metadata text ≡ some metadata)
    × (files.weights ≡ some bytes)
    × IsChecked numpy weights metadata bytes
    × ((length (pos 125 ∷ pos 125 ∷ pos 125 ∷ []) ≡ length dataset.examples)
        × All (λ p. (smallest ≼ p) × (p ≼ largest)) (pos 125 ∷ pos 125 ∷ pos 125 ∷ []))
predict_artifact-IsChecked_example =
    predict_artifact-IsChecked milli-IsOrdered numpy weights (λ s t r. quality s)
      (λ s t batch. refl) refl files fresh dataset (pos 125 ∷ pos 125 ∷ pos 125 ∷ []) metadata
      positive saved_runs
