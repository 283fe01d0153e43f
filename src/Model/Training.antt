-- ===== src/Model/Training.antt =====
-- `TrainingConfig` and `GNNTrainer.fit` of python/conflictgraph/model.py. What torch does to the
-- network, one batch or one warm-up round at a time, is a parameter, and so are the metrics.
pub mod Kept
pub mod Chosen
use Prim.Native.Nat.{max}
use conflict_graph.Prelude.{
  ℕ, zero, suc, ◌+◌, ◌≡◌, Bool, true, false, ◌&&◌, ◌||◌, Option, none, some, List, [], ◌∷◌, ◌++◌,
  map, leb, ◌==◌, get_elem?, if◌then◌else◌, ◌>>=◌, same,
}
use conflict_graph.Prelude.Int.{ℤ}
use conflict_graph.Prelude.Text.{Text, text_eq, codes}
use conflict_graph.Prelude.Float.{Float, nought, unit, lt, eq}
use conflict_graph.Types.Events.{of_ℕ}
use conflict_graph.Dataset.{label_or, PairExample, Dataset, DatasetSplit}
use conflict_graph.Metrics.{ClassificationMetrics, is_mixed}
use conflict_graph.Model.Temperature.{Numpy, new_temperature, fit, transform}
use conflict_graph.Model.Batches.{batches, predict_batches}

pub record TrainingConfig (F : Type 0) : Type 0 where
  pub seed : ℤ
  pub hidden_dim : ℕ
  pub embedding_dim : ℕ
  pub gnn_layers : ℕ
  pub learning_rate : F
  pub weight_decay : F
  pub dropout : F
  pub epochs : ℕ
  pub patience : ℕ
  pub batch_size : ℕ
  pub class_weight : Option F
  pub calibration : Text

-- The network with its optimizer. `warm_round` is one of the rounds before the epochs, with the
-- weight of the positive examples; `train_batch` also gives the loss; `predict` is on indices.
pub record Torch (S F : Type 0) : Type 0 where
  pub initial : S
  pub warm_round : F → S → S
  pub freeze : S → S
  pub train_batch : F → List ℕ → S → S × F
  pub predict : S → List ℕ → List F

-- An entry of `training_history`.
pub record Epoch (F : Type 0) : Type 0 where
  pub epoch : ℕ
  pub loss : F
  pub pr_auc : F
  pub brier : F

-- The variables of the loop over the epochs.
pub record Progress (S F : Type 0) : Type 0 where
  pub model : S
  pub best_state : Option S
  pub best_score : F
  pub stale : ℕ
  pub history : List (Epoch F)

pub record Trained (S F : Type 0) : Type 0 where
  pub model : S
  pub temperature : F
  pub history : List (Epoch F)
  pub validation : ClassificationMetrics F
  pub test : ClassificationMetrics F

abbrev pub repeated {ℓ} : {A : Type ℓ} → ℕ → (A → A) → A → A
repeated zero f a = a
repeated (suc n) f a = repeated n f (f a)

module _ {F : Type 0} ⦃fl : Float F⦄ where
  open fl use {lit, add, sub, mul, div}

  abbrev pub score_of : F → F → F
  score_of pr_auc brier = sub pr_auc (mul (lit 15 2) brier)

  abbrev pub epoch_score : Epoch F → F
  epoch_score e = score_of e.pr_auc e.brier

  -- score > best_score + 1e-5
  abbrev pub improves : F → F → Bool
  improves score best_score = lt (add best_score (lit 1 5)) score

  -- class_weight or negatives / positives
  abbrev pub weight_or : Option F → F → F
  weight_or none balance = balance
  weight_or (some weight) balance = if eq weight nought then balance else weight

  abbrev pub positive_weight : TrainingConfig F → Dataset F → F
  positive_weight config dataset = weight_or config.class_weight (
      div (of_ℕ (max 1 dataset.metadata.negative_examples))
        (of_ℕ (max 1 dataset.metadata.positive_examples)))

  abbrev pub untrained : {S : Type 0} → S → Progress S F
  untrained model = record {
    model = model;
    best_state = none;
    best_score = sub nought unit;
    stale = 0;
    history = [];
  }

  -- The loop over the batches: the model after it, and the losses.
  abbrev pub train_all :
      {S : Type 0} → (List ℕ → S → S × F) → List (List ℕ) → S → List F → S × List F
  train_all train_batch [] model losses = (model, losses)
  train_all train_batch (indices ∷ rest) model losses =
      let (next, loss) = train_batch indices model in
      train_all train_batch rest next (losses ++ loss ∷ [])

  abbrev pub entry : ℕ → F → ClassificationMetrics F → Epoch F
  entry epoch loss metrics = record {
    epoch = epoch;
    loss = loss;
    pr_auc = metrics.pr_auc;
    brier = metrics.brier_score;
  }

  -- The end of an epoch: the variables after it, and whether the loop breaks.
  unfoldable pub judged :
      {S : Type 0} → ℕ → ℕ → S → F → ClassificationMetrics F → Progress S F → Progress S F × Bool
  judged patience epoch model loss metrics p =
      let history = p.history ++ entry epoch loss metrics ∷ [] in
      let score = score_of metrics.pr_auc metrics.brier_score in
      if improves score p.best_score
      then (
        record {
          model = model;
          best_state = some model;
          best_score = score;
          stale = 0;
          history = history;
        },
        false,
      )
      else (
        record {
          model = model;
          best_state = p.best_state;
          best_score = p.best_score;
          stale = p.stale + 1;
          history = history;
        },
        leb 80 epoch && leb patience (p.stale + 1),
      )

  module _ {S : Type 0} (train_batch : List ℕ → S → S × F) (mean : List F → F)
      (evaluate : S → Option (ClassificationMetrics F)) (patience : ℕ)
      (train_batches : List (List ℕ)) where
    unfoldable pub run_epoch : ℕ → Progress S F → Option (Progress S F × Bool)
    unfolding judged
    run_epoch epoch p =
        let (model, losses) = train_all train_batch train_batches p.model [] in
        do metrics ← evaluate model; some (judged patience epoch model (mean losses) metrics p)

    -- for epoch in range(epochs), from an epoch on
    unfoldable pub run_epochs : ℕ → ℕ → Progress S F → Option (Progress S F)
    unfolding run_epoch
    run_epochs zero epoch p = some p
    run_epochs (suc n) epoch p = do
      (next, stops) ← run_epoch epoch p
      let rest = run_epochs n (suc epoch) next
      if stops then some next else rest

  module _ {S : Type 0} (np : Numpy F) (torch : Torch S F) (config : TrainingConfig F)
      (measured : List ℕ → List F → Option (ClassificationMetrics F)) (dataset : Dataset F)
      (split : DatasetSplit) where
    -- dataset.examples[index].label; the indices of a valid split are in range.
    abbrev pub label_at : ℕ → ℕ
    label_at index = label_or (get_elem? dataset.examples index)

    abbrev pub predict_indices : S → List ℕ → List F
    predict_indices model = predict_batches (torch.predict model) config.batch_size

    -- The metrics of the validation examples.
    unfoldable pub evaluate : S → Option (ClassificationMetrics F)
    unfolding predict_batches
    evaluate model =
        measured (map label_at split.validation) (predict_indices model split.validation)

    -- The model that the loop over the epochs starts from.
    abbrev pub warmed : S
    warmed =
        torch.freeze
          (repeated 200 (torch.warm_round (positive_weight config dataset)) torch.initial)

    abbrev pub temperature_of : List F → Option F
    temperature_of validation_raw =
        if same config.calibration (codes "temperature") && is_mixed (map label_at split.validation)
        then fit np validation_raw (map (λ i. of_ℕ (label_at i)) split.validation)
        else some (new_temperature unit)

    -- The rest of `fit` with the best state.
    unfoldable pub finished_fit : List (Epoch F) → S → Option (Trained S F)
    unfolding predict_batches fit transform
    finished_fit history model = do
      let validation_raw = predict_indices model split.validation
      temperature ← temperature_of validation_raw
      validation ← transform np temperature validation_raw
      test ← transform np temperature (predict_indices model split.test)
      validation_metrics ← measured (map label_at split.validation) validation
      test_metrics ← measured (map label_at split.test) test
      some (record {
        model = model;
        temperature = temperature;
        history = history;
        validation = validation_metrics;
        test = test_metrics;
      })

    abbrev pub run_training : (List ℕ → List ℕ) → Option (Progress S F)
    run_training shuffle =
        run_epochs (torch.train_batch (positive_weight config dataset)) np.mean evaluate
          config.patience (batches shuffle config.batch_size split.train) config.epochs 0
          (untrained warmed)

    -- The first `fit` of a trainer, whose history is empty and whose temperature is 1, on a graph with
    -- so many resources; `none` is the ArtifactError of a graph without one or of no valid state, the
    -- ValueError of batches of 0, or an error of what it calls.
    unfoldable pub train : (List ℕ → List ℕ) → ℕ → Option (Trained S F)
    unfolding evaluate run_epochs batches finished_fit
    train shuffle resources =
        if resources == 0 || config.batch_size == 0
        then none
        else do p ← run_training shuffle; model ← p.best_state; finished_fit p.history model
