-- ===== src/Model/Training/Chosen.antt =====
-- The model that `GNNTrainer.fit` returns.
use mathlib.Core.List.{Memᴰ}
use conflict_graph.Prelude.{
  ◌||◌, ℕ, ◌≤◌, ◌≡◌, ◌⊎◌, refl, sym, ap, subst, ◌∙◌, Option, some, List, ◌++◌, map, length, All,
  inl, inr, if-some, >>=-eq-some, ◌==◌, arith,
}
use conflict_graph.Prelude.Float.{Float, IsOrdered, ◌≼◌}
use conflict_graph.Metrics.{ClassificationMetrics}
use conflict_graph.Model.Training.{
  Epoch, Progress, score_of, epoch_score, untrained, Torch, TrainingConfig, Trained, train,
  evaluate, finished_fit, run_training, positive_weight, warmed,
}
use conflict_graph.Model.Batches.{batches}
use conflict_graph.Model.Temperature.{Numpy}
use conflict_graph.Dataset.{Dataset, DatasetSplit}
use conflict_graph.Model.Training.Kept.{
  KeepsBest, IsKept, HasRun, run_epochs-IsKept, untrained-IsKept,
}

-- What `fit` returns: its model is that of the epoch whose score none exceeds by more than 1e-5, and
-- the epochs have all run, or they broke off after `patience` of them at least since then, at the 81st
-- or later.
pub record IsChosen {S F : Type 0} ⦃fl : Float F⦄ (evaluate : S → Option (ClassificationMetrics F))
    (epochs patience : ℕ) (trained : Trained S F) : Type 0 where
  pub metrics : ClassificationMetrics F
  pub evaluated : evaluate trained.model ≡ some metrics
  pub upto : List (Epoch F)
  pub since : List (Epoch F)
  pub parts : trained.history ≡ upto ++ since
  pub reached : Memᴰ (score_of metrics.pr_auc metrics.brier_score) (map epoch_score upto)
  pub no_better :
      All
        (λ e. epoch_score e ≼ fl.add (score_of metrics.pr_auc metrics.brier_score) (fl.lit 1 5))
        trained.history
  pub runs :
      (length trained.history ≡ epochs)
      ⊎ ((length trained.history ≤ epochs)
          × (81 ≤ length trained.history)
          × (patience ≤ length since))

module _ {F : Type 0} ⦃fl : Float F⦄ (o : IsOrdered F) {S : Type 0}
    (train_batch : List ℕ → S → S × F) (mean : List F → F)
    (evaluate : S → Option (ClassificationMetrics F)) (patience : ℕ)
    (train_batches : List (List ℕ)) where
  open fl use {lit, add}

  chosen :
      (epochs : ℕ) (p : Progress S F) (model : S) (trained : Trained S F)
      → p.best_state ≡ some model
      → IsKept o train_batch mean evaluate patience train_batches p
      → HasRun o train_batch mean evaluate patience train_batches epochs p
      → trained.model ≡ model
      → trained.history ≡ p.history
      → IsChosen evaluate epochs patience trained
  chosen epochs p model trained m k r same_model same_history =
      let best =
        subst (KeepsBest o train_batch mean evaluate patience train_batches p.best_score k.upto) m
          k.best in
      let scores = best.scored in
      record {
        metrics = best.metrics;
        evaluated = ap evaluate same_model ∙ best.evaluated;
        upto = k.upto;
        since = k.since;
        parts = same_history ∙ k.parts;
        reached = subst (λ x. Memᴰ x (map epoch_score k.upto)) (sym scores) best.reached;
        no_better =
            subst
              (λ es.
                All
                  (λ e.
                    epoch_score e
                    ≼ add (score_of best.metrics.pr_auc best.metrics.brier_score) (lit 1 5))
                  es)
              (sym same_history)
              (subst (λ x. All (λ e. epoch_score e ≼ add x (lit 1 5)) p.history) (sym scores)
                k.no_better);
        runs = elim r [
          | inl e ↦ inl (ap length same_history ∙ e)
          | inr (u, b) ↦ inr (
            omega (arith, ap length same_history, u),
            omega (arith, ap length same_history, b.0),
            omega (arith, k.stale_epochs, b.1),
          )
        ];
      }

module _ {S F : Type 0} ⦃fl : Float F⦄ (o : IsOrdered F) (np : Numpy F) (torch : Torch S F)
    (config : TrainingConfig F) (measured : List ℕ → List F → Option (ClassificationMetrics F))
    (dataset : Dataset F) (split : DatasetSplit) where
  finished_fit_lem :
      (history : List (Epoch F)) (model : S) (trained : Trained S F)
      → finished_fit np torch config measured dataset split history model ≡ some trained
      → (trained.model ≡ model) × (trained.history ≡ history)
  unfolding finished_fit
  finished_fit_lem history model trained h = ground arith

  -- When `fit` returns: the model is the one after an epoch whose score on the validation examples
  -- no epoch exceeds by more than 1e-5. Either all epochs have run; or they broke off, at the 81st
  -- epoch or later and with at least `patience` epochs since that one.
  pub train-IsChosen :
      (shuffle : List ℕ → List ℕ) (resources : ℕ) (trained : Trained S F)
      → train np torch config measured dataset split shuffle resources ≡ some trained
      → IsChosen
          (evaluate np torch config measured dataset split)
          config.epochs
          config.patience
          trained
  unfolding train
  train-IsChosen shuffle resources trained h =
      let (p, e, h1) =
        >>=-eq-some (run_training np torch config measured dataset split shuffle) _
          (if-some (resources == 0 || config.batch_size == 0) _ h) in
      let (model, m, h2) = >>=-eq-some p.best_state _ h1 in
      let step = torch.train_batch (positive_weight config dataset) in
      let at = evaluate np torch config measured dataset split in
      let cut = batches shuffle config.batch_size split.train in
      let (k, r) =
        run_epochs-IsKept o step np.mean at config.patience cut config.epochs 0 config.epochs
          (untrained (warmed np torch config measured dataset split)) p (omega arith) e refl
          (untrained-IsKept o step np.mean at config.patience cut _) in
      let (same_model, same_history) = finished_fit_lem p.history model trained h2 in
      chosen o step np.mean at config.patience cut config.epochs p model trained m k r same_model
        same_history
