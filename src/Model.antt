-- ===== src/Model.antt =====
-- `pair_predictions` and `select_non_regressing_model` of python/conflictgraph/model.py: what the
-- trained model's numbers do to the heuristic predictions. The numbers are a parameter.
pub mod Blend
pub mod Temperature
pub mod Batches
pub mod Training
pub mod Tensors
pub mod Artifact
use conflict_graph.Prelude.{
  ℕ, Bool, ◌&&◌, Option, none, some, List, [], ◌∷◌, if◌then◌else◌, ◌==◌, length, map, foldl,
  pair_eq,
}
use conflict_graph.Prelude.Text.{Text, text_eq, codes}
use conflict_graph.Prelude.Dict.{Dict, get, put}
use conflict_graph.Prelude.Float.{Float}
use conflict_graph.Types.Enums.{ConflictCause}
use conflict_graph.Types.Prediction.{PairPrediction, key, post_init}
use conflict_graph.Dataset.{PairExample, Dataset}
use conflict_graph.Metrics.{ClassificationMetrics}

abbrev pub pair_of : {F : Type 0} → PairExample F → Text × Text
pair_of e = (e.test_a, e.test_b)

abbrev pub zip_examples : {F : Type 0} → List (PairExample F) → List F → List (PairExample F × F)
zip_examples [] ps = []
zip_examples (e ∷ es) [] = []
zip_examples (e ∷ es) (p ∷ ps) = (e, p) ∷ zip_examples es ps

module _ {F : Type 0} ⦃fl : Float F⦄ where
  -- The arguments of the prediction: what the base prediction has, or the defaults; `now` is its time.
  abbrev pub drafted : Text → ℕ → Option (PairPrediction F) → PairExample F → F → PairPrediction F
  drafted model_version now none e probability = record {
    test_a = e.test_a;
    test_b = e.test_b;
    probability = probability;
    cause = ConflictCause.unknown;
    model_version = model_version;
    shared_resources = e.resources;
    explanation = codes "model prediction from pair features";
    predicted_at = now;
  }
  drafted model_version now (some base) e probability = record {
    test_a = e.test_a;
    test_b = e.test_b;
    probability = probability;
    cause = base.cause;
    model_version = model_version;
    shared_resources = base.shared_resources;
    explanation = base.explanation;
    predicted_at = now;
  }

  unfoldable pub remade :
      Text → ℕ → Option (PairPrediction F) → PairExample F → F → PairPrediction F
  unfolding post_init
  remade model_version now base e probability =
      post_init (drafted model_version now base e probability)

  -- The loop over the examples and their probabilities.
  unfoldable pub blend :
      Text
      → ℕ
      → Dict (Text × Text) (PairPrediction F)
      → List (PairExample F × F)
      → Dict (Text × Text) (PairPrediction F)
  unfolding remade
  blend model_version now by_pair [] = by_pair
  blend model_version now by_pair ((e, p) ∷ rest) =
      blend model_version now
        (put (pair_of e) (remade model_version now (get (pair_of e) by_pair) e p) by_pair) rest

  abbrev pub by_key : List (PairPrediction F) → Dict (Text × Text) (PairPrediction F)
  by_key = foldl (λ d p. put (key p) p d) []

  -- `none` is the ArtifactError of a count that does not match.
  unfoldable pub pair_predictions :
      Dataset F → List F → List (PairPrediction F) → Text → ℕ → Option (List (PairPrediction F))
  unfolding blend
  pair_predictions dataset probabilities heuristic_predictions model_version now =
      if length dataset.examples == length probabilities
      then some (
          map (λ p. p.1)
            (blend model_version now (by_key heuristic_predictions)
              (zip_examples dataset.examples probabilities)))
      else none

  unfoldable pub select_non_regressing_model :
      ClassificationMetrics F → ClassificationMetrics F → F → F → Bool
  select_non_regressing_model candidate active pr_tolerance brier_tolerance =
      fl.le (fl.sub active.pr_auc pr_tolerance) candidate.pr_auc
      && (fl.le candidate.brier_score (fl.add active.brier_score brier_tolerance)
          && fl.le (fl.sub active.f1 (fl.lit 2 2)) candidate.f1)
