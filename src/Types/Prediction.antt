-- ===== src/Types/Prediction.antt =====
-- `PairPrediction` and `stable_pair` of python/conflictgraph/types.py.
use conflict_graph.Prelude.{ℕ, ◌≡◌, List, if◌then◌else◌, arith, not}
use conflict_graph.Prelude.Text.{Text, text_lt, text_lt-antisym, text_lt-asym}
use conflict_graph.Prelude.Float.{Float, nought, unit, fmin, fmax}
use conflict_graph.Types.Enums.{ConflictCause}

-- (a, b) if a <= b else (b, a)
abbrev pub stable_pair : Text → Text → Text × Text
stable_pair a b = if not (text_lt b a) then (a, b) else (b, a)

-- The order of the arguments does not matter.
pub stable_pair_comm : (a b : Text) → stable_pair a b ≡ stable_pair b a
stable_pair_comm a b = ground (arith, text_lt-antisym a b, text_lt-asym a b, text_lt-asym b a)

pub record PairPrediction (F : Type 0) : Type 0 where
  pub test_a : Text
  pub test_b : Text
  pub probability : F
  pub cause : ConflictCause
  pub model_version : Text
  pub shared_resources : List Text
  pub explanation : Text
  pub predicted_at : ℕ

module _ {F : Type 0} ⦃fl : Float F⦄ where
  -- The dataclass constructor with its `__post_init__`.
  unfoldable pub post_init : PairPrediction F → PairPrediction F
  post_init p =
      let clamped = fmax nought (fmin unit p.probability) in
      if text_lt p.test_b p.test_a
      then record p { test_a = p.test_b; test_b = p.test_a; probability = clamped }
      else record p { probability = clamped }

  abbrev pub key : PairPrediction F → Text × Text
  key p = (p.test_a, p.test_b)
