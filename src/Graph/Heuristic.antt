-- ===== src/Graph/Heuristic.antt =====
-- `HeuristicPredictor` of python/conflictgraph/graph.py.
use conflict_graph.Prelude.{
  ℕ, zero, suc, ◌+◌, ◌/◌, ◌%◌, Bool, not, ◌&&◌, ◌||◌, List, [], ◌∷◌, ◌++◌, if◌then◌else◌, ◌==◌, ltb,
  map, foldl, take, is_empty, same,
}
use conflict_graph.Prelude.Text.{Text, codes}
use conflict_graph.Prelude.Float.{Float, nought, unit, lt, eq, fmin}
use conflict_graph.Types.Enums.{ConflictCause, conflict_cause_eq}
use conflict_graph.Types.Prediction.{PairPrediction, post_init}
use conflict_graph.Types.Events.{of_ℕ}
use conflict_graph.Graph.State.{TestResourceGraph}
use conflict_graph.Graph.Pairs.{candidate_pairs}
use conflict_graph.Graph.Features.{PairFeatures, pair_features}

-- str(n): fewer turns than the number itself are needed.
unfoldable pub decimal_from : ℕ → ℕ → Text
decimal_from zero n = []
decimal_from (suc fuel) n =
    let front = decimal_from fuel (n / 10) in (if ltb n 10 then [] else front) ++ (48 + n % 10) ∷ []

abbrev pub decimal : ℕ → Text
decimal n = decimal_from (suc n) n

-- "; ".join(reasons)
abbrev pub joined : List Text → Text
joined [] = []
joined (x ∷ []) = x
joined (x ∷ y ∷ rest) = x ++ codes "; " ++ joined (y ∷ rest)

-- A row of `signals`.
pub record Signal (F : Type 0) : Type 0 where
  pub count : ℕ
  pub weight : F
  pub candidate_cause : ConflictCause
  pub reason : Text

pub record Scoring (F : Type 0) : Type 0 where
  pub probability : F
  pub cause : ConflictCause
  pub reasons : List Text

module _ {F : Type 0} ⦃fl : Float F⦄ where
  open fl use {lit, add, sub, mul, div, pow, percent}

  abbrev signal : ℕ → F → ConflictCause → Text → Signal F
  signal n w c r = record { count = n; weight = w; candidate_cause = c; reason = r }

  abbrev pub signals : PairFeatures F → List (Signal F)
  signals features =
      signal features.shared_bind (lit 995 3) ConflictCause.port_collision
        (codes "both bind the same endpoint")
      ∷ signal features.create_create (lit 97 2) ConflictCause.file_collision
          (codes "both create the same resource")
      ∷ signal features.shared_locks (lit 92 2) ConflictCause.database_lock
          (codes "both lock the same resource")
      ∷ signal features.shared_unix_sockets (lit 94 2) ConflictCause.unix_socket_collision
          (codes "share a Unix socket")
      ∷ signal features.shared_redis_writes (lit 90 2) ConflictCause.shared_state
          (codes "mutate the same Redis key")
      ∷ signal features.delete_read (lit 88 2) ConflictCause.file_collision
          (codes "one deletes a resource read by the other")
      ∷ signal features.write_write (lit 82 2) ConflictCause.file_collision
          (codes "both mutate the same resource")
      ∷ signal features.read_write (lit 65 2) ConflictCause.file_collision
          (codes "one reads a resource mutated by the other")
      ∷ []

  -- A turn of the loop over the signals.
  unfoldable pub hear : Scoring F → Signal F → Scoring F
  hear acc s = if s.count == 0 then acc else record {
    probability = sub unit (mul (sub unit acc.probability) (pow (sub unit s.weight) s.count));
    cause =
        if same acc.cause ConflictCause.unknown || lt (lit 9 1) s.weight
        then s.candidate_cause
        else acc.cause;
    reasons = acc.reasons ++ (decimal s.count ++ codes "x " ++ s.reason) ∷ [];
  }

  -- Read-only dependencies, where no signal was heard.
  unfoldable pub read_only : F → PairFeatures F → Scoring F → Scoring F
  read_only floor features acc =
      if not (features.shared_resources == 0) && is_empty acc.reasons
      then record acc {
        probability =
            fmin (lit 2 2) (
              add floor
                (mul (mul (lit 1 3) (of_ℕ features.shared_resources)) features.mean_rarity));
        reasons = (decimal features.shared_resources ++ codes " shared read-only resource(s)") ∷ [];
      }
      else acc

  unfoldable pub historical_rate : PairFeatures F → F
  historical_rate features =
      if features.historical_concurrency == 0
      then nought
      else div (of_ℕ features.historical_cofailures) (of_ℕ features.historical_concurrency)

  unfoldable pub with_history : PairFeatures F → Scoring F → Scoring F
  unfolding historical_rate
  with_history features acc =
      let rate = historical_rate features in
      if eq rate nought then acc else record acc {
        probability = sub unit (mul (sub unit acc.probability) (sub unit (fmin (lit 8 1) rate)));
        reasons =
            acc.reasons ++ (codes "historical concurrent co-failure rate " ++ percent rate) ∷ [];
      }

  unfoldable pub heard : F → PairFeatures F → Scoring F
  unfolding hear
  heard floor features =
      foldl hear (record { probability = floor; cause = ConflictCause.unknown; reasons = [] })
        (signals features)

  -- The arguments of the prediction; `now` is the time that it is made at.
  unfoldable pub scored : F → ℕ → PairFeatures F → PairPrediction F
  unfolding heard read_only with_history
  scored floor now features =
      let acc = with_history features (read_only floor features (heard floor features)) in
      record {
        test_a = features.test_a;
        test_b = features.test_b;
        probability = acc.probability;
        cause = acc.cause;
        model_version = codes "heuristic-v1";
        shared_resources = map (λ entry. entry.resource) (take 8 features.evidence);
        explanation =
            if is_empty acc.reasons
            then codes "no meaningful shared mutable resource"
            else joined acc.reasons;
        predicted_at = now;
      }

  -- HeuristicPredictor(floor).score
  unfoldable pub heuristic_score : F → ℕ → PairFeatures F → PairPrediction F
  unfolding scored post_init
  heuristic_score floor now features = post_init (scored floor now features)

  unfoldable pub predict_graph : F → ℕ → TestResourceGraph F → Bool → List (PairPrediction F)
  unfolding heuristic_score
  predict_graph floor now graph include_readonly =
      map (λ p. heuristic_score floor now (pair_features graph p.0 p.1))
        (candidate_pairs graph include_readonly)
