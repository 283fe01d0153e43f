-- ===== src/Scheduler/Risk.antt =====
-- `PolicyParameters`, `POLICIES`, `RiskIndex` and the constructor of `ConflictScheduler` in
-- python/conflictgraph/scheduler.py.
use conflict_graph.Prelude.{
  ℕ, zero, suc, Option, none, some, List, [], foldl, same, pair_eq, if◌then◌else◌,
}
use conflict_graph.Prelude.Int.{ℤ}
use conflict_graph.Prelude.Text.{Text, text_eq}
use conflict_graph.Prelude.Dict.{Dict, get, put}
use conflict_graph.Prelude.Float.{Float, nought, unit}
use conflict_graph.Types.Enums.{RiskPolicy}
use conflict_graph.Types.Prediction.{PairPrediction, stable_pair, key}

pub record PolicyParameters (F : Type 0) : Type 0 where
  pub risk_weight : F
  pub hard_threshold : F
  pub utilization_bias : F
  pub lookahead : ℕ

pub record ConflictScheduler (F : Type 0) : Type 0 where
  pub workers : ℕ
  pub policy : RiskPolicy
  pub seed : ℤ
  pub params : PolicyParameters F
  pub refinement_rounds : ℕ

abbrev pub RiskIndex : Type 0 → Type 0
RiskIndex F = Dict (Text × Text) (PairPrediction F)

module _ {F : Type 0} ⦃fl : Float F⦄ where
  open fl use {lit}

  abbrev parameters : F → F → F → ℕ → PolicyParameters F
  parameters w h u l = record {
    risk_weight = w;
    hard_threshold = h;
    utilization_bias = u;
    lookahead = l;
  }

  -- POLICIES
  unfoldable pub policies : RiskPolicy → PolicyParameters F
  policies RiskPolicy.aggressive = parameters (lit 55 2) (lit 985 3) (lit 15 1) 8
  policies RiskPolicy.balanced = parameters (lit 20 1) (lit 90 2) (lit 10 1) 16
  policies RiskPolicy.safe = parameters (lit 75 1) (lit 68 2) (lit 5 1) 32

  abbrev or_else : Option F → F → F
  or_else none d = d
  or_else (some x) d = x

  -- ConflictScheduler.__init__; `none` is the ValueError.
  unfoldable pub new_scheduler :
      ℕ → RiskPolicy → ℤ → Option F → Option F → ℕ → Option (ConflictScheduler F)
  unfolding policies
  new_scheduler zero policy seed risk_weight hard_threshold rounds = none
  new_scheduler (suc n) policy seed risk_weight hard_threshold rounds =
      let base = policies policy in
      some (record {
        workers = suc n;
        policy = policy;
        seed = seed;
        params = record {
          risk_weight = or_else risk_weight base.risk_weight;
          hard_threshold = or_else hard_threshold base.hard_threshold;
          utilization_bias = base.utilization_bias;
          lookahead = base.lookahead;
        };
        refinement_rounds = rounds;
      })

  -- RiskIndex.__init__
  unfoldable pub risk_index : List (PairPrediction F) → RiskIndex F
  risk_index = foldl (λ d p. put (key p) p d) []

  abbrev probability_of : Option (PairPrediction F) → F
  probability_of none = nought
  probability_of (some p) = p.probability

  -- RiskIndex.probability
  unfoldable pub probability : RiskIndex F → Text → Text → F
  probability risk left right =
      if same left right then unit else probability_of (get (stable_pair left right) risk)

  -- RiskIndex.prediction
  unfoldable pub prediction : RiskIndex F → Text → Text → Option (PairPrediction F)
  prediction risk left right = get (stable_pair left right) risk
