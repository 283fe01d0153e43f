-- ===== src/Scheduler/Placement.antt =====
-- `_overlapping_at`, `_placement_risk` and `_placement_cost` of `ConflictScheduler` in
-- python/conflictgraph/scheduler.py.
use conflict_graph.Prelude.{
  ℕ, zero, suc, ◌+◌, ◌/◌, Bool, false, ◌&&◌, Option, none, some, List, [], ◌∷◌, ◌++◌, foldl,
  if◌then◌else◌, ltb, length, get_elem?, drop, except, concat, keep,
}
use conflict_graph.Prelude.Text.{Text, codes}
use conflict_graph.Prelude.Float.{Float, nought, unit, lt, fmin, fmax}
use conflict_graph.Types.Plan.{ScheduledTest}
use conflict_graph.Types.Prediction.{PairPrediction}
use conflict_graph.Scheduler.Risk.{RiskIndex, probability, prediction, PolicyParameters}

-- What the loop of `_placement_risk` carries.
pub record Exposure (F : Type 0) : Type 0 where
  pub safe : F
  pub reasons : List Text

abbrev pub Lane : Type 0 → Type 0
Lane F = List (ScheduledTest F)

module _ {F : Type 0} ⦃fl : Float F⦄ where
  open fl use {lit, le, add, sub, mul, div, percent}

  abbrev pub runs_at : F → ScheduledTest F → Bool
  runs_at instant item = le item.estimated_start instant && lt instant item.estimated_end

  -- _overlapping_at; `except` drops the lane of the excluded worker.
  unfoldable pub overlapping_at : List (Lane F) → F → ℕ → Lane F
  overlapping_at lanes instant excluded = keep (runs_at instant) (concat (except excluded lanes))

  -- lane[i].estimated_end <= start
  abbrev pub ended_by : F → Option (ScheduledTest F) → Bool
  ended_by start none = false
  ended_by start (some item) = le item.estimated_end start

  -- The binary search over the lane's end times. The fuel is the length of the range.
  unfoldable pub search_live : ℕ → F → Lane F → ℕ → ℕ → ℕ
  search_live zero start lane low high = low
  search_live (suc fuel) start lane low high =
      let middle = (low + high) / 2 in
      let right = search_live fuel start lane (middle + 1) high in
      let left = search_live fuel start lane low middle in
      if ltb low high then (if ended_by start (get_elem? lane middle) then right else left) else low

  unfoldable pub first_live : F → Lane F → ℕ
  first_live start lane = search_live (length lane) start lane 0 (length lane)

  module _ (test_id : Text) (start end : F) (risk : RiskIndex F) where
    unfoldable pub overlap_of : ScheduledTest F → F
    overlap_of other =
        fmax nought (sub (fmin end other.estimated_end) (fmax start other.estimated_start))

    abbrev explanation_of : Option (PairPrediction F) → Text
    explanation_of none = codes "predicted shared-resource risk"
    explanation_of (some p) = p.explanation

    abbrev reason : ScheduledTest F → F → Text
    reason other p =
        other.node_id
        ++ (codes ": "
            ++ (percent p
                ++ (codes " ("
                    ++ (explanation_of (prediction risk test_id other.test_id) ++ codes ")"))))

    -- The body of the inner loop below its `break`.
    unfoldable pub expose : Exposure F → ScheduledTest F → Exposure F
    unfolding overlap_of
    expose acc other =
        let overlap = overlap_of other in
        let p = probability risk test_id other.test_id in
        let exposure =
          fmin unit
            (div overlap (fmax (lit 1 3) (fmin (sub end start) other.estimated_duration))) in
        if le overlap nought then acc else record {
          safe = mul acc.safe (sub unit (mul p exposure));
          reasons = if le (lit 25 2) p then acc.reasons ++ reason other p ∷ [] else acc.reasons;
        }

    -- `for other in lane[low:]`, with its `break`
    unfoldable pub scan : Exposure F → Lane F → Exposure F
    unfolding expose
    scan acc [] = acc
    scan acc (other ∷ rest) =
        let go_on = scan (expose acc other) rest in
        if le end other.estimated_start then acc else go_on

    unfoldable pub scan_lane : Exposure F → Lane F → Exposure F
    unfolding first_live scan search_live
    scan_lane acc lane = scan acc (drop (first_live start lane) lane)

    -- _placement_risk
    unfoldable pub placement_risk : List (Lane F) → ℕ → F × List Text
    unfolding scan_lane
    placement_risk lanes worker =
        let acc = foldl scan_lane (record { safe = unit; reasons = [] }) (except worker lanes) in
        (sub unit acc.safe, acc.reasons)

  -- _placement_cost
  unfoldable pub placement_cost :
      PolicyParameters F → Text → F → F → List (Lane F) → RiskIndex F → ℕ → F
  unfolding placement_risk
  placement_cost params test_id start duration lanes risk worker =
      let p = (placement_risk test_id start (add start duration) risk lanes worker).0 in
      add (sub start (mul params.utilization_bias duration))
        (mul (mul params.risk_weight p) duration)
