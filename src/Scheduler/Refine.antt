-- ===== src/Scheduler/Refine.antt =====
-- `_refine`, `_reflow_lane`, `_objective` and `_schedule_risk` of `ConflictScheduler` in
-- python/conflictgraph/scheduler.py.
use conflict_graph.Prelude.{
  ℕ, zero, suc, ◌-◌, Bool, true, false, List, [], ◌∷◌, map, if◌then◌else◌, ◌==◌, length, get_or,
  set, concat,
}
use conflict_graph.Prelude.Float.{Float, nought, lt, eq, fmin, fmax, max_default}
use conflict_graph.Types.Plan.{ScheduledTest}
use conflict_graph.Scheduler.Risk.{RiskIndex, probability, PolicyParameters}
use conflict_graph.Scheduler.Placement.{Lane}

-- What the rounds of `_refine` carry.
pub record Refinement (F : Type 0) : Type 0 where
  pub lanes : List (List (ScheduledTest F))
  pub baseline : F
  pub changed : Bool

-- xs[i], xs[i + 1] = xs[i + 1], xs[i]
unfoldable pub swap_next {ℓ} : {A : Type ℓ} → ℕ → List A → List A
swap_next i [] = []
swap_next zero (x ∷ []) = x ∷ []
swap_next zero (x ∷ y ∷ xs) = y ∷ x ∷ xs
swap_next (suc i) (x ∷ xs) = x ∷ swap_next i xs

module _ {F : Type 0} ⦃fl : Float F⦄ where
  open fl use {lit, le, add, sub, mul}

  -- _reflow_lane, from a cursor
  unfoldable pub reflow_from : F → ℕ → Lane F → Lane F
  reflow_from cursor worker [] = []
  reflow_from cursor worker (item ∷ rest) =
      let end = add cursor item.estimated_duration in
      record item { worker = worker; estimated_start = cursor; estimated_end = end }
      ∷ reflow_from end worker rest

  unfoldable pub reflow_lane : Lane F → ℕ → Lane F
  unfolding reflow_from
  reflow_lane lane worker = reflow_from nought worker lane

  module _ (risk : RiskIndex F) where
    -- The body of the inner loop of `_schedule_risk`.
    unfoldable pub pair_risk : ScheduledTest F → F → ScheduledTest F → F
    pair_risk left total right =
        let overlap = fmax nought (
          sub (fmin left.estimated_end right.estimated_end)
            (fmax left.estimated_start right.estimated_start)) in
        if left.worker == right.worker
        then total
        else if eq overlap nought
        then total
        else add total (mul (probability risk left.test_id right.test_id) overlap)

    unfoldable pub risk_with : ScheduledTest F → F → Lane F → F
    unfolding pair_risk
    risk_with left total [] = total
    risk_with left total (right ∷ rest) = risk_with left (pair_risk left total right) rest

    unfoldable pub risk_from : F → Lane F → F
    unfolding risk_with
    risk_from total [] = total
    risk_from total (left ∷ rest) = risk_from (risk_with left total rest) rest

    -- _schedule_risk
    unfoldable pub schedule_risk : Lane F → F
    unfolding risk_from
    schedule_risk tests = risk_from nought tests

    module _ (params : PolicyParameters F) where
      -- _objective
      unfoldable pub objective : Lane F → F
      unfolding schedule_risk
      objective tests =
          add (max_default (map (λ item. item.estimated_end) tests))
            (mul params.risk_weight (schedule_risk tests))

      -- The body of the inner loop of `_refine`: try one adjacent swap.
      unfoldable pub try_swap : ℕ → ℕ → Refinement F → Refinement F
      unfolding objective reflow_lane swap_next
      try_swap lane_index index st =
          let lane = get_or st.lanes lane_index [] in
          let swapped = reflow_lane (swap_next index lane) lane_index in
          let lanes = set st.lanes lane_index swapped in
          let candidate = objective (concat lanes) in
          let restored = reflow_lane (swap_next index swapped) lane_index in
          if lt (add candidate (lit 1 9)) st.baseline
          then record { lanes = lanes; baseline = candidate; changed = true }
          else record st { lanes = set lanes lane_index restored }

      -- for index in range(len(lane) - 1)
      unfoldable pub swap_lane : ℕ → ℕ → ℕ → Refinement F → Refinement F
      unfolding try_swap
      swap_lane zero lane_index index st = st
      swap_lane (suc left) lane_index index st =
          swap_lane left lane_index (suc index) (try_swap lane_index index st)

      -- for lane_index, lane in enumerate(lanes)
      unfoldable pub swap_lanes : ℕ → ℕ → Refinement F → Refinement F
      unfolding swap_lane
      swap_lanes zero lane_index st = st
      swap_lanes (suc left) lane_index st =
          swap_lanes left (suc lane_index)
            (swap_lane (length (get_or st.lanes lane_index []) - 1) lane_index 0 st)

      unfoldable pub refine_round : List (Lane F) → Refinement F
      unfolding swap_lanes
      refine_round lanes =
          swap_lanes (length lanes) 0
            (record { lanes = lanes; baseline = objective (concat lanes); changed = false })

      -- _refine; the rounds are the loop's, and none of them is the early return.
      unfoldable pub refine : ℕ → List (Lane F) → List (Lane F)
      unfolding refine_round
      refine zero lanes = lanes
      refine (suc rounds) lanes =
          let st = refine_round lanes in
          let again = refine rounds st.lanes in if st.changed then again else st.lanes
