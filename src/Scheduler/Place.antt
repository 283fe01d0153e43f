-- ===== src/Scheduler/Place.antt =====
-- The loop of `static_schedule` in python/conflictgraph/scheduler.py. A `none` is a raised ValueError
-- or KeyError.
use conflict_graph.Prelude.{
  ℕ, zero, suc, Bool, ◌&&◌, ◌||◌, Option, none, some, List, [], ◌∷◌, ◌++◌, map, if◌then◌else◌, ltb,
  same, get_or, set, take, replicate, range, is_empty, keep, min_by, ◌>>=◌,
}
use conflict_graph.Prelude.Text.{Text, text_eq}
use conflict_graph.Prelude.Dict.{Dict, get}
use conflict_graph.Prelude.Float.{Float, nought, lt, eq, fmax}
use conflict_graph.Types.Stats.{TestIdentity}
use conflict_graph.Types.Plan.{ScheduledTest}
use conflict_graph.Scheduler.Risk.{RiskIndex, ConflictScheduler}
use conflict_graph.Scheduler.Placement.{Lane, overlapping_at, placement_risk, placement_cost}
use conflict_graph.Scheduler.Queue.{entry}

-- The variables of the `while remaining` loop.
pub record Progress (F : Type 0) : Type 0 where
  pub lanes : List (List (ScheduledTest F))
  pub lane_ends : List F
  pub remaining : List Text

-- xs.remove(x); `none` is the ValueError.
unfoldable pub remove_text : Text → List Text → Option (List Text)
remove_text x [] = none
remove_text x (y ∷ ys) =
    let rest = remove_text x ys in if same y x then some ys else (do kept ← rest; some (y ∷ kept))

module _ {F : Type 0} ⦃fl : Float F⦄ where
  open fl use {le, add}

  -- (lane_ends[i], i) < (lane_ends[j], j)
  unfoldable pub freer : List F → ℕ → ℕ → Bool
  freer lane_ends i j =
      let x = get_or lane_ends i nought in
      let y = get_or lane_ends j nought in lt x y || eq x y && ltb i j

  module _ (self : ConflictScheduler F) (durations : Dict Text F) (by_id : Dict Text TestIdentity)
      (risk : RiskIndex F) where
    open self.params use {hard_threshold, lookahead}

    -- The risk of starting a test on a worker at a time.
    abbrev pub risk_at : List (Lane F) → ℕ → F → Text → F × List Text
    risk_at lanes worker start test_id =
        placement_risk test_id start (add start (entry durations test_id)) risk lanes worker

    abbrev pub cheaper : List (Lane F) → ℕ → F → Text → Text → Bool
    cheaper lanes worker start a b =
        lt (placement_cost self.params a start (entry durations a) lanes risk worker)
          (placement_cost self.params b start (entry durations b) lanes risk worker)

    -- The branch of a hard-risk candidate: a safe one if there is any, else a later start.
    unfoldable pub avoid : List (Lane F) → ℕ → F → List Text → Text → Option (Text × F)
    unfolding overlapping_at placement_cost
    avoid lanes worker start candidates chosen =
        let safe = keep (λ c. lt (risk_at lanes worker start c).0 hard_threshold) candidates in
        if is_empty safe
        then (do
          next_end ←
              min_by lt (map (λ item. item.estimated_end) (overlapping_at lanes start worker))
          some (chosen, fmax start next_end))
        else (do better ← min_by (cheaper lanes worker start) safe; some (better, start))

    -- Which of the first `lookahead` tests to place next on a worker that is free at `start`, and
    -- when it starts.
    unfoldable pub choose : List (Lane F) → ℕ → F → List Text → Option (Text × F)
    unfolding avoid
    choose lanes worker start remaining = do
      let candidates = take lookahead remaining
      chosen ← min_by (cheaper lanes worker start) candidates
      if le hard_threshold (risk_at lanes worker start chosen).0
          then (if is_empty (overlapping_at lanes start worker)
              then some (chosen, start)
              else avoid lanes worker start candidates chosen)
          else some (chosen, start)

    abbrev pub scheduled_at : List (Lane F) → ℕ → Text → TestIdentity → F → ScheduledTest F
    scheduled_at lanes worker chosen test start =
        let (p, why) = risk_at lanes worker start chosen in
        record {
          test_id = chosen;
          node_id = test.node_id;
          worker = worker;
          estimated_start = start;
          estimated_end = add start (entry durations chosen);
          estimated_duration = entry durations chosen;
          risk_cost = p;
          reasons = why;
        }

    -- lanes[worker].append(scheduled); lane_ends[worker] = scheduled.estimated_end
    unfoldable pub append_to : ℕ → ScheduledTest F → List Text → Progress F → Progress F
    append_to worker item kept st = record {
      lanes = set st.lanes worker (get_or st.lanes worker [] ++ item ∷ []);
      lane_ends = set st.lane_ends worker item.estimated_end;
      remaining = kept;
    }

    -- One round of the loop, on the worker that is free first.
    unfoldable pub place_on : ℕ → Progress F → Option (Progress F)
    unfolding choose append_to remove_text
    place_on worker st = do
      (chosen, start) ← choose st.lanes worker (get_or st.lane_ends worker nought) st.remaining
      test ← get chosen by_id
      kept ← remove_text chosen st.remaining
      some (append_to worker (scheduled_at st.lanes worker chosen test start) kept st)

    unfoldable pub place : Progress F → Option (Progress F)
    unfolding place_on freer
    place st = do worker ← min_by (freer st.lane_ends) (range self.workers); place_on worker st

    -- while remaining; each round takes one test off, so their number is fuel enough.
    unfoldable pub place_all : ℕ → Progress F → Option (Progress F)
    unfolding place
    place_all zero st = some st
    place_all (suc fuel) st =
        let next = (do st' ← place st; place_all fuel st') in
        if is_empty st.remaining then some st else next

  unfoldable pub start_progress : ConflictScheduler F → List Text → Progress F
  start_progress self remaining = record {
    lanes = replicate self.workers [];
    lane_ends = replicate self.workers nought;
    remaining = remaining;
  }
