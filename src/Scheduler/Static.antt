-- ===== src/Scheduler/Static.antt =====
-- `static_schedule` of `ConflictScheduler` in python/conflictgraph/scheduler.py.
use conflict_graph.Prelude.{
  ℕ, Bool, ◌&&◌, ◌||◌, Option, none, some, List, map, if◌then◌else◌, ltb, leb, ◌==◌, length,
  is_empty, concat, sort_by, ◌>>=◌,
}
use conflict_graph.Prelude.Text.{Text, text_eq, text_lt}
use conflict_graph.Prelude.Dict.{Dict}
use conflict_graph.Prelude.Float.{Float, lt, eq, max_default}
use conflict_graph.Types.Stats.{TestIdentity, TestStats}
use conflict_graph.Types.Prediction.{PairPrediction}
use conflict_graph.Types.Plan.{ScheduledTest, Schedule}
use conflict_graph.Scheduler.Risk.{risk_index, ConflictScheduler}
use conflict_graph.Scheduler.Placement.{Lane}
use conflict_graph.Scheduler.Refine.{refine, schedule_risk}
use conflict_graph.Scheduler.Queue.{durations_of, identities_of, queue_of}
use conflict_graph.Scheduler.Place.{Progress, start_progress, place_all}

-- What the environment gives a run: the draws of `random.Random(seed)`, two fresh UUIDs and the
-- measured latency.
pub record Surroundings (F : Type 0) : Type 0 where
  pub draw : ℕ → F
  pub schedule_id : Text
  pub fresh_run_id : Text
  pub elapsed_ms : F

-- run_id or str(uuid.uuid4())
abbrev pub run_id_or : Option Text → Text → Text
run_id_or none fresh = fresh
run_id_or (some given) fresh = if is_empty given then fresh else given

module _ {F : Type 0} ⦃fl : Float F⦄ where
  -- (start, worker, test_id), for the final order
  unfoldable pub earlier : ScheduledTest F → ScheduledTest F → Bool
  earlier a b =
      lt a.estimated_start b.estimated_start
      || eq a.estimated_start b.estimated_start
        && (ltb a.worker b.worker || a.worker == b.worker && text_lt a.test_id b.test_id)

  module _ (self : ConflictScheduler F) (around : Surroundings F) (tests : List TestIdentity)
      (stats : Dict Text (TestStats F)) (predictions : List (PairPrediction F)) where
    -- The lanes when the loop ends.
    unfoldable pub placed : Option (Progress F)
    unfolding place_all queue_of start_progress risk_index
    placed =
        let queue = queue_of around.draw stats tests in
        place_all self (durations_of stats tests) (identities_of tests) (risk_index predictions)
          (length queue) (start_progress self queue)

    unfoldable pub refined : List (Lane F) → List (Lane F)
    unfolding refine
    refined lanes =
        if leb (length tests) 64
        then refine (risk_index predictions) self.params self.refinement_rounds lanes
        else lanes

    unfoldable pub schedule_of : Option Text → List (Lane F) → Schedule F
    unfolding earlier schedule_risk
    schedule_of run_id lanes =
        let flattened = sort_by earlier (concat lanes) in
        record {
          id = around.schedule_id;
          run_id = run_id_or run_id around.fresh_run_id;
          workers = self.workers;
          policy = self.policy;
          tests = flattened;
          scheduler_latency_ms = around.elapsed_ms;
          expected_makespan = max_default (map (λ item. item.estimated_end) flattened);
          expected_risk = schedule_risk (risk_index predictions) flattened;
          seed = self.seed;
        }

    -- static_schedule
    unfoldable pub static_schedule : Option Text → Option (Schedule F)
    unfolding placed refined schedule_of
    static_schedule run_id = do st ← placed; some (schedule_of run_id (refined st.lanes))
