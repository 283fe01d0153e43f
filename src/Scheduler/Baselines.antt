-- ===== src/Scheduler/Baselines.antt =====
-- `RandomScheduler` and `SerialScheduler` of python/conflictgraph/scheduler.py. The shuffle, the
-- UUIDs and the clock are parameters; the heap of (time, worker) is a list in order, whose first pair is taken.
pub mod Serial
pub mod Random
use conflict_graph.Prelude.{
  ℕ, zero, suc, Bool, ◌&&◌, ◌||◌, Option, none, some, List, [], ◌∷◌, ◌++◌, if◌then◌else◌, ltb, ◌==◌,
  map, range, ◌>>=◌, is_empty, insert_sorted,
}
use conflict_graph.Prelude.Int.{ℤ, pos}
use conflict_graph.Prelude.Text.{Text, text_eq, codes}
use conflict_graph.Prelude.Dict.{Dict, get}
use conflict_graph.Prelude.Float.{Float, nought, lt, eq, fmax, max_default}
use conflict_graph.Types.Enums.{RiskPolicy}
use conflict_graph.Types.Stats.{TestIdentity, TestStats}
use conflict_graph.Types.Plan.{ScheduledTest, Schedule}
use conflict_graph.Scheduler.Placement.{Lane}
use conflict_graph.Scheduler.Queue.{duration_of}
use conflict_graph.Scheduler.Static.{Surroundings, run_id_or}

module _ {F : Type 0} ⦃fl : Float F⦄ where
  -- ScheduledTest(test.id, test.node_id, worker, start, start + duration, duration)
  abbrev pub lasting_from : TestIdentity → ℕ → F → F → ScheduledTest F
  lasting_from test worker start duration = record {
    test_id = test.id;
    node_id = test.node_id;
    worker = worker;
    estimated_start = start;
    estimated_end = fl.add start duration;
    estimated_duration = duration;
    risk_cost = nought;
    reasons = [];
  }

  module _ (stats : Dict Text (TestStats F)) where
    -- The loop of SerialScheduler: what it schedules, and the cursor after it.
    unfoldable pub serial_from : F → List TestIdentity → List (ScheduledTest F) × F
    unfolding duration_of
    serial_from cursor [] = ([], cursor)
    serial_from cursor (test ∷ tests) =
        let duration = duration_of stats test in
        let (rest, end) = serial_from (fl.add cursor duration) tests in
        (lasting_from test 0 cursor duration ∷ rest, end)

    -- Tuples (time, worker) compare part by part.
    abbrev pub sooner : F × ℕ → F × ℕ → Bool
    sooner (s, v) (t, w) = lt s t || eq s t && ltb v w

    -- The loop of RandomScheduler; `none` is the IndexError of an empty heap.
    unfoldable pub random_from : List (F × ℕ) → List TestIdentity → Option (List (ScheduledTest F))
    unfolding duration_of
    random_from heap [] = some []
    random_from [] (test ∷ tests) = none
    random_from ((start, worker) ∷ heap) (test ∷ tests) =
        let duration = duration_of stats test in
        do
          rest ← random_from (insert_sorted sooner (fl.add start duration, worker) heap) tests
          some (lasting_from test worker start duration ∷ rest)

  -- What RandomScheduler returns for its list.
  abbrev pub random_result :
      Surroundings F → Option Text → ℕ → ℤ → List (ScheduledTest F) → Schedule F
  random_result around run_id workers seed scheduled = record {
    id = around.schedule_id;
    run_id = run_id_or run_id around.fresh_run_id;
    workers = workers;
    policy = RiskPolicy.aggressive;
    tests = scheduled;
    scheduler_latency_ms = around.elapsed_ms;
    expected_makespan = max_default (map (λ x. x.estimated_end) scheduled);
    expected_risk = nought;
    seed = seed;
  }

  module _ (around : Surroundings F) (tests : List TestIdentity) (stats : Dict Text (TestStats F))
      (run_id : Option Text) where
    -- SerialScheduler.schedule
    unfoldable pub serial_schedule : Schedule F
    unfolding serial_from
    serial_schedule =
        let (scheduled, cursor) = serial_from stats nought tests in
        record {
          id = around.schedule_id;
          run_id = run_id_or run_id around.fresh_run_id;
          workers = 1;
          policy = RiskPolicy.safe;
          tests = scheduled;
          scheduler_latency_ms = around.elapsed_ms;
          expected_makespan = cursor;
          expected_risk = nought;
          seed = pos 0;
        }

    -- RandomScheduler.schedule; `shuffle` is that of random.Random(seed).
    unfoldable pub random_schedule :
        ℕ → ℤ → (List TestIdentity → List TestIdentity) → Option (Schedule F)
    unfolding random_from
    random_schedule workers seed shuffle = do
      scheduled ←
          random_from stats (map (λ worker. (nought, worker)) (range workers)) (shuffle tests)
      some (random_result around run_id workers seed scheduled)
