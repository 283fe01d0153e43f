-- ===== src/Samples/Scheduling.antt =====
-- The scheduler's theorems on the sample run.
use conflict_graph.Prelude.{
  ℕ, ◌≡◌, refl, Option, none, some, List, [], ◌∷◌, arith, Perm, concat, get_or, ◌-◌, ◌≤◌, length,
}
use conflict_graph.Prelude.Int.{ℤ, pos}
use conflict_graph.Prelude.Text.{Text, codes}
use conflict_graph.Prelude.Float.{nought}
use conflict_graph.Types.Enums.{RiskPolicy}
use conflict_graph.Types.Plan.{ScheduledTest, Schedule}
use conflict_graph.Scheduler.Risk.{risk_index, probability}
use conflict_graph.Scheduler.Placement.{Lane, placement_risk}
use conflict_graph.Scheduler.Queue.{durations_of, identities_of}
use conflict_graph.Scheduler.Place.{choose}
use conflict_graph.Scheduler.Refine.{refine, objective}
use conflict_graph.Scheduler.Static.{static_schedule}
use conflict_graph.Scheduler.Progress.{ids}
use conflict_graph.Scheduler.Exposed.{plain_risk, placement_risk-eq-plain_risk}
use conflict_graph.Scheduler.Choice.{Decision, choose-Decision}
use conflict_graph.Scheduler.Refined.{IsPlan}
use conflict_graph.Scheduler.Packed.{Packed, refine-PackedAt}
use conflict_graph.Scheduler.Correct.{distinct_ids, static_schedule_total, static_schedule-IsPlan}
use conflict_graph.Samples.Milli.{milli, milli-IsOrdered}
use conflict_graph.Samples.World.{three, stats, conflict, around, scheduler, built}

abbrev run : Option (Schedule ℤ)
run = static_schedule scheduler around three stats (conflict ∷ []) none

abbrev planned : Text → ℕ → ℕ → ℕ → ScheduledTest ℤ
planned name worker start end = record {
  test_id = name;
  node_id = name;
  worker = worker;
  estimated_start = pos start;
  estimated_end = pos end;
  estimated_duration = pos (end - start);
  risk_cost = nought;
  reasons = [];
}

abbrev pub result : Schedule ℤ
result = record {
  id = codes "s";
  run_id = codes "r";
  workers = 2;
  policy = RiskPolicy.balanced;
  tests =
      planned (codes "a") 0 0 3000
      ∷ planned (codes "c") 1 0 1000
      ∷ planned (codes "b") 1 1000 3000
      ∷ [];
  scheduler_latency_ms = pos 0;
  expected_makespan = pos 3000;
  expected_risk = pos 1900;
  seed = pos 42;
}

-- The lanes before refinement: `b` waits for `a`.
abbrev delayed : List (Lane ℤ)
delayed =
    (planned (codes "a") 0 0 3000 ∷ [])
    ∷ (planned (codes "c") 1 0 1000 ∷ planned (codes "b") 1 3000 5000 ∷ [])
    ∷ []

static_schedule_total_example :
    (s : Schedule ℤ) × (run ≡ some s) × Perm (ids s.tests) (distinct_ids three)
static_schedule_total_example =
    static_schedule_total milli-IsOrdered 2 RiskPolicy.balanced (pos 42) none none 4 scheduler built
      around three stats (conflict ∷ []) none

static_schedule-IsPlan_example :
    (lanes : List (Lane ℤ)) × (s : Schedule ℤ) × (run ≡ some s)
    × IsPlan 2 (distinct_ids three) lanes
    × Perm s.tests (concat lanes)
static_schedule-IsPlan_example =
    static_schedule-IsPlan milli-IsOrdered 2 RiskPolicy.balanced (pos 42) none none 4 scheduler
      built around three stats (conflict ∷ []) none

choose-Decision_example :
    Decision scheduler
      (durations_of stats three)
      (identities_of three)
      (risk_index (conflict ∷ []))
      delayed
      1
      (pos 1000)
      (codes "b" ∷ [])
      (choose scheduler
        (durations_of stats three)
        (identities_of three)
        (risk_index (conflict ∷ []))
        delayed
        1
        (pos 1000)
        (codes "b" ∷ []))
choose-Decision_example =
    choose-Decision scheduler (durations_of stats three) (identities_of three)
      (risk_index (conflict ∷ [])) delayed 1 (pos 1000) (codes "b" ∷ []) refl (omega arith)

placement_risk-eq-plain_risk_example :
    placement_risk (codes "b") (pos 1000) (pos 3000) (risk_index (conflict ∷ [])) delayed 1
    ≡ plain_risk (codes "b") (pos 1000) (pos 3000) (risk_index (conflict ∷ [])) delayed 1
placement_risk-eq-plain_risk_example =
    placement_risk-eq-plain_risk milli-IsOrdered (codes "b") (pos 1000) (pos 3000)
      (risk_index (conflict ∷ [])) delayed 1
      ((refl, refl, tt), ((refl, refl, (refl, refl, tt)), tt))

abbrev refined_lanes : List (Lane ℤ)
refined_lanes = refine (risk_index (conflict ∷ [])) scheduler.params 4 delayed

two_left : 2 ≤ length (get_or refined_lanes 1 [])
unfolding refine risk_index probability
two_left = omega arith

refine-PackedAt_example : Packed nought (get_or refined_lanes 1 [])
refine-PackedAt_example =
    refine-PackedAt (risk_index (conflict ∷ [])) scheduler.params 3 delayed 1 two_left

-- On these lanes refinement gives up the delay of `b` and raises the objective from 5.0 to 6.8.
objective_raised :
    (objective (risk_index (conflict ∷ [])) scheduler.params (concat delayed) ≡ pos 5000)
    × (objective (risk_index (conflict ∷ [])) scheduler.params (concat refined_lanes) ≡ pos 6800)
unfolding refine risk_index objective probability
objective_raised = (refl, refl)
