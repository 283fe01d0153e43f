-- ===== src/Benchmark.antt =====
-- `simulate_schedule` of python/conflictgraph/benchmark.py. The draws of `random.Random(seed)` are a
-- sequence, of which the simulation has taken `drawn`.
pub mod Failures
pub mod Returned
pub mod Totals
pub mod Trials
use conflict_graph.Prelude.{
  ℕ, suc, ◌+◌, Bool, not, ◌&&◌, ◌||◌, Option, none, some, List, [], ◌∷◌, if◌then◌else◌, ◌==◌,
  length, map, foldl, pair_eq, nat_eq,
}
use conflict_graph.Prelude.Text.{Text, text_eq}
use conflict_graph.Prelude.Dict.{Dict, get}
use conflict_graph.Prelude.Sets.{contains, add_new}
use conflict_graph.Prelude.Float.{Float, nought, unit, lt, eq, fmin, fmax, max_default}
use conflict_graph.Types.Prediction.{stable_pair}
use conflict_graph.Types.Events.{of_ℕ}
use conflict_graph.Types.Plan.{ScheduledTest, Schedule}

-- The local variables of the loops.
pub record Simulation (F : Type 0) : Type 0 where
  pub failures : List Text
  pub conflict_failures : ℕ
  pub conflicting_overlaps : ℕ
  pub risk_exposure : F
  pub drawn : ℕ

pub record TrialResult (F : Type 0) : Type 0 where
  pub scheduler : Text
  pub trial : ℕ
  pub seed : ℕ
  pub workers : ℕ
  pub tests : ℕ
  pub failures : ℕ
  pub conflict_failures : ℕ
  pub flake_rate : F
  pub makespan_seconds : F
  pub worker_utilization : F
  pub average_active_workers : F
  pub expected_risk_exposure : F
  pub conflicting_overlaps : ℕ
  pub unnecessary_serialization_rate : F
  pub scheduler_overhead_ms : F

module _ {F : Type 0} ⦃fl : Float F⦄ where
  open fl use {lit, le, add, sub, mul, div}

  abbrev pub no_simulation : Simulation F
  no_simulation = record {
    failures = [];
    conflict_failures = 0;
    conflicting_overlaps = 0;
    risk_exposure = nought;
    drawn = 0;
  }

  abbrev number_or_nought : Option F → F
  number_or_nought none = nought
  number_or_nought (some x) = x

  -- How long two tests run at once.
  unfoldable pub overlap_between : ScheduledTest F → ScheduledTest F → F
  overlap_between left right = fmax nought (
      sub (fmin left.estimated_end right.estimated_end)
        (fmax left.estimated_start right.estimated_start))

  -- min(1.0, overlap / max(0.001, min(durations)))
  unfoldable pub exposure_of : ScheduledTest F → ScheduledTest F → F
  unfolding overlap_between
  exposure_of left right = fmin unit (
      div (overlap_between left right)
        (fmax (lit 1 3) (fmin left.estimated_duration right.estimated_duration)))

  unfoldable pub fail_test : Text → Simulation F → Simulation F
  fail_test victim s = record s {
    failures = add_new victim s.failures;
    conflict_failures =
        if contains victim s.failures then s.conflict_failures else s.conflict_failures + 1;
  }

  -- The makespan, and what the work is divided by for the utilization.
  abbrev pub makespan_of : Schedule F → F
  makespan_of schedule = max_default (map (λ item. item.estimated_end) schedule.tests)

  abbrev pub capacity_of : Schedule F → F
  capacity_of schedule = mul (makespan_of schedule) (of_ℕ schedule.workers)

  -- Whether `makespan * workers` is no 0 where it is divided by.
  abbrev pub is_divisible : Schedule F → Bool
  is_divisible schedule = eq (makespan_of schedule) nought || not (eq (capacity_of schedule) nought)

  module _ (draw : ℕ → F) (probabilities : Dict (Text × Text) F) where
    abbrev pub probability_of : ScheduledTest F → ScheduledTest F → F
    probability_of left right =
        number_or_nought (get (stable_pair left.test_id right.test_id) probabilities)

    -- probability * exposure
    abbrev pub chance_of : ScheduledTest F → ScheduledTest F → F
    chance_of left right = mul (probability_of left right) (exposure_of left right)

    -- What is noted of a pair that overlaps and may conflict, after the given number of draws.
    abbrev pub noted : ℕ → ScheduledTest F → Simulation F → ScheduledTest F → Simulation F
    noted drawn left s right = record s {
      conflicting_overlaps = s.conflicting_overlaps + 1;
      risk_exposure = add s.risk_exposure (chance_of left right);
      drawn = drawn;
    }

    abbrev pub victim_of : ScheduledTest F → Simulation F → ScheduledTest F → Text
    victim_of left s right =
        if lt (draw (suc s.drawn)) (lit 5 1) then left.test_id else right.test_id

    -- A draw says whether one of the two fails, and the next one which.
    unfoldable pub collide : ScheduledTest F → Simulation F → ScheduledTest F → Simulation F
    unfolding exposure_of fail_test
    collide left s right =
        if lt (draw s.drawn) (chance_of left right)
        then fail_test (victim_of left s right) (noted (s.drawn + 2) left s right)
        else noted (s.drawn + 1) left s right

    -- The body of the inner loop.
    unfoldable pub meet : ScheduledTest F → Simulation F → ScheduledTest F → Simulation F
    unfolding collide overlap_between
    meet left s right =
        if left.worker == right.worker
        then s
        else if le (overlap_between left right) nought
        then s
        else (if eq (probability_of left right) nought then s else collide left s right)

    -- The two loops.
    unfoldable pub simulate : Simulation F → List (ScheduledTest F) → Simulation F
    unfolding meet
    simulate s [] = s
    simulate s (left ∷ tests) = simulate (foldl (meet left) s tests) tests

    abbrev sum_of : List F → F
    sum_of = foldl add nought

    unfoldable pub trial_result : Schedule F → ℕ → ℕ → Text → TrialResult F
    unfolding simulate
    trial_result schedule trial seed scheduler_name =
        let tests = schedule.tests in
        let s = simulate no_simulation tests in
        let makespan = makespan_of schedule in
        let work = sum_of (map (λ item. item.estimated_duration) tests) in
        let workers = of_ℕ schedule.workers in
        let idle = eq makespan nought in
        let ideal = if schedule.workers == 0 then work else div work workers in
        record {
          scheduler = scheduler_name;
          trial = trial;
          seed = seed;
          workers = schedule.workers;
          tests = length tests;
          failures = length s.failures;
          conflict_failures = s.conflict_failures;
          flake_rate =
              if length tests == 0
              then nought
              else div (of_ℕ (length s.failures)) (of_ℕ (length tests));
          makespan_seconds = makespan;
          worker_utilization = if idle then nought else div work (capacity_of schedule);
          average_active_workers = if idle then nought else div work makespan;
          expected_risk_exposure = s.risk_exposure;
          conflicting_overlaps = s.conflicting_overlaps;
          unnecessary_serialization_rate =
              if idle then nought else div (fmax nought (sub makespan ideal)) makespan;
          scheduler_overhead_ms = schedule.scheduler_latency_ms;
        }

    -- `none` is the ZeroDivisionError of a schedule without workers whose tests take time.
    unfoldable pub simulate_schedule : Schedule F → ℕ → ℕ → Text → Option (TrialResult F)
    unfolding trial_result
    simulate_schedule schedule trial seed scheduler_name =
        if is_divisible schedule
        then some (trial_result schedule trial seed scheduler_name)
        else none
