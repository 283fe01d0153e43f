-- ===== src/Benchmark/Trials.antt =====
-- The trials of `run_replay_benchmark` in python/conflictgraph/benchmark.py, `aggregate_trials` and
-- `bootstrap_interval` of python/conflictgraph/metrics.py. The strategies are given as functions from
-- the number of a trial to its schedule, `none` where they raise; the draws of a trial depend on its
-- seed.
use conflict_graph.Prelude.{
  ℕ, ◌+◌, ◌*◌, not, ◌||◌, ◌&&◌, Option, none, some, List, [], ◌∷◌, map, foldl, length, is_empty,
  ◌==◌, range, if◌then◌else◌, ◌>>=◌,
}
use conflict_graph.Prelude.Text.{Text, text_eq, codes}
use conflict_graph.Prelude.Dict.{Dict, get, put}
use conflict_graph.Prelude.Float.{Float, nought, unit, lt, eq}
use conflict_graph.Types.Events.{of_ℕ}
use conflict_graph.Types.Plan.{Schedule}
use conflict_graph.Benchmark.{TrialResult, simulate_schedule}

-- `statistics.mean`, and of numpy the mean, the quantile and the draws with replacement of a seed.
pub record Statistics (F : Type 0) : Type 0 where
  pub mean : List F → F
  pub np_mean : List F → F
  pub quantile : List F → F → F
  pub choice : ℕ → ℕ → List F → List (List F)

pub record AggregateResult (F : Type 0) : Type 0 where
  pub scheduler : Text
  pub trials : ℕ
  pub executions : ℕ
  pub failures : ℕ
  pub conflict_failures : ℕ
  pub flake_rate : F
  pub flake_rate_ci95 : F × F
  pub mean_makespan_seconds : F
  pub makespan_ci95 : F × F
  pub worker_utilization : F
  pub average_active_workers : F
  pub mean_risk_exposure : F
  pub mean_scheduler_overhead_ms : F

-- What the report says of the trials.
pub record ReplayTotals (F : Type 0) : Type 0 where
  pub total_test_executions : ℕ
  pub results : List (AggregateResult F)
  pub reduction : F
  pub throughput : F

abbrev pub sum {ℓ} : {A : Type ℓ} → (A → ℕ) → List A → ℕ
sum f [] = 0
sum f (x ∷ xs) = f x + sum f xs

abbrev pub by_name : {F : Type 0} → List (AggregateResult F) → Dict Text (AggregateResult F)
by_name = foldl (λ d item. put item.scheduler item d) []

module _ {F : Type 0} ⦃fl : Float F⦄ (stats : Statistics F) where
  open fl use {lit, le, sub, mul, div}

  -- The numbers between which the bootstrap samples lie; `none` is the ValueError.
  unfoldable pub bootstrap_interval : List F → ℕ → F → ℕ → Option (F × F)
  bootstrap_interval values seed confidence samples =
      if not (lt nought confidence && lt confidence unit) || samples == 0
      then none
      else if is_empty values
      then some (nought, nought)
      else (let means = map stats.np_mean (stats.choice seed samples values) in
          let tail = div (sub unit confidence) (of_ℕ 2) in
          some (stats.quantile means tail, stats.quantile means (sub unit tail)))

  abbrev pub interval_of : ℕ → List F → Option (F × F)
  unfolding bootstrap_interval
  interval_of seed values = bootstrap_interval values seed (lit 95 2) 2000

  -- `none` is the ValueError of an empty list of trials.
  unfoldable pub aggregate_trials : ℕ → List (TrialResult F) → Option (AggregateResult F)
  unfolding bootstrap_interval
  aggregate_trials seed [] = none
  aggregate_trials seed (first ∷ rest) = do
    let trials = first ∷ rest
    let rates = map (λ t. t.flake_rate) trials
    let makespans = map (λ t. t.makespan_seconds) trials
    rates_interval ← interval_of seed rates
    makespans_interval ← interval_of seed makespans
    some (record {
      scheduler = first.scheduler;
      trials = length trials;
      executions = sum (λ t. t.tests) trials;
      failures = sum (λ t. t.failures) trials;
      conflict_failures = sum (λ t. t.conflict_failures) trials;
      flake_rate = stats.mean rates;
      flake_rate_ci95 = rates_interval;
      mean_makespan_seconds = stats.mean makespans;
      makespan_ci95 = makespans_interval;
      worker_utilization = stats.mean (map (λ t. t.worker_utilization) trials);
      average_active_workers = stats.mean (map (λ t. t.average_active_workers) trials);
      mean_risk_exposure = stats.mean (map (λ t. t.expected_risk_exposure) trials);
      mean_scheduler_overhead_ms = stats.mean (map (λ t. t.scheduler_overhead_ms) trials);
    })

  module _ (draw : ℕ → ℕ → F) (probabilities : Dict (Text × Text) F) (seed : ℕ) where
    -- The trials of one strategy.
    unfoldable pub trials_of :
        Text → (ℕ → Option (Schedule F)) → List ℕ → Option (List (TrialResult F))
    unfolding simulate_schedule
    trials_of name create_schedule [] = some []
    trials_of name create_schedule (trial ∷ rest) = do
      schedule ← create_schedule trial
      let trial_seed = seed + trial * 104729
      result ← simulate_schedule (draw trial_seed) probabilities schedule trial trial_seed name
      later ← trials_of name create_schedule rest
      some (result ∷ later)

    -- The aggregates of all strategies.
    unfoldable pub aggregates_of :
        ℕ → List (Text × (ℕ → Option (Schedule F))) → Option (List (AggregateResult F))
    unfolding trials_of aggregate_trials
    aggregates_of trial_count [] = some []
    aggregates_of trial_count ((name, create_schedule) ∷ strategies) = do
      trials ← trials_of name create_schedule (range trial_count)
      aggregate ← aggregate_trials seed trials
      later ← aggregates_of trial_count strategies
      some (aggregate ∷ later)

    abbrev reduction_of : AggregateResult F → AggregateResult F → F
    reduction_of random_result intelligent =
        if eq random_result.flake_rate nought
        then nought
        else mul (of_ℕ 100) (sub unit (div intelligent.flake_rate random_result.flake_rate))

    abbrev throughput_of : AggregateResult F → AggregateResult F → F
    throughput_of random_result intelligent =
        if eq intelligent.mean_makespan_seconds nought
        then of_ℕ 100
        else div (mul (of_ℕ 100) random_result.mean_makespan_seconds)
            intelligent.mean_makespan_seconds

    -- The end of `run_replay_benchmark`, from the strategies on.
    unfoldable pub replay_trials :
        ℕ → List (Text × (ℕ → Option (Schedule F))) → Option (ReplayTotals F)
    unfolding aggregates_of
    replay_trials trial_count strategies = do
      aggregates ← aggregates_of trial_count strategies
      random_result ← get (codes "random") (by_name aggregates)
      intelligent ← get (codes "heuristic") (by_name aggregates)
      some (record {
        total_test_executions = sum (λ a. a.executions) aggregates;
        results = aggregates;
        reduction = reduction_of random_result intelligent;
        throughput = throughput_of random_result intelligent;
      })
