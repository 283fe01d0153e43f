-- ===== src/Samples/Trial.antt =====
-- A trial on the sample schedule, where the draws let `a` and `b` collide.
use conflict_graph.Prelude.{ℕ, ◌*◌, Option, none, some, List, ◌≡◌, refl, [], ◌∷◌, pair_eq}
use conflict_graph.Prelude.Int.{ℤ, pos}
use conflict_graph.Prelude.Text.{Text, text_eq, codes}
use conflict_graph.Prelude.Dict.{Dict}
use conflict_graph.Benchmark.{TrialResult, trial_result}
use conflict_graph.Benchmark.Trials.{Statistics, ReplayTotals, replay_trials}
use conflict_graph.Benchmark.Totals.{AreTotals}
use conflict_graph.Benchmark.Returned.{replay_trials_total}
use conflict_graph.Types.Plan.{Schedule}
use conflict_graph.Samples.Milli.{milli}
use conflict_graph.Samples.Scheduling.{result}

abbrev truth : Dict (Text × Text) ℤ
truth = ((codes "a", codes "b"), pos 880) ∷ []

abbrev trial : TrialResult ℤ
trial = trial_result (λ n. pos 100) truth result 1 42 (codes "balanced")

-- The one overlap that may conflict does.
one_failure : (trial.failures ≡ 1) × (trial.conflicting_overlaps ≡ 1)
unfolding trial_result
one_failure = (refl, refl)

abbrev statistics : Statistics ℤ
statistics = record {
  mean = λ xs. pos 0;
  np_mean = λ xs. pos 0;
  quantile = λ xs q. pos 0;
  choice = λ seed samples xs. xs ∷ [];
}

abbrev strategies : List (Text × (ℕ → Option (Schedule ℤ)))
strategies = (codes "random", λ run. some result) ∷ (codes "heuristic", λ run. some result) ∷ []

abbrev or_nothing : Option (ReplayTotals ℤ) → ReplayTotals ℤ
or_nothing none = record {
  total_test_executions = 0;
  results = [];
  reduction = pos 0;
  throughput = pos 0;
}
or_nothing (some r) = r

-- The replay of both in two trials.
abbrev replay_result : ReplayTotals ℤ
unfolding replay_trials
replay_result = or_nothing (replay_trials statistics (λ seed n. pos 100) truth 42 2 strategies)

replayed : replay_trials statistics (λ seed n. pos 100) truth 42 2 strategies ≡ some replay_result
unfolding replay_trials
replayed = refl

replay_trials_total_example :
    (r : ReplayTotals ℤ) × (replay_trials statistics (λ seed n. pos 100) truth 42 2 strategies
      ≡ some r)
    × AreTotals 3 2 strategies r.results
    × (r.total_test_executions ≡ 2 * (2 * 3))
replay_trials_total_example =
    replay_trials_total statistics (λ seed n. pos 100) truth 42 3 1 strategies refl refl
      (λ trial. (result, refl, refl), (λ trial. (result, refl, refl), tt))
      (λ trial. refl, (λ trial. refl, tt)) refl refl
