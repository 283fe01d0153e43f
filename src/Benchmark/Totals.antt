-- ===== src/Benchmark/Totals.antt =====
-- The report of a benchmark adds up.
use mathlib.Core.Option.{some_inj}
use conflict_graph.Prelude.{
  ℕ, zero, suc, ◌+◌, ◌*◌, ◌≡◌, refl, ap, ◌∙◌, subst, arith, Option, none, some, List, [], ◌∷◌, map,
  length, All, range, range_from, >>=-eq-some,
}
use conflict_graph.Prelude.Text.{Text, text_eq, codes}
use conflict_graph.Prelude.Dict.{Dict, get}
use conflict_graph.Prelude.Float.{Float}
use conflict_graph.Types.Plan.{Schedule}
use conflict_graph.Benchmark.{TrialResult, simulate_schedule}
use conflict_graph.Benchmark.Failures.{simulate_schedule-counts}
use conflict_graph.Benchmark.Trials.{
  Statistics, AggregateResult, ReplayTotals, sum, by_name, interval_of, aggregate_trials, trials_of,
  aggregates_of, replay_trials,
}

length-range_from : (n i : ℕ) → length (range_from n i) ≡ n
length-range_from zero i = refl
length-range_from (suc n) i = ap suc (length-range_from n (suc i))

module _ {F : Type 0} ⦃fl : Float F⦄ where
  -- The trials of a strategy with so many tests in each.
  pub record IsRun (name : Text) (n k : ℕ) (trials : List (TrialResult F)) : Type 0 where
    pub counted : length trials ≡ k
    executions : sum (λ t. t.tests) trials ≡ k * n
    failures : sum (λ t. t.conflict_failures) trials ≡ sum (λ t. t.failures) trials
    named : All (λ t. t.scheduler ≡ name) trials

  -- The aggregate of `k` trials of a strategy with `n` tests in each.
  abbrev pub IsTotal : Text → ℕ → ℕ → AggregateResult F → Type 0
  IsTotal name n k a =
      (a.scheduler ≡ name)
      × (a.trials ≡ k)
      × (a.executions ≡ k * n)
      × (a.conflict_failures ≡ a.failures)

  -- The results are those of the strategies in their order, each the aggregate of its trials.
  abbrev pub AreTotals :
      ℕ → ℕ → List (Text × (ℕ → Option (Schedule F))) → List (AggregateResult F) → Type 0
  AreTotals n k [] [] = Unit
  AreTotals n k [] (a ∷ results) = ⊥
  AreTotals n k (s ∷ strategies) [] = ⊥
  AreTotals n k (s ∷ strategies) (a ∷ results) =
      IsTotal s.0 n k a × AreTotals n k strategies results

  abbrev pub Sized : ℕ → Option (Schedule F) → Type 0
  Sized n none = Unit
  Sized n (some schedule) = length schedule.tests ≡ n

  -- Every schedule that the strategies make has `n` tests.
  abbrev pub Schedules : ℕ → List (Text × (ℕ → Option (Schedule F))) → Type 0
  Schedules n = All (λ s. (trial : ℕ) → Sized n (s.1 trial))

  IsRun-cons :
      {name : Text} {n k : ℕ} (t : TrialResult F) (trials : List (TrialResult F))
      → t.tests ≡ n
      → t.conflict_failures ≡ t.failures
      → t.scheduler ≡ name
      → IsRun name n k trials
      → IsRun name n (suc k) (t ∷ trials)
  IsRun-cons t trials e f q r = record {
    counted = ap suc r.counted;
    executions = rw (e, r.executions) (ground arith);
    failures = rw (f, r.failures) refl;
    named = (q, r.named);
  }

  module _ (stats : Statistics F) (draw : ℕ → ℕ → F) (probabilities : Dict (Text × Text) F)
      (seed n : ℕ) where
    trials_of-IsRun :
        (name : Text) (create_schedule : ℕ → Option (Schedule F)) (numbers : List ℕ)
        (trials : List (TrialResult F))
        → ((trial : ℕ) → Sized n (create_schedule trial))
        → trials_of stats draw probabilities seed name create_schedule numbers ≡ some trials
        → IsRun name n (length numbers) trials
    unfolding trials_of
    trials_of-IsRun name create_schedule [] trials made h =
        let e : [] ≡ trials = cc in
        subst (IsRun name n 0) e
          (record { counted = refl; executions = omega arith; failures = refl; named = tt })
    trials_of-IsRun name create_schedule (trial ∷ numbers) trials made h =
        let (schedule, e, h1) = >>=-eq-some (create_schedule trial) _ h in
        let trial_seed = seed + trial * 104729 in
        let (t, g, h2) =
          >>=-eq-some
            (simulate_schedule (draw trial_seed) probabilities schedule trial trial_seed name) _
            h1 in
        let (later, f, h3) =
          >>=-eq-some (trials_of stats draw probabilities seed name create_schedule numbers) _ h2 in
        let (tests, failures, named) =
          simulate_schedule-counts (draw trial_seed) probabilities schedule trial trial_seed name t
            g in
        let q : t ∷ later ≡ trials = cc in
        subst (IsRun name n (suc (length numbers))) q (
          IsRun-cons t later (tests ∙ subst (Sized n) e (made trial)) failures named
            (trials_of-IsRun name create_schedule numbers later made f))

    aggregate_trials-IsTotal :
        (name : Text) (k : ℕ) (trials : List (TrialResult F)) (a : AggregateResult F)
        → IsRun name n k trials
        → aggregate_trials stats seed trials ≡ some a
        → IsTotal name n k a
    unfolding aggregate_trials
    aggregate_trials-IsTotal name k [] a r h = cc
    aggregate_trials-IsTotal name k (t ∷ trials) a r h =
        let rates = interval_of stats seed (map (λ u. u.flake_rate) (t ∷ trials)) in
        let makespans = interval_of stats seed (map (λ u. u.makespan_seconds) (t ∷ trials)) in
        let (rates_interval, e, h1) = >>=-eq-some rates _ h in
        let (makespans_interval, f, h2) = >>=-eq-some makespans _ h1 in
        subst (IsTotal name n k) (some_inj.0 h2) (r.named.0, r.counted, r.executions, r.failures)

    pub all_trials :
        (name : Text) (create_schedule : ℕ → Option (Schedule F)) (k : ℕ)
        (trials : List (TrialResult F))
        → ((trial : ℕ) → Sized n (create_schedule trial))
        → trials_of stats draw probabilities seed name create_schedule (range k) ≡ some trials
        → IsRun name n k trials
    all_trials name create_schedule k trials m e =
        subst (λ l. IsRun name n l trials) (length-range_from k 0)
          (trials_of-IsRun name create_schedule (range k) trials m e)

    pub aggregates_of-AreTotals :
        (k : ℕ) (strategies : List (Text × (ℕ → Option (Schedule F))))
        (results : List (AggregateResult F))
        → Schedules n strategies
        → aggregates_of stats draw probabilities seed k strategies ≡ some results
        → AreTotals n k strategies results
    unfolding aggregates_of
    aggregates_of-AreTotals k [] results made h =
        let e : [] ≡ results = cc in subst (AreTotals n k []) e tt
    aggregates_of-AreTotals k ((name, create_schedule) ∷ strategies) results (m, made) h =
        let (trials, e, h1) =
          >>=-eq-some (trials_of stats draw probabilities seed name create_schedule (range k)) _
            h in
        let (a, f, h2) = >>=-eq-some (aggregate_trials stats seed trials) _ h1 in
        let (later, g, h3) =
          >>=-eq-some (aggregates_of stats draw probabilities seed k strategies) _ h2 in
        let q : a ∷ later ≡ results = cc in
        let total =
          aggregate_trials-IsTotal name k trials a (all_trials name create_schedule k trials m e)
            f in
        subst (AreTotals n k ((name, create_schedule) ∷ strategies)) q
          (total, aggregates_of-AreTotals k strategies later made g)

    executions-AreTotals :
        (k : ℕ) (strategies : List (Text × (ℕ → Option (Schedule F))))
        (results : List (AggregateResult F))
        → AreTotals n k strategies results
        → sum (λ a. a.executions) results ≡ length strategies * (k * n)
    executions-AreTotals k [] [] t = omega arith
    executions-AreTotals k [] (a ∷ results) t = elim t [ ]
    executions-AreTotals k (s ∷ strategies) [] t = elim t [ ]
    executions-AreTotals k (s ∷ strategies) (a ∷ results) ((_, _, e, _), t) =
        rw (e, executions-AreTotals k strategies results t) (ground arith)

    -- When every schedule of every strategy has `n` tests and the replay returns: its results are
    -- those of the strategies in their order; each counts all of the `trial_count` trials, the `n`
    -- executions of each of these, and as many conflict failures as failures; and the total of
    -- executions is that of all strategies and trials.
    pub replay_trials-AreTotals :
        (trial_count : ℕ) (strategies : List (Text × (ℕ → Option (Schedule F))))
        (r : ReplayTotals F)
        → Schedules n strategies
        → replay_trials stats draw probabilities seed trial_count strategies ≡ some r
        → AreTotals n trial_count strategies r.results
          × (r.total_test_executions ≡ length strategies * (trial_count * n))
    unfolding replay_trials
    replay_trials-AreTotals trial_count strategies r made h =
        let (aggregates, e, h1) =
          >>=-eq-some (aggregates_of stats draw probabilities seed trial_count strategies) _ h in
        let (random_result, f, h2) = >>=-eq-some (get (codes "random") (by_name aggregates)) _ h1 in
        let (intelligent, g, h3) =
          >>=-eq-some (get (codes "heuristic") (by_name aggregates)) _ h2 in
        let t = aggregates_of-AreTotals trial_count strategies aggregates made e in
        subst
          (λ x.
            AreTotals n trial_count strategies x.results
            × (x.total_test_executions ≡ length strategies * (trial_count * n)))
          (some_inj.0 h3) (t, executions-AreTotals trial_count strategies aggregates t)
