-- ===== src/Benchmark/Returned.antt =====
-- The replay of a benchmark returns.
use conflict_graph.Prelude.{
  ℕ, suc, ◌+◌, ◌*◌, ◌≡◌, refl, ◌∙◌, arith, Bool, true, false, ◌||◌, Option, some, List, [], ◌∷◌,
  map, foldl, any, length, is_empty, All, range, same, if◌then◌else◌, >>=-total,
}
use conflict_graph.Prelude.Text.{Text, text_eq, codes}
use conflict_graph.Prelude.Dict.{Dict, get, put, has, has-put, get-has}
use conflict_graph.Prelude.Float.{Float, nought, unit, lt}
use conflict_graph.Types.Plan.{Schedule}
use conflict_graph.Benchmark.{TrialResult, is_divisible}
use conflict_graph.Benchmark.Failures.{simulate_schedule_total}
use conflict_graph.Benchmark.Trials.{
  Statistics, AggregateResult, ReplayTotals, by_name, interval_of, bootstrap_interval,
  aggregate_trials, trials_of, aggregates_of, replay_trials,
}
use conflict_graph.Benchmark.Totals.{
  IsRun, Schedules, AreTotals, aggregates_of-AreTotals, all_trials, replay_trials-AreTotals,
}

either_some :
    {A : Type 0} (b : Bool) (x y : A) → (z : A) × ((if b then some x else some y) ≡ some z)
either_some true x y = (x, refl)
either_some false x y = (y, refl)

module _ {F : Type 0} where
  has-by_name :
      (name : Text) (results : List (AggregateResult F)) (d : Dict Text (AggregateResult F))
      → has name (foldl (λ e item. put item.scheduler item e) d results)
        ≡ has name d || any (λ a. same a.scheduler name) results
  has-by_name name [] d = ground arith
  has-by_name name (a ∷ results) d =
      rw (has-by_name name results (put a.scheduler a d), has-put a.scheduler name a d)
        (ground arith)

  found_by_name :
      (name : Text) (results : List (AggregateResult F))
      → any (λ a. same a.scheduler name) results ≡ true
      → (a : AggregateResult F) × (get name (by_name results) ≡ some a)
  found_by_name name results h = get-has name (by_name results) (has-by_name name results [] ∙ h)

module _ {F : Type 0} ⦃fl : Float F⦄ where
  open fl use {lit}

  -- A schedule whose makespan is 0, or is not 0 when multiplied by the number of its workers.
  abbrev pub Made : Option (Schedule F) → Type 0
  Made o = (schedule : Schedule F) × (o ≡ some schedule) × (is_divisible schedule ≡ true)

  -- Each strategy makes such a schedule for every trial.
  abbrev pub AlwaysSchedule : List (Text × (ℕ → Option (Schedule F))) → Type 0
  AlwaysSchedule = All (λ s. (trial : ℕ) → Made (s.1 trial))

  abbrev pub is_among : Text → List (Text × (ℕ → Option (Schedule F))) → Bool
  is_among name = any (λ s. same s.0 name)

  named_results :
      (n k : ℕ) (name : Text) (strategies : List (Text × (ℕ → Option (Schedule F))))
      (results : List (AggregateResult F))
      → AreTotals n k strategies results
      → any (λ a. same a.scheduler name) results ≡ is_among name strategies
  named_results n k name [] [] t = refl
  named_results n k name [] (a ∷ results) t = elim t [ ]
  named_results n k name (s ∷ strategies) [] t = elim t [ ]
  named_results n k name (s ∷ strategies) (a ∷ results) ((e, _, _, _), t) =
      rw (e, named_results n k name strategies results t) refl

  module _ (stats : Statistics F) (draw : ℕ → ℕ → F) (probabilities : Dict (Text × Text) F)
      (seed : ℕ) where
    interval_of_total :
        (values : List F)
        → lt {F = F} nought (lit 95 2) ≡ true
        → lt {F = F} (lit 95 2) unit ≡ true
        → (i : F × F) × (interval_of stats seed values ≡ some i)
    unfolding bootstrap_interval
    interval_of_total values p q = rw (p, q) (either_some (is_empty values) _ _)

    trials_of_total :
        (name : Text) (create_schedule : ℕ → Option (Schedule F)) (numbers : List ℕ)
        → ((trial : ℕ) → Made (create_schedule trial))
        → (trials : List (TrialResult F)) × (trials_of stats draw probabilities seed name
              create_schedule numbers
            ≡ some trials)
    unfolding trials_of
    trials_of_total name create_schedule [] made = ([], refl)
    trials_of_total name create_schedule (trial ∷ numbers) made =
        let (schedule, e, d) = made trial in
        let trial_seed = seed + trial * 104729 in
        let (result, f) =
          simulate_schedule_total (draw trial_seed) probabilities schedule trial trial_seed name
            d in
        let (later, g) = trials_of_total name create_schedule numbers made in
        (result ∷ later, rw (e, f, g) refl)

    aggregate_trials_total :
        (k : ℕ) (name : Text) (n : ℕ) (trials : List (TrialResult F))
        → IsRun name n (suc k) trials
        → lt {F = F} nought (lit 95 2) ≡ true
        → lt {F = F} (lit 95 2) unit ≡ true
        → (a : AggregateResult F) × (aggregate_trials stats seed trials ≡ some a)
    unfolding aggregate_trials
    aggregate_trials_total k name n [] r p q =
        let e : ◌≡◌ {A = ℕ} 0 (suc k) = r.counted in absurd (omega (arith, e))
    aggregate_trials_total k name n (t ∷ trials) r p q =
        >>=-total (interval_of stats seed (map (λ u. u.flake_rate) (t ∷ trials))) _
          (interval_of_total (map (λ u. u.flake_rate) (t ∷ trials)) p q)
          (λ i e.
            >>=-total (interval_of stats seed (map (λ u. u.makespan_seconds) (t ∷ trials))) _
              (interval_of_total (map (λ u. u.makespan_seconds) (t ∷ trials)) p q)
              (λ j f. (_, refl)))

    aggregates_of_total :
        (n k : ℕ) (strategies : List (Text × (ℕ → Option (Schedule F))))
        → AlwaysSchedule strategies
        → Schedules n strategies
        → lt {F = F} nought (lit 95 2) ≡ true
        → lt {F = F} (lit 95 2) unit ≡ true
        → (results : List (AggregateResult F)) × (aggregates_of stats draw probabilities seed
              (suc k)
              strategies
            ≡ some results)
    unfolding aggregates_of
    aggregates_of_total n k [] m s p q = ([], refl)
    aggregates_of_total n k ((name, create_schedule) ∷ strategies) (m, ms) (s, ss) p q =
        >>=-total (trials_of stats draw probabilities seed name create_schedule (range (suc k))) _
          (trials_of_total name create_schedule (range (suc k)) m)
          (λ trials e.
            >>=-total (aggregate_trials stats seed trials) _
              (aggregate_trials_total k name n trials
                (all_trials stats draw probabilities seed n name create_schedule (suc k) trials s e)
                p q)
              (λ a f.
                >>=-total (aggregates_of stats draw probabilities seed (suc k) strategies) _
                  (aggregates_of_total n k strategies ms ss p q) (λ later g. (_, refl))))

    returned_replay :
        (n k : ℕ) (strategies : List (Text × (ℕ → Option (Schedule F))))
        → lt {F = F} nought (lit 95 2) ≡ true
        → lt {F = F} (lit 95 2) unit ≡ true
        → AlwaysSchedule strategies
        → Schedules n strategies
        → is_among (codes "random") strategies ≡ true
        → is_among (codes "heuristic") strategies ≡ true
        → (r : ReplayTotals F) × (replay_trials stats draw probabilities seed (suc k) strategies
            ≡ some r)
    unfolding replay_trials
    returned_replay n k strategies p q m s h j =
        >>=-total (aggregates_of stats draw probabilities seed (suc k) strategies) _
          (aggregates_of_total n k strategies m s p q)
          (λ results e.
            let t =
              aggregates_of-AreTotals stats draw probabilities seed n (suc k) strategies results s
                e in
            >>=-total (get (codes "random") (by_name results)) _
              (found_by_name (codes "random") results
                (named_results n (suc k) (codes "random") strategies results t ∙ h))
              (λ random_result f.
                >>=-total (get (codes "heuristic") (by_name results)) _
                  (found_by_name (codes "heuristic") results
                    (named_results n (suc k) (codes "heuristic") strategies results t ∙ j))
                  (λ intelligent g. (_, refl))))

    -- When 0.95 lies between 0 and 1, there is a trial at least, each strategy makes a schedule of `n`
    -- tests for every trial, whose makespan is 0 or is not 0 when multiplied by its number of workers, and "random" and "heuristic" are among the strategies: the replay
    -- returns. Its results are those of the strategies in their order; each counts all of the trials,
    -- the `n` executions of each of these, and as many conflict failures as failures; and the total of
    -- executions is that of all strategies and trials.
    pub replay_trials_total :
        (n k : ℕ) (strategies : List (Text × (ℕ → Option (Schedule F))))
        → lt {F = F} nought (lit 95 2) ≡ true
        → lt {F = F} (lit 95 2) unit ≡ true
        → AlwaysSchedule strategies
        → Schedules n strategies
        → is_among (codes "random") strategies ≡ true
        → is_among (codes "heuristic") strategies ≡ true
        → (r : ReplayTotals F) × (replay_trials stats draw probabilities seed (suc k) strategies
            ≡ some r)
          × AreTotals n (suc k) strategies r.results
          × (r.total_test_executions ≡ length strategies * (suc k * n))
    replay_trials_total n k strategies p q m s h j =
        let (r, e) = returned_replay n k strategies p q m s h j in
        let (t, total) =
          replay_trials-AreTotals stats draw probabilities seed n (suc k) strategies r s e in
        (r, e, t, total)
