-- ===== src/Benchmark/Failures.antt =====
-- What a simulated trial counts as failures.
use conflict_graph.Prelude.{
  ℕ, true, some, subst, ◌+◌, ◌≤◌, ◌≡◌, refl, List, [], ◌∷◌, ◌==◌, length, foldl, if_ind, Bool-cases,
  inl, inr, length-append, arith, nat_eq,
}
use conflict_graph.Prelude.Text.{Text, text_eq}
use conflict_graph.Prelude.Dict.{Dict}
use conflict_graph.Prelude.Sets.{contains}
use conflict_graph.Prelude.Float.{Float, nought, lt, eq}
use conflict_graph.Types.Plan.{ScheduledTest, Schedule}
use conflict_graph.Benchmark.{
  Simulation, no_simulation, fail_test, collide, meet, simulate, trial_result, simulate_schedule,
  is_divisible, TrialResult, overlap_between, probability_of, chance_of, victim_of, noted,
}

-- The failures are counted once, and are no more than the overlaps.
record IsCounted {F : Type 0} (s : Simulation F) : Type 0 where
  counted : s.conflict_failures ≡ length s.failures
  caused : s.conflict_failures ≤ s.conflicting_overlaps

module _ {F : Type 0} ⦃fl : Float F⦄ (draw : ℕ → F) (probabilities : Dict (Text × Text) F) where
  fail_test-IsCounted :
      (victim : Text) (s : Simulation F)
      → s.conflict_failures ≡ length s.failures
      → s.conflict_failures + 1 ≤ s.conflicting_overlaps
      → IsCounted (fail_test victim s)
  unfolding fail_test
  fail_test-IsCounted victim s h k = elim (Bool-cases (contains victim s.failures)) [
    | inl e ↦ record { counted = rw e h; caused = rw e (omega arith) }
    | inr e ↦ record {
      counted = rw (e, length-append s.failures (victim ∷ [])) (omega arith);
      caused = rw e k;
    }
  ]

  collide-IsCounted :
      (left right : ScheduledTest F) (s : Simulation F)
      → IsCounted s
      → IsCounted (collide draw probabilities left s right)
  unfolding collide
  collide-IsCounted left right s c =
      let h = c.caused in
      if_ind {A = Simulation F} IsCounted
        (lt (draw s.drawn) (chance_of draw probabilities left right))
        (fail_test (victim_of draw probabilities left s right)
          (noted draw probabilities (s.drawn + 2) left s right))
        (noted draw probabilities (s.drawn + 1) left s right)
        (λ _.
          fail_test-IsCounted (victim_of draw probabilities left s right)
            (noted draw probabilities (s.drawn + 2) left s right) c.counted (omega arith))
        (λ _. record { counted = c.counted; caused = omega arith })

  meet-IsCounted :
      (left right : ScheduledTest F) (s : Simulation F)
      → IsCounted s
      → IsCounted (meet draw probabilities left s right)
  unfolding meet
  meet-IsCounted left right s c =
      if_ind {A = Simulation F} IsCounted (left.worker == right.worker) _ _ (λ _. c)
        (λ _.
          if_ind {A = Simulation F} IsCounted (fl.le (overlap_between left right) nought) _ _
            (λ _. c)
            (λ _.
              if_ind {A = Simulation F} IsCounted
                (eq (probability_of draw probabilities left right) nought) _ _ (λ _. c)
                (λ _. collide-IsCounted left right s c)))

  foldl-meet-IsCounted :
      (left : ScheduledTest F) (tests : List (ScheduledTest F)) (s : Simulation F)
      → IsCounted s
      → IsCounted (foldl (meet draw probabilities left) s tests)
  foldl-meet-IsCounted left [] s c = c
  foldl-meet-IsCounted left (right ∷ tests) s c =
      foldl-meet-IsCounted left tests (meet draw probabilities left s right)
        (meet-IsCounted left right s c)

  simulate-IsCounted :
      (tests : List (ScheduledTest F)) (s : Simulation F)
      → IsCounted s
      → IsCounted (simulate draw probabilities s tests)
  unfolding simulate
  simulate-IsCounted [] s c = c
  simulate-IsCounted (left ∷ tests) s c =
      simulate-IsCounted tests (foldl (meet draw probabilities left) s tests)
        (foldl-meet-IsCounted left tests s c)

  -- In a trial on any schedule, with any draws: the number of conflict failures is that of the tests
  -- that fail, a test that fails in several conflicts being counted once, and it is at most the
  -- number of overlaps that may conflict.
  pub trial_result-counted :
      (schedule : Schedule F) (trial seed : ℕ) (name : Text)
      → let r = trial_result draw probabilities schedule trial seed name in
        (r.conflict_failures ≡ r.failures) × (r.conflict_failures ≤ r.conflicting_overlaps)
  unfolding trial_result
  trial_result-counted schedule trial seed name =
      let c =
        simulate-IsCounted schedule.tests no_simulation
          (record { counted = refl; caused = omega arith }) in
      (c.counted, c.caused)

  pub simulate_schedule-some :
      (schedule : Schedule F) (trial seed : ℕ) (name : Text) (r : TrialResult F)
      → simulate_schedule draw probabilities schedule trial seed name ≡ some r
      → trial_result draw probabilities schedule trial seed name ≡ r
  unfolding simulate_schedule
  simulate_schedule-some schedule trial seed name r h = elim (Bool-cases (is_divisible schedule)) [
    | inl e ↦ let k = rw e at h in cc
    | inr e ↦ let k = rw e at h in cc
  ]

  pub simulate_schedule_total :
      (schedule : Schedule F) (trial seed : ℕ) (name : Text)
      → is_divisible schedule ≡ true
      → (r : TrialResult F) × (simulate_schedule draw probabilities schedule trial seed name
          ≡ some r)
  unfolding simulate_schedule
  simulate_schedule_total schedule trial seed name e =
      (trial_result draw probabilities schedule trial seed name, rw e refl)

  -- A trial names its strategy, has the tests of the schedule, and counts each failure once.
  pub simulate_schedule-counts :
      (schedule : Schedule F) (trial seed : ℕ) (name : Text) (r : TrialResult F)
      → simulate_schedule draw probabilities schedule trial seed name ≡ some r
      → (r.tests ≡ length schedule.tests)
        × (r.conflict_failures ≡ r.failures)
        × (r.scheduler ≡ name)
  unfolding trial_result
  simulate_schedule-counts schedule trial seed name r h =
      subst
        (λ x.
          (x.tests ≡ length schedule.tests)
          × (x.conflict_failures ≡ x.failures)
          × (x.scheduler ≡ name))
        (simulate_schedule-some schedule trial seed name r h)
        (refl, (trial_result-counted schedule trial seed name).0, refl)
