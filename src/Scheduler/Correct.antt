-- ===== src/Scheduler/Correct.antt =====
-- What `static_schedule` promises: every run ends with a schedule of all the tests, on lanes where
-- no worker runs two tests at once.
use mathlib.Core.List.Perm
use mathlib.Core.List.{Memᴰ}
use conflict_graph.Prelude.{
  ℕ, ◌<◌, ◌≡◌, ◌≢◌, refl, sym, subst, true, false, Option, some, List, [], ◌++◌, map, arith, All,
  length, concat, Perm, sort_by, sort_by-perm, append-nil, if_ind, leb, IsSortedBy,
  sort_by-IsSortedBy,
}
use conflict_graph.Prelude.Int.{ℤ}
use conflict_graph.Prelude.Text.{Text, text_eq, text_lt-asym, text_le_trans}
use conflict_graph.Prelude.Dict.{Dict}
use conflict_graph.Prelude.Float.{Float, IsOrdered, ◌≼◌, max_default}
use conflict_graph.Types.Enums.{RiskPolicy}
use conflict_graph.Types.Stats.{TestIdentity, TestStats}
use conflict_graph.Types.Prediction.{PairPrediction}
use conflict_graph.Types.Plan.{ScheduledTest, Schedule}
use conflict_graph.Scheduler.Risk.{ConflictScheduler, new_scheduler, risk_index}
use conflict_graph.Scheduler.Placement.{Lane}
use conflict_graph.Scheduler.Queue.{durations_of, identities_of, queue_of}
use conflict_graph.Scheduler.Place.{Progress, start_progress}
use conflict_graph.Scheduler.Static.{
  Surroundings, placed, refined, schedule_of, static_schedule, earlier,
}
use conflict_graph.Scheduler.Progress.{IsPlacing, Complete, ids}
use conflict_graph.Scheduler.Rounds.{place_all-Complete}
use conflict_graph.Scheduler.Refined.{IsPlan, refine-IsPlan}
use conflict_graph.Scheduler.Start.{
  new_scheduler-ready, start_progress-IsPlacing, durations_of-nonneg, queue_of-known,
}
use native.Mathlib.Nat.{le_refl as nat_le_refl}

-- The ids of the tests, each once, in order of first occurrence.
abbrev pub distinct_ids : List TestIdentity → List Text
distinct_ids tests = map (λ p. p.0) (identities_of tests)

module _ {F : Type 0} ⦃fl : Float F⦄ where
  IsPlacing-IsPlan :
      {workers : ℕ} {given : List Text} (st : Progress F)
      → IsPlacing workers given st
      → st.remaining ≡ []
      → IsPlan workers given st.lanes
  IsPlacing-IsPlan {given = given} st inv e = record {
    lanes_length = inv.lanes_length;
    follows = inv.follows;
    owned = inv.owned;
    durations = inv.durations;
    conserved =
        subst (λ l. Perm l given) (append-nil (ids (concat st.lanes)))
          (subst (λ r. Perm (ids (concat st.lanes) ++ r) given) e inv.conserved);
  }

  module _ (o : IsOrdered F) (self : ConflictScheduler F) (around : Surroundings F)
      (tests : List TestIdentity) (stats : Dict Text (TestStats F))
      (predictions : List (PairPrediction F)) where
    abbrev queue : List Text
    queue = queue_of around.draw stats tests

    placed-Complete :
        0 < self.workers
        → 0 < self.params.lookahead
        → Complete self.workers queue (placed self around tests stats predictions)
    unfolding placed
    placed-Complete ready ahead =
        place_all-Complete o self (durations_of stats tests) (identities_of tests)
          (risk_index predictions) (durations_of-nonneg o stats tests) queue ready ahead
          (length queue) (start_progress self queue)
          (unfold start_progress in nat_le_refl (length queue))
          (start_progress-IsPlacing self queue)
          (unfold start_progress in queue_of-known around.draw stats tests)

    refined-IsPlan :
        {given : List Text} (lanes : List (Lane F))
        → IsPlan self.workers given lanes
        → IsPlan self.workers given (refined self around tests stats predictions lanes)
    unfolding refined
    refined-IsPlan lanes p =
        if_ind (IsPlan self.workers _) (leb (length tests) 64) _ _
          (λ _. refine-IsPlan o (risk_index predictions) self.params self.refinement_rounds lanes p)
          (λ _. p)

    -- The schedule of a run, and the lanes from which it is read.
    pub record Scheduled (result : Option (Schedule F)) : Type 0 where
      pub schedule : Schedule F
      pub returned : result ≡ some schedule
      pub lanes : List (Lane F)
      pub plan : IsPlan self.workers (distinct_ids tests) lanes
      pub tests_perm : Perm schedule.tests (concat lanes)
      pub tests_sorted : schedule.tests ≡ sort_by earlier (concat lanes)
      pub same_workers : schedule.workers ≡ self.workers
      pub makespan :
          schedule.expected_makespan ≡ max_default (map (λ x. x.estimated_end) schedule.tests)

    IsPlan-queue :
        (lanes : List (Lane F))
        → IsPlan self.workers queue lanes
        → IsPlan self.workers (distinct_ids tests) lanes
    IsPlan-queue lanes p = record {
      lanes_length = p.lanes_length;
      follows = p.follows;
      owned = p.owned;
      durations = p.durations;
      conserved = Perm.trans p.conserved (unfold queue_of in sort_by-perm _ (distinct_ids tests));
    }

    pub run-Scheduled :
        (run_id : Option Text)
        → 0 < self.workers
        → 0 < self.params.lookahead
        → Scheduled (static_schedule self around tests stats predictions run_id)
    unfolding static_schedule schedule_of
    run-Scheduled run_id ready ahead =
        let c = placed-Complete ready ahead in
        let p = IsPlacing-IsPlan c.end c.inv c.all_placed in
        let lanes = refined self around tests stats predictions c.end.lanes in
        record {
          schedule = schedule_of self around tests stats predictions run_id lanes;
          returned = rw c.made;
          lanes = lanes;
          plan = IsPlan-queue lanes (refined-IsPlan c.end.lanes p);
          tests_perm = sort_by-perm earlier (concat lanes);
          tests_sorted = refl;
          same_workers = refl;
          makespan = refl;
        }

  -- No test ends after `m`, and one ends at `m` if there is any.
  abbrev pub IsMakespan : F → Lane F → Type 0
  IsMakespan m tests =
      All (λ x. x.estimated_end ≼ m) tests
      × (tests ≢ [] → Memᴰ m (map (λ x. x.estimated_end) tests))

  -- The order of the final list.
  earlier-asym : IsOrdered F → (a b : ScheduledTest F) → earlier a b ≡ true → earlier b a ≡ false
  unfolding earlier
  earlier-asym o a b h =
      ground
        (arith, o.le_total a.estimated_start b.estimated_start, text_lt-asym a.test_id b.test_id)

  earlier_trans :
      IsOrdered F
      → (a b c : ScheduledTest F) → earlier b a ≡ false
      → earlier c b ≡ false
      → earlier c a ≡ false
  unfolding earlier
  earlier_trans o a b c h k = ground (
    arith,
    o.le_total a.estimated_start b.estimated_start,
    o.le_total b.estimated_start c.estimated_start,
    o.le_total a.estimated_start c.estimated_start,
    o.le_trans a.estimated_start b.estimated_start c.estimated_start,
    o.le_trans c.estimated_start a.estimated_start b.estimated_start,
    o.le_trans b.estimated_start c.estimated_start a.estimated_start,
    o.le_trans c.estimated_start b.estimated_start a.estimated_start,
    text_le_trans a.test_id b.test_id c.test_id,
  )

module _ {F : Type 0} ⦃fl : Float F⦄ (o : IsOrdered F) (workers : ℕ) (policy : RiskPolicy)
    (seed : ℤ) (risk_weight hard_threshold : Option F) (rounds : ℕ) (self : ConflictScheduler F)
    (built : new_scheduler workers policy seed risk_weight hard_threshold rounds ≡ some self)
    (around : Surroundings F) (tests : List TestIdentity) (stats : Dict Text (TestStats F))
    (predictions : List (PairPrediction F)) (run_id : Option Text) where
  abbrev run : Option (Schedule F)
  run = static_schedule self around tests stats predictions run_id

  scheduled : Scheduled o self around tests stats predictions run
  scheduled =
      let (ready, ahead) =
        new_scheduler-ready workers policy seed risk_weight hard_threshold rounds built in
      run-Scheduled o self around tests stats predictions run_id ready ahead

  -- A scheduler that the constructor accepts returns a schedule, and never raises: the ids of its
  -- tests are those of the given tests, each once however often it was given.
  pub static_schedule_total :
      (s : Schedule F) × (run ≡ some s) × Perm (ids s.tests) (distinct_ids tests)
  static_schedule_total =
      let r = scheduled in
      (r.schedule, r.returned, Perm.trans (Perm.map (λ x. x.test_id) r.tests_perm) r.plan.conserved)

  -- The tests of a returned schedule are those of one lane for each worker. In a lane all tests
  -- carry the worker's number, each ends no earlier than it starts, and each starts no earlier than
  -- the one before it ends.
  pub static_schedule-IsPlan :
      (lanes : List (Lane F)) × (s : Schedule F) × (run ≡ some s)
      × IsPlan self.workers (distinct_ids tests) lanes
      × Perm s.tests (concat lanes)
  static_schedule-IsPlan =
      let r = scheduled in (r.lanes, r.schedule, r.returned, r.plan, r.tests_perm)

  -- A returned schedule lists its tests by start, then worker, then id.
  pub static_schedule-IsSortedBy : (s : Schedule F) → run ≡ some s → IsSortedBy earlier s.tests
  static_schedule-IsSortedBy s e =
      let r = scheduled in
      let same : r.schedule ≡ s = cc (r.returned) in
      subst (λ x. IsSortedBy earlier x.tests) same
        (subst (IsSortedBy earlier) (sym r.tests_sorted)
          (sort_by-IsSortedBy earlier (earlier-asym o) (earlier_trans o) (concat r.lanes)))
