-- ===== src/Cli/Planned.antt =====
-- What `plan` makes of a configuration that `from_mapping` returns.
use mathlib.Core.List.Perm
use conflict_graph.Prelude.{
  ℕ, zero, suc, ◌+◌, ◌<◌, ◌≤◌, ◌≡◌, refl, sym, ap, subst, Bool, ◌&&◌, Option, none, some, List, [],
  ◌∷◌, All, All-append, concat, keep, length, sort_by-All, if◌then◌else◌, ◌∙◌, Perm, arith,
}
use conflict_graph.Prelude.Int.{ℤ, pos, pos_part, leb_ℤ}
use conflict_graph.Prelude.Text.{Text}
use conflict_graph.Prelude.Dict.{Dict}
use conflict_graph.Prelude.Float.{Float, IsOrdered}
use conflict_graph.Types.Enums.{RiskPolicy}
use conflict_graph.Types.Stats.{TestIdentity}
use conflict_graph.Types.Prediction.{PairPrediction}
use conflict_graph.Types.Plan.{Schedule}
use conflict_graph.Config.{Config}
use conflict_graph.Config.Valid.{IsValid, Within}
use conflict_graph.Config.Mapping.{Values, from_mapping, from_mapping-IsValid}
use conflict_graph.Scheduler.Risk.{ConflictScheduler, new_scheduler}
use conflict_graph.Scheduler.Placement.{Lane}
use conflict_graph.Scheduler.Progress.{OwnedFrom, ids}
use conflict_graph.Scheduler.Static.{Surroundings, earlier}
use conflict_graph.Scheduler.Start.{new_scheduler-ready}
use conflict_graph.Scheduler.Correct.{Scheduled, run-Scheduled, distinct_ids}
use conflict_graph.Executor.Started.{IsAssigned}
use conflict_graph.Cli.{
  View, graph_predictions, predictions_for_tests, is_known, worker_count, or_configured,
  scheduler_of, default_statistics, planned, plan,
}

accepted :
    (n : ℕ)
    → suc n ≤ 1024
    → ◌≡◌ {A = Option ℤ}
        (if leb_ℤ (pos 1) (pos (suc n)) && leb_ℤ (pos (suc n)) (pos 1024)
          then some (pos (suc n))
          else none)
        (some (pos (suc n)))
accepted n u = ground arith

worker_count-some :
    (requested : Option ℤ) (configured : ℤ)
    → Within 1 1024 (or_configured requested configured)
    → (n : ℕ) × (worker_count requested configured ≡ some (pos (suc n)))
      × (or_configured requested configured ≡ pos (suc n))
unfolding worker_count
worker_count-some requested configured (zero, e, l, u) = ground arith
worker_count-some requested configured (suc n, e, l, u) = (n, rw e (accepted n u), e)

module _ {F : Type 0} where
  lane_below :
      (w n : ℕ) (lane : Lane F)
      → w < n
      → All (λ x. x.worker ≡ w) lane
      → All (λ x. x.worker < n) lane
  lane_below w n [] l a = tt
  lane_below w n (x ∷ lane) l a = (subst (λ k. k < n) (sym a.0) l, lane_below w n lane l a.1)

  lanes_below :
      (i n : ℕ) (lanes : List (Lane F))
      → i + length lanes ≡ n
      → OwnedFrom i lanes
      → All (λ x. x.worker < n) (concat lanes)
  lanes_below i n [] e o = tt
  lanes_below i n (lane ∷ lanes) e o =
      All-append (λ x. x.worker < n) lane (concat lanes)
        (lane_below i n lane (omega (arith, e)) o.0)
        (lanes_below (suc i) n lanes (omega (arith, e)) o.1)

module _ {F : Type 0} ⦃fl : Float F⦄ (o : IsOrdered F) {V : Type 0} (view : View F V) where
  Scheduled-IsAssigned :
      (self : ConflictScheduler F) (around : Surroundings F) (tests : List TestIdentity)
      (predictions : List (PairPrediction F)) {result : Option (Schedule F)}
      (r : Scheduled o self around tests (default_statistics tests) predictions result)
      → IsAssigned r.schedule
  Scheduled-IsAssigned self around tests predictions r =
      subst (λ ts. All (λ t. t.worker < r.schedule.workers) ts) (sym r.tests_sorted)
        (sort_by-All earlier (λ t. t.worker < r.schedule.workers) (concat r.lanes)
          (lanes_below 0 r.schedule.workers r.lanes
            (omega (arith, r.plan.lanes_length, r.same_workers)) r.plan.owned))

  scheduler_made :
      (settings : Config F) (policy : Option RiskPolicy) (n : ℕ)
      → (self : ConflictScheduler F) × (scheduler_of settings policy (pos (suc n)) ≡ some self)
        × (self.workers ≡ suc n)
  unfolding new_scheduler
  scheduler_made settings policy n = (_, refl, refl)

  asked_count :
      (requested : Option ℤ) (settings : Config F) (on_linux : Bool)
      → IsValid on_linux settings
      → ((z : ℤ) → requested ≡ some z → Within 1 1024 z)
      → Within 1 1024 (or_configured requested settings.workers)
  asked_count none settings on_linux valid asked = valid.workers
  asked_count (some z) settings on_linux valid asked = asked z refl

  -- What `planned` returns: the schedule is one that the executor can run.
  pub record Planned (requested : Option ℤ) (settings : Config F) (tests : List TestIdentity)
      (made : Option (List (PairPrediction F) × Schedule F)) : Type 0 where
    pub known : List (PairPrediction F)
    pub schedule : Schedule F
    pub returned : made ≡ some (known, schedule)
    pub workers : or_configured requested settings.workers ≡ pos schedule.workers
    pub same_tests : Perm (ids schedule.tests) (distinct_ids tests)
    pub assigned : IsAssigned schedule

  planned_of_valid :
      (now : ℕ) (around : Surroundings F) (settings : Config F) (on_linux : Bool)
      (requested : Option ℤ) (policy : Option RiskPolicy) (graph : Option (Dict Text V))
      (tests : List TestIdentity) (predictions : List (PairPrediction F)) (run_id : Option Text)
      → IsValid on_linux settings
      → ((z : ℤ) → requested ≡ some z → Within 1 1024 z)
      → graph_predictions view now graph ≡ some predictions
      → Planned requested settings tests
          (planned view now around settings requested policy graph tests run_id)
  unfolding planned predictions_for_tests
  planned_of_valid now around settings on_linux requested policy graph tests predictions run_id
        valid asked h =
      let (n, e, w) =
        worker_count-some requested settings.workers
          (asked_count requested settings on_linux valid asked) in
      let (self, made, workers) = scheduler_made settings policy n in
      let (ready, ahead) =
        new_scheduler-ready (suc n) (or_configured policy settings.risk_policy) settings.seed
          (some settings.scheduler.risk_weight) (some settings.scheduler.hard_threshold)
          (pos_part settings.scheduler.refinement_rounds) made in
      let known = keep (is_known view tests) predictions in
      let r =
        run-Scheduled o self around tests (default_statistics tests) known run_id ready ahead in
      record {
        known = known;
        schedule = r.schedule;
        returned = rw (h, e, made, r.returned) refl;
        workers = w ∙ ap pos (sym (r.same_workers ∙ workers));
        same_tests = Perm.trans (Perm.map (λ x. x.test_id) r.tests_perm) r.plan.conserved;
        assigned = Scheduled-IsAssigned self around tests known r;
      }

  pub planned_total :
      (values : Values F V) (on_linux : Bool) (getenv : Text → Option Text) (int : Text → Option ℤ)
      (mapping : Dict Text V) (now : ℕ) (around : Surroundings F) (settings : Config F)
      (requested : Option ℤ) (policy : Option RiskPolicy) (graph : Option (Dict Text V))
      (tests : List TestIdentity) (predictions : List (PairPrediction F)) (run_id : Option Text)
      → from_mapping values on_linux getenv int mapping ≡ some settings
      → ((z : ℤ) → requested ≡ some z → Within 1 1024 z)
      → graph_predictions view now graph ≡ some predictions
      → Planned requested settings tests
          (planned view now around settings requested policy graph tests run_id)
  planned_total values on_linux getenv int mapping now around settings requested policy graph tests
        predictions run_id loaded asked read =
      planned_of_valid now around settings on_linux requested policy graph tests predictions run_id
        (from_mapping-IsValid values on_linux getenv int mapping settings loaded) asked read

  -- With a configuration that `from_mapping` returns, a requested number of workers from 1 to 1024 or
  -- none, and a latest graph whose predictions can be read: `plan` returns a schedule. It has the
  -- number of workers that is asked for, its tests are the collected ones, each once, and each of
  -- them is given to one of the workers, so that the executor can run it.
  pub plan_total :
      (values : Values F V) (on_linux : Bool) (getenv : Text → Option Text) (int : Text → Option ℤ)
      (mapping : Dict Text V) (now : ℕ) (around : Surroundings F) (settings : Config F)
      (requested : Option ℤ) (policy : Option RiskPolicy) (graph : Option (Dict Text V))
      (tests : List TestIdentity) (predictions : List (PairPrediction F))
      → from_mapping values on_linux getenv int mapping ≡ some settings
      → ((z : ℤ) → requested ≡ some z → Within 1 1024 z)
      → graph_predictions view now graph ≡ some predictions
      → (s : Schedule F) × (plan view now around settings requested policy graph tests ≡ some s)
        × (or_configured requested settings.workers ≡ pos s.workers)
        × Perm (ids s.tests) (distinct_ids tests)
        × IsAssigned s
  unfolding plan
  plan_total values on_linux getenv int mapping now around settings requested policy graph tests
        predictions loaded asked read =
      let p =
        planned_total values on_linux getenv int mapping now around settings requested policy graph
          tests predictions none loaded asked read in
      (p.schedule, rw (p.returned) refl, p.workers, p.same_tests, p.assigned)
