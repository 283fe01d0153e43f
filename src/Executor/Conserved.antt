-- ===== src/Executor/Conserved.antt =====
-- The tests of a run: those with a result, in hand and still queued are those of the schedule.
use mathlib.Core.List.Perm
use mathlib.Core.List.{perm_middle, map-append}
use conflict_graph.Prelude.{
  ℕ, zero, suc, ◌≡◌, refl, ap, subst, Bool, true, none, some, List, [], ◌∷◌, ◌++◌, map, set,
  get_elem?, if_ind, Perm, Perm-of_eq, append_assoc,
}
use conflict_graph.Prelude.Text.{Text}
use conflict_graph.Prelude.Int.{ℤ}
use conflict_graph.Types.Enums.{ExecutionStatus}
use conflict_graph.Types.Plan.{ScheduledTest}
use conflict_graph.Executor.{ExecutionResult}
use conflict_graph.Executor.Outcome.{
  Strings, PytestConfig, Observed, Ending, run_one, completed, out_of_time, os_error, is_zero,
  exit_code_of, result_at, result_with,
}
use conflict_graph.Executor.Workers.{
  Queue, Worker, waiting, running, ended, Run, Step, Steps, take_test, find_none, see_cancelled,
  end_test, cancel, stay, later, finished,
}

module _ {F : Type 0} where
  abbrev pub queued : Queue F → List Text
  queued [] = []
  queued (none ∷ q) = queued q
  queued (some t ∷ q) = t.test_id ∷ queued q

  -- The tests that a worker has in hand or in its queue.
  abbrev pub open_of : Worker F → List Text
  open_of (waiting q) = queued q
  open_of (running t q) = t.test_id ∷ queued q
  open_of (ended q) = queued q

  -- The tests in hand.
  abbrev pub held_of : Worker F → List Text
  held_of (waiting q) = []
  held_of (running t q) = t.test_id ∷ []
  held_of (ended q) = []

  abbrev pub gather : (Worker F → List Text) → List (Worker F) → List Text
  gather g [] = []
  gather g (w ∷ ws) = g w ++ gather g ws

  abbrev pub open_tests : List (Worker F) → List Text
  open_tests ws = gather open_of ws

  abbrev pub reported : List (ExecutionResult F) → List Text
  reported rs = map (λ r. r.test_id) rs

  abbrev pub tests_of : Run F → List Text
  tests_of r = reported r.results ++ open_tests r.workers

  -- The tests with a result and those in hand.
  abbrev pub begun : Run F → List Text
  begun r = reported r.results ++ gather held_of r.workers

  module _ (g : Worker F → List Text) where
    gather-set :
        (ws : List (Worker F)) (i : ℕ) (w v : Worker F)
        → get_elem? ws i ≡ some w
        → g v ≡ g w
        → gather g (set ws i v) ≡ gather g ws
    gather-set [] i w v h e = cc
    gather-set (x ∷ ws) zero w v h e = let q : w ≡ x = cc in rw (e, q) refl
    gather-set (x ∷ ws) (suc i) w v h e = ap (λ l. g x ++ l) (gather-set ws i w v h e)

    one_less :
        (ws : List (Worker F)) (i : ℕ) (t : ScheduledTest F) (q : Queue F)
        → get_elem? ws i ≡ some (running t q)
        → g (running t q) ≡ t.test_id ∷ g (waiting q)
        → Perm (t.test_id ∷ gather g (set ws i (waiting q))) (gather g ws)
    one_less [] i t q h k = cc
    one_less (x ∷ ws) zero t q h k =
        let e : running t q ≡ x = cc in
        subst (λ y. Perm (t.test_id ∷ g (waiting q) ++ gather g ws) (g y ++ gather g ws)) e
          (Perm-of_eq (rw k refl))
    one_less (x ∷ ws) (suc i) t q h k =
        Perm.trans (Perm.symm (perm_middle (g x) (gather g (set ws i (waiting q)))))
          (Perm.append_left (g x) (one_less ws i t q h k))

module _ {F : Type 0} (str : Strings) (config : PytestConfig F) (run_id : Text)
    (fail_fast : Bool) where
  -- A property of every result that names the test.
  pub run_one_ind :
      (t : ScheduledTest F) (o : Observed F) (P : ExecutionResult F → Type 0)
      → ((status : ExecutionStatus) (code : ℤ) (out err failure : Text) (late : Bool)
          → P (result_with str config run_id t o status code out err failure late))
      → P (run_one str config run_id t o)
  unfolding run_one
  run_one_ind t o P f = result_ind o.ending
    where
      result_ind : (e : Ending) → P (result_at str config run_id t o e)
      result_ind (completed code out err) =
          if_ind {A = ExecutionResult F} P (is_zero (exit_code_of code)) _ _ (λ _. f _ _ _ _ _ _)
            (λ _. f _ _ _ _ _ _)
      result_ind (out_of_time code) = f _ _ _ _ _ _
      result_ind (os_error late message) = f _ _ _ _ _ _

  run_one_test :
      (t : ScheduledTest F) (o : Observed F) → (run_one str config run_id t o).test_id ≡ t.test_id
  run_one_test t o = run_one_ind t o (λ r. r.test_id ≡ t.test_id) (λ _ _ _ _ _ _. refl)

  module _ (g : Worker F → List Text)
      (puts : (t : ScheduledTest F) (q : Queue F)
        → g (running t q) ≡ t.test_id ∷ g (waiting q)) where
    after_test :
        (r : Run F) (i : ℕ) (t : ScheduledTest F) (q : Queue F) (o : Observed F)
        → get_elem? r.workers i ≡ some (running t q)
        → Perm
            (reported (r.results ++ run_one str config run_id t o ∷ [])
              ++ gather g (set r.workers i (waiting q)))
            (reported r.results ++ gather g r.workers)
    after_test r i t q o h =
        Perm.trans (Perm-of_eq (rw (map-append, append_assoc, run_one_test t o) refl))
          (Perm.append_left (reported r.results) (one_less g r.workers i t q h (puts t q)))

  module _ (r : Run F) (i : ℕ) (g : Worker F → List Text) where
    unchanged :
        (w v : Worker F)
        → get_elem? r.workers i ≡ some w
        → g v ≡ g w
        → Perm
            (reported r.results ++ gather g (set r.workers i v))
            (reported r.results ++ gather g r.workers)
    unchanged w v h e =
        Perm-of_eq (ap (λ l. reported r.results ++ l) (gather-set g r.workers i w v h e))

  Step-tests : {r s : Run F} → Step str config run_id fail_fast r s → Perm (tests_of s) (tests_of r)
  unfolding finished
  Step-tests {r} (take_test i {t} {q} c h) = unchanged r i open_of _ _ h refl
  Step-tests {r} (find_none i {q} c h) = unchanged r i open_of _ _ h refl
  Step-tests {r} (see_cancelled i {q} c h) = unchanged r i open_of _ _ h refl
  Step-tests {r} (end_test i {t} {q} o h) = after_test open_of (λ u p. refl) r i t q o h
  Step-tests {r} (cancel c) = Perm.refl _

  -- Whatever the order of the workers, the outcomes and the cancellations are: the tests with a
  -- result, those in hand and those in the queues are, each as often, those before the steps.
  pub Steps-tests :
      {r s : Run F} → Steps str config run_id fail_fast r s → Perm (tests_of s) (tests_of r)
  Steps-tests stay = Perm.refl _
  Steps-tests (later rs st) = Perm.trans (Step-tests st) (Steps-tests rs)

  Step-begun :
      {r s : Run F}
      → Step str config run_id fail_fast r s
      → r.cancelled ≡ true
      → Perm (begun s) (begun r) × (s.cancelled ≡ true)
  unfolding finished
  Step-begun {r} (take_test i {t} {q} c h) e = cc
  Step-begun {r} (find_none i {q} c h) e = cc
  Step-begun {r} (see_cancelled i {q} c h) e = (unchanged r i held_of _ _ h refl, e)
  Step-begun {r} (end_test i {t} {q} o h) e =
      (after_test held_of (λ u p. refl) r i t q o h, rw e refl)
  Step-begun {r} (cancel c) e = cc

  -- Once the run is cancelled, by `cancel` or by a test that failed under fail-fast, no worker takes
  -- another test: the tests with a result and those in hand stay the same, and it stays cancelled.
  pub Steps-begun :
      {r s : Run F}
      → Steps str config run_id fail_fast r s
      → r.cancelled ≡ true
      → Perm (begun s) (begun r) × (s.cancelled ≡ true)
  Steps-begun stay e = (Perm.refl _, e)
  Steps-begun (later rs st) e =
      let (p, c) = Steps-begun rs e in let (q, d) = Step-begun st c in (Perm.trans q p, d)
