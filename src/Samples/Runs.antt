-- ===== src/Samples/Runs.antt =====
-- A schedule of three tests on two workers, and runs of it.
use mathlib.Core.List.{Perm}
use conflict_graph.Prelude.{
  ℕ, ◌+◌, ◌≤◌, ◌≡◌, refl, true, false, none, some, [], ◌∷◌, All, sort_by, arith,
}
use conflict_graph.Prelude.Int.{ℤ, pos}
use conflict_graph.Prelude.Text.{Text, codes}
use conflict_graph.Types.Enums.{RiskPolicy}
use conflict_graph.Types.Plan.{ScheduledTest, Schedule}
use conflict_graph.Executor.Outcome.{Strings, PytestConfig, Observed, completed, run_one}
use conflict_graph.Executor.Workers.{
  waiting, running, Run, Steps, take_test, end_test, stay, later, before, start, answer,
  with_worker, finished,
}
use conflict_graph.Executor.Conserved.{tests_of, begun, reported, Steps-tests}
use conflict_graph.Executor.Stopped.{has_failure, failure-begun}
use conflict_graph.Executor.Ordered.{line}
use conflict_graph.Executor.Messages.{Tells, run_one-Tells}
use conflict_graph.Executor.Finishing.{HasEnded, measure, count_steps, Steps-measure}
use conflict_graph.Executor.Started.{names, IsAssigned, start-some, execute_complete}
use conflict_graph.Executor.InOrder.{of_worker, execute_in_order}
use conflict_graph.Samples.Milli.{milli}

abbrev to_run : Text → ℕ → ℤ → ScheduledTest ℤ
to_run id worker begins = record {
  test_id = id;
  node_id = id;
  worker = worker;
  estimated_start = begins;
  estimated_end = begins;
  estimated_duration = pos 0;
  risk_cost = pos 0;
  reasons = [];
}

abbrev test_a : ScheduledTest ℤ
test_a = to_run (codes "a") 0 (pos 0)

abbrev test_b : ScheduledTest ℤ
test_b = to_run (codes "b") 1 (pos 0)

abbrev test_c : ScheduledTest ℤ
test_c = to_run (codes "c") 0 (pos 1000)

abbrev planned : Schedule ℤ
planned = record {
  id = codes "s";
  run_id = codes "r";
  workers = 2;
  policy = RiskPolicy.balanced;
  tests = test_c ∷ test_a ∷ test_b ∷ [];
  scheduler_latency_ms = pos 0;
  expected_makespan = pos 0;
  expected_risk = pos 0;
  seed = pos 0;
}

abbrev pub strings : Strings
strings = record { utf8 = λ t. t; splitlines = λ t. t ∷ []; strip = λ t. t; lower = λ t. t }

abbrev pytest : PytestConfig ℤ
pytest = record {
  executable = codes "python";
  working_directory = codes ".";
  timeout_seconds = pos 300000;
  extra_args = [];
  environment = [];
  output_limit_bytes = 8;
}

abbrev pub failing : Observed ℤ
failing = record {
  execution_id = codes "x";
  started_at = 1;
  ended_at = 2;
  duration_seconds = pos 1000;
  ending = completed (some (pos 1)) (codes "1 error in a.py") [];
}

abbrev begin : Run ℤ
begin = record {
  workers =
      waiting (some test_a ∷ some test_c ∷ none ∷ []) ∷ waiting (some test_b ∷ none ∷ []) ∷ [];
  cancelled = false;
  results = [];
}

begin-start : start false planned ≡ some begin
unfolding start
begin-start = refl

-- Both workers take a test.
abbrev both_at_work : Run ℤ
both_at_work =
    with_worker strings pytest (codes "r") true
      (with_worker strings pytest (codes "r") true begin 0
        (running test_a (some test_c ∷ none ∷ [])))
      1 (running test_b (none ∷ []))

abbrev to_work : Steps strings pytest (codes "r") true begin both_at_work
to_work = later (later stay (take_test 0 refl refl)) (take_test 1 refl refl)

-- The first test fails under fail-fast, and then the second ends.
abbrev after_failure : Run ℤ
after_failure =
    finished strings pytest (codes "r") true both_at_work 0 test_a (some test_c ∷ none ∷ []) failing

abbrev after_second : Run ℤ
after_second = finished strings pytest (codes "r") true after_failure 1 test_b (none ∷ []) failing

abbrev second_ends : Steps strings pytest (codes "r") true after_failure after_second
unfolding finished
second_ends = later stay (end_test 1 failing refl)

all_steps : Steps strings pytest (codes "r") true begin after_failure
all_steps = later to_work (end_test 0 failing refl)

after_failure-cancelled : after_failure.cancelled ≡ true
unfolding finished run_one
after_failure-cancelled = refl

Steps-tests_example : Perm (tests_of after_failure) (tests_of begin)
Steps-tests_example = Steps-tests strings pytest (codes "r") true all_steps

a_failed : has_failure after_failure.results ≡ true
unfolding finished run_one
a_failed = refl

failure-begun_example :
    (after_failure.cancelled ≡ true)
    × (after_second.cancelled ≡ true)
    × Perm (begun after_second) (begun after_failure)
failure-begun_example =
    failure-begun strings pytest (codes "r") false planned begin-start all_steps second_ends
      a_failed

Steps-measure_example :
    count_steps strings pytest (codes "r") true to_work + measure both_at_work ≤ measure begin
Steps-measure_example = Steps-measure strings pytest (codes "r") true to_work

assigned : IsAssigned planned
assigned = (omega arith, (omega arith, (omega arith, tt)))

execute_complete_example :
    (start false planned ≡ some (start-some false planned assigned).run)
    × ((e : Run ℤ) × Steps strings pytest
          (codes "r")
          false
          (start-some false planned assigned).run
          e
        × All HasEnded e.workers
        × Perm (reported (answer e)) (names planned.tests))
execute_complete_example =
    execute_complete strings pytest (codes "r") planned failing assigned
      (start-some false planned assigned).run stay (start-some false planned assigned).going

run_one-Tells_example :
    Tells strings pytest
      (codes "r")
      test_a
      (completed (some (pos 1)) (codes "1 error in a.py") [])
      (run_one strings pytest (codes "r") test_a failing)
run_one-Tells_example = run_one-Tells strings pytest (codes "r") test_a failing

-- Worker 0 had `a` and then `c` to run; `a` has a result now.
execute_in_order_example : line 0 after_failure ≡ names (of_worker 0 (sort_by before planned.tests))
execute_in_order_example =
    execute_in_order strings pytest (codes "r") true false planned begin after_failure 0 begin-start
      all_steps
