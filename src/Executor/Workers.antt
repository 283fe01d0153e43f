-- ===== src/Executor/Workers.antt =====
-- `ScheduleExecutor.execute` of python/conflictgraph/executor.py: the queues, and the workers as a
-- step relation. A step is what one worker does between two points where it waits, so that the
-- steps of the workers come in any order; the waiting for `estimated_start` is part of running. The
-- callback `on_result` is left out.
use conflict_graph.Prelude.{
  ℕ, ◌≡◌, Bool, true, false, not, ◌&&◌, ◌||◌, Option, none, some, List, [], ◌∷◌, ◌++◌, map, ltb,
  ◌==◌, sort_by, set, get_elem?, replicate, ◌>>=◌,
}
use conflict_graph.Prelude.Text.{Text}
use conflict_graph.Prelude.Float.{Float, lt}
use conflict_graph.Types.Plan.{ScheduledTest, Schedule}
use conflict_graph.Executor.{ExecutionResult, has_passed}
use conflict_graph.Executor.Outcome.{Strings, PytestConfig, Observed, run_one}

-- A queue holds tests, and the None after the last.
abbrev pub Queue : Type 0 → Type 0
Queue F = List (Option (ScheduledTest F))

-- `run_worker` at the head of its loop, with a test in hand, and returned.
pub data Worker (F : Type 0) : Type 0 where
  waiting : Queue F → Worker F
  running : ScheduledTest F → Queue F → Worker F
  ended : Queue F → Worker F

pub record Run (F : Type 0) : Type 0 where
  pub workers : List (Worker F)
  pub cancelled : Bool
  pub results : List (ExecutionResult F)

-- queues[w].put(item); `none` is the IndexError of queues[w].
abbrev pub put_item {ℓ} : {A : Type ℓ} → ℕ → A → List (List A) → Option (List (List A))
put_item w item queues = do queue ← get_elem? queues w; some (set queues w (queue ++ item ∷ []))

module _ {F : Type 0} where
  unfoldable pub put_all :
      List (ScheduledTest F)
      → List (List (ScheduledTest F))
      → Option (List (List (ScheduledTest F)))
  put_all [] queues = some queues
  put_all (item ∷ items) queues = do filled ← put_item item.worker item queues; put_all items filled

  -- A worker with its queue, to which None is put.
  abbrev pub ready : List (ScheduledTest F) → Worker F
  ready items = waiting (map some items ++ none ∷ [])

  -- What `execute` returns once the workers have.
  unfoldable pub answer : Run F → List (ExecutionResult F)
  answer r = sort_by (λ x y. ltb x.started_at y.started_at) r.results

  abbrev pub run_of : Bool → List (List (ScheduledTest F)) → Run F
  run_of cancelled queues = record {
    workers = map ready queues;
    cancelled = cancelled;
    results = [];
  }

module _ {F : Type 0} ⦃fl : Float F⦄ where
  -- (worker, estimated_start) below
  abbrev pub before : ScheduledTest F → ScheduledTest F → Bool
  before t u =
      ltb t.worker u.worker || (t.worker == u.worker && lt t.estimated_start u.estimated_start)

  -- The state before the workers' first step, of an executor whose `_cancelled` is given: an earlier
  -- run may have set it.
  unfoldable pub start : Bool → Schedule F → Option (Run F)
  unfolding put_all
  start cancelled schedule = do
    queues ← put_all (sort_by before schedule.tests) (replicate schedule.workers [])
    some (run_of cancelled queues)

module _ {F : Type 0} (str : Strings) (config : PytestConfig F) (run_id : Text)
    (fail_fast : Bool) where
  -- The state after a test's result is in.
  unfoldable pub finished : Run F → ℕ → ScheduledTest F → Queue F → Observed F → Run F
  finished r i t q o =
      let result = run_one str config run_id t o in
      record {
        workers = set r.workers i (waiting q);
        cancelled = r.cancelled || (fail_fast && not (has_passed result.status));
        results = r.results ++ result ∷ [];
      }

  abbrev pub with_worker : Run F → ℕ → Worker F → Run F
  with_worker r i w = record r { workers = set r.workers i w }

  abbrev pub Has : Run F → ℕ → Worker F → Type 0
  Has r i w = get_elem? r.workers i ≡ some w

  -- What may happen next: a worker takes a test, finds None, sees the cancellation, or ends a test;
  -- or `cancel` is called.
  pub data Step (r : Run F) : Run F → Type 0 where
    take_test :
        (i : ℕ) {t : ScheduledTest F} {q : Queue F}
        → r.cancelled ≡ false
        → Has r i (waiting (some t ∷ q))
        → Step r (with_worker r i (running t q))
    find_none :
        (i : ℕ) {q : Queue F}
        → r.cancelled ≡ false
        → Has r i (waiting (none ∷ q))
        → Step r (with_worker r i (ended q))
    see_cancelled :
        (i : ℕ) {q : Queue F}
        → r.cancelled ≡ true
        → Has r i (waiting q)
        → Step r (with_worker r i (ended q))
    end_test :
        (i : ℕ) {t : ScheduledTest F} {q : Queue F} (o : Observed F)
        → Has r i (running t q)
        → Step r (finished r i t q o)
    cancel : r.cancelled ≡ false → Step r (record r { cancelled = true })

  pub data Steps (r : Run F) : Run F → Type 0 where
    stay : Steps r r
    later : {s t : Run F} → Steps r s → Step s t → Steps r t
