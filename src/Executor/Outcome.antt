-- ===== src/Executor/Outcome.antt =====
-- `PytestConfig`, `ScheduleExecutor._run_one`, `_decode` and `_failure_summary` of
-- python/conflictgraph/executor.py. What the process does is an `Observed`; the methods of `str` and
-- the decoding of UTF-8 are parameters. The signals that a process is killed with are left out.
use conflict_graph.Prelude.{
  ℕ, Bool, true, false, not, ◌||◌, Option, none, some, List, [], ◌∷◌, ◌++◌, map, keep, is_empty,
  take, length, ltb, if◌then◌else◌,
}
use conflict_graph.Prelude.Int.{ℤ, pos, negsuc}
use conflict_graph.Prelude.Text.{Text, codes, starts_with}
use conflict_graph.Types.Enums.{ExecutionStatus}
use conflict_graph.Types.Plan.{ScheduledTest}
use conflict_graph.Executor.{ExecutionResult}

pub record PytestConfig (F : Type 0) : Type 0 where
  pub executable : Text
  pub working_directory : Text
  pub timeout_seconds : F
  pub extra_args : List Text
  pub environment : List (Text × Text)
  pub output_limit_bytes : ℕ

-- The methods of `str` and `bytes` that are called.
pub record Strings : Type 0 where
  pub utf8 : List ℕ → Text
  pub splitlines : Text → List Text
  pub strip : Text → Text
  pub lower : Text → Text

-- How a process ends: with what it wrote and its exit code, after the time limit, or by an OSError,
-- before the time limit or after it. Other errors of `_run_one`, which end the worker, are left out.
pub data Ending : Type 0 where
  completed : Option ℤ → List ℕ → List ℕ → Ending
  out_of_time : Option ℤ → Ending
  os_error : Bool → Text → Ending

pub record Observed (F : Type 0) : Type 0 where
  pub execution_id : Text
  pub started_at : ℕ
  pub ended_at : ℕ
  pub duration_seconds : F
  pub ending : Ending

-- part in text
abbrev pub contains : Text → Text → Bool
contains part [] = starts_with part []
contains part (c ∷ cs) = starts_with part (c ∷ cs) || contains part cs

abbrev pub exit_code_of : Option ℤ → ℤ
exit_code_of none = negsuc 0
exit_code_of (some code) = code

abbrev pub is_zero : ℤ → Bool
is_zero (pos n) = ltb n 1
is_zero (negsuc n) = false

abbrev pub last_line : List Text → Option Text
last_line [] = none
last_line (line ∷ []) = some line
last_line (line ∷ next ∷ lines) = last_line (next ∷ lines)

abbrev pub first_of : Option Text → Option Text → Text
first_of (some line) last = take 1000 line
first_of none (some line) = take 1000 line
first_of none none = codes "test process failed without output"

module _ (str : Strings) where
  unfoldable pub decode : ℕ → List ℕ → Text
  decode limit payload = str.utf8 (
      if ltb limit (length payload)
      then take limit payload ++ codes "\n...[output truncated by ConflictGraph]"
      else payload)

  abbrev pub tells : Text → Bool
  tells line =
      contains (codes "failed") (str.lower line) || contains (codes "error") (str.lower line)

  abbrev pub or_telling : Option Text → Text → Option Text
  or_telling none line = if tells line then some line else none
  or_telling (some found) line = some found

  -- The last line that tells.
  abbrev pub last_telling : List Text → Option Text
  last_telling [] = none
  last_telling (line ∷ lines) = or_telling (last_telling lines) line

  unfoldable pub failure_summary : Text → Text → Text
  failure_summary stdout stderr =
      let lines =
        keep (λ line. not (is_empty line))
          (map str.strip (str.splitlines (stdout ++ codes "\n" ++ stderr))) in
      first_of (last_telling lines) (last_line lines)

  module _ {F : Type 0} (config : PytestConfig F) (run_id : Text) (scheduled : ScheduledTest F)
      (o : Observed F) where
    abbrev pub result_with : ExecutionStatus → ℤ → Text → Text → Text → Bool → ExecutionResult F
    result_with status exit_code stdout stderr failure timed_out = record {
      execution_id = o.execution_id;
      run_id = run_id;
      test_id = scheduled.test_id;
      node_id = scheduled.node_id;
      worker = scheduled.worker;
      status = status;
      started_at = o.started_at;
      ended_at = o.ended_at;
      duration_seconds = o.duration_seconds;
      exit_code = exit_code;
      stdout = stdout;
      stderr = stderr;
      failure_message = failure;
      timed_out = timed_out;
    }

    abbrev pub after_exit : ℤ → Text → Text → ExecutionResult F
    after_exit exit_code stdout stderr =
        if is_zero exit_code
        then result_with ExecutionStatus.passed exit_code stdout stderr [] false
        else result_with ExecutionStatus.failed exit_code stdout stderr
            (failure_summary stdout stderr) false

    abbrev pub after_timeout : ℤ → Text → Text → ExecutionResult F
    after_timeout exit_code stdout stderr =
        result_with ExecutionStatus.timed_out exit_code stdout stderr
          (failure_summary stdout stderr) true

    abbrev pub result_at : Ending → ExecutionResult F
    result_at (completed code stdout stderr) =
        after_exit (exit_code_of code) (decode config.output_limit_bytes stdout)
          (decode config.output_limit_bytes stderr)
    result_at (out_of_time code) =
        after_timeout (exit_code_of code) (decode config.output_limit_bytes [])
          (decode config.output_limit_bytes (codes "test exceeded configured timeout"))
    result_at (os_error late message) =
        result_with ExecutionStatus.infra_error (negsuc 0) [] message message late

    -- `_run_one`
    unfoldable pub run_one : ExecutionResult F
    run_one = result_at o.ending
