-- ===== src/Executor/Messages.antt =====
-- The failure message of a test's result.
use conflict_graph.Prelude.{
  ℕ, suc, ◌≤◌, ◌≡◌, refl, Bool, true, false, not, Option, none, some, List, [], ◌∷◌, ◌++◌, map,
  keep, is_empty, take, length, length-take, All, if_ind, if◌then◌else◌, arith,
}
use conflict_graph.Prelude.Text.{Text, codes}
use conflict_graph.Types.Plan.{ScheduledTest}
use conflict_graph.Types.Enums.{ExecutionStatus}
use conflict_graph.Executor.{ExecutionResult}
use conflict_graph.Executor.Outcome.{
  Strings, PytestConfig, Observed, Ending, completed, out_of_time, os_error, exit_code_of, is_zero,
  tells, or_telling, last_telling, last_line, first_of, failure_summary, result_at, run_one,
}

-- A text of 1 to 1000 characters.
abbrev pub IsMessage : Text → Type 0
IsMessage t = (1 ≤ length t) × (length t ≤ 1000)

abbrev IsFilled : Option Text → Type 0
IsFilled none = Unit
IsFilled (some t) = 1 ≤ length t

take_filled : (n : ℕ) (t : Text) → 1 ≤ length t → 1 ≤ length (take (suc n) t)
take_filled n [] h = h
take_filled n (c ∷ t) h = omega arith

IsMessage-take : (t : Text) → 1 ≤ length t → IsMessage (take 1000 t)
IsMessage-take t h = (take_filled 999 t h, length-take 1000 t)

keep-IsFilled : (ts : List Text) → All (λ t. 1 ≤ length t) (keep (λ t. not (is_empty t)) ts)
keep-IsFilled [] = tt
keep-IsFilled ([] ∷ ts) = keep-IsFilled ts
keep-IsFilled ((c ∷ t) ∷ ts) = (omega arith, keep-IsFilled ts)

last_line-IsFilled : (ts : List Text) → All (λ t. 1 ≤ length t) ts → IsFilled (last_line ts)
last_line-IsFilled [] a = tt
last_line-IsFilled (t ∷ []) a = a.0
last_line-IsFilled (t ∷ u ∷ ts) a = last_line-IsFilled (u ∷ ts) a.1

else_ind {ℓ κ} :
    {A : Type ℓ} (P : A → Type κ) (b : Bool) (x y : A) → b ≡ false → P y → P (if b then x else y)
else_ind P false x y h p = p
else_ind P true x y h p = cc

module _ (str : Strings) where
  or_telling-IsFilled :
      (o : Option Text) (t : Text) → IsFilled o → 1 ≤ length t → IsFilled (or_telling str o t)
  or_telling-IsFilled none t f h =
      if_ind {A = Option Text} IsFilled (tells str t) (some t) none (λ _. h) (λ _. tt)
  or_telling-IsFilled (some u) t f h = f

  last_telling-IsFilled :
      (ts : List Text) → All (λ t. 1 ≤ length t) ts → IsFilled (last_telling str ts)
  last_telling-IsFilled [] a = tt
  last_telling-IsFilled (t ∷ ts) a =
      or_telling-IsFilled (last_telling str ts) t (last_telling-IsFilled ts a.1) a.0

  first_of-IsMessage : (o p : Option Text) → IsFilled o → IsFilled p → IsMessage (first_of o p)
  first_of-IsMessage (some t) p f g = IsMessage-take t f
  first_of-IsMessage none (some t) f g = IsMessage-take t g
  first_of-IsMessage none none f g = (omega arith, omega arith)

  failure_summary-IsMessage : (out err : Text) → IsMessage (failure_summary str out err)
  unfolding failure_summary
  failure_summary-IsMessage out err =
      let filled = keep-IsFilled (map str.strip (str.splitlines (out ++ codes "\n" ++ err))) in
      first_of-IsMessage _ _ (last_telling-IsFilled _ filled) (last_line-IsFilled _ filled)

  module _ {F : Type 0} (config : PytestConfig F) (run_id : Text) (t : ScheduledTest F) where
    -- What a result tells of its test: whether it passed, and with which message.
    abbrev pub Tells : Ending → ExecutionResult F → Type 0
    Tells (completed code out err) r =
        (is_zero (exit_code_of code) ≡ true
          → (r.status ≡ ExecutionStatus.passed) × (r.failure_message ≡ []))
        × (is_zero (exit_code_of code) ≡ false
            → (r.status ≡ ExecutionStatus.failed) × IsMessage r.failure_message)
    Tells (out_of_time code) r =
        (r.status ≡ ExecutionStatus.timed_out) × (r.timed_out ≡ true) × IsMessage r.failure_message
    Tells (os_error late message) r =
        (r.status ≡ ExecutionStatus.infra_error)
        × (r.failure_message ≡ message)
        × (r.timed_out ≡ late)

    abbrev HasFailed : ExecutionResult F → Type 0
    HasFailed r = (r.status ≡ ExecutionStatus.failed) × IsMessage r.failure_message

    -- A test whose process exits with 0 in time has passed, without a message; one whose process
    -- exits with another code, or with none, has failed, and one that exceeds the time limit has
    -- timed out, each with a message of 1 to 1000 characters; one that ends by an OSError is
    -- an infrastructure error with its message, which has timed out if the error came after the limit.
    pub run_one-Tells : (o : Observed F) → Tells o.ending (run_one str config run_id t o)
    unfolding run_one
    run_one-Tells o = tells_at o.ending
      where
        tells_at : (e : Ending) → Tells e (result_at str config run_id t o e)
        tells_at (completed code out err) = (
          λ h. rw h (refl, refl),
          λ h.
              else_ind {A = ExecutionResult F} HasFailed (is_zero (exit_code_of code)) _ _ h
                (refl, failure_summary-IsMessage _ _),
        )
        tells_at (out_of_time code) = (refl, refl, failure_summary-IsMessage _ _)
        tells_at (os_error late message) = (refl, refl, refl)
