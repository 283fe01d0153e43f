-- ===== src/Executor/Returning.antt =====
-- The workers can all return: one that has not can make a step.
use conflict_graph.Prelude.{
  ℕ, zero, suc, ◌≤◌, ◌<◌, ◌≡◌, ◌⊎◌, inl, inr, refl, Bool, true, false, none, some, List, [], ◌∷◌,
  get_elem?, All, All-get_elem?, arith,
}
use conflict_graph.Prelude.Text.{Text}
use conflict_graph.Executor.Outcome.{Strings, PytestConfig, Observed}
use conflict_graph.Executor.Workers.{
  Queue, Worker, waiting, running, ended, Run, Step, Steps, take_test, find_none, see_cancelled,
  end_test, stay, later, finished, with_worker,
}
use conflict_graph.Executor.Finishing.{
  measure, IsClosed, IsSound, AllSound, HasEnded, Step-measure, Step-AllSound,
}

none_below : {m n : ℕ} → m ≤ 0 → n < m → ⊥
none_below l k = omega arith

less : {m n k : ℕ} → m ≤ suc k → n < m → n ≤ k
less l h = omega arith

module _ {F : Type 0} where
  -- A worker that has not returned.
  abbrev Active : Run F → Type 0
  Active r = (i : ℕ) × (w : Worker F) × (get_elem? r.workers i ≡ some w) × (HasEnded w → ⊥)

  find_active :
      (ws : List (Worker F))
      → All HasEnded ws ⊎ ((i : ℕ) × (w : Worker F) × (get_elem? ws i ≡ some w) × (HasEnded w → ⊥))
  find_active [] = inl tt
  find_active (waiting q ∷ ws) = inr (0, waiting q, refl, λ b. b)
  find_active (running t q ∷ ws) = inr (0, running t q, refl, λ b. b)
  find_active (ended q ∷ ws) = elim (find_active ws) [
    | inl a ↦ inl (tt, a)
    | inr (i, w, h, n) ↦ inr (suc i, w, h, n)
  ]

module _ {F : Type 0} (str : Strings) (config : PytestConfig F) (run_id : Text)
    (fail_fast : Bool) where
  then_step :
      {r s t : Run F}
      → Step str config run_id fail_fast r s
      → Steps str config run_id fail_fast s t
      → Steps str config run_id fail_fast r t
  then_step st stay = later stay st
  then_step st (later rs last) = later (then_step st rs) last

  -- A step that is no call of `cancel`.
  abbrev Next : Run F → Type 0
  Next r =
      (s : Run F) × Step str config run_id fail_fast r s
      × (fail_fast ≡ false → r.cancelled ≡ false → s.cancelled ≡ false)

  next_waiting :
      (r : Run F) (i : ℕ) (q : Queue F) (b : Bool)
      → r.cancelled ≡ b
      → get_elem? r.workers i ≡ some (waiting q)
      → IsClosed q
      → Next r
  next_waiting r i q true e h closed =
      (with_worker str config run_id fail_fast r i (ended q), see_cancelled i e h, λ f c. c)
  next_waiting r i [] false e h closed = elim closed [ ]
  next_waiting r i (none ∷ q) false e h closed =
      (with_worker str config run_id fail_fast r i (ended q), find_none i e h, λ f c. c)
  next_waiting r i (some t ∷ q) false e h closed =
      (with_worker str config run_id fail_fast r i (running t q), take_test i e h, λ f c. c)

  next :
      (r : Run F) (i : ℕ) (w : Worker F)
      → Observed F
      → get_elem? r.workers i ≡ some w
      → (HasEnded w → ⊥)
      → IsSound r.cancelled w
      → Next r
  unfolding finished
  next r i (waiting q) o h n s = next_waiting r i q r.cancelled refl h s
  next r i (running t q) o h n s =
      (finished str config run_id fail_fast r i t q o, end_test i o h, λ f c. rw (f, c) refl)
  next r i (ended q) o h n s = elim (n tt) [ ]

  abbrev pub Finish : Run F → Type 0
  Finish r =
      (s : Run F) × Steps str config run_id fail_fast r s
      × All HasEnded s.workers
      × (fail_fast ≡ false → r.cancelled ≡ false → s.cancelled ≡ false)

  returns_within : (n : ℕ) (r : Run F) → Observed F → AllSound r → measure r ≤ n → Finish r
  returns_within zero r o a l = elim (find_active r.workers) [
    | inl e ↦ (r, stay, e, λ f c. c)
    | inr (i, w, h, active) ↦
        let (s, st, keeps) =
          next r i w o h active (All-get_elem? (IsSound r.cancelled) r.workers i a h) in
        elim (none_below l (Step-measure str config run_id fail_fast st)) [ ]
  ]
  returns_within (suc n) r o a l = elim (find_active r.workers) [
    | inl e ↦ (r, stay, e, λ f c. c)
    | inr (i, w, h, active) ↦
        let (s, st, keeps) =
          next r i w o h active (All-get_elem? (IsSound r.cancelled) r.workers i a h) in
        let (e, rs, all, kept) =
          returns_within n s o (Step-AllSound str config run_id fail_fast st a)
            (less l (Step-measure str config run_id fail_fast st)) in
        (e, then_step st rs, all, λ f c. kept f (keeps f c))
  ]

  -- From a sound state the workers can all return.
  pub finish : (r : Run F) → Observed F → AllSound r → Finish r
  finish r o a = returns_within (measure r) r o a (omega arith)
