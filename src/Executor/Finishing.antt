-- ===== src/Executor/Finishing.antt =====
-- Why a run of the workers ends: every step lessens a measure, and a worker that has not returned
-- can make a step.
use conflict_graph.Prelude.{
  ℕ, zero, suc, ◌+◌, ◌*◌, ◌≤◌, ◌<◌, ◌≡◌, refl, ap, subst, Bool, true, false, not, ◌&&◌, ◌||◌, none,
  some, List, [], ◌∷◌, set, get_elem?, All, All-set, All-get_elem?, length, arith,
}
use conflict_graph.Prelude.Text.{Text}
use conflict_graph.Executor.{has_passed}
use conflict_graph.Executor.Outcome.{Strings, PytestConfig, run_one}
use conflict_graph.Executor.Workers.{
  Queue, Worker, waiting, running, ended, Run, Step, Steps, take_test, find_none, see_cancelled,
  end_test, cancel, stay, later, finished,
}
use conflict_graph.Executor.Conserved.{queued}

absurd_bool {ℓ} : {A : Type ℓ} {a : Bool} → a ≡ true → a ≡ false → A
absurd_bool h k = cc

either_false : (a b : Bool) → (a || b) ≡ false → a ≡ false
either_false false b h = refl
either_false true b h = cc

-- One step for the call of `cancel`.
call_left : Bool → ℕ
call_left true = 0
call_left false = 1

call_left-or : (a b : Bool) → call_left (a || b) ≤ call_left a
unfolding call_left
call_left-or true b = omega arith
call_left-or false true = omega arith
call_left-or false false = omega arith

module _ {F : Type 0} where
  weight : Worker F → ℕ
  weight (waiting q) = 2 * length q + 1
  weight (running t q) = 2 * length q + 2
  weight (ended q) = 0

  weights : List (Worker F) → ℕ
  weights [] = 0
  weights (w ∷ ws) = weight w + weights ws

  -- The most steps that may follow.
  pub measure : Run F → ℕ
  measure r = weights r.workers + call_left r.cancelled

  weights-set :
      (ws : List (Worker F)) (i : ℕ) (w v : Worker F)
      → get_elem? ws i ≡ some w
      → weight v < weight w
      → weights (set ws i v) < weights ws
  unfolding weights
  weights-set [] i w v h l = cc
  weights-set (x ∷ ws) zero w v h l =
      let e : w ≡ x = cc in
      subst (λ y. weight v + weights ws < weight y + weights ws) e (omega (arith, l))
  weights-set (x ∷ ws) (suc i) w v h l = omega (arith, weights-set ws i w v h l)

  -- The queue has the None that ends it, and nothing after it.
  abbrev pub IsClosed : Queue F → Type 0
  IsClosed [] = ⊥
  IsClosed (none ∷ q) = q ≡ []
  IsClosed (some t ∷ q) = IsClosed q

  abbrev pub IsSound : Bool → Worker F → Type 0
  IsSound cancelled (waiting q) = IsClosed q
  IsSound cancelled (running t q) = IsClosed q
  IsSound cancelled (ended q) = cancelled ≡ false → queued q ≡ []

  abbrev pub AllSound : Run F → Type 0
  AllSound r = All (IsSound r.cancelled) r.workers

  abbrev pub HasEnded : Worker F → Type 0
  HasEnded (waiting q) = ⊥
  HasEnded (running t q) = ⊥
  HasEnded (ended q) = Unit

  IsSound-more :
      (c d : Bool) (ws : List (Worker F))
      → (d ≡ false → c ≡ false)
      → All (IsSound c) ws
      → All (IsSound d) ws
  IsSound-more c d [] f a = tt
  IsSound-more c d (waiting q ∷ ws) f (s, a) = (s, IsSound-more c d ws f a)
  IsSound-more c d (running t q ∷ ws) f (s, a) = (s, IsSound-more c d ws f a)
  IsSound-more c d (ended q ∷ ws) f (s, a) = ((λ e. s (f e)), IsSound-more c d ws f a)

module _ {F : Type 0} (str : Strings) (config : PytestConfig F) (run_id : Text)
    (fail_fast : Bool) where
  -- Every step lessens the measure.
  pub Step-measure : {r s : Run F} → Step str config run_id fail_fast r s → measure s < measure r
  unfolding finished measure weight call_left
  Step-measure {r} (take_test i {t} {q} c h) =
      omega (arith, weights-set r.workers i (waiting (some t ∷ q)) (running t q) h (omega arith))
  Step-measure {r} (find_none i {q} c h) =
      omega (arith, weights-set r.workers i (waiting (none ∷ q)) (ended q) h (omega arith))
  Step-measure {r} (see_cancelled i {q} c h) =
      omega (arith, weights-set r.workers i (waiting q) (ended q) h (omega arith))
  Step-measure {r} (end_test i {t} {q} o h) = omega (
    arith,
    weights-set r.workers i (running t q) (waiting q) h (omega arith),
    call_left-or r.cancelled (fail_fast && not (has_passed (run_one str config run_id t o).status)),
  )
  Step-measure {r} (cancel c) = rw c (omega arith)

  pub Step-AllSound : {r s : Run F} → Step str config run_id fail_fast r s → AllSound r → AllSound s
  unfolding finished
  Step-AllSound {r} (take_test i {t} {q} c h) a =
      All-set (IsSound r.cancelled) r.workers i _ a
        (All-get_elem? (IsSound r.cancelled) r.workers i a h)
  Step-AllSound {r} (find_none i {q} c h) a =
      All-set (IsSound r.cancelled) r.workers i _ a
        (λ _. ap queued (All-get_elem? (IsSound r.cancelled) r.workers i a h))
  Step-AllSound {r} (see_cancelled i {q} c h) a =
      All-set (IsSound r.cancelled) r.workers i _ a (λ e. absurd_bool c e)
  Step-AllSound {r} (end_test i {t} {q} o h) a =
      IsSound-more r.cancelled _ (set r.workers i (waiting q)) (either_false r.cancelled _) (
        All-set (IsSound r.cancelled) r.workers i _ a
          (All-get_elem? (IsSound r.cancelled) r.workers i a h))
  Step-AllSound {r} (cancel c) a =
      IsSound-more r.cancelled true r.workers (λ e. absurd_bool refl e) a

  pub Steps-AllSound :
      {r s : Run F} → Steps str config run_id fail_fast r s → AllSound r → AllSound s
  Steps-AllSound stay a = a
  Steps-AllSound (later rs st) a = Step-AllSound st (Steps-AllSound rs a)

  abbrev pub count_steps : {r s : Run F} → Steps str config run_id fail_fast r s → ℕ
  count_steps stay = 0
  count_steps (later rs st) = suc (count_steps rs)

  -- No run is longer than the measure of the state it begins in, whatever the order of the workers
  -- and the outcomes of the tests are: twice the length of each queue, two steps for a worker with a
  -- test in hand, one for a worker at its loop, and one for a cancellation.
  pub Steps-measure :
      {r s : Run F} (rs : Steps str config run_id fail_fast r s)
      → count_steps rs + measure s ≤ measure r
  Steps-measure stay = omega arith
  Steps-measure (later rs st) = omega (arith, Steps-measure rs, Step-measure st)
