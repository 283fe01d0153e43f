-- ===== src/Executor/Ordered.antt =====
-- The order in which a worker's tests end.
use conflict_graph.Prelude.{
  ℕ, zero, suc, ◌+◌, ◌≡◌, refl, sym, ap, subst, Bool, true, false, none, some, List, [], ◌∷◌, ◌++◌,
  set, get_elem?, ◌==◌, append_assoc, arith, Bool-cases, inl, inr, ◌∙◌, if◌then◌else◌, ==_iff,
}
use conflict_graph.Prelude.Text.{Text}
use conflict_graph.Types.Plan.{ScheduledTest}
use conflict_graph.Executor.{ExecutionResult}
use conflict_graph.Executor.Outcome.{Strings, PytestConfig, run_one}
use conflict_graph.Executor.Workers.{
  Queue, Worker, waiting, running, ended, Run, Step, Steps, take_test, find_none, see_cancelled,
  end_test, cancel, stay, later, finished,
}
use conflict_graph.Executor.Conserved.{open_of, run_one_ind}

module _ {F : Type 0} where
  -- The tests in a queue are those of one worker.
  abbrev pub IsOwn : ℕ → Queue F → Type 0
  IsOwn w [] = Unit
  IsOwn w (none ∷ q) = IsOwn w q
  IsOwn w (some t ∷ q) = (t.worker ≡ w) × IsOwn w q

  abbrev pub IsOwner : ℕ → Worker F → Type 0
  IsOwner w (waiting q) = IsOwn w q
  IsOwner w (running t q) = (t.worker ≡ w) × IsOwn w q
  IsOwner w (ended q) = IsOwn w q

  abbrev pub AllOwn : ℕ → List (Worker F) → Type 0
  AllOwn w [] = Unit
  AllOwn w (x ∷ ws) = IsOwner w x × AllOwn (suc w) ws

  -- The tests of worker number `w`, counted from `i`, that have no result.
  abbrev pub open_at : ℕ → List (Worker F) → List Text
  open_at w [] = []
  open_at zero (x ∷ ws) = open_of x
  open_at (suc w) (x ∷ ws) = open_at w ws

  -- The tests of a worker that have a result, in the order in which the results came.
  abbrev pub reported_by : ℕ → List (ExecutionResult F) → List Text
  reported_by w [] = []
  reported_by w (r ∷ rs) =
      let rest = reported_by w rs in if r.worker == w then r.test_id ∷ rest else rest

  -- The tests of a worker: those with a result, the one in hand, and the queue.
  abbrev pub line : ℕ → Run F → List Text
  line w r = reported_by w r.results ++ open_at w r.workers

  AllOwn-get :
      (k i : ℕ) (ws : List (Worker F)) {x : Worker F}
      → AllOwn k ws
      → get_elem? ws i ≡ some x
      → (n : ℕ) × (n ≡ k + i) × IsOwner n x
  AllOwn-get k i [] a h = cc
  AllOwn-get k zero (y ∷ ws) {x} a h =
      let e : y ≡ x = cc in (k, omega arith, subst (IsOwner k) e a.0)
  AllOwn-get k (suc i) (y ∷ ws) a h =
      let (n, e, o) = AllOwn-get (suc k) i ws a.1 h in (n, omega (arith, e), o)

  AllOwn-set :
      (k i : ℕ) (ws : List (Worker F)) (x y : Worker F)
      → AllOwn k ws
      → get_elem? ws i ≡ some x
      → ((n : ℕ) → IsOwner n x → IsOwner n y)
      → AllOwn k (set ws i y)
  AllOwn-set k i [] x y a h f = a
  AllOwn-set k zero (z ∷ ws) x y a h f = let e : z ≡ x = cc in (f k (subst (IsOwner k) e a.0), a.1)
  AllOwn-set k (suc i) (z ∷ ws) x y a h f = (a.0, AllOwn-set (suc k) i ws x y a.1 h f)

  open_at-same :
      (w i : ℕ) (ws : List (Worker F)) (x y : Worker F)
      → get_elem? ws i ≡ some x
      → open_of y ≡ open_of x
      → open_at w (set ws i y) ≡ open_at w ws
  open_at-same w i [] x y h e = refl
  open_at-same zero zero (z ∷ ws) x y h e = let q : x ≡ z = cc in rw (e, q) refl
  open_at-same (suc w) zero (z ∷ ws) x y h e = refl
  open_at-same zero (suc i) (z ∷ ws) x y h e = refl
  open_at-same (suc w) (suc i) (z ∷ ws) x y h e = open_at-same w i ws x y h e

  open_at-own :
      (i : ℕ) (ws : List (Worker F)) (t : ScheduledTest F) (q : Queue F)
      → get_elem? ws i ≡ some (running t q)
      → open_at i ws ≡ t.test_id ∷ open_at i (set ws i (waiting q))
  open_at-own i [] t q h = cc
  open_at-own zero (z ∷ ws) t q h = let e : running t q ≡ z = cc in rw (← e) refl
  open_at-own (suc i) (z ∷ ws) t q h = open_at-own i ws t q h

  open_at-other :
      (w i : ℕ) (ws : List (Worker F)) (y : Worker F)
      → (i == w) ≡ false
      → open_at w (set ws i y) ≡ open_at w ws
  open_at-other w i [] y h = refl
  open_at-other zero zero (z ∷ ws) y h = ground arith
  open_at-other (suc w) zero (z ∷ ws) y h = refl
  open_at-other zero (suc i) (z ∷ ws) y h = refl
  open_at-other (suc w) (suc i) (z ∷ ws) y h = open_at-other w i ws y (ground arith)

  reported_by-own :
      (w : ℕ) (rs : List (ExecutionResult F)) (r : ExecutionResult F)
      → (r.worker == w) ≡ true
      → reported_by w (rs ++ r ∷ []) ≡ reported_by w rs ++ r.test_id ∷ []
  reported_by-own w [] r h = rw h refl
  reported_by-own w (x ∷ rs) r h = elim (Bool-cases (x.worker == w)) [
    | inl e ↦ rw (e, reported_by-own w rs r h) refl
    | inr e ↦ rw (e, reported_by-own w rs r h) refl
  ]

  reported_by-other :
      (w : ℕ) (rs : List (ExecutionResult F)) (r : ExecutionResult F)
      → (r.worker == w) ≡ false
      → reported_by w (rs ++ r ∷ []) ≡ reported_by w rs
  reported_by-other w [] r h = rw h refl
  reported_by-other w (x ∷ rs) r h = elim (Bool-cases (x.worker == w)) [
    | inl e ↦ rw (e, reported_by-other w rs r h) refl
    | inr e ↦ rw (e, reported_by-other w rs r h) refl
  ]

module _ {F : Type 0} (str : Strings) (config : PytestConfig F) (run_id : Text)
    (fail_fast : Bool) where
  Step-AllOwn :
      {r s : Run F} → Step str config run_id fail_fast r s → AllOwn 0 r.workers → AllOwn 0 s.workers
  unfolding finished
  Step-AllOwn {r} (take_test i c h) a = AllOwn-set 0 i r.workers _ _ a h (λ n o. o)
  Step-AllOwn {r} (find_none i c h) a = AllOwn-set 0 i r.workers _ _ a h (λ n o. o)
  Step-AllOwn {r} (see_cancelled i c h) a = AllOwn-set 0 i r.workers _ _ a h (λ n o. o)
  Step-AllOwn {r} (end_test i o h) a = AllOwn-set 0 i r.workers _ _ a h (λ n p. p.1)
  Step-AllOwn {r} (cancel c) a = a

  -- The line of a worker when the test of worker `i` ends.
  line_after :
      (w i : ℕ) (r : Run F) (t : ScheduledTest F) (q : Queue F) (result : ExecutionResult F)
      → get_elem? r.workers i ≡ some (running t q)
      → result.test_id ≡ t.test_id
      → result.worker ≡ i
      → reported_by w (r.results ++ result ∷ []) ++ open_at w (set r.workers i (waiting q))
        ≡ line w r
  line_after w i r t q result h same_test same_worker = elim (Bool-cases (i == w)) [
    | inl e ↦
        let own : (result.worker == w) ≡ true = rw same_worker e in
        let n : i ≡ w = (==_iff i w).0 e in
        let after = open_at w (set r.workers i (waiting q)) in
        let back : t.test_id ∷ after ≡ open_at w r.workers =
          subst (λ k. t.test_id ∷ open_at k (set r.workers i (waiting q)) ≡ open_at k r.workers) n
            (sym (open_at-own i r.workers t q h)) in
        ap (λ l. l ++ after) (reported_by-own w r.results result own)
        ∙ append_assoc (reported_by w r.results) (result.test_id ∷ []) after
        ∙ ap (λ l. reported_by w r.results ++ l) (ap (λ x. x ∷ after) same_test ∙ back)
    | inr e ↦
        let other : (result.worker == w) ≡ false = rw same_worker e in
        rw (reported_by-other w r.results result other, open_at-other w i r.workers (waiting q) e)
          refl
  ]

  Step-line :
      (w : ℕ) {r s : Run F}
      → Step str config run_id fail_fast r s
      → AllOwn 0 r.workers
      → line w s ≡ line w r
  unfolding finished
  Step-line w {r} (take_test i c h) a =
      ap (λ l. reported_by w r.results ++ l) (open_at-same w i r.workers _ _ h refl)
  Step-line w {r} (find_none i c h) a =
      ap (λ l. reported_by w r.results ++ l) (open_at-same w i r.workers _ _ h refl)
  Step-line w {r} (see_cancelled i c h) a =
      ap (λ l. reported_by w r.results ++ l) (open_at-same w i r.workers _ _ h refl)
  Step-line w {r} (end_test i {t} {q} o h) a =
      let (n, e, own) = AllOwn-get 0 i r.workers a h in
      line_after w i r t q (run_one str config run_id t o) h
        (run_one_ind str config run_id fail_fast t o (λ x. x.test_id ≡ t.test_id)
          (λ _ _ _ _ _ _. refl))
        (run_one_ind str config run_id fail_fast t o (λ x. x.worker ≡ i)
          (λ _ _ _ _ _ _. omega (arith, e, own.0)))
  Step-line w {r} (cancel c) a = refl

  Steps-AllOwn :
      {r s : Run F}
      → Steps str config run_id fail_fast r s
      → AllOwn 0 r.workers
      → AllOwn 0 s.workers
  Steps-AllOwn stay a = a
  Steps-AllOwn (later rs st) a = Step-AllOwn st (Steps-AllOwn rs a)

  -- When each queue holds the tests of its worker: whatever the order of the workers and the
  -- cancellations are, the tests of a worker that have a result, in the order in which the results
  -- came, then the one in hand, then those in the queue, stay the same list. So the tests of a worker
  -- end in the order of its queue, and none is passed over.
  pub Steps-line :
      (w : ℕ) {r s : Run F}
      → Steps str config run_id fail_fast r s
      → AllOwn 0 r.workers
      → line w s ≡ line w r
  Steps-line w stay a = refl
  Steps-line w (later rs st) a = Step-line w st (Steps-AllOwn rs a) ∙ Steps-line w rs a
