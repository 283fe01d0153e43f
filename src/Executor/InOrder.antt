-- ===== src/Executor/InOrder.antt =====
-- What is in each worker's queue when `execute` has filled them, and the order that follows from it.
use conflict_graph.Prelude.{
  ℕ, zero, suc, ◌+◌, ◌≡◌, refl, sym, ap, subst, Bool, false, none, some, List, [], ◌∷◌, ◌++◌, map,
  set, get_or, get_elem?, ◌==◌, append_assoc, append-nil, arith, Bool-cases, Option-cases, inl, inr,
  ◌∙◌, if◌then◌else◌, ==_iff, replicate, sort_by,
}
use conflict_graph.Prelude.Text.{Text}
use conflict_graph.Prelude.Float.{Float}
use conflict_graph.Types.Plan.{ScheduledTest, Schedule}
use conflict_graph.Executor.Outcome.{Strings, PytestConfig}
use conflict_graph.Executor.Workers.{Run, run_of, Steps, ready, put_all, before, start}
use conflict_graph.Executor.Ordered.{IsOwn, AllOwn, open_at, line, Steps-line}
use conflict_graph.Executor.Started.{names, queued-ready}

==-suc : (v w : ℕ) → (v == w) ≡ (suc v == suc w)
==-suc v w = elim (Bool-cases (v == w)) [
  | inl e ↦ e ∙ sym (ground arith)
  | inr e ↦ e ∙ sym (ground arith)
]

module _ {F : Type 0} where
  -- The tests of worker `w` in a list, in its order.
  abbrev pub of_worker : ℕ → List (ScheduledTest F) → List (ScheduledTest F)
  of_worker w [] = []
  of_worker w (t ∷ items) = let rest = of_worker w items in if t.worker == w then t ∷ rest else rest

  -- A put adds to the queue of the item's worker and to no other.
  put-get :
      (v w : ℕ) (item : ScheduledTest F) (queues : List (List (ScheduledTest F)))
      {q : List (ScheduledTest F)}
      → get_elem? queues v ≡ some q
      → get_or (set queues v (q ++ item ∷ [])) w []
        ≡ get_or queues w [] ++ (if v == w then item ∷ [] else [])
  put-get v w item [] h = cc
  put-get zero zero item (p ∷ queues) {q} h = let e : p ≡ q = cc in rw (← e) refl
  put-get zero (suc w) item (p ∷ queues) h =
      let e : (0 == suc w) ≡ false = ground arith in rw e (sym (append-nil _))
  put-get (suc v) zero item (p ∷ queues) h =
      let e : (suc v == 0) ≡ false = ground arith in rw e (sym (append-nil _))
  put-get (suc v) (suc w) item (p ∷ queues) h =
      put-get v w item queues h
      ∙ ap (λ b. get_or queues w [] ++ (if b then item ∷ [] else [])) (==-suc v w)

  put-of_worker :
      (w : ℕ) (item : ScheduledTest F) (items : List (ScheduledTest F))
      → (if item.worker == w then item ∷ [] else []) ++ of_worker w items
        ≡ of_worker w (item ∷ items)
  put-of_worker w item items = elim (Bool-cases (item.worker == w)) [
    | inl e ↦ rw e refl
    | inr e ↦ rw e refl
  ]

  put_all-get :
      (w : ℕ) (items : List (ScheduledTest F)) (queues filled : List (List (ScheduledTest F)))
      → put_all items queues ≡ some filled
      → get_or filled w [] ≡ get_or queues w [] ++ of_worker w items
  unfolding put_all
  put_all-get w [] queues filled h = let e : queues ≡ filled = cc in rw (e, append-nil _) refl
  put_all-get w (item ∷ items) queues filled h =
      elim (Option-cases (get_elem? queues item.worker)) [
        | inl e ↦ let n = rw e at h in cc
        | inr (q, e) ↦
            put_all-get w items (set queues item.worker (q ++ item ∷ [])) filled (rw e at h)
            ∙ rw (put-get item.worker w item queues e, append_assoc, put-of_worker w item items)
                refl
      ]

  get_or-replicate : (n w : ℕ) → get_or {A = List (ScheduledTest F)} (replicate n []) w [] ≡ []
  get_or-replicate zero w = refl
  get_or-replicate (suc n) zero = refl
  get_or-replicate (suc n) (suc w) = get_or-replicate n w

  put_all-empty :
      (n : ℕ) (items : List (ScheduledTest F)) (filled : List (List (ScheduledTest F)))
      → put_all items (replicate n []) ≡ some filled
      → (w : ℕ) → get_or filled w [] ≡ of_worker w items
  put_all-empty n items filled h w =
      put_all-get w items (replicate n []) filled h ∙ rw (get_or-replicate n w) refl

  open_at-ready :
      (w : ℕ) (queues : List (List (ScheduledTest F)))
      → open_at w (map ready queues) ≡ names (get_or queues w [])
  open_at-ready w [] = refl
  open_at-ready zero (q ∷ queues) = queued-ready q
  open_at-ready (suc w) (q ∷ queues) = open_at-ready w queues

  of_worker-IsOwn :
      (w : ℕ) (items : List (ScheduledTest F)) → IsOwn w (map some (of_worker w items) ++ none ∷ [])
  of_worker-IsOwn w [] = tt
  of_worker-IsOwn w (t ∷ items) = elim (Bool-cases (t.worker == w)) [
    | inl e ↦ rw e ((==_iff t.worker w).0 e, of_worker-IsOwn w items)
    | inr e ↦ rw e (of_worker-IsOwn w items)
  ]

  ready-AllOwn :
      (k : ℕ) (items : List (ScheduledTest F)) (queues : List (List (ScheduledTest F)))
      → ((w : ℕ) → get_or queues w [] ≡ of_worker (k + w) items)
      → AllOwn k (map ready queues)
  ready-AllOwn k items [] h = tt
  ready-AllOwn k items (q ∷ queues) h =
      let e : q ≡ of_worker k items = h zero ∙ ap (λ i. of_worker i items) (omega arith) in
      (
        subst (λ l. IsOwn k (map some l ++ none ∷ [])) (sym e) (of_worker-IsOwn k items),
        ready-AllOwn (suc k) items queues
            (λ w. h (suc w) ∙ ap (λ i. of_worker i items) (omega arith)),
      )

module _ {F : Type 0} ⦃fl : Float F⦄ where
  -- The state from which the workers begin: each queue holds its worker's tests in their order.
  record Begun (s : Schedule F) (begin : Run F) : Type 0 where
    pub owned : AllOwn 0 begin.workers
    pub queues : (w : ℕ) → line w begin ≡ names (of_worker w (sort_by before s.tests))

  start-Begun :
      (cancelled : Bool) (s : Schedule F) (begin : Run F)
      → start cancelled s ≡ some begin
      → Begun s begin
  unfolding start
  start-Begun cancelled s begin h =
      elim (Option-cases (put_all (sort_by before s.tests) (replicate s.workers []))) [
        | inl e ↦ let n = rw e at h in cc
        | inr (filled, e) ↦
            let held = put_all-empty s.workers (sort_by before s.tests) filled e in
            let b : run_of cancelled filled ≡ begin = let n = rw e at h in cc in
            subst (Begun s) b (record {
              owned =
                  ready-AllOwn 0 (sort_by before s.tests) filled
                    (λ w. held w ∙ ap (λ i. of_worker i (sort_by before s.tests)) (omega arith));
              queues = λ w. open_at-ready w filled ∙ ap names (held w);
            })
      ]

module _ {F : Type 0} ⦃fl : Float F⦄ (str : Strings) (config : PytestConfig F) (run_id : Text)
    (fail_fast : Bool) where
  -- From the state that `execute` begins in, whatever the order of the workers and the cancellations
  -- are: the tests of worker `w` that have a result, in the order in which the results came, then the
  -- one in hand, then those in its queue, are the schedule's tests of that worker in the order of
  -- their estimated starts. So each worker runs its own tests only, in that order, and passes none
  -- over.
  pub execute_in_order :
      (cancelled : Bool) (s : Schedule F) (begin r : Run F) (w : ℕ)
      → start cancelled s ≡ some begin
      → Steps str config run_id fail_fast begin r
      → line w r ≡ names (of_worker w (sort_by before s.tests))
  execute_in_order cancelled s begin r w h rs =
      let b = start-Begun cancelled s begin h in
      Steps-line str config run_id fail_fast w rs b.owned ∙ b.queues w
