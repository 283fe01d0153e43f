-- ===== src/Executor/Started.antt =====
-- The queues that `execute` fills, and what a run from them comes to.
use mathlib.Core.List.Perm
use mathlib.Core.List.{perm_middle, map-append}
use conflict_graph.Prelude.{
  ℕ, zero, suc, ◌<◌, ◌≡◌, refl, sym, ap, subst, Bool, false, none, some, List, [], ◌∷◌, ◌++◌, map,
  concat, set, get_elem?-some, replicate, length, length-set, length-replicate, All, Perm,
  Perm-of_eq, concat-set_snoc, sort_by, sort_by-perm, sort_by-All, append-nil,
}
use conflict_graph.Prelude.Text.{Text}
use conflict_graph.Prelude.Float.{Float}
use conflict_graph.Types.Plan.{ScheduledTest, Schedule}
use conflict_graph.Executor.Outcome.{Strings, PytestConfig, Observed}
use conflict_graph.Executor.Workers.{
  Worker, Run, Steps, stay, later, ready, run_of, put_item, put_all, before, start, answer,
}
use conflict_graph.Executor.Conserved.{queued, open_tests, reported, tests_of, Steps-tests}
use conflict_graph.Executor.Finishing.{IsClosed, IsSound, AllSound, HasEnded, Steps-AllSound}
use conflict_graph.Executor.Returning.{finish}

module _ {F : Type 0} where
  abbrev pub names : List (ScheduledTest F) → List Text
  names items = map (λ t. t.test_id) items

  put_item-some :
      (w : ℕ) (item : ScheduledTest F) (queues : List (List (ScheduledTest F)))
      → w < length queues
      → (filled : List (List (ScheduledTest F))) × (put_item w item queues ≡ some filled)
        × Perm (concat filled) (item ∷ concat queues)
        × (length filled ≡ length queues)
  put_item-some w item queues h =
      let (queue, e) = get_elem?-some queues w h in
      (
        set queues w (queue ++ item ∷ []),
        rw e refl,
        concat-set_snoc queues w item e,
        length-set queues w (queue ++ item ∷ []),
      )

  -- When every test's worker is one of the queues', no IndexError is raised, and what the queues
  -- hold is the tests that were put.
  put_all-some :
      (items : List (ScheduledTest F)) (queues : List (List (ScheduledTest F)))
      → All (λ t. t.worker < length queues) items
      → (filled : List (List (ScheduledTest F))) × (put_all items queues ≡ some filled)
        × Perm (concat filled) (items ++ concat queues)
  unfolding put_all
  put_all-some [] queues a = (queues, refl, Perm.refl _)
  put_all-some (item ∷ items) queues (l, a) =
      let (filled, e, p, n) = put_item-some item.worker item queues l in
      let (full, f, q) =
        put_all-some items filled (subst (λ k. All (λ t. t.worker < k) items) (sym n) a) in
      (
        full,
        rw (e, f) refl,
        Perm.trans q (Perm.trans (Perm.append_left items p) (perm_middle items (concat queues))),
      )

  concat-replicate : (n : ℕ) → concat (replicate n []) ≡ ◌++◌ {A = ScheduledTest F} [] []
  concat-replicate zero = refl
  concat-replicate (suc n) = concat-replicate n

  pub queued-ready :
      (items : List (ScheduledTest F)) → queued (map some items ++ none ∷ []) ≡ names items
  queued-ready [] = refl
  queued-ready (t ∷ items) = ap (λ l. t.test_id ∷ l) (queued-ready items)

  open_tests-ready :
      (queues : List (List (ScheduledTest F)))
      → open_tests (map ready queues) ≡ names (concat queues)
  open_tests-ready [] = refl
  open_tests-ready (items ∷ queues) =
      rw (queued-ready items, open_tests-ready queues, map-append) refl

  ready-IsClosed : (items : List (ScheduledTest F)) → IsClosed (map some items ++ none ∷ [])
  ready-IsClosed [] = refl
  ready-IsClosed (t ∷ items) = ready-IsClosed items

  run_of-AllSound :
      (cancelled : Bool) (queues : List (List (ScheduledTest F)))
      → All (IsSound cancelled) (map ready queues)
  run_of-AllSound cancelled [] = tt
  run_of-AllSound cancelled (items ∷ queues) =
      (ready-IsClosed items, run_of-AllSound cancelled queues)

  -- No test is left when all workers have returned without a cancellation.
  open_tests-ended :
      (ws : List (Worker F)) (c : Bool)
      → c ≡ false
      → All HasEnded ws
      → All (IsSound c) ws
      → open_tests ws ≡ []
  open_tests-ended [] c e h a = refl
  open_tests-ended (Worker.waiting q ∷ ws) c e h a = elim (h.0) [ ]
  open_tests-ended (Worker.running t q ∷ ws) c e h a = elim (h.0) [ ]
  open_tests-ended (Worker.ended q ∷ ws) c e h a = rw (a.0 e, open_tests-ended ws c e h.1 a.1) refl

  answer-reported : (r : Run F) → Perm (reported (answer r)) (reported r.results)
  unfolding answer
  answer-reported r = Perm.map (λ x. x.test_id) (sort_by-perm _ r.results)

module _ {F : Type 0} ⦃fl : Float F⦄ where
  -- Each test is to be run by a worker that the schedule has.
  abbrev pub IsAssigned : Schedule F → Type 0
  IsAssigned s = All (λ t. t.worker < s.workers) s.tests

  pub record Started (cancelled : Bool) (s : Schedule F) : Type 0 where
    pub run : Run F
    pub started : start cancelled s ≡ some run
    pub tests : Perm (tests_of run) (names s.tests)
    pub sound : AllSound run
    pub going : run.cancelled ≡ cancelled

  pub start-some : (cancelled : Bool) (s : Schedule F) → IsAssigned s → Started cancelled s
  unfolding start
  start-some cancelled s a =
      let (queues, e, p) = put_all-some (sort_by before s.tests) (replicate s.workers []) (
        sort_by-All before (λ t. t.worker < length (replicate s.workers [])) s.tests
          (subst (λ n. All (λ t. t.worker < n) s.tests) (sym (length-replicate s.workers [])) a)) in
      record {
        run = run_of cancelled queues;
        started = rw e refl;
        tests = Perm.trans (Perm-of_eq (open_tests-ready queues)) (
            Perm.map (λ t. t.test_id)
              (Perm.trans p (
                Perm.trans (Perm-of_eq (rw (concat-replicate s.workers) (append-nil _)))
                  (sort_by-perm before s.tests))));
        sound = run_of-AllSound cancelled queues;
        going = refl;
      }

module _ {F : Type 0} ⦃fl : Float F⦄ (str : Strings) (config : PytestConfig F) (run_id : Text) where
  Steps-append :
      {fail_fast : Bool} {r s t : Run F}
      → Steps str config run_id fail_fast r s
      → Steps str config run_id fail_fast s t
      → Steps str config run_id fail_fast r t
  Steps-append rs stay = rs
  Steps-append rs (later more st) = later (Steps-append rs more) st

  -- When the workers have returned without a cancellation, each test has its result.
  pub ended-reported :
      (s : Schedule F) (fail_fast : Bool) (begin e : Run F)
      → IsAssigned s
      → start false s ≡ some begin
      → Steps str config run_id fail_fast begin e
      → All HasEnded e.workers
      → e.cancelled ≡ false
      → Perm (reported (answer e)) (names s.tests)
  ended-reported s fail_fast begin e a h rs all c =
      let begun = start-some false s a in
      let same : begun.run ≡ begin = let q = begun.started in cc in
      let sound = Steps-AllSound str config run_id fail_fast rs (subst AllSound same begun.sound) in
      let none_left : open_tests e.workers ≡ [] =
        open_tests-ended e.workers e.cancelled c all sound in
      Perm.trans (answer-reported e) (
        subst (λ l. Perm l (names s.tests)) (rw none_left (append-nil _))
          (Perm.trans (Steps-tests str config run_id fail_fast rs)
            (subst (λ r. Perm (tests_of r) (names s.tests)) same begun.tests)))

  -- When every test's worker is one of the schedule's and the executor has not been cancelled before:
  -- `execute` raises no IndexError and, without
  -- fail-fast, whatever state the workers have come to without a cancellation, they can all return,
  -- and then what `execute` returns has exactly one result of each test of the schedule.
  pub execute_complete :
      (s : Schedule F) (o : Observed F) (a : IsAssigned s) (b : Run F)
      → Steps str config run_id false (start-some false s a).run b
      → b.cancelled ≡ false
      → (start false s ≡ some (start-some false s a).run)
        × ((e : Run F) × Steps str config run_id false b e
            × All HasEnded e.workers
            × Perm (reported (answer e)) (names s.tests))
  execute_complete s o a b rs c =
      let begun = start-some false s a in
      let (e, more, all, kept) =
        finish str config run_id false b o
          (Steps-AllSound str config run_id false rs begun.sound) in
      (
        begun.started,
        (
          e,
          more,
          all,
          ended-reported s false begun.run e a begun.started (Steps-append rs more) all
              (kept refl c),
        ),
      )
