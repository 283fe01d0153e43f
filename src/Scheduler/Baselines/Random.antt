-- ===== src/Scheduler/Baselines/Random.antt =====
-- The random schedule never runs two tests at once on a worker.
use conflict_graph.Prelude.{
  ℕ, zero, suc, ◌+◌, ◌<◌, ◌≤◌, ◌≡◌, ◌≢◌, refl, sym, ap, subst, ◌∙◌, Bool, true, false, ◌||◌, Option,
  some, List, [], ◌∷◌, map, All, if_ind, inl, inr, insert_sorted, nat_eq, same, same_iff, arith,
  range, range_from, Bool-cases,
}
use conflict_graph.Prelude.Int.{ℤ}
use conflict_graph.Prelude.Text.{Text}
use conflict_graph.Prelude.Dict.{Dict}
use conflict_graph.Prelude.Sets.{contains}
use conflict_graph.Prelude.Unique.{IsUnique}
use conflict_graph.Prelude.Float.{Float, IsOrdered, ◌≼◌, nought}
use conflict_graph.Types.Stats.{TestIdentity, TestStats}
use conflict_graph.Types.Plan.{ScheduledTest, Schedule}
use conflict_graph.Scheduler.Queue.{duration_of}
use conflict_graph.Scheduler.Static.{Surroundings}
use conflict_graph.Scheduler.Progress.{ids}
use conflict_graph.Scheduler.Baselines.{
  sooner, random_from, random_schedule, random_result, lasting_from,
}
use conflict_graph.Scheduler.Baselines.Serial.{duration_of-nonneg}

abbrev workers_of : {F : Type 0} → List (F × ℕ) → List ℕ
workers_of heap = map (λ e. e.1) heap

All-imp :
    {A : Type 0} {P Q : A → Type 0} → ((a : A) → P a → Q a) → (xs : List A) → All P xs → All Q xs
All-imp f [] h = tt
All-imp f (x ∷ xs) h = (f x h.0, All-imp f xs h.1)

module _ {F : Type 0} ⦃fl : Float F⦄ where
  module _ (stats : Dict Text (TestStats F)) where
    contains-push :
        (e : F × ℕ) (w : ℕ) (heap : List (F × ℕ))
        → contains w (workers_of (insert_sorted (sooner stats) e heap))
          ≡ (same e.1 w || contains w (workers_of heap))
    contains-push e w [] = refl
    contains-push e w (x ∷ heap) =
        if_ind (λ l. contains w (workers_of l) ≡ (same e.1 w || contains w (workers_of (x ∷ heap))))
          (sooner stats x e) _ _ (λ _. ground (arith, contains-push e w heap)) (λ _. refl)

    IsUnique-push :
        (e : F × ℕ) (heap : List (F × ℕ))
        → contains e.1 (workers_of heap) ≡ false
        → IsUnique (workers_of heap)
        → IsUnique (workers_of (insert_sorted (sooner stats) e heap))
    IsUnique-push e [] h c = (refl, tt)
    IsUnique-push e (x ∷ heap) h c =
        if_ind (λ l. IsUnique (workers_of l)) (sooner stats x e) _ _
          (λ _. (
            ground (arith, contains-push e x.1 heap, same_iff x.1 e.1, same_iff e.1 x.1, c.0),
            IsUnique-push e heap (ground arith) c.1,
          ))
          (λ _. (h, c))

    All-push :
        (P : F × ℕ → Type 0) (e : F × ℕ) (heap : List (F × ℕ))
        → All P (insert_sorted (sooner stats) e heap)
        → P e × All P heap
    All-push P e [] h = h
    All-push P e (x ∷ heap) given =
        if_ind (λ l. All P l → P e × All P (x ∷ heap)) (sooner stats x e) _ _
          (λ _ h. let (p, rest) = All-push P e heap h.1 in (p, (h.0, rest))) (λ _ h. h) given

  -- No test of the worker starts before the time.
  abbrev FreeAt : F × ℕ → List (ScheduledTest F) → Type 0
  FreeAt e tests = All (λ y. y.worker ≡ e.1 → e.0 ≼ y.estimated_start) tests

  -- Of two tests on one worker, the later one starts no earlier than the earlier one ends.
  abbrev pub IsApart : List (ScheduledTest F) → Type 0
  IsApart [] = Unit
  IsApart (x ∷ tests) =
      (x.estimated_start ≼ x.estimated_end)
      × FreeAt (x.estimated_end, x.worker) tests
      × IsApart tests

  record Run (heap : List (F × ℕ)) (tests : List TestIdentity)
      (result : Option (List (ScheduledTest F))) : Type 0 where
    scheduled : List (ScheduledTest F)
    returned : result ≡ some scheduled
    all_ids : ids scheduled ≡ map (λ t. t.id) tests
    on_heap : All (λ y. contains y.worker (workers_of heap) ≡ true) scheduled
    free : All (λ e. FreeAt e scheduled) heap
    is_apart : IsApart scheduled

  free_nil : (heap : List (F × ℕ)) → All (λ e. FreeAt e []) heap
  free_nil [] = tt
  free_nil (e ∷ heap) = (tt, free_nil heap)

  -- A test of another worker takes no time of theirs.
  free_cons :
      (x : ScheduledTest F) (heap : List (F × ℕ)) (tests : List (ScheduledTest F))
      → contains x.worker (workers_of heap) ≡ false
      → All (λ e. FreeAt e tests) heap
      → All (λ e. FreeAt e (x ∷ tests)) heap
  free_cons x [] tests h k = tt
  free_cons x (e ∷ heap) tests h k =
      ((λ q. ground (arith, same_iff e.1 x.worker), k.0), free_cons x heap tests (ground arith) k.1)

  push-nonempty :
      (below : F × ℕ → F × ℕ → Bool) (e : F × ℕ) (heap : List (F × ℕ))
      → insert_sorted below e heap ≢ []
  push-nonempty below e [] h = cc
  push-nonempty below e (x ∷ heap) given =
      if_ind (λ l. l ≢ []) (below x e) _ _ (λ _ h. cc) (λ _ h. cc) given

  module _ (o : IsOrdered F) (stats : Dict Text (TestStats F)) where
    random_from-Run :
        (heap : List (F × ℕ)) (tests : List TestIdentity)
        → heap ≢ []
        → IsUnique (workers_of heap)
        → Run heap tests (random_from stats heap tests)
    unfolding random_from
    random_from-Run heap [] h c = record {
      scheduled = [];
      returned = refl;
      all_ids = refl;
      on_heap = tt;
      free = free_nil heap;
      is_apart = tt;
    }
    random_from-Run [] (test ∷ tests) h c = absurd (h refl)
    random_from-Run ((start, worker) ∷ heap) (test ∷ tests) h c =
        let d = duration_of stats test in
        let end = fl.add start d in
        let later : start ≼ end = o.le-add start d (duration_of-nonneg o stats test) in
        let r =
          random_from-Run (insert_sorted (sooner stats) (end, worker) heap) tests
            (push-nonempty (sooner stats) (end, worker) heap)
            (IsUnique-push stats (end, worker) heap c.0 c.1) in
        let (own, others) = All-push stats (λ e. FreeAt e r.scheduled) (end, worker) heap r.free in
        record {
          scheduled = lasting_from test worker start d ∷ r.scheduled;
          returned = rw r.returned refl;
          all_ids = ap (λ l. test.id ∷ l) r.all_ids;
          on_heap = (
            ground (arith, same_iff worker worker),
            All-imp (λ y h. sym (contains-push stats (end, worker) y.worker heap) ∙ h) r.scheduled
                r.on_heap,
          );
          free = (
            (
              λ _. o.le_refl start,
              All-imp (λ y h q. o.le_trans start end y.estimated_start later (h q)) r.scheduled own,
            ),
            free_cons (lasting_from test worker start d) heap r.scheduled c.0 others,
          );
          is_apart = (later, own, r.is_apart);
        }

workers_of-start :
    (F : Type 0) ⦃fl : Float F⦄ (workers : List ℕ)
    → workers_of {F = F} (map (λ w. (nought, w)) workers) ≡ workers
workers_of-start F [] = refl
workers_of-start F (w ∷ workers) = ap (λ l. w ∷ l) (workers_of-start F workers)

contains-range_from : (w n i : ℕ) → contains w (range_from n i) ≡ true → (i ≤ w) × (w < i + n)
contains-range_from w zero i h = cc
contains-range_from w (suc n) i h = elim (Bool-cases (same i w)) [
  | inl e ↦ ground (arith, same_iff i w)
  | inr e ↦
      let (low, high) = contains-range_from w n (suc i) (ground arith) in (omega arith, omega arith)
]

below_start : (w n i : ℕ) → w < i → contains w (range_from n i) ≡ false
below_start w zero i h = refl
below_start w (suc n) i h = ground (arith, below_start w n (suc i), same_iff i w)

range_from-IsUnique : (n i : ℕ) → IsUnique (range_from n i)
range_from-IsUnique zero i = tt
range_from-IsUnique (suc n) i =
    (below_start i n (suc i) (omega arith), range_from-IsUnique n (suc i))

-- With at least one worker and any shuffle, the random schedule is made: it runs the shuffled tests
-- in their order, each on one of the workers, and of two tests on one worker the later one starts no
-- earlier than the earlier one ends.
pub random_schedule-IsApart :
    {F : Type 0} ⦃fl : Float F⦄ (o : IsOrdered F) (around : Surroundings F)
    (tests : List TestIdentity) (stats : Dict Text (TestStats F)) (run_id : Option Text)
    (workers : ℕ) (seed : ℤ) (shuffle : List TestIdentity → List TestIdentity)
    → 0 < workers
    → (s : Schedule F) × (random_schedule around tests stats run_id workers seed shuffle ≡ some s)
      × (ids s.tests ≡ map (λ t. t.id) (shuffle tests))
      × All (λ x. x.worker < workers) s.tests
      × IsApart s.tests
unfolding random_schedule
random_schedule-IsApart {F = F} o around tests stats run_id (suc n) seed shuffle h =
    let heap : List (F × ℕ) = map (λ w. (nought, w)) (range (suc n)) in
    let r =
      random_from-Run o stats heap (shuffle tests) (λ e. cc)
        (subst IsUnique (sym (workers_of-start F (range (suc n))))
          (range_from-IsUnique (suc n) 0)) in
    (
      random_result around run_id (suc n) seed r.scheduled,
      rw r.returned refl,
      r.all_ids,
      All-imp
          (λ y k.
            let (_, high) =
              contains-range_from y.worker (suc n) 0
                (subst (λ l. contains y.worker l ≡ true) (workers_of-start F (range (suc n))) k) in
            omega arith)
          r.scheduled r.on_heap,
      r.is_apart,
    )
random_schedule-IsApart o around tests stats run_id zero seed shuffle h = ground arith
