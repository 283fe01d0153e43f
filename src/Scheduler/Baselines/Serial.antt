-- ===== src/Scheduler/Baselines/Serial.antt =====
-- The serial schedule is a plan for one worker, in the given order.
use conflict_graph.Prelude.{
  ◌≡◌, refl, sym, ap, subst, Option, List, [], ◌∷◌, map, All, Perm, Perm-of_eq, append-nil,
}
use conflict_graph.Prelude.Text.{Text}
use conflict_graph.Prelude.Dict.{Dict}
use conflict_graph.Prelude.Float.{Float, IsOrdered, ◌≼◌, nought}
use conflict_graph.Prelude.Order.{le-fmax_left}
use conflict_graph.Types.Stats.{TestIdentity, TestStats}
use conflict_graph.Scheduler.Queue.{duration_of}
use conflict_graph.Scheduler.Static.{Surroundings}
use conflict_graph.Scheduler.Lanes.{Follows}
use conflict_graph.Scheduler.Progress.{ids}
use conflict_graph.Scheduler.Refined.{IsPlan, Lasting}
use conflict_graph.Scheduler.Baselines.{serial_from, serial_schedule}

module _ {F : Type 0} ⦃fl : Float F⦄ (o : IsOrdered F) where
  open o use {le_refl, le_trans}

  pub duration_of-nonneg :
      (stats : Dict Text (TestStats F)) (test : TestIdentity) → nought ≼ duration_of stats test
  unfolding duration_of
  duration_of-nonneg stats test = le_trans _ _ _ (o.lit-nonneg 1 3) (le-fmax_left o _ _)

  module _ (stats : Dict Text (TestStats F)) where
    serial-ids :
        (cursor : F) (tests : List TestIdentity)
        → ids (serial_from stats cursor tests).0 ≡ map (λ t. t.id) tests
    unfolding serial_from
    serial-ids cursor [] = refl
    serial-ids cursor (test ∷ tests) =
        ap (λ l. test.id ∷ l) (serial-ids (fl.add cursor (duration_of stats test)) tests)

    serial-Follows :
        (cursor : F) (tests : List TestIdentity) → Follows cursor (serial_from stats cursor tests).0
    unfolding serial_from
    serial-Follows cursor [] = tt
    serial-Follows cursor (test ∷ tests) =
        let d = duration_of stats test in
        (
          le_refl cursor,
          o.le-add cursor d (duration_of-nonneg stats test),
          serial-Follows (fl.add cursor d) tests,
        )

    serial-worker :
        (cursor : F) (tests : List TestIdentity)
        → All (λ x. x.worker ≡ 0) (serial_from stats cursor tests).0
    unfolding serial_from
    serial-worker cursor [] = tt
    serial-worker cursor (test ∷ tests) =
        (refl, serial-worker (fl.add cursor (duration_of stats test)) tests)

    serial-Lasting :
        (cursor : F) (tests : List TestIdentity) → Lasting (serial_from stats cursor tests).0
    unfolding serial_from
    serial-Lasting cursor [] = tt
    serial-Lasting cursor (test ∷ tests) = (
      duration_of-nonneg stats test,
      serial-Lasting (fl.add cursor (duration_of stats test)) tests,
    )

    serial-end :
        (cursor : F) (tests : List TestIdentity) → cursor ≼ (serial_from stats cursor tests).1
    unfolding serial_from
    serial-end cursor [] = le_refl cursor
    serial-end cursor (test ∷ tests) =
        let d = duration_of stats test in
        le_trans _ _ _ (o.le-add cursor d (duration_of-nonneg stats test))
          (serial-end (fl.add cursor d) tests)

    serial-bound :
        (cursor : F) (tests : List TestIdentity)
        → All
            (λ x. x.estimated_end ≼ (serial_from stats cursor tests).1)
            (serial_from stats cursor tests).0
    unfolding serial_from
    serial-bound cursor [] = tt
    serial-bound cursor (test ∷ tests) =
        let d = duration_of stats test in
        (serial-end (fl.add cursor d) tests, serial-bound (fl.add cursor d) tests)

  -- The serial schedule runs every given test, as often as it is given and in the given order, on
  -- worker 0, each no earlier than the end of the one before it; its makespan is no earlier than the
  -- end of any of them.
  pub serial_schedule-IsPlan :
      (around : Surroundings F) (tests : List TestIdentity) (stats : Dict Text (TestStats F))
      (run_id : Option Text)
      → let s = serial_schedule around tests stats run_id in
        (ids s.tests ≡ map (λ t. t.id) tests)
        × IsPlan 1 (map (λ t. t.id) tests) (s.tests ∷ [])
        × All (λ x. x.estimated_end ≼ s.expected_makespan) s.tests
  unfolding serial_schedule
  serial_schedule-IsPlan around tests stats run_id =
      let lane = (serial_from stats nought tests).0 in
      (
        serial-ids stats nought tests,
        record {
          lanes_length = refl;
          follows = (serial-Follows stats nought tests, tt);
          owned = (serial-worker stats nought tests, tt);
          durations = (serial-Lasting stats nought tests, tt);
          conserved =
              subst (λ l. Perm (ids l) (map (λ t. t.id) tests)) (sym (append-nil lane))
                (Perm-of_eq (serial-ids stats nought tests));
        },
        serial-bound stats nought tests,
      )
