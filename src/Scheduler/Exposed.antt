-- ===== src/Scheduler/Exposed.antt =====
-- `_placement_risk` against a plain description: no binary search and no early exit.
use mathlib.Core.List.{foldl-append}
use conflict_graph.Prelude.{
  ℕ, ◌≡◌, refl, sym, ◌∙◌, Bool, false, List, [], ◌∷◌, foldl, arith, Bool-cases, inl, inr, All,
  All-except, drop_while, keep, concat, except,
}
use conflict_graph.Prelude.Text.{Text}
use conflict_graph.Prelude.Float.{Float, IsOrdered, ◌≼◌, nought, unit, lt, fmin, fmax}
use conflict_graph.Prelude.Order.{fmin-le_left, fmin-le_right, le-fmax_left, le-fmax_right}
use conflict_graph.Types.Plan.{ScheduledTest}
use conflict_graph.Scheduler.Risk.{RiskIndex}
use conflict_graph.Scheduler.Placement.{Lane, Exposure, expose, scan, scan_lane, placement_risk}
use conflict_graph.Scheduler.Lanes.{Follows, Follows-weaken, starts_after}
use conflict_graph.Scheduler.Search.{drop-first_live}

module _ {F : Type 0} ⦃fl : Float F⦄ where
  open fl use {le, sub}

  -- The test runs for some time between `start` and `end`.
  abbrev pub overlaps : F → F → ScheduledTest F → Bool
  overlaps start end other = lt (fmax start other.estimated_start) (fmin end other.estimated_end)

  -- The risk that multiplies up the tests of the other workers which overlap the placement, in
  -- lane order, and that looks at every test.
  pub plain_risk : Text → F → F → RiskIndex F → List (Lane F) → ℕ → F × List Text
  plain_risk test_id start end risk lanes worker =
      let others = keep (overlaps start end) (concat (except worker lanes)) in
      let acc =
        foldl (expose test_id start end risk) (record { safe = unit; reasons = [] }) others in
      (sub unit acc.safe, acc.reasons)

  module _ (o : IsOrdered F) (test_id : Text) (start end : F) (risk : RiskIndex F) where
    open o use {le_refl, le_trans, sub-le}

    abbrev step : Exposure F → ScheduledTest F → Exposure F
    step = expose test_id start end risk

    expose_idle :
        (acc : Exposure F) (x : ScheduledTest F) → overlaps start end x ≡ false → step acc x ≡ acc
    unfolding expose
    expose_idle acc x h =
        ground
          (arith, sub-le (fmin end x.estimated_end) (fmax start x.estimated_start), le_refl nought)

    not_overlaps :
        (x : ScheduledTest F)
        → fmin end x.estimated_end ≼ fmax start x.estimated_start
        → overlaps start end x ≡ false
    not_overlaps x h = rw h

    late : (x : ScheduledTest F) → end ≼ x.estimated_start → overlaps start end x ≡ false
    late x h = not_overlaps x (
        le_trans _ _ _ (fmin-le_left o end x.estimated_end)
          (le_trans _ _ _ h (le-fmax_right o start x.estimated_start)))

    over : (x : ScheduledTest F) → x.estimated_end ≼ start → overlaps start end x ≡ false
    over x h = not_overlaps x (
        le_trans _ _ _ (fmin-le_right o end x.estimated_end)
          (le_trans _ _ _ h (le-fmax_left o start x.estimated_start)))

    foldl_late :
        (acc : Exposure F) (lane : Lane F)
        → All (λ x. end ≼ x.estimated_start) lane
        → foldl step acc lane ≡ acc
    foldl_late acc [] h = refl
    foldl_late acc (x ∷ rest) h = rw (expose_idle acc x (late x h.0)) (foldl_late acc rest h.1)

    starts_late :
        (t : F) (lane : Lane F) → Follows t lane → end ≼ t → All (λ x. end ≼ x.estimated_start) lane
    starts_late t lane f h = starts_after o end lane (Follows-weaken o end t lane h f)

    scan-eq-foldl :
        (t : F) (acc : Exposure F) (lane : Lane F)
        → Follows t lane
        → scan test_id start end risk acc lane ≡ foldl step acc lane
    unfolding scan
    scan-eq-foldl t acc [] f = refl
    scan-eq-foldl t acc (x ∷ rest) f = elim (Bool-cases (le end x.estimated_start)) [
      | inl e ↦ rw e (
          sym (
            foldl_late acc (x ∷ rest)
              (e, starts_late x.estimated_end rest f.2 (le_trans _ _ _ e f.1))))
      | inr e ↦ rw e (scan-eq-foldl x.estimated_end (step acc x) rest f.2)
    ]

    foldl-drop_while :
        (acc : Exposure F) (lane : Lane F)
        → foldl step acc (drop_while (λ x. le x.estimated_end start) lane) ≡ foldl step acc lane
    foldl-drop_while acc [] = refl
    foldl-drop_while acc (x ∷ rest) = elim (Bool-cases (le x.estimated_end start)) [
      | inl e ↦ rw (e, expose_idle acc x (over x e)) (foldl-drop_while acc rest)
      | inr e ↦ rw e
    ]

    foldl-keep :
        (acc : Exposure F) (lane : Lane F)
        → foldl step acc (keep (overlaps start end) lane) ≡ foldl step acc lane
    foldl-keep acc [] = refl
    foldl-keep acc (x ∷ rest) = elim (Bool-cases (overlaps start end x)) [
      | inl e ↦ rw e (foldl-keep (step acc x) rest)
      | inr e ↦ rw (e, expose_idle acc x e) (foldl-keep acc rest)
    ]

    Follows-drop_while :
        (t : F) (lane : Lane F)
        → Follows t lane
        → Follows t (drop_while (λ x. le x.estimated_end start) lane)
    Follows-drop_while t [] f = tt
    Follows-drop_while t (x ∷ rest) f = elim (Bool-cases (le x.estimated_end start)) [
      | inl e ↦ rw e (
          Follows-weaken o t x.estimated_end _ (le_trans _ _ _ f.0 f.1)
            (Follows-drop_while x.estimated_end rest f.2))
      | inr e ↦ rw e f
    ]

    scan_lane-eq-foldl :
        (acc : Exposure F) (lane : Lane F)
        → Follows nought lane
        → scan_lane test_id start end risk acc lane ≡ foldl step acc lane
    unfolding scan_lane
    scan_lane-eq-foldl acc lane f =
        rw (drop-first_live o nought start lane f) (
          scan-eq-foldl nought acc _ (Follows-drop_while nought lane f) ∙ foldl-drop_while acc lane)

    lanes-eq-foldl :
        (acc : Exposure F) (lanes : List (Lane F))
        → All (Follows nought) lanes
        → foldl (scan_lane test_id start end risk) acc lanes ≡ foldl step acc (concat lanes)
    lanes-eq-foldl acc [] f = refl
    lanes-eq-foldl acc (lane ∷ lanes) f =
        rw (scan_lane-eq-foldl acc lane f.0, foldl-append)
          (lanes-eq-foldl (foldl step acc lane) lanes f.1)

    -- On lanes whose tests follow one another, `_placement_risk` with its binary search and its
    -- early exit computes the plain risk and the same reasons.
    pub placement_risk-eq-plain_risk :
        (lanes : List (Lane F)) (worker : ℕ)
        → All (Follows nought) lanes
        → placement_risk test_id start end risk lanes worker
          ≡ plain_risk test_id start end risk lanes worker
    unfolding placement_risk plain_risk
    placement_risk-eq-plain_risk lanes worker f = rw (
      lanes-eq-foldl _ (except worker lanes) (All-except (Follows nought) worker lanes f),
      foldl-keep _ (concat (except worker lanes)),
    )
