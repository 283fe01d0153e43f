-- ===== src/Scheduler/Lanes.antt =====
-- Lanes whose tests follow one another: the shape that `static_schedule` builds.
use conflict_graph.Prelude.{
  ℕ, zero, suc, ◌≤◌, ◌≡◌, refl, true, [], ◌∷◌, ◌++◌, arith, All, get_elem?,
}
use conflict_graph.Prelude.Float.{Float, IsOrdered, ◌≼◌}
use conflict_graph.Types.Plan.{ScheduledTest}
use conflict_graph.Scheduler.Placement.{Lane, ended_by}

module _ {F : Type 0} ⦃fl : Float F⦄ where
  -- Each test starts no earlier than `from` and than the end of the one before it, and ends no
  -- earlier than it starts.
  abbrev pub Follows : F → Lane F → Type 0
  Follows from [] = Unit
  Follows from (item ∷ rest) =
      (from ≼ item.estimated_start)
      × (item.estimated_start ≼ item.estimated_end)
      × Follows item.estimated_end rest

  -- When the last test of a lane ends, or `from`.
  abbrev pub lane_end : F → Lane F → F
  lane_end from [] = from
  lane_end from (item ∷ rest) = lane_end item.estimated_end rest

  module _ (o : IsOrdered F) where
    open o use {le_refl, le_trans}

    pub Follows-weaken : (s t : F) (lane : Lane F) → s ≼ t → Follows t lane → Follows s lane
    Follows-weaken s t [] h f = tt
    Follows-weaken s t (item ∷ rest) h f = (le_trans _ _ _ h f.0, f.1, f.2)

    pub le-lane_end : (t : F) (lane : Lane F) → Follows t lane → t ≼ lane_end t lane
    le-lane_end t [] f = le_refl t
    le-lane_end t (item ∷ rest) f =
        le_trans _ _ _ (le_trans _ _ _ f.0 f.1) (le-lane_end item.estimated_end rest f.2)

    -- A test that starts at the end of a lane or later may be added to it.
    pub Follows-snoc :
        (t : F) (lane : Lane F) (item : ScheduledTest F)
        → Follows t lane
        → lane_end t lane ≼ item.estimated_start
        → item.estimated_start ≼ item.estimated_end
        → Follows t (lane ++ item ∷ [])
    Follows-snoc t [] item f h k = (h, k, tt)
    Follows-snoc t (x ∷ rest) item f h k =
        (f.0, f.1, Follows-snoc x.estimated_end rest item f.2 h k)

    pub starts_after :
        (t : F) (lane : Lane F) → Follows t lane → All (λ x. t ≼ x.estimated_start) lane
    starts_after t [] f = tt
    starts_after t (x ∷ rest) f =
        (f.0, starts_after t rest (Follows-weaken _ _ rest (le_trans _ _ _ f.0 f.1) f.2))

    Follows-ended :
        (t start : F) (lane : Lane F) (j : ℕ)
        → Follows t lane
        → ended_by start (get_elem? lane j) ≡ true
        → t ≼ start
    Follows-ended t start [] j f h = cc
    Follows-ended t start (x ∷ rest) zero f h = le_trans _ _ _ f.0 (le_trans _ _ _ f.1 h)
    Follows-ended t start (x ∷ rest) (suc j) f h =
        le_trans _ _ _ f.0 (le_trans _ _ _ f.1 (Follows-ended x.estimated_end start rest j f.2 h))

    -- What stands before a test that has ended has ended too.
    pub ended_mono :
        (t start : F) (lane : Lane F) (i j : ℕ)
        → Follows t lane
        → i ≤ j
        → ended_by start (get_elem? lane j) ≡ true
        → ended_by start (get_elem? lane i) ≡ true
    ended_mono t start [] i j f le h = cc
    ended_mono t start (x ∷ rest) zero zero f le h = h
    ended_mono t start (x ∷ rest) zero (suc j) f le h =
        Follows-ended x.estimated_end start rest j f.2 h
    ended_mono t start (x ∷ rest) (suc i) zero f le h = absurd (omega arith)
    ended_mono t start (x ∷ rest) (suc i) (suc j) f le h =
        ended_mono x.estimated_end start rest i j f.2 (omega arith) h

  pub lane_end-snoc :
      (t : F) (lane : Lane F) (item : ScheduledTest F)
      → lane_end t (lane ++ item ∷ []) ≡ item.estimated_end
  lane_end-snoc t [] item = refl
  lane_end-snoc t (x ∷ rest) item = lane_end-snoc x.estimated_end rest item
