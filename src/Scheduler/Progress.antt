-- ===== src/Scheduler/Progress.antt =====
-- The invariant of the placement loop of `static_schedule`.
use mathlib.Core.List.Perm
use mathlib.Core.List.{perm_middle}
use conflict_graph.Prelude.{
  ℕ, zero, suc, ◌+◌, ◌<◌, ◌≡◌, Option, some, List, [], ◌∷◌, ◌++◌, map, arith, Bool-cases, inl, inr,
  All, All-append, Perm, length, get_or, set, ◌==◌, get_elem?, concat, concat-set_snoc,
}
use conflict_graph.Prelude.Text.{Text, text_eq}
use conflict_graph.Prelude.Float.{Float, ◌≼◌, nought}
use conflict_graph.Types.Plan.{ScheduledTest}
use conflict_graph.Scheduler.Placement.{Lane}
use conflict_graph.Scheduler.Place.{Progress}
use conflict_graph.Scheduler.Lanes.{Follows, lane_end, lane_end-snoc}
use conflict_graph.Scheduler.Removal.{get_or-set_self, get_or-set_ne}

module _ {F : Type 0} where
  -- Each lane's tests carry the number of its worker, from `i` on.
  abbrev pub OwnedFrom : ℕ → List (Lane F) → Type 0
  OwnedFrom i [] = Unit
  OwnedFrom i (lane ∷ lanes) = All (λ x. x.worker ≡ i) lane × OwnedFrom (suc i) lanes

  abbrev pub ids : List (ScheduledTest F) → List Text
  ids = map (λ x. x.test_id)

  OwnedFrom-get :
      (i : ℕ) (lanes : List (Lane F)) (w : ℕ)
      → OwnedFrom i lanes
      → All (λ x. x.worker ≡ i + w) (get_or lanes w [])
  OwnedFrom-get i [] w h = tt
  OwnedFrom-get i (lane ∷ lanes) zero h = rw i+0 h.0
    where
      i+0 : i + 0 ≡ i
      i+0 = omega arith
  OwnedFrom-get i (lane ∷ lanes) (suc w) h = rw shift (OwnedFrom-get (suc i) lanes w h.1)
    where
      shift : i + suc w ≡ suc i + w
      shift = omega arith

  pub OwnedFrom-set :
      (i : ℕ) (lanes : List (Lane F)) (w : ℕ) (lane : Lane F)
      → OwnedFrom i lanes
      → All (λ x. x.worker ≡ i + w) lane
      → OwnedFrom i (set lanes w lane)
  OwnedFrom-set i [] w lane h k = tt
  OwnedFrom-set i (l ∷ lanes) zero lane h k = (rw i+0 at k, h.1)
    where
      i+0 : i + 0 ≡ i
      i+0 = omega arith
  OwnedFrom-set i (l ∷ lanes) (suc w) lane h k =
      (h.0, OwnedFrom-set (suc i) lanes w lane h.1 (rw shift at k))
    where
      shift : i + suc w ≡ suc i + w
      shift = omega arith

  pub OwnedFrom-snoc :
      (lanes : List (Lane F)) (w : ℕ) (item : ScheduledTest F)
      → OwnedFrom 0 lanes
      → item.worker ≡ w
      → OwnedFrom 0 (set lanes w (get_or lanes w [] ++ item ∷ []))
  OwnedFrom-snoc lanes w item h e =
      let e' : item.worker ≡ 0 + w = omega arith in
      OwnedFrom-set 0 lanes w _ h (
        All-append (λ x. x.worker ≡ 0 + w) (get_or lanes w []) (item ∷ [])
          (OwnedFrom-get 0 lanes w h) (e', tt))

module _ {F : Type 0} ⦃fl : Float F⦄ where
  -- What the loop keeps: as many lanes as workers; the lanes are sequential and labelled; each
  -- `lane_ends` entry is the end of its lane; and the tests placed and waiting are the given ones.
  pub record IsPlacing (workers : ℕ) (given : List Text) (st : Progress F) : Type 0 where
    pub lanes_length : length st.lanes ≡ workers
    pub ends_length : length st.lane_ends ≡ workers
    pub follows : All (Follows nought) st.lanes
    pub ends : (i : ℕ) → lane_end nought (get_or st.lanes i []) ≡ get_or st.lane_ends i nought
    pub owned : OwnedFrom 0 st.lanes
    pub durations : All (All (λ x. nought ≼ x.estimated_duration)) st.lanes
    pub conserved : Perm (ids (concat st.lanes) ++ st.remaining) given

  -- A run of the loop that ends with every test placed.
  pub record Complete (workers : ℕ) (given : List Text) (finished : Option (Progress F))
      : Type 0 where
    pub end : Progress F
    pub made : finished ≡ some end
    pub inv : IsPlacing workers given end
    pub all_placed : end.remaining ≡ []

  pub ends-append :
      (lanes : List (Lane F)) (lane_ends : List F) (w : ℕ) (item : ScheduledTest F)
      → w < length lanes
      → w < length lane_ends
      → ((i : ℕ) → lane_end nought (get_or lanes i []) ≡ get_or lane_ends i nought)
      → (i : ℕ)
      → lane_end nought (get_or (set lanes w (get_or lanes w [] ++ item ∷ [])) i [])
        ≡ get_or (set lane_ends w item.estimated_end) i nought
  ends-append lanes lane_ends w item h k ends i = elim (Bool-cases (i == w)) [
    | inl e ↦
        let e' : i ≡ w = ground arith in
        rw
          (
            e',
            get_or-set_self lanes w (get_or lanes w [] ++ item ∷ []) [] h,
            get_or-set_self lane_ends w item.estimated_end nought k,
          )
          (lane_end-snoc nought (get_or lanes w []) item)
    | inr e ↦
        let d : w ≡ i → ⊥ = λ q. ground arith in
        rw
          (
            get_or-set_ne lanes w i (get_or lanes w [] ++ item ∷ []) [] d,
            get_or-set_ne lane_ends w i item.estimated_end nought d,
          )
          (ends i)
  ]

  -- A test that moves from the queue to a lane is still there once.
  pub conserved-append :
      (lanes : List (Lane F)) (w : ℕ) (item : ScheduledTest F) (remaining kept given : List Text)
      {lane : Lane F}
      → get_elem? lanes w ≡ some lane
      → Perm remaining (item.test_id ∷ kept)
      → Perm (ids (concat lanes) ++ remaining) given
      → Perm (ids (concat (set lanes w (lane ++ item ∷ []))) ++ kept) given
  conserved-append lanes w item remaining kept given here removed conserved =
      let before = ids (concat lanes) in
      Perm.trans
        (Perm.append_right kept (Perm.map (λ x. x.test_id) (concat-set_snoc lanes w item here)))
        (Perm.trans (Perm.symm (perm_middle before kept))
          (Perm.trans (Perm.append_left before (Perm.symm removed)) conserved))
