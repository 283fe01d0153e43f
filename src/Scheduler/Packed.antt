-- ===== src/Scheduler/Packed.antt =====
-- What `_refine` does to the idle time in front of a test that was delayed for its risk.
use conflict_graph.Prelude.{
  ℕ, zero, suc, ◌+◌, ◌-◌, ◌<◌, ◌≤◌, ◌≡◌, refl, subst, List, [], ◌∷◌, arith, Bool-cases, inl, inr,
  length, length-set, get_or, set, if_ind, ◌==◌, leb, sym,
}
use conflict_graph.Prelude.Float.{Float, nought}
use conflict_graph.Scheduler.Risk.{RiskIndex, PolicyParameters}
use conflict_graph.Scheduler.Placement.{Lane}
use conflict_graph.Scheduler.Refine.{
  Refinement, swap_next, reflow_from, reflow_lane, try_swap, swap_lane, swap_lanes, refine_round,
  refine,
}
use conflict_graph.Scheduler.Swap.{swapped, undone, try_swap_ind}
use conflict_graph.Scheduler.Removal.{get_or-set_self, get_or-set_ne}

module _ {F : Type 0} ⦃fl : Float F⦄ where
  -- The first test starts at `cursor`, and each starts at the end of the one before it.
  abbrev pub Packed : F → Lane F → Type 0
  Packed cursor [] = Unit
  Packed cursor (x ∷ rest) =
      (x.estimated_start ≡ cursor)
      × (x.estimated_end ≡ fl.add cursor x.estimated_duration)
      × Packed (fl.add cursor x.estimated_duration) rest

  -- The lane of a worker with two tests or more.
  abbrev pub PackedAt : List (Lane F) → ℕ → Type 0
  PackedAt lanes j = 2 ≤ length (get_or lanes j []) → Packed nought (get_or lanes j [])

  reflow_from-Packed :
      (cursor : F) (w : ℕ) (lane : Lane F) → Packed cursor (reflow_from cursor w lane)
  unfolding reflow_from
  reflow_from-Packed cursor w [] = tt
  reflow_from-Packed cursor w (x ∷ rest) =
      (refl, refl, reflow_from-Packed (fl.add cursor x.estimated_duration) w rest)

  past_end : (lanes : List (Lane F)) (j : ℕ) → length lanes ≤ j → get_or lanes j [] ≡ []
  past_end [] j h = refl
  past_end (l ∷ lanes) zero h = absurd (omega arith)
  past_end (l ∷ lanes) (suc j) h = past_end lanes j (omega arith)

  module _ (risk : RiskIndex F) (params : PolicyParameters F) where
    try_swap-Packed :
        (w i : ℕ) (st : Refinement F)
        → w < length st.lanes
        → Packed nought (get_or (try_swap risk params w i st).lanes w [])
    unfolding reflow_lane
    try_swap-Packed w i st h =
        let first = swapped w i st.lanes in
        let second = undone w i st.lanes in
        try_swap_ind risk params (λ ls. Packed nought (get_or ls w [])) w i st
          (rw (get_or-set_self st.lanes w first [] h)
            (reflow_from-Packed nought w (swap_next i (get_or st.lanes w []))))
          (rw
            (get_or-set_self (set st.lanes w first) w second []
              (omega (arith, length-set st.lanes w first)))
            (reflow_from-Packed nought w (swap_next i first)))

    try_swap-length :
        (w i : ℕ) (st : Refinement F) → length (try_swap risk params w i st).lanes ≡ length st.lanes
    try_swap-length w i st =
        try_swap_ind risk params (λ ls. length ls ≡ length st.lanes) w i st (simp length-set)
          (simp length-set)

    try_swap-frame :
        (w i j : ℕ) (st : Refinement F)
        → (w ≡ j → ⊥)
        → get_or (try_swap risk params w i st).lanes j [] ≡ get_or st.lanes j []
    try_swap-frame w i j st d =
        let once = get_or-set_ne st.lanes w j (swapped w i st.lanes) [] d in
        try_swap_ind risk params (λ ls. get_or ls j [] ≡ get_or st.lanes j []) w i st once
          (rw (get_or-set_ne (set st.lanes w (swapped w i st.lanes)) w j (undone w i st.lanes) [] d)
            once)

    swap_lane-length :
        (left w i : ℕ) (st : Refinement F)
        → length (swap_lane risk params left w i st).lanes ≡ length st.lanes
    unfolding swap_lane
    swap_lane-length zero w i st = refl
    swap_lane-length (suc left) w i st =
        rw (swap_lane-length left w (suc i) (try_swap risk params w i st)) (try_swap-length w i st)

    swap_lane-frame :
        (left w i j : ℕ) (st : Refinement F)
        → (w ≡ j → ⊥)
        → get_or (swap_lane risk params left w i st).lanes j [] ≡ get_or st.lanes j []
    unfolding swap_lane
    swap_lane-frame zero w i j st d = refl
    swap_lane-frame (suc left) w i j st d =
        rw (swap_lane-frame left w (suc i) j (try_swap risk params w i st) d)
          (try_swap-frame w i j st d)

    swap_lane-Packed :
        (left w i : ℕ) (st : Refinement F)
        → w < length st.lanes
        → Packed nought (get_or (swap_lane risk params (suc left) w i st).lanes w [])
    unfolding swap_lane
    swap_lane-Packed zero w i st h = try_swap-Packed w i st h
    swap_lane-Packed (suc left) w i st h =
        swap_lane-Packed left w (suc i) (try_swap risk params w i st)
          (omega (arith, try_swap-length w i st))

    whole_lane-PackedAt :
        (w : ℕ) (st : Refinement F) (left : ℕ)
        → w < length st.lanes
        → length (get_or st.lanes w []) - 1 ≡ left
        → PackedAt (swap_lane risk params left w 0 st).lanes w
    unfolding swap_lane
    whole_lane-PackedAt w st zero h e long = absurd (omega arith)
    whole_lane-PackedAt w st (suc left) h e long = swap_lane-Packed left w 0 st h

    swap_lanes-PackedAt :
        (left w : ℕ) (st : Refinement F)
        → w + left ≡ length st.lanes
        → ((j : ℕ) → j < w → PackedAt st.lanes j)
        → (j : ℕ) → PackedAt (swap_lanes risk params left w st).lanes j
    unfolding swap_lanes
    swap_lanes-PackedAt zero w st e done j long = elim (Bool-cases (leb w j)) [
      | inl past ↦
          absurd
            (omega (arith, subst (λ l. 2 ≤ length l) (past_end st.lanes j (ground arith)) long))
      | inr before ↦ done j (ground arith) long
    ]
    swap_lanes-PackedAt (suc left) w st e done j long =
        let many = length (get_or st.lanes w []) - 1 in
        let next = swap_lane risk params many w 0 st in
        swap_lanes-PackedAt left (suc w) next (omega (arith, swap_lane-length many w 0 st))
          (λ i h. elim (Bool-cases (w == i)) [
            | inl same ↦
                subst (PackedAt next.lanes) (ground arith)
                  (whole_lane-PackedAt w st many (omega arith) refl)
            | inr other ↦
                subst (λ l. 2 ≤ length l → Packed nought l)
                  (sym (swap_lane-frame many w 0 i st (λ q. ground arith))) (done i (ground arith))
          ])
          j long

    refine_round-PackedAt :
        (lanes : List (Lane F)) (j : ℕ) → PackedAt (refine_round risk params lanes).lanes j
    unfolding refine_round
    refine_round-PackedAt lanes =
        swap_lanes-PackedAt (length lanes) 0 _ (omega arith) (λ j h. absurd (omega arith))

    refine_keeps-PackedAt :
        (rounds : ℕ) (lanes : List (Lane F)) (j : ℕ)
        → PackedAt lanes j
        → PackedAt (refine risk params rounds lanes) j
    unfolding refine
    refine_keeps-PackedAt zero lanes j h = h
    refine_keeps-PackedAt (suc rounds) lanes j h =
        let round = refine_round risk params lanes in
        if_ind (λ ls. PackedAt ls j) round.changed (refine risk params rounds round.lanes)
          round.lanes
          (λ _. refine_keeps-PackedAt rounds round.lanes j (refine_round-PackedAt lanes j))
          (λ _. refine_round-PackedAt lanes j)

    -- After one round of refinement or more, every lane with at least two tests starts at time 0 and
    -- has no idle time in it, whatever swaps were accepted and whatever delays were planned before.
    pub refine-PackedAt :
        (rounds : ℕ) (lanes : List (Lane F)) (j : ℕ)
        → PackedAt (refine risk params (suc rounds) lanes) j
    unfolding refine
    refine-PackedAt rounds lanes j =
        let round = refine_round risk params lanes in
        if_ind (λ ls. PackedAt ls j) round.changed (refine risk params rounds round.lanes)
          round.lanes
          (λ _. refine_keeps-PackedAt rounds round.lanes j (refine_round-PackedAt lanes j))
          (λ _. refine_round-PackedAt lanes j)
