-- ===== src/Scheduler/Refined.antt =====
-- `_refine` keeps a plan a plan: no test is lost or moved to another worker, and lanes stay
-- sequential.
use mathlib.Core.List.Perm
use mathlib.Core.List.{map-append}
use conflict_graph.Prelude.{
  ℕ, zero, suc, ◌+◌, ◌-◌, ◌<◌, ◌≡◌, refl, ap, subst, ◌∙◌, some, List, [], ◌∷◌, arith, All,
  All-get_elem?, All-set, Perm, length, length-set, get_or, set, concat, get_elem?, if_ind,
}
use conflict_graph.Prelude.Text.{Text}
use conflict_graph.Prelude.Float.{Float, IsOrdered, ◌≼◌, nought}
use conflict_graph.Scheduler.Risk.{RiskIndex, PolicyParameters}
use conflict_graph.Scheduler.Placement.{Lane}
use conflict_graph.Scheduler.Refine.{
  Refinement, swap_next, reflow_from, reflow_lane, try_swap, swap_lane, swap_lanes, refine_round,
  refine,
}
use conflict_graph.Scheduler.Swap.{swapped, try_swap_ind}
use conflict_graph.Scheduler.Lanes.{Follows}
use conflict_graph.Scheduler.Progress.{ids, OwnedFrom, OwnedFrom-set}
use conflict_graph.Scheduler.Removal.{get_elem?-get_or, get_elem?-set_self}

pub swap_next-perm {ℓ} : {A : Type ℓ} (i : ℕ) (xs : List A) → Perm (swap_next i xs) xs
unfolding swap_next
swap_next-perm i [] = Perm.refl []
swap_next-perm zero (x ∷ []) = Perm.refl (x ∷ [])
swap_next-perm zero (x ∷ y ∷ xs) = Perm.swap x y xs
swap_next-perm (suc i) (x ∷ xs) = Perm.cons x (swap_next-perm i xs)

swap_next-All {ℓ} :
    {A : Type ℓ} (P : A → Type 0) (i : ℕ) (xs : List A) → All P xs → All P (swap_next i xs)
unfolding swap_next
swap_next-All P i [] p = tt
swap_next-All P zero (x ∷ []) p = p
swap_next-All P zero (x ∷ y ∷ xs) p = (p.1.0, (p.0, p.1.1))
swap_next-All P (suc i) (x ∷ xs) p = (p.0, swap_next-All P i xs p.1)

ids-set_perm :
    {F : Type 0} (lanes : List (Lane F)) (i : ℕ) (new : Lane F) {old : Lane F}
    → get_elem? lanes i ≡ some old
    → Perm (ids new) (ids old)
    → Perm (ids (concat (set lanes i new))) (ids (concat lanes))
ids-set_perm [] i new h p = cc
ids-set_perm (l ∷ lanes) zero new {old} h p =
    let e : old ≡ l = cc in
    simp map-append
      (Perm.append_right (ids (concat lanes)) (subst (λ z. Perm (ids new) (ids z)) e p))
ids-set_perm (l ∷ lanes) (suc i) new h p =
    simp map-append (Perm.append_left (ids l) (ids-set_perm lanes i new h p))

module _ {F : Type 0} ⦃fl : Float F⦄ where
  abbrev pub Lasting : Lane F → Type 0
  Lasting = All (λ x. nought ≼ x.estimated_duration)

  -- The lanes of a plan for the given tests.
  pub record IsPlan (workers : ℕ) (given : List Text) (lanes : List (Lane F)) : Type 0 where
    pub lanes_length : length lanes ≡ workers
    pub follows : All (Follows nought) lanes
    pub owned : OwnedFrom 0 lanes
    pub durations : All Lasting lanes
    pub conserved : Perm (ids (concat lanes)) given

  reflow_from-ids :
      (cursor : F) (w : ℕ) (lane : Lane F) → ids (reflow_from cursor w lane) ≡ ids lane
  unfolding reflow_from
  reflow_from-ids cursor w [] = refl
  reflow_from-ids cursor w (x ∷ rest) =
      ap (λ l. x.test_id ∷ l) (reflow_from-ids (fl.add cursor x.estimated_duration) w rest)

  reflow_from-owned :
      (cursor : F) (w : ℕ) (lane : Lane F) → All (λ x. x.worker ≡ w) (reflow_from cursor w lane)
  unfolding reflow_from
  reflow_from-owned cursor w [] = tt
  reflow_from-owned cursor w (x ∷ rest) =
      (refl, reflow_from-owned (fl.add cursor x.estimated_duration) w rest)

  reflow_from-Lasting :
      (cursor : F) (w : ℕ) (lane : Lane F) → Lasting lane → Lasting (reflow_from cursor w lane)
  unfolding reflow_from
  reflow_from-Lasting cursor w [] h = tt
  reflow_from-Lasting cursor w (x ∷ rest) h =
      (h.0, reflow_from-Lasting (fl.add cursor x.estimated_duration) w rest h.1)

  module _ (o : IsOrdered F) where
    open o use {le_refl, le-add}

    reflow_from-Follows :
        (cursor : F) (w : ℕ) (lane : Lane F)
        → Lasting lane
        → Follows cursor (reflow_from cursor w lane)
    unfolding reflow_from
    reflow_from-Follows cursor w [] h = tt
    reflow_from-Follows cursor w (x ∷ rest) h = (
      le_refl cursor,
      le-add cursor x.estimated_duration h.0,
      reflow_from-Follows (fl.add cursor x.estimated_duration) w rest h.1,
    )

    -- Swapping two tests of one lane and laying the lane out again.
    IsPlan-swap :
        {workers : ℕ} {given : List Text} (lanes : List (Lane F)) (w i : ℕ) (lane : Lane F)
        → get_elem? lanes w ≡ some lane
        → IsPlan workers given lanes
        → IsPlan workers given (set lanes w (reflow_lane (swap_next i lane) w))
    unfolding reflow_lane
    IsPlan-swap lanes w i lane here p =
        let swapped = swap_next i lane in
        let lasting =
          swap_next-All (λ x. nought ≼ x.estimated_duration) i lane
            (All-get_elem? Lasting lanes w p.durations here) in
        record {
          lanes_length = length-set lanes w (reflow_from nought w swapped) ∙ p.lanes_length;
          follows =
              All-set (Follows nought) lanes w _ p.follows
                (reflow_from-Follows nought w swapped lasting);
          owned =
              OwnedFrom-set 0 lanes w _ p.owned (rw zero_add (reflow_from-owned nought w swapped));
          durations =
              All-set Lasting lanes w _ p.durations (reflow_from-Lasting nought w swapped lasting);
          conserved =
              Perm.trans
                (ids-set_perm lanes w _ here (
                  rw (reflow_from-ids nought w swapped)
                    (Perm.map (λ x. x.test_id) (swap_next-perm i lane))))
                p.conserved;
        }
      where
        zero_add : 0 + w ≡ w
        zero_add = omega arith

    module _ (risk : RiskIndex F) (params : PolicyParameters F) {workers : ℕ}
        {given : List Text} where
      try_swap-IsPlan :
          (w i : ℕ) (st : Refinement F)
          → w < workers
          → IsPlan workers given st.lanes
          → IsPlan workers given (try_swap risk params w i st).lanes
      try_swap-IsPlan w i st h p =
          let inside : w < length st.lanes = omega (arith, p.lanes_length) in
          let once =
            IsPlan-swap st.lanes w i (get_or st.lanes w []) (get_elem?-get_or st.lanes w [] inside)
              p in
          try_swap_ind risk params (IsPlan workers given) w i st once (
            IsPlan-swap (set st.lanes w (swapped w i st.lanes)) w i (swapped w i st.lanes)
              (get_elem?-set_self st.lanes w (swapped w i st.lanes) inside) once)

      swap_lane-IsPlan :
          (left w i : ℕ) (st : Refinement F)
          → w < workers
          → IsPlan workers given st.lanes
          → IsPlan workers given (swap_lane risk params left w i st).lanes
      unfolding swap_lane
      swap_lane-IsPlan zero w i st h p = p
      swap_lane-IsPlan (suc left) w i st h p =
          swap_lane-IsPlan left w (suc i) (try_swap risk params w i st) h
            (try_swap-IsPlan w i st h p)

      swap_lanes-IsPlan :
          (left w : ℕ) (st : Refinement F)
          → w + left ≡ workers
          → IsPlan workers given st.lanes
          → IsPlan workers given (swap_lanes risk params left w st).lanes
      unfolding swap_lanes
      swap_lanes-IsPlan zero w st e p = p
      swap_lanes-IsPlan (suc left) w st e p =
          swap_lanes-IsPlan left (suc w)
            (swap_lane risk params (length (get_or st.lanes w []) - 1) w 0 st) (omega arith)
            (swap_lane-IsPlan (length (get_or st.lanes w []) - 1) w 0 st (omega arith) p)

      pub refine_round-IsPlan :
          (lanes : List (Lane F))
          → IsPlan workers given lanes
          → IsPlan workers given (refine_round risk params lanes).lanes
      unfolding refine_round
      refine_round-IsPlan lanes p =
          swap_lanes-IsPlan (length lanes) 0 _ (omega (arith, p.lanes_length)) p

      -- Refinement turns a plan into a plan for the same tests on the same number of workers.
      pub refine-IsPlan :
          (rounds : ℕ) (lanes : List (Lane F))
          → IsPlan workers given lanes
          → IsPlan workers given (refine risk params rounds lanes)
      unfolding refine
      refine-IsPlan zero lanes p = p
      refine-IsPlan (suc rounds) lanes p =
          let again = refine_round-IsPlan lanes p in
          if_ind (IsPlan workers given) (refine_round risk params lanes).changed _ _
            (λ _. refine-IsPlan rounds (refine_round risk params lanes).lanes again) (λ _. again)
