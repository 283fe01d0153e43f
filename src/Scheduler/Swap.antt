-- ===== src/Scheduler/Swap.antt =====
-- The two ways in which `try_swap` can leave the lanes.
use conflict_graph.Prelude.{ℕ, List, [], get_or, set, if_ind}
use conflict_graph.Prelude.Float.{Float}
use conflict_graph.Scheduler.Risk.{RiskIndex, PolicyParameters}
use conflict_graph.Scheduler.Placement.{Lane}
use conflict_graph.Scheduler.Refine.{Refinement, swap_next, reflow_lane, try_swap}

module _ {F : Type 0} ⦃fl : Float F⦄ where
  -- A lane after a swap at `i`, and after that swap is undone.
  abbrev pub swapped : ℕ → ℕ → List (Lane F) → Lane F
  swapped w i lanes = reflow_lane (swap_next i (get_or lanes w [])) w

  abbrev pub undone : ℕ → ℕ → List (Lane F) → Lane F
  undone w i lanes = reflow_lane (swap_next i (swapped w i lanes)) w

  -- What holds of the lanes after an accepted and after a rejected swap holds of `try_swap`.
  pub try_swap_ind :
      (risk : RiskIndex F) (params : PolicyParameters F) (P : List (Lane F) → Type 0) (w i : ℕ)
      (st : Refinement F)
      → P (set st.lanes w (swapped w i st.lanes))
      → P (set (set st.lanes w (swapped w i st.lanes)) w (undone w i st.lanes))
      → P (try_swap risk params w i st).lanes
  unfolding try_swap
  try_swap_ind risk params P w i st accepted rejected =
      if_ind (λ (r : Refinement F). P r.lanes) _ _ _ (λ _. accepted) (λ _. rejected)
