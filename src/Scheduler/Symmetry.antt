-- ===== src/Scheduler/Symmetry.antt =====
-- The risk of a pair of tests.
use conflict_graph.Prelude.{◌≡◌, arith, same, same_iff, pair_eq}
use conflict_graph.Prelude.Text.{Text, text_eq}
use conflict_graph.Prelude.Float.{Float}
use conflict_graph.Types.Prediction.{stable_pair_comm}
use conflict_graph.Scheduler.Risk.{RiskIndex, probability, prediction}

same_comm : (a b : Text) → same a b ≡ same b a
same_comm a b = ground (arith, same_iff a b, same_iff b a)

module _ {F : Type 0} ⦃fl : Float F⦄ where
  -- The risk of two tests, and the prediction that a reason quotes, do not depend on their order.
  pub probability_comm :
      (risk : RiskIndex F) (a b : Text)
      → (probability risk a b ≡ probability risk b a) × (prediction risk a b ≡ prediction risk b a)
  unfolding probability prediction
  probability_comm risk a b = (rw (same_comm a b, stable_pair_comm a b), rw (stable_pair_comm a b))
