-- ===== src/Samples/Scored.antt =====
-- The metrics of four predictions.
use conflict_graph.Prelude.{ℕ, ◌+◌, ◌*◌, ◌≡◌, refl, List, [], ◌∷◌, arith}
use conflict_graph.Prelude.Int.{ℤ, pos}
use conflict_graph.Prelude.Float.{◌≼◌}
use conflict_graph.Metrics.{roc_auc}
use conflict_graph.Samples.Milli.{milli}

abbrev labels : List ℕ
labels = 1 ∷ 0 ∷ 1 ∷ 0 ∷ []

abbrev scores : List ℤ
scores = pos 900 ∷ pos 100 ∷ pos 400 ∷ pos 600 ∷ []

-- The boundaries of ten bins.
abbrev tenths : ℕ → ℤ
tenths i = pos (100 * i)

tenths_rise : (i : ℕ) → tenths i ≼ tenths (i + 1)
tenths_rise i = ground arith

ranked : roc_auc labels scores ≡ pos 750
unfolding roc_auc
ranked = refl
