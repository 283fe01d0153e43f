-- ===== src/Executor/Executions.antt =====
-- Each result is counted once, on its own test.
use conflict_graph.Prelude.{
  ℕ, ◌+◌, ◌≡◌, refl, sym, ◌∙◌, ap, true, Option, none, some, List, [], ◌∷◌, if◌then◌else◌, same,
  same_iff, All, arith, Bool-cases, inl, inr,
}
use conflict_graph.Prelude.Text.{Text, text_eq}
use conflict_graph.Prelude.Dict.{Dict, get, put, has, get-has, has-put, get-put}
use conflict_graph.Prelude.Float.{Float}
use conflict_graph.Types.Stats.{TestStats}
use conflict_graph.Executor.{ExecutionResult, updated, update_duration_stats}

module _ {F : Type 0} where
  abbrev executions_of : Option (TestStats F) → ℕ
  executions_of none = 0
  executions_of (some item) = item.executions

  abbrev pub executions_at : Text → Dict Text (TestStats F) → ℕ
  executions_at t stats = executions_of (get t stats)

  -- The number of results of a test.
  abbrev pub results_of : Text → List (ExecutionResult F) → ℕ
  results_of t [] = 0
  results_of t (r ∷ results) = (if same r.test_id t then 1 else 0) + results_of t results

module _ {F : Type 0} ⦃fl : Float F⦄ (alpha : F) where
  put-executions :
      (r : ExecutionResult F) (item : TestStats F) (stats : Dict Text (TestStats F)) (t : Text)
      → get r.test_id stats ≡ some item
      → executions_at t (put r.test_id (updated alpha r item) stats)
        ≡ executions_at t stats + (if same r.test_id t then 1 else 0)
  unfolding updated
  put-executions r item stats t h = elim (Bool-cases (same r.test_id t)) [
    | inl e ↦
        let q : r.test_id ≡ t = (same_iff r.test_id t).0 e in
        let k : get t stats ≡ some item = ap (λ x. get x stats) (sym q) ∙ h in
        rw (get-put r.test_id t (updated alpha r item) stats, e, k) refl
    | inr e ↦ rw (get-put r.test_id t (updated alpha r item) stats, e) (omega arith)
  ]

  known_after :
      (r : ExecutionResult F) (v : TestStats F) (stats : Dict Text (TestStats F))
      (results : List (ExecutionResult F))
      → All (λ x. has x.test_id stats ≡ true) results
      → All (λ x. has x.test_id (put r.test_id v stats) ≡ true) results
  known_after r v stats [] h = tt
  known_after r v stats (x ∷ results) h =
      (ground (arith, has-put r.test_id x.test_id v stats, h.0), known_after r v stats results h.1)

  -- When every result is of a test with statistics, the update raises no KeyError, and it adds to the
  -- executions of each test the number of that test's results.
  pub update_duration_stats-executions :
      (results : List (ExecutionResult F)) (stats : Dict Text (TestStats F))
      → All (λ r. has r.test_id stats ≡ true) results
      → (after : Dict Text (TestStats F)) × (update_duration_stats alpha stats results ≡ some after)
        × ((t : Text) → executions_at t after ≡ executions_at t stats + results_of t results)
  unfolding update_duration_stats
  update_duration_stats-executions [] stats h = (stats, refl, λ t. omega arith)
  update_duration_stats-executions (r ∷ results) stats h =
      let (item, found) = get-has r.test_id stats h.0 in
      let (after, made, counts) =
        update_duration_stats-executions results (put r.test_id (updated alpha r item) stats)
          (known_after r (updated alpha r item) stats results h.1) in
      (
        after,
        rw found made,
        λ t. let k = counts t in let m = put-executions r item stats t found in omega arith,
      )
