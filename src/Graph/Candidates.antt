-- ===== src/Graph/Candidates.antt =====
-- Which pairs `candidate_pairs` yields, and that it yields none twice.
use conflict_graph.Prelude.{
  suc, ◌≡◌, Bool, false, not, ◌&&◌, ◌||◌, List, [], ◌∷◌, ltb, length, map, foldl, sort_by, keep,
  any, if_ind, pair_eq, arith,
}
use conflict_graph.Prelude.Text.{Text, text_eq, text_lt}
use conflict_graph.Prelude.Sets.{contains, contains-keep}
use conflict_graph.Prelude.Unique.{
  contains-append, contains-sort_by, contains-foldl-admit, IsUnique, IsUnique-foldl-admit,
  IsUnique-append, IsUnique-sort_by, IsUnique-keep, All-keep_absent,
}
use conflict_graph.Graph.State.{TestResourceGraph}
use conflict_graph.Graph.Pairs.{
  combinations, pairs_with, pair_lt, admits, emit, emit_resource, candidate_pairs,
}

module _ {F : Type 0} (g : TestResourceGraph F) (include_readonly : Bool) where
  -- A resource yields its pairs of tests that are admitted.
  abbrev pub yields : Text × Text → Text × List Text → Bool
  yields p (resource, tests) =
      contains p (combinations (sort_by text_lt tests)) && admits g include_readonly resource p

  contains-emit_resource :
      (p : Text × Text) (entry : Text × List Text) (emitted : List (Text × Text))
      → contains p (emit_resource g include_readonly emitted entry)
        ≡ (contains p emitted || yields p entry)
  unfolding emit_resource emit combinations pairs_with
  contains-emit_resource p (resource, []) emitted = ground arith
  contains-emit_resource p (resource, a ∷ []) emitted = ground arith
  contains-emit_resource p (resource, a ∷ b ∷ tests) emitted =
      let long : ltb (suc (suc (length tests))) 2 ≡ false = ground arith in
      rw long (
        contains-foldl-admit (admits g include_readonly resource) p
          (combinations (sort_by text_lt (a ∷ b ∷ tests))) emitted)

  contains-shared :
      (p : Text × Text) (entries : List (Text × List Text)) (emitted : List (Text × Text))
      → contains p (foldl (emit_resource g include_readonly) emitted entries)
        ≡ (contains p emitted || any (yields p) entries)
  contains-shared p [] emitted = ground arith
  contains-shared p (entry ∷ entries) emitted =
      rw
        (
          contains-shared p entries (emit_resource g include_readonly emitted entry),
          contains-emit_resource p entry emitted,
        )
        (ground arith)

  IsUnique-emit_resource :
      (entry : Text × List Text) (emitted : List (Text × Text))
      → IsUnique emitted
      → IsUnique (emit_resource g include_readonly emitted entry)
  unfolding emit_resource emit
  IsUnique-emit_resource (resource, tests) emitted c =
      if_ind IsUnique (ltb (length tests) 2) _ _ (λ _. c)
        (λ _.
          IsUnique-foldl-admit (admits g include_readonly resource)
            (combinations (sort_by text_lt tests)) emitted c)

  IsUnique-shared :
      (entries : List (Text × List Text)) (emitted : List (Text × Text))
      → IsUnique emitted
      → IsUnique (foldl (emit_resource g include_readonly) emitted entries)
  IsUnique-shared [] emitted c = c
  IsUnique-shared (entry ∷ entries) emitted c =
      IsUnique-shared entries (emit_resource g include_readonly emitted entry)
        (IsUnique-emit_resource entry emitted c)

  -- A pair is a candidate exactly when some resource has it among the combinations of two of its
  -- sorted tests, and one of the two mutates the resource (or read-only pairs are asked for), or
  -- when it has a history.
  pub contains-candidate_pairs :
      (p : Text × Text)
      → contains p (candidate_pairs g include_readonly)
        ≡ (any (yields p) g.resource_tests || contains p (map (λ h. h.0) g.pair_history))
  unfolding candidate_pairs
  contains-candidate_pairs p =
      let shared = foldl (emit_resource g include_readonly) [] g.resource_tests in
      let past : List (Text × Text) = map (λ h. h.0) g.pair_history in
      rw
        (
          contains-append p shared (keep (λ q. not (contains q shared)) (sort_by pair_lt past)),
          contains-keep (λ q. not (contains q shared)) p (sort_by pair_lt past),
          contains-sort_by pair_lt p past,
          contains-shared p g.resource_tests [],
        )
        (ground arith)

  -- No pair is yielded twice, when no pair has two histories.
  pub candidate_pairs-IsUnique :
      IsUnique (map (λ h. h.0) g.pair_history) → IsUnique (candidate_pairs g include_readonly)
  unfolding candidate_pairs
  candidate_pairs-IsUnique c =
      let shared = foldl (emit_resource g include_readonly) [] g.resource_tests in
      let past : List (Text × Text) = map (λ h. h.0) g.pair_history in
      IsUnique-append shared (keep (λ q. not (contains q shared)) (sort_by pair_lt past))
        (IsUnique-shared g.resource_tests [] tt)
        (IsUnique-keep (λ q. not (contains q shared)) (sort_by pair_lt past)
          (IsUnique-sort_by pair_lt past c))
        (All-keep_absent shared (sort_by pair_lt past))
