-- ===== src/Graph/Pairs.antt =====
-- `candidate_pairs` of python/conflictgraph/graph.py.
use conflict_graph.Prelude.{
  Bool, not, ◌&&◌, ◌||◌, List, [], ◌∷◌, ◌++◌, if◌then◌else◌, ltb, length, map, foldl, sort_by, keep,
  pair_eq,
}
use conflict_graph.Prelude.Text.{Text, text_eq, text_lt}
use conflict_graph.Prelude.Sets.{add_new, contains}
use conflict_graph.Graph.State.{TestResourceGraph, edge_mutating}

-- itertools.combinations(xs, 2)
unfoldable pub pairs_with : Text → List Text → List (Text × Text)
pairs_with a [] = []
pairs_with a (b ∷ bs) = (a, b) ∷ pairs_with a bs

unfoldable pub combinations : List Text → List (Text × Text)
unfolding pairs_with
combinations [] = []
combinations (a ∷ rest) = pairs_with a rest ++ combinations rest

-- The order of pairs: tuples of strings compare part by part.
unfoldable pub pair_lt : Text × Text → Text × Text → Bool
pair_lt (a, b) (c, d) = text_lt a c || not (text_lt c a) && text_lt b d

module _ {F : Type 0} (g : TestResourceGraph F) (include_readonly : Bool) where
  -- The inner loop's test.
  abbrev pub admits : Text → Text × Text → Bool
  admits resource (a, b) =
      include_readonly || (edge_mutating g a resource || edge_mutating g b resource)

  unfoldable pub emit : Text → List (Text × Text) → Text × Text → List (Text × Text)
  emit resource emitted pair = if admits resource pair then add_new pair emitted else emitted

  unfoldable pub emit_resource : List (Text × Text) → Text × List Text → List (Text × Text)
  unfolding emit combinations
  emit_resource emitted (resource, tests) =
      if ltb (length tests) 2
      then emitted
      else foldl (emit resource) emitted (combinations (sort_by text_lt tests))

  -- The pairs that the generator yields, in order: those that share a resource, then the others of
  -- the history.
  unfoldable pub candidate_pairs : List (Text × Text)
  unfolding emit_resource pair_lt
  candidate_pairs =
      let shared = foldl emit_resource [] g.resource_tests in
      shared
      ++ keep (λ p. not (contains p shared)) (sort_by pair_lt (map (λ p. p.0) g.pair_history))
