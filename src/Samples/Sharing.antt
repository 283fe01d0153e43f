-- ===== src/Samples/Sharing.antt =====
-- A graph of two tests that write one file.
use conflict_graph.Prelude.{
  nat_eq, All, ◌↔◌, ◌≡◌, refl, false, ◌||◌, List, [], ◌∷◌, any, map, pair_eq,
}
use conflict_graph.Prelude.Int.{ℤ, pos}
use conflict_graph.Prelude.Text.{text_eq, codes}
use conflict_graph.Prelude.Sets.{contains}
use conflict_graph.Prelude.Unique.{IsUnique}
use conflict_graph.Types.Enums.{ConflictCause, ResourceType, Operation, AccessMode}
use conflict_graph.Types.Events.{TraceEvent, create_resource}
use conflict_graph.Graph.Access.{mutating}
use conflict_graph.Graph.State.{TestResourceGraph, from_events}
use conflict_graph.Graph.Pairs.{candidate_pairs}
use conflict_graph.Graph.Features.{pair_features}
use conflict_graph.Graph.Consistent.{IsConsistent, from_events-IsConsistent}
use conflict_graph.Graph.Candidates.{yields, contains-candidate_pairs}
use conflict_graph.Graph.Counts.{IsBounded, pair_features-IsBounded}
use conflict_graph.Graph.Heuristic.{heuristic_score, signals}
use conflict_graph.Graph.Scores.{heuristic_score-cause}
use conflict_graph.Samples.Milli.{milli}
use conflict_graph.Samples.World.{three}
use conflict_graph.Samples.Attribution.{event}

abbrev pub events : List TraceEvent
events =
    event (codes "b") ResourceType.file (codes "/f") Operation.write AccessMode.write
    ∷ event (codes "a") ResourceType.file (codes "/f") Operation.write AccessMode.write
    ∷ event (codes "d") ResourceType.file (codes "/g") Operation.read AccessMode.read
    ∷ []

-- The text stands for its own hash.
abbrev pub shared : TestResourceGraph ℤ
shared = from_events (λ t. t) events three

from_events-IsConsistent_example : IsConsistent shared
from_events-IsConsistent_example = from_events-IsConsistent (λ t. t) events three

contains-candidate_pairs_example :
    contains (codes "a", codes "b") (candidate_pairs shared false) ≡ (
      any (yields shared false (codes "a", codes "b")) shared.resource_tests
      || contains (codes "a", codes "b") (map (λ h. h.0) shared.pair_history))
contains-candidate_pairs_example = contains-candidate_pairs shared false (codes "a", codes "b")

no_history : IsUnique (map (λ h. h.0) shared.pair_history)
unfolding from_events
no_history = tt

pair_features-IsBounded_example :
    IsBounded
      (pair_features shared (codes "b") (codes "a")).shared_resources
      (pair_features shared (codes "b") (codes "a")).counters
pair_features-IsBounded_example =
    pair_features-IsBounded shared (codes "b") (codes "a")
      (from_events-IsConsistent (λ t. t) events three)

-- The two tests that write are the one candidate.
one_candidate : candidate_pairs shared false ≡ (codes "a", codes "b") ∷ []
unfolding candidate_pairs from_events create_resource mutating
one_candidate = refl

heuristic_score-cause_example :
    ((heuristic_score (pos 1) 7 (pair_features shared (codes "b") (codes "a"))).cause
      ≡ ConflictCause.unknown)
    ↔ All (λ s. s.count ≡ 0) (signals (pair_features shared (codes "b") (codes "a")))
heuristic_score-cause_example =
    heuristic_score-cause (pos 1) 7 (pair_features shared (codes "b") (codes "a"))
