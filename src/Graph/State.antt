-- ===== src/Graph/State.antt =====
-- `TestResourceGraph` of python/conflictgraph/graph.py: its state and what adds to it. A lookup that
-- would raise a KeyError gives no edge here; `Graph.Consistent` shows that none does.
use conflict_graph.Prelude.{
  ℕ, ◌+◌, Bool, false, Option, none, some, List, [], ◌∷◌, ◌==◌, if◌then◌else◌, foldl, length,
  pair_eq,
}
use conflict_graph.Prelude.Text.{Text, text_eq, codes}
use conflict_graph.Prelude.Dict.{Dict, get, put, has}
use conflict_graph.Prelude.Sets.{add_at}
use conflict_graph.Prelude.Float.{Float, nought}
use conflict_graph.Types.Stats.{TestIdentity, TestStats, default_stats}
use conflict_graph.Types.Events.{ResourceIdentity, TraceEvent, create_resource, of_ℕ}
use conflict_graph.Graph.Access.{AccessAggregate, new_aggregate, observe, total, mutating}

pub record TestResourceGraph (F : Type 0) : Type 0 where
  pub tests : Dict Text TestIdentity
  pub resources : Dict Text ResourceIdentity
  pub edges : Dict (Text × Text) AccessAggregate
  pub test_resources : Dict Text (List Text)
  pub resource_tests : Dict Text (List Text)
  pub test_stats : Dict Text (TestStats F)
  pub pair_history : Dict (Text × Text) (ℕ × ℕ)

-- TestResourceGraph()
abbrev pub empty_graph : {F : Type 0} → TestResourceGraph F
empty_graph = record {
  tests = [];
  resources = [];
  edges = [];
  test_resources = [];
  resource_tests = [];
  test_stats = [];
  pair_history = [];
}

-- TestIdentity(id=test_id, node_id=test_id)
abbrev pub unnamed_test : Text → TestIdentity
unnamed_test test_id = record {
  id = test_id;
  node_id = test_id;
  repository = codes "local";
  suite = codes "pytest";
  framework = codes "pytest";
  test_file = [];
  test_class = [];
  test_function = [];
  parameters = [];
  source_revision = codes "unknown";
}

abbrev aggregate_or : Option AccessAggregate → AccessAggregate → AccessAggregate
aggregate_or none fresh = fresh
aggregate_or (some a) fresh = a

abbrev pub resource_of : (Text → Text) → TraceEvent → ResourceIdentity
resource_of digest event =
    create_resource digest event.resource_type event.resource_identifier false

abbrev total_of : Option AccessAggregate → ℕ
total_of none = 0
total_of (some a) = total a

abbrev mutating_of : Option AccessAggregate → Bool
mutating_of none = false
mutating_of (some a) = mutating a

module _ {F : Type 0} where
  unfoldable pub add_test :
      TestIdentity → Option (TestStats F) → TestResourceGraph F → TestResourceGraph F
  add_test test none g = record g { tests = put test.id test g.tests }
  add_test test (some stats) g = record g {
    tests = put test.id test g.tests;
    test_stats = put test.id stats g.test_stats;
  }

  module _ (digest : Text → Text) where
    unfoldable pub add_event : TraceEvent → TestResourceGraph F → TestResourceGraph F
    unfolding observe
    add_event event g =
        let resource = resource_of digest event in
        let edge : Text × Text = (event.test_id, resource.id) in
        let aggregate = aggregate_or (get edge g.edges) (new_aggregate event.test_id resource) in
        record g {
          tests =
              if has event.test_id g.tests
              then g.tests
              else put event.test_id (unnamed_test event.test_id) g.tests;
          resources = put resource.id resource g.resources;
          edges = put edge (observe event aggregate) g.edges;
          test_resources = add_at event.test_id resource.id g.test_resources;
          resource_tests = add_at resource.id event.test_id g.resource_tests;
        }

  abbrev pub edge_total : TestResourceGraph F → Text → Text → ℕ
  edge_total g t r = total_of (get (t, r) g.edges)

  abbrev pub edge_mutating : TestResourceGraph F → Text → Text → Bool
  edge_mutating g t r = mutating_of (get (t, r) g.edges)

  -- sum(edges[(t, r)].total for r in resource_ids), of all and of the mutating ones
  unfoldable pub sum_totals : TestResourceGraph F → Text → List Text → ℕ
  sum_totals g t [] = 0
  sum_totals g t (r ∷ rs) = edge_total g t r + sum_totals g t rs

  unfoldable pub sum_mutating : TestResourceGraph F → Text → List Text → ℕ
  sum_mutating g t [] = 0
  sum_mutating g t (r ∷ rs) =
      (if edge_mutating g t r then edge_total g t r else 0) + sum_mutating g t rs

module _ {F : Type 0} ⦃fl : Float F⦄ where
  abbrev stats_of : Option (TestStats F) → TestStats F
  stats_of none = default_stats
  stats_of (some s) = s

  -- self.test_stats[test_id] of a defaultdict
  abbrev pub stats_at : TestResourceGraph F → Text → TestStats F
  stats_at g t = stats_of (get t g.test_stats)

  unfoldable pub refresh_test : TestResourceGraph F → Text × List Text → TestResourceGraph F
  unfolding sum_totals sum_mutating
  refresh_test g (t, rs) =
      let all = sum_totals g t rs in
      let ratio = if all == 0 then nought else fl.div (of_ℕ (sum_mutating g t rs)) (of_ℕ all) in
      record g {
        test_stats =
            put t (record (stats_at g t) { resource_count = length rs; write_ratio = ratio })
              g.test_stats;
      }

  -- _refresh_stats
  unfoldable pub refresh_stats : TestResourceGraph F → TestResourceGraph F
  unfolding refresh_test
  refresh_stats g = foldl refresh_test g g.test_resources

  unfoldable pub from_events :
      (Text → Text) → List TraceEvent → List TestIdentity → TestResourceGraph F
  unfolding refresh_stats add_event add_test
  from_events digest events tests =
      let named = foldl (λ g t. add_test t none g) empty_graph tests in
      refresh_stats (foldl (λ g e. add_event digest e g) named events)
