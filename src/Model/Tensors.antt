-- ===== src/Model/Tensors.antt =====
-- `graph_tensors` of python/conflictgraph/model.py: the rows of the nodes and the edges by number. A
-- tensor is a list.
pub mod Numbered
pub mod Built
use Prim.Native.Nat.{max}
use conflict_graph.Prelude.{
  ℕ, zero, suc, ◌+◌, Option, none, some, List, [], ◌∷◌, ◌++◌, map, length, sort_by, same, pair_eq,
  if◌then◌else◌, ◌>>=◌,
}
use conflict_graph.Prelude.Text.{Text, text_eq, text_lt}
use conflict_graph.Prelude.Dict.{Dict, get, put}
use conflict_graph.Prelude.Sets.{set_at}
use conflict_graph.Prelude.Float.{Float, nought, unit}
use conflict_graph.Types.Enums.{ResourceType, resource_type_eq}
use conflict_graph.Types.Events.{ResourceIdentity, of_ℕ}
use conflict_graph.Types.Stats.{TestStats}
use conflict_graph.Graph.Access.{AccessAggregate, mutating}
use conflict_graph.Graph.State.{TestResourceGraph, stats_at}
use conflict_graph.Model.Temperature.{Numpy}

pub record GraphTensors (F : Type 0) : Type 0 where
  pub test_x : List (List F)
  pub resource_x : List (List F)
  -- The two rows of `edge_index`.
  pub sources : List ℕ
  pub targets : List ℕ
  pub test_index : Dict Text ℕ

-- sorted(d)
abbrev pub sorted_keys : {V : Type 0} → Dict Text V → List Text
sorted_keys d = sort_by text_lt (map (λ p. p.0) d)

-- {value: index for index, value in enumerate(values)}, from an index on
unfoldable pub index_from : ℕ → Dict Text ℕ → List Text → Dict Text ℕ
index_from index d [] = d
index_from index d (value ∷ values) = index_from (suc index) (put value index d) values

abbrev pub index_of : List Text → Dict Text ℕ
index_of values = index_from 0 [] values

-- The loop over the edges; `none` is the KeyError of a node without a number.
unfoldable pub link_edges :
    {V : Type 0}
    → Dict Text ℕ
    → Dict Text ℕ
    → ℕ
    → Dict (Text × Text) V
    → List ℕ
    → List ℕ
    → Option (List ℕ × List ℕ)
link_edges test_index resource_index offset [] sources targets = some (sources, targets)
link_edges test_index resource_index offset (((test_id, resource_id), edge) ∷ edges) sources
      targets =
    do
      left ← get test_id test_index
      number ← get resource_id resource_index
      let right = offset + number
      link_edges test_index resource_index offset edges (sources ++ left ∷ right ∷ [])
          (targets ++ right ∷ left ∷ [])

-- list(ResourceType)
abbrev pub resource_types : List ResourceType
resource_types =
    ResourceType.file ∷ ResourceType.directory ∷ ResourceType.tcp_endpoint
    ∷ ResourceType.udp_endpoint ∷ ResourceType.unix_socket ∷ ResourceType.file_lock
    ∷ ResourceType.process ∷ ResourceType.redis_key ∷ ResourceType.database_resource
    ∷ ResourceType.other_logical_resource ∷ []

module _ {F : Type 0} ⦃fl : Float F⦄ (np : Numpy F) where
  open np use {log1p}
  open fl use {div}

  -- float(resource.type == candidate)
  abbrev pub one_hot : ResourceIdentity → ResourceType → F
  one_hot resource candidate = if same resource.type candidate then unit else nought

  unfoldable pub test_row : TestResourceGraph F → Text → List F
  test_row graph test_id =
      let stats = stats_at graph test_id in
      log1p stats.duration_ema
      ∷ stats.failure_rate
      ∷ log1p (of_ℕ stats.resource_count)
      ∷ log1p (of_ℕ stats.process_count)
      ∷ stats.write_ratio
      ∷ []

  -- sum(graph.edges[(test_id, resource_id)].mutating for test_id in test_ids); `none` is the KeyError
  -- of a pair without an edge.
  unfoldable pub count_mutating : TestResourceGraph F → Text → List Text → Option ℕ
  count_mutating graph resource_id [] = some 0
  count_mutating graph resource_id (test_id ∷ test_ids) = do
    edge ← get (test_id, resource_id) graph.edges
    rest ← count_mutating graph resource_id test_ids
    some ((if mutating edge then 1 else 0) + rest)

  -- The row of a resource; `none` is a KeyError.
  unfoldable pub resource_row : TestResourceGraph F → Text → Option (List F)
  unfolding count_mutating
  resource_row graph resource_id = do
    resource ← get resource_id graph.resources
    let tests = set_at resource_id graph.resource_tests
    let degree = length tests
    writers ← count_mutating graph resource_id tests
    some (
        map (one_hot resource) resource_types
        ++ (log1p (of_ℕ degree)
            ∷ div (of_ℕ writers) (of_ℕ (max 1 degree))
            ∷ div unit (of_ℕ (max 1 degree))
            ∷ []))

  unfoldable pub resource_rows : TestResourceGraph F → List Text → Option (List (List F))
  unfolding resource_row
  resource_rows graph [] = some []
  resource_rows graph (resource_id ∷ resource_ids) = do
    row ← resource_row graph resource_id
    rows ← resource_rows graph resource_ids
    some (row ∷ rows)

  unfoldable pub graph_tensors : TestResourceGraph F → Option (GraphTensors F)
  unfolding test_row resource_rows link_edges index_from
  graph_tensors graph =
      let tests = sorted_keys graph.tests in
      let resources = sorted_keys graph.resources in
      do
        resource_features ← resource_rows graph resources
        (sources, targets) ←
            link_edges (index_of tests) (index_of resources) (length tests) graph.edges [] []
        some (record {
          test_x = map (test_row graph) tests;
          resource_x = resource_features;
          sources = sources;
          targets = targets;
          test_index = index_of tests;
        })
