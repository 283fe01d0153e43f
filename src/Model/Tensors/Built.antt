-- ===== src/Model/Tensors/Built.antt =====
-- That `graph_tensors` returns, and what its tensors are.
use conflict_graph.Prelude.{
  ℕ, suc, ◌+◌, ◌≡◌, refl, sym, ap, ◌∙◌, true, some, List, [], ◌∷◌, map, length, length-map, All,
  >>=-total, if◌then◌else◌, All-of_Mem, pair_eq,
}
use conflict_graph.Prelude.Text.{Text, text_eq}
use conflict_graph.Prelude.Dict.{get, has, get-has}
use conflict_graph.Prelude.Sets.{set_at, Mem-contains}
use conflict_graph.Prelude.Float.{Float}
use conflict_graph.Graph.State.{TestResourceGraph}
use conflict_graph.Graph.Access.{mutating}
use conflict_graph.Graph.Consistent.{IsConsistent}
use conflict_graph.Model.Temperature.{Numpy}
use conflict_graph.Model.Tensors.{
  GraphTensors, sorted_keys, index_of, test_row, resource_row, resource_rows, count_mutating,
  graph_tensors,
}
use conflict_graph.Model.Tensors.Numbered.{
  has-sorted_keys, length-sorted_keys, link_edges-AreLinks, AreLinks, from_ends, to_ends,
}

module _ {F : Type 0} ⦃fl : Float F⦄ (np : Numpy F) where
  count_mutating_total :
      (graph : TestResourceGraph F) (resource_id : Text) (test_ids : List Text)
      → All (λ t. has (t, resource_id) graph.edges ≡ true) test_ids
      → (n : ℕ) × (count_mutating np graph resource_id test_ids ≡ some n)
  unfolding count_mutating
  count_mutating_total graph resource_id [] all = (0, refl)
  count_mutating_total graph resource_id (t ∷ test_ids) (h, all) =
      let (edge, e) = get-has (t, resource_id) graph.edges h in
      let (n, f) = count_mutating_total graph resource_id test_ids all in
      ((if mutating edge then 1 else 0) + n, rw (e, f) refl)

  resource_row_total :
      (graph : TestResourceGraph F)
      → IsConsistent graph
      → (resource_id : Text) → has resource_id graph.resources ≡ true
      → (row : List F) × (resource_row np graph resource_id ≡ some row)
  unfolding resource_row
  resource_row_total graph c resource_id h =
      let (resource, e) = get-has resource_id graph.resources h in
      let tests = set_at resource_id graph.resource_tests in
      let (n, f) = count_mutating_total graph resource_id tests (
        All-of_Mem (λ t. has (t, resource_id) graph.edges ≡ true) tests
          (λ t m. c.backward t resource_id ∙ Mem-contains t tests m)) in
      >>=-total (get resource_id graph.resources) _ (resource, e)
        (λ found q.
          >>=-total (count_mutating np graph resource_id tests) _ (n, f) (λ writers r. (_, refl)))

  resource_rows_total :
      (graph : TestResourceGraph F)
      → IsConsistent graph
      → (resource_ids : List Text) → All (λ r. has r graph.resources ≡ true) resource_ids
      → (rows : List (List F)) × (resource_rows np graph resource_ids ≡ some rows)
        × (length rows ≡ length resource_ids)
  unfolding resource_rows
  resource_rows_total graph c [] all = ([], refl, refl)
  resource_rows_total graph c (r ∷ resource_ids) (h, all) =
      let (row, e) = resource_row_total graph c r h in
      let (rows, f, n) = resource_rows_total graph c resource_ids all in
      (row ∷ rows, rw (e, f) refl, ap suc n)

  -- What the tensors of a graph are: a row for each node, and each edge of the graph in both
  -- directions, by the place of its test among the sorted tests and of its resource among the sorted
  -- resources.
  pub record IsTensors (graph : TestResourceGraph F) (tensors : GraphTensors F) : Type 0 where
    pub each_test : length tensors.test_x ≡ length graph.tests
    pub each_resource : length tensors.resource_x ≡ length graph.resources
    pub links : List (ℕ × ℕ)
    pub each_edge :
        AreLinks (sorted_keys graph.tests) (sorted_keys graph.resources) graph.edges links
    pub sources : tensors.sources ≡ from_ends links
    pub targets : tensors.targets ≡ to_ends links

  -- On a consistent graph, as `from_events` makes, `graph_tensors` raises no KeyError. It gives a row
  -- for each test and each resource, and each edge twice, in the order of the edges, from the number
  -- of its test to that of its resource and back. The number of a test is its place among the sorted
  -- tests; that of a resource is its place among the sorted resources, after all tests.
  pub graph_tensors_total :
      (graph : TestResourceGraph F)
      → IsConsistent graph
      → (tensors : GraphTensors F) × (graph_tensors np graph ≡ some tensors)
        × IsTensors graph tensors
  unfolding graph_tensors
  graph_tensors_total graph c =
      let tests = sorted_keys graph.tests in
      let resources = sorted_keys graph.resources in
      let (links, e, all) = link_edges-AreLinks tests resources graph.edges [] [] (λ t r h. (
        has-sorted_keys graph.tests t ∙ c.is_test t r h,
        has-sorted_keys graph.resources r ∙ c.is_resource t r h,
      )) in
      let (features, f, n) = resource_rows_total graph c resources (
        All-of_Mem (λ r. has r graph.resources ≡ true) resources
          (λ r m. sym (has-sorted_keys graph.resources r) ∙ Mem-contains r resources m)) in
      let tensors : GraphTensors F = record {
        test_x = map (test_row np graph) tests;
        resource_x = features;
        sources = from_ends links;
        targets = to_ends links;
        test_index = index_of tests;
      } in
      (
        tensors,
        rw (f, e) refl,
        record {
          each_test = length-map (test_row np graph) tests ∙ length-sorted_keys graph.tests;
          each_resource = n ∙ length-sorted_keys graph.resources;
          links = links;
          each_edge = all;
          sources = refl;
          targets = refl;
        },
      )
