-- ===== src/Graph/Consistent.antt =====
-- The three indices of the graph agree, so that no lookup by them raises a KeyError.
use conflict_graph.Prelude.{
  suc, ◌≡◌, refl, ap, ◌∙◌, true, Option, none, some, List, [], ◌∷◌, foldl, arith, Bool-cases, ◌⊎◌,
  inl, inr, same_iff, pair_eq, length, if◌then◌else◌, All,
}
use conflict_graph.Prelude.Text.{Text, text_eq}
use conflict_graph.Prelude.Dict.{Dict, put, has, has-put, get-has}
use conflict_graph.Prelude.Sets.{linked, linked-add_at}
use conflict_graph.Prelude.Float.{Float}
use conflict_graph.Types.Stats.{TestIdentity, TestStats}
use conflict_graph.Types.Events.{TraceEvent}
use conflict_graph.Graph.State.{
  TestResourceGraph, empty_graph, unnamed_test, add_test, add_event, resource_of, refresh_test,
  refresh_stats, from_events,
}
use conflict_graph.Graph.Access.{AccessAggregate}
use conflict_graph.Graph.Features.{look_up}

-- A test has an edge to a resource exactly when each is in the other's set, and then both are nodes.
pub record IsConsistent {F : Type 0} (g : TestResourceGraph F) : Type 0 where
  pub forward : (t r : Text) → has (t, r) g.edges ≡ linked t r g.test_resources
  pub backward : (t r : Text) → has (t, r) g.edges ≡ linked r t g.resource_tests
  pub is_test : (t r : Text) → has (t, r) g.edges ≡ true → has t g.tests ≡ true
  pub is_resource : (t r : Text) → has (t, r) g.edges ≡ true → has r g.resources ≡ true

module _ {F : Type 0} where
  empty_graph-IsConsistent : IsConsistent {F = F} empty_graph
  empty_graph-IsConsistent = record {
    forward = λ t r. refl;
    backward = λ t r. refl;
    is_test = λ t r h. cc;
    is_resource = λ t r h. cc;
  }

  module _ (g : TestResourceGraph F) (c : IsConsistent g) where
    add_test-IsConsistent :
        (test : TestIdentity) (stats : Option (TestStats F)) → IsConsistent (add_test test stats g)
    unfolding add_test
    add_test-IsConsistent test none = record {
      forward = c.forward;
      backward = c.backward;
      is_test = λ t r h. ground (arith, has-put test.id t test g.tests, c.is_test t r);
      is_resource = c.is_resource;
    }
    add_test-IsConsistent test (some stats) = record {
      forward = c.forward;
      backward = c.backward;
      is_test = λ t r h. ground (arith, has-put test.id t test g.tests, c.is_test t r);
      is_resource = c.is_resource;
    }

    -- An added edge is the new one or was there.
    edge_cases :
        (u v t r : Text) (a : AccessAggregate)
        → has (t, r) (put (u, v) a g.edges) ≡ true
        → (u ≡ t) × (v ≡ r) ⊎ (has (t, r) g.edges ≡ true)
    edge_cases u v t r a h =
        ground (arith, has-put (u, v) (t, r) a g.edges, same_iff u t, same_iff v r)

    has-put_self : {V : Type 0} (k : Text) (v : V) (d : Dict Text V) → has k (put k v d) ≡ true
    has-put_self k v d = ground (arith, has-put k k v d, same_iff k k)

    has-put_keeps :
        {V : Type 0} (k j : Text) (v : V) (d : Dict Text V)
        → has j d ≡ true
        → has j (put k v d) ≡ true
    has-put_keeps k j v d h = ground (arith, has-put k j v d)

    -- The tests after an event of test `u`.
    abbrev tests_with : Text → Dict Text TestIdentity
    tests_with u = if has u g.tests then g.tests else put u (unnamed_test u) g.tests

    has-tests_with : (u : Text) → has u (tests_with u) ≡ true
    has-tests_with u = elim (Bool-cases (has u g.tests)) [
      | inl e ↦ rw e e
      | inr e ↦ rw e (has-put_self u (unnamed_test u) g.tests)
    ]

    tests_with_keeps : (u t : Text) → has t g.tests ≡ true → has t (tests_with u) ≡ true
    tests_with_keeps u t h = elim (Bool-cases (has u g.tests)) [
      | inl e ↦ rw e h
      | inr e ↦ rw e (has-put_keeps u t (unnamed_test u) g.tests h)
    ]

    -- An event, of a test that is known or not, keeps the indices in agreement.
    pub add_event-IsConsistent :
        (digest : Text → Text) (event : TraceEvent) → IsConsistent (add_event digest event g)
    unfolding add_event
    add_event-IsConsistent digest event =
        let u = event.test_id in
        let resource = resource_of digest event in
        let v = resource.id in
        record {
          forward = λ t r. rw (
            has-put (u, v) (t, r) _ g.edges,
            linked-add_at u t v r g.test_resources,
            c.forward t r,
          );
          backward = λ t r.
              rw
                (
                  has-put (u, v) (t, r) _ g.edges,
                  linked-add_at v r u t g.resource_tests,
                  c.backward t r,
                )
                (ground arith);
          is_test = λ t r h. elim (edge_cases u v t r _ h) [
            | inl (e, _) ↦ rw (← e) (has-tests_with u)
            | inr old ↦ tests_with_keeps u t (c.is_test t r old)
          ];
          is_resource = λ t r h. elim (edge_cases u v t r _ h) [
            | inl (_, e) ↦ rw (← e) (has-put_self v resource g.resources)
            | inr old ↦ has-put_keeps v r resource g.resources (c.is_resource t r old)
          ];
        }

  add_tests-IsConsistent :
      (tests : List TestIdentity) (g : TestResourceGraph F)
      → IsConsistent g
      → IsConsistent (foldl (λ g t. add_test t none g) g tests)
  add_tests-IsConsistent [] g c = c
  add_tests-IsConsistent (t ∷ tests) g c =
      add_tests-IsConsistent tests (add_test t none g) (add_test-IsConsistent g c t none)

  add_events-IsConsistent :
      (digest : Text → Text) (events : List TraceEvent) (g : TestResourceGraph F)
      → IsConsistent g
      → IsConsistent (foldl (λ g e. add_event digest e g) g events)
  add_events-IsConsistent digest [] g c = c
  add_events-IsConsistent digest (e ∷ events) g c =
      add_events-IsConsistent digest events (add_event digest e g)
        (add_event-IsConsistent g c digest e)

module _ {F : Type 0} ⦃fl : Float F⦄ where
  refresh-IsConsistent :
      (sets : Dict Text (List Text)) (g : TestResourceGraph F)
      → IsConsistent g
      → IsConsistent (foldl refresh_test g sets)
  unfolding refresh_test
  refresh-IsConsistent [] g c = c
  refresh-IsConsistent ((t, rs) ∷ sets) g c =
      refresh-IsConsistent sets (refresh_test g (t, rs)) (record {
        forward = c.forward;
        backward = c.backward;
        is_test = c.is_test;
        is_resource = c.is_resource;
      })

  -- A graph built from any events and tests, with any hash, is consistent: a test has an edge to a
  -- resource exactly when each is in the other's set, and then both are nodes of the graph.
  pub from_events-IsConsistent :
      (digest : Text → Text) (events : List TraceEvent) (tests : List TestIdentity)
      → IsConsistent (from_events {F = F} digest events tests)
  unfolding from_events refresh_stats
  from_events-IsConsistent digest events tests =
      let named : TestResourceGraph F = foldl (λ g t. add_test t none g) empty_graph tests in
      let built : TestResourceGraph F = foldl (λ g e. add_event digest e g) named events in
      refresh-IsConsistent built.test_resources built (
        add_events-IsConsistent digest events _
          (add_tests-IsConsistent tests empty_graph empty_graph-IsConsistent))

  -- In a consistent graph the loop of `pair_features` finds both edges and the node of every
  -- resource that the two tests share.
  pub length-look_up :
      (g : TestResourceGraph F) (a b : Text) (rs : List Text)
      → IsConsistent g
      → All (λ r. (linked a r g.test_resources ≡ true) × (linked b r g.test_resources ≡ true)) rs
      → length (look_up g a b rs) ≡ length rs
  unfolding look_up
  length-look_up g a b [] c h = refl
  length-look_up g a b (r ∷ rs) c h =
      let left : has (a, r) g.edges ≡ true = c.forward a r ∙ h.0.0 in
      let right : has (b, r) g.edges ≡ true = c.forward b r ∙ h.0.1 in
      let (x, found_x) = get-has r g.resources (c.is_resource a r left) in
      let (y, found_y) = get-has (a, r) g.edges left in
      let (z, found_z) = get-has (b, r) g.edges right in
      rw (found_x, found_y, found_z) (ap suc (length-look_up g a b rs c h.1))
