-- ===== src/Graph/Features.antt =====
-- `PairFeatures` and `pair_features` of python/conflictgraph/graph.py.
use Prim.Native.Nat.{min, max}
use conflict_graph.Prelude.{
  ℕ, ◌-◌, Option, none, some, List, [], ◌∷◌, ◌++◌, if◌then◌else◌, ◌==◌, length, map, foldl, keep,
  sort_by, pair_eq, min_from,
}
use conflict_graph.Prelude.Text.{Text, text_eq, text_lt}
use conflict_graph.Prelude.Dict.{get}
use conflict_graph.Prelude.Sets.{set_at, contains, add_new}
use conflict_graph.Prelude.Float.{Float, nought, unit, lt}
use conflict_graph.Types.Prediction.{stable_pair}
use conflict_graph.Types.Events.{ResourceIdentity, type_value, of_ℕ}
use conflict_graph.Graph.Access.{AccessAggregate}
use conflict_graph.Graph.State.{TestResourceGraph, stats_at}
use conflict_graph.Graph.Counters.{Counters, no_counts, operation_names, count_resource}

-- An entry of `evidence`.
pub record Evidence (F : Type 0) : Type 0 where
  pub resource_id : Text
  pub resource : Text
  pub type : Text
  pub operations_a : List Text
  pub operations_b : List Text
  pub rarity : F

pub record PairFeatures (F : Type 0) : Type 0 where
  pub test_a : Text
  pub test_b : Text
  pub shared_resources : ℕ
  pub counters : Counters
  pub open counters use *
  pub resource_jaccard : F
  pub minimum_rarity : F
  pub mean_rarity : F
  pub duration_a : F
  pub duration_b : F
  pub failure_rate_a : F
  pub failure_rate_b : F
  pub historical_concurrency : ℕ
  pub historical_cofailures : ℕ
  pub temporal_overlap : F
  pub evidence : List (Evidence F)

-- A shared resource with its two edges.
pub record Shared : Type 0 where
  pub identity : ResourceIdentity
  pub left : AccessAggregate
  pub right : AccessAggregate
  pub users : ℕ

module _ {F : Type 0} ⦃fl : Float F⦄ where
  open fl use {lit, add, sub, div}

  -- 1.0 / max(1, len(self.resource_tests[resource_id]))
  unfoldable pub rarity_of : Shared → F
  rarity_of s = div unit (of_ℕ (max 1 s.users))

  -- max(0, end - start) / envelope if envelope else 0.0; the subtractions on ℕ stop at 0.
  unfoldable pub overlap_ratio : Shared → F
  overlap_ratio s =
      let start = max s.left.first_ns s.right.first_ns in
      let end = min s.left.last_ns s.right.last_ns in
      let envelope = max s.left.last_ns s.right.last_ns - min s.left.first_ns s.right.first_ns in
      if envelope == 0 then nought else div (of_ℕ (end - start)) (of_ℕ envelope)

  unfoldable pub evidence_of : Shared → Evidence F
  unfolding rarity_of type_value operation_names
  evidence_of s = record {
    resource_id = s.identity.id;
    resource = s.identity.identifier;
    type = type_value s.identity.type;
    operations_a = operation_names s.left;
    operations_b = operation_names s.right;
    rarity = rarity_of s;
  }

  unfoldable pub total_from : F → List F → F
  total_from acc [] = acc
  total_from acc (x ∷ xs) = total_from (add acc x) xs

  -- sum(xs) / len(xs), or the field's default for no elements
  unfoldable pub mean_of : List F → F
  unfolding total_from
  mean_of [] = nought
  mean_of (x ∷ xs) = div (total_from nought (x ∷ xs)) (of_ℕ (length (x ∷ xs)))

  unfoldable pub least_of : List F → F
  least_of [] = nought
  least_of (x ∷ xs) = min_from lt x xs

  module _ (g : TestResourceGraph F) where
    abbrev shared_of :
        Option ResourceIdentity → Option AccessAggregate → Option AccessAggregate → ℕ → List Shared
    shared_of (some r) (some left) (some right) users =
        record { identity = r; left = left; right = right; users = users } ∷ []
    shared_of _ _ _ _ = []

    -- The edges and the resource of each shared id; an id without them is a KeyError.
    unfoldable pub look_up : Text → Text → List Text → List Shared
    look_up a b [] = []
    look_up a b (r ∷ rs) =
        shared_of (get r g.resources) (get (a, r) g.edges) (get (b, r) g.edges)
          (length (set_at r g.resource_tests))
        ++ look_up a b rs

    -- sorted(left_resources & right_resources)
    unfoldable pub shared_ids : Text → Text → List Text
    shared_ids a b =
        let right = set_at b g.test_resources in
        sort_by text_lt (keep (λ r. contains r right) (set_at a g.test_resources))

    -- len(left_resources | right_resources)
    unfoldable pub union_size : Text → Text → ℕ
    union_size a b =
        length
          (foldl (λ xs r. add_new r xs) (set_at a g.test_resources) (set_at b g.test_resources))

    abbrev history_of : Option (ℕ × ℕ) → ℕ × ℕ
    history_of none = (0, 0)
    history_of (some h) = h

    unfoldable pub ordered_features : Text × Text → PairFeatures F
    unfolding shared_ids union_size look_up mean_of least_of count_resource rarity_of overlap_ratio
        evidence_of
    ordered_features (a, b) =
        let ids = shared_ids a b in
        let union = union_size a b in
        let shared = look_up a b ids in
        let (concurrency, cofailures) = history_of (get (a, b) g.pair_history) in
        record {
          test_a = a;
          test_b = b;
          shared_resources = length ids;
          counters = foldl (λ c s. count_resource s.identity s.left s.right c) no_counts shared;
          resource_jaccard = if union == 0 then nought else div (of_ℕ (length ids)) (of_ℕ union);
          minimum_rarity = least_of (map rarity_of shared);
          mean_rarity = mean_of (map rarity_of shared);
          duration_a = (stats_at g a).duration_ema;
          duration_b = (stats_at g b).duration_ema;
          failure_rate_a = (stats_at g a).failure_rate;
          failure_rate_b = (stats_at g b).failure_rate;
          historical_concurrency = concurrency;
          historical_cofailures = cofailures;
          temporal_overlap = mean_of (map overlap_ratio shared);
          evidence = map evidence_of shared;
        }

    -- pair_features
    unfoldable pub pair_features : Text → Text → PairFeatures F
    unfolding ordered_features
    pair_features test_a test_b = ordered_features (stable_pair test_a test_b)
