-- ===== src/Dataset/Build.antt =====
-- `DatasetBuilder.build` of python/conflictgraph/dataset.py, and `PairFeatures.vector` of
-- python/conflictgraph/graph.py. The hash of a pair, the sample of a seeded generator, the
-- truncation of a float and the time are parameters; the trace quality is given as its score.
use Prim.Native.Nat.{min}
use conflict_graph.Prelude.{
  ℕ, Bool, true, false, not, Option, none, some, List, [], ◌∷◌, ◌++◌, if◌then◌else◌, ltb, length,
  map, foldl, sort_by, keep, pair_eq,
}
use conflict_graph.Prelude.Text.{Text, text_eq, codes}
use conflict_graph.Prelude.Dict.{Dict, get, put}
use conflict_graph.Prelude.Sets.{add_new}
use conflict_graph.Prelude.Float.{Float, fmax}
use conflict_graph.Types.Enums.{ConflictCause}
use conflict_graph.Types.Prediction.{stable_pair}
use conflict_graph.Types.Events.{of_ℕ}
use conflict_graph.Graph.State.{TestResourceGraph}
use conflict_graph.Graph.Pairs.{candidate_pairs, pair_lt}
use conflict_graph.Graph.Features.{PairFeatures, pair_features}
use conflict_graph.Dataset.{PairExample}

pub record ConflictLabel (F : Type 0) : Type 0 where
  pub test_a : Text
  pub test_b : Text
  pub conflict : Bool
  pub cause : ConflictCause
  pub confidence : F
  pub source : Text

abbrev pub label_key : {F : Type 0} → ConflictLabel F → Text × Text
label_key l = stable_pair l.test_a l.test_b

-- cause.value
unfoldable pub cause_value : ConflictCause → Text
cause_value ConflictCause.file_collision = codes "FILE_COLLISION"
cause_value ConflictCause.port_collision = codes "PORT_COLLISION"
cause_value ConflictCause.file_lock = codes "FILE_LOCK"
cause_value ConflictCause.database_lock = codes "DATABASE_LOCK"
cause_value ConflictCause.unix_socket_collision = codes "UNIX_SOCKET_COLLISION"
cause_value ConflictCause.shared_state = codes "SHARED_STATE"
cause_value ConflictCause.resource_contention = codes "RESOURCE_CONTENTION"
cause_value ConflictCause.unknown = codes "UNKNOWN"

module _ {F : Type 0} where
  -- {label.key: label for label in labels}
  unfoldable pub label_index : List (ConflictLabel F) → Dict (Text × Text) (ConflictLabel F)
  label_index = foldl (λ d l. put (label_key l) l d) []

  abbrev conflict_or : Option (ConflictLabel F) → Bool
  conflict_or none = false
  conflict_or (some l) = l.conflict

  -- bool(label and label.conflict)
  abbrev pub conflicting : Dict (Text × Text) (ConflictLabel F) → Text × Text → Bool
  conflicting labels pair = conflict_or (get pair labels)

module _ {F : Type 0} ⦃fl : Float F⦄ where
  unfoldable pub vector : PairFeatures F → List F
  vector f =
      of_ℕ f.shared_resources
      ∷ of_ℕ f.shared_files
      ∷ of_ℕ f.shared_writes
      ∷ of_ℕ f.read_write
      ∷ of_ℕ f.write_write
      ∷ of_ℕ f.create_create
      ∷ of_ℕ f.delete_read
      ∷ of_ℕ f.shared_bind
      ∷ of_ℕ f.shared_locks
      ∷ of_ℕ f.shared_redis_writes
      ∷ of_ℕ f.shared_unix_sockets
      ∷ of_ℕ f.shared_databases
      ∷ f.resource_jaccard
      ∷ f.minimum_rarity
      ∷ f.mean_rarity
      ∷ f.duration_a
      ∷ f.duration_b
      ∷ f.failure_rate_a
      ∷ f.failure_rate_b
      ∷ of_ℕ f.historical_concurrency
      ∷ of_ℕ f.historical_cofailures
      ∷ f.temporal_overlap
      ∷ []

  abbrev confidence_or : Option (ConflictLabel F) → F
  confidence_or none = fl.lit 65 2
  confidence_or (some l) = l.confidence

  abbrev cause_or : Option (ConflictLabel F) → ConflictCause
  cause_or none = ConflictCause.unknown
  cause_or (some l) = l.cause

  module _ (group_hash : Text → Text) (graph : TestResourceGraph F)
      (labels : Dict (Text × Text) (ConflictLabel F)) where
    -- set(graph.candidate_pairs(include_readonly=True)) | set(label_index), sorted
    unfoldable pub pairs_to_label : List (Text × Text)
    pairs_to_label =
        sort_by pair_lt
          (foldl (λ xs x. add_new x xs) (candidate_pairs graph true) (map (λ l. l.0) labels))

    unfoldable pub example_of : Text × Text → PairExample F
    unfolding vector cause_value
    example_of (a, b) =
        let features = pair_features graph a b in
        record {
          test_a = a;
          test_b = b;
          features = vector features;
          label = if conflicting labels (a, b) then 1 else 0;
          confidence = confidence_or (get (a, b) labels);
          cause = cause_value (cause_or (get (a, b) labels));
          split_group = group_hash (a ++ 0 ∷ b);
          resources = map (λ item. item.resource) features.evidence;
        }

    unfoldable pub positives : List (PairExample F)
    unfolding example_of pairs_to_label
    positives = map example_of (keep (conflicting labels) pairs_to_label)

    unfoldable pub negatives : List (PairExample F)
    unfolding example_of pairs_to_label
    negatives = map example_of (keep (λ p. not (conflicting labels p)) pairs_to_label)

    module _ (truncate : F → ℕ) (sample : List (PairExample F) → ℕ → List (PairExample F)) where
      -- int(max(len(positives) * negative_ratio, min(len(negatives), 32)))
      unfoldable pub negative_limit : F → ℕ
      unfolding positives negatives
      negative_limit ratio =
          truncate
            (fmax (fl.mul (of_ℕ (length positives)) ratio) (of_ℕ (min (length negatives) 32)))

      -- The negatives that are kept.
      unfoldable pub kept_negatives : Option F → List (PairExample F)
      unfolding negatives negative_limit
      kept_negatives none = negatives
      kept_negatives (some ratio) =
          let limit = negative_limit ratio in
          if ltb limit (length negatives) then sample negatives limit else negatives

      -- The key (test_a, test_b) of the final order.
      abbrev by_tests : PairExample F → PairExample F → Bool
      by_tests x y = pair_lt (x.test_a, x.test_b) (y.test_a, y.test_b)

      -- The examples of DatasetBuilder(seed, negative_ratio).build
      unfoldable pub build_examples : Option F → List (PairExample F)
      unfolding kept_negatives positives
      build_examples negative_ratio = sort_by by_tests (positives ++ kept_negatives negative_ratio)
