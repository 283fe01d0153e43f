-- ===== src/Samples/Splitting.antt =====
-- A dataset of three examples, of which one cause is held out.
use mathlib.Core.List.Perm
use conflict_graph.Prelude.{
  ℕ, ◌≡◌, refl, not, List, [], ◌∷◌, ◌++◌, Perm, keep, length, concat, get_or, some,
}
use conflict_graph.Prelude.Int.{ℤ, pos}
use conflict_graph.Prelude.Text.{Text, codes}
use conflict_graph.Dataset.{
  PairExample, Dataset, held_out_at, family_holdout_split, groups_of, assigned_split,
  pair_disjoint_split,
}
use conflict_graph.Dataset.Groups.{flat, assigned_split-whole}
use conflict_graph.Samples.Milli.{milli}
use conflict_graph.Dataset.Holdout.{indices_of, family_holdout_split-partition}

abbrev pub example : Text → ℕ → Text → PairExample ℤ
example other label cause = record {
  test_a = codes "a";
  test_b = other;
  features = [];
  label = label;
  confidence = pos 1000;
  cause = cause;
  split_group = other;
  resources = [];
}

abbrev pub dataset : Dataset ℤ
dataset = record {
  examples =
      example (codes "b") 1 (codes "FILE_COLLISION")
      ∷ example (codes "c") 1 (codes "PORT_COLLISION")
      ∷ example (codes "d") 0 (codes "UNKNOWN")
      ∷ [];
  metadata = record {
    schema_version = codes "pair-features-v1";
    created_at = [];
    seed = 42;
    source_runs = [];
    test_count = 4;
    resource_count = 2;
    example_count = 3;
    positive_examples = 2;
    negative_examples = 1;
    feature_names = [];
    trace_quality = pos 1000;
    content_hash = [];
  };
}

family_holdout_split-partition_example :
    let s = family_holdout_split (λ xs. xs) (λ n. 0) dataset (codes "PORT_COLLISION" ∷ []) in
    Perm s.test (keep (held_out_at dataset (codes "PORT_COLLISION" ∷ [])) (indices_of dataset))
    × Perm
        (s.train ++ s.validation)
        (keep (λ i. not (held_out_at dataset (codes "PORT_COLLISION" ∷ []) i)) (indices_of dataset))
family_holdout_split-partition_example =
    family_holdout_split-partition (λ xs. xs) (λ n. 0) dataset (codes "PORT_COLLISION" ∷ [])
      (λ xs. Perm.refl xs)

-- The held-out example is the second; of the others one is kept for validation.
split_indices :
    let s = family_holdout_split (λ xs. xs) (λ n. 0) dataset (codes "PORT_COLLISION" ∷ []) in
    (s.train ≡ 2 ∷ []) × (s.validation ≡ 0 ∷ []) × (s.test ≡ 1 ∷ [])
unfolding family_holdout_split
split_indices = (refl, refl, refl)

abbrev ratios : List ℤ
ratios = pos 700 ∷ pos 150 ∷ pos 150 ∷ []

assigned_split-whole_example :
    let s = assigned_split dataset ratios (λ xs. xs) in
    (parts : List (List Text)) × (length parts ≡ 3)
    × Perm (concat parts) (groups_of dataset)
    × Perm s.train (flat dataset ratios (get_or parts 0 []))
    × Perm s.validation (flat dataset ratios (get_or parts 1 []))
    × Perm s.test (flat dataset ratios (get_or parts 2 []))
assigned_split-whole_example = assigned_split-whole dataset ratios (λ xs. xs) (λ xs. Perm.refl xs)

-- Each of the three groups gets a part of its own, and the split is returned.
split_by_pairs :
    pair_disjoint_split dataset ratios (λ xs. xs) ≡ some (assigned_split dataset ratios (λ xs. xs))
unfolding pair_disjoint_split
split_by_pairs = refl
