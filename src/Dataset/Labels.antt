-- ===== src/Dataset/Labels.antt =====
-- No labelled conflict is lost when a dataset is built.
use mathlib.Core.List.{Memᴰ}
use conflict_graph.Prelude.{
  ℕ, ◌≡◌, refl, ◌∙◌, true, not, ◌||◌, Option, none, some, List, [], ◌∷◌, ◌++◌, ltb, length, map,
  foldl, sort_by-perm, keep, Perm, All, All-Mem, All-of_Mem, if_ind, pair_eq, arith, Bool-cases,
  inl, inr,
}
use conflict_graph.Prelude.Text.{Text, text_eq}
use conflict_graph.Prelude.Dict.{Dict}
use conflict_graph.Prelude.Sets.{contains, add_new, contains-add_new}
use conflict_graph.Prelude.Unique.{contains-sort_by}
use conflict_graph.Prelude.Float.{Float}
use conflict_graph.Graph.State.{TestResourceGraph}
use conflict_graph.Graph.Pairs.{candidate_pairs, pair_lt}
use conflict_graph.Dataset.{PairExample}
use conflict_graph.Dataset.Build.{
  ConflictLabel, conflicting, pairs_to_label, example_of, positives, negatives, negative_limit,
  kept_negatives, build_examples,
}

contains-foldl-add_new :
    (x : Text × Text) (xs ys : List (Text × Text))
    → contains x (foldl (λ xs x. add_new x xs) xs ys) ≡ (contains x xs || contains x ys)
contains-foldl-add_new x xs [] = ground arith
contains-foldl-add_new x xs (y ∷ ys) =
    rw (contains-foldl-add_new x (add_new y xs) ys, contains-add_new y x xs) (ground arith)

module _ {F : Type 0} ⦃fl : Float F⦄ (group_hash : Text → Text) (graph : TestResourceGraph F)
    (labels : Dict (Text × Text) (ConflictLabel F)) where
  -- The pairs that get an example are the candidates of the graph and the labelled ones.
  pub contains-pairs_to_label :
      (p : Text × Text)
      → contains p (pairs_to_label group_hash graph labels)
        ≡ (contains p (candidate_pairs graph true) || contains p (map (λ l. l.0) labels))
  unfolding pairs_to_label
  contains-pairs_to_label p =
      contains-sort_by pair_lt p _
      ∙ contains-foldl-add_new p (candidate_pairs graph true) (map (λ l. l.0) labels)

  negatives-label : All (λ x. x.label ≡ 0) (negatives group_hash graph labels)
  unfolding negatives example_of
  negatives-label = from (pairs_to_label group_hash graph labels)
    where
      from :
          (ps : List (Text × Text))
          → All
              (λ x. x.label ≡ 0)
              (map (example_of group_hash graph labels) (keep (λ p. not (conflicting labels p)) ps))
      from [] = tt
      from (p ∷ ps) = elim (Bool-cases (conflicting labels p)) [
        | inl e ↦ rw e (from ps)
        | inr e ↦ rw e (rw e refl, from ps)
      ]

  module _ (truncate : F → ℕ) (sample : List (PairExample F) → ℕ → List (PairExample F))
      (drawn : (xs : List (PairExample F)) (k : ℕ) → All (λ x. Memᴰ x xs) (sample xs k)) where
    kept_negatives-label :
        (ratio : Option F)
        → All (λ x. x.label ≡ 0) (kept_negatives group_hash graph labels truncate sample ratio)
    unfolding kept_negatives
    kept_negatives-label none = negatives-label
    kept_negatives-label (some ratio) =
        let given = negatives group_hash graph labels in
        let limit = negative_limit group_hash graph labels truncate sample ratio in
        if_ind (All (λ x. x.label ≡ 0)) (ltb limit (length given)) (sample given limit) given
          (λ _.
            All-of_Mem (λ x. x.label ≡ 0) (sample given limit)
              (λ x m.
                All-Mem (λ x. x.label ≡ 0) given negatives-label
                  (All-Mem (λ x. Memᴰ x given) (sample given limit) (drawn given limit) m)))
          (λ _. negatives-label)

    -- With a sample that draws from what it is given: the examples of a built dataset are those of
    -- all the pairs that are labelled a conflict, whatever the ratio of negatives is, and kept
    -- negatives, each of which is labelled 0.
    pub build_examples-positives :
        (ratio : Option F)
        → Perm (build_examples group_hash graph labels truncate sample ratio) (
            map
              (example_of group_hash graph labels)
              (keep (conflicting labels) (pairs_to_label group_hash graph labels))
            ++ kept_negatives group_hash graph labels truncate sample ratio)
          × All (λ x. x.label ≡ 0) (kept_negatives group_hash graph labels truncate sample ratio)
    unfolding build_examples positives
    build_examples-positives ratio = (sort_by-perm _ _, kept_negatives-label ratio)
