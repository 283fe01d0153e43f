-- ===== src/Graph/Counts.antt =====
-- How the counters of `pair_features` bound one another.
use conflict_graph.Prelude.{
  ℕ, ◌+◌, ◌≤◌, ◌≡◌, refl, subst, ◌∙◌, Bool, true, false, ◌&&◌, List, [], ◌∷◌, length, foldl, All,
  All-of_Mem, keep, sort_by, sym, arith,
}
use conflict_graph.Prelude.Text.{Text, text_eq, text_lt}
use conflict_graph.Prelude.Sets.{linked, set_at, contains, Mem-contains, contains-keep}
use conflict_graph.Prelude.Unique.{contains-sort_by}
use conflict_graph.Graph.Consistent.{IsConsistent, length-look_up}
use conflict_graph.Prelude.Float.{Float}
use conflict_graph.Types.Prediction.{stable_pair}
use conflict_graph.Graph.State.{TestResourceGraph}
use conflict_graph.Graph.Counters.{Counters, no_counts, bump, count_resource}
use conflict_graph.Graph.Features.{Shared, look_up, shared_ids, ordered_features, pair_features}

-- What the counters of `n` shared resources are to one another.
pub record IsBounded (n : ℕ) (c : Counters) : Type 0 where
  pub files : c.shared_files ≤ n
  pub writes : c.shared_writes ≤ n
  pub one_writes : c.read_write ≤ c.shared_writes
  pub both_write : c.write_write ≤ c.shared_writes
  pub creates : c.create_create ≤ n
  pub deletes : c.delete_read ≤ n
  pub binds : c.shared_bind ≤ n
  pub locks : c.shared_locks ≤ n
  pub redis : c.shared_redis_writes ≤ c.write_write
  pub sockets : c.shared_unix_sockets ≤ n
  pub databases : c.shared_databases ≤ n

bump_le : (b : Bool) {m n : ℕ} → m ≤ n → bump b m ≤ n + 1
bump_le true h = omega arith
bump_le false h = omega arith

-- What is counted under the stronger test stays behind.
bump_mono : (b c : Bool) {m n : ℕ} → (b ≡ true → c ≡ true) → m ≤ n → bump b m ≤ bump c n
bump_mono true c h k = rw (h refl) (omega arith)
bump_mono false true h k = omega arith
bump_mono false false h k = k

count_resource-IsBounded :
    (s : Shared) (n : ℕ) (c : Counters)
    → IsBounded n c
    → IsBounded (n + 1) (count_resource s.identity s.left s.right c)
unfolding count_resource
count_resource-IsBounded s n c b = record {
  files = bump_le _ b.files;
  writes = bump_le _ b.writes;
  one_writes = bump_mono _ _ (λ h. ground arith) b.one_writes;
  both_write = bump_mono _ _ (λ h. ground arith) b.both_write;
  creates = bump_le _ b.creates;
  deletes = bump_le _ b.deletes;
  binds = bump_le _ b.binds;
  locks = bump_le _ b.locks;
  redis = bump_mono _ _ (λ h. ground arith) b.redis;
  sockets = bump_le _ b.sockets;
  databases = bump_le _ b.databases;
}

count_all-IsBounded :
    (shared : List Shared) (n : ℕ) (c : Counters)
    → IsBounded n c
    → IsBounded
        (length shared + n)
        (foldl (λ c s. count_resource s.identity s.left s.right c) c shared)
count_all-IsBounded [] n c b = subst (λ m. IsBounded m c) (omega arith) b
count_all-IsBounded (s ∷ shared) n c b =
    subst
      (λ m. IsBounded m (foldl (λ c s. count_resource s.identity s.left s.right c) c (s ∷ shared)))
      (omega arith)
      (count_all-IsBounded shared (n + 1) (count_resource s.identity s.left s.right c)
        (count_resource-IsBounded s n c b))

none-IsBounded : IsBounded 0 no_counts
none-IsBounded = record {
  files = omega arith;
  writes = omega arith;
  one_writes = omega arith;
  both_write = omega arith;
  creates = omega arith;
  deletes = omega arith;
  binds = omega arith;
  locks = omega arith;
  redis = omega arith;
  sockets = omega arith;
  databases = omega arith;
}

module _ {F : Type 0} ⦃fl : Float F⦄ (g : TestResourceGraph F) (a b : Text) where
  shared_ids-linked :
      All
        (λ r. (linked a r g.test_resources ≡ true) × (linked b r g.test_resources ≡ true))
        (shared_ids g a b)
  unfolding shared_ids
  shared_ids-linked =
      let left = set_at a g.test_resources in
      let right = set_at b g.test_resources in
      All-of_Mem _ (shared_ids g a b) (λ r m.
        let h : contains r (sort_by text_lt (keep (λ r. contains r right) left)) ≡ true =
          Mem-contains r (sort_by text_lt (keep (λ r. contains r right) left)) m in
        let k : (contains r right && contains r left) ≡ true =
          sym (contains-keep (λ r. contains r right) r left)
          ∙ (sym (contains-sort_by text_lt r (keep (λ r. contains r right) left)) ∙ h) in
        (ground arith, ground arith))

  ordered_features-IsBounded :
      IsConsistent g
      → IsBounded (ordered_features g (a, b)).shared_resources (ordered_features g (a, b)).counters
  unfolding ordered_features
  ordered_features-IsBounded c =
      let shared = look_up g a b (shared_ids g a b) in
      subst
        (λ n.
          IsBounded n (foldl (λ c s. count_resource s.identity s.left s.right c) no_counts shared))
        (length-look_up g a b (shared_ids g a b) c shared_ids-linked)
        (subst
          (λ n.
            IsBounded n
              (foldl (λ c s. count_resource s.identity s.left s.right c) no_counts shared))
          (omega arith) (count_all-IsBounded shared 0 no_counts none-IsBounded))

-- In a consistent graph no counter of a pair's features exceeds the number of its shared resources;
-- those that both tests write and those that one writes and the other reads are among those that one
-- writes, and the Redis keys that both write are among the resources that both write.
pub pair_features-IsBounded :
    {F : Type 0} ⦃fl : Float F⦄ (g : TestResourceGraph F) (a b : Text)
    → IsConsistent g
    → IsBounded (pair_features g a b).shared_resources (pair_features g a b).counters
unfolding pair_features
pair_features-IsBounded g a b c =
    ordered_features-IsBounded g (stable_pair a b).0 (stable_pair a b).1 c
