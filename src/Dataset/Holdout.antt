-- ===== src/Dataset/Holdout.antt =====
-- What the split by families promises.
use mathlib.Core.List.Perm
use mathlib.Core.List.{perm_append_comm}
use conflict_graph.Prelude.{
  ℕ, zero, suc, ◌≡◌, refl, ap, Bool, true, not, List, [], ◌∷◌, ◌++◌, length, keep, take, drop,
  range, sort_by, sort_by-perm, Perm, All, All-of_Mem, arith, nat_eq, ltb, Perm-of_eq,
}
use conflict_graph.Prelude.Text.{Text, text_eq}
use conflict_graph.Prelude.Sets.{contains, Mem-contains, contains-keep}
use conflict_graph.Dataset.{Dataset, held_out_at, validation_size, family_holdout_split}

module _ {A : Type 0} where
  take-drop : (n : ℕ) (xs : List A) → take n xs ++ drop n xs ≡ xs
  take-drop zero xs = refl
  take-drop (suc n) [] = refl
  take-drop (suc n) (x ∷ xs) = ap (λ l. x ∷ l) (take-drop n xs)

  keep-eq : (q r : A → Bool) (xs : List A) → All (λ x. q x ≡ r x) xs → keep q xs ≡ keep r xs
  keep-eq q r [] h = refl
  keep-eq q r (x ∷ xs) h = rw (h.0, keep-eq q r xs h.1) refl

-- The indices of the dataset's examples.
abbrev pub indices_of : {F : Type 0} → Dataset F → List ℕ
indices_of dataset = range (length dataset.examples)

-- With a shuffle that permutes: the test part of the split by families is the indices of the
-- examples with a held-out cause, and the training and validation parts together are those of all
-- the others, each index once. No held-out cause is trained or validated on, and nothing is lost.
pub family_holdout_split-partition :
    {F : Type 0} (shuffle : List ℕ → List ℕ) (fifth : ℕ → ℕ) (dataset : Dataset F)
    (causes : List Text)
    → ((xs : List ℕ) → Perm (shuffle xs) xs)
    → let s = family_holdout_split shuffle fifth dataset causes in
      Perm s.test (keep (held_out_at dataset causes) (indices_of dataset))
      × Perm
          (s.train ++ s.validation)
          (keep (λ i. not (held_out_at dataset causes i)) (indices_of dataset))
unfolding family_holdout_split
family_holdout_split-partition shuffle fifth dataset causes permutes =
    let indices = indices_of dataset in
    let test = keep (held_out_at dataset causes) indices in
    let others = keep (λ i. not (contains i test)) indices in
    let size = validation_size fifth (shuffle others) in
    let kept : others ≡ keep (λ i. not (held_out_at dataset causes i)) indices =
      keep-eq (λ i. not (contains i test)) (λ i. not (held_out_at dataset causes i)) indices
        (All-of_Mem _ indices (λ i m.
          let h : contains i indices ≡ true = Mem-contains i indices m in
          ground (arith, contains-keep (held_out_at dataset causes) i indices))) in
    let front = take size (shuffle others) in
    let back = drop size (shuffle others) in
    let sorted : Perm (sort_by ltb back ++ sort_by ltb front) (back ++ front) =
      Perm.append (sort_by-perm ltb back) (sort_by-perm ltb front) in
    (
      sort_by-perm ltb test,
      Perm.trans sorted (
          Perm.trans (perm_append_comm back front) (
            Perm.trans (Perm-of_eq (take-drop size (shuffle others)))
              (Perm.trans (permutes others) (Perm-of_eq kept)))),
    )
