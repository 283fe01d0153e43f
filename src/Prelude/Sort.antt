-- ===== src/Prelude/Sort.antt =====
-- Python's `sorted` and `list.sort`: the stable order by a key comparison, by insertion.
use mathlib.Core.Path.{◌≡◌}
use mathlib.Core.Bool.{Bool, true, false}
use mathlib.Core.List.Perm
use mathlib.Core.List.{List, [], ◌∷◌, Perm}
use conflict_graph.Prelude.Tests.{if◌then◌else◌, if_ind}
use conflict_graph.Prelude.Predicates.{All}

module _ {ℓ} {A : Type ℓ} (below : A → A → Bool) where
  -- `below x y` is `key(x) < key(y)`; an element stays in front of its equals.
  abbrev pub insert_sorted : A → List A → List A
  insert_sorted x [] = x ∷ []
  insert_sorted x (y ∷ ys) =
      let rest = insert_sorted x ys in if below y x then y ∷ rest else x ∷ y ∷ ys

  abbrev pub sort_by : List A → List A
  sort_by [] = []
  sort_by (x ∷ xs) = insert_sorted x (sort_by xs)

  -- No element is below an earlier one.
  abbrev pub IsSortedBy : List A → Type 0
  IsSortedBy [] = Unit
  IsSortedBy (x ∷ xs) = All (λ y. below y x ≡ false) xs × IsSortedBy xs

  insert_sorted-perm : (x : A) (ys : List A) → Perm (insert_sorted x ys) (x ∷ ys)
  insert_sorted-perm x [] = Perm.refl (x ∷ [])
  insert_sorted-perm x (y ∷ ys) =
      if_ind (λ l. Perm l (x ∷ y ∷ ys)) (below y x) _ _
        (λ _. Perm.trans (Perm.cons y (insert_sorted-perm x ys)) (Perm.swap x y ys))
        (λ _. Perm.refl (x ∷ y ∷ ys))

  pub sort_by-perm : (xs : List A) → Perm (sort_by xs) xs
  sort_by-perm [] = Perm.refl []
  sort_by-perm (x ∷ xs) =
      Perm.trans (insert_sorted-perm x (sort_by xs)) (Perm.cons x (sort_by-perm xs))

  insert_sorted-All :
      (P : A → Type 0) (x : A) (ys : List A) → P x → All P ys → All P (insert_sorted x ys)
  insert_sorted-All P x [] p q = (p, tt)
  insert_sorted-All P x (y ∷ ys) p q =
      if_ind (All P) (below y x) _ _ (λ _. (q.0, insert_sorted-All P x ys p q.1)) (λ _. (p, q))

  pub sort_by-All : (P : A → Type 0) (xs : List A) → All P xs → All P (sort_by xs)
  sort_by-All P [] p = tt
  sort_by-All P (x ∷ xs) p = insert_sorted-All P x (sort_by xs) p.0 (sort_by-All P xs p.1)

  module _ (asym : (x y : A) → below x y ≡ true → below y x ≡ false)
      (trans : (x y z : A) → below y x ≡ false → below z y ≡ false → below z x ≡ false) where
    above :
        (x y : A) (ys : List A)
        → below y x ≡ false
        → All (λ z. below z y ≡ false) ys
        → All (λ z. below z x ≡ false) ys
    above x y [] h p = tt
    above x y (z ∷ zs) h p = (trans x y z h p.0, above x y zs h p.1)

    insert_sorted-IsSortedBy :
        (x : A) (ys : List A) → IsSortedBy ys → IsSortedBy (insert_sorted x ys)
    insert_sorted-IsSortedBy x [] s = (tt, tt)
    insert_sorted-IsSortedBy x (y ∷ ys) s =
        if_ind IsSortedBy (below y x) _ _
          (λ e. (
            insert_sorted-All (λ z. below z y ≡ false) x ys (asym y x e) s.0,
            insert_sorted-IsSortedBy x ys s.1,
          ))
          (λ e. ((e, above x y ys e s.0), s))

    pub sort_by-IsSortedBy : (xs : List A) → IsSortedBy (sort_by xs)
    sort_by-IsSortedBy [] = tt
    sort_by-IsSortedBy (x ∷ xs) = insert_sorted-IsSortedBy x (sort_by xs) (sort_by-IsSortedBy xs)
