-- ===== src/Prelude/Unique.antt =====
-- Lists without repetition, and what sorting, joining and selecting keep of them.
use mathlib.Core.Path.{◌≡◌, refl, ◌∙◌, ap}
use mathlib.Core.Bool.{Bool, false, not, ◌&&◌, ◌||◌}
use mathlib.Core.List.{List, [], ◌∷◌, ◌++◌, foldl}
use mathlib.Core.Logic.{inl, inr}
use native.Mathlib.Omega.{arith}
use conflict_graph.Prelude.Tests.{if◌then◌else◌, if_ind, Bool-cases}
use conflict_graph.Prelude.Classes.{Eq, same, same_iff}
use conflict_graph.Prelude.Lists.{keep}
use conflict_graph.Prelude.Sort.{insert_sorted, sort_by}
use conflict_graph.Prelude.Predicates.{All}
use conflict_graph.Prelude.Sets.{add_new, contains, contains-snoc, contains-add_new, contains-keep}

module _ {A : Type 0} ⦃e : Eq A⦄ where
  pub contains-append :
      (x : A) (xs ys : List A) → contains x (xs ++ ys) ≡ (contains x xs || contains x ys)
  contains-append x [] ys = refl
  contains-append x (y ∷ xs) ys = ground (arith, contains-append x xs ys)

  contains-insert_sorted :
      (below : A → A → Bool) (x y : A) (xs : List A)
      → contains y (insert_sorted below x xs) ≡ (same x y || contains y xs)
  contains-insert_sorted below x y [] = refl
  contains-insert_sorted below x y (z ∷ xs) = ground (arith, contains-insert_sorted below x y xs)

  pub contains-sort_by :
      (below : A → A → Bool) (y : A) (xs : List A) → contains y (sort_by below xs) ≡ contains y xs
  contains-sort_by below y [] = refl
  contains-sort_by below y (x ∷ xs) =
      rw (contains-insert_sorted below x y (sort_by below xs), contains-sort_by below y xs) refl

  -- No element stands twice in the list.
  abbrev pub IsUnique : List A → Type 0
  IsUnique [] = Unit
  IsUnique (x ∷ xs) = (contains x xs ≡ false) × IsUnique xs

  -- The elements that pass are added, the others are not.
  abbrev pub admit : (A → Bool) → List A → A → List A
  admit ok xs y = if ok y then add_new y xs else xs

  contains-admit :
      (ok : A → Bool) (x y : A) (xs : List A)
      → contains x (admit ok xs y) ≡ (contains x xs || (same y x && ok x))
  contains-admit ok x y xs = elim (Bool-cases (same y x)) [
    | inl h ↦
        let q : y ≡ x = (same_iff y x).0 h in
        if_ind (λ l. contains x l ≡ (contains x xs || (same y x && ok x))) (ok y) _ _
          (λ e. ground (arith, contains-add_new y x xs, q, ap ok q))
          (λ e. ground (arith, q, ap ok q))
    | inr h ↦
        if_ind (λ l. contains x l ≡ (contains x xs || (same y x && ok x))) (ok y) _ _
          (λ e. ground (arith, contains-add_new y x xs)) (λ e. ground arith)
  ]

  pub contains-foldl-admit :
      (ok : A → Bool) (x : A) (ys xs : List A)
      → contains x (foldl (admit ok) xs ys) ≡ (contains x xs || (contains x ys && ok x))
  contains-foldl-admit ok x [] xs = ground arith
  contains-foldl-admit ok x (y ∷ ys) xs =
      rw (contains-foldl-admit ok x ys (admit ok xs y), contains-admit ok x y xs) (ground arith)

  IsUnique-snoc :
      (y : A) (xs : List A) → contains y xs ≡ false → IsUnique xs → IsUnique (xs ++ y ∷ [])
  IsUnique-snoc y [] h c = (refl, tt)
  IsUnique-snoc y (x ∷ xs) h c = (
    ground (arith, contains-snoc y x xs, same_iff x y, same_iff y x, c.0),
    IsUnique-snoc y xs (ground arith) c.1,
  )

  IsUnique-admit : (ok : A → Bool) (y : A) (xs : List A) → IsUnique xs → IsUnique (admit ok xs y)
  IsUnique-admit ok y xs c =
      if_ind IsUnique (ok y) (add_new y xs) xs
        (λ _.
          if_ind IsUnique (contains y xs) xs (xs ++ y ∷ []) (λ _. c) (λ h. IsUnique-snoc y xs h c))
        (λ _. c)

  pub IsUnique-foldl-admit :
      (ok : A → Bool) (ys xs : List A) → IsUnique xs → IsUnique (foldl (admit ok) xs ys)
  IsUnique-foldl-admit ok [] xs c = c
  IsUnique-foldl-admit ok (y ∷ ys) xs c =
      IsUnique-foldl-admit ok ys (admit ok xs y) (IsUnique-admit ok y xs c)

  apart :
      (x : A) (xs ys : List A) → All (λ y. contains y (x ∷ xs) ≡ false) ys → contains x ys ≡ false
  apart x xs [] h = refl
  apart x xs (y ∷ ys) h = ground (arith, h.0, apart x xs ys h.1, same_iff x y, same_iff y x)

  All-weaken :
      (x : A) (xs ys : List A)
      → All (λ y. contains y (x ∷ xs) ≡ false) ys
      → All (λ y. contains y xs ≡ false) ys
  All-weaken x xs [] h = tt
  All-weaken x xs (y ∷ ys) h = (ground (arith, h.0), All-weaken x xs ys h.1)

  pub All-keep_absent :
      (shared ys : List A)
      → All (λ y. contains y shared ≡ false) (keep (λ y. not (contains y shared)) ys)
  All-keep_absent shared [] = tt
  All-keep_absent shared (y ∷ ys) =
      if_ind (All (λ y. contains y shared ≡ false)) (not (contains y shared)) _ _
        (λ h. (ground arith, All-keep_absent shared ys)) (λ _. All-keep_absent shared ys)

  pub IsUnique-append :
      (xs ys : List A)
      → IsUnique xs
      → IsUnique ys
      → All (λ y. contains y xs ≡ false) ys
      → IsUnique (xs ++ ys)
  IsUnique-append [] ys c d h = d
  IsUnique-append (x ∷ xs) ys c d h = (
    ground (arith, contains-append x xs ys, c.0, apart x xs ys h),
    IsUnique-append xs ys c.1 d (All-weaken x xs ys h),
  )

  IsUnique-insert_sorted :
      (below : A → A → Bool) (x : A) (xs : List A)
      → contains x xs ≡ false
      → IsUnique xs
      → IsUnique (insert_sorted below x xs)
  IsUnique-insert_sorted below x [] h c = (refl, tt)
  IsUnique-insert_sorted below x (y ∷ xs) h c =
      if_ind IsUnique (below y x) _ _
        (λ _. (
          ground (arith, contains-insert_sorted below x y xs, same_iff x y, same_iff y x, c.0),
          IsUnique-insert_sorted below x xs (ground arith) c.1,
        ))
        (λ _. (h, c))

  pub IsUnique-sort_by :
      (below : A → A → Bool) (xs : List A) → IsUnique xs → IsUnique (sort_by below xs)
  IsUnique-sort_by below [] c = c
  IsUnique-sort_by below (x ∷ xs) c =
      IsUnique-insert_sorted below x (sort_by below xs) (contains-sort_by below x xs ∙ c.0)
        (IsUnique-sort_by below xs c.1)

  pub IsUnique-keep : (p : A → Bool) (xs : List A) → IsUnique xs → IsUnique (keep p xs)
  IsUnique-keep p [] c = c
  IsUnique-keep p (x ∷ xs) c =
      if_ind IsUnique (p x) (x ∷ keep p xs) (keep p xs)
        (λ _. (ground (arith, contains-keep p x xs, c.0), IsUnique-keep p xs c.1))
        (λ _. IsUnique-keep p xs c.1)
