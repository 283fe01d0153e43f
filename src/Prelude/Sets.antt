-- ===== src/Prelude/Sets.antt =====
-- Python's `set` as a list without repetition, and a `dict` of sets.
use mathlib.Core.Path.{◌≡◌, refl, sym}
use mathlib.Core.Bool.{Bool, true, false, ◌&&◌, ◌||◌}
use mathlib.Core.List.{List, [], ◌∷◌, ◌++◌, Memᴰ}
use mathlib.Core.Option.{Option, none, some}
use mathlib.Core.Logic.{inl, inr}
use native.Mathlib.Omega.{arith}
use conflict_graph.Prelude.Tests.{if◌then◌else◌, Bool-cases}
use conflict_graph.Prelude.Classes.{Eq, same, same_iff}
use conflict_graph.Prelude.Lists.{keep}
use conflict_graph.Prelude.Dict.{Dict, get, put, get-put}

module _ {ℓ} {A : Type ℓ} ⦃e : Eq A⦄ where
  -- x in xs
  abbrev pub contains : A → List A → Bool
  contains x [] = false
  contains x (y ∷ ys) = same y x || contains x ys

  -- xs.add(x)
  abbrev pub add_new : A → List A → List A
  add_new x xs = if contains x xs then xs else xs ++ x ∷ []

  pub contains-snoc :
      (x y : A) (xs : List A) → contains y (xs ++ x ∷ []) ≡ (same x y || contains y xs)
  contains-snoc x y [] = refl
  contains-snoc x y (z ∷ xs) = ground (arith, contains-snoc x y xs)

  pub contains-add_new :
      (x y : A) (xs : List A) → contains y (add_new x xs) ≡ (same x y || contains y xs)
  contains-add_new x y xs = elim (Bool-cases (contains x xs)) [
    | inl h ↦ ground (arith, same_iff x y)
    | inr h ↦ rw h (contains-snoc x y xs)
  ]

  pub contains-keep :
      (p : A → Bool) (x : A) (xs : List A) → contains x (keep p xs) ≡ (p x && contains x xs)
  contains-keep p x [] = ground arith
  contains-keep p x (y ∷ ys) = ground (arith, contains-keep p x ys, same_iff y x)

  pub Mem-contains : (x : A) (xs : List A) → Memᴰ x xs → contains x xs ≡ true
  Mem-contains x [] m = elim m [ ]
  Mem-contains x (y ∷ ys) (Memᴰ.head q) = ground (arith, same_iff y x)
  Mem-contains x (y ∷ ys) (Memᴰ.tail m) = ground (arith, Mem-contains x ys m)

  pub contains-Mem : (x : A) (xs : List A) → contains x xs ≡ true → Memᴰ x xs
  contains-Mem x [] h = cc
  contains-Mem x (y ∷ ys) h = elim (Bool-cases (same y x)) [
    | inl q ↦ Memᴰ.head (sym ((same_iff y x).0 q))
    | inr q ↦ Memᴰ.tail (contains-Mem x ys (ground arith))
  ]

abbrev pub or_empty {ℓ} : {A : Type ℓ} → Option (List A) → List A
or_empty none = []
or_empty (some xs) = xs

module _ {ℓ κ} {K : Type ℓ} {A : Type κ} ⦃e : Eq K⦄ where
  -- d.get(k, set()), and d[k] of a `defaultdict(set)`
  abbrev pub set_at : K → Dict K (List A) → List A
  set_at k d = or_empty (get k d)

  set_at-put :
      (k j : K) (v : List A) (d : Dict K (List A))
      → set_at j (put k v d) ≡ (if same k j then v else set_at j d)
  set_at-put k j v d = elim (Bool-cases (same k j)) [
    | inl h ↦ rw (get-put k j v d, h)
    | inr h ↦ rw (get-put k j v d, h)
  ]

module _ {ℓ κ} {K : Type ℓ} {A : Type κ} ⦃e : Eq K⦄ ⦃f : Eq A⦄ where
  -- d[k].add(x)
  abbrev pub add_at : K → A → Dict K (List A) → Dict K (List A)
  add_at k x d = put k (add_new x (set_at k d)) d

  abbrev pub linked : K → A → Dict K (List A) → Bool
  linked k x d = contains x (set_at k d)

  pub linked-add_at :
      (k j : K) (x y : A) (d : Dict K (List A))
      → linked j y (add_at k x d) ≡ ((same k j && same x y) || linked j y d)
  linked-add_at k j x y d = elim (Bool-cases (same k j)) [
    | inl h ↦ rw (
      set_at-put k j (add_new x (set_at k d)) d,
      h,
      (same_iff k j).0 h,
      contains-add_new x y (set_at j d),
    )
    | inr h ↦ rw (set_at-put k j (add_new x (set_at k d)) d, h)
  ]
