-- ===== src/Prelude/Predicates.antt =====
-- Predicates over lists: `All` by recursion, which the tactics read as a tuple, and membership.
use Prim.Native.Nat.{ℕ, zero, suc, ◌<◌}
use mathlib.Core.Path.{◌≡◌, refl, sym, ap, subst}
use mathlib.Core.Logic.{◌⊎◌, inl, inr}
use mathlib.Core.Bool.{Bool, true, false}
use mathlib.Core.List.{List, [], ◌∷◌, ◌++◌, map, Memᴰ}
use mathlib.Core.Option.{some}
use native.Mathlib.Omega.{arith}
use conflict_graph.Prelude.Tests.{if◌then◌else◌, Bool-cases}
use conflict_graph.Prelude.Lists.{
  keep, min_from, min_by, is_empty, take, set, except, concat, get_elem?,
}

module _ {ℓ} {A : Type ℓ} where
  abbrev pub All {κ} : (A → Type κ) → List A → Type κ
  All P [] = Unit
  All P (x ∷ xs) = P x × All P xs

  pub Mem-append_left : {a : A} {xs : List A} (ys : List A) → Memᴰ a xs → Memᴰ a (xs ++ ys)
  Mem-append_left ys (Memᴰ.head e) = Memᴰ.head e
  Mem-append_left ys (Memᴰ.tail m) = Memᴰ.tail (Mem-append_left ys m)

  pub Mem-append_right : {a : A} (xs : List A) {ys : List A} → Memᴰ a ys → Memᴰ a (xs ++ ys)
  Mem-append_right [] m = m
  Mem-append_right (x ∷ xs) m = Memᴰ.tail (Mem-append_right xs m)

  pub Mem-append_cases :
      {a : A} (xs : List A) {ys : List A} → Memᴰ a (xs ++ ys) → Memᴰ a xs ⊎ Memᴰ a ys
  Mem-append_cases [] m = inr m
  Mem-append_cases (x ∷ xs) (Memᴰ.head e) = inl (Memᴰ.head e)
  Mem-append_cases (x ∷ xs) (Memᴰ.tail m) = elim (Mem-append_cases xs m) [
    | inl l ↦ inl (Memᴰ.tail l)
    | inr r ↦ inr r
  ]

  abbrev keep_step : (A → Bool) → A → List A → Bool → List A
  keep_step p x xs b = if b then x ∷ keep p xs else keep p xs

  abbrev pub Kept : A → (A → Bool) → List A → Type ℓ
  Kept a p xs = Memᴰ a xs × (p a ≡ true)

  Kept-cons :
      {a : A} (p : A → Bool) (x : A) (xs : List A)
      → p x ≡ true
      → (Memᴰ a (keep p xs) → Kept a p xs)
      → Memᴰ a (x ∷ keep p xs)
      → Kept a p (x ∷ xs)
  Kept-cons p x xs e later (Memᴰ.head q) = (Memᴰ.head q, subst (λ y. p y ≡ true) (sym q) e)
  Kept-cons p x xs e later (Memᴰ.tail r) = let (i, t) = later r in (Memᴰ.tail i, t)

  pub Mem-keep : {a : A} (p : A → Bool) (xs : List A) → Memᴰ a (keep p xs) → Kept a p xs
  Mem-keep p [] m = elim m [ ]
  Mem-keep {a} p (x ∷ xs) m = elim (Bool-cases (p x)) [
    | inl e ↦
        Kept-cons p x xs e (λ r. Mem-keep p xs r) (subst (λ b. Memᴰ a (keep_step p x xs b)) e m)
    | inr e ↦
        let (i, t) = Mem-keep p xs (subst (λ b. Memᴰ a (keep_step p x xs b)) e m) in
        (Memᴰ.tail i, t)
  ]

  pub keep-Mem : {a : A} (p : A → Bool) (xs : List A) → Memᴰ a xs → p a ≡ true → Memᴰ a (keep p xs)
  keep-Mem p [] m t = elim m [ ]
  keep-Mem p (x ∷ xs) (Memᴰ.head q) t = rw (← q, t) (Memᴰ.head refl)
  keep-Mem p (x ∷ xs) (Memᴰ.tail m) t = elim (Bool-cases (p x)) [
    | inl e ↦ rw e (Memᴰ.tail (keep-Mem p xs m t))
    | inr e ↦ rw e (keep-Mem p xs m t)
  ]

  pub Mem-take : {a : A} (n : ℕ) (xs : List A) → Memᴰ a (take n xs) → Memᴰ a xs
  Mem-take zero xs m = elim m [ ]
  Mem-take (suc n) [] m = elim m [ ]
  Mem-take (suc n) (x ∷ xs) (Memᴰ.head e) = Memᴰ.head e
  Mem-take (suc n) (x ∷ xs) (Memᴰ.tail m) = Memᴰ.tail (Mem-take n xs m)

  pub Mem-min_from :
      (below : A → A → Bool) (best : A) (xs : List A) → Memᴰ (min_from below best xs) (best ∷ xs)
  Mem-min_from below best [] = Memᴰ.head refl
  Mem-min_from below best (x ∷ xs) = elim (Bool-cases (below x best)) [
    | inl e ↦ rw e (Memᴰ.tail (Mem-min_from below x xs))
    | inr e ↦ rw e (skip (Mem-min_from below best xs))
  ]
    where
      skip : {a : A} → Memᴰ a (best ∷ xs) → Memᴰ a (best ∷ x ∷ xs)
      skip (Memᴰ.head q) = Memᴰ.head q
      skip (Memᴰ.tail m) = Memᴰ.tail (Memᴰ.tail m)

  pub Mem-min_by :
      (below : A → A → Bool) (xs : List A) {a : A} → min_by below xs ≡ some a → Memᴰ a xs
  Mem-min_by below [] h = cc
  Mem-min_by below (x ∷ xs) {a} h =
      let e : min_from below x xs ≡ a = cc in
      subst (λ z. Memᴰ z (x ∷ xs)) e (Mem-min_from below x xs)

  pub Mem-concat :
      {a : A} {xs : List A} (xss : List (List A)) → Memᴰ xs xss → Memᴰ a xs → Memᴰ a (concat xss)
  Mem-concat [] i m = elim i [ ]
  Mem-concat (ys ∷ xss) (Memᴰ.head e) m = Mem-append_left (concat xss) (subst (Memᴰ _) e m)
  Mem-concat (ys ∷ xss) (Memᴰ.tail i) m = Mem-append_right ys (Mem-concat xss i m)

pub Mem-map {ℓ κ} :
    {A : Type ℓ} {B : Type κ} {a : A} {xs : List A} (f : A → B) → Memᴰ a xs → Memᴰ (f a) (map f xs)
Mem-map f (Memᴰ.head e) = Memᴰ.head (ap f e)
Mem-map f (Memᴰ.tail m) = Memᴰ.tail (Mem-map f m)

module _ {ℓ κ} {A : Type ℓ} (P : A → Type κ) where
  pub All-append : (xs ys : List A) → All P xs → All P ys → All P (xs ++ ys)
  All-append [] ys p q = q
  All-append (x ∷ xs) ys p q = (p.0, All-append xs ys p.1 q)

  pub All-append_left : (xs ys : List A) → All P (xs ++ ys) → All P xs
  All-append_left [] ys p = tt
  All-append_left (x ∷ xs) ys p = (p.0, All-append_left xs ys p.1)

  pub All-Mem : {a : A} (xs : List A) → All P xs → Memᴰ a xs → P a
  All-Mem [] p m = elim m [ ]
  All-Mem (x ∷ xs) p (Memᴰ.head e) = subst P (sym e) p.0
  All-Mem (x ∷ xs) p (Memᴰ.tail m) = All-Mem xs p.1 m

  pub All-of_Mem : (xs : List A) → ((a : A) → Memᴰ a xs → P a) → All P xs
  All-of_Mem [] f = tt
  All-of_Mem (x ∷ xs) f = (f x (Memᴰ.head refl), All-of_Mem xs (λ a m. f a (Memᴰ.tail m)))

  pub All-set : (xs : List A) (i : ℕ) (v : A) → All P xs → P v → All P (set xs i v)
  All-set [] i v p q = p
  All-set (x ∷ xs) zero v p q = (q, p.1)
  All-set (x ∷ xs) (suc i) v p q = (p.0, All-set xs i v p.1 q)

  pub All-except : (i : ℕ) (xs : List A) → All P xs → All P (except i xs)
  All-except i [] p = tt
  All-except zero (x ∷ xs) p = p.1
  All-except (suc i) (x ∷ xs) p = (p.0, All-except i xs p.1)

  pub All-get_elem? : (xs : List A) (i : ℕ) {a : A} → All P xs → get_elem? xs i ≡ some a → P a
  All-get_elem? [] i p h = cc
  All-get_elem? (x ∷ xs) zero {a} p h = let e : x ≡ a = cc in subst P e p.0
  All-get_elem? (x ∷ xs) (suc i) p h = All-get_elem? xs i p.1 h

module _ {ℓ} {A : Type ℓ} where
  -- The minimum of a list that is not empty is one of its elements.
  pub min_by-some :
      (below : A → A → Bool) (xs : List A)
      → is_empty xs ≡ false
      → (a : A) × (min_by below xs ≡ some a) × Memᴰ a xs
  min_by-some below [] h = cc
  min_by-some below (x ∷ xs) h = (min_from below x xs, refl, Mem-min_from below x xs)

  pub keep_empty :
      (p : A → Bool) (xs : List A) → is_empty (keep p xs) ≡ true → All (λ x. p x ≡ false) xs
  keep_empty p [] h = tt
  keep_empty p (x ∷ xs) h = elim (Bool-cases (p x)) [
    | inl e ↦ cc (subst (λ b. is_empty (keep_step p x xs b) ≡ true) e h)
    | inr e ↦ (e, keep_empty p xs (subst (λ b. is_empty (keep_step p x xs b) ≡ true) e h))
  ]

  pub is_empty-map {κ} : {B : Type κ} (f : A → B) (xs : List A) → is_empty (map f xs) ≡ is_empty xs
  is_empty-map f [] = refl
  is_empty-map f (x ∷ xs) = refl

  pub is_empty_nil : (xs : List A) → is_empty xs ≡ true → xs ≡ []
  is_empty_nil [] h = refl
  is_empty_nil (x ∷ xs) h = cc

  pub is_empty-take :
      (n : ℕ) (xs : List A) → 0 < n → is_empty xs ≡ false → is_empty (take n xs) ≡ false
  is_empty-take zero xs h k = absurd (omega arith)
  is_empty-take (suc n) [] h k = k
  is_empty-take (suc n) (x ∷ xs) h k = refl
