-- ===== src/Prelude/Order.antt =====
-- What the laws of `Float` give for Python's min, max and comparisons.
use mathlib.Core.Path.{◌≡◌, refl, sym, subst}
use mathlib.Core.Logic.{◌⊎◌, inl, inr}
use mathlib.Core.Bool.{false}
use mathlib.Core.List.{List, [], ◌∷◌, Memᴰ}
use conflict_graph.Prelude.Tests.{Bool-cases}
use conflict_graph.Prelude.Float.{Float, IsOrdered, ◌≼◌, fmin, fmax, max_from, max_default}

module _ {F : Type 0} ⦃fl : Float F⦄ (o : IsOrdered F) where
  open o use {le_refl, le_trans, le_total}

  pub le-of_not_le : (x y : F) → fl.le y x ≡ false → x ≼ y
  le-of_not_le x y h = elim (le_total x y) [ inl l ↦ l | inr r ↦ cc ]

  pub fmin-le_left : (x y : F) → fmin x y ≼ x
  fmin-le_left x y = elim (Bool-cases (fl.le x y)) [
    | inl e ↦ rw e (le_refl x)
    | inr e ↦ rw e (le-of_not_le y x e)
  ]

  pub fmin-le_right : (x y : F) → fmin x y ≼ y
  fmin-le_right x y = elim (Bool-cases (fl.le x y)) [ inl e ↦ rw e e | inr e ↦ rw e (le_refl y) ]

  pub le-fmax_left : (x y : F) → x ≼ fmax x y
  le-fmax_left x y = elim (Bool-cases (fl.le y x)) [
    | inl e ↦ rw e (le_refl x)
    | inr e ↦ rw e (le-of_not_le x y e)
  ]

  pub le-fmax_right : (x y : F) → y ≼ fmax x y
  le-fmax_right x y = elim (Bool-cases (fl.le y x)) [ inl e ↦ rw e e | inr e ↦ rw e (le_refl y) ]

  -- `max(x, y)` is one of the two.
  pub fmax_cases : (x y : F) → (fmax x y ≡ x) ⊎ (fmax x y ≡ y)
  fmax_cases x y = elim (Bool-cases (fl.le y x)) [ inl e ↦ inl (rw e) | inr e ↦ inr (rw e) ]

  pub le-max_from : (best : F) (xs : List F) → best ≼ max_from best xs
  le-max_from best [] = le_refl best
  le-max_from best (x ∷ xs) = le_trans _ _ _ (le-fmax_left best x) (le-max_from (fmax best x) xs)

  Mem-le-max_from : (best : F) (xs : List F) {x : F} → Memᴰ x xs → x ≼ max_from best xs
  Mem-le-max_from best [] m = elim m [ ]
  Mem-le-max_from best (y ∷ xs) (Memᴰ.head e) =
      subst (λ z. z ≼ max_from best (y ∷ xs)) (sym e)
        (le_trans _ _ _ (le-fmax_right best y) (le-max_from (fmax best y) xs))
  Mem-le-max_from best (y ∷ xs) (Memᴰ.tail m) = Mem-le-max_from (fmax best y) xs m

  -- No element is above the maximum.
  pub Mem-le-max_default : (xs : List F) {x : F} → Memᴰ x xs → x ≼ max_default xs
  Mem-le-max_default [] m = elim m [ ]
  Mem-le-max_default (y ∷ xs) (Memᴰ.head e) =
      subst (λ z. z ≼ max_from y xs) (sym e) (le-max_from y xs)
  Mem-le-max_default (y ∷ xs) (Memᴰ.tail m) = Mem-le-max_from y xs m

  max_from-Mem : (best : F) (xs : List F) → Memᴰ (max_from best xs) (best ∷ xs)
  max_from-Mem best [] = Memᴰ.head refl
  max_from-Mem best (x ∷ xs) = elim (Bool-cases (fl.le x best)) [
    | inl e ↦ rw e (skip (max_from-Mem best xs))
    | inr e ↦ rw e (Memᴰ.tail (max_from-Mem x xs))
  ]
    where
      skip : {a : F} → Memᴰ a (best ∷ xs) → Memᴰ a (best ∷ x ∷ xs)
      skip (Memᴰ.head q) = Memᴰ.head q
      skip (Memᴰ.tail m) = Memᴰ.tail (Memᴰ.tail m)

  -- The maximum of some elements is one of them.
  pub max_default-Mem : (x : F) (xs : List F) → Memᴰ (max_default (x ∷ xs)) (x ∷ xs)
  max_default-Mem x xs = max_from-Mem x xs
