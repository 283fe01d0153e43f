-- ===== src/Prelude/Float.antt =====
-- Python's `float`, which the language here does not have: a type with the operations that the
-- program uses, and the laws of IEEE 754 comparison and rounding that the theorems rest on. The
-- values are the ones that are not NaN.
use Prim.Native.Nat.{ℕ}
use mathlib.Core.Path.{◌≡◌}
use mathlib.Core.Logic.{◌⊎◌}
use mathlib.Core.Bool.{Bool, true, not, ◌&&◌}
use mathlib.Core.List.{List, [], ◌∷◌}
use conflict_graph.Prelude.Tests.{if◌then◌else◌}

pub record Float (F : Type 0) : Type 0 where
  -- The literal m * 10^-k: `lit 5 1` is 0.5.
  pub lit : ℕ → ℕ → F
  pub le : F → F → Bool
  pub add : F → F → F
  pub sub : F → F → F
  pub mul : F → F → F
  pub div : F → F → F
  pub pow : F → ℕ → F
  -- f"{x:.1%}"
  pub percent : F → List ℕ

module _ {F : Type 0} ⦃fl : Float F⦄ where
  open fl use {lit, le, sub}

  abbrev pub nought : F
  nought = lit 0 0

  abbrev pub unit : F
  unit = lit 1 0

  abbrev pub lt : F → F → Bool
  lt x y = not (le y x)

  abbrev pub eq : F → F → Bool
  eq x y = le x y && le y x

  -- Python's min(x, y) and max(x, y).
  abbrev pub fmin : F → F → F
  fmin x y = if lt y x then y else x

  abbrev pub fmax : F → F → F
  fmax x y = if lt x y then y else x

  -- max(xs, default=0.0)
  abbrev pub max_from : F → List F → F
  max_from best [] = best
  max_from best (x ∷ xs) = max_from (fmax best x) xs

  abbrev pub max_default : List F → F
  max_default [] = nought
  max_default (x ∷ xs) = max_from x xs

infix 4 ◌≼◌
abbrev pub ◌≼◌ : {F : Type 0} ⦃fl : Float F⦄ → F → F → Type 0
◌≼◌ ⦃fl⦄ x y = fl.le x y ≡ true

pub record IsOrdered (F : Type 0) ⦃fl : Float F⦄ : Type 0 where
  pub le_refl : (x : F) → x ≼ x
  pub le_trans : (x y z : F) → x ≼ y → y ≼ z → x ≼ z
  pub le_total : (x y : F) → (x ≼ y) ⊎ (y ≼ x)
  -- Adding a number that is not negative rounds to one that is not smaller.
  pub le-add : (x d : F) → fl.lit 0 0 ≼ d → x ≼ fl.add x d
  -- A difference is positive exactly when the operands are so ordered.
  pub sub-le : (x y : F) → fl.le (fl.sub x y) (fl.lit 0 0) ≡ fl.le x y
  pub lit-nonneg : (m k : ℕ) → fl.lit 0 0 ≼ fl.lit m k
