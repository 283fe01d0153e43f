-- ===== src/Prelude/Dict.antt =====
-- Python's `dict`: pairs in order of insertion. A write to a key that is there keeps its place.
use mathlib.Core.Path.{◌≡◌, refl}
use mathlib.Core.Logic.{inl, inr}
use mathlib.Core.Bool.{Bool, true, false, ◌||◌}
use mathlib.Core.List.{List, [], ◌∷◌}
use mathlib.Core.Option.{Option, none, some}
use native.Mathlib.Omega.{arith}
use conflict_graph.Prelude.Tests.{if◌then◌else◌, Bool-cases}
use conflict_graph.Prelude.Classes.{Eq, same, same_iff}

abbrev pub Dict {ℓ κ} : Type ℓ → Type κ → Type (ℓ ⊔ κ)
Dict K V = List (K × V)

module _ {ℓ κ} {K : Type ℓ} {V : Type κ} ⦃e : Eq K⦄ where
  -- d.get(k); `none` is None, or the KeyError of d[k]
  abbrev pub get : K → Dict K V → Option V
  get k [] = none
  get k ((j, v) ∷ d) = let rest = get k d in if same j k then some v else rest

  -- d[k] = v
  abbrev pub put : K → V → Dict K V → Dict K V
  put k v [] = (k, v) ∷ []
  put k v ((j, w) ∷ d) = let rest = put k v d in if same j k then (j, v) ∷ d else (j, w) ∷ rest

  -- {k: v for k, v in d.items() if p(k, v)}
  abbrev pub select : (K → V → Bool) → Dict K V → Dict K V
  select p [] = []
  select p ((j, v) ∷ d) = let rest = select p d in if p j v then (j, v) ∷ rest else rest

  -- k in d
  abbrev pub has : K → Dict K V → Bool
  has k [] = false
  has k ((j, v) ∷ d) = same j k || has k d

  pub get-put :
      (k j : K) (v : V) (d : Dict K V) → get j (put k v d) ≡ (if same k j then some v else get j d)
  get-put k j v [] = refl
  get-put k j v ((i, w) ∷ d) =
      ground (arith, same_iff k j, same_iff i k, same_iff i j, get-put k j v d)

  pub get-put_self : (k : K) (v : V) (d : Dict K V) → get k (put k v d) ≡ some v
  get-put_self k v d = ground (arith, get-put k k v d, same_iff k k)

  pub get-put_ne : (k j : K) (v : V) (d : Dict K V) → (k ≡ j → ⊥) → get j (put k v d) ≡ get j d
  get-put_ne k j v d h = ground (arith, get-put k j v d, same_iff k j)

  pub has-put : (k j : K) (v : V) (d : Dict K V) → has j (put k v d) ≡ (same k j || has j d)
  has-put k j v [] = refl
  has-put k j v ((i, w) ∷ d) =
      ground (arith, same_iff k j, same_iff i k, same_iff i j, has-put k j v d)

  pub get-has : (k : K) (d : Dict K V) → has k d ≡ true → (v : V) × (get k d ≡ some v)
  get-has k [] h = cc
  get-has k ((j, v) ∷ d) h = elim (Bool-cases (same j k)) [
    | inl e ↦ (v, rw e)
    | inr e ↦ let (w, q) = get-has k d (ground arith) in (w, rw e q)
  ]

  -- What is left after a selection by value was there, and passed.
  pub get-select :
      (p : V → Bool) (k : K) (d : Dict K V) {v : V}
      → get k (select (λ j w. p w) d) ≡ some v
      → (p v ≡ true)
  get-select p k [] h = cc
  get-select p k ((j, w) ∷ d) {v} h = ground (arith, get-select p k d {v = v})
