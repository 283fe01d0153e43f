-- ===== src/Api/Risky.antt =====
-- What `graph` asks of the predictions of a stored graph, apart from how it tests for it.
use mathlib.Core.Option.{some_inj}
use conflict_graph.Prelude.{
  ◌≡◌, refl, sym, ap, ◌∙◌, Bool, true, false, Option, some, none, List, [], ◌∷◌, keep, Bool-cases,
  Option-cases, inl, inr, All, ◌⊎◌,
}
use conflict_graph.Prelude.Text.{Text, text_eq, codes}
use conflict_graph.Prelude.Dict.{Dict, get}
use conflict_graph.Prelude.Float.{Float, ◌≼◌, nought}
use conflict_graph.Api.{
  Json, is_object, is_numeric, is_risky, list_or_empty, number_of, probability_of, field_of,
}

-- `ys` are the elements of `xs` with the property, in their order.
pub data Selected {A : Type 0} (P : A → Type 0) : List A → List A → Type 0 where
  nothing : Selected P [] []
  chosen : {x : A} {xs ys : List A} → P x → Selected P xs ys → Selected P (x ∷ xs) (x ∷ ys)
  left_out : {x : A} {xs ys : List A} → (P x → ⊥) → Selected P xs ys → Selected P (x ∷ xs) ys

clash : {b : Bool} → b ≡ false → b ≡ true → ⊥
clash e t = cc

module _ {F V : Type 0} ⦃fl : Float F⦄ (json : Json F V) where
  -- The prediction is an object whose probability is the number `p`; without one it is 0.
  abbrev pub HasProbability : V → F → Type 0
  HasProbability item p =
      (d : Dict Text V) × (json.as_object item ≡ some d)
      × ((get (codes "probability") d ≡ none) × (p ≡ nought)
          ⊎ (v : V) × (get (codes "probability") d ≡ some v) × (json.as_number v ≡ some p))

  abbrev pub IsPrediction : V → Type 0
  IsPrediction item = (p : F) × HasProbability item p

  abbrev pub IsRisky : F → V → Type 0
  IsRisky min_risk item = (p : F) × HasProbability item p × (min_risk ≼ p)

  -- The predictions of the graph are the list `raw`; a graph without predictions has none of them.
  abbrev pub IsReadable : Dict Text V → List V → Type 0
  IsReadable value raw =
      ((get (codes "predictions") value ≡ none) × (raw ≡ [])
        ⊎ (v : V) × (get (codes "predictions") value ≡ some v) × (json.as_list v ≡ some raw))
      × All IsPrediction raw

  -- The tests of the code.
  abbrev pub Passes : Dict Text V → List V → Type 0
  Passes value raw =
      (list_or_empty json (get (codes "predictions") value) ≡ some raw)
      × All (λ item. is_object json item ≡ true) raw
      × All (λ item. is_numeric json item ≡ true) raw

  number_of-cases :
      (o : Option V) (p : F)
      → number_of json o ≡ some p
      → (o ≡ none) × (p ≡ nought) ⊎ (v : V) × (o ≡ some v) × (json.as_number v ≡ some p)
  number_of-cases none p h = inl (refl, sym (some_inj.0 h))
  number_of-cases (some v) p h = inr (v, refl, h)

  number_of-made :
      (o : Option V) (p : F)
      → (o ≡ none) × (p ≡ nought) ⊎ (v : V) × (o ≡ some v) × (json.as_number v ≡ some p)
      → number_of json o ≡ some p
  number_of-made o p (inl (e, q)) = rw (e, q) refl
  number_of-made o p (inr (v, e, q)) = rw e q

  HasProbability-object : (item : V) (p : F) → HasProbability item p → is_object json item ≡ true
  HasProbability-object item p (d, e, c) = rw (is_object, e) refl

  HasProbability-number :
      (item : V) (p : F) → HasProbability item p → probability_of json item ≡ some p
  HasProbability-number item p (d, e, c) =
      rw (probability_of, field_of, e) (number_of-made (get (codes "probability") d) p c)

  object-HasProbability :
      (item : V) (p : F)
      → is_object json item ≡ true
      → probability_of json item ≡ some p
      → HasProbability item p
  object-HasProbability item p o h = elim (Option-cases (json.as_object item)) [
    | inl e ↦ let n = rw (is_object, e) at o in cc
    | inr (d, e) ↦ (
      d,
      e,
      number_of-cases (get (codes "probability") d) p (rw (probability_of, field_of, e) at h),
    )
  ]

  numeric-some :
      (item : V) → is_numeric json item ≡ true → (p : F) × (probability_of json item ≡ some p)
  numeric-some item h = elim (Option-cases (probability_of json item)) [
    | inl e ↦ let n = rw (is_numeric, e) at h in cc
    | inr s ↦ s
  ]

  passed :
      (raw : List V)
      → All (λ item. is_object json item ≡ true) raw
      → All (λ item. is_numeric json item ≡ true) raw
      → All IsPrediction raw
  passed [] o n = tt
  passed (item ∷ raw) (o, os) (n, ns) =
      let (p, e) = numeric-some item n in ((p, object-HasProbability item p o e), passed raw os ns)

  passing :
      (raw : List V)
      → All IsPrediction raw
      → All (λ item. is_object json item ≡ true) raw × All (λ item. is_numeric json item ≡ true) raw
  passing [] all = (tt, tt)
  passing (item ∷ raw) ((p, h), all) =
      let (o, n) = passing raw all in
      (
        (HasProbability-object item p h, o),
        (rw (is_numeric, HasProbability-number item p h) refl, n),
      )

  list-cases :
      (o : Option V) (raw : List V)
      → list_or_empty json o ≡ some raw
      → (o ≡ none) × (raw ≡ []) ⊎ (v : V) × (o ≡ some v) × (json.as_list v ≡ some raw)
  list-cases none raw h = inl (refl, sym (some_inj.0 h))
  list-cases (some v) raw h = inr (v, refl, h)

  list-made :
      (o : Option V) (raw : List V)
      → (o ≡ none) × (raw ≡ []) ⊎ (v : V) × (o ≡ some v) × (json.as_list v ≡ some raw)
      → list_or_empty json o ≡ some raw
  list-made o raw (inl (e, q)) = rw (e, q) refl
  list-made o raw (inr (v, e, q)) = rw e q

  pub Passes-IsReadable :
      (value : Dict Text V) (raw : List V) → Passes value raw → IsReadable value raw
  Passes-IsReadable value raw (e, o, n) =
      (list-cases (get (codes "predictions") value) raw e, passed raw o n)

  pub IsReadable-Passes :
      (value : Dict Text V) (raw : List V) → IsReadable value raw → Passes value raw
  IsReadable-Passes value raw (c, all) =
      let (o, n) = passing raw all in (list-made (get (codes "predictions") value) raw c, o, n)

  module _ (min_risk : F) where
    is_risky-test :
        (item : V) (p : F) → HasProbability item p → is_risky json min_risk item ≡ fl.le min_risk p
    is_risky-test item p h = rw (is_risky, HasProbability-number item p h) refl

    is_risky-IsRisky :
        (item : V) → IsPrediction item → is_risky json min_risk item ≡ true → IsRisky min_risk item
    is_risky-IsRisky item (p, h) e = (p, h, sym (is_risky-test item p h) ∙ e)

    IsRisky-is_risky : (item : V) → IsRisky min_risk item → is_risky json min_risk item ≡ true
    IsRisky-is_risky item (p, h, l) = is_risky-test item p h ∙ l

    pub keep-Selected :
        (raw : List V)
        → All IsPrediction raw
        → Selected (IsRisky min_risk) raw (keep (is_risky json min_risk) raw)
    keep-Selected [] all = Selected.nothing
    keep-Selected (item ∷ raw) (h, all) = elim (Bool-cases (is_risky json min_risk item)) [
      | inl e ↦ rw e (Selected.chosen (is_risky-IsRisky item h e) (keep-Selected raw all))
      | inr e ↦ rw e (
          Selected.left_out (λ r. let t = IsRisky-is_risky item r in clash e t)
            (keep-Selected raw all))
    ]

    pub Selected-keep :
        (raw risky : List V)
        → All IsPrediction raw
        → Selected (IsRisky min_risk) raw risky
        → keep (is_risky json min_risk) raw ≡ risky
    Selected-keep [] risky all Selected.nothing = refl
    Selected-keep (x ∷ xs) (_ ∷ ys) (h, all) (Selected.chosen r s) =
        rw (IsRisky-is_risky x r) (ap (λ l. x ∷ l) (Selected-keep xs ys all s))
    Selected-keep (x ∷ xs) ys (h, all) (Selected.left_out n s) =
        elim (Bool-cases (is_risky json min_risk x)) [
          | inl e ↦ absurd (n (is_risky-IsRisky x h e))
          | inr e ↦ rw e (Selected-keep xs ys all s)
        ]
