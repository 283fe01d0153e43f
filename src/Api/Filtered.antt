-- ===== src/Api/Filtered.antt =====
-- The stored graph that `graph` answers: its predictions are filtered, the rest is left.
use conflict_graph.Prelude.{
  ℕ, ◌≡◌, ◌↔◌, refl, subst, arith, Bool, true, false, not, Option, some, none, List, [], ◌∷◌, any,
  take, keep, Bool-cases, inl, inr, All, is_empty, ◌⊎◌, if◌then◌else◌,
}
use conflict_graph.Prelude.Text.{Text, text_eq, codes}
use conflict_graph.Prelude.Dict.{Dict, get, put}
use conflict_graph.Prelude.Float.{Float}
use conflict_graph.Storage.{Files, Answer, returned, load}
use conflict_graph.Api.{
  Json, Response, answered, failed, is_object, is_numeric, is_risky, list_or_empty,
  graph_predictions, filtered_graph, or_fail, from_store, stored_object, empty_answer, graph,
}
use conflict_graph.Api.Risky.{
  Selected, IsRisky, IsReadable, Passes, Passes-IsReadable, IsReadable-Passes, keep-Selected,
  Selected-keep,
}
use conflict_graph.Api.Answers.{>>=-answered, from_store-answered}

if-answered {ℓ} :
    {A : Type ℓ} (b : Bool) (status : ℕ) (detail : Text) {m : Response A} {a : A}
    → (if b then failed status detail else m) ≡ answered a
    → (b ≡ false) × (m ≡ answered a)
if-answered true status detail h = cc
if-answered false status detail h = (refl, h)

or_fail-answered {ℓ} :
    {A : Type ℓ} (m : Option A) (status : ℕ) (detail : Text) {a : A}
    → or_fail status detail m ≡ answered a
    → m ≡ some a
or_fail-answered none status detail h = cc
or_fail-answered (some a) status detail h = cc

any-false :
    {A : Type 0} (p : A → Bool) (xs : List A)
    → any (λ x. not (p x)) xs ≡ false
    → All (λ x. p x ≡ true) xs
any-false p [] h = _
any-false p (x ∷ xs) h = elim (Bool-cases (p x)) [
  | inl e ↦ (e, any-false p xs (ground arith))
  | inr e ↦ cc
]

any-all :
    {A : Type 0} (p : A → Bool) (xs : List A)
    → All (λ x. p x ≡ true) xs
    → any (λ x. not (p x)) xs ≡ false
any-all p [] h = refl
any-all p (x ∷ xs) (e, h) = rw e (any-all p xs h)

module _ {F V : Type 0} ⦃fl : Float F⦄ (json : Json F V) where
  graph_predictions-answered :
      (value : Dict Text V) (raw : List V)
      → graph_predictions json value ≡ answered raw
      → Passes json value raw
  unfolding graph_predictions
  graph_predictions-answered value raw h =
      let (found, e, h1) =
        >>=-answered
          (or_fail 503 (codes "graph predictions are malformed")
            (list_or_empty json (get (codes "predictions") value)))
          _ h in
      let (objects, h2) = if-answered (any (λ item. not (is_object json item)) found) _ _ h1 in
      let (numbers, h3) = if-answered (any (λ item. not (is_numeric json item)) found) _ _ h2 in
      let same : found ≡ raw = cc in
      subst (Passes json value) same (
        or_fail-answered (list_or_empty json (get (codes "predictions") value)) _ _ e,
        any-false (is_object json) found objects,
        any-false (is_numeric json) found numbers,
      )

  read-graph_predictions :
      (value : Dict Text V) (raw : List V)
      → Passes json value raw
      → graph_predictions json value ≡ answered raw
  unfolding graph_predictions
  read-graph_predictions value raw (e, objects, numbers) =
      rw (e, any-all (is_object json) raw objects, any-all (is_numeric json) raw numbers) refl

  -- The graph with the first `limit` of its predictions at `min_risk` or above for its predictions.
  abbrev pub IsFiltered : F → ℕ → Dict Text V → Dict Text V → Type 0
  IsFiltered min_risk limit value after =
      (raw : List V) × (risky : List V) × IsReadable json value raw
      × Selected (IsRisky json min_risk) raw risky
      × (put (codes "predictions") (json.of_list (take limit risky)) value ≡ after)

  filtered_graph-IsFiltered :
      (min_risk : F) (limit : ℕ) (value after : Dict Text V)
      → filtered_graph json min_risk limit value ≡ answered after
      → IsFiltered min_risk limit value after
  unfolding filtered_graph
  filtered_graph-IsFiltered min_risk limit value after h =
      let (raw, m, h1) = >>=-answered (graph_predictions json value) _ h in
      let readable = Passes-IsReadable json value raw (graph_predictions-answered value raw m) in
      (
        raw,
        keep (is_risky json min_risk) raw,
        readable,
        keep-Selected json min_risk raw readable.1,
        cc,
      )

  IsFiltered-answered :
      (min_risk : F) (limit : ℕ) (value after : Dict Text V)
      → IsFiltered min_risk limit value after
      → filtered_graph json min_risk limit value ≡ answered after
  unfolding filtered_graph
  IsFiltered-answered min_risk limit value after (raw, risky, readable, s, e) =
      let read = read-graph_predictions value raw (IsReadable-Passes json value raw readable) in
      rw (read, Selected-keep json min_risk raw risky readable.1 s, e) refl

  module _ (is_alnum : ℕ → Bool) (of_bool : Bool → V) where
    -- What `graph` answers of what is stored: the empty answer when that is empty.
    abbrev pub IsAnswer : F → ℕ → Dict Text V → Dict Text V → Type 0
    IsAnswer min_risk limit value after =
        ((is_empty value ≡ true) × (empty_answer json of_bool ≡ after))
        ⊎ ((is_empty value ≡ false) × IsFiltered min_risk limit value after)

    unfoldable answer_of : F → ℕ → Dict Text V → Response (Dict Text V)
    unfolding filtered_graph
    answer_of min_risk limit value =
        if is_empty value
        then answered (empty_answer json of_bool)
        else filtered_graph json min_risk limit value

    answer_of-IsAnswer :
        (min_risk : F) (limit : ℕ) (value after : Dict Text V)
        → answer_of min_risk limit value ≡ answered after
        → IsAnswer min_risk limit value after
    unfolding answer_of
    answer_of-IsAnswer min_risk limit value after h = elim (Bool-cases (is_empty value)) [
      | inl e ↦ inl (e, cc)
      | inr e ↦ inr (e, filtered_graph-IsFiltered min_risk limit value after cc)
    ]

    IsAnswer-answer_of :
        (min_risk : F) (limit : ℕ) (value after : Dict Text V)
        → IsAnswer min_risk limit value after
        → answer_of min_risk limit value ≡ answered after
    unfolding answer_of
    IsAnswer-answer_of min_risk limit value after (inl (e, q)) = rw (e, q) refl
    IsAnswer-answer_of min_risk limit value after (inr (e, filtered)) =
        rw e (IsFiltered-answered min_risk limit value after filtered)

    abbrev latest : Files → Answer (Option V)
    unfolding load
    latest files = load is_alnum json.loads (is_object json) (codes "graphs") (codes "latest") files

    -- `graph` answers with a graph exactly if the stored artifact, or the lack of one, was read, and:
    -- it is missing or empty, and the answer is the empty one; or its predictions are a list of
    -- objects, each with a number for a probability, or with none, which counts as 0, and the answer
    -- is the stored graph with the first `limit` of those of a probability of `min_risk` or more, in
    -- their order, for its predictions. Otherwise it answers with an error.
    pub graph-answered_iff :
        (files : Files) (min_risk : F) (limit : ℕ) (after : Dict Text V)
        → (graph json is_alnum of_bool files min_risk limit ≡ answered after) ↔ (
            (stored : Option V) × (load is_alnum json.loads
                (is_object json)
                (codes "graphs")
                (codes "latest")
                files
              ≡ returned stored)
            × IsAnswer min_risk limit (stored_object json stored) after)
    unfolding graph answer_of
    graph-answered_iff files min_risk limit after = (
      λ h.
          let (stored, e, h1) = >>=-answered (from_store (latest files)) _ h in
          (
            stored,
            from_store-answered (latest files) e,
            answer_of-IsAnswer min_risk limit (stored_object json stored) after h1,
          ),
      λ (stored, e, a).
          rw e (IsAnswer-answer_of min_risk limit (stored_object json stored) after a),
    )
