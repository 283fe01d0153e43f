-- ===== src/Api.antt =====
-- The handlers of python/conflictgraph/api.py. The database is a parameter, and so is json, whose
-- values are seen through a `Json`; FastAPI checks the ranges of the numbers in a query before them.
pub mod Answers
pub mod Benchmarks
pub mod Counters
pub mod Filtered
pub mod Risky
use conflict_graph.Prelude.{
  ℕ, ◌+◌, Bool, true, false, not, ◌||◌, Option, none, some, List, [], ◌∷◌, any, keep, take,
  is_empty, if◌then◌else◌, pair_eq, nat_eq,
}
use conflict_graph.Prelude.Int.{pos}
use conflict_graph.Prelude.Text.{Text, text_eq, codes, starts_with}
use conflict_graph.Prelude.Dict.{Dict, get, put}
use conflict_graph.Prelude.Float.{Float, nought}
use conflict_graph.Storage.{Files, Answer, raised, returned, Failure, load, list_artifacts}

-- An HTTP response: a value, or an error by its status and detail.
pub data Response {ℓ} (A : Type ℓ) : Type ℓ where
  answered : A → Response A
  failed : ℕ → Text → Response A

infixl 5 ◌>>=◌
abbrev pub ◌>>=◌ {ℓ κ} : {A : Type ℓ} {B : Type κ} → Response A → (A → Response B) → Response B
answered a >>= f = f a
failed status detail >>= f = failed status detail

-- `storage_exception`: a StorageError becomes a 503.
abbrev pub from_store {ℓ} : {A : Type ℓ} → Answer A → Response A
from_store (raised f) = failed 503 (codes "storage_unavailable")
from_store (returned a) = answered a

abbrev pub or_fail {ℓ} : {A : Type ℓ} → ℕ → Text → Option A → Response A
or_fail status detail none = failed status detail
or_fail status detail (some a) = answered a

-- What the code asks of the values of json: isinstance, `==`, and the dict with lists in it. `loads`
-- is none on a JSONDecodeError.
pub record Json (F V : Type 0) : Type 0 where
  pub loads : Text → Option V
  pub as_object : V → Option (Dict Text V)
  pub as_list : V → Option (List V)
  pub as_number : V → Option F
  pub equal : Option V → Option V → Bool
  pub of_object : Dict Text V → V
  pub of_list : List V → V

-- The database, where one is connected.
pub record Database (V : Type 0) : Type 0 where
  pub recent_runs : ℕ → Answer (List V)
  pub run_detail : Text → Answer (Option V)

abbrev pub is_object : {F V : Type 0} → Json F V → V → Bool
is_object json value = elim (json.as_object value) [ none ↦ false | some d ↦ true ]

module _ {F V : Type 0} ⦃fl : Float F⦄ (json : Json F V) where
  -- item.get(name), of a value that is an object
  abbrev pub field_of : Text → V → Option V
  field_of name item = elim (json.as_object item) [ none ↦ none | some d ↦ get name d ]

  -- item.get("created_at") == current.get("created_at")
  abbrev pub same_report : V → V → Bool
  same_report current item =
      json.equal (field_of (codes "created_at") item) (field_of (codes "created_at") current)

  -- The object that the text of a file is.
  abbrev pub read_object : Text → Text → Text → Response V
  read_object corrupt other text = do
    value ← or_fail 503 corrupt (json.loads text)
    if is_object json value then answered value else failed 503 other

  abbrev pub with_current : V → List V → List V
  with_current current reports =
      if any (same_report current) reports then reports else current ∷ reports

  abbrev pub merged : Option Text → List V → Response (List V)
  merged none reports = answered reports
  merged (some text) reports = do
    current ←
        read_object (codes "benchmark report is corrupt")
          (codes "benchmark report must be an object") text
    answered (with_current current reports)

  -- `models`; the argument is the text of metadata.json, if that exists.
  unfoldable pub models : Option Text → Response (List V)
  models none = answered []
  models (some text) = do
    value ←
        read_object (codes "active model metadata is corrupt")
          (codes "active model metadata must be an object") text
    answered (value ∷ [])

  abbrev pub list_or_empty : Option V → Option (List V)
  list_or_empty none = some []
  list_or_empty (some value) = json.as_list value

  -- item.get("probability", 0), where `none` is a value that is no number
  abbrev pub number_of : Option V → Option F
  number_of none = some nought
  number_of (some value) = json.as_number value

  abbrev pub probability_of : V → Option F
  probability_of item = number_of (field_of (codes "probability") item)

  abbrev pub is_numeric : V → Bool
  is_numeric item = elim (probability_of item) [ none ↦ false | some p ↦ true ]

  abbrev pub is_risky : F → V → Bool
  is_risky min_risk item = elim (probability_of item) [ none ↦ false | some p ↦ fl.le min_risk p ]

  -- The predictions of the graph, once they are seen to be objects with numbers.
  unfoldable pub graph_predictions : Dict Text V → Response (List V)
  graph_predictions value = do
    raw ←
        or_fail 503 (codes "graph predictions are malformed")
          (list_or_empty (get (codes "predictions") value))
    if any (λ item. not (is_object json item)) raw
        then failed 503 (codes "graph predictions are malformed")
        else if any (λ item. not (is_numeric item)) raw
        then failed 503 (codes "graph prediction probability is malformed")
        else answered raw

  -- The answer when no graph is stored, or an empty one.
  abbrev pub empty_answer : (Bool → V) → Dict Text V
  empty_answer of_bool =
      (codes "tests", json.of_list [])
      ∷ (codes "resources", json.of_list [])
      ∷ (codes "edges", json.of_list [])
      ∷ (codes "predictions", json.of_list [])
      ∷ (codes "empty", of_bool true)
      ∷ []

  -- {**value, "predictions": predictions}
  unfoldable pub filtered_graph : F → ℕ → Dict Text V → Response (Dict Text V)
  unfolding graph_predictions
  filtered_graph min_risk limit value = do
    raw ← graph_predictions value
    answered
        (put (codes "predictions") (json.of_list (take limit (keep (is_risky min_risk) raw))) value)

  abbrev pub stored_object : Option V → Dict Text V
  stored_object none = []
  stored_object (some value) = elim (json.as_object value) [ none ↦ [] | some d ↦ d ]

  module _ (is_alnum : ℕ → Bool) where
    -- `runs`
    unfoldable pub list_runs : Option (Database V) → Files → ℕ → Response (List V)
    unfolding list_artifacts
    list_runs none files limit =
        from_store
          (list_artifacts is_alnum json.loads (is_object json) (codes "runs") (pos limit) files)
    list_runs (some postgres) files limit = from_store (postgres.recent_runs limit)

    abbrev pub run_value : Option (Database V) → Files → Text → Answer (Option V)
    run_value none files run_id =
        load is_alnum json.loads (is_object json) (codes "runs") run_id files
    run_value (some postgres) files run_id = postgres.run_detail run_id

    unfoldable pub run_detail : Option (Database V) → Files → Text → Response V
    unfolding load
    run_detail postgres files run_id = do
      value ← from_store (run_value postgres files run_id)
      or_fail 404 (codes "run not found") value

    -- `benchmarks`; `default` is the text of benchmark.json, if that exists.
    unfoldable pub benchmarks : Option Text → Files → ℕ → Response (List V)
    unfolding list_artifacts
    benchmarks default files limit = do
      reports ← from_store (
          list_artifacts is_alnum json.loads (is_object json) (codes "benchmarks") (pos limit)
            files)
      all ← merged default reports
      answered (take limit all)

    -- `graph`
    unfoldable pub graph : (Bool → V) → Files → F → ℕ → Response (Dict Text V)
    unfolding load filtered_graph
    graph of_bool files min_risk limit = do
      stored ←
          from_store
            (load is_alnum json.loads (is_object json) (codes "graphs") (codes "latest") files)
      let value = stored_object stored
      if is_empty value
          then answered (empty_answer of_bool)
          else filtered_graph min_risk limit value
