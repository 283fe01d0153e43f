-- ===== src/Samples/Requests.antt =====
-- Requests to the API over stored values that are numbers, each printed as the character it is.
use conflict_graph.Prelude.{
  ℕ, ◌≡◌, ◌↔◌, ◌≤◌, refl, arith, Bool, true, false, Option, none, some, [], ◌∷◌, ◌==◌, any, length,
  if◌then◌else◌,
}
use conflict_graph.Prelude.Int.{ℤ, pos}
use conflict_graph.Prelude.Text.{Text, codes}
use conflict_graph.Prelude.Dict.{Dict}
use conflict_graph.Storage.{Files, returned, json_path, load}
use conflict_graph.Api.{Json, answered, is_object, same_report, stored_object, benchmarks, graph}
use conflict_graph.Api.Benchmarks.{benchmarks-current}
use conflict_graph.Api.Filtered.{IsAnswer, graph-answered_iff}
use conflict_graph.Samples.Milli.{milli}
use conflict_graph.Samples.Artifacts.{lower_case}

abbrev printed_number : ℕ → Option Text
printed_number v = some (v ∷ [])

abbrev first_of : Text → Option ℕ
first_of [] = none
first_of (c ∷ text) = some c

-- 2 and 3 are reports of the times 4 and 5; 6 is a graph with the predictions 7, which are 8 and 9,
-- of the probabilities 20 and 30; 21 is a list of 9.
abbrev object_of : ℕ → Option (Dict Text ℕ)
object_of v =
    if v == 2
    then some ((codes "created_at", 4) ∷ [])
    else if v == 3
    then some ((codes "created_at", 5) ∷ [])
    else if v == 6
    then some ((codes "tests", 22) ∷ (codes "predictions", 7) ∷ [])
    else if v == 8
    then some ((codes "probability", 20) ∷ [])
    else if v == 9
    then some ((codes "probability", 30) ∷ [])
    else none

abbrev same_number : Option ℕ → Option ℕ → Bool
same_number none none = true
same_number none (some w) = false
same_number (some v) none = false
same_number (some v) (some w) = v == w

abbrev numbers : Json ℤ ℕ
numbers = record {
  loads = first_of;
  as_object = object_of;
  as_list = λ v. if v == 7 then some (8 ∷ 9 ∷ []) else if v == 21 then some (9 ∷ []) else none;
  as_number = λ v. if v == 20 then some (pos 100) else if v == 30 then some (pos 900) else none;
  equal = same_number;
  of_object = λ d. 23;
  of_list = λ vs. if length vs == 1 then 21 else 22;
}

abbrev some_files : Files
some_files =
    (json_path (codes "benchmarks") (codes "a"), record { content = 3 ∷ []; modified = 1 })
    ∷ (json_path (codes "graphs") (codes "latest"), record { content = 6 ∷ []; modified = 2 })
    ∷ []

two_reports : benchmarks numbers lower_case (some (2 ∷ [])) some_files 5 ≡ answered (2 ∷ 3 ∷ [])
unfolding benchmarks
two_reports = refl

benchmarks-current_example :
    (length {A = ℕ} (2 ∷ 3 ∷ []) ≤ 5) × (any (same_report numbers 2) (2 ∷ 3 ∷ []) ≡ true)
benchmarks-current_example =
    benchmarks-current numbers lower_case (2 ∷ []) 2 some_files 5 (2 ∷ 3 ∷ []) refl refl refl
      (omega arith) two_reports

abbrev as_number_of : Bool → ℕ
as_number_of b = if b then 1 else 0

abbrev risky_graph : Dict Text ℕ
risky_graph = (codes "tests", 22) ∷ (codes "predictions", 21) ∷ []

graph_answered :
    graph numbers lower_case as_number_of some_files (pos 500) 10 ≡ answered risky_graph
unfolding graph
graph_answered = refl

graph-answered_iff_example :
    (graph numbers lower_case as_number_of some_files (pos 500) 10 ≡ answered risky_graph) ↔ (
      (value : Option ℕ) × (load lower_case first_of
          (is_object numbers)
          (codes "graphs")
          (codes "latest")
          some_files
        ≡ returned value)
      × IsAnswer numbers lower_case as_number_of
          (pos 500)
          10
          (stored_object numbers value)
          risky_graph)
graph-answered_iff_example =
    graph-answered_iff numbers lower_case as_number_of some_files (pos 500) 10 risky_graph
