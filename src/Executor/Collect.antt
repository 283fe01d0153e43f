-- ===== src/Executor/Collect.antt =====
-- `PytestAdapter` of python/conflictgraph/executor.py: what `collect` makes of the output of pytest,
-- and the environment that processes get.
use conflict_graph.Prelude.{
  ℕ, Bool, false, not, ◌&&◌, ◌||◌, Option, none, some, List, [], ◌∷◌, map, keep, is_empty, ◌==◌,
  ltb, length, foldl, if◌then◌else◌,
}
use conflict_graph.Prelude.Int.{ℤ, pos, negsuc}
use conflict_graph.Prelude.Text.{Text, text_eq, codes, starts_with}
use conflict_graph.Prelude.Dict.{Dict, put, has}
use conflict_graph.Prelude.Strings.{all_of}
use conflict_graph.Types.Stats.{TestIdentity}
use conflict_graph.Types.NodeId.{from_pytest_nodeid}
use conflict_graph.Executor.Outcome.{Strings}

-- The completed process.
pub record Completed : Type 0 where
  pub returncode : ℤ
  pub stdout : Text
  pub stderr : Text

-- returncode in {0, 5}
abbrev pub is_collected : ℤ → Bool
is_collected (pos n) = n == 0 || n == 5
is_collected (negsuc n) = false

abbrev pub is_no_tests : ℤ → Bool
is_no_tests (pos n) = n == 5
is_no_tests (negsuc n) = false

-- "::" with a character before it and one after it
abbrev pub has_separator : Text → Bool
has_separator [] = false
has_separator (c ∷ text) =
    (starts_with (codes "::") text && ltb 2 (length text)) || has_separator text

module _ (is_space : ℕ → Bool) (str : Strings) (digest : Text → Text) where
  -- _NODE_LINE.match(candidate) and not candidate.startswith(("=", "<"))
  abbrev pub is_node_line : Text → Bool
  is_node_line candidate =
      all_of (λ c. not (is_space c)) candidate
      && has_separator candidate
      && not (starts_with (codes "=") candidate || starts_with (codes "<") candidate)

  abbrev pub identified : Text → TestIdentity
  identified line = from_pytest_nodeid digest line (codes "local") (codes "unknown")

  abbrev pub collected_tests : Text → List TestIdentity
  collected_tests stdout =
      map identified (keep is_node_line (map str.strip (str.splitlines stdout)))

  -- `collect`, of a process that could be run or none; `none` is the ExecutionError.
  unfoldable pub collect : Option Completed → Option (List TestIdentity)
  collect none = none
  collect (some completed) =
      let tests = collected_tests completed.stdout in
      if not (is_collected completed.returncode)
      then none
      else if is_empty tests && not (is_no_tests completed.returncode)
      then none
      else some tests

-- environment.update(values)
abbrev pub updated_with : List (Text × Text) → Dict Text Text → Dict Text Text
updated_with values environment = foldl (λ d p. put p.0 p.1 d) environment values

-- `_environment`, with the process's own environment
unfoldable pub environment_of : Dict Text Text → List (Text × Text) → Dict Text Text
environment_of own configured =
    let updated = updated_with configured own in
    if has (codes "PYTHONHASHSEED") updated
    then updated
    else put (codes "PYTHONHASHSEED") (codes "0") updated
