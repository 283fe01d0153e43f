-- ===== src/Types/NodeId.antt =====
-- `TestIdentity.from_pytest_nodeid` of python/conflictgraph/types.py.
pub mod Parsed
use conflict_graph.Prelude.{
  ℕ, Bool, true, false, not, ◌&&◌, Option, none, some, List, [], ◌∷◌, ◌++◌, ltb, ◌==◌, length,
  if◌then◌else◌,
}
use conflict_graph.Prelude.Text.{Text, codes, ends_with}
use conflict_graph.Prelude.Strings.{cut, onto_first}
use conflict_graph.Types.Stats.{TestIdentity}

-- node_id.split("::")
abbrev pub split_double : Text → List Text
split_double [] = [] ∷ []
split_double (c ∷ []) = (c ∷ []) ∷ []
split_double (c ∷ d ∷ text) =
    let here = split_double text in
    let later = split_double (d ∷ text) in
    if c == 58 && d == 58 then [] ∷ here else onto_first c later

-- parts[-1]
abbrev pub last_part : Text → List Text → Text
last_part first [] = first
last_part first (part ∷ parts) = last_part part parts

-- parts[1] if len(parts) > 2 else ""
abbrev pub class_of : List Text → Text
class_of (part ∷ next ∷ parts) = part
class_of _ = []

-- The two sides of partition("[")
abbrev pub sides : Text → Option (Text × Text) → Text × Text
sides raw none = (raw, [])
sides raw (some (function, params)) = (function, params)

-- text[:-1]
abbrev pub but_last : Text → Text
but_last [] = []
but_last (c ∷ []) = []
but_last (c ∷ d ∷ text) = c ∷ but_last (d ∷ text)

abbrev pub parameters_of : Text → Text
parameters_of params = if ends_with (codes "]") params then but_last params else params

abbrev pub first_part : List Text → Text
first_part [] = []
first_part (part ∷ parts) = part

abbrev pub later_parts : List Text → List Text
later_parts [] = []
later_parts (part ∷ parts) = parts

-- raw_function of the parts
abbrev pub raw_of : List Text → Text
raw_of parts = last_part (first_part parts) (later_parts parts)

-- raw_function.partition("[")
abbrev pub function_of : Text → Text × Text
function_of raw = sides raw (cut 91 raw)

-- `digest` is the first 24 digits of the SHA-256 of a text.
unfoldable pub from_pytest_nodeid : (Text → Text) → Text → Text → Text → TestIdentity
from_pytest_nodeid digest node_id repository revision =
    let parts = split_double node_id in
    let split = function_of (raw_of parts) in
    record {
      id = codes "test_" ++ digest (repository ++ 0 ∷ codes "pytest" ++ 0 ∷ node_id);
      node_id = node_id;
      repository = repository;
      suite = codes "pytest";
      framework = codes "pytest";
      test_file = first_part parts;
      test_class = class_of (later_parts parts);
      test_function = split.0;
      parameters = parameters_of split.1;
      source_revision = revision;
    }
