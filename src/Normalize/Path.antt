-- ===== src/Normalize/Path.antt =====
-- `NormalizationPolicy` and `ResourceNormalizer._path` of python/conflictgraph/normalize.py, with
-- `posixpath.normpath` and `PurePosixPath`.
use conflict_graph.Prelude.{
  ℕ, Bool, true, false, not, ◌&&◌, ◌||◌, Option, none, some, List, [], ◌∷◌, ◌++◌, map, keep, any,
  is_empty, leb, ltb, ◌==◌, length, drop, same, if◌then◌else◌,
}
use conflict_graph.Prelude.Int.{ℤ}
use conflict_graph.Prelude.Text.{Text, text_eq, codes, starts_with, ends_with}
use conflict_graph.Prelude.Strings.{strip, all_of, split_on, join, replace_character}
use conflict_graph.Types.Enums.{Operation, operation_eq}

-- ipaddress.ip_address(…)
pub record Address : Type 0 where
  pub is_loopback : Bool
  pub compressed : Text

-- What is called of Python's library; `none` is a ValueError.
pub record Python : Type 0 where
  pub is_space : ℕ → Bool
  pub is_digit : ℕ → Bool
  pub is_decimal : ℕ → Bool
  pub lower : Text → Text
  pub int : Text → Option ℤ
  pub ip_address : Text → Option Address
  pub sha256 : Text → Text

pub record NormalizationPolicy : Type 0 where
  pub exclude_prefixes : List Text
  pub redact_paths : Bool
  pub hash_salt : Text
  pub repository_root : Option Text
  pub include_readonly_system : Bool
  pub ignored_suffixes : List Text
  pub loopback_alias : Text

-- The slashes that a path begins with: two stay two, and more are one.
abbrev pub slashes : Text → Text
slashes path =
    if starts_with (codes "/") path
    then (if starts_with (codes "//") path && not (starts_with (codes "///") path)
        then codes "//"
        else codes "/")
    else []

-- A component that stands for no directory of its own.
abbrev pub is_nothing : Text → Bool
is_nothing part = is_empty part || same part (codes ".")

-- The loop of normpath; the components so far are the last one first.
abbrev pub enter : Bool → List Text → Text → List Text
enter absolute [] part =
    if is_nothing part || (absolute && same part (codes "..")) then [] else part ∷ []
enter absolute (last ∷ before) part =
    if is_nothing part
    then last ∷ before
    else if same part (codes "..") && not (same last (codes ".."))
    then before
    else part ∷ last ∷ before

abbrev pub components : Bool → List Text → List Text → List Text
components absolute entered [] = entered
components absolute entered (part ∷ parts) = components absolute (enter absolute entered part) parts

abbrev pub reversed : List Text → List Text → List Text
reversed [] onto = onto
reversed (x ∷ xs) onto = reversed xs (x ∷ onto)

abbrev pub or_dot : Text → Text
or_dot path = if is_empty path then codes "." else path

-- posixpath.normpath
unfoldable pub normpath : Text → Text
normpath path = or_dot (
    slashes path
    ++ join 47 (reversed (components (starts_with (codes "/") path) [] (split_on 47 path)) []))

-- value == prefix or value.startswith(prefix + "/")
abbrev pub is_below : Text → Text → Bool
is_below value prefix = same value prefix || starts_with (prefix ++ codes "/") value

abbrev pub without_newline : Text → Text
without_newline part = if ends_with (codes "\n") part then drop_last part else part
  where
    drop_last : Text → Text
    drop_last [] = []
    drop_last (c ∷ []) = []
    drop_last (c ∷ d ∷ cs) = c ∷ drop_last (d ∷ cs)

abbrev pub is_temporary_character : ℕ → Bool
is_temporary_character c =
    (leb 97 c && leb c 122)
    || (leb 65 c && leb c 90)
    || (leb 48 c && leb c 57)
    || c == 95
    || c == 45

-- operation == Operation.READ
abbrev pub is_read : Operation → Bool
is_read Operation.read = true
is_read _ = false

module _ (py : Python) where
  -- The patterns of _EPHEMERAL_SEGMENTS; their $ lets a newline follow.
  abbrev pub is_run_number : Text → Bool
  is_run_number digits =
      let rest = without_newline digits in not (is_empty rest) && all_of py.is_decimal rest

  abbrev pub is_temporary_name : Text → Bool
  is_temporary_name name =
      let rest = without_newline name in leb 6 (length rest) && all_of is_temporary_character rest

  unfoldable pub is_ephemeral : Text → Bool
  is_ephemeral part =
      (starts_with (codes "pytest-of-") part && ltb 10 (length part))
      || (starts_with (codes "pytest-") part && is_run_number (drop 7 part))
      || (starts_with (codes "tmp") part && is_temporary_name (drop 3 part))

  abbrev pub stable_part : Text → Text
  stable_part part = if is_ephemeral part then codes "$RUN_TMP" else part

  -- str(PurePosixPath(*parts)) of the changed parts of PurePosixPath(value)
  unfoldable pub stable_path : Text → Text
  unfolding is_ephemeral
  stable_path value = or_dot (
      slashes value
      ++ join 47 (map stable_part (keep (λ part. not (is_nothing part)) (split_on 47 value))))

  module _ (policy : NormalizationPolicy) where
    abbrev pub is_excluded : Text → Bool
    is_excluded value = any (λ prefix. is_below value (normpath prefix)) policy.exclude_prefixes

    -- A file of the system that is only read.
    unfoldable pub is_ignored : Text → Operation → Bool
    unfolding normpath
    is_ignored value operation =
        is_read operation
        && not policy.include_readonly_system
        && (is_excluded value || any (λ suffix. ends_with suffix value) policy.ignored_suffixes)

    abbrev pub below_root : Text → Text → Text
    below_root root value =
        if is_below value root then codes "$REPO" ++ drop (length root) value else value

    abbrev pub in_repository : Option Text → Text → Text
    in_repository none value = value
    in_repository (some root) value =
        if is_empty root then value else below_root (normpath (replace_character 92 47 root)) value

    abbrev pub redacted : Text → Text
    redacted value =
        if policy.redact_paths
        then codes "sha256:" ++ py.sha256 (policy.hash_salt ++ 0 ∷ value)
        else value

    abbrev pub absolute : Text → Text
    absolute value = if starts_with (codes "/") value then value else codes "/" ++ value

    abbrev pub is_unknown : Text → Bool
    is_unknown value =
        is_empty value || same value (codes "(null)") || same value (codes "<unknown>")

    -- `_path`
    unfoldable pub normalize_path : Text → Operation → Option Text
    unfolding normpath stable_path is_ignored
    normalize_path raw operation =
        let value = replace_character 92 47 (strip py.is_space raw) in
        let path = normpath (absolute value) in
        if is_unknown value || is_ignored path operation
        then none
        else some (redacted (stable_path (in_repository policy.repository_root path)))
