-- ===== src/Samples/Identifiers.antt =====
-- Identifiers of resources, normalized with ASCII's spaces and digits.
use conflict_graph.Prelude.{
  ℕ, ◌+◌, ◌-◌, ◌*◌, ◌≡◌, ◌≢◌, refl, Bool, false, ◌&&◌, Option, none, some, [], ◌∷◌, leb, ◌==◌,
  if◌then◌else◌,
}
use conflict_graph.Prelude.Int.{ℤ, pos}
use conflict_graph.Prelude.Text.{Text, codes}
use conflict_graph.Types.Enums.{ResourceType, Operation}
use conflict_graph.Graph.Heuristic.{decimal_from}
use conflict_graph.Normalize.Path.{Python, NormalizationPolicy, normalize_path}
use conflict_graph.Normalize.{index_error, present, redis, process, endpoint, normalize_identifier}
use conflict_graph.Normalize.Again.{process_raises}
use conflict_graph.Normalize.Clean.{IsClean, normalize_path-IsClean}

abbrev pub ascii_space : ℕ → Bool
ascii_space c = c == 32

abbrev ascii_digit : ℕ → Bool
ascii_digit c = leb 48 c && leb c 57

abbrev number : ℕ → Text → Option ℤ
number n [] = some (pos n)
number n (c ∷ cs) = let rest = number (n * 10 + (c - 48)) cs in if ascii_digit c then rest else none

abbrev python : Python
python = record {
  is_space = ascii_space;
  is_digit = ascii_digit;
  is_decimal = ascii_digit;
  lower = λ t. t;
  int = number 0;
  ip_address = λ host. some (record { is_loopback = false; compressed = host });
  sha256 = λ t. t;
}

abbrev policy : NormalizationPolicy
policy = record {
  exclude_prefixes = codes "/proc" ∷ codes "/usr/lib" ∷ [];
  redact_paths = false;
  hash_salt = [];
  repository_root = none;
  include_readonly_system = false;
  ignored_suffixes = codes ".so" ∷ [];
  loopback_alias = codes "127.0.0.1";
}

abbrev raw_path : Text
raw_path = codes " tmp/../var//./pytest-12/a.db "

raw_path-normal :
    normalize_path python policy raw_path Operation.write ≡ some (codes "/var/$RUN_TMP/a.db")
unfolding normalize_path
raw_path-normal = refl

ignored : normalize_path python policy (codes "/usr/./lib/x") Operation.read ≡ none
unfolding normalize_path
ignored = refl

reached :
    endpoint python policy (codes "tcp:10.0.0.1:80") ResourceType.tcp_endpoint
    ≡ some (codes "TCP:10.0.0.1:80")
unfolding endpoint decimal_from
reached = refl

executed :
    normalize_identifier python policy ResourceType.process (codes "/bin/sh -c x") Operation.exec
    ≡ present (codes "EXEC:sh")
unfolding normalize_identifier
executed = refl

normalize_path-IsClean_example : IsClean (codes "/var/$RUN_TMP/a.db")
normalize_path-IsClean_example =
    normalize_path-IsClean python policy raw_path (codes "/var/$RUN_TMP/a.db") Operation.write refl
      refl raw_path-normal

key-normal : redis python (codes " 2:jobs") ≡ some (codes "REDIS:2:jobs")
unfolding redis
key-normal = refl

process_raises_example :
    (process python (0 ∷ codes "x") ≡ index_error) × (process python (codes "sh") ≢ index_error)
process_raises_example = process_raises python (codes "x") (codes "sh") refl refl
