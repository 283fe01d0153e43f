-- ===== src/Normalize.antt =====
-- `ResourceNormalizer` of python/conflictgraph/normalize.py but for its paths, which are in
-- Normalize/Path. What Python's `str`, `int`, `ipaddress` and `hashlib` answer is a parameter.
pub mod Path
pub mod Parts
pub mod Clean
pub mod Again
use conflict_graph.Prelude.{
  ℕ, Bool, true, false, not, ◌&&◌, ◌||◌, Option, none, some, List, [], ◌∷◌, ◌++◌, is_empty, leb,
  ltb, ◌==◌, length, ◌>>=◌, drop, drop_while, sort_by, if◌then◌else◌,
}
use conflict_graph.Prelude.Int.{ℤ, pos, negsuc}
use conflict_graph.Prelude.Text.{Text, codes, starts_with}
use conflict_graph.Prelude.Strings.{strip, drop_end, all_of, cut, cut_last, split_on}
use conflict_graph.Types.Enums.{ResourceType, Operation}
use conflict_graph.Types.Events.{ResourceIdentity, TraceEvent, create_resource}
use conflict_graph.Graph.Heuristic.{decimal}
use conflict_graph.Normalize.Path.{Python, NormalizationPolicy, Address, normalize_path}

-- What a normalizer answers: None, an identifier, or an IndexError.
pub data Answer : Type 0 where
  absent : Answer
  present : Text → Answer
  index_error : Answer

abbrev pub of_option : Option Text → Answer
of_option none = absent
of_option (some text) = present text

abbrev pub redis_of : Text → Text → Option Text
redis_of db key = if is_empty key then none else some (codes "REDIS:" ++ db ++ codes ":" ++ key)

-- text.split("\0", 1)[0]
abbrev pub before_nul : Text → Option (Text × Text) → Text
before_nul value none = value
before_nul value (some (before, after)) = before

-- os.path.basename
abbrev pub base_name : Text → Option (Text × Text) → Text
base_name path none = path
base_name path (some (directory, name)) = name

abbrev pub named : Text → Answer
named executable = if is_empty executable then absent else present (codes "EXEC:" ++ executable)

module _ (py : Python) where
  -- text.isdigit()
  abbrev pub is_digits : Text → Bool
  is_digits text = not (is_empty text) && all_of py.is_digit text

  abbrev pub redis_split : Text → Option (Text × Text) → Option Text
  redis_split value none = redis_of (codes "0") value
  redis_split value (some (db, key)) =
      if is_digits db then redis_of db key else redis_of (codes "0") value

  abbrev pub redis_stripped : Text → Option Text
  redis_stripped value = if is_empty value then none else redis_split value (cut 58 value)

  -- `_redis`
  unfoldable pub redis : Text → Option Text
  redis raw = redis_stripped (strip py.is_space raw)

  -- text.split(), its first word
  abbrev pub word : Text → Text
  word [] = []
  word (c ∷ cs) = let rest = word cs in if py.is_space c then [] else c ∷ rest

  abbrev pub process_named : Text → Answer
  process_named command =
      if is_empty command
      then index_error
      else named (base_name (word command) (cut_last 47 (word command)))

  abbrev pub process_stripped : Text → Answer
  process_stripped value =
      if is_empty value
      then absent
      else process_named (drop_while py.is_space (before_nul value (cut 0 value)))

  -- `_process`; the IndexError is that of split()[0] without a word.
  unfoldable pub process : Text → Answer
  process raw = process_stripped (strip py.is_space raw)

-- value[1:closing] and value[closing + 1:].lstrip(":")
abbrev pub bracketed : Option (Text × Text) → Option (Text × Text)
bracketed none = none
bracketed (some (host, rest)) = some (host, drop_while (λ c. c == 58) rest)

abbrev pub host_and_port : Text → Option (Text × Text)
host_and_port value =
    if starts_with (codes "[") value then bracketed (cut 93 (drop 1 value)) else cut_last 58 value

abbrev pub without_protocol : Text → Text → Text
without_protocol prefix value =
    if starts_with prefix value then drop (length prefix) value else value

-- The prefix that is taken off, and the one that is put on.
abbrev pub lower_protocol : ResourceType → Text
lower_protocol ResourceType.tcp_endpoint = codes "tcp:"
lower_protocol _ = codes "udp:"

abbrev pub upper_protocol : ResourceType → Text
upper_protocol ResourceType.tcp_endpoint = codes "TCP:"
upper_protocol _ = codes "UDP:"

-- 0 <= port <= 65535
abbrev pub port_in_range : ℤ → Option ℕ
port_in_range (negsuc n) = none
port_in_range (pos n) = if leb n 65535 then some n else none

module _ (py : Python) (policy : NormalizationPolicy) where
  abbrev pub host_name : Address → Text
  host_name address = if address.is_loopback then policy.loopback_alias else address.compressed

  -- `_endpoint`
  unfoldable pub endpoint : Text → ResourceType → Option Text
  endpoint raw kind = do
    (host, port) ←
        host_and_port (without_protocol (lower_protocol kind) (py.lower (strip py.is_space raw)))
    parsed ← py.int port
    number ← port_in_range parsed
    address ← py.ip_address (if is_empty host then codes "0.0.0.0" else host)
    some (upper_protocol kind ++ host_name address ++ codes ":" ++ decimal number)

  -- The last two lines of `normalize_identifier`.
  abbrev pub plain : Text → Option Text
  plain raw =
      let stripped = strip py.is_space raw in if is_empty stripped then none else some stripped

  unfoldable pub normalize_identifier : ResourceType → Text → Operation → Answer
  unfolding redis process endpoint
  normalize_identifier ResourceType.file raw operation =
      of_option (normalize_path py policy raw operation)
  normalize_identifier ResourceType.directory raw operation =
      of_option (normalize_path py policy raw operation)
  normalize_identifier ResourceType.file_lock raw operation =
      of_option (normalize_path py policy raw operation)
  normalize_identifier ResourceType.unix_socket raw operation =
      of_option (normalize_path py policy raw operation)
  normalize_identifier ResourceType.database_resource raw operation =
      of_option (normalize_path py policy raw operation)
  normalize_identifier ResourceType.tcp_endpoint raw operation =
      of_option (endpoint raw ResourceType.tcp_endpoint)
  normalize_identifier ResourceType.udp_endpoint raw operation =
      of_option (endpoint raw ResourceType.udp_endpoint)
  normalize_identifier ResourceType.redis_key raw operation = of_option (redis py raw)
  normalize_identifier ResourceType.process raw operation = process py raw
  normalize_identifier ResourceType.other_logical_resource raw operation = of_option (plain raw)

  abbrev pub event_with : TraceEvent → Answer → Option (Option TraceEvent)
  event_with event absent = some none
  event_with event (present identifier) =
      some (some (record event { resource_identifier = identifier }))
  event_with event index_error = none

  -- `none` is the IndexError.
  unfoldable pub normalize_event : TraceEvent → Option (Option TraceEvent)
  unfolding normalize_identifier
  normalize_event event =
      event_with event
        (normalize_identifier event.resource_type event.resource_identifier event.operation)

  unfoldable pub identity_for : (Text → Text) → TraceEvent → ResourceIdentity
  identity_for digest event =
      create_resource digest event.resource_type event.resource_identifier policy.redact_paths

  abbrev pub kept_events : List TraceEvent → Option (List TraceEvent)
  unfolding normalize_event
  kept_events [] = some []
  kept_events (event ∷ events) = do
    normalized ← normalize_event event
    rest ← kept_events events
    some (elim normalized [ none ↦ rest | some kept ↦ kept ∷ rest ])

  -- (timestamp_ns, sequence) below
  abbrev pub earlier : TraceEvent → TraceEvent → Bool
  earlier e f =
      ltb e.timestamp_ns f.timestamp_ns
      || (e.timestamp_ns == f.timestamp_ns && ltb e.sequence f.sequence)

  unfoldable pub normalize_events : List TraceEvent → Option (List TraceEvent)
  normalize_events events = do kept ← kept_events events; some (sort_by earlier kept)
