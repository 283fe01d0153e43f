-- ===== src/Types/Events.antt =====
-- `ResourceIdentity`, `TraceEvent` and `TraceQuality` of python/conflictgraph/types.py, and
-- `is_mutating` of python/conflictgraph/normalize.py.
use conflict_graph.Prelude.{ℕ, ◌+◌, Bool, true, false, ◌||◌, ◌++◌, ◌∷◌, ◌==◌, if◌then◌else◌}
use conflict_graph.Prelude.Text.{Text, codes}
use conflict_graph.Prelude.Float.{Float, nought, unit, fmin, fmax}
use conflict_graph.Types.Enums.{ResourceType, Operation, AccessMode, EventSource}

pub record ResourceIdentity : Type 0 where
  pub id : Text
  pub type : ResourceType
  pub identifier : Text
  pub redacted : Bool

-- resource_type.value
unfoldable pub type_value : ResourceType → Text
type_value ResourceType.file = codes "FILE"
type_value ResourceType.directory = codes "DIRECTORY"
type_value ResourceType.tcp_endpoint = codes "TCP_ENDPOINT"
type_value ResourceType.udp_endpoint = codes "UDP_ENDPOINT"
type_value ResourceType.unix_socket = codes "UNIX_SOCKET"
type_value ResourceType.file_lock = codes "FILE_LOCK"
type_value ResourceType.process = codes "PROCESS"
type_value ResourceType.redis_key = codes "REDIS_KEY"
type_value ResourceType.database_resource = codes "DATABASE_RESOURCE"
type_value ResourceType.other_logical_resource = codes "OTHER_LOGICAL_RESOURCE"

-- ResourceIdentity.create; `digest` is the first 24 digits of the SHA-256 of a text.
unfoldable pub create_resource : (Text → Text) → ResourceType → Text → Bool → ResourceIdentity
unfolding type_value
create_resource digest type identifier redacted = record {
  id = codes "res_" ++ digest (type_value type ++ 0 ∷ identifier);
  type = type;
  identifier = identifier;
  redacted = redacted;
}

pub record TraceEvent : Type 0 where
  pub execution_id : Text
  pub test_id : Text
  pub timestamp_ns : ℕ
  pub pid : ℕ
  pub tid : ℕ
  pub cgroup_id : ℕ
  pub resource_type : ResourceType
  pub resource_identifier : Text
  pub operation : Operation
  pub access_mode : AccessMode
  pub source : EventSource
  pub sequence : ℕ

pub record TraceQuality : Type 0 where
  pub captured : ℕ
  pub processed : ℕ
  pub dropped : ℕ
  pub unattributed : ℕ
  pub parse_failures : ℕ

abbrev pub no_events : TraceQuality
no_events = record {
  captured = 0;
  processed = 0;
  dropped = 0;
  unattributed = 0;
  parse_failures = 0;
}

module _ {F : Type 0} ⦃fl : Float F⦄ where
  open fl use {lit, sub, mul, div}

  abbrev pub of_ℕ : ℕ → F
  of_ℕ n = lit n 0

  unfoldable pub completeness : TraceQuality → F
  completeness q =
      let denominator = q.captured + q.dropped in
      if denominator == 0 then unit else div (of_ℕ q.processed) (of_ℕ denominator)

  unfoldable pub attribution_rate : TraceQuality → F
  attribution_rate q =
      if q.processed == 0 then unit else sub unit (div (of_ℕ q.unattributed) (of_ℕ q.processed))

  unfoldable pub score : TraceQuality → F
  unfolding completeness attribution_rate
  score q = fmax nought (fmin unit (mul (completeness q) (attribution_rate q)))

unfoldable pub mutating_operation : Operation → Bool
mutating_operation Operation.write = true
mutating_operation Operation.create = true
mutating_operation Operation.delete = true
mutating_operation Operation.rename = true
mutating_operation Operation.bind = true
mutating_operation Operation.lock = true
mutating_operation _ = false

unfoldable pub mutating_mode : AccessMode → Bool
mutating_mode AccessMode.write = true
mutating_mode AccessMode.exclusive = true
mutating_mode _ = false

unfoldable pub is_mutating : Operation → AccessMode → Bool
unfolding mutating_operation mutating_mode
is_mutating operation mode = mutating_operation operation || mutating_mode mode
