-- ===== src/Types/Enums.antt =====
-- The enumerations of python/conflictgraph/types.py.
use conflict_graph.Prelude.{Eq, of_discrete}

pub data ResourceType : Type 0 where
  file directory tcp_endpoint udp_endpoint unix_socket file_lock process redis_key : ResourceType
  database_resource other_logical_resource : ResourceType

pub data Operation : Type 0 where
  read write create delete lock rename bind listen connect exec spawn exit : Operation

pub data AccessMode : Type 0 where
  read write exclusive shared execute unknown : AccessMode

pub data EventSource : Type 0 where
  ebpf replay redis_adapter pytest_plugin : EventSource

pub data ConflictCause : Type 0 where
  file_collision port_collision file_lock database_lock unix_socket_collision : ConflictCause
  shared_state resource_contention unknown : ConflictCause

pub data RiskPolicy : Type 0 where
  aggressive balanced safe : RiskPolicy

pub data ExecutionStatus : Type 0 where
  pending running passed failed timed_out cancelled infra_error : ExecutionStatus

ResourceType-discrete : Discrete ResourceType
ResourceType-discrete = hlevel

instance abbrev pub resource_type_eq : Eq ResourceType
unfolding ResourceType-discrete
resource_type_eq = of_discrete ResourceType-discrete

Operation-discrete : Discrete Operation
Operation-discrete = hlevel

instance abbrev pub operation_eq : Eq Operation
unfolding Operation-discrete
operation_eq = of_discrete Operation-discrete

AccessMode-discrete : Discrete AccessMode
AccessMode-discrete = hlevel

instance abbrev pub access_mode_eq : Eq AccessMode
unfolding AccessMode-discrete
access_mode_eq = of_discrete AccessMode-discrete

ConflictCause-discrete : Discrete ConflictCause
ConflictCause-discrete = hlevel

instance abbrev pub conflict_cause_eq : Eq ConflictCause
unfolding ConflictCause-discrete
conflict_cause_eq = of_discrete ConflictCause-discrete

EventSource-discrete : Discrete EventSource
EventSource-discrete = hlevel

instance abbrev pub event_source_eq : Eq EventSource
unfolding EventSource-discrete
event_source_eq = of_discrete EventSource-discrete
