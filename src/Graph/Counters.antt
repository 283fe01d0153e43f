-- ===== src/Graph/Counters.antt =====
-- The counters of `pair_features` of python/conflictgraph/graph.py, to which its loop over the shared
-- resources adds.
use conflict_graph.Prelude.{ℕ, ◌+◌, Bool, ◌&&◌, ◌||◌, List, if◌then◌else◌, map, sort_by, same}
use conflict_graph.Prelude.Text.{Text, text_lt, codes, ends_with}
use conflict_graph.Prelude.Sets.{contains}
use conflict_graph.Types.Enums.{ResourceType, Operation, operation_eq, resource_type_eq}
use conflict_graph.Types.Events.{ResourceIdentity}
use conflict_graph.Graph.Access.{AccessAggregate, mutating}

pub record Counters : Type 0 where
  pub shared_files : ℕ
  pub shared_writes : ℕ
  pub read_write : ℕ
  pub write_write : ℕ
  pub create_create : ℕ
  pub delete_read : ℕ
  pub shared_bind : ℕ
  pub shared_locks : ℕ
  pub shared_redis_writes : ℕ
  pub shared_unix_sockets : ℕ
  pub shared_databases : ℕ

abbrev pub no_counts : Counters
no_counts = record {
  shared_files = 0;
  shared_writes = 0;
  read_write = 0;
  write_write = 0;
  create_create = 0;
  delete_read = 0;
  shared_bind = 0;
  shared_locks = 0;
  shared_redis_writes = 0;
  shared_unix_sockets = 0;
  shared_databases = 0;
}

-- n += 1 under a test
abbrev pub bump : Bool → ℕ → ℕ
bump b n = if b then n + 1 else n

abbrev pub operations_of : AccessAggregate → List Operation
operations_of a = map (λ p. p.0) a.counts

-- operation.value
unfoldable pub operation_value : Operation → Text
operation_value Operation.read = codes "READ"
operation_value Operation.write = codes "WRITE"
operation_value Operation.create = codes "CREATE"
operation_value Operation.delete = codes "DELETE"
operation_value Operation.lock = codes "LOCK"
operation_value Operation.rename = codes "RENAME"
operation_value Operation.bind = codes "BIND"
operation_value Operation.listen = codes "LISTEN"
operation_value Operation.connect = codes "CONNECT"
operation_value Operation.exec = codes "EXEC"
operation_value Operation.spawn = codes "SPAWN"
operation_value Operation.exit = codes "EXIT"

-- sorted(op.value for op in operations)
unfoldable pub operation_names : AccessAggregate → List Text
unfolding operation_value
operation_names a = sort_by text_lt (map operation_value (operations_of a))

abbrev pub does : Operation → AccessAggregate → Bool
does o a = contains o (operations_of a)

unfoldable pub is_database : ResourceIdentity → Bool
is_database r =
    same r.type ResourceType.database_resource
    || (ends_with (codes ".db") r.identifier
        || (ends_with (codes ".sqlite") r.identifier || ends_with (codes ".sqlite3") r.identifier))

-- The counters after one shared resource.
unfoldable pub count_resource :
    ResourceIdentity → AccessAggregate → AccessAggregate → Counters → Counters
unfolding is_database mutating
count_resource r left right c =
    let writes_a = mutating left in
    let writes_b = mutating right in
    let readers_a = does Operation.read left in
    let readers_b = does Operation.read right in
    record {
      shared_files =
          bump (same r.type ResourceType.file || same r.type ResourceType.directory) c.shared_files;
      shared_writes = bump (writes_a || writes_b) c.shared_writes;
      read_write = bump (writes_a && readers_b || writes_b && readers_a) c.read_write;
      write_write = bump (writes_a && writes_b) c.write_write;
      create_create =
          bump (does Operation.create left && does Operation.create right) c.create_create;
      delete_read =
          bump (does Operation.delete left && readers_b || does Operation.delete right && readers_a)
            c.delete_read;
      shared_bind = bump (does Operation.bind left && does Operation.bind right) c.shared_bind;
      shared_locks = bump (does Operation.lock left && does Operation.lock right) c.shared_locks;
      shared_redis_writes =
          bump (same r.type ResourceType.redis_key && (writes_a && writes_b)) c.shared_redis_writes;
      shared_unix_sockets = bump (same r.type ResourceType.unix_socket) c.shared_unix_sockets;
      shared_databases = bump (is_database r) c.shared_databases;
    }
