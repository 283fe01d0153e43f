-- ===== src/Graph/Access.antt =====
-- `AccessAggregate` of python/conflictgraph/graph.py.
use Prim.Native.Nat.{min, max}
use conflict_graph.Prelude.{
  ℕ, ◌+◌, ◌-◌, Bool, Option, none, some, List, [], ◌∷◌, ◌==◌, if◌then◌else◌, any, map,
}
use conflict_graph.Prelude.Text.{Text, text_eq}
use conflict_graph.Prelude.Dict.{Dict, get, put}
use conflict_graph.Prelude.Sets.{add_new}
use conflict_graph.Types.Enums.{
  Operation, AccessMode, EventSource, operation_eq, access_mode_eq, event_source_eq,
}
use conflict_graph.Types.Events.{ResourceIdentity, TraceEvent, is_mutating}

pub record AccessAggregate : Type 0 where
  pub test_id : Text
  pub resource : ResourceIdentity
  pub counts : Dict Operation ℕ
  pub modes : List AccessMode
  pub first_ns : ℕ
  pub last_ns : ℕ
  pub sources : List EventSource
  pub execution_ids : List Text

-- AccessAggregate(test_id, resource)
abbrev pub new_aggregate : Text → ResourceIdentity → AccessAggregate
new_aggregate test_id resource = record {
  test_id = test_id;
  resource = resource;
  counts = [];
  modes = [];
  first_ns = 0;
  last_ns = 0;
  sources = [];
  execution_ids = [];
}

abbrev count_or_zero : Option ℕ → ℕ
count_or_zero none = 0
count_or_zero (some n) = n

-- self.counts[operation] of a Counter
abbrev pub count_of : Operation → Dict Operation ℕ → ℕ
count_of operation counts = count_or_zero (get operation counts)

unfoldable pub observe : TraceEvent → AccessAggregate → AccessAggregate
observe event a = record a {
  counts = put event.operation (count_of event.operation a.counts + 1) a.counts;
  modes = add_new event.access_mode a.modes;
  first_ns = if a.first_ns == 0 then event.timestamp_ns else min a.first_ns event.timestamp_ns;
  last_ns = max a.last_ns event.timestamp_ns;
  sources = add_new event.source a.sources;
  execution_ids = add_new event.execution_id a.execution_ids;
}

-- sum(counts.values())
abbrev pub count_sum : Dict Operation ℕ → ℕ
count_sum [] = 0
count_sum ((o, n) ∷ rest) = n + count_sum rest

unfoldable pub total : AccessAggregate → ℕ
total a = count_sum a.counts

unfoldable pub mutating : AccessAggregate → Bool
unfolding is_mutating
mutating a = any (λ o. any (λ m. is_mutating o m) a.modes) (map (λ p. p.0) a.counts)

-- Subtraction on ℕ stops at 0, as `max(0, …)` does.
unfoldable pub active_ns : AccessAggregate → ℕ
active_ns a = a.last_ns - a.first_ns
