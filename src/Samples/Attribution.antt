-- ===== src/Samples/Attribution.antt =====
-- A registry with two executions, and a sink with a queue for two events.
use conflict_graph.Prelude.{
  ℕ, is_empty, if◌then◌else◌, true, ◌||◌, ℕ, ◌≡◌, refl, false, List, [], ◌∷◌, ◌++◌, foldl,
}
use conflict_graph.Prelude.Text.{Text, codes}
use conflict_graph.Types.Enums.{ResourceType, Operation, AccessMode, EventSource}
use conflict_graph.Types.Events.{TraceEvent}
use conflict_graph.Tracing.Registry.{
  ExecutionRegistration, AttributionRegistry, empty_registry, Command, obey, unregister, resolve,
}
use conflict_graph.Tracing.Registry.Walk.{ran_out, resolve_total}
use conflict_graph.Tracing.Registry.Stale.{names, unregister-resolve}
use conflict_graph.Tracing.Sink.{Handled, EventSink, new_sink, Turn, turn}
use conflict_graph.Tracing.Delivered.{normalized, accepted, stop_among, sink_in_order}
use conflict_graph.Tracing.Account.{IsSound, sink-IsSound}

abbrev registration : Text → ℕ → ℕ → ExecutionRegistration
registration name cgroup pid = record {
  execution_id = name;
  test_id = name;
  cgroup_id = cgroup;
  process_group_id = pid;
  root_pid = pid;
  registered_at_ns = 1;
}

-- `e` runs as 10 with a child 11; 20 and 21 are one another's parents.
abbrev running : AttributionRegistry
running = foldl obey empty_registry (
    Command.enter (registration (codes "e") 7 10)
    ∷ Command.fork 10 11
    ∷ Command.fork 20 21
    ∷ Command.fork 21 20
    ∷ [])

abbrev afterwards : List Command
afterwards =
    Command.enter (registration (codes "f") 8 12) ∷ Command.fork 11 13 ∷ Command.attribute 7 11 ∷ []

unregister-resolve_example :
    names (codes "e") (resolve 7 13 (foldl obey (unregister (codes "e") running) afterwards)).0
    ≡ false
unregister-resolve_example =
    unregister-resolve (codes "e") running afterwards 7 13 (refl, (refl, (refl, tt)))

resolve_total_example : ran_out (resolve 0 20 running).0 ≡ false
resolve_total_example = resolve_total running 0 20

abbrev pub event : Text → ResourceType → Text → Operation → AccessMode → TraceEvent
event test_id type identifier operation mode = record {
  execution_id = codes "x";
  test_id = test_id;
  timestamp_ns = 5;
  pid = 10;
  tid = 10;
  cgroup_id = 0;
  resource_type = type;
  resource_identifier = identifier;
  operation = operation;
  access_mode = mode;
  source = EventSource.replay;
  sequence = 0;
}

abbrev reading : Text → TraceEvent
reading name = event name ResourceType.file (codes "/f") Operation.read AccessMode.read

-- An event of no test ends the writer.
abbrev handled : TraceEvent → Handled
handled e = if is_empty e.test_id then Handled.raised else Handled.kept e

-- The third event finds the queue full, and the second ends the writer.
abbrev turns : List Turn
turns =
    Turn.submits (reading (codes "a"))
    ∷ Turn.submits (reading [])
    ∷ Turn.submits (reading (codes "c"))
    ∷ Turn.consumes
    ∷ Turn.consumes
    ∷ Turn.submits (reading (codes "d"))
    ∷ []

abbrev afterwards_sink : EventSink
afterwards_sink = foldl (turn handled) (new_sink 2) turns

sink_in_order_example :
    (afterwards_sink.written
        ++ (if afterwards_sink.failed then [] else normalized handled afterwards_sink.waiting)
      ≡ normalized handled (accepted handled (new_sink 2) turns))
    × ((afterwards_sink.failed || stop_among handled afterwards_sink.waiting)
        ≡ stop_among handled (accepted handled (new_sink 2) turns))
sink_in_order_example = sink_in_order handled 2 turns

sink-IsSound_example : IsSound handled afterwards_sink
sink-IsSound_example = sink-IsSound handled 2 turns

-- The writer wrote one event and has ended.
one_written : (afterwards_sink.quality.processed ≡ 1) × (afterwards_sink.failed ≡ true)
unfolding turn
one_written = (refl, refl)
