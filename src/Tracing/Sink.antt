-- ===== src/Tracing/Sink.antt =====
-- `EventSink`, `ReplayTracer.replay` and `require_quality` of python/conflictgraph/tracing.py. One
-- thread that submits and the writer meet in a bounded queue: their turns are an explicit sequence.
-- `submit` counts without a lock, so that the counts of several such threads could be lost; they are
-- not modelled. What becomes of an event when it is normalized and written is a parameter.
use conflict_graph.Prelude.{
  ℕ, ◌+◌, Bool, true, false, not, ◌&&◌, Option, none, some, List, [], ◌∷◌, ◌++◌, ltb, if◌then◌else◌,
  length, is_empty, ◌>>=◌,
}
use conflict_graph.Prelude.Float.{Float, lt}
use conflict_graph.Types.Events.{TraceEvent, TraceQuality, no_events, score}

-- What normalizing an event, and writing it, ends with: the event as it is delivered, none, one of the
-- errors that `replay` counts (ValueError, TypeError, KeyError), or another error.
pub data Handled : Type 0 where
  kept : TraceEvent → Handled
  filtered refused raised : Handled

-- `failed` is whether the writer has ended by an error.
pub record EventSink : Type 0 where
  pub capacity : ℕ
  pub quality : TraceQuality
  pub waiting : List TraceEvent
  pub written : List TraceEvent
  pub failed : Bool

abbrev pub new_sink : ℕ → EventSink
new_sink capacity = record {
  capacity = capacity;
  quality = no_events;
  waiting = [];
  written = [];
  failed = false;
}

-- Queue.full: a capacity of 0 is no bound.
abbrev pub full : EventSink → Bool
full s = ltb 0 s.capacity && not (ltb (length s.waiting) s.capacity)

unfoldable pub submit : TraceEvent → EventSink → Bool × EventSink
submit event s =
    let q = s.quality in
    if full s
    then (
      false,
      record s { quality = record q { captured = q.captured + 1; dropped = q.dropped + 1 } },
    )
    else (
      true,
      record s {
        quality = record q { captured = q.captured + 1 };
        waiting = s.waiting ++ event ∷ [];
      },
    )

-- The counts of an event that gets to the consumer.
abbrev pub counted : TraceEvent → TraceQuality → TraceQuality
counted event q = record q {
  processed = q.processed + 1;
  unattributed = if is_empty event.test_id then q.unattributed + 1 else q.unattributed;
}

abbrev pub stopped : List TraceEvent → EventSink → EventSink
stopped rest s = record s { waiting = rest; failed = true }

abbrev pub consumed : Handled → List TraceEvent → EventSink → EventSink
consumed Handled.filtered rest s = record s { waiting = rest }
consumed (Handled.kept event) rest s = record s {
  quality = counted event s.quality;
  waiting = rest;
  written = s.written ++ event ∷ [];
}
consumed Handled.refused rest s = stopped rest s
consumed Handled.raised rest s = stopped rest s

abbrev pub taken : (TraceEvent → Handled) → List TraceEvent → EventSink → EventSink
taken handle [] s = s
taken handle (event ∷ rest) s = consumed (handle event) rest s

-- A turn of `_consume`: with nothing to get, the writer waits; after an error there is no writer.
unfoldable pub consume : (TraceEvent → Handled) → EventSink → EventSink
consume handle s = let next = taken handle s.waiting s in if s.failed then s else next

-- A turn of a submitting thread or of the writer.
pub data Turn : Type 0 where
  submits : TraceEvent → Turn
  consumes : Turn

unfoldable pub turn : (TraceEvent → Handled) → EventSink → Turn → EventSink
unfolding submit consume
turn handle s (submits event) = (submit event s).1
turn handle s consumes = consume handle s

pub record Replay : Type 0 where
  pub quality : TraceQuality
  pub delivered : List TraceEvent

abbrev pub unparsed : Replay → Replay
unparsed r =
    let q = r.quality in record r { quality = record q { parse_failures = q.parse_failures + 1 } }

abbrev pub delivered_to : Handled → Replay → Option Replay
delivered_to Handled.filtered r = some r
delivered_to (Handled.kept event) r =
    some (record r { quality = counted event r.quality; delivered = r.delivered ++ event ∷ [] })
delivered_to Handled.refused r = some (unparsed r)
delivered_to Handled.raised r = none

abbrev pub captured_one : Replay → Replay
captured_one r = let q = r.quality in record r { quality = record q { captured = q.captured + 1 } }

-- A line of the recording that is not blank, as it parses.
unfoldable pub replay_line : (TraceEvent → Handled) → Option TraceEvent → Replay → Option Replay
replay_line handle none r = some (unparsed (captured_one r))
replay_line handle (some event) r = delivered_to (handle event) (captured_one r)

unfoldable pub replay_lines :
    (TraceEvent → Handled) → List (Option TraceEvent) → Replay → Option Replay
unfolding replay_line
replay_lines handle [] r = some r
replay_lines handle (line ∷ lines) r = do
  next ← replay_line handle line r
  replay_lines handle lines next

-- `none` is an error that `replay` does not catch.
unfoldable pub replay : (TraceEvent → Handled) → List (Option TraceEvent) → Option Replay
unfolding replay_lines
replay handle lines = replay_lines handle lines (record { quality = no_events; delivered = [] })

-- require_quality: whether it returns without a TraceQualityError
unfoldable pub require_quality : {F : Type 0} ⦃fl : Float F⦄ → TraceQuality → F → Bool
require_quality quality minimum = not (lt (score quality) minimum)
