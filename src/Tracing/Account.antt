-- ===== src/Tracing/Account.antt =====
-- The accounts of the event sink add up.
use conflict_graph.Prelude.{
  ℕ, suc, ◌+◌, ◌≤◌, ◌<◌, ◌≡◌, refl, ap, List, [], ◌∷◌, if_ind, length, foldl, arith, Bool-cases,
  inl, inr, length-append,
}
use conflict_graph.Types.Events.{TraceEvent}
use conflict_graph.Tracing.Sink.{
  Handled, stopped, EventSink, new_sink, full, submit, consumed, taken, consume, Turn, turn,
}

module _ (handle : TraceEvent → Handled) where
  -- The accounts of the sink.
  pub record IsSound (s : EventSink) : Type 0 where
    pub bounded : 0 < s.capacity → length s.waiting ≤ s.capacity
    pub written_all : s.quality.processed ≡ length s.written
    pub accounted : s.quality.processed + length s.waiting + s.quality.dropped ≤ s.quality.captured
    pub attributed : s.quality.unattributed ≤ s.quality.processed
    pub parsed : s.quality.parse_failures ≡ 0

  submit-IsSound : (event : TraceEvent) (s : EventSink) → IsSound s → IsSound (submit event s).1
  unfolding submit
  submit-IsSound event s c = elim (Bool-cases (full s)) [
    | inl e ↦ rw e (record {
      bounded = c.bounded;
      written_all = c.written_all;
      accounted = let h = c.accounted in omega arith;
      attributed = c.attributed;
      parsed = c.parsed;
    })
    | inr e ↦ rw e (record {
      bounded = λ h. ground (arith, length-append s.waiting (event ∷ []));
      written_all = c.written_all;
      accounted = let h = c.accounted in ground (arith, length-append s.waiting (event ∷ []));
      attributed = c.attributed;
      parsed = c.parsed;
    })
  ]

  stopped-IsSound :
      (event : TraceEvent) (rest : List TraceEvent) (s : EventSink)
      → s.waiting ≡ event ∷ rest
      → IsSound s
      → IsSound (stopped rest s)
  stopped-IsSound event rest s e c =
      let shorter : length s.waiting ≡ suc (length rest) = ap length e in
      record {
        bounded = λ h. let b = c.bounded h in omega arith;
        written_all = c.written_all;
        accounted = let h = c.accounted in omega arith;
        attributed = c.attributed;
        parsed = c.parsed;
      }

  consumed-IsSound :
      (o : Handled) (event : TraceEvent) (rest : List TraceEvent) (s : EventSink)
      → s.waiting ≡ event ∷ rest
      → IsSound s
      → IsSound (consumed o rest s)
  consumed-IsSound Handled.filtered event rest s e c =
      let shorter : length s.waiting ≡ suc (length rest) = ap length e in
      record {
        bounded = λ h. let b = c.bounded h in omega arith;
        written_all = c.written_all;
        accounted = let h = c.accounted in omega arith;
        attributed = c.attributed;
        parsed = c.parsed;
      }
  consumed-IsSound (Handled.kept out) event rest s e c =
      let shorter : length s.waiting ≡ suc (length rest) = ap length e in
      record {
        bounded = λ h. let b = c.bounded h in omega arith;
        written_all = ground (arith, c.written_all, length-append s.written (out ∷ []));
        accounted = let h = c.accounted in omega arith;
        attributed = let h = c.attributed in ground arith;
        parsed = c.parsed;
      }
  consumed-IsSound Handled.refused event rest s e c = stopped-IsSound event rest s e c
  consumed-IsSound Handled.raised event rest s e c = stopped-IsSound event rest s e c

  taken-IsSound :
      (waiting : List TraceEvent) (s : EventSink)
      → s.waiting ≡ waiting
      → IsSound s
      → IsSound (taken handle waiting s)
  taken-IsSound [] s e c = c
  taken-IsSound (event ∷ rest) s e c = consumed-IsSound (handle event) event rest s e c

  run-IsSound :
      (s : EventSink) (turns : List Turn) → IsSound s → IsSound (foldl (turn handle) s turns)
  unfolding turn consume
  run-IsSound s [] c = c
  run-IsSound s (Turn.consumes ∷ turns) c = run-IsSound (consume handle s) turns (
      if_ind {A = EventSink} IsSound s.failed s (taken handle s.waiting s) (λ f. c)
        (λ f. taken-IsSound s.waiting s refl c))
  run-IsSound s (Turn.submits event ∷ turns) c =
      run-IsSound (submit event s).1 turns (submit-IsSound event s c)

  -- In any interleaving of the submissions of one thread with the writer, which may end by an error,
  -- the queue of a sink with a capacity never
  -- holds more events than that, the number of processed events is that of the written ones, the
  -- processed, waiting and dropped events together are at most the captured ones, the unattributed
  -- ones are among the processed, and nothing counts as a parse failure.
  pub sink-IsSound :
      (capacity : ℕ) (turns : List Turn) → IsSound (foldl (turn handle) (new_sink capacity) turns)
  sink-IsSound capacity turns = run-IsSound (new_sink capacity) turns (record {
    bounded = λ h. omega arith;
    written_all = refl;
    accounted = omega arith;
    attributed = omega arith;
    parsed = refl;
  })
