-- ===== src/Tracing/Delivered.antt =====
-- What the event sink delivers: the events that it took, in order, up to the error that ends its writer.
use conflict_graph.Prelude.{
  ℕ, ◌≡◌, refl, sym, ap, ◌∙◌, Bool, List, [], ◌∷◌, ◌++◌, if◌then◌else◌, if_ind, true, false, ◌||◌,
  foldl, arith, Bool-cases, inl, inr, append-nil, append_assoc,
}
use conflict_graph.Types.Events.{TraceEvent}
use conflict_graph.Tracing.Sink.{
  Handled, EventSink, new_sink, full, submit, consumed, taken, consume, Turn, turn,
}

-- The error that ends the writer.
abbrev stops : Handled → Bool
stops (Handled.kept event) = false
stops Handled.filtered = false
stops Handled.refused = true
stops Handled.raised = true

-- What an event gives, before what those after it give.
abbrev put_first : Handled → List TraceEvent → List TraceEvent
put_first (Handled.kept event) events = event ∷ events
put_first Handled.filtered events = events
put_first Handled.refused events = []
put_first Handled.raised events = []

put_first-append :
    (h : Handled) (xs ys : List TraceEvent)
    → put_first h xs ++ (if stops h then [] else ys) ≡ put_first h (xs ++ ys)
put_first-append (Handled.kept e) xs ys = refl
put_first-append Handled.filtered xs ys = refl
put_first-append Handled.refused xs ys = refl
put_first-append Handled.raised xs ys = refl

or_assoc : (a b c : Bool) → ((a || b) || c) ≡ (a || (b || c))
or_assoc true b c = refl
or_assoc false b c = refl

module _ (handle : TraceEvent → Handled) where
  -- The events as they are delivered, without those that are filtered out, up to the first that ends
  -- the writer.
  abbrev pub normalized : List TraceEvent → List TraceEvent
  normalized [] = []
  normalized (event ∷ events) = put_first (handle event) (normalized events)

  -- Whether one of the events ends the writer.
  abbrev pub stop_among : List TraceEvent → Bool
  stop_among [] = false
  stop_among (event ∷ events) = stops (handle event) || stop_among events

  put_all-append :
      (h : Handled) (b : Bool) (xs ys : List TraceEvent)
      → put_first h (xs ++ (if b then [] else ys))
        ≡ put_first h xs ++ (if stops h || b then [] else ys)
  put_all-append (Handled.kept e) b xs ys = refl
  put_all-append Handled.filtered b xs ys = refl
  put_all-append Handled.refused b xs ys = refl
  put_all-append Handled.raised b xs ys = refl

  normalized-append :
      (xs ys : List TraceEvent)
      → normalized (xs ++ ys) ≡ normalized xs ++ (if stop_among xs then [] else normalized ys)
  normalized-append [] ys = refl
  normalized-append (x ∷ xs) ys =
      ap (put_first (handle x)) (normalized-append xs ys)
      ∙ put_all-append (handle x) (stop_among xs) (normalized xs) (normalized ys)

  -- The events of a sequence of turns that `submit` takes.
  abbrev accepted_then : Bool → Turn → List TraceEvent → List TraceEvent
  accepted_then full (Turn.submits event) rest = if full then rest else event ∷ rest
  accepted_then full Turn.consumes rest = rest

  abbrev pub accepted : EventSink → List Turn → List TraceEvent
  accepted s [] = []
  accepted s (t ∷ turns) = accepted_then (full s) t (accepted (turn handle s t) turns)

  -- What has been written and what is to be written of the events that wait.
  abbrev pub output : EventSink → List TraceEvent
  output s = s.written ++ (if s.failed then [] else normalized s.waiting)

  -- Whether the writer has ended, or will when it gets to the events that wait.
  abbrev pub ends : EventSink → Bool
  ends s = s.failed || stop_among s.waiting

  consumed-output :
      (h : Handled) (rest : List TraceEvent) (s : EventSink)
      → s.failed ≡ false
      → output (consumed h rest s) ≡ s.written ++ put_first h (normalized rest)
  consumed-output (Handled.kept e) rest s f =
      rw f (append_assoc s.written (e ∷ []) (normalized rest))
  consumed-output Handled.filtered rest s f = rw f refl
  consumed-output Handled.refused rest s f = refl
  consumed-output Handled.raised rest s f = refl

  consumed-ends :
      (h : Handled) (rest : List TraceEvent) (s : EventSink)
      → s.failed ≡ false
      → ends (consumed h rest s) ≡ (stops h || stop_among rest)
  consumed-ends (Handled.kept e) rest s f = rw f refl
  consumed-ends Handled.filtered rest s f = rw f refl
  consumed-ends Handled.refused rest s f = refl
  consumed-ends Handled.raised rest s f = refl

  -- A sink whose output and end are those of another.
  abbrev Alike : EventSink → EventSink → Type 0
  Alike t s = (output t ≡ output s) × (ends t ≡ ends s)

  taken-Alike :
      (waiting : List TraceEvent) (s : EventSink)
      → s.waiting ≡ waiting
      → s.failed ≡ false
      → Alike (taken handle waiting s) s
  taken-Alike [] s e f = (refl, refl)
  taken-Alike (event ∷ rest) s e f = (
    consumed-output (handle event) rest s f ∙ rw (e, f) refl,
    consumed-ends (handle event) rest s f ∙ rw (e, f) refl,
  )

  consume-Alike : (s : EventSink) → Alike (consume handle s) s
  unfolding consume
  consume-Alike s =
      if_ind {A = EventSink} (λ t. Alike t s) s.failed s (taken handle s.waiting s)
        (λ f. (refl, refl)) (taken-Alike s.waiting s refl)

  submit-full : (s : EventSink) (event : TraceEvent) → full s ≡ true → Alike (submit event s).1 s
  unfolding submit
  submit-full s event e = rw e (refl, refl)

  submit-output :
      (s : EventSink) (event : TraceEvent)
      → full s ≡ false
      → output (submit event s).1 ≡ output s ++ (if ends s then [] else normalized (event ∷ []))
  unfolding submit
  submit-output s event e = elim (Bool-cases s.failed) [
    | inl f ↦ rw (e, f) (sym (append-nil _))
    | inr f ↦
        rw (e, f, normalized-append s.waiting (event ∷ []))
          (sym (append_assoc s.written (normalized s.waiting) _))
  ]

  stop_among-append :
      (xs : List TraceEvent) (event : TraceEvent)
      → stop_among (xs ++ event ∷ []) ≡ (stop_among xs || stops (handle event))
  stop_among-append [] event = ground arith
  stop_among-append (x ∷ xs) event = ground (arith, stop_among-append xs event)

  submit-ends :
      (s : EventSink) (event : TraceEvent)
      → full s ≡ false
      → ends (submit event s).1 ≡ (ends s || stops (handle event))
  unfolding submit
  submit-ends s event e = elim (Bool-cases s.failed) [
    | inl f ↦ rw (e, f) refl
    | inr f ↦ rw (e, f) (stop_among-append s.waiting event)
  ]

  -- What the sink makes of some more events.
  abbrev Makes : EventSink → List TraceEvent → EventSink → Type 0
  Makes s events t =
      (output t ≡ output s ++ (if ends s then [] else normalized events))
      × (ends t ≡ (ends s || stop_among events))

  nothing_more : (o : List TraceEvent) (b : Bool) → o ≡ o ++ (if b then [] else [])
  nothing_more o true = sym (append-nil o)
  nothing_more o false = sym (append-nil o)

  Makes-nothing : (s : EventSink) → Makes s [] s
  Makes-nothing s = (nothing_more (output s) (ends s), ground arith)

  Makes-Alike :
      (s t u : EventSink) (events : List TraceEvent)
      → Alike t s
      → Makes t events u
      → Makes s events u
  Makes-Alike s t u events (a, b) (m, n) = (
    m
        ∙ ap (λ o. o ++ (if ends t then [] else normalized events)) a
        ∙ ap (λ e. output s ++ (if e then [] else normalized events)) b,
    n ∙ ap (λ e. e || stop_among events) b,
  )

  one_more :
      (o : List TraceEvent) (b : Bool) (h : Handled) (more : List TraceEvent)
      → (o ++ (if b then [] else put_first h [])) ++ (if b || stops h then [] else more)
        ≡ o ++ (if b then [] else put_first h more)
  one_more o true h more = append-nil (o ++ [])
  one_more o false h more =
      append_assoc o (put_first h []) (if stops h then [] else more)
      ∙ ap (λ l. o ++ l) (put_first-append h [] more)

  Makes-more :
      (s t u : EventSink) (event : TraceEvent) (events : List TraceEvent)
      → output t ≡ output s ++ (if ends s then [] else normalized (event ∷ []))
      → ends t ≡ (ends s || stops (handle event))
      → Makes t events u
      → Makes s (event ∷ events) u
  Makes-more s t u event events a b (m, n) = (
    m
        ∙ ap (λ o. o ++ (if ends t then [] else normalized events)) a
        ∙ ap
            (λ e.
              (output s ++ (if ends s then [] else normalized (event ∷ [])))
              ++ (if e then [] else normalized events))
            b
        ∙ one_more (output s) (ends s) (handle event) (normalized events),
    n
        ∙ ap (λ e. e || stop_among events) b
        ∙ or_assoc (ends s) (stops (handle event)) (stop_among events),
  )

  run-Makes :
      (s : EventSink) (turns : List Turn) → Makes s (accepted s turns) (foldl (turn handle) s turns)
  unfolding turn
  run-Makes s [] = Makes-nothing s
  run-Makes s (Turn.consumes ∷ turns) =
      Makes-Alike s (consume handle s) (foldl (turn handle) (consume handle s) turns) _
        (consume-Alike s) (run-Makes (consume handle s) turns)
  run-Makes s (Turn.submits event ∷ turns) =
      let t = (submit event s).1 in
      let rest = run-Makes t turns in
      elim (Bool-cases (full s)) [
        | inl e ↦
            rw e (Makes-Alike s t (foldl (turn handle) t turns) _ (submit-full s event e) rest)
        | inr e ↦ rw e (
            Makes-more s t (foldl (turn handle) t turns) event _ (submit-output s event e)
              (submit-ends s event e) rest)
      ]

  -- In any interleaving of the submissions of one thread with the writer, on a queue of any
  -- capacity, where events may
  -- end the writer by an error: what has been written, with what a writer that has not ended is still
  -- to write of the waiting events, is the events that `submit` accepted, as they are delivered, in
  -- the order of submission, up to the first that ends the writer. None of these is lost, repeated or
  -- overtaken, and no refused one is written. The writer has ended, or will at a waiting event,
  -- exactly if one of the accepted events ends it.
  pub sink_in_order :
      (capacity : ℕ) (turns : List Turn)
      → let end = foldl (turn handle) (new_sink capacity) turns in
        let events = accepted (new_sink capacity) turns in
        (end.written ++ (if end.failed then [] else normalized end.waiting) ≡ normalized events)
        × ((end.failed || stop_among end.waiting) ≡ stop_among events)
  sink_in_order capacity turns = run-Makes (new_sink capacity) turns
