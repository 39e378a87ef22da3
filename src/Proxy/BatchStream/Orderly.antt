-- ===== src/Proxy/BatchStream/Orderly.antt =====
-- src/proxy.rs: every stream of `batch_response` is in order, and ends when its job does.
use kaiion.Prelude.{
  ℕ, ◌≡◌, refl, subst, str_eq, String, true, List, [], ◌∷◌, ◌++◌, Option, none, some, Result, ok,
  err, any, inl, inr, Bool-cases, and_then,
}
use kaiion.Json.{Value, Fields, Codec, get_field, as_str, object}
use kaiion.Domain.{
  JobState, StoredOutcome, completed, failed, incomplete, expired, cancelled, is_terminal, terminal,
}
use kaiion.Errors.{ProxyError}
use kaiion.Sse.{
  SseEvent, SseProgress, numbered, push_event, created_event, in_progress_event, failed_event,
  terminal_error_event, terminal_event, parsed_event, terminal_kind,
}
use kaiion.Sse.Numbers.{
  is_final_kind, Counted, push_event-Counted, Closes, completion_events-Closes, single-Closes,
  Counted-Closes, sequence_of-numbered,
}
use kaiion.Proxy.BatchStream.{
  Wake, heartbeat, changed, closed, Round, Stream, ongoing, ended, terminal_value,
  completion_or_failure, last_events, after_wake, after_read, stream_round, stream_rounds, opening,
  batch_stream,
}

-- A closing with any of the final kinds.
pub record Ends (first : ℕ) (es : List SseEvent) : Type 0 where
  pub kind : String
  pub is_final : is_final_kind kind ≡ true
  pub closes : Closes first kind es

-- An open stream has sent the numbers from 0 on and nothing final; a stream that ended sent the
-- numbers from 0 on, of which the last, and no other, is final.
abbrev pub Orderly : Stream → Type 0
Orderly (ongoing p) = Counted 0 p
Orderly (ended es) = Ends 0 es

failed_event-Ends :
    (response_id model : String) (n : ℕ) (message : String)
    → Ends n (failed_event response_id model n message ∷ [])
unfolding failed_event
failed_event-Ends response_id model n message = record {
  kind = "response.failed";
  is_final = refl;
  closes = single-Closes n "response.failed" _;
}

terminal_kind-final :
    (o : Option String) (kind : String) → terminal_kind o ≡ some kind → is_final_kind kind ≡ true
unfolding terminal_kind
terminal_kind-final none kind h = cc
terminal_kind-final (some s) kind h = elim (Bool-cases (str_eq s "failed")) [
  | inl e ↦
      let same : "response.failed" ≡ kind = cc (rw e at h) in
      subst (λ k. is_final_kind k ≡ true) same refl
  | inr e ↦ elim (Bool-cases (str_eq s "incomplete")) [
    | inl f ↦
        let same : "response.incomplete" ≡ kind = cc (rw (e, f) at h) in
        subst (λ k. is_final_kind k ≡ true) same refl
    | inr f ↦ cc (rw (e, f) at h)
  ]
]

terminal_event-Ends :
    (response_id model : String) (n : ℕ) (text : String) (fs : Fields) (o : Option String)
    → ((kind : String) → o ≡ some kind → is_final_kind kind ≡ true)
    → Ends n (terminal_event response_id model n text fs o ∷ [])
unfolding terminal_event
terminal_event-Ends response_id model n text fs none h = failed_event-Ends response_id model n text
terminal_event-Ends response_id model n text fs (some kind) h = record {
  kind = kind;
  is_final = h kind refl;
  closes = single-Closes n kind _;
}

parsed_event-Ends :
    (response_id model : String) (n : ℕ) (text : String) (parsed : Result String Value)
    → Ends n (parsed_event response_id model n text parsed ∷ [])
unfolding parsed_event
parsed_event-Ends response_id model n text (ok (object fs)) =
    terminal_event-Ends response_id model n text fs _
      (terminal_kind-final (and_then (get_field "status" fs) as_str))
parsed_event-Ends response_id model n text _ = failed_event-Ends response_id model n text

module _ (c : Codec) (response_id model : String) where
  completion_or_failure-Ends :
      (n : ℕ) (r : Result ProxyError (List SseEvent))
      → ((es : List SseEvent) → r ≡ ok es → Closes n "response.completed" es)
      → Ends n (completion_or_failure c response_id model n r)
  unfolding completion_or_failure
  completion_or_failure-Ends n (ok es) h = record {
    kind = "response.completed";
    is_final = refl;
    closes = h es refl;
  }
  completion_or_failure-Ends n (err error) h = failed_event-Ends response_id model n _

  error-Ends :
      (n : ℕ) (outcome : StoredOutcome) (es : List SseEvent)
      → some (terminal_error_event c response_id model n (c.print (terminal_value outcome)) ∷ [])
        ≡ some es
      → Ends n es
  unfolding terminal_error_event
  error-Ends n outcome es h = subst (Ends n) (cc h) (
      parsed_event-Ends response_id model n (c.print (terminal_value outcome))
        (c.parse (c.print (terminal_value outcome))))

  last_events-Ends :
      (n : ℕ) (s : JobState) (es : List SseEvent)
      → last_events c response_id model n s ≡ some es
      → Ends n es
  unfolding last_events
  last_events-Ends n (terminal (completed response)) es h =
      subst (Ends n) (cc h)
        (completion_or_failure-Ends n _ (completion_events-Closes response response_id n))
  last_events-Ends n (terminal (failed v)) es h = error-Ends n (failed v) es h
  last_events-Ends n (terminal (incomplete v)) es h = error-Ends n (incomplete v) es h
  last_events-Ends n (terminal (expired v)) es h = error-Ends n (expired v) es h
  last_events-Ends n (terminal (cancelled v)) es h = error-Ends n (cancelled v) es h
  last_events-Ends n _ es h = cc

  after-Ends :
      (p : SseProgress) (es : List SseEvent)
      → Counted 0 p
      → Ends p.sequence es
      → Ends 0 (p.events ++ es)
  after-Ends p es k h = record {
    kind = h.kind;
    is_final = h.is_final;
    closes = Counted-Closes 0 h.kind p es k h.closes;
  }

  after_wake-Orderly :
      (p : SseProgress) (wake : Wake)
      → Counted 0 p
      → Orderly (after_wake c response_id model p wake)
  unfolding after_wake in_progress_event push_event numbered
  after_wake-Orderly p heartbeat k = push_event-Counted 0 "response.in_progress" _ p refl k
  after_wake-Orderly p changed k = k
  after_wake-Orderly p closed k =
      after-Ends p _ k (failed_event-Ends response_id model p.sequence _)

  after_read-Orderly :
      (p : SseProgress) (o : Option (List SseEvent)) (wake : Wake)
      → Counted 0 p
      → ((es : List SseEvent) → o ≡ some es → Ends p.sequence es)
      → Orderly (after_read c response_id model p o wake)
  unfolding after_read
  after_read-Orderly p none wake k h = after_wake-Orderly p wake k
  after_read-Orderly p (some es) wake k h = after-Ends p es k (h es refl)

  stream_rounds-Orderly :
      (rs : List Round) (s : Stream) → Orderly s → Orderly (stream_rounds c response_id model rs s)
  unfolding stream_rounds stream_round
  stream_rounds-Orderly [] s h = h
  stream_rounds-Orderly (r ∷ rs) (ongoing p) h =
      stream_rounds-Orderly rs _
        (after_read-Orderly p _ r.wake h (last_events-Ends p.sequence r.current))
  stream_rounds-Orderly (r ∷ rs) (ended es) h = stream_rounds-Orderly rs (ended es) h

  opening-Orderly : Counted 0 (opening c response_id model)
  unfolding opening created_event in_progress_event numbered
  opening-Orderly = record {
    numbers = (
      sequence_of-numbered "response.created" 0 _,
      (sequence_of-numbered "response.in_progress" 1 _, tt),
    );
    next = refl;
    is_open = (refl, (refl, tt));
  }

-- Whatever the job does and however its stream is woken, the events of the stream are numbered from
-- 0 without a gap; nothing final is sent while it goes on, and a stream that ended sent exactly one
-- final event, its last.
pub batch_stream-Orderly :
    (c : Codec) (response_id model : String) (rounds : List Round)
    → Orderly (batch_stream c response_id model rounds)
unfolding batch_stream
batch_stream-Orderly c response_id model rounds =
    stream_rounds-Orderly c response_id model rounds _ (opening-Orderly c response_id model)

-- The round that reads a terminal state ends the stream, and so does the end of the worker.
module _ (c : Codec) (response_id model : String) where
  last_events-terminal :
      (n : ℕ) (s : JobState)
      → is_terminal s ≡ true
      → (es : List SseEvent) × (last_events c response_id model n s ≡ some es)
  unfolding last_events
  last_events-terminal n (terminal (completed v)) h = (_, refl)
  last_events-terminal n (terminal (failed v)) h = (_, refl)
  last_events-terminal n (terminal (incomplete v)) h = (_, refl)
  last_events-terminal n (terminal (expired v)) h = (_, refl)
  last_events-terminal n (terminal (cancelled v)) h = (_, refl)
  last_events-terminal n _ h = cc

  pub stream_rounds-ended :
      (rs : List Round) (es : List SseEvent)
      → stream_rounds c response_id model rs (ended es) ≡ ended es
  unfolding stream_rounds stream_round
  stream_rounds-ended [] es = refl
  stream_rounds-ended (r ∷ rs) es = stream_rounds-ended rs es

  stream_rounds-ends :
      (rs : List Round) (s : Stream)
      → any (λ r. is_terminal r.current) rs ≡ true
      → (es : List SseEvent) × (stream_rounds c response_id model rs s ≡ ended es)
  unfolding stream_rounds stream_round after_read
  stream_rounds-ends [] s h = cc
  stream_rounds-ends (r ∷ rs) (ended es) h = (es, stream_rounds-ended rs es)
  stream_rounds-ends (r ∷ rs) (ongoing p) h = elim (Bool-cases (is_terminal r.current)) [
    | inl e ↦
        let (es, given) = last_events-terminal p.sequence r.current e in
        (p.events ++ es, rw given (stream_rounds-ended rs (p.events ++ es)))
    | inr e ↦ stream_rounds-ends rs _ (rw e at h)
  ]

-- A stream ends once it reads that its job is terminal, whatever woke it before.
pub batch_stream-ends :
    (c : Codec) (response_id model : String) (rounds : List Round)
    → any (λ r. is_terminal r.current) rounds ≡ true
    → (es : List SseEvent) × (batch_stream c response_id model rounds ≡ ended es)
unfolding batch_stream
batch_stream-ends c response_id model rounds h = stream_rounds-ends c response_id model rounds _ h
