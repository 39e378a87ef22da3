-- ===== src/Proxy/BatchStream/Delivered.antt =====
-- src/proxy.rs: the stream of `batch_response` delivers what its job said.
use text.Mathlib.TextLemmas.{nil-append}
use kaiion.Prelude.{
  ℕ, String, false, ◌≡◌, ◌≢◌, refl, ◌∙◌, List, [], ◌∷◌, ◌++◌, none, some, All, concat, and_then,
}
use kaiion.Json.{Value, Items, Codec, get, as_array}
use kaiion.Domain.{
  JobState, terminal, completed, is_terminal, queued, uploaded, submitting, submission_uncertain,
  submitted,
}
use kaiion.Sse.{SseProgress, numbered, created_event, in_progress_event, push_event}
use kaiion.Sse.Texts.{output_text}
use kaiion.Sse.Deltas.{streamed, streamed-append, completion_events-Completes, push_event-silent}
use kaiion.Proxy.BatchStream.{
  Wake, heartbeat, changed, closed, Round, Stream, ongoing, ended, completion_or_failure,
  last_events, after_wake, after_read, stream_round, stream_rounds, opening, batch_stream,
}
use kaiion.Proxy.BatchStream.Orderly.{stream_rounds-ended}

-- A round that finds the job under way and its worker alive.
abbrev pub Waits : Round → Type 0
Waits r = (is_terminal r.current ≡ false) × (r.wake ≢ closed)

module _ (c : Codec) (response_id model : String) where
  -- The stream goes on, and nothing of the answer has been sent.
  abbrev Quiet : Stream → Type 0
  Quiet (ongoing p) = streamed p.events ≡ ""
  Quiet (ended es) = ⊥

  last_events-waiting :
      (n : ℕ) (s : JobState) → is_terminal s ≡ false → last_events c response_id model n s ≡ none
  unfolding last_events
  last_events-waiting n queued h = refl
  last_events-waiting n (uploaded f) h = refl
  last_events-waiting n (submitting f t) h = refl
  last_events-waiting n (submission_uncertain f t) h = refl
  last_events-waiting n (submitted b) h = refl
  last_events-waiting n (terminal o) h = cc h

  after_wake-Quiet :
      (p : SseProgress) (wake : Wake)
      → wake ≢ closed
      → streamed p.events ≡ ""
      → Quiet (after_wake c response_id model p wake)
  unfolding after_wake in_progress_event push_event
  after_wake-Quiet p heartbeat h q = push_event-silent "response.in_progress" _ p refl ∙ q
  after_wake-Quiet p changed h q = q
  after_wake-Quiet p closed h q = elim (h refl) [ ]

  stream_rounds-Quiet :
      (before : List Round) (s : Stream)
      → All Waits before
      → Quiet s
      → Quiet (stream_rounds c response_id model before s)
  unfolding stream_rounds stream_round after_read
  stream_rounds-Quiet [] s h q = q
  stream_rounds-Quiet (r ∷ rs) (ended es) h q = elim q [ ]
  stream_rounds-Quiet (r ∷ rs) (ongoing p) h q =
      stream_rounds-Quiet rs _ h.1
        (rw (last_events-waiting p.sequence r.current h.0.0) (after_wake-Quiet p r.wake h.0.1 q))

  stream_rounds-append :
      (before after : List Round) (s : Stream)
      → stream_rounds c response_id model (before ++ after) s
        ≡ stream_rounds c response_id model after (stream_rounds c response_id model before s)
  unfolding stream_rounds
  stream_rounds-append [] after s = refl
  stream_rounds-append (r ∷ rs) after s =
      stream_rounds-append rs after (stream_round c response_id model r s)

  -- The stream ended, and its deltas are this text.
  abbrev pub Delivered : String → Stream → Type 0
  Delivered text (ended es) = streamed es ≡ text
  Delivered text (ongoing p) = ⊥

  completed-Delivered :
      (s : Stream) (response : Value) (output : Items) (wake : Wake) (after : List Round)
      → Quiet s
      → and_then (get "output" response) as_array ≡ some output
      → Delivered (concat (output_text output)) (
          stream_rounds c response_id model
            (record { current = terminal (completed response); wake = wake } ∷ after)
            s)
  unfolding stream_rounds stream_round after_read last_events completion_or_failure
  completed-Delivered (ended es) response output wake after q h = elim q [ ]
  completed-Delivered (ongoing p) response output wake after q h =
      let done = completion_events-Completes response response_id p.sequence output h in
      rw (done.given, stream_rounds-ended c response_id model after (p.events ++ done.events))
        (streamed-append p.events done.events
          ∙ rw (q, done.delivers) (nil-append (concat (output_text output))))

  opening-Quiet : Quiet (ongoing (opening c response_id model))
  unfolding opening created_event in_progress_event numbered
  opening-Quiet = nil-append "" ∙ nil-append ""

-- A stream whose job was under way and then completed with a response that has an output array, and
-- whose worker lived until then, has ended, and its deltas together are the texts of the output_text
-- parts of the output's messages that have an id, in order.
pub batch_stream-Delivered :
    (c : Codec) (response_id model : String) (before after : List Round) (response : Value)
    (output : Items) (wake : Wake)
    → All Waits before
    → and_then (get "output" response) as_array ≡ some output
    → Delivered c response_id model (concat (output_text output)) (
        batch_stream c response_id model
          (before ++ (record { current = terminal (completed response); wake = wake } ∷ after)))
unfolding batch_stream
batch_stream-Delivered c response_id model before after response output wake h found =
    rw (stream_rounds-append c response_id model before _ (ongoing (opening c response_id model))) (
      completed-Delivered c response_id model _ response output wake after
        (stream_rounds-Quiet c response_id model before _ h (opening-Quiet c response_id model))
        found)
