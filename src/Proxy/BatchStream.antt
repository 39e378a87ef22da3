-- ===== src/Proxy/BatchStream.antt =====
-- src/proxy.rs: the event stream of `batch_response`, and the body of its plain answer.
pub mod Orderly
pub mod Delivered
use kaiion.Prelude.{
  ℕ, suc, String, Bool, true, false, List, [], ◌∷◌, ◌++◌, Option, none, some, Result, ok, err,
}
use kaiion.Json.{Value, Codec}
use kaiion.Domain.{
  StoredOutcome, completed, failed, incomplete, expired, cancelled, JobState, terminal, queued,
  uploaded, submitting, submission_uncertain, submitted,
}
use kaiion.Errors.{ProxyError, proxy_text}
use kaiion.Sse.{
  SseEvent, SseProgress, created_event, in_progress_event, completion_events, failed_event,
  terminal_error_event,
}

unfoldable pub terminal_value : StoredOutcome → Value
terminal_value (completed value) = value
terminal_value (failed value) = value
terminal_value (incomplete value) = value
terminal_value (expired value) = value
terminal_value (cancelled value) = value

-- What `tokio::select!` wakes for: the heartbeat, a change of the watched state, or the end of the
-- worker that held its sender.
pub data Wake : Type 0 where
  heartbeat changed closed : Wake

-- One round of the loop: the state that it reads first, and what then wakes it.
pub record Round : Type 0 where
  pub current : JobState
  pub wake : Wake

-- A stream that goes on, with its counter and what it has sent, or all that it sent.
pub data Stream : Type 0 where
  ongoing : SseProgress → Stream
  ended : List SseEvent → Stream

module _ (c : Codec) (response_id model : String) where
  unfoldable pub completion_or_failure : ℕ → Result ProxyError (List SseEvent) → List SseEvent
  completion_or_failure sequence (ok events) = events
  completion_or_failure sequence (err error) =
      failed_event response_id model sequence (proxy_text error) ∷ []

  -- What is sent on the state that was read, if it is terminal.
  unfoldable pub last_events : ℕ → JobState → Option (List SseEvent)
  unfolding completion_or_failure
  last_events sequence (terminal (completed response)) =
      some (completion_or_failure sequence (completion_events response response_id sequence))
  last_events sequence (terminal outcome) =
      some
        (terminal_error_event c response_id model sequence (c.print (terminal_value outcome)) ∷ [])
  last_events sequence _ = none

  unfoldable pub after_wake : SseProgress → Wake → Stream
  after_wake p heartbeat = ongoing (record {
    sequence = suc p.sequence;
    events = p.events ++ (in_progress_event response_id model p.sequence ∷ []);
  })
  after_wake p changed = ongoing p
  after_wake p closed = ended (
      p.events
      ++ (failed_event response_id model p.sequence
            "batch worker stopped before reaching a terminal state"
          ∷ []))

  unfoldable pub after_read : SseProgress → Option (List SseEvent) → Wake → Stream
  after_read p (some events) wake = ended (p.events ++ events)
  after_read p none wake = after_wake p wake

  unfoldable pub stream_round : Round → Stream → Stream
  stream_round r (ended events) = ended events
  stream_round r (ongoing p) = after_read p (last_events p.sequence r.current) r.wake

  unfoldable pub stream_rounds : List Round → Stream → Stream
  stream_rounds [] s = s
  stream_rounds (r ∷ rs) s = stream_rounds rs (stream_round r s)

  -- What is sent before the loop.
  unfoldable pub opening : SseProgress
  opening = record {
    sequence = 2;
    events = created_event response_id model 0 ∷ in_progress_event response_id model 1 ∷ [];
  }

  unfoldable pub batch_stream : List Round → Stream
  batch_stream rounds = stream_rounds rounds (ongoing opening)
