-- ===== src/Proxy/Answers.antt =====
-- src/proxy.rs: what a handler answers with: `scheduling_unavailable`, and the passing on of the
-- provider's answer by `scheduled_upstream_response`, which completes the permit.
use Prim.Native.Char.{code}
use kaiion.Prelude.{
  ℕ, ◌+◌, ◌/◌, ◌==◌, String, Bool, true, false, not, ◌&&◌, Option, none, some, List, [], ◌∷◌, ◌++◌,
  Result, ok, err, concat, leb, max, is_some_and, and_then, filter_option, unwrap_or, if◌then◌else◌,
}
use kaiion.Json.{Value}
use kaiion.Http.{Header, header, get_header, insert_header}
use kaiion.Errors.{ProxyError, TransportError, transport, error_body}
use kaiion.Request.Inputs.{ResponseUsage, no_usage, response_usage}
use kaiion.Openai.Headers.{copy_response_headers}
use kaiion.Proxy.Usage.{fresh_tracker, push_chunks, finish}

-- The answer of a handler: a JSON value, or bytes that were passed on.
pub data Body : Type 0 where
  json_body : Value → Body
  passed_on : List (List ℕ) → Body

pub record Answer : Type 0 where
  pub status : ℕ
  pub headers : List Header
  pub body : Body

-- `decimal` is `u64::to_string`.
abbrev retry_headers : (decimal : ℕ → String) → Option ℕ → List Header
retry_headers decimal none = []
retry_headers decimal (some delay) =
    header "retry-after" (decimal (max (delay / 1000000000) 1)) ∷ []

unfoldable pub scheduling_unavailable :
    (decimal : ℕ → String) → (reason : String) → (retry_after : Option ℕ) → Answer
scheduling_unavailable decimal reason retry_after = record {
  status = 503;
  headers =
      insert_header (header "x-kaiion-mode" "direct")
        (retry_headers decimal (filter_option (λ delay. not (delay == 0)) retry_after));
  body = json_body (
      error_body (concat ("scheduled live request could not be dispatched: " ∷ reason ∷ []))
        "scheduling_unavailable");
}

-- How a streamed body ends: at its end, with an error, or because the caller has gone away.
pub data End : Type 0 where
  complete_body : End
  broken : TransportError → End
  abandoned : End

-- The provider's answer: a body that streams in chunks until its end.
pub record Upstream : Type 0 where
  pub status : ℕ
  pub headers : List Header
  pub chunks : List (List ℕ)
  pub end_of_body : End

abbrev lower : ℕ → ℕ
lower c = if leb b'A' c && leb c b'Z' then c + 32 else c

-- `value.to_ascii_lowercase().starts_with(prefix)`
unfoldable pub starts_with_lower : (prefix value : String) → Bool
starts_with_lower String.[] value = true
starts_with_lower (String.◌∷◌ c p) String.[] = false
starts_with_lower (String.◌∷◌ c p) (String.◌∷◌ d s) =
    (code c == lower (code d)) && starts_with_lower p s

unfoldable pub is_event_stream : List Header → Bool
is_event_stream headers =
    is_some_and (and_then (get_header "content-type" headers) (λ v. v.to_str))
      (starts_with_lower "text/event-stream")

-- What becomes of a permit once its request is under way. A permit that is dropped with the stream
-- is released by its lease.
pub data Settled : Type 0 where
  completed : ResponseUsage → Settled
  aborted dropped : Settled

abbrev all_bytes : List (List ℕ) → List ℕ
all_bytes [] = []
all_bytes (chunk ∷ chunks) = chunk ++ all_bytes chunks

module _ (from_slice : List ℕ → Result String Value) where
  -- The event stream's permit, by how the stream ends.
  unfoldable pub settle_stream : List (List ℕ) → End → Settled
  settle_stream chunks complete_body =
      completed
        (unwrap_or (finish from_slice (push_chunks from_slice chunks fresh_tracker)).usage no_usage)
  settle_stream chunks (broken error) =
      completed (unwrap_or (push_chunks from_slice chunks fresh_tracker).usage no_usage)
  settle_stream chunks abandoned = dropped

  abbrev usage_in : Result String Value → ResponseUsage
  usage_in (ok value) = response_usage value
  usage_in (err e) = no_usage

  -- The permit of a body that is read as a whole.
  unfoldable pub settle_whole : List (List ℕ) → End → Settled
  settle_whole chunks complete_body = completed (usage_in (from_slice (all_bytes chunks)))
  settle_whole chunks (broken error) = completed no_usage
  settle_whole chunks abandoned = dropped

  unfoldable pub settle_upstream : Upstream → Settled
  settle_upstream u =
      if is_event_stream u.headers
      then settle_stream u.chunks u.end_of_body
      else settle_whole u.chunks u.end_of_body

  abbrev pass_on : Upstream → Answer
  pass_on u = record {
    status = u.status;
    headers = insert_header (header "x-kaiion-mode" "direct") (copy_response_headers u.headers []);
    body = passed_on u.chunks;
  }

  abbrev whole_answer : Upstream → End → Result ProxyError Answer
  whole_answer u (broken error) = err (transport error)
  whole_answer u _ = ok (pass_on u)

  -- `scheduled_upstream_response`: the answer, with what becomes of the permit.
  unfoldable pub scheduled_upstream_response : Upstream → Settled × Result ProxyError Answer
  scheduled_upstream_response u = (
    settle_upstream u,
    if is_event_stream u.headers then ok (pass_on u) else whole_answer u u.end_of_body,
  )

-- `direct_response`, once the provider has answered.
unfoldable pub direct_answer : Upstream → Answer
direct_answer u = record {
  status = u.status;
  headers = insert_header (header "x-kaiion-mode" "direct") (copy_response_headers u.headers []);
  body = passed_on u.chunks;
}
