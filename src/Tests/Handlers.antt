-- ===== src/Tests/Handlers.antt =====
-- The handlers, the retries and the pages at concrete inputs.
use kaiion.Prelude.{
  ℕ, ◌+◌, ◌≡◌, ◌≤◌, refl, arith, String, true, false, List, [], ◌∷◌, Option, none, some, Result, ok,
  err, is_some, strip_prefix, blank,
}
use kaiion.Json.{Value, boolean, object, string, fields, get_field, insert_field, remove_field}
use kaiion.Errors.{ProxyError, TransportError, transport}
use kaiion.Http.{get_header}
use kaiion.Db.Table.{Database}
use kaiion.Openai.{ProviderError}
use kaiion.Openai.Paging.{BatchList, find_batch, find_on_page}
use kaiion.Openai.Paging.Listing.{Listing, last_page, more_pages, find_batch-Listing}
use kaiion.Request.Headers.{Mode, direct, UpstreamAuth, auth_of, resolve_mode, optional_header}
use kaiion.Request.Headers.{bad_identity, identity_header}
use kaiion.Request.Bytes.{utf8, utf8_of, be_digits, hash_bytes, hash_component, hex_digest}
use kaiion.Request.Normalize.{
  fingerprint, fingerprint_input, model_alias, extract_session_key, extract_thread_id,
  canonical_provider_url, trim_slashes,
}
use kaiion.Request.Identity.{
  from_headers, identify, check_batchable, durable_session_key, build_request, plain_fields,
  remove_volatile_codex_metadata, request_input, scope_input,
}
use kaiion.Db.Requests.{
  enqueue, enqueue_request, stored_job, insert_job, insert_request, request_of, owner_of, key_error,
}
use kaiion.Db.Table.{find_request, find_id}
use kaiion.Db.Rows.{decode, decode_as, parse_status}
use kaiion.Domain.{queued}
use kaiion.Routing.{decision}
use kaiion.Scheduling.Types.{ScheduleRequest, SchedulePermit, dispatched, unknown}
use kaiion.Proxy.Answers.{Answer, Upstream, complete_body}
use kaiion.Proxy.Retry.{Script, granted, Setting, scheduled_direct_response}
use kaiion.Proxy.Retry.Permits.{Replays, sends}
use kaiion.Proxy.Retry.Runs.{scheduled_direct_response-Replays, scheduled_direct_response-ends}
use kaiion.Proxy.Usage.{fresh_tracker, push_chunks}
use kaiion.Proxy.Usage.Buffers.{Bounded, fresh_tracker-Bounded}
use kaiion.Proxy.Route.{AppState, route, route_in}
use kaiion.Proxy.Route.Resolved.{Resolves, route-Resolves}
use kaiion.Proxy.Handlers.{Executions, responses}
use kaiion.Proxy.Handlers.Modes.{responses-reached}
use kaiion.Jobs.{Handled, submit, submit_checked, stored, accepted, job_view}
use kaiion.Tests.Samples.{batch}
use kaiion.Tests.Proxy.{crates, hello_body, hello_headers, dollars, allowance}

-- A parser that knows no text.
abbrev from_slice : List ℕ → Result String Value
from_slice bytes = err "expected value"

abbrev decimal : ℕ → String
decimal n = "1"

abbrev unreachable_host : TransportError
unreachable_host = record { shown = "connection refused"; is_connect = true }

abbrev schedule : ℕ → Option ℕ → ScheduleRequest
schedule attempt delay = record {
  provider = "https://api";
  auth_scope = "u";
  model = "gpt";
  session_id = none;
  input_tokens = 1;
  output_tokens = 1;
  interaction = unknown;
  async_alias = false;
  cache_read_hit = none;
  retry_attempt = attempt;
  upstream_retry_after = delay;
  allow_batch_fallback = false;
  body = none;
}

abbrev permit : SchedulePermit
permit = record {
  reservation_id = some 1;
  provider = "https://api";
  auth_scope = "u";
  model = "gpt";
  session_id = none;
  interaction = unknown;
  input_tokens = 1;
  output_tokens = 1;
  waited = 0;
}

abbrev one_retry : Setting
one_retry = record {
  from_slice = from_slice;
  decimal = decimal;
  until_date = λ s. none;
  headers = hello_headers;
  max_retries = 1;
  make_request = λ attempt delay. ok (schedule attempt delay);
}

abbrev answer : Upstream
answer = record { status = 200; headers = []; chunks = []; end_of_body = complete_body }

abbrev round : Result ProxyError Upstream → Script
round response = record {
  remaining = 5;
  acquired = granted (dispatched permit);
  previewed = none;
  response = response;
  remaining_after = 4;
}

-- The provider is not reached at first.
abbrev script : List Script
script = round (err (transport unreachable_host)) ∷ round (ok answer) ∷ []

scheduled_direct_response-Replays_example :
    Replays (scheduled_direct_response one_retry none script).0 [] []
    × (sends (scheduled_direct_response one_retry none script).0 ≤ 1 + 1)
scheduled_direct_response-Replays_example = scheduled_direct_response-Replays one_retry none script

scheduled_direct_response-ends_example :
    is_some (scheduled_direct_response one_retry none script).1 ≡ true
scheduled_direct_response-ends_example =
    scheduled_direct_response-ends one_retry none script (omega arith)

abbrev chunks : List (List ℕ)
chunks =
    (b'd' ∷ b'a' ∷ b't' ∷ []) ∷ (b'a' ∷ b':' ∷ b' ' ∷ b'{' ∷ b'}' ∷ b'\n' ∷ []) ∷ (b'\n' ∷ []) ∷ []

fresh_tracker-Bounded_example : Bounded (push_chunks from_slice chunks fresh_tracker)
fresh_tracker-Bounded_example = fresh_tracker-Bounded from_slice chunks

abbrev app : AppState
app = record {
  crates = crates;
  amounts = dollars;
  debug = λ s. s;
  mode = direct;
  provider = "https://api";
  policy = allowance;
}

abbrev no_jobs : Database
no_jobs = record { jobs = []; requests = [] }

routed : route app no_jobs hello_headers hello_body ≡ ok (decision dollars direct "explicit_mode")
unfolding route resolve_mode get_header route_in
routed = refl

route-Resolves_example :
    (asked : Mode) × (resolve_mode app.debug hello_headers app.mode ≡ ok asked)
    × Resolves app no_jobs hello_headers hello_body asked (decision dollars direct "explicit_mode")
route-Resolves_example =
    route-Resolves app no_jobs hello_headers hello_body (decision dollars direct "explicit_mode")
      routed

abbrev unsupported : Result ProxyError Answer
unsupported = err (transport unreachable_host)

abbrev executions : Executions
executions = record {
  on_direct = unsupported;
  on_scheduled = err (transport unreachable_host);
  on_batch = unsupported;
}

responses-reached_example :
    is_some (responses app no_jobs hello_headers hello_body false executions) ≡ true
responses-reached_example = responses-reached app no_jobs hello_headers hello_body false executions

abbrev holder : UpstreamAuth
holder = record { authorization = "Bearer key"; organization = none; project = none }

abbrev batch_body : Value
batch_body = object (
    fields (
      ("input", string "hello")
      ∷ ("model", string "gpt")
      ∷ ("store", boolean false)
      ∷ ("stream", boolean false)
      ∷ []))

abbrev first_answer : Handled
first_answer =
    accepted crates "https://api" decimal 5 batch_body
      (record { id = "a"; model = "gpt"; state = queued })

submitted_once :
    (submit crates "https://api" decimal 5 "https://api/" "a" hello_body hello_headers no_jobs).0
    ≡ ok first_answer
unfolding submit submit_checked stored accepted auth_of optional_header get_header from_headers
    model_alias strip_prefix identify check_batchable identity_header bad_identity blank utf8
    utf8_of durable_session_key extract_session_key extract_thread_id canonical_provider_url
    trim_slashes build_request plain_fields remove_volatile_codex_metadata request_input scope_input
    hash_component hash_bytes be_digits hex_digest fingerprint fingerprint_input enqueue
    enqueue_request stored_job insert_job insert_request request_of owner_of key_error find_request
    find_id decode decode_as parse_status fields get_field insert_field remove_field job_view
submitted_once = refl

abbrev one_job : Database
one_job =
    (submit crates "https://api" decimal 5 "https://api/" "a" hello_body hello_headers no_jobs).1

abbrev first_page : BatchList
first_page = record { batches = batch ∷ []; has_more = true; last_id = some "batch-1" }

abbrev second_page : BatchList
second_page = record { batches = batch ∷ []; has_more = false; last_id = some "batch-2" }

abbrev page_after : Option String → Result ProviderError BatchList
page_after none = ok first_page
page_after (some id) = ok second_page

two_pages : Listing page_after 2 none (batch ∷ batch ∷ [])
two_pages =
    more_pages first_page "batch-1" refl refl refl refl refl (last_page second_page refl refl)

find_batch-Listing_example :
    find_batch page_after "a" 2 ≡ some (ok (find_on_page "a" (batch ∷ batch ∷ [])))
find_batch-Listing_example =
    find_batch-Listing page_after "a" 2 2 (batch ∷ batch ∷ []) two_pages (omega arith)
