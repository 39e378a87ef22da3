-- ===== src/Tests/Proxy.antt =====
-- The proxy's parts at concrete inputs.
use kaiion.Prelude.{
  strip_prefix, blank, ℕ, ◌+◌, ◌*◌, ◌-◌, ◌/◌, ◌≡◌, ◌↔◌, refl, arith, String, true, false, List, [],
  ◌∷◌, none, some, ok, max, leb,
}
use kaiion.Json.{
  Value, number, pos_int, string, array, object, items, fields, get, get_field, insert_field,
}
use kaiion.Errors.{error_status, error_code, unauthorized, not_found}
use kaiion.Errors.{error_status-iff-error_code}
use kaiion.Domain.{queued, terminal, completed}
use kaiion.Http.{Header, header, get_header}
use kaiion.Db.Requests.{NormalizedRequest}
use kaiion.Request.Headers.{direct, UpstreamAuth, optional_header, bad_identity, identity_header}
use kaiion.Request.Bytes.{utf8, utf8_of}
use kaiion.Request.Normalize.{
  Urls, Crates, trim_slashes, batch_fields, model_alias, extract_session_key, extract_thread_id,
  canonical_provider_url, batch_supported,
}
use kaiion.Request.Identity.{from_headers}
use kaiion.Request.Agreement.{batch_supported-iff-from_headers}
use kaiion.Request.Labels.{fingerprint_input-inj, Identity, request_input-inj}
use kaiion.Request.Batch.{Batches, from_headers-Batches}
use kaiion.Routing.{Amounts, ModelPricing, RoutingPolicy, decide}
use kaiion.Routing.Allowance.{Affordable, decide-iff-Affordable}
use kaiion.Sse.{SseEvent}
use kaiion.Sse.Deltas.{Completes, completion_events-Completes}
use kaiion.Proxy.BatchStream.{Round, changed, heartbeat, batch_stream, ended}
use kaiion.Proxy.BatchStream.Orderly.{Orderly, batch_stream-Orderly, batch_stream-ends}
use kaiion.Tests.Samples.{codec}

-- A hash that hides nothing, and addresses that are texts.
abbrev plain_urls : Urls
plain_urls = record {
  Url = String;
  parse = λ s. ok s;
  has_query = λ u. false;
  has_fragment = λ u. false;
  path = λ u. u;
  set_path = λ p u. p;
  shown = λ u. u;
}

abbrev pub crates : Crates
crates = record { sha256 = λ bytes. bytes; urls = plain_urls; codec = codec }

abbrev pub hello_body : Value
hello_body = object (fields (("model", string "async-gpt") ∷ ("input", string "hello") ∷ []))

abbrev pub hello_headers : List Header
hello_headers = header "authorization" "Bearer key" ∷ header "idempotency-key" "k1" ∷ []

pub canonical : canonical_provider_url crates.urls "https://api/" ≡ ok "https://api"
unfolding canonical_provider_url trim_slashes
canonical = refl

pub supported : batch_supported crates hello_body hello_headers ≡ ok true
unfolding batch_supported batch_fields model_alias strip_prefix identity_header optional_header
    get_header bad_identity blank utf8 utf8_of extract_session_key extract_thread_id fields
    get_field insert_field
supported = refl

batch_supported-iff-from_headers_example :
    (batch_supported crates hello_body hello_headers ≡ ok true) ↔ (
      (r : NormalizedRequest) × (from_headers crates hello_body "https://api/" hello_headers
        ≡ ok r))
batch_supported-iff-from_headers_example =
    batch_supported-iff-from_headers crates hello_body hello_headers "https://api/" "https://api"
      canonical

pub made :
    (r : NormalizedRequest) × (from_headers crates hello_body "https://api/" hello_headers ≡ ok r)
made =
    (batch_supported-iff-from_headers crates hello_body hello_headers "https://api/" "https://api"
        canonical).0
      supported

from_headers-Batches_example : Batches hello_body made.0
from_headers-Batches_example =
    from_headers-Batches crates hello_body "https://api/" hello_headers made.0 made.1

abbrev caller : UpstreamAuth
caller = record { authorization = "Bearer key"; organization = none; project = some "p" }

fingerprint_input-inj_example : caller ≡ caller
unfolding utf8 utf8_of
fingerprint_input-inj_example =
    fingerprint_input-inj caller caller
      ((omega arith, omega arith), ((omega arith, omega arith), tt))
      ((omega arith, omega arith), ((omega arith, omega arith), tt)) refl

abbrev identity : Identity
identity = record { provider = "https://api"; session = "s"; idempotency = some "k1"; body = "{}" }

request_input-inj_example : identity ≡ identity
unfolding utf8 utf8_of
request_input-inj_example =
    request_input-inj identity identity
      (
        (omega arith, omega arith),
        (
          (omega arith, omega arith),
          ((omega arith, omega arith), ((omega arith, omega arith), tt)),
        ),
      )
      (
        (omega arith, omega arith),
        (
          (omega arith, omega arith),
          ((omega arith, omega arith), ((omega arith, omega arith), tt)),
        ),
      )
      refl

error_status-iff-error_code_example :
    (error_status unauthorized ≡ error_status not_found)
    ↔ (error_code unauthorized ≡ error_code not_found)
error_status-iff-error_code_example = error_status-iff-error_code unauthorized not_found

-- Whole dollars for a million tokens.
abbrev pub dollars : Amounts
dollars = record {
  F = ℕ;
  of_u64 = λ n. n;
  add = λ x y. x + y;
  sub = λ x y. x - y;
  mul = λ x y. x * y;
  div = λ x y. x / y;
  greater = max;
  is_finite = λ x. true;
  leb = leb;
  is_negative = λ x. false;
  zero = 0;
  million = 1000000;
}

abbrev price : ModelPricing dollars
price = record {
  input_usd_per_million = 2;
  output_usd_per_million = 8;
  batch_input_usd_per_million = 1;
  batch_output_usd_per_million = 4;
}

abbrev pub allowance : RoutingPolicy dollars
allowance = record {
  max_direct_cost_usd = 10;
  max_direct_premium_usd = 5;
  models = ("gpt", price) ∷ [];
}

abbrev pub bounded_body : Value
bounded_body = object (
    fields (
      ("model", string "gpt")
      ∷ ("input", string "hello")
      ∷ ("max_output_tokens", number (pos_int 100))
      ∷ []))

decide-iff-Affordable_example :
    ((decide dollars codec allowance bounded_body).mode ≡ direct)
    ↔ Affordable dollars codec allowance bounded_body
decide-iff-Affordable_example = decide-iff-Affordable dollars codec allowance bounded_body

abbrev pub message : Value
message = object (
    fields (
      ("type", string "message")
      ∷ ("id", string "msg-1")
      ∷ (
        "content",
        array (
            items
              (object (fields (("type", string "output_text") ∷ ("text", string "hi") ∷ [])) ∷ [])),
      )
      ∷ []))

abbrev pub said : Value
said =
    object (fields (("status", string "completed") ∷ ("output", array (items (message ∷ []))) ∷ []))

completion_events-Completes_example : Completes said "resp-1" 2 (items (message ∷ []))
completion_events-Completes_example =
    completion_events-Completes said "resp-1" 2 (items (message ∷ []))
      (unfold get in unfold fields in unfold get_field in unfold insert_field in refl)

abbrev rounds : List Round
rounds =
    record { current = queued; wake = heartbeat }
    ∷ record { current = terminal (completed said); wake = changed }
    ∷ []

batch_stream-Orderly_example : Orderly (batch_stream codec "resp-1" "gpt" rounds)
batch_stream-Orderly_example = batch_stream-Orderly codec "resp-1" "gpt" rounds

batch_stream-ends_example :
    (es : List SseEvent) × (batch_stream codec "resp-1" "gpt" rounds ≡ ended es)
batch_stream-ends_example = batch_stream-ends codec "resp-1" "gpt" rounds refl
