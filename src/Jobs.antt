-- ===== src/Jobs.antt =====
-- src/jobs.rs and `list_owned` of src/job_store.rs: the endpoints over the durable jobs. A handler
-- gives its answer and the job, with its body, for which a worker is wanted. Where SQLite does not
-- fail; the random id of a new job is an argument, `fresh`.
pub mod Isolation
use Prim.Native.String.{compare}
use text.Mathlib.Text.{is_lt}
use kaiion.Prelude.{
  ℕ, zero, suc, String, Bool, true, false, not, ◌&&◌, ◌==◌, Option, none, some, List, [], ◌∷◌,
  Result, ok, err, ◌>>=◌, map_err, map, concat, str_eq, is_some, keep_if, length, min, max,
  if◌then◌else◌,
}
use kaiion.Json.{Value, Codec, null, boolean, string, object, array, items, fields, insert_field}
use kaiion.Domain.{
  Job, JobState, StoredOutcome, queued, uploaded, submitting, submission_uncertain, submitted,
  terminal, completed, failed, incomplete, expired, cancelled, is_terminal,
}
use kaiion.Errors.{ProxyError}
use kaiion.Http.{Header, header}
use kaiion.Db.Table.{Row, RequestRow, Database}
use kaiion.Db.Requests.{NormalizedRequest, StoreError, owned, owned_job, owned_request, enqueue}
use kaiion.Request.Headers.{UpstreamAuth, auth_of}
use kaiion.Request.Normalize.{Crates, fingerprint}
use kaiion.Request.Identity.{from_headers}
use kaiion.Proxy.Answers.{Answer, json_body}
use kaiion.Proxy.BatchStream.{terminal_value}
use kaiion.Proxy.Route.{proxy_error}

abbrev pub outcome_status : StoredOutcome → String
outcome_status (completed v) = "completed"
outcome_status (failed v) = "failed"
outcome_status (incomplete v) = "incomplete"
outcome_status (expired v) = "expired"
outcome_status (cancelled v) = "cancelled"

abbrev with_response_id : String → Value → Value
with_response_id id (object fs) =
    object (insert_field "id" (string (concat ("resp_kaiion_" ∷ id ∷ []))) fs)
with_response_id id value = value

unfoldable pub response_value : StoredOutcome → (id : String) → Value
response_value outcome id = with_response_id id (terminal_value outcome)

abbrev view_status : JobState → String
view_status queued = "queued"
view_status (uploaded f) = "uploaded"
view_status (submitting f t) = "submitting"
view_status (submission_uncertain f t) = "submission_uncertain"
view_status (submitted b) = "submitted"
view_status (terminal outcome) = outcome_status outcome

abbrev view_response : String → JobState → Value
view_response id (terminal outcome) = response_value outcome id
view_response id _ = null

unfoldable pub job_view : Job → Value
job_view job = object (
    fields (
      ("id", string job.id)
      ∷ ("object", string "kaiion.job")
      ∷ ("model", string job.model)
      ∷ ("status", string (view_status job.state))
      ∷ ("terminal", boolean (is_terminal job.state))
      ∷ ("response", view_response job.id job.state)
      ∷ []))

pub record JobSummary : Type 0 where
  pub id : String
  pub model : String
  pub status : String
  pub is_done : Bool

abbrev summary : Row → JobSummary
summary r = record {
  id = r.raw.id;
  model = r.raw.model;
  status = r.raw.status;
  is_done = is_some r.raw.outcome_json;
}

-- The rows of one owner after an id. A job has one request, so the join gives it once.
unfoldable pub owned_rows :
    (auth_hash provider after : String) → List RequestRow → List Row → List Row
owned_rows auth_hash provider after qs rows =
    keep_if (λ r. is_some (owned r.raw.id auth_hash provider qs) && is_lt (compare after r.raw.id))
      rows

-- ORDER BY jobs.id
unfoldable pub insert_by_id : Row → List Row → List Row
insert_by_id r [] = r ∷ []
insert_by_id r (q ∷ qs) =
    if is_lt (compare q.raw.id r.raw.id) then q ∷ insert_by_id r qs else r ∷ q ∷ qs

unfoldable pub sort_by_id : List Row → List Row
sort_by_id [] = []
sort_by_id (r ∷ rs) = insert_by_id r (sort_by_id rs)

-- LIMIT
unfoldable pub limited : ℕ → List Row → List Row
limited zero rows = []
limited (suc n) [] = []
limited (suc n) (r ∷ rows) = r ∷ limited n rows

unfoldable pub list_owned :
    (auth_hash provider after : String) → (limit : ℕ) → Database → List JobSummary
list_owned auth_hash provider after limit db =
    map summary (
      limited (min limit 100)
        (sort_by_id (owned_rows auth_hash provider after db.requests db.jobs)))

abbrev summary_value : JobSummary → Value
summary_value s = object (
    fields (
      ("id", string s.id)
      ∷ ("model", string s.model)
      ∷ ("status", string s.status)
      ∷ ("terminal", boolean s.is_done)
      ∷ []))

abbrev last_summary_id : List JobSummary → Value
last_summary_id [] = null
last_summary_id (s ∷ []) = string s.id
last_summary_id (s ∷ ss) = last_summary_id ss

-- What a handler does: it answers, and may want a worker for a job.
pub record Handled : Type 0 where
  pub answer : Answer
  pub drives : Option (Job × Value)

abbrev reply : (status : ℕ) → List Header → Value → Answer
reply status headers value = record { status = status; headers = headers; body = json_body value }

module _ (crates : Crates) (provider : String) where
  -- The endpoint `list`.
  unfoldable pub list_jobs : List Header → (after : String) → Database → Result ProxyError Value
  list_jobs headers after db = auth_of headers >>= λ auth.
      let jobs = list_owned (fingerprint crates auth) provider after 100 db in
      ok (
        object (
          fields (
            ("data", array (items (map summary_value jobs)))
            ∷ ("next_after", if length jobs == 100 then last_summary_id jobs else null)
            ∷ [])))

  unfoldable pub get_job : (id : String) → List Header → Database → Result ProxyError Handled
  get_job id headers db = auth_of headers >>= λ auth.
      map_err proxy_error (owned_job crates.codec id (fingerprint crates auth) provider db)
      >>= λ job. ok (record { answer = reply 200 [] (job_view job); drives = none })

  unfoldable pub resume : (id : String) → List Header → Database → Result ProxyError Handled
  resume id headers db = auth_of headers >>= λ auth.
      map_err proxy_error (owned_request crates.codec id (fingerprint crates auth) provider db)
      >>= λ found. ok (record { answer = reply 202 [] (job_view found.0); drives = some found })

  -- `decimal` is `u64::to_string`.
  unfoldable pub accepted :
      (decimal : ℕ → String) → (poll_interval_seconds : ℕ) → Value → Job → Handled
  accepted decimal poll_interval_seconds batch_body job = record {
    answer =
        reply 202
          (header "location" (concat ("/v1/kaiion/jobs/" ∷ job.id ∷ []))
            ∷ header "retry-after" (decimal (max poll_interval_seconds 1))
            ∷ [])
          (job_view job);
    drives = some (job, batch_body);
  }

  unfoldable pub stored :
      (decimal : ℕ → String)
      → (poll_interval_seconds : ℕ) → NormalizedRequest
      → Result StoreError Job × Database
      → Result ProxyError Handled × Database
  stored decimal poll_interval_seconds request (result, db) = (
    map_err proxy_error result >>= λ job.
        ok (accepted decimal poll_interval_seconds request.batch_body job),
    db,
  )

  abbrev pub checked_submit :
      Value
      → (base_url : String) → List Header
      → Result ProxyError (UpstreamAuth × NormalizedRequest)
  checked_submit body base_url headers = auth_of headers >>= λ auth.
      from_headers crates body base_url headers >>= λ request. ok (auth, request)

  -- The transaction of a request that has been checked.
  unfoldable pub submit_checked :
      (decimal : ℕ → String)
      → (poll_interval_seconds : ℕ) → (fresh : String)
      → Result ProxyError (UpstreamAuth × NormalizedRequest)
      → Database
      → Result ProxyError Handled × Database
  submit_checked decimal poll_interval_seconds fresh (err e) db = (err e, db)
  submit_checked decimal poll_interval_seconds fresh (ok (auth, request)) db =
      stored decimal poll_interval_seconds request
        (enqueue crates.codec fresh (fingerprint crates auth) provider request db)

  unfoldable pub submit :
      (decimal : ℕ → String)
      → (poll_interval_seconds : ℕ) → (base_url fresh : String) → Value
      → List Header
      → Database
      → Result ProxyError Handled × Database
  submit decimal poll_interval_seconds base_url fresh body headers db =
      submit_checked decimal poll_interval_seconds fresh (checked_submit body base_url headers) db
