-- ===== src/Db/Requests.antt =====
-- src/job_store.rs, and `get_or_create` and `find` of src/db.rs: jobs with their persisted requests.
-- The random id of a new job is an argument, `fresh`.
use kaiion.Prelude.{
  String, Bool, ◌&&◌, Option, none, some, List, [], ◌∷◌, Result, ok, err, ◌>>=◌, str_eq,
  if◌then◌else◌, is_some, is_some_and, and_then, ok_or, map_err,
}
use kaiion.Json.{Value, Codec}
use kaiion.Domain.{Job}
use kaiion.Db.Rows.{PersistenceError, not_found, decode}
use kaiion.Db.Table.{Row, RequestRow, Database, find_id, find_request}

-- src/request.rs: what enqueue needs of a normalized request.
pub record NormalizedRequest : Type 0 where
  pub batch_body : Value
  pub request_hash : String
  pub model : String
  pub async_alias : Bool
  pub idempotency_hash : Option String

-- src/error.rs, as far as these methods return it.
pub data StoreError : Type 0 where
  is_not_found : StoreError
  is_conflicting : String → StoreError
  -- sqlx's error where `fetch_one` finds no row.
  row_not_found : StoreError
  persistence : PersistenceError → StoreError
  json : String → StoreError

abbrev pub new_row : (fresh auth_hash request_hash model : String) → Row
new_row fresh auth_hash request_hash model = record {
  raw = record {
    id = fresh;
    model = model;
    status = "queued";
    input_file_id = none;
    batch_id = none;
    submission_started_at = none;
    outcome_json = none;
  };
  auth_hash = auth_hash;
  request_hash = request_hash;
}

-- INSERT OR IGNORE INTO jobs: the row is dropped if its id or its (auth_hash, request_hash) is
-- there.
unfoldable pub insert_job : Row → List Row → List Row
unfolding find_id find_request
insert_job row rows =
    if is_some (find_id row.raw.id rows)
    then rows
    else if is_some (find_request row.auth_hash row.request_hash rows)
    then rows
    else row ∷ rows

unfoldable pub request_of : String → List RequestRow → Option RequestRow
request_of job_id [] = none
request_of job_id (q ∷ qs) = if str_eq q.job_id job_id then some q else request_of job_id qs

-- WHERE auth_hash = ? AND idempotency_hash = ?; NULL equals nothing.
unfoldable pub owner_of : (auth_hash key : String) → List RequestRow → Option RequestRow
owner_of auth_hash key [] = none
owner_of auth_hash key (q ∷ qs) =
    if str_eq q.auth_hash auth_hash && is_some_and q.idempotency_hash (λ k. str_eq k key)
    then some q
    else owner_of auth_hash key qs

-- INSERT OR IGNORE INTO job_requests: UNIQUE (job_id), UNIQUE (auth_hash, idempotency_hash). The body
-- that enqueue stores is what serde_json has written, so the CHECK that it is JSON drops no row.
unfoldable pub insert_request : RequestRow → List RequestRow → List RequestRow
unfolding request_of owner_of
insert_request q qs =
    if is_some (request_of q.job_id qs)
    then qs
    else if is_some (and_then q.idempotency_hash (λ key. owner_of q.auth_hash key qs))
    then qs
    else q ∷ qs

-- `Database::find`
unfoldable pub find :
    Codec → (auth_hash request_hash : String) → Database → Result PersistenceError (Option Job)
unfolding find_request decode
find c auth_hash request_hash db = elim (find_request auth_hash request_hash db.jobs) [
  | none ↦ ok none
  | some r ↦ decode c r.raw >>= λ job. ok (some job)
]

-- `Database::get_or_create`
unfoldable pub get_or_create :
    Codec
    → (fresh auth_hash request_hash model : String) → Database
    → Result PersistenceError Job × Database
unfolding insert_job find
get_or_create c fresh auth_hash request_hash model db =
    let db' = record db {
      jobs = insert_job (new_row fresh auth_hash request_hash model) db.jobs;
    } in
    (find c auth_hash request_hash db' >>= (λ found. ok_or found (not_found "new job")), db')

abbrev pub conflict_message : String
conflict_message =
    "Idempotency-Key was already used with a different request; use a new key for a new inference"

-- `Database::get` inside `enqueue`, where SQLite does not fail.
unfoldable pub stored_job : Codec → String → Database → Result StoreError Job
stored_job c id db =
    map_err persistence (ok_or (find_id id db.jobs) (not_found id) >>= λ r. decode c r.raw)

-- The look-up of `owner` in `enqueue`: no row holds the idempotency key, or one of another job does.
unfoldable pub key_error :
    (auth_hash id : String) → Option String → List RequestRow → Option StoreError
unfolding owner_of
key_error auth_hash id none qs = none
key_error auth_hash id (some key) qs = elim (owner_of auth_hash key qs) [
  | none ↦ some row_not_found
  | some q ↦ if str_eq q.job_id id then none else some (is_conflicting conflict_message)
]

abbrev pub request_row :
    Codec → (auth_hash provider : String) → NormalizedRequest → String → RequestRow
request_row c auth_hash provider request id = record {
  job_id = id;
  provider = provider;
  auth_hash = auth_hash;
  idempotency_hash = request.idempotency_hash;
  body_json = c.print request.batch_body;
}

-- The statements of the transaction after the job's id is known; an early return rolls it back.
unfoldable pub enqueue_request :
    Codec
    → (auth_hash provider : String) → NormalizedRequest
    → (before with_job : Database) → Row
    → Result StoreError Job × Database
unfolding insert_request key_error decode find_id
enqueue_request c auth_hash provider request before with_job r =
    let qs = insert_request (request_row c auth_hash provider request r.raw.id) with_job.requests in
    elim (key_error auth_hash r.raw.id request.idempotency_hash qs) [
      | some e ↦ (err e, before)
      | none ↦ (
        stored_job c r.raw.id (record with_job { requests = qs }),
        record with_job { requests = qs },
      )
    ]

-- `Database::enqueue`, where SQLite does not fail. `fetch_one` finds no row only if the new id was
-- taken by a job of another request.
unfoldable pub enqueue :
    Codec
    → (fresh auth_hash provider : String) → NormalizedRequest
    → Database
    → Result StoreError Job × Database
unfolding insert_job enqueue_request
enqueue c fresh auth_hash provider request db =
    let rows = insert_job (new_row fresh auth_hash request.request_hash request.model) db.jobs in
    elim (find_request auth_hash request.request_hash rows) [
      | none ↦ (err row_not_found, db)
      | some r ↦ enqueue_request c auth_hash provider request db (record db { jobs = rows }) r
    ]

-- The request of a job, if this owner may see it.
unfoldable pub owned : (id auth_hash provider : String) → List RequestRow → Option RequestRow
owned id auth_hash provider [] = none
owned id auth_hash provider (q ∷ qs) =
    if str_eq q.job_id id && (str_eq q.auth_hash auth_hash && str_eq q.provider provider)
    then some q
    else owned id auth_hash provider qs

-- `Database::owned_job`
unfoldable pub owned_job :
    Codec → (id auth_hash provider : String) → Database → Result StoreError Job
unfolding owned find_id decode
owned_job c id auth_hash provider db = do
  q ← ok_or (owned id auth_hash provider db.requests) is_not_found
  r ← ok_or (find_id id db.jobs) is_not_found
  map_err persistence (decode c r.raw)

-- `Database::owned_request`
unfoldable pub owned_request :
    Codec → (id auth_hash provider : String) → Database → Result StoreError (Job × Value)
unfolding owned find_id decode
owned_request c id auth_hash provider db = do
  q ← ok_or (owned id auth_hash provider db.requests) is_not_found
  job ← stored_job c id db
  body ← map_err json (c.parse q.body_json)
  ok (job, body)

-- `Database::check_idempotency`
unfoldable pub check_idempotency :
    (auth_hash : String) → NormalizedRequest → Database → Result StoreError (Unit {0})
unfolding owner_of find_id
check_idempotency auth_hash request db = elim holder [
  | none ↦ ok tt
  | some r ↦
      if str_eq r.request_hash request.request_hash
      then ok tt
      else err (is_conflicting "Idempotency-Key was already used with a different request")
]
  where
    holder : Option Row
    holder =
        and_then request.idempotency_hash
          (λ key. and_then (owner_of auth_hash key db.requests) (λ q. find_id q.job_id db.jobs))
