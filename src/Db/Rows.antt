-- ===== src/Db/Rows.antt =====
-- src/db.rs: errors, a raw row of `jobs`, its decoding, and the texts of the status column.
use kaiion.Prelude.{
  String, Bool, true, false, Option, none, some, [], ◌∷◌, Result, ok, err, ◌>>=◌, ◌>>◌, concat,
  str_eq, if◌then◌else◌, is_some, map_err,
}
use kaiion.Json.{Value, Codec}
use kaiion.Domain.{
  Job, JobState, StoredOutcome, queued, uploaded, submitting, submission_uncertain, submitted,
  terminal, completed, failed, incomplete, expired, cancelled,
}

pub data PersistenceError : Type 0 where
  database : String → PersistenceError
  invalid_job : (job_id reason : String) → PersistenceError
  transition_conflict : (job_id expected : String) → PersistenceError
  not_found : String → PersistenceError

abbrev pub is_conflict : PersistenceError → Bool
is_conflict (transition_conflict id expected) = true
is_conflict _ = false

-- The `Display` that thiserror derives.
unfoldable pub persistence_text : PersistenceError → String
persistence_text (database m) = concat ("database error: " ∷ m ∷ [])
persistence_text (invalid_job id reason) =
    concat ("invalid persisted job " ∷ id ∷ ": " ∷ reason ∷ [])
persistence_text (transition_conflict id expected) =
    concat ("job " ∷ id ∷ " transition conflict; expected " ∷ expected ∷ [])
persistence_text (not_found id) = concat ("job " ∷ id ∷ " not found" ∷ [])

pub record RawJob : Type 0 where
  pub id : String
  pub model : String
  pub status : String
  pub input_file_id : Option String
  pub batch_id : Option String
  pub submission_started_at : Option String
  pub outcome_json : Option String

-- The literals that the decoder matches the status column with.
pub data Status : Type 0 where
  is_queued is_uploaded is_submitting is_submission_uncertain is_submitted : Status
  is_completed is_failed is_incomplete is_expired is_cancelled : Status

unfoldable pub parse_status : String → Option Status
parse_status s =
    if str_eq s "queued"
    then some is_queued
    else if str_eq s "uploaded"
    then some is_uploaded
    else if str_eq s "submitting"
    then some is_submitting
    else if str_eq s "submission_uncertain"
    then some is_submission_uncertain
    else if str_eq s "submitted"
    then some is_submitted
    else if str_eq s "completed"
    then some is_completed
    else if str_eq s "failed"
    then some is_failed
    else if str_eq s "incomplete"
    then some is_incomplete
    else if str_eq s "expired"
    then some is_expired
    else if str_eq s "cancelled"
    then some is_cancelled
    else none

abbrev pub invalid {ℓ} : {A : Type ℓ} → RawJob → String → Result PersistenceError A
invalid row reason = err (invalid_job row.id reason)

abbrev pub reject : RawJob → Bool → String → Result {0, 0} PersistenceError Unit
reject row true column = invalid row (concat ("unexpected " ∷ column ∷ []))
reject row false column = ok tt

abbrev pub required : RawJob → Option String → String → Result PersistenceError String
required row none column = invalid row (concat ("missing " ∷ column ∷ []))
required row (some s) column = ok s

-- The arm of "completed" and its four siblings.
unfoldable pub decode_outcome :
    Codec → RawJob → (Value → StoredOutcome) → Result PersistenceError JobState
decode_outcome c row outcome = do
  reject row (is_some row.input_file_id) "input_file_id"
  reject row (is_some row.batch_id) "batch_id"
  reject row (is_some row.submission_started_at) "submission_started_at"
  encoded ← required row row.outcome_json "outcome_json"
  value ←
      map_err (λ e. invalid_job row.id (concat ("invalid outcome_json: " ∷ e ∷ [])))
        (c.parse encoded)
  ok (terminal (outcome value))

-- The arm of "submitting" and "submission_uncertain".
unfoldable pub decode_submission :
    RawJob → (String → String → JobState) → Result PersistenceError JobState
decode_submission row state = do
  reject row (is_some row.batch_id) "batch_id"
  reject row (is_some row.outcome_json) "outcome_json"
  input_file_id ← required row row.input_file_id "input_file_id"
  started_at ← required row row.submission_started_at "submission_started_at"
  ok (state input_file_id started_at)

unfoldable pub decode_as : Codec → RawJob → Option Status → Result PersistenceError JobState
unfolding decode_outcome decode_submission
decode_as c row none = invalid row (concat ("unknown status " ∷ c.debug row.status ∷ []))
decode_as c row (some is_queued) = do
  reject row (is_some row.input_file_id) "input_file_id"
  reject row (is_some row.batch_id) "batch_id"
  reject row (is_some row.submission_started_at) "submission_started_at"
  reject row (is_some row.outcome_json) "outcome_json"
  ok queued
decode_as c row (some is_uploaded) = do
  reject row (is_some row.batch_id) "batch_id"
  reject row (is_some row.submission_started_at) "submission_started_at"
  reject row (is_some row.outcome_json) "outcome_json"
  input_file_id ← required row row.input_file_id "input_file_id"
  ok (uploaded input_file_id)
decode_as c row (some is_submitting) = decode_submission row submitting
decode_as c row (some is_submission_uncertain) = decode_submission row submission_uncertain
decode_as c row (some is_submitted) = do
  reject row (is_some row.input_file_id) "input_file_id"
  reject row (is_some row.submission_started_at) "submission_started_at"
  reject row (is_some row.outcome_json) "outcome_json"
  batch_id ← required row row.batch_id "batch_id"
  ok (submitted batch_id)
decode_as c row (some is_completed) = decode_outcome c row completed
decode_as c row (some is_failed) = decode_outcome c row failed
decode_as c row (some is_incomplete) = decode_outcome c row incomplete
decode_as c row (some is_expired) = decode_outcome c row expired
decode_as c row (some is_cancelled) = decode_outcome c row cancelled

-- `Job::try_from`
unfoldable pub decode : Codec → RawJob → Result PersistenceError Job
unfolding decode_as parse_status
decode c row = do
  state ← decode_as c row (parse_status row.status)
  ok (record { id = row.id; model = row.model; state = state })

unfoldable pub status_of : JobState → String
status_of queued = "queued"
status_of (uploaded f) = "uploaded"
status_of (submitting f t) = "submitting"
status_of (submission_uncertain f t) = "submission_uncertain"
status_of (submitted b) = "submitted"
status_of (terminal (completed v)) = "completed"
status_of (terminal (failed v)) = "failed"
status_of (terminal (incomplete v)) = "incomplete"
status_of (terminal (expired v)) = "expired"
status_of (terminal (cancelled v)) = "cancelled"

unfoldable pub encode_outcome : StoredOutcome → String × Value
encode_outcome (completed v) = ("completed", v)
encode_outcome (failed v) = ("failed", v)
encode_outcome (incomplete v) = ("incomplete", v)
encode_outcome (expired v) = ("expired", v)
encode_outcome (cancelled v) = ("cancelled", v)
