-- ===== src/Db/Table.antt =====
-- The tables of migrations/ and the UPDATE statement of SQLite on `jobs`, as src/db.rs uses it. The
-- columns created_at and updated_at are left out: no statement reads them.
use kaiion.Prelude.{
  String, Bool, false, ◌&&◌, Option, none, some, List, [], ◌∷◌, str_eq, if◌then◌else◌, is_none,
  is_some, is_some_and,
}
use kaiion.Json.{Codec}
use kaiion.Db.Rows.{
  RawJob, Status, parse_status, is_queued, is_uploaded, is_submitting, is_submission_uncertain,
  is_submitted,
}

-- A row of `jobs`.
pub record Row : Type 0 where
  pub raw : RawJob
  pub auth_hash : String
  pub request_hash : String

-- A row of `job_requests`.
pub record RequestRow : Type 0 where
  pub job_id : String
  pub provider : String
  pub auth_hash : String
  pub idempotency_hash : Option String
  pub body_json : String

pub record Database : Type 0 where
  pub jobs : List Row
  pub requests : List RequestRow

-- What SQLite brings to one statement: a failure of its own, the clock, and the text of the error
-- by which it refuses a row.
pub record Engine : Type 0 where
  pub failure : Option String
  pub now : String
  pub constraint : String

-- The CHECK of migrations/0003 on the columns of a row with this status.
unfoldable pub check_as : Codec → RawJob → Option Status → Bool
check_as c r none = false
check_as c r (some is_queued) =
    is_none r.input_file_id
    && is_none r.batch_id
    && is_none r.submission_started_at
    && is_none r.outcome_json
check_as c r (some is_uploaded) =
    is_some r.input_file_id
    && is_none r.batch_id
    && is_none r.submission_started_at
    && is_none r.outcome_json
check_as c r (some is_submitting) =
    is_some r.input_file_id
    && is_none r.batch_id
    && is_some r.submission_started_at
    && is_none r.outcome_json
check_as c r (some is_submission_uncertain) =
    is_some r.input_file_id
    && is_none r.batch_id
    && is_some r.submission_started_at
    && is_none r.outcome_json
check_as c r (some is_submitted) =
    is_none r.input_file_id
    && is_some r.batch_id
    && is_none r.submission_started_at
    && is_none r.outcome_json
check_as c r (some _) =
    is_none r.input_file_id
    && is_none r.batch_id
    && is_none r.submission_started_at
    && is_some_and r.outcome_json c.json_valid

unfoldable pub check : Codec → RawJob → Bool
unfolding check_as parse_status
check c r = check_as c r (parse_status r.status)

-- UPDATE jobs SET … WHERE … RETURNING …: the rows after it and the first row returned, or `none`
-- where a row that it writes breaks the CHECK, which undoes the whole statement.
unfoldable pub update :
    Codec → (Row → Bool) → (Row → Row) → List Row → Option (List Row × Option Row)
update c test set [] = some ([], none)
update c test set (r ∷ rs) = elim (update c test set rs) [
  | none ↦ none
  | some (rs', found) ↦
      if test r
      then if check c (set r).raw then some (set r ∷ rs', some (set r)) else none
      else some (r ∷ rs', found)
]

-- SELECT … FROM jobs WHERE id = ?
unfoldable pub find_id : String → List Row → Option Row
find_id id [] = none
find_id id (r ∷ rs) = if str_eq r.raw.id id then some r else find_id id rs

-- SELECT … FROM jobs WHERE auth_hash = ? AND request_hash = ?
unfoldable pub find_request : String → String → List Row → Option Row
find_request auth_hash request_hash [] = none
find_request auth_hash request_hash (r ∷ rs) =
    if str_eq r.auth_hash auth_hash && str_eq r.request_hash request_hash
    then some r
    else find_request auth_hash request_hash rs
