-- ===== src/Db/Transitions.antt =====
-- src/db.rs: the state transitions of `Database`. Each is one UPDATE that compares the status
-- column and writes the new state; the result comes back with the database after it.
use kaiion.Prelude.{
  String, Bool, ◌&&◌, Option, none, some, List, Result, ok, err, str_eq, is_some_and, ◌>>=◌, ok_or,
}
use kaiion.Json.{Codec}
use kaiion.Domain.{JobState, Job, StoredOutcome}
use kaiion.Db.Rows.{
  PersistenceError, database, transition_conflict, not_found, decode, status_of, encode_outcome,
}
use kaiion.Db.Table.{Row, Database, Engine, update, find_id}

abbrev pub Outcome : Type 0
Outcome = Result PersistenceError JobState × Database

unfoldable pub after_update :
    Engine → Codec → String → String → Database → Option (List Row × Option Row) → Outcome
unfolding decode
after_update e c id expected db none = (err (database e.constraint), db)
after_update e c id expected db (some (rows, none)) =
    (err (transition_conflict id expected), record db { jobs = rows })
after_update e c id expected db (some (rows, some r)) =
    (decode c r.raw >>= (λ job. ok job.state), record db { jobs = rows })

unfoldable pub transition :
    Engine → Codec → String → String → (Row → Bool) → (Row → Row) → Database → Outcome
unfolding after_update
transition e c id expected test set db = elim e.failure [
  | some message ↦ (err (database message), db)
  | none ↦ after_update e c id expected db (update c test set db.jobs)
]

-- WHERE id = ? AND status = ?
abbrev pub matches : String → String → Row → Bool
matches id status r = str_eq r.raw.id id && str_eq r.raw.status status

abbrev pub set_uploaded : String → Row → Row
set_uploaded file r = record r {
  raw = record r.raw { status = "uploaded"; input_file_id = some file };
}

unfoldable pub mark_uploaded : Engine → Codec → String → String → Database → Outcome
unfolding transition
mark_uploaded e c id file db =
    transition e c id "queued" (matches id "queued") (set_uploaded file) db

-- WHERE id = ? AND status = 'uploaded' AND input_file_id = ?
abbrev pub matches_file : String → String → Row → Bool
matches_file id file r =
    matches id "uploaded" r && is_some_and r.raw.input_file_id (λ f. str_eq f file)

abbrev pub set_submitting : String → Row → Row
set_submitting now r = record r {
  raw = record r.raw { status = "submitting"; submission_started_at = some now };
}

unfoldable pub begin_submission : Engine → Codec → String → String → Database → Outcome
unfolding transition
begin_submission e c id file db =
    transition e c id "uploaded" (matches_file id file) (set_submitting e.now) db

abbrev pub set_uncertain : Row → Row
set_uncertain r = record r { raw = record r.raw { status = "submission_uncertain" } }

unfoldable pub mark_submission_uncertain : Engine → Codec → String → Database → Outcome
unfolding transition
mark_submission_uncertain e c id db =
    transition e c id "submitting" (matches id "submitting") set_uncertain db

abbrev pub set_submitted : String → Row → Row
set_submitted batch r = record r {
  raw = record r.raw {
    status = "submitted";
    input_file_id = none;
    submission_started_at = none;
    batch_id = some batch;
  };
}

unfoldable pub mark_submitted : Engine → Codec → String → JobState → String → Database → Outcome
unfolding transition status_of
mark_submitted e c id expected batch db =
    transition e c id (status_of expected) (matches id (status_of expected)) (set_submitted batch)
      db

abbrev pub set_outcome : String → String → Row → Row
set_outcome status json r = record r {
  raw = record r.raw {
    status = status;
    input_file_id = none;
    batch_id = none;
    submission_started_at = none;
    outcome_json = some json;
  };
}

-- Serializing a `Value` does not fail, so the arm for that error is not reached.
unfoldable pub store_outcome :
    Engine → Codec → String → JobState → StoredOutcome → Database → Outcome
unfolding transition status_of encode_outcome
store_outcome e c id expected outcome db =
    let encoded = encode_outcome outcome in
    transition e c id (status_of expected) (matches id (status_of expected))
      (set_outcome encoded.0 (c.print encoded.1)) db

-- `Database::get`
unfoldable pub get_job : Engine → Codec → String → Database → Result PersistenceError Job
unfolding find_id decode
get_job e c id db = elim e.failure [
  | some message ↦ err (database message)
  | none ↦ ok_or (find_id id db.jobs) (not_found id) >>= λ r. decode c r.raw
]
