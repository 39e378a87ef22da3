-- ===== src/Db/Machine.antt =====
-- The machine on `JobState` that the transition methods of src/db.rs stand for: commands, verdicts,
-- and what it means that a method's outcome is what the machine says.
use kaiion.Prelude.{String, ◌≡◌, ◌≢◌, some, ok, err, str_eq, if◌then◌else◌}
use kaiion.Json.{Codec}
use kaiion.Domain.{
  JobState, StoredOutcome, queued, uploaded, submitting, submission_uncertain, submitted, terminal,
}
use kaiion.Db.Rows.{database, transition_conflict, status_of}
use kaiion.Db.Table.{Row, Database, Engine, find_id}
use kaiion.Db.Transitions.{
  Outcome, mark_uploaded, begin_submission, mark_submission_uncertain, mark_submitted,
  store_outcome,
}
use kaiion.Db.Statements.{Unique}
use kaiion.Db.Decoding.{columns}

-- What the machine says to a command: the next state, a lost comparison, or a row that the schema
-- refuses.
pub data Verdict : Type 0 where
  moves : JobState → Verdict
  conflicts violates : Verdict

pub data Command : Type 0 where
  upload : (file : String) → Command
  begin : (file : String) → Command
  doubt : Command
  submit : (expected : JobState) (batch : String) → Command
  finish : (expected : JobState) → StoredOutcome → Command

-- The method that a command stands for.
unfoldable pub run_command : Engine → Codec → String → Command → Database → Outcome
run_command e c id (upload file) db = mark_uploaded e c id file db
run_command e c id (begin file) db = begin_submission e c id file db
run_command e c id doubt db = mark_submission_uncertain e c id db
run_command e c id (submit expected batch) db = mark_submitted e c id expected batch db
run_command e c id (finish expected o) db = store_outcome e c id expected o db

-- The status that a command compares with.
abbrev pub compared : Command → String
compared (upload file) = "queued"
compared (begin file) = "uploaded"
compared doubt = "submitting"
compared (submit expected batch) = status_of expected
compared (finish expected o) = status_of expected

abbrev pub machine_submit : String → JobState → Verdict
machine_submit batch (terminal o) = violates
machine_submit batch _ = moves (submitted batch)

-- The machine. `now` is the engine's clock.
unfoldable pub machine : String → Command → JobState → Verdict
machine now (upload file) queued = moves (uploaded file)
machine now (upload file) s = conflicts
machine now (begin file) (uploaded f) =
    if str_eq f file then moves (submitting f now) else conflicts
machine now (begin file) s = conflicts
machine now doubt (submitting f t) = moves (submission_uncertain f t)
machine now doubt s = conflicts
machine now (submit expected batch) s =
    if str_eq (status_of s) (status_of expected) then machine_submit batch s else conflicts
machine now (finish expected o) s =
    if str_eq (status_of s) (status_of expected) then moves (terminal o) else conflicts

-- The job `id` is in state `s`.
pub record Holds (c : Codec) (db : Database) (id : String) (s : JobState) : Type 0 where
  pub row : Row
  pub found : find_id id db.jobs ≡ some row
  pub laid_out : row.raw ≡ columns c id row.raw.model s

-- From one database to another, the job `id` has come to state `s` and nothing else has changed.
pub record Moved (c : Codec) (before after : Database) (id : String) (s : JobState) : Type 0 where
  pub holds : Holds c after id s
  pub others : (j : String) → j ≢ id → find_id j after.jobs ≡ find_id j before.jobs
  pub unique : Unique after.jobs
  pub requests : after.requests ≡ before.requests

-- A method's outcome is what the machine says.
abbrev pub Implements : Engine → Codec → String → String → Database → Outcome → Verdict → Type 0
Implements e c id expected db out (moves s) = (out.0 ≡ ok s) × Moved c db out.1 id s
Implements e c id expected db out conflicts = out ≡ (err (transition_conflict id expected), db)
Implements e c id expected db out violates = out ≡ (err (database e.constraint), db)
