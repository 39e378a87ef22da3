-- ===== src/Db/Refinement.antt =====
-- The transitions of src/db.rs refine a machine on `JobState`: what the UPDATE statements do to the
-- columns is what the machine does to the state, and the statement touches no other job.
use kaiion.Prelude.{
  String, true, false, ◌≡◌, refl, ◌∙◌, ap, inl, inr, none, some, err, arith, str_eq, str_eq_iff,
  Bool-cases,
}
use kaiion.Json.{Codec, RoundTrips}
use kaiion.Domain.{
  JobState, StoredOutcome, queued, uploaded, submitting, submission_uncertain, submitted, terminal,
  completed, is_terminal,
}
use kaiion.Db.Rows.{RawJob, database, transition_conflict, status_of, encode_outcome}
use kaiion.Db.Table.{Row, Database, Engine, check}
use kaiion.Db.Transitions.{
  transition, matches, mark_uploaded, begin_submission, mark_submission_uncertain, mark_submitted,
  store_outcome, matches_file, set_uploaded, set_submitting, set_uncertain, set_submitted,
  set_outcome,
}
use kaiion.Db.Statements.{Unique}
use kaiion.Db.Decoding.{payload, columns, Readable}
use kaiion.Db.Machine.{
  moves, Command, upload, begin, doubt, submit, finish, run_command, compared, machine_submit,
  machine, Holds, Implements,
}
use kaiion.Db.Moves.{
  transition-conflicts, transition-violates, transition-moves, matches-Names, matches_file-Names,
}

module _ (e : Engine) (c : Codec) (id : String) (db : Database) (healthy : e.failure ≡ none)
    (unique : Unique db.jobs) where
  module _ (s : JobState) (r : Row) (laid : r.raw ≡ columns c id r.raw.model s) where
    matches-columns : (status : String) → matches id status r ≡ str_eq (status_of s) status
    matches-columns status =
        let same : r.raw.id ≡ id = ap (λ w. w.id) laid in
        let shown : r.raw.status ≡ status_of s = ap (λ w. w.status) laid in
        rw shown (ground (arith, str_eq_iff r.raw.id id))

  module _ (status : String) (set : Row → Row) (s : JobState) (h : Holds c db id s) where
    matches-conflicts :
        str_eq (status_of s) status ≡ false
        → transition e c id status (matches id status) set db
          ≡ (err (transition_conflict id status), db)
    matches-conflicts other =
        transition-conflicts e c id status (matches id status) set (matches-Names id status) db
          h.row healthy unique h.found (matches-columns s h.row h.laid_out status ∙ other)

    matches-moves :
        (s' : JobState)
        → str_eq (status_of s) status ≡ true
        → (set h.row).raw ≡ columns c id h.row.raw.model s'
        → Readable c s'
        → Implements e c id status db
            (transition e c id status (matches id status) set db)
            (moves s')
    matches-moves s' same out readable =
        transition-moves e c id status (matches id status) set (matches-Names id status) db h.row
          healthy unique h.found s' (matches-columns s h.row h.laid_out status ∙ same) out readable

    matches-violates :
        str_eq (status_of s) status ≡ true
        → check c (set h.row).raw ≡ false
        → transition e c id status (matches id status) set db ≡ (err (database e.constraint), db)
    matches-violates same bad =
        transition-violates e c id status (matches id status) set (matches-Names id status) db h.row
          healthy unique h.found (matches-columns s h.row h.laid_out status ∙ same) bad

  upload-Implements :
      (file : String) (s : JobState)
      → Holds c db id s
      → Implements e c id "queued" db (mark_uploaded e c id file db) (machine e.now (upload file) s)
  unfolding machine mark_uploaded status_of
  upload-Implements file queued h =
      matches-moves "queued" (set_uploaded file) queued h (uploaded file) refl
        (ap {B = RawJob} (λ w. record w { status = "uploaded"; input_file_id = some file })
          h.laid_out)
        tt
  upload-Implements file (terminal (completed v)) h =
      matches-conflicts "queued" (set_uploaded file) _ h refl
  upload-Implements file (terminal o) h = matches-conflicts "queued" (set_uploaded file) _ h refl
  upload-Implements file s h = matches-conflicts "queued" (set_uploaded file) _ h refl

  doubt-Implements :
      (s : JobState)
      → Holds c db id s
      → Implements e c id "submitting" db
          (mark_submission_uncertain e c id db)
          (machine e.now doubt s)
  unfolding machine mark_submission_uncertain status_of
  doubt-Implements (submitting f t) h =
      matches-moves "submitting" set_uncertain (submitting f t) h (submission_uncertain f t) refl
        (ap {B = RawJob} (λ w. record w { status = "submission_uncertain" }) h.laid_out) tt
  doubt-Implements (terminal (completed v)) h =
      matches-conflicts "submitting" set_uncertain _ h refl
  doubt-Implements (terminal o) h = matches-conflicts "submitting" set_uncertain _ h refl
  doubt-Implements s h = matches-conflicts "submitting" set_uncertain _ h refl

  module _ (file : String) (s : JobState) (h : Holds c db id s) where
    begin-conflicts :
        matches_file id file h.row ≡ false
        → begin_submission e c id file db ≡ (err (transition_conflict id "uploaded"), db)
    unfolding begin_submission
    begin-conflicts =
        transition-conflicts e c id "uploaded" (matches_file id file) (set_submitting e.now)
          (matches_file-Names id file) db h.row healthy unique h.found

    not-uploaded :
        str_eq (status_of s) "uploaded" ≡ false
        → begin_submission e c id file db ≡ (err (transition_conflict id "uploaded"), db)
    not-uploaded other =
        begin-conflicts (ground (arith, matches-columns s h.row h.laid_out "uploaded"))

  begin-Implements :
      (file : String) (s : JobState)
      → Holds c db id s
      → Implements e c id "uploaded" db
          (begin_submission e c id file db)
          (machine e.now (begin file) s)
  unfolding machine status_of
  begin-Implements file (uploaded f) h =
      let same_file : h.row.raw.input_file_id ≡ some f = ap (λ w. w.input_file_id) h.laid_out in
      let known = matches-columns (uploaded f) h.row h.laid_out "uploaded" in
      elim (Bool-cases (str_eq f file)) [
        | inl same ↦ rw same (
            unfold begin_submission in
            transition-moves e c id "uploaded" (matches_file id file) (set_submitting e.now)
              (matches_file-Names id file) db h.row healthy unique h.found (submitting f e.now)
              (rw (known, same_file) same)
              (ap {B = RawJob}
                (λ w. record w { status = "submitting"; submission_started_at = some e.now })
                h.laid_out)
              tt)
        | inr other ↦ rw other (begin-conflicts file (uploaded f) h (rw (known, same_file) other))
      ]
  begin-Implements file (terminal (completed v)) h = not-uploaded file _ h refl
  begin-Implements file (terminal o) h = not-uploaded file _ h refl
  begin-Implements file s h = not-uploaded file s h refl

  submitted-columns :
      (batch : String) (s : JobState) (h : Holds c db id s)
      → is_terminal s ≡ false
      → (set_submitted batch h.row).raw ≡ columns c id h.row.raw.model (submitted batch)
  unfolding status_of
  submitted-columns batch s h live = ground (arith, h.laid_out)

  outcome-columns :
      (o : StoredOutcome) (s : JobState) (h : Holds c db id s)
      → (set_outcome (encode_outcome o).0 (c.print (encode_outcome o).1) h.row).raw
        ≡ columns c id h.row.raw.model (terminal o)
  unfolding status_of encode_outcome
  outcome-columns (completed v) s h = ground (arith, h.laid_out)
  outcome-columns o s h = ground (arith, h.laid_out)

  finished-violates :
      (batch : String) (o : StoredOutcome) (h : Holds c db id (terminal o))
      → check c (set_submitted batch h.row).raw ≡ false
  unfolding check
  finished-violates batch o h =
      let written : (h.row.raw).outcome_json ≡ some (c.print (payload o)) =
        ap (λ w. w.outcome_json) h.laid_out in
      ground arith

  submit-Implements :
      (expected : JobState) (batch : String) (s : JobState)
      → Holds c db id s
      → Implements e c id
          (status_of expected)
          db
          (mark_submitted e c id expected batch db)
          (machine e.now (submit expected batch) s)
  unfolding machine mark_submitted
  submit-Implements expected batch s h =
      elim (Bool-cases (str_eq (status_of s) (status_of expected))) [
        | inl same ↦ rw same (at s h same)
        | inr other ↦
            rw other (matches-conflicts (status_of expected) (set_submitted batch) s h other)
      ]
    where
      at :
          (s : JobState) (h : Holds c db id s)
          → str_eq (status_of s) (status_of expected) ≡ true
          → Implements e c id
              (status_of expected)
              db
              (mark_submitted e c id expected batch db)
              (machine_submit batch s)
      at (terminal o) h same =
          matches-violates (status_of expected) (set_submitted batch) (terminal o) h same
            (finished-violates batch o h)
      at s h same =
          matches-moves (status_of expected) (set_submitted batch) s h (submitted batch) same
            (submitted-columns batch s h refl) tt

  finish-Implements :
      (expected : JobState) (o : StoredOutcome) (s : JobState)
      → Readable c (terminal o)
      → Holds c db id s
      → Implements e c id
          (status_of expected)
          db
          (store_outcome e c id expected o db)
          (machine e.now (finish expected o) s)
  unfolding machine store_outcome
  finish-Implements expected o s readable h =
      elim (Bool-cases (str_eq (status_of s) (status_of expected))) [
        | inl same ↦ rw same (
            matches-moves (status_of expected) _ s h (terminal o) same (outcome-columns o s h)
              readable)
        | inr other ↦ rw other (matches-conflicts (status_of expected) _ s h other)
      ]

-- The outcome that a command stores survives its text.
abbrev pub ReadableCommand : Codec → Command → Type 0
ReadableCommand c (finish expected o) = RoundTrips c (payload o)
ReadableCommand c _ = Unit

-- Where SQLite does not fail and ids are unique, each transition method of `Database` does to a job
-- exactly what the machine does to its state: it moves the job there and leaves every other job,
-- the job_requests and the uniqueness of ids as they were, or it reports a conflict or a refused
-- row and changes nothing at all.
pub run_command-Implements :
    (e : Engine) (c : Codec) (id : String) (command : Command) (db : Database) (s : JobState)
    → e.failure ≡ none
    → Unique db.jobs
    → ReadableCommand c command
    → Holds c db id s
    → Implements e c id
        (compared command)
        db
        (run_command e c id command db)
        (machine e.now command s)
unfolding run_command
run_command-Implements e c id (upload file) db s healthy u r h =
    upload-Implements e c id db healthy u file s h
run_command-Implements e c id (begin file) db s healthy u r h =
    begin-Implements e c id db healthy u file s h
run_command-Implements e c id doubt db s healthy u r h = doubt-Implements e c id db healthy u s h
run_command-Implements e c id (submit expected batch) db s healthy u r h =
    submit-Implements e c id db healthy u expected batch s h
run_command-Implements e c id (finish expected o) db s healthy u r h =
    finish-Implements e c id db healthy u expected o s r h
