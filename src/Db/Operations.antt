-- ===== src/Db/Operations.antt =====
-- The transition methods of src/db.rs, and the insertion of a job, are safe changes of the database.
use kaiion.Prelude.{
  String, true, false, ◌≡◌, refl, inl, inr, arith, ok, ◌>>=◌, str_eq_iff, Option-cases,
}
use kaiion.Json.{Codec}
use kaiion.Domain.{JobState, StoredOutcome, completed, terminal, queued, is_terminal}
use kaiion.Db.Rows.{status_of, encode_outcome, decode}
use kaiion.Db.Table.{Row, Database, Engine, find_id, find_request}
use kaiion.Db.Transitions.{
  matches, matches_file, mark_uploaded, begin_submission, mark_submission_uncertain, mark_submitted,
  store_outcome, set_uploaded, set_submitting, set_uncertain, set_submitted, set_outcome,
}
use kaiion.Db.Statements.{Absent-find_id, Unique}
use kaiion.Db.Safety.{
  weight, budget, under_way, Safe, Safe-refl, transition-Safe, transition-ok, transition-reads,
}
use kaiion.Db.Requests.{
  NormalizedRequest, insert_job, new_row, enqueue, enqueue_request, key_error, insert_request,
  request_row,
}

matches-status : (id status : String) (r : Row) → matches id status r ≡ true → r.raw.status ≡ status
matches-status id status r h = ground (arith, str_eq_iff r.raw.status status)

matches_file-status :
    (id file : String) (r : Row) → matches_file id file r ≡ true → r.raw.status ≡ "uploaded"
matches_file-status id file r h = ground (arith, str_eq_iff r.raw.status "uploaded")

status_of-under_way : (s : JobState) → is_terminal s ≡ false → under_way (status_of s) ≡ true
unfolding status_of
status_of-under_way queued h = refl
status_of-under_way (terminal o) h = cc
status_of-under_way s h = refl

pub mark_uploaded-Safe :
    (e : Engine) (c : Codec) (id file : String) (db : Database)
    → Safe db (mark_uploaded e c id file db).1
unfolding mark_uploaded
mark_uploaded-Safe e c id file =
    transition-Safe e c id "queued" (matches id "queued") (set_uploaded file) (λ r. refl)
      (λ r h. rw (matches-status id "queued" r h) (omega arith))
      (λ r h. rw (matches-status id "queued" r h))

pub begin_submission-Safe :
    (e : Engine) (c : Codec) (id file : String) (db : Database)
    → Safe db (begin_submission e c id file db).1
unfolding begin_submission
begin_submission-Safe e c id file =
    transition-Safe e c id "uploaded" (matches_file id file) (set_submitting e.now) (λ r. refl)
      (λ r h. omega arith) (λ r h. rw (matches_file-status id file r h))

pub mark_submission_uncertain-Safe :
    (e : Engine) (c : Codec) (id : String) (db : Database)
    → Safe db (mark_submission_uncertain e c id db).1
unfolding mark_submission_uncertain
mark_submission_uncertain-Safe e c id =
    transition-Safe e c id "submitting" (matches id "submitting") set_uncertain (λ r. refl)
      (λ r h. omega arith) (λ r h. rw (matches-status id "submitting" r h))

pub mark_submitted-Safe :
    (e : Engine) (c : Codec) (id : String) (expected : JobState) (batch : String) (db : Database)
    → is_terminal expected ≡ false
    → Safe db (mark_submitted e c id expected batch db).1
unfolding mark_submitted
mark_submitted-Safe e c id expected batch db live =
    transition-Safe e c id (status_of expected) (matches id (status_of expected))
      (set_submitted batch) (λ r. refl) (λ r h. omega arith)
      (λ r h. rw (matches-status id (status_of expected) r h) (status_of-under_way expected live))
      db

outcome-weightless :
    (o : StoredOutcome) (json : String) (r : Row)
    → weight (set_outcome (encode_outcome o).0 json r) ≡ 0
unfolding encode_outcome
outcome-weightless (completed v) json r = refl
outcome-weightless o json r = refl

pub store_outcome-Safe :
    (e : Engine) (c : Codec) (id : String) (expected : JobState) (o : StoredOutcome) (db : Database)
    → is_terminal expected ≡ false
    → Safe db (store_outcome e c id expected o db).1
unfolding store_outcome
store_outcome-Safe e c id expected o db live =
    transition-Safe e c id (status_of expected) (matches id (status_of expected)) _ (λ r. refl)
      (λ r h. rw (outcome-weightless o (c.print (encode_outcome o).1) r) (omega arith))
      (λ r h. rw (matches-status id (status_of expected) r h) (status_of-under_way expected live))
      db

matches_file-id : (id file : String) (r : Row) → matches_file id file r ≡ true → r.raw.id ≡ id
matches_file-id id file r h = ground (arith, str_eq_iff r.raw.id id)

submitting-live :
    (c : Codec) (now : String) (r : Row) (s : JobState)
    → (decode c (set_submitting now r).raw >>= λ job. ok job.state) ≡ ok s
    → is_terminal s ≡ false
unfolding decode
submitting-live c now r s h = ground arith

pub begin_submission-live :
    (e : Engine) (c : Codec) (id file : String) (db : Database) (s : JobState)
    → (begin_submission e c id file db).0 ≡ ok s
    → is_terminal s ≡ false
unfolding begin_submission
begin_submission-live e c id file db s h =
    let (r, read) =
      transition-reads e c id "uploaded" (matches_file id file) (set_submitting e.now) (λ r. refl)
        (λ r h. omega arith) (λ r h. rw (matches_file-status id file r h)) db s h in
    submitting-live c e.now r s read

-- A submission that has begun has used up the job's one Batch.
pub begin_submission-spends :
    (e : Engine) (c : Codec) (id file : String) (db : Database) (s : JobState)
    → Unique db.jobs
    → (begin_submission e c id file db).0 ≡ ok s
    → (budget (find_id id db.jobs) ≡ 1)
      × (budget (find_id id (begin_submission e c id file db).1.jobs) ≡ 0)
unfolding begin_submission
begin_submission-spends e c id file db s u h =
    let (r, hit, before, after, read) =
      transition-ok e c id "uploaded" (matches_file id file) (set_submitting e.now) (λ r. refl)
        (λ r h. omega arith) (λ r h. rw (matches_file-status id file r h)) db s
        (matches_file-id id file) u h in
    (rw (before, matches_file-status id file r hit), rw after)

pub insert_job-Safe :
    (db : Database) (fresh auth_hash request_hash model : String)
    → Safe db (record db { jobs = insert_job (new_row fresh auth_hash request_hash model) db.jobs })
unfolding insert_job
insert_job-Safe db fresh auth_hash request_hash model =
    elim (Option-cases (find_id fresh db.jobs)) [
      | inr (r, taken) ↦ rw taken (Safe-refl db)
      | inl free ↦ elim (Option-cases (find_request auth_hash request_hash db.jobs)) [
        | inr (r, known) ↦ rw (free, known) (Safe-refl db)
        | inl new ↦
            rw (free, new)
              (record {
                unique = λ u. (Absent-find_id fresh db.jobs free, u);
                spends = λ j. unfold find_id in ground (arith, str_eq_iff fresh j);
                frozen = λ j r found over. unfold find_id in ground (arith, str_eq_iff fresh j);
              })
      ]
    ]

enqueue_request-Safe :
    (c : Codec) (auth_hash provider : String) (request : NormalizedRequest)
    (before with_job : Database) (r : Row)
    → Safe before with_job
    → Safe before (enqueue_request c auth_hash provider request before with_job r).1
unfolding enqueue_request
enqueue_request-Safe c auth_hash provider request before with_job r h =
    let qs = insert_request (request_row c auth_hash provider request r.raw.id) with_job.requests in
    elim (Option-cases (key_error auth_hash r.raw.id request.idempotency_hash qs)) [
      | inl free ↦
          rw (free, enqueue_request)
            (record { unique = h.unique; spends = h.spends; frozen = h.frozen })
      | inr (e, taken) ↦ rw (taken, enqueue_request) (Safe-refl before)
    ]

pub enqueue-Safe :
    (c : Codec) (fresh auth_hash provider : String) (request : NormalizedRequest) (db : Database)
    → Safe db (enqueue c fresh auth_hash provider request db).1
unfolding enqueue
enqueue-Safe c fresh auth_hash provider request db =
    let rows = insert_job (new_row fresh auth_hash request.request_hash request.model) db.jobs in
    elim (Option-cases (find_request auth_hash request.request_hash rows)) [
      | inl lost ↦ rw (lost, enqueue) (Safe-refl db)
      | inr (r, found) ↦
          rw (found, enqueue)
            (enqueue_request-Safe c auth_hash provider request db (record db { jobs = rows }) r
              (insert_job-Safe db fresh auth_hash request.request_hash request.model))
    ]
