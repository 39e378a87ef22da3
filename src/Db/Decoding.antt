-- ===== src/Db/Decoding.antt =====
-- The decoder of `jobs` rows (src/db.rs) against the layout of the columns and the CHECK of
-- migrations/0003.
use kaiion.Prelude.{
  String, true, ◌≡◌, refl, ◌≢◌, if◌then◌else◌, ◌↔◌, inl, inr, Option, none, some, ok, err, arith,
  str_eq, str_eq_iff, Bool-cases, Option-cases, ◌>>=◌, sym, ◌∙◌, Result-cases, is_some_and,
}
use kaiion.Json.{Value, Codec, RoundTrips}
use kaiion.Domain.{
  Job, JobState, StoredOutcome, queued, uploaded, submitting, submission_uncertain, submitted,
  terminal, completed, failed, incomplete, expired, cancelled,
}
use kaiion.Db.Rows.{
  PersistenceError, RawJob, Status, is_queued, is_uploaded, is_submitting, is_submission_uncertain,
  is_submitted, is_completed, is_failed, is_incomplete, is_expired, is_cancelled, parse_status,
  decode_outcome, decode_as, decode, status_of,
}
use kaiion.Db.Table.{check_as, check}

abbrev pub payload : StoredOutcome → Value
payload (completed v) = v
payload (failed v) = v
payload (incomplete v) = v
payload (expired v) = v
payload (cancelled v) = v

-- The columns that stand for a state: a description of what the UPDATEs of src/db.rs write, with
-- which they are compared.
abbrev pub columns : Codec → String → String → JobState → RawJob
columns c id model state = record {
  id = id;
  model = model;
  status = status_of state;
  input_file_id = file state;
  batch_id = batch state;
  submission_started_at = started state;
  outcome_json = outcome state;
}
  where
    file : JobState → Option String
    file (uploaded f) = some f
    file (submitting f t) = some f
    file (submission_uncertain f t) = some f
    file _ = none

    batch : JobState → Option String
    batch (submitted b) = some b
    batch _ = none

    started : JobState → Option String
    started (submitting f t) = some t
    started (submission_uncertain f t) = some t
    started _ = none

    outcome : JobState → Option String
    outcome (terminal o) = some (c.print (payload o))
    outcome _ = none

-- The outcome of a finished job survives its text.
abbrev pub Readable : Codec → JobState → Type 0
Readable c (terminal o) = RoundTrips c (payload o)
Readable c _ = Unit

pub check-columns :
    (c : Codec) (id model : String) (s : JobState)
    → Readable c s
    → check c (columns c id model s) ≡ true
unfolding check status_of
check-columns c id model (terminal (completed v)) h = h.is_valid
check-columns c id model (terminal (failed v)) h = h.is_valid
check-columns c id model (terminal (incomplete v)) h = h.is_valid
check-columns c id model (terminal (expired v)) h = h.is_valid
check-columns c id model (terminal (cancelled v)) h = h.is_valid
check-columns c id model queued h = refl
check-columns c id model (uploaded f) h = refl
check-columns c id model (submitting f t) h = refl
check-columns c id model (submission_uncertain f t) h = refl
check-columns c id model (submitted b) h = refl

-- A job whose outcome text reads back is decoded from the row that lays it out: the id, the model and
-- the state come back as they were.
pub decode-columns :
    (c : Codec) (id model : String) (s : JobState)
    → Readable c s
    → decode c (columns c id model s) ≡ ok (record { id = id; model = model; state = s })
unfolding decode status_of
decode-columns c id model (terminal (completed v)) h = rw h.reads_back
decode-columns c id model (terminal (failed v)) h = rw h.reads_back
decode-columns c id model (terminal (incomplete v)) h = rw h.reads_back
decode-columns c id model (terminal (expired v)) h = rw h.reads_back
decode-columns c id model (terminal (cancelled v)) h = rw h.reads_back
decode-columns c id model queued h = refl
decode-columns c id model (uploaded f) h = refl
decode-columns c id model (submitting f t) h = refl
decode-columns c id model (submission_uncertain f t) h = refl
decode-columns c id model (submitted b) h = refl

abbrev status_name : Status → String
status_name is_queued = "queued"
status_name is_uploaded = "uploaded"
status_name is_submitting = "submitting"
status_name is_submission_uncertain = "submission_uncertain"
status_name is_submitted = "submitted"
status_name is_completed = "completed"
status_name is_failed = "failed"
status_name is_incomplete = "incomplete"
status_name is_expired = "expired"
status_name is_cancelled = "cancelled"

name-or-rest :
    (s : String) (t u : Status) (rest : Option Status)
    → (rest ≡ some u → s ≡ status_name u)
    → (if str_eq s (status_name t) then some t else rest) ≡ some u
    → s ≡ status_name u
name-or-rest s t u rest later h = elim (Bool-cases (str_eq s (status_name t))) [
  | inl hit ↦ let same = (str_eq_iff s (status_name t)).0 hit in ground arith
  | inr miss ↦ later (rw miss at h)
]

parse_status-name : (s : String) (u : Status) → parse_status s ≡ some u → s ≡ status_name u
unfolding parse_status
parse_status-name s u = name-or-rest s is_queued u _ (
    name-or-rest s is_uploaded u _ (
      name-or-rest s is_submitting u _ (
        name-or-rest s is_submission_uncertain u _ (
          name-or-rest s is_submitted u _ (
            name-or-rest s is_completed u _ (
              name-or-rest s is_failed u _ (
                name-or-rest s is_incomplete u _
                  (name-or-rest s is_expired u _ (name-or-rest s is_cancelled u _ (λ h. cc))))))))))

-- serde_json and SQLite agree on whether this row's outcome is JSON.
abbrev pub AgreesOn : Codec → RawJob → Type 0
AgreesOn c row =
    (s : String)
    → row.outcome_json ≡ some s
    → (c.json_valid s ≡ true) ↔ ((v : Value) × (c.parse s ≡ ok v))

module _ (c : Codec) (row : RawJob) (agrees : AgreesOn c row) where
  decode_outcome-check :
      (outcome : Value → StoredOutcome) (s : JobState)
      → decode_outcome c row outcome ≡ ok s
      → is_some_and row.outcome_json c.json_valid ≡ true
  unfolding decode_outcome
  decode_outcome-check outcome s h = elim (Option-cases row.outcome_json) [
    | inl e ↦ ground arith
    | inr (text, e) ↦ elim (Result-cases (c.parse text)) [
      | inl (v, read) ↦ ground (arith, (agrees text e).1 (v, read))
      | inr (m, unread) ↦ ground arith
    ]
  ]

  decode_outcome-ne-err :
      (outcome : Value → StoredOutcome) (e : PersistenceError)
      → check_as c row (some is_completed) ≡ true
      → decode_outcome c row outcome ≢ err e
  unfolding decode_outcome check_as
  decode_outcome-ne-err outcome e h k = elim (Option-cases row.outcome_json) [
    | inl p ↦ ground arith
    | inr (text, p) ↦ elim (Bool-cases (c.json_valid text)) [
      | inl valid ↦ let (v, read) = (agrees text p).0 valid in ground arith
      | inr invalid ↦ ground arith
    ]
  ]

  decode_as-status :
      (t : Status) (s : JobState) → decode_as c row (some t) ≡ ok s → status_of s ≡ status_name t
  unfolding decode_as status_of
  decode_as-status is_queued s h = ground arith
  decode_as-status t s h = ground arith

  decode_as-check :
      (t : Status) (s : JobState) → decode_as c row (some t) ≡ ok s → check_as c row (some t) ≡ true
  unfolding decode_as check_as
  decode_as-check is_completed s h = ground (arith, decode_outcome-check completed s h)
  decode_as-check is_failed s h = ground (arith, decode_outcome-check failed s h)
  decode_as-check is_incomplete s h = ground (arith, decode_outcome-check incomplete s h)
  decode_as-check is_expired s h = ground (arith, decode_outcome-check expired s h)
  decode_as-check is_cancelled s h = ground (arith, decode_outcome-check cancelled s h)
  decode_as-check is_queued s h = ground arith
  decode_as-check t s h = ground arith

  decode_as-ne-err :
      (t : Status) (e : PersistenceError)
      → check_as c row (some t) ≡ true
      → decode_as c row (some t) ≢ err e
  unfolding decode_as check_as
  decode_as-ne-err is_completed e h = decode_outcome-ne-err completed e h
  decode_as-ne-err is_failed e h = decode_outcome-ne-err failed e h
  decode_as-ne-err is_incomplete e h = decode_outcome-ne-err incomplete e h
  decode_as-ne-err is_expired e h = decode_outcome-ne-err expired e h
  decode_as-ne-err is_cancelled e h = decode_outcome-ne-err cancelled e h
  decode_as-ne-err is_queued e h = ground arith
  decode_as-ne-err t e h = ground arith

  decode_as_iff :
      (o : Option Status)
      → (check_as c row o ≡ true)
        ↔ ((t : Status) × (s : JobState) × (o ≡ some t) × (decode_as c row o ≡ ok s))
  decode_as_iff none = (λ h. unfold check_as in cc, λ (t, s, e, h). cc)
  decode_as_iff (some t) = (
    (λ h. elim (Result-cases (decode_as c row (some t))) [
      | inl (s, e) ↦ (t, s, refl, e)
      | inr (e, no_state) ↦ absurd (decode_as-ne-err t e h no_state)
    ]),
    λ (t', s, e, h). decode_as-check t s h,
  )

check_as-decode :
    (c : Codec) (row : RawJob)
    → AgreesOn c row
    → (o : Option Status) (job : Job)
    → (decode_as c row o >>= λ s. ok (record { id = row.id; model = row.model; state = s }))
      ≡ ok job
    → check_as c row o ≡ true
check_as-decode c row agrees none job d = unfold decode_as in cc
check_as-decode c row agrees (some t) job d = elim (Result-cases (decode_as c row (some t))) [
  | inl (s, e) ↦ decode_as-check c row agrees t s e
  | inr (m, e) ↦ ground arith
]

-- The decoder accepts a row exactly when the row satisfies the CHECK of the schema, wherever
-- serde_json and SQLite agree on its outcome text; the job then has the row's id, model and status.
pub decode-iff-check :
    (c : Codec) (row : RawJob)
    → AgreesOn c row
    → (check c row ≡ true) ↔ (
        (job : Job) × (decode c row ≡ ok job)
        × (job.id ≡ row.id)
        × (job.model ≡ row.model)
        × (status_of job.state ≡ row.status))
unfolding decode check
decode-iff-check c row agrees = (forth, λ (job, d, _, _, _). check_as-decode c row agrees _ job d)
  where
    forth :
        check_as c row (parse_status row.status) ≡ true
        → ((job : Job) × (decode c row ≡ ok job)
            × (job.id ≡ row.id)
            × (job.model ≡ row.model)
            × (status_of job.state ≡ row.status))
    forth h =
        let (t, s, e, d) = (decode_as_iff c row agrees (parse_status row.status)).0 h in
        (
          record { id = row.id; model = row.model; state = s },
          rw (d, ◌>>=◌),
          refl,
          refl,
          decode_as-status c row agrees t s (rw e at d) ∙ sym (parse_status-name row.status t e),
        )
