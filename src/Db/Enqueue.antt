-- ===== src/Db/Enqueue.antt =====
-- src/job_store.rs: enqueueing the same request again.
use kaiion.Prelude.{
  Option, String, Bool, true, false, ◌≡◌, refl, sym, ap, ◌∙◌, ◌⊎◌, inl, inr, none, some, List, ◌∷◌,
  Result, ok, err, str_eq_iff, is_some, and_then, if◌then◌else◌, Option-cases,
}
use kaiion.Json.{Codec}
use kaiion.Domain.{Job}
use kaiion.Db.Table.{Row, RequestRow, Database, find_id, find_request}
use kaiion.Db.Requests.{
  NormalizedRequest, StoreError, row_not_found, new_row, insert_job, request_of, owner_of,
  insert_request, request_row, stored_job, key_error, enqueue_request, enqueue,
}

-- A request that is stored already inserts nothing.
insert_job-found :
    (row : Row) (rows : List Row) (r : Row)
    → find_request row.auth_hash row.request_hash rows ≡ some r
    → insert_job row rows ≡ rows
unfolding insert_job
insert_job-found row rows r h = rw (insert_job, h) (either (is_some (find_id row.raw.id rows)))
  where
    either : (there : Bool) → (if there then rows else rows) ≡ rows
    either true = refl
    either false = refl

insert_request-there :
    (q : RequestRow) (qs : List RequestRow)
    → is_some (request_of q.job_id qs) ≡ true
    → insert_request q qs ≡ qs
unfolding insert_request
insert_request-there q qs h = rw (insert_request, h) refl

-- The request's row is new, or the rows stay as they were.
insert_request-cases :
    (q : RequestRow) (qs : List RequestRow)
    → (insert_request q qs ≡ qs) ⊎ (insert_request q qs ≡ q ∷ qs)
unfolding insert_request
insert_request-cases q qs =
    by_tests (is_some (request_of q.job_id qs))
      (is_some (and_then q.idempotency_hash (λ key. owner_of q.auth_hash key qs)))
  where
    by_tests :
        (there owned : Bool)
        → ((if there then qs else if owned then qs else q ∷ qs) ≡ qs)
          ⊎ ((if there then qs else if owned then qs else q ∷ qs) ≡ q ∷ qs)
    by_tests true owned = inl refl
    by_tests false true = inl refl
    by_tests false false = inr refl

-- Inserting a request's row again changes nothing.
insert_request-again :
    (q : RequestRow) (qs : List RequestRow)
    → insert_request q (insert_request q qs) ≡ insert_request q qs
unfolding request_of
insert_request-again q qs = elim (insert_request-cases q qs) [
  | inl kept ↦ ap (λ l. insert_request q l) kept
  | inr added ↦
      ap (λ l. insert_request q l) added ∙ insert_request-there q (q ∷ qs) (found q qs) ∙ sym added
]
  where
    found : (q : RequestRow) (qs : List RequestRow) → is_some (request_of q.job_id (q ∷ qs)) ≡ true
    found q qs = rw (request_of, (str_eq_iff q.job_id q.job_id).1 refl) refl

module _ (c : Codec) (auth_hash provider : String) (request : NormalizedRequest) where
  -- `enqueue_request` with a job: the key is free for it, and the rows are the ones inserted.
  enqueue_request-ok :
      (before with_job : Database) (r : Row) (job : Job)
      → (enqueue_request c auth_hash provider request before with_job r).0 ≡ ok job
      → let qs =
          insert_request (request_row c auth_hash provider request r.raw.id) with_job.requests in
        let after = record with_job { requests = qs } in
        (key_error auth_hash r.raw.id request.idempotency_hash qs ≡ none)
        × (enqueue_request c auth_hash provider request before with_job r
            ≡ (stored_job c r.raw.id after, after))
  unfolding enqueue_request
  enqueue_request-ok before with_job r job h = by_key _ h
    where
      qs : List RequestRow
      qs = insert_request (request_row c auth_hash provider request r.raw.id) with_job.requests

      after : Database
      after = record with_job { requests = qs }

      answer : Option StoreError → Result StoreError Job × Database
      answer found = elim found [
        | some e ↦ (err e, before)
        | none ↦ (stored_job c r.raw.id after, after)
      ]

      by_key :
          (found : Option StoreError)
          → (answer found).0 ≡ ok job
          → (found ≡ none) × (answer found ≡ (stored_job c r.raw.id after, after))
      by_key (some e) k = cc
      by_key none k = (refl, refl)

  enqueue-found :
      (fresh : String) (db : Database) (r : Row)
      → let rows =
          insert_job (new_row fresh auth_hash request.request_hash request.model) db.jobs in
        find_request auth_hash request.request_hash rows ≡ some r
        → enqueue c fresh auth_hash provider request db
          ≡ enqueue_request c auth_hash provider request db (record db { jobs = rows }) r
  unfolding enqueue
  enqueue-found fresh db r e = rw (enqueue, e) refl

  enqueue-missing :
      (fresh : String) (db : Database)
      → find_request auth_hash request.request_hash
          (insert_job (new_row fresh auth_hash request.request_hash request.model) db.jobs)
        ≡ none
      → (enqueue c fresh auth_hash provider request db).0 ≡ err row_not_found
  unfolding enqueue
  enqueue-missing fresh db e = rw (enqueue, e) refl

  enqueue_request-free :
      (before with_job : Database) (r : Row)
      → let qs =
          insert_request (request_row c auth_hash provider request r.raw.id) with_job.requests in
        let after = record with_job { requests = qs } in
        key_error auth_hash r.raw.id request.idempotency_hash qs ≡ none
        → enqueue_request c auth_hash provider request before with_job r
          ≡ (stored_job c r.raw.id after, after)
  unfolding enqueue_request
  enqueue_request-free before with_job r free = rw (enqueue_request, free) refl

  -- With its rows there, a request that is enqueued gets its job and changes nothing.
  enqueue-settled :
      (again : String) (rows : List Row) (qs : List RequestRow) (r : Row)
      → find_request auth_hash request.request_hash rows ≡ some r
      → insert_request (request_row c auth_hash provider request r.raw.id) qs ≡ qs
      → key_error auth_hash r.raw.id request.idempotency_hash qs ≡ none
      → let db : Database = record { jobs = rows; requests = qs } in
        enqueue c again auth_hash provider request db ≡ (stored_job c r.raw.id db, db)
  enqueue-settled again rows qs r e stays free =
      enqueue-found again db r (ap (λ l. find_request auth_hash request.request_hash l) kept ∙ e)
      ∙ ap (λ l. enqueue_request c auth_hash provider request db (record db { jobs = l }) r) kept
      ∙ enqueue_request-free db db r
          (ap (λ l. key_error auth_hash r.raw.id request.idempotency_hash l) stays ∙ free)
      ∙ ap (λ l. (stored_job c r.raw.id (record db { requests = l }), record db { requests = l }))
          stays
    where
      db : Database
      db = record { jobs = rows; requests = qs }

      kept : insert_job (new_row again auth_hash request.request_hash request.model) rows ≡ rows
      kept = insert_job-found (new_row again auth_hash request.request_hash request.model) rows r e

  -- A client that enqueues a request again, after it was enqueued once, gets the same job, whatever
  -- new id is drawn, and the database stays as it is.
  pub enqueue-again :
      (fresh again : String) (db : Database) (job : Job)
      → (enqueue c fresh auth_hash provider request db).0 ≡ ok job
      → enqueue c again auth_hash provider request (enqueue c fresh auth_hash provider request db).1
        ≡ (ok job, (enqueue c fresh auth_hash provider request db).1)
  enqueue-again fresh again db job h =
      elim (Option-cases (find_request auth_hash request.request_hash rows)) [
        | inl missing ↦
            let bad : err row_not_found ≡ ok job = sym (enqueue-missing fresh db missing) ∙ h in cc
        | inr (r, e) ↦ repeated r e
      ]
    where
      rows : List Row
      rows = insert_job (new_row fresh auth_hash request.request_hash request.model) db.jobs

      repeated :
          (r : Row)
          → find_request auth_hash request.request_hash rows ≡ some r
          → enqueue c again auth_hash provider request
              (enqueue c fresh auth_hash provider request db).1
            ≡ (ok job, (enqueue c fresh auth_hash provider request db).1)
      repeated r e =
          let q = request_row c auth_hash provider request r.raw.id in
          let qs = insert_request q db.requests in
          let after : Database = record { jobs = rows; requests = qs } in
          let first = enqueue-found fresh db r e in
          let answered = sym (ap (λ x. x.0) first) ∙ h in
          let (free, ends) = enqueue_request-ok db (record db { jobs = rows }) r job answered in
          let settled = ap (λ x. x.1) (first ∙ ends) in
          let got = sym (ap (λ x. x.0) ends) ∙ answered in
          ap (λ d. enqueue c again auth_hash provider request d) settled
          ∙ enqueue-settled again rows qs r e (insert_request-again q db.requests) free
          ∙ ap (λ x. (x, after)) got
          ∙ ap (λ d. (ok job, d)) (sym settled)
