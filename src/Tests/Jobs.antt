-- ===== src/Tests/Jobs.antt =====
-- Runs of the durable jobs: src/db.rs, src/job_store.rs and src/driver.rs.
use kaiion.Prelude.{
  String, ap, subst, unwrap_or, some, false, ◌≡◌, refl, ◌↔◌, some, [], ◌≤◌, ok, true,
}
use kaiion.Json.{null}
use kaiion.Domain.{Job, JobState, queued, submitted, terminal, completed}
use kaiion.Db.Rows.{decode, status_of}
use kaiion.Db.Table.{check, find_id}
use kaiion.Db.Machine.{upload, machine, Holds, Implements, run_command, compared}
use kaiion.Db.Decoding.{columns, AgreesOn, decode-iff-check}
use kaiion.Db.Requests.{NormalizedRequest, stored_job, enqueue}
use kaiion.Db.Enqueue.{enqueue-again}
use kaiion.Db.Refinement.{run_command-Implements}
use kaiion.Driver.World.{World, created}
use kaiion.Driver.Turn.{turn}
use kaiion.Driver.History.{here, then, turns, fresh_world, created-le-one, finished-stays}
use kaiion.Tests.Samples.{codec, engine, outside, row_at, database_at, job_at, finished_body}

-- A finished job's row, with an outcome text that the parser reads.
abbrev finished : JobState
finished = terminal (completed finished_body)

finished-AgreesOn : AgreesOn codec (columns codec "a" "gpt" finished)
finished-AgreesOn s e =
    let same : ◌≡◌ {A = String} "{}" s = ap (λ o. unwrap_or o "{}") e in
    (λ h. (finished_body, subst (λ t. codec.parse t ≡ ok finished_body) same refl), λ found. refl)

decode-iff-check_example :
    let row = columns codec "a" "gpt" finished in
    (check codec row ≡ true) ↔ (
      (job : Job) × (decode codec row ≡ ok job)
      × (job.id ≡ row.id)
      × (job.model ≡ row.model)
      × (status_of job.state ≡ row.status))
decode-iff-check_example =
    decode-iff-check codec (columns codec "a" "gpt" finished) finished-AgreesOn

held : Holds codec (database_at queued) "a" queued
held = record { row = row_at queued; found = unfold find_id in refl; laid_out = refl }

run_command-Implements_example :
    Implements engine codec "a"
      (compared (upload "f"))
      (database_at queued)
      (run_command engine codec "a" (upload "f") (database_at queued))
      (machine "2026-01-01" (upload "f") queued)
run_command-Implements_example =
    run_command-Implements engine codec "a" (upload "f") (database_at queued) queued refl (tt, tt)
      tt held

abbrev world : World
world = record { db = database_at queued; trace = [] }

abbrev past_upload : World
past_upload = (turn outside (job_at queued) null world).1

created-le-one_example : created "a" (turn outside (job_at queued) null fresh_world).1.trace ≤ 1
created-le-one_example =
    created-le-one (turn outside (job_at queued) null fresh_world).1 "a"
      (then here (turns outside (job_at queued) null))

finished-stays_example :
    find_id "a"
      (turn outside
        (job_at (submitted "batch-1"))
        null
        (record { db = database_at finished; trace = [] })).1.db.jobs
    ≡ some (row_at finished)
finished-stays_example =
    finished-stays (record { db = database_at finished; trace = [] })
      (turn outside (job_at (submitted "batch-1")) null
        (record { db = database_at finished; trace = [] })).1
      "a" (row_at finished) (then here (turns outside (job_at (submitted "batch-1")) null))
      (unfold find_id in refl) (unfold status_of in refl)

abbrev hello : NormalizedRequest
hello = record {
  batch_body = finished_body;
  request_hash = "r";
  model = "gpt";
  async_alias = false;
  idempotency_hash = some "key";
}

hello_enqueued : (enqueue codec "a" "u" "openai" hello fresh_world.db).0 ≡ ok (job_at queued)
unfolding enqueue stored_job
hello_enqueued = refl

enqueue-again_example :
    enqueue codec "b" "u" "openai" hello (enqueue codec "a" "u" "openai" hello fresh_world.db).1
    ≡ (ok (job_at queued), (enqueue codec "a" "u" "openai" hello fresh_world.db).1)
enqueue-again_example =
    enqueue-again codec "u" "openai" hello "a" "b" fresh_world.db (job_at queued) hello_enqueued
