-- ===== src/Driver/History.antt =====
-- Every history of one database: workers take turns from any view of their jobs, the process may
-- die between two calls, and clients enqueue jobs.
use kaiion.Prelude.{String, false, ◌≡◌, refl, some, [], ◌∷◌, ◌≤◌, arith, ok}
use kaiion.Json.{Value, Codec}
use kaiion.Domain.{Job, JobState}
use kaiion.Db.Table.{Row, find_id}
use kaiion.Db.Transitions.{begin_submission}
use kaiion.Db.Requests.{NormalizedRequest, enqueue}
use kaiion.Db.Safety.{under_way}
use kaiion.Db.Operations.{begin_submission-Safe, enqueue-Safe}
use kaiion.Driver.World.{World, Outside, transact, ask, create_batch, upload_batch_file, created}
use kaiion.Driver.Advance.{batch_line}
use kaiion.Driver.Turn.{turn}
use kaiion.Driver.Soundness.{
  Once, Sound, Sound-refl, Sound-trans, Safe-Sound, ask-Sound, transact-Sound, begin-create-Sound,
}
use kaiion.Driver.Submission.{turn-Sound}

-- The world once a Batch has been asked for.
abbrev pub asked : (id file : String) → World → World
asked id file w = record w { trace = create_batch id file ∷ w.trace }

infix 40 ◌⟶◌ ◌⟶*◌
pub data ◌⟶◌ (w : World) : World → Type 0 where
  -- One turn of `JobDriver::run`.
  turns : (o : Outside) (job : Job) (body : Value) → w ⟶ (turn o job body w).1
  -- The process dies after the upload, and the file's id is lost.
  dies_after_upload :
      (o : Outside) (job : Job) (body : Value)
      → w ⟶ (ask (upload_batch_file job.id (batch_line o.codec job body)) o.on_upload w).1
  -- The process dies after `begin_submission`, before the Batch is asked for.
  dies_before_create :
      (o : Outside) (id file : String)
      → w ⟶ (transact o (λ e. begin_submission e o.codec id file) w).1
  -- The process dies after the Batch was asked for, before the answer is stored.
  dies_after_create :
      (o : Outside) (id file : String) (started : JobState)
      → (transact o (λ e. begin_submission e o.codec id file) w).0 ≡ ok started
      → w ⟶ asked id file (transact o (λ e. begin_submission e o.codec id file) w).1
  -- A client enqueues a job.
  enqueues :
      (c : Codec) (fresh auth_hash provider : String) (request : NormalizedRequest)
      → w ⟶ record w { db = (enqueue c fresh auth_hash provider request w.db).1 }

pub data ◌⟶*◌ (w : World) : World → Type 0 where
  here : w ⟶* w
  then : {v u : World} → w ⟶* v → v ⟶ u → w ⟶* u

step-Sound : {w w' : World} → w ⟶ w' → Sound w w'
step-Sound {w} (turns o job body) = turn-Sound o job body w
step-Sound {w} (dies_after_upload o job body) = ask-Sound _ o.on_upload w (λ id. refl)
step-Sound {w} (dies_before_create o id file) =
    transact-Sound o (λ e. begin_submission e o.codec id file) w
      (λ e. begin_submission-Safe e o.codec id file w.db)
step-Sound {w} (dies_after_create o id file started begun) =
    (begin-create-Sound o id file started w begun).0
step-Sound {w} (enqueues c fresh auth_hash provider request) =
    Safe-Sound w _ (enqueue-Safe c fresh auth_hash provider request w.db) (λ id. refl)

history-Sound : {w w' : World} → w ⟶* w' → Sound w w'
history-Sound {w} here = Sound-refl w
history-Sound (then past step) = Sound-trans (history-Sound past) (step-Sound step)

-- A new database.
abbrev pub fresh_world : World
fresh_world = record { db = record { jobs = []; requests = [] }; trace = [] }

fresh_world-Once : Once fresh_world
fresh_world-Once = record { unique = tt; spent = λ id. unfold find_id in omega arith }

-- From a new database, over any sequence of enqueued jobs, turns of workers (also with a stale view
-- of the job, and several for one job) and deaths of the process between the calls of a turn, and
-- whatever SQLite and the provider answer, a Batch is asked for at most once for each job.
pub created-le-one : (w : World) (id : String) → fresh_world ⟶* w → created id w.trace ≤ 1
created-le-one w id past =
    let once = (history-Sound past).once fresh_world-Once in omega (arith, once.spent id)

-- A job whose row is in a finished status keeps that row, outcome included, over every further
-- history.
pub finished-stays :
    (w w' : World) (id : String) (r : Row)
    → w ⟶* w'
    → find_id id w.db.jobs ≡ some r
    → under_way r.raw.status ≡ false
    → find_id id w'.db.jobs ≡ some r
finished-stays w w' id r past = (history-Sound past).frozen id r
