-- ===== src/Driver/World.antt =====
-- What a worker of src/driver.rs acts on: the database, and the calls that it has made. The
-- provider's and SQLite's answers are a parameter, `Outside`; an answer may depend on every call
-- made before it.
use kaiion.Prelude.{
  ℕ, String, Bool, false, Option, List, ◌∷◌, Result, ok, err, map_err, count_if, str_eq,
}
use kaiion.Json.{Codec}
use kaiion.Domain.{JobState}
use kaiion.Openai.{ProviderError, BatchObject}
use kaiion.Db.Rows.{PersistenceError}
use kaiion.Db.Table.{Database, Engine}
use kaiion.Driver.Output.{DriverError, classify_provider, classify_persistence}

-- A call that left the process, or a state sent to the subscribers.
pub data Event : Type 0 where
  statement : Event
  upload_batch_file : (job_id line : String) → Event
  create_batch : (job_id file : String) → Event
  find_batch : (job_id : String) → Event
  get_batch : (batch_id : String) → Event
  get_file_content : (file_id : String) → Event
  published : (job_id : String) → JobState → Event

-- The latest event comes first.
abbrev pub Trace : Type 0
Trace = List Event

pub record World : Type 0 where
  pub db : Database
  pub trace : Trace

-- The `OpenAiClient` under one `UpstreamAuth`, and SQLite.
pub record Outside : Type 0 where
  pub codec : Codec
  pub engine : Trace → Engine
  pub on_upload : Trace → Result ProviderError String
  pub on_create : Trace → Result ProviderError BatchObject
  pub on_find : Trace → Result ProviderError (Option BatchObject)
  pub on_get : Trace → Result ProviderError BatchObject
  pub on_content : Trace → Result ProviderError String

-- An action that may fail and changes the world.
abbrev pub Action : Type 0 → Type 0
Action A = World → Result DriverError A × World

module _ {A B : Type 0} where
  abbrev pub continue : Result DriverError A → (A → Action B) → Action B
  continue (ok a) f w = f a w
  continue (err e) f w = (err e, w)

  infixl 5 ◌>>=◌
  unfoldable pub ◌>>=◌ : Action A → (A → Action B) → Action B
  ◌>>=◌ m f w = continue (m w).0 f (m w).1

module _ {A : Type 0} where
  abbrev pub pure : A → Action A
  pure a w = (ok a, w)

  abbrev pub lift : Result DriverError A → Action A
  lift r w = (r, w)

-- One database method.
unfoldable pub transact :
    Outside → (Engine → Database → Result PersistenceError JobState × Database) → Action JobState
transact o method w =
    let (r, db) = method (o.engine w.trace) w.db in
    (map_err classify_persistence r, record { db = db; trace = statement ∷ w.trace })

-- One call of the provider: it is made, and then answered.
unfoldable pub request :
    {A : Type 0} → Event → (Trace → Result ProviderError A) → World → Result ProviderError A × World
request event answer w = (answer w.trace, record w { trace = event ∷ w.trace })

-- The same, its error classified.
unfoldable pub ask : {A : Type 0} → Event → (Trace → Result ProviderError A) → Action A
unfolding request
ask event answer w = let (r, w') = request event answer w in (map_err classify_provider r, w')

-- Is this event a Batch creation for the job?
abbrev pub creates : String → Event → Bool
creates id (create_batch job_id file) = str_eq job_id id
creates id _ = false

-- How often a Batch was asked for, for this job.
abbrev pub created : String → Trace → ℕ
created id = count_if (creates id)
