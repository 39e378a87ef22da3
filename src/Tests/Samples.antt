-- ===== src/Tests/Samples.antt =====
-- A codec, an engine and a provider to run the model with.
use kaiion.Prelude.{none, some, [], ◌∷◌, ok, err, str_eq, if◌then◌else◌, true}
use kaiion.Json.{Value, Codec, null, string, object, number, pos_int, fields}
use kaiion.Domain.{Job, JobState}
use kaiion.Openai.{BatchObject}
use kaiion.Db.Table.{Row, Database, Engine}
use kaiion.Db.Decoding.{columns}
use kaiion.Driver.World.{Outside}

abbrev pub finished_body : Value
finished_body = object (fields (("status", string "completed") ∷ []))

abbrev pub output_record : Value
output_record = object (
    fields (
      ("custom_id", string "kaiion-a")
      ∷ (
        "response",
        object (fields (("status_code", number (pos_int 200)) ∷ ("body", finished_body) ∷ [])),
      )
      ∷ []))

-- It knows three texts.
abbrev pub codec : Codec
codec = record {
  parse = λ s.
      if str_eq s "R"
      then ok output_record
      else if str_eq s "{}"
      then ok finished_body
      else if str_eq s "null"
      then ok null
      else err "expected value";
  print = λ v. elim v [ object fs ↦ "{}" | _ ↦ "null" ];
  json_valid = λ s. true;
  debug = λ s. s;
}

abbrev pub engine : Engine
engine = record { failure = none; now = "2026-01-01"; constraint = "CHECK constraint failed" }

abbrev pub batch : BatchObject
batch = record {
  id = "batch-1";
  status = "completed";
  output_file_id = some "out-1";
  error_file_id = none;
  metadata = none;
}

abbrev pub outside : Outside
outside = record {
  codec = codec;
  engine = λ t. engine;
  on_upload = λ t. ok "file-1";
  on_create = λ t. ok batch;
  on_find = λ t. ok none;
  on_get = λ t. ok batch;
  on_content = λ t. ok "R";
}

abbrev pub row_at : JobState → Row
row_at s = record { raw = columns codec "a" "gpt" s; auth_hash = "u"; request_hash = "r" }

abbrev pub database_at : JobState → Database
database_at s = record { jobs = row_at s ∷ []; requests = [] }

abbrev pub job_at : JobState → Job
job_at s = record { id = "a"; model = "gpt"; state = s }
