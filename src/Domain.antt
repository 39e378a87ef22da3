-- ===== src/Domain.antt =====
-- src/domain.rs: a job and its durable state. The newtypes around `String` are `String` here.
use kaiion.Prelude.{String, Bool, true, false, [], ◌∷◌, concat, String-discrete}
use kaiion.Json.{Value, Value-discrete}

pub data StoredOutcome : Type 0 where
  completed failed incomplete expired cancelled : Value → StoredOutcome

pub data JobState : Type 0 where
  queued : JobState
  uploaded : (input_file_id : String) → JobState
  submitting : (input_file_id started_at : String) → JobState
  submission_uncertain : (input_file_id started_at : String) → JobState
  submitted : (batch_id : String) → JobState
  terminal : StoredOutcome → JobState

abbrev pub is_terminal : JobState → Bool
is_terminal (terminal o) = true
is_terminal _ = false

unfoldable pub JobState-discrete : Discrete JobState
JobState-discrete = hlevel (String-discrete, Value-discrete)

pub record Job : Type 0 where
  pub id : String
  pub model : String
  pub state : JobState

unfoldable pub custom_id : Job → String
custom_id job = concat ("kaiion-" ∷ job.id ∷ [])
