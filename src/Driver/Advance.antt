-- ===== src/Driver/Advance.antt =====
-- src/driver.rs: one step of a worker, and one turn of its loop.
use kaiion.Prelude.{
  String, Option, none, some, [], ◌∷◌, Result, ok, err, concat, str_eq, if◌then◌else◌, ◌||◌,
}
use kaiion.Json.{Value, Codec, string, object, fields, get_str}
use kaiion.Domain.{
  Job, JobState, StoredOutcome, queued, uploaded, submitting, submission_uncertain, submitted,
  terminal, completed, failed, incomplete, expired, cancelled, custom_id,
}
use kaiion.Openai.{ProviderError, BatchObject, retryable, error_text}
use kaiion.Db.Transitions.{
  mark_uploaded, begin_submission, mark_submission_uncertain, mark_submitted, store_outcome,
}
use kaiion.Driver.Output.{
  DriverError, permanent, failed_response, parse_batch_output, normalize_batch_error,
}
use kaiion.Driver.World.{
  Outside, Action, ◌>>=◌, pure, lift, transact, request, ask, upload_batch_file, create_batch,
  find_batch, get_batch, get_file_content,
}

-- The line of the input file, from the `json!` of the source.
unfoldable pub batch_line : Codec → Job → Value → String
unfolding custom_id
batch_line c job body = concat (
    c.print (
      object (
        fields (
          ("custom_id", string (custom_id job))
          ∷ ("method", string "POST")
          ∷ ("url", string "/v1/responses")
          ∷ ("body", body)
          ∷ [])))
    ∷ "\n"
    ∷ [])

-- The outcome of a completed batch, by the response's own status.
unfoldable pub outcome_of : Codec → Value → Result DriverError StoredOutcome
outcome_of c response = elim (get_str "status" response) [
  | none ↦ err (permanent "batch response is missing status")
  | some status ↦
      if str_eq status "completed"
      then ok (completed response)
      else if str_eq status "failed"
      then ok (failed response)
      else if str_eq status "incomplete"
      then ok (incomplete response)
      else err (
          permanent
            (concat ("batch response has unsupported terminal status " ∷ c.debug status ∷ [])))
]

-- The outcome of a batch that ended as "failed", "expired" or "cancelled".
unfoldable pub ended_as : String → Value → StoredOutcome
ended_as status value =
    if str_eq status "expired"
    then expired value
    else if str_eq status "cancelled"
    then cancelled value
    else failed value

module _ (o : Outside) where
  unfoldable pub store : Job → StoredOutcome → Action JobState
  unfolding transact
  store job outcome = transact o λ e. store_outcome e o.codec job.id job.state outcome

  unfoldable pub content : String → Action String
  unfolding ask
  content file = ask (get_file_content file) o.on_content

  -- A completed batch with an output file.
  unfoldable pub apply_output : Job → String → Action JobState
  unfolding content store outcome_of parse_batch_output ◌>>=◌
  apply_output job file = do
    text ← content file
    response ← lift (parse_batch_output o.codec text (custom_id job) job.model)
    outcome ← lift (outcome_of o.codec response)
    store job outcome

  -- A completed batch with an error file and no output file.
  unfoldable pub apply_errors : Job → String → Action JobState
  unfolding content store normalize_batch_error ◌>>=◌
  apply_errors job file = do
    text ← content file
    store job (failed (normalize_batch_error o.codec text (custom_id job) job.model))

  unfoldable pub apply_completed : Job → BatchObject → Action JobState
  unfolding apply_output apply_errors
  apply_completed job batch = elim batch.output_file_id [
    | some file ↦ apply_output job file
    | none ↦ elim batch.error_file_id [
      | some file ↦ apply_errors job file
      | none ↦ lift (err (permanent "completed batch has neither output_file_id nor error_file_id"))
    ]
  ]

  unfoldable pub apply_ended : Job → BatchObject → Action JobState
  unfolding content store normalize_batch_error failed_response ended_as ◌>>=◌
  apply_ended job batch = elim batch.error_file_id [
    | some file ↦ do
      text ← content file
      store job
          (ended_as batch.status (normalize_batch_error o.codec text (custom_id job) job.model))
    | none ↦ store job (
        ended_as batch.status (
          failed_response job.model
            (concat ("batch " ∷ batch.id ∷ " ended with status " ∷ batch.status ∷ []))))
  ]

  unfoldable pub apply_batch_status : Job → BatchObject → Action JobState
  unfolding apply_completed apply_ended
  apply_batch_status job batch =
      if str_eq batch.status "completed"
      then apply_completed job batch
      else if str_eq batch.status "failed"
          || str_eq batch.status "expired"
          || str_eq batch.status "cancelled"
      then apply_ended job batch
      else pure job.state

  -- The arms of `match create_batch(…)`.
  unfoldable pub after_create : Job → JobState → Result ProviderError BatchObject → Action JobState
  unfolding transact
  after_create job started (ok batch) =
      transact o λ e. mark_submitted e o.codec job.id started batch.id
  after_create job started (err error) =
      if retryable error
      then transact o (λ e. mark_submission_uncertain e o.codec job.id)
      else lift (err (permanent (error_text error)))

  -- Ask for the Batch, and record the answer.
  unfoldable pub create : Job → String → JobState → Action JobState
  unfolding request after_create
  create job file started w =
      let (r, w') = request (create_batch job.id file) o.on_create w in
      after_create job started r w'

  -- The arms of `match find_batch(…)`.
  unfoldable pub after_find : Job → Option BatchObject → Action JobState
  unfolding transact
  after_find job (some batch) = transact o λ e. mark_submitted e o.codec job.id job.state batch.id
  after_find job none = pure job.state

  unfoldable pub advance_from : Job → Value → JobState → Action JobState
  unfolding ask transact create after_find apply_batch_status ◌>>=◌
  advance_from job body queued = do
    file ← ask (upload_batch_file job.id (batch_line o.codec job body)) o.on_upload
    transact o λ e. mark_uploaded e o.codec job.id file
  advance_from job body (uploaded file) = do
    started ← transact o λ e. begin_submission e o.codec job.id file
    create job file started
  advance_from job body (submitting file at) =
      transact o λ e. mark_submission_uncertain e o.codec job.id
  advance_from job body (submission_uncertain file at) = do
    found ← ask (find_batch job.id) o.on_find
    after_find job found
  advance_from job body (submitted batch_id) = do
    batch ← ask (get_batch batch_id) o.on_get
    apply_batch_status job batch
  advance_from job body (terminal outcome) = pure job.state

  unfoldable pub advance : Job → Value → Action JobState
  unfolding advance_from
  advance job body = advance_from job body job.state
