-- ===== src/Driver/Submission.antt =====
-- A worker's step and turn are sound, whatever the provider and SQLite answer, and from any view of
-- the job, also a stale one.
use kaiion.Prelude.{
  String, Bool, true, false, ◌≡◌, refl, inl, inr, Option, none, some, ◌||◌, Result, ok, err, str_eq,
  Bool-cases, Option-cases, Result-cases,
}
use kaiion.Json.{Value}
use kaiion.Domain.{
  Job, JobState, StoredOutcome, JobState-discrete, is_terminal, queued, uploaded, submitting,
  submission_uncertain, submitted, terminal, failed, custom_id,
}
use kaiion.Openai.{ProviderError, BatchObject, retryable}
use kaiion.Db.Transitions.{
  mark_uploaded, begin_submission, mark_submission_uncertain, mark_submitted, store_outcome,
}
use kaiion.Db.Operations.{
  mark_uploaded-Safe, begin_submission-Safe, mark_submission_uncertain-Safe, mark_submitted-Safe,
  store_outcome-Safe,
}
use mathlib.Core.Logic.{ite}
use kaiion.Driver.Output.{
  DriverError, conflict, retry, permanent, parse_batch_output, failed_response,
}
use kaiion.Driver.World.{
  World, Outside, ◌>>=◌, transact, request, ask, statement, find_batch, get_batch, get_file_content,
  upload_batch_file, published,
}
use kaiion.Driver.Advance.{
  store, content, apply_output, apply_errors, apply_completed, apply_ended, apply_batch_status,
  after_create, create, after_find, advance_from, advance, outcome_of, batch_line, ended_as,
}
use kaiion.Driver.Turn.{
  Flow, publish, settle, driver_state, again, sleep, reconcile, after_store, on_permanent,
  after_advance, turn,
}
use kaiion.Driver.Soundness.{
  Sound, Sound-refl, Sound-trans, log-Sound, transact-Sound, ask-Sound, bind-Sound, bind_lift-Sound,
  begin-create-Sound,
}

module _ (o : Outside) (job : Job) (live : is_terminal job.state ≡ false) where
  store-Sound : (outcome : StoredOutcome) (w : World) → Sound w (store o job outcome w).1
  unfolding store
  store-Sound outcome w =
      transact-Sound o (λ e. store_outcome e o.codec job.id job.state outcome) w
        (λ e. store_outcome-Safe e o.codec job.id job.state outcome w.db live)

  content-Sound : (file : String) (w : World) → Sound w (content o file w).1
  unfolding content
  content-Sound file w = ask-Sound (get_file_content file) o.on_content w (λ id. refl)

  apply_output-Sound : (file : String) (w : World) → Sound w (apply_output o job file w).1
  unfolding apply_output
  apply_output-Sound file w = bind-Sound (content o file) _ w (content-Sound file w) λ text _.
      bind_lift-Sound (parse_batch_output o.codec text (custom_id job) job.model) _ _ λ response.
        bind_lift-Sound (outcome_of o.codec response) (store o job) _
          λ outcome. store-Sound outcome _

  apply_errors-Sound : (file : String) (w : World) → Sound w (apply_errors o job file w).1
  unfolding apply_errors
  apply_errors-Sound file w =
      bind-Sound (content o file) _ w (content-Sound file w) λ text _. store-Sound _ _

  apply_ended-Sound : (batch : BatchObject) (w : World) → Sound w (apply_ended o job batch w).1
  unfolding apply_ended
  apply_ended-Sound batch w = elim (Option-cases batch.error_file_id) [
    | inl e ↦
        rw (e, apply_ended) (store-Sound (ended_as batch.status (failed_response job.model _)) w)
    | inr (file, e) ↦
        rw (e, apply_ended)
          (bind-Sound (content o file) _ w (content-Sound file w) λ text _. store-Sound _ _)
  ]

  apply_completed-Sound :
      (batch : BatchObject) (w : World) → Sound w (apply_completed o job batch w).1
  unfolding apply_completed
  apply_completed-Sound batch w = elim (Option-cases batch.output_file_id) [
    | inr (file, e) ↦ rw (e, apply_completed) (apply_output-Sound file w)
    | inl e ↦ elim (Option-cases batch.error_file_id) [
      | inr (file, f) ↦ rw (e, f, apply_completed) (apply_errors-Sound file w)
      | inl f ↦ rw (e, f, apply_completed) (Sound-refl w)
    ]
  ]

  apply_batch_status-Sound :
      (batch : BatchObject) (w : World) → Sound w (apply_batch_status o job batch w).1
  unfolding apply_batch_status
  apply_batch_status-Sound batch w = elim (Bool-cases (str_eq batch.status "completed")) [
    | inl e ↦ rw e (apply_completed-Sound batch w)
    | inr e ↦
        elim (Bool-cases (
          str_eq batch.status "failed"
          || str_eq batch.status "expired"
          || str_eq batch.status "cancelled")) [
            | inl f ↦ rw (e, f) (apply_ended-Sound batch w)
            | inr f ↦ rw (e, f) (Sound-refl w)
          ]
  ]

  after_find-Sound : (found : Option BatchObject) (w : World) → Sound w (after_find o job found w).1
  unfolding after_find
  after_find-Sound none w = Sound-refl w
  after_find-Sound (some batch) w =
      transact-Sound o (λ e. mark_submitted e o.codec job.id job.state batch.id) w
        (λ e. mark_submitted-Safe e o.codec job.id job.state batch.id w.db live)

module _ (o : Outside) (job : Job) where
  doubt-Sound :
      (w : World) → Sound w (transact o (λ e. mark_submission_uncertain e o.codec job.id) w).1
  doubt-Sound w =
      transact-Sound o (λ e. mark_submission_uncertain e o.codec job.id) w
        (λ e. mark_submission_uncertain-Safe e o.codec job.id w.db)

  after_create-Sound :
      (started : JobState) (r : Result ProviderError BatchObject) (w : World)
      → is_terminal started ≡ false
      → Sound w (after_create o job started r w).1
  unfolding after_create
  after_create-Sound started (ok batch) w live =
      transact-Sound o (λ e. mark_submitted e o.codec job.id started batch.id) w
        (λ e. mark_submitted-Safe e o.codec job.id started batch.id w.db live)
  after_create-Sound started (err error) w live = elim (Bool-cases (retryable error)) [
    | inl e ↦ rw e (doubt-Sound w)
    | inr e ↦ rw e (Sound-refl w)
  ]

  create-Sound :
      (file : String) (w : World)
      → Sound w
          ((transact o (λ e. begin_submission e o.codec job.id file) >>= create o job file) w).1
  unfolding create request ◌>>=◌
  create-Sound file w =
      elim (Result-cases (transact o (λ e. begin_submission e o.codec job.id file) w).0) [
        | inr (e, refused) ↦ rw refused (
            transact-Sound o (λ e. begin_submission e o.codec job.id file) w
              (λ e. begin_submission-Safe e o.codec job.id file w.db))
        | inl (started, begun) ↦
            let (asked, live) = begin-create-Sound o job.id file started w begun in
            rw begun (Sound-trans asked (after_create-Sound started _ _ live))
      ]

  advance_from-Sound :
      (body : Value) (s : JobState) (w : World)
      → job.state ≡ s
      → Sound w (advance_from o job body s w).1
  unfolding advance_from
  advance_from-Sound body queued w e =
      bind-Sound (ask (upload_batch_file job.id (batch_line o.codec job body)) o.on_upload) _ w
        (ask-Sound _ o.on_upload w (λ id. refl))
        λ file _.
          transact-Sound o (λ e. mark_uploaded e o.codec job.id file) _
            (λ e. mark_uploaded-Safe e o.codec job.id file _)
  advance_from-Sound body (uploaded file) w e = create-Sound file w
  advance_from-Sound body (submitting file at) w e = doubt-Sound w
  advance_from-Sound body (submission_uncertain file at) w e =
      bind-Sound (ask (find_batch job.id) o.on_find) _ w (ask-Sound _ o.on_find w (λ id. refl))
        λ found _. after_find-Sound o job (rw e) found _
  advance_from-Sound body (submitted batch_id) w e =
      bind-Sound (ask (get_batch batch_id) o.on_get) _ w (ask-Sound _ o.on_get w (λ id. refl))
        λ batch _. apply_batch_status-Sound o job (rw e) batch _
  advance_from-Sound body (terminal outcome) w e = Sound-refl w

  pub advance-Sound : (body : Value) (w : World) → Sound w (advance o job body w).1
  unfolding advance
  advance-Sound body w = advance_from-Sound body job.state w refl

  publish-Sound : (state : JobState) (w : World) → Sound w (publish job state w)
  unfolding publish
  publish-Sound state w = log-Sound (published job.id state) w (λ id. refl)

  settle-Sound : (state : JobState) (w : World) → Sound w (settle job state w).1
  unfolding settle
  settle-Sound state w = publish-Sound state w

module _ (o : Outside) (job : Job) where
  driver_state-Sound : (w : World) → Sound w (driver_state o job w).1
  unfolding driver_state
  driver_state-Sound w = log-Sound statement w (λ id. refl)

  reconcile-Sound : (otherwise : Flow) (w : World) → Sound w (reconcile o job otherwise w).1
  unfolding reconcile
  reconcile-Sound otherwise w = elim (Option-cases (driver_state o job w).0) [
    | inl e ↦ rw (e, reconcile) (driver_state-Sound w)
    | inr (state, e) ↦
        rw (e, reconcile) (Sound-trans (driver_state-Sound w) (settle-Sound o job state _))
  ]

  after_store-Sound :
      (r : Result DriverError JobState) (w : World) → Sound w (after_store o job r w).1
  unfolding after_store
  after_store-Sound (ok state) w = publish-Sound o job state w
  after_store-Sound (err conflict) w = reconcile-Sound (again job.state) w
  after_store-Sound (err _) w = Sound-refl w

  on_permanent-Sound :
      (message : String) (w : World)
      → is_terminal job.state ≡ false
      → Sound w (on_permanent o job message w).1
  unfolding on_permanent
  on_permanent-Sound message w live =
      Sound-trans (store-Sound o job live (failed (failed_response job.model message)) w)
        (after_store-Sound _ _)

  stay-or-settle :
      {P : Type 0} (same : Dec P) (next : JobState) (stay : Flow) (w : World)
      → Sound w (ite same (stay, w) (settle job next w)).1
  stay-or-settle (yes p) next stay w = Sound-refl w
  stay-or-settle (no p) next stay w = settle-Sound o job next w

  -- A permanent error is no error of a finished job, since such a job is only returned.
  after_advance-Sound :
      (r : Result DriverError JobState) (w : World)
      → (is_terminal job.state ≡ true → r ≡ ok job.state)
      → Sound w (after_advance o job r w).1
  unfolding after_advance
  after_advance-Sound (ok next) w over = stay-or-settle (JobState-discrete next job.state) next _ w
  after_advance-Sound (err conflict) w over = reconcile-Sound (sleep job.state) w
  after_advance-Sound (err (retry message)) w over = Sound-refl w
  after_advance-Sound (err (permanent message)) w over =
      on_permanent-Sound message w (live (is_terminal job.state) over)
    where
      live : (b : Bool) → (b ≡ true → err (permanent message) ≡ ok job.state) → b ≡ false
      live true h = cc (h refl)
      live false h = refl

  advance_from-terminal :
      (body : Value) (s : JobState) (w : World)
      → is_terminal s ≡ true
      → (advance_from o job body s w).0 ≡ ok job.state
  unfolding advance_from
  advance_from-terminal body (terminal outcome) w h = refl
  advance_from-terminal body queued w h = cc
  advance_from-terminal body s w h = cc

  pub turn-Sound : (body : Value) (w : World) → Sound w (turn o job body w).1
  unfolding turn
  turn-Sound body w = Sound-trans (advance-Sound o job body w) (
      after_advance-Sound (advance o job body w).0 (advance o job body w).1
        (λ over. unfold advance in advance_from-terminal body job.state w over))
