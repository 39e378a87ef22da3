-- ===== src/Scheduling/Scheduler.antt =====
-- src/scheduling.rs: `acquire`, `complete`, `abort` and the two drops, each a step of the state that
-- holds the lock. The clock is an argument, and `size` is the length of a body's text.
use kaiion.Prelude.{
  true, ℕ, suc, ◌+◌, ◌-◌, ◌%◌, String, Bool, false, not, ◌||◌, Option, none, some, List, [], ◌∷◌,
  Result, ok, err, ltb, leb, ◌==◌, str_eq, blank, if◌then◌else◌, is_some, map_option, and_then,
  or_else, unwrap_or, keep_if, min, max, length,
}
use kaiion.Json.{Value}
use kaiion.Scheduling.Policy.{QuotaLimit, SchedulingPolicy, from_millis, from_secs, max_wait}
use kaiion.Scheduling.Types.{
  ScheduleRequest, SchedulePermit, ScheduleOutcome, dispatched, recommend_batch, retry_exhausted,
  UsageEvent, Pending, SessionState, State, Complexity, u64_mod, saturating_mul,
}
use kaiion.Scheduling.Readiness.{readiness}
use kaiion.Scheduling.Priority.{batch_recommendation, session_key, find_session}
use kaiion.Scheduling.Pacing.{Floats, rebuild_pacing}
use kaiion.Scheduling.Dispatch.{
  find_key, remove_key, remove_pending, settle_queue, dispatch_ready, dispatch_available,
}

pub data ScheduleError : Type 0 where
  invalid_request : ScheduleError

-- The longest window of the limits.
unfoldable max_window : List QuotaLimit → ℕ
max_window [] = 0
max_window (l ∷ ls) = max (from_secs l.window_seconds) (max_window ls)

-- The `while` loop of `prune_events`: only the front of the queue is dropped.
unfoldable drop_expired : (window now : ℕ) → List UsageEvent → List UsageEvent
drop_expired window now [] = []
drop_expired window now (e ∷ es) =
    if leb window (now - e.at) then drop_expired window now es else e ∷ es

unfoldable pub prune_events : SchedulingPolicy → (now : ℕ) → State → State
unfolding drop_expired max_window
prune_events p now state =
    let window = max_window p.limits in
    record state {
      events = drop_expired window now state.events;
      pacing = keep_if (λ (k, at). ltb now at || ltb (now - at) window) state.pacing;
      sessions =
          keep_if
            (λ (k, s). leb (now - s.last_activity) (from_millis (saturating_mul p.idle_decay_ms 8)))
            state.sessions;
    }

-- `HashMap::insert`
unfoldable set_session :
    String → SessionState → List (String × SessionState) → List (String × SessionState)
set_session k s [] = (k, s) ∷ []
set_session k s ((j, t) ∷ rest) =
    if str_eq j k then (k, s) ∷ rest else (j, t) ∷ set_session k s rest

-- The first event with the id gets the actual usage, where it is known.
unfoldable pub set_usage : (id : ℕ) → (input output : Option ℕ) → List UsageEvent → List UsageEvent
set_usage id input output [] = []
set_usage id input output (e ∷ es) =
    if e.id == id
    then record e {
      input_tokens = unwrap_or input e.input_tokens;
      output_tokens = unwrap_or output e.output_tokens;
    }
      ∷ es
    else e ∷ set_usage id input output es

-- The future of a waiter is dropped, and with it the receiver of its channel.
unfoldable pub mark_gone : (id : ℕ) → List (ℕ × Pending) → List (ℕ × Pending)
mark_gone id [] = []
mark_gone id ((j, q) ∷ rest) =
    (j, if j == id then record q { closed = true } else q) ∷ mark_gone id rest

-- What `acquire` answers before it queues the request, or the time it first sleeps.
pub data Admission : Type 0 where
  answered : ScheduleOutcome → Admission
  queues_after : (delay : ℕ) → Admission

module _ (fl : Floats) (p : SchedulingPolicy) (classifier : ScheduleRequest → Complexity)
    (size : Value → ℕ) where
  -- The permit of a disabled scheduler, which reserves nothing.
  abbrev free_permit : ScheduleRequest → SchedulePermit
  free_permit r = record {
    reservation_id = none;
    provider = r.provider;
    auth_scope = r.auth_scope;
    model = r.model;
    session_id = r.session_id;
    interaction = r.interaction;
    input_tokens = r.input_tokens;
    output_tokens = r.output_tokens;
    waited = 0;
  }

  -- `acquire` sets a missing estimate of the output.
  unfoldable with_default_output : ScheduleRequest → ScheduleRequest
  with_default_output r = record r {
    output_tokens = if r.output_tokens == 0 then p.default_output_tokens else r.output_tokens;
  }

  -- `preview`
  unfoldable preview : ScheduleRequest → State → (now : ℕ) → Option String
  preview r state now =
      if not p.enabled || not r.allow_batch_fallback
      then none
      else batch_recommendation p classifier r state now now

  abbrev admit_retry : ScheduleRequest → Admission
  admit_retry r =
      if ltb p.max_retries r.retry_attempt
      then answered (retry_exhausted "max_retries_exceeded" r.upstream_retry_after)
      else elim r.upstream_retry_after [
        | none ↦ queues_after 0
        | some delay ↦
            if ltb (max_wait p r.async_alias) delay
            then answered (retry_exhausted "retry_after_exceeds_wait_cap" (some delay))
            else queues_after delay
      ]

  -- `acquire` before the request is queued; the request has its estimate.
  unfoldable admit : ScheduleRequest → State → (now : ℕ) → Result {0, 0} ScheduleError Admission
  unfolding preview blank max_wait
  admit r state now =
      if blank r.provider || (blank r.auth_scope || blank r.model)
      then err invalid_request
      else if not p.enabled
      then ok (answered (dispatched (free_permit r)))
      else elim (preview r state now) [
        | some reason ↦ ok (answered (recommend_batch reason none))
        | none ↦ ok (admit_retry r)
      ]

  -- `capacity_outcome`
  unfoldable pub capacity_outcome :
      ScheduleRequest
      → (reason : String) → (retry_after : Option ℕ) → (now enqueued_at : ℕ) → State
      → ScheduleOutcome
  capacity_outcome r reason retry_after now enqueued_at state =
      elim (batch_recommendation p classifier r state enqueued_at now) [
        | none ↦ retry_exhausted reason retry_after
        | some batch ↦ recommend_batch batch retry_after
      ]

  abbrev body_bytes : ScheduleRequest → ℕ
  body_bytes r = unwrap_or (map_option size r.body) 0

  -- A request joins the queue, which starts the coalescing time when it was empty.
  unfoldable pub join : ScheduleRequest → (refuses : Bool) → State → (now : ℕ) → State
  unfolding remove_key
  join r refuses state now =
      let q : Pending = record {
        request = r;
        enqueued_at = now;
        input_tokens = r.input_tokens;
        output_tokens = r.output_tokens;
        bytes = body_bytes r;
        closed = false;
        refuses = refuses;
      } in
      record state {
        next_id = (state.next_id + 1) % u64_mod;
        coalesce_until = elim state.pending [
          | [] ↦ some (now + from_millis p.queue_coalesce_ms)
          | _ ∷ _ ↦ state.coalesce_until
        ];
        pending_bytes = state.pending_bytes + body_bytes r;
        pending = (state.next_id, q) ∷ remove_key state.next_id state.pending;
      }

  -- The block of `acquire` that queues the request, once old events are pruned.
  unfoldable pub enqueue_pruned :
      ScheduleRequest
      → (refuses : Bool) → State
      → (now : ℕ) → Result {0, 0} ScheduleOutcome ℕ × State
  enqueue_pruned r refuses pruned now =
      if leb p.max_pending (length pruned.pending)
        || ltb (p.max_pending_bytes - pruned.pending_bytes) (body_bytes r)
      then (err (capacity_outcome r "queue_full" none now now pruned), pruned)
      else (ok pruned.next_id, join r refuses pruned now)

  -- The block of `acquire` that queues the request: an outcome if the queue is full, and the id
  -- otherwise.
  unfoldable pub enqueue :
      ScheduleRequest
      → (refuses : Bool) → State
      → (now : ℕ) → Result {0, 0} ScheduleOutcome ℕ × State
  enqueue r refuses state now = enqueue_pruned r refuses (prune_events p now state) now

  -- Has the waiter been told? If not, it sleeps until the next time to look.
  unfoldable pub listen :
      (id : ℕ) → (due : Option ℕ) → (remaining now : ℕ) → State → Result {0, 0} ScheduleOutcome ℕ
  unfolding find_key
  listen id due remaining now next = elim (find_key id next.delivered) [
    | some outcome ↦ err outcome
    | none ↦ ok (min (unwrap_or (map_option (λ at. at - now) due) remaining) remaining)
  ]

  -- The loop of `acquire` once old events are pruned.
  unfoldable pub look_pruned :
      (id : ℕ)
      → ScheduleRequest
      → (started : ℕ) → State
      → (now : ℕ) → Result {0, 0} ScheduleOutcome ℕ × State
  look_pruned id r started pruned now =
      let fit = readiness p pruned r r.input_tokens r.output_tokens now in
      let (due, next) = dispatch_ready fl p classifier pruned now in
      let remaining = started + max_wait p r.async_alias - now in
      let retry_after = map_option (λ at. at - now) fit.at in
      if fit.impossible
      then (
        err (capacity_outcome r "request_exceeds_quota" retry_after now started pruned),
        settle_queue (remove_pending id pruned),
      )
      else (listen id due remaining now next, next)

  -- The first part of the loop of `acquire`: an outcome, or the time to sleep.
  unfoldable pub look :
      (id : ℕ)
      → ScheduleRequest
      → (started : ℕ) → State
      → (now : ℕ) → Result {0, 0} ScheduleOutcome ℕ × State
  look id r started state now = look_pruned id r started (prune_events p now state) now

  -- The second part of the loop, past the deadline.
  unfoldable pub give_up :
      (id : ℕ) → ScheduleRequest → (started : ℕ) → State → (now : ℕ) → ScheduleOutcome × State
  give_up id r started state now =
      let fit = readiness p state r r.input_tokens r.output_tokens now in
      (
        capacity_outcome r "max_wait_exceeded" (map_option (λ at. at - now) fit.at) now started
            state,
        settle_queue (remove_pending id state),
      )

  -- `dispatch_available` with fuel for every waiting request.
  unfoldable pub dispatch_all : State → (now : ℕ) → State
  dispatch_all state now =
      unwrap_or (dispatch_available fl p classifier (suc (length state.pending)) state now) state

  -- What `complete` notes of the permit's session.
  unfoldable pub note_session :
      SchedulePermit → (cache_read_hit : Option Bool) → (now : ℕ) → State → State
  unfolding session_key find_session set_session
  note_session permit cache_read_hit now state = elim permit.session_id [
    | none ↦ state
    | some session ↦
        let k = session_key permit.provider permit.auth_scope session in
        let previous =
          and_then (find_session k state.sessions)
            (λ s. if str_eq s.last_model permit.model then s.cache_read_hit else none) in
        record state {
          sessions =
              set_session k
                (record {
                  last_activity = now;
                  last_interaction = permit.interaction;
                  last_model = permit.model;
                  cache_read_hit = or_else cache_read_hit previous;
                })
                state.sessions;
        }
  ]

  -- `complete` takes the reservation out of flight and sets its usage.
  unfoldable pub settle_permit : SchedulePermit → (input output : Option ℕ) → State → State
  settle_permit permit input output state = elim permit.reservation_id [
    | none ↦ state
    | some id ↦ record state {
      active = remove_key id state.active;
      events = set_usage id input output state.events;
    }
  ]

  -- `complete`
  unfoldable pub complete :
      SchedulePermit
      → (input output : Option ℕ) → (cache_read_hit : Option Bool) → State
      → (now : ℕ) → State
  complete permit input output cache_read_hit state now =
      dispatch_all
        (prune_events p now
          (note_session permit cache_read_hit now (settle_permit permit input output state)))
        now

  -- `abort`
  unfoldable pub abort : SchedulePermit → State → (now : ℕ) → State
  abort permit state now = elim permit.reservation_id [
    | none ↦ state
    | some id ↦
        let released = record state {
          active = remove_key id state.active;
          events = keep_if (λ (e : UsageEvent). not (e.id == id)) state.events;
        } in
        dispatch_all (prune_events p now (rebuild_pacing fl p.limits released)) now
  ]

  -- The drop of a permit whose lease is armed.
  unfoldable pub drop_lease : (id : ℕ) → State → (now : ℕ) → State
  drop_lease id state now =
      if is_some (find_key id state.active)
      then dispatch_all (record state { active = remove_key id state.active }) now
      else state

  -- The drop of a waiter whose guard is armed.
  unfoldable pub drop_guard : (id : ℕ) → State → (now : ℕ) → State
  drop_guard id state now =
      dispatch_all (prune_events p now (settle_queue (remove_pending id state))) now
