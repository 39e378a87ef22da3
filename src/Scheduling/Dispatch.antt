-- ===== src/Scheduling/Dispatch.antt =====
-- src/scheduling.rs: `dispatch_ready` and `dispatch_available`, the choice of the next request, its
-- reservation and its permit. The lock on the state is held throughout, so each is one step.
use kaiion.Prelude.{
  ℕ, zero, suc, ◌-◌, Bool, not, ◌&&◌, ◌||◌, Option, none, some, List, [], ◌∷◌, ◌++◌, ltb, leb, ◌==◌,
  if◌then◌else◌, is_none_or, is_some_and, filter_option, keep_if, min,
}
use kaiion.Scheduling.Int.{ℤ, ltb_ℤ}
use kaiion.Scheduling.Policy.{SchedulingPolicy}
use kaiion.Scheduling.Types.{
  ScheduleRequest, SchedulePermit, ScheduleOutcome, dispatched, recommend_batch, retry_exhausted,
  UsageEvent, ActiveRequest, Pending, State, Fit, Complexity,
}
use kaiion.Scheduling.Readiness.{readiness}
use kaiion.Scheduling.Priority.{priority_score, session_of, batch_recommendation}
use kaiion.Scheduling.Pacing.{Floats, update_pacing}

-- `HashMap::get`
unfoldable pub find_key {ℓ} : {A : Type ℓ} → ℕ → List (ℕ × A) → Option A
find_key id [] = none
find_key id ((j, a) ∷ rest) = if j == id then some a else find_key id rest

-- `HashMap::remove`
unfoldable pub remove_key {ℓ} : {A : Type ℓ} → ℕ → List (ℕ × A) → List (ℕ × A)
remove_key id entries = keep_if (λ (j, a). not (j == id)) entries

-- `State::remove_pending`, whose result is what `find_key` finds.
unfoldable pub remove_pending : (id : ℕ) → State → State
unfolding find_key remove_key
remove_pending id state = elim (find_key id state.pending) [
  | none ↦ state
  | some q ↦ record state {
    pending = remove_key id state.pending;
    pending_bytes = state.pending_bytes - q.bytes;
  }
]

-- `if state.pending.is_empty() { state.coalesce_until = None }`
abbrev pub settle_queue : State → State
settle_queue state = elim state.pending [
  | [] ↦ record state { coalesce_until = none }
  | q ∷ qs ↦ state
]

-- The best request so far: its id, its score and when it was enqueued.
pub record Best : Type 0 where
  pub id : ℕ
  pub score : ℤ
  pub enqueued_at : ℕ

-- What the loop of `dispatch_ready` collects.
pub record Scan : Type 0 where
  pub best : Option Best
  pub next_due : Option ℕ
  pub impossible : List ℕ

-- Is the first strictly better: a higher score, then an earlier time, then a lower id?
unfoldable pub is_better : Best → Best → Bool
is_better a b =
    let same = not (ltb_ℤ a.score b.score) && not (ltb_ℤ b.score a.score) in
    ltb_ℤ b.score a.score
    || (same && ltb a.enqueued_at b.enqueued_at
        || (same && (a.enqueued_at == b.enqueued_at) && ltb a.id b.id))

unfoldable pub offer : Best → Scan → Scan
unfolding is_better
offer b s = if is_none_or s.best (is_better b) then record s { best = some b } else s

unfoldable pub dismiss : (id : ℕ) → Scan → Scan
dismiss id s = record s { impossible = s.impossible ++ (id ∷ []) }

unfoldable pub postpone : (at : ℕ) → Scan → Scan
postpone at s = record s { next_due = some (elim s.next_due [ none ↦ at | some due ↦ min due at ]) }

-- The loop body for an open waiter, once it is known when its request fits.
unfoldable pub place : (queue_ready : Bool) → (now : ℕ) → Best → Fit → Scan → Scan
unfolding offer dismiss postpone
place queue_ready now b fit s = if fit.impossible then dismiss b.id s else elim fit.at [
  | none ↦ s
  | some at ↦ if ltb now at then postpone at s else if not queue_ready then s else offer b s
]

abbrev pub active_of : ScheduleRequest → ActiveRequest
active_of r = record { provider = r.provider; auth_scope = r.auth_scope; model = r.model }

module _ (fl : Floats) (p : SchedulingPolicy) (classifier : ScheduleRequest → Complexity) where
  -- The rank of a waiting request.
  abbrev pub ranked : State → (now : ℕ) → ℕ → Pending → Best
  ranked state now id q = record {
    id = id;
    score = priority_score p classifier q.request (session_of q.request state) q.enqueued_at now;
    enqueued_at = q.enqueued_at;
  }

  abbrev pub fit_of : State → (now : ℕ) → Pending → Fit
  fit_of state now q = readiness p state q.request q.input_tokens q.output_tokens now

  -- The body of the loop over the waiting requests.
  unfoldable pub consider : (queue_ready : Bool) → State → (now : ℕ) → ℕ × Pending → Scan → Scan
  unfolding readiness place dismiss priority_score session_of
  consider queue_ready state now (id, q) s =
      if q.closed
      then dismiss id s
      else place queue_ready now (ranked state now id q) (fit_of state now q) s

  unfoldable pub scan : (queue_ready : Bool) → State → (now : ℕ) → List (ℕ × Pending) → Scan → Scan
  unfolding consider
  scan queue_ready state now [] s = s
  scan queue_ready state now (q ∷ qs) s =
      scan queue_ready state now qs (consider queue_ready state now q s)

  -- What a request that cannot be dispatched is told.
  unfoldable pub refusal : Pending → State → (now : ℕ) → ScheduleOutcome
  unfolding batch_recommendation
  refusal q rest now = elim (batch_recommendation p classifier q.request rest q.enqueued_at now) [
    | none ↦ retry_exhausted "request_exceeds_quota" none
    | some reason ↦ recommend_batch reason none
  ]

  -- The request has left the queue; `let _ = pending.sender.send(outcome)`.
  unfoldable pub turn_away : ℕ → Pending → State → (now : ℕ) → State
  unfolding refusal
  turn_away id q rest now =
      if q.closed || q.refuses
      then rest
      else record rest { delivered = (id, refusal q rest now) ∷ rest.delivered }

  -- The body of the loop over the requests that cannot be dispatched.
  unfoldable pub reject_pending : State → (now : ℕ) → ℕ → State
  unfolding find_key remove_pending turn_away
  reject_pending state now id = elim (find_key id state.pending) [
    | none ↦ state
    | some q ↦ turn_away id q (remove_pending id state) now
  ]

  unfoldable pub reject_all : State → (now : ℕ) → List ℕ → State
  unfolding reject_pending
  reject_all state now [] = state
  reject_all state now (id ∷ ids) = reject_all (reject_pending state now id) now ids

  abbrev event_of : ℕ → Pending → (now : ℕ) → UsageEvent
  event_of id q now = record {
    id = id;
    at = now;
    provider = q.request.provider;
    auth_scope = q.request.auth_scope;
    model = q.request.model;
    input_tokens = q.input_tokens;
    output_tokens = q.output_tokens;
  }

  abbrev permit_of : ℕ → Pending → (now : ℕ) → SchedulePermit
  permit_of id q now = record {
    reservation_id = some id;
    provider = q.request.provider;
    auth_scope = q.request.auth_scope;
    model = q.request.model;
    session_id = q.request.session_id;
    interaction = q.request.interaction;
    input_tokens = q.input_tokens;
    output_tokens = q.output_tokens;
    waited = now - q.enqueued_at;
  }

  -- Reserve the request's usage and send its permit; the reservation goes if the send fails.
  unfoldable pub grant : State → (now : ℕ) → ℕ → Pending → State
  unfolding remove_key update_pacing
  grant state now id q =
      let reserved = record state {
        events = state.events ++ (event_of id q now ∷ []);
        active = (id, active_of q.request) ∷ remove_key id state.active;
      } in
      let paced =
        update_pacing fl p.limits
          (record reserved { delivered = (id, dispatched (permit_of id q now)) ∷ state.delivered })
          q.request q.input_tokens q.output_tokens now in
      if q.refuses
      then record reserved {
        events = keep_if (λ (e : UsageEvent). not (e.id == id)) reserved.events;
        active = remove_key id reserved.active;
      }
      else paced

  -- The end of `dispatch_ready`, where no request is chosen.
  unfoldable pub no_choice : (queue_ready : Bool) → Option ℕ → State → Option ℕ × State
  no_choice queue_ready next_due state = elim state.pending [
    | [] ↦ (none, record state { coalesce_until = none })
    | q ∷ qs ↦ (next_due, if queue_ready then record state { coalesce_until = none } else state)
  ]

  -- After a chosen waiter that has gone.
  unfoldable pub look_again : State → (now : ℕ) → Option ℕ × State
  look_again rest now = elim rest.pending [
    | [] ↦ (none, record rest { coalesce_until = none })
    | _ ∷ _ ↦ (some now, rest)
  ]

  -- The chosen request is taken from the queue and granted. A chosen waiter that has gone is
  -- removed, and the next call looks again at once.
  unfoldable pub choose : State → (now : ℕ) → ℕ → Pending → Option ℕ × State
  choose state now id q =
      let rest = remove_pending id state in
      if q.closed then look_again rest now else (some now, grant rest now id q)

  -- The loop of `dispatch_ready` over the queue.
  unfoldable pub scanned : (queue_ready : Bool) → State → (now : ℕ) → Scan
  unfolding scan
  scanned queue_ready state now = scan queue_ready state now state.pending (record {
    best = none;
    next_due = filter_option (λ at. ltb now at) state.coalesce_until;
    impossible = [];
  })

  -- `dispatch_ready` after its loops.
  unfoldable pub conclude : (queue_ready : Bool) → (now : ℕ) → Scan → State → Option ℕ × State
  conclude queue_ready now s left = elim s.best [
    | none ↦ no_choice queue_ready s.next_due left
    | some b ↦ elim (find_key b.id left.pending) [
      | none ↦ (some now, left)
      | some q ↦ choose left now b.id q
    ]
  ]

  -- `state.coalesce_until.is_none_or(|at| now >= at)`
  abbrev pub is_queue_ready : State → (now : ℕ) → Bool
  is_queue_ready state now = is_none_or state.coalesce_until (λ at. leb at now)

  -- `dispatch_ready`: at most one request, so that the next call sees its reservation. The result
  -- says when to look again.
  unfoldable pub dispatch_ready : State → (now : ℕ) → Option ℕ × State
  unfolding scanned reject_all conclude
  dispatch_ready state now =
      let s = scanned (is_queue_ready state now) state now in
      conclude (is_queue_ready state now) now s (reject_all state now s.impossible)

  -- `dispatch_available`: again while the next time to look is now. Without fuel there is no result.
  unfoldable pub dispatch_available : (fuel : ℕ) → State → (now : ℕ) → Option State
  unfolding dispatch_ready
  dispatch_available zero state now = none
  dispatch_available (suc fuel) state now =
      let (due, next) = dispatch_ready state now in
      let again = dispatch_available fuel next now in
      if is_some_and due (λ at. leb at now) then again else some next
