-- ===== src/Scheduling/Steps.antt =====
-- src/scheduling.rs: the scheduler as a state machine, whose steps are the blocks of code that hold
-- the lock on the state, and what holds after any number of them.
use kaiion.Prelude.{
  map_option, ◌≤◌, ℕ, suc, ◌≡◌, refl, inl, inr, Bool, true, false, Option, none, some, List, [],
  ◌∷◌, ◌==◌, not, if◌then◌else◌, Option-cases, All, is_some, length, keep_if, arith,
}
use kaiion.Json.{Value}
use kaiion.Scheduling.Policy.{QuotaLimit, SchedulingPolicy}
use kaiion.Scheduling.Types.{
  ScheduleRequest, SchedulePermit, ActiveRequest, UsageEvent, Pending, State, Complexity,
}
use kaiion.Scheduling.Quota.{rule_matches}
use kaiion.Scheduling.Pacing.{
  Floats, update_pacing, replay_events, rebuild_pacing, request_of_event,
}
use kaiion.Scheduling.Dispatch.{
  find_key, remove_key, remove_pending, settle_queue, dispatch_available,
}
use kaiion.Scheduling.Scheduler.{
  prune_events, join, enqueue_pruned, look_pruned, set_usage, enqueue, look, give_up, dispatch_all,
  mark_gone, note_session, settle_permit, complete, abort, drop_lease, drop_guard,
}
use kaiion.Scheduling.Concurrency.{Within, Within-keep_if}
use kaiion.Scheduling.InFlight.{
  Keyed-insert, Keeps, Keeps-same, remove_pending-Keeps, Sound, Sound-Keeps, dispatch_ready-Sound,
  dispatch_available-Sound,
}

find_key-mark_gone :
    (id k : ℕ) (qs : List (ℕ × Pending))
    → find_key k (mark_gone id qs)
      ≡ map_option
          (λ (q : Pending). if k == id then record q { closed = true } else q)
          (find_key k qs)
unfolding find_key mark_gone
find_key-mark_gone id k [] = refl
find_key-mark_gone id k ((j, q) ∷ rest) = ground (arith, find_key-mark_gone id k rest)

mark_gone-Keyed :
    (id : ℕ) (qs xs : List (ℕ × Pending))
    → All (λ x. find_key x.0 qs ≡ some x.1) xs
    → All (λ x. find_key x.0 (mark_gone id qs) ≡ some x.1) (mark_gone id xs)
unfolding mark_gone
mark_gone-Keyed id qs [] h = tt
mark_gone-Keyed id qs ((j, q) ∷ rest) h =
    (rw (find_key-mark_gone id j qs, h.0) refl, mark_gone-Keyed id qs rest h.1)

module _ (fl : Floats) (p : SchedulingPolicy) (classifier : ScheduleRequest → Complexity)
    (size : Value → ℕ) where
  infix 20 ◌⟶◌
  -- A step of `acquire`, `complete`, `abort` or a drop, at any time. A waiter may go at any time, and
  -- its guard's drop follows later.
  pub data ◌⟶◌ : State → State → Type 0 where
    enqueues :
        {state : State} (r : ScheduleRequest) (refuses : Bool) (now : ℕ)
        → state ⟶ (enqueue fl p classifier size r refuses state now).1
    looks :
        {state : State} (id : ℕ) (r : ScheduleRequest) (started now : ℕ)
        → state ⟶ (look fl p classifier size id r started state now).1
    gives_up :
        {state : State} (id : ℕ) (r : ScheduleRequest) (started now : ℕ)
        → state ⟶ (give_up fl p classifier size id r started state now).1
    completes :
        {state : State} (permit : SchedulePermit) (input output : Option ℕ) (cache : Option Bool)
        (now : ℕ)
        → state ⟶ complete fl p classifier size permit input output cache state now
    aborts :
        {state : State} (permit : SchedulePermit) (now : ℕ)
        → state ⟶ abort fl p classifier size permit state now
    goes : {state : State} (id : ℕ) → state ⟶ record state { pending = mark_gone id state.pending }
    drops_lease :
        {state : State} (id now : ℕ) → state ⟶ drop_lease fl p classifier size id state now
    drops_guard :
        {state : State} (id now : ℕ) → state ⟶ drop_guard fl p classifier size id state now

  infix 20 ◌⟶*◌
  pub data ◌⟶*◌ : State → State → Type 0 where
    done : {a : State} → a ⟶* a
    then_ : {a b c : State} → a ⟶ b → b ⟶* c → a ⟶* c

  prune_events-Keeps : (now : ℕ) (state : State) → Keeps state (prune_events p now state)
  unfolding prune_events
  prune_events-Keeps now state = Keeps-same state (prune_events p now state) refl refl

  settle_queue-Keeps : (state : State) → Keeps state (settle_queue state)
  settle_queue-Keeps state = Keeps-same state (settle_queue state) (ground arith) (ground arith)

  note_session-Keeps :
      (permit : SchedulePermit) (cache : Option Bool) (now : ℕ) (state : State)
      → Keeps state (note_session fl p classifier size permit cache now state)
  unfolding note_session
  note_session-Keeps permit cache now state =
      Keeps-same state (note_session fl p classifier size permit cache now state) (ground arith)
        (ground arith)

  replay_events-Keeps :
      (limits : List QuotaLimit) (es : List UsageEvent) (state : State)
      → Keeps state (replay_events fl limits es state)
  unfolding replay_events update_pacing
  replay_events-Keeps limits [] state = Keeps-same state state refl refl
  replay_events-Keeps limits (e ∷ es) state =
      let next : State =
        update_pacing fl limits state (request_of_event fl e) e.input_tokens e.output_tokens e.at in
      let k = replay_events-Keeps limits es next in
      record { active = k.active; fewer = k.fewer; keyed = k.keyed }

  rebuild_pacing-Keeps : (state : State) → Keeps state (rebuild_pacing fl p.limits state)
  unfolding rebuild_pacing
  rebuild_pacing-Keeps state =
      let k = replay_events-Keeps p.limits state.events (record state { pacing = [] }) in
      record { active = k.active; fewer = k.fewer; keyed = k.keyed }

  dispatch_all-Sound :
      (state : State) (now : ℕ)
      → p.enabled ≡ true
      → Sound fl p classifier state
      → Sound fl p classifier (dispatch_all fl p classifier size state now)
  unfolding dispatch_all
  dispatch_all-Sound state now enabled sound = elim (Option-cases result) [
    | inl e ↦ rw e sound
    | inr (final, e) ↦ rw e (
        dispatch_available-Sound fl p classifier (suc (length state.pending)) state now final
          enabled sound e)
  ]
    where
      result : Option State
      result = dispatch_available fl p classifier (suc (length state.pending)) state now

  join-Sound :
      (r : ScheduleRequest) (refuses : Bool) (state : State) (now : ℕ)
      → Sound fl p classifier state
      → Sound fl p classifier (join fl p classifier size r refuses state now)
  unfolding join
  join-Sound r refuses state now sound = record {
    within = sound.within;
    keyed = Keyed-insert state.next_id _ state.pending sound.keyed;
  }

  pruned-Sound :
      (state : State) (now : ℕ)
      → Sound fl p classifier state
      → Sound fl p classifier (prune_events p now state)
  pruned-Sound state now =
      Sound-Keeps fl p classifier state (prune_events p now state) (prune_events-Keeps now state)

  leaves-Sound :
      (id : ℕ) (state : State)
      → Sound fl p classifier state
      → Sound fl p classifier (settle_queue (remove_pending id state))
  leaves-Sound id state sound =
      Sound-Keeps fl p classifier (remove_pending id state) (settle_queue (remove_pending id state))
        (settle_queue-Keeps (remove_pending id state))
        (Sound-Keeps fl p classifier state (remove_pending id state) (remove_pending-Keeps id state)
          sound)

  -- A request in flight ends.
  release-Sound :
      (id : ℕ) (events : List UsageEvent) (state : State)
      → Sound fl p classifier state
      → Sound fl p classifier
          (record state { active = remove_key id state.active; events = events })
  unfolding remove_key
  release-Sound id events state sound = record {
    within =
        Within-keep_if p.limits (λ (x : ℕ × ActiveRequest). not (x.0 == id)) state.active
          sound.within;
    keyed = sound.keyed;
  }

  if-Sound :
      {A : Type 0} (test : Bool) (x y : A × State)
      → Sound fl p classifier x.1
      → Sound fl p classifier y.1
      → Sound fl p classifier (if test then x else y).1
  if-Sound true x y h k = h
  if-Sound false x y h k = k

  enqueue-Sound :
      (r : ScheduleRequest) (refuses : Bool) (state : State) (now : ℕ)
      → Sound fl p classifier state
      → Sound fl p classifier (enqueue fl p classifier size r refuses state now).1
  unfolding enqueue enqueue_pruned
  enqueue-Sound r refuses state now sound =
      if-Sound _ _ _ (pruned-Sound state now sound)
        (join-Sound r refuses (prune_events p now state) now (pruned-Sound state now sound))

  look-Sound :
      (id : ℕ) (r : ScheduleRequest) (started : ℕ) (state : State) (now : ℕ)
      → p.enabled ≡ true
      → Sound fl p classifier state
      → Sound fl p classifier (look fl p classifier size id r started state now).1
  unfolding look look_pruned
  look-Sound id r started state now enabled sound =
      let pruned = pruned-Sound state now sound in
      if-Sound _ _ _ (leaves-Sound id (prune_events p now state) pruned)
        (dispatch_ready-Sound fl p classifier (prune_events p now state) now enabled pruned)

  settle_permit-Sound :
      (permit : SchedulePermit) (input output : Option ℕ) (state : State)
      → Sound fl p classifier state
      → Sound fl p classifier (settle_permit fl p classifier size permit input output state)
  unfolding settle_permit
  settle_permit-Sound permit input output state sound = by_id permit.reservation_id
    where
      by_id :
          (reservation : Option ℕ)
          → Sound fl p classifier (elim reservation [
            | none ↦ state
            | some id ↦ record state {
              active = remove_key id state.active;
              events = set_usage id input output state.events;
            }
          ])
      by_id none = sound
      by_id (some id) = release-Sound id (set_usage id input output state.events) state sound

  give_up-Sound :
      (id : ℕ) (r : ScheduleRequest) (started : ℕ) (state : State) (now : ℕ)
      → Sound fl p classifier state
      → Sound fl p classifier (give_up fl p classifier size id r started state now).1
  unfolding give_up
  give_up-Sound id r started state now sound = leaves-Sound id state sound

  complete-Sound :
      (permit : SchedulePermit) (input output : Option ℕ) (cache : Option Bool) (state : State)
      (now : ℕ)
      → p.enabled ≡ true
      → Sound fl p classifier state
      → Sound fl p classifier (complete fl p classifier size permit input output cache state now)
  unfolding complete
  complete-Sound permit input output cache state now enabled sound =
      let settled = settle_permit fl p classifier size permit input output state in
      let noted = note_session fl p classifier size permit cache now settled in
      dispatch_all-Sound (prune_events p now noted) now enabled (
        pruned-Sound noted now (
          Sound-Keeps fl p classifier settled noted (note_session-Keeps permit cache now settled)
            (settle_permit-Sound permit input output state sound)))

  abort-Sound :
      (permit : SchedulePermit) (state : State) (now : ℕ)
      → p.enabled ≡ true
      → Sound fl p classifier state
      → Sound fl p classifier (abort fl p classifier size permit state now)
  unfolding abort rebuild_pacing
  abort-Sound permit state now enabled sound = by_id permit.reservation_id
    where
      released : ℕ → State
      released id = record state {
        active = remove_key id state.active;
        events = keep_if (λ (e : UsageEvent). not (e.id == id)) state.events;
      }

      by_id :
          (reservation : Option ℕ)
          → Sound fl p classifier (elim reservation [
            | none ↦ state
            | some id ↦
                dispatch_all fl p classifier size
                  (prune_events p now (rebuild_pacing fl p.limits (released id)))
                  now
          ])
      by_id none = sound
      by_id (some id) =
          let left = released id in
          let rebuilt = rebuild_pacing fl p.limits left in
          dispatch_all-Sound (prune_events p now rebuilt) now enabled (
            pruned-Sound rebuilt now (
              Sound-Keeps fl p classifier left rebuilt (rebuild_pacing-Keeps left)
                (release-Sound id left.events state sound)))

  drop_lease-Sound :
      (id : ℕ) (state : State) (now : ℕ)
      → p.enabled ≡ true
      → Sound fl p classifier state
      → Sound fl p classifier (drop_lease fl p classifier size id state now)
  unfolding drop_lease
  drop_lease-Sound id state now enabled sound = by_found (is_some (find_key id state.active))
    where
      left : State
      left = record state { active = remove_key id state.active }

      by_found :
          (found : Bool)
          → Sound fl p classifier
              (if found then dispatch_all fl p classifier size left now else state)
      by_found true =
          dispatch_all-Sound left now enabled (release-Sound id state.events state sound)
      by_found false = sound

  drop_guard-Sound :
      (id : ℕ) (state : State) (now : ℕ)
      → p.enabled ≡ true
      → Sound fl p classifier state
      → Sound fl p classifier (drop_guard fl p classifier size id state now)
  unfolding drop_guard
  drop_guard-Sound id state now enabled sound =
      dispatch_all-Sound (prune_events p now (settle_queue (remove_pending id state))) now enabled
        (pruned-Sound (settle_queue (remove_pending id state)) now (leaves-Sound id state sound))

  step-Sound :
      {a b : State} → a ⟶ b → p.enabled ≡ true → Sound fl p classifier a → Sound fl p classifier b
  step-Sound {a} (enqueues r refuses now) enabled s = enqueue-Sound r refuses a now s
  step-Sound {a} (looks id r started now) enabled s = look-Sound id r started a now enabled s
  step-Sound {a} (gives_up id r started now) enabled s = give_up-Sound id r started a now s
  step-Sound {a} (completes permit i o cache now) enabled s =
      complete-Sound permit i o cache a now enabled s
  step-Sound {a} (aborts permit now) enabled s = abort-Sound permit a now enabled s
  step-Sound {a} (goes id) enabled s = record {
    within = s.within;
    keyed = mark_gone-Keyed id a.pending a.pending s.keyed;
  }
  step-Sound {a} (drops_lease id now) enabled s = drop_lease-Sound id a now enabled s
  step-Sound {a} (drops_guard id now) enabled s = drop_guard-Sound id a now enabled s

  steps-Sound :
      {a b : State} → a ⟶* b → p.enabled ≡ true → Sound fl p classifier a → Sound fl p classifier b
  steps-Sound done enabled s = s
  steps-Sound (then_ step rest) enabled s = steps-Sound rest enabled (step-Sound step enabled s)

-- `State::default()`
abbrev pub fresh_state : State
fresh_state = record {
  events = [];
  pending = [];
  active = [];
  pending_bytes = 0;
  pacing = [];
  sessions = [];
  next_id = 0;
  coalesce_until = none;
  delivered = [];
}

-- After any number of steps of an enabled scheduler that starts empty, whatever the clock says, each
-- limit on concurrency holds: for every request that the limit concerns, it counts no more requests
-- in flight than its `max_concurrency`.
pub fresh_state-Within :
    (fl : Floats) (p : SchedulingPolicy) (classifier : ScheduleRequest → Complexity)
    (size : Value → ℕ) (state : State)
    → p.enabled ≡ true
    → ◌⟶*◌ fl p classifier size fresh_state state
    → Within p.limits state.active
fresh_state-Within fl p classifier size state enabled steps =
    (steps-Sound fl p classifier size steps enabled
      (record { within = λ r. none_in_flight r p.limits; keyed = tt })).within
  where
    none_in_flight :
        (r : ScheduleRequest) (limits : List QuotaLimit)
        → All
            (λ l. rule_matches l r ≡ true → (cap : ℕ) → l.max_concurrency ≡ some cap → 0 ≤ cap)
            limits
    none_in_flight r [] = tt
    none_in_flight r (l ∷ ls) = ((λ e cap c. omega arith), none_in_flight r ls)
