-- ===== src/Scheduling/Readiness.antt =====
-- src/scheduling.rs: `readiness`, when a request may be dispatched under every limit.
use kaiion.Prelude.{
  ℕ, suc, Bool, false, not, ◌&&◌, ◌||◌, none, some, List, [], ◌∷◌, Result, ok, err, ltb, leb,
  if◌then◌else◌, is_some, is_some_and, unwrap_or, keep_if, count_if, max,
}
use kaiion.Scheduling.Policy.{QuotaLimit, SchedulingPolicy}
use kaiion.Scheduling.Types.{
  ScheduleRequest, UsageEvent, State, PacingKey, PaceMetric, Fit, requests, input_metric,
  output_metric, total_metric, saturating_add,
}
use kaiion.Scheduling.Quota.{
  rule_matches, event_matches, active_matches, rolling_fit, fits_at, never_fits,
}
use kaiion.Scheduling.Pacing.{get_pace, pacing_key}

-- `if let Some(at) = state.pacing.get(&key) { ready = ready.max(*at) }`
unfoldable wait_pace : Bool → PacingKey → List (PacingKey × ℕ) → ℕ → ℕ
unfolding get_pace
wait_pace applies k pacing ready =
    if applies then max ready (unwrap_or (get_pace k pacing) 0) else ready

-- The request alone is larger than a cap.
unfoldable pub exceeds : QuotaLimit → (input_tokens output_tokens : ℕ) → Bool
exceeds l i o =
    is_some_and l.max_input_tokens (λ cap. ltb cap i)
    || (is_some_and l.max_output_tokens (λ cap. ltb cap o)
        || is_some_and l.max_total_tokens (λ cap. ltb cap (saturating_add i o)))

-- The pacing times of one limit.
unfoldable pub paced :
    ℕ → QuotaLimit → State → ScheduleRequest → (input_tokens output_tokens ready : ℕ) → ℕ
unfolding wait_pace pacing_key
paced index l state r i o ready =
    let total = saturating_add i o in
    let at = λ (m : PaceMetric). pacing_key index l r m in
    wait_pace (is_some l.max_total_tokens && ltb 0 total) (at total_metric) state.pacing (
      wait_pace (is_some l.max_output_tokens && ltb 0 o) (at output_metric) state.pacing (
        wait_pace (is_some l.max_input_tokens && ltb 0 i) (at input_metric) state.pacing
          (wait_pace (is_some l.max_rps) (at requests) state.pacing ready)))

-- The events that a limit counts for this request.
abbrev pub counted : QuotaLimit → ScheduleRequest → (now : ℕ) → State → List UsageEvent
counted l r now state = keep_if (λ e. event_matches l r e now) state.events

-- The body of the first loop: an early return is an error, and otherwise `ready` moves on.
unfoldable pub limit_ready :
    ℕ
    → QuotaLimit
    → State
    → ScheduleRequest
    → (input_tokens output_tokens now ready : ℕ) → Result {0, 0} Fit ℕ
unfolding rule_matches exceeds rolling_fit paced event_matches
limit_ready index l state r i o now ready =
    let rolling = rolling_fit l (counted l r now state) i o now in
    if not (rule_matches l r)
    then ok ready
    else if exceeds l i o
    then err never_fits
    else if rolling.impossible
    then err rolling
    else ok (paced index l state r i o (max ready (unwrap_or rolling.at 0)))

unfoldable pub limits_ready :
    ℕ
    → List QuotaLimit
    → State
    → ScheduleRequest
    → (input_tokens output_tokens now ready : ℕ) → Result {0, 0} Fit ℕ
unfolding limit_ready
limits_ready index [] state r i o now ready = ok ready
limits_ready index (l ∷ ls) state r i o now ready =
    elim (limit_ready index l state r i o now ready) [
      | err fit ↦ err fit
      | ok ready' ↦ limits_ready (suc index) ls state r i o now ready'
    ]

-- How many requests in flight a limit counts for this request.
abbrev pub in_flight : QuotaLimit → ScheduleRequest → State → ℕ
in_flight l r state = count_if (λ (id, a). active_matches l r a) state.active

-- The second loop: is some concurrency limit used up?
unfoldable pub is_saturated : List QuotaLimit → State → ScheduleRequest → Bool
unfolding rule_matches active_matches
is_saturated [] state r = false
is_saturated (l ∷ ls) state r =
    (rule_matches l r && is_some_and l.max_concurrency (λ cap. leb cap (in_flight l r state)))
    || is_saturated ls state r

-- `readiness` after its first loop.
unfoldable pub ready_fit : (now : ℕ) → Result {0, 0} Fit ℕ → (saturated : Bool) → Fit
ready_fit now (err fit) saturated = fit
ready_fit now (ok ready) saturated =
    if saturated
    then record { at = if ltb now ready then some ready else none; impossible = false }
    else fits_at ready

unfoldable pub readiness :
    SchedulingPolicy → State → ScheduleRequest → (input_tokens output_tokens now : ℕ) → Fit
unfolding limits_ready is_saturated ready_fit
readiness p state r i o now =
    if not p.enabled
    then fits_at now
    else ready_fit now (limits_ready 0 p.limits state r i o now now) (is_saturated p.limits state r)
