-- ===== src/Scheduling/Priority.antt =====
-- src/scheduling.rs: the built-in classifier, the priority of a waiting request and when a batch is
-- recommended instead. A score is an i64 that stays far from its bounds, since `validate` bounds
-- each term by 1,000,000.
use kaiion.Prelude.{
  ℕ, ◌-◌, ◌*◌, ◌/◌, String, Bool, true, false, not, ◌&&◌, ◌||◌, Option, none, some, List, [], ◌∷◌,
  ltb, leb, if◌then◌else◌, str_eq, is_some, is_some_and, is_none, map_option, and_then, unwrap_or,
  concat, strip_prefix, min, max, length,
}
use kaiion.Json.{Value, get, get_str, as_array, entries}
use kaiion.Scheduling.Int.{ℤ, pos, pos_part, ◌+ℤ◌, ◌-ℤ◌, ltb_ℤ, half}
use kaiion.Scheduling.Policy.{ComplexitySettings, SchedulingPolicy, from_millis}
use kaiion.Scheduling.Types.{
  ScheduleRequest, SessionState, State, InteractionKind, user_prompt, tool_output, Complexity, low,
  medium, high,
}

abbrev tool_count : Option Value → ℕ
tool_count body =
    unwrap_or
      (map_option (λ vs. length (entries vs)) (and_then (and_then body (get "tools")) as_array)) 0

-- `body.pointer("/reasoning/effort")` is one of the high efforts.
abbrev high_reasoning : Option Value → Bool
high_reasoning body =
    is_some_and (and_then (and_then body (get "reasoning")) (get_str "effort"))
      (λ effort. str_eq effort "high" || (str_eq effort "xhigh" || str_eq effort "max"))

-- `HeuristicComplexityClassifier::classify`
unfoldable classify : ComplexitySettings → ScheduleRequest → Complexity
classify s r =
    let tools = tool_count r.body in
    if high_reasoning r.body
      || (leb s.high_input_tokens r.input_tokens || leb s.high_tool_count tools)
    then high
    else if leb r.input_tokens s.low_input_tokens && leb tools 1
    then low
    else medium

abbrev from_user : InteractionKind → Bool
from_user user_prompt = true
from_user _ = false

abbrev from_tool : InteractionKind → Bool
from_tool tool_output = true
from_tool _ = false

-- Does the session hold this observation of the cache for the request's model, recently enough?
unfoldable session_cache :
    SchedulingPolicy → ScheduleRequest → Option SessionState → (now : ℕ) → Bool → Bool
session_cache p r session now hit = is_some_and session (λ s.
    is_some_and s.cache_read_hit (λ seen. if hit then seen else not seen)
    && (str_eq s.last_model r.model
        && leb (now - s.last_activity) (from_millis p.cache_affinity_window_ms)))

-- `request.async_alias || request.model.starts_with(ASYNC_MODEL_PREFIX)`
abbrev is_async : ScheduleRequest → Bool
is_async r = r.async_alias || is_some (strip_prefix "async-" r.model)

abbrev whole_millis : ℕ → ℕ
whole_millis duration = duration / 1000000

-- `intervals.saturating_mul(u128::from(rate.max(0) as u32)).min(1_000_000) as i64`
abbrev pub capped : (intervals : ℕ) → ℤ → ℤ
capped intervals rate = pos (min (intervals * pos_part rate) 1000000)

-- The last user turn was answered a short while ago.
abbrev is_recent : SchedulingPolicy → ScheduleRequest → Option SessionState → (now : ℕ) → Bool
is_recent p r session now =
    from_user r.interaction
    && is_some_and session
        (λ s. leb (now - s.last_activity) (from_millis p.recent_prompt_window_ms))

unfoldable base_score : SchedulingPolicy → Complexity → ℤ
base_score p low = p.complexity.low_priority
base_score p medium = p.complexity.medium_priority
base_score p high = p.complexity.high_priority

unfoldable with_affinity :
    SchedulingPolicy → ScheduleRequest → Option SessionState → (now : ℕ) → ℤ → ℤ
unfolding session_cache
with_affinity p r session now score =
    if is_some_and r.cache_read_hit (λ hit. hit)
      || (is_none r.cache_read_hit && session_cache p r session now true)
    then score +ℤ p.cache_affinity_boost
    else score

unfoldable with_recency :
    SchedulingPolicy → ScheduleRequest → Option SessionState → (now : ℕ) → ℤ → ℤ
with_recency p r session now score =
    let boosted = score +ℤ p.recent_prompt_boost in
    if is_recent p r session now
    then if is_some_and session (λ s. from_tool s.last_interaction)
      then boosted +ℤ half p.recent_prompt_boost
      else boosted
    else score

unfoldable with_idleness : SchedulingPolicy → Option SessionState → (now : ℕ) → ℤ → ℤ
with_idleness p none now score = score
with_idleness p (some s) now score =
    let age = now - s.last_activity in
    if ltb (from_millis p.idle_decay_ms) age && ltb 0 p.idle_decay_ms
    then score -ℤ capped (whole_millis age / p.idle_decay_ms - 1) p.idle_decay_penalty_per_interval
    else score

unfoldable with_aging : SchedulingPolicy → (waited : ℕ) → ℤ → ℤ
with_aging p waited score =
    score
    +ℤ capped (whole_millis waited / max p.aging_interval_ms 1) p.queue_aging_boost_per_interval

-- `priority_score`
unfoldable pub priority_score :
    SchedulingPolicy
    → (classifier : ScheduleRequest → Complexity) → ScheduleRequest
    → Option SessionState
    → (enqueued_at now : ℕ) → ℤ
unfolding base_score with_affinity with_recency with_idleness with_aging
priority_score p classifier r session enqueued_at now =
    let score =
      with_recency p r session now (with_affinity p r session now (base_score p (classifier r))) in
    let fair = if from_tool r.interaction then score -ℤ p.tool_output_penalty else score in
    let live = if is_async r then fair -ℤ p.async_alias_penalty else fair in
    with_aging p (now - enqueued_at) (with_idleness p session now live)

-- `format!("{provider}\0{auth_scope}\0{session_id}")`
unfoldable pub session_key : (provider auth_scope session_id : String) → String
session_key provider auth_scope session_id =
    concat (provider ∷ "\0" ∷ auth_scope ∷ "\0" ∷ session_id ∷ [])

unfoldable pub find_session : String → List (String × SessionState) → Option SessionState
find_session k [] = none
find_session k ((j, s) ∷ rest) = if str_eq j k then some s else find_session k rest

-- The session of a request, if it names one that is known.
unfoldable pub session_of : ScheduleRequest → State → Option SessionState
unfolding session_key find_session
session_of r state =
    and_then r.session_id
      (λ session. find_session (session_key r.provider r.auth_scope session) state.sessions)

-- `batch_recommendation`, where the state is known.
unfoldable pub batch_recommendation :
    SchedulingPolicy
    → (classifier : ScheduleRequest → Complexity) → ScheduleRequest
    → State
    → (enqueued_at now : ℕ) → Option String
unfolding session_of priority_score session_cache
batch_recommendation p classifier r state enqueued_at now =
    let session = session_of r state in
    if not r.allow_batch_fallback || not p.batch_on_cache_miss
    then none
    else if not
        (ltb_ℤ (priority_score p classifier r session enqueued_at now) p.high_priority_threshold)
    then none
    else if is_some_and r.cache_read_hit not || session_cache p r session now false
    then some "cache_miss_low_priority"
    else if is_async r
    then some "async_alias_low_priority"
    else none
