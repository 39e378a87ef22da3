-- ===== src/Scheduling/Pacing.antt =====
-- src/scheduling.rs: pacing times. The floating-point operations are a parameter.
use kaiion.Prelude.{
  ℕ, suc, ◌+◌, Bool, true, false, not, ◌&&◌, ◌||◌, Option, none, some, List, [], ◌∷◌, ltb, ◌==◌,
  if◌then◌else◌, str_eq, unwrap_or, max,
}
use kaiion.Scheduling.Policy.{QuotaLimit, from_secs}
use kaiion.Scheduling.Types.{
  ScheduleRequest, UsageEvent, State, PacingKey, PaceMetric, requests, input_metric, output_metric,
  total_metric, unknown, saturating_add,
}
use kaiion.Scheduling.Quota.{rule_matches}

-- What the code asks of f64.
pub record Floats : Type 1 where
  pub F : Type 0
  pub of_u64 : ℕ → F
  pub mul : F → F → F
  pub div : F → F → F
  pub sub : F → F → F
  pub greater : F → F → F
  pub floor : F → F
  pub as_u64 : F → ℕ
  pub as_u32 : F → ℕ
  pub is_finite : F → Bool
  pub geb : F → F → Bool
  pub nano : F

abbrev metric_eq : PaceMetric → PaceMetric → Bool
metric_eq requests requests = true
metric_eq input_metric input_metric = true
metric_eq output_metric output_metric = true
metric_eq total_metric total_metric = true
metric_eq _ _ = false

-- The derived `PartialEq`.
abbrev key_eq : PacingKey → PacingKey → Bool
key_eq a b =
    a.rule_index == b.rule_index
    && str_eq a.provider b.provider
    && str_eq a.auth_scope b.auth_scope
    && str_eq a.model b.model
    && metric_eq a.metric b.metric

unfoldable pub get_pace : PacingKey → List (PacingKey × ℕ) → Option ℕ
get_pace k [] = none
get_pace k ((j, at) ∷ rest) = if key_eq j k then some at else get_pace k rest

unfoldable set_pace : PacingKey → ℕ → List (PacingKey × ℕ) → List (PacingKey × ℕ)
set_pace k at [] = (k, at) ∷ []
set_pace k at ((j, old) ∷ rest) =
    if key_eq j k then (k, at) ∷ rest else (j, old) ∷ set_pace k at rest

-- `key_base` with its metric.
unfoldable pub pacing_key : ℕ → QuotaLimit → ScheduleRequest → PaceMetric → PacingKey
pacing_key index l r metric = record {
  rule_index = index;
  provider = r.provider;
  auth_scope = if l.auth_scoped then r.auth_scope else "";
  model = unwrap_or l.model "";
  metric = metric;
}

module _ (fl : Floats) where
  unfoldable duration_from_seconds : fl.F → ℕ
  duration_from_seconds seconds =
      let year = fl.of_u64 31536000 in
      let whole = fl.as_u64 (fl.floor seconds) in
      if not (fl.is_finite seconds) || fl.geb seconds year
      then from_secs (fl.as_u64 year)
      else from_secs whole
        + fl.as_u32 (fl.mul (fl.sub seconds (fl.of_u64 whole)) (fl.of_u64 1000000000))

  unfoldable duration_for_rate : (units rate_per_second : ℕ) → ℕ
  unfolding duration_from_seconds
  duration_for_rate units rate =
      duration_from_seconds (fl.greater (fl.div (fl.of_u64 units) (fl.of_u64 rate)) fl.nano)

  -- Move the pacing time of a key on, from the later of it and now.
  unfoldable push_pace :
      PacingKey → (now duration : ℕ) → List (PacingKey × ℕ) → List (PacingKey × ℕ)
  unfolding get_pace set_pace
  push_pace k now duration pacing =
      set_pace k (max (unwrap_or (get_pace k pacing) now) now + duration) pacing

  unfoldable pace_requests :
      ℕ → QuotaLimit → ScheduleRequest → (now : ℕ) → List (PacingKey × ℕ) → List (PacingKey × ℕ)
  unfolding push_pace pacing_key duration_for_rate
  pace_requests index l r now pacing = elim l.max_rps [
    | none ↦ pacing
    | some rps ↦ push_pace (pacing_key index l r requests) now (duration_for_rate 1 rps) pacing
  ]

  unfoldable pace_tokens :
      ℕ
      → QuotaLimit
      → ScheduleRequest
      → PaceMetric
      → (cap : Option ℕ) → (tokens now : ℕ) → List (PacingKey × ℕ)
      → List (PacingKey × ℕ)
  unfolding push_pace pacing_key duration_from_seconds
  pace_tokens index l r metric none tokens now pacing = pacing
  pace_tokens index l r metric (some cap) tokens now pacing =
      let seconds =
        fl.div (fl.mul (fl.of_u64 tokens) (fl.of_u64 l.window_seconds)) (fl.of_u64 cap) in
      if ltb 0 tokens
      then push_pace (pacing_key index l r metric) now (duration_from_seconds seconds) pacing
      else pacing

  unfoldable update_limits :
      (index : ℕ)
      → List QuotaLimit
      → ScheduleRequest
      → (input_tokens output_tokens now : ℕ) → List (PacingKey × ℕ)
      → List (PacingKey × ℕ)
  unfolding pace_requests pace_tokens rule_matches
  update_limits index [] r i o now pacing = pacing
  update_limits index (l ∷ ls) r i o now pacing = update_limits (suc index) ls r i o now (
      if rule_matches l r
      then pace_tokens index l r total_metric l.max_total_tokens (saturating_add i o) now (
          pace_tokens index l r output_metric l.max_output_tokens o now (
            pace_tokens index l r input_metric l.max_input_tokens i now
              (pace_requests index l r now pacing)))
      else pacing)

  unfoldable pub update_pacing :
      List QuotaLimit → State → ScheduleRequest → (input_tokens output_tokens now : ℕ) → State
  unfolding update_limits
  update_pacing limits state r i o now = record state {
    pacing = update_limits 0 limits r i o now state.pacing;
  }

  abbrev pub request_of_event : UsageEvent → ScheduleRequest
  request_of_event e = record {
    provider = e.provider;
    auth_scope = e.auth_scope;
    model = e.model;
    session_id = none;
    input_tokens = e.input_tokens;
    output_tokens = e.output_tokens;
    interaction = unknown;
    async_alias = false;
    cache_read_hit = none;
    retry_attempt = 0;
    upstream_retry_after = none;
    allow_batch_fallback = false;
    body = none;
  }

  unfoldable pub replay_events : List QuotaLimit → List UsageEvent → State → State
  unfolding update_pacing
  replay_events limits [] state = state
  replay_events limits (e ∷ es) state =
      replay_events limits es
        (update_pacing limits state (request_of_event e) e.input_tokens e.output_tokens e.at)

  unfoldable pub rebuild_pacing : List QuotaLimit → State → State
  unfolding replay_events
  rebuild_pacing limits state = replay_events limits state.events (record state { pacing = [] })
