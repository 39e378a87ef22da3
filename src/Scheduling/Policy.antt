-- ===== src/Scheduling/Policy.antt =====
-- src/scheduling_policy.rs: the policy, its validation and the wait cap. Durations and times are
-- numbers of nanoseconds; a `u64` or `usize` is a number below 2 ^ 64.
use kaiion.Prelude.{
  ℕ, suc, ◌*◌, String, Bool, true, false, not, ◌&&◌, ◌||◌, Option, List, [], ◌∷◌, Result, ok, err,
  ◌>>◌, concat, ltb, leb, ◌==◌, if◌then◌else◌, is_some, is_none, is_some_and, max, blank,
}
use kaiion.Scheduling.Int.{ℤ, unsigned_abs}

-- A rolling quota or in-flight concurrency limit.
pub record QuotaLimit : Type 0 where
  pub provider : Option String
  pub model : Option String
  pub auth_scoped : Bool
  pub window_seconds : ℕ
  pub max_rps : Option ℕ
  pub max_requests : Option ℕ
  pub max_input_tokens : Option ℕ
  pub max_output_tokens : Option ℕ
  pub max_total_tokens : Option ℕ
  pub max_concurrency : Option ℕ

pub record ComplexitySettings : Type 0 where
  pub low_input_tokens : ℕ
  pub high_input_tokens : ℕ
  pub high_tool_count : ℕ
  pub low_priority : ℤ
  pub medium_priority : ℤ
  pub high_priority : ℤ

pub record SchedulingPolicy : Type 0 where
  pub enabled : Bool
  pub limits : List QuotaLimit
  pub max_wait_ms : ℕ
  pub async_max_wait_ms : ℕ
  pub max_retries : ℕ
  pub max_pending : ℕ
  pub max_pending_bytes : ℕ
  pub queue_coalesce_ms : ℕ
  pub cache_affinity_window_ms : ℕ
  pub recent_prompt_window_ms : ℕ
  pub idle_decay_ms : ℕ
  pub aging_interval_ms : ℕ
  pub high_priority_threshold : ℤ
  pub cache_affinity_boost : ℤ
  pub recent_prompt_boost : ℤ
  pub tool_output_penalty : ℤ
  pub idle_decay_penalty_per_interval : ℤ
  pub queue_aging_boost_per_interval : ℤ
  pub async_alias_penalty : ℤ
  pub batch_on_cache_miss : Bool
  pub default_output_tokens : ℕ
  pub complexity : ComplexitySettings

abbrev max_window_seconds : ℕ
max_window_seconds = 31536000

abbrev max_wait_limit_ms : ℕ
max_wait_limit_ms = 86400000

-- `return Err(…)` where the test holds.
abbrev refuse_if : Bool → String → Result {0, 0} String (Unit {0})
refuse_if true message = err message
refuse_if false message = ok tt

-- A sequence of such tests: the first that holds is the error.
unfoldable pub first_error : List (Bool × String) → Result {0, 0} String (Unit {0})
first_error [] = ok tt
first_error ((test, message) ∷ rest) = refuse_if test message >> first_error rest

-- The loop over the signed settings.
unfoldable pub check_settings : List (String × ℤ) → Result {0, 0} String (Unit {0})
check_settings [] = ok tt
check_settings ((name, value) ∷ rest) =
    refuse_if (ltb 1000000 (unsigned_abs value))
      (concat (name ∷ " must be between -1000000 and 1000000" ∷ []))
    >> check_settings rest

abbrev pub has_rolling_quota : QuotaLimit → Bool
has_rolling_quota l =
    is_some l.max_rps
    || is_some l.max_requests
    || is_some l.max_input_tokens
    || is_some l.max_output_tokens
    || is_some l.max_total_tokens

-- `limit.max_… == Some(0)`
abbrev pub is_zero : Option ℕ → Bool
is_zero o = is_some_and o (λ n. n == 0)

-- `amount > i64::MAX as u64`
abbrev pub too_large : Option ℕ → Bool
too_large o = is_some_and o (λ n. ltb 9223372036854775807 n)

-- The body of the loop over the limits; `at` prints "limits[{index}]".
abbrev pub limit_tests : (at : String) → QuotaLimit → List (Bool × String)
limit_tests at l =
    (
      has_rolling_quota l && (l.window_seconds == 0 || ltb max_window_seconds l.window_seconds),
      concat (at ∷ ".window_seconds must be between 1 and 31536000" ∷ []),
    )
    ∷ (
      not (has_rolling_quota l) && is_none l.max_concurrency,
      concat (at ∷ " must define at least one quota" ∷ []),
    )
    ∷ (
      is_zero l.max_rps
          || is_zero l.max_requests
          || is_zero l.max_input_tokens
          || is_zero l.max_output_tokens
          || is_zero l.max_total_tokens
          || is_zero l.max_concurrency,
      concat (at ∷ " quota values must be greater than zero" ∷ []),
    )
    ∷ (
      is_some_and l.provider blank || is_some_and l.model blank,
      concat (at ∷ " provider/model cannot be blank" ∷ []),
    )
    ∷ (too_large l.max_rps, concat (at ∷ ".max_rps is too large" ∷ []))
    ∷ (too_large l.max_requests, concat (at ∷ ".max_requests is too large" ∷ []))
    ∷ (too_large l.max_input_tokens, concat (at ∷ ".max_input_tokens is too large" ∷ []))
    ∷ (too_large l.max_output_tokens, concat (at ∷ ".max_output_tokens is too large" ∷ []))
    ∷ (too_large l.max_total_tokens, concat (at ∷ ".max_total_tokens is too large" ∷ []))
    ∷ (too_large l.max_concurrency, concat (at ∷ ".max_concurrency is too large" ∷ []))
    ∷ []

unfoldable pub check_limit : (at : String) → QuotaLimit → Result {0, 0} String (Unit {0})
unfolding first_error
check_limit at l = first_error (limit_tests at l)

-- The loop over the limits; `shown` prints an index.
unfoldable pub check_limits :
    (shown : ℕ → String) (index : ℕ) → List QuotaLimit → Result {0, 0} String (Unit {0})
unfolding check_limit
check_limits shown index [] = ok tt
check_limits shown index (l ∷ rest) =
    check_limit (concat ("limits[" ∷ shown index ∷ "]" ∷ [])) l
    >> check_limits shown (suc index) rest

abbrev pub settings : SchedulingPolicy → List (String × ℤ)
settings p =
    ("high_priority_threshold", p.high_priority_threshold)
    ∷ ("cache_affinity_boost", p.cache_affinity_boost)
    ∷ ("recent_prompt_boost", p.recent_prompt_boost)
    ∷ ("tool_output_penalty", p.tool_output_penalty)
    ∷ ("idle_decay_penalty_per_interval", p.idle_decay_penalty_per_interval)
    ∷ ("queue_aging_boost_per_interval", p.queue_aging_boost_per_interval)
    ∷ ("async_alias_penalty", p.async_alias_penalty)
    ∷ ("complexity.low_priority", p.complexity.low_priority)
    ∷ ("complexity.medium_priority", p.complexity.medium_priority)
    ∷ ("complexity.high_priority", p.complexity.high_priority)
    ∷ []

-- The tests of `validate` before its loops.
abbrev pub bounds_tests : SchedulingPolicy → List (Bool × String)
bounds_tests p =
    (
      p.max_wait_ms == 0 || ltb max_wait_limit_ms p.max_wait_ms,
      "max_wait_ms must be between 1 and 86400000",
    )
    ∷ (
      p.async_max_wait_ms == 0 || ltb max_wait_limit_ms p.async_max_wait_ms,
      "async_max_wait_ms must be between 1 and 86400000",
    )
    ∷ (p.aging_interval_ms == 0, "aging_interval_ms must be greater than zero")
    ∷ (ltb p.max_wait_ms p.queue_coalesce_ms, "queue_coalesce_ms cannot exceed max_wait_ms")
    ∷ (p.default_output_tokens == 0, "default_output_tokens must be greater than zero")
    ∷ (p.max_pending == 0 || ltb 1000000 p.max_pending, "max_pending must be between 1 and 1000000")
    ∷ (
      p.max_pending_bytes == 0 || ltb 4294967296 p.max_pending_bytes,
      "max_pending_bytes must be between 1 and 4294967296",
    )
    ∷ []

unfoldable pub check_bounds : SchedulingPolicy → Result {0, 0} String (Unit {0})
unfolding first_error
check_bounds p = first_error (bounds_tests p)

-- The tests on the complexity settings.
abbrev complexity_tests : ComplexitySettings → List (Bool × String)
complexity_tests s =
    (
      leb s.high_input_tokens s.low_input_tokens,
      "complexity.high_input_tokens must exceed low_input_tokens",
    )
    ∷ (s.high_tool_count == 0, "complexity.high_tool_count must be greater than zero")
    ∷ []

unfoldable pub check_complexity : ComplexitySettings → Result {0, 0} String (Unit {0})
unfolding first_error
check_complexity s = first_error (complexity_tests s)

-- `SchedulingPolicy::validate`
unfoldable pub validate : (shown : ℕ → String) → SchedulingPolicy → Result {0, 0} String (Unit {0})
unfolding check_bounds check_settings check_complexity check_limits
validate shown p = do
  check_bounds p
  check_settings (settings p)
  check_complexity p.complexity
  check_limits shown 0 p.limits

-- `Duration::from_millis`
abbrev pub from_millis : ℕ → ℕ
from_millis ms = 1000000 * ms

-- `Duration::from_secs`
abbrev pub from_secs : ℕ → ℕ
from_secs s = 1000000000 * s

-- `SchedulingPolicy::max_wait`
unfoldable pub max_wait : SchedulingPolicy → (async_alias : Bool) → ℕ
max_wait p async_alias =
    from_millis (if async_alias then max p.async_max_wait_ms p.max_wait_ms else p.max_wait_ms)
