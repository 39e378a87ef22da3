-- ===== src/Scheduling/Types.antt =====
-- src/scheduling.rs: requests, outcomes and the scheduler's state. A map is a list of pairs in the
-- order in which it is iterated; a time is a number of nanoseconds.
use kaiion.Prelude.{ℕ, String, Bool, Option, List, ◌+◌, ◌*◌, min}
use kaiion.Json.{Value}

pub data InteractionKind : Type 0 where
  user_prompt tool_output unknown : InteractionKind

pub data Complexity : Type 0 where
  low medium high : Complexity

pub record ScheduleRequest : Type 0 where
  pub provider : String
  pub auth_scope : String
  pub model : String
  pub session_id : Option String
  pub input_tokens : ℕ
  pub output_tokens : ℕ
  pub interaction : InteractionKind
  pub async_alias : Bool
  pub cache_read_hit : Option Bool
  pub retry_attempt : ℕ
  pub upstream_retry_after : Option ℕ
  pub allow_batch_fallback : Bool
  pub body : Option Value

-- The lease of a permit is armed exactly when its reservation is there.
pub record SchedulePermit : Type 0 where
  pub reservation_id : Option ℕ
  pub provider : String
  pub auth_scope : String
  pub model : String
  pub session_id : Option String
  pub interaction : InteractionKind
  pub input_tokens : ℕ
  pub output_tokens : ℕ
  pub waited : ℕ

pub data ScheduleOutcome : Type 0 where
  dispatched : SchedulePermit → ScheduleOutcome
  recommend_batch retry_exhausted : (reason : String) → (retry_after : Option ℕ) → ScheduleOutcome

pub record UsageEvent : Type 0 where
  pub id : ℕ
  pub at : ℕ
  pub provider : String
  pub auth_scope : String
  pub model : String
  pub input_tokens : ℕ
  pub output_tokens : ℕ

pub record ActiveRequest : Type 0 where
  pub provider : String
  pub auth_scope : String
  pub model : String

-- `closed` is what `sender.is_closed()` answers, and `refuses` whether a later `send` fails: the
-- receiver may be dropped between the two.
pub record Pending : Type 0 where
  pub request : ScheduleRequest
  pub enqueued_at : ℕ
  pub input_tokens : ℕ
  pub output_tokens : ℕ
  pub bytes : ℕ
  pub closed : Bool
  pub refuses : Bool

pub data PaceMetric : Type 0 where
  requests input_metric output_metric total_metric : PaceMetric

pub record PacingKey : Type 0 where
  pub rule_index : ℕ
  pub provider : String
  pub auth_scope : String
  pub model : String
  pub metric : PaceMetric

pub record SessionState : Type 0 where
  pub last_activity : ℕ
  pub last_interaction : InteractionKind
  pub last_model : String
  pub cache_read_hit : Option Bool

-- `delivered` holds what was sent to the waiters, the latest first.
pub record State : Type 0 where
  pub events : List UsageEvent
  pub pending : List (ℕ × Pending)
  pub active : List (ℕ × ActiveRequest)
  pub pending_bytes : ℕ
  pub pacing : List (PacingKey × ℕ)
  pub sessions : List (String × SessionState)
  pub next_id : ℕ
  pub coalesce_until : Option ℕ
  pub delivered : List (ℕ × ScheduleOutcome)

pub record Fit : Type 0 where
  pub at : Option ℕ
  pub impossible : Bool

-- The bound of u64.
abbrev pub u64_mod : ℕ
u64_mod = 18446744073709551616

-- `u64::saturating_add` and `u64::saturating_mul`
abbrev pub saturating_add : ℕ → ℕ → ℕ
saturating_add a b = min (a + b) 18446744073709551615

abbrev pub saturating_mul : ℕ → ℕ → ℕ
saturating_mul a b = min (a * b) 18446744073709551615
