-- ===== src/Tests/Scheduling.antt =====
-- src/scheduling.rs: the scheduler's theorems at concrete inputs.
use kaiion.Prelude.{
  ok, blank, ℕ, ◌-◌, ◌*◌, ◌/◌, true, false, none, some, [], ◌∷◌, ◌≡◌, refl, leb, max, arith, map,
  length,
}
use kaiion.Json.{Value}
use kaiion.Scheduling.Int.{pos}
use kaiion.Scheduling.Validation.{PolicyInRange, validate-PolicyInRange}
use kaiion.Scheduling.Policy.{validate, QuotaLimit, SchedulingPolicy}
use kaiion.Scheduling.Types.{
  ScheduleRequest, UsageEvent, State, Complexity, medium, user_prompt, input_metric,
}
use kaiion.Scheduling.Quota.{slot, rolling_fit}
use kaiion.Scheduling.Windows.{total}
use kaiion.Scheduling.Rolling.{Least, IsBounded, InWindow, rolling_fit-Least}
use kaiion.Scheduling.Pacing.{Floats}
use kaiion.Scheduling.Readiness.{readiness}
use kaiion.Scheduling.Room.{AllFrom}
use kaiion.Scheduling.Room.Counted.{Concerns, used, Countable, Grants}
use kaiion.Scheduling.Room.Granted.{readiness-Grants}
use kaiion.Scheduling.Dispatch.{remove_key, dispatch_available}
use kaiion.Scheduling.Termination.{dispatch_available-ends}
use kaiion.Scheduling.Scheduler.{prune_events, join, enqueue_pruned, enqueue, look}
use kaiion.Scheduling.Concurrency.{Within}
use kaiion.Scheduling.Steps.{done, then_, enqueues, looks, fresh_state, fresh_state-Within}

abbrev whole_floats : Floats
whole_floats = record {
  F = ℕ;
  of_u64 = λ n. n;
  mul = λ a b. a * b;
  div = λ a b. a / b;
  sub = λ a b. a - b;
  greater = max;
  floor = λ n. n;
  as_u64 = λ n. n;
  as_u32 = λ n. n;
  is_finite = λ n. true;
  geb = λ a b. leb b a;
  nano = 0;
}

abbrev two_a_minute : QuotaLimit
two_a_minute = record {
  provider = some "openai";
  model = none;
  auth_scoped = true;
  window_seconds = 60;
  max_rps = none;
  max_requests = some 2;
  max_input_tokens = some 1000;
  max_output_tokens = none;
  max_total_tokens = none;
  max_concurrency = some 1;
}

abbrev sample_policy : SchedulingPolicy
sample_policy = record {
  enabled = true;
  limits = two_a_minute ∷ [];
  max_wait_ms = 30000;
  async_max_wait_ms = 300000;
  max_retries = 3;
  max_pending = 10;
  max_pending_bytes = 1000000;
  queue_coalesce_ms = 0;
  cache_affinity_window_ms = 300000;
  recent_prompt_window_ms = 60000;
  idle_decay_ms = 60000;
  aging_interval_ms = 1000;
  high_priority_threshold = pos 100;
  cache_affinity_boost = pos 20;
  recent_prompt_boost = pos 30;
  tool_output_penalty = pos 10;
  idle_decay_penalty_per_interval = pos 1;
  queue_aging_boost_per_interval = pos 1;
  async_alias_penalty = pos 40;
  batch_on_cache_miss = true;
  default_output_tokens = 100;
  complexity = record {
    low_input_tokens = 100;
    high_input_tokens = 10000;
    high_tool_count = 8;
    low_priority = pos 10;
    medium_priority = pos 20;
    high_priority = pos 30;
  };
}

abbrev sample_request : ScheduleRequest
sample_request = record {
  provider = "openai";
  auth_scope = "team";
  model = "gpt";
  session_id = none;
  input_tokens = 400;
  output_tokens = 100;
  interaction = user_prompt;
  async_alias = false;
  cache_read_hit = none;
  retry_attempt = 0;
  upstream_retry_after = none;
  allow_batch_fallback = false;
  body = none;
}

abbrev event_at : (id at : ℕ) → UsageEvent
event_at id at = record {
  id = id;
  at = at;
  provider = "openai";
  auth_scope = "team";
  model = "gpt";
  input_tokens = 500;
  output_tokens = 100;
}

abbrev always_medium : ScheduleRequest → Complexity
always_medium r = medium

abbrev no_size : Value → ℕ
no_size v = 0

-- Two requests of the last minute fill the limit.
full_window-IsBounded : IsBounded (map (slot two_a_minute) (event_at 0 5 ∷ event_at 1 7 ∷ []))
unfolding slot total
full_window-IsBounded = record { reqs = omega arith; input = omega arith; output = omega arith }

full_window_lem : InWindow two_a_minute 10 (event_at 0 5 ∷ event_at 1 7 ∷ [])
full_window_lem = (omega arith, (omega arith, tt))

rolling_fit-Least_example :
    Least two_a_minute 400 100 10
      (map (slot two_a_minute) (event_at 0 5 ∷ event_at 1 7 ∷ []))
      (rolling_fit two_a_minute (event_at 0 5 ∷ event_at 1 7 ∷ []) 400 100 10)
rolling_fit-Least_example =
    rolling_fit-Least two_a_minute (event_at 0 5 ∷ event_at 1 7 ∷ []) 400 100 10 full_window_lem
      full_window-IsBounded

-- One request of the last minute, another caller's in flight, and input tokens paced.
abbrev busy_state : State
busy_state = record fresh_state {
  events = event_at 1 7 ∷ [];
  active = (3, record { provider = "openai"; auth_scope = "other"; model = "gpt" }) ∷ [];
  pacing =
      (
        record {
          rule_index = 0;
          provider = "openai";
          auth_scope = "team";
          model = "";
          metric = input_metric;
        },
        9,
      )
      ∷ [];
}

ready_now : (readiness sample_policy busy_state sample_request 400 100 10).impossible ≡ false
unfolding readiness
ready_now = refl

ready_at : (readiness sample_policy busy_state sample_request 400 100 10).at ≡ some 10
unfolding readiness
ready_at = refl

few_uses : Countable (used two_a_minute sample_request 10 busy_state.events) 400 100
few_uses = record { reqs = omega arith; tokens = omega arith }

readiness-Grants_example :
    AllFrom
      (λ n l. Concerns l sample_request → Grants n l busy_state sample_request 400 100 10)
      0
      sample_policy.limits
readiness-Grants_example =
    readiness-Grants sample_policy busy_state sample_request 400 100 10 10 refl (few_uses, tt)
      ready_now ready_at (omega arith)

-- Two requests wait.
abbrev two_waiting : State
two_waiting =
    (enqueue whole_floats sample_policy always_medium no_size sample_request false
      (enqueue whole_floats sample_policy always_medium no_size sample_request false fresh_state
        3).1
      4).1

abbrev dispatched_one : State
dispatched_one =
    (look whole_floats sample_policy always_medium no_size 0 sample_request 3 two_waiting 10).1

two_waiting_lem : length two_waiting.pending ≡ 2
unfolding enqueue enqueue_pruned join remove_key prune_events
two_waiting_lem = refl

dispatch_available-ends_example :
    (final : State) × (dispatch_available whole_floats sample_policy always_medium 3 two_waiting 10
      ≡ some final)
dispatch_available-ends_example =
    dispatch_available-ends whole_floats sample_policy always_medium 3 two_waiting 10
      (let e = two_waiting_lem in omega arith)

fresh_state-Within_example : Within sample_policy.limits dispatched_one.active
fresh_state-Within_example =
    fresh_state-Within whole_floats sample_policy always_medium no_size dispatched_one refl (
      then_ (enqueues sample_request false 3)
        (then_ (enqueues sample_request false 4) (then_ (looks 0 sample_request 3 10) done)))

policy_accepted : validate (λ n. "0") sample_policy ≡ ok tt
unfolding validate blank
policy_accepted = refl

validate-PolicyInRange_example : PolicyInRange sample_policy
validate-PolicyInRange_example = validate-PolicyInRange (λ n. "0") sample_policy policy_accepted
