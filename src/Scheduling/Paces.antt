-- ===== src/Scheduling/Paces.antt =====
-- `readiness` of src/scheduling.rs: how long the pacing times of one limit make a request wait.
use kaiion.Prelude.{
  ℕ, Bool, true, false, ◌&&◌, ◌≡◌, ◌≤◌, max, if◌then◌else◌, unwrap_or, is_some, arith, ltb,
}
use kaiion.Scheduling.Policy.{QuotaLimit}
use kaiion.Scheduling.Types.{
  ScheduleRequest, State, PaceMetric, requests, input_metric, output_metric, total_metric,
  saturating_add,
}
use kaiion.Scheduling.Pacing.{get_pace, pacing_key}
use kaiion.Scheduling.Readiness.{paced}

unfoldable pub pace_at : ℕ → QuotaLimit → State → ScheduleRequest → PaceMetric → ℕ
unfolding pacing_key
pace_at index l state r m = unwrap_or (get_pace (pacing_key index l r m) state.pacing) 0

-- The times at which the metrics that the limit paces come free have come.
pub record InPace (index : ℕ) (l : QuotaLimit) (state : State) (r : ScheduleRequest) (i o time : ℕ)
    : Type 0 where
  pub of_requests : is_some l.max_rps ≡ true → pace_at index l state r requests ≤ time
  pub of_input :
      (is_some l.max_input_tokens && ltb 0 i) ≡ true → pace_at index l state r input_metric ≤ time
  pub of_output :
      (is_some l.max_output_tokens && ltb 0 o) ≡ true → pace_at index l state r output_metric ≤ time
  pub of_total :
      (is_some l.max_total_tokens && ltb 0 (saturating_add i o)) ≡ true
      → pace_at index l state r total_metric ≤ time

later_if :
    (a : Bool) (at x time : ℕ)
    → (if a then max x at else x) ≤ time
    → (x ≤ time) × (a ≡ true → at ≤ time)
later_if true at x time h = (omega arith, λ e. omega arith)
later_if false at x time h = (h, λ e. cc e)

pub paced-InPace :
    (index : ℕ) (l : QuotaLimit) (state : State) (r : ScheduleRequest) (i o ready time : ℕ)
    → paced index l state r i o ready ≤ time
    → (ready ≤ time) × InPace index l state r i o time
unfolding paced pace_at
paced-InPace index l state r i o ready time h =
    let (h3, total) =
      later_if (is_some l.max_total_tokens && ltb 0 (saturating_add i o))
        (pace_at index l state r total_metric) _ time h in
    let (h2, output) =
      later_if (is_some l.max_output_tokens && ltb 0 o) (pace_at index l state r output_metric) _
        time h3 in
    let (h1, input) =
      later_if (is_some l.max_input_tokens && ltb 0 i) (pace_at index l state r input_metric) _ time
        h2 in
    let (h0, reqs) =
      later_if (is_some l.max_rps) (pace_at index l state r requests) ready time h1 in
    (h0, record { of_requests = reqs; of_input = input; of_output = output; of_total = total })

pub InPace-mono :
    (index : ℕ) (l : QuotaLimit) (state : State) (r : ScheduleRequest) (i o x y : ℕ)
    → x ≤ y
    → InPace index l state r i o x
    → InPace index l state r i o y
InPace-mono index l state r i o x y h p = record {
  of_requests = λ e. let a = p.of_requests e in omega arith;
  of_input = λ e. let a = p.of_input e in omega arith;
  of_output = λ e. let a = p.of_output e in omega arith;
  of_total = λ e. let a = p.of_total e in omega arith;
}
