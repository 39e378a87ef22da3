-- ===== src/Scheduling/Validation.antt =====
-- src/scheduling_policy.rs: what a policy satisfies once `validate` accepts it.
use kaiion.Prelude.{
  ℕ, suc, ◌≤◌, ◌<◌, ◌≡◌, refl, String, Bool, true, false, not, ◌&&◌, ◌||◌, Option, none, some, List,
  [], ◌∷◌, Result, ok, err, ◌>>◌, ltb, ◌==◌, All, is_some, is_none, ap, unwrap_or, concat, arith,
}
use kaiion.Scheduling.Policy.{
  QuotaLimit, SchedulingPolicy, first_error, limit_tests, bounds_tests, check_settings,
  has_rolling_quota, is_zero, too_large, check_limit, check_limits, check_bounds, check_complexity,
  validate, settings, from_millis, from_secs, max_wait,
}

-- A cap is positive and below 2 ^ 63.
abbrev pub CapInRange : Option ℕ → Type 0
CapInRange cap = (n : ℕ) → cap ≡ some n → (0 < n) × (n < 9223372036854775808)

pub record LimitInRange (l : QuotaLimit) : Type 0 where
  pub window : has_rolling_quota l ≡ true → (0 < l.window_seconds) × (l.window_seconds ≤ 31536000)
  pub limits_something : (has_rolling_quota l || is_some l.max_concurrency) ≡ true
  pub rps : CapInRange l.max_rps
  pub reqs : CapInRange l.max_requests
  pub input : CapInRange l.max_input_tokens
  pub output : CapInRange l.max_output_tokens
  pub total : CapInRange l.max_total_tokens
  pub concurrency : CapInRange l.max_concurrency

pub record PolicyInRange (p : SchedulingPolicy) : Type 0 where
  pub wait :
      (async_alias : Bool)
      → (0 < max_wait p async_alias) × (max_wait p async_alias ≤ from_secs 86400)
  pub coalesce : from_millis p.queue_coalesce_ms ≤ max_wait p false
  pub aging : 0 < p.aging_interval_ms
  pub default_output : 0 < p.default_output_tokens
  pub queue : (0 < p.max_pending) × (p.max_pending ≤ 1000000)
  pub limits : All LimitInRange p.limits

-- A sequence of tests passes when none of them holds.
first_error-All :
    (checks : List (Bool × String)) → first_error checks ≡ ok tt → All (λ c. c.0 ≡ false) checks
unfolding first_error
first_error-All [] h = tt
first_error-All ((true, message) ∷ rest) h = cc
first_error-All ((false, message) ∷ rest) h = (refl, first_error-All rest h)

then-ok :
    (first rest : Result {0, 0} String (Unit {0}))
    → (first >> rest) ≡ ok tt
    → (first ≡ ok tt) × (rest ≡ ok tt)
then-ok (ok u) rest h = (refl, h)
then-ok (err m) rest h = cc

cap_in_range : (cap : Option ℕ) → is_zero cap ≡ false → too_large cap ≡ false → CapInRange cap
cap_in_range none z b n e = cc
cap_in_range (some m) z b n e =
    let same : m ≡ n = ap (λ o. unwrap_or o m) e in (ground arith, ground arith)

window_in_range :
    (rolling : Bool) (window : ℕ)
    → (rolling && (window == 0 || ltb 31536000 window)) ≡ false
    → rolling ≡ true
    → (0 < window) × (window ≤ 31536000)
window_in_range true window h e = (ground arith, ground arith)
window_in_range false window h e = cc

neither : (a b : Bool) → (a || b) ≡ false → (a ≡ false) × (b ≡ false)
neither true b h = cc
neither false b h = (refl, h)

not_both :
    (rolling : Bool) (o : Option ℕ)
    → (not rolling && is_none o) ≡ false
    → (rolling || is_some o) ≡ true
not_both true o h = refl
not_both false none h = cc
not_both false (some n) h = refl

check_limit-LimitInRange :
    (at : String) (l : QuotaLimit) → check_limit at l ≡ ok tt → LimitInRange l
unfolding check_limit
check_limit-LimitInRange at l h =
    let (window, rest) = first_error-All (limit_tests at l) h in
    let (something, (zeros, (blanks, caps))) = rest in
    let (rps, (reqs, (input, (output, (total, (concurrency, _)))))) = caps in
    let (y5, z6) = neither _ _ zeros in
    let (y4, z5) = neither _ _ y5 in
    let (y3, z4) = neither _ _ y4 in
    let (y2, z3) = neither _ _ y3 in
    let (z1, z2) = neither _ _ y2 in
    record {
      window = window_in_range (has_rolling_quota l) l.window_seconds window;
      limits_something = not_both (has_rolling_quota l) l.max_concurrency something;
      rps = cap_in_range l.max_rps z1 rps;
      reqs = cap_in_range l.max_requests z2 reqs;
      input = cap_in_range l.max_input_tokens z3 input;
      output = cap_in_range l.max_output_tokens z4 output;
      total = cap_in_range l.max_total_tokens z5 total;
      concurrency = cap_in_range l.max_concurrency z6 concurrency;
    }

check_limits-All :
    (shown : ℕ → String) (index : ℕ) (ls : List QuotaLimit)
    → check_limits shown index ls ≡ ok tt
    → All LimitInRange ls
unfolding check_limits
check_limits-All shown index [] h = tt
check_limits-All shown index (l ∷ ls) h =
    let (first, rest) =
      then-ok (check_limit (concat ("limits[" ∷ shown index ∷ "]" ∷ [])) l)
        (check_limits shown (suc index) ls) h in
    (check_limit-LimitInRange _ l first, check_limits-All shown (suc index) ls rest)

-- A policy that `validate` accepts waits a positive time of at most a day for either kind of request,
-- does not coalesce for longer than it waits, ages and reserves by positive amounts, and bounds its
-- queue; and each limit has some quota, a window of at most a year if it counts over one, and caps
-- between 1 and 2 ^ 63 - 1.
pub validate-PolicyInRange :
    (shown : ℕ → String) (p : SchedulingPolicy) → validate shown p ≡ ok tt → PolicyInRange p
unfolding validate check_bounds max_wait
validate-PolicyInRange shown p h =
    let (bounds, h1) = then-ok (check_bounds p) _ h in
    let (signed, h2) = then-ok (check_settings (settings p)) _ h1 in
    let (complexity, limits) =
      then-ok (check_complexity p.complexity) (check_limits shown 0 p.limits) h2 in
    let (wait, (async_wait, (aging, (coalesce, (default, (queue, _)))))) =
      first_error-All (bounds_tests p) bounds in
    record {
      wait = in_bounds wait async_wait;
      coalesce = ground arith;
      aging = ground arith;
      default_output = ground arith;
      queue = (ground arith, ground arith);
      limits = check_limits-All shown 0 p.limits limits;
    }
  where
    in_bounds :
        (p.max_wait_ms == 0 || ltb 86400000 p.max_wait_ms) ≡ false
        → (p.async_max_wait_ms == 0 || ltb 86400000 p.async_max_wait_ms) ≡ false
        → (async_alias : Bool)
        → (0 < max_wait p async_alias) × (max_wait p async_alias ≤ from_secs 86400)
    in_bounds w a true = (ground arith, ground arith)
    in_bounds w a false = (ground arith, ground arith)
