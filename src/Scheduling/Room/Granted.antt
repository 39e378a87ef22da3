-- ===== src/Scheduling/Room/Granted.antt =====
-- `readiness` of src/scheduling.rs grants what each limit has left.
use kaiion.Prelude.{
  ℕ, suc, ◌+◌, ◌*◌, ◌≤◌, ◌<◌, ◌≡◌, refl, sym, ap, ◌∙◌, subst, Bool, true, false, ◌&&◌, ◌||◌, Option,
  none, some, List, [], ◌∷◌, map, unwrap_or, is_none_or, is_some_and, is_some, ltb, leb, All, arith,
  inl, inr, and→both, min,
}
use kaiion.Scheduling.Policy.{QuotaLimit, SchedulingPolicy}
use kaiion.Scheduling.Types.{
  ScheduleRequest, State, PaceMetric, Fit, requests, input_metric, output_metric, total_metric,
}
use kaiion.Scheduling.Quota.{Slot, Usage, slot, rule_matches, request_cap, cap_fit, rolling_fit}
use kaiion.Scheduling.Windows.{usage_at, total, usage_at-After}
use kaiion.Scheduling.Rolling.{Least, IsBounded, InWindow-After, rolling_fit-Least}
use kaiion.Scheduling.Paces.{pace_at}
use kaiion.Scheduling.Readiness.{counted, in_flight, is_saturated, readiness}
use kaiion.Scheduling.Room.{Allows, AllFrom, readiness-Allows}
use kaiion.Scheduling.Room.Counted.{
  Concerns, used, running, paced_until, Countable, Grants, Concerns-matches, in_flight-running,
  counted-used, counted-InWindow,
}

abbrev u64_max : ℕ
u64_max = 18446744073709551615

abbrev in_cap : Option ℕ → ℕ → Bool
in_cap o n = is_none_or o (λ cap. leb n cap)

in_cap-le : (o : Option ℕ) (n : ℕ) → in_cap o n ≡ true → (cap : ℕ) → o ≡ some cap → n ≤ cap
in_cap-le none n h cap e = cc
in_cap-le (some x) n h cap e =
    let same : x ≡ cap = ap (λ (p : Option ℕ). unwrap_or p x) e in ground arith

request_cap-within :
    (l : QuotaLimit) (n : ℕ)
    → in_cap (request_cap l) n ≡ true
    → ((cap : ℕ) → l.max_requests ≡ some cap → n ≤ cap)
      × ((rps : ℕ) → l.max_rps ≡ some rps → n ≤ min (rps * l.window_seconds) u64_max)
unfolding request_cap
request_cap-within l n h = split l.max_rps l.max_requests h
  where
    at_rate :
        (r s : ℕ)
        → some r ≡ some s
        → n ≤ min (r * l.window_seconds) u64_max
        → n ≤ min (s * l.window_seconds) u64_max
    at_rate r s e =
        subst (λ x. n ≤ min (x * l.window_seconds) u64_max) (ap (λ (p : Option ℕ). unwrap_or p r) e)

    split :
        (rps reqs : Option ℕ)
        → in_cap
            (elim rps [
              | none ↦ reqs
              | some r ↦ elim reqs [
                | none ↦ some (min (r * l.window_seconds) u64_max)
                | some cap ↦ some (min cap (min (r * l.window_seconds) u64_max))
              ]
            ])
            n
          ≡ true
        → ((cap : ℕ) → reqs ≡ some cap → n ≤ cap)
          × ((r : ℕ) → rps ≡ some r → n ≤ min (r * l.window_seconds) u64_max)
    split none reqs k = (in_cap-le reqs n k, λ r e. cc)
    split (some r) none k = (λ cap e. cc, λ s e. at_rate r s e (in_cap-le _ n k _ refl))
    split (some r) (some q) k =
        let both : n ≤ min q (min (r * l.window_seconds) u64_max) =
          in_cap-le (some (min q (min (r * l.window_seconds) u64_max))) n k _ refl in
        (
          λ cap e. let same : q ≡ cap = ap (λ (p : Option ℕ). unwrap_or p q) e in omega arith,
          λ s e. at_rate r s e (omega arith),
        )

-- The tests of a fit, in numbers.
cap_fit-within :
    (l : QuotaLimit) (i o : ℕ) (u : Usage)
    → Countable u i o
    → cap_fit l i o u ≡ true
    → ((cap : ℕ) → l.max_requests ≡ some cap → u.reqs + 1 ≤ cap)
      × ((rps : ℕ) → l.max_rps ≡ some rps → u.reqs + 1 ≤ rps * l.window_seconds)
      × ((cap : ℕ) → l.max_input_tokens ≡ some cap → u.input + i ≤ cap)
      × ((cap : ℕ) → l.max_output_tokens ≡ some cap → u.output + o ≤ cap)
      × ((cap : ℕ) → l.max_total_tokens ≡ some cap → u.input + u.output + (i + o) ≤ cap)
unfolding cap_fit request_cap
cap_fit-within l i o u c h =
    let (reqs, rest) = and→both (in_cap (request_cap l) (min (u.reqs + 1) u64_max)) tokens h in
    let (input, rest') = and→both (in_cap l.max_input_tokens (min (u.input + i) u64_max)) _ rest in
    let (output, all) =
      and→both (in_cap l.max_output_tokens (min (u.output + o) u64_max)) _ rest' in
    let a = c.reqs in
    let b = c.tokens in
    (
      λ cap e. let k = (request_cap-within l _ reqs).0 cap e in omega arith,
      λ rps e. let k = (request_cap-within l _ reqs).1 rps e in omega arith,
      λ cap e. let k = in_cap-le l.max_input_tokens _ input cap e in omega arith,
      λ cap e. let k = in_cap-le l.max_output_tokens _ output cap e in omega arith,
      λ cap e. let k = in_cap-le l.max_total_tokens _ all cap e in omega arith,
    )
  where
    tokens : Bool
    tokens =
        in_cap l.max_input_tokens (min (u.input + i) u64_max)
        && (in_cap l.max_output_tokens (min (u.output + o) u64_max)
            && in_cap l.max_total_tokens
                (min (min (u.input + u.output) u64_max + min (i + o) u64_max) u64_max))

Countable-IsBounded :
    (ss : List Slot) (u : Usage) (i o : ℕ) → total ss ≡ u → Countable u i o → IsBounded ss
Countable-IsBounded ss u i o e c = record {
  reqs = let k = ap (λ (v : Usage). v.reqs) e in let a = c.reqs in omega arith;
  input = let k = ap (λ (v : Usage). v.input) e in let a = c.tokens in omega arith;
  output = let k = ap (λ (v : Usage). v.output) e in let a = c.tokens in omega arith;
}

module _ (l : QuotaLimit) (state : State) (r : ScheduleRequest) (i o now : ℕ)
    (c : Countable (used l r now state.events) i o) where
  rolling-fits :
      (rolling_fit l (counted l r now state) i o now).impossible ≡ false
      → unwrap_or (rolling_fit l (counted l r now state) i o now).at 0 ≤ now
      → cap_fit l i o (used l r now state.events) ≡ true
  rolling-fits possible in_time =
      due (rolling_fit l (counted l r now state) i o now) possible in_time (
        rolling_fit-Least l (counted l r now state) i o now (counted-InWindow l r now state.events)
          (Countable-IsBounded (map (slot l) (counted l r now state)) (used l r now state.events) i
            o (counted-used l r now state.events) c))
    where
      slots : List Slot
      slots = map (slot l) (counted l r now state)

      uses : usage_at now slots ≡ used l r now state.events
      uses =
          usage_at-After now slots
            (InWindow-After l now (counted l r now state) (counted-InWindow l r now state.events))
          ∙ counted-used l r now state.events

      due :
          (f : Fit)
          → f.impossible ≡ false
          → unwrap_or f.at 0 ≤ now
          → Least l i o now (map (slot l) (counted l r now state)) f
          → cap_fit l i o (used l r now state.events) ≡ true
      due f p q (inl (t, e, le, fit, before)) =
          let when : t ≡ unwrap_or f.at 0 = ap (λ (g : Fit). unwrap_or g.at 0) (sym e) in
          let same : t ≡ now = omega arith in
          subst (λ (u : Usage). cap_fit l i o u ≡ true) uses
            (subst (λ time. cap_fit l i o (usage_at time slots) ≡ true) same fit)
      due f p q (inr (e, never)) = cc

-- The request alone, and with what it finds in the window, in flight and paced.
module _ (p : SchedulingPolicy) (state : State) (r : ScheduleRequest) (i o now : ℕ) where
  paced_in_time :
      (index : ℕ) (l : QuotaLimit) (m : PaceMetric) (at : ℕ)
      → paced_until index l r state m ≡ some at
      → pace_at index l state r m ≤ now
      → at ≤ now
  unfolding pace_at
  paced_in_time index l m at e h =
      let same : pace_at index l state r m ≡ at = ap (λ (t : Option ℕ). unwrap_or t 0) e in
      omega arith

  some_cap : (o : Option ℕ) (cap : ℕ) → o ≡ some cap → is_some o ≡ true
  some_cap o cap e = rw e refl

  paces :
      (tokens : Option ℕ) (cap n : ℕ)
      → tokens ≡ some cap
      → 0 < n
      → (is_some tokens && ltb 0 n) ≡ true
  paces tokens cap n e h = rw e (ground arith)

  -- One turn of the second loop that does not return.
  not_full :
      (l : QuotaLimit)
      → (rule_matches l r && is_some_and l.max_concurrency (λ cap. leb cap (in_flight l r state)))
        ≡ false
      → rule_matches l r ≡ true
      → (cap : ℕ) → l.max_concurrency ≡ some cap
      → running l r state.active < cap
  not_full l h applies =
      under l.max_concurrency (in_flight l r state) (running l r state.active)
        (in_flight-running l r state.active) (second (rule_matches l r) _ applies h)
    where
      second : (a b : Bool) → a ≡ true → (a && b) ≡ false → b ≡ false
      second a b p q = ground arith

      under :
          (o : Option ℕ) (n m : ℕ)
          → n ≡ m
          → is_some_and o (λ cap. leb cap n) ≡ false
          → (cap : ℕ) → o ≡ some cap
          → m < cap
      under none n m same k cap e = cc
      under (some c) n m same k cap e =
          let known : c ≡ cap = ap (λ (t : Option ℕ). unwrap_or t c) e in ground arith

  neither : (a b : Bool) → (a || b) ≡ false → (a ≡ false) × (b ≡ false)
  neither a b h = ground arith

  not_saturated :
      (ls : List QuotaLimit) (index : ℕ)
      → is_saturated ls state r ≡ false
      → AllFrom
          (λ n l.
            rule_matches l r ≡ true
            → (cap : ℕ) → l.max_concurrency ≡ some cap
            → running l r state.active < cap)
          index
          ls
  unfolding is_saturated
  not_saturated [] index h = tt
  not_saturated (l ∷ ls) index h =
      let (room, rest) =
        neither
          (rule_matches l r && is_some_and l.max_concurrency (λ cap. leb cap (in_flight l r state)))
          (is_saturated ls state r) h in
      (not_full l room, not_saturated ls (suc index) rest)

  Allows-Grants :
      (index : ℕ) (l : QuotaLimit)
      → Countable (used l r now state.events) i o
      → Allows index l state r i o now now
      → ((cap : ℕ) → l.max_concurrency ≡ some cap → running l r state.active < cap)
      → Grants index l state r i o now
  Allows-Grants index l c a room =
      let (reqs, rate, input, output, all) =
        cap_fit-within l i o (used l r now state.events) c
          (rolling-fits l state r i o now c a.possible a.in_time) in
      let pace = a.in_pace in
      let few = c.tokens in
      record {
        requests_left = reqs;
        rate_left = rate;
        input_left = input;
        output_left = output;
        total_left = all;
        requests_paced = λ cap at e k.
            paced_in_time index l requests at k (pace.of_requests (some_cap l.max_rps cap e));
        input_paced = λ cap at e few' k.
            paced_in_time index l input_metric at k
              (pace.of_input (paces l.max_input_tokens cap i e few'));
        output_paced = λ cap at e few' k.
            paced_in_time index l output_metric at k
              (pace.of_output (paces l.max_output_tokens cap o e few'));
        total_paced = λ cap at e few' k.
            paced_in_time index l total_metric at k
              (pace.of_total (paces l.max_total_tokens cap (min (i + o) u64_max) e (omega arith)));
        slot_left = room;
      }

  each-Grants :
      (index : ℕ) (ls : List QuotaLimit)
      → All (λ l. Countable (used l r now state.events) i o) ls
      → AllFrom (λ n l. rule_matches l r ≡ true → Allows n l state r i o now now) index ls
      → AllFrom
          (λ n l.
            rule_matches l r ≡ true
            → (cap : ℕ) → l.max_concurrency ≡ some cap
            → running l r state.active < cap)
          index
          ls
      → AllFrom (λ n l. Concerns l r → Grants n l state r i o now) index ls
  each-Grants index [] c a room = tt
  each-Grants index (l ∷ ls) c a room = (
    λ concerns.
        let applies = Concerns-matches l r concerns in
        Allows-Grants index l c.0 (a.0 applies) (room.0 applies),
    each-Grants (suc index) ls c.1 a.1 room.1,
  )

-- In an enabled scheduler where the sums of what each limit counts stay below 2 ^ 64, when
-- `readiness` gives a time that has come, each limit for the request's provider and model grants
-- the request now: its requests, rate and tokens fit beside the uses that are younger than the
-- window, every metric that it paces has come free, and its concurrency is not used up.
pub readiness-Grants :
    (p : SchedulingPolicy) (state : State) (r : ScheduleRequest) (i o now at : ℕ)
    → p.enabled ≡ true
    → All (λ l. Countable (used l r now state.events) i o) p.limits
    → (readiness p state r i o now).impossible ≡ false
    → (readiness p state r i o now).at ≡ some at
    → at ≤ now
    → AllFrom (λ n l. Concerns l r → Grants n l state r i o now) 0 p.limits
readiness-Grants p state r i o now at enabled countable possible found due =
    let (allowed, room) = readiness-Allows p state r i o now at enabled possible found due in
    each-Grants p state r i o now 0 p.limits countable allowed
      (not_saturated p state r i o now p.limits 0 room)
