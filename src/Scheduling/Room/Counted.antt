-- ===== src/Scheduling/Room/Counted.antt =====
-- What a limit grants a request, told of its numbers and of the scheduler's lists without the tests of
-- src/scheduling.rs, and that what the code counts is this.
use kaiion.Prelude.{
  ℕ, suc, ◌+◌, ◌-◌, ◌*◌, ◌≤◌, ◌<◌, ◌≡◌, refl, sym, ◌∙◌, String, Bool, true, false, not, ◌&&◌, ◌||◌,
  Option, none, some, List, [], ◌∷◌, map, keep_if, count_if, if◌then◌else◌, unwrap_or, is_none_or,
  ltb, str_eq, str_eq_iff, arith, inl, inr, Bool-cases, and→both,
}
use kaiion.Scheduling.Policy.{QuotaLimit, from_secs}
use kaiion.Scheduling.Types.{
  ScheduleRequest, UsageEvent, ActiveRequest, State, PaceMetric, requests, input_metric,
  output_metric, total_metric, u64_mod,
}
use kaiion.Scheduling.Quota.{Usage, slot, rule_matches, event_matches, active_matches}
use kaiion.Scheduling.Pacing.{get_pace}
use kaiion.Scheduling.Windows.{total}
use kaiion.Scheduling.Rolling.{InWindow}

-- The limit is one for the request's provider and model.
pub record Concerns (l : QuotaLimit) (r : ScheduleRequest) : Type 0 where
  pub provider : (p : String) → l.provider ≡ some p → p ≡ r.provider
  pub model : (m : String) → l.model ≡ some m → m ≡ r.model

-- Does the limit count a use by this caller and of this model with the request?
abbrev pub shares : QuotaLimit → ScheduleRequest → (provider auth_scope model : String) → Bool
shares l r provider auth_scope model =
    str_eq provider r.provider
    && ((if l.auth_scoped then str_eq auth_scope r.auth_scope else true)
        && elim l.model [ none ↦ true | some m ↦ str_eq m model ])

-- The uses that are younger than the window, added up.
abbrev pub used : QuotaLimit → ScheduleRequest → (now : ℕ) → List UsageEvent → Usage
used l r now [] = record { reqs = 0; input = 0; output = 0 }
used l r now (e ∷ es) =
    let u = used l r now es in
    if ltb (now - e.at) (from_secs l.window_seconds) && shares l r e.provider e.auth_scope e.model
    then record {
      reqs = suc u.reqs;
      input = e.input_tokens + u.input;
      output = e.output_tokens + u.output;
    }
    else u

abbrev pub running : QuotaLimit → ScheduleRequest → List (ℕ × ActiveRequest) → ℕ
running l r [] = 0
running l r ((id, a) ∷ rest) =
    let n = running l r rest in if shares l r a.provider a.auth_scope a.model then suc n else n

-- The time at which a metric of the limit comes free.
abbrev pub paced_until : ℕ → QuotaLimit → ScheduleRequest → State → PaceMetric → Option ℕ
paced_until index l r state metric =
    get_pace
      (record {
        rule_index = index;
        provider = r.provider;
        auth_scope = if l.auth_scoped then r.auth_scope else "";
        model = unwrap_or l.model "";
        metric = metric;
      })
      state.pacing

-- The request, with what its limit counts beside it, stays below 2 ^ 64 in each sum.
pub record Countable (u : Usage) (i o : ℕ) : Type 0 where
  pub reqs : u.reqs + 1 < u64_mod
  pub tokens : u.input + u.output + i + o < u64_mod

-- What one limit, at its place in the policy, grants the request now.
pub record Grants (index : ℕ) (l : QuotaLimit) (state : State) (r : ScheduleRequest) (i o now : ℕ)
    : Type 0 where
  pub requests_left :
      (cap : ℕ) → l.max_requests ≡ some cap → (used l r now state.events).reqs + 1 ≤ cap
  pub rate_left :
      (rps : ℕ)
      → l.max_rps ≡ some rps
      → (used l r now state.events).reqs + 1 ≤ rps * l.window_seconds
  pub input_left :
      (cap : ℕ) → l.max_input_tokens ≡ some cap → (used l r now state.events).input + i ≤ cap
  pub output_left :
      (cap : ℕ) → l.max_output_tokens ≡ some cap → (used l r now state.events).output + o ≤ cap
  pub total_left :
      (cap : ℕ)
      → l.max_total_tokens ≡ some cap
      → (used l r now state.events).input + (used l r now state.events).output + (i + o) ≤ cap
  pub requests_paced :
      (cap at : ℕ)
      → l.max_rps ≡ some cap
      → paced_until index l r state requests ≡ some at
      → at ≤ now
  pub input_paced :
      (cap at : ℕ)
      → l.max_input_tokens ≡ some cap
      → 0 < i
      → paced_until index l r state input_metric ≡ some at
      → at ≤ now
  pub output_paced :
      (cap at : ℕ)
      → l.max_output_tokens ≡ some cap
      → 0 < o
      → paced_until index l r state output_metric ≡ some at
      → at ≤ now
  pub total_paced :
      (cap at : ℕ)
      → l.max_total_tokens ≡ some cap
      → 0 < i + o
      → paced_until index l r state total_metric ≡ some at
      → at ≤ now
  pub slot_left : (cap : ℕ) → l.max_concurrency ≡ some cap → running l r state.active < cap

pub Concerns-matches :
    (l : QuotaLimit) (r : ScheduleRequest) → Concerns l r → rule_matches l r ≡ true
unfolding rule_matches
Concerns-matches l r h =
    both _ _ (same l.provider r.provider h.provider) (same l.model r.model h.model)
  where
    same :
        (o : Option String) (s : String)
        → ((t : String) → o ≡ some t → t ≡ s)
        → is_none_or o (λ t. str_eq t s) ≡ true
    same none s k = refl
    same (some t) s k = (str_eq_iff t s).1 (k t refl)

    both : (a b : Bool) → a ≡ true → b ≡ true → (a && b) ≡ true
    both a b p q = rw (p, q) refl

-- What the code counts is what shares the limit.
of_model :
    (o : Option String) (model : String)
    → is_none_or o (λ m. str_eq m model) ≡ elim o [ none ↦ true | some m ↦ str_eq m model ]
of_model none model = refl
of_model (some m) model = refl

of_scope : (scoped same : Bool) → (not scoped || same) ≡ (if scoped then same else true)
of_scope true same = refl
of_scope false same = refl

active_matches-shares :
    (l : QuotaLimit) (r : ScheduleRequest) (a : ActiveRequest)
    → active_matches l r a ≡ shares l r a.provider a.auth_scope a.model
unfolding active_matches
active_matches-shares l r a i =
    str_eq a.provider r.provider
    && (of_scope l.auth_scoped (str_eq a.auth_scope r.auth_scope) i && of_model l.model a.model i)

event_matches-shares :
    (l : QuotaLimit) (r : ScheduleRequest) (e : UsageEvent) (now : ℕ)
    → event_matches l r e now ≡ (
        ltb (now - e.at) (from_secs l.window_seconds) && shares l r e.provider e.auth_scope e.model)
unfolding event_matches
event_matches-shares l r e now i =
    ltb (now - e.at) (from_secs l.window_seconds)
    && (str_eq e.provider r.provider
        && (of_scope l.auth_scoped (str_eq e.auth_scope r.auth_scope) i
            && of_model l.model e.model i))

pub in_flight-running :
    (l : QuotaLimit) (r : ScheduleRequest) (active : List (ℕ × ActiveRequest))
    → count_if (λ (id, a). active_matches l r a) active ≡ running l r active
in_flight-running l r [] = refl
in_flight-running l r ((id, a) ∷ rest) =
    rw (active_matches-shares l r a, in_flight-running l r rest) refl

pub counted-used :
    (l : QuotaLimit) (r : ScheduleRequest) (now : ℕ) (es : List UsageEvent)
    → total (map (slot l) (keep_if (λ e. event_matches l r e now) es)) ≡ used l r now es
unfolding total slot
counted-used l r now [] = refl
counted-used l r now (e ∷ es) = elim (Bool-cases (event_matches l r e now)) [
  | inl k ↦
      let same = sym (event_matches-shares l r e now) ∙ k in
      rw (k, same, counted-used l r now es) refl
  | inr k ↦
      let same = sym (event_matches-shares l r e now) ∙ k in rw (k, same) (counted-used l r now es)
]

pub counted-InWindow :
    (l : QuotaLimit) (r : ScheduleRequest) (now : ℕ) (es : List UsageEvent)
    → InWindow l now (keep_if (λ e. event_matches l r e now) es)
counted-InWindow l r now [] = tt
counted-InWindow l r now (e ∷ es) = elim (Bool-cases (event_matches l r e now)) [
  | inl k ↦
      let (young, rest) =
        and→both (ltb (now - e.at) (from_secs l.window_seconds))
          (shares l r e.provider e.auth_scope e.model) (sym (event_matches-shares l r e now) ∙ k) in
      rw k (ground arith, counted-InWindow l r now es)
  | inr k ↦ rw k (counted-InWindow l r now es)
]
