-- ===== src/Scheduling/Quota.antt =====
-- src/scheduling.rs: which requests, events and active requests a limit counts, and when a request
-- fits in a rolling window.
use kaiion.Prelude.{
  ℕ, ◌+◌, ◌-◌, ◌%◌, Bool, true, false, not, ◌&&◌, ◌||◌, Option, none, some, List, [], ◌∷◌, ltb, leb,
  if◌then◌else◌, str_eq, is_none, is_none_or, map, min,
}
use kaiion.Scheduling.Policy.{QuotaLimit, from_secs}
use kaiion.Scheduling.Types.{
  ScheduleRequest, UsageEvent, ActiveRequest, Fit, u64_mod, saturating_add, saturating_mul,
}

unfoldable pub rule_matches : QuotaLimit → ScheduleRequest → Bool
rule_matches l r =
    is_none_or l.provider (λ p. str_eq p r.provider) && is_none_or l.model (λ m. str_eq m r.model)

unfoldable pub event_matches : QuotaLimit → ScheduleRequest → UsageEvent → (now : ℕ) → Bool
event_matches l r e now =
    ltb (now - e.at) (from_secs l.window_seconds)
    && (str_eq e.provider r.provider
        && ((not l.auth_scoped || str_eq e.auth_scope r.auth_scope)
            && is_none_or l.model (λ m. str_eq m e.model)))

unfoldable pub active_matches : QuotaLimit → ScheduleRequest → ActiveRequest → Bool
active_matches l r a =
    str_eq a.provider r.provider
    && ((not l.auth_scoped || str_eq a.auth_scope r.auth_scope)
        && is_none_or l.model (λ m. str_eq m a.model))

-- An entry of `active` in `rolling_fit`: when it leaves the window, and what it counts. Its count
-- of requests is always 1.
pub record Slot : Type 0 where
  pub expires_at : ℕ
  pub input : ℕ
  pub output : ℕ

pub record Usage : Type 0 where
  pub reqs : ℕ
  pub input : ℕ
  pub output : ℕ

unfoldable pub slot : QuotaLimit → UsageEvent → Slot
slot l e = record {
  expires_at = e.at + from_secs l.window_seconds;
  input = e.input_tokens;
  output = e.output_tokens;
}

-- `sort_by_key` on the expiry, which is stable.
unfoldable pub insert_slot : Slot → List Slot → List Slot
insert_slot s [] = s ∷ []
insert_slot s (t ∷ ts) = if leb s.expires_at t.expires_at then s ∷ t ∷ ts else t ∷ insert_slot s ts

unfoldable pub sort_slots : List Slot → List Slot
unfolding insert_slot
sort_slots [] = []
sort_slots (s ∷ ss) = insert_slot s (sort_slots ss)

-- `iter().map(…).sum::<u64>()`, which wraps in a release build.
unfoldable pub sum_slots : List Slot → Usage
sum_slots [] = record { reqs = 0; input = 0; output = 0 }
sum_slots (s ∷ ss) =
    let u = sum_slots ss in
    record {
      reqs = (1 + u.reqs) % u64_mod;
      input = (s.input + u.input) % u64_mod;
      output = (s.output + u.output) % u64_mod;
    }

-- max_requests, and max_rps over the whole window.
unfoldable pub request_cap : QuotaLimit → Option ℕ
request_cap l = elim l.max_rps [
  | none ↦ l.max_requests
  | some rps ↦
      let rps_cap = saturating_mul rps l.window_seconds in
      elim l.max_requests [ none ↦ some rps_cap | some cap ↦ some (min cap rps_cap) ]
]

-- The closure `cap_fit`: may the request be added to this usage?
unfoldable pub cap_fit : QuotaLimit → (input_tokens output_tokens : ℕ) → Usage → Bool
unfolding request_cap
cap_fit l input_tokens output_tokens u =
    is_none_or (request_cap l) (λ cap. leb (saturating_add u.reqs 1) cap)
    && (is_none_or l.max_input_tokens (λ cap. leb (saturating_add u.input input_tokens) cap)
        && (is_none_or l.max_output_tokens (λ cap. leb (saturating_add u.output output_tokens) cap)
            && is_none_or l.max_total_tokens (λ cap.
              leb
                (saturating_add (saturating_add u.input u.output)
                  (saturating_add input_tokens output_tokens))
                cap)))

abbrev pub fits_at : ℕ → Fit
fits_at t = record { at = some t; impossible = false }

abbrev pub never_fits : Fit
never_fits = record { at = none; impossible = true }

-- The `while` loop: drop the slot that expires next until the request fits.
unfoldable pub expire_slots :
    QuotaLimit → (input_tokens output_tokens : ℕ) → Usage → List Slot → Fit
unfolding cap_fit
expire_slots l input_tokens output_tokens u [] = never_fits
expire_slots l input_tokens output_tokens u (s ∷ ss) =
    let left = record u {
      reqs = u.reqs - 1;
      input = u.input - s.input;
      output = u.output - s.output;
    } in
    let later = expire_slots l input_tokens output_tokens left ss in
    if cap_fit l input_tokens output_tokens left then fits_at s.expires_at else later

-- Does the limit cap anything over its window?
unfoldable pub is_uncapped : QuotaLimit → Bool
unfolding request_cap
is_uncapped l =
    is_none (request_cap l)
    && (is_none l.max_input_tokens && (is_none l.max_output_tokens && is_none l.max_total_tokens))

unfoldable pub rolling_fit :
    QuotaLimit → List UsageEvent → (input_tokens output_tokens now : ℕ) → Fit
unfolding is_uncapped slot sort_slots sum_slots cap_fit expire_slots
rolling_fit l events input_tokens output_tokens now =
    let active = sort_slots (map (slot l) events) in
    let total = sum_slots active in
    let later = expire_slots l input_tokens output_tokens total active in
    if is_uncapped l
    then fits_at now
    else if cap_fit l input_tokens output_tokens total
    then fits_at now
    else later
