-- ===== src/Proxy/Retry/Permits.antt =====
-- src/proxy.rs: a round of `scheduled_direct_response` settles the permit that it is granted.
use kaiion.Prelude.{
  ℕ, suc, ◌+◌, ◌≤◌, ◌≡◌, refl, sym, subst, Bool, true, false, ◌&&◌, ◌||◌, ◌==◌, ltb, leb, Option,
  none, List, [], ◌∷◌, ◌++◌, Result, ok, err, is_some, is_some_and, if-holds, if-cases, and→both,
  arith, if◌then◌else◌,
}
use kaiion.Errors.{
  ProxyError, transport, internal, bad_request, unauthorized, not_found, conflict, persistence,
  database, migration, json,
}
use kaiion.Http.{has_header}
use kaiion.Request.Headers.{idempotency_header}
use kaiion.Scheduling.Types.{
  ScheduleRequest, SchedulePermit, dispatched, recommend_batch, retry_exhausted,
}
use kaiion.Proxy.Answers.{Upstream, Settled}
use kaiion.Proxy.Retry.{
  Acquired, timed_out, refused, granted, Script, ScheduledDirect, PermitAction, grant_permit,
  send_request, settle_one, Next, again, done, Setting, settle_sent, hand_over, on_failure,
  too_late, retry_answer, on_answer, on_response, with_grant, on_outcome, on_acquired, requested,
  retry_round,
}

-- The actions take the first list of permits in hand to the second: a request is sent only with a
-- permit in hand, and only the permit in hand is settled.
abbrev pub Replays : List PermitAction → (before after : List SchedulePermit) → Type 0
Replays [] before after = before ≡ after
Replays (grant_permit permit ∷ rest) before after = Replays rest (permit ∷ before) after
Replays (send_request ∷ rest) [] after = ⊥
Replays (send_request ∷ rest) (permit ∷ held) after = Replays rest (permit ∷ held) after
Replays (settle_one permit settled ∷ rest) [] after = ⊥
Replays (settle_one permit settled ∷ rest) (p ∷ held) after = (p ≡ permit) × Replays rest held after

-- How often a request is sent.
abbrev pub sends : List PermitAction → ℕ
sends [] = 0
sends (send_request ∷ rest) = suc (sends rest)
sends (grant_permit permit ∷ rest) = sends rest
sends (settle_one permit settled ∷ rest) = sends rest

pub Replays-append :
    (xs ys : List PermitAction) (before between after : List SchedulePermit)
    → Replays xs before between
    → Replays ys between after
    → Replays (xs ++ ys) before after
Replays-append [] ys before between after h k = subst (λ b. Replays ys b after) (sym h) k
Replays-append (grant_permit permit ∷ xs) ys before between after h k =
    Replays-append xs ys (permit ∷ before) between after h k
Replays-append (send_request ∷ xs) ys [] between after h k = elim h [ ]
Replays-append (send_request ∷ xs) ys (p ∷ held) between after h k =
    Replays-append xs ys (p ∷ held) between after h k
Replays-append (settle_one permit settled ∷ xs) ys [] between after h k = elim h [ ]
Replays-append (settle_one permit settled ∷ xs) ys (p ∷ held) between after h k =
    (h.0, Replays-append xs ys held between after h.1 k)

pub sends-append : (xs ys : List PermitAction) → sends (xs ++ ys) ≡ sends xs + sends ys
sends-append [] ys = omega arith
sends-append (send_request ∷ xs) ys = omega (arith, sends-append xs ys)
sends-append (grant_permit permit ∷ xs) ys = sends-append xs ys
sends-append (settle_one permit settled ∷ xs) ys = sends-append xs ys

-- The loop goes on only where a retry is left.
abbrev pub GoesOn : (can_retry : Bool) → Next → Type 0
GoesOn can_retry (again delay) = can_retry ≡ true
GoesOn can_retry (done result) = Unit

-- With these permits in hand, the part of a round ends with none, having sent at most one request.
pub record Tidy (can_retry : Bool) (before : List SchedulePermit) (r : List PermitAction × Next)
    : Type 0 where
  pub settles : Replays r.0 before []
  pub sends_once : sends r.0 ≤ 1
  pub goes_on : GoesOn can_retry r.1

module _ (s : Setting) (allow can_retry : Bool) (permit : SchedulePermit) where
  settled-Tidy :
      (settled : Settled) (next : Next)
      → GoesOn can_retry next
      → Tidy can_retry (permit ∷ []) (settle_sent s allow permit settled, next)
  settled-Tidy settled next h = record {
    settles = (refl, refl);
    sends_once = omega arith;
    goes_on = h;
  }

  hand_over-Tidy : (u : Upstream) → Tidy can_retry (permit ∷ []) (hand_over s allow permit u)
  unfolding hand_over
  hand_over-Tidy u = settled-Tidy _ _ tt

  on_failure-Tidy :
      (e : ProxyError) → Tidy can_retry (permit ∷ []) (on_failure s allow permit can_retry e)
  unfolding on_failure
  on_failure-Tidy (transport e) =
      if-holds (Tidy can_retry (permit ∷ [])) e.is_connect (settled-Tidy _ _ (retries can_retry))
        (settled-Tidy _ _ tt)
    where
      retries : (b : Bool) → GoesOn b (if b then again none else done (err (transport e)))
      retries true = refl
      retries false = tt
  on_failure-Tidy (bad_request m) = settled-Tidy _ _ tt
  on_failure-Tidy unauthorized = settled-Tidy _ _ tt
  on_failure-Tidy not_found = settled-Tidy _ _ tt
  on_failure-Tidy (conflict m) = settled-Tidy _ _ tt
  on_failure-Tidy (persistence e) = settled-Tidy _ _ tt
  on_failure-Tidy (database m) = settled-Tidy _ _ tt
  on_failure-Tidy (migration m) = settled-Tidy _ _ tt
  on_failure-Tidy (json m) = settled-Tidy _ _ tt
  on_failure-Tidy (internal m) = settled-Tidy _ _ tt

  retry_answer-Tidy :
      (a : Script) (u : Upstream) (limited : Bool) (delay : Option ℕ)
      → can_retry ≡ true
      → Tidy can_retry (permit ∷ []) (retry_answer s allow permit a u limited delay)
  unfolding retry_answer too_late
  retry_answer-Tidy a u limited delay h =
      if-holds (Tidy can_retry (permit ∷ [])) (is_some_and delay (λ d. ltb a.remaining_after d))
        (if-holds (Tidy can_retry (permit ∷ [])) (limited && allow && is_some a.previewed)
          (settled-Tidy _ _ tt) (hand_over-Tidy u))
        (settled-Tidy _ _ h)

  on_answer-Tidy :
      (a : Script) (u : Upstream)
      → Tidy can_retry (permit ∷ []) (on_answer s allow permit can_retry a u)
  unfolding on_answer
  on_answer-Tidy a u =
      if-cases (Tidy can_retry (permit ∷ []))
        (((u.status == 429)
            || ((leb 500 u.status && ltb u.status 600) && has_header idempotency_header s.headers))
          && can_retry)
        (λ h. retry_answer-Tidy a u _ _ (and→both _ can_retry h).1) (λ h. hand_over-Tidy u)

  on_response-Tidy :
      (a : Script) (r : Result ProxyError Upstream)
      → Tidy can_retry (permit ∷ []) (on_response s allow permit can_retry a r)
  unfolding on_response
  on_response-Tidy a (ok u) = on_answer-Tidy a u
  on_response-Tidy a (err e) = on_failure-Tidy e

module _ (s : Setting) (allow : Bool) where
  idle-Tidy :
      (can_retry : Bool) (result : Result ProxyError ScheduledDirect)
      → Tidy can_retry [] ([], done result)
  idle-Tidy can_retry result = record { settles = refl; sends_once = omega arith; goes_on = tt }

  with_grant-Tidy :
      (can_retry : Bool) (permit : SchedulePermit) (r : List PermitAction × Next)
      → Tidy can_retry (permit ∷ []) r
      → Tidy can_retry [] (with_grant s allow permit r)
  with_grant-Tidy can_retry permit (actions, next) h = record {
    settles = h.settles;
    sends_once = h.sends_once;
    goes_on = h.goes_on;
  }

  on_acquired-Tidy :
      (can_retry : Bool) (a : Script) (got : Acquired)
      → Tidy can_retry [] (on_acquired s allow can_retry a got)
  unfolding on_acquired on_outcome
  on_acquired-Tidy can_retry a timed_out = idle-Tidy can_retry _
  on_acquired-Tidy can_retry a (refused shown) = idle-Tidy can_retry _
  on_acquired-Tidy can_retry a (granted (dispatched permit)) =
      with_grant-Tidy can_retry permit _ (on_response-Tidy s allow can_retry permit a a.response)
  on_acquired-Tidy can_retry a (granted (recommend_batch reason delay)) = idle-Tidy can_retry _
  on_acquired-Tidy can_retry a (granted (retry_exhausted reason delay)) = idle-Tidy can_retry _

  requested-Tidy :
      (can_retry : Bool) (a : Script) (r : Result ProxyError ScheduleRequest)
      → Tidy can_retry [] (requested s allow can_retry a r)
  requested-Tidy can_retry a (ok request) = on_acquired-Tidy can_retry a a.acquired
  requested-Tidy can_retry a (err e) = idle-Tidy can_retry _

  pub retry_round-Tidy :
      (attempt : ℕ) (delay : Option ℕ) (a : Script)
      → Tidy (ltb attempt s.max_retries) [] (retry_round s allow attempt delay a)
  unfolding retry_round
  retry_round-Tidy attempt delay a =
      if-holds (Tidy (ltb attempt s.max_retries) []) (a.remaining == 0) (idle-Tidy _ _)
        (requested-Tidy _ a (s.make_request attempt delay))
