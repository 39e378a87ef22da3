-- ===== src/Proxy/Retry.antt =====
-- src/proxy.rs: `scheduled_direct_response`. What the scheduler, the provider and the clock answer
-- in a round of its loop is a script; what the loop does to its permits is recorded.
pub mod Permits
pub mod Runs
use kaiion.Prelude.{
  ℕ, zero, suc, ◌+◌, String, Bool, true, false, not, ◌&&◌, ◌||◌, ◌==◌, ltb, leb, Option, none, some,
  List, [], ◌∷◌, ◌++◌, Result, ok, err, is_some, is_some_and, filter_option, if◌then◌else◌,
}
use kaiion.Json.{Value}
use kaiion.Errors.{ProxyError, TransportError, transport, internal}
use kaiion.Http.{Header, has_header}
use kaiion.Request.Headers.{idempotency_header}
use kaiion.Request.Inputs.{no_usage}
use kaiion.Scheduling.Types.{
  ScheduleRequest, ScheduleOutcome, SchedulePermit, dispatched, recommend_batch, retry_exhausted,
}
use kaiion.Openai.Headers.{retry_after}
use kaiion.Proxy.Answers.{
  Answer, Upstream, Settled, completed, aborted, scheduled_upstream_response,
  scheduling_unavailable,
}

-- What `acquire` under the timeout comes to.
pub data Acquired : Type 0 where
  timed_out : Acquired
  refused : (shown : String) → Acquired
  granted : ScheduleOutcome → Acquired

-- The answers of one round: the time left at its start and at its end, in nanoseconds; the permit;
-- the preview, if it is asked for; and the provider's response.
pub record Script : Type 0 where
  pub remaining : ℕ
  pub acquired : Acquired
  pub previewed : Option String
  pub response : Result ProxyError Upstream
  pub remaining_after : ℕ

pub data ScheduledDirect : Type 0 where
  live : Answer → ScheduledDirect
  to_batch : (reason : String) → ScheduledDirect
  unavailable : Answer → ScheduledDirect

-- What is done with permits: one is granted, its request is sent, and it is settled.
pub data PermitAction : Type 0 where
  grant_permit : SchedulePermit → PermitAction
  send_request : PermitAction
  settle_one : SchedulePermit → Settled → PermitAction

-- The end of a round.
pub data Next : Type 0 where
  again : (upstream_retry_after : Option ℕ) → Next
  done : Result ProxyError ScheduledDirect → Next

-- What the loop is given besides `allow_batch_fallback`.
pub record Setting : Type 0 where
  pub from_slice : List ℕ → Result String Value
  pub decimal : ℕ → String
  pub until_date : String → Option ℕ
  pub headers : List Header
  pub max_retries : ℕ
  pub make_request : (attempt : ℕ) → Option ℕ → Result ProxyError ScheduleRequest

module _ (s : Setting) (allow_batch_fallback : Bool) where
  -- `if allow_batch_fallback && let Some(reason) = preview`
  unfoldable pub or_unavailable : Option String → (reason : String) → Option ℕ → ScheduledDirect
  or_unavailable none reason delay = unavailable (scheduling_unavailable s.decimal reason delay)
  or_unavailable (some batch_reason) reason delay =
      if allow_batch_fallback
      then to_batch batch_reason
      else unavailable (scheduling_unavailable s.decimal reason delay)

  abbrev settle_sent : SchedulePermit → Settled → List PermitAction
  settle_sent permit settled = send_request ∷ settle_one permit settled ∷ []

  -- The provider's answer is passed on.
  unfoldable pub hand_over : SchedulePermit → Upstream → List PermitAction × Next
  hand_over permit u =
      let (settled, answer) = scheduled_upstream_response s.from_slice u in
      (settle_sent permit settled, done (handed answer))
    where
      handed : Result ProxyError Answer → Result ProxyError ScheduledDirect
      handed (ok answer) = ok (live answer)
      handed (err e) = err e

  -- A failed request: only a connection that was never made leaves the provider untouched.
  unfoldable pub on_failure :
      SchedulePermit → (can_retry : Bool) → ProxyError → List PermitAction × Next
  on_failure permit can_retry (transport error) =
      if error.is_connect
      then (
        settle_sent permit aborted,
        if can_retry then again none else done (err (transport error)),
      )
      else (settle_sent permit (completed no_usage), done (err (transport error)))
  on_failure permit can_retry error = (settle_sent permit (completed no_usage), done (err error))

  abbrev rejected : Bool → Settled
  rejected true = completed (some 0, some 0, none)
  rejected false = completed no_usage

  -- A retryable answer that asks for more time than is left.
  unfoldable pub too_late :
      SchedulePermit → Script → Upstream → (limited : Bool) → List PermitAction × Next
  too_late permit a u limited =
      if limited && allow_batch_fallback && is_some a.previewed
      then (
        settle_sent permit (rejected true),
        done (ok (to_batch "provider_retry_after_batch_fallback")),
      )
      else hand_over permit u

  unfoldable pub retry_answer :
      SchedulePermit → Script → Upstream → (limited : Bool) → Option ℕ → List PermitAction × Next
  retry_answer permit a u limited delay =
      if is_some_and delay (λ d. ltb a.remaining_after d)
      then too_late permit a u limited
      else (settle_sent permit (rejected limited), again delay)

  unfoldable pub on_answer :
      SchedulePermit → (can_retry : Bool) → Script → Upstream → List PermitAction × Next
  on_answer permit can_retry a u =
      let limited = u.status == 429 in
      let server_error = leb 500 u.status && ltb u.status 600 in
      if (limited || (server_error && has_header idempotency_header s.headers)) && can_retry
      then retry_answer permit a u limited (retry_after s.until_date u.headers)
      else hand_over permit u

  unfoldable pub on_response :
      SchedulePermit
      → (can_retry : Bool) → Script
      → Result ProxyError Upstream
      → List PermitAction × Next
  on_response permit can_retry a (ok u) = on_answer permit can_retry a u
  on_response permit can_retry a (err e) = on_failure permit can_retry e

  abbrev with_grant : SchedulePermit → List PermitAction × Next → List PermitAction × Next
  with_grant permit (actions, next) = (grant_permit permit ∷ actions, next)

  unfoldable pub on_outcome :
      (can_retry : Bool) → Script → ScheduleOutcome → List PermitAction × Next
  on_outcome can_retry a (dispatched permit) =
      with_grant permit (on_response permit can_retry a a.response)
  on_outcome can_retry a (recommend_batch reason delay) = (
    [],
    done (
        ok (
          if allow_batch_fallback
          then to_batch reason
          else unavailable (
              scheduling_unavailable s.decimal "batch_fallback_not_allowed"
                (filter_option (λ d. leb d a.remaining_after) delay)))),
  )
  on_outcome can_retry a (retry_exhausted reason delay) = (
    [],
    done (
        ok
          (or_unavailable a.previewed reason (filter_option (λ d. leb d a.remaining_after) delay))),
  )

  unfoldable pub on_acquired : (can_retry : Bool) → Script → Acquired → List PermitAction × Next
  on_acquired can_retry a timed_out =
      ([], done (ok (or_unavailable a.previewed "max_wait_exceeded" none)))
  on_acquired can_retry a (refused shown) = ([], done (err (internal shown)))
  on_acquired can_retry a (granted outcome) = on_outcome can_retry a outcome

  abbrev requested :
      (can_retry : Bool) → Script → Result ProxyError ScheduleRequest → List PermitAction × Next
  requested can_retry a (err e) = ([], done (err e))
  requested can_retry a (ok request) = on_acquired can_retry a a.acquired

  -- One round of the loop.
  unfoldable pub retry_round : (attempt : ℕ) → Option ℕ → Script → List PermitAction × Next
  retry_round attempt upstream_retry_after a =
      if a.remaining == 0
      then ([], done (ok (or_unavailable a.previewed "max_wait_exceeded" none)))
      else requested (ltb attempt s.max_retries) a (s.make_request attempt upstream_retry_after)

  abbrev Run : Type 0
  Run = List PermitAction × Option (Result ProxyError ScheduledDirect)

  abbrev then_run : List PermitAction → Run → Run
  then_run actions (later, result) = (actions ++ later, result)

  -- What follows a round.
  unfoldable pub follow : List PermitAction × Next → (Option ℕ → Run) → Run
  follow (actions, done result) rest = (actions, some result)
  follow (actions, again delay) rest = then_run actions (rest delay)

  -- The loop along a script; without a result while the script has run out.
  unfoldable pub retry_loop : (attempt : ℕ) → Option ℕ → List Script → Run
  retry_loop attempt delay [] = ([], none)
  retry_loop attempt delay (a ∷ rest) =
      follow (retry_round attempt delay a) (λ d. retry_loop (suc attempt) d rest)

-- From the first preview on.
unfoldable pub after_preview :
    Setting
    → (allow_batch_fallback : Bool) → (preview : Option String) → List Script
    → List PermitAction × Option (Result ProxyError ScheduledDirect)
after_preview s allow none script = retry_loop s allow 0 none script
after_preview s allow (some reason) script =
    if allow then ([], some (ok (to_batch reason))) else retry_loop s allow 0 none script

unfoldable pub scheduled_direct_response :
    Setting
    → (preview : Option String) → List Script
    → List PermitAction × Option (Result ProxyError ScheduledDirect)
scheduled_direct_response s preview script = elim (s.make_request 0 none) [
  | err e ↦ ([], some (err e))
  | ok first ↦ after_preview s first.allow_batch_fallback preview script
]
