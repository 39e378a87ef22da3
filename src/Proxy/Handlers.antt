-- ===== src/Proxy/Handlers.antt =====
-- src/proxy.rs: the handlers `models`, `health`, `responses` and `explain_route`, and the plain
-- answer of `batch_response`.
pub mod Modes
use kaiion.Prelude.{
  ℕ, String, Bool, true, false, not, ◌&&◌, ◌||◌, Option, none, some, List, [], ◌∷◌, ◌++◌, Result,
  ok, err, ◌>>=◌, and_then, map_option, unwrap_or, concat, is_some, is_some_and, filter_option,
  strip_prefix, if◌then◌else◌,
}
use kaiion.Json.{
  Value, Codec, Fields, Items, null, boolean, number, pos_int, string, array, object, items,
  entries, fields, get, get_str, get_field, insert_field, as_array,
}
use kaiion.Domain.{JobState, StoredOutcome, terminal}
use kaiion.Errors.{ProxyError, internal}
use kaiion.Http.{HeaderValue, Header, header, insert_header}
use kaiion.Db.Table.{Database}
use kaiion.Request.Headers.{Mode, batch, direct, auto, auth_of, resolve_mode}
use kaiion.Request.Normalize.{model_alias}
use kaiion.Routing.{RouteDecision}
use kaiion.Scheduling.Types.{ScheduleRequest}
use kaiion.Jobs.{response_value}
use kaiion.Proxy.Answers.{Answer, json_body}
use kaiion.Proxy.Retry.{ScheduledDirect, live, to_batch, unavailable}
use kaiion.Proxy.Route.{AppState, route, make_schedule_request}

unfoldable pub health : (active_batch_workers : ℕ) → Value
health active_batch_workers = object (
    fields (
      ("status", string "ok")
      ∷ ("active_batch_workers", number (pos_int active_batch_workers))
      ∷ []))

abbrev alias_fields : (id : String) → Value → Option Value
alias_fields id (object fs) =
    some (object (insert_field "id" (string (concat ("async-" ∷ id ∷ []))) fs))
alias_fields id _ = none

-- The virtual alias of a listed model that has an id and is none itself.
unfoldable pub alias_of : Value → Option Value
alias_of model =
    and_then (get_str "id" model)
      (λ id. if is_some (strip_prefix "async-" id) then none else alias_fields id model)

abbrev with_alias : Option Value → List Value → List Value
with_alias none models = models
with_alias (some alias) models = alias ∷ models

unfoldable pub aliases : List Value → List Value
aliases [] = []
aliases (model ∷ models) = with_alias (alias_of model) (aliases models)

abbrev extended_data : Fields → Value → Option Value
extended_data fs (array listed) =
    some
      (object (insert_field "data" (array (items (entries listed ++ aliases (entries listed)))) fs))
extended_data fs _ = none

-- The list of models with an alias for each; another JSON value is passed on as it is.
unfoldable pub with_aliases : Value → Option Value
with_aliases (object fs) = and_then (get_field "data" fs) (extended_data fs)
with_aliases _ = none

-- `HeaderValue::from_str`; its error is a parameter.
unfoldable pub set_batch_headers :
    (header_value : String → Result ProxyError HeaderValue)
    → (job_id : String) → Answer
    → Result ProxyError Answer
set_batch_headers header_value job_id a = header_value job_id >>= λ value. ok (record a {
  headers =
      insert_header (record { name = "x-kaiion-job-id"; value = value })
        (insert_header (header "x-kaiion-mode" "batch") a.headers);
})

-- The loop that waits without a stream: the states that it reads, in turn, and whether the worker
-- has stopped after them; `none` while it waits.
unfoldable pub plain_answer :
    (header_value : String → Result ProxyError HeaderValue)
    → (job_id : String) → (stopped : Bool) → List JobState
    → Option (Result ProxyError Answer)
plain_answer header_value job_id false [] = none
plain_answer header_value job_id true [] =
    some (err (internal "batch worker stopped before reaching a terminal state"))
plain_answer header_value job_id stopped (terminal outcome ∷ states) = some (
    set_batch_headers header_value job_id
      (record { status = 200; headers = []; body = json_body (response_value outcome job_id) }))
plain_answer header_value job_id stopped (state ∷ states) =
    plain_answer header_value job_id stopped states

-- What the other handlers would answer to a request, if they are called.
pub record Executions : Type 0 where
  pub on_direct : Result ProxyError Answer
  pub on_scheduled : Result ProxyError ScheduledDirect
  pub on_batch : Result ProxyError Answer

abbrev reasoned : (reason : String) → Answer → Answer
reasoned reason a = record a {
  headers = insert_header (header "x-kaiion-route-reason" reason) a.headers;
}

abbrev answer_with : (reason : String) → Result ProxyError Answer → Result ProxyError Answer
answer_with reason (ok a) = ok (reasoned reason a)
answer_with reason (err e) = err e

unfoldable pub after_schedule :
    Executions → (reason : String) → Result ProxyError ScheduledDirect → Result ProxyError Answer
after_schedule run reason (ok (live a)) = ok (reasoned reason a)
after_schedule run reason (ok (to_batch other)) = answer_with other run.on_batch
after_schedule run reason (ok (unavailable a)) = ok (reasoned reason a)
after_schedule run reason (err e) = err e

-- The match on the mode; `none` is the arm that must not be reached.
unfoldable pub execute :
    (has_scheduler : Bool)
    → Executions
    → Mode
    → (reason : String) → Option (Result ProxyError Answer)
execute true run direct reason = some (after_schedule run reason run.on_scheduled)
execute false run direct reason = some (answer_with reason run.on_direct)
execute has_scheduler run batch reason = some (answer_with reason run.on_batch)
execute has_scheduler run auto reason = none

module _ (app : AppState) (db : Database) (headers : List Header) (body : Value) where
  abbrev pub executed :
      (has_scheduler : Bool)
      → Executions
      → Result ProxyError (RouteDecision app.amounts)
      → Option (Result ProxyError Answer)
  executed has_scheduler run (ok d) = execute has_scheduler run d.mode d.reason
  executed has_scheduler run (err e) = some (err e)

  unfoldable pub responses : (has_scheduler : Bool) → Executions → Option (Result ProxyError Answer)
  responses has_scheduler run = executed has_scheduler run (route app db headers body)

  -- The scheduler's advice on a live request, and whether a Batch may take its place.
  abbrev advice :
      (has_scheduler : Bool)
      → (preview : ScheduleRequest → Option String) → (asked decided : Mode)
      → Result ProxyError (Option String × Bool)
  advice true preview asked direct =
      make_schedule_request app db headers body asked 0 none >>= λ request.
      ok (preview request, request.allow_batch_fallback)
  advice has_scheduler preview asked decided = ok (none, false)

  abbrev advised :
      RouteDecision app.amounts → Option String × Bool → RouteDecision app.amounts × Option String
  advised d (some reason, true) = (record d { mode = batch; reason = reason }, some reason)
  advised d (recommendation, allow) = (d, recommendation)

  -- The decision that `explain_route` shows, and its "recommendation".
  unfoldable pub explain_route :
      (has_scheduler : Bool)
      → (preview : ScheduleRequest → Option String)
      → Result ProxyError (RouteDecision app.amounts × Option String)
  explain_route has_scheduler preview = do
    auth ← auth_of headers
    asked ← resolve_mode app.debug headers app.mode
    d ← route app db headers body
    recommendation ← advice has_scheduler preview asked d.mode
    ok (advised d recommendation)
