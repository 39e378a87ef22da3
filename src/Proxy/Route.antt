-- ===== src/Proxy/Route.antt =====
-- src/proxy.rs: `route` and `make_schedule_request`: where a request goes, and what the scheduler is
-- told of it.
pub mod Resolved
use kaiion.Prelude.{
  ℕ, String, Bool, true, false, not, ◌&&◌, ◌||◌, Option, none, some, List, [], ◌∷◌, Result, ok, err,
  ◌>>=◌, ◌>>◌, map_err, ok_or, is_some, is_none, is_empty, if◌then◌else◌,
}
use kaiion.Json.{Value, Codec, get_str}
use kaiion.Errors.{database, ProxyError, bad_request, not_found, conflict, persistence, json}
use kaiion.Http.{Header}
use kaiion.Db.Table.{Database}
use kaiion.Db.Requests.{NormalizedRequest, StoreError, find, check_idempotency}
use kaiion.Request.Headers.{Mode, batch, direct, auto, UpstreamAuth, auth_of, resolve_mode}
use kaiion.Request.Inputs.{estimate_tokens, is_tool_output, is_user_prompt}
use kaiion.Request.Normalize.{
  Crates, fingerprint, batch_supported, upstream_body, model_alias, no_alias_target,
  scheduling_session_id,
}
use kaiion.Request.Identity.{from_headers}
use kaiion.Routing.{Amounts, RoutingPolicy, RouteDecision, decision, decide}
use kaiion.Scheduling.Types.{InteractionKind, tool_output, user_prompt, unknown, ScheduleRequest}

-- `From<PersistenceError>` and what the job store returns besides.
unfoldable pub proxy_error : StoreError → ProxyError
proxy_error StoreError.is_not_found = not_found
proxy_error (StoreError.is_conflicting m) = conflict m
proxy_error StoreError.row_not_found =
    database "no rows returned by a query that expected to return at least one row"
proxy_error (StoreError.persistence e) = persistence e
proxy_error (StoreError.json m) = json m

-- The parts of `AppState` that routing reads.
pub record AppState : Type 1 where
  pub crates : Crates
  pub amounts : Amounts
  pub debug : String → String
  pub mode : Mode
  pub provider : String
  pub policy : RoutingPolicy amounts

abbrev is_batch : Mode → Bool
is_batch batch = true
is_batch _ = false

module _ (app : AppState) (db : Database) (headers : List Header) (body : Value) where
  abbrev batch_request : Bool → Result ProxyError (Option NormalizedRequest)
  batch_request true =
      from_headers app.crates body app.provider headers >>= λ request. ok (some request)
  batch_request false = ok none

  -- Is there a job for the request? A conflicting idempotency key is an error.
  unfoldable pub has_job : UpstreamAuth → Option NormalizedRequest → Result ProxyError Bool
  has_job auth none = ok false
  has_job auth (some request) =
      map_err proxy_error (check_idempotency (fingerprint app.crates auth) request db)
      >> (map_err persistence
            (find app.crates.codec (fingerprint app.crates auth) request.request_hash db)
          >>= λ job. ok (is_some job))

  abbrev Decision : Type 0
  Decision = RouteDecision app.amounts

  -- A request that no Batch can hold stays live.
  unfoldable pub keep_live : Option NormalizedRequest → Decision → Decision
  keep_live request d =
      if is_batch d.mode && is_none request
      then decision app.amounts direct "batch_not_supported"
      else d

  unfoldable pub choose_mode :
      Option NormalizedRequest → (known : Bool) → Result ProxyError Decision
  choose_mode request true = ok (decision app.amounts batch "existing_batch_job")
  choose_mode request false = upstream_body body >>= λ provider_body.
      ok (keep_live request (decide app.amounts app.crates.codec app.policy provider_body))

  unfoldable pub route_auto : Result ProxyError Decision
  route_auto = do
    auth ← auth_of headers
    supported ← batch_supported app.crates body headers
    request ← batch_request supported
    known ← has_job auth request
    choose_mode request known

  unfoldable pub route_in : Mode → Result ProxyError Decision
  route_in batch = ok (decision app.amounts batch "explicit_mode")
  route_in direct = ok (decision app.amounts direct "explicit_mode")
  route_in auto = route_auto

  unfoldable pub route : Result ProxyError Decision
  route = do mode ← resolve_mode app.debug headers app.mode; route_in mode

  unfoldable pub interaction_of : InteractionKind
  interaction_of =
      if is_tool_output body
      then tool_output
      else if is_user_prompt body
      then user_prompt
      else unknown

  abbrev fallback : Mode → Result ProxyError Bool
  fallback auto = batch_supported app.crates body headers
  fallback _ = ok false

  abbrev named_model : String × Bool → Result ProxyError (String × Bool)
  named_model (model, async_alias) =
      if is_empty model then err no_alias_target else ok (model, async_alias)

  unfoldable pub make_schedule_request :
      (requested_mode : Mode)
      → (retry_attempt : ℕ) → (upstream_retry_after : Option ℕ) → Result ProxyError ScheduleRequest
  make_schedule_request requested_mode retry_attempt upstream_retry_after = do
    auth ← auth_of headers
    requested ← ok_or (get_str "model" body) (bad_request "missing model")
    named ← named_model (model_alias requested)
    allow_batch_fallback ← fallback requested_mode
    session_id ← scheduling_session_id app.crates body headers
    provider_body ← upstream_body body
    ok (record {
      provider = app.provider;
      auth_scope = fingerprint app.crates auth;
      model = named.0;
      session_id = session_id;
      input_tokens = (estimate_tokens app.crates.codec body).0;
      output_tokens = (estimate_tokens app.crates.codec body).1;
      interaction = interaction_of;
      async_alias = named.1;
      cache_read_hit = none;
      retry_attempt = retry_attempt;
      upstream_retry_after = upstream_retry_after;
      allow_batch_fallback = allow_batch_fallback;
      body = some provider_body;
    })
