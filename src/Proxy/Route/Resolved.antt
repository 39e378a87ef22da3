-- ===== src/Proxy/Route/Resolved.antt =====
-- src/proxy.rs: what `route` has settled when it returns.
use kaiion.Prelude.{
  Bool, true, false, ◌&&◌, ◌≡◌, ◌≢◌, refl, subst, Option, none, some, List, ok, bind-ok, if-cases,
}
use kaiion.Json.{Value}
use kaiion.Http.{Header}
use kaiion.Db.Table.{Database}
use kaiion.Db.Requests.{NormalizedRequest}
use kaiion.Request.Headers.{Mode, batch, direct, auto, UpstreamAuth, auth_of, resolve_mode}
use kaiion.Request.Normalize.{batch_supported, upstream_body}
use kaiion.Request.Identity.{from_headers}
use kaiion.Routing.{RouteDecision, decision, decide}
use kaiion.Routing.Modes.{decide-IsResolved}
use kaiion.Proxy.Route.{
  AppState, is_batch, batch_request, has_job, keep_live, choose_mode, route_auto, route_in, route,
}

-- A mode that can be carried out: live, or as a Batch of a request that can be identified.
abbrev pub Carries : (app : AppState) → List Header → Value → Mode → Type 0
Carries app headers body batch =
    (r : NormalizedRequest) × (from_headers app.crates body app.provider headers ≡ ok r)
Carries app headers body direct = Unit
Carries app headers body auto = ⊥

module _ (app : AppState) (headers : List Header) (body : Value) where
  live-Carries : (m : Mode) → m ≢ auto → (is_batch m && true) ≡ false → Carries app headers body m
  live-Carries batch k e = cc e
  live-Carries direct k e = tt
  live-Carries auto k e = elim (k refl) [ ]

  identified-Carries :
      (m : Mode)
      → m ≢ auto
      → (r : NormalizedRequest) × (from_headers app.crates body app.provider headers ≡ ok r)
      → Carries app headers body m
  identified-Carries batch k r = r
  identified-Carries direct k r = tt
  identified-Carries auto k r = elim (k refl) [ ]

module _ (app : AppState) (db : Database) (headers : List Header) (body : Value) where
  Found : Option NormalizedRequest → Type 0
  Found request =
      (r : NormalizedRequest)
      → request ≡ some r
      → from_headers app.crates body app.provider headers ≡ ok r

  batch_request-Found :
      (supported : Bool) (request : Option NormalizedRequest)
      → batch_request app db headers body supported ≡ ok request
      → Found request
  unfolding Found
  batch_request-Found true request h r e =
      let (q, given, same) =
        bind-ok (from_headers app.crates body app.provider headers) (λ request. ok (some request))
          h in
      let asked : q ≡ r = cc (same, e) in
      subst (λ q. from_headers app.crates body app.provider headers ≡ ok q) asked given
  batch_request-Found false request h r e = cc (h, e)

  Carried : RouteDecision app.amounts → Type 0
  Carried d = Carries app headers body d.mode

  keep_live-Carried :
      (request : Option NormalizedRequest) (d : RouteDecision app.amounts)
      → Found request
      → d.mode ≢ auto
      → Carried (keep_live app db headers body request d)
  unfolding keep_live decision Found Carried
  keep_live-Carried none d h k =
      if-cases Carried (is_batch d.mode && true) (λ e. tt)
        (λ e. live-Carries app headers body d.mode k e)
  keep_live-Carried (some r) d h k =
      if-cases Carried (is_batch d.mode && false) (λ e. tt)
        (λ e. identified-Carries app headers body d.mode k (r, h r refl))

  choose_mode-Carried :
      (request : Option NormalizedRequest) (known : Bool) (d : RouteDecision app.amounts)
      → Found request
      → (known ≡ true → (r : NormalizedRequest) × (request ≡ some r))
      → choose_mode app db headers body request known ≡ ok d
      → Carried d
  unfolding choose_mode Found Carried decision
  choose_mode-Carried request true d h k e =
      let (r, given) = k refl in
      let same : decision app.amounts batch "existing_batch_job" ≡ d = cc e in
      subst Carried same (r, h r given)
  choose_mode-Carried request false d h k e =
      let (provider_body, sent, same) = bind-ok (upstream_body body) _ e in
      let chosen : keep_live app db headers body request
            (decide app.amounts app.crates.codec app.policy provider_body)
          ≡ d =
        cc same in
      subst Carried chosen (
        keep_live-Carried request (decide app.amounts app.crates.codec app.policy provider_body) h
          (decide-IsResolved app.amounts app.crates.codec app.policy provider_body))

  has_job-some :
      (auth : UpstreamAuth) (request : Option NormalizedRequest) (known : Bool)
      → has_job app db headers body auth request ≡ ok known
      → known ≡ true
      → (r : NormalizedRequest) × (request ≡ some r)
  unfolding has_job
  has_job-some auth none known h e = cc (h, e)
  has_job-some auth (some r) known h e = (r, refl)

  route_auto-Carried :
      (d : RouteDecision app.amounts) → route_auto app db headers body ≡ ok d → Carried d
  unfolding route_auto
  route_auto-Carried d e =
      let (auth, e₁, f₁) = bind-ok (auth_of headers) _ e in
      let (supported, e₂, f₂) = bind-ok (batch_supported app.crates body headers) _ f₁ in
      let (request, e₃, f₃) = bind-ok (batch_request app db headers body supported) _ f₂ in
      let (known, e₄, f₄) = bind-ok (has_job app db headers body auth request) _ f₃ in
      choose_mode-Carried request known d (batch_request-Found supported request e₃)
        (has_job-some auth request known e₄) f₄

  -- What the caller or the configuration asked for is done; where the choice was left open it is made.
  abbrev pub Resolves : Mode → RouteDecision app.amounts → Type 0
  Resolves auto d = Carries app headers body d.mode
  Resolves asked d = d.mode ≡ asked

  route_in-Resolves :
      (asked : Mode) (d : RouteDecision app.amounts)
      → route_in app db headers body asked ≡ ok d
      → Resolves asked d
  unfolding route_in decision Carried
  route_in-Resolves batch d e = cc e
  route_in-Resolves direct d e = cc e
  route_in-Resolves auto d e = route_auto-Carried d e

-- A request that is routed goes where it was asked to go. Where that is left open, it goes live, or
-- becomes a Batch, and then a durable request can be made of it.
pub route-Resolves :
    (app : AppState) (db : Database) (headers : List Header) (body : Value)
    (d : RouteDecision app.amounts)
    → route app db headers body ≡ ok d
    → (asked : Mode) × (resolve_mode app.debug headers app.mode ≡ ok asked)
      × Resolves app db headers body asked d
unfolding route
route-Resolves app db headers body d e =
    let (asked, found, rest) = bind-ok (resolve_mode app.debug headers app.mode) _ e in
    (asked, found, route_in-Resolves app db headers body asked d rest)
