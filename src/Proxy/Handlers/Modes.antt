-- ===== src/Proxy/Handlers/Modes.antt =====
-- src/proxy.rs: `responses` always has a mode to carry out.
use kaiion.Prelude.{
  Bool, true, false, ◌≡◌, ◌≢◌, refl, List, inl, inr, Result-cases, is_some, String,
}
use kaiion.Json.{Value}
use kaiion.Http.{Header}
use kaiion.Db.Table.{Database}
use kaiion.Request.Headers.{Mode, batch, direct, auto}
use kaiion.Routing.{RouteDecision}
use kaiion.Proxy.Route.{AppState, route}
use kaiion.Proxy.Route.Resolved.{Carries, Resolves, route-Resolves}
use kaiion.Proxy.Handlers.{Executions, execute, responses}

execute-some :
    (has_scheduler : Bool) (run : Executions) (m : Mode) (reason : String)
    → m ≢ auto
    → is_some (execute has_scheduler run m reason) ≡ true
unfolding execute
execute-some true run direct reason h = refl
execute-some false run direct reason h = refl
execute-some true run batch reason h = refl
execute-some false run batch reason h = refl
execute-some true run auto reason h = elim (h refl) [ ]
execute-some false run auto reason h = elim (h refl) [ ]

module _ (app : AppState) (db : Database) (headers : List Header) (body : Value) where
  Carries-not_auto : (m : Mode) → Carries app headers body m → m ≢ auto
  Carries-not_auto batch h e = cc e
  Carries-not_auto direct h e = cc e
  Carries-not_auto auto h e = h

  Resolves-not_auto :
      (asked : Mode) (d : RouteDecision app.amounts)
      → Resolves app db headers body asked d
      → d.mode ≢ auto
  Resolves-not_auto auto d h e = Carries-not_auto d.mode h e
  Resolves-not_auto batch d h e = cc (h, e)
  Resolves-not_auto direct d h e = cc (h, e)

-- Every request is answered or refused: once it is routed, its mode is one of the two that can be
-- carried out, and the arm for an open choice is never reached.
pub responses-reached :
    (app : AppState) (db : Database) (headers : List Header) (body : Value) (has_scheduler : Bool)
    (run : Executions)
    → is_some (responses app db headers body has_scheduler run) ≡ true
unfolding responses
responses-reached app db headers body has_scheduler run =
    elim (Result-cases (route app db headers body)) [
      | inl (d, e) ↦
          let (asked, found, resolved) = route-Resolves app db headers body d e in
          rw e (
            execute-some has_scheduler run d.mode d.reason
              (Resolves-not_auto app db headers body asked d resolved))
      | inr (x, e) ↦ rw e refl
    ]
