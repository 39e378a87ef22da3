-- ===== src/Routing/Modes.antt =====
-- src/routing.rs: the policy never leaves the choice open.
use kaiion.Prelude.{ℕ, ◌≢◌, Option, none, some, not, ◌&&◌, ◌||◌, if-holds}
use kaiion.Json.{Value, Codec}
use kaiion.Request.Headers.{Mode, batch, direct, auto}
use kaiion.Routing.{
  Amounts, ModelPricing, RoutingPolicy, RouteDecision, decision, decide_costs, decide_bounded,
  decide_priced, decide, output_limit, premium_of, reasons_much, contains_non_text_input,
}

batch-not_auto : ◌≢◌ {A = Mode} batch auto
batch-not_auto e = cc

direct-not_auto : ◌≢◌ {A = Mode} direct auto
direct-not_auto e = cc

module _ (a : Amounts) (c : Codec) (policy : RoutingPolicy a) (body : Value) where
  abbrev IsResolved : RouteDecision a → Type 0
  IsResolved d = d.mode ≢ auto

  decide_costs-IsResolved : (i o : ℕ) (d b : a.F) → IsResolved (decide_costs a policy i o d b)
  unfolding decide_costs decision
  decide_costs-IsResolved i o d b =
      if-holds IsResolved (not (a.is_finite d) || not (a.is_finite b)) batch-not_auto (
        if-holds (λ m. m ≢ auto)
          (a.leb d policy.max_direct_cost_usd
            && a.leb (premium_of a d b) policy.max_direct_premium_usd)
          direct-not_auto batch-not_auto)

  decide_bounded-IsResolved :
      (p : ModelPricing a) (o : Option ℕ) → IsResolved (decide_bounded a c policy p body o)
  unfolding decide_bounded decision
  decide_bounded-IsResolved p none = batch-not_auto
  decide_bounded-IsResolved p (some o) = decide_costs-IsResolved _ o _ _

  decide_priced-IsResolved :
      (o : Option (ModelPricing a)) → IsResolved (decide_priced a c policy body o)
  unfolding decide_priced decision
  decide_priced-IsResolved none = batch-not_auto
  decide_priced-IsResolved (some p) = if-holds IsResolved (reasons_much body) batch-not_auto (
      if-holds IsResolved (contains_non_text_input body) batch-not_auto
        (decide_bounded-IsResolved p (output_limit body)))

  pub decide-IsResolved : (decide a c policy body).mode ≢ auto
  unfolding decide
  decide-IsResolved = decide_priced-IsResolved _
