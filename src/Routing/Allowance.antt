-- ===== src/Routing/Allowance.antt =====
-- src/routing.rs: when a request is sent live.
use kaiion.Prelude.{
  ℕ, ◌<◌, String, false, ◌≡◌, ◌↔◌, refl, ap, ◌∙◌, Option, none, some, and_then, arith,
}
use kaiion.Json.{Value, Codec, number, pos_int, string, get, get_str}
use kaiion.Request.Headers.{direct}
use kaiion.Routing.{
  Amounts, ModelPricing, RoutingPolicy, decision, price_of, decide_bounded, decide_priced, decide,
  contains_non_text_input, reasons_much, output_limit,
}
use kaiion.Routing.Workload.{
  IsText, LittleReasoning, contains-IsText, IsText-contains, reasons-LittleReasoning,
}
use kaiion.Routing.Estimates.{
  input_estimate, PricedAt, WithinAllowance, price_of-PricedAt, PricedAt-price_of,
  WithinAllowance-direct_iff, str-named, limit-set, estimate-input_estimate,
}

module _ (a : Amounts) where
  -- What the policy asks of a request that it sends live.
  pub record Affordable (c : Codec) (policy : RoutingPolicy a) (body : Value) : Type 0 where
    pub model : String
    pub pricing : ModelPricing a
    pub limit : ℕ
    pub names : get "model" body ≡ some (string model)
    pub priced : PricedAt a model policy.models pricing
    pub little : LittleReasoning body
    pub text : IsText body
    pub limits : get "max_output_tokens" body ≡ some (number (pos_int limit))
    pub bounded : 0 < limit
    pub allowed : WithinAllowance a policy pricing (input_estimate c body) limit

module _ (a : Amounts) (c : Codec) (policy : RoutingPolicy a) (body : Value) where
  decide_bounded-Affordable :
      (model : String) (p : ModelPricing a) (limit : Option ℕ)
      → get "model" body ≡ some (string model)
      → PricedAt a model policy.models p
      → contains_non_text_input body ≡ false
      → reasons_much body ≡ false
      → output_limit body ≡ limit
      → (decide_bounded a c policy p body limit).mode ≡ direct
      → Affordable a c policy body
  unfolding decide_bounded decision output_limit
  decide_bounded-Affordable model p none names priced text little set h = cc
  decide_bounded-Affordable model p (some o) names priced text little set h =
      let (limits, bounded) = (limit-set (get "max_output_tokens" body) o).0 set in
      record {
        model = model;
        pricing = p;
        limit = o;
        names = names;
        priced = priced;
        little = (reasons-LittleReasoning body).0 little;
        text = contains-IsText body text;
        limits = limits;
        bounded = bounded;
        allowed =
            (WithinAllowance-direct_iff a policy p (input_estimate c body) o).0
              (rw (estimate-input_estimate c body) at h);
      }

  decide_priced-Affordable :
      (model : String) (o : Option (ModelPricing a))
      → get "model" body ≡ some (string model)
      → price_of a model policy.models ≡ o
      → (decide_priced a c policy body o).mode ≡ direct
      → Affordable a c policy body
  unfolding decide_priced decision
  decide_priced-Affordable model none names priced h = cc
  decide_priced-Affordable model (some p) names priced h =
      let (text, little, rest) : (contains_non_text_input body ≡ false)
          × (reasons_much body ≡ false)
          × ((decide_bounded a c policy p body (output_limit body)).mode ≡ direct) =
        ground arith in
      decide_bounded-Affordable model p (output_limit body) names
        (price_of-PricedAt a model policy.models p priced) text little refl rest

  decide-Affordable :
      (name : Option String)
      → get_str "model" body ≡ name
      → (decide_priced a c policy body
          (and_then name (λ model. price_of a model policy.models))).mode
        ≡ direct
      → Affordable a c policy body
  unfolding decide_priced decision
  decide-Affordable none e h = cc
  decide-Affordable (some model) e h =
      decide_priced-Affordable model _ ((str-named (get "model" body) model).0 e) refl h

  Affordable-direct : Affordable a c policy body → (decide a c policy body).mode ≡ direct
  unfolding decide decide_priced decide_bounded output_limit
  Affordable-direct h =
      let priced : price_of a h.model policy.models ≡ some h.pricing =
        ap (price_of a h.model) h.priced.listed
        ∙ PricedAt-price_of a h.model h.priced.before h.priced.after h.pricing h.priced.others in
      let bounded : output_limit body ≡ some h.limit =
        (limit-set (get "max_output_tokens" body) h.limit).1 (h.limits, h.bounded) in
      rw
        (
          (str-named (get "model" body) h.model).1 h.names,
          priced,
          (reasons-LittleReasoning body).1 h.little,
          IsText-contains body h.text,
          bounded,
          estimate-input_estimate c body,
        )
        ((WithinAllowance-direct_iff a policy h.pricing (input_estimate c body) h.limit).1
          h.allowed)

-- The routing policy sends a request live exactly when its model has a price, every object in it
-- has no type or one that stands for text, its effort is none of the four great ones, it bounds its
-- output above zero, both cost estimates for its estimated input and that bound are finite, and the
-- live cost and its premium over a Batch are within the allowances.
pub decide-iff-Affordable :
    (a : Amounts) (c : Codec) (policy : RoutingPolicy a) (body : Value)
    → ((decide a c policy body).mode ≡ direct) ↔ Affordable a c policy body
unfolding decide
decide-iff-Affordable a c policy body = (
  decide-Affordable a c policy body (get_str "model" body) refl,
  Affordable-direct a c policy body,
)
