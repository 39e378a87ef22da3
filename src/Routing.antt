-- ===== src/Routing.antt =====
-- src/routing.rs: the choice between a live request and a Batch by price. Arithmetic on f64 is a
-- parameter.
pub mod Workload
pub mod Estimates
pub mod Allowance
pub mod Modes
use kaiion.Prelude.{
  ℕ, String, Bool, true, false, not, ◌&&◌, ◌||◌, Option, none, some, List, [], ◌∷◌, ◌++◌, Result,
  ok, err, ◌>>=◌, map_err, ltb, any, str_eq, is_some_and, filter_option, and_then, concat,
  if◌then◌else◌,
}
use kaiion.Json.{
  Value, Items, Fields, Codec, null, boolean, number, string, array, object, nil, cons, end, field,
  get, get_str, get_field, as_str, as_u64,
}
use kaiion.Errors.{ProxyError, bad_request}
use kaiion.Request.Headers.{Mode, batch, direct}
use kaiion.Request.Inputs.{estimate_input_tokens}

-- What the code asks of f64.
pub record Amounts : Type 1 where
  pub F : Type 0
  pub of_u64 : ℕ → F
  pub add : F → F → F
  pub sub : F → F → F
  pub mul : F → F → F
  pub div : F → F → F
  pub greater : F → F → F
  pub is_finite : F → Bool
  pub leb : F → F → Bool
  pub is_negative : F → Bool
  pub zero : F
  pub million : F

module _ (a : Amounts) where
  pub record ModelPricing : Type 0 where
    pub input_usd_per_million : a.F
    pub output_usd_per_million : a.F
    pub batch_input_usd_per_million : a.F
    pub batch_output_usd_per_million : a.F

  pub record RoutingPolicy : Type 0 where
    pub max_direct_cost_usd : a.F
    pub max_direct_premium_usd : a.F
    pub models : List (String × ModelPricing)

  pub record RouteDecision : Type 0 where
    pub mode : Mode
    pub reason : String
    pub estimated_input_tokens : Option ℕ
    pub output_token_limit : Option ℕ
    pub estimated_direct_cost_usd : Option a.F
    pub estimated_batch_cost_usd : Option a.F
    pub estimated_direct_premium_usd : Option a.F

  -- `RouteDecision::new`
  unfoldable pub decision : Mode → (reason : String) → RouteDecision
  decision mode reason = record {
    mode = mode;
    reason = reason;
    estimated_input_tokens = none;
    output_token_limit = none;
    estimated_direct_cost_usd = none;
    estimated_batch_cost_usd = none;
    estimated_direct_premium_usd = none;
  }

  abbrev prices : List (String × ModelPricing) → List a.F
  prices [] = []
  prices ((name, p) ∷ models) =
      p.input_usd_per_million
      ∷ p.output_usd_per_million
      ∷ p.batch_input_usd_per_million
      ∷ p.batch_output_usd_per_million
      ∷ prices models

  -- The test of `load` on what it has read.
  unfoldable pub check_policy : RoutingPolicy → Result ProxyError RoutingPolicy
  check_policy p =
      if any (λ v. not (a.is_finite v) || a.is_negative v)
        (p.max_direct_cost_usd ∷ p.max_direct_premium_usd ∷ prices p.models)
      then err (bad_request "routing prices and allowances must be finite and nonnegative")
      else ok p

  -- `self.models.get(model)`
  unfoldable pub price_of : String → List (String × ModelPricing) → Option ModelPricing
  price_of model [] = none
  price_of model ((name, p) ∷ models) = if str_eq name model then some p else price_of model models

  -- The cost of a request, in dollars, at two prices for a million tokens.
  unfoldable pub cost : (input_tokens output_tokens : ℕ) → (input_price output_price : a.F) → a.F
  cost input_tokens output_tokens input_price output_price =
      a.div
        (a.add (a.mul (a.of_u64 input_tokens) input_price)
          (a.mul (a.of_u64 output_tokens) output_price))
        a.million

  abbrev pub direct_cost : ModelPricing → (input_tokens output_tokens : ℕ) → a.F
  direct_cost p i o = cost i o p.input_usd_per_million p.output_usd_per_million

  abbrev pub batch_cost : ModelPricing → (input_tokens output_tokens : ℕ) → a.F
  batch_cost p i o = cost i o p.batch_input_usd_per_million p.batch_output_usd_per_million

  abbrev pub premium_of : (direct_usd batch_usd : a.F) → a.F
  premium_of direct_usd batch_usd = a.greater (a.sub direct_usd batch_usd) a.zero

  -- From the costs on.
  unfoldable pub decide_costs :
      RoutingPolicy
      → (input_tokens output_tokens : ℕ) → (direct_usd batch_usd : a.F) → RouteDecision
  unfolding decision
  decide_costs policy i o direct_usd batch_usd =
      let premium = premium_of direct_usd batch_usd in
      let within =
        a.leb direct_usd policy.max_direct_cost_usd
        && a.leb premium policy.max_direct_premium_usd in
      if not (a.is_finite direct_usd) || not (a.is_finite batch_usd)
      then decision batch "cost_estimate_overflow"
      else record {
        mode = if within then direct else batch;
        reason = if within then "within_direct_allowance" else "batch_savings";
        estimated_input_tokens = some i;
        output_token_limit = some o;
        estimated_direct_cost_usd = some direct_usd;
        estimated_batch_cost_usd = some batch_usd;
        estimated_direct_premium_usd = some premium;
      }

-- The kinds of item that are text, or part of a schema.
abbrev text_kinds : List String
text_kinds =
    "message" ∷ "input_text" ∷ "output_text" ∷ "function" ∷ "function_call" ∷ "function_call_output"
    ∷ "text" ∷ "json_schema" ∷ "json_object" ∷ "object" ∷ "array" ∷ "string" ∷ "number" ∷ "integer"
    ∷ "boolean" ∷ "null" ∷ []

abbrev pub other_kind : Fields → Bool
other_kind fs =
    is_some_and (and_then (get_field "type" fs) as_str) (λ kind. not (any (str_eq kind) text_kinds))

unfoldable mutual
  pub contains_non_text_input : Value → Bool
  contains_non_text_input (array items) = items_non_text items
  contains_non_text_input (object fs) = other_kind fs || fields_non_text fs
  contains_non_text_input null = false
  contains_non_text_input (boolean b) = false
  contains_non_text_input (number n) = false
  contains_non_text_input (string s) = false

  pub items_non_text : Items → Bool
  items_non_text nil = false
  items_non_text (cons v vs) = contains_non_text_input v || items_non_text vs

  pub fields_non_text : Fields → Bool
  fields_non_text end = false
  fields_non_text (field k v fs) = contains_non_text_input v || fields_non_text fs

-- `body.pointer("/reasoning/effort")` is one of these.
unfoldable pub reasons_much : Value → Bool
reasons_much body =
    is_some_and (and_then (get "reasoning" body) (get_str "effort"))
      (λ effort. any (str_eq effort) ("medium" ∷ "high" ∷ "xhigh" ∷ "max" ∷ []))

-- The bound that the caller sets on the output, if it is not zero.
unfoldable pub output_limit : Value → Option ℕ
output_limit body =
    filter_option (λ limit. ltb 0 limit) (and_then (get "max_output_tokens" body) as_u64)

module _ (a : Amounts) (c : Codec) where
  unfoldable pub decide_bounded :
      RoutingPolicy a → ModelPricing a → Value → Option ℕ → RouteDecision a
  decide_bounded policy p body none = decision a batch "unbounded_output"
  decide_bounded policy p body (some output_tokens) =
      let input_tokens = estimate_input_tokens c body in
      decide_costs a policy input_tokens output_tokens (direct_cost a p input_tokens output_tokens)
        (batch_cost a p input_tokens output_tokens)

  unfoldable pub decide_priced : RoutingPolicy a → Value → Option (ModelPricing a) → RouteDecision a
  decide_priced policy body none = decision a batch "unknown_model_pricing"
  decide_priced policy body (some p) =
      if reasons_much body
      then decision a batch "reasoning_workload"
      else if contains_non_text_input body
      then decision a batch "unpriced_modality_or_hosted_tool"
      else decide_bounded policy p body (output_limit body)

  -- `RoutingPolicy::decide`
  unfoldable pub decide : RoutingPolicy a → Value → RouteDecision a
  decide policy body =
      decide_priced policy body
        (and_then (get_str "model" body) (λ model. price_of a model policy.models))
