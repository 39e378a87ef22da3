-- ===== src/Routing/Estimates.antt =====
-- src/routing.rs: what the policy reads of a request and its own prices, told without its helpers,
-- and that they read this.
use kaiion.Prelude.{
  ℕ, ◌+◌, ◌/◌, ◌<◌, String, true, false, ◌≡◌, ◌≢◌, ◌↔◌, refl, ap, Option, none, some, List, [], ◌∷◌,
  ◌++◌, All, and_then, map_option, unwrap_or, filter_option, length, min, ltb, str_eq, str_eq_iff,
  inl, inr, Bool-cases, arith,
}
use kaiion.Json.{
  Value, Codec, null, boolean, number, pos_int, neg_int, float, string, array, object, get, as_str,
  as_u64,
}
use kaiion.Request.Bytes.{utf8}
use kaiion.Request.Headers.{direct}
use kaiion.Request.Inputs.{tokens_of_bytes, estimate_input_tokens}
use kaiion.Routing.{
  Amounts, ModelPricing, RoutingPolicy, decision, price_of, cost, direct_cost, batch_cost,
  premium_of, decide_costs,
}

-- The bytes of a value as it is written, if it is there.
abbrev pub written : Codec → Option Value → ℕ
written c none = 0
written c (some v) = length (utf8 (c.print v))

-- A token for every three bytes, or part of them, of what the request has the model read, and 32.
abbrev pub input_estimate : Codec → Value → ℕ
input_estimate c body =
    min
      ((written c (get "instructions" body)
            + (written c (get "input" body)
                + (written c (get "tools" body) + (written c (get "text" body) + 0)))
            + 2)
          / 3
        + 32)
      18446744073709551615

other_name : (s t : String) → str_eq s t ≡ false → s ≢ t
other_name s t h e = let same : str_eq s t ≡ true = (str_eq_iff s t).1 e in cc

other_text : (s t : String) → s ≢ t → str_eq s t ≡ false
other_text s t h = elim (Bool-cases (str_eq s t)) [
  | inl e ↦ elim (h ((str_eq_iff s t).0 e)) [ ]
  | inr e ↦ e
]

module _ (a : Amounts) where
  -- The first price of the list that is the model's.
  pub record PricedAt (model : String) (models : List (String × ModelPricing a))
      (pricing : ModelPricing a) : Type 0 where
    pub before : List (String × ModelPricing a)
    pub after : List (String × ModelPricing a)
    pub listed : models ≡ before ++ ((model, pricing) ∷ after)
    pub others : All (λ (name, p). name ≢ model) before

  -- Dollars for so many tokens in and out, at prices for a million.
  abbrev pub usd : (i o : ℕ) → (input_price output_price : a.F) → a.F
  usd i o input_price output_price =
      a.div (a.add (a.mul (a.of_u64 i) input_price) (a.mul (a.of_u64 o) output_price)) a.million

  -- With i tokens in and o out, both costs are finite, and the live cost and what it is above the
  -- Batch's, where it is above, are within the allowances.
  pub record WithinAllowance (policy : RoutingPolicy a) (p : ModelPricing a) (i o : ℕ)
      : Type 0 where
    pub live_finite : a.is_finite (usd i o p.input_usd_per_million p.output_usd_per_million) ≡ true
    pub batch_finite :
        a.is_finite (usd i o p.batch_input_usd_per_million p.batch_output_usd_per_million) ≡ true
    pub within_cost :
        a.leb (usd i o p.input_usd_per_million p.output_usd_per_million) policy.max_direct_cost_usd
        ≡ true
    pub within_premium :
        a.leb
          (a.greater
            (a.sub
              (usd i o p.input_usd_per_million p.output_usd_per_million)
              (usd i o p.batch_input_usd_per_million p.batch_output_usd_per_million))
            a.zero)
          policy.max_direct_premium_usd
        ≡ true

  some_inj : (p q : ModelPricing a) → some p ≡ some q → p ≡ q
  some_inj p q h = ap (λ o. unwrap_or o p) h

  pub price_of-PricedAt :
      (model : String) (models : List (String × ModelPricing a)) (p : ModelPricing a)
      → price_of a model models ≡ some p
      → PricedAt model models p
  unfolding price_of
  price_of-PricedAt model [] p h = cc
  price_of-PricedAt model ((name, q) ∷ models) p h = elim (Bool-cases (str_eq name model)) [
    | inl e ↦
        let same : name ≡ model = (str_eq_iff name model).0 e in
        record {
          before = [];
          after = models;
          listed =
              ap (λ (x : String × ModelPricing a). x ∷ models)
                (λ i. (same i, some_inj q p (rw e at h) i));
          others = tt;
        }
    | inr e ↦
        let later = price_of-PricedAt model models p (rw e at h) in
        record {
          before = (name, q) ∷ later.before;
          after = later.after;
          listed = ap (λ (xs : List (String × ModelPricing a)). (name, q) ∷ xs) later.listed;
          others = (other_name name model e, later.others);
        }
  ]

  pub PricedAt-price_of :
      (model : String) (before after : List (String × ModelPricing a)) (p : ModelPricing a)
      → All (λ (name, p). name ≢ model) before
      → price_of a model (before ++ ((model, p) ∷ after)) ≡ some p
  unfolding price_of
  PricedAt-price_of model [] after p h = rw ((str_eq_iff model model).1 refl) refl
  PricedAt-price_of model ((name, q) ∷ before) after p h =
      rw (other_text name model (h.0)) (PricedAt-price_of model before after p (h.1))

  decide_costs-direct_iff :
      (policy : RoutingPolicy a) (i o : ℕ) (d b : a.F)
      → ((decide_costs a policy i o d b).mode ≡ direct) ↔ (
          (a.is_finite d ≡ true)
          × (a.is_finite b ≡ true)
          × (a.leb d policy.max_direct_cost_usd ≡ true)
          × (a.leb (premium_of a d b) policy.max_direct_premium_usd ≡ true))
  unfolding decide_costs decision
  decide_costs-direct_iff policy i o d b = ground arith

  -- From the costs on.
  pub WithinAllowance-direct_iff :
      (policy : RoutingPolicy a) (p : ModelPricing a) (i o : ℕ)
      → ((decide_costs a policy i o (direct_cost a p i o) (batch_cost a p i o)).mode ≡ direct)
        ↔ WithinAllowance policy p i o
  unfolding cost
  WithinAllowance-direct_iff policy p i o =
      let (there, back) =
        decide_costs-direct_iff policy i o (direct_cost a p i o) (batch_cost a p i o) in
      (
        λ h.
            let (live, batch, costs, premium) = there h in
            record {
              live_finite = live;
              batch_finite = batch;
              within_cost = costs;
              within_premium = premium;
            },
        λ w. back (w.live_finite, w.batch_finite, w.within_cost, w.within_premium),
      )

-- The model that a request names, the bound that it sets, and the estimate of its input.
pub str-named :
    (o : Option Value) (s : String) → (and_then o as_str ≡ some s) ↔ (o ≡ some (string s))
str-named none s = (λ h. cc h, λ h. cc h)
str-named (some (string t)) s = (λ h. cc h, λ h. cc h)
str-named (some null) s = (λ h. cc h, λ h. cc h)
str-named (some (boolean b)) s = (λ h. cc h, λ h. cc h)
str-named (some (number n)) s = (λ h. cc h, λ h. cc h)
str-named (some (array vs)) s = (λ h. cc h, λ h. cc h)
str-named (some (object fs)) s = (λ h. cc h, λ h. cc h)

pub limit-set :
    (o : Option Value) (n : ℕ)
    → (filter_option (λ limit. ltb 0 limit) (and_then o as_u64) ≡ some n)
      ↔ ((o ≡ some (number (pos_int n))) × (0 < n))
limit-set none n = (λ h. cc h, λ h. cc (h.0))
limit-set (some (number (pos_int m))) n = ground arith
limit-set (some (number (neg_int m))) n = (λ h. cc h, λ h. cc (h.0))
limit-set (some (number (float m))) n = (λ h. cc h, λ h. cc (h.0))
limit-set (some (string t)) n = (λ h. cc h, λ h. cc (h.0))
limit-set (some null) n = (λ h. cc h, λ h. cc (h.0))
limit-set (some (boolean b)) n = (λ h. cc h, λ h. cc (h.0))
limit-set (some (array vs)) n = (λ h. cc h, λ h. cc (h.0))
limit-set (some (object fs)) n = (λ h. cc h, λ h. cc (h.0))

pub estimate-input_estimate :
    (c : Codec) (body : Value) → estimate_input_tokens c body ≡ input_estimate c body
unfolding estimate_input_tokens tokens_of_bytes
estimate-input_estimate c body = ap tokens_of_bytes (λ i.
    size (get "instructions" body) i
    + (size (get "input" body) i + (size (get "tools" body) i + (size (get "text" body) i + 0))))
  where
    size :
        (o : Option Value)
        → unwrap_or (map_option (λ v. length (utf8 (c.print v))) o) 0 ≡ written c o
    size none = refl
    size (some v) = refl
