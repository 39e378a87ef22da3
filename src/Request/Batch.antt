-- ===== src/Request/Batch.antt =====
-- src/request.rs: the body that a durable request sends to the provider.
use Prim.Native.Char.{code}
use Prim.Native.String
use text.Mathlib.TextLemmas.{nil-append, append-nil, cons-append}
use text.Mathlib.TextEquality.{Char-path}
use kaiion.Prelude.{
  String, Bool, false, ◌≡◌, ◌==◌, refl, subst, sym, ap, ◌∙◌, inl, inr, Bool-cases, Option-cases,
  Option, none, some, List, [], ◌∷◌, ok, bind-ok, ok_or, ok_or-ok, concat, strip_prefix, is_empty,
  str_eq, arith, if◌then◌else◌, and_then, filter_option,
}
use kaiion.Json.{Value, Fields, boolean, string, object, get, get_field, insert_field, as_str}
use kaiion.Json.Laws.{get_field-insert_field, get_field-insert_other, get_field-remove_other}
use kaiion.Http.{Header}
use kaiion.Db.Requests.{NormalizedRequest}
use kaiion.Request.Headers.{identity_header, session_header, idempotency_header}
use kaiion.Request.Normalize.{Crates, canonical_provider_url, requested_model, model_alias}
use kaiion.Request.Identity.{
  check_batchable, plain_fields, build_request, identify, normalize_model, from_headers,
  durable_session_key, missing_identity, missing_model,
}

strip_prefix-some : (p s t : String) → strip_prefix p s ≡ some t → s ≡ String.◌++◌ p t
unfolding strip_prefix
strip_prefix-some String.[] s t e = cc (e, nil-append t)
strip_prefix-some (String.◌∷◌ c p) String.[] t e = cc
strip_prefix-some (String.◌∷◌ c p) (String.◌∷◌ d s) t e = elim (Bool-cases (code c == code d)) [
  | inl h ↦
      let same : code d ≡ code c = ground arith in
      cc (Char-path d c same, strip_prefix-some p s t (rw h at e), cons-append c p t)
  | inr h ↦ cc (rw h at e)
]

-- The caller's name of the model that a request names.
abbrev pub caller_model : String × Bool → String
caller_model (model, async_alias) = if async_alias then concat ("async-" ∷ model ∷ []) else model

caller_model-model_alias : (s : String) → caller_model (model_alias s) ≡ s
unfolding model_alias
caller_model-model_alias s = elim (Option-cases (strip_prefix "async-" s)) [
  | inl e ↦ rw (e, model_alias) refl
  | inr (t, e) ↦
      rw (e, model_alias)
        (ap (String.◌++◌ "async-") (append-nil t) ∙ sym (strip_prefix-some "async-" s t e))
]

-- The keys that a normalization writes or removes.
abbrev pub IsOther : String → Type 0
IsOther k =
    (str_eq "model" k ≡ false)
    × (str_eq "stream" k ≡ false)
    × (str_eq "stream_options" k ≡ false)
    × (str_eq "store" k ≡ false)

-- What the batch body keeps of the caller's.
pub record Batches (body : Value) (r : NormalizedRequest) : Type 0 where
  pub model_given : is_empty r.model ≡ false
  pub model_asked :
      and_then (get "model" body) as_str ≡ some (caller_model (r.model, r.async_alias))
  pub model : get "model" r.batch_body ≡ some (string r.model)
  pub stream : get "stream" r.batch_body ≡ some (boolean false)
  pub store_off : get "store" r.batch_body ≡ some (boolean false)
  pub others : (k : String) → IsOther k → get k r.batch_body ≡ get k body

module _ (crates : Crates) (headers : List Header) (provider_namespace : String) where
  build_request-others :
      (provider key : String) (idempotency : Option String) (model : String) (alias : Bool)
      (fs : Fields) (k : String)
      → IsOther k
      → get k
          (build_request crates provider key idempotency model alias
            (insert_field "model" (string model) fs)).batch_body
        ≡ get k (object fs)
  unfolding build_request plain_fields get
  build_request-others provider key idempotency model alias fs k h =
      get_field-insert_other k "store" _ _ h.3
      ∙ get_field-remove_other k "stream_options" _ h.2
      ∙ get_field-insert_other k "stream" _ _ h.1
      ∙ get_field-insert_other k "model" _ fs h.0

  build_request-Batches :
      (provider key : String) (idempotency : Option String) (model : String) (alias : Bool)
      (fs : Fields)
      → is_empty model ≡ false
      → and_then (get "model" (object fs)) as_str ≡ some (caller_model (model, alias))
      → Batches (object fs) (
          build_request crates provider key idempotency model alias
            (insert_field "model" (string model) fs))
  unfolding build_request plain_fields get
  build_request-Batches provider key idempotency model alias fs given asked = record {
    model_given = given;
    model_asked = asked;
    model =
        get_field-insert_other "model" "store" _ _ refl
        ∙ get_field-remove_other "model" "stream_options" _ refl
        ∙ get_field-insert_other "model" "stream" _ _ refl
        ∙ get_field-insert_field "model" (string model) fs;
    stream =
        get_field-insert_other "stream" "store" _ _ refl
        ∙ get_field-remove_other "stream" "stream_options" _ refl
        ∙ get_field-insert_field "stream" (boolean false) _;
    store_off = get_field-insert_field "store" (boolean false) _;
    others = build_request-others provider key idempotency model alias fs;
  }

  identify-Batches :
      (model : String) (alias : Bool) (fs : Fields) {r : NormalizedRequest}
      → is_empty model ≡ false
      → and_then (get "model" (object fs)) as_str ≡ some (caller_model (model, alias))
      → identify crates provider_namespace headers model alias
          (insert_field "model" (string model) fs)
        ≡ ok r
      → Batches (object fs) r
  unfolding identify
  identify-Batches model alias fs given asked e =
      let gs = insert_field "model" (string model) fs in
      let (checked, e₁, f₁) = bind-ok (check_batchable gs) _ e in
      let (session, e₂, f₂) = bind-ok (identity_header headers session_header) _ f₁ in
      let (idempotency, e₃, f₃) = bind-ok (identity_header headers idempotency_header) _ f₂ in
      let (key, e₄, f₄) =
        bind-ok (ok_or (durable_session_key crates session idempotency gs) missing_identity) _ f₃ in
      let (provider, e₅, f₅) =
        bind-ok (canonical_provider_url crates.urls provider_namespace) _ f₄ in
      subst (Batches (object fs)) (cc f₅)
        (build_request-Batches provider key idempotency model alias fs given asked)

  normalize_model-Batches :
      (fs : Fields) (named : String × Bool) {r : NormalizedRequest}
      → and_then (get "model" (object fs)) as_str ≡ some (caller_model named)
      → normalize_model crates provider_namespace headers fs named ≡ ok r
      → Batches (object fs) r
  normalize_model-Batches fs (model, alias) asked e = elim (Bool-cases (is_empty model)) [
    | inl h ↦ cc (rw h at e)
    | inr h ↦ identify-Batches model alias fs h asked (rw h at e)
  ]

filter_option-some {ℓ} :
    {A : Type ℓ} (test : A → Bool) (o : Option A) {a : A}
    → filter_option test o ≡ some a
    → o ≡ some a
filter_option-some test none e = cc
filter_option-some test (some b) e = ground arith

requested_model-asked :
    (fs : Fields) (s : String)
    → requested_model fs ≡ some s
    → and_then (get "model" (object fs)) as_str ≡ some s
unfolding get
requested_model-asked fs s e = filter_option-some _ (and_then (get_field "model" fs) as_str) e

-- A durable request asks for the model that the caller named, less the virtual alias, and its body
-- is the caller's with that model, without streaming or storing, and otherwise unchanged.
pub from_headers-Batches :
    (crates : Crates) (body : Value) (provider_namespace : String) (headers : List Header)
    (r : NormalizedRequest)
    → from_headers crates body provider_namespace headers ≡ ok r
    → Batches body r
unfolding from_headers
from_headers-Batches crates (object fs) provider_namespace headers r e =
    let (requested, found, rest) = bind-ok (ok_or (requested_model fs) missing_model) _ e in
    normalize_model-Batches crates headers provider_namespace fs (model_alias requested)
      (requested_model-asked fs requested (ok_or-ok (requested_model fs) missing_model found)
        ∙ ap some (sym (caller_model-model_alias requested)))
      rest
from_headers-Batches crates _ provider_namespace headers r e = cc
