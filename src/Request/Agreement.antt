-- ===== src/Request/Agreement.antt =====
-- src/request.rs: `batch_supported` against `NormalizedRequest::from_headers`.
use kaiion.Prelude.{
  String, Bool, true, false, ◌≡◌, refl, ◌↔◌, inl, inr, Option, none, some, List, Result, ok, err,
  ◌>>=◌, ◌>>◌, not, ◌&&◌, ◌||◌, Bool-cases, Option-cases, is_some, or_else, map_option, ok_or,
  is_empty, arith,
}
use kaiion.Json.{Value, Fields, string, object, insert_field}
use kaiion.Json.Laws.{get_field-insert_other}
use kaiion.Http.{Header}
use kaiion.Errors.{ProxyError}
use kaiion.Db.Requests.{NormalizedRequest}
use kaiion.Request.Headers.{identity_header, session_header, idempotency_header}
use kaiion.Request.Normalize.{
  Crates, batch_fields, has_identity, batch_supported, bad_stream, bad_store, bad_previous,
  bad_conversation, bad_background, requested_model, model_alias, canonical_provider_url,
}
use kaiion.Request.Identity.{
  refuse, session_text, idempotency_text, check_batchable, durable_session_key, identify,
  normalize_model, from_headers, build_request, missing_identity, missing_model,
}

-- The fields' tests do not look at the model.
check_batchable-insert_model :
    (model : String) (fs : Fields)
    → check_batchable (insert_field "model" (string model) fs) ≡ check_batchable fs
unfolding check_batchable
check_batchable-insert_model model fs =
    rw
      (
        get_field-insert_other "stream" "model" (string model) fs refl,
        get_field-insert_other "store" "model" (string model) fs refl,
        get_field-insert_other "previous_response_id" "model" (string model) fs refl,
        get_field-insert_other "conversation" "model" (string model) fs refl,
        get_field-insert_other "background" "model" (string model) fs refl,
      )
      refl

-- No guard fires.
abbrev is_batchable : Fields → Bool
is_batchable fs =
    not (bad_stream fs)
    && (not (bad_store fs)
        && (not (bad_previous fs) && (not (bad_conversation fs) && not (bad_background fs))))

check_batchable-ok : (fs : Fields) → is_batchable fs ≡ true → check_batchable fs ≡ ok tt
unfolding check_batchable
check_batchable-ok fs h = ground arith

refusals :
    (a b c d e : Bool) (ka kb kc kd : String)
    → (not a && (not b && (not c && (not d && not e)))) ≡ false
    → (x : ProxyError) × ((refuse a ka >> refuse b kb >> refuse c kc >> refuse (d || e) kd) ≡ err x)
refusals true b c d e ka kb kc kd h = (_, refl)
refusals false true c d e ka kb kc kd h = (_, refl)
refusals false false true d e ka kb kc kd h = (_, refl)
refusals false false false true e ka kb kc kd h = (_, refl)
refusals false false false false true ka kb kc kd h = (_, refl)
refusals false false false false false ka kb kc kd h = cc

check_batchable-refuses :
    (fs : Fields) → is_batchable fs ≡ false → (x : ProxyError) × (check_batchable fs ≡ err x)
unfolding check_batchable
check_batchable-refuses fs h =
    refusals (bad_stream fs) (bad_store fs) (bad_previous fs) (bad_conversation fs)
      (bad_background fs) _ _ _ _ h

module _ (crates : Crates) (headers : List Header) (provider_namespace : String) where
  identify-refuses :
      (model : String) (alias : Bool) (fs : Fields)
      → is_batchable fs ≡ false
      → (x : ProxyError) × (identify crates provider_namespace headers model alias
            (insert_field "model" (string model) fs)
          ≡ err x)
  unfolding identify
  identify-refuses model alias fs h =
      let (x, e) = check_batchable-refuses fs h in
      (x, rw (check_batchable-insert_model model fs, e) refl)

  normalize_model-refuses :
      (fs : Fields) (named : String × Bool)
      → (not (is_empty named.0) && is_batchable fs) ≡ false
      → (x : ProxyError) × (normalize_model crates provider_namespace headers fs named ≡ err x)
  normalize_model-refuses fs (model, alias) h = elim (Bool-cases (is_empty model)) [
    | inl e ↦ (missing_model, rw e refl)
    | inr e ↦ rw e (identify-refuses model alias fs (ground arith))
  ]

  -- A body that `batch_supported` turns down is refused.
  from_headers-refuses :
      (fs : Fields)
      → batch_fields fs ≡ false
      → (x : ProxyError) × (from_headers crates (object fs) provider_namespace headers ≡ err x)
  unfolding from_headers batch_fields
  from_headers-refuses fs h = elim (Option-cases (requested_model fs)) [
    | inl e ↦ (missing_model, rw e refl)
    | inr (m, e) ↦ rw e (normalize_model-refuses fs (model_alias m) (rw e at h))
  ]

-- Two reads of identity headers, then a test whether some identity is there, against the choice of
-- the identity itself.
reads-agree :
    (S I : Result ProxyError (Option String)) (k : Option String)
    (build : String → Option String → NormalizedRequest)
    → ((S >>= λ s. I >>= λ i. ok (is_some s || (is_some k || is_some i))) ≡ ok true) ↔ (
        (r : NormalizedRequest) × ((S >>= λ s. I >>= λ i.
        ok_or
          (or_else (map_option session_text s) (or_else k (map_option idempotency_text i)))
          missing_identity
        >>= λ key. ok (build key i))
          ≡ ok r))
reads-agree (err x) I k build = (λ h. cc, λ h. cc)
reads-agree (ok s) (err x) k build = (λ h. cc, λ h. cc)
reads-agree (ok (some s)) (ok i) k build = (λ h. (_, refl), λ h. refl)
reads-agree (ok none) (ok i) (some k) build = (λ h. (_, refl), λ h. refl)
reads-agree (ok none) (ok (some i)) none build = (λ h. (_, refl), λ h. refl)
reads-agree (ok none) (ok none) none build = (λ h. cc, λ h. cc)

module _ (crates : Crates) (headers : List Header) (provider_namespace provider : String)
    (canonical : canonical_provider_url crates.urls provider_namespace ≡ ok provider) where
  identify-agrees :
      (model : String) (alias : Bool) (fs : Fields)
      → is_batchable fs ≡ true
      → (has_identity crates fs headers ≡ ok true) ↔ (
          (r : NormalizedRequest) × (identify crates provider_namespace headers model alias
              (insert_field "model" (string model) fs)
            ≡ ok r))
  unfolding identify durable_session_key
  identify-agrees model alias fs h =
      rw
        (
          check_batchable-insert_model model fs,
          check_batchable-ok fs h,
          canonical,
          get_field-insert_other "client_metadata" "model" (string model) fs refl,
        )
        (reads-agree (identity_header headers session_header)
          (identity_header headers idempotency_header) _
          (λ key i. build_request crates provider key i model alias _))

  normalize_model-agrees :
      (fs : Fields) (named : String × Bool)
      → (not (is_empty named.0) && is_batchable fs) ≡ true
      → (has_identity crates fs headers ≡ ok true) ↔ (
          (r : NormalizedRequest) × (normalize_model crates provider_namespace headers fs named
            ≡ ok r))
  normalize_model-agrees fs (model, alias) h = elim (Bool-cases (is_empty model)) [
    | inl e ↦ cc
    | inr e ↦ rw e (identify-agrees model alias fs (ground arith))
  ]

  object-agrees :
      (fs : Fields)
      → batch_fields fs ≡ true
      → (has_identity crates fs headers ≡ ok true) ↔ (
          (r : NormalizedRequest) × (from_headers crates (object fs) provider_namespace headers
            ≡ ok r))
  unfolding from_headers batch_fields
  object-agrees fs h = elim (Option-cases (requested_model fs)) [
    | inl e ↦ cc
    | inr (m, e) ↦ rw e (normalize_model-agrees fs (model_alias m) (rw e at h))
  ]

-- Where the provider's address is valid, `batch_supported` answers yes exactly when
-- `NormalizedRequest::from_headers` makes a durable request of the same body and headers.
pub batch_supported-iff-from_headers :
    (crates : Crates) (body : Value) (headers : List Header) (provider_namespace provider : String)
    → canonical_provider_url crates.urls provider_namespace ≡ ok provider
    → (batch_supported crates body headers ≡ ok true)
      ↔ ((r : NormalizedRequest) × (from_headers crates body provider_namespace headers ≡ ok r))
unfolding batch_supported from_headers
batch_supported-iff-from_headers crates (object fs) headers ns provider canonical =
    elim (Bool-cases (batch_fields fs)) [
      | inl e ↦ rw e (object-agrees crates headers ns provider canonical fs e)
      | inr e ↦
          let (x, refused) = from_headers-refuses crates headers ns fs e in
          rw (e, refused) (λ h. cc, λ h. cc)
    ]
batch_supported-iff-from_headers crates _ headers ns provider canonical = (λ h. cc, λ h. cc)
