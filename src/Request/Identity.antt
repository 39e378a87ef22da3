-- ===== src/Request/Identity.antt =====
-- src/request.rs: `NormalizedRequest::from_headers`.
use kaiion.Prelude.{
  ℕ, String, Bool, true, false, ◌||◌, Option, none, some, List, [], ◌∷◌, ◌++◌, Result, ok, err,
  ◌>>=◌, ◌>>◌, concat, is_empty, or_else, ok_or, map_option, if◌then◌else◌,
}
use kaiion.Json.{
  Value, Fields, boolean, string, object, get_field, insert_field, remove_field, as_object,
}
use kaiion.Http.{Header}
use kaiion.Errors.{ProxyError, bad_request}
use kaiion.Db.Requests.{NormalizedRequest}
use kaiion.Request.Bytes.{utf8, hash_component, hash_bytes, hex_digest}
use kaiion.Request.Headers.{identity_header, session_header, idempotency_header}
use kaiion.Request.Normalize.{
  Crates, canonical_provider_url, model_alias, not_object, requested_model, bad_stream, bad_store,
  bad_previous, bad_conversation, bad_background, extract_session_key,
}

abbrev pub missing_model : ProxyError
missing_model = bad_request "missing model"

abbrev pub missing_identity : ProxyError
missing_identity =
    bad_request
      "batch mode requires Idempotency-Key, X-Kaiion-Session-Id, client_metadata.thread_id or client_metadata.session_id for restart-safe request identity"

-- `if test { return Err(..) }`
abbrev pub refuse : Bool → (message : String) → Result ProxyError (Unit {0})
refuse true message = err (bad_request message)
refuse false message = ok tt

-- The guards on the fields of the body.
unfoldable pub check_batchable : Fields → Result ProxyError (Unit {0})
check_batchable fs =
    refuse (bad_stream fs) "stream must be a boolean"
    >> refuse (bad_store fs) "batch mode does not support store=true"
    >> refuse (bad_previous fs) "batch mode does not support previous_response_id"
    >> refuse (bad_conversation fs || bad_background fs)
        "batch mode does not support conversation or background=true"

-- The object as it stands when its fingerprint is taken.
unfoldable pub plain_fields : Fields → Fields
plain_fields fs = remove_field "stream_options" (insert_field "stream" (boolean false) fs)

-- The metadata without what changes from one try to the next.
abbrev pub stable_metadata : Fields → Fields
stable_metadata metadata =
    remove_field "x-codex-turn-metadata" (remove_field "x-codex-window-id" metadata)

abbrev pub stable_fields : Option Value → Fields → Fields
stable_fields (some (object metadata)) fs =
    insert_field "client_metadata" (object (stable_metadata metadata)) fs
stable_fields _ fs = fs

unfoldable pub remove_volatile_codex_metadata : Fields → Fields
remove_volatile_codex_metadata fs = stable_fields (get_field "client_metadata" fs) fs

abbrev pub session_text : String → String
session_text value = concat ("session-header:" ∷ value ∷ [])

abbrev pub idempotency_text : String → String
idempotency_text value = concat ("idempotency:" ∷ value ∷ [])

-- What the hasher has been fed before the request.
unfoldable pub scope_input : (provider session : String) → Option String → List ℕ
scope_input provider session none =
    hash_component "provider" provider ++ hash_component "session" session
scope_input provider session (some key) =
    hash_component "provider" provider
    ++ (hash_component "session" session ++ hash_component "idempotency" key)

unfoldable pub request_input :
    (provider session : String) → Option String → (encoded : List ℕ) → List ℕ
request_input provider session idempotency encoded =
    scope_input provider session idempotency ++ hash_bytes (utf8 "request") encoded

module _ (crates : Crates) where
  unfoldable pub durable_session_key :
      (session idempotency : Option String) → Fields → Option String
  durable_session_key session idempotency fs = or_else (map_option session_text session) (
      or_else (extract_session_key crates (get_field "client_metadata" fs))
        (map_option idempotency_text idempotency))

  abbrev pub idempotency_hash_of : (provider session : String) → Option String → Option String
  idempotency_hash_of provider session idempotency =
      map_option
        (λ key. hex_digest (
          crates.sha256 (
            scope_input provider session (some key) ++ hash_component "identity" "idempotency-v1")))
        idempotency

  -- The request, once everything has been checked.
  unfoldable pub build_request :
      (provider session : String)
      → Option String
      → (model : String) → Bool
      → Fields
      → NormalizedRequest
  build_request provider session idempotency model async_alias fs = record {
    batch_body = object (insert_field "store" (boolean false) (plain_fields fs));
    request_hash = hex_digest (
        crates.sha256 (
          request_input provider session idempotency (
            utf8
              (crates.codec.print (object (remove_volatile_codex_metadata (plain_fields fs)))))));
    model = model;
    async_alias = async_alias;
    idempotency_hash = idempotency_hash_of provider session idempotency;
  }

  -- From the model on; `fs` is the object with its model replaced.
  unfoldable pub identify :
      (provider_namespace : String)
      → List Header
      → (model : String) → Bool
      → Fields
      → Result ProxyError NormalizedRequest
  identify provider_namespace headers model async_alias fs = do
    checked ← check_batchable fs
    session ← identity_header headers session_header
    idempotency ← identity_header headers idempotency_header
    key ← ok_or (durable_session_key session idempotency fs) missing_identity
    provider ← canonical_provider_url crates.urls provider_namespace
    ok (build_request provider key idempotency model async_alias fs)

  abbrev pub normalize_model :
      (provider_namespace : String)
      → List Header
      → Fields
      → String × Bool
      → Result ProxyError NormalizedRequest
  normalize_model provider_namespace headers fs (model, async_alias) =
      if is_empty model
      then err missing_model
      else identify provider_namespace headers model async_alias
          (insert_field "model" (string model) fs)

  unfoldable pub from_headers :
      Value → (provider_namespace : String) → List Header → Result ProxyError NormalizedRequest
  from_headers body provider_namespace headers = do
    fs ← ok_or (as_object body) not_object
    requested ← ok_or (requested_model fs) missing_model
    normalize_model provider_namespace headers fs (model_alias requested)
