-- ===== src/Request/Normalize.antt =====
-- src/request.rs: `batch_supported`, `upstream_body` and `NormalizedRequest::from_headers`. SHA-256,
-- the url crate and serde_json's texts are parameters.
use Prim.Native.Char.{code}
use kaiion.Prelude.{
  ℕ, String, Bool, true, false, not, ◌&&◌, ◌||◌, ◌==◌, Option, none, some, List, [], ◌∷◌, ◌++◌,
  Result, ok, err, ◌>>=◌, concat, blank, is_empty, strip_prefix, is_some, is_some_and,
  filter_option, or_else, ok_or, map_err, and_then, map_option, unwrap_or, if◌then◌else◌,
}
use kaiion.Json.{
  Value, Fields, Codec, boolean, string, object, get, get_field, insert_field, as_str, as_object,
  is_null,
}
use kaiion.Http.{Header}
use kaiion.Errors.{ProxyError, bad_request}
use kaiion.Request.Bytes.{utf8, hash_component, hex_digest}
use kaiion.Request.Headers.{UpstreamAuth, identity_header, session_header, idempotency_header}

-- What the code asks of the url crate.
pub record Urls : Type 1 where
  pub Url : Type 0
  pub parse : String → Result String Url
  pub has_query : Url → Bool
  pub has_fragment : Url → Bool
  pub path : Url → String
  pub set_path : String → Url → Url
  pub shown : Url → String

-- The crates that a normalization calls.
pub record Crates : Type 1 where
  pub sha256 : List ℕ → List ℕ
  pub urls : Urls
  pub codec : Codec

-- `trim_end_matches('/')`
abbrev keep_slash : ℕ → (trimmed : String) → Bool
keep_slash c trimmed = (c == 0x2f) && is_empty trimmed

unfoldable pub trim_slashes : String → String
trim_slashes String.[] = ""
trim_slashes (String.◌∷◌ c s) =
    let rest = trim_slashes s in if keep_slash (code c) rest then "" else String.◌∷◌ c rest

abbrev trimmed_url : (urls : Urls) → urls.Url → Result ProxyError String
trimmed_url urls url =
    if urls.has_query url || urls.has_fragment url
    then err (bad_request "upstream provider URL cannot contain a query or fragment")
    else ok (trim_slashes (urls.shown (urls.set_path (trim_slashes (urls.path url)) url)))

unfoldable pub canonical_provider_url : Urls → String → Result ProxyError String
canonical_provider_url urls value =
    map_err (λ e. bad_request (concat ("invalid upstream provider URL: " ∷ e ∷ [])))
      (urls.parse value)
    >>= trimmed_url urls

-- The provider's name of a model, and whether the caller used the virtual alias.
unfoldable pub model_alias : String → String × Bool
model_alias model = elim (strip_prefix "async-" model) [
  | some stripped ↦ (stripped, true)
  | none ↦ (model, false)
]

abbrev pub not_object : ProxyError
not_object = bad_request "Responses request must be a JSON object"

abbrev pub no_alias_target : ProxyError
no_alias_target = bad_request "async- model alias must include an upstream model name"

abbrev set_upstream_model : Fields → String × Bool → Result ProxyError Value
set_upstream_model fs (model, alias) =
    if alias && is_empty model
    then err no_alias_target
    else ok (object (insert_field "model" (string model) fs))

abbrev set_upstream : Fields → Option String → Result ProxyError Value
set_upstream fs none = ok (object fs)
set_upstream fs (some model) = set_upstream_model fs (model_alias model)

unfoldable pub upstream_body : Value → Result ProxyError Value
upstream_body body = do
  fs ← ok_or (as_object body) not_object
  set_upstream fs (and_then (get_field "model" fs) as_str)

-- `is_some_and(|value| !value.is_boolean())` and its like
abbrev is_boolean : Value → Bool
is_boolean (boolean b) = true
is_boolean _ = false

abbrev is_false : Value → Bool
is_false (boolean false) = true
is_false _ = false

abbrev pub bad_stream : Fields → Bool
bad_stream fs = is_some_and (get_field "stream" fs) (λ v. not (is_boolean v))

abbrev pub bad_store : Fields → Bool
bad_store fs = is_some_and (get_field "store" fs) (λ v. not (is_false v))

abbrev pub bad_previous : Fields → Bool
bad_previous fs = is_some_and (get_field "previous_response_id" fs) (λ v. not (is_null v))

abbrev pub bad_conversation : Fields → Bool
bad_conversation fs = is_some_and (get_field "conversation" fs) (λ v. not (is_null v))

abbrev pub bad_background : Fields → Bool
bad_background fs = is_some_and (get_field "background" fs) (λ v. not (is_false v))

-- The model that the caller asked for, where it is a text that is not empty.
abbrev pub requested_model : Fields → Option String
requested_model fs = filter_option (λ s. not (is_empty s)) (and_then (get_field "model" fs) as_str)

-- A field of the metadata that is a text and not blank.
abbrev filled : String → Fields → Option String
filled key metadata = filter_option (λ s. not (blank s)) (and_then (get_field key metadata) as_str)

-- The thread, or else the session, that the client's metadata names.
unfoldable pub extract_thread_id : (client_metadata : Option Value) → Option String
extract_thread_id client_metadata =
    and_then (and_then client_metadata as_object)
      (λ metadata. or_else (filled "thread_id" metadata) (filled "session_id" metadata))

abbrev turn_of : (client_metadata : Option Value) → String
turn_of client_metadata =
    unwrap_or
      (and_then (and_then client_metadata as_object)
        (λ metadata. and_then (get_field "turn_id" metadata) as_str))
      "-"

-- The bytes that `UpstreamAuth::fingerprint` hashes.
abbrev pub optional_component : (name : String) → Option String → List ℕ
optional_component name none = []
optional_component name (some value) = hash_component name value

unfoldable pub fingerprint_input : UpstreamAuth → List ℕ
fingerprint_input auth =
    hash_component "authorization" auth.authorization
    ++ (optional_component "organization" auth.organization
        ++ optional_component "project" auth.project)

-- The guards of `batch_supported`.
unfoldable pub batch_fields : Fields → Bool
batch_fields fs =
    is_some_and (requested_model fs) (λ model. not (is_empty (model_alias model).0))
    && (not (bad_stream fs)
        && (not (bad_store fs)
            && (not (bad_previous fs) && (not (bad_conversation fs) && not (bad_background fs)))))

module _ (crates : Crates) where
  unfoldable pub extract_session_key : (client_metadata : Option Value) → Option String
  extract_session_key client_metadata =
      map_option
        (λ thread. hex_digest (crates.sha256 (utf8 thread ++ (0 ∷ utf8 (turn_of client_metadata)))))
        (extract_thread_id client_metadata)

  -- `UpstreamAuth::fingerprint`
  unfoldable pub fingerprint : UpstreamAuth → String
  fingerprint auth = hex_digest (crates.sha256 (fingerprint_input auth))

  unfoldable pub scheduling_session_id : Value → List Header → Result ProxyError (Option String)
  scheduling_session_id body headers = do
    session ← identity_header headers session_header
    ok (
        map_option (λ value. hex_digest (crates.sha256 (hash_component "scheduler-session" value)))
          (or_else session (extract_thread_id (get "client_metadata" body))))

  abbrev pub has_identity : Fields → List Header → Result ProxyError Bool
  has_identity fs headers = do
    session ← identity_header headers session_header
    idempotency ← identity_header headers idempotency_header
    ok (
        is_some session
        || (is_some (extract_session_key (get_field "client_metadata" fs)) || is_some idempotency))

  unfoldable pub batch_supported : Value → List Header → Result ProxyError Bool
  batch_supported (object fs) headers =
      if batch_fields fs then has_identity fs headers else ok false
  batch_supported _ headers = ok false
