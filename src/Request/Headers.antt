-- ===== src/Request/Headers.antt =====
-- src/request.rs: the credentials, the identity headers and the mode of a request.
use kaiion.Prelude.{
  String, Bool, ◌||◌, Option, none, some, [], ◌∷◌, List, Result, ok, err, ◌>>=◌, concat, blank, ltb,
  length, is_some_and, ok_or, str_eq, if◌then◌else◌, unwrap_or,
}
use kaiion.Http.{HeaderValue, Header, get_header}
use kaiion.Errors.{ProxyError, bad_request, unauthorized}
use kaiion.Request.Bytes.{utf8}

-- src/config.rs: `Mode`
pub data Mode : Type 0 where
  batch direct auto : Mode

abbrev pub mode_header : String
mode_header = "x-kaiion-mode"

abbrev pub session_header : String
session_header = "x-kaiion-session-id"

abbrev pub idempotency_header : String
idempotency_header = "idempotency-key"

pub record UpstreamAuth : Type 0 where
  pub authorization : String
  pub organization : Option String
  pub project : Option String

-- What `optional_header` makes of the value found.
abbrev pub read_header : (name : String) → Option HeaderValue → Result ProxyError (Option String)
read_header name none = ok none
read_header name (some v) = elim v.to_str [
  | some text ↦ ok (some text)
  | none ↦ err (bad_request (concat ("invalid " ∷ name ∷ " header" ∷ [])))
]

unfoldable pub optional_header : List Header → String → Result ProxyError (Option String)
optional_header headers name = read_header name (get_header name headers)

-- `value.trim().is_empty() || value.len() > 256`
unfoldable pub bad_identity : String → Bool
bad_identity value = blank value || ltb 256 (length (utf8 value))

abbrev pub check_identity : (name : String) → Option String → Result ProxyError (Option String)
check_identity name value =
    if is_some_and value bad_identity
    then err (bad_request (concat (name ∷ " must contain 1 to 256 non-blank bytes" ∷ [])))
    else ok value

unfoldable pub identity_header : List Header → String → Result ProxyError (Option String)
identity_header headers name = do value ← optional_header headers name; check_identity name value

-- `UpstreamAuth::from_headers`
unfoldable pub auth_of : List Header → Result ProxyError UpstreamAuth
auth_of headers = do
  value ← ok_or (get_header "authorization" headers) unauthorized
  authorization ← ok_or value.to_str unauthorized
  organization ← optional_header headers "openai-organization"
  project ← optional_header headers "openai-project"
  ok (record { authorization = authorization; organization = organization; project = project })

abbrev pub mode_of : (debug : String → String) → String → Result ProxyError Mode
mode_of debug value =
    if str_eq value "batch"
    then ok batch
    else if str_eq value "direct"
    then ok direct
    else if str_eq value "auto"
    then ok auto
    else err (
        bad_request (
          concat (
            "invalid "
            ∷ mode_header
            ∷ " value "
            ∷ debug value
            ∷ "; expected batch, direct or auto"
            ∷ [])))

-- `debug` is Rust's `{:?}` of a `str`.
unfoldable pub resolve_mode :
    (debug : String → String) → List Header → (default : Mode) → Result ProxyError Mode
resolve_mode debug headers default = elim (get_header mode_header headers) [
  | none ↦ ok default
  | some value ↦ mode_of debug (unwrap_or value.to_str "")
]
