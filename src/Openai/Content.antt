-- ===== src/Openai/Content.antt =====
-- src/openai.rs: reading the provider's answers: `parse_json` and `get_file_content`, on a response
-- whose bytes have arrived; and the addresses and credentials of a request.
use Prim.Native.Char.{code}
use kaiion.Prelude.{
  ℕ, String, Bool, not, ◌&&◌, ◌||◌, ◌==◌, ◌≡◌, Option, none, some, List, [], ◌∷◌, ◌++◌, Result, ok,
  err, map_err, concat, leb, ltb, arith, if◌then◌else◌,
}
use kaiion.Http.{Header, header}
use kaiion.Openai.{
  StatusCode, ProviderError, protocol, output_not_visible, retryable, is_success, classify_status,
}
use kaiion.Request.Headers.{UpstreamAuth}

abbrev optional_entry : (name : String) → Option String → List Header
optional_entry name none = []
optional_entry name (some value) = header name value ∷ []

-- `with_auth`
unfoldable with_auth : UpstreamAuth → List Header
with_auth auth =
    header "authorization" auth.authorization
    ∷ (optional_entry "openai-organization" auth.organization
        ++ optional_entry "openai-project" auth.project)

-- `path.trim_start_matches('/')`
unfoldable trim_leading : String → String
trim_leading String.[] = ""
trim_leading (String.◌∷◌ c s) =
    let rest = trim_leading s in if code c == 0x2f then rest else String.◌∷◌ c s

unfoldable url : (base_url path : String) → String
url base_url path = concat (base_url ∷ "/" ∷ trim_leading path ∷ [])

-- A response: its body is read as UTF-8, strictly or with replacements, and as JSON of some type.
pub record Response {ℓ} (A : Type ℓ) : Type ℓ where
  pub status : StatusCode
  pub utf8_text : Result String String
  pub lossy_text : String
  pub decoded : Result String A

unfoldable parse_json {ℓ} : {A : Type ℓ} → Response A → Result ProviderError A
unfolding classify_status
parse_json r =
    if not (is_success r.status)
    then classify_status r.status r.lossy_text
    else map_err (λ e. protocol (concat ("invalid JSON payload: " ∷ e ∷ []))) r.decoded

abbrev read_content : StatusCode → String → Result ProviderError String
read_content status body =
    if (status.code == 404) || (status.code == 409)
    then err (output_not_visible status body)
    else if is_success status
    then ok body
    else classify_status status body

-- `get_file_content`, once the response is there.
unfoldable pub get_file_content {ℓ} : {A : Type ℓ} → Response A → Result ProviderError String
unfolding classify_status
get_file_content r = elim r.utf8_text [
  | ok body ↦ read_content r.status body
  | err e ↦ err (protocol (concat ("non-UTF-8 file content: " ∷ e ∷ [])))
]

-- The statuses after which the driver asks again.
abbrev pub passes : ℕ → Bool
passes code = (code == 404) || ((code == 409) || ((code == 429) || (leb 500 code && ltb code 600)))

read_content-passes :
    (status : StatusCode) (body : String) (e : ProviderError)
    → read_content status body ≡ err e
    → retryable e ≡ passes status.code
unfolding classify_status
read_content-passes status body e h = ground arith

-- Where a file's content is UTF-8, a refusal to give it is one that the driver retries exactly when
-- the status is 404, 409, 429 or a server error.
pub get_file_content-passes :
    {A : Type 0} (r : Response A) (body : String) (e : ProviderError)
    → r.utf8_text ≡ ok body
    → get_file_content r ≡ err e
    → retryable e ≡ passes r.status.code
unfolding get_file_content
get_file_content-passes r body e text h = read_content-passes r.status body e (rw text at h)
