-- ===== src/Openai.antt =====
-- src/openai.rs: the errors of the provider client, what it reads of a batch, and the operations
-- that the driver calls.
pub mod Headers
pub mod Paging
pub mod Content
use kaiion.Prelude.{
  ℕ, String, Bool, true, false, ◌||◌, ◌&&◌, Option, [], ◌∷◌, Result, err, concat, ltb, leb, ◌==◌,
  if◌then◌else◌,
}
use kaiion.Json.{Value}

-- An HTTP status with the text that `{status}` prints.
pub record StatusCode : Type 0 where
  pub code : ℕ
  pub shown : String

pub data ProviderError : Type 0 where
  transport : String → ProviderError
  retryable_http permanent_http output_not_visible : StatusCode → String → ProviderError
  protocol : String → ProviderError

abbrev pub retryable : ProviderError → Bool
retryable (transport m) = true
retryable (retryable_http s b) = true
retryable (output_not_visible s b) = true
retryable _ = false

-- The `Display` that thiserror derives.
unfoldable pub error_text : ProviderError → String
error_text (transport m) = concat ("provider transport failure: " ∷ m ∷ [])
error_text (retryable_http s b) =
    concat ("provider returned retryable HTTP " ∷ s.shown ∷ ": " ∷ b ∷ [])
error_text (permanent_http s b) =
    concat ("provider returned permanent HTTP " ∷ s.shown ∷ ": " ∷ b ∷ [])
error_text (protocol m) = concat ("provider protocol violation: " ∷ m ∷ [])
error_text (output_not_visible s b) =
    concat ("provider output file is not visible yet (HTTP " ∷ s.shown ∷ "): " ∷ b ∷ [])

pub record BatchObject : Type 0 where
  pub id : String
  pub status : String
  pub output_file_id : Option String
  pub error_file_id : Option String
  pub metadata : Option Value

-- `StatusCode::is_success`
abbrev pub is_success : StatusCode → Bool
is_success s = leb 200 s.code && ltb s.code 300

-- `StatusCode::is_server_error`
abbrev pub is_server_error : StatusCode → Bool
is_server_error s = leb 500 s.code && ltb s.code 600

unfoldable pub classify_status {ℓ} : {A : Type ℓ} → StatusCode → String → Result ProviderError A
classify_status status body =
    if is_success status
    then err (protocol "successful response could not be decoded")
    else if (status.code == 429) || is_server_error status
    then err (retryable_http status body)
    else err (permanent_http status body)
