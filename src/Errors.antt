-- ===== src/Errors.antt =====
-- src/error.rs: the errors of the proxy's handlers, and the response each is turned into.
use kaiion.Prelude.{
  ℕ, String, Bool, ◌≡◌, refl, ◌↔◌, ap, ◌∙◌, sym, [], ◌∷◌, concat, str_eq, ◌==◌, if◌then◌else◌,
}
use kaiion.Json.{Value, string, object, fields}
use kaiion.Db.Rows.{PersistenceError, persistence_text}

-- What the code asks of a `reqwest::Error`: its text and `is_connect()`.
pub record TransportError : Type 0 where
  pub shown : String
  pub is_connect : Bool

-- The errors of SQLx and serde_json stand as their texts.
pub data ProxyError : Type 0 where
  bad_request : String → ProxyError
  unauthorized not_found : ProxyError
  conflict : String → ProxyError
  persistence : PersistenceError → ProxyError
  database migration : String → ProxyError
  transport : TransportError → ProxyError
  json internal : String → ProxyError

-- The `Display` that thiserror derives.
unfoldable pub proxy_text : ProxyError → String
proxy_text (bad_request m) = m
proxy_text unauthorized = "missing Authorization header"
proxy_text not_found = "job not found"
proxy_text (conflict m) = m
proxy_text (persistence e) = persistence_text e
proxy_text (database m) = concat ("database error: " ∷ m ∷ [])
proxy_text (migration m) = concat ("database migration error: " ∷ m ∷ [])
proxy_text (transport e) = concat ("upstream transport error: " ∷ e.shown ∷ [])
proxy_text (json m) = concat ("JSON error: " ∷ m ∷ [])
proxy_text (internal m) = concat ("internal error: " ∷ m ∷ [])

unfoldable pub error_code : ProxyError → String
error_code (bad_request m) = "invalid_request"
error_code unauthorized = "unauthorized"
error_code not_found = "not_found"
error_code (conflict m) = "conflict"
error_code (transport e) = "upstream_transport_error"
error_code (persistence e) = "internal_error"
error_code (database m) = "internal_error"
error_code (migration m) = "internal_error"
error_code (json m) = "internal_error"
error_code (internal m) = "internal_error"

unfoldable pub error_status : ProxyError → ℕ
error_status (bad_request m) = 400
error_status unauthorized = 401
error_status not_found = 404
error_status (conflict m) = 409
error_status (transport e) = 502
error_status (persistence e) = 500
error_status (database m) = 500
error_status (migration m) = 500
error_status (json m) = 500
error_status (internal m) = 500

-- The body that every error answer of the proxy has.
abbrev pub error_body : (message code : String) → Value
error_body message code = object (
    fields (
      (
        "error",
        object (
            fields (
              ("message", string message)
              ∷ ("type", string "kaiion_error")
              ∷ ("code", string code)
              ∷ [])),
      )
      ∷ []))

unfoldable pub into_response : ProxyError → ℕ × Value
unfolding error_code error_status proxy_text
into_response e = (error_status e, error_body (proxy_text e) (error_code e))

-- The status that a code is sent with, and the code of a status.
sent_status : String → ℕ
sent_status code =
    if str_eq code "invalid_request"
    then 400
    else if str_eq code "unauthorized"
    then 401
    else if str_eq code "not_found"
    then 404
    else if str_eq code "conflict"
    then 409
    else if str_eq code "upstream_transport_error"
    then 502
    else 500

sent_code : ℕ → String
sent_code status =
    if status == 400
    then "invalid_request"
    else if status == 401
    then "unauthorized"
    else if status == 404
    then "not_found"
    else if status == 409
    then "conflict"
    else if status == 502
    then "upstream_transport_error"
    else "internal_error"

error_status-of_code : (e : ProxyError) → error_status e ≡ sent_status (error_code e)
unfolding error_status error_code sent_status
error_status-of_code (bad_request m) = refl
error_status-of_code unauthorized = refl
error_status-of_code not_found = refl
error_status-of_code (conflict m) = refl
error_status-of_code (persistence e) = refl
error_status-of_code (database m) = refl
error_status-of_code (migration m) = refl
error_status-of_code (transport e) = refl
error_status-of_code (json m) = refl
error_status-of_code (internal m) = refl

error_code-of_status : (e : ProxyError) → error_code e ≡ sent_code (error_status e)
unfolding error_status error_code sent_code
error_code-of_status (bad_request m) = refl
error_code-of_status unauthorized = refl
error_code-of_status not_found = refl
error_code-of_status (conflict m) = refl
error_code-of_status (persistence e) = refl
error_code-of_status (database m) = refl
error_code-of_status (migration m) = refl
error_code-of_status (transport e) = refl
error_code-of_status (json m) = refl
error_code-of_status (internal m) = refl

-- Two errors are answered with the same status exactly when their bodies carry the same code.
pub error_status-iff-error_code :
    (e f : ProxyError) → (error_status e ≡ error_status f) ↔ (error_code e ≡ error_code f)
error_status-iff-error_code e f = (
  λ h. error_code-of_status e ∙ ap sent_code h ∙ sym (error_code-of_status f),
  λ h. error_status-of_code e ∙ ap sent_status h ∙ sym (error_status-of_code f),
)
