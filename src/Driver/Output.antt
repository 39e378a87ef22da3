-- ===== src/Driver/Output.antt =====
-- src/driver.rs: the driver's errors and the reading of batch output files.
use kaiion.Prelude.{
  ℕ, String, Bool, true, false, not, ◌&&◌, Option, none, some, List, [], ◌∷◌, Result, ok, err,
  ◌>>=◌, concat, ltb, leb, str_eq, if◌then◌else◌, is_some_and, filter_option, and_then, ok_or,
  map_err, keep_if, blank, lines,
}
use kaiion.Json.{
  Value, Codec, string, array, object, nil, get, get_str, as_u64, is_null, is_object, fields,
}
use kaiion.Openai.{ProviderError, retryable, error_text}
use kaiion.Db.Rows.{PersistenceError, is_conflict, persistence_text}

pub data DriverError : Type 0 where
  conflict : DriverError
  retry : String → DriverError
  permanent : String → DriverError

unfoldable pub classify_provider : ProviderError → DriverError
classify_provider error =
    if retryable error then retry (error_text error) else permanent (error_text error)

unfoldable pub classify_persistence : PersistenceError → DriverError
classify_persistence error = if is_conflict error then conflict else retry (persistence_text error)

unfoldable pub failed_response : (model message : String) → Value
failed_response model message = object (
    fields (
      ("object", string "response")
      ∷ ("status", string "failed")
      ∷ ("model", string model)
      ∷ ("output", array nil)
      ∷ (
        "error",
        object (
            fields (
              ("code", string "kaiion_batch_failed")
              ∷ ("message", string message)
              ∷ ("type", string "server_error")
              ∷ [])),
      )
      ∷ []))

-- `value.get(key).and_then(Value::as_str) == Some(text)`
abbrev pub says : String → String → Value → Bool
says key text v = is_some_and (get_str key v) (λ s. str_eq s text)

-- `value.get("error").filter(|error| !error.is_null())`
abbrev pub record_error : Value → Option Value
record_error v = filter_option (λ e. not (is_null e)) (get "error" v)

-- `content.lines().filter(|line| !line.trim().is_empty())`
abbrev pub records : String → List String
records content = keep_if (λ line. not (blank line)) (lines content)

-- The body of a response, by its status code.
unfoldable pub read_body : Codec → (model : String) → ℕ → Value → Result DriverError Value
unfolding failed_response
read_body c model status body =
    if not (leb 200 status && ltb status 300)
    then ok (failed_response model (c.print body))
    else if not (is_object body)
    then err (permanent "batch response body is not a JSON object")
    else ok body

-- The response of a record without an error.
unfoldable pub read_response : Codec → (model : String) → Value → Result DriverError Value
unfolding read_body
read_response c model value = do
  response ← ok_or (get "response" value) (permanent "batch output record is missing response")
  status ←
      ok_or (and_then (get "status_code" response) as_u64)
        (permanent "batch output response is missing status_code")
  body ← ok_or (get "body" response) (permanent "batch output response is missing body")
  read_body c model status body

-- What the loop returns at the record with the wanted custom_id.
unfoldable pub read_record : Codec → (model : String) → Value → Result DriverError Value
unfolding read_response
read_record c model value = elim (record_error value) [
  | some error ↦ ok (failed_response model (c.print error))
  | none ↦ read_response c model value
]

-- The loop over the lines; `saw_record` is the flag of that name.
unfoldable pub scan_output :
    Codec
    → (custom_id model : String) → (saw_record : Bool) → List String
    → Result DriverError Value
unfolding read_record
scan_output c custom_id model saw_record [] = err (
    permanent (
      if saw_record
      then concat ("batch output does not contain custom_id " ∷ custom_id ∷ [])
      else "batch output is empty"))
scan_output c custom_id model saw_record (line ∷ rest) =
    let later = scan_output c custom_id model true rest in
    map_err (λ e. permanent (concat ("provider returned malformed batch JSONL: " ∷ e ∷ [])))
      (c.parse line)
    >>= λ value. if says "custom_id" custom_id value then read_record c model value else later

unfoldable pub parse_batch_output :
    Codec → (content custom_id model : String) → Result DriverError Value
unfolding scan_output lines
parse_batch_output c content custom_id model = scan_output c custom_id model false (records content)

-- `value.pointer("/response/body").filter(|body| body.is_object())`
abbrev pub response_body : Value → Option Value
response_body v = filter_option is_object (and_then (get "response" v) (get "body"))

-- What the loop returns at the wanted record, if it returns there.
unfoldable pub error_record : (model : String) → Value → Option Value
error_record model value = elim (record_error value) [
  | some error ↦ some (
      object (
        fields (
          ("object", string "response")
          ∷ ("status", string "failed")
          ∷ ("model", string model)
          ∷ ("output", array nil)
          ∷ ("error", error)
          ∷ [])))
  | none ↦ response_body value
]

unfoldable pub scan_errors : Codec → (content custom_id model : String) → List String → Value
unfolding error_record failed_response
scan_errors c content custom_id model [] = failed_response model content
scan_errors c content custom_id model (line ∷ rest) =
    let later = scan_errors c content custom_id model rest in
    elim (c.parse line) [
      | err e ↦ later
      | ok value ↦
          if says "custom_id" custom_id value
          then elim (error_record model value) [ some v ↦ v | none ↦ later ]
          else later
    ]

unfoldable pub normalize_batch_error : Codec → (content custom_id model : String) → Value
unfolding scan_errors lines
normalize_batch_error c content custom_id model =
    scan_errors c content custom_id model (records content)
