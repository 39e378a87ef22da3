-- ===== src/Request/Inputs.antt =====
-- src/request.rs: what the scheduler and the usage tracker read of requests and responses.
use kaiion.Prelude.{
  ℕ, ◌+◌, ◌/◌, String, Bool, true, false, ◌||◌, Option, none, some, List, [], ◌∷◌, str_eq, any,
  is_some_and, or_else, and_then, map_option, unwrap_or, ltb, if◌then◌else◌, length, min,
}
use kaiion.Json.{
  Value, Items, Fields, Codec, null, boolean, number, string, array, object, nil, cons, end, field,
  get, get_field, as_str, as_u64, as_object,
}
use kaiion.Request.Bytes.{utf8}

-- The bytes of the texts of the values that count as input.
abbrev pub input_bytes : Codec → Value → List String → ℕ
input_bytes c body [] = 0
input_bytes c body (key ∷ keys) =
    unwrap_or (map_option (λ v. length (utf8 (c.print v))) (get key body)) 0
    + input_bytes c body keys

-- `(bytes as u64).div_ceil(3).saturating_add(32)`
unfoldable pub tokens_of_bytes : ℕ → ℕ
tokens_of_bytes bytes = min ((bytes + 2) / 3 + 32) 0xffffffffffffffff

-- `estimate_input_tokens` of src/routing.rs, and the first half of `estimate_tokens`
unfoldable pub estimate_input_tokens : Codec → Value → ℕ
estimate_input_tokens c body =
    tokens_of_bytes (input_bytes c body ("instructions" ∷ "input" ∷ "tools" ∷ "text" ∷ []))

unfoldable pub estimate_tokens : Codec → Value → ℕ × ℕ
estimate_tokens c body =
    (estimate_input_tokens c body, unwrap_or (and_then (get "max_output_tokens" body) as_u64) 0)

abbrev pub last_item : Items → Option Value
last_item nil = none
last_item (cons v nil) = some v
last_item (cons v vs) = last_item vs

unfoldable pub latest_input : Value → Option Value
latest_input body = elim (get "input" body) [ some (array items) ↦ last_item items | value ↦ value ]

-- `object.get("type")` is one of the accepted kinds.
abbrev pub has_type : List String → Fields → Bool
has_type accepted fs =
    is_some_and (and_then (get_field "type" fs) as_str) (λ kind. any (str_eq kind) accepted)

unfoldable mutual
  pub contains_item_type : List String → Value → Bool
  contains_item_type accepted (array items) = items_contain accepted items
  contains_item_type accepted (object fs) = has_type accepted fs || fields_contain accepted fs
  contains_item_type accepted null = false
  contains_item_type accepted (boolean b) = false
  contains_item_type accepted (number n) = false
  contains_item_type accepted (string s) = false

  pub items_contain : List String → Items → Bool
  items_contain accepted nil = false
  items_contain accepted (cons v vs) = contains_item_type accepted v || items_contain accepted vs

  pub fields_contain : List String → Fields → Bool
  fields_contain accepted end = false
  fields_contain accepted (field k v fs) =
      contains_item_type accepted v || fields_contain accepted fs

unfoldable pub is_tool_output : Value → Bool
unfolding contains_item_type
is_tool_output body =
    is_some_and (latest_input body)
      (contains_item_type ("function_call_output" ∷ "tool_result" ∷ "tool_output" ∷ []))

abbrev pub field_is : (key text : String) → Fields → Bool
field_is key text fs = is_some_and (and_then (get_field key fs) as_str) (λ s. str_eq s text)

-- `content_has_marker` follows the "content" of an object to its value.
unfoldable mutual
  pub contains_user_marker : Value → Bool
  contains_user_marker (array items) = items_have_marker items
  contains_user_marker (object fs) =
      field_is "role" "user" fs || (field_is "type" "input_text" fs || content_has_marker fs)
  contains_user_marker (string s) = true
  contains_user_marker null = false
  contains_user_marker (boolean b) = false
  contains_user_marker (number n) = false

  pub items_have_marker : Items → Bool
  items_have_marker nil = false
  items_have_marker (cons v vs) = contains_user_marker v || items_have_marker vs

  pub content_has_marker : Fields → Bool
  content_has_marker end = false
  content_has_marker (field k v fs) =
      if str_eq k "content" then contains_user_marker v else content_has_marker fs

abbrev is_string : Value → Bool
is_string (string s) = true
is_string _ = false

unfoldable pub is_user_prompt : Value → Bool
is_user_prompt body =
    if is_tool_output body
    then false
    else if is_some_and (get "input" body) is_string
    then true
    else is_some_and (latest_input body) contains_user_marker

-- Input tokens, output tokens, and whether any of the input came from the provider's cache.
abbrev pub ResponseUsage : Type 0
ResponseUsage = Option ℕ × Option ℕ × Option Bool

abbrev pub no_usage : ResponseUsage
no_usage = (none, none, none)

abbrev pub usage_of : Value → ResponseUsage
usage_of usage = (
  and_then (get "input_tokens" usage) as_u64,
  and_then (get "output_tokens" usage) as_u64,
  map_option (λ tokens. ltb 0 tokens)
      (and_then (and_then (get "input_tokens_details" usage) (get "cached_tokens")) as_u64),
)

unfoldable pub response_usage : Value → ResponseUsage
response_usage value =
    unwrap_or
      (map_option usage_of (
        or_else (and_then (and_then (get "response" value) as_object) (get_field "usage"))
          (get "usage" value)))
      no_usage
