-- ===== src/Sse.antt =====
-- src/sse.rs: the events of a streamed answer. An event is kept as its kind and its JSON until it
-- is written. A sequence number is exact: a u64 counter would have to reach 2 ^ 64.
pub mod Numbers
pub mod Texts
pub mod Deltas
use kaiion.Prelude.{
  ℕ, suc, String, Bool, true, false, Option, none, some, List, [], ◌∷◌, ◌++◌, Result, ok, err,
  ◌>>=◌, concat, str_eq, is_empty, is_some, is_some_and, if◌then◌else◌, unwrap_or, ok_or, and_then,
}
use kaiion.Json.{
  Value, Items, nil, cons, Fields, Codec, null, number, pos_int, string, array, object, get,
  get_str, get_field, insert_field, as_array, as_object, as_str, fields, entries,
}
use kaiion.Errors.{ProxyError, internal}

-- The arguments of `event`.
pub record SseEvent : Type 0 where
  pub kind : String
  pub json : Value

-- `event`: the bytes of one event.
unfoldable pub event_text : Codec → SseEvent → String
event_text c e = concat ("event: " ∷ e.kind ∷ "\ndata: " ∷ c.print e.json ∷ "\n\n" ∷ [])

-- An event whose JSON has its kind and its number first; `json!` keeps keys in order.
unfoldable pub numbered : (kind : String) → (sequence : ℕ) → List (String × Value) → SseEvent
numbered kind sequence rest = record {
  kind = kind;
  json =
      object
        (fields (("type", string kind) ∷ ("sequence_number", number (pos_int sequence)) ∷ rest));
}

unfoldable pub response_stub : (response_id model status : String) → Value
response_stub response_id model status = object (
    fields (
      ("id", string response_id)
      ∷ ("object", string "response")
      ∷ ("created_at", number (pos_int 0))
      ∷ ("status", string status)
      ∷ ("model", string model)
      ∷ ("output", array nil)
      ∷ []))

unfoldable pub created_event : (response_id model : String) → ℕ → SseEvent
created_event response_id model sequence =
    numbered "response.created" sequence
      (("response", response_stub response_id model "in_progress") ∷ [])

unfoldable pub in_progress_event : (response_id model : String) → ℕ → SseEvent
in_progress_event response_id model sequence =
    numbered "response.in_progress" sequence
      (("response", response_stub response_id model "in_progress") ∷ [])

-- The local variables `sequence` and `events` of `completion_events`.
pub record SseProgress : Type 0 where
  pub sequence : ℕ
  pub events : List SseEvent

-- `events.push(event(..)); sequence += 1`
unfoldable pub push_event : (kind : String) → List (String × Value) → SseProgress → SseProgress
push_event kind rest p = record {
  sequence = suc p.sequence;
  events = p.events ++ (numbered kind p.sequence rest ∷ []);
}

-- Where a part of an output item stands.
pub record Place : Type 0 where
  pub item_id : String
  pub output_index : ℕ
  pub content_index : ℕ

abbrev at_place : Place → List (String × Value) → List (String × Value)
at_place at rest =
    ("item_id", string at.item_id)
    ∷ ("output_index", number (pos_int at.output_index))
    ∷ ("content_index", number (pos_int at.content_index))
    ∷ rest

abbrev empty_part : Value
empty_part = object (
    fields (("type", string "output_text") ∷ ("text", string "") ∷ ("annotations", array nil) ∷ []))

unfoldable pub part_added : Place → SseProgress → SseProgress
part_added at = push_event "response.content_part.added" (at_place at (("part", empty_part) ∷ []))

unfoldable pub text_delta : Place → String → SseProgress → SseProgress
text_delta at text p =
    if is_empty text
    then p
    else push_event "response.output_text.delta"
        (at_place at (("delta", string text) ∷ ("logprobs", array nil) ∷ [])) p

unfoldable pub text_done : Place → String → SseProgress → SseProgress
text_done at text =
    push_event "response.output_text.done"
      (at_place at (("text", string text) ∷ ("logprobs", array nil) ∷ []))

unfoldable pub part_done : Place → Value → SseProgress → SseProgress
part_done at part = push_event "response.content_part.done" (at_place at (("part", part) ∷ []))

-- The text of a part, where it is output text.
abbrev pub is_output_text : Value → Bool
is_output_text part = is_some_and (get_str "type" part) (λ kind. str_eq kind "output_text")

abbrev pub part_text : Value → String
part_text part = unwrap_or (get_str "text" part) ""

-- The body of the loop over the parts of a message.
unfoldable pub push_part : Place → Value → SseProgress → SseProgress
push_part at part p =
    if is_output_text part
    then part_done at part
        (text_done at (part_text part) (text_delta at (part_text part) (part_added at p)))
    else p

unfoldable pub push_parts :
    (item_id : String) → (output_index content_index : ℕ) → Items → SseProgress → SseProgress
push_parts item_id output_index content_index nil p = p
push_parts item_id output_index content_index (cons part parts) p =
    push_parts item_id output_index (suc content_index) parts (
      push_part
        (record { item_id = item_id; output_index = output_index; content_index = content_index })
        part p)

-- The id and the content of an item, where it is a message that has both.
unfoldable pub message_content : Value → Option (String × Items)
message_content item =
    if is_some_and (get_str "type" item) (λ kind. str_eq kind "message")
    then and_then (get_str "id" item) (λ item_id.
      and_then (and_then (get "content" item) as_array) (λ content. some (item_id, content)))
    else none

unfoldable pub push_content :
    (output_index : ℕ) → Option (String × Items) → SseProgress → SseProgress
push_content output_index none p = p
push_content output_index (some (item_id, content)) p = push_parts item_id output_index 0 content p

abbrev item_fields : ℕ → Value → List (String × Value)
item_fields output_index item =
    ("output_index", number (pos_int output_index)) ∷ ("item", item) ∷ []

-- The body of the loop over the output.
unfoldable pub push_item : (output_index : ℕ) → Value → SseProgress → SseProgress
push_item output_index item p =
    push_event "response.output_item.done" (item_fields output_index item) (
      push_content output_index (message_content item)
        (push_event "response.output_item.added" (item_fields output_index item) p))

unfoldable pub push_items : (output_index : ℕ) → Items → SseProgress → SseProgress
push_items output_index nil p = p
push_items output_index (cons item items) p =
    push_items (suc output_index) items (push_item output_index item p)

-- The response with the id that the client knows.
abbrev pub with_id : String → Fields → Value
with_id response_id fs = object (insert_field "id" (string response_id) fs)

unfoldable pub completion_progress : (response_id : String) → ℕ → Items → Fields → SseProgress
completion_progress response_id first_sequence_number output fs =
    push_event "response.completed" (("response", with_id response_id fs) ∷ [])
      (push_items 0 output (record { sequence = first_sequence_number; events = [] }))

unfoldable pub completion_events :
    Value → (response_id : String) → (first_sequence_number : ℕ) → Result ProxyError (List SseEvent)
completion_events response response_id first_sequence_number = do
  output ←
      ok_or (and_then (get "output" response) as_array)
        (internal "batch response is missing output")
  fs ← ok_or (as_object response) (internal "batch response is not a JSON object")
  ok (completion_progress response_id first_sequence_number output fs).events

unfoldable pub failed_event : (response_id model : String) → ℕ → (message : String) → SseEvent
failed_event response_id model sequence message = numbered "response.failed" sequence (
    (
      "response",
      object (
          fields (
            ("id", string response_id)
            ∷ ("object", string "response")
            ∷ ("created_at", number (pos_int 0))
            ∷ ("status", string "failed")
            ∷ ("model", string model)
            ∷ ("output", array nil)
            ∷ (
              "error",
              object (
                  fields (
                    ("code", string "kaiion_batch_failed")
                    ∷ ("message", string message)
                    ∷ ("type", string "server_error")
                    ∷ [])),
            )
            ∷ [])),
    )
    ∷ [])

-- `object.entry(key).or_insert_with(|| value)`
abbrev pub or_insert : String → Value → Fields → Fields
or_insert k v fs = if is_some (get_field k fs) then fs else insert_field k v fs

-- The kind of the event that a terminal status is announced with.
unfoldable pub terminal_kind : Option String → Option String
terminal_kind none = none
terminal_kind (some status) =
    if str_eq status "failed"
    then some "response.failed"
    else if str_eq status "incomplete"
    then some "response.incomplete"
    else none

unfoldable pub terminal_response : (response_id model : String) → Fields → Value
terminal_response response_id model fs = object (
    or_insert "output" (array nil) (
      or_insert "model" (string model)
        (or_insert "object" (string "response") (insert_field "id" (string response_id) fs))))

unfoldable pub terminal_event :
    (response_id model : String) → ℕ → (error_json : String) → Fields → Option String → SseEvent
terminal_event response_id model sequence error_json fs none =
    failed_event response_id model sequence error_json
terminal_event response_id model sequence error_json fs (some kind) =
    numbered kind sequence (("response", terminal_response response_id model fs) ∷ [])

unfoldable pub parsed_event :
    (response_id model : String) → ℕ → (error_json : String) → Result String Value → SseEvent
parsed_event response_id model sequence error_json (ok (object fs)) =
    terminal_event response_id model sequence error_json fs
      (terminal_kind (and_then (get_field "status" fs) as_str))
parsed_event response_id model sequence error_json _ =
    failed_event response_id model sequence error_json

unfoldable pub terminal_error_event :
    Codec → (response_id model : String) → ℕ → (error_json : String) → SseEvent
terminal_error_event c response_id model sequence error_json =
    parsed_event response_id model sequence error_json (c.parse error_json)
