-- ===== src/Sse/Deltas.antt =====
-- src/sse.rs: the text that a completed answer's deltas carry.
use Prim.Native.String
use text.Mathlib.TextLemmas.{nil-append, append-nil, append_assoc}
use kaiion.Prelude.{
  ℕ, suc, ◌≡◌, refl, sym, String, false, Option, none, some, List, [], ◌∷◌, ◌++◌, ap, ◌∙◌, str_eq,
  inl, inr, Bool-cases, if◌then◌else◌, unwrap_or, concat, ok, map, and_then,
}
use kaiion.Json.{Value, Items, nil, cons, Fields, string, object, get, get_str, as_str, as_array}
use kaiion.Json.Laws.{get-fields_head, get-fields_tail}
use kaiion.Sse.{
  SseEvent, numbered, SseProgress, push_event, Place, at_place, part_added, text_delta, text_done,
  part_done, push_part, is_output_text, part_text, push_parts, message_content, push_content,
  push_item, push_items, completion_progress, completion_events, with_id,
}
use kaiion.Sse.Texts.{
  text_in, parts_text, texts_in, output_text, sent-text_in, content_texts, content_texts-texts_in,
}
use kaiion.Sse.Numbers.{Closes, completion_progress-Closes}

-- The text that an event adds to what the client has.
abbrev pub delta_of : SseEvent → String
delta_of e =
    if str_eq e.kind "response.output_text.delta" then unwrap_or (get_str "delta" e.json) "" else ""

abbrev pub streamed : List SseEvent → String
streamed es = concat (map delta_of es)

streamed-snoc :
    (es : List SseEvent) (e : SseEvent)
    → streamed (es ++ (e ∷ [])) ≡ String.◌++◌ (streamed es) (delta_of e)
streamed-snoc [] e = append-nil (delta_of e) ∙ sym (nil-append (delta_of e))
streamed-snoc (x ∷ es) e =
    ap (String.◌++◌ (delta_of x)) (streamed-snoc es e)
    ∙ sym (append_assoc (delta_of x) (streamed es) (delta_of e))

concat-append : (xs ys : List String) → concat (xs ++ ys) ≡ String.◌++◌ (concat xs) (concat ys)
concat-append [] ys = sym (nil-append (concat ys))
concat-append (x ∷ xs) ys =
    ap (String.◌++◌ x) (concat-append xs ys) ∙ sym (append_assoc x (concat xs) (concat ys))

pub streamed-append :
    (xs ys : List SseEvent) → streamed (xs ++ ys) ≡ String.◌++◌ (streamed xs) (streamed ys)
streamed-append [] ys = sym (nil-append (streamed ys))
streamed-append (x ∷ xs) ys =
    ap (String.◌++◌ (delta_of x)) (streamed-append xs ys)
    ∙ sym (append_assoc (delta_of x) (streamed xs) (streamed ys))

-- Any other event adds nothing.
pub push_event-silent :
    (kind : String) (rest : List (String × Value)) (p : SseProgress)
    → str_eq kind "response.output_text.delta" ≡ false
    → streamed (push_event kind rest p).events ≡ streamed p.events
unfolding push_event numbered
push_event-silent kind rest p h =
    streamed-snoc p.events (numbered kind p.sequence rest) ∙ rw h (append-nil (streamed p.events))

numbered-delta :
    (at : Place) (n : ℕ) (text : String) (rest : List (String × Value))
    → delta_of
        (numbered "response.output_text.delta" n (at_place at (("delta", string text) ∷ rest)))
      ≡ text
unfolding numbered
numbered-delta at n text rest =
    ap (λ o. unwrap_or (and_then o as_str) "")
      (get-fields_tail "delta" _ _ _ refl
        ∙ get-fields_tail "delta" _ _ _ refl
        ∙ get-fields_tail "delta" _ _ _ refl
        ∙ get-fields_tail "delta" _ _ _ refl
        ∙ get-fields_tail "delta" _ _ _ refl
        ∙ get-fields_head "delta" (string text) rest)

text_delta-streamed :
    (at : Place) (text : String) (p : SseProgress)
    → streamed (text_delta at text p).events ≡ String.◌++◌ (streamed p.events) text
unfolding text_delta push_event
text_delta-streamed at String.[] p = sym (append-nil (streamed p.events))
text_delta-streamed at (String.◌∷◌ x s) p =
    streamed-snoc p.events _
    ∙ ap (String.◌++◌ (streamed p.events)) (numbered-delta at p.sequence (String.◌∷◌ x s) _)

push_part-streamed :
    (at : Place) (part : Value) (p : SseProgress)
    → streamed (push_part at part p).events
      ≡ String.◌++◌
          (streamed p.events)
          (concat (if is_output_text part then part_text part ∷ [] else []))
unfolding push_part part_added text_done part_done
push_part-streamed at part p = elim (Bool-cases (is_output_text part)) [
  | inl e ↦ rw e (
      push_event-silent "response.content_part.done" _ _ refl
      ∙ push_event-silent "response.output_text.done" _ _ refl
      ∙ text_delta-streamed at (part_text part) _
      ∙ ap (λ s. String.◌++◌ s (part_text part))
          (push_event-silent "response.content_part.added" _ p refl)
      ∙ ap (String.◌++◌ (streamed p.events)) (sym (append-nil (part_text part))))
  | inr e ↦ rw e (sym (append-nil (streamed p.events)))
]

push_parts-streamed :
    (item_id : String) (i j : ℕ) (parts : Items) (p : SseProgress)
    → streamed (push_parts item_id i j parts p).events
      ≡ String.◌++◌ (streamed p.events) (concat (parts_text parts))
unfolding push_parts
push_parts-streamed item_id i j nil p = sym (append-nil (streamed p.events))
push_parts-streamed item_id i j (cons part parts) p =
    let said = text_in (get "type" part) (get "text" part) in
    push_parts-streamed item_id i (suc j) parts _
    ∙ ap (λ s. String.◌++◌ s (concat (parts_text parts)))
        (push_part-streamed _ part p ∙ ap (String.◌++◌ (streamed p.events)) (sent-text_in part))
    ∙ append_assoc (streamed p.events) (concat said) (concat (parts_text parts))
    ∙ ap (String.◌++◌ (streamed p.events)) (sym (concat-append said (parts_text parts)))

push_content-streamed :
    (i : ℕ) (item : Value) (p : SseProgress)
    → streamed (push_content i (message_content item) p).events
      ≡ String.◌++◌
          (streamed p.events)
          (concat (texts_in (get "type" item) (get "id" item) (get "content" item)))
push_content-streamed i item p =
    of_content (message_content item)
    ∙ ap (λ ts. String.◌++◌ (streamed p.events) (concat ts)) (content_texts-texts_in item)
  where
    of_content :
        (o : Option (String × Items))
        → streamed (push_content i o p).events
          ≡ String.◌++◌ (streamed p.events) (concat (content_texts o))
    of_content none = unfold push_content in sym (append-nil (streamed p.events))
    of_content (some (item_id, content)) =
        unfold push_content in push_parts-streamed item_id i 0 content p

push_items-streamed :
    (i : ℕ) (items : Items) (p : SseProgress)
    → streamed (push_items i items p).events
      ≡ String.◌++◌ (streamed p.events) (concat (output_text items))
unfolding push_items push_item
push_items-streamed i nil p = sym (append-nil (streamed p.events))
push_items-streamed i (cons item items) p =
    let said = texts_in (get "type" item) (get "id" item) (get "content" item) in
    push_items-streamed (suc i) items _
    ∙ ap (λ s. String.◌++◌ s (concat (output_text items)))
        (push_event-silent "response.output_item.done" _ _ refl
          ∙ push_content-streamed i item _
          ∙ ap (λ s. String.◌++◌ s (concat said))
              (push_event-silent "response.output_item.added" _ p refl))
    ∙ append_assoc (streamed p.events) (concat said) (concat (output_text items))
    ∙ ap (String.◌++◌ (streamed p.events)) (sym (concat-append said (output_text items)))

completion_progress-streamed :
    (response_id : String) (first : ℕ) (output : Items) (fs : Fields)
    → streamed (completion_progress response_id first output fs).events
      ≡ concat (output_text output)
unfolding completion_progress
completion_progress-streamed response_id first output fs =
    push_event-silent "response.completed" (("response", with_id response_id fs) ∷ [])
      (push_items 0 output (record { sequence = first; events = [] })) refl
    ∙ push_items-streamed 0 output (record { sequence = first; events = [] })
    ∙ nil-append (concat (output_text output))

-- What `completion_events` gives for a response with this output.
pub record Completes (response : Value) (response_id : String) (first : ℕ) (output : Items)
    : Type 0 where
  pub events : List SseEvent
  pub given : completion_events response response_id first ≡ ok events
  pub closes : Closes first "response.completed" events
  pub delivers : streamed events ≡ concat (output_text output)

-- A response with an output array becomes events that are numbered without a gap from the number
-- asked for, of which the last, and no other, is final; their deltas together are the texts of the
-- output_text parts of the messages that have an id, in order.
pub completion_events-Completes :
    (response : Value) (response_id : String) (first : ℕ) (output : Items)
    → and_then (get "output" response) as_array ≡ some output
    → Completes response response_id first output
unfolding completion_events get
completion_events-Completes (object fs) response_id first output h = record {
  events = (completion_progress response_id first output fs).events;
  given = rw h refl;
  closes = completion_progress-Closes response_id first output fs;
  delivers = completion_progress-streamed response_id first output fs;
}
completion_events-Completes _ response_id first output h = cc
