-- ===== src/Sse/Texts.antt =====
-- src/sse.rs: the texts that a completed response's output carries, read from its JSON alone, and
-- that `completion_events` picks out these.
use text.Mathlib.TextLemmas.{nil-append}
use kaiion.Prelude.{
  ◌≡◌, refl, String, true, false, Option, none, some, List, [], ◌∷◌, ◌++◌, str_eq, is_some_and, inl,
  inr, Bool-cases, if◌then◌else◌, unwrap_or, concat, and_then, arith,
}
use kaiion.Json.{
  Value, Items, nil, cons, null, boolean, number, string, array, object, get, as_str, as_array,
}
use kaiion.Sse.{is_output_text, part_text, message_content}

-- The text of an output_text part, from its `type` and its `text`.
abbrev pub text_in : (kind text : Option Value) → List String
text_in (some (string kind)) (some (string text)) =
    if str_eq kind "output_text" then text ∷ [] else []
text_in (some (string kind)) _ = []
text_in _ text = []

abbrev pub parts_text : Items → List String
parts_text nil = []
parts_text (cons part parts) = text_in (get "type" part) (get "text" part) ++ parts_text parts

-- The texts of a message, from the `type`, the `id` and the `content` of an item.
abbrev pub texts_in : (kind id content : Option Value) → List String
texts_in (some (string kind)) (some (string id)) (some (array parts)) =
    if str_eq kind "message" then parts_text parts else []
texts_in (some (string kind)) (some (string id)) _ = []
texts_in (some (string kind)) _ content = []
texts_in _ id content = []

-- What the messages of a response's output say.
abbrev pub output_text : Items → List String
output_text nil = []
output_text (cons item items) =
    texts_in (get "type" item) (get "id" item) (get "content" item) ++ output_text items

-- A text of an output_text part, and anything else.
text_in-output :
    (kind : String) (text : Option Value)
    → str_eq kind "output_text" ≡ true
    → concat (unwrap_or (and_then text as_str) "" ∷ []) ≡ concat (text_in (some (string kind)) text)
text_in-output kind none e = nil-append ""
text_in-output kind (some (string text)) e = rw e refl
text_in-output kind (some null) e = nil-append ""
text_in-output kind (some (boolean b)) e = nil-append ""
text_in-output kind (some (number n)) e = nil-append ""
text_in-output kind (some (array vs)) e = nil-append ""
text_in-output kind (some (object fs)) e = nil-append ""

text_in-other :
    (kind : String) (text : Option Value)
    → str_eq kind "output_text" ≡ false
    → text_in (some (string kind)) text ≡ []
text_in-other kind none e = refl
text_in-other kind (some (string text)) e = rw e refl
text_in-other kind (some null) e = refl
text_in-other kind (some (boolean b)) e = refl
text_in-other kind (some (number n)) e = refl
text_in-other kind (some (array vs)) e = refl
text_in-other kind (some (object fs)) e = refl

-- What the code sends for a part is what the part says.
pub sent-text_in :
    (part : Value)
    → concat (if is_output_text part then part_text part ∷ [] else [])
      ≡ concat (text_in (get "type" part) (get "text" part))
sent-text_in part = by_kind (get "type" part) (get "text" part)
  where
    by_kind :
        (kind text : Option Value)
        → concat (
            if is_some_and (and_then kind as_str) (λ k. str_eq k "output_text")
            then unwrap_or (and_then text as_str) "" ∷ []
            else [])
          ≡ concat (text_in kind text)
    by_kind none text = refl
    by_kind (some (string kind)) text = elim (Bool-cases (str_eq kind "output_text")) [
      | inl e ↦ rw e (text_in-output kind text e)
      | inr e ↦ rw (e, text_in-other kind text e) refl
    ]
    by_kind (some null) text = refl
    by_kind (some (boolean b)) text = refl
    by_kind (some (number n)) text = refl
    by_kind (some (array vs)) text = refl
    by_kind (some (object fs)) text = refl

-- What the code takes for a message is what the item says.
abbrev pub content_texts : Option (String × Items) → List String
content_texts none = []
content_texts (some (item_id, content)) = parts_text content

pub content_texts-texts_in :
    (item : Value)
    → content_texts (message_content item)
      ≡ texts_in (get "type" item) (get "id" item) (get "content" item)
unfolding message_content
content_texts-texts_in item = by_kind (get "type" item) (get "id" item) (get "content" item)
  where
    found : (id content : Option Value) → Option (String × Items)
    found id content =
        and_then (and_then id as_str)
          (λ item_id. and_then (and_then content as_array) (λ parts. some (item_id, parts)))

    by_content :
        (kind id : String) (content : Option Value)
        → content_texts (if str_eq kind "message" then found (some (string id)) content else none)
          ≡ texts_in (some (string kind)) (some (string id)) content
    by_content kind id none = ground arith
    by_content kind id (some (array parts)) = ground arith
    by_content kind id (some null) = ground arith
    by_content kind id (some (boolean b)) = ground arith
    by_content kind id (some (number n)) = ground arith
    by_content kind id (some (string s)) = ground arith
    by_content kind id (some (object fs)) = ground arith

    by_id :
        (kind : String) (id content : Option Value)
        → content_texts (if str_eq kind "message" then found id content else none)
          ≡ texts_in (some (string kind)) id content
    by_id kind none content = ground arith
    by_id kind (some (string id)) content = by_content kind id content
    by_id kind (some null) content = ground arith
    by_id kind (some (boolean b)) content = ground arith
    by_id kind (some (number n)) content = ground arith
    by_id kind (some (array vs)) content = ground arith
    by_id kind (some (object fs)) content = ground arith

    by_kind :
        (kind id content : Option Value)
        → content_texts (
            if is_some_and (and_then kind as_str) (λ k. str_eq k "message")
            then found id content
            else none)
          ≡ texts_in kind id content
    by_kind none id content = refl
    by_kind (some (string kind)) id content = by_id kind id content
    by_kind (some null) id content = refl
    by_kind (some (boolean b)) id content = refl
    by_kind (some (number n)) id content = refl
    by_kind (some (array vs)) id content = refl
    by_kind (some (object fs)) id content = refl
