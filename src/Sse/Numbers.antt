-- ===== src/Sse/Numbers.antt =====
-- src/sse.rs: the numbers of a completed answer's events, and where its last event stands.
use mathlib.Core.List.{append_assoc}
use kaiion.Prelude.{
  sym, bind-ok, ok_or, ℕ, suc, ◌+◌, ◌≡◌, refl, String, Bool, false, ◌||◌, Option, none, some, List,
  [], ◌∷◌, ◌++◌, ok, arith, str_eq, length, length-append, All, All-append, Bool-cases, inl, inr,
  and_then, is_empty, subst, ap, ◌∙◌,
}
use kaiion.Json.{
  Value, Items, nil, cons, Fields, number, pos_int, string, get, as_u64, as_array, as_object,
}
use kaiion.Json.Laws.{get-fields_head, get-fields_tail}
use kaiion.Sse.{
  SseEvent, numbered, SseProgress, push_event, Place, part_added, text_delta, text_done, part_done,
  push_part, is_output_text, part_text, push_parts, message_content, push_content, push_item,
  push_items, completion_progress, completion_events, with_id,
}

-- The number that an event's JSON carries.
abbrev pub sequence_of : SseEvent → Option ℕ
sequence_of e = and_then (get "sequence_number" e.json) as_u64

-- The events carry the numbers n, n + 1, .. in this order.
abbrev pub Numbered : ℕ → List SseEvent → Type 0
Numbered n [] = Unit
Numbered n (e ∷ es) = (sequence_of e ≡ some n) × Numbered (suc n) es

-- The kinds of event that end a stream.
abbrev pub is_final_kind : String → Bool
is_final_kind kind =
    str_eq kind "response.completed"
    || (str_eq kind "response.failed" || str_eq kind "response.incomplete")

abbrev pub is_final : SseEvent → Bool
is_final e = is_final_kind e.kind

pub sequence_of-numbered :
    (kind : String) (n : ℕ) (rest : List (String × Value))
    → sequence_of (numbered kind n rest) ≡ some n
unfolding numbered
sequence_of-numbered kind n rest =
    ap (λ o. and_then o as_u64)
      (get-fields_tail "sequence_number" "type" (string kind)
          (("sequence_number", number (pos_int n)) ∷ rest) refl
        ∙ get-fields_head "sequence_number" (number (pos_int n)) rest)

pub Numbered-append :
    (n : ℕ) (xs ys : List SseEvent)
    → Numbered n xs
    → Numbered (n + length xs) ys
    → Numbered n (xs ++ ys)
Numbered-append n [] ys h k = subst (λ m. Numbered m ys) (omega arith) k
Numbered-append n (x ∷ xs) ys h k =
    (h.0, Numbered-append (suc n) xs ys h.1 (subst (λ m. Numbered m ys) (omega arith) k))

-- The events so far are numbered from `first`, none is final, and the counter says what follows.
pub record Counted (first : ℕ) (p : SseProgress) : Type 0 where
  pub numbers : Numbered first p.events
  pub next : p.sequence ≡ first + length p.events
  pub is_open : All (λ e. is_final e ≡ false) p.events

push_event-Numbered :
    (first : ℕ) (kind : String) (rest : List (String × Value)) (p : SseProgress)
    → Counted first p
    → Numbered first (push_event kind rest p).events
unfolding push_event
push_event-Numbered first kind rest p c =
    Numbered-append first p.events _ c.numbers
      (sequence_of-numbered kind p.sequence rest ∙ ap some c.next, tt)

pub push_event-Counted :
    (first : ℕ) (kind : String) (rest : List (String × Value)) (p : SseProgress)
    → is_final (numbered kind p.sequence rest) ≡ false
    → Counted first p
    → Counted first (push_event kind rest p)
unfolding push_event
push_event-Counted first kind rest p h c = record {
  numbers = push_event-Numbered first kind rest p c;
  next = omega (arith, c.next, length-append p.events (numbered kind p.sequence rest ∷ []));
  is_open = All-append _ p.events _ c.is_open (h, tt);
}

text_delta-Counted :
    (first : ℕ) (at : Place) (text : String) (p : SseProgress)
    → Counted first p
    → Counted first (text_delta at text p)
unfolding text_delta numbered
text_delta-Counted first at text p c = elim (Bool-cases (is_empty text)) [
  | inl e ↦ rw e c
  | inr e ↦ rw e (push_event-Counted first "response.output_text.delta" _ p refl c)
]

push_part-Counted :
    (first : ℕ) (at : Place) (part : Value) (p : SseProgress)
    → Counted first p
    → Counted first (push_part at part p)
unfolding push_part part_added text_done part_done numbered
push_part-Counted first at part p c = elim (Bool-cases (is_output_text part)) [
  | inl e ↦ rw e (
      push_event-Counted first "response.content_part.done" _ _ refl (
        push_event-Counted first "response.output_text.done" _ _ refl (
          text_delta-Counted first at (part_text part) _
            (push_event-Counted first "response.content_part.added" _ p refl c))))
  | inr e ↦ rw e c
]

push_parts-Counted :
    (first : ℕ) (item_id : String) (i j : ℕ) (parts : Items) (p : SseProgress)
    → Counted first p
    → Counted first (push_parts item_id i j parts p)
unfolding push_parts
push_parts-Counted first item_id i j nil p c = c
push_parts-Counted first item_id i j (cons part parts) p c =
    push_parts-Counted first item_id i (suc j) parts _ (push_part-Counted first _ part p c)

push_content-Counted :
    (first i : ℕ) (o : Option (String × Items)) (p : SseProgress)
    → Counted first p
    → Counted first (push_content i o p)
unfolding push_content
push_content-Counted first i none p c = c
push_content-Counted first i (some (item_id, content)) p c =
    push_parts-Counted first item_id i 0 content p c

push_items-Counted :
    (first i : ℕ) (items : Items) (p : SseProgress)
    → Counted first p
    → Counted first (push_items i items p)
unfolding push_items push_item numbered
push_items-Counted first i nil p c = c
push_items-Counted first i (cons item items) p c = push_items-Counted first (suc i) items _ (
    push_event-Counted first "response.output_item.done" _ _ refl (
      push_content-Counted first i (message_content item) _
        (push_event-Counted first "response.output_item.added" _ p refl c)))

-- A closed stream: numbered from `first`, with one final event, its last.
pub record Closes (first : ℕ) (kind : String) (es : List SseEvent) : Type 0 where
  pub numbers : Numbered first es
  pub before : List SseEvent
  pub last : SseEvent
  pub split : es ≡ before ++ (last ∷ [])
  pub is_open : All (λ e. is_final e ≡ false) before
  pub last_kind : last.kind ≡ kind

pub completion_progress-Closes :
    (response_id : String) (first : ℕ) (output : Items) (fs : Fields)
    → Closes first "response.completed" (completion_progress response_id first output fs).events
unfolding completion_progress push_event numbered
completion_progress-Closes response_id first output fs =
    let c =
      push_items-Counted first 0 output _
        (record { numbers = tt; next = omega arith; is_open = tt }) in
    record {
      numbers =
          push_event-Numbered first "response.completed" (("response", with_id response_id fs) ∷ [])
            _ c;
      before = _;
      last = _;
      split = refl;
      is_open = c.is_open;
      last_kind = refl;
    }

pub completion_events-Closes :
    (response : Value) (response_id : String) (first : ℕ) (es : List SseEvent)
    → completion_events response response_id first ≡ ok es
    → Closes first "response.completed" es
unfolding completion_events
completion_events-Closes response response_id first es h =
    let (output, e₁, f₁) = bind-ok (ok_or (and_then (get "output" response) as_array) _) _ h in
    let (fs, e₂, f₂) = bind-ok (ok_or (as_object response) _) _ f₁ in
    subst (Closes first "response.completed") (cc f₂)
      (completion_progress-Closes response_id first output fs)

-- One event that ends a stream.
pub single-Closes :
    (first : ℕ) (kind : String) (rest : List (String × Value))
    → Closes first kind (numbered kind first rest ∷ [])
unfolding numbered
single-Closes first kind rest = record {
  numbers = (sequence_of-numbered kind first rest, tt);
  before = [];
  last = numbered kind first rest;
  split = refl;
  is_open = tt;
  last_kind = refl;
}

append_cons {ℓ} :
    {A : Type ℓ} (xs ys : List A) (z : A) → xs ++ (ys ++ (z ∷ [])) ≡ (xs ++ ys) ++ (z ∷ [])
append_cons xs ys z = sym (append_assoc xs ys (z ∷ []))

-- What was sent before, and a closing that goes on from its number.
pub Counted-Closes :
    (first : ℕ) (kind : String) (p : SseProgress) (es : List SseEvent)
    → Counted first p
    → Closes p.sequence kind es
    → Closes first kind (p.events ++ es)
Counted-Closes first kind p es c h = record {
  numbers =
      Numbered-append first p.events es c.numbers (subst (λ n. Numbered n es) c.next h.numbers);
  before = p.events ++ h.before;
  last = h.last;
  split = ap (λ l. p.events ++ l) h.split ∙ append_cons p.events h.before h.last;
  is_open = All-append _ p.events h.before c.is_open h.is_open;
  last_kind = h.last_kind;
}
