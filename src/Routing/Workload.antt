-- ===== src/Routing/Workload.antt =====
-- src/routing.rs: which requests are text with little reasoning, told without the code's tests, and
-- that `contains_non_text_input` and the test on the effort are these.
use mathlib.Core.List.{Memᴰ}
use kaiion.Prelude.{
  String, Bool, true, false, not, ◌||◌, ◌≡◌, ◌≢◌, ◌↔◌, refl, sym, subst, Option, none, some, List,
  [], ◌∷◌, any, str_eq, str_eq_iff, is_some_and, and_then, All, inl, inr, Bool-cases, arith,
}
use kaiion.Json.{
  Value, Number, Items, Fields, null, boolean, number, string, array, object, nil, cons, end, field,
  get, get_str, get_field, as_str,
}
use kaiion.Routing.{contains_non_text_input, items_non_text, fields_non_text, reasons_much}

-- The types that stand for text, or for a part of a schema.
abbrev pub TextType : String → Type 0
TextType kind = Memᴰ kind (
    "message" ∷ "input_text" ∷ "output_text" ∷ "function" ∷ "function_call" ∷ "function_call_output"
    ∷ "text" ∷ "json_schema" ∷ "json_object" ∷ "object" ∷ "array" ∷ "string" ∷ "number" ∷ "integer"
    ∷ "boolean" ∷ "null" ∷ [])

-- A value in which every object, however deep, has no `type` or one that stands for text.
mutual
  pub data IsText : Value → Type 0 where
    null_text : IsText null
    boolean_text : {b : Bool} → IsText (boolean b)
    number_text : {n : Number} → IsText (number n)
    string_text : {s : String} → IsText (string s)
    array_text : {vs : Items} → AreText vs → IsText (array vs)
    object_text :
        {fs : Fields}
        → ((kind : String) → and_then (get_field "type" fs) as_str ≡ some kind → TextType kind)
        → HasText fs
        → IsText (object fs)

  pub data AreText : Items → Type 0 where
    no_items : AreText nil
    more_items : {v : Value} → {vs : Items} → IsText v → AreText vs → AreText (cons v vs)

  pub data HasText : Fields → Type 0 where
    no_fields : HasText end
    more_fields :
        {k : String} → {v : Value} → {fs : Fields} → IsText v → HasText fs → HasText (field k v fs)

-- The request asks for no effort, or for one that is not among the four great ones.
pub record LittleReasoning (body : Value) : Type 0 where
  pub not_medium : and_then (get "reasoning" body) (get_str "effort") ≢ some "medium"
  pub not_high : and_then (get "reasoning" body) (get_str "effort") ≢ some "high"
  pub not_xhigh : and_then (get "reasoning" body) (get_str "effort") ≢ some "xhigh"
  pub not_max : and_then (get "reasoning" body) (get_str "effort") ≢ some "max"

or-false : (a b : Bool) → (a || b) ≡ false → (a ≡ false) × (b ≡ false)
or-false a b h = ground arith

false-or : (a b : Bool) → a ≡ false → b ≡ false → (a || b) ≡ false
false-or a b h k = ground arith

any-Mem : (s : String) (ls : List String) → any (str_eq s) ls ≡ true → Memᴰ s ls
any-Mem s [] h = cc h
any-Mem s (l ∷ ls) h = elim (Bool-cases (str_eq s l)) [
  | inl e ↦ Memᴰ.head ((str_eq_iff s l).0 e)
  | inr e ↦ Memᴰ.tail (any-Mem s ls (rw e at h))
]

Mem-any : (s : String) (ls : List String) → Memᴰ s ls → any (str_eq s) ls ≡ true
Mem-any s [] m = elim m [ ]
Mem-any s (l ∷ ls) (Memᴰ.head e) = rw ((str_eq_iff s l).1 e) refl
Mem-any s (l ∷ ls) (Memᴰ.tail m) = let later = Mem-any s ls m in ground arith

All-Mem : (P : String → Type 0) (s : String) (ls : List String) → All P ls → Memᴰ s ls → P s
All-Mem P s [] h m = elim m [ ]
All-Mem P s (l ∷ ls) h (Memᴰ.head e) = subst P (sym e) (h.0)
All-Mem P s (l ∷ ls) h (Memᴰ.tail m) = All-Mem P s ls (h.1) m

-- A text that passes a list's test is one of the list.
refused-Mem :
    (o : Option String) (ls : List String)
    → is_some_and o (λ kind. not (any (str_eq kind) ls)) ≡ false
    → (kind : String) → o ≡ some kind
    → Memᴰ kind ls
refused-Mem o ls h kind e =
    let passes : not (any (str_eq kind) ls) ≡ false = rw e at h in any-Mem kind ls (ground arith)

Mem-refused :
    (o : Option String) (ls : List String)
    → ((kind : String) → o ≡ some kind → Memᴰ kind ls)
    → is_some_and o (λ kind. not (any (str_eq kind) ls)) ≡ false
Mem-refused none ls h = refl
Mem-refused (some kind) ls h = rw (Mem-any kind ls (h kind refl)) refl

mutual
  unfolding contains_non_text_input items_non_text fields_non_text

  pub contains-IsText : (v : Value) → contains_non_text_input v ≡ false → IsText v
  contains-IsText null h = null_text
  contains-IsText (boolean b) h = boolean_text
  contains-IsText (number n) h = number_text
  contains-IsText (string s) h = string_text
  contains-IsText (array vs) h = array_text (items-AreText vs h)
  contains-IsText (object fs) h =
      let (kind, rest) = or-false _ _ h in
      object_text (refused-Mem _ _ kind) (fields-HasText fs rest)

  items-AreText : (vs : Items) → items_non_text vs ≡ false → AreText vs
  items-AreText nil h = no_items
  items-AreText (cons v vs) h =
      let (first, rest) = or-false _ _ h in
      more_items (contains-IsText v first) (items-AreText vs rest)

  fields-HasText : (fs : Fields) → fields_non_text fs ≡ false → HasText fs
  fields-HasText end h = no_fields
  fields-HasText (field k v fs) h =
      let (first, rest) = or-false _ _ h in
      more_fields (contains-IsText v first) (fields-HasText fs rest)

mutual
  unfolding contains_non_text_input items_non_text fields_non_text

  pub IsText-contains : (v : Value) → IsText v → contains_non_text_input v ≡ false
  IsText-contains null t = refl
  IsText-contains (boolean b) t = refl
  IsText-contains (number n) t = refl
  IsText-contains (string s) t = refl
  IsText-contains (array vs) (array_text ts) = AreText-items vs ts
  IsText-contains (object fs) (object_text kind ts) =
      false-or _ _ (Mem-refused _ _ kind) (HasText-fields fs ts)

  AreText-items : (vs : Items) → AreText vs → items_non_text vs ≡ false
  AreText-items nil t = refl
  AreText-items (cons v vs) (more_items t ts) =
      false-or _ _ (IsText-contains v t) (AreText-items vs ts)

  HasText-fields : (fs : Fields) → HasText fs → fields_non_text fs ≡ false
  HasText-fields end t = refl
  HasText-fields (field k v fs) (more_fields t ts) =
      false-or _ _ (IsText-contains v t) (HasText-fields fs ts)

-- An effort that a list's test finds is one of the list.
found-Mem :
    (o : Option String) (ls : List String)
    → All (λ effort. o ≢ some effort) ls
    → is_some_and o (λ effort. any (str_eq effort) ls) ≡ false
found-Mem none ls h = refl
found-Mem (some effort) ls h = elim (Bool-cases (any (str_eq effort) ls)) [
  | inl e ↦ elim (All-Mem (λ k. some effort ≢ some k) effort ls h (any-Mem effort ls e) refl) [ ]
  | inr e ↦ e
]

Mem-found :
    (o : Option String) (ls : List String) (effort : String)
    → is_some_and o (λ e. any (str_eq e) ls) ≡ false
    → Memᴰ effort ls
    → o ≢ some effort
Mem-found o ls effort h m e =
    let found : any (str_eq effort) ls ≡ true = Mem-any effort ls m in
    let never : any (str_eq effort) ls ≡ false = rw e at h in cc

abbrev great : List String
great = "medium" ∷ "high" ∷ "xhigh" ∷ "max" ∷ []

pub reasons-LittleReasoning : (body : Value) → (reasons_much body ≡ false) ↔ LittleReasoning body
unfolding reasons_much
reasons-LittleReasoning body = (
  λ h. record {
    not_medium =
        Mem-found effort great "medium" h (Memᴰ.head {xs = "high" ∷ "xhigh" ∷ "max" ∷ []} refl);
    not_high =
        Mem-found effort great "high" h (Memᴰ.tail (Memᴰ.head {xs = "xhigh" ∷ "max" ∷ []} refl));
    not_xhigh =
        Mem-found effort great "xhigh" h (Memᴰ.tail (Memᴰ.tail (Memᴰ.head {xs = "max" ∷ []} refl)));
    not_max =
        Mem-found effort great "max" h
          (Memᴰ.tail (Memᴰ.tail (Memᴰ.tail (Memᴰ.head {xs = []} refl))));
  },
  λ h. found-Mem effort great (h.not_medium, (h.not_high, (h.not_xhigh, (h.not_max, tt)))),
)
  where
    effort : Option String
    effort = and_then (get "reasoning" body) (get_str "effort")
