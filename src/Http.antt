-- ===== src/Http.antt =====
-- The parts of the http crate that the sources use: a header map is a list of lower-case names with
-- their values, in the order in which it is iterated, and a value is what `to_str` makes of it.
use kaiion.Prelude.{
  String, Option, none, some, List, [], ◌∷◌, ◌++◌, Bool, not, is_some, keep_if, str_eq,
  if◌then◌else◌,
}

pub record HeaderValue : Type 0 where
  pub to_str : Option String

pub record Header : Type 0 where
  pub name : String
  pub value : HeaderValue

-- A header with a text that `to_str` gives back.
abbrev pub header : (name text : String) → Header
header name text = record { name = name; value = record { to_str = some text } }

-- `HeaderMap::get`
unfoldable pub get_header : String → List Header → Option HeaderValue
get_header name [] = none
get_header name (h ∷ hs) = if str_eq h.name name then some h.value else get_header name hs

-- `HeaderMap::contains_key`
abbrev pub has_header : String → List Header → Bool
has_header name hs = is_some (get_header name hs)

-- `HeaderMap::insert`, which replaces every value of the name.
unfoldable pub insert_header : Header → List Header → List Header
insert_header h hs = keep_if (λ g. not (str_eq g.name h.name)) hs ++ (h ∷ [])
