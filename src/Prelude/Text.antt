-- ===== src/Prelude/Text.antt =====
-- What the code asks of a `str`: blankness, lines, and a prefix. Positions are characters.
use Prim.Native.Char.{Char, code}
use Prim.Native.String
use Prim.Native.String.{String}
use mathlib.Core.Path.{◌≡◌, refl}
use mathlib.Core.Bool.{Bool, true, false, ◌&&◌, ◌||◌}
use mathlib.Core.Option.{Option, none, some}
use mathlib.Core.List.{List}
use Prim.Native.Nat.{ℕ}
use mathlib.Core.Logic.{inl, inr}
use text.Mathlib.Text.{◌==◌ as str_eq}
use text.Mathlib.TextEquality.{eq_iff}
use kaiion.Prelude.Tests.{leb, ◌==◌, if◌then◌else◌, Bool-cases}

-- `char::is_whitespace`: the Unicode property White_Space.
abbrev pub is_whitespace : ℕ → Bool
is_whitespace c =
    (leb 9 c && leb c 13)
    || c == 32
    || c == 0x85
    || c == 0xa0
    || c == 0x1680
    || (leb 0x2000 c && leb c 0x200a)
    || c == 0x2028
    || c == 0x2029
    || c == 0x202f
    || c == 0x205f
    || c == 0x3000

-- `format!`: the pieces of a text, one after the other.
abbrev pub concat : List String → String
concat List.[] = String.[]
concat (List.◌∷◌ s ss) = String.◌++◌ s (concat ss)

-- `s.trim().is_empty()`
unfoldable pub blank : String → Bool
blank String.[] = true
blank (String.◌∷◌ c s) = is_whitespace (code c) && blank s

unfoldable pub String-discrete : Discrete String
String-discrete s t = elim (Bool-cases (str_eq s t)) [
  | inl e ↦ yes ((eq_iff s t).0 e)
  | inr e ↦ no λ p. cc ((eq_iff s t).1 p)
]

-- `s.is_empty()`
abbrev pub is_empty : String → Bool
is_empty String.[] = true
is_empty (String.◌∷◌ c s) = false

begins_newline : String → Bool
begins_newline String.[] = false
begins_newline (String.◌∷◌ c s) = code c == 10

onto_first : Char → List String → List String
onto_first c List.[] = List.◌∷◌ (String.◌∷◌ c String.[]) List.[]
onto_first c (List.◌∷◌ l ls) = List.◌∷◌ (String.◌∷◌ c l) ls

-- `s.lines()`: a line ends at "\n" or "\r\n", and the last ending is optional.
unfoldable pub lines : String → List String
unfolding begins_newline onto_first
lines String.[] = List.[]
lines (String.◌∷◌ c s) =
    let rest = lines s in
    if code c == 10
    then List.◌∷◌ String.[] rest
    else if (code c == 13) && begins_newline s
    then rest
    else onto_first c rest

-- `s.strip_prefix(p)`
unfoldable pub strip_prefix : String → String → Option String
strip_prefix String.[] s = some s
strip_prefix (String.◌∷◌ c p) String.[] = none
strip_prefix (String.◌∷◌ c p) (String.◌∷◌ d s) = if code c == code d then strip_prefix p s else none

lines_run : lines "a\r\n\nb" ≡ List.◌∷◌ "a" (List.◌∷◌ "" (List.◌∷◌ "b" List.[]))
unfolding lines
lines_run = refl
