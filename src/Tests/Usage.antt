-- ===== src/Tests/Usage.antt =====
-- The usage tracker on a stream of two events, in chunks.
use kaiion.Prelude.{ℕ, String, ◌&&◌, ◌==◌, List, [], ◌∷◌, Result, ok, err, if◌then◌else◌}
use kaiion.Json.{Value, object, number, pos_int, fields}
use kaiion.Proxy.Usage.Lines.{StreamLine, says, other}

abbrev with_usage : Value
with_usage =
    object (fields (("usage", object (fields (("input_tokens", number (pos_int 5)) ∷ []))) ∷ []))

-- A parser that knows one text, `{}`, which it takes for a response with a usage.
abbrev knows_one : List ℕ → Result String Value
knows_one (a ∷ b ∷ []) = if (a == b'{') && (b == b'}') then ok with_usage else err "expected value"
knows_one bytes = err "expected value"

-- `event: a` and `data: {}`, and then `event: a` alone.
abbrev named : StreamLine
named = other (b'e' ∷ b'v' ∷ b'e' ∷ b'n' ∷ b't' ∷ b':' ∷ b' ' ∷ b'a' ∷ [])

abbrev told : List StreamLine
told = named ∷ says (b'{' ∷ b'}' ∷ []) ∷ []

abbrev first_byte : List ℕ → ℕ
first_byte [] = 0
first_byte (b ∷ bs) = b

-- The bytes are cut in the middle of a line and inside the empty line that ends the event.
abbrev cut : List (List ℕ)
cut =
    (b'e' ∷ b'v' ∷ b'e' ∷ [])
    ∷ (b'n' ∷ b't' ∷ b':' ∷ b' ' ∷ b'a' ∷ b'\n' ∷ b'd' ∷ b'a' ∷ b't' ∷ b'a' ∷ b':' ∷ b' ' ∷ b'{'
        ∷ b'}' ∷ b'\n' ∷ [])
    ∷ (b'\n' ∷ b'e' ∷ b'v' ∷ b'e' ∷ b'n' ∷ b't' ∷ b':' ∷ b' ' ∷ b'a' ∷ b'\n' ∷ [])
    ∷ []
