-- ===== src/Openai/Headers.antt =====
-- src/openai.rs: the headers that pass between a caller and the provider.
use Prim.Native.Char.{code}
use kaiion.Prelude.{
  ℕ, ◌+◌, ◌-◌, ◌*◌, ◌==◌, String, Bool, not, ◌&&◌, Option, none, some, List, [], ◌∷◌, ◌++◌, any,
  keep_if, leb, ltb, str_eq, is_some, strip_prefix, and_then, map_option, is_empty, is_whitespace,
  or_else, if◌then◌else◌,
}
use kaiion.Http.{Header, get_header}

abbrev held_back : List String
held_back =
    "connection" ∷ "content-length" ∷ "content-type" ∷ "host" ∷ "proxy-authenticate"
    ∷ "proxy-authorization" ∷ "te" ∷ "trailer" ∷ "transfer-encoding" ∷ "upgrade" ∷ "x-kaiion-mode"
    ∷ []

unfoldable pub should_forward_request_header : String → Bool
should_forward_request_header name =
    not (is_some (strip_prefix "x-kaiion-" name)) && not (any (str_eq name) held_back)

-- The loops over the caller's headers in `direct` and `list_models`.
unfoldable pub forwarded : List Header → List Header
forwarded headers = keep_if (λ h. should_forward_request_header h.name) headers

abbrev hop_by_hop : List String
hop_by_hop = "connection" ∷ "content-length" ∷ "transfer-encoding" ∷ "upgrade" ∷ []

unfoldable pub copy_response_headers : (source target : List Header) → List Header
copy_response_headers source target =
    target ++ keep_if (λ h. not (any (str_eq h.name) hop_by_hop)) source

abbrev is_digit : ℕ → Bool
is_digit n = leb b'0' n && leb n b'9'

-- The digits of a number, on top of what was read.
unfoldable pub read_digits : ℕ → String → Option ℕ
read_digits read String.[] = some read
read_digits read (String.◌∷◌ c s) =
    let rest = read_digits (10 * read + (code c - b'0')) s in
    if is_digit (code c) then rest else none

abbrev unsigned : String → String
unsigned String.[] = ""
unsigned (String.◌∷◌ c s) = if code c == b'+' then s else String.◌∷◌ c s

abbrev in_u64 : ℕ → Option ℕ
in_u64 n = if ltb n 0x10000000000000000 then some n else none

-- `str::parse::<u64>`
unfoldable pub parse_u64 : String → Option ℕ
parse_u64 text =
    if is_empty (unsigned text) then none else and_then (read_digits 0 (unsigned text)) in_u64

unfoldable pub trim_start : String → String
trim_start String.[] = ""
trim_start (String.◌∷◌ c s) =
    let rest = trim_start s in if is_whitespace (code c) then rest else String.◌∷◌ c s

abbrev ends_here : ℕ → String → Bool
ends_here c rest = is_whitespace c && is_empty rest

unfoldable pub trim_end : String → String
trim_end String.[] = ""
trim_end (String.◌∷◌ c s) =
    let rest = trim_end s in if ends_here (code c) rest then "" else String.◌∷◌ c rest

-- `retry_after`, in nanoseconds; `until_date` is the time left until an HTTP date, or zero.
unfoldable pub retry_after : (until_date : String → Option ℕ) → List Header → Option ℕ
retry_after until_date headers = and_then (get_header "retry-after" headers) (λ value.
    and_then value.to_str (λ text.
      let trimmed = trim_end (trim_start text) in
      or_else (map_option (λ seconds. seconds * 1000000000) (parse_u64 trimmed))
        (until_date trimmed)))
