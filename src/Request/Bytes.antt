-- ===== src/Request/Bytes.antt =====
-- src/request.rs: the bytes that a fingerprint hashes. SHA-256 itself is a parameter.
use Prim.Native.Char.{code}
use kaiion.Prelude.{
  ℕ, zero, suc, ◌+◌, ◌/◌, ◌%◌, String, List, [], ◌∷◌, ◌++◌, length, ltb, concat, if◌then◌else◌,
}

-- UTF-8, as `str::as_bytes` gives it.
unfoldable pub utf8_of : ℕ → List ℕ
utf8_of n =
    if ltb n 0x80
    then n ∷ []
    else if ltb n 0x800
    then (0xc0 + n / 0x40) ∷ (0x80 + n % 0x40) ∷ []
    else if ltb n 0x10000
    then (0xe0 + n / 0x1000) ∷ (0x80 + n / 0x40 % 0x40) ∷ (0x80 + n % 0x40) ∷ []
    else (0xf0 + n / 0x40000)
      ∷ (0x80 + n / 0x1000 % 0x40)
      ∷ (0x80 + n / 0x40 % 0x40)
      ∷ (0x80 + n % 0x40)
      ∷ []

unfoldable pub utf8 : String → List ℕ
utf8 String.[] = []
utf8 (String.◌∷◌ c s) = utf8_of (code c) ++ utf8 s

-- The last `count` base-256 digits of a number, the highest first.
unfoldable pub be_digits : (count : ℕ) → ℕ → List ℕ
be_digits zero n = []
be_digits (suc k) n = be_digits k (n / 256) ++ (n % 256 ∷ [])

-- `u64::to_be_bytes`
abbrev pub to_be_bytes : ℕ → List ℕ
to_be_bytes n = be_digits 8 n

-- What `hash_bytes` feeds to the hasher.
unfoldable pub hash_bytes : (name value : List ℕ) → List ℕ
hash_bytes name value = to_be_bytes (length name) ++ (name ++ (to_be_bytes (length value) ++ value))

unfoldable pub hash_component : (name value : String) → List ℕ
hash_component name value = hash_bytes (utf8 name) (utf8 value)

-- The n-th character of a text, as a text.
abbrev char_at : ℕ → String → String
char_at n String.[] = ""
char_at zero (String.◌∷◌ c s) = String.◌∷◌ c String.[]
char_at (suc n) (String.◌∷◌ c s) = char_at n s

abbrev hex_digit : ℕ → String
hex_digit n = char_at n "0123456789abcdef"

unfoldable pub hex_digest : List ℕ → String
hex_digest [] = ""
hex_digest (b ∷ bs) = concat (hex_digit (b / 16) ∷ hex_digit (b % 16) ∷ hex_digest bs ∷ [])
