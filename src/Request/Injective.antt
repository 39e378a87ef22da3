-- ===== src/Request/Injective.antt =====
-- src/request.rs: the bytes that a fingerprint hashes determine what was hashed.
use Prim.Native.Char.{code}
use mathlib.Core.List.{append_assoc}
use text.Mathlib.TextEquality.{Char-path}
use kaiion.Prelude.{
  ℕ, zero, suc, ◌/◌, ◌%◌, ◌<◌, ◌≡◌, ◌≢◌, refl, sym, ◌∙◌, String, List, [], ◌∷◌, ◌++◌, length,
  length-append, arith,
}
use kaiion.Request.Bytes.{utf8_of, utf8, be_digits, to_be_bytes, hash_bytes}

append-inj :
    (xs ys zs ws : List ℕ) → length xs ≡ length ys → xs ++ zs ≡ ys ++ ws → (xs ≡ ys) × (zs ≡ ws)
append-inj [] [] zs ws h e = (refl, e)
append-inj [] (y ∷ ys) zs ws h e = ground (arith, h)
append-inj (x ∷ xs) [] zs ws h e = ground (arith, h)
append-inj (x ∷ xs) (y ∷ ys) zs ws h e =
    let (head, tail) : (x ≡ y) × (xs ++ zs ≡ ys ++ ws) = (cc e, cc e) in
    let (same, rest) = append-inj xs ys zs ws (omega (arith, h)) tail in (cc (head, same), rest)

length-be_digits : (k n : ℕ) → length (be_digits k n) ≡ k
unfolding be_digits
length-be_digits zero n = refl
length-be_digits (suc k) n =
    omega
      (arith, length-append (be_digits k (n / 256)) (n % 256 ∷ []), length-be_digits k (n / 256))

-- The number has at most this many digits.
abbrev Fits : ℕ → ℕ → Type 0
Fits zero n = n ≡ 0
Fits (suc k) n = Fits k (n / 256)

be_digits-inj : (k n m : ℕ) → Fits k n → Fits k m → be_digits k n ≡ be_digits k m → n ≡ m
unfolding be_digits
be_digits-inj zero n m f g e = f ∙ sym g
be_digits-inj (suc k) n m f g e =
    let (high, low) =
      append-inj (be_digits k (n / 256)) (be_digits k (m / 256)) _ _
        (length-be_digits k _ ∙ sym (length-be_digits k _)) e in
    let same = be_digits-inj k (n / 256) (m / 256) f g high in
    let digit : n % 256 ≡ m % 256 = cc low in omega (arith, same, digit)

u64-Fits : (n : ℕ) → n < 0x10000000000000000 → Fits 8 n
u64-Fits n h = omega arith

utf8_of-inj : (n m : ℕ) (xs ys : List ℕ) → utf8_of n ++ xs ≡ utf8_of m ++ ys → (n ≡ m) × (xs ≡ ys)
unfolding utf8_of
utf8_of-inj n m xs ys e = ground arith

utf8_of-nonempty : (n : ℕ) (xs : List ℕ) → utf8_of n ++ xs ≢ []
unfolding utf8_of
utf8_of-nonempty n xs = ground arith

-- UTF-8 is read back.
pub utf8-inj : (s t : String) → utf8 s ≡ utf8 t → s ≡ t
unfolding utf8
utf8-inj String.[] String.[] e = refl
utf8-inj String.[] (String.◌∷◌ d t) e = elim (utf8_of-nonempty (code d) (utf8 t) (sym e)) [ ]
utf8-inj (String.◌∷◌ c s) String.[] e = elim (utf8_of-nonempty (code c) (utf8 s) e) [ ]
utf8-inj (String.◌∷◌ c s) (String.◌∷◌ d t) e =
    let (same, rest) = utf8_of-inj (code c) (code d) (utf8 s) (utf8 t) e in
    cc (Char-path c d same, utf8-inj s t rest)

-- A text whose length a u64 holds, as every text in memory.
abbrev pub IsShort : String → Type 0
IsShort s = length (utf8 s) < 0x10000000000000000

-- Two runs of bytes that start with a number's digits and that many bytes.
sized-inj :
    (xs ys zs ws : List ℕ)
    → length xs < 0x10000000000000000
    → length ys < 0x10000000000000000
    → to_be_bytes (length xs) ++ (xs ++ zs) ≡ to_be_bytes (length ys) ++ (ys ++ ws)
    → (xs ≡ ys) × (zs ≡ ws)
sized-inj xs ys zs ws h k e =
    let (digits, rest) =
      append-inj (to_be_bytes (length xs)) (to_be_bytes (length ys)) _ _
        (length-be_digits 8 _ ∙ sym (length-be_digits 8 _)) e in
    append-inj xs ys zs ws
      (be_digits-inj 8 (length xs) (length ys) (u64-Fits _ h) (u64-Fits _ k) digits) rest

-- A component's bytes, with what follows them, give its name, its value and the rest.
pub hash_bytes-inj :
    (n v m w s t : List ℕ)
    → length n < 0x10000000000000000
    → length v < 0x10000000000000000
    → length m < 0x10000000000000000
    → length w < 0x10000000000000000
    → hash_bytes n v ++ s ≡ hash_bytes m w ++ t
    → (n ≡ m) × (v ≡ w) × (s ≡ t)
unfolding hash_bytes
hash_bytes-inj n v m w s t hn hv hm hw e =
    let (same, rest) =
      sized-inj n m (to_be_bytes (length v) ++ (v ++ s)) (to_be_bytes (length w) ++ (w ++ t)) hn hm
        (sym (unnest n v s) ∙ e ∙ unnest m w t) in
    let (value, tail) = sized-inj v w s t hv hw rest in (same, value, tail)
  where
    unnest :
        (n v s : List ℕ)
        → hash_bytes n v ++ s
          ≡ to_be_bytes (length n) ++ (n ++ (to_be_bytes (length v) ++ (v ++ s)))
    unnest n v s = simp append_assoc
