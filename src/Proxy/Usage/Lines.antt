-- ===== src/Proxy/Usage/Lines.antt =====
-- src/proxy.rs: the lines of an event stream, and what `SseUsageTracker` makes of each.
use mathlib.Core.List.{append_assoc, append-nil}
use kaiion.Prelude.{
  ℕ, ◌+◌, ◌≤◌, ◌<◌, ◌≡◌, ◌≢◌, refl, sym, ap, ◌∙◌, List, [], ◌∷◌, ◌++◌, Bool, true, false, ◌==◌, ltb,
  length, length-append, arith, String, Result, Option, none, some, All, if◌then◌else◌, inl, inr,
  Bool-cases, map_option, unwrap_or,
}
use kaiion.Json.{Value}
use kaiion.Request.Inputs.{ResponseUsage}
use kaiion.Proxy.Usage.{
  SseUsageTracker, max_event_bytes, process_event, append_data, separated, process_bytes, end_line,
  push_byte, push_bytes, data_of, strip_bytes, data_prefix, without_return, note_event,
}

-- A line of an event: a line of data, or another field or comment.
pub data StreamLine : Type 0 where
  says other : List ℕ → StreamLine

abbrev pub line_text : StreamLine → List ℕ
line_text (says payload) = data_prefix ++ (b' ' ∷ payload)
line_text (other bytes) = bytes

-- What ends a line, in a stream that writes carriage returns or not.
abbrev pub ending : (with_return : Bool) → List ℕ
ending true = b'\r' ∷ b'\n' ∷ []
ending false = b'\n' ∷ []

abbrev pub lines_bytes : Bool → List StreamLine → List ℕ
lines_bytes r [] = []
lines_bytes r (l ∷ ls) = (line_text l ++ ending r) ++ lines_bytes r ls

-- The lines of data.
abbrev pub payloads_of : List StreamLine → List (List ℕ)
payloads_of [] = []
payloads_of (says payload ∷ ls) = payload ∷ payloads_of ls
payloads_of (other bytes ∷ ls) = payloads_of ls

-- Lines with a newline between each two.
abbrev pub join_lines : List (List ℕ) → List ℕ
join_lines [] = []
join_lines (p ∷ []) = p
join_lines (p ∷ q ∷ ps) = p ++ (b'\n' ∷ join_lines (q ∷ ps))

abbrev pub IsPlain : List ℕ → Type 0
IsPlain = All (λ b. ((b == b'\n') ≡ false) × ((b == b'\r') ≡ false))

-- A line has no newline or carriage return in it, and with its carriage return it fits 2 MiB; a
-- line of data has some, and another line is not empty and does not start with `data:`.
abbrev pub IsLine : StreamLine → Type 0
IsLine (says payload) = (payload ≢ []) × IsPlain payload × (length payload + 7 ≤ max_event_bytes)
IsLine (other bytes) =
    (bytes ≢ [])
    × ((rest : List ℕ) → bytes ≢ data_prefix ++ rest)
    × IsPlain bytes
    × (length bytes + 1 ≤ max_event_bytes)

-- A tracker that has read this much of a line, in an event with this much data.
abbrev pub reading : (line read : List ℕ) → Option ResponseUsage → SseUsageTracker
reading line read usage = record {
  line = line;
  data_bytes = read;
  usage = usage;
  oversized = false;
}

strip_bytes-prefix :
    (prefix bytes rest : List ℕ) → strip_bytes prefix bytes ≡ some rest → bytes ≡ prefix ++ rest
unfolding strip_bytes
strip_bytes-prefix [] bytes rest h = cc
strip_bytes-prefix (p ∷ ps) [] rest h = cc
strip_bytes-prefix (p ∷ ps) (b ∷ bs) rest h = elim (Bool-cases (p == b)) [
  | inl e ↦
      let same : p ≡ b = ground arith in
      λ i. sym same i ∷ strip_bytes-prefix ps bs rest (rw e at h) i
  | inr e ↦ cc (rw e at h)
]

data_of-other :
    (bytes : List ℕ) → ((rest : List ℕ) → bytes ≢ data_prefix ++ rest) → data_of bytes ≡ none
unfolding data_of
data_of-other bytes h = without (strip_bytes data_prefix bytes) refl
  where
    without :
        (o : Option (List ℕ))
        → strip_bytes data_prefix bytes ≡ o
        → map_option (λ value. unwrap_or (strip_bytes (b' ' ∷ []) value) value) o ≡ none
    without none e = refl
    without (some rest) e = elim (h rest (strip_bytes-prefix data_prefix bytes rest e)) [ ]

without_return-plain : (line : List ℕ) → IsPlain line → without_return line ≡ line
unfolding without_return
without_return-plain [] h = refl
without_return-plain (b ∷ []) h = rw (h.0.1) refl
without_return-plain (b ∷ c ∷ bs) h = ap (λ l. b ∷ l) (without_return-plain (c ∷ bs) h.1)

without_return-returned : (line : List ℕ) → without_return (line ++ (b'\r' ∷ [])) ≡ line
unfolding without_return
without_return-returned [] = refl
without_return-returned (b ∷ []) = refl
without_return-returned (b ∷ c ∷ bs) = ap (λ l. b ∷ l) (without_return-returned (c ∷ bs))

line_text-IsPlain : (l : StreamLine) → IsLine l → IsPlain (line_text l)
line_text-IsPlain (other bytes) h = h.2
line_text-IsPlain (says payload) h =
    let plain : (false ≡ false) × (false ≡ false) = (refl, refl) in
    (plain, (plain, (plain, (plain, (plain, (plain, h.1))))))

line_text-fits : (l : StreamLine) → IsLine l → length (line_text l) < max_event_bytes
line_text-fits (other bytes) h = omega (arith, h)
line_text-fits (says payload) h = omega (arith, h)

-- The data of an event after a line, and after lines.
abbrev pub after_line : StreamLine → List ℕ → List ℕ
after_line (says payload) read = separated read ++ payload
after_line (other bytes) read = read

abbrev pub after_lines : List StreamLine → List ℕ → List ℕ
after_lines [] read = read
after_lines (l ∷ ls) read = after_lines ls (after_line l read)

separated-ge : (read : List ℕ) → length read ≤ length (separated read)
separated-ge [] = omega arith
separated-ge (b ∷ bs) = omega (arith, length-append (b ∷ bs) (b'\n' ∷ []))

after_lines-ge : (ls : List StreamLine) (read : List ℕ) → length read ≤ length (after_lines ls read)
after_lines-ge [] read = omega arith
after_lines-ge (other bytes ∷ ls) read = after_lines-ge ls read
after_lines-ge (says payload ∷ ls) read = omega (
  arith,
  after_lines-ge ls (separated read ++ payload),
  separated-ge read,
  length-append (separated read) payload,
)

module _ (from_slice : List ℕ → Result String Value) where
  pub push_bytes-append :
      (xs ys : List ℕ) (t : SseUsageTracker)
      → push_bytes from_slice (xs ++ ys) t ≡ push_bytes from_slice ys (push_bytes from_slice xs t)
  unfolding push_bytes
  push_bytes-append [] ys t = refl
  push_bytes-append (x ∷ xs) ys t = push_bytes-append xs ys (push_byte from_slice x t)

  push_byte-reading :
      (line read : List ℕ) (b : ℕ) (usage : Option ResponseUsage)
      → (b == b'\n') ≡ false
      → length line < max_event_bytes
      → push_byte from_slice b (reading line read usage) ≡ reading (line ++ (b ∷ [])) read usage
  unfolding push_byte
  push_byte-reading line read b usage h k =
      let room : ltb (length line) max_event_bytes ≡ true = ground arith in rw (h, room) refl

  push_bytes-reading :
      (line read bytes : List ℕ) (usage : Option ResponseUsage)
      → IsPlain bytes
      → length line + length bytes ≤ max_event_bytes
      → push_bytes from_slice bytes (reading line read usage) ≡ reading (line ++ bytes) read usage
  unfolding push_bytes
  push_bytes-reading line read [] usage h k = ap (λ l. reading l read usage) (sym (append-nil line))
  push_bytes-reading line read (b ∷ bs) usage h k =
      ap (push_bytes from_slice bs) (push_byte-reading line read b usage h.0.0 (omega (arith, k)))
      ∙ push_bytes-reading (line ++ (b ∷ [])) read bs usage h.1
          (omega (arith, k, length-append line (b ∷ [])))
      ∙ ap (λ l. reading l read usage) (append_assoc line (b ∷ []) bs)

  append_data-reading :
      (payload line read : List ℕ) (usage : Option ResponseUsage)
      → length read + length payload ≤ max_event_bytes
      → append_data from_slice payload (reading line read usage)
        ≡ reading line (separated read ++ payload) usage
  unfolding append_data
  append_data-reading payload line read usage h =
      let fits : ltb max_event_bytes (length read + length payload) ≡ false = ground arith in
      rw fits refl

  -- What is done with a line once its carriage return is off.
  process_bytes-line :
      (l : StreamLine) (line read : List ℕ) (usage : Option ResponseUsage)
      → IsLine l
      → length (after_line l read) ≤ max_event_bytes
      → process_bytes from_slice (line_text l) (reading line read usage)
        ≡ reading line (after_line l read) usage
  unfolding process_bytes data_of
  process_bytes-line (says payload) line read usage h fits =
      append_data-reading payload line read usage
        (omega (arith, fits, separated-ge read, length-append (separated read) payload))
  process_bytes-line (other []) line read usage h fits = elim (h.0 refl) [ ]
  process_bytes-line (other (b ∷ bs)) line read usage h fits = rw (data_of-other (b ∷ bs) h.1) refl

  -- The bytes that end a line hand it over.
  push_ending :
      (r : Bool) (line read : List ℕ) (usage : Option ResponseUsage)
      → IsPlain line
      → length line < max_event_bytes
      → push_bytes from_slice (ending r) (reading line read usage) ≡ (
          let u =
            process_bytes from_slice line
              (reading (if r then line ++ (b'\r' ∷ []) else line) read usage) in
          record { line = []; data_bytes = u.data_bytes; usage = u.usage; oversized = u.oversized })
  unfolding push_bytes push_byte end_line
  push_ending true line read usage h k =
      let room : ltb (length line) max_event_bytes ≡ true = ground arith in
      rw (room, without_return-returned line) refl
  push_ending false line read usage h k = rw (without_return-plain line h) refl

  push_line :
      (r : Bool) (l : StreamLine) (read : List ℕ) (usage : Option ResponseUsage)
      → IsLine l
      → length (after_line l read) ≤ max_event_bytes
      → push_bytes from_slice (line_text l ++ ending r) (reading [] read usage)
        ≡ reading [] (after_line l read) usage
  push_line r l read usage h fits =
      let short : length (line_text l) < max_event_bytes = line_text-fits l h in
      push_bytes-append (line_text l) (ending r) (reading [] read usage)
      ∙ ap (push_bytes from_slice (ending r)) (
          push_bytes-reading [] read (line_text l) usage (line_text-IsPlain l h)
            (omega (arith, short)))
      ∙ push_ending r (line_text l) read usage (line_text-IsPlain l h) short
      ∙ ap
          (λ (u : SseUsageTracker). record {
            line = [];
            data_bytes = u.data_bytes;
            usage = u.usage;
            oversized = u.oversized;
          })
          (process_bytes-line l (if r then line_text l ++ (b'\r' ∷ []) else line_text l) read usage
            h fits)

  -- The lines of an event gather its data.
  pub push_lines :
      (r : Bool) (ls : List StreamLine) (read : List ℕ) (usage : Option ResponseUsage)
      → All IsLine ls
      → length (after_lines ls read) ≤ max_event_bytes
      → push_bytes from_slice (lines_bytes r ls) (reading [] read usage)
        ≡ reading [] (after_lines ls read) usage
  unfolding push_bytes
  push_lines r [] read usage h fits = refl
  push_lines r (l ∷ ls) read usage h fits =
      push_bytes-append (line_text l ++ ending r) (lines_bytes r ls) (reading [] read usage)
      ∙ ap (push_bytes from_slice (lines_bytes r ls)) (
          push_line r l read usage h.0 (omega (arith, fits, after_lines-ge ls (after_line l read))))
      ∙ push_lines r ls (after_line l read) usage h.1 fits

  -- An empty line ends the event.
  pub push_blank :
      (r : Bool) (read : List ℕ) (usage : Option ResponseUsage)
      → push_bytes from_slice (ending r) (reading [] read usage)
        ≡ reading [] [] (note_event from_slice usage read)
  unfolding process_bytes process_event
  push_blank r read usage = push_ending r [] read usage tt (omega arith)
