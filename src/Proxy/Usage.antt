-- ===== src/Proxy/Usage.antt =====
-- src/proxy.rs: `SseUsageTracker`, which reads the usage from a live event stream as its bytes pass.
-- A buffer is a list of bytes.
pub mod Lines
pub mod Stream
pub mod Buffers
use kaiion.Prelude.{
  ℕ, ◌+◌, Bool, true, false, not, ◌&&◌, ◌||◌, ◌==◌, Option, none, some, List, [], ◌∷◌, ◌++◌, Result,
  ok, err, length, ltb, leb, if◌then◌else◌, is_some, map_option, String, unwrap_or,
}
use kaiion.Json.{Value}
use kaiion.Request.Inputs.{ResponseUsage, response_usage}

abbrev pub max_event_bytes : ℕ
max_event_bytes = 2097152

pub record SseUsageTracker : Type 0 where
  pub line : List ℕ
  pub data_bytes : List ℕ
  pub usage : Option ResponseUsage
  pub oversized : Bool

-- `SseUsageTracker::default()`
abbrev pub fresh_tracker : SseUsageTracker
fresh_tracker = record { line = []; data_bytes = []; usage = none; oversized = false }

-- `if self.line.last() == Some(&b'\r') { self.line.pop(); }`
unfoldable pub without_return : List ℕ → List ℕ
without_return [] = []
without_return (b ∷ []) = if b == b'\r' then [] else b ∷ []
without_return (b ∷ c ∷ bs) = b ∷ without_return (c ∷ bs)

-- `slice::strip_prefix`
unfoldable pub strip_bytes : (prefix bytes : List ℕ) → Option (List ℕ)
strip_bytes [] bytes = some bytes
strip_bytes (p ∷ ps) [] = none
strip_bytes (p ∷ ps) (b ∷ bs) = if p == b then strip_bytes ps bs else none

abbrev pub data_prefix : List ℕ
data_prefix = b'd' ∷ b'a' ∷ b't' ∷ b'a' ∷ b':' ∷ []

-- What follows `data:` on a line, less one space.
unfoldable pub data_of : List ℕ → Option (List ℕ)
unfolding strip_bytes
data_of line =
    map_option (λ value. unwrap_or (strip_bytes (b' ' ∷ []) value) value)
      (strip_bytes data_prefix line)

abbrev has_usage : ResponseUsage → Bool
has_usage (input, output, cached) = is_some input || (is_some output || is_some cached)

-- The usage to keep after an event that parses to this.
abbrev noted : Option ResponseUsage → ResponseUsage → Option ResponseUsage
noted before usage = if has_usage usage then some usage else before

-- `if !self.data.is_empty() { self.data.push(b'\n'); }`
abbrev pub separated : List ℕ → List ℕ
separated [] = []
separated (b ∷ bs) = (b ∷ bs) ++ (b'\n' ∷ [])

module _ (from_slice : List ℕ → Result String Value) where
  -- The usage to keep after an event's bytes.
  unfoldable pub note_event : Option ResponseUsage → List ℕ → Option ResponseUsage
  note_event before [] = before
  note_event before (b ∷ bs) = elim (from_slice (b ∷ bs)) [
    | ok value ↦ noted before (response_usage value)
    | err e ↦ before
  ]

  unfoldable pub process_event : SseUsageTracker → SseUsageTracker
  process_event t = record {
    line = t.line;
    data_bytes = [];
    usage = if t.oversized then t.usage else note_event t.usage t.data_bytes;
    oversized = false;
  }

  unfoldable pub append_data : List ℕ → SseUsageTracker → SseUsageTracker
  append_data value t =
      if ltb max_event_bytes (length t.data_bytes + length value)
      then record { line = t.line; data_bytes = []; usage = t.usage; oversized = true }
      else record {
        line = t.line;
        data_bytes = separated t.data_bytes ++ value;
        usage = t.usage;
        oversized = t.oversized;
      }

  abbrev pub take_data : Option (List ℕ) → SseUsageTracker → SseUsageTracker
  take_data none t = t
  take_data (some value) t = if t.oversized then t else append_data value t

  -- `process_line`, on the line less its carriage return
  unfoldable pub process_bytes : List ℕ → SseUsageTracker → SseUsageTracker
  process_bytes [] t = process_event t
  process_bytes (b ∷ bs) t = take_data (data_of (b ∷ bs)) t

  -- `self.process_line(); self.line.clear();`
  unfoldable pub end_line : SseUsageTracker → SseUsageTracker
  end_line t =
      let u = process_bytes (without_return t.line) t in
      record { line = []; data_bytes = u.data_bytes; usage = u.usage; oversized = u.oversized }

  unfoldable pub push_byte : ℕ → SseUsageTracker → SseUsageTracker
  push_byte byte t =
      if byte == b'\n'
      then end_line t
      else if ltb (length t.line) max_event_bytes
      then record {
        line = t.line ++ (byte ∷ []);
        data_bytes = t.data_bytes;
        usage = t.usage;
        oversized = t.oversized;
      }
      else t

  -- `push`
  unfoldable pub push_bytes : List ℕ → SseUsageTracker → SseUsageTracker
  push_bytes [] t = t
  push_bytes (byte ∷ bytes) t = push_bytes bytes (push_byte byte t)

  abbrev pub flush_line : List ℕ → SseUsageTracker → SseUsageTracker
  flush_line [] t = t
  flush_line (b ∷ bs) t = end_line t

  unfoldable pub finish : SseUsageTracker → SseUsageTracker
  finish t = process_event (flush_line t.line t)

  -- The chunks of a stream, in turn.
  unfoldable pub push_chunks : List (List ℕ) → SseUsageTracker → SseUsageTracker
  push_chunks [] t = t
  push_chunks (chunk ∷ chunks) t = push_chunks chunks (push_bytes chunk t)
