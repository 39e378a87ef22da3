-- ===== src/Proxy/Usage/Stream.antt =====
-- src/proxy.rs: what `SseUsageTracker` has read at the end of a stream.
use kaiion.Prelude.{
  ℕ, ◌≤◌, List, [], ◌∷◌, ◌++◌, Bool, length, String, Result, ok, err, Option, none, some, All,
  or_else, is_some, ◌||◌, if◌then◌else◌,
}
use kaiion.Json.{Value}
use kaiion.Request.Inputs.{ResponseUsage, response_usage}
use kaiion.Proxy.Usage.{max_event_bytes}
use kaiion.Proxy.Usage.Lines.{StreamLine, ending, lines_bytes, payloads_of, join_lines, IsLine}

-- The data of an event is what its lines of data say.
abbrev pub event_data : List StreamLine → List ℕ
event_data ls = join_lines (payloads_of ls)

-- An event of such lines, whose data fits 2 MiB.
abbrev pub IsEvent : List StreamLine → Type 0
IsEvent ls = All IsLine ls × (length (event_data ls) ≤ max_event_bytes)

-- Each event is its lines and an empty line.
abbrev pub stream_bytes : (with_return : Bool) → List (List StreamLine) → List ℕ
stream_bytes r [] = []
stream_bytes r (event ∷ events) = (lines_bytes r event ++ ending r) ++ stream_bytes r events

-- All the bytes of the chunks.
abbrev pub joined : List (List ℕ) → List ℕ
joined [] = []
joined (chunk ∷ chunks) = chunk ++ joined chunks

module _ (from_slice : List ℕ → Result String Value) where
  -- The usage that an event reports, if its data is JSON with some count in it.
  abbrev pub counts_of : ResponseUsage → Option ResponseUsage
  counts_of (input, output, cached) =
      if is_some input || (is_some output || is_some cached)
      then some (input, output, cached)
      else none

  abbrev pub reported : List ℕ → Option ResponseUsage
  reported [] = none
  reported (b ∷ bs) = elim (from_slice (b ∷ bs)) [
    | ok value ↦ counts_of (response_usage value)
    | err e ↦ none
  ]

  -- The last usage that is reported.
  abbrev pub last_usage : List (List StreamLine) → Option ResponseUsage
  last_usage [] = none
  last_usage (event ∷ events) = or_else (last_usage events) (reported (event_data event))
