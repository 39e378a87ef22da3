-- ===== src/Proxy/Usage/Buffers.antt =====
-- src/proxy.rs: how much `SseUsageTracker` holds.
use kaiion.Prelude.{
  ℕ, suc, ◌+◌, ◌≤◌, List, [], ◌∷◌, ◌==◌, ltb, length, length-append, arith, String, Result, Option,
  none, some, inl, inr, Bool-cases, if-holds,
}
use kaiion.Json.{Value}
use kaiion.Proxy.Usage.{
  SseUsageTracker, fresh_tracker, max_event_bytes, process_event, append_data, take_data,
  process_bytes, end_line, push_byte, push_bytes, push_chunks, data_of, without_return, separated,
}

-- The line is bounded, and the data by one byte more, for the newline that joins two lines.
pub record Bounded (t : SseUsageTracker) : Type 0 where
  pub line_bound : length t.line ≤ max_event_bytes
  pub data_bound : length t.data_bytes ≤ max_event_bytes + 1

module _ (from_slice : List ℕ → Result String Value) where
  separated-le : (bytes : List ℕ) → length (separated bytes) ≤ length bytes + 1
  separated-le [] = omega arith
  separated-le (b ∷ bs) = omega (arith, length-append (b ∷ bs) (10 ∷ []))

  append_data-Bounded :
      (value : List ℕ) (t : SseUsageTracker) → Bounded t → Bounded (append_data from_slice value t)
  unfolding append_data
  append_data-Bounded value t h =
      elim (Bool-cases (ltb max_event_bytes (length t.data_bytes + length value))) [
        | inl e ↦ rw e (record { line_bound = h.line_bound; data_bound = omega arith })
        | inr e ↦
            let fits : length t.data_bytes + length value ≤ max_event_bytes = ground arith in
            rw e (record {
              line_bound = h.line_bound;
              data_bound = omega (
                arith,
                fits,
                separated-le t.data_bytes,
                length-append (separated t.data_bytes) value,
              );
            })
      ]

  process_event-Bounded : (t : SseUsageTracker) → Bounded t → Bounded (process_event from_slice t)
  unfolding process_event
  process_event-Bounded t h = record { line_bound = h.line_bound; data_bound = omega arith }

  take_data-Bounded :
      (o : Option (List ℕ)) (t : SseUsageTracker) → Bounded t → Bounded (take_data from_slice o t)
  take_data-Bounded none t h = h
  take_data-Bounded (some value) t h =
      if-holds Bounded t.oversized h (append_data-Bounded value t h)

  process_bytes-Bounded :
      (line : List ℕ) (t : SseUsageTracker) → Bounded t → Bounded (process_bytes from_slice line t)
  unfolding process_bytes
  process_bytes-Bounded [] t h = process_event-Bounded t h
  process_bytes-Bounded (b ∷ bs) t h = take_data-Bounded (data_of (b ∷ bs)) t h

  end_line-Bounded : (t : SseUsageTracker) → Bounded t → Bounded (end_line from_slice t)
  unfolding end_line
  end_line-Bounded t h = record {
    line_bound = omega arith;
    data_bound = (process_bytes-Bounded (without_return t.line) t h).data_bound;
  }

  push_byte-Bounded :
      (byte : ℕ) (t : SseUsageTracker) → Bounded t → Bounded (push_byte from_slice byte t)
  unfolding push_byte
  push_byte-Bounded byte t h = elim (Bool-cases (byte == 10)) [
    | inl e ↦ rw e (end_line-Bounded t h)
    | inr e ↦ rw e (elim (Bool-cases (ltb (length t.line) max_event_bytes)) [
      | inl f ↦
          let room : suc (length t.line) ≤ max_event_bytes = ground arith in
          rw f (record {
            line_bound = omega (arith, room, length-append t.line (byte ∷ []));
            data_bound = h.data_bound;
          })
      | inr f ↦ rw f h
    ])
  ]

  push_bytes-Bounded :
      (bytes : List ℕ) (t : SseUsageTracker) → Bounded t → Bounded (push_bytes from_slice bytes t)
  unfolding push_bytes
  push_bytes-Bounded [] t h = h
  push_bytes-Bounded (byte ∷ bytes) t h = push_bytes-Bounded bytes _ (push_byte-Bounded byte t h)

  push_chunks-Bounded :
      (chunks : List (List ℕ)) (t : SseUsageTracker)
      → Bounded t
      → Bounded (push_chunks from_slice chunks t)
  unfolding push_chunks
  push_chunks-Bounded [] t h = h
  push_chunks-Bounded (chunk ∷ chunks) t h =
      push_chunks-Bounded chunks _ (push_bytes-Bounded chunk t h)

-- Whatever a stream sends, and however it is cut into chunks, the tracker never holds a line of
-- more than 2 MiB, nor more than 2 MiB and one byte of an event's data.
pub fresh_tracker-Bounded :
    (from_slice : List ℕ → Result String Value) (chunks : List (List ℕ))
    → Bounded (push_chunks from_slice chunks fresh_tracker)
fresh_tracker-Bounded from_slice chunks =
    push_chunks-Bounded from_slice chunks fresh_tracker
      (record { line_bound = omega arith; data_bound = omega arith })
