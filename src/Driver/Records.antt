-- ===== src/Driver/Records.antt =====
-- src/driver.rs: which record of a Batch's output file decides a job.
use kaiion.Prelude.{String, Bool, true, false, ◌≡◌, refl, List, [], ◌∷◌, ◌++◌, ok, err, All, concat}
use kaiion.Json.{Value, Codec}
use kaiion.Driver.Output.{permanent, says, records, read_record, scan_output, parse_batch_output}

module _ (c : Codec) (custom_id model : String) where
  -- A line that is another job's record.
  abbrev pub IsForeign : String → Type 0
  IsForeign line = (v : Value) × (c.parse line ≡ ok v) × (says "custom_id" custom_id v ≡ false)

  scan_output-foreign :
      (saw : Bool) (line : String) (rest : List String)
      → IsForeign line
      → scan_output c custom_id model saw (line ∷ rest) ≡ scan_output c custom_id model true rest
  unfolding scan_output
  scan_output-foreign saw line rest (v, parsed, other) = rw (parsed, other) refl

  scan_output-record :
      (saw : Bool) (before after : List String) (line : String) (value : Value)
      → All IsForeign before
      → c.parse line ≡ ok value
      → says "custom_id" custom_id value ≡ true
      → scan_output c custom_id model saw (before ++ (line ∷ after)) ≡ read_record c model value
  unfolding scan_output
  scan_output-record saw [] after line value h parsed own = rw (parsed, own) refl
  scan_output-record saw (l ∷ before) after line value h parsed own =
      rw (scan_output-foreign saw l (before ++ (line ∷ after)) h.0)
        (scan_output-record true before after line value h.1 parsed own)

  scan_output-missing :
      (lines : List String)
      → All IsForeign lines
      → scan_output c custom_id model true lines
        ≡ err (permanent (concat ("batch output does not contain custom_id " ∷ custom_id ∷ [])))
  unfolding scan_output
  scan_output-missing [] h = refl
  scan_output-missing (l ∷ lines) h =
      rw (scan_output-foreign true l lines h.0) (scan_output-missing lines h.1)

-- The first record with the job's custom_id decides it, whatever follows, when the lines before it
-- are other jobs' records.
pub parse_batch_output-record :
    (c : Codec) (content custom_id model : String) (before after : List String) (line : String)
    (value : Value)
    → records content ≡ before ++ (line ∷ after)
    → All (IsForeign c custom_id model) before
    → c.parse line ≡ ok value
    → says "custom_id" custom_id value ≡ true
    → parse_batch_output c content custom_id model ≡ read_record c model value
unfolding parse_batch_output
parse_batch_output-record c content custom_id model before after line value cut h parsed own =
    rw cut (scan_output-record c custom_id model false before after line value h parsed own)

-- An output file that holds other jobs' records only is a permanent failure that names the missing
-- record.
pub parse_batch_output-missing :
    (c : Codec) (content custom_id model first : String) (rest : List String)
    → records content ≡ first ∷ rest
    → All (IsForeign c custom_id model) (first ∷ rest)
    → parse_batch_output c content custom_id model
      ≡ err (permanent (concat ("batch output does not contain custom_id " ∷ custom_id ∷ [])))
unfolding parse_batch_output
parse_batch_output-missing c content custom_id model first rest cut h =
    rw (cut, scan_output-foreign c custom_id model false first rest h.0)
      (scan_output-missing c custom_id model rest h.1)
