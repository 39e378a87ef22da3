-- ===== src/Tests/Streams.antt =====
-- A Batch's output file and the stream of its job at concrete inputs.
use kaiion.Prelude.{◌≡◌, refl, true, [], ◌∷◌, some, err, All, blank, ◌++◌, lines, and_then, ok}
use kaiion.Json.{fields, get_field, insert_field, get, as_array, items, Value}
use kaiion.Domain.{queued, terminal, completed}
use kaiion.Driver.Output.{permanent, says, records, read_record, parse_batch_output}
use kaiion.Driver.Records.{IsForeign, parse_batch_output-record, parse_batch_output-missing}
use kaiion.Proxy.BatchStream.{heartbeat, changed, batch_stream}
use kaiion.Proxy.BatchStream.Delivered.{Waits, Delivered, batch_stream-Delivered}
use kaiion.Openai.{retryable, output_not_visible}
use kaiion.Openai.Content.{Response, get_file_content, passes, get_file_content-passes}
use kaiion.Tests.Samples.{codec, finished_body, output_record}
use kaiion.Tests.Proxy.{said, message}

-- Another job's record, then the job's own.
own_line : records "{}\nR" ≡ "{}" ∷ "R" ∷ []
unfolding lines blank
own_line = refl

foreign : All (IsForeign codec "kaiion-a" "gpt") ("{}" ∷ [])
unfolding get fields get_field insert_field
foreign = ((finished_body, refl, refl), tt)

own : says "custom_id" "kaiion-a" output_record ≡ true
unfolding get fields get_field insert_field
own = refl

parse_batch_output-record_example :
    parse_batch_output codec "{}\nR" "kaiion-a" "gpt" ≡ read_record codec "gpt" output_record
parse_batch_output-record_example =
    parse_batch_output-record codec "{}\nR" "kaiion-a" "gpt" ("{}" ∷ []) [] "R" output_record
      own_line foreign refl own

other_line : records "{}" ≡ "{}" ∷ []
unfolding lines blank
other_line = refl

parse_batch_output-missing_example :
    parse_batch_output codec "{}" "kaiion-a" "gpt"
    ≡ err (permanent "batch output does not contain custom_id kaiion-a")
parse_batch_output-missing_example =
    parse_batch_output-missing codec "{}" "kaiion-a" "gpt" "{}" [] other_line foreign

waiting : All Waits (record { current = queued; wake = heartbeat } ∷ [])
waiting = ((refl, λ e. cc e), tt)

listed : and_then (get "output" said) as_array ≡ some (items (message ∷ []))
unfolding get fields get_field insert_field
listed = refl

batch_stream-Delivered_example : Delivered codec "resp-1" "gpt" "hi" (
    batch_stream codec "resp-1" "gpt" (
      (record { current = queued; wake = heartbeat } ∷ [])
      ++ (record { current = terminal (completed said); wake = changed } ∷ [])))
unfolding get fields get_field insert_field
batch_stream-Delivered_example =
    batch_stream-Delivered codec "resp-1" "gpt" (record { current = queued; wake = heartbeat } ∷ [])
      [] said (items (message ∷ [])) changed waiting listed

abbrev not_there : Response Value
not_there = record {
  status = record { code = 404; shown = "404 Not Found" };
  utf8_text = ok "no such file";
  lossy_text = "no such file";
  decoded = err "expected value";
}

get_file_content-passes_example :
    retryable (output_not_visible not_there.status "no such file") ≡ passes 404
get_file_content-passes_example =
    get_file_content-passes not_there "no such file"
      (output_not_visible not_there.status "no such file") refl (unfold get_file_content in refl)
