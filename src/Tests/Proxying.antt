-- ===== src/Tests/Proxying.antt =====
-- internal/collector/proxy.go and usage.go on a few responses, and the run of a sender.
use ollama_exporter.Base.{
  Any, if◌then◌else◌, ℤ, pos, negsuc, Bytes, codes, ◌-◌, ◌≡◌, ◌≢◌, ◌↔◌, Bool, true, false, Option,
  none, some, [], ◌∷◌, ◌++◌,
}
use ollama_exporter.Collector.JsonFields.{Json, Fields}
use ollama_exporter.Collector.ResponseBody.{succeeded, failed}
use ollama_exporter.Collector.ModelCache.{Details}
use ollama_exporter.Collector.Proxy.{Recorded, GenerateResponse, record_usage, record_native}
use ollama_exporter.Collector.Proxy.Counted.{input_fields, output_fields, IsMalformed}
use ollama_exporter.Collector.Proxy.Laws.{
  IsCounted, record_usage_result, IsRecorded, record_native_result,
}
use ollama_exporter.Collector.Proxy.Handler.{
  Request, handle, in_flight, answers_in, durations_in, handle_settles,
}

abbrev silent_show : Bytes → Option Details
silent_show model = none

abbrev no_strings : Json
no_strings = record { unquote = λ token. none; valid = λ token. true }

-- One digit.
abbrev digit_of : Bytes → Option ℤ
digit_of (c ∷ []) = some (pos (c - b'0'))
digit_of _ = none

abbrev usage_fields : Fields
usage_fields =
    (codes "usage.prompt_tokens", codes "7") ∷ (codes "usage.output_tokens", codes "null") ∷ []

abbrev recorded : Recorded
recorded =
    record_usage no_strings digit_of silent_show (codes "qwen") (codes "/v1/messages") usage_fields
      []

record_usage_result_example :
    ((recorded.outcome ≡ failed)
      ↔ Any (IsMalformed digit_of usage_fields) (input_fields ++ output_fields))
    × (recorded.outcome ≡ failed → (recorded.events ≡ []) × (recorded.cache ≡ []))
    × (recorded.outcome ≢ failed
        → IsCounted no_strings digit_of silent_show
            (codes "qwen")
            (codes "/v1/messages")
            usage_fields
            []
            recorded)
record_usage_result_example =
    record_usage_result no_strings digit_of silent_show (codes "qwen") (codes "/v1/messages")
      usage_fields []

-- A final chunk with a negative count.
abbrev final_chunk : GenerateResponse
final_chunk = record {
  model = codes "qwen";
  done = true;
  load_duration = pos 0;
  prompt_eval_count = negsuc 4;
  prompt_eval_duration = pos 30;
  eval_count = pos 8;
  eval_duration = pos 70;
}

abbrev chunk_of : Fields → Option GenerateResponse
chunk_of f = some final_chunk

abbrev native : Recorded
native = record_native chunk_of silent_show (codes "/api/chat") [] []

record_native_result_example :
    ((native.outcome ≡ failed) ↔ (chunk_of [] ≡ none))
    × ((native.outcome ≡ succeeded)
        ↔ ((gen : GenerateResponse) × (chunk_of [] ≡ some gen) × (gen.done ≡ true)))
    × (native.outcome ≡ succeeded
        → (gen : GenerateResponse) × (chunk_of [] ≡ some gen)
          × IsRecorded silent_show gen (codes "/api/chat") [] native)
    × (native.outcome ≢ succeeded → (native.events ≡ []) × (native.cache ≡ []))
record_native_result_example = record_native_result chunk_of silent_show (codes "/api/chat") [] []

abbrev broken_request : Request
broken_request = record {
  query_model = codes "qwen";
  path = codes "/api/chat";
  is_post = true;
  has_body = true;
  prefix = codes "{\"mod";
  read_error = true;
}

abbrev none_excluded : Bytes → Bool
none_excluded path = false

handle_settles_example :
    let es = (handle no_strings silent_show none_excluded broken_request []).1 in
    (in_flight (codes "qwen") (codes "/api/chat") es ≡ pos 0)
    × (answers_in es ≡ 1)
    × (durations_in es ≡ (if none_excluded (codes "/api/chat") then 0 else 1))
handle_settles_example =
    handle_settles no_strings silent_show none_excluded broken_request [] (codes "qwen")
      (codes "/api/chat")
