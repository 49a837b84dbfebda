-- ===== src/Tests/Responses.antt =====
-- internal/collector/streamjson.go and responsebody.go on small responses.
use ollama_exporter.Base.{
  ◌==◌, if◌then◌else◌, Bytes, codes, equal, ◌≤◌, ◌≡◌, refl, true, false, Option, none, some, List,
  [], ◌∷◌, ◌++◌, arith,
}
use ollama_exporter.Go.Strings.{contains}
use ollama_exporter.Go.Dict.{insert, lookup}
use ollama_exporter.Collector.JsonFields.{
  Json, Fields, Reason, no_reason, feed, empty, complete, byte, byte_in, idle_byte, frame_byte,
  key_byte, push, string_byte, end_scalar, end_key, set_state, value_byte, scalar_push, scalar_bad,
  next_scalar, scalar_byte, first_scalar, next_place, scalar_complete, close, end_value, one_of,
  open_container, path, path_of, plain_keys, scalar_end, value_done, wanted,
}
use ollama_exporter.Collector.JsonFields.Bounds.{IsBounded, feed-IsBounded}
use ollama_exporter.Collector.ResponseBody.{
  Outcome, succeeded, eof, no_err, new_response_body, feed_body, insert_all,
}
use ollama_exporter.Collector.ResponseBody.Once.{
  BodyCall, reads, closes, calls, reports_in, notices_in, closes_in, observations_in, calls_once,
}
use ollama_exporter.Collector.ResponseBody.Lines.{normalise, sse_bytes, settle, settle-feed_body}
use ollama_exporter.Collector.ResponseBody.Whole.{
  observed_in, read_all, whole, sample_of, any_error, is_error, merged, read_all_observes,
}

-- The text of a quoted token without escapes.
abbrev unquoted : Bytes → Bytes
unquoted [] = []
unquoted (c ∷ cs) = if c == b'"' then [] else c ∷ unquoted cs

abbrev plain_unquote : Bytes → Option Bytes
plain_unquote [] = none
plain_unquote (c ∷ cs) = if c == b'"' then some (unquoted cs) else none

abbrev plain_json : Json
plain_json = record { unquote = plain_unquote; valid = λ token. true }

abbrev successful : Fields → Outcome × Reason
successful f = (succeeded, no_reason)

abbrev done_text : Bytes
done_text = codes "{\"done\":true}"

empty-IsBounded : IsBounded empty
empty-IsBounded = record {
  token_small = omega arith;
  stack_small = omega arith;
  fields_small = tt;
  emitted_small = tt;
}

feed-IsBounded_example : IsBounded (feed plain_json done_text empty)
feed-IsBounded_example = feed-IsBounded plain_json done_text empty-IsBounded

abbrev early_close : List BodyCall
early_close = reads (codes "{\"done\"") no_err ∷ closes ∷ reads (codes ":true}") eof ∷ closes ∷ []

calls_once_example :
    let es = (calls plain_json successful false early_close new_response_body).events in
    (reports_in es ≤ 1)
    × (notices_in es ≤ 1)
    × (closes_in es ≤ 1)
    × (observations_in es ≤ reports_in es)
calls_once_example = calls_once plain_json successful false early_close

abbrev two_breaks : Bytes
two_breaks = codes "data:1" ++ 13 ∷ 10 ∷ 13 ∷ []

normalised : normalise two_breaks ≡ codes "data:1" ++ 10 ∷ 10 ∷ []
unfolding normalise
normalised = refl

settle-feed_body_example :
    settle plain_json (feed_body plain_json true two_breaks new_response_body)
    ≡ sse_bytes plain_json (normalise two_breaks) new_response_body
settle-feed_body_example = settle-feed_body plain_json two_breaks new_response_body at_start
  where
    at_start : new_response_body.pending_cr ≡ false
    at_start = unfold new_response_body in refl

read_all_observes_example :
    observed_in
      (read_all plain_json successful
        (codes "{\"do" ∷ codes "ne\":" ∷ [])
        (codes "true}")
        new_response_body).events
    ≡ sample_of (feed plain_json (whole (codes "{\"do" ∷ codes "ne\":" ∷ []) (codes "true}")) empty)
read_all_observes_example =
    read_all_observes plain_json successful (codes "{\"do" ∷ codes "ne\":" ∷ []) (codes "true}")

sample_done : sample_of (feed plain_json done_text empty) ≡ ((codes "done", codes "true") ∷ []) ∷ []
unfolding sample_of feed complete byte byte_in idle_byte frame_byte key_byte push string_byte
    end_scalar end_key set_state value_byte scalar_push scalar_bad next_scalar scalar_byte
    first_scalar next_place scalar_complete close end_value one_of open_container path path_of
    plain_keys scalar_end value_done wanted contains equal any_error is_error merged insert_all
    insert lookup
sample_done = refl
