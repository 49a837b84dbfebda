-- ===== src/Collector/ResponseBody.antt =====
-- internal/collector/responsebody.go: the observer of a response body, as `modifyResponse` of
-- proxy.go installs it, so with a `result` and a `notice`. What a read of the source returns is an
-- argument. `prefix` and `marker` hold a code point for each byte, since `string(c)` makes a rune of it.
pub mod Quiet
pub mod Once
pub mod Lines
pub mod Whole
mod Observer
unfoldable pub use Observer.*
mod Stream
unfoldable pub use Stream.*
use ollama_exporter.Base.{
  if◌then◌else◌, Bytes, Bool, true, false, not, ◌&&◌, ◌||◌, Option, none, some, [], ◌∷◌,
}
use ollama_exporter.Collector.JsonFields.{
  Json, Fields, Reason, incomplete, read_error, body_closed, no_reason, complete, failure_reason,
}

unfoldable pub feed_body : Json → Bool → Bytes → Body → Body
feed_body json sse [] b = b
feed_body json sse (c ∷ cs) b =
    feed_body json sse cs (if sse then stream_byte json c b else parser_byte json false c b)

-- The last line and the last event of a stream.
unfoldable pub finish : Json → Bool → Body → Body
unfolding sse_byte
finish json sse b =
    if sse
    then dispatch json (if b.line_bytes || b.pending_cr then sse_byte json b'\n' b else b)
    else b

-- `extract` is the callback of `modifyResponse`: what it reports of a sample.
unfoldable pub observe : (Fields → Outcome × Reason) → Body → Body
unfolding report
observe extract b =
    let (outcome, reason) = extract b.sample in report outcome reason (tell (observed b.sample) b)

abbrev pub or_none : Option Reason → Reason
or_none none = no_reason
or_none (some r) = r

unfoldable pub conclude : (Fields → Outcome × Reason) → Bool → Body → Body
unfolding report observe
conclude extract sse b =
    if not b.failing && complete b.parser && (b.seen || b.terminal) && (not sse || b.terminal)
    then observe extract b
    else if b.failing
    then report failed (or_none b.failure) b
    else if not (complete b.parser)
    then report failed (failure_reason b.parser) b
    else report skipped incomplete b

-- The error of a read of the source.
pub data ReadErr : Type 0 where
  no_err eof other_err : ReadErr

unfoldable pub on_read_err : Json → (Fields → Outcome × Reason) → Bool → ReadErr → Body → Body
unfolding report
on_read_err json extract sse no_err b = b
on_read_err json extract sse eof b =
    conclude extract sse (finish json sse (record b { ended = true }))
on_read_err json extract sse other_err b = report failed read_error (record b { ended = true })

-- `Read`, given the bytes and the error that the source returned; the caller gets both as they are.
unfoldable pub read : Json → (Fields → Outcome × Reason) → Bool → Bytes → ReadErr → Body → Body
unfolding note_field_skip
read json extract sse bytes err b =
    if b.ended
    then b
    else on_read_err json extract sse err (note_field_skip (feed_body json sse bytes b))

unfoldable pub close : Body → Body
unfolding report
close b =
    report skipped body_closed
      (if b.closes then b else tell source_closed (record b { closes = true }))
