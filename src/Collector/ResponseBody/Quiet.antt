-- ===== src/Collector/ResponseBody/Quiet.antt =====
-- What feeding bytes to the observer leaves alone, and the one call that it may make.
use ollama_exporter.Base.{
  Option-cases, Bytes, ℕ, ◌≡◌, ◌⊎◌, inl, inr, Bool, true, false, List, [], ◌∷◌, ◌++◌, arith,
}
use ollama_exporter.Collector.JsonFields.{Json, Fields, Reason, byte}
use ollama_exporter.Collector.ResponseBody.{
  Body, noticed, fail, note_field_skip, merge, on_event_fields, on_document, on_emitted,
  parser_byte, take_marker, take_event, dispatch, line_end, data_byte, prefix_byte, sse_byte,
  stream_byte, feed_body, finish,
}

-- No call was made.
pub record IsQuiet (b b' : Body) : Type 0 where
  pub same_events : b'.events ≡ b.events
  pub same_notices : b'.notices ≡ b.notices
  pub same_reports : b'.reports ≡ b.reports
  pub same_closes : b'.closes ≡ b.closes
  pub same_ended : b'.ended ≡ b.ended
  pub same_cr : b'.pending_cr ≡ b.pending_cr

-- No call but perhaps the first notice of a skipped field.
pub record IsNoticing (b b' : Body) : Type 0 where
  pub notice :
      ((b'.events ≡ b.events) × (b'.notices ≡ b.notices))
      ⊎ ((b.notices ≡ false) × (b'.notices ≡ true) × (b'.events ≡ b.events ++ noticed ∷ []))
  pub kept_reports : b'.reports ≡ b.reports
  pub kept_closes : b'.closes ≡ b.closes
  pub kept_ended : b'.ended ≡ b.ended

fail-IsQuiet : (r : Reason) (b : Body) → IsQuiet b (fail r b)
unfolding fail
fail-IsQuiet r b = ground arith

merge-IsQuiet : (json : Json) (f : Fields) (b : Body) → IsQuiet b (merge json f b)
unfolding merge
merge-IsQuiet json f b = ground (arith, fail-IsQuiet Reason.upstream_error b)

on_event_fields-IsQuiet : (f : Fields) (b : Body) → IsQuiet b (on_event_fields f b)
unfolding on_event_fields fail
on_event_fields-IsQuiet f b = ground arith

on_document-IsQuiet :
    (json : Json) (sse : Bool) (f : Fields) (b : Body) → IsQuiet b (on_document json sse f b)
unfolding on_document
on_document-IsQuiet json sse f b =
    ground (arith, on_event_fields-IsQuiet f b, merge-IsQuiet json f (record b { seen = true }))

on_emitted-IsQuiet :
    (json : Json) (sse : Bool) (fs : List Fields) (b : Body) → IsQuiet b (on_emitted json sse fs b)
unfolding on_emitted
on_emitted-IsQuiet json sse [] b = ground arith
on_emitted-IsQuiet json sse (f ∷ fs) b = ground (
  arith,
  on_document-IsQuiet json sse f b,
  on_emitted-IsQuiet json sse fs (on_document json sse f b),
)

pub parser_byte-IsQuiet :
    (json : Json) (sse : Bool) (c : ℕ) (b : Body) → IsQuiet b (parser_byte json sse c b)
unfolding parser_byte
parser_byte-IsQuiet json sse c b =
    let j = byte json c (record b.parser { emitted = [] }) in
    ground (arith, on_emitted-IsQuiet json sse j.emitted (record b { parser = j }))

take_marker-IsQuiet : (b : Body) → IsQuiet b (take_marker b)
unfolding take_marker fail
take_marker-IsQuiet b = ground arith

take_event-IsQuiet : (json : Json) (b : Body) → IsQuiet b (take_event json b)
unfolding take_event fail
take_event-IsQuiet json b = elim (Option-cases b.event_fields) [
  | inl e ↦ ground arith
  | inr (f, e) ↦ ground (arith, merge-IsQuiet json f b)
]

pub note_field_skip-IsNoticing : (b : Body) → IsNoticing b (note_field_skip b)
unfolding note_field_skip
note_field_skip-IsNoticing b = ground arith

pub dispatch-IsNoticing :
    (json : Json) (b : Body)
    → IsNoticing b (dispatch json b) × ((dispatch json b).pending_cr ≡ b.pending_cr)
unfolding dispatch note_field_skip
dispatch-IsNoticing json b = ground (
  arith,
  take_marker-IsQuiet (note_field_skip b),
  take_event-IsQuiet json (take_marker (note_field_skip b)),
)

line_end-IsNoticing :
    (json : Json) (b : Body)
    → IsNoticing b (line_end json b) × ((line_end json b).pending_cr ≡ b.pending_cr)
unfolding line_end
line_end-IsNoticing json b =
    ground (arith, dispatch-IsNoticing json b, parser_byte-IsQuiet json true b'\n' b)

data_byte-IsQuiet : (json : Json) (c : ℕ) (b : Body) → IsQuiet b (data_byte json c b)
unfolding data_byte fail
data_byte-IsQuiet json c b = ground (arith, parser_byte-IsQuiet json true c b)

prefix_byte-IsQuiet : (c : ℕ) (b : Body) → IsQuiet b (prefix_byte c b)
unfolding prefix_byte
prefix_byte-IsQuiet c b = ground arith

pub sse_byte-IsNoticing :
    (json : Json) (c : ℕ) (b : Body)
    → IsNoticing b (sse_byte json c b) × ((sse_byte json c b).pending_cr ≡ b.pending_cr)
unfolding sse_byte
sse_byte-IsNoticing json c b = ground (
  arith,
  line_end-IsNoticing json b,
  data_byte-IsQuiet json c (record b { line_bytes = true }),
  prefix_byte-IsQuiet c (record b { line_bytes = true }),
)

pub IsNoticing-trans : {a b c : Body} → IsNoticing a b → IsNoticing b c → IsNoticing a c
IsNoticing-trans n m = ground arith

stream_byte-IsNoticing : (json : Json) (c : ℕ) (b : Body) → IsNoticing b (stream_byte json c b)
unfolding stream_byte
stream_byte-IsNoticing json c b =
    let s = record b { pending_cr = false } in
    ground (
      arith,
      sse_byte-IsNoticing json b'\n' s,
      sse_byte-IsNoticing json c s,
      sse_byte-IsNoticing json c b,
      sse_byte-IsNoticing json c (sse_byte json b'\n' s),
    )

pub feed_body-IsNoticing :
    (json : Json) (sse : Bool) (bytes : Bytes) (b : Body)
    → IsNoticing b (feed_body json sse bytes b)
unfolding feed_body
feed_body-IsNoticing json sse [] b = ground arith
feed_body-IsNoticing json true (c ∷ cs) b =
    IsNoticing-trans (stream_byte-IsNoticing json c b)
      (feed_body-IsNoticing json true cs (stream_byte json c b))
feed_body-IsNoticing json false (c ∷ cs) b =
    let q = parser_byte-IsQuiet json false c b in
    IsNoticing-trans (ground arith)
      (feed_body-IsNoticing json false cs (parser_byte json false c b))

pub finish-IsNoticing : (json : Json) (sse : Bool) (b : Body) → IsNoticing b (finish json sse b)
unfolding finish
finish-IsNoticing json sse b =
    let s = sse_byte json b'\n' b in
    ground (
      arith,
      dispatch-IsNoticing json b,
      dispatch-IsNoticing json s,
      IsNoticing-trans (sse_byte-IsNoticing json b'\n' b).0 (dispatch-IsNoticing json s).0,
    )
