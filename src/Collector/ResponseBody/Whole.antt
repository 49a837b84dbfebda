-- ===== src/Collector/ResponseBody/Whole.antt =====
-- A response that is no event stream: the observer against the recogniser run on the whole text.
use ollama_exporter.Base.{
  if◌then◌else◌, Bytes, codes, ℕ, ◌≡◌, refl, sym, ap, ◌∙◌, Bool, true, false, not, ◌&&◌, ◌||◌, none,
  some, List, [], ◌∷◌, ◌++◌, append-nil, arith,
}
use ollama_exporter.Go.Dict.{lookup}
use ollama_exporter.Collector.JsonFields.{
  Json, JsonFields, Fields, Reason, byte, feed, complete, failure_reason, empty,
}
use ollama_exporter.Collector.JsonFields.Emits.{behind, byte-behind}
use ollama_exporter.Collector.ResponseBody.{
  Body, BodyEvent, observed, reported, noticed, source_closed, Outcome, no_err, eof,
  new_response_body, fail, report, note_field_skip, insert_all, merge, on_document, on_emitted,
  parser_byte, feed_body, finish, observe, conclude, on_read_err, read, or_none,
}

unfoldable pub observed_in : List BodyEvent → List Fields
observed_in [] = []
observed_in (observed f ∷ es) = f ∷ observed_in es
observed_in (_ ∷ es) = observed_in es

observed_in-append :
    (xs ys : List BodyEvent) → observed_in (xs ++ ys) ≡ observed_in xs ++ observed_in ys
unfolding observed_in
observed_in-append [] ys = refl
observed_in-append (observed f ∷ xs) ys = ap (◌∷◌ f) (observed_in-append xs ys)
observed_in-append (reported o r ∷ xs) ys = observed_in-append xs ys
observed_in-append (noticed ∷ xs) ys = observed_in-append xs ys
observed_in-append (source_closed ∷ xs) ys = observed_in-append xs ys

-- A document that carries an error.
unfoldable pub is_error : Fields → Bool
is_error f = elim (lookup (codes "error") f) [ none ↦ false | some e ↦ true ]

unfoldable pub any_error : List Fields → Bool
any_error [] = false
any_error (f ∷ fs) = is_error f || any_error fs

-- The fields of the documents that carry none, later ones replacing earlier ones of the same name.
unfoldable pub merged : Fields → List Fields → Fields
merged sample [] = sample
merged sample (f ∷ fs) = merged (if is_error f then sample else insert_all f sample) fs

abbrev pub is_nil : List Fields → Bool
is_nil [] = true
is_nil (_ ∷ _) = false

any_error-append : (xs ys : List Fields) → any_error (xs ++ ys) ≡ (any_error xs || any_error ys)
unfolding any_error
any_error-append [] ys = refl
any_error-append (x ∷ xs) ys = ground (arith, any_error-append xs ys)

merged-append : (s : Fields) (xs ys : List Fields) → merged s (xs ++ ys) ≡ merged (merged s xs) ys
unfolding merged
merged-append s [] ys = refl
merged-append s (x ∷ xs) ys = merged-append (if is_error x then s else insert_all x s) xs ys

-- The observer has read what brought the recogniser to `j`.
record IsReading (b : Body) (j : JsonFields) : Type 0 where
  same_parser : record b.parser { emitted = [] } ≡ record j { emitted = [] }
  same_seen : b.seen ≡ not (is_nil j.emitted)
  same_sample : b.sample ≡ merged [] j.emitted
  same_failing : b.failing ≡ any_error j.emitted
  unmarked : b.seen ≡ false → b.terminal ≡ false
  going_on : b.ended ≡ false
  unobserved : observed_in b.events ≡ []

-- What the documents of one byte do.
on_emitted_lem :
    (json : Json) (fs : List Fields) (b : Body)
    → let s = on_emitted json false fs b in
      (s.parser ≡ b.parser)
      × (s.seen ≡ (b.seen || not (is_nil fs)))
      × (s.sample ≡ merged b.sample fs)
      × (s.failing ≡ (b.failing || any_error fs))
      × (s.seen ≡ false → s.terminal ≡ b.terminal)
      × (s.ended ≡ b.ended)
      × (s.events ≡ b.events)
unfolding on_emitted on_document merge fail merged any_error is_error
on_emitted_lem json [] b = ground arith
on_emitted_lem json (f ∷ fs) b = ground (arith, on_emitted_lem json fs (on_document json false f b))

parser_byte-IsReading :
    (json : Json) (c : ℕ) {b : Body} {j : JsonFields}
    → IsReading b j
    → IsReading (parser_byte json false c b) (byte json c j)
unfolding parser_byte
parser_byte-IsReading json c {b} {j} r =
    let k = byte json c (record b.parser { emitted = [] }) in
    let same : byte json c j ≡ behind j.emitted k =
      ap (byte json c) (ap (λ es. record j { emitted = es }) (sym (append-nil j.emitted)))
      ∙ byte-behind j.emitted json c (record j { emitted = [] })
      ∙ ap (λ i. behind j.emitted (byte json c i)) (sym r.same_parser) in
    ground (
      arith,
      same,
      on_emitted_lem json k.emitted (record b { parser = k }),
      any_error-append j.emitted k.emitted,
      merged-append [] j.emitted k.emitted,
    )

feed_body-IsReading :
    (json : Json) (bytes : Bytes) {b : Body} {j : JsonFields}
    → IsReading b j
    → IsReading (feed_body json false bytes b) (feed json bytes j)
unfolding feed_body feed
feed_body-IsReading json [] r = r
feed_body-IsReading json (c ∷ cs) r = feed_body-IsReading json cs (parser_byte-IsReading json c r)

note_field_skip-IsReading :
    {b : Body} {j : JsonFields} → IsReading b j → IsReading (note_field_skip b) j
unfolding note_field_skip observed_in
note_field_skip-IsReading {b} {j} r = ground (arith, observed_in-append b.events (noticed ∷ []))

-- Reads of some chunks, and a last one with the end of the body.
unfoldable pub read_all : Json → (Fields → Outcome × Reason) → List Bytes → Bytes → Body → Body
read_all json extract [] last b = read json extract false last eof b
read_all json extract (c ∷ cs) last b =
    read_all json extract cs last (read json extract false c no_err b)

unfoldable pub whole : List Bytes → Bytes → Bytes
whole [] last = last
whole (c ∷ cs) last = c ++ whole cs last

feed-append :
    (json : Json) (xs ys : Bytes) (j : JsonFields)
    → feed json (xs ++ ys) j ≡ feed json ys (feed json xs j)
unfolding feed
feed-append json [] ys j = refl
feed-append json (x ∷ xs) ys j = feed-append json xs ys (byte json x j)

-- What a recogniser's run comes to: the sample, if there is one.
unfoldable pub sample_of : JsonFields → List Fields
sample_of j =
    if complete j && not (is_nil j.emitted) && not (any_error j.emitted)
    then merged [] j.emitted ∷ []
    else []

report-observed :
    (o : Outcome) (r : Reason) (b : Body) → observed_in (report o r b).events ≡ observed_in b.events
unfolding report observed_in
report-observed o r b =
    ground
      (arith, observed_in-append b.events (reported o r ∷ []), append-nil (observed_in b.events))

complete_ext :
    (j k : JsonFields)
    → record j { emitted = [] } ≡ record k { emitted = [] }
    → complete j ≡ complete k
unfolding complete
complete_ext j k e = ground arith

observe-observed :
    (extract : Fields → Outcome × Reason) (b : Body)
    → observed_in (observe extract b).events ≡ observed_in b.events ++ b.sample ∷ []
unfolding observe observed_in
observe-observed extract b =
    let (o, r) = extract b.sample in
    report-observed o r (record b { events = b.events ++ observed b.sample ∷ [] })
    ∙ observed_in-append b.events (observed b.sample ∷ [])

conclude-observed :
    (extract : Fields → Outcome × Reason) {b : Body} {j : JsonFields}
    → IsReading b j
    → observed_in (conclude extract false (record b { ended = true })).events ≡ sample_of j
unfolding conclude sample_of
conclude-observed extract {b} {j} r =
    let e = record b { ended = true } in
    ground (
      arith,
      complete_ext b.parser j r.same_parser,
      observe-observed extract e,
      report-observed Outcome.failed (or_none b.failure) e,
      report-observed Outcome.failed (failure_reason b.parser) e,
      report-observed Outcome.skipped Reason.incomplete e,
    )

read_last :
    (json : Json) (extract : Fields → Outcome × Reason) (last : Bytes) {b : Body} {j : JsonFields}
    → IsReading b j
    → observed_in (read json extract false last eof b).events ≡ sample_of (feed json last j)
unfolding read on_read_err finish
read_last json extract last {b} {j} r =
    let n = note_field_skip-IsReading (feed_body-IsReading json last r) in
    ground (arith, r.going_on, conclude-observed extract n)

read-IsReading :
    (json : Json) (extract : Fields → Outcome × Reason) (bytes : Bytes) {b : Body} {j : JsonFields}
    → IsReading b j
    → IsReading (read json extract false bytes no_err b) (feed json bytes j)
unfolding read on_read_err
read-IsReading json extract bytes {b} {j} r =
    let n = note_field_skip-IsReading (feed_body-IsReading json bytes r) in
    ground (arith, r.going_on, n)

read_all-observed :
    (json : Json) (extract : Fields → Outcome × Reason) (chunks : List Bytes) (last : Bytes)
    {b : Body} {j : JsonFields}
    → IsReading b j
    → observed_in (read_all json extract chunks last b).events
      ≡ sample_of (feed json (whole chunks last) j)
unfolding read_all whole
read_all-observed json extract [] last r = read_last json extract last r
read_all-observed json extract (c ∷ cs) last {j} r =
    read_all-observed json extract cs last (read-IsReading json extract c r)
    ∙ ap sample_of (sym (feed-append json c (whole cs last) j))

started-IsReading : IsReading new_response_body empty
unfolding new_response_body merged any_error observed_in
started-IsReading = ground arith

-- However a response that is no event stream is cut into chunks, once it is read to its end the
-- observer is called with a sample exactly when the whole text is one or more documents that the
-- recogniser of the whole text takes as complete, which are objects nested at most 64 deep, none of
-- which has an `error` field, and the sample has the selected fields of them all.
pub read_all_observes :
    (json : Json) (extract : Fields → Outcome × Reason) (chunks : List Bytes) (last : Bytes)
    → observed_in (read_all json extract chunks last new_response_body).events
      ≡ sample_of (feed json (whole chunks last) empty)
read_all_observes json extract chunks last =
    read_all-observed json extract chunks last started-IsReading
