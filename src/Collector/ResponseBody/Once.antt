-- ===== src/Collector/ResponseBody/Once.antt =====
-- How often the observer calls out, over a whole sequence of `Read` and `Close` calls.
use ollama_exporter.Base.{
  if◌then◌else◌, Bytes, ℕ, suc, ◌+◌, ◌≤◌, ◌≡◌, refl, ◌∙◌, Bool, true, false, List, [], ◌∷◌, ◌++◌,
  arith,
}
use ollama_exporter.Collector.JsonFields.{Json, Fields, Reason, failure_reason}
use ollama_exporter.Collector.ResponseBody.{
  Body, BodyEvent, observed, reported, noticed, source_closed, Outcome, ReadErr, no_err, eof,
  other_err, new_response_body, report, feed_body, observe, conclude, or_none, on_read_err, read,
  close, tell,
}
use ollama_exporter.Collector.ResponseBody.Quiet.{
  IsNoticing, IsNoticing-trans, note_field_skip-IsNoticing, feed_body-IsNoticing, finish-IsNoticing,
}

unfoldable pub observations_in : List BodyEvent → ℕ
observations_in [] = 0
observations_in (observed f ∷ es) = suc (observations_in es)
observations_in (_ ∷ es) = observations_in es

unfoldable pub reports_in : List BodyEvent → ℕ
reports_in [] = 0
reports_in (reported o r ∷ es) = suc (reports_in es)
reports_in (_ ∷ es) = reports_in es

unfoldable pub notices_in : List BodyEvent → ℕ
notices_in [] = 0
notices_in (noticed ∷ es) = suc (notices_in es)
notices_in (_ ∷ es) = notices_in es

unfoldable pub closes_in : List BodyEvent → ℕ
closes_in [] = 0
closes_in (source_closed ∷ es) = suc (closes_in es)
closes_in (_ ∷ es) = closes_in es

counts-append :
    (xs ys : List BodyEvent)
    → (observations_in (xs ++ ys) ≡ observations_in xs + observations_in ys)
      × (reports_in (xs ++ ys) ≡ reports_in xs + reports_in ys)
      × (notices_in (xs ++ ys) ≡ notices_in xs + notices_in ys)
      × (closes_in (xs ++ ys) ≡ closes_in xs + closes_in ys)
unfolding observations_in reports_in notices_in closes_in
counts-append [] ys = omega arith
counts-append (observed f ∷ xs) ys = omega (arith, counts-append xs ys)
counts-append (reported o r ∷ xs) ys = omega (arith, counts-append xs ys)
counts-append (noticed ∷ xs) ys = omega (arith, counts-append xs ys)
counts-append (source_closed ∷ xs) ys = omega (arith, counts-append xs ys)

abbrev pub count : Bool → ℕ
count b = if b then 1 else 0

-- Each `sync.Once` is in step with the calls made, and an observation is followed by its report.
pub record IsOnce (b : Body) : Type 0 where
  pub one_report : reports_in b.events ≡ count b.reports
  pub one_notice : notices_in b.events ≡ count b.notices
  pub one_close : closes_in b.events ≡ count b.closes
  pub one_observation : observations_in b.events ≤ count b.ended
  pub observation_reported : observations_in b.events ≤ count b.reports

pub new_response_body-IsOnce : IsOnce new_response_body
unfolding new_response_body reports_in notices_in closes_in observations_in
new_response_body-IsOnce = ground arith

IsNoticing-IsOnce : {b b' : Body} → IsNoticing b b' → IsOnce b → IsOnce b'
unfolding reports_in notices_in closes_in observations_in
IsNoticing-IsOnce {b} n o = ground (arith, counts-append b.events (noticed ∷ []))

report-IsOnce : (o : Outcome) (r : Reason) {b : Body} → IsOnce b → IsOnce (report o r b)
unfolding report reports_in notices_in closes_in observations_in
report-IsOnce o r {b} h = ground (arith, counts-append b.events (reported o r ∷ []))

-- The observation of a body that has just ended, and its report.
observe-IsOnce :
    (extract : Fields → Outcome × Reason) {b : Body}
    → b.ended ≡ true
    → observations_in b.events ≡ 0
    → IsOnce b
    → IsOnce (observe extract b)
unfolding observe report reports_in notices_in closes_in observations_in
observe-IsOnce extract {b} e z h =
    let (o, r) = extract b.sample in
    ground (
      arith,
      counts-append b.events (observed b.sample ∷ []),
      counts-append (b.events ++ observed b.sample ∷ []) (reported o r ∷ []),
    )

conclude-IsOnce :
    (extract : Fields → Outcome × Reason) (sse : Bool) {b : Body}
    → b.ended ≡ true
    → observations_in b.events ≡ 0
    → IsOnce b
    → IsOnce (conclude extract sse b)
unfolding conclude
conclude-IsOnce extract sse {b} e z h = ground (
  arith,
  observe-IsOnce extract e z h,
  report-IsOnce Outcome.failed (failure_reason b.parser) h,
  report-IsOnce Outcome.skipped Reason.incomplete h,
  report-IsOnce Outcome.failed (or_none b.failure) h,
)

IsNoticing-observations :
    {b b' : Body} → IsNoticing b b' → observations_in b'.events ≡ observations_in b.events
unfolding observations_in
IsNoticing-observations {b} n = ground (arith, counts-append b.events (noticed ∷ []))

on_read_err-IsOnce :
    (json : Json) (extract : Fields → Outcome × Reason) (sse : Bool) (err : ReadErr) {b : Body}
    → b.ended ≡ false
    → IsOnce b
    → IsOnce (on_read_err json extract sse err b)
unfolding on_read_err
on_read_err-IsOnce json extract sse no_err e h = h
on_read_err-IsOnce json extract sse other_err {b} e h =
    let at_end : IsOnce (record b { ended = true }) = ground arith in
    report-IsOnce Outcome.failed Reason.read_error at_end
on_read_err-IsOnce json extract sse eof {b} e h =
    let at_end : IsOnce (record b { ended = true }) = ground arith in
    let n = finish-IsNoticing json sse (record b { ended = true }) in
    conclude-IsOnce extract sse n.kept_ended (ground (arith, IsNoticing-observations n))
      (IsNoticing-IsOnce n at_end)

-- Either branch of a test, under its outcome.
by_if :
    (c : Bool) {x y : Body}
    → (c ≡ true → IsOnce x)
    → (c ≡ false → IsOnce y)
    → IsOnce (if c then x else y)
by_if true h k = h refl
by_if false h k = k refl

read-IsOnce :
    (json : Json) (extract : Fields → Outcome × Reason) (sse : Bool) (bytes : Bytes) (err : ReadErr)
    {b : Body}
    → IsOnce b
    → IsOnce (read json extract sse bytes err b)
unfolding read
read-IsOnce json extract sse bytes err {b} h =
    let fed = feed_body json sse bytes b in
    let n =
      IsNoticing-trans (feed_body-IsNoticing json sse bytes b) (note_field_skip-IsNoticing fed) in
    by_if b.ended (λ e. h)
      (λ e. on_read_err-IsOnce json extract sse err (n.kept_ended ∙ e) (IsNoticing-IsOnce n h))

close-IsOnce : {b : Body} → IsOnce b → IsOnce (close b)
unfolding close reports_in notices_in closes_in observations_in
close-IsOnce {b} h =
    let shut : IsOnce (if b.closes then b else tell source_closed (record b { closes = true })) =
      ground (arith, counts-append b.events (source_closed ∷ [])) in
    report-IsOnce Outcome.skipped Reason.body_closed shut

-- The calls that a client makes.
pub data BodyCall : Type 0 where
  reads : Bytes → ReadErr → BodyCall
  closes : BodyCall

unfoldable pub calls : Json → (Fields → Outcome × Reason) → Bool → List BodyCall → Body → Body
calls json extract sse [] b = b
calls json extract sse (reads bytes err ∷ cs) b =
    calls json extract sse cs (read json extract sse bytes err b)
calls json extract sse (closes ∷ cs) b = calls json extract sse cs (close b)

calls-IsOnce :
    (json : Json) (extract : Fields → Outcome × Reason) (sse : Bool) (cs : List BodyCall) {b : Body}
    → IsOnce b
    → IsOnce (calls json extract sse cs b)
unfolding calls
calls-IsOnce json extract sse [] h = h
calls-IsOnce json extract sse (reads bytes err ∷ cs) h =
    calls-IsOnce json extract sse cs (read-IsOnce json extract sse bytes err h)
calls-IsOnce json extract sse (closes ∷ cs) h = calls-IsOnce json extract sse cs (close-IsOnce h)

-- Whatever the source returns and in whatever order a client reads and closes, a response gives at
-- most one result, one notice and one observation, the source is closed at most once, and an
-- observation never goes without its result.
pub calls_once :
    (json : Json) (extract : Fields → Outcome × Reason) (sse : Bool) (cs : List BodyCall)
    → let es = (calls json extract sse cs new_response_body).events in
      (reports_in es ≤ 1)
      × (notices_in es ≤ 1)
      × (closes_in es ≤ 1)
      × (observations_in es ≤ reports_in es)
calls_once json extract sse cs =
    ground (arith, calls-IsOnce json extract sse cs new_response_body-IsOnce)
