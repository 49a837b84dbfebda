-- ===== src/Collector/ResponseBody/Observer.antt =====
-- The state of the observer, and `merge`, `fail`, `report` and `noteFieldSkip` of responsebody.go with
-- the two functions that the recogniser emits to.
use ollama_exporter.Base.{
  if◌then◌else◌, Bytes, codes, equal, ℕ, Bool, true, false, not, ◌&&◌, ◌||◌, Option, none, some,
  List, [], ◌∷◌, ◌++◌,
}
use ollama_exporter.Go.Dict.{lookup, insert}
use ollama_exporter.Collector.JsonFields.{
  Json, JsonFields, Fields, Reason, malformed, upstream_error, byte, empty,
}

pub data Outcome : Type 0 where
  succeeded failed skipped : Outcome

-- The calls that leave the body: `emit`, `result`, `notice` and the source's `Close`.
pub data BodyEvent : Type 0 where
  observed : Fields → BodyEvent
  reported : Outcome → Reason → BodyEvent
  noticed : BodyEvent
  source_closed : BodyEvent

-- `reports`, `notices` and `closes` say whether a `sync.Once` has run; `events` has the calls, the
-- latest last. A nil `eventFields` and an empty `failure` are `none`.
pub record Body : Type 0 where
  pub parser : JsonFields
  pub prefix : List ℕ
  pub line_data : Bool
  pub line_bytes : Bool
  pub pending_cr : Bool
  pub marker : List ℕ
  pub event_fields : Option Fields
  pub sample : Fields
  pub terminal : Bool
  pub seen : Bool
  pub failing : Bool
  pub ended : Bool
  pub failure : Option Reason
  pub reports : Bool
  pub notices : Bool
  pub closes : Bool
  pub events : List BodyEvent

unfoldable pub new_response_body : Body
new_response_body = record {
  parser = empty;
  prefix = [];
  line_data = false;
  line_bytes = false;
  pending_cr = false;
  marker = [];
  event_fields = none;
  sample = [];
  terminal = false;
  seen = false;
  failing = false;
  ended = false;
  failure = none;
  reports = false;
  notices = false;
  closes = false;
  events = [];
}

abbrev pub tell : BodyEvent → Body → Body
tell e b = record b { events = b.events ++ e ∷ [] }

abbrev pub first_reason : Option Reason → Reason → Option Reason
first_reason none r = some r
first_reason (some q) r = some q

unfoldable pub fail : Reason → Body → Body
fail reason b = record b { failing = true; failure = first_reason b.failure reason }

unfoldable pub report : Outcome → Reason → Body → Body
report outcome reason b =
    if b.reports then b else tell (reported outcome reason) (record b { reports = true })

unfoldable pub note_field_skip : Body → Body
note_field_skip b =
    if b.parser.key_skipped && not b.notices then tell noticed (record b { notices = true }) else b

-- `for k, v := range f { b.sample[k] = v }`
unfoldable pub insert_all : Fields → Fields → Fields
insert_all [] sample = sample
insert_all ((k, v) ∷ f) sample = insert_all f (insert k v sample)

abbrev pub holds : Option Bytes → Bytes → Bool
holds none s = false
holds (some t) s = equal t s

unfoldable pub decode : Json → Option Bytes → Option Bytes
decode json none = none
decode json (some raw) = json.unquote raw

unfoldable pub ends_stream : Json → Fields → Bool
unfolding decode
ends_stream json f =
    holds (lookup (codes "done") f) (codes "true")
    || holds (decode json (lookup (codes "type") f)) (codes "message_stop")

abbrev pub present {ℓ} : {A : Type ℓ} → Option A → Bool
present none = false
present (some _) = true

unfoldable pub merge : Json → Fields → Body → Body
merge json f b = if present (lookup (codes "error") f) then fail upstream_error b else record b {
  sample = insert_all f b.sample;
  terminal = if ends_stream json f then true else b.terminal;
}

-- The parser's `emit` in a stream of events: a second document in one event is malformed.
unfoldable pub on_event_fields : Fields → Body → Body
unfolding fail
on_event_fields f b =
    let s = record b { seen = true } in
    let t = if present s.event_fields then fail malformed s else s in
    record t { event_fields = some f }

unfoldable pub on_document : Json → Bool → Fields → Body → Body
unfolding on_event_fields
on_document json sse f b =
    if sse then on_event_fields f b else merge json f (record b { seen = true })

unfoldable pub on_emitted : Json → Bool → List Fields → Body → Body
on_emitted json sse [] b = b
on_emitted json sse (f ∷ fs) b = on_emitted json sse fs (on_document json sse f b)

-- `b.parser.byte(c)`: a call of `emit` is the last thing that it does.
unfoldable pub parser_byte : Json → Bool → ℕ → Body → Body
unfolding on_emitted
parser_byte json sse c b =
    let j = byte json c (record b.parser { emitted = [] }) in
    on_emitted json sse j.emitted (record b { parser = j })
