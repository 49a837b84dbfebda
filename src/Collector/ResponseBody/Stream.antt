-- ===== src/Collector/ResponseBody/Stream.antt =====
-- `dispatch` and `sseByte` of responsebody.go, and the loop of `Read` over a stream of events.
use ollama_exporter.Base.{
  ltb, leb, ◌==◌, if◌then◌else◌, codes, equal, ℕ, ◌+◌, Bool, true, false, not, ◌&&◌, ◌||◌, none,
  some, List, [], ◌∷◌, ◌++◌,
}
use ollama_exporter.Go.Strings.{trim_left, trim_right}
use ollama_exporter.Collector.JsonFields.{Json, malformed, complete, failure_reason, empty}
use ollama_exporter.Collector.ResponseBody.Observer.{
  Body, fail, note_field_skip, present, merge, parser_byte,
}

-- The white space among the code points below 256.
abbrev pub is_space : ℕ → Bool
is_space c = (leb 9 c && leb c 13) || c == 32 || c == 133 || c == 160

abbrev pub is_empty : List ℕ → Bool
is_empty [] = true
is_empty (_ ∷ _) = false

-- The first test of `dispatch`.
unfoldable pub take_marker : Body → Body
unfolding fail
take_marker b =
    if equal (trim_right is_space (trim_left is_space b.marker)) (codes "[DONE]")
    then record b { terminal = true }
    else if is_empty b.marker
    then b
    else fail malformed b

-- The second.
unfoldable pub take_event : Json → Body → Body
unfolding fail
take_event json b =
    if not (complete b.parser)
    then fail (failure_reason b.parser) b
    else elim b.event_fields [ none ↦ b | some f ↦ merge json f b ]

unfoldable pub dispatch : Json → Body → Body
unfolding take_marker take_event note_field_skip
dispatch json b = record (take_event json (take_marker (note_field_skip b))) {
  event_fields = none;
  marker = [];
  parser = empty;
}

-- The bytes of a text of code points below 256 in UTF-8.
unfoldable pub utf8_len : List ℕ → ℕ
utf8_len [] = 0
utf8_len (c ∷ cs) = (if ltb c 128 then 1 else 2) + utf8_len cs

-- A line break.
unfoldable pub line_end : Json → Body → Body
unfolding dispatch
line_end json b =
    let s =
      if not b.line_bytes
      then dispatch json b
      else if b.line_data && is_empty b.marker
      then parser_byte json true b'\n' b
      else b in
    record s { prefix = []; line_data = false; line_bytes = false }

-- Behind `data:`.
unfoldable pub data_byte : Json → ℕ → Body → Body
unfolding fail utf8_len
data_byte json c b =
    if not (is_empty b.marker)
    then if ltb (utf8_len b.marker) 32
      then record b { marker = b.marker ++ c ∷ [] }
      else fail malformed b
    else if c == b'[' && complete b.parser && not (present b.event_fields)
    then record b { marker = b'[' ∷ [] }
    else parser_byte json true c b

unfoldable pub prefix_byte : ℕ → Body → Body
unfolding utf8_len
prefix_byte c b =
    let p = if ltb (utf8_len b.prefix) 6 then b.prefix ++ c ∷ [] else b.prefix in
    record b { prefix = p; line_data = if equal p (codes "data:") then true else b.line_data }

unfoldable pub sse_byte : Json → ℕ → Body → Body
unfolding data_byte prefix_byte
sse_byte json c b₀ =
    if c == b'\n'
    then line_end json b₀
    else let b = record b₀ { line_bytes = true } in
      if b.line_data then data_byte json c b else prefix_byte c b

-- The loop of `Read`: a carriage return waits for the byte behind it.
unfoldable pub stream_byte : Json → ℕ → Body → Body
unfolding sse_byte
stream_byte json c b₀ =
    let b =
      if b₀.pending_cr
      then (let s = record b₀ { pending_cr = false } in
          if c == b'\n' then s else sse_byte json b'\n' s)
      else b₀ in
    if c == b'\r' then record b { pending_cr = true } else sse_byte json c b
