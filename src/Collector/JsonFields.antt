-- ===== src/Collector/JsonFields.antt =====
-- internal/collector/streamjson.go: the recogniser that reads JSON byte by byte and keeps selected
-- scalars. The stack is listed from the top; the bytes that name a kind of frame, a state, a mode or
-- a place in a number are constructors. The two calls of encoding/json are parameters.
pub mod Bounds
pub mod Emits
pub mod Grammar
mod Scalars
unfoldable pub use Scalars.*
mod State
unfoldable pub use State.*
mod Tokens
unfoldable pub use Tokens.*
use ollama_exporter.Base.{
  ltb, ◌==◌, if◌then◌else◌, length, Bytes, codes, ℕ, ◌-◌, Bool, true, false, not, ◌&&◌, ◌||◌, none,
  some, List, [], ◌∷◌,
}
use ollama_exporter.Go.Strings.{contains}
use ollama_exporter.Go.Dict.{insert}

abbrev pub is_blank : ℕ → Bool
is_blank c = c == b' ' || c == b'\n' || c == b'\r' || c == b'\t'

-- A string token, its opening quote included.
unfoldable pub string_byte : Json → ℕ → JsonFields → JsonFields
string_byte json c j₀ =
    let j = push c j₀ in
    if ltb 0 j.unicode
    then record j {
      bad = if contains c (codes "0123456789abcdefABCDEF") then j.bad else true;
      unicode = j.unicode - 1;
    }
    else if j.escape
    then if c == b'u' then record j { escape = false; unicode = 4 } else record j {
      escape = false;
      bad = if contains c (codes "\"\\/bfnrt") then j.bad else true;
    }
    else if c == b'\\'
    then record j { escape = true }
    else if c == b'"'
    then end_scalar json j
    else if ltb c 32
    then fail j
    else j

-- `j.scalarByte(c); j.append(c)`
unfoldable pub scalar_push : ℕ → JsonFields → JsonFields
scalar_push c j =
    push c (record j { scalar = scalar_byte c j.scalar; bad = j.bad || scalar_bad c j.scalar })

-- A bracket where a value begins: a selected field keeps an empty container in its place.
unfoldable pub open_container : Kind → JsonFields → JsonFields
open_container k j =
    let noted =
      if wanted (path j.stack)
      then record j {
        fields =
            insert (path j.stack) (elim k [ object ↦ codes "{}" | array ↦ codes "[]" ]) j.fields;
      }
      else j in
    if length j.stack == 64
    then record noted { failure = some depth_limit; bad = true }
    else record noted {
      stack =
          record { kind = k; state = elim k [ object ↦ first_key | array ↦ first_item ]; key = [] }
          ∷ j.stack;
    }

-- The cases 'v' and 'a' below the test for ']'.
unfoldable pub value_byte : ℕ → JsonFields → JsonFields
value_byte c j₀ =
    let j = record j₀ { key_token = false } in
    if c == b'{'
    then open_container object j
    else if c == b'['
    then open_container array j
    else if c == b'"'
    then push c (record j { mode = in_string })
    else if contains c (codes "-0123456789tfn")
    then scalar_push c (record j { mode = in_scalar })
    else fail j

unfoldable pub key_byte : ℕ → JsonFields → JsonFields
key_byte c j =
    if c == b'"' then push c (record j { key_token = true; mode = in_string }) else fail j

abbrev is_object : Kind → Bool
is_object object = true
is_object array = false

-- The switch on the state of the top frame.
unfoldable pub frame_byte : FrameState → Kind → ℕ → JsonFields → JsonFields
frame_byte first_key k c j = if c == b'}' then close c j else key_byte c j
frame_byte next_key k c j = key_byte c j
frame_byte colon k c j = if c == b':' then record j { stack = set_state value j.stack } else fail j
frame_byte comma k c j =
    if c == b'}' || c == b']'
    then close c j
    else if c == b','
    then record j { stack = set_state (if is_object k then next_key else value) j.stack }
    else fail j
frame_byte value k c j = value_byte c j
frame_byte first_item k c j = if c == b']' then close c j else value_byte c j

-- Between tokens.
unfoldable pub idle_byte : ℕ → JsonFields → JsonFields
idle_byte c j = if is_blank c then j else elim j.stack [
  | [] ↦
      if c == b'{'
      then record j {
        fields = [];
        stack = record { kind = object; state = first_key; key = [] } ∷ [];
      }
      else fail j
  | f ∷ fs ↦ frame_byte f.state f.kind c j
]

-- What ends a number or a literal. `scalar` leaves the mode idle unless it fails, so the byte is
-- then read between tokens.
unfoldable pub scalar_end : Json → ℕ → JsonFields → JsonFields
scalar_end json c j = let k = end_scalar json j in if k.bad then k else idle_byte c k

abbrev ends_scalar : ℕ → Bool
ends_scalar c = c == b',' || c == b'}' || c == b']' || is_blank c

unfoldable pub byte_in : Mode → Json → ℕ → JsonFields → JsonFields
byte_in in_string json c j = string_byte json c j
byte_in in_scalar json c j = if ends_scalar c then scalar_end json c j else scalar_push c j
byte_in idle json c j = idle_byte c j

-- `func (j *jsonFields) byte(c byte)`
unfoldable pub byte : Json → ℕ → JsonFields → JsonFields
byte json c j = if j.bad then j else byte_in j.mode json c j

unfoldable pub feed : Json → Bytes → JsonFields → JsonFields
feed json [] j = j
feed json (c ∷ cs) j = feed json cs (byte json c j)

abbrev is_idle : Mode → Bool
is_idle idle = true
is_idle _ = false

abbrev is_nil : List Frame → Bool
is_nil [] = true
is_nil (_ ∷ _) = false

unfoldable pub complete : JsonFields → Bool
complete j = not j.bad && is_nil j.stack && is_idle j.mode

unfoldable pub failure_reason : JsonFields → Reason
failure_reason j = elim j.failure [ some r ↦ r | none ↦ if j.bad then malformed else incomplete ]

-- The zero value.
abbrev pub empty : JsonFields
empty = record {
  stack = [];
  token = [];
  mode = idle;
  escape = false;
  unicode = 0;
  scalar = no_scalar;
  key_token = false;
  overflow = false;
  bad = false;
  failure = none;
  key_skipped = false;
  fields = [];
  emitted = [];
}
