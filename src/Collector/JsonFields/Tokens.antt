-- ===== src/Collector/JsonFields/Tokens.antt =====
-- `append`, `scalar`, `valueDone` and `close` of streamjson.go: what a byte of a token, the end of a
-- token and the end of a container do.
use ollama_exporter.Base.{
  ltb, ◌==◌, if◌then◌else◌, length, Bytes, ℕ, Bool, true, false, not, ◌&&◌, Option, none, some,
  List, [], ◌∷◌, ◌++◌,
}
use ollama_exporter.Go.Dict.{insert}
use ollama_exporter.Collector.JsonFields.Scalars.{no_scalar, scalar_complete}
use ollama_exporter.Collector.JsonFields.State.{
  object, array, FrameState, colon, comma, Frame, Mode, idle, in_string, selected_value_limit,
  JsonFields, wanted, path,
}

unfoldable pub push : ℕ → JsonFields → JsonFields
push c j =
    if ltb (length j.token) (if j.key_token then 128 else 4096)
    then record j { token = j.token ++ c ∷ [] }
    else record j { overflow = true }

abbrev pub fail : JsonFields → JsonFields
fail j = record j { bad = true }

-- The fields that `scalar` resets at its end.
abbrev pub reset : JsonFields → JsonFields
reset j = record j { token = []; mode = idle; overflow = false; scalar = no_scalar }

unfoldable pub set_state : FrameState → List Frame → List Frame
set_state s [] = []
set_state s (f ∷ fs) = record f { state = s } ∷ fs

unfoldable pub value_done : JsonFields → JsonFields
value_done j = elim j.stack [ [] ↦ fail j | f ∷ fs ↦ record j { stack = set_state comma (f ∷ fs) } ]

-- `json.Unmarshal` of a string token, `none` for an error, and `json.Valid`.
pub record Json : Type 0 where
  pub unquote : Bytes → Option Bytes
  pub valid : Bytes → Bool

abbrev pub set_key : Bytes → List Frame → List Frame
set_key k [] = []
set_key k (f ∷ fs) = record f { key = k; state = colon } ∷ fs

-- `scalar` at the end of a field's name. An error keeps the key that the frame had.
unfoldable pub end_key : Json → JsonFields → JsonFields
end_key json j = reset (
    if j.overflow
    then record j { stack = set_key [] j.stack; key_skipped = true }
    else elim (json.unquote j.token) [
      | none ↦ record j { stack = set_state colon j.stack; bad = true }
      | some k ↦ record j { stack = set_key k j.stack }
    ])

abbrev pub is_string : Mode → Bool
is_string in_string = true
is_string _ = false

-- `scalar` at the end of a value.
unfoldable pub end_value : Json → JsonFields → JsonFields
end_value json j =
    if wanted (path j.stack)
    then if j.overflow
      then record j { failure = some selected_value_limit; bad = true }
      else if not (json.valid j.token)
      then fail j
      else reset (value_done (record j { fields = insert (path j.stack) j.token j.fields }))
    else if not (is_string j.mode) && not (scalar_complete j.scalar)
    then fail j
    else reset (value_done j)

unfoldable pub end_scalar : Json → JsonFields → JsonFields
end_scalar json j = if j.key_token then end_key json j else end_value json j

unfoldable pub close : ℕ → JsonFields → JsonFields
close c j = elim j.stack [
  | [] ↦ fail j
  | f ∷ fs ↦
      if elim f.kind [ object ↦ c == b'}' | array ↦ c == b']' ]
      then elim fs [
        | [] ↦ record j { stack = []; emitted = j.emitted ++ j.fields ∷ [] }
        | g ∷ gs ↦ value_done (record j { stack = g ∷ gs })
      ]
      else fail j
]
