-- ===== src/Collector/JsonFields/Emits.antt =====
-- What has been emitted is only ever added to, and never read.
use ollama_exporter.Base.{ℕ, ◌≡◌, refl, true, false, List, [], ◌∷◌, ◌++◌, append_assoc, arith}
use ollama_exporter.Collector.JsonFields.{
  Json, JsonFields, Frame, Fields, in_string, in_scalar, Kind, FrameState, push, value_done,
  end_key, end_value, end_scalar, close, string_byte, scalar_push, open_container, value_byte,
  key_byte, frame_byte, idle_byte, scalar_end, byte_in, byte, first_key, next_key, colon, comma,
  value, first_item,
}

-- The same state behind some earlier emissions.
abbrev pub behind : List Fields → JsonFields → JsonFields
behind es j = record j { emitted = es ++ j.emitted }

module _ (es : List Fields) where
  push-behind : (c : ℕ) (j : JsonFields) → push c (behind es j) ≡ behind es (push c j)
  unfolding push
  push-behind c j = ground arith

  value_done-behind : (j : JsonFields) → value_done (behind es j) ≡ behind es (value_done j)
  unfolding value_done
  value_done-behind j = ground arith

  end_key-behind :
      (json : Json) (j : JsonFields) → end_key json (behind es j) ≡ behind es (end_key json j)
  unfolding end_key
  end_key-behind json j = ground arith

  end_value-behind :
      (json : Json) (j : JsonFields) → end_value json (behind es j) ≡ behind es (end_value json j)
  unfolding end_value value_done
  end_value-behind json j = ground arith

  end_scalar-behind :
      (json : Json) (j : JsonFields) → end_scalar json (behind es j) ≡ behind es (end_scalar json j)
  unfolding end_scalar
  end_scalar-behind json j = ground (arith, end_key-behind json j, end_value-behind json j)

  close-behind : (c : ℕ) (j : JsonFields) → close c (behind es j) ≡ behind es (close c j)
  unfolding close value_done
  close-behind c j = ground (arith, append_assoc es j.emitted (j.fields ∷ []))

  string_byte-behind :
      (json : Json) (c : ℕ) (j : JsonFields)
      → string_byte json c (behind es j) ≡ behind es (string_byte json c j)
  unfolding string_byte
  string_byte-behind json c j = ground (arith, push-behind c j, end_scalar-behind json (push c j))

  scalar_push-behind :
      (c : ℕ) (j : JsonFields) → scalar_push c (behind es j) ≡ behind es (scalar_push c j)
  unfolding scalar_push push
  scalar_push-behind c j = ground arith

  open_container-behind :
      (k : Kind) (j : JsonFields) → open_container k (behind es j) ≡ behind es (open_container k j)
  unfolding open_container
  open_container-behind k j = ground arith

  value_byte-behind :
      (c : ℕ) (j : JsonFields) → value_byte c (behind es j) ≡ behind es (value_byte c j)
  unfolding value_byte
  value_byte-behind c j = ground (
    arith,
    open_container-behind Kind.object (record j { key_token = false }),
    open_container-behind Kind.array (record j { key_token = false }),
    push-behind c (record j { key_token = false; mode = in_string }),
    scalar_push-behind c (record j { key_token = false; mode = in_scalar }),
  )

  key_byte-behind : (c : ℕ) (j : JsonFields) → key_byte c (behind es j) ≡ behind es (key_byte c j)
  unfolding key_byte
  key_byte-behind c j =
      ground (arith, push-behind c (record j { key_token = true; mode = in_string }))

  frame_byte-behind :
      (s : FrameState) (k : Kind) (c : ℕ) (j : JsonFields)
      → frame_byte s k c (behind es j) ≡ behind es (frame_byte s k c j)
  unfolding frame_byte
  frame_byte-behind first_key k c j = ground (arith, close-behind c j, key_byte-behind c j)
  frame_byte-behind next_key k c j = key_byte-behind c j
  frame_byte-behind colon k c j = ground arith
  frame_byte-behind comma k c j = ground (arith, close-behind c j)
  frame_byte-behind value k c j = value_byte-behind c j
  frame_byte-behind first_item k c j = ground (arith, close-behind c j, value_byte-behind c j)

  idle_byte-behind :
      (c : ℕ) (j : JsonFields) → idle_byte c (behind es j) ≡ behind es (idle_byte c j)
  unfolding idle_byte
  idle_byte-behind c j = top j.stack refl
    where
      top : (fs : List Frame) → j.stack ≡ fs → idle_byte c (behind es j) ≡ behind es (idle_byte c j)
      top [] e = ground arith
      top (f ∷ fs) e = ground (arith, frame_byte-behind f.state f.kind c j)

  scalar_end-behind :
      (json : Json) (c : ℕ) (j : JsonFields)
      → scalar_end json c (behind es j) ≡ behind es (scalar_end json c j)
  unfolding scalar_end
  scalar_end-behind json c j =
      ground (arith, end_scalar-behind json j, idle_byte-behind c (end_scalar json j))

  -- A byte does the same to the state, and emits the same, whatever was emitted before it.
  pub byte-behind :
      (json : Json) (c : ℕ) (j : JsonFields) → byte json c (behind es j) ≡ behind es (byte json c j)
  unfolding byte byte_in
  byte-behind json c j = ground (
    arith,
    string_byte-behind json c j,
    scalar_end-behind json c j,
    scalar_push-behind c j,
    idle_byte-behind c j,
  )
