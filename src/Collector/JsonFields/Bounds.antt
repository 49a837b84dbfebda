-- ===== src/Collector/JsonFields/Bounds.antt =====
-- The memory of the recogniser, whatever the input: a token, the nesting and each kept field have
-- the bounds that the comment on `jsonFields` promises, and only selected fields are kept.
use ollama_exporter.Base.{
  if◌then◌else◌, Bool-cases, length, length-append, All, All-append, Bytes, codes, equal, ℕ, ◌≤◌,
  ◌≡◌, refl, ◌≢◌, inl, inr, Bool, true, false, List, [], ◌∷◌, arith,
}
use ollama_exporter.Go.Dict.{insert}
use ollama_exporter.Collector.JsonFields.{
  Json, JsonFields, Mode, idle, Frame, Fields, in_string, in_scalar, Kind, FrameState, wanted, push,
  set_state, value_done, path, end_key, end_value, end_scalar, close, string_byte, scalar_push,
  open_container, value_byte, key_byte, frame_byte, idle_byte, scalar_end, byte_in, byte, feed,
  first_key, next_key, colon, comma, value, first_item,
}

abbrev pub IsSmallField : Bytes × Bytes → Type 0
IsSmallField (k, v) = (wanted k ≡ true) × (length v ≤ 4096)

abbrev pub AreSmall : Fields → Type 0
AreSmall = All IsSmallField

-- Nothing is kept between tokens, and a field's name is shorter than a value.
abbrev pub limit_of : Mode → Bool → ℕ
limit_of idle key_token = 0
limit_of _ key_token = if key_token then 128 else 4096

pub record IsBounded (j : JsonFields) : Type 0 where
  pub token_small : length j.token ≤ limit_of j.mode j.key_token
  pub stack_small : length j.stack ≤ 64
  pub fields_small : AreSmall j.fields
  pub emitted_small : All AreSmall j.emitted

insert-AreSmall :
    (k v : Bytes) (f : Fields)
    → wanted k ≡ true
    → length v ≤ 4096
    → AreSmall f
    → AreSmall (insert k v f)
unfolding insert
insert-AreSmall k v [] w h a = ((w, h), tt)
insert-AreSmall k v ((i, u) ∷ f) w h ((p, q), a) = elim (Bool-cases (equal i k)) [
  | inl e ↦ rw e ((w, h), a)
  | inr e ↦ rw e ((p, q), insert-AreSmall k v f w h a)
]

limit_of_le : (m : Mode) (k : Bool) → limit_of m k ≤ 4096
limit_of_le m k = ground arith

-- A byte is pushed inside a token only.
push-IsBounded : (c : ℕ) {j : JsonFields} → j.mode ≢ idle → IsBounded j → IsBounded (push c j)
unfolding push
push-IsBounded c {j} o b = ground (arith, length-append j.token (c ∷ []))

set_state-length : (s : FrameState) (fs : List Frame) → length (set_state s fs) ≡ length fs
unfolding set_state
set_state-length s [] = refl
set_state-length s (f ∷ fs) = refl

value_done-IsBounded : {j : JsonFields} → IsBounded j → IsBounded (value_done j)
unfolding value_done
value_done-IsBounded {j} b = ground (arith, set_state-length comma j.stack)

end_key-IsBounded : (json : Json) {j : JsonFields} → IsBounded j → IsBounded (end_key json j)
unfolding end_key
end_key-IsBounded json {j} b = ground (arith, set_state-length colon j.stack)

-- A selected field is stored.
store-IsBounded :
    {j : JsonFields}
    → wanted (path j.stack) ≡ true
    → IsBounded j
    → IsBounded (record j { fields = insert (path j.stack) j.token j.fields })
store-IsBounded {j} w b = record {
  token_small = b.token_small;
  stack_small = b.stack_small;
  fields_small =
      insert-AreSmall (path j.stack) j.token j.fields w
        (omega (arith, b.token_small, limit_of_le j.mode j.key_token)) b.fields_small;
  emitted_small = b.emitted_small;
}

end_value-IsBounded : (json : Json) {j : JsonFields} → IsBounded j → IsBounded (end_value json j)
unfolding end_value
end_value-IsBounded json {j} b = elim (Bool-cases (wanted (path j.stack))) [
  | inl w ↦ rw w (ground (arith, value_done-IsBounded (store-IsBounded w b)))
  | inr w ↦ rw w (ground (arith, value_done-IsBounded b))
]

end_scalar-IsBounded : (json : Json) {j : JsonFields} → IsBounded j → IsBounded (end_scalar json j)
unfolding end_scalar
end_scalar-IsBounded json {j} b =
    ground (arith, end_key-IsBounded json b, end_value-IsBounded json b)

close-IsBounded : (c : ℕ) {j : JsonFields} → IsBounded j → IsBounded (close c j)
unfolding close value_done set_state
close-IsBounded c {j} b =
    ground
      (arith, All-append AreSmall j.emitted (j.fields ∷ []) b.emitted_small (b.fields_small, tt))

string_byte-IsBounded :
    (json : Json) (c : ℕ) {j : JsonFields}
    → j.mode ≡ in_string
    → IsBounded j
    → IsBounded (string_byte json c j)
unfolding string_byte
string_byte-IsBounded json c {j} o b =
    let p = push-IsBounded c (λ e. cc) b in ground (arith, p, end_scalar-IsBounded json p)

scalar_push-IsBounded :
    (c : ℕ) {j : JsonFields} → j.mode ≡ in_scalar → IsBounded j → IsBounded (scalar_push c j)
unfolding scalar_push push
scalar_push-IsBounded c {j} o b = ground (arith, length-append j.token (c ∷ []))

open_container-IsBounded :
    (k : Kind) {j : JsonFields} → IsBounded j → IsBounded (open_container k j)
unfolding open_container
open_container-IsBounded k {j} b = elim (Bool-cases (wanted (path j.stack))) [
  | inl w ↦ rw w (
      ground (
        arith,
        insert-AreSmall (path j.stack) (codes "{}") j.fields w (omega arith) b.fields_small,
        insert-AreSmall (path j.stack) (codes "[]") j.fields w (omega arith) b.fields_small,
      ))
  | inr w ↦ rw w (ground arith)
]

value_byte-IsBounded :
    (c : ℕ) {j : JsonFields} → j.mode ≡ idle → IsBounded j → IsBounded (value_byte c j)
unfolding value_byte
value_byte-IsBounded c {j} o b =
    let a : IsBounded (record j { key_token = false }) = ground arith in
    let p : IsBounded (record j { key_token = false; mode = in_string }) = ground arith in
    let q : IsBounded (record j { key_token = false; mode = in_scalar }) = ground arith in
    ground (
      arith,
      open_container-IsBounded Kind.object a,
      open_container-IsBounded Kind.array a,
      push-IsBounded c (λ e. cc) p,
      scalar_push-IsBounded c refl q,
    )

key_byte-IsBounded :
    (c : ℕ) {j : JsonFields} → j.mode ≡ idle → IsBounded j → IsBounded (key_byte c j)
unfolding key_byte
key_byte-IsBounded c {j} o b =
    let p : IsBounded (record j { key_token = true; mode = in_string }) = ground arith in
    ground (arith, push-IsBounded c (λ e. cc) p)

frame_byte-IsBounded :
    (s : FrameState) (k : Kind) (c : ℕ) {j : JsonFields}
    → j.mode ≡ idle
    → IsBounded j
    → IsBounded (frame_byte s k c j)
unfolding frame_byte set_state
frame_byte-IsBounded first_key k c o b =
    ground (arith, close-IsBounded c b, key_byte-IsBounded c o b)
frame_byte-IsBounded next_key k c o b = key_byte-IsBounded c o b
frame_byte-IsBounded colon k c o b = ground arith
frame_byte-IsBounded comma k c o b = ground (arith, close-IsBounded c b)
frame_byte-IsBounded value k c o b = value_byte-IsBounded c o b
frame_byte-IsBounded first_item k c o b =
    ground (arith, close-IsBounded c b, value_byte-IsBounded c o b)

idle_byte-IsBounded :
    (c : ℕ) {j : JsonFields} → j.mode ≡ idle → IsBounded j → IsBounded (idle_byte c j)
unfolding idle_byte
idle_byte-IsBounded c {j} o b = top j.stack refl
  where
    top : (fs : List Frame) → j.stack ≡ fs → IsBounded (idle_byte c j)
    top [] e = ground arith
    top (f ∷ fs) e = ground (arith, frame_byte-IsBounded f.state f.kind c o b)

-- A token that ends without an error leaves the recogniser between tokens.
mode-end_scalar :
    (json : Json) (j : JsonFields)
    → (end_scalar json j).bad ≡ false
    → (end_scalar json j).mode ≡ idle
unfolding end_scalar end_key end_value
mode-end_scalar json j h = ground arith

scalar_end-IsBounded :
    (json : Json) (c : ℕ) {j : JsonFields} → IsBounded j → IsBounded (scalar_end json c j)
unfolding scalar_end
scalar_end-IsBounded json c {j} b =
    let k = end_scalar-IsBounded json b in
    let next : (end_scalar json j).bad ≡ false → IsBounded (idle_byte c (end_scalar json j)) =
      λ e. idle_byte-IsBounded c (mode-end_scalar json j e) k in
    ground (arith, k, next)

pub byte-IsBounded :
    (json : Json) (c : ℕ) {j : JsonFields} → IsBounded j → IsBounded (byte json c j)
unfolding byte byte_in
byte-IsBounded json c {j} b = in_mode j.mode refl
  where
    in_mode : (m : Mode) → j.mode ≡ m → IsBounded (byte json c j)
    in_mode in_string e = ground (arith, string_byte-IsBounded json c e b)
    in_mode in_scalar e = ground (arith, scalar_end-IsBounded json c b, scalar_push-IsBounded c e b)
    in_mode idle e = ground (arith, idle_byte-IsBounded c e b)

-- From a state within the bounds, whatever bytes are fed, a token never holds more than 4096 of
-- them, or 128 in a field's name, and none between tokens; nesting never exceeds 64; and what is
-- kept or emitted is only selected fields, of at most 4096 bytes each.
pub feed-IsBounded :
    (json : Json) (bytes : Bytes) {j : JsonFields} → IsBounded j → IsBounded (feed json bytes j)
unfolding feed
feed-IsBounded json [] b = b
feed-IsBounded json (c ∷ cs) b = feed-IsBounded json cs (byte-IsBounded json c b)
