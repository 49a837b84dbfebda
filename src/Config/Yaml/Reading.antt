-- ===== src/Config/Yaml/Reading.antt =====
-- The four shapes of a printed line, each read as what it was printed from.
use ollama_exporter.Base.{
  Bytes, equal, ℕ, ◌%◌, ◌≡◌, refl, sym, ap, ◌∙◌, true, false, some, [], ◌∷◌, ◌++◌, append_assoc,
  arith,
}
use ollama_exporter.Go.Strings.{is_space, trim_space}
use ollama_exporter.Config.Yaml.Lex.{key_item, lex_line, lex_item, split_kv, key_value, plain_item}
use ollama_exporter.Config.Yaml.Parse.{drop_cr}
use ollama_exporter.Config.Yaml.Printed.{
  spaces, quoted, value_body, dash, IsKey, IsValue, no_mark, key_body, IsItem, starts_hash,
}
use ollama_exporter.Config.Yaml.Trimmed.{no_mark-last, no_mark-append, key_bytes-contains}
use ollama_exporter.Config.Yaml.Lexing.{
  trim_space-body, lex_line-body, split_kv-key, trim_space-quoted, split_kv-quoted, lex_body-dash,
  IsBody, lex_body-key,
}

quoted-no_mark : (v : Bytes) → IsValue v → no_mark (quoted v) ≡ true
unfolding no_mark
quoted-no_mark v h = no_mark-last v b'"' (λ e. absurd (omega (arith, e))) h.1

value_body-no_mark : (k v : Bytes) → IsKey k → IsValue v → no_mark (value_body k v) ≡ true
unfolding no_mark
value_body-no_mark [] v h g = elim h [ ]
value_body-no_mark (c ∷ cs) v h g =
    no_mark-append (c ∷ cs) (b':' ∷ 32 ∷ quoted v) (key_bytes-contains b'#' (c ∷ cs) refl h.1) refl
      (quoted-no_mark v g)

value_body-IsBody : (k v : Bytes) → IsKey k → IsValue v → IsBody (value_body k v)
value_body-IsBody [] v h g = elim h [ ]
value_body-IsBody (c ∷ cs) v h g = record {
  front = (c ∷ cs) ++ b':' ∷ 32 ∷ b'"' ∷ v;
  back = b'"';
  ends = sym (append_assoc (c ∷ cs) (b':' ∷ 32 ∷ b'"' ∷ v) (b'"' ∷ []));
  not_space = refl;
  head = c;
  tail = cs ++ b':' ∷ 32 ∷ quoted v;
  starts = refl;
  head_not_space = ground arith;
  head_not_hash = ground arith;
  unmarked = value_body-no_mark (c ∷ cs) v h g;
  not_dashes = unfold equal in ground arith;
}

key_body-IsBody : (k : Bytes) → IsKey k → IsBody (key_body k)
key_body-IsBody [] h = elim h [ ]
key_body-IsBody (c ∷ cs) h = record {
  front = c ∷ cs;
  back = b':';
  ends = refl;
  not_space = refl;
  head = c;
  tail = cs ++ b':' ∷ [];
  starts = refl;
  head_not_space = ground arith;
  head_not_hash = ground arith;
  unmarked =
      no_mark-append (c ∷ cs) (b':' ∷ []) (key_bytes-contains b'#' (c ∷ cs) refl h.1) refl
        (unfold no_mark in refl);
  not_dashes = unfold equal in ground arith;
}

-- An item starts with a dash and ends as its text does.
dash-IsBody :
    (t front : Bytes) (back : ℕ)
    → t ≡ front ++ back ∷ []
    → is_space back ≡ false
    → starts_hash t ≡ false
    → no_mark t ≡ true
    → IsBody (dash t)
dash-IsBody t front back e s n m = record {
  front = b'-' ∷ 32 ∷ front;
  back = back;
  ends = ap (λ (u : Bytes). dash u) e;
  not_space = s;
  head = b'-';
  tail = 32 ∷ t;
  starts = refl;
  head_not_space = refl;
  head_not_hash = λ h. absurd (omega (arith, h));
  unmarked = unfold no_mark in ground arith;
  not_dashes = unfold equal in refl;
}

lex_item-key :
    (i c : ℕ) (t : Bytes) {k v : Bytes}
    → split_kv (c ∷ t) ≡ some (k, v)
    → lex_item i (c ∷ t) ≡ key_item i k v
unfolding lex_item
lex_item-key i c t h = rw (h, lex_item)

module _ (i : ℕ) (even : i % 2 ≡ 0) where
  pub lex_line-value :
      (k v : Bytes)
      → IsKey k
      → IsValue v
      → lex_line (drop_cr (spaces i (value_body k v))) ≡ key_value i k (quoted v)
  lex_line-value k v h g =
      lex_line-body i (value_body k v) (value_body-IsBody k v h g) even
      ∙ lex_body-key i k (32 ∷ quoted v) h
      ∙ ap (key_value i k) (trim_space-quoted 1 v)

  pub lex_line-key :
      (k : Bytes) → IsKey k → lex_line (drop_cr (spaces i (key_body k))) ≡ key_value i k []
  lex_line-key k h =
      lex_line-body i (key_body k) (key_body-IsBody k h) even
      ∙ lex_body-key i k [] h
      ∙ ap (key_value i k) (unfold trim_space in refl)

  pub lex_line-plain :
      (v : Bytes)
      → IsItem v
      → lex_line (drop_cr (spaces i (dash (quoted v)))) ≡ plain_item i (quoted v)
  lex_line-plain v h =
      lex_line-body i (dash (quoted v))
        (dash-IsBody (quoted v) (b'"' ∷ v) b'"' refl refl refl (quoted-no_mark v h.0)) even
      ∙ lex_body-dash i b'"' (v ++ b'"' ∷ [])
      ∙ ap (lex_item i) (trim_space-quoted 0 v)
      ∙ unfold lex_item in rw (split_kv-quoted v h.1, lex_item)

  pub lex_line-object :
      (k v : Bytes)
      → IsKey k
      → IsValue v
      → lex_line (drop_cr (spaces i (dash (value_body k v)))) ≡ key_item i k (quoted v)
  lex_line-object [] v h g = elim h [ ]
  lex_line-object (c ∷ cs) v h g =
      let b = value_body-IsBody (c ∷ cs) v h g in
      lex_line-body i (dash (value_body (c ∷ cs) v))
        (dash-IsBody (value_body (c ∷ cs) v) b.front b.back b.ends b.not_space (ground arith)
          b.unmarked)
        even
      ∙ lex_body-dash i c (cs ++ b':' ∷ 32 ∷ quoted v)
      ∙ ap (lex_item i) (trim_space-body 0 (value_body (c ∷ cs) v) b)
      ∙ lex_item-key i c (cs ++ b':' ∷ 32 ∷ quoted v) (
          split_kv-key (c ∷ cs) (32 ∷ quoted v) h.1
          ∙ ap (λ (u : Bytes). some (c ∷ cs, u)) (trim_space-quoted 1 v))
