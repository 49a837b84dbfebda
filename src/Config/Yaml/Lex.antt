-- ===== src/Config/Yaml/Lex.antt =====
-- internal/config/yaml.go: one line, read on its own.
use ollama_exporter.Base.{
  ◌==◌, if◌then◌else◌, drop, Bytes, codes, equal, ℕ, suc, ◌%◌, Bool, not, ◌&&◌, ◌||◌, Option, none,
  some, [], ◌∷◌,
}
use ollama_exporter.Go.Strings.{has_prefix, cut_first, cut_at, trim_space, trim_right}

-- The text between surrounding quotes.
unfoldable pub without_last : Bytes → Bytes
without_last [] = []
without_last (c ∷ []) = []
without_last (c ∷ d ∷ cs) = c ∷ without_last (d ∷ cs)

unfoldable pub last_byte : ℕ → Bytes → ℕ
last_byte c [] = c
last_byte c (d ∷ cs) = last_byte d cs

unfoldable pub unquote_yaml : Bytes → Bytes
unfolding without_last last_byte
unquote_yaml [] = []
unquote_yaml (c ∷ []) = c ∷ []
unquote_yaml (c ∷ d ∷ cs) =
    if (c == b'"' && last_byte d cs == b'"') || (c == 39 && last_byte d cs == 39)
    then without_last (d ∷ cs)
    else c ∷ d ∷ cs

unfoldable pub split_kv : Bytes → Option (Bytes × Bytes)
split_kv s = elim (cut_first b':' s) [
  | none ↦ none
  | some (a, b) ↦ some (trim_space a, trim_space b)
]

-- What a line says: nothing, an error, an item or an entry with its indent.
pub data Line : Type 0 where
  blank bad_indent bad_entry : Line
  open_item : ℕ → Line  -- `-`
  key_item : ℕ → Bytes → Bytes → Line  -- `- key: value`
  plain_item : ℕ → Bytes → Line  -- `- value`
  key_value : ℕ → Bytes → Bytes → Line  -- `key: value`, or `key:`

abbrev pub is_blank : ℕ → Bool
is_blank c = c == 32 || c == 9

unfoldable pub without_comment : Bytes → Bytes
unfolding cut_at
without_comment raw = elim (cut_at (codes " #") raw) [ none ↦ raw | some (a, b) ↦ a ]

unfoldable pub leading_spaces : Bytes → ℕ
leading_spaces [] = 0
leading_spaces (c ∷ cs) = if c == 32 then suc (leading_spaces cs) else 0

unfoldable pub lex_item : ℕ → Bytes → Line
lex_item indent [] = open_item indent
lex_item indent (c ∷ cs) = elim (split_kv (c ∷ cs)) [
  | some (k, v) ↦ key_item indent k v
  | none ↦ plain_item indent (c ∷ cs)
]

unfoldable pub lex_body : ℕ → Bytes → Line
unfolding lex_item
lex_body indent body =
    if has_prefix body (codes "- ") || equal body (codes "-")
    then lex_item indent (if equal body (codes "-") then [] else trim_space (drop 2 body))
    else elim (split_kv body) [ none ↦ bad_entry | some (k, v) ↦ key_value indent k v ]

unfoldable pub lex_line : Bytes → Line
unfolding without_comment leading_spaces
lex_line line =
    let raw = without_comment line in
    let trimmed = trim_right is_blank raw in
    let indent = leading_spaces trimmed in
    if has_prefix (trim_space raw) (codes "#")
    then blank
    else if equal (trim_space trimmed) [] || equal (trim_space trimmed) (codes "---")
    then blank
    else if not (indent % 2 == 0)
    then bad_indent
    else lex_body indent (drop indent trimmed)
