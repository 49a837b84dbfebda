-- ===== src/Config/Yaml/Lexing.antt =====
-- A printed line reads as what it was printed from.
use ollama_exporter.Base.{
  All, Bytes, codes, equal, ℕ, ◌%◌, ◌≡◌, refl, sym, ap, ◌∙◌, ◌≢◌, true, false, none, some, [], ◌∷◌,
  ◌++◌, arith,
}
use ollama_exporter.Go.Strings.{
  cut_first-none, has_prefix, contains, trim_space, trim_left, trim_right, is_space,
}
use ollama_exporter.Config.Yaml.Lex.{
  key_value, lex_line, lex_body, lex_item, split_kv, leading_spaces, without_comment, is_blank,
}
use ollama_exporter.Config.Yaml.Parse.{drop_cr}
use ollama_exporter.Config.Yaml.Printed.{
  spaces, quoted, dash, IsKey, key_byte, starts_hash, no_mark,
}
use ollama_exporter.Go.Trimming.{trim_right-last, trim_space-none, cut_first-found}
use ollama_exporter.Config.Yaml.Trimmed.{
  drop_cr-last, leading_spaces-spaces, drop-spaces, trim_left-spaces, spaces-append, cut_at-none,
  no_mark-spaces, key_bytes-not_space, key_bytes-contains,
}

-- The body of a line: it starts with no space and no `#`, has no comment, and ends with a byte that
-- is no space.
pub record IsBody (body : Bytes) : Type 0 where
  pub front : Bytes
  pub back : ℕ
  pub ends : body ≡ front ++ back ∷ []
  pub not_space : is_space back ≡ false
  pub head : ℕ
  pub tail : Bytes
  pub starts : body ≡ head ∷ tail
  pub head_not_space : is_space head ≡ false
  pub head_not_hash : head ≢ b'#'
  pub unmarked : no_mark body ≡ true
  pub not_dashes : equal body (codes "---") ≡ false

module _ (i : ℕ) (body : Bytes) (b : IsBody body) where
  open b use {
    front, back, ends, not_space, head, tail, starts, head_not_space, head_not_hash, unmarked,
    not_dashes,
  }

  spaces-ends : spaces i body ≡ spaces i front ++ back ∷ []
  spaces-ends = ap (spaces i) ends ∙ spaces-append i front (back ∷ [])

  pub trim_space-body : trim_space (spaces i body) ≡ body
  unfolding trim_space
  trim_space-body =
      ap (λ (t : Bytes). trim_right is_space (trim_left is_space (spaces i t))) starts
      ∙ ap (trim_right is_space) (trim_left-spaces i head tail head_not_space ∙ sym starts ∙ ends)
      ∙ trim_right-last is_space front back not_space
      ∙ sym ends

  pub drop_cr-body : drop_cr (spaces i body) ≡ spaces i body
  drop_cr-body =
      ap drop_cr spaces-ends ∙ drop_cr-last (spaces i front) back (ground arith) ∙ sym spaces-ends

  no_mark-body : no_mark (spaces i body) ≡ true
  no_mark-body = no_mark-spaces i body (ap starts_hash starts ∙ ground arith) unmarked

  without_comment-body : without_comment (spaces i body) ≡ spaces i body
  unfolding without_comment
  without_comment-body = rw (cut_at-none (spaces i body) no_mark-body, without_comment)

  trim_blank-body : trim_right is_blank (spaces i body) ≡ spaces i body
  trim_blank-body =
      ap (trim_right is_blank) spaces-ends
      ∙ trim_right-last is_blank (spaces i front) back (ground arith)
      ∙ sym spaces-ends

  leading_spaces-body : leading_spaces (spaces i body) ≡ i
  leading_spaces-body =
      ap (λ (t : Bytes). leading_spaces (spaces i t)) starts
      ∙ leading_spaces-spaces i head tail (ground arith)

  no_hash-body : has_prefix body (codes "#") ≡ false
  unfolding has_prefix
  no_hash-body = ap (λ (t : Bytes). has_prefix t (codes "#")) starts ∙ ground arith

  not_empty-body : equal body [] ≡ false
  unfolding equal
  not_empty-body = ap (λ (t : Bytes). equal t []) starts

  -- Past the comment, the blank line and the indent, what is left is the body.
  pub lex_line-body : i % 2 ≡ 0 → lex_line (drop_cr (spaces i body)) ≡ lex_body i body
  unfolding lex_line
  lex_line-body even = rw (
    drop_cr-body,
    without_comment-body,
    trim_blank-body,
    trim_space-body,
    leading_spaces-body,
    drop-spaces i body,
    no_hash-body,
    not_empty-body,
    not_dashes,
    even,
  )

-- A key is cut off at its colon.
pub split_kv-key :
    (k t : Bytes)
    → All (λ b. key_byte b ≡ true) k
    → split_kv (k ++ b':' ∷ t) ≡ some (k, trim_space t)
unfolding split_kv
split_kv-key k t h =
    rw (cut_first-found b':' k t (key_bytes-contains b':' k refl h), split_kv)
      (ap (λ (u : Bytes). some (u, trim_space t)) (trim_space-none k (key_bytes-not_space k h)))

pub trim_space-quoted : (i : ℕ) (v : Bytes) → trim_space (spaces i (quoted v)) ≡ quoted v
unfolding trim_space
trim_space-quoted i v =
    ap (trim_right is_space) (trim_left-spaces i b'"' (v ++ b'"' ∷ []) refl)
    ∙ trim_right-last is_space (b'"' ∷ v) b'"' refl

contains-last :
    (d : ℕ) (v : Bytes) (e : ℕ) → (d ≢ e) → contains d v ≡ false → contains d (v ++ e ∷ []) ≡ false
unfolding contains
contains-last d [] e n h = ground arith
contains-last d (c ∷ v) e n h = ground (arith, contains-last d v e)

pub split_kv-quoted : (v : Bytes) → contains b':' v ≡ false → split_kv (quoted v) ≡ none
unfolding split_kv contains
split_kv-quoted v h = rw (
  cut_first-none b':' (quoted v) (contains-last b':' v b'"' (λ e. absurd (omega (arith, e))) h),
  split_kv,
)

pub lex_body-key :
    (i : ℕ) (k t : Bytes) → IsKey k → lex_body i (k ++ b':' ∷ t) ≡ key_value i k (trim_space t)
lex_body-key i [] t h = elim h [ ]
lex_body-key i (c ∷ cs) t h =
    unfold lex_body has_prefix equal in ground (arith, split_kv-key (c ∷ cs) t h.1)

pub lex_body-dash :
    (i : ℕ) (c : ℕ) (t : Bytes) → lex_body i (dash (c ∷ t)) ≡ lex_item i (trim_space (c ∷ t))
unfolding lex_body has_prefix equal
lex_body-dash i c t = refl
