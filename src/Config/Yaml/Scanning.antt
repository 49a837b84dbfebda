-- ===== src/Config/Yaml/Scanning.antt =====
-- The scanner takes a text apart into the lines that it was joined from.
use ollama_exporter.Base.{
  All, Bytes, ℕ, zero, suc, ◌+◌, ◌≡◌, refl, ap₂, ◌∙◌, false, List, [], ◌∷◌, ◌++◌, append-nil, arith,
}
use ollama_exporter.Go.Strings.{contains}
use ollama_exporter.Go.Trimming.{contains-append}
use ollama_exporter.Config.Yaml.Parse.{scan_lines, reversed}
use ollama_exporter.Config.Yaml.Printed.{
  Block, Seq, end_block, value_of, block_of, list_of, end_seq, plain, object, spaces, quoted,
  value_body, key_body, dash, block_lines, seq_lines, unlines, IsBlock, IsSeq, IsKey, IsValue,
}
use ollama_exporter.Config.Yaml.Trimmed.{key_bytes-contains}

reversed_twice : (l acc out : Bytes) → reversed (reversed l acc) out ≡ reversed acc (l ++ out)
unfolding reversed
reversed_twice [] acc out = refl
reversed_twice (c ∷ l) acc out = reversed_twice l (c ∷ acc) out

scan_lines-line :
    (acc l rest : Bytes)
    → contains 10 l ≡ false
    → scan_lines acc (l ++ 10 ∷ rest) ≡ reversed (reversed l acc) [] ∷ scan_lines [] rest
unfolding scan_lines reversed contains
scan_lines-line acc [] rest h = refl
scan_lines-line acc (c ∷ l) rest h = ground (arith, scan_lines-line (c ∷ acc) l rest)

-- A text of lines without line feeds in them.
pub scan_lines-unlines :
    (ls : List Bytes) → All (λ l. contains 10 l ≡ false) ls → scan_lines [] (unlines ls) ≡ ls
unfolding unlines
scan_lines-unlines [] h = unfold scan_lines in refl
scan_lines-unlines (l ∷ ls) h =
    scan_lines-line [] l (unlines ls) h.0
    ∙ ap₂ (λ (a : Bytes) (b : List Bytes). a ∷ b)
        (reversed_twice l [] [] ∙ unfold reversed in append-nil l) (scan_lines-unlines ls h.1)

contains-spaces : (i : ℕ) (t : Bytes) → contains 10 t ≡ false → contains 10 (spaces i t) ≡ false
unfolding contains
contains-spaces zero t h = h
contains-spaces (suc i) t h = contains-spaces i t h

contains-key : (k : Bytes) → IsKey k → contains 10 k ≡ false
contains-key [] h = elim h [ ]
contains-key (c ∷ cs) h = key_bytes-contains 10 (c ∷ cs) refl h.1

contains-quoted : (v : Bytes) → IsValue v → contains 10 (quoted v) ≡ false
unfolding contains
contains-quoted v h = contains-append 10 v (b'"' ∷ []) h.0 refl

contains-value_body : (k v : Bytes) → IsKey k → IsValue v → contains 10 (value_body k v) ≡ false
contains-value_body k v h g =
    contains-append 10 k (b':' ∷ 32 ∷ quoted v) (contains-key k h)
      (unfold contains in contains-quoted v g)

contains-key_body : (k : Bytes) → IsKey k → contains 10 (key_body k) ≡ false
contains-key_body k h =
    contains-append 10 k (b':' ∷ []) (contains-key k h) (unfold contains in refl)

abbrev pub AllLines : List Bytes → Type 0
AllLines ls = All (λ l. contains 10 l ≡ false) ls

mutual
  unfolding block_lines IsBlock contains

  pub block_lines-AllLines :
      (b : Block) (i : ℕ) (rest : List Bytes)
      → IsBlock i b
      → AllLines rest
      → AllLines (block_lines i b rest)
  block_lines-AllLines end_block i rest h r = r
  block_lines-AllLines (value_of k v b) i rest h r = (
    contains-spaces i (value_body k v) (contains-value_body k v h.0 h.1),
    block_lines-AllLines b i rest h.3 r,
  )
  block_lines-AllLines (block_of k sub b) i rest h r = (
    contains-spaces i (key_body k) (contains-key_body k h.0),
    block_lines-AllLines sub (2 + i) (block_lines i b rest) h.2
        (block_lines-AllLines b i rest h.3 r),
  )
  block_lines-AllLines (list_of k xs b) i rest h r = (
    contains-spaces i (key_body k) (contains-key_body k h.0),
    seq_lines-AllLines xs (2 + i) (block_lines i b rest) h.2 (block_lines-AllLines b i rest h.3 r),
  )

  seq_lines-AllLines :
      (xs : Seq) (i : ℕ) (rest : List Bytes)
      → IsSeq i xs
      → AllLines rest
      → AllLines (seq_lines i xs rest)
  seq_lines-AllLines end_seq i rest h r = r
  seq_lines-AllLines (plain v xs) i rest h r = (
    contains-spaces i (dash (quoted v)) (contains-quoted v (h.0).0),
    seq_lines-AllLines xs i rest h.2 r,
  )
  seq_lines-AllLines (object k v b xs) i rest h r = (
    contains-spaces i (dash (value_body k v)) (contains-value_body k v h.0 h.1),
    block_lines-AllLines b (2 + i) (seq_lines i xs rest) h.3 (seq_lines-AllLines xs i rest h.4 r),
  )
