-- ===== src/Gpu/Amd/Clocks.antt =====
-- The active clock of a table in the kernel's format.
use ollama_exporter.Base.{
  All, Bytes, codes, ◌≡◌, refl, ap, ◌∙◌, true, false, List, [], ◌∷◌, ◌++◌, arith,
}
use ollama_exporter.Go.Strings.{split, contains}
use ollama_exporter.Go.Trimming.{contains-append}
use ollama_exporter.Go.Strconv.{is_digit, atoi}
use ollama_exporter.Gpu.Amd.{dpm_lines, parse_dpm_content}
use ollama_exporter.Gpu.Amd.StateLine.{
  state_line, active_line, IsNumber, dpm_lines-state, dpm_lines-active,
}

split-line : (l t : Bytes) → contains 10 l ≡ false → split 10 (l ++ 10 ∷ t) ≡ l ∷ split 10 t
unfolding split contains
split-line [] t h = refl
split-line (c ∷ l) t h = ground (arith, split-line l t)

digits-contains : (s : Bytes) → All (λ b. is_digit b ≡ true) s → contains 10 s ≡ false
unfolding contains
digits-contains [] h = refl
digits-contains (c ∷ s) h = ground (arith, digits-contains s)

state_line-contains :
    (idx mhz : Bytes) → IsNumber idx → IsNumber mhz → contains 10 (state_line idx mhz) ≡ false
unfolding contains
state_line-contains [] mhz h k = elim h [ ]
state_line-contains (c ∷ cs) [] h k = elim k [ ]
state_line-contains (c ∷ cs) (m ∷ ms) h k =
    contains-append 10 (c ∷ cs) (b':' ∷ 32 ∷ ((m ∷ ms) ++ codes "Mhz")) (digits-contains (c ∷ cs) h)
      (contains-append 10 (m ∷ ms) (codes "Mhz") (digits-contains (m ∷ ms) k) refl)

active_line-contains :
    (idx mhz : Bytes) → IsNumber idx → IsNumber mhz → contains 10 (active_line idx mhz) ≡ false
active_line-contains idx mhz h k =
    contains-append 10 (state_line idx mhz) (codes " *") (state_line-contains idx mhz h k)
      (unfold contains in refl)

dpm_lines-state_line :
    (idx mhz : Bytes) (ls : List Bytes)
    → IsNumber idx
    → IsNumber mhz
    → dpm_lines (state_line idx mhz ∷ ls) ≡ dpm_lines ls
dpm_lines-state_line [] mhz ls h k = elim h [ ]
dpm_lines-state_line (c ∷ cs) [] ls h k = elim k [ ]
dpm_lines-state_line (c ∷ cs) (m ∷ ms) ls h k = dpm_lines-state c cs m ms h k ls

dpm_lines-active_line :
    (idx mhz : Bytes) (ls : List Bytes)
    → IsNumber idx
    → IsNumber mhz
    → dpm_lines (active_line idx mhz ∷ ls) ≡ atoi mhz
dpm_lines-active_line [] mhz ls h k = elim h [ ]
dpm_lines-active_line (c ∷ cs) [] ls h k = elim k [ ]
dpm_lines-active_line (c ∷ cs) (m ∷ ms) ls h k = dpm_lines-active c cs m ms h k ls

-- A table of clock states: those before the active one, that, and any text behind it.
abbrev pub IsState : Bytes × Bytes → Type 0
IsState s = IsNumber s.0 × IsNumber s.1

abbrev pub table : List (Bytes × Bytes) → Bytes × Bytes → Bytes → Bytes
table [] (idx, mhz) rest = active_line idx mhz ++ 10 ∷ rest
table ((i, m) ∷ before) active rest = state_line i m ++ 10 ∷ table before active rest

-- In a table in the kernel's format the clock that is read is the number of the state that is marked
-- active, whatever states stand before it and whatever follows.
pub parse_dpm_content-active :
    (before : List (Bytes × Bytes)) (active : Bytes × Bytes) (rest : Bytes)
    → All IsState before
    → IsState active
    → parse_dpm_content (table before active rest) ≡ atoi active.1
unfolding parse_dpm_content
parse_dpm_content-active [] (idx, mhz) rest b a =
    ap dpm_lines (split-line (active_line idx mhz) rest (active_line-contains idx mhz a.0 a.1))
    ∙ dpm_lines-active_line idx mhz (split 10 rest) a.0 a.1
parse_dpm_content-active ((i, m) ∷ before) active rest b a =
    ap dpm_lines (
      split-line (state_line i m) (table before active rest)
        (state_line-contains i m (b.0).0 (b.0).1))
    ∙ dpm_lines-state_line i m (split 10 (table before active rest)) (b.0).0 (b.0).1
    ∙ parse_dpm_content-active before active rest b.1 a
