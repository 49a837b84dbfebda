-- ===== src/Gpu/Amd/StateLine.antt =====
-- The lines of a table of clocks, and what the parser makes of each.
use ollama_exporter.Base.{
  All, All-append, Bytes, codes, equal, ℕ, ◌≡◌, refl, sym, ap, ◌∙◌, ◌≢◌, true, false, none, some,
  List, [], ◌∷◌, ◌++◌, append_assoc, arith,
}
use ollama_exporter.Go.Strings.{
  trim_space, trim_left, trim_right, is_space, trim_suffix, fields, to_lower,
}
use ollama_exporter.Go.Trimming.{trim_right-last}
use ollama_exporter.Go.Strconv.{is_digit, atoi}
use ollama_exporter.Gpu.Amd.{mhz_text, dpm_lines}

-- `0: 300Mhz`, and ` *` behind the active one.
abbrev pub state_line : Bytes → Bytes → Bytes
state_line idx mhz = idx ++ b':' ∷ 32 ∷ (mhz ++ codes "Mhz")

abbrev pub active_line : Bytes → Bytes → Bytes
active_line idx mhz = state_line idx mhz ++ codes " *"

abbrev pub IsNumber : Bytes → Type 0
IsNumber [] = ⊥
IsNumber (c ∷ cs) = All (λ b. is_digit b ≡ true) (c ∷ cs)

trim_suffix-other : (s : Bytes) (c : ℕ) → c ≢ b'*' → trim_suffix (codes "*") (s ++ c ∷ []) ≡ none
unfolding trim_suffix equal
trim_suffix-other [] c h = ground arith
trim_suffix-other (d ∷ []) c h = rw (trim_suffix-other [] c h) (ground arith)
trim_suffix-other (d ∷ e ∷ s) c h = rw (trim_suffix-other (e ∷ s) c h) (ground arith)

trim_suffix-star : (s : Bytes) → trim_suffix (codes "*") (s ++ codes "*") ≡ some s
unfolding trim_suffix equal
trim_suffix-star [] = refl
trim_suffix-star (d ∷ []) = ground arith
trim_suffix-star (d ∷ e ∷ s) = ground (arith, trim_suffix-star (e ∷ s))

trim_suffix-mhz :
    (s : Bytes)
    → All (λ b. is_digit b ≡ true) s
    → trim_suffix (codes "mhz") (s ++ codes "mhz") ≡ some s
unfolding trim_suffix equal
trim_suffix-mhz [] h = refl
trim_suffix-mhz (d ∷ s) h = ground (arith, trim_suffix-mhz s)

to_lower-mhz :
    (s : Bytes) → All (λ b. is_digit b ≡ true) s → to_lower (s ++ codes "Mhz") ≡ s ++ codes "mhz"
unfolding to_lower
to_lower-mhz [] h = refl
to_lower-mhz (d ∷ s) h = ground (arith, to_lower-mhz s)

-- Words without spaces.
abbrev NoSpace : Bytes → Type 0
NoSpace w = All (λ b. is_space b ≡ false) w

fields-word : (c : ℕ) (w : Bytes) → NoSpace (c ∷ w) → fields (c ∷ w) ≡ (c ∷ w) ∷ []
unfolding fields
fields-word c [] h = ground arith
fields-word c (d ∷ w) h = ground (arith, fields-word d w)

fields-front :
    (c : ℕ) (w : Bytes) (d : ℕ) (t : Bytes)
    → NoSpace (c ∷ w)
    → fields ((c ∷ w) ++ 32 ∷ d ∷ t) ≡ (c ∷ w) ∷ fields (d ∷ t)
unfolding fields
fields-front c [] d t h = ground arith
fields-front c (e ∷ w) d t h = ground (arith, fields-front e w d t)

trim_space-ends :
    (c : ℕ) (t s : Bytes) (d : ℕ)
    → c ∷ t ≡ s ++ d ∷ []
    → is_space c ≡ false
    → is_space d ≡ false
    → trim_space (c ∷ t) ≡ c ∷ t
unfolding trim_space trim_left
trim_space-ends c t s d e h k =
    rw h (ap (trim_right is_space) e ∙ trim_right-last is_space s d k ∙ sym e)

-- A space at the end goes.
trim_right-space : (s : Bytes) → trim_right is_space (s ++ 32 ∷ []) ≡ trim_right is_space s
unfolding trim_right
trim_right-space [] = refl
trim_right-space (c ∷ s) = rw (trim_right-space s)

trim_space-space :
    (c : ℕ) (t : Bytes) → is_space c ≡ false → trim_space ((c ∷ t) ++ 32 ∷ []) ≡ trim_space (c ∷ t)
unfolding trim_space trim_left
trim_space-space c t h = rw h (trim_right-space (c ∷ t))

digits-NoSpace : (s : Bytes) → All (λ b. is_digit b ≡ true) s → NoSpace s
digits-NoSpace [] h = tt
digits-NoSpace (c ∷ s) h = (ground arith, digits-NoSpace s h.1)

dpm_lines-skip :
    (l : Bytes) (ls : List Bytes)
    → trim_suffix (codes "*") (trim_space l) ≡ none
    → dpm_lines (l ∷ ls) ≡ dpm_lines ls
unfolding dpm_lines
dpm_lines-skip l ls e = rw (e, dpm_lines)

dpm_lines-take :
    (l : Bytes) (ls : List Bytes) {t f g : Bytes}
    → trim_suffix (codes "*") (trim_space l) ≡ some t
    → fields (trim_space t) ≡ f ∷ g ∷ []
    → dpm_lines (l ∷ ls) ≡ atoi (mhz_text f (g ∷ []))
unfolding dpm_lines
dpm_lines-take l ls e fs = rw (e, dpm_lines, fs)

mhz_text-last :
    (f g : Bytes) {r t : Bytes}
    → to_lower g ≡ r
    → trim_suffix (codes "mhz") r ≡ some t
    → mhz_text f (g ∷ []) ≡ t
unfolding mhz_text
mhz_text-last f g e k = rw (e, mhz_text, k)

module _ (c : ℕ) (cs : Bytes) (m : ℕ) (ms : Bytes) (h : IsNumber (c ∷ cs))
    (k : IsNumber (m ∷ ms)) where
  abbrev line : Bytes
  line = state_line (c ∷ cs) (m ∷ ms)

  front : Bytes
  front = (c ∷ cs) ++ b':' ∷ 32 ∷ ((m ∷ ms) ++ codes "Mh")

  line-ends : line ≡ front ++ b'z' ∷ []
  unfolding front
  line-ends =
      ap (λ (t : Bytes). (c ∷ cs) ++ b':' ∷ 32 ∷ t)
        (sym (append_assoc (m ∷ ms) (codes "Mh") (b'z' ∷ [])))
      ∙ sym (append_assoc (c ∷ cs) (b':' ∷ 32 ∷ ((m ∷ ms) ++ codes "Mh")) (b'z' ∷ []))

  trim_space-line : trim_space line ≡ line
  trim_space-line =
      trim_space-ends c (cs ++ b':' ∷ 32 ∷ ((m ∷ ms) ++ codes "Mhz")) front b'z' line-ends
        (digits-NoSpace (c ∷ cs) h).0 refl

  fields-line : fields line ≡ ((c ∷ cs) ++ b':' ∷ []) ∷ ((m ∷ ms) ++ codes "Mhz") ∷ []
  fields-line =
      ap fields (sym (append_assoc (c ∷ cs) (b':' ∷ []) (32 ∷ ((m ∷ ms) ++ codes "Mhz"))))
      ∙ fields-front c (cs ++ b':' ∷ []) m (ms ++ codes "Mhz") (
          All-append (λ b. is_space b ≡ false) (c ∷ cs) (b':' ∷ []) (digits-NoSpace (c ∷ cs) h)
            (refl, tt))
      ∙ ap (λ (w : List Bytes). ((c ∷ cs) ++ b':' ∷ []) ∷ w)
          (fields-word m (ms ++ codes "Mhz") (
            All-append (λ b. is_space b ≡ false) (m ∷ ms) (codes "Mhz") (digits-NoSpace (m ∷ ms) k)
              (refl, (refl, (refl, tt)))))

  -- Another state is passed over.
  pub dpm_lines-state : (ls : List Bytes) → dpm_lines (line ∷ ls) ≡ dpm_lines ls
  dpm_lines-state ls = dpm_lines-skip line ls (
      ap (trim_suffix (codes "*")) (trim_space-line ∙ line-ends)
      ∙ trim_suffix-other front b'z' (λ e. absurd (omega (arith, e))))

  active-ends : active_line (c ∷ cs) (m ∷ ms) ≡ (line ++ 32 ∷ []) ++ codes "*"
  active-ends = sym (append_assoc line (32 ∷ []) (codes "*"))

  trim_space-active : trim_space (active_line (c ∷ cs) (m ∷ ms)) ≡ (line ++ 32 ∷ []) ++ codes "*"
  trim_space-active =
      trim_space-ends c ((cs ++ b':' ∷ 32 ∷ ((m ∷ ms) ++ codes "Mhz")) ++ codes " *")
        (line ++ 32 ∷ []) b'*' active-ends (digits-NoSpace (c ∷ cs) h).0 refl
      ∙ active-ends

  -- The active one decides.
  pub dpm_lines-active :
      (ls : List Bytes) → dpm_lines (active_line (c ∷ cs) (m ∷ ms) ∷ ls) ≡ atoi (m ∷ ms)
  dpm_lines-active ls =
      dpm_lines-take (active_line (c ∷ cs) (m ∷ ms)) ls
        (ap (trim_suffix (codes "*")) trim_space-active ∙ trim_suffix-star (line ++ 32 ∷ []))
        (ap fields (
            trim_space-space c (cs ++ b':' ∷ 32 ∷ ((m ∷ ms) ++ codes "Mhz"))
              (digits-NoSpace (c ∷ cs) h).0
            ∙ trim_space-line)
          ∙ fields-line)
      ∙ ap atoi (
          mhz_text-last ((c ∷ cs) ++ b':' ∷ []) ((m ∷ ms) ++ codes "Mhz") (to_lower-mhz (m ∷ ms) k)
            (trim_suffix-mhz (m ∷ ms) k))
