-- ===== src/Go/Strings.antt =====
-- strings: prefixes, the first and last occurrence of a byte, trimming and lower case. Trimming and
-- lower case are given for ASCII text.
use ollama_exporter.Base.{
  leb, ◌==◌, if◌then◌else◌, Option-cases, length, drop, Bytes, equal, ℕ, ◌+◌, ◌≡◌, refl, inl, inr,
  Bool, true, false, ◌&&◌, ◌||◌, Option, none, some, List, [], ◌∷◌, ◌++◌, map, arith,
}

unfoldable pub has_prefix : Bytes → Bytes → Bool
has_prefix s [] = true
has_prefix [] (_ ∷ _) = false
has_prefix (c ∷ cs) (p ∷ ps) = c == p && has_prefix cs ps

-- The text before the first occurrence of a byte and the text behind it: `strings.Index` with the
-- two slices that its callers take.
unfoldable pub cut_first : ℕ → Bytes → Option (Bytes × Bytes)
cut_first sep [] = none
cut_first sep (c ∷ cs) =
    let rest = cut_first sep cs in
    if c == sep then some ([], cs) else elim rest [ none ↦ none | some (a, b) ↦ some (c ∷ a, b) ]

-- The text before the first occurrence of another text and the text behind it: `strings.Index` with
-- the two slices that its callers take. The other text is not empty.
unfoldable pub cut_at : Bytes → Bytes → Option (Bytes × Bytes)
unfolding has_prefix
cut_at sep [] = none
cut_at sep (c ∷ cs) =
    let rest = cut_at sep cs in
    if has_prefix (c ∷ cs) sep
    then some ([], drop (length sep) (c ∷ cs))
    else elim rest [ none ↦ none | some (a, b) ↦ some (c ∷ a, b) ]

-- The text behind the last occurrence of a byte: `strings.LastIndex` with its slice.
unfoldable pub after_last : ℕ → Bytes → Option Bytes
after_last sep [] = none
after_last sep (c ∷ cs) =
    let rest = after_last sep cs in
    elim rest [ none ↦ if c == sep then some cs else none | some t ↦ some t ]

-- `strings.Contains` for one byte.
unfoldable pub contains : ℕ → Bytes → Bool
contains b [] = false
contains b (c ∷ cs) = c == b || contains b cs

abbrev pub is_space : ℕ → Bool
is_space c = (leb 9 c && leb c 13) || c == 32

unfoldable pub trim_left : (ℕ → Bool) → Bytes → Bytes
trim_left p [] = []
trim_left p (c ∷ cs) = if p c then trim_left p cs else c ∷ cs

-- The last byte of a text that is not cut off is followed by bytes that are.
unfoldable pub trim_right : (ℕ → Bool) → Bytes → Bytes
trim_right p [] = []
trim_right p (c ∷ cs) =
    let rest = trim_right p cs in
    elim rest [ [] ↦ if p c then [] else c ∷ [] | x ∷ xs ↦ c ∷ x ∷ xs ]

unfoldable pub trim_space : Bytes → Bytes
unfolding trim_left trim_right
trim_space s = trim_right is_space (trim_left is_space s)

unfoldable pub to_lower : Bytes → Bytes
to_lower = map (λ c. if leb b'A' c && leb c b'Z' then c + 32 else c)

pub cut_first-append :
    (sep : ℕ) (s : Bytes) {a b : Bytes}
    → cut_first sep s ≡ some (a, b)
    → (s ≡ a ++ sep ∷ b) × (contains sep a ≡ false)
unfolding cut_first contains
cut_first-append sep [] h = cc
cut_first-append sep (c ∷ cs) {a} {b} h = elim (Option-cases (cut_first sep cs)) [
  | inl e ↦ ground arith
  | inr (t, e) ↦ ground (arith, cut_first-append sep cs {a = t.0} {b = t.1} e)
]

pub cut_first-none : (sep : ℕ) (s : Bytes) → contains sep s ≡ false → cut_first sep s ≡ none
unfolding cut_first contains
cut_first-none sep [] h = refl
cut_first-none sep (c ∷ cs) h = ground (arith, cut_first-none sep cs)

-- `strings.TrimSuffix`, which finds what `strings.HasSuffix` tests for, a suffix that is not empty.
unfoldable pub trim_suffix : Bytes → Bytes → Option Bytes
unfolding equal
trim_suffix suffix [] = none
trim_suffix suffix (c ∷ cs) =
    let rest = trim_suffix suffix cs in
    if equal (c ∷ cs) suffix then some [] else elim rest [ none ↦ none | some t ↦ some (c ∷ t) ]

-- `strings.Split` for one byte.
unfoldable pub split : ℕ → Bytes → List Bytes
split sep [] = [] ∷ []
split sep (c ∷ cs) =
    let rest = split sep cs in
    if c == sep
    then [] ∷ rest
    else elim rest [ [] ↦ (c ∷ []) ∷ [] | part ∷ parts ↦ (c ∷ part) ∷ parts ]

-- `strings.Fields`: the runs of bytes that are no spaces.
unfoldable pub fields : Bytes → List Bytes
fields [] = []
fields (c ∷ []) = if is_space c then [] else (c ∷ []) ∷ []
fields (c ∷ d ∷ cs) =
    let rest = fields (d ∷ cs) in
    if is_space c
    then rest
    else if is_space d
    then (c ∷ []) ∷ rest
    else elim rest [ [] ↦ (c ∷ []) ∷ [] | f ∷ fs ↦ (c ∷ f) ∷ fs ]
