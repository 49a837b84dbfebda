-- ===== src/Go/Url.antt =====
-- net/url: the scheme that `Parse` finds. What else it refuses is a parameter.
use ollama_exporter.Base.{
  leb, ◌==◌, if◌then◌else◌, Bytes, codes, ℕ, Bool, ◌&&◌, ◌||◌, Option, none, some, [], ◌∷◌,
}
use ollama_exporter.Go.Strings.{contains, to_lower}
use ollama_exporter.Go.Strconv.{is_digit}

abbrev is_letter : ℕ → Bool
is_letter c = (leb b'a' c && leb c b'z') || (leb b'A' c && leb c b'Z')

-- `getScheme` behind the first byte: the scheme, or nothing if the text has none.
unfoldable pub scheme_tail : Bytes → Option Bytes
unfolding contains
scheme_tail [] = none
scheme_tail (c ∷ cs) =
    let rest = elim (scheme_tail cs) as (λ _. Option Bytes) [
      | none ↦ none
      | some s ↦ some (c ∷ s)
    ] in
    if is_letter c || is_digit c || contains c (codes "+-.")
    then rest
    else if c == b':'
    then some []
    else none

-- A result of `none` is the error of a missing scheme.
unfoldable pub get_scheme : Bytes → Option Bytes
unfolding scheme_tail
get_scheme [] = some []
get_scheme (c ∷ cs) =
    if is_letter c
    then elim (scheme_tail cs) [ none ↦ some [] | some s ↦ some (c ∷ s) ]
    else if c == b':'
    then none
    else some []

-- `url.Parse(s)` as its scheme; `accepts` is whether the rest of the text is a URL to it.
unfoldable pub url_scheme : (Bytes → Bool) → Bytes → Option Bytes
unfolding get_scheme
url_scheme accepts s =
    if accepts s then elim (get_scheme s) [ none ↦ none | some t ↦ some (to_lower t) ] else none
