-- ===== src/Go/Strconv.antt =====
-- strconv: `Atoi`, `ParseUint(s, 10, 64)` and `ParseBool`.
use ollama_exporter.Base.{
  ltb, leb, ◌==◌, if◌then◌else◌, two63, two64, IsInt64, ℤ, pos, negsuc, Bytes, codes, equal, ℕ,
  zero, suc, ◌+◌, ◌-◌, ◌*◌, ◌≡◌, Bool, true, false, ◌&&◌, ◌||◌, Option, none, some, List, [], ◌∷◌,
  arith,
}

abbrev pub is_digit : ℕ → Bool
is_digit c = leb b'0' c && leb c b'9'

-- The value of a run of decimal digits behind `acc`; `none` if another byte is met.
unfoldable pub digits_value : ℕ → Bytes → Option ℕ
digits_value acc [] = some acc
digits_value acc (c ∷ cs) =
    let rest = digits_value (10 * acc + (c - b'0')) cs in if is_digit c then rest else none

-- One digit at least.
unfoldable pub natural : Bytes → Option ℕ
unfolding digits_value
natural [] = none
natural (c ∷ cs) = digits_value 0 (c ∷ cs)

abbrev pub in_range : ℤ → Option ℤ
in_range (pos n) = if ltb n two63 then some (pos n) else none
in_range (negsuc n) = if ltb n two63 then some (negsuc n) else none

abbrev pub signed : Bool → Option ℕ → Option ℤ
signed minus none = none
signed minus (some zero) = some (pos 0)
signed minus (some (suc n)) = in_range (if minus then negsuc n else pos (suc n))

-- `Atoi`: an optional sign, then digits, in the range of int64.
unfoldable pub atoi : Bytes → Option ℤ
unfolding natural
atoi [] = none
atoi (c ∷ cs) =
    if c == b'-'
    then signed true (natural cs)
    else if c == b'+'
    then signed false (natural cs)
    else signed false (natural (c ∷ cs))

unfoldable pub parse_uint64 : Bytes → Option ℕ
unfolding natural
parse_uint64 s = elim (natural s) [ none ↦ none | some n ↦ if ltb n two64 then some n else none ]

abbrev one_of : List Bytes → Bytes → Bool
one_of [] s = false
one_of (t ∷ ts) s = equal t s || one_of ts s

unfoldable pub parse_bool : Bytes → Option Bool
unfolding equal
parse_bool s =
    if one_of (codes "1" ∷ codes "t" ∷ codes "T" ∷ codes "true" ∷ codes "TRUE" ∷ codes "True" ∷ [])
      s
    then some true
    else if one_of
        (codes "0" ∷ codes "f" ∷ codes "F" ∷ codes "false" ∷ codes "FALSE" ∷ codes "False" ∷ []) s
    then some false
    else none

-- An accepted number is an int64.
pub atoi-IsInt64 : (s : Bytes) {n : ℤ} → atoi s ≡ some n → IsInt64 n
unfolding atoi
atoi-IsInt64 [] h = cc
atoi-IsInt64 (c ∷ cs) h = ground arith
