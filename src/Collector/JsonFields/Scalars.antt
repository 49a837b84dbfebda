-- ===== src/Collector/JsonFields/Scalars.antt =====
-- `scalarByte` and `scalarComplete` of streamjson.go: the grammar of numbers and literals, tracked
-- without the bytes themselves. `literal` and `literalPos` are the rest of the literal to be read.
use ollama_exporter.Base.{
  ◌==◌, if◌then◌else◌, Bytes, codes, ℕ, Bool, true, false, ◌||◌, Option, none, some, [], ◌∷◌,
}
use ollama_exporter.Go.Strconv.{is_digit}

-- '-', '0', 'i', '.', 'f', 'e', 's' and 'd'.
pub data Place : Type 0 where
  minus zero_digit int_digits point frac_digits exp_mark exp_sign exp_digits : Place

-- Nothing read yet, the rest of a literal, a place in a number.
pub data Scalar : Type 0 where
  no_scalar : Scalar
  literal : Bytes → Scalar
  number : Place → Scalar

-- The place that a byte leads to, `none` for `bad`.
unfoldable pub next_place : Place → ℕ → Option Place
next_place minus c =
    if c == b'0' then some zero_digit else if is_digit c then some int_digits else none
next_place zero_digit c =
    if c == b'.' then some point else if c == b'e' || c == b'E' then some exp_mark else none
next_place int_digits c =
    if c == b'.'
    then some point
    else if c == b'e' || c == b'E'
    then some exp_mark
    else if is_digit c
    then some int_digits
    else none
next_place point c = if is_digit c then some frac_digits else none
next_place frac_digits c =
    if c == b'e' || c == b'E' then some exp_mark else if is_digit c then some frac_digits else none
next_place exp_mark c =
    if c == b'+' || c == b'-' then some exp_sign else if is_digit c then some exp_digits else none
next_place exp_sign c = if is_digit c then some exp_digits else none
next_place exp_digits c = if is_digit c then some exp_digits else none

unfoldable pub first_scalar : ℕ → Option Scalar
first_scalar c =
    if c == b't'
    then some (literal (codes "rue"))
    else if c == b'f'
    then some (literal (codes "alse"))
    else if c == b'n'
    then some (literal (codes "ull"))
    else if c == b'-'
    then some (number minus)
    else if c == b'0'
    then some (number zero_digit)
    else if is_digit c
    then some (number int_digits)
    else none

unfoldable pub next_scalar : Scalar → ℕ → Option Scalar
unfolding next_place first_scalar
next_scalar no_scalar c = first_scalar c
next_scalar (literal []) c = none
next_scalar (literal (l ∷ ls)) c = if l == c then some (literal ls) else none
next_scalar (number p) c = elim (next_place p c) [ none ↦ none | some q ↦ some (number q) ]

-- The state after a byte; a byte that does not fit leaves it as it is, and `scalar_bad` says so.
unfoldable pub scalar_byte : ℕ → Scalar → Scalar
scalar_byte c s = elim (next_scalar s c) [ none ↦ s | some t ↦ t ]

unfoldable pub scalar_bad : ℕ → Scalar → Bool
scalar_bad c s = elim (next_scalar s c) [ none ↦ true | some t ↦ false ]

unfoldable pub scalar_complete : Scalar → Bool
scalar_complete no_scalar = false
scalar_complete (literal []) = true
scalar_complete (literal (_ ∷ _)) = false
scalar_complete (number zero_digit) = true
scalar_complete (number int_digits) = true
scalar_complete (number frac_digits) = true
scalar_complete (number exp_digits) = true
scalar_complete (number minus) = false
scalar_complete (number point) = false
scalar_complete (number exp_mark) = false
scalar_complete (number exp_sign) = false
