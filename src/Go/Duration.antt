-- ===== src/Go/Duration.antt =====
-- time: `ParseDuration`.
use ollama_exporter.Base.{
  ltb, ◌==◌, if◌then◌else◌, sub_ℕ, two63, two64, ℤ, pos, Bytes, codes, equal, ℕ, ◌+◌, ◌-◌, ◌*◌, ◌/◌,
  ◌%◌, Bool, true, false, ◌&&◌, ◌||◌, Option, none, some, List, [], ◌∷◌,
}
use ollama_exporter.Go.Strings.{cut_first, contains}
use ollama_exporter.Go.Strconv.{is_digit}
use ollama_exporter.Go.Dict.{lookup}

abbrev in_number : ℕ → Bool
in_number c = c == b'.' || is_digit c

-- The text as runs of a number's bytes, each with the unit that follows it. A text that starts with
-- a unit has an empty first number.
join_runs : ℕ → List (Bytes × Bytes) → List (Bytes × Bytes)
join_runs c [] = if in_number c then (c ∷ [], []) ∷ [] else ([], c ∷ []) ∷ []
join_runs c (([], u) ∷ rest) = if in_number c then (c ∷ [], u) ∷ rest else ([], c ∷ u) ∷ rest
join_runs c ((d ∷ n, u) ∷ rest) =
    if in_number c then (c ∷ d ∷ n, u) ∷ rest else ([], c ∷ []) ∷ (d ∷ n, u) ∷ rest

unfoldable pub runs : Bytes → List (Bytes × Bytes)
unfolding join_runs
runs [] = []
runs (c ∷ cs) = join_runs c (runs cs)

-- `leadingInt`: no value above 2^63.
unfoldable pub leading_int : ℕ → Bytes → Option ℕ
leading_int x [] = some x
leading_int x (c ∷ cs) =
    let y = x * 10 + (c - b'0') in
    let rest = leading_int y cs in
    if ltb (two63 / 10) x then none else if ltb two63 y then none else rest

-- `leadingFraction`: the digits that fit, and the power of ten that they are over.
unfoldable pub leading_fraction : ℕ → ℕ → Bytes → ℕ × ℕ
leading_fraction x scale [] = (x, scale)
leading_fraction x scale (c ∷ cs) =
    let y = x * 10 + (c - b'0') in
    let rest = leading_fraction y (scale * 10) cs in
    if ltb ((two63 - 1) / 10) x || ltb two63 y then (x, scale) else rest

abbrev unit_map : List (Bytes × ℕ)
unit_map =
    (codes "ns", 1)
    ∷ (codes "us", 1000)
    ∷ (0xC2 ∷ 0xB5 ∷ b's' ∷ [], 1000)
    ∷ (0xCE ∷ 0xBC ∷ b's' ∷ [], 1000)
    ∷ (codes "ms", 1000000)
    ∷ (codes "s", 1000000000)
    ∷ (codes "m", 60000000000)
    ∷ (codes "h", 3600000000000)
    ∷ []

-- The whole digits and the digits of the fraction; not a number if there is no digit, or a second
-- point.
unfoldable pub split_number : Bytes → Option (Bytes × Bytes)
split_number n = elim (cut_first b'.' n) [
  | none ↦ if equal n [] then none else some (n, [])
  | some (a, b) ↦ if contains b'.' b || (equal a [] && equal b []) then none else some (a, b)
]

-- `scaled f scale unit` is `uint64(float64(f) * (float64(unit) / scale))`.
module _ (scaled : ℕ → ℕ → ℕ → ℕ) where
  unfoldable pub scale_unit : ℕ → ℕ × ℕ → ℕ → Option ℕ
  scale_unit v (f, scale) unit =
      if ltb (two63 / unit) v
      then none
      else if ltb 0 f
      then (let w = (v * unit + scaled f scale unit) % two64 in
          if ltb two63 w then none else some w)
      else some (v * unit)

  unfoldable pub run_value : Bytes × Bytes → Option ℕ
  unfolding scale_unit
  run_value (n, u) = elim (split_number n) [
    | none ↦ none
    | some (a, b) ↦ elim (leading_int 0 a) [
      | none ↦ none
      | some v ↦ elim (lookup u unit_map) [
        | none ↦ none
        | some unit ↦ scale_unit v (leading_fraction 0 1 b) unit
      ]
    ]
  ]

  -- The sum of uint64 values, which stays below 2^63 or at it.
  unfoldable pub sum_runs : ℕ → List (Bytes × Bytes) → Option ℕ
  unfolding run_value
  sum_runs d [] = some d
  sum_runs d (r ∷ rs) = elim (run_value r) [
    | none ↦ none
    | some v ↦
        let d' = (d + v) % two64 in elim (ltb two63 d') [ true ↦ none | false ↦ sum_runs d' rs ]
  ]

  abbrev signed_duration : Bool → Option ℕ → Option ℤ
  signed_duration minus none = none
  signed_duration true (some d) = some (sub_ℕ 0 d)
  signed_duration false (some d) = if ltb d two63 then some (pos d) else none

  unfoldable pub unsigned_text : Bool → Bytes → Option ℤ
  unfolding sum_runs runs
  unsigned_text minus s =
      if equal s (codes "0")
      then some (pos 0)
      else if equal s []
      then none
      else signed_duration minus (sum_runs 0 (runs s))

  unfoldable pub parse_duration : Bytes → Option ℤ
  unfolding unsigned_text
  parse_duration [] = none
  parse_duration (c ∷ cs) =
      if c == b'-'
      then unsigned_text true cs
      else if c == b'+'
      then unsigned_text false cs
      else unsigned_text false (c ∷ cs)
