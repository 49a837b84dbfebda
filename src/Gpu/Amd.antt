-- ===== src/Gpu/Amd.antt =====
-- internal/gpu/amdgpu.go: devices under sysfs, and one poll of their metrics. Reading a file and
-- listing the entries that fit a pattern are parameters; a path is joined from its parts.
pub mod Discover
pub mod Collect
pub mod Found
pub mod StateLine
pub mod Clocks
use ollama_exporter.Base.{
  if◌then◌else◌, drop, ℤ, Bytes, codes, equal, ℕ, Bool, true, false, not, ◌&&◌, Option, none, some,
  List, [], ◌∷◌, ◌++◌,
}
use ollama_exporter.Go.Strings.{has_prefix, trim_space, to_lower, trim_suffix, split, fields}
use ollama_exporter.Go.Strconv.{is_digit, atoi, parse_uint64}
use ollama_exporter.Gpu.Float.{Float}

-- `filepath.Join` of two parts that are clean.
abbrev pub join : Bytes → Bytes → Bytes
join a b = a ++ b'/' ∷ b

unfoldable pub all_digits : Bytes → Bool
all_digits [] = true
all_digits (c ∷ cs) = is_digit c && all_digits cs

unfoldable pub is_card_dir : Bytes → Bool
unfolding all_digits has_prefix
is_card_dir name =
    if not (has_prefix name (codes "card"))
    then false
    else if equal (drop 4 name) []
    then false
    else all_digits (drop 4 name)

unfoldable pub parse_card_index : Bytes → Option ℤ
parse_card_index name = atoi (drop 4 name)

-- The last field of the active line, without its unit.
unfoldable pub mhz_text : Bytes → List Bytes → Bytes
mhz_text f [] =
    let raw = to_lower f in elim (trim_suffix (codes "mhz") raw) [ none ↦ raw | some t ↦ t ]
mhz_text f (g ∷ gs) = mhz_text g gs

unfoldable pub dpm_lines : List Bytes → Option ℤ
unfolding mhz_text
dpm_lines [] = none
dpm_lines (l ∷ ls) =
    let rest = dpm_lines ls in
    elim (trim_suffix (codes "*") (trim_space l)) [
      | none ↦ rest
      | some t ↦ elim (fields (trim_space t)) [ [] ↦ rest | f ∷ fs ↦ atoi (mhz_text f fs) ]
    ]

unfoldable pub parse_dpm_content : Bytes → Option ℤ
parse_dpm_content content = dpm_lines (split 10 content)

pub record Device (fl : Float) : Type 0 where
  pub index : ℤ
  pub name : Bytes
  pub sysfs_path : Bytes
  pub hwmon_path : Bytes
  pub vram_total : fl.F

module _ (read_file : Bytes → Option Bytes) where
  unfoldable pub read_trimmed : Bytes → Option Bytes
  read_trimmed path = elim (read_file path) [ none ↦ none | some b ↦ some (trim_space b) ]

  unfoldable pub read_uint64_file : Bytes → Option ℕ
  unfolding read_trimmed
  read_uint64_file path = elim (read_trimmed path) [ none ↦ none | some s ↦ parse_uint64 s ]

  unfoldable pub parse_dpm_file : Bytes → Option ℤ
  parse_dpm_file path = elim (read_file path) [ none ↦ none | some b ↦ parse_dpm_content b ]
