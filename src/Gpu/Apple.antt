-- ===== src/Gpu/Apple.antt =====
-- internal/gpu/ioreg.go, applepoll.go and applegpu.go: the statistics in ioreg's output, and the
-- sampler that polls them. What `ioreg` and `sysctl` print is an argument; the single GPU has one
-- series of each gauge, and a deleted series is `none`.
pub mod Sampler
use ollama_exporter.Base.{
  ◌==◌, if◌then◌else◌, length, drop, Bytes, codes, equal, ℕ, Bool, true, false, not, ◌||◌, Option,
  none, some, List, [], ◌∷◌, ◌++◌,
}
use ollama_exporter.Go.Strings.{has_prefix}
use ollama_exporter.Go.Strconv.{is_digit, parse_uint64}
use ollama_exporter.Gpu.Float.{Float}

-- `\s` of regexp.
abbrev pub is_regexp_space : ℕ → Bool
is_regexp_space c = c == 9 || c == 10 || c == 12 || c == 13 || c == 32

unfoldable pub skip_spaces : Bytes → Bytes
skip_spaces [] = []
skip_spaces (c ∷ cs) = if is_regexp_space c then skip_spaces cs else c ∷ cs

-- `(\d+)`: as many digits as there are.
unfoldable pub take_digits : Bytes → Bytes
take_digits [] = []
take_digits (c ∷ cs) = if is_digit c then c ∷ take_digits cs else []

unfoldable pub digits_group : Bytes → Option Bytes
unfolding take_digits
digits_group [] = none
digits_group (c ∷ cs) = if is_digit c then some (take_digits (c ∷ cs)) else none

-- `\s*=\s*(\d+)`
unfoldable pub after_key : Bytes → Option Bytes
unfolding skip_spaces digits_group
after_key s = elim (skip_spaces s) [
  | [] ↦ none
  | c ∷ cs ↦ if c == b'=' then digits_group (skip_spaces cs) else none
]

-- `FindStringSubmatch` for a quoted key: the group of the leftmost match.
unfoldable pub find_submatch : Bytes → Bytes → Option Bytes
unfolding after_key has_prefix
find_submatch key [] = none
find_submatch key (c ∷ cs) =
    let rest = find_submatch key cs in
    if has_prefix (c ∷ cs) key
    then elim (after_key (drop (length key) (c ∷ cs))) [ none ↦ rest | some ds ↦ some ds ]
    else rest

abbrev pub device_util : Bytes
device_util = b'"' ∷ codes "Device Utilization %" ++ b'"' ∷ []

abbrev pub in_use_mem : Bytes
in_use_mem = b'"' ∷ codes "In use system memory" ++ b'"' ∷ []

-- `sysctl` gives the trimmed output for a key, empty on an error.
unfoldable pub is_apple_silicon : (Bytes → Bytes) → Bool
is_apple_silicon sysctl = equal (sysctl (codes "hw.optional.arm64")) (codes "1")

unfoldable pub apple_chip_name : (Bytes → Bytes) → Bytes
apple_chip_name sysctl = elim (sysctl (codes "machdep.cpu.brand_string")) [
  | [] ↦ codes "Apple GPU"
  | c ∷ cs ↦ c ∷ cs
]

pub data Level : Type 0 where
  info warn debug : Level

module _ (fl : Float) where
  open fl use {F, zero_value, of_uint64, is_pos, parse_float}

  unfoldable pub apple_unified_memory_bytes : (Bytes → Bytes) → F
  apple_unified_memory_bytes sysctl = elim (sysctl (codes "hw.memsize")) [
    | [] ↦ zero_value
    | c ∷ cs ↦ elim (parse_uint64 (c ∷ cs)) [ none ↦ zero_value | some n ↦ of_uint64 n ]
  ]

  -- A key that is missing, or does not fit, is no reading of memory.
  pub record IoAccelStats : Type 0 where
    pub utilization_percent : F
    pub in_use_memory_bytes : Option ℕ

  unfoldable pub in_use_memory : Bytes → Option ℕ
  unfolding find_submatch
  in_use_memory raw = elim (find_submatch in_use_mem raw) [
    | none ↦ none
    | some ds ↦ parse_uint64 ds
  ]

  unfoldable pub parse_io_accelerator : Bytes → Option IoAccelStats
  unfolding find_submatch in_use_memory
  parse_io_accelerator raw = elim (find_submatch device_util raw) [
    | none ↦ none
    | some ds ↦ elim (parse_float ds) [
      | none ↦ none
      | some util ↦
          some (record { utilization_percent = util; in_use_memory_bytes = in_use_memory raw })
    ]
  ]

  pub record AppleSampler : Type 0 where
    pub utilization : Option F
    pub vram_used : Option F
    pub vram_total : Option F
    pub total : F
    pub healthy : Bool
    pub polled : Bool

  unfoldable pub mark_unhealthy : AppleSampler → AppleSampler × List Level
  mark_unhealthy s = (
    record s { utilization = none; vram_used = none; healthy = false; polled = true },
    (if s.healthy || not s.polled then warn ∷ [] else debug ∷ []),
  )

  abbrev pub used_of : Option ℕ → Option F
  used_of none = none
  used_of (some n) = some (of_uint64 n)

  unfoldable pub record_stats : IoAccelStats → AppleSampler → AppleSampler × List Level
  record_stats stats s = (
    record s {
      utilization = some stats.utilization_percent;
      vram_used = used_of stats.in_use_memory_bytes;
      vram_total = if is_pos s.total then some s.total else s.vram_total;
      healthy = true;
      polled = true;
    },
    (if s.healthy then [] else info ∷ []),
  )

  -- A poll whose output had these statistics, or none.
  unfoldable pub poll_stats : Option IoAccelStats → AppleSampler → AppleSampler × List Level × Bool
  unfolding mark_unhealthy record_stats
  poll_stats none s = let (t, logs) = mark_unhealthy s in (t, logs, false)
  poll_stats (some stats) s = let (t, logs) = record_stats stats s in (t, logs, true)

  -- One poll of a read that failed, or gave an output; its result is whether statistics were found.
  unfoldable pub poll : Option Bytes → AppleSampler → AppleSampler × List Level × Bool
  unfolding mark_unhealthy
  poll none s = let (t, logs) = mark_unhealthy s in (t, logs, false)
  poll (some out) s = poll_stats (parse_io_accelerator out) s

  -- The loop of `run`: a poll at once and one on each tick.
  unfoldable pub run : List (Option Bytes) → AppleSampler → AppleSampler × List Level
  run [] s = (s, [])
  run (out ∷ outs) s =
      let (t, logs, done) = poll out s in let (u, more) = run outs t in (u, logs ++ more)
