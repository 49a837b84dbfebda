-- ===== src/Tests/Gpus.antt =====
-- internal/gpu at concrete files and outputs. Numbers stand for float64.
use ollama_exporter.Base.{
  All, ltb, ◌/◌, ℤ, pos, Bytes, codes, equal, ℕ, ◌≡◌, refl, arith, if◌then◌else◌, false, Option,
  none, some, List, [], ◌∷◌, ◌++◌,
}
use ollama_exporter.Go.Strings.{after_last, trim_space}
use ollama_exporter.Go.Strconv.{parse_uint64, atoi}
use ollama_exporter.Gpu.Float.{Float}
use ollama_exporter.Gpu.Apple.{AppleSampler, device_util, run}
use ollama_exporter.Gpu.Apple.Sampler.{warnings, spells, was_failing, warnings-run}
use ollama_exporter.Gpu.Amd.{Device, is_card_dir, read_trimmed, parse_card_index, parse_dpm_content}
use ollama_exporter.Gpu.Amd.Clocks.{table, IsState, parse_dpm_content-active}
use ollama_exporter.Gpu.Amd.Discover.{
  discover_devices, discover_entries, discover_entry, base_of, with_vendor, with_index, make_device,
}

abbrev numbers : Float
numbers = record {
  F = ℕ;
  zero_value = 0;
  of_uint64 = λ n. n;
  quotient = λ v k. v / k;
  is_pos = λ v. ltb 0 v;
  parse_float = parse_uint64;
}

-- Two failures, a reading and another failure.
abbrev outputs : List (Option Bytes)
outputs = none ∷ some (codes "?") ∷ some (device_util ++ codes " = 7") ∷ none ∷ []

abbrev sampler : AppleSampler numbers
sampler = record {
  utilization = none;
  vram_used = none;
  vram_total = none;
  total = 16;
  healthy = false;
  polled = false;
}

warnings-run_example :
    warnings numbers (run numbers outputs sampler).1
    ≡ spells numbers (was_failing numbers sampler) outputs
warnings-run_example = warnings-run numbers outputs sampler

-- One card of AMD and one of another vendor.
abbrev read_file : Bytes → Option Bytes
read_file path =
    if equal path (codes "/s/card0/device/vendor")
    then some ((codes "0x1002" ++ 10 ∷ []))
    else if equal path (codes "/s/card1/device/vendor")
    then some (codes "0x10de")
    else none

abbrev glob : Bytes → Option (List Bytes)
glob pattern =
    if equal pattern (codes "/s/card*")
    then some (codes "/s/card0" ∷ codes "/s/card1" ∷ codes "/s/card0-DP-1" ∷ [])
    else some []

abbrev show : ℤ → Bytes
show idx = codes "0"

-- The device that they give.
abbrev card : Device numbers
card = make_device numbers show read_file glob (codes "/s/card0/device") (pos 0)

scan_finds : discover_devices numbers show read_file glob (codes "/s") ≡ some (card ∷ [])
unfolding discover_devices equal discover_entries discover_entry is_card_dir base_of after_last
    with_vendor read_trimmed trim_space with_index parse_card_index atoi
scan_finds = refl

abbrev before : List (Bytes × Bytes)
before = (codes "0", codes "300") ∷ (codes "1", codes "600") ∷ []

abbrev active : Bytes × Bytes
active = (codes "2", codes "2400")

states : All IsState before
states = ground arith

parse_dpm_content-active_example :
    parse_dpm_content (table before active (codes "3: 2500Mhz")) ≡ atoi (codes "2400")
parse_dpm_content-active_example =
    parse_dpm_content-active before active (codes "3: 2500Mhz") states
      ((refl, tt), (refl, (refl, (refl, (refl, tt)))))
