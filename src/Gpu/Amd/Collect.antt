-- ===== src/Gpu/Amd/Collect.antt =====
-- internal/gpu/amdgpu.go: one poll of the devices' metrics, as the values that it sets.
use ollama_exporter.Base.{
  if◌then◌else◌, ℤ, Bytes, codes, equal, ℕ, Option, none, some, List, [], ◌∷◌, ◌++◌,
}
use ollama_exporter.Gpu.Float.{Float}
use ollama_exporter.Gpu.Amd.{Device, join, read_uint64_file, parse_dpm_file}

-- `WithLabelValues(...).Set(v)` on each of the gauges; the clock has a type.
pub data Gauge : Type 0 where
  utilization temperature vram_used vram_total power : Gauge
  clock : Bytes → Gauge

-- `show` is `strconv.Itoa`, and `of_int` the conversion of an int.
module _ (fl : Float) (show : ℤ → Bytes) (read_file : Bytes → Option Bytes)
    (of_int : ℤ → fl.F) where
  open fl use {F, of_uint64, quotient, is_pos}

  pub record GaugeSet : Type 0 where
    pub gauge : Gauge
    pub gpu : Bytes
    pub name : Bytes
    pub value : F

  -- A value that can be read is set.
  abbrev set_if : Gauge → Device fl → Option F → List GaugeSet
  set_if g d none = []
  set_if g d (some v) = record { gauge = g; gpu = show d.index; name = d.name; value = v } ∷ []

  abbrev scaled_of : Option ℕ → ℕ → Option F
  scaled_of none k = none
  scaled_of (some v) k = some (quotient (of_uint64 v) k)

  abbrev float_of : Option ℕ → Option F
  float_of none = none
  float_of (some v) = some (of_uint64 v)

  unfoldable pub collect_utilization : Device fl → List GaugeSet
  unfolding read_uint64_file
  collect_utilization d =
      set_if utilization d
        (float_of (read_uint64_file read_file (join d.sysfs_path (codes "gpu_busy_percent"))))

  unfoldable pub collect_temperature : Device fl → List GaugeSet
  unfolding read_uint64_file
  collect_temperature d =
      if equal d.hwmon_path []
      then []
      else set_if temperature d
          (scaled_of (read_uint64_file read_file (join d.hwmon_path (codes "temp1_input"))) 1000)

  unfoldable pub collect_vram_used : Device fl → List GaugeSet
  unfolding read_uint64_file
  collect_vram_used d =
      set_if vram_used d
        (float_of (read_uint64_file read_file (join d.sysfs_path (codes "mem_info_vram_used"))))

  unfoldable pub collect_vram_total : Device fl → List GaugeSet
  collect_vram_total d =
      set_if vram_total d (if is_pos d.vram_total then some d.vram_total else none)

  abbrev or_read : Option ℕ → Option ℕ → Option ℕ
  or_read none b = b
  or_read (some v) b = some v

  unfoldable pub collect_power : Device fl → List GaugeSet
  unfolding read_uint64_file
  collect_power d =
      if equal d.hwmon_path []
      then []
      else set_if power d (
          scaled_of
            (or_read (read_uint64_file read_file (join d.hwmon_path (codes "power1_average")))
              (read_uint64_file read_file (join d.hwmon_path (codes "power1_input"))))
            1000000)

  abbrev clock_of : Option ℤ → Option F
  clock_of none = none
  clock_of (some mhz) = some (of_int mhz)

  unfoldable pub collect_clocks : Device fl → List GaugeSet
  collect_clocks d =
      set_if (clock (codes "gpu")) d
        (clock_of (parse_dpm_file read_file (join d.sysfs_path (codes "pp_dpm_sclk"))))
      ++ set_if (clock (codes "memory")) d
          (clock_of (parse_dpm_file read_file (join d.sysfs_path (codes "pp_dpm_mclk"))))

  unfoldable pub collect_device : Device fl → List GaugeSet
  unfolding collect_utilization collect_temperature collect_vram_used collect_vram_total
      collect_power collect_clocks
  collect_device d =
      collect_utilization d
      ++ collect_temperature d
      ++ collect_vram_used d
      ++ collect_vram_total d
      ++ collect_power d
      ++ collect_clocks d

  unfoldable pub collect : List (Device fl) → List GaugeSet
  unfolding collect_device
  collect [] = []
  collect (d ∷ ds) = collect_device d ++ collect ds
