-- ===== src/Gpu/Amd/Discover.antt =====
-- internal/gpu/amdgpu.go: the devices that a scan of sysfs finds.
use ollama_exporter.Base.{
  ltb, if◌then◌else◌, two64, ℤ, Bytes, codes, equal, ◌-◌, not, Option, none, some, List, [], ◌∷◌,
  ◌++◌,
}
use ollama_exporter.Go.Strings.{after_last}
use ollama_exporter.Go.Strconv.{natural}
use ollama_exporter.Gpu.Float.{Float}
use ollama_exporter.Gpu.Amd.{Device, join, is_card_dir, parse_card_index, read_trimmed}

-- `show` is `%d`, and `glob` gives the matches of a pattern, or none on an error.
module _ (fl : Float) (show : ℤ → Bytes) (read_file : Bytes → Option Bytes)
    (glob : Bytes → Option (List Bytes)) where
  open fl use {F, of_uint64}

  unfoldable pub resolve_hwmon : Bytes → Bytes
  resolve_hwmon dev_path = elim (glob (join (join dev_path (codes "hwmon")) (codes "hwmon*"))) [
    | none ↦ []
    | some ms ↦ elim ms [ [] ↦ [] | m ∷ rest ↦ m ]
  ]

  unfoldable pub device_name : ℤ → Option Bytes → Bytes
  device_name idx none = codes "amdgpu_card" ++ show idx
  device_name idx (some []) = codes "amdgpu_card" ++ show idx
  device_name idx (some (c ∷ cs)) = c ∷ cs

  -- The value of strconv.ParseUint is used where it gives an error, too: the largest number where
  -- the text is out of range, and 0 else.
  unfoldable pub vram_of : Option Bytes → F
  vram_of none = of_uint64 0
  vram_of (some s) = elim (natural s) [
    | none ↦ of_uint64 0
    | some n ↦ of_uint64 (if ltb n two64 then n else two64 - 1)
  ]

  unfoldable pub make_device : Bytes → ℤ → Device fl
  unfolding resolve_hwmon device_name vram_of
  make_device dev_path idx = record {
    index = idx;
    name = device_name idx (read_trimmed read_file (join dev_path (codes "product_name")));
    sysfs_path = dev_path;
    hwmon_path = resolve_hwmon dev_path;
    vram_total = vram_of (read_trimmed read_file (join dev_path (codes "mem_info_vram_total")));
  }

  -- `filepath.Base` of an entry.
  unfoldable pub base_of : Bytes → Bytes
  base_of entry = elim (after_last b'/' entry) [ none ↦ entry | some b ↦ b ]

  -- An entry that is a card with the vendor of AMD.
  unfoldable pub with_index : Bytes → Option ℤ → Option (Device fl)
  with_index entry none = none
  with_index entry (some idx) = some (make_device (join entry (codes "device")) idx)

  unfoldable pub with_vendor : Bytes → Option Bytes → Option (Device fl)
  with_vendor entry none = none
  with_vendor entry (some vendor) =
      if equal vendor (codes "0x1002")
      then with_index entry (parse_card_index (base_of entry))
      else none

  unfoldable pub discover_entry : Bytes → Option (Device fl)
  discover_entry entry =
      if not (is_card_dir (base_of entry))
      then none
      else with_vendor entry
          (read_trimmed read_file (join (join entry (codes "device")) (codes "vendor")))

  unfoldable pub add_device : Option (Device fl) → List (Device fl) → List (Device fl)
  add_device none ds = ds
  add_device (some d) ds = d ∷ ds

  unfoldable pub discover_entries : List Bytes → List (Device fl)
  unfolding add_device
  discover_entries [] = []
  discover_entries (e ∷ es) = add_device (discover_entry e) (discover_entries es)

  -- `none` is the error of the glob.
  unfoldable pub discover_devices : Bytes → Option (List (Device fl))
  discover_devices sysfs_base = elim (glob (join sysfs_base (codes "card*"))) [
    | none ↦ none
    | some entries ↦ some (discover_entries entries)
  ]
