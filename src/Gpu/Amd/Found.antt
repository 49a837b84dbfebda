-- ===== src/Gpu/Amd/Found.antt =====
-- What holds of every device that a scan finds.
use ollama_exporter.Base.{
  Bool-cases, Option-cases, drop, All, ℤ, pos, negsuc, Bytes, codes, equal, equal_iff, ℕ, ◌≡◌, refl,
  sym, ap, ◌∙◌, subst, ◌≢◌, inl, inr, true, false, Option, none, some, List, [], ◌∷◌, arith,
}
use ollama_exporter.Go.Strconv.{atoi}
use ollama_exporter.Gpu.Float.{Float}
use ollama_exporter.Gpu.Amd.{Device, join, is_card_dir, all_digits, parse_card_index, read_trimmed}
use ollama_exporter.Gpu.Amd.Discover.{
  device_name, make_device, base_of, with_index, with_vendor, discover_entry, add_device,
  discover_entries, discover_devices,
}

-- Digits alone are no negative number.
atoi-digits : (s : Bytes) {a : ℤ} → all_digits s ≡ true → atoi s ≡ some a → (n : ℕ) × (a ≡ pos n)
atoi-digits s {a = pos n} h e = (n, refl)
atoi-digits [] {a = negsuc n} h e = unfold atoi in cc
atoi-digits (c ∷ cs) {a = negsuc n} h e = absurd (unfold atoi all_digits in ground arith)

is_card_dir-digits : (name : Bytes) → is_card_dir name ≡ true → all_digits (drop 4 name) ≡ true
unfolding is_card_dir
is_card_dir-digits name h = ground arith

module _ (fl : Float) (show : ℤ → Bytes) (read_file : Bytes → Option Bytes)
    (glob : Bytes → Option (List Bytes)) where
  -- A card of AMD by its vendor file, with a number and a name.
  pub record IsAmdDevice (d : Device fl) : Type 0 where
    pub vendor : read_trimmed read_file (join d.sysfs_path (codes "vendor")) ≡ some (codes "0x1002")
    pub index : (n : ℕ) × (d.index ≡ pos n)
    pub named : d.name ≢ []

  device_name-ne-nil : (idx : ℤ) (o : Option Bytes) → device_name fl show read_file glob idx o ≢ []
  unfolding device_name
  device_name-ne-nil idx none e = cc e
  device_name-ne-nil idx (some []) e = cc e
  device_name-ne-nil idx (some (c ∷ cs)) e = cc e

  abbrev pub Every : Option (Device fl) → Type 0
  Every none = Unit
  Every (some d) = IsAmdDevice d

  with_index-Every :
      (entry : Bytes) (o : Option ℤ)
      → read_trimmed read_file (join (join entry (codes "device")) (codes "vendor"))
        ≡ some (codes "0x1002")
      → ((a : ℤ) → o ≡ some a → (n : ℕ) × (a ≡ pos n))
      → Every (with_index fl show read_file glob entry o)
  unfolding with_index
  with_index-Every entry none v p = tt
  with_index-Every entry (some idx) v p = record {
    vendor = unfold make_device in v;
    index = unfold make_device in p idx refl;
    named = unfold make_device in device_name-ne-nil idx _;
  }

  abbrev vendor_of : Bytes → Option Bytes
  vendor_of entry = read_trimmed read_file (join (join entry (codes "device")) (codes "vendor"))

  with_vendor-Every :
      (entry : Bytes) (o : Option Bytes)
      → read_trimmed read_file (join (join entry (codes "device")) (codes "vendor")) ≡ o
      → is_card_dir (base_of fl show read_file glob entry) ≡ true
      → Every (with_vendor fl show read_file glob entry o)
  with_vendor-Every entry none e c = unfold with_vendor in tt
  with_vendor-Every entry (some v) e c = elim (Bool-cases (equal v (codes "0x1002"))) [
    | inr n ↦ subst Every (sym (refused n)) tt
    | inl y ↦ subst Every (sym (taken y)) (
        with_index-Every entry (parse_card_index (base_of fl show read_file glob entry))
          (e ∙ ap (λ (w : Bytes). some w) ((equal_iff v (codes "0x1002")).0 y))
          (λ a q.
            atoi-digits (drop 4 (base_of fl show read_file glob entry))
              (is_card_dir-digits (base_of fl show read_file glob entry) c)
              (unfold parse_card_index in q)))
  ]
    where
      refused :
          equal v (codes "0x1002") ≡ false
          → with_vendor fl show read_file glob entry (some v) ≡ none
      refused n = unfold with_vendor in rw n

      taken :
          equal v (codes "0x1002") ≡ true
          → with_vendor fl show read_file glob entry (some v)
            ≡ with_index fl show read_file glob entry
                (parse_card_index (base_of fl show read_file glob entry))
      taken y = unfold with_vendor in rw y

  discover_entry-Every : (entry : Bytes) → Every (discover_entry fl show read_file glob entry)
  discover_entry-Every entry =
      elim (Bool-cases (is_card_dir (base_of fl show read_file glob entry))) [
        | inr n ↦ subst Every (sym (refused n)) tt
        | inl y ↦ subst Every (sym (taken y)) (with_vendor-Every entry (vendor_of entry) refl y)
      ]
    where
      refused :
          is_card_dir (base_of fl show read_file glob entry) ≡ false
          → discover_entry fl show read_file glob entry ≡ none
      refused n = unfold discover_entry in rw n

      taken :
          is_card_dir (base_of fl show read_file glob entry) ≡ true
          → discover_entry fl show read_file glob entry
            ≡ with_vendor fl show read_file glob entry (vendor_of entry)
      taken y = unfold discover_entry in rw y

  add_device-All :
      (o : Option (Device fl)) (ds : List (Device fl))
      → Every o
      → All IsAmdDevice ds
      → All IsAmdDevice (add_device fl show read_file glob o ds)
  unfolding add_device
  add_device-All none ds h k = k
  add_device-All (some d) ds h k = (h, k)

  discover_entries-All :
      (es : List Bytes) → All IsAmdDevice (discover_entries fl show read_file glob es)
  unfolding discover_entries
  discover_entries-All [] = tt
  discover_entries-All (e ∷ es) =
      add_device-All (discover_entry fl show read_file glob e)
        (discover_entries fl show read_file glob es) (discover_entry-Every e)
        (discover_entries-All es)

  -- Every device of a scan is a card whose vendor file reads 0x1002, and has a number that is not
  -- negative and a name that is not empty, whatever the files say.
  pub discover_devices-All :
      (sysfs_base : Bytes) {ds : List (Device fl)}
      → discover_devices fl show read_file glob sysfs_base ≡ some ds
      → All IsAmdDevice ds
  discover_devices-All sysfs_base {ds} h =
      elim (Option-cases (glob (join sysfs_base (codes "card*")))) [
        | inl n ↦ absurd (unfold discover_devices in ground arith)
        | inr (es, e) ↦ subst (All IsAmdDevice) (found es e) (discover_entries-All es)
      ]
    where
      found :
          (es : List Bytes)
          → glob (join sysfs_base (codes "card*")) ≡ some es
          → discover_entries fl show read_file glob es ≡ ds
      found es e = unfold discover_devices in ground arith
