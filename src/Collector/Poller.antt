-- ===== src/Collector/Poller.antt =====
-- internal/collector/poller.go: one scrape of the inventories. What the Ollama client returns is an
-- argument; the updates of metrics come back as a list. A map of names to true is a list of names
-- without repetition, in the order in which a range over it goes.
pub mod Counts
pub mod Lifecycle
pub mod Gauges
use ollama_exporter.Base.{
  if◌then◌else◌, ℤ, pos, Bytes, equal, Bool, true, false, not, ◌||◌, Option, none, some, List, [],
  ◌∷◌, ◌++◌,
}
use ollama_exporter.Collector.ModelCache.{ModelInfo, Cache, Details, get, prune}

pub record Poller : Type 0 where
  pub cache : Cache
  pub prev_loaded : List Bytes
  pub initialized : Bool

pub record RunningModel : Type 0 where
  pub name : Bytes
  pub size_vram : ℤ

pub data PollEvent : Type 0 where
  set_up : Bool → PollEvent
  set_loaded : Bytes → ModelInfo → Bool → PollEvent
  set_vram : Bytes → ModelInfo → ℤ → PollEvent
  load_total : Bytes → ModelInfo → PollEvent
  load_event : Bytes → PollEvent
  unload_total : Bytes → ModelInfo → PollEvent
  unload_event : Bytes → PollEvent
  -- `pruneModelGauge` of the five gauges.
  prune_gauges : List Bytes → PollEvent

-- The answers of the server during a scrape: an error is `none`, a nil slice of models `some none`.
pub record Answers : Type 0 where
  pub healthy : Bool
  pub ps : Option (Option (List RunningModel))
  pub tags : Option (Option (List Bytes))
  pub show : Bytes → Option Details

unfoldable pub mem : Bytes → List Bytes → Bool
mem n [] = false
mem n (m ∷ ms) = equal m n || mem n ms

-- `set[name] = true`
unfoldable pub add_name : Bytes → List Bytes → List Bytes
add_name n ns = if mem n ns then ns else ns ++ n ∷ []

abbrev pub listed {ℓ} : {A : Type ℓ} → Option (List A) → List A
listed none = []
listed (some xs) = xs

-- The events of one running model.
unfoldable pub running_events : List Bytes → Bool → RunningModel → ModelInfo → List PollEvent
running_events prev initialized m info =
    set_loaded m.name info true
    ∷ set_vram m.name info m.size_vram
    ∷ (if mem m.name prev
        then []
        else load_total m.name info ∷ (if initialized then load_event m.name ∷ [] else []))

-- The loop over the running models: `currentLoaded`, the cache and the events.
unfoldable pub scan_running :
    (Bytes → Option Details)
    → List Bytes
    → Bool
    → List RunningModel
    → List Bytes
    → Cache
    → List Bytes × Cache × List PollEvent
scan_running show prev initialized [] current cache = (current, cache, [])
scan_running show prev initialized (m ∷ ms) current cache =
    let (info, cache') = get show m.name cache in
    let (all, last, later) =
      scan_running show prev initialized ms (add_name m.name current) cache' in
    (all, last, running_events prev initialized m info ++ later)

unfoldable pub unload_events : Bytes → ModelInfo → List PollEvent
unload_events name info =
    set_loaded name info false
    ∷ set_vram name info (pos 0)
    ∷ unload_total name info
    ∷ unload_event name
    ∷ []

-- The loop over `prevLoaded`.
unfoldable pub scan_unloads :
    (Bytes → Option Details) → List Bytes → List Bytes → Cache → Cache × List PollEvent
scan_unloads show current [] cache = (cache, [])
scan_unloads show current (name ∷ prev) cache =
    let (info, cache') = get show name cache in
    let (kept, later) = scan_unloads show current prev cache in
    let (last, later') = scan_unloads show current prev cache' in
    if mem name current then (kept, later) else (last, unload_events name info ++ later')

unfoldable pub add_all : List Bytes → List Bytes → List Bytes
add_all [] ns = ns
add_all (m ∷ ms) ns = add_all ms (add_name m ns)

-- `present`
unfoldable pub present_names : List Bytes → List Bytes → List Bytes
present_names tags current = add_all current (add_all tags [])

abbrev pub is_in : List Bytes → Bytes → Bool
is_in ns n = mem n ns

unfoldable pub reconcile :
    Option (Option (List Bytes))
    → Option (List RunningModel)
    → List Bytes
    → Cache
    → Cache × List PollEvent
reconcile (some (some tags)) (some running) current cache =
    let present = present_names tags current in
    (prune (is_in present) cache, prune_gauges present ∷ [])
reconcile _ _ current cache = (cache, [])

-- Below the lock.
unfoldable pub take_inventory :
    Answers → Option (List RunningModel) → Poller → Poller × List PollEvent
take_inventory a running p =
    let (current, c1, es1) =
      scan_running a.show p.prev_loaded p.initialized (listed running) [] p.cache in
    let (c2, es2) = scan_unloads a.show current p.prev_loaded c1 in
    let (c3, es3) = reconcile a.tags running current c2 in
    (record { cache = c3; prev_loaded = current; initialized = true }, es1 ++ (es2 ++ es3))

unfoldable pub scrape : Answers → Poller → Poller × List PollEvent
scrape a p = if not a.healthy then (p, set_up false ∷ []) else elim a.ps [
  | none ↦ (p, set_up true ∷ [])
  | some running ↦ let (p', events) = take_inventory a running p in (p', set_up true ∷ events)
]

unfoldable pub new_poller : Poller
new_poller = record { cache = []; prev_loaded = []; initialized = false }
