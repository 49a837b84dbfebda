-- ===== src/Collector/Poller/Lifecycle.antt =====
-- The counters of loads and unloads against the set of loaded models.
use ollama_exporter.Base.{
  if◌then◌else◌, All, Bytes, equal, equal_iff, ◌+◌, ◌≡◌, refl, subst, Bool, true, not, ◌&&◌, ◌||◌,
  Option, none, some, List, [], ◌∷◌, ◌++◌, arith,
}
use ollama_exporter.Collector.ModelCache.{ModelInfo, Cache, Details, get}
use ollama_exporter.Collector.Poller.Counts.{
  loads, load_signals, unloads, unload_signals, gains-append, IsDistinct, names, bit, mem-add_name,
  add_name-IsDistinct,
}
use ollama_exporter.Collector.Poller.{
  Poller, RunningModel, PollEvent, Answers, mem, add_name, listed, running_events, scan_running,
  unload_events, scan_unloads, reconcile, take_inventory, scrape,
}

running_gains :
    (n : Bytes) (prev : List Bytes) (initialized : Bool) (m : RunningModel) (info : ModelInfo)
    → let es = running_events prev initialized m info in
      (loads n es ≡ bit (equal m.name n && not (mem m.name prev)))
      × (load_signals n es ≡ (if initialized then loads n es else 0))
      × (unloads n es ≡ 0)
      × (unload_signals n es ≡ 0)
unfolding running_events loads load_signals unloads unload_signals
running_gains n prev initialized m info = ground arith

scan_running_gains :
    (show : Bytes → Option Details) (n : Bytes) (prev : List Bytes) (initialized : Bool)
    (ms : List RunningModel) (current : List Bytes) (cache : Cache)
    → let (last, c, es) = scan_running show prev initialized ms current cache in
      (load_signals n es ≡ (if initialized then loads n es else 0))
      × (unloads n es ≡ 0)
      × (unload_signals n es ≡ 0)
unfolding scan_running loads load_signals unloads unload_signals
scan_running_gains show n prev initialized [] current cache = ground arith
scan_running_gains show n prev initialized (m ∷ ms) current cache =
    let (info, cache') = get show m.name cache in
    let es = running_events prev initialized m info in
    let later = (scan_running show prev initialized ms (add_name m.name current) cache').2 in
    ground (
      arith,
      running_gains n prev initialized m info,
      gains-append n es later,
      scan_running_gains show n prev initialized ms (add_name m.name current) cache',
    )

-- Which names are current behind the loop, and how often each is counted as loaded.
loads-scan_running :
    (show : Bytes → Option Details) (n : Bytes) (prev : List Bytes) (initialized : Bool)
    (ms : List RunningModel) (current : List Bytes) (cache : Cache)
    → IsDistinct (names ms)
    → let (last, c, es) = scan_running show prev initialized ms current cache in
      (mem n last ≡ (mem n current || mem n (names ms)))
      × (loads n es ≡ bit (mem n (names ms) && not (mem n prev)))
unfolding scan_running loads mem
loads-scan_running show n prev initialized [] current cache d = ground arith
loads-scan_running show n prev initialized (m ∷ ms) current cache (p, d) =
    let (info, cache') = get show m.name cache in
    let es = running_events prev initialized m info in
    let later = (scan_running show prev initialized ms (add_name m.name current) cache').2 in
    ground (
      arith,
      equal_iff m.name n,
      running_gains n prev initialized m info,
      gains-append n es later,
      mem-add_name n m.name current,
      loads-scan_running show n prev initialized ms (add_name m.name current) cache' d,
    )

scan_running-IsDistinct :
    (show : Bytes → Option Details) (prev : List Bytes) (initialized : Bool)
    (ms : List RunningModel) (current : List Bytes) (cache : Cache)
    → IsDistinct current
    → IsDistinct (scan_running show prev initialized ms current cache).0
unfolding scan_running
scan_running-IsDistinct show prev initialized [] current cache d = d
scan_running-IsDistinct show prev initialized (m ∷ ms) current cache d =
    scan_running-IsDistinct show prev initialized ms (add_name m.name current)
      (get show m.name cache).1 (add_name-IsDistinct m.name current d)

unload_gains :
    (n m : Bytes) (info : ModelInfo)
    → let es = unload_events m info in
      (loads n es ≡ 0)
      × (load_signals n es ≡ 0)
      × (unloads n es ≡ bit (equal m n))
      × (unload_signals n es ≡ bit (equal m n))
unfolding unload_events loads load_signals unloads unload_signals
unload_gains n m info = ground arith

scan_unloads_gains :
    (show : Bytes → Option Details) (n : Bytes) (current prev : List Bytes) (cache : Cache)
    → let es = (scan_unloads show current prev cache).1 in
      (loads n es ≡ 0) × (load_signals n es ≡ 0) × (unload_signals n es ≡ unloads n es)
unfolding scan_unloads loads load_signals unloads unload_signals
scan_unloads_gains show n current [] cache = ground arith
scan_unloads_gains show n current (m ∷ prev) cache =
    let (info, cache') = get show m cache in
    ground (
      arith,
      unload_gains n m info,
      gains-append n (unload_events m info) (scan_unloads show current prev cache').1,
      scan_unloads_gains show n current prev cache,
      scan_unloads_gains show n current prev cache',
    )

unloads-scan_unloads :
    (show : Bytes → Option Details) (n : Bytes) (current prev : List Bytes) (cache : Cache)
    → IsDistinct prev
    → unloads n (scan_unloads show current prev cache).1 ≡ bit (mem n prev && not (mem n current))
unfolding scan_unloads unloads mem
unloads-scan_unloads show n current [] cache d = ground arith
unloads-scan_unloads show n current (m ∷ prev) cache (p, d) =
    let (info, cache') = get show m cache in
    ground (
      arith,
      equal_iff m n,
      unload_gains n m info,
      gains-append n (unload_events m info) (scan_unloads show current prev cache').1,
      unloads-scan_unloads show n current prev cache d,
      unloads-scan_unloads show n current prev cache' d,
    )

reconcile_gains :
    (n : Bytes) (tags : Option (Option (List Bytes))) (running : Option (List RunningModel))
    (current : List Bytes) (cache : Cache)
    → let es = (reconcile tags running current cache).1 in
      (loads n es ≡ 0) × (load_signals n es ≡ 0) × (unloads n es ≡ 0) × (unload_signals n es ≡ 0)
unfolding reconcile loads load_signals unloads unload_signals
reconcile_gains n (some (some tags)) (some running) current cache = ground arith
reconcile_gains n none running current cache = ground arith
reconcile_gains n (some none) running current cache = ground arith
reconcile_gains n (some (some tags)) none current cache = ground arith

-- The server lists each running model once.
abbrev pub ListsOnce : Option (Option (List RunningModel)) → Type 0
ListsOnce none = Unit
ListsOnce (some running) = IsDistinct (names (listed running))

module _ (a : Answers) (n : Bytes) where
  take_inventory_lem :
      (running : Option (List RunningModel)) (p : Poller)
      → let (current, c1, es1) =
          scan_running a.show p.prev_loaded p.initialized (listed running) [] p.cache in
        let (c2, es2) = scan_unloads a.show current p.prev_loaded c1 in
        let (c3, es3) = reconcile a.tags running current c2 in
        ((take_inventory a running p).1 ≡ es1 ++ (es2 ++ es3))
        × ((take_inventory a running p).0.prev_loaded ≡ current)
        × ((take_inventory a running p).0.initialized ≡ true)
  unfolding take_inventory
  take_inventory_lem running p = (refl, refl, refl)

  take_inventory_gains :
      (running : Option (List RunningModel)) (p : Poller)
      → let (q, es) = take_inventory a running p in
        (load_signals n es ≡ (if p.initialized then loads n es else 0))
        × (unload_signals n es ≡ unloads n es)
        × (q.initialized ≡ true)
  take_inventory_gains running p =
      let (current, c1, es1) =
        scan_running a.show p.prev_loaded p.initialized (listed running) [] p.cache in
      let (c2, es2) = scan_unloads a.show current p.prev_loaded c1 in
      let (c3, es3) = reconcile a.tags running current c2 in
      ground (
        arith,
        take_inventory_lem running p,
        scan_running_gains a.show n p.prev_loaded p.initialized (listed running) [] p.cache,
        scan_unloads_gains a.show n current p.prev_loaded c1,
        reconcile_gains n a.tags running current c2,
        gains-append n es1 (es2 ++ es3),
        gains-append n es2 es3,
      )

  take_inventory_balance :
      (running : Option (List RunningModel)) (p : Poller)
      → IsDistinct (names (listed running))
      → IsDistinct p.prev_loaded
      → let (q, es) = take_inventory a running p in
        (loads n es + bit (mem n p.prev_loaded) ≡ unloads n es + bit (mem n q.prev_loaded))
        × (mem n q.prev_loaded ≡ mem n (names (listed running)))
        × IsDistinct q.prev_loaded
  unfolding mem
  take_inventory_balance running p d e =
      let (current, c1, es1) =
        scan_running a.show p.prev_loaded p.initialized (listed running) [] p.cache in
      let (c2, es2) = scan_unloads a.show current p.prev_loaded c1 in
      let (c3, es3) = reconcile a.tags running current c2 in
      ground (
        arith,
        take_inventory_lem running p,
        scan_running_gains a.show n p.prev_loaded p.initialized (listed running) [] p.cache,
        loads-scan_running a.show n p.prev_loaded p.initialized (listed running) [] p.cache d,
        scan_running-IsDistinct a.show p.prev_loaded p.initialized (listed running) [] p.cache tt,
        scan_unloads_gains a.show n current p.prev_loaded c1,
        unloads-scan_unloads a.show n current p.prev_loaded c1 e,
        reconcile_gains n a.tags running current c2,
        gains-append n es1 (es2 ++ es3),
        gains-append n es2 es3,
      )

  -- In every scrape a load is signalled as an event exactly where it is counted, but in no scrape
  -- before the first successful one has ended; an unload is signalled exactly where it is counted.
  pub scrape_signals :
      (p : Poller)
      → let (q, es) = scrape a p in
        (load_signals n es ≡ (if p.initialized then loads n es else 0))
        × (unload_signals n es ≡ unloads n es)
  unfolding scrape loads load_signals unloads unload_signals
  scrape_signals p = signals a.ps refl
    where
      signals :
          (ps : Option (Option (List RunningModel)))
          → a.ps ≡ ps
          → (load_signals n (scrape a p).1 ≡ (if p.initialized then loads n (scrape a p).1 else 0))
            × (unload_signals n (scrape a p).1 ≡ unloads n (scrape a p).1)
      signals none e = ground arith
      signals (some running) e = ground (arith, take_inventory_gains running p)

  scrape_balance :
      (p : Poller)
      → ListsOnce a.ps
      → IsDistinct p.prev_loaded
      → let (q, es) = scrape a p in
        (loads n es + bit (mem n p.prev_loaded) ≡ unloads n es + bit (mem n q.prev_loaded))
        × IsDistinct q.prev_loaded
  unfolding scrape loads unloads
  scrape_balance p d e = balance a.ps refl
    where
      balance :
          (ps : Option (Option (List RunningModel)))
          → a.ps ≡ ps
          → (loads n (scrape a p).1 + bit (mem n p.prev_loaded)
              ≡ unloads n (scrape a p).1 + bit (mem n (scrape a p).0.prev_loaded))
            × IsDistinct (scrape a p).0.prev_loaded
      balance none q = ground arith
      balance (some running) q =
          let once : IsDistinct (names (listed running)) = subst ListsOnce q d in
          ground (arith, take_inventory_balance running p once e)

unfoldable pub scrapes : List Answers → Poller → Poller × List PollEvent
scrapes [] p = (p, [])
scrapes (a ∷ as') p = let (q, es) = scrape a p in let (r, later) = scrapes as' q in (r, es ++ later)

-- Through any scrapes, failed ones among them, in which the server lists each running model once,
-- from a state that has each loaded model once, a model's loads and unloads balance: those counted
-- as loads, and one if it was loaded before, are as many as those counted as unloads, and one if
-- it is loaded now.
pub scrapes_balance :
    (answers : List Answers) (n : Bytes) (p : Poller)
    → All (λ a. ListsOnce a.ps) answers
    → IsDistinct p.prev_loaded
    → let (q, es) = scrapes answers p in
      loads n es + bit (mem n p.prev_loaded) ≡ unloads n es + bit (mem n q.prev_loaded)
unfolding scrapes loads unloads
scrapes_balance [] n p l d = refl
scrapes_balance (a ∷ rest) n p (l, ls) d =
    let s = scrape_balance a n p l d in
    omega (
      arith,
      s,
      gains-append n (scrape a p).1 (scrapes rest (scrape a p).0).1,
      scrapes_balance rest n (scrape a p).0 ls s.1,
    )
