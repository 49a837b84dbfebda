-- ===== src/Collector/Poller/Counts.antt =====
-- How often the counters of a model go up, and lists of names without repetition.
use ollama_exporter.Base.{
  if◌then◌else◌, Bool-cases, Bytes, equal, equal_iff, equal_comm, ℕ, ◌+◌, ◌≡◌, refl, inl, inr, Bool,
  false, ◌||◌, List, [], ◌∷◌, ◌++◌, arith,
}
use ollama_exporter.Collector.Poller.{
  RunningModel, PollEvent, set_up, set_loaded, set_vram, load_total, load_event, unload_total,
  unload_event, prune_gauges, mem, add_name,
}

-- How often a model's counters go up: `model_load_total`, `model_load_events_total` and their like.
unfoldable pub loads : Bytes → List PollEvent → ℕ
loads n [] = 0
loads n (load_total m info ∷ es) = (if equal m n then 1 else 0) + loads n es
loads n (_ ∷ es) = loads n es

unfoldable pub load_signals : Bytes → List PollEvent → ℕ
load_signals n [] = 0
load_signals n (load_event m ∷ es) = (if equal m n then 1 else 0) + load_signals n es
load_signals n (_ ∷ es) = load_signals n es

unfoldable pub unloads : Bytes → List PollEvent → ℕ
unloads n [] = 0
unloads n (unload_total m info ∷ es) = (if equal m n then 1 else 0) + unloads n es
unloads n (_ ∷ es) = unloads n es

unfoldable pub unload_signals : Bytes → List PollEvent → ℕ
unload_signals n [] = 0
unload_signals n (unload_event m ∷ es) = (if equal m n then 1 else 0) + unload_signals n es
unload_signals n (_ ∷ es) = unload_signals n es

pub gains-append :
    (n : Bytes) (xs ys : List PollEvent)
    → (loads n (xs ++ ys) ≡ loads n xs + loads n ys)
      × (load_signals n (xs ++ ys) ≡ load_signals n xs + load_signals n ys)
      × (unloads n (xs ++ ys) ≡ unloads n xs + unloads n ys)
      × (unload_signals n (xs ++ ys) ≡ unload_signals n xs + unload_signals n ys)
unfolding loads load_signals unloads unload_signals
gains-append n [] ys = omega arith
gains-append n (set_up b ∷ xs) ys = omega (arith, gains-append n xs ys)
gains-append n (set_loaded m i b ∷ xs) ys = omega (arith, gains-append n xs ys)
gains-append n (set_vram m i z ∷ xs) ys = omega (arith, gains-append n xs ys)
gains-append n (load_total m i ∷ xs) ys = omega (arith, gains-append n xs ys)
gains-append n (load_event m ∷ xs) ys = omega (arith, gains-append n xs ys)
gains-append n (unload_total m i ∷ xs) ys = omega (arith, gains-append n xs ys)
gains-append n (unload_event m ∷ xs) ys = omega (arith, gains-append n xs ys)
gains-append n (prune_gauges ms ∷ xs) ys = omega (arith, gains-append n xs ys)

abbrev pub IsDistinct : List Bytes → Type 0
IsDistinct [] = Unit
IsDistinct (n ∷ ns) = (mem n ns ≡ false) × IsDistinct ns

abbrev pub names : List RunningModel → List Bytes
names [] = []
names (m ∷ ms) = m.name ∷ names ms

abbrev pub bit : Bool → ℕ
bit b = if b then 1 else 0

pub mem-append : (n : Bytes) (xs ys : List Bytes) → mem n (xs ++ ys) ≡ (mem n xs || mem n ys)
unfolding mem
mem-append n [] ys = refl
mem-append n (x ∷ xs) ys = ground (arith, mem-append n xs ys)

pub mem-add_name : (n m : Bytes) (ns : List Bytes) → mem n (add_name m ns) ≡ (mem n ns || equal m n)
unfolding add_name mem
mem-add_name n m ns = ground (arith, mem-append n ns (m ∷ []), equal_iff m n)

pub IsDistinct-append :
    (m : Bytes) (ns : List Bytes) → mem m ns ≡ false → IsDistinct ns → IsDistinct (ns ++ m ∷ [])
unfolding mem
IsDistinct-append m [] h d = (refl, tt)
IsDistinct-append m (n ∷ ns) h (p, d) = (
  ground (arith, mem-append n ns (m ∷ []), equal_comm n m),
  IsDistinct-append m ns (ground arith) d,
)

pub add_name-IsDistinct : (m : Bytes) (ns : List Bytes) → IsDistinct ns → IsDistinct (add_name m ns)
unfolding add_name
add_name-IsDistinct m ns d = elim (Bool-cases (mem m ns)) [
  | inl e ↦ rw e d
  | inr e ↦ rw e (IsDistinct-append m ns e d)
]
