-- ===== src/Collector/Poller/Gauges/Kept.antt =====
-- What a gauge has left once it is pruned.
use ollama_exporter.Base.{
  if◌then◌else◌, Bool-cases, All, All-append, Bytes, codes, equal, equal_iff, equal_self, ◌≡◌, refl,
  sym, ap, ◌∙◌, inl, inr, Bool, true, false, not, ◌&&◌, ◌||◌, List, [], ◌∷◌, arith,
}
use ollama_exporter.Collector.Poller.{mem, add_name}
use ollama_exporter.Collector.Poller.Counts.{mem-add_name}
use ollama_exporter.Collector.Poller.Gauges.{
  Labels, Gauge, absent_in, absent_models, has_model, delete_model, delete_models,
  prune_model_gauge,
}

-- Whether every model that a sample names is present.
unfoldable pub all_present : List Bytes → Labels → Bool
all_present present [] = true
all_present present ((k, v) ∷ ls) =
    (not (equal k (codes "model")) || mem v present) && all_present present ls

-- The samples that name no absent model.
unfoldable pub keep_present : List Bytes → Gauge → Gauge
keep_present present [] = []
keep_present present ((ls, v) ∷ g) =
    if all_present present ls then (ls, v) ∷ keep_present present g else keep_present present g

unfoldable pub any_named : List Bytes → Labels → Bool
any_named [] ls = false
any_named (n ∷ ns) ls = has_model n ls || any_named ns ls

unfoldable pub keep_unnamed : List Bytes → Gauge → Gauge
keep_unnamed ns [] = []
keep_unnamed ns ((ls, v) ∷ g) =
    if any_named ns ls then keep_unnamed ns g else (ls, v) ∷ keep_unnamed ns g

pub keep_unnamed-delete :
    (n : Bytes) (ns : List Bytes) (g : Gauge)
    → keep_unnamed ns (delete_model n g) ≡ keep_unnamed (n ∷ ns) g
unfolding keep_unnamed delete_model any_named
keep_unnamed-delete n ns [] = refl
keep_unnamed-delete n ns ((ls, v) ∷ g) = ground (arith, keep_unnamed-delete n ns g)

pub keep_unnamed-nil : (g : Gauge) → keep_unnamed [] g ≡ g
unfolding keep_unnamed any_named
keep_unnamed-nil [] = refl
keep_unnamed-nil ((ls, v) ∷ g) = ap (◌∷◌ (ls, v)) (keep_unnamed-nil g)

pub delete_models_lem : (ns : List Bytes) (g : Gauge) → delete_models ns g ≡ keep_unnamed ns g
unfolding delete_models
delete_models_lem [] g = sym (keep_unnamed-nil g)
delete_models_lem (n ∷ ns) g = delete_models_lem ns (delete_model n g) ∙ keep_unnamed-delete n ns g

pub any_named_of :
    (n : Bytes) (ns : List Bytes) (ls : Labels)
    → mem n ns ≡ true
    → has_model n ls ≡ true
    → any_named ns ls ≡ true
unfolding any_named mem
any_named_of n [] ls h k = cc
any_named_of n (m ∷ ns) ls h k = elim (Bool-cases (equal m n)) [
  | inl e ↦ ground (arith, ap (λ x. has_model x ls) ((equal_iff m n).0 e))
  | inr e ↦ ground (arith, any_named_of n ns ls)
]

pub all_present_not :
    (present : List Bytes) (ls : Labels)
    → all_present present ls ≡ false
    → (n : Bytes) × (has_model n ls ≡ true) × (mem n present ≡ false)
unfolding all_present has_model
all_present_not present [] h = cc
all_present_not present ((k, v) ∷ ls) h =
    elim (Bool-cases (equal k (codes "model") && not (mem v present))) [
      | inl e ↦ (v, ground (arith, equal_self v), ground arith)
      | inr e ↦ let (n, p, q) = all_present_not present ls (ground arith) in (n, ground arith, q)
    ]

pub all_present_model :
    (present : List Bytes) (n : Bytes) (ls : Labels)
    → all_present present ls ≡ true
    → has_model n ls ≡ true
    → mem n present ≡ true
unfolding all_present has_model
all_present_model present n [] h k = cc
all_present_model present n ((j, v) ∷ ls) h k =
    elim (Bool-cases (equal j (codes "model") && equal v n)) [
      | inl e ↦
          let same : v ≡ n = (equal_iff v n).0 (ground arith) in
          ground (arith, ap (λ x. mem x present) same)
      | inr e ↦ all_present_model present n ls (ground arith) (ground arith)
    ]

abbrev pub AreAbsent : List Bytes → List Bytes → Type 0
AreAbsent present = All (λ n. mem n present ≡ false)

pub AreAbsent-named :
    (present ns : List Bytes) (ls : Labels)
    → AreAbsent present ns
    → all_present present ls ≡ true
    → any_named ns ls ≡ false
unfolding any_named
AreAbsent-named present [] ls a h = refl
AreAbsent-named present (n ∷ ns) ls (p, a) h =
    ground (arith, all_present_model present n ls h, AreAbsent-named present ns ls a h)

pub add_name-AreAbsent :
    (present : List Bytes) (n : Bytes) (ns : List Bytes)
    → mem n present ≡ false
    → AreAbsent present ns
    → AreAbsent present (add_name n ns)
unfolding add_name
add_name-AreAbsent present n ns h a = elim (Bool-cases (mem n ns)) [
  | inl e ↦ rw e a
  | inr e ↦ rw e (All-append (λ m. mem m present ≡ false) ns (n ∷ []) a (h, tt))
]

-- What a collection holds behind a sample, and behind a gauge.
pub absent_in-AreAbsent :
    (present : List Bytes) (ls : Labels) (ns : List Bytes)
    → AreAbsent present ns
    → AreAbsent present (absent_in present ls ns)
unfolding absent_in
absent_in-AreAbsent present [] ns a = a
absent_in-AreAbsent present ((k, v) ∷ ls) ns a =
    elim (Bool-cases (equal k (codes "model") && not (mem v present))) [
      | inl e ↦ rw e (
          absent_in-AreAbsent present ls (add_name v ns)
            (add_name-AreAbsent present v ns (ground arith) a))
      | inr e ↦ rw e (absent_in-AreAbsent present ls ns a)
    ]

pub absent_in_kept :
    (present : List Bytes) (ls : Labels) (ns : List Bytes) (n : Bytes)
    → mem n ns ≡ true
    → mem n (absent_in present ls ns) ≡ true
unfolding absent_in
absent_in_kept present [] ns n h = h
absent_in_kept present ((k, v) ∷ ls) ns n h = ground (
  arith,
  mem-add_name n v ns,
  absent_in_kept present ls (add_name v ns) n,
  absent_in_kept present ls ns n,
)

pub absent_in_found :
    (present : List Bytes) (ls : Labels) (ns : List Bytes) (n : Bytes)
    → has_model n ls ≡ true
    → mem n present ≡ false
    → mem n (absent_in present ls ns) ≡ true
unfolding absent_in has_model
absent_in_found present [] ns n h k = cc
absent_in_found present ((j, v) ∷ ls) ns n h k =
    elim (Bool-cases (equal j (codes "model") && equal v n)) [
      | inl e ↦
          let same : v ≡ n = (equal_iff v n).0 (ground arith) in
          ground (
            arith,
            ap (λ x. mem x present) same,
            mem-add_name n v ns,
            absent_in_kept present ls (add_name v ns) n,
          )
      | inr e ↦
          ground
            (arith, absent_in_found present ls (add_name v ns) n, absent_in_found present ls ns n)
    ]

pub absent_models_kept :
    (present : List Bytes) (g : Gauge) (ns : List Bytes) (n : Bytes)
    → mem n ns ≡ true
    → mem n (absent_models present g ns) ≡ true
unfolding absent_models
absent_models_kept present [] ns n h = h
absent_models_kept present ((ls, v) ∷ g) ns n h =
    absent_models_kept present g (absent_in present ls ns) n (absent_in_kept present ls ns n h)

pub absent_models-AreAbsent :
    (present : List Bytes) (g : Gauge) (ns : List Bytes)
    → AreAbsent present ns
    → AreAbsent present (absent_models present g ns)
unfolding absent_models
absent_models-AreAbsent present [] ns a = a
absent_models-AreAbsent present ((ls, v) ∷ g) ns a =
    absent_models-AreAbsent present g (absent_in present ls ns)
      (absent_in-AreAbsent present ls ns a)

-- The names collected from a gauge that has samples `g` yet to come serve for these.
pub keep_unnamed-absent :
    (present : List Bytes) (g : Gauge) (ns all : List Bytes)
    → AreAbsent present all
    → ((n : Bytes) → mem n (absent_models present g ns) ≡ true → mem n all ≡ true)
    → keep_unnamed all g ≡ keep_present present g
unfolding keep_unnamed keep_present absent_models
keep_unnamed-absent present [] ns all a h = refl
keep_unnamed-absent present ((ls, v) ∷ g) ns all a h =
    let rest = keep_unnamed-absent present g (absent_in present ls ns) all a h in
    elim (Bool-cases (all_present present ls)) [
      | inl e ↦ ground (arith, rest, AreAbsent-named present all ls a e)
      | inr e ↦
          let (n, named, gone) = all_present_not present ls e in
          let found = h n (
            absent_models_kept present g (absent_in present ls ns) n
              (absent_in_found present ls ns n named gone)) in
          ground (arith, rest, any_named_of n all ls found named)
    ]

-- Pruning a gauge keeps exactly the samples whose model is present, in their order, and every sample
-- that names no model.
pub prune_model_gauge_keeps :
    (present : List Bytes) (g : Gauge) → prune_model_gauge present g ≡ keep_present present g
unfolding prune_model_gauge
prune_model_gauge_keeps present g =
    delete_models_lem (absent_models present g []) g
    ∙ keep_unnamed-absent present g [] (absent_models present g [])
        (absent_models-AreAbsent present g [] tt) (λ n h. h)
