-- ===== src/Collector/Poller/Gauges.antt =====
-- `pruneModelGauge`: the samples of a gauge, each with the labels that it was made with.
pub mod Kept
use ollama_exporter.Base.{
  if◌then◌else◌, ℤ, Bytes, codes, equal, Bool, false, not, ◌&&◌, ◌||◌, List, [], ◌∷◌,
}
use ollama_exporter.Collector.Poller.{mem, add_name}

abbrev pub Labels : Type 0
Labels = List (Bytes × Bytes)

abbrev pub Gauge : Type 0
Gauge = List (Labels × ℤ)

-- The loop over the labels of one sample.
unfoldable pub absent_in : List Bytes → Labels → List Bytes → List Bytes
absent_in present [] absent = absent
absent_in present ((k, v) ∷ ls) absent =
    absent_in present ls
      (if equal k (codes "model") && not (mem v present) then add_name v absent else absent)

-- The loop over the samples.
unfoldable pub absent_models : List Bytes → Gauge → List Bytes → List Bytes
absent_models present [] absent = absent
absent_models present ((ls, v) ∷ g) absent = absent_models present g (absent_in present ls absent)

-- Whether a sample has the label `model` with a value.
unfoldable pub has_model : Bytes → Labels → Bool
has_model n [] = false
has_model n ((k, v) ∷ ls) = (equal k (codes "model") && equal v n) || has_model n ls

-- `DeletePartialMatch` of the label `model`.
unfoldable pub delete_model : Bytes → Gauge → Gauge
delete_model n [] = []
delete_model n ((ls, v) ∷ g) =
    if has_model n ls then delete_model n g else (ls, v) ∷ delete_model n g

unfoldable pub delete_models : List Bytes → Gauge → Gauge
delete_models [] g = g
delete_models (n ∷ ns) g = delete_models ns (delete_model n g)

unfoldable pub prune_model_gauge : List Bytes → Gauge → Gauge
prune_model_gauge present g = delete_models (absent_models present g []) g
