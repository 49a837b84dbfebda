-- ===== src/Tests/Polls.antt =====
-- internal/collector/poller.go on a server that loads a model and drops it again.
use ollama_exporter.Base.{
  pos, Bytes, codes, ◌+◌, ◌≡◌, refl, true, false, Option, none, some, List, [], ◌∷◌,
}
use ollama_exporter.Collector.ModelCache.{Details}
use ollama_exporter.Collector.Poller.{Poller, RunningModel, Answers, mem}
use ollama_exporter.Collector.Poller.Counts.{loads, unloads, bit, IsDistinct}
use ollama_exporter.Collector.Poller.Lifecycle.{scrapes, scrapes_balance}
use ollama_exporter.Collector.Poller.Gauges.{Gauge, prune_model_gauge}
use ollama_exporter.Collector.Poller.Gauges.Kept.{keep_present, prune_model_gauge_keeps}

abbrev qwen : Bytes
qwen = codes "qwen"

abbrev llama : Bytes
llama = codes "llama"

abbrev silent_show : Bytes → Option Details
silent_show model = none

abbrev answers : List RunningModel → Answers
answers running = record {
  healthy = true;
  ps = some (some running);
  tags = some (some (qwen ∷ []));
  show = silent_show;
}

abbrev qwen_running : List RunningModel
qwen_running = record { name = qwen; size_vram = pos 9 } ∷ []

-- One that was loaded when the exporter started.
abbrev started : Poller
started = record { cache = []; prev_loaded = llama ∷ []; initialized = true }

abbrev three_answers : List Answers
three_answers = answers qwen_running ∷ record (answers []) { healthy = false } ∷ answers [] ∷ []

qwen-IsDistinct : IsDistinct (qwen ∷ [])
unfolding mem
qwen-IsDistinct = (refl, tt)

llama-IsDistinct : IsDistinct (llama ∷ [])
unfolding mem
llama-IsDistinct = (refl, tt)

scrapes_balance_example :
    loads qwen (scrapes three_answers started).1 + bit (mem qwen (llama ∷ []))
    ≡ unloads qwen (scrapes three_answers started).1
      + bit (mem qwen (scrapes three_answers started).0.prev_loaded)
scrapes_balance_example =
    scrapes_balance three_answers qwen started (qwen-IsDistinct, (tt, (tt, tt))) llama-IsDistinct

abbrev vram_gauge : Gauge
vram_gauge =
    ((codes "model", qwen) ∷ (codes "quant", codes "q4") ∷ [], pos 3)
    ∷ ((codes "model", llama) ∷ [], pos 4)
    ∷ ((codes "quant", llama) ∷ [], pos 5)
    ∷ []

prune_model_gauge_keeps_example :
    prune_model_gauge (qwen ∷ []) vram_gauge ≡ keep_present (qwen ∷ []) vram_gauge
prune_model_gauge_keeps_example = prune_model_gauge_keeps (qwen ∷ []) vram_gauge
