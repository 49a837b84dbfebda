-- ===== src/Tests/Models.antt =====
-- internal/collector/modelcache.go with one model in the cache.
use ollama_exporter.Base.{
  Bytes, codes, ◌≡◌, refl, Bool, false, Option, none, some, [], ◌∷◌, List, ◌↔◌,
}
use ollama_exporter.Go.Strings.{contains}
use ollama_exporter.Collector.ModelCache.{Cache, Details, parse_model_name, fetch}
use ollama_exporter.Collector.ModelCache.Laws.{parse_model_name-print}
use ollama_exporter.Collector.ModelCache.History.{
  Call, asks, prunes, at_once, second_half, ask, after, Held, ask-Held,
}

abbrev one_model : Cache
one_model = (codes "qwen", record { family = codes "qwen"; quant = codes "q8_0" }) ∷ []

-- An `/api/show` that is down, and one that knows every model.
abbrev no_show : Bytes → Option Details
no_show model = none

abbrev any_show : Bytes → Option Details
any_show model = some (record { family = codes " Llama "; quantization_level = codes "Q4_0" })

-- The model was fetched while `/api/show` knew it, dropped by a prune, and fetched again while it
-- was down.
abbrev nothing_present : Bytes → Bool
nothing_present model = false

abbrev fetched_twice : List Call
fetched_twice =
    asks at_once no_show (codes "qwen")
    ∷ prunes nothing_present
    ∷ asks at_once any_show (codes "qwen")
    ∷ []

ask-Held_example :
    ((ask second_half any_show (codes "qwen") (after fetched_twice)).0
      ≡ fetch no_show (codes "qwen"))
    ↔ Held
        (codes "qwen")
        (asks second_half any_show (codes "qwen") ∷ fetched_twice)
        (some (fetch no_show (codes "qwen")))
ask-Held_example =
    ask-Held fetched_twice second_half any_show (codes "qwen") (fetch no_show (codes "qwen"))

parse_model_name-print_example :
    parse_model_name (codes "llama3.1:8b-q4_0") ≡ (codes "llama3", codes "q4_0")
unfolding contains
parse_model_name-print_example =
    parse_model_name-print b'l' (codes "lama3") (codes "1") (codes "8b") (codes "q4_0") refl refl
      refl refl
