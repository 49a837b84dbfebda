-- ===== src/Tests/Numbers.antt =====
-- internal/collector/streamjson.go on a number with all of its parts.
use ollama_exporter.Base.{codes, refl, ◌↔◌, ◌⊎◌}
use ollama_exporter.Collector.JsonFields.{JsonFields, in_scalar, empty}
use ollama_exporter.Collector.JsonFields.Grammar.{IsNumber}
use ollama_exporter.Collector.JsonFields.Grammar.Sound.{IsLiteral, IsComplete, pushes, pushes_iff}

abbrev in_token : JsonFields
in_token = record empty { mode = in_scalar }

pushes_iff_example :
    IsComplete (pushes (codes "-10.25e+7") in_token)
    ↔ (IsNumber (codes "-10.25e+7") ⊎ IsLiteral (codes "-10.25e+7"))
pushes_iff_example = pushes_iff (codes "-10.25e+7") in_token refl refl
