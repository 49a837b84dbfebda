-- ===== src/Collector/ModelCache.antt =====
-- internal/collector/modelcache.go: the family and the quantisation of a model, by name. `Get` and
-- `fetchAndCache` each hold the lock from a look-up to its use, so a miss is two steps; the answer of
-- `/api/show` is a parameter, `none` for an error. Trimming and lower case are those of ASCII text.
pub mod History
pub mod Laws
use ollama_exporter.Base.{Bytes, codes, Bool, Option, none, some, List, [], ◌∷◌}
use ollama_exporter.Go.Strings.{cut_first, after_last, trim_space, to_lower}
use ollama_exporter.Go.Dict.{lookup, insert, retain}

pub record ModelInfo : Type 0 where
  pub family : Bytes
  pub quant : Bytes

abbrev pub Cache : Type 0
Cache = List (Bytes × ModelInfo)

-- `Details.Family` and `Details.QuantizationLevel`.
pub record Details : Type 0 where
  pub family : Bytes
  pub quantization_level : Bytes

abbrev pub unknown : Bytes
unknown = codes "unknown"

-- `if idx := strings.Index(base, "."); idx > 0 { base = base[:idx] }`
unfoldable pub strip_version : Bytes → Bytes
strip_version base = elim (cut_first b'.' base) [
  | none ↦ base
  | some (before, after) ↦ elim before [ [] ↦ base | c ∷ cs ↦ c ∷ cs ]
]

unfoldable pub quant_of_tag : Bytes → Bytes
quant_of_tag tag = elim (after_last b'-' tag) [ none ↦ tag | some q ↦ q ]

unfoldable pub parse_model_name : Bytes → Bytes × Bytes
parse_model_name name = elim (cut_first b':' name) [
  | none ↦ (strip_version name, unknown)
  | some (base, tag) ↦ (strip_version base, quant_of_tag tag)
]

abbrev or_default : Bytes → Bytes → Bytes
or_default [] d = d
or_default (c ∷ cs) d = c ∷ cs

unfoldable pub fetch : (Bytes → Option Details) → Bytes → ModelInfo
fetch show model = elim (show model) [
  | none ↦ record { family = (parse_model_name model).0; quant = unknown }
  | some d ↦ record {
    family = or_default (to_lower (trim_space d.family)) (parse_model_name model).0;
    quant = or_default (to_lower (trim_space d.quantization_level)) unknown;
  }
]

-- Under the write lock, with the second look-up.
unfoldable pub fetch_and_cache : (Bytes → Option Details) → Bytes → Cache → ModelInfo × Cache
fetch_and_cache show model cache = elim (lookup model cache) [
  | some info ↦ (info, cache)
  | none ↦ (fetch show model, insert model (fetch show model) cache)
]

-- With no other call between its two locks.
unfoldable pub get : (Bytes → Option Details) → Bytes → Cache → ModelInfo × Cache
get show model cache = elim (lookup model cache) [
  | some info ↦ (info, cache)
  | none ↦ fetch_and_cache show model cache
]

unfoldable pub prune : (Bytes → Bool) → Cache → Cache
prune present cache = retain present cache
