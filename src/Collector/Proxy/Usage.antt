-- ===== src/Collector/Proxy/Usage.antt =====
-- internal/collector/usage.go: what a response of a compatibility API adds to the metrics.
use ollama_exporter.Base.{
  if◌then◌else◌, ℤ, pos, Bytes, codes, equal, Bool, true, false, Option, none, some, List, [], ◌∷◌,
  ◌++◌,
}
use ollama_exporter.Go.Dict.{lookup}
use ollama_exporter.Collector.JsonFields.{
  Json, Fields, Reason, no_reason, invalid_fields, usage_absent,
}
use ollama_exporter.Collector.ResponseBody.{Outcome, succeeded, failed, skipped, decode}
use ollama_exporter.Collector.ModelCache.{ModelInfo, Cache, Details, get}

pub data ProxyEvent : Type 0 where
  requests_total : Bytes → ModelInfo → Bytes → ProxyEvent
  input_tokens : ℤ → ProxyEvent
  output_tokens : ℤ → ProxyEvent
  load_duration : ℤ → ProxyEvent
  model_load_duration : ℤ → ProxyEvent
  prompt_eval_duration : ℤ → ProxyEvent
  prompt_tokens_per_sec : ℤ → ℤ → ProxyEvent
  kv_cache_pressure : ℤ → ℤ → ProxyEvent
  eval_duration : ℤ → ProxyEvent
  tokens_per_second : ℤ → ℤ → ProxyEvent
  prompt_tokens_total : ℤ → ProxyEvent
  eval_tokens_total : ℤ → ProxyEvent

-- The nested loops over keys: `json.Unmarshal` into an int64 is `int64_of`.
abbrev pub not_null : Option Bytes → Option Bytes
not_null none = none
not_null (some raw) = if equal raw (codes "null") then none else some raw

abbrev pub non_negative : Option ℤ → Option ℤ
non_negative (some (pos n)) = some (pos n)
non_negative _ = none

abbrev pub or_model : Option Bytes → Bytes → Bytes
or_model none model = model
or_model (some []) model = model
or_model (some (c ∷ cs)) model = c ∷ cs

unfoldable pub usage_model : Json → Bytes → Fields → Bytes
usage_model json requested f =
    or_model (decode json (lookup (codes "message.model") f))
      (or_model (decode json (lookup (codes "model") f)) requested)

-- A key that is absent or null, one that has a count, and one that has something else.
pub data Count : Type 0 where
  absent invalid : Count
  counted : ℤ → Count

abbrev pub of_decoded : Option ℤ → Count
of_decoded none = invalid
of_decoded (some n) = counted n

unfoldable pub count_at : (Bytes → Option ℤ) → Fields → Bytes → Count
count_at int64_of f key = elim (not_null (lookup key f)) [
  | none ↦ absent
  | some raw ↦ of_decoded (non_negative (int64_of raw))
]

-- The loop that checks: `none` for a count that is not one, else `present`.
unfoldable pub check_counts : (Bytes → Option ℤ) → Fields → List Bytes → Bool → Option Bool
check_counts int64_of f [] present = some present
check_counts int64_of f (key ∷ keys) present =
    let rest = check_counts int64_of f keys present in
    let found = check_counts int64_of f keys true in
    elim (count_at int64_of f key) [ absent ↦ rest | invalid ↦ none | counted n ↦ found ]

-- The loop that observes the first count.
unfoldable pub first_count : (Bytes → Option ℤ) → Fields → List Bytes → Option ℤ
first_count int64_of f [] = none
first_count int64_of f (key ∷ keys) =
    let rest = first_count int64_of f keys in
    elim (count_at int64_of f key) [ absent ↦ rest | invalid ↦ rest | counted n ↦ some n ]

abbrev pub input_keys : List Bytes
input_keys =
    codes "usage.prompt_tokens"
    ∷ codes "usage.input_tokens"
    ∷ codes "message.usage.input_tokens"
    ∷ []

abbrev pub output_keys : List Bytes
output_keys =
    codes "usage.completion_tokens"
    ∷ codes "usage.output_tokens"
    ∷ codes "message.usage.output_tokens"
    ∷ []

abbrev pub observed_as : (ℤ → ProxyEvent) → Option ℤ → List ProxyEvent
observed_as event none = []
observed_as event (some n) = event n ∷ []

unfoldable pub usage_events :
    (Bytes → Option ℤ) → Bytes → ModelInfo → Bytes → Fields → List ProxyEvent
usage_events int64_of model info path f =
    requests_total model info path
    ∷ (observed_as input_tokens (first_count int64_of f input_keys)
        ++ observed_as output_tokens (first_count int64_of f output_keys))

pub record Recorded : Type 0 where
  pub outcome : Outcome
  pub reason : Reason
  pub cache : Cache
  pub events : List ProxyEvent

unfoldable pub record_usage :
    Json → (Bytes → Option ℤ) → (Bytes → Option Details) → Bytes → Bytes → Fields → Cache → Recorded
record_usage json int64_of show requested path f cache =
    let model = usage_model json requested f in
    let (info, cache') = get show model cache in
    let events = usage_events int64_of model info path f in
    elim (check_counts int64_of f (input_keys ++ output_keys) false) [
      | none ↦ record { outcome = failed; reason = invalid_fields; cache = cache; events = [] }
      | some present ↦
          if present
          then record { outcome = succeeded; reason = no_reason; cache = cache'; events = events }
          else record { outcome = skipped; reason = usage_absent; cache = cache'; events = events }
    ]
