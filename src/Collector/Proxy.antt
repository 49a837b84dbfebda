-- ===== src/Collector/Proxy.antt =====
-- internal/collector/proxy.go and usage.go: what a request and an observed response add to the
-- metrics. The updates come back as a list; a ratio of floats is given by the two integers that it
-- is made of. encoding/json and `/api/show` are parameters.
pub mod RequestBody
pub mod Counted
pub mod Measured
pub mod Laws
pub mod Handler
mod Usage
unfoldable pub use Usage.*
use ollama_exporter.Base.{
  ltb, leb, if◌then◌else◌, ltb_ℤ, ℤ, pos, Bytes, codes, equal, ℕ, Bool, false, not, ◌&&◌, ◌||◌,
  Option, none, some, List, [], ◌∷◌, ◌++◌,
}
use ollama_exporter.Go.Strings.{has_prefix}
use ollama_exporter.Collector.JsonFields.{Fields, no_reason, incomplete, invalid_fields}
use ollama_exporter.Collector.ResponseBody.{succeeded, failed, skipped}
use ollama_exporter.Collector.ModelCache.{Cache, Details, get}

-- `ollama.GenerateResponse`, what is read of it.
pub record GenerateResponse : Type 0 where
  pub model : Bytes
  pub done : Bool
  pub load_duration : ℤ
  pub prompt_eval_count : ℤ
  pub prompt_eval_duration : ℤ
  pub eval_count : ℤ
  pub eval_duration : ℤ

abbrev when : Bool → List ProxyEvent → List ProxyEvent
when b es = if b then es else []

abbrev positive : ℤ → Bool
positive n = ltb_ℤ (pos 0) n

unfoldable pub load_events : GenerateResponse → List ProxyEvent
load_events gen =
    when (positive gen.load_duration)
      (load_duration gen.load_duration ∷ model_load_duration gen.load_duration ∷ [])

unfoldable pub prompt_events : GenerateResponse → List ProxyEvent
prompt_events gen = when (positive gen.prompt_eval_duration) (
    prompt_eval_duration gen.prompt_eval_duration
    ∷ when (positive gen.prompt_eval_count) (
        prompt_tokens_per_sec gen.prompt_eval_count gen.prompt_eval_duration
        ∷ kv_cache_pressure gen.prompt_eval_duration gen.prompt_eval_count
        ∷ []))

unfoldable pub eval_events : GenerateResponse → List ProxyEvent
eval_events gen = when (positive gen.eval_duration) (
    eval_duration gen.eval_duration
    ∷ when (positive gen.eval_count) (tokens_per_second gen.eval_count gen.eval_duration ∷ []))

unfoldable pub count_events : GenerateResponse → List ProxyEvent
count_events gen =
    when (positive gen.prompt_eval_count) (prompt_tokens_total gen.prompt_eval_count ∷ [])
    ++ when (positive gen.eval_count) (eval_tokens_total gen.eval_count ∷ [])

unfoldable pub record_generate_metrics :
    (Bytes → Option Details) → GenerateResponse → Bytes → Cache → Cache × List ProxyEvent
record_generate_metrics show gen path cache =
    let (info, cache') = get show gen.model cache in
    (
      cache',
      (load_events gen ++ prompt_events gen ++ eval_events gen ++ count_events gen)
          ++ requests_total gen.model info path ∷ [],
    )

-- The callback for a native path, behind the decoding of the fields.
unfoldable pub record_decoded :
    (Bytes → Option Details) → Bytes → Cache → Option GenerateResponse → Recorded
record_decoded show path cache none = record {
  outcome = failed;
  reason = invalid_fields;
  cache = cache;
  events = [];
}
record_decoded show path cache (some gen) =
    if not gen.done
    then record { outcome = skipped; reason = incomplete; cache = cache; events = [] }
    else let (cache', events) = record_generate_metrics show gen path cache in
      record { outcome = succeeded; reason = no_reason; cache = cache'; events = events }

-- `generate_of` is the decoding.
unfoldable pub record_native :
    (Fields → Option GenerateResponse)
    → (Bytes → Option Details)
    → Bytes
    → Fields
    → Cache
    → Recorded
record_native generate_of show path f cache = record_decoded show path cache (generate_of f)

abbrev one_path : List Bytes → Bytes → Bool
one_path [] p = false
one_path (q ∷ qs) p = equal p q || one_path qs p

unfoldable pub inference_path : Bytes → Bool
inference_path = one_path (
    codes "/api/generate"
    ∷ codes "/api/chat"
    ∷ codes "/v1/chat/completions"
    ∷ codes "/v1/completions"
    ∷ codes "/v1/messages"
    ∷ [])

-- What `modifyResponse` does with a response: leave it, report its status, or observe its body.
pub data Modified : Type 0 where
  untouched status_skipped : Modified
  observing : Bool → Bool → Modified

unfoldable pub modify_response : (Bytes → Bool) → Bool → Bytes → ℕ → Bytes → Modified
modify_response excluded is_post path status content_type =
    if not is_post || not (inference_path path)
    then untouched
    else if excluded path
    then untouched
    else if ltb status 200 || leb 300 status
    then status_skipped
    else let compatibility = has_prefix path (codes "/v1/") in
      observing compatibility (compatibility && has_prefix content_type (codes "text/event-stream"))
