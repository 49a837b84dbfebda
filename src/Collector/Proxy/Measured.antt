-- ===== src/Collector/Proxy/Measured.antt =====
-- What the numbers of a native final chunk add to the metrics, one measure at a time.
use ollama_exporter.Base.{All, ◌<ℤ◌, ℤ, pos, Bytes, ◌≡◌, Option, List, [], ◌∷◌, ◌++◌, arith}
use ollama_exporter.Collector.ModelCache.{ModelInfo, Cache, Details, get}
use ollama_exporter.Collector.Proxy.{
  ProxyEvent, requests_total, input_tokens, output_tokens, load_duration, model_load_duration,
  prompt_eval_duration, prompt_tokens_per_sec, kv_cache_pressure, eval_duration, tokens_per_second,
  prompt_tokens_total, eval_tokens_total, GenerateResponse, load_events, prompt_events, eval_events,
  count_events, record_generate_metrics,
}

-- The metrics that a native response may update, and the two that it may not.
pub data Measure : Type 0 where
  at_load at_model_load at_prompt at_eval : Measure
  at_prompt_rate at_pressure at_eval_rate : Measure
  at_prompt_total at_eval_total : Measure
  at_input at_output : Measure

-- What an update adds to a metric, as a numerator and a denominator.
unfoldable pub value_of : Measure → ProxyEvent → List (ℤ × ℤ)
value_of at_load (load_duration n) = (n, pos 1) ∷ []
value_of at_model_load (model_load_duration n) = (n, pos 1) ∷ []
value_of at_prompt (prompt_eval_duration n) = (n, pos 1) ∷ []
value_of at_eval (eval_duration n) = (n, pos 1) ∷ []
value_of at_prompt_rate (prompt_tokens_per_sec n d) = (n, d) ∷ []
value_of at_pressure (kv_cache_pressure n d) = (n, d) ∷ []
value_of at_eval_rate (tokens_per_second n d) = (n, d) ∷ []
value_of at_prompt_total (prompt_tokens_total n) = (n, pos 1) ∷ []
value_of at_eval_total (eval_tokens_total n) = (n, pos 1) ∷ []
value_of at_input (input_tokens n) = (n, pos 1) ∷ []
value_of at_output (output_tokens n) = (n, pos 1) ∷ []
value_of _ _ = []

unfoldable pub values : Measure → List ProxyEvent → List (ℤ × ℤ)
values m [] = []
values m (e ∷ es) = value_of m e ++ values m es

-- The requests that are counted.
unfoldable pub requests_of : List ProxyEvent → List (Bytes × ModelInfo × Bytes)
requests_of [] = []
requests_of (requests_total model info path ∷ es) = (model, info, path) ∷ requests_of es
requests_of (_ ∷ es) = requests_of es

-- When a chunk updates a metric: when the numbers it is made of are positive.
abbrev pub IsDue : GenerateResponse → Measure → Type 0
IsDue gen at_load = pos 0 <ℤ gen.load_duration
IsDue gen at_model_load = pos 0 <ℤ gen.load_duration
IsDue gen at_prompt = pos 0 <ℤ gen.prompt_eval_duration
IsDue gen at_eval = pos 0 <ℤ gen.eval_duration
IsDue gen at_prompt_rate = (pos 0 <ℤ gen.prompt_eval_duration) × (pos 0 <ℤ gen.prompt_eval_count)
IsDue gen at_pressure = (pos 0 <ℤ gen.prompt_eval_duration) × (pos 0 <ℤ gen.prompt_eval_count)
IsDue gen at_eval_rate = (pos 0 <ℤ gen.eval_duration) × (pos 0 <ℤ gen.eval_count)
IsDue gen at_prompt_total = pos 0 <ℤ gen.prompt_eval_count
IsDue gen at_eval_total = pos 0 <ℤ gen.eval_count
IsDue gen at_input = ⊥
IsDue gen at_output = ⊥

-- The number it adds then: nanoseconds, tokens, tokens over nanoseconds, or nanoseconds over tokens.
abbrev pub reading : GenerateResponse → Measure → ℤ × ℤ
reading gen at_load = (gen.load_duration, pos 1)
reading gen at_model_load = (gen.load_duration, pos 1)
reading gen at_prompt = (gen.prompt_eval_duration, pos 1)
reading gen at_eval = (gen.eval_duration, pos 1)
reading gen at_prompt_rate = (gen.prompt_eval_count, gen.prompt_eval_duration)
reading gen at_pressure = (gen.prompt_eval_duration, gen.prompt_eval_count)
reading gen at_eval_rate = (gen.eval_count, gen.eval_duration)
reading gen at_prompt_total = (gen.prompt_eval_count, pos 1)
reading gen at_eval_total = (gen.eval_count, pos 1)
reading gen at_input = (pos 0, pos 1)
reading gen at_output = (pos 0, pos 1)

-- Updated once with that number if due, and else not at all.
abbrev pub IsMeasured : GenerateResponse → List ProxyEvent → Measure → Type 0
IsMeasured gen es m =
    (IsDue gen m → values m es ≡ reading gen m ∷ []) × (¬ (IsDue gen m) → values m es ≡ [])

pub measured :
    (show : Bytes → Option Details) (gen : GenerateResponse) (path : Bytes) (cache : Cache)
    (m : Measure)
    → IsMeasured gen (record_generate_metrics show gen path cache).1 m
unfolding record_generate_metrics load_events prompt_events eval_events count_events values value_of
measured show gen path cache at_load = ground arith
measured show gen path cache at_model_load = ground arith
measured show gen path cache at_prompt = ground arith
measured show gen path cache at_eval = ground arith
measured show gen path cache at_prompt_rate = ground arith
measured show gen path cache at_pressure = ground arith
measured show gen path cache at_eval_rate = ground arith
measured show gen path cache at_prompt_total = ground arith
measured show gen path cache at_eval_total = ground arith
measured show gen path cache at_input = ground arith
measured show gen path cache at_output = ground arith

-- A counter goes up and never down (`Add` panics on a negative number), and no divisor is zero.
abbrev pub IsSafe : ProxyEvent → Type 0
IsSafe (load_duration n) = pos 0 <ℤ n
IsSafe (model_load_duration n) = pos 0 <ℤ n
IsSafe (prompt_eval_duration n) = pos 0 <ℤ n
IsSafe (prompt_tokens_per_sec n d) = (pos 0 <ℤ n) × (pos 0 <ℤ d)
IsSafe (kv_cache_pressure n d) = (pos 0 <ℤ n) × (pos 0 <ℤ d)
IsSafe (eval_duration n) = pos 0 <ℤ n
IsSafe (tokens_per_second n d) = (pos 0 <ℤ n) × (pos 0 <ℤ d)
IsSafe (prompt_tokens_total n) = pos 0 <ℤ n
IsSafe (eval_tokens_total n) = pos 0 <ℤ n
IsSafe _ = Unit

pub generate_requests :
    (show : Bytes → Option Details) (gen : GenerateResponse) (path : Bytes) (cache : Cache)
    → requests_of (record_generate_metrics show gen path cache).1
      ≡ (gen.model, (get show gen.model cache).0, path) ∷ []
unfolding record_generate_metrics load_events prompt_events eval_events count_events requests_of
generate_requests show gen path cache = ground arith

pub generate_events-IsSafe :
    (show : Bytes → Option Details) (gen : GenerateResponse) (path : Bytes) (cache : Cache)
    → All IsSafe (record_generate_metrics show gen path cache).1
unfolding record_generate_metrics load_events prompt_events eval_events count_events
generate_events-IsSafe show gen path cache = ground arith
