-- ===== src/Collector/Proxy/Handler.antt =====
-- `instrumentedHandler` of proxy.go: the model that a request names, and the metrics around its
-- forwarding. Deferred calls run last to first; the cache is the one that the deferred look-up finds.
use ollama_exporter.Base.{
  if◌then◌else◌, ◌+ℤ◌, ◌-ℤ◌, ℤ, pos, Bytes, codes, equal, ℕ, suc, ◌≡◌, Bool, ◌&&◌, Option, none,
  some, List, [], ◌∷◌, arith,
}
use ollama_exporter.Go.Dict.{lookup}
use ollama_exporter.Collector.JsonFields.{Json, feed, empty}
use ollama_exporter.Collector.ResponseBody.{decode}
use ollama_exporter.Collector.ModelCache.{ModelInfo, Cache, Details, get}
use ollama_exporter.Collector.Proxy.{inference_path}

pub data HandlerEvent : Type 0 where
  in_flight_up : Bytes → Bytes → HandlerEvent
  in_flight_down : Bytes → Bytes → HandlerEvent
  bad_request : HandlerEvent
  -- The next handler is called, with the model in the request's context or without one.
  served : Option Bytes → HandlerEvent
  duration : Bytes → ModelInfo → Bytes → HandlerEvent

-- What is read of a request: `prefix` is what `ReadAll` returns of the first 64 KiB of its body, and
-- `read_error` whether with an error.
pub record Request : Type 0 where
  pub query_model : Bytes
  pub path : Bytes
  pub is_post : Bool
  pub has_body : Bool
  pub prefix : Bytes
  pub read_error : Bool

abbrev or_query : Option Bytes → Bytes → Bytes
or_query none m = m
or_query (some []) m = m
or_query (some (c ∷ cs)) m = c ∷ cs

abbrev pub reads_body : Request → Bool
reads_body r = r.is_post && inference_path r.path && r.has_body

-- An empty prefix is not parsed, and leaves nothing to decode.
unfoldable pub request_model : Json → Request → Bytes
request_model json r =
    if reads_body r
    then or_query (decode json (lookup (codes "model") (feed json r.prefix empty).fields))
        r.query_model
    else r.query_model

unfoldable pub failed_read : Request → Bool
failed_read r = reads_body r && r.read_error

-- The events, and the cache behind the deferred look-up.
unfoldable pub handle :
    Json → (Bytes → Option Details) → (Bytes → Bool) → Request → Cache → Cache × List HandlerEvent
handle json show excluded r cache =
    let model = request_model json r in
    if excluded r.path
    then (cache, (if failed_read r then bad_request else served none) ∷ [])
    else let (info, cache') = get show model cache in
      (
        cache',
        in_flight_up model r.path
            ∷ (if failed_read r then bad_request else served (some model))
            ∷ duration model info r.path
            ∷ in_flight_down model r.path
            ∷ [],
      )

unfoldable pub in_flight : Bytes → Bytes → List HandlerEvent → ℤ
in_flight m p [] = pos 0
in_flight m p (in_flight_up n q ∷ es) =
    in_flight m p es +ℤ (if equal n m && equal q p then pos 1 else pos 0)
in_flight m p (in_flight_down n q ∷ es) =
    in_flight m p es -ℤ (if equal n m && equal q p then pos 1 else pos 0)
in_flight m p (_ ∷ es) = in_flight m p es

unfoldable pub answers_in : List HandlerEvent → ℕ
answers_in [] = 0
answers_in (bad_request ∷ es) = suc (answers_in es)
answers_in (served m ∷ es) = suc (answers_in es)
answers_in (_ ∷ es) = answers_in es

unfoldable pub durations_in : List HandlerEvent → ℕ
durations_in [] = 0
durations_in (duration m i p ∷ es) = suc (durations_in es)
durations_in (_ ∷ es) = durations_in es

-- On every path through the handler a request is answered once, by the next handler or by an error,
-- no gauge of requests in flight is left changed, and one duration is observed, or none for an
-- excluded path.
pub handle_settles :
    (json : Json) (show : Bytes → Option Details) (excluded : Bytes → Bool) (r : Request)
    (cache : Cache) (m p : Bytes)
    → let es = (handle json show excluded r cache).1 in
      (in_flight m p es ≡ pos 0)
      × (answers_in es ≡ 1)
      × (durations_in es ≡ (if excluded r.path then 0 else 1))
unfolding handle in_flight answers_in durations_in ◌+ℤ◌ ◌-ℤ◌
handle_settles json show excluded r cache m p = ground arith
