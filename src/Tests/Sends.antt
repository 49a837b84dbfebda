-- ===== src/Tests/Sends.antt =====
-- internal/remotewrite/wire.go and sender.go: replies, and a batch that succeeds at its second attempt.
use ollama_exporter.Base.{
  if◌then◌else◌, ◌≤ℤ◌, ◌<ℤ◌, wrap64, ℤ, pos, Bytes, codes, equal, ℕ, zero, suc, ◌+◌, ◌-◌, ◌*◌, ◌≤◌,
  ◌<◌, ◌≡◌, refl, ◌↔◌, true, false, ◌&&◌, Option, none, some, List, [], ◌∷◌, ◌++◌, arith,
}
use ollama_exporter.Go.Strconv.{atoi}
use ollama_exporter.Go.Dict.{lookup}
use ollama_exporter.RemoteWrite.Queue.{Dequeued, got, queue_closed}
use ollama_exporter.RemoteWrite.Sender.Credentials.{
  Credentials, IsMap, is_set, basic_auth_header, compose_headers, compose_headers-lookup,
}
use ollama_exporter.RemoteWrite.Sender.Loop.{Pass, run, taken, Accounted, run-Accounted}
use ollama_exporter.RemoteWrite.Breaker.{breaker_closed, Breaker, allow, record_success}
use ollama_exporter.RemoteWrite.Wire.{
  SendError, err_retryable, parse_retry_after, classify_status, request_headers,
}
use ollama_exporter.RemoteWrite.Wire.Headers.{request_headers_reserved}
use ollama_exporter.RemoteWrite.Wire.Status.{
  delivered, rejected, try_later, verdict, delay_of, IsRejecting, MayDelay, AsksFor,
  classify_status_table, parse_retry_after_wraps,
}
use ollama_exporter.RemoteWrite.Sender.{
  EndpointConfig, SenderEvent, Attempt, on_send_outcome, on_samples_sent, on_retry, on_last_send,
  retryable_error, success, backoff_upper, min_ℤ, max_of, retry_after_of, compute_backoff,
  process_batch, attempts_of, send_loop, on_switch, switch, on_wait, next_wait, deadline_of,
  cap_wait, jitter, shift64, base_of,
}
use ollama_exporter.RemoteWrite.Sender.Backoff.{IsDraw, backoff_upper_wraps, compute_backoff_bounds}
use ollama_exporter.RemoteWrite.Sender.Total.{process_batch_returns}
use ollama_exporter.RemoteWrite.Sender.Retries.{tries, retries, process_batch_budget}

-- A `http.ParseTime` that knows no date.
abbrev no_time : Bytes → Option ℤ
no_time header = none

atoi_wrapping : atoi (codes "9223372037") ≡ some (pos 9223372037)
unfolding atoi
atoi_wrapping = refl

atoi_small : atoi (codes "120") ≡ some (pos 120)
unfolding atoi
atoi_small = refl

parse_retry_after_wraps_example : parse_retry_after no_time (codes "9223372037") (pos 7) <ℤ pos 0
parse_retry_after_wraps_example =
    parse_retry_after_wraps no_time (codes "9223372037") (pos 7) 9223372037 atoi_wrapping
      (omega arith) (omega arith)

abbrev throttled : Option SendError
throttled = classify_status no_time 429 (codes "120") (pos 7)

classify_status_table_example :
    ((verdict throttled ≡ delivered) ↔ ((200 ≤ 429) × (429 < 300)))
    × ((verdict throttled ≡ rejected) ↔ IsRejecting 429)
    × (verdict throttled ≡ try_later
        → (throttled ≡ some (err_retryable 429 (delay_of throttled)))
          × (MayDelay 429 → AsksFor no_time (pos 7) (codes "120") (delay_of throttled))
          × (¬ (MayDelay 429) → delay_of throttled ≡ pos 0))
classify_status_table_example = classify_status_table no_time 429 (codes "120") (pos 7)

-- A caller's header in other letters than the reserved one.
abbrev given_headers : List (Bytes × Bytes)
given_headers = (codes "content-type", codes "text/plain") ∷ (codes "X-Org", codes "7") ∷ []

request_headers_reserved_example :
    let h = request_headers (codes "agent") given_headers in
    (lookup (codes "Content-Encoding") h ≡ some (codes "snappy"))
    × (lookup (codes "Content-Type") h ≡ some (codes "application/x-protobuf"))
    × (lookup (codes "X-Prometheus-Remote-Write-Version") h ≡ some (codes "0.1.0"))
request_headers_reserved_example = request_headers_reserved (codes "agent") given_headers

backoff_upper_wraps_example :
    backoff_upper (pos (281474976710656 + 1)) (pos 300000000000000) 20 ≡ pos (1 * 65536)
backoff_upper_wraps_example =
    backoff_upper_wraps 1 300000000000000 20 (omega arith) (omega arith) (omega arith) (omega arith)

abbrev pub endpoint : EndpointConfig
endpoint = record {
  max_attempts = pos 3;
  max_elapsed = pos 0;
  initial_backoff = pos 100;
  max_backoff = pos 1000;
}

-- The largest number that may be drawn.
abbrev highest : ℕ → ℕ
highest n = n - 1

highest-IsDraw : IsDraw highest
highest-IsDraw n h = omega arith

pub max_of_endpoint : max_of endpoint <ℤ pos 9223372036854775807
unfolding max_of
max_of_endpoint = omega arith

compute_backoff_bounds_example :
    (w : ℤ) × (compute_backoff endpoint 1 (err_retryable 429 (pos 700)) highest ≡ some w)
    × (pos 0 ≤ℤ w)
    × (w ≤ℤ max_of endpoint)
    × (min_ℤ (retry_after_of (err_retryable 429 (pos 700))) (max_of endpoint) ≤ℤ w)
compute_backoff_bounds_example =
    compute_backoff_bounds endpoint 1 (err_retryable 429 (pos 700)) highest highest-IsDraw
      max_of_endpoint

abbrev answer : Option SendError → Attempt
answer r = record {
  result = r;
  dur = pos 5;
  now_sent = pos 50;
  now_failure = pos 50;
  now_check = pos 51;
  now_until = pos 52;
  draw = highest;
  shutdown = false;
}

-- The first attempt is answered by 503, each later one by 200.
abbrev pub recovering : ℕ → Attempt
recovering zero = answer (some (err_retryable 503 (pos 0)))
recovering (suc n) = answer none

pub recovering-IsDraw : (i : ℕ) → IsDraw (recovering i).draw
recovering-IsDraw zero n h = omega arith
recovering-IsDraw (suc i) n h = omega arith

abbrev pub calm : Breaker
calm = record {
  failure_threshold = pos 3;
  window = pos 10;
  cooldown = pos 30;
  state = breaker_closed;
  failures = [];
  opened_at = pos 0;
}

process_batch_returns_example :
    (cb' : Breaker) × (es : List SenderEvent) × (process_batch endpoint 9 true
        (pos 40)
        (pos 40)
        recovering
        calm
      ≡ some (cb', es))
process_batch_returns_example =
    process_batch_returns endpoint max_of_endpoint 9 true (pos 40) (pos 40) recovering calm
      recovering-IsDraw

abbrev batch_events : List SenderEvent
batch_events =
    on_send_outcome retryable_error (pos 5)
    ∷ on_retry
    ∷ on_samples_sent 9
    ∷ on_send_outcome success (pos 5)
    ∷ on_last_send (pos 50)
    ∷ []

process_batch_run :
    process_batch endpoint 9 true (pos 40) (pos 40) recovering calm ≡ some (calm, batch_events)
unfolding process_batch allow send_loop on_switch switch on_wait next_wait deadline_of cap_wait
    compute_backoff jitter wrap64 backoff_upper max_of shift64 base_of record_success
process_batch_run = refl

process_batch_budget_example :
    (tries batch_events ≤ attempts_of endpoint)
    × (retries batch_events ≤ tries batch_events)
    × (retries batch_events + 1 ≤ attempts_of endpoint)
process_batch_budget_example =
    process_batch_budget endpoint 9 true (pos 40) (pos 40) recovering calm process_batch_run

abbrev endpoint_credentials : Credentials
endpoint_credentials = record {
  headers = (codes "X-Org", codes "7") ∷ (codes "Authorization", codes "none") ∷ [];
  basic_auth_user = codes "me";
  basic_auth_pass = codes "secret";
  bearer_token = [];
}

abbrev plain64 : Bytes → Bytes
plain64 s = s

endpoint_credentials-IsMap : IsMap endpoint_credentials.headers
unfolding lookup equal
endpoint_credentials-IsMap = (refl, (refl, tt))

compose_headers-lookup_example :
    lookup (codes "Authorization") (compose_headers plain64 endpoint_credentials) ≡ (
      if equal (codes "Authorization") (codes "Authorization") && is_set []
      then some (codes "Bearer " ++ [])
      else if equal (codes "Authorization") (codes "Authorization") && is_set (codes "me")
      then some (basic_auth_header plain64 (codes "me") (codes "secret"))
      else lookup (codes "Authorization") endpoint_credentials.headers)
compose_headers-lookup_example =
    compose_headers-lookup plain64 endpoint_credentials (codes "Authorization")
      endpoint_credentials-IsMap

abbrev pass : Dequeued ℕ → Pass ℕ
pass d = record {
  dequeued = d;
  encoded = true;
  now_allow = pos 40;
  now_start = pos 40;
  env = recovering;
}

abbrev two_passes : List (Pass ℕ)
two_passes = pass (got (1 ∷ 2 ∷ [])) ∷ pass (got (3 ∷ [])) ∷ pass queue_closed ∷ []

run-Accounted_example : Accounted (run endpoint two_passes calm) (taken two_passes)
run-Accounted_example =
    run-Accounted endpoint max_of_endpoint two_passes calm
      (recovering-IsDraw, (recovering-IsDraw, (recovering-IsDraw, tt)))
