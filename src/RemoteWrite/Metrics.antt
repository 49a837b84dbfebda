-- ===== src/RemoteWrite/Metrics.antt =====
-- internal/remotewrite/metrics.go: what the observers of an endpoint do to its metrics. Counters are
-- natural numbers, so that the rounding of float64 from 2^53 on is left out; a histogram is its
-- observations, and a gauge that was never set is `none`. Registration is left out.
pub mod Flow
pub mod Counted
pub mod Balance
use ollama_exporter.Base.{
  if◌then◌else◌, ℤ, pos, negsuc, Bytes, codes, equal, ℕ, suc, ◌+◌, ◌/◌, Option, none, some, List,
  [], ◌∷◌,
}
use ollama_exporter.RemoteWrite.Queue.{QueueEvent, set_capacity, on_enqueue, on_dequeue, on_drop}
use ollama_exporter.RemoteWrite.Breaker.{BreakerState, state_value}
use ollama_exporter.RemoteWrite.Wire.{second}
use ollama_exporter.RemoteWrite.Sender.{
  Outcome, success, retryable_error, non_retryable_error, timeout, Reason, non_retryable,
  retry_budget_exhausted, breaker_open, shutdown_drain, SenderEvent, on_send_outcome,
  on_samples_sent, on_samples_failed, on_samples_dropped, on_retry, on_last_send,
}

-- A vector of counters by the one label beside the endpoint.
abbrev pub Counters : Type 0
Counters = List (Bytes × ℕ)

-- `vec.WithLabelValues(endpoint, label).Add(n)`
unfoldable pub add_at : Bytes → ℕ → Counters → Counters
add_at k n [] = (k, n) ∷ []
add_at k n ((j, v) ∷ m) = if equal j k then (j, v + n) ∷ m else (j, v) ∷ add_at k n m

unfoldable pub reason_label : Reason → Bytes
reason_label non_retryable = codes "non_retryable"
reason_label retry_budget_exhausted = codes "retry_budget_exhausted"
reason_label breaker_open = codes "breaker_open"
reason_label shutdown_drain = codes "shutdown_drain"

unfoldable pub outcome_label : Outcome → Bytes
outcome_label success = codes "success"
outcome_label retryable_error = codes "retryable_error"
outcome_label non_retryable_error = codes "non_retryable_error"
outcome_label timeout = codes "timeout"

-- `t.Unix()`: whole seconds, rounded down.
unfoldable pub unix : ℤ → ℤ
unix (pos n) = pos (n / second)
unix (negsuc n) = negsuc (n / second)

-- The series of one endpoint.
pub record SelfMetrics : Type 0 where
  pub samples_total : ℕ
  pub samples_failed : Counters
  pub samples_dropped : Counters
  pub send_duration : List (Bytes × ℤ)
  pub queue_length : Option ℕ
  pub queue_capacity : Option ℕ
  pub last_send_ts : Option ℤ
  pub retries_total : ℕ
  pub breaker_state : Option ℕ

unfoldable pub new_self_metrics : SelfMetrics
new_self_metrics = record {
  samples_total = 0;
  samples_failed = [];
  samples_dropped = [];
  send_duration = [];
  queue_length = none;
  queue_capacity = none;
  last_send_ts = none;
  retries_total = 0;
  breaker_state = none;
}

-- `queueObs`
unfoldable pub observe_queue : QueueEvent → SelfMetrics → SelfMetrics
unfolding add_at
observe_queue (on_enqueue length) m = record m { queue_length = some length }
observe_queue (on_dequeue length) m = record m { queue_length = some length }
observe_queue (set_capacity c) m = record m { queue_capacity = some c }
observe_queue (on_drop n) m = record m {
  samples_dropped = add_at (codes "queue_full") n m.samples_dropped;
}

-- `senderObs`
unfoldable pub observe_sender : SenderEvent → SelfMetrics → SelfMetrics
unfolding add_at reason_label outcome_label unix
observe_sender (on_send_outcome outcome d) m = record m {
  send_duration = (outcome_label outcome, d) ∷ m.send_duration;
}
observe_sender (on_samples_sent n) m = record m { samples_total = m.samples_total + n }
observe_sender (on_samples_failed reason n) m = record m {
  samples_failed = add_at (reason_label reason) n m.samples_failed;
}
observe_sender (on_samples_dropped reason n) m = record m {
  samples_dropped = add_at (reason_label reason) n m.samples_dropped;
}
observe_sender on_retry m = record m { retries_total = suc m.retries_total }
observe_sender (on_last_send t) m = record m { last_send_ts = some (unix t) }

-- `breakerObs`
unfoldable pub observe_breaker : BreakerState → SelfMetrics → SelfMetrics
observe_breaker state m = record m { breaker_state = some (state_value state) }
