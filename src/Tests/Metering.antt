-- ===== src/Tests/Metering.antt =====
-- internal/remotewrite/metrics.go at a queue of one batch and a receiver that fails once.
use ollama_exporter.Base.{pos, ℕ, ◌+◌, ◌≡◌, refl, true, none, some, List, [], ◌∷◌}
use ollama_exporter.RemoteWrite.Queue.{
  new_queue, enqueue, dequeue, drop_events, make_room, append_tail, take_head,
}
use ollama_exporter.RemoteWrite.Build.Ready.{new_queue-IsFresh}
use ollama_exporter.RemoteWrite.Metrics.{new_self_metrics}
use ollama_exporter.RemoteWrite.Metrics.Flow.{
  Flow, Step, flushes, takes, finishes, closes, observes, steps, observe,
}
use ollama_exporter.RemoteWrite.Metrics.Balance.{IsBalanced, accepted, steps-IsBalanced}
use ollama_exporter.Tests.Sends.{endpoint, max_of_endpoint, recovering, recovering-IsDraw, calm}

abbrev idle : Flow ℕ
idle = record {
  queue = (new_queue (pos 1)).0;
  breaker = calm;
  busy = none;
  calls = [];
  metrics = new_self_metrics;
}

idle-IsBalanced : IsBalanced 0 idle
idle-IsBalanced = record {
  valid = (new_queue-IsFresh (pos 1)).0;
  balance = unfold new_queue new_self_metrics in refl;
}

-- The second batch evicts the first; it is sent, and a third comes too late.
abbrev evicting : List (Step ℕ)
evicting =
    flushes (1 ∷ 2 ∷ [])
    ∷ flushes (3 ∷ [])
    ∷ takes none
    ∷ observes 1
    ∷ finishes true (pos 40) (pos 40) recovering
    ∷ closes
    ∷ flushes (4 ∷ [])
    ∷ []

steps-IsBalanced_example :
    (g : Flow ℕ) × (steps endpoint evicting idle ≡ some g)
    × IsBalanced (0 + accepted idle.queue.closed evicting) g
steps-IsBalanced_example =
    steps-IsBalanced endpoint max_of_endpoint evicting 0 idle
      (tt, (tt, (tt, (tt, (recovering-IsDraw, (tt, (tt, tt))))))) idle-IsBalanced

-- The pusher's OnEnqueue comes behind the sender's OnDequeue: the gauge of an empty queue is 1.
abbrev late : List (Step ℕ)
late = flushes (1 ∷ []) ∷ takes none ∷ observes 1 ∷ observes 0 ∷ []

late_gauge :
    (g : Flow ℕ) × (steps endpoint late idle ≡ some g)
    × (g.queue.size ≡ 0)
    × (g.metrics.queue_length ≡ some 1)
unfolding steps enqueue dequeue new_queue drop_events make_room append_tail take_head observe
late_gauge = (_, refl, refl, refl)
