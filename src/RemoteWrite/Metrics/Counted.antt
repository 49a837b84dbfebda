-- ===== src/RemoteWrite/Metrics/Counted.antt =====
-- What one call of an observer adds to the counters of samples, and what a list of calls does.
use ollama_exporter.Base.{
  sum_of, Bytes, ℕ, zero, suc, ◌+◌, ◌≡◌, refl, ap, Option, none, some, List, [], ◌∷◌, map, arith,
}
use ollama_exporter.RemoteWrite.Queue.{QueueEvent, set_capacity, on_enqueue, on_dequeue, on_drop}
use ollama_exporter.RemoteWrite.Queue.Accounting.{dropped_in}
use ollama_exporter.RemoteWrite.Sender.{
  SenderEvent, on_send_outcome, on_samples_sent, on_samples_failed, on_samples_dropped, on_retry,
  on_last_send,
}
use ollama_exporter.RemoteWrite.Sender.Accounts.{entries}
use ollama_exporter.RemoteWrite.Sender.Loop.{amount}
use ollama_exporter.RemoteWrite.Metrics.{
  Counters, add_at, SelfMetrics, observe_queue, observe_sender,
}
use ollama_exporter.RemoteWrite.Metrics.Flow.{Observed, by_queue, by_sender, observe, pick}

abbrev pub value : Bytes × ℕ → ℕ
value e = e.1

-- The samples that the counters account for: sent, failed for any reason, and dropped for any.
abbrev pub reported : SelfMetrics → ℕ
reported m = m.samples_total + sum_of value m.samples_failed + sum_of value m.samples_dropped

-- What a call adds to them.
abbrev pub samples_of : Observed → ℕ
samples_of (by_queue (on_drop n)) = n
samples_of (by_queue _) = 0
samples_of (by_sender (on_samples_sent n)) = n
samples_of (by_sender (on_samples_failed r n)) = n
samples_of (by_sender (on_samples_dropped r n)) = n
samples_of (by_sender _) = 0

value-add_at : (k : Bytes) (n : ℕ) (m : Counters) → sum_of value (add_at k n m) ≡ sum_of value m + n
unfolding add_at
value-add_at k n [] = omega arith
value-add_at k n ((j, v) ∷ m) = ground (arith, value-add_at k n m)

pub reported-observe :
    (o : Observed) (m : SelfMetrics) → reported (observe o m) ≡ reported m + samples_of o
unfolding observe observe_queue observe_sender
reported-observe (by_queue (on_enqueue n)) m = omega arith
reported-observe (by_queue (on_dequeue n)) m = omega arith
reported-observe (by_queue (set_capacity n)) m = omega arith
reported-observe (by_queue (on_drop n)) m = omega (arith, value-add_at _ n m.samples_dropped)
reported-observe (by_sender (on_send_outcome o d)) m = omega arith
reported-observe (by_sender (on_samples_sent n)) m = omega arith
reported-observe (by_sender (on_samples_failed r n)) m =
    omega (arith, value-add_at _ n m.samples_failed)
reported-observe (by_sender (on_samples_dropped r n)) m =
    omega (arith, value-add_at _ n m.samples_dropped)
reported-observe (by_sender on_retry) m = omega arith
reported-observe (by_sender (on_last_send t)) m = omega arith

pub samples_of-queue : (es : List QueueEvent) → sum_of samples_of (map by_queue es) ≡ dropped_in es
unfolding dropped_in
samples_of-queue [] = refl
samples_of-queue (on_drop n ∷ es) = ap (λ i. n + i) (samples_of-queue es)
samples_of-queue (on_enqueue n ∷ es) = omega (arith, samples_of-queue es)
samples_of-queue (on_dequeue n ∷ es) = omega (arith, samples_of-queue es)
samples_of-queue (set_capacity n ∷ es) = omega (arith, samples_of-queue es)

pub samples_of-sender :
    (es : List SenderEvent) → sum_of samples_of (map by_sender es) ≡ sum_of amount (entries es)
unfolding entries
samples_of-sender [] = refl
samples_of-sender (on_samples_sent n ∷ es) = ap (λ i. n + i) (samples_of-sender es)
samples_of-sender (on_samples_failed r n ∷ es) = ap (λ i. n + i) (samples_of-sender es)
samples_of-sender (on_samples_dropped r n ∷ es) = ap (λ i. n + i) (samples_of-sender es)
samples_of-sender (on_send_outcome o d ∷ es) = omega (arith, samples_of-sender es)
samples_of-sender (on_retry ∷ es) = omega (arith, samples_of-sender es)
samples_of-sender (on_last_send t ∷ es) = omega (arith, samples_of-sender es)

pub sum_of-map {ℓ} :
    {X : Type ℓ} (f : X → ℕ) (xs : List X) → sum_of (λ (i : ℕ). i) (map f xs) ≡ sum_of f xs
sum_of-map f [] = refl
sum_of-map f (x ∷ xs) = ap (λ i. f x + i) (sum_of-map f xs)

-- The calls still to be made, whichever is made next.
unfoldable pub Picked : List Observed → Option (Observed × List Observed) → Type 0
Picked os none = Unit
Picked os (some (o, rest)) = sum_of samples_of os ≡ samples_of o + sum_of samples_of rest

pub pick-Picked : (i : ℕ) (os : List Observed) → Picked os (pick i os)
unfolding pick Picked
pick-Picked i [] = tt
pick-Picked zero (o ∷ os) = refl
pick-Picked (suc i) (o ∷ os) = kept (pick i os) (pick-Picked i os)
  where
    kept :
        (r : Option (Observed × List Observed))
        → Picked os r
        → Picked (o ∷ os) (elim r [ none ↦ none | some (p, ps) ↦ some (p, o ∷ ps) ])
    kept none h = tt
    kept (some (p, ps)) h = omega (arith, h)
