-- ===== src/RemoteWrite/Metrics/Balance.antt =====
-- The counters of samples on /metrics against the samples that the pusher enqueued.
use ollama_exporter.Base.{
  if◌then◌else◌, length, sum_of, sum_of-append, All, ◌<ℤ◌, two63, ℤ, pos, ℕ, ◌+◌, ◌-◌, ◌≡◌, refl,
  ap, subst, Bool, true, Option, none, some, List, [], ◌∷◌, ◌++◌, map, arith,
}
use ollama_exporter.RemoteWrite.Queue.{
  CtxErr, Dequeued, blocked, got, queue_closed, ctx_err, enqueue, dequeue, close, take_head,
}
use ollama_exporter.RemoteWrite.Queue.Fifo.{contents}
use ollama_exporter.RemoteWrite.Queue.Inv.{
  IsValid, enqueue-IsValid, dequeue-IsValid, close-IsValid, enqueue_kept,
}
use ollama_exporter.RemoteWrite.Queue.Accounting.{
  samples, delivered_in, dropped_in-enqueue, delivered_in-dequeue,
}
use ollama_exporter.RemoteWrite.Sender.{EndpointConfig, Attempt, max_of}
use ollama_exporter.RemoteWrite.Sender.Backoff.{IsDraw}
use ollama_exporter.RemoteWrite.Sender.Accounts.{entries, process_batch_ends}
use ollama_exporter.RemoteWrite.Sender.Loop.{amount, BatchEnds-amounts}
use ollama_exporter.RemoteWrite.Sender.Total.{process_batch_returns}
use ollama_exporter.RemoteWrite.Metrics.Flow.{
  Observed, by_queue, by_sender, Flow, Step, flushes, takes, finishes, closes, observes, pick,
  taken, put, take_batch, finish, work, call_observer, step, steps,
}
use ollama_exporter.RemoteWrite.Metrics.Counted.{
  reported, samples_of, sum_of-map, Picked, reported-observe, samples_of-queue, samples_of-sender,
  pick-Picked,
}

module _ {A : Type 0} where
  abbrev pub in_flight : Option (List A) → ℕ
  in_flight none = 0
  in_flight (some batch) = length batch

  -- The samples that are on /metrics, on their way there, with the sender or in the queue are so
  -- many.
  pub record IsBalanced (n : ℕ) (f : Flow A) : Type 0 where
    pub valid : IsValid f.queue
    pub balance :
        reported f.metrics
          + sum_of samples_of f.calls
          + in_flight f.busy
          + samples (contents f.queue)
        ≡ n

  -- The samples that are flushed into an open queue.
  abbrev pub accepted : Bool → List (Step A) → ℕ
  accepted closed [] = 0
  accepted closed (flushes batch ∷ ss) = (if closed then 0 else length batch) + accepted closed ss
  accepted closed (takes err ∷ ss) = accepted closed ss
  accepted closed (finishes encoded now_allow now_start env ∷ ss) = accepted closed ss
  accepted closed (closes ∷ ss) = accepted true ss
  accepted closed (observes i ∷ ss) = accepted closed ss

  -- The random source of a step keeps to its range.
  abbrev pub HasDraws : Step A → Type 0
  HasDraws (finishes encoded now_allow now_start env) = (i : ℕ) → IsDraw (env i).draw
  HasDraws _ = Unit

  put-IsBalanced :
      (batch : List A) (n : ℕ) (f : Flow A)
      → IsBalanced n f
      → IsBalanced
          (n + (if f.queue.closed then 0 else length batch))
          (put (enqueue f.queue batch) f)
  unfolding put
  put-IsBalanced batch n f b = record {
    valid = enqueue-IsValid batch b.valid;
    balance = omega (
      arith,
      b.balance,
      dropped_in-enqueue batch b.valid,
      sum_of-append samples_of f.calls (map by_queue (enqueue f.queue batch).1),
      samples_of-queue (enqueue f.queue batch).1,
    );
  }

  in_flight-taken : (d : Dequeued A) → in_flight (taken d) ≡ delivered_in d
  unfolding taken
  in_flight-taken blocked = refl
  in_flight-taken (got batch) = refl
  in_flight-taken queue_closed = refl
  in_flight-taken (ctx_err e) = refl

  take_batch-IsBalanced :
      (err : Option CtxErr) (n : ℕ) (f : Flow A) (busy : Option (List A))
      → f.busy ≡ busy
      → IsBalanced n f
      → IsBalanced n (take_batch err busy f)
  unfolding take_batch
  take_batch-IsBalanced err n f (some batch) e b = b
  take_batch-IsBalanced err n f none e b =
      let (q, d, es) = dequeue f.queue err in
      let (kept, quiet) = delivered_in-dequeue err b.valid in
      record {
        valid = dequeue-IsValid err b.valid;
        balance = omega (
          arith,
          b.balance,
          ap in_flight e,
          kept,
          quiet,
          in_flight-taken d,
          sum_of-append samples_of f.calls (map by_queue es),
          samples_of-queue es,
        );
      }

  call_observer-IsBalanced :
      (n : ℕ) (f : Flow A) (r : Option (Observed × List Observed))
      → Picked f.calls r
      → IsBalanced n f
      → IsBalanced n (call_observer r f)
  unfolding call_observer Picked
  call_observer-IsBalanced n f none p b = b
  call_observer-IsBalanced n f (some (o, os)) p b = record {
    valid = b.valid;
    balance = omega (arith, b.balance, p, reported-observe o f.metrics);
  }

  take_batch-closed :
      (err : Option CtxErr) (busy : Option (List A)) (f : Flow A)
      → (take_batch err busy f).queue.closed ≡ f.queue.closed
  unfolding take_batch dequeue take_head
  take_batch-closed err none f = ground arith
  take_batch-closed err (some batch) f = refl

  call_observer-closed :
      (r : Option (Observed × List Observed)) (f : Flow A)
      → (call_observer r f).queue.closed ≡ f.queue.closed
  unfolding call_observer
  call_observer-closed none f = refl
  call_observer-closed (some (o, os)) f = refl

  -- A step that does not panic, and keeps the balance of so many samples.
  abbrev Goes : ℕ → Bool → Option (Flow A) → Type 0
  Goes n closed r = (g : Flow A) × (r ≡ some g) × IsBalanced n g × (g.queue.closed ≡ closed)

module _ {A : Type 0} (cfg : EndpointConfig) (m : max_of cfg <ℤ pos (two63 - 1)) where
  work-Goes :
      (encoded : Bool) (now_allow now_start : ℤ) (env : ℕ → Attempt) (n : ℕ) (f : Flow A)
      (busy : Option (List A))
      → ((i : ℕ) → IsDraw (env i).draw)
      → f.busy ≡ busy
      → IsBalanced n f
      → Goes n f.queue.closed (work cfg encoded now_allow now_start env busy f)
  unfolding work finish
  work-Goes encoded now_allow now_start env n f none d e b = (f, refl, b, refl)
  work-Goes encoded now_allow now_start env n f (some batch) d e b =
      let (cb, es, done) =
        process_batch_returns cfg m (length batch) encoded now_allow now_start env f.breaker d in
      let one =
        BatchEnds-amounts
          (process_batch_ends cfg (length batch) encoded now_allow now_start env f.breaker done) in
      (
        record f { breaker = cb; busy = none; calls = f.calls ++ map by_sender es },
        ap (λ r. finish r f) done,
        record {
          valid = b.valid;
          balance = omega (
            arith,
            b.balance,
            ap in_flight e,
            sum_of-append samples_of f.calls (map by_sender es),
            samples_of-sender es,
            ap (sum_of (λ (i : ℕ). i)) one,
            sum_of-map amount (entries es),
          );
        },
        refl,
      )

  step-Goes :
      (s : Step A) (ss : List (Step A)) (n : ℕ) (f : Flow A)
      → HasDraws s
      → IsBalanced n f
      → (g : Flow A) × (k : ℕ) × (step cfg s f ≡ some g)
        × IsBalanced k g
        × (k + accepted g.queue.closed ss ≡ n + accepted f.queue.closed (s ∷ ss))
  unfolding step
  step-Goes (flushes batch) ss n f d b = (
    put (enqueue f.queue batch) f,
    n + (if f.queue.closed then 0 else length batch),
    refl,
    put-IsBalanced batch n f b,
    unfold put in rw ((enqueue_kept f.queue batch b.valid).1) (omega arith),
  )
  step-Goes (takes err) ss n f d b = (
    take_batch err f.busy f,
    n,
    refl,
    take_batch-IsBalanced err n f f.busy refl b,
    ap (λ (c : Bool). n + accepted c ss) (take_batch-closed err f.busy f),
  )
  step-Goes (finishes encoded now_allow now_start env) ss n f d b =
      let (g, e, k, c) = work-Goes encoded now_allow now_start env n f f.busy d refl b in
      (g, n, e, k, ap (λ (i : Bool). n + accepted i ss) c)
  step-Goes closes ss n f d b = (
    record f { queue = close f.queue },
    n,
    refl,
    record { valid = close-IsValid b.valid; balance = unfold close in b.balance },
    unfold close in refl,
  )
  step-Goes (observes i) ss n f d b = (
    call_observer (pick i f.calls) f,
    n,
    refl,
    call_observer-IsBalanced n f (pick i f.calls) (pick-Picked i f.calls) b,
    ap (λ (c : Bool). n + accepted c ss) (call_observer-closed (pick i f.calls) f),
  )

  -- With a maximal backoff below the largest int64 and a random source that keeps to its range, no
  -- sequence of flushes, closings, takings, batches worked off and calls of the observers panics,
  -- in whatever order they come; and after it every sample that was flushed into the open queue is
  -- counted once as sent, failed or dropped, or its call is still to be made, or the sender or the
  -- queue holds it.
  pub steps-IsBalanced :
      (ss : List (Step A)) (n : ℕ) (f : Flow A)
      → All HasDraws ss
      → IsBalanced n f
      → (g : Flow A) × (steps cfg ss f ≡ some g) × IsBalanced (n + accepted f.queue.closed ss) g
  unfolding steps
  steps-IsBalanced [] n f d b = (f, refl, subst (λ (k : ℕ). IsBalanced k f) (omega arith) b)
  steps-IsBalanced (s ∷ ss) n f d b =
      let (g, k, e, c, q) = step-Goes s ss n f d.0 b in
      let (h, r, z) = steps-IsBalanced ss k g d.1 c in
      (h, rw (e, steps) r, subst (λ (i : ℕ). IsBalanced i h) q z)
