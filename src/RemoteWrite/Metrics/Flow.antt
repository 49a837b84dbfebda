-- ===== src/RemoteWrite/Metrics/Flow.antt =====
-- One endpoint as build.go wires it: its queue, its sender and their observers. The pusher's
-- goroutine enqueues, the sender's takes a batch and is busy with it, and a call of an observer is
-- made some time after the queue's mutex is released, so that the calls may come in any order.
use ollama_exporter.Base.{
  length, ℤ, ℕ, zero, suc, Bool, Option, none, some, List, [], ◌∷◌, ◌++◌, map,
}
use ollama_exporter.RemoteWrite.Queue.{
  Queue, QueueEvent, CtxErr, Dequeued, blocked, got, queue_closed, ctx_err, enqueue, dequeue, close,
}
use ollama_exporter.RemoteWrite.Breaker.{Breaker}
use ollama_exporter.RemoteWrite.Sender.{
  EndpointConfig, SenderEvent, Attempt, process_batch, Processed,
}
use ollama_exporter.RemoteWrite.Metrics.{SelfMetrics, observe_queue, observe_sender}

-- A call of an observer.
pub data Observed : Type 0 where
  by_queue : QueueEvent → Observed
  by_sender : SenderEvent → Observed

unfoldable pub observe : Observed → SelfMetrics → SelfMetrics
unfolding observe_queue observe_sender
observe (by_queue e) m = observe_queue e m
observe (by_sender e) m = observe_sender e m

-- `busy` is the batch that the sender works on, and `calls` are those still to be made.
pub record Flow (A : Type 0) : Type 0 where
  pub queue : Queue A
  pub breaker : Breaker
  pub busy : Option (List A)
  pub calls : List Observed
  pub metrics : SelfMetrics

pub data Step (A : Type 0) : Type 0 where
  flushes : List A → Step A
  takes : Option CtxErr → Step A
  finishes : Bool → ℤ → ℤ → (ℕ → Attempt) → Step A
  closes : Step A
  observes : ℕ → Step A

-- The call at a place, and the others.
unfoldable pub pick : ℕ → List Observed → Option (Observed × List Observed)
pick i [] = none
pick zero (o ∷ os) = some (o, os)
pick (suc i) (o ∷ os) = elim (pick i os) [ none ↦ none | some (p, ps) ↦ some (p, o ∷ ps) ]

module _ {A : Type 0} where
  unfoldable pub taken : Dequeued A → Option (List A)
  taken blocked = none
  taken (got batch) = some batch
  taken queue_closed = none
  taken (ctx_err e) = none

  unfoldable pub put : Queue A × List QueueEvent → Flow A → Flow A
  put (q, es) f = record f { queue = q; calls = f.calls ++ map by_queue es }

  -- A sender that is busy does not call `Dequeue`.
  unfoldable pub take_batch : Option CtxErr → Option (List A) → Flow A → Flow A
  unfolding taken
  take_batch err (some batch) f = f
  take_batch err none f =
      let (q, d, es) = dequeue f.queue err in
      record f { queue = q; busy = taken d; calls = f.calls ++ map by_queue es }

  -- `none` is a panic.
  unfoldable pub finish : Processed → Flow A → Option (Flow A)
  finish none f = none
  finish (some (cb, es)) f =
      some (record f { breaker = cb; busy = none; calls = f.calls ++ map by_sender es })

  unfoldable pub work :
      EndpointConfig → Bool → ℤ → ℤ → (ℕ → Attempt) → Option (List A) → Flow A → Option (Flow A)
  unfolding finish
  work cfg encoded now_allow now_start env none f = some f
  work cfg encoded now_allow now_start env (some batch) f =
      finish (process_batch cfg (length batch) encoded now_allow now_start env f.breaker) f

  unfoldable pub call_observer : Option (Observed × List Observed) → Flow A → Flow A
  call_observer none f = f
  call_observer (some (o, os)) f = record f { calls = os; metrics = observe o f.metrics }

  unfoldable pub step : EndpointConfig → Step A → Flow A → Option (Flow A)
  unfolding put take_batch work call_observer pick
  step cfg (flushes batch) f = some (put (enqueue f.queue batch) f)
  step cfg (takes err) f = some (take_batch err f.busy f)
  step cfg (finishes encoded now_allow now_start env) f =
      work cfg encoded now_allow now_start env f.busy f
  step cfg closes f = some (record f { queue = close f.queue })
  step cfg (observes i) f = some (call_observer (pick i f.calls) f)

  unfoldable pub steps : EndpointConfig → List (Step A) → Flow A → Option (Flow A)
  unfolding step
  steps cfg [] f = some f
  steps cfg (s ∷ ss) f = elim (step cfg s f) [ none ↦ none | some g ↦ steps cfg ss g ]
