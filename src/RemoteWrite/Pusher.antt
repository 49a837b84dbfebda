-- ===== src/RemoteWrite/Pusher.antt =====
-- internal/remotewrite/pusher.go: `Run`, `flush` and `shutdown`, by what they do to the senders'
-- queues. Each queue is kept with the tally of its samples. The ticker, the gathering of the registry
-- and the senders, which take batches at any time, are the events of a run; the context ends it.
pub mod Deliver
use ollama_exporter.Base.{
  ◌==◌, if◌then◌else◌, length, ℕ, zero, suc, not, ◌||◌, Option, none, some, List, [], ◌∷◌,
}
use ollama_exporter.RemoteWrite.Queue.{Queue, CtxErr}
use ollama_exporter.RemoteWrite.Queue.Accounting.{Call, Tally, offer, fetch, shut, call}
use ollama_exporter.RemoteWrite.Build.{Pusher, Sender}

abbrev pub Feed : Type 0 → Type 0
Feed A = Queue A × Tally

pub data Event (A : Type 0) : Type 0 where
  tick : Option (List A) → Event A
  sender_takes : ℕ → Option CtxErr → Event A

module _ {A : Type 0} where
  unfoldable pub call_each : Call A → List (Feed A) → List (Feed A)
  call_each c [] = []
  call_each c (s ∷ ss) = call c s ∷ call_each c ss

  -- One sender's loop calls its queue.
  unfoldable pub call_at : ℕ → Call A → List (Feed A) → List (Feed A)
  call_at i c [] = []
  call_at zero c (s ∷ ss) = call c s ∷ ss
  call_at (suc i) c (s ∷ ss) = s ∷ call_at i c ss

  -- A failed gathering, or one without samples, enqueues nothing.
  unfoldable pub enqueue_batch : Option (List A) → List (Feed A) → List (Feed A)
  unfolding call_each
  enqueue_batch none ss = ss
  enqueue_batch (some []) ss = ss
  enqueue_batch (some (x ∷ xs)) ss = call_each (offer (x ∷ xs)) ss

  unfoldable pub flush : Pusher A → Option (List A) → List (Feed A) → List (Feed A)
  unfolding enqueue_batch
  flush p gathered ss =
      if not p.has_gatherer || length p.senders == 0 then ss else enqueue_batch gathered ss

  unfoldable pub serve : Pusher A → List (Event A) → List (Feed A) → List (Feed A)
  unfolding call_at
  serve p [] ss = ss
  serve p (tick gathered ∷ es) ss = serve p es (flush p gathered ss)
  serve p (sender_takes i e ∷ es) ss = serve p es (call_at i (fetch e) ss)

  -- `shutdown`: the queues are closed. The senders drain them, and give up when the window is over
  -- and their context is cancelled.
  unfoldable pub drain : List (ℕ × Option CtxErr) → List (Feed A) → List (Feed A)
  unfolding call_at
  drain [] ss = ss
  drain ((i, e) ∷ es) ss = drain es (call_at i (fetch e) ss)

  unfoldable pub shutdown : List (ℕ × Option CtxErr) → List (Feed A) → List (Feed A)
  unfolding call_each drain
  shutdown draining ss = drain draining (call_each shut ss)

  unfoldable pub start : List (Sender A) → List (Feed A)
  start [] = []
  start (s ∷ ss) = (s.queue, record { accepted = 0; dropped = 0; delivered = 0 }) ∷ start ss

  -- `Run`: a flush at once, the events until the context is done, and the shutdown.
  unfoldable pub run_pusher :
      Pusher A → Option (List A) → List (Event A) → List (ℕ × Option CtxErr) → List (Feed A)
  unfolding serve shutdown start
  run_pusher p first events draining =
      shutdown draining (serve p events (flush p first (start p.senders)))
