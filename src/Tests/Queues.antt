-- ===== src/Tests/Queues.antt =====
-- internal/remotewrite/queue.go at a ring of two batches of numbers.
use ollama_exporter.Base.{pos, ℕ, ◌≡◌, refl, false, none, [], ◌∷◌, arith}
use ollama_exporter.RemoteWrite.Queue.{Queue, dequeue_empty, new_queue, enqueue, dequeue}
use ollama_exporter.RemoteWrite.Queue.Fifo.{contents, put, take}
use ollama_exporter.RemoteWrite.Queue.Inv.{IsValid}
use ollama_exporter.RemoteWrite.Queue.Refine.{enqueue_refines, dequeue_refines}
use ollama_exporter.RemoteWrite.Queue.Accounting.{
  offer, fetch, shut, Tally, calls, IsBalanced, calls_account,
}
use ollama_exporter.RemoteWrite.Queue.Waiters.{
  Waiters, here, next, dequeues, IsAwake, attempt, Reach-IsAwake,
}

-- Full, and its oldest batch in the second slot.
abbrev full_ring : Queue ℕ
full_ring = record {
  buf = (3 ∷ []) ∷ (1 ∷ 2 ∷ []) ∷ [];
  head = 1;
  size = 2;
  cap = 2;
  closed = false;
}

full_ring-IsValid : IsValid full_ring
full_ring-IsValid = record {
  storage = refl;
  room = omega arith;
  head_in = omega arith;
  size_in = omega arith;
}

enqueue_refines_example :
    contents (enqueue full_ring (4 ∷ [])).0 ≡ put 2 false (contents full_ring) (4 ∷ [])
enqueue_refines_example = enqueue_refines (4 ∷ []) full_ring-IsValid

put_full : put 2 false (contents full_ring) (4 ∷ []) ≡ (3 ∷ []) ∷ (4 ∷ []) ∷ []
unfolding put
put_full = refl

dequeue_refines_example :
    ((dequeue full_ring none).1, contents (dequeue full_ring none).0)
    ≡ take false none (contents full_ring)
dequeue_refines_example = dequeue_refines none full_ring-IsValid

abbrev full_tally : Tally
full_tally = record { accepted = 5; dropped = 1; delivered = 1 }

calls_account_example :
    IsBalanced
      (calls (offer (4 ∷ []) ∷ fetch none ∷ shut ∷ offer (9 ∷ []) ∷ []) (full_ring, full_tally))
calls_account_example =
    calls_account (offer (4 ∷ []) ∷ fetch none ∷ shut ∷ offer (9 ∷ []) ∷ []) full_ring full_tally
      (full_ring-IsValid, refl)

abbrev idle_waiters : Waiters ℕ
idle_waiters = record { queue = (new_queue (pos 2)).0; asleep = 0; woken = 0 }

-- A consumer goes to sleep on the empty queue.
Reach-IsAwake_example : IsAwake (attempt idle_waiters none)
Reach-IsAwake_example = Reach-IsAwake (pos 2) (next here (dequeues none refl))

asleep_after : (attempt idle_waiters none).asleep ≡ 1
unfolding attempt dequeue dequeue_empty new_queue
asleep_after = refl
