-- ===== src/RemoteWrite/Queue/Waiters.antt =====
-- `sync.Cond` and the consumers that wait on it: `Wait` sleeps, `Signal` wakes one sleeper if there
-- is one, `Broadcast` wakes all. A woken consumer goes round the loop of `Dequeue` once more when
-- it next holds the mutex; other consumers may come first.
use ollama_exporter.Base.{
  ◌==◌, if◌then◌else◌, ℤ, ℕ, ◌+◌, ◌-◌, ◌≤◌, ◌<◌, ◌≡◌, Bool, true, false, Option, List, arith,
}
use ollama_exporter.RemoteWrite.Queue.{
  Queue, CtxErr, Dequeued, blocked, new_queue, enqueue, dequeue, dequeue_empty, close, take_head,
}
use ollama_exporter.RemoteWrite.Queue.Inv.{
  IsValid, new_queue-IsValid, enqueue-IsValid, dequeue-IsValid,
}
use ollama_exporter.RemoteWrite.Queue.Inv.{close-IsValid, enqueue_kept}

pub record Waiters (A : Type 0) : Type 0 where
  pub queue : Queue A
  pub asleep : ℕ
  pub woken : ℕ

module _ {A : Type 0} where
  -- `Enqueue` returns before its `Signal` when the queue is closed.
  unfoldable pub signal : Bool → Waiters A → Waiters A
  signal true w = w
  signal false w =
      if w.asleep == 0 then w else record w { asleep = w.asleep - 1; woken = w.woken + 1 }

  unfoldable pub broadcast : Waiters A → Waiters A
  broadcast w = record w { asleep = 0; woken = w.woken + w.asleep }

  abbrev pub sleepers : Dequeued A → ℕ
  sleepers blocked = 1
  sleepers _ = 0

  -- One pass of a consumer through `Dequeue`, up to its return or its `Wait`.
  unfoldable pub attempt : Waiters A → Option CtxErr → Waiters A
  attempt w err =
      let (q, d, events) = dequeue w.queue err in
      record w { queue = q; asleep = w.asleep + sleepers d }

pub data Step {A : Type 0} (w w' : Waiters A) : Type 0 where
  enqueues :
      (batch : List A)
      → w' ≡ signal w.queue.closed (record w { queue = (enqueue w.queue batch).0 })
      → Step w w'
  dequeues : (err : Option CtxErr) → w' ≡ attempt w err → Step w w'
  wakes :
      (err : Option CtxErr)
      → 0 < w.woken
      → w' ≡ attempt (record w { woken = w.woken - 1 }) err
      → Step w w'
  -- `Close` of the queue.
  closes : w' ≡ broadcast (record w { queue = close w.queue }) → Step w w'
  -- The goroutine that watches a consumer's context.
  cancels : w' ≡ broadcast w → Step w w'

pub data Reach {A : Type 0} (w : Waiters A) : Waiters A → Type 0 where
  here : Reach w w
  next : {u v : Waiters A} → Reach w u → Step u v → Reach w v

-- No wake-up is lost.
pub record IsAwake {A : Type 0} (w : Waiters A) : Type 0 where
  pub valid : IsValid w.queue
  pub enough : 0 < w.asleep → w.queue.size ≤ w.woken
  pub released : w.queue.closed ≡ true → w.asleep ≡ 0

module _ {A : Type 0} where
  pub dequeue_kept :
      (q : Queue A) (err : Option CtxErr)
      → ((dequeue q err).0.closed ≡ q.closed)
        × ((dequeue q err).0.size ≡ q.size - 1)
        × (sleepers (dequeue q err).1 ≤ 1)
        × (0 < sleepers (dequeue q err).1 → (q.size ≡ 0) × (q.closed ≡ false))
  unfolding dequeue dequeue_empty take_head
  dequeue_kept q err = ground arith

  attempt-IsAwake :
      (w : Waiters A) (err : Option CtxErr)
      → IsValid w.queue
      → (0 < w.asleep → w.queue.size ≤ w.woken + 1)
      → (w.queue.closed ≡ true → w.asleep ≡ 0)
      → IsAwake (attempt w err)
  unfolding attempt
  attempt-IsAwake w err v e r = ground (arith, dequeue_kept w.queue err, dequeue-IsValid err v)

  Step-IsAwake : {w w' : Waiters A} → Step w w' → IsAwake w → IsAwake w'
  unfolding signal broadcast close
  Step-IsAwake {w} (enqueues batch e) a =
      ground (arith, enqueue-IsValid batch a.valid, enqueue_kept w.queue batch a.valid)
  Step-IsAwake {w} (dequeues err e) a =
      rw e (attempt-IsAwake w err a.valid (λ h. omega arith) a.released)
  Step-IsAwake {w} (wakes err h e) a =
      rw e (
        attempt-IsAwake (record w { woken = w.woken - 1 }) err a.valid (λ h. omega arith)
          a.released)
  Step-IsAwake (closes e) a = ground (arith, close-IsValid a.valid)
  Step-IsAwake (cancels e) a = ground arith

  -- Every state that calls of `Enqueue`, `Dequeue` and `Close` and cancelled contexts can bring
  -- about from a new queue, in any order, is valid, has a consumer on its way for each batch
  -- while one still sleeps, and has none asleep once the queue is closed.
  pub Reach-IsAwake :
      (c : ℤ) {w : Waiters A}
      → Reach (record { queue = (new_queue c).0; asleep = 0; woken = 0 }) w
      → IsAwake w
  unfolding new_queue
  Reach-IsAwake c here = record {
    valid = new_queue-IsValid c;
    enough = λ h. omega arith;
    released = λ e. cc;
  }
  Reach-IsAwake c (next r s) = Step-IsAwake s (Reach-IsAwake c r)
