-- ===== src/RemoteWrite/Queue.antt =====
-- internal/remotewrite/queue.go: the ring buffer of batches. Each method holds the mutex from its
-- first access of the state to its last, so a method is one step; `Queue/Waiters.antt` has the waits.
-- A batch is a slice of samples of any type; a nil batch is the empty list.
pub mod Fifo
pub mod Inv
pub mod Refine
pub mod Overflow
pub mod Accounting
pub mod Waiters
use ollama_exporter.Base.{
  ltb, ◌==◌, if◌then◌else◌, length, get_or, set, replicate, pos_part, ltb_ℤ, ℤ, pos, ℕ, ◌+◌, ◌-◌,
  ◌%◌, Bool, true, false, Option, none, some, List, [], ◌∷◌, ◌++◌,
}

-- The calls of `QueueObserver`. The reason of a drop is always "queue_full".
pub data QueueEvent : Type 0 where
  set_capacity : ℕ → QueueEvent
  on_enqueue : ℕ → QueueEvent
  on_dequeue : ℕ → QueueEvent
  on_drop : ℕ → QueueEvent

-- `ctx.Err()` once it is not nil.
pub data CtxErr : Type 0 where
  canceled deadline_exceeded : CtxErr

pub record Queue (A : Type 0) : Type 0 where
  pub buf : List (List A)
  pub head : ℕ
  pub size : ℕ
  pub cap : ℕ
  pub closed : Bool

-- What a pass through `Dequeue` comes to: `blocked` is `q.cond.Wait()`.
pub data Dequeued (A : Type 0) : Type 0 where
  blocked : Dequeued A
  got : List A → Dequeued A
  queue_closed : Dequeued A
  ctx_err : CtxErr → Dequeued A

-- `if droppedSize > 0 { q.observer.OnDrop(...) }`
unfoldable pub drop_events : ℕ → List QueueEvent
drop_events dropped = if ltb 0 dropped then on_drop dropped ∷ [] else []

module _ {A : Type 0} where
  unfoldable pub new_queue : ℤ → Queue A × List QueueEvent
  new_queue capacity =
      let c = if ltb_ℤ capacity (pos 1) then 1 else pos_part capacity in
      (
        record { buf = replicate c []; head = 0; size = 0; cap = c; closed = false },
        set_capacity c ∷ [],
      )

  -- `q.buf[q.head] = nil`, the head moved on, and the size one less: in both methods.
  unfoldable pub take_head : Queue A → Queue A
  take_head q = record q {
    buf = set q.buf q.head [];
    head = (q.head + 1) % q.cap;
    size = q.size - 1;
  }

  -- The block under `if q.size == q.cap`, with `droppedSize`.
  unfoldable pub evict : Queue A → Queue A × ℕ
  evict q = (take_head q, length (get_or q.buf q.head []))

  unfoldable pub append_tail : Queue A → List A → Queue A
  append_tail q batch = record q {
    buf = set q.buf ((q.head + q.size) % q.cap) batch;
    size = q.size + 1;
  }

  unfoldable pub make_room : Queue A → Queue A × ℕ
  make_room q = if q.size == q.cap then evict q else (q, 0)

  unfoldable pub enqueue : Queue A → List A → Queue A × List QueueEvent
  enqueue q batch =
      if q.closed
      then (q, [])
      else let (r, dropped) = make_room q in
        let s = append_tail r batch in (s, drop_events dropped ++ on_enqueue s.size ∷ [])

  -- Behind the loop, at `q.size == 0`: `q.closed` is looked at before the context.
  unfoldable pub dequeue_empty : Bool → Option CtxErr → Dequeued A
  dequeue_empty true err = queue_closed
  dequeue_empty false none = blocked
  dequeue_empty false (some e) = ctx_err e

  unfoldable pub dequeue : Queue A → Option CtxErr → Queue A × Dequeued A × List QueueEvent
  dequeue q err =
      if q.size == 0
      then (q, dequeue_empty q.closed err, [])
      else let r = take_head q in (r, got (get_or q.buf q.head []), on_dequeue r.size ∷ [])

  unfoldable pub len : Queue A → ℕ
  len q = q.size

  unfoldable pub capacity : Queue A → ℕ
  capacity q = q.cap

  unfoldable pub close : Queue A → Queue A
  close q = record q { closed = true }
