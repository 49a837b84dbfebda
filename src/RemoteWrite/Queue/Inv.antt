-- ===== src/RemoteWrite/Queue/Inv.antt =====
-- The representation invariant of the ring: indices in range, and the capacity positive.
use ollama_exporter.Base.{
  if◌then◌else◌, length, length-set, length-replicate, ℤ, ◌+◌, ◌%◌, ◌≤◌, ◌<◌, min, ◌≡◌, false,
  Option, List, [], arith,
}
use ollama_exporter.RemoteWrite.Queue.{
  Queue, CtxErr, new_queue, evict, make_room, append_tail, enqueue, dequeue, close, take_head,
}

pub record IsValid {A : Type 0} (q : Queue A) : Type 0 where
  pub storage : length q.buf ≡ q.cap
  pub room : 0 < q.cap
  pub head_in : q.head < q.cap
  pub size_in : q.size ≤ q.cap

module _ {A : Type 0} where
  -- Whatever capacity is asked for, a new queue is valid, empty and open.
  pub new_queue-IsValid : (c : ℤ) → IsValid (new_queue {A = A} c).0
  unfolding new_queue
  new_queue-IsValid c = grind (arith, length-replicate)

  pub take_head-IsValid : {q : Queue A} → IsValid q → IsValid (take_head q)
  unfolding take_head
  take_head-IsValid {q} v = ground (arith, length-set q.buf q.head [])

  pub append_tail-IsValid :
      {q : Queue A} (batch : List A) → IsValid q → q.size < q.cap → IsValid (append_tail q batch)
  unfolding append_tail
  append_tail-IsValid {q} batch v lt =
      ground (arith, length-set q.buf ((q.head + q.size) % q.cap) batch)

  -- Once room is made there is place for one more batch.
  pub make_room-IsValid :
      {q : Queue A}
      → IsValid q
      → IsValid (make_room q).0 × ((make_room q).0.size < (make_room q).0.cap)
  unfolding make_room evict take_head
  make_room-IsValid {q} v = ground (arith, length-set q.buf q.head [])

  pub enqueue_lem :
      (q : Queue A) (batch : List A)
      → (enqueue q batch).0 ≡ (if q.closed then q else append_tail (make_room q).0 batch)
  unfolding enqueue
  enqueue_lem q batch = ground arith

  -- `Enqueue` keeps the invariant on each of its paths.
  pub enqueue-IsValid : {q : Queue A} (batch : List A) → IsValid q → IsValid (enqueue q batch).0
  enqueue-IsValid {q} batch v =
      let (ok, lt) = make_room-IsValid v in
      ground (arith, enqueue_lem q batch, append_tail-IsValid batch ok lt)

  -- `Dequeue` keeps the invariant, whether it returns, waits or fails.
  pub dequeue-IsValid : {q : Queue A} (err : Option CtxErr) → IsValid q → IsValid (dequeue q err).0
  unfolding dequeue
  dequeue-IsValid {q} err v = ground (arith, take_head-IsValid v)

  pub close-IsValid : {q : Queue A} → IsValid q → IsValid (close q)
  unfolding close
  close-IsValid v = ground arith

  -- What `Enqueue` leaves as it is, and how full it leaves the ring.
  pub enqueue_kept :
      (q : Queue A) (batch : List A)
      → IsValid q
      → ((enqueue q batch).0.cap ≡ q.cap)
        × ((enqueue q batch).0.closed ≡ q.closed)
        × (q.closed ≡ false → (enqueue q batch).0.size ≡ min (q.size + 1) q.cap)
  unfolding enqueue make_room evict take_head append_tail
  enqueue_kept q batch v = ground arith
