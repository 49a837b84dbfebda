-- ===== src/RemoteWrite/Queue/Accounting.antt =====
-- A client's calls in any order, with the samples that went in, were dropped and came out.
use ollama_exporter.Base.{
  if◌then◌else◌, length, get_or, sum_of, sum_of-append, ℕ, ◌+◌, ◌<◌, ◌≡◌, ap, ◌∙◌, ◌≢◌, Option,
  List, [], ◌∷◌, arith,
}
use ollama_exporter.RemoteWrite.Queue.{
  Queue, CtxErr, QueueEvent, on_drop, Dequeued, got, enqueue, dequeue, dequeue_empty, close, evict,
  make_room, take_head, append_tail, drop_events,
}
use ollama_exporter.RemoteWrite.Queue.Fifo.{contents}
use ollama_exporter.RemoteWrite.Queue.Inv.{
  IsValid, make_room-IsValid, enqueue-IsValid, dequeue-IsValid, close-IsValid,
}
use ollama_exporter.RemoteWrite.Queue.Refine.{contents-append_tail, contents-cons}

-- What `samples_dropped_total` gains by some calls of the observer.
unfoldable pub dropped_in : List QueueEvent → ℕ
dropped_in [] = 0
dropped_in (on_drop n ∷ events) = n + dropped_in events
dropped_in (_ ∷ events) = dropped_in events

pub data Call (A : Type 0) : Type 0 where
  offer : List A → Call A
  fetch : Option CtxErr → Call A
  shut : Call A

-- Samples accepted by an open queue, reported as dropped, and handed to the sender.
pub record Tally : Type 0 where
  pub accepted : ℕ
  pub dropped : ℕ
  pub delivered : ℕ

module _ {A : Type 0} where
  abbrev pub samples : List (List A) → ℕ
  samples = sum_of length

  abbrev pub delivered_in : Dequeued A → ℕ
  delivered_in (got batch) = length batch
  delivered_in _ = 0

  unfoldable pub call : Call A → Queue A × Tally → Queue A × Tally
  call (offer batch) (q, t) =
      let (r, events) = enqueue q batch in
      (
        r,
        record t {
          accepted = t.accepted + (if q.closed then 0 else length batch);
          dropped = t.dropped + dropped_in events;
        },
      )
  call (fetch err) (q, t) =
      let (r, d, events) = dequeue q err in
      (
        r,
        record t {
          delivered = t.delivered + delivered_in d;
          dropped = t.dropped + dropped_in events;
        },
      )
  call shut (q, t) = (close q, t)

  unfoldable pub calls : List (Call A) → Queue A × Tally → Queue A × Tally
  calls [] s = s
  calls (c ∷ cs) s = calls cs (call c s)

  samples-take_head :
      {q : Queue A}
      → IsValid q
      → q.size ≢ 0
      → samples (contents q) ≡ length (get_or q.buf q.head []) + samples (contents (take_head q))
  samples-take_head v ne = ap samples (contents-cons v ne)

  samples-make_room :
      {q : Queue A}
      → IsValid q
      → (make_room q).1 + samples (contents (make_room q).0) ≡ samples (contents q)
  unfolding make_room evict
  samples-make_room {q} v = ground (arith, samples-take_head v)

  samples-append_tail :
      {q : Queue A} (batch : List A)
      → IsValid q
      → q.size < q.cap
      → samples (contents (append_tail q batch)) ≡ samples (contents q) + length batch
  samples-append_tail {q} batch v lt =
      ap samples (contents-append_tail batch v lt)
      ∙ sum_of-append length (contents q) (batch ∷ [])
      ∙ omega arith

  pub dropped_in-enqueue :
      {q : Queue A} (batch : List A)
      → IsValid q
      → dropped_in (enqueue q batch).1 + samples (contents (enqueue q batch).0)
        ≡ samples (contents q) + (if q.closed then 0 else length batch)
  unfolding enqueue dropped_in drop_events
  dropped_in-enqueue {q} batch v =
      let (ok, lt) = make_room-IsValid v in
      ground (arith, samples-append_tail batch ok lt, samples-make_room v)

  pub delivered_in-dequeue :
      {q : Queue A} (err : Option CtxErr)
      → IsValid q
      → let (r, d, events) = dequeue q err in
        (delivered_in d + samples (contents r) ≡ samples (contents q)) × (dropped_in events ≡ 0)
  unfolding dequeue dequeue_empty dropped_in
  delivered_in-dequeue {q} err v = ground (arith, samples-take_head v)

  abbrev pub IsBalanced : Queue A × Tally → Type 0
  IsBalanced (q, t) = IsValid q × (t.dropped + t.delivered + samples (contents q) ≡ t.accepted)

  call-IsBalanced :
      (c : Call A) (q : Queue A) (t : Tally) → IsBalanced (q, t) → IsBalanced (call c (q, t))
  unfolding call close
  call-IsBalanced (offer batch) q t (v, e) =
      (enqueue-IsValid batch v, omega (arith, dropped_in-enqueue batch v))
  call-IsBalanced (fetch err) q t (v, e) =
      (dequeue-IsValid err v, omega (arith, delivered_in-dequeue err v))
  call-IsBalanced shut q t (v, e) = (close-IsValid v, e)

  -- If a queue is valid and each sample accepted by it while open is dropped and reported, handed
  -- out or still held, then so it is after any calls of `Enqueue`, `Dequeue` and `Close` in any
  -- order: none is lost in silence and none is counted twice.
  pub calls_account :
      (cs : List (Call A)) (q : Queue A) (t : Tally)
      → IsBalanced (q, t)
      → IsBalanced (calls cs (q, t))
  unfolding calls
  calls_account [] q t b = b
  calls_account (c ∷ cs) q t b =
      let (r, u) = call c (q, t) in calls_account cs r u (call-IsBalanced c q t b)
