-- ===== src/RemoteWrite/Pusher/Deliver.antt =====
-- What a run of the pusher offers to each sender, and what becomes of it.
use ollama_exporter.Base.{
  length, All, sum_of, ℕ, zero, suc, ◌+◌, ◌≡◌, refl, sym, ap, ◌∙◌, subst, Bool, true, false, Option,
  none, some, List, [], ◌∷◌, arith,
}
use ollama_exporter.RemoteWrite.Queue.{CtxErr, dequeue, close, take_head}
use ollama_exporter.RemoteWrite.Queue.Inv.{enqueue_kept}
use ollama_exporter.RemoteWrite.Queue.Accounting.{
  Call, offer, fetch, shut, call, calls, calls_account, IsBalanced,
}
use ollama_exporter.RemoteWrite.Build.{Pusher, Sender}
use ollama_exporter.RemoteWrite.Build.Ready.{IsFresh}
use ollama_exporter.RemoteWrite.Pusher.{
  Feed, call_each, call_at, enqueue_batch, flush, Event, tick, sender_takes, serve, drain, shutdown,
  start, run_pusher,
}

module _ {A : Type 0} where
  -- The samples of a gathering.
  abbrev pub gathered_in : Option (List A) → ℕ
  gathered_in none = 0
  gathered_in (some xs) = length xs

  abbrev pub ticked : List (Event A) → ℕ
  ticked [] = 0
  ticked (tick g ∷ es) = gathered_in g + ticked es
  ticked (sender_takes i e ∷ es) = ticked es

  -- A queue in balance, open or closed, that has accepted so many samples.
  abbrev pub HasAccepted : Bool → ℕ → Feed A → Type 0
  HasAccepted closed n s = IsBalanced s × (s.0.closed ≡ closed) × (s.1.accepted ≡ n)

  call-IsBalanced : (c : Call A) (s : Feed A) → IsBalanced s → IsBalanced (call c s)
  unfolding calls
  call-IsBalanced c (q, t) b = calls_account (c ∷ []) q t b

  offer-HasAccepted :
      (batch : List A) (n : ℕ) (s : Feed A)
      → HasAccepted false n s
      → HasAccepted false (n + length batch) (call (offer batch) s)
  offer-HasAccepted batch n (q, t) (b, o, e) = (
    call-IsBalanced (offer batch) (q, t) b,
    unfold call in (enqueue_kept q batch b.0).1 ∙ o,
    unfold call in ground arith,
  )

  fetch-HasAccepted :
      (closed : Bool) (err : Option CtxErr) (n : ℕ) (s : Feed A)
      → HasAccepted closed n s
      → HasAccepted closed n (call (fetch err) s)
  fetch-HasAccepted closed err n (q, t) (b, o, e) = (
    call-IsBalanced (fetch err) (q, t) b,
    unfold call dequeue take_head in ground arith,
    unfold call in e,
  )

  shut-HasAccepted : (n : ℕ) (s : Feed A) → HasAccepted false n s → HasAccepted true n (call shut s)
  shut-HasAccepted n (q, t) (b, o, e) =
      (call-IsBalanced shut (q, t) b, unfold call close in refl, unfold call in e)

  call_each-All :
      (c : Call A) (P Q : Feed A → Type 0)
      → ((s : Feed A) → P s → Q (call c s))
      → (ss : List (Feed A)) → All P ss
      → All Q (call_each c ss)
  unfolding call_each
  call_each-All c P Q f [] h = tt
  call_each-All c P Q f (s ∷ ss) h = (f s h.0, call_each-All c P Q f ss h.1)

  call_at-All :
      (i : ℕ) (c : Call A) (P : Feed A → Type 0)
      → ((s : Feed A) → P s → P (call c s))
      → (ss : List (Feed A)) → All P ss
      → All P (call_at i c ss)
  unfolding call_at
  call_at-All i c P f [] h = tt
  call_at-All zero c P f (s ∷ ss) h = (f s h.0, h.1)
  call_at-All (suc i) c P f (s ∷ ss) h = (h.0, call_at-All i c P f ss h.1)

  length-call_each : (c : Call A) (ss : List (Feed A)) → length (call_each c ss) ≡ length ss
  unfolding call_each
  length-call_each c [] = refl
  length-call_each c (s ∷ ss) = ap suc (length-call_each c ss)

  length-call_at : (i : ℕ) (c : Call A) (ss : List (Feed A)) → length (call_at i c ss) ≡ length ss
  unfolding call_at
  length-call_at i c [] = refl
  length-call_at zero c (s ∷ ss) = refl
  length-call_at (suc i) c (s ∷ ss) = ap suc (length-call_at i c ss)

  length-enqueue_batch :
      (g : Option (List A)) (ss : List (Feed A)) → length (enqueue_batch g ss) ≡ length ss
  unfolding enqueue_batch
  length-enqueue_batch none ss = refl
  length-enqueue_batch (some []) ss = refl
  length-enqueue_batch (some (x ∷ xs)) ss = length-call_each (offer (x ∷ xs)) ss

  length-flush :
      (p : Pusher A) (g : Option (List A)) (ss : List (Feed A)) → length (flush p g ss) ≡ length ss
  unfolding flush
  length-flush p g ss = ground (arith, length-enqueue_batch g ss)

  -- With a gatherer and a feed for each sender a flush is the loop over the senders.
  flush-enqueue_batch :
      (p : Pusher A) (g : Option (List A)) (ss : List (Feed A))
      → p.has_gatherer ≡ true
      → length p.senders ≡ length ss
      → flush p g ss ≡ enqueue_batch g ss
  flush-enqueue_batch p none ss hg len = unfold flush in ground arith
  flush-enqueue_batch p (some []) ss hg len = unfold flush in ground arith
  flush-enqueue_batch p (some (x ∷ xs)) [] hg len = unfold flush in ground arith
  flush-enqueue_batch p (some (x ∷ xs)) (s ∷ ss) hg len = unfold flush in ground arith

  enqueue_batch-HasAccepted :
      (g : Option (List A)) (n : ℕ) (ss : List (Feed A))
      → All (HasAccepted false n) ss
      → All (HasAccepted false (n + gathered_in g)) (enqueue_batch g ss)
  unfolding enqueue_batch
  enqueue_batch-HasAccepted none n ss h =
      subst (λ (m : ℕ). All (HasAccepted false m) ss) (omega arith) h
  enqueue_batch-HasAccepted (some []) n ss h =
      subst (λ (m : ℕ). All (HasAccepted false m) ss) (omega arith) h
  enqueue_batch-HasAccepted (some (x ∷ xs)) n ss h =
      call_each-All (offer (x ∷ xs)) (HasAccepted false n) (HasAccepted false (n + length (x ∷ xs)))
        (offer-HasAccepted (x ∷ xs) n) ss h

  serve-HasAccepted :
      (p : Pusher A) (es : List (Event A)) (n : ℕ) (ss : List (Feed A))
      → p.has_gatherer ≡ true
      → length p.senders ≡ length ss
      → All (HasAccepted false n) ss
      → All (HasAccepted false (n + ticked es)) (serve p es ss)
  unfolding serve
  serve-HasAccepted p [] n ss hg len h =
      subst (λ (m : ℕ). All (HasAccepted false m) ss) (omega arith) h
  serve-HasAccepted p (tick g ∷ es) n ss hg len h = rw (flush-enqueue_batch p g ss hg len) (
      subst (λ (m : ℕ). All (HasAccepted false m) (serve p es (enqueue_batch g ss))) (omega arith)
        (serve-HasAccepted p es (n + gathered_in g) (enqueue_batch g ss) hg
          (len ∙ sym (length-enqueue_batch g ss)) (enqueue_batch-HasAccepted g n ss h)))
  serve-HasAccepted p (sender_takes i e ∷ es) n ss hg len h =
      serve-HasAccepted p es n (call_at i (fetch e) ss) hg
        (len ∙ sym (length-call_at i (fetch e) ss))
        (call_at-All i (fetch e) (HasAccepted false n) (fetch-HasAccepted false e n) ss h)

  drain-HasAccepted :
      (es : List (ℕ × Option CtxErr)) (n : ℕ) (ss : List (Feed A))
      → All (HasAccepted true n) ss
      → All (HasAccepted true n) (drain es ss)
  unfolding drain
  drain-HasAccepted [] n ss h = h
  drain-HasAccepted ((i, e) ∷ es) n ss h =
      drain-HasAccepted es n (call_at i (fetch e) ss)
        (call_at-All i (fetch e) (HasAccepted true n) (fetch-HasAccepted true e n) ss h)

  start-HasAccepted :
      (ss : List (Sender A))
      → All (λ (s : Sender A). IsFresh s.queue) ss
      → All (HasAccepted false 0) (start ss)
  unfolding start
  start-HasAccepted [] h = tt
  start-HasAccepted (s ∷ ss) h = (
    (((h.0).0, omega (arith, ap (sum_of length) (h.0).2)), (h.0).1, refl),
    start-HasAccepted ss h.1,
  )

  length-start : (ss : List (Sender A)) → length ss ≡ length (start ss)
  unfolding start
  length-start [] = refl
  length-start (s ∷ ss) = ap suc (length-start ss)

  length-serve :
      (p : Pusher A) (es : List (Event A)) (ss : List (Feed A)) → length (serve p es ss) ≡ length ss
  unfolding serve
  length-serve p [] ss = refl
  length-serve p (tick g ∷ es) ss = length-serve p es (flush p g ss) ∙ length-flush p g ss
  length-serve p (sender_takes i e ∷ es) ss =
      length-serve p es (call_at i (fetch e) ss) ∙ length-call_at i (fetch e) ss

  length-drain :
      (es : List (ℕ × Option CtxErr)) (ss : List (Feed A)) → length (drain es ss) ≡ length ss
  unfolding drain
  length-drain [] ss = refl
  length-drain ((i, e) ∷ es) ss =
      length-drain es (call_at i (fetch e) ss) ∙ length-call_at i (fetch e) ss

  -- However the senders take batches in between, each sender of a run is offered every sample of
  -- every successful gathering, from the first flush on, exactly once and while its queue is open;
  -- at the end its queue is closed and each of these samples was reported as dropped, was handed to
  -- the sender or is still held.
  pub run_pusher_delivers :
      (p : Pusher A) (first : Option (List A)) (events : List (Event A))
      (draining : List (ℕ × Option CtxErr))
      → p.has_gatherer ≡ true
      → All (λ (s : Sender A). IsFresh s.queue) p.senders
      → (length (run_pusher p first events draining) ≡ length p.senders)
        × All
            (HasAccepted true (gathered_in first + ticked events))
            (run_pusher p first events draining)
  unfolding run_pusher shutdown
  run_pusher_delivers p first events draining hg fresh =
      let served = serve p (tick first ∷ events) (start p.senders) in
      let n = gathered_in first + ticked events in
      (
        length-drain draining (call_each shut served)
            ∙ length-call_each shut served
            ∙ length-serve p (tick first ∷ events) (start p.senders)
            ∙ sym (length-start p.senders),
        drain-HasAccepted draining n (call_each shut served) (
            call_each-All shut (HasAccepted false n) (HasAccepted true n) (shut-HasAccepted n)
              served
              (subst (λ (m : ℕ). All (HasAccepted false m) served) (omega arith)
                (serve-HasAccepted p (tick first ∷ events) 0 (start p.senders) hg
                  (length-start p.senders) (start-HasAccepted p.senders fresh)))),
      )
