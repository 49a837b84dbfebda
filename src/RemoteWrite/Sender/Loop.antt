-- ===== src/RemoteWrite/Sender/Loop.antt =====
-- `Run` of sender.go: batches are taken from the queue and processed one after the other, until the
-- queue says that it is closed or the context that it is done. A pass is what one `Dequeue` returns
-- and the world's answers to the batch.
use ollama_exporter.Base.{
  length, All, ◌<ℤ◌, two63, ℤ, pos, ℕ, ◌-◌, ◌≡◌, refl, ap, ap₂, ◌∙◌, Bool, none, some, List, [],
  ◌∷◌, ◌++◌, map,
}
use ollama_exporter.RemoteWrite.Queue.{Dequeued, blocked, got, queue_closed, ctx_err}
use ollama_exporter.RemoteWrite.Breaker.{Breaker}
use ollama_exporter.RemoteWrite.Sender.{
  EndpointConfig, SenderEvent, Attempt, Processed, behind, process_batch, max_of,
}
use ollama_exporter.RemoteWrite.Sender.Backoff.{IsDraw}
use ollama_exporter.RemoteWrite.Sender.Total.{process_batch_returns}
use ollama_exporter.RemoteWrite.Sender.Accounts.{
  Entry, sent, lost, entries, entries-append, BatchEnds, refused, not_encoded, attempted, delivered,
  rejected, gave_up, drained, process_batch_ends,
}

pub record Pass (A : Type 0) : Type 0 where
  pub dequeued : Dequeued A
  pub encoded : Bool
  pub now_allow : ℤ
  pub now_start : ℤ
  pub env : ℕ → Attempt

-- The rest of a run behind a batch.
abbrev pub go_on : Processed → (Breaker → Processed) → Processed
go_on none later = none
go_on (some (cb, es)) later = behind es (later cb)

module _ {A : Type 0} where
  -- A `Dequeue` that still waits has not returned.
  unfoldable pub on_dequeued :
      EndpointConfig → Pass A → Dequeued A → Breaker → (Breaker → Processed) → Processed
  on_dequeued cfg p blocked cb later = later cb
  on_dequeued cfg p (got batch) cb later =
      go_on (process_batch cfg (length batch) p.encoded p.now_allow p.now_start p.env cb) later
  on_dequeued cfg p queue_closed cb later = some (cb, [])
  on_dequeued cfg p (ctx_err e) cb later = some (cb, [])

  unfoldable pub run : EndpointConfig → List (Pass A) → Breaker → Processed
  run cfg [] cb = some (cb, [])
  run cfg (p ∷ ps) cb = on_dequeued cfg p p.dequeued cb (run cfg ps)

  -- The batches that are taken before the loop ends.
  abbrev pub also : Dequeued A → List (List A) → List (List A)
  also blocked rest = rest
  also (got batch) rest = batch ∷ rest
  also queue_closed rest = []
  also (ctx_err e) rest = []

  unfoldable pub taken : List (Pass A) → List (List A)
  taken [] = []
  taken (p ∷ ps) = also p.dequeued (taken ps)

abbrev pub amount : Entry → ℕ
amount (sent n) = n
amount (lost r n) = n

pub BatchEnds-amounts :
    {n : ℕ} {cb cb' : Breaker} {allowed : Bool} {es : List Entry}
    → BatchEnds n cb allowed cb' es
    → map amount es ≡ n ∷ []
BatchEnds-amounts (refused a c e) = ap (map amount) e
BatchEnds-amounts (not_encoded a c e) = ap (map amount) e
BatchEnds-amounts (attempted a (delivered c e)) = ap (map amount) e
BatchEnds-amounts (attempted a (rejected now c e)) = ap (map amount) e
BatchEnds-amounts (attempted a (gave_up c e)) = ap (map amount) e
BatchEnds-amounts (attempted a (drained c e)) = ap (map amount) e

map-append : (xs ys : List Entry) → map amount (xs ++ ys) ≡ map amount xs ++ map amount ys
map-append [] ys = refl
map-append (x ∷ xs) ys = ap (◌∷◌ (amount x)) (map-append xs ys)

-- A run that ends, with one entry for each of some batches.
abbrev pub Accounted : {A : Type 0} → Processed → List (List A) → Type 0
Accounted r batches =
    (cb' : Breaker) × (es : List SenderEvent) × (r ≡ some (cb', es))
    × (map amount (entries es) ≡ map length batches)

module _ {A : Type 0} (cfg : EndpointConfig) (m : max_of cfg <ℤ pos (two63 - 1)) where
  on_dequeued-Accounted :
      (p : Pass A) (q : Dequeued A) (cb : Breaker) (later : Breaker → Processed)
      (rest : List (List A))
      → ((i : ℕ) → IsDraw (p.env i).draw)
      → ((cb1 : Breaker) → Accounted (later cb1) rest)
      → Accounted (on_dequeued cfg p q cb later) (also q rest)
  unfolding on_dequeued entries
  on_dequeued-Accounted p blocked cb later rest d k = k cb
  on_dequeued-Accounted p queue_closed cb later rest d k = (cb, [], refl, refl)
  on_dequeued-Accounted p (ctx_err c) cb later rest d k = (cb, [], refl, refl)
  on_dequeued-Accounted p (got batch) cb later rest d k =
      let n = length batch in
      let (cb1, es1, done) =
        process_batch_returns cfg m n p.encoded p.now_allow p.now_start p.env cb d in
      let (cb2, es2, goes, books) = k cb1 in
      let one =
        BatchEnds-amounts
          (process_batch_ends cfg n p.encoded p.now_allow p.now_start p.env cb done) in
      (
        cb2,
        es1 ++ es2,
        ap (λ r. go_on r later) done ∙ ap (behind es1) goes,
        ap (map amount) (entries-append es1 es2)
            ∙ map-append (entries es1) (entries es2)
            ∙ ap₂ ◌++◌ one books,
      )

  -- With a maximal backoff below the largest int64 and a random source that keeps to its range,
  -- the loop comes to its end without a panic, and each batch that it took is in the books exactly
  -- once, with all of its samples, in the order in which the batches came.
  pub run-Accounted :
      (passes : List (Pass A)) (cb : Breaker)
      → All (λ p. (i : ℕ) → IsDraw (p.env i).draw) passes
      → Accounted (run cfg passes cb) (taken passes)
  unfolding run taken entries
  run-Accounted [] cb d = (cb, [], refl, refl)
  run-Accounted (p ∷ ps) cb (d, ds) =
      on_dequeued-Accounted p p.dequeued cb (run cfg ps) (taken ps) d
        (λ cb1. run-Accounted ps cb1 ds)
