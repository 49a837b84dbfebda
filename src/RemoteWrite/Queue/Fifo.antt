-- ===== src/RemoteWrite/Queue/Fifo.antt =====
-- What the queue promises: a first-in first-out list of at most `cap` batches whose oldest batch
-- gives way to a new one, and which takes nothing more once it is closed.
use ollama_exporter.Base.{
  ◌==◌, if◌then◌else◌, length, get_or, ℕ, zero, suc, ◌%◌, Bool, true, false, Option, none, some,
  List, [], ◌∷◌, ◌++◌,
}
use ollama_exporter.RemoteWrite.Queue.{Queue, CtxErr, Dequeued, got, queue_closed, blocked, ctx_err}

module _ {A : Type 0} where
  abbrev pub tail : List (List A) → List (List A)
  tail [] = []
  tail (_ ∷ items) = items

  unfoldable pub put : ℕ → Bool → List (List A) → List A → List (List A)
  put cap closed items batch =
      if closed then items else (if length items == cap then tail items else items) ++ batch ∷ []

  unfoldable pub take : Bool → Option CtxErr → List (List A) → Dequeued A × List (List A)
  take true err [] = (queue_closed, [])
  take false none [] = (blocked, [])
  take false (some e) [] = (ctx_err e, [])
  take closed err (batch ∷ items) = (got batch, items)

  -- The `n` batches from position `s` on, positions going round at `cap`.
  abbrev pub slots : List (List A) → ℕ → ℕ → ℕ → List (List A)
  slots buf cap s zero = []
  slots buf cap s (suc n) = get_or buf (s % cap) [] ∷ slots buf cap (suc s) n

  -- The batches that a queue holds, oldest first.
  abbrev pub contents : Queue A → List (List A)
  contents q = slots q.buf q.cap q.head q.size
