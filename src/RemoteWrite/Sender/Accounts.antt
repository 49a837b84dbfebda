-- ===== src/RemoteWrite/Sender/Accounts.antt =====
-- How a batch ends: one entry in the books of the observer, and one call of the breaker at most.
use ollama_exporter.Base.{
  ℤ, ℕ, zero, suc, ◌+◌, ◌≡◌, refl, sym, ap, ◌∙◌, subst, inl, inr, Bool, true, false, Option, none,
  some, List, [], ◌∷◌, ◌++◌, arith,
}
use ollama_exporter.RemoteWrite.Queue.{canceled}
use ollama_exporter.RemoteWrite.Breaker.{Breaker, allow, record_success, record_failure}
use ollama_exporter.RemoteWrite.Wire.{SendError, err_non_retryable, err_context}
use ollama_exporter.RemoteWrite.Sender.{
  EndpointConfig, Reason, SenderEvent, on_send_outcome, on_samples_sent, on_samples_failed,
  on_samples_dropped, on_retry, on_last_send, non_retryable, retry_budget_exhausted, breaker_open,
  shutdown_drain, Attempt, Done, Switched, switch, Wait, panics, stops, waits, Processed, behind,
  exhausted, on_wait, on_switch, send_loop, process_batch, attempts_of, deadline_of,
}

-- The entries of the books.
pub data Entry : Type 0 where
  sent : ℕ → Entry
  lost : Reason → ℕ → Entry

unfoldable pub entries : List SenderEvent → List Entry
entries [] = []
entries (on_samples_sent n ∷ es) = sent n ∷ entries es
entries (on_samples_failed r n ∷ es) = lost r n ∷ entries es
entries (on_samples_dropped r n ∷ es) = lost r n ∷ entries es
entries (on_send_outcome o d ∷ es) = entries es
entries (on_retry ∷ es) = entries es
entries (on_last_send t ∷ es) = entries es

pub entries-append : (xs ys : List SenderEvent) → entries (xs ++ ys) ≡ entries xs ++ entries ys
unfolding entries
entries-append [] ys = refl
entries-append (on_samples_sent n ∷ xs) ys = ap (◌∷◌ (sent n)) (entries-append xs ys)
entries-append (on_samples_failed r n ∷ xs) ys = ap (◌∷◌ (lost r n)) (entries-append xs ys)
entries-append (on_samples_dropped r n ∷ xs) ys = ap (◌∷◌ (lost r n)) (entries-append xs ys)
entries-append (on_send_outcome o d ∷ xs) ys = entries-append xs ys
entries-append (on_retry ∷ xs) ys = entries-append xs ys
entries-append (on_last_send t ∷ xs) ys = entries-append xs ys

-- The four ways in which the loop ends, with the breaker that it started with and the one it leaves.
pub data Ends (n : ℕ) (cb cb' : Breaker) (es : List Entry) : Type 0 where
  delivered : cb' ≡ (record_success cb).0 → es ≡ sent n ∷ [] → Ends n cb cb' es
  rejected :
      (now : ℤ)
      → cb' ≡ (record_failure now cb).0
      → es ≡ lost non_retryable n ∷ []
      → Ends n cb cb' es
  gave_up : cb' ≡ cb → es ≡ lost retry_budget_exhausted n ∷ [] → Ends n cb cb' es
  drained : cb' ≡ cb → es ≡ lost shutdown_drain n ∷ [] → Ends n cb cb' es

module _ (n : ℕ) (a : Attempt) (cb : Breaker) where
  switch_done : (d : Done) → switch n a cb ≡ inl d → Ends n cb d.breaker (entries d.events)
  unfolding switch entries
  switch_done d e = done_by a.result refl
    where
      done_by : (r : Option SendError) → a.result ≡ r → Ends n cb d.breaker (entries d.events)
      done_by none q = delivered (ground arith) (ground arith)
      done_by (some (err_context canceled)) q = drained (ground arith) (ground arith)
      done_by (some (err_non_retryable s)) q = rejected a.now_failure (ground arith) (ground arith)
      done_by (some _) q = absurd (ground arith)

  switch_on :
      {err : SendError} {es : List SenderEvent} → switch n a cb ≡ inr (err, es) → entries es ≡ []
  unfolding switch entries
  switch_on e = ground arith

abbrev pub EndsIn : ℕ → Breaker → Processed → Type 0
EndsIn n cb none = Unit
EndsIn n cb (some (cb', es)) = Ends n cb cb' (entries es)

behind-EndsIn :
    (n : ℕ) (cb : Breaker) (es : List SenderEvent) (later : Processed)
    → entries es ≡ []
    → EndsIn n cb later
    → EndsIn n cb (behind es later)
behind-EndsIn n cb es none e l = tt
behind-EndsIn n cb es (some (cb', later)) e l =
    subst (Ends n cb cb') (sym (entries-append es later ∙ ap (λ x. x ++ entries later) e)) l

entries-retry : (es : List SenderEvent) → entries es ≡ [] → entries (es ++ on_retry ∷ []) ≡ []
unfolding entries
entries-retry es e = rw entries-append (rw e)

on_wait-EndsIn :
    (n : ℕ) (cb : Breaker) (shutdown : Bool) (es : List SenderEvent) (w : Wait) (later : Processed)
    → entries es ≡ []
    → EndsIn n cb later
    → EndsIn n cb (on_wait n cb shutdown es w later)
unfolding on_wait
on_wait-EndsIn n cb shutdown es panics later e l = tt
on_wait-EndsIn n cb shutdown es stops later e l =
    behind-EndsIn n cb es (exhausted n cb) e (gave_up refl (unfold entries in refl))
on_wait-EndsIn n cb true es (waits w) later e l =
    behind-EndsIn n cb (es ++ on_retry ∷ []) (some (cb, on_samples_dropped shutdown_drain n ∷ []))
      (entries-retry es e) (drained refl (unfold entries in refl))
on_wait-EndsIn n cb false es (waits w) later e l =
    behind-EndsIn n cb (es ++ on_retry ∷ []) later (entries-retry es e) l

module _ (cfg : EndpointConfig) (n max_attempts : ℕ) (deadline : Option ℤ) where
  on_switch-EndsIn :
      (attempt : ℕ) (a : Attempt) (cb : Breaker) (s : Switched) (later : Processed)
      → switch n a cb ≡ s
      → EndsIn n cb later
      → EndsIn n cb (on_switch cfg n max_attempts deadline attempt a cb s later)
  unfolding on_switch
  on_switch-EndsIn attempt a cb (inl d) later e l = switch_done n a cb d e
  on_switch-EndsIn attempt a cb (inr (err, es)) later e l =
      on_wait-EndsIn n cb a.shutdown es _ later (switch_on n a cb e) l

  send_loop-EndsIn :
      (env : ℕ → Attempt) (left attempt : ℕ) (cb : Breaker)
      → EndsIn n cb (send_loop cfg n max_attempts deadline env left attempt cb)
  unfolding send_loop entries
  send_loop-EndsIn env zero attempt cb = gave_up refl refl
  send_loop-EndsIn env (suc left) attempt cb =
      on_switch-EndsIn attempt (env attempt) cb _ _ refl
        (send_loop-EndsIn env left (attempt + 1) cb)

-- How `processBatch` ends: refused by the breaker, not encodable, or as the loop ends.
pub data BatchEnds (n : ℕ) (cb : Breaker) (allowed : Bool) (cb' : Breaker) (es : List Entry)
    : Type 0 where
  refused :
      allowed ≡ false → cb' ≡ cb → es ≡ lost breaker_open n ∷ [] → BatchEnds n cb allowed cb' es
  not_encoded :
      allowed ≡ true → cb' ≡ cb → es ≡ lost non_retryable n ∷ [] → BatchEnds n cb allowed cb' es
  attempted : allowed ≡ true → Ends n cb cb' es → BatchEnds n cb allowed cb' es

module _ (cfg : EndpointConfig) (n : ℕ) (encoded : Bool) (now_allow now_start : ℤ)
    (env : ℕ → Attempt) (cb : Breaker) where
  pub process_batch_ends :
      {cb' : Breaker} {es : List SenderEvent}
      → process_batch cfg n encoded now_allow now_start env cb ≡ some (cb', es)
      → BatchEnds n (allow now_allow cb).0 (allow now_allow cb).1 cb' (entries es)
  unfolding process_batch
  process_batch_ends {cb'} {es} h = ends_by (allow now_allow cb).1 encoded refl refl
    where
      ends_by :
          (ok enc : Bool)
          → (allow now_allow cb).1 ≡ ok
          → encoded ≡ enc
          → BatchEnds n (allow now_allow cb).0 (allow now_allow cb).1 cb' (entries es)
      ends_by false enc p q = refused p (ground arith) (unfold entries in ground arith)
      ends_by true false p q = not_encoded p (ground arith) (unfold entries in ground arith)
      ends_by true true p q =
          let started = (allow now_allow cb).0 in
          let goes : send_loop cfg n (attempts_of cfg) (deadline_of cfg now_start) env
                (attempts_of cfg) 0 started
              ≡ some (cb', es) =
            ground arith in
          attempted p (
            subst (EndsIn n started) goes (
              send_loop-EndsIn cfg n (attempts_of cfg) (deadline_of cfg now_start) env
                (attempts_of cfg) 0 started))
