-- ===== src/RemoteWrite/Sender/Total.antt =====
-- `processBatch` returns: the loop ends by its counter, and the random draw does not panic.
use ollama_exporter.Base.{
  if◌then◌else◌, ◌<ℤ◌, two63, ℤ, pos, ℕ, zero, suc, ◌+◌, ◌-◌, ◌≡◌, refl, ◌≢◌, inl, inr, Bool, true,
  false, not, Option, none, some, List, [], ◌∷◌, ◌++◌, arith,
}
use ollama_exporter.RemoteWrite.Breaker.{Breaker, allow}
use ollama_exporter.RemoteWrite.Wire.{SendError}
use ollama_exporter.RemoteWrite.Sender.{
  EndpointConfig, SenderEvent, Attempt, Switched, Wait, panics, stops, waits, next_wait, cap_wait,
  Processed, behind, on_wait, on_switch, send_loop, process_batch, max_of, attempts_of, deadline_of,
  on_samples_dropped, on_samples_failed, breaker_open, non_retryable,
}
use ollama_exporter.RemoteWrite.Sender.Backoff.{IsDraw, compute_backoff_bounds}

cap_wait-ne-panics :
    (deadline : Option ℤ) (a : Attempt) (w : ℤ) → cap_wait deadline a (some w) ≢ panics
unfolding cap_wait
cap_wait-ne-panics none a w h = cc
cap_wait-ne-panics (some d) a w h = ground arith

abbrev Returns : Processed → Type 0
Returns r = (cb : Breaker) × (es : List SenderEvent) × (r ≡ some (cb, es))

if-Returns : (b : Bool) {x y : Processed} → Returns x → Returns y → Returns (if b then x else y)
if-Returns true rx ry = rx
if-Returns false rx ry = ry

behind-Returns : (es : List SenderEvent) (r : Processed) → Returns r → Returns (behind es r)
behind-Returns es r (cb, later, e) = (cb, es ++ later, rw e)

module _ (cfg : EndpointConfig) (m : max_of cfg <ℤ pos (two63 - 1)) where
  next_wait-ne-panics :
      (max_attempts : ℕ) (deadline : Option ℤ) (attempt : ℕ) (err : SendError) (a : Attempt)
      → IsDraw a.draw
      → next_wait cfg max_attempts deadline attempt err a ≢ panics
  unfolding next_wait
  next_wait-ne-panics max_attempts deadline attempt err a d h =
      let found = compute_backoff_bounds cfg attempt err a.draw d m in
      ground (arith, found.1, cap_wait-ne-panics deadline a found.0)

  on_wait-Returns :
      (n : ℕ) (cb : Breaker) (shutdown : Bool) (es : List SenderEvent) (w : Wait)
      (later : Processed)
      → w ≢ panics
      → Returns later
      → Returns (on_wait n cb shutdown es w later)
  unfolding on_wait
  on_wait-Returns n cb shutdown es panics later ne r = absurd (ne refl)
  on_wait-Returns n cb shutdown es stops later ne r = behind-Returns es _ (cb, _, refl)
  on_wait-Returns n cb true es (waits w) later ne r = (_, _, refl)
  on_wait-Returns n cb false es (waits w) later ne r = behind-Returns _ later r

  on_switch-Returns :
      (n max_attempts : ℕ) (deadline : Option ℤ) (attempt : ℕ) (a : Attempt) (cb : Breaker)
      (s : Switched) (later : Processed)
      → IsDraw a.draw
      → Returns later
      → Returns (on_switch cfg n max_attempts deadline attempt a cb s later)
  unfolding on_switch
  on_switch-Returns n max_attempts deadline attempt a cb (inl done) later d r = (_, _, refl)
  on_switch-Returns n max_attempts deadline attempt a cb (inr (err, es)) later d r =
      on_wait-Returns n cb a.shutdown es _ later
        (next_wait-ne-panics max_attempts deadline attempt err a d) r

  send_loop-Returns :
      (n max_attempts : ℕ) (deadline : Option ℤ) (env : ℕ → Attempt)
      → ((i : ℕ) → IsDraw (env i).draw)
      → (left attempt : ℕ) (cb : Breaker)
      → Returns (send_loop cfg n max_attempts deadline env left attempt cb)
  unfolding send_loop
  send_loop-Returns n max_attempts deadline env d zero attempt cb = (_, _, refl)
  send_loop-Returns n max_attempts deadline env d (suc left) attempt cb =
      on_switch-Returns n max_attempts deadline attempt (env attempt) cb _ _ (d attempt)
        (send_loop-Returns n max_attempts deadline env d left (attempt + 1) cb)

  -- With a maximal backoff below the largest int64 and a random source that keeps to its range,
  -- `processBatch` comes to an end and does not panic, whatever the receiver answers.
  pub process_batch_returns :
      (n : ℕ) (encoded : Bool) (now_allow now_start : ℤ) (env : ℕ → Attempt) (cb : Breaker)
      → ((i : ℕ) → IsDraw (env i).draw)
      → (cb' : Breaker) × (es : List SenderEvent) × (process_batch cfg n encoded now_allow now_start
            env cb
          ≡ some (cb', es))
  unfolding process_batch
  process_batch_returns n encoded now_allow now_start env cb d =
      if-Returns (not (allow now_allow cb).1)
        ((allow now_allow cb).0, on_samples_dropped breaker_open n ∷ [], refl)
        (if-Returns (not encoded)
          ((allow now_allow cb).0, on_samples_failed non_retryable n ∷ [], refl)
          (send_loop-Returns n (attempts_of cfg) (deadline_of cfg now_start) env d (attempts_of cfg)
            0 (allow now_allow cb).0))
