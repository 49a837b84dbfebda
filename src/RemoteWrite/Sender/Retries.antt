-- ===== src/RemoteWrite/Sender/Retries.antt =====
-- The budget of attempts.
use ollama_exporter.Base.{
  ℤ, ℕ, zero, suc, ◌+◌, ◌≤◌, max, ◌≡◌, ◌≢◌, inl, inr, Bool, true, false, Option, none, some, List,
  [], ◌∷◌, ◌++◌, arith,
}
use ollama_exporter.RemoteWrite.Breaker.{Breaker, allow}
use ollama_exporter.RemoteWrite.Wire.{SendError}
use ollama_exporter.RemoteWrite.Sender.{
  EndpointConfig, SenderEvent, on_send_outcome, on_samples_dropped, on_retry, Attempt,
  shutdown_drain, Switched, Wait, panics, stops, waits, switch, next_wait, Processed, behind,
  exhausted, on_wait, on_switch, send_loop, process_batch, attempts_of, deadline_of,
}

-- The requests of a run, and the retries that it announces.
unfoldable pub tries : List SenderEvent → ℕ
tries [] = 0
tries (on_send_outcome o d ∷ es) = suc (tries es)
tries (_ ∷ es) = tries es

unfoldable pub retries : List SenderEvent → ℕ
retries [] = 0
retries (on_retry ∷ es) = suc (retries es)
retries (_ ∷ es) = retries es

tries-append : (xs ys : List SenderEvent) → tries (xs ++ ys) ≡ tries xs + tries ys
unfolding tries
tries-append [] ys = omega arith
tries-append (on_send_outcome o d ∷ xs) ys = omega (arith, tries-append xs ys)
tries-append (_ ∷ xs) ys = tries-append xs ys

retries-append : (xs ys : List SenderEvent) → retries (xs ++ ys) ≡ retries xs + retries ys
unfolding retries
retries-append [] ys = omega arith
retries-append (on_retry ∷ xs) ys = omega (arith, retries-append xs ys)
retries-append (_ ∷ xs) ys = retries-append xs ys

-- At most `left` requests; a retry follows a request, and none follows the last round.
abbrev IsBounded : ℕ → Processed → Type 0
IsBounded left none = Unit
IsBounded left (some (cb, es)) =
    (tries es ≤ left) × (retries es ≤ tries es) × (retries es + 1 ≤ max left 1)

abbrev events_of : Switched → List SenderEvent
events_of (inl d) = d.events
events_of (inr (err, es)) = es

switch-tries :
    (n : ℕ) (a : Attempt) (cb : Breaker)
    → (tries (events_of (switch n a cb)) ≡ 1) × (retries (events_of (switch n a cb)) ≡ 0)
unfolding switch tries retries
switch-tries n a cb = ground arith

behind-IsBounded :
    (es : List SenderEvent) (left k : ℕ) (later : Processed)
    → tries es ≡ 1
    → retries es ≤ k
    → k ≤ 1
    → k ≤ left
    → IsBounded left later
    → IsBounded (suc left) (behind es later)
behind-IsBounded es left k none t r o p b = tt
behind-IsBounded es left k (some (cb, later)) t r o p b =
    omega (arith, tries-append es later, retries-append es later)

exhausted-IsBounded : (n left : ℕ) (cb : Breaker) → IsBounded left (exhausted n cb)
unfolding tries retries
exhausted-IsBounded n left cb = omega arith

on_wait-IsBounded :
    (n : ℕ) (cb : Breaker) (shutdown : Bool) (es : List SenderEvent) (w : Wait) (left : ℕ)
    (later : Processed)
    → tries es ≡ 1
    → retries es ≡ 0
    → (w ≢ stops → w ≢ panics → 1 ≤ left)
    → IsBounded left later
    → IsBounded (suc left) (on_wait n cb shutdown es w later)
unfolding on_wait tries retries
on_wait-IsBounded n cb shutdown es panics left later t r p b = tt
on_wait-IsBounded n cb shutdown es stops left later t r p b =
    behind-IsBounded es left 0 (exhausted n cb) t (omega arith) (omega arith) (omega arith)
      (exhausted-IsBounded n left cb)
on_wait-IsBounded n cb true es (waits w) left later t r p b =
    behind-IsBounded (es ++ on_retry ∷ []) left 1
      (some (cb, on_samples_dropped shutdown_drain n ∷ []))
      (omega (arith, tries-append es (on_retry ∷ [])))
      (omega (arith, retries-append es (on_retry ∷ []))) (omega arith) (p (λ e. cc) (λ e. cc))
      (omega arith)
on_wait-IsBounded n cb false es (waits w) left later t r p b =
    behind-IsBounded (es ++ on_retry ∷ []) left 1 later
      (omega (arith, tries-append es (on_retry ∷ [])))
      (omega (arith, retries-append es (on_retry ∷ []))) (omega arith) (p (λ e. cc) (λ e. cc)) b

module _ (cfg : EndpointConfig) (n max_attempts : ℕ) (deadline : Option ℤ) where
  waits_room :
      (attempt left : ℕ) (err : SendError) (a : Attempt)
      → attempt + suc left ≡ max_attempts
      → next_wait cfg max_attempts deadline attempt err a ≢ stops
      → 1 ≤ left
  unfolding next_wait
  waits_room attempt left err a e h = ground arith

  on_switch-IsBounded :
      (attempt left : ℕ) (a : Attempt) (cb : Breaker) (s : Switched) (later : Processed)
      → attempt + suc left ≡ max_attempts
      → (tries (events_of s) ≡ 1) × (retries (events_of s) ≡ 0)
      → IsBounded left later
      → IsBounded (suc left) (on_switch cfg n max_attempts deadline attempt a cb s later)
  unfolding on_switch
  on_switch-IsBounded attempt left a cb (inl d) later e t b = omega arith
  on_switch-IsBounded attempt left a cb (inr (err, es)) later e t b =
      on_wait-IsBounded n cb a.shutdown es _ left later t.0 t.1
        (λ h k. waits_room attempt left err a e h) b

  send_loop-IsBounded :
      (env : ℕ → Attempt) (left attempt : ℕ) (cb : Breaker)
      → attempt + left ≡ max_attempts
      → IsBounded left (send_loop cfg n max_attempts deadline env left attempt cb)
  unfolding send_loop
  send_loop-IsBounded env zero attempt cb e = exhausted-IsBounded n 0 cb
  send_loop-IsBounded env (suc left) attempt cb e =
      on_switch-IsBounded attempt left (env attempt) cb _ _ e (switch-tries n (env attempt) cb)
        (send_loop-IsBounded env left (attempt + 1) cb (omega arith))

-- A batch that is processed without a panic is posted at most `max_attempts` times, once where
-- that is below 1; there are never more retries than posts, and at most one less than the attempts
-- allowed.
pub process_batch_budget :
    (cfg : EndpointConfig) (n : ℕ) (encoded : Bool) (now_allow now_start : ℤ) (env : ℕ → Attempt)
    (cb : Breaker) {cb' : Breaker} {es : List SenderEvent}
    → process_batch cfg n encoded now_allow now_start env cb ≡ some (cb', es)
    → (tries es ≤ attempts_of cfg) × (retries es ≤ tries es) × (retries es + 1 ≤ attempts_of cfg)
unfolding process_batch tries retries
process_batch_budget cfg n encoded now_allow now_start env cb h = ground (
  arith,
  send_loop-IsBounded cfg n (attempts_of cfg) (deadline_of cfg now_start) env (attempts_of cfg) 0
      (allow now_allow cb).0 (omega arith),
)
