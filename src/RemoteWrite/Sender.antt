-- ===== src/RemoteWrite/Sender.antt =====
-- internal/remotewrite/sender.go: the retry loop of one endpoint. What the world does in an attempt
-- (the reply, the clock readings, the random draw, a shutdown while the sender waits) is an argument,
-- one record for each attempt. The calls of `SenderObserver` come back as a list.
pub mod Backoff
pub mod Accounts
pub mod Total
pub mod Retries
pub mod Credentials
pub mod Loop
use ollama_exporter.Base.{
  ltb, leb, ◌==◌, if◌then◌else◌, pos_part, ◌+ℤ◌, ◌-ℤ◌, ltb_ℤ, leb_ℤ, wrap64, sat64, ℤ, pos, negsuc,
  ℕ, zero, suc, ◌+◌, ◌-◌, ◌*◌, ◌^◌, ◌⊎◌, inl, inr, Bool, false, not, ◌||◌, Option, none, some, List,
  [], ◌∷◌, ◌++◌,
}
use ollama_exporter.RemoteWrite.Queue.{canceled, deadline_exceeded}
use ollama_exporter.RemoteWrite.Breaker.{Breaker, allow, record_success, record_failure}
use ollama_exporter.RemoteWrite.Wire.{
  SendError, err_retryable, err_non_retryable, err_context, err_build, second,
}

pub data Outcome : Type 0 where
  success retryable_error non_retryable_error timeout : Outcome

pub data Reason : Type 0 where
  non_retryable retry_budget_exhausted breaker_open shutdown_drain : Reason

pub data SenderEvent : Type 0 where
  on_send_outcome : Outcome → ℤ → SenderEvent
  on_samples_sent : ℕ → SenderEvent
  on_samples_failed : Reason → ℕ → SenderEvent
  on_samples_dropped : Reason → ℕ → SenderEvent
  on_retry : SenderEvent
  on_last_send : ℤ → SenderEvent

-- The part of `EndpointConfig` that the loop reads.
pub record EndpointConfig : Type 0 where
  pub max_attempts : ℤ
  pub max_elapsed : ℤ
  pub initial_backoff : ℤ
  pub max_backoff : ℤ

-- `base << uint(exp)` on int64.
unfoldable pub shift64 : ℤ → ℕ → ℤ
shift64 (pos n) exp = wrap64 (pos (n * 2 ^ exp))
shift64 (negsuc n) exp = wrap64 (negsuc (suc n * 2 ^ exp - 1))

-- The bound of the jitter: `upper`.
unfoldable pub backoff_upper : ℤ → ℤ → ℕ → ℤ
backoff_upper base max_b attempt =
    let upper = shift64 base (if ltb 16 attempt then 16 else attempt) in
    if ltb_ℤ max_b upper || leb_ℤ upper (pos 0) then max_b else upper

-- `rng.Int63n(upper + 1)`: a panic, `none`, if the argument is not positive. `draw n` is a random
-- number below `n`.
unfoldable pub jitter : (ℕ → ℕ) → ℤ → Option ℤ
jitter draw upper = elim (wrap64 (upper +ℤ pos 1)) [
  | pos n ↦ if n == 0 then none else some (pos (draw n))
  | negsuc n ↦ none
]

abbrev pub retry_after_of : SendError → ℤ
retry_after_of (err_retryable status delay) = delay
retry_after_of _ = pos 0

abbrev pub min_ℤ : ℤ → ℤ → ℤ
min_ℤ a b = if ltb_ℤ b a then b else a

-- The receiver's `Retry-After`, where it asks for one, is a floor.
unfoldable pub raise_to_floor : SendError → ℤ → ℤ → ℤ
raise_to_floor err max_b jittered =
    if ltb_ℤ (pos 0) (retry_after_of err)
    then (let floor = min_ℤ (retry_after_of err) max_b in
        if ltb_ℤ jittered floor then floor else jittered)
    else jittered

unfoldable pub base_of : EndpointConfig → ℤ
base_of cfg = if leb_ℤ cfg.initial_backoff (pos 0) then pos second else cfg.initial_backoff

unfoldable pub max_of : EndpointConfig → ℤ
max_of cfg = if leb_ℤ cfg.max_backoff (pos 0) then pos (30 * second) else cfg.max_backoff

unfoldable pub compute_backoff : EndpointConfig → ℕ → SendError → (ℕ → ℕ) → Option ℤ
compute_backoff cfg attempt err draw =
    elim (jitter draw (backoff_upper (base_of cfg) (max_of cfg) attempt)) [
      | none ↦ none
      | some j ↦ some (raise_to_floor err (max_of cfg) j)
    ]

-- One attempt as the world answers it: the result of `sendWriteRequest`, its duration, and the
-- readings of the clock that follow it.
pub record Attempt : Type 0 where
  pub result : Option SendError
  pub dur : ℤ
  pub now_sent : ℤ  -- `OnLastSend`
  pub now_failure : ℤ  -- the breaker's clock
  pub now_check : ℤ  -- `time.Now().After(deadline)`
  pub now_until : ℤ  -- `time.Until(deadline)`
  pub draw : ℕ → ℕ
  pub shutdown : Bool  -- the wait ends by `ctx.Done()`

-- What the switch makes of a result: the batch is done with, or the loop goes on.
pub record Done : Type 0 where
  pub breaker : Breaker
  pub events : List SenderEvent

abbrev pub Switched : Type 0
Switched = Done ⊎ (SendError × List SenderEvent)

unfoldable pub switch : ℕ → Attempt → Breaker → Switched
switch n a cb = elim a.result [
  | none ↦ inl (record {
    breaker = (record_success cb).0;
    events = on_samples_sent n ∷ on_send_outcome success a.dur ∷ on_last_send a.now_sent ∷ [];
  })
  | some (err_context canceled) ↦ inl (record {
    breaker = cb;
    events = on_send_outcome timeout a.dur ∷ on_samples_dropped shutdown_drain n ∷ [];
  })
  | some (err_context deadline_exceeded) ↦
      inr (err_context deadline_exceeded, on_send_outcome timeout a.dur ∷ [])
  | some (err_non_retryable status) ↦ inl (record {
    breaker = (record_failure a.now_failure cb).0;
    events = on_send_outcome non_retryable_error a.dur ∷ on_samples_failed non_retryable n ∷ [];
  })
  | some (err_retryable status delay) ↦
      inr (err_retryable status delay, on_send_outcome retryable_error a.dur ∷ [])
  | some err_build ↦ inr (err_build, on_send_outcome retryable_error a.dur ∷ [])
]

-- What follows the switch when the loop goes on: a panic in `computeBackoff`, a break out of the
-- loop, or a wait.
pub data Wait : Type 0 where
  panics stops : Wait
  waits : ℤ → Wait

unfoldable pub cap_wait : Option ℤ → Attempt → Option ℤ → Wait
unfolding sat64 ◌-ℤ◌
cap_wait deadline a none = panics
cap_wait none a (some wait) = waits wait
cap_wait (some deadline) a (some w) =
    let wait = min_ℤ w (sat64 (deadline -ℤ a.now_until)) in
    if leb_ℤ wait (pos 0) then stops else waits wait

-- `deadline` is `none` for the zero time.
abbrev pub past : Option ℤ → ℤ → Bool
past none now = false
past (some deadline) now = ltb_ℤ deadline now

unfoldable pub next_wait : EndpointConfig → ℕ → Option ℤ → ℕ → SendError → Attempt → Wait
next_wait cfg max_attempts deadline attempt err a =
    if leb max_attempts (attempt + 1) || past deadline a.now_check
    then stops
    else cap_wait deadline a (compute_backoff cfg attempt err a.draw)

-- `none` is a panic.
abbrev pub Processed : Type 0
Processed = Option (Breaker × List SenderEvent)

abbrev pub behind : List SenderEvent → Processed → Processed
behind events none = none
behind events (some (cb, later)) = some (cb, events ++ later)

-- Behind the loop.
abbrev pub exhausted : ℕ → Breaker → Processed
exhausted n cb = some (cb, on_samples_failed retry_budget_exhausted n ∷ [])

-- The tests below the switch, and the wait: `later` is what the next rounds do.
unfoldable pub on_wait : ℕ → Breaker → Bool → List SenderEvent → Wait → Processed → Processed
on_wait n cb shutdown events panics later = none
on_wait n cb shutdown events stops later = behind events (exhausted n cb)
on_wait n cb shutdown events (waits w) later =
    behind (events ++ on_retry ∷ [])
      (if shutdown then some (cb, on_samples_dropped shutdown_drain n ∷ []) else later)

unfoldable pub on_switch :
    EndpointConfig → ℕ → ℕ → Option ℤ → ℕ → Attempt → Breaker → Switched → Processed → Processed
on_switch cfg n max_attempts deadline attempt a cb (inl d) later = some (d.breaker, d.events)
on_switch cfg n max_attempts deadline attempt a cb (inr (err, events)) later =
    on_wait n cb a.shutdown events (next_wait cfg max_attempts deadline attempt err a) later

-- `for attempt := 0; attempt < maxAttempts; attempt++`, by the rounds that are left.
unfoldable pub send_loop :
    EndpointConfig → ℕ → ℕ → Option ℤ → (ℕ → Attempt) → ℕ → ℕ → Breaker → Processed
send_loop cfg n max_attempts deadline env zero attempt cb = exhausted n cb
send_loop cfg n max_attempts deadline env (suc left) attempt cb =
    let later = send_loop cfg n max_attempts deadline env left (attempt + 1) cb in
    let a = env attempt in on_switch cfg n max_attempts deadline attempt a cb (switch n a cb) later

abbrev pub attempts_of : EndpointConfig → ℕ
attempts_of cfg = if ltb_ℤ cfg.max_attempts (pos 1) then 1 else pos_part cfg.max_attempts

unfoldable pub deadline_of : EndpointConfig → ℤ → Option ℤ
unfolding ◌+ℤ◌
deadline_of cfg now = if ltb_ℤ (pos 0) cfg.max_elapsed then some (now +ℤ cfg.max_elapsed) else none

-- A batch of `n` samples. `encoded` says whether `encodeWriteRequest` succeeded; the clock is read
-- by the breaker and for the deadline.
unfoldable pub process_batch :
    EndpointConfig → ℕ → Bool → ℤ → ℤ → (ℕ → Attempt) → Breaker → Processed
process_batch cfg n encoded now_allow now_start env cb =
    let (cb', allowed, told) = allow now_allow cb in
    if not allowed
    then some (cb', on_samples_dropped breaker_open n ∷ [])
    else if not encoded
    then some (cb', on_samples_failed non_retryable n ∷ [])
    else send_loop cfg n (attempts_of cfg) (deadline_of cfg now_start) env (attempts_of cfg) 0 cb'
