-- ===== src/RemoteWrite/Breaker.antt =====
-- internal/remotewrite/breaker.go: the circuit breaker. Each method holds the mutex throughout, so
-- it is one function of the state; one that reads the clock takes the time that it read.
-- Times and durations are integers of nanoseconds. The result lists the calls of `OnStateChange`.
pub mod Steps
pub mod Sliding
use ollama_exporter.Base.{
  if◌then◌else◌, length, keep_if, ◌-ℤ◌, ltb_ℤ, leb_ℤ, sat64, ℤ, pos, ℕ, ◌*◌, Bool, true, false, not,
  ◌&&◌, List, [], ◌∷◌, ◌++◌,
}

pub data BreakerState : Type 0 where
  breaker_closed breaker_open breaker_half_open : BreakerState

-- The value of the gauge.
unfoldable pub state_value : BreakerState → ℕ
state_value breaker_closed = 0
state_value breaker_open = 1
state_value breaker_half_open = 2

pub record BreakerConfig : Type 0 where
  pub failure_threshold : ℤ
  pub window : ℤ
  pub cooldown : ℤ

pub record Breaker : Type 0 where
  pub failure_threshold : ℤ
  pub window : ℤ
  pub cooldown : ℤ
  pub state : BreakerState
  pub failures : List ℤ
  pub opened_at : ℤ

abbrev pub second : ℕ
second = 1000000000

-- The zero `time.Time` that `openedAt` starts from is never read: it is set when the state is.
unfoldable pub new_circuit_breaker : BreakerConfig → Breaker × List BreakerState
new_circuit_breaker cfg = (
  record {
    failure_threshold =
        if ltb_ℤ cfg.failure_threshold (pos 1) then pos 5 else cfg.failure_threshold;
    window = if leb_ℤ cfg.window (pos 0) then pos (60 * second) else cfg.window;
    cooldown = if leb_ℤ cfg.cooldown (pos 0) then pos (30 * second) else cfg.cooldown;
    state = breaker_closed;
    failures = [];
    opened_at = pos 0;
  },
  breaker_closed ∷ [],
)

-- `==` on states.
unfoldable pub same_state : BreakerState → BreakerState → Bool
same_state breaker_closed breaker_closed = true
same_state breaker_open breaker_open = true
same_state breaker_half_open breaker_half_open = true
same_state _ _ = false

unfoldable pub set_state_locked : BreakerState → Breaker → Breaker × List BreakerState
unfolding same_state
set_state_locked s cb =
    if same_state cb.state s then (cb, []) else (record cb { state = s }, s ∷ [])

-- `cb.now().Sub(cb.openedAt) >= cb.cooldown`
unfoldable pub cooled : ℤ → Breaker → Bool
unfolding sat64 ◌-ℤ◌
cooled now cb = leb_ℤ cb.cooldown (sat64 (now -ℤ cb.opened_at))

unfoldable pub allow : ℤ → Breaker → Breaker × Bool × List BreakerState
unfolding set_state_locked same_state
allow now cb =
    let (cb', events) =
      if same_state cb.state breaker_open && cooled now cb
      then set_state_locked breaker_half_open cb
      else (cb, []) in
    (cb', not (same_state cb'.state breaker_open), events)

unfoldable pub record_success : Breaker → Breaker × List BreakerState
unfolding set_state_locked same_state
record_success cb =
    let (cb', events) =
      if not (same_state cb.state breaker_closed)
      then set_state_locked breaker_closed cb
      else (cb, []) in
    (record cb' { failures = [] }, events)

-- `t.After(now.Add(-cb.window))`
abbrev pub after : ℤ → ℤ → ℤ → Bool
after window now t = ltb_ℤ (now -ℤ window) t

-- The part of `RecordFailure` below its early return.
unfoldable pub count_failure : ℤ → Breaker → Breaker × List BreakerState
unfolding set_state_locked same_state
count_failure now cb =
    let failures = keep_if (after cb.window now) cb.failures ++ now ∷ [] in
    let counted = record cb { failures = failures } in
    if leb_ℤ cb.failure_threshold (pos (length failures))
    then (let (opened, events) =
          set_state_locked breaker_open (record counted { opened_at = now }) in
        (record opened { failures = [] }, events))
    else (counted, [])

unfoldable pub record_failure : ℤ → Breaker → Breaker × List BreakerState
unfolding set_state_locked same_state count_failure
record_failure now cb =
    if same_state cb.state breaker_half_open
    then set_state_locked breaker_open (record cb { opened_at = now })
    else count_failure now cb
