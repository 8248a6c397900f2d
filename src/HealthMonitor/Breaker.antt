-- ===== src/HealthMonitor/Breaker.antt =====
-- internal/healthmonitor/breaker.go: the circuit breaker that the probe worker and the proxy use.
-- A method takes the mutex for its whole body, so each is one step on the state. `cb.now()` is the
-- argument `now`: instants are nanoseconds from a common origin, and not negative; durations are signed.
pub mod Invariant
pub mod Trip
pub mod Recovery
mod Tests
use toska_mesh.Prelude.{ℕ, Bool, true, false, not, ◌&&◌, ◌||◌, List, [], ◌∷◌, leb, if◌then◌else◌}
use toska_mesh.Prelude.Int.{ℤ, pos, ltb_ℤ, leb_ℤ, add64, instant_after}

pub data BreakerState : Type 0 where
  closed open_circuit half_open : BreakerState

abbrev pub is_open : BreakerState → Bool
is_open open_circuit = true
is_open _ = false

abbrev pub is_half_open : BreakerState → Bool
is_half_open half_open = true
is_half_open _ = false

-- The counters and thresholds are Go's `int`.
pub record CircuitBreaker : Type 0 where
  pub state : BreakerState
  pub failure_count : ℤ
  pub failure_threshold : ℤ
  pub recovery_threshold : ℤ
  pub recovery_count : ℤ
  pub break_duration : ℤ
  pub opened_at : ℕ
  pub half_open_used : Bool

-- `NewCircuitBreaker`
unfoldable pub new_circuit_breaker : ℤ → ℤ → CircuitBreaker
new_circuit_breaker failure_threshold break_duration = record {
  state = closed;
  failure_count = pos 0;
  failure_threshold = failure_threshold;
  recovery_threshold = pos 1;
  recovery_count = pos 0;
  break_duration = break_duration;
  opened_at = 0;
  half_open_used = false;
}

-- `NewCircuitBreakerWithRecovery`
unfoldable pub new_circuit_breaker_with_recovery : ℤ → ℤ → ℤ → CircuitBreaker
new_circuit_breaker_with_recovery failure_threshold recovery_threshold break_duration = record {
  state = closed;
  failure_count = pos 0;
  failure_threshold = failure_threshold;
  recovery_threshold = if ltb_ℤ recovery_threshold (pos 1) then pos 1 else recovery_threshold;
  recovery_count = pos 0;
  break_duration = break_duration;
  opened_at = 0;
  half_open_used = false;
}

-- `cb.now().Sub(cb.openedAt) >= cb.breakDuration`; `now` is not negative, so an end of the break before
-- the origin may stand at the origin
abbrev pub break_over : CircuitBreaker → ℕ → Bool
break_over cb now = leb (instant_after cb.opened_at cb.break_duration) now

-- the `switch` of `Allow`
allow_in : BreakerState → CircuitBreaker → ℕ → CircuitBreaker × Bool
allow_in closed cb now = (cb, true)
allow_in open_circuit cb now =
    if break_over cb now
    then (record cb { state = half_open; half_open_used = true }, true)
    else (cb, false)
allow_in half_open cb now =
    if not cb.half_open_used then (record cb { half_open_used = true }, true) else (cb, false)

-- `Allow`
unfoldable pub allow : CircuitBreaker → ℕ → CircuitBreaker × Bool
unfolding allow_in
allow cb now = allow_in cb.state cb now

-- `RecordSuccess`
unfoldable pub record_success : CircuitBreaker → CircuitBreaker
record_success cb =
    let cb0 = record cb { failure_count = pos 0 } in
    if is_half_open cb.state
    then (let count = add64 cb.recovery_count (pos 1) in
        let cb1 = record cb0 { recovery_count = count } in
        let cb2 =
          if leb_ℤ cb.recovery_threshold count
          then record cb1 { state = closed; recovery_count = pos 0 }
          else cb1 in
        record cb2 { half_open_used = false })
    else record cb0 { state = closed; half_open_used = false }

-- `RecordFailure`
unfoldable pub record_failure : CircuitBreaker → ℕ → CircuitBreaker
record_failure cb now =
    let count = add64 cb.failure_count (pos 1) in
    let cb1 = record cb { failure_count = count; recovery_count = pos 0 } in
    if is_half_open cb.state || leb_ℤ cb.failure_threshold count
    then record cb1 { state = open_circuit; opened_at = now; half_open_used = false }
    else cb1

-- `State`
unfoldable pub current_state : CircuitBreaker → ℕ → CircuitBreaker × BreakerState
current_state cb now =
    let cb' =
      if is_open cb.state && break_over cb now then record cb { state = half_open } else cb in
    (cb', cb'.state)

-- One call of a method, with the clock that it reads.
pub data Call : Type 0 where
  call_allow call_failure call_state : ℕ → Call
  call_success : Call

-- The state that a call leaves.
unfoldable pub step : CircuitBreaker → Call → CircuitBreaker
step cb (call_allow now) = (allow cb now).0
step cb (call_failure now) = record_failure cb now
step cb (call_state now) = (current_state cb now).0
step cb call_success = record_success cb

-- The calls of all goroutines, in the order in which they took the mutex.
unfoldable pub run : CircuitBreaker → List Call → CircuitBreaker
run cb [] = cb
run cb (c ∷ cs) = run (step cb c) cs
