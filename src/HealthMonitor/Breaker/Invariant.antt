-- ===== src/HealthMonitor/Breaker/Invariant.antt =====
-- What holds of a breaker between two calls.
use toska_mesh.Prelude.{ℕ, ◌≡◌, ◌≢◌, false, List, [], ◌∷◌, arith}
use toska_mesh.Prelude.Int.{ℤ, pos, ◌≤ℤ◌, ◌<ℤ◌, add64, IsInt64}
use toska_mesh.HealthMonitor.Breaker.{
  closed, half_open, CircuitBreaker, new_circuit_breaker_with_recovery, allow, record_success,
  record_failure, current_state, Call, call_allow, call_failure, call_state, call_success, step,
  run,
}

pub record IsValid (cb : CircuitBreaker) : Type 0 where
  pub threshold_range : IsInt64 cb.failure_threshold
  pub recovery_range : IsInt64 cb.recovery_threshold
  pub recovery_nonneg : pos 0 ≤ℤ cb.recovery_count
  pub recovery_below : cb.recovery_count <ℤ cb.recovery_threshold
  pub closed_nonneg : cb.state ≡ closed → pos 0 ≤ℤ cb.failure_count
  pub closed_below : cb.state ≡ closed → cb.failure_count <ℤ cb.failure_threshold
  pub idle_unused : cb.state ≢ half_open → cb.half_open_used ≡ false
  pub idle_recovery : cb.state ≢ half_open → cb.recovery_count ≡ pos 0

pub new-IsValid :
    (ft rt d : ℤ)
    → IsInt64 ft
    → IsInt64 rt
    → pos 0 <ℤ ft
    → IsValid (new_circuit_breaker_with_recovery ft rt d)
unfolding new_circuit_breaker_with_recovery
new-IsValid ft rt d hf hr h = ground arith

pub allow-IsValid : (cb : CircuitBreaker) (now : ℕ) → IsValid cb → IsValid (allow cb now).0
unfolding allow
allow-IsValid cb now v = ground arith

pub record_success-IsValid :
    (cb : CircuitBreaker) → IsValid cb → pos 0 <ℤ cb.failure_threshold → IsValid (record_success cb)
unfolding record_success add64
record_success-IsValid cb v h = ground arith

pub record_failure-IsValid :
    (cb : CircuitBreaker) (now : ℕ) → IsValid cb → IsValid (record_failure cb now)
unfolding record_failure add64
record_failure-IsValid cb now v = ground arith

pub current_state-IsValid :
    (cb : CircuitBreaker) (now : ℕ) → IsValid cb → IsValid (current_state cb now).0
unfolding current_state
current_state-IsValid cb now v = ground arith

pub step-threshold :
    (cb : CircuitBreaker) (c : Call) → (step cb c).failure_threshold ≡ cb.failure_threshold
unfolding step allow record_success record_failure current_state
step-threshold cb (call_allow now) = ground arith
step-threshold cb (call_failure now) = ground arith
step-threshold cb (call_state now) = ground arith
step-threshold cb call_success = ground arith

pub step-IsValid :
    (cb : CircuitBreaker) (c : Call)
    → IsValid cb
    → pos 0 <ℤ cb.failure_threshold
    → IsValid (step cb c)
unfolding step
step-IsValid cb (call_allow now) v h = allow-IsValid cb now v
step-IsValid cb (call_failure now) v h = record_failure-IsValid cb now v
step-IsValid cb (call_state now) v h = current_state-IsValid cb now v
step-IsValid cb call_success v h = record_success-IsValid cb v h

pub run-positive :
    (cb : CircuitBreaker) (cs : List Call)
    → pos 0 <ℤ cb.failure_threshold
    → pos 0 <ℤ (run cb cs).failure_threshold
unfolding run
run-positive cb [] h = h
run-positive cb (c ∷ cs) h = run-positive (step cb c) cs (rw (step-threshold cb c) h)

-- With a positive failure threshold, every sequence of calls keeps the invariant: the recovery count
-- stays in [0, recovery threshold), a closed breaker has counted fewer failures than its threshold,
-- and outside the half-open state no probe is outstanding and no recovery is counted.
pub run-IsValid :
    (cb : CircuitBreaker) (cs : List Call)
    → IsValid cb
    → pos 0 <ℤ cb.failure_threshold
    → IsValid (run cb cs)
unfolding run
run-IsValid cb [] v h = v
run-IsValid cb (c ∷ cs) v h =
    run-IsValid (step cb c) cs (step-IsValid cb c v h) (rw (step-threshold cb c) h)
