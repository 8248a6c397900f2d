-- ===== src/HealthMonitor/Breaker/Tests.antt =====
-- Runs of the breaker at concrete inputs.
use toska_mesh.Prelude.{◌≤◌, ◌≡◌, ◌≢◌, false, [], ◌∷◌, arith}
use toska_mesh.Prelude.Int.{pos, add64}
use toska_mesh.HealthMonitor.Breaker.{
  closed, open_circuit, CircuitBreaker, allow, record_failure, call_allow, call_failure, call_state,
  call_success, step, run,
}
use toska_mesh.HealthMonitor.Breaker.Invariant.{IsValid, run-IsValid}
use toska_mesh.HealthMonitor.Breaker.Recovery.{count_admitted, single_probe, Edge, step-Edge}

abbrev start : CircuitBreaker
start = record {
  state = closed;
  failure_count = pos 0;
  failure_threshold = pos 3;
  recovery_threshold = pos 2;
  recovery_count = pos 0;
  break_duration = pos 100;
  opened_at = 0;
  half_open_used = false;
}

abbrev tripped : CircuitBreaker
tripped = record start { state = open_circuit; failure_count = pos 3; opened_at = 30 }

abbrev near : CircuitBreaker
near = record start { failure_count = pos 2 }

start-IsValid : IsValid start
start-IsValid = ground arith

tripped-IsValid : IsValid tripped
tripped-IsValid = ground arith

run-IsValid_example : IsValid (run start (call_failure 5 ∷ call_allow 6 ∷ call_success ∷ []))
run-IsValid_example =
    run-IsValid start (call_failure 5 ∷ call_allow 6 ∷ call_success ∷ []) start-IsValid
      (ground arith)

near_trips : (record_failure near 50).state ≡ open_circuit
unfolding record_failure add64
near_trips = ground arith

single_probe_example :
    count_admitted tripped (call_allow 130 ∷ call_allow 131 ∷ call_state 132 ∷ []) ≤ 1
single_probe_example =
    single_probe tripped (call_allow 130 ∷ call_allow 131 ∷ call_state 132 ∷ []) tripped-IsValid
      (λ e. cc) (tt, (tt, (tt, tt)))

changes : (step tripped (call_allow 130)).state ≢ tripped.state
unfolding step allow
changes e = ground arith

step-Edge_example : Edge tripped (call_allow 130) (step tripped (call_allow 130)).state
step-Edge_example = step-Edge tripped (call_allow 130) changes
