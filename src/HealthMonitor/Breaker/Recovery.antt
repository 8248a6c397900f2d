-- ===== src/HealthMonitor/Breaker/Recovery.antt =====
-- The half-open state: one probe at a time, and how the breaker closes again.
use toska_mesh.Prelude.{
  ℕ, zero, suc, ◌+◌, ◌≤◌, ◌<◌, ◌≡◌, ◌≢◌, false, List, [], ◌∷◌, arith, ltb, if◌then◌else◌, All,
}
use toska_mesh.Prelude.Int.{pos, ◌≤ℤ◌, max_int64, add64, instant_after}
use toska_mesh.HealthMonitor.Breaker.{
  BreakerState, closed, open_circuit, half_open, CircuitBreaker, allow, record_success,
  record_failure, current_state, Call, call_allow, call_failure, call_state, call_success, step,
  run,
}
use toska_mesh.HealthMonitor.Breaker.Invariant.{IsValid}

-- The number of requests that `Allow` lets through in a run.
abbrev pub admitted : CircuitBreaker → Call → ℕ
admitted cb (call_allow now) = if (allow cb now).1 then 1 else 0
admitted cb _ = 0

abbrev pub count_admitted : CircuitBreaker → List Call → ℕ
count_admitted cb [] = 0
count_admitted cb (c ∷ cs) = admitted cb c + count_admitted (step cb c) cs

-- A call that reports the outcome of no request.
abbrev pub NoOutcome : Call → Type 0
NoOutcome (call_allow now) = Unit
NoOutcome (call_state now) = Unit
NoOutcome (call_failure now) = ⊥
NoOutcome call_success = ⊥

-- How many more requests may pass before an outcome is reported.
abbrev probes_left : CircuitBreaker → ℕ
probes_left cb = if cb.half_open_used then 0 else 1

probe_step :
    (cb : CircuitBreaker) (c : Call)
    → cb.state ≢ closed
    → NoOutcome c
    → (cb.state ≡ open_circuit → cb.half_open_used ≡ false)
    → (admitted cb c + probes_left (step cb c) ≤ probes_left cb)
      × ((step cb c).state ≢ closed)
      × ((step cb c).state ≡ open_circuit → (step cb c).half_open_used ≡ false)
unfolding step allow current_state
probe_step cb (call_allow now) s n h = ground arith
probe_step cb (call_state now) s n h = ground arith
probe_step cb (call_failure now) s n h = absurd n
probe_step cb call_success s n h = absurd n

probes-le :
    (cb : CircuitBreaker) (cs : List Call)
    → cb.state ≢ closed
    → All NoOutcome cs
    → (cb.state ≡ open_circuit → cb.half_open_used ≡ false)
    → count_admitted cb cs ≤ probes_left cb
probes-le cb [] s n h = omega arith
probes-le cb (c ∷ cs) s n h =
    let p = probe_step cb c s n.0 h in omega (arith, p.0, probes-le (step cb c) cs p.1 n.1 p.2)

-- A valid breaker that is not closed lets at most one request through until an outcome is reported,
-- whatever calls of `Allow` and `State` are made and whatever the clock says; none if a probe is out.
pub single_probe :
    (cb : CircuitBreaker) (cs : List Call)
    → IsValid cb
    → cb.state ≢ closed
    → All NoOutcome cs
    → count_admitted cb cs ≤ (if cb.half_open_used then 0 else 1)
single_probe cb cs v s n = probes-le cb cs s n (λ o. v.idle_unused (λ e. cc))

abbrev pub successes : ℕ → List Call
successes zero = []
successes (suc n) = call_success ∷ successes n

successes-closed :
    (cb : CircuitBreaker) (n : ℕ) → cb.state ≡ closed → (run cb (successes n)).state ≡ closed
unfolding run step record_success
successes-closed cb zero s = s
successes-closed cb (suc n) s = successes-closed (record_success cb) n (ground arith)

-- A half-open breaker with k successes counted closes at the success that makes up its recovery
-- threshold, and at no earlier one; further successes leave it closed.
pub successes-state :
    (cb : CircuitBreaker) (n k r : ℕ)
    → cb.state ≡ half_open
    → cb.recovery_count ≡ pos k
    → cb.recovery_threshold ≡ pos r
    → k < r
    → r ≤ max_int64
    → (run cb (successes n)).state ≡ (if ltb (k + n) r then half_open else closed)
unfolding run step record_success add64
successes-state cb zero k r s e f h m = ground arith
successes-state cb (suc n) k r s e f h m =
    ground (
      arith,
      successes-state (record_success cb) n (k + 1) r,
      successes-closed (record_success cb) n,
    )

-- A failure in the half-open state opens the breaker for a full break from `now` on, and forgets the
-- successes counted so far.
pub half_open-failure :
    (cb : CircuitBreaker) (now : ℕ)
    → cb.state ≡ half_open
    → ((record_failure cb now).state ≡ open_circuit)
      × ((record_failure cb now).opened_at ≡ now)
      × ((record_failure cb now).recovery_count ≡ pos 0)
      × ((record_failure cb now).half_open_used ≡ false)
unfolding record_failure
half_open-failure cb now s = ground arith

-- The changes of state, with the call and the condition that cause each.
pub data Edge (cb : CircuitBreaker) : Call → BreakerState → Type 0 where
  trip :
      (now : ℕ)
      → cb.state ≡ closed
      → cb.failure_threshold ≤ℤ add64 cb.failure_count (pos 1)
      → Edge cb (call_failure now) open_circuit
  reopen : (now : ℕ) → cb.state ≡ half_open → Edge cb (call_failure now) open_circuit
  probe :
      (now : ℕ)
      → cb.state ≡ open_circuit
      → instant_after cb.opened_at cb.break_duration ≤ now
      → Edge cb (call_allow now) half_open
  expire :
      (now : ℕ)
      → cb.state ≡ open_circuit
      → instant_after cb.opened_at cb.break_duration ≤ now
      → Edge cb (call_state now) half_open
  recover :
      cb.state ≡ half_open
      → cb.recovery_threshold ≤ℤ add64 cb.recovery_count (pos 1)
      → Edge cb call_success closed
  late_success : cb.state ≡ open_circuit → Edge cb call_success closed

-- Every change of state is one of the six edges. In particular no failure, `Allow` or `State` closes
-- the breaker, and an open breaker becomes half-open only once its break is over.
pub step-Edge :
    (cb : CircuitBreaker) (c : Call) → (step cb c).state ≢ cb.state → Edge cb c (step cb c).state
unfolding step allow record_success record_failure current_state
step-Edge cb (call_allow now) h = grind (arith, probe)
step-Edge cb (call_failure now) h = grind (arith, trip, reopen)
step-Edge cb (call_state now) h = grind (arith, expire)
step-Edge cb call_success h = grind (arith, recover, late_success)
