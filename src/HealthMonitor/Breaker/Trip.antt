-- ===== src/HealthMonitor/Breaker/Trip.antt =====
-- When the breaker opens, and that it fails fast while it is open.
use toska_mesh.Prelude.{
  ℕ, ◌+◌, ◌≤◌, ◌<◌, ◌≡◌, refl, ◌≢◌, Bool, false, List, [], ◌∷◌, map, arith, ltb, leb, if◌then◌else◌,
  length, All,
}
use toska_mesh.Prelude.Int.{pos, max_int64, add64, instant_after}
use toska_mesh.HealthMonitor.Breaker.{
  closed, open_circuit, CircuitBreaker, allow, record_failure, Call, call_failure, step, run,
}

-- The calls of consecutive failures, at the given instants.
abbrev pub failures : List ℕ → List Call
failures [] = []
failures (now ∷ ts) = call_failure now ∷ failures ts

-- A failure of a closed breaker is counted, and opens the breaker if it makes up the threshold.
closed-failure :
    (cb : CircuitBreaker) (now k t : ℕ)
    → cb.state ≡ closed
    → cb.failure_count ≡ pos k
    → cb.failure_threshold ≡ pos t
    → k < t
    → t ≤ max_int64
    → (record_failure cb now).state ≡ (if ltb (k + 1) t then closed else open_circuit)
unfolding record_failure add64
closed-failure cb now k t s e f h m = ground arith

-- Any number of failures, fewer than what is left to the threshold, leaves the breaker closed.
pub failures-closed :
    (cb : CircuitBreaker) (ts : List ℕ) (k t : ℕ)
    → cb.state ≡ closed
    → cb.failure_count ≡ pos k
    → cb.failure_threshold ≡ pos t
    → k + length ts < t
    → t ≤ max_int64
    → ((run cb (failures ts)).state ≡ closed)
      × ((run cb (failures ts)).failure_count ≡ pos (k + length ts))
unfolding run step record_failure add64
failures-closed cb [] k t s e f h m = ground arith
failures-closed cb (now ∷ ts) k t s e f h m =
    ground (arith, failures-closed (record_failure cb now) ts (k + 1) t)

-- An open breaker has counted its threshold of failures.
abbrev IsTripped : CircuitBreaker → ℕ → ℕ → Type 0
IsTripped cb k t = (cb.state ≡ open_circuit) × (cb.failure_count ≡ pos k) × (t ≤ k)

failures-open :
    (cb : CircuitBreaker) (ts : List ℕ) (k t : ℕ)
    → IsTripped cb k t
    → cb.failure_threshold ≡ pos t
    → k + length ts ≤ max_int64
    → (run cb (failures ts)).state ≡ open_circuit
unfolding run step record_failure add64
failures-open cb [] k t s f h = s.0
failures-open cb (now ∷ ts) k t s f h =
    ground (arith, failures-open (record_failure cb now) ts (k + 1) t)

-- A closed breaker with k failures counted opens at the failure that makes up its threshold, and at
-- no earlier one; further failures leave it open. (The count is taken not to pass the largest int.)
pub failures-state :
    (cb : CircuitBreaker) (ts : List ℕ) (k t : ℕ)
    → cb.state ≡ closed
    → cb.failure_count ≡ pos k
    → cb.failure_threshold ≡ pos t
    → k < t
    → t ≤ max_int64
    → k + length ts ≤ max_int64
    → (run cb (failures ts)).state ≡ (if ltb (k + length ts) t then closed else open_circuit)
unfolding run step record_failure add64
failures-state cb [] k t s e f h m b = ground arith
failures-state cb (now ∷ ts) k t s e f h m b = ground (
  arith,
  failures-state (record_failure cb now) ts (k + 1) t,
  failures-open (record_failure cb now) ts (k + 1) t,
)

-- The answers of consecutive calls of `Allow`, and the breaker that they leave.
abbrev pub allow_all : CircuitBreaker → List ℕ → CircuitBreaker × List Bool
allow_all cb [] = (cb, [])
allow_all cb (now ∷ ts) =
    let (cb', answer) = allow cb now in
    let (cb'', answers) = allow_all cb' ts in (cb'', answer ∷ answers)

-- While the break lasts, `Allow` refuses every request and changes nothing.
pub allow_all-fail_fast :
    (cb : CircuitBreaker) (ts : List ℕ)
    → cb.state ≡ open_circuit
    → All (λ now. now < instant_after cb.opened_at cb.break_duration) ts
    → allow_all cb ts ≡ (cb, map (λ now. false) ts)
unfolding allow
allow_all-fail_fast cb [] s h = refl
allow_all-fail_fast cb (now ∷ ts) s h = ground (arith, allow_all-fail_fast cb ts s h.1)

-- A failure that opens the breaker at `now` starts a break of the full duration: until it is over
-- every request is refused, and the first one after it is let through as the probe.
pub record_failure-break :
    (cb : CircuitBreaker) (now later : ℕ)
    → (record_failure cb now).state ≡ open_circuit
    → (cb.state ≢ open_circuit)
    → (allow (record_failure cb now) later).1 ≡ leb (instant_after now cb.break_duration) later
unfolding allow record_failure add64
record_failure-break cb now later s o = ground arith
