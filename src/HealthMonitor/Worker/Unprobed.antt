-- ===== src/HealthMonitor/Worker/Unprobed.antt =====
-- An instance that says nothing of how to probe it.
use toska_mesh.Prelude.{
  ℕ, ◌+◌, ◌<◌, String, ◌≡◌, sym, ap, ◌∙◌, ◌≢◌, false, Option, none, some, arith, str_eq, eq_refl,
  if◌then◌else◌,
}
use toska_mesh.Prelude.Dict.{lookup}
use toska_mesh.Types.{unknown}
use toska_mesh.Messaging.{Broker}
use toska_mesh.Consul.{Instance}
use toska_mesh.HealthMonitor.Breaker.{closed, open_circuit, CircuitBreaker, allow, record_failure}
use toska_mesh.HealthMonitor.Config.{Config}
use toska_mesh.HealthMonitor.Probe.{Surroundings, given, Outcome, run_probes}
use toska_mesh.HealthMonitor.Worker.{Worker, get_breaker, entry_of, refusal, probe_instance}
use toska_mesh.HealthMonitor.Breaker.Trip.{record_failure-break}
use toska_mesh.HealthMonitor.Cache.Views.{get-update}
use toska_mesh.HealthMonitor.Worker.Status.{breaker-probe_instance}
use toska_mesh.Prelude.Int.{pos, max_int64, add64, instant_after}
use toska_mesh.HealthMonitor.Cache.{MonitoredInstance, get}
use toska_mesh.HealthMonitor.Worker.Cycle.{verdict, cache-probe_instance}

-- The metadata give neither an HTTP endpoint nor a TCP port.
abbrev pub IsUnprobed : Instance → Type 0
IsUnprobed inst =
    (given "health_check_endpoint" inst.metadata ≡ none) × (given "tcp_port" inst.metadata ≡ none)

run_probes-unprobed :
    (config : Config) (env : Surroundings) (inst : Instance)
    → IsUnprobed inst
    → (run_probes config env inst).status ≡ unknown
unfolding run_probes
run_probes-unprobed config env inst u = ground arith

-- The breaker of an instance without probe configuration is told of a failure.
pub unprobed-failure :
    (b : Broker) (env : Surroundings) (inst : Instance) (w : Worker) (s : b.State)
    → IsUnprobed inst
    → (get_breaker w inst.service_id).state ≡ closed
    → lookup inst.service_id (probe_instance b env inst w s).0.breakers
      ≡ some (record_failure (get_breaker w inst.service_id) env.outcome_time)
unfolding allow
unprobed-failure b env inst w s u c =
    breaker-probe_instance b env inst w s ∙ ground (arith, run_probes-unprobed w.config env inst u)

last_failure :
    (cb : CircuitBreaker) (now k : ℕ)
    → cb.state ≡ closed
    → cb.failure_count ≡ pos k
    → cb.failure_threshold ≡ pos (k + 1)
    → k < max_int64
    → (record_failure cb now).state ≡ open_circuit
unfolding record_failure add64
last_failure cb now k c e t m = ground arith

closed-ne-open : closed ≢ open_circuit
closed-ne-open e = cc

entry_self :
    (env : Surroundings) (inst : Instance) (o : Outcome) (old : Option MonitoredInstance)
    → (if str_eq (entry_of env inst o).service_id inst.service_id
        then some (entry_of env inst o)
        else old)
      ≡ some (entry_of env inst o)
unfolding entry_of
entry_self env inst o old = rw (eq_refl inst.service_id)

refused :
    (cb : CircuitBreaker) (now k later : ℕ)
    → cb.state ≡ closed
    → cb.failure_count ≡ pos k
    → cb.failure_threshold ≡ pos (k + 1)
    → k < max_int64
    → later < instant_after now cb.break_duration
    → (allow (record_failure cb now) later).1 ≡ false
refused cb now k later c e t m h =
    record_failure-break cb now later (last_failure cb now k c e t m)
      (λ o. closed-ne-open (sym c ∙ o))
    ∙ ground arith

get_breaker-stored :
    (w : Worker) (id : String) (cb : CircuitBreaker)
    → lookup id w.breakers ≡ some cb
    → get_breaker w id ≡ cb
unfolding get_breaker
get_breaker-stored w id cb e = ground arith

-- An instance without any probe configuration is reported unhealthy: its probes, of unknown outcome,
-- count as failures, so that the one that makes up the failure threshold opens the breaker, and the
-- next probe before the break is over records "unhealthy" with the message of the open breaker.
pub unprobed-unhealthy :
    (b : Broker) (env env' : Surroundings) (inst : Instance) (w : Worker) (s s' : b.State) (k : ℕ)
    → IsUnprobed inst
    → (get_breaker w inst.service_id).state ≡ closed
    → (get_breaker w inst.service_id).failure_count ≡ pos k
    → (get_breaker w inst.service_id).failure_threshold ≡ pos (k + 1)
    → k < max_int64
    → env'.allow_time
      < instant_after env.outcome_time (get_breaker w inst.service_id).break_duration
    → let w' = (probe_instance b env inst w s).0 in
      get (probe_instance b env' inst w' s').0.cache inst.service_id
      ≡ some (entry_of env' inst refusal)
unprobed-unhealthy b env env' inst w s s' k u c e t m h =
    let cb = get_breaker w inst.service_id in
    let w' = (probe_instance b env inst w s).0 in
    let stored = unprobed-failure b env inst w s u c in
    let found = get_breaker-stored w' inst.service_id (record_failure cb env.outcome_time) stored in
    let no_entry : (allow (get_breaker w' inst.service_id) env'.allow_time).1 ≡ false =
      ap (λ d. (allow d env'.allow_time).1) found
      ∙ refused cb env.outcome_time k env'.allow_time c e t m h in
    ap (λ d. get d inst.service_id) (cache-probe_instance b env' inst w' s')
    ∙ get-update w'.cache (entry_of env' inst (verdict env' inst w')) inst.service_id
    ∙ entry_self env' inst (verdict env' inst w') (get w'.cache inst.service_id)
    ∙ ap (λ o. some (entry_of env' inst o))
        (ap (λ a. if a then run_probes w'.config env' inst else refusal) no_entry)
