-- ===== src/HealthMonitor/Worker/Status.antt =====
-- When a probe publishes a change of status.
use toska_mesh.Prelude.{String, ◌≡◌, ◌∙◌, inl, inr, some, arith, if◌then◌else◌, Bool-cases}
use toska_mesh.Prelude.Dict.{lookup, lookup-insert_self}
use toska_mesh.Types.{HealthStatus, healthy, status_eq}
use toska_mesh.Messaging.{Broker, Publisher, publish}
use toska_mesh.Consul.{Instance}
use toska_mesh.HealthMonitor.Breaker.{CircuitBreaker, allow, record_success, record_failure}
use toska_mesh.HealthMonitor.Cache.{previous_status}
use toska_mesh.HealthMonitor.Probe.{Surroundings, Outcome, run_probes}
use toska_mesh.HealthMonitor.Worker.{
  Worker, get_breaker, store_breaker, change_event, is_transition, refusal, update_status,
  probe_allowed, probe_instance,
}
use toska_mesh.HealthMonitor.Worker.Cycle.{verdict}

module _ (b : Broker) (env : Surroundings) (inst : Instance) where
  -- the outside after a result is recorded for a worker with the given previous status
  abbrev pub announced : HealthStatus → Outcome → Publisher → b.State → b.State
  announced previous o p s =
      if is_transition previous o.status
      then (publish b p (change_event env inst previous o) env.sent_time env.sent_nano s).2
      else s

  broker-update_status :
      (o : Outcome) (w : Worker) (s : b.State)
      → (update_status b env inst o w s).1
        ≡ announced (previous_status w.cache inst.service_id) o w.publisher s
  unfolding update_status
  broker-update_status o w s = ground arith

  -- A probe publishes one event if the status that it records differs from the cached one and that
  -- one is not unknown, and nothing otherwise; the event names both statuses.
  pub broker-probe_instance :
      (w : Worker) (s : b.State)
      → (probe_instance b env inst w s).1
        ≡ announced (previous_status w.cache inst.service_id) (verdict env inst w) w.publisher s
  unfolding probe_instance probe_allowed
  broker-probe_instance w s =
      elim (Bool-cases (allow (get_breaker w inst.service_id) env.allow_time).1) [
        | inl e ↦ rw (e, probe_instance) (broker-update_status (run_probes w.config env inst) _ s)
        | inr e ↦ rw (e, probe_instance) (broker-update_status refusal _ s)
      ]

  -- The breaker after the outcome of a probe.
  abbrev pub judged : CircuitBreaker → HealthStatus → CircuitBreaker
  judged cb status =
      if status_eq status healthy then record_success cb else record_failure cb env.outcome_time

  breaker-update_status :
      (o : Outcome) (w : Worker) (s : b.State) (id : String)
      → lookup id (update_status b env inst o w s).0.breakers ≡ lookup id w.breakers
  unfolding update_status
  breaker-update_status o w s id = ground arith

  -- A probe that the breaker lets through tells it the outcome: a success if the instance is
  -- healthy, else a failure. A probe that it refuses leaves it as `Allow` did.
  pub breaker-probe_instance :
      (w : Worker) (s : b.State)
      → let (cb, allowed) = allow (get_breaker w inst.service_id) env.allow_time in
        lookup inst.service_id (probe_instance b env inst w s).0.breakers
        ≡ some (if allowed then judged cb (run_probes w.config env inst).status else cb)
  unfolding probe_instance probe_allowed
  breaker-probe_instance w s =
      let cb = (allow (get_breaker w inst.service_id) env.allow_time).0 in
      let o = run_probes w.config env inst in
      let w' = store_breaker w inst.service_id (judged cb o.status) in
      let w'' = store_breaker w inst.service_id cb in
      elim (Bool-cases (allow (get_breaker w inst.service_id) env.allow_time).1) [
        | inl e ↦
            rw (e, probe_instance)
              (breaker-update_status o w' s inst.service_id
                ∙ lookup-insert_self inst.service_id (judged cb o.status) w.breakers)
        | inr e ↦
            rw (e, probe_instance)
              (breaker-update_status refusal w'' s inst.service_id
                ∙ lookup-insert_self inst.service_id cb w.breakers)
      ]
