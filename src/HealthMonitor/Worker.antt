-- ===== src/HealthMonitor/Worker.antt =====
-- internal/healthmonitor/worker.go: the probe worker. The goroutines of one cycle work on
-- different service IDs; here they run one after another, in the order of the lists. What the network
-- answers, and the clock at each reading, are arguments.
pub mod Sound
pub mod Cycle
pub mod Status
pub mod Unprobed
pub mod Order
use toska_mesh.Prelude.{
  String, Bool, not, ◌&&◌, none, some, List, [], ◌∷◌, ◌++◌, str_eq, if◌then◌else◌, any,
}
use toska_mesh.Prelude.Int.{pos, add64}
use toska_mesh.Prelude.Dict.{Dict, lookup, insert}
use toska_mesh.Prelude.Text.{format_int}
use toska_mesh.Prelude.Result.{Result, ok, err}
use toska_mesh.Types.{HealthStatus, unknown, healthy, unhealthy, to_string, status_eq}
use toska_mesh.Messaging.{Event, service_health_changed, Broker, Publisher, publish}
use toska_mesh.Consul
use toska_mesh.Consul.{Instance, Agent, Registry, get_instances, get_services}
use toska_mesh.HealthMonitor.Config.{Config}
use toska_mesh.HealthMonitor.Probe.{Surroundings, Outcome, run_probes}
use toska_mesh.HealthMonitor.Breaker.{
  CircuitBreaker, new_circuit_breaker_with_recovery, allow, record_success, record_failure,
}
use toska_mesh.HealthMonitor.Cache.{
  MonitoredInstance, Cache, update, get_all, remove, previous_status,
}

pub record Worker : Type 0 where
  pub registry : Registry
  pub publisher : Publisher
  pub cache : Cache
  pub config : Config
  pub breakers : Dict CircuitBreaker

-- `getBreaker`: the breaker of the ID, which breaks for twice the interval; a new one is put into the map by `store_breaker`.
unfoldable pub get_breaker : Worker → String → CircuitBreaker
get_breaker w id = elim (lookup id w.breakers) [
  | some cb ↦ cb
  | none ↦
      new_circuit_breaker_with_recovery w.config.failure_threshold w.config.recovery_threshold
        (add64 w.config.probe_interval w.config.probe_interval)
]

abbrev pub store_breaker : Worker → String → CircuitBreaker → Worker
store_breaker w id cb = record w { breakers = insert id cb w.breakers }

-- the entry that `updateStatus` puts into the cache
unfoldable pub entry_of : Surroundings → Instance → Outcome → MonitoredInstance
entry_of env inst o = record {
  service_id = inst.service_id;
  service_name = inst.service_name;
  address = inst.address;
  port = inst.port;
  status = o.status;
  last_probe = env.update_time;
  probe_type = o.probe_type;
  message = o.message;
  metadata = inst.metadata;
}

-- the event that `updateStatus` publishes
unfoldable pub change_event : Surroundings → Instance → HealthStatus → Outcome → Event
change_event env inst previous o = service_health_changed (record {
  event_id = format_int (pos env.event_nano) 10;
  timestamp = env.event_time;
  correlation_id = "";
  service_id = inst.service_id;
  service_name = inst.service_name;
  previous_status = to_string previous;
  current_status = to_string o.status;
  health_check_output = o.message;
})

-- `previousStatus != status && previousStatus != StatusUnknown`
abbrev pub is_transition : HealthStatus → HealthStatus → Bool
is_transition previous status = not (status_eq previous status) && not (status_eq previous unknown)

-- what `probeInstance` records while the breaker refuses
abbrev pub refusal : Outcome
refusal = record {
  status = unhealthy;
  probe_type = "circuit-breaker";
  message = "Circuit open due to repeated failures";
}

module _ (b : Broker) where
  -- `updateStatus`; the error of `Publish` is dropped.
  unfoldable pub update_status :
      Surroundings → Instance → Outcome → Worker → b.State → Worker × b.State
  update_status env inst o w s =
      let previous = previous_status w.cache inst.service_id in
      let w' = record w { cache = update w.cache (entry_of env inst o) } in
      let (failure, p, s') =
        publish b w.publisher (change_event env inst previous o) env.sent_time env.sent_nano s in
      if is_transition previous o.status then (record w' { publisher = p }, s') else (w', s)

  -- the branch of `probeInstance` in which the breaker lets the probe through
  unfoldable pub probe_allowed :
      Surroundings → Instance → CircuitBreaker → Worker → b.State → Worker × b.State
  probe_allowed env inst cb w s =
      let o = run_probes w.config env inst in
      let cb' =
        if status_eq o.status healthy
        then record_success cb
        else record_failure cb env.outcome_time in
      update_status env inst o (store_breaker w inst.service_id cb') s

  -- `probeInstance`
  unfoldable pub probe_instance : Surroundings → Instance → Worker → b.State → Worker × b.State
  probe_instance env inst w s =
      let (cb, allowed) = allow (get_breaker w inst.service_id) env.allow_time in
      if allowed
      then probe_allowed env inst cb w s
      else update_status env inst refusal (store_breaker w inst.service_id cb) s

  -- the probes of one service
  unfoldable pub probe_list :
      (Instance → Surroundings) → List Instance → Worker → b.State → Worker × b.State
  probe_list env [] w s = (w, s)
  probe_list env (inst ∷ rest) w s =
      let (w', s') = probe_instance (env inst) inst w s in probe_list env rest w' s'

abbrev pub ids_of : List Instance → List String
ids_of [] = []
ids_of (inst ∷ rest) = inst.service_id ∷ ids_of rest

-- the last loop of `probeAll`, over the snapshot of the cache
unfoldable pub evict_stale : List String → List MonitoredInstance → Cache → Cache
evict_stale live [] c = c
evict_stale live (cached ∷ rest) c =
    evict_stale live rest
      (if any (λ id. str_eq id cached.service_id) live then c else remove c cached.service_id)

-- What a cycle leaves: the worker, the service IDs seen, and the outside.
module _ (b : Broker) (a : Agent) where
  pub record Cycled : Type 0 where
    pub worker : Worker
    pub live : List String
    pub broker : b.State
    pub agent : a.State

  -- the goroutine of one service, after its instances are listed
  unfoldable pub probe_service :
      (Instance → Surroundings) → Cycled → a.State → Result (List Instance) → Cycled
  probe_service env c t (err e) = record c { agent = t }
  probe_service env c t (ok instances) =
      let (w, s) = probe_list b env instances c.worker c.broker in
      record { worker = w; live = ids_of instances ++ c.live; broker = s; agent = t }

  -- the services of a cycle
  unfoldable pub probe_services : (Instance → Surroundings) → List String → Cycled → Cycled
  probe_services env [] c = c
  probe_services env (name ∷ rest) c =
      let (answer, t) = get_instances a c.worker.registry name c.agent in
      probe_services env rest (probe_service env c t answer)

  -- `probeAll`, after the services are listed
  unfoldable pub probe_cycle :
      (Instance → Surroundings) → Worker → b.State → a.State → Result (List String) → Cycled
  probe_cycle env w s t (err e) = record { worker = w; live = []; broker = s; agent = t }
  probe_cycle env w s t (ok services) =
      let c =
        probe_services env services (record { worker = w; live = []; broker = s; agent = t }) in
      let cache' = evict_stale c.live (get_all c.worker.cache) c.worker.cache in
      record c { worker = record c.worker { cache = cache' } }

  -- `probeAll`
  unfoldable pub probe_all : (Instance → Surroundings) → Worker → b.State → a.State → Cycled
  unfolding probe_cycle
  probe_all env w s t = let (answer, t') = get_services a t in probe_cycle env w s t' answer
