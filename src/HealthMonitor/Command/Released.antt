-- ===== src/HealthMonitor/Command/Released.antt =====
-- What a run of the health monitor leaves open.
use toska_mesh.Prelude.Int.{pos, ltb_ℤ}
use toska_mesh.Prelude.{
  String, ◌≡◌, subst, inl, inr, none, some, List, [], ◌∷◌, if◌then◌else◌, Bool-cases,
}
use toska_mesh.Prelude.Result.{Result, ok, err, Result-cases}
use toska_mesh.Types.{healthy, status_eq}
use toska_mesh.Messaging.{Broker, Publisher, new_publisher}
use toska_mesh.Messaging.Lifecycle.{
  Connections, Releases, Makes, Keeps, Keeps-refl, Keeps-trans, Owns-Keeps, new_publisher-Makes,
  publish-Keeps, close-Releases,
}
use toska_mesh.Consul.{Instance, Agent, Registry, new_registry, get_instances, get_services}
use toska_mesh.HealthMonitor.Breaker.{allow, record_success, record_failure}
use toska_mesh.HealthMonitor.Cache.{new_cache, previous_status}
use toska_mesh.HealthMonitor.Probe.{Surroundings, Outcome, run_probes}
use toska_mesh.HealthMonitor.Worker.{
  Worker, get_breaker, store_breaker, change_event, is_transition, refusal, update_status,
  probe_allowed, probe_instance, probe_list, Cycled, probe_service, probe_services, probe_cycle,
  probe_all,
}
use toska_mesh.HealthMonitor.Server.{
  Settings, load_settings, new_worker, Action, tick, request, Monitor, cycle, serve, run_monitor,
}
use toska_mesh.HealthMonitor.Command.{
  MonitorMachine, MonitorEnded, monitoring, run_settings, run_health_monitor,
}

module _ (b : Broker) (k : Connections b) where
  -- The probes keep the worker's connection.
  abbrev Holds : Worker → b.State → Worker × b.State → Type 0
  Holds w s (w', s') = Keeps b k (w.publisher, s) (w'.publisher, s')

  update_status-Holds :
      (env : Surroundings) (inst : Instance) (o : Outcome) (w : Worker) (s : b.State)
      → Holds w s (update_status b env inst o w s)
  unfolding update_status
  update_status-Holds env inst o w s =
      let previous = previous_status w.cache inst.service_id in
      elim (Bool-cases (is_transition previous o.status)) [
        | inl e ↦
            rw (e, update_status)
              (publish-Keeps b k w.publisher (change_event env inst previous o) env.sent_time
                env.sent_nano s)
        | inr e ↦ rw (e, update_status) (Keeps-refl b k w.publisher s)
      ]

  probe_instance-Holds :
      (env : Surroundings) (inst : Instance) (w : Worker) (s : b.State)
      → Holds w s (probe_instance b env inst w s)
  unfolding probe_instance probe_allowed store_breaker
  probe_instance-Holds env inst w s =
      let (cb, allowed) = allow (get_breaker w inst.service_id) env.allow_time in
      let o = run_probes w.config env inst in
      let cb' =
        if status_eq o.status healthy
        then record_success cb
        else record_failure cb env.outcome_time in
      elim (Bool-cases allowed) [
        | inl e ↦
            rw (e, probe_instance, probe_allowed)
              (update_status-Holds env inst o (store_breaker w inst.service_id cb') s)
        | inr e ↦
            rw (e, probe_instance)
              (update_status-Holds env inst refusal (store_breaker w inst.service_id cb) s)
      ]

  probe_list-Holds :
      (env : Instance → Surroundings) (insts : List Instance) (w : Worker) (s : b.State)
      → Holds w s (probe_list b env insts w s)
  unfolding probe_list
  probe_list-Holds env [] w s = Keeps-refl b k w.publisher s
  probe_list-Holds env (inst ∷ rest) w s =
      let (w', s') = probe_instance b (env inst) inst w s in
      let (w'', s'') = probe_list b env rest w' s' in
      Keeps-trans b k w.publisher w'.publisher w''.publisher s s' s''
        (probe_instance-Holds (env inst) inst w s) (probe_list-Holds env rest w' s')

module _ (b : Broker) (a : Agent) (k : Connections b) where
  -- what a cycle and the loop keep
  abbrev HoldsCycle : Cycled b a → Cycled b a → Type 0
  HoldsCycle c c' = Keeps b k (c.worker.publisher, c.broker) (c'.worker.publisher, c'.broker)

  abbrev HoldsMonitor : Monitor b a → Monitor b a → Type 0
  HoldsMonitor m m' = Keeps b k (m.worker.publisher, m.broker) (m'.worker.publisher, m'.broker)

  probe_service-HoldsCycle :
      (env : Instance → Surroundings) (c : Cycled b a) (t : a.State)
      (answer : Result (List Instance))
      → HoldsCycle c (probe_service b a env c t answer)
  unfolding probe_service
  probe_service-HoldsCycle env c t (err e) = Keeps-refl b k c.worker.publisher c.broker
  probe_service-HoldsCycle env c t (ok insts) = probe_list-Holds b k env insts c.worker c.broker

  probe_services-HoldsCycle :
      (env : Instance → Surroundings) (names : List String) (c : Cycled b a)
      → HoldsCycle c (probe_services b a env names c)
  unfolding probe_services
  probe_services-HoldsCycle env [] c = Keeps-refl b k c.worker.publisher c.broker
  probe_services-HoldsCycle env (name ∷ rest) c =
      let (answer, t) = get_instances a c.worker.registry name c.agent in
      let c' = probe_service b a env c t answer in
      let c'' = probe_services b a env rest c' in
      Keeps-trans b k c.worker.publisher c'.worker.publisher c''.worker.publisher c.broker c'.broker
        c''.broker (probe_service-HoldsCycle env c t answer) (probe_services-HoldsCycle env rest c')

  probe_cycle-Holds :
      (env : Instance → Surroundings) (w : Worker) (s : b.State) (t : a.State)
      (answer : Result (List String))
      → Keeps b k
          (w.publisher, s)
          (
            (probe_cycle b a env w s t answer).worker.publisher,
            (probe_cycle b a env w s t answer).broker,
          )
  unfolding probe_cycle
  probe_cycle-Holds env w s t (err e) = Keeps-refl b k w.publisher s
  probe_cycle-Holds env w s t (ok services) =
      probe_services-HoldsCycle env services
        (record { worker = w; live = []; broker = s; agent = t })

  cycle-HoldsMonitor :
      (env : Instance → Surroundings) (m : Monitor b a) → HoldsMonitor m (cycle b a env m)
  unfolding cycle probe_all
  cycle-HoldsMonitor env m =
      let (answer, t) = get_services a m.agent in probe_cycle-Holds env m.worker m.broker t answer

  serve-HoldsMonitor : (acts : List Action) (m : Monitor b a) → HoldsMonitor m (serve b a acts m).0
  unfolding serve
  serve-HoldsMonitor [] m = Keeps-refl b k m.worker.publisher m.broker
  serve-HoldsMonitor (tick env ∷ rest) m =
      let m' = cycle b a env m in
      let m'' = (serve b a rest m').0 in
      Keeps-trans b k m.worker.publisher m'.worker.publisher m''.worker.publisher m.broker m'.broker
        m''.broker (cycle-HoldsMonitor env m) (serve-HoldsMonitor rest m')
  serve-HoldsMonitor (request q ∷ rest) m = serve-HoldsMonitor rest m

  MonitorEnded-Releases :
      (w : b.State) (e ended : MonitorEnded b a)
      → some e ≡ some ended
      → Releases b k w e.broker
      → Releases b k w ended.broker
  MonitorEnded-Releases w e ended r h =
      let same : e ≡ ended = cc in subst (λ x. Releases b k w x.broker) same h

  monitoring-Releases :
      (m : MonitorMachine) (cfg : Settings) (registry : Registry) (v : a.State) (w w' : b.State)
      (made : Result Publisher) (ended : MonitorEnded b a)
      → Makes b k w (made, w')
      → monitoring b a m cfg registry v (made, w') ≡ some ended
      → Releases b k w ended.broker
  unfolding monitoring run_monitor new_worker
  monitoring-Releases m cfg registry v w w' (err e) ended h r = MonitorEnded-Releases w _ ended r h
  monitoring-Releases m cfg registry v w w' (ok p) ended h r =
      let start : Monitor b a = record {
        worker = new_worker registry p new_cache cfg.config;
        broker = w';
        agent = v;
      } in
      let after = (run_monitor b a m.first m.actions start).0 in
      let kept = serve-HoldsMonitor (tick m.first ∷ m.actions) start in
      let released =
        close-Releases b k after.worker.publisher w after.broker
          (Owns-Keeps b k p after.worker.publisher w w' after.broker h kept) in
      elim (Bool-cases (ltb_ℤ (pos 0) cfg.config.probe_interval)) [
        | inl e ↦ MonitorEnded-Releases w _ ended (rw (e) at r) released
        | inr e ↦ let bad : none ≡ some ended = rw (e) at r in cc
      ]

  run_settings-Releases :
      (m : MonitorMachine) (cfg : Settings) (w : b.State) (v : a.State) (ended : MonitorEnded b a)
      → run_settings b a m cfg w v ≡ some ended
      → Releases b k w ended.broker
  unfolding run_settings
  run_settings-Releases m cfg w v ended r =
      let made = new_publisher b cfg.rabbit_url w in
      elim (Result-cases (new_registry m.new_client cfg.consul_addr)) [
        | inl (registry, e) ↦
            monitoring-Releases m cfg registry v w made.1 made.0 ended
              (new_publisher-Makes b k cfg.rabbit_url w) (rw (e, run_settings) at r)
        | inr (x, e) ↦ MonitorEnded-Releases w _ ended (rw (e, run_settings) at r) (λ d o. o)
      ]

  -- However a run of the health monitor ends, but for a panic, it leaves no connection to RabbitMQ open:
  -- not when the Consul client, the connection or its channel cannot be made, and not after any cycles
  -- of probes, with their publications, and any requests to its API, whether the HTTP server failed or
  -- was shut down. Every connection that is open afterwards was open before. (The AMQP client opens a
  -- connection only by a dial that returns it, and a closed one is not open. The run panics where the
  -- probe interval, whose product with a second wraps at 64 bits, is not positive.)
  pub run_health_monitor-Releases :
      (m : MonitorMachine) (w : b.State) (v : a.State) (ended : MonitorEnded b a)
      → run_health_monitor b a m w v ≡ some ended
      → Releases b k w ended.broker
  unfolding run_health_monitor
  run_health_monitor-Releases m w v ended e =
      run_settings-Releases m (load_settings m.getenv) w v ended e
