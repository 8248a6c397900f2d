-- ===== src/Discovery/Command/Released.antt =====
-- What a run of the discovery server leaves open.
use toska_mesh.Prelude.{String, inl, inr, Option, none, some, List, [], ◌∷◌, Bool-cases}
use toska_mesh.Prelude.Result.{Result, ok, err, Result-cases}
use toska_mesh.Prelude.Env.{env_or}
use toska_mesh.Consul
use toska_mesh.Prelude.Dict.{lookup}
use toska_mesh.Types.{HealthStatus, status_eq}
use toska_mesh.Messaging.{Event, Broker, Publisher, new_publisher}
use toska_mesh.Messaging.Lifecycle.{
  Connections, Owns, Releases, Makes, Keeps, Keeps-refl, Keeps-trans, Owns-Keeps,
  new_publisher-Makes, publish-Keeps, close-Releases,
}
use toska_mesh.Consul.{
  Registration, Agent, Registry, new_registry, register, deregister, get_instances, get_services,
  update_health,
}
use toska_mesh.Discovery.Messages.{TrackingInfo, ReportHealthRequest, from_proto_health}
use toska_mesh.Discovery
use toska_mesh.Discovery.{
  Clock, registered_event, deregistered_event, health_event, Server, announce, register_answered,
  deregister_answered, announce_health, health_answered, report_health,
}
use toska_mesh.Discovery.Command.{
  Rpc, register_rpc, deregister_rpc, get_instances_rpc, get_services_rpc, report_health_rpc,
  DiscoveryMachine, new_server, answer_rpc, answer_rpcs, listening, publisher_made, run_discovery,
}

module _ (b : Broker) (a : Agent) (k : Connections b) where
  -- the publisher of a server, and the broker
  abbrev link : Server b a → Publisher × b.State
  link s = (s.publisher, s.broker)

  announce-Keeps :
      (s : Server b a) (t : Clock) (e : Event) → Keeps b k (link s) (link (announce b a s t e))
  unfolding announce
  announce-Keeps s t e = publish-Keeps b k s.publisher e t.sent_time t.sent_nano s.broker

  register_answered-Keeps :
      (reg : Registration) (t : Clock) (s : Server b a) (failure : Option String)
      → Keeps b k (link s) (link (register_answered b a reg t s failure).0)
  unfolding register_answered
  register_answered-Keeps reg t s (some e) = Keeps-refl b k s.publisher s.broker
  register_answered-Keeps reg t s none = announce-Keeps _ t (registered_event reg t)

  deregister_answered-Keeps :
      (id : String) (info : Option TrackingInfo) (t : Clock) (s : Server b a)
      (failure : Option String)
      → Keeps b k (link s) (link (deregister_answered b a id info t s failure).0)
  unfolding deregister_answered
  deregister_answered-Keeps id info t s (some e) = Keeps-refl b k s.publisher s.broker
  deregister_answered-Keeps id info t s none = announce-Keeps _ t (deregistered_event id info t)

  announce_health-Keeps :
      (req : ReportHealthRequest) (info : Option TrackingInfo) (status : HealthStatus) (t : Clock)
      (s : Server b a)
      → Keeps b k (link s) (link (announce_health b a req info status t s))
  unfolding announce_health
  announce_health-Keeps req none status t s = Keeps-refl b k s.publisher s.broker
  announce_health-Keeps req (some info) status t s =
      elim (Bool-cases (status_eq info.status status)) [
        | inl e ↦ rw (e, announce_health) (Keeps-refl b k s.publisher s.broker)
        | inr e ↦ rw (e, announce_health) (announce-Keeps s t (health_event req info status t))
      ]

  health_answered-Keeps :
      (req : ReportHealthRequest) (info : Option TrackingInfo) (status : HealthStatus) (t : Clock)
      (s : Server b a) (failure : Option String)
      → Keeps b k (link s) (link (health_answered b a req info status t s failure).0)
  unfolding health_answered
  health_answered-Keeps req info status t s (some e) = Keeps-refl b k s.publisher s.broker
  health_answered-Keeps req info status t s none = announce_health-Keeps req info status t _

  answer_rpc-Keeps : (c : Rpc) (s : Server b a) → Keeps b k (link s) (link (answer_rpc b a c s).0)
  unfolding answer_rpc Discovery.register Discovery.deregister Discovery.get_instances
      Discovery.get_services Discovery.report_health
  answer_rpc-Keeps (register_rpc net caller req t) s = register_answered-Keeps _ t _ _
  answer_rpc-Keeps (deregister_rpc id t) s = deregister_answered-Keeps id _ t _ _
  answer_rpc-Keeps (get_instances_rpc name) s = Keeps-refl b k s.publisher s.broker
  answer_rpc-Keeps get_services_rpc s = Keeps-refl b k s.publisher s.broker
  answer_rpc-Keeps (report_health_rpc req t) s =
      let status = from_proto_health req.status in
      let (failure, w) = Consul.update_health a req.service_id status req.output s.agent in
      health_answered-Keeps req (lookup req.service_id s.tracking) status t (record s { agent = w })
        failure

  answer_rpcs-Keeps :
      (cs : List Rpc) (s : Server b a) → Keeps b k (link s) (link (answer_rpcs b a cs s).0)
  unfolding answer_rpcs
  answer_rpcs-Keeps [] s = Keeps-refl b k s.publisher s.broker
  answer_rpcs-Keeps (c ∷ rest) s =
      let s' = (answer_rpc b a c s).0 in
      let s'' = (answer_rpcs b a rest s').0 in
      Keeps-trans b k s.publisher s'.publisher s''.publisher s.broker s'.broker s''.broker
        (answer_rpc-Keeps c s) (answer_rpcs-Keeps rest s')

  listening-Releases :
      (m : DiscoveryMachine) (s : Server b a) (failure : Option String) (w : b.State)
      → Owns b k s.publisher w s.broker
      → Releases b k w (listening b a m s failure).broker
  unfolding listening
  listening-Releases m s (some e) w h = close-Releases b k s.publisher w s.broker h
  listening-Releases m s none w h =
      let s' = (answer_rpcs b a m.rpcs s).0 in
      close-Releases b k s'.publisher w s'.broker (
        Owns-Keeps b k s.publisher s'.publisher w s.broker s'.broker h (answer_rpcs-Keeps m.rpcs s))

  publisher_made-Releases :
      (m : DiscoveryMachine) (registry : Registry) (v : a.State) (w w' : b.State)
      (made : Result Publisher)
      → Makes b k w (made, w')
      → Releases b k w (publisher_made b a m registry v (made, w')).broker
  unfolding publisher_made new_server
  publisher_made-Releases m registry v w w' (err e) h = h
  publisher_made-Releases m registry v w w' (ok p) h =
      listening-Releases m (new_server b a registry p w' v) _ w h

  -- However a run of the discovery server ends, it leaves no connection to RabbitMQ open: not when the
  -- Consul client, the connection, its channel or the listener cannot be made, and not when it has
  -- answered any calls and shut down. Every connection that is open afterwards was open before. (The
  -- AMQP client opens a connection only by a dial that returns it, and a closed one is not open.)
  pub run_discovery-Releases :
      (m : DiscoveryMachine) (w : b.State) (v : a.State)
      → Releases b k w (run_discovery b a m w v).broker
  unfolding run_discovery
  run_discovery-Releases m w v =
      let url = m.getenv "RABBITMQ_URL" in
      let made = new_publisher b url w in
      elim (Result-cases
        (new_registry m.new_client (env_or (m.getenv "CONSUL_ADDRESS") "http://localhost:8500"))) [
          | inl (registry, e) ↦
              rw (e, run_discovery)
                (publisher_made-Releases m registry v w made.1 made.0
                  (new_publisher-Makes b k url w))
          | inr (x, e) ↦ rw (e, run_discovery) (λ d o. o)
        ]
