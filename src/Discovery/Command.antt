-- ===== src/Discovery/Command.antt =====
-- `run` of cmd/discovery/main.go: the start of the discovery server, its calls, and its end. The gRPC
-- library, the Consul client's constructor and the network are arguments; the calls come one after
-- another, as the handlers' steps do, and the shutdown waits for the last one. The health service and
-- the reflection of gRPC are left out.
pub mod Released
mod Tests
use toska_mesh.Prelude.{String, Bool, Option, none, some, List, [], ◌∷◌}
use toska_mesh.Prelude.Result.{Result, ok, err}
use toska_mesh.Prelude.Text.{◌+ₛ◌}
use toska_mesh.Prelude.Env.{env_or}
use toska_mesh.Prelude.Net.{Net}
use toska_mesh.Messaging.{Broker, Publisher, new_publisher, close}
use toska_mesh.Consul.{
  Agent, Registry, new_registry, register, deregister, get_instances, get_services,
}
use toska_mesh.Discovery.Messages.{
  RegisterServiceRequest, RegisterServiceResponse, ReportHealthRequest, ServiceInstance,
}
use toska_mesh.Discovery
use toska_mesh.Discovery.{Clock, Server, report_health}

-- A call of a client, with what its handler meets.
pub data Rpc : Type 0 where
  register_rpc : Net → Option String → RegisterServiceRequest → Clock → Rpc
  deregister_rpc : String → Clock → Rpc
  get_instances_rpc : String → Rpc
  get_services_rpc : Rpc
  report_health_rpc : ReportHealthRequest → Clock → Rpc

-- What the client receives.
pub data RpcAnswer : Type 0 where
  registered : RegisterServiceResponse → RpcAnswer
  removed : Bool → RpcAnswer
  instances : Result (List ServiceInstance) → RpcAnswer
  service_names : Result (List String) → RpcAnswer
  health_reported : Bool → RpcAnswer

-- What `run` meets: the environment, `api.NewClient`, `net.Listen`, the calls until the shutdown, and
-- the error that `Serve` returns in the end.
pub record DiscoveryMachine : Type 0 where
  pub getenv : String → String
  pub new_client : Option String → Option String
  pub listen : String → Option String
  pub rpcs : List Rpc
  pub serve_failure : Option String

-- `NewServer`
unfoldable pub new_server :
    (b : Broker) (a : Agent) → Registry → Publisher → b.State → a.State → Server b a
new_server b a registry publisher w v = record {
  registry = registry;
  publisher = publisher;
  tracking = [];
  broker = w;
  agent = v;
}

module _ (b : Broker) (a : Agent) where
  -- the handler of a call
  unfoldable pub answer_rpc : Rpc → Server b a → Server b a × RpcAnswer
  answer_rpc (register_rpc net caller req t) s =
      let (s', r) = Discovery.register b a net caller req t s in (s', registered r)
  answer_rpc (deregister_rpc id t) s =
      let (s', r) = Discovery.deregister b a id t s in (s', removed r)
  answer_rpc (get_instances_rpc name) s =
      let (s', r) = Discovery.get_instances b a name s in (s', instances r)
  answer_rpc get_services_rpc s =
      let (s', r) = Discovery.get_services b a s in (s', service_names r)
  answer_rpc (report_health_rpc req t) s =
      let (s', r) = Discovery.report_health b a req t s in (s', health_reported r)

  -- the calls until the shutdown
  unfoldable pub answer_rpcs : List Rpc → Server b a → Server b a × List RpcAnswer
  answer_rpcs [] s = (s, [])
  answer_rpcs (c ∷ rest) s =
      let (s', r) = answer_rpc c s in let (s'', rs) = answer_rpcs rest s' in (s'', r ∷ rs)

  -- How `run` ends: its error, what the clients received, and what it leaves outside.
  pub record DiscoveryEnded : Type 0 where
    pub failure : Option String
    pub answers : List RpcAnswer
    pub broker : b.State
    pub agent : a.State

  -- `run` behind `net.Listen`; the deferred `publisher.Close()` comes last
  unfoldable pub listening : DiscoveryMachine → Server b a → Option String → DiscoveryEnded
  listening m s (some e) = record {
    failure = some ("listen: " +ₛ e);
    answers = [];
    broker = (close b s.publisher s.broker).1;
    agent = s.agent;
  }
  listening m s none =
      let (s', answers) = answer_rpcs m.rpcs s in
      record {
        failure = m.serve_failure;
        answers = answers;
        broker = (close b s'.publisher s'.broker).1;
        agent = s'.agent;
      }

  -- `run` behind `NewPublisher`
  unfoldable pub publisher_made :
      DiscoveryMachine → Registry → a.State → Result Publisher × b.State → DiscoveryEnded
  publisher_made m registry v (err e, w) = record {
    failure = some ("rabbitmq publisher: " +ₛ e);
    answers = [];
    broker = w;
    agent = v;
  }
  publisher_made m registry v (ok p, w) =
      listening m (new_server b a registry p w v)
        (m.listen (":" +ₛ env_or (m.getenv "DISCOVERY_PORT") "8080"))

  -- `run`
  unfoldable pub run_discovery : DiscoveryMachine → b.State → a.State → DiscoveryEnded
  run_discovery m w v =
      elim (new_registry m.new_client
        (env_or (m.getenv "CONSUL_ADDRESS") "http://localhost:8500")) [
          | err e ↦ record {
            failure = some ("consul registry: " +ₛ e);
            answers = [];
            broker = w;
            agent = v;
          }
          | ok registry ↦ publisher_made m registry v (new_publisher b (m.getenv "RABBITMQ_URL") w)
        ]
