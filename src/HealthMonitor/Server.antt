-- ===== src/HealthMonitor/Server.antt =====
-- cmd/healthmonitor/main.go and `Worker.Run`: the configuration from the environment, the loop of
-- probe cycles and the HTTP API. A duration wraps at 64 bits and may become negative or zero; `Run`
-- panics on such an interval, which HealthMonitor/Command models. The API answers between two cycles;
-- the signals that end the process, and the server's own timeouts, are left out.
pub mod Sound
pub mod Answers
pub mod Tests
use toska_mesh.Prelude.{String, none, some, List, [], ◌∷◌, if◌then◌else◌}
use toska_mesh.Prelude.Int.{ℤ, pos, ltb_ℤ, seconds}
use toska_mesh.Prelude.Text.{atoi}
use toska_mesh.Prelude.Env.{env_or, positive_or}
use toska_mesh.Messaging.{Broker, Publisher}
use toska_mesh.Consul.{Instance, Agent, Registry}
use toska_mesh.HealthMonitor.Cache.{MonitoredInstance, Cache, get_all, get_by_service}
use toska_mesh.HealthMonitor.Config.{Config, default_config}
use toska_mesh.HealthMonitor.Probe.{Surroundings}
use toska_mesh.HealthMonitor.Worker.{Worker, probe_all}

-- what `run` reads from the environment
pub record Settings : Type 0 where
  pub port : String
  pub consul_addr : String
  pub rabbit_url : String
  pub config : Config

-- `if v, err := strconv.Atoi(value); err == nil && v > 0 { d = time.Duration(v) * time.Second }`
unfoldable pub duration_or : String → ℤ → ℤ
duration_or value fallback = elim (atoi value) [
  | none ↦ fallback
  | some v ↦ if ltb_ℤ (pos 0) v then seconds v else fallback
]

-- the beginning of `run`
unfoldable pub load_settings : (String → String) → Settings
load_settings getenv =
    let cfg = default_config in
    record {
      port = env_or (getenv "HEALTHMONITOR_PORT") "8081";
      consul_addr = env_or (getenv "CONSUL_ADDRESS") "http://localhost:8500";
      rabbit_url = getenv "RABBITMQ_URL";
      config = record cfg {
        probe_interval =
            duration_or (getenv "HEALTHMONITOR_PROBE_INTERVAL_SECONDS") cfg.probe_interval;
        http_timeout = duration_or (getenv "HEALTHMONITOR_HTTP_TIMEOUT_SECONDS") cfg.http_timeout;
        tcp_timeout = duration_or (getenv "HEALTHMONITOR_TCP_TIMEOUT_SECONDS") cfg.tcp_timeout;
        failure_threshold =
            positive_or (getenv "HEALTHMONITOR_FAILURE_THRESHOLD") cfg.failure_threshold;
      };
    }

-- `NewWorker`
unfoldable pub new_worker : Registry → Publisher → Cache → Config → Worker
new_worker registry publisher cache config = record {
  registry = registry;
  publisher = publisher;
  cache = cache;
  config = config;
  breakers = [];
}

-- a request of the API
pub data ApiRequest : Type 0 where
  health status : ApiRequest
  service_status : String → ApiRequest

pub data ApiResponse : Type 0 where
  is_healthy : ApiResponse
  instances : List MonitoredInstance → ApiResponse

-- the results in a response
abbrev pub listed_in : ApiResponse → List MonitoredInstance
listed_in is_healthy = []
listed_in (instances l) = l

-- the handlers of the API
unfoldable pub respond : ApiRequest → Cache → ApiResponse
respond health c = is_healthy
respond status c = instances (get_all c)
respond (service_status name) c = instances (get_by_service c name)

-- What happens next: the ticker fires, or a request comes in.
pub data Action : Type 0 where
  tick : (Instance → Surroundings) → Action
  request : ApiRequest → Action

module _ (b : Broker) (a : Agent) where
  pub record Monitor : Type 0 where
    pub worker : Worker
    pub broker : b.State
    pub agent : a.State

  -- one cycle of the loop of `Run`
  unfoldable pub cycle : (Instance → Surroundings) → Monitor → Monitor
  cycle env m =
      let c = probe_all b a env m.worker m.broker m.agent in
      record { worker = c.worker; broker = c.broker; agent = c.agent }

  -- `Run` and the API: the monitor after these actions, and the responses to the requests
  unfoldable pub serve : List Action → Monitor → Monitor × List ApiResponse
  serve [] m = (m, [])
  serve (tick env ∷ rest) m = serve rest (cycle env m)
  serve (request q ∷ rest) m =
      let (m', responses) = serve rest m in (m', respond q m.worker.cache ∷ responses)

  -- `Run` probes at once, and then on each tick.
  unfoldable pub run_monitor :
      (Instance → Surroundings) → List Action → Monitor → Monitor × List ApiResponse
  unfolding serve cycle
  run_monitor first rest m = serve rest (cycle first m)
