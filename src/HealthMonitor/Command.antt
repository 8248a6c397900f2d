-- ===== src/HealthMonitor/Command.antt =====
-- `run` of cmd/healthmonitor/main.go: the start of the health monitor, its work, and its end. The Consul
-- client's constructor and the HTTP server are arguments. The worker is taken to start before `run`
-- returns, and the cycle that is under way when the server ends to finish before.
pub mod Released
mod Tests
use toska_mesh.Prelude.Int.{pos, ltb_ℤ}
use toska_mesh.Prelude.{String, Option, none, some, List, [], if◌then◌else◌}
use toska_mesh.Prelude.Result.{Result, ok, err}
use toska_mesh.Prelude.Text.{◌+ₛ◌}
use toska_mesh.Messaging.{Broker, Publisher, new_publisher, close}
use toska_mesh.Consul.{Instance, Agent, Registry, new_registry}
use toska_mesh.HealthMonitor.Cache.{new_cache}
use toska_mesh.HealthMonitor.Probe.{Surroundings}
use toska_mesh.HealthMonitor.Server.{
  Settings, load_settings, new_worker, ApiResponse, Action, run_monitor,
}

-- What `run` meets: the environment, `api.NewClient`, what the first cycle meets, the actions until the
-- end, and the error of `ListenAndServe`, unless it is `ErrServerClosed`.
pub record MonitorMachine : Type 0 where
  pub getenv : String → String
  pub new_client : Option String → Option String
  pub first : Instance → Surroundings
  pub actions : List Action
  pub serve_failure : Option String

module _ (b : Broker) (a : Agent) where
  -- How `run` ends: its error, the responses of the API, and what it leaves outside.
  pub record MonitorEnded : Type 0 where
    pub failure : Option String
    pub responses : List ApiResponse
    pub broker : b.State
    pub agent : a.State

  -- `run` behind `NewPublisher`; the deferred `publisher.Close()` comes last. The result is `none` if
  -- the process panics, which `time.NewTicker` in `Run` does on an interval that is not positive.
  unfoldable pub monitoring :
      MonitorMachine
      → Settings
      → Registry
      → a.State
      → Result Publisher × b.State
      → Option MonitorEnded
  monitoring m cfg registry v (err e, w) = some (record {
    failure = some ("rabbitmq publisher: " +ₛ e);
    responses = [];
    broker = w;
    agent = v;
  })
  monitoring m cfg registry v (ok p, w) =
      let worker = new_worker registry p new_cache cfg.config in
      let (after, responses) =
        run_monitor b a m.first m.actions (record { worker = worker; broker = w; agent = v }) in
      if ltb_ℤ (pos 0) cfg.config.probe_interval
      then some (record {
        failure = elim m.serve_failure [ none ↦ none | some e ↦ some ("http server: " +ₛ e) ];
        responses = responses;
        broker = (close b after.worker.publisher after.broker).1;
        agent = after.agent;
      })
      else none

  -- `run`, on its settings
  unfoldable pub run_settings : MonitorMachine → Settings → b.State → a.State → Option MonitorEnded
  run_settings m cfg w v = elim (new_registry m.new_client cfg.consul_addr) [
    | err e ↦ some (record {
      failure = some ("consul registry: " +ₛ e);
      responses = [];
      broker = w;
      agent = v;
    })
    | ok registry ↦ monitoring m cfg registry v (new_publisher b cfg.rabbit_url w)
  ]

  -- `run`
  unfoldable pub run_health_monitor : MonitorMachine → b.State → a.State → Option MonitorEnded
  run_health_monitor m w v = run_settings m (load_settings m.getenv) w v
