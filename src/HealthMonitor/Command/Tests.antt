-- ===== src/HealthMonitor/Command/Tests.antt =====
-- A run of the health monitor at concrete inputs.
use toska_mesh.Prelude.{◌≡◌, refl, none, some, []}
use toska_mesh.Messaging.Tests.{single, single_connections}
use toska_mesh.Messaging.Lifecycle.{Releases}
use toska_mesh.HealthMonitor.Server.Tests.{agent, network, unset, settings, loaded, acts}
use toska_mesh.Prelude.Int.{pos}
use toska_mesh.Messaging.{new_publisher}
use toska_mesh.HealthMonitor.Command.{
  MonitorMachine, MonitorEnded, monitoring, run_settings, run_health_monitor,
}
use toska_mesh.HealthMonitor.Command.Released.{run_health_monitor-Releases}
use toska_mesh.Consul.{new_registry}

-- a port that is taken, after two cycles
abbrev machine : MonitorMachine
machine = record {
  getenv = unset;
  new_client = λ addr. none;
  first = network (pos 200);
  actions = acts;
  serve_failure = some "address already in use";
}

-- how it ends
abbrev ended : MonitorEnded single agent
ended = elim (run_settings single agent machine settings none tt) [
  | none ↦ record { failure = none; responses = []; broker = none; agent = tt }
  | some e ↦ e
]

ends : run_health_monitor single agent machine none tt ≡ some ended
unfolding run_health_monitor run_settings monitoring new_publisher new_registry
ends = rw (loaded, run_health_monitor) refl

run_health_monitor-Releases_example : Releases single single_connections none ended.broker
run_health_monitor-Releases_example =
    run_health_monitor-Releases single agent single_connections machine none tt ended ends
