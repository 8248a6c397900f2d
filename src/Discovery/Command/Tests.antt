-- ===== src/Discovery/Command/Tests.antt =====
-- A run of the discovery server at concrete inputs.
use toska_mesh.Prelude.{String, ◌≡◌, refl, Option, none, some, [], ◌∷◌, str_eq, if◌then◌else◌}
use toska_mesh.Prelude.Result.{ok}
use toska_mesh.Messaging.{new_publisher}
use toska_mesh.Messaging.Tests.{single, single_connections}
use toska_mesh.Messaging.Lifecycle.{Releases}
use toska_mesh.Consul.{Agent, new_registry, get_services}
use toska_mesh.Discovery
use toska_mesh.Discovery.Command.{
  get_services_rpc, service_names, DiscoveryMachine, answer_rpc, answer_rpcs, listening,
  publisher_made, run_discovery,
}
use toska_mesh.Discovery.Command.Released.{run_discovery-Releases}

abbrev agent : Agent
agent = record {
  State = Unit;
  service_register = λ reg s. (none, s);
  service_deregister = λ id s. (none, s);
  pass_ttl = λ id output s. (none, s);
  fail_ttl = λ id output s. (none, s);
  warn_ttl = λ id output s. (none, s);
  health_service = λ name s. (ok [], s);
  catalog_services = λ s. (ok ("orders" ∷ []), s);
  agent_service = λ id s. (ok none, s);
}

-- with a broker, and a port that can be had or not
abbrev machine : Option String → DiscoveryMachine
machine failure = record {
  getenv = λ name. if str_eq name "RABBITMQ_URL" then "amqp://localhost" else "";
  new_client = λ addr. none;
  listen = λ addr. failure;
  rpcs = get_services_rpc ∷ [];
  serve_failure = none;
}

run_discovery-Releases_example :
    Releases single single_connections none
      (run_discovery single agent (machine (some "in use")) none tt).broker
run_discovery-Releases_example =
    run_discovery-Releases single agent single_connections (machine (some "in use")) none tt

in_use :
    (run_discovery single agent (machine (some "in use")) none tt).failure ≡ some "listen: in use"
unfolding run_discovery new_registry publisher_made listening new_publisher
in_use = refl

one_answer :
    (run_discovery single agent (machine none) none tt).answers
    ≡ service_names (ok ("orders" ∷ [])) ∷ []
unfolding run_discovery new_registry publisher_made listening new_publisher answer_rpcs answer_rpc
    Discovery.get_services get_services
one_answer = refl
