-- ===== src/HealthMonitor/Tests.antt =====
-- The worker at concrete inputs.
use toska_mesh.Prelude.Result.{ok}
use toska_mesh.Prelude.{ℕ, suc, ◌+◌, ◌≡◌, refl, none, some, [], ◌∷◌, arith}
use toska_mesh.Prelude.Int.{pos, add64}
use toska_mesh.Prelude.Dict.{lookup}
use toska_mesh.Types.{healthy}
use toska_mesh.Messaging.{Broker}
use toska_mesh.Consul.{Instance, ServiceEntry, Agent, get_services}
use toska_mesh.HealthMonitor.Breaker.{new_circuit_breaker_with_recovery}
use toska_mesh.HealthMonitor.Cache.{get}
use toska_mesh.HealthMonitor.Config.{Config}
use toska_mesh.HealthMonitor.Probe.{Surroundings}
use toska_mesh.HealthMonitor.Worker.{
  Worker, get_breaker, entry_of, refusal, probe_instance, probe_all,
}
use toska_mesh.HealthMonitor.Worker.Cycle.{IsKeyed, tracked, consul_lists, probe_all-tracked}
use toska_mesh.HealthMonitor.Worker.Unprobed.{IsUnprobed, unprobed-unhealthy}

-- a broker that takes everything and counts the messages
abbrev counting : Broker
counting = record {
  State = ℕ;
  dial = λ url n. (ok 0, n);
  open_channel = λ conn n. (ok 0, n);
  close_channel = λ ch n. (none, n);
  close_connection = λ conn n. (none, n);
  exchange_declare = λ ch name n. (none, n);
  publish_message = λ ch exchange key message n. (none, suc n);
}

abbrev entry : ServiceEntry
entry = record {
  service = record {
    id = "orders-1";
    service = "orders";
    address = "10.0.0.1";
    port = pos 8080;
    meta = [];
  };
  checks = "passing" ∷ [];
}

abbrev one_service : Agent
one_service = record {
  State = Unit;
  service_register = λ reg s. (none, s);
  service_deregister = λ id s. (none, s);
  pass_ttl = λ id output s. (none, s);
  fail_ttl = λ id output s. (none, s);
  warn_ttl = λ id output s. (none, s);
  health_service = λ name s. (ok (entry ∷ []), s);
  catalog_services = λ s. (ok ("orders" ∷ []), s);
  agent_service = λ id s. (ok none, s);
}

abbrev config : Config
config = record {
  probe_interval = pos 30;
  http_timeout = pos 5;
  tcp_timeout = pos 3;
  failure_threshold = pos 1;
  recovery_threshold = pos 2;
  http_headers = [];
}

abbrev worker : Worker
worker = record {
  registry = record { registration_times = [] };
  publisher = record { conn = some 0; ch = some 0; id_counter = 0 };
  cache = record { instances = [] };
  config = config;
  breakers = [];
}

-- what happens around the instant `now`, with every probe answered by 200
abbrev around : ℕ → Surroundings
around now = record {
  new_request = λ url. none;
  http_do = λ url headers. ok (pos 200);
  dial = λ address. none;
  allow_time = now;
  outcome_time = now + 1;
  update_time = now + 2;
  event_time = now + 3;
  sent_time = now + 4;
  event_nano = now + 5;
  sent_nano = now + 6;
}

abbrev unconfigured : Instance
unconfigured = record {
  service_name = "orders";
  service_id = "orders-1";
  address = "10.0.0.1";
  port = pos 8080;
  status = healthy;
  metadata = [];
  registered_at = 0;
  last_health_check = 0;
}

is_unprobed : IsUnprobed unconfigured
unfolding lookup
is_unprobed = (refl, refl)

unprobed-unhealthy_example :
    get
      (probe_instance counting
        (around 40)
        unconfigured
        (probe_instance counting (around 10) unconfigured worker 0).0
        0).0.cache
      "orders-1"
    ≡ some (entry_of (around 40) unconfigured refusal)
unfolding get_breaker lookup new_circuit_breaker_with_recovery add64
unprobed-unhealthy_example =
    unprobed-unhealthy counting (around 10) (around 40) unconfigured worker 0 0 0 is_unprobed refl
      refl refl (omega arith) (omega arith)

unkeyed : IsKeyed worker.cache
unfolding get lookup
unkeyed id m h = cc

one_listed : (get_services one_service tt).0 ≡ ok ("orders" ∷ [])
unfolding get_services
one_listed = refl

probe_all-tracked_example :
    let c = probe_all counting one_service (λ inst. around 10) worker 0 tt in
    tracked c.worker.cache "orders-1"
    ≡ consul_lists one_service worker.registry "orders-1" ("orders" ∷ []) tt
probe_all-tracked_example =
    probe_all-tracked counting one_service (λ inst. around 10) worker 0 tt ("orders" ∷ [])
      "orders-1" unkeyed one_listed
