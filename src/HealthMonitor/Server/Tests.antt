-- ===== src/HealthMonitor/Server/Tests.antt =====
-- The health monitor at concrete inputs.
use toska_mesh.Prelude.Result.{ok}
use toska_mesh.Prelude.{
  ◌*◌, ◌^◌, String, ◌≡◌, refl, inl, inr, none, some, List, [], ◌∷◌, str_eq, if◌then◌else◌,
}
use toska_mesh.Prelude.Int.{ℤ, pos, seconds}
use toska_mesh.Prelude.Env.{env_or, positive_or}
use toska_mesh.Prelude.Text.{digits, unsigned, atoi, format_int}
use toska_mesh.Prelude.Dict.{lookup, insert}
use toska_mesh.Types.{healthy}
use toska_mesh.Messaging.{Broker, Publisher}
use toska_mesh.Consul.{
  Instance, ServiceEntry, Agent, Registry, instance_of, get_instances, get_services,
}
use toska_mesh.HealthMonitor.Cache.{
  MonitoredInstance, new_cache, update, get_all, get, previous_status,
}
use toska_mesh.HealthMonitor.Config.{default_config}
use toska_mesh.HealthMonitor.Probe.{Surroundings, base_url, http_probe, run_probes}
use toska_mesh.HealthMonitor.Worker.{
  Worker, get_breaker, entry_of, update_status, probe_allowed, probe_instance, probe_list,
  evict_stale, probe_service, probe_services, probe_all,
}
use toska_mesh.HealthMonitor.Worker.Order.{kept, probed_alone, kept-probe_list_In}
use toska_mesh.HealthMonitor.Breaker.{new_circuit_breaker_with_recovery, allow, record_success}
use toska_mesh.HealthMonitor.Server.{
  Settings, duration_or, load_settings, new_worker, status, service_status, Action, tick, request,
  Monitor, run_monitor,
}
use toska_mesh.HealthMonitor.Worker.Sound.{IsSound}
use toska_mesh.HealthMonitor.Server.Sound.{run_monitor-IsSound}

abbrev deaf : Broker
deaf = record {
  State = Unit;
  dial = λ url s. (ok 0, s);
  open_channel = λ conn s. (ok 0, s);
  close_channel = λ ch s. (none, s);
  close_connection = λ conn s. (none, s);
  exchange_declare = λ ch name s. (none, s);
  publish_message = λ ch exchange key message s. (none, s);
}

-- one service, with one instance that has an endpoint for probes
abbrev entry : ServiceEntry
entry = record {
  service = record {
    id = "orders-1";
    service = "orders";
    address = "10.0.0.1";
    port = pos 8080;
    meta = ("health_check_endpoint", "/health") ∷ [];
  };
  checks = "passing" ∷ [];
}

abbrev pub agent : Agent
agent = record {
  State = Unit;
  service_register = λ reg s. (none, s);
  service_deregister = λ id s. (none, s);
  pass_ttl = λ id output s. (none, s);
  fail_ttl = λ id output s. (none, s);
  warn_ttl = λ id output s. (none, s);
  health_service = λ name s. (ok (entry ∷ []), s);
  catalog_services = λ s. (ok ("orders" ∷ []), s);
  agent_service = λ id s. (ok none, s);
}

-- a network in which every probe has this status code
abbrev pub network : ℤ → Instance → Surroundings
network code inst = record {
  new_request = λ url. none;
  http_do = λ url headers. ok code;
  dial = λ address. none;
  allow_time = 10;
  outcome_time = 11;
  update_time = 12;
  event_time = 13;
  sent_time = 14;
  event_nano = 15;
  sent_nano = 16;
}

abbrev pub unset : String → String
unset name = if str_eq name "HEALTHMONITOR_FAILURE_THRESHOLD" then "2" else ""

abbrev pub settings : Settings
settings = record {
  port = "8081";
  consul_addr = "http://localhost:8500";
  rabbit_url = "";
  config = record {
    probe_interval = pos (30 * 10 ^ 9);
    http_timeout = pos (5 * 10 ^ 9);
    tcp_timeout = pos (3 * 10 ^ 9);
    failure_threshold = pos 2;
    recovery_threshold = pos 2;
    http_headers = [];
  };
}

pub loaded : load_settings unset ≡ settings
unfolding load_settings seconds duration_or positive_or env_or atoi unsigned digits default_config
loaded = refl

abbrev registry : Registry
registry = record { registration_times = [] }

abbrev publisher : Publisher
publisher = record { conn = none; ch = none; id_counter = 0 }

abbrev pub acts : List Action
acts = request (service_status "orders") ∷ tick (network (pos 503)) ∷ request status ∷ []

abbrev start : Monitor deaf agent
start = record {
  worker = new_worker registry publisher new_cache settings.config;
  broker = tt;
  agent = tt;
}

run_monitor-IsSound_example :
    IsSound (run_monitor deaf agent (network (pos 200)) acts start).0.worker
run_monitor-IsSound_example =
    run_monitor-IsSound deaf agent unset settings registry publisher tt tt (network (pos 200)) acts
      loaded

abbrev probed : MonitoredInstance
probed = record {
  service_id = "orders-1";
  service_name = "orders";
  address = "10.0.0.1";
  port = pos 8080;
  status = healthy;
  last_probe = 12;
  probe_type = "http";
  message = "HTTP 200";
  metadata = ("health_check_endpoint", "/health") ∷ [];
}

-- the worker after its first cycle
abbrev worker : Worker
worker = (run_monitor deaf agent (network (pos 200)) [] start).0.worker

-- the result that the cycle leaves
found : get worker.cache "orders-1" ≡ some probed
unfolding get run_monitor new_worker new_cache lookup insert probe_all get_services evict_stale
    get_all probe_services probe_service get_instances probe_list probe_instance allow get_breaker
    new_circuit_breaker_with_recovery probe_allowed update_status previous_status run_probes
    instance_of record_success update base_url entry_of http_probe format_int
found = refl

abbrev instance_named : String → Instance
instance_named id = record {
  service_name = "orders";
  service_id = id;
  address = "10.0.0.1";
  port = pos 8080;
  status = healthy;
  metadata = ("health_check_endpoint", "/health") ∷ [];
  registered_at = 0;
  last_health_check = 0;
}

abbrev insts : List Instance
insts = instance_named "orders-1" ∷ instance_named "orders-2" ∷ []

kept-probe_list_In_example :
    kept (probe_list deaf (network (pos 200)) insts worker tt).0 "orders-2"
    ≡ probed_alone
        (network (pos 200) (instance_named "orders-2"))
        (instance_named "orders-2")
        worker
kept-probe_list_In_example =
    kept-probe_list_In deaf (network (pos 200)) insts worker tt (instance_named "orders-2")
      (refl, (refl, tt)) (inr (inl refl))
