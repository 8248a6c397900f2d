-- ===== src/Discovery/Tests.antt =====
-- The server at concrete inputs.
use toska_mesh.Consul
use toska_mesh.Discovery
use toska_mesh.Discovery.Served.{served, get_instances-register}
use toska_mesh.Consul.Catalog.Kept.{kept_agent, kept_agent-Documented}
use toska_mesh.Discovery.Messages.{
  TrackingInfo, RegisterServiceRequest, to_proto_health, resolve_address,
}
use toska_mesh.Discovery.Tracking.{add_missing, merge_metadata, get_timestamps, service_instance}
use toska_mesh.Discovery.{
  Clock, registration_of, new_tracking, Server, announce, register, get_instances,
}
use toska_mesh.Prelude.Result.{ok}
use toska_mesh.Prelude.{ℕ, suc, refl, true, false, none, some, [], ◌∷◌, str_eq, if◌then◌else◌, In}
use toska_mesh.Prelude.Int.{pos}
use toska_mesh.Prelude.Dict.{lookup, insert}
use toska_mesh.Types.{healthy}
use toska_mesh.Messaging.{Broker}
use toska_mesh.Consul.{Agent, agent_registration, map_health_status, instance_of}
use toska_mesh.Prelude.Net.{Net}

abbrev counting : Broker
counting = record {
  State = ℕ;
  dial = λ url n. (ok 0, n);
  open_channel = λ conn n. (ok 0, n);
  close_channel = λ ch n. (none, n);
  close_connection = λ conn n. (none, n);
  exchange_declare = λ ch name n. (none, n);
  publish_message = λ ch exchange key message n. (none, suc n);
}

abbrev quiet : Agent
quiet = record {
  State = Unit;
  service_register = λ reg s. (none, s);
  service_deregister = λ id s. (none, s);
  pass_ttl = λ id output s. (none, s);
  fail_ttl = λ id output s. (none, s);
  warn_ttl = λ id output s. (none, s);
  health_service = λ name s. (ok [], s);
  catalog_services = λ s. (ok [], s);
  agent_service = λ id s. (ok none, s);
}

abbrev info : TrackingInfo
info = record {
  service_name = "orders";
  registered_at = 5;
  deregistered_at = none;
  last_updated = 5;
  status = healthy;
  last_health_check = none;
  metadata = ("zone", "eu") ∷ [];
}

abbrev server : Server counting quiet
server = record {
  registry = record { registration_times = [] };
  publisher = record { conn = some 0; ch = some 0; id_counter = 0 };
  tracking = ("orders-1", info) ∷ [];
  broker = 0;
  agent = tt;
}

abbrev clock : Clock
clock = record {
  id_nano = 10;
  registry_now = 11;
  now = 12;
  event_nano = 13;
  sent_time = 14;
  sent_nano = 15;
}

-- a parser that knows two addresses
abbrev net : Net
net = record {
  parse_ip = λ s.
      if str_eq s "127.0.0.1"
      then some (record { is_loopback = true; is_unspecified = false })
      else if str_eq s "10.0.0.9"
      then some (record { is_loopback = false; is_unspecified = false })
      else none;
  split_host = λ s. some "10.0.0.9";
}

abbrev request : RegisterServiceRequest
request = record {
  service_name = "orders";
  service_id = "orders-1";
  address = "10.0.0.9";
  port = pos 8080;
  metadata = ("zone", "eu") ∷ [];
  health_check = none;
}

abbrev empty : Server counting kept_agent
empty = record {
  registry = record { registration_times = [] };
  publisher = record { conn = some 0; ch = some 0; id_counter = 0 };
  tracking = [];
  broker = 0;
  agent = [];
}

get_instances-register_example :
    In (served net none request clock) (served net none request clock ∷ [])
unfolding Discovery.register Discovery.get_instances Consul.register Consul.get_instances
    Discovery.announce insert Consul.agent_registration Discovery.registration_of service_instance
    Consul.instance_of resolve_address to_proto_health merge_metadata get_timestamps
    Consul.map_health_status lookup add_missing Discovery.new_tracking
get_instances-register_example =
    get_instances-register counting kept_agent kept_agent-Documented net none request clock empty
      (served net none request clock ∷ []) refl refl refl
