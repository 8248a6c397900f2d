-- ===== src/Discovery.antt =====
-- internal/discovery/server.go: the DiscoveryRegistry gRPC service. The requests and responses are those
-- of pkg/meshpb. A handler runs as one step; what the clock shows at each reading, the caller's
-- address and Go's `net` functions are arguments, logging is left out.
pub mod Messages
pub mod Tracking
pub mod Address
pub mod Handlers
pub mod Served
mod Tests
pub mod Metadata
pub mod Command
use toska_mesh.Prelude.{
  ℕ, String, Bool, true, false, Option, none, some, List, map, str_eq, if◌then◌else◌,
}
use toska_mesh.Prelude.Int.{pos}
use toska_mesh.Prelude.Dict.{Dict, lookup, insert}
use toska_mesh.Prelude.Text.{◌+ₛ◌, format_int}
use toska_mesh.Prelude.Result.{Result, ok, err}
use toska_mesh.Prelude.Net.{Net}
use toska_mesh.Types.{HealthStatus, healthy, to_string, status_eq}
use toska_mesh.Messaging.{
  Event, service_registered, service_deregistered, service_health_changed, Broker, Publisher,
  publish,
}
use toska_mesh.Discovery.Messages.{
  TrackingInfo, RegisterServiceRequest, RegisterServiceResponse, ReportHealthRequest,
  ServiceInstance, from_proto_health, resolve_address,
}
use toska_mesh.Discovery.Tracking.{mark_deregistered, service_instance, mark_health}
use toska_mesh.Consul.{Registration, Agent, Registry, update_health}
use toska_mesh.Consul

-- What the clock shows at the readings of one handler.
pub record Clock : Type 0 where
  pub id_nano : ℕ
  pub registry_now : ℕ
  pub now : ℕ
  pub event_nano : ℕ
  pub sent_time : ℕ
  pub sent_nano : ℕ

unfoldable pub service_id_of : RegisterServiceRequest → Clock → String
service_id_of req t =
    if str_eq req.service_id ""
    then req.service_name +ₛ "-" +ₛ format_int (pos t.id_nano) 10
    else req.service_id

unfoldable pub registration_of : Net → Option String → RegisterServiceRequest → Clock → Registration
unfolding service_id_of
registration_of net caller req t = record {
  service_name = req.service_name;
  service_id = service_id_of req t;
  address = resolve_address net caller req.address;
  port = req.port;
  metadata = req.metadata;
  health_check = req.health_check;
}

unfoldable pub new_tracking : Registration → Clock → TrackingInfo
new_tracking reg t = record {
  service_name = reg.service_name;
  registered_at = t.now;
  deregistered_at = none;
  last_updated = t.now;
  status = healthy;
  last_health_check = none;
  metadata = reg.metadata;
}

unfoldable pub registered_event : Registration → Clock → Event
registered_event reg t = service_registered (record {
  event_id = format_int (pos t.event_nano) 10;
  timestamp = t.now;
  correlation_id = "";
  service_id = reg.service_id;
  service_name = reg.service_name;
  address = reg.address;
  port = reg.port;
  metadata = reg.metadata;
})

unfoldable pub name_of : Option TrackingInfo → String
name_of none = ""
name_of (some info) = info.service_name

unfoldable pub deregistered_event : String → Option TrackingInfo → Clock → Event
unfolding name_of
deregistered_event id info t = service_deregistered (record {
  event_id = format_int (pos t.event_nano) 10;
  timestamp = t.now;
  correlation_id = "";
  service_id = id;
  service_name = name_of info;
  reason = "Manual deregistration";
})

unfoldable pub health_event : ReportHealthRequest → TrackingInfo → HealthStatus → Clock → Event
health_event req info status t = service_health_changed (record {
  event_id = format_int (pos t.event_nano) 10;
  timestamp = t.now;
  correlation_id = "";
  service_id = req.service_id;
  service_name = info.service_name;
  previous_status = to_string info.status;
  current_status = to_string status;
  health_check_output = req.output;
})

-- The server, with the outside: `NewServer` starts from empty maps.
module _ (b : Broker) (a : Agent) where
  pub record Server : Type 0 where
    pub registry : Registry
    pub publisher : Publisher
    pub tracking : Dict TrackingInfo
    pub broker : b.State
    pub agent : a.State

  -- `s.publisher.Publish(ctx, event)`, whose error is only logged
  unfoldable pub announce : Server → Clock → Event → Server
  announce s t event =
      let (failure, p, w) = publish b s.publisher event t.sent_time t.sent_nano s.broker in
      record s { publisher = p; broker = w }

  -- `Register` after the registry has answered
  pub register_answered :
      Registration → Clock → Server → Option String → Server × RegisterServiceResponse
  register_answered reg t s (some e) =
      (s, record { success = false; service_id = reg.service_id; error_message = e })
  register_answered reg t s none = (
    announce (record s { tracking = insert reg.service_id (new_tracking reg t) s.tracking }) t
        (registered_event reg t),
    record { success = true; service_id = reg.service_id; error_message = "" },
  )

  -- `Register`
  unfoldable pub register :
      Net
      → Option String
      → RegisterServiceRequest
      → Clock
      → Server
      → Server × RegisterServiceResponse
  unfolding register_answered
  register net caller req t s =
      let reg = registration_of net caller req t in
      let (failure, r, w) = Consul.register a s.registry reg t.registry_now s.agent in
      register_answered reg t (record s { registry = r; agent = w }) failure

  pub deregister_answered :
      String → Option TrackingInfo → Clock → Server → Option String → Server × Bool
  deregister_answered id info t s (some e) = (s, false)
  deregister_answered id info t s none = (
    announce (record s { tracking = mark_deregistered id t.now s.tracking }) t
        (deregistered_event id info t),
    true,
  )

  -- `Deregister`; the answer is the response's `Removed`.
  unfoldable pub deregister : String → Clock → Server → Server × Bool
  unfolding deregister_answered
  deregister id t s =
      let (failure, r, w) = Consul.deregister a s.registry id s.agent in
      deregister_answered id (lookup id s.tracking) t (record s { registry = r; agent = w }) failure

  -- `GetInstances`
  unfoldable pub get_instances : String → Server → Server × Result (List ServiceInstance)
  get_instances name s =
      let (answer, w) = Consul.get_instances a s.registry name s.agent in
      let result : Result (List ServiceInstance) = elim answer [
        | err e ↦ err ("get instances: " +ₛ e)
        | ok instances ↦ ok (map (service_instance s.tracking) instances)
      ] in
      (record s { agent = w }, result)

  -- `GetServices`
  unfoldable pub get_services : Server → Server × Result (List String)
  get_services s =
      let (answer, w) = Consul.get_services a s.agent in
      let result : Result (List String) = elim answer [
        | err e ↦ err ("get services: " +ₛ e)
        | ok names ↦ ok names
      ] in
      (record s { agent = w }, result)

  -- the end of `ReportHealth`
  pub announce_health :
      ReportHealthRequest → Option TrackingInfo → HealthStatus → Clock → Server → Server
  announce_health req none status t s = s
  announce_health req (some info) status t s =
      if status_eq info.status status then s else announce s t (health_event req info status t)

  pub health_answered :
      ReportHealthRequest
      → Option TrackingInfo
      → HealthStatus
      → Clock
      → Server
      → Option String
      → Server × Bool
  unfolding announce_health
  health_answered req info status t s (some e) = (s, false)
  health_answered req info status t s none = (
    announce_health req info status t
        (record s { tracking = mark_health req.service_id status t.now s.tracking }),
    true,
  )

  -- `ReportHealth`; the answer is the response's `Success`.
  unfoldable pub report_health : ReportHealthRequest → Clock → Server → Server × Bool
  unfolding health_answered
  report_health req t s =
      let status = from_proto_health req.status in
      let (failure, w) = Consul.update_health a req.service_id status req.output s.agent in
      health_answered req (lookup req.service_id s.tracking) status t (record s { agent = w })
        failure
