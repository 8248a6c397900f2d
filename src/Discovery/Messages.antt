-- ===== src/Discovery/Messages.antt =====
-- internal/discovery/server.go: the messages of the service, what the server tracks, and the addresses.
use toska_mesh.Prelude.{
  ℕ, String, Bool, true, false, not, ◌&&◌, ◌||◌, Option, none, some, str_eq, if◌then◌else◌,
}
use toska_mesh.Prelude.Int.{ℤ}
use toska_mesh.Prelude.Dict.{Dict}
use toska_mesh.Prelude.Net.{Net}
use toska_mesh.Types.{HealthStatus, unknown, healthy, unhealthy, degraded}
use toska_mesh.Consul.{HealthCheckConfig}

-- `trackingInfo`; instants are nanoseconds from Go's zero time, which is 0.
pub record TrackingInfo : Type 0 where
  pub service_name : String
  pub registered_at : ℕ
  pub deregistered_at : Option ℕ
  pub last_updated : ℕ
  pub status : HealthStatus
  pub last_health_check : Option ℕ
  pub metadata : Dict String

pub record RegisterServiceRequest : Type 0 where
  pub service_name : String
  pub service_id : String
  pub address : String
  pub port : ℤ
  pub metadata : Dict String
  pub health_check : Option HealthCheckConfig

pub record RegisterServiceResponse : Type 0 where
  pub success : Bool
  pub service_id : String
  pub error_message : String

-- `pb.HealthStatus`, an enum of 32 bits that a client may set to any number
pub data ProtoHealth : Type 0 where
  proto_unknown proto_healthy proto_unhealthy proto_degraded : ProtoHealth
  unrecognized : ℤ → ProtoHealth

pub record ReportHealthRequest : Type 0 where
  pub service_id : String
  pub status : ProtoHealth
  pub output : String

pub record ServiceInstance : Type 0 where
  pub service_name : String
  pub service_id : String
  pub address : String
  pub port : ℤ
  pub status : ProtoHealth
  pub metadata : Dict String
  pub registered_at : ℕ
  pub last_health_check : ℕ

-- `toProtoHealth`
unfoldable pub to_proto_health : HealthStatus → ProtoHealth
to_proto_health healthy = proto_healthy
to_proto_health unhealthy = proto_unhealthy
to_proto_health degraded = proto_degraded
to_proto_health unknown = proto_unknown

-- `fromProtoHealth`
unfoldable pub from_proto_health : ProtoHealth → HealthStatus
from_proto_health proto_healthy = healthy
from_proto_health proto_unhealthy = unhealthy
from_proto_health proto_degraded = degraded
from_proto_health _ = unknown

-- `isRoutable`
unfoldable pub is_routable : Net → String → Bool
is_routable net addr =
    if str_eq addr "" || str_eq addr "0.0.0.0" || str_eq addr "::"
    then false
    else elim (net.parse_ip addr) [
      | none ↦ true
      | some ip ↦ not ip.is_loopback && not ip.is_unspecified
    ]

-- the host of the caller, if it has an address with one that is routable
unfoldable pub caller_host : Net → Option String → Option String
caller_host net none = none
caller_host net (some addr) = elim (net.split_host addr) [
  | none ↦ none
  | some host ↦ if is_routable net host then some host else none
]

-- `resolveAddress`; the caller is `peer.FromContext`.
unfoldable pub resolve_address : Net → Option String → String → String
resolve_address net caller requested =
    if is_routable net requested then requested else elim (caller_host net caller) [
      | some host ↦ host
      | none ↦ if str_eq requested "" then "127.0.0.1" else requested
    ]
