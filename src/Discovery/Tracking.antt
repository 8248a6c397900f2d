-- ===== src/Discovery/Tracking.antt =====
-- internal/discovery/server.go: how the tracked information is changed and read.
use toska_mesh.Prelude.{ℕ, String, none, some, [], ◌∷◌}
use toska_mesh.Prelude.Int.{wrap32}
use toska_mesh.Prelude.Dict.{Dict, lookup, insert}
use toska_mesh.Types.{HealthStatus}
use toska_mesh.Consul.{Instance}
use toska_mesh.Discovery.Messages.{TrackingInfo, ServiceInstance, to_proto_health}

-- the tracking after `Deregister`
unfoldable pub mark_deregistered : String → ℕ → Dict TrackingInfo → Dict TrackingInfo
mark_deregistered id now m = elim (lookup id m) [
  | none ↦ m
  | some info ↦ insert id (record info { deregistered_at = some now; last_updated = now }) m
]

-- `mergeMetadata`: the loop over the tracked metadata
unfoldable pub add_missing : Dict String → Dict String → Dict String
add_missing merged [] = merged
add_missing merged ((k, v) ∷ rest) =
    add_missing (elim (lookup k merged) [ none ↦ insert k v merged | some old ↦ merged ]) rest

-- `mergeMetadata`
unfoldable pub merge_metadata : Dict TrackingInfo → String → Dict String → Dict String
merge_metadata tracking id consul_meta = elim (lookup id tracking) [
  | none ↦ consul_meta
  | some info ↦ add_missing consul_meta info.metadata
]

-- `getTimestamps`
unfoldable pub get_timestamps : Dict TrackingInfo → String → ℕ → ℕ × ℕ
get_timestamps tracking id fallback = elim (lookup id tracking) [
  | none ↦ (fallback, 0)
  | some info ↦ (info.registered_at, elim info.last_health_check [ none ↦ 0 | some t ↦ t ])
]

-- one round of the loop of `GetInstances`
unfoldable pub service_instance : Dict TrackingInfo → Instance → ServiceInstance
service_instance tracking inst =
    let (registered, last_check) = get_timestamps tracking inst.service_id inst.registered_at in
    record {
      service_name = inst.service_name;
      service_id = inst.service_id;
      address = inst.address;
      port = wrap32 inst.port;
      status = to_proto_health inst.status;
      metadata = merge_metadata tracking inst.service_id inst.metadata;
      registered_at = registered;
      last_health_check = last_check;
    }

-- the tracking after `ReportHealth`
unfoldable pub mark_health : String → HealthStatus → ℕ → Dict TrackingInfo → Dict TrackingInfo
mark_health id status now m = elim (lookup id m) [
  | none ↦ m
  | some info ↦
      insert id (record info { status = status; last_health_check = some now; last_updated = now })
        m
]
