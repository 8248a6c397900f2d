-- ===== src/Discovery/Metadata.antt =====
-- How the tracked metadata and Consul's are merged, and how health travels in protobuf.
use toska_mesh.Prelude.{
  String, ◌≡◌, refl, inl, inr, Option, none, some, [], ◌∷◌, arith, eq_iff, Option-cases,
}
use toska_mesh.Prelude.Dict.{Dict, lookup, insert, lookup-insert}
use toska_mesh.Types.{HealthStatus, unknown, healthy, unhealthy, degraded}
use toska_mesh.Discovery.Messages.{TrackingInfo, to_proto_health, from_proto_health}
use toska_mesh.Discovery.Tracking.{add_missing, merge_metadata}

-- the first of the two values that is there
abbrev pub or_else : Option String → Option String → Option String
or_else none o = o
or_else (some v) o = some v

lookup-add_missing :
    (merged extra : Dict String) (k : String)
    → lookup k (add_missing merged extra) ≡ or_else (lookup k merged) (lookup k extra)
unfolding add_missing lookup
lookup-add_missing merged [] k = ground arith
lookup-add_missing merged ((j, v) ∷ rest) k = ground (
  arith,
  lookup-add_missing merged rest k,
  lookup-add_missing (insert j v merged) rest k,
  lookup-insert j k v merged,
  eq_iff j k,
)

-- A key of the merged metadata has Consul's value if Consul has the key, else the value that was
-- given at registration, if the ID is tracked.
pub merge_metadata-lookup :
    (tracking : Dict TrackingInfo) (id : String) (meta : Dict String) (k : String)
    → lookup k (merge_metadata tracking id meta)
      ≡ or_else
          (lookup k meta)
          (elim (lookup id tracking) [ none ↦ none | some info ↦ lookup k info.metadata ])
unfolding merge_metadata
merge_metadata-lookup tracking id meta k = elim (Option-cases (lookup id tracking)) [
  | inl n ↦ rw (n, merge_metadata) (ground arith)
  | inr (info, e) ↦ rw (e, merge_metadata) (lookup-add_missing meta info.metadata k)
]

-- Health that the server sends is read back as it was.
pub from_proto_health-to_proto_health :
    (h : HealthStatus) → from_proto_health (to_proto_health h) ≡ h
unfolding from_proto_health to_proto_health
from_proto_health-to_proto_health unknown = refl
from_proto_health-to_proto_health healthy = refl
from_proto_health-to_proto_health unhealthy = refl
from_proto_health-to_proto_health degraded = refl
